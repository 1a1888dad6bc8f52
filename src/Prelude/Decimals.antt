-- ===== src/Prelude/Decimals.antt =====
-- Two-digit decimals: what `%02d` prints and `strconv.Atoi` reads below one hundred.
use Prim.Native.Nat.{ℕ, zero, suc, ◌+◌, ◌/◌, ◌%◌, ◌<◌}
use mathlib.Core.Path.{◌≡◌, refl, ap}
use mathlib.Core.Bool.{Bool, true, false, ◌&&◌}
use mathlib.Core.List.{[], ◌∷◌}
use mathlib.Core.Option.{Option, none, some}
use native.Mathlib.Omega.{arith}
use cdtalive.Prelude.Int.{pos, ℤ, int_eq, int_eq_iff}
use cdtalive.Prelude.Text.{Text, text_eq, text_eq_iff, atoi, format_02d}

abbrev pub two_digits : ℕ → Text
two_digits n = (b'0' + n / 10) ∷ (b'0' + n % 10) ∷ []

-- Over a small range, a test is checked at every number by evaluation.
unfoldable pub all_below : ℕ → (ℕ → Bool) → Bool
all_below zero p = true
all_below (suc n) p = p n && all_below n p

module _ (p : ℕ → Bool) where
  pub all_below_sound : (n x : ℕ) → x < n → all_below n p ≡ true → p x ≡ true
  unfolding all_below
  all_below_sound zero x = λ small _. absurd (omega arith)
  all_below_sound (suc n) x = λ small tested. ground (arith, all_below_sound n x)

format_table : all_below 100 (λ n. text_eq (format_02d (pos n)) (two_digits n)) ≡ true
unfolding all_below format_02d
format_table = refl

pub format_02d-two_digits : (n : ℕ) → n < 100 → format_02d (pos n) ≡ two_digits n
format_02d-two_digits n h =
    (text_eq_iff (format_02d (pos n)) (two_digits n)).0 (all_below_sound _ 100 n h format_table)

abbrev pub reads_back : Option ℤ → ℕ → Bool
reads_back none n = false
reads_back (some z) n = int_eq z (pos n)

atoi_table : all_below 100 (λ n. reads_back (atoi (two_digits n)) n) ≡ true
unfolding all_below atoi
atoi_table = refl

reads_back_sound : (o : Option ℤ) (n : ℕ) → reads_back o n ≡ true → o ≡ some (pos n)
reads_back_sound none n h = cc
reads_back_sound (some z) n h = ap some ((int_eq_iff z (pos n)).0 h)

pub atoi-two_digits : (n : ℕ) → n < 100 → atoi (two_digits n) ≡ some (pos n)
atoi-two_digits n h =
    reads_back_sound (atoi (two_digits n)) n (all_below_sound _ 100 n h atoi_table)
