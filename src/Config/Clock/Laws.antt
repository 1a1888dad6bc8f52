-- ===== src/Config/Clock/Laws.antt =====
-- The clocks that `normalizeClock` of internal/config/config.go returns, and how they are read.
use cdtalive.Prelude.{
  ℕ, ◌+◌, ◌*◌, ◌/◌, ◌%◌, ◌<◌, ◌≤◌, ◌≡◌, refl, Option, none, some, ◌∷◌, ◌++◌, true, false, arith, ap,
  Bool, ◌==◌, ==_iff, ◌||◌, if◌then◌else◌, ltb, inl, inr, Bool-cases,
}
use cdtalive.Prelude.Int.{ℤ, pos, negsuc, ltb_ℤ}
use cdtalive.Prelude.Decimals.{two_digits, format_02d-two_digits, all_below, all_below_sound}
use cdtalive.Prelude.Options.{>>=-eq-some}
use cdtalive.Prelude.Text.{Text, split, atoi, format_02d, text_eq, text_eq_iff}
use cdtalive.Config.Clock.{
  two_parts, normalize_clock, normalize_schedule_clock, end_of_day, schedule_clock_minutes,
}

-- The canonical text `HH:MM` of a time of day, in minutes.
abbrev pub clock : ℕ → Text
clock t = two_digits (t / 60) ++ b':' ∷ two_digits (t % 60)

abbrev reads_as : Option Text → Text → Bool
reads_as none t = false
reads_as (some s) t = text_eq s t

reads_as_sound : (o : Option Text) (t : Text) → reads_as o t ≡ true → o ≡ some t
reads_as_sound none t h = cc
reads_as_sound (some s) t h = ap some ((text_eq_iff s t).0 h)

normalize_table : all_below 1440 (λ t. reads_as (normalize_clock (clock t)) (clock t)) ≡ true
unfolding all_below normalize_clock split atoi format_02d
normalize_table = refl

pub normalize_clock-clock : (t : ℕ) → t < 1440 → normalize_clock (clock t) ≡ some (clock t)
normalize_clock-clock t h =
    reads_as_sound (normalize_clock (clock t)) (clock t)
      (all_below_sound _ 1440 t h normalize_table)

minutes_table : all_below 1441 (λ t. schedule_clock_minutes (clock t) == t) ≡ true
unfolding all_below schedule_clock_minutes
minutes_table = refl

pub schedule_clock_minutes-clock : (t : ℕ) → t ≤ 1440 → schedule_clock_minutes (clock t) ≡ t
schedule_clock_minutes-clock t h =
    (==_iff _ t).0 (all_below_sound _ 1441 t (omega arith) minutes_table)

start_table :
    all_below 1440 (λ t. reads_as (normalize_schedule_clock (clock t) false) (clock t)) ≡ true
unfolding all_below normalize_schedule_clock normalize_clock split atoi format_02d
start_table = refl

pub normalize_schedule_clock-clock_start :
    (t : ℕ) → t < 1440 → normalize_schedule_clock (clock t) false ≡ some (clock t)
normalize_schedule_clock-clock_start t h =
    reads_as_sound (normalize_schedule_clock (clock t) false) (clock t)
      (all_below_sound _ 1440 t h start_table)

end_table :
    all_below 1441 (λ t. reads_as (normalize_schedule_clock (clock t) true) (clock t)) ≡ true
unfolding all_below normalize_schedule_clock normalize_clock split atoi format_02d
end_table = refl

pub normalize_schedule_clock-clock_end :
    (t : ℕ) → t ≤ 1440 → normalize_schedule_clock (clock t) true ≡ some (clock t)
normalize_schedule_clock-clock_end t h =
    reads_as_sound (normalize_schedule_clock (clock t) true) (clock t)
      (all_below_sound _ 1441 t (omega arith) end_table)

-- A normalized clock, or one that may be 24:00 too.
abbrev pub IsClock : ℕ → Text → Type 0
IsClock bound v = (t : ℕ) × (t < bound) × (v ≡ clock t)

clock_of_fields :
    (h m : ℕ)
    → h < 24
    → m < 60
    → format_02d (pos h) ++ b':' ∷ format_02d (pos m) ≡ clock (h * 60 + m)
clock_of_fields h m hh hm =
    let eh : (h * 60 + m) / 60 ≡ h = omega arith in
    let em : (h * 60 + m) % 60 ≡ m = omega arith in
    rw (format_02d-two_digits h (omega arith), format_02d-two_digits m (omega arith), eh, em)

fields_IsClock :
    (hour minute : ℤ) (v : Text)
    → (if ltb_ℤ hour (pos 0) || ltb_ℤ (pos 23) hour || ltb_ℤ minute (pos 0) || ltb_ℤ (pos 59) minute
        then none
        else some (format_02d hour ++ b':' ∷ format_02d minute))
      ≡ some v
    → IsClock 1440 v
fields_IsClock (pos h) (pos m) v e = elim (Bool-cases (ltb 23 h || ltb 59 m)) [
  | inl out ↦ ground arith
  | inr fits ↦ (h * 60 + m, ground arith, ground (arith, clock_of_fields h m))
]
fields_IsClock (pos h) (negsuc m) v e = ground arith
fields_IsClock (negsuc h) m v e = ground arith

pub normalize_clock-IsClock : (value v : Text) → normalize_clock value ≡ some v → IsClock 1440 v
unfolding normalize_clock
normalize_clock-IsClock value v e =
    let (parts, _, e₁) = >>=-eq-some (two_parts (split b':' value)) _ e in
    let (hour, _, e₂) = >>=-eq-some (atoi parts.0) _ e₁ in
    let (minute, _, e₃) = >>=-eq-some (atoi parts.1) _ e₂ in fields_IsClock hour minute v e₃

pub normalize_schedule_clock-IsClock_start :
    (value v : Text) → normalize_schedule_clock value false ≡ some v → IsClock 1440 v
unfolding normalize_schedule_clock
normalize_schedule_clock-IsClock_start value v e = normalize_clock-IsClock value v e

pub normalize_schedule_clock-IsClock_end :
    (value v : Text) → normalize_schedule_clock value true ≡ some v → IsClock 1441 v
unfolding normalize_schedule_clock
normalize_schedule_clock-IsClock_end value v e = elim (Bool-cases (text_eq value end_of_day)) [
  | inl same ↦ (1440, omega arith, ground (arith, text_eq_iff value end_of_day))
  | inr other ↦
      let (t, h, c) = normalize_clock-IsClock value v (ground arith) in (t, omega arith, c)
]
