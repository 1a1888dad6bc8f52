-- ===== src/Prelude/Results.antt =====
-- Fallible results `(value, error)`, with the error's type as a parameter.
use mathlib.Core.Path.{◌≡◌, refl, subst}
use mathlib.Core.Logic.{◌⊎◌, inl, inr}
use mathlib.Core.Bool.{Bool, true, false}
use mathlib.Core.Option.{Option, none, some}
use mathlib.Core.List.{List, [], ◌∷◌}
use cdtalive.Prelude.Lists.{All}

pub data Result {ℓ} (E : Type 0) (A : Type ℓ) : Type ℓ where
  ok : A → Result E A
  err : E → Result E A

infixl 5 ◌>>=◌ ◌>>◌
abbrev pub ◌>>=◌ {ℓ κ} :
    {E : Type 0} {A : Type ℓ} {B : Type κ} → Result E A → (A → Result E B) → Result E B
ok a >>= f = f a
err e >>= f = err e

abbrev pub ◌>>◌ {ℓ} : {E : Type 0} {B : Type ℓ} → Result E (Unit {0}) → Result E B → Result E B
m >> k = m >>= λ _. k

-- `if test { return err }`
abbrev pub fail_if : {E : Type 0} → Bool → E → Result E (Unit {0})
fail_if true e = err e
fail_if false e = ok tt

pub Result-cases {ℓ} :
    {E : Type 0} {A : Type ℓ} (r : Result E A) → ((a : A) × (r ≡ ok a)) ⊎ ((e : E) × (r ≡ err e))
Result-cases (ok a) = inl (a, refl)
Result-cases (err e) = inr (e, refl)

-- An error in place of a missing value.
abbrev pub or_err {ℓ} : {E : Type 0} {A : Type ℓ} → Option A → E → Result E A
or_err none e = err e
or_err (some a) e = ok a

-- A loop that appends one result for each item, and stops at the first error.
unfoldable pub traverse : {E A B : Type 0} → (A → Result E B) → List A → Result E (List B)
traverse f [] = ok []
traverse f (x ∷ xs) = do y ← f x; ys ← traverse f xs; ok (y ∷ ys)

-- What a result meets, if it is no error.
abbrev pub Ensures {ℓ} : {E : Type 0} {A : Type 0} → (A → Type ℓ) → Result E A → Type ℓ
Ensures P (ok a) = P a
Ensures P (err e) = Unit

pub Ensures-ok {ℓ} :
    {E A : Type 0} (P : A → Type ℓ) (r : Result E A) {a : A} → Ensures P r → r ≡ ok a → P a
Ensures-ok P (ok b) h e = subst P (cc e) h
Ensures-ok P (err x) h e = cc

pub Ensures->>= {ℓ κ} :
    {E A B : Type 0} (P : A → Type ℓ) (Q : B → Type κ) (r : Result E A) (f : A → Result E B)
    → Ensures P r
    → ((a : A) → P a → Ensures Q (f a))
    → Ensures Q (r >>= f)
Ensures->>= P Q (ok a) f h k = k a h
Ensures->>= P Q (err e) f h k = tt

module _ {E A B : Type 0} (f : A → Result E B) where
  pub traverse-Ensures :
      (P : B → Type 0) (xs : List A) → ((x : A) → Ensures P (f x)) → Ensures (All P) (traverse f xs)
  unfolding traverse
  traverse-Ensures P [] h = tt
  traverse-Ensures P (x ∷ xs) h = Ensures->>= P (All P) (f x) _ (h x) (λ y py.
      Ensures->>= (All P) (All P) (traverse f xs) _ (traverse-Ensures P xs h) (λ ys pys. (py, pys)))

pub traverse_fixed :
    {E A : Type 0} (f : A → Result E A) (xs : List A)
    → All (λ x. f x ≡ ok x) xs
    → traverse f xs ≡ ok xs
unfolding traverse
traverse_fixed f [] h = refl
traverse_fixed f (x ∷ xs) (hx, hxs) = rw (hx, traverse_fixed f xs hxs)

pub Ensures-or_err {ℓ κ} :
    {E A B : Type 0} (P : A → Type κ) (Q : B → Type ℓ) (o : Option A) (e : E) (f : A → Result E B)
    → ((a : A) → o ≡ some a → P a)
    → ((a : A) → P a → Ensures Q (f a))
    → Ensures Q (or_err o e >>= f)
Ensures-or_err P Q none e f h k = tt
Ensures-or_err P Q (some a) e f h k = k a (h a refl)

pub Ensures-fail_if {ℓ} :
    {E B : Type 0} (Q : B → Type ℓ) (b : Bool) (e : E) (r : Result E B)
    → (b ≡ false → Ensures Q r)
    → Ensures Q (fail_if b e >> r)
Ensures-fail_if Q true e r k = tt
Ensures-fail_if Q false e r k = k refl

pub Ensures-weaken {ℓ κ} :
    {E A : Type 0} (P : A → Type ℓ) (Q : A → Type κ) (r : Result E A)
    → Ensures P r
    → ((a : A) → P a → Q a)
    → Ensures Q r
Ensures-weaken P Q (ok a) h k = k a h
Ensures-weaken P Q (err e) h k = tt
