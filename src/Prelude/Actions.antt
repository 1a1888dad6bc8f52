-- ===== src/Prelude/Actions.antt =====
-- Operations on a state that may fail: the state comes back after an error too, since what was
-- written stays written.
use cdtalive.Prelude.Results.{Result, ok, err, Ensures}

abbrev pub Action : Type 0 → Type 0 → Type 0 → Type 0
Action S E A = S → Result E A × S

module _ {S E A : Type 0} where
  abbrev pub pure : A → Action S E A
  pure a s = (ok a, s)

  abbrev pub raise : E → Action S E A
  raise e s = (err e, s)

  abbrev pub lift : Result E A → Action S E A
  lift r s = (r, s)

  abbrev pub gets : (S → A) → Action S E A
  gets f s = (ok (f s), s)

abbrev pub modify : {S E : Type 0} → (S → S) → Action S E (Unit {0})
modify f s = (ok tt, f s)

infixl 5 ◌>>=◌ ◌>>◌
abbrev pub ◌>>=◌ : {S E A B : Type 0} → Action S E A → (A → Action S E B) → Action S E B
◌>>=◌ m f s = let (r, s') = m s in elim r [ ok a ↦ f a s' | err e ↦ (err e, s') ]

abbrev pub ◌>>◌ : {S E B : Type 0} → Action S E (Unit {0}) → Action S E B → Action S E B
m >> k = m >>= λ _. k

-- Whatever the state, the action fails or its result is as stated.
abbrev pub Yields : {S E A : Type 0} → (A → Type 0) → Action S E A → Type 0
Yields {S} P m = (s : S) → Ensures P (m s).0

pub Yields->>= :
    {S E A B : Type 0} (P : A → Type 0) (Q : B → Type 0) (m : Action S E A) (f : A → Action S E B)
    → Yields P m
    → ((a : A) → P a → Yields Q (f a))
    → Yields Q (m >>= f)
Yields->>= {S} {E} {A} {B} P Q m f hm hf s = go (m s).0 (m s).1 (hm s)
  where
    next : Result E A → S → Result E B × S
    next r s' = elim r [ ok a ↦ f a s' | err e ↦ (err e, s') ]

    go : (r : Result E A) (s' : S) → Ensures P r → Ensures Q (next r s').0
    go (ok a) s' h = hf a h s'
    go (err e) s' h = tt

pub Yields-lift :
    {S E A : Type 0} (P : A → Type 0) (r : Result E A) → Ensures P r → Yields P (lift {S = S} r)
Yields-lift P r h s = h

pub Ensures-any : {E A : Type 0} (r : Result E A) → Ensures (λ _. Unit {0}) r
Ensures-any (ok a) = tt
Ensures-any (err e) = tt

pub Yields-any : {S E A : Type 0} (m : Action S E A) → Yields (λ _. Unit {0}) m
Yields-any m s = Ensures-any (m s).0
