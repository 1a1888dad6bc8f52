-- ===== src/Prelude/Hoare.antt =====
-- What an action does to its state, by how it ends.
use mathlib.Core.Path.{◌≡◌, subst}
use cdtalive.Prelude.Results.{Result, ok, err}
use cdtalive.Prelude.Actions.{Action, ◌>>=◌}

-- A run that ended with a result meets `Q`, and one that ended with an error `Z`.
abbrev pub Post : {S E A : Type 0} → (A → S → Type 0) → (S → Type 0) → Result E A × S → Type 0
Post Q Z (ok a, s) = Q a s
Post Q Z (err e, s) = Z s

abbrev pub Triple :
    {S E A : Type 0} → (S → Type 0) → Action S E A → (A → S → Type 0) → (S → Type 0) → Type 0
Triple {S} P m Q Z = (s : S) → P s → Post Q Z (m s)

module _ {S E A B : Type 0} (P : S → Type 0) (Q : A → S → Type 0) (R : B → S → Type 0)
    (Z : S → Type 0) where
  next : (A → Action S E B) → Result E A → S → Result E B × S
  next f r s = elim r [ ok a ↦ f a s | err e ↦ (err e, s) ]

  next_ends :
      (f : A → Action S E B)
      → ((a : A) → Triple (Q a) (f a) R Z)
      → (r : Result E A) (s : S) → Post Q Z (r, s)
      → Post R Z (next f r s)
  unfolding next
  next_ends f h (ok a) s q = h a s q
  next_ends f h (err e) s z = z

  pub Triple->>= :
      (m : Action S E A) (f : A → Action S E B)
      → Triple P m Q Z
      → ((a : A) → Triple (Q a) (f a) R Z)
      → Triple P (m >>= f) R Z
  unfolding next
  Triple->>= m f hm hf s h = next_ends f hf (m s).0 (m s).1 (hm s h)

pub Post-weaken :
    {S E A : Type 0} (Q R : A → S → Type 0) (Z Y : S → Type 0) (x : Result E A × S)
    → ((a : A) (s : S) → Q a s → R a s)
    → ((s : S) → Z s → Y s)
    → Post Q Z x
    → Post R Y x
Post-weaken Q R Z Y (ok a, s) h k q = h a s q
Post-weaken Q R Z Y (err e, s) h k z = k s z

-- What holds before and after, however the action ends.
abbrev pub Keeps : {S E A : Type 0} → (S → Type 0) → Action S E A → Type 0
Keeps {S} P m = (s : S) → P s → P (m s).1

pub Triple-of-Keeps :
    {S E A : Type 0} (P : S → Type 0) (m : Action S E A) → Keeps P m → Triple P m (λ _ s. P s) P
Triple-of-Keeps {S} {E} {A} P m h s p = go (m s).0 (m s).1 (h s p)
  where
    go : (r : Result E A) (s' : S) → P s' → Post (λ _ s. P s) P (r, s')
    go (ok a) s' q = q
    go (err e) s' q = q

pub Keeps-of-Triple :
    {S E A : Type 0} (P : S → Type 0) (m : Action S E A) → Triple P m (λ _ s. P s) P → Keeps P m
Keeps-of-Triple {S} {E} {A} P m h s p = go (m s).0 (m s).1 (h s p)
  where
    go : (r : Result E A) (s' : S) → Post (λ _ s. P s) P (r, s') → P s'
    go (ok a) s' q = q
    go (err e) s' q = q

pub Keeps->>= :
    {S E A B : Type 0} (P : S → Type 0) (m : Action S E A) (f : A → Action S E B)
    → Keeps P m
    → ((a : A) → Keeps P (f a))
    → Keeps P (m >>= f)
Keeps->>= {S} {E} {A} {B} P m f hm hf = Keeps-of-Triple P (m >>= f) (
    Triple->>= P (λ _ s. P s) (λ _ s. P s) P m f (Triple-of-Keeps P m hm)
      (λ a. Triple-of-Keeps P (f a) (hf a)))

pub Post-both :
    {S E A : Type 0} (P : S → Type 0) (x : Result E A × S) → Post (λ _ s. P s) P x → P x.1
Post-both P (ok a, s) q = q
Post-both P (err e, s) q = q

-- From the states of `P` the action ends in one of `Q`, however it ends.
abbrev pub Leads : {S E A : Type 0} → (S → Type 0) → Action S E A → (S → Type 0) → Type 0
Leads {S} P m Q = (s : S) → P s → Q (m s).1

pub Leads->>= :
    {S E A B : Type 0} (P Q : S → Type 0) (m : Action S E A) (f : A → Action S E B)
    → Leads P m Q
    → ((a : A) → Keeps Q (f a))
    → Leads P (m >>= f) Q
Leads->>= {S} {E} {A} P Q m f hm hf s p = Post-both Q ((m >>= f) s) (
    Triple->>= P (λ _ s. Q s) (λ _ s. Q s) Q m f (λ s p. both (m s).0 (m s).1 (hm s p))
      (λ a. Triple-of-Keeps Q (f a) (hf a)) s p)
  where
    both : (r : Result E A) (s : S) → Q s → Post (λ _ s. Q s) Q (r, s)
    both (ok a) s q = q
    both (err e) s q = q

-- As `Post`, with what the error is.
abbrev pub Ends : {S E A : Type 0} → (A → S → Type 0) → (E → S → Type 0) → Result E A × S → Type 0
Ends Q Z (ok a, s) = Q a s
Ends Q Z (err e, s) = Z e s

abbrev pub Finishes :
    {S E A : Type 0} → (S → Type 0) → Action S E A → (A → S → Type 0) → (E → S → Type 0) → Type 0
Finishes {S} P m Q Z = (s : S) → P s → Ends Q Z (m s)

pub Finishes->>= :
    {S E A B : Type 0} (P : S → Type 0) (Q : A → S → Type 0) (R : B → S → Type 0)
    (Z : E → S → Type 0) (m : Action S E A) (f : A → Action S E B)
    → Finishes P m Q Z
    → ((a : A) → Finishes (Q a) (f a) R Z)
    → Finishes P (m >>= f) R Z
Finishes->>= {S} {E} {A} {B} P Q R Z m f hm hf s h = go (m s).0 (m s).1 (hm s h)
  where
    go :
        (r : Result E A) (s' : S)
        → Ends Q Z (r, s')
        → Ends R Z (elim r as (λ _. Result E B × S) [ ok a ↦ f a s' | err e ↦ (err e, s') ])
    go (ok a) s' q = hf a s' q
    go (err e) s' z = z

pub Ends-weaken :
    {S E A : Type 0} (Q R : A → S → Type 0) (Z Y : E → S → Type 0) (x : Result E A × S)
    → ((a : A) (s : S) → Q a s → R a s)
    → ((e : E) (s : S) → Z e s → Y e s)
    → Ends Q Z x
    → Ends R Y x
Ends-weaken Q R Z Y (ok a, s) h k q = h a s q
Ends-weaken Q R Z Y (err e, s) h k z = k e s z

-- What an action that ended with a result leaves, and what one that failed.
pub Post-ok :
    {S E A : Type 0} (Q : A → S → Type 0) (Z : S → Type 0) (r : Result E A) (s : S) (a : A)
    → Post Q Z (r, s)
    → r ≡ ok a
    → Q a s
Post-ok Q Z (ok b) s a h e = subst (λ c. Q c s) (cc e) h
Post-ok Q Z (err z) s a h e = cc

pub Post-err :
    {S E A : Type 0} (Q : A → S → Type 0) (Z : S → Type 0) (r : Result E A) (s : S) (z : E)
    → Post Q Z (r, s)
    → r ≡ err z
    → Z s
Post-err Q Z (ok b) s z h e = cc
Post-err Q Z (err z') s z h e = h

-- As `Leads->>=`, where the second action leads on.
pub Leads-then :
    {S E A B : Type 0} (P Q R : S → Type 0) (m : Action S E A) (f : A → Action S E B)
    → ((s : S) → Q s → R s)
    → Leads P m Q
    → ((a : A) → Leads Q (f a) R)
    → Leads P (m >>= f) R
Leads-then {S} {E} {A} {B} P Q R m f weaken hm hf s p = go (m s).0 (m s).1 (hm s p)
  where
    go :
        (r : Result E A) (s' : S)
        → Q s'
        → R (elim r as (λ _. Result E B × S) [ ok a ↦ f a s' | err e ↦ (err e, s') ]).1
    go (ok a) s' q = hf a s' q
    go (err e) s' q = weaken s' q
