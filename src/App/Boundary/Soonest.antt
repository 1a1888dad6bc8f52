-- ===== src/App/Boundary/Soonest.antt =====
-- The soonest of some times, as `NextStartScheduleBoundary` and `NextStartScheduleTime` of
-- internal/app/service.go look for it.
use cdtalive.Prelude.{
  ℕ, ◌*◌, ◌<◌, ◌≤◌, ◌≡◌, refl, ◌⊎◌, inl, inr, List, [], ◌∷◌, ◌++◌, Bool, true, false, ◌&&◌, Option,
  none, some, ltb, if◌then◌else◌, All, arith,
}
use cdtalive.Time.{Instant, second}
use cdtalive.App.Boundary.{sooner, soonest, is_sooner}

pub soonest-append :
    (now : Instant) (next : Option ℕ) (xs ys : List ℕ)
    → soonest now next (xs ++ ys) ≡ soonest now (soonest now next xs) ys
soonest-append now next [] ys = refl
soonest-append now next (x ∷ xs) ys = soonest-append now (sooner now next x) xs ys

-- Later than now, and no later than any of some times that is.
abbrev IsLeast : Instant → Option ℕ → List ℕ → Type 0
IsLeast now none xs = All (λ x. x * second ≤ now) xs
IsLeast now (some b) xs = (now < b * second) × All (λ x. (x * second ≤ now) ⊎ (b ≤ x)) xs

abbrev pub IsOneOf : ℕ → List ℕ → Type 0
IsOneOf b [] = ⊥
IsOneOf b (x ∷ xs) = (b ≡ x) ⊎ IsOneOf b xs

abbrev pub IsAmong : Option ℕ → List ℕ → Type 0
IsAmong none xs = Unit
IsAmong (some b) xs = IsOneOf b xs

-- What the soonest of some times is: one of them that is later than now, and no later than any other
-- one that is. There is none where all are past.
abbrev pub IsSoonest : Instant → Option ℕ → List ℕ → Type 0
IsSoonest now b xs = IsAmong b xs × IsLeast now b xs

abbrev IsAfter : Instant → Option ℕ → Type 0
IsAfter now none = Unit
IsAfter now (some b) = now < b * second

abbrev IsNoLater : Option ℕ → Option ℕ → Type 0
IsNoLater b none = Unit
IsNoLater none (some a) = ⊥
IsNoLater (some b) (some a) = b ≤ a

module _ (now : Instant) (x : ℕ) (xs : List ℕ) where
  sooner-IsAfter : (next : Option ℕ) → IsAfter now next → IsAfter now (sooner now next x)
  sooner-IsAfter none h = ground arith
  sooner-IsAfter (some a) h = ground arith

  IsLeast-step :
      (next b : Option ℕ)
      → IsNoLater b (sooner now next x)
      → IsLeast now b xs
      → IsLeast now b (x ∷ xs) × IsNoLater b next
  IsLeast-step none none l s = ground arith
  IsLeast-step none (some b) l s = ground arith
  IsLeast-step (some a) none l s = ground arith
  IsLeast-step (some a) (some b) l s = ground arith

soonest-IsLeast :
    (now : Instant) (next : Option ℕ) (xs : List ℕ)
    → IsAfter now next
    → IsLeast now (soonest now next xs) xs × IsNoLater (soonest now next xs) next
soonest-IsLeast now none [] h = (tt, tt)
soonest-IsLeast now (some b) [] h = ((h, tt), omega arith)
soonest-IsLeast now next (x ∷ xs) h =
    let (least, later) =
      soonest-IsLeast now (sooner now next x) xs (sooner-IsAfter now x xs next h) in
    IsLeast-step now x xs next (soonest now (sooner now next x) xs) later least

soonest-IsAmong_or :
    (now : Instant) (next : Option ℕ) (xs : List ℕ)
    → (soonest now next xs ≡ next) ⊎ IsAmong (soonest now next xs) xs
soonest-IsAmong_or now next [] = inl refl
soonest-IsAmong_or now next (x ∷ xs) = elim (soonest-IsAmong_or now (sooner now next x) xs) [
  | inl same ↦ first (ltb now (x * second) && is_sooner x next) same
  | inr among ↦ inr (later (soonest now (sooner now next x) xs) among)
]
  where
    later : (b : Option ℕ) → IsAmong b xs → IsAmong b (x ∷ xs)
    later none among = tt
    later (some b) among = inr among

    first :
        (test : Bool)
        → soonest now (sooner now next x) xs ≡ (if test then some x else next)
        → (soonest now (sooner now next x) xs ≡ next)
          ⊎ IsAmong (soonest now (sooner now next x) xs) (x ∷ xs)
    first true same = inr (rw same (inl refl))
    first false same = inl same

pub soonest_lem : (now : Instant) (xs : List ℕ) → IsSoonest now (soonest now none xs) xs
soonest_lem now xs = (among, (soonest-IsLeast now none xs tt).0)
  where
    among : IsAmong (soonest now none xs) xs
    among = elim (soonest-IsAmong_or now none xs) [ inl none' ↦ rw none' tt | inr h ↦ h ]
