-- ===== src/App/Dashboard/Baseline.antt =====
-- The sample that `Dashboard` of internal/app/service.go compares the latest one with.
use cdtalive.Prelude.{
  ◌≡◌, refl, ◌⊎◌, inl, inr, List, [], ◌∷◌, All, Bool, true, false, arith, if◌then◌else◌,
}
use cdtalive.Prelude.Int.{ℤ, ◌≤ℤ◌, ◌<ℤ◌, ltb_ℤ}
use cdtalive.Store.Tables.{BalanceSample}
use cdtalive.App.Views.{baseline_from, distance}

-- An item of the list that no later one is below and that is below every earlier one.
abbrev pub IsFirstLeast : {A : Type 0} → (A → ℤ) → A → List A → Type 0
IsFirstLeast d b [] = ⊥
IsFirstLeast d b (x ∷ xs) =
    ((b ≡ x) × All (λ s. d b ≤ℤ d s) xs) ⊎ ((d b <ℤ d x) × IsFirstLeast d b xs)

module _ {A : Type 0} (d : A → ℤ) (b x y : A) (xs : List A) where
  -- A nearer item in front takes the place of the one before it.
  IsFirstLeast-nearer : d y <ℤ d x → IsFirstLeast d b (y ∷ xs) → IsFirstLeast d b (x ∷ y ∷ xs)
  IsFirstLeast-nearer h (inl (same, all)) = inr (rw same h, inl (same, all))
  IsFirstLeast-nearer h (inr (near, rest)) = inr (omega arith, inr (near, rest))

  -- One that is not nearer is passed over.
  IsFirstLeast-further :
      ltb_ℤ (d y) (d x) ≡ false → IsFirstLeast d b (x ∷ xs) → IsFirstLeast d b (x ∷ y ∷ xs)
  IsFirstLeast-further h (inl (same, all)) = inl (same, (rw same (ground arith), all))
  IsFirstLeast-further h (inr (near, rest)) = inr (near, inr (ground arith, rest))

-- The baseline is the first of the samples that are nearest to the target.
pub baseline_from-IsFirstLeast :
    {F : Type 0} (target : ℤ) (first : BalanceSample F) (samples : List (BalanceSample F))
    → IsFirstLeast (distance target) (baseline_from target first samples) (first ∷ samples)
unfolding baseline_from
baseline_from-IsFirstLeast target first [] = inl (refl, tt)
baseline_from-IsFirstLeast {F} target first (sample ∷ samples) =
    go (ltb_ℤ (distance target sample) (distance target first)) refl
      (baseline_from-IsFirstLeast target sample samples)
      (baseline_from-IsFirstLeast target first samples)
  where
    nearer_lem : (a b : ℤ) → ltb_ℤ a b ≡ true → a <ℤ b
    nearer_lem a b h = ground arith

    go :
        (b : Bool)
        → ltb_ℤ (distance target sample) (distance target first) ≡ b
        → IsFirstLeast (distance target) (baseline_from target sample samples) (sample ∷ samples)
        → IsFirstLeast (distance target) (baseline_from target first samples) (first ∷ samples)
        → IsFirstLeast
            (distance target)
            (baseline_from target (if b then sample else first) samples)
            (first ∷ sample ∷ samples)
    go true e near far =
        IsFirstLeast-nearer (distance target) (baseline_from target sample samples) first sample
          samples (nearer_lem (distance target sample) (distance target first) e) near
    go false e near far =
        IsFirstLeast-further (distance target) (baseline_from target first samples) first sample
          samples e far
