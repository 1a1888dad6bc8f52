-- ===== src/Config/Intervals/Laws.antt =====
-- `mergeIntervals` of internal/config/config.go against the minutes that intervals cover.
use cdtalive.Prelude.{
  ℕ, ◌≤◌, ◌≡◌, refl, List, [], ◌∷◌, Bool, false, ◌&&◌, ◌||◌, any, All, arith, ltb, leb, length, inl,
  inr, Bool-cases, ◌∙◌, suc,
}
use mathlib.Core.List.{reverse_aux}
use cdtalive.Prelude.Sorting.{insert_by, sort_by, insert_by-All, sort_by-All, any-sort_by}
use cdtalive.Config.Intervals.{
  MinuteInterval, starts_first, merge_step, merge_onto, merge_intervals,
}

abbrev pub covers : ℕ → MinuteInterval → Bool
covers m i = leb i.start m && ltb m i.end

-- In the order of their starts.
abbrev pub IsSorted : List MinuteInterval → Type 0
IsSorted [] = Unit
IsSorted (i ∷ is) = All (λ j. i.start ≤ j.start) is × IsSorted is

-- The same order, last one first.
abbrev IsReversed : List MinuteInterval → Type 0
IsReversed [] = Unit
IsReversed (i ∷ is) = All (λ j. j.start ≤ i.start) is × IsReversed is

abbrev Before : List MinuteInterval → List MinuteInterval → Type 0
Before [] rest = Unit
Before (last ∷ merged) rest = All (λ j. last.start ≤ j.start) rest

merge_step-covers :
    (m : ℕ) (merged : List MinuteInterval) (i : MinuteInterval)
    → Before merged (i ∷ [])
    → any (covers m) (merge_step merged i) ≡ (any (covers m) merged || covers m i)
merge_step-covers m [] i h = ground arith
merge_step-covers m (last ∷ merged) i h = ground arith

any-reverse_aux :
    {A : Type 0} (p : A → Bool) (xs ys : List A)
    → any p (reverse_aux xs ys) ≡ (any p xs || any p ys)
any-reverse_aux p [] ys = refl
any-reverse_aux p (x ∷ xs) ys = ground (arith, any-reverse_aux p xs (x ∷ ys))

All-le_trans :
    (a b : ℕ) (xs : List MinuteInterval)
    → a ≤ b
    → All (λ j. b ≤ j.start) xs
    → All (λ j. a ≤ j.start) xs
All-le_trans a b [] h k = tt
All-le_trans a b (x ∷ xs) h k = (omega arith, All-le_trans a b xs h k.1)

All-ge_trans :
    (a b : ℕ) (xs : List MinuteInterval)
    → b ≤ a
    → All (λ j. j.start ≤ b) xs
    → All (λ j. j.start ≤ a) xs
All-ge_trans a b [] h k = tt
All-ge_trans a b (x ∷ xs) h k = (omega arith, All-ge_trans a b xs h k.1)

reverse_aux-IsSorted :
    (xs ys : List MinuteInterval)
    → IsReversed xs
    → IsSorted ys
    → Before xs ys
    → IsSorted (reverse_aux xs ys)
reverse_aux-IsSorted [] ys h k b = k
reverse_aux-IsSorted (x ∷ []) ys h k b = (b, k)
reverse_aux-IsSorted (x ∷ x' ∷ xs) ys h k b =
    reverse_aux-IsSorted (x' ∷ xs) (x ∷ ys) h.1 (b, k)
      (h.0.0, All-le_trans x'.start x.start ys h.0.0 b)

merge_step-IsReversed :
    (merged : List MinuteInterval) (i : MinuteInterval)
    → IsReversed merged
    → Before merged (i ∷ [])
    → IsReversed (merge_step merged i)
merge_step-IsReversed [] i h b = ground arith
merge_step-IsReversed (last ∷ merged) i h b =
    ground (arith, All-ge_trans i.start last.start merged b.0 h.0)

merge_step-Before :
    (merged : List MinuteInterval) (i : MinuteInterval) (rest : List MinuteInterval)
    → Before merged (i ∷ rest)
    → All (λ j. i.start ≤ j.start) rest
    → Before (merge_step merged i) rest
merge_step-Before [] i rest b h = ground arith
merge_step-Before (last ∷ merged) i rest b h = ground arith

Before-head :
    (merged : List MinuteInterval) (i : MinuteInterval) (rest : List MinuteInterval)
    → Before merged (i ∷ rest)
    → Before merged (i ∷ [])
Before-head [] i rest b = tt
Before-head (last ∷ merged) i rest b = (b.0, tt)

-- The loop covers what the intervals so far and the rest cover, and ends in order.
merge_onto_lem :
    (merged rest : List MinuteInterval)
    → IsReversed merged
    → IsSorted rest
    → Before merged rest
    → ((m : ℕ)
        → any (covers m) (merge_onto merged rest) ≡ (any (covers m) merged || any (covers m) rest))
      × IsSorted (merge_onto merged rest)
unfolding merge_onto
merge_onto_lem merged [] h k b =
    (λ m. any-reverse_aux (covers m) merged [], reverse_aux-IsSorted merged [] h tt b)
merge_onto_lem merged (i ∷ rest) h k b =
    let b' = Before-head merged i rest b in
    let (same, sorted) =
      merge_onto_lem (merge_step merged i) rest (merge_step-IsReversed merged i h b') k.1
        (merge_step-Before merged i rest b k.0) in
    (λ m. rw (same m, merge_step-covers m merged i b') (ground arith), sorted)

insert_by-IsSorted :
    (i : MinuteInterval) (is : List MinuteInterval)
    → IsSorted is
    → IsSorted (insert_by starts_first i is)
unfolding insert_by
insert_by-IsSorted i [] h = (tt, tt)
insert_by-IsSorted i (j ∷ is) h = elim (Bool-cases (starts_first i j)) [
  | inl le ↦ rw le (
      let lt : i.start ≤ j.start = ground arith in
      ((lt, All-le_trans i.start j.start is lt h.0), h))
  | inr gt ↦ rw gt (
    insert_by-All starts_first (λ k. j.start ≤ k.start) i is (ground arith) h.0,
    insert_by-IsSorted i is h.1,
  )
]

sort_by-IsSorted : (is : List MinuteInterval) → IsSorted (sort_by starts_first is)
unfolding sort_by
sort_by-IsSorted [] = tt
sort_by-IsSorted (i ∷ is) = insert_by-IsSorted i (sort_by starts_first is) (sort_by-IsSorted is)

merge_sorted_lem :
    (is : List MinuteInterval)
    → ((m : ℕ) → any (covers m) (merge_onto [] (sort_by starts_first is)) ≡ any (covers m) is)
      × IsSorted (merge_onto [] (sort_by starts_first is))
merge_sorted_lem is =
    let (same, sorted) = merge_onto_lem [] (sort_by starts_first is) tt (sort_by-IsSorted is) tt in
    (λ m. same m ∙ any-sort_by starts_first (covers m) is, sorted)

-- Merging changes no minute's cover, and its result is in the order of the starts.
pub merge_intervals_lem :
    (is : List MinuteInterval)
    → ((m : ℕ) → any (covers m) (merge_intervals is) ≡ any (covers m) is)
      × IsSorted (merge_intervals is)
unfolding merge_intervals
merge_intervals_lem [] = (λ m. refl, tt)
merge_intervals_lem (i ∷ []) = (λ m. refl, (tt, tt))
merge_intervals_lem (i ∷ j ∷ is) = rw (two_or_more is) (merge_sorted_lem (i ∷ j ∷ is))
  where
    two_or_more : (is : List MinuteInterval) → ltb (suc (suc (length is))) 2 ≡ false
    two_or_more is = ground arith

-- Within one day.
abbrev pub InDay : MinuteInterval → Type 0
InDay i = (i.start ≤ 1440) × (i.end ≤ 1440)

All-reverse_aux :
    (P : MinuteInterval → Type 0) (xs ys : List MinuteInterval)
    → All P xs
    → All P ys
    → All P (reverse_aux xs ys)
All-reverse_aux P [] ys h k = k
All-reverse_aux P (x ∷ xs) ys h k = All-reverse_aux P xs (x ∷ ys) h.1 (h.0, k)

merge_step-InDay :
    (merged : List MinuteInterval) (i : MinuteInterval)
    → All InDay merged
    → InDay i
    → All InDay (merge_step merged i)
merge_step-InDay [] i h k = ground arith
merge_step-InDay (last ∷ merged) i h k = ground arith

merge_onto-InDay :
    (merged rest : List MinuteInterval)
    → All InDay merged
    → All InDay rest
    → All InDay (merge_onto merged rest)
unfolding merge_onto
merge_onto-InDay merged [] h k = All-reverse_aux InDay merged [] h tt
merge_onto-InDay merged (i ∷ rest) h k =
    merge_onto-InDay (merge_step merged i) rest (merge_step-InDay merged i h k.0) k.1

pub merge_intervals-InDay :
    (is : List MinuteInterval) → All InDay is → All InDay (merge_intervals is)
unfolding merge_intervals
merge_intervals-InDay is h = elim (Bool-cases (ltb (length is) 2)) [
  | inl few ↦ rw few h
  | inr many ↦
      rw many
        (merge_onto-InDay [] (sort_by starts_first is) tt (sort_by-All starts_first InDay is h))
]
