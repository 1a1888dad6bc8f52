-- ===== src/App/Dashboard/Spending.antt =====
-- `spentSince` of internal/app/service.go, and what pruning leaves of it.
use cdtalive.Prelude.{
  ◌≡◌, refl, ap, sym, ◌∙◌, inl, inr, List, [], ◌∷◌, All, any, Bool, true, false, ◌&&◌, Bool-cases,
  Option, none, some, arith, if◌then◌else◌,
}
use cdtalive.Prelude.Floats.{FloatOps}
use cdtalive.Prelude.Int.{ℤ, pos, ◌≤ℤ◌, leb_ℤ, ltb_ℤ}
use cdtalive.Store.Tables.{BalanceSample, delete_before}
use cdtalive.Prelude.Sorting.{insert_by, sort_by, insert_by-All, any-sort_by}
use cdtalive.App.Views.{spent_from, spent_since}

module _ {F : Type 0} where
  -- In the order of the query.
  abbrev pub IsChronological : List (BalanceSample F) → Type 0
  IsChronological [] = Unit
  IsChronological (s ∷ ss) = All (λ t. s.timestamp ≤ℤ t.timestamp) ss × IsChronological ss

  -- Some sample is not older than the cutoff and from before a moment.
  abbrev pub has_between : ℤ → ℤ → List (BalanceSample F) → Bool
  has_between cutoff since ss = any (λ s. leb_ℤ cutoff s.timestamp && ltb_ℤ s.timestamp since) ss

  kept :
      (cutoff : ℤ) (ss : List (BalanceSample F))
      → All (λ s. cutoff ≤ℤ s.timestamp) ss
      → delete_before (λ s. s.timestamp) cutoff ss ≡ ss
  unfolding delete_before
  kept cutoff [] h = refl
  kept cutoff (s ∷ ss) (h, hs) = ground (arith, kept cutoff ss hs)

  later_kept :
      (cutoff : ℤ) (s : BalanceSample F) (ss : List (BalanceSample F))
      → cutoff ≤ℤ s.timestamp
      → All (λ t. s.timestamp ≤ℤ t.timestamp) ss
      → All (λ t. cutoff ≤ℤ t.timestamp) ss
  later_kept cutoff s [] h all = tt
  later_kept cutoff s (t ∷ ss) h (ht, all) = (omega arith, later_kept cutoff s ss h all)

  -- In order, the first one is before a moment that some other is before.
  first_before :
      (cutoff since : ℤ) (s : BalanceSample F) (ss : List (BalanceSample F))
      → All (λ t. s.timestamp ≤ℤ t.timestamp) ss
      → has_between cutoff since (s ∷ ss) ≡ true
      → ltb_ℤ s.timestamp since ≡ true
  first_before cutoff since s [] all h = ground arith
  first_before cutoff since s (t ∷ ss) (ht, all) h =
      ground (arith, first_before cutoff since s ss all)

module _ {F : Type 0} ⦃ops : FloatOps F⦄ (cutoff since : ℤ) where
  spent_from-delete_before :
      (previous : Option F) (spent : F) (ss : List (BalanceSample F))
      → cutoff ≤ℤ since
      → IsChronological ss
      → has_between cutoff since ss ≡ true
      → spent_from since none spent (delete_before (λ s. s.timestamp) cutoff ss)
        ≡ spent_from since previous spent ss
  unfolding spent_from delete_before
  spent_from-delete_before previous spent [] le order h = cc
  spent_from-delete_before previous spent (s ∷ ss) le (first, order) h =
      elim (Bool-cases (ltb_ℤ s.timestamp cutoff)) [
        | inl old ↦ rw old (
            spent_from-delete_before (some s.available_amount) spent ss le order (ground arith)
            ∙ sym (unspent previous (ground arith)))
        | inr new ↦
            rw (new, kept cutoff ss (later_kept cutoff s ss (ground arith) first))
              (sym (unspent previous (not_yet (first_before cutoff since s ss first h))))
      ]
    where
      not_yet : ltb_ℤ s.timestamp since ≡ true → leb_ℤ since s.timestamp ≡ false
      not_yet e = ground arith

      unspent :
          (previous : Option F)
          → leb_ℤ since s.timestamp ≡ false
          → spent_from since previous spent (s ∷ ss)
            ≡ spent_from since (some s.available_amount) spent ss
      unspent none e = refl
      unspent (some before) e = rw e refl

  spent_since-delete_before :
      (ss : List (BalanceSample F))
      → cutoff ≤ℤ since
      → IsChronological ss
      → has_between cutoff since ss ≡ true
      → spent_since (delete_before (λ s. s.timestamp) cutoff ss) since ≡ spent_since ss since
  unfolding spent_since
  spent_since-delete_before ss = spent_from-delete_before none (ops.of_int (pos 0)) ss

module _ {F : Type 0} where
  abbrev pub is_earlier : BalanceSample F → BalanceSample F → Bool
  is_earlier a b = leb_ℤ a.timestamp b.timestamp

  -- `ORDER BY timestamp, id`
  abbrev pub chronological : List (BalanceSample F) → List (BalanceSample F)
  chronological rows = sort_by is_earlier rows

  insert_by-IsChronological :
      (s : BalanceSample F) (ss : List (BalanceSample F))
      → IsChronological ss
      → IsChronological (insert_by is_earlier s ss)
  unfolding insert_by
  insert_by-IsChronological s [] h = (tt, tt)
  insert_by-IsChronological s (t ∷ ss) (first, h) =
      go (is_earlier s t) refl (insert_by-IsChronological s ss h)
    where
      go :
          (b : Bool)
          → is_earlier s t ≡ b
          → IsChronological (insert_by is_earlier s ss)
          → IsChronological (if b then s ∷ t ∷ ss else t ∷ insert_by is_earlier s ss)
      go true e k = ((ground arith, later_kept s.timestamp t ss (ground arith) first), (first, h))
      go false e k =
          (insert_by-All is_earlier (λ u. t.timestamp ≤ℤ u.timestamp) s ss (ground arith) first, k)

  chronological-IsChronological :
      (rows : List (BalanceSample F)) → IsChronological (chronological rows)
  unfolding sort_by
  chronological-IsChronological [] = tt
  chronological-IsChronological (s ∷ rows) =
      insert_by-IsChronological s (chronological rows) (chronological-IsChronological rows)

  abbrev pub kept_from : ℤ → List (BalanceSample F) → List (BalanceSample F)
  kept_from cutoff rows = delete_before (λ s. s.timestamp) cutoff rows

  delete_before-insert_by :
      (cutoff : ℤ) (s : BalanceSample F) (ss : List (BalanceSample F))
      → kept_from cutoff (insert_by is_earlier s ss) ≡ (
          if ltb_ℤ s.timestamp cutoff
          then kept_from cutoff ss
          else insert_by is_earlier s (kept_from cutoff ss))
  unfolding delete_before insert_by
  delete_before-insert_by cutoff s [] = refl
  delete_before-insert_by cutoff s (t ∷ ss) =
      let ih = delete_before-insert_by cutoff s ss in
      elim (Bool-cases (is_earlier s t)) [
        | inl earlier ↦ elim (Bool-cases (ltb_ℤ s.timestamp cutoff)) [
          | inl old ↦ rw (earlier, old) refl
          | inr new ↦ rw (earlier, new, newer earlier new, earlier) refl
        ]
        | inr later ↦ elim (Bool-cases (ltb_ℤ t.timestamp cutoff)) [
          | inl old ↦ rw (later, old) ih
          | inr new ↦ elim (Bool-cases (ltb_ℤ s.timestamp cutoff)) [
            | inl old ↦ rw (later, new, ih, old) refl
            | inr new_too ↦ rw (later, new, ih, new_too, later) refl
          ]
        ]
      ]
    where
      newer :
          is_earlier s t ≡ true
          → ltb_ℤ s.timestamp cutoff ≡ false
          → ltb_ℤ t.timestamp cutoff ≡ false
      newer e new = ground arith

  delete_before-chronological :
      (cutoff : ℤ) (rows : List (BalanceSample F))
      → kept_from cutoff (chronological rows) ≡ chronological (kept_from cutoff rows)
  unfolding sort_by delete_before
  delete_before-chronological cutoff [] = refl
  delete_before-chronological cutoff (s ∷ rows) =
      delete_before-insert_by cutoff s (chronological rows)
      ∙ elim (Bool-cases (ltb_ℤ s.timestamp cutoff)) [
        | inl old ↦ rw old (delete_before-chronological cutoff rows)
        | inr new ↦ rw new (ap (insert_by is_earlier s) (delete_before-chronological cutoff rows))
      ]

module _ {F : Type 0} ⦃ops : FloatOps F⦄ where
  -- Pruning the balance samples before a moment changes nothing of what is shown as spent since a
  -- later moment, where some kept sample is from before the later one.
  pub spent_since-prune :
      (cutoff since : ℤ) (rows : List (BalanceSample F))
      → cutoff ≤ℤ since
      → has_between cutoff since rows ≡ true
      → spent_since (chronological (kept_from cutoff rows)) since
        ≡ spent_since (chronological rows) since
  spent_since-prune cutoff since rows le h =
      ap (λ ss. spent_since ss since) (sym (delete_before-chronological cutoff rows))
      ∙ spent_since-delete_before cutoff since (chronological rows) le
          (chronological-IsChronological rows)
          (any-sort_by is_earlier (λ s. leb_ℤ cutoff s.timestamp && ltb_ℤ s.timestamp since) rows
            ∙ h)
