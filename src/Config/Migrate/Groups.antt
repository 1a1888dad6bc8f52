-- ===== src/Config/Migrate/Groups.antt =====
-- The groups of days in `migrateStopSchedules` of internal/config/config.go, and their order.
use cdtalive.Prelude.{
  ℕ, ◌≡◌, refl, ap, ◌∙◌, sym, List, [], ◌∷◌, map, Bool, true, false, ◌&&◌, ◌||◌, any, any-append,
  All, arith, take, drop, ◌==◌, ==_iff, inl, inr, Bool-cases, ◌≤◌,
}
use cdtalive.Prelude.Int.{pos, int_eq}
use cdtalive.Prelude.Sorting.{sort_by, sort_by-All, any-sort_by}
use cdtalive.Prelude.Text.{Text, text_eq, text_eq_iff, join}
use cdtalive.Config.Intervals.{MinuteInterval}
use cdtalive.Config.Intervals.Complement.{text_of, IsGap}
use cdtalive.Config.Schedules.{StartSchedule, is_empty}
use cdtalive.Config.Migrate.{Groups, add_to_group, group_days, with_windows, first_day_order, week}

join-injective :
    (a b : List MinuteInterval)
    → join (b',' ∷ []) (map text_of a) ≡ join (b',' ∷ []) (map text_of b)
    → map text_of a ≡ map text_of b
unfolding join
join-injective [] [] e = refl
join-injective [] (y ∷ []) e = cc
join-injective [] (y ∷ y' ∷ ys) e = cc
join-injective (x ∷ []) [] e = cc
join-injective (x ∷ []) (y ∷ []) e = ap (λ t. t ∷ []) e
join-injective (x ∷ []) (y ∷ y' ∷ ys) e = cc (ap (drop 11) e)
join-injective (x ∷ x' ∷ xs) [] e = cc
join-injective (x ∷ x' ∷ xs) (y ∷ []) e = cc (ap (drop 11) e)
join-injective (x ∷ x' ∷ xs) (y ∷ y' ∷ ys) e =
    cc (ap (take 11) e, join-injective (x' ∷ xs) (y' ∷ ys) (ap (drop 12) e))

-- Windows that are written in the canonical form and do not wrap round midnight.
abbrev pub IsCanonical : List Text → Type 0
IsCanonical ws = (is : List MinuteInterval) × (ws ≡ map text_of is) × All IsGap is

abbrev key_of : List Text → Text
key_of ws = join (b',' ∷ []) ws

key_of-injective :
    (ws vs : List Text) → IsCanonical ws → IsCanonical vs → key_of ws ≡ key_of vs → ws ≡ vs
key_of-injective ws vs (a, ea, _) (b, eb, _) e = ea ∙ join-injective a b (cc) ∙ sym eb

-- Each key is that of the group's windows, which are canonical.
abbrev IsKeyed : Groups → Type 0
IsKeyed = All (λ g. (g.0 ≡ key_of g.1.windows) × IsCanonical g.1.windows)

-- Some schedule for the day passes a test of its windows.
abbrev pub on_day : (List Text → Bool) → ℕ → StartSchedule → Bool
on_day p day s = any (int_eq (pos day)) s.weekdays && p s.windows

abbrev group_on_day : (List Text → Bool) → ℕ → Text × StartSchedule → Bool
group_on_day p day (k, s) = on_day p day s

module _ (p : List Text → Bool) (d : ℕ) where
  add_to_group-on_day :
      (day : ℕ) (ws : List Text) (groups : Groups)
      → IsCanonical ws
      → IsKeyed groups
      → any (group_on_day p d) (add_to_group (key_of ws) day ws groups)
        ≡ (any (group_on_day p d) groups || (d == day && p ws))
  unfolding add_to_group
  add_to_group-on_day day ws [] c h = ground arith
  add_to_group-on_day day ws ((k, s) ∷ groups) c h = elim (Bool-cases (text_eq k (key_of ws))) [
    | inl found ↦
        let same : s.windows ≡ ws =
          key_of-injective s.windows ws h.0.1 c (sym h.0.0 ∙ (text_eq_iff k (key_of ws)).0 found) in
        rw (found, any-append (int_eq (pos d)) s.weekdays (pos day ∷ []), same) (ground arith)
    | inr other ↦ rw (other, add_to_group-on_day day ws groups c h.1) (ground arith)
  ]

add_to_group-IsKeyed :
    (day : ℕ) (ws : List Text) (groups : Groups)
    → IsCanonical ws
    → IsKeyed groups
    → IsKeyed (add_to_group (key_of ws) day ws groups)
unfolding add_to_group
add_to_group-IsKeyed day ws [] c h = ((refl, c), tt)
add_to_group-IsKeyed day ws ((k, s) ∷ groups) c h = elim (Bool-cases (text_eq k (key_of ws))) [
  | inl found ↦ rw found (h.0, h.1)
  | inr other ↦ rw other (h.0, add_to_group-IsKeyed day ws groups c h.1)
]

module _ (p : List Text → Bool) (d : ℕ) (windows : ℕ → List Text)
    (c : (day : ℕ) → IsCanonical (windows day)) where
  group_days-on_day :
      (days : List ℕ) (groups : Groups)
      → IsKeyed groups
      → any (group_on_day p d) (group_days windows days groups)
        ≡ (any (group_on_day p d) groups || any (λ day. d == day && p (windows day)) days)
  unfolding group_days
  group_days-on_day [] groups h = ground arith
  group_days-on_day (day ∷ days) groups h =
      rw
        (
          group_days-on_day days (add_to_group (key_of (windows day)) day (windows day) groups)
              (add_to_group-IsKeyed day (windows day) groups (c day) h),
          add_to_group-on_day p d day (windows day) groups (c day) h,
        )
        (ground arith)

any-with_windows :
    (p : List Text → Bool) (d : ℕ) (groups : Groups)
    → p [] ≡ false
    → any (on_day p d) (with_windows groups) ≡ any (group_on_day p d) groups
unfolding with_windows
any-with_windows p d [] h = refl
any-with_windows p d ((k, s) ∷ groups) h = elim (Bool-cases (is_empty s.windows)) [
  | inl bare ↦ rw (bare, any-with_windows p d groups h, no_window s.windows bare) (ground arith)
  | inr shown ↦ rw (shown, any-with_windows p d groups h)
]
  where
    no_window : (ws : List Text) → is_empty ws ≡ true → p ws ≡ false
    no_window [] e = h
    no_window (w ∷ ws) e = cc

any_same_day :
    (d : ℕ) (f : ℕ → Bool) (days : List ℕ)
    → any (λ day. d == day && f day) days ≡ (any (λ day. d == day) days && f d)
any_same_day d f [] = refl
any_same_day d f (day ∷ days) = elim (Bool-cases (d == day)) [
  | inl same ↦
      let e : d ≡ day = (==_iff d day).0 same in
      rw (same, any_same_day d f days, ← e) (ground arith)
  | inr other ↦ rw (other, any_same_day d f days)
]

week_has : (d : ℕ) → 1 ≤ d → d ≤ 7 → any (λ day. d == day) week ≡ true
week_has d h k = ground arith

-- On each day of the week the result holds what was computed for that day: a test that no empty
-- list passes is passed by some schedule of the day exactly if the day's windows pass it.
pub group_days-week :
    (p : List Text → Bool) (d : ℕ) (windows : ℕ → List Text)
    → ((day : ℕ) → IsCanonical (windows day))
    → p [] ≡ false
    → 1 ≤ d
    → d ≤ 7
    → any (on_day p d) (sort_by first_day_order (with_windows (group_days windows week [])))
      ≡ p (windows d)
group_days-week p d windows c e h k =
    any-sort_by first_day_order (on_day p d) (with_windows (group_days windows week []))
    ∙ any-with_windows p d (group_days windows week []) e
    ∙ group_days-on_day p d windows c week [] tt
    ∙ any_same_day d (λ day. p (windows day)) week
    ∙ rw (week_has d h k)

with_windows-All :
    (P : List Text → Type 0) (groups : Groups)
    → All (λ g. P g.1.windows) groups
    → All (λ s. P s.windows) (with_windows groups)
unfolding with_windows
with_windows-All P [] h = tt
with_windows-All P ((k, s) ∷ groups) h = elim (Bool-cases (is_empty s.windows)) [
  | inl bare ↦ rw (bare, All) (with_windows-All P groups h.1)
  | inr shown ↦ rw (shown, All) (h.0, with_windows-All P groups h.1)
]

group_days-IsKeyed :
    (windows : ℕ → List Text) (days : List ℕ) (groups : Groups)
    → ((day : ℕ) → IsCanonical (windows day))
    → IsKeyed groups
    → IsKeyed (group_days windows days groups)
unfolding group_days
group_days-IsKeyed windows [] groups c h = h
group_days-IsKeyed windows (day ∷ days) groups c h =
    group_days-IsKeyed windows days (add_to_group (key_of (windows day)) day (windows day) groups) c
      (add_to_group-IsKeyed day (windows day) groups (c day) h)

All-windows : (groups : Groups) → IsKeyed groups → All (λ g. IsCanonical g.1.windows) groups
All-windows [] h = tt
All-windows ((k, s) ∷ groups) h = (h.0.1, All-windows groups h.1)

pub group_days-IsCanonical :
    (windows : ℕ → List Text)
    → ((day : ℕ) → IsCanonical (windows day))
    → All
        (λ s. IsCanonical s.windows)
        (sort_by first_day_order (with_windows (group_days windows week [])))
group_days-IsCanonical windows c =
    sort_by-All first_day_order (λ s. IsCanonical s.windows)
      (with_windows (group_days windows week []))
      (with_windows-All IsCanonical (group_days windows week [])
        (All-windows (group_days windows week []) (group_days-IsKeyed windows week [] c tt)))
