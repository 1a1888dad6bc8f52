-- ===== src/Config/Intervals/Complement.antt =====
-- `complementWindows` of internal/config/config.go against the minutes that stops cover.
use cdtalive.Prelude.{
  ℕ, ◌/◌, ◌%◌, ◌<◌, ◌≤◌, ◌≡◌, refl, List, [], ◌∷◌, false, ◌&&◌, not, any, All, arith, ltb, leb,
  if◌then◌else◌, inl, inr, Bool-cases, map,
}
use cdtalive.Prelude.Decimals.{format_02d-two_digits}
use cdtalive.Prelude.Text.{Text}
use cdtalive.Config.Windows.Laws.{window}
use cdtalive.Config.Intervals.{
  MinuteInterval, format_schedule_window, complement_from, complement_windows, merge_intervals,
}
use cdtalive.Config.Intervals.Laws.{
  covers, IsSorted, InDay, merge_intervals_lem, merge_intervals-InDay,
}

-- Up to the end of the day a formatted window is the canonical text.
format_schedule_window-window :
    (s e : ℕ) → s < 6000 → e < 6000 → format_schedule_window s e ≡ window s e
unfolding format_schedule_window
format_schedule_window-window s e hs he = rw (
  format_02d-two_digits (s / 60) (omega arith),
  format_02d-two_digits (s % 60) (omega arith),
  format_02d-two_digits (e / 60) (omega arith),
  format_02d-two_digits (e % 60) (omega arith),
)

-- The minutes that a list of windows stands for, as pairs.
abbrev pub gaps : ℕ → List MinuteInterval → List MinuteInterval
gaps start [] = if ltb start 1440 then record { start = start; end = 1440 } ∷ [] else []
gaps start (stop ∷ stops) =
    let rest = gaps (if ltb start stop.end then stop.end else start) stops in
    if ltb start stop.start then record { start = start; end = stop.start } ∷ rest else rest

abbrev pub text_of : MinuteInterval → Text
text_of i = window i.start i.end

complement_from-gaps :
    (start : ℕ) (stops : List MinuteInterval)
    → start ≤ 1440
    → All InDay stops
    → complement_from start stops ≡ map text_of (gaps start stops)
unfolding complement_from
complement_from-gaps start [] h k = elim (Bool-cases (ltb start 1440)) [
  | inl more ↦ rw (more, format_schedule_window-window start 1440 (omega arith) (omega arith))
  | inr full ↦ rw full
]
complement_from-gaps start (stop ∷ stops) h k =
    let next = if ltb start stop.end then stop.end else start in
    let ih = complement_from-gaps next stops (ground arith) k.1 in
    elim (Bool-cases (ltb start stop.start)) [
      | inl gap ↦
          rw (gap, ih, format_schedule_window-window start stop.start (omega arith) (omega arith))
      | inr tight ↦ rw (tight, ih)
    ]

-- A gap is a window of the day that does not wrap round midnight.
abbrev pub IsGap : MinuteInterval → Type 0
IsGap g = (g.start < g.end) × (g.end ≤ 1440)

gaps-IsGap :
    (start : ℕ) (stops : List MinuteInterval) → All InDay stops → All IsGap (gaps start stops)
gaps-IsGap start [] h = elim (Bool-cases (ltb start 1440)) [
  | inl more ↦ rw more (ground arith)
  | inr full ↦ rw full tt
]
gaps-IsGap start (stop ∷ stops) h =
    let next = if ltb start stop.end then stop.end else start in
    let ih = gaps-IsGap next stops h.1 in
    elim (Bool-cases (ltb start stop.start)) [
      | inl gap ↦ rw gap ((ground arith, h.0.0), ih)
      | inr tight ↦ rw tight ih
    ]

later_starts :
    (m a : ℕ) (stops : List MinuteInterval)
    → m < a
    → All (λ j. a ≤ j.start) stops
    → any (covers m) stops ≡ false
later_starts m a [] h k = refl
later_starts m a (s ∷ stops) h k = ground (arith, later_starts m a stops h k.1)

gaps-covers :
    (m start : ℕ) (stops : List MinuteInterval)
    → m < 1440
    → IsSorted stops
    → any (covers m) (gaps start stops) ≡ (leb start m && not (any (covers m) stops))
gaps-covers m start [] h k = ground arith
gaps-covers m start (stop ∷ stops) h k =
    let next = if ltb start stop.end then stop.end else start in
    ground (arith, gaps-covers m next stops h k.1, later_starts m stop.start stops)

-- What a day's stops leave over, as the code computes it: windows of that day alone, which hold
-- exactly the minutes that no stop covers.
pub complement_windows-merge_intervals :
    (stops : List MinuteInterval)
    → All InDay stops
    → (free : List MinuteInterval) × (complement_windows (merge_intervals stops) ≡ map text_of free)
      × All IsGap free
      × ((m : ℕ) → m < 1440 → any (covers m) free ≡ not (any (covers m) stops))
unfolding complement_windows
complement_windows-merge_intervals stops h =
    let merged = merge_intervals stops in
    let (same, sorted) = merge_intervals_lem stops in
    let days = merge_intervals-InDay stops h in
    (
      gaps 0 merged,
      complement_from-gaps 0 merged (omega arith) days,
      gaps-IsGap 0 merged days,
      λ m hm. ground (arith, gaps-covers m 0 merged hm sorted, same m),
    )
