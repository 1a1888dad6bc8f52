-- ===== src/Config/Windows/Laws.antt =====
-- The windows that `validateStartWindows` of internal/config/config.go returns.
use cdtalive.Prelude.{
  ℕ, ◌<◌, ◌≤◌, ◌≡◌, ◌≢◌, refl, some, List, [], ◌∷◌, ◌++◌, true, false, arith, ◌==◌, All,
}
use cdtalive.Prelude.Decimals.{all_below, all_below_sound}
use cdtalive.Prelude.Results.{
  ok, Ensures, Ensures-or_err, Ensures-fail_if, traverse-Ensures, traverse_fixed,
}
use cdtalive.Prelude.Text.{Text, split_two, trim_space, text_eq, text_eq_iff}
use cdtalive.Config.Clock.{schedule_clock_minutes}
use cdtalive.Config.Clock.Laws.{
  clock, IsClock, schedule_clock_minutes-clock, normalize_schedule_clock-clock_start,
  normalize_schedule_clock-clock_end, normalize_schedule_clock-IsClock_start,
  normalize_schedule_clock-IsClock_end,
}
use cdtalive.Config.Windows.{normalize_start_window, validate_start_windows}

-- The canonical text of a window, from and to a minute of the day.
abbrev pub window : ℕ → ℕ → Text
window s e = clock s ++ b'-' ∷ clock e

-- A normalized start window: it begins before midnight and may end at 24:00.
abbrev pub IsStartWindow : Text → Type 0
IsStartWindow w = (s : ℕ) × (e : ℕ) × (s < 1440) × (e ≤ 1440) × (s ≢ e) × (w ≡ window s e)

split_two-window : (s e : ℕ) → split_two b'-' (window s e) ≡ some (clock s, clock e)
unfolding split_two
split_two-window s e = ground arith

trim_table : all_below 1441 (λ t. text_eq (trim_space (clock t)) (clock t)) ≡ true
unfolding all_below trim_space
trim_table = refl

trim_space-clock : (t : ℕ) → t ≤ 1440 → trim_space (clock t) ≡ clock t
trim_space-clock t h = (text_eq_iff _ _).0 (all_below_sound _ 1441 t (omega arith) trim_table)

-- A normalized window is left as it is.
pub normalize_start_window-window :
    (s e : ℕ) → s < 1440 → e ≤ 1440 → s ≢ e → normalize_start_window (window s e) ≡ ok (window s e)
unfolding normalize_start_window
normalize_start_window-window s e hs he ne =
    rw
      (
        split_two-window s e,
        trim_space-clock s (omega arith),
        trim_space-clock e he,
        normalize_schedule_clock-clock_start s hs,
        normalize_schedule_clock-clock_end e he,
        schedule_clock_minutes-clock s (omega arith),
        schedule_clock_minutes-clock e he,
      )
      (ground arith)

windows_differ :
    (start end : Text)
    → IsClock 1440 start
    → IsClock 1441 end
    → (schedule_clock_minutes start == schedule_clock_minutes end) ≡ false
    → IsStartWindow (start ++ b'-' ∷ end)
windows_differ start end (s, hs, es) (e, he, ee) ne = (
  s,
  e,
  hs,
  omega arith,
  (λ q.
      differ
        (rw
          (
            es,
            ee,
            schedule_clock_minutes-clock s (omega arith),
            schedule_clock_minutes-clock e (omega arith),
          )
          at ne)
        q),
  rw (es, ee),
)
  where
    differ : (s == e) ≡ false → s ≢ e
    differ h = ground arith

pub normalize_start_window-IsStartWindow :
    (raw : Text) → Ensures IsStartWindow (normalize_start_window raw)
unfolding normalize_start_window
normalize_start_window-IsStartWindow raw =
    Ensures-or_err (λ _. Unit {0}) IsStartWindow (split_two b'-' raw) _ _ (λ _ _. tt)
      λ parts _.
        Ensures-or_err (IsClock 1440) IsStartWindow _ _ _
          (normalize_schedule_clock-IsClock_start (trim_space parts.0))
          λ start hs.
            Ensures-or_err (IsClock 1441) IsStartWindow _ _ _
              (normalize_schedule_clock-IsClock_end (trim_space parts.1))
              λ end he. Ensures-fail_if IsStartWindow _ _ _ (windows_differ start end hs he)

fixed-of-IsStartWindow : (w : Text) → IsStartWindow w → normalize_start_window w ≡ ok w
fixed-of-IsStartWindow w (s, e, hs, he, ne, eq) = rw eq (normalize_start_window-window s e hs he ne)

All-fixed : (ws : List Text) → All IsStartWindow ws → All (λ w. normalize_start_window w ≡ ok w) ws
All-fixed [] h = tt
All-fixed (w ∷ ws) (h, hs) = (fixed-of-IsStartWindow w h, All-fixed ws hs)

pub validate_start_windows-All :
    (raw : List Text) → Ensures (All IsStartWindow) (validate_start_windows raw)
unfolding validate_start_windows
validate_start_windows-All raw =
    traverse-Ensures normalize_start_window IsStartWindow raw normalize_start_window-IsStartWindow

pub validate_start_windows-fixed :
    (ws : List Text) → All IsStartWindow ws → validate_start_windows ws ≡ ok ws
unfolding validate_start_windows
validate_start_windows-fixed ws h = traverse_fixed normalize_start_window ws (All-fixed ws h)
