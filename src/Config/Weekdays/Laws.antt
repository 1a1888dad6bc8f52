-- ===== src/Config/Weekdays/Laws.antt =====
-- The lists that `ValidateStopWeekdays` of internal/config/config.go returns, and its errors.
use cdtalive.Prelude.{
  ◌≡◌, refl, List, [], ◌∷◌, ◌++◌, true, false, ◌||◌, any, any-append, All, All-append, arith,
  if◌then◌else◌, inl, inr, Bool-cases, append-nil, append_assoc, ◌∙◌, ap, Option, none, some, ◌&&◌,
}
use cdtalive.Prelude.Int.{ℤ, pos, negsuc, ltb_ℤ, leb_ℤ, ◌≤ℤ◌, ◌<ℤ◌, int_eq, int_eq_iff}
use cdtalive.Prelude.Results.{Result, ok, err, ◌>>=◌, Ensures, Ensures->>=, Ensures-weaken}
use mathlib.Core.Option
use cdtalive.Prelude.Sorting.{insert_by, sort_by, insert_by-All, sort_by-All, any-sort_by}
use cdtalive.Config.Errors.{ConfigError, invalid_weekday}
use cdtalive.Config.Weekdays.{collect_weekdays, validate_stop_weekdays}

abbrev pub IsWeekday : ℤ → Type 0
IsWeekday d = (pos 1 ≤ℤ d) × (d ≤ℤ pos 7)

-- Strictly ascending, so that no day stands twice.
abbrev pub IsAscending : List ℤ → Type 0
IsAscending [] = Unit
IsAscending (d ∷ ds) = All (λ x. d <ℤ x) ds × IsAscending ds

abbrev IsNodup : List ℤ → Type 0
IsNodup [] = Unit
IsNodup (d ∷ ds) = (any (int_eq d) ds ≡ false) × IsNodup ds

All-lt_trans : (d x : ℤ) (xs : List ℤ) → d <ℤ x → All (λ y. x <ℤ y) xs → All (λ y. d <ℤ y) xs
All-lt_trans d x [] h k = tt
All-lt_trans d x (y ∷ ys) h k = (omega arith, All-lt_trans d x ys h k.1)

lt_of_ne : (d x : ℤ) → leb_ℤ d x ≡ true → int_eq d x ≡ false → d <ℤ x
lt_of_ne (pos d) (pos x) h k = ground arith
lt_of_ne (pos d) (negsuc x) h k = ground arith
lt_of_ne (negsuc d) (pos x) h k = ground arith
lt_of_ne (negsuc d) (negsuc x) h k = ground arith

gt_of_not_le : (d x : ℤ) → leb_ℤ d x ≡ false → x <ℤ d
gt_of_not_le d x h = ground arith

insert_by-IsAscending :
    (d : ℤ) (xs : List ℤ)
    → any (int_eq d) xs ≡ false
    → IsAscending xs
    → IsAscending (insert_by leb_ℤ d xs)
unfolding insert_by
insert_by-IsAscending d [] h k = (tt, tt)
insert_by-IsAscending d (x ∷ xs) h k = elim (Bool-cases (leb_ℤ d x)) [
  | inl le ↦
      rw le
        (let lt : d <ℤ x = lt_of_ne d x le (ground arith) in ((lt, All-lt_trans d x xs lt k.0), k))
  | inr gt ↦ rw gt (
    insert_by-All leb_ℤ (λ y. x <ℤ y) d xs (gt_of_not_le d x gt) k.0,
    insert_by-IsAscending d xs (ground arith) k.1,
  )
]

sort_by-IsAscending : (xs : List ℤ) → IsNodup xs → IsAscending (sort_by leb_ℤ xs)
unfolding sort_by
sort_by-IsAscending [] h = tt
sort_by-IsAscending (x ∷ xs) h =
    insert_by-IsAscending x (sort_by leb_ℤ xs) (rw (any-sort_by leb_ℤ) h.0)
      (sort_by-IsAscending xs h.1)

int_eq_sym : (a b : ℤ) → int_eq a b ≡ int_eq b a
int_eq_sym (pos a) (pos b) = ground arith
int_eq_sym (pos a) (negsuc b) = refl
int_eq_sym (negsuc a) (pos b) = refl
int_eq_sym (negsuc a) (negsuc b) = ground arith

IsNodup-snoc :
    (xs : List ℤ) (w : ℤ) → IsNodup xs → any (int_eq w) xs ≡ false → IsNodup (xs ++ w ∷ [])
IsNodup-snoc [] w h k = (refl, tt)
IsNodup-snoc (x ∷ xs) w h k = (
  rw (any-append (int_eq x) xs (w ∷ [])) (ground (arith, int_eq_sym x w)),
  IsNodup-snoc xs w h.1 (ground arith),
)

-- A day that is there already adds nothing to the members.
any_again :
    (d w : ℤ) (xs : List ℤ)
    → any (int_eq w) xs ≡ true
    → int_eq d w ≡ true
    → any (int_eq d) xs ≡ true
any_again d w xs h k = rw ((int_eq_iff d w).0 k) h

-- The members of a list before and after validation.
abbrev pub SameDays : List ℤ → List ℤ → Type 0
SameDays xs ys = (d : ℤ) → any (int_eq d) xs ≡ any (int_eq d) ys

abbrev Collected : List ℤ → List ℤ → Type 0
Collected ws out = IsNodup out × All IsWeekday out × SameDays out ws

SameDays-next :
    (acc ws : List ℤ) (w : ℤ) (out : List ℤ)
    → SameDays out ((if any (int_eq w) acc then acc else acc ++ w ∷ []) ++ ws)
    → SameDays out (acc ++ w ∷ ws)
SameDays-next acc ws w out h d = elim (Bool-cases (any (int_eq w) acc)) [
  | inl seen ↦
      let e : any (int_eq d) out ≡ any (int_eq d) (acc ++ ws) = (rw seen at (h d)) in
      rw (e, any-append (int_eq d) acc ws, any-append (int_eq d) acc (w ∷ ws))
        (ground (arith, any_again d w acc seen))
  | inr new ↦
      let e : any (int_eq d) out ≡ any (int_eq d) ((acc ++ w ∷ []) ++ ws) = (rw new at (h d)) in
      rw (e, append_assoc)
]

abbrev add_day : ℤ → List ℤ → List ℤ
add_day w acc = if any (int_eq w) acc then acc else acc ++ w ∷ []

add_day-IsNodup : (w : ℤ) (acc : List ℤ) → IsNodup acc → IsNodup (add_day w acc)
add_day-IsNodup w acc h = elim (Bool-cases (any (int_eq w) acc)) [
  | inl seen ↦ rw seen h
  | inr new ↦ rw new (IsNodup-snoc acc w h new)
]

add_day-All : (P : ℤ → Type 0) (w : ℤ) (acc : List ℤ) → P w → All P acc → All P (add_day w acc)
add_day-All P w acc pw h = elim (Bool-cases (any (int_eq w) acc)) [
  | inl seen ↦ rw seen h
  | inr new ↦ rw new (All-append P acc (w ∷ []) h (pw, tt))
]

IsWeekday-of_test : (w : ℤ) → (ltb_ℤ w (pos 1) || ltb_ℤ (pos 7) w) ≡ false → IsWeekday w
IsWeekday-of_test w h = ground arith

collect_weekdays-Collected :
    (acc ws : List ℤ)
    → IsNodup acc
    → All IsWeekday acc
    → Ensures (Collected (acc ++ ws)) (collect_weekdays acc ws)
unfolding collect_weekdays
collect_weekdays-Collected acc [] h k = (h, k, λ d. rw append-nil)
collect_weekdays-Collected acc (w ∷ ws) h k =
    elim (Bool-cases (ltb_ℤ w (pos 1) || ltb_ℤ (pos 7) w)) [
      | inl out ↦ rw out tt
      | inr fits ↦ rw fits (
          Ensures-weaken (Collected (add_day w acc ++ ws)) (Collected (acc ++ w ∷ ws))
            (collect_weekdays (add_day w acc) ws)
            (collect_weekdays-Collected (add_day w acc) ws (add_day-IsNodup w acc h)
              (add_day-All IsWeekday w acc (IsWeekday-of_test w fits) k))
            (λ out (nodup, days, same). (nodup, days, SameDays-next acc ws w out same)))
    ]

-- A validated list names each of its days once, in order, all of them within 1 to 7, and has
-- exactly the days of the list that was given.
abbrev pub IsValidatedFrom : List ℤ → List ℤ → Type 0
IsValidatedFrom ws out = IsAscending out × All IsWeekday out × SameDays out ws

-- Whatever the validation of a list of days returns names each day once, in order, all of them
-- within 1 to 7, and has exactly the days of the list.
pub validate_stop_weekdays-IsValidatedFrom :
    (ws : List ℤ) → Ensures (IsValidatedFrom ws) (validate_stop_weekdays ws)
unfolding validate_stop_weekdays
validate_stop_weekdays-IsValidatedFrom ws =
    Ensures->>= (Collected ws) (IsValidatedFrom ws) (collect_weekdays [] ws) _
      (collect_weekdays-Collected [] ws tt tt)
      λ out (nodup, days, same). (
        sort_by-IsAscending out nodup,
        sort_by-All leb_ℤ IsWeekday out days,
        λ d. any-sort_by leb_ℤ (int_eq d) out ∙ same d,
      )

-- Validation leaves a validated list alone.
sort_by-fixed : (xs : List ℤ) → IsAscending xs → sort_by leb_ℤ xs ≡ xs
unfolding sort_by
sort_by-fixed [] h = refl
sort_by-fixed (x ∷ []) h = refl
sort_by-fixed (x ∷ y ∷ ys) h = rw (sort_by-fixed (y ∷ ys) h.1) (ground arith)

int_eq-of-lt : (w d : ℤ) → w <ℤ d → int_eq d w ≡ false
int_eq-of-lt (pos w) (pos d) h = ground arith
int_eq-of-lt (pos w) (negsuc d) h = refl
int_eq-of-lt (negsuc w) (pos d) h = refl
int_eq-of-lt (negsuc w) (negsuc d) h = ground arith

fresh-snoc :
    (acc : List ℤ) (w : ℤ) (ws : List ℤ)
    → All (λ d. any (int_eq d) acc ≡ false) ws
    → All (λ d. w <ℤ d) ws
    → All (λ d. any (int_eq d) (acc ++ w ∷ []) ≡ false) ws
fresh-snoc acc w [] h k = tt
fresh-snoc acc w (d ∷ ws) h k =
    (rw any-append (ground (arith, int_eq-of-lt w d k.0)), fresh-snoc acc w ws h.1 k.1)

test_of_IsWeekday : (w : ℤ) → IsWeekday w → (ltb_ℤ w (pos 1) || ltb_ℤ (pos 7) w) ≡ false
test_of_IsWeekday w h = ground arith

collect_weekdays-fixed :
    (acc ws : List ℤ)
    → IsAscending ws
    → All IsWeekday ws
    → All (λ d. any (int_eq d) acc ≡ false) ws
    → collect_weekdays acc ws ≡ ok (acc ++ ws)
unfolding collect_weekdays
collect_weekdays-fixed acc [] h k n = rw append-nil
collect_weekdays-fixed acc (w ∷ ws) h k n =
    rw (test_of_IsWeekday w k.0, n.0)
      (collect_weekdays-fixed (acc ++ w ∷ []) ws h.1 k.1 (fresh-snoc acc w ws n.1 h.0)
        ∙ rw append_assoc)

no_day : (ws : List ℤ) → All (λ d. any (int_eq d) [] ≡ false) ws
no_day [] = tt
no_day (w ∷ ws) = (refl, no_day ws)

pub validate_stop_weekdays-fixed :
    (ws : List ℤ) → IsAscending ws → All IsWeekday ws → validate_stop_weekdays ws ≡ ok ws
unfolding validate_stop_weekdays
validate_stop_weekdays-fixed ws h k =
    rw (collect_weekdays-fixed [] ws h k (no_day ws)) (ap ok (sort_by-fixed ws h))

-- The first day of a list that is no day of the week.
abbrev pub first_invalid : List ℤ → Option ℤ
first_invalid [] = none
first_invalid (w ∷ ws) = if leb_ℤ (pos 1) w && leb_ℤ w (pos 7) then first_invalid ws else some w

-- The verdict of a validation: the error, or none.
abbrev pub error_of : {A : Type 0} → Result ConfigError A → Option ConfigError
error_of (ok a) = none
error_of (err e) = some e

collect_weekdays_error :
    (acc ws : List ℤ)
    → error_of (collect_weekdays acc ws) ≡ Option.map invalid_weekday (first_invalid ws)
unfolding collect_weekdays
collect_weekdays_error acc [] = refl
collect_weekdays_error acc (w ∷ ws) = ground (arith, collect_weekdays_error (add_day w acc) ws)

error_of->>= :
    {A B : Type 0} (r : Result ConfigError A) (f : A → B)
    → error_of (r >>= λ a. ok (f a)) ≡ error_of r
error_of->>= (ok a) f = refl
error_of->>= (err e) f = refl

-- The validation fails exactly on the lists that have a day outside 1 to 7, and its error names
-- the first of them.
pub validate_stop_weekdays_error :
    (ws : List ℤ)
    → error_of (validate_stop_weekdays ws) ≡ Option.map invalid_weekday (first_invalid ws)
unfolding validate_stop_weekdays
validate_stop_weekdays_error ws =
    error_of->>= (collect_weekdays [] ws) (sort_by leb_ℤ) ∙ collect_weekdays_error [] ws
