-- ===== src/Editor/Shown.antt =====
-- What the loop of src/usr/editor.rs shows behind each key, on a valid editor: the marks lie on the
-- screen, and the status line is shown where its start fits.
use moros.Prelude.{
  ℕ, ◌+◌, ◌≤◌, ◌<◌, ◌≡◌, refl, inl, inr, true, false, ◌&&◌, Option, none, some, List, [], ◌∷◌, ◌++◌,
  arith, length, leb, ltb, leb, ◌==◌, All, Bool-cases,
}
use moros.Run.{ok, Returns, Returns-bind}
use moros.Editor.{Text, Editor}
use moros.Editor.Valid.{IsValid, index-line_at}
use moros.Editor.Status.{Status, print_editing_status, shown_path, start_of_status}
use moros.Editor.Marks.{
  Place, Mark, visible, pair, marks_at, match_chars, drawn, print_highlighted, clear_highlighted,
}

pub record IsOnScreen (rows cols : ℕ) (m : Mark) : Type 0 where
  pub column_shown : m.x < cols
  pub row_shown : m.y < rows

-- The start of the status line, with the path as it is cut, fits on the screen.
pub record HasStatus (cols : ℕ) (pathname : Text) : Type 0 where
  pub path : Text
  pub shown : shown_path pathname ≡ ok path
  pub fits : length (start_of_status path) ≤ cols

module _ (rows cols : ℕ) (e : Editor) (v : IsValid rows cols e) where
  visible-IsOnScreen : (c : ℕ) (p : Place) → All (IsOnScreen rows cols) (visible rows cols e c p)
  visible-IsOnScreen c (x, y) =
      let is_col = leb e.offset.x x && ltb x (e.offset.x + cols) in
      let is_row = leb e.offset.y y && ltb y (e.offset.y + rows) in
      elim (Bool-cases (is_col && is_row)) [
        | inl h ↦ rw h (record { column_shown = ground arith; row_shown = ground arith }, tt)
        | inr h ↦ rw h tt
      ]

  pair-IsOnScreen :
      (here there : ℕ) (p : Option Place)
      → All (IsOnScreen rows cols) (pair rows cols e here there p)
  pair-IsOnScreen here there none = tt
  pair-IsOnScreen here there (some p) = (
    record { column_shown = v.sideways.column_shown; row_shown = v.placed.row_shown },
    visible-IsOnScreen there p,
  )

  marks_at-IsOnScreen :
      (opening closing : ℕ) (c : Option ℕ)
      → All (IsOnScreen rows cols) (marks_at rows cols opening closing e c)
  marks_at-IsOnScreen opening closing none = tt
  marks_at-IsOnScreen opening closing (some c) = elim (Bool-cases (c == closing)) [
    | inl h ↦ rw h (pair-IsOnScreen _ _ _)
    | inr h ↦ elim (Bool-cases (c == opening)) [
      | inl k ↦ rw (h, k) (pair-IsOnScreen _ _ _)
      | inr k ↦ rw (h, k) tt
    ]
  ]

  match_chars-IsOnScreen :
      (opening closing : ℕ)
      → Returns (All (IsOnScreen rows cols)) (match_chars rows cols opening closing e)
  unfolding match_chars
  match_chars-IsOnScreen opening closing =
      rw (index-line_at e v.placed.row_in) (_, refl, marks_at-IsOnScreen opening closing _)

All-append :
    (rows cols : ℕ) (xs ys : List Mark)
    → All (IsOnScreen rows cols) xs
    → All (IsOnScreen rows cols) ys
    → All (IsOnScreen rows cols) (xs ++ ys)
All-append rows cols [] ys h k = k
All-append rows cols (x ∷ xs) ys h k = (h.0, All-append rows cols xs ys h.1 k)

drawn_lem : (cols : ℕ) (ms : List Mark) → 0 < cols → (r : List Mark) × (drawn cols ms ≡ ok r)
unfolding drawn
drawn_lem cols [] h = ([], refl)
drawn_lem cols (m ∷ ms) h =
    let (r, e) = drawn_lem cols ms h in
    let some_column : leb 1 cols ≡ true = ground arith in rw (some_column, e) (_, refl)

pub clear_highlighted_lem :
    (cols : ℕ) (ms : List Mark) → 0 < cols → clear_highlighted cols ms ≡ ok []
unfolding clear_highlighted
clear_highlighted_lem cols ms h = let (r, e) = drawn_lem cols ms h in rw e

pub print_highlighted-IsOnScreen :
    (rows cols : ℕ) (ms : List Mark) (e : Editor)
    → IsValid rows cols e
    → All (IsOnScreen rows cols) ms
    → Returns (All (IsOnScreen rows cols)) (print_highlighted rows cols ms e)
unfolding print_highlighted
print_highlighted-IsOnScreen rows cols ms e v h =
    let On = All (IsOnScreen rows cols) in
    let some_column : 0 < cols = omega (arith, v.sideways.column_shown) in
    let join = All-append rows cols in
    Returns-bind On On _ _ (match_chars-IsOnScreen rows cols e v b'(' b')') (λ a ha.
      Returns-bind On On _ _ (match_chars-IsOnScreen rows cols e v b'{' b'}') (λ b hb.
        Returns-bind On On _ _ (match_chars-IsOnScreen rows cols e v b'[' b']') (λ c hc.
          let (r, d) = drawn_lem cols (ms ++ a ++ b ++ c) some_column in
          rw d (_, refl, join _ _ (join _ _ (join _ _ h ha) hb) hc))))

pub print_editing_status_lem :
    (rows cols : ℕ) (pathname : Text) (e : Editor)
    → HasStatus cols pathname
    → IsValid rows cols e
    → (s : Status) × (print_editing_status pathname cols e ≡ ok s)
unfolding print_editing_status
print_editing_status_lem rows cols pathname e h v =
    let row_in = v.placed.row_in in
    let lines : (length e.lines == 0) ≡ false = ground arith in
    let fits : leb (length (start_of_status h.path)) cols ≡ true = ground (arith, h.fits) in
    rw (h.shown, lines, fits) (_, refl)
