-- ===== src/Editor/Inverse.antt =====
-- Keys of src/usr/editor.rs that undo one another, and what follows a page key.
use native.Mathlib.Nat.{div-add-mod'}
use moros.Prelude.{
  ℕ, zero, suc, ◌+◌, ◌-◌, ◌<◌, ◌≤◌, ◌≡◌, refl, ap, ◌∙◌, inl, inr, Bool, true, false, some, List, [],
  ◌∷◌, ◌++◌, arith, length, length-set, length-take, get_or, get_elem?, get_elem?-lt,
  get_elem?-set_self, set, take, drop, take-append-drop, insert_at, erase_idx, length-insert_at,
  erase_idx-insert_at, min, ltb, leb, ◌==◌, Bool-cases,
}
use moros.Run.{ok, panic, ◌>>=◌}
use moros.Editor.{Text, Editor, column, row, home, to_column}
use moros.Editor.Keys.{row_up, row_down, newline, backspace, page_up, put_char, insert_all}
use moros.Editor.Valid.{line_at, IsValid, index-line_at}
use moros.Editor.Edits.{row_up_lem, row_up_keeps, row_up_column}

module _ {ℓ} {A : Type ℓ} where
  set-set : (xs : List A) (i : ℕ) (a b : A) → set (set xs i a) i b ≡ set xs i b
  set-set [] i a b = refl
  set-set (x ∷ xs) zero a b = refl
  set-set (x ∷ xs) (suc i) a b = ap (x ∷◌) (set-set xs i a b)

  set-get_or : (xs : List A) (i : ℕ) (d : A) → set xs i (get_or xs i d) ≡ xs
  set-get_or [] i d = refl
  set-get_or (x ∷ xs) zero d = refl
  set-get_or (x ∷ xs) (suc i) d = ap (x ∷◌) (set-get_or xs i d)

  get_elem?-insert_at_self :
      (xs : List A) (i : ℕ) (a : A) → i ≤ length xs → get_elem? (insert_at xs i a) i ≡ some a
  get_elem?-insert_at_self xs zero a h = refl
  get_elem?-insert_at_self [] (suc i) a h = absurd (omega arith)
  get_elem?-insert_at_self (x ∷ xs) (suc i) a h = get_elem?-insert_at_self xs i a (omega arith)

  get_elem?-insert_at_lt :
      (xs : List A) (i j : ℕ) (a : A)
      → i < j
      → j ≤ length xs
      → get_elem? (insert_at xs j a) i ≡ get_elem? xs i
  get_elem?-insert_at_lt xs i zero a h k = absurd (omega arith)
  get_elem?-insert_at_lt [] i (suc j) a h k = absurd (omega arith)
  get_elem?-insert_at_lt (x ∷ xs) zero (suc j) a h k = refl
  get_elem?-insert_at_lt (x ∷ xs) (suc i) (suc j) a h k =
      get_elem?-insert_at_lt xs i j a (omega arith) (omega arith)

-- A line that was split at `i`, joined again.
set_halves :
    (ls : List Text) (y i : ℕ)
    → set
        (set ls y (take i (get_or ls y [])))
        y
        (take i (get_or ls y []) ++ drop i (get_or ls y []))
      ≡ ls
set_halves ls y i =
    set-set ls y (take i (get_or ls y [])) _
    ∙ ap (set ls y) (take-append-drop i (get_or ls y []))
    ∙ set-get_or ls y []

-- What a new line at the cursor makes of a valid editor.
split_at_cursor : ℕ → Editor → Editor
split_at_cursor rows e = home (
    row_down rows (record e {
      lines =
          insert_at (set e.lines (row e) (take (column e) (line_at e))) (row e + 1)
            (drop (column e) (line_at e));
    }))

module _ (rows cols : ℕ) (e : Editor) (v : IsValid rows cols e) where
  newline_lem : newline rows e ≡ ok (split_at_cursor rows e)
  unfolding newline split_at_cursor
  newline_lem =
      let inside : leb (column e) (length (line_at e)) ≡ true = ground (arith, v.column_in) in
      let fits : leb (row e + 1) (length (set e.lines (row e) (take (column e) (line_at e))))
          ≡ true =
        ground (arith, length-set e.lines (row e) (take (column e) (line_at e)), v.placed.row_in) in
      rw (index-line_at e v.placed.row_in, inside, fits)

-- The cursor of the new line, at the bottom of the screen or below the old one.
row_down_lem :
    (rows : ℕ) (e : Editor)
    → (row (row_down rows e) ≡ row e + 1) × ((row_down rows e).lines ≡ e.lines)
row_down_lem rows e = elim (Bool-cases (e.cursor.y == rows - 1)) [
  | inl bottom ↦ rw bottom (omega arith, refl)
  | inr above ↦ rw above (omega arith, refl)
]

-- Where the backspace key joins two lines.
record IsJoined (e : Editor) (i : ℕ) (before after : Text) (ls : List Text) : Type 0 where
  pub at : row e ≡ i + 1
  pub start : column e ≡ 0
  pub first : get_elem? e.lines i ≡ some before
  pub second : get_elem? e.lines (i + 1) ≡ some after
  pub inside : i + 1 < length e.lines
  pub joined : set (erase_idx e.lines (i + 1)) i (before ++ after) ≡ ls

backspace_lem :
    (cols : ℕ) (e : Editor) (i : ℕ) (before after : Text) (ls : List Text)
    → IsJoined e i before after ls
    → backspace cols e ≡ ok (row_up (to_column cols (length before) (record e { lines = ls })))
unfolding backspace
backspace_lem cols e i before after ls h =
    let start : ltb 0 (column e) ≡ false = ground (arith, h.start) in
    let below : (row e == 0) ≡ false = ground (arith, h.at) in
    let above : row e - 1 ≡ i = omega (arith, h.at) in
    let fits : ltb (i + 1) (length e.lines) ≡ true = ground (arith, h.inside) in
    rw (start, below, above, h.at, h.first, h.second, fits, h.joined)

module _ (rows cols : ℕ) (e : Editor) (v : IsValid rows cols e) where
  split_at_cursor-IsJoined :
      IsJoined
        (split_at_cursor rows e)
        (row e)
        (take (column e) (line_at e))
        (drop (column e) (line_at e))
        e.lines
  unfolding split_at_cursor
  split_at_cursor-IsJoined =
      let before = take (column e) (line_at e) in
      let after = drop (column e) (line_at e) in
      let cut = set e.lines (row e) before in
      let all = insert_at cut (row e + 1) after in
      let (down, kept) = row_down_lem rows (record e { lines = all }) in
      let n = length-set e.lines (row e) before in
      record {
        at = down;
        start = omega arith;
        first = rw kept (
            get_elem?-insert_at_lt cut (row e) (row e + 1) after (omega arith)
              (omega (arith, n, v.placed.row_in))
            ∙ get_elem?-set_self e.lines (row e) before v.placed.row_in);
        second =
            rw kept
              (get_elem?-insert_at_self cut (row e + 1) after (omega (arith, n, v.placed.row_in)));
        inside =
            rw kept (omega (arith, n, length-insert_at cut (row e + 1) after, v.placed.row_in));
        joined =
            rw (kept, erase_idx-insert_at cut (row e + 1) after (omega (arith, n, v.placed.row_in)))
              (set_halves e.lines (row e) (column e));
      }

  -- In a valid editor the backspace key behind a new line gives back the lines, the row and the
  -- column of the cursor.
  pub backspace-newline :
      (e' : Editor) × ((newline rows e >>= backspace cols) ≡ ok e')
      × (e'.lines ≡ e.lines)
      × (row e' ≡ row e)
      × (column e' ≡ column e)
  backspace-newline =
      let before = take (column e) (line_at e) in
      let q = split_at_cursor rows e in
      let j = split_at_cursor-IsJoined in
      let back = to_column cols (length before) (record q { lines = e.lines }) in
      let (up, at) =
        row_up_lem (suc q.cursor.y) back (omega (arith, j.at)) (omega arith)
          (omega (arith, j.at, v.placed.row_in)) in
      let (x, offset) = row_up_column back in
      (
        row_up back,
        rw (newline_lem rows cols e v)
            (backspace_lem cols q (row e) before (drop (column e) (line_at e)) e.lines j),
        row_up_keeps back,
        omega (arith, at, j.at),
        omega (
          arith,
          x,
          offset,
          div-add-mod' (length before) cols,
          length-take (column e) (line_at e),
          v.column_in,
        ),
      )

  -- In a valid editor, where the page key goes up to a line that is shorter than the column of the
  -- cursor, typing a character that is shown and no tab panics.
  pub put_char-page_up :
      (is_printable : ℕ → Bool) (c : ℕ)
      → (c == b'\t') ≡ false
      → is_printable c ≡ true
      → length (get_or e.lines (e.offset.y - min (rows - 1) e.offset.y + e.cursor.y) []) < column e
      → (page_up rows e >>= put_char is_printable cols c) ≡ panic
  unfolding page_up put_char insert_all
  put_char-page_up is_printable c other shown short =
      let y = e.offset.y - min (rows - 1) e.offset.y + e.cursor.y in
      let outside : leb (column e) (length (get_or e.lines y [])) ≡ false = ground arith in
      rw (other, shown, get_elem?-lt e.lines y [] (omega (arith, v.placed.row_in)), outside)
