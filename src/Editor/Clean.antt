-- ===== src/Editor/Clean.antt =====
-- Whatever is typed in src/usr/editor.rs, the file has lines, and no line holds a new line.
use moros.Prelude.{
  ℕ, ◌+◌, ◌-◌, ◌<◌, inl, inr, Bool, true, false, length, leb, ltb, ◌==◌, if◌then◌else◌, Bool-cases,
  min,
}
use moros.Run.{Run, ok, ◌>>=◌, index, minus, Ensures, Ensures-bind, Ensures-if, Ensures-index}
use moros.Editor.{Editor, column, row, with_x, with_y, align_cursor}
use moros.Editor.Lines.{IsLine, AreLines}
use moros.Editor.Keys.{
  row_up, row_down, page_up, page_down, at_least_one, arrow_up, arrow_down, line_down, arrow_left,
  arrow_right, top_of_file, bottom_of_file, start_of_line, end_of_line,
}

-- What a session keeps of the lines and the clipboard.
pub record IsClean (e : Editor) : Type 0 where
  pub lines : AreLines e.lines
  pub clipboard : AreLines e.clipboard
  pub some_line : 0 < length e.lines

pub IsClean-if : (b : Bool) (e e' : Editor) → IsClean e → IsClean e' → IsClean (if b then e else e')
IsClean-if true e e' h h' = h
IsClean-if false e e' h h' = h'

-- Moving the cursor and the screen.
pub with_x-IsClean : (a b : ℕ) (e : Editor) → IsClean e → IsClean (with_x a b e)
with_x-IsClean a b e h = record {
  lines = h.lines;
  clipboard = h.clipboard;
  some_line = h.some_line;
}

pub with_y-IsClean : (a b : ℕ) (e : Editor) → IsClean e → IsClean (with_y a b e)
with_y-IsClean a b e h = record {
  lines = h.lines;
  clipboard = h.clipboard;
  some_line = h.some_line;
}

pub row_up-IsClean : (e : Editor) → IsClean e → IsClean (row_up e)
row_up-IsClean e h =
    IsClean-if _ _ _ (with_y-IsClean e.offset.y (e.cursor.y - 1) e h)
      (IsClean-if _ _ _ (with_y-IsClean (e.offset.y - 1) e.cursor.y e h) h)

pub row_down-IsClean : (rows : ℕ) (e : Editor) → IsClean e → IsClean (row_down rows e)
row_down-IsClean rows e h =
    IsClean-if _ _ _ (with_y-IsClean (e.offset.y + 1) e.cursor.y e h)
      (with_y-IsClean e.offset.y (e.cursor.y + 1) e h)

pub align_cursor-IsClean :
    (cols : ℕ) (e : Editor) → IsClean e → Ensures IsClean (align_cursor cols e)
unfolding align_cursor
align_cursor-IsClean cols e h =
    Ensures-bind IsLine IsClean (index e.lines (row e)) _ (Ensures-index IsLine _ _ h.lines)
      λ l hl. IsClean-if _ _ _ (with_x-IsClean _ _ e h) h

-- Behind a subtraction that may panic.
pub minus-IsClean :
    (a b : ℕ) (f : ℕ → Run Editor)
    → ((n : ℕ) → Ensures IsClean (f n))
    → Ensures IsClean (minus a b >>= f)
minus-IsClean a b f h = elim (Bool-cases (leb b a)) [
  | inl fits ↦ rw fits (h (a - b))
  | inr below ↦ rw below tt
]

-- The keys that move the cursor or the screen.
module _ (rows cols : ℕ) (e : Editor) (h : IsClean e) where
  pub page_up-IsClean : Ensures IsClean (page_up rows e)
  unfolding page_up
  page_up-IsClean = with_y-IsClean _ _ e h

  pub page_down-IsClean : Ensures IsClean (page_down rows e)
  unfolding page_down
  page_down-IsClean =
      minus-IsClean (at_least_one (length e.lines)) (e.offset.y + 1) _ (λ n. with_y-IsClean _ _ e h)

  pub arrow_up-IsClean : Ensures IsClean (arrow_up cols e)
  unfolding arrow_up
  arrow_up-IsClean = align_cursor-IsClean cols (row_up e) (row_up-IsClean e h)

  line_down-IsClean : (n : ℕ) → IsClean (line_down rows n e)
  line_down-IsClean n =
      IsClean-if _ _ _ (IsClean-if _ _ _ h (with_y-IsClean (e.offset.y + 1) e.cursor.y e h))
        (IsClean-if _ _ _ h (with_y-IsClean e.offset.y (e.cursor.y + 1) e h))

  pub arrow_down-IsClean : Ensures IsClean (arrow_down rows cols e)
  unfolding arrow_down
  arrow_down-IsClean = minus-IsClean (length e.lines) 1 _ (λ n.
      Ensures-if IsClean (ltb e.cursor.y (min rows n)) _ (ok e)
        (align_cursor-IsClean cols (line_down rows n e) (line_down-IsClean n)) h)

  pub arrow_right-IsClean : Ensures IsClean (arrow_right cols e)
  unfolding arrow_right
  arrow_right-IsClean =
      Ensures-bind IsLine IsClean (index e.lines (row e)) _ (Ensures-index IsLine _ _ h.lines)
        λ l hl. IsClean-if (leb (length l) (column e)) _ _ h (
          IsClean-if (e.cursor.x == cols - 1) _ _
            (with_x-IsClean (e.offset.x + cols) (e.cursor.x - (cols - 1)) e h)
            (with_x-IsClean e.offset.x (e.cursor.x + 1) e h))

  pub arrow_left-IsClean : Ensures IsClean (arrow_left cols e)
  unfolding arrow_left
  arrow_left-IsClean = Ensures-if IsClean (column e == 0) (ok e) _ h (
      Ensures-if IsClean (e.cursor.x == 0) _ (ok (with_x e.offset.x (e.cursor.x - 1) e))
        (minus-IsClean e.offset.x cols _ (λ n.
          align_cursor-IsClean cols (with_x n (e.cursor.x + (cols - 1)) e)
            (with_x-IsClean n (e.cursor.x + (cols - 1)) e h)))
        (with_x-IsClean e.offset.x (e.cursor.x - 1) e h))

  pub top_of_file-IsClean : Ensures IsClean (top_of_file e)
  unfolding top_of_file
  top_of_file-IsClean = with_x-IsClean 0 0 (with_y 0 0 e) (with_y-IsClean 0 0 e h)

  pub bottom_of_file-IsClean : Ensures IsClean (bottom_of_file rows e)
  unfolding bottom_of_file
  bottom_of_file-IsClean = minus-IsClean (min rows (length e.lines)) 1 _ λ y.
      minus-IsClean (length e.lines) (1 + y) _
        (λ o. with_x-IsClean 0 0 (with_y o y e) (with_y-IsClean o y e h))

  pub start_of_line-IsClean : Ensures IsClean (start_of_line e)
  unfolding start_of_line
  start_of_line-IsClean = with_x-IsClean 0 0 e h

  pub end_of_line-IsClean : Ensures IsClean (end_of_line cols e)
  unfolding end_of_line
  end_of_line-IsClean =
      Ensures-bind IsLine IsClean (index e.lines (row e)) _ (Ensures-index IsLine _ _ h.lines)
        λ l hl. with_x-IsClean _ _ e h
