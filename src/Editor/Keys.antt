-- ===== src/Editor/Keys.antt =====
-- The keys of src/usr/editor.rs, in the order of its loop. `rows` is the height of the text on the
-- screen, which is at least 1, and `cols` the width.
use moros.Prelude.{
  ℕ, ◌+◌, ◌-◌, min, Bool, Option, none, some, List, [], ◌∷◌, ◌++◌, length, ltb, leb, ◌==◌,
  if◌then◌else◌, set, take, drop, replicate,
}
use moros.Run.{Run, ok, panic, ◌>>=◌, index, vec_insert, vec_remove, minus}
use moros.Editor.{Text, Editor, column, row, with_x, with_y, home, to_column, align_cursor}

-- `Vec::split_off`, which panics behind the end.
abbrev pub split_off : Text → ℕ → Run (Text × Text)
split_off t i = if leb i (length t) then ok (take i t, drop i t) else panic

-- The cursor goes to the next line, at the bottom of the screen by scrolling.
abbrev pub row_down : ℕ → Editor → Editor
row_down rows e =
    if e.cursor.y == rows - 1
    then with_y (e.offset.y + 1) e.cursor.y e
    else with_y e.offset.y (e.cursor.y + 1) e

-- The cursor goes to the line above, at the top of the screen by scrolling.
abbrev pub row_up : Editor → Editor
row_up e =
    if ltb 0 e.cursor.y
    then with_y e.offset.y (e.cursor.y - 1) e
    else if ltb 0 e.offset.y
    then with_y (e.offset.y - 1) e.cursor.y e
    else e

abbrev pub halves : ℕ → Editor → Text × Text → Run Editor
halves rows e (before, after) = do
  lines ← vec_insert (set e.lines (row e) before) (row e + 1) after
  ok (home (row_down rows (record e { lines = lines })))

unfoldable pub newline : ℕ → Editor → Run Editor
newline rows e = do
  old_line ← index e.lines (row e)
  parts ← split_off old_line (column e)
  halves rows e parts

unfoldable pub page_up : ℕ → Editor → Run Editor
page_up rows e = ok (with_y (e.offset.y - min (rows - 1) e.offset.y) e.cursor.y e)

abbrev pub scroll_by : ℕ → ℕ → Editor → Editor
scroll_by scroll remaining e =
    with_y (e.offset.y + min scroll remaining)
      (if ltb remaining (e.cursor.y + scroll) then 0 else e.cursor.y) e

abbrev pub at_least_one : ℕ → ℕ
at_least_one n = if n == 0 then 1 else n

unfoldable pub page_down : ℕ → Editor → Run Editor
page_down rows e = do
  remaining ← minus (at_least_one (length e.lines)) (e.offset.y + 1)
  ok (scroll_by (rows - 1) remaining e)

unfoldable pub arrow_up : ℕ → Editor → Run Editor
unfolding align_cursor
arrow_up cols e = align_cursor cols (row_up e)

abbrev pub line_down : ℕ → ℕ → Editor → Editor
line_down rows n e =
    let is_eof = n == row e in
    let is_bottom = e.cursor.y == rows - 1 in
    if is_bottom
    then (if is_eof then e else with_y (e.offset.y + 1) e.cursor.y e)
    else if is_eof
    then e
    else with_y e.offset.y (e.cursor.y + 1) e

unfoldable pub arrow_down : ℕ → ℕ → Editor → Run Editor
unfolding align_cursor
arrow_down rows cols e = do
  n ← minus (length e.lines) 1
  if ltb e.cursor.y (min rows n) then align_cursor cols (line_down rows n e) else ok e

unfoldable pub arrow_right : ℕ → Editor → Run Editor
arrow_right cols e = do
  line ← index e.lines (row e)
  ok (
      if leb (length line) (column e)
      then e
      else if e.cursor.x == cols - 1
      then with_x (e.offset.x + cols) (e.cursor.x - (cols - 1)) e
      else with_x e.offset.x (e.cursor.x + 1) e)

unfoldable pub arrow_left : ℕ → Editor → Run Editor
unfolding align_cursor
arrow_left cols e =
    if column e == 0
    then ok e
    else if e.cursor.x == 0
    then (do x ← minus e.offset.x cols; align_cursor cols (with_x x (e.cursor.x + (cols - 1)) e))
    else ok (with_x e.offset.x (e.cursor.x - 1) e)

unfoldable pub top_of_file : Editor → Run Editor
top_of_file e = ok (with_x 0 0 (with_y 0 0 e))

unfoldable pub bottom_of_file : ℕ → Editor → Run Editor
bottom_of_file rows e = do
  y ← minus (min rows (length e.lines)) 1
  offset ← minus (length e.lines) (1 + y)
  ok (with_x 0 0 (with_y offset y e))

unfoldable pub start_of_line : Editor → Run Editor
start_of_line e = ok (home e)

unfoldable pub end_of_line : ℕ → Editor → Run Editor
end_of_line cols e = do line ← index e.lines (row e); ok (to_column cols (length line) e)

-- The lines of a file are never none.
abbrev pub or_empty_line : List Text → List Text
or_empty_line [] = [] ∷ []
or_empty_line (l ∷ ls) = l ∷ ls

-- The cursor stays in the file when its last line is cut.
abbrev pub after_cut : ℕ → List Text → Editor → Editor
after_cut i lines e =
    if leb (length lines) i
    then home (row_up (record e { lines = lines }))
    else home (record e { lines = lines })

unfoldable pub cut_line : Editor → Run Editor
cut_line e = do
  line ← index e.lines (row e)
  lines ← vec_remove e.lines (row e)
  ok (after_cut (row e) (or_empty_line lines) (record e { clipboard = line ∷ e.clipboard }))

unfoldable pub copy_line : Editor → Run Editor
copy_line e = do line ← index e.lines (row e); ok (record e { clipboard = line ∷ e.clipboard })

abbrev pub paste : List Text → Editor → Run Editor
paste [] e = ok (home e)
paste (line ∷ clipboard) e = do
  lines ← vec_insert e.lines (row e + 1) line
  ok (home (record e { lines = lines; clipboard = clipboard }))

-- The last line that was pushed is the first of the model's clipboard.
unfoldable pub paste_line : Editor → Run Editor
paste_line e = paste e.clipboard e

-- Both branches of the backspace key that remove something.
abbrev pub remove_before : ℕ → Editor → Run Editor
remove_before cols e = do
  line ← index e.lines (row e)
  shorter ← vec_remove line (column e - 1)
  let lines = set e.lines (row e) shorter
  if e.cursor.x == 0
      then (do x ← minus e.offset.x cols; ok (with_x x (cols - 1) (record e { lines = lines })))
      else ok (with_x e.offset.x (e.cursor.x - 1) (record e { lines = lines }))

abbrev pub join_before : ℕ → Editor → Run Editor
join_before cols e = do
  previous ← index e.lines (row e - 1)
  line ← index e.lines (row e)
  lines ← vec_remove e.lines (row e)
  let joined = set lines (row e - 1) (previous ++ line)
  ok (row_up (to_column cols (length previous) (record e { lines = joined })))

unfoldable pub backspace : ℕ → Editor → Run Editor
backspace cols e =
    if ltb 0 (column e)
    then remove_before cols e
    else if row e == 0
    then ok e
    else join_before cols e

-- The bytes of a character in UTF-8.
unfoldable pub len_utf8 : ℕ → ℕ
len_utf8 c = if ltb c 0x80 then 1 else if ltb c 0x800 then 2 else if ltb c 0x10000 then 3 else 4

-- `String::remove`, which counts bytes, and panics off a boundary of characters.
unfoldable pub string_remove : Text → ℕ → Run Text
unfolding len_utf8
string_remove [] i = panic
string_remove (c ∷ cs) i =
    if i == 0
    then ok cs
    else if ltb i (len_utf8 c)
    then panic
    else (do rest ← string_remove cs (i - len_utf8 c); ok (c ∷ rest))

unfoldable pub join_after : Editor → Text → Run Editor
join_after e line = do
  next ← index e.lines (row e + 1)
  lines ← vec_remove e.lines (row e + 1)
  ok (record e { lines = set lines (row e) (line ++ next) })

unfoldable pub delete : Editor → Run Editor
unfolding string_remove
delete e = do
  line ← index e.lines (row e)
  if leb (length line) (column e)
      then (if ltb (row e + 1) (length e.lines) then join_after e line else ok e)
      else (do
        shorter ← string_remove line (column e)
        ok (record e { lines = set e.lines (row e) shorter }))

abbrev pub tab_size : ℕ
tab_size = 4

module _ (is_printable : ℕ → Bool) where
  abbrev pub render_char : ℕ → Option Text
  render_char c =
      if c == b'\t'
      then some (replicate tab_size b' ')
      else if is_printable c
      then some (c ∷ [])
      else none

-- The loop over the characters of `s`, with the column of the screen.
unfoldable pub insert_all : ℕ → Text → Text → ℕ → Run (Text × ℕ)
insert_all offset [] line x = ok (line, x)
insert_all offset (c ∷ cs) line x = do
  longer ← vec_insert line (offset + x) c
  insert_all offset cs longer (x + 1)

abbrev pub after_insert : ℕ → Editor → Text × ℕ → Editor
after_insert cols e (line, x) =
    let lines = set e.lines (row e) line in
    if leb cols x
    then with_x (e.offset.x + cols) (x - cols) (record e { lines = lines })
    else with_x e.offset.x x (record e { lines = lines })

abbrev pub put_text : ℕ → Option Text → Editor → Run Editor
put_text cols none e = ok e
put_text cols (some s) e = do
  line ← index e.lines (row e)
  result ← insert_all e.offset.x s line e.cursor.x
  ok (after_insert cols e result)

unfoldable pub put_char : (ℕ → Bool) → ℕ → ℕ → Editor → Run Editor
unfolding insert_all
put_char is_printable cols c e = put_text cols (render_char is_printable c) e
