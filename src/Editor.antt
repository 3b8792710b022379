-- ===== src/Editor.antt =====
-- The text editor of src/usr/editor.rs: lines of characters (code points), the cursor on the
-- screen and the offset of the screen, the clipboard, and how a file becomes lines and back.
-- `rows` and `cols`, the size of the screen, are read once. The path of the file, which
-- nothing changes, is an argument of what shows it. Screen output is left out.
pub mod Keys
pub mod Valid
pub mod Moves
pub mod Edits
pub mod Typing
pub mod Status
pub mod Marks
pub mod Shown
pub mod Session
pub mod Narrow
pub mod Stepped
pub mod Lines
pub mod Clean
pub mod Contents
pub mod Saved
pub mod Inverse
use moros.Prelude.{
  ℕ, ◌+◌, ◌-◌, ◌*◌, ◌/◌, ◌%◌, ◌<◌, Bool, Option, none, some, List, [], ◌∷◌, ◌++◌, length, ltb, ◌==◌,
  if◌then◌else◌, set,
}
use moros.Run.{Run, ok, panic, ◌>>=◌, index}

-- A `String` by its characters.
abbrev pub Text : Type 0
Text = List ℕ

pub record Coords : Type 0 where
  pub x : ℕ
  pub y : ℕ

pub record Editor : Type 0 where
  pub clipboard : List Text
  pub lines : List Text
  pub cursor : Coords
  pub offset : Coords

abbrev pub new_line : ℕ
new_line = b'\n'

abbrev pub prepend : ℕ → List Text → List Text
prepend c [] = (c ∷ []) ∷ []
prepend c (t ∷ ts) = (c ∷ t) ∷ ts

-- `contents.split('\n')`
unfoldable pub split_lines : Text → List Text
split_lines [] = [] ∷ []
split_lines (c ∷ cs) = if c == new_line then [] ∷ split_lines cs else prepend c (split_lines cs)

-- The loop of `save`.
unfoldable pub join_lines : List Text → Text
join_lines [] = []
join_lines (l ∷ []) = l
join_lines (l ∷ m ∷ ls) = l ++ new_line ∷ join_lines (m ∷ ls)

abbrev pub origin : Coords
origin = record { x = 0; y = 0 }

-- `fs::read_to_string` gives the contents, or an error.
unfoldable pub new : Option Text → Editor
unfolding split_lines
new (some contents) = record {
  clipboard = [];
  lines = split_lines contents;
  cursor = origin;
  offset = origin;
}
new none = record { clipboard = []; lines = [] ∷ []; cursor = origin; offset = origin }

-- What `save` writes.
unfoldable pub contents : Editor → Text
unfolding join_lines
contents e = join_lines e.lines

-- The cursor in the file.
abbrev pub column : Editor → ℕ
column e = e.offset.x + e.cursor.x

abbrev pub row : Editor → ℕ
row e = e.offset.y + e.cursor.y

abbrev pub with_x : ℕ → ℕ → Editor → Editor
with_x offset cursor e = record e {
  offset = record e.offset { x = offset };
  cursor = record e.cursor { x = cursor };
}

abbrev pub with_y : ℕ → ℕ → Editor → Editor
with_y offset cursor e = record e {
  offset = record e.offset { y = offset };
  cursor = record e.cursor { y = cursor };
}

-- The start of the line.
abbrev pub home : Editor → Editor
home = with_x 0 0

-- The column `n` on the screen that shows it.
abbrev pub to_column : ℕ → ℕ → Editor → Editor
to_column cols n e = with_x (n / cols * cols) (n % cols) e

unfoldable pub align_cursor : ℕ → Editor → Run Editor
align_cursor cols e = do
  line ← index e.lines (row e)
  ok (if ltb (length line) (column e) then to_column cols (length line) e else e)
