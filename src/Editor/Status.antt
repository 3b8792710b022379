-- ===== src/Editor/Status.antt =====
-- The status line of src/usr/editor.rs: what `print_editing_status` counts before it prints.
use moros.Prelude.{ℕ, ◌+◌, ◌-◌, ◌*◌, ◌/◌, [], ◌∷◌, ◌++◌, length, leb, ltb, ◌==◌, if◌then◌else◌}
use moros.Run.{Run, ok, panic, ◌>>=◌, minus}
use moros.Editor.{Text, Editor, column, row}
use moros.Editor.Keys.{len_utf8}

-- `String::truncate`, which panics inside a character.
unfoldable pub string_truncate : ℕ → Text → Run Text
string_truncate max [] = ok []
string_truncate max (c ∷ cs) =
    let rest = string_truncate (max - len_utf8 c) cs in
    if max == 0 then ok [] else if leb (len_utf8 c) max then (do t ← rest; ok (c ∷ t)) else panic

abbrev pub max_path : ℕ
max_path = 50

unfoldable pub shown_path : Text → Run Text
unfolding string_truncate
shown_path path =
    if ltb max_path (length path)
    then (do t ← string_truncate (max_path - 3) path; ok (t ++ b'.' ∷ b'.' ∷ b'.' ∷ []))
    else ok path

-- `Editing '` and `'` around the path.
abbrev pub start_of_status : Text → Text
start_of_status path =
    b'E' ∷ b'd' ∷ b'i' ∷ b't' ∷ b'i' ∷ b'n' ∷ b'g' ∷ b' ' ∷ b'\'' ∷ path ++ b'\'' ∷ []

-- What the line is formatted from; the numbers of the row and the column begin with 1.
pub record Status : Type 0 where
  pub start : Text
  pub y : ℕ
  pub x : ℕ
  pub percent : ℕ
  pub width : ℕ

abbrev divided : ℕ → ℕ → Run ℕ
divided a b = if b == 0 then panic else ok (a / b)

unfoldable pub print_editing_status : Text → ℕ → Editor → Run Status
unfolding shown_path
print_editing_status pathname cols e = do
  path ← shown_path pathname
  n ← divided ((row e + 1) * 100) (length e.lines)
  width ← minus cols (length (start_of_status path))
  ok (record {
    start = start_of_status path;
    y = row e + 1;
    x = column e + 1;
    percent = n;
    width = width;
  })
