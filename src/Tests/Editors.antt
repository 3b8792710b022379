-- ===== src/Tests/Editors.antt =====
-- Runs of the editor, and its theorems at concrete inputs.
use moros.Prelude.{ℕ, ◌≡◌, refl, Bool, true, false, some, List, [], ◌∷◌, arith, replicate}
use moros.Run.{ok, panic, ◌>>=◌, Returns}
use moros.Editor.{Text, Editor, column, row, new, contents, split_lines}
use moros.Editor.Keys.{newline, backspace, delete, page_up, put_char, cut_line, len_utf8}
use moros.Editor.Valid.{IsValid}
use moros.Editor.Typing.{delete-wide}
use moros.Editor.Session.{Session, handle, step, run, begin, finish}
use moros.Editor.Status.{print_editing_status, shown_path, string_truncate}
use moros.Editor.Marks.{match_chars, print_highlighted, drawn, clear_highlighted}
use moros.Editor.Shown.{HasStatus}
use moros.Editor.Narrow.{begin-narrow}
use moros.Editor.Stepped.{StaysValid, step-StaysValid}
use moros.Editor.Saved.{run-saved}
use moros.Editor.Inverse.{backspace-newline, put_char-page_up}

abbrev file : Text
file = b'a' ∷ b'b' ∷ b'c' ∷ b'\n' ∷ b'd' ∷ []

abbrev shows_all : ℕ → Bool
shows_all c = true

-- The cursor behind `ab`.
abbrev in_line : Editor
in_line = record {
  clipboard = [];
  lines = (b'a' ∷ b'b' ∷ b'c' ∷ []) ∷ (b'd' ∷ []) ∷ [];
  cursor = record { x = 2; y = 0 };
  offset = record { x = 0; y = 0 };
}

abbrev at_start : Session
at_start = record {
  editor = in_line;
  escape = false;
  csi = false;
  csi_params = [];
  highlighted = [];
}

opened_lines : (new (some file)).lines ≡ in_line.lines
unfolding new
opened_lines = refl

in_line-IsValid : IsValid 2 80 in_line
in_line-IsValid = record {
  placed = record { row_in = omega arith; row_shown = omega arith };
  sideways = record { column_shown = omega arith; screens = (0, refl) };
  column_in = omega arith;
}

abbrev path : Text
path = b'a' ∷ b'.' ∷ b't' ∷ []

path_status : HasStatus 80 path
unfolding shown_path
path_status = record { path = path; shown = refl; fits = omega arith }

step-StaysValid_example : Returns (StaysValid 2 80) (step shows_all 2 80 path b'x' at_start)
step-StaysValid_example =
    step-StaysValid shows_all 2 80 path (omega arith) path_status b'x' at_start
      (record { not_page_up = refl; not_page_down = refl; ascii = λ e. absurd (omega arith) })
      in_line-IsValid

-- `f(a{)b`, with the cursor on the bracket that closes.
abbrev brackets : Editor
brackets = record in_line {
  lines = (b'f' ∷ b'(' ∷ b'a' ∷ []) ∷ (b'{' ∷ b')' ∷ b'b' ∷ []) ∷ [];
  cursor = record { x = 1; y = 1 };
}

partner_marked :
    print_highlighted 2 80 [] brackets
    ≡ ok (record { x = 1; y = 1; char = b')' } ∷ record { x = 1; y = 0; char = b'(' } ∷ [])
unfolding print_highlighted match_chars drawn
partner_marked = refl

-- And on the one that opens.
opening_marked :
    print_highlighted 2 80 [] (record brackets { cursor = record { x = 1; y = 0 } })
    ≡ ok (record { x = 1; y = 0; char = b'(' } ∷ record { x = 1; y = 1; char = b')' } ∷ [])
unfolding print_highlighted match_chars drawn
opening_marked = refl

-- The cut at 47 bytes falls inside the last of twenty-four characters of two bytes.
wide_path : shown_path (replicate 51 0xe9) ≡ panic
unfolding shown_path string_truncate len_utf8
wide_path = refl

-- An `x` is typed and a line cut.
abbrev typed : List ℕ
typed = b'x' ∷ 0x04 ∷ []

abbrev after : Session
after = record {
  editor = record {
    clipboard = (b'x' ∷ b'a' ∷ b'b' ∷ b'c' ∷ []) ∷ [];
    lines = (b'd' ∷ []) ∷ [];
    cursor = record { x = 0; y = 0 };
    offset = record { x = 0; y = 0 };
  };
  escape = false;
  csi = false;
  csi_params = [];
  highlighted = [];
}

typed_after : (begin 2 80 path (new (some file)) >>= run shows_all 2 80 path typed) ≡ ok after
unfolding begin run step handle finish new put_char cut_line print_editing_status shown_path
    print_highlighted match_chars drawn clear_highlighted
typed_after = refl

run-saved_example : split_lines (contents after.editor) ≡ after.editor.lines
run-saved_example = run-saved shows_all 2 80 path (some file) typed after typed_after

backspace-newline_example :
    (e' : Editor) × ((newline 2 in_line >>= backspace 80) ≡ ok e')
    × (e'.lines ≡ in_line.lines)
    × (row e' ≡ 0)
    × (column e' ≡ 2)
backspace-newline_example = backspace-newline 2 80 in_line in_line-IsValid

-- `é` in front of the cursor.
abbrev accented : Editor
accented = record in_line { lines = (0xe9 ∷ b'b' ∷ []) ∷ []; cursor = record { x = 1; y = 0 } }

delete-wide_example : delete accented ≡ panic
delete-wide_example = delete-wide accented 0xe9 b'b' [] refl refl (omega arith)

-- The cursor on the second line, with the first, shorter, above the screen.
abbrev below : Editor
below = record in_line {
  lines = (b'a' ∷ []) ∷ (b'b' ∷ b'c' ∷ []) ∷ [];
  cursor = record { x = 2; y = 0 };
  offset = record { x = 0; y = 1 };
}

below-IsValid : IsValid 2 80 below
below-IsValid = record {
  placed = record { row_in = omega arith; row_shown = omega arith };
  sideways = record { column_shown = omega arith; screens = (0, refl) };
  column_in = omega arith;
}

put_char-page_up_example : (page_up 2 below >>= put_char shows_all 80 b'x') ≡ panic
put_char-page_up_example =
    put_char-page_up 2 80 below below-IsValid shows_all b'x' refl refl (omega arith)

-- The status line does not fit in twelve columns.
narrow_start : begin 2 12 path in_line ≡ panic
narrow_start = (begin-narrow 2 12 path (omega arith) in_line at_start (omega arith) (omega arith)).0
