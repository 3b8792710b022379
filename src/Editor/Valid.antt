-- ===== src/Editor/Valid.antt =====
-- The invariant of the editor of src/usr/editor.rs: the cursor stands in a line of the file or at
-- its end, inside the screen, and the screen is moved sideways by whole widths.
use native.Mathlib.Nat.{div-add-mod', mod-lt}
use moros.Prelude.{
  ℕ, ◌*◌, ◌/◌, ◌≤◌, ◌<◌, ◌≡◌, refl, inl, inr, [], arith, length, get_or, get_elem?-lt, ltb,
  Bool-cases,
}
use moros.Run.{ok, index, Returns}
use moros.Editor.{Text, Editor, column, row, home, to_column, align_cursor}

-- The line of the cursor.
abbrev pub line_at : Editor → Text
line_at e = get_or e.lines (row e) []

-- The cursor stands on a line of the file, inside the screen.
pub record IsPlaced (rows : ℕ) (e : Editor) : Type 0 where
  pub row_in : row e < length e.lines
  pub row_shown : e.cursor.y < rows

pub record IsShown (cols : ℕ) (e : Editor) : Type 0 where
  pub column_shown : e.cursor.x < cols
  pub screens : (k : ℕ) × (e.offset.x ≡ k * cols)

pub record IsValid (rows cols : ℕ) (e : Editor) : Type 0 where
  pub placed : IsPlaced rows e
  pub sideways : IsShown cols e
  pub column_in : column e ≤ length (line_at e)

-- The line under the cursor is there to be read.
pub index-line_at : (e : Editor) → row e < length e.lines → index e.lines (row e) ≡ ok (line_at e)
index-line_at e h = rw (get_elem?-lt e.lines (row e) [] h)

module _ (rows cols : ℕ) (some_column : 0 < cols) where
  pub home-IsValid : (e : Editor) → IsPlaced rows e → IsValid rows cols (home e)
  home-IsValid e v = record {
    placed = record { row_in = v.row_in; row_shown = v.row_shown };
    sideways = record { column_shown = some_column; screens = (0, omega arith) };
    column_in = omega arith;
  }

  pub to_column-IsShown : (e : Editor) (n : ℕ) → IsShown cols (to_column cols n e)
  to_column-IsShown e n = record { column_shown = mod-lt n some_column; screens = (n / cols, refl) }

  pub to_column-IsValid :
      (e : Editor) (n : ℕ)
      → IsPlaced rows e
      → n ≤ length (line_at e)
      → IsValid rows cols (to_column cols n e)
  to_column-IsValid e n v h = record {
    placed = record { row_in = v.row_in; row_shown = v.row_shown };
    sideways = to_column-IsShown e n;
    column_in = omega (arith, div-add-mod' n cols);
  }

  pub align_cursor-IsValid :
      (e : Editor)
      → IsPlaced rows e
      → IsShown cols e
      → Returns (IsValid rows cols) (align_cursor cols e)
  unfolding align_cursor
  align_cursor-IsValid e v s =
      rw (index-line_at e v.row_in) elim (Bool-cases (ltb (length (line_at e)) (column e))) [
        | inl h ↦ rw h (_, refl, to_column-IsValid e _ v (omega arith))
        | inr h ↦ rw h (_, refl, record { placed = v; sideways = s; column_in = ground arith })
      ]
