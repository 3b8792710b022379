-- ===== src/Editor/Edits.antt =====
-- The keys of src/usr/editor.rs that change the lines keep the editor valid.
use native.Mathlib.Nat.{div-add-mod'}
use moros.Prelude.{
  ℕ, ◌+◌, ◌-◌, ◌*◌, ◌≤◌, ◌<◌, ◌≡◌, refl, ◌∙◌, ap, inl, inr, true, List, [], ◌∷◌, ◌++◌, arith,
  length, length-append, length-set, get_or, get_elem?-lt, get_or-set_self, set, take, drop,
  insert_at, erase_idx, length-insert_at, length-erase_idx, ltb, ltb→lt, leb, leb→le, ◌==◌,
  Bool-cases,
}
use moros.Run.{Returns}
use moros.Editor.{Text, Editor, column, row, with_x, to_column}
use moros.Editor.Keys.{
  row_up, row_down, newline, or_empty_line, after_cut, cut_line, copy_line, paste, paste_line,
  remove_before, join_before, backspace,
}
use moros.Editor.Valid.{
  line_at, IsPlaced, IsShown, IsValid, index-line_at, home-IsValid, to_column-IsShown,
}
use moros.Editor.Moves.{one_screen_left}

row_down-IsPlaced :
    (rows : ℕ) (e : Editor)
    → row e + 1 < length e.lines
    → e.cursor.y < rows
    → IsPlaced rows (row_down rows e)
row_down-IsPlaced rows e h shown = elim (Bool-cases (e.cursor.y == rows - 1)) [
  | inl bottom ↦ rw bottom (record { row_in = omega (arith, h); row_shown = shown })
  | inr above ↦ rw above (record { row_in = omega (arith, h); row_shown = ground arith })
]

-- Going up from a line that may be gone.
pub row_up_lem :
    (rows : ℕ) (e : Editor)
    → 0 < row e
    → e.cursor.y < rows
    → row e - 1 < length e.lines
    → IsPlaced rows (row_up e) × (row (row_up e) ≡ row e - 1)
row_up_lem rows e below shown h = elim (Bool-cases (ltb 0 e.cursor.y)) [
  | inl some_row ↦ rw some_row (
    record { row_in = omega (arith, ltb→lt _ _ some_row); row_shown = omega arith },
    omega (arith, ltb→lt _ _ some_row),
  )
  | inr top ↦
      let some_offset : ltb 0 e.offset.y ≡ true = ground arith in
      rw (top, some_offset) (record { row_in = ground arith; row_shown = shown }, ground arith)
]

-- Going up changes neither the lines nor the column.
pub row_up_keeps : (e : Editor) → (row_up e).lines ≡ e.lines
row_up_keeps e = elim (Bool-cases (ltb 0 e.cursor.y)) [
  | inl some_row ↦ rw some_row
  | inr top ↦ rw top elim (Bool-cases (ltb 0 e.offset.y)) [ inl o ↦ rw o | inr o ↦ rw o ]
]

pub row_up_column :
    (e : Editor) → ((row_up e).cursor.x ≡ e.cursor.x) × ((row_up e).offset.x ≡ e.offset.x)
row_up_column e = elim (Bool-cases (ltb 0 e.cursor.y)) [
  | inl some_row ↦ rw some_row (refl, refl)
  | inr top ↦
      rw top elim (Bool-cases (ltb 0 e.offset.y)) [
        | inl o ↦ rw o (refl, refl)
        | inr o ↦ rw o (refl, refl)
      ]
]

row_up-IsValid :
    (rows cols : ℕ) (e : Editor)
    → 0 < row e
    → e.cursor.y < rows
    → row e - 1 < length e.lines
    → IsShown cols e
    → column e ≤ length (get_or e.lines (row e - 1) [])
    → IsValid rows cols (row_up e)
row_up-IsValid rows cols e below shown h s le =
    let (placed, at) = row_up_lem rows e below shown h in
    let (x, offset) = row_up_column e in
    let (k, screens) = s.screens in
    let here : line_at (row_up e) ≡ get_or e.lines (row e - 1) [] = rw (at, row_up_keeps e) refl in
    record {
      placed = placed;
      sideways = record {
        column_shown = omega (arith, s.column_shown, x);
        screens = (k, offset ∙ screens);
      };
      column_in = omega (arith, le, x, offset, ap (length {A = ℕ}) here);
    }

length-or_empty_line :
    (ls : List Text) → (0 < length (or_empty_line ls)) × (length ls ≤ length (or_empty_line ls))
length-or_empty_line [] = (omega arith, omega arith)
length-or_empty_line (l ∷ ls) = (omega arith, omega arith)

module _ (rows cols : ℕ) (some_column : 0 < cols) where
  pub newline-IsValid :
      (e : Editor) → IsValid rows cols e → Returns (IsValid rows cols) (newline rows e)
  unfolding newline
  newline-IsValid e v =
      let line = line_at e in
      let before = take (column e) line in
      let after = drop (column e) line in
      let inside : leb (column e) (length line) ≡ true = ground (arith, v.column_in) in
      let n = length-set e.lines (row e) before in
      let fits : leb (row e + 1) (length (set e.lines (row e) before)) ≡ true =
        ground (arith, n, v.placed.row_in) in
      let lines = insert_at (set e.lines (row e) before) (row e + 1) after in
      rw (index-line_at e v.placed.row_in, inside, fits)
        (
          _,
          refl,
          home-IsValid rows cols some_column (row_down rows (record e { lines = lines })) (
              row_down-IsPlaced rows (record e { lines = lines })
                (omega (
                  arith,
                  length-insert_at (set e.lines (row e) before) (row e + 1) after,
                  n,
                  v.placed.row_in,
                ))
                v.placed.row_shown),
        )

  pub after_cut-IsValid :
      (e : Editor) (lines : List Text)
      → e.cursor.y < rows
      → row e ≤ length lines
      → 0 < length lines
      → IsValid rows cols (after_cut (row e) lines e)
  after_cut-IsValid e lines shown le some_line = elim (Bool-cases (leb (length lines) (row e))) [
    | inl last ↦
        let below = leb→le _ _ last in
        rw last (
          home-IsValid rows cols some_column (row_up (record e { lines = lines }))
            (row_up_lem rows (record e { lines = lines }) (omega arith) shown (omega arith)).0)
    | inr more ↦ rw more (
        home-IsValid rows cols some_column (record e { lines = lines })
          (record { row_in = ground arith; row_shown = shown }))
  ]

  pub cut_line-IsValid :
      (e : Editor) → IsValid rows cols e → Returns (IsValid rows cols) (cut_line e)
  unfolding cut_line
  cut_line-IsValid e v =
      let lines = erase_idx e.lines (row e) in
      let inside : ltb (row e) (length e.lines) ≡ true = ground (arith, v.placed.row_in) in
      let n = length-erase_idx e.lines (row e) v.placed.row_in in
      let (some_line, le) = length-or_empty_line lines in
      rw (index-line_at e v.placed.row_in, inside)
        (
          _,
          refl,
          after_cut-IsValid (record e { clipboard = line_at e ∷ e.clipboard }) (or_empty_line lines)
              v.placed.row_shown (omega (arith, n, le, v.placed.row_in)) some_line,
        )

  pub copy_line-IsValid :
      (e : Editor) → IsValid rows cols e → Returns (IsValid rows cols) (copy_line e)
  unfolding copy_line
  copy_line-IsValid e v = rw (index-line_at e v.placed.row_in) (
    _,
    refl,
    record {
      placed = record { row_in = v.placed.row_in; row_shown = v.placed.row_shown };
      sideways = record { column_shown = v.sideways.column_shown; screens = v.sideways.screens };
      column_in = v.column_in;
    },
  )

  paste_lem :
      (e : Editor) (clipboard : List Text)
      → IsValid rows cols e
      → Returns (IsValid rows cols) (paste clipboard e)
  paste_lem e [] v = (_, refl, home-IsValid rows cols some_column e v.placed)
  paste_lem e (line ∷ clipboard) v =
      let fits : leb (row e + 1) (length e.lines) ≡ true = ground (arith, v.placed.row_in) in
      rw fits (
        _,
        refl,
        home-IsValid rows cols some_column
            (record e { lines = insert_at e.lines (row e + 1) line; clipboard = clipboard })
            (record {
              row_in = omega (arith, length-insert_at e.lines (row e + 1) line, v.placed.row_in);
              row_shown = v.placed.row_shown;
            }),
      )

  pub paste_line-IsValid :
      (e : Editor) → IsValid rows cols e → Returns (IsValid rows cols) (paste_line e)
  unfolding paste_line
  paste_line-IsValid e v = paste_lem e e.clipboard v

  -- Changing the line of the cursor.
  pub edit_line-IsValid :
      (e : Editor) (offset cursor : ℕ) (line : Text)
      → IsPlaced rows e
      → cursor < cols
      → (k : ℕ) → offset ≡ k * cols
      → offset + cursor ≤ length line
      → IsValid rows cols (with_x offset cursor (record e { lines = set e.lines (row e) line }))
  edit_line-IsValid e offset cursor line v shown k screens le = record {
    placed = record {
      row_in = omega (arith, length-set e.lines (row e) line, v.row_in);
      row_shown = v.row_shown;
    };
    sideways = record { column_shown = shown; screens = (k, screens) };
    column_in = rw (get_or-set_self e.lines (row e) line [] v.row_in) le;
  }

  pub remove_before-IsValid :
      (e : Editor)
      → IsValid rows cols e
      → 0 < column e
      → Returns (IsValid rows cols) (remove_before cols e)
  remove_before-IsValid e v some_x =
      let line = line_at e in
      let i = column e - 1 in
      let inside : ltb i (length line) ≡ true = ground (arith, v.column_in) in
      let n = length-erase_idx line i (ltb→lt _ _ inside) in
      let (k, screens) = v.sideways.screens in
      rw (index-line_at e v.placed.row_in, inside)
        elim (Bool-cases (e.cursor.x == 0)) [
          | inl edge ↦
              let (j, fits, before) = one_screen_left cols _ k screens (ground arith) in
              let room : leb cols e.offset.x ≡ true = ground arith in
              rw (edge, room)
                (
                  _,
                  refl,
                  edit_line-IsValid e (e.offset.x - cols) (cols - 1) (erase_idx line i) v.placed
                      (omega arith) j before (ground (arith, v.column_in, n)),
                )
          | inr inner ↦ rw inner (
            _,
            refl,
            edit_line-IsValid e e.offset.x (e.cursor.x - 1) (erase_idx line i) v.placed
                (omega (arith, v.sideways.column_shown)) k screens (ground (arith, v.column_in, n)),
          )
        ]

  pub join_before-IsValid :
      (e : Editor)
      → IsValid rows cols e
      → 0 < row e
      → Returns (IsValid rows cols) (join_before cols e)
  join_before-IsValid e v below =
      let i = row e - 1 in
      let previous = get_or e.lines i [] in
      let inside : ltb (row e) (length e.lines) ≡ true = ground (arith, v.placed.row_in) in
      let shorter = erase_idx e.lines (row e) in
      let n = length-erase_idx e.lines (row e) v.placed.row_in in
      let m = length-set shorter i (previous ++ line_at e) in
      let joined = set shorter i (previous ++ line_at e) in
      let at : get_or joined i [] ≡ previous ++ line_at e =
        get_or-set_self shorter i (previous ++ line_at e) [] (omega (arith, n, v.placed.row_in)) in
      let e' = to_column cols (length previous) (record e { lines = joined }) in
      let le : column e' ≤ length (get_or joined i []) =
        rw at (
          omega (arith, div-add-mod' (length previous) cols, length-append previous (line_at e))) in
      rw
        (
          get_elem?-lt e.lines i [] (omega (arith, v.placed.row_in)),
          index-line_at e v.placed.row_in,
          inside,
        )
        (
          _,
          refl,
          row_up-IsValid rows cols e' below v.placed.row_shown
              (omega (arith, n, m, v.placed.row_in))
              (to_column-IsShown rows cols some_column (record e { lines = joined })
                (length previous))
              le,
        )

  pub backspace-IsValid :
      (e : Editor) → IsValid rows cols e → Returns (IsValid rows cols) (backspace cols e)
  unfolding backspace
  backspace-IsValid e v = elim (Bool-cases (ltb 0 (column e))) [
    | inl some_x ↦ rw some_x (remove_before-IsValid e v (ltb→lt _ _ some_x))
    | inr start ↦ rw start elim (Bool-cases (row e == 0)) [
      | inl first ↦ rw first (e, refl, v)
      | inr below ↦ rw below (join_before-IsValid e v (ground arith))
    ]
  ]
