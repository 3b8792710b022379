-- ===== src/Editor/Moves.antt =====
-- The keys of src/usr/editor.rs that move the cursor keep the editor valid. The page keys keep the
-- cursor in the file, but not in its line.
use moros.Prelude.{
  ℕ, zero, suc, ◌+◌, ◌-◌, ◌*◌, ◌≤◌, ◌<◌, min, ◌≡◌, refl, inl, inr, true, arith, length, ltb, leb,
  ◌==◌, Bool-cases,
}
use moros.Run.{Returns}
use moros.Editor.{Editor, column, row, with_x, with_y}
use moros.Editor.Keys.{
  row_up, arrow_up, arrow_down, line_down, arrow_left, arrow_right, top_of_file, bottom_of_file,
  start_of_line, end_of_line,
}
use moros.Editor.Valid.{
  line_at, IsPlaced, IsShown, IsValid, index-line_at, home-IsValid, to_column-IsValid,
  align_cursor-IsValid,
}

pub row_up-IsPlaced : (rows : ℕ) (e : Editor) → IsPlaced rows e → IsPlaced rows (row_up e)
row_up-IsPlaced rows e v = elim (Bool-cases (ltb 0 e.cursor.y)) [
  | inl h ↦
      rw h (record { row_in = omega (arith, v.row_in); row_shown = omega (arith, v.row_shown) })
  | inr h ↦ rw h elim (Bool-cases (ltb 0 e.offset.y)) [
    | inl k ↦ rw k (record { row_in = omega (arith, v.row_in); row_shown = v.row_shown })
    | inr k ↦ rw k v
  ]
]

row_up-IsShown : (cols : ℕ) (e : Editor) → IsShown cols e → IsShown cols (row_up e)
row_up-IsShown cols e v = elim (Bool-cases (ltb 0 e.cursor.y)) [
  | inl h ↦ rw h (record { column_shown = v.column_shown; screens = v.screens })
  | inr h ↦ rw h elim (Bool-cases (ltb 0 e.offset.y)) [
    | inl k ↦ rw k (record { column_shown = v.column_shown; screens = v.screens })
    | inr k ↦ rw k v
  ]
]

-- A screen that was moved can be moved back by its width.
pub one_screen_left :
    (cols x k : ℕ) → x ≡ k * cols → 0 < x → (j : ℕ) × (cols ≤ x) × (x - cols ≡ j * cols)
one_screen_left cols x zero h some_x = absurd (grind arith)
one_screen_left cols x (suc k) h some_x = (k, grind arith, grind arith)

module _ (rows cols : ℕ) (some_row : 0 < rows) (some_column : 0 < cols) where
  pub arrow_up-IsValid :
      (e : Editor) → IsValid rows cols e → Returns (IsValid rows cols) (arrow_up cols e)
  unfolding arrow_up
  arrow_up-IsValid e v =
      align_cursor-IsValid rows cols some_column (row_up e) (row_up-IsPlaced rows e v.placed)
        (row_up-IsShown cols e v.sideways)

  line_down_lem :
      (n : ℕ) (e : Editor)
      → length e.lines ≡ n + 1
      → IsValid rows cols e
      → IsPlaced rows (line_down rows n e) × IsShown cols (line_down rows n e)
  line_down_lem n e h v = elim (Bool-cases (e.cursor.y == rows - 1)) [
    | inl bottom ↦ rw bottom elim (Bool-cases (n == row e)) [
      | inl eof ↦ rw eof (v.placed, v.sideways)
      | inr more ↦ rw more (
        record { row_in = ground (arith, v.placed.row_in); row_shown = v.placed.row_shown },
        record { column_shown = v.sideways.column_shown; screens = v.sideways.screens },
      )
    ]
    | inr above ↦ rw above elim (Bool-cases (n == row e)) [
      | inl eof ↦ rw eof (v.placed, v.sideways)
      | inr more ↦ rw more (
        record {
          row_in = ground (arith, v.placed.row_in);
          row_shown = ground (arith, v.placed.row_shown);
        },
        record { column_shown = v.sideways.column_shown; screens = v.sideways.screens },
      )
    ]
  ]

  pub arrow_down-IsValid :
      (e : Editor) → IsValid rows cols e → Returns (IsValid rows cols) (arrow_down rows cols e)
  unfolding arrow_down
  arrow_down-IsValid e v =
      let some_line : leb 1 (length e.lines) ≡ true = ground (arith, v.placed.row_in) in
      let n = length e.lines - 1 in
      rw some_line elim (Bool-cases (ltb e.cursor.y (min rows n))) [
        | inl h ↦
            let (p, s) = line_down_lem n e (omega (arith, v.placed.row_in)) v in
            rw h (align_cursor-IsValid rows cols some_column (line_down rows n e) p s)
        | inr h ↦ rw h (e, refl, v)
      ]

  pub arrow_right-IsValid :
      (e : Editor) → IsValid rows cols e → Returns (IsValid rows cols) (arrow_right cols e)
  unfolding arrow_right
  arrow_right-IsValid e v =
      let (k, at) = v.sideways.screens in
      rw (index-line_at e v.placed.row_in) elim (Bool-cases (leb (length (line_at e)) (column e))) [
        | inl h ↦ rw h (e, refl, v)
        | inr h ↦ rw h elim (Bool-cases (e.cursor.x == cols - 1)) [
          | inl edge ↦ rw edge (
            _,
            refl,
            record {
              placed = record { row_in = v.placed.row_in; row_shown = v.placed.row_shown };
              sideways = record { column_shown = ground arith; screens = (suc k, grind arith) };
              column_in = ground arith;
            },
          )
          | inr inside ↦ rw inside (
            _,
            refl,
            record {
              placed = record { row_in = v.placed.row_in; row_shown = v.placed.row_shown };
              sideways = record {
                column_shown = ground (arith, v.sideways.column_shown);
                screens = (k, at);
              };
              column_in = ground arith;
            },
          )
        ]
      ]

  pub arrow_left-IsValid :
      (e : Editor) → IsValid rows cols e → Returns (IsValid rows cols) (arrow_left cols e)
  unfolding arrow_left
  arrow_left-IsValid e v = elim (Bool-cases (column e == 0)) [
    | inl h ↦ rw h (e, refl, v)
    | inr h ↦ rw h elim (Bool-cases (e.cursor.x == 0)) [
      | inl edge ↦
          let (k, at) = v.sideways.screens in
          let (j, fits, before) = one_screen_left cols _ k at (ground arith) in
          let room : leb cols e.offset.x ≡ true = ground arith in
          rw (edge, room)
            (align_cursor-IsValid rows cols some_column
              (with_x (e.offset.x - cols) (e.cursor.x + (cols - 1)) e)
              (record { row_in = v.placed.row_in; row_shown = v.placed.row_shown })
              (record { column_shown = ground arith; screens = (j, before) }))
      | inr inside ↦ rw inside (
        _,
        refl,
        record {
          placed = record { row_in = v.placed.row_in; row_shown = v.placed.row_shown };
          sideways = record {
            column_shown = omega (arith, v.sideways.column_shown);
            screens = v.sideways.screens;
          };
          column_in = omega (arith, v.column_in);
        },
      )
    ]
  ]

  pub top_of_file-IsValid :
      (e : Editor) → IsValid rows cols e → Returns (IsValid rows cols) (top_of_file e)
  unfolding top_of_file
  top_of_file-IsValid e v = (
    _,
    refl,
    home-IsValid rows cols some_column (with_y 0 0 e)
        (record { row_in = omega (arith, v.placed.row_in); row_shown = some_row }),
  )

  pub bottom_of_file-IsValid :
      (e : Editor) → IsValid rows cols e → Returns (IsValid rows cols) (bottom_of_file rows e)
  unfolding bottom_of_file
  bottom_of_file-IsValid e v =
      let y = min rows (length e.lines) - 1 in
      let some_line : leb 1 (min rows (length e.lines)) ≡ true = ground (arith, v.placed.row_in) in
      let fits : leb (1 + y) (length e.lines) ≡ true = ground (arith, v.placed.row_in) in
      rw (some_line, fits)
        (
          _,
          refl,
          home-IsValid rows cols some_column (with_y (length e.lines - (1 + y)) y e)
              (record { row_in = omega (arith, v.placed.row_in); row_shown = omega arith }),
        )

  pub start_of_line-IsValid :
      (e : Editor) → IsValid rows cols e → Returns (IsValid rows cols) (start_of_line e)
  unfolding start_of_line
  start_of_line-IsValid e v = (_, refl, home-IsValid rows cols some_column e v.placed)

  pub end_of_line-IsValid :
      (e : Editor) → IsValid rows cols e → Returns (IsValid rows cols) (end_of_line cols e)
  unfolding end_of_line
  end_of_line-IsValid e v =
      rw (index-line_at e v.placed.row_in)
        (_, refl, to_column-IsValid rows cols some_column e _ v.placed (omega arith))
