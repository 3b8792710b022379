-- ===== src/Editor/Typing.antt =====
-- Typing and the delete key of src/usr/editor.rs. The delete key counts bytes where the cursor
-- counts characters, so it keeps the editor valid on lines of ASCII only.
use moros.Prelude.{
  ℕ, zero, suc, ◌+◌, ◌-◌, ◌≤◌, ◌<◌, ◌≡◌, refl, ap, inl, inr, Bool, true, false, some, [], ◌∷◌, ◌++◌,
  arith, length, length-append, length-set, get_or, get_elem?, get_elem?-lt, get_or-set_self,
  insert_at, erase_idx, length-insert_at, length-erase_idx, replicate, ltb, ltb→lt, leb, leb→le,
  ◌==◌, Bool-cases,
}
use moros.Run.{ok, panic, Returns}
use moros.Editor.{Text, Editor, column, row}
use moros.Editor.Keys.{
  insert_all, put_text, put_char, tab_size, len_utf8, string_remove, join_after, delete,
}
use moros.Editor.Valid.{line_at, IsValid, index-line_at}
use moros.Editor.Edits.{edit_line-IsValid}

-- The text and the column after the characters were put in one by one.
insert_all_lem :
    (offset : ℕ) (s line : Text) (x : ℕ)
    → offset + x ≤ length line
    → (longer : Text) × (insert_all offset s line x ≡ ok (longer, x + length s))
      × (length longer ≡ length line + length s)
unfolding insert_all
insert_all_lem offset [] line x h =
    (line, ap (λ n. ok (line, n)) (let e : x ≡ x + 0 = omega arith in e), omega arith)
insert_all_lem offset (c ∷ cs) line x h =
    let inside : leb (offset + x) (length line) ≡ true = ground arith in
    let n = length-insert_at line (offset + x) c in
    let (longer, e, m) =
      insert_all_lem offset cs (insert_at line (offset + x) c) (x + 1) (omega (arith, n)) in
    (
      longer,
      rw (inside, e)
          (ap (λ k. ok (longer, k))
            (let e : x + 1 + length cs ≡ x + suc (length cs) = omega arith in e)),
      omega (arith, m, n),
    )

module _ (rows cols : ℕ) where
  put_text-IsValid :
      (s : Text) (e : Editor)
      → length s ≤ cols
      → IsValid rows cols e
      → Returns (IsValid rows cols) (put_text cols (some s) e)
  put_text-IsValid s e wide v =
      let (longer, put, n) = insert_all_lem e.offset.x s (line_at e) e.cursor.x v.column_in in
      let x = e.cursor.x + length s in
      let (k, screens) = v.sideways.screens in
      let le = v.column_in in
      rw (index-line_at e v.placed.row_in, put)
        elim (Bool-cases (leb cols x)) [
          | inl wraps ↦ rw wraps (
            _,
            refl,
            edit_line-IsValid rows cols (omega (arith, v.sideways.column_shown)) e
                (e.offset.x + cols) (x - cols) longer v.placed
                (omega (arith, v.sideways.column_shown, leb→le _ _ wraps)) (suc k) (grind arith)
                (omega (arith, n, le, leb→le _ _ wraps)),
          )
          | inr fits ↦ rw fits (
            _,
            refl,
            edit_line-IsValid rows cols (omega (arith, v.sideways.column_shown)) e e.offset.x x
                longer v.placed (ground arith) k screens (omega (arith, n, le)),
          )
        ]

  pub put_char-IsValid :
      (is_printable : ℕ → Bool) (c : ℕ) (e : Editor)
      → tab_size ≤ cols
      → IsValid rows cols e
      → Returns (IsValid rows cols) (put_char is_printable cols c e)
  unfolding put_char
  put_char-IsValid is_printable c e wide v = elim (Bool-cases (c == b'\t')) [
    | inl tab ↦ rw tab (put_text-IsValid (replicate tab_size b' ') e wide v)
    | inr other ↦ rw other elim (Bool-cases (is_printable c)) [
      | inl shown ↦ rw shown (put_text-IsValid (c ∷ []) e (omega arith) v)
      | inr hidden ↦ rw hidden (e, refl, v)
    ]
  ]

abbrev pub IsAscii : Text → Type 0
IsAscii [] = Unit {0}
IsAscii (c ∷ cs) = (c < 0x80) × IsAscii cs

-- On a text of ASCII a byte is a character.
string_remove-IsAscii :
    (t : Text) (i : ℕ) → IsAscii t → i < length t → string_remove t i ≡ ok (erase_idx t i)
unfolding string_remove
string_remove-IsAscii [] i a h = absurd (omega arith)
string_remove-IsAscii (c ∷ cs) zero a h = refl
string_remove-IsAscii (c ∷ cs) (suc i) a h =
    let one : ltb c 0x80 ≡ true = ground (arith, a.0) in
    let inside : ltb (suc i) 1 ≡ false = ground arith in
    let rest = string_remove-IsAscii cs i a.1 (omega arith) in
    let back : suc i - 1 ≡ i = omega arith in
    let later : (suc i == 0) ≡ false = ground arith in rw (later, one, inside, back, rest)

module _ (rows cols : ℕ) where
  join_after-IsValid :
      (e : Editor)
      → IsValid rows cols e
      → row e + 1 < length e.lines
      → Returns (IsValid rows cols) (join_after e (line_at e))
  unfolding join_after
  join_after-IsValid e v below =
      let next = get_or e.lines (row e + 1) [] in
      let inside : ltb (row e + 1) (length e.lines) ≡ true = ground arith in
      let shorter = erase_idx e.lines (row e + 1) in
      let n = length-erase_idx e.lines (row e + 1) below in
      let joined = line_at e ++ next in
      rw (get_elem?-lt e.lines (row e + 1) [] below, inside)
        (
          _,
          refl,
          record {
            placed = record {
              row_in = omega (arith, n, below, length-set shorter (row e) joined);
              row_shown = v.placed.row_shown;
            };
            sideways = record {
              column_shown = v.sideways.column_shown;
              screens = v.sideways.screens;
            };
            column_in =
                rw (get_or-set_self shorter (row e) joined [] (omega (arith, n, below)))
                  (omega (arith, v.column_in, length-append (line_at e) next));
          },
        )

  pub delete-IsValid :
      (e : Editor)
      → IsAscii (line_at e)
      → IsValid rows cols e
      → Returns (IsValid rows cols) (delete e)
  unfolding delete
  delete-IsValid e ascii v =
      rw (index-line_at e v.placed.row_in) elim (Bool-cases (leb (length (line_at e)) (column e))) [
        | inl end ↦ rw end elim (Bool-cases (ltb (row e + 1) (length e.lines))) [
          | inl more ↦ rw more (join_after-IsValid e v (ltb→lt _ _ more))
          | inr last ↦ rw last (e, refl, v)
        ]
        | inr inner ↦
            let lt : column e < length (line_at e) = ground arith in
            let n = length-erase_idx (line_at e) (column e) lt in
            let (k, screens) = v.sideways.screens in
            rw (inner, string_remove-IsAscii (line_at e) (column e) ascii lt)
              (
                _,
                refl,
                edit_line-IsValid rows cols (omega (arith, v.sideways.column_shown)) e e.offset.x
                    e.cursor.x (erase_idx (line_at e) (column e)) v.placed v.sideways.column_shown k
                    screens (omega (arith, n, lt)),
              )
      ]

len_utf8_wide : (c : ℕ) → 0x80 ≤ c → ltb 1 (len_utf8 c) ≡ true
unfolding len_utf8
len_utf8_wide c h = ground arith

-- With the cursor behind the first character of a line, where that character has several bytes in
-- UTF-8 and another follows, the delete key panics.
pub delete-wide :
    (e : Editor) (c d : ℕ) (cs : Text)
    → get_elem? e.lines (row e) ≡ some (c ∷ d ∷ cs)
    → column e ≡ 1
    → 0x80 ≤ c
    → delete e ≡ panic
unfolding delete string_remove
delete-wide e c d cs line at wide =
    let more : leb (suc (suc (length cs))) 1 ≡ false = ground arith in
    let inside : ltb 1 (len_utf8 c) ≡ true = len_utf8_wide c wide in rw (line, at, more) (rw inside)
