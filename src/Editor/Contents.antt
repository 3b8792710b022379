-- ===== src/Editor/Contents.antt =====
-- The keys of src/usr/editor.rs that change the lines keep them lines.
use moros.Prelude.{
  ℕ, ◌+◌, ◌-◌, ◌<◌, ◌≤◌, ◌≢◌, inl, inr, Bool, some, List, [], ◌∷◌, ◌++◌, arith, length, set,
  replicate, leb, ltb, ltb→lt, ◌==◌, if◌then◌else◌, Bool-cases, All-append, All-take, All-drop,
  All-set, All-insert_at, All-erase_idx, insert_at, erase_idx, length-insert_at, length-erase_idx,
  length-set,
}
use moros.Run.{
  Run, ok, panic, ◌>>=◌, index, vec_insert, vec_remove, Ensures, Ensures-bind, Ensures-if,
  Ensures-index, Ensures-insert, Ensures-remove,
}
use moros.Editor.{Text, Editor, new_line, column, row, with_x, home, to_column}
use moros.Editor.Lines.{IsLine, AreLines}
use moros.Editor.Keys.{
  row_up, row_down, split_off, halves, newline, or_empty_line, after_cut, cut_line, copy_line,
  paste, paste_line, remove_before, join_before, backspace, string_remove, join_after, delete,
  tab_size, render_char, insert_all, after_insert, put_text, put_char,
}
use moros.Editor.Clean.{
  IsClean, IsClean-if, with_x-IsClean, row_up-IsClean, row_down-IsClean, minus-IsClean,
}

-- The same editor with other lines.
with_lines :
    (e : Editor) (ls : List Text)
    → IsClean e
    → AreLines ls
    → 0 < length ls
    → IsClean (record e { lines = ls })
with_lines e ls h lines some_line = record {
  lines = lines;
  clipboard = h.clipboard;
  some_line = some_line;
}

set_line :
    (e : Editor) (i : ℕ) (t : Text)
    → IsClean e
    → IsLine t
    → IsClean (record e { lines = set e.lines i t })
set_line e i t h line =
    with_lines e (set e.lines i t) h (All-set IsLine e.lines i t h.lines line)
      (omega (arith, length-set e.lines i t, h.some_line))

-- What follows the read of a line.
index-IsClean :
    (e : Editor) (i : ℕ) (f : Text → Run Editor)
    → IsClean e
    → ((t : Text) → IsLine t → Ensures IsClean (f t))
    → Ensures IsClean (index e.lines i >>= f)
index-IsClean e i f h k =
    Ensures-bind IsLine IsClean (index e.lines i) f (Ensures-index IsLine e.lines i h.lines) k

-- What follows the insertion of a line.
insert-IsClean :
    (e : Editor) (i : ℕ) (t : Text) (f : List Text → Run Editor)
    → IsClean e
    → IsLine t
    → ((ls : List Text) → AreLines ls → 0 < length ls → Ensures IsClean (f ls))
    → Ensures IsClean (vec_insert e.lines i t >>= f)
insert-IsClean e i t f h line k = elim (Bool-cases (leb i (length e.lines))) [
  | inl inside ↦ rw inside (
      k (insert_at e.lines i t) (All-insert_at IsLine e.lines i t h.lines line)
        (omega (arith, length-insert_at e.lines i t)))
  | inr outside ↦ rw outside tt
]

-- What follows the removal of a line.
remove-IsClean :
    (e : Editor) (i : ℕ) (f : List Text → Run Editor)
    → IsClean e
    → ((ls : List Text) → AreLines ls → i ≤ length ls → Ensures IsClean (f ls))
    → Ensures IsClean (vec_remove e.lines i >>= f)
remove-IsClean e i f h k = elim (Bool-cases (ltb i (length e.lines))) [
  | inl inside ↦ rw inside (
      k (erase_idx e.lines i) (All-erase_idx IsLine e.lines i h.lines)
        (omega (arith, length-erase_idx e.lines i (ltb→lt _ _ inside), ltb→lt _ _ inside)))
  | inr outside ↦ rw outside tt
]

split_off-IsLine :
    (t : Text) (i : ℕ)
    → IsLine t
    → Ensures (λ (parts : Text × Text). IsLine parts.0 × IsLine parts.1) (split_off t i)
split_off-IsLine t i h = elim (Bool-cases (leb i (length t))) [
  | inl inside ↦
      rw inside (All-take (λ (c : ℕ). c ≢ new_line) i t h, All-drop (λ (c : ℕ). c ≢ new_line) i t h)
  | inr outside ↦ rw outside tt
]

join-IsLine : (s t : Text) → IsLine s → IsLine t → IsLine (s ++ t)
join-IsLine s t = All-append (λ (c : ℕ). c ≢ new_line) s t

string_remove-IsLine : (t : Text) (i : ℕ) → IsLine t → Ensures IsLine (string_remove t i)
unfolding string_remove
string_remove-IsLine [] i h = tt
string_remove-IsLine (c ∷ cs) i h = Ensures-if IsLine (i == 0) (ok cs) _ h.1 (
    Ensures-if IsLine (ltb i (moros.Editor.Keys.len_utf8 c)) panic _ tt (
      Ensures-bind IsLine IsLine _ (λ x. ok (c ∷ x))
        (string_remove-IsLine cs (i - moros.Editor.Keys.len_utf8 c) h.1) (λ t k. (h.0, k))))

insert_all-IsLine :
    (offset : ℕ) (s t : Text) (x : ℕ)
    → IsLine s
    → IsLine t
    → Ensures (λ (r : Text × ℕ). IsLine r.0) (insert_all offset s t x)
unfolding insert_all
insert_all-IsLine offset [] t x hs ht = ht
insert_all-IsLine offset (c ∷ cs) t x hs ht =
    Ensures-bind IsLine (λ (r : Text × ℕ). IsLine r.0) (vec_insert t (offset + x) c) _
      (Ensures-insert (λ (c : ℕ). c ≢ new_line) t (offset + x) c ht hs.0)
      (λ longer h. insert_all-IsLine offset cs longer (x + 1) hs.1 h)

or_empty_line-AreLines :
    (ls : List Text) → AreLines ls → AreLines (or_empty_line ls) × (0 < length (or_empty_line ls))
or_empty_line-AreLines [] h = ((tt, tt), omega arith)
or_empty_line-AreLines (l ∷ ls) h = (h, omega arith)

space : ◌≢◌ {A = ℕ} b' ' new_line
space e = omega arith

module _ (rows cols : ℕ) where
  pub newline-IsClean : (e : Editor) → IsClean e → Ensures IsClean (newline rows e)
  unfolding newline
  newline-IsClean e h = index-IsClean e (row e) _ h λ old_line hl.
      Ensures-bind (λ (parts : Text × Text). IsLine parts.0 × IsLine parts.1) IsClean
        (split_off old_line (column e)) (halves rows e) (split_off-IsLine old_line (column e) hl)
        λ (before, after) k.
          insert-IsClean (record e { lines = set e.lines (row e) before }) (row e + 1) after _
            (set_line e (row e) before h k.0) k.1
            (λ ls lines some_line.
              with_x-IsClean 0 0 (row_down rows (record e { lines = ls })) (
                row_down-IsClean rows (record e { lines = ls })
                  (with_lines e ls h lines some_line)))

  after_cut-IsClean :
      (i : ℕ) (ls : List Text) (e : Editor)
      → IsClean (record e { lines = ls })
      → IsClean (after_cut i ls e)
  after_cut-IsClean i ls e h =
      IsClean-if _ _ _
        (with_x-IsClean 0 0 (row_up (record e { lines = ls }))
          (row_up-IsClean (record e { lines = ls }) h))
        (with_x-IsClean 0 0 (record e { lines = ls }) h)

  pub cut_line-IsClean : (e : Editor) → IsClean e → Ensures IsClean (cut_line e)
  unfolding cut_line
  cut_line-IsClean e h = index-IsClean e (row e) _ h λ line hl.
      remove-IsClean e (row e) _ h λ ls lines _.
        let (all, some_line) = or_empty_line-AreLines ls lines in
        after_cut-IsClean (row e) (or_empty_line ls) (record e { clipboard = line ∷ e.clipboard })
          (record { lines = all; clipboard = (hl, h.clipboard); some_line = some_line })

  pub copy_line-IsClean : (e : Editor) → IsClean e → Ensures IsClean (copy_line e)
  unfolding copy_line
  copy_line-IsClean e h =
      index-IsClean e (row e) _ h λ line hl. record {
        lines = h.lines;
        clipboard = (hl, h.clipboard);
        some_line = h.some_line;
      }

  paste-IsClean :
      (clipboard : List Text) (e : Editor)
      → IsClean e
      → AreLines clipboard
      → Ensures IsClean (paste clipboard e)
  paste-IsClean [] e h k = with_x-IsClean 0 0 e h
  paste-IsClean (line ∷ clipboard) e h k =
      insert-IsClean e (row e + 1) line _ h k.0
        λ ls lines some_line. record { lines = lines; clipboard = k.1; some_line = some_line }

  pub paste_line-IsClean : (e : Editor) → IsClean e → Ensures IsClean (paste_line e)
  unfolding paste_line
  paste_line-IsClean e h = paste-IsClean e.clipboard e h h.clipboard

  remove_before-IsClean : (e : Editor) → IsClean e → Ensures IsClean (remove_before cols e)
  remove_before-IsClean e h = index-IsClean e (row e) _ h λ line hl.
      Ensures-bind IsLine IsClean (vec_remove line (column e - 1)) _
        (Ensures-remove (λ (c : ℕ). c ≢ new_line) line (column e - 1) hl)
        λ shorter k.
          let c = set_line e (row e) shorter h k in
          Ensures-if IsClean (e.cursor.x == 0) _
            (ok (
              with_x e.offset.x (e.cursor.x - 1)
                (record e { lines = set e.lines (row e) shorter })))
            (minus-IsClean e.offset.x cols
              (λ x. ok (with_x x (cols - 1) (record e { lines = set e.lines (row e) shorter })))
              (λ x.
                with_x-IsClean x (cols - 1) (record e { lines = set e.lines (row e) shorter }) c))
            (with_x-IsClean e.offset.x (e.cursor.x - 1)
              (record e { lines = set e.lines (row e) shorter }) c)

  join_before-IsClean : (e : Editor) → IsClean e → 0 < row e → Ensures IsClean (join_before cols e)
  join_before-IsClean e h below = index-IsClean e (row e - 1) _ h λ previous hp.
      index-IsClean e (row e) _ h λ line hl. remove-IsClean e (row e) _ h λ ls lines le.
        let joined = set ls (row e - 1) (previous ++ line) in
        let e' = record e { lines = joined } in
        row_up-IsClean (to_column cols (length previous) e') (
          with_x-IsClean _ _ e' (
            with_lines e joined h
              (All-set IsLine ls (row e - 1) (previous ++ line) lines
                (join-IsLine previous line hp hl))
              (omega (arith, length-set ls (row e - 1) (previous ++ line)))))

  pub backspace-IsClean : (e : Editor) → IsClean e → Ensures IsClean (backspace cols e)
  unfolding backspace
  backspace-IsClean e h =
      Ensures-if IsClean (ltb 0 (column e)) _ _ (remove_before-IsClean e h)
        (elim (Bool-cases (row e == 0)) [
          | inl first ↦ rw first h
          | inr below ↦ rw below (join_before-IsClean e h (ground arith))
        ])

  join_after-IsClean :
      (e : Editor) (line : Text) → IsClean e → IsLine line → Ensures IsClean (join_after e line)
  unfolding join_after
  join_after-IsClean e line h hl = index-IsClean e (row e + 1) _ h λ next hn.
      remove-IsClean e (row e + 1) _ h λ ls lines le.
        with_lines e (set ls (row e) (line ++ next)) h
          (All-set IsLine ls (row e) (line ++ next) lines (join-IsLine line next hl hn))
          (omega (arith, length-set ls (row e) (line ++ next)))

  pub delete-IsClean : (e : Editor) → IsClean e → Ensures IsClean (delete e)
  unfolding delete
  delete-IsClean e h = index-IsClean e (row e) _ h λ line hl.
      Ensures-if IsClean (leb (length line) (column e))
        (if ltb (row e + 1) (length e.lines) then join_after e line else ok e) _
        (Ensures-if IsClean (ltb (row e + 1) (length e.lines)) _ (ok e)
          (join_after-IsClean e line h hl) h)
        (Ensures-bind IsLine IsClean _
          (λ x. ok record {
            clipboard = e.clipboard;
            lines = set e.lines (row e) x;
            cursor = e.cursor;
            offset = e.offset;
          })
          (string_remove-IsLine line (column e) hl) (λ shorter k. set_line e (row e) shorter h k))

  put_text-IsClean :
      (e : Editor) (s : Text) → IsClean e → IsLine s → Ensures IsClean (put_text cols (some s) e)
  put_text-IsClean e s h hs = index-IsClean e (row e) _ h λ line hl.
      Ensures-bind (λ (r : Text × ℕ). IsLine r.0) IsClean (insert_all e.offset.x s line e.cursor.x)
        _ (insert_all-IsLine e.offset.x s line e.cursor.x hs hl)
        λ (longer, x) k.
          let c = set_line e (row e) longer h k in
          let e' = record e { lines = set e.lines (row e) longer } in
          IsClean-if _ _ _ (with_x-IsClean _ _ e' c) (with_x-IsClean _ _ e' c)

  pub put_char-IsClean :
      (is_printable : ℕ → Bool) (c : ℕ) (e : Editor)
      → c ≢ new_line
      → IsClean e
      → Ensures IsClean (put_char is_printable cols c e)
  unfolding put_char
  put_char-IsClean is_printable c e ne h = elim (Bool-cases (c == b'\t')) [
    | inl tab ↦
        rw tab
          (put_text-IsClean e (replicate tab_size b' ') h (space, (space, (space, (space, tt)))))
    | inr other ↦ rw other elim (Bool-cases (is_printable c)) [
      | inl shown ↦ rw shown (put_text-IsClean e (c ∷ []) h (ne, tt))
      | inr hidden ↦ rw hidden h
    ]
  ]
