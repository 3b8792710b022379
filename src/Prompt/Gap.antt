-- ===== src/Prompt/Gap.antt =====
-- What the prompt of src/api/prompt.rs promises: a line with a gap, in which the keys type, move
-- and remove.
use mathlib.Core.List.{reverse, reverse-cons, foldl}
use moros.Prelude.{
  ℕ, suc, ◌+◌, ◌-◌, ◌≡◌, refl, ◌∙◌, ap, Bool, true, false, none, List, [], ◌∷◌, ◌++◌, map, arith,
  append_assoc, length, length-append, ltb, leb, ◌==◌, insert_at, erase_idx,
}
use moros.Run.{ok, ◌>>=◌}
use moros.Prompt.{Text, Prompt, recall, complete, update_history, update_completion}
use moros.Prompt.Keys.{
  settle, go_forward, go_backward, remove_char, remove_before, insert_char, Action, execute, print,
  csi_dispatch, perform, perform_all, handle_forward_key, handle_backward_key, handle_delete_key,
  handle_backspace_key, handle_printable_key, delete_params,
}

-- The text before the gap, from the gap leftwards, and the text behind it.
abbrev pub Gap : Type 0
Gap = Text × Text

pub data Key : Type 0 where
  typed : ℕ → Key
  left right delete backspace : Key

abbrev pub press : Gap → Key → Gap
press (l, r) (typed c) = (c ∷ l, r)
press (c ∷ l, r) left = (l, c ∷ r)
press ([], r) left = ([], r)
press (l, c ∷ r) right = (c ∷ l, r)
press (l, []) right = (l, [])
press (l, c ∷ r) delete = (l, r)
press (l, []) delete = (l, [])
press (c ∷ l, r) backspace = (l, r)
press ([], r) backspace = ([], r)

-- The call of the parser for each key.
abbrev pub action : Key → Action
action (typed c) = print c
action left = csi_dispatch (0 ∷ []) b'D'
action right = csi_dispatch (0 ∷ []) b'C'
action delete = csi_dispatch (3 ∷ []) b'~'
action backspace = execute 0x08

abbrev placed_at : Prompt → ℕ → Text → Prompt
placed_at p cursor line = record p { cursor = cursor; line = line }

-- A prompt whose line has the gap at the cursor.
abbrev pub placed : Prompt → Gap → Prompt
placed p (l, r) = placed_at p (p.offset + length l) (reverse l ++ r)

pub record IsIdle (p : Prompt) : Type 0 where
  pub free : p.completion.pos ≡ none
  pub unrecalled : p.history.pos ≡ none

length-reverse : (xs : Text) → length (reverse xs) ≡ length xs
length-reverse [] = refl
length-reverse (x ∷ xs) =
    ap length (reverse-cons x xs)
    ∙ omega (arith, length-append (reverse xs) (x ∷ []), length-reverse xs)

insert_at-length : (xs ys : Text) (c : ℕ) → insert_at (xs ++ ys) (length xs) c ≡ xs ++ c ∷ ys
insert_at-length [] ys c = refl
insert_at-length (x ∷ xs) ys c = ap (x ∷◌) (insert_at-length xs ys c)

erase_idx-length : (xs ys : Text) (c : ℕ) → erase_idx (xs ++ c ∷ ys) (length xs) ≡ xs ++ ys
erase_idx-length [] ys c = refl
erase_idx-length (x ∷ xs) ys c = ap (x ∷◌) (erase_idx-length xs ys c)

-- A character may stand on either side of the gap.
reverse-shift : (c : ℕ) (l r : Text) → reverse (c ∷ l) ++ r ≡ reverse l ++ c ∷ r
reverse-shift c l r = ap (λ t. t ++ r) (reverse-cons c l) ∙ append_assoc (reverse l) (c ∷ []) r

settle-idle : (p : Prompt) → IsIdle p → settle p ≡ ok p
unfolding settle update_completion update_history
settle-idle p h =
    ap (λ pos. complete p pos >>= λ q. recall q q.history.pos) h.free ∙ ap (recall p) h.unrecalled

module _ (p : Prompt) (l r : Text) where
  index_of_gap : p.offset + length l - p.offset ≡ length (reverse l)
  index_of_gap = omega (arith, length-reverse l)

  not_before : leb p.offset (p.offset + length l) ≡ true
  not_before = ground arith

  insert_lem :
      (is_printable : ℕ → Bool) (c : ℕ)
      → is_printable c ≡ true
      → insert_char is_printable c (placed p (l, r)) ≡ ok (placed p (c ∷ l, r))
  insert_lem is_printable c h =
      let bound : leb (length (reverse l)) (length (reverse l ++ r)) ≡ true =
        ground (arith, length-append (reverse l) r) in
      rw (h, not_before, index_of_gap, bound, insert_at-length (reverse l) r c, reverse-shift c l r)
        (ap (λ n. ok (placed_at p n (reverse l ++ c ∷ r)))
          (let e : p.offset + length l + 1 ≡ p.offset + suc (length l) = omega arith in e))

  right_lem : (c : ℕ) → go_forward (placed p (l, c ∷ r)) ≡ ok (placed p (c ∷ l, r))
  right_lem c =
      let bound : ltb (p.offset + length l) (p.offset + length (reverse l ++ c ∷ r)) ≡ true =
        ground (arith, length-append (reverse l) (c ∷ r), length-reverse l) in
      rw (bound, reverse-shift c l r)
        (ap (λ n. ok (placed_at p n (reverse l ++ c ∷ r)))
          (let e : p.offset + length l + 1 ≡ p.offset + suc (length l) = omega arith in e))

  left_lem : (c : ℕ) → go_backward (placed p (c ∷ l, r)) ≡ ok (placed p (l, c ∷ r))
  left_lem c =
      let bound : ltb p.offset (p.offset + suc (length l)) ≡ true = ground arith in
      rw (bound, reverse-shift c l r)
        (ap (λ n. ok (placed_at p n (reverse l ++ c ∷ r)))
          (let e : p.offset + suc (length l) - 1 ≡ p.offset + length l = omega arith in e))

  delete_lem : (c : ℕ) → remove_char (placed p (l, c ∷ r)) ≡ ok (placed p (l, r))
  delete_lem c =
      let n = length-append (reverse l) (c ∷ r) in
      let bound : ltb (p.offset + length l) (p.offset + length (reverse l ++ c ∷ r)) ≡ true =
        ground (arith, n, length-reverse l) in
      let inside : ltb (length (reverse l)) (length (reverse l ++ c ∷ r)) ≡ true =
        ground (arith, n) in
      rw (bound, not_before, index_of_gap, inside, erase_idx-length (reverse l) r c)

  backspace_lem : (c : ℕ) → remove_before (placed p (c ∷ l, r)) ≡ ok (placed p (l, r))
  backspace_lem c =
      let bound : ltb p.offset (p.offset + suc (length l)) ≡ true = ground arith in
      let inside : ltb (length (reverse l)) (length (reverse l ++ c ∷ r)) ≡ true =
        ground (arith, length-append (reverse l) (c ∷ r)) in
      let i : p.offset + suc (length l) - p.offset - 1 ≡ length (reverse l) =
        omega (arith, length-reverse l) in
      rw (bound, i, reverse-shift c l r, inside, erase_idx-length (reverse l) r c)
        (ap (λ n. ok (placed_at p n (reverse l ++ r)))
          (let e : p.offset + suc (length l) - 1 ≡ p.offset + length l = omega arith in e))

-- At an end of the line, a key that looks beyond it changes nothing.
module _ (p : Prompt) (l : Text) where
  no_text_after : ltb (p.offset + length l) (p.offset + length (reverse l ++ [])) ≡ false
  no_text_after = ground (arith, length-append (reverse l) [], length-reverse l)

  right_at_end : go_forward (placed p (l, [])) ≡ ok (placed p (l, []))
  right_at_end = rw no_text_after

  delete_at_end : remove_char (placed p (l, [])) ≡ ok (placed p (l, []))
  delete_at_end = rw no_text_after

module _ (p : Prompt) (r : Text) where
  no_text_before : ltb p.offset (p.offset + 0) ≡ false
  no_text_before = ground arith

  left_at_start : go_backward (placed p ([], r)) ≡ ok (placed p ([], r))
  left_at_start = rw no_text_before

  backspace_at_start : remove_before (placed p ([], r)) ≡ ok (placed p ([], r))
  backspace_at_start = rw no_text_before

-- The characters that the key of a typed one may be: those that the screen can show, and not the
-- code of the delete key.
abbrev pub CanType : (ℕ → Bool) → Key → Type 0
CanType is_printable (typed c) = (is_printable c ≡ true) × ((c == 0x7f) ≡ false)
CanType is_printable _ = Unit {0}

abbrev pub AllCanType : (ℕ → Bool) → List Key → Type 0
AllCanType is_printable [] = Unit {0}
AllCanType is_printable (k ∷ ks) = CanType is_printable k × AllCanType is_printable ks

placed-settle : (p : Prompt) (z : Gap) → IsIdle p → settle (placed p z) ≡ ok (placed p z)
placed-settle p (l, r) h =
    settle-idle (placed p (l, r)) (record { free = h.free; unrecalled = h.unrecalled })

module _ (is_printable : ℕ → Bool) (p : Prompt) (idle : IsIdle p) where
  -- A key of the line is handled in a prompt at rest.
  perform-press :
      (z : Gap) (k : Key)
      → CanType is_printable k
      → perform is_printable (action k) (placed p z) ≡ ok (placed p (press z k))
  unfolding perform handle_forward_key handle_backward_key handle_delete_key handle_backspace_key
      handle_printable_key delete_params
  perform-press (l, r) (typed c) h =
      rw (h.1, placed-settle p (l, r) idle) (insert_lem p l r is_printable c h.0)
  perform-press (c ∷ l, r) left h = rw (placed-settle p (c ∷ l, r) idle) (left_lem p l r c)
  perform-press ([], r) left h = rw (placed-settle p ([], r) idle) (left_at_start p r)
  perform-press (l, c ∷ r) right h = rw (placed-settle p (l, c ∷ r) idle) (right_lem p l r c)
  perform-press (l, []) right h = rw (placed-settle p (l, []) idle) (right_at_end p l)
  perform-press (l, c ∷ r) delete h = rw (placed-settle p (l, c ∷ r) idle) (rw (delete_lem p l r c))
  perform-press (l, []) delete h = rw (placed-settle p (l, []) idle) (rw (delete_at_end p l))
  perform-press (c ∷ l, r) backspace h =
      rw (placed-settle p (c ∷ l, r) idle) (backspace_lem p l r c)
  perform-press ([], r) backspace h = rw (placed-settle p ([], r) idle) (backspace_at_start p r)

  -- In a prompt at rest, with no completion and no entry of the history in use, any sequence of
  -- typed characters, arrow, delete and backspace keys does to the line and the cursor what it does
  -- to a text with a gap, and changes nothing else.
  pub perform_all-press :
      (ks : List Key) (z : Gap)
      → AllCanType is_printable ks
      → perform_all is_printable (map action ks) (placed p z) ≡ ok (placed p (foldl press z ks))
  unfolding perform_all
  perform_all-press [] z h = refl
  perform_all-press (k ∷ ks) z h = rw (perform-press z k h.0) (perform_all-press ks (press z k) h.1)
