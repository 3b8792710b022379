-- ===== src/Prompt/Keys.antt =====
-- The keys of src/api/prompt.rs that move the cursor and change the line, and the calls of the
-- parser of escape sequences.
use moros.Prelude.{
  ℕ, ◌+◌, ◌-◌, Bool, Option, none, some, List, [], ◌∷◌, length, ltb, ◌==◌, if◌then◌else◌,
}
use moros.Run.{Run, ok, panic, ◌>>=◌, index, minus, vec_insert, vec_remove}
use moros.Prompt.{Prompt, update_history, update_completion, handle_tab_key, handle_backtab_key}

-- The number of characters shown and the entry to go to, of the two keys.
abbrev pub above : Prompt → ℕ → Option ℕ → Run (ℕ × ℕ)
above p n (some i) = do shown ← index p.history.entries i; ok (length shown, i - 1)
above p n none = ok (length p.line, n - 1)

-- The blanks that the key prints are counted by a subtraction that may not underflow.
abbrev pub go_up : Prompt → ℕ × ℕ → Run Prompt
go_up p (bs, i) = do
  entry ← index p.history.entries i
  if ltb (p.offset + bs) p.cursor
      then panic
      else ok (record p {
        cursor = p.offset + length entry;
        history = record p.history { pos = some i };
      })

unfoldable pub handle_up_key : Prompt → Run Prompt
unfolding update_completion
handle_up_key p = do
  q ← update_completion p
  let n = length q.history.entries
  if n == 0 then ok q else (do place ← above q n q.history.pos; go_up q place)

-- Below the last entry stands the line itself.
abbrev pub go_down : Prompt → ℕ → Run Prompt
go_down p i =
    if ltb i (length p.history.entries)
    then (do
      entry ← index p.history.entries i
      ok (record p {
        cursor = p.offset + length entry;
        history = record p.history { pos = some i };
      }))
    else ok
        (record p { cursor = p.offset + length p.line; history = record p.history { pos = none } })

abbrev pub below : Prompt → Option ℕ → Run Prompt
below p none = ok p
below p (some i) = do shown ← index p.history.entries i; go_down p (i + 1)

unfoldable pub handle_down_key : Prompt → Run Prompt
unfolding update_completion
handle_down_key p = do
  q ← update_completion p
  if length q.history.entries == 0 then ok q else below q q.history.pos

-- What the other keys begin with.
unfoldable pub settle : Prompt → Run Prompt
unfolding update_history update_completion
settle p = do q ← update_completion p; update_history q

abbrev pub go_forward : Prompt → Run Prompt
go_forward p =
    if ltb p.cursor (p.offset + length p.line)
    then ok (record p { cursor = p.cursor + 1 })
    else ok p

abbrev pub go_backward : Prompt → Run Prompt
go_backward p = if ltb p.offset p.cursor then ok (record p { cursor = p.cursor - 1 }) else ok p

abbrev pub remove_char : Prompt → Run Prompt
remove_char p =
    if ltb p.cursor (p.offset + length p.line)
    then (do i ← minus p.cursor p.offset; line ← vec_remove p.line i; ok (record p { line = line }))
    else ok p

abbrev pub remove_before : Prompt → Run Prompt
remove_before p =
    if ltb p.offset p.cursor
    then (do
      line ← vec_remove p.line (p.cursor - p.offset - 1)
      ok (record p { line = line; cursor = p.cursor - 1 }))
    else ok p

module _ (is_printable : ℕ → Bool) where
  abbrev pub insert_char : ℕ → Prompt → Run Prompt
  insert_char c p =
      if is_printable c
      then (do
        i ← minus p.cursor p.offset
        line ← vec_insert p.line i c
        ok (record p { line = line; cursor = p.cursor + 1 }))
      else ok p

  unfoldable pub handle_printable_key : ℕ → Prompt → Run Prompt
  unfolding settle
  handle_printable_key c p = do q ← settle p; insert_char c q

unfoldable pub handle_forward_key : Prompt → Run Prompt
unfolding settle
handle_forward_key p = do q ← settle p; go_forward q

unfoldable pub handle_backward_key : Prompt → Run Prompt
unfolding settle
handle_backward_key p = do q ← settle p; go_backward q

unfoldable pub handle_delete_key : Prompt → Run Prompt
unfolding settle
handle_delete_key p = do q ← settle p; remove_char q

unfoldable pub handle_backspace_key : Prompt → Run Prompt
unfolding settle
handle_backspace_key p = do q ← settle p; remove_before q

-- The calls of the parser of the crate `vte`: the trait `Perform`.
pub data Action : Type 0 where
  execute : ℕ → Action
  print : ℕ → Action
  csi_dispatch : List ℕ → ℕ → Action

-- `for param in params.iter()`, on the first part of each parameter.
unfoldable pub delete_params : List ℕ → Prompt → Run Prompt
unfolding handle_delete_key
delete_params [] p = ok p
delete_params (n ∷ ns) p = do q ← (if n == 3 then handle_delete_key p else ok p); delete_params ns q

module _ (is_printable : ℕ → Bool) where
  unfoldable pub perform : Action → Prompt → Run Prompt
  perform (execute b) p =
      if b == 0x08 then handle_backspace_key p else if b == b'\t' then handle_tab_key p else ok p
  perform (print c) p =
      if c == 0x7f then handle_delete_key p else handle_printable_key is_printable c p
  perform (csi_dispatch params c) p =
      if c == b'A'
      then handle_up_key p
      else if c == b'B'
      then handle_down_key p
      else if c == b'C'
      then handle_forward_key p
      else if c == b'D'
      then handle_backward_key p
      else if c == b'Z'
      then handle_backtab_key p
      else if c == b'~'
      then delete_params params p
      else ok p

  -- The actions of one character, in order.
  unfoldable pub perform_all : List Action → Prompt → Run Prompt
  unfolding perform
  perform_all [] p = ok p
  perform_all (a ∷ rest) p = do q ← perform a p; perform_all rest q
