-- ===== src/Prompt.antt =====
-- The line editor of src/api/prompt.rs: a line of characters (code points), the completion and
-- the history. Screen output is left out. `panic` is an index that the source would not survive.
pub mod Entries
pub mod Keys
pub mod Valid
pub mod Handled
pub mod Performed
pub mod Input
pub mod Answers
pub mod Gap
use moros.Prelude.{
  ℕ, ◌+◌, ◌-◌, ◌<◌, Bool, Option, none, some, List, [], ◌∷◌, ◌++◌, length, ltb, ◌==◌, if◌then◌else◌,
}
use moros.Run.{Run, ok, panic, ◌>>=◌, index, vec_insert, vec_remove}

-- A `String` by its characters.
abbrev pub Text : Type 0
Text = List ℕ

pub record Completion : Type 0 where
  pub completer : Text → List Text
  pub entries : List Text
  pub pos : Option ℕ

pub record History : Type 0 where
  pub entries : List Text
  pub limit : ℕ
  pub pos : Option ℕ

pub record Prompt : Type 0 where
  pub completion : Completion
  pub history : History
  pub offset : ℕ
  pub cursor : ℕ
  pub line : Text

abbrev pub recall : Prompt → Option ℕ → Run Prompt
recall p none = ok p
recall p (some i) = do
  entry ← index p.history.entries i
  ok (record p { line = entry; history = record p.history { pos = none } })

unfoldable pub update_history : Prompt → Run Prompt
update_history p = recall p p.history.pos

abbrev pub complete : Prompt → Option ℕ → Run Prompt
complete p none = ok p
complete p (some i) = do
  entry ← index p.completion.entries i
  ok (record p {
    cursor = p.cursor + length entry;
    line = p.line ++ entry;
    completion = record p.completion { pos = none; entries = [] };
  })

unfoldable pub update_completion : Prompt → Run Prompt
update_completion p = complete p p.completion.pos

-- The end of both handlers of the tab key, which print the entry at `pos`.
abbrev pub show_at : Prompt → ℕ → Run Prompt
show_at p pos = do
  entry ← index p.completion.entries pos
  ok (record p { completion = record p.completion { pos = some pos } })

-- The branch without a position in both handlers.
abbrev pub offer : Prompt → List Text → Run Prompt
offer p [] = ok (record p { completion = record p.completion { entries = [] } })
offer p (e ∷ es) = show_at (record p { completion = record p.completion { entries = e ∷ es } }) 0

-- `next` is the branch of the two keys, on the number of entries and the position.
abbrev pub cycle : (ℕ → ℕ → ℕ) → Prompt → Option ℕ → Run Prompt
cycle next p none = offer p (p.completion.completer p.line)
cycle next p (some pos) =
    let n = length p.completion.entries in
    if n == 1
    then update_completion p
    else (do shown ← index p.completion.entries pos; show_at p (next n pos))

abbrev pub next_pos : ℕ → ℕ → ℕ
next_pos n pos = if ltb (pos + 1) n then pos + 1 else 0

abbrev pub previous_pos : ℕ → ℕ → ℕ
previous_pos n pos = if pos == 0 then n - 1 else pos - 1

unfoldable pub handle_tab_key : Prompt → Run Prompt
unfolding update_history
handle_tab_key p = do q ← update_history p; cycle next_pos q q.completion.pos

unfoldable pub handle_backtab_key : Prompt → Run Prompt
unfolding update_history
handle_backtab_key p = do q ← update_history p; cycle previous_pos q q.completion.pos
