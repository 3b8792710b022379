-- ===== src/Prompt/Input.antt =====
-- `Prompt::input` of src/api/prompt.rs. The parser of the crate `vte` is a parameter: what it
-- calls for the bytes of one character. The keys that will come are a list.
use moros.Prelude.{ℕ, Bool, Option, none, some, List, [], ◌∷◌, ◌==◌, if◌then◌else◌}
use moros.Run.{Run, ok, ◌>>=◌}
use moros.Prompt.{Text, Prompt, update_completion}
use moros.Prompt.Keys.{settle, Action, perform_all}

abbrev pub etx_key : ℕ
etx_key = 0x03

abbrev pub eot_key : ℕ
eot_key = 0x04

module _ {S : Type 0} (start : S) (advance : S → ℕ → S × List Action)
    (is_printable : ℕ → Bool) where
  unfoldable pub read_keys : S → List ℕ → Prompt → Run (Option Text × Prompt)
  unfolding update_completion settle perform_all
  read_keys s [] p = ok (none, p)
  read_keys s (c ∷ cs) p =
      if c == etx_key
      then (do q ← update_completion p; ok (some [], q))
      else if c == eot_key
      then (do q ← update_completion p; ok (none, q))
      else if c == b'\n'
      then (do q ← settle p; ok (some q.line, q))
      else (do q ← perform_all is_printable (advance s c).1 p; read_keys (advance s c).0 cs q)

  -- `offset` is the width of the prompt's own text.
  unfoldable pub input : ℕ → List ℕ → Prompt → Run (Option Text × Prompt)
  input offset keys p =
      read_keys start keys (record p { offset = offset; cursor = offset; line = [] })
