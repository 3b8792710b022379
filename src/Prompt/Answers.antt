-- ===== src/Prompt/Answers.antt =====
-- What `Prompt::input` of src/api/prompt.rs returns, and what it leaves for the next call.
use moros.Prelude.{
  ℕ, ◌+◌, ◌-◌, ◌<◌, ◌≡◌, refl, inl, inr, Bool, Option, none, some, List, [], ◌∷◌, arith, false, ltb,
  length, get_or, get_elem?-lt, ◌==◌, Bool-cases,
}
use moros.Run.{Run, ok}
use moros.Prompt.{Text, Prompt, update_history, update_completion}
use moros.Prompt.Keys.{settle, Action, csi_dispatch, perform, perform_all, handle_up_key}
use moros.Prompt.Valid.{InRange, Apart, IsValid, update_completion_lem, settle_lem}
use moros.Prompt.Performed.{perform_all-IsValid}
use moros.Prompt.Input.{read_keys, input, etx_key, eot_key}

-- What must hold of the positions between two calls.
pub record IsReady (p : Prompt) : Type 0 where
  pub recalled : InRange p.history.pos (length p.history.entries)
  pub completed : InRange p.completion.pos (length p.completion.entries)
  pub apart : Apart p.completion.pos p.history.pos

abbrev pub Answers : Run (Option Text × Prompt) → Type 0
Answers r = (a : Option Text) × (q : Prompt) × (r ≡ ok (a, q)) × IsReady q

ready : (p : Prompt) → IsValid p → IsReady p
ready p v = record { recalled = v.recalled; completed = v.completed; apart = v.apart }

begin-IsValid :
    (p : Prompt) (offset : ℕ)
    → IsReady p
    → IsValid (record p { offset = offset; cursor = offset; line = [] })
begin-IsValid p offset h = record {
  low = omega arith;
  high = omega arith;
  recalled = h.recalled;
  completed = h.completed;
  apart = h.apart;
}

module _ {S : Type 0} (start : S) (advance : S → ℕ → S × List Action)
    (is_printable : ℕ → Bool) where
  read_keys-Answers :
      (keys : List ℕ) (s : S) (p : Prompt)
      → IsValid p
      → Answers (read_keys start advance is_printable s keys p)
  unfolding read_keys
  read_keys-Answers [] s p v = (none, p, refl, ready p v)
  read_keys-Answers (c ∷ cs) s p v =
      let (q, e, w) = update_completion_lem p v in
      let (q', e', w') = settle_lem p v in
      let (r, f, u) = perform_all-IsValid is_printable (advance s c).1 p v in
      elim (Bool-cases (c == etx_key)) [
        | inl a ↦ rw (a, e) (some [], q, refl, ready q w.valid)
        | inr a ↦ elim (Bool-cases (c == eot_key)) [
          | inl b ↦ rw (a, b, e) (none, q, refl, ready q w.valid)
          | inr b ↦ elim (Bool-cases (c == b'\n')) [
            | inl d ↦ rw (a, b, d, e') (some q'.line, q', refl, ready q' w'.valid)
            | inr d ↦ rw (a, b, d, f) (read_keys-Answers cs (advance s c).0 r u)
          ]
        ]
      ]

  -- Whatever keys come and whatever the parser makes of them, a call of `input` on a prompt whose
  -- positions name entries, and not both at once, returns without a panic and leaves such a prompt.
  pub input-IsReady :
      (offset : ℕ) (keys : List ℕ) (p : Prompt)
      → IsReady p
      → Answers (input start advance is_printable offset keys p)
  unfolding input
  input-IsReady offset keys p h = read_keys-Answers keys start _ (begin-IsValid p offset h)

-- A prompt left on the entry at `i` of its history, with nothing typed.
abbrev left_on : Prompt → ℕ → ℕ → Prompt
left_on p offset i = record p {
  offset = offset;
  cursor = offset + length (get_or p.history.entries i []);
  line = [];
  history = record p.history { pos = some i };
}

-- The prompt behind an answer that is the entry at `i`.
abbrev answered : Prompt → ℕ → ℕ → Prompt
answered p offset i = record p {
  offset = offset;
  cursor = offset;
  line = get_or p.history.entries i [];
  history = record p.history { pos = none };
}

-- The up key in a prompt at rest goes to the last entry.
up_lem :
    (is_printable : ℕ → Bool) (p : Prompt) (offset : ℕ)
    → p.completion.pos ≡ none
    → p.history.pos ≡ none
    → 0 < length p.history.entries
    → perform_all is_printable
        (csi_dispatch (0 ∷ []) b'A' ∷ [])
        (record p { offset = offset; cursor = offset; line = [] })
      ≡ ok (left_on p offset (length p.history.entries - 1))
unfolding perform_all perform handle_up_key update_completion
up_lem is_printable p offset free unrecalled some_entry =
    let n = length p.history.entries in
    let more : (n == 0) ≡ false = ground arith in
    let fits : ltb (offset + 0) offset ≡ false = ground arith in
    rw (free, more, unrecalled, get_elem?-lt p.history.entries (n - 1) [] (omega arith), fits)

-- The up key is read as ESC, `[` and `A`. The parser calls nothing for the first two, and for the
-- third the end of a sequence, whose one parameter is the default.
pub record ParsesUp {S : Type 0} (start : S) (advance : S → ℕ → S × List Action) : Type 0 where
  pub escape : (advance start 0x1b).1 ≡ []
  pub bracket : (advance (advance start 0x1b).0 b'[').1 ≡ []
  pub up :
      (advance (advance (advance start 0x1b).0 b'[').0 b'A').1 ≡ csi_dispatch (0 ∷ []) b'A' ∷ []

module _ {S : Type 0} (start : S) (advance : S → ℕ → S × List Action)
    (is_printable : ℕ → Bool) where
  -- On a prompt with no completion or entry in use and a history that is not empty: if the parser
  -- makes of ESC, `[` and `A` nothing, nothing and the up key, then of these three characters and
  -- an interrupt the call answers an empty text, and the next call answers a new line, as its first
  -- key, with the last entry of the history.
  pub input-interrupted :
      (p : Prompt) (offset offset' : ℕ) (keys : List ℕ)
      → p.completion.pos ≡ none
      → p.history.pos ≡ none
      → 0 < length p.history.entries
      → ParsesUp start advance
      → (q q' : Prompt) × (input start advance is_printable offset
            (0x1b ∷ b'[' ∷ b'A' ∷ etx_key ∷ [])
            p
          ≡ ok (some [], q))
        × (input start advance is_printable offset' (b'\n' ∷ keys) q
            ≡ ok (some (get_or p.history.entries (length p.history.entries - 1) []), q'))
  unfolding input read_keys update_completion settle update_history perform_all
  input-interrupted p offset offset' keys free unrecalled some_entry parses =
      let n = length p.history.entries in
      (
        left_on p offset (n - 1),
        answered p offset' (n - 1),
        rw
            (
              parses.escape,
              parses.bracket,
              parses.up,
              up_lem is_printable p offset free unrecalled some_entry,
            )
            (rw free),
        rw (free, get_elem?-lt p.history.entries (n - 1) [] (omega arith)),
      )
