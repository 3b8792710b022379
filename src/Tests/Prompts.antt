-- ===== src/Tests/Prompts.antt =====
-- Runs of the prompt, and its theorems at concrete inputs.
use mathlib.Core.List.{foldl}
use moros.Prelude.{
  ℕ, ◌≤◌, ◌≡◌, refl, Bool, true, none, some, List, [], ◌∷◌, map, arith, if◌then◌else◌, length, ◌==◌,
  last?,
}
use moros.Run.{ok}
use moros.Prompt.{Text, Prompt, Completion, History}
use moros.Prompt.Keys.{
  Action, print, csi_dispatch, perform_all, handle_printable_key, handle_backward_key,
  delete_params,
}
use moros.Prompt.Entries.{add}
use moros.Prompt.Entries.Laws.{AreDistinct, add-AreDistinct}
use moros.Prompt.Valid.{IsValid}
use moros.Prompt.Gap.{Key, typed, left, delete, press, action, placed, IsIdle, perform_all-press}
use moros.Prompt.Input.{input, etx_key}
use moros.Prompt.Answers.{IsReady, Answers, input-IsReady, input-interrupted}

abbrev word : Text
word = b'l' ∷ b's' ∷ []

abbrev old : History
old = record { entries = (b'a' ∷ []) ∷ word ∷ []; limit = 1000; pos = none }

abbrev completion : Completion
completion = record { completer = λ t. (b'x' ∷ []) ∷ (b'y' ∷ []) ∷ []; entries = []; pos = none }

abbrev idle : Prompt
idle = record { completion = completion; history = old; offset = 2; cursor = 2; line = [] }

idle-IsIdle : IsIdle idle
idle-IsIdle = record { free = refl; unrecalled = refl }

idle-IsValid : IsValid idle
idle-IsValid = record {
  low = omega arith;
  high = omega arith;
  recalled = tt;
  completed = tt;
  apart = tt;
}

idle-IsReady : IsReady idle
idle-IsReady = record { recalled = tt; completed = tt; apart = tt }

abbrev shows_all : ℕ → Bool
shows_all c = true

-- A parser of the sequences that have no parameter of their own, and of characters.
data Parsing : Type 0 where
  ground' escaped bracketed : Parsing

abbrev parse : Parsing → ℕ → Parsing × List Action
parse ground' c = if c == 0x1b then (escaped, []) else (ground', print c ∷ [])
parse escaped c = if c == b'[' then (bracketed, []) else (ground', [])
parse bracketed c = (ground', csi_dispatch (0 ∷ []) c ∷ [])

-- Typing `ls`, stepping back and typing `a`.
abbrev keys : List Key
keys = typed b'l' ∷ typed b's' ∷ left ∷ typed b'a' ∷ delete ∷ []

typed_line :
    perform_all shows_all (map action keys) (placed idle ([], []))
    ≡ ok (placed idle (b'a' ∷ b'l' ∷ [], []))
unfolding perform_all handle_printable_key handle_backward_key delete_params
typed_line = refl

perform_all-press_example :
    perform_all shows_all (map action keys) (placed idle ([], []))
    ≡ ok (placed idle (foldl press ([], []) keys))
perform_all-press_example =
    perform_all-press shows_all idle idle-IsIdle keys ([], [])
      ((refl, refl), ((refl, refl), (tt, ((refl, refl), (tt, tt)))))

-- `l`, the left key, `s` and enter.
abbrev stepped_back : List ℕ
stepped_back = b'l' ∷ 0x1b ∷ b'[' ∷ b'D' ∷ b's' ∷ b'\n' ∷ []

input-IsReady_example : Answers (input ground' parse shows_all 2 stepped_back idle)
input-IsReady_example = input-IsReady ground' parse shows_all 2 stepped_back idle idle-IsReady

input-interrupted_example :
    (q q' : Prompt) × (input ground' parse shows_all 2 (0x1b ∷ b'[' ∷ b'A' ∷ etx_key ∷ []) idle
      ≡ ok (some [], q))
    × (input ground' parse shows_all 2 (b'\n' ∷ []) q ≡ ok (some word, q'))
input-interrupted_example =
    input-interrupted ground' parse shows_all idle 2 2 [] refl refl (omega arith)
      (record { escape = refl; bracket = refl; up = refl })

old-AreDistinct : AreDistinct old.entries
old-AreDistinct = ((λ e. cc, tt), (tt, tt))

add-AreDistinct_example :
    AreDistinct (add (b'a' ∷ []) old).entries
    × (last? (add (b'a' ∷ []) old).entries ≡ some (b'a' ∷ []))
    × (length (add (b'a' ∷ []) old).entries ≤ 1000)
add-AreDistinct_example = add-AreDistinct (b'a' ∷ []) old (omega arith) old-AreDistinct
