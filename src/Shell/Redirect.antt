-- ===== src/Shell/Redirect.antt =====
-- The redirections in a command of src/usr/shell.rs, and the table of its variables and aliases.
-- `reopen` of the API is a parameter: whether it succeeds, and the state that it leaves.
pub mod Laws
use moros.Prelude.{
  ℕ, ◌+◌, ◌-◌, ◌*◌, ◌^◌, ◌<◌, Bool, true, false, not, ◌&&◌, ◌||◌, Option, none, some, List, [], ◌∷◌,
  ◌++◌, length, ltb, leb, ◌==◌, if◌then◌else◌,
}
use moros.Run.{Run, ok, panic}
use moros.Regex.{CharClasses, is_match}
use moros.Shell.{Text}

-- `^[?\d*]?-+>$`: the brackets stand for themselves.
abbrev thin_arrow : Text
thin_arrow = b'^' ∷ b'[' ∷ b'?' ∷ b'\\' ∷ b'd' ∷ b'*' ∷ b']' ∷ b'?' ∷ b'-' ∷ b'+' ∷ b'>' ∷ b'$' ∷ []

-- `^[?\d*]?=*>+[?\d*]?$`
abbrev fat_arrow : Text
fat_arrow =
    b'^' ∷ b'[' ∷ b'?' ∷ b'\\' ∷ b'd' ∷ b'*' ∷ b']' ∷ b'?' ∷ b'=' ∷ b'*' ∷ b'>' ∷ b'+' ∷ b'[' ∷ b'?'
    ∷ b'\\' ∷ b'd' ∷ b'*' ∷ b']' ∷ b'?' ∷ b'$' ∷ []

-- `^<=*$`
abbrev from_arrow : Text
from_arrow = b'^' ∷ b'<' ∷ b'=' ∷ b'*' ∷ b'$' ∷ []

pub data Arrow : Type 0 where
  word : Arrow
  thin : Arrow
  fat : ℕ → Arrow

-- The kind of an argument, with the handle on its left if it names none.
unfoldable pub classify : ⦃f : CharClasses⦄ → Text → Arrow
classify arg =
    if is_match thin_arrow arg
    then thin
    else if is_match fat_arrow arg
    then fat 1
    else if is_match from_arrow arg
    then fat 0
    else word

abbrev digits : Text → ℕ → Option ℕ
digits [] n = some n
digits (c ∷ cs) n = if leb b'0' c && leb c b'9' then digits cs (n * 10 + (c - b'0')) else none

-- `parse::<usize>`
unfoldable pub parse : Text → Option ℕ
parse [] = none
parse (c ∷ cs) = elim (digits (c ∷ cs) 0) [
  | none ↦ none
  | some n ↦ if ltb n (2 ^ 64) then some n else none
]

pub record Heads : Type 0 where
  pub num : Text
  pub head_count : ℕ
  pub left_handle : ℕ

abbrev value_or : Option ℕ → ℕ → ℕ
value_or none n = n
value_or (some m) n = m

unfoldable pub scan_arrow : Text → Heads → Heads
unfolding parse
scan_arrow [] h = h
scan_arrow (c ∷ cs) h = scan_arrow cs (
    if c == b'[' || c == b']' || c == b'-' || c == b'='
    then h
    else if c == b'<' || c == b'>'
    then record {
      num = [];
      head_count = h.head_count + 1;
      left_handle = value_or (parse h.num) h.left_handle;
    }
    else record h { num = h.num ++ c ∷ [] })

abbrev pub read_arrow : ℕ → Text → Heads
read_arrow left arg = scan_arrow arg (record { num = []; head_count = 0; left_handle = left })

-- What is left of the arguments, or that the command is given up.
pub data Redirected (S : Type 0) : Type 0 where
  failed : S → Redirected S
  passed : S → List Text → Bool → Redirected S

module _ {S : Type 0} (reopen : Text → ℕ → Bool → S → Bool × S) where
  abbrev pub keep : Text → Redirected S → Redirected S
  keep arg (failed s) = failed s
  keep arg (passed s args restore) = passed s (arg ∷ args) restore

  abbrev pub mark : Redirected S → Redirected S
  mark (failed s) = failed s
  mark (passed s args restore) = passed s args true

  -- `rest` handles the arguments behind the path.
  abbrev pub redirect_to : Heads → Text → (S → Redirected S) → S → Redirected S
  redirect_to h path rest s =
      let (good, s') = reopen path h.left_handle (ltb 1 h.head_count) s in
      if good then mark (rest s') else failed s'

  abbrev pub is_empty_num : Heads → Bool
  is_empty_num h = elim h.num [ [] ↦ true | c ∷ cs ↦ false ]

  -- An arrow at the end has no path.
  abbrev pub last_argument : Arrow → Text → S → Redirected S
  last_argument word arg s = passed s (arg ∷ []) false
  last_argument thin arg s = failed s
  last_argument (fat left) arg s = failed s

  -- `kept` handles the arguments behind `arg`, `rest` those behind the path.
  abbrev pub argument : Arrow → Text → Text → Redirected S → (S → Redirected S) → S → Redirected S
  argument word arg path kept rest s = keep arg kept
  argument thin arg path kept rest s = failed s
  argument (fat left) arg path kept rest s =
      if is_empty_num (read_arrow left arg)
      then redirect_to (read_arrow left arg) path rest s
      else failed s

  -- The loop: arguments that are no arrows are kept, an arrow goes with the path behind it.
  unfoldable pub redirect : ⦃f : CharClasses⦄ → List Text → S → Redirected S
  redirect [] s = passed s [] false
  redirect (arg ∷ []) s = last_argument (classify arg) arg s
  redirect (arg ∷ path ∷ rest) s =
      argument (classify arg) arg path (redirect (path ∷ rest) s) (λ t. redirect rest t) s

-- The exit codes that the shell itself gives.
pub data ExitCode : Type 0 where
  success failure usage_error shell_exit : ExitCode

-- The end of `exec_with_config`: `dispatch` reads the name of the program at `args[0]`, and the
-- three handles are opened again on the console if any was redirected.
module _ {S : Type 0} (reopen : Text → ℕ → Bool → S → Bool × S) (console : Text)
    (dispatch : Text → List Text → S → ExitCode × S) where
  abbrev restore_handles : Bool → S → S
  restore_handles false s = s
  restore_handles true s =
      (reopen console 2 false (reopen console 1 false (reopen console 0 false s).1).1).1

  abbrev finish : Redirected S → Run (ExitCode × S)
  finish (failed s) = ok (failure, s)
  finish (passed s [] restore) = panic
  finish (passed s (name ∷ args) restore) =
      let (code, s') = dispatch name (name ∷ args) s in ok (code, restore_handles restore s')

  unfoldable pub exec_args : ⦃f : CharClasses⦄ → List Text → S → Run (ExitCode × S)
  unfolding redirect
  exec_args args s = finish (redirect reopen args s)
