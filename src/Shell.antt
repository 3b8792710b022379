-- ===== src/Shell.antt =====
-- How the shell of src/usr/shell.rs reads a command: escapes, globs, arguments and `~`. A `String`
-- is the list of its characters. What the shell asks the kernel is the record `Surroundings`.

pub mod Quoting
pub mod Redirect
use moros.Prelude.{
  ℕ, ◌+◌, ◌-◌, ◌<◌, Bool, true, false, not, ◌&&◌, ◌||◌, Option, none, some, List, [], ◌∷◌, ◌++◌,
  map, length, take, last?, ltb, leb, ◌==◌, if◌then◌else◌,
}
use moros.Run.{Run, ok, panic, ◌>>=◌}
use moros.Path.{slash, dirname, filename}
use moros.Regex.{CharClasses, is_match}

abbrev pub Text : Type 0
Text = List ℕ

-- `sys::process::dir`, the variable `HOME`, and the names that `fs::read_dir` lists.
pub record Surroundings : Type 0 where
  pub dir : Text
  pub home : Option Text
  pub read_dir : Text → Option (List Text)

abbrev has : ℕ → Text → Bool
has k [] = false
has k (c ∷ cs) = c == k || has k cs

abbrev is_quoted_by : ℕ → Text → Bool
is_quoted_by q [] = false
is_quoted_by q (c ∷ cs) = c == q && elim (last? (c ∷ cs)) [ none ↦ false | some d ↦ d == q ]

unfoldable pub is_globbing : Text → Bool
is_globbing arg =
    if is_quoted_by b'"' arg
    then false
    else if is_quoted_by b'\'' arg
    then false
    else has b'*' arg || has b'?' arg

-- `str::replace` of one character.
unfoldable pub replace : ℕ → Text → Text → Text
replace k by [] = []
replace k by (c ∷ cs) = (if c == k then by else c ∷ []) ++ replace k by cs

unfoldable pub glob_to_regex : Text → Text
unfolding replace
glob_to_regex pattern =
    b'^'
      ∷ replace b'?' (b'.' ∷ []) (
          replace b'*' (b'.' ∷ b'*' ∷ [])
            (replace b'.' (b'\\' ∷ b'.' ∷ []) (replace b'\\' (b'\\' ∷ b'\\' ∷ []) pattern)))
    ++ b'$' ∷ []

abbrev separator : Text → Text
separator [] = slash ∷ []
separator (c ∷ []) = if c == slash then [] else slash ∷ []
separator (c ∷ d ∷ cs) = slash ∷ []

-- The names of a directory that an expression matches, with what stands in front of each.
abbrev matching : ⦃f : CharClasses⦄ → Text → Text → Option (List Text) → List Text
matching re prefix none = []
matching re prefix (some []) = []
matching re prefix (some (name ∷ names)) =
    let rest = matching re prefix (some names) in
    if is_match re name then (prefix ++ name) ∷ rest else rest

unfoldable pub glob : ⦃f : CharClasses⦄ → Surroundings → Text → List Text
unfolding is_globbing glob_to_regex
glob sys arg =
    if is_globbing arg
    then (if has slash arg
        then matching (glob_to_regex (filename arg)) (dirname arg ++ separator (dirname arg))
            (sys.read_dir (dirname arg))
        else matching (glob_to_regex arg) [] (sys.read_dir sys.dir))
    else arg ∷ []

-- The character that an escaped one stands for, if any.
abbrev pub unescaped : ℕ → Text
unescaped c =
    if c == b'\\'
    then b'\\' ∷ []
    else if c == b'"'
    then b'"' ∷ []
    else if c == b'n'
    then b'\n' ∷ []
    else if c == b'r'
    then 0x0d ∷ []
    else if c == b't'
    then 0x09 ∷ []
    else if c == b'b'
    then 0x08 ∷ []
    else if c == b'e'
    then 0x1b ∷ []
    else []

unfoldable pub parse_from : Bool → Text → Text
parse_from is_escaped [] = []
parse_from true (c ∷ cs) = unescaped c ++ parse_from false cs
parse_from false (c ∷ cs) =
    let escapes = parse_from true cs in
    let rest = parse_from false cs in if c == b'\\' then escapes else c ∷ rest

unfoldable pub parse_str : Text → Text
unfolding parse_from
parse_str s = parse_from false s

-- `char::is_whitespace`
unfoldable pub is_whitespace : ℕ → Bool
is_whitespace c =
    (leb 0x09 c && leb c 0x0d)
    || c == 0x20
    || c == 0x85
    || c == 0xa0
    || c == 0x1680
    || (leb 0x2000 c && leb c 0x200a)
    || c == 0x2028
    || c == 0x2029
    || c == 0x202f
    || c == 0x205f
    || c == 0x3000

-- `trim().is_empty()`
unfoldable pub is_blank : Text → Bool
unfolding is_whitespace
is_blank [] = true
is_blank (c ∷ cs) = is_whitespace c && is_blank cs

-- The loop of `split_args`; `word` is `cmd[i..j]`, what was read since the last separator.
pub record Splitting : Type 0 where
  pub args : List Text
  pub word : Text
  pub is_quote : Bool
  pub is_escaped : Bool

abbrev pub is_none : List Text → Bool
is_none [] = true
is_none (t ∷ ts) = false

module _ ⦃f : CharClasses⦄ (sys : Surroundings) where
  -- The first word is the name of the program, the others may be globs.
  abbrev pub end_word : List Text → Text → List Text
  end_word args word =
      if is_blank word then args else if is_none args then word ∷ [] else args ++ glob sys word

  abbrev pub split_char : ℕ → Splitting → Splitting
  split_char c s =
      let is_escaped = c == b'\\' && not s.is_escaped in
      if c == b' ' && not s.is_quote
      then record s { args = end_word s.args s.word; word = []; is_escaped = is_escaped }
      else if c == b'"' && not s.is_escaped
      then record {
        args = if s.is_quote then s.args ++ parse_str s.word ∷ [] else s.args;
        word = [];
        is_quote = not s.is_quote;
        is_escaped = is_escaped;
      }
      else record s { word = s.word ++ c ∷ []; is_escaped = is_escaped }

  -- A comment ends the loop.
  unfoldable pub split_loop : Text → Splitting → Splitting
  split_loop [] s = s
  split_loop (c ∷ cs) s =
      let rest = split_loop cs (split_char c s) in if c == b'#' && not s.is_quote then s else rest

  -- `cmd[i..n - 1]`, which panics inside a character of several bytes.
  abbrev pub without_last : Text → Option ℕ → Run Text
  without_last word none = ok []
  without_last word (some c) = if ltb c 0x80 then ok (take (length word - 1) word) else panic

  abbrev pub last_word : Splitting → Text → Run (List Text)
  last_word s [] = ok s.args
  last_word s (c ∷ cs) =
      if s.is_quote
      then (do w ← without_last (c ∷ cs) (last? (c ∷ cs)); ok (s.args ++ w ∷ []))
      else if is_none s.args
      then ok ((c ∷ cs) ∷ [])
      else if is_blank (c ∷ cs)
      then ok s.args
      else ok (s.args ++ glob sys (c ∷ cs))

  -- `n == 0`: no character in front of a comment.
  abbrev pub is_nothing : Text → Bool
  is_nothing [] = true
  is_nothing (c ∷ cs) = c == b'#'

abbrev starts_home : Text → Bool
starts_home [] = false
starts_home (c ∷ []) = c == b'~'
starts_home (c ∷ d ∷ cs) = c == b'~' && d == slash

abbrev pub after_tilde : Text → Text
after_tilde [] = []
after_tilde (c ∷ cs) = cs

unfoldable pub tilde_expansion : Option Text → Text → Text
tilde_expansion none arg = arg
tilde_expansion (some home) arg = if starts_home arg then home ++ after_tilde arg else arg

abbrev pub nothing_read : Splitting
nothing_read = record { args = []; word = []; is_quote = false; is_escaped = false }

unfoldable pub split_args : ⦃f : CharClasses⦄ → Surroundings → Text → Run (List Text)
unfolding split_loop
split_args sys cmd = do
  let s = split_loop sys cmd nothing_read
  args ← last_word sys s s.word
  ok (map (tilde_expansion sys.home) (if is_nothing sys cmd then args ++ [] ∷ [] else args))
