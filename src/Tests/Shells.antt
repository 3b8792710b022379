-- ===== src/Tests/Shells.antt =====
-- Runs of the reading of commands, among them those of the tests of src/usr/shell.rs, and its
-- theorems at concrete inputs.
use moros.Prelude.{ℕ, ◌+◌, ◌≡◌, refl, Bool, true, false, some, List, [], ◌∷◌, ◌++◌, map, arith, All}
use moros.Run.{ok, panic}
use moros.Shell.{Text, Surroundings, glob_to_regex, is_blank, split_args, glob, tilde_expansion}
use moros.Shell.Quoting.{IsPlain, spaced, split_args-quote, split_args-unclosed}
use moros.Shell.Redirect.{
  word, fat, classify, read_arrow, scan_arrow, passed, redirect, ExitCode, success, failure,
  exec_args,
}
use moros.Shell.Redirect.Laws.{
  Item, plain, to, render, open_one, opened, redirect-render, exec_args-nothing, exec_args-dangling,
}
use moros.Tests.Regex.{ascii, matching}

abbrev print : Text
print = b'p' ∷ b'r' ∷ []

print-IsPlain : All IsPlain print
print-IsPlain = (
  record { not_space = refl; not_comment = refl; not_quote = refl; not_escape = refl },
  (record { not_space = refl; not_comment = refl; not_quote = refl; not_escape = refl }, tt),
)

print_word : is_blank print ≡ false
unfolding is_blank
print_word = refl

abbrev sys : Surroundings
sys = record {
  dir = b'/' ∷ [];
  home = some (b'/' ∷ b'h' ∷ []);
  read_dir = λ dir. some (print ∷ (b'q' ∷ []) ∷ []);
}

-- "h*.t"
glob_star :
    glob_to_regex (b'h' ∷ b'*' ∷ b'.' ∷ b't' ∷ [])
    ≡ b'^' ∷ b'h' ∷ b'.' ∷ b'*' ∷ b'\\' ∷ b'.' ∷ b't' ∷ b'$' ∷ []
unfolding glob_to_regex
glob_star = refl

-- `print foo ~ # comment`
split_home :
    split_args sys (print ++ b' ' ∷ b'f' ∷ b' ' ∷ b'~' ∷ b' ' ∷ b'#' ∷ b'c' ∷ [])
    ≡ ok (print ∷ (b'f' ∷ []) ∷ (b'/' ∷ b'h' ∷ []) ∷ [])
unfolding split_args is_blank glob tilde_expansion
split_home = refl

-- A quote, a backslash and a comment sign.
abbrev awkward : Text
awkward = b'"' ∷ b'\\' ∷ b'#' ∷ b' ' ∷ []

split_args-quote_example :
    split_args sys (print ++ spaced (awkward ∷ [] ∷ []))
    ≡ ok (map (tilde_expansion sys.home) (print ∷ awkward ∷ [] ∷ []))
split_args-quote_example = split_args-quote sys print (awkward ∷ [] ∷ []) print-IsPlain print_word

-- `pr "foo`
split_args-unclosed_example :
    split_args sys (print ++ (b' ' ∷ b'"' ∷ b'f' ∷ b'o' ∷ b'o' ∷ []))
    ≡ ok (map (tilde_expansion sys.home) (print ∷ (b'f' ∷ b'o' ∷ []) ∷ []))
split_args-unclosed_example =
    split_args-unclosed sys print (b'f' ∷ b'o' ∷ []) b'o' print-IsPlain print_word
      (record { not_space = refl; not_comment = refl; not_quote = refl; not_escape = refl })
      (omega arith)

-- A state that counts how often a handle was opened again.
abbrev counting : Text → ℕ → Bool → ℕ → Bool × ℕ
counting path handle append n = (true, n + 1)

abbrev arrow : Text
arrow = b'=' ∷ b'>' ∷ []

abbrev answer : Text → List Text → ℕ → ExitCode × ℕ
answer name args n = (success, n)

arrow_fat : classify arrow ≡ fat 1
unfolding classify matching
arrow_fat = refl

arrow_num : (read_arrow 1 arrow).num ≡ []
unfolding scan_arrow
arrow_num = refl

print_plain : classify print ≡ word
unfolding classify matching
print_plain = refl

-- `pr => pr`
abbrev to_print : List Item
to_print = plain print ∷ to 1 arrow print ∷ []

redirect-render_example :
    redirect counting (render to_print) 5 ≡ passed (opened counting to_print 5) (print ∷ []) true
redirect-render_example =
    redirect-render counting to_print 5 (print_plain, ((arrow_fat, arrow_num), tt)) (refl, tt)

exec_args-nothing_example : exec_args counting print answer (arrow ∷ print ∷ []) 0 ≡ panic
exec_args-nothing_example =
    exec_args-nothing counting print answer (to 1 arrow print ∷ []) 0 ((arrow_fat, arrow_num), tt)
      (refl, tt) refl

exec_args-dangling_example :
    exec_args counting print answer (print ∷ arrow ∷ print ∷ arrow ∷ []) 7
    ≡ ok (failure, (open_one counting 1 arrow print 7).1)
exec_args-dangling_example =
    exec_args-dangling counting print answer print 1 1 arrow print arrow 7
      (print_plain, ((arrow_fat, arrow_num), tt)) refl arrow_fat
