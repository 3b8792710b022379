-- ===== src/Tests/Regex.antt =====
-- Runs of the matcher, among them those of the test of src/api/regex.rs.
use moros.Prelude.{ℕ, ◌≡◌, refl, Bool, true, false, ◌&&◌, ◌||◌, some, List, [], ◌∷◌, leb, ◌==◌}
use moros.Regex.{
  CharClasses, contains, front, run_length, try_down, try_up, is_match_char, match_here,
  is_match_here, match_from, search_match, find, is_match,
}
use moros.Regex.Laws.{Matches, is_match_here-Decides, Decides}
use moros.Regex.Find.{Located, find_lem}

abbrev digit : ℕ → Bool
digit c = leb b'0' c && leb c b'9'

-- The classes on ASCII.
instance abbrev pub ascii : CharClasses
ascii = record {
  is_numeric = digit;
  is_whitespace = λ c. c == b' ' || (leb 9 c && leb c 13);
  is_alphanumeric = λ c. digit c || (leb b'a' c && leb c b'z') || (leb b'A' c && leb c b'Z');
}

-- Opens the matcher.
unfoldable pub matching : Unit {0}
unfolding contains front run_length try_down try_up is_match_char match_here is_match_here
    match_from search_match find is_match
matching = tt

abbrev abac : List ℕ
abac = b'a' ∷ b'b' ∷ b'a' ∷ b'c' ∷ []

-- "aaabbbcccddd" and "b.*c", "b.*?c"
abbrev runs : List ℕ
runs = b'a' ∷ b'a' ∷ b'a' ∷ b'b' ∷ b'b' ∷ b'b' ∷ b'c' ∷ b'c' ∷ b'c' ∷ b'd' ∷ b'd' ∷ b'd' ∷ []

greedy : find (b'b' ∷ b'.' ∷ b'*' ∷ b'c' ∷ []) runs ≡ some (3, 9)
unfolding matching
greedy = refl

lazy : find (b'b' ∷ b'.' ∷ b'*' ∷ b'?' ∷ b'c' ∷ []) runs ≡ some (3, 7)
unfolding matching
lazy = refl

escaped : is_match (b'a' ∷ b'\\' ∷ b'.' ∷ b'b' ∷ []) (b'a' ∷ b'b' ∷ b'b' ∷ []) ≡ false
unfolding matching
escaped = refl

-- ".*ab" matches the first two characters of "abac"; a failed attempt has left `end` too large.
stale_end : find (b'.' ∷ b'*' ∷ b'a' ∷ b'b' ∷ []) abac ≡ some (0, 3)
unfolding matching
stale_end = refl

here_run : is_match_here (b'a' ∷ b'b' ∷ []) abac 0 ≡ (true, 2)
unfolding matching
here_run = refl

find_lem_example : Located (b'a' ∷ b'c' ∷ []) abac (find (b'a' ∷ b'c' ∷ []) abac)
find_lem_example = find_lem (b'a' ∷ b'c' ∷ []) abac

is_match_here-Decides_example :
    Decides (is_match_here (b'a' ∷ b'b' ∷ [])) (Matches (b'a' ∷ b'b' ∷ []))
is_match_here-Decides_example = is_match_here-Decides (b'a' ∷ b'b' ∷ [])
