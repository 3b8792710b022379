-- ===== src/Regex.antt =====
-- src/api/regex.rs: the regular expression matcher, on the characters of the expression and of
-- the text. The character classes of the standard library are the instance `CharClasses`.
pub mod Laws
pub mod Find
pub mod Ends
use moros.Prelude.{
  ℕ, zero, suc, ◌+◌, Bool, true, false, not, ◌&&◌, Option, none, some, List, [], ◌∷◌, length, drop,
  ltb, leb, ◌==◌, if◌then◌else◌,
}

-- `char::is_numeric`, `is_whitespace` and `is_alphanumeric`
pub record CharClasses : Type 0 where
  pub is_numeric : ℕ → Bool
  pub is_whitespace : ℕ → Bool
  pub is_alphanumeric : ℕ → Bool

pub data MetaChar : Type 0 where
  any numeric whitespace alphanumeric non_numeric non_whitespace non_alphanumeric : MetaChar
  literal : ℕ → MetaChar

unfoldable pub from_char : ℕ → MetaChar
from_char c = if c == b'.' then any else literal c

unfoldable pub from_escaped : ℕ → MetaChar
from_escaped c =
    if c == b'd'
    then numeric
    else if c == b's'
    then whitespace
    else if c == b'w'
    then alphanumeric
    else if c == b'D'
    then non_numeric
    else if c == b'S'
    then non_whitespace
    else if c == b'W'
    then non_alphanumeric
    else literal c

module _ ⦃classes : CharClasses⦄ where
  unfoldable pub contains : MetaChar → ℕ → Bool
  contains any c = true
  contains numeric c = classes.is_numeric c
  contains whitespace c = classes.is_whitespace c
  contains alphanumeric c = classes.is_alphanumeric c
  contains non_numeric c = not (classes.is_numeric c)
  contains non_whitespace c = not (classes.is_whitespace c)
  contains non_alphanumeric c = not (classes.is_alphanumeric c)
  contains (literal l) c = c == l

-- The ranges of `*`, `+` and `?`: `..`, `1..` and `..2`.
pub data Range : Type 0 where
  star plus ques : Range

abbrev pub in_range : Range → ℕ → Bool
in_range star i = true
in_range plus i = leb 1 i
in_range ques i = ltb i 2

-- What `is_match_here` reads at the front of an expression.
pub data Front : Type 0 where
  nothing : Front
  text_end : Front
  one : MetaChar → List ℕ → Front
  repeat : Range → Bool → MetaChar → List ℕ → Front

-- The operator behind a character, with the `?` that makes it lazy.
abbrev lazy_rest : Range → MetaChar → List ℕ → Front
lazy_rest r mc [] = repeat r false mc []
lazy_rest r mc (c ∷ re) = if c == b'?' then repeat r true mc re else repeat r false mc (c ∷ re)

abbrev operator : MetaChar → List ℕ → Front
operator mc [] = one mc []
operator mc (c ∷ re) =
    if c == b'*'
    then lazy_rest star mc re
    else if c == b'+'
    then lazy_rest plus mc re
    else if c == b'?'
    then lazy_rest ques mc re
    else one mc (c ∷ re)

-- A backslash escapes the character behind it, if there is one.
abbrev escaped : ℕ → List ℕ → Front
escaped c [] = operator (from_char c) []
escaped c (e ∷ re) =
    if c == b'\\' then operator (from_escaped e) re else operator (from_char c) (e ∷ re)

unfoldable pub front : List ℕ → Front
unfolding from_char from_escaped
front [] = nothing
front (c ∷ re) = if c == b'$' then text_end else escaped c re

-- A matcher: whether it matched, and the variable `end` that it leaves.
abbrev pub Matcher : Type 0
Matcher = List ℕ → ℕ → Bool × ℕ

abbrev pub is_empty : List ℕ → Bool
is_empty [] = true
is_empty (c ∷ cs) = false

module _ ⦃classes : CharClasses⦄ where
  -- The length of the longest run of characters of a class.
  unfoldable pub run_length : MetaChar → List ℕ → ℕ
  run_length mc [] = 0
  run_length mc (c ∷ cs) = let rest = run_length mc cs in if contains mc c then suc rest else 0

  -- The second loop of `is_match_char`, greedy: from `i` characters down to none.
  unfoldable pub try_down : Range → Matcher → List ℕ → ℕ → ℕ → Bool × ℕ
  try_down r here text zero end =
      let (hit, e) = here text end in if hit && in_range r 0 then (true, e) else (false, e)
  try_down r here text (suc i) end =
      let (hit, e) = here (drop (suc i) text) end in
      let rest = try_down r here text i e in
      if hit && in_range r (suc i) then (true, e + suc i) else rest

  -- The same loop, lazy: from no character on, while they are of the class.
  unfoldable pub try_up : Range → MetaChar → Matcher → ℕ → List ℕ → ℕ → Bool × ℕ
  try_up r mc here i [] end =
      let (hit, e) = here [] end in if hit && in_range r i then (true, e + i) else (false, e)
  try_up r mc here i (c ∷ cs) end =
      let (hit, e) = here (c ∷ cs) end in
      let rest = try_up r mc here (i + 1) cs e in
      if hit && in_range r i then (true, e + i) else if contains mc c then rest else (false, e)

  unfoldable pub is_match_char : Bool → MetaChar → Matcher → Range → Matcher
  is_match_char true mc here r text end = try_up r mc here 0 text end
  is_match_char false mc here r text end = try_down r here text (run_length mc text) end

  abbrev pub match_one : MetaChar → Matcher → List ℕ → ℕ → Bool × ℕ
  match_one mc here [] end = (false, end)
  match_one mc here (c ∷ cs) end = if contains mc c then here cs (end + 1) else (false, end)

  -- The branches of `is_match_here`; `here` is its recursive call.
  abbrev pub match_front : (List ℕ → Matcher) → Front → Matcher
  match_front here nothing text end = (true, end)
  match_front here text_end text end = (is_empty text, end)
  match_front here (one mc rest) text end = match_one mc (here rest) text end
  match_front here (repeat r lazy mc rest) text end = is_match_char lazy mc (here rest) r text end

  -- `is_match_here`, with fuel for the characters of the expression.
  unfoldable pub match_here : ℕ → List ℕ → Matcher
  match_here zero re text end = (true, end)
  match_here (suc fuel) re text end = match_front (match_here fuel) (front re) text end

  unfoldable pub is_match_here : List ℕ → Matcher
  is_match_here re = match_here (length re) re

  -- The loop of `is_match` over the start positions.
  unfoldable pub match_from : List ℕ → ℕ → List ℕ → Option (ℕ × ℕ)
  match_from re i [] = let (hit, e) = is_match_here re [] i in if hit then some (i, e) else none
  match_from re i (c ∷ cs) =
      let (hit, e) = is_match_here re (c ∷ cs) i in
      let rest = match_from re (i + 1) cs in if hit then some (i, e) else rest

  -- `is_match`, with `start` and `end` as its result.
  unfoldable pub search_match : List ℕ → List ℕ → Option (ℕ × ℕ)
  search_match [] text = some (0, 0)
  search_match (c ∷ re) text =
      if c == b'^'
      then (let (hit, e) = is_match_here re text 1 in if hit then some (0, e) else none)
      else match_from (c ∷ re) 0 text

  -- `Regex::find`
  unfoldable pub find : List ℕ → List ℕ → Option (ℕ × ℕ)
  find re text = search_match re text

  -- `Regex::is_match`
  unfoldable pub is_match : List ℕ → List ℕ → Bool
  is_match re text = elim (find re text) [ some _ ↦ true | none ↦ false ]
