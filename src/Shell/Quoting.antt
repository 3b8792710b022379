-- ===== src/Shell/Quoting.antt =====
-- A quoted argument of src/usr/shell.rs is read back as it was, whatever it holds.
use moros.Prelude.{
  ℕ, ◌-◌, ◌<◌, ◌≡◌, ◌≢◌, refl, sym, ap, ◌∙◌, inl, inr, Bool, true, false, ◌&&◌, ◌||◌, List, [], ◌∷◌,
  ◌++◌, map, arith, append_assoc, append-nil, length, length-append, take, take-length-append,
  last?-append, ltb, ◌==◌, ==_iff, if◌then◌else◌, Bool-cases, All,
}
use moros.Run.{ok}
use moros.Regex.{CharClasses}
use moros.Shell.{
  Text, Surroundings, parse_from, parse_str, is_blank, Splitting, end_word, split_loop, last_word,
  tilde_expansion, nothing_read, split_args,
}

-- A backslash in front of each character that the shell would read.
abbrev pub escape : Text → Text
escape [] = []
escape (c ∷ cs) = (if c == b'\\' || c == b'"' then b'\\' ∷ c ∷ [] else c ∷ []) ++ escape cs

abbrev pub quote : Text → Text
quote s = b'"' ∷ escape s ++ b'"' ∷ []

-- A character that stands for itself.
pub record IsPlain (c : ℕ) : Type 0 where
  pub not_space : (c == b' ') ≡ false
  pub not_comment : (c == b'#') ≡ false
  pub not_quote : (c == b'"') ≡ false
  pub not_escape : (c == b'\\') ≡ false

-- Arguments, each in quotes behind a space.
abbrev pub spaced : List Text → Text
spaced [] = []
spaced (s ∷ ss) = b' ' ∷ quote s ++ spaced ss

parse_from-escape : (s : Text) → parse_from false (escape s) ≡ s
unfolding parse_from
parse_from-escape [] = refl
parse_from-escape (c ∷ cs) = elim (Bool-cases (c == b'\\')) [
  | inl e ↦ let is : c ≡ b'\\' = (==_iff c b'\\').0 e in rw (is, parse_from-escape cs)
  | inr e ↦ elim (Bool-cases (c == b'"')) [
    | inl q ↦ let is : c ≡ b'"' = (==_iff c b'"').0 q in rw (is, parse_from-escape cs)
    | inr q ↦ rw (e, q) (rw (e, parse_from-escape cs))
  ]
]

pub parse_str-escape : (s : Text) → parse_str (escape s) ≡ s
unfolding parse_str
parse_str-escape s = parse_from-escape s

abbrev in_quotes : List Text → Text → Splitting
in_quotes args word = record { args = args; word = word; is_quote = true; is_escaped = false }

abbrev between : List Text → Text → Splitting
between args word = record { args = args; word = word; is_quote = false; is_escaped = false }

-- One character more, moved from the front of a text to the end of another.
shift : (w s rest : Text) (c : ℕ) → (w ++ c ∷ []) ++ (s ++ rest) ≡ w ++ (c ∷ s ++ rest)
shift w s rest c = append_assoc w (c ∷ []) (s ++ rest)

before_last : (u : Text) (c : ℕ) → take (length (u ++ c ∷ []) - 1) (u ++ c ∷ []) ≡ u
before_last u c =
    ap (λ n. take n (u ++ c ∷ []))
      (let e : length (u ++ c ∷ []) - 1 ≡ length u = omega (arith, length-append u (c ∷ [])) in e)
    ∙ take-length-append u (c ∷ [])

and_false : (b : Bool) → (b && false) ≡ false
and_false true = refl
and_false false = refl

and_true : (b : Bool) → (b && true) ≡ b
and_true true = refl
and_true false = refl

module _ ⦃f : CharClasses⦄ (sys : Surroundings) where
  step_plain :
      (c : ℕ) (rest w : Text) (args : List Text)
      → (c == b'\\') ≡ false
      → (c == b'"') ≡ false
      → split_loop sys (c ∷ rest) (in_quotes args w)
        ≡ split_loop sys rest (in_quotes args (w ++ c ∷ []))
  unfolding split_loop
  step_plain c rest w args e q = rw (and_false (c == b'#'), and_false (c == b' '), e, q)

  step_escaped :
      (c : ℕ) (rest w : Text) (args : List Text)
      → split_loop sys (c ∷ rest) (record (in_quotes args w) { is_escaped = true })
        ≡ split_loop sys rest (in_quotes args (w ++ c ∷ []))
  unfolding split_loop
  step_escaped c rest w args =
      rw (
        and_false (c == b'#'),
        and_false (c == b' '),
        and_false (c == b'"'),
        and_false (c == b'\\'),
      )

  step_backslash :
      (rest w : Text) (args : List Text)
      → split_loop sys (b'\\' ∷ rest) (in_quotes args w)
        ≡ split_loop sys rest (record (in_quotes args (w ++ b'\\' ∷ [])) { is_escaped = true })
  unfolding split_loop
  step_backslash rest w args = refl

  -- The characters of a quoted text up to its end.
  loop_quoted :
      (s w rest : Text) (args : List Text)
      → split_loop sys (escape s ++ rest) (in_quotes args w)
        ≡ split_loop sys rest (in_quotes args (w ++ escape s))
  loop_quoted [] w rest args = ap (λ t. split_loop sys rest (in_quotes args t)) (sym (append-nil w))
  loop_quoted (c ∷ cs) w rest args = elim (Bool-cases (c == b'\\' || c == b'"')) [
    | inl e ↦ rw e (
        step_backslash (c ∷ escape cs ++ rest) w args
        ∙ step_escaped c (escape cs ++ rest) (w ++ b'\\' ∷ []) args
        ∙ loop_quoted cs ((w ++ b'\\' ∷ []) ++ c ∷ []) rest args
        ∙ ap (λ t. split_loop sys rest (in_quotes args t))
            (append_assoc (w ++ b'\\' ∷ []) (c ∷ []) (escape cs)
              ∙ append_assoc w (b'\\' ∷ []) (c ∷ escape cs)))
    | inr e ↦ rw e (
        step_plain c (escape cs ++ rest) w args (ground arith) (ground arith)
        ∙ loop_quoted cs (w ++ c ∷ []) rest args
        ∙ ap (λ t. split_loop sys rest (in_quotes args t)) (append_assoc w (c ∷ []) (escape cs)))
  ]

  step_open :
      (rest w : Text) (args : List Text)
      → split_loop sys (b'"' ∷ rest) (between args w) ≡ split_loop sys rest (in_quotes args [])
  unfolding split_loop
  step_open rest w args = refl

  step_close :
      (rest w : Text) (args : List Text)
      → split_loop sys (b'"' ∷ rest) (in_quotes args w)
        ≡ split_loop sys rest (between (args ++ parse_str w ∷ []) [])
  unfolding split_loop
  step_close rest w args = refl

  -- A quoted argument, from its first quote to its last; what stood in front of it is dropped.
  pub loop-quote :
      (s w rest : Text) (args : List Text)
      → split_loop sys (quote s ++ rest) (between args w)
        ≡ split_loop sys rest (between (args ++ s ∷ []) [])
  loop-quote s w rest args =
      step_open ((escape s ++ b'"' ∷ []) ++ rest) w args
      ∙ ap (λ t. split_loop sys t (in_quotes args [])) (append_assoc (escape s) (b'"' ∷ []) rest)
      ∙ loop_quoted s [] (b'"' ∷ rest) args
      ∙ step_close rest (escape s) args
      ∙ ap (λ t. split_loop sys rest (between (args ++ t ∷ []) [])) (parse_str-escape s)

  -- Plain characters are added to the word.
  loop_plain :
      (t w rest : Text) (args : List Text)
      → All IsPlain t
      → split_loop sys (t ++ rest) (between args w) ≡ split_loop sys rest (between args (w ++ t))
  unfolding split_loop
  loop_plain [] w rest args h = ap (λ t. split_loop sys rest (between args t)) (sym (append-nil w))
  loop_plain (c ∷ cs) w rest args h =
      let p = h.0 in
      rw (p.not_comment, p.not_space, p.not_quote, p.not_escape)
        (loop_plain cs (w ++ c ∷ []) rest args h.1
          ∙ ap (λ t. split_loop sys rest (between args t)) (append_assoc w (c ∷ []) cs))

  step_space :
      (rest w : Text) (args : List Text)
      → split_loop sys (b' ' ∷ rest) (between args w)
        ≡ split_loop sys rest (between (end_word sys args w) [])
  unfolding split_loop
  step_space rest w args = refl

  nothing_left : (args : List Text) (w : Text) → split_loop sys [] (between args w) ≡ between args w
  unfolding split_loop
  nothing_left args w = refl

  blank_word : (args : List Text) → end_word sys args [] ≡ args
  unfolding is_blank
  blank_word args = refl

  loop_spaced :
      (ss args : List Text) → split_loop sys (spaced ss) (between args []) ≡ between (args ++ ss) []
  loop_spaced [] args = nothing_left args [] ∙ ap (λ t. between t []) (sym (append-nil args))
  loop_spaced (s ∷ ss) args =
      step_space (quote s ++ spaced ss) [] args
      ∙ ap (λ t. split_loop sys (quote s ++ spaced ss) (between t [])) (blank_word args)
      ∙ loop-quote s [] (spaced ss) args
      ∙ loop_spaced ss (args ++ s ∷ [])
      ∙ ap (λ t. between t []) (append_assoc args (s ∷ []) ss)

  nil-blank : is_blank [] ≢ false
  unfolding is_blank
  nil-blank e = cc

  -- The name of a program is the first argument.
  first_word : (name : Text) → is_blank name ≡ false → end_word sys [] name ≡ name ∷ []
  first_word name word = rw word

  loop_command :
      (name s : Text) (ss : List Text)
      → All IsPlain name
      → is_blank name ≡ false
      → split_loop sys (name ++ spaced (s ∷ ss)) nothing_read ≡ between (name ∷ s ∷ ss) []
  loop_command name s ss plain word =
      loop_plain name [] (spaced (s ∷ ss)) [] plain
      ∙ step_space (quote s ++ spaced ss) name []
      ∙ ap (λ t. split_loop sys (quote s ++ spaced ss) (between t [])) (first_word name word)
      ∙ loop-quote s [] (spaced ss) (name ∷ [])
      ∙ loop_spaced ss (name ∷ s ∷ [])

  loop_name :
      (name : Text) → All IsPlain name → split_loop sys (name ++ []) nothing_read ≡ between [] name
  loop_name name plain = loop_plain name [] [] [] plain ∙ nothing_left [] name

  -- A command of a plain name, with no space, quote, backslash or comment sign and not blank, and
  -- arguments that are each put in quotes, with a backslash before each quote and backslash, is
  -- split into the name and the arguments as they were, up to the expansion of `~`.
  pub split_args-quote :
      (name : Text) (args : List Text)
      → All IsPlain name
      → is_blank name ≡ false
      → split_args sys (name ++ spaced args) ≡ ok (map (tilde_expansion sys.home) (name ∷ args))
  unfolding split_args
  split_args-quote [] args plain word = absurd (nil-blank word)
  split_args-quote (c ∷ cs) [] plain word = rw (loop_name (c ∷ cs) plain, plain.0.not_comment)
  split_args-quote (c ∷ cs) (s ∷ ss) plain word =
      rw (loop_command (c ∷ cs) s ss plain word, plain.0.not_comment)

  end_in_quotes :
      (args : List Text) (w : Text) → split_loop sys [] (in_quotes args w) ≡ in_quotes args w
  unfolding split_loop
  end_in_quotes args w = refl

  -- The text of a quote that is not closed, without its last character.
  last_word_quoted :
      (u : Text) (c : ℕ) (args : List Text)
      → c < 0x80
      → last_word sys (in_quotes args (u ++ c ∷ [])) (u ++ c ∷ []) ≡ ok (args ++ u ∷ [])
  last_word_quoted [] c args h = let one : ltb c 0x80 ≡ true = ground arith in rw one
  last_word_quoted (d ∷ ds) c args h =
      let one : ltb c 0x80 ≡ true = ground arith in
      rw (last?-append (d ∷ ds) c, one, before_last (d ∷ ds) c)

  -- In a command of a plain name and one quote that is not closed, a last character of the quote
  -- that is plain and ASCII is dropped from the argument, and its escapes stay as they are.
  pub split_args-unclosed :
      (name t : Text) (c : ℕ)
      → All IsPlain name
      → is_blank name ≡ false
      → IsPlain c
      → c < 0x80
      → split_args sys (name ++ (b' ' ∷ b'"' ∷ escape t ++ c ∷ []))
        ≡ ok (map (tilde_expansion sys.home) (name ∷ escape t ∷ []))
  unfolding split_args
  split_args-unclosed [] t c plain word last h = absurd (nil-blank word)
  split_args-unclosed (n ∷ ns) t c plain word last h =
      let name = n ∷ ns in
      let loop =
        loop_plain name [] (b' ' ∷ b'"' ∷ escape t ++ c ∷ []) [] plain
        ∙ step_space (b'"' ∷ escape t ++ c ∷ []) name []
        ∙ ap (λ a. split_loop sys (b'"' ∷ escape t ++ c ∷ []) (between a [])) (first_word name word)
        ∙ step_open (escape t ++ c ∷ []) [] (name ∷ [])
        ∙ loop_quoted t [] (c ∷ []) (name ∷ [])
        ∙ step_plain c [] (escape t) (name ∷ []) last.not_escape last.not_quote
        ∙ end_in_quotes (name ∷ []) (escape t ++ c ∷ []) in
      rw (loop, last_word_quoted (escape t) c (name ∷ []) h, plain.0.not_comment)

  -- What stands right in front of a quote is lost.
  pub split_args-prefix :
      (name w s : Text)
      → All IsPlain name
      → is_blank name ≡ false
      → All IsPlain w
      → split_args sys (name ++ (b' ' ∷ w ++ quote s))
        ≡ ok (map (tilde_expansion sys.home) (name ∷ s ∷ []))
  unfolding split_args
  split_args-prefix [] w s plain word more = absurd (nil-blank word)
  split_args-prefix (n ∷ ns) w s plain word more =
      let name = n ∷ ns in
      let loop =
        loop_plain name [] (b' ' ∷ w ++ quote s) [] plain
        ∙ step_space (w ++ quote s) name []
        ∙ ap (λ a. split_loop sys (w ++ quote s) (between a [])) (first_word name word)
        ∙ loop_plain w [] (quote s) (name ∷ []) more
        ∙ ap (λ t. split_loop sys t (between (name ∷ []) w)) (sym (append-nil (quote s)))
        ∙ loop-quote s w [] (name ∷ [])
        ∙ nothing_left (name ∷ s ∷ []) [] in
      rw (loop, plain.0.not_comment)
