-- ===== src/Regex/Ends.antt =====
-- src/api/regex.rs: the variable `end`, and the end that `find` returns.
use moros.Prelude.{
  ℕ, zero, suc, ◌+◌, ◌≡◌, refl, ◌∙◌, ap, inl, inr, Bool, true, false, some, List, [], ◌∷◌, arith,
  length, drop, Bool-cases,
}
use moros.Regex.{
  CharClasses, MetaChar, contains, Range, Front, nothing, text_end, one, repeat, front, Matcher,
  run_length, try_down, try_up, is_match_char, match_front, match_one, match_here, is_match_here,
  search_match, find,
}

-- One more at the start is one more at the end.
abbrev up : Bool × ℕ → Bool × ℕ
up (b, e) = (b, suc e)

abbrev Shifts : Matcher → Type 0
Shifts here = (t : List ℕ) (e : ℕ) → here t (suc e) ≡ up (here t e)

module _ ⦃classes : CharClasses⦄ (here : Matcher) (s : Shifts here) (r : Range) where
  down-Shifts :
      (i : ℕ) (t : List ℕ) (e : ℕ) → try_down r here t i (suc e) ≡ up (try_down r here t i e)
  unfolding try_down
  down-Shifts zero t e = rw s (ground arith)
  down-Shifts (suc i) t e =
      rw (s (drop (suc i) t) e) (ground (arith, down-Shifts i t (here (drop (suc i) t) e).1))

  up-Shifts :
      (mc : MetaChar) (i : ℕ) (t : List ℕ) (e : ℕ)
      → try_up r mc here i t (suc e) ≡ up (try_up r mc here i t e)
  unfolding try_up
  up-Shifts mc i [] e = rw s (ground arith)
  up-Shifts mc i (c ∷ cs) e =
      rw (s (c ∷ cs) e) (ground (arith, up-Shifts mc (i + 1) cs (here (c ∷ cs) e).1))

  char-Shifts : (lazy : Bool) (mc : MetaChar) → Shifts (is_match_char lazy mc here r)
  unfolding is_match_char
  char-Shifts true mc t e = up-Shifts mc 0 t e
  char-Shifts false mc t e = down-Shifts (run_length mc t) t e

module _ ⦃classes : CharClasses⦄ where
  one-Shifts : (mc : MetaChar) (here : Matcher) → Shifts here → Shifts (match_one mc here)
  one-Shifts mc here s [] e = refl
  one-Shifts mc here s (c ∷ cs) e = elim (Bool-cases (contains mc c)) [
    | inl k ↦
        rw k (ap (here cs) (let p : suc e + 1 ≡ suc (e + 1) = omega arith in p) ∙ s cs (e + 1))
    | inr k ↦ rw k
  ]

  here-Shifts : (fuel : ℕ) (re : List ℕ) → Shifts (match_here fuel re)
  unfolding match_here
  here-Shifts zero re t e = refl
  here-Shifts (suc fuel) re t e = go (front re) (here-Shifts fuel)
    where
      go :
          (f : Front)
          → ((rest : List ℕ) → Shifts (match_here fuel rest))
          → match_front (match_here fuel) f t (suc e) ≡ up (match_front (match_here fuel) f t e)
      go nothing ih = refl
      go text_end ih = refl
      go (one mc rest) ih = one-Shifts mc (match_here fuel rest) (ih rest) t e
      go (repeat r lazy mc rest) ih = char-Shifts (match_here fuel rest) (ih rest) r lazy mc t e

  is_match_here-Shifts :
      (re t : List ℕ) (e : ℕ) → is_match_here re t (suc e) ≡ up (is_match_here re t e)
  unfolding is_match_here
  is_match_here-Shifts re t e = here-Shifts (length re) re t e

  -- Where `is_match_here` matches an expression from the start of the text up to `n`, `find` of `^`
  -- and the expression answers that the match ends at `n + 1`.
  pub find-anchored :
      (re t : List ℕ) (n : ℕ)
      → is_match_here re t 0 ≡ (true, n)
      → find (b'^' ∷ re) t ≡ some (0, n + 1)
  unfolding find search_match
  find-anchored re t n h =
      let s : is_match_here re t 1 ≡ (true, suc n) = is_match_here-Shifts re t 0 ∙ ap up h in
      rw s (ap (λ m. some (0, m)) (let e : suc n ≡ n + 1 = omega arith in e))
