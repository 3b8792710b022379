-- ===== src/Regex/Find.antt =====
-- src/api/regex.rs: the position that `find` returns.
use moros.Prelude.{
  ℕ, zero, suc, ◌+◌, ◌≤◌, ◌<◌, ◌≡◌, ◌≢◌, refl, inl, inr, false, Option, none, some, List, [], ◌∷◌,
  arith, length, drop, ◌⊎◌, Bool-cases, ◌==◌,
}
use moros.Regex.{CharClasses, is_match_here, match_from, search_match, find}
use moros.Regex.Laws.{Matches, is_match_here-Decides}

module _ ⦃classes : CharClasses⦄ where
  -- The first position from which the text matches, counted from `i`.
  abbrev pub Leftmost : List ℕ → ℕ → List ℕ → Option (ℕ × ℕ) → Type 0
  Leftmost re i t none = (m : ℕ) → m ≤ length t → ¬ Matches re (drop m t)
  Leftmost re i t (some (s, e)) =
      (n : ℕ) × (s ≡ i + n)
      × (n ≤ length t)
      × Matches re (drop n t)
      × ((m : ℕ) → m < n → ¬ Matches re (drop m t))

  -- An anchored expression matches at the start or not at all.
  abbrev pub Anchored : List ℕ → List ℕ → Option (ℕ × ℕ) → Type 0
  Anchored re t none = ¬ Matches re t
  Anchored re t (some (s, e)) = (s ≡ 0) × Matches re t

  abbrev pub Located : List ℕ → List ℕ → Option (ℕ × ℕ) → Type 0
  Located [] t r = r ≡ some (0, 0)
  Located (c ∷ re) t r = ((c ≡ b'^') × Anchored re t r) ⊎ ((c ≢ b'^') × Leftmost (c ∷ re) 0 t r)

  refuted : (re t : List ℕ) (i : ℕ) → (is_match_here re t i).0 ≡ false → ¬ Matches re t
  refuted re t i h m = cc (h, (is_match_here-Decides re).complete t i m)

  later :
      (re : List ℕ) (i c : ℕ) (cs : List ℕ) (r : Option (ℕ × ℕ))
      → ¬ Matches re (c ∷ cs)
      → Leftmost re (i + 1) cs r
      → Leftmost re i (c ∷ cs) r
  later re i c cs none unmatched all = λ m. go m
    where
      go : (m : ℕ) → m ≤ suc (length cs) → ¬ Matches re (drop m (c ∷ cs))
      go zero l = unmatched
      go (suc m) l = all m (omega arith)
  later re i c cs (some (s, e)) unmatched (n, eq, l, m, first) =
      (suc n, omega arith, omega arith, m, go)
    where
      go : (k : ℕ) → k < suc n → ¬ Matches re (drop k (c ∷ cs))
      go zero l = unmatched
      go (suc k) l = first k (omega arith)

  match_from-Leftmost : (re : List ℕ) (i : ℕ) (t : List ℕ) → Leftmost re i t (match_from re i t)
  unfolding match_from
  match_from-Leftmost re i [] = elim (Bool-cases (is_match_here re [] i).0) [
    | inl h ↦ rw h (
      0,
      omega arith,
      omega arith,
      (is_match_here-Decides re).sound [] i h,
      λ m l. absurd (omega arith),
    )
    | inr h ↦ rw h (only (refuted re [] i h))
  ]
    where
      only : ¬ Matches re [] → (m : ℕ) → m ≤ 0 → ¬ Matches re (drop m [])
      only unmatched zero l = unmatched
      only unmatched (suc m) l = absurd (omega arith)
  match_from-Leftmost re i (c ∷ cs) = elim (Bool-cases (is_match_here re (c ∷ cs) i).0) [
    | inl h ↦ rw h (
      0,
      omega arith,
      omega arith,
      (is_match_here-Decides re).sound (c ∷ cs) i h,
      λ m l. absurd (omega arith),
    )
    | inr h ↦ rw h (later re i c cs _ (refuted re (c ∷ cs) i h) (match_from-Leftmost re (i + 1) cs))
  ]

  -- `find` returns the leftmost position at which the expression matches, or that there is none; an
  -- expression that begins with `^` is matched at the start alone, and an empty one at once.
  pub find_lem : (re t : List ℕ) → Located re t (find re t)
  unfolding find search_match
  find_lem [] t = refl
  find_lem (c ∷ re) t = elim (Bool-cases (c == b'^')) [
    | inl e ↦ inl (
      ground arith,
      rw e (elim (Bool-cases (is_match_here re t 1).0) [
        | inl h ↦ rw h (refl, (is_match_here-Decides re).sound t 1 h)
        | inr h ↦ rw h (refuted re t 1 h)
      ]),
    )
    | inr e ↦ inr ((λ p. ground arith), rw e (match_from-Leftmost (c ∷ re) 0 t))
  ]
