-- ===== src/Regex/Laws.antt =====
-- src/api/regex.rs: the language of an expression, and the matcher.
use moros.Prelude.{
  ℕ, zero, suc, ◌+◌, ◌≤◌, ◌<◌, ◌≡◌, refl, ap, subst, inl, inr, Bool, true, false, ◌&&◌, List, [],
  ◌∷◌, arith, length, drop, Bool-cases, dec_eq,
}
use moros.Regex.{
  CharClasses, MetaChar, contains, Range, in_range, Front, nothing, text_end, one, repeat, front,
  Matcher, run_length, try_down, try_up, is_match_char, match_front, match_one, is_empty,
  match_here, is_match_here,
}

and_left : (a b : Bool) → a && b ≡ true → a ≡ true
and_left a b h = ground arith

and_right : (a b : Bool) → a && b ≡ true → b ≡ true
and_right a b h = ground arith

module _ ⦃classes : CharClasses⦄ where
  -- The text begins with `n` characters of a class.
  abbrev pub Repeats : MetaChar → ℕ → List ℕ → Type 0
  Repeats mc zero t = Unit
  Repeats mc (suc n) [] = ⊥
  Repeats mc (suc n) (c ∷ cs) = (contains mc c ≡ true) × Repeats mc n cs

  -- The language of an expression: a prefix of the text matches it.
  pub data Matches : List ℕ → List ℕ → Type 0 where
    at_nothing : {re t : List ℕ} → front re ≡ nothing → Matches re t
    at_end : {re t : List ℕ} → front re ≡ text_end → t ≡ [] → Matches re t
    at_one :
        {re t : List ℕ} (mc : MetaChar) (rest : List ℕ) (c : ℕ) (cs : List ℕ)
        → front re ≡ one mc rest
        → t ≡ c ∷ cs
        → contains mc c ≡ true
        → Matches rest cs
        → Matches re t
    at_repeat :
        {re t : List ℕ} (r : Range) (lazy : Bool) (mc : MetaChar) (rest : List ℕ) (n : ℕ)
        → front re ≡ repeat r lazy mc rest
        → in_range r n ≡ true
        → Repeats mc n t
        → Matches rest (drop n t)
        → Matches re t

  -- A matcher decides a predicate on texts, for every value of `end`.
  pub record Decides (here : Matcher) (P : List ℕ → Type 0) : Type 0 where
    pub sound : (t : List ℕ) (e : ℕ) → (here t e).0 ≡ true → P t
    pub complete : (t : List ℕ) (e : ℕ) → P t → (here t e).0 ≡ true

  Repeats-le : (mc : MetaChar) (n : ℕ) (t : List ℕ) → Repeats mc n t → n ≤ run_length mc t
  unfolding run_length
  Repeats-le mc zero t h = omega arith
  Repeats-le mc (suc n) [] h = absurd h
  Repeats-le mc (suc n) (c ∷ cs) h = rw h.0 (omega (arith, Repeats-le mc n cs h.1))

  le-Repeats : (mc : MetaChar) (n : ℕ) (t : List ℕ) → n ≤ run_length mc t → Repeats mc n t
  unfolding run_length
  le-Repeats mc zero t h = tt
  le-Repeats mc (suc n) [] h = absurd (omega arith)
  le-Repeats mc (suc n) (c ∷ cs) h = elim (Bool-cases (contains mc c)) [
    | inl e ↦ (e, le-Repeats mc n cs (ground arith))
    | inr e ↦ absurd (ground arith)
  ]

  module _ (r : Range) where
    range_at : (m i n : ℕ) → m ≡ i + n → in_range r m ≡ true → in_range r (i + n) ≡ true
    range_at m i n e h = subst (λ t. in_range r t ≡ true) e h

    range_to : (i n m : ℕ) → i + n ≡ m → in_range r (i + n) ≡ true → in_range r m ≡ true
    range_to i n m e h = subst (λ t. in_range r t ≡ true) e h

  module _ (here : Matcher) (P : List ℕ → Type 0) (d : Decides here P) (r : Range) where
    down_sound :
        (text : List ℕ) (i e : ℕ)
        → (try_down r here text i e).0 ≡ true
        → (n : ℕ) × (n ≤ i) × (in_range r n ≡ true) × P (drop n text)
    unfolding try_down
    down_sound text zero e h = elim (Bool-cases ((here text e).0 && in_range r 0)) [
      | inl q ↦ (0, omega arith, and_right _ _ q, d.sound text e (and_left _ _ q))
      | inr q ↦ absurd (ground arith)
    ]
    down_sound text (suc i) e h =
        elim (Bool-cases ((here (drop (suc i) text) e).0 && in_range r (suc i))) [
          | inl q ↦
              (suc i, omega arith, and_right _ _ q, d.sound (drop (suc i) text) e (and_left _ _ q))
          | inr q ↦
              let (n, l, k, p) =
                down_sound text i (here (drop (suc i) text) e).1 (ground (arith, q)) in
              (n, omega arith, k, p)
        ]

    down_complete :
        (text : List ℕ) (i e n : ℕ)
        → n ≤ i
        → in_range r n ≡ true
        → P (drop n text)
        → (try_down r here text i e).0 ≡ true
    unfolding try_down
    down_complete text zero e zero l k p = rw (d.complete text e p, k)
    down_complete text zero e (suc n) l k p = absurd (omega arith)
    down_complete text (suc i) e n l k p =
        elim (Bool-cases ((here (drop (suc i) text) e).0 && in_range r (suc i))) [
          | inl q ↦ rw q
          | inr q ↦ rw q (
              down_complete text i (here (drop (suc i) text) e).1 n
                (elim (dec_eq n (suc i)) [
                  | inr ne ↦ omega arith
                  | inl same ↦
                      let hit =
                        d.complete (drop (suc i) text) e (subst (λ m. P (drop m text)) same p) in
                      let ok = subst (λ m. in_range r m ≡ true) same k in
                      absurd (ground (arith, hit, ok))
                ])
                k p)
        ]

    module _ (mc : MetaChar) where
      up_sound :
          (i : ℕ) (t : List ℕ) (e : ℕ)
          → (try_up r mc here i t e).0 ≡ true
          → (n : ℕ) × (in_range r (i + n) ≡ true) × Repeats mc n t × P (drop n t)
      unfolding try_up
      up_sound i [] e h = elim (Bool-cases ((here [] e).0 && in_range r i)) [
        | inl q ↦
            (0, range_at r i i 0 (omega arith) (and_right _ _ q), tt, d.sound [] e (and_left _ _ q))
        | inr q ↦ absurd (ground arith)
      ]
      up_sound i (c ∷ cs) e h = elim (Bool-cases ((here (c ∷ cs) e).0 && in_range r i)) [
        | inl q ↦ (
          0,
          range_at r i i 0 (omega arith) (and_right _ _ q),
          tt,
          d.sound (c ∷ cs) e (and_left _ _ q),
        )
        | inr q ↦ elim (Bool-cases (contains mc c)) [
          | inl m ↦
              let (n, k, rep, p) = up_sound (i + 1) cs (here (c ∷ cs) e).1 (ground (arith, q, m)) in
              (suc n, range_at r (i + 1 + n) i (suc n) (omega arith) k, (m, rep), p)
          | inr m ↦ absurd (ground (arith, q, m))
        ]
      ]

      up_complete :
          (i : ℕ) (t : List ℕ) (e n : ℕ)
          → in_range r (i + n) ≡ true
          → Repeats mc n t
          → P (drop n t)
          → (try_up r mc here i t e).0 ≡ true
      unfolding try_up
      up_complete i [] e zero k rep p = rw (d.complete [] e p, range_to r i 0 i (omega arith) k)
      up_complete i [] e (suc n) k rep p = absurd rep
      up_complete i (c ∷ cs) e zero k rep p =
          rw (d.complete (c ∷ cs) e p, range_to r i 0 i (omega arith) k)
      up_complete i (c ∷ cs) e (suc n) k rep p =
          elim (Bool-cases ((here (c ∷ cs) e).0 && in_range r i)) [
            | inl q ↦ rw q
            | inr q ↦
                rw (q, rep.0)
                  (up_complete (i + 1) cs (here (c ∷ cs) e).1 n
                    (range_to r i (suc n) (i + 1 + n) (omega arith) k) rep.1 p)
          ]

  -- What a repeated character matches.
  abbrev Run : Range → MetaChar → (List ℕ → Type 0) → List ℕ → Type 0
  Run r mc P t = (n : ℕ) × (in_range r n ≡ true) × Repeats mc n t × P (drop n t)

  is_match_char-Decides :
      (lazy : Bool) (mc : MetaChar) (here : Matcher) (r : Range) (P : List ℕ → Type 0)
      → Decides here P
      → Decides (is_match_char lazy mc here r) (Run r mc P)
  unfolding is_match_char
  is_match_char-Decides true mc here r P d = record {
    sound = λ t e h.
        let (n, k, rep, p) = up_sound here P d r mc 0 t e h in
        (n, range_to r 0 n n (omega arith) k, rep, p);
    complete = λ t e (n, k, rep, p).
        up_complete here P d r mc 0 t e n (range_at r n 0 n (omega arith) k) rep p;
  }
  is_match_char-Decides false mc here r P d = record {
    sound = λ t e h.
        let (n, l, k, p) = down_sound here P d r t (run_length mc t) e h in
        (n, k, le-Repeats mc n t l, p);
    complete = λ t e (n, k, rep, p).
        down_complete here P d r t (run_length mc t) e n (Repeats-le mc n t rep) k p;
  }

  -- Each step leaves a shorter expression.
  is_empty-nil : (t : List ℕ) → is_empty t ≡ true → t ≡ []
  is_empty-nil [] h = refl
  is_empty-nil (c ∷ cs) h = cc

  front-one :
      (re : List ℕ) (mc : MetaChar) (rest : List ℕ)
      → front re ≡ one mc rest
      → length rest < length re
  unfolding front
  front-one [] mc rest h = cc
  front-one (c ∷ []) mc rest h = ground arith
  front-one (c ∷ d ∷ []) mc rest h = ground arith
  front-one (c ∷ d ∷ e ∷ []) mc rest h = ground arith
  front-one (c ∷ d ∷ e ∷ g ∷ re) mc rest h = ground arith

  front-repeat :
      (re : List ℕ) (r : Range) (lazy : Bool) (mc : MetaChar) (rest : List ℕ)
      → front re ≡ repeat r lazy mc rest
      → length rest < length re
  unfolding front
  front-repeat [] r lazy mc rest h = cc
  front-repeat (c ∷ []) r lazy mc rest h = ground arith
  front-repeat (c ∷ d ∷ []) r lazy mc rest h = ground arith
  front-repeat (c ∷ d ∷ e ∷ []) r lazy mc rest h = ground arith
  front-repeat (c ∷ d ∷ e ∷ g ∷ re) r lazy mc rest h = ground arith

  Matches-text_end : {re t : List ℕ} → Matches re t → front re ≡ text_end → t ≡ []
  Matches-text_end (at_nothing p) q = cc (p, q)
  Matches-text_end (at_end p e) q = e
  Matches-text_end (at_one mc rest c cs p e k m) q = cc (p, q)
  Matches-text_end (at_repeat r lazy mc rest n p k rep m) q = cc (p, q)

  Matches-one :
      {re t : List ℕ}
      → Matches re t
      → (mc : MetaChar) (rest : List ℕ) → front re ≡ one mc rest
      → (c : ℕ) × (cs : List ℕ) × (t ≡ c ∷ cs) × (contains mc c ≡ true) × Matches rest cs
  Matches-one (at_nothing p) mc rest q = cc (p, q)
  Matches-one (at_end p e) mc rest q = cc (p, q)
  Matches-one (at_one mc' rest' c cs p e k m) mc rest q =
      let same : mc' ≡ mc = cc (p, q) in
      let tail : rest' ≡ rest = cc (p, q) in
      (c, cs, e, subst (λ x. contains x c ≡ true) same k, subst (λ x. Matches x cs) tail m)
  Matches-one (at_repeat r lazy mc' rest' n p k rep m) mc rest q = cc (p, q)

  Matches-repeat :
      {re t : List ℕ}
      → Matches re t
      → (r : Range) (lazy : Bool) (mc : MetaChar) (rest : List ℕ) → front re ≡ repeat r lazy mc rest
      → Run r mc (Matches rest) t
  Matches-repeat (at_nothing p) r lazy mc rest q = cc (p, q)
  Matches-repeat (at_end p e) r lazy mc rest q = cc (p, q)
  Matches-repeat (at_one mc' rest' c cs p e k m) r lazy mc rest q = cc (p, q)
  Matches-repeat {t} (at_repeat r' lazy' mc' rest' n p k rep m) r lazy mc rest q =
      let range : r' ≡ r = cc (p, q) in
      let same : mc' ≡ mc = cc (p, q) in
      let tail : rest' ≡ rest = cc (p, q) in
      (
        n,
        subst (λ x. in_range x n ≡ true) range k,
        subst (λ x. Repeats x n t) same rep,
        subst (λ x. Matches x (drop n t)) tail m,
      )

  match_one_sound :
      (mc : MetaChar) (here : Matcher) (re rest t : List ℕ) (e : ℕ)
      → front re ≡ one mc rest
      → Decides here (Matches rest)
      → (match_one mc here t e).0 ≡ true
      → Matches re t
  match_one_sound mc here re rest [] e q d h = cc
  match_one_sound mc here re rest (c ∷ cs) e q d h = elim (Bool-cases (contains mc c)) [
    | inl k ↦ at_one mc rest c cs q refl k (d.sound cs (e + 1) (ground arith))
    | inr k ↦ absurd (ground arith)
  ]

  match_one_complete :
      (mc : MetaChar) (here : Matcher) (rest cs : List ℕ) (c e : ℕ)
      → Decides here (Matches rest)
      → contains mc c ≡ true
      → Matches rest cs
      → (match_one mc here (c ∷ cs) e).0 ≡ true
  match_one_complete mc here rest cs c e d k m = rw k (d.complete cs (e + 1) m)

  front-nil : front [] ≡ nothing
  unfolding front
  front-nil = refl

  match_here-Decides :
      (fuel : ℕ) (re : List ℕ) → length re ≤ fuel → Decides (match_here fuel re) (Matches re)
  unfolding match_here
  match_here-Decides zero [] l = record {
    sound = λ t e h. at_nothing front-nil;
    complete = λ t e m. refl;
  }
  match_here-Decides zero (c ∷ re) l = absurd (omega arith)
  match_here-Decides (suc fuel) re l = go (front re) refl (match_here-Decides fuel)
    where
      go :
          (f : Front)
          → front re ≡ f
          → ((rest : List ℕ) → length rest ≤ fuel → Decides (match_here fuel rest) (Matches rest))
          → Decides (match_front (match_here fuel) f) (Matches re)
      go nothing q ih = record { sound = λ t e h. at_nothing q; complete = λ t e m. refl }
      go text_end q ih = record {
        sound = λ t e h. at_end q (is_empty-nil t h);
        complete = λ t e m. ap is_empty (Matches-text_end m q);
      }
      go (one mc rest) q ih =
          let d = ih rest (omega (arith, front-one re mc rest q)) in
          record {
            sound = λ t e h. match_one_sound mc (match_here fuel rest) re rest t e q d h;
            complete = λ t e m.
                let (c, cs, eq, k, m') = Matches-one m mc rest q in
                rw eq (match_one_complete mc (match_here fuel rest) rest cs c e d k m');
          }
      go (repeat r lazy mc rest) q ih =
          let d =
            is_match_char-Decides lazy mc (match_here fuel rest) r (Matches rest)
              (ih rest (omega (arith, front-repeat re r lazy mc rest q))) in
          record {
            sound =
                λ t e h. let (n, k, rep, m) = d.sound t e h in at_repeat r lazy mc rest n q k rep m;
            complete = λ t e m. d.complete t e (Matches-repeat m r lazy mc rest q);
          }

  -- The boolean result of `is_match_here` decides the language of the expression, whatever `end` it
  -- is given: it is true exactly if a prefix of the text matches.
  pub is_match_here-Decides : (re : List ℕ) → Decides (is_match_here re) (Matches re)
  unfolding is_match_here
  is_match_here-Decides re = match_here-Decides (length re) re (omega arith)
