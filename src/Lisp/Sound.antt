-- ===== src/Lisp/Sound.antt =====
-- What the rules of the Lisp derive is what `eval` of src/usr/lisp/eval.rs returns.
use moros.Prelude.{
  ℕ, zero, suc, ◌+◌, ◌≤◌, ◌≡◌, refl, ap, sym as flip, ◌∙◌, arith, Bool, true, false, ◌⊎◌, inl, inr,
  if◌then◌else◌,
}
use moros.Lisp.{Exp, Exps, list, nil, is_truthy}
use moros.Lisp.Env.{Heap}
use moros.Lisp.Eval.{
  Machine, Outcome, stuck, good, form, after, lift, assigned, otherwise, eval_args, eval_do,
  eval_while, eval_form,
}
use moros.Lisp.Fuel.{fuel-enough}
use moros.Lisp.Rules.{
  Evaluates, Does, Loops, EvaluatesAll, truth, numeral, string, lookup, quotation, lambda,
  definition, assignment, pairing, first, others, consequent, alternate, no_alternate, sequence,
  loop, call_primitive, call, done, next, ended, again, no_more, more,
}
use moros.Lisp.Run.{eval, expand}

module _ {N : Type 0} (m : Machine N) where
  -- From some fuel on, the run gives this.
  abbrev Settles : {A : Type 0} → (ℕ → Outcome N A) → A → Heap N → Type 0
  Settles r v h = (n : ℕ) × ((fuel : ℕ) → n ≤ fuel → r fuel ≡ good v h)

  -- A run that spends one fuel on its own call.
  spent :
      {A : Type 0} (r : ℕ → Outcome N A) (v : A) (h : Heap N) (n : ℕ)
      → ((fuel : ℕ) → n ≤ fuel → r (suc fuel) ≡ good v h)
      → Settles r v h
  spent r v h n all = (n + 1, at_least)
    where
      at_least : (fuel : ℕ) → n + 1 ≤ fuel → r fuel ≡ good v h
      at_least zero le = absurd (omega arith)
      at_least (suc fuel) le = all fuel (omega arith)

  after_good :
      {A B : Type 0} {o : Outcome N A} {v : A} {h : Heap N} (f : A → Heap N → Outcome N B)
      → o ≡ good v h
      → after o f ≡ f v h
  after_good f e = ap (λ o. after o f) e

  if_true : {A : Type 0} {b : Bool} (x y : A) → b ≡ true → (if b then x else y) ≡ x
  if_true x y e = rw e

  if_false : {A : Type 0} {b : Bool} (x y : A) → b ≡ false → (if b then x else y) ≡ y
  if_false x y e = rw e

  quote_nil :
      (fuel : ℕ) (a : ℕ) (h : Heap N)
      → 1 ≤ fuel
      → eval m fuel (otherwise nil) a h ≡ good (list nil) h
  unfolding eval form eval_form
  quote_nil zero a h le = absurd (omega arith)
  quote_nil (suc fuel) a h le = refl

  last_round :
      (fuel rounds a : ℕ) (h i : Heap N) (t w r : Exp N) (xs : Exps N)
      → 1 ≤ rounds
      → eval m fuel t a h ≡ good w i
      → is_truthy w ≡ false
      → eval_while m (eval m fuel) (expand m fuel) a rounds t xs r h ≡ good r i
  unfolding eval_while
  last_round fuel zero a h i t w r xs le e b = absurd (omega arith)
  last_round fuel (suc rest) a h i t w r xs le e b =
      after_good _ e ∙ ap (λ (p : Heap N → Outcome N (Exp N)). p i) (if_false _ _ b)

  round :
      (fuel rounds a : ℕ) (h i j : Heap N) (t w r r' v : Exp N) (xs : Exps N) (last : Heap N)
      (k : ℕ)
      → k + 1 ≤ rounds
      → eval m fuel t a h ≡ good w i
      → is_truthy w ≡ true
      → eval_do m (eval m fuel) (expand m fuel) a xs r i ≡ good r' j
      → ((rest : ℕ)
          → k ≤ rest
          → eval_while m (eval m fuel) (expand m fuel) a rest t xs r' j ≡ good v last)
      → eval_while m (eval m fuel) (expand m fuel) a rounds t xs r h ≡ good v last
  unfolding eval_while
  round fuel zero a h i j t w r r' v xs last k le e b d all = absurd (omega arith)
  round fuel (suc rest) a h i j t w r r' v xs last k le e b d all =
      after_good _ e
      ∙ ap (λ (p : Heap N → Outcome N (Exp N)). p i) (if_true _ _ b)
      ∙ after_good _ d
      ∙ all rest (omega arith)

  mutual
    unfolding eval form eval_form eval_while eval_args

    evaluates :
        {a : ℕ} {h i : Heap N} {e v : Exp N}
        → Evaluates m a h e v i
        → Settles (λ fuel. eval m fuel e a h) v i
    evaluates {a = a} {h = h} {i = i} {e = e} {v = v} truth =
        spent (λ fuel. eval m fuel e a h) v i 0 (λ fuel le. refl)
    evaluates {a = a} {h = h} {i = i} {e = e} {v = v} numeral =
        spent (λ fuel. eval m fuel e a h) v i 0 (λ fuel le. refl)
    evaluates {a = a} {h = h} {i = i} {e = e} {v = v} string =
        spent (λ fuel. eval m fuel e a h) v i 0 (λ fuel le. refl)
    evaluates {a = a} {h = h} {i = i} {e = e} {v = v} quotation =
        spent (λ fuel. eval m fuel e a h) v i 0 (λ fuel le. refl)
    evaluates {a = a} {h = h} {i = i} {e = e} {v = v} lambda =
        spent (λ fuel. eval m fuel e a h) v i 0 (λ fuel le. refl)
    evaluates {a = a} {h = h} {i = i} {e = e} {v = v} (lookup g) =
        spent (λ fuel. eval m fuel e a h) v i 0 (λ fuel le. ap (λ o. lift o h) g)
    evaluates {a = a} {h = h} {i = i} {e = e} {v = v} (definition x) =
        let (n, p) = evaluates x in
        spent (λ fuel. eval m fuel e a h) v i n (λ fuel le. after_good _ (p fuel le))
    evaluates {a = a} {h = h} {i = i} {e = e} {v = v} (assignment x g) =
        let (n, p) = evaluates x in
        spent (λ fuel. eval m fuel e a h) v i n
          (λ fuel le. after_good _ (p fuel le) ∙ ap (assigned v _) g)
    evaluates {a = a} {h = h} {i = i} {e = e} {v = v} (pairing y x) =
        let (n, p) = evaluates y in
        let (k, q) = evaluates x in
        spent (λ fuel. eval m fuel e a h) v i (n + k)
          (λ fuel le. after_good _ (p fuel (omega arith)) ∙ after_good _ (q fuel (omega arith)))
    evaluates {a = a} {h = h} {i = i} {e = e} {v = v} (first x) =
        let (n, p) = evaluates x in
        spent (λ fuel. eval m fuel e a h) v i n (λ fuel le. after_good _ (p fuel le))
    evaluates {a = a} {h = h} {i = i} {e = e} {v = v} (others x) =
        let (n, p) = evaluates x in
        spent (λ fuel. eval m fuel e a h) v i n (λ fuel le. after_good _ (p fuel le))
    evaluates {a = a} {h = h} {i = i} {e = e} {v = v} (consequent {h' = h'} t b x) =
        let (n, p) = evaluates t in
        let (k, q) = evaluates x in
        spent (λ fuel. eval m fuel e a h) v i (n + k)
          (λ fuel le.
            after_good _ (p fuel (omega arith))
            ∙ ap (λ y. eval m fuel y a h') (if_true _ _ b)
            ∙ q fuel (omega arith))
    evaluates {a = a} {h = h} {i = i} {e = e} {v = v} (alternate {h' = h'} t b x) =
        let (n, p) = evaluates t in
        let (k, q) = evaluates x in
        spent (λ fuel. eval m fuel e a h) v i (n + k)
          (λ fuel le.
            after_good _ (p fuel (omega arith))
            ∙ ap (λ y. eval m fuel y a h') (if_false _ _ b)
            ∙ q fuel (omega arith))
    evaluates {a = a} {h = h} {i = i} {e = e} {v = v} (no_alternate t b) =
        let (n, p) = evaluates t in
        spent (λ fuel. eval m fuel e a h) v i (n + 1)
          (λ fuel le.
            after_good _ (p fuel (omega arith))
            ∙ ap (λ y. eval m fuel y a i) (if_false _ _ b)
            ∙ quote_nil fuel a i (omega arith))
    evaluates {a = a} {h = h} {i = i} {e = e} {v = v} (sequence xs) =
        let (n, p) = does xs in spent (λ fuel. eval m fuel e a h) v i n p
    evaluates {a = a} {h = h} {i = i} {e = e} {v = v} (loop l) =
        let (n, p) = loops l in
        spent (λ fuel. eval m fuel e a h) v i n (λ fuel le. p fuel fuel le le)
    evaluates {a = a} {h = h} {i = i} {e = e} {v = v}
          (call_primitive {f = f} {args = args} o x xs g) =
        let (n, p) = evaluates x in
        let (k, q) = all xs in
        spent (λ fuel. eval m fuel e a h) v i (n + k)
          (λ fuel le.
            ap (λ w. eval_form m (eval m fuel) (expand m fuel) a fuel w f args h) o
            ∙ after_good _ (p fuel (omega arith))
            ∙ after_good _ (q fuel (omega arith))
            ∙ ap (λ r. lift r i) g)
    evaluates {a = a} {h = h} {i = i} {e = e} {v = v}
          (call {i = j} {f = f} {args = args} o x xs g y) =
        let (n, p) = evaluates x in
        let (k, q) = all xs in
        let (l, r) = evaluates y in
        spent (λ fuel. eval m fuel e a h) v i (n + k + l)
          (λ fuel le.
            ap (λ w. eval_form m (eval m fuel) (expand m fuel) a fuel w f args h) o
            ∙ after_good _ (p fuel (omega arith))
            ∙ after_good _ (q fuel (omega arith))
            ∙ after_good _ (ap (λ w. lift w j) g)
            ∙ r fuel (omega arith))

    does :
        {a : ℕ} {h i : Heap N} {xs : Exps N} {r v : Exp N}
        → Does m a h xs r v i
        → Settles (λ fuel. eval_do m (eval m fuel) (expand m fuel) a xs r h) v i
    does done = (0, λ fuel le. refl)
    does (next x xs) =
        let (n, p) = evaluates x in
        let (k, q) = does xs in
        (n + k, λ fuel le. after_good _ (p fuel (omega arith)) ∙ q fuel (omega arith))

    loops :
        {a : ℕ} {h i : Heap N} {t r v : Exp N} {xs : Exps N}
        → Loops m a h t xs r v i
        → (n : ℕ) × ((fuel rounds : ℕ)
            → n ≤ fuel
            → n ≤ rounds
            → eval_while m (eval m fuel) (expand m fuel) a rounds t xs r h ≡ good v i)
    loops (ended {t = t} {w = w} {r = r} {xs = xs} x b) =
        let (n, p) = evaluates x in
        (
          n + 1,
          λ fuel rounds le le'.
              last_round fuel rounds _ _ _ t w r xs (omega arith) (p fuel (omega arith)) b,
        )
    loops (again {t = t} {w = w} {r = r} {r' = r'} {xs = xs} x b d l) =
        let (n, p) = evaluates x in
        let (k, q) = does d in
        let (o, s) = loops l in
        (
          n + k + o + 1,
          λ fuel rounds le le'.
              round fuel rounds _ _ _ _ t w r r' _ xs _ o (omega arith) (p fuel (omega arith)) b
                (q fuel (omega arith)) (λ rest l'. s fuel rest (omega arith) l'),
        )

    all :
        {a : ℕ} {h i : Heap N} {xs vs : Exps N}
        → EvaluatesAll m a h xs vs i
        → Settles (λ fuel. eval_args m (eval m fuel) (expand m fuel) a xs h) vs i
    all no_more = (0, λ fuel le. refl)
    all (more x xs) =
        let (n, p) = evaluates x in
        let (k, q) = all xs in
        (
          n + k,
          λ fuel le. after_good _ (p fuel (omega arith)) ∙ after_good _ (q fuel (omega arith)),
        )

  -- If the rules of the language derive a value for an expression and the frames it leaves, for
  -- quotations, variables, lists, conditions, sequences, loops, functions and calls, then `eval`
  -- returns that value and leaves those frames with every fuel from some on, and with any fuel it
  -- returns nothing else.
  pub eval-Evaluates :
      {a : ℕ} {h i : Heap N} {e v : Exp N}
      → Evaluates m a h e v i
      → ((n : ℕ) × ((rest : ℕ) → eval m (rest + n) e a h ≡ good v i))
        × ((fuel : ℕ) → (eval m fuel e a h ≡ stuck) ⊎ (eval m fuel e a h ≡ good v i))
  eval-Evaluates {a = a} {h = h} {i = i} {e = e} {v = v} x =
      let (n, p) = evaluates x in
      (
        (n, λ rest. p (rest + n) (omega arith)),
        λ fuel. elim (fuel-enough m n fuel e a h).0 [
          | inl s ↦ inl s
          | inr s ↦ inr (flip s ∙ p (n + fuel) (omega arith))
        ],
      )
