-- ===== src/Lisp/Template.antt =====
-- What the expansion of a template of src/usr/lisp/expand.rs evaluates to.
use Prim.Native.String.{String}
use text.Mathlib.Text.{◌==◌ as str_eq}
use moros.Prelude.{
  ℕ, zero, suc, ◌+◌, ◌≤◌, Bool, true, false, Option, some, ◌≡◌, refl, ap, subst, sym as flip, not,
  ◌∙◌, arith, if◌then◌else◌,
}
use moros.Lisp.{Exp, Exps, list, bool, num, str, sym, nil, cons}
use moros.Lisp.Env.{Heap, env_get}
use moros.Lisp.Eval.{Machine, good, eval_form, form, lift, after, on_list, ret, ◌>>=◌}
use moros.Lisp.Expand.{no_panic, is_sym, quoted, joined, expand_quasiquote, quasi_list, quasi_step}
use moros.Lisp.Run.{eval, expand, parse_eval}

-- Neither word that `expand_quasiquote` looks for at the front of a list.
abbrev pub plain : {N : Type 0} → Exp N → Bool
plain (sym s) = not (str_eq s "unquote")
plain (list (cons w (cons e nil))) = not (is_sym w "unquote-splice")
plain e = true

-- A template whose holes are variables, and what it is filled with in an environment.
mutual
  pub data Filled {N : Type 0} (a : ℕ) (h : Heap N) : Exp N → Exp N → Type 0 where
    hole :
        {x : String} {v : Exp N}
        → env_get x a h ≡ some v
        → Filled a h (list (cons (sym "unquote") (cons (sym x) nil))) v
    items : {xs vs : Exps N} → FilledAll a h xs vs → Filled a h (list xs) (list vs)
    word : {s : String} → Filled a h (sym s) (sym s)
    string : {s : String} → Filled a h (str s) (str s)
    number : {n : N} → Filled a h (num n) (num n)
    truth : {b : Bool} → Filled a h (bool b) (bool b)

  pub data FilledAll {N : Type 0} (a : ℕ) (h : Heap N) : Exps N → Exps N → Type 0 where
    nothing : FilledAll a h nil nil
    also :
        {x v : Exp N} {xs vs : Exps N}
        → plain x ≡ true
        → Filled a h x v
        → FilledAll a h xs vs
        → FilledAll a h (cons x xs) (cons v vs)

-- The calls of `eval` that one inside the other make a template.
unfoldable mutual
  pub depth : {N : Type 0} → Exp N → ℕ
  depth (list xs) = depths xs
  depth e = 1

  depths : {N : Type 0} → Exps N → ℕ
  depths nil = 1
  depths (cons x xs) = 1 + depth x + depths xs

if_not : {A : Type 0} (b : Bool) (x y : A) → not b ≡ true → (if b then x else y) ≡ y
if_not true x y e = absurd (cc)
if_not false x y e = refl

plain_lem :
    {N : Type 0} (x : Exp N) (xs : Exps N) (o o' : Option (Exp N))
    → plain x ≡ true
    → quasi_step x xs o o' ≡ joined "cons" o o'
plain_lem (sym s) xs o o' e = if_not (str_eq s "unquote") _ _ e
plain_lem (list (cons w (cons y nil))) xs o o' e = if_not (is_sym w "unquote-splice") _ _ e
plain_lem x xs o o' e = refl

module _ {N : Type 0} (m : Machine N) (a : ℕ) (h : Heap N) where
  -- The template has an expansion, which evaluates to this with that fuel.
  abbrev Expands : ℕ → Exp N → Option (Exp N) → Type 0
  Expands fuel v o = (q : Exp N) × (o ≡ some q) × (eval m fuel q a h ≡ good v h)

  value : (fuel : ℕ) (v q : Exp N) → eval m fuel q a h ≡ good v h → Expands fuel v (some q)
  value fuel v q e = (q, refl, e)

  quoted_lem : (fuel : ℕ) (e : Exp N) → eval m (suc fuel) (quoted e) a h ≡ good e h
  unfolding eval form eval_form
  quoted_lem fuel e = refl

  hole_lem :
      (fuel : ℕ) (x : String) (v : Exp N)
      → env_get x a h ≡ some v
      → eval m (suc fuel) (sym x) a h ≡ good v h
  unfolding eval
  hole_lem fuel x v e = ap (λ o. lift o h) e

  cons_lem :
      (fuel : ℕ) (p q v : Exp N) (vs : Exps N)
      → eval m fuel p a h ≡ good v h
      → eval m fuel q a h ≡ good (list vs) h
      → eval m (suc fuel) (list (cons (sym "cons") (cons p (cons q nil)))) a h
        ≡ good (list (cons v vs)) h
  unfolding eval form eval_form
  cons_lem fuel p q v vs x y =
      ap (λ o. after o (λ w. on_list w (λ ys. eval m fuel p a >>= λ b. ret (list (cons b ys))))) y
      ∙ ap (λ o. after o (λ b. ret (list (cons b vs)))) x

  joined_lem :
      (fuel : ℕ) (v : Exp N) (vs : Exps N) (o o' : Option (Exp N))
      → Expands fuel v o
      → Expands fuel (list vs) o'
      → Expands (suc fuel) (list (cons v vs)) (joined "cons" o o')
  joined_lem fuel v vs o o' (p, o_p, x) (q, o'_q, y) =
      (list (cons (sym "cons") (cons p (cons q nil))), rw (o_p, o'_q), cons_lem fuel p q v vs x y)

  mutual
    unfolding depth

    depth_pos : (t : Exp N) → 1 ≤ depth t
    depth_pos (list xs) = depths_pos xs
    depth_pos t = omega arith

    depths_pos : (xs : Exps N) → 1 ≤ depths xs
    depths_pos nil = omega arith
    depths_pos (cons x xs) = omega arith

  mutual
    unfolding expand_quasiquote depth

    filled :
        {t v : Exp N}
        → Filled a h t v
        → (fuel : ℕ) → depth t ≤ fuel
        → Expands fuel v (expand_quasiquote t)
    filled (hole {x = x} {v = v} e) (suc fuel) le = value (suc fuel) _ _ (hole_lem fuel x v e)
    filled (items all) fuel le = filled_all all fuel le
    filled word (suc fuel) le = value (suc fuel) _ _ (quoted_lem fuel _)
    filled string (suc fuel) le = value (suc fuel) _ _ (quoted_lem fuel _)
    filled number (suc fuel) le = value (suc fuel) _ _ (quoted_lem fuel _)
    filled truth (suc fuel) le = value (suc fuel) _ _ (quoted_lem fuel _)
    filled {t = t} f zero le = let pos = depth_pos t in absurd (omega arith)

    filled_all :
        {xs vs : Exps N}
        → FilledAll a h xs vs
        → (fuel : ℕ) → depths xs ≤ fuel
        → Expands fuel (list vs) (quasi_list xs)
    filled_all nothing (suc fuel) le = value (suc fuel) _ _ (quoted_lem fuel (list nil))
    filled_all (also {x = x} {v = v} {xs = xs} {vs = vs} p f all) (suc fuel) le =
        subst (Expands (suc fuel) (list (cons v vs))) (flip (plain_lem x xs _ _ p)) (
          joined_lem fuel v vs _ _ (filled f fuel (omega arith))
            (filled_all all fuel (omega arith)))
    filled_all {xs = xs} all zero le = let pos = depths_pos xs in absurd (omega arith)

  -- For a template whose holes are variables with a value, each as `(unquote x)`, and in which,
  -- outside the holes, no item of a list is the word `unquote` or a list of two that begins with
  -- `unquote-splice`, reading `(quasiquote template)` with at least the fuel of its depth expands
  -- and evaluates it to the template with the values of the variables, and changes nothing.
  pub parse_eval-expand_quasiquote :
      {t v : Exp N}
      → Filled a h t v
      → (fuel : ℕ) → depth t ≤ fuel
      → parse_eval m fuel (list (cons (sym "quasiquote") (cons t nil))) a h ≡ good v h
  unfolding parse_eval expand
  parse_eval-expand_quasiquote {t = t} f zero le = let pos = depth_pos t in absurd (omega arith)
  parse_eval-expand_quasiquote {t = t} f (suc fuel) le =
      let (q, e, r) = filled f (suc fuel) le in
      ap (λ o. after (no_panic o h) (λ x. eval m (suc fuel) x a)) e ∙ r
