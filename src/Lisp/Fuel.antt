-- ===== src/Lisp/Fuel.antt =====
-- More fuel for the interpreter of src/usr/lisp/eval.rs and src/usr/lisp/expand.rs.
use moros.Prelude.{ℕ, zero, suc, ◌+◌, ◌≡◌, sym, subst, arith, ◌⊎◌, inl, inr}
use moros.Lisp.{Exp}
use moros.Lisp.Env.{Heap}
use moros.Lisp.Eval.{Machine, stuck}
use moros.Lisp.EvalGrows.{eval_exp-Grows}
use moros.Lisp.ExpandGrows.{expand_exp-Grows}
use moros.Lisp.Grows.{Grows, Grows-refl, Grows-stuck, Grows-trans}
use moros.Lisp.Run.{eval, expand}

module _ {N : Type 0} (m : Machine N) where
  mutual
    unfolding eval expand

    eval_step : (fuel : ℕ) (e : Exp N) (a : ℕ) → Grows (eval m fuel e a) (eval m (suc fuel) e a)
    eval_step zero e a = Grows-stuck
    eval_step (suc fuel) e a =
        eval_exp-Grows m (eval m fuel) (expand m fuel) (eval m (suc fuel)) (expand m (suc fuel)) a
          (eval_step fuel) (expand_step fuel) fuel e

    expand_step :
        (fuel : ℕ) (e : Exp N) (a : ℕ) → Grows (expand m fuel e a) (expand m (suc fuel) e a)
    expand_step zero e a = Grows-stuck
    expand_step (suc fuel) e a =
        expand_exp-Grows (eval m fuel) (expand m fuel) (eval m (suc fuel)) (expand m (suc fuel)) a
          (eval_step fuel) (expand_step fuel) e

  eval-Grows :
      (more fuel : ℕ) (e : Exp N) (a : ℕ) → Grows (eval m fuel e a) (eval m (more + fuel) e a)
  eval-Grows zero fuel e a =
      subst (λ n. Grows (eval m fuel e a) (eval m n e a)) (omega arith) Grows-refl
  eval-Grows (suc more) fuel e a =
      subst (λ n. Grows (eval m fuel e a) (eval m n e a)) (omega arith)
        (Grows-trans (eval-Grows more fuel e a) (eval_step (more + fuel) e a))

  expand-Grows :
      (more fuel : ℕ) (e : Exp N) (a : ℕ) → Grows (expand m fuel e a) (expand m (more + fuel) e a)
  expand-Grows zero fuel e a =
      subst (λ n. Grows (expand m fuel e a) (expand m n e a)) (omega arith) Grows-refl
  expand-Grows (suc more) fuel e a =
      subst (λ n. Grows (expand m fuel e a) (expand m n e a)) (omega arith)
        (Grows-trans (expand-Grows more fuel e a) (expand_step (more + fuel) e a))

  -- Of an evaluation, and of an expansion, the fuel decides only whether it ends: with any more
  -- fuel the outcome, failures and panics included, is the same, unless the first was stuck.
  pub fuel-enough :
      (more fuel : ℕ) (e : Exp N) (a : ℕ) (h : Heap N)
      → ((eval m fuel e a h ≡ stuck) ⊎ (eval m (more + fuel) e a h ≡ eval m fuel e a h))
        × ((expand m fuel e a h ≡ stuck) ⊎ (expand m (more + fuel) e a h ≡ expand m fuel e a h))
  fuel-enough more fuel e a h =
      (turned ((eval-Grows more fuel e a).grows h), turned ((expand-Grows more fuel e a).grows h))
    where
      turned : {A : Type 0} {x y z : A} → (x ≡ y) ⊎ (x ≡ z) → (x ≡ y) ⊎ (z ≡ x)
      turned (inl s) = inl s
      turned (inr s) = inr (sym s)
