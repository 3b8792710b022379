-- ===== src/Lisp/Run.antt =====
-- The two functions `eval` and `expand` of src/usr/lisp, which call each other.
use moros.Prelude.{ℕ, zero, suc}
use moros.Lisp.{Exp}
use moros.Lisp.Eval.{Machine, stuck, M, ◌>>=◌, eval_exp}
use moros.Lisp.Expand.{expand_exp}

module _ {N : Type 0} (m : Machine N) where
  unfoldable mutual
    pub eval : ℕ → Exp N → ℕ → M N (Exp N)
    eval zero e a = λ h. stuck
    eval (suc fuel) e a = eval_exp m (eval fuel) (expand fuel) a fuel e

    pub expand : ℕ → Exp N → ℕ → M N (Exp N)
    expand zero e a = λ h. stuck
    expand (suc fuel) e a = expand_exp (eval fuel) (expand fuel) a e

  -- What is done with an expression that is read.
  unfoldable pub parse_eval : ℕ → Exp N → ℕ → M N (Exp N)
  parse_eval fuel e a = do x ← expand fuel e a; eval fuel x a
