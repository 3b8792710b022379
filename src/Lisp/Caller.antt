-- ===== src/Lisp/Caller.antt =====
-- A call, by src/usr/lisp/eval.rs and src/usr/lisp/env.rs, and the frame that it is made from.
use moros.Prelude.{ℕ, zero, suc, ◌<◌, some, length, ◌≡◌, arith}
use moros.Lisp.{Exp}
use moros.Lisp.Env.{Heap, Data, env_at, push_env}
use moros.Lisp.Eval.{Machine}
use moros.Lisp.EvalSafe.{eval_exp-Safe}
use moros.Lisp.ExpandSafe.{expand_exp-Safe}
use moros.Lisp.Pushed.{push_env-Keeps, push_env-Apart}
use moros.Lisp.Safe.{Apart, IsKept, IsKept-Keeps, Safe, Safe-stuck}
use moros.Lisp.Run.{eval, expand}

module _ {N : Type 0} (m : Machine N) where
  mutual
    unfolding eval expand

    eval-Safe : (fuel : ℕ) (c : ℕ) (e : Exp N) (b : ℕ) → Safe c b (eval m fuel e b)
    eval-Safe zero c e b = Safe-stuck
    eval-Safe (suc fuel) c e b =
        eval_exp-Safe m (eval m fuel) (expand m fuel) c (eval-Safe fuel c) (expand-Safe fuel c) b
          fuel e

    expand-Safe : (fuel : ℕ) (c : ℕ) (e : Exp N) (b : ℕ) → Safe c b (expand m fuel e b)
    expand-Safe zero c e b = Safe-stuck
    expand-Safe (suc fuel) c e b =
        expand_exp-Safe (eval m fuel) (expand m fuel) c (eval-Safe fuel c) (expand-Safe fuel c) b e

  -- The body of a call, which runs in the frame that `inner_env` makes, leaves the frame of the
  -- caller as it was, if the frames further out than the caller do not lead back to it: when it
  -- ends or fails, whatever it sets, defines, loads or calls, each frame still leads where it led
  -- and the frame of the caller has the variables that it had.
  pub eval-push_env :
      (fuel : ℕ) (body : Exp N) (d : Data N) (a : ℕ) (h : Heap N)
      → a < length h
      → ((o : ℕ) → (env_at a h).outer ≡ some o → Apart a h o)
      → IsKept a h (eval m fuel body (push_env d a h).0 (push_env d a h).1)
  eval-push_env fuel body d a h le outside =
      let k = push_env-Keeps d a a h le in
      let lon = k.longer in
      IsKept-Keeps _ k (
        (eval-Safe fuel a body (push_env d a h).0).safe (push_env d a h).1 (omega arith)
          (push_env-Apart d a a h le outside))
