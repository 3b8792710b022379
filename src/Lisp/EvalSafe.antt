-- ===== src/Lisp/EvalSafe.antt =====
-- Each form of the evaluator of src/usr/lisp/eval.rs leaves a frame as it is, when what it evaluates
-- does and the environment is apart from the frame.
use Prim.Native.String.{String}
use moros.Prelude.{ℕ, zero, suc, ◌<◌, Bool, true, Option, none, some, length, ◌≡◌, refl, arith}
use moros.Lisp.{Exp, Exps, primitive, function, list, bool, num, str, sym, nil, cons, is_truthy}
use moros.Lisp.Env.{Heap, Data, env_at, env_get, env_set, insert, with_vars, params_data, push_env}
use moros.Lisp.Eval.{
  Machine, Eval, M, Form, quote, atom, equal, head, tail, cons', set', while, apply, eval', do',
  load, doc, variable, env, expand', if', function', macro', other, on_list, on_cons, string,
  assigned, assign, define, eval_args, eval_do, load_all, eval_while, apply_value, eval_form,
  eval_exp, head_form,
}
use moros.Lisp.Pushed.{with_vars-Keeps, env_set-Keeps, push_env-Keeps, push_env-Apart}
use moros.Lisp.Safe.{
  Apart, apart, Keeps, Keeps-refl, IsKept, IsKept-Keeps, Safe, Safe-bind, Safe-ret, Safe-fail,
  Safe-lift, Safe-stuck, Safe-if, Safe-read,
}

module _ {N : Type 0} where
  define-Safe : (key : String) (v : Exp N) (a c : ℕ) → Safe c a (define key v a)
  define-Safe key v a c = record { safe = λ h le d. kept h d }
    where
      kept : (h : Heap N) → Apart c h a → Keeps c h (with_vars a (insert key v (env_at a h).vars) h)
      kept h (apart le ne rest) = with_vars-Keeps h a c (insert key v (env_at a h).vars) ne

  assigned-IsKept :
      (v : Exp N) (c : ℕ) (h : Heap N) (o : Option (Heap N))
      → ((h' : Heap N) → o ≡ some h' → Keeps c h h')
      → IsKept c h (assigned v h o)
  assigned-IsKept v c h none all = Keeps-refl
  assigned-IsKept v c h (some h') all = all h' refl

  assign-Safe : (key : String) (v : Exp N) (a c : ℕ) → Safe c a (assign key v a)
  assign-Safe key v a c = record {
    safe = λ h le d.
        assigned-IsKept v c h (env_set key v a h) (λ h' e. env_set-Keeps key v a c h h' d e);
  }

  pub call-Safe :
      (eval : Exp N → ℕ → M N (Exp N)) (c a : ℕ) (body : Exp N) (d : Data N)
      → ((b : ℕ) → Safe c b (eval body b))
      → Safe c a (λ h. eval body (push_env d a h).0 (push_env d a h).1)
  call-Safe eval c a body d all = record { safe = λ h le p. kept h le p }
    where
      kept :
          (h : Heap N)
          → c < length h
          → Apart c h a
          → IsKept c h (eval body (push_env d a h).0 (push_env d a h).1)
      kept h le (apart l ne rest) =
          let k = push_env-Keeps d a c h le in
          let lon = k.longer in
          IsKept-Keeps _ k ((all _).safe _ (omega arith) (push_env-Apart d a c h le rest))

module _ {N : Type 0} (m : Machine N) (eval expand : Eval m) (c : ℕ)
    (e_safe : (x : Exp N) (b : ℕ) → Safe c b (eval x b))
    (x_safe : (x : Exp N) (b : ℕ) → Safe c b (expand x b)) (a : ℕ) where
  eval_args-Safe : (xs : Exps N) → Safe c a (eval_args m eval expand a xs)
  unfolding eval_args
  eval_args-Safe nil = Safe-ret nil
  eval_args-Safe (cons x xs) =
      Safe-bind (e_safe x a) (λ v. Safe-bind (eval_args-Safe xs) (λ vs. Safe-ret (cons v vs)))

  on_list-Safe :
      (e : Exp N) {f : Exps N → M N (Exp N)}
      → ((xs : Exps N) → Safe c a (f xs))
      → Safe c a (on_list e f)
  on_list-Safe (list xs) all = all xs
  on_list-Safe e all = Safe-fail

  on_cons-Safe :
      (xs : Exps N) {f : Exp N → Exps N → M N (Exp N)}
      → ((x : Exp N) (rest : Exps N) → Safe c a (f x rest))
      → Safe c a (on_cons xs f)
  on_cons-Safe nil all = Safe-fail
  on_cons-Safe (cons x xs) all = all x xs

  eval_do-Safe : (xs : Exps N) (res : Exp N) → Safe c a (eval_do m eval expand a xs res)
  eval_do-Safe nil res = Safe-ret res
  eval_do-Safe (cons x xs) res = Safe-bind (e_safe x a) (λ v. eval_do-Safe xs v)

  load_all-Safe : (xs : Exps N) (parsed : Bool) → Safe c a (load_all m eval expand a xs parsed)
  load_all-Safe nil parsed = Safe-if parsed (Safe-ret (bool true)) Safe-fail
  load_all-Safe (cons x xs) parsed =
      Safe-bind (x_safe x a) (λ e. Safe-bind (e_safe e a) (λ v. load_all-Safe xs parsed))

  eval_while-Safe :
      (fuel : ℕ) (test : Exp N) (body : Exps N) (res : Exp N)
      → Safe c a (eval_while m eval expand a fuel test body res)
  unfolding eval_while
  eval_while-Safe zero test body res = Safe-stuck
  eval_while-Safe (suc fuel) test body res = Safe-bind (e_safe test a) (λ t.
      Safe-if (is_truthy t)
        (Safe-bind (eval_do-Safe body res) (λ v. eval_while-Safe fuel test body v)) (Safe-ret res))

  apply_value-Safe : (f : Exp N) (args : Exps N) → Safe c a (apply_value m eval expand a f args)
  apply_value-Safe (function params body text) args = Safe-bind (eval_args-Safe args) (λ vs.
      Safe-bind (Safe-lift (params_data params vs))
        (λ d. call-Safe eval c a body d (λ b. e_safe body b)))
  apply_value-Safe (primitive i) args =
      Safe-bind (eval_args-Safe args) (λ vs. Safe-lift (m.call i vs))
  apply_value-Safe f args = Safe-fail

  eval_form-Safe :
      (fuel : ℕ) (f : Form) (x : Exp N) (xs : Exps N)
      → Safe c a (eval_form m eval expand a fuel f x xs)
  unfolding eval_form
  eval_form-Safe fuel quote x (cons e nil) = Safe-ret e
  eval_form-Safe fuel atom x (cons y nil) = Safe-bind (e_safe y a) (λ v. Safe-ret _)
  eval_form-Safe fuel equal x (cons y (cons z nil)) =
      Safe-bind (e_safe y a) (λ v. Safe-bind (e_safe z a) (λ w. Safe-ret _))
  eval_form-Safe fuel head x (cons y nil) =
      Safe-bind (e_safe y a) (λ v. on_list-Safe v (λ ys. on_cons-Safe ys (λ z rest. Safe-ret z)))
  eval_form-Safe fuel tail x (cons y nil) =
      Safe-bind (e_safe y a)
        (λ v. on_list-Safe v (λ ys. on_cons-Safe ys (λ z rest. Safe-ret (list rest))))
  eval_form-Safe fuel cons' x (cons y (cons z nil)) =
      Safe-bind (e_safe z a)
        (λ w. on_list-Safe w (λ ys. Safe-bind (e_safe y a) (λ v. Safe-ret (list (cons v ys)))))
  eval_form-Safe fuel set' x (cons (sym name) (cons y nil)) =
      Safe-bind (e_safe y a) (λ v. assign-Safe name v a c)
  eval_form-Safe fuel while x (cons test (cons y ys)) =
      eval_while-Safe fuel test (cons y ys) (list nil)
  eval_form-Safe fuel apply x (cons y (cons z zs)) =
      Safe-bind (e_safe _ a) (λ e. on_list-Safe e (λ rest. e_safe _ a))
  eval_form-Safe fuel eval' x (cons y nil) = Safe-bind (e_safe y a) (λ v. e_safe v a)
  eval_form-Safe fuel do' x xs = eval_do-Safe xs (list nil)
  eval_form-Safe fuel load x (cons y nil) = Safe-bind (e_safe y a) (λ v.
      Safe-bind (Safe-lift (string v))
        (λ path. Safe-bind (Safe-lift (m.read path)) (λ file. load_all-Safe file.0 file.1)))
  eval_form-Safe fuel doc x (cons y nil) = Safe-bind (e_safe y a) (λ v. Safe-lift _)
  eval_form-Safe fuel variable x (cons (sym name) (cons y nil)) =
      Safe-bind (e_safe y a) (λ v. define-Safe name v a c)
  eval_form-Safe fuel env x nil = record { safe = λ h le d. Keeps-refl }
  eval_form-Safe fuel env x (cons y ys) = record { safe = λ h le d. Keeps-refl }
  eval_form-Safe fuel expand' x (cons y nil) = x_safe y a
  eval_form-Safe fuel if' x (cons y (cons z rest)) = Safe-bind (e_safe y a) (λ t. e_safe _ a)
  eval_form-Safe fuel function' x (cons p (cons b nil)) = Safe-ret _
  eval_form-Safe fuel function' x (cons p (cons d (cons b nil))) =
      Safe-bind (Safe-lift (string d)) (λ s. Safe-ret _)
  eval_form-Safe fuel macro' x (cons p (cons b nil)) = Safe-ret _
  eval_form-Safe fuel macro' x (cons p (cons d (cons b nil))) =
      Safe-bind (Safe-lift (string d)) (λ s. Safe-ret _)
  eval_form-Safe fuel other x xs = Safe-bind (e_safe x a) (λ f. apply_value-Safe f xs)
  eval_form-Safe fuel f x xs = Safe-fail

  pub eval_exp-Safe : (fuel : ℕ) (e : Exp N) → Safe c a (eval_exp m eval expand a fuel e)
  eval_exp-Safe fuel (list (cons x xs)) = eval_form-Safe fuel (head_form x) x xs
  eval_exp-Safe fuel (sym key) = Safe-read (λ h. Safe-lift (env_get key a h))
  eval_exp-Safe fuel (bool b) = Safe-ret (bool b)
  eval_exp-Safe fuel (num n) = Safe-ret (num n)
  eval_exp-Safe fuel (str s) = Safe-ret (str s)
  eval_exp-Safe fuel e = Safe-fail
