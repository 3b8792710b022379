-- ===== src/Lisp/EvalGrows.antt =====
-- Each form of the evaluator of src/usr/lisp/eval.rs, with more fuel for what it evaluates.
use moros.Prelude.{ℕ, zero, suc, Bool}
use moros.Lisp.{
  Exp, Exps, primitive, function, macro, list, dict, bool, num, str, sym, nil, cons, is_truthy,
}
use moros.Lisp.Eval.{
  Machine, Eval, M, Form, quote, atom, equal, head, tail, cons', set', while, apply, eval', do',
  load, doc, variable, expand', if', other, on_list, lift, string, eval_args, eval_do, load_all,
  eval_while, apply_value, eval_form, eval_exp, head_form,
}
use moros.Lisp.Grows.{Grows, Grows-refl, Grows-stuck, Grows-if, Grows-bind, Grows-same}

module _ {N : Type 0} (m : Machine N) (eval expand more_eval more_expand : Eval m) (a : ℕ)
    (e≤ : (x : Exp N) (b : ℕ) → Grows (eval x b) (more_eval x b))
    (x≤ : (x : Exp N) (b : ℕ) → Grows (expand x b) (more_expand x b)) where
  eval_args-Grows :
      (xs : Exps N) → Grows (eval_args m eval expand a xs) (eval_args m more_eval more_expand a xs)
  unfolding eval_args
  eval_args-Grows nil = Grows-refl
  eval_args-Grows (cons x xs) =
      Grows-bind (e≤ x a) (λ v. Grows-bind (eval_args-Grows xs) (λ vs. Grows-refl))

  on_list-Grows :
      (e : Exp N) {f g : Exps N → M N (Exp N)}
      → ((xs : Exps N) → Grows (f xs) (g xs))
      → Grows (on_list e f) (on_list e g)
  on_list-Grows (list xs) all = all xs
  on_list-Grows (primitive i) all = Grows-refl
  on_list-Grows (function p b d) all = Grows-refl
  on_list-Grows (macro p b d) all = Grows-refl
  on_list-Grows (dict d) all = Grows-refl
  on_list-Grows (bool b) all = Grows-refl
  on_list-Grows (num n) all = Grows-refl
  on_list-Grows (str s) all = Grows-refl
  on_list-Grows (sym s) all = Grows-refl

  eval_do-Grows :
      (xs : Exps N) (res : Exp N)
      → Grows (eval_do m eval expand a xs res) (eval_do m more_eval more_expand a xs res)
  eval_do-Grows nil res = Grows-refl
  eval_do-Grows (cons x xs) res = Grows-bind (e≤ x a) (λ v. eval_do-Grows xs v)

  load_all-Grows :
      (xs : Exps N) (parsed : Bool)
      → Grows (load_all m eval expand a xs parsed) (load_all m more_eval more_expand a xs parsed)
  load_all-Grows nil parsed = Grows-refl
  load_all-Grows (cons x xs) parsed =
      Grows-bind (x≤ x a) (λ e. Grows-bind (e≤ e a) (λ v. load_all-Grows xs parsed))

  eval_while-Grows :
      (fuel : ℕ) (test : Exp N) (body : Exps N) (res : Exp N)
      → Grows
          (eval_while m eval expand a fuel test body res)
          (eval_while m more_eval more_expand a (suc fuel) test body res)
  unfolding eval_while
  eval_while-Grows zero test body res = Grows-stuck
  eval_while-Grows (suc fuel) test body res = Grows-bind (e≤ test a) (λ t.
      Grows-if (is_truthy t)
        (Grows-bind (eval_do-Grows body res) (λ v. eval_while-Grows fuel test body v)) Grows-refl)

  apply_value-Grows :
      (f : Exp N) (args : Exps N)
      → Grows (apply_value m eval expand a f args) (apply_value m more_eval more_expand a f args)
  apply_value-Grows (function params body d) args =
      Grows-bind (eval_args-Grows args)
        (λ vs. Grows-bind Grows-refl (λ d. record { grows = λ h. (e≤ body _).grows _ }))
  apply_value-Grows (primitive i) args = Grows-bind (eval_args-Grows args) (λ vs. Grows-refl)
  apply_value-Grows (macro p b d) args = Grows-refl
  apply_value-Grows (list xs) args = Grows-refl
  apply_value-Grows (dict d) args = Grows-refl
  apply_value-Grows (bool b) args = Grows-refl
  apply_value-Grows (num n) args = Grows-refl
  apply_value-Grows (str s) args = Grows-refl
  apply_value-Grows (sym s) args = Grows-refl

  eval_form-Grows :
      (fuel : ℕ) (f : Form) (x : Exp N) (xs : Exps N)
      → Grows
          (eval_form m eval expand a fuel f x xs)
          (eval_form m more_eval more_expand a (suc fuel) f x xs)
  unfolding eval_form
  eval_form-Grows fuel quote x (cons e nil) = Grows-refl
  eval_form-Grows fuel atom x (cons y nil) = Grows-bind (e≤ y a) (λ v. Grows-refl)
  eval_form-Grows fuel equal x (cons y (cons z nil)) =
      Grows-bind (e≤ y a) (λ v. Grows-bind (e≤ z a) (λ w. Grows-refl))
  eval_form-Grows fuel head x (cons y nil) = Grows-bind (e≤ y a) (λ v. Grows-refl)
  eval_form-Grows fuel tail x (cons y nil) = Grows-bind (e≤ y a) (λ v. Grows-refl)
  eval_form-Grows fuel cons' x (cons y (cons z nil)) =
      Grows-bind (e≤ z a) (λ w. on_list-Grows w (λ ys. Grows-bind (e≤ y a) (λ v. Grows-refl)))
  eval_form-Grows fuel set' x (cons (sym name) (cons y nil)) = Grows-bind (e≤ y a) (λ v. Grows-refl)
  eval_form-Grows fuel while x (cons test (cons y ys)) =
      eval_while-Grows fuel test (cons y ys) (list nil)
  eval_form-Grows fuel apply x (cons y (cons z zs)) =
      Grows-bind (e≤ _ a) (λ e. on_list-Grows e (λ rest. e≤ _ a))
  eval_form-Grows fuel eval' x (cons y nil) = Grows-bind (e≤ y a) (λ v. e≤ v a)
  eval_form-Grows fuel do' x xs = eval_do-Grows xs (list nil)
  eval_form-Grows fuel load x (cons y nil) = Grows-bind (e≤ y a) (λ v.
      Grows-same (lift (string v))
        (λ path. Grows-same (lift (m.read path)) (λ file. load_all-Grows file.0 file.1)))
  eval_form-Grows fuel doc x (cons y nil) = Grows-bind (e≤ y a) (λ v. Grows-refl)
  eval_form-Grows fuel variable x (cons (sym name) (cons y nil)) =
      Grows-bind (e≤ y a) (λ v. Grows-refl)
  eval_form-Grows fuel expand' x (cons y nil) = x≤ y a
  eval_form-Grows fuel if' x (cons y (cons z rest)) = Grows-bind (e≤ y a) (λ t. e≤ _ a)
  eval_form-Grows fuel other x xs = Grows-bind (e≤ x a) (λ f. apply_value-Grows f xs)
  eval_form-Grows fuel f x xs = Grows-refl

  pub eval_exp-Grows :
      (fuel : ℕ) (e : Exp N)
      → Grows (eval_exp m eval expand a fuel e) (eval_exp m more_eval more_expand a (suc fuel) e)
  eval_exp-Grows fuel (list (cons x xs)) = eval_form-Grows fuel (head_form x) x xs
  eval_exp-Grows fuel e = Grows-refl
