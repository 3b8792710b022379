-- ===== src/Lisp/ExpandSafe.antt =====
-- Each form of the macros of src/usr/lisp/expand.rs, leaves a frame as it is, when
-- what it evaluates does and the environment is apart from the frame.
use Prim.Native.String.{String}
use text.Mathlib.Text.{◌==◌ as str_eq}
use moros.Prelude.{ℕ, Option, none, some, ◌&&◌, ◌||◌}
use moros.Lisp.{Exp, Exps, macro, list, sym, nil, cons}
use moros.Lisp.Env.{env_get, params_data}
use moros.Lisp.Eval.{M}
use moros.Lisp.Expand.{
  is_list, is_str, no_panic, expand_quasiquote, expand_items, expand_list, define_function,
  expand_define, define_macro, expand_define_macro, more_conditions, expand_cond, call_macro,
  expand_quote, expand_template, expand_sym, expand_exp,
}
use moros.Lisp.EvalSafe.{call-Safe}
use moros.Lisp.Safe.{Safe, Safe-bind, Safe-ret, Safe-fail, Safe-lift, Safe-if, Safe-read}

module _ {N : Type 0} (eval expand : Exp N → ℕ → M N (Exp N)) (c : ℕ)
    (e_safe : (x : Exp N) (b : ℕ) → Safe c b (eval x b))
    (x_safe : (x : Exp N) (b : ℕ) → Safe c b (expand x b)) (a : ℕ) where
  expand_items-Safe : (xs : Exps N) → Safe c a (expand_items eval expand a xs)
  unfolding expand_items
  expand_items-Safe nil = Safe-ret nil
  expand_items-Safe (cons x xs) =
      Safe-bind (x_safe x a) (λ v. Safe-bind (expand_items-Safe xs) (λ vs. Safe-ret (cons v vs)))

  expand_list-Safe : (xs : Exps N) → Safe c a (expand_list eval expand a xs)
  expand_list-Safe xs = Safe-bind (expand_items-Safe xs) (λ vs. Safe-ret (list vs))

  define_function-Safe :
      (whole : Exps N) (params : Exp N) (d : Option (Exp N)) (body : Exp N)
      → Safe c a (define_function eval expand a whole params d body)
  define_function-Safe whole (list (cons name args)) d body =
      Safe-bind (x_safe body a) (λ b. Safe-ret _)
  define_function-Safe whole (sym s) d body = expand_list-Safe whole
  define_function-Safe whole params d body = Safe-fail

  expand_define-Safe : (whole args : Exps N) → Safe c a (expand_define eval expand a whole args)
  expand_define-Safe whole (cons params (cons body nil)) =
      Safe-if (is_list body) (define_function-Safe whole params none body) Safe-fail
  expand_define-Safe whole (cons params (cons d (cons body nil))) =
      Safe-if (is_str d && is_list body) (define_function-Safe whole params (some d) body) Safe-fail
  expand_define-Safe whole args = Safe-fail

  define_macro-Safe :
      (whole : Exps N) (params body : Exp N)
      → Safe c a (define_macro eval expand a whole params body)
  define_macro-Safe whole (list (cons name params)) (list body) =
      Safe-bind (x_safe (list body) a) (λ b. Safe-ret _)
  define_macro-Safe whole (sym s) body = expand_list-Safe whole
  define_macro-Safe whole params body = Safe-fail

  expand_define_macro-Safe :
      (whole args : Exps N) → Safe c a (expand_define_macro eval expand a whole args)
  expand_define_macro-Safe whole (cons params (cons body nil)) = define_macro-Safe whole params body
  expand_define_macro-Safe whole args = Safe-fail

  more_conditions-Safe : (xs : Exps N) → Safe c a (more_conditions eval expand a xs)
  more_conditions-Safe nil = Safe-ret nil
  more_conditions-Safe (cons x xs) = Safe-bind (x_safe _ a) (λ e. Safe-ret (cons e nil))

  expand_cond-Safe : (args : Exps N) → Safe c a (expand_cond eval expand a args)
  expand_cond-Safe (cons (list (cons test (cons e nil))) more) = Safe-bind (x_safe test a) (λ t.
      Safe-bind (x_safe e a) (λ v. Safe-bind (more_conditions-Safe more) (λ rest. Safe-ret _)))
  expand_cond-Safe args = Safe-fail

  call_macro-Safe :
      (whole args : Exps N) (found : Option (Exp N))
      → Safe c a (call_macro eval expand a whole args found)
  call_macro-Safe whole args (some (macro params body d)) =
      Safe-bind (Safe-lift (params_data params args))
        (λ vars. Safe-bind (call-Safe eval c a body vars (λ b. e_safe body b)) (λ e. x_safe e a))
  call_macro-Safe whole args found = expand_list-Safe whole

  no_panic-Safe : (o : Option (Exp N)) → Safe c a (no_panic o)
  no_panic-Safe none = record { safe = λ h le d. tt }
  no_panic-Safe (some e) = Safe-ret e

  expand_quote-Safe : (whole args : Exps N) → Safe c a (expand_quote eval expand a whole args)
  expand_quote-Safe whole (cons e nil) = Safe-ret (list whole)
  expand_quote-Safe whole args = Safe-fail

  expand_template-Safe : (args : Exps N) → Safe c a (expand_template eval expand a args)
  expand_template-Safe (cons e nil) = no_panic-Safe (expand_quasiquote e)
  expand_template-Safe args = Safe-fail

  expand_sym-Safe :
      (s : String) (whole args : Exps N) → Safe c a (expand_sym eval expand a s whole args)
  expand_sym-Safe s whole args = Safe-if (str_eq s "quote") (expand_quote-Safe whole args) (
      Safe-if (str_eq s "quasiquote") (expand_template-Safe args) (
        Safe-if (str_eq s "define-function" || str_eq s "define") (expand_define-Safe whole args) (
          Safe-if (str_eq s "define-macro") (expand_define_macro-Safe whole args) (
            Safe-if (str_eq s "cond") (expand_cond-Safe args)
              (Safe-read (λ h. call_macro-Safe whole args (env_get s a h)))))))

  pub expand_exp-Safe : (e : Exp N) → Safe c a (expand_exp eval expand a e)
  expand_exp-Safe (list nil) = Safe-fail
  expand_exp-Safe (list (cons (sym s) xs)) = expand_sym-Safe s (cons (sym s) xs) xs
  expand_exp-Safe (list (cons x xs)) = expand_list-Safe (cons x xs)
  expand_exp-Safe e = Safe-ret e
