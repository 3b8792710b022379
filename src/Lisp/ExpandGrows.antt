-- ===== src/Lisp/ExpandGrows.antt =====
-- Each form of the macros of src/usr/lisp/expand.rs, with more fuel for what it evaluates.
use Prim.Native.String.{String}
use text.Mathlib.Text.{◌==◌ as str_eq}
use moros.Prelude.{ℕ, Option, none, some, ◌&&◌, ◌||◌}
use moros.Lisp.{Exp, Exps, macro, list, sym, nil, cons}
use moros.Lisp.Env.{env_get}
use moros.Lisp.Eval.{M}
use moros.Lisp.Expand.{
  is_list, is_str, expand_items, expand_list, define_function, expand_define, expand_define_macro,
  more_conditions, expand_cond, call_macro, expand_sym, expand_exp,
}
use moros.Lisp.Grows.{Grows, Grows-refl, Grows-read, Grows-if, Grows-bind}

module _ {N : Type 0} (eval expand more_eval more_expand : Exp N → ℕ → M N (Exp N)) (a : ℕ)
    (e≤ : (x : Exp N) (b : ℕ) → Grows (eval x b) (more_eval x b))
    (x≤ : (x : Exp N) (b : ℕ) → Grows (expand x b) (more_expand x b)) where
  expand_items-Grows :
      (xs : Exps N)
      → Grows (expand_items eval expand a xs) (expand_items more_eval more_expand a xs)
  unfolding expand_items
  expand_items-Grows nil = Grows-refl
  expand_items-Grows (cons x xs) =
      Grows-bind (x≤ x a) (λ v. Grows-bind (expand_items-Grows xs) (λ vs. Grows-refl))

  expand_list-Grows :
      (xs : Exps N) → Grows (expand_list eval expand a xs) (expand_list more_eval more_expand a xs)
  expand_list-Grows xs = Grows-bind (expand_items-Grows xs) (λ vs. Grows-refl)

  define_function-Grows :
      (whole : Exps N) (params : Exp N) (d : Option (Exp N)) (body : Exp N)
      → Grows
          (define_function eval expand a whole params d body)
          (define_function more_eval more_expand a whole params d body)
  define_function-Grows whole (list (cons name args)) d body =
      Grows-bind (x≤ body a) (λ b. Grows-refl)
  define_function-Grows whole (sym s) d body = expand_list-Grows whole
  define_function-Grows whole params d body = Grows-refl

  expand_define-Grows :
      (whole args : Exps N)
      → Grows
          (expand_define eval expand a whole args)
          (expand_define more_eval more_expand a whole args)
  expand_define-Grows whole (cons params (cons body nil)) =
      Grows-if (is_list body) (define_function-Grows whole params none body) Grows-refl
  expand_define-Grows whole (cons params (cons d (cons body nil))) =
      Grows-if (is_str d && is_list body) (define_function-Grows whole params (some d) body)
        Grows-refl
  expand_define-Grows whole args = Grows-refl

  expand_define_macro-Grows :
      (whole args : Exps N)
      → Grows
          (expand_define_macro eval expand a whole args)
          (expand_define_macro more_eval more_expand a whole args)
  expand_define_macro-Grows whole (cons (list (cons name params)) (cons (list body) nil)) =
      Grows-bind (x≤ (list body) a) (λ b. Grows-refl)
  expand_define_macro-Grows whole (cons (sym s) (cons body nil)) = expand_list-Grows whole
  expand_define_macro-Grows whole args = Grows-refl

  more_conditions-Grows :
      (xs : Exps N)
      → Grows (more_conditions eval expand a xs) (more_conditions more_eval more_expand a xs)
  more_conditions-Grows nil = Grows-refl
  more_conditions-Grows (cons x xs) = Grows-bind (x≤ _ a) (λ e. Grows-refl)

  expand_cond-Grows :
      (args : Exps N)
      → Grows (expand_cond eval expand a args) (expand_cond more_eval more_expand a args)
  expand_cond-Grows (cons (list (cons test (cons e nil))) more) =
      Grows-bind (x≤ test a) (λ t.
        Grows-bind (x≤ e a) (λ v. Grows-bind (more_conditions-Grows more) (λ rest. Grows-refl)))
  expand_cond-Grows args = Grows-refl

  call_macro-Grows :
      (whole args : Exps N) (found : Option (Exp N))
      → Grows
          (call_macro eval expand a whole args found)
          (call_macro more_eval more_expand a whole args found)
  call_macro-Grows whole args (some (macro params body d)) =
      Grows-bind Grows-refl
        (λ vars. Grows-bind (record { grows = λ h. (e≤ body _).grows _ }) (λ e. x≤ e a))
  call_macro-Grows whole args found = expand_list-Grows whole

  expand_sym-Grows :
      (s : String) (whole args : Exps N)
      → Grows
          (expand_sym eval expand a s whole args)
          (expand_sym more_eval more_expand a s whole args)
  expand_sym-Grows s whole args = Grows-if (str_eq s "quote") Grows-refl (
      Grows-if (str_eq s "quasiquote") Grows-refl (
        Grows-if (str_eq s "define-function" || str_eq s "define") (expand_define-Grows whole args)
          (Grows-if (str_eq s "define-macro") (expand_define_macro-Grows whole args) (
            Grows-if (str_eq s "cond") (expand_cond-Grows args)
              (Grows-read (λ h. call_macro-Grows whole args (env_get s a h)))))))

  pub expand_exp-Grows :
      (e : Exp N) → Grows (expand_exp eval expand a e) (expand_exp more_eval more_expand a e)
  expand_exp-Grows (list (cons (sym s) xs)) = expand_sym-Grows s (cons (sym s) xs) xs
  expand_exp-Grows (list (cons x xs)) = expand_list-Grows (cons x xs)
  expand_exp-Grows e = Grows-refl
