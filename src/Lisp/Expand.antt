-- ===== src/Lisp/Expand.antt =====
-- The macros of src/usr/lisp/expand.rs: templates, definitions, conditions and calls of macros.
use Prim.Native.String.{String}
use text.Mathlib.Text.{◌==◌ as str_eq}
use moros.Prelude.{ℕ, Bool, true, false, ◌&&◌, ◌||◌, Option, none, some, if◌then◌else◌}
use moros.Lisp.{Exp, Exps, macro, list, str, sym, nil, cons}
use moros.Lisp.Env.{env_get, params_data, push_env}
use moros.Lisp.Eval.{panics, M, ◌>>=◌, ret, fail, lift}

module _ {N : Type 0} where
  abbrev pub is_sym : Exp N → String → Bool
  is_sym (sym s) name = str_eq s name
  is_sym e name = false

  abbrev pub quoted : Exp N → Exp N
  quoted e = list (cons (sym "quote") (cons e nil))

  -- `list[1]`, which panics when the word stands alone.
  abbrev pub unquoted : Exps N → Option (Exp N)
  unquoted nil = none
  unquoted (cons e rest) = some e

  abbrev pub joined : String → Option (Exp N) → Option (Exp N) → Option (Exp N)
  joined s (some a) (some b) = some (list (cons (sym s) (cons a (cons b nil))))
  joined s none b = none
  joined s (some a) none = none

  -- A list by its first item, the rest, and what these expand to.
  abbrev pub quasi_step : Exp N → Exps N → Option (Exp N) → Option (Exp N) → Option (Exp N)
  quasi_step (sym s) xs first rest =
      if str_eq s "unquote" then unquoted xs else joined "cons" first rest
  quasi_step (list (cons w (cons e nil))) xs first rest =
      if is_sym w "unquote-splice" then joined "concat" (some e) rest else joined "cons" first rest
  quasi_step x xs first rest = joined "cons" first rest

  unfoldable mutual
    pub expand_quasiquote : Exp N → Option (Exp N)
    expand_quasiquote (list xs) = quasi_list xs
    expand_quasiquote e = some (quoted e)

    pub quasi_list : Exps N → Option (Exp N)
    quasi_list nil = some (quoted (list nil))
    quasi_list (cons x xs) = quasi_step x xs (expand_quasiquote x) (quasi_list xs)

  abbrev pub is_list : Exp N → Bool
  is_list (list xs) = true
  is_list e = false

  abbrev pub is_str : Exp N → Bool
  is_str (str s) = true
  is_str e = false

  abbrev pub no_panic : Option (Exp N) → M N (Exp N)
  no_panic none = λ h. panics
  no_panic (some e) = ret e

  -- `(variable name (word params [doc] body))`
  abbrev defined : String → Exp N → Exp N → Exps N → Exp N
  defined word name params rest =
      list
        (cons (sym "variable") (cons name (cons (list (cons (sym word) (cons params rest))) nil)))

  -- `[doc] body`
  abbrev with_doc : Option (Exp N) → Exp N → Exps N
  with_doc none body = cons body nil
  with_doc (some d) body = cons d (cons body nil)

module _ {N : Type 0} (eval expand : Exp N → ℕ → M N (Exp N)) (a : ℕ) where
  unfoldable pub expand_items : Exps N → M N (Exps N)
  expand_items nil = ret nil
  expand_items (cons x xs) = do v ← expand x a; vs ← expand_items xs; ret (cons v vs)

  abbrev pub expand_list : Exps N → M N (Exp N)
  expand_list xs = do vs ← expand_items xs; ret (list vs)

  -- `whole` is the list itself, for a name that is only a symbol.
  abbrev pub define_function : Exps N → Exp N → Option (Exp N) → Exp N → M N (Exp N)
  define_function whole (list (cons name args)) d body = do
    b ← expand body a
    ret (defined "function" name (list args) (with_doc d b))
  define_function whole (sym s) d body = expand_list whole
  define_function whole params d body = fail

  abbrev pub expand_define : Exps N → Exps N → M N (Exp N)
  expand_define whole (cons params (cons body nil)) =
      if is_list body then define_function whole params none body else fail
  expand_define whole (cons params (cons d (cons body nil))) =
      if is_str d && is_list body then define_function whole params (some d) body else fail
  expand_define whole args = fail

  abbrev pub define_macro : Exps N → Exp N → Exp N → M N (Exp N)
  define_macro whole (list (cons name args)) (list body) = do
    b ← expand (list body) a
    ret (defined "macro" name (list args) (cons b nil))
  define_macro whole (sym s) body = expand_list whole
  define_macro whole params body = fail

  abbrev pub expand_define_macro : Exps N → Exps N → M N (Exp N)
  expand_define_macro whole (cons params (cons body nil)) = define_macro whole params body
  expand_define_macro whole args = fail

  -- The conditions that are left are a `cond` of their own.
  abbrev pub more_conditions : Exps N → M N (Exps N)
  more_conditions nil = ret nil
  more_conditions (cons x xs) = do
    e ← expand (list (cons (sym "cond") (cons x xs))) a
    ret (cons e nil)

  abbrev pub expand_cond : Exps N → M N (Exp N)
  expand_cond (cons (list (cons test (cons then' nil))) more) = do
    t ← expand test a
    e ← expand then' a
    rest ← more_conditions more
    ret (list (cons (sym "if") (cons t (cons e rest))))
  expand_cond args = fail

  -- The arguments of a macro are not evaluated, and what it gives is expanded in turn.
  abbrev pub call_macro : Exps N → Exps N → Option (Exp N) → M N (Exp N)
  call_macro whole args (some (macro params body d)) = do
    vars ← lift (params_data params args)
    e ← λ h. eval body (push_env vars a h).0 (push_env vars a h).1
    expand e a
  call_macro whole args found = expand_list whole

  abbrev pub expand_quote : Exps N → Exps N → M N (Exp N)
  expand_quote whole (cons e nil) = ret (list whole)
  expand_quote whole args = fail

  abbrev pub expand_template : Exps N → M N (Exp N)
  expand_template (cons e nil) = no_panic (expand_quasiquote e)
  expand_template args = fail

  abbrev pub expand_sym : String → Exps N → Exps N → M N (Exp N)
  expand_sym s whole args =
      if str_eq s "quote"
      then expand_quote whole args
      else if str_eq s "quasiquote"
      then expand_template args
      else if str_eq s "define-function" || str_eq s "define"
      then expand_define whole args
      else if str_eq s "define-macro"
      then expand_define_macro whole args
      else if str_eq s "cond"
      then expand_cond args
      else λ h. call_macro whole args (env_get s a h) h

  abbrev pub expand_exp : Exp N → M N (Exp N)
  expand_exp (list nil) = fail
  expand_exp (list (cons (sym s) xs)) = expand_sym s (cons (sym s) xs) xs
  expand_exp (list (cons x xs)) = expand_list (cons x xs)
  expand_exp e = ret e
