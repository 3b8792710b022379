-- ===== src/Lisp/Eval.antt =====
-- The evaluator of src/usr/lisp/eval.rs and the macros of src/usr/lisp/expand.rs. A program need
-- not end, so both spend fuel: one for each call, and for each round of the evaluator's loop.
use Prim.Native.String.{String}
use text.Mathlib.Text.{◌==◌ as str_eq}
use moros.Prelude.{
  ℕ, zero, suc, Bool, true, false, Option, none, some, List, [], ◌∷◌, set, if◌then◌else◌,
}
use moros.Lisp.{
  Exp, Exps, primitive, function, macro, list, bool, num, str, sym, nil, cons, append, is_truthy,
  exp_eq,
}
use moros.Lisp.Env.{Heap, env_at, env_get, env_set, env_keys, insert, params_data, push_env}

-- What the interpreter takes from outside: the equality of numbers, the primitives, the order of
-- strings, and the expressions of a file with whether all of it could be parsed.
pub record Machine (N : Type 0) : Type 0 where
  pub num_eq : N → N → Bool
  pub call : ℕ → Exps N → Option (Exp N)
  pub less : String → String → Bool
  pub read : String → Option (Exps N × Bool)

pub data Outcome (N A : Type 0) : Type 0 where
  stuck : Outcome N A
  panics : Outcome N A
  failed : Heap N → Outcome N A
  good : A → Heap N → Outcome N A

infixl 5 ◌>>=◌
abbrev pub M : Type 0 → Type 0 → Type 0
M N A = Heap N → Outcome N A

abbrev pub after : {N A B : Type 0} → Outcome N A → (A → M N B) → Outcome N B
after stuck f = stuck
after panics f = panics
after (failed h) f = failed h
after (good a h) f = f a h

abbrev pub ◌>>=◌ : {N A B : Type 0} → M N A → (A → M N B) → M N B
◌>>=◌ m f h = after (m h) f

abbrev pub ret : {N A : Type 0} → A → M N A
ret a h = good a h

abbrev pub fail : {N A : Type 0} → M N A
fail h = failed h

abbrev pub lift : {N A : Type 0} → Option A → M N A
lift none h = failed h
lift (some a) h = good a h

abbrev pub assigned : {N : Type 0} → Exp N → Heap N → Option (Heap N) → Outcome N (Exp N)
assigned v h none = failed h
assigned v h (some h') = good v h'

-- `env_set`, which changes the heap.
abbrev pub assign : {N : Type 0} → String → Exp N → ℕ → M N (Exp N)
assign key v a h = assigned v h (env_set key v a h)

-- `env.borrow_mut().data.insert`
abbrev pub define : {N : Type 0} → String → Exp N → ℕ → M N (Exp N)
define key v a h =
    good (sym key)
      (set h a (record { vars = insert key v (env_at a h).vars; outer = (env_at a h).outer }))

-- What the head of a list stands for.
pub data Form : Type 0 where
  quote atom equal head tail cons' set' while apply eval' do' load doc variable env expand' if' :
      Form
  function' macro' other : Form

unfoldable pub form : String → Form
form s =
    if str_eq s "quote"
    then quote
    else if str_eq s "atom?"
    then atom
    else if str_eq s "equal?"
    then equal
    else if str_eq s "head"
    then head
    else if str_eq s "tail"
    then tail
    else if str_eq s "cons"
    then cons'
    else if str_eq s "set"
    then set'
    else if str_eq s "while"
    then while
    else if str_eq s "apply"
    then apply
    else if str_eq s "eval"
    then eval'
    else if str_eq s "do"
    then do'
    else if str_eq s "load"
    then load
    else if str_eq s "doc"
    then doc
    else if str_eq s "variable"
    then variable
    else if str_eq s "env"
    then env
    else if str_eq s "expand"
    then expand'
    else if str_eq s "if"
    then if'
    else if str_eq s "function"
    then function'
    else if str_eq s "macro"
    then macro'
    else other

abbrev pub head_form : {N : Type 0} → Exp N → Form
head_form (sym s) = form s
head_form e = other

abbrev or_empty : Option String → String
or_empty none = ""
or_empty (some s) = s

module _ {N : Type 0} where
  abbrev pub is_atom : Exp N → Bool
  is_atom (list xs) = false
  is_atom e = true

  abbrev pub on_list : {A : Type 0} → Exp N → (Exps N → M N A) → M N A
  on_list (list xs) f = f xs
  on_list e f = fail

  abbrev pub on_cons : {A : Type 0} → Exps N → (Exp N → Exps N → M N A) → M N A
  on_cons nil f = fail
  on_cons (cons x xs) f = f x xs

  abbrev last_of : Exp N → Exps N → Exp N
  last_of x nil = x
  last_of x (cons y ys) = last_of y ys

  abbrev before_last : Exp N → Exps N → Exps N
  before_last x nil = nil
  before_last x (cons y ys) = cons x (before_last y ys)

  abbrev pub string : Exp N → Option String
  string (str s) = some s
  string e = none

  abbrev pub doc_of : Exp N → Option (Exp N)
  doc_of (primitive i) = some (str "")
  doc_of (function p b d) = some (str (or_empty d))
  doc_of (macro p b d) = some (str (or_empty d))
  doc_of e = none

  abbrev symbols : List String → Exps N
  symbols [] = nil
  symbols (k ∷ ks) = cons (sym k) (symbols ks)

  -- `'()`
  abbrev pub otherwise : Exps N → Exp N
  otherwise nil = list (cons (sym "quote") (cons (list nil) nil))
  otherwise (cons z rest) = z

module _ {N : Type 0} (m : Machine N) where
  -- The evaluator and the expansion with less fuel, in an environment.
  abbrev pub Eval : Type 0
  Eval = Exp N → ℕ → M N (Exp N)

  module _ (eval expand : Eval) (a : ℕ) where
    unfoldable pub eval_args : Exps N → M N (Exps N)
    eval_args nil = ret nil
    eval_args (cons x xs) = do v ← eval x a; vs ← eval_args xs; ret (cons v vs)

    abbrev pub eval_atom : Exps N → M N (Exp N)
    eval_atom (cons x nil) = do v ← eval x a; ret (bool (is_atom v))
    eval_atom args = fail

    abbrev pub eval_equal : Exps N → M N (Exp N)
    eval_equal (cons x (cons y nil)) = do
      v ← eval x a
      w ← eval y a
      ret (bool (exp_eq m.num_eq v w))
    eval_equal args = fail

    abbrev pub eval_head : Exps N → M N (Exp N)
    eval_head (cons x nil) = do v ← eval x a; on_list v (λ ys. on_cons ys (λ y rest. ret y))
    eval_head args = fail

    abbrev pub eval_tail : Exps N → M N (Exp N)
    eval_tail (cons x nil) = do
      v ← eval x a
      on_list v (λ ys. on_cons ys (λ y rest. ret (list rest)))
    eval_tail args = fail

    -- The second argument is evaluated first.
    abbrev pub eval_cons : Exps N → M N (Exp N)
    eval_cons (cons x (cons y nil)) = do
      w ← eval y a
      on_list w (λ ys. do v ← eval x a; ret (list (cons v ys)))
    eval_cons args = fail

    abbrev pub eval_variable : Exps N → M N (Exp N)
    eval_variable (cons (sym name) (cons y nil)) = do v ← eval y a; define name v a
    eval_variable args = fail

    abbrev pub eval_set : Exps N → M N (Exp N)
    eval_set (cons (sym name) (cons y nil)) = do v ← eval y a; assign name v a
    eval_set args = fail

    -- The value of the last expression, or `res` if there is none.
    abbrev pub eval_do : Exps N → Exp N → M N (Exp N)
    eval_do nil res = ret res
    eval_do (cons x xs) res = do v ← eval x a; eval_do xs v

    -- The last item of a vector, and those before it.
    abbrev pub eval_apply : Exps N → M N (Exp N)
    eval_apply (cons x nil) = fail
    eval_apply nil = fail
    eval_apply (cons x (cons y ys)) = eval (last_of x (cons y ys)) a >>= λ e.
        on_list e (λ rest. eval (list (append (before_last x (cons y ys)) rest)) a)

    abbrev pub eval_eval : Exps N → M N (Exp N)
    eval_eval (cons x nil) = do v ← eval x a; eval v a
    eval_eval args = fail

    -- Each expression of a file is expanded and evaluated.
    abbrev pub load_all : Exps N → Bool → M N (Exp N)
    load_all nil parsed = if parsed then ret (bool true) else fail
    load_all (cons x xs) parsed = do e ← expand x a; v ← eval e a; load_all xs parsed

    abbrev pub eval_load : Exps N → M N (Exp N)
    eval_load (cons x nil) = do
      v ← eval x a
      path ← lift (string v)
      file ← lift (m.read path)
      load_all file.0 file.1
    eval_load args = fail

    abbrev pub eval_doc : Exps N → M N (Exp N)
    eval_doc (cons x nil) = do v ← eval x a; lift (doc_of v)
    eval_doc args = fail

    abbrev pub eval_env : Exps N → M N (Exp N)
    eval_env nil h = good (list (symbols (env_keys m.less a h))) h
    eval_env args h = failed h

    abbrev pub eval_expand : Exps N → M N (Exp N)
    eval_expand (cons x nil) = expand x a
    eval_expand args = fail

    -- The loop of `while`, with fuel of its own.
    unfoldable pub eval_while : ℕ → Exp N → Exps N → Exp N → M N (Exp N)
    eval_while zero test body res = λ h. stuck
    eval_while (suc fuel) test body res =
        let again = λ (v : Exp N). eval_while fuel test body v in
        eval test a >>= λ t. if is_truthy t then (eval_do body res >>= again) else ret res

    -- The branches of `if`, which go round the evaluator's loop.
    abbrev pub eval_if : Exps N → M N (Exp N)
    eval_if (cons x (cons y rest)) = do
      t ← eval x a
      eval (if is_truthy t then y else otherwise rest) a
    eval_if args = fail

    abbrev pub eval_function : (Exp N → Exp N → Option String → Exp N) → Exps N → M N (Exp N)
    eval_function make (cons params (cons body nil)) = ret (make params body none)
    eval_function make (cons params (cons d (cons body nil))) = do
      s ← lift (string d)
      ret (make params body (some s))
    eval_function make args = fail

    -- A call: the body runs in the frame of the function.
    abbrev pub call_function : Exp N → Exp N → Exps N → M N (Exp N)
    call_function params body args = do
      vs ← eval_args args
      d ← lift (params_data params vs)
      λ h. eval body (push_env d a h).0 (push_env d a h).1

    abbrev pub apply_value : Exp N → Exps N → M N (Exp N)
    apply_value (function params body d) args = call_function params body args
    apply_value (primitive i) args = do vs ← eval_args args; lift (m.call i vs)
    apply_value e args = fail

    -- What the head of a list stands for, with its arguments; `fuel` is for the loop of `while`.
    unfoldable pub eval_form : ℕ → Form → Exp N → Exps N → M N (Exp N)
    unfolding eval_args eval_while
    eval_form fuel quote x (cons e nil) = ret e
    eval_form fuel quote x args = fail
    eval_form fuel atom x args = eval_atom args
    eval_form fuel equal x args = eval_equal args
    eval_form fuel head x args = eval_head args
    eval_form fuel tail x args = eval_tail args
    eval_form fuel cons' x args = eval_cons args
    eval_form fuel set' x args = eval_set args
    eval_form fuel while x (cons test (cons y ys)) = eval_while fuel test (cons y ys) (list nil)
    eval_form fuel while x args = fail
    eval_form fuel apply x args = eval_apply args
    eval_form fuel eval' x args = eval_eval args
    eval_form fuel do' x args = eval_do args (list nil)
    eval_form fuel load x args = eval_load args
    eval_form fuel doc x args = eval_doc args
    eval_form fuel variable x args = eval_variable args
    eval_form fuel env x args = eval_env args
    eval_form fuel expand' x args = eval_expand args
    eval_form fuel if' x args = eval_if args
    eval_form fuel function' x args = eval_function function args
    eval_form fuel macro' x args = eval_function macro args
    eval_form fuel other x args = eval x a >>= λ f. apply_value f args

    abbrev pub eval_exp : ℕ → Exp N → M N (Exp N)
    eval_exp fuel (sym key) = λ h. lift (env_get key a h) h
    eval_exp fuel (bool b) = ret (bool b)
    eval_exp fuel (num n) = ret (num n)
    eval_exp fuel (str s) = ret (str s)
    eval_exp fuel (list nil) = fail
    eval_exp fuel (list (cons x xs)) = eval_form fuel (head_form x) x xs
    eval_exp fuel e = fail
