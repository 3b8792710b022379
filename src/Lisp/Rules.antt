-- ===== src/Lisp/Rules.antt =====
-- The core of the Lisp as rules, without fuel: what an expression evaluates to in a frame, and the
-- frames it leaves. The rules describe what src/usr/lisp/eval.rs computes for quotations, lists, variables,
-- conditions, sequences, loops, functions and calls.
use Prim.Native.String.{String}
use moros.Prelude.{ℕ, List, Bool, true, false, Option, none, some, ◌≡◌}
use moros.Lisp.{Exp, Exps, primitive, function, list, bool, num, str, sym, nil, cons, is_truthy}
use moros.Lisp.Env.{Heap, env_at, env_get, env_set, insert, with_vars, params_data, push_env}
use moros.Lisp.Eval.{Machine, head_form, other}

abbrev pub one_word : {N : Type 0} → String → Exp N → Exp N
one_word s x = list (cons (sym s) (cons x nil))

abbrev pub two_words : {N : Type 0} → String → Exp N → Exp N → Exp N
two_words s x y = list (cons (sym s) (cons x (cons y nil)))

mutual
  pub data Evaluates {N : Type 0} (m : Machine N)
      : ℕ → Heap N → Exp N → Exp N → Heap N → Type 0 where
    truth : {a : ℕ} {h : Heap N} {b : Bool} → Evaluates m a h (bool b) (bool b) h
    numeral : {a : ℕ} {h : Heap N} {n : N} → Evaluates m a h (num n) (num n) h
    string : {a : ℕ} {h : Heap N} {s : String} → Evaluates m a h (str s) (str s) h
    lookup :
        {a : ℕ} {h : Heap N} {s : String} {v : Exp N}
        → env_get s a h ≡ some v
        → Evaluates m a h (sym s) v h
    quotation : {a : ℕ} {h : Heap N} {e : Exp N} → Evaluates m a h (one_word "quote" e) e h
    lambda :
        {a : ℕ} {h : Heap N} {p b : Exp N}
        → Evaluates m a h (two_words "function" p b) (function p b none) h
    definition :
        {a : ℕ} {h h' : Heap N} {s : String} {e v : Exp N}
        → Evaluates m a h e v h'
        → Evaluates m a h
            (two_words "variable" (sym s) e)
            (sym s)
            (with_vars a (insert s v (env_at a h').vars) h')
    assignment :
        {a : ℕ} {h h' i : Heap N} {s : String} {e v : Exp N}
        → Evaluates m a h e v h'
        → env_set s v a h' ≡ some i
        → Evaluates m a h (two_words "set" (sym s) e) v i
    pairing :
        {a : ℕ} {h h' i : Heap N} {x y v : Exp N} {vs : Exps N}
        → Evaluates m a h y (list vs) h'
        → Evaluates m a h' x v i
        → Evaluates m a h (two_words "cons" x y) (list (cons v vs)) i
    first :
        {a : ℕ} {h h' : Heap N} {x v : Exp N} {vs : Exps N}
        → Evaluates m a h x (list (cons v vs)) h'
        → Evaluates m a h (one_word "head" x) v h'
    others :
        {a : ℕ} {h h' : Heap N} {x v : Exp N} {vs : Exps N}
        → Evaluates m a h x (list (cons v vs)) h'
        → Evaluates m a h (one_word "tail" x) (list vs) h'
    consequent :
        {a : ℕ} {h h' i : Heap N} {t x w v : Exp N} {rest : Exps N}
        → Evaluates m a h t w h'
        → is_truthy w ≡ true
        → Evaluates m a h' x v i
        → Evaluates m a h (list (cons (sym "if") (cons t (cons x rest)))) v i
    alternate :
        {a : ℕ} {h h' i : Heap N} {t x y w v : Exp N} {rest : Exps N}
        → Evaluates m a h t w h'
        → is_truthy w ≡ false
        → Evaluates m a h' y v i
        → Evaluates m a h (list (cons (sym "if") (cons t (cons x (cons y rest))))) v i
    no_alternate :
        {a : ℕ} {h h' : Heap N} {t x w : Exp N}
        → Evaluates m a h t w h'
        → is_truthy w ≡ false
        → Evaluates m a h (two_words "if" t x) (list nil) h'
    sequence :
        {a : ℕ} {h h' : Heap N} {xs : Exps N} {v : Exp N}
        → Does m a h xs (list nil) v h'
        → Evaluates m a h (list (cons (sym "do") xs)) v h'
    loop :
        {a : ℕ} {h h' : Heap N} {t x v : Exp N} {xs : Exps N}
        → Loops m a h t (cons x xs) (list nil) v h'
        → Evaluates m a h (list (cons (sym "while") (cons t (cons x xs)))) v h'
    call_primitive :
        {a : ℕ} {h h' i : Heap N} {f v : Exp N} {k : ℕ} {args vs : Exps N}
        → head_form f ≡ other
        → Evaluates m a h f (primitive k) h'
        → EvaluatesAll m a h' args vs i
        → m.call k vs ≡ some v
        → Evaluates m a h (list (cons f args)) v i
    call :
        {a : ℕ} {h h' i j : Heap N} {f p b v : Exp N} {d : Option String} {args vs : Exps N}
        {vars : List (String × Exp N)}
        → head_form f ≡ other
        → Evaluates m a h f (function p b d) h'
        → EvaluatesAll m a h' args vs i
        → params_data p vs ≡ some vars
        → Evaluates m (push_env vars a i).0 (push_env vars a i).1 b v j
        → Evaluates m a h (list (cons f args)) v j

  -- The expressions of a sequence in order; the value is that of the last, or the one given.
  pub data Does {N : Type 0} (m : Machine N)
      : ℕ → Heap N → Exps N → Exp N → Exp N → Heap N → Type 0 where
    done : {a : ℕ} {h : Heap N} {r : Exp N} → Does m a h nil r r h
    next :
        {a : ℕ} {h h' i : Heap N} {x r v w : Exp N} {xs : Exps N}
        → Evaluates m a h x v h'
        → Does m a h' xs v w i
        → Does m a h (cons x xs) r w i

  -- The rounds of a loop.
  pub data Loops {N : Type 0} (m : Machine N)
      : ℕ → Heap N → Exp N → Exps N → Exp N → Exp N → Heap N → Type 0 where
    ended :
        {a : ℕ} {h h' : Heap N} {t w r : Exp N} {xs : Exps N}
        → Evaluates m a h t w h'
        → is_truthy w ≡ false
        → Loops m a h t xs r r h'
    again :
        {a : ℕ} {h h' i j : Heap N} {t w r r' v : Exp N} {xs : Exps N}
        → Evaluates m a h t w h'
        → is_truthy w ≡ true
        → Does m a h' xs r r' i
        → Loops m a i t xs r' v j
        → Loops m a h t xs r v j

  pub data EvaluatesAll {N : Type 0} (m : Machine N)
      : ℕ → Heap N → Exps N → Exps N → Heap N → Type 0 where
    no_more : {a : ℕ} {h : Heap N} → EvaluatesAll m a h nil nil h
    more :
        {a : ℕ} {h h' i : Heap N} {x v : Exp N} {xs vs : Exps N}
        → Evaluates m a h x v h'
        → EvaluatesAll m a h' xs vs i
        → EvaluatesAll m a h (cons x xs) (cons v vs) i
