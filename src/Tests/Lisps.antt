-- ===== src/Tests/Lisps.antt =====
-- Runs of the interpreter, with lists that are already parsed, and its theorems at concrete inputs.
use Prim.Native.String.{String}
use moros.Prelude.{
  ℕ, ◌+◌, ◌≡◌, ◌≤◌, refl, false, Option, none, some, [], ◌∷◌, arith, ◌==◌, ◌⊎◌, ltb, leb, ◌-◌, ◌*◌,
  ◌/◌, ◌%◌, ◌^◌,
}
use moros.Lisp.{Exp, Exps, primitive, list, num, sym, nil, cons, bool, exp_eq}
use moros.Lisp.Env.{
  Heap, get, insert, env_get, env_set, get_from, set_from, bind_params, params_data, push_env,
}
use moros.Lisp.Eval.{
  head_form, other, Machine, Outcome, stuck, panics, failed, good, eval_form, form, eval_args,
}
use moros.Lisp.Expand.{expand_quasiquote, expand_items}
use moros.Lisp.Rules.{
  Evaluates, sequence, next, done, assignment, call_primitive, lookup, numeral, no_more, more,
  consequent, pairing, quotation,
}
use moros.Lisp.Sound.{eval-Evaluates}
use moros.Lisp.Run.{eval, expand, parse_eval}
use moros.Run.{ok, panic}
use moros.Lisp.Primitive.{
  Numbers, lisp_chunks, chunks, lisp_unique, compare, lisp_lt, lisp_div, lisp_sub,
}
use moros.Lisp.Template.{
  Filled, hole, items, word, number, nothing, also, depth, parse_eval-expand_quasiquote,
}
use moros.Lisp.Caller.{eval-push_env}
use moros.Lisp.Safe.{IsKept}
use moros.Lisp.Frames.{env_get-env_set}

-- A machine whose primitive is the sum of two numbers.
abbrev add : ℕ → Exps ℕ → Option (Exp ℕ)
add i (cons (num a) (cons (num b) nil)) = some (num (a + b))
add i xs = none

abbrev machine : Machine ℕ
machine = record { num_eq = ◌==◌; call = add; less = λ s t. false; read = λ path. none }

abbrev call : String → Exps ℕ → Exp ℕ
call s xs = list (cons (sym s) xs)

abbrev one : Exp ℕ → Exps ℕ
one e = cons e nil

abbrev two : Exp ℕ → Exp ℕ → Exps ℕ
two a b = cons a (cons b nil)

abbrev globals : Heap ℕ
globals = record { vars = ("+", primitive 0) ∷ ("x", num 7) ∷ []; outer = none } ∷ []

abbrev value : Outcome ℕ (Exp ℕ) → Option (Exp ℕ)
value stuck = none
value panics = none
value (failed h) = none
value (good e h) = some e

-- `(+ 1 x)`
sum_run : value (parse_eval machine 9 (call "+" (two (num 1) (sym "x"))) 0 globals) ≡ some (num 8)
unfolding parse_eval eval expand eval_form form eval_args expand_items env_get get_from get
sum_run = refl

-- `(do (variable f (function (y) (set x y))) (f 2) x)`: the caller keeps its variable.
set_run :
    value (
      parse_eval machine 20
        (list (
          cons (sym "do") (
            cons
              (call "variable" (
                two (sym "f") (
                  call "function"
                    (two (list (one (sym "y"))) (call "set" (two (sym "x") (sym "y")))))))
              (two (call "f" (one (num 2))) (sym "x")))))
        0
        globals)
    ≡ some (num 7)
unfolding parse_eval eval expand eval_form form eval_args expand_items env_get get_from get insert
    env_set set_from bind_params params_data push_env
set_run = refl

-- `(quasiquote (unquote))` panics.
unquote_run : expand_quasiquote {N = ℕ} (list (one (sym "unquote"))) ≡ none
unfolding expand_quasiquote
unquote_run = refl

-- `(a ,x 1)`
abbrev template : Exp ℕ
template = list (cons (sym "a") (two (call "unquote" (one (sym "x"))) (num 1)))

x_get : env_get "x" 0 globals ≡ some (num 7)
unfolding env_get get_from get
x_get = refl

template-Filled : Filled 0 globals template (list (cons (sym "a") (two (num 7) (num 1))))
template-Filled = items (also refl word (also refl (hole x_get) (also refl number nothing)))

template_depth : depth template ≤ 20
unfolding depth
template_depth = omega arith

parse_eval-expand_quasiquote_example :
    parse_eval machine 20 (call "quasiquote" (one template)) 0 globals
    ≡ good (list (cons (sym "a") (two (num 7) (num 1)))) globals
parse_eval-expand_quasiquote_example =
    parse_eval-expand_quasiquote machine 0 globals template-Filled 20 template_depth

abbrev changed_globals : Heap ℕ
changed_globals = record { vars = ("+", primitive 0) ∷ ("x", num 9) ∷ []; outer = none } ∷ []

x_set : env_set "x" (num 9) 0 globals ≡ some changed_globals
unfolding env_set set_from get insert
x_set = refl

env_get-env_set_example : env_get "x" 0 changed_globals ≡ some (num 9)
env_get-env_set_example = env_get-env_set "x" (num 9) 0 globals changed_globals x_set

eval-push_env_example : IsKept 0 globals (
    eval machine 20
      (call "set" (two (sym "x") (num 2)))
      (push_env [] 0 globals).0
      (push_env [] 0 globals).1)
eval-push_env_example =
    eval-push_env machine 20 (call "set" (two (sym "x") (num 2))) [] 0 globals (omega arith)
      (λ o e. absurd (cc))

abbrev numbers_of : Numbers ℕ
numbers_of = record {
  zero' = 0;
  one = 1;
  eq = ◌==◌;
  gt = λ a b. ltb b a;
  gte = λ a b. leb b a;
  lt = ltb;
  lte = leb;
  add = ◌+◌;
  sub = ◌-◌;
  mul = ◌*◌;
  div = ◌/◌;
  rem = ◌%◌;
  pow = ◌^◌;
  neg = λ a. 0 - a;
  is_zero = λ a. a == 0;
  to_usize = some;
}

abbrev three : Exps ℕ
three = cons (num 1) (two (num 1) (num 2))

-- `(chunks '(1 1 2) 2)`
chunks_run :
    lisp_chunks numbers_of (two (list three) (num 2))
    ≡ ok (some (list (two (list (two (num 1) (num 1))) (list (one (num 2))))))
unfolding lisp_chunks chunks
chunks_run = refl

-- `(chunks '(1 1 2) 0)` panics.
chunks_zero : lisp_chunks numbers_of (two (list three) (num 0)) ≡ panic
unfolding lisp_chunks chunks
chunks_zero = refl

unique_run : lisp_unique numbers_of (one (list three)) ≡ some (list (two (num 1) (num 2)))
unfolding exp_eq
unique_run = refl

less_run : lisp_lt numbers_of three ≡ some (bool false)
unfolding compare
less_run = refl

div_run : lisp_div numbers_of (two (num 1) (num 0)) ≡ none
div_run = refl

sub_run : lisp_sub numbers_of (cons (num 9) three) ≡ some (num 5)
sub_run = refl

-- `(do (set x (+ x 2)) (if x (cons x '()) 0))`
abbrev program : Exp ℕ
program = list (
    cons (sym "do") (
      two (call "set" (two (sym "x") (call "+" (two (sym "x") (num 2))))) (
        call "if" (
          cons (sym "x")
            (two (call "cons" (two (sym "x") (call "quote" (one (list nil))))) (num 0))))))

plus_get : env_get "+" 0 globals ≡ some (primitive 0)
unfolding env_get get_from get
plus_get = refl

plus_head : head_form {N = ℕ} (sym "+") ≡ other
unfolding form
plus_head = refl

program-Evaluates : Evaluates machine 0 globals program (list (one (num 9))) changed_globals
program-Evaluates =
    let changed_get = env_get-env_set "x" (num 9) 0 globals changed_globals x_set in
    sequence (
      next
        (assignment
          (call_primitive plus_head (lookup plus_get) (more (lookup x_get) (more numeral no_more))
            refl)
          x_set)
        (next (consequent (lookup changed_get) refl (pairing quotation (lookup changed_get))) done))

eval-Evaluates_example :
    ((n : ℕ) × ((rest : ℕ)
        → eval machine (rest + n) program 0 globals ≡ good (list (one (num 9))) changed_globals))
    × ((fuel : ℕ)
        → (eval machine fuel program 0 globals ≡ stuck)
          ⊎ (eval machine fuel program 0 globals ≡ good (list (one (num 9))) changed_globals))
eval-Evaluates_example = eval-Evaluates machine program-Evaluates
