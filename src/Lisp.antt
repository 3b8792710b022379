-- ===== src/Lisp.antt =====
-- The expressions of the Lisp of src/usr/lisp/mod.rs. A `String` is the native one. The numbers,
-- their equality, and the primitives that the evaluator calls are arguments. The text of an error
-- is left out.
pub mod Env
pub mod Eval
pub mod Expand
pub mod Grows
pub mod Safe
mod Pushed
mod EvalGrows
mod ExpandGrows
mod EvalSafe
mod ExpandSafe
pub mod Caller
pub mod Run
pub mod Fuel
pub mod Rules
pub mod Sound
pub mod Primitive
pub mod Chunks
pub mod Template
pub mod Frames
use Prim.Native.String.{String}
use text.Mathlib.Text.{◌==◌ as str_eq}
use moros.Prelude.{ℕ, Bool, true, false, not, ◌&&◌, Option, none, some, List, [], ◌∷◌}

-- A `Vec<Exp>` is a list of its own, and so is the map of a dictionary.
mutual
  pub data Exp (N : Type 0) : Type 0 where
    primitive : ℕ → Exp N
    function : Exp N → Exp N → Option String → Exp N
    macro : Exp N → Exp N → Option String → Exp N
    list : Exps N → Exp N
    dict : Pairs N → Exp N
    bool : Bool → Exp N
    num : N → Exp N
    str : String → Exp N
    sym : String → Exp N

  pub data Exps (N : Type 0) : Type 0 where
    nil : Exps N
    cons : Exp N → Exps N → Exps N

  pub data Pairs (N : Type 0) : Type 0 where
    end : Pairs N
    pair : String → Exp N → Pairs N → Pairs N

abbrev pub is_truthy : {N : Type 0} → Exp N → Bool
is_truthy (bool b) = b
is_truthy (list nil) = false
is_truthy e = true

abbrev pub append : {N : Type 0} → Exps N → Exps N → Exps N
append nil ys = ys
append (cons x xs) ys = cons x (append xs ys)

abbrev same_doc : Option String → Option String → Bool
same_doc none none = true
same_doc (some s) (some t) = str_eq s t
same_doc none (some t) = false
same_doc (some s) none = false

-- `PartialEq`: two primitives are never equal.
module _ {N : Type 0} (num_eq : N → N → Bool) where
  unfoldable mutual
    pub exp_eq : Exp N → Exp N → Bool
    exp_eq (function p b d) (function p' b' d') = exp_eq p p' && exp_eq b b' && same_doc d d'
    exp_eq (macro p b d) (macro p' b' d') = exp_eq p p' && exp_eq b b' && same_doc d d'
    exp_eq (list xs) (list ys) = exps_eq xs ys
    exp_eq (dict xs) (dict ys) = pairs_eq xs ys
    exp_eq (bool true) (bool b) = b
    exp_eq (bool false) (bool b) = not b
    exp_eq (num a) (num b) = num_eq a b
    exp_eq (str s) (str t) = str_eq s t
    exp_eq (sym s) (sym t) = str_eq s t
    exp_eq a b = false

    exps_eq : Exps N → Exps N → Bool
    exps_eq nil nil = true
    exps_eq (cons x xs) (cons y ys) = exp_eq x y && exps_eq xs ys
    exps_eq xs ys = false

    pairs_eq : Pairs N → Pairs N → Bool
    pairs_eq end end = true
    pairs_eq (pair k v xs) (pair j w ys) = str_eq k j && exp_eq v w && pairs_eq xs ys
    pairs_eq xs ys = false
