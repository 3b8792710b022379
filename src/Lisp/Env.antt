-- ===== src/Lisp/Env.antt =====
-- The environments of src/usr/lisp/env.rs: frames in a heap, each with the address of the next
-- outer one. A function's frame has a copy of the caller's frame outside it, as the source makes
-- one by `clone`, and shares what lies further out.
use Prim.Native.String.{String}
use text.Mathlib.Text.{◌==◌ as str_eq}
use moros.Prelude.{
  ℕ, zero, suc, ◌+◌, Bool, Option, none, some, List, [], ◌∷◌, ◌++◌, length, set, if◌then◌else◌,
}
use moros.Lisp.{Exp, Exps, list, sym, nil, cons}

-- The map of a frame, by its pairs; `less` is the order of strings of the standard library.
abbrev pub Data : Type 0 → Type 0
Data N = List (String × Exp N)

pub record Env (N : Type 0) : Type 0 where
  pub vars : Data N
  pub outer : Option ℕ

abbrev pub Heap : Type 0 → Type 0
Heap N = List (Env N)

-- A search from a frame outwards: what was found here, or what `rest` finds further out.
abbrev pub or_outer : {A : Type 0} → Option A → Option ℕ → (ℕ → Option A) → Option A
or_outer (some a) outer rest = some a
or_outer none none rest = none
or_outer none (some o) rest = rest o

abbrev insert_key : (String → String → Bool) → String → List String → List String
insert_key less k [] = k ∷ []
insert_key less k (j ∷ js) = if less j k then j ∷ insert_key less k js else k ∷ j ∷ js

abbrev outer_keys : Option ℕ → (ℕ → List String) → List String
outer_keys none rest = []
outer_keys (some o) rest = rest o

module _ {N : Type 0} where
  unfoldable pub get : String → Data N → Option (Exp N)
  get key [] = none
  get key ((k, v) ∷ rest) = if str_eq k key then some v else get key rest

  -- `BTreeMap::insert`, up to the order of the keys.
  unfoldable pub insert : String → Exp N → Data N → Data N
  insert key v [] = (key, v) ∷ []
  insert key v ((k, w) ∷ rest) =
      let more = insert key v rest in if str_eq k key then (key, v) ∷ rest else (k, w) ∷ more

  -- The frame at an address.
  abbrev pub env_at : ℕ → Heap N → Env N
  env_at a [] = record { vars = []; outer = none }
  env_at zero (e ∷ h) = e
  env_at (suc a) (e ∷ h) = env_at a h

  abbrev pub with_vars : ℕ → Data N → Heap N → Heap N
  with_vars a d h = set h a (record { vars = d; outer = (env_at a h).outer })

  -- At most `fuel` frames are searched; `none` is the error of the source.
  unfoldable pub get_from : ℕ → String → ℕ → Heap N → Option (Exp N)
  unfolding get
  get_from zero key a h = none
  get_from (suc fuel) key a h =
      or_outer (get key (env_at a h).vars) (env_at a h).outer (λ o. get_from fuel key o h)

  -- A frame lies behind those that are further out, so that there are enough.
  unfoldable pub env_get : String → ℕ → Heap N → Option (Exp N)
  unfolding get_from
  env_get key a h = get_from (length h) key a h

  -- The frame that has the variable is changed.
  abbrev pub changed : String → Exp N → ℕ → Heap N → Option (Exp N) → Option (Heap N)
  changed key v a h none = none
  changed key v a h (some old) = some (with_vars a (insert key v (env_at a h).vars) h)

  unfoldable pub set_from : ℕ → String → Exp N → ℕ → Heap N → Option (Heap N)
  unfolding get insert
  set_from zero key v a h = none
  set_from (suc fuel) key v a h =
      or_outer (changed key v a h (get key (env_at a h).vars)) (env_at a h).outer
        (λ o. set_from fuel key v o h)

  unfoldable pub env_set : String → Exp N → ℕ → Heap N → Option (Heap N)
  unfolding set_from
  env_set key v a h = set_from (length h) key v a h

  -- A `BTreeMap` gives its keys in their order.
  module _ (less : String → String → Bool) where
    abbrev keys : Data N → List String
    keys [] = []
    keys ((k, v) ∷ rest) = insert_key less k (keys rest)

    unfoldable pub keys_from : ℕ → ℕ → Heap N → List String
    keys_from zero a h = []
    keys_from (suc fuel) a h =
        keys (env_at a h).vars ++ outer_keys (env_at a h).outer (λ o. keys_from fuel o h)

    unfoldable pub env_keys : ℕ → Heap N → List String
    unfolding keys_from
    env_keys a h = keys_from (length h) a h

  -- Parameters and arguments side by side. A last parameter `(splice name)` takes the arguments
  -- that are left, at least one.
  unfoldable pub bind_params : Exps N → Exps N → Data N → Option (Data N)
  unfolding insert
  bind_params nil nil d = some d
  bind_params (cons (sym s) ps) (cons a rest) d = bind_params ps rest (insert s a d)
  bind_params (cons (list (cons (sym splice) (cons (sym s) nil))) nil) (cons a rest) d =
      if str_eq splice "splice" then some (insert s (list (cons a rest)) d) else none
  bind_params ps args d = none

  unfoldable pub params_data : Exp N → Exps N → Option (Data N)
  unfolding bind_params
  params_data (sym s) args = some ((s, list args) ∷ [])
  params_data (list ps) args = bind_params ps args []
  params_data e args = none

  -- The two frames that `inner_env` makes: the copy of the caller's, and the new one.
  unfoldable pub push_env : Data N → ℕ → Heap N → ℕ × Heap N
  push_env d a h =
      (length h + 1, h ++ env_at a h ∷ record { vars = d; outer = some (length h) } ∷ [])
