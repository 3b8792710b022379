-- ===== src/Lisp/Frames.antt =====
-- Reading a variable after it is set, by src/usr/lisp/env.rs.
use Prim.Native.String.{String}
use text.Mathlib.Text.{◌==◌ as str_eq}
use text.Mathlib.TextPositions.{eq_refl}
use moros.Prelude.{
  ℕ, zero, suc, Bool, true, false, Option, none, some, [], ◌∷◌, length, length-set, ◌≡◌, refl, ◌∙◌,
  subst, ◌⊎◌, inl, inr, if◌then◌else◌,
}
use moros.Lisp.{Exp}
use moros.Lisp.Env.{
  Env, Heap, Data, get, insert, env_at, with_vars, changed, or_outer, get_from, set_from, env_get,
  env_set,
}

module _ {N : Type 0} where
  insert_case :
      (key : String) (v : Exp N) (k : String) (w : Exp N) (rest : Data N) (b : Bool)
      → str_eq k key ≡ b
      → get key (insert key v rest) ≡ some v
      → get key (if b then (key, v) ∷ rest else (k, w) ∷ insert key v rest) ≡ some v
  unfolding get
  insert_case key v k w rest true e r = rw eq_refl
  insert_case key v k w rest false e r = rw e r

  get-insert : (key : String) (v : Exp N) (d : Data N) → get key (insert key v d) ≡ some v
  unfolding get insert
  get-insert key v [] = rw eq_refl
  get-insert key v ((k, w) ∷ rest) =
      insert_case key v k w rest (str_eq k key) refl (get-insert key v rest)

  -- What has become of a frame when a variable was set somewhere.
  Seen : String → Exp N → Env N → Env N → Type 0
  Seen key v e e' =
      (e'.outer ≡ e.outer) × ((get key e'.vars ≡ some v) ⊎ (get key e'.vars ≡ get key e.vars))

  with_vars_seen :
      (h : Heap N) (a b : ℕ) (key : String) (v : Exp N)
      → Seen key v (env_at b h) (env_at b (with_vars a (insert key v (env_at a h).vars) h))
  unfolding Seen
  with_vars_seen [] a b key v = (refl, inr refl)
  with_vars_seen (e ∷ h) zero zero key v = (refl, inl (get-insert key v e.vars))
  with_vars_seen (e ∷ h) zero (suc b) key v = (refl, inr refl)
  with_vars_seen (e ∷ h) (suc a) zero key v = (refl, inr refl)
  with_vars_seen (e ∷ h) (suc a) (suc b) key v = with_vars_seen h a b key v

  with_vars_hit :
      (h : Heap N) (a : ℕ) (key : String) (v old : Exp N)
      → get key (env_at a h).vars ≡ some old
      → get key (env_at a (with_vars a (insert key v (env_at a h).vars) h)).vars ≡ some v
  unfolding get
  with_vars_hit [] a key v old e = absurd (cc)
  with_vars_hit (x ∷ h) zero key v old e = get-insert key v x.vars
  with_vars_hit (x ∷ h) (suc a) key v old e = with_vars_hit h a key v old e

  abbrev Reads : ℕ → String → Exp N → ℕ → Heap N → Heap N → Type 0
  Reads fuel key v a h h' =
      ((b : ℕ) → Seen key v (env_at b h) (env_at b h'))
      × (length h' ≡ length h)
      × (get_from fuel key a h' ≡ some v)

  here :
      (fuel : ℕ) (key : String) (v old : Exp N) (a : ℕ) (h : Heap N)
      → get key (env_at a h).vars ≡ some old
      → Reads (suc fuel) key v a h (with_vars a (insert key v (env_at a h).vars) h)
  unfolding get_from
  here fuel key v old a h f =
      (λ b. with_vars_seen h a b key v, length-set h a _, rw (with_vars_hit h a key v old f))

  further :
      (fuel : ℕ) (key : String) (v : Exp N) (a b : ℕ) (h h' : Heap N)
      → get key (env_at a h).vars ≡ none
      → (env_at a h).outer ≡ some b
      → Reads fuel key v b h h'
      → Reads (suc fuel) key v a h h'
  unfolding get_from Seen
  further fuel key v a b h h' f o (seen, l, r) =
      (seen, l, elim (seen a).1 [ inl x ↦ rw x | inr x ↦ rw (x ∙ f, (seen a).0 ∙ o) r ])

  step :
      (fuel : ℕ) (key : String) (v : Exp N) (a : ℕ) (h h' : Heap N) (found : Option (Exp N))
      → get key (env_at a h).vars ≡ found
      → (outer : Option ℕ) → (env_at a h).outer ≡ outer
      → ((b : ℕ) → set_from fuel key v b h ≡ some h' → Reads fuel key v b h h')
      → or_outer (changed key v a h found) outer (λ o. set_from fuel key v o h) ≡ some h'
      → Reads (suc fuel) key v a h h'
  step fuel key v a h h' (some old) f outer o all e =
      subst (Reads (suc fuel) key v a h) (cc) (here fuel key v old a h f)
  step fuel key v a h h' none f none o all e = absurd (cc)
  step fuel key v a h h' none f (some b) o all e = further fuel key v a b h h' f o (all b e)

  set_from_lem :
      (fuel : ℕ) (key : String) (v : Exp N) (a : ℕ) (h h' : Heap N)
      → set_from fuel key v a h ≡ some h'
      → Reads fuel key v a h h'
  unfolding set_from
  set_from_lem zero key v a h h' e = absurd (cc)
  set_from_lem (suc fuel) key v a h h' e =
      step fuel key v a h h' (get key (env_at a h).vars) refl (env_at a h).outer refl
        (λ b x. set_from_lem fuel key v b h h' x) e

  -- When `env_set` succeeds, the variable has the new value as seen from the same frame, wherever
  -- out from it the variable was found.
  pub env_get-env_set :
      (key : String) (v : Exp N) (a : ℕ) (h h' : Heap N)
      → env_set key v a h ≡ some h'
      → env_get key a h' ≡ some v
  unfolding env_get env_set
  env_get-env_set key v a h h' e =
      let (seen, l, r) = set_from_lem (length h) key v a h h' e in rw l r
