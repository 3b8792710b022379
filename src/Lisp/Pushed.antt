-- ===== src/Lisp/Pushed.antt =====
-- The frames of a call and of an assignment, by src/usr/lisp/env.rs, beside a frame that stays.
use Prim.Native.String.{String}
use moros.Prelude.{
  ℕ, zero, suc, ◌<◌, Option, none, some, [], ◌∷◌, ◌++◌, length, length-set, length-append, set, ◌≡◌,
  ◌≢◌, refl, ap, sym, ◌∙◌, subst, arith,
}
use moros.Lisp.{Exp}
use moros.Lisp.Env.{
  Env, Heap, Data, get, insert, env_at, with_vars, changed, or_outer, set_from, env_set, push_env,
}
use moros.Lisp.Safe.{Apart, apart, Keeps, Apart-Keeps}

module _ {N : Type 0} where
  env_at-append : (h i : Heap N) (b : ℕ) → b < length h → env_at b (h ++ i) ≡ env_at b h
  env_at-append [] i b le = absurd (omega arith)
  env_at-append (e ∷ h) i zero le = refl
  env_at-append (e ∷ h) i (suc b) le = env_at-append h i b (omega arith)

  env_at_copy : (h : Heap N) (e : Env N) (i : Heap N) → env_at (length h) (h ++ e ∷ i) ≡ e
  env_at_copy [] e i = refl
  env_at_copy (x ∷ h) e i = env_at_copy h e i

  env_at_new : (h : Heap N) (e f : Env N) → env_at (suc (length h)) (h ++ e ∷ f ∷ []) ≡ f
  env_at_new [] e f = refl
  env_at_new (x ∷ h) e f = env_at_new h e f

  env_at-set : (h : Heap N) (b c : ℕ) (e : Env N) → b ≢ c → env_at c (set h b e) ≡ env_at c h
  env_at-set [] b c e ne = refl
  env_at-set (x ∷ h) zero zero e ne = absurd (ne refl)
  env_at-set (x ∷ h) zero (suc c) e ne = refl
  env_at-set (x ∷ h) (suc b) zero e ne = refl
  env_at-set (x ∷ h) (suc b) (suc c) e ne = env_at-set h b c e (λ p. ne (ap suc p))

  with_vars_outer :
      (h : Heap N) (b c : ℕ) (d : Data N) → (env_at c (with_vars b d h)).outer ≡ (env_at c h).outer
  with_vars_outer [] b c d = refl
  with_vars_outer (x ∷ h) zero zero d = refl
  with_vars_outer (x ∷ h) zero (suc c) d = refl
  with_vars_outer (x ∷ h) (suc b) zero d = refl
  with_vars_outer (x ∷ h) (suc b) (suc c) d = with_vars_outer h b c d

  pub with_vars-Keeps : (h : Heap N) (b c : ℕ) (d : Data N) → b ≢ c → Keeps c h (with_vars b d h)
  with_vars-Keeps h b c d ne = record {
    frame = env_at-set h b c _ ne;
    outers = λ a le. with_vars_outer h b a d;
    longer =
        let l = length-set h b (record { vars = d; outer = (env_at b h).outer }) in omega arith;
  }

  pub push_env-Keeps :
      (d : Data N) (a c : ℕ) (h : Heap N) → c < length h → Keeps c h (push_env d a h).1
  unfolding push_env
  push_env-Keeps d a c h le = record {
    frame = env_at-append h _ c le;
    outers = λ b l. ap (λ (e : Env N). e.outer) (env_at-append h _ b l);
    longer =
        let l = length-append h (env_at a h ∷ record { vars = d; outer = some (length h) } ∷ []) in
        omega arith;
  }

  copy-Apart :
      (a c : ℕ) (h : Heap N) (new : Env N)
      → c < length h
      → Keeps c h (h ++ env_at a h ∷ new ∷ [])
      → ((o : ℕ) → (env_at a h).outer ≡ some o → Apart c h o)
      → Apart c (h ++ env_at a h ∷ new ∷ []) (length h)
  copy-Apart a c h new le k outside =
      let l = length-append h (env_at a h ∷ new ∷ []) in
      apart (omega arith) (λ p. absurd (omega arith))
        (λ o e. Apart-Keeps k (
          outside o
            (ap (λ (x : Env N). x.outer) (sym (env_at_copy h (env_at a h) (new ∷ []))) ∙ e)))

  new-Apart :
      (c : ℕ) (h : Heap N) (copy : Env N) (d : Data N)
      → c < length h
      → Apart c (h ++ copy ∷ record { vars = d; outer = some (length h) } ∷ []) (length h)
      → Apart c (h ++ copy ∷ record { vars = d; outer = some (length h) } ∷ []) (suc (length h))
  new-Apart c h copy d le rest =
      let l = length-append h (copy ∷ record { vars = d; outer = some (length h) } ∷ []) in
      apart (omega arith) (λ p. absurd (omega arith))
        (λ o e.
          let q =
            ap (λ (x : Env N). x.outer)
              (sym (env_at_new h copy (record { vars = d; outer = some (length h) })))
            ∙ e in
          subst (Apart c (h ++ copy ∷ record { vars = d; outer = some (length h) } ∷ [])) (cc) rest)

  -- The copy and the new frame are apart from a frame that the outer frames do not lead to.
  pub push_env-Apart :
      (d : Data N) (a c : ℕ) (h : Heap N)
      → c < length h
      → ((o : ℕ) → (env_at a h).outer ≡ some o → Apart c h o)
      → Apart c (push_env d a h).1 (push_env d a h).0
  unfolding push_env
  push_env-Apart d a c h le outside =
      subst (Apart c (h ++ env_at a h ∷ record { vars = d; outer = some (length h) } ∷ []))
        (omega arith)
        (new-Apart c h (env_at a h) d le (
          copy-Apart a c h (record { vars = d; outer = some (length h) }) le
            (push_env-Keeps d a c h le) outside))

  found-Keeps :
      (fuel : ℕ) (key : String) (v : Exp N) (a c : ℕ) (h h' : Heap N) (found : Option (Exp N))
      (outer : Option ℕ)
      → (env_at a h).outer ≡ outer
      → Apart c h a
      → ((b : ℕ) → Apart c h b → set_from fuel key v b h ≡ some h' → Keeps c h h')
      → or_outer (changed key v a h found) outer (λ o. set_from fuel key v o h) ≡ some h'
      → Keeps c h h'
  found-Keeps fuel key v a c h h' (some old) outer o (apart le ne rest) all e =
      subst (Keeps c h) (cc) (with_vars-Keeps h a c (insert key v (env_at a h).vars) ne)
  found-Keeps fuel key v a c h h' none none o d all e = absurd (cc)
  found-Keeps fuel key v a c h h' none (some b) o (apart le ne rest) all e = all b (rest b o) e

  set_from-Keeps :
      (fuel : ℕ) (key : String) (v : Exp N) (a c : ℕ) (h h' : Heap N)
      → Apart c h a
      → set_from fuel key v a h ≡ some h'
      → Keeps c h h'
  unfolding set_from
  set_from-Keeps zero key v a c h h' d e = absurd (cc)
  set_from-Keeps (suc fuel) key v a c h h' d e =
      found-Keeps fuel key v a c h h' (get key (env_at a h).vars) (env_at a h).outer refl d
        (λ b x y. set_from-Keeps fuel key v b c h h' x y) e

  pub env_set-Keeps :
      (key : String) (v : Exp N) (a c : ℕ) (h h' : Heap N)
      → Apart c h a
      → env_set key v a h ≡ some h'
      → Keeps c h h'
  unfolding env_set
  env_set-Keeps key v a c h h' d e = set_from-Keeps (length h) key v a c h h' d e
