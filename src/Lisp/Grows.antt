-- ===== src/Lisp/Grows.antt =====
-- Runs of the interpreter with little fuel and with more: the first is stuck, or they are the same.
use moros.Prelude.{Bool, true, false, ◌≡◌, refl, ap, ◌∙◌, ◌⊎◌, inl, inr, if◌then◌else◌}
use moros.Lisp.Env.{Heap}
use moros.Lisp.Eval.{Outcome, stuck, panics, failed, good, M, ◌>>=◌, after}

pub record Grows {N A : Type 0} (p q : M N A) : Type 0 where
  pub grows : (h : Heap N) → (p h ≡ stuck) ⊎ (p h ≡ q h)

module _ {N : Type 0} where
  pub Grows-refl : {A : Type 0} {p : M N A} → Grows p p
  Grows-refl = record { grows = λ h. inr refl }

  pub Grows-stuck : {A : Type 0} {q : M N A} → Grows (λ h. stuck) q
  Grows-stuck = record { grows = λ h. inl refl }

  pub Grows-read :
      {A : Type 0} {p q : Heap N → M N A}
      → ((h : Heap N) → Grows (p h) (q h))
      → Grows (λ h. p h h) (λ h. q h h)
  Grows-read all = record { grows = λ h. (all h).grows h }

  pub Grows-if :
      {A : Type 0} (b : Bool) {p q r s : M N A}
      → Grows p q
      → Grows r s
      → Grows (if b then p else r) (if b then q else s)
  Grows-if true p r = p
  Grows-if false p r = r

  after-Grows :
      {A B : Type 0} (o : Outcome N A) {f g : A → M N B}
      → ((x : A) → Grows (f x) (g x))
      → (after o f ≡ stuck) ⊎ (after o f ≡ after o g)
  after-Grows stuck all = inl refl
  after-Grows panics all = inr refl
  after-Grows (failed h) all = inr refl
  after-Grows (good x h) all = (all x).grows h

  bind_case :
      {A B : Type 0} {o o' : Outcome N A} {f g : A → M N B}
      → (o ≡ stuck) ⊎ (o ≡ o')
      → ((x : A) → Grows (f x) (g x))
      → (after o f ≡ stuck) ⊎ (after o f ≡ after o' g)
  bind_case {f = f} (inl e) all = inl (ap (λ o. after o f) e)
  bind_case {o = o} {f = f} {g = g} (inr e) all = elim (after-Grows o {f = f} {g = g} all) [
    | inl s ↦ inl s
    | inr s ↦ inr (s ∙ ap (λ o. after o g) e)
  ]

  pub Grows-bind :
      {A B : Type 0} {p q : M N A} {f g : A → M N B}
      → Grows p q
      → ((x : A) → Grows (f x) (g x))
      → Grows (p >>= f) (q >>= g)
  Grows-bind {f = f} {g = g} p all = record {
    grows = λ h. bind_case {f = f} {g = g} (p.grows h) all;
  }

  -- A step that spends no fuel.
  pub Grows-same :
      {A B : Type 0} (p : M N A) {f g : A → M N B}
      → ((x : A) → Grows (f x) (g x))
      → Grows (p >>= f) (p >>= g)
  Grows-same p {f = f} {g = g} all = Grows-bind {f = f} {g = g} Grows-refl all

  pub Grows-trans : {A : Type 0} {p q r : M N A} → Grows p q → Grows q r → Grows p r
  Grows-trans p q = record { grows = λ h. chain (p.grows h) (q.grows h) }
    where
      chain :
          {A : Type 0} {a b c : Outcome N A}
          → (a ≡ stuck) ⊎ (a ≡ b)
          → (b ≡ stuck) ⊎ (b ≡ c)
          → (a ≡ stuck) ⊎ (a ≡ c)
      chain (inl e) y = inl e
      chain (inr e) (inl s) = inl (e ∙ s)
      chain (inr e) (inr s) = inr (e ∙ s)
