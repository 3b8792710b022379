-- ===== src/Lisp/Safe.antt =====
-- Runs of the interpreter that leave a frame as it is: those in an environment whose way outwards
-- does not come to it.
use moros.Prelude.{
  ℕ, ◌≤◌, ◌<◌, Bool, true, false, Option, none, some, length, ◌≡◌, ◌≢◌, refl, sym, ◌∙◌, arith,
  if◌then◌else◌,
}
use moros.Lisp.Env.{Heap, env_at}
use moros.Lisp.Eval.{Outcome, stuck, panics, failed, good, M, ◌>>=◌, after, ret, fail, lift}

-- From `b` outwards there are frames of the heap, and `c` is none of them.
pub data Apart {N : Type 0} (c : ℕ) (h : Heap N) : ℕ → Type 0 where
  apart :
      {b : ℕ}
      → b < length h
      → b ≢ c
      → ((o : ℕ) → (env_at b h).outer ≡ some o → Apart c h o)
      → Apart c h b

-- The frame is as it was, and so is where each frame leads.
pub record Keeps {N : Type 0} (c : ℕ) (h h' : Heap N) : Type 0 where
  pub frame : env_at c h' ≡ env_at c h
  pub outers : (b : ℕ) → b < length h → (env_at b h').outer ≡ (env_at b h).outer
  pub longer : length h ≤ length h'

abbrev pub IsKept : {N A : Type 0} → ℕ → Heap N → Outcome N A → Type 0
IsKept c h stuck = Unit
IsKept c h panics = Unit
IsKept c h (failed h') = Keeps c h h'
IsKept c h (good x h') = Keeps c h h'

pub record Safe {N A : Type 0} (c a : ℕ) (p : M N A) : Type 0 where
  pub safe : (h : Heap N) → c < length h → Apart c h a → IsKept c h (p h)

module _ {N : Type 0} {c : ℕ} where
  pub Keeps-refl : {h : Heap N} → Keeps c h h
  Keeps-refl = record { frame = refl; outers = λ b le. refl; longer = omega arith }

  Keeps-trans : {h i j : Heap N} → Keeps c h i → Keeps c i j → Keeps c h j
  Keeps-trans {h = h} {i = i} {j = j} p q = record {
    frame = q.frame ∙ p.frame;
    outers = λ b le. q.outers b (at_least le p.longer) ∙ p.outers b le;
    longer = both p.longer q.longer;
  }
    where
      at_least : {b m n : ℕ} → b < m → m ≤ n → b < n
      at_least x y = omega arith

      both : {k m n : ℕ} → k ≤ m → m ≤ n → k ≤ n
      both x y = omega arith

  pub Apart-Keeps : {h i : Heap N} {b : ℕ} → Keeps c h i → Apart c h b → Apart c i b
  Apart-Keeps {b = b} k (apart le ne rest) =
      let lon = k.longer in
      apart (omega arith) ne (λ o e. Apart-Keeps k (rest o (sym (k.outers b le) ∙ e)))

  pub IsKept-Keeps :
      {A : Type 0} {h i : Heap N} (o : Outcome N A) → Keeps c h i → IsKept c i o → IsKept c h o
  IsKept-Keeps stuck k x = tt
  IsKept-Keeps panics k x = tt
  IsKept-Keeps (failed j) k x = Keeps-trans k x
  IsKept-Keeps (good v j) k x = Keeps-trans k x

  after-Safe :
      {A B : Type 0} {a : ℕ} {h : Heap N} (o : Outcome N A) {f : A → M N B}
      → c < length h
      → Apart c h a
      → IsKept c h o
      → ((x : A) → Safe c a (f x))
      → IsKept c h (after o f)
  after-Safe stuck le d k all = tt
  after-Safe panics le d k all = tt
  after-Safe (failed j) le d k all = k
  after-Safe (good x j) {f = f} le d k all =
      let lon = k.longer in IsKept-Keeps (f x j) k ((all x).safe j (omega arith) (Apart-Keeps k d))

  pub Safe-bind :
      {A B : Type 0} {a : ℕ} {p : M N A} {f : A → M N B}
      → Safe c a p
      → ((x : A) → Safe c a (f x))
      → Safe c a (p >>= f)
  Safe-bind {p = p} {f = f} s all = record {
    safe = λ h le d. after-Safe (p h) {f = f} le d (s.safe h le d) all;
  }

  pub Safe-ret : {A : Type 0} {a : ℕ} (x : A) → Safe {N = N} c a (ret x)
  Safe-ret x = record { safe = λ h le d. Keeps-refl }

  pub Safe-fail : {A : Type 0} {a : ℕ} → Safe {N = N} {A = A} c a fail
  Safe-fail = record { safe = λ h le d. Keeps-refl }

  pub Safe-stuck : {A : Type 0} {a : ℕ} → Safe {N = N} {A = A} c a (λ h. stuck)
  Safe-stuck = record { safe = λ h le d. tt }

  pub Safe-lift : {A : Type 0} {a : ℕ} (o : Option A) → Safe {N = N} c a (lift o)
  Safe-lift none = record { safe = λ h le d. Keeps-refl }
  Safe-lift (some x) = record { safe = λ h le d. Keeps-refl }

  pub Safe-read :
      {A : Type 0} {a : ℕ} {p : Heap N → M N A}
      → ((h : Heap N) → Safe c a (p h))
      → Safe c a (λ h. p h h)
  Safe-read all = record { safe = λ h le d. (all h).safe h le d }

  pub Safe-if :
      {A : Type 0} {a : ℕ} (b : Bool) {p q : M N A}
      → Safe c a p
      → Safe c a q
      → Safe c a (if b then p else q)
  Safe-if true p q = p
  Safe-if false p q = q
