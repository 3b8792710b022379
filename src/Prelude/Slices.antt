-- ===== src/Prelude/Slices.antt =====
-- Reading and overwriting parts of a buffer: `buf[a..b]` and `buf[a..b].clone_from_slice(ys)`.
use Prim.Native.Nat.{ℕ, zero, suc, ◌+◌, ◌-◌, ◌≤◌, ◌<◌}
use mathlib.Core.Path.{◌≡◌, refl, ap, ◌∙◌}
use mathlib.Core.Logic.{◌≢◌}
use mathlib.Core.List.{List, [], ◌∷◌, ◌++◌}
use native.Mathlib.Omega.{arith}
use moros.Prelude.Lists.{length, take, drop, get_or, set}

module _ {ℓ} {A : Type ℓ} where
  -- `buf[a..b]`, for a range inside the buffer.
  abbrev pub slice : ℕ → ℕ → List A → List A
  slice a b xs = take (b - a) (drop a xs)

  -- `xs[i..i + ys.len()].clone_from_slice(ys)`, for a range inside the buffer.
  abbrev pub overwrite : List A → ℕ → List A → List A
  overwrite [] i ys = []
  overwrite (x ∷ xs) zero [] = x ∷ xs
  overwrite (x ∷ xs) zero (y ∷ ys) = y ∷ overwrite xs zero ys
  overwrite (x ∷ xs) (suc i) ys = x ∷ overwrite xs i ys

  pub length-overwrite :
      (xs : List A) (i : ℕ) (ys : List A) → length (overwrite xs i ys) ≡ length xs
  length-overwrite [] i ys = refl
  length-overwrite (x ∷ xs) zero [] = refl
  length-overwrite (x ∷ xs) zero (y ∷ ys) = ap suc (length-overwrite xs zero ys)
  length-overwrite (x ∷ xs) (suc i) ys = ap suc (length-overwrite xs i ys)

  pub overwrite-nil : (xs : List A) (i : ℕ) → overwrite xs i [] ≡ xs
  overwrite-nil [] i = refl
  overwrite-nil (x ∷ xs) zero = refl
  overwrite-nil (x ∷ xs) (suc i) = ap (λ t. x ∷ t) (overwrite-nil xs i)

  pub drop-nil : (n : ℕ) → drop {A = A} n [] ≡ []
  drop-nil zero = refl
  drop-nil (suc n) = refl

  -- The prefix of a buffer that starts with `ys`.
  pub take-length-append : (ys zs : List A) → take (length ys) (ys ++ zs) ≡ ys
  take-length-append [] zs = refl
  take-length-append (y ∷ ys) zs = ap (λ t. y ∷ t) (take-length-append ys zs)

  pub drop-length-append : (ys zs : List A) → drop (length ys) (ys ++ zs) ≡ zs
  drop-length-append [] zs = refl
  drop-length-append (y ∷ ys) zs = drop-length-append ys zs

  -- What was written at `i` stands there, followed by the old rest.
  pub drop-overwrite_self :
      (xs : List A) (i : ℕ) (ys : List A)
      → i + length ys ≤ length xs
      → drop i (overwrite xs i ys) ≡ ys ++ drop (i + length ys) xs
  drop-overwrite_self [] zero [] h = refl
  drop-overwrite_self [] zero (y ∷ ys) h = absurd (omega arith)
  drop-overwrite_self [] (suc i) ys h = absurd (omega arith)
  drop-overwrite_self (x ∷ xs) zero [] h = refl
  drop-overwrite_self (x ∷ xs) zero (y ∷ ys) h =
      ap (λ t. y ∷ t) (drop-overwrite_self xs zero ys (omega arith))
      ∙ ap (λ t. y ∷ ys ++ drop t (x ∷ xs))
          (let e : suc (0 + length ys) ≡ 0 + suc (length ys) = omega arith in e)
  drop-overwrite_self (x ∷ xs) (suc i) ys h =
      drop-overwrite_self xs i ys (omega arith)
      ∙ ap (λ t. ys ++ drop t (x ∷ xs))
          (let e : suc (i + length ys) ≡ suc i + length ys = omega arith in e)

  -- Bytes before the written range are kept.
  pub take-overwrite_before :
      (xs : List A) (i b : ℕ) (ys : List A) → b ≤ i → take b (overwrite xs i ys) ≡ take b xs
  take-overwrite_before xs i zero ys h = refl
  take-overwrite_before [] i (suc b) ys h = refl
  take-overwrite_before (x ∷ xs) zero (suc b) ys h = absurd (omega arith)
  take-overwrite_before (x ∷ xs) (suc i) (suc b) ys h =
      ap (λ t. x ∷ t) (take-overwrite_before xs i b ys (omega arith))

  -- Bytes after the written range are kept.
  pub drop-overwrite_after :
      (xs : List A) (i a : ℕ) (ys : List A)
      → i + length ys ≤ a
      → drop a (overwrite xs i ys) ≡ drop a xs
  drop-overwrite_after [] i a ys h = refl
  drop-overwrite_after (x ∷ xs) zero a [] h = refl
  drop-overwrite_after (x ∷ xs) zero zero (y ∷ ys) h = absurd (omega arith)
  drop-overwrite_after (x ∷ xs) zero (suc a) (y ∷ ys) h =
      drop-overwrite_after xs zero a ys (omega arith)
  drop-overwrite_after (x ∷ xs) (suc i) zero ys h = absurd (omega arith)
  drop-overwrite_after (x ∷ xs) (suc i) (suc a) ys h = drop-overwrite_after xs i a ys (omega arith)

  -- An access at `a + i` is an access at `i` behind the first `a` items.
  pub get_or-drop : (a i : ℕ) (xs : List A) (d : A) → get_or (drop a xs) i d ≡ get_or xs (a + i) d
  get_or-drop zero i xs d = ap (λ t. get_or xs t d) (let e : i ≡ 0 + i = omega arith in e)
  get_or-drop (suc a) i [] d = refl
  get_or-drop (suc a) i (x ∷ xs) d =
      get_or-drop a i xs d
      ∙ ap (λ t. get_or (x ∷ xs) t d) (let e : suc (a + i) ≡ suc a + i = omega arith in e)

  pub drop-drop : (a b : ℕ) (xs : List A) → drop a (drop b xs) ≡ drop (b + a) xs
  drop-drop a zero xs = ap (λ t. drop t xs) (let e : a ≡ 0 + a = omega arith in e)
  drop-drop a (suc b) [] =
      drop-nil a ∙ ap (λ t. drop t []) (let e : suc (b + a) ≡ suc b + a = omega arith in e)
  drop-drop a (suc b) (x ∷ xs) =
      drop-drop a b xs
      ∙ ap (λ t. drop t (x ∷ xs)) (let e : suc (b + a) ≡ suc b + a = omega arith in e)

  pub get_or-set_self :
      (xs : List A) (i : ℕ) (v d : A) → i < length xs → get_or (set xs i v) i d ≡ v
  get_or-set_self [] i v d h = absurd (omega arith)
  get_or-set_self (x ∷ xs) zero v d h = refl
  get_or-set_self (x ∷ xs) (suc i) v d h = get_or-set_self xs i v d (omega arith)

  pub get_or-set_ne :
      (xs : List A) (i j : ℕ) (v d : A) → i ≢ j → get_or (set xs i v) j d ≡ get_or xs j d
  get_or-set_ne [] i j v d h = refl
  get_or-set_ne (x ∷ xs) zero zero v d h = absurd (h refl)
  get_or-set_ne (x ∷ xs) zero (suc j) v d h = refl
  get_or-set_ne (x ∷ xs) (suc i) zero v d h = refl
  get_or-set_ne (x ∷ xs) (suc i) (suc j) v d h = get_or-set_ne xs i j v d (λ e. h (ap suc e))
