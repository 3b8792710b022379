-- ===== src/Prelude/Vectors.antt =====
-- `Vec::insert` and `Vec::remove` inside their bounds, `Vec::pop` and `Vec::push`.
use Prim.Native.Nat.{ℕ, zero, suc, ◌≤◌, ◌<◌}
use mathlib.Core.Path.{◌≡◌, refl, ap}
use mathlib.Core.List.{List, [], ◌∷◌, ◌++◌}
use mathlib.Core.Option.{Option, none, some}
use native.Mathlib.Omega.{arith}
use moros.Prelude.Lists.{length, get_elem?, get_or}

module _ {ℓ} {A : Type ℓ} where
  abbrev pub insert_at : List A → ℕ → A → List A
  insert_at xs zero y = y ∷ xs
  insert_at [] (suc i) y = y ∷ []
  insert_at (x ∷ xs) (suc i) y = x ∷ insert_at xs i y

  abbrev pub erase_idx : List A → ℕ → List A
  erase_idx [] i = []
  erase_idx (x ∷ xs) zero = xs
  erase_idx (x ∷ xs) (suc i) = x ∷ erase_idx xs i

  -- An insertion makes a vector longer by one, at any index.
  pub length-insert_at : (xs : List A) (i : ℕ) (y : A) → length (insert_at xs i y) ≡ suc (length xs)
  length-insert_at xs zero y = refl
  length-insert_at [] (suc i) y = refl
  length-insert_at (x ∷ xs) (suc i) y = ap suc (length-insert_at xs i y)

  -- A removal inside the vector takes back what an insertion did.
  pub erase_idx-insert_at :
      (items : List A) (n : ℕ) (v : A)
      → n ≤ length items
      → erase_idx (insert_at items n v) n ≡ items
  erase_idx-insert_at [] zero v le = refl
  erase_idx-insert_at [] (suc n) v le = absurd (omega arith)
  erase_idx-insert_at (a ∷ items) zero v le = refl
  erase_idx-insert_at (a ∷ items) (suc n) v le =
      let back = erase_idx-insert_at items n v (omega arith) in cc back

  pub get_elem?-lt :
      (xs : List A) (i : ℕ) (d : A) → i < length xs → get_elem? xs i ≡ some (get_or xs i d)
  get_elem?-lt [] i d h = absurd (omega arith)
  get_elem?-lt (x ∷ xs) zero d h = refl
  get_elem?-lt (x ∷ xs) (suc i) d h = get_elem?-lt xs i d (omega arith)

  pub length-erase_idx :
      (items : List A) (n : ℕ) → n < length items → suc (length (erase_idx items n)) ≡ length items
  length-erase_idx (a ∷ items) zero lt = refl
  length-erase_idx (a ∷ items) (suc n) lt =
      let shorter = length-erase_idx items n (omega arith) in omega arith
  length-erase_idx [] n lt = absurd (omega arith)

  -- `Vec::pop` gives the last item.
  abbrev pub last? : List A → Option A
  last? [] = none
  last? (x ∷ []) = some x
  last? (x ∷ y ∷ xs) = last? (y ∷ xs)

  pub last?-append : (xs : List A) (x : A) → last? (xs ++ x ∷ []) ≡ some x
  last?-append [] x = refl
  last?-append (y ∷ []) x = refl
  last?-append (y ∷ z ∷ xs) x = last?-append (z ∷ xs) x
