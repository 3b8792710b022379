-- ===== src/Bytes.antt =====
-- Buffers of bytes: what keeps every item of a buffer below 256.
use moros.Prelude.{
  ℕ, zero, suc, ◌/◌, ◌%◌, ◌<◌, List, [], ◌∷◌, ◌++◌, arith, get_or, set, overwrite, replicate, take,
  drop, Bool, true, ◌&&◌, ◌≡◌, ltb,
}
use moros.Word.{to_be_bytes}

abbrev pub IsBytes : List ℕ → Type 0
IsBytes xs = (j : ℕ) → get_or xs j 0 < 256

pub IsBytes-nil : IsBytes []
IsBytes-nil j = omega arith

pub IsBytes-cons : (x : ℕ) (xs : List ℕ) → x < 256 → IsBytes xs → IsBytes (x ∷ xs)
IsBytes-cons x xs h k zero = h
IsBytes-cons x xs h k (suc j) = k j

pub IsBytes-tail : (x : ℕ) (xs : List ℕ) → IsBytes (x ∷ xs) → IsBytes xs
IsBytes-tail x xs h j = h (suc j)

pub IsBytes-append : (xs ys : List ℕ) → IsBytes xs → IsBytes ys → IsBytes (xs ++ ys)
IsBytes-append [] ys h k = k
IsBytes-append (x ∷ xs) ys h k =
    IsBytes-cons x (xs ++ ys) (h zero) (IsBytes-append xs ys (IsBytes-tail x xs h) k)

pub IsBytes-set : (xs : List ℕ) (i v : ℕ) → IsBytes xs → v < 256 → IsBytes (set xs i v)
IsBytes-set [] i v h k = h
IsBytes-set (x ∷ xs) zero v h k = IsBytes-cons v xs k (IsBytes-tail x xs h)
IsBytes-set (x ∷ xs) (suc i) v h k =
    IsBytes-cons x (set xs i v) (h zero) (IsBytes-set xs i v (IsBytes-tail x xs h) k)

pub IsBytes-overwrite :
    (xs : List ℕ) (i : ℕ) (ys : List ℕ) → IsBytes xs → IsBytes ys → IsBytes (overwrite xs i ys)
IsBytes-overwrite [] i ys h k = h
IsBytes-overwrite (x ∷ xs) zero [] h k = h
IsBytes-overwrite (x ∷ xs) zero (y ∷ ys) h k =
    IsBytes-cons y (overwrite xs zero ys) (k zero)
      (IsBytes-overwrite xs zero ys (IsBytes-tail x xs h) (IsBytes-tail y ys k))
IsBytes-overwrite (x ∷ xs) (suc i) ys h k =
    IsBytes-cons x (overwrite xs i ys) (h zero) (IsBytes-overwrite xs i ys (IsBytes-tail x xs h) k)

pub IsBytes-take : (n : ℕ) (xs : List ℕ) → IsBytes xs → IsBytes (take n xs)
IsBytes-take zero xs h = IsBytes-nil
IsBytes-take (suc n) [] h = IsBytes-nil
IsBytes-take (suc n) (x ∷ xs) h =
    IsBytes-cons x (take n xs) (h zero) (IsBytes-take n xs (IsBytes-tail x xs h))

pub IsBytes-drop : (n : ℕ) (xs : List ℕ) → IsBytes xs → IsBytes (drop n xs)
IsBytes-drop zero xs h = h
IsBytes-drop (suc n) [] h = h
IsBytes-drop (suc n) (x ∷ xs) h = IsBytes-drop n xs (IsBytes-tail x xs h)

pub IsBytes-replicate : (n v : ℕ) → v < 256 → IsBytes (replicate n v)
IsBytes-replicate zero v h = IsBytes-nil
IsBytes-replicate (suc n) v h = IsBytes-cons v (replicate n v) h (IsBytes-replicate n v h)

pub IsBytes-to_be_bytes : (k n : ℕ) → IsBytes (to_be_bytes k n)
unfolding to_be_bytes
IsBytes-to_be_bytes zero n = IsBytes-nil
IsBytes-to_be_bytes (suc k) n =
    IsBytes-append (to_be_bytes k (n / 256)) (n % 256 ∷ []) (IsBytes-to_be_bytes k (n / 256))
      (IsBytes-cons (n % 256) [] (omega arith) IsBytes-nil)

-- A test, for constant buffers.
abbrev pub all_bytes : List ℕ → Bool
all_bytes [] = true
all_bytes (x ∷ xs) = ltb x 256 && all_bytes xs

pub IsBytes-of_test : (xs : List ℕ) → all_bytes xs ≡ true → IsBytes xs
IsBytes-of_test [] h = IsBytes-nil
IsBytes-of_test (x ∷ xs) h = IsBytes-cons x xs (ground arith) (IsBytes-of_test xs (ground arith))
