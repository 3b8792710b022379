-- ===== src/Run.antt =====
-- Results of code that may panic, and of loops of the model that may run out of fuel.
use moros.Prelude.{
  ℕ, zero, suc, ◌≡◌, ◌-◌, Bool, true, false, All, All-insert_at, All-erase_idx, [], ◌∷◌, Option,
  none, some, List, length, get_elem?, leb, ltb, if◌then◌else◌, insert_at, erase_idx,
}

pub data Run {ℓ} (A : Type ℓ) : Type ℓ where
  ok : A → Run A
  panic : Run A
  stuck : Run A

infixl 5 ◌>>=◌
abbrev pub ◌>>=◌ {ℓ κ} : {A : Type ℓ} {B : Type κ} → Run A → (A → Run B) → Run B
ok a >>= f = f a
panic >>= f = panic
stuck >>= f = stuck

-- `unwrap`
abbrev pub unwrap {ℓ} : {A : Type ℓ} → Option A → Run A
unwrap (some a) = ok a
unwrap none = panic

-- `Result<A, ()>` of the sources.
pub data Result {ℓ} (A : Type ℓ) : Type ℓ where
  good : A → Result A
  bad : Result A

-- `Vec::insert` and `Vec::remove`, which panic out of bounds.
abbrev pub vec_insert {ℓ} : {A : Type ℓ} → List A → ℕ → A → Run (List A)
vec_insert xs i x = if leb i (length xs) then ok (insert_at xs i x) else panic

abbrev pub vec_remove {ℓ} : {A : Type ℓ} → List A → ℕ → Run (List A)
vec_remove xs i = if ltb i (length xs) then ok (erase_idx xs i) else panic

-- `xs[i]`
abbrev pub index {ℓ} : {A : Type ℓ} → List A → ℕ → Run A
index xs i = unwrap (get_elem? xs i)

-- A subtraction of `usize`, which panics below 0 where overflow is checked.
abbrev pub minus : ℕ → ℕ → Run ℕ
minus a b = if leb b a then ok (a - b) else panic

-- The call returns, with a result that has the property.
abbrev pub Returns {ℓ κ} : {A : Type ℓ} → (A → Type κ) → Run A → Type (ℓ ⊔ κ)
Returns {A} P r = (a : A) × (r ≡ ok a) × P a

pub Returns-bind {ℓ κ ℓ' κ'} :
    {A : Type ℓ} {B : Type ℓ'} (P : A → Type κ) (Q : B → Type κ') (m : Run A) (f : A → Run B)
    → Returns P m
    → ((a : A) → P a → Returns Q (f a))
    → Returns Q (m >>= f)
Returns-bind P Q m f (a, e, h) k = rw e (k a h)

-- A choice between two calls that return.
pub Returns-if {ℓ κ} :
    {A : Type ℓ} (P : A → Type κ) (b : Bool) {r r' : Run A}
    → Returns P r
    → Returns P r'
    → Returns P (if b then r else r')
Returns-if P true h h' = h
Returns-if P false h h' = h'

-- If the call returns, its result has the property.
abbrev pub Ensures {ℓ κ} : {A : Type ℓ} → (A → Type κ) → Run A → Type κ
Ensures P (ok a) = P a
Ensures P panic = Unit
Ensures P stuck = Unit

pub Ensures-bind {ℓ κ ℓ' κ'} :
    {A : Type ℓ} {B : Type ℓ'} (P : A → Type κ) (Q : B → Type κ') (m : Run A) (f : A → Run B)
    → Ensures P m
    → ((a : A) → P a → Ensures Q (f a))
    → Ensures Q (m >>= f)
Ensures-bind P Q (ok a) f h k = k a h
Ensures-bind P Q panic f h k = tt
Ensures-bind P Q stuck f h k = tt

pub Ensures-if {ℓ κ} :
    {A : Type ℓ} (P : A → Type κ) (b : Bool) (r r' : Run A)
    → Ensures P r
    → Ensures P r'
    → Ensures P (if b then r else r')
Ensures-if P true r r' h h' = h
Ensures-if P false r r' h h' = h'

pub Ensures-index {ℓ κ} :
    {A : Type ℓ} (P : A → Type κ) (xs : List A) (i : ℕ) → All P xs → Ensures P (index xs i)
Ensures-index P [] i h = tt
Ensures-index P (x ∷ xs) zero h = h.0
Ensures-index P (x ∷ xs) (suc i) h = Ensures-index P xs i h.1

pub Ensures-insert {ℓ κ} :
    {A : Type ℓ} (P : A → Type κ) (xs : List A) (i : ℕ) (x : A)
    → All P xs
    → P x
    → Ensures (All P) (vec_insert xs i x)
Ensures-insert P xs i x h p =
    Ensures-if (All P) (leb i (length xs)) (ok (insert_at xs i x)) panic
      (All-insert_at P xs i x h p) tt

pub Ensures-remove {ℓ κ} :
    {A : Type ℓ} (P : A → Type κ) (xs : List A) (i : ℕ)
    → All P xs
    → Ensures (All P) (vec_remove xs i)
Ensures-remove P xs i h =
    Ensures-if (All P) (ltb i (length xs)) (ok (erase_idx xs i)) panic (All-erase_idx P xs i h) tt
