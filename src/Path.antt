-- ===== src/Path.antt =====
-- The path functions of src/api/fs.rs, on the bytes of a path.
pub mod Laws
use moros.Prelude.{
  ℕ, zero, suc, Bool, true, false, ◌&&◌, Option, none, some, List, [], ◌∷◌, ◌++◌, length, take,
  drop, ◌==◌, if◌then◌else◌,
}

abbrev pub slash : ℕ
slash = b'/'

-- `str::rfind('/')`
unfoldable pub rfind : List ℕ → Option ℕ
rfind [] = none
rfind (c ∷ cs) = elim (rfind cs) [
  | some i ↦ some (suc i)
  | none ↦ if c == slash then some 0 else none
]

abbrev dir_end : ℕ → Option ℕ → ℕ
dir_end n (some zero) = 1
dir_end n (some (suc i)) = suc i
dir_end n none = n

unfoldable pub dirname : List ℕ → List ℕ
dirname path = take (dir_end (length path) (rfind path)) path

abbrev name_start : Option ℕ → ℕ
name_start (some i) = suc i
name_start none = 0

unfoldable pub filename : List ℕ → List ℕ
filename path = drop (name_start (rfind path)) path

abbrev pub starts_with : List ℕ → Bool
starts_with [] = false
starts_with (c ∷ cs) = c == slash

abbrev pub ends_with : List ℕ → Bool
ends_with [] = false
ends_with (c ∷ []) = c == slash
ends_with (c ∷ d ∷ cs) = ends_with (d ∷ cs)

-- `cwd` is the directory of the running process.
unfoldable pub realpath : List ℕ → List ℕ → List ℕ
realpath cwd path =
    if starts_with path then path else cwd ++ ((if ends_with cwd then [] else slash ∷ []) ++ path)

-- `trim_start_matches('/')` and `split('/')`
unfoldable pub trim_start : List ℕ → List ℕ
trim_start [] = []
trim_start (c ∷ cs) = if c == slash then trim_start cs else c ∷ cs

abbrev prepend : ℕ → List (List ℕ) → List (List ℕ)
prepend c [] = (c ∷ []) ∷ []
prepend c (p ∷ ps) = (c ∷ p) ∷ ps

unfoldable pub split : List ℕ → List (List ℕ)
split [] = [] ∷ []
split (c ∷ cs) = if c == slash then [] ∷ split cs else prepend c (split cs)

abbrev pub same_bytes : List ℕ → List ℕ → Bool
same_bytes [] [] = true
same_bytes (x ∷ xs) (y ∷ ys) = x == y && same_bytes xs ys
same_bytes _ _ = false
