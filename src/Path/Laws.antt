-- ===== src/Path/Laws.antt =====
-- src/api/fs.rs: the parts of a path, and the real path.
use moros.Prelude.{
  ℕ, zero, suc, ◌<◌, ◌≡◌, ◌≢◌, refl, sym, ◌∙◌, ap, ◌↔◌, ◌⊎◌, inl, inr, true, Option, none, some,
  List, [], ◌∷◌, ◌++◌, length, take, drop, take-append-drop, ◌==◌, ==_iff, if◌then◌else◌,
  Bool-cases, arith,
}
use moros.Path.{slash, rfind, dirname, filename, starts_with, realpath, same_bytes}

abbrev pub HasNo : ℕ → List ℕ → Type 0
HasNo c [] = Unit
HasNo c (x ∷ xs) = (x ≢ c) × HasNo c xs

-- What `rfind` finds: the last slash, or that there is none.
abbrev Found : List ℕ → Option ℕ → Type 0
Found path none = HasNo slash path
Found path (some i) =
    (i < length path) × (drop i path ≡ slash ∷ drop (suc i) path) × HasNo slash (drop (suc i) path)

rfind-Found : (path : List ℕ) → Found path (rfind path)
unfolding rfind
rfind-Found [] = tt
rfind-Found (c ∷ cs) = go (rfind cs) (rfind-Found cs)
  where
    go :
        (r : Option ℕ)
        → Found cs r
        → Found
            (c ∷ cs)
            (elim r [ some i ↦ some (suc i) | none ↦ if c == slash then some 0 else none ])
    go (some i) f = (omega arith, f.1, f.2)
    go none f = elim (Bool-cases (c == slash)) [
      | inl e ↦ rw e (omega arith, ap (λ t. t ∷ cs) ((==_iff c slash).0 e), f)
      | inr e ↦ rw e ((λ q. ground arith), f)
    ]

-- A path with a slash is its directory, a slash and its file name, or, at the root, its directory,
-- which is the slash, and its file name. The file name holds no slash.
pub dirname-filename :
    (path : List ℕ)
    → rfind path ≢ none
    → HasNo slash (filename path)
      × ((dirname path ++ slash ∷ filename path ≡ path)
          ⊎ (dirname path ++ filename path ≡ path) × (dirname path ≡ slash ∷ []))
unfolding dirname filename
dirname-filename path h = go (rfind path) refl (rfind-Found path)
  where
    go :
        (r : Option ℕ)
        → rfind path ≡ r
        → Found path r
        → HasNo slash (filename path)
          × ((dirname path ++ slash ∷ filename path ≡ path)
              ⊎ (dirname path ++ filename path ≡ path) × (dirname path ≡ slash ∷ []))
    go none e f = absurd (h e)
    go (some zero) e f = rw e (f.2, inr (take-append-drop 1 path, ap (take 1) f.1))
    go (some (suc i)) e f =
        rw e (f.2, inl (ap (λ t. take (suc i) path ++ t) (sym f.1) ∙ take-append-drop (suc i) path))

-- The real path of anything is absolute, if the directory of the process is.
pub realpath_absolute :
    (cwd path : List ℕ) → starts_with cwd ≡ true → starts_with (realpath cwd path) ≡ true
unfolding realpath
realpath_absolute [] path h = cc
realpath_absolute (c ∷ cs) path h = ground arith

realpath_of_absolute : (cwd path : List ℕ) → starts_with path ≡ true → realpath cwd path ≡ path
unfolding realpath
realpath_of_absolute cwd path h = rw h

-- If the directory of the process is absolute, taking the real path of a real path, in any
-- directory, changes nothing.
pub realpath-realpath :
    (cwd other path : List ℕ)
    → starts_with cwd ≡ true
    → realpath other (realpath cwd path) ≡ realpath cwd path
realpath-realpath cwd other path h =
    realpath_of_absolute other (realpath cwd path) (realpath_absolute cwd path h)

pub same_bytes_iff : (xs ys : List ℕ) → (same_bytes xs ys ≡ true) ↔ (xs ≡ ys)
same_bytes_iff xs ys = (to xs ys, λ e. rw e (same_bytes_refl ys))
  where
    to : (xs ys : List ℕ) → same_bytes xs ys ≡ true → xs ≡ ys
    to [] [] h = refl
    to [] (y ∷ ys) h = cc
    to (x ∷ xs) [] h = cc
    to (x ∷ xs) (y ∷ ys) h = ground (arith, to xs ys)

    same_bytes_refl : (xs : List ℕ) → same_bytes xs xs ≡ true
    same_bytes_refl [] = refl
    same_bytes_refl (x ∷ xs) = ground (arith, same_bytes_refl xs)
