-- ===== src/Fs/File/Write.antt =====
-- src/sys/fs/file.rs, the inner loop of `write`: the bytes of a block, by their positions in the
-- file.
use moros.Prelude.{
  ℕ, suc, ◌+◌, ◌-◌, ◌≤◌, ◌<◌, ◌≡◌, refl, sym, ◌∙◌, ap, inl, inr, true, false, List, [], ◌∷◌, ◌++◌,
  arith, length, get_or, ◌==◌, if◌then◌else◌, Bool-cases, ltb, min, lt_or_ge,
}
use moros.Word.{u32_mod, add32}
use moros.Fs.File.{Writer, write_ends, write_byte, write_block}

module _ (buf : List ℕ) (begin : ℕ) where
  -- Where the write ends.
  abbrev pub total : ℕ
  total = begin + length buf

  -- The variables of the loop at a position.
  abbrev pub at : ℕ → Writer
  at p = record { pos = p; offset = begin + (p - begin); bytes = p - begin }

  -- The byte at a position after the write.
  abbrev pub byte_at : ℕ → ℕ → ℕ
  byte_at p x = if ltb p begin then x else if ltb p total then get_or buf (p - begin) 0 else x

  -- The bytes from a position on after the write.
  abbrev pub patched : ℕ → List ℕ → List ℕ
  patched p [] = []
  patched p (x ∷ xs) = byte_at p x ∷ patched (p + 1) xs

  patched-behind : (p : ℕ) (xs : List ℕ) → total ≤ p → patched p xs ≡ xs
  patched-behind p [] h = refl
  patched-behind p (x ∷ xs) h =
      let a : ltb p begin ≡ false = ground arith in
      let b : ltb p total ≡ false = ground arith in
      rw (a, b) (ap (λ t. x ∷ t) (patched-behind (p + 1) xs (omega arith)))

  pub patched-append :
      (p : ℕ) (xs ys : List ℕ) → patched p (xs ++ ys) ≡ patched p xs ++ patched (p + length xs) ys
  patched-append p [] ys = ap (λ t. patched t ys) (let e : p ≡ p + 0 = omega arith in e)
  patched-append p (x ∷ xs) ys =
      ap (λ t. byte_at p x ∷ t)
        (patched-append (p + 1) xs ys
          ∙ ap (λ t. patched (p + 1) xs ++ patched t ys)
              (let e : p + 1 + length xs ≡ p + suc (length xs) = omega arith in e))

  write_byte-at :
      (p x : ℕ) → p < total → total < u32_mod → write_byte buf (at p) x ≡ (at (p + 1), byte_at p x)
  unfolding write_byte
  write_byte-at p x h small = elim (Bool-cases (ltb p begin)) [
    | inl before ↦
        let away : (p == begin + (p - begin)) ≡ false = ground arith in
        let same : p - begin ≡ p + 1 - begin = ground arith in
        let next : add32 p 1 ≡ p + 1 = ground arith in
        rw (away, before)
          (λ t. (record { pos = next t; offset = begin + same t; bytes = same t }, x))
    | inr from ↦
        let here : (p == begin + (p - begin)) ≡ true = ground arith in
        let inside : ltb p total ≡ true = ground arith in
        let next : add32 p 1 ≡ p + 1 = ground arith in
        let off : add32 (begin + (p - begin)) 1 ≡ begin + (p + 1 - begin) = ground arith in
        let count : p - begin + 1 ≡ p + 1 - begin = ground arith in
        rw (here, from, inside)
          (λ t.
            (record { pos = next t; offset = off t; bytes = count t }, get_or buf (p - begin) 0))
  ]

  pub write_block-at :
      (p : ℕ) (xs : List ℕ)
      → p ≤ total
      → 0 < length buf
      → total < u32_mod
      → write_block buf (at p) xs ≡ (at (min (p + length xs) total), patched p xs)
  unfolding write_block
  write_block-at p [] h some_byte small =
      let e : p ≡ min (p + 0) total = omega arith in ap (λ t. (at t, [])) e
  write_block-at p (x ∷ xs) h some_byte small = elim (lt_or_ge p total) [
    | inl lt ↦
        let go_on : write_ends buf (at p) ≡ false = unfold write_ends in ground arith in
        let byte = write_byte-at p x lt small in
        let rest = write_block-at (p + 1) xs (omega arith) some_byte small in
        let e : min (p + 1 + length xs) total ≡ min (p + suc (length xs)) total = omega arith in
        rw (go_on, byte, rest) (ap (λ t. (at t, byte_at p x ∷ patched (p + 1) xs)) e)
    | inr ge ↦
        let ends : write_ends buf (at p) ≡ true = unfold write_ends in ground arith in
        let e : p ≡ min (p + suc (length xs)) total = omega arith in
        rw (ends) (λ t. (at (e t), sym (patched-behind p (x ∷ xs) ge) t))
  ]

pub length-patched :
    (buf : List ℕ) (begin p : ℕ) (xs : List ℕ) → length (patched buf begin p xs) ≡ length xs
length-patched buf begin p [] = refl
length-patched buf begin p (x ∷ xs) = ap suc (length-patched buf begin (p + 1) xs)
