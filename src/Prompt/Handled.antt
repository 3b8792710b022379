-- ===== src/Prompt/Handled.antt =====
-- Every call of the parser of escape sequences on a valid prompt of src/api/prompt.rs returns.
use moros.Prelude.{
  ℕ, ◌+◌, ◌-◌, ◌≤◌, ◌≡◌, refl, inl, inr, Bool, true, arith, length, ltb, ltb→lt, leb, Bool-cases,
  length-insert_at, length-erase_idx,
}
use moros.Run.{Returns}
use moros.Prompt.{Text, Prompt}
use moros.Prompt.Keys.{go_forward, go_backward, remove_char, remove_before, insert_char}
use moros.Prompt.Valid.{IsValid, IsSettled}

-- A settled prompt with another line and a cursor on it.
pub edit-IsValid :
    (p : Prompt) (cursor : ℕ) (line : Text)
    → IsSettled p
    → p.offset ≤ cursor
    → cursor ≤ p.offset + length line
    → IsValid (record p { cursor = cursor; line = line })
edit-IsValid p cursor line s low high = record {
  low = low;
  high = rw s.unrecalled high;
  recalled = rw s.unrecalled tt;
  completed = rw s.free tt;
  apart = rw s.free tt;
}

-- The cursor of a settled prompt is on its line.
pub cursor-le : (p : Prompt) → IsSettled p → p.cursor ≤ p.offset + length p.line
cursor-le p s = rw s.unrecalled at s.valid.high

module _ (p : Prompt) (s : IsSettled p) where
  pub forward_lem : Returns IsValid (go_forward p)
  forward_lem = elim (Bool-cases (ltb p.cursor (p.offset + length p.line))) [
    | inl e ↦ rw e (
      _,
      refl,
      edit-IsValid p _ p.line s (omega (arith, s.valid.low)) (omega (arith, ltb→lt _ _ e)),
    )
    | inr e ↦ rw e (_, refl, s.valid)
  ]

  pub backward_lem : Returns IsValid (go_backward p)
  backward_lem = elim (Bool-cases (ltb p.offset p.cursor)) [
    | inl e ↦ rw e (
      _,
      refl,
      edit-IsValid p _ p.line s (omega (arith, ltb→lt _ _ e)) (omega (arith, cursor-le p s)),
    )
    | inr e ↦ rw e (_, refl, s.valid)
  ]

  pub delete_lem : Returns IsValid (remove_char p)
  delete_lem = elim (Bool-cases (ltb p.cursor (p.offset + length p.line))) [
    | inl e ↦
        let lt = ltb→lt _ _ e in
        let i = p.cursor - p.offset in
        let low : leb p.offset p.cursor ≡ true = ground (arith, s.valid.low) in
        let bound : ltb i (length p.line) ≡ true = ground (arith, s.valid.low, lt) in
        rw (e, low, bound)
          (
            _,
            refl,
            edit-IsValid p _ _ s s.valid.low
                (omega (arith, lt, s.valid.low, length-erase_idx p.line i (ltb→lt _ _ bound))),
          )
    | inr e ↦ rw e (_, refl, s.valid)
  ]

  pub backspace_lem : Returns IsValid (remove_before p)
  backspace_lem = elim (Bool-cases (ltb p.offset p.cursor)) [
    | inl e ↦
        let lt = ltb→lt _ _ e in
        let i = p.cursor - p.offset - 1 in
        let bound : ltb i (length p.line) ≡ true = ground (arith, cursor-le p s, lt) in
        rw (e, bound)
          (
            _,
            refl,
            edit-IsValid p _ _ s (omega (arith, lt))
                (omega (arith, lt, cursor-le p s, length-erase_idx p.line i (ltb→lt _ _ bound))),
          )
    | inr e ↦ rw e (_, refl, s.valid)
  ]

  pub insert_lem :
      (is_printable : ℕ → Bool) (c : ℕ) → Returns IsValid (insert_char is_printable c p)
  insert_lem is_printable c = elim (Bool-cases (is_printable c)) [
    | inl e ↦
        let i = p.cursor - p.offset in
        let low : leb p.offset p.cursor ≡ true = ground (arith, s.valid.low) in
        let bound : leb i (length p.line) ≡ true = ground (arith, cursor-le p s) in
        rw (e, low, bound)
          (
            _,
            refl,
            edit-IsValid p _ _ s (omega (arith, s.valid.low))
                (omega (arith, cursor-le p s, length-insert_at p.line i c)),
          )
    | inr e ↦ rw e (_, refl, s.valid)
  ]
