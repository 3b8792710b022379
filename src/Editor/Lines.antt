-- ===== src/Editor/Lines.antt =====
-- A file is read into lines by src/usr/editor.rs and written back from them: the two undo each
-- other, and no key puts a new line inside a line.
use moros.Prelude.{
  ℕ, ◌≡◌, refl, ap, ◌∙◌, ◌≢◌, inl, inr, false, List, [], ◌∷◌, ◌++◌, arith, ◌==◌, ==_iff, Bool-cases,
  All,
}
use moros.Editor.{Text, new_line, prepend, split_lines, join_lines}

abbrev pub IsLine : Text → Type 0
IsLine = All (λ (c : ℕ). c ≢ new_line)

abbrev pub AreLines : List Text → Type 0
AreLines = All IsLine

-- The lines of the file hold no new line, and there is one.
pub record AreSaved (ls : List Text) : Type 0 where
  pub lines : AreLines ls
  pub some_line : ls ≢ []

pub split_lines-ne : (t : Text) → split_lines t ≢ []
unfolding split_lines
split_lines-ne [] e = cc
split_lines-ne (c ∷ cs) e = elim (Bool-cases (c == new_line)) [
  | inl h ↦ let p : [] ∷ split_lines cs ≡ [] = rw h at e in cc
  | inr h ↦ let p : prepend c (split_lines cs) ≡ [] = rw h at e in prepend-ne c (split_lines cs) p
]
  where
    prepend-ne : (c : ℕ) (ls : List Text) → prepend c ls ≢ []
    prepend-ne c [] e = cc
    prepend-ne c (l ∷ ls) e = cc

prepend-AreLines : (c : ℕ) (ls : List Text) → c ≢ new_line → AreLines ls → AreLines (prepend c ls)
prepend-AreLines c [] ne h = ((ne, tt), tt)
prepend-AreLines c (l ∷ ls) ne h = ((ne, h.0), h.1)

pub split_lines-AreLines : (t : Text) → AreLines (split_lines t)
unfolding split_lines
split_lines-AreLines [] = (tt, tt)
split_lines-AreLines (c ∷ cs) = elim (Bool-cases (c == new_line)) [
  | inl h ↦ rw h (tt, split_lines-AreLines cs)
  | inr h ↦ rw h (prepend-AreLines c (split_lines cs) (λ e. ground arith) (split_lines-AreLines cs))
]

join_lines-prepend :
    (c : ℕ) (ls : List Text) → ls ≢ [] → join_lines (prepend c ls) ≡ c ∷ join_lines ls
unfolding join_lines
join_lines-prepend c [] ne = absurd (ne refl)
join_lines-prepend c (l ∷ []) ne = refl
join_lines-prepend c (l ∷ m ∷ ls) ne = refl

join_lines-one : (l : Text) → join_lines (l ∷ []) ≡ l
unfolding join_lines
join_lines-one l = refl

join_lines-new_line : (ls : List Text) → ls ≢ [] → join_lines ([] ∷ ls) ≡ new_line ∷ join_lines ls
unfolding join_lines
join_lines-new_line [] ne = absurd (ne refl)
join_lines-new_line (l ∷ ls) ne = refl

-- A file that is opened and saved has the contents that it had.
pub join-split : (t : Text) → join_lines (split_lines t) ≡ t
unfolding split_lines
join-split [] = join_lines-one []
join-split (c ∷ cs) = elim (Bool-cases (c == new_line)) [
  | inl h ↦
      let e : c ≡ new_line = (==_iff c new_line).0 h in
      rw h (join_lines-new_line (split_lines cs) (split_lines-ne cs) ∙ rw (join-split cs, e))
  | inr h ↦
      rw h (join_lines-prepend c (split_lines cs) (split_lines-ne cs) ∙ ap (c ∷◌) (join-split cs))
]

-- A line in front of a text that follows behind a new line.
split_lines-append : (l t : Text) → IsLine l → split_lines (l ++ new_line ∷ t) ≡ l ∷ split_lines t
unfolding split_lines
split_lines-append [] t h = refl
split_lines-append (c ∷ l) t h =
    let other : (c == new_line) ≡ false = ground (arith, h.0) in
    rw (other, split_lines-append l t h.1)

split_lines-one : (l : Text) → IsLine l → split_lines l ≡ l ∷ []
unfolding split_lines
split_lines-one [] h = refl
split_lines-one (c ∷ l) h =
    let other : (c == new_line) ≡ false = ground (arith, h.0) in rw (other, split_lines-one l h.1)

-- Lines that are saved are read back.
pub split-join : (ls : List Text) → AreLines ls → ls ≢ [] → split_lines (join_lines ls) ≡ ls
unfolding join_lines
split-join [] h ne = absurd (ne refl)
split-join (l ∷ []) h ne = split_lines-one l h.0
split-join (l ∷ m ∷ ls) h ne =
    split_lines-append l (join_lines (m ∷ ls)) h.0 ∙ ap (l ∷◌) (split-join (m ∷ ls) h.1 (λ e. cc))
