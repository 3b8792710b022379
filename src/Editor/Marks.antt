-- ===== src/Editor/Marks.antt =====
-- The brackets that src/usr/editor.rs highlights: the one under the cursor and its partner.
use moros.Prelude.{
  ℕ, ◌+◌, ◌-◌, Bool, true, false, ◌&&◌, Option, none, some, List, [], ◌∷◌, ◌++◌, leb, ltb, ◌==◌,
  get_elem?, drop, if◌then◌else◌,
}
use moros.Run.{Run, ok, ◌>>=◌, index, minus}
use moros.Editor.{Text, Editor, column, row}

-- A place in the file, by its column and its row.
abbrev pub Place : Type 0
Place = ℕ × ℕ

-- A place on the screen, and the bracket there.
pub record Mark : Type 0 where
  pub x : ℕ
  pub y : ℕ
  pub char : ℕ

-- The loops go on with the brackets that are open, or are left with the partner, if any.
pub data Scan : Type 0 where
  open_at : List Place → Scan
  partner : Option Place → Scan

abbrev pop : List Place → List Place
pop [] = []
pop (p ∷ ps) = ps

abbrev top : List Place → Option Place
top [] = none
top (p ∷ ps) = some p

abbrev is_empty : List Place → Bool
is_empty [] = true
is_empty (p ∷ ps) = false

abbrev pub after_line : Scan → (List Place → Option Place) → Option Place
after_line (open_at stack) rest = rest stack
after_line (partner p) rest = p

module _ (opening closing : ℕ) where
  abbrev pub opened : ℕ → Place → List Place → List Place
  opened c p stack = if c == opening then p ∷ stack else stack

  abbrev pub bracket : ℕ → Place → List Place → List Place
  bracket c p stack = if c == closing then pop (opened c p stack) else opened c p stack

  -- The line `y` from the column `x` on, up to the cursor, where the last open bracket is.
  abbrev pub scan_to : Place → ℕ → ℕ → Text → List Place → Scan
  scan_to cursor y x [] stack = open_at stack
  scan_to cursor y x (c ∷ cs) stack =
      let rest = scan_to cursor y (x + 1) cs (bracket c (x, y) stack) in
      if cursor.1 == y && cursor.0 == x then partner (top stack) else rest

  abbrev pub lines_to : Place → ℕ → List Text → List Place → Option Place
  lines_to cursor y [] stack = none
  lines_to cursor y (l ∷ ls) stack =
      after_line (scan_to cursor y 0 l stack)
        (λ s. let rest = lines_to cursor (y + 1) ls s in if cursor.1 == y then none else rest)

  -- The line `y` from the column `x` on, behind the cursor, up to a bracket that closes none.
  abbrev pub scan_from : Place → ℕ → ℕ → Text → List Place → Scan
  scan_from cursor y x [] stack = open_at stack
  scan_from cursor y x (c ∷ cs) stack =
      let skip = scan_from cursor y (x + 1) cs stack in
      let rest = scan_from cursor y (x + 1) cs (bracket c (x, y) stack) in
      if y == cursor.1 && leb x cursor.0
      then skip
      else if c == closing && is_empty (opened c (x, y) stack)
      then partner (some (x, y))
      else rest

  abbrev pub lines_from : Place → ℕ → List Text → List Place → Option Place
  lines_from cursor y [] stack = none
  lines_from cursor y (l ∷ ls) stack =
      after_line (scan_from cursor y 0 l stack) (λ s. lines_from cursor (y + 1) ls s)

module _ (rows cols : ℕ) where
  -- The partner is marked if it is on the screen.
  abbrev pub visible : Editor → ℕ → Place → List Mark
  visible e c (x, y) =
      let is_col = leb e.offset.x x && ltb x (e.offset.x + cols) in
      let is_row = leb e.offset.y y && ltb y (e.offset.y + rows) in
      if is_col && is_row
      then record { x = x - e.offset.x; y = y - e.offset.y; char = c } ∷ []
      else []

  -- The bracket under the cursor, with its partner.
  abbrev pub pair : Editor → ℕ → ℕ → Option Place → List Mark
  pair e here there none = []
  pair e here there (some p) =
      record { x = e.cursor.x; y = e.cursor.y; char = here } ∷ visible e there p

  abbrev pub marks_at : ℕ → ℕ → Editor → Option ℕ → List Mark
  marks_at opening closing e none = []
  marks_at opening closing e (some c) =
      let cursor : Place = (column e, row e) in
      if c == closing
      then pair e closing opening (lines_to opening closing cursor 0 e.lines [])
      else if c == opening
      then pair e opening closing
          (lines_from opening closing cursor (row e) (drop (row e) e.lines) [])
      else []

  unfoldable pub match_chars : ℕ → ℕ → Editor → Run (List Mark)
  match_chars opening closing e = do
    line ← index e.lines (row e)
    ok (marks_at opening closing e (get_elem? line (column e)))

-- The marks that are printed, all but those in the last column.
unfoldable pub drawn : ℕ → List Mark → Run (List Mark)
drawn cols [] = ok []
drawn cols (m ∷ ms) = do
  edge ← minus cols 1
  rest ← drawn cols ms
  ok (if m.x == edge then rest else m ∷ rest)

-- Three kinds of brackets, behind the marks that are there.
unfoldable pub print_highlighted : ℕ → ℕ → List Mark → Editor → Run (List Mark)
unfolding match_chars drawn
print_highlighted rows cols highlighted e = do
  round ← match_chars rows cols b'(' b')' e
  curly ← match_chars rows cols b'{' b'}' e
  square ← match_chars rows cols b'[' b']' e
  let marks = highlighted ++ round ++ curly ++ square
  printed ← drawn cols marks
  ok marks

unfoldable pub clear_highlighted : ℕ → List Mark → Run (List Mark)
unfolding drawn
clear_highlighted cols highlighted = do printed ← drawn cols highlighted; ok []
