-- ===== src/Editor/Saved.antt =====
-- What the editor of src/usr/editor.rs saves is read back as the lines that it showed, after any
-- characters that were read.
use moros.Prelude.{
  ℕ, ◌<◌, ◌≡◌, ◌≢◌, refl, inl, inr, Bool, true, ◌&&◌, ◌||◌, Option, none, some, List, [], ◌∷◌, ◌++◌,
  arith, length, ◌==◌, if◌then◌else◌, Bool-cases,
}
use moros.Run.{Run, ok, panic, stuck, ◌>>=◌, Ensures, Ensures-bind, Ensures-if}
use moros.Editor.{Text, Editor, new_line, new, contents, split_lines}
use moros.Editor.Keys.{newline, put_char}
use moros.Editor.Lines.{split-join, split_lines-AreLines, split_lines-ne}
use moros.Editor.Clean.{
  IsClean, page_up-IsClean, page_down-IsClean, arrow_up-IsClean, arrow_down-IsClean,
  arrow_right-IsClean, arrow_left-IsClean, top_of_file-IsClean, bottom_of_file-IsClean,
  start_of_line-IsClean, end_of_line-IsClean,
}
use moros.Editor.Contents.{
  newline-IsClean, cut_line-IsClean, copy_line-IsClean, paste_line-IsClean, backspace-IsClean,
  delete-IsClean, put_char-IsClean,
}
use moros.Editor.Status.{print_editing_status}
use moros.Editor.Marks.{print_highlighted, clear_highlighted}
use moros.Editor.Session.{
  Session, Effect, goes_on, writes, leaves, writes_and_leaves, finish, control, arrow, proceed,
  handle, step, run, begin,
}

abbrev StaysClean : Session × Effect → Type 0
StaysClean (s, e) = IsClean s.editor

record Keeps (r : Run (Session × Effect)) : Type 0 where
  pub kept : Ensures StaysClean r

-- An arm of the loop that leaves the editor as it is, and the arms below it.
pass :
    (b : Bool) (a : Session × Effect) {below : Run (Session × Effect)}
    → StaysClean a
    → Keeps below
    → Keeps (if b then ok a else below)
pass b a {below} h k = record { kept = Ensures-if StaysClean b (ok a) below h k.kept }

anything : {A : Type 0} (r : Run A) → Ensures (λ a. Unit {0}) r
anything (ok a) = tt
anything panic = tt
anything stuck = tt

-- What is shown leaves the editor as it is.
showing :
    {A B : Type 0} (P : B → Type 0) (r : Run A) (f : A → Run B)
    → ((a : A) → Ensures P (f a))
    → Ensures P (r >>= f)
showing P r f h = Ensures-bind (λ a. Unit {0}) P r f (anything r) (λ a t. h a)

finish-Keeps :
    (rows cols : ℕ) (pathname : Text) (s : Session) (r : Run Editor)
    → Ensures IsClean r
    → Keeps (finish rows cols pathname s r)
unfolding finish
finish-Keeps rows cols pathname s r h = record {
  kept = Ensures-bind IsClean StaysClean r _ h (λ e c.
      showing StaysClean (print_editing_status pathname cols e) _ (λ status.
        showing StaysClean (print_highlighted rows cols s.highlighted e) _ (λ marks. c)));
}

proceed-IsClean :
    (rest : Run Session) (s : Session) (e : Effect)
    → Ensures (λ (t : Session). IsClean t.editor) rest
    → IsClean s.editor
    → Ensures (λ (t : Session). IsClean t.editor) (proceed rest s e)
proceed-IsClean rest s goes_on h k = h
proceed-IsClean rest s (writes t) h k = h
proceed-IsClean rest s leaves h k = k
proceed-IsClean rest s (writes_and_leaves t) h k = k

length-pos : (ls : List Text) → ls ≢ [] → 0 < length ls
length-pos [] ne = absurd (ne refl)
length-pos (l ∷ ls) ne = omega arith

length-ne : (ls : List Text) → 0 < length ls → ls ≢ []
length-ne [] h e = absurd (omega arith)
length-ne (l ∷ ls) h e = cc

module _ (rows cols : ℕ) (pathname : Text) where
  -- One arm of the loop that runs a key.
  arm :
      (s : Session) (b : Bool) (r : Run Editor) {below : Run (Session × Effect)}
      → Ensures IsClean r
      → Keeps below
      → Keeps (if b then finish rows cols pathname s r else below)
  arm s b r {below} h k = record {
    kept =
        Ensures-if StaysClean b (finish rows cols pathname s r) below
          (finish-Keeps rows cols pathname s r h).kept k.kept;
  }

module _ (is_printable : ℕ → Bool) (rows cols : ℕ) (pathname : Text) where
  control-Keeps :
      (c : ℕ) (s : Session)
      → c ≢ new_line
      → IsClean s.editor
      → Keeps (control is_printable rows cols pathname c s)
  control-Keeps c s ne h =
      let e = s.editor in
      arm rows cols pathname s _ _ (top_of_file-IsClean rows cols e h) (
        arm rows cols pathname s _ _ (bottom_of_file-IsClean rows cols e h) (
          arm rows cols pathname s _ _ (start_of_line-IsClean rows cols e h) (
            arm rows cols pathname s _ _ (end_of_line-IsClean rows cols e h) (
              arm rows cols pathname s _ _ (cut_line-IsClean rows cols e h) (
                arm rows cols pathname s _ _ (copy_line-IsClean rows cols e h) (
                  arm rows cols pathname s _ _ (paste_line-IsClean rows cols e h) (
                    arm rows cols pathname s _ _ (backspace-IsClean rows cols e h) (
                      arm rows cols pathname s _ _ (delete-IsClean rows cols e h) (
                        pass s.csi (record s { csi_params = s.csi_params ++ c ∷ [] }, goes_on) h
                          (finish-Keeps rows cols pathname s (put_char is_printable cols c e)
                            (put_char-IsClean rows cols is_printable c e ne h)))))))))))

  arrow-Keeps :
      (c : ℕ) (s : Session)
      → c ≢ new_line
      → IsClean s.editor
      → Keeps (arrow is_printable rows cols pathname c s)
  arrow-Keeps c s ne h =
      let e = s.editor in
      arm rows cols pathname s _ _ (arrow_up-IsClean rows cols e h) (
        arm rows cols pathname s _ _ (arrow_down-IsClean rows cols e h) (
          arm rows cols pathname s _ _ (arrow_right-IsClean rows cols e h) (
            arm rows cols pathname s _ _ (arrow_left-IsClean rows cols e h)
              (arm rows cols pathname s _ (ok e) h (control-Keeps c s ne h)))))

  -- The arms from the new line on.
  new_line_arm :
      (c : ℕ) (s : Session) {below : Run (Session × Effect)}
      → IsClean s.editor
      → (c ≢ new_line → Keeps below)
      → Keeps (if c == b'\n' then finish rows cols pathname s (newline rows s.editor) else below)
  new_line_arm c s h k = elim (Bool-cases (c == b'\n')) [
    | inl e ↦ rw e (
        finish-Keeps rows cols pathname s (newline rows s.editor)
          (newline-IsClean rows cols s.editor h))
    | inr e ↦ rw e (k (λ p. ground arith))
  ]

  handle-Keeps :
      (c : ℕ) (s : Session) → IsClean s.editor → Keeps (handle is_printable rows cols pathname c s)
  unfolding handle
  handle-Keeps c s h =
      let e = s.editor in
      pass (c == 0x1b) (record s { escape = true }, goes_on) h
        (pass (c == b'[' && s.escape) (record s { csi = true; csi_params = [] }, goes_on) h
          (pass (c == 0) (s, goes_on) h
            (pass (c == 0x11 || c == 0x03) (s, leaves) h
              (pass (c == 0x17) (s, writes (contents e)) h
                (pass (c == 0x18) (s, writes_and_leaves (contents e)) h
                  (new_line_arm c s h (λ ne.
                    arm rows cols pathname s _ _ (page_up-IsClean rows cols e h) (
                      arm rows cols pathname s _ _ (page_down-IsClean rows cols e h)
                        (arrow-Keeps c s ne h)))))))))

  step-Keeps :
      (c : ℕ) (s : Session) → IsClean s.editor → Keeps (step is_printable rows cols pathname c s)
  unfolding step
  step-Keeps c s h = record {
    kept =
        showing StaysClean (clear_highlighted cols s.highlighted) _
          (λ marks. (handle-Keeps c (record s { highlighted = marks }) h).kept);
  }

  run-IsClean :
      (cs : List ℕ) (s : Session)
      → IsClean s.editor
      → Ensures (λ (t : Session). IsClean t.editor) (run is_printable rows cols pathname cs s)
  unfolding run
  run-IsClean [] s h = h
  run-IsClean (c ∷ cs) s h =
      let IsDone = λ (t : Session). IsClean t.editor in
      let rest = run-IsClean cs in
      Ensures-bind StaysClean IsDone (step is_printable rows cols pathname c s) _
        (step-Keeps c s h).kept
        (λ (s', e) h'.
          proceed-IsClean (run is_printable rows cols pathname cs s') s' e (rest s' h') h')

-- A file that was opened has lines, and one at least.
new-IsClean : (file : Option Text) → IsClean (new file)
unfolding new
new-IsClean none = record { lines = (tt, tt); clipboard = tt; some_line = omega arith }
new-IsClean (some t) = record {
  lines = split_lines-AreLines t;
  clipboard = tt;
  some_line = length-pos (split_lines t) (split_lines-ne t);
}

begin-IsClean :
    (rows cols : ℕ) (pathname : Text) (e : Editor)
    → IsClean e
    → Ensures (λ (s : Session). IsClean s.editor) (begin rows cols pathname e)
unfolding begin
begin-IsClean rows cols pathname e h =
    let IsDone = λ (t : Session). IsClean t.editor in
    showing IsDone (print_editing_status pathname cols e) _
      (λ status. showing IsDone (print_highlighted rows cols [] e) _ (λ marks. h))

-- From a file that was opened, or a new one, under any path, whatever characters are read: if the
-- editor does not panic, what it would then save is split into the lines that it shows.
pub run-saved :
    (is_printable : ℕ → Bool) (rows cols : ℕ) (pathname : Text) (file : Option Text) (cs : List ℕ)
    (s : Session)
    → (begin rows cols pathname (new file) >>= run is_printable rows cols pathname cs) ≡ ok s
    → split_lines (contents s.editor) ≡ s.editor.lines
unfolding contents
run-saved is_printable rows cols pathname file cs s h =
    let IsDone = λ (t : Session). IsClean t.editor in
    let clean : IsClean s.editor = rw h at (
      Ensures-bind IsDone IsDone (begin rows cols pathname (new file)) _
        (begin-IsClean rows cols pathname (new file) (new-IsClean file))
        (λ t c. run-IsClean is_printable rows cols pathname cs t c)) in
    split-join s.editor.lines clean.lines (length-ne s.editor.lines clean.some_line)
