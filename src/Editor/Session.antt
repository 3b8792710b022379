-- ===== src/Editor/Session.antt =====
-- The loop of src/usr/editor.rs: what each character that is read does, with the state of the
-- escape sequence. What `save` writes is an effect; whether the write succeeds is not seen here.
use moros.Prelude.{ℕ, Bool, true, false, ◌&&◌, ◌||◌, List, [], ◌∷◌, ◌++◌, ◌==◌, if◌then◌else◌}
use moros.Run.{Run, ok, ◌>>=◌}
use moros.Editor.{Text, Editor, contents}
use moros.Editor.Status.{print_editing_status}
use moros.Editor.Marks.{Mark, print_highlighted, clear_highlighted}
use moros.Editor.Keys.{
  newline, page_up, page_down, arrow_up, arrow_down, arrow_left, arrow_right, top_of_file,
  bottom_of_file, start_of_line, end_of_line, cut_line, copy_line, paste_line, backspace, delete,
  put_char,
}

pub record Session : Type 0 where
  pub editor : Editor
  pub escape : Bool
  pub csi : Bool
  pub csi_params : Text
  pub highlighted : List Mark

pub data Effect : Type 0 where
  goes_on : Effect
  writes : Text → Effect
  leaves : Effect
  writes_and_leaves : Text → Effect

abbrev pub is_params : ℕ → Text → Bool
is_params k [] = false
is_params k (c ∷ []) = c == k
is_params k (c ∷ d ∷ cs) = false

-- The loop goes on, or is left.
abbrev pub proceed : Run Session → Session → Effect → Run Session
proceed rest s goes_on = rest
proceed rest s (writes t) = rest
proceed rest s leaves = ok s
proceed rest s (writes_and_leaves t) = ok s

module _ (rows cols : ℕ) (pathname : Text) where
  -- The end of the loop.
  unfoldable pub finish : Session → Run Editor → Run (Session × Effect)
  unfolding print_editing_status print_highlighted
  finish s r = do
    e ← r
    status ← print_editing_status pathname cols e
    marks ← print_highlighted rows cols s.highlighted e
    ok (record s { editor = e; escape = false; csi = false; highlighted = marks }, goes_on)

  -- What is shown before the loop.
  unfoldable pub begin : Editor → Run Session
  unfolding print_editing_status print_highlighted
  begin e = do
    status ← print_editing_status pathname cols e
    marks ← print_highlighted rows cols [] e
    ok (record { editor = e; escape = false; csi = false; csi_params = []; highlighted = marks })

module _ (is_printable : ℕ → Bool) (rows cols : ℕ) (pathname : Text) where
  -- The arms for the keys that are one character.
  abbrev pub control : ℕ → Session → Run (Session × Effect)
  control c s =
      let e = s.editor in
      if c == 0x14
      then finish rows cols pathname s (top_of_file e)
      else if c == 0x02
      then finish rows cols pathname s (bottom_of_file rows e)
      else if c == 0x01
      then finish rows cols pathname s (start_of_line e)
      else if c == 0x05
      then finish rows cols pathname s (end_of_line cols e)
      else if c == 0x04
      then finish rows cols pathname s (cut_line e)
      else if c == 0x19
      then finish rows cols pathname s (copy_line e)
      else if c == 0x10
      then finish rows cols pathname s (paste_line e)
      else if c == 0x08
      then finish rows cols pathname s (backspace cols e)
      else if c == 0x7f
      then finish rows cols pathname s (delete e)
      else if s.csi
      then ok (record s { csi_params = s.csi_params ++ c ∷ [] }, goes_on)
      else finish rows cols pathname s (put_char is_printable cols c e)

  -- The arms for the sequences of the arrow keys.
  abbrev pub arrow : ℕ → Session → Run (Session × Effect)
  arrow c s =
      let e = s.editor in
      if c == b'A' && s.csi
      then finish rows cols pathname s (arrow_up cols e)
      else if c == b'B' && s.csi
      then finish rows cols pathname s (arrow_down rows cols e)
      else if c == b'C' && s.csi
      then finish rows cols pathname s (arrow_right cols e)
      else if c == b'D' && s.csi
      then finish rows cols pathname s (arrow_left cols e)
      else if c == b'Z' && s.csi
      then finish rows cols pathname s (ok e)
      else control c s

  unfoldable pub handle : ℕ → Session → Run (Session × Effect)
  unfolding contents
  handle c s =
      let e = s.editor in
      if c == 0x1b
      then ok (record s { escape = true }, goes_on)
      else if c == b'[' && s.escape
      then ok (record s { csi = true; csi_params = [] }, goes_on)
      else if c == 0
      then ok (s, goes_on)
      else if c == 0x11 || c == 0x03
      then ok (s, leaves)
      else if c == 0x17
      then ok (s, writes (contents e))
      else if c == 0x18
      then ok (s, writes_and_leaves (contents e))
      else if c == b'\n'
      then finish rows cols pathname s (newline rows e)
      else if c == b'~' && (s.csi && is_params b'5' s.csi_params)
      then finish rows cols pathname s (page_up rows e)
      else if c == b'~' && (s.csi && is_params b'6' s.csi_params)
      then finish rows cols pathname s (page_down rows e)
      else arrow c s

  -- The marks are cleared, and the character is handled.
  unfoldable pub step : ℕ → Session → Run (Session × Effect)
  unfolding handle
  step c s = do
    marks ← clear_highlighted cols s.highlighted
    handle c (record s { highlighted = marks })

  -- The loop over the characters that are read, until it is left or they end.
  unfoldable pub run : List ℕ → Session → Run Session
  unfolding step
  run [] s = ok s
  run (c ∷ cs) s = do (s', e) ← step c s; proceed (run cs s') s' e
