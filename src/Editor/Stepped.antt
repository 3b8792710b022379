-- ===== src/Editor/Stepped.antt =====
-- Every character but those of the page keys, and the delete key on a line that is not ASCII, is
-- handled by the loop of src/usr/editor.rs without a panic, and leaves the editor valid.
use moros.Prelude.{
  ℕ, ◌<◌, ◌≤◌, ◌≡◌, refl, inl, inr, Bool, true, false, ◌&&◌, ◌||◌, [], ◌∷◌, arith, All,
  length-append, ◌==◌, ==_iff, if◌then◌else◌, Bool-cases,
}
use moros.Run.{Run, Returns, Returns-bind, Returns-if}
use moros.Editor.{Text, Editor, contents}
use moros.Editor.Keys.{delete, tab_size}
use moros.Editor.Valid.{IsValid, line_at}
use moros.Editor.Moves.{
  arrow_up-IsValid, arrow_down-IsValid, arrow_left-IsValid, arrow_right-IsValid,
  top_of_file-IsValid, bottom_of_file-IsValid, start_of_line-IsValid, end_of_line-IsValid,
}
use moros.Editor.Edits.{
  newline-IsValid, cut_line-IsValid, copy_line-IsValid, paste_line-IsValid, backspace-IsValid,
}
use moros.Editor.Typing.{IsAscii, delete-IsValid, put_char-IsValid}
use moros.Editor.Shown.{
  IsOnScreen, HasStatus, print_highlighted-IsOnScreen, print_editing_status_lem,
  clear_highlighted_lem,
}
use moros.Editor.Session.{
  Session, Effect, goes_on, writes, leaves, writes_and_leaves, is_params, finish, control, arrow,
  handle, step,
}

-- The character does not end the sequence of a page key, and is not a delete key on a line that
-- holds a character of several bytes.
pub record IsCareful (c : ℕ) (s : Session) : Type 0 where
  pub not_page_up : (c == b'~' && (s.csi && is_params b'5' s.csi_params)) ≡ false
  pub not_page_down : (c == b'~' && (s.csi && is_params b'6' s.csi_params)) ≡ false
  pub ascii : c ≡ 0x7f → IsAscii (line_at s.editor)

module _ (rows cols : ℕ) where
  -- The editor is valid, and the marks lie on the screen.
  abbrev pub StaysValid : Session × Effect → Type 0
  StaysValid (s, e) = IsValid rows cols s.editor × All (IsOnScreen rows cols) s.highlighted

module _ (rows cols : ℕ) (pathname : Text) (has_status : HasStatus cols pathname) where
  finish-StaysValid :
      (s : Session) (r : Run Editor)
      → All (IsOnScreen rows cols) s.highlighted
      → Returns (IsValid rows cols) r
      → Returns (StaysValid rows cols) (finish rows cols pathname s r)
  unfolding finish
  finish-StaysValid s r on h =
      let On = All (IsOnScreen rows cols) in
      let stays = StaysValid rows cols in
      Returns-bind (IsValid rows cols) stays _ _ h λ e v.
        let (status, shown) = print_editing_status_lem rows cols pathname e has_status v in
        rw shown (
          Returns-bind On stays _ _ (print_highlighted-IsOnScreen rows cols s.highlighted e v on)
            λ marks k. (_, refl, (v, k)))

  -- One arm of the loop that runs a key, and the arms below it.
  arm :
      (s : Session) (b : Bool) {r : Run Editor} {below : Run (Session × Effect)}
      → All (IsOnScreen rows cols) s.highlighted
      → Returns (IsValid rows cols) r
      → Returns (StaysValid rows cols) below
      → Returns (StaysValid rows cols) (if b then finish rows cols pathname s r else below)
  arm s b on h k = Returns-if (StaysValid rows cols) b (finish-StaysValid s _ on h) k

module _ (is_printable : ℕ → Bool) (rows cols : ℕ) (pathname : Text) (tall : 0 < rows)
    (has_status : HasStatus cols pathname) where
  wide : tab_size ≤ cols
  wide = let n = length-append has_status.path (b'\'' ∷ []) in omega (arith, has_status.fits, n)

  some_column : 0 < cols
  some_column = let w = wide in omega arith

  delete_arm :
      (c : ℕ) (s : Session) {below : Run (Session × Effect)}
      → (c ≡ 0x7f → IsAscii (line_at s.editor))
      → IsValid rows cols s.editor
      → All (IsOnScreen rows cols) s.highlighted
      → Returns (StaysValid rows cols) below
      → Returns
          (StaysValid rows cols)
          (if c == 0x7f then finish rows cols pathname s (delete s.editor) else below)
  delete_arm c s ascii v on k = elim (Bool-cases (c == 0x7f)) [
    | inl e ↦ rw e (
        finish-StaysValid rows cols pathname has_status s _ on
          (delete-IsValid rows cols s.editor (ascii ((==_iff c 0x7f).0 e)) v))
    | inr e ↦ rw e k
  ]

  control-StaysValid :
      (c : ℕ) (s : Session)
      → (c ≡ 0x7f → IsAscii (line_at s.editor))
      → IsValid rows cols s.editor
      → All (IsOnScreen rows cols) s.highlighted
      → Returns (StaysValid rows cols) (control is_printable rows cols pathname c s)
  control-StaysValid c s ascii v on =
      let e = s.editor in
      arm rows cols pathname has_status s _ on (top_of_file-IsValid rows cols tall some_column e v)
        (arm rows cols pathname has_status s _ on
          (bottom_of_file-IsValid rows cols tall some_column e v)
          (arm rows cols pathname has_status s _ on
            (start_of_line-IsValid rows cols tall some_column e v)
            (arm rows cols pathname has_status s _ on
              (end_of_line-IsValid rows cols tall some_column e v)
              (arm rows cols pathname has_status s _ on (cut_line-IsValid rows cols some_column e v)
                (arm rows cols pathname has_status s _ on
                  (copy_line-IsValid rows cols some_column e v)
                  (arm rows cols pathname has_status s _ on
                    (paste_line-IsValid rows cols some_column e v)
                    (arm rows cols pathname has_status s _ on
                      (backspace-IsValid rows cols some_column e v)
                      (delete_arm c s ascii v on (
                        Returns-if (StaysValid rows cols) _ (_, refl, (v, on))
                          (finish-StaysValid rows cols pathname has_status s _ on
                            (put_char-IsValid rows cols is_printable c e wide v)))))))))))

  arrow-StaysValid :
      (c : ℕ) (s : Session)
      → (c ≡ 0x7f → IsAscii (line_at s.editor))
      → IsValid rows cols s.editor
      → All (IsOnScreen rows cols) s.highlighted
      → Returns (StaysValid rows cols) (arrow is_printable rows cols pathname c s)
  arrow-StaysValid c s ascii v on =
      let e = s.editor in
      arm rows cols pathname has_status s _ on (arrow_up-IsValid rows cols tall some_column e v) (
        arm rows cols pathname has_status s _ on (arrow_down-IsValid rows cols tall some_column e v)
          (arm rows cols pathname has_status s _ on
            (arrow_right-IsValid rows cols tall some_column e v)
            (arm rows cols pathname has_status s _ on
              (arrow_left-IsValid rows cols tall some_column e v)
              (arm rows cols pathname has_status s _ on (e, refl, v)
                (control-StaysValid c s ascii v on)))))

  handle-StaysValid :
      (c : ℕ) (s : Session)
      → IsCareful c s
      → IsValid rows cols s.editor
      → All (IsOnScreen rows cols) s.highlighted
      → Returns (StaysValid rows cols) (handle is_printable rows cols pathname c s)
  unfolding handle
  handle-StaysValid c s careful v on =
      let stays = StaysValid rows cols in
      rw (careful.not_page_up, careful.not_page_down)
        (Returns-if stays (c == 0x1b) ((record s { escape = true }, goes_on), refl, (v, on))
          (Returns-if stays (c == b'[' && s.escape)
            ((record s { csi = true; csi_params = [] }, goes_on), refl, (v, on))
            (Returns-if stays (c == 0) ((s, goes_on), refl, (v, on))
              (Returns-if stays (c == 0x11 || c == 0x03) ((s, leaves), refl, (v, on))
                (Returns-if stays (c == 0x17) ((s, writes (contents s.editor)), refl, (v, on))
                  (Returns-if stays (c == 0x18)
                    ((s, writes_and_leaves (contents s.editor)), refl, (v, on))
                    (arm rows cols pathname has_status s (c == b'\n') on
                      (newline-IsValid rows cols some_column s.editor v)
                      (arrow-StaysValid c s careful.ascii v on))))))))

  -- On a screen of a row at least, on which the start of the status line fits, with the path as it
  -- is cut there: every character that the editor reads in a valid state, but one that ends the
  -- sequence of a page key or the delete key on a line that is not ASCII, is handled without a
  -- panic, the status line and the marks included; the cursor then stands in a line of the file or
  -- at its end, inside the screen, and every bracket that is marked lies on the screen.
  pub step-StaysValid :
      (c : ℕ) (s : Session)
      → IsCareful c s
      → IsValid rows cols s.editor
      → Returns (StaysValid rows cols) (step is_printable rows cols pathname c s)
  unfolding step
  step-StaysValid c s careful v = rw (clear_highlighted_lem cols s.highlighted some_column) (
      handle-StaysValid c (record s { highlighted = [] })
        (record {
          not_page_up = careful.not_page_up;
          not_page_down = careful.not_page_down;
          ascii = careful.ascii;
        })
        v tt)
