-- ===== src/Editor/Narrow.antt =====
-- Where the status line of src/usr/editor.rs does not fit.
use moros.Prelude.{
  ℕ, ◌+◌, ◌≤◌, ◌<◌, ◌≡◌, false, [], ◌∷◌, arith, length, length-append, leb, ltb, ◌==◌,
}
use moros.Run.{ok, panic}
use moros.Editor.{Text, Editor}
use moros.Editor.Status.{max_path, shown_path, start_of_status, print_editing_status}
use moros.Editor.Session.{Session, begin, finish}

module _ (rows cols : ℕ) (pathname : Text) (short : length pathname ≤ max_path) where
  short_lem : shown_path pathname ≡ ok pathname
  unfolding shown_path
  short_lem = let n : ltb max_path (length pathname) ≡ false = ground arith in rw n

  status_panics :
      (e : Editor)
      → 0 < length e.lines
      → cols < 10 + length pathname
      → print_editing_status pathname cols e ≡ panic
  unfolding print_editing_status
  status_panics e some_line narrow =
      let lines : (length e.lines == 0) ≡ false = ground arith in
      let n = length-append pathname (b'\'' ∷ []) in
      let fits : leb (length (start_of_status pathname)) cols ≡ false = ground arith in
      rw (short_lem, lines, fits)

  -- For a path of at most 50 characters, on a screen with fewer columns than the path has and 10
  -- more, the editor panics before it reads a key, and as well at the end of each key.
  -- With fewer columns than the path has and 10 more, the editor panics before it reads a key, and
  -- at the end of each key.
  pub begin-narrow :
      (e : Editor) (s : Session)
      → 0 < length e.lines
      → cols < 10 + length pathname
      → (begin rows cols pathname e ≡ panic) × (finish rows cols pathname s (ok e) ≡ panic)
  unfolding begin finish
  begin-narrow e s some_line narrow =
      (rw (status_panics e some_line narrow), rw (status_panics e some_line narrow))
