-- ===== src/Shell/Redirect/Laws.antt =====
-- Redirections of src/usr/shell.rs: what stays of the arguments, in which order the handles are
-- opened, and what happens where something is missing.
use moros.Prelude.{ℕ, ◌≡◌, refl, ap, ◌∙◌, Bool, true, false, List, [], ◌∷◌, ltb}
use moros.Run.{ok, panic}
use moros.Regex.{CharClasses}
use moros.Shell.{Text}
use moros.Shell.Redirect.{
  word, fat, classify, read_arrow, failed, passed, keep, mark, redirect, ExitCode, failure,
  exec_args,
}

-- A command as its user reads it: words, and arrows with the path behind them.
pub data Item : Type 0 where
  plain : Text → Item
  to : ℕ → Text → Text → Item

abbrev pub render : List Item → List Text
render [] = []
render (plain w ∷ items) = w ∷ render items
render (to left arrow path ∷ items) = arrow ∷ path ∷ render items

abbrev pub words : List Item → List Text
words [] = []
words (plain w ∷ items) = w ∷ words items
words (to left arrow path ∷ items) = words items

abbrev pub redirects : List Item → Bool
redirects [] = false
redirects (plain w ∷ items) = redirects items
redirects (to left arrow path ∷ items) = true

module _ ⦃f : CharClasses⦄ where
  -- Words are no arrows, and no arrow names a handle on its right.
  abbrev pub IsRead : Item → Type 0
  IsRead (plain w) = classify w ≡ word
  IsRead (to left arrow path) = (classify arrow ≡ fat left) × ((read_arrow left arrow).num ≡ [])

  abbrev pub AreRead : List Item → Type 0
  AreRead [] = Unit {0}
  AreRead (i ∷ items) = IsRead i × AreRead items

module _ {S : Type 0} (reopen : Text → ℕ → Bool → S → Bool × S) where
  abbrev pub open_one : ℕ → Text → Text → S → Bool × S
  open_one left arrow path s =
      let h = read_arrow left arrow in reopen path h.left_handle (ltb 1 h.head_count) s

  -- The state behind the redirections, in their order.
  abbrev pub opened : List Item → S → S
  opened [] s = s
  opened (plain w ∷ items) s = opened items s
  opened (to left arrow path ∷ items) s = opened items (open_one left arrow path s).1

  abbrev pub AllOpen : List Item → S → Type 0
  AllOpen [] s = Unit {0}
  AllOpen (plain w ∷ items) s = AllOpen items s
  AllOpen (to left arrow path ∷ items) s =
      ((open_one left arrow path s).0 ≡ true) × AllOpen items (open_one left arrow path s).1

module _ ⦃f : CharClasses⦄ {S : Type 0} (reopen : Text → ℕ → Bool → S → Bool × S) where
  redirect_word :
      (arg : Text) (args : List Text) (s : S)
      → classify arg ≡ word
      → redirect reopen (arg ∷ args) s ≡ keep reopen arg (redirect reopen args s)
  unfolding redirect
  redirect_word arg [] s h = rw h
  redirect_word arg (path ∷ args) s h = rw h

  redirect_arrow :
      (left : ℕ) (arrow path : Text) (args : List Text) (s : S)
      → classify arrow ≡ fat left
      → (read_arrow left arrow).num ≡ []
      → (open_one reopen left arrow path s).0 ≡ true
      → redirect reopen (arrow ∷ path ∷ args) s
        ≡ mark reopen (redirect reopen args (open_one reopen left arrow path s).1)
  unfolding redirect
  redirect_arrow left arrow path args s h n good = rw (h, n) (rw good)

  redirect_nil : (s : S) → redirect reopen [] s ≡ passed s [] false
  unfolding redirect
  redirect_nil s = refl

  -- For a command of words that are no arrows, and arrows without a handle on their right each with
  -- a path, all of which can be opened: the redirections are opened in their order, the words are
  -- what stays of the arguments, and the handles are to be restored if there was an arrow.
  pub redirect-render :
      (items : List Item) (s : S)
      → AreRead items
      → AllOpen reopen items s
      → redirect reopen (render items) s
        ≡ passed (opened reopen items s) (words items) (redirects items)
  redirect-render [] s h o = redirect_nil s
  redirect-render (plain w ∷ items) s h o =
      redirect_word w (render items) s h.0 ∙ ap (keep reopen w) (redirect-render items s h.1 o)
  redirect-render (to left arrow path ∷ items) s h o =
      redirect_arrow left arrow path (render items) s h.0.0 h.0.1 o.0
      ∙ ap (mark reopen) (redirect-render items (open_one reopen left arrow path s).1 h.1 o.1)

  dangling :
      (left : ℕ) (arrow : Text) (s : S)
      → classify arrow ≡ fat left
      → redirect reopen (arrow ∷ []) s ≡ failed s
  unfolding redirect
  dangling left arrow s h = rw h

module _ ⦃f : CharClasses⦄ {S : Type 0} (reopen : Text → ℕ → Bool → S → Bool × S) (console : Text)
    (dispatch : Text → List Text → S → ExitCode × S) where
  -- A command of redirections alone, all of which can be opened, panics.
  pub exec_args-nothing :
      (items : List Item) (s : S)
      → AreRead items
      → AllOpen reopen items s
      → words items ≡ []
      → exec_args reopen console dispatch (render items) s ≡ panic
  unfolding exec_args
  exec_args-nothing items s h o nothing = rw (redirect-render reopen items s h o, nothing)

  -- A command of a word, a redirection that can be opened, and a last arrow without a path fails,
  -- and leaves the state in which the redirection was opened, not restored.
  pub exec_args-dangling :
      (name : Text) (left left' : ℕ) (arrow path arrow' : Text) (s : S)
      → AreRead (plain name ∷ to left arrow path ∷ [])
      → (open_one reopen left arrow path s).0 ≡ true
      → classify arrow' ≡ fat left'
      → exec_args reopen console dispatch (name ∷ arrow ∷ path ∷ arrow' ∷ []) s
        ≡ ok (failure, (open_one reopen left arrow path s).1)
  unfolding exec_args
  exec_args-dangling name left left' arrow path arrow' s h good last = rw (
    redirect_word reopen name (arrow ∷ path ∷ arrow' ∷ []) s h.0,
    redirect_arrow reopen left arrow path (arrow' ∷ []) s h.1.0.0 h.1.0.1 good,
    dangling reopen left' arrow' (open_one reopen left arrow path s).1 last,
  )
