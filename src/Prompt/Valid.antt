-- ===== src/Prompt/Valid.antt =====
-- The invariant of the prompt: the cursor stands on the text that is shown, and each position
-- names an entry. Every key of src/api/prompt.rs is handled without a panic and keeps it.
use moros.Prelude.{
  ℕ, ◌+◌, ◌≤◌, ◌<◌, ◌≡◌, refl, ◌∙◌, ap, Option, none, some, List, [], arith, length, get_or,
  get_elem?-lt, length-append,
}
use moros.Run.{Returns, Returns-bind}
use moros.Prompt.{Text, Prompt, Completion, recall, complete, update_history, update_completion}
use moros.Prompt.Keys.{settle}

abbrev pub shown_at : List Text → Text → Option ℕ → Text
shown_at entries line none = line
shown_at entries line (some i) = get_or entries i []

-- The text behind the prompt on the screen.
abbrev pub shown : Prompt → Text
shown p = shown_at p.history.entries p.line p.history.pos

abbrev pub InRange : Option ℕ → ℕ → Type 0
InRange none n = Unit {0}
InRange (some i) n = i < n

abbrev pub Apart : Option ℕ → Option ℕ → Type 0
Apart none h = Unit {0}
Apart (some i) h = h ≡ none

pub record IsValid (p : Prompt) : Type 0 where
  pub low : p.offset ≤ p.cursor
  pub high : p.cursor ≤ p.offset + length (shown p)
  pub recalled : InRange p.history.pos (length p.history.entries)
  pub completed : InRange p.completion.pos (length p.completion.entries)
  pub apart : Apart p.completion.pos p.history.pos

-- A valid prompt without a completion in use.
pub record IsPlain (p : Prompt) : Type 0 where
  pub valid : IsValid p
  pub free : p.completion.pos ≡ none

-- A valid prompt that shows its line.
pub record IsSettled (p : Prompt) : Type 0 where
  pub valid : IsValid p
  pub free : p.completion.pos ≡ none
  pub unrecalled : p.history.pos ≡ none

complete_lem :
    (p : Prompt) (pos : Option ℕ)
    → p.completion.pos ≡ pos
    → IsValid p
    → Returns IsPlain (complete p pos)
complete_lem p none e v = (p, refl, record { valid = v; free = e })
complete_lem p (some i) e v =
    let h : i < length p.completion.entries = rw e at v.completed in
    let a : p.history.pos ≡ none = rw e at v.apart in
    let high : p.cursor ≤ p.offset + length p.line = rw a at v.high in
    rw (get_elem?-lt p.completion.entries i [] h) (
      _,
      refl,
      record {
        valid = record {
          low = omega (arith, v.low);
          high =
              rw a (omega (arith, high, length-append p.line (get_or p.completion.entries i [])));
          recalled = rw a tt;
          completed = tt;
          apart = tt;
        };
        free = refl;
      },
    )

pub update_completion_lem : (p : Prompt) → IsValid p → Returns IsPlain (update_completion p)
unfolding update_completion
update_completion_lem p v = complete_lem p p.completion.pos refl v

Apart-none : (c : Option ℕ) → Apart c none
Apart-none none = tt
Apart-none (some i) = refl

-- What `update_history` makes of a valid prompt with the completion `c`.
pub record IsUnrecalled (c : Completion) (p : Prompt) : Type 0 where
  pub valid : IsValid p
  pub unrecalled : p.history.pos ≡ none
  pub completion : p.completion ≡ c

recall_lem :
    (p : Prompt) (pos : Option ℕ)
    → p.history.pos ≡ pos
    → IsValid p
    → Returns (IsUnrecalled p.completion) (recall p pos)
recall_lem p none e v = (p, refl, record { valid = v; unrecalled = e; completion = refl })
recall_lem p (some i) e v =
    let h : i < length p.history.entries = rw e at v.recalled in
    let high : p.cursor ≤ p.offset + length (get_or p.history.entries i []) = rw e at v.high in
    rw (get_elem?-lt p.history.entries i [] h) (
      _,
      refl,
      record {
        valid = record {
          low = v.low;
          high = high;
          recalled = tt;
          completed = v.completed;
          apart = Apart-none p.completion.pos;
        };
        unrecalled = refl;
        completion = refl;
      },
    )

pub update_history_lem :
    (p : Prompt) → IsValid p → Returns (IsUnrecalled p.completion) (update_history p)
unfolding update_history
update_history_lem p v = recall_lem p p.history.pos refl v

-- What `settle` makes of a valid prompt shows its line.
pub settle_lem : (p : Prompt) → IsValid p → Returns IsSettled (settle p)
unfolding settle
settle_lem p v = Returns-bind IsPlain IsSettled _ _ (update_completion_lem p v) λ q w.
    let (r, e, u) = update_history_lem q w.valid in
    (
      r,
      e,
      record {
        valid = u.valid;
        free = ap (λ c. c.pos) u.completion ∙ w.free;
        unrecalled = u.unrecalled;
      },
    )
