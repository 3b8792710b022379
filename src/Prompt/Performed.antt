-- ===== src/Prompt/Performed.antt =====
-- The keys of src/api/prompt.rs that use the history and the completion, and all calls of the
-- parser of escape sequences, on a valid prompt.
use moros.Prelude.{
  ℕ, ◌+◌, ◌≤◌, ◌<◌, ◌≡◌, refl, inl, inr, Bool, false, Option, none, some, List, [], ◌∷◌, arith,
  length, get_or, get_elem?-lt, ltb, ltb→lt, ◌==◌, Bool-cases,
}
use moros.Run.{◌>>=◌, Returns, Returns-bind, Returns-if}
use moros.Prompt.{
  Text, Prompt, show_at, offer, cycle, next_pos, previous_pos, handle_tab_key, handle_backtab_key,
}
use moros.Prompt.Keys.{
  above, go_up, go_down, below, handle_up_key, handle_down_key, handle_forward_key,
  handle_backward_key, handle_delete_key, handle_backspace_key, handle_printable_key, delete_params,
  Action, execute, print, csi_dispatch, perform, perform_all,
}
use moros.Prompt.Valid.{
  IsValid, IsPlain, IsSettled, update_completion_lem, IsUnrecalled, update_history_lem, settle_lem,
}
use moros.Prompt.Handled.{forward_lem, backward_lem, delete_lem, backspace_lem, insert_lem}

-- A plain prompt that goes to an entry of the history.
recalled-IsValid :
    (p : Prompt) (i : ℕ)
    → IsPlain p
    → i < length p.history.entries
    → IsValid (record p {
      cursor = p.offset + length (get_or p.history.entries i []);
      history = record p.history { pos = some i };
    })
recalled-IsValid p i w h = record {
  low = omega arith;
  high = omega arith;
  recalled = h;
  completed = w.valid.completed;
  apart = rw w.free tt;
}

go_up_lem :
    (p : Prompt) (bs i : ℕ)
    → IsPlain p
    → i < length p.history.entries
    → p.cursor ≤ p.offset + bs
    → Returns IsValid (go_up p (bs, i))
go_up_lem p bs i w h le =
    let inside : ltb (p.offset + bs) p.cursor ≡ false = ground arith in
    rw (get_elem?-lt p.history.entries i [] h, inside) (_, refl, recalled-IsValid p i w h)

from_above :
    (p : Prompt) (pos : Option ℕ)
    → p.history.pos ≡ pos
    → IsPlain p
    → 0 < length p.history.entries
    → Returns IsValid (above p (length p.history.entries) pos >>= go_up p)
from_above p none e w h =
    let high : p.cursor ≤ p.offset + length p.line = rw e at w.valid.high in
    go_up_lem p _ _ w (omega arith) high
from_above p (some i) e w h =
    let lt : i < length p.history.entries = rw e at w.valid.recalled in
    let high : p.cursor ≤ p.offset + length (get_or p.history.entries i []) =
      rw e at w.valid.high in
    rw (get_elem?-lt p.history.entries i [] lt) (go_up_lem p _ _ w (omega arith) high)

handle_up_key_lem : (p : Prompt) → IsValid p → Returns IsValid (handle_up_key p)
unfolding handle_up_key
handle_up_key_lem p v = Returns-bind IsPlain IsValid _ _ (update_completion_lem p v) λ q w.
    elim (Bool-cases (length q.history.entries == 0)) [
      | inl e ↦ rw e (q, refl, w.valid)
      | inr e ↦ rw e (from_above q q.history.pos refl w (ground arith))
    ]

go_down_lem : (p : Prompt) (i : ℕ) → IsPlain p → Returns IsValid (go_down p i)
go_down_lem p i w = elim (Bool-cases (ltb i (length p.history.entries))) [
  | inl e ↦
      let h = ltb→lt _ _ e in
      rw (e, get_elem?-lt p.history.entries i [] h) (_, refl, recalled-IsValid p i w h)
  | inr e ↦ rw e (
    _,
    refl,
    record {
      low = omega arith;
      high = omega arith;
      recalled = tt;
      completed = w.valid.completed;
      apart = rw w.free tt;
    },
  )
]

from_below :
    (p : Prompt) (pos : Option ℕ) → p.history.pos ≡ pos → IsPlain p → Returns IsValid (below p pos)
from_below p none e w = (p, refl, w.valid)
from_below p (some i) e w =
    let lt : i < length p.history.entries = rw e at w.valid.recalled in
    rw (get_elem?-lt p.history.entries i [] lt) (go_down_lem p (i + 1) w)

handle_down_key_lem : (p : Prompt) → IsValid p → Returns IsValid (handle_down_key p)
unfolding handle_down_key
handle_down_key_lem p v = Returns-bind IsPlain IsValid _ _ (update_completion_lem p v) λ q w.
    elim (Bool-cases (length q.history.entries == 0)) [
      | inl e ↦ rw e (q, refl, w.valid)
      | inr e ↦ rw e (from_below q q.history.pos refl w)
    ]

-- A valid prompt that shows its line, with any completion.
show_at_lem :
    (p : Prompt) (pos : ℕ)
    → IsValid p
    → p.history.pos ≡ none
    → pos < length p.completion.entries
    → Returns IsValid (show_at p pos)
show_at_lem p pos v unrecalled h = rw (get_elem?-lt p.completion.entries pos [] h) (
  _,
  refl,
  record { low = v.low; high = v.high; recalled = v.recalled; completed = h; apart = unrecalled },
)

-- The entries of the completion may be changed while none is shown.
with_entries :
    (p : Prompt) (entries : List Text)
    → IsValid p
    → p.completion.pos ≡ none
    → IsValid (record p { completion = record p.completion { entries = entries } })
with_entries p entries v free = record {
  low = v.low;
  high = v.high;
  recalled = v.recalled;
  completed = rw free tt;
  apart = rw free tt;
}

offer_lem :
    (p : Prompt) (entries : List Text)
    → IsValid p
    → p.history.pos ≡ none
    → p.completion.pos ≡ none
    → Returns IsValid (offer p entries)
offer_lem p [] v unrecalled free = (_, refl, with_entries p [] v free)
offer_lem p (e ∷ es) v unrecalled free =
    show_at_lem _ 0 (with_entries p (e ∷ es) v free) unrecalled (omega arith)

-- Both tab keys go to another entry of the list.
abbrev Stays : (ℕ → ℕ → ℕ) → Type 0
Stays next = (n pos : ℕ) → pos < n → next n pos < n

next_pos-Stays : Stays next_pos
next_pos-Stays n pos h = ground arith

previous_pos-Stays : Stays previous_pos
previous_pos-Stays n pos h = ground arith

cycle_lem :
    (next : ℕ → ℕ → ℕ) (p : Prompt) (pos : Option ℕ)
    → Stays next
    → p.completion.pos ≡ pos
    → IsValid p
    → p.history.pos ≡ none
    → Returns IsValid (cycle next p pos)
cycle_lem next p none stays e v unrecalled = offer_lem p _ v unrecalled e
cycle_lem next p (some i) stays e v unrecalled =
    let lt : i < length p.completion.entries = rw e at v.completed in
    elim (Bool-cases (length p.completion.entries == 1)) [
      | inl one ↦ let (q, e', w) = update_completion_lem p v in rw one (q, e', w.valid)
      | inr more ↦
          rw (more, get_elem?-lt p.completion.entries i [] lt)
            (show_at_lem p _ v unrecalled (stays _ i lt))
    ]

handle_tab_key_lem : (p : Prompt) → IsValid p → Returns IsValid (handle_tab_key p)
unfolding handle_tab_key
handle_tab_key_lem p v =
    Returns-bind (IsUnrecalled p.completion) IsValid _ _ (update_history_lem p v)
      λ q u. cycle_lem next_pos q _ next_pos-Stays refl u.valid u.unrecalled

handle_backtab_key_lem : (p : Prompt) → IsValid p → Returns IsValid (handle_backtab_key p)
unfolding handle_backtab_key
handle_backtab_key_lem p v =
    Returns-bind (IsUnrecalled p.completion) IsValid _ _ (update_history_lem p v)
      λ q u. cycle_lem previous_pos q _ previous_pos-Stays refl u.valid u.unrecalled

module _ (p : Prompt) (v : IsValid p) where
  handle_forward_key_lem : Returns IsValid (handle_forward_key p)
  unfolding handle_forward_key
  handle_forward_key_lem = Returns-bind IsSettled IsValid _ _ (settle_lem p v) forward_lem

  handle_backward_key_lem : Returns IsValid (handle_backward_key p)
  unfolding handle_backward_key
  handle_backward_key_lem = Returns-bind IsSettled IsValid _ _ (settle_lem p v) backward_lem

  handle_delete_key_lem : Returns IsValid (handle_delete_key p)
  unfolding handle_delete_key
  handle_delete_key_lem = Returns-bind IsSettled IsValid _ _ (settle_lem p v) delete_lem

  handle_backspace_key_lem : Returns IsValid (handle_backspace_key p)
  unfolding handle_backspace_key
  handle_backspace_key_lem = Returns-bind IsSettled IsValid _ _ (settle_lem p v) backspace_lem

  handle_printable_key_lem :
      (is_printable : ℕ → Bool) (c : ℕ) → Returns IsValid (handle_printable_key is_printable c p)
  unfolding handle_printable_key
  handle_printable_key_lem is_printable c =
      Returns-bind IsSettled IsValid _ _ (settle_lem p v) (λ q s. insert_lem q s is_printable c)

delete_params_lem : (ns : List ℕ) (p : Prompt) → IsValid p → Returns IsValid (delete_params ns p)
unfolding delete_params
delete_params_lem [] p v = (p, refl, v)
delete_params_lem (n ∷ ns) p v = elim (Bool-cases (n == 3)) [
  | inl e ↦
      rw e (Returns-bind IsValid IsValid _ _ (handle_delete_key_lem p v) (delete_params_lem ns))
  | inr e ↦ rw e (delete_params_lem ns p v)
]

pub perform-IsValid :
    (is_printable : ℕ → Bool) (a : Action) (p : Prompt)
    → IsValid p
    → Returns IsValid (perform is_printable a p)
unfolding perform
perform-IsValid is_printable (execute b) p v =
    Returns-if IsValid _ (handle_backspace_key_lem p v)
      (Returns-if IsValid _ (handle_tab_key_lem p v) (p, refl, v))
perform-IsValid is_printable (print c) p v =
    Returns-if IsValid _ (handle_delete_key_lem p v) (handle_printable_key_lem p v is_printable c)
perform-IsValid is_printable (csi_dispatch ns c) p v =
    Returns-if IsValid _ (handle_up_key_lem p v) (
      Returns-if IsValid _ (handle_down_key_lem p v) (
        Returns-if IsValid _ (handle_forward_key_lem p v) (
          Returns-if IsValid _ (handle_backward_key_lem p v) (
            Returns-if IsValid _ (handle_backtab_key_lem p v)
              (Returns-if IsValid _ (delete_params_lem ns p v) (p, refl, v))))))

pub perform_all-IsValid :
    (is_printable : ℕ → Bool) (actions : List Action) (p : Prompt)
    → IsValid p
    → Returns IsValid (perform_all is_printable actions p)
unfolding perform_all
perform_all-IsValid is_printable [] p v = (p, refl, v)
perform_all-IsValid is_printable (a ∷ rest) p v =
    Returns-bind IsValid IsValid _ _ (perform-IsValid is_printable a p v)
      (perform_all-IsValid is_printable rest)
