-- ===== src/Prompt/Entries/Laws.antt =====
-- The history of src/api/prompt.rs holds each entry once, the newest last, up to its limit.
use moros.Prelude.{
  ℕ, zero, suc, ◌+◌, ◌-◌, ◌≤◌, ◌<◌, ◌≡◌, refl, sym, ◌∙◌, ◌≢◌, inl, inr, true, false, some, List, [],
  ◌∷◌, ◌++◌, arith, length, length-append, length-drop, drop, last?, last?-append, Bool-cases,
}
use moros.Prompt.{Text, History}
use moros.Prompt.Entries.{same_text, remove_duplicates, remove_oldest, add}

abbrev pub Missing : Text → List Text → Type 0
Missing t [] = Unit {0}
Missing t (e ∷ es) = (e ≢ t) × Missing t es

abbrev pub AreDistinct : List Text → Type 0
AreDistinct [] = Unit {0}
AreDistinct (e ∷ es) = Missing e es × AreDistinct es

same_text_refl : (t : Text) → same_text t t ≡ true
unfolding same_text
same_text_refl [] = refl
same_text_refl (c ∷ cs) = ground (arith, same_text_refl cs)

same_text-ne : (s t : Text) → same_text s t ≡ false → s ≢ t
same_text-ne s t h e = let p : same_text s t ≡ true = rw e (same_text_refl t) in cc

same_text-eq : (s t : Text) → same_text s t ≡ true → s ≡ t
unfolding same_text
same_text-eq [] [] h = refl
same_text-eq [] (d ∷ ds) h = cc
same_text-eq (c ∷ cs) [] h = cc
same_text-eq (c ∷ cs) (d ∷ ds) h = ground (arith, same_text-eq cs ds)

remove_duplicates-Missing : (t : Text) (es : List Text) → Missing t (remove_duplicates t es)
unfolding remove_duplicates
remove_duplicates-Missing t [] = tt
remove_duplicates-Missing t (e ∷ es) = elim (Bool-cases (same_text e t)) [
  | inl same ↦ rw same (remove_duplicates-Missing t es)
  | inr other ↦ rw other (same_text-ne e t other, remove_duplicates-Missing t es)
]

Missing-remove_duplicates :
    (s t : Text) (es : List Text) → Missing s es → Missing s (remove_duplicates t es)
unfolding remove_duplicates
Missing-remove_duplicates s t [] h = tt
Missing-remove_duplicates s t (e ∷ es) h = elim (Bool-cases (same_text e t)) [
  | inl same ↦ rw same (Missing-remove_duplicates s t es h.1)
  | inr other ↦ rw other (h.0, Missing-remove_duplicates s t es h.1)
]

remove_duplicates-AreDistinct :
    (t : Text) (es : List Text) → AreDistinct es → AreDistinct (remove_duplicates t es)
unfolding remove_duplicates
remove_duplicates-AreDistinct t [] h = tt
remove_duplicates-AreDistinct t (e ∷ es) h = elim (Bool-cases (same_text e t)) [
  | inl same ↦ rw same (remove_duplicates-AreDistinct t es h.1)
  | inr other ↦
      rw other (Missing-remove_duplicates e t es h.0, remove_duplicates-AreDistinct t es h.1)
]

Missing-append : (s t : Text) (es : List Text) → Missing s es → t ≢ s → Missing s (es ++ t ∷ [])
Missing-append s t [] h ne = (ne, tt)
Missing-append s t (e ∷ es) h ne = (h.0, Missing-append s t es h.1 ne)

append-AreDistinct :
    (t : Text) (es : List Text) → AreDistinct es → Missing t es → AreDistinct (es ++ t ∷ [])
append-AreDistinct t [] d h = (tt, tt)
append-AreDistinct t (e ∷ es) d h =
    (Missing-append e t es d.0 (λ p. h.0 (sym p)), append-AreDistinct t es d.1 h.1)

drop-AreDistinct : (n : ℕ) (es : List Text) → AreDistinct es → AreDistinct (drop n es)
drop-AreDistinct zero es d = d
drop-AreDistinct (suc n) [] d = tt
drop-AreDistinct (suc n) (e ∷ es) d = drop-AreDistinct n es d.1

last?-drop : (n : ℕ) (es : List Text) → n < length es → last? (drop n es) ≡ last? es
last?-drop zero es h = refl
last?-drop (suc n) [] h = absurd (omega arith)
last?-drop (suc n) (e ∷ []) h = absurd (omega arith)
last?-drop (suc n) (e ∷ f ∷ es) h = last?-drop n (f ∷ es) (omega arith)

-- Adding an entry to a history whose entries are distinct, with a limit above 0, keeps them
-- distinct, puts the entry last, and leaves no more than the limit.
pub add-AreDistinct :
    (entry : Text) (h : History)
    → 0 < h.limit
    → AreDistinct h.entries
    → AreDistinct (add entry h).entries
      × (last? (add entry h).entries ≡ some entry)
      × (length (add entry h).entries ≤ h.limit)
unfolding add remove_oldest
add-AreDistinct entry h pos d =
    let kept = remove_duplicates entry h.entries in
    let all = kept ++ entry ∷ [] in
    let n : length all ≡ length kept + 1 = omega (arith, length-append kept (entry ∷ [])) in
    (
      drop-AreDistinct _ all (
          append-AreDistinct entry kept (remove_duplicates-AreDistinct entry h.entries d)
            (remove_duplicates-Missing entry h.entries)),
      last?-drop _ all (omega arith) ∙ last?-append kept entry,
      omega (arith, length-drop (length all - h.limit) all),
    )
