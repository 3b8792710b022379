-- ===== src/Lisp/Chunks.antt =====
-- Cutting a list in pieces and joining them again, by src/usr/lisp/primitive.rs.
use moros.Prelude.{ℕ, zero, suc, ◌≤◌, some, ◌≡◌, refl, ap, ◌∙◌, arith}
use moros.Run.{ok}
use moros.Lisp.{Exps, list, num, nil, cons, append}
use moros.Lisp.Primitive.{
  Numbers, take_items, drop_items, count_items, chunks, chunks_of, extend, listed, concat,
  lisp_chunks, lisp_concat,
}

module _ {N : Type 0} where
  append-take_items : (n : ℕ) (xs : Exps N) → append (take_items n xs) (drop_items n xs) ≡ xs
  append-take_items zero xs = refl
  append-take_items (suc n) nil = refl
  append-take_items (suc n) (cons x xs) = ap (cons x) (append-take_items n xs)

  count_items-drop_items : (n : ℕ) (xs : Exps N) → count_items (drop_items n xs) ≤ count_items xs
  count_items-drop_items zero xs = omega arith
  count_items-drop_items (suc n) nil = omega arith
  count_items-drop_items (suc n) (cons x xs) = let le = count_items-drop_items n xs in omega arith

  concat-chunks :
      (fuel n : ℕ) (xs : Exps N) → count_items xs ≤ fuel → concat (chunks fuel (suc n) xs) ≡ some xs
  unfolding concat chunks
  concat-chunks zero n nil le = refl
  concat-chunks zero n (cons x xs) le = absurd (omega arith)
  concat-chunks (suc fuel) n nil le = refl
  concat-chunks (suc fuel) n (cons x xs) le =
      let d = count_items-drop_items n xs in
      ap (extend (cons x (take_items n xs))) (concat-chunks fuel n (drop_items n xs) (omega arith))
      ∙ ap (λ ys. some (cons x ys)) (append-take_items n xs)

  pub lisp_concat-lisp_chunks :
      (numbers_of : Numbers N) (k : N) (n : ℕ) (xs : Exps N)
      → numbers_of.to_usize k ≡ some (suc n)
      → (ys : Exps N) × (lisp_chunks numbers_of (cons (list xs) (cons (num k) nil))
          ≡ ok (some (list ys)))
        × (lisp_concat ys ≡ some (list xs))
  unfolding lisp_chunks lisp_concat
  lisp_concat-lisp_chunks numbers_of k n xs e = (
    chunks (count_items xs) (suc n) xs,
    ap (chunks_of xs) e,
    ap listed (concat-chunks (count_items xs) n xs (omega arith)),
  )
