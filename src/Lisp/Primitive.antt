-- ===== src/Lisp/Primitive.antt =====
-- The primitives of src/usr/lisp/primitive.rs on numbers and on lists. The numbers of number.rs are
-- an argument. An error is `none`, and a panic one of `Run`.
use moros.Prelude.{
  ℕ, zero, suc, Bool, true, false, ◌&&◌, Option, none, some, List, [], ◌∷◌, if◌then◌else◌,
}
use moros.Run.{Run, ok, panic}
use moros.Lisp.{Exp, Exps, list, bool, num, nil, cons, append, exp_eq}

pub record Numbers (N : Type 0) : Type 0 where
  pub zero' : N
  pub one : N
  pub eq : N → N → Bool
  pub gt : N → N → Bool
  pub gte : N → N → Bool
  pub lt : N → N → Bool
  pub lte : N → N → Bool
  pub add : N → N → N
  pub sub : N → N → N
  pub mul : N → N → N
  pub div : N → N → N
  pub rem : N → N → N
  pub pow : N → N → N
  pub neg : N → N
  pub is_zero : N → Bool
  pub to_usize : N → Option ℕ

module _ {N : Type 0} where
  abbrev also_number : N → Option (List N) → Option (List N)
  also_number n none = none
  also_number n (some ns) = some (n ∷ ns)

  abbrev pub numbers : Exps N → Option (List N)
  numbers nil = some []
  numbers (cons (num n) xs) = also_number n (numbers xs)
  numbers (cons x xs) = none

  -- `windows(2).all`
  abbrev pub all_pairs : (N → N → Bool) → List N → Bool
  all_pairs test [] = true
  all_pairs test (x ∷ []) = true
  all_pairs test (x ∷ y ∷ rest) = test x y && all_pairs test (y ∷ rest)

  abbrev fold : (N → N → N) → N → List N → N
  fold f acc [] = acc
  fold f acc (x ∷ xs) = fold f (f acc x) xs

  abbrev on_numbers : Exps N → (List N → Option (Exp N)) → Option (Exp N)
  on_numbers args f = elim (numbers args) [ none ↦ none | some ns ↦ f ns ]

  unfoldable pub compare : (N → N → Bool) → Exps N → Option (Exp N)
  compare test args = on_numbers args (λ ns. some (bool (all_pairs test ns)))

  abbrev pub take_items : ℕ → Exps N → Exps N
  take_items zero xs = nil
  take_items (suc n) nil = nil
  take_items (suc n) (cons x xs) = cons x (take_items n xs)

  abbrev pub drop_items : ℕ → Exps N → Exps N
  drop_items zero xs = xs
  drop_items (suc n) nil = nil
  drop_items (suc n) (cons x xs) = drop_items n xs

  abbrev pub count_items : Exps N → ℕ
  count_items nil = 0
  count_items (cons x xs) = suc (count_items xs)

  -- At most `fuel` chunks; each has an item at least, so that the items are enough.
  unfoldable pub chunks : ℕ → ℕ → Exps N → Exps N
  chunks zero n xs = nil
  chunks (suc fuel) n nil = nil
  chunks (suc fuel) n (cons x xs) =
      cons (list (take_items n (cons x xs))) (chunks fuel n (drop_items n (cons x xs)))

  abbrev pub chunks_of : Exps N → Option ℕ → Run (Option (Exp N))
  chunks_of xs none = ok none
  chunks_of xs (some zero) = panic
  chunks_of xs (some (suc n)) = ok (some (list (chunks (count_items xs) (suc n) xs)))

  abbrev pub extend : Exps N → Option (Exps N) → Option (Exps N)
  extend xs none = none
  extend xs (some ys) = some (append xs ys)

  unfoldable pub concat : Exps N → Option (Exps N)
  concat nil = some nil
  concat (cons (list xs) rest) = extend xs (concat rest)
  concat (cons x rest) = none

  abbrev pub listed : Option (Exps N) → Option (Exp N)
  listed none = none
  listed (some xs) = some (list xs)

  unfoldable pub lisp_concat : Exps N → Option (Exp N)
  unfolding concat
  lisp_concat args = listed (concat args)

  abbrev pub lisp_list : Exps N → Option (Exp N)
  lisp_list args = some (list args)

module _ {N : Type 0} (numbers_of : Numbers N) where
  unfoldable pub lisp_chunks : Exps N → Run (Option (Exp N))
  unfolding chunks
  lisp_chunks (cons (list xs) (cons (num k) nil)) = chunks_of xs (numbers_of.to_usize k)
  lisp_chunks args = ok none

  abbrev pub lisp_eq : Exps N → Option (Exp N)
  lisp_eq args = compare numbers_of.eq args

  abbrev pub lisp_gt : Exps N → Option (Exp N)
  lisp_gt args = compare numbers_of.gt args

  abbrev pub lisp_gte : Exps N → Option (Exp N)
  lisp_gte args = compare numbers_of.gte args

  abbrev pub lisp_lt : Exps N → Option (Exp N)
  lisp_lt args = compare numbers_of.lt args

  abbrev pub lisp_lte : Exps N → Option (Exp N)
  lisp_lte args = compare numbers_of.lte args

  -- `Number::Int(1)` and `Number::Int(0)` are where the folds start.
  abbrev pub lisp_mul : Exps N → Option (Exp N)
  lisp_mul args = on_numbers args (λ ns. some (num (fold numbers_of.mul numbers_of.one ns)))

  abbrev pub lisp_add : Exps N → Option (Exp N)
  lisp_add args = on_numbers args (λ ns. some (num (fold numbers_of.add numbers_of.zero' ns)))

  abbrev minus_all : List N → Option (Exp N)
  minus_all [] = none
  minus_all (x ∷ []) = some (num (numbers_of.neg x))
  minus_all (x ∷ y ∷ rest) =
      some (num (numbers_of.sub x (fold numbers_of.add numbers_of.zero' (y ∷ rest))))

  abbrev pub lisp_sub : Exps N → Option (Exp N)
  lisp_sub args = on_numbers args minus_all

  abbrev any_zero : List N → Bool
  any_zero [] = false
  any_zero (x ∷ xs) = if numbers_of.is_zero x then true else any_zero xs

  -- A fold from the first number over the others, none of which may be zero.
  abbrev pub fold_nonzero : (N → N → N) → List N → Option (Exp N)
  fold_nonzero f [] = none
  fold_nonzero f (x ∷ xs) = if any_zero xs then none else some (num (fold f x xs))

  abbrev with_one : List N → List N
  with_one (x ∷ []) = numbers_of.one ∷ x ∷ []
  with_one ns = ns

  abbrev pub lisp_div : Exps N → Option (Exp N)
  lisp_div args = on_numbers args (λ ns. fold_nonzero numbers_of.div (with_one ns))

  abbrev pub lisp_rem : Exps N → Option (Exp N)
  lisp_rem args = on_numbers args (λ ns. fold_nonzero numbers_of.rem ns)

  abbrev powers : List N → Option (Exp N)
  powers [] = none
  powers (x ∷ xs) = some (num (fold numbers_of.pow x xs))

  abbrev pub lisp_exp : Exps N → Option (Exp N)
  lisp_exp args = on_numbers args powers

  -- `dedup`: an item that equals the last one kept is dropped.
  abbrev dedup_after : Exp N → Exps N → Exps N
  dedup_after last nil = nil
  dedup_after last (cons y ys) =
      let dropped = dedup_after last ys in
      let kept = cons y (dedup_after y ys) in if exp_eq numbers_of.eq y last then dropped else kept

  abbrev dedup : Exps N → Exps N
  dedup nil = nil
  dedup (cons x xs) = cons x (dedup_after x xs)

  abbrev pub lisp_unique : Exps N → Option (Exp N)
  lisp_unique (cons (list xs) nil) = some (list (dedup xs))
  lisp_unique args = none
