-- ===== src/Process/Handles.antt =====
-- src/sys/process.rs: which handle is given.
use moros.Prelude.{
  ℕ, zero, suc, ◌+◌, ◌-◌, ◌<◌, ◌≤◌, ◌≡◌, ◌≢◌, refl, sym, ◌∙◌, ap, inl, inr, ◌⊎◌, arith, Option,
  none, some, List, [], ◌∷◌, length, set, get_elem?, get_elem?-set_self, get_elem?-set_ne, dec_eq,
}
use moros.Run.{ok, panic, ◌>>=◌, unwrap, good, bad}
use moros.Process.{Process, Kernel, put_handle, free_handle, create_handle, delete_handle, handle}

module _ {A : Type 0} where
  pub get_elem?-some : (xs : List A) (i : ℕ) → i < length xs → (x : A) × (get_elem? xs i ≡ some x)
  get_elem?-some [] i h = absurd (omega arith)
  get_elem?-some (x ∷ xs) zero h = (x, refl)
  get_elem?-some (x ∷ xs) (suc i) h = get_elem?-some xs i (omega arith)

  get_elem?-lt : (xs : List A) (i : ℕ) (x : A) → get_elem? xs i ≡ some x → i < length xs
  get_elem?-lt [] i x h = cc h
  get_elem?-lt (y ∷ xs) zero x h = omega arith
  get_elem?-lt (y ∷ xs) (suc i) x h = let rest = get_elem?-lt xs i x h in omega (arith, rest)

  get_elem?-none : (xs : List A) (i : ℕ) → length xs ≤ i → get_elem? xs i ≡ none
  get_elem?-none [] i h = refl
  get_elem?-none (x ∷ xs) zero h = absurd (omega arith)
  get_elem?-none (x ∷ xs) (suc i) h = get_elem?-none xs i (omega arith)

  pub set-set : (xs : List A) (i : ℕ) (x y : A) → set (set xs i x) i y ≡ set xs i y
  set-set [] i x y = refl
  set-set (z ∷ xs) zero x y = refl
  set-set (z ∷ xs) (suc i) x y = ap (λ t. z ∷ t) (set-set xs i x y)

  set-get_elem? : (xs : List A) (i : ℕ) (x : A) → get_elem? xs i ≡ some x → set xs i x ≡ xs
  set-get_elem? [] i x h = refl
  set-get_elem? (z ∷ xs) zero x h = let same : z ≡ x = cc h in ap (λ t. t ∷ xs) (sym same)
  set-get_elem? (z ∷ xs) (suc i) x h = ap (λ t. z ∷ t) (set-get_elem? xs i x h)

module _ {R : Type 0} where
  -- The slots `i <= j < i + n` are all taken.
  pub AllTaken : List (Option R) → ℕ → ℕ → Type 0
  AllTaken hs i n = (j : ℕ) → i ≤ j → j < i + n → (r : R) × (get_elem? hs j ≡ some (some r))

  abbrev pub IsSearched : List (Option R) → ℕ → ℕ → Option ℕ → Type 0
  IsSearched hs i n none = AllTaken hs i n
  IsSearched hs i n (some h) =
      (i ≤ h) × (h < i + n) × (get_elem? hs h ≡ some none) × AllTaken hs i (h - i)

  AllTaken-suc :
      (hs : List (Option R)) (i n : ℕ) (r : R)
      → get_elem? hs i ≡ some (some r)
      → AllTaken hs (suc i) n
      → AllTaken hs i (suc n)
  unfolding AllTaken
  AllTaken-suc hs i n r e rest j lo hi = elim (dec_eq i j) [
    | inl same ↦ (r, rw (sym same) e)
    | inr ne ↦ rest j (omega (arith, ne)) (omega arith)
  ]

  free_handle_lem :
      (n i : ℕ) (hs : List (Option R))
      → i + n ≤ length hs
      → (slot : Option ℕ) × (free_handle n i hs ≡ ok slot) × IsSearched hs i n slot
  unfolding free_handle AllTaken
  free_handle_lem zero i hs h = (none, refl, λ j lo hi. absurd (omega arith))
  free_handle_lem (suc n) i hs h =
      let (entry, e) = get_elem?-some hs i (omega arith) in
      let (slot, found, searched) = free_handle_lem n (suc i) hs (omega arith) in
      pick entry e slot found searched
    where
      pick :
          (entry : Option R)
          → get_elem? hs i ≡ some entry
          → (slot : Option ℕ) → free_handle n (suc i) hs ≡ ok slot
          → IsSearched hs (suc i) n slot
          → (slot : Option ℕ) × (free_handle (suc n) i hs ≡ ok slot) × IsSearched hs i (suc n) slot
      pick none e slot found s = (
        some i,
        rw (e, free_handle) refl,
        (omega arith, omega arith, e, λ j lo hi. absurd (omega arith)),
      )
      pick (some r) e none found s =
          (none, rw (e, found, free_handle) refl, AllTaken-suc hs i n r e s)
      pick (some r) e (some k) found s = (
        some k,
        rw (e, found, free_handle) refl,
        (
          omega (arith, s.0),
          omega (arith, s.1),
          s.2,
          λ j lo hi. AllTaken-suc hs i (k - suc i) r e s.3 j lo (omega (arith, s.0)),
        ),
      )

  -- A process runs, and each has its 64 handles.
  pub record IsValid (k : Kernel R) : Type 0 where
    pub running : k.pid < length k.table
    pub sized :
        (i : ℕ) (p : Process R) → get_elem? k.table i ≡ some p → length p.process_data.handles ≡ 64

  -- The result of `create_handle` for the process `p`: the lowest empty handle from 4 on, or an
  -- error if they are all taken.
  unfoldable pub Creates : Kernel R → R → Process R → Type 0
  Creates k file p =
      ((h : ℕ) × (create_handle k file ≡ ok (good h, put_handle k p h (some file)))
        × (4 ≤ h)
        × (h < 64)
        × (get_elem? p.process_data.handles h ≡ some none)
        × AllTaken p.process_data.handles 4 (h - 4))
      ⊎ ((create_handle k file ≡ ok (bad, k)) × AllTaken p.process_data.handles 4 60)

  -- In a valid kernel `create_handle` gives the running process the lowest empty handle from 4 on
  -- and stores the file there; it fails, and changes nothing, only if the 60 handles from 4 on are
  -- all taken.
  pub create_handle_lem :
      (k : Kernel R) (file : R)
      → IsValid k
      → (p : Process R) × (get_elem? k.table k.pid ≡ some p) × Creates k file p
  unfolding create_handle Creates
  create_handle_lem k file v =
      let (p, here) = get_elem?-some k.table k.pid v.running in
      let sized = v.sized k.pid p here in
      let (slot, found, searched) =
        free_handle_lem 60 4 p.process_data.handles (omega (arith, sized)) in
      (p, here, pick p here slot found searched)
    where
      pick :
          (p : Process R)
          → get_elem? k.table k.pid ≡ some p
          → (slot : Option ℕ) → free_handle 60 4 p.process_data.handles ≡ ok slot
          → IsSearched p.process_data.handles 4 60 slot
          → Creates k file p
      pick p here none found s = inr (rw (here, found) refl, s)
      pick p here (some h) found s =
          inl (h, rw (here, found) refl, s.0, omega (arith, s.1), s.2, s.3)

  -- The running process with another entry for a handle.
  abbrev pub with_handle : Process R → ℕ → Option R → Process R
  with_handle p h entry =
      let old = p.process_data in
      record p { process_data = record old { handles = set old.handles h entry } }

  pub handle-running :
      (k : Kernel R) (p : Process R) (h : ℕ)
      → get_elem? k.table k.pid ≡ some p
      → handle k h ≡ unwrap (get_elem? p.process_data.handles h)
  unfolding handle
  handle-running k p h here = rw here (pick (get_elem? p.process_data.handles h))
    where
      pick :
          (c : Option (Option R))
          → ((unwrap c >>= λ entry. ok (p, entry)) >>= λ (x : Process R × Option R). ok x.1)
            ≡ unwrap c
      pick none = refl
      pick (some e) = refl

  pub put-running :
      (k : Kernel R) (p : Process R) (h : ℕ) (entry : Option R)
      → IsValid k
      → get_elem? (put_handle k p h entry).table k.pid ≡ some (with_handle p h entry)
  put-running k p h entry v = get_elem?-set_self k.table k.pid (with_handle p h entry) v.running

  pub put-put :
      (k : Kernel R) (p : Process R) (h : ℕ) (a b : Option R)
      → get_elem? k.table k.pid ≡ some p
      → get_elem? p.process_data.handles h ≡ some b
      → put_handle (put_handle k p h a) (with_handle p h a) h b ≡ k
  put-put k p h a b here old =
      rw
        (
          set-set k.table k.pid (with_handle p h a) (with_handle (with_handle p h a) h b),
          set-set p.process_data.handles h a b,
          set-get_elem? p.process_data.handles h b old,
          set-get_elem? k.table k.pid p here,
        )
        refl

  pub created-good :
      (k k1 : Kernel R) (file : R) (h : ℕ)
      → IsValid k
      → create_handle k file ≡ ok (good h, k1)
      → (p : Process R) × (get_elem? k.table k.pid ≡ some p)
        × (put_handle k p h (some file) ≡ k1)
        × (4 ≤ h)
        × (h < 64)
        × (get_elem? p.process_data.handles h ≡ some none)
  unfolding Creates
  created-good k k1 file h v made =
      let (p, here, created) = create_handle_lem k file v in
      let (after, lo, hi, free) = pick p created in (p, here, after, lo, hi, free)
    where
      pick :
          (p : Process R)
          → Creates k file p
          → (put_handle k p h (some file) ≡ k1)
            × (4 ≤ h)
            × (h < 64)
            × (get_elem? p.process_data.handles h ≡ some none)
      pick p (inl (h1, e, lo, hi, free, _)) =
          let both : ok (good h1, put_handle k p h1 (some file)) ≡ ok (good h, k1) = sym e ∙ made in
          let same : h1 ≡ h = cc both in
          let after : put_handle k p h1 (some file) ≡ k1 = cc both in
          rw (sym same) (after, lo, hi, free)
      pick p (inr (e, _)) = let both : ok (bad, k) ≡ ok (good h, k1) = sym e ∙ made in cc both

  -- After `create_handle` has given the handle `h`, it stands for the file, and every other handle
  -- of the process stands for what it stood for.
  pub handle-create_handle :
      (k k1 : Kernel R) (file : R) (h : ℕ)
      → IsValid k
      → create_handle k file ≡ ok (good h, k1)
      → (handle k1 h ≡ ok (some file)) × ((j : ℕ) → j ≢ h → handle k1 j ≡ handle k j)
  handle-create_handle k k1 file h v made =
      let (p, here, after, lo, hi, free) = created-good k k1 file h v made in
      let sized = v.sized k.pid p here in
      let there = put-running k p h (some file) v in
      rw (sym after) (
        handle-running (put_handle k p h (some file)) (with_handle p h (some file)) h there
            ∙ ap unwrap (
                get_elem?-set_self p.process_data.handles h (some file) (omega (arith, sized, hi))),
        λ j ne.
            handle-running (put_handle k p h (some file)) (with_handle p h (some file)) j there
            ∙ ap unwrap (get_elem?-set_ne p.process_data.handles (some file) (λ e. ne (sym e)))
            ∙ sym (handle-running k p j here),
      )

  -- Deleting a handle that was just created gives back the kernel as it was.
  pub delete_handle-create_handle :
      (k k1 : Kernel R) (file : R) (h : ℕ)
      → IsValid k
      → create_handle k file ≡ ok (good h, k1)
      → delete_handle k1 h ≡ ok k
  unfolding delete_handle
  delete_handle-create_handle k k1 file h v made =
      let (p, here, after, lo, hi, free) = created-good k k1 file h v made in
      let sized = v.sized k.pid p here in
      let there = put-running k p h (some file) v in
      let taken =
        get_elem?-set_self p.process_data.handles h (some file) (omega (arith, sized, hi)) in
      rw (sym after, there, taken) (ap ok (put-put k p h (some file) none here free))

  -- A handle from 64 on panics, in whatever process.
  pub handle_panics : (k : Kernel R) (h : ℕ) → IsValid k → 64 ≤ h → handle k h ≡ panic
  handle_panics k h v out =
      let (p, here) = get_elem?-some k.table k.pid v.running in
      let sized = v.sized k.pid p here in
      handle-running k p h here
      ∙ ap unwrap (get_elem?-none p.process_data.handles h (omega (arith, sized, out)))
