-- ===== src/Process/Updates.antt =====
-- src/sys/process.rs: setting and deleting handles, one after the other.
use moros.Prelude.{
  subst, length-set, ℕ, ◌<◌, ◌≡◌, ◌≢◌, refl, sym, ◌∙◌, ap, inl, inr, arith, Option, none, some,
  length, get_elem?, get_elem?-set_self, get_elem?-set_ne, dec_eq,
}
use moros.Run.{ok, unwrap, good}
use moros.Process.{Process, Kernel, put_handle, create_handle, update_handle, delete_handle, handle}
use moros.Process.Handles.{
  IsValid, get_elem?-some, set-set, with_handle, handle-running, put-running, put-put, created-good,
}

module _ {R : Type 0} where
  put_handle-IsValid :
      (k : Kernel R) (p : Process R) (h : ℕ) (entry : Option R)
      → IsValid k
      → get_elem? k.table k.pid ≡ some p
      → IsValid (put_handle k p h entry)
  put_handle-IsValid k p h entry v here = record {
    running =
        let n = length-set k.table k.pid (with_handle p h entry) in
        let lt = v.running in omega (arith, n, lt);
    sized = λ i q e. elim (dec_eq k.pid i) [
      | inl same ↦
          let stored = put-running k p h entry v in
          let is : some (with_handle p h entry) ≡ some q =
            sym stored ∙ (ap (λ t. get_elem? (put_handle k p h entry).table t) same ∙ e) in
          let q_is : with_handle p h entry ≡ q = cc is in
          rw (sym q_is) (length-set p.process_data.handles h entry ∙ v.sized k.pid p here)
      | inr ne ↦ v.sized i q (sym (get_elem?-set_ne k.table (with_handle p h entry) ne) ∙ e)
    ];
  }

  -- `update_handle` on one of the 64 handles sets it and no other, and keeps the kernel valid.
  unfoldable pub Updates : Kernel R → ℕ → R → Type 0
  Updates k h file =
      (k1 : Kernel R) × (update_handle k h file ≡ ok k1)
      × (handle k1 h ≡ ok (some file))
      × ((j : ℕ) → j ≢ h → handle k1 j ≡ handle k j)
      × IsValid k1

  pub update_handle_lem : (k : Kernel R) (h : ℕ) (file : R) → IsValid k → h < 64 → Updates k h file
  unfolding update_handle Updates
  update_handle_lem k h file v hi =
      let (p, here) = get_elem?-some k.table k.pid v.running in
      let sized = v.sized k.pid p here in
      let bound : h < length p.process_data.handles = omega (arith, sized, hi) in
      let (old, entry) = get_elem?-some p.process_data.handles h bound in
      let there = put-running k p h (some file) v in
      (
        put_handle k p h (some file),
        rw (here, entry) refl,
        handle-running (put_handle k p h (some file)) (with_handle p h (some file)) h there
            ∙ ap unwrap (get_elem?-set_self p.process_data.handles h (some file) bound),
        λ j ne.
            handle-running (put_handle k p h (some file)) (with_handle p h (some file)) j there
            ∙ ap unwrap (get_elem?-set_ne p.process_data.handles (some file) (λ e. ne (sym e)))
            ∙ sym (handle-running k p j here),
        put_handle-IsValid k p h (some file) v here,
      )

  -- A handle that was just created, set to another file and deleted: the kernel is as it was.
  pub delete_handle-update_handle :
      (k k1 : Kernel R) (file file1 : R) (h : ℕ)
      → IsValid k
      → create_handle k file ≡ ok (good h, k1)
      → (k2 : Kernel R) × (update_handle k1 h file1 ≡ ok k2)
        × (handle k2 h ≡ ok (some file1))
        × (delete_handle k2 h ≡ ok k)
  unfolding update_handle delete_handle
  delete_handle-update_handle k k1 file file1 h v made =
      let (p, here, after, lo, hi, free) = created-good k k1 file h v made in
      let sized = v.sized k.pid p here in
      let bound : h < length p.process_data.handles = omega (arith, sized, hi) in
      let there = put-running k p h (some file) v in
      let there1 = put-running k p h (some file1) v in
      let taken = get_elem?-set_self p.process_data.handles h (some file) bound in
      let taken1 = get_elem?-set_self p.process_data.handles h (some file1) bound in
      let again : put_handle (put_handle k p h (some file)) (with_handle p h (some file)) h
            (some file1)
          ≡ put_handle k p h (some file1) =
        rw
          (
            set-set k.table k.pid (with_handle p h (some file))
                (with_handle (with_handle p h (some file)) h (some file1)),
            set-set p.process_data.handles h (some file) (some file1),
          )
          refl in
      (
        put_handle k p h (some file1),
        rw (sym after, there, taken) (ap ok again),
        handle-running (put_handle k p h (some file1)) (with_handle p h (some file1)) h there1
            ∙ ap unwrap taken1,
        rw (there1, taken1) (ap ok (put-put k p h (some file1) none here free)),
      )

  -- `create_handle` keeps a kernel valid.
  pub create_handle-IsValid :
      (k k1 : Kernel R) (file : R) (h : ℕ)
      → IsValid k
      → create_handle k file ≡ ok (good h, k1)
      → IsValid k1
  create_handle-IsValid k k1 file h v made =
      let (p, here, after, _, _, _) = created-good k k1 file h v made in
      subst IsValid after (put_handle-IsValid k p h (some file) v here)

  -- The handle that `create_handle` gives was empty, and is one of the 64.
  pub created-empty :
      (k k1 : Kernel R) (file : R) (h : ℕ)
      → IsValid k
      → create_handle k file ≡ ok (good h, k1)
      → (h < 64) × (handle k h ≡ ok none)
  created-empty k k1 file h v made =
      let (p, here, _, _, hi, free) = created-good k k1 file h v made in
      (hi, handle-running k p h here ∙ ap unwrap free)

  -- `delete_handle` on one of the 64 handles empties it and no other.
  pub delete_handle_lem :
      (k : Kernel R) (h : ℕ)
      → IsValid k
      → h < 64
      → (k1 : Kernel R) × (delete_handle k h ≡ ok k1)
        × (handle k1 h ≡ ok none)
        × ((j : ℕ) → j ≢ h → handle k1 j ≡ handle k j)
  unfolding delete_handle
  delete_handle_lem k h v hi =
      let (p, here) = get_elem?-some k.table k.pid v.running in
      let sized = v.sized k.pid p here in
      let bound : h < length p.process_data.handles = omega (arith, sized, hi) in
      let (old, entry) = get_elem?-some p.process_data.handles h bound in
      let there = put-running k p h none v in
      (
        put_handle k p h none,
        rw (here, entry) refl,
        handle-running (put_handle k p h none) (with_handle p h none) h there
            ∙ ap unwrap (get_elem?-set_self p.process_data.handles h none bound),
        λ j ne.
            handle-running (put_handle k p h none) (with_handle p h none) j there
            ∙ ap unwrap (get_elem?-set_ne p.process_data.handles none (λ e. ne (sym e)))
            ∙ sym (handle-running k p j here),
      )
