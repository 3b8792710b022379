-- ===== src/Syscall/Laws.antt =====
-- src/sys/syscall/service.rs: what the calls on handles do, whatever the resources are.
use moros.Prelude.{ℕ, ◌<◌, ◌≤◌, ◌≡◌, ◌≢◌, refl, sym, ◌∙◌, inl, inr, Option, none, some, List}
use moros.Run.{ok, panic, Result, good, bad}
use moros.Process.{Kernel, create_handle, handle}
use moros.Process.Handles.{
  IsValid, create_handle_lem, Creates, handle-create_handle, delete_handle-create_handle,
  handle_panics,
}
use moros.Process.Updates.{Updates, update_handle_lem}
use moros.Syscall.{FileIo, Isize, nat, minus_one, open_resource, dup, read, write, close}

module _ {R : Type 0} where
  create_handle-returns :
      (k : Kernel R) (file : R)
      → IsValid k
      → (c : Result ℕ × Kernel R) × (create_handle k file ≡ ok c)
  unfolding Creates
  create_handle-returns k file v =
      let (p, here, created) = create_handle_lem k file v in
      elim created [ inl created_at ↦ (_, created_at.1) | inr (made, _) ↦ (_, made) ]

  open-good :
      (k k1 : Kernel R) (file : R) (h : ℕ)
      → IsValid k
      → open_resource k (some file) ≡ ok (nat h, k1)
      → create_handle k file ≡ ok (good h, k1)
  unfolding open_resource
  open-good k k1 file h v e = let (c, made) = create_handle-returns k file v in pick c.0 c.1 made
    where
      pick :
          (res : Result ℕ) (k2 : Kernel R)
          → create_handle k file ≡ ok (res, k2)
          → create_handle k file ≡ ok (good h, k1)
      pick (good h1) k2 made =
          let t : ok (nat h, k1) ≡ ok (nat h1, k2) = sym e ∙ rw made refl in
          let same : good h1 ≡ good h = cc t in
          let same_k : k2 ≡ k1 = cc t in made ∙ rw (same, same_k) refl
      pick bad k2 made = let t : ok (nat h, k1) ≡ ok (minus_one, k2) = sym e ∙ rw made refl in cc t

  -- In a valid kernel `dup` to a handle below 64 makes it stand for a copy of the resource of the
  -- old handle, and changes no other; if the old handle has no resource, it changes nothing.
  pub dup_lem :
      (k : Kernel R) (old_handle new_handle : ℕ) (entry : Option R)
      → IsValid k
      → new_handle < 64
      → handle k old_handle ≡ ok entry
      → (out : Isize) × (k1 : Kernel R) × (dup k old_handle new_handle ≡ ok (out, k1))
        × (handle k1 new_handle
            ≡ elim entry [ none ↦ handle k new_handle | some file ↦ ok (some file) ])
        × ((j : ℕ) → j ≢ new_handle → handle k1 j ≡ handle k j)
  unfolding dup Updates
  dup_lem k old_handle new_handle none v hi there =
      (minus_one, k, rw there refl, refl, λ j ne. refl)
  dup_lem k old_handle new_handle (some file) v hi there =
      let (k1, updated, here, others, _) = update_handle_lem k new_handle file v hi in
      (nat new_handle, k1, rw (there, updated) refl, here, others)

module _ {R W : Type 0} (io : FileIo R W) where
  -- In a valid kernel, opening a resource and closing the handle that was returned gives back the
  -- table of processes as it was.
  pub close-open :
      (k k1 : Kernel R) (w w1 : W) (file file1 : R) (h : ℕ)
      → IsValid k
      → open_resource k (some file) ≡ ok (nat h, k1)
      → io.close w file ≡ ok (file1, w1)
      → close io w k1 h ≡ ok (k, w1)
  unfolding close
  close-open k k1 w w1 file file1 h v e closed =
      let made = open-good k k1 file h v e in
      rw
        (
          (handle-create_handle k k1 file h v made).0,
          closed,
          delete_handle-create_handle k k1 file h v made,
        )
        refl

  -- In a valid kernel a read on a handle in use changes that handle alone, to what the operation
  -- makes of the resource; if the operation fails, no handle is changed.
  pub handle-read :
      (k : Kernel R) (w w1 : W) (h : ℕ) (file file1 : R) (buf buf1 : List ℕ) (res : Result ℕ)
      → IsValid k
      → h < 64
      → handle k h ≡ ok (some file)
      → io.read w file buf ≡ ok (res, buf1, file1, w1)
      → (out : Isize) × (k1 : Kernel R) × (read io w k h buf ≡ ok (out, buf1, k1, w1))
        × (handle k1 h ≡ ok (some (elim res [ good _ ↦ file1 | bad ↦ file ])))
        × ((j : ℕ) → j ≢ h → handle k1 j ≡ handle k j)
  unfolding read Updates
  handle-read k w w1 h file file1 buf buf1 (good bytes) v hi there done =
      let (k1, updated, here, others, _) = update_handle_lem k h file1 v hi in
      (nat bytes, k1, rw (there, done, updated) refl, here, others)
  handle-read k w w1 h file file1 buf buf1 bad v hi there failed =
      (minus_one, k, rw (there, failed) refl, there, λ j ne. refl)

  -- In a valid kernel `read`, `write` and `close` on a handle from 64 on panic.
  pub calls_panic :
      (k : Kernel R) (w : W) (h : ℕ) (buf : List ℕ)
      → IsValid k
      → 64 ≤ h
      → (read io w k h buf ≡ panic) × (write io w k h buf ≡ panic) × (close io w k h ≡ panic)
  unfolding read write close
  calls_panic k w h buf v out = let e = handle_panics k h v out in rw e (refl, refl, refl)
