-- ===== src/Syscall.antt =====
-- src/sys/syscall/service.rs: the system calls on handles, on top of the process table and of the
-- resources (`FileIO` of src/api/fs.rs). A call returns -1 on a failure. `W` is the state that the
-- resources share: the disk, the console and the devices.
pub mod Laws
use mathlib.Core.Option
use moros.Prelude.{
  ℕ, zero, suc, ◌+◌, ◌<◌, ◌≡◌, Bool, true, false, Option, none, some, List, [], ◌∷◌, if◌then◌else◌,
}
use moros.Run.{Run, ok, panic, ◌>>=◌, Result, good, bad}
use moros.Process.{Kernel, create_handle, update_handle, delete_handle, handle}

-- `IO`
pub data Io : Type 0 where
  reading writing : Io

-- The trait `FileIO`: each operation may change the resource and what the resources share. A read
-- returns the number of bytes, and the buffer also when it fails.
pub record FileIo (R W : Type 0) : Type 0 where
  pub read : W → R → List ℕ → Run (Result ℕ × List ℕ × R × W)
  pub write : W → R → List ℕ → Run (Result ℕ × R × W)
  pub close : W → R → Run (R × W)
  pub poll : W → R → Io → Run (Bool × W)

-- An `isize`: a count, a handle or an index, or -1.
pub data Isize : Type 0 where
  nat : ℕ → Isize
  minus_one : Isize

module _ {R : Type 0} where
  -- `open`, from what `sys::fs::open` returns for the path.
  unfoldable pub open_resource : Kernel R → Option R → Run (Isize × Kernel R)
  open_resource k none = ok (minus_one, k)
  open_resource k (some resource) = do
    (res, k1) ← create_handle k resource
    ok (elim res [ good h ↦ nat h | bad ↦ minus_one ], k1)

  unfoldable pub dup : Kernel R → ℕ → ℕ → Run (Isize × Kernel R)
  dup k old_handle new_handle = do
    file ← handle k old_handle
    elim file [
      | some f ↦ do k1 ← update_handle k new_handle f; ok (nat new_handle, k1)
      | none ↦ ok (minus_one, k)
    ]

module _ {R W : Type 0} (io : FileIo R W) where
  -- The resource is stored again only if the operation succeeds.
  unfoldable pub read : W → Kernel R → ℕ → List ℕ → Run (Isize × List ℕ × Kernel R × W)
  read w k h buf = do
    file ← handle k h
    elim file [
      | none ↦ ok (minus_one, buf, k, w)
      | some f ↦ do
        (res, buf1, f1, w1) ← io.read w f buf
        elim res [
          | good bytes ↦ do k1 ← update_handle k h f1; ok (nat bytes, buf1, k1, w1)
          | bad ↦ ok (minus_one, buf1, k, w1)
        ]
    ]

  unfoldable pub write : W → Kernel R → ℕ → List ℕ → Run (Isize × Kernel R × W)
  write w k h buf = do
    file ← handle k h
    elim file [
      | none ↦ ok (minus_one, k, w)
      | some f ↦ do
        (res, f1, w1) ← io.write w f buf
        elim res [
          | good bytes ↦ do k1 ← update_handle k h f1; ok (nat bytes, k1, w1)
          | bad ↦ ok (minus_one, k, w1)
        ]
    ]

  unfoldable pub close : W → Kernel R → ℕ → Run (Kernel R × W)
  close w k h = do
    file ← handle k h
    elim file [
      | none ↦ ok (k, w)
      | some f ↦ do (_, w1) ← io.close w f; k1 ← delete_handle k h; ok (k1, w1)
    ]

  -- The index of the first handle with the event.
  unfoldable pub poll_from : W → Kernel R → ℕ → List (ℕ × Io) → Run (Isize × W)
  poll_from w k i [] = ok (minus_one, w)
  poll_from w k i ((h, event) ∷ rest) = do
    file ← handle k h
    elim file [
      | none ↦ poll_from w k (i + 1) rest
      | some f ↦ do
        (there, w1) ← io.poll w f event
        let later = poll_from w1 k (i + 1) rest
        if there then ok (nat i, w1) else later
    ]

  unfoldable pub poll : W → Kernel R → List (ℕ × Io) → Run (Isize × W)
  unfolding poll_from
  poll w k events = poll_from w k 0 events
