-- ===== src/Api.antt =====
-- src/api/fs.rs, the functions on whole files, on top of the system calls `open`, `info` and
-- `delete` of src/sys/syscall/service.rs and their wrappers in src/api/syscall.rs.
pub mod Calls
use moros.Prelude.{
  ℕ, zero, suc, ◌+◌, Bool, true, false, Option, none, some, List, [], ◌∷◌, ◌++◌, length, take,
  replicate, ltb, if◌then◌else◌,
}
use moros.Run.{Run, ok, panic, ◌>>=◌, Result, good, bad}
use moros.Process.{Kernel, env}
use moros.Fs.Entry.{FileType, FileInfo}
use moros.Fs.Resource.{canonicalize, flag_bit, OpenFlag, append, create}
use moros.Syscall
use moros.Syscall.{FileIo, Isize, nat, minus_one}

-- What `sys::fs` provides: opening, describing and deleting a path.
pub record FileSystem (R W : Type 0) : Type 0 where
  pub open_path : W → List ℕ → ℕ → Run (Option R × W)
  pub describe : W → List ℕ → Run (Option FileInfo)
  pub remove : W → List ℕ → Run (Result (Unit {0}) × W)

-- The table of processes, and what the resources share.
pub record System (R W : Type 0) : Type 0 where
  pub kernel : Kernel R
  pub world : W

-- A wrapper returns `None` for a number below 0.
abbrev pub at_least_zero : Isize → Option ℕ
at_least_zero (nat n) = some n
at_least_zero minus_one = none

abbrev pub home : List ℕ
home = b'H' ∷ b'O' ∷ b'M' ∷ b'E' ∷ []

abbrev is_device : FileType → Bool
is_device FileType.device = true
is_device _ = false

abbrev is_dir : FileType → Bool
is_dir FileType.dir = true
is_dir _ = false

module _ {R W : Type 0} (io : FileIo R W) (fs : FileSystem R W) where
  unfoldable pub open_call : System R W → List ℕ → ℕ → Run (Option ℕ × System R W)
  open_call s path flags = do
    dir ← env s.kernel home
    (res, w1) ← fs.open_path s.world (canonicalize dir path) flags
    (out, k1) ← Syscall.open_resource s.kernel res
    ok (at_least_zero out, record { kernel = k1; world = w1 })

  unfoldable pub info_call : System R W → List ℕ → Run (Option FileInfo)
  info_call s path = do dir ← env s.kernel home; fs.describe s.world (canonicalize dir path)

  -- `delete` does not make its path canonical.
  unfoldable pub delete : System R W → List ℕ → Run (Result (Unit {0}) × System R W)
  delete s path = do (res, w1) ← fs.remove s.world path; ok (res, record s { world = w1 })

  unfoldable pub read_call : System R W → ℕ → List ℕ → Run (Option ℕ × List ℕ × System R W)
  read_call s h buf = do
    (out, buf1, k1, w1) ← Syscall.read io s.world s.kernel h buf
    ok (at_least_zero out, buf1, record { kernel = k1; world = w1 })

  unfoldable pub write_call : System R W → ℕ → List ℕ → Run (Option ℕ × System R W)
  write_call s h buf = do
    (out, k1, w1) ← Syscall.write io s.world s.kernel h buf
    ok (at_least_zero out, record { kernel = k1; world = w1 })

  unfoldable pub close_call : System R W → ℕ → Run (System R W)
  close_call s h = do
    (k1, w1) ← Syscall.close io s.world s.kernel h
    ok (record { kernel = k1; world = w1 })

  unfoldable pub dup_call : System R W → ℕ → ℕ → Run (System R W)
  dup_call s old_handle new_handle = do
    (_, k1) ← Syscall.dup s.kernel old_handle new_handle
    ok (record s { kernel = k1 })

  unfoldable pub open_file : System R W → List ℕ → Run (Option ℕ × System R W)
  open_file s path = open_call s path 0

  unfoldable pub append_file : System R W → List ℕ → Run (Option ℕ × System R W)
  append_file s path = open_call s path (flag_bit append)

  unfoldable pub create_file : System R W → List ℕ → Run (Option ℕ × System R W)
  create_file s path = open_call s path (flag_bit create)

  unfoldable pub open_dir : System R W → List ℕ → Run (Option ℕ × System R W)
  open_dir s path = open_call s path (flag_bit OpenFlag.directory)

  -- The two bits are those of different flags, so that `|` adds them.
  unfoldable pub create_dir : System R W → List ℕ → Run (Option ℕ × System R W)
  create_dir s path = open_call s path (flag_bit create + flag_bit OpenFlag.directory)

  unfoldable pub open_device : System R W → List ℕ → Run (Option ℕ × System R W)
  open_device s path = open_call s path (flag_bit OpenFlag.device)

  unfoldable pub create_device : System R W → List ℕ → List ℕ → Run (Option ℕ × System R W)
  create_device s path buf = do
    (res, s1) ← open_call s path (flag_bit create + flag_bit OpenFlag.device)
    elim res [ none ↦ ok (none, s1) | some h ↦ do (_, s2) ← write_call s1 h buf; ok (some h, s2) ]

  -- What `read` and `read_to_bytes` do with a handle: it is closed only if the read succeeds.
  unfoldable pub read_handle : System R W → Option ℕ → List ℕ → Run (Result ℕ × List ℕ × System R W)
  read_handle s none buf = ok (bad, buf, s)
  read_handle s (some h) buf = do
    (res, buf1, s1) ← read_call s h buf
    elim res [
      | none ↦ ok (bad, buf1, s1)
      | some bytes ↦ do s2 ← close_call s1 h; ok (good bytes, buf1, s2)
    ]

  unfoldable pub read : System R W → List ℕ → List ℕ → Run (Result ℕ × List ℕ × System R W)
  unfolding read_handle
  read s path buf = do
    there ← info_call s path
    elim there [
      | none ↦ ok (bad, buf, s)
      | some i ↦ do
        (res, s1) ← if is_device i.kind then open_device s path else open_file s path
        read_handle s1 res buf
    ]

  -- The buffer has the size of the file, and is cut to the bytes that were read.
  unfoldable pub read_to_bytes : System R W → List ℕ → Run (Result (List ℕ) × System R W)
  unfolding read_handle
  read_to_bytes s path = do
    there ← info_call s path
    elim there [
      | none ↦ ok (bad, s)
      | some i ↦ do
        (res, s1) ←
            if is_device i.kind
            then open_device s path
            else if is_dir i.kind
            then open_dir s path
            else open_file s path
        (n, buf, s2) ← read_handle s1 res (replicate i.size 0)
        ok (elim n [ good bytes ↦ good (take bytes (buf ++ replicate (bytes) 0)) | bad ↦ bad ], s2)
    ]

  -- What `write` and `append` do with a handle.
  unfoldable pub write_handle : System R W → Option ℕ → List ℕ → Run (Result ℕ × System R W)
  write_handle s none buf = ok (bad, s)
  write_handle s (some h) buf = do
    (res, s1) ← write_call s h buf
    elim res [ none ↦ ok (bad, s1) | some bytes ↦ do s2 ← close_call s1 h; ok (good bytes, s2) ]

  unfoldable pub write : System R W → List ℕ → List ℕ → Run (Result ℕ × System R W)
  unfolding write_handle
  write s path buf = do (res, s1) ← create_file s path; write_handle s1 res buf

  -- A device is opened as one; a file that is there is opened in the given way, and else created.
  abbrev open_or_create :
      System R W
      → List ℕ
      → (System R W → List ℕ → Run (Option ℕ × System R W))
      → Run (Option ℕ × System R W)
  open_or_create s path way = do
    there ← info_call s path
    elim there [
      | some i ↦ if is_device i.kind then open_device s path else way s path
      | none ↦ create_file s path
    ]

  -- `append`
  unfoldable pub append_to : System R W → List ℕ → List ℕ → Run (Result ℕ × System R W)
  unfolding write_handle
  append_to s path buf = do (res, s1) ← open_or_create s path append_file; write_handle s1 res buf

  unfoldable pub reopen : System R W → List ℕ → ℕ → Bool → Run (Result ℕ × System R W)
  reopen s path h appends = do
    (res, s1) ← open_or_create s path (if appends then append_file else open_file)
    elim res [
      | none ↦ ok (bad, s1)
      | some old_handle ↦ do
        s2 ← dup_call s1 old_handle h
        s3 ← close_call s2 old_handle
        ok (good h, s3)
    ]
