-- ===== src/Process.antt =====
-- src/sys/process.rs: the table of processes, with the environment, the directory, the user and
-- the handles of each. `R` is the type of the resources that a handle stands for. Memory, registers
-- and the loading of a binary are left out.
pub mod Handles
pub mod Updates
pub mod Spawn
use mathlib.Core.Option
use moros.Prelude.{
  ℕ, zero, suc, ◌+◌, ◌-◌, ◌<◌, ◌≡◌, Bool, true, false, Option, none, some, List, [], ◌∷◌, ◌++◌,
  replicate, length, take, set, get_elem?, ltb, leb, ◌==◌, ◌||◌, if◌then◌else◌,
}
use moros.Run.{Run, ok, panic, ◌>>=◌, unwrap, Result, good, bad}
use moros.Path.{same_bytes}

abbrev pub max_handles : ℕ
max_handles = 64

abbrev pub max_procs : ℕ
max_procs = 4

abbrev pub max_proc_size : ℕ
max_proc_size = 10485760

abbrev pub elf_magic : List ℕ
elf_magic = 127 ∷ b'E' ∷ b'L' ∷ b'F' ∷ []

abbrev pub bin_magic : List ℕ
bin_magic = 127 ∷ b'B' ∷ b'I' ∷ b'N' ∷ []

abbrev pub known_format : List ℕ → Bool
known_format bin = same_bytes (take 4 bin) elf_magic || same_bytes (take 4 bin) bin_magic

module _ (R : Type 0) where
  pub record ProcessData : Type 0 where
    pub env : List ℕ → Option (List ℕ)
    pub dir : List ℕ
    pub user : Option (List ℕ)
    pub handles : List (Option R)

  pub record Process : Type 0 where
    pub id : ℕ
    pub parent_id : ℕ
    pub code_addr : ℕ
    pub stack_addr : ℕ
    pub process_data : ProcessData

  -- `PID`, `MAX_PID`, `CODE_ADDR` and `PROCESS_TABLE`.
  pub record Kernel : Type 0 where
    pub pid : ℕ
    pub max_pid : ℕ
    pub next_code_addr : ℕ
    pub table : List Process

module _ {R : Type 0} where
  -- Four handles are taken: three for the console and one for the null device.
  unfoldable pub new_data : R → R → List ℕ → Option (List ℕ) → ProcessData R
  new_data console null dir user = record {
    env = λ key. none;
    dir = dir;
    user = user;
    handles = some console ∷ some console ∷ some console ∷ some null ∷ replicate 60 none;
  }

  -- `&table[id()]`
  abbrev pub current : Kernel R → Run (Process R)
  current k = unwrap (get_elem? k.table k.pid)

  abbrev pub with_data : Kernel R → Process R → ProcessData R → Kernel R
  with_data k p new = record k { table = set k.table k.pid (record p { process_data = new }) }

  unfoldable pub env : Kernel R → List ℕ → Run (Option (List ℕ))
  env k key = do p ← current k; ok (p.process_data.env key)

  unfoldable pub set_env : Kernel R → List ℕ → List ℕ → Run (Kernel R)
  set_env k key val = do
    p ← current k
    let old = p.process_data
    ok (
        with_data k p
          (record old { env = λ name. if same_bytes name key then some val else old.env name }))

  unfoldable pub dir : Kernel R → Run (List ℕ)
  dir k = do p ← current k; ok p.process_data.dir

  unfoldable pub set_dir : Kernel R → List ℕ → Run (Kernel R)
  set_dir k path = do
    p ← current k
    let old = p.process_data
    ok (with_data k p (record old { dir = path }))

  unfoldable pub user : Kernel R → Run (Option (List ℕ))
  user k = do p ← current k; ok p.process_data.user

  unfoldable pub set_user : Kernel R → List ℕ → Run (Kernel R)
  set_user k name = do
    p ← current k
    let old = p.process_data
    ok (with_data k p (record old { user = some name }))

  -- The handles `h`, `h + 1`, ... of which the first empty one is taken.
  unfoldable pub free_handle : ℕ → ℕ → List (Option R) → Run (Option ℕ)
  free_handle zero h hs = ok none
  free_handle (suc left) h hs =
      let rest = free_handle left (suc h) hs in
      elim (get_elem? hs h) [ none ↦ panic | some none ↦ ok (some h) | some (some _) ↦ rest ]

  abbrev pub put_handle : Kernel R → Process R → ℕ → Option R → Kernel R
  put_handle k p h entry =
      let old = p.process_data in with_data k p (record old { handles = set old.handles h entry })

  unfoldable pub create_handle : Kernel R → R → Run (Result ℕ × Kernel R)
  create_handle k file = do
    p ← current k
    slot ← free_handle (max_handles - 4) 4 p.process_data.handles
    ok (elim slot [ some h ↦ (good h, put_handle k p h (some file)) | none ↦ (bad, k) ])

  -- An index behind the last handle panics.
  abbrev pub slot_of : Kernel R → ℕ → Run (Process R × Option R)
  slot_of k h = do p ← current k; entry ← unwrap (get_elem? p.process_data.handles h); ok (p, entry)

  unfoldable pub update_handle : Kernel R → ℕ → R → Run (Kernel R)
  update_handle k h file = do (p, _) ← slot_of k h; ok (put_handle k p h (some file))

  unfoldable pub delete_handle : Kernel R → ℕ → Run (Kernel R)
  delete_handle k h = do (p, _) ← slot_of k h; ok (put_handle k p h none)

  unfoldable pub handle : Kernel R → ℕ → Run (Option R)
  handle k h = do (_, entry) ← slot_of k h; ok entry

  -- `Process::create`: the binary is loaded at the next code address, and the new process inherits
  -- the data of the one that runs. `bin[0..4]` panics on a binary that is shorter.
  unfoldable pub create : Kernel R → List ℕ → Run (Result ℕ × Kernel R)
  create k bin =
      if leb max_procs k.max_pid
      then ok (bad, k)
      else (let k1 = record k { next_code_addr = k.next_code_addr + max_proc_size } in
          if ltb (length bin) 4
          then panic
          else if known_format bin
          then (do
            parent ← current k1
            _ ← unwrap (get_elem? k1.table k1.max_pid)
            let proc : Process R = record {
              id = k1.max_pid;
              parent_id = parent.id;
              code_addr = k.next_code_addr;
              stack_addr = k.next_code_addr + max_proc_size - 4096;
              process_data = parent.process_data;
            }
            ok (
              good k1.max_pid,
              record k1 { max_pid = k1.max_pid + 1; table = set k1.table k1.max_pid proc },
            ))
          else ok (bad, k1))

  -- `set_id(self.id)` of `exec`: the new process runs.
  unfoldable pub spawn : Kernel R → List ℕ → Run (Result ℕ × Kernel R)
  unfolding create
  spawn k bin = do
    (res, k1) ← create k bin
    elim res [
      | bad ↦ ok (bad, k1)
      | good h ↦ do proc ← unwrap (get_elem? k1.table h); ok (good h, record k1 { pid = proc.id })
    ]

  -- `exit`: the parent runs again.
  unfoldable pub exit : Kernel R → Run (Kernel R)
  exit k = do p ← current k; ok (record k { pid = p.parent_id; max_pid = k.max_pid - 1 })
