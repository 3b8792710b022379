-- ===== src/Tests/Processes.antt =====
-- A kernel of four processes, whose resources are numbers.
use moros.Process.{env}
use moros.Fs.Entry.{FileType}
use moros.Api
use moros.Api.{FileSystem, System, home}
use moros.Api.Calls.{write-handles}
use moros.Prelude.{
  ℕ, zero, suc, ◌+◌, ◌-◌, ◌≤◌, ◌≡◌, ◌≢◌, refl, sym, true, none, some, [], ◌∷◌, arith, length,
  get_elem?,
}
use moros.Run.{bad, ok, good}
use moros.Process.{
  Process, Kernel, new_data, free_handle, create_handle, handle, create, spawn, exit, put_handle,
  bin_magic,
}
use moros.Process.Handles.{IsValid, Creates, create_handle_lem}
use moros.Process.Spawn.{IsStack, start, spawned, reaches-IsStack, exit-spawn}
use moros.Syscall.{FileIo, Isize, nat, open_resource, read, close}
use moros.Syscall.Laws.{close-open, handle-read}

abbrev proc : ℕ → Process ℕ
proc i = record {
  id = i;
  parent_id = 0;
  code_addr = 0;
  stack_addr = 0;
  process_data = new_data 1 0 (b'/' ∷ []) none;
}

abbrev kernel : Kernel ℕ
kernel = record {
  pid = 0;
  max_pid = 1;
  next_code_addr = 8388608;
  table = proc 0 ∷ proc 0 ∷ proc 0 ∷ proc 0 ∷ [];
}

kernel-IsValid : IsValid kernel
unfolding new_data
kernel-IsValid = record { running = omega arith; sized = λ i p e. sized i p e }
  where
    sized :
        (i : ℕ) (p : Process ℕ)
        → get_elem? kernel.table i ≡ some p
        → length p.process_data.handles ≡ 64
    sized zero p e = let same : proc 0 ≡ p = cc e in rw (sym same) refl
    sized (suc zero) p e = let same : proc 0 ≡ p = cc e in rw (sym same) refl
    sized (suc (suc zero)) p e = let same : proc 0 ≡ p = cc e in rw (sym same) refl
    sized (suc (suc (suc zero))) p e = let same : proc 0 ≡ p = cc e in rw (sym same) refl
    sized (suc (suc (suc (suc i)))) p e = cc e

-- The kernel after a file was opened.
abbrev opened : Kernel ℕ
opened = put_handle kernel (proc 0) 4 (some 7)

first_handle : create_handle kernel 7 ≡ ok (good 4, opened)
unfolding create_handle free_handle new_data
first_handle = refl

first_open : open_resource kernel (some 7) ≡ ok (nat 4, opened)
unfolding open_resource
first_open = rw first_handle refl

create_handle_lem_example :
    (p : Process ℕ) × (get_elem? kernel.table 0 ≡ some p) × Creates kernel 7 p
create_handle_lem_example = create_handle_lem kernel 7 kernel-IsValid

console_handle : handle kernel 1 ≡ ok (some 1)
unfolding handle new_data
console_handle = refl

-- A counter: each read returns one byte, and is counted in the resource.
abbrev counter : FileIo ℕ ℕ
counter = record {
  read = λ w f buf. ok (good 1, buf, f + 1, w);
  write = λ w f buf. ok (good (length buf), f, w);
  close = λ w f. ok (f, w + 1);
  poll = λ w f event. ok (true, w);
}

close-open_example : close counter 0 opened 4 ≡ ok (kernel, 1)
close-open_example = close-open counter kernel opened 0 1 7 7 4 kernel-IsValid first_open refl

handle-read_example :
    (out : Isize) × (k1 : Kernel ℕ) × (read counter 0 kernel 1 (0 ∷ []) ≡ ok (out, 0 ∷ [], k1, 0))
    × (handle k1 1 ≡ ok (some 2))
    × ((j : ℕ) → j ≢ 1 → handle k1 j ≡ handle kernel j)
handle-read_example =
    handle-read counter kernel 0 0 1 1 2 (0 ∷ []) (0 ∷ []) (good 1) kernel-IsValid (omega arith)
      console_handle refl

kernel-IsStack : IsStack kernel
kernel-IsStack = record {
  depth = refl;
  sized = refl;
  bounded = omega arith;
  ids = λ i p le e. first i p le e;
}
  where
    first :
        (i : ℕ) (p : Process ℕ)
        → i ≤ 0
        → get_elem? kernel.table i ≡ some p
        → (p.id ≡ i) × (p.parent_id ≡ i - 1)
    first zero p le e = let same : proc 0 ≡ p = cc e in rw (sym same) (refl, refl)
    first (suc i) p le e = absurd (omega arith)

-- The kernel after a flat binary was spawned.
abbrev child_kernel : Kernel ℕ
child_kernel = record {
  pid = 1;
  max_pid = 2;
  next_code_addr = 18874368;
  table =
      proc 0
      ∷ record {
        id = 1;
        parent_id = 0;
        code_addr = 8388608;
        stack_addr = 18870272;
        process_data = new_data 1 0 (b'/' ∷ []) none;
      }
      ∷ proc 0
      ∷ proc 0
      ∷ [];
}

first_spawn : spawn kernel bin_magic ≡ ok (good 1, child_kernel)
unfolding spawn create
first_spawn = refl

reaches-IsStack_example : IsStack child_kernel
reaches-IsStack_example =
    reaches-IsStack kernel child_kernel kernel-IsStack
      (spawned start bin_magic (good 1) first_spawn)

exit-spawn_example :
    (k2 : Kernel ℕ) × (exit child_kernel ≡ ok k2)
    × (k2.pid ≡ 0)
    × (k2.max_pid ≡ 1)
    × ((i : ℕ) → i ≢ 1 → get_elem? k2.table i ≡ get_elem? kernel.table i)
exit-spawn_example = exit-spawn kernel child_kernel bin_magic 1 kernel-IsStack first_spawn

-- A file system in which every path is the file 7.
abbrev one_path : FileSystem ℕ ℕ
one_path = record {
  open_path = λ w path flags. ok (some 7, w);
  describe = λ w path. ok (some (record { kind = FileType.file; size = 5; time = 7; name = [] }));
  remove = λ w path. ok (bad, w);
}

abbrev system : System ℕ ℕ
system = record { kernel = kernel; world = 0 }

no_home : env kernel home ≡ ok none
unfolding env new_data
no_home = refl

write-handles_example :
    Api.write counter one_path system (b'a' ∷ []) (1 ∷ 2 ∷ [])
    ≡ ok (good 2, record system { world = 1 })
write-handles_example =
    write-handles counter one_path system (b'a' ∷ []) (1 ∷ 2 ∷ []) none 7 7 7 0 0 1 opened 4 2
      kernel-IsValid no_home refl first_handle refl refl
