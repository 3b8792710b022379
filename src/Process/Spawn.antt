-- ===== src/Process/Spawn.antt =====
-- src/sys/process.rs: the processes that run, by spawning and exiting.
use moros.Prelude.{
  ℕ, ◌+◌, ◌-◌, ◌<◌, ◌≤◌, ◌≡◌, ◌≢◌, refl, sym, ◌∙◌, ap, inl, inr, ◌⊎◌, arith, true, false,
  Bool-cases, some, List, length, set, length-set, get_elem?, get_elem?-set_self, get_elem?-set_ne,
  dec_eq, ltb, leb, ltb→lt,
}
use moros.Run.{ok, panic, Result, good, bad}
use moros.Process.{Process, Kernel, create, spawn, exit, max_proc_size, known_format}
use moros.Process.Handles.{get_elem?-some}

module _ {R : Type 0} where
  -- The process that runs is the last of the stack, each process is under the number of its place
  -- and its parent is the one below.
  pub record IsStack (k : Kernel R) : Type 0 where
    pub depth : k.max_pid ≡ k.pid + 1
    pub sized : length k.table ≡ 4
    pub bounded : k.pid < 4
    pub ids :
        (i : ℕ) (p : Process R)
        → i ≤ k.pid
        → get_elem? k.table i ≡ some p
        → (p.id ≡ i) × (p.parent_id ≡ i - 1)

  -- What a kernel becomes by spawning and exiting; the first process does not exit.
  pub data Reaches (k : Kernel R) : Kernel R → Type 0 where
    start : Reaches k k
    spawned :
        {k1 k2 : Kernel R}
        → Reaches k k1
        → (bin : List ℕ) (res : Result ℕ) → spawn k1 bin ≡ ok (res, k2)
        → Reaches k k2
    exited : {k1 k2 : Kernel R} → Reaches k k1 → 0 < k1.pid → exit k1 ≡ ok k2 → Reaches k k2

  -- The process that `spawn` makes of the one that runs, and the kernel with it running.
  abbrev pub child_of : Kernel R → Process R → Process R
  child_of k p = record {
    id = k.max_pid;
    parent_id = p.id;
    code_addr = k.next_code_addr;
    stack_addr = k.next_code_addr + max_proc_size - 4096;
    process_data = p.process_data;
  }

  abbrev pub loaded : Kernel R → Kernel R
  loaded k = record k { next_code_addr = k.next_code_addr + max_proc_size }

  abbrev pub running : Kernel R → Process R → Kernel R
  running k p = record {
    pid = k.max_pid;
    max_pid = k.max_pid + 1;
    next_code_addr = k.next_code_addr + max_proc_size;
    table = set k.table k.max_pid (child_of k p);
  }

  -- The results of `spawn`, on a stack.
  pub Spawns : Kernel R → List ℕ → Process R → Type 0
  Spawns k bin p =
      ((4 ≤ k.max_pid) × (spawn k bin ≡ ok (bad, k)))
      ⊎ ((k.max_pid < 4) × (length bin < 4) × (spawn k bin ≡ panic))
      ⊎ ((k.max_pid < 4) × (known_format bin ≡ false) × (spawn k bin ≡ ok (bad, loaded k)))
      ⊎ ((k.max_pid < 4)
          × (known_format bin ≡ true)
          × (spawn k bin ≡ ok (good k.max_pid, running k p)))

  -- On a stack of processes `spawn` fails if there are four; else it panics on a binary below four
  -- bytes, fails on a format it does not know, and otherwise the new process runs, with the next
  -- number and the data of its parent.
  pub spawn_lem :
      (k : Kernel R) (bin : List ℕ)
      → IsStack k
      → (p : Process R) × (get_elem? k.table k.pid ≡ some p) × Spawns k bin p
  unfolding Spawns spawn create
  spawn_lem k bin v =
      let (p, here) =
        get_elem?-some k.table k.pid
          (let s = v.sized in let b = v.bounded in omega (arith, s, b)) in
      (
        p,
        here,
        elim (Bool-cases (leb 4 k.max_pid)) [
          | inl full ↦ inl (ground arith, rw full refl)
          | inr room ↦ elim (Bool-cases (ltb (length bin) 4)) [
            | inl short ↦ inr (inl (ground arith, ltb→lt _ _ short, rw (room, short) refl))
            | inr long ↦ elim (Bool-cases (known_format bin)) [
              | inr unknown ↦ inr (inr (inl (ground arith, unknown, rw (room, long, unknown) refl)))
              | inl known ↦
                  let sized = v.sized in
                  let lt : k.max_pid < length k.table = ground (arith, sized) in
                  let (q, place) = get_elem?-some k.table k.max_pid lt in
                  let stored = get_elem?-set_self k.table k.max_pid (child_of k p) lt in
                  inr (
                    inr
                      (inr (ground arith, known, rw (room, long, known, here, place, stored) refl)))
            ]
          ]
        ],
      )

  running-IsStack :
      (k : Kernel R) (p : Process R)
      → IsStack k
      → get_elem? k.table k.pid ≡ some p
      → k.max_pid < 4
      → IsStack (running k p)
  running-IsStack k p v here room = record {
    depth = refl;
    sized = length-set k.table k.max_pid (child_of k p) ∙ v.sized;
    bounded = room;
    ids = λ i q le e. elim (dec_eq k.max_pid i) [
      | inl same ↦
          let stored =
            get_elem?-set_self k.table k.max_pid (child_of k p)
              (let s = v.sized in omega (arith, s, room)) in
          let is : some (child_of k p) ≡ some q =
            sym stored ∙ (ap (λ t. get_elem? (running k p).table t) same ∙ e) in
          let q_is : child_of k p ≡ q = cc is in
          let p_id = (v.ids k.pid p (omega arith) here).0 in
          let depth = v.depth in rw (sym q_is) (same, omega (arith, p_id, depth, same))
      | inr ne ↦
          let old : get_elem? k.table i ≡ some q =
            sym (get_elem?-set_ne k.table (child_of k p) ne) ∙ e in
          let depth = v.depth in v.ids i q (omega (arith, depth, ne, le)) old
    ];
  }

  spawn-IsStack :
      (k k1 : Kernel R) (bin : List ℕ) (res : Result ℕ)
      → IsStack k
      → spawn k bin ≡ ok (res, k1)
      → IsStack k1
  unfolding Spawns
  spawn-IsStack k k1 bin res v e = let (p, here, cases) = spawn_lem k bin v in pick p here cases
    where
      pick : (p : Process R) → get_elem? k.table k.pid ≡ some p → Spawns k bin p → IsStack k1
      pick p here (inl (_, r)) = let t = sym r ∙ e in let same : k ≡ k1 = cc t in rw (sym same) v
      pick p here (inr (inl (_, _, r))) = let t = sym r ∙ e in cc t
      pick p here (inr (inr (inl (_, _, r)))) =
          let t = sym r ∙ e in
          let same : loaded k ≡ k1 = cc t in
          rw (sym same)
            (record { depth = v.depth; sized = v.sized; bounded = v.bounded; ids = v.ids })
      pick p here (inr (inr (inr (room, _, r)))) =
          let t = sym r ∙ e in
          let same : running k p ≡ k1 = cc t in rw (sym same) (running-IsStack k p v here room)

  -- `exit` on a stack: the process below runs, and the number of the one that left is free again.
  pub exit_lem :
      (k : Kernel R) → IsStack k → exit k ≡ ok (record k { pid = k.pid - 1; max_pid = k.pid })
  unfolding exit
  exit_lem k v =
      let (p, here) =
        get_elem?-some k.table k.pid
          (let s = v.sized in let b = v.bounded in omega (arith, s, b)) in
      let parent = (v.ids k.pid p (omega arith) here).1 in
      let depth = v.depth in
      let fewer : k.max_pid - 1 ≡ k.pid = omega (arith, depth) in rw (here, fewer) (rw parent refl)

  exit-IsStack : (k k1 : Kernel R) → IsStack k → 0 < k.pid → exit k ≡ ok k1 → IsStack k1
  exit-IsStack k k1 v pos e =
      let t = sym (exit_lem k v) ∙ e in
      let same : record k { pid = k.pid - 1; max_pid = k.pid } ≡ k1 = cc t in
      let b = v.bounded in
      rw (sym same) (record {
        depth = omega arith;
        sized = v.sized;
        bounded = omega (arith, b);
        ids = λ i p le here. v.ids i p (omega arith) here;
      })

  -- However processes are spawned, with whatever binaries and results, and however those but the
  -- first exit, from a kernel whose processes are a stack: those that run are a stack of at most
  -- four, each under its own number with the one below as parent.
  pub reaches-IsStack : (k k1 : Kernel R) → IsStack k → Reaches k k1 → IsStack k1
  reaches-IsStack k k1 v start = v
  reaches-IsStack k k1 v (spawned {k1 = k0} before bin res e) =
      spawn-IsStack k0 k1 bin res (reaches-IsStack k k0 v before) e
  reaches-IsStack k k1 v (exited {k1 = k0} before pos e) =
      exit-IsStack k0 k1 (reaches-IsStack k k0 v before) pos e

  -- On a stack of processes, when a process that was spawned exits, its parent runs again, the next
  -- number is as before, and so are all places of the table but that of the child.
  pub exit-spawn :
      (k k1 : Kernel R) (bin : List ℕ) (h : ℕ)
      → IsStack k
      → spawn k bin ≡ ok (good h, k1)
      → (k2 : Kernel R) × (exit k1 ≡ ok k2)
        × (k2.pid ≡ k.pid)
        × (k2.max_pid ≡ k.max_pid)
        × ((i : ℕ) → i ≢ h → get_elem? k2.table i ≡ get_elem? k.table i)
  unfolding Spawns
  exit-spawn k k1 bin h v e = let (p, here, cases) = spawn_lem k bin v in pick p here cases
    where
      after : Type 0
      after =
          (k2 : Kernel R) × (exit k1 ≡ ok k2)
          × (k2.pid ≡ k.pid)
          × (k2.max_pid ≡ k.max_pid)
          × ((i : ℕ) → i ≢ h → get_elem? k2.table i ≡ get_elem? k.table i)

      pick : (p : Process R) → get_elem? k.table k.pid ≡ some p → Spawns k bin p → after
      pick p here (inl (_, r)) = let t = sym r ∙ e in cc t
      pick p here (inr (inl (_, _, r))) = let t = sym r ∙ e in cc t
      pick p here (inr (inr (inl (_, _, r)))) = let t = sym r ∙ e in cc t
      pick p here (inr (inr (inr (room, _, r)))) =
          let t = sym r ∙ e in
          let same : running k p ≡ k1 = cc t in
          let same_h : k.max_pid ≡ h = cc t in
          let depth = v.depth in
          let left = exit_lem (running k p) (running-IsStack k p v here room) in
          (
            record (running k p) { pid = k.max_pid - 1; max_pid = k.max_pid },
            rw (sym same) left,
            omega (arith, depth),
            refl,
            λ i ne. get_elem?-set_ne k.table (child_of k p) (λ eq. ne (sym eq ∙ same_h)),
          )
