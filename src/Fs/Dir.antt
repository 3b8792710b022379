-- ===== src/Fs/Dir.antt =====
-- src/sys/fs/dir.rs: directories. Each loop over the entries takes `rounds`, the number of entries
-- and blocks that it may visit; `time` is the clock, and `cwd` the directory of the process.
use moros.Prelude.{
  ℕ, zero, suc, ◌+◌, ◌-◌, ◌%◌, Bool, ◌&&◌, not, Option, none, some, List, [], ◌∷◌, ◌++◌, length,
  overwrite, ltb, leb, if◌then◌else◌,
}
use moros.Word.{u32_mod, to_be_bytes}
use moros.Run.{Run, ok, stuck, ◌>>=◌}
use moros.Path.{same_bytes}
use moros.Fs.Block
use moros.Fs.Block.{Disk, Block}
use moros.Fs.Linked
use moros.Fs.SuperBlock
use moros.Fs.Entry.{FileType, kind_byte, Dir, node, with_node, DirEntry, entry_len}
use moros.Fs.ReadDir
use moros.Fs.ReadDir.{ReadDir, entry, finish}

-- A byte that is not the continuation of a UTF-8 character.
abbrev pub is_start : ℕ → Bool
is_start b = not (leb 128 b && ltb b 192)

-- `truncate`, at byte `i` of the name: it stops at the first character that starts above `max`.
abbrev pub truncate_at : ℕ → ℕ → List ℕ → List ℕ
truncate_at max i [] = []
truncate_at max i (b ∷ bs) = if ltb max i && is_start b then [] else b ∷ truncate_at max (i + 1) bs

unfoldable pub truncate : List ℕ → ℕ → List ℕ
truncate name max = truncate_at max 0 name

-- The bytes of a new entry, in the order in which `create_entry` writes them side by side.
unfoldable pub encode : FileType → ℕ → ℕ → ℕ → List ℕ → List ℕ
encode kind addr size time name =
    kind_byte kind
    ∷ (to_be_bytes 4 addr
        ++ (to_be_bytes 4 size ++ (to_be_bytes 8 time ++ (length name % 256 ∷ name))))

-- `entries.find(|entry| entry.name() == name)`, with the iterator behind the entry.
unfoldable pub find_from : ℕ → ℕ → Disk → ReadDir → List ℕ → Run (Option (DirEntry × ReadDir))
find_from zero rounds d r name = stuck
find_from (suc left) rounds d r name = do
  item ← ReadDir.next rounds d r
  elim item [
    | finish _ ↦ ok none
    | entry e r' ↦
        let rest = find_from left rounds d r' name in
        if same_bytes e.name name then ok (some (e, r')) else rest
  ]

unfoldable pub find : ℕ → Disk → Dir → List ℕ → Run (Option DirEntry)
unfolding find_from
find rounds d dir name = do
  hit ← find_from rounds rounds d (ReadDir.entries d dir) name
  elim hit [ none ↦ ok none | some (e, _) ↦ ok (some e) ]

-- `entries.map(|e| e.len()).sum()`
unfoldable pub sum_from : ℕ → ℕ → Disk → ReadDir → Run ℕ
sum_from zero rounds d r = stuck
sum_from (suc left) rounds d r = do
  item ← ReadDir.next rounds d r
  elim item [
    | finish _ ↦ ok 0
    | entry e r' ↦ (do rest ← sum_from left rounds d r'; ok (entry_len e + rest))
  ]

-- `while entries.next().is_some() {}`
unfoldable pub last_from : ℕ → ℕ → Disk → ReadDir → Run ReadDir
last_from zero rounds d r = stuck
last_from (suc left) rounds d r = do
  item ← ReadDir.next rounds d r
  elim item [ finish r' ↦ ok r' | entry _ r' ↦ last_from left rounds d r' ]

-- Writes `new` at offset `i` of the block of an iterator.
unfoldable pub patch : Disk → Block → ℕ → List ℕ → Disk
patch d b i new = Block.write d (Linked.with_bytes b (overwrite (Linked.bytes b) i new))

unfoldable pub update_entry : ℕ → ℕ → Disk → Dir → List ℕ → ℕ → Run Disk
unfolding find_from patch
update_entry rounds time d dir name size = do
  hit ← find_from rounds rounds d (ReadDir.entries d dir) name
  elim hit [
    | none ↦ ok d
    | some (e, r) ↦ ok (
        patch d r.block (r.block_offset - entry_len e + 5)
          (to_be_bytes 4 size ++ to_be_bytes 8 time))
  ]

-- The parent of a directory learns the new size.
abbrev tell_parent : ℕ → ℕ → Disk → Dir → ℕ → Run Disk
tell_parent rounds time d (Dir.root _) size = ok d
tell_parent rounds time d (Dir.child parent n) size = update_entry rounds time d parent n.name size

unfoldable pub update_size : ℕ → ℕ → Disk → Dir → Run (Dir × Disk)
unfolding sum_from update_entry
update_size rounds time d dir = do
  size ← sum_from rounds rounds d (ReadDir.entries d dir)
  d1 ← tell_parent rounds time d dir (size % u32_mod)
  ok (with_node dir (record (node dir) { size = size % u32_mod }), d1)

unfoldable pub root_dir : ℕ → ℕ → Disk → Run (Dir × Disk)
unfolding update_size
root_dir rounds time d = update_size rounds time d (
    Dir.root (record {
      name = [];
      addr = SuperBlock.data_area (SuperBlock.read d);
      size = 0;
      entry_index = 0;
    }))
