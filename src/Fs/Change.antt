-- ===== src/Fs/Change.antt =====
-- src/sys/fs/dir.rs, the operations that change the entries of a directory or walk a path.
use moros.Prelude.{
  ℕ, zero, suc, ◌+◌, ◌-◌, Option, none, some, List, [], ◌∷◌, length, ltb, if◌then◌else◌,
}
use moros.Run.{Run, ok, stuck, ◌>>=◌, unwrap, Result, good, bad}
use moros.Path.{same_bytes, slash, realpath, dirname, filename, trim_start, split}
use moros.Fs.Block
use moros.Fs.Block.{Disk, Block}
use moros.Fs.Linked
use moros.Fs.Linked.{data_len}
use moros.Fs.Bitmap
use moros.Fs.Bitmap.{BitField}
use moros.Fs.Alloc
use moros.Fs.Entry.{FileType, empty_len, Dir, DirEntry, entry_len, is_dir, to_dir}
use moros.Fs.ReadDir
use moros.Fs.ReadDir.{ReadDir}
use moros.Fs.Dir

-- Where a new entry goes: a block, an offset in it, and the disk.
abbrev Place : Type 0
Place = record { block : Block; offset : ℕ; disk : Disk }

module _ ⦃bits : BitField⦄ where
  -- A new block is linked if the entry does not fit behind the last one.
  unfoldable pub place_for : Disk → ReadDir → ℕ → Option Place
  place_for d r len =
      if ltb (data_len - r.block_offset) len
      then elim (Alloc.alloc_next d r.block) [
        | none ↦ none
        | some (b, d1) ↦ some (record { block = b; offset = 0; disk = d1 })
      ]
      else some (record { block = r.block; offset = r.block_offset; disk = d })

  unfoldable pub write_entry :
      ℕ → ℕ → Dir → FileType → List ℕ → Place → Run (Option DirEntry × Dir × Disk)
  write_entry rounds time dir kind name p = do
    (b, d1) ← unwrap (Alloc.alloc p.disk)
    let short = Dir.truncate name 255
    let d2 = Dir.patch d1 p.block p.offset (Dir.encode kind b.addr 0 time short)
    (dir', d3) ← Dir.update_size rounds time d2 dir
    ok (
      some (record { dir = dir'; addr = b.addr; kind = kind; size = 0; time = time; name = short }),
      dir',
      d3,
    )

  unfoldable pub create_entry :
      ℕ → ℕ → Disk → Dir → FileType → List ℕ → Run (Option DirEntry × Dir × Disk)
  unfolding write_entry place_for
  create_entry rounds time d dir kind name = do
    hit ← Dir.find rounds d dir name
    elim hit [
      | some _ ↦ ok (none, dir, d)
      | none ↦ do
        r ← Dir.last_from rounds rounds d (ReadDir.entries d dir)
        elim (place_for d r (empty_len + length name)) [
          | none ↦ ok (none, dir, d)
          | some p ↦ write_entry rounds time dir kind name p
        ]
    ]

  -- `loop { BitmapBlock::free(entry_block.addr()); ... }`
  unfoldable pub free_chain : ℕ → Disk → Block → Run Disk
  free_chain zero d b = stuck
  free_chain (suc left) d b =
      let d1 = Bitmap.free d b.addr in
      elim (Linked.next d1 b) [ some b' ↦ free_chain left d1 b' | none ↦ ok d1 ]

  unfoldable pub delete_entry : ℕ → ℕ → Disk → Dir → List ℕ → Run (Result Dir × Disk)
  unfolding free_chain
  delete_entry rounds time d dir name = do
    hit ← Dir.find_from rounds rounds d (ReadDir.entries d dir) name
    elim hit [
      | none ↦ ok (bad, d)
      | some (e, r) ↦ do
        let d1 = Dir.patch d r.block (r.block_offset - entry_len e + 1) (0 ∷ 0 ∷ 0 ∷ 0 ∷ [])
        (dir', d2) ← Dir.update_size rounds time d1 dir
        d3 ← free_chain rounds d2 (Block.read d2 e.addr)
        ok (good dir', d3)
    ]

-- The walk of `Dir::open` over the names of a path.
unfoldable pub walk : ℕ → Disk → Dir → List (List ℕ) → Run (Option Dir)
walk rounds d dir [] = ok (some dir)
walk rounds d dir (name ∷ names) = do
  hit ← Dir.find rounds d dir name
  elim hit [
    | none ↦ ok none
    | some e ↦ let rest = walk rounds d (to_dir e) names in if is_dir e then rest else ok none
  ]

-- `none` for the disk: no device is mounted.
unfoldable pub open_dir : ℕ → ℕ → List ℕ → Option Disk → List ℕ → Run (Option Dir)
unfolding walk
open_dir rounds time cwd none path = ok none
open_dir rounds time cwd (some d) path = do
  (dir, _) ← Dir.root_dir rounds time d
  let real = realpath cwd path
  if same_bytes real (slash ∷ [])
      then ok (some dir)
      else walk rounds d dir (split (trim_start real))

module _ ⦃bits : BitField⦄ where
  -- The directory of a path and the name in it, with an operation on them.
  unfoldable pub in_parent {ℓ} :
      {A : Type ℓ} → ℕ → ℕ → List ℕ → Disk → List ℕ → A → (Dir → List ℕ → Run A) → Run A
  in_parent rounds time cwd d path missing act = do
    let real = realpath cwd path
    parent ← open_dir rounds time cwd (some d) (dirname real)
    elim parent [ none ↦ ok missing | some dir ↦ act dir (filename real) ]

  -- `Dir::create`
  unfoldable pub create : ℕ → ℕ → List ℕ → Disk → List ℕ → Run (Option Dir × Disk)
  unfolding in_parent
  create rounds time cwd d path =
      in_parent rounds time cwd d path (none, d)
        λ dir name. do
          (made, _, d1) ← create_entry rounds time d dir FileType.dir name
          elim made [ none ↦ ok (none, d1) | some e ↦ ok (some (to_dir e), d1) ]

  -- `Dir::delete` and `File::delete`
  unfoldable pub delete : ℕ → ℕ → List ℕ → Disk → List ℕ → Run (Result (Unit {0}) × Disk)
  unfolding in_parent
  delete rounds time cwd d path =
      in_parent rounds time cwd d path (bad, d)
        λ dir name. do
          (done, d1) ← delete_entry rounds time d dir name
          elim done [ good _ ↦ ok (good tt, d1) | bad ↦ ok (bad, d1) ]
