-- ===== src/Fs/ReadDir.antt =====
-- src/sys/fs/read_dir.rs: the iterator over the entries of a directory, block after block.
use moros.Prelude.{
  ℕ, zero, suc, ◌+◌, ◌-◌, ◌||◌, none, some, List, get_or, slice, leb, ◌==◌, if◌then◌else◌,
}
use moros.Word.{from_be_bytes}
use moros.Run.{Run, ok, stuck}
use moros.Fs.Block
use moros.Fs.Block.{Disk, Block}
use moros.Fs.Linked
use moros.Fs.Linked.{data_len}
use moros.Fs.Entry.{FileType, file_type, empty_len, Dir, node, DirEntry}

pub record ReadDir : Type 0 where
  pub dir : Dir
  pub block : Block
  pub block_offset : ℕ
  pub block_index : ℕ

unfoldable pub entries : Disk → Dir → ReadDir
entries d dir = record {
  dir = dir;
  block = Block.read d (node dir).addr;
  block_offset = 0;
  block_index = 0;
}

-- What the inner loop sees at an offset: no entry (the cursor stays), a deleted entry that ends
-- at an offset, or an entry.
pub data Seen : Type 0 where
  no_entry : Seen
  deleted : ℕ → Seen
  found : FileType → ℕ → ℕ → ℕ → List ℕ → ℕ → Seen

unfoldable pub read_entry : List ℕ → ℕ → Seen
read_entry bytes offset =
    if leb (data_len - empty_len) offset
    then no_entry
    else elim (file_type (get_or bytes offset 0)) [
      | none ↦ no_entry
      | some kind ↦
          let addr = from_be_bytes (slice (offset + 1) (offset + 5) bytes) in
          let size = from_be_bytes (slice (offset + 5) (offset + 9) bytes) in
          let time = from_be_bytes (slice (offset + 9) (offset + 17) bytes) in
          let n = get_or bytes (offset + 17) 0 in
          let end = offset + 18 + n in
          if n == 0 || leb (data_len - (offset + 18)) n
          then no_entry
          else if addr == 0
          then deleted end
          else found kind addr size time (slice (offset + 18) end bytes) end
    ]

-- `next` yields an entry and the iterator behind it, or the iterator at its end. A round is an
-- entry that is skipped or a step to the next block.
pub data Item : Type 0 where
  entry : DirEntry → ReadDir → Item
  finish : ReadDir → Item

unfoldable pub next : ℕ → Disk → ReadDir → Run Item
unfolding read_entry
next zero d r = stuck
next (suc fuel) d r = elim (read_entry (Linked.bytes r.block) r.block_offset) [
  | no_entry ↦ elim (Linked.next d r.block) [
    | some b ↦
        next fuel d (record r { block = b; block_offset = 0; block_index = r.block_index + 1 })
    | none ↦ ok (finish r)
  ]
  | deleted end ↦ next fuel d (record r { block_offset = end })
  | found kind addr size time name end ↦ ok (
      entry
        (record { dir = r.dir; addr = addr; kind = kind; size = size; time = time; name = name })
        (record r { block_offset = end }))
]
