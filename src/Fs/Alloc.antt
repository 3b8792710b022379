-- ===== src/Fs/Alloc.antt =====
-- The allocating operations of src/sys/fs/block.rs.
use moros.Prelude.{ℕ, Option, none, some}
use moros.Fs.Block
use moros.Fs.Block.{Disk, Block}
use moros.Fs.Linked.{set_next_addr}
use moros.Fs.Bitmap
use moros.Fs.Bitmap.{BitField}

module _ ⦃bits : BitField⦄ where
  -- `none` leaves the disk as it is.
  abbrev take_block : Disk → Option ℕ → Option (Block × Disk)
  take_block d none = none
  take_block d (some addr) =
      let d1 = Bitmap.alloc d addr in
      let block = record (Block.read d1 addr) { buf = Block.zeros } in
      some (block, Block.write d1 block)

  unfoldable pub alloc : Disk → Option (Block × Disk)
  alloc d = take_block d (Bitmap.next_free_addr d)

  -- `LinkedBlock::alloc_next`: the new block, and the disk with the link to it.
  abbrev link_to : Block → Option (Block × Disk) → Option (Block × Disk)
  link_to b none = none
  link_to b (some (new_block, d)) = some (new_block, Block.write d (set_next_addr b new_block.addr))

  unfoldable pub alloc_next : Disk → Block → Option (Block × Disk)
  unfolding alloc
  alloc_next d b = link_to b (alloc d)
