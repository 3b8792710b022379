-- ===== src/Fs/Format.antt =====
-- Formatting: `format_mem` and `format_ata` of src/sys/fs/block_device.rs and `free_all` of
-- src/sys/fs/bitmap_block.rs, on the disk of a device of `count` blocks that is mounted.
pub mod Laws
use moros.Prelude.{ℕ, zero, suc, ◌+◌, ◌-◌, ◌&&◌, Bool, true, false, List, [], ◌∷◌, take, ◌==◌}
use moros.Run.{Run, ok, ◌>>=◌}
use moros.Path.{same_bytes}
use moros.Fs.Block
use moros.Fs.Block.{Disk, block_size}
use moros.Fs.SuperBlock
use moros.Fs.Bitmap
use moros.Fs.Bitmap.{BitField}
use moros.Fs.Entry.{node}
use moros.Fs.Dir

-- `SuperBlock::check_ata`, on a sector that could be read.
unfoldable pub is_formatted : Disk → Bool
is_formatted d = same_bytes (take 8 (d SuperBlock.super_block_addr)) SuperBlock.signature_bytes

-- Zeros for the `n` blocks from `addr` on.
unfoldable pub clear_from : ℕ → ℕ → Disk → Disk
clear_from zero addr d = d
clear_from (suc n) addr d = clear_from n (addr + 1) (Block.write d (Block.new addr))

unfoldable pub free_all : Disk → Disk
unfolding clear_from
free_all d =
    let sb = SuperBlock.read d in
    let a = SuperBlock.bitmap_area sb in let b = SuperBlock.data_area sb in clear_from (b - a) a d

module _ ⦃bits : BitField⦄ where
  -- `Dir::root()`, whose block is allocated.
  abbrev alloc_root : ℕ → ℕ → Disk → Run Disk
  alloc_root rounds time d = do
    (root_node, d1) ← Dir.root_dir rounds time d
    ok (Bitmap.alloc d1 (node root_node).addr)

  unfoldable pub format_mem : ℕ → ℕ → ℕ → Disk → Run Disk
  format_mem rounds time count d =
      alloc_root rounds time (SuperBlock.write d (SuperBlock.new block_size count))

  unfoldable pub format_ata : ℕ → ℕ → ℕ → Disk → Run Disk
  unfolding free_all
  format_ata rounds time count d =
      alloc_root rounds time (free_all (SuperBlock.write d (SuperBlock.new block_size count)))
