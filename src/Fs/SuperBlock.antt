-- ===== src/Fs/SuperBlock.antt =====
-- src/sys/fs/super_block.rs: the record at the start of the file system, and the areas it implies.
pub mod Laws
use moros.Prelude.{ℕ, ◌+◌, ◌-◌, ◌*◌, ◌/◌, ◌%◌, ◌^◌, List, [], ◌∷◌, ◌++◌, slice, overwrite, get_or}
use moros.Word.{u32_mod, add32, sub32, mul32, to_be_bytes, from_be_bytes, trailing_zeros}
use moros.Fs.Block
use moros.Fs.Block.{Disk}

-- 2 MB of kernel, in blocks.
abbrev pub super_block_addr : ℕ
super_block_addr = 4096

abbrev pub version_number : ℕ
version_number = 1

-- "MOROS FS"
abbrev pub signature_bytes : List ℕ
signature_bytes = 77 ∷ 79 ∷ 82 ∷ 79 ∷ 83 ∷ 32 ∷ 70 ∷ 83 ∷ []

abbrev pub bitmap_size : ℕ
bitmap_size = 4096

pub record SuperBlock : Type 0 where
  pub signature : List ℕ
  pub version : ℕ
  pub block_size : ℕ
  pub block_count : ℕ
  pub alloc_count : ℕ

-- `SuperBlock::new` on a mounted device of `count` blocks.
unfoldable pub new : ℕ → ℕ → SuperBlock
new size count = record {
  signature = signature_bytes;
  version = version_number;
  block_size = size % u32_mod;
  block_count = count % u32_mod;
  alloc_count = 0;
}

unfoldable pub read : Disk → SuperBlock
read d =
    let buf = (Block.read d super_block_addr).buf in
    record {
      signature = signature_bytes;
      version = get_or buf 8 0;
      block_size = 2 * 2 ^ ((8 + get_or buf 9 0) % 32) % u32_mod;
      block_count = from_be_bytes (slice 10 14 buf);
      alloc_count = from_be_bytes (slice 14 18 buf);
    }

-- The five writes into a block of zeros, in their order.
unfoldable pub image : SuperBlock → List ℕ
image sb =
    let b0 = overwrite Block.zeros 0 sb.signature in
    let b1 = overwrite b0 8 (sb.version ∷ []) in
    let b2 = overwrite b1 9 ((trailing_zeros sb.block_size + 256 - 9) % 256 ∷ []) in
    let b3 = overwrite b2 10 (to_be_bytes 4 sb.block_count) in
    overwrite b3 14 (to_be_bytes 4 sb.alloc_count)

unfoldable pub write : Disk → SuperBlock → Disk
unfolding image
write d sb = Block.write d (record { addr = super_block_addr; buf = image sb })

unfoldable pub bitmap_area : SuperBlock → ℕ
bitmap_area sb = add32 super_block_addr 2

unfoldable pub data_area : SuperBlock → ℕ
unfolding bitmap_area
data_area sb =
    let rest = mul32 (sub32 sb.block_count (bitmap_area sb)) bitmap_size / (bitmap_size + 1) in
    add32 (bitmap_area sb) (rest / bitmap_size)

unfoldable pub inc_alloc_count : Disk → Disk
unfolding read write
inc_alloc_count d = let sb = read d in write d (record sb { alloc_count = add32 sb.alloc_count 1 })

unfoldable pub dec_alloc_count : Disk → Disk
unfolding read write
dec_alloc_count d = let sb = read d in write d (record sb { alloc_count = sub32 sb.alloc_count 1 })
