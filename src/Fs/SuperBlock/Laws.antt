-- ===== src/Fs/SuperBlock/Laws.antt =====
-- src/sys/fs/super_block.rs: the superblock on the disk, and its areas.
use moros.Prelude.{
  ℕ, ◌+◌, ◌-◌, ◌*◌, ◌/◌, ◌%◌, ◌^◌, ◌≤◌, ◌<◌, ◌≡◌, refl, sym, ◌∙◌, [], arith, ==_iff, ◌==◌, true,
  subst, length, length-overwrite,
}
use moros.Word.{
  u32_mod, to_be_bytes, from_be_bytes, from_be_bytes-to_be_bytes, trailing_zeros,
  trailing_zeros-pow, all_below, all_below_lem,
}
use moros.Bytes.{
  IsBytes, IsBytes-nil, IsBytes-cons, IsBytes-overwrite, IsBytes-replicate, IsBytes-to_be_bytes,
  IsBytes-of_test,
}
use moros.Fs.Block
use moros.Fs.Block.{Disk, Block, read-write_self, read-write_ne}
use moros.Fs.SuperBlock.{
  SuperBlock, signature_bytes, super_block_addr, bitmap_size, read, write, image, bitmap_area,
  data_area,
}

-- What fits into the fields of the block: a power of two from 512 up, and 32-bit counts.
pub record IsValid (sb : SuperBlock) : Type 0 where
  pub signed : sb.signature ≡ signature_bytes
  pub shift : ℕ
  pub shift_lt : shift < 23
  pub sized : sb.block_size ≡ 2 ^ (9 + shift)
  pub counted : sb.block_count < u32_mod
  pub allocated : sb.alloc_count < u32_mod

shift_table :
    all_below 23 (λ k. 2 * 2 ^ ((8 + (9 + k + 256 - 9) % 256) % 32) % u32_mod == 2 ^ (9 + k)) ≡ true
unfolding all_below
shift_table = refl

shift_lem : (k : ℕ) → k < 23 → 2 * 2 ^ ((8 + (9 + k + 256 - 9) % 256) % 32) % u32_mod ≡ 2 ^ (9 + k)
shift_lem k h = (==_iff _ _).0 (all_below_lem 23 _ k shift_table h)

abbrev signed : ℕ → ℕ → ℕ → ℕ → SuperBlock
signed v s c a = record {
  signature = signature_bytes;
  version = v;
  block_size = s;
  block_count = c;
  alloc_count = a;
}

read-write_signed :
    (d : Disk) (v k c a : ℕ)
    → k < 23
    → c < u32_mod
    → a < u32_mod
    → read (write d (signed v (2 ^ (9 + k)) c a)) ≡ signed v (2 ^ (9 + k)) c a
unfolding read write Block.read Block.write to_be_bytes
read-write_signed d v k c a hk hc ha = λ i. signed v (size i) (count i) (allocated i)
  where
    size :
        2 * 2 ^ ((8 + (trailing_zeros (2 ^ (9 + k)) + 256 - 9) % 256) % 32) % u32_mod ≡ 2 ^ (9 + k)
    size =
        let e : trailing_zeros (2 ^ (9 + k)) ≡ 9 + k = trailing_zeros-pow (9 + k) (omega arith) in
        rw e (shift_lem k hk)

    count : from_be_bytes (to_be_bytes 4 c) ≡ c
    count = from_be_bytes-to_be_bytes 4 c hc

    allocated : from_be_bytes (to_be_bytes 4 a) ≡ a
    allocated = from_be_bytes-to_be_bytes 4 a ha

-- A superblock with the signature, a block size of a power of two from 512 on, and counts below
-- 2^32 is read back as it was written.
pub read-write : (d : Disk) (sb : SuperBlock) → IsValid sb → read (write d sb) ≡ sb
read-write d sb v =
    subst (λ t. read (write d t) ≡ t) same
      (read-write_signed d sb.version v.shift sb.block_count sb.alloc_count v.shift_lt v.counted
        v.allocated)
  where
    same : signed sb.version (2 ^ (9 + v.shift)) sb.block_count sb.alloc_count ≡ sb
    same = λ i. record {
      signature = sym v.signed i;
      version = sb.version;
      block_size = sym v.sized i;
      block_count = sb.block_count;
      alloc_count = sb.alloc_count;
    }

-- On a disk of at least 4098 and fewer than 2^20 blocks, the bitmap lies behind the superblock, the
-- data area behind the bitmap and inside the disk, and the data area has at least 4096 blocks for
-- each block of the bitmap, and at most as many for each and 4096 more.
pub data_area_bounds :
    (sb : SuperBlock)
    → sb.block_count < 1048576
    → 4098 ≤ sb.block_count
    → (super_block_addr < bitmap_area sb)
      × (bitmap_area sb ≤ data_area sb)
      × (data_area sb ≤ sb.block_count)
      × ((data_area sb - bitmap_area sb) * bitmap_size ≤ sb.block_count - data_area sb)
      × (sb.block_count - data_area sb ≤ (data_area sb - bitmap_area sb + 1) * bitmap_size)
unfolding data_area
data_area_bounds sb h k = omega arith

-- The image of a superblock is a block of bytes.
pub image-full : (sb : SuperBlock) → length (image sb) ≡ 512
unfolding image
image-full sb =
    length-overwrite _ 14 _
    ∙ length-overwrite _ 10 _
    ∙ length-overwrite _ 9 _
    ∙ length-overwrite _ 8 _
    ∙ length-overwrite Block.zeros 0 sb.signature

pub image-IsBytes : (sb : SuperBlock) → IsBytes sb.signature → sb.version < 256 → IsBytes (image sb)
unfolding image
image-IsBytes sb s v =
    IsBytes-overwrite _ 14 _
      (IsBytes-overwrite _ 10 _
        (IsBytes-overwrite _ 9 _
          (IsBytes-overwrite _ 8 _
            (IsBytes-overwrite Block.zeros 0 _ (IsBytes-replicate 512 0 (omega arith)) s)
            (IsBytes-cons sb.version [] v IsBytes-nil))
          (IsBytes-cons _ [] (omega arith) IsBytes-nil))
        (IsBytes-to_be_bytes 4 sb.block_count))
      (IsBytes-to_be_bytes 4 sb.alloc_count)

pub IsBytes-signature : IsBytes signature_bytes
IsBytes-signature = IsBytes-of_test signature_bytes refl

-- The bitmap area is shorter than the number of blocks that a search reads as bitmap.
pub data_area-width :
    (sb : SuperBlock)
    → sb.block_count < 1048576
    → 4098 ≤ sb.block_count
    → (data_area sb - bitmap_area sb < 256)
      × (data_area sb < bitmap_area sb + sb.block_count / 4096)
unfolding data_area
data_area-width sb h k = omega arith
