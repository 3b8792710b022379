-- ===== src/Fs/Bitmap.antt =====
-- src/sys/fs/bitmap_block.rs: the bit of each data block, and the search for a clear one.
-- The crate `bit_field` is the instance `BitField`: reading and writing one bit of a byte.
pub mod Laws
pub mod Marks
pub mod Search
pub mod Allocation
use moros.Prelude.{
  ℕ, zero, suc, ◌+◌, ◌*◌, ◌/◌, ◌%◌, ◌<◌, ◌≡◌, ◌≢◌, Bool, true, false, Option, none, some, get_or,
  set, if◌then◌else◌,
}
use moros.Word.{add32, sub32, mul32}
use moros.Fs.Block
use moros.Fs.Block.{Disk, Block}
use moros.Fs.SuperBlock
use moros.Fs.SuperBlock.{SuperBlock, bitmap_size, bitmap_area, data_area}

-- `BitField` for `u8`, as its documentation states it.
pub record BitField : Type 0 where
  pub get_bit : ℕ → ℕ → Bool
  pub set_bit : ℕ → ℕ → Bool → ℕ
  pub get_bit-set_self : (b k : ℕ) (v : Bool) → b < 256 → k < 8 → get_bit (set_bit b k v) k ≡ v
  pub get_bit-set_ne :
      (b k j : ℕ) (v : Bool)
      → b < 256
      → k < 8
      → j < 8
      → j ≢ k
      → get_bit (set_bit b k v) j ≡ get_bit b j
  pub set_bit-lt : (b k : ℕ) (v : Bool) → b < 256 → k < 8 → set_bit b k v < 256

unfoldable pub block_index : Disk → ℕ → ℕ
block_index d addr =
    let sb = SuperBlock.read d in
    let i = sub32 addr (data_area sb) in add32 (bitmap_area sb) (i / sb.block_size / 8)

unfoldable pub buffer_index : Disk → ℕ → ℕ
buffer_index d addr = let sb = SuperBlock.read d in sub32 addr (data_area sb) % sb.block_size

module _ ⦃bits : BitField⦄ where
  -- Bit `i` of a bitmap.
  unfoldable pub bit_of : Block → ℕ → Bool
  bit_of b i = bits.get_bit (get_or b.buf (i / 8) 0) (i % 8)

  unfoldable pub with_bit : Block → ℕ → Bool → Block
  with_bit b i v = record b {
    buf = set b.buf (i / 8) (bits.set_bit (get_or b.buf (i / 8) 0) (i % 8) v);
  }

  unfoldable pub alloc : Disk → ℕ → Disk
  alloc d addr =
      let block = Block.read d (block_index d addr) in
      let i = buffer_index d addr in
      if bit_of block i
      then d
      else SuperBlock.inc_alloc_count (Block.write d (with_bit block i true))

  unfoldable pub free : Disk → ℕ → Disk
  free d addr =
      let block = Block.read d (block_index d addr) in
      SuperBlock.dec_alloc_count (Block.write d (with_bit block (buffer_index d addr) false))

  -- The three nested loops of `next_free_addr`, from the innermost: bits, bytes, blocks.
  unfoldable pub find_bit : ℕ → ℕ → ℕ → Option ℕ
  find_bit byte zero k = none
  find_bit byte (suc left) k = if bits.get_bit byte k then find_bit byte left (k + 1) else some k

  -- The pair of the byte and the bit.
  unfoldable pub find_byte : Block → ℕ → ℕ → Option (ℕ × ℕ)
  unfolding find_bit
  find_byte b zero j = none
  find_byte b (suc left) j =
      let rest = find_byte b left (j + 1) in
      elim (find_bit (get_or b.buf j 0) 8 0) [ some k ↦ some (j, k) | none ↦ rest ]

  unfoldable pub find_block : Disk → SuperBlock → ℕ → ℕ → Option ℕ
  unfolding find_byte
  find_block d sb zero i = none
  find_block d sb (suc left) i =
      let rest = find_block d sb left (i + 1) in
      elim (find_byte (Block.read d (add32 (bitmap_area sb) i)) (sb.block_size / 8) 0) [
        | some (j, k) ↦
            some (add32 (add32 (add32 (data_area sb) (mul32 i bitmap_size)) (mul32 j 8)) k)
        | none ↦ rest
      ]

  unfoldable pub next_free_addr : Disk → Option ℕ
  unfolding find_block
  next_free_addr d =
      let sb = SuperBlock.read d in find_block d sb (sb.block_count / sb.block_size / 8) 0
