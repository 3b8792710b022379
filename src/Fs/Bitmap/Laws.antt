-- ===== src/Fs/Bitmap/Laws.antt =====
-- src/sys/fs/bitmap_block.rs: where the bit of an address lies.
use moros.Prelude.{
  ℕ, ◌+◌, ◌/◌, ◌%◌, ◌≤◌, ◌<◌, ◌≡◌, ◌≢◌, sym, ◌∙◌, ap, inl, inr, Bool, arith, length, get_or, set,
  dec_eq, get_or-set_self, get_or-set_ne,
}
use moros.Word.{add32, sub32}
use moros.Fs.Block
use moros.Fs.Block.{Disk, Block, read-write_self, read-write_ne}
use moros.Fs.SuperBlock
use moros.Fs.SuperBlock.{SuperBlock, super_block_addr, bitmap_area, data_area}
use moros.Fs.SuperBlock.Laws.{data_area_bounds}
use moros.Fs.Bitmap.{BitField, block_index, buffer_index, bit_of, with_bit}

-- A mounted disk of blocks of 512 bytes with a superblock, of 2 to 512 MB.
pub record IsFormatted (d : Disk) : Type 0 where
  pub sized : (SuperBlock.read d).block_size ≡ 512
  pub holds : 4098 ≤ (SuperBlock.read d).block_count
  pub small : (SuperBlock.read d).block_count < 1048576
  pub full : (a : ℕ) → length (d a) ≡ 512
  pub bytes : (a j : ℕ) → get_or (d a) j 0 < 256

abbrev pub data_of : Disk → ℕ
data_of d = data_area (SuperBlock.read d)

abbrev pub bitmap_of : Disk → ℕ
bitmap_of d = bitmap_area (SuperBlock.read d)

pub areas :
    (d : Disk)
    → IsFormatted d
    → (super_block_addr < bitmap_of d) × (bitmap_of d ≤ data_of d) × (data_of d < 1048576)
areas d f =
    let b = data_area_bounds (SuperBlock.read d) f.small f.holds in omega (arith, b, f.small)

-- The index arithmetic of `block_index` and `buffer_index`.
locate_arith :
    (dat bit size off : ℕ)
    → size ≡ 512
    → dat < 1048576
    → bit ≤ dat
    → off < 1048576
    → (add32 bit (sub32 (dat + off) dat / size / 8) ≡ bit + off / 4096)
      × (sub32 (dat + off) dat % size ≡ off % 512)
locate_arith dat bit size off e h k l = rw e (omega arith, omega arith)

-- The bit of the data block at offset `off`: block `off / 4096` of the bitmap, bit `off % 512`.
pub locate :
    (d : Disk) (off : ℕ)
    → IsFormatted d
    → off < 1048576
    → (block_index d (data_of d + off) ≡ bitmap_of d + off / 4096)
      × (buffer_index d (data_of d + off) ≡ off % 512)
unfolding block_index buffer_index
locate d off f h =
    let a = areas d f in
    locate_arith (data_of d) (bitmap_of d) (SuperBlock.read d).block_size off f.sized a.2 a.1 h

module _ ⦃bits : BitField⦄ where
  -- The bit that `alloc` tests and `free` clears.
  unfoldable pub is_allocated : Disk → ℕ → Bool
  is_allocated d addr = bit_of (Block.read d (block_index d addr)) (buffer_index d addr)

  pub is_allocated-offset :
      (d : Disk) (off : ℕ)
      → IsFormatted d
      → off < 1048576
      → is_allocated d (data_of d + off)
        ≡ bit_of (Block.read d (bitmap_of d + off / 4096)) (off % 512)
  unfolding is_allocated
  is_allocated-offset d off f h = let l = locate d off f h in rw (l.0, l.1)

  pub bit_of-with_bit_self :
      (b : Block) (i : ℕ) (v : Bool)
      → length b.buf ≡ 512
      → ((j : ℕ) → get_or b.buf j 0 < 256)
      → i < 512
      → bit_of (with_bit b i v) i ≡ v
  unfolding bit_of with_bit
  bit_of-with_bit_self b i v full bytes h =
      ap (λ t. bits.get_bit t (i % 8)) (get_or-set_self b.buf (i / 8) _ 0 (omega (arith, full)))
      ∙ bits.get_bit-set_self _ (i % 8) v (bytes (i / 8)) (omega arith)

  pub bit_of-with_bit_ne :
      (b : Block) (i j : ℕ) (v : Bool)
      → length b.buf ≡ 512
      → ((j : ℕ) → get_or b.buf j 0 < 256)
      → i < 512
      → j ≢ i
      → bit_of (with_bit b i v) j ≡ bit_of b j
  unfolding bit_of with_bit
  bit_of-with_bit_ne b i j v full bytes h ne = elim (dec_eq (j / 8) (i / 8)) [
    | inl e ↦
        ap (λ t. bits.get_bit (get_or (set b.buf (i / 8) new) t 0) (j % 8)) e
        ∙ ap (λ t. bits.get_bit t (j % 8))
            (get_or-set_self b.buf (i / 8) new 0 (omega (arith, full)))
        ∙ bits.get_bit-set_ne old (i % 8) (j % 8) v (bytes (i / 8)) (omega arith) (omega arith)
            (omega arith)
        ∙ ap (λ t. bits.get_bit (get_or b.buf t 0) (j % 8)) (sym e)
    | inr e ↦
        ap (λ t. bits.get_bit t (j % 8))
          (get_or-set_ne b.buf (i / 8) (j / 8) new 0 (λ q. e (sym q)))
  ]
    where
      old : ℕ
      old = get_or b.buf (i / 8) 0

      new : ℕ
      new = bits.set_bit old (i % 8) v
