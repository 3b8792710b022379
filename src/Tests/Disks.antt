-- ===== src/Tests/Disks.antt =====
-- A bit field by arithmetic, and a formatted disk of 32 MB.
use moros.Prelude.{
  ℕ, ◌+◌, ◌-◌, ◌/◌, ◌%◌, ◌^◌, ◌<◌, ◌≡◌, ◌≢◌, inl, inr, refl, ◌∙◌, ap, Bool, true, false, not, ◌&&◌,
  arith, ltb, ◌==◌, ==_iff, if◌then◌else◌, Bool-cases, ltb→lt,
}
use moros.Word.{to_be_bytes, from_be_bytes, trailing_zeros, all_below, all_below_lem}
use moros.Bytes.{IsBytes-replicate}
use moros.Fs.Block
use moros.Fs.Block.{Disk, Block}
use moros.Fs.SuperBlock
use moros.Fs.SuperBlock.{SuperBlock}
use moros.Fs.SuperBlock.Laws
use moros.Fs.SuperBlock.Laws.{IsValid, image-full, image-IsBytes, IsBytes-signature}
use moros.Fs.Bitmap.{BitField, block_index, buffer_index, bit_of, alloc, free, next_free_addr}
use moros.Fs.Bitmap
use moros.Fs.Bitmap.Laws.{IsFormatted, data_of, bitmap_of, is_allocated}

abbrev pub bit : ℕ → ℕ → Bool
bit b k = b / 2 ^ k % 2 == 1

abbrev pub with_bit : ℕ → ℕ → Bool → ℕ
with_bit b k true = if bit b k then b else b + 2 ^ k
with_bit b k false = if bit b k then b - 2 ^ k else b

abbrev same : Bool → Bool → Bool
same true b = b
same false b = not b

abbrev fits : ℕ → ℕ → ℕ → Bool → Bool
fits b k j v =
    same (bit (with_bit b k v) j) (if j == k then v else bit b j) && ltb (with_bit b k v) 256

table :
    all_below 256 (λ b. all_below 8 (λ k. all_below 8 (λ j. fits b k j true && fits b k j false)))
    ≡ true
unfolding all_below
table = refl

fits_lem : (b k j : ℕ) (v : Bool) → b < 256 → k < 8 → j < 8 → fits b k j v ≡ true
fits_lem b k j v hb hk hj =
    pick v (all_below_lem 8 _ j (all_below_lem 8 _ k (all_below_lem 256 _ b table hb) hk) hj)
  where
    pick : (v : Bool) → fits b k j true && fits b k j false ≡ true → fits b k j v ≡ true
    pick true h = ground arith
    pick false h = ground arith

same_lem : (a b : Bool) → same a b ≡ true → a ≡ b
same_lem true b h = ground arith
same_lem false b h = ground arith

and_left : (a b : Bool) → a && b ≡ true → a ≡ true
and_left a b h = ground arith

and_right : (a b : Bool) → a && b ≡ true → b ≡ true
and_right a b h = ground arith

pub bits_self : (b k : ℕ) (v : Bool) → b < 256 → k < 8 → bit (with_bit b k v) k ≡ v
bits_self b k v hb hk =
    same_lem _ _ (and_left _ (ltb (with_bit b k v) 256) (fits_lem b k k v hb hk hk))
    ∙ ap (λ t. if t then v else bit b k) ((==_iff k k).1 refl)

pub bits_ne :
    (b k j : ℕ) (v : Bool) → b < 256 → k < 8 → j < 8 → j ≢ k → bit (with_bit b k v) j ≡ bit b j
bits_ne b k j v hb hk hj ne =
    same_lem _ _ (and_left _ (ltb (with_bit b k v) 256) (fits_lem b k j v hb hk hj))
    ∙ elim (Bool-cases (j == k)) [ inl e ↦ absurd (ne ((==_iff j k).0 e)) | inr e ↦ rw e ]

abbrev bit_kept : ℕ → ℕ → Bool → Bool
bit_kept b k v = same (bit (with_bit b k v) k) (if k == k then v else bit b k)

pub bits_lt : (b k : ℕ) (v : Bool) → b < 256 → k < 8 → with_bit b k v < 256
bits_lt b k v hb hk =
    ltb→lt _ _ (and_right (bit_kept b k v) (ltb (with_bit b k v) 256) (fits_lem b k k v hb hk hk))

instance abbrev pub bits : BitField
bits = record {
  get_bit = bit;
  set_bit = with_bit;
  get_bit-set_self = bits_self;
  get_bit-set_ne = bits_ne;
  set_bit-lt = bits_lt;
}

abbrev pub blank : Disk
blank a = Block.zeros

-- A superblock for 65536 blocks of 512 bytes.
abbrev pub empty_block : SuperBlock
empty_block = record {
  signature = SuperBlock.signature_bytes;
  version = 1;
  block_size = 512;
  block_count = 65536;
  alloc_count = 0;
}

pub empty_block-IsValid : IsValid empty_block
empty_block-IsValid = record {
  signed = refl;
  shift = 0;
  shift_lt = omega arith;
  sized = refl;
  counted = omega arith;
  allocated = omega arith;
}

-- The disk after the superblock is written on zeros.
unfoldable pub formatted : Disk
formatted = SuperBlock.write blank empty_block

pub read-formatted : SuperBlock.read formatted ≡ empty_block
unfolding formatted
read-formatted = SuperBlock.Laws.read-write blank empty_block empty_block-IsValid

pub formatted-IsFormatted : IsFormatted formatted
formatted-IsFormatted = record {
  sized = rw read-formatted refl;
  holds = rw read-formatted (omega arith);
  small = rw read-formatted (omega arith);
  full = λ a.
      unfold formatted SuperBlock.write Block.write in
      elim (Bool-cases (a == 4096)) [ inl e ↦ rw e (image-full empty_block) | inr e ↦ rw e refl ];
  bytes = λ a j.
      unfold formatted SuperBlock.write Block.write in
      elim (Bool-cases (a == 4096)) [
        | inl e ↦ rw e (image-IsBytes empty_block IsBytes-signature (omega arith) j)
        | inr e ↦ rw e (IsBytes-replicate 512 0 (omega arith) j)
      ];
}

pub areas-formatted : (data_of formatted ≡ 4112) × (bitmap_of formatted ≡ 4098)
unfolding SuperBlock.data_area
areas-formatted = rw read-formatted (refl, refl)

-- Opens all that an operation on the disk computes with.
unfoldable pub computing : Unit {0}
unfolding SuperBlock.read SuperBlock.write SuperBlock.bitmap_area SuperBlock.data_area
    SuperBlock.inc_alloc_count SuperBlock.dec_alloc_count Block.read Block.write Block.new
    to_be_bytes from_be_bytes trailing_zeros block_index buffer_index bit_of Bitmap.with_bit alloc
    free next_free_addr formatted is_allocated
computing = tt
