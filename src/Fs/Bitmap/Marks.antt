-- ===== src/Fs/Bitmap/Marks.antt =====
-- src/sys/fs/bitmap_block.rs: the writes of `alloc` and `free`.
use moros.Prelude.{
  ℕ, ◌+◌, ◌-◌, ◌/◌, ◌%◌, ◌≤◌, ◌<◌, ◌≡◌, ◌≢◌, refl, sym, ◌∙◌, ap, inl, inr, Bool, true, false, arith,
  length, length-set, dec_eq, if◌then◌else◌, Bool-cases, ◌==◌, ==_iff,
}
use moros.Word.{u32_mod, add32, sub32}
use moros.Bytes.{IsBytes, IsBytes-set}
use moros.Fs.Block
use moros.Fs.Block.{Disk, Block, read-write_self, read-write_ne}
use moros.Fs.SuperBlock
use moros.Fs.SuperBlock.{SuperBlock, super_block_addr, bitmap_area, data_area}
use moros.Fs.SuperBlock.Laws
use moros.Fs.SuperBlock.Laws.{IsValid, image-full, image-IsBytes, IsBytes-signature}
use moros.Fs.Bitmap.{BitField, bit_of, with_bit, alloc, free}
use moros.Fs.Bitmap.Laws.{
  IsFormatted, data_of, bitmap_of, areas, locate, is_allocated, is_allocated-offset,
  bit_of-with_bit_self, bit_of-with_bit_ne,
}

-- The superblock of a disk depends on one block of it.
read-same :
    (d e : Disk) → e super_block_addr ≡ d super_block_addr → SuperBlock.read e ≡ SuperBlock.read d
unfolding SuperBlock.read Block.read
read-same d e h = rw h

signed : (d : Disk) → (SuperBlock.read d).signature ≡ SuperBlock.signature_bytes
unfolding SuperBlock.read
signed d = refl

version-lt : (d : Disk) → IsFormatted d → (SuperBlock.read d).version < 256
unfolding SuperBlock.read Block.read
version-lt d f = f.bytes super_block_addr 8

signature-IsBytes : (d : Disk) → IsBytes (SuperBlock.read d).signature
unfolding SuperBlock.read
signature-IsBytes d = IsBytes-signature

areas-recount :
    (sb : SuperBlock) (c : ℕ)
    → (data_area (record sb { alloc_count = c }) ≡ data_area sb)
      × (bitmap_area (record sb { alloc_count = c }) ≡ bitmap_area sb)
unfolding data_area
areas-recount sb c = (refl, refl)

module _ ⦃bits : BitField⦄ (d : Disk) (off : ℕ) (f : IsFormatted d) (h : off < 1048576)
    (v : Bool) where
  -- Where the bit lies.
  abbrev pub home : ℕ
  home = bitmap_of d + off / 4096

  abbrev pub changed : Block
  changed = with_bit (Block.read d home) (off % 512) v

  abbrev pub marked : Disk
  marked = Block.write d changed

  -- The disk after the bit and a new count are written.
  abbrev pub counted : ℕ → Disk
  counted c = SuperBlock.write marked (record (SuperBlock.read marked) { alloc_count = c })

  pub read-marked : SuperBlock.read marked ≡ SuperBlock.read d
  unfolding Block.write Block.read with_bit
  read-marked = let a = areas d f in read-same d marked (ground (arith, a.0))

  pub read-counted :
      (c : ℕ)
      → c < u32_mod
      → SuperBlock.read (counted c) ≡ record (SuperBlock.read d) { alloc_count = c }
  read-counted c k =
      SuperBlock.Laws.read-write marked (record (SuperBlock.read marked) { alloc_count = c }) valid
      ∙ ap (λ (t : SuperBlock). record t { alloc_count = c }) read-marked
    where
      valid : IsValid (record (SuperBlock.read marked) { alloc_count = c })
      valid = rw read-marked (record {
        signed = signed d;
        shift = 0;
        shift_lt = omega arith;
        sized = f.sized;
        counted = omega (arith, f.small);
        allocated = k;
      })

  at-counted :
      (c a : ℕ)
      → counted c a ≡ (
          if a == super_block_addr
          then SuperBlock.image (record (SuperBlock.read marked) { alloc_count = c })
          else if a == home
          then changed.buf
          else d a)
  unfolding SuperBlock.write Block.write Block.read with_bit
  at-counted c a = refl

  changed-full : length changed.buf ≡ 512
  unfolding with_bit Block.read
  changed-full = length-set (d home) _ _ ∙ f.full home

  changed-IsBytes : IsBytes changed.buf
  unfolding with_bit Block.read
  changed-IsBytes =
      IsBytes-set (d home) _ _ (f.bytes home)
        (bits.set_bit-lt _ (off % 512 % 8) v (f.bytes home (off % 512 / 8)) (omega arith))

  pub counted-IsFormatted : (c : ℕ) → c < u32_mod → IsFormatted (counted c)
  counted-IsFormatted c k = record {
    sized = rw (read-counted, k) f.sized;
    holds = rw (read-counted, k) f.holds;
    small = rw (read-counted, k) f.small;
    full = λ a. rw at-counted (
        ground (
          arith,
          image-full (record (SuperBlock.read marked) { alloc_count = c }),
          changed-full,
          f.full a,
        ));
    bytes = λ a j. rw at-counted (elim (Bool-cases (a == super_block_addr)) [
      | inl e ↦ rw e (
          image-IsBytes (record (SuperBlock.read marked) { alloc_count = c })
            (rw read-marked (signature-IsBytes d)) (rw read-marked (version-lt d f)) j)
      | inr e ↦ rw e (elim (Bool-cases (a == home)) [
        | inl q ↦ rw q (changed-IsBytes j)
        | inr q ↦ rw q (f.bytes a j)
      ])
    ]);
  }

  pub areas-counted :
      (c : ℕ)
      → c < u32_mod
      → (data_of (counted c) ≡ data_of d) × (bitmap_of (counted c) ≡ bitmap_of d)
  areas-counted c k = rw (read-counted, k) (areas-recount (SuperBlock.read d) c)

  bit-buffer : (b e : Block) (i : ℕ) → b.buf ≡ e.buf → bit_of b i ≡ bit_of e i
  unfolding bit_of
  bit-buffer b e i h = rw h

  -- The block of the bitmap for offset `o`, afterwards.
  bitmap-counted :
      (c o : ℕ)
      → counted c (bitmap_of d + o / 4096)
        ≡ (if o / 4096 == off / 4096 then changed.buf else d (bitmap_of d + o / 4096))
  bitmap-counted c o = let a = areas d f in rw at-counted (ground (arith, a.0))

  bit-counted :
      (c o : ℕ)
      → c < u32_mod
      → o < 1048576
      → is_allocated (counted c) (data_of d + o) ≡ (
          if o / 4096 == off / 4096
          then bit_of changed (o % 512)
          else bit_of (Block.read d (bitmap_of d + o / 4096)) (o % 512))
  unfolding Block.read
  bit-counted c o k ho =
      let e = areas-counted c k in
      ap (λ t. is_allocated (counted c) (t + o)) (sym e.0)
      ∙ is_allocated-offset (counted c) o (counted-IsFormatted c k) ho
      ∙ ap (λ t. bit_of (Block.read (counted c) (t + o / 4096)) (o % 512)) e.1
      ∙ elim (Bool-cases (o / 4096 == off / 4096)) [
        | inl q ↦ rw q (bit-buffer _ _ (o % 512) (bitmap-counted c o ∙ rw q))
        | inr q ↦ rw q (bit-buffer _ _ (o % 512) (bitmap-counted c o ∙ rw q))
      ]

  changed_self : bit_of changed (off % 512) ≡ v
  unfolding Block.read
  changed_self =
      bit_of-with_bit_self (Block.read d home) (off % 512) v (f.full home) (f.bytes home)
        (omega arith)

  changed_ne : (r : ℕ) → r ≢ off % 512 → bit_of changed r ≡ bit_of (Block.read d home) r
  unfolding Block.read
  changed_ne r ne =
      bit_of-with_bit_ne (Block.read d home) (off % 512) r v (f.full home) (f.bytes home)
        (omega arith) ne

  -- The bit has the value `v`; every other bit is as it was.
  pub is_allocated-counted_self :
      (c : ℕ) → c < u32_mod → is_allocated (counted c) (data_of d + off) ≡ v
  is_allocated-counted_self c k = bit-counted c off k h ∙ ground (arith, changed_self)

  pub is_allocated-counted_ne :
      (c o : ℕ)
      → c < u32_mod
      → o < 1048576
      → (o / 4096 ≡ off / 4096 → o % 512 ≢ off % 512)
      → is_allocated (counted c) (data_of d + o) ≡ is_allocated d (data_of d + o)
  is_allocated-counted_ne c o k ho other =
      bit-counted c o k ho ∙ same ∙ sym (is_allocated-offset d o f ho)
    where
      same :
          (if o / 4096 == off / 4096
            then bit_of changed (o % 512)
            else bit_of (Block.read d (bitmap_of d + o / 4096)) (o % 512))
          ≡ bit_of (Block.read d (bitmap_of d + o / 4096)) (o % 512)
      same = elim (dec_eq (o / 4096) (off / 4096)) [
        | inl e ↦
            let q = (==_iff (o / 4096) (off / 4096)).1 e in
            rw q (
              changed_ne (o % 512) (other e)
              ∙ ap (λ t. bit_of (Block.read d (bitmap_of d + t)) (o % 512)) (sym e))
        | inr e ↦ ground arith
      ]

  -- No block of the data area is written, if the bit lies in the bitmap.
  pub counted_data : (c a : ℕ) → home < data_of d → data_of d ≤ a → counted c a ≡ d a
  counted_data c a low k = let b = areas d f in rw at-counted (ground (arith, b.0, b.1))

-- The offsets with a bit of their own in the bitmap area.
abbrev pub InBitmap : Disk → ℕ → Type 0
InBitmap d off = (off / 4096 < data_of d - bitmap_of d) × (off % 4096 < 512)

module _ ⦃bits : BitField⦄ (d : Disk) (off : ℕ) (f : IsFormatted d) (h : off < 1048576) where
  abbrev pub with_mark : Bool → ℕ → Disk
  with_mark v c = counted d off f h v c

  pub alloc-counted :
      is_allocated d (data_of d + off) ≡ false
      → alloc d (data_of d + off)
        ≡ with_mark true (add32 (SuperBlock.read (marked d off f h true)).alloc_count 1)
  unfolding alloc SuperBlock.inc_alloc_count
  alloc-counted clear =
      let l = locate d off f h in
      let q : bit_of (Block.read d (home d off f h true)) (off % 512) ≡ false =
        sym (is_allocated-offset d off f h) ∙ clear in
      rw (l.0, l.1, q)

  pub free-counted :
      free d (data_of d + off)
      ≡ with_mark false (sub32 (SuperBlock.read (marked d off f h false)).alloc_count 1)
  unfolding free SuperBlock.dec_alloc_count
  free-counted = let l = locate d off f h in rw (l.0, l.1)
