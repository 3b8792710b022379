-- ===== src/Fs/Format/Laws.antt =====
-- src/sys/fs/block_device.rs and bitmap_block.rs: what formatting writes.
use moros.Prelude.{
  ℕ, zero, suc, ◌+◌, ◌-◌, ◌<◌, ◌≤◌, ◌≡◌, ◌≢◌, refl, sym, ◌∙◌, ap, inl, inr, ◌⊎◌, arith, dec_eq,
  length, get_or, ◌%◌, [], Bool-cases, ◌==◌, lt_or_ge,
}
use moros.Fs.Block
use moros.Run.{Run, ok, panic, stuck, ◌>>=◌}
use moros.Bytes.{IsBytes-replicate}
use moros.Fs.Block.{Disk, zeros, block_size}
use moros.Fs.SuperBlock.{SuperBlock}
use moros.Fs.SuperBlock.Laws.{IsValid, read-write, image-full, image-IsBytes, IsBytes-signature}
use moros.Fs.Bitmap
use moros.Fs.Bitmap.{BitField}
use moros.Fs.Bitmap.Laws.{IsFormatted, data_of, is_allocated}
use moros.Fs.Bitmap.Marks.{InBitmap}
use moros.Fs.Bitmap.Allocation.{alloc-Marks}
use moros.Fs.Entry.{Dir, node}
use moros.Fs.Dir
use moros.Fs.SuperBlock
use moros.Fs.Format.{clear_from, free_all, format_ata}

clear_from-outside :
    (n addr : ℕ) (d : Disk) (a : ℕ) → (a < addr) ⊎ (addr + n ≤ a) → clear_from n addr d a ≡ d a
unfolding clear_from Block.write Block.new
clear_from-outside zero addr d a h = refl
clear_from-outside (suc n) addr d a (inl h) =
    clear_from-outside n (addr + 1) _ a (inl (omega arith)) ∙ ground arith
clear_from-outside (suc n) addr d a (inr h) =
    clear_from-outside n (addr + 1) _ a (inr (omega arith)) ∙ ground arith

clear_from-inside :
    (n addr : ℕ) (d : Disk) (a : ℕ) → addr ≤ a → a < addr + n → clear_from n addr d a ≡ zeros
unfolding clear_from Block.write Block.new
clear_from-inside zero addr d a lo hi = absurd (omega arith)
clear_from-inside (suc n) addr d a lo hi = elim (dec_eq addr a) [
  | inl same ↦ clear_from-outside n (addr + 1) _ a (inl (omega arith)) ∙ ground arith
  | inr ne ↦ clear_from-inside n (addr + 1) _ a (omega (arith, ne)) (omega arith)
]

-- `free_all` writes zeros from the bitmap area to the data area, and nothing elsewhere.
pub free_all_lem :
    (d : Disk) (a : ℕ)
    → let lo = SuperBlock.bitmap_area (SuperBlock.read d) in
      let hi = SuperBlock.data_area (SuperBlock.read d) in
      (lo ≤ a → a < hi → free_all d a ≡ zeros)
      × ((a < lo) ⊎ (hi ≤ a) → lo ≤ hi → free_all d a ≡ d a)
unfolding free_all
free_all_lem d a =
    let lo = SuperBlock.bitmap_area (SuperBlock.read d) in
    let hi = SuperBlock.data_area (SuperBlock.read d) in
    (
      (λ from to. clear_from-inside (hi - lo) lo d a from (omega (arith, from, to))),
      λ out order.
          clear_from-outside (hi - lo) lo d a
            (elim out [ inl below ↦ inl below | inr above ↦ inr (omega (arith, above, order)) ]),
    )

-- A disk that can be formatted: its blocks are 512 bytes, and it has at least 8195 blocks, so that
-- the bitmap has one, and is below 512 MB.
pub record IsFormattable (d : Disk) (count : ℕ) : Type 0 where
  pub full : (a : ℕ) → length (d a) ≡ 512
  pub bytes : (a j : ℕ) → get_or (d a) j 0 < 256
  pub large : 8195 ≤ count
  pub small : count < 1048576

abbrev new_block : ℕ → SuperBlock
new_block count = SuperBlock.new block_size count

-- The disk before the root directory is allocated.
abbrev cleared : ℕ → Disk → Disk
cleared count d = free_all (SuperBlock.write d (new_block count))

new_block-IsValid : (count : ℕ) → count < 1048576 → IsValid (new_block count)
unfolding SuperBlock.new
new_block-IsValid count small = record {
  signed = refl;
  shift = 0;
  shift_lt = omega arith;
  sized = refl;
  counted = omega arith;
  allocated = omega arith;
}

module _ (d : Disk) (count : ℕ) (f : IsFormattable d count) where
  read-written : SuperBlock.read (SuperBlock.write d (new_block count)) ≡ new_block count
  read-written = read-write d (new_block count) (new_block-IsValid count f.small)

  areas_new :
      (SuperBlock.bitmap_area (new_block count) ≡ 4098)
      × (4099 ≤ SuperBlock.data_area (new_block count))
  unfolding SuperBlock.new SuperBlock.data_area
  areas_new = (refl, let n = f.small in let l = f.large in omega (arith, n, l))

  order :
      SuperBlock.bitmap_area (SuperBlock.read (SuperBlock.write d (new_block count)))
      < SuperBlock.data_area (SuperBlock.read (SuperBlock.write d (new_block count)))
  order = rw read-written (let a = areas_new in omega (arith, a.0, a.1))

  written_area :
      SuperBlock.bitmap_area (SuperBlock.read (SuperBlock.write d (new_block count))) ≡ 4098
  written_area = rw read-written areas_new.0

  -- A block of the disk that is cleared, or is as the superblock was written on the disk.
  cleared_lem :
      (a : ℕ)
      → (cleared count d a ≡ zeros) ⊎ (cleared count d a ≡ SuperBlock.write d (new_block count) a)
  cleared_lem a =
      let written = SuperBlock.write d (new_block count) in
      let (inside, outside) = free_all_lem written a in
      let low = order in
      elim (lt_or_ge a (SuperBlock.bitmap_area (SuperBlock.read written))) [
        | inl below ↦ inr (outside (inl below) (omega (arith, low)))
        | inr from ↦ elim (lt_or_ge a (SuperBlock.data_area (SuperBlock.read written))) [
          | inl to ↦ inl (inside from to)
          | inr above ↦ inr (outside (inr above) (omega (arith, low)))
        ]
      ]

  read-same : (x y : Disk) → x 4096 ≡ y 4096 → SuperBlock.read x ≡ SuperBlock.read y
  unfolding SuperBlock.read Block.read
  read-same x y h = rw h refl

  read-cleared : SuperBlock.read (cleared count d) ≡ new_block count
  read-cleared =
      let written = SuperBlock.write d (new_block count) in
      let low = order in
      let area = written_area in
      read-same (cleared count d) written
        ((free_all_lem written 4096).1 (inl (omega (arith, area))) (omega (arith, low)))
      ∙ read-written

  written-data : (a : ℕ) → a ≢ 4096 → SuperBlock.write d (new_block count) a ≡ d a
  unfolding SuperBlock.write Block.write
  written-data a ne = ground arith

  written-full : (a : ℕ) → length (SuperBlock.write d (new_block count) a) ≡ 512
  unfolding SuperBlock.write Block.write
  written-full a = elim (Bool-cases (a == 4096)) [
    | inl e ↦ rw e (image-full (new_block count))
    | inr e ↦ rw e (f.full a)
  ]

  written-bytes : (a j : ℕ) → get_or (SuperBlock.write d (new_block count) a) j 0 < 256
  unfolding SuperBlock.write Block.write SuperBlock.new
  written-bytes a j = elim (Bool-cases (a == 4096)) [
    | inl e ↦ rw e (image-IsBytes (new_block count) IsBytes-signature (omega arith) j)
    | inr e ↦ rw e (f.bytes a j)
  ]

  cleared-IsFormatted : IsFormatted (cleared count d)
  unfolding SuperBlock.new
  cleared-IsFormatted = record {
    sized = rw read-cleared refl;
    holds = rw read-cleared (let l = f.large in let n = f.small in omega (arith, l, n));
    small = rw read-cleared (let n = f.small in omega (arith, n));
    full = λ a. elim (cleared_lem a) [ inl e ↦ rw e refl | inr e ↦ rw e (written-full a) ];
    bytes = λ a j. elim (cleared_lem a) [
      | inl e ↦ rw e (IsBytes-replicate 512 0 (omega arith) j)
      | inr e ↦ rw e (written-bytes a j)
    ];
  }

-- `Dir::root()` writes nothing, and its block is the first of the data area.
root_dir-keeps :
    (rounds time : ℕ) (x y : Disk) (r : Dir)
    → Dir.root_dir rounds time x ≡ ok (r, y)
    → ((node r).addr ≡ data_of x) × (y ≡ x)
unfolding Dir.root_dir Dir.update_size
root_dir-keeps rounds time x y r h = go _ h
  where
    with_size : ℕ → Dir × Disk
    with_size size = (
      Dir.root (record { name = []; addr = data_of x; size = size % 4294967296; entry_index = 0 }),
      x,
    )

    go :
        (sum : Run ℕ)
        → sum >>= (λ size. ok (with_size size)) ≡ ok (r, y)
        → ((node r).addr ≡ data_of x) × (y ≡ x)
    go (ok size) e =
        let same : (with_size size).0 ≡ r = cc e in
        let same_disk : x ≡ y = cc e in (rw (sym same) refl, sym same_disk)
    go panic e = cc e
    go stuck e = cc e

module _ ⦃bits : BitField⦄ where
  alloc-keeps :
      (x : Disk) (a : ℕ)
      → IsFormatted x
      → InBitmap x 0
      → data_of x ≤ a
      → Bitmap.alloc x (data_of x + 0) a ≡ x a
  alloc-keeps x a f i above = elim (Bool-cases (is_allocated x (data_of x + 0))) [
    | inl taken ↦ unfold Bitmap.alloc is_allocated in rw taken refl
    | inr clear ↦ (alloc-Marks x 0 f i clear).blocks_kept a above
  ]

  cleared-data :
      (d : Disk) (count a : ℕ)
      → IsFormattable d count
      → SuperBlock.data_area (new_block count) ≤ a
      → cleared count d a ≡ d a
  cleared-data d count a f above =
      let written = SuperBlock.write d (new_block count) in
      let low = order d count f in
      let start = areas_new d count f in
      (free_all_lem written a).1 (inr (rw (read-written d count f) above)) (omega (arith, low))
      ∙ written-data d count f a (omega (arith, above, start.1))

  -- If formatting a disk of at least 8195 blocks and less than 512 MB returns, every block of the
  -- data area, that of the root directory included, is as it was before.
  pub format_ata-keeps :
      (rounds time count : ℕ) (d e : Disk) (a : ℕ)
      → IsFormattable d count
      → format_ata rounds time count d ≡ ok e
      → SuperBlock.data_area (SuperBlock.new 512 count) ≤ a
      → e a ≡ d a
  unfolding format_ata
  format_ata-keeps rounds time count d e a f done above =
      go (Dir.root_dir rounds time (cleared count d)) refl done
    where
      formatted : IsFormatted (cleared count d)
      formatted = cleared-IsFormatted d count f

      start : InBitmap (cleared count d) 0
      start = rw (read-cleared d count f) (let z = areas_new d count f in omega (arith, z.0, z.1))

      go :
          (r : Run (Dir × Disk))
          → Dir.root_dir rounds time (cleared count d) ≡ r
          → r >>= (λ x. ok (Bitmap.alloc x.1 (node x.0).addr)) ≡ ok e
          → e a ≡ d a
      go (ok (r, y)) at_root h =
          let (addr, same) = root_dir-keeps rounds time (cleared count d) y r at_root in
          let made : Bitmap.alloc y (node r).addr ≡ e = cc h in
          let z : data_of (cleared count d) + 0 ≡ data_of (cleared count d) = omega arith in
          let at_start : Bitmap.alloc (cleared count d) (data_of (cleared count d) + 0) ≡ e =
            ap (Bitmap.alloc (cleared count d)) z
            ∙ (λ t. Bitmap.alloc (sym same t) (sym addr t))
            ∙ made in
          (λ t. sym at_start t a)
          ∙ alloc-keeps (cleared count d) a formatted start (rw (read-cleared d count f) above)
          ∙ cleared-data d count a f above
      go panic at_root h = cc h
      go stuck at_root h = cc h
