-- ===== src/Fs/Bitmap/Allocation.antt =====
-- src/sys/fs/bitmap_block.rs: allocation as a client sees it, block by block.
use moros.Prelude.{
  ℕ, ◌+◌, ◌*◌, ◌/◌, ◌%◌, ◌≤◌, ◌<◌, ◌≡◌, ◌≢◌, refl, sym, subst, ◌∙◌, ap, inl, inr, Bool, true, false,
  Option, none, some, arith, dec_eq, lt_or_ge,
}
use moros.Word.{u32_mod, add32, sub32}
use moros.Fs.Block
use moros.Fs.Block.{Disk}
use moros.Fs.SuperBlock
use moros.Fs.SuperBlock.{SuperBlock}
use moros.Fs.SuperBlock.Laws.{data_area-width}
use moros.Fs.Bitmap.{BitField, bit_of, alloc, free, next_free_addr}
use moros.Fs.Bitmap.Laws.{IsFormatted, data_of, bitmap_of, is_allocated, is_allocated-offset}
use moros.Fs.Bitmap.Marks.{
  InBitmap, alloc-counted, free-counted, counted-IsFormatted, areas-counted, read-counted,
  read-marked, counted, is_allocated-counted_self, is_allocated-counted_ne, counted_data,
}
use moros.Fs.Bitmap.Search.{IsFirstFree, Searched, next_free_addr_lem}

module _ ⦃bits : BitField⦄ where
  -- `e` is `d` with the value `v` for the bit of offset `off` and `count` as allocation count.
  pub record Marks (d e : Disk) (off : ℕ) (v : Bool) (count : ℕ) : Type 0 where
    pub formatted : IsFormatted e
    pub data_kept : data_of e ≡ data_of d
    pub bitmap_kept : bitmap_of e ≡ bitmap_of d
    pub counts : SuperBlock.read e ≡ record (SuperBlock.read d) { alloc_count = count }
    pub here : is_allocated e (data_of d + off) ≡ v
    pub others :
        (o : ℕ)
        → o < 1048576
        → (o / 4096 ≡ off / 4096 → o % 512 ≢ off % 512)
        → is_allocated e (data_of d + o) ≡ is_allocated d (data_of d + o)
    pub blocks_kept : (a : ℕ) → data_of d ≤ a → e a ≡ d a

  InBitmap-lt : (d : Disk) (off : ℕ) → IsFormatted d → InBitmap d off → off < 1048576
  InBitmap-lt d off f i = omega (arith, i.0, data_area-width (SuperBlock.read d) f.small f.holds)

  module _ (d : Disk) (off : ℕ) (f : IsFormatted d) (i : InBitmap d off) where
    abbrev lt : off < 1048576
    lt = InBitmap-lt d off f i

    counted-Marks : (v : Bool) (c : ℕ) → c < u32_mod → Marks d (counted d off f lt v c) off v c
    counted-Marks v c k = record {
      formatted = counted-IsFormatted d off f lt v c k;
      data_kept = (areas-counted d off f lt v c k).0;
      bitmap_kept = (areas-counted d off f lt v c k).1;
      counts = read-counted d off f lt v c k;
      here = is_allocated-counted_self d off f lt v c k;
      others = λ o h ne. is_allocated-counted_ne d off f lt v c o k h ne;
      blocks_kept = λ a h. counted_data d off f lt v c a (omega (arith, i.0)) h;
    }

    -- On a formatted disk, allocating a clear block of the bitmap sets its bit and counts it, keeps
    -- the bits of all blocks that do not share it and every data block, and leaves the disk
    -- formatted.
    pub alloc-Marks :
        is_allocated d (data_of d + off) ≡ false
        → Marks d (alloc d (data_of d + off)) off true (add32 (SuperBlock.read d).alloc_count 1)
    alloc-Marks clear = rw (alloc-counted d off f lt clear) (
        subst
          (λ (t : SuperBlock).
            Marks d (counted d off f lt true (add32 t.alloc_count 1)) off true
              (add32 (SuperBlock.read d).alloc_count 1))
          (sym (read-marked d off f lt true))
          (counted-Marks true (add32 (SuperBlock.read d).alloc_count 1) (omega arith)))

    -- On a formatted disk, freeing a block of the bitmap, whether it was allocated or not, clears
    -- its bit and takes one off the count, keeps the bits of all blocks that do not share it and
    -- every data block, and leaves the disk formatted.
    pub free-Marks :
        Marks d (free d (data_of d + off)) off false (sub32 (SuperBlock.read d).alloc_count 1)
    free-Marks = rw (free-counted d off f lt) (
        subst
          (λ (t : SuperBlock).
            Marks d (counted d off f lt false (sub32 t.alloc_count 1)) off false
              (sub32 (SuperBlock.read d).alloc_count 1))
          (sym (read-marked d off f lt false))
          (counted-Marks false (sub32 (SuperBlock.read d).alloc_count 1) (omega arith)))

  -- Some bit of the bitmap area is clear.
  abbrev pub HasRoom : Disk → Type 0
  HasRoom d = (o : ℕ) × InBitmap d o × (is_allocated d (data_of d + o) ≡ false)

  IsFirstFree-InBitmap :
      (d : Disk) (a : ℕ) (r : HasRoom d) (i : IsFirstFree d a) → InBitmap d i.offset
  IsFirstFree-InBitmap d a (o, (low, win), clear) i = elim (lt_or_ge o i.offset) [
    | inl before ↦ cc (clear, i.first o before win)
    | inr at_most ↦ (omega arith, i.window)
  ]

  -- On a formatted disk with a clear bit in its bitmap, the search returns an address of the bitmap
  -- whose bit is clear.
  pub next_free_addr-HasRoom :
      (d : Disk)
      → IsFormatted d
      → HasRoom d
      → (off : ℕ) × (next_free_addr d ≡ some (data_of d + off))
        × InBitmap d off
        × (is_allocated d (data_of d + off) ≡ false)
  next_free_addr-HasRoom d f r = go (next_free_addr d) refl (next_free_addr_lem d f)
    where
      go :
          (n : Option ℕ)
          → next_free_addr d ≡ n
          → Searched d n
          → (off : ℕ) × (next_free_addr d ≡ some (data_of d + off))
            × InBitmap d off
            × (is_allocated d (data_of d + off) ≡ false)
      go none e all =
          let wide = data_area-width (SuperBlock.read d) f.small f.holds in
          cc (r.2, all r.0 (omega (arith, r.1.0)) r.1.1)
      go (some a) e i = (
        i.offset,
        e ∙ ap some i.at_offset,
        IsFirstFree-InBitmap d a r i,
        ap (is_allocated d) (sym i.at_offset) ∙ i.clear,
      )

  -- On a formatted disk with a clear bit in its bitmap, an address that was found and allocated is
  -- not the next one that is found.
  pub next_free_addr-alloc :
      (d : Disk) (a b : ℕ)
      → IsFormatted d
      → HasRoom d
      → next_free_addr d ≡ some a
      → next_free_addr (alloc d a) ≡ some b
      → a ≢ b
  next_free_addr-alloc d a b f r e e' same =
      let (off, found, i, clear) = next_free_addr-HasRoom d f r in
      let at : data_of d + off ≡ a = ground (arith, found) in
      let m = alloc-Marks d off f i clear in
      let f' : IsFormatted (alloc d a) = subst (λ t. IsFormatted (alloc d t)) at m.formatted in
      let next : IsFirstFree (alloc d a) b =
        subst (Searched (alloc d a)) e' (next_free_addr_lem (alloc d a) f') in
      let taken : is_allocated (alloc d a) a ≡ true =
        subst (λ t. is_allocated (alloc d t) t ≡ true) at m.here in
      cc (subst (λ t. is_allocated (alloc d a) t ≡ true) same taken, next.clear)

  -- Two offsets with the same bit.
  same_bit :
      (d : Disk) (o off : ℕ)
      → IsFormatted d
      → o < 1048576
      → off < 1048576
      → o / 4096 ≡ off / 4096
      → o % 512 ≡ off % 512
      → is_allocated d (data_of d + o) ≡ is_allocated d (data_of d + off)
  same_bit d o off f h k q r =
      is_allocated-offset d o f h
      ∙ (λ t. bit_of (Block.read d (bitmap_of d + q t)) (r t))
      ∙ sym (is_allocated-offset d off f k)

  -- On a formatted disk, freeing a block of the bitmap that was clear and was just allocated gives
  -- back every bit of the bitmap, the superblock, and all data blocks.
  pub free-alloc :
      (d : Disk) (off : ℕ)
      → IsFormatted d
      → InBitmap d off
      → (SuperBlock.read d).alloc_count < u32_mod
      → is_allocated d (data_of d + off) ≡ false
      → let e = free (alloc d (data_of d + off)) (data_of d + off) in
        (SuperBlock.read e ≡ SuperBlock.read d)
        × ((o : ℕ) → o < 1048576 → is_allocated e (data_of d + o) ≡ is_allocated d (data_of d + o))
        × ((a : ℕ) → data_of d ≤ a → e a ≡ d a)
  free-alloc d off f i c clear = (
    second.counts
        ∙ ap (λ (t : SuperBlock). record t { alloc_count = sub32 t.alloc_count 1 }) first.counts
        ∙ ap (λ n. record (SuperBlock.read d) { alloc_count = n }) (omega (arith, c)),
    bit,
    λ a h. second.blocks_kept a (rw first.data_kept h) ∙ first.blocks_kept a h,
  )
    where
      taken : Disk
      taken = alloc d (data_of d + off)

      first : Marks d taken off true (add32 (SuperBlock.read d).alloc_count 1)
      first = alloc-Marks d off f i clear

      second :
          Marks taken
            (free taken (data_of d + off))
            off
            false
            (sub32 (SuperBlock.read taken).alloc_count 1)
      second =
          subst
            (λ t.
              Marks taken (free taken (t + off)) off false
                (sub32 (SuperBlock.read taken).alloc_count 1))
            first.data_kept
            (free-Marks taken off first.formatted (rw (first.data_kept, first.bitmap_kept) i))

      lt : off < 1048576
      lt = InBitmap-lt d off f i

      given : is_allocated (free taken (data_of d + off)) (data_of d + off) ≡ false
      given =
          ap (λ t. is_allocated (free taken (data_of d + off)) (t + off)) (sym first.data_kept)
          ∙ second.here

      far :
          (o : ℕ)
          → o < 1048576
          → (o / 4096 ≡ off / 4096 → o % 512 ≢ off % 512)
          → is_allocated (free taken (data_of d + off)) (data_of d + o)
            ≡ is_allocated d (data_of d + o)
      far o h ne =
          ap (λ t. is_allocated (free taken (data_of d + off)) (t + o)) (sym first.data_kept)
          ∙ second.others o h ne
          ∙ ap (λ t. is_allocated taken (t + o)) first.data_kept
          ∙ first.others o h ne

      same_on :
          (e : Disk)
          → IsFormatted e
          → data_of e ≡ data_of d
          → (o : ℕ) → o < 1048576
          → o / 4096 ≡ off / 4096
          → o % 512 ≡ off % 512
          → is_allocated e (data_of d + o) ≡ is_allocated e (data_of d + off)
      same_on e fe p o h q r =
          subst (λ t. is_allocated e (t + o) ≡ is_allocated e (t + off)) p
            (same_bit e o off fe h lt q r)

      bit :
          (o : ℕ)
          → o < 1048576
          → is_allocated (free taken (data_of d + off)) (data_of d + o)
            ≡ is_allocated d (data_of d + o)
      bit o h = elim (dec_eq (o / 4096) (off / 4096)) [
        | inr ne ↦ far o h (λ q. absurd (ne q))
        | inl q ↦ elim (dec_eq (o % 512) (off % 512)) [
          | inr ne ↦ far o h (λ _. ne)
          | inl r ↦
              same_on (free taken (data_of d + off)) second.formatted
                (second.data_kept ∙ first.data_kept) o h q r
              ∙ given
              ∙ sym clear
              ∙ sym (same_on d f refl o h q r)
        ]
      ]

  -- On a formatted disk the search reads at least one block of the data area as if it were bitmap.
  pub scan_overruns :
      (d : Disk) → IsFormatted d → data_of d < bitmap_of d + (SuperBlock.read d).block_count / 4096
  scan_overruns d f = (data_area-width (SuperBlock.read d) f.small f.holds).1

  -- On a formatted disk, eight offsets of each 4096 share a bit: an offset of the first 512 and
  -- those that are a multiple of 512, up to seven times, above it.
  pub bits_shared :
      (d : Disk) (off k : ℕ)
      → IsFormatted d
      → off < 1044480
      → off % 4096 < 512
      → k < 8
      → is_allocated d (data_of d + (off + 512 * k)) ≡ is_allocated d (data_of d + off)
  bits_shared d off k f h w l =
      same_bit d (off + 512 * k) off f (omega arith) (omega arith) (omega arith) (omega arith)
