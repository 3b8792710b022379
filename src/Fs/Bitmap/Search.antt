-- ===== src/Fs/Bitmap/Search.antt =====
-- src/sys/fs/bitmap_block.rs: the loops of `next_free_addr`.
use mathlib.Core.Option
use moros.Prelude.{
  ℕ, zero, suc, ◌+◌, ◌-◌, ◌*◌, ◌/◌, ◌%◌, ◌≤◌, ◌<◌, ◌≡◌, refl, sym, ◌∙◌, ap, inl, inr, Bool, true,
  false, Option, none, some, arith, get_or, Bool-cases, lt_or_ge,
}
use moros.Word.{add32, mul32}
use moros.Fs.Block
use moros.Fs.Block.{Disk, Block}
use moros.Fs.SuperBlock
use moros.Fs.SuperBlock.{SuperBlock, bitmap_area, data_area}
use moros.Fs.Bitmap.{BitField, bit_of, find_bit, find_byte, find_block, next_free_addr}
use moros.Fs.Bitmap.Laws.{IsFormatted, data_of, bitmap_of, areas, is_allocated, is_allocated-offset}

-- The result of a search for the first clear position from `lo` up to `hi`.
abbrev pub FirstClear : (ℕ → Bool) → ℕ → ℕ → Option ℕ → Type 0
FirstClear p lo hi none = (x : ℕ) → lo ≤ x → x < hi → p x ≡ true
FirstClear p lo hi (some y) =
    (lo ≤ y) × (y < hi) × (p y ≡ false) × ((x : ℕ) → lo ≤ x → x < y → p x ≡ true)

-- A search of two ranges, one after the other.
FirstClear-skip :
    (p : ℕ → Bool) (lo mid hi : ℕ) (r : Option ℕ)
    → lo ≤ mid
    → ((x : ℕ) → lo ≤ x → x < mid → p x ≡ true)
    → FirstClear p mid hi r
    → FirstClear p lo hi r
FirstClear-skip p lo mid hi none h all rest =
    λ x a b. elim (lt_or_ge x mid) [ inl c ↦ all x a c | inr c ↦ rest x c b ]
FirstClear-skip p lo mid hi (some y) h all rest = (
  omega arith,
  rest.1,
  rest.2,
  λ x a b. elim (lt_or_ge x mid) [ inl c ↦ all x a c | inr c ↦ rest.3 x c b ],
)

FirstClear-widen :
    (p : ℕ → Bool) (lo mid hi y : ℕ)
    → mid ≤ hi
    → FirstClear p lo mid (some y)
    → FirstClear p lo hi (some y)
FirstClear-widen p lo mid hi y h f = (f.0, omega arith, f.2, f.3)

FirstClear-empty : (p : ℕ → Bool) (lo hi : ℕ) → hi ≤ lo → FirstClear p lo hi none
FirstClear-empty p lo hi h = λ x a b. absurd (omega arith)

abbrev positions : ℕ → Option ℕ → Option ℕ
positions base none = none
positions base (some k) = some (base + k)

abbrev pair_position : Option (ℕ × ℕ) → Option ℕ
pair_position none = none
pair_position (some (j, k)) = some (j * 8 + k)

module _ ⦃bits : BitField⦄ where
  find_bit-FirstClear :
      (p : ℕ → Bool) (base byte left k lo hi : ℕ)
      → ((x : ℕ) → x < 8 → p (base + x) ≡ bits.get_bit byte x)
      → k + left ≤ 8
      → base + k ≡ lo
      → base + (k + left) ≡ hi
      → FirstClear p lo hi (positions base (find_bit byte left k))
  unfolding find_bit
  find_bit-FirstClear p base byte zero k lo hi e h l u = FirstClear-empty p _ _ (omega arith)
  find_bit-FirstClear p base byte (suc left) k lo hi e h l u =
      elim (Bool-cases (bits.get_bit byte k)) [
        | inl t ↦ rw t (
            FirstClear-skip p lo (lo + 1) hi _ (omega arith)
              (λ x a b. let q : x ≡ base + k = omega arith in rw q (e k (omega arith) ∙ t))
              (find_bit-FirstClear p base byte left (k + 1) (lo + 1) hi e (omega arith)
                (omega arith) (omega arith)))
        | inr t ↦
            rw t (omega arith, omega arith, e k (omega arith) ∙ t, λ x a b. absurd (omega arith))
      ]

  bit_of-byte :
      (b : Block) (j x : ℕ) → x < 8 → bit_of b (j * 8 + x) ≡ bits.get_bit (get_or b.buf j 0) x
  unfolding bit_of
  bit_of-byte b j x h =
      let q : (j * 8 + x) / 8 ≡ j = omega arith in
      let r : (j * 8 + x) % 8 ≡ x = omega arith in λ i. bits.get_bit (get_or b.buf (q i) 0) (r i)

  find_byte-FirstClear :
      (b : Block) (left j lo hi : ℕ)
      → j * 8 ≡ lo
      → (j + left) * 8 ≡ hi
      → FirstClear (bit_of b) lo hi (pair_position (find_byte b left j))
  unfolding find_byte
  find_byte-FirstClear b zero j lo hi l u = FirstClear-empty (bit_of b) _ _ (omega arith)
  find_byte-FirstClear b (suc left) j lo hi l u =
      go (find_bit (get_or b.buf j 0) 8 0)
        (find_bit-FirstClear (bit_of b) (j * 8) (get_or b.buf j 0) 8 0 lo (lo + 8) (bit_of-byte b j)
          (omega arith) (omega arith) (omega arith))
        (find_byte-FirstClear b left (j + 1) (lo + 8) hi (omega arith) (omega arith))
    where
      go :
          (r : Option ℕ)
          → FirstClear (bit_of b) lo (lo + 8) (positions (j * 8) r)
          → FirstClear (bit_of b) (lo + 8) hi (pair_position (find_byte b left (j + 1)))
          → FirstClear
              (bit_of b)
              lo
              hi
              (pair_position (elim r [ some k ↦ some (j, k) | none ↦ find_byte b left (j + 1) ]))
      go none all rest = FirstClear-skip (bit_of b) lo (lo + 8) hi _ (omega arith) all rest
      go (some k) found rest =
          FirstClear-widen (bit_of b) lo (lo + 8) hi (j * 8 + k) (omega arith) found

  -- Position `x` of the bitmap that starts at `start`: bit `x % 512` of its block `x / 512`.
  abbrev bit_at : Disk → ℕ → ℕ → Bool
  bit_at d start x = bit_of (Block.read d (start + x / 512)) (x % 512)

  -- The address that the search returns for a position.
  abbrev address_of : ℕ → ℕ → ℕ
  address_of start x = start + (x / 512 * 4096 + x % 512)

  module _ (d : Disk) (f : IsFormatted d) where
    abbrev sb : SuperBlock
    sb = SuperBlock.read d

    abbrev from_block : ℕ → Option (ℕ × ℕ) → Option ℕ → Option ℕ
    from_block i none rest = rest
    from_block i (some (j, k)) rest =
        some (add32 (add32 (add32 (data_area sb) (mul32 i SuperBlock.bitmap_size)) (mul32 j 8)) k)

    find_block_step :
        (left i : ℕ)
        → i < 256
        → find_block d sb (suc left) i
          ≡ from_block i
              (find_byte (Block.read d (bitmap_of d + i)) 64 0)
              (find_block d sb left (i + 1))
    unfolding find_block
    find_block_step left i h =
        let a = areas d f in
        let home : add32 (bitmap_area sb) i ≡ bitmap_of d + i = omega (arith, a) in
        let size : sb.block_size / 8 ≡ 64 = omega (arith, f.sized) in
        (λ t. shown (find_byte (Block.read d (home t)) (size t) 0))
        ∙ same (find_byte (Block.read d (bitmap_of d + i)) 64 0)
      where
        shown : Option (ℕ × ℕ) → Option ℕ
        shown r = elim r [
          | some (j, k) ↦
              some (
                add32 (add32 (add32 (data_area sb) (mul32 i SuperBlock.bitmap_size)) (mul32 j 8)) k)
          | none ↦ find_block d sb left (i + 1)
        ]

        same : (r : Option (ℕ × ℕ)) → shown r ≡ from_block i r (find_block d sb left (i + 1))
        same none = refl
        same (some (j, k)) = refl

    abbrev Finds : ℕ → ℕ → Option ℕ → Type 0
    Finds lo hi out =
        (r : Option ℕ) × (out ≡ Option.map (address_of (data_of d)) r)
        × FirstClear (bit_at d (bitmap_of d)) lo hi r

    bit_at-block :
        (i x : ℕ) (v : Bool)
        → i * 512 ≤ x
        → x < (i + 1) * 512
        → bit_of (Block.read d (bitmap_of d + i)) (x - i * 512) ≡ v
        → bit_at d (bitmap_of d) x ≡ v
    bit_at-block i x v a b h =
        let q : x / 512 ≡ i = omega arith in
        let r : x % 512 ≡ x - i * 512 = omega arith in
        (λ t. bit_of (Block.read d (bitmap_of d + q t)) (r t)) ∙ h

    Finds-from_block :
        (i hi : ℕ) (r : Option (ℕ × ℕ)) (rest : Option ℕ)
        → i < 256
        → (i + 1) * 512 ≤ hi
        → FirstClear (bit_of (Block.read d (bitmap_of d + i))) 0 512 (pair_position r)
        → Finds ((i + 1) * 512) hi rest
        → Finds (i * 512) hi (from_block i r rest)
    Finds-from_block i hi none rest h l all (found, e, first) = (
      found,
      e,
      FirstClear-skip _ (i * 512) ((i + 1) * 512) hi found (omega arith)
          (λ x a b. bit_at-block i x true a b (all (x - i * 512) (omega arith) (omega arith)))
          first,
    )
    Finds-from_block i hi (some (j, k)) rest h l found next =
        let a = areas d f in
        let p : ℕ = j * 8 + k in
        (
          some (i * 512 + p),
          ap some (omega (arith, a)),
          (
            omega arith,
            omega arith,
            bit_at-block i (i * 512 + p) false (omega arith) (omega arith) (
                ap (bit_of (Block.read d (bitmap_of d + i)))
                  (let e : i * 512 + p - i * 512 ≡ p = omega arith in e)
                ∙ found.2),
            λ x lo up.
                bit_at-block i x true lo (omega arith)
                  (found.3 (x - i * 512) (omega arith) (omega arith)),
          ),
        )

    find_block-Finds :
        (left i hi : ℕ)
        → i + left ≤ 256
        → (i + left) * 512 ≡ hi
        → Finds (i * 512) hi (find_block d sb left i)
    find_block-Finds zero i hi h u =
        (none, unfold find_block in refl, FirstClear-empty _ _ _ (omega arith))
    find_block-Finds (suc left) i hi h u =
        rw (find_block_step, (let lt : i < 256 = omega arith in lt))
          (Finds-from_block i hi (find_byte (Block.read d (bitmap_of d + i)) 64 0)
            (find_block d sb left (i + 1)) (omega arith) (omega arith)
            (find_byte-FirstClear (Block.read d (bitmap_of d + i)) 64 0 0 512 refl refl)
            (find_block-Finds left (i + 1) hi (omega arith) (omega arith)))

    next_free_addr-Finds : Finds 0 (sb.block_count / 4096 * 512) (next_free_addr d)
    unfolding next_free_addr
    next_free_addr-Finds =
        rw (rounds (sb.block_count) (sb.block_size) f.sized)
          (find_block-Finds (sb.block_count / 4096) 0 _ (omega (arith, f.small)) (omega arith))
      where
        rounds : (count size : ℕ) → size ≡ 512 → count / size / 8 ≡ count / 4096
        rounds count size e = rw e (omega arith)

    -- The position of an offset that the search looks at.
    is_allocated-position :
        (o : ℕ)
        → o < 1048576
        → o % 4096 < 512
        → is_allocated d (data_of d + o) ≡ bit_at d (bitmap_of d) (o / 4096 * 512 + o % 512)
    is_allocated-position o h w =
        let q : (o / 4096 * 512 + o % 512) / 512 ≡ o / 4096 = omega arith in
        let r : (o / 4096 * 512 + o % 512) % 512 ≡ o % 512 = omega arith in
        is_allocated-offset d o f h ∙ λ t. bit_of (Block.read d (bitmap_of d + sym q t)) (sym r t)

  -- What `next_free_addr` returns: the first clear bit among the first 512 of each 4096 offsets.
  pub record IsFirstFree (d : Disk) (a : ℕ) : Type 0 where
    pub offset : ℕ
    pub at_offset : a ≡ data_of d + offset
    pub scanned : offset / 4096 < (SuperBlock.read d).block_count / 4096
    pub window : offset % 4096 < 512
    pub clear : is_allocated d a ≡ false
    pub first : (o : ℕ) → o < offset → o % 4096 < 512 → is_allocated d (data_of d + o) ≡ true

  abbrev pub Searched : Disk → Option ℕ → Type 0
  Searched d none =
      (o : ℕ)
      → o / 4096 < (SuperBlock.read d).block_count / 4096
      → o % 4096 < 512
      → is_allocated d (data_of d + o) ≡ true
  Searched d (some a) = IsFirstFree d a

  Searched-of_found :
      (d : Disk) (f : IsFormatted d) (r : Option ℕ)
      → FirstClear (bit_at d (bitmap_of d)) 0 ((SuperBlock.read d).block_count / 4096 * 512) r
      → Searched d (Option.map (address_of (data_of d)) r)
  Searched-of_found d f none all = λ o h w.
      is_allocated-position d f o (omega (arith, f.small)) w
      ∙ all (o / 4096 * 512 + o % 512) (omega arith) (omega arith)
  Searched-of_found d f (some x) (lo, up, clear, first) = record {
    offset = x / 512 * 4096 + x % 512;
    at_offset = refl;
    scanned = omega arith;
    window = omega arith;
    clear =
        is_allocated-position d f (x / 512 * 4096 + x % 512) (omega (arith, f.small)) (omega arith)
        ∙ ap (bit_at d (bitmap_of d)) (
            let e : (x / 512 * 4096 + x % 512) / 4096 * 512 + (x / 512 * 4096 + x % 512) % 512 ≡ x =
              omega arith in
            e)
        ∙ clear;
    first = λ o h w.
        is_allocated-position d f o (omega (arith, f.small)) w
        ∙ first (o / 4096 * 512 + o % 512) (omega arith) (omega arith);
  }

  -- On a formatted disk `next_free_addr` returns the first address with a clear bit among the first
  -- 512 of each 4096 offsets of the data area, for the `block_count / 4096` blocks that it reads as
  -- bitmap, and `none` only if all those bits are set.
  pub next_free_addr_lem : (d : Disk) → IsFormatted d → Searched d (next_free_addr d)
  next_free_addr_lem d f =
      let (r, e, found) = next_free_addr-Finds d f in rw e (Searched-of_found d f r found)
