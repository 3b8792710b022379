-- ===== src/Fs/Slots.antt =====
-- src/sys/fs/dir.rs and read_dir.rs: entries of a block as they are written and as they are read.
use moros.Prelude.{
  ℕ, zero, suc, ◌+◌, ◌-◌, ◌≤◌, ◌<◌, ◌%◌, ◌≡◌, ◌≢◌, refl, sym, ◌∙◌, ap, ◌||◌, ◌⊎◌, inl, inr, none,
  some, List, [], ◌∷◌, ◌++◌, arith, length, take, drop, get_or, slice, take-length-append,
  drop-drop, get_or-drop, ltb, leb, ◌==◌, if◌then◌else◌, Bool-cases,
}
use moros.Word.{to_be_bytes, from_be_bytes, from_be_bytes-to_be_bytes}
use moros.Fs.Linked.{data_len}
use moros.Fs.Entry.{FileType, dir, file, device, kind_byte, file_type, empty_len}
use moros.Fs.Dir.{encode, truncate_at, truncate}
use moros.Fs.ReadDir.{Seen, no_entry, deleted, found, read_entry}

-- `read_entry` on the fields that it reads.
abbrev look : ℕ → ℕ → ℕ → ℕ → ℕ → (ℕ → List ℕ) → ℕ → Seen
look kind addr size time n name offset =
    if leb (data_len - empty_len) offset then no_entry else elim (file_type kind) [
      | none ↦ no_entry
      | some k ↦
          if n == 0 || leb (data_len - (offset + 18)) n
          then no_entry
          else if addr == 0
          then deleted (offset + 18 + n)
          else found k addr size time (name n) (offset + 18 + n)
    ]

module _ (bytes ys : List ℕ) (off : ℕ) (at : drop off bytes ≡ ys) where
  slice-at : (a b : ℕ) → slice (off + a) (off + b) bytes ≡ take (b - a) (drop a ys)
  slice-at a b =
      let e : off + b - (off + a) ≡ b - a = omega arith in
      (λ i. take (e i) (sym (drop-drop a off bytes) i)) ∙ ap (λ t. take (b - a) (drop a t)) at

  get_or-at : (a : ℕ) → get_or bytes (off + a) 0 ≡ get_or ys a 0
  get_or-at a = sym (get_or-drop off a bytes 0) ∙ ap (λ t. get_or t a 0) at

  -- Reading at an offset is reading the rest of the block.
  read_entry-look :
      read_entry bytes off
      ≡ look
          (get_or ys 0 0)
          (from_be_bytes (take 4 (drop 1 ys)))
          (from_be_bytes (take 4 (drop 5 ys)))
          (from_be_bytes (take 8 (drop 9 ys)))
          (get_or ys 17 0)
          (λ n. take n (drop 18 ys))
          off
  unfolding read_entry
  read_entry-look = λ i.
      look (kind i) (from_be_bytes (slice-at 1 5 i)) (from_be_bytes (slice-at 5 9 i))
        (from_be_bytes (slice-at 9 17 i)) (get_or-at 17 i) (λ n. name n i) off
    where
      kind : get_or bytes off 0 ≡ get_or ys 0 0
      kind = ap (λ t. get_or bytes t 0) (let e : off ≡ off + 0 = omega arith in e) ∙ get_or-at 0

      name : (n : ℕ) → slice (off + 18) (off + 18 + n) bytes ≡ take n (drop 18 ys)
      name n =
          let e : off + 18 + n ≡ off + (18 + n) = omega arith in
          let m : 18 + n - 18 ≡ n = omega arith in
          ap (λ t. slice (off + 18) t bytes) e
          ∙ slice-at 18 (18 + n)
          ∙ ap (λ t. take t (drop 18 ys)) m

-- The same, once the kind is known.
abbrev look_in : FileType → ℕ → ℕ → ℕ → ℕ → (ℕ → List ℕ) → ℕ → Seen
look_in k addr size time n name offset =
    if leb (data_len - empty_len) offset
    then no_entry
    else if n == 0 || leb (data_len - (offset + 18)) n
    then no_entry
    else if addr == 0
    then deleted (offset + 18 + n)
    else found k addr size time (name n) (offset + 18 + n)

look-kind_byte :
    (k : FileType) (addr size time n : ℕ) (name : ℕ → List ℕ) (offset : ℕ)
    → look (kind_byte k) addr size time n name offset ≡ look_in k addr size time n name offset
look-kind_byte dir a s t n name o = refl
look-kind_byte file a s t n name o = refl
look-kind_byte device a s t n name o = refl

look_in-found :
    (k : FileType) (addr size time n : ℕ) (name : ℕ → List ℕ) (offset : ℕ)
    → addr ≢ 0
    → 0 < n
    → offset + 18 + n < data_len
    → look_in k addr size time n name offset ≡ found k addr size time (name n) (offset + 18 + n)
look_in-found k a s t n name o live named room = ground arith

look_in-no_entry :
    (k : FileType) (addr size time n : ℕ) (name : ℕ → List ℕ) (offset : ℕ)
    → (n ≡ 0) ⊎ (data_len ≤ offset + 18 + n)
    → look_in k addr size time n name offset ≡ no_entry
look_in-no_entry k a s t n name o (inl e) = ground arith
look_in-no_entry k a s t n name o (inr e) = ground arith

-- The fields of a new entry fit.
pub record Fits (a s t : ℕ) : Type 0 where
  pub addr : a < 4294967296
  pub size : s < 4294967296
  pub time : t < 18446744073709551616

module _ (k : FileType) (addr size time : ℕ) (name rest : List ℕ) (f : Fits addr size time) where
  look-encode :
      (bytes : List ℕ) (off : ℕ)
      → drop off bytes ≡ encode k addr size time name ++ rest
      → read_entry bytes off
        ≡ look (kind_byte k) addr size time (length name % 256) (λ n. take n (name ++ rest)) off
  unfolding encode to_be_bytes
  look-encode bytes off at =
      read_entry-look bytes (encode k addr size time name ++ rest) off at ∙ λ i.
      look (kind_byte k) (from_be_bytes-to_be_bytes 4 addr f.addr i)
        (from_be_bytes-to_be_bytes 4 size f.size i) (from_be_bytes-to_be_bytes 8 time f.time i)
        (length name % 256) (λ n. take n (name ++ rest)) off

  -- An entry that `create_entry` encodes in a block, with an address that is not 0, a name of 1 to
  -- 255 bytes and an end before the last byte of the block, is read back with its kind, address,
  -- size, time and name, and the cursor behind it.
  pub read_entry-encode :
      (bytes : List ℕ) (off : ℕ)
      → drop off bytes ≡ encode k addr size time name ++ rest
      → addr ≢ 0
      → 0 < length name
      → length name < 256
      → off + 18 + length name < data_len
      → read_entry bytes off ≡ found k addr size time name (off + 18 + length name)
  read_entry-encode bytes off at live named short room =
      look-encode bytes off at
      ∙ look-kind_byte k addr size time (length name % 256) (λ n. take n (name ++ rest)) off
      ∙ look_in-found k addr size time (length name % 256) (λ n. take n (name ++ rest)) off live
          (omega (arith, named, short)) (omega (arith, room, short))
      ∙ λ i. found k addr size time (whole i) (off + 18 + whole_len i)
    where
      whole_len : length name % 256 ≡ length name
      whole_len = omega (arith, short)

      whole : take (length name % 256) (name ++ rest) ≡ name
      whole = ap (λ n. take n (name ++ rest)) whole_len ∙ take-length-append name rest

  -- An entry with a name below 256 bytes that ends with its block is not seen by the iterator.
  pub read_entry_full :
      (bytes : List ℕ) (off : ℕ)
      → drop off bytes ≡ encode k addr size time name ++ rest
      → length name < 256
      → off + 18 + length name ≡ data_len
      → read_entry bytes off ≡ no_entry
  read_entry_full bytes off at short full =
      look-encode bytes off at
      ∙ look-kind_byte k addr size time (length name % 256) (λ n. take n (name ++ rest)) off
      ∙ look_in-no_entry k addr size time (length name % 256) (λ n. take n (name ++ rest)) off
          (inr (omega (arith, short, full)))

  -- An entry with a name of 256 bytes is not seen by the iterator.
  pub read_entry_256 :
      (bytes : List ℕ) (off : ℕ)
      → drop off bytes ≡ encode k addr size time name ++ rest
      → length name ≡ 256
      → read_entry bytes off ≡ no_entry
  read_entry_256 bytes off at long =
      look-encode bytes off at
      ∙ look-kind_byte k addr size time (length name % 256) (λ n. take n (name ++ rest)) off
      ∙ look_in-no_entry k addr size time (length name % 256) (λ n. take n (name ++ rest)) off
          (inl (omega (arith, long)))

abbrev pub IsAscii : List ℕ → Type 0
IsAscii [] = Unit
IsAscii (b ∷ bs) = (b < 128) × IsAscii bs

take-nil : (n : ℕ) → take {A = ℕ} n [] ≡ []
take-nil zero = refl
take-nil (suc n) = refl

truncate_at-ascii :
    (max i : ℕ) (name : List ℕ)
    → IsAscii name
    → i ≤ max + 1
    → truncate_at max i name ≡ take (max + 1 - i) name
truncate_at-ascii max i [] a h = sym (take-nil (max + 1 - i))
truncate_at-ascii max i (b ∷ bs) a h = elim (Bool-cases (ltb max i)) [
  | inl e ↦ let z : max + 1 - i ≡ 0 = ground arith in rw z (ground arith)
  | inr e ↦
      let z : max + 1 - i ≡ suc (max + 1 - (i + 1)) = ground arith in
      rw (z, e) (ap (λ t. b ∷ t) (truncate_at-ascii max (i + 1) bs a.1 (ground arith)))
]

-- `truncate` cuts an ASCII name to its first `max + 1` bytes, one more than the maximum.
pub truncate-ascii :
    (name : List ℕ) (max : ℕ) → IsAscii name → truncate name max ≡ take (max + 1) name
unfolding truncate
truncate-ascii name max a =
    truncate_at-ascii max 0 name a (omega arith)
    ∙ ap (λ n. take n name) (let e : max + 1 - 0 ≡ max + 1 = omega arith in e)
