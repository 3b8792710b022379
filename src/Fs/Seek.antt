-- ===== src/Fs/Seek.antt =====
-- src/sys/fs/file.rs, `File::seek`. An `i32` is the number below 2^32 with the same bits, so that a
-- cast between `u32` and `i32` changes nothing and `+` wraps around.
use moros.Prelude.{
  ℕ, ◌+◌, ◌-◌, ◌<◌, ◌≤◌, ◌≡◌, refl, ◌∙◌, inl, inr, Bool, true, false, ◌||◌, Bool-cases, arith, ltb,
  leb, if◌then◌else◌,
}
use moros.Word.{add32}
use moros.Run.{Result, good, bad}
use moros.Fs.File.{File}

pub data SeekFrom : Type 0 where
  start current ending : ℕ → SeekFrom

-- `i < 0` and `i > j` on `i32`.
abbrev pub is_negative : ℕ → Bool
is_negative i = leb 2147483648 i

abbrev pub above : ℕ → ℕ → Bool
above i j =
    if is_negative i
    then (if is_negative j then ltb j i else false)
    else if is_negative j
    then true
    else ltb j i

abbrev pub target : File → SeekFrom → ℕ
target f (start i) = i
target f (current i) = add32 i f.offset
target f (ending i) = add32 i f.size

unfoldable pub seek : File → SeekFrom → Result ℕ × File
seek f pos =
    let offset = target f pos in
    if is_negative offset || above offset f.size
    then (bad, f)
    else (good offset, record f { offset = offset })

-- The result of a seek to `o`, if that is not behind the end of the file.
abbrev pub reach : File → ℕ → Result ℕ × File
reach f o = if leb o f.size then (good o, record f { offset = o }) else (bad, f)

seek_to :
    (f : File) (pos : SeekFrom) (o : ℕ)
    → f.size < 2147483648
    → target f pos ≡ o
    → seek f pos ≡ reach f o
unfolding seek
seek_to f pos o small e = rw e (elim (Bool-cases (leb o f.size)) [
  | inl inside ↦
      let a : is_negative o ≡ false = ground arith in
      let b : is_negative f.size ≡ false = ground arith in
      let c : ltb f.size o ≡ false = ground arith in rw (a, b, c, inside) refl
  | inr outside ↦ elim (Bool-cases (is_negative o)) [
    | inl n ↦ rw (n, outside) refl
    | inr n ↦
        let b : is_negative f.size ≡ false = ground arith in
        let c : ltb f.size o ≡ true = ground arith in rw (n, b, c, outside) refl
  ]
])

seek_before :
    (f : File) (pos : SeekFrom) (base n : ℕ)
    → f.size < 2147483648
    → base ≤ f.size
    → 0 < n
    → n ≤ 2147483648
    → target f pos ≡ add32 (4294967296 - n) base
    → seek f pos ≡ (if leb n base then reach f (base - n) else (bad, f))
seek_before f pos base n small inside lo hi e = elim (Bool-cases (leb n base)) [
  | inl fits ↦
      let there : add32 (4294967296 - n) base ≡ base - n = ground arith in
      rw fits (seek_to f pos (base - n) small (e ∙ there))
  | inr before ↦
      let wraps : add32 (4294967296 - n) base ≡ 4294967296 - n + base = ground arith in
      let out : leb (4294967296 - n + base) f.size ≡ false = ground arith in
      rw before (seek_to f pos (4294967296 - n + base) small (e ∙ wraps) ∙ rw out refl)
]

-- On a file below 2 GB whose offset is inside, `seek` by less than 2 GB from the start, forwards
-- from the offset or forwards from the end goes there exactly if that is not behind the end;
-- otherwise, also when the sum overflows an `i32`, it fails and leaves the file.
pub seek_forward :
    (f : File) (i : ℕ)
    → f.size < 2147483648
    → f.offset ≤ f.size
    → i < 2147483648
    → (seek f (start i) ≡ reach f i)
      × (seek f (current i) ≡ reach f (f.offset + i))
      × (seek f (ending i) ≡ reach f (f.size + i))
seek_forward f i small inside h = (
  seek_to f (start i) i small refl,
  seek_to f (current i) (f.offset + i) small (omega arith),
  seek_to f (ending i) (f.size + i) small (omega arith),
)

-- On a file below 2 GB whose offset is inside, `seek` by `n` bytes backwards from the offset or
-- from the end goes there exactly if that is not before the start; otherwise it fails and leaves
-- the file.
pub seek_back :
    (f : File) (n : ℕ)
    → f.size < 2147483648
    → f.offset ≤ f.size
    → 0 < n
    → n ≤ 2147483648
    → (seek f (current (4294967296 - n))
        ≡ (if leb n f.offset then reach f (f.offset - n) else (bad, f)))
      × (seek f (ending (4294967296 - n))
          ≡ (if leb n f.size then reach f (f.size - n) else (bad, f)))
seek_back f n small inside pos h = (
  seek_before f (current (4294967296 - n)) f.offset n small inside pos h refl,
  seek_before f (ending (4294967296 - n)) f.size n small (omega arith) pos h refl,
)
