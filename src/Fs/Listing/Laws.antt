-- ===== src/Fs/Listing/Laws.antt =====
-- src/sys/fs/dir.rs and src/api/fs.rs: the records of a directory, copied and parsed.
use moros.Prelude.{
  ℕ, zero, suc, ◌+◌, ◌%◌, ◌<◌, ◌≤◌, ◌≡◌, refl, sym, ◌∙◌, ap, true, false, some, List, [], ◌∷◌, ◌++◌,
  arith, length, length-append, take, drop, get_elem?, overwrite, overwrite-nil, take-length-append,
  drop-length-append, drop-overwrite_self, length-overwrite, ltb,
}
use moros.Word.{add32, to_be_bytes}
use moros.Run.{ok}
use moros.Fs.Entry.{kind_byte, FileInfo, as_bytes, from_bytes, DirEntry, info}
use moros.Fs.Entry.Codec.{Fits, from_bytes-as_bytes}
use moros.Fs.Listing.{fill, read_dir}

abbrev pub infos : List DirEntry → List FileInfo
infos [] = []
infos (e ∷ es) = info e ∷ infos es

-- The records of a list of entries, one after the other.
abbrev pub records : List FileInfo → List ℕ
records [] = []
records (i ∷ is) = as_bytes i ++ records is

abbrev pub AllFit : List FileInfo → Type 0
AllFit [] = Unit
AllFit (i ∷ is) = Fits i × AllFit is

length-as_bytes : (i : FileInfo) → length (as_bytes i) ≡ 14 + length i.name
unfolding as_bytes to_be_bytes
length-as_bytes i = omega arith

length_byte :
    (i : FileInfo) (rest : List ℕ)
    → Fits i
    → get_elem? (as_bytes i ++ rest) 13 ≡ some (length i.name)
unfolding as_bytes to_be_bytes
length_byte i rest f =
    let e : length i.name % 256 ≡ length i.name = omega (arith, f.name) in ap some e

read_dir-cons :
    (left n b : ℕ) (bs : List ℕ) (i : FileInfo) (rest : List FileInfo)
    → get_elem? (b ∷ bs) 13 ≡ some n
    → 14 + n ≤ length (b ∷ bs)
    → from_bytes (take (14 + n) (b ∷ bs)) ≡ ok i
    → read_dir left (drop (14 + n) (b ∷ bs)) ≡ ok rest
    → read_dir (suc left) (b ∷ bs) ≡ ok (i ∷ rest)
unfolding read_dir
read_dir-cons left n b bs i rest at fits this later =
    let whole : ltb (length (b ∷ bs)) (14 + n) ≡ false = ground arith in
    let near : get_elem? bs 12 ≡ some n = at in rw (near, whole, this, later, read_dir) refl

read_dir-step :
    (left : ℕ) (i : FileInfo) (is rest : List FileInfo)
    → Fits i
    → read_dir left (records is) ≡ ok rest
    → read_dir (suc left) (as_bytes i ++ records is) ≡ ok (i ∷ rest)
unfolding as_bytes
read_dir-step left i is rest f later =
    read_dir-cons left (length i.name) (kind_byte i.kind) _ i rest (length_byte i (records is) f)
      (omega (arith, length-append (as_bytes i) (records is), len))
      (ap from_bytes (
          ap (λ t. take t (as_bytes i ++ records is)) (sym len)
          ∙ take-length-append (as_bytes i) (records is))
        ∙ from_bytes-as_bytes i f)
      (ap (read_dir left) (
          ap (λ t. drop t (as_bytes i ++ records is)) (sym len)
          ∙ drop-length-append (as_bytes i) (records is))
        ∙ later)
  where
    len : length (as_bytes i) ≡ 14 + length i.name
    len = length-as_bytes i

-- The records written one after the other are read back, if the loop may go around once for each
-- and once more.
pub read_dir-records :
    (left : ℕ) (is : List FileInfo)
    → AllFit is
    → length is < left
    → read_dir left (records is) ≡ ok is
unfolding read_dir
read_dir-records zero is f h = absurd (omega arith)
read_dir-records (suc left) [] f h = refl
read_dir-records (suc left) (i ∷ is) f h =
    read_dir-step left i is is f.0 (read_dir-records left is f.1 (omega arith))

overwrite-overwrite :
    (buf : List ℕ) (i : ℕ) (xs ys : List ℕ)
    → overwrite (overwrite buf i xs) (i + length xs) ys ≡ overwrite buf i (xs ++ ys)
overwrite-overwrite [] i xs ys = refl
overwrite-overwrite (b ∷ buf) zero [] ys = refl
overwrite-overwrite (b ∷ buf) zero (x ∷ xs) ys =
    ap (λ t. overwrite (x ∷ overwrite buf zero xs) t ys)
      (let e : 0 + suc (length xs) ≡ suc (0 + length xs) = omega arith in e)
    ∙ ap (λ t. x ∷ t) (overwrite-overwrite buf zero xs ys)
overwrite-overwrite (b ∷ buf) (suc i) xs ys =
    ap (λ t. overwrite (b ∷ overwrite buf i xs) t ys)
      (let e : suc i + length xs ≡ suc (i + length xs) = omega arith in e)
    ∙ ap (λ t. b ∷ t) (overwrite-overwrite buf i xs ys)

-- All records of a list of entries are copied, if the buffer is longer than they are.
Fills : List DirEntry → ℕ → ℕ → List ℕ → Type 0
Fills es i index buf =
    (index' : ℕ) × (fill es i index buf
      ≡ (i + length (records (infos es)), index', overwrite buf i (records (infos es))))

fill-all :
    (es : List DirEntry) (i index : ℕ) (buf : List ℕ)
    → i + length (records (infos es)) < length buf
    → Fills es i index buf
unfolding fill Fills
fill-all [] i index buf h =
    let z : i ≡ i + 0 = omega arith in (index, λ t. (z t, index, sym (overwrite-nil buf i) t))
fill-all (e ∷ es) i index buf h =
    let len = length-append (as_bytes (info e)) (records (infos es)) in
    let fits : ltb (i + length (as_bytes (info e))) (length buf) ≡ true = ground (arith, len) in
    let (index', later) =
      fill-all es (i + length (as_bytes (info e))) (add32 index 1)
        (overwrite buf i (as_bytes (info e)))
        (omega (arith, len, length-overwrite buf i (as_bytes (info e)))) in
    let more : i + length (as_bytes (info e)) + length (records (infos es))
        ≡ i + length (records (infos (e ∷ es))) =
      omega (arith, len) in
    (
      index',
      rw fits later ∙ λ t.
          (more t, index', overwrite-overwrite buf i (as_bytes (info e)) (records (infos es)) t),
    )

-- For entries that fit their records, reading a directory from offset 0 into a buffer longer than
-- the records, and parsing the bytes that were read, gives the kinds, sizes, times and names of the
-- entries, in their order.
pub read_dir-fill :
    (es : List DirEntry) (index left : ℕ) (buf : List ℕ)
    → AllFit (infos es)
    → length (records (infos es)) < length buf
    → length (infos es) < left
    → (n index' : ℕ) × (buf' : List ℕ) × (fill es 0 index buf ≡ (n, index', buf'))
      × (read_dir left (take n buf') ≡ ok (infos es))
unfolding Fills
read_dir-fill es index left buf fit fits enough =
    let rs = records (infos es) in
    let (index', filled) = fill-all es 0 index buf (omega (arith, fits)) in
    let z : 0 + length rs ≡ length rs = omega arith in
    let start : overwrite buf 0 rs ≡ rs ++ drop (0 + length rs) buf =
      drop-overwrite_self buf 0 rs (omega (arith, fits)) in
    (
      0 + length rs,
      index',
      overwrite buf 0 rs,
      filled,
      ap (read_dir left) (
            ap (λ t. take t (overwrite buf 0 rs)) z
            ∙ ap (take (length rs)) start
            ∙ take-length-append rs _)
          ∙ read_dir-records left (infos es) fit enough,
    )
