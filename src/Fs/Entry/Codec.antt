-- ===== src/Fs/Entry/Codec.antt =====
-- src/sys/fs/dir_entry.rs: the records that a directory is read as, to bytes and back.
use moros.Prelude.{
  ℕ, ◌+◌, ◌-◌, ◌<◌, ◌%◌, ◌≡◌, refl, ◌∙◌, ap, some, List, [], ◌∷◌, arith, length, take,
}
use moros.Word.{to_be_bytes, from_be_bytes-to_be_bytes}
use moros.Run.{Run, ok}
use moros.Fs.Entry.{
  FileType, dir, file, device, kind_byte, file_type, FileInfo, as_bytes, from_bytes,
}

-- What fits into the fields of a record.
pub record Fits (i : FileInfo) : Type 0 where
  pub size : i.size < 4294967296
  pub time : i.time < 18446744073709551616
  pub name : length i.name < 256

pub file_type-kind_byte : (k : FileType) → file_type (kind_byte k) ≡ some k
file_type-kind_byte dir = refl
file_type-kind_byte file = refl
file_type-kind_byte device = refl

take-length : (xs : List ℕ) → take (length xs) xs ≡ xs
take-length [] = refl
take-length (x ∷ xs) = ap (λ t. x ∷ t) (take-length xs)

take_name : (i : FileInfo) → Fits i → take (14 + length i.name % 256 - 14) i.name ≡ i.name
take_name i f =
    let e : 14 + length i.name % 256 - 14 ≡ length i.name = omega (arith, f.name) in
    ap (λ n. take n i.name) e ∙ take-length i.name

from_bytes-fields :
    (k : FileType) (i : FileInfo)
    → Fits i
    → from_bytes (as_bytes (record i { kind = k })) ≡ ok (record i { kind = k })
unfolding from_bytes as_bytes to_be_bytes
from_bytes-fields k i f = go k
  where
    read : (k : FileType) (t : 𝕀) → Run FileInfo
    read k t = ok (record {
      kind = k;
      size = from_be_bytes-to_be_bytes 4 i.size f.size t;
      time = from_be_bytes-to_be_bytes 8 i.time f.time t;
      name = take_name i f t;
    })

    go : (k : FileType) → from_bytes (as_bytes (record i { kind = k })) ≡ ok (record i { kind = k })
    go dir = λ t. read dir t
    go file = λ t. read file t
    go device = λ t. read device t

-- A record whose size and time fit their fields and whose name is below 256 bytes is read back from
-- its bytes.
pub from_bytes-as_bytes : (i : FileInfo) → Fits i → from_bytes (as_bytes i) ≡ ok i
from_bytes-as_bytes i f = from_bytes-fields i.kind i f
