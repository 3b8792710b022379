-- ===== src/Tests/Entries.antt =====
-- Entries of a directory and their records.
use moros.Prelude.{ℕ, zero, suc, ◌≡◌, refl, List, [], ◌∷◌, ◌++◌, arith, take, replicate}
use moros.Word.{to_be_bytes}
use moros.Run.{ok}
use moros.Fs.Entry.{FileType, FileInfo, as_bytes, from_bytes, DirEntry, Dir}
use moros.Fs.Entry
use moros.Fs.Entry.Codec
use moros.Fs.Dir.{encode}
use moros.Fs.ReadDir.{found, read_entry}
use moros.Fs.Slots
use moros.Fs.Slots.{read_entry-encode, read_entry_full, read_entry_256, IsAscii, truncate-ascii}
use moros.Fs.Listing.{fill, read_dir}
use moros.Fs.Listing.Laws.{infos, AllFit, read_dir-fill}

abbrev hello : List ℕ
hello = b'h' ∷ b'i' ∷ []

abbrev hello_bytes : List ℕ
hello_bytes = encode FileType.file 4113 5 7 hello ++ replicate 488 0

hello-Fits : Slots.Fits 4113 5 7
hello-Fits = record { addr = omega arith; size = omega arith; time = omega arith }

read_entry-encode_example : read_entry hello_bytes 0 ≡ found FileType.file 4113 5 7 hello 20
read_entry-encode_example =
    read_entry-encode FileType.file 4113 5 7 hello (replicate 488 0) hello-Fits hello_bytes 0 refl
      (omega arith) (omega arith) (omega arith) (omega arith)

-- 488 bytes, and an entry that fills the rest of the block.
abbrev full_bytes : List ℕ
full_bytes = replicate 488 0 ++ encode FileType.file 4113 5 7 hello

abbrev long_name : List ℕ
long_name = replicate 256 b'a'

replicate-IsAscii : (n : ℕ) → IsAscii (replicate n b'a')
replicate-IsAscii zero = tt
replicate-IsAscii (suc n) = (omega arith, replicate-IsAscii n)

abbrev hello_info : FileInfo
hello_info = record { kind = FileType.file; size = 5; time = 7; name = hello }

hello_info-Fits : Codec.Fits hello_info
hello_info-Fits = record { size = omega arith; time = omega arith; name = omega arith }

abbrev hello_entry : DirEntry
hello_entry = record {
  dir = Dir.root (record { name = []; addr = 4112; size = 20; entry_index = 0 });
  addr = 4113;
  kind = FileType.file;
  size = 5;
  time = 7;
  name = hello;
}

two_entries-AllFit : AllFit (infos (hello_entry ∷ hello_entry ∷ []))
unfolding Entry.info
two_entries-AllFit = (hello_info-Fits, (hello_info-Fits, tt))

read_dir-fill_example :
    (n index' : ℕ) × (buf' : List ℕ) × (fill (hello_entry ∷ hello_entry ∷ []) 0 0 (replicate 40 0)
      ≡ (n, index', buf'))
    × (read_dir 3 (take n buf') ≡ ok (infos (hello_entry ∷ hello_entry ∷ [])))
unfolding Entry.info as_bytes to_be_bytes
read_dir-fill_example =
    read_dir-fill (hello_entry ∷ hello_entry ∷ []) 0 3 (replicate 40 0) two_entries-AllFit
      (omega arith) (omega arith)
