-- ===== src/Fs/Entry.antt =====
-- src/sys/fs/dir_entry.rs: the kinds of file, the entries of a directory and their encodings.
-- A name is the list of its UTF-8 bytes.
pub mod Codec
use moros.Prelude.{
  ℕ, ◌+◌, ◌%◌, Bool, true, false, Option, none, some, List, [], ◌∷◌, ◌++◌, length, get_or, slice,
  ◌==◌, if◌then◌else◌,
}
use moros.Word.{to_be_bytes, from_be_bytes}
use moros.Run.{Run, ok, panic}

pub data FileType : Type 0 where
  dir file device : FileType

abbrev pub kind_byte : FileType → ℕ
kind_byte dir = 0
kind_byte file = 1
kind_byte device = 2

abbrev pub file_type : ℕ → Option FileType
file_type b =
    if b == 0 then some dir else if b == 1 then some file else if b == 2 then some device else none

abbrev pub empty_len : ℕ
empty_len = 18

pub record FileInfo : Type 0 where
  pub kind : FileType
  pub size : ℕ
  pub time : ℕ
  pub name : List ℕ

-- `FileInfo::as_bytes`
unfoldable pub as_bytes : FileInfo → List ℕ
as_bytes i =
    kind_byte i.kind
    ∷ (to_be_bytes 4 i.size ++ (to_be_bytes 8 i.time ++ (length i.name % 256 ∷ i.name)))

-- `FileInfo::from`: it panics on a kind that is none.
unfoldable pub from_bytes : List ℕ → Run FileInfo
from_bytes buf = elim (file_type (get_or buf 0 0)) [
  | none ↦ panic
  | some kind ↦ ok (record {
    kind = kind;
    size = from_be_bytes (slice 1 5 buf);
    time = from_be_bytes (slice 5 13 buf);
    name = slice 14 (14 + get_or buf 13 0) buf;
  })
]

-- A directory with its parents: the root has no parent, and an empty name.
pub record Node : Type 0 where
  pub name : List ℕ
  pub addr : ℕ
  pub size : ℕ
  pub entry_index : ℕ

pub data Dir : Type 0 where
  root : Node → Dir
  child : Dir → Node → Dir

abbrev pub node : Dir → Node
node (root n) = n
node (child _ n) = n

abbrev pub with_node : Dir → Node → Dir
with_node (root _) n = root n
with_node (child p _) n = child p n

pub record DirEntry : Type 0 where
  pub dir : Dir
  pub addr : ℕ
  pub kind : FileType
  pub size : ℕ
  pub time : ℕ
  pub name : List ℕ

abbrev pub entry_len : DirEntry → ℕ
entry_len e = empty_len + length e.name

unfoldable pub info : DirEntry → FileInfo
info e = record { kind = e.kind; size = e.size; time = e.time; name = e.name }

unfoldable pub is_dir : DirEntry → Bool
is_dir e = elim e.kind [ dir ↦ true | _ ↦ false ]

unfoldable pub is_file : DirEntry → Bool
is_file e = elim e.kind [ file ↦ true | _ ↦ false ]

-- `Dir::from(entry)`
unfoldable pub to_dir : DirEntry → Dir
to_dir e = child e.dir (record { name = e.name; addr = e.addr; size = e.size; entry_index = 0 })
