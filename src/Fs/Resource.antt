-- ===== src/Fs/Resource.antt =====
-- src/sys/fs/mod.rs: opening, deleting and describing the files, directories and devices that a
-- path names, on the disk of the mounted device; with the path functions of file.rs, device.rs and
-- dir_entry.rs.
pub mod Laws
use mathlib.Core.Option
use moros.Prelude.{
  ℕ, zero, suc, ◌+◌, ◌-◌, ◌*◌, Bool, true, false, not, ◌&&◌, ◌||◌, Option, none, some, List, [],
  ◌∷◌, ◌++◌, length, bit_and, ◌==◌, if◌then◌else◌,
}
use moros.Run.{Run, ok, panic, stuck, ◌>>=◌, Result, good, bad}
use moros.Path.{same_bytes, slash, realpath, dirname, filename}
use moros.Fs.Block
use moros.Fs.Block.{Disk, block_size}
use moros.Fs.Linked
use moros.Fs.SuperBlock
use moros.Fs.Bitmap.{BitField}
use moros.Fs.Entry.{FileType, FileInfo, Dir, node, DirEntry, info, is_file, to_dir}
use moros.Fs.Dir
use moros.Fs.Change
use moros.Fs.Change.{create_entry, open_dir, in_parent}
use moros.Fs.File.{File, to_file}
use moros.Fs.Seek.{seek, ending}
use moros.Fs.Devices.{Device, to_device}
use moros.Fs.Devices

pub data OpenFlag : Type 0 where
  read write append create truncate directory device : OpenFlag

abbrev pub flag_bit : OpenFlag → ℕ
flag_bit read = 1
flag_bit write = 2
flag_bit append = 4
flag_bit create = 8
flag_bit truncate = 16
flag_bit directory = 32
flag_bit device = 64

unfoldable pub is_set : OpenFlag → ℕ → Bool
is_set flag flags = not (bit_and flags (flag_bit flag) == 0)

pub data Resource : Type 0 where
  directory : Dir → Resource
  file : File → Resource
  device : Device → Resource

abbrev is_device : FileType → Bool
is_device FileType.device = true
is_device _ = false

-- The clock, the directory of the process, the bound on the loops and the drives that there are.
pub record Context : Type 0 where
  pub rounds : ℕ
  pub time : ℕ
  pub cwd : List ℕ
  pub attached : ℕ → ℕ → Bool

module _ ⦃bits : BitField⦄ (c : Context) where
  -- `DirEntry::open`: the entry that a path names.
  unfoldable pub open_entry : Disk → List ℕ → Run (Option DirEntry)
  unfolding in_parent
  open_entry d path =
      in_parent c.rounds c.time c.cwd d path none λ dir name. Dir.find c.rounds d dir name

  -- `File::open`
  unfoldable pub open_file : Disk → List ℕ → Run (Option File)
  unfolding open_entry
  open_file d path = do
    hit ← open_entry d path
    ok (elim hit [ none ↦ none | some e ↦ if is_file e then some (to_file e) else none ])

  -- `Device::open`: the device that the first block of the file describes.
  unfoldable pub open_device : Disk → List ℕ → Run (Option Device)
  unfolding open_entry
  open_device d path = do
    hit ← open_entry d path
    ok (elim hit [
      | none ↦ none
      | some e ↦
          if is_device e.kind
          then elim (to_device c.attached (Linked.bytes (Block.read d e.addr))) [
            | good dev ↦ some dev
            | bad ↦ none
          ]
          else none
    ])

  -- `create_file` and `create_device` in the directory of a path.
  unfoldable pub create_as : FileType → Disk → List ℕ → Run (Option DirEntry × Disk)
  unfolding in_parent
  create_as kind d path =
      in_parent c.rounds c.time c.cwd d path (none, d)
        λ dir name. do (made, _, d1) ← create_entry c.rounds c.time d dir kind name; ok (made, d1)

  -- The three branches of `open`.
  unfoldable pub open_as_dir : Disk → List ℕ → ℕ → Run (Option Resource × Disk)
  open_as_dir d path flags = do
    res ← open_dir c.rounds c.time c.cwd (some d) path
    elim res [
      | some dir ↦ ok (some (directory dir), d)
      | none ↦
          if is_set create flags
          then (do
            (made, d1) ← Change.create c.rounds c.time c.cwd d path
            ok (Option.map directory made, d1))
          else ok (none, d)
    ]

  unfoldable pub open_as_device : Disk → List ℕ → ℕ → Run (Option Resource × Disk)
  open_as_device d path flags = do
    res ← open_device d path
    elim res [
      | some dev ↦ ok (some (device dev), d)
      | none ↦
          if is_set create flags
          then (do
            (made, d1) ← create_as FileType.device d path
            ok (Option.map (λ e. device (Device.file (to_file e))) made, d1))
          else ok (none, d)
    ]

  -- A file that is opened to append is at its end, if the seek succeeds.
  unfoldable pub open_as_file : Disk → List ℕ → ℕ → Run (Option Resource × Disk)
  open_as_file d path flags = do
    res ← open_file d path
    elim res [
      | some f ↦ ok (some (file (if is_set append flags then (seek f (ending 0)).1 else f)), d)
      | none ↦
          if is_set create flags
          then (do
            (made, d1) ← create_as FileType.file d path
            ok (Option.map (λ e. file (to_file e)) made, d1))
          else ok (none, d)
    ]

  unfoldable pub open_resource : Disk → List ℕ → ℕ → Run (Option Resource × Disk)
  unfolding open_as_dir open_as_device open_as_file
  open_resource d path flags =
      if is_set OpenFlag.directory flags
      then open_as_dir d path flags
      else if is_set OpenFlag.device flags
      then open_as_device d path flags
      else open_as_file d path flags

  -- `info` of a path; the root has no entry.
  unfoldable pub info_of : Disk → List ℕ → Run (Option FileInfo)
  unfolding open_entry
  info_of d path =
      if same_bytes path (slash ∷ [])
      then (do
        (dir, _) ← Dir.root_dir c.rounds c.time d
        ok (some (record { kind = FileType.dir; size = (node dir).size; time = 0; name = [] })))
      else (do hit ← open_entry d path; ok (Option.map info hit))

  -- `delete`: directories and files are deleted in the same way.
  unfoldable pub delete : Disk → List ℕ → Run (Result (Unit {0}) × Disk)
  unfolding info_of
  delete d path = do
    there ← info_of d path
    elim there [ none ↦ ok (bad, d) | some _ ↦ Change.delete c.rounds c.time c.cwd d path ]

-- `replace('~', &home)`
abbrev replace_home : List ℕ → List ℕ → List ℕ
replace_home home [] = []
replace_home home (b ∷ bs) =
    if b == b'~' then home ++ replace_home home bs else b ∷ replace_home home bs

-- `canonicalize`, with the variable `HOME` of the process.
unfoldable pub canonicalize : Option (List ℕ) → List ℕ → List ℕ
canonicalize none path = path
canonicalize (some home) [] = []
canonicalize (some home) (b ∷ bs) = if b == b'~' then replace_home home (b ∷ bs) else b ∷ bs

unfoldable pub disk_size : Disk → ℕ
disk_size d = (SuperBlock.read d).block_count * block_size

unfoldable pub disk_used : Disk → ℕ
disk_used d = (SuperBlock.read d).alloc_count * block_size

unfoldable pub disk_free : Disk → ℕ
unfolding disk_size disk_used
disk_free d = disk_size d - disk_used d
