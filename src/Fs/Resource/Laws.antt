-- ===== src/Fs/Resource/Laws.antt =====
-- src/sys/fs/mod.rs: what `open` does to the disk and to the offset.
use moros.Prelude.{
  ℕ, ◌+◌, ◌<◌, ◌≤◌, ◌≡◌, refl, sym, ◌∙◌, inl, inr, arith, Bool, true, false, Bool-cases, Option,
  none, some, List, leb, if◌then◌else◌,
}
use moros.Run.{Run, ok, panic, stuck, ◌>>=◌}
use moros.Fs.Block.{Disk}
use moros.Fs.Bitmap.{BitField}
use moros.Fs.Change.{open_dir}
use moros.Fs.File.{File}
use moros.Fs.Seek.{seek, ending, seek_forward}
use moros.Fs.Resource.{
  OpenFlag, create, is_set, Resource, directory, file, device, Context, open_device, open_file,
  open_as_dir, open_as_device, open_as_file, open_resource,
}

module _ (d : Disk) (flag : Bool) {A : Type 0} (is : A → Resource)
    (make : Run (Option Resource × Disk)) where
  -- The shape of the branches of `open`.
  abbrev found_or : Run (Option A) → Run (Option Resource × Disk)
  found_or found = found >>= λ hit. elim hit [
    | some a ↦ ok (some (is a), d)
    | none ↦ if flag then make else ok (none, d)
  ]

  found_or-keeps :
      (found : Run (Option A)) (res : Option Resource) (d1 : Disk)
      → flag ≡ false
      → found_or found ≡ ok (res, d1)
      → d1 ≡ d
  found_or-keeps (ok (some a)) res d1 f e = cc e
  found_or-keeps (ok none) res d1 f e =
      let t : ok (none, d) ≡ ok (res, d1) = sym (rw f refl) ∙ e in cc t
  found_or-keeps panic res d1 f e = cc e
  found_or-keeps stuck res d1 f e = cc e

module _ ⦃bits : BitField⦄ (c : Context) where
  -- Without the flag to create, opening a directory, a device or a file leaves the disk as it was,
  -- whatever the other flags and the result are.
  pub open_resource-keeps :
      (d d1 : Disk) (path : List ℕ) (flags : ℕ) (res : Option Resource)
      → is_set create flags ≡ false
      → open_resource c d path flags ≡ ok (res, d1)
      → d1 ≡ d
  unfolding open_resource open_as_dir open_as_device open_as_file
  open_resource-keeps d d1 path flags res f e =
      elim (Bool-cases (is_set OpenFlag.directory flags)) [
        | inl dir_flag ↦
            let as_dir : open_as_dir c d path flags ≡ ok (res, d1) = sym (rw dir_flag refl) ∙ e in
            found_or-keeps d (is_set create flags) directory _
              (open_dir c.rounds c.time c.cwd (some d) path) res d1 f as_dir
        | inr no_dir ↦ elim (Bool-cases (is_set OpenFlag.device flags)) [
          | inl device_flag ↦
              let as_device : open_as_device c d path flags ≡ ok (res, d1) =
                sym (rw (no_dir, device_flag) refl) ∙ e in
              found_or-keeps d (is_set create flags) device _ (open_device c d path) res d1 f
                as_device
          | inr no_device ↦
              let as_file : open_as_file c d path flags ≡ ok (res, d1) =
                sym (rw (no_dir, no_device) refl) ∙ e in
              found_or-keeps d (is_set create flags)
                (λ f. file (if is_set OpenFlag.append flags then (seek f (ending 0)).1 else f)) _
                (open_file c d path) res d1 f as_file
        ]
      ]

  -- If `File::open` opens a file below 2 GB, opening its path to append, and neither as a directory
  -- nor as a device, gives the file with its offset at the end, and keeps the disk.
  pub open_resource-append :
      (d : Disk) (path : List ℕ) (flags : ℕ) (f : File)
      → is_set OpenFlag.directory flags ≡ false
      → is_set OpenFlag.device flags ≡ false
      → is_set OpenFlag.append flags ≡ true
      → f.size < 2147483648
      → f.offset ≤ f.size
      → open_file c d path ≡ ok (some f)
      → open_resource c d path flags ≡ ok (some (file (record f { offset = f.size })), d)
  unfolding open_resource open_as_file
  open_resource-append d path flags f no_dir no_device append small inside found =
      let (_, _, sought) = seek_forward f 0 small inside (omega arith) in
      let z : f.size + 0 ≡ f.size = omega arith in
      let inside_end : leb f.size f.size ≡ true = ground arith in
      rw (no_dir, no_device, found, append, sought, z, inside_end) refl
