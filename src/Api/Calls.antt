-- ===== src/Api/Calls.antt =====
-- src/api/fs.rs: which handles the functions on files leave open.
use moros.Prelude.{ℕ, ◌<◌, ◌≡◌, ◌≢◌, refl, sym, ◌∙◌, false, Option, some, List}
use moros.Run.{ok, good}
use moros.Process.{Kernel, env, create_handle, handle}
use moros.Process.Handles.{IsValid, handle-create_handle}
use moros.Process.Updates.{
  delete_handle-update_handle, create_handle-IsValid, created-empty, Updates, update_handle_lem,
  delete_handle_lem,
}
use moros.Prelude.{dec_eq, inl, inr}
use moros.Fs.Entry.{FileType, FileInfo}
use moros.Fs.Resource.{canonicalize}
use moros.Syscall
use moros.Syscall.{FileIo}
use moros.Api.{
  FileSystem, System, home, open_call, write_call, close_call, create_file, write_handle, write,
  info_call, open_file, dup_call, reopen, is_device,
}

module _ {R W : Type 0} (io : FileIo R W) (fs : FileSystem R W) where
  -- In a valid kernel, if the path opens with the flag to create, a handle is free, and the
  -- resource is written and closed, `write` of a path returns the number of bytes and leaves the
  -- table of processes as it was.
  pub write-handles :
      (s : System R W) (path buf : List ℕ) (dir : Option (List ℕ)) (file file1 file2 : R)
      (w1 w2 w3 : W) (k1 : Kernel R) (h n : ℕ)
      → IsValid s.kernel
      → env s.kernel home ≡ ok dir
      → fs.open_path s.world (canonicalize dir path) 8 ≡ ok (some file, w1)
      → create_handle s.kernel file ≡ ok (good h, k1)
      → io.write w1 file buf ≡ ok (good n, file1, w2)
      → io.close w2 file1 ≡ ok (file2, w3)
      → write io fs s path buf ≡ ok (good n, record s { world = w3 })
  unfolding write write_handle create_file open_call write_call close_call Syscall.open_resource
      Syscall.write Syscall.close
  write-handles s path buf dir file file1 file2 w1 w2 w3 k1 h n v at_home opened made written
        closed =
      let (here, _) = handle-create_handle s.kernel k1 file h v made in
      let (k2, updated, there, deleted) =
        delete_handle-update_handle s.kernel k1 file file1 h v made in
      rw (at_home, opened, made, here, written, updated, there, closed, deleted) refl

  -- In a valid kernel, if the path is a file that opens under a free handle other than the one
  -- given, and the resource closes, `reopen` of the path on a handle below 64 makes that handle
  -- stand for the file and leaves all others as they were.
  pub reopen-handles :
      (s : System R W) (path : List ℕ) (dir : Option (List ℕ)) (i : FileInfo) (file file1 : R)
      (w1 w2 : W) (k1 : Kernel R) (h old_handle : ℕ)
      → IsValid s.kernel
      → h < 64
      → h ≢ old_handle
      → env s.kernel home ≡ ok dir
      → fs.describe s.world (canonicalize dir path) ≡ ok (some i)
      → i.kind ≡ FileType.file
      → fs.open_path s.world (canonicalize dir path) 0 ≡ ok (some file, w1)
      → create_handle s.kernel file ≡ ok (good old_handle, k1)
      → io.close w1 file ≡ ok (file1, w2)
      → (k3 : Kernel R) × (reopen io fs s path h false
          ≡ ok (good h, record { kernel = k3; world = w2 }))
        × (handle k3 h ≡ ok (some file))
        × ((j : ℕ) → j ≢ h → handle k3 j ≡ handle s.kernel j)
  unfolding reopen info_call open_file open_call dup_call close_call Syscall.open_resource
      Syscall.dup Syscall.close Updates
  reopen-handles s path dir i file file1 w1 w2 k1 h o v hi ne at_home there kind opened made
        closed =
      let (stored, others) = handle-create_handle s.kernel k1 file o v made in
      let (ho, empty) = created-empty s.kernel k1 file o v made in
      let v1 = create_handle-IsValid s.kernel k1 file o v made in
      let (k2, updated, here2, others2, v2) = update_handle_lem k1 h file v1 hi in
      let (k3, deleted, here3, others3) = delete_handle_lem k2 o v2 ho in
      let no_device : is_device i.kind ≡ false = rw kind refl in
      let at_path : open_call io fs s path 0 ≡ ok (some o, record { kernel = k1; world = w1 }) =
        rw (at_home, opened, made) refl in
      let still : handle k2 o ≡ ok (some file) = others2 o (λ e. ne (sym e)) ∙ stored in
      (
        k3,
        rw
            (
              at_home, there, no_device, reopen, open_file, at_path, stored, updated, still, closed,
              deleted,
            )
            refl,
        others3 h ne ∙ here2,
        λ j nj. elim (dec_eq j o) [
          | inl same ↦ rw same (here3 ∙ sym empty)
          | inr nj_o ↦ others3 j nj_o ∙ others2 j nj ∙ others j nj_o
        ],
      )
