-- ===== src/Tests/Paths.antt =====
-- Paths, and opening them on the formatted disk.
use moros.Prelude.{ℕ, ◌≡◌, ◌≢◌, refl, true, false, none, some, List, [], ◌∷◌, ◌++◌, replicate}
use moros.Run.{ok}
use moros.Fs.Block
use moros.Fs.Block.{Disk}
use moros.Fs.Linked
use moros.Fs.Entry.{FileType, Dir, is_file}
use moros.Fs.ReadDir
use moros.Fs.Dir
use moros.Fs.Dir.{encode}
use moros.Fs.Change
use moros.Fs.File.{File, to_file}
use moros.Fs.Resource as Opening
use moros.Fs.Resource.{OpenFlag, is_set, create, Resource, Context, open_file, open_resource}
use moros.Fs.Resource.Laws.{open_resource-keeps}
use moros.Tests.Disks.{bits, formatted, computing}
use moros.Path.{slash, rfind, dirname, filename, realpath, split, trim_start}

abbrev tmp_a : List ℕ
tmp_a = b'/' ∷ b't' ∷ b'/' ∷ b'a' ∷ []

dirname-tmp_a : dirname tmp_a ≡ b'/' ∷ b't' ∷ []
unfolding dirname rfind
dirname-tmp_a = refl

tmp_a_slashes : rfind tmp_a ≢ none
unfolding rfind
tmp_a_slashes = λ e. cc e

-- The formatted disk with one entry in the root directory: a file of 5 bytes.
abbrev name_a : List ℕ
name_a = b'a' ∷ []

abbrev pub root_block : List ℕ
root_block = 0 ∷ 0 ∷ 0 ∷ 0 ∷ encode FileType.file 4113 5 7 name_a ++ replicate 489 0

unfoldable pub one_file : Disk
one_file = Block.write formatted (record { addr = 4112; buf = root_block })

abbrev here : Context
here = record { rounds = 4; time = 9; cwd = slash ∷ []; attached = λ bus dsk. false }

-- Opens all that a walk of a path computes with.
unfoldable pub looking : Unit {0}
unfolding computing one_file encode open_file Opening.open_entry Change.in_parent Change.open_dir
    Dir.root_dir Dir.update_size Dir.sum_from ReadDir.next ReadDir.entries ReadDir.read_entry
    Linked.bytes Linked.next Linked.next_addr dirname filename rfind realpath Dir.find Dir.find_from
    is_set Change.walk trim_start split is_file to_file open_resource Opening.open_as_file
looking = tt

abbrev path_a : List ℕ
path_a = slash ∷ name_a

abbrev root_read : Dir
root_read = Dir.root (record { name = []; addr = 4112; size = 19; entry_index = 0 })

abbrev file_a : File
file_a = record { parent = some root_read; name = name_a; addr = 4113; size = 5; offset = 0 }

opened_a : open_file here one_file path_a ≡ ok (some file_a)
unfolding looking
opened_a = refl

reopened_a : open_resource here one_file path_a 0 ≡ ok (some (Resource.file file_a), one_file)
unfolding looking
reopened_a = refl

append_set : is_set OpenFlag.append 4 ≡ true
unfolding is_set
append_set = refl

no_directory : is_set OpenFlag.directory 4 ≡ false
unfolding is_set
no_directory = refl

no_device : is_set OpenFlag.device 4 ≡ false
unfolding is_set
no_device = refl

no_create : is_set create 0 ≡ false
unfolding is_set
no_create = refl

open_resource-keeps_example : ◌≡◌ {A = Disk} one_file one_file
open_resource-keeps_example =
    open_resource-keeps here one_file one_file path_a 0 (some (Resource.file file_a)) no_create
      reopened_a
