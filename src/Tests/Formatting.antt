-- ===== src/Tests/Formatting.antt =====
-- Formatting the disk that has a file in its root directory.
use moros.Prelude.{◌≤◌, ◌≡◌, refl, inl, inr, Bool-cases, arith, ◌==◌}
use moros.Run.{ok}
use moros.Bytes.{IsBytes-of_test}
use moros.Word.{to_be_bytes}
use moros.Fs.Block
use moros.Fs.Block.{Disk, zeros}
use moros.Fs.SuperBlock
use moros.Fs.Bitmap
use moros.Fs.Dir.{encode}
use moros.Fs.Format.{clear_from, free_all, format_ata}
use moros.Fs.Format.Laws.{IsFormattable, format_ata-keeps}
use moros.Tests.Disks.{bits, formatted-IsFormatted}
use moros.Tests.Paths.{one_file, root_block, looking}

one_file-IsFormattable : IsFormattable one_file 65536
unfolding one_file Block.write encode to_be_bytes
one_file-IsFormattable = record {
  full = λ a. elim (Bool-cases (a == 4112)) [
    | inl e ↦ rw e refl
    | inr e ↦ rw e (formatted-IsFormatted.full a)
  ];
  bytes = λ a j. elim (Bool-cases (a == 4112)) [
    | inl e ↦ rw e (IsBytes-of_test root_block refl j)
    | inr e ↦ rw e (formatted-IsFormatted.bytes a j)
  ];
  large = omega arith;
  small = omega arith;
}

abbrev again : Disk
again = Bitmap.alloc (free_all (SuperBlock.write one_file (SuperBlock.new 512 65536))) 4112

formatted_again : format_ata 4 9 65536 one_file ≡ ok again
unfolding looking format_ata free_all clear_from SuperBlock.new
formatted_again = refl

format_ata-keeps_example : again 4112 ≡ one_file 4112
format_ata-keeps_example =
    format_ata-keeps 4 9 65536 one_file again 4112 one_file-IsFormattable formatted_again bounds
  where
    bounds : SuperBlock.data_area (SuperBlock.new 512 65536) ≤ 4112
    bounds = unfold SuperBlock.data_area SuperBlock.new in omega arith
