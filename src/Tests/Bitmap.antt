-- ===== src/Tests/Bitmap.antt =====
-- The bitmap of the formatted disk.
use moros.Prelude.{ℕ, ◌+◌, ◌-◌, ◌*◌, ◌<◌, ◌≡◌, refl, false, some, arith, ◌≤◌}
use moros.Word.{sub32}
use moros.Fs.SuperBlock
use moros.Fs.SuperBlock.Laws
use moros.Fs.Bitmap.{alloc, free, next_free_addr}
use moros.Fs.Bitmap.Laws.{data_of, is_allocated}
use moros.Fs.Bitmap.Marks.{InBitmap}
use moros.Fs.Bitmap.Search.{Searched, next_free_addr_lem}
use moros.Fs.Bitmap.Allocation.{HasRoom, Marks, free-Marks, free-alloc, next_free_addr-HasRoom}
use moros.Tests.Disks.{
  bits, blank, empty_block, empty_block-IsValid, formatted, formatted-IsFormatted, read-formatted,
  areas-formatted, computing,
}

first_free : next_free_addr formatted ≡ some 4112
unfolding computing
first_free = refl

second_free : next_free_addr (alloc formatted 4112) ≡ some 4113
unfolding computing
second_free = refl

first_clear : is_allocated formatted 4112 ≡ false
unfolding computing
first_clear = refl

start : InBitmap formatted 0
start = rw (areas-formatted.0, areas-formatted.1) (omega arith)

start_clear : is_allocated formatted (data_of formatted + 0) ≡ false
start_clear = rw areas-formatted.0 first_clear

room : HasRoom formatted
room = (0, start, start_clear)

read-write_example : SuperBlock.read (SuperBlock.write blank empty_block) ≡ empty_block
read-write_example = SuperBlock.Laws.read-write blank empty_block empty_block-IsValid

data_area_bounds_example :
    (SuperBlock.super_block_addr < SuperBlock.bitmap_area empty_block)
    × (SuperBlock.bitmap_area empty_block ≤ SuperBlock.data_area empty_block)
    × (SuperBlock.data_area empty_block ≤ 65536)
    × ((SuperBlock.data_area empty_block - SuperBlock.bitmap_area empty_block) * 4096
        ≤ 65536 - SuperBlock.data_area empty_block)
    × (65536 - SuperBlock.data_area empty_block
        ≤ (SuperBlock.data_area empty_block - SuperBlock.bitmap_area empty_block + 1) * 4096)
data_area_bounds_example = SuperBlock.Laws.data_area_bounds empty_block (omega arith) (omega arith)

next_free_addr_lem_example : Searched formatted (next_free_addr formatted)
next_free_addr_lem_example = next_free_addr_lem formatted formatted-IsFormatted

next_free_addr-HasRoom_example :
    (off : ℕ) × (next_free_addr formatted ≡ some (data_of formatted + off))
    × InBitmap formatted off
    × (is_allocated formatted (data_of formatted + off) ≡ false)
next_free_addr-HasRoom_example = next_free_addr-HasRoom formatted formatted-IsFormatted room

free-Marks_example :
    Marks formatted
      (free formatted (data_of formatted + 0))
      0
      false
      (sub32 (SuperBlock.read formatted).alloc_count 1)
free-Marks_example = free-Marks formatted 0 formatted-IsFormatted start

free-alloc_example :
    let e = free (alloc formatted (data_of formatted + 0)) (data_of formatted + 0) in
    (SuperBlock.read e ≡ SuperBlock.read formatted)
    × ((o : ℕ)
        → o < 1048576
        → is_allocated e (data_of formatted + o) ≡ is_allocated formatted (data_of formatted + o))
    × ((a : ℕ) → data_of formatted ≤ a → e a ≡ formatted a)
free-alloc_example =
    free-alloc formatted 0 formatted-IsFormatted start (rw read-formatted (omega arith)) start_clear
