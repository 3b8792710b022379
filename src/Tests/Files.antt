-- ===== src/Tests/Files.antt =====
-- A file of two blocks, seeks in it, the types of devices, and a drive with a cache.
use moros.Prelude.{ℕ, ◌≡◌, refl, none, some, [], ◌∷◌, ◌++◌, arith, replicate, ◌==◌, if◌then◌else◌}
use moros.Word.{from_be_bytes}
use moros.Run.{ok}
use moros.Fs.Block
use moros.Fs.Block.{Disk}
use moros.Fs.Linked
use moros.Fs.File
use moros.Fs.File.{File}
use moros.Prelude.{true}
use moros.Tests.Disks.{bits}
use moros.Fs.File.{write_loop}
use moros.Fs.File.Rewrite.{Fresh, IsSound}
use moros.Fs.File.Roundtrip.{read-write_loop}
use moros.Fs.File.Read.{read_lem}
use moros.Fs.Device.{Drive, BlockDevice, ata, new_ata, read_block, write_block}
use moros.Fs.Device.Laws.{Provides, new_ata-IsCoherent, read_block-Provides, write_block-Provides}

-- 508 bytes `A` in block 10, then 508 bytes `B` in block 11.
abbrev two_blocks : Disk
two_blocks a =
    if a == 10 then 0 ∷ 0 ∷ 0 ∷ 11 ∷ replicate 508 65 else 0 ∷ 0 ∷ 0 ∷ 0 ∷ replicate 508 66

abbrev two_file : File
two_file = record { parent = none; name = b'f' ∷ []; addr = 10; size = 600; offset = 500 }

read_lem_example :
    File.read 2 two_blocks two_file (replicate 20 0)
    ≡ ok (20, record two_file { offset = 520 }, replicate 8 65 ++ replicate 12 66)
unfolding Linked.bytes Linked.next_addr Block.read from_be_bytes
read_lem_example =
    read_lem two_blocks two_file (replicate 20 0) (11 ∷ []) 2 (refl, (omega arith), refl)
      (omega arith) (omega arith) (omega arith) (omega arith)

-- A drive of 64 sectors that holds the blocks above.
abbrev small_drive : Drive
small_drive = record { bus = 0; dsk = 0; count = 64; sectors = λ a. some (two_blocks a) }

small_drive-Provides : Provides (ata (new_ata small_drive)) two_blocks 64
unfolding new_ata
small_drive-Provides = record { coherent = new_ata-IsCoherent small_drive; stored = λ a h. refl }

read_block-Provides_example :
    (dev' : BlockDevice) × (read_block (some (ata (new_ata small_drive))) 11
      ≡ ok ((Block.read two_blocks 11).buf, some dev'))
    × Provides dev' two_blocks 64
read_block-Provides_example =
    read_block-Provides (ata (new_ata small_drive)) two_blocks 64 11 small_drive-Provides
      (omega arith)

write_block-Provides_example :
    (dev' : BlockDevice) × (write_block (some (ata (new_ata small_drive))) 11 Block.zeros
      ≡ ok (some dev'))
    × Provides dev' (Block.write two_blocks (record { addr = 11; buf = Block.zeros })) 64
write_block-Provides_example =
    write_block-Provides (ata (new_ata small_drive)) two_blocks 64 11 Block.zeros
      small_drive-Provides (omega arith)

two_blocks-IsSound : IsSound two_blocks 10 (11 ∷ [])
two_blocks-IsSound = (refl, omega arith, (omega arith, tt), refl)

read-write_loop_example :
    (e : Disk) × (write_loop
        (replicate 20 67)
        3
        two_blocks
        10
        (record { pos = 0; offset = 500; bytes = 0 })
      ≡ ok (true, record { pos = 520; offset = 520; bytes = 20 }, e))
    × (File.read 3 e (record two_file { offset = 0; size = 520 }) (replicate 520 0)
        ≡ ok (
          520,
          record two_file { offset = 520; size = 520 },
          replicate 500 65 ++ replicate 20 67,
        ))
    × ((x : ℕ) → Fresh x (10 ∷ 11 ∷ []) → e x ≡ two_blocks x)
unfolding Linked.bytes Linked.next_addr Block.read from_be_bytes
read-write_loop_example =
    read-write_loop two_blocks two_file (replicate 20 67) (replicate 520 0) (11 ∷ []) 3
      (refl, (omega arith), refl) two_blocks-IsSound (omega arith) (omega arith) (omega arith)
      (omega arith) refl
