-- ===== src/Fs/Block.antt =====
-- src/sys/fs/block.rs: blocks of the disk. A disk is what the mounted device returns for each
-- address; Fs/Device.antt shows how the two kinds of device provide that.
use moros.Prelude.{ℕ, ◌≡◌, ◌≢◌, List, arith, replicate, ◌==◌, if◌then◌else◌}

abbrev pub block_size : ℕ
block_size = 512

abbrev pub Disk : Type 0
Disk = ℕ → List ℕ

pub record Block : Type 0 where
  pub addr : ℕ
  pub buf : List ℕ

abbrev pub zeros : List ℕ
zeros = replicate block_size 0

unfoldable pub new : ℕ → Block
new addr = record { addr = addr; buf = zeros }

unfoldable pub read : Disk → ℕ → Block
read d addr = record { addr = addr; buf = d addr }

unfoldable pub write : Disk → Block → Disk
write d b a = if a == b.addr then b.buf else d a

-- Writing a block changes that block and no other.
pub read-write_self : (d : Disk) (b : Block) → read (write d b) b.addr ≡ b
unfolding read write
read-write_self d b = ground arith

pub read-write_ne : (d : Disk) (b : Block) (a : ℕ) → a ≢ b.addr → read (write d b) a ≡ read d a
unfolding read write
read-write_ne d b a h = ground arith
