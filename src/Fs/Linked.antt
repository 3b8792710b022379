-- ===== src/Fs/Linked.antt =====
-- `LinkedBlock` of src/sys/fs/block.rs: the first four bytes of a block are the address of the
-- next one, and the other 508 bytes are data.
use moros.Prelude.{
  ℕ, ◌≡◌, ◌≢◌, refl, arith, Option, none, some, List, ◌++◌, take, drop, slice, overwrite, ◌==◌,
  if◌then◌else◌,
}
use moros.Word.{to_be_bytes, from_be_bytes}
use moros.Fs.Block.{Disk, Block, read}

abbrev pub data_offset : ℕ
data_offset = 4

-- `block_size - data_offset`
abbrev pub data_len : ℕ
data_len = 508

-- `data`
unfoldable pub bytes : Block → List ℕ
bytes b = drop data_offset b.buf

-- What writes through `data_mut` leave: the link, and the new bytes.
unfoldable pub with_bytes : Block → List ℕ → Block
with_bytes b ys = record b { buf = take data_offset b.buf ++ ys }

unfoldable pub next_addr : Block → ℕ
next_addr b = from_be_bytes (slice 0 4 b.buf)

unfoldable pub next : Disk → Block → Option Block
unfolding next_addr
next d b = let addr = next_addr b in if addr == 0 then none else some (read d addr)

unfoldable pub set_next_addr : Block → ℕ → Block
set_next_addr b addr = record b { buf = overwrite b.buf 0 (to_be_bytes 4 addr) }

pub next-last : (d : Disk) (b : Block) → next_addr b ≡ 0 → next d b ≡ none
unfolding next
next-last d b h = ground arith

pub next-link :
    (d : Disk) (b : Block) (a : ℕ) → next_addr b ≡ a → a ≢ 0 → next d b ≡ some (read d a)
unfolding next
next-link d b a h ne = ground arith

pub addr-read : (d : Disk) (a : ℕ) → (read d a).addr ≡ a
unfolding read
addr-read d a = refl
