-- ===== src/Fs/File.antt =====
-- src/sys/fs/file.rs: reading, writing and seeking in the chain of blocks of a file.
pub mod Read
pub mod Write
pub mod Rewrite
pub mod Loop
pub mod Roundtrip
use mathlib.Core.Option
use moros.Prelude.{
  ℕ, zero, suc, ◌+◌, ◌-◌, ◌<◌, Bool, true, false, ◌&&◌, ◌||◌, Option, none, some, List, [], ◌∷◌,
  length, set, get_or, ltb, leb, ◌==◌, if◌then◌else◌,
}
use moros.Word.{add32}
use moros.Run.{Run, ok, panic, stuck, ◌>>=◌, Result, good, bad}
use moros.Fs.Block
use moros.Fs.Block.{Disk, Block}
use moros.Fs.Linked
use moros.Fs.Bitmap.{BitField}
use moros.Fs.Alloc
use moros.Fs.Entry.{Dir, DirEntry}
use moros.Fs.Dir

pub record File : Type 0 where
  pub parent : Option Dir
  pub name : List ℕ
  pub addr : ℕ
  pub size : ℕ
  pub offset : ℕ

-- `File::from(entry)`
unfoldable pub to_file : DirEntry → File
to_file e = record { parent = some e.dir; name = e.name; addr = e.addr; size = e.size; offset = 0 }

-- The local variables of `read`: the position in the file, the offset of the file, the number of
-- bytes read, and the buffer.
pub record Reader : Type 0 where
  pub pos : ℕ
  pub offset : ℕ
  pub bytes : ℕ
  pub buf : List ℕ

-- The inner loop of `read` either goes on to the next block or returns.
pub data Flow {ℓ} (A : Type ℓ) : Type ℓ where
  more : A → Flow A
  return : A → Flow A

unfoldable pub read_byte : Reader → ℕ → Reader
read_byte c x =
    if c.pos == c.offset
    then record {
      pos = add32 c.pos 1;
      offset = add32 c.offset 1;
      bytes = c.bytes + 1;
      buf = set c.buf c.bytes x;
    }
    else record c { pos = add32 c.pos 1 }

module _ (size buf_len : ℕ) where
  -- `return Ok(bytes)`
  unfoldable pub read_ends : Reader → Bool
  read_ends c = c.pos == c.offset && (c.bytes == buf_len || c.pos == size)

  unfoldable pub read_block : Reader → List ℕ → Flow Reader
  read_block c [] = more c
  read_block c (x ∷ xs) =
      let rest = read_block (read_byte c x) xs in if read_ends c then return c else rest

  -- The loop over the blocks of the chain.
  unfoldable pub read_loop : ℕ → Disk → ℕ → Reader → Run Reader
  read_loop zero d addr c = stuck
  read_loop (suc blocks) d addr c =
      let block = Block.read d addr in
      elim (read_block c (Linked.bytes block)) [
        | return c' ↦ ok c'
        | more c' ↦ elim (Linked.next d block) [
          | some b ↦ read_loop blocks d b.addr c'
          | none ↦ ok c'
        ]
      ]

-- `read` of a file into a buffer: the number of bytes, the file and the buffer.
unfoldable pub read : ℕ → Disk → File → List ℕ → Run (ℕ × File × List ℕ)
read blocks d f buf = do
  c ←
      read_loop f.size (length buf) blocks d f.addr
        (record { pos = 0; offset = f.offset; bytes = 0; buf = buf })
  ok (c.bytes, record f { offset = c.offset }, c.buf)

-- The local variables of `write`.
pub record Writer : Type 0 where
  pub pos : ℕ
  pub offset : ℕ
  pub bytes : ℕ

module _ (buf : List ℕ) where
  unfoldable pub write_ends : Writer → Bool
  write_ends w = w.pos == w.offset && w.bytes == length buf

  unfoldable pub write_byte : Writer → ℕ → Writer × ℕ
  write_byte w x =
      if w.pos == w.offset
      then (
        record { pos = add32 w.pos 1; offset = add32 w.offset 1; bytes = w.bytes + 1 },
        get_or buf w.bytes 0,
      )
      else (record w { pos = add32 w.pos 1 }, x)

  -- The inner loop: the new data of the block.
  unfoldable pub write_block : Writer → List ℕ → Writer × List ℕ
  write_block w [] = (w, [])
  write_block w (x ∷ xs) =
      let rest = write_block (write_byte w x).0 xs in
      if write_ends w then (w, x ∷ xs) else (rest.0, (write_byte w x).1 ∷ rest.1)

  -- The next address and the disk, or `none` for `return Err(())`.
  unfoldable pub next_for : ⦃bits : BitField⦄ → Disk → Block → ℕ → Option (ℕ × Disk)
  next_for d b bytes =
      if ltb bytes (length buf)
      then elim (Linked.next d b) [
        | some b' ↦ some (b'.addr, d)
        | none ↦ Option.map (λ (made : Block × Disk). (made.0.addr, made.1)) (Alloc.alloc d)
      ]
      else some (0, d)

  -- A write ends with an error if there is no block left; then the current block is not written.
  unfoldable pub write_loop : ⦃bits : BitField⦄ → ℕ → Disk → ℕ → Writer → Run (Bool × Writer × Disk)
  write_loop zero d addr w = stuck
  write_loop (suc blocks) d addr w =
      if ltb w.bytes (length buf)
      then (let b = Block.read d addr in
          let (w', new) = write_block w (Linked.bytes b) in
          elim (next_for d b w'.bytes) [
            | none ↦ ok (false, w', d)
            | some (addr', d1) ↦
                write_loop blocks
                  (Block.write d1 (Linked.set_next_addr (Linked.with_bytes b new) addr')) addr' w'
          ])
      else ok (true, w, d)

-- `write`: on success the size is the offset, and the entry in the parent is updated.
unfoldable pub write :
    ⦃bits : BitField⦄ → ℕ → ℕ → Disk → File → List ℕ → Run (Result ℕ × File × Disk)
write rounds time d f buf = do
  (done, w, d1) ← write_loop buf rounds d f.addr (record { pos = 0; offset = f.offset; bytes = 0 })
  if done
      then (do
        let f' = record f { offset = w.offset; size = w.offset }
        d2 ← elim f.parent [
          | none ↦ ok d1
          | some dir ↦ Dir.update_entry rounds time d1 dir f.name w.offset
        ]
        ok (good w.bytes, f', d2))
      else ok (bad, record f { offset = w.offset }, d1)
