-- ===== src/Fs/Listing.antt =====
-- src/sys/fs/dir.rs, reading a directory as a file (`FileIO for Dir`), and src/api/fs.rs,
-- `read_dir`, which reads the records back.
pub mod Laws
use mathlib.Core.Option
use moros.Prelude.{
  ℕ, zero, suc, ◌+◌, ◌-◌, Bool, true, false, Option, none, some, List, [], ◌∷◌, ◌++◌, length, take,
  drop, get_elem?, overwrite, ltb, if◌then◌else◌,
}
use moros.Word.{add32, u32_mod}
use moros.Run.{Run, ok, panic, stuck, ◌>>=◌}
use moros.Fs.Block.{Disk}
use moros.Fs.Entry.{FileInfo, as_bytes, from_bytes, Dir, node, with_node, DirEntry, info}
use moros.Fs.ReadDir
use moros.Fs.ReadDir.{ReadDir, entry, finish}

-- The entries that an iterator yields.
unfoldable pub list_from : ℕ → ℕ → Disk → ReadDir → Run (List DirEntry)
list_from zero rounds d r = stuck
list_from (suc left) rounds d r = do
  item ← ReadDir.next rounds d r
  elim item [
    | finish _ ↦ ok []
    | entry e r' ↦ (do rest ← list_from left rounds d r'; ok (e ∷ rest))
  ]

-- The loop of `read` at offset `i` of the buffer: the records that fit are copied, and counted in
-- the index of the directory.
unfoldable pub fill : List DirEntry → ℕ → ℕ → List ℕ → ℕ × ℕ × List ℕ
fill [] i index buf = (i, index, buf)
fill (e ∷ es) i index buf =
    let bytes = as_bytes (info e) in
    let j = i + length bytes in
    let rest = fill es j (add32 index 1) (overwrite buf i bytes) in
    if ltb j (length buf) then rest else (i, index, buf)

unfoldable pub read : ℕ → Disk → Dir → List ℕ → Run (ℕ × Dir × List ℕ)
unfolding list_from fill
read rounds d dir buf = do
  es ← list_from rounds rounds d (ReadDir.entries d dir)
  let (n, index, buf') = fill (drop (node dir).entry_index es) 0 (node dir).entry_index buf
  ok (n, with_node dir (record (node dir) { entry_index = index }), buf')

-- `poll`, for `IO::Read`: a directory is read to its end.
unfoldable pub poll_read : ℕ → Disk → Dir → Run Bool
unfolding list_from
poll_read rounds d dir = do
  es ← list_from rounds rounds d (ReadDir.entries d dir)
  ok (ltb (node dir).entry_index (length es))

-- The loop of `read_dir` over `buf[i..]`. A record that is cut off ends it; an index behind the
-- buffer panics.
unfoldable pub read_dir : ℕ → List ℕ → Run (List FileInfo)
read_dir zero buf = stuck
read_dir (suc left) [] = ok []
read_dir (suc left) (b ∷ bs) = elim (get_elem? (b ∷ bs) 13) [
  | none ↦ panic
  | some n ↦ if ltb (length (b ∷ bs)) (14 + n) then ok [] else (do
    i ← from_bytes (take (14 + n) (b ∷ bs))
    rest ← read_dir left (drop (14 + n) (b ∷ bs))
    ok (i ∷ rest))
]
