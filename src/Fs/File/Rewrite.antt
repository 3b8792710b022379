-- ===== src/Fs/File/Rewrite.antt =====
-- src/sys/fs/file.rs: a block of a chain that `write` writes back, and the chain without it.
use moros.Prelude.{
  ℕ, ◌+◌, ◌<◌, ◌≡◌, ◌≢◌, sym, ◌∙◌, ap, List, [], ◌∷◌, ◌++◌, arith, length, take, drop,
  length-append, drop-overwrite_self, take-length-append, drop-length-append, length-take,
}
use moros.Word.{to_be_bytes, from_be_bytes, from_be_bytes-to_be_bytes, length-to_be_bytes}
use moros.Fs.Block
use moros.Fs.Block.{Disk, Block, read-write_ne, read-write_self}
use moros.Fs.File.Read.{IsChain, content}
use moros.Fs.Linked

-- A block that is written with new data and a link.
abbrev pub rewritten : Block → List ℕ → ℕ → Block
rewritten b new n = Linked.set_next_addr (Linked.with_bytes b new) n

module _ (b : Block) (new : List ℕ) (n : ℕ) (full : length b.buf ≡ 512)
    (small : n < 4294967296) where
  image : (rewritten b new n).buf ≡ to_be_bytes 4 n ++ new
  unfolding Linked.set_next_addr Linked.with_bytes
  image =
      let four : length (take 4 b.buf) ≡ 4 = omega (arith, length-take 4 b.buf, full) in
      let len = length-append (take 4 b.buf) new in
      let link = length-to_be_bytes 4 n in
      let z : 0 + length (to_be_bytes 4 n) ≡ length (take 4 b.buf) = omega (arith, link, four) in
      drop-overwrite_self (take 4 b.buf ++ new) 0 (to_be_bytes 4 n) (omega (arith, len, link, four))
      ∙ ap (λ t. to_be_bytes 4 n ++ drop t (take 4 b.buf ++ new)) z
      ∙ ap (λ t. to_be_bytes 4 n ++ t) (drop-length-append (take 4 b.buf) new)

  pub bytes-rewritten : Linked.bytes (rewritten b new n) ≡ new
  unfolding Linked.bytes
  bytes-rewritten =
      ap (drop 4) image
      ∙ ap (λ t. drop t (to_be_bytes 4 n ++ new)) (sym (length-to_be_bytes 4 n))
      ∙ drop-length-append (to_be_bytes 4 n) new

  pub next_addr-rewritten : Linked.next_addr (rewritten b new n) ≡ n
  unfolding Linked.next_addr
  next_addr-rewritten =
      ap (λ t. from_be_bytes (take 4 t)) image
      ∙ ap (λ t. from_be_bytes (take t (to_be_bytes 4 n ++ new))) (sym (length-to_be_bytes 4 n))
      ∙ ap from_be_bytes (take-length-append (to_be_bytes 4 n) new)
      ∙ from_be_bytes-to_be_bytes 4 n small

-- No block of the list is the block `a`.
abbrev pub Fresh : ℕ → List ℕ → Type 0
Fresh a [] = Unit
Fresh a (b ∷ bs) = (a ≢ b) × Fresh a bs

-- The blocks of a chain are 512 bytes long, under 32-bit addresses, and each is there once.
abbrev pub IsSound : Disk → ℕ → List ℕ → Type 0
IsSound d a [] = length (d a) ≡ 512
IsSound d a (b ∷ bs) = (length (d a) ≡ 512) × (b < 4294967296) × Fresh a (b ∷ bs) × IsSound d b bs

module _ (d : Disk) (x : Block) where
  pub IsChain-write :
      (a : ℕ) (links : List ℕ)
      → x.addr ≢ a
      → Fresh x.addr links
      → IsChain d a links
      → IsChain (Block.write d x) a links
  IsChain-write a [] ne fresh c = ap Linked.next_addr (read-write_ne d x a (λ e. ne (sym e))) ∙ c
  IsChain-write a (b ∷ bs) ne fresh c = (
    ap Linked.next_addr (read-write_ne d x a (λ e. ne (sym e))) ∙ c.0,
    c.1,
    IsChain-write b bs fresh.0 fresh.1 c.2,
  )

  pub write-other : (a : ℕ) → x.addr ≢ a → Block.write d x a ≡ d a
  unfolding Block.write
  write-other a ne = ground arith

  pub IsSound-write :
      (a : ℕ) (links : List ℕ)
      → x.addr ≢ a
      → Fresh x.addr links
      → IsSound d a links
      → IsSound (Block.write d x) a links
  IsSound-write a [] ne fresh s = ap length (write-other a ne) ∙ s
  IsSound-write a (b ∷ bs) ne fresh s =
      (ap length (write-other a ne) ∙ s.0, s.1, s.2, IsSound-write b bs fresh.0 fresh.1 s.3)

  pub content-write :
      (a : ℕ) (links : List ℕ)
      → x.addr ≢ a
      → Fresh x.addr links
      → content (Block.write d x) a links ≡ content d a links
  content-write a [] ne fresh = ap Linked.bytes (read-write_ne d x a (λ e. ne (sym e)))
  content-write a (b ∷ bs) ne fresh = (λ t.
      Linked.bytes (read-write_ne d x a (λ e. ne (sym e)) t)
      ++ content-write b bs fresh.0 fresh.1 t)
