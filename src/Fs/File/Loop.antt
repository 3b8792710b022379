-- ===== src/Fs/File/Loop.antt =====
-- src/sys/fs/file.rs, the loop of `write`, over the blocks of a file that are there already.
use moros.Prelude.{
  ℕ, zero, suc, ◌+◌, ◌-◌, ◌≤◌, ◌<◌, ◌≡◌, ◌≢◌, refl, sym, ◌∙◌, ap, inl, inr, true, false, some, List,
  [], ◌∷◌, ◌++◌, arith, length, ==_iff, length-append, ltb, min, lt_or_ge, append_assoc, subst,
  append-nil,
}
use moros.Word.{u32_mod}
use moros.Run.{ok}
use moros.Fs.Block
use moros.Fs.Block.{Disk, Block, read-write_ne, read-write_self}
use moros.Fs.File.Read.{IsChain, content}
use moros.Fs.Linked
use moros.Fs.Bitmap.{BitField}
use moros.Fs.File.{Writer, write_block, next_for, write_loop}
use moros.Fs.File.Write.{total, at, patched, patched-append, write_block-at}
use moros.Fs.File.Rewrite.{
  rewritten, bytes-rewritten, next_addr-rewritten, Fresh, IsSound, IsChain-write, write-other,
  IsSound-write, content-write,
}

module _ ⦃bits : BitField⦄ (buf : List ℕ) (blocks : ℕ) (d : Disk) (a : ℕ) (w : Writer) where
  write_loop-round :
      (n : ℕ) (d1 : Disk)
      → ltb w.bytes (length buf) ≡ true
      → let c = write_block buf w (Linked.bytes (Block.read d a)) in
        next_for buf d (Block.read d a) c.0.bytes ≡ some (n, d1)
        → write_loop buf (suc blocks) d a w
          ≡ write_loop buf blocks (Block.write d1 (rewritten (Block.read d a) c.1 n)) n c.0
  unfolding write_loop
  write_loop-round n d1 goes next = rw (goes, next) refl

  write_loop-step :
      (w1 : Writer) (new : List ℕ) (n : ℕ) (d1 : Disk)
      → ltb w.bytes (length buf) ≡ true
      → write_block buf w (Linked.bytes (Block.read d a)) ≡ (w1, new)
      → next_for buf d (Block.read d a) w1.bytes ≡ some (n, d1)
      → write_loop buf (suc blocks) d a w
        ≡ write_loop buf blocks (Block.write d1 (rewritten (Block.read d a) new n)) n w1
  write_loop-step w1 new n d1 goes block next =
      write_loop-round n d1 goes (ap (λ c. next_for buf d (Block.read d a) c.0.bytes) block ∙ next)
      ∙ ap (λ c. write_loop buf blocks (Block.write d1 (rewritten (Block.read d a) c.1 n)) n c.0)
          block

  write_loop-stop :
      ltb w.bytes (length buf) ≡ false → write_loop buf (suc blocks) d a w ≡ ok (true, w, d)
  unfolding write_loop
  write_loop-stop h = rw h refl

addr-rewritten : (d : Disk) (a n : ℕ) (new : List ℕ) → (rewritten (Block.read d a) new n).addr ≡ a
unfolding Block.read Linked.set_next_addr Linked.with_bytes
addr-rewritten d a n new = refl

module _ (buf : List ℕ) (begin : ℕ) where
  -- After a write from position `p` on, the chain is a part `kept` of the old one, whose data are
  -- the old ones with those of the buffer; no block of another chain has changed.
  pub record Written (d e : Disk) (a : ℕ) (links : List ℕ) (p : ℕ) : Type 0 where
    pub kept : List ℕ
    pub rest : List ℕ
    pub chain : IsChain e a kept
    pub shorter : length kept ≤ length links
    pub fresh : (x : ℕ) → Fresh x links → Fresh x kept
    pub data_new : content e a kept ≡ patched buf begin p (content d a kept)
    pub data_old : content d a links ≡ content d a kept ++ rest
    pub enough : total buf begin ≤ p + length (content d a kept)
    pub others : (x : ℕ) → Fresh x (a ∷ links) → e x ≡ d x

  module _ ⦃bits : BitField⦄ (some_byte : 0 < length buf) (small : total buf begin < u32_mod) where
    abbrev pub Writes : Disk → ℕ → List ℕ → ℕ → ℕ → Type 0
    Writes d a links p blocks =
        (e : Disk) × (write_loop buf blocks d a (at buf begin p)
          ≡ ok (true, at buf begin (total buf begin), e))
        × Written d e a links p

    module _ (d : Disk) (a p : ℕ) (lt : p < total buf begin) (full : length (d a) ≡ 512) where
      abbrev old : List ℕ
      old = Linked.bytes (Block.read d a)

      abbrev new_bytes : List ℕ
      new_bytes = patched buf begin p old

      full_read : length (Block.read d a).buf ≡ 512
      full_read = unfold Block.read in full

      abbrev after : ℕ → Disk
      after n = Block.write d (rewritten (Block.read d a) new_bytes n)

      read-after : (n : ℕ) → Block.read (after n) a ≡ rewritten (Block.read d a) new_bytes n
      read-after n =
          unfold Block.read Block.write Linked.set_next_addr Linked.with_bytes in
          rw ((==_iff a a).1 refl) refl

      goes : ltb (p - begin) (length buf) ≡ true
      goes = ground (arith, lt, some_byte)

      block :
          write_block buf (at buf begin p) old
          ≡ (at buf begin (min (p + length old) (total buf begin)), new_bytes)
      block = write_block-at buf begin p old (omega (arith, lt)) some_byte small

      -- The write ends in this block.
      last :
          (links rest : List ℕ) (blocks : ℕ)
          → content d a links ≡ old ++ rest
          → total buf begin ≤ p + length old
          → Writes d a links p (suc (suc blocks))
      unfolding next_for
      last links rest blocks more ends = (
        after 0,
        write_loop-step buf (suc blocks) d a (at buf begin p) _ new_bytes 0 d goes
              (block ∙ at_the_end) nothing_left
            ∙ write_loop-stop buf blocks (after 0) 0 (at buf begin (total buf begin)) stops,
        record {
          kept = [];
          rest = rest;
          chain =
              ap Linked.next_addr (read-after 0)
              ∙ next_addr-rewritten (Block.read d a) new_bytes 0 full_read (omega arith);
          shorter = omega arith;
          fresh = λ x h. tt;
          data_new =
              ap Linked.bytes (read-after 0)
              ∙ bytes-rewritten (Block.read d a) new_bytes 0 full_read (omega arith);
          data_old = more;
          enough = ends;
          others = λ x h.
              write-other d (rewritten (Block.read d a) new_bytes 0) x
                (λ e. h.0 (sym (sym (addr-rewritten d a 0 new_bytes) ∙ e)));
        },
      )
        where
          at_end : min (p + length old) (total buf begin) ≡ total buf begin
          at_end = omega (arith, ends)

          at_the_end :
              ◌≡◌ {A = Writer × List ℕ}
                (at buf begin (min (p + length old) (total buf begin)), new_bytes)
                (at buf begin (total buf begin), new_bytes)
          at_the_end = λ t. (at buf begin (at_end t), new_bytes)

          stops : ltb (total buf begin - begin) (length buf) ≡ false
          stops = ground arith

          nothing_left : next_for buf d (Block.read d a) (total buf begin - begin) ≡ some (0, d)
          nothing_left = rw stops refl

      -- The write goes on in the next block.
      onward :
          (b blocks : ℕ) (bs : List ℕ)
          → IsChain d a (b ∷ bs)
          → IsSound d a (b ∷ bs)
          → p + length old < total buf begin
          → Writes (after b) b bs (p + length old) blocks
          → Writes d a (b ∷ bs) p (suc blocks)
      unfolding next_for
      onward b blocks bs chain sound more (e, run, w) = (
        e,
        write_loop-step buf blocks d a (at buf begin p) _ new_bytes b d goes (block ∙ in_block) next
            ∙ run,
        record {
          kept = b ∷ w.kept;
          rest = w.rest;
          chain = (
            ap Linked.next_addr at_a
                ∙ next_addr-rewritten (Block.read d a) new_bytes b full_read sound.1,
            chain.1,
            w.chain,
          );
          shorter = let s = w.shorter in omega (arith, s);
          fresh = λ x h. (h.0, w.fresh x h.1);
          data_new =
              (λ t. bytes_a t ++ data_later t)
              ∙ sym (patched-append buf begin p old (content d b w.kept));
          data_old =
              ap (λ t. old ++ t) (sym same_all ∙ w.data_old ∙ ap (λ t. t ++ w.rest) same_kept)
              ∙ sym (append_assoc old (content d b w.kept) w.rest);
          enough =
              let e0 = w.enough in
              let len = length-append old (content d b w.kept) in
              let lk = ap length same_kept in omega (arith, e0, len, lk);
          others = λ x h.
              w.others x h.1
              ∙ write-other d made x (λ q. h.0 (sym (sym (addr-rewritten d a b new_bytes) ∙ q)));
        },
      )
        where
          made : Block
          made = rewritten (Block.read d a) new_bytes b

          away : (x : ℕ) → a ≢ x → made.addr ≢ x
          away x ne = λ q. ne (sym (addr-rewritten d a b new_bytes) ∙ q)

          at_address : (xs : List ℕ) → Fresh a xs → Fresh made.addr xs
          at_address xs = subst (λ x. Fresh x xs) (sym (addr-rewritten d a b new_bytes))

          at_b : min (p + length old) (total buf begin) ≡ p + length old
          at_b = omega (arith, more)

          in_block :
              ◌≡◌ {A = Writer × List ℕ}
                (at buf begin (min (p + length old) (total buf begin)), new_bytes)
                (at buf begin (p + length old), new_bytes)
          in_block = λ t. (at buf begin (at_b t), new_bytes)

          left : ltb (p + length old - begin) (length buf) ≡ true
          left = ground (arith, more, some_byte)

          next : next_for buf d (Block.read d a) (p + length old - begin) ≡ some (b, d)
          next =
              rw (left, Linked.next-link d (Block.read d a) b chain.0 chain.1)
                (λ t. some (Linked.addr-read d b t, d))

          at_a : Block.read e a ≡ made
          at_a =
              unfold Block.read in
              (λ t. record { addr = a; buf = w.others a sound.2 t }) ∙ read-after b

          bytes_a : Linked.bytes (Block.read e a) ≡ new_bytes
          bytes_a =
              ap Linked.bytes at_a ∙ bytes-rewritten (Block.read d a) new_bytes b full_read sound.1

          same_kept : content (after b) b w.kept ≡ content d b w.kept
          same_kept =
              content-write d made b w.kept (away b sound.2.0)
                (at_address w.kept (w.fresh a sound.2.1))

          same_all : content (after b) b bs ≡ content d b bs
          same_all = content-write d made b bs (away b sound.2.0) (at_address bs sound.2.1)

          data_later : content e b w.kept ≡ patched buf begin (p + length old) (content d b w.kept)
          data_later = w.data_new ∙ ap (patched buf begin (p + length old)) same_kept

      -- What the rest of the chain is after the block was written.
      moved :
          (b : ℕ) (bs : List ℕ)
          → IsChain d b bs
          → Fresh a (b ∷ bs)
          → IsSound d b bs
          → IsChain (after b) b bs
            × IsSound (after b) b bs
            × (content (after b) b bs ≡ content d b bs)
      moved b bs chain fresh sound =
          let made = rewritten (Block.read d a) new_bytes b in
          let away : made.addr ≢ b =
            subst (λ x. x ≢ b) (sym (addr-rewritten d a b new_bytes)) fresh.0 in
          let others : Fresh made.addr bs =
            subst (λ x. Fresh x bs) (sym (addr-rewritten d a b new_bytes)) fresh.1 in
          (
            IsChain-write d made b bs away others chain,
            IsSound-write d made b bs away others sound,
            content-write d made b bs away others,
          )

    pub write_loop-Writes :
        (d : Disk) (a : ℕ) (links : List ℕ) (p blocks : ℕ)
        → IsChain d a links
        → IsSound d a links
        → p < total buf begin
        → total buf begin ≤ p + length (content d a links)
        → suc (length links) < blocks
        → Writes d a links p blocks
    write_loop-Writes d a [] p zero chain sound lt room enough = absurd (omega arith)
    write_loop-Writes d a [] p (suc zero) chain sound lt room enough = absurd (omega arith)
    write_loop-Writes d a [] p (suc (suc blocks)) chain sound lt room enough =
        last d a p lt sound [] [] blocks (sym (append-nil (content d a []))) room
    write_loop-Writes d a (b ∷ bs) p zero chain sound lt room enough = absurd (omega arith)
    write_loop-Writes d a (b ∷ bs) p (suc zero) chain sound lt room enough = absurd (omega arith)
    write_loop-Writes d a (b ∷ bs) p (suc (suc blocks)) chain sound lt room enough =
        elim (lt_or_ge (p + length (old d a p lt sound.0)) (total buf begin)) [
          | inr ends ↦ last d a p lt sound.0 (b ∷ bs) (content d b bs) blocks refl ends
          | inl more ↦
              let (chain1, sound1, same) = moved d a p lt sound.0 b bs chain.2 sound.2 sound.3 in
              let len = length-append (old d a p lt sound.0) (content d b bs) in
              let lk = ap length same in
              onward d a p lt sound.0 b (suc blocks) bs chain sound more (
                write_loop-Writes (after d a p lt sound.0 b) b bs
                  (p + length (old d a p lt sound.0)) (suc blocks) chain1 sound1 more
                  (omega (arith, room, len, lk)) (omega (arith, enough)))
        ]
