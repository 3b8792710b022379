-- ===== src/Fs/File/Read.antt =====
-- src/sys/fs/file.rs: the loops of `read` and the bytes of a chain.
use moros.Prelude.{
  ℕ, zero, suc, ◌+◌, ◌-◌, ◌≤◌, ◌<◌, min, ◌≡◌, ◌≢◌, refl, sym, subst, ◌∙◌, ap, inl, inr, ◌⊎◌, true,
  false, List, [], ◌∷◌, ◌++◌, arith, length, take, drop, set, overwrite, ◌==◌, ==_iff, Bool-cases,
  length-append, append_assoc, append-nil, take-length-append, drop-nil, overwrite-nil,
}
use moros.Word.{u32_mod}
use moros.Run.{ok}
use moros.Fs.Block
use moros.Fs.Block.{Disk, Block}
use moros.Fs.Linked
use moros.Fs.File.{
  File, Reader, Flow, more, return, read_ends, read_byte, read_block, read_loop, read,
}

-- The addresses of a chain that starts at `a`.
abbrev pub IsChain : Disk → ℕ → List ℕ → Type 0
IsChain d a [] = Linked.next_addr (Block.read d a) ≡ 0
IsChain d a (b ∷ bs) = (Linked.next_addr (Block.read d a) ≡ b) × (b ≢ 0) × IsChain d b bs

-- The data of a chain.
abbrev pub content : Disk → ℕ → List ℕ → List ℕ
content d a [] = Linked.bytes (Block.read d a)
content d a (b ∷ bs) = Linked.bytes (Block.read d a) ++ content d b bs

set-overwrite :
    (buf ys : List ℕ) (x : ℕ)
    → length ys < length buf
    → set (overwrite buf 0 ys) (length ys) x ≡ overwrite buf 0 (ys ++ x ∷ [])
set-overwrite [] ys x h = absurd (omega arith)
set-overwrite (b ∷ buf) [] x h = ap (λ t. x ∷ t) (sym (overwrite-nil buf 0))
set-overwrite (b ∷ buf) (y ∷ ys) x h = ap (λ t. y ∷ t) (set-overwrite buf ys x (omega arith))

pub drop-short : (n : ℕ) (xs : List ℕ) → length xs ≤ n → drop n xs ≡ []
drop-short n [] h = drop-nil n
drop-short zero (x ∷ xs) h = absurd (omega arith)
drop-short (suc n) (x ∷ xs) h = drop-short n xs (omega arith)

drop-snoc :
    (n : ℕ) (xs : List ℕ) (x : ℕ) → n ≤ length xs → drop n (xs ++ x ∷ []) ≡ drop n xs ++ x ∷ []
drop-snoc zero xs x h = refl
drop-snoc (suc n) [] x h = absurd (omega arith)
drop-snoc (suc n) (y ∷ xs) x h = drop-snoc n xs x (omega arith)

pub length-drop_add : (n : ℕ) (xs : List ℕ) → n ≤ length xs → length (drop n xs) + n ≡ length xs
length-drop_add zero xs h = omega arith
length-drop_add (suc n) [] h = absurd (omega arith)
length-drop_add (suc n) (x ∷ xs) h = omega (arith, length-drop_add n xs (omega arith))

Flow-cases : (r : Flow Reader) → ((c : Reader) × (r ≡ more c)) ⊎ ((c : Reader) × (r ≡ return c))
Flow-cases (more c) = inl (c, refl)
Flow-cases (return c) = inr (c, refl)

take-drop-append : (n : ℕ) (xs ys : List ℕ) → take (length xs - n) (drop n (xs ++ ys)) ≡ drop n xs
take-drop-append n [] ys =
    let e : length {A = ℕ} [] - n ≡ 0 = omega arith in
    ap (λ t. take t (drop n ys)) e ∙ sym (drop-nil n)
take-drop-append zero (x ∷ xs) ys =
    let e : length (x ∷ xs) - 0 ≡ length (x ∷ xs) = omega arith in
    ap (λ t. take t (x ∷ (xs ++ ys))) e ∙ take-length-append (x ∷ xs) ys
take-drop-append (suc n) (x ∷ xs) ys =
    let e : suc (length xs) - suc n ≡ length xs - n = omega arith in
    ap (λ t. take t (drop n (xs ++ ys))) e ∙ take-drop-append n xs ys

read_ends-true :
    (size buf_len : ℕ) (c : Reader)
    → read_ends size buf_len c ≡ true
    → (c.pos ≡ c.offset) × ((c.bytes ≡ buf_len) ⊎ (c.pos ≡ size))
unfolding read_ends
read_ends-true size buf_len c h = ground arith

module _ (size start : ℕ) (buf : List ℕ) (fits : start ≤ size) where
  -- The variables after the bytes `seen` of the chain.
  record After (seen : List ℕ) (c : Reader) : Type 0 where
    pos : c.pos ≡ length seen
    bytes : c.bytes ≡ length seen - start
    offset : c.offset ≡ start + (length seen - start)
    buffer : c.buf ≡ overwrite buf 0 (drop start seen)
    within : (length seen ≤ start) ⊎ (length seen ≤ size) × (length seen - start ≤ length buf)

  After-byte :
      (seen : List ℕ) (c : Reader) (x : ℕ)
      → length seen + 1 < u32_mod
      → After seen c
      → read_ends size (length buf) c ≡ false
      → After (seen ++ x ∷ []) (read_byte c x)
  unfolding read_ends read_byte
  After-byte seen c x h a e = elim (Bool-cases (c.pos == c.offset)) [
    | inl q ↦
        let ne : (c.bytes ≢ length buf) × (c.pos ≢ size) =
          ((λ (p : c.bytes ≡ length buf). ground arith), λ (p : c.pos ≡ size). ground arith) in
        let at : start ≤ length seen =
          omega (arith, (==_iff c.pos c.offset).0 q, a.pos, a.offset) in
        let room : (length seen - start < length buf) × (length seen < size) =
          omega (arith, ne, a.pos, a.bytes, a.within) in
        let longer : length (seen ++ x ∷ []) ≡ length seen + 1 = length-append seen (x ∷ []) in
        rw q (record {
          pos = omega (arith, a.pos);
          bytes = omega (arith, a.bytes);
          offset = omega (arith, a.offset);
          buffer = stored at room.0;
          within = inr (omega (arith, room));
        })
    | inr q ↦
        let before : length seen < start =
          let ne : c.pos ≢ c.offset = (λ (p : c.pos ≡ c.offset). ground arith) in
          omega (arith, ne, a.pos, a.offset) in
        let longer : length (seen ++ x ∷ []) ≡ length seen + 1 = length-append seen (x ∷ []) in
        rw q (record {
          pos = omega (arith, a.pos);
          bytes = omega (arith, a.bytes);
          offset = omega (arith, a.offset);
          buffer =
              a.buffer
              ∙ ap (overwrite buf 0) (
                  drop-short start seen (omega arith)
                  ∙ sym (drop-short start (seen ++ x ∷ []) (omega (arith, longer))));
          within = inl (omega arith);
        })
  ]
    where
      stored :
          start ≤ length seen
          → length seen - start < length buf
          → set c.buf c.bytes x ≡ overwrite buf 0 (drop start (seen ++ x ∷ []))
      stored at room =
          let n : c.bytes ≡ length (drop start seen) =
            omega (arith, a.bytes, length-drop_add start seen at) in
          (λ i. set (a.buffer i) (n i) x)
          ∙ set-overwrite buf (drop start seen) x (omega (arith, length-drop_add start seen at))
          ∙ ap (overwrite buf 0) (sym (drop-snoc start seen x at))

  -- What the inner loop leaves: all bytes of the block are seen, or the loop returned at one.
  abbrev Reads : List ℕ → List ℕ → Flow Reader → Type 0
  Reads seen xs (more c) = After (seen ++ xs) c
  Reads seen xs (return c) =
      (pre : List ℕ) × (post : List ℕ) × (seen ++ xs ≡ pre ++ post)
      × After pre c
      × (read_ends size (length buf) c ≡ true)

  Reads-cons :
      (seen : List ℕ) (x : ℕ) (xs : List ℕ) (r : Flow Reader)
      → Reads (seen ++ x ∷ []) xs r
      → Reads seen (x ∷ xs) r
  Reads-cons seen x xs (more c) a = subst (λ t. After t c) (append_assoc seen (x ∷ []) xs) a
  Reads-cons seen x xs (return c) (pre, post, e, a, s) =
      (pre, post, sym (append_assoc seen (x ∷ []) xs) ∙ e, a, s)

  read_block-Reads :
      (seen : List ℕ) (c : Reader) (xs : List ℕ)
      → length seen + length xs < u32_mod
      → After seen c
      → Reads seen xs (read_block size (length buf) c xs)
  unfolding read_block
  read_block-Reads seen c [] h a = subst (λ t. After t c) (sym (append-nil seen)) a
  read_block-Reads seen c (x ∷ xs) h a = elim (Bool-cases (read_ends size (length buf) c)) [
    | inl e ↦ rw e (seen, x ∷ xs, refl, a, e)
    | inr e ↦ rw e (
        Reads-cons seen x xs _ (
          read_block-Reads (seen ++ x ∷ []) (read_byte c x) xs
            (omega (arith, length-append seen (x ∷ []))) (After-byte seen c x (omega arith) a e)))
  ]

  -- A normal return: the bytes `pre` of the chain were seen, and it ended or the loop was done.
  record Stops (all : List ℕ) (c : Reader) : Type 0 where
    pre : List ℕ
    post : List ℕ
    split : all ≡ pre ++ post
    after : After pre c
    stop : (read_ends size (length buf) c ≡ true) ⊎ (post ≡ [])

  Stops-of_return :
      (seen xs rest : List ℕ) (c : Reader)
      → Reads seen xs (return c)
      → Stops (seen ++ (xs ++ rest)) c
  Stops-of_return seen xs rest c (pre, post, e, a, s) = record {
    pre = pre;
    post = post ++ rest;
    split = sym (append_assoc seen xs rest) ∙ ap (λ t. t ++ rest) e ∙ append_assoc pre post rest;
    after = a;
    stop = inl s;
  }

  read_loop-Stops :
      (d : Disk) (blocks a : ℕ) (links seen : List ℕ) (c : Reader)
      → IsChain d a links
      → length links < blocks
      → length seen + length (content d a links) < u32_mod
      → After seen c
      → (c' : Reader) × (read_loop size (length buf) blocks d a c ≡ ok c')
        × Stops (seen ++ content d a links) c'
  unfolding read_loop
  read_loop-Stops d zero a links seen c chain h l i = absurd (omega arith)
  read_loop-Stops d (suc blocks) a [] seen c chain h l i =
      let xs = Linked.bytes (Block.read d a) in
      let k = read_block-Reads seen c xs l i in
      elim (Flow-cases (read_block size (length buf) c xs)) [
        | inl (c', e) ↦ (
          c',
          rw (e, read_loop, Linked.next-last d (Block.read d a) chain),
          record {
            pre = seen ++ xs;
            post = [];
            split = sym (append-nil (seen ++ xs));
            after = subst (Reads seen xs) e k;
            stop = inr refl;
          },
        )
        | inr (c', e) ↦ (
          c',
          rw (e, read_loop),
          subst (λ t. Stops (seen ++ t) c') (append-nil xs)
              (Stops-of_return seen xs [] c' (subst (Reads seen xs) e k)),
        )
      ]
  read_loop-Stops d (suc blocks) a (b ∷ links) seen c chain h l i =
      let xs = Linked.bytes (Block.read d a) in
      let k = read_block-Reads seen c xs (omega (arith, length-append xs (content d b links))) i in
      elim (Flow-cases (read_block size (length buf) c xs)) [
        | inl (c', e) ↦
            let (out, run, stops) =
              read_loop-Stops d blocks b links (seen ++ xs) c' chain.2 (omega arith)
                (omega (arith, length-append seen xs, length-append xs (content d b links)))
                (subst (Reads seen xs) e k) in
            (
              out,
              rw
                  (
                    e,
                    read_loop,
                    Linked.next-link d (Block.read d a) b chain.0 chain.1,
                    Linked.addr-read d b,
                  )
                  run,
              subst (λ t. Stops t out) (append_assoc seen xs (content d b links)) stops,
            )
        | inr (c', e) ↦ (
          c',
          rw (e, read_loop),
          Stops-of_return seen xs (content d b links) c' (subst (Reads seen xs) e k),
        )
      ]

  -- The bytes that a normal return has stored.
  Stops-result :
      (all : List ℕ) (c : Reader)
      → size ≤ length all
      → Stops all c
      → let n = min (length buf) (size - start) in
        (c.bytes ≡ n) × (c.offset ≡ start + n) × (c.buf ≡ overwrite buf 0 (take n (drop start all)))
  Stops-result all c h s =
      let n = min (length buf) (size - start) in
      let (count, off) = counts in
      (
        count,
        off,
        s.after.buffer
            ∙ ap (overwrite buf 0) (
                sym (take-drop-append start s.pre s.post) ∙ λ i.
                take (same_count i) (drop start (sym s.split i))),
      )
    where
      long : length s.pre + length s.post ≡ length all
      long = sym (ap length s.split ∙ length-append s.pre s.post)

      counts :
          (c.bytes ≡ min (length buf) (size - start))
          × (c.offset ≡ start + min (length buf) (size - start))
      counts = elim s.stop [
        | inl t ↦
            let r = read_ends-true size (length buf) c t in
            omega (arith, r, long, s.after.pos, s.after.bytes, s.after.offset, s.after.within)
        | inr e ↦
            let none_left : length s.post ≡ 0 = ap length e in
            omega
              (arith, none_left, long, s.after.pos, s.after.bytes, s.after.offset, s.after.within)
      ]

      same_count : length s.pre - start ≡ min (length buf) (size - start)
      same_count = sym s.after.bytes ∙ counts.0

-- If the chain of a file with its offset inside has at least the bytes of its size and the loop may
-- visit all its blocks, `read` returns the bytes of the file from the offset on, as many as the
-- buffer holds or the file has, and moves the offset behind them.
pub read_lem :
    (d : Disk) (f : File) (buf links : List ℕ) (blocks : ℕ)
    → IsChain d f.addr links
    → length links < blocks
    → f.offset ≤ f.size
    → f.size ≤ length (content d f.addr links)
    → length (content d f.addr links) < u32_mod
    → let n = min (length buf) (f.size - f.offset) in
      read blocks d f buf
      ≡ ok (
        n,
        record f { offset = f.offset + n },
        overwrite buf 0 (take n (drop f.offset (content d f.addr links))),
      )
unfolding read
read_lem d f buf links blocks chain enough off size small =
    let start : Reader = record { pos = 0; offset = f.offset; bytes = 0; buf = buf } in
    let (c, run, stops) =
      read_loop-Stops f.size f.offset buf off d blocks f.addr links [] start chain enough
        (omega arith)
        (record {
          pos = refl;
          bytes = omega arith;
          offset = omega arith;
          buffer = sym (overwrite-nil buf 0) ∙ ap (overwrite buf 0) (sym (drop-nil f.offset));
          within = inl (omega arith);
        }) in
    let r = Stops-result f.size f.offset buf off (content d f.addr links) c size stops in
    rw run (λ i. ok (r.0 i, record f { offset = r.1 i }, r.2 i))
