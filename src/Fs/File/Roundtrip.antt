-- ===== src/Fs/File/Roundtrip.antt =====
-- src/sys/fs/file.rs: reading what was written.
use moros.Prelude.{
  ℕ, zero, suc, ◌+◌, ◌-◌, ◌≤◌, ◌<◌, ◌≡◌, refl, sym, ◌∙◌, ap, inl, inr, Bool, true, false, List, [],
  ◌∷◌, ◌++◌, arith, length, take, drop, get_or, overwrite, length-append, ltb, min, lt_or_ge,
  length-take,
}
use moros.Word.{u32_mod}
use moros.Run.{ok}
use moros.Fs.Block.{Disk}
use moros.Fs.Bitmap.{BitField}
use moros.Fs.File.{File, Writer, write_loop, read}
use moros.Fs.File.Read.{IsChain, content, drop-short, read_lem}
use moros.Fs.File.Write.{total, at, byte_at, patched, length-patched}
use moros.Fs.File.Rewrite.{Fresh, IsSound}
use moros.Fs.File.Loop.{Written, write_loop-Writes}

drop-get_or : (i : ℕ) (xs : List ℕ) → i < length xs → drop i xs ≡ get_or xs i 0 ∷ drop (suc i) xs
drop-get_or i [] h = absurd (omega arith)
drop-get_or zero (x ∷ xs) h = refl
drop-get_or (suc i) (x ∷ xs) h = drop-get_or i xs (omega arith)

overwrite-whole : (xs ys : List ℕ) → length xs ≡ length ys → overwrite xs 0 ys ≡ ys
overwrite-whole [] [] h = refl
overwrite-whole [] (y ∷ ys) h = absurd (omega arith)
overwrite-whole (x ∷ xs) [] h = absurd (omega arith)
overwrite-whole (x ∷ xs) (y ∷ ys) h = ap (λ t. y ∷ t) (overwrite-whole xs ys (omega arith))

take-append_before : (n : ℕ) (xs ys : List ℕ) → n ≤ length xs → take n (xs ++ ys) ≡ take n xs
take-append_before zero xs ys h = refl
take-append_before (suc n) [] ys h = absurd (omega arith)
take-append_before (suc n) (x ∷ xs) ys h =
    ap (λ t. x ∷ t) (take-append_before n xs ys (omega arith))

module _ (buf : List ℕ) (begin : ℕ) where
  take-patched_after :
      (p : ℕ) (xs : List ℕ)
      → begin ≤ p
      → total buf begin ≤ p + length xs
      → take (total buf begin - p) (patched buf begin p xs) ≡ drop (p - begin) buf
  take-patched_after p [] from room =
      let z : total buf begin - p ≡ 0 = omega arith in
      ap (λ t. take t []) z ∙ sym (drop-short (p - begin) buf (omega arith))
  take-patched_after p (x ∷ xs) from room = elim (lt_or_ge p (total buf begin)) [
    | inr over ↦
        let z : total buf begin - p ≡ 0 = omega arith in
        ap (λ t. take t (patched buf begin p (x ∷ xs))) z
        ∙ sym (drop-short (p - begin) buf (omega arith))
    | inl lt ↦
        let one : total buf begin - p ≡ suc (total buf begin - (p + 1)) = omega arith in
        let a : ltb p begin ≡ false = ground arith in
        let b : ltb p (total buf begin) ≡ true = ground arith in
        let byte : byte_at buf begin p x ≡ get_or buf (p - begin) 0 = rw (a, b) refl in
        let rest = take-patched_after (p + 1) xs (omega arith) (omega arith) in
        let up : p + 1 - begin ≡ suc (p - begin) = omega arith in
        ap (λ t. take t (patched buf begin p (x ∷ xs))) one
        ∙ (λ t. byte t ∷ rest t)
        ∙ ap (λ t. get_or buf (p - begin) 0 ∷ drop t buf) up
        ∙ sym (drop-get_or (p - begin) buf (omega arith))
  ]

  take-patched :
      (p : ℕ) (xs : List ℕ)
      → p ≤ begin
      → total buf begin ≤ p + length xs
      → take (total buf begin - p) (patched buf begin p xs) ≡ take (begin - p) xs ++ buf
  take-patched p [] to room =
      let here : begin ≤ p = omega arith in
      let a : p - begin ≡ 0 = omega arith in
      let b : begin - p ≡ 0 = omega arith in
      take-patched_after p [] here room
      ∙ ap (λ t. drop t buf) a
      ∙ ap (λ t. take t [] ++ buf) (sym b)
  take-patched p (x ∷ xs) to room = elim (lt_or_ge p begin) [
    | inr at_begin ↦
        let a : p - begin ≡ 0 = omega arith in
        let b : begin - p ≡ 0 = omega arith in
        take-patched_after p (x ∷ xs) at_begin room
        ∙ ap (λ t. drop t buf) a
        ∙ ap (λ t. take t (x ∷ xs) ++ buf) (sym b)
    | inl before ↦
        let one : total buf begin - p ≡ suc (total buf begin - (p + 1)) = omega arith in
        let two : begin - p ≡ suc (begin - (p + 1)) = omega arith in
        let a : ltb p begin ≡ true = ground arith in
        let byte : byte_at buf begin p x ≡ x = rw a refl in
        let rest = take-patched (p + 1) xs (omega arith) (omega arith) in
        ap (λ t. take t (patched buf begin p (x ∷ xs))) one
        ∙ (λ t. byte t ∷ rest t)
        ∙ ap (λ t. take t (x ∷ xs) ++ buf) (sym two)
  ]

-- On a file whose chain has blocks of 512 bytes, each once and under 32-bit addresses, the loop of
-- `write` puts a buffer that is not empty, and ends inside the blocks of the chain, at the offset:
-- if the loops may visit all blocks and once more, it succeeds, reading the file from its start
-- then returns the old bytes up to the offset and the buffer, and no block off the chain has
-- changed.
pub read-write_loop :
    ⦃bits : BitField⦄ (d : Disk) (f : File) (buf out links : List ℕ) (blocks : ℕ)
    → IsChain d f.addr links
    → IsSound d f.addr links
    → 0 < length buf
    → f.offset + length buf ≤ length (content d f.addr links)
    → length (content d f.addr links) < u32_mod
    → suc (length links) < blocks
    → length out ≡ f.offset + length buf
    → (e : Disk) × (write_loop buf blocks d f.addr
          (record { pos = 0; offset = f.offset; bytes = 0 })
        ≡ ok (
          true,
          record {
            pos = f.offset + length buf;
            offset = f.offset + length buf;
            bytes = length buf;
          },
          e,
        ))
      × (read blocks e (record f { offset = 0; size = f.offset + length buf }) out
          ≡ ok (
            f.offset + length buf,
            record f { offset = f.offset + length buf; size = f.offset + length buf },
            take f.offset (content d f.addr links) ++ buf,
          ))
      × ((x : ℕ) → Fresh x (f.addr ∷ links) → e x ≡ d x)
read-write_loop d f buf out links blocks chain sound some_byte room small enough sized =
    let (e, run, w) =
      write_loop-Writes buf f.offset some_byte (omega (arith, room, small)) d f.addr links 0 blocks
        chain sound (omega (arith, some_byte)) (omega (arith, room)) enough in
    (e, begins ∙ run ∙ ap (λ t. ok (finished e t)) last_writer, reads e w, w.others)
  where
    end : ℕ
    end = f.offset + length buf

    begins :
        write_loop buf blocks d f.addr (record { pos = 0; offset = f.offset; bytes = 0 })
        ≡ write_loop buf blocks d f.addr (at buf f.offset 0)
    begins =
        let off : f.offset ≡ f.offset + (0 - f.offset) = omega arith in
        let none_yet : 0 ≡ 0 - f.offset = omega arith in
        λ t. write_loop buf blocks d f.addr (record { pos = 0; offset = off t; bytes = none_yet t })

    finished : Disk → Writer → Bool × Writer × Disk
    finished e w = (true, w, e)

    last_writer :
        at buf f.offset (total buf f.offset)
        ≡ record { pos = end; offset = end; bytes = length buf }
    last_writer =
        let off : f.offset + (f.offset + length buf - f.offset) ≡ end = omega arith in
        let all : f.offset + length buf - f.offset ≡ length buf = omega arith in
        λ t. record { pos = end; offset = off t; bytes = all t }

    reads :
        (e : Disk)
        → Written buf f.offset d e f.addr links 0
        → read blocks e (record f { offset = 0; size = end }) out
          ≡ ok (
            end,
            record f { offset = end; size = end },
            take f.offset (content d f.addr links) ++ buf,
          )
    reads e w =
        let old = content d f.addr w.kept in
        let new_len = ap length w.data_new ∙ length-patched buf f.offset 0 old in
        let old_len = ap length w.data_old ∙ length-append old w.rest in
        let all = w.enough in
        let fewer = w.shorter in
        let n : min (length out) (end - 0) ≡ end = omega (arith, sized) in
        let at_end : 0 + min (length out) (end - 0) ≡ end = omega (arith, sized) in
        let z : f.offset - 0 ≡ f.offset = omega arith in
        let before : take f.offset (content d f.addr links) ≡ take f.offset old =
          ap (take f.offset) w.data_old
          ∙ take-append_before f.offset old w.rest (omega (arith, all)) in
        let whole : take end (content e f.addr w.kept)
            ≡ take f.offset (content d f.addr links) ++ buf =
          ap (take end) w.data_new
          ∙ ap (λ t. take t (patched buf f.offset 0 old)) (let q : end ≡ end - 0 = omega arith in q)
          ∙ take-patched buf f.offset 0 old (omega arith) all
          ∙ ap (λ t. take t old ++ buf) z
          ∙ ap (λ t. t ++ buf) (sym before) in
        let len : length out ≡ length (take f.offset (content d f.addr links) ++ buf) = omega (
          arith,
          sized,
          room,
          length-append (take f.offset (content d f.addr links)) buf,
          length-take f.offset (content d f.addr links),
        ) in
        read_lem e (record f { offset = 0; size = end }) out w.kept blocks w.chain
          (omega (arith, fewer, enough)) (omega arith) (omega (arith, new_len, all))
          (omega (arith, new_len, old_len, small))
        ∙ (λ t. ok (
          n t,
          record f { offset = at_end t; size = end },
          overwrite out 0 (take (n t) (content e f.addr w.kept)),
        ))
        ∙ ap (λ t. ok (end, record f { offset = end; size = end }, t))
            (ap (overwrite out 0) whole ∙ overwrite-whole out _ len)
