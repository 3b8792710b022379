-- ===== src/Fs/Device/Laws.antt =====
-- src/sys/fs/block_device.rs: the disk of Fs/Block.antt that a device with its cache provides.
use moros.Prelude.{
  ℕ, zero, suc, ◌<◌, ◌≡◌, ◌≢◌, refl, sym, ◌∙◌, ap, inl, inr, true, Option, none, some, List, [],
  ◌∷◌, arith, length, get_elem?, set, get_elem?-set_self, get_elem?-set_ne, ◌==◌, ==_iff,
  Bool-cases, ◌⊎◌,
}
use moros.Run.{ok, good}
use moros.Fs.Block
use moros.Fs.Block.{Disk, zeros}
use moros.Fs.Device.{
  hit, write_sector, Drive, AtaBlockDevice, MemBlockDevice, BlockDevice, mem, ata, new_ata, hash,
  cached_block, set_cached_block, unset_cached_block, read_ata, write_ata, read_mem, write_mem,
  read, write, read_block, write_block, holds, IsCoherent,
}

-- The cache of a new drive is empty.
pub new_ata-IsCoherent : (v : Drive) → IsCoherent (ata (new_ata v))
unfolding new_ata cached_block
new_ata-IsCoherent v addr buf h = cc h

hit-slot :
    (a : ℕ) (slot : Option (ℕ × List ℕ)) (buf : List ℕ)
    → hit a slot ≡ some buf
    → slot ≡ some (a, buf)
hit-slot a none buf h = cc h
hit-slot a (some (x, b)) buf h = elim (Bool-cases (a == x)) [
  | inl e ↦
      let same : some b ≡ some buf = sym (rw e refl) ∙ h in
      let here : a ≡ x = (==_iff a x).0 e in cc (same, here)
  | inr e ↦ let other : hit a (some (x, b)) ≡ none = rw e refl in cc (other, h)
]

cached_block-set :
    (d : AtaBlockDevice) (addr a : ℕ) (b buf : List ℕ)
    → cached_block (set_cached_block d addr b) a ≡ some buf
    → ((a ≡ addr) × (b ≡ buf)) ⊎ (cached_block d a ≡ some buf)
unfolding cached_block set_cached_block
cached_block-set d addr a b buf h = elim (Bool-cases (hash a == hash addr)) [
  | inl e ↦
      let slot : some (addr, b) ≡ some (a, buf) =
        sym (rw e refl) ∙ hit-slot a ((set_cached_block d addr b).cache (hash a)) buf h in
      inl (cc slot, cc slot)
  | inr e ↦ inr (sym (rw e refl) ∙ h)
]

cached_block-unset :
    (d : AtaBlockDevice) (addr a : ℕ) (buf : List ℕ)
    → cached_block (unset_cached_block d addr) a ≡ some buf
    → (a ≢ addr) × (cached_block d a ≡ some buf)
unfolding cached_block unset_cached_block
cached_block-unset d addr a buf h = elim (Bool-cases (hash a == hash addr)) [
  | inl e ↦
      let slot : none ≡ some (a, buf) =
        sym (rw e refl) ∙ hit-slot a ((unset_cached_block d addr).cache (hash a)) buf h in
      cc slot
  | inr e ↦ (
    (λ same.
        let yes_e : (hash a == hash addr) ≡ true = (==_iff (hash a) (hash addr)).1 (ap hash same) in
        cc (e, yes_e)),
    sym (rw e refl) ∙ h,
  )
]

-- The device `dev` returns the blocks of the disk `d` below `n`.
pub record Provides (dev : BlockDevice) (d : Disk) (n : ℕ) : Type 0 where
  pub coherent : IsCoherent dev
  pub stored : (a : ℕ) → a < n → holds dev a ≡ some (d a)

-- Reading a block the device holds returns it, and changes nothing but the cache.
Reads : BlockDevice → ℕ → List ℕ → Type 0
Reads dev addr buf =
    (dev' : BlockDevice) × (read dev addr ≡ ok (good buf, dev'))
    × IsCoherent dev'
    × ((a : ℕ) → holds dev' a ≡ holds dev a)

read_ata_lem :
    (d : AtaBlockDevice) (addr : ℕ) (buf : List ℕ) (c : Option (List ℕ))
    → IsCoherent (ata d)
    → d.dev.sectors addr ≡ some buf
    → cached_block d addr ≡ c
    → Reads (ata d) addr buf
unfolding Reads read read_ata
read_ata_lem d addr buf none co h miss = (
  ata (set_cached_block d addr buf),
  rw (miss, h, read, read_ata) refl,
  (λ a b hit_a. elim (cached_block-set d addr a buf b hit_a) [
    | inl same ↦ unfold set_cached_block in rw (same.0, h) (ap some same.1)
    | inr old ↦ unfold set_cached_block in co a b old
  ]),
  λ a. unfold set_cached_block in refl,
)
read_ata_lem d addr buf (some b) co h cached =
    let same : some b ≡ some buf = sym (co addr b cached) ∙ h in
    let same_buf : b ≡ buf = cc same in
    (ata d, rw (cached, same_buf, read, read_ata) refl, co, λ a. refl)

read_lem :
    (dev : BlockDevice) (addr : ℕ) (buf : List ℕ)
    → IsCoherent dev
    → holds dev addr ≡ some buf
    → Reads dev addr buf
unfolding Reads read read_mem
read_lem (mem d) addr buf co h = (mem d, rw (h, read_mem) refl, tt, λ a. refl)
read_lem (ata d) addr buf co h = read_ata_lem d addr buf (cached_block d addr) co h refl

-- Writing over a block that the device holds.
Writes : BlockDevice → ℕ → List ℕ → Type 0
Writes dev addr buf =
    (dev' : BlockDevice) × (write dev addr buf ≡ ok (good tt, dev'))
    × IsCoherent dev'
    × (holds dev' addr ≡ some buf)
    × ((a : ℕ) → a ≢ addr → holds dev' a ≡ holds dev a)

get_elem?-bound :
    (d : MemBlockDevice) (addr : ℕ) (b : List ℕ) → get_elem? d addr ≡ some b → addr < length d
get_elem?-bound [] addr b h = cc h
get_elem?-bound (x ∷ d) zero b h = omega arith
get_elem?-bound (x ∷ d) (suc addr) b h =
    let rest = get_elem?-bound d addr b h in omega (arith, rest)

write_lem :
    (dev : BlockDevice) (addr : ℕ) (old buf : List ℕ)
    → IsCoherent dev
    → holds dev addr ≡ some old
    → Writes dev addr buf
unfolding Writes write write_mem write_ata
write_lem (mem d) addr old buf co h = (
  mem (set d addr buf),
  rw (h, write_mem) refl,
  tt,
  get_elem?-set_self d addr buf (get_elem?-bound d addr old h),
  λ a ne. get_elem?-set_ne d buf (λ e. ne (sym e)),
)
write_lem (ata d) addr old buf co h = (
  ata (unset_cached_block written addr),
  rw (h, write_ata) refl,
  (λ a b hit_a.
      let (ne, old_hit) = cached_block-unset written addr a b hit_a in
      unfold unset_cached_block in elsewhere a ne ∙ co a b (unfold cached_block in old_hit)),
  unfold unset_cached_block in rw ((==_iff addr addr).1 refl) refl,
  λ a ne. unfold unset_cached_block in elsewhere a ne,
)
  where
    written : AtaBlockDevice
    written = record d { dev = write_sector d.dev addr buf }

    elsewhere : (a : ℕ) → a ≢ addr → written.dev.sectors a ≡ d.dev.sectors a
    elsewhere a ne = elim (Bool-cases (a == addr)) [
      | inl e ↦ absurd (ne ((==_iff a addr).0 e))
      | inr e ↦ rw e refl
    ]

-- On a mounted device that provides a disk below `n`, `Block::read` of an address below `n` returns
-- the block of the disk, whatever the cache held, and the device goes on providing the disk.
pub read_block-Provides :
    (dev : BlockDevice) (d : Disk) (n addr : ℕ)
    → Provides dev d n
    → addr < n
    → (dev' : BlockDevice) × (read_block (some dev) addr ≡ ok ((Block.read d addr).buf, some dev'))
      × Provides dev' d n
unfolding read_block Block.read Reads
read_block-Provides dev d n addr p h =
    let (dev', returned, co, same) = read_lem dev addr (d addr) p.coherent (p.stored addr h) in
    (dev', rw returned refl, record { coherent = co; stored = λ a ha. same a ∙ p.stored a ha })

-- On a mounted device that provides a disk below `n`, `Block::write` to an address below `n`
-- succeeds and leaves it providing the disk with that block written: no other block changed, and no
-- old copy of the block is left in the cache.
pub write_block-Provides :
    (dev : BlockDevice) (d : Disk) (n addr : ℕ) (buf : List ℕ)
    → Provides dev d n
    → addr < n
    → (dev' : BlockDevice) × (write_block (some dev) addr buf ≡ ok (some dev'))
      × Provides dev' (Block.write d (record { addr = addr; buf = buf })) n
unfolding write_block Block.write Writes
write_block-Provides dev d n addr buf p h =
    let (dev', returned, co, here, others) =
      write_lem dev addr (d addr) buf p.coherent (p.stored addr h) in
    (
      dev',
      rw returned refl,
      record {
        coherent = co;
        stored = λ a ha. elim (Bool-cases (a == addr)) [
          | inl e ↦ let same : a ≡ addr = (==_iff a addr).0 e in rw (e, same) here
          | inr e ↦
              let ne : a ≢ addr =
                λ same. let t : (a == addr) ≡ true = (==_iff a addr).1 same in cc (e, t) in
              rw (e, others a ne) (p.stored a ha)
        ];
      },
    )
