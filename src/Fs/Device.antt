-- ===== src/Fs/Device.antt =====
-- src/sys/fs/block_device.rs: the block devices under the file system. `sys::ata` is a drive that
-- returns the sectors it can read and refuses the others.
pub mod Laws
use mathlib.Core.Option
use moros.Prelude.{
  ℕ, ◌+◌, ◌%◌, ◌<◌, ◌≡◌, ◌≢◌, refl, sym, ◌∙◌, ap, inl, inr, Bool, true, false, Option, none, some,
  List, [], ◌∷◌, arith, length, get_elem?, set, replicate, ◌==◌, ==_iff, dec_eq, if◌then◌else◌,
  Bool-cases, Option-cases,
}
use moros.Run.{Run, ok, panic, ◌>>=◌, Result, good, bad}
use moros.Fs.Block.{Disk, zeros}

-- `none` for a sector that the drive reports an error for.
pub record Drive : Type 0 where
  pub bus : ℕ
  pub dsk : ℕ
  pub count : ℕ
  pub sectors : ℕ → Option (List ℕ)

abbrev pub cache_size : ℕ
cache_size = 1024

-- Each slot of the cache holds an address and the buffer read there.
pub record AtaBlockDevice : Type 0 where
  pub cache : ℕ → Option (ℕ × List ℕ)
  pub dev : Drive

abbrev pub MemBlockDevice : Type 0
MemBlockDevice = List (List ℕ)

pub data BlockDevice : Type 0 where
  mem : MemBlockDevice → BlockDevice
  ata : AtaBlockDevice → BlockDevice

unfoldable pub new_mem : ℕ → MemBlockDevice
new_mem len = replicate len zeros

abbrev pub hash : ℕ → ℕ
hash addr = addr % cache_size

-- `AtaBlockDevice::new`, on a drive that was opened.
unfoldable pub new_ata : Drive → AtaBlockDevice
new_ata dev = record { cache = λ h. none; dev = dev }

abbrev hit : ℕ → Option (ℕ × List ℕ) → Option (List ℕ)
hit addr none = none
hit addr (some (a, buf)) = if addr == a then some buf else none

unfoldable pub cached_block : AtaBlockDevice → ℕ → Option (List ℕ)
cached_block d addr = hit addr (d.cache (hash addr))

abbrev put_slot : AtaBlockDevice → ℕ → Option (ℕ × List ℕ) → AtaBlockDevice
put_slot d addr entry = record d { cache = λ h. if h == hash addr then entry else d.cache h }

unfoldable pub set_cached_block : AtaBlockDevice → ℕ → List ℕ → AtaBlockDevice
set_cached_block d addr buf = put_slot d addr (some (addr, buf))

unfoldable pub unset_cached_block : AtaBlockDevice → ℕ → AtaBlockDevice
unset_cached_block d addr = put_slot d addr none

-- A read fills the buffer or leaves it, on an error.
unfoldable pub read_ata : AtaBlockDevice → ℕ → Result (List ℕ) × AtaBlockDevice
unfolding cached_block set_cached_block
read_ata d addr = elim (cached_block d addr) [
  | some buf ↦ (good buf, d)
  | none ↦ elim (d.dev.sectors addr) [
    | none ↦ (bad, d)
    | some buf ↦ (good buf, set_cached_block d addr buf)
  ]
]

abbrev write_sector : Drive → ℕ → List ℕ → Drive
write_sector v addr buf = record v { sectors = λ a. if a == addr then some buf else v.sectors a }

unfoldable pub write_ata : AtaBlockDevice → ℕ → List ℕ → Result (Unit {0}) × AtaBlockDevice
unfolding unset_cached_block
write_ata d addr buf = elim (d.dev.sectors addr) [
  | none ↦ (bad, d)
  | some _ ↦ (good tt, unset_cached_block (record d { dev = write_sector d.dev addr buf }) addr)
]

-- An index out of the vector panics.
unfoldable pub read_mem : MemBlockDevice → ℕ → Run (List ℕ)
read_mem d addr = elim (get_elem? d addr) [ none ↦ panic | some buf ↦ ok buf ]

unfoldable pub write_mem : MemBlockDevice → ℕ → List ℕ → Run MemBlockDevice
write_mem d addr buf = elim (get_elem? d addr) [ none ↦ panic | some _ ↦ ok (set d addr buf) ]

unfoldable pub read : BlockDevice → ℕ → Run (Result (List ℕ) × BlockDevice)
unfolding read_mem read_ata
read (mem d) addr = do buf ← read_mem d addr; ok (good buf, mem d)
read (ata d) addr = let (r, d') = read_ata d addr in ok (r, ata d')

unfoldable pub write : BlockDevice → ℕ → List ℕ → Run (Result (Unit {0}) × BlockDevice)
unfolding write_mem write_ata
write (mem d) addr buf = do d' ← write_mem d addr buf; ok (good tt, mem d')
write (ata d) addr buf = let (r, d') = write_ata d addr buf in ok (r, ata d')

unfoldable pub block_count : BlockDevice → ℕ
block_count (mem d) = length d
block_count (ata d) = d.dev.count

-- `Block::read` and `Block::write` on the device that is mounted, if one is: errors are dropped.
unfoldable pub read_block : Option BlockDevice → ℕ → Run (List ℕ × Option BlockDevice)
unfolding read
read_block none addr = ok (zeros, none)
read_block (some dev) addr = do
  (r, dev') ← read dev addr
  ok (elim r [ good buf ↦ buf | bad ↦ zeros ], some dev')

unfoldable pub write_block : Option BlockDevice → ℕ → List ℕ → Run (Option BlockDevice)
unfolding write
write_block none addr buf = ok none
write_block (some dev) addr buf = do (r, dev') ← write dev addr buf; ok (some dev')

-- What each address of a device holds.
abbrev pub holds : BlockDevice → ℕ → Option (List ℕ)
holds (mem d) addr = get_elem? d addr
holds (ata d) addr = d.dev.sectors addr

-- Every block in the cache is the one on the drive.
abbrev pub IsCoherent : BlockDevice → Type 0
IsCoherent (mem d) = Unit
IsCoherent (ata d) =
    (addr : ℕ) (buf : List ℕ) → cached_block d addr ≡ some buf → d.dev.sectors addr ≡ some buf
