-- ===== src/Fs/Devices.antt =====
-- src/sys/fs/device.rs: the files that stand for devices. The first byte of the file is the type of
-- the device; a drive has its bus and disk in the next two.
use moros.Prelude.{
  ℕ, zero, suc, ◌<◌, ◌≡◌, refl, arith, Bool, Option, none, some, List, [], ◌∷◌, length, get_or,
  replicate, length-replicate, ap, ltb, ◌==◌, if◌then◌else◌,
}
use moros.Run.{Run, ok, panic, Result, good, bad}
use moros.Fs.Block.{block_size}
use moros.Fs.File.{File}

pub data DeviceType : Type 0 where
  null file console random uptime realtime rtc tcp_socket udp_socket drive : DeviceType

abbrev pub device_byte : DeviceType → ℕ
device_byte null = 0
device_byte file = 1
device_byte console = 2
device_byte random = 3
device_byte uptime = 4
device_byte realtime = 5
device_byte rtc = 6
device_byte tcp_socket = 7
device_byte udp_socket = 8
device_byte drive = 9

abbrev type_of_byte : ℕ → Option DeviceType
type_of_byte b =
    if b == 0
    then some null
    else if b == 1
    then some file
    else if b == 2
    then some console
    else if b == 3
    then some random
    else if b == 4
    then some uptime
    else if b == 5
    then some realtime
    else if b == 6
    then some rtc
    else if b == 7
    then some tcp_socket
    else if b == 8
    then some udp_socket
    else if b == 9
    then some drive
    else none

-- `DeviceType::try_from`
unfoldable pub device_type : List ℕ → Option DeviceType
device_type [] = none
device_type (b ∷ bs) = type_of_byte b

-- The sizes of the two kinds of socket depend on the network card.
module _ (tcp_size udp_size : ℕ) where
  abbrev pub device_len : DeviceType → ℕ
  device_len rtc = 19
  device_len uptime = 8
  device_len realtime = 8
  device_len console = 4
  device_len tcp_socket = tcp_size
  device_len udp_socket = udp_size
  device_len drive = block_size
  device_len null = 1
  device_len file = 1
  device_len random = 1

  abbrev put_first : ℕ → ℕ → Run (List ℕ)
  put_first zero b = panic
  put_first (suc n) b = ok (b ∷ replicate n 0)

  -- `DeviceType::buf`
  unfoldable pub device_buf : DeviceType → Run (List ℕ)
  device_buf k = put_first (device_len k) (device_byte k)

-- The sockets and the other devices are their initial states.
pub data Device : Type 0 where
  null console random uptime realtime rtc tcp_socket udp_socket : Device
  file : File → Device
  drive : ℕ → ℕ → Device

abbrev empty_file : File
empty_file = record { parent = none; name = []; addr = 0; size = 0; offset = 0 }

-- `Device::try_from`; `attached` says which drives there are.
unfoldable pub to_device : (ℕ → ℕ → Bool) → List ℕ → Result Device
unfolding device_type
to_device attached buf = elim (device_type buf) [
  | none ↦ bad
  | some null ↦ good null
  | some file ↦ good (file empty_file)
  | some console ↦ good console
  | some random ↦ good random
  | some uptime ↦ good uptime
  | some realtime ↦ good realtime
  | some rtc ↦ good rtc
  | some tcp_socket ↦ good tcp_socket
  | some udp_socket ↦ good udp_socket
  | some drive ↦
      if ltb 2 (length buf)
      then (if attached (get_or buf 1 0) (get_or buf 2 0)
          then good (drive (get_or buf 1 0) (get_or buf 2 0))
          else bad)
      else bad
]

-- If the sizes of the sockets are not 0, the buffer for each type of device has the size of the
-- device and is read back as that type.
pub device_type-device_buf :
    (tcp_size udp_size : ℕ) (k : DeviceType)
    → 0 < tcp_size
    → 0 < udp_size
    → (buf : List ℕ) × (device_buf tcp_size udp_size k ≡ ok buf)
      × (length buf ≡ device_len tcp_size udp_size k)
      × (device_type buf ≡ some k)
unfolding device_buf device_type
device_type-device_buf zero udp_size k t u = absurd (omega arith)
device_type-device_buf (suc t) zero k _ u = absurd (omega arith)
device_type-device_buf (suc t) (suc u) null _ _ = (_, refl, refl, refl)
device_type-device_buf (suc t) (suc u) file _ _ = (_, refl, refl, refl)
device_type-device_buf (suc t) (suc u) console _ _ = (_, refl, refl, refl)
device_type-device_buf (suc t) (suc u) random _ _ = (_, refl, refl, refl)
device_type-device_buf (suc t) (suc u) uptime _ _ = (_, refl, refl, refl)
device_type-device_buf (suc t) (suc u) realtime _ _ = (_, refl, refl, refl)
device_type-device_buf (suc t) (suc u) rtc _ _ = (_, refl, refl, refl)
device_type-device_buf (suc t) (suc u) tcp_socket _ _ =
    (_, refl, ap suc (length-replicate t 0), refl)
device_type-device_buf (suc t) (suc u) udp_socket _ _ =
    (_, refl, ap suc (length-replicate u 0), refl)
device_type-device_buf (suc t) (suc u) drive _ _ = (_, refl, refl, refl)
