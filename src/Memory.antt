-- ===== src/Memory.antt =====
-- How the client's code sees memory: bytes, the order of a word's bytes in the host's memory, the
-- conversions of <arpa/inet.h>, and reads from a `std::vector<uint8_t>` at an offset.
pub mod Order
pub mod Swap
pub mod Reads
pub mod Hosts
pub mod Words
use sc4051_distributed_banki.Base.{
  ℕ, zero, suc, ◌+◌, ◌*◌, ◌/◌, ◌%◌, ◌^◌, ◌<◌, ◌≡◌, List, [], ◌∷◌, length, take, drop, All,
  get_elem?, leb, if◌then◌else◌,
}
use sc4051_distributed_banki.Base.Outcome.{Result, ok, crash, or_crash}
use mathlib.Core.List.{reverse}

-- `std::vector<uint8_t>` and `std::string`.
abbrev pub Bytes : Type 0
Bytes = List ℕ

abbrev pub IsByte : ℕ → Type 0
IsByte b = b < 256

abbrev pub AreBytes : Bytes → Type 0
AreBytes = All IsByte

-- The n bytes of a number, lowest first, and back.
abbrev pub le_bytes : ℕ → ℕ → Bytes
le_bytes zero x = []
le_bytes (suc n) x = (x % 256) ∷ le_bytes n (x / 256)

abbrev pub le_value : Bytes → ℕ
le_value [] = 0
le_value (b ∷ bs) = b + 256 * le_value bs

-- Network byte order: the highest byte first.
abbrev pub network_bytes : ℕ → ℕ → Bytes
network_bytes n x = reverse (le_bytes n x)

abbrev pub network_value : Bytes → ℕ
network_value bs = le_value (reverse bs)

pub data Endian : Type 0 where
  little big : Endian

-- The bytes of an n-byte word as they lie in memory, and the word that they hold.
abbrev pub store : Endian → ℕ → ℕ → Bytes
store little n x = le_bytes n x
store big n x = network_bytes n x

abbrev pub load : Endian → Bytes → ℕ
load little bs = le_value bs
load big bs = network_value bs

-- What the system header declares, with what POSIX says of it: `htonl` turns a word of the host into
-- one whose bytes lie in network order, and `ntohl` reads such a word.
pub record Platform : Type 0 where
  pub endian : Endian
  pub htonl : ℕ → ℕ
  pub htons : ℕ → ℕ
  pub ntohl : ℕ → ℕ
  pub ntohs : ℕ → ℕ
  -- toupper of a negative char, which the C standard leaves undefined: the byte that the char becomes.
  pub toupper_negative : ℕ → ℕ
  pub htonl_order : (x : ℕ) → x < 2 ^ 32 → store endian 4 (htonl x) ≡ network_bytes 4 x
  pub htons_order : (x : ℕ) → x < 2 ^ 16 → store endian 2 (htons x) ≡ network_bytes 2 x
  pub ntohl_order :
      (bs : Bytes) → AreBytes bs → length bs ≡ 4 → ntohl (load endian bs) ≡ network_value bs
  pub ntohs_order :
      (bs : Bytes) → AreBytes bs → length bs ≡ 2 → ntohs (load endian bs) ≡ network_value bs

-- `data[i]`
unfoldable pub at : Bytes → ℕ → Result ℕ
at bs i = or_crash (get_elem? bs i)

-- `memcpy(dest, data.data() + offset, n)`
unfoldable pub memcpy : Bytes → ℕ → ℕ → Result Bytes
memcpy bs offset n = if leb (offset + n) (length bs) then ok (take n (drop offset bs)) else crash
