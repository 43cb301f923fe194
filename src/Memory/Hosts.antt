-- ===== src/Memory/Hosts.antt =====
-- Two platforms that do what the system header promises: x86, and a host whose words lie in network
-- order.
use sc4051_distributed_banki.Base.{ℕ, ◌≡◌, refl, ap, length}
use sc4051_distributed_banki.Memory.{
  Bytes, AreBytes, little, big, Platform, le_bytes, le_value, network_bytes, network_value,
}
use sc4051_distributed_banki.Memory.Order.{le_bytes-le_value, network_bytes-AreBytes}

-- The word whose n bytes are those of x in the other order.
abbrev pub swapped : ℕ → ℕ → ℕ
swapped n x = le_value (network_bytes n x)

pub swapped4 : (x : ℕ) → le_bytes 4 (swapped 4 x) ≡ network_bytes 4 x
swapped4 x = le_bytes-le_value (network_bytes 4 x) (network_bytes-AreBytes 4 x)

pub swapped2 : (x : ℕ) → le_bytes 2 (swapped 2 x) ≡ network_bytes 2 x
swapped2 x = le_bytes-le_value (network_bytes 2 x) (network_bytes-AreBytes 2 x)

pub from_little :
    (n : ℕ) (bs : Bytes) → AreBytes bs → length bs ≡ n → swapped n (le_value bs) ≡ network_value bs
from_little n bs h l = ap network_value (whole n l)
  where
    whole : (m : ℕ) → length bs ≡ m → le_bytes m (le_value bs) ≡ bs
    whole m e = rw (← e) (le_bytes-le_value bs h)

abbrev pub x86 : Platform
x86 = record {
  endian = little;
  htonl = swapped 4;
  htons = swapped 2;
  ntohl = swapped 4;
  ntohs = swapped 2;
  toupper_negative = λ c. c;
  htonl_order = λ x h. swapped4 x;
  htons_order = λ x h. swapped2 x;
  ntohl_order = from_little 4;
  ntohs_order = from_little 2;
}

abbrev pub network_order_host : Platform
network_order_host = record {
  endian = big;
  htonl = λ x. x;
  htons = λ x. x;
  ntohl = λ x. x;
  ntohs = λ x. x;
  toupper_negative = λ c. c;
  htonl_order = λ x h. refl;
  htons_order = λ x h. refl;
  ntohl_order = λ bs h l. refl;
  ntohs_order = λ bs h l. refl;
}
