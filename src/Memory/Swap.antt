-- ===== src/Memory/Swap.antt =====
-- The reversal of a 64-bit word's bytes that `append_double` (client/src/protocol/cmdEncoder.cpp) and
-- the two decoders of a monetary value write out with masks and shifts.
use sc4051_distributed_banki.Base.{
  ℕ, ◌+◌, ◌*◌, ◌/◌, ◌%◌, ◌^◌, ◌<◌, ◌≡◌, ◌∙◌, refl, sym, ap, length, List, arith,
}
use sc4051_distributed_banki.Base.Bits.{bit_and-byte, bit_or-fields}
use sc4051_distributed_banki.Memory.{
  le_bytes, le_value, network_bytes, Bytes, AreBytes, Endian, store, load, little, big,
}
use sc4051_distributed_banki.Memory.Order.{
  le_bytes-le_value, network_bytes-AreBytes, le_bytes-AreBytes, le_value-lt, le_value-le_bytes,
}
use mathlib.Core.List.{reverse, reverse-reverse}
use Prim.Native.Nat.{bit_and, bit_or}

-- `x << k` on a uint64_t loses what passes bit 63.
abbrev shl : ℕ → ℕ → ℕ
shl x k = x * 2 ^ k % 2 ^ 64

abbrev shr : ℕ → ℕ → ℕ
shr x k = x / 2 ^ k

infixl 25 ◌|||◌
abbrev ◌|||◌ : ℕ → ℕ → ℕ
x ||| y = bit_or x y

unfoldable pub swap64 : ℕ → ℕ
swap64 val =
    shr (bit_and val 0xFF00000000000000) 56
    ||| shr (bit_and val 0x00FF000000000000) 40
    ||| shr (bit_and val 0x0000FF0000000000) 24
    ||| shr (bit_and val 0x000000FF00000000) 8
    ||| shl (bit_and val 0x00000000FF000000) 8
    ||| shl (bit_and val 0x0000000000FF0000) 24
    ||| shl (bit_and val 0x000000000000FF00) 40
    ||| shl (bit_and val 0x00000000000000FF) 56

-- The byte of x that begins at bit k.
abbrev byte : ℕ → ℕ → ℕ
byte x k = x / 2 ^ k % 256

terms :
    (x : ℕ)
    → (shr (bit_and x 0xFF00000000000000) 56 ≡ byte x 56)
      × (shr (bit_and x 0x00FF000000000000) 40 ≡ byte x 48 * 2 ^ 8)
      × (shr (bit_and x 0x0000FF0000000000) 24 ≡ byte x 40 * 2 ^ 16)
      × (shr (bit_and x 0x000000FF00000000) 8 ≡ byte x 32 * 2 ^ 24)
      × (shl (bit_and x 0x00000000FF000000) 8 ≡ byte x 24 * 2 ^ 32)
      × (shl (bit_and x 0x0000000000FF0000) 24 ≡ byte x 16 * 2 ^ 40)
      × (shl (bit_and x 0x000000000000FF00) 40 ≡ byte x 8 * 2 ^ 48)
      × (shl (bit_and x 0x00000000000000FF) 56 ≡ byte x 0 * 2 ^ 56)
terms x = (
  omega (arith, bit_and-byte 56 x),
  omega (arith, bit_and-byte 48 x),
  omega (arith, bit_and-byte 40 x),
  omega (arith, bit_and-byte 32 x),
  omega (arith, bit_and-byte 24 x),
  omega (arith, bit_and-byte 16 x),
  omega (arith, bit_and-byte 8 x),
  omega (arith, bit_and-byte 0 x),
)

-- Eight bytes side by side.
or_bytes :
    (a b c d e f g h : ℕ)
    → a < 256
    → b < 256
    → c < 256
    → d < 256
    → e < 256
    → f < 256
    → g < 256
    → (a
        ||| b * 2 ^ 8
        ||| c * 2 ^ 16
        ||| d * 2 ^ 24
        ||| e * 2 ^ 32
        ||| f * 2 ^ 40
        ||| g * 2 ^ 48
        ||| h * 2 ^ 56)
      ≡ a + b * 2 ^ 8 + c * 2 ^ 16 + d * 2 ^ 24 + e * 2 ^ 32 + f * 2 ^ 40 + g * 2 ^ 48 + h * 2 ^ 56
or_bytes a b c d e f g h la lb lc ld le lf lg =
    let x2 : ℕ = a + b * 2 ^ 8 in
    let x3 : ℕ = x2 + c * 2 ^ 16 in
    let x4 : ℕ = x3 + d * 2 ^ 24 in
    let x5 : ℕ = x4 + e * 2 ^ 32 in
    let x6 : ℕ = x5 + f * 2 ^ 40 in
    let x7 : ℕ = x6 + g * 2 ^ 48 in
    rw (
      bit_or-fields 8 a b (omega arith),
      bit_or-fields 16 x2 c (omega arith),
      bit_or-fields 24 x3 d (omega arith),
      bit_or-fields 32 x4 e (omega arith),
      bit_or-fields 40 x5 f (omega arith),
      bit_or-fields 48 x6 g (omega arith),
      bit_or-fields 56 x7 h (omega arith),
    )

pub swap64-le_value : (x : ℕ) → swap64 x ≡ le_value (network_bytes 8 x)
unfolding swap64
swap64-le_value x =
    let (t0, t1, t2, t3, t4, t5, t6, t7) = terms x in
    rw (t0, t1, t2, t3, t4, t5, t6, t7)
      (or_bytes (byte x 56) (byte x 48) (byte x 40) (byte x 32) (byte x 24) (byte x 16) (byte x 8)
          (byte x 0) (omega arith) (omega arith) (omega arith) (omega arith) (omega arith)
          (omega arith) (omega arith)
        ∙ omega arith)

-- The swapped word has the bytes of the word in the other order.
pub le_bytes-swap64 : (x : ℕ) → le_bytes 8 (swap64 x) ≡ network_bytes 8 x
le_bytes-swap64 x =
    rw swap64-le_value (le_bytes-le_value (network_bytes 8 x) (network_bytes-AreBytes 8 x))

pub swap64-lt : (x : ℕ) → swap64 x < 2 ^ 64
swap64-lt x = rw swap64-le_value (le_value-lt (network_bytes 8 x) (network_bytes-AreBytes 8 x))

-- In memory the swapped word lies in network order on a host that stores the low byte first, and in
-- the reverse of it on a host that stores words in network order already.
pub store-swap64 :
    (x : ℕ)
    → (store little 8 (swap64 x) ≡ network_bytes 8 x) × (store big 8 (swap64 x) ≡ le_bytes 8 x)
store-swap64 x =
    (le_bytes-swap64 x, ap reverse (le_bytes-swap64 x) ∙ reverse-reverse (le_bytes 8 x))

pub swap64_twice : (x : ℕ) → x < 2 ^ 64 → swap64 (swap64 x) ≡ x
swap64_twice x h =
    swap64-le_value (swap64 x)
    ∙ ap (λ (t : List ℕ). le_value (reverse t)) (le_bytes-swap64 x)
    ∙ ap le_value (reverse-reverse (le_bytes 8 x))
    ∙ le_value-le_bytes 8 x h

-- The eight bytes of a double: in network order if the host stores the low byte first, and only then.
abbrev pub double_bytes : Endian → ℕ → Bytes
double_bytes little v = network_bytes 8 v
double_bytes big v = le_bytes 8 v

pub double_store : (e : Endian) (x : ℕ) → store e 8 (swap64 x) ≡ double_bytes e x
double_store little x = (store-swap64 x).0
double_store big x = (store-swap64 x).1

pub length-double_bytes : (e : Endian) (x : ℕ) → length (double_bytes e x) ≡ 8
length-double_bytes little x = refl
length-double_bytes big x = refl

pub load_double : (e : Endian) (x : ℕ) → x < 2 ^ 64 → swap64 (load e (double_bytes e x)) ≡ x
load_double little x h = ap swap64 (sym (swap64-le_value x)) ∙ swap64_twice x h
load_double big x h = ap swap64 (sym (swap64-le_value x)) ∙ swap64_twice x h

pub double_bytes-AreBytes : (e : Endian) (x : ℕ) → AreBytes (double_bytes e x)
double_bytes-AreBytes little x = network_bytes-AreBytes 8 x
double_bytes-AreBytes big x = le_bytes-AreBytes 8 x
