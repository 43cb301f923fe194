-- ===== src/Memory/Order.antt =====
-- The two byte orders are inverse to one another on words that fit.
use sc4051_distributed_banki.Base.{
  ℕ, zero, suc, ◌+◌, ◌*◌, ◌/◌, ◌%◌, ◌^◌, ◌<◌, ◌≡◌, refl, ap, [], ◌∷◌, arith, length,
}
use sc4051_distributed_banki.Memory.{
  Bytes, AreBytes, le_bytes, le_value, network_bytes, network_value,
}
use mathlib.Core.List.{reverse, reverse_aux, reverse-reverse}
use native.Mathlib.Nat.{pow-suc}

pub length-le_bytes : (n x : ℕ) → length (le_bytes n x) ≡ n
length-le_bytes zero x = refl
length-le_bytes (suc n) x = ap suc (length-le_bytes n (x / 256))

pub le_bytes-AreBytes : (n x : ℕ) → AreBytes (le_bytes n x)
le_bytes-AreBytes zero x = tt
le_bytes-AreBytes (suc n) x = (omega arith, le_bytes-AreBytes n (x / 256))

pub le_value-le_bytes : (n x : ℕ) → x < 256 ^ n → le_value (le_bytes n x) ≡ x
le_value-le_bytes zero x h = omega arith
le_value-le_bytes (suc n) x h =
    omega (arith, le_value-le_bytes n (x / 256) (omega (arith, pow-suc 256 n)))

pub le_value-lt : (bs : Bytes) → AreBytes bs → le_value bs < 256 ^ length bs
le_value-lt [] h = omega arith
le_value-lt (b ∷ bs) h = omega (arith, pow-suc 256 (length bs), le_value-lt bs h.1)

pub le_bytes-le_value : (bs : Bytes) → AreBytes bs → le_bytes (length bs) (le_value bs) ≡ bs
le_bytes-le_value [] h = refl
le_bytes-le_value (b ∷ bs) h = rw (low, high, le_bytes-le_value bs h.1)
  where
    low : (b + 256 * le_value bs) % 256 ≡ b
    low = omega (arith, h.0)

    high : (b + 256 * le_value bs) / 256 ≡ le_value bs
    high = omega (arith, h.0)

length-reverse_aux : (bs acc : Bytes) → length (reverse_aux bs acc) ≡ length bs + length acc
length-reverse_aux [] acc = omega arith
length-reverse_aux (b ∷ bs) acc = omega (arith, length-reverse_aux bs (b ∷ acc))

pub length-reverse : (bs : Bytes) → length (reverse bs) ≡ length bs
length-reverse bs = omega (arith, length-reverse_aux bs [])

reverse_aux-AreBytes : (bs acc : Bytes) → AreBytes bs → AreBytes acc → AreBytes (reverse_aux bs acc)
reverse_aux-AreBytes [] acc h k = k
reverse_aux-AreBytes (b ∷ bs) acc h k = reverse_aux-AreBytes bs (b ∷ acc) h.1 (h.0, k)

pub reverse-AreBytes : (bs : Bytes) → AreBytes bs → AreBytes (reverse bs)
reverse-AreBytes bs h = reverse_aux-AreBytes bs [] h tt

pub length-network_bytes : (n x : ℕ) → length (network_bytes n x) ≡ n
length-network_bytes n x = omega (arith, length-reverse (le_bytes n x), length-le_bytes n x)

pub network_bytes-AreBytes : (n x : ℕ) → AreBytes (network_bytes n x)
network_bytes-AreBytes n x = reverse-AreBytes (le_bytes n x) (le_bytes-AreBytes n x)

pub network_value-network_bytes : (n x : ℕ) → x < 256 ^ n → network_value (network_bytes n x) ≡ x
network_value-network_bytes n x h = rw reverse-reverse (le_value-le_bytes n x h)

pub network_bytes-network_value :
    (bs : Bytes) → AreBytes bs → network_bytes (length bs) (network_value bs) ≡ bs
network_bytes-network_value bs h =
    rw (← length-reverse bs, le_bytes-le_value (reverse bs) (reverse-AreBytes bs h))
      (reverse-reverse bs)

pub network_value-lt : (bs : Bytes) → AreBytes bs → network_value bs < 256 ^ length bs
network_value-lt bs h = rw (← length-reverse bs) (le_value-lt (reverse bs) (reverse-AreBytes bs h))
