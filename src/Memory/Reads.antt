-- ===== src/Memory/Reads.antt =====
-- Reads at an offset: where they are defined, and what they see of a buffer that was written in pieces.
use sc4051_distributed_banki.Base.{
  ℕ, ◌^◌, refl, zero, suc, ap, [], ◌+◌, ◌≤◌, ◌<◌, ◌≡◌, ◌∙◌, ◌∷◌, ◌++◌, arith, length, take, drop,
  take_all, take-append, drop-append, get_elem?-append, get_elem?_in, length-take, length-drop,
  All-take, All-drop, length-append,
}
use sc4051_distributed_banki.Memory.Order.{network_value-lt}
use sc4051_distributed_banki.Base.Outcome.{ok, crash}
use sc4051_distributed_banki.Memory.{Bytes, IsByte, AreBytes, at, memcpy, network_value}

-- A read inside the buffer is defined.
pub memcpy_in :
    (bs : Bytes) (offset n : ℕ)
    → offset + n ≤ length bs
    → memcpy bs offset n ≡ ok (take n (drop offset bs))
unfolding memcpy
memcpy_in bs offset n h = ground arith

pub length-slice :
    (bs : Bytes) (offset n : ℕ) → offset + n ≤ length bs → length (take n (drop offset bs)) ≡ n
length-slice bs offset n h = length-take n (drop offset bs) (omega (arith, length-drop offset bs))

pub slice-AreBytes : (bs : Bytes) (offset n : ℕ) → AreBytes bs → AreBytes (take n (drop offset bs))
slice-AreBytes bs offset n h = All-take IsByte n (drop offset bs) (All-drop IsByte offset bs h)

pub at_in : (bs : Bytes) (i : ℕ) → i < length bs → (b : ℕ) × (at bs i ≡ ok b)
unfolding at
at_in bs i h = let (b, e) = get_elem?_in bs i h in (b, rw e)

-- The n-byte number at an offset, in network order.
abbrev pub field : Bytes → ℕ → ℕ → ℕ
field bs offset n = network_value (take n (drop offset bs))

pub at-field : (bs : Bytes) (i : ℕ) → i < length bs → at bs i ≡ ok (field bs i 1)
unfolding at
at-field [] i h = elim h [ ]
at-field (b ∷ bs) zero h = ap ok (omega arith)
at-field (b ∷ bs) (suc i) h = at-field bs i (omega arith)

pub at-append : (pre : Bytes) (b : ℕ) (post : Bytes) → at (pre ++ b ∷ post) (length pre) ≡ ok b
unfolding at
at-append pre b post = rw get_elem?-append

pub memcpy-append :
    (pre mid post : Bytes) → memcpy (pre ++ (mid ++ post)) (length pre) (length mid) ≡ ok mid
memcpy-append pre mid post =
    memcpy_in (pre ++ (mid ++ post)) (length pre) (length mid)
      (omega (arith, length-append pre (mid ++ post), length-append mid post))
    ∙ rw (drop-append, take-append)

-- The same reads, at an offset and a count that are known by their values.
pub at_after :
    (pre : Bytes) (b : ℕ) (post : Bytes) (i : ℕ) → i ≡ length pre → at (pre ++ b ∷ post) i ≡ ok b
at_after pre b post i e = rw e (at-append pre b post)

pub memcpy_after :
    (pre mid post : Bytes) (i n : ℕ)
    → i ≡ length pre
    → n ≡ length mid
    → memcpy (pre ++ (mid ++ post)) i n ≡ ok mid
memcpy_after pre mid post i n e f = rw (e, f) (memcpy-append pre mid post)

pub memcpy_whole : (bs : Bytes) → memcpy bs 0 (length bs) ≡ ok bs
memcpy_whole bs =
    memcpy_in bs 0 (length bs) (omega arith) ∙ ap ok (take_all (length bs) bs (omega arith))

pub field-lt :
    (bs : Bytes) (offset n : ℕ) → AreBytes bs → offset + n ≤ length bs → field bs offset n < 256 ^ n
field-lt bs offset n h fits =
    rw (length-slice bs offset n fits) at
      (network_value-lt (take n (drop offset bs)) (slice-AreBytes bs offset n h))

-- A read that passes the end is undefined.
pub memcpy_out : (bs : Bytes) (offset n : ℕ) → length bs < offset + n → memcpy bs offset n ≡ crash
unfolding memcpy
memcpy_out bs offset n h = ground arith

pub at_out : (bs : Bytes) (i : ℕ) → length bs ≤ i → at bs i ≡ crash
unfolding at
at_out [] i h = refl
at_out (b ∷ bs) zero h = absurd (omega arith)
at_out (b ∷ bs) (suc i) h = at_out bs i (omega arith)
