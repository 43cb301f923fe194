-- ===== src/CallbackEncoder/Accepts.antt =====
-- What `CallbackEncoder::decode_message` does with any bytes at all.
use sc4051_distributed_banki.Base.{
  ℕ, ◌+◌, ◌≤◌, ◌<◌, ◌≡◌, if◌then◌else◌, ltb, length, take, drop, arith, Bool-cases, inl, inr,
}
use sc4051_distributed_banki.Base.Outcome.{
  Result, ok, fail, crash, ◌>>=◌, deserialize_payload_overflow,
}
use sc4051_distributed_banki.Memory.{Bytes, AreBytes, Platform, load, at, memcpy}
use sc4051_distributed_banki.Memory.Reads.{field, at-field, memcpy_in, at_out, memcpy_out}
use sc4051_distributed_banki.Memory.Words.{read_u32_in}
use sc4051_distributed_banki.Memory.Swap.{swap64}
use sc4051_distributed_banki.Protocol.{CallbackMessage}
use native.Mathlib.Decide.{dec_lt}
use sc4051_distributed_banki.CallbackEncoder.{decode_message, validate_payload}

-- The message that a buffer spells; `n` is the length of the name that it declares.
abbrev pub spelled : Platform → Bytes → CallbackMessage
spelled p bs =
    let n = field bs 6 4 in
    record {
      type = field bs 0 1;
      service = field bs 1 1;
      account_number = field bs 2 4;
      account_owner_name_len = n;
      account_owner_name = take n (drop 10 bs);
      currency = field bs (10 + n) 1;
      monetary_value = swap64 (load p.endian (take 8 (drop (10 + n + 1) bs)));
    }

-- The size that the declared name asks for.
abbrev pub needed : Bytes → ℕ
needed bs = 19 + field bs 6 4

-- A name that leaves no room for itself, the currency and the value makes one of the reads pass the end.
past_end {ℓ} :
    {A : Type ℓ} (bs : Bytes) (n : ℕ) (k : Bytes → ℕ → Bytes → Result A)
    → length bs < 19 + n
    → (do
      name ← memcpy bs 10 n
      currency ← at bs (10 + n)
      val ← memcpy bs (10 + n + 1) 8
      k name currency val)
      ≡ crash
past_end bs n k h = elim (dec_lt (length bs) (10 + n)) [
  | yes name_cut ↦ rw (memcpy_out bs 10 n name_cut)
  | no name_fits ↦ rw (memcpy_in bs 10 n (omega arith)) (elim (dec_lt (10 + n) (length bs)) [
    | yes currency_fits ↦
        rw (at-field bs (10 + n) currency_fits, memcpy_out bs (10 + n + 1) 8 (omega arith))
    | no currency_cut ↦ rw (at_out bs (10 + n) (omega arith))
  ])
]

-- On bytes shorter than a message with an empty name the decoder fails. On longer ones it trusts the
-- declared length of the name: it returns the message that the bytes spell where the name and what
-- follows lie in the buffer, and reads behind the buffer's end everywhere else.
pub decode_message_cases :
    (p : Platform) (bs : Bytes)
    → AreBytes bs
    → decode_message p bs ≡ (
        if ltb (length bs) 19
        then fail deserialize_payload_overflow
        else if ltb (length bs) (needed bs)
        then crash
        else ok (spelled p bs))
unfolding decode_message validate_payload
decode_message_cases p bs h = elim (Bool-cases (ltb (length bs) 19)) [
  | inl short ↦ rw short
  | inr long ↦
      let fits : 19 ≤ length bs = ground arith in
      let n = field bs 6 4 in
      rw
        (
          long,
          at-field bs 0 (omega arith),
          at-field bs 1 (omega arith),
          read_u32_in p bs 2 h (omega arith),
          read_u32_in p bs 6 h (omega arith),
        )
        (elim (Bool-cases (ltb (length bs) (needed bs))) [
          | inl cut ↦ rw cut (past_end bs n _ (ground arith))
          | inr whole ↦
              let room : 19 + n ≤ length bs = ground arith in
              rw (
                whole,
                memcpy_in bs 10 n (omega arith),
                at-field bs (10 + n) (omega arith),
                memcpy_in bs (10 + n + 1) 8 (omega arith),
              )
        ])
]
