-- ===== src/CmdEncoder/Safety.antt =====
-- `decode_message` on any bytes at all: it ends, and reads nothing outside the buffer.
use sc4051_distributed_banki.Base.{
  ℕ, zero, suc, ◌+◌, ◌-◌, ◌^◌, ◌≤◌, ◌<◌, ◌≡◌, refl, ◌⊎◌, inl, inr, Option, none, some, Bool, true,
  false, length, arith, Bool-cases, Option-cases, ltb, ◌==◌,
}
use sc4051_distributed_banki.Base.Outcome.{
  InternalError, Result, ok, fail, crash, unfinished, or_fail, require, Returns, ◌>>=◌, ◌>>◌,
  bind_assoc, decode_unknown_field, decode_field_overflow, decode_offset_overflow,
}
use sc4051_distributed_banki.Memory.{Bytes, AreBytes, Platform}
use sc4051_distributed_banki.Memory.Reads.{field, field-lt, at_in, memcpy_in}
use sc4051_distributed_banki.Memory.Words.{read_u32_in}
use sc4051_distributed_banki.SafeMath.{safe_add}
use sc4051_distributed_banki.SafeMath.Bounds.{safe_add64, safe_add_exact}
use sc4051_distributed_banki.Protocol.{Command, empty_command, FieldId, service}
use sc4051_distributed_banki.CmdEncoder.Decode.{
  to_field_id, is_within_data_size, decode_func_map, decode_step, decode_loop, decode_message,
  decode_service, decode_account_number, decode_account_owner_name, decode_account_password,
  decode_tx_account_number, decode_tx_account_owner_name, decode_monetary_value, decode_currency,
  decode_monitor_updates, decode_monitor_timeout_seconds,
}

-- A result that is an error or a value.
abbrev Settled {ℓ} : {A : Type ℓ} → Result A → Type ℓ
Settled {A} r = ((e : InternalError) × (r ≡ fail e)) ⊎ ((a : A) × (r ≡ ok a))

guarded {ℓ} : {A : Type ℓ} (b : Bool) (e : InternalError) (a : A) → Settled (require b e >> ok a)
guarded true e a = inr (a, refl)
guarded false e a = inl (e, refl)

module _ (p : Platform) where
  -- A decoder whose field lies in the buffer reads inside it.
  decoder_settles :
      (cmd : Command) (id : FieldId) (offset len : ℕ) (bytes : Bytes)
      → offset + len ≤ length bytes
      → Settled (
          or_fail (decode_func_map p id) decode_unknown_field >>= λ decoder.
          decoder cmd offset len bytes)
  unfolding decode_service decode_account_number decode_account_owner_name decode_account_password
      decode_tx_account_number decode_tx_account_owner_name decode_monetary_value decode_currency
      decode_monitor_updates decode_monitor_timeout_seconds
  decoder_settles cmd service offset len bytes h = rw (memcpy_in bytes offset len h) (guarded _ _ _)
  decoder_settles cmd _ offset len bytes h = rw (memcpy_in bytes offset len h) (guarded _ _ _)

within_sound :
    (offset len : ℕ) (bytes : Bytes)
    → offset < 2 ^ 64
    → len < 2 ^ 64
    → is_within_data_size offset len bytes ≡ true
    → (offset + len ≤ length bytes) × (offset + len < 2 ^ 64)
unfolding is_within_data_size
within_sound offset len bytes ho hl h = ground (arith, safe_add_exact 64 offset len ho hl)

-- A round returns: it breaks, fails, or moves on inside the buffer by five bytes at least.
abbrev Advances : Bytes → ℕ → Result (Option (Command × ℕ)) → Type 0
Advances bytes offset (ok none) = Unit
Advances bytes offset (ok (some (cmd, next))) = (offset + 5 ≤ next) × (next ≤ length bytes)
Advances bytes offset (fail e) = Unit
Advances bytes offset crash = ⊥
Advances bytes offset unfinished = ⊥

module _ (p : Platform) (cmd : Command) (bytes : Bytes) (offset : ℕ)
    (small : length bytes + 5 < 2 ^ 64) where
  -- The second half of a round, when the tag and the length are read.
  content-Advances :
      (id : FieldId) (len : ℕ)
      → offset + 5 ≤ length bytes
      → len < 2 ^ 32
      → Advances bytes offset (do
        require (is_within_data_size (offset + 1 + 4) len bytes) decode_field_overflow
        decoder ← or_fail (decode_func_map p id) decode_unknown_field
        cmd' ← decoder cmd (offset + 1 + 4) len bytes
        next_offset ← or_fail (safe_add 64 (offset + 1 + 4) len) decode_offset_overflow
        ok (some (cmd', next_offset)))
  content-Advances id len room short =
      elim (Bool-cases (is_within_data_size (offset + 1 + 4) len bytes)) [
        | inr outside ↦ rw outside tt
        | inl within ↦
            let (fits, low) =
              within_sound (offset + 1 + 4) len bytes (omega arith) (omega arith) within in
            rw
              (
                within,
                safe_add64 (offset + 1 + 4) len low,
                ← bind_assoc {C = Option (Command × ℕ)}
                    (or_fail (decode_func_map p id) decode_unknown_field)
                    (λ decoder. decoder cmd (offset + 1 + 4) len bytes)
                    (λ cmd'. ok (some (cmd', offset + 1 + 4 + len))),
              )
              (elim (decoder_settles p cmd id (offset + 1 + 4) len bytes fits) [
                | inl (e, failed) ↦ rw failed tt
                | inr (cmd', decoded) ↦ rw decoded (omega arith, omega arith)
              ])
      ]

  decode_step-Advances :
      AreBytes bytes
      → offset ≤ length bytes
      → Advances bytes offset (decode_step p cmd offset bytes)
  unfolding decode_step
  decode_step-Advances octets inside =
      rw (safe_add64 offset 1 (omega arith), safe_add64 (offset + 1) 4 (omega arith))
        (elim (Bool-cases (ltb (length bytes) (offset + 1 + 4))) [
          | inl cut ↦ rw cut tt
          | inr fits ↦
              let room : offset + 5 ≤ length bytes = ground arith in
              let (b, tag) = at_in bytes offset (omega arith) in
              rw (fits, tag)
                (elim (Option-cases (to_field_id b)) [
                  | inl unknown ↦ rw unknown tt
                  | inr (id, known) ↦
                      rw (known, read_u32_in p bytes (offset + 1) octets (omega arith))
                        (content-Advances id (field bytes (offset + 1) 4) room
                          (field-lt bytes (offset + 1) 4 octets (omega arith)))
                ])
        ])

decode_loop-Returns :
    (p : Platform) (fuel : ℕ) (cmd : Command) (offset : ℕ) (bytes : Bytes)
    → AreBytes bytes
    → length bytes + 5 < 2 ^ 64
    → offset ≤ length bytes
    → length bytes - offset < fuel
    → Returns (decode_loop p fuel cmd offset bytes)
unfolding decode_loop
decode_loop-Returns p zero cmd offset bytes octets small inside enough = elim enough [ ]
decode_loop-Returns p (suc fuel) cmd offset bytes octets small inside enough =
    after (decode_step p cmd offset bytes)
      (decode_step-Advances p cmd bytes offset small octets inside)
      (λ cmd' next. decode_loop-Returns p fuel cmd' next bytes octets small)
  where
    after :
        (r : Result (Option (Command × ℕ)))
        → Advances bytes offset r
        → ((cmd' : Command) (next : ℕ)
            → next ≤ length bytes
            → length bytes - next < fuel
            → Returns (decode_loop p fuel cmd' next bytes))
        → Returns
            (r >>= elim [ none ↦ ok cmd | some (cmd', next) ↦ decode_loop p fuel cmd' next bytes ])
    after (ok none) adv ih = tt
    after (ok (some (cmd', next))) adv ih = ih cmd' next adv.1 (omega arith)
    after (fail e) adv ih = tt
    after crash adv ih = adv
    after unfinished adv ih = adv

-- On any bytes, well formed or not, `decode_message` ends with a command or an error of the program and
-- reads nothing outside the buffer.
pub decode_message-Returns :
    (p : Platform) (bytes : Bytes)
    → AreBytes bytes
    → length bytes + 5 < 2 ^ 64
    → Returns (decode_message p bytes)
unfolding decode_message
decode_message-Returns p bytes octets small = elim (Bool-cases (length bytes == 0)) [
  | inl empty ↦ rw empty tt
  | inr more ↦ rw more (
      decode_loop-Returns p (suc (length bytes)) empty_command 0 bytes octets small (omega arith)
        (omega arith))
]
