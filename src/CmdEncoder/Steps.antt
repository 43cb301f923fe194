-- ===== src/CmdEncoder/Steps.antt =====
-- One round of `decode_message`'s loop on a buffer that was written field by field.
use sc4051_distributed_banki.Base.{
  ℕ, ◌+◌, ◌^◌, ◌≤◌, ◌<◌, ◌≡◌, refl, sym, ap, ◌∙◌, some, true, [], ◌∷◌, ◌++◌, length, arith,
  append_assoc, length-append, ltb-false,
}
use sc4051_distributed_banki.Base.Outcome.{
  Result, ok, or_fail, ◌>>=◌, bind_assoc, decode_unknown_field,
}
use sc4051_distributed_banki.Memory.{Bytes, Platform, at, network_bytes}
use sc4051_distributed_banki.Memory.Reads.{at_after, memcpy_after, memcpy_whole}
use sc4051_distributed_banki.Memory.Words.{read_u32, read_u32_after}
use sc4051_distributed_banki.SafeMath.Bounds.{safe_add64}
use sc4051_distributed_banki.Protocol.{Command, FieldId, field_code, service}
use sc4051_distributed_banki.CmdEncoder.Decode.{
  to_field_id, is_within_data_size, decode_func_map, decode_step, decode_service,
  decode_account_number, decode_account_owner_name, decode_account_password,
  decode_tx_account_number, decode_tx_account_owner_name, decode_monetary_value, decode_currency,
  decode_monitor_updates, decode_monitor_timeout_seconds,
}
use sc4051_distributed_banki.CmdEncoder.Wire.{tlv}

within :
    (offset len : ℕ) (bytes : Bytes)
    → offset + len ≤ length bytes
    → length bytes < 2 ^ 64
    → is_within_data_size offset len bytes ≡ true
unfolding is_within_data_size
within offset len bytes h fits = rw (
  safe_add64 offset len (omega arith),
  is_within_data_size,
  ltb-false (length bytes) (offset + len) h,
)

to_field_id-field_code : (id : FieldId) → to_field_id (field_code id) ≡ some id
to_field_id-field_code service = refl
to_field_id-field_code _ = refl

module _ (p : Platform) where
  -- What the decoder of a field does with its content alone.
  abbrev pub apply_field : Command → FieldId → Bytes → Result Command
  apply_field cmd id c =
      or_fail (decode_func_map p id) decode_unknown_field >>= λ decoder. decoder cmd 0 (length c) c

  -- A decoder looks at nothing but the content of its field.
  decoder_local :
      (cmd : Command) (id : FieldId) (pre c rest : Bytes) (i : ℕ)
      → i ≡ length pre
      → (or_fail (decode_func_map p id) decode_unknown_field >>= λ decoder.
          decoder cmd i (length c) (pre ++ (c ++ rest)))
        ≡ apply_field cmd id c
  unfolding decode_service decode_account_number decode_account_owner_name decode_account_password
      decode_tx_account_number decode_tx_account_owner_name decode_monetary_value decode_currency
      decode_monitor_updates decode_monitor_timeout_seconds
  decoder_local cmd service pre c rest i e =
      rw (memcpy_after pre c rest i (length c) e refl, memcpy_whole c)
  decoder_local cmd _ pre c rest i e =
      rw (memcpy_after pre c rest i (length c) e refl, memcpy_whole c)

  decoder_then {ℓ} :
      {B : Type ℓ} (cmd : Command) (id : FieldId) (pre c rest : Bytes) (i : ℕ)
      (k : Command → Result B)
      → i ≡ length pre
      → (or_fail (decode_func_map p id) decode_unknown_field >>= λ decoder.
          decoder cmd i (length c) (pre ++ (c ++ rest)) >>= k)
        ≡ (apply_field cmd id c >>= k)
  decoder_then cmd id pre c rest i k e =
      sym (
        bind_assoc (or_fail (decode_func_map p id) decode_unknown_field)
          (λ decoder. decoder cmd i (length c) (pre ++ (c ++ rest))) k)
      ∙ ap (λ (m : Result Command). m >>= k) (decoder_local cmd id pre c rest i e)

module _ (p : Platform) (cmd : Command) (pre : Bytes) (id : FieldId) (c rest : Bytes)
    (short : length c < 2 ^ 32) where
  abbrev whole : Bytes
  whole = pre ++ (tlv id c ++ rest)

  -- The same buffer, cut behind the tag and behind the length.
  cut_tag : whole ≡ (pre ++ field_code id ∷ []) ++ (network_bytes 4 (length c) ++ (c ++ rest))
  cut_tag = sym (append_assoc pre (field_code id ∷ []) (network_bytes 4 (length c) ++ (c ++ rest)))

  cut_length : whole ≡ (pre ++ field_code id ∷ network_bytes 4 (length c)) ++ (c ++ rest)
  cut_length = sym (append_assoc pre (field_code id ∷ network_bytes 4 (length c)) (c ++ rest))

  length-whole : length whole ≡ length pre + 5 + length c + length rest
  length-whole = omega (arith, length-append pre (tlv id c ++ rest), length-append c rest)

  tag : at whole (length pre) ≡ ok (field_code id)
  tag = at_after pre (field_code id) (network_bytes 4 (length c) ++ (c ++ rest)) (length pre) refl

  declared : read_u32 p whole (length pre + 1) ≡ ok (length c)
  declared = rw cut_tag (
      read_u32_after p (pre ++ field_code id ∷ []) (length c) (c ++ rest) (length pre + 1) short
        (omega (arith, length-append pre (field_code id ∷ []))))

  decoded {ℓ} :
      {B : Type ℓ} (k : Command → Result B)
      → (or_fail (decode_func_map p id) decode_unknown_field >>= λ decoder.
          decoder cmd (length pre + 1 + 4) (length c) whole >>= k)
        ≡ (apply_field p cmd id c >>= k)
  decoded k = rw cut_length (
      decoder_then p cmd id (pre ++ field_code id ∷ network_bytes 4 (length c)) c rest
        (length pre + 1 + 4) k
        (omega (arith, length-append pre (field_code id ∷ network_bytes 4 (length c)))))

  -- A round on a field with its content sets the field as its decoder says, and moves to its end.
  pub decode_step-tlv :
      length whole < 2 ^ 64
      → decode_step p cmd (length pre) whole
        ≡ (apply_field p cmd id c >>= λ cmd'. ok (some (cmd', length pre + 1 + 4 + length c)))
  unfolding decode_step
  decode_step-tlv fits =
      rw
        (
          safe_add64 (length pre) 1 (omega (arith, length-whole)),
          safe_add64 (length pre + 1) 4 (omega (arith, length-whole)),
          ltb-false (length whole) (length pre + 1 + 4) (omega (arith, length-whole)),
          tag,
          to_field_id-field_code id,
          declared,
          within (length pre + 1 + 4) (length c) whole (omega (arith, length-whole)) fits,
          safe_add64 (length pre + 1 + 4) (length c) (omega (arith, length-whole)),
        )
        (decoded (λ cmd'. ok (some (cmd', length pre + 1 + 4 + length c))))
