-- ===== src/CmdEncoder/Sequence.antt =====
-- `decode_message` on a sequence of fields, in any order and with repetitions.
use sc4051_distributed_banki.Base.{
  ℕ, zero, suc, ◌+◌, ◌^◌, ◌<◌, ◌≡◌, ◌==◌, false, sym, ap, ◌∙◌, some, List, [], ◌∷◌, ◌++◌, length,
  arith, append_assoc, length-append, lt→ltb, All,
}
use sc4051_distributed_banki.Base.Outcome.{Result, ok, ◌>>=◌, bind_assoc, bind_congr}
use sc4051_distributed_banki.Memory.{Bytes, Platform}
use sc4051_distributed_banki.SafeMath.Bounds.{safe_add64}
use sc4051_distributed_banki.Protocol.{Command, empty_command, FieldId}
use sc4051_distributed_banki.CmdEncoder.Decode.{decode_step, decode_loop, decode_message}
use sc4051_distributed_banki.CmdEncoder.Wire.{tlv}
use sc4051_distributed_banki.CmdEncoder.Steps.{apply_field, decode_step-tlv}

abbrev pub Field : Type 0
Field = FieldId × Bytes

-- The wire form of fields, one behind the other.
abbrev pub concat_fields : List Field → Bytes
concat_fields [] = []
concat_fields ((id, c) ∷ fs) = tlv id c ++ concat_fields fs

-- The decoders, run one after the other over one command: a later field overwrites an earlier one.
abbrev pub apply_fields : Platform → Command → List Field → Result Command
apply_fields p cmd [] = ok cmd
apply_fields p cmd ((id, c) ∷ fs) = apply_field p cmd id c >>= λ cmd'. apply_fields p cmd' fs

abbrev pub AreShort : List Field → Type 0
AreShort = All (λ f. length f.1 < 2 ^ 32)

loop_step :
    (p : Platform) (fuel : ℕ) (cmd : Command) (pre : Bytes) (id : FieldId) (c rest : Bytes)
    → length c < 2 ^ 32
    → length (pre ++ (tlv id c ++ rest)) < 2 ^ 64
    → decode_loop p (suc fuel) cmd (length pre) (pre ++ (tlv id c ++ rest)) ≡ (
        apply_field p cmd id c >>= λ cmd'.
        decode_loop p fuel cmd' (length (pre ++ tlv id c)) ((pre ++ tlv id c) ++ rest))
unfolding decode_loop
loop_step p fuel cmd pre id c rest short fits =
    rw (decode_step-tlv p cmd pre id c rest short fits) (
      bind_assoc (apply_field p cmd id c) (λ cmd'. ok (some (cmd', length pre + 1 + 4 + length c)))
        _
      ∙ rw (place, sym (append_assoc pre (tlv id c) rest)))
  where
    place : length pre + 1 + 4 + length c ≡ length (pre ++ tlv id c)
    place = omega (arith, length-append pre (tlv id c))

module _ (p : Platform) (tail : Bytes) (few : length tail < 5) where
  -- With fewer than five bytes left the loop ends.
  loop_ends :
      (fuel : ℕ) (cmd : Command) (pre : Bytes)
      → length (pre ++ tail) + 5 < 2 ^ 64
      → decode_loop p (suc fuel) cmd (length pre) (pre ++ tail) ≡ ok cmd
  unfolding decode_loop decode_step
  loop_ends fuel cmd pre fits = rw (
    safe_add64 (length pre) 1 (omega (arith, length-append pre tail)),
    safe_add64 (length pre + 1) 4 (omega (arith, length-append pre tail)),
    lt→ltb (length (pre ++ tail)) (length pre + 1 + 4) (omega (arith, length-append pre tail)),
  )

  loop_fields :
      (fs : List Field) (fuel : ℕ) (cmd : Command) (pre : Bytes)
      → AreShort fs
      → length (concat_fields fs ++ tail) < fuel
      → length (pre ++ (concat_fields fs ++ tail)) + 5 < 2 ^ 64
      → decode_loop p fuel cmd (length pre) (pre ++ (concat_fields fs ++ tail))
        ≡ apply_fields p cmd fs
  loop_fields fs zero cmd pre h enough fits = elim enough [ ]
  loop_fields [] (suc fuel) cmd pre h enough fits = loop_ends fuel cmd pre fits
  loop_fields ((id, c) ∷ fs) (suc fuel) cmd pre h enough fits =
      rw (append_assoc (tlv id c) (concat_fields fs) tail) (
        loop_step p fuel cmd pre id c rest h.0 (omega (arith, sizes.0, sizes.1))
        ∙ bind_congr (apply_field p cmd id c) _ _ (λ cmd'.
          loop_fields fs fuel cmd' (pre ++ tlv id c) h.1
            (omega (
              arith,
              sizes.0,
              length-append c (concat_fields fs),
              length-append (c ++ concat_fields fs) tail,
              length-append (concat_fields fs) tail,
            ))
            (omega (arith, sizes.0, sizes.1, sizes.2))))
    where
      rest : Bytes
      rest = concat_fields fs ++ tail

      sizes :
          (length (pre ++ (concat_fields ((id, c) ∷ fs) ++ tail))
            ≡ length (pre ++ (tlv id c ++ rest)))
          × (length (pre ++ (tlv id c ++ rest)) ≡ length pre + (length (tlv id c) + length rest))
          × (length ((pre ++ tlv id c) ++ rest) ≡ length pre + (length (tlv id c) + length rest))
      sizes = (
        ap (λ (t : Bytes). length (pre ++ t)) (append_assoc (tlv id c) (concat_fields fs) tail),
        omega (arith, length-append pre (tlv id c ++ rest), length-append (tlv id c) rest),
        omega (arith, length-append (pre ++ tlv id c) rest, length-append pre (tlv id c)),
      )

not_empty : (n : ℕ) → 0 < n → (n == 0) ≡ false
not_empty n h = ground arith

-- On a buffer that is not empty and consists of fields in any order with fewer than five bytes behind
-- them, the loop ends, and `decode_message` is the fields' decoders, run in turn over the empty command.
pub decode_message-fields :
    (p : Platform) (fs : List Field) (tail : Bytes)
    → AreShort fs
    → length tail < 5
    → 0 < length (concat_fields fs ++ tail)
    → length (concat_fields fs ++ tail) + 5 < 2 ^ 64
    → decode_message p (concat_fields fs ++ tail) ≡ apply_fields p empty_command fs
unfolding decode_message
decode_message-fields p fs tail h few some_byte fits =
    rw (not_empty (length (concat_fields fs ++ tail)) some_byte) (
      loop_fields p tail few fs (suc (length (concat_fields fs ++ tail))) empty_command [] h
        (omega arith) fits)
