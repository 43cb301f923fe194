-- ===== src/CmdEncoder/Layout.antt =====
-- What `CommandEncoder::encode_message` writes.
use sc4051_distributed_banki.Base.{
  ◌≡◌, refl, ap, ◌∙◌, List, [], ◌∷◌, ◌++◌, append_assoc, append-nil, map,
}
use sc4051_distributed_banki.Base.Outcome.{Result, ok, fail, encode_empty_command}
use sc4051_distributed_banki.Memory.{Bytes, Platform}
use sc4051_distributed_banki.Protocol.{Command, FieldId}
use sc4051_distributed_banki.CmdEncoder.Encode.{iterate, visit, finish, encode_message}
use sc4051_distributed_banki.CmdEncoder.Wire.{
  content, field_bytes, field_ids, wire_of, wire, IsCommand,
}
use sc4051_distributed_banki.CmdEncoder.Visits.{has_field, clean, visit_field}

iterate_wire :
    (p : Platform) (cmd : Command) (ids : List FieldId) (buffer : Bytes)
    → IsCommand cmd
    → iterate (visit p cmd) (clean buffer) (map (λ id. (id, has_field cmd id)) ids)
      ≡ ok (clean (buffer ++ wire_of p.endian cmd ids))
unfolding iterate
iterate_wire p cmd [] buffer v = rw append-nil
iterate_wire p cmd (id ∷ ids) buffer v = rw (visit_field p cmd v buffer id) (
    iterate_wire p cmd ids (buffer ++ field_bytes id (content p.endian cmd id)) v
    ∙ ap (λ (t : Bytes). ok (clean t))
        (append_assoc buffer (field_bytes id (content p.endian cmd id)) (wire_of p.endian cmd ids)))

abbrev pub non_empty : Bytes → Result Bytes
non_empty [] = fail encode_empty_command
non_empty (b ∷ bs) = ok (b ∷ bs)

finish-clean : (bs : Bytes) → finish (clean bs) ≡ non_empty bs
finish-clean [] = refl
finish-clean (b ∷ bs) = refl

-- A command whose values fit is encoded as its fields that are set, in the order of `all_fields`; the
-- command without any is refused with ENCODE_EMPTY_COMMAND.
pub encode_message-wire :
    (p : Platform) (cmd : Command)
    → IsCommand cmd
    → encode_message p cmd ≡ non_empty (wire p.endian cmd)
unfolding encode_message
encode_message-wire p cmd v =
    rw (iterate_wire p cmd field_ids [] v) (finish-clean (wire p.endian cmd))
