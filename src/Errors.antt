-- ===== src/Errors.antt =====
-- client/src/utils/internalError.cpp: the names of the errors; the switch has a case for each of them.
use sc4051_distributed_banki.Base.Outcome.{
  InternalError, user_quit, user_canceled, bad_input, bad_pw_len, bad_status, invalid_service,
  invalid_currency, invalid_invocation_flag, invalid_address, socket_create_failed, send_failed,
  receive_failed, bind_failed, connect_failed, send_timeout, receive_timeout, encoding_error,
  decoding_error, encode_unknown_field, encode_empty_command, decode_empty_data,
  decode_unknown_field, decode_field_overflow, decode_offset_overflow, decode_length_mismatch,
  decode_string_too_long, decode_field_mismatch, serialize_error, deserialize_error,
  deserialize_header_too_short, deserialize_payload_overflow, deserialize_payload_int_overflow,
}
use sc4051_distributed_banki.Base.Text.{codes}
use sc4051_distributed_banki.Memory.{Bytes}

unfoldable pub to_string : InternalError → Bytes
to_string user_quit = codes "USER_QUIT"
to_string user_canceled = codes "USER_CANCELED"
to_string bad_input = codes "BAD_INPUT"
to_string bad_pw_len = codes "BAD_PW_LEN"
to_string bad_status = codes "BAD_STATUS"
to_string invalid_service = codes "INVALID_SERVICE"
to_string invalid_currency = codes "INVALID_CURRENCY"
to_string invalid_invocation_flag = codes "INVALID_INVOCATION_FLAG"
to_string invalid_address = codes "INVALID_ADDRESS"
to_string socket_create_failed = codes "SOCKET_CREATE_FAILED"
to_string send_failed = codes "SEND_FAILED"
to_string receive_failed = codes "RECEIVE_FAILED"
to_string bind_failed = codes "BIND_FAILED"
to_string connect_failed = codes "CONNECT_FAILED"
to_string send_timeout = codes "SEND_TIMEOUT"
to_string receive_timeout = codes "RECEIVE_TIMEOUT"
to_string encoding_error = codes "ENCODING_ERROR"
to_string decoding_error = codes "DECODING_ERROR"
to_string encode_unknown_field = codes "ENCODE_UNKNOWN_FIELD"
to_string encode_empty_command = codes "ENCODE_EMPTY_COMMAND"
to_string decode_empty_data = codes "DECODE_EMPTY_DATA"
to_string decode_unknown_field = codes "DECODE_UNKNOWN_FIELD"
to_string decode_field_overflow = codes "DECODE_FIELD_OVERFLOW"
to_string decode_offset_overflow = codes "DECODE_OFFSET_OVERFLOW"
to_string decode_length_mismatch = codes "DECODE_LENGTH_MISMATCH"
to_string decode_string_too_long = codes "DECODE_STRING_TOO_LONG"
to_string decode_field_mismatch = codes "DECODE_FIELD_MISMATCH"
to_string serialize_error = codes "SERIALIZE_ERROR"
to_string deserialize_error = codes "DESERIALIZE_ERROR"
to_string deserialize_header_too_short = codes "DESERIALIZE_HEADER_TOO_SHORT"
to_string deserialize_payload_overflow = codes "DESERIALIZE_PAYLOAD_OVERFLOW"
to_string deserialize_payload_int_overflow = codes "DESERIALIZE_PAYLOAD_INT_OVERFLOW"
