-- ===== src/Client/Tests.antt =====
-- Runs of the client, and its theorems at concrete inputs.
use sc4051_distributed_banki.Base.{
  List, ℕ, suc, ◌*◌, ◌<◌, ◌≡◌, ◌≢◌, refl, none, some, [], ◌∷◌, ◌++◌, arith,
}
use sc4051_distributed_banki.Base.Outcome.{unfinished, receive_timeout, ok, Returns}
use sc4051_distributed_banki.Base.Text.{codes}
use sc4051_distributed_banki.Base.Integers.{negsuc}
use sc4051_distributed_banki.Memory.{Bytes, at, memcpy}
use sc4051_distributed_banki.Memory.Words.{append_u32, append_u16, read_u32, read_u16}
use sc4051_distributed_banki.Memory.Hosts.{x86}
use sc4051_distributed_banki.Memory.Swap.{swap64}
use sc4051_distributed_banki.SafeMath.{safe_add}
use sc4051_distributed_banki.Terminal.Input
use sc4051_distributed_banki.Protocol.{Command, Message, empty_command}
use sc4051_distributed_banki.Serializer
use sc4051_distributed_banki.CallbackEncoder
use sc4051_distributed_banki.CmdEncoder.Encode
use sc4051_distributed_banki.CmdEncoder.Decode
use sc4051_distributed_banki.Client.State.{
  lost, Received, Client, Services, datagram, value, invalid_argument, read_int, read_line,
}
use sc4051_distributed_banki.Client.Text.{
  trim_string, is_alpha, is_alpha_numeric, is_within_max_length,
}
use sc4051_distributed_banki.Client.Number.{stoll, judge_uint32}
use sc4051_distributed_banki.Client.Input.{
  ask, get_validated_string, get_validated_uint32, get_validated_password,
}
use sc4051_distributed_banki.Client.Input.Asked.{Ensures}
use sc4051_distributed_banki.Client.Input.Quiet.{Untouched}
use sc4051_distributed_banki.CmdEncoder.Wire.{wire}
use sc4051_distributed_banki.Memory.{little}
use sc4051_distributed_banki.Client.Commands.Encodable.{encode_message-request}
use sc4051_distributed_banki.Client.Commands.Quiet.{build_command-Quiet}
use sc4051_distributed_banki.Client.Session.{run}
use sc4051_distributed_banki.Client.Session.Ends.{run_ends, EndsAs}
use sc4051_distributed_banki.Client.Session.Rounds.{Sequence, run-Sequence}
use sc4051_distributed_banki.Client.Commands.{build_command, fill_auth_details}
use sc4051_distributed_banki.Client.Commands.Request.{IsRequest}
use sc4051_distributed_banki.Client.Commands.Menu.{build_command-IsRequest}
use sc4051_distributed_banki.Client.Send.{build_message, prepare_message, send_to_server}
use sc4051_distributed_banki.Client.Send.Retries.{
  copies, Exchanged, send_to_server-Exchanged, send_to_server_replied, send_to_server_flooded,
}
use sc4051_distributed_banki.Client.Send.RequestIds.{request, request_ids_differ}
use sc4051_distributed_banki.Client.Pipeline.{
  execute_request_pipeline, execute_client_req, listen_server,
}
use sc4051_distributed_banki.Client.Pipeline.Answered.{execute_client_req-Returns}
use sc4051_distributed_banki.Client.Pipeline.Listen.{Ends, listen_server-Ends}
use sc4051_distributed_banki.Client.Pipeline.Exchange.{execute_request_pipeline_sends}
use sc4051_distributed_banki.Client.Pipeline.Understood.{program, prepare_message_understood}

-- A callback, and a reply to a request with the id 9 whose status is 0 and whose content is empty.
abbrev callback : Bytes
callback = 2 ∷ 0 ∷ []

abbrev late_reply : Bytes
late_reply = 1 ∷ 2 ∷ 0 ∷ 0 ∷ 0 ∷ 9 ∷ 0 ∷ 0 ∷ 0 ∷ 0 ∷ 0 ∷ 0 ∷ 0 ∷ 0 ∷ 0 ∷ 0 ∷ 0 ∷ 0 ∷ []

abbrev silence : List Received
silence =
    lost receive_timeout ∷ lost receive_timeout ∷ lost receive_timeout ∷ lost receive_timeout ∷ []

-- A client whose user asks for the balance of account 1000.
abbrev ann : Client
ann = record {
  flag = 2;
  current_request_id = 0;
  local_ip = 0x7f000001;
  local_port = 5000;
  input = codes "6\nAnn \n1000\npw1\n\n";
  screen = [];
  send_result = λ n. none;
  sent = [];
  incoming = datagram callback ∷ datagram late_reply ∷ silence;
  slept = [];
  clock = λ n. n;
  readings = 0;
}

abbrev services : Services
services = program x86 (λ input. invalid_argument) (λ v. [])

abbrev get_balance_of_ann : Command
get_balance_of_ann = record empty_command {
  service = some 6;
  account_number = some 1000;
  account_owner_name = some (codes "Ann");
  account_password = some (codes "pw1");
}

abbrev content : Bytes
content =
    1 ∷ 0 ∷ 0 ∷ 0 ∷ 1 ∷ 6 ∷ 2 ∷ 0 ∷ 0 ∷ 0 ∷ 4 ∷ 0 ∷ 0 ∷ 3 ∷ 0xe8 ∷ 3 ∷ 0 ∷ 0 ∷ 0 ∷ 3 ∷ codes "Ann"
    ++ 4 ∷ 0 ∷ 0 ∷ 0 ∷ 3 ∷ codes "pw1"

abbrev request_bytes : Bytes
request_bytes =
    0 ∷ 2 ∷ 0 ∷ 0 ∷ 0 ∷ 1 ∷ 0x7f ∷ 0 ∷ 0 ∷ 1 ∷ 0x13 ∷ 0x88 ∷ 0 ∷ 0 ∷ 0 ∷ 0 ∷ 0 ∷ 31 ∷ content

encoded : Encode.encode_message x86 get_balance_of_ann ≡ ok content
unfolding Encode.encode_message Encode.encode_service Encode.encode_account_number
    Encode.encode_account_owner_name Encode.encode_account_password append_u32
encoded = refl

serialized : Serializer.serialize x86 (build_message content ann).0 ≡ ok request_bytes
unfolding Serializer.serialize build_message append_u32 append_u16
serialized = refl

abbrev late_message : Message
late_message = record {
  type = 1;
  flag = 2;
  id = record { request_id = 9; ipv4_address = 0; port = 0 };
  payload = record { status_code = 0; content = [] };
}

late_reply_read : Serializer.deserialize x86 late_reply ≡ ok late_message
unfolding Serializer.deserialize Serializer.validate_header Serializer.validate_payload safe_add at
    memcpy read_u32 read_u16
late_reply_read = refl

-- DEPOSIT to the account 1000 of a holder without a name, in SGD, with the balance 0.
abbrev pushed : Bytes
pushed = 2 ∷ 3 ∷ 0 ∷ 0 ∷ 3 ∷ 0xe8 ∷ 0 ∷ 0 ∷ 0 ∷ 0 ∷ 0 ∷ 0 ∷ 0 ∷ 0 ∷ 0 ∷ 0 ∷ 0 ∷ 0 ∷ 0 ∷ []

-- A client to which one callback is pushed, with a clock that moves on by a second at each reading.
abbrev listener : Client
listener = record ann { incoming = datagram pushed ∷ []; clock = λ n. 1000000000 * n }

pushed-Returns : Returns (CallbackEncoder.decode_message x86 pushed)
unfolding CallbackEncoder.decode_message CallbackEncoder.validate_payload at memcpy read_u32 swap64
pushed-Returns = tt

trimmed : trim_string (codes " a b\t") ≡ codes "a b"
unfolding trim_string
trimmed = refl

numbers : (stoll (codes "-12x") ≡ value (negsuc 11)) × (stoll (codes "+") ≡ invalid_argument)
unfolding stoll
numbers = (refl, refl)

built_by_ann : (build_command services ann).0 ≡ ok get_balance_of_ann
unfolding build_command fill_auth_details get_validated_string get_validated_uint32
    get_validated_password ask read_int read_line trim_string judge_uint32 stoll is_alpha
    is_alpha_numeric is_within_max_length Input.read_int Input.read_line Input.ensure_clean_buffer
built_by_ann = refl

send_to_server-Exchanged_example :
    (k : ℕ) × Exchanged request_bytes 2 5 k
      (send_to_server request_bytes ann).0
      ann
      (send_to_server request_bytes ann).1
send_to_server-Exchanged_example = send_to_server-Exchanged request_bytes ann

send_to_server_replied_example :
    ((send_to_server request_bytes ann).0 ≡ ok late_reply)
    × ((send_to_server request_bytes ann).1.sent ≡ request_bytes ∷ [])
    × ((send_to_server request_bytes ann).1.slept ≡ [])
    × ((send_to_server request_bytes ann).1.incoming ≡ silence)
send_to_server_replied_example =
    send_to_server_replied request_bytes late_reply (callback ∷ []) silence ann refl refl (refl, tt)
      refl

-- Ann's client when two callbacks are all that arrives.
abbrev flooded : Client
flooded = record ann { incoming = datagram callback ∷ datagram callback ∷ [] }

send_to_server_flooded_example :
    ((send_to_server request_bytes flooded).0 ≡ unfinished)
    × ((send_to_server request_bytes flooded).1.sent ≡ request_bytes ∷ [])
    × ((send_to_server request_bytes flooded).1.slept ≡ [])
    × ((send_to_server request_bytes flooded).1.incoming ≡ [])
send_to_server_flooded_example =
    send_to_server_flooded request_bytes (callback ∷ callback ∷ []) flooded refl refl
      (refl, (refl, tt))

request_ids_differ_example :
    (request (λ n. content) 0 ann).id.request_id ≢ (request (λ n. content) 7 ann).id.request_id
request_ids_differ_example =
    request_ids_differ (λ n. content) 0 7 ann refl (omega arith) (omega arith) (omega arith)

execute_request_pipeline_sends_example :
    (k : ℕ) × (k < 5)
    × ((execute_request_pipeline services get_balance_of_ann ann).1.sent
        ≡ copies (suc k) request_bytes ++ [])
    × ((execute_request_pipeline services get_balance_of_ann ann).1.current_request_id
        ≡ (build_message content ann).1.current_request_id)
execute_request_pipeline_sends_example =
    execute_request_pipeline_sends services get_balance_of_ann ann content request_bytes encoded
      serialized

build_command-IsRequest_example : Ensures IsRequest (build_command services ann).0
build_command-IsRequest_example = build_command-IsRequest services ann (λ input v h. cc)

prepare_message_understood_example :
    (request_sent : Bytes) × ((prepare_message services get_balance_of_ann ann).0 ≡ ok request_sent)
    × (Serializer.deserialize x86 request_sent ≡ ok (build_message content ann).0)
    × (Decode.decode_message x86 content ≡ ok get_balance_of_ann)
prepare_message_understood_example =
    prepare_message_understood x86 x86 (λ input. invalid_argument) (λ v. []) get_balance_of_ann ann
      content refl (omega arith) (omega arith) encoded

listen_server-Ends_example :
    let (r, c') = listen_server services 3 2 listener in
    Ends services 1 0 2 (record listener { readings = 1 }) r c'
listen_server-Ends_example =
    listen_server-Ends services 3 1 2 listener ((λ is_pushed. pushed-Returns), tt) (omega arith)
      (omega arith) (omega arith)

build_command-Quiet_example : Untouched ann (build_command services ann).1
build_command-Quiet_example = build_command-Quiet services ann

run-Sequence_example : Sequence 2 [] (run services 3 2 ann).1.sent
run-Sequence_example = run-Sequence services 3 2 ann

asked-IsRequest : IsRequest get_balance_of_ann
unfolding is_alpha is_alpha_numeric is_within_max_length
asked-IsRequest = record {
  asks = (6, refl, omega arith, omega arith, refl);
  no_updates = refl;
  owner_name = refl;
  password = refl;
  number = omega arith;
  tx_name = tt;
  tx_number = tt;
  value = tt;
  currency_known = tt;
  timeout = tt;
}

encode_message-request_example :
    Encode.encode_message x86 get_balance_of_ann ≡ ok (wire little get_balance_of_ann)
encode_message-request_example =
    encode_message-request x86 get_balance_of_ann asked-IsRequest (omega arith) tt

run_ends_example :
    EndsAs services 3 ann (run services 3 30 ann).0
    × (run services 3 30 ann ≡ run services 3 40 ann)
run_ends_example = run_ends services 3 30 40 ann (λ input v h. cc) (omega arith) (omega arith)

execute_client_req-Returns_example : Returns (execute_client_req services get_balance_of_ann ann).0
execute_client_req-Returns_example =
    execute_client_req-Returns x86 (λ input. invalid_argument) (λ v. []) get_balance_of_ann ann
      asked-IsRequest (omega arith) tt (omega arith, (omega arith, (tt, (tt, (tt, (tt, tt))))))
      (omega arith)
