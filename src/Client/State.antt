-- ===== src/Client/State.antt =====
-- The state that the methods of `BankClient` act on: the object's own fields, and the two ends that it
-- talks to. A `BankIO` and a `BaseSocket` answer from outside the program: what they are going to
-- answer is part of the state, so that every history of answers is a state to start from.
use sc4051_distributed_banki.Base.{ℕ, Option, List, ◌∷◌}
use sc4051_distributed_banki.Base.Outcome.{InternalError, Result, ok, fail, crash, unfinished}
use sc4051_distributed_banki.Memory.{Bytes}
use sc4051_distributed_banki.Terminal.Input
use sc4051_distributed_banki.Terminal.{press_enter}
pub use sc4051_distributed_banki.Terminal.{
  Colour, reset, red, green, yellow, cyan, bold, bold_cyan, Output, print, print_prompt,
  print_error, print_box_top, print_box_bottom, print_service_menu, clear_ui,
}
use sc4051_distributed_banki.Protocol.{Command, Message, CallbackMessage}

-- What `receive_message` returns.
pub data Received : Type 0 where
  datagram : Bytes → Received
  lost : InternalError → Received

pub record Client : Type 0 where
  -- enum class InvocationFlag : uint8_t
  pub flag : ℕ
  pub current_request_id : ℕ
  -- socket->local_ip_port
  pub local_ip : ℕ
  pub local_port : ℕ
  -- The bytes that std::cin is going to deliver.
  pub input : Bytes
  -- What was printed, the last first.
  pub screen : List Output
  -- What `send_message` returns when so many datagrams were sent before: an error, or none.
  pub send_result : ℕ → Option InternalError
  -- The datagrams that were handed to `send_message`, the last first.
  pub sent : List Bytes
  -- What the next calls of `receive_message` return: as much as is known of the answers to come, which may
  -- go on for ever. A run that needs more of them than these is `unfinished`.
  pub incoming : List Received
  -- The pauses of `sleep_for` in seconds, the last first.
  pub slept : List ℕ
  -- The reading of the steady clock, in nanoseconds, at its n-th use, and how often it was read.
  pub clock : ℕ → ℕ
  pub readings : ℕ

-- A method may fail, and what it did before stays done.
abbrev pub Io : Type 0 → Type 0
Io A = Client → Result A × Client

abbrev pub continue : {A B : Type 0} → Result A → (A → Io B) → Io B
continue (ok a) f c = f a c
continue (fail e) f c = (fail e, c)
continue crash f c = (crash, c)
continue unfinished f c = (unfinished, c)

infixl 5 ◌>>=◌ ◌>>◌
abbrev pub ◌>>=◌ : {A B : Type 0} → Io A → (A → Io B) → Io B
◌>>=◌ m f c = let (r, c') = m c in continue r f c'

abbrev pub ◌>>◌ : {B : Type 0} → Io (Unit {0}) → Io B → Io B
m >> k = m >>= λ _. k

abbrev pub pure : {A : Type 0} → A → Io A
pure a c = (ok a, c)

-- `return Result::fail(e);`
abbrev pub raise : {A : Type 0} → InternalError → Io A
raise e c = (fail e, c)

abbrev pub lift : {A : Type 0} → Result A → Io A
lift r c = (r, c)

-- A call of `bankIO` that writes.
abbrev pub say : Output → Io (Unit {0})
say o c = (ok tt, record c { screen = o ∷ c.screen })

-- `if (!res) { bankIO->print_error(...); return fail(res.error()); }`
abbrev pub or_say : {A : Type 0} → Result A → (InternalError → Output) → Io A
or_say (ok a) f c = (ok a, c)
or_say (fail e) f c = (fail e, record c { screen = f e ∷ c.screen })
or_say crash f c = (crash, c)
or_say unfinished f c = (unfinished, c)

-- The interfaces that a client is built with (BaseCommandEncoder, BaseCallbackEncoder,
-- BaseMessageSerializer), and the two functions of the standard library on a double's text.
pub data Parsed (A : Type 0) : Type 0 where
  value : A → Parsed A
  invalid_argument : Parsed A
  out_of_range : Parsed A

pub record Services : Type 0 where
  pub encode_command : Command → Result Bytes
  pub decode_command : Bytes → Result Command
  pub decode_callback : Bytes → Result CallbackMessage
  pub serialize : Message → Result Bytes
  pub deserialize : Bytes → Result Message
  -- std::stod and std::to_string(double), on the 64 bits of a double.
  pub stod : Bytes → Parsed ℕ
  pub double_to_string : ℕ → Bytes
  -- The host's toupper of a negative char.
  pub toupper_negative : ℕ → ℕ

-- `bankIO->read_int()`
unfoldable pub read_int : Io ℕ
read_int c = let (n, rest) = Input.read_int c.input in (ok n, record c { input = rest })

-- `bankIO->read_line()`
unfoldable pub read_line : Io Bytes
read_line c = let (line, rest) = Input.read_line c.input in (ok line, record c { input = rest })

-- `bankIO->wait_for_enter()`
abbrev pub wait_for_enter : Io (Unit {0})
wait_for_enter c =
    (ok tt, record c { screen = press_enter ∷ c.screen; input = Input.wait_for_enter c.input })
