-- ===== src/Client/Input.antt =====
-- The dialogue of `BankClient`: `getValidatedNumber`, `getValidatedString`, `getValidatedPassword` and
-- `getValidatedCurrency`.
pub mod Asked
pub mod Quiet
use sc4051_distributed_banki.Base.{
  ℕ, zero, suc, Bool, true, false, Option, none, some, ◌&&◌, List, [], ◌∷◌, ◌++◌, if◌then◌else◌,
}
use sc4051_distributed_banki.Base.Outcome.{
  InternalError, user_canceled, bad_input, invalid_currency,
}
use sc4051_distributed_banki.Base.Text.{codes}
use sc4051_distributed_banki.Memory.{Bytes}
use sc4051_distributed_banki.Protocol.Currency.{sgd, usd, eur}
use sc4051_distributed_banki.Client.State.{
  Client, Io, Services, Output, print_prompt, print_error, ◌>>=◌, ◌>>◌, pure, raise, say, read_line,
}
use sc4051_distributed_banki.Client.Text.{
  trim_string, same_text, is_alpha, is_alpha_numeric, is_within_max_length, upper_case,
}
use sc4051_distributed_banki.Client.Number.{Judged, accepted, refused, judge_uint32, judge_double}
use sc4051_distributed_banki.Client.Send.{max_tries}

-- The loop that the four functions share, with the tries that are left, the test of the line, and the
-- error that is returned behind the last try.
unfoldable pub ask : {A : Type 0} → ℕ → Bytes → (Bytes → Judged A) → InternalError → Io A
ask zero prompt judge final = say (print_error (codes "Exceeded Maximum Tries")) >> raise final
ask (suc tries) prompt judge final = do
  say (print_prompt (prompt ++ codes " (or type 'quit' to cancel)"))
  line ← read_line
  let input = trim_string line
  if same_text input (codes "quit") then raise user_canceled else elim (judge input) [
    | accepted a ↦ pure a
    | refused message ↦ (say message >> ask tries prompt judge final)
  ]

unfoldable pub get_validated_uint32 : Bytes → Io ℕ
get_validated_uint32 prompt = ask max_tries prompt (judge_uint32 prompt) bad_input

unfoldable pub get_validated_double : Services → Bytes → Io ℕ
get_validated_double s prompt = ask max_tries prompt (judge_double s.stod prompt) bad_input

-- "Invalid " + prompt + " string. Try again."
abbrev pub judge_text : (Bytes → Bool) → Bytes → Bytes → Judged Bytes
judge_text test prompt input =
    if test input
    then accepted input
    else refused (print_error (codes "Invalid " ++ prompt ++ codes " string. Try again."))

unfoldable pub get_validated_string : Bytes → Io Bytes
get_validated_string prompt = ask max_tries prompt (judge_text is_alpha prompt) bad_input

abbrev pub is_password : Bytes → Bool
is_password input = is_alpha_numeric input && is_within_max_length input

unfoldable pub get_validated_password : Bytes → Io Bytes
get_validated_password prompt = ask max_tries prompt (judge_text is_password prompt) bad_input

abbrev pub string_to_currency : Bytes → Option ℕ
string_to_currency name =
    if same_text name (codes "SGD")
    then some sgd
    else if same_text name (codes "USD")
    then some usd
    else if same_text name (codes "EUR")
    then some eur
    else none

abbrev pub judge_found : Bytes → Option ℕ → Judged ℕ
judge_found prompt (some cur) = accepted cur
judge_found prompt none = refused (print_error (codes "Invalid " ++ prompt ++ codes ". Try again."))

unfoldable pub judge_currency : Services → Bytes → Bytes → Judged ℕ
judge_currency s prompt input =
    judge_found prompt (string_to_currency (upper_case s.toupper_negative input))

unfoldable pub get_validated_currency : Services → Bytes → Io ℕ
get_validated_currency s prompt = ask max_tries prompt (judge_currency s prompt) invalid_currency
