-- ===== src/Client/Commands/Encodable.antt =====
-- A request that the dialogue returned can be encoded.
use sc4051_distributed_banki.Base.{
  ℕ, ◌≤◌, ◌<◌, ◌^◌, ◌≡◌, refl, ◌∙◌, true, false, Option, none, some, [], ◌∷◌, length, arith,
  Bool-cases, inl, inr, leb,
}
use sc4051_distributed_banki.Base.Outcome.{ok}
use sc4051_distributed_banki.Memory.{Bytes, IsByte, Platform}
use sc4051_distributed_banki.Protocol.{Command}
use sc4051_distributed_banki.CmdEncoder.Wire.{Within, Fits, IsCommand, wire}
use sc4051_distributed_banki.CmdEncoder.Layout.{encode_message-wire}
use sc4051_distributed_banki.CmdEncoder.Encode.{encode_message}
use sc4051_distributed_banki.Client.Text.{
  all_of, is_alpha, is_alpha_char, is_alpha_numeric, is_alnum_char, is_within_max_length,
}
use sc4051_distributed_banki.Client.Text.Lines.{all_of-All}
use sc4051_distributed_banki.Client.Input.Asked.{IsName, IsPassword, IsCurrency}
use sc4051_distributed_banki.Client.Commands.Request.{IsRequest, When}

letter_byte : (c : ℕ) → is_alpha_char c ≡ true → c < 256
letter_byte c h = ground arith

alnum_byte : (c : ℕ) → is_alnum_char c ≡ true → c < 256
alnum_byte c h = ground arith

name-Fits : (o : Option Bytes) → When IsName o → When (λ (s : Bytes). length s ≤ 1024) o → Fits o
unfolding is_alpha
name-Fits none h l = tt
name-Fits (some []) h l = (tt, l)
name-Fits (some (c ∷ s)) h l = (all_of-All IsByte is_alpha_char (c ∷ s) letter_byte h, l)

password-Fits : (o : Option Bytes) → When IsPassword o → Fits o
unfolding is_alpha_numeric is_within_max_length
password-Fits none h = tt
password-Fits (some []) h = (tt, omega arith)
password-Fits (some (c ∷ s)) h = elim (Bool-cases (all_of is_alnum_char (c ∷ s))) [
  | inl passed ↦
      let short : leb (length (c ∷ s)) 8 ≡ true = rw passed at h in
      (all_of-All IsByte is_alnum_char (c ∷ s) alnum_byte passed, ground arith)
  | inr failed ↦ let no : false ≡ true = rw failed at h in cc
]

range_of : (o : Option ℕ) (bound : ℕ) → When (λ (n : ℕ). n < bound) o → Within bound o
range_of none bound h = tt
range_of (some n) bound h = h

currency_range : (o : Option ℕ) → When IsCurrency o → Within 256 o
currency_range none h = tt
currency_range (some cur) h = omega arith

-- A request whose names are no longer than a decoder accepts fits the wire format.
pub IsRequest-IsCommand :
    (cmd : Command)
    → IsRequest cmd
    → When (λ (s : Bytes). length s ≤ 1024) cmd.account_owner_name
    → When (λ (s : Bytes). length s ≤ 1024) cmd.tx_account_owner_name
    → IsCommand cmd
IsRequest-IsCommand cmd r short short_tx =
    let (n, asked, low, high, table) = r.asks in
    record {
      service_range = rw asked (omega arith);
      account_number_range = range_of cmd.account_number (2 ^ 32) r.number;
      account_owner_name_range = name-Fits cmd.account_owner_name r.owner_name short;
      account_password_range = password-Fits cmd.account_password r.password;
      tx_account_number_range = range_of cmd.tx_account_number (2 ^ 32) r.tx_number;
      tx_account_owner_name_range = name-Fits cmd.tx_account_owner_name r.tx_name short_tx;
      monetary_value_range = range_of cmd.monetary_value (2 ^ 64) r.value;
      currency_range = currency_range cmd.currency r.currency_known;
      monitor_updates_range = rw r.no_updates tt;
      monitor_timeout_seconds_range = range_of cmd.monitor_timeout_seconds (2 ^ 32) r.timeout;
    }

-- Whatever request the dialogue returned, `encode_message` encodes it on every platform, when its names
-- are no longer than a decoder accepts, and writes its fields in the wire format.
pub encode_message-request :
    (p : Platform) (cmd : Command)
    → IsRequest cmd
    → When (λ (s : Bytes). length s ≤ 1024) cmd.account_owner_name
    → When (λ (s : Bytes). length s ≤ 1024) cmd.tx_account_owner_name
    → encode_message p cmd ≡ ok (wire p.endian cmd)
encode_message-request p cmd r short short_tx =
    let (n, asked, low, high, table) = r.asks in
    encode_message-wire p cmd (IsRequest-IsCommand cmd r short short_tx) ∙ rw asked refl
