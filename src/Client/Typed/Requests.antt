-- ===== src/Client/Typed/Requests.antt =====
-- The requests of all services, typed line by line.
use sc4051_distributed_banki.Base.{ℕ, ◌<◌, ◌^◌, ◌≡◌, refl, ◌⊎◌, false, some, ◌∷◌, ◌++◌, arith}
use sc4051_distributed_banki.Base.Text.{decimal}
use sc4051_distributed_banki.Memory.{Bytes}
use sc4051_distributed_banki.Protocol.{Command, empty_command}
use sc4051_distributed_banki.Protocol.Service
use sc4051_distributed_banki.Terminal.Input.{newline}
use sc4051_distributed_banki.Client.State.{Services, value}
use sc4051_distributed_banki.Client.Text.{upper_case}
use sc4051_distributed_banki.Client.Text.Lines.{IsAnswer, name-IsAnswer, decimal-IsAnswer}
use sc4051_distributed_banki.Client.Number.{judge_double}
use sc4051_distributed_banki.Client.Input.{
  string_to_currency, judge_currency, get_validated_currency, get_validated_double,
  get_validated_string, get_validated_password, get_validated_uint32,
}
use sc4051_distributed_banki.Client.Input.Asked.{IsName, IsPassword}
use sc4051_distributed_banki.Client.Typed.{Reads, ask-Reads, line_of, line_of-Spells, left-Spells}
use sc4051_distributed_banki.Client.Typed.Answers.{
  is_quit, string-Reads, uint32-Reads, password-Reads, password-IsAnswer,
}
use sc4051_distributed_banki.Client.Typed.Account.{IsAccount, account_lines, account_command, asked}

-- A name and a password that a dialogue takes.
abbrev pub IsHolder : Bytes → Type 0
IsHolder name = IsName name × (is_quit name ≡ false)

abbrev pub IsSecret : Bytes → Type 0
IsSecret pwd = IsPassword pwd × (is_quit pwd ≡ false)

-- A line that names a currency, in letters of either case.
abbrev pub IsCurrencyLine : Services → Bytes → ℕ → Type 0
IsCurrencyLine s line cur =
    IsAnswer line × (string_to_currency (upper_case s.toupper_negative line) ≡ some cur)

-- A line that std::stod reads.
abbrev pub IsValueLine : Services → Bytes → ℕ → Type 0
IsValueLine s line v = IsAnswer line × (s.stod line ≡ value v)

pub currency-Reads :
    (s : Services) (prompt line : Bytes) (cur : ℕ)
    → IsCurrencyLine s line cur
    → Reads (get_validated_currency s prompt) cur (line_of line)
unfolding get_validated_currency judge_currency
currency-Reads s prompt line cur h =
    ask-Reads 4 prompt _ _ (line_of line) line cur h.0 (line_of-Spells line h.0) (rw h.1 refl)

pub double-Reads :
    (s : Services) (prompt line : Bytes) (v : ℕ)
    → IsValueLine s line v
    → Reads (get_validated_double s prompt) v (line_of line)
unfolding get_validated_double judge_double
double-Reads s prompt line v h =
    ask-Reads 4 prompt _ _ (line_of line) line v h.0 (line_of-Spells line h.0) (rw h.1 refl)

pub holder-Reads :
    (prompt name : Bytes) → IsHolder name → Reads (get_validated_string prompt) name (line_of name)
holder-Reads prompt name h =
    string-Reads prompt (line_of name) name h.0 h.1
      (line_of-Spells name (name-IsAnswer name h.0 h.1))

pub first_holder-Reads :
    (prompt name : Bytes)
    → IsHolder name
    → Reads (get_validated_string prompt) name (newline ∷ line_of name)
first_holder-Reads prompt name h =
    string-Reads prompt (newline ∷ line_of name) name h.0 h.1
      (left-Spells name (name-IsAnswer name h.0 h.1))

pub secret-Reads :
    (prompt pwd : Bytes) → IsSecret pwd → Reads (get_validated_password prompt) pwd (line_of pwd)
secret-Reads prompt pwd h =
    password-Reads prompt (line_of pwd) pwd h.0 h.1
      (line_of-Spells pwd (password-IsAnswer pwd h.0 h.1))

pub number-Reads :
    (prompt : Bytes) (n : ℕ)
    → n < 2 ^ 32
    → Reads (get_validated_uint32 prompt) n (line_of (decimal n))
number-Reads prompt n fits =
    uint32-Reads prompt (line_of (decimal n)) n fits
      (line_of-Spells (decimal n) (decimal-IsAnswer n (omega arith)))

-- The lines of a request: what is typed behind the number of the service, and the command it makes.
pub data Lines (s : Services) : ℕ → Bytes → Command → Type 0 where
  to_open :
      (name pwd cur_line val_line : Bytes) (cur val : ℕ)
      → IsHolder name
      → IsSecret pwd
      → IsCurrencyLine s cur_line cur
      → IsValueLine s val_line val
      → Lines s Service.open_account
          (line_of name ++ (line_of pwd ++ (line_of cur_line ++ line_of val_line)))
          (record empty_command {
            service = some Service.open_account;
            account_owner_name = some name;
            account_password = some pwd;
            currency = some cur;
            monetary_value = some val;
          })
  about_account :
      (n : ℕ) (name : Bytes) (num : ℕ) (pwd : Bytes)
      → (n ≡ Service.close) ⊎ (n ≡ Service.get_balance)
      → IsAccount name num pwd
      → Lines s n (account_lines name num pwd) (account_command (asked n) name num pwd)
  to_change :
      (n : ℕ) (name : Bytes) (num : ℕ) (pwd cur_line val_line : Bytes) (cur val : ℕ)
      → (n ≡ Service.deposit) ⊎ (n ≡ Service.withdraw)
      → IsAccount name num pwd
      → IsCurrencyLine s cur_line cur
      → IsValueLine s val_line val
      → Lines s n
          ((account_lines name num pwd ++ line_of cur_line) ++ line_of val_line)
          (record (account_command (asked n) name num pwd) {
            currency = some cur;
            monetary_value = some val;
          })
  to_monitor :
      (name : Bytes) (num : ℕ) (pwd : Bytes) (time : ℕ)
      → IsAccount name num pwd
      → time < 2 ^ 32
      → Lines s Service.monitor
          (account_lines name num pwd ++ line_of (decimal time))
          (record (account_command (asked Service.monitor) name num pwd) {
            monitor_timeout_seconds = some time;
          })
  to_transfer :
      (name : Bytes) (num : ℕ) (pwd tx_name : Bytes) (tx_num : ℕ) (cur_line val_line : Bytes)
      (cur val : ℕ)
      → IsAccount name num pwd
      → IsHolder tx_name
      → tx_num < 2 ^ 32
      → IsCurrencyLine s cur_line cur
      → IsValueLine s val_line val
      → Lines s Service.transfer_funds
          (((account_lines name num pwd ++ (line_of tx_name ++ line_of (decimal tx_num)))
              ++ line_of cur_line)
            ++ line_of val_line)
          (record (account_command (asked Service.transfer_funds) name num pwd) {
            tx_account_owner_name = some tx_name;
            tx_account_number = some tx_num;
            currency = some cur;
            monetary_value = some val;
          })
