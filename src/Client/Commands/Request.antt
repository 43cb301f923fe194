-- ===== src/Client/Commands/Request.antt =====
-- What a request of each service looks like, and what the functions that fill its fields ensure.
use sc4051_distributed_banki.Base.{
  ℕ, ◌≤◌, ◌≡◌, Bool, true, false, Option, none, some, List, [], ◌∷◌, ◌==◌, ◌||◌, if◌then◌else◌,
}
use sc4051_distributed_banki.Memory.{Bytes}
use sc4051_distributed_banki.Protocol.{
  Command, FieldId, service, account_number, account_owner_name, account_password,
  tx_account_number, tx_account_owner_name, monetary_value, currency, monitor_timeout_seconds,
}
use sc4051_distributed_banki.Protocol.Service
use sc4051_distributed_banki.CmdEncoder.Encode.{all_fields}
use sc4051_distributed_banki.Client.State.{Io, Services, ◌>>=◌}
use sc4051_distributed_banki.Client.Commands.{
  fill_account_creation_details, fill_auth_details, fill_currency_details, fill_amount_details,
  fill_transfer_account_details, fill_monitor_details,
}
use sc4051_distributed_banki.Client.Input.Asked.{
  Always, bind-Always, IsWord, IsDouble, IsName, IsPassword, IsCurrency, ReturnsDoubles,
  get_validated_uint32-IsWord, get_validated_double-IsDouble, get_validated_string-IsName,
  get_validated_password-IsPassword, get_validated_currency-IsCurrency,
}

abbrev pub set_among : List (FieldId × Bool) → List FieldId
set_among [] = []
set_among ((id, true) ∷ fs) = id ∷ set_among fs
set_among ((id, false) ∷ fs) = set_among fs

abbrev pub account_fields : List FieldId → List FieldId
account_fields more = service ∷ account_number ∷ account_owner_name ∷ account_password ∷ more

-- The fields that a request of the service has, in the order of `all_fields`.
abbrev pub fields_of : ℕ → List FieldId
fields_of n =
    if n == Service.open_account
    then service ∷ account_owner_name ∷ account_password ∷ monetary_value ∷ currency ∷ []
    else if n == Service.close || n == Service.get_balance
    then account_fields []
    else if n == Service.deposit || n == Service.withdraw
    then account_fields (monetary_value ∷ currency ∷ [])
    else if n == Service.transfer_funds
    then account_fields (tx_account_number ∷ tx_account_owner_name ∷ monetary_value ∷ currency ∷ [])
    else account_fields (monitor_timeout_seconds ∷ [])

abbrev pub When : {A : Type 0} → (A → Type 0) → Option A → Type 0
When P none = Unit
When P (some a) = P a

-- A command that asks for one of the seven services with just the fields of that service, every value
-- in its range, a name of letters and a password of one to eight letters and digits.
pub record IsRequest (cmd : Command) : Type 0 where
  pub asks :
      (n : ℕ) × (cmd.service ≡ some n)
      × (1 ≤ n)
      × (n ≤ 7)
      × (set_among (all_fields cmd) ≡ fields_of n)
  pub no_updates : cmd.monitor_updates ≡ none
  pub owner_name : When IsName cmd.account_owner_name
  pub password : When IsPassword cmd.account_password
  pub number : When IsWord cmd.account_number
  pub tx_name : When IsName cmd.tx_account_owner_name
  pub tx_number : When IsWord cmd.tx_account_number
  pub value : When IsDouble cmd.monetary_value
  pub currency_known : When IsCurrency cmd.currency
  pub timeout : When IsWord cmd.monitor_timeout_seconds

-- To show that `m >>= f` ensures Q, show that m ensures of its value what f needs.
pub bind_wp :
    {A B : Type 0} (Q : B → Type 0) (m : Io A) (f : A → Io B)
    → Always (λ a. Always Q (f a)) m
    → Always Q (m >>= f)
bind_wp Q m f h = bind-Always (λ a. Always Q (f a)) Q m f h (λ a k. k)

module _ (s : Services) (doubles : ReturnsDoubles s) (Q : Command → Type 0) (req : Command) where
  pub fill_auth-Always :
      ((acc : Bytes) (num : ℕ) (pwd : Bytes)
        → IsName acc
        → IsWord num
        → IsPassword pwd
        → Q (record req {
          account_owner_name = some acc;
          account_number = some num;
          account_password = some pwd;
        }))
      → Always Q (fill_auth_details s req)
  unfolding fill_auth_details
  fill_auth-Always k = bind-Always IsName Q _ _ (get_validated_string-IsName _) λ acc name.
      bind-Always IsWord Q _ _ (get_validated_uint32-IsWord _) λ num word.
        bind-Always IsPassword Q _ _ (get_validated_password-IsPassword _)
          λ pwd password c. k acc num pwd name word password

  pub fill_currency-Always :
      ((cur : ℕ) → IsCurrency cur → Q (record req { currency = some cur }))
      → Always Q (fill_currency_details s req)
  unfolding fill_currency_details
  fill_currency-Always k =
      bind-Always IsCurrency Q _ _ (get_validated_currency-IsCurrency s _)
        λ cur known c. k cur known

  pub fill_amount-Always :
      ((val : ℕ) → IsDouble val → Q (record req { monetary_value = some val }))
      → Always Q (fill_amount_details s req)
  unfolding fill_amount_details
  fill_amount-Always k =
      bind-Always IsDouble Q _ _ (get_validated_double-IsDouble s _ doubles)
        λ val double c. k val double

  pub fill_monitor-Always :
      ((time : ℕ) → IsWord time → Q (record req { monitor_timeout_seconds = some time }))
      → Always Q (fill_monitor_details s req)
  unfolding fill_monitor_details
  fill_monitor-Always k =
      bind-Always IsWord Q _ _ (get_validated_uint32-IsWord _) λ time word c. k time word

  pub fill_transfer-Always :
      ((acc : Bytes) (num : ℕ)
        → IsName acc
        → IsWord num
        → Q (record req { tx_account_owner_name = some acc; tx_account_number = some num }))
      → Always Q (fill_transfer_account_details s req)
  unfolding fill_transfer_account_details
  fill_transfer-Always k = bind-Always IsName Q _ _ (get_validated_string-IsName _) λ acc name.
      bind-Always IsWord Q _ _ (get_validated_uint32-IsWord _) λ num word c. k acc num name word

  pub fill_open-Always :
      ((acc pwd : Bytes) (cur val : ℕ)
        → IsName acc
        → IsPassword pwd
        → IsCurrency cur
        → IsDouble val
        → Q (record req {
          account_owner_name = some acc;
          account_password = some pwd;
          currency = some cur;
          monetary_value = some val;
        }))
      → Always Q (fill_account_creation_details s req)
  unfolding fill_account_creation_details
  fill_open-Always k = bind-Always IsName Q _ _ (get_validated_string-IsName _) λ acc name.
      bind-Always IsPassword Q _ _ (get_validated_password-IsPassword _) λ pwd password.
        bind-Always IsCurrency Q _ _ (get_validated_currency-IsCurrency s _) λ cur known.
          bind-Always IsDouble Q _ _ (get_validated_double-IsDouble s _ doubles)
            λ val double c. k acc pwd cur val name password known double
