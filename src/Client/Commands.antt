-- ===== src/Client/Commands.antt =====
-- `BankClient::build_command` and the functions that ask for a service's fields. A function that fills
-- a command by reference returns the filled one; where it fails, the caller drops the command.
pub mod Request
pub mod Menu
pub mod Encodable
pub mod Quiet
use sc4051_distributed_banki.Base.{
  ℕ, ◌+◌, ◌%◌, Option, none, some, Bool, true, false, ◌||◌, List, [], ◌∷◌, ◌++◌, ◌==◌,
  if◌then◌else◌,
}
use sc4051_distributed_banki.Base.Outcome.{InternalError, user_quit, invalid_service}
use sc4051_distributed_banki.Base.Text.{codes}
use sc4051_distributed_banki.Memory.{Bytes}
use sc4051_distributed_banki.Protocol.{Command, empty_command}
use sc4051_distributed_banki.Protocol.Service
use sc4051_distributed_banki.Client.State.{
  Client, Io, Services, Output, print, print_error, print_box_top, print_box_bottom, bold_cyan,
  ◌>>=◌, ◌>>◌, pure, raise, say, read_int,
}
use sc4051_distributed_banki.Client.Input.{
  get_validated_uint32, get_validated_double, get_validated_string, get_validated_password,
  get_validated_currency,
}

module _ (s : Services) where
  unfoldable pub fill_account_creation_details : Command → Io Command
  fill_account_creation_details req = do
    acc ← get_validated_string (codes "Account Holder")
    pwd ← get_validated_password (codes "Set Password")
    cur ← get_validated_currency s (codes "Desired currency (SGD/USD/EUR)")
    val ← get_validated_double s (codes "Initial Deposit")
    pure (record req {
      account_owner_name = some acc;
      account_password = some pwd;
      currency = some cur;
      monetary_value = some val;
    })

  unfoldable pub fill_auth_details : Command → Io Command
  fill_auth_details req = do
    acc_name ← get_validated_string (codes "Account Holder")
    acc_num ← get_validated_uint32 (codes "Account Number")
    pwd ← get_validated_password (codes "Account Password")
    pure (record req {
      account_owner_name = some acc_name;
      account_number = some acc_num;
      account_password = some pwd;
    })

  unfoldable pub fill_currency_details : Command → Io Command
  fill_currency_details req = do
    cur ← get_validated_currency s (codes "Desired currency (SGD/USD/EUR)")
    pure (record req { currency = some cur })

  unfoldable pub fill_amount_details : Command → Io Command
  fill_amount_details req = do
    val ← get_validated_double s (codes "Desired Amount")
    pure (record req { monetary_value = some val })

  unfoldable pub fill_transfer_account_details : Command → Io Command
  fill_transfer_account_details req = do
    acc_name ← get_validated_string (codes "Transfer Account Holder Name")
    acc_num ← get_validated_uint32 (codes "Transfer Account Number")
    pure (record req { tx_account_owner_name = some acc_name; tx_account_number = some acc_num })

  unfoldable pub fill_monitor_details : Command → Io Command
  fill_monitor_details req = do
    time ← get_validated_uint32 (codes "Desired Monitor Time (In Seconds)")
    pure (record req { monitor_timeout_seconds = some time })

  -- The calls of a case of the switch, between the two lines of its box.
  abbrev pub in_box : ℕ → Io Command → Io Command
  in_box service_type fill = do
    say (print (codes "ACTIVE SERVICE :" ++ Service.to_string service_type) bold_cyan)
    say print_box_top
    cmd ← fill
    say print_box_bottom
    pure cmd

  abbrev pub fill_transaction : Command → Io Command
  fill_transaction cmd = fill_auth_details cmd >>= fill_currency_details >>= fill_amount_details

  abbrev pub fill_transfer : Command → Io Command
  fill_transfer cmd =
      fill_auth_details cmd
      >>= fill_transfer_account_details
      >>= fill_currency_details
      >>= fill_amount_details

  abbrev pub fill_monitor : Command → Io Command
  fill_monitor cmd = fill_auth_details cmd >>= fill_monitor_details

  -- `switch (service_type)`
  abbrev pub fill_service : ℕ → Command → Io Command
  fill_service service_type cmd =
      if service_type == Service.open_account
      then in_box service_type (fill_account_creation_details cmd)
      else if service_type == Service.close || service_type == Service.get_balance
      then in_box service_type (fill_auth_details cmd)
      else if service_type == Service.deposit || service_type == Service.withdraw
      then in_box service_type (fill_transaction cmd)
      else if service_type == Service.transfer_funds
      then in_box service_type (fill_transfer cmd)
      else if service_type == Service.monitor
      then in_box service_type (fill_monitor cmd)
      else (say (print_error (codes "Invalid Selection")) >> raise invalid_service)

  -- The number that was typed is cast to the eight bits of a `Service`.
  unfoldable pub build_command : Io Command
  build_command = do
    user_input ← read_int
    if user_input == 0
        then raise user_quit
        else (let service_type = user_input % 256 in
            fill_service service_type (record empty_command { service = some service_type }))
