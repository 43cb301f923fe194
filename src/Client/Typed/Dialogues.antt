-- ===== src/Client/Typed/Dialogues.antt =====
-- The dialogues of the services read their lines, one after the other.
use sc4051_distributed_banki.Base.{ℕ, ◌<◌, ◌^◌, some, ◌∷◌, ◌++◌}
use sc4051_distributed_banki.Base.Text.{decimal}
use sc4051_distributed_banki.Memory.{Bytes}
use sc4051_distributed_banki.Protocol.{Command}
use sc4051_distributed_banki.Terminal.Input.{newline}
use sc4051_distributed_banki.Client.State.{Services, ◌>>=◌}
use sc4051_distributed_banki.Client.Commands.{
  fill_account_creation_details, fill_auth_details, fill_currency_details, fill_amount_details,
  fill_transfer_account_details, fill_monitor_details, fill_transaction, fill_transfer,
  fill_monitor,
}
use sc4051_distributed_banki.Client.Typed.{Reads, pure-Reads, bind-Reads, finish-Reads, line_of}
use sc4051_distributed_banki.Client.Typed.Account.{
  IsAccount, account_lines, account_command, fill_auth-Reads,
}
use sc4051_distributed_banki.Client.Typed.Requests.{
  IsHolder, IsSecret, IsCurrencyLine, IsValueLine, currency-Reads, double-Reads, holder-Reads,
  first_holder-Reads, secret-Reads, number-Reads,
}

module _ (s : Services) where
  pub open-Reads :
      (req : Command) (name pwd cur_line val_line : Bytes) (cur val : ℕ)
      → IsHolder name
      → IsSecret pwd
      → IsCurrencyLine s cur_line cur
      → IsValueLine s val_line val
      → Reads
          (fill_account_creation_details s req)
          (record req {
            account_owner_name = some name;
            account_password = some pwd;
            currency = some cur;
            monetary_value = some val;
          })
          (newline ∷ line_of name ++ (line_of pwd ++ (line_of cur_line ++ line_of val_line)))
  unfolding fill_account_creation_details
  open-Reads req name pwd cur_line val_line cur val hn hp hc hv =
      bind-Reads _ name _ _ (newline ∷ line_of name)
        (line_of pwd ++ (line_of cur_line ++ line_of val_line)) (first_holder-Reads _ name hn)
        (bind-Reads _ pwd _ _ (line_of pwd) (line_of cur_line ++ line_of val_line)
          (secret-Reads _ pwd hp)
          (bind-Reads _ cur _ _ (line_of cur_line) (line_of val_line)
            (currency-Reads s _ cur_line cur hc)
            (finish-Reads _ val _ _ (line_of val_line) (double-Reads s _ val_line val hv)
              (pure-Reads _))))

  fill_currency-Reads :
      (req : Command) (line : Bytes) (cur : ℕ)
      → IsCurrencyLine s line cur
      → Reads (fill_currency_details s req) (record req { currency = some cur }) (line_of line)
  unfolding fill_currency_details
  fill_currency-Reads req line cur h =
      finish-Reads _ cur _ _ (line_of line) (currency-Reads s _ line cur h) (pure-Reads _)

  fill_amount-Reads :
      (req : Command) (line : Bytes) (v : ℕ)
      → IsValueLine s line v
      → Reads (fill_amount_details s req) (record req { monetary_value = some v }) (line_of line)
  unfolding fill_amount_details
  fill_amount-Reads req line v h =
      finish-Reads _ v _ _ (line_of line) (double-Reads s _ line v h) (pure-Reads _)

  fill_monitor-Reads :
      (req : Command) (time : ℕ)
      → time < 2 ^ 32
      → Reads
          (fill_monitor_details s req)
          (record req { monitor_timeout_seconds = some time })
          (line_of (decimal time))
  unfolding fill_monitor_details
  fill_monitor-Reads req time fits =
      finish-Reads _ time _ _ (line_of (decimal time)) (number-Reads _ time fits) (pure-Reads _)

  fill_transfer-Reads :
      (req : Command) (name : Bytes) (num : ℕ)
      → IsHolder name
      → num < 2 ^ 32
      → Reads
          (fill_transfer_account_details s req)
          (record req { tx_account_owner_name = some name; tx_account_number = some num })
          (line_of name ++ line_of (decimal num))
  unfolding fill_transfer_account_details
  fill_transfer-Reads req name num h fits =
      bind-Reads _ name _ _ (line_of name) (line_of (decimal num)) (holder-Reads _ name h)
        (finish-Reads _ num _ _ (line_of (decimal num)) (number-Reads _ num fits) (pure-Reads _))

  module _ (name : Bytes) (num : ℕ) (pwd : Bytes) (h : IsAccount name num pwd) (req : Command) where
    abbrev with_account : Command
    with_account = account_command req name num pwd

    pub transaction-Reads :
        (cur_line val_line : Bytes) (cur val : ℕ)
        → IsCurrencyLine s cur_line cur
        → IsValueLine s val_line val
        → Reads
            (fill_transaction s req)
            (record with_account { currency = some cur; monetary_value = some val })
            (newline ∷ ((account_lines name num pwd ++ line_of cur_line) ++ line_of val_line))
    transaction-Reads cur_line val_line cur val hc hv =
        bind-Reads (fill_auth_details s req >>= fill_currency_details s)
          (record with_account { currency = some cur }) (fill_amount_details s) _
          (newline ∷ (account_lines name num pwd ++ line_of cur_line)) (line_of val_line)
          (bind-Reads (fill_auth_details s req) with_account (fill_currency_details s) _
            (newline ∷ account_lines name num pwd) (line_of cur_line)
            (fill_auth-Reads s name num pwd h req)
            (fill_currency-Reads with_account cur_line cur hc))
          (fill_amount-Reads (record with_account { currency = some cur }) val_line val hv)

    pub monitor-Reads :
        (time : ℕ)
        → time < 2 ^ 32
        → Reads
            (fill_monitor s req)
            (record with_account { monitor_timeout_seconds = some time })
            (newline ∷ (account_lines name num pwd ++ line_of (decimal time)))
    monitor-Reads time fits =
        bind-Reads (fill_auth_details s req) with_account (fill_monitor_details s) _
          (newline ∷ account_lines name num pwd) (line_of (decimal time))
          (fill_auth-Reads s name num pwd h req) (fill_monitor-Reads with_account time fits)

    pub transfer-Reads :
        (tx_name : Bytes) (tx_num : ℕ) (cur_line val_line : Bytes) (cur val : ℕ)
        → IsHolder tx_name
        → tx_num < 2 ^ 32
        → IsCurrencyLine s cur_line cur
        → IsValueLine s val_line val
        → Reads
            (fill_transfer s req)
            (record with_account {
              tx_account_owner_name = some tx_name;
              tx_account_number = some tx_num;
              currency = some cur;
              monetary_value = some val;
            })
            (newline
              ∷ (((account_lines name num pwd ++ (line_of tx_name ++ line_of (decimal tx_num)))
                    ++ line_of cur_line)
                  ++ line_of val_line))
    transfer-Reads tx_name tx_num cur_line val_line cur val ht fits hc hv =
        let other : Command = record with_account {
          tx_account_owner_name = some tx_name;
          tx_account_number = some tx_num;
        } in
        bind-Reads
          (fill_auth_details s req >>= fill_transfer_account_details s >>= fill_currency_details s)
          (record other { currency = some cur }) (fill_amount_details s) _
          (newline
            ∷ ((account_lines name num pwd ++ (line_of tx_name ++ line_of (decimal tx_num)))
                ++ line_of cur_line))
          (line_of val_line)
          (bind-Reads (fill_auth_details s req >>= fill_transfer_account_details s) other
            (fill_currency_details s) _
            (newline
              ∷ (account_lines name num pwd ++ (line_of tx_name ++ line_of (decimal tx_num))))
            (line_of cur_line)
            (bind-Reads (fill_auth_details s req) with_account (fill_transfer_account_details s) _
              (newline ∷ account_lines name num pwd) (line_of tx_name ++ line_of (decimal tx_num))
              (fill_auth-Reads s name num pwd h req)
              (fill_transfer-Reads with_account tx_name tx_num ht fits))
            (fill_currency-Reads other cur_line cur hc))
          (fill_amount-Reads (record other { currency = some cur }) val_line val hv)
