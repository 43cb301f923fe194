-- ===== src/Client/Typed/Chosen.antt =====
-- Each service's dialogue reads its lines.
use sc4051_distributed_banki.Base.{ℕ, ◌≤◌, ◌≡◌, inl, inr, ◌∷◌, ◌++◌, arith}
use sc4051_distributed_banki.Base.Outcome.{ok}
use sc4051_distributed_banki.Base.Text.{decimal}
use sc4051_distributed_banki.Memory.{Bytes}
use sc4051_distributed_banki.Protocol.{Command}
use sc4051_distributed_banki.Terminal.Input.{newline}
use sc4051_distributed_banki.Client.State.{Client, Services}
use sc4051_distributed_banki.Client.Commands.{
  fill_account_creation_details, fill_transaction, fill_transfer, fill_monitor, fill_service,
  build_command,
}
use sc4051_distributed_banki.Client.Typed.{Reads, line_of}
use sc4051_distributed_banki.Client.Typed.Account.{
  account_lines, asked, boxed-Reads, service-Reads, chosen-Reads,
}
use sc4051_distributed_banki.Client.Typed.Dialogues.{
  open-Reads, transaction-Reads, monitor-Reads, transfer-Reads,
}
use sc4051_distributed_banki.Client.Typed.Requests.{
  Lines, to_open, about_account, to_change, to_monitor, to_transfer,
}

module _ (s : Services) where
  -- The switch goes to the dialogue of the service.
  chosen :
      (n : ℕ) (text : Bytes) (cmd : Command)
      → Lines s n text cmd
      → Reads (fill_service s n (asked n)) cmd (newline ∷ text)
  chosen _ _ _ (to_open name pwd cur_line val_line cur val hn hp hc hv) =
      boxed-Reads s 1 (fill_account_creation_details s (asked 1)) _
        (newline ∷ (line_of name ++ (line_of pwd ++ (line_of cur_line ++ line_of val_line))))
        (open-Reads s (asked 1) name pwd cur_line val_line cur val hn hp hc hv)
  chosen _ _ _ (about_account n name num pwd which h) = service-Reads s name num pwd h n which
  chosen _ _ _ (to_change n name num pwd cur_line val_line cur val (inl e) h hc hv) = rw e (
      boxed-Reads s 3 (fill_transaction s (asked 3)) _
        (newline ∷ ((account_lines name num pwd ++ line_of cur_line) ++ line_of val_line))
        (transaction-Reads s name num pwd h (asked 3) cur_line val_line cur val hc hv))
  chosen _ _ _ (to_change n name num pwd cur_line val_line cur val (inr e) h hc hv) = rw e (
      boxed-Reads s 4 (fill_transaction s (asked 4)) _
        (newline ∷ ((account_lines name num pwd ++ line_of cur_line) ++ line_of val_line))
        (transaction-Reads s name num pwd h (asked 4) cur_line val_line cur val hc hv))
  chosen _ _ _ (to_monitor name num pwd time h fits) =
      boxed-Reads s 5 (fill_monitor s (asked 5)) _
        (newline ∷ (account_lines name num pwd ++ line_of (decimal time)))
        (monitor-Reads s name num pwd h (asked 5) time fits)
  chosen _ _ _ (to_transfer name num pwd tx_name tx_num cur_line val_line cur val h ht fits hc hv) =
      boxed-Reads s 7 (fill_transfer s (asked 7)) _
        (newline
          ∷ (((account_lines name num pwd ++ (line_of tx_name ++ line_of (decimal tx_num)))
                ++ line_of cur_line)
              ++ line_of val_line))
        (transfer-Reads s name num pwd h (asked 7) tx_name tx_num cur_line val_line cur val ht fits
          hc hv)

  in_menu : (n : ℕ) (text : Bytes) (cmd : Command) → Lines s n text cmd → (1 ≤ n) × (n ≤ 7)
  in_menu _ _ _ (to_open name pwd cur_line val_line cur val hn hp hc hv) =
      (omega arith, omega arith)
  in_menu _ _ _ (about_account n name num pwd (inl e) h) = (omega arith, omega arith)
  in_menu _ _ _ (about_account n name num pwd (inr e) h) = (omega arith, omega arith)
  in_menu _ _ _ (to_change n name num pwd cur_line val_line cur val (inl e) h hc hv) =
      (omega arith, omega arith)
  in_menu _ _ _ (to_change n name num pwd cur_line val_line cur val (inr e) h hc hv) =
      (omega arith, omega arith)
  in_menu _ _ _ (to_monitor name num pwd time h fits) = (omega arith, omega arith)
  in_menu _ _ _
        (to_transfer name num pwd tx_name tx_num cur_line val_line cur val h ht fits hc hv) =
      (omega arith, omega arith)

-- A user who types the number of a service and then the lines of a request to it gets the command that
-- the lines spell, and what is typed behind them is left.
pub build_command-Lines :
    (s : Services) (n : ℕ) (text : Bytes) (cmd : Command) (rest : Bytes) (c : Client)
    → Lines s n text cmd
    → c.input ≡ (decimal n ++ newline ∷ text) ++ rest
    → ((build_command s c).0 ≡ ok cmd) × ((build_command s c).1.input ≡ rest)
build_command-Lines s n text cmd rest c typed e =
    let (low, high) = in_menu s n text cmd typed in
    chosen-Reads s n cmd text low high (chosen s n text cmd typed) c rest e
