-- ===== src/Protocol/Service.antt =====
-- enum class Service : uint8_t of client/include/protocol/protocol.h, and its `to_string`.
use sc4051_distributed_banki.Base.{ℕ, ◌==◌, if◌then◌else◌}
use sc4051_distributed_banki.Memory.{Bytes}
use sc4051_distributed_banki.Base.Text.{codes}

abbrev pub unset : ℕ
unset = 0

abbrev pub open_account : ℕ
open_account = 1

abbrev pub close : ℕ
close = 2

abbrev pub deposit : ℕ
deposit = 3

abbrev pub withdraw : ℕ
withdraw = 4

abbrev pub monitor : ℕ
monitor = 5

abbrev pub get_balance : ℕ
get_balance = 6

abbrev pub transfer_funds : ℕ
transfer_funds = 7

unfoldable pub to_string : ℕ → Bytes
to_string svc =
    if svc == unset
    then codes "SERVICE_NONE"
    else if svc == open_account
    then codes "SERVICE_OPEN"
    else if svc == close
    then codes "SERVICE_CLOSE"
    else if svc == deposit
    then codes "SERVICE_DEPOSIT"
    else if svc == withdraw
    then codes "SERVICE_WITHDRAW"
    else if svc == monitor
    then codes "SERVICE_MONITOR"
    else if svc == get_balance
    then codes "SERVICE_GET_BALANCE"
    else if svc == transfer_funds
    then codes "SERVICE_TRANSFER_FUNDS"
    else codes "UNKNOWN_SERVICE"
