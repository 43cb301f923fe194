-- ===== src/Protocol/Status.antt =====
-- enum class ProtocolStatus : uint16_t of client/include/utils/protocolStatus.h, and its `to_string`.
use sc4051_distributed_banki.Base.{ℕ, ◌==◌, if◌then◌else◌}
use sc4051_distributed_banki.Memory.{Bytes}
use sc4051_distributed_banki.Base.Text.{codes}

abbrev pub success : ℕ
success = 0

abbrev pub account_not_found : ℕ
account_not_found = 1

abbrev pub invalid_credentials : ℕ
invalid_credentials = 2

abbrev pub account_mismatch : ℕ
account_mismatch = 3

abbrev pub currency_mismatch : ℕ
currency_mismatch = 4

abbrev pub insufficient_funds : ℕ
insufficient_funds = 5

abbrev pub transfer_same_account : ℕ
transfer_same_account = 6

abbrev pub internal_server_error : ℕ
internal_server_error = 7

unfoldable pub to_string : ℕ → Bytes
to_string status_code =
    if status_code == success
    then codes "SUCCESS"
    else if status_code == account_not_found
    then codes "ACCOUNT_NOT_FOUND"
    else if status_code == invalid_credentials
    then codes "INVALID_CREDENTIALS"
    else if status_code == account_mismatch
    then codes "ACCOUNT_MISMATCH"
    else if status_code == currency_mismatch
    then codes "CURRENCY_MISMATCH"
    else if status_code == insufficient_funds
    then codes "INSUFFICIENT_FUNDS"
    else if status_code == transfer_same_account
    then codes "TRANSFER_SAME_ACCOUNT"
    else if status_code == internal_server_error
    then codes "INTERNAL_SERVER_ERROR"
    else codes "UNKNOWN_STATUS_CODE"
