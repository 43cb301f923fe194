-- ===== src/Protocol/Currency.antt =====
-- enum class CurrencyType of client/include/protocol/protocol.h, and its `to_string`.
use sc4051_distributed_banki.Base.{ℕ, ◌==◌, if◌then◌else◌}
use sc4051_distributed_banki.Memory.{Bytes}
use sc4051_distributed_banki.Base.Text.{codes}

abbrev pub sgd : ℕ
sgd = 0

abbrev pub usd : ℕ
usd = 1

abbrev pub eur : ℕ
eur = 2

unfoldable pub to_string : ℕ → Bytes
to_string cur_type =
    if cur_type == sgd
    then codes "SGD"
    else if cur_type == usd
    then codes "USD"
    else if cur_type == eur
    then codes "EUR"
    else codes "UNKNOWN_CURRENCY _TYPE"
