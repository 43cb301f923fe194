-- ===== src/Client/Commands/Menu.antt =====
-- What `build_command` hands on.
use sc4051_distributed_banki.Base.{
  ℕ, ◌≤◌, ◌%◌, ◌≡◌, refl, sym, false, some, [], ◌∷◌, ◌==◌, ◌||◌, Bool-cases, inl, inr,
  if◌then◌else◌, arith,
}
use sc4051_distributed_banki.Base.Outcome.{user_quit}
use sc4051_distributed_banki.Protocol.{
  Command, empty_command, tx_account_number, tx_account_owner_name, monetary_value, currency,
  monitor_timeout_seconds,
}
use sc4051_distributed_banki.Protocol.Service
use sc4051_distributed_banki.Client.State.{Client, Io, Services, ◌>>=◌, raise, read_int}
use sc4051_distributed_banki.Client.Commands.{
  fill_account_creation_details, fill_auth_details, fill_currency_details, fill_amount_details,
  fill_transfer_account_details, fill_monitor_details, in_box, fill_transaction, fill_transfer,
  fill_monitor, fill_service, build_command,
}
use sc4051_distributed_banki.Client.Input.Asked.{Ensures, Always, bind-Always, ReturnsDoubles}
use sc4051_distributed_banki.Client.Commands.Request.{
  IsRequest, fields_of, account_fields, bind_wp, fill_auth-Always, fill_currency-Always,
  fill_amount-Always, fill_monitor-Always, fill_transfer-Always, fill_open-Always,
}

module _ (s : Services) (doubles : ReturnsDoubles s) where
  -- The box around a case of the switch changes nothing of its result.
  in_box-Always :
      (Q : Command → Type 0) (n : ℕ) (fill : Io Command)
      → Always Q fill
      → Always Q (in_box s n fill)
  in_box-Always Q n fill h c =
      bind-Always Q Q fill _ h (λ cmd holds c'. holds) (record c { screen = _ ∷ _ ∷ c.screen })

  abbrev asked : ℕ → Command
  asked n = record empty_command { service = some n }

  open-IsRequest : (n : ℕ) → n ≡ 1 → Always IsRequest (fill_account_creation_details s (asked n))
  open-IsRequest n e =
      fill_open-Always s doubles IsRequest (asked n) λ acc pwd cur val name password known double.
        record {
          asks = (n, refl, omega arith, omega arith, rw e refl);
          no_updates = refl;
          owner_name = name;
          password = password;
          number = tt;
          tx_name = tt;
          tx_number = tt;
          value = double;
          currency_known = known;
          timeout = tt;
        }

  auth-IsRequest :
      (n : ℕ)
      → 1 ≤ n
      → n ≤ 7
      → fields_of n ≡ account_fields []
      → Always IsRequest (fill_auth_details s (asked n))
  auth-IsRequest n low high table =
      fill_auth-Always s doubles IsRequest (asked n) λ acc num pwd name word password. record {
        asks = (n, refl, low, high, sym table);
        no_updates = refl;
        owner_name = name;
        password = password;
        number = word;
        tx_name = tt;
        tx_number = tt;
        value = tt;
        currency_known = tt;
        timeout = tt;
      }

  monitor-IsRequest :
      (n : ℕ)
      → 1 ≤ n
      → n ≤ 7
      → fields_of n ≡ account_fields (monitor_timeout_seconds ∷ [])
      → Always IsRequest (fill_monitor s (asked n))
  monitor-IsRequest n low high table =
      bind_wp IsRequest (fill_auth_details s (asked n)) (fill_monitor_details s) (
        fill_auth-Always s doubles _ (asked n) λ acc num pwd name word password.
          fill_monitor-Always s doubles IsRequest _ λ time seconds. record {
            asks = (n, refl, low, high, sym table);
            no_updates = refl;
            owner_name = name;
            password = password;
            number = word;
            tx_name = tt;
            tx_number = tt;
            value = tt;
            currency_known = tt;
            timeout = seconds;
          })

  transaction-IsRequest :
      (n : ℕ)
      → 1 ≤ n
      → n ≤ 7
      → fields_of n ≡ account_fields (monetary_value ∷ currency ∷ [])
      → Always IsRequest (fill_transaction s (asked n))
  transaction-IsRequest n low high table =
      bind_wp IsRequest (fill_auth_details s (asked n) >>= fill_currency_details s)
        (fill_amount_details s)
        (bind_wp _ (fill_auth_details s (asked n)) (fill_currency_details s) (
          fill_auth-Always s doubles _ (asked n) λ acc num pwd name word password.
            fill_currency-Always s doubles _ _ λ cur known.
              fill_amount-Always s doubles IsRequest _ λ val double. record {
                asks = (n, refl, low, high, sym table);
                no_updates = refl;
                owner_name = name;
                password = password;
                number = word;
                tx_name = tt;
                tx_number = tt;
                value = double;
                currency_known = known;
                timeout = tt;
              }))

  transfer-IsRequest :
      (n : ℕ)
      → 1 ≤ n
      → n ≤ 7
      → fields_of n
        ≡ account_fields
            (tx_account_number ∷ tx_account_owner_name ∷ monetary_value ∷ currency ∷ [])
      → Always IsRequest (fill_transfer s (asked n))
  transfer-IsRequest n low high table = bind_wp IsRequest _ (fill_amount_details s) (
      bind_wp _ _ (fill_currency_details s) (
        bind_wp _ (fill_auth_details s (asked n)) (fill_transfer_account_details s) (
          fill_auth-Always s doubles _ (asked n) λ acc num pwd name word password.
            fill_transfer-Always s doubles _ _ λ tx_acc tx_num tx_name tx_word.
              fill_currency-Always s doubles _ _ λ cur known.
                fill_amount-Always s doubles IsRequest _ λ val double. record {
                  asks = (n, refl, low, high, sym table);
                  no_updates = refl;
                  owner_name = name;
                  password = password;
                  number = word;
                  tx_name = tx_name;
                  tx_number = tx_word;
                  value = double;
                  currency_known = known;
                  timeout = tt;
                })))

  rest_of_menu :
      (n : ℕ)
      → (n == Service.open_account) ≡ false
      → (n == Service.close || n == Service.get_balance) ≡ false
      → (n == Service.deposit || n == Service.withdraw) ≡ false
      → Always IsRequest (fill_service s n (asked n))
  rest_of_menu n e1 e2 e3 = elim (Bool-cases (n == Service.transfer_funds)) [
    | inl e ↦
        rw (e1, e2, e3, e)
          (in_box-Always IsRequest n (fill_transfer s (asked n))
            (transfer-IsRequest n (ground arith) (ground arith) (rw (e1, e2, e3, e) refl)))
    | inr e4 ↦ elim (Bool-cases (n == Service.monitor)) [
      | inl e ↦
          rw (e1, e2, e3, e4, e)
            (in_box-Always IsRequest n (fill_monitor s (asked n))
              (monitor-IsRequest n (ground arith) (ground arith) (rw (e1, e2, e3, e4) refl)))
      | inr e5 ↦ rw (e1, e2, e3, e4, e5) (λ c. tt)
    ]
  ]

  fill_service-Always : (n : ℕ) → Always IsRequest (fill_service s n (asked n))
  fill_service-Always n = elim (Bool-cases (n == Service.open_account)) [
    | inl e ↦ rw e (
        in_box-Always IsRequest n (fill_account_creation_details s (asked n))
          (open-IsRequest n (ground arith)))
    | inr e1 ↦ elim (Bool-cases (n == Service.close || n == Service.get_balance)) [
      | inl e ↦
          rw (e1, e)
            (in_box-Always IsRequest n (fill_auth_details s (asked n))
              (auth-IsRequest n (ground arith) (ground arith) (rw (e1, e) refl)))
      | inr e2 ↦ elim (Bool-cases (n == Service.deposit || n == Service.withdraw)) [
        | inl e ↦
            rw (e1, e2, e)
              (in_box-Always IsRequest n (fill_transaction s (asked n))
                (transaction-IsRequest n (ground arith) (ground arith) (rw (e1, e2, e) refl)))
        | inr e3 ↦ rest_of_menu n e1 e2 e3
      ]
    ]
  ]

  typed :
      (n : ℕ)
      → Always IsRequest
          (if n == 0 then raise user_quit else fill_service s (n % 256) (asked (n % 256)))
  typed n = elim (Bool-cases (n == 0)) [
    | inl quit ↦ rw quit (λ c. tt)
    | inr more ↦ rw more (fill_service-Always (n % 256))
  ]

read_int-Always : Always (λ (n : ℕ). Unit) read_int
unfolding read_int
read_int-Always c = tt

-- Whatever the user types, `build_command` ends, and a command that it returns is a request of one of
-- the seven services with just that service's fields, every value of them acceptable.
pub build_command-IsRequest :
    (s : Services) (c : Client) → ReturnsDoubles s → Ensures IsRequest (build_command s c).0
unfolding build_command
build_command-IsRequest s c doubles =
    bind-Always (λ (n : ℕ). Unit) IsRequest read_int _ read_int-Always (λ n read. typed s doubles n)
      c
