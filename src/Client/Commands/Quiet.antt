-- ===== src/Client/Commands/Quiet.antt =====
-- `build_command` leaves the network alone.
use sc4051_distributed_banki.Base.{
  ℕ, ◌%◌, ◌<◌, ◌≡◌, ◌⊎◌, length, arith, refl, Bool, true, false, some, [], ◌∷◌, ◌==◌, ◌||◌,
  Bool-cases, inl, inr, if◌then◌else◌,
}
use sc4051_distributed_banki.Base.Outcome.{Result, fail, user_quit}
use sc4051_distributed_banki.Memory.{Bytes}
use sc4051_distributed_banki.Terminal.Input
use sc4051_distributed_banki.Protocol.{Command, empty_command}
use sc4051_distributed_banki.Protocol.Service
use sc4051_distributed_banki.Terminal.Input.Shrinks.{read_int-length}
use sc4051_distributed_banki.Client.State.{Client, Io, Services, ◌>>=◌, raise, read_int}
use sc4051_distributed_banki.Client.Input.{
  get_validated_uint32, get_validated_double, get_validated_string, get_validated_password,
  get_validated_currency,
}
use sc4051_distributed_banki.Client.Commands.{
  fill_account_creation_details, fill_auth_details, fill_currency_details, fill_amount_details,
  fill_transfer_account_details, fill_monitor_details, in_box, fill_transaction, fill_transfer,
  fill_monitor, fill_service, build_command,
}
use sc4051_distributed_banki.Client.Input.Quiet.{
  Quiet, same, both, calm, bind-Quiet, string-Quiet, password-Quiet, currency-Quiet, uint32-Quiet,
  double-Quiet,
}

module _ (s : Services) where
  open-Quiet : (req : Command) → Quiet (fill_account_creation_details s req)
  unfolding fill_account_creation_details
  open-Quiet req = bind-Quiet (get_validated_string _) _ (string-Quiet _) λ acc.
      bind-Quiet (get_validated_password _) _ (password-Quiet _) λ pwd.
        bind-Quiet (get_validated_currency s _) _ (currency-Quiet s _)
          λ cur. bind-Quiet (get_validated_double s _) _ (double-Quiet s _) λ val. same

  auth-Quiet : (req : Command) → Quiet (fill_auth_details s req)
  unfolding fill_auth_details
  auth-Quiet req = bind-Quiet (get_validated_string _) _ (string-Quiet _) λ acc.
      bind-Quiet (get_validated_uint32 _) _ (uint32-Quiet _)
        λ num. bind-Quiet (get_validated_password _) _ (password-Quiet _) λ pwd. same

  fill_currency-Quiet : (req : Command) → Quiet (fill_currency_details s req)
  unfolding fill_currency_details
  fill_currency-Quiet req =
      bind-Quiet (get_validated_currency s _) _ (currency-Quiet s _) λ cur. same

  fill_amount-Quiet : (req : Command) → Quiet (fill_amount_details s req)
  unfolding fill_amount_details
  fill_amount-Quiet req = bind-Quiet (get_validated_double s _) _ (double-Quiet s _) λ val. same

  fill_transfer-Quiet : (req : Command) → Quiet (fill_transfer_account_details s req)
  unfolding fill_transfer_account_details
  fill_transfer-Quiet req =
      bind-Quiet (get_validated_string _) _ (string-Quiet _)
        λ acc. bind-Quiet (get_validated_uint32 _) _ (uint32-Quiet _) λ num. same

  fill_monitor-Quiet : (req : Command) → Quiet (fill_monitor_details s req)
  unfolding fill_monitor_details
  fill_monitor-Quiet req = bind-Quiet (get_validated_uint32 _) _ (uint32-Quiet _) λ time. same

  boxed : (n : ℕ) (fill : Io Command) → Quiet fill → Quiet (in_box s n fill)
  boxed n fill h c =
      both c (record c { screen = _ ∷ _ ∷ c.screen }) _ (calm c _ refl refl refl (omega arith))
        (bind-Quiet fill _ h (λ cmd c'. calm c' _ refl refl refl (omega arith))
          (record c { screen = _ ∷ _ ∷ c.screen }))

  transaction-Quiet : (req : Command) → Quiet (fill_transaction s req)
  transaction-Quiet req =
      bind-Quiet (fill_auth_details s req >>= fill_currency_details s) (fill_amount_details s)
        (bind-Quiet (fill_auth_details s req) (fill_currency_details s) (auth-Quiet req)
          fill_currency-Quiet)
        fill_amount-Quiet

  transfer-Quiet : (req : Command) → Quiet (fill_transfer s req)
  transfer-Quiet req =
      bind-Quiet
        (fill_auth_details s req >>= fill_transfer_account_details s >>= fill_currency_details s)
        (fill_amount_details s)
        (bind-Quiet (fill_auth_details s req >>= fill_transfer_account_details s)
          (fill_currency_details s)
          (bind-Quiet (fill_auth_details s req) (fill_transfer_account_details s) (auth-Quiet req)
            fill_transfer-Quiet)
          fill_currency-Quiet)
        fill_amount-Quiet

  monitor-Quiet : (req : Command) → Quiet (fill_monitor s req)
  monitor-Quiet req =
      bind-Quiet (fill_auth_details s req) (fill_monitor_details s) (auth-Quiet req)
        fill_monitor-Quiet

  choose-Quiet : (b : Bool) (x y : Io Command) → Quiet x → Quiet y → Quiet (if b then x else y)
  choose-Quiet true x y hx hy = hx
  choose-Quiet false x y hx hy = hy

  service-Quiet : (n : ℕ) (req : Command) → Quiet (fill_service s n req)
  service-Quiet n req =
      choose-Quiet (n == Service.open_account) (in_box s n (fill_account_creation_details s req)) _
        (boxed n (fill_account_creation_details s req) (open-Quiet req))
        (choose-Quiet (n == Service.close || n == Service.get_balance)
          (in_box s n (fill_auth_details s req)) _
          (boxed n (fill_auth_details s req) (auth-Quiet req))
          (choose-Quiet (n == Service.deposit || n == Service.withdraw)
            (in_box s n (fill_transaction s req)) _
            (boxed n (fill_transaction s req) (transaction-Quiet req))
            (choose-Quiet (n == Service.transfer_funds) (in_box s n (fill_transfer s req)) _
              (boxed n (fill_transfer s req) (transfer-Quiet req))
              (choose-Quiet (n == Service.monitor) (in_box s n (fill_monitor s req)) _
                (boxed n (fill_monitor s req) (monitor-Quiet req))
                (λ c. calm c _ refl refl refl (omega arith))))))

  typed-Quiet :
      (n : ℕ)
      → Quiet (
          if n == 0
          then raise user_quit
          else fill_service s (n % 256) (record empty_command { service = some (n % 256) }))
  typed-Quiet n = elim (Bool-cases (n == 0)) [
    | inl quit ↦ rw quit same
    | inr more ↦
        rw more (service-Quiet (n % 256) (record empty_command { service = some (n % 256) }))
  ]

read_int-Quiet : Quiet read_int
unfolding read_int
read_int-Quiet c = calm c _ refl refl refl (omega (arith, read_int-length c.input))

-- At the end of the input the user quits; before it the dialogue takes at least one byte.
abbrev pub Takes : Bytes → Result Command × Client → Type 0
Takes before (r, c') = (r ≡ fail user_quit) ⊎ (length c'.input < length before)

pub build_command-Takes : (s : Services) (c : Client) → Takes c.input (build_command s c)
unfolding build_command read_int Input.read_int
build_command-Takes s c = takes c.input
  where
    takes : (input : Bytes) → Takes input (build_command s (record c { input = input }))
    takes [] = inl refl
    takes (b ∷ bs) =
        let (n, rest) = Input.read_int (b ∷ bs) in
        let typed = typed-Quiet s n (record c { input = rest }) in
        inr (omega (arith, typed.typed_shrinks, read_int-length (b ∷ bs)))

-- Whatever the user types, and however the dialogue ends, `build_command` sends nothing, receives
-- nothing, counts no request and keeps the client's flag and address; of what was typed no more is
-- left than before.
pub build_command-Quiet : (s : Services) → Quiet (build_command s)
unfolding build_command
build_command-Quiet s = bind-Quiet read_int _ read_int-Quiet (typed-Quiet s)
