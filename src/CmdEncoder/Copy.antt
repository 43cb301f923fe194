-- ===== src/CmdEncoder/Copy.antt =====
-- The fields of a command, decoded one by one into a command in which they are not set yet.
use sc4051_distributed_banki.Base.{
  ◌^◌, ◌≡◌, refl, ◌∙◌, Option, none, some, List, [], ◌∷◌, ◌++◌, Option-cases, inl, inr,
}
use sc4051_distributed_banki.Base.Outcome.{ok}
use sc4051_distributed_banki.Memory.{Bytes, Platform, Endian}
use sc4051_distributed_banki.Protocol.{
  Command, empty_command, FieldId, service, account_number, account_owner_name, account_password,
  tx_account_number, tx_account_owner_name, monetary_value, currency, monitor_updates,
  monitor_timeout_seconds,
}
use sc4051_distributed_banki.CmdEncoder.Wire.{content, field_ids, Within, Fits, IsCommand}
use sc4051_distributed_banki.CmdEncoder.Setters.{
  set_service, set_account_number, set_account_owner_name, set_account_password,
  set_tx_account_number, set_tx_account_owner_name, set_monetary_value, set_currency,
  set_monitor_updates, set_monitor_timeout_seconds,
}
use sc4051_distributed_banki.CmdEncoder.Sequence.{Field, apply_fields}

abbrev pub field_list : FieldId → Option Bytes → List Field
field_list id none = []
field_list id (some c) = (id, c) ∷ []

abbrev pub present : Endian → Command → List FieldId → List Field
present e cmd [] = []
present e cmd (id ∷ ids) = field_list id (content e cmd id) ++ present e cmd ids

module _ (p : Platform) (cmd : Command) (v : IsCommand cmd) (dst : Command)
    (rest : List Field) where
  pub copy_service :
      dst.service ≡ none
      → apply_fields p dst (field_list service (content p.endian cmd service) ++ rest)
        ≡ apply_fields p (record dst { service = cmd.service }) rest
  copy_service fresh = elim (Option-cases cmd.service) [
    | inl e ↦ rw e (λ i. apply_fields p (record dst { service = fresh i }) rest)
    | inr (x, e) ↦
        let r : Within 256 (some x) = rw e at v.service_range in rw e (rw (set_service p dst x))
  ]

  pub copy_account_number :
      dst.account_number ≡ none
      → apply_fields p dst (field_list account_number (content p.endian cmd account_number) ++ rest)
        ≡ apply_fields p (record dst { account_number = cmd.account_number }) rest
  copy_account_number fresh = elim (Option-cases cmd.account_number) [
    | inl e ↦ rw e (λ i. apply_fields p (record dst { account_number = fresh i }) rest)
    | inr (x, e) ↦
        let r : Within (2 ^ 32) (some x) = rw e at v.account_number_range in
        rw e (rw (set_account_number p dst x r))
  ]

  pub copy_account_owner_name :
      dst.account_owner_name ≡ none
      → apply_fields p dst
          (field_list account_owner_name (content p.endian cmd account_owner_name) ++ rest)
        ≡ apply_fields p (record dst { account_owner_name = cmd.account_owner_name }) rest
  copy_account_owner_name fresh = elim (Option-cases cmd.account_owner_name) [
    | inl e ↦ rw e (λ i. apply_fields p (record dst { account_owner_name = fresh i }) rest)
    | inr (x, e) ↦
        let r : Fits (some x) = rw e at v.account_owner_name_range in
        rw e (rw (set_account_owner_name p dst x r.1))
  ]

  pub copy_account_password :
      dst.account_password ≡ none
      → apply_fields p dst
          (field_list account_password (content p.endian cmd account_password) ++ rest)
        ≡ apply_fields p (record dst { account_password = cmd.account_password }) rest
  copy_account_password fresh = elim (Option-cases cmd.account_password) [
    | inl e ↦ rw e (λ i. apply_fields p (record dst { account_password = fresh i }) rest)
    | inr (x, e) ↦
        let r : Fits (some x) = rw e at v.account_password_range in
        rw e (rw (set_account_password p dst x r.1))
  ]

  pub copy_tx_account_number :
      dst.tx_account_number ≡ none
      → apply_fields p dst
          (field_list tx_account_number (content p.endian cmd tx_account_number) ++ rest)
        ≡ apply_fields p (record dst { tx_account_number = cmd.tx_account_number }) rest
  copy_tx_account_number fresh = elim (Option-cases cmd.tx_account_number) [
    | inl e ↦ rw e (λ i. apply_fields p (record dst { tx_account_number = fresh i }) rest)
    | inr (x, e) ↦
        let r : Within (2 ^ 32) (some x) = rw e at v.tx_account_number_range in
        rw e (rw (set_tx_account_number p dst x r))
  ]

  pub copy_tx_account_owner_name :
      dst.tx_account_owner_name ≡ none
      → apply_fields p dst
          (field_list tx_account_owner_name (content p.endian cmd tx_account_owner_name) ++ rest)
        ≡ apply_fields p (record dst { tx_account_owner_name = cmd.tx_account_owner_name }) rest
  copy_tx_account_owner_name fresh = elim (Option-cases cmd.tx_account_owner_name) [
    | inl e ↦ rw e (λ i. apply_fields p (record dst { tx_account_owner_name = fresh i }) rest)
    | inr (x, e) ↦
        let r : Fits (some x) = rw e at v.tx_account_owner_name_range in
        rw e (rw (set_tx_account_owner_name p dst x r.1))
  ]

  pub copy_monetary_value :
      dst.monetary_value ≡ none
      → apply_fields p dst (field_list monetary_value (content p.endian cmd monetary_value) ++ rest)
        ≡ apply_fields p (record dst { monetary_value = cmd.monetary_value }) rest
  copy_monetary_value fresh = elim (Option-cases cmd.monetary_value) [
    | inl e ↦ rw e (λ i. apply_fields p (record dst { monetary_value = fresh i }) rest)
    | inr (x, e) ↦
        let r : Within (2 ^ 64) (some x) = rw e at v.monetary_value_range in
        rw e (rw (set_monetary_value p dst x r))
  ]

  pub copy_currency :
      dst.currency ≡ none
      → apply_fields p dst (field_list currency (content p.endian cmd currency) ++ rest)
        ≡ apply_fields p (record dst { currency = cmd.currency }) rest
  copy_currency fresh = elim (Option-cases cmd.currency) [
    | inl e ↦ rw e (λ i. apply_fields p (record dst { currency = fresh i }) rest)
    | inr (x, e) ↦
        let r : Within 256 (some x) = rw e at v.currency_range in rw e (rw (set_currency p dst x))
  ]

  pub copy_monitor_updates :
      dst.monitor_updates ≡ none
      → apply_fields p dst
          (field_list monitor_updates (content p.endian cmd monitor_updates) ++ rest)
        ≡ apply_fields p (record dst { monitor_updates = cmd.monitor_updates }) rest
  copy_monitor_updates fresh = elim (Option-cases cmd.monitor_updates) [
    | inl e ↦ rw e (λ i. apply_fields p (record dst { monitor_updates = fresh i }) rest)
    | inr (x, e) ↦
        let r : Fits (some x) = rw e at v.monitor_updates_range in
        rw e (rw (set_monitor_updates p dst x r.1))
  ]

  pub copy_monitor_timeout_seconds :
      dst.monitor_timeout_seconds ≡ none
      → apply_fields p dst (
          field_list monitor_timeout_seconds (content p.endian cmd monitor_timeout_seconds) ++ rest)
        ≡ apply_fields p (record dst { monitor_timeout_seconds = cmd.monitor_timeout_seconds }) rest
  copy_monitor_timeout_seconds fresh = elim (Option-cases cmd.monitor_timeout_seconds) [
    | inl e ↦ rw e (λ i. apply_fields p (record dst { monitor_timeout_seconds = fresh i }) rest)
    | inr (x, e) ↦
        let r : Within (2 ^ 32) (some x) = rw e at v.monitor_timeout_seconds_range in
        rw e (rw (set_monitor_timeout_seconds p dst x r))
  ]

module _ (p : Platform) (cmd : Command) (v : IsCommand cmd) where
  pub apply_fields-present : apply_fields p empty_command (present p.endian cmd field_ids) ≡ ok cmd
  apply_fields-present =
      let r1 = present p.endian cmd (
        account_number ∷ account_owner_name ∷ account_password ∷ tx_account_number
        ∷ tx_account_owner_name ∷ monetary_value ∷ currency ∷ monitor_updates
        ∷ monitor_timeout_seconds ∷ []) in
      let c1 : Command = record empty_command { service = cmd.service } in
      let r2 = present p.endian cmd (
        account_owner_name ∷ account_password ∷ tx_account_number ∷ tx_account_owner_name
        ∷ monetary_value ∷ currency ∷ monitor_updates ∷ monitor_timeout_seconds ∷ []) in
      let c2 : Command = record c1 { account_number = cmd.account_number } in
      let r3 = present p.endian cmd (
        account_password ∷ tx_account_number ∷ tx_account_owner_name ∷ monetary_value ∷ currency
        ∷ monitor_updates ∷ monitor_timeout_seconds ∷ []) in
      let c3 : Command = record c2 { account_owner_name = cmd.account_owner_name } in
      let r4 = present p.endian cmd (
        tx_account_number ∷ tx_account_owner_name ∷ monetary_value ∷ currency ∷ monitor_updates
        ∷ monitor_timeout_seconds ∷ []) in
      let c4 : Command = record c3 { account_password = cmd.account_password } in
      let r5 = present p.endian cmd (
        tx_account_owner_name ∷ monetary_value ∷ currency ∷ monitor_updates
        ∷ monitor_timeout_seconds ∷ []) in
      let c5 : Command = record c4 { tx_account_number = cmd.tx_account_number } in
      let r6 =
        present p.endian cmd
          (monetary_value ∷ currency ∷ monitor_updates ∷ monitor_timeout_seconds ∷ []) in
      let c6 : Command = record c5 { tx_account_owner_name = cmd.tx_account_owner_name } in
      let r7 = present p.endian cmd (currency ∷ monitor_updates ∷ monitor_timeout_seconds ∷ []) in
      let c7 : Command = record c6 { monetary_value = cmd.monetary_value } in
      let r8 = present p.endian cmd (monitor_updates ∷ monitor_timeout_seconds ∷ []) in
      let c8 : Command = record c7 { currency = cmd.currency } in
      let r9 = present p.endian cmd (monitor_timeout_seconds ∷ []) in
      let c9 : Command = record c8 { monitor_updates = cmd.monitor_updates } in
      copy_service p cmd v empty_command r1 refl
      ∙ copy_account_number p cmd v c1 r2 refl
      ∙ copy_account_owner_name p cmd v c2 r3 refl
      ∙ copy_account_password p cmd v c3 r4 refl
      ∙ copy_tx_account_number p cmd v c4 r5 refl
      ∙ copy_tx_account_owner_name p cmd v c5 r6 refl
      ∙ copy_monetary_value p cmd v c6 r7 refl
      ∙ copy_currency p cmd v c7 r8 refl
      ∙ copy_monitor_updates p cmd v c8 r9 refl
      ∙ copy_monitor_timeout_seconds p cmd v c9 [] refl
