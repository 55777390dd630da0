-- ===== src/Settlement/Access.antt =====
-- Who reads a settlement, and what the reader sees (src/settlement.ts).
use mathlib.Core.Path.{subst}
use perk_os_nayori_platform.Prelude.{
  String, ◌≡◌, refl, ap, ◌∙◌, inl, inr, Bool, Option, none, some, arith, eq_iff, Option-cases, ok,
}
use perk_os_nayori_platform.Prelude.Table.{lookup_key}
use perk_os_nayori_platform.Merchant.{MerchantRecord}
use perk_os_nayori_platform.Ledger.{
  Ledger, SettlementRow, SettlementStatus, QuoteRow, ConfirmationReceiptRecord, DeliveryRow,
  find_quote, find_settlement, find_receipt, find_delivery, is_confirmed, is_found,
}
use perk_os_nayori_platform.Ledger.Selecting.{
  SettlementRecord, settlement_select, settlement_record,
}
use perk_os_nayori_platform.Ledger.Status.{find_settlement_for_merchant}
use perk_os_nayori_platform.Ledger.Invariant.{IsSound}
use perk_os_nayori_platform.Settlement.{Config, Services, PublicSettlement}
use perk_os_nayori_platform.Settlement.Public.{public_settlement, is_confirmed_status}
use perk_os_nayori_platform.Settlement.Serving.{get_settlement}

find_sound :
    (id merchant_id : String) (db : Ledger) (r : SettlementRecord)
    → find_settlement_for_merchant id merchant_id db ≡ some r
    → (s : SettlementRow) × (q : QuoteRow) × (find_settlement id db ≡ some s)
      × (find_quote s.quote_id db ≡ some q)
      × (q.merchant_id ≡ merchant_id)
      × (settlement_record s q (find_receipt s.settlement_id db) (find_delivery s.settlement_id db)
          ≡ r)
unfolding find_settlement_for_merchant settlement_select
find_sound id merchant_id db r h = elim (Option-cases (find_settlement id db)) [
  | inl absent ↦ ground arith
  | inr (s, found) ↦ elim (Option-cases (find_quote s.quote_id db)) [
    | inl gone ↦ ground arith
    | inr (q, quote) ↦
        (s, q, found, quote, ground (arith, eq_iff q.merchant_id merchant_id), ground arith)
  ]
]

same_test : (st : SettlementStatus) → is_confirmed_status st ≡ is_confirmed st
same_test SettlementStatus.validated = refl
same_test SettlementStatus.broadcast = refl
same_test SettlementStatus.pending = refl
same_test SettlementStatus.confirmed = refl
same_test SettlementStatus.failed = refl
same_test SettlementStatus.dropped = refl
same_test SettlementStatus.reorged = refl

abbrev Shows : String → SettlementStatus → PublicSettlement → Type 0
Shows id status p =
    (p.settlement_id ≡ id)
    × (p.status ≡ status)
    × (p.confirmed ≡ is_confirmed status)
    × (is_found p.receipt ≡ is_confirmed status)

record-Shows :
    (s : SettlementRow) (q : QuoteRow) (receipt : Option ConfirmationReceiptRecord)
    (delivery : Option DeliveryRow) (enabled : Bool)
    → is_found receipt ≡ is_confirmed s.status
    → Shows s.settlement_id s.status
        (public_settlement (settlement_record s q receipt delivery) enabled)
unfolding public_settlement
record-Shows s q none delivery enabled h = (refl, refl, same_test s.status, h)
record-Shows s q (some r) delivery enabled h = (refl, refl, same_test s.status, h)

module _ (config : Config) (services : Services) where
  -- A settlement is only shown to the merchant of its quote, and on sound tables the reader sees a
  -- receipt exactly if the settlement is confirmed.
  pub get_settlement_sound :
      (id : String) (merchant : MerchantRecord) (db : Ledger) (p : PublicSettlement)
      → IsSound db
      → get_settlement config services id merchant db ≡ ok p
      → (s : SettlementRow) × (q : QuoteRow) × (find_settlement id db ≡ some s)
        × (find_quote s.quote_id db ≡ some q)
        × (q.merchant_id ≡ merchant.merchant_id)
        × (p.settlement_id ≡ id)
        × (p.status ≡ s.status)
        × (p.confirmed ≡ is_confirmed s.status)
        × (is_found p.receipt ≡ is_confirmed s.status)
  unfolding get_settlement public_settlement
  get_settlement_sound id merchant db p sound h =
      elim (Option-cases (find_settlement_for_merchant id merchant.merchant_id db)) [
        | inl absent ↦ ground arith
        | inr (r, seen) ↦
            let (s, q, found, quote, owner, e) = find_sound id merchant.merchant_id db r seen in
            let key =
              lookup_key (λ (s : SettlementRow). s.settlement_id) id db.settlements s found in
            let shown : public_settlement r config.delivery_ledger_enabled ≡ p = ground arith in
            let e' = ap (λ r. public_settlement r config.delivery_ledger_enabled) e ∙ shown in
            let facts =
              record-Shows s q (find_receipt s.settlement_id db) (find_delivery s.settlement_id db)
                config.delivery_ledger_enabled (sound.settled id s found).receipt in
            let (same_id, same_status, confirmed_flag, receipted) =
              subst (Shows s.settlement_id s.status) e' facts in
            (s, q, found, quote, owner, same_id ∙ key, same_status, confirmed_flag, receipted)
      ]
