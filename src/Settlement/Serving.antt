-- ===== src/Settlement/Serving.antt =====
-- Reads of settlements, and their deliveries (src/settlement.ts: `get`, `claimDelivery`,
-- `completeDelivery`). The delivery store is there where the ledger of deliveries is enabled. The
-- instants of a call are `Moments`' `consumed_at`, `date_now` and `updated_at`.
use perk_os_nayori_platform.Prelude.{
  String, Bool, true, false, not, Option, none, some, if◌then◌else◌, Result, ok, err,
}
use perk_os_nayori_platform.Auth.{OauthScope}
use perk_os_nayori_platform.Merchant.{MerchantRecord}
use perk_os_nayori_platform.Ledger.{DeliveryStatus, Ledger, StoreError}
use perk_os_nayori_platform.Ledger.Selecting.{SettlementRecord}
use perk_os_nayori_platform.Ledger.Status.{find_settlement_for_merchant}
use perk_os_nayori_platform.Ledger.Deliveries.{Delivered, claim_delivery, complete_delivery}
use perk_os_nayori_platform.Settlement.{
  Failure, service, thrown, PublicSettlement, PublicDelivery, Config, Services, Moments, World,
  Answer, is_settlement_id, is_response_digest,
}
use perk_os_nayori_platform.Settlement.Public.{public_settlement, public_delivery}
use perk_os_nayori_platform.Settlement.Validation.{authenticate, at_find}

-- The `code` of a `DeliveryStoreError` as an error of the service.
abbrev pub delivery_failure : StoreError → Failure
delivery_failure StoreError.delivery_not_found = service "delivery_not_found" 404 none
delivery_failure StoreError.settlement_not_confirmed = service "settlement_not_confirmed" 409 none
delivery_failure StoreError.delivery_expired = service "delivery_expired" 409 none
delivery_failure StoreError.delivery_not_claimed = service "delivery_not_claimed" 409 none
delivery_failure StoreError.delivery_digest_conflict = service "delivery_digest_conflict" 409 none
delivery_failure _ = thrown "deliveryStore"

abbrev pub is_expired : DeliveryStatus → Bool
is_expired DeliveryStatus.expired = true
is_expired _ = false

module _ (config : Config) (services : Services) where
  abbrev found_settlement : Option SettlementRecord → Result Failure PublicSettlement
  found_settlement none = err (service "settlement_not_found" 404 none)
  found_settlement (some r) = ok (public_settlement r config.delivery_ledger_enabled)

  unfoldable pub get_settlement : String → MerchantRecord → Ledger → Result Failure PublicSettlement
  get_settlement id merchant db =
      if is_settlement_id id
      then found_settlement (find_settlement_for_merchant id merchant.merchant_id db)
      else err (service "settlement_not_found" 404 none)

  abbrev answer_get : Moments → String → Answer MerchantRecord → Answer PublicSettlement
  answer_get m id (err e, w) = (err e, w)
  answer_get m id (ok merchant, w) =
      (get_settlement id merchant (at_find config services m w).ledger, at_find config services m w)

  unfoldable pub get : Moments → Option String → String → World → Answer PublicSettlement
  unfolding get_settlement
  get m authorization id w =
      answer_get m id
        (authenticate config services m.consumed_at authorization OauthScope.payments_read w)

  -- The answer of the store to a claim, and to a completion.
  abbrev answer_claimed : Delivered → World → Answer PublicDelivery
  answer_claimed (err e) w = (err (delivery_failure e), w)
  answer_claimed (ok (none, db)) w = (err (thrown "TypeError"), record w { ledger = db })
  answer_claimed (ok (some d, db)) w =
      if is_expired d.status
      then (err (service "delivery_expired" 409 none), record w { ledger = db })
      else (ok (public_delivery d), record w { ledger = db })

  abbrev pub answer_completed : Delivered → World → Answer PublicDelivery
  answer_completed (err e) w = (err (delivery_failure e), w)
  answer_completed (ok (none, db)) w = (err (thrown "TypeError"), record w { ledger = db })
  answer_completed (ok (some d, db)) w = (ok (public_delivery d), record w { ledger = db })

  abbrev claim_as : Moments → String → MerchantRecord → World → Answer PublicDelivery
  claim_as m id merchant w =
      if not config.delivery_ledger_enabled
      then (err (thrown "The delivery ledger is not enabled."), w)
      else if not (is_settlement_id id)
      then (err (service "delivery_not_found" 404 none), w)
      else answer_claimed (claim_delivery m.updated_at id merchant.merchant_id m.date_now w.ledger)
          w

  abbrev pub complete_as :
      Moments → String → String → MerchantRecord → World → Answer PublicDelivery
  complete_as m id response_digest merchant w =
      if not config.delivery_ledger_enabled
      then (err (thrown "The delivery ledger is not enabled."), w)
      else if not (is_settlement_id id)
      then (err (service "delivery_not_found" 404 none), w)
      else if not (is_response_digest response_digest)
      then (err (service "invalid_request" 400 none), w)
      else answer_completed
          (complete_delivery m.updated_at id merchant.merchant_id response_digest m.date_now
            w.ledger)
          w

  abbrev pub as_merchant :
      Moments
      → (MerchantRecord → World → Answer PublicDelivery)
      → Answer MerchantRecord
      → Answer PublicDelivery
  as_merchant m next (err e, w) = (err e, w)
  as_merchant m next (ok merchant, w) = next merchant (at_find config services m w)

  unfoldable pub claim : Moments → Option String → String → World → Answer PublicDelivery
  claim m authorization id w =
      as_merchant m (claim_as m id)
        (authenticate config services m.consumed_at authorization OauthScope.payments_read w)

  unfoldable pub complete :
      Moments → Option String → String → String → World → Answer PublicDelivery
  complete m authorization id response_digest w =
      as_merchant m (complete_as m id response_digest)
        (authenticate config services m.consumed_at authorization OauthScope.payments_settle w)
