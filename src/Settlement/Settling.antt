-- ===== src/Settlement/Settling.antt =====
-- From a validated payment to a settlement (src/settlement.ts: `settleValidated`, `settle`,
-- `settleMpp`). The call of the broadcaster is logged in `sent`.
use perk_os_nayori_platform.Prelude.{
  String, Bool, true, false, Option, none, some, ◌∷◌, ◌==◌, if◌then◌else◌, Result, ok, err,
}
use perk_os_nayori_platform.Prelude.Json.{Value}
use perk_os_nayori_platform.Auth.{OauthScope}
use perk_os_nayori_platform.Broadcast.{BroadcastResult, accepted, rejected, ambiguous}
use perk_os_nayori_platform.Ledger.{Ledger, StoreError}
use perk_os_nayori_platform.Ledger.Selecting.{SettlementRecord}
use perk_os_nayori_platform.Ledger.Reserve.{
  SettlementReservation, ReserveSettlementResult, Reserved, reserve_settlement,
}
use perk_os_nayori_platform.Ledger.Status.{
  Broadcasted, broadcast, pending, failed, update_settlement_status,
}
use perk_os_nayori_platform.Settlement.{
  Failure, service, thrown, SettlementResult, ValidatedPayment, Config, Services, Moments, World,
  Answer, settlement_code,
}
use perk_os_nayori_platform.Settlement.Public.{public_settlement}
use perk_os_nayori_platform.Settlement.Validation.{
  authenticate, validate_payment, validate_mpp_payment, validated,
}

abbrev pub verifier_version : String
verifier_version = "@perkos/agent-sdk@0.5.1"

abbrev pub sdk_npm_integrity : String
sdk_npm_integrity =
    "sha512-NZtlFbECptuu9lF7KQ/tjg9w2BXCV3XofHEJFGJ5AbScBKdLnSI+FXsF7eV6ksjk40o3B9+0sBc8hIbERdNF7g=="

abbrev thrown_or_conflict : StoreError → Option String → Failure
thrown_or_conflict e none = thrown "reserveSettlement"
thrown_or_conflict e (some code) = service code 409 none

-- An accepted broadcast of another transaction counts as ambiguous.
unfoldable pub normalized_outcome : String → BroadcastResult → BroadcastResult
normalized_outcome transaction_id (accepted txid) =
    if txid == transaction_id then accepted txid else ambiguous "broadcast_txid_mismatch"
normalized_outcome transaction_id (rejected reason) = rejected reason
normalized_outcome transaction_id (ambiguous reason) = ambiguous reason

abbrev pub status_after : BroadcastResult → Broadcasted
status_after (accepted txid) = broadcast
status_after (rejected reason) = failed
status_after (ambiguous reason) = pending

abbrev pub reason_after : BroadcastResult → Option String
reason_after (accepted txid) = none
reason_after (rejected reason) = some reason
reason_after (ambiguous reason) = some reason

module _ (config : Config) (services : Services) where
  -- The reservation that `settleValidated` asks for.
  unfoldable pub reservation_of : Moments → ValidatedPayment → SettlementReservation
  reservation_of m v = record {
    settlement_id = m.new_settlement_id;
    quote_id = v.token.quote_id;
    merchant_id = v.merchant.merchant_id;
    network = v.payment.x402_network;
    txid = v.transaction_id;
    payer = v.payment.payer;
    raw_tx_hash = services.sha256_of_hex v.payment.transaction;
    verifier_version = verifier_version;
    verifier_checksum = services.sha256 sdk_npm_integrity;
    expected_signed_token_hash = v.signed_token_hash;
  }

  -- A row that is not there is `undefined`, and reading it a TypeError.
  abbrev pub answer_settlement : Bool → Option SettlementRecord → Result Failure SettlementResult
  answer_settlement replayed none = err (thrown "TypeError")
  answer_settlement replayed (some r) = ok (record {
    settlement = public_settlement r config.delivery_ledger_enabled;
    replayed = replayed;
  })

  abbrev pub after_update :
      Result StoreError (Option SettlementRecord × Ledger) → World → Answer SettlementResult
  after_update (err e) w = (err (thrown "updateSettlementStatus"), w)
  after_update (ok (r, db)) w = (answer_settlement false r, record w { ledger = db })

  -- The broadcast has ended: its outcome is recorded.
  unfoldable pub record_outcome :
      Moments → BroadcastResult → Option SettlementRecord → World → Answer SettlementResult
  record_outcome m outcome none w = (err (thrown "TypeError"), w)
  record_outcome m outcome (some settlement) w =
      let w' = record w { ledger = m.before_update w.ledger } in
      after_update
        (update_settlement_status m.updated_at settlement.settlement_id (status_after outcome)
          (reason_after outcome) m.attempted_at w'.ledger)
        w'

  -- The reservation is there: a repeated one is answered, a new one is broadcast.
  unfoldable pub settle_reserved :
      Moments
      → (String → BroadcastResult)
      → ValidatedPayment
      → ReserveSettlementResult
      → World
      → Answer SettlementResult
  unfolding record_outcome normalized_outcome
  settle_reserved m send v reservation w =
      if reservation.created
      then record_outcome m (normalized_outcome v.transaction_id (send v.payment.transaction))
          reservation.settlement
          (record w {
            sent =
                record { quote_id = v.token.quote_id; transaction = v.payment.transaction }
                ∷ w.sent;
          })
      else (answer_settlement true reservation.settlement, w)

  abbrev pub after_reserve :
      Moments
      → (String → BroadcastResult)
      → ValidatedPayment
      → Reserved
      → World
      → Answer SettlementResult
  after_reserve m send v (err e) w = (err (thrown_or_conflict e (settlement_code e)), w)
  after_reserve m send v (ok (reservation, db)) w =
      settle_reserved m send v reservation (record w { ledger = db })

  -- `settleValidated`, with the broadcaster
  unfoldable pub settle_with :
      Moments → (String → BroadcastResult) → ValidatedPayment → World → Answer SettlementResult
  unfolding reservation_of settle_reserved
  settle_with m send v w =
      let w' = record w { ledger = m.before_reserve w.ledger } in
      after_reserve m send v
        (reserve_settlement m.date_now m.reserved_at (reservation_of m v) w'.ledger) w'

  unfoldable pub settle_validated : Moments → ValidatedPayment → World → Answer SettlementResult
  unfolding settle_with
  settle_validated m v w = elim services.broadcaster [
    | none ↦ (err (thrown "Settlement is not enabled."), w)
    | some send ↦ settle_with m send v w
  ]

  abbrev pub settle_answer : Moments → Answer ValidatedPayment → Answer SettlementResult
  settle_answer m (err e, w) = (err e, w)
  settle_answer m (ok v, w) = settle_validated m v w

  unfoldable pub settle : Moments → Option String → Value → World → Answer SettlementResult
  unfolding settle_validated
  settle m authorization input w = settle_answer m (
      validated config services (validate_payment config services) m input true
        (authenticate config services m.consumed_at authorization OauthScope.payments_settle w))

  unfoldable pub settle_mpp : Moments → Option String → Value → World → Answer SettlementResult
  unfolding settle_validated
  settle_mpp m authorization input w = settle_answer m (
      validated config services (validate_mpp_payment config services) m input true
        (authenticate config services m.consumed_at authorization OauthScope.payments_settle w))
