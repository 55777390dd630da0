-- ===== src/Settlement/Public.antt =====
-- What the settlement service shows of a settlement and of a delivery (src/settlement.ts).
use perk_os_nayori_platform.Prelude.{
  String, Bool, true, false, ◌&&◌, Option, none, some, ◌==◌, if◌then◌else◌,
}
use perk_os_nayori_platform.Ledger.{SettlementStatus, DeliveryStatus}
use perk_os_nayori_platform.Ledger.Selecting.{SettlementRecord}
use perk_os_nayori_platform.Ledger.Deliveries.{DeliveryLedgerRecord}
use perk_os_nayori_platform.Settlement.{SettlementDelivery, PublicSettlement, PublicDelivery}

-- A text that JavaScript takes for true.
abbrev pub truthy : Option String → Option String
truthy none = none
truthy (some s) = if s == "" then none else some s

abbrev public_settlement_delivery :
    Option String → Option DeliveryStatus → Option String → Option SettlementDelivery
public_settlement_delivery (some id) (some status) digest =
    some (record { delivery_id = id; status = status; response_digest = digest })
public_settlement_delivery _ _ digest = none

abbrev is_deliverable : Option DeliveryStatus → Bool
is_deliverable (some DeliveryStatus.delivery_pending) = true
is_deliverable (some DeliveryStatus.delivering) = true
is_deliverable _ = false

abbrev pub is_confirmed_status : SettlementStatus → Bool
is_confirmed_status SettlementStatus.confirmed = true
is_confirmed_status _ = false

-- `publicSettlement`
unfoldable pub public_settlement : SettlementRecord → Bool → PublicSettlement
public_settlement r delivery_enabled = record {
  settlement_id = r.settlement_id;
  quote_id = r.quote_id;
  network = r.network;
  txid = r.txid;
  payer = r.payer;
  status = r.status;
  failure_reason = r.failure_reason;
  broadcast_attempted_at = r.broadcast_attempted_at;
  broadcast_at = r.broadcast_at;
  created_at = r.created_at;
  updated_at = r.updated_at;
  confirmed = is_confirmed_status r.status;
  receipt = r.receipt_token;
  delivery_available =
      delivery_enabled && is_confirmed_status r.status && is_deliverable r.delivery_status;
  delivery = public_settlement_delivery (truthy r.delivery_id) r.delivery_status r.response_digest;
}

-- `publicDelivery`
unfoldable pub public_delivery : DeliveryLedgerRecord → PublicDelivery
public_delivery d = record {
  delivery_id = d.delivery_id;
  settlement_id = d.settlement_id;
  status = d.status;
  attempt_count = d.attempt_count;
  response_digest = d.response_digest;
  retry_expires_at = d.retry_expires_at;
  receipt_id = d.receipt_id;
  receipt = d.receipt_token;
}
