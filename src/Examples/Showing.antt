-- ===== src/Examples/Showing.antt =====
-- The theorems on public payments, at concrete tables.
use perk_os_nayori_platform.Prelude.{◌≤◌, String, true, false, none, some, List, [], ◌∷◌, arith}
use perk_os_nayori_platform.Merchant.{Network, Asset}
use perk_os_nayori_platform.Ledger.{DeliveryStatus}
use perk_os_nayori_platform.PublicPayments.{
  PublicPayment, PublicPaymentRow, PublicPaymentSnapshot, ChainTransaction, ChainAnswer,
  PublicAsset,
}
use perk_os_nayori_platform.PublicPayments.Loading.{PublicConfig, public_payment}
use perk_os_nayori_platform.PublicPayments.Snapshots.{Event, loads, no_cache, loads_bound}

abbrev txid : String
txid = "0x0000000000000000000000000000000000000000000000000000000000000001"

abbrev row : PublicPaymentRow
row = record {
  txid = txid;
  network = "stacks:1";
  canonical_url = "https://nayori.example/v1";
  asset_id = "stacks:1/usdcx";
  amount_atomic = "100";
  payer = "SP2";
  pay_to = "SP1";
  block_height = 7;
  block_hash = txid;
  confirmed_at = 4000;
  delivery_status = some DeliveryStatus.delivered;
}

abbrev asset : PublicAsset
asset = record {
  id = Asset.usdcx;
  canonical_asset_id = "stacks:1/usdcx";
  post_condition_asset = "SP3.usdcx::token";
  decimals = 6;
}

abbrev public_config : PublicConfig
public_config = record {
  stacks_network = Network.mainnet;
  public_resource_url = "https://nayori.example/v1";
  mpp_resource_url = "https://nayori.example/mpp/v1";
  assets = asset ∷ [];
}

abbrev transaction : ChainTransaction
transaction = record {
  tx_id = txid;
  tx_status = "success";
  canonical = true;
  is_unanchored = false;
  block_height = 7;
  block_hash = txid;
  sender_address = "SP2";
  fee_rate = "180";
  repr = "(ok true)";
  event_count = 1;
  events =
      record {
        event_type = "fungible_token_asset";
        asset = some (record {
          asset_event_type = "transfer";
          sender = some "SP2";
          recipient = some "SP1";
          amount = some "100";
          asset_id = some "SP3.usdcx::token";
        });
      }
      ∷ [];
}

abbrev chain : String → ChainAnswer
chain id = record { status = 200; transaction = some transaction }

abbrev shown : PublicPaymentSnapshot
shown = record {
  network = "stacks:1";
  generated_at = 5000;
  has_more = false;
  excluded_count = 0;
  payments = public_payment public_config chain row asset transaction ∷ [];
}

abbrev listed_config : PublicConfig
listed_config = record public_config {
  public_resource_url = "https://acme.example/a";
  assets = record asset { canonical_asset_id = "usdcx" } ∷ [];
}

abbrev listed_row : PublicPaymentRow
listed_row = record row {
  canonical_url = "https://acme.example/a";
  asset_id = "usdcx";
  delivery_status = some DeliveryStatus.delivery_pending;
}

abbrev listed_payment : PublicPayment
listed_payment = public_payment listed_config chain listed_row asset transaction

abbrev events : List Event
events =
    Event.called 1000
    ∷ Event.called 1000
    ∷ Event.ended 2000 none
    ∷ Event.called 9000
    ∷ Event.ended 9500 (some shown)
    ∷ []

loads_bound_example : loads events no_cache ≤ 1
loads_bound_example = loads_bound 1000 events no_cache (omega arith)
