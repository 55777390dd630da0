-- ===== src/PublicPayments/Loading.antt =====
-- `load` of src/public-payments.ts: the rows of the store, each checked against the chain. The four
-- workers share the rows, and any error rejects the whole snapshot, so the rows are read here one
-- after another.
use perk_os_nayori_platform.Prelude.{
  ℕ, ◌+◌, ◌-◌, String, Bool, true, false, not, ◌&&◌, ◌||◌, Option, none, some, List, [], ◌∷◌, ◌==◌,
  ltb, eqb, if◌then◌else◌, length, take, includes,
}
use perk_os_nayori_platform.Merchant.{Network, mainnet, testnet}
use perk_os_nayori_platform.Broadcast.{is_ok}
use perk_os_nayori_platform.PublicPayments.{
  public_payment_limit, PublicPaymentRow, Protocol, x402, mpp, PublicPayment, PublicPaymentSnapshot,
  ChainTransaction, PublicAsset, ChainAnswer, is_public_row, find_asset, is_usdcx, is_valid,
}

-- What the service reads of `AppConfig`, and the assets of its network.
pub record PublicConfig : Type 0 where
  pub stacks_network : Network
  pub public_resource_url : String
  pub mpp_resource_url : String
  pub assets : List PublicAsset

abbrev pub network_id : Network → String
network_id mainnet = "stacks:1"
network_id testnet = "stacks:2147483648"

abbrev is_mpp : Protocol → Bool
is_mpp mpp = true
is_mpp x402 = false

module _ (config : PublicConfig) (chain : String → ChainAnswer) where
  abbrev pub protocol_of : PublicPaymentRow → Protocol
  protocol_of row = if row.canonical_url == config.mpp_resource_url then mpp else x402

  abbrev pub public_payment : PublicPaymentRow → PublicAsset → ChainTransaction → PublicPayment
  public_payment row asset tx = record {
    txid = row.txid;
    protocol = protocol_of row;
    asset = asset.id;
    amount_atomic = row.amount_atomic;
    decimals = asset.decimals;
    payer = row.payer;
    pay_to = row.pay_to;
    fee_micro_stx = tx.fee_rate;
    block_height = row.block_height;
    confirmed_at = row.confirmed_at;
    delivery_status = row.delivery_status;
  }

  -- A row that the chain does not confirm is left out: `some none`. `none` is an error.
  abbrev checked_transaction :
      PublicPaymentRow → PublicAsset → Option ChainTransaction → Option (Option PublicPayment)
  checked_transaction row asset none = none
  checked_transaction row asset (some tx) =
      some (if is_valid row asset tx then some (public_payment row asset tx) else none)

  abbrev pub checked_answer :
      PublicPaymentRow → PublicAsset → ChainAnswer → Option (Option PublicPayment)
  checked_answer row asset answer =
      if eqb answer.status 404
      then some none
      else if is_ok answer.status
      then checked_transaction row asset answer.transaction
      else none

  abbrev pub with_asset : PublicPaymentRow → Option PublicAsset → Option (Option PublicPayment)
  with_asset row none = none
  with_asset row (some asset) =
      if is_mpp (protocol_of row) && not (is_usdcx asset.id)
      then none
      else checked_answer row asset (chain row.txid)

  abbrev pub is_refused : List String → PublicPaymentRow → Bool
  is_refused seen row =
      not (is_public_row row)
      || not (row.network == network_id config.stacks_network)
      || not (
          row.canonical_url == config.public_resource_url
          || row.canonical_url == config.mpp_resource_url)
      || includes seen row.txid

  -- One turn of a worker, with the transactions that were seen.
  unfoldable pub check_row : List String → PublicPaymentRow → Option (Option PublicPayment)
  unfolding is_public_row find_asset is_valid
  check_row seen row =
      if is_refused seen row then none else with_asset row (find_asset row.asset_id config.assets)

  abbrev cons_record :
      Option (Option PublicPayment)
      → Option (List (Option PublicPayment))
      → Option (List (Option PublicPayment))
  cons_record (some p) (some ps) = some (p ∷ ps)
  cons_record _ _ = none

  unfoldable pub check_rows :
      List String → List PublicPaymentRow → Option (List (Option PublicPayment))
  check_rows seen [] = some []
  check_rows seen (row ∷ rows) =
      cons_record (check_row seen row) (check_rows (row.txid ∷ seen) rows)

  abbrev pub kept : List (Option PublicPayment) → List PublicPayment
  kept [] = []
  kept (none ∷ ps) = kept ps
  kept (some p ∷ ps) = p ∷ kept ps

  abbrev pub snapshot_of :
      List PublicPaymentRow
      → ℕ
      → Option (List (Option PublicPayment))
      → Option PublicPaymentSnapshot
  snapshot_of rows now none = none
  snapshot_of rows now (some records) = some (record {
    network = network_id config.stacks_network;
    generated_at = now;
    has_more = ltb public_payment_limit (length rows);
    excluded_count = length records - length (kept records);
    payments = kept records;
  })

  -- `load`, with `none` for its errors
  unfoldable pub load : List PublicPaymentRow → ℕ → Option PublicPaymentSnapshot
  unfolding check_rows
  load rows now =
      if ltb (public_payment_limit + 1) (length rows)
      then none
      else snapshot_of rows now (check_rows [] (take public_payment_limit rows))
