-- ===== src/PublicPayments/Laws.antt =====
-- What a snapshot of public payments is evidence of (src/public-payments.ts).
use perk_os_nayori_platform.Prelude.{String, ◌≡◌, ◌≢◌, false, some, List, [], ◌∷◌, includes}
use perk_os_nayori_platform.PublicPayments.{
  mpp, x402, PublicPaymentRow, PublicPayment, PublicAsset, ChainTransaction, ChainAnswer,
  find_asset,
}
use perk_os_nayori_platform.PublicPayments.Loading.{PublicConfig, network_id}
use perk_os_nayori_platform.PublicPayments.Evidence.{IsPayment}

module _ (config : PublicConfig) (chain : String → ChainAnswer) where
  -- The public payment shows the row, the asset that the row names, and the fee of the transaction.
  pub record IsShown (row : PublicPaymentRow) (asset : PublicAsset) (tx : ChainTransaction)
      (p : PublicPayment) : Type 0 where
    pub same_txid : p.txid ≡ row.txid
    pub same_amount : p.amount_atomic ≡ row.amount_atomic
    pub same_payer : p.payer ≡ row.payer
    pub same_payee : p.pay_to ≡ row.pay_to
    pub same_height : p.block_height ≡ row.block_height
    pub same_time : p.confirmed_at ≡ row.confirmed_at
    pub same_delivery : p.delivery_status ≡ row.delivery_status
    pub its_asset : p.asset ≡ asset.id
    pub its_decimals : p.decimals ≡ asset.decimals
    pub its_fee : p.fee_micro_stx ≡ tx.fee_rate
    pub by_mpp : row.canonical_url ≡ config.mpp_resource_url → p.protocol ≡ mpp
    pub by_x402 : row.canonical_url ≢ config.mpp_resource_url → p.protocol ≡ x402

  -- The public payment is that of the row, and the chain has the transaction.
  pub record IsEvidence (row : PublicPaymentRow) (p : PublicPayment) : Type 0 where
    pub asset : PublicAsset
    pub tx : ChainTransaction
    pub known : find_asset row.asset_id config.assets ≡ some asset
    pub on_chain : (chain row.txid).transaction ≡ some tx
    pub same_network : row.network ≡ network_id config.stacks_network
    pub valid : IsPayment row tx
    pub shown : IsShown row asset tx p

  -- The payments are, in order, those of some of the rows.
  pub data AreEvidence : List PublicPaymentRow → List PublicPayment → Type 0 where
    done : AreEvidence [] []
    left_out :
        {rows : List PublicPaymentRow} {ps : List PublicPayment} (row : PublicPaymentRow)
        → AreEvidence rows ps
        → AreEvidence (row ∷ rows) ps
    listed :
        {rows : List PublicPaymentRow} {ps : List PublicPayment} (row : PublicPaymentRow)
        (p : PublicPayment)
        → IsEvidence row p
        → AreEvidence rows ps
        → AreEvidence (row ∷ rows) (p ∷ ps)

  -- The rows have different transactions, none of which was seen before.
  abbrev pub AreFresh : List String → List PublicPaymentRow → Type 0
  AreFresh seen [] = Unit
  AreFresh seen (row ∷ rows) = (includes seen row.txid ≡ false) × AreFresh (row.txid ∷ seen) rows
