-- ===== src/PublicPayments.antt =====
-- The public evidence of payments (src/public-payments.ts): the records, and the test of a row
-- against its transaction. The store's rows, what the Stacks API answers for a transaction and the
-- SDK's assets are parameters.
pub mod Loading
pub mod Listing
pub mod Evidence
pub mod Laws
pub mod Listed
pub mod Snapshots
use Prim.Native.Char.{code}
use Prim.Native.String
use perk_os_nayori_platform.Prelude.{
  ℕ, ◌+◌, ◌-◌, String, Bool, true, false, not, ◌&&◌, ◌||◌, Option, none, some, List, [], ◌∷◌, ◌==◌,
  ltb, leb, eqb, if◌then◌else◌, length, take, select, includes,
}
use perk_os_nayori_platform.Prelude.Json.{max_safe_integer}
use perk_os_nayori_platform.Merchant.{Asset, Network, mainnet, testnet}
use perk_os_nayori_platform.Broadcast.{is_txid, is_ok}
use perk_os_nayori_platform.Ledger.{DeliveryStatus}
use perk_os_nayori_platform.Oauth.{text_length}
use perk_os_nayori_platform.Prelude.Text.{all_chars}

abbrev pub public_payment_limit : ℕ
public_payment_limit = 25

pub record PublicPaymentRow : Type 0 where
  pub txid : String
  pub network : String
  pub canonical_url : String
  pub asset_id : String
  pub amount_atomic : String
  pub payer : String
  pub pay_to : String
  pub block_height : ℕ
  pub block_hash : String
  pub confirmed_at : ℕ
  pub delivery_status : Option DeliveryStatus

pub data Protocol : Type 0 where
  x402 mpp : Protocol

-- An instant stays a number, and a missing delivery status ("unavailable") is `none`.
pub record PublicPayment : Type 0 where
  pub txid : String
  pub protocol : Protocol
  pub asset : Asset
  pub amount_atomic : String
  pub decimals : ℕ
  pub payer : String
  pub pay_to : String
  pub fee_micro_stx : String
  pub block_height : ℕ
  pub confirmed_at : ℕ
  pub delivery_status : Option DeliveryStatus

-- The fields of a snapshot that are not constant.
pub record PublicPaymentSnapshot : Type 0 where
  pub network : String
  pub generated_at : ℕ
  pub has_more : Bool
  pub excluded_count : ℕ
  pub payments : List PublicPayment

pub record EventAsset : Type 0 where
  pub asset_event_type : String
  pub sender : Option String
  pub recipient : Option String
  pub amount : Option String
  pub asset_id : Option String

pub record ChainEvent : Type 0 where
  pub event_type : String
  pub asset : Option EventAsset

-- A transaction that `chainSchema` accepts.
pub record ChainTransaction : Type 0 where
  pub tx_id : String
  pub tx_status : String
  pub canonical : Bool
  pub is_unanchored : Bool
  pub block_height : ℕ
  pub block_hash : String
  pub sender_address : String
  pub fee_rate : String
  pub repr : String
  pub event_count : ℕ
  pub events : List ChainEvent

-- The SDK's data of an asset.
pub record PublicAsset : Type 0 where
  pub id : Asset
  pub canonical_asset_id : String
  pub post_condition_asset : String
  pub decimals : ℕ

-- The response of the Stacks API: its status, and the transaction, with `none` for a body that is
-- too large, no JSON or not of the schema.
pub record ChainAnswer : Type 0 where
  pub status : ℕ
  pub transaction : Option ChainTransaction

abbrev is_digit : ℕ → Bool
is_digit c = leb b'0' c && leb c b'9'

-- `^(0|[1-9][0-9]{0,38})$`
unfoldable pub is_integer : String → Bool
unfolding all_chars
is_integer String.[] = false
is_integer (String.◌∷◌ c s) =
    String.◌∷◌ c s == "0"
    || leb b'1' (code c) && leb (code c) b'9' && all_chars is_digit s && leb (text_length s) 38

abbrev is_short : String → Bool
is_short s = leb 1 (text_length s) && leb (text_length s) 64

-- `publicPaymentRow.parse`
unfoldable pub is_public_row : PublicPaymentRow → Bool
unfolding is_integer text_length
is_public_row r =
    is_txid r.txid
    && is_integer r.amount_atomic
    && is_short r.payer
    && is_short r.pay_to
    && leb 1 r.block_height
    && leb r.block_height max_safe_integer
    && is_txid r.block_hash

unfoldable pub find_asset : String → List PublicAsset → Option PublicAsset
find_asset id [] = none
find_asset id (a ∷ rest) = if a.canonical_asset_id == id then some a else find_asset id rest

abbrev pub same_text : Option String → String → Bool
same_text none t = false
same_text (some s) t = s == t

abbrev is_transfer_asset : Option EventAsset → Bool
is_transfer_asset none = false
is_transfer_asset (some a) = a.asset_event_type == "transfer"

abbrev pub is_transfer : ChainEvent → Bool
is_transfer e =
    is_transfer_asset e.asset
    && (e.event_type == "stx_asset" || e.event_type == "fungible_token_asset")

abbrev pub is_stx : Asset → Bool
is_stx Asset.stx = true
is_stx _ = false

abbrev pub is_usdcx : Asset → Bool
is_usdcx Asset.usdcx = true
is_usdcx _ = false

-- The single transfer moves the row's amount of the asset from the payer to the payee.
abbrev pub moves_asset : PublicPaymentRow → PublicAsset → String → Option EventAsset → Bool
moves_asset row asset event_type none = false
moves_asset row asset event_type (some e) =
    same_text e.sender row.payer
    && same_text e.recipient row.pay_to
    && same_text e.amount row.amount_atomic
    && (if is_stx asset.id
        then event_type == "stx_asset"
        else event_type == "fungible_token_asset"
          && same_text e.asset_id asset.post_condition_asset)

abbrev pub only_transfer : PublicPaymentRow → PublicAsset → List ChainEvent → Bool
only_transfer row asset [] = false
only_transfer row asset (e ∷ []) = moves_asset row asset e.event_type e.asset
only_transfer row asset (e ∷ f ∷ rest) = false

unfoldable pub is_valid : PublicPaymentRow → PublicAsset → ChainTransaction → Bool
is_valid row asset tx =
    tx.tx_id == row.txid
    && tx.tx_status == "success"
    && tx.canonical
    && not tx.is_unanchored
    && eqb tx.block_height row.block_height
    && tx.block_hash == row.block_hash
    && tx.sender_address == row.payer
    && tx.repr == "(ok true)"
    && eqb tx.event_count (length tx.events)
    && only_transfer row asset (select is_transfer tx.events)
