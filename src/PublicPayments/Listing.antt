-- ===== src/PublicPayments/Listing.antt =====
-- `listPublicPayments` of `PostgresDatabase` (src/database.ts): the rows that `load` of
-- src/public-payments.ts reads. The order of texts is the database's.
use perk_os_nayori_platform.Prelude.{
  ℕ, ◌+◌, String, Bool, ◌&&◌, ◌||◌, Option, none, some, List, [], ◌∷◌, ◌==◌, ltb, eqb,
  if◌then◌else◌, take, includes,
}
use mathlib.Core.Option
use perk_os_nayori_platform.Ledger.{
  QuoteRow, SettlementRow, ConfirmationReceiptRecord, DeliveryRow, Ledger, find_quote, find_receipt,
  find_delivery, is_confirmed,
}
use perk_os_nayori_platform.PublicPayments.Loading.{PublicConfig, network_id, load}
use perk_os_nayori_platform.PublicPayments.{
  PublicPaymentSnapshot, ChainAnswer, PublicPaymentRow, public_payment_limit,
}

-- A value of a column that is not NULL on a confirmed row, by the CHECK of migrations/001.
abbrev pub column_number : Option ℕ → ℕ
column_number none = 0
column_number (some n) = n

abbrev pub column_text : Option String → String
column_text none = ""
column_text (some s) = s

abbrev pub public_row : SettlementRow → QuoteRow → Option DeliveryRow → PublicPaymentRow
public_row s q delivery = record {
  txid = s.txid;
  network = s.network;
  canonical_url = q.canonical_url;
  asset_id = q.asset_id;
  amount_atomic = q.amount_atomic;
  payer = s.payer;
  pay_to = q.pay_to;
  block_height = column_number s.confirmed_block_height;
  block_hash = column_text s.confirmed_block_hash;
  confirmed_at = column_number s.confirmed_at;
  delivery_status = Option.map (λ (d : DeliveryRow). d.status) delivery;
}

-- The WHERE clause
abbrev pub is_public : String → List String → SettlementRow → QuoteRow → Bool
is_public network urls s q =
    q.merchant_id == "nayori-public-resource"
    && is_confirmed s.status
    && s.network == network
    && q.network == network
    && includes urls q.canonical_url

-- The joins with the quote, the receipt and the delivery
abbrev joined_row :
    String
    → List String
    → SettlementRow
    → Option QuoteRow
    → Option ConfirmationReceiptRecord
    → Option DeliveryRow
    → Option PublicPaymentRow
joined_row network urls s (some q) (some receipt) delivery =
    if is_public network urls s q then some (public_row s q delivery) else none
joined_row network urls s _ _ delivery = none

unfoldable pub public_select :
    Ledger → String → List String → SettlementRow → Option PublicPaymentRow
public_select db network urls s =
    joined_row network urls s (find_quote s.quote_id db) (find_receipt s.settlement_id db)
      (find_delivery s.settlement_id db)

abbrev keep_row : Option PublicPaymentRow → List PublicPaymentRow → List PublicPaymentRow
keep_row none rows = rows
keep_row (some r) rows = r ∷ rows

unfoldable pub public_rows :
    Ledger → String → List String → List SettlementRow → List PublicPaymentRow
public_rows db network urls [] = []
public_rows db network urls (s ∷ settlements) =
    keep_row (public_select db network urls s) (public_rows db network urls settlements)

-- `collates s t`: the database sorts `s` before `t`, or they are the same.
module _ (collates : String → String → Bool) where
  -- `ORDER BY s.confirmed_at DESC, s.txid DESC`
  abbrev pub comes_first : PublicPaymentRow → PublicPaymentRow → Bool
  comes_first a b =
      ltb b.confirmed_at a.confirmed_at
      || eqb a.confirmed_at b.confirmed_at && collates b.txid a.txid

  unfoldable pub insert_row : PublicPaymentRow → List PublicPaymentRow → List PublicPaymentRow
  insert_row r [] = r ∷ []
  insert_row r (x ∷ xs) = if comes_first r x then r ∷ x ∷ xs else x ∷ insert_row r xs

  unfoldable pub order_public : List PublicPaymentRow → List PublicPaymentRow
  unfolding insert_row
  order_public [] = []
  order_public (r ∷ rs) = insert_row r (order_public rs)

  unfoldable pub list_public_payments : String → List String → Ledger → List PublicPaymentRow
  unfolding order_public public_rows
  list_public_payments network urls db =
      take (public_payment_limit + 1) (order_public (public_rows db network urls db.settlements))

  -- `load` over the tables
  unfoldable pub load_listed :
      PublicConfig → (String → ChainAnswer) → ℕ → Ledger → Option PublicPaymentSnapshot
  load_listed config chain now db =
      load config chain
        (list_public_payments (network_id config.stacks_network)
          (config.public_resource_url ∷ config.mpp_resource_url ∷ []) db)
        now
