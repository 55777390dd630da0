-- ===== src/PublicPayments/Evidence.antt =====
-- What the test of a row against its transaction means (src/public-payments.ts).
use perk_os_nayori_platform.Prelude.{
  ℕ, String, ◌≡◌, refl, ap, Bool, true, false, not, Option, none, some, List, [], ◌∷◌, arith, ◌==◌,
  eqb, eq→≡, length, select, both,
}
use perk_os_nayori_platform.PublicPayments.{
  PublicPaymentRow, PublicAsset, ChainTransaction, ChainEvent, EventAsset, same_text, is_transfer,
  moves_asset, only_transfer, is_valid,
}

-- The transaction moved the row's amount from its payer to its payee, once, and succeeded in the
-- row's block.
pub record IsPayment (row : PublicPaymentRow) (tx : ChainTransaction) : Type 0 where
  pub transfer : ChainEvent
  pub moved : EventAsset
  pub single : select is_transfer tx.events ≡ transfer ∷ []
  pub its_asset : transfer.asset ≡ some moved
  pub sender : moved.sender ≡ some row.payer
  pub recipient : moved.recipient ≡ some row.pay_to
  pub amount : moved.amount ≡ some row.amount_atomic
  pub same_id : tx.tx_id ≡ row.txid
  pub success : tx.tx_status ≡ "success"
  pub canonical : tx.canonical ≡ true
  pub anchored : tx.is_unanchored ≡ false
  pub same_height : tx.block_height ≡ row.block_height
  pub same_block : tx.block_hash ≡ row.block_hash

same_text_lem : (o : Option String) (t : String) → same_text o t ≡ true → o ≡ some t
same_text_lem none t h = cc
same_text_lem (some s) t h = ap some (eq→≡ s t h)

moved_lem :
    (row : PublicPaymentRow) (asset : PublicAsset) (event_type : String) (o : Option EventAsset)
    → moves_asset row asset event_type o ≡ true
    → (a : EventAsset) × (o ≡ some a)
      × (a.sender ≡ some row.payer)
      × (a.recipient ≡ some row.pay_to)
      × (a.amount ≡ some row.amount_atomic)
moved_lem row asset event_type none h = cc
moved_lem row asset event_type (some a) h = (
  a,
  refl,
  same_text_lem a.sender row.payer (ground arith),
  same_text_lem a.recipient row.pay_to (ground arith),
  same_text_lem a.amount row.amount_atomic (ground arith),
)

single_lem :
    (row : PublicPaymentRow) (asset : PublicAsset) (es : List ChainEvent)
    → only_transfer row asset es ≡ true
    → (e : ChainEvent) × (es ≡ e ∷ []) × (moves_asset row asset e.event_type e.asset ≡ true)
single_lem row asset [] h = cc
single_lem row asset (e ∷ []) h = (e, refl, h)
single_lem row asset (e ∷ f ∷ rest) h = cc

not_lem : (b : Bool) → not b ≡ true → b ≡ false
not_lem b h = ground arith

eqb_lem : (m n : ℕ) → eqb m n ≡ true → m ≡ n
eqb_lem m n h = ground arith

pub is_valid-IsPayment :
    (row : PublicPaymentRow) (asset : PublicAsset) (tx : ChainTransaction)
    → is_valid row asset tx ≡ true
    → IsPayment row tx
unfolding is_valid
is_valid-IsPayment row asset tx h =
    let (h8, only) = both _ (only_transfer row asset (select is_transfer tx.events)) h in
    let (h7, counted) = both _ (eqb tx.event_count (length tx.events)) h8 in
    let (h6, result) = both _ (tx.repr == "(ok true)") h7 in
    let (h5, from) = both _ (tx.sender_address == row.payer) h6 in
    let (h4, block) = both _ (tx.block_hash == row.block_hash) h5 in
    let (h3, height) = both _ (eqb tx.block_height row.block_height) h4 in
    let (h2, anchored) = both _ (not tx.is_unanchored) h3 in
    let (h1, canonical) = both _ tx.canonical h2 in
    let (same_id, success) = both (tx.tx_id == row.txid) (tx.tx_status == "success") h1 in
    let (e, single, moves) = single_lem row asset (select is_transfer tx.events) only in
    let (a, its, sender, recipient, amount) = moved_lem row asset e.event_type e.asset moves in
    record {
      transfer = e;
      moved = a;
      single = single;
      its_asset = its;
      sender = sender;
      recipient = recipient;
      amount = amount;
      same_id = eq→≡ tx.tx_id row.txid same_id;
      success = eq→≡ tx.tx_status "success" success;
      canonical = canonical;
      anchored = not_lem tx.is_unanchored anchored;
      same_height = eqb_lem tx.block_height row.block_height height;
      same_block = eq→≡ tx.block_hash row.block_hash block;
    }
