-- ===== src/Settlement/Replays.antt =====
-- What a settle call answers for a quote that already has a settlement (src/settlement.ts).
use perk_os_nayori_platform.Prelude.{
  String, ◌≡◌, refl, inl, inr, true, ◌&&◌, none, some, ◌==◌, if◌then◌else◌, Bool-cases, err,
}
use perk_os_nayori_platform.Broadcast.{BroadcastResult}
use perk_os_nayori_platform.Ledger.{SettlementRow, QuoteRow, find_quote, find_settlement_of_quote}
use perk_os_nayori_platform.Ledger.Selecting.{settlement_select}
use perk_os_nayori_platform.Ledger.Reservations.{reserve_again}
use perk_os_nayori_platform.Settlement.{ValidatedPayment, Config, Services, Moments, World, service}
use perk_os_nayori_platform.Settlement.Settling.{
  answer_settlement, reservation_of, settle_reserved, settle_with,
}

module _ (config : Config) (services : Services) where
  -- For a quote that has a settlement, a settle call with the payment of that settlement answers
  -- with it as a replay, and any other payment gets a 409 `payment_replayed`; in both cases nothing
  -- is written or broadcast.
  pub settle_again :
      (m : Moments) (send : String → BroadcastResult) (v : ValidatedPayment) (w : World)
      {q : QuoteRow} {s : SettlementRow}
      → find_quote v.token.quote_id (m.before_reserve w.ledger) ≡ some q
      → q.merchant_id ≡ v.merchant.merchant_id
      → q.signed_token_hash ≡ v.signed_token_hash
      → find_settlement_of_quote v.token.quote_id (m.before_reserve w.ledger) ≡ some s
      → settle_with config services m send v w ≡ (
        (if s.txid == v.transaction_id
              && s.raw_tx_hash == services.sha256_of_hex v.payment.transaction
            then answer_settlement config services true
                (settlement_select (m.before_reserve w.ledger) (some s))
            else err (service "payment_replayed" 409 none)),
        record w { ledger = m.before_reserve w.ledger },
      )
  unfolding settle_with reservation_of settle_reserved
  settle_again m send v w {q} {s} quote owner token held =
      let input = reservation_of config services m v in
      let db = m.before_reserve w.ledger in
      let (_, again) = reserve_again m.date_now m.reserved_at input db quote owner token held in
      elim (Bool-cases (
        s.txid == v.transaction_id
        && s.raw_tx_hash == services.sha256_of_hex v.payment.transaction)) [
          | inl same ↦ rw again (rw same refl)
          | inr other ↦ rw again (rw other refl)
        ]
