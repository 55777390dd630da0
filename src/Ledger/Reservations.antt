-- ===== src/Ledger/Reservations.antt =====
-- What `reserveSettlement` promises (src/database.ts).
use perk_os_nayori_platform.Prelude.{
  ℕ, ◌≤◌, ◌≡◌, refl, ◌⊎◌, inl, inr, Bool, true, false, ◌&&◌, none, some, List, [], ◌∷◌, arith, ◌==◌,
  eq_iff, eq_refl, if◌then◌else◌, Bool-cases, Option-cases, any, ok, err,
}
use perk_os_nayori_platform.Prelude.Table.{lookup, lookup_key, lookup-update}
use perk_os_nayori_platform.Ledger.{
  SettlementRow, SettlementStatus, QuoteStatus, QuoteRow, Ledger, StoreError, find_quote,
  find_settlement_of_quote, find_receipt, find_delivery,
}
use perk_os_nayori_platform.Ledger.Selecting.{
  SettlementRecord, settlement_select, settlement_record,
}
use perk_os_nayori_platform.Ledger.Reserve.{
  SettlementReservation, ReserveSettlementResult, reserve_settlement, with_reservation,
  same_payment, clashes_with, validated_row, set_quote_status, reservation_passes,
}

-- When a new settlement may be reserved.
pub record IsReservable (date_now : ℕ) (input : SettlementReservation) (db : Ledger) (q : QuoteRow)
    : Type 0 where
  pub quote : find_quote input.quote_id db ≡ some q
  pub owner : q.merchant_id ≡ input.merchant_id
  pub token : q.signed_token_hash ≡ input.expected_signed_token_hash
  pub status : q.status ≡ QuoteStatus.issued
  pub live : date_now ≤ q.expires_at
  pub passes : reservation_passes input ≡ true
  pub unused : any (clashes_with input) db.settlements ≡ false

any_weaken :
    (p q : SettlementRow → Bool) (t : List SettlementRow)
    → ((s : SettlementRow) → p s ≡ false → q s ≡ false)
    → any p t ≡ false
    → any q t ≡ false
any_weaken p q [] weaker h = refl
any_weaken p q (s ∷ t) weaker h = ground (arith, weaker s, any_weaken p q t weaker)

lookup_of_fresh :
    (input : SettlementReservation) (t : List SettlementRow)
    → any (clashes_with input) t ≡ false
    → lookup (λ (s : SettlementRow). s.quote_id) input.quote_id t ≡ none
unfolding lookup
lookup_of_fresh input [] h = refl
lookup_of_fresh input (s ∷ t) h = ground (arith, lookup_of_fresh input t)

-- A reservation is created for an issued and live quote of the merchant, with the token that was
-- issued, where no settlement has its id, its quote or its transaction. The tables then hold it as
-- validated, with the quote reserved.
pub reserve_creates :
    (date_now db_now : ℕ) (input : SettlementReservation) (db : Ledger) {q : QuoteRow}
    → IsReservable date_now input db q
    → (r : SettlementRecord) × (reserve_settlement date_now db_now input db
        ≡ ok (record { created = true; settlement = some r }, with_reservation db_now input db))
      × (r.settlement_id ≡ input.settlement_id)
      × (r.merchant_id ≡ input.merchant_id)
      × (r.status ≡ SettlementStatus.validated)
unfolding reserve_settlement lookup settlement_select
reserve_creates date_now db_now input db {q} able =
    let key : q.quote_id ≡ input.quote_id = lookup_key _ input.quote_id db.quotes q able.quote in
    (
      settlement_record (validated_row db_now input)
          (set_quote_status db_now QuoteStatus.reserved q) (find_receipt input.settlement_id db)
          (find_delivery input.settlement_id db),
      ground (
        arith,
        able,
        key,
        lookup_of_fresh input db.settlements able.unused,
        any_weaken (clashes_with input) (same_payment input.network input.txid) db.settlements
            (λ s h. ground arith) able.unused,
        lookup-update (λ (q : QuoteRow). q.quote_id)
            (λ (q : QuoteRow). q.quote_id == input.quote_id)
            (set_quote_status db_now QuoteStatus.reserved) input.quote_id db.quotes (λ q. refl),
        eq_refl input.settlement_id,
        eq_iff q.quote_id input.quote_id,
        eq_iff q.merchant_id input.merchant_id,
        eq_iff q.signed_token_hash input.expected_signed_token_hash,
      ),
      refl,
      able.owner,
      refl,
    )

-- A quote that has a settlement is never given another one: the payment that reserved it gets that
-- settlement again, any other payment is refused as a replay, and nothing is written.
pub reserve_again :
    (date_now db_now : ℕ) (input : SettlementReservation) (db : Ledger) {q : QuoteRow}
    {s : SettlementRow}
    → find_quote input.quote_id db ≡ some q
    → q.merchant_id ≡ input.merchant_id
    → q.signed_token_hash ≡ input.expected_signed_token_hash
    → find_settlement_of_quote input.quote_id db ≡ some s
    → (s.quote_id ≡ input.quote_id)
      × (reserve_settlement date_now db_now input db ≡ (
          if s.txid == input.txid && s.raw_tx_hash == input.raw_tx_hash
          then ok (record { created = false; settlement = settlement_select db (some s) }, db)
          else err StoreError.payment_replayed))
unfolding reserve_settlement settlement_select
reserve_again date_now db_now input db {q} {s} quote owner token held =
    let key = lookup_key (λ (s : SettlementRow). s.quote_id) input.quote_id db.settlements s held in
    (
      key,
      ground (
        arith,
        key,
        eq_iff q.merchant_id input.merchant_id,
        eq_iff q.signed_token_hash input.expected_signed_token_hash,
      ),
    )

-- The settlement is that of the payment, and waits to be broadcast.
pub record IsReservedFor (input : SettlementReservation) (s : SettlementRow) : Type 0 where
  pub its_id : s.settlement_id ≡ input.settlement_id
  pub its_quote : s.quote_id ≡ input.quote_id
  pub its_network : s.network ≡ input.network
  pub its_txid : s.txid ≡ input.txid
  pub its_payer : s.payer ≡ input.payer
  pub its_raw_tx : s.raw_tx_hash ≡ input.raw_tx_hash
  pub its_status : s.status ≡ SettlementStatus.validated

validated_row-IsReservedFor :
    (db_now : ℕ) (input : SettlementReservation) → IsReservedFor input (validated_row db_now input)
validated_row-IsReservedFor db_now input = record {
  its_id = refl;
  its_quote = refl;
  its_network = refl;
  its_txid = refl;
  its_payer = refl;
  its_raw_tx = refl;
  its_status = refl;
}

replayed :
    (date_now db_now : ℕ) (input : SettlementReservation) (db db' : Ledger) (q : QuoteRow)
    {result : ReserveSettlementResult}
    → find_quote input.quote_id db ≡ some q
    → reserve_settlement date_now db_now input db ≡ ok (result, db')
    → result.created ≡ false
    → (s : SettlementRow) × (find_settlement_of_quote input.quote_id db ≡ some s)
      × (s.txid ≡ input.txid)
      × (s.raw_tx_hash ≡ input.raw_tx_hash)
      × (result.settlement ≡ settlement_select db (some s))
unfolding reserve_settlement settlement_select
replayed date_now db_now input db db' q quote h old =
    elim (Option-cases (find_settlement_of_quote input.quote_id db)) [
      | inl none_ ↦ ground arith
      | inr (s, held) ↦
          let key =
            lookup_key (λ (s : SettlementRow). s.quote_id) input.quote_id db.settlements s held in
          (
            s,
            held,
            ground (arith, key, eq_iff s.txid input.txid),
            ground (arith, key, eq_iff s.raw_tx_hash input.raw_tx_hash),
            ground (arith, key),
          )
    ]

-- A reservation that succeeds has either found the quote's settlement, which is of the same
-- transaction and the same raw transaction, answered with it and written nothing, or has created a
-- validated settlement for that payment, for an issued quote of the merchant that was live and whose
-- transaction no settlement had.
pub reserve_sound :
    (date_now db_now : ℕ) (input : SettlementReservation) (db db' : Ledger)
    {result : ReserveSettlementResult}
    → reserve_settlement date_now db_now input db ≡ ok (result, db')
    → ((result.created ≡ false)
        × (db' ≡ db)
        × (s : SettlementRow) × (find_settlement_of_quote input.quote_id db ≡ some s)
        × (s.txid ≡ input.txid)
        × (s.raw_tx_hash ≡ input.raw_tx_hash)
        × (result.settlement ≡ settlement_select db (some s)))
      ⊎ ((result.created ≡ true)
          × (db' ≡ with_reservation db_now input db)
          × (new : SettlementRow) × (db'.settlements ≡ new ∷ db.settlements)
          × IsReservedFor input new
          × (q : QuoteRow) × IsReservable date_now input db q)
unfolding reserve_settlement
reserve_sound date_now db_now input db db' {result} h =
    elim (Option-cases (find_quote input.quote_id db)) [
      | inl absent ↦ ground arith
      | inr (q, quote) ↦ elim (Bool-cases result.created) [
        | inr old ↦
            let (s, held, same, same_raw, answer) =
              replayed date_now db_now input db db' q quote h old in
            inl (old, ground arith, s, held, same, same_raw, answer)
        | inl new ↦ inr (
          new,
          ground arith,
          validated_row db_now input,
          ground arith,
          validated_row-IsReservedFor db_now input,
          q,
          record {
            quote = quote;
            owner = ground (arith, eq_iff q.merchant_id input.merchant_id);
            token = ground (arith, eq_iff q.signed_token_hash input.expected_signed_token_hash);
            status = ground arith;
            live = ground arith;
            passes = ground arith;
            unused = ground arith;
          },
        )
      ]
    ]
