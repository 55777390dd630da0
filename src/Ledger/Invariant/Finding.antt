-- ===== src/Ledger/Invariant/Finding.antt =====
-- The rows of a settlement and of its quote, before and after an update (src/database.ts).
use perk_os_nayori_platform.Prelude.{
  ℕ, String, ◌≡◌, refl, inl, inr, Bool, true, false, some, arith, ◌==◌, eq_iff, if◌then◌else◌,
  Option-cases, eq→≡, ≡→eq, eq-cases,
}
use perk_os_nayori_platform.Prelude.Table.{lookup, lookup_key, lookup-update, update}
use perk_os_nayori_platform.Ledger.{
  QuoteStatus, SettlementStatus, QuoteRow, SettlementRow, Ledger, find_quote, find_settlement,
  is_open, is_confirmed,
}
use perk_os_nayori_platform.Ledger.Reserve.{set_quote_status}
use perk_os_nayori_platform.Ledger.Reconciling.{is_row}
use perk_os_nayori_platform.Ledger.Invariant.{
  settlement_key, IsSound, paired, quote_status, has_receipt, has_delivery,
}

-- What a sound ledger says of an open settlement, in the form that an update needs.
module _ {db : Ledger} (sound : IsSound db) (id : String) (before : SettlementRow)
    (found : find_settlement id db ≡ some before) (opened : is_open before.status ≡ true) where
  pub quote_kept :
      (st : SettlementStatus) (j : String)
      → is_confirmed st ≡ false
      → quote_status j db ≡ (if before.quote_id == j then some (paired st) else quote_status j db)
  quote_kept st j h =
      ground (arith, (sound.settled id before found).quote, eq_iff before.quote_id j)

  pub receipt_kept :
      (st : SettlementStatus) (j : String)
      → is_confirmed st ≡ false
      → has_receipt j db ≡ (if id == j then is_confirmed st else has_receipt j db)
  receipt_kept st j h = ground (
    arith,
    (sound.settled id before found).receipt,
    eq_iff id j,
    lookup_key _ id db.settlements before found,
  )

  pub delivery_kept :
      (st : SettlementStatus) (j : String)
      → is_confirmed st ≡ false
      → has_delivery j db ≡ (if id == j then is_confirmed st else has_delivery j db)
  delivery_kept st j h = ground (
    arith,
    (sound.settled id before found).delivery,
    eq_iff id j,
    lookup_key _ id db.settlements before found,
  )

-- An update of the rows that have the key `id`, where that key finds `before`.
pub find-update_row :
    (id : String) (p : SettlementRow → Bool) (f : SettlementRow → SettlementRow) (db : Ledger)
    (before : SettlementRow)
    → find_settlement id db ≡ some before
    → p before ≡ true
    → ((s : SettlementRow) → p s ≡ true → s.settlement_id ≡ id)
    → ((s : SettlementRow) → (f s).settlement_id ≡ s.settlement_id)
    → (j : String)
    → lookup settlement_key j (update p f db.settlements)
      ≡ (if id == j then some (f before) else find_settlement j db)
find-update_row id p f db before found picks only keeps j = elim (eq-cases id j) [
  | inl same ↦ ground (arith, lookup-update settlement_key p f j db.settlements keeps, eq_iff id j)
  | inr other ↦ elim (Option-cases (find_settlement j db)) [
    | inl absent ↦ ground (arith, lookup-update settlement_key p f j db.settlements keeps)
    | inr (s, held) ↦ ground (
      arith,
      lookup-update settlement_key p f j db.settlements keeps,
      only s,
      eq_iff id j,
      lookup_key settlement_key j db.settlements s held,
    )
  ]
]

-- The same for the condition `settlement_id = id`.
pub find-update_is_row :
    (id : String) (f : SettlementRow → SettlementRow) (db : Ledger) (before : SettlementRow)
    → find_settlement id db ≡ some before
    → ((s : SettlementRow) → (f s).settlement_id ≡ s.settlement_id)
    → (j : String)
    → lookup settlement_key j (update (is_row id) f db.settlements)
      ≡ (if id == j then some (f before) else find_settlement j db)
find-update_is_row id f db before found keeps =
    find-update_row id (is_row id) f db before found
      (≡→eq _ _ (lookup_key settlement_key id db.settlements before found)) (λ s h. eq→≡ _ _ h)
      keeps

-- Setting the status of one quote.
pub status-update :
    (db_now : ℕ) (id : String) (new : QuoteStatus) (db : Ledger) (old : QuoteStatus)
    → quote_status id db ≡ some old
    → (j : String)
    → quote_status j (record db {
      quotes = update (λ (q : QuoteRow). q.quote_id == id) (set_quote_status db_now new) db.quotes;
    })
      ≡ (if id == j then some new else quote_status j db)
status-update db_now id new db old held j = elim (Option-cases (find_quote j db)) [
  | inl absent ↦ ground (
    arith,
    lookup-update (λ (q : QuoteRow). q.quote_id) (λ (q : QuoteRow). q.quote_id == id)
        (set_quote_status db_now new) j db.quotes (λ q. refl),
    eq_iff id j,
  )
  | inr (q, found) ↦ ground (
    arith,
    lookup-update (λ (q : QuoteRow). q.quote_id) (λ (q : QuoteRow). q.quote_id == id)
        (set_quote_status db_now new) j db.quotes (λ q. refl),
    eq_iff id j,
    eq_iff q.quote_id id,
    lookup_key (λ (q : QuoteRow). q.quote_id) j db.quotes q found,
  )
]
