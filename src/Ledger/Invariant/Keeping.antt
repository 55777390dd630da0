-- ===== src/Ledger/Invariant/Keeping.antt =====
-- The operations that move no settlement: leases, deliveries and new quotes (src/database.ts).
use perk_os_nayori_platform.Prelude.{
  ℕ, String, ◌≡◌, refl, sym, ◌∙◌, inl, inr, true, false, none, some, ◌∷◌, arith, ◌==◌, eq_iff,
  Option-cases, any,
}
use perk_os_nayori_platform.Prelude.Table.{lookup, lookup-update, lookup_key, lookup_of_any}
use perk_os_nayori_platform.Prelude.Table.Keys.{IsUnique}
use perk_os_nayori_platform.Ledger.{
  IssuedQuoteRecord, QuoteStatus, QuoteRow, SettlementRow, DeliveryRow, Ledger, find_quote,
  find_settlement, passes_checks,
}
use perk_os_nayori_platform.Ledger.Quotes.{issued_row, clashes_with}
use perk_os_nayori_platform.Ledger.Deliveries.{with_delivery}
use perk_os_nayori_platform.Ledger.Invariant.{
  settlement_key, IsSound, IsCoherent, quote_status, has_receipt, has_delivery, last_status,
}

-- `s` is `o` as far as the other tables go.
pub record Resembles (s o : SettlementRow) : Type 0 where
  pub same_id : s.settlement_id ≡ o.settlement_id
  pub same_quote : s.quote_id ≡ o.quote_id
  pub same_network : s.network ≡ o.network
  pub same_txid : s.txid ≡ o.txid
  pub same_status : s.status ≡ o.status

-- `db'` has the settlements of `db` with their statuses, and at least its quotes.
pub record Keeps (db db' : Ledger) : Type 0 where
  pub unique : IsUnique settlement_key db'.settlements
  pub settlement :
      (j : String) (s : SettlementRow)
      → find_settlement j db' ≡ some s
      → (o : SettlementRow) × (find_settlement j db ≡ some o) × Resembles s o
  pub absent : (j : String) → find_settlement j db' ≡ none → find_settlement j db ≡ none
  pub checked :
      (j : String) (s : SettlementRow) → find_settlement j db' ≡ some s → passes_checks s ≡ true
  pub quote :
      (j : String) (q : QuoteStatus) → quote_status j db ≡ some q → quote_status j db' ≡ some q
  pub receipt : (j : String) → has_receipt j db' ≡ has_receipt j db
  pub delivery : (j : String) → has_delivery j db' ≡ has_delivery j db
  pub logged : (j : String) → last_status j db' ≡ last_status j db

module _ {db db' : Ledger} (sound : IsSound db) (k : Keeps db db') where
  kept-IsCoherent :
      (j : String) (s : SettlementRow) → find_settlement j db' ≡ some s → IsCoherent db' s
  kept-IsCoherent j s h =
      let (o, held, r) = k.settlement j s h in
      let c = sound.settled j o held in
      record {
        quote = cc (k.quote o.quote_id _ c.quote, r.same_quote, r.same_status);
        receipt = cc (k.receipt o.settlement_id, c.receipt, r.same_id, r.same_status);
        delivery = cc (k.delivery o.settlement_id, c.delivery, r.same_id, r.same_status);
        logged = cc (k.logged o.settlement_id, c.logged, r.same_id, r.same_status);
        checked = k.checked j s h;
      }

  pub Keeps-IsSound : IsSound db'
  Keeps-IsSound = record {
    unique = k.unique;
    settled = kept-IsCoherent;
    unsettled = λ j h.
        let (no_receipt, no_delivery) = sound.unsettled j (k.absent j h) in
        (k.receipt j ∙ no_receipt, k.delivery j ∙ no_delivery);
    one_per_quote = λ i j s t hs ht e.
        let (o, ho, r) = k.settlement i s hs in
        let (o', ho', r') = k.settlement j t ht in
        sound.one_per_quote i j o o' ho ho' (sym r.same_quote ∙ e ∙ r'.same_quote);
    one_per_payment = λ i j s t hs ht e f.
        let (o, ho, r) = k.settlement i s hs in
        let (o', ho', r') = k.settlement j t ht in
        sound.one_per_payment i j o o' ho ho' (sym r.same_network ∙ e ∙ r'.same_network)
          (sym r.same_txid ∙ f ∙ r'.same_txid);
  }

-- Changes to a delivery that keep its settlement keep the tables sound.
pub with_delivery-IsSound :
    (id : String) (f : DeliveryRow → DeliveryRow) {db : Ledger}
    → ((d : DeliveryRow) → (f d).settlement_id ≡ d.settlement_id)
    → IsSound db
    → IsSound (with_delivery id f db)
with_delivery-IsSound id f {db} keeps sound = Keeps-IsSound sound (record {
  unique = sound.unique;
  settlement = λ j s h. (
    s,
    h,
    record {
      same_id = refl;
      same_quote = refl;
      same_network = refl;
      same_txid = refl;
      same_status = refl;
    },
  );
  absent = λ j h. h;
  checked = λ j s h. (sound.settled j s h).checked;
  quote = λ j q h. h;
  receipt = λ j. refl;
  delivery = λ j. ground (
    arith,
    lookup-update (λ (d : DeliveryRow). d.settlement_id) (λ (d : DeliveryRow). d.delivery_id == id)
        f j db.deliveries keeps,
  );
  logged = λ j. refl;
})

-- A new quote has a new key.
issued-quote_status :
    (db_now : ℕ) (new : IssuedQuoteRecord) (db : Ledger) (j : String) (q : QuoteStatus)
    → any (clashes_with new) db.quotes ≡ false
    → quote_status j db ≡ some q
    → quote_status j (record db { quotes = issued_row db_now new ∷ db.quotes }) ≡ some q
unfolding lookup
issued-quote_status db_now new db j q free h = elim (Option-cases (find_quote j db)) [
  | inl absent ↦ ground arith
  | inr (row, found) ↦ ground (
    arith,
    lookup_of_any (λ (r : QuoteRow). r.quote_id) (clashes_with new) j db.quotes row free found,
    lookup_key (λ (r : QuoteRow). r.quote_id) j db.quotes row found,
    eq_iff row.quote_id new.quote_id,
    eq_iff new.quote_id j,
  )
]

pub with_quote-IsSound :
    (db_now : ℕ) (new : IssuedQuoteRecord) {db : Ledger}
    → any (clashes_with new) db.quotes ≡ false
    → IsSound db
    → IsSound (record db { quotes = issued_row db_now new ∷ db.quotes })
with_quote-IsSound db_now new {db} free sound = Keeps-IsSound sound (record {
  unique = sound.unique;
  settlement = λ j s h. (
    s,
    h,
    record {
      same_id = refl;
      same_quote = refl;
      same_network = refl;
      same_txid = refl;
      same_status = refl;
    },
  );
  absent = λ j h. h;
  checked = λ j s h. (sound.settled j s h).checked;
  quote = λ j q h. issued-quote_status db_now new db j q free h;
  receipt = λ j. refl;
  delivery = λ j. refl;
  logged = λ j. refl;
})
