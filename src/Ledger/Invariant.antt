-- ===== src/Ledger/Invariant.antt =====
-- What holds between the payment tables after every transaction (src/database.ts), and that a
-- change of one settlement's status keeps it.
pub mod Finding
pub mod Moving
pub mod Leasing
pub mod Keeping
pub mod Reserving
pub mod Claiming
pub mod Cases
pub mod Operations
use mathlib.Core.Option
use perk_os_nayori_platform.Prelude.{
  String, ◌≡◌, refl, ◌∙◌, ◌⊎◌, inl, inr, Bool, true, false, Option, none, some, map, arith, ◌==◌,
  eq_iff, eq_refl, if◌then◌else◌, eq-cases,
}
use perk_os_nayori_platform.Prelude.Table.{lookup, lookup_key}
use perk_os_nayori_platform.Prelude.Table.Keys.{IsUnique}
use perk_os_nayori_platform.Ledger.{
  QuoteStatus, SettlementStatus, QuoteRow, SettlementRow, Transition, Ledger, find_quote,
  find_settlement, find_receipt, find_delivery, is_found, is_confirmed, passes_checks,
}

-- The status of a settlement's quote.
abbrev pub paired : SettlementStatus → QuoteStatus
paired SettlementStatus.confirmed = QuoteStatus.consumed
paired _ = QuoteStatus.reserved

abbrev pub quote_status : String → Ledger → Option QuoteStatus
quote_status id db = Option.map (λ (q : QuoteRow). q.status) (find_quote id db)

abbrev pub has_receipt : String → Ledger → Bool
has_receipt id db = is_found (find_receipt id db)

abbrev pub has_delivery : String → Ledger → Bool
has_delivery id db = is_found (find_delivery id db)

-- The status that the newest transition of a settlement led to.
abbrev pub last_status : String → Ledger → Option SettlementStatus
last_status id db =
    Option.map (λ (t : Transition). t.to_status)
      (lookup (λ (t : Transition). t.settlement_id) id db.transitions)

-- A settlement agrees with its quote, receipt, delivery and log.
pub record IsCoherent (db : Ledger) (s : SettlementRow) : Type 0 where
  pub quote : quote_status s.quote_id db ≡ some (paired s.status)
  pub receipt : has_receipt s.settlement_id db ≡ is_confirmed s.status
  pub delivery : has_delivery s.settlement_id db ≡ is_confirmed s.status
  pub logged : last_status s.settlement_id db ≡ some s.status
  pub checked : passes_checks s ≡ true

abbrev pub settlement_key : SettlementRow → String
settlement_key s = s.settlement_id

pub record IsSound (db : Ledger) : Type 0 where
  pub unique : IsUnique settlement_key db.settlements
  pub settled : (id : String) (s : SettlementRow) → find_settlement id db ≡ some s → IsCoherent db s
  pub unsettled :
      (id : String)
      → find_settlement id db ≡ none
      → (has_receipt id db ≡ false) × (has_delivery id db ≡ false)
  pub one_per_quote :
      (id id' : String) (s s' : SettlementRow)
      → find_settlement id db ≡ some s
      → find_settlement id' db ≡ some s'
      → s.quote_id ≡ s'.quote_id
      → id ≡ id'
  pub one_per_payment :
      (id id' : String) (s s' : SettlementRow)
      → find_settlement id db ≡ some s
      → find_settlement id' db ≡ some s'
      → s.network ≡ s'.network
      → s.txid ≡ s'.txid
      → id ≡ id'

-- `db'` is `db` with the settlement `id` moved from `before` to `after`, and with what belongs to
-- it moved along.
pub record Moves (id : String) (before after : SettlementRow) (db db' : Ledger) : Type 0 where
  pub found : find_settlement id db ≡ some before
  pub settlement :
      (j : String) → find_settlement j db' ≡ (if id == j then some after else find_settlement j db)
  pub same_id : after.settlement_id ≡ before.settlement_id
  pub same_quote : after.quote_id ≡ before.quote_id
  pub same_network : after.network ≡ before.network
  pub same_txid : after.txid ≡ before.txid
  pub quote :
      (j : String)
      → quote_status j db'
        ≡ (if before.quote_id == j then some (paired after.status) else quote_status j db)
  pub receipt :
      (j : String)
      → has_receipt j db' ≡ (if id == j then is_confirmed after.status else has_receipt j db)
  pub delivery :
      (j : String)
      → has_delivery j db' ≡ (if id == j then is_confirmed after.status else has_delivery j db)
  pub logged :
      (j : String) → last_status j db' ≡ (if id == j then some after.status else last_status j db)
  pub checked : passes_checks after ≡ true
  pub unique : IsUnique settlement_key db'.settlements

module _ {id : String} {before after : SettlementRow} {db db' : Ledger} (sound : IsSound db)
    (m : Moves id before after db db') where
  -- A settlement of `db'` is the moved one, or an old one.
  settlement-cases :
      (j : String) (s : SettlementRow)
      → find_settlement j db' ≡ some s
      → ((id ≡ j) × (s ≡ after)) ⊎ (((id == j) ≡ false) × (find_settlement j db ≡ some s))
  settlement-cases j s h = elim (eq-cases id j) [
    | inl same ↦ inl (same, ground (arith, m.settlement j, eq_iff id j))
    | inr other ↦ inr (other, ground (arith, m.settlement j))
  ]

  after_id : after.settlement_id ≡ id
  after_id = m.same_id ∙ lookup_key _ id db.settlements before m.found

  moved-IsCoherent : IsCoherent db' after
  moved-IsCoherent = record {
    quote = rw m.same_quote (ground (arith, m.quote before.quote_id, eq_refl before.quote_id));
    receipt = rw after_id (ground (arith, m.receipt id, eq_refl id));
    delivery = rw after_id (ground (arith, m.delivery id, eq_refl id));
    logged = rw after_id (ground (arith, m.logged id, eq_refl id));
    checked = m.checked;
  }

  kept-IsCoherent :
      (j : String) (s : SettlementRow)
      → (id == j) ≡ false
      → find_settlement j db ≡ some s
      → IsCoherent db' s
  kept-IsCoherent j s other h =
      let c = sound.settled j s h in
      let key : s.settlement_id ≡ j = lookup_key _ j db.settlements s h in
      record {
        quote = ground (
          arith,
          c.quote,
          m.quote s.quote_id,
          eq_iff before.quote_id s.quote_id,
          eq_iff id j,
          sound.one_per_quote id j before s m.found h,
        );
        receipt = ground (arith, c.receipt, m.receipt s.settlement_id, key);
        delivery = ground (arith, c.delivery, m.delivery s.settlement_id, key);
        logged = ground (arith, c.logged, m.logged s.settlement_id, key);
        checked = c.checked;
      }

  moved-settled :
      (j : String) (s : SettlementRow) → find_settlement j db' ≡ some s → IsCoherent db' s
  moved-settled j s h = elim (settlement-cases j s h) [
    | inl (same, e) ↦ rw e moved-IsCoherent
    | inr (other, old) ↦ kept-IsCoherent j s other old
  ]

  moved-unsettled :
      (j : String)
      → find_settlement j db' ≡ none
      → (has_receipt j db' ≡ false) × (has_delivery j db' ≡ false)
  moved-unsettled j h = ground (arith, m.settlement j, m.receipt j, m.delivery j, sound.unsettled j)

  -- Which settlement of the old tables a settlement of the new ones was.
  origin :
      (j : String) (s : SettlementRow)
      → find_settlement j db' ≡ some s
      → (o : SettlementRow) × (find_settlement j db ≡ some o)
        × (s.quote_id ≡ o.quote_id)
        × (s.network ≡ o.network)
        × (s.txid ≡ o.txid)
  origin j s h = elim (settlement-cases j s h) [
    | inl (same, e) ↦
        (before, rw (← same) m.found, rw e m.same_quote, rw e m.same_network, rw e m.same_txid)
    | inr (other, old) ↦ (s, old, refl, refl, refl)
  ]

  -- Moving a settlement keeps the tables sound.
  pub Moves-IsSound : IsSound db'
  Moves-IsSound = record {
    unique = m.unique;
    settled = moved-settled;
    unsettled = moved-unsettled;
    one_per_quote = λ j k s t hs ht e.
        let (o, ho, q, _, _) = origin j s hs in
        let (o', ho', q', _, _) = origin k t ht in sound.one_per_quote j k o o' ho ho' (cc);
    one_per_payment = λ j k s t hs ht e f.
        let (o, ho, _, n, x) = origin j s hs in
        let (o', ho', _, n', x') = origin k t ht in sound.one_per_payment j k o o' ho ho' (cc) (cc);
  }
