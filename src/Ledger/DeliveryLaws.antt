-- ===== src/Ledger/DeliveryLaws.antt =====
-- Claiming and completing a delivery, once and again (src/database.ts).
use mathlib.Core.Option
use perk_os_nayori_platform.Prelude.{
  ℕ, String, ◌≡◌, refl, ap, ◌∙◌, ◌⊎◌, inl, inr, Option, none, some, arith, ◌==◌, eq_iff, eq_refl,
  if◌then◌else◌, Option-cases, ok, err,
}
use perk_os_nayori_platform.Prelude.Table.{lookup-update}
use perk_os_nayori_platform.Ledger.{
  DeliveryStatus, DeliveryRow, Ledger, StoreError, find_delivery, find_receipt, find_settlement,
}
use perk_os_nayori_platform.Ledger.Deliveries.{
  DeliveryLedgerRecord, complete_delivery, with_delivery, delivered_row, of_merchant,
  delivery_select, quote_of,
}

abbrev delivery_key : DeliveryRow → String
delivery_key d = d.settlement_id

-- What an update of the delivery with a given id does to the delivery of a settlement.
pub find-with_delivery :
    (id sid : String) (f : DeliveryRow → DeliveryRow) (db : Ledger)
    → ((d : DeliveryRow) → (f d).settlement_id ≡ d.settlement_id)
    → find_delivery sid (with_delivery id f db)
      ≡ Option.map
          (λ (d : DeliveryRow). if d.delivery_id == id then f d else d)
          (find_delivery sid db)
find-with_delivery id sid f db keeps =
    lookup-update delivery_key (λ (d : DeliveryRow). d.delivery_id == id) f sid db.deliveries keeps

-- The columns that a record takes from its delivery.
abbrev pub restate : DeliveryRow → DeliveryLedgerRecord → DeliveryLedgerRecord
restate d v = record v {
  delivery_id = d.delivery_id;
  settlement_id = d.settlement_id;
  status = d.status;
  attempt_count = d.attempt_count;
  response_digest = d.response_digest;
  retry_expires_at = d.retry_expires_at;
}

abbrev pub owned : String → Ledger → DeliveryRow → Option DeliveryLedgerRecord
owned mid db d = of_merchant mid (delivery_select db (some d))

pub owned_lem :
    (mid : String) (db : Ledger) (d : DeliveryRow) (v : DeliveryLedgerRecord)
    → owned mid db d ≡ some v
    → v ≡ restate d v
unfolding delivery_select
owned_lem mid db d v h = ground arith

pub unowned : (mid : String) (db : Ledger) → of_merchant mid (delivery_select db none) ≡ none
unfolding delivery_select
unowned mid db = refl

-- Whose a delivery is, and with what receipt, does not depend on the deliveries' other columns.
pub owned-with_delivery :
    (mid id : String) (f : DeliveryRow → DeliveryRow) (db : Ledger) (d e : DeliveryRow)
    → e.settlement_id ≡ d.settlement_id
    → owned mid (with_delivery id f db) e ≡ Option.map (restate e) (owned mid db d)
unfolding delivery_select
owned-with_delivery mid id f db d e same =
    rw same (elim (Option-cases (quote_of db (find_settlement d.settlement_id db))) [
      | inl absent ↦ rw absent
      | inr (q, found) ↦ elim (Option-cases (find_receipt d.settlement_id db)) [
        | inl absent ↦ rw (found, absent)
        | inr (receipt, found') ↦ rw (found, found') (ground arith)
      ]
    ])

-- A completion that succeeds was of the merchant's claimed delivery, or repeats the digest of a
-- delivered one.
pub complete_cases :
    (db_now : ℕ) (sid mid digest : String) (completed_at : ℕ) (db db' : Ledger)
    (r : Option DeliveryLedgerRecord)
    → complete_delivery db_now sid mid digest completed_at db ≡ ok (r, db')
    → (d : DeliveryRow) × (v : DeliveryLedgerRecord) × (find_delivery sid db ≡ some d)
      × (owned mid db d ≡ some v)
      × (((d.status ≡ DeliveryStatus.delivering)
            × (db' ≡ with_delivery d.delivery_id (delivered_row db_now digest completed_at) db))
          ⊎ ((d.status ≡ DeliveryStatus.delivered)
              × (d.response_digest ≡ some digest)
              × (db' ≡ db)))
unfolding complete_delivery
complete_cases db_now sid mid digest completed_at db db' r h =
    elim (Option-cases (find_delivery sid db)) [
      | inl absent ↦ ground (arith, unowned mid db)
      | inr (d, found) ↦ elim (Option-cases (owned mid db d)) [
        | inl foreign ↦ ground arith
        | inr (v, mine) ↦ (
          d,
          v,
          found,
          mine,
          elim (Option-cases d.response_digest) [
            | inl unset ↦ ground (arith, owned_lem mid db d v mine)
            | inr (old, set) ↦ ground (arith, owned_lem mid db d v mine, eq_iff old digest)
          ],
        )
      ]
    ]

complete_delivered :
    (db_now : ℕ) (sid mid digest old : String) (completed_at : ℕ) (db : Ledger) (d : DeliveryRow)
    (v : DeliveryLedgerRecord)
    → find_delivery sid db ≡ some d
    → owned mid db d ≡ some v
    → d.status ≡ DeliveryStatus.delivered
    → d.response_digest ≡ some old
    → complete_delivery db_now sid mid digest completed_at db
      ≡ (if old == digest then ok (some v, db) else err StoreError.delivery_digest_conflict)
unfolding complete_delivery
complete_delivered db_now sid mid digest old completed_at db d v found mine done set =
    ground (arith, owned_lem mid db d v mine)

-- After a completion the response digest is settled: the delivery is delivered with that digest,
-- completing again with it writes nothing, and any other digest is a conflict.
pub complete_again :
    (db_now : ℕ) (sid mid digest : String) (completed_at : ℕ) (db db' : Ledger)
    (r : Option DeliveryLedgerRecord)
    → complete_delivery db_now sid mid digest completed_at db ≡ ok (r, db')
    → (later : ℕ) (digest' : String) (at' : ℕ)
    → (v : DeliveryLedgerRecord) × (v.status ≡ DeliveryStatus.delivered)
      × (v.response_digest ≡ some digest)
      × (complete_delivery later sid mid digest' at' db' ≡ (
          if digest == digest' then ok (some v, db') else err StoreError.delivery_digest_conflict))
complete_again db_now sid mid digest completed_at db db' r h later digest' at' =
    let (d, v, found, mine, form) = complete_cases db_now sid mid digest completed_at db db' r h in
    elim form [
      | inr (done, set, e) ↦ (
        v,
        ground (arith, owned_lem mid db d v mine),
        ground (arith, owned_lem mid db d v mine),
        rw e (complete_delivered later sid mid digest' digest at' db d v found mine done set),
      )
      | inl (claimed, e) ↦
          let d' = delivered_row db_now digest completed_at d in
          let after = with_delivery d.delivery_id (delivered_row db_now digest completed_at) db in
          (
            restate d' v,
            refl,
            refl,
            rw e (
                complete_delivered later sid mid digest' digest at' after d' (restate d' v)
                  (ground (
                    arith,
                    eq_refl d.delivery_id,
                    find-with_delivery d.delivery_id sid (delivered_row db_now digest completed_at)
                        db (λ x. refl),
                  ))
                  (owned-with_delivery mid d.delivery_id (delivered_row db_now digest completed_at)
                      db d d' refl
                    ∙ ap (Option.map (restate d')) mine)
                  refl refl),
          )
    ]
