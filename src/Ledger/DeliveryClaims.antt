-- ===== src/Ledger/DeliveryClaims.antt =====
-- What a claim of a delivery leaves for the next claim (src/database.ts).
use mathlib.Core.Option
use perk_os_nayori_platform.Prelude.{
  ℕ, String, ◌≡◌, refl, sym, ap, ◌∙◌, ◌≢◌, inl, inr, Bool, true, false, Option, none, some, arith,
  eq_refl, ltb, if◌then◌else◌, Bool-cases, Option-cases, Result, ok, err,
}
use perk_os_nayori_platform.Ledger.{DeliveryStatus, DeliveryRow, Ledger, StoreError, find_delivery}
use perk_os_nayori_platform.Ledger.Deliveries.{
  DeliveryLedgerRecord, claim_delivery, with_delivery, expired_row, delivering_row, delivery_select,
  find_delivery_by_id,
}
use perk_os_nayori_platform.Ledger.DeliveryLaws.{
  find-with_delivery, restate, owned, owned_lem, unowned, owned-with_delivery,
}

abbrev reselect : String → Ledger → Result StoreError (Option DeliveryLedgerRecord × Ledger)
reselect id db = ok (delivery_select db (find_delivery_by_id id db), db)

abbrev pub claim_result :
    ℕ
    → ℕ
    → DeliveryRow
    → DeliveryStatus
    → Ledger
    → Result StoreError (Option DeliveryLedgerRecord × Ledger)
claim_result db_now claimed_at d DeliveryStatus.delivery_pending db =
    if ltb d.retry_expires_at claimed_at
    then reselect d.delivery_id (with_delivery d.delivery_id (expired_row db_now) db)
    else reselect d.delivery_id (with_delivery d.delivery_id (delivering_row db_now claimed_at) db)
claim_result db_now claimed_at d DeliveryStatus.delivering db = reselect d.delivery_id db
claim_result db_now claimed_at d DeliveryStatus.delivered db = reselect d.delivery_id db
claim_result db_now claimed_at d DeliveryStatus.expired db = err StoreError.delivery_expired
claim_result db_now claimed_at d DeliveryStatus.failed db = err StoreError.delivery_not_found

-- How a claim ends, by the status of the merchant's delivery.
pub claim_outcome :
    (db_now : ℕ) (sid mid : String) (claimed_at : ℕ) (db : Ledger) (d : DeliveryRow)
    (v : DeliveryLedgerRecord)
    → find_delivery sid db ≡ some d
    → owned mid db d ≡ some v
    → claim_delivery db_now sid mid claimed_at db ≡ claim_result db_now claimed_at d d.status db
unfolding claim_delivery
claim_outcome db_now sid mid claimed_at db d v found mine =
    ground (arith, owned_lem mid db d v mine)

abbrev is_started : DeliveryStatus → Bool
is_started DeliveryStatus.delivery_pending = false
is_started DeliveryStatus.failed = false
is_started _ = true

-- After a write of the merchant's delivery the same delivery is found, and is still the merchant's.
written :
    (sid mid : String) (f : DeliveryRow → DeliveryRow) (db : Ledger) (d : DeliveryRow)
    (v : DeliveryLedgerRecord)
    → ((x : DeliveryRow) → (f x).settlement_id ≡ x.settlement_id)
    → find_delivery sid db ≡ some d
    → owned mid db d ≡ some v
    → (find_delivery sid (with_delivery d.delivery_id f db) ≡ some (f d))
      × (owned mid (with_delivery d.delivery_id f db) (f d) ≡ some (restate (f d) v))
written sid mid f db d v keeps found mine = (
  ground (arith, eq_refl d.delivery_id, find-with_delivery d.delivery_id sid f db keeps),
  owned-with_delivery mid d.delivery_id f db d (f d) (keeps d)
      ∙ ap (Option.map (restate (f d))) mine,
)

-- What a claim that succeeds leaves.
Left : String → String → Ledger → Type 0
Left sid mid db =
    (d : DeliveryRow) × (v : DeliveryLedgerRecord) × (find_delivery sid db ≡ some d)
    × (owned mid db d ≡ some v)
    × (is_started d.status ≡ true)

claim_result-Left :
    (db_now : ℕ) (sid mid : String) (claimed_at : ℕ) (db db' : Ledger)
    (r : Option DeliveryLedgerRecord) (d : DeliveryRow) (v : DeliveryLedgerRecord)
    (st : DeliveryStatus)
    → d.status ≡ st
    → find_delivery sid db ≡ some d
    → owned mid db d ≡ some v
    → claim_result db_now claimed_at d st db ≡ ok (r, db')
    → Left sid mid db'
unfolding Left
claim_result-Left db_now sid mid claimed_at db db' r d v DeliveryStatus.delivery_pending is found
      mine h =
    elim (Bool-cases (ltb d.retry_expires_at claimed_at)) [
      | inl over ↦
          let e : db' ≡ with_delivery d.delivery_id (expired_row db_now) db = ground arith in
          let (held, kept) = written sid mid (expired_row db_now) db d v (λ x. refl) found mine in
          rw e (expired_row db_now d, restate (expired_row db_now d) v, held, kept, refl)
      | inr live ↦
          let f = delivering_row db_now claimed_at in
          let e : db' ≡ with_delivery d.delivery_id f db = ground arith in
          let (held, kept) = written sid mid f db d v (λ x. refl) found mine in
          rw e (f d, restate (f d) v, held, kept, refl)
    ]
claim_result-Left db_now sid mid claimed_at db db' r d v DeliveryStatus.delivering is found mine h =
    let e : db' ≡ db = ground arith in rw e (d, v, found, mine, ap is_started is)
claim_result-Left db_now sid mid claimed_at db db' r d v DeliveryStatus.delivered is found mine h =
    let e : db' ≡ db = ground arith in rw e (d, v, found, mine, ap is_started is)
claim_result-Left db_now sid mid claimed_at db db' r d v DeliveryStatus.expired is found mine h =
    ground arith
claim_result-Left db_now sid mid claimed_at db db' r d v DeliveryStatus.failed is found mine h =
    ground arith

claim_absent :
    (db_now : ℕ) (sid mid : String) (claimed_at : ℕ) (db db' : Ledger)
    (r : Option DeliveryLedgerRecord)
    → find_delivery sid db ≡ none
    → claim_delivery db_now sid mid claimed_at db ≢ ok (r, db')
unfolding claim_delivery
claim_absent db_now sid mid claimed_at db db' r absent = ground (arith, unowned mid db)

claim_foreign :
    (db_now : ℕ) (sid mid : String) (claimed_at : ℕ) (db db' : Ledger)
    (r : Option DeliveryLedgerRecord) (d : DeliveryRow)
    → find_delivery sid db ≡ some d
    → owned mid db d ≡ none
    → claim_delivery db_now sid mid claimed_at db ≢ ok (r, db')
unfolding claim_delivery
claim_foreign db_now sid mid claimed_at db db' r d found foreign = ground arith

claim-Left :
    (db_now : ℕ) (sid mid : String) (claimed_at : ℕ) (db db' : Ledger)
    (r : Option DeliveryLedgerRecord)
    → claim_delivery db_now sid mid claimed_at db ≡ ok (r, db')
    → Left sid mid db'
claim-Left db_now sid mid claimed_at db db' r h = elim (Option-cases (find_delivery sid db)) [
  | inl absent ↦ absurd (claim_absent db_now sid mid claimed_at db db' r absent h)
  | inr (d, found) ↦ elim (Option-cases (owned mid db d)) [
    | inl foreign ↦ absurd (claim_foreign db_now sid mid claimed_at db db' r d found foreign h)
    | inr (v, mine) ↦
        claim_result-Left db_now sid mid claimed_at db db' r d v d.status refl found mine
          (sym (claim_outcome db_now sid mid claimed_at db d v found mine) ∙ h)
  ]
]

abbrev pub is_expired : DeliveryStatus → Bool
is_expired DeliveryStatus.expired = true
is_expired _ = false

started_result :
    (db_now claimed_at : ℕ) (d : DeliveryRow) (db : Ledger) (st : DeliveryStatus)
    → is_started st ≡ true
    → claim_result db_now claimed_at d st db
      ≡ (if is_expired st then err StoreError.delivery_expired else reselect d.delivery_id db)
started_result db_now claimed_at d db st h = ground arith

-- A claim that succeeds leaves a delivery that a second claim of the merchant does not change: the
-- second fails if the first found the retry window over, and else it returns the delivery that the
-- first one started, or that was already started, with no further attempt counted.
pub claim_again :
    (db_now : ℕ) (sid mid : String) (claimed_at : ℕ) (db db' : Ledger)
    (r : Option DeliveryLedgerRecord)
    → claim_delivery db_now sid mid claimed_at db ≡ ok (r, db')
    → (later at' : ℕ)
    → (d : DeliveryRow) × (find_delivery sid db' ≡ some d)
      × (claim_delivery later sid mid at' db' ≡ (
          if is_expired d.status
          then err StoreError.delivery_expired
          else ok (delivery_select db' (find_delivery_by_id d.delivery_id db'), db')))
unfolding Left
claim_again db_now sid mid claimed_at db db' r h later at' =
    let (d, v, found, mine, started) = claim-Left db_now sid mid claimed_at db db' r h in
    (
      d,
      found,
      claim_outcome later sid mid at' db' d v found mine
          ∙ started_result later at' d db' d.status started,
    )
