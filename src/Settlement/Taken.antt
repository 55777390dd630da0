-- ===== src/Settlement/Taken.antt =====
-- Quotes that have a settlement (src/settlement.ts over src/database.ts).
use perk_os_nayori_platform.Prelude.{
  ℕ, String, ◌≡◌, refl, ◌∙◌, false, some, arith, eq_iff, eq_refl, any,
}
use perk_os_nayori_platform.Prelude.Table.{lookup, lookup_of_any}
use perk_os_nayori_platform.Ledger.{Ledger, SettlementRow, find_settlement}
use perk_os_nayori_platform.Ledger.Reserve.{
  SettlementReservation, with_reservation, clashes_with, validated_row,
}
use perk_os_nayori_platform.Ledger.Invariant.{IsSound, settlement_key}
use perk_os_nayori_platform.Ledger.Invariant.Operations.{Reach-IsSound_from}
use perk_os_nayori_platform.Ledger.History.{Step-Becomes}
use perk_os_nayori_platform.Ledger.Reach.{Reach}
use perk_os_nayori_platform.Settlement.{Moments}

-- The quote has a settlement.
abbrev pub IsTaken : String → Ledger → Type 0
IsTaken quote_id db =
    (id : String) × (s : SettlementRow) × (find_settlement id db ≡ some s) × (s.quote_id ≡ quote_id)

-- The other processes use the store's transactions only.
pub record IsCommitting (m : Moments) : Type 0 where
  pub find : (db : Ledger) → Reach db (m.before_find db)
  pub reserve : (db : Ledger) → Reach db (m.before_reserve db)
  pub update : (db : Ledger) → Reach db (m.before_update db)

pub IsTaken-Reach :
    {db db' : Ledger} {quote_id : String}
    → IsSound db
    → Reach db db'
    → IsTaken quote_id db
    → IsTaken quote_id db'
IsTaken-Reach sound Reach.here taken = taken
IsTaken-Reach sound (Reach.then r st) taken =
    let (id, s, found, same) = IsTaken-Reach sound r taken in
    let (t, found', f) = Step-Becomes id s (Reach-IsSound_from sound r) st found in
    (id, t, found', f.same_quote ∙ same)

pub taken-clashes :
    (input : SettlementReservation) (db : Ledger)
    → IsTaken input.quote_id db
    → any (clashes_with input) db.settlements ≡ false
    → ⊥
taken-clashes input db (id, s, found, same) free = ground (
  arith,
  same,
  lookup_of_any settlement_key (clashes_with input) id db.settlements s free found,
  eq_iff s.quote_id input.quote_id,
)

pub reserved-IsTaken :
    (db_now : ℕ) (input : SettlementReservation) (db : Ledger)
    → IsTaken input.quote_id (with_reservation db_now input db)
unfolding lookup
reserved-IsTaken db_now input db = (
  input.settlement_id,
  validated_row db_now input,
  ground (arith, eq_refl input.settlement_id),
  refl,
)
