-- ===== src/Ledger/Invariant/Claiming.antt =====
-- Claimed settlements are open, so their leases keep the tables sound
-- (`claimSettlementsForReconciliation`, src/database.ts).
use perk_os_nayori_platform.Prelude.{
  ℕ, String, ◌≡◌, Bool, true, not, ◌&&◌, some, List, [], ◌∷◌, arith, All, includes, All-take,
  All-select,
}
use perk_os_nayori_platform.Prelude.Table.{lookup}
use perk_os_nayori_platform.Prelude.Table.Keys.{IsUnique, All-lookup, All-of_includes}
use perk_os_nayori_platform.Ledger.{SettlementRow, Ledger}
use perk_os_nayori_platform.Ledger.Claims.{
  is_claimable, insert_ordered, order_rows, pick_candidates, picked_ids, with_leases,
}
use perk_os_nayori_platform.Ledger.Invariant.{IsSound, settlement_key}
use perk_os_nayori_platform.Ledger.Invariant.Leasing.{with_leases-IsSound}

module _ {κ} (P : SettlementRow → Type κ) where
  All-insert_ordered :
      (s : SettlementRow) (ts : List SettlementRow) → P s → All P ts → All P (insert_ordered s ts)
  unfolding insert_ordered
  All-insert_ordered s [] p h = (p, tt)
  All-insert_ordered s (t ∷ ts) p (q, h) = ground (arith, All-insert_ordered s ts p h)

  All-order_rows : (ts : List SettlementRow) → All P ts → All P (order_rows ts)
  unfolding order_rows
  All-order_rows [] h = tt
  All-order_rows (t ∷ ts) (p, h) = All-insert_ordered t (order_rows ts) p (All-order_rows ts h)

-- What the candidates query picks is found in the table and claimable.
pub All-pick_candidates :
    (locked : String → Bool) (limit claimed_at : ℕ) (rows : List SettlementRow)
    → IsUnique settlement_key rows
    → All
        (λ s.
          (lookup settlement_key (settlement_key s) rows ≡ some s)
          × ((is_claimable claimed_at s && not (locked s.settlement_id)) ≡ true))
        (pick_candidates locked limit claimed_at rows)
unfolding pick_candidates
All-pick_candidates locked limit claimed_at rows u = All-take _ limit _ (
    All-order_rows _ _ (
      All-select (λ s. lookup settlement_key (settlement_key s) rows ≡ some s)
        (λ s. is_claimable claimed_at s && not (locked s.settlement_id)) rows
        (All-lookup settlement_key rows u)))

-- So is the settlement of each picked id.
pub picked_ids-is_claimable :
    (locked : String → Bool) (limit claimed_at : ℕ) (rows : List SettlementRow) (id : String)
    (s : SettlementRow)
    → IsUnique settlement_key rows
    → includes (picked_ids (pick_candidates locked limit claimed_at rows)) id ≡ true
    → lookup settlement_key id rows ≡ some s
    → (is_claimable claimed_at s && not (locked s.settlement_id)) ≡ true
picked_ids-is_claimable locked limit claimed_at rows id s u picked found =
    All-of_includes settlement_key
      (λ s. (is_claimable claimed_at s && not (locked s.settlement_id)) ≡ true) rows
      (pick_candidates locked limit claimed_at rows) id s
      (All-pick_candidates locked limit claimed_at rows u) picked found

pub claimed-IsSound :
    (locked : String → Bool) (db_now limit claimed_at lease_until : ℕ) (db : Ledger)
    → IsSound db
    → IsSound (
        with_leases db_now lease_until
          (picked_ids (pick_candidates locked limit claimed_at db.settlements))
          db)
claimed-IsSound locked db_now limit claimed_at lease_until db sound =
    with_leases-IsSound db db_now lease_until
      (picked_ids (pick_candidates locked limit claimed_at db.settlements)) sound
      λ j s held picked. ground (
        arith,
        picked_ids-is_claimable locked limit claimed_at db.settlements j s sound.unique picked held,
      )
