-- ===== src/Examples/Stores.antt =====
-- The store's theorems at the sample tables.
use perk_os_nayori_platform.Ledger.Reserve.{reservation_passes}
use perk_os_nayori_platform.Prelude.{
  ◌≡◌, refl, ◌⊎◌, true, false, none, Option, some, [], ◌∷◌, arith, if◌then◌else◌, includes, ok, err,
}
use perk_os_nayori_platform.Prelude.Text.{matches, repeats, strip_prefix, char_length}
use perk_os_nayori_platform.Prelude.Table.{lookup, update}
use perk_os_nayori_platform.Ledger.{
  Ledger, SettlementRow, DeliveryRow, StoreError, passes_checks, find_settlement,
  find_settlement_of_quote, find_delivery,
}
use perk_os_nayori_platform.Ledger.Selecting.{settlement_select}
use perk_os_nayori_platform.Ledger.Reserve.{reserve_settlement, with_reservation}
use perk_os_nayori_platform.Ledger.Status.{failed, broadcast, with_status, update_settlement_status}
use perk_os_nayori_platform.Ledger.Claims.{
  claim_settlements_for_reconciliation, pick_candidates, order_rows, insert_ordered,
}
use perk_os_nayori_platform.Ledger.Reconciling.{confirmed, apply_reconciliation_result}
use perk_os_nayori_platform.Ledger.Deliveries.{
  DeliveryLedgerRecord, claim_delivery, with_delivery, delivering_row, delivery_select,
  find_delivery_by_id,
}
use perk_os_nayori_platform.Ledger.Invariant.{IsSound}
use perk_os_nayori_platform.Ledger.Invariant.Operations.{Reach-IsSound}
use perk_os_nayori_platform.Ledger.Reservations.{IsReservable, IsReservedFor, reserve_sound}
use perk_os_nayori_platform.Ledger.History.{Becomes, Step-Becomes, closed_forever}
use perk_os_nayori_platform.Ledger.StatusLaws.{update_outcome, apply_outcome}
use perk_os_nayori_platform.Ledger.Leases.{Kept}
use perk_os_nayori_platform.Ledger.ClaimLaws.{claimed_ids, claims_exclusive}
use perk_os_nayori_platform.Ledger.DeliveryClaims.{claim_again, is_expired}
use perk_os_nayori_platform.Ledger.Reach.{Step, Reach}
use perk_os_nayori_platform.Examples.Data.{
  after_issue, reservation, after_reserve, after_lease, leased_settlement, confirmation,
  after_confirm, confirmed_settlement,
}
use perk_os_nayori_platform.Examples.Ledgers.{
  after_confirm-Reach, leased_found, after_reserve-IsSound, after_lease-IsSound,
  after_confirm-IsSound, confirm-Step,
}

Reach-IsSound_example : IsSound after_confirm
Reach-IsSound_example = Reach-IsSound after_confirm-Reach

reserve_sound_example :
    ((true ≡ false)
      × (after_reserve ≡ after_issue)
      × (s : SettlementRow) × (find_settlement_of_quote "nq_1" after_issue ≡ some s)
      × (s.txid ≡ reservation.txid)
      × (s.raw_tx_hash ≡ reservation.raw_tx_hash)
      × (settlement_select after_reserve (find_settlement reservation.settlement_id after_reserve)
          ≡ settlement_select after_issue (some s)))
    ⊎ ((true ≡ true)
        × (after_reserve ≡ with_reservation 2000 reservation after_issue)
        × (new : SettlementRow) × (after_reserve.settlements ≡ new ∷ [])
        × IsReservedFor reservation new
        × (q : _) × IsReservable 2000 reservation after_issue q)
unfolding reserve_settlement reservation_passes matches repeats strip_prefix char_length lookup
    update settlement_select
reserve_sound_example = reserve_sound 2000 2000 reservation after_issue after_reserve refl

Step-Becomes_example :
    Becomes leased_settlement (find_settlement "ns_00000000000000000000000000000001" after_confirm)
Step-Becomes_example =
    Step-Becomes "ns_00000000000000000000000000000001" leased_settlement after_lease-IsSound
      confirm-Step leased_found

abbrev after_claim : Ledger
after_claim =
    with_delivery "nd_00000000000000000000000000000001" (delivering_row 5000 5000) after_confirm

claim_refl :
    (r : Option DeliveryLedgerRecord) × (claim_delivery 5000 "ns_00000000000000000000000000000001"
        "nayori-public-resource" 5000 after_confirm
      ≡ ok (r, after_claim))
unfolding claim_delivery lookup update delivery_select
claim_refl = (_, refl)

confirmed_found :
    find_settlement "ns_00000000000000000000000000000001" after_confirm ≡ some confirmed_settlement
unfolding lookup update
confirmed_found = refl

closed_forever_example :
    find_settlement "ns_00000000000000000000000000000001" after_claim ≡ some confirmed_settlement
closed_forever_example =
    closed_forever "ns_00000000000000000000000000000001" confirmed_settlement after_confirm-IsSound
      refl confirmed_found
      (Reach.then Reach.here (
        Step.claim 5000 "ns_00000000000000000000000000000001" "nayori-public-resource" 5000 _
          claim_refl.1))

update_outcome_example :
    update_settlement_status 3500 "ns_00000000000000000000000000000001" failed
      (some "broadcast_rejected")
      3400
      after_lease
    ≡ err (StoreError.other "23514")
update_outcome_example =
    update_outcome 3500 "ns_00000000000000000000000000000001" failed (some "broadcast_rejected")
      3400 after_lease after_lease-IsSound leased_found refl

apply_outcome_example :
    apply_reconciliation_result 4000 (confirmed confirmation) after_lease
    ≡ ok (
      settlement_select after_confirm
          (find_settlement "ns_00000000000000000000000000000001" after_confirm),
      after_confirm,
    )
unfolding matches repeats strip_prefix char_length lookup update
apply_outcome_example =
    apply_outcome 4000 (confirmed confirmation) after_lease {s = leased_settlement}
      after_lease-IsSound leased_found

-- The broadcast was accepted while the lease was running.
abbrev after_broadcast : Ledger
after_broadcast =
    with_status 3500 "ns_00000000000000000000000000000001" broadcast none 3400 after_lease

claims_exclusive_example :
    includes
      (claimed_ids (λ id. false) 10 32000 after_broadcast)
      "ns_00000000000000000000000000000001"
    ≡ false
unfolding claim_settlements_for_reconciliation pick_candidates order_rows insert_ordered update
    lookup update_settlement_status passes_checks
claims_exclusive_example =
    claims_exclusive (λ id. false) (λ id. false) 3000 10 10 3000 32000 33000 after_reserve
      after_lease after_broadcast _ "ns_00000000000000000000000000000001" after_reserve-IsSound refl
      (Kept.then Kept.here
        (Step.move 3500 "ns_00000000000000000000000000000001" broadcast none 3400 _ refl) refl)
      (omega arith) refl

claim_again_example :
    (d : DeliveryRow) × (find_delivery "ns_00000000000000000000000000000001" after_claim ≡ some d)
    × (claim_delivery 6000 "ns_00000000000000000000000000000001" "nayori-public-resource" 6000
          after_claim
        ≡ (if is_expired d.status
            then err StoreError.delivery_expired
            else ok (
              delivery_select after_claim (find_delivery_by_id d.delivery_id after_claim),
              after_claim,
            )))
claim_again_example =
    claim_again 5000 "ns_00000000000000000000000000000001" "nayori-public-resource" 5000
      after_confirm after_claim _ claim_refl.1 6000 6000
