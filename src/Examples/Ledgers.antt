-- ===== src/Examples/Ledgers.antt =====
-- The sample tables are reached, and so are sound.
use perk_os_nayori_platform.Prelude.Text.{all_chars}
use perk_os_nayori_platform.Ledger.Quotes.{quote_passes}
use perk_os_nayori_platform.Ledger.Reserve.{reservation_passes}
use perk_os_nayori_platform.Prelude.{◌≡◌, refl, false, some, arith}
use perk_os_nayori_platform.Prelude.Text.{matches, repeats, strip_prefix, char_length}
use perk_os_nayori_platform.Prelude.Table.{lookup, update}
use perk_os_nayori_platform.Ledger.{find_settlement}
use perk_os_nayori_platform.Ledger.Quotes.{insert_issued_quote}
use perk_os_nayori_platform.Ledger.Claims.{
  claim_settlements_for_reconciliation, pick_candidates, order_rows, insert_ordered,
}
use perk_os_nayori_platform.Ledger.Reconciling.{confirmed}
use perk_os_nayori_platform.Ledger.Reservations.{IsReservable, reserve_creates}
use perk_os_nayori_platform.Ledger.StatusLaws.{apply_outcome}
use perk_os_nayori_platform.Ledger.Invariant.{IsSound}
use perk_os_nayori_platform.Ledger.Invariant.Operations.{Reach-IsSound}
use perk_os_nayori_platform.Ledger.Reach.{Step, Reach, empty}
use perk_os_nayori_platform.Examples.Data.{
  issued_quote, quote_row, after_issue, reservation, after_reserve, after_lease, leased_settlement,
  confirmation, after_confirm,
}

pub after_issue-Reach : Reach empty after_issue
unfolding insert_issued_quote quote_passes matches repeats strip_prefix char_length all_chars
after_issue-Reach = Reach.then Reach.here (Step.issue 1000 issued_quote refl)

pub reservation-IsReservable : IsReservable 2000 reservation after_issue quote_row
unfolding lookup reservation_passes matches repeats strip_prefix char_length
reservation-IsReservable = record {
  quote = refl;
  owner = refl;
  token = refl;
  status = refl;
  live = omega arith;
  passes = refl;
  unused = refl;
}

pub after_reserve-Reach : Reach empty after_reserve
after_reserve-Reach =
    let (r, e, _, _, _) =
      reserve_creates 2000 2000 reservation after_issue {q = quote_row} reservation-IsReservable in
    Reach.then after_issue-Reach (Step.reserve 2000 2000 reservation _ e)

pub after_lease-Reach : Reach empty after_lease
unfolding claim_settlements_for_reconciliation pick_candidates order_rows insert_ordered update
after_lease-Reach =
    Reach.then after_reserve-Reach (Step.lease (λ id. false) 3000 10 3000 33000 _ refl)

pub leased_found :
    find_settlement "ns_00000000000000000000000000000001" after_lease ≡ some leased_settlement
unfolding lookup update
leased_found = refl

pub after_reserve-IsSound : IsSound after_reserve
after_reserve-IsSound = Reach-IsSound after_reserve-Reach

pub after_lease-IsSound : IsSound after_lease
after_lease-IsSound = Reach-IsSound after_lease-Reach

pub confirm-Step : Step after_lease after_confirm
unfolding matches repeats strip_prefix char_length lookup update
confirm-Step = Step.reconcile 4000 (confirmed confirmation) _ refl (
    apply_outcome 4000 (confirmed confirmation) after_lease {s = leased_settlement}
      after_lease-IsSound leased_found)

pub after_confirm-Reach : Reach empty after_confirm
after_confirm-Reach = Reach.then after_lease-Reach confirm-Step

pub after_confirm-IsSound : IsSound after_confirm
after_confirm-IsSound = Reach-IsSound after_confirm-Reach
