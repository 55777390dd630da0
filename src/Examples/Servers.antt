-- ===== src/Examples/Servers.antt =====
-- The theorems on the resource server and on the migrations, at concrete calls.
use perk_os_nayori_platform.Prelude.{
  ℕ, ◌+◌, String, ◌≡◌, refl, true, Option, none, some, List, [], ◌∷◌, All, ok,
}
use perk_os_nayori_platform.Prelude.Table.{lookup}
use perk_os_nayori_platform.Ledger.{SettlementStatus, DeliveryStatus}
use perk_os_nayori_platform.Settlement.{PublicSettlement, PublicDelivery}
use perk_os_nayori_platform.Facilitator.{Facilitator}
use perk_os_nayori_platform.Resource.{CapabilityReport, capability_report}
use perk_os_nayori_platform.Migrations.{
  MigrationFile, Database, run_migrations, run_files, apply_migration,
}
use perk_os_nayori_platform.Migrations.Laws.{Keeps, IsRecorded, run_migrations_lem}

abbrev id : String
id = "ns_00000000000000000000000000000001"

abbrev pub settlement : PublicSettlement
settlement = record {
  settlement_id = id;
  quote_id = "nq_1";
  network = "stacks:1";
  txid = "0x0000000000000000000000000000000000000000000000000000000000000001";
  payer = "SP2";
  status = SettlementStatus.confirmed;
  failure_reason = none;
  broadcast_attempted_at = some 2000;
  broadcast_at = some 2000;
  created_at = 2000;
  updated_at = 4000;
  confirmed = true;
  receipt = some "receipt";
  delivery_available = true;
  delivery = none;
}

abbrev pub delivery : DeliveryStatus → PublicDelivery
delivery status = record {
  delivery_id = "nd_00000000000000000000000000000001";
  settlement_id = id;
  status = status;
  attempt_count = 1;
  response_digest = none;
  retry_expires_at = 90000;
  receipt_id = "nr_00000000000000000000000000000001";
  receipt = "receipt";
}

-- A facilitator that counts its calls.
abbrev pub facilitator : Facilitator ℕ String
facilitator = record {
  settle = λ payment signed_quote n. (ok settlement, n + 1);
  get_settlement = λ i n. (ok settlement, n + 1);
  claim_delivery = λ i n. (ok (delivery DeliveryStatus.delivering), n + 1);
  complete_delivery = λ i digest n. (ok (delivery DeliveryStatus.delivered), n + 1);
}

abbrev pub digest : CapabilityReport → String
digest body = body.transaction

abbrev pub report : CapabilityReport
report = capability_report settlement "receipt"

abbrev files : List MigrationFile
files =
    record { version = "001"; filename = "001_a.sql"; checksum = "c1"; sql = "A" }
    ∷ record { version = "002"; filename = "002_b.sql"; checksum = "c2"; sql = "B" }
    ∷ []

abbrev execute : String → ℕ → Option ℕ
execute sql n = some (n + 1)

abbrev fresh : Database ℕ
fresh = record { schema = 0; applied = [] }

abbrev migrated : Database ℕ
migrated = (run_migrations execute files fresh).1

run_migrations_lem_example :
    Keeps execute [] migrated.applied
    × All (IsRecorded execute migrated.applied) files
    × (run_migrations execute files migrated ≡ (ok tt, migrated))
unfolding run_migrations run_files apply_migration lookup
run_migrations_lem_example = run_migrations_lem execute files fresh migrated refl
