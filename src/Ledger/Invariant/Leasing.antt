-- ===== src/Ledger/Invariant/Leasing.antt =====
-- Leases keep the tables sound (src/database.ts).
use mathlib.Core.Option
use perk_os_nayori_platform.Prelude.{
  ℕ, String, ◌≡◌, refl, ap, ◌⊎◌, inl, inr, true, some, List, arith, if◌then◌else◌, Bool-cases,
  Option-cases, includes,
}
use perk_os_nayori_platform.Prelude.Table.{lookup-update, lookup_key}
use perk_os_nayori_platform.Prelude.Table.Keys.{update-IsUnique}
use perk_os_nayori_platform.Ledger.{SettlementRow, Ledger, find_settlement, is_open, passes_checks}
use perk_os_nayori_platform.Ledger.Claims.{leased_row, with_leases}
use perk_os_nayori_platform.Ledger.Invariant.{settlement_key, IsSound}
use perk_os_nayori_platform.Ledger.Invariant.Keeping.{Resembles, Keeps-IsSound}

-- Leases are written on open settlements only.
abbrev AllOpen : List String → Ledger → Type 0
AllOpen ids db =
    (j : String) (s : SettlementRow)
    → find_settlement j db ≡ some s
    → includes ids j ≡ true
    → is_open s.status ≡ true

module _ (db : Ledger) (db_now lease_until : ℕ) (ids : List String) where
  find-with_leases :
      (j : String)
      → find_settlement j (with_leases db_now lease_until ids db)
        ≡ Option.map
            (λ (s : SettlementRow).
              if includes ids s.settlement_id then leased_row db_now lease_until s else s)
            (find_settlement j db)
  find-with_leases j =
      lookup-update settlement_key (λ s. includes ids s.settlement_id)
        (leased_row db_now lease_until) j db.settlements (λ s. refl)

  leased-cases :
      (j : String) (s : SettlementRow)
      → find_settlement j (with_leases db_now lease_until ids db) ≡ some s
      → (o : SettlementRow) × (find_settlement j db ≡ some o)
        × (((includes ids j ≡ true) × (s ≡ leased_row db_now lease_until o)) ⊎ (s ≡ o))
  leased-cases j s h = elim (Option-cases (find_settlement j db)) [
    | inl absent ↦ cc (find-with_leases j, absent, h)
    | inr (o, held) ↦ elim (Bool-cases (includes ids j)) [
      | inl leased ↦ (
        o,
        held,
        inl (
          leased,
          ground (arith, find-with_leases j, lookup_key settlement_key j db.settlements o held),
        ),
      )
      | inr free ↦ (
        o,
        held,
        inr (ground (arith, find-with_leases j, lookup_key settlement_key j db.settlements o held)),
      )
    ]
  ]

  resembles :
      {s o : SettlementRow} {held : Type 0}
      → (held × (s ≡ leased_row db_now lease_until o)) ⊎ (s ≡ o)
      → Resembles s o
  resembles (inl (_, e)) = record {
    same_id = ap settlement_key e;
    same_quote = ap (λ (r : SettlementRow). r.quote_id) e;
    same_network = ap (λ (r : SettlementRow). r.network) e;
    same_txid = ap (λ (r : SettlementRow). r.txid) e;
    same_status = ap (λ (r : SettlementRow). r.status) e;
  }
  resembles (inr e) = record {
    same_id = ap settlement_key e;
    same_quote = ap (λ (r : SettlementRow). r.quote_id) e;
    same_network = ap (λ (r : SettlementRow). r.network) e;
    same_txid = ap (λ (r : SettlementRow). r.txid) e;
    same_status = ap (λ (r : SettlementRow). r.status) e;
  }

  -- Leases on open settlements keep the tables sound.
  pub with_leases-IsSound :
      IsSound db → AllOpen ids db → IsSound (with_leases db_now lease_until ids db)
  unfolding passes_checks
  with_leases-IsSound sound opened = Keeps-IsSound sound (record {
    unique = update-IsUnique settlement_key _ _ db.settlements (λ s. refl) sound.unique;
    settlement = λ j s h. let (o, held, form) = leased-cases j s h in (o, held, resembles form);
    absent = λ j h. ground (arith, find-with_leases j);
    checked = λ j s h.
        let (o, held, form) = leased-cases j s h in
        ground (arith, (sound.settled j o held).checked, opened j o held);
    quote = λ j q h. h;
    receipt = λ j. refl;
    delivery = λ j. refl;
    logged = λ j. refl;
  })
