-- ===== src/Examples/Payments.antt =====
-- The theorems on the settlement service and on the issuing of quotes, at concrete calls.
use perk_os_nayori_platform.Prelude.Text.{matches, repeats, strip_prefix, char_length}
use perk_os_nayori_platform.Ledger.Reserve.{reservation_passes}
use perk_os_nayori_platform.Prelude.{
  String, ◌≡◌, refl, ap, ◌≢◌, ◌↔◌, true, false, none, some, [], arith, length, ok, err,
}
use mathlib.Core.Logic.{◌≢◌}
use perk_os_nayori_platform.Prelude.Table.{lookup, update}
use perk_os_nayori_platform.Merchant.{Network}
use perk_os_nayori_platform.Broadcast.{BroadcastResult, accepted}
use perk_os_nayori_platform.Ledger.{
  SettlementRow, QuoteRow, find_settlement, find_quote, is_confirmed, is_found, passes_checks,
}
use perk_os_nayori_platform.Ledger.Selecting.{settlement_select, settlement_record}
use perk_os_nayori_platform.Ledger.Reserve.{reserve_settlement}
use perk_os_nayori_platform.Ledger.Status.{update_settlement_status, find_settlement_for_merchant}
use perk_os_nayori_platform.Ledger.Reconciling.{new_delivery}
use perk_os_nayori_platform.Prelude.Text.{matches, repeats, strip_prefix}
use perk_os_nayori_platform.Ledger.Reach.{Reach}
use perk_os_nayori_platform.Ledger.Invariant.Operations.{Reach-IsSound}
use perk_os_nayori_platform.Settlement.{
  Config, Services, Moments, World, service, VerifiedPayment, ValidatedPayment, PublicSettlement,
}
use perk_os_nayori_platform.Settlement.Public.{public_settlement}
use perk_os_nayori_platform.Settlement.Validation.{validate_quote}
use perk_os_nayori_platform.Settlement.Settling.{
  settle_validated, settle_with, settle_reserved, record_outcome, normalized_outcome,
  reservation_of,
}
use perk_os_nayori_platform.Settlement.Serving.{get_settlement}
use perk_os_nayori_platform.Settlement.Checks.{IsValidQuote, validate_quote_iff, as_quote}
use perk_os_nayori_platform.Settlement.Broadcasts.{Sends, settle_validated_lem, broadcast_once}
use perk_os_nayori_platform.Settlement.Taken.{IsCommitting}
use perk_os_nayori_platform.Settlement.Replays.{settle_again}
use perk_os_nayori_platform.Settlement.Access.{get_settlement_sound}
use perk_os_nayori_platform.Signing.{VerifiedQuoteToken}
use perk_os_nayori_platform.Examples.Data.{
  quote_row, after_issue, after_reserve, after_confirm, confirmation, settlement_row,
  confirmed_settlement,
}
use perk_os_nayori_platform.Examples.Ledgers.{after_issue-Reach, after_confirm-IsSound}
use perk_os_nayori_platform.Examples.Calls.{merchant, token}

abbrev pub config : Config
config = record {
  stacks_network = Network.mainnet;
  delivery_ledger_enabled = true;
  payment_rate_limit_per_minute = 60;
}

abbrev payment : VerifiedPayment
payment = record {
  sponsored = false;
  transaction_id = some "0x0000000000000000000000000000000000000000000000000000000000000001";
  x402_network = "stacks:1";
  asset = "usdcx";
  amount = 100;
  payer = "SP2";
  pay_to = "SP1";
  transaction = "raw";
}

abbrev broadcaster : String → BroadcastResult
broadcaster transaction =
    accepted "0x0000000000000000000000000000000000000000000000000000000000000001"

abbrev pub services : Services
services = record {
  authenticate = λ authorization scope. ok merchant;
  verify_token = λ signed now. some token;
  sha256 = λ s. "00000000000000000000000000000000000000000000000000000000000000c1";
  sha256_of_hex = λ s. "00000000000000000000000000000000000000000000000000000000000000d1";
  parse_payment = λ input. none;
  parse_mpp_payment = λ input. none;
  verifier = λ request q now. ok payment;
  mpp_challenge = λ q host. some "challenge";
  mpp_verifier = λ request challenge q now. ok payment;
  x402_network = λ network. "stacks:1";
  hostname = λ url. "acme.example";
  broadcaster = some broadcaster;
}

abbrev pub moments : Moments
moments = record {
  consumed_at = 2000;
  verified_at = 2000;
  checked_at = 2000;
  proved_at = 2000;
  date_now = 2000;
  reserved_at = 2000;
  attempted_at = 2000;
  updated_at = 2000;
  new_settlement_id = "ns_00000000000000000000000000000001";
  before_find = λ db. db;
  before_reserve = λ db. db;
  before_update = λ db. db;
}

moments-IsCommitting : IsCommitting moments
moments-IsCommitting = record {
  find = λ db. Reach.here;
  reserve = λ db. Reach.here;
  update = λ db. Reach.here;
}

abbrev validated : ValidatedPayment
validated = record {
  merchant = merchant;
  token = token;
  payment = payment;
  transaction_id = "0x0000000000000000000000000000000000000000000000000000000000000001";
  signed_token_hash = "00000000000000000000000000000000000000000000000000000000000000c1";
}

abbrev other_validated : ValidatedPayment
other_validated = record validated { transaction_id = "0x02" }

abbrev world : World
world = record { ledger = after_issue; windows = []; sent = [] }

abbrev settled_world : World
settled_world = (settle_validated config services moments validated world).1

settle_validated_lem_example :
    Reach after_issue settled_world.ledger × Sends config services validated world settled_world
settle_validated_lem_example =
    settle_validated_lem config services moments validated world moments-IsCommitting
      (Reach-IsSound after_issue-Reach)

it_sent : settled_world.sent ≢ world.sent
unfolding settle_validated settle_with reserve_settlement reservation_passes matches repeats
    strip_prefix char_length settle_reserved record_outcome reservation_of normalized_outcome lookup
    update settlement_select update_settlement_status passes_checks
it_sent h =
    let one : length settled_world.sent ≡ 1 = refl in
    let none : length settled_world.sent ≡ 0 = ap length h in omega (arith, one, none)

broadcast_once_example :
    (settle_validated config services moments other_validated settled_world).1.sent
    ≡ settled_world.sent
broadcast_once_example =
    broadcast_once config services moments moments validated other_validated world settled_world
      moments-IsCommitting moments-IsCommitting (Reach-IsSound after_issue-Reach) it_sent Reach.here
      refl

abbrev reserved_world : World
reserved_world = record { ledger = after_reserve; windows = []; sent = [] }

settle_again_example :
    settle_with config services moments broadcaster other_validated reserved_world
    ≡ (err (service "payment_replayed" 409 none), reserved_world)
unfolding lookup update
settle_again_example =
    settle_again config services moments broadcaster other_validated reserved_world
      {s = settlement_row} refl refl refl refl

abbrev shown : PublicSettlement
shown =
    public_settlement
      (settlement_record confirmed_settlement quote_row (some confirmation.receipt)
        (some (new_delivery 4000 confirmation)))
      true

get_settlement_sound_example :
    (s : SettlementRow) × (q : QuoteRow) × (find_settlement "ns_00000000000000000000000000000001"
        after_confirm
      ≡ some s)
    × (find_quote s.quote_id after_confirm ≡ some q)
    × (q.merchant_id ≡ merchant.merchant_id)
    × (shown.settlement_id ≡ settlement_row.settlement_id)
    × (shown.status ≡ s.status)
    × (shown.confirmed ≡ is_confirmed s.status)
    × (is_found shown.receipt ≡ is_confirmed s.status)
unfolding get_settlement find_settlement_for_merchant lookup update settlement_select matches
    repeats strip_prefix
get_settlement_sound_example =
    get_settlement_sound config services "ns_00000000000000000000000000000001" merchant
      after_confirm shown after_confirm-IsSound refl

validate_quote_iff_example :
    (validate_quote config services moments merchant "signed" true after_issue
      ≡ ok (as_quote config services merchant token "signed"))
    ↔ ((t : VerifiedQuoteToken) × IsValidQuote config services moments merchant "signed" true
          after_issue t
        × (as_quote config services merchant token "signed"
            ≡ as_quote config services merchant t "signed"))
validate_quote_iff_example =
    validate_quote_iff config services moments merchant "signed" true after_issue
      (as_quote config services merchant token "signed")
