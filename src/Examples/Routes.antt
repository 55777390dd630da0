-- ===== src/Examples/Routes.antt =====
-- The theorems on the routes, the MPP resource and public payments, at concrete calls.
use perk_os_nayori_platform.Prelude.{
  ℕ, ◌+◌, String, ◌≡◌, refl, true, false, Option, none, some, [], ◌∷◌, Result, ok, err,
}
use perk_os_nayori_platform.Prelude.Text.{matches, repeats, strip_prefix}
use perk_os_nayori_platform.Prelude.Map
use perk_os_nayori_platform.Prelude.Table.{lookup, update}
use perk_os_nayori_platform.Prelude.Json.{Value, find_field}
use perk_os_nayori_platform.Merchant.{Network}
use perk_os_nayori_platform.Ledger.{DeliveryStatus}
use perk_os_nayori_platform.Ledger.Selecting.{settlement_select}
use perk_os_nayori_platform.Ledger.Status.{find_settlement_for_merchant}
use perk_os_nayori_platform.Ledger.Deliveries.{claim_delivery, complete_delivery, delivery_select}
use perk_os_nayori_platform.Limiter.{consume}
use perk_os_nayori_platform.Quoting.{IssuedQuoteResult}
use perk_os_nayori_platform.Settlement.{PublicSettlement}
use perk_os_nayori_platform.Settlement.Validation.{authenticate}
use perk_os_nayori_platform.Settlement.Serving.{get, get_settlement, claim, complete}
use perk_os_nayori_platform.Facilitator.{FacilitatorClientError, Facilitator, request}
use perk_os_nayori_platform.Resource
use perk_os_nayori_platform.Resource.{CapabilityReport, capability_report}
use perk_os_nayori_platform.Resource.Laws.{IsPaid}
use perk_os_nayori_platform.MppResource
use perk_os_nayori_platform.MppResource.{MppReceipt, MppResourceResult, receipt_of}
use perk_os_nayori_platform.MppResource.Laws.{IsReceiptOf, mpp_submit_delivered}
use perk_os_nayori_platform.Oauth.{has_only}
use perk_os_nayori_platform.App.{AppConfig, get_route, claim_route, complete_route}
use perk_os_nayori_platform.App.Resources.{
  MppResourceService, ResourceRequest, resource_query, paid_route, mpp_route, paid_service,
}
use perk_os_nayori_platform.App.Laws.{IsChallenge, payment_required_challenged}
use perk_os_nayori_platform.App.Served.{Wire, Running, served_facilitator}
use perk_os_nayori_platform.App.Recorded.{IsRecorded, reported-IsRecorded}
use perk_os_nayori_platform.Examples.Data.{after_confirm}
use perk_os_nayori_platform.Examples.Payments.{config, services, moments}
use perk_os_nayori_platform.Examples.Servers.{settlement, delivery, facilitator, digest, report}

abbrev encode_receipt : MppReceipt → Option String
encode_receipt r = some r.reference

mpp_submit_delivered_example :
    (credential : String) × (s : PublicSettlement) × ◌≡◌ {A = Option String}
      (some "credential")
      (some credential)
    × ◌≡◌ {A = Result FacilitatorClientError PublicSettlement} (ok settlement) (ok s)
    × IsPaid facilitator digest s report 1 3
    × (p : MppReceipt) × (encode_receipt p
        ≡ some "0x0000000000000000000000000000000000000000000000000000000000000001")
    × IsReceiptOf Network.mainnet s p
unfolding MppResource.submit MppResource.normalize_settlement MppResource.deliver
mpp_submit_delivered_example =
    mpp_submit_delivered facilitator Network.mainnet digest encode_receipt (λ s. 6) some
      "credential" "quote" report
      "0x0000000000000000000000000000000000000000000000000000000000000001" 0 3 refl

abbrev refusing : MppResourceService ℕ String
refusing = record {
  create_challenge = λ n. (ok "challenge", n + 1);
  submit = λ credential quote n. (err (MppResource.failure "amount_mismatch" 402), n + 1);
  retrieve = λ id n. (err (MppResource.failure "settlement_not_found" 404), n + 1);
}

abbrev submission : ResourceRequest
submission = record { query = []; payment = some "credential"; signed_quote = some "quote" }

payment_required_challenged_example :
    IsChallenge
      (λ s. s)
      "https://nayori.example/mpp/v1"
      refusing
      (mpp_route (λ s. s) "https://nayori.example/mpp/v1" refusing submission 0).0
unfolding mpp_route resource_query
payment_required_challenged_example =
    payment_required_challenged (λ s. s) "https://nayori.example/mpp/v1" refusing submission 0 refl

abbrev app : AppConfig
app = record { oauth_enabled = true; oauth_resource_origin = "https://nayori.example" }

abbrev wire : Wire
wire = record {
  settled_json = λ r. Value.null;
  settled_of = λ v. record { settlement = settlement; replayed = false };
  settlement_json = λ s. Value.null;
  settlement_of = λ v. settlement;
  delivery_json = λ d. Value.null;
  delivery_of = λ v. delivery DeliveryStatus.delivering;
}

abbrev started : Running
started = record { world = record { ledger = after_confirm; windows = []; sent = [] }; calls = 0 }

abbrev report_digest : CapabilityReport → String
report_digest body = "0000000000000000000000000000000000000000000000000000000000000001"

abbrev issue_quote : Running → Result FacilitatorClientError IssuedQuoteResult × Running
issue_quote s =
    (err (record { code = "facilitator_unavailable"; status = 503; retry_after_seconds = none }), s)

abbrev poll : ResourceRequest
poll = record {
  query = ("settlement", "ns_00000000000000000000000000000001") ∷ [];
  payment = none;
  signed_quote = none;
}

abbrev settle_json : String → String → Value
settle_json payment signed_quote = Value.null

abbrev served : Facilitator Running String
served = served_facilitator app config services wire (λ n. moments) "key" settle_json

abbrev finished : Running
finished =
    (paid_route (λ s. s) "https://nayori.example/v1"
      (paid_service served report_digest (λ s. 6) some "https://nayori.example/v1" issue_quote) poll
      started).1

reported-IsRecorded_example :
    IsRecorded app config services wire
      (λ n. moments)
      "key"
      settle_json
      report_digest
      (λ s. 6)
      some
      "https://nayori.example/v1"
      issue_quote
      (λ s. s)
      poll
      report
      started
      finished
      9000
      9000
      "other"
unfolding paid_route resource_query Resource.retrieve Resource.normalize_settlement Resource.deliver
    served_facilitator get_route claim_route complete_route get get_settlement claim complete
    authenticate consume find_settlement_for_merchant settlement_select claim_delivery
    complete_delivery lookup update matches repeats strip_prefix request has_only find_field Map.get
    Map.put delivery_select
reported-IsRecorded_example =
    reported-IsRecorded app config services wire (λ n. moments) "key" settle_json report_digest
      (λ s. 6) some "https://nayori.example/v1" issue_quote (λ s. s) poll report none started
      finished 9000 9000 "other" refl
