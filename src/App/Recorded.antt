-- ===== src/App/Recorded.antt =====
-- A report that `GET /v1` hands over is recorded in the tables (src/app.ts, src/paid-resource.ts,
-- src/facilitator-client.ts, src/settlement.ts and src/database.ts together).
use perk_os_nayori_platform.Prelude.{
  ℕ, String, ◌≡◌, refl, sym, inl, inr, true, false, Option, some, arith, ◌==◌, if◌then◌else◌,
  Bool-cases, Result, ok, err, Result-cases,
}
use perk_os_nayori_platform.Prelude.Json.{Value, string, object, field, end, find_field}
use perk_os_nayori_platform.Merchant.{MerchantRecord}
use perk_os_nayori_platform.Auth.{OauthScope}
use perk_os_nayori_platform.Broadcast.{is_ok}
use perk_os_nayori_platform.Ledger.{DeliveryStatus, StoreError}
use perk_os_nayori_platform.Ledger.Deliveries.{DeliveryLedgerRecord, complete_delivery}
use perk_os_nayori_platform.Ledger.DeliveryLaws.{complete_again}
use perk_os_nayori_platform.Oauth.{has_only}
use perk_os_nayori_platform.Quoting.{IssuedQuoteResult}
use perk_os_nayori_platform.Settlement.{
  Failure, service, thrown, PublicSettlement, PublicDelivery, Config, Services, Moments, World,
  is_response_digest,
}
use perk_os_nayori_platform.Settlement.Public.{truthy}
use perk_os_nayori_platform.Settlement.Serving.{complete}
use perk_os_nayori_platform.Facilitator.{FacilitatorClientError, Facilitator}
use perk_os_nayori_platform.Resource.{CapabilityReport}
use perk_os_nayori_platform.App.{AppConfig, complete_route, failure_response}
use perk_os_nayori_platform.App.Resources.{
  ResourceRequest, reported, resource_query, paid_route, paid_service,
}
use perk_os_nayori_platform.App.Paying.{IsAskedFor, paid_route_reported}
use perk_os_nayori_platform.App.Served.{
  Wire, Running, authorization, served_complete, served_facilitator,
}
use perk_os_nayori_platform.App.Delivering.{
  received_ok, is_refusal, complete-is_refusal, complete_ok, Stored,
}

abbrev digest_json : String → Value
digest_json digest = object (field "responseDigest" (string digest) end)

refused_status :
    (A : Type 0) (app : AppConfig) (realm scope : String) (e : Failure)
    → is_refusal e ≡ true
    → is_ok (failure_response {A = A} app realm scope e).status ≡ false
unfolding failure_response
refused_status A app realm scope (thrown message) h = refl
refused_status A app realm scope (service code status retry) h = ground arith

module _ (app : AppConfig) (config : Config) (services : Services) where
  complete_route_ok :
      (m : Moments) (key : Option String) (id digest : String) (w : World)
      → is_ok (complete_route app config services m key id (some (digest_json digest)) w).0.status
        ≡ true
      → (d : PublicDelivery) × (complete config services m key id digest w
          ≡ (ok d, (complete_route app config services m key id (some (digest_json digest)) w).1))
  unfolding complete_route has_only find_field
  complete_route_ok m key id digest w h = elim (Bool-cases (is_response_digest digest)) [
    | inr bad ↦ ground arith
    | inl good ↦
        let answer = complete config services m key id digest w in
        elim (Result-cases answer.0) [
          | inl (d, done) ↦ (d, ground arith)
          | inr (e, refused) ↦
              let r =
                complete-is_refusal config services m key id digest w answer.1 e (ground arith) in
              let s = refused_status PublicDelivery app "nayori-settlement" "payments:settle" e r in
              ground (arith, s)
        ]
  ]

module _ (app : AppConfig) (config : Config) (services : Services) (wire : Wire) (at : ℕ → Moments)
    (key : String) {Payment : Type 0} (settle_json : Payment → String → Value) where
  served_complete_ok :
      (id digest : String) (d : PublicDelivery) (s s' : Running)
      → served_complete app config services wire at key settle_json id digest s ≡ (ok d, s')
      → (merchant : MerchantRecord) × (m : Moments) × (w0 : World) × (services.authenticate
            (authorization app config services wire at key settle_json)
            OauthScope.payments_settle
          ≡ ok merchant)
        × Stored config services m id digest merchant w0 s'.world.ledger
  served_complete_ok id digest d s s' h =
      let k = authorization app config services wire at key settle_json in
      let m = at s.calls in
      let r = complete_route app config services m k id (some (digest_json digest)) s.world in
      let good : is_ok r.0.status ≡ true =
        received_ok wire.delivery_json wire.delivery_of r.0 d (ground arith) in
      let (d', done) = complete_route_ok app config services m k id digest s.world good in
      let (merchant, w0, known, stored) =
        complete_ok config services m k id digest s.world r.1 d' done in
      let e : r.1 ≡ s'.world = ground arith in (merchant, m, w0, known, rw (sym e) stored)

  module _ (digest : CapabilityReport → String) (text_length : String → ℕ)
      (decode : String → Option Payment) (url : String)
      (issue_quote : Running → Result FacilitatorClientError IssuedQuoteResult × Running)
      (encode : String → String) where
    abbrev facilitator : Facilitator Running Payment
    facilitator = served_facilitator app config services wire at key settle_json

    -- The report is that of a delivery which the tables hold.
    pub record IsRecorded (r : ResourceRequest) (body : CapabilityReport) (s s' : Running)
        (later at' : ℕ) (digest' : String) : Type 0 where
      pub settlement : PublicSettlement
      pub s0 : Running
      pub merchant : MerchantRecord
      pub delivery : DeliveryLedgerRecord
      pub asked :
          IsAskedFor facilitator digest text_length decode url issue_quote encode
            (resource_query r.query)
            (truthy r.payment)
            (truthy r.signed_quote)
            s
            settlement
            s0
      pub known :
          services.authenticate
            (authorization app config services wire at key settle_json)
            OauthScope.payments_settle
          ≡ ok merchant
      pub delivered : delivery.status ≡ DeliveryStatus.delivered
      pub recorded : delivery.response_digest ≡ some (digest body)
      pub again :
          complete_delivery later settlement.settlement_id merchant.merchant_id digest' at'
            s'.world.ledger
          ≡ (if digest body == digest'
              then ok (some delivery, s'.world.ledger)
              else err StoreError.delivery_digest_conflict)

    -- When `GET /v1` answers with a report, the settlement that the request asked for or paid has a
    -- delivery of the resource server's merchant that the tables which the request leaves hold as
    -- delivered with the digest of that report: on those tables, whatever the clocks say, completing
    -- the delivery again is answered with that same delivery for the same digest and with a conflict
    -- for any other.
    pub reported-IsRecorded :
        (r : ResourceRequest) (body : CapabilityReport) (receipt : Option String) (s s' : Running)
        (later at' : ℕ) (digest' : String)
        → paid_route encode url
            (paid_service
              (served_facilitator app config services wire at key settle_json)
              digest
              text_length
              decode
              url
              issue_quote)
            r
            s
          ≡ (reported body receipt, s')
        → IsRecorded r body s s' later at' digest'
    unfolding served_facilitator
    reported-IsRecorded r body receipt s s' later at' digest' h =
        let (settlement, s0, asked, paid) =
          paid_route_reported facilitator digest text_length decode url issue_quote encode r body
            receipt s s' h in
        let (merchant, m, w0, known, (stored, done)) =
          served_complete_ok settlement.settlement_id (digest body) paid.completion
            paid.claimed_state s' paid.completed in
        let (v, status, recorded, again) =
          complete_again m.updated_at settlement.settlement_id merchant.merchant_id (digest body)
            m.date_now w0.ledger s'.world.ledger (some stored) done later digest' at' in
        record {
          settlement = settlement;
          s0 = s0;
          merchant = merchant;
          delivery = v;
          asked = asked;
          known = known;
          delivered = status;
          recorded = recorded;
          again = again;
        }
