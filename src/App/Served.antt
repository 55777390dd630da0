-- ===== src/App/Served.antt =====
-- The facilitator that the resource servers call, as the routes of the settlement service serve it
-- (src/facilitator-client.ts on one side of HTTP, src/app.ts and src/settlement.ts on the other).
-- `Wire` is the JSON of the answers, written and read back.
use Prim.Native.String
use perk_os_nayori_platform.Prelude.{ℕ, suc, String, Option, some, Result, ok, err}
use perk_os_nayori_platform.Prelude.Json.{Value, string, object, field, end}
use perk_os_nayori_platform.Settlement.{
  PublicSettlement, PublicDelivery, SettlementResult, Config, Services, Moments, World,
}
use perk_os_nayori_platform.Facilitator.{FacilitatorClientError, Facilitator, response, request}
use perk_os_nayori_platform.App.{
  AppConfig, Body, value, error, Response, settle_route, get_route, claim_route, complete_route,
}

pub record Wire : Type 0 where
  pub settled_json : SettlementResult → Value
  pub settled_of : Value → SettlementResult
  pub settlement_json : PublicSettlement → Value
  pub settlement_of : Value → PublicSettlement
  pub delivery_json : PublicDelivery → Value
  pub delivery_of : Value → PublicDelivery

abbrev pub body_json : {A : Type 0} → (A → Value) → Body A → Value
body_json write (value a) = write a
body_json write (error code) = object (field "error" (object (field "code" (string code) end)) end)

abbrev pub read_ok :
    {A : Type 0}
    → (Value → A)
    → Result FacilitatorClientError Value
    → Result FacilitatorClientError A
read_ok read (err e) = err e
read_ok read (ok v) = ok (read v)

-- What the client makes of a response.
abbrev pub received :
    {A : Type 0} → (A → Value) → (Value → A) → Response A → Result FacilitatorClientError A
received write read r =
    read_ok read (request (response r.status (some (body_json write r.body)) r.retry_after))

-- The service's state, and the number of calls that it has answered.
pub record Running : Type 0 where
  pub world : World
  pub calls : ℕ

abbrev pub settled :
    Result FacilitatorClientError SettlementResult → Result FacilitatorClientError PublicSettlement
settled (err e) = err e
settled (ok r) = ok r.settlement

-- `at` are the clock readings and the interleaved commits of each call, `key` is the merchant's API
-- key, and `settle_json` is the JSON of a settle request.
module _ (app : AppConfig) (config : Config) (services : Services) (wire : Wire) (at : ℕ → Moments)
    (key : String) {Payment : Type 0} (settle_json : Payment → String → Value) where
  abbrev pub authorization : Option String
  authorization = some (String.◌++◌ "Bearer " key)

  abbrev pub answered : {A : Type 0} → ℕ → A × World → A × Running
  answered calls (a, w) = (a, record { world = w; calls = suc calls })

  abbrev pub served_settle :
      Payment → String → Running → Result FacilitatorClientError PublicSettlement × Running
  served_settle payment signed_quote s =
      let r =
        settle_route app config services (at s.calls) authorization
          (some (settle_json payment signed_quote)) s.world in
      answered s.calls (settled (received wire.settled_json wire.settled_of r.0), r.1)

  abbrev pub served_get :
      String → Running → Result FacilitatorClientError PublicSettlement × Running
  served_get id s =
      let r = get_route app config services (at s.calls) authorization id s.world in
      answered s.calls (received wire.settlement_json wire.settlement_of r.0, r.1)

  abbrev pub served_claim :
      String → Running → Result FacilitatorClientError PublicDelivery × Running
  served_claim id s =
      let r = claim_route app config services (at s.calls) authorization id s.world in
      answered s.calls (received wire.delivery_json wire.delivery_of r.0, r.1)

  abbrev pub served_complete :
      String → String → Running → Result FacilitatorClientError PublicDelivery × Running
  served_complete id digest s =
      let r =
        complete_route app config services (at s.calls) authorization id
          (some (object (field "responseDigest" (string digest) end))) s.world in
      answered s.calls (received wire.delivery_json wire.delivery_of r.0, r.1)

  unfoldable pub served_facilitator : Facilitator Running Payment
  served_facilitator = record {
    settle = served_settle;
    get_settlement = served_get;
    claim_delivery = served_claim;
    complete_delivery = served_complete;
  }
