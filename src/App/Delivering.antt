-- ===== src/App/Delivering.antt =====
-- From a report that is handed over to the delivery in the tables (src/app.ts, src/paid-resource.ts,
-- src/facilitator-client.ts, src/settlement.ts and src/database.ts together).
use perk_os_nayori_platform.Prelude.{
  ℕ, String, ◌≡◌, refl, sym, ap, ◌∙◌, inl, inr, Bool, true, not, Option, none, some, arith,
  Bool-cases, ok, err, Result-cases,
}
use perk_os_nayori_platform.Prelude.Json.{Value}
use perk_os_nayori_platform.Merchant.{MerchantRecord}
use perk_os_nayori_platform.Auth.{OauthScope, AuthError}
use perk_os_nayori_platform.Broadcast.{is_ok}
use perk_os_nayori_platform.Ledger.{Ledger, StoreError}
use perk_os_nayori_platform.Ledger.Deliveries.{DeliveryLedgerRecord, Delivered, complete_delivery}
use perk_os_nayori_platform.Settlement.{
  Failure, service, thrown, PublicDelivery, Config, Services, Moments, World, is_settlement_id,
  is_response_digest,
}
use perk_os_nayori_platform.Settlement.Validation.{authenticate, at_find, auth_failure}
use perk_os_nayori_platform.Settlement.Serving.{
  complete, complete_as, answer_completed, delivery_failure,
}
use perk_os_nayori_platform.Facilitator.{request}
use perk_os_nayori_platform.App.{Response}
use perk_os_nayori_platform.App.Served.{received, authorization}

-- The client takes only a 2xx response for an answer.
pub received_ok :
    {A : Type 0} (write : A → Value) (read : Value → A) (r : Response A) (a : A)
    → received write read r ≡ ok a
    → is_ok r.status ≡ true
unfolding request
received_ok write read r a h = ground arith

-- An error of the service that is no 2xx response.
abbrev pub is_refusal : Failure → Bool
is_refusal (thrown message) = true
is_refusal (service code status retry) = not (is_ok status)

auth-is_refusal : (e : AuthError) → is_refusal (auth_failure e) ≡ true
auth-is_refusal AuthError.unauthorized = refl
auth-is_refusal AuthError.insufficient_scope = refl
auth-is_refusal AuthError.other = refl

delivery-is_refusal : (e : StoreError) → is_refusal (delivery_failure e) ≡ true
delivery-is_refusal e = ground arith

module _ (config : Config) (services : Services) where
  authenticate-is_refusal :
      (now : ℕ) (authorization : Option String) (scope : OauthScope) (w w' : World) (e : Failure)
      → authenticate config services now authorization scope w ≡ (err e, w')
      → is_refusal e ≡ true
  unfolding authenticate
  authenticate-is_refusal now authorization scope w w' e h =
      elim (Result-cases (services.authenticate authorization scope)) [
        | inr (e', refused) ↦
            let same : auth_failure e' ≡ e = ground arith in rw (sym same) (auth-is_refusal e')
        | inl (merchant, known) ↦ ground arith
      ]

  abbrev pub Stored : Moments → String → String → MerchantRecord → World → Ledger → Type 0
  Stored m id digest merchant w db =
      (r : DeliveryLedgerRecord) × (complete_delivery m.updated_at id merchant.merchant_id digest
          m.date_now w.ledger
        ≡ ok (some r, db))

  completed-is_refusal :
      (answer : Delivered) (w w' : World) (e : Failure)
      → answer_completed config services answer w ≡ (err e, w')
      → is_refusal e ≡ true
  completed-is_refusal (err e') w w' e h =
      let same : delivery_failure e' ≡ e = ground arith in rw (sym same) (delivery-is_refusal e')
  completed-is_refusal (ok (none, db)) w w' e h = ground arith
  completed-is_refusal (ok (some d, db)) w w' e h = cc

  complete_as-is_refusal :
      (m : Moments) (id digest : String) (merchant : MerchantRecord) (w w' : World) (e : Failure)
      → complete_as config services m id digest merchant w ≡ (err e, w')
      → is_refusal e ≡ true
  complete_as-is_refusal m id digest merchant w w' e h =
      elim (Bool-cases (config.delivery_ledger_enabled)) [
        | inr off ↦ ground arith
        | inl enabled ↦ elim (Bool-cases (is_settlement_id id)) [
          | inr bad ↦ ground arith
          | inl good ↦ elim (Bool-cases (is_response_digest digest)) [
            | inr bad ↦ ground arith
            | inl fits ↦
                completed-is_refusal
                  (complete_delivery m.updated_at id merchant.merchant_id digest m.date_now
                    w.ledger)
                  w w' e (ground arith)
          ]
        ]
      ]

  pub complete-is_refusal :
      (m : Moments) (authorization : Option String) (id digest : String) (w w' : World)
      (e : Failure)
      → complete config services m authorization id digest w ≡ (err e, w')
      → is_refusal e ≡ true
  unfolding complete
  complete-is_refusal m authorization id digest w w' e h =
      let scope = OauthScope.payments_settle in
      let asked = authenticate config services m.consumed_at authorization scope w in
      elim (Result-cases asked.0) [
        | inr (e', refused) ↦
            authenticate-is_refusal m.consumed_at authorization scope w asked.1 e (ground arith)
        | inl (merchant, known) ↦
            complete_as-is_refusal m id digest merchant (at_find config services m asked.1) w' e
              (ground arith)
      ]

  completed_ok :
      (answer : Delivered) (w w' : World) (d : PublicDelivery)
      → answer_completed config services answer w ≡ (ok d, w')
      → (r : DeliveryLedgerRecord) × (answer ≡ ok (some r, w'.ledger))
  completed_ok (err e') w w' d h = cc
  completed_ok (ok (none, db)) w w' d h = cc
  completed_ok (ok (some r, db)) w w' d h = (r, ground arith)

  authenticate_known :
      (now : ℕ) (authorization : Option String) (scope : OauthScope) (w w' : World)
      (merchant : MerchantRecord)
      → authenticate config services now authorization scope w ≡ (ok merchant, w')
      → services.authenticate authorization scope ≡ ok merchant
  unfolding authenticate
  authenticate_known now authorization scope w w' merchant h =
      elim (Result-cases (services.authenticate authorization scope)) [
        | inr (e', refused) ↦ ground arith
        | inl (other, known) ↦ known ∙ ap ok (ground arith)
      ]

  complete_as_ok :
      (m : Moments) (id digest : String) (merchant : MerchantRecord) (w w' : World)
      (d : PublicDelivery)
      → complete_as config services m id digest merchant w ≡ (ok d, w')
      → Stored m id digest merchant w w'.ledger
  complete_as_ok m id digest merchant w w' d h =
      completed_ok
        (complete_delivery m.updated_at id merchant.merchant_id digest m.date_now w.ledger) w w' d
        (ground arith)

  -- A completion that the service answers was made by a merchant that it knows, in the tables.
  pub complete_ok :
      (m : Moments) (authorization : Option String) (id digest : String) (w w' : World)
      (d : PublicDelivery)
      → complete config services m authorization id digest w ≡ (ok d, w')
      → (merchant : MerchantRecord) × (w0 : World) × (services.authenticate authorization
            OauthScope.payments_settle
          ≡ ok merchant)
        × Stored m id digest merchant w0 w'.ledger
  unfolding complete
  complete_ok m authorization id digest w w' d h =
      let scope = OauthScope.payments_settle in
      let asked = authenticate config services m.consumed_at authorization scope w in
      elim (Result-cases asked.0) [
        | inr (e', refused) ↦ ground arith
        | inl (merchant, known) ↦
            let w0 = at_find config services m asked.1 in
            (
              merchant,
              w0,
              authenticate_known m.consumed_at authorization scope w asked.1 merchant
                  (ground arith),
              complete_as_ok m id digest merchant w0 w' d (ground arith),
            )
      ]
