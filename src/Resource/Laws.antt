-- ===== src/Resource/Laws.antt =====
-- When the paid resource is handed over (src/paid-resource.ts).
use perk_os_nayori_platform.Prelude.{
  ℕ, String, ◌≡◌, refl, ◌≢◌, inl, inr, Bool, true, ◌||◌, Option, none, some, arith, eqb,
  if◌then◌else◌, Option-cases, Result, ok, err, Result-cases,
}
use perk_os_nayori_platform.Ledger.{is_found}
use perk_os_nayori_platform.Settlement.{PublicSettlement, PublicDelivery, is_settlement_id}
use perk_os_nayori_platform.Settlement.Public.{truthy, is_confirmed_status}
use perk_os_nayori_platform.Facilitator.{
  FacilitatorClientError, Facilitator, Answered, unreachable, response, request, error_status,
}
use perk_os_nayori_platform.Resource.{
  CapabilityReport, delivered, map_facilitator_error, capability_report, deliver,
  normalize_settlement, normalize_answer, submit, retrieve,
}

module _ {S Payment : Type 0} (facilitator : Facilitator S Payment)
    (digest : CapabilityReport → String) where
  -- The facilitator has claimed a confirmed settlement's delivery and completed it with the digest
  -- of the report, between the states `s` and `s'`.
  pub record IsPaid (settlement : PublicSettlement) (body : CapabilityReport) (s s' : S)
      : Type 0 where
    pub confirmed : is_confirmed_status settlement.status ≡ true
    pub receipted : is_found (truthy settlement.receipt) ≡ true
    pub claimed_state : S
    pub delivery : PublicDelivery
    pub claimed :
        facilitator.claim_delivery settlement.settlement_id s ≡ (ok delivery, claimed_state)
    pub report : body ≡ capability_report settlement delivery.receipt
    pub completion : PublicDelivery
    pub completed :
        facilitator.complete_delivery settlement.settlement_id (digest body) claimed_state
        ≡ (ok completion, s')

  deliver-IsPaid :
      (settlement : PublicSettlement) (body : CapabilityReport) (s s' : S)
      → deliver facilitator digest settlement s ≡ (ok (delivered body), s')
      → IsPaid settlement body s s'
  unfolding deliver
  deliver-IsPaid settlement body s s' h =
      let claim = facilitator.claim_delivery settlement.settlement_id s in
      elim (Result-cases claim.0) [
        | inr (e, refused) ↦ ground arith
        | inl (d, claimed) ↦
            let report = capability_report settlement d.receipt in
            let complete =
              facilitator.complete_delivery settlement.settlement_id (digest report) claim.1 in
            elim (Result-cases complete.0) [
              | inr (e, refused) ↦ ground arith
              | inl (c, completed) ↦
                  let e : body ≡ report = ground arith in
                  record {
                    confirmed = ground arith;
                    receipted = ground arith;
                    claimed_state = claim.1;
                    delivery = d;
                    claimed = ground arith;
                    report = e;
                    completion = c;
                    completed = rw e (ground arith);
                  }
            ]
      ]

  normalize-IsPaid :
      (settlement : PublicSettlement) (body : CapabilityReport) (s s' : S)
      → normalize_settlement facilitator digest settlement s ≡ (ok (delivered body), s')
      → IsPaid settlement body s s'
  unfolding normalize_settlement
  normalize-IsPaid settlement body s s' h = deliver-IsPaid settlement body s s' (ground arith)

  answer-IsPaid :
      (answer : Result FacilitatorClientError PublicSettlement × S) (body : CapabilityReport)
      (s' : S)
      → normalize_answer facilitator digest answer ≡ (ok (delivered body), s')
      → (settlement : PublicSettlement) × (answer.0 ≡ ok settlement)
        × IsPaid settlement body answer.1 s'
  answer-IsPaid (err e, s) body s' h = cc
  answer-IsPaid (ok settlement, s) body s' h =
      (settlement, refl, normalize-IsPaid settlement body s s' h)

  -- The report is handed over for a submitted payment only if the facilitator settled that payment
  -- with that quote, answered with a confirmed settlement and its receipt, let its delivery be
  -- claimed, and recorded the digest of the very report that is handed over.
  pub submit_delivered :
      (text_length : String → ℕ) (decode : String → Option Payment)
      (signature signed_quote : String) (body : CapabilityReport) (s s' : S)
      → submit facilitator digest text_length decode signature signed_quote s
        ≡ (ok (delivered body), s')
      → (payment : Payment) × (settlement : PublicSettlement) × (decode signature ≡ some payment)
        × ((facilitator.settle payment signed_quote s).0 ≡ ok settlement)
        × IsPaid settlement body (facilitator.settle payment signed_quote s).1 s'
  unfolding submit
  submit_delivered text_length decode signature signed_quote body s s' h =
      elim (Option-cases (decode signature)) [
        | inl garbled ↦ ground arith
        | inr (payment, decoded) ↦
            let (settlement, settled, paid) =
              answer-IsPaid (facilitator.settle payment signed_quote s) body s' (ground arith) in
            (payment, settlement, decoded, settled, paid)
      ]

  -- A later retrieval hands the report over only for a well-formed id under which the facilitator
  -- has a confirmed settlement with a receipt, with the delivery claimed and completed as well.
  pub retrieve_delivered :
      (id : String) (body : CapabilityReport) (s s' : S)
      → retrieve facilitator digest id s ≡ (ok (delivered body), s')
      → (settlement : PublicSettlement) × (is_settlement_id id ≡ true)
        × ((facilitator.get_settlement id s).0 ≡ ok settlement)
        × IsPaid settlement body (facilitator.get_settlement id s).1 s'
  unfolding retrieve
  retrieve_delivered id body s s' h =
      let good : is_settlement_id id ≡ true = ground arith in
      let (settlement, got, paid) =
        answer-IsPaid (facilitator.get_settlement id s) body s' (ground arith) in
      (settlement, good, got, paid)

-- The statuses that the resource server answers with when the facilitator fails.
abbrev pub is_resource_status : ℕ → Bool
is_resource_status status =
    eqb status 400
    || eqb status 402
    || eqb status 404
    || eqb status 409
    || eqb status 429
    || eqb status 503

-- Whatever the facilitator's error, the resource server answers with 400, 402, 404, 409, 429 or
-- 503; a 422, which is a payment that does not fit its quote, becomes 402, and only a 429 passes the
-- facilitator's retry time on.
pub mapped_error :
    (e : FacilitatorClientError)
    → (is_resource_status (map_facilitator_error e).status ≡ true)
      × (eqb (map_facilitator_error e).status 402 ≡ eqb e.status 422)
      × ((map_facilitator_error e).retry_after_seconds
          ≡ (if eqb e.status 429 then e.retry_after_seconds else none))
unfolding map_facilitator_error
mapped_error e = (ground arith, ground arith, ground arith)

-- The statuses of the client's errors.
abbrev pub is_client_status : ℕ → Bool
is_client_status status =
    eqb status 400
    || eqb status 401
    || eqb status 403
    || eqb status 404
    || eqb status 409
    || eqb status 422
    || eqb status 429
    || eqb status 502
    || eqb status 503

-- A request fails only with one of the statuses that a client error may have, and never for a 2xx
-- answer with a JSON body; a retry time that is passed on is at least a second.
pub request_failed :
    (answer : Answered) (e : FacilitatorClientError)
    → request answer ≡ err e
    → (is_client_status e.status ≡ true) × (e.retry_after_seconds ≢ some 0)
unfolding request error_status
request_failed unreachable e h = (ground arith, λ z. ground arith)
request_failed (response status none retry) e h = (ground arith, λ z. ground arith)
request_failed (response status (some body) none) e h = (ground arith, λ z. ground arith)
request_failed (response status (some body) (some n)) e h = (ground arith, λ z. ground arith)
