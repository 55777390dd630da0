-- ===== src/App/Paying.antt =====
-- When `GET /v1` answers with the report (src/app.ts, with src/paid-resource.ts behind it).
use perk_os_nayori_platform.Prelude.{
  ℕ, String, ◌≡◌, refl, ◌≢◌, true, Option, none, some, arith, Result, ok, err,
}
use perk_os_nayori_platform.Settlement.{PublicSettlement, is_settlement_id}
use perk_os_nayori_platform.Settlement.Public.{truthy}
use perk_os_nayori_platform.Quoting.{IssuedQuoteResult}
use perk_os_nayori_platform.Facilitator.{FacilitatorClientError, Facilitator}
use perk_os_nayori_platform.Resource.{
  CapabilityReport, PaidResourceError, PaidResourceResult, PaidResourceChallenge, submit, retrieve,
  create_challenge,
}
use perk_os_nayori_platform.Resource.Laws.{IsPaid, submit_delivered, retrieve_delivered}
use perk_os_nayori_platform.App.Resources.{
  PaidResourceService, ResourceRequest, reported, resource_query, paid_route, paid_service,
  paid_answer, paid_challenge, dispatch_paid, paired, checked,
}

module _ {S Payment : Type 0} (facilitator : Facilitator S Payment)
    (digest : CapabilityReport → String) (text_length : String → ℕ)
    (decode : String → Option Payment) (url : String)
    (issue_quote : S → Result FacilitatorClientError IssuedQuoteResult × S)
    (encode : String → String) where
  -- The settlement that a report was handed over for: that of the polled id, or of the submitted
  -- payment.
  pub data IsAskedFor (query : Option (Option String)) (header signed_quote : Option String) (s : S)
      (settlement : PublicSettlement) : S → Type 0 where
    polled :
        (id : String)
        → query ≡ some (some id)
        → header ≡ none
        → is_settlement_id id ≡ true
        → (facilitator.get_settlement id s).0 ≡ ok settlement
        → IsAskedFor query header signed_quote s settlement (facilitator.get_settlement id s).1
    submitted :
        (text quote : String) (payment : Payment)
        → query ≡ some none
        → header ≡ some text
        → signed_quote ≡ some quote
        → decode text ≡ some payment
        → (facilitator.settle payment quote s).0 ≡ ok settlement
        → IsAskedFor query header signed_quote s settlement (facilitator.settle payment quote s).1

  abbrev service : PaidResourceService S PaidResourceChallenge
  service = paid_service facilitator digest text_length decode url issue_quote

  -- The report is paid for.
  abbrev pub IsPaidFor :
      Option (Option String) → Option String → Option String → CapabilityReport → S → S → Type 0
  IsPaidFor query header signed_quote body s s' =
      (settlement : PublicSettlement) × (s0 : S) × IsAskedFor query header signed_quote s settlement
        s0
      × IsPaid facilitator digest settlement body s0 s'

  answer_reported :
      (answer : Result PaidResourceError PaidResourceResult × S) (body : CapabilityReport)
      (receipt : Option String) (s' : S)
      → paid_answer encode url service answer ≡ (reported body receipt, s')
      → answer ≡ (ok (PaidResourceResult.delivered body), s')
  answer_reported (err e, s) body receipt s' h = cc
  answer_reported (ok (PaidResourceResult.pending settlement), s) body receipt s' h = cc
  answer_reported (ok (PaidResourceResult.delivered b), s) body receipt s' h = ground arith

  challenge_reported :
      (answer : Result PaidResourceError PaidResourceChallenge × S) (body : CapabilityReport)
      (receipt : Option String) (s' : S)
      → paid_challenge encode url service answer ≢ (reported body receipt, s')
  challenge_reported (err e, s) body receipt s' h = cc
  challenge_reported (ok c, s) body receipt s' h = cc

  dispatch_reported :
      (settlement payment quote : Option String) (body : CapabilityReport) (receipt : Option String)
      (s s' : S)
      → payment ≡ none
      → dispatch_paid encode url service settlement payment quote s ≡ (reported body receipt, s')
      → IsPaidFor (some settlement) payment quote body s s'
  dispatch_reported (some id) payment quote body receipt s s' free h =
      let (settlement, good, got, paid) =
        retrieve_delivered facilitator digest id body s s'
          (answer_reported (retrieve facilitator digest id s) body receipt s' h) in
      (settlement, (facilitator.get_settlement id s).1, polled id refl free good got, paid)
  dispatch_reported none (some payment) quote body receipt s s' free h = cc
  dispatch_reported none none quote body receipt s s' free h =
      absurd (challenge_reported (create_challenge url issue_quote s) body receipt s' h)

  submit_reported :
      (header quote : String) (body : CapabilityReport) (receipt : Option String) (s s' : S)
      → dispatch_paid encode url service none (some header) (some quote) s
        ≡ (reported body receipt, s')
      → IsPaidFor (some none) (some header) (some quote) body s s'
  submit_reported header quote body receipt s s' h =
      let (payment, settlement, decoded, settled, paid) =
        submit_delivered facilitator digest text_length decode header quote body s s' (
          answer_reported (submit facilitator digest text_length decode header quote s) body receipt
            s' h) in
      (
        settlement,
        (facilitator.settle payment quote s).1,
        submitted header quote payment refl refl refl decoded settled,
        paid,
      )

  paired_reported :
      (settlement payment quote : Option String) (body : CapabilityReport) (receipt : Option String)
      (s s' : S)
      → paired encode url (dispatch_paid encode url service) settlement payment quote s
        ≡ (reported body receipt, s')
      → IsPaidFor (some settlement) payment quote body s s'
  paired_reported (some id) (some payment) none body receipt s s' h = cc
  paired_reported (some id) (some payment) (some quote) body receipt s s' h = cc
  paired_reported (some id) none (some quote) body receipt s s' h = cc
  paired_reported none none (some quote) body receipt s s' h = cc
  paired_reported none (some payment) none body receipt s s' h = cc
  paired_reported (some id) none none body receipt s s' h =
      dispatch_reported (some id) none none body receipt s s' refl h
  paired_reported none none none body receipt s s' h =
      dispatch_reported none none none body receipt s s' refl h
  paired_reported none (some payment) (some quote) body receipt s s' h =
      submit_reported payment quote body receipt s s' h

  checked_reported :
      (query : Option (Option String)) (r : ResourceRequest) (body : CapabilityReport)
      (receipt : Option String) (s s' : S)
      → checked encode url (dispatch_paid encode url service) query r s
        ≡ (reported body receipt, s')
      → IsPaidFor query (truthy r.payment) (truthy r.signed_quote) body s s'
  checked_reported none r body receipt s s' h = cc
  checked_reported (some settlement) r body receipt s s' h =
      paired_reported settlement (truthy r.payment) (truthy r.signed_quote) body receipt s s' h

  -- `GET /v1` answers with the report only to a request that polls one well-formed settlement id and
  -- submits nothing, or that submits a payment together with a signed quote and polls nothing; and
  -- only if the facilitator, asked for that settlement or to settle that payment, answered with a
  -- confirmed settlement whose delivery it then let be claimed and completed with the report's digest.
  pub paid_route_reported :
      (r : ResourceRequest) (body : CapabilityReport) (receipt : Option String) (s s' : S)
      → paid_route encode url
          (paid_service facilitator digest text_length decode url issue_quote)
          r
          s
        ≡ (reported body receipt, s')
      → IsPaidFor (resource_query r.query) (truthy r.payment) (truthy r.signed_quote) body s s'
  unfolding paid_route
  paid_route_reported r body receipt s s' h =
      checked_reported (resource_query r.query) r body receipt s s' h
