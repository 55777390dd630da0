-- ===== src/App/Laws.antt =====
-- What the routes of the paid resources answer (src/app.ts, with src/paid-resource.ts and
-- src/mpp-resource.ts behind them).
use perk_os_nayori_platform.Prelude.{
  String, ◌≡◌, refl, inl, inr, true, Option, none, some, arith, eqb, Result, ok, err, Result-cases,
}
use perk_os_nayori_platform.Settlement.Public.{truthy}
use perk_os_nayori_platform.MppResource.{MppFailure, failed, thrown, MppResourceResult}
use perk_os_nayori_platform.App.Resources.{
  MppResourceService, ResourceResponse, ResourceRequest, challenged, status_of, resource_query,
  mpp_route, mpp_rejected, mpp_answer, mpp_challenge, dispatch_mpp, paired, checked,
}

module _ {S Challenge : Type 0} (encode : String → String) (resource_url : String)
    (resource : MppResourceService S Challenge) where
  -- The response is a challenge.
  abbrev pub IsChallenge : ResourceResponse Challenge → Type 0
  IsChallenge answer = (code : Option String) × (c : Challenge) × (answer ≡ challenged code c)

  rejected-IsChallenge :
      (e : MppFailure) (s : S)
      → eqb (status_of (mpp_rejected encode resource_url resource e s).0) 402 ≡ true
      → IsChallenge (mpp_rejected encode resource_url resource e s).0
  rejected-IsChallenge thrown s h = cc
  rejected-IsChallenge (failed e) s h = elim (Result-cases (resource.create_challenge s).0) [
    | inl (c, made) ↦ (some e.code, c, ground arith)
    | inr (e', refused) ↦ ground arith
  ]

  answer-IsChallenge :
      (answer : Result MppFailure MppResourceResult × S)
      → eqb (status_of (mpp_answer encode resource_url resource answer).0) 402 ≡ true
      → IsChallenge (mpp_answer encode resource_url resource answer).0
  answer-IsChallenge (err e, s) h = rejected-IsChallenge e s h
  answer-IsChallenge (ok (MppResourceResult.pending settlement), s) h = cc
  answer-IsChallenge (ok (MppResourceResult.delivered body receipt), s) h = cc

  made-IsChallenge :
      (answer : Result MppFailure Challenge × S)
      → eqb (status_of (mpp_challenge encode resource_url resource answer).0) 402 ≡ true
      → IsChallenge (mpp_challenge encode resource_url resource answer).0
  made-IsChallenge (err e, s) h = rejected-IsChallenge e s h
  made-IsChallenge (ok c, s) h = (none, c, refl)

  dispatch-IsChallenge :
      (settlement payment quote : Option String) (s : S)
      → eqb (status_of (dispatch_mpp encode resource_url resource settlement payment quote s).0) 402
        ≡ true
      → IsChallenge (dispatch_mpp encode resource_url resource settlement payment quote s).0
  dispatch-IsChallenge (some id) payment quote s h = answer-IsChallenge (resource.retrieve id s) h
  dispatch-IsChallenge none (some payment) none s h = cc
  dispatch-IsChallenge none (some payment) (some quote) s h =
      answer-IsChallenge (resource.submit payment quote s) h
  dispatch-IsChallenge none none quote s h = made-IsChallenge (resource.create_challenge s) h

  paired-IsChallenge :
      (settlement payment quote : Option String) (s : S)
      → let answer =
          paired encode resource_url
            (dispatch_mpp encode resource_url resource)
            settlement
            payment
            quote
            s in
        eqb (status_of answer.0) 402 ≡ true → IsChallenge answer.0
  paired-IsChallenge (some id) (some payment) none s h = cc
  paired-IsChallenge (some id) (some payment) (some quote) s h = cc
  paired-IsChallenge (some id) none none s h = dispatch-IsChallenge (some id) none none s h
  paired-IsChallenge (some id) none (some quote) s h = cc
  paired-IsChallenge none (some payment) none s h =
      dispatch-IsChallenge none (some payment) none s h
  paired-IsChallenge none (some payment) (some quote) s h =
      dispatch-IsChallenge none (some payment) (some quote) s h
  paired-IsChallenge none none none s h = dispatch-IsChallenge none none none s h
  paired-IsChallenge none none (some quote) s h = cc

  checked-IsChallenge :
      (query : Option (Option String)) (r : ResourceRequest) (s : S)
      → let answer =
          checked encode resource_url (dispatch_mpp encode resource_url resource) query r s in
        eqb (status_of answer.0) 402 ≡ true → IsChallenge answer.0
  checked-IsChallenge none r s h = cc
  checked-IsChallenge (some settlement) r s h =
      paired-IsChallenge settlement (truthy r.payment) (truthy r.signed_quote) s h

  -- Whatever the request and however the payment failed, a 402 of the MPP route always carries a
  -- challenge that the resource server made.
  pub payment_required_challenged :
      (r : ResourceRequest) (s : S)
      → eqb (status_of (mpp_route encode resource_url resource r s).0) 402 ≡ true
      → IsChallenge (mpp_route encode resource_url resource r s).0
  unfolding mpp_route
  payment_required_challenged r s h = checked-IsChallenge (resource_query r.query) r s h
