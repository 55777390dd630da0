-- ===== src/MppResource/Laws.antt =====
-- When the MPP resource server challenges and delivers (src/mpp-resource.ts).
use perk_os_nayori_platform.Prelude.{
  ℕ, String, ◌≡◌, refl, sym, ap, ◌∙◌, inl, inr, Option, some, arith, Option-cases, eq→≡, Result, ok,
  err, Result-cases,
}
use perk_os_nayori_platform.Merchant.{Network}
use perk_os_nayori_platform.Quoting.{IssuedQuoteResult}
use perk_os_nayori_platform.Signing.{NayoriX402Quote}
use perk_os_nayori_platform.Settlement.{PublicSettlement}
use perk_os_nayori_platform.Facilitator.{FacilitatorClientError, Facilitator}
use perk_os_nayori_platform.Resource.{CapabilityReport, capability_report}
use perk_os_nayori_platform.Resource.Laws.{IsPaid}
use perk_os_nayori_platform.MppResource.{
  MppReceipt, MppResourceChallenge, delivered, receipt_of, deliver, normalize_settlement,
  normalize_answer, submit, create_challenge,
}

-- The payment receipt names the settlement's quote and transaction.
pub record IsReceiptOf (network : Network) (settlement : PublicSettlement) (p : MppReceipt)
    : Type 0 where
  pub challenge : p.challenge_id ≡ settlement.quote_id
  pub external : p.external_id ≡ settlement.quote_id
  pub transaction : p.reference ≡ settlement.txid
  pub its_network : p.network ≡ network
  pub settled : p.settled_at ≡ settlement.updated_at

receipt_of-IsReceiptOf :
    (network : Network) (settlement : PublicSettlement)
    → IsReceiptOf network settlement (receipt_of network settlement)
receipt_of-IsReceiptOf network settlement = record {
  challenge = refl;
  external = refl;
  transaction = refl;
  its_network = refl;
  settled = refl;
}

module _ {S Credential : Type 0} (facilitator : Facilitator S Credential) (network : Network)
    (digest : CapabilityReport → String) (encode_receipt : MppReceipt → Option String) where
  deliver-receipt :
      (settlement : PublicSettlement) (body : CapabilityReport) (receipt : String) (s s' : S)
      → deliver facilitator network digest encode_receipt settlement s
        ≡ (ok (delivered body receipt), s')
      → IsPaid facilitator digest settlement body s s'
        × (encode_receipt (receipt_of network settlement) ≡ some receipt)
  unfolding deliver
  deliver-receipt settlement body receipt s s' h =
      let claim = facilitator.claim_delivery settlement.settlement_id s in
      elim (Result-cases claim.0) [
        | inr (e, refused) ↦ ground arith
        | inl (d, claimed) ↦
            let report = capability_report settlement d.receipt in
            let complete =
              facilitator.complete_delivery settlement.settlement_id (digest report) claim.1 in
            elim (Result-cases complete.0) [
              | inr (e, refused) ↦ ground arith
              | inl (c, completed) ↦
                  elim (Option-cases (encode_receipt (receipt_of network settlement))) [
                    | inl broken ↦ ground arith
                    | inr (r, encoded) ↦
                        let e : body ≡ report = ground arith in
                        (
                          record {
                            confirmed = ground arith;
                            receipted = ground arith;
                            claimed_state = claim.1;
                            delivery = d;
                            claimed = ground arith;
                            report = e;
                            completion = c;
                            completed = rw e (ground arith);
                          },
                          encoded ∙ ap some (ground arith),
                        )
                  ]
            ]
      ]

  answer-receipt :
      (answer : Result FacilitatorClientError PublicSettlement × S) (body : CapabilityReport)
      (receipt : String) (s' : S)
      → normalize_answer facilitator network digest encode_receipt answer
        ≡ (ok (delivered body receipt), s')
      → (settlement : PublicSettlement) × (answer.0 ≡ ok settlement)
        × IsPaid facilitator digest settlement body answer.1 s'
        × (encode_receipt (receipt_of network settlement) ≡ some receipt)
  unfolding normalize_settlement
  answer-receipt (err e, s) body receipt s' h = cc
  answer-receipt (ok settlement, s) body receipt s' h =
      let (paid, encoded) = deliver-receipt settlement body receipt s s' (ground arith) in
      (settlement, refl, paid, encoded)

  -- The report is handed over for a submitted credential only if the facilitator settled that
  -- credential with that quote, answered with a confirmed settlement and its receipt, let its
  -- delivery be claimed, and recorded the digest of the very report that is handed over; and the
  -- payment receipt that goes with it names the settlement's quote and transaction.
  pub mpp_submit_delivered :
      (text_length : String → ℕ) (decode : String → Option Credential)
      (encoded signed_quote : String) (body : CapabilityReport) (receipt : String) (s s' : S)
      → submit facilitator network digest encode_receipt text_length decode encoded signed_quote s
        ≡ (ok (delivered body receipt), s')
      → (credential : Credential) × (settlement : PublicSettlement) × (decode encoded
          ≡ some credential)
        × ((facilitator.settle credential signed_quote s).0 ≡ ok settlement)
        × IsPaid facilitator digest settlement body
            (facilitator.settle credential signed_quote s).1
            s'
        × (p : MppReceipt) × (encode_receipt p ≡ some receipt)
        × IsReceiptOf network settlement p
  unfolding submit
  mpp_submit_delivered text_length decode encoded signed_quote body receipt s s' h =
      elim (Option-cases (decode encoded)) [
        | inl garbled ↦ ground arith
        | inr (credential, decoded) ↦
            let (settlement, settled, paid, sent) =
              answer-receipt (facilitator.settle credential signed_quote s) body receipt s'
                (ground arith) in
            (
              credential,
              settlement,
              decoded,
              settled,
              paid,
              receipt_of network settlement,
              sent,
              receipt_of-IsReceiptOf network settlement,
            )
      ]

module _ {S Challenge : Type 0}
    (issue_quote : S → Result FacilitatorClientError IssuedQuoteResult × S)
    (create : NayoriX402Quote → Option Challenge) where
  -- A challenge is made only of a quote that the facilitator has just issued, for USDCx, and is the
  -- SDK's challenge for that quote.
  pub create_challenge_sound :
      (c : MppResourceChallenge Challenge) (s s' : S)
      → create_challenge issue_quote create s ≡ (ok c, s')
      → (issue_quote s ≡ (ok c.issued_quote, s'))
        × (c.issued_quote.quote.payment_asset ≡ "usdcx")
        × (create c.issued_quote.quote ≡ some c.challenge)
  unfolding create_challenge
  create_challenge_sound c s s' h = elim (Result-cases (issue_quote s).0) [
    | inr (e, refused) ↦ ground arith
    | inl (issued, answered) ↦ elim (Option-cases (create issued.quote)) [
      | inl broken ↦ ground arith
      | inr (challenge, made) ↦
          let e : record { challenge = challenge; issued_quote = issued } ≡ c = ground arith in
          let usdcx : issued.quote.payment_asset ≡ "usdcx" =
            eq→≡ issued.quote.payment_asset "usdcx" (ground arith) in
          rw (sym e) (ground arith, usdcx, made)
    ]
  ]
