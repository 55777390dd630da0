-- ===== src/Broadcast/Laws.antt =====
-- How a broadcast is classified (src/broadcast.ts).
use perk_os_nayori_platform.Prelude.{
  ℕ, ◌≤◌, ◌<◌, String, ◌≡◌, refl, ◌≢◌, ◌↔◌, inl, inr, true, Option, some, arith, Bool-cases,
  Option-cases,
}
use perk_os_nayori_platform.Prelude.Json.{
  Value, null, boolean, number, other_number, string, array, object, find_field,
}
use perk_os_nayori_platform.Broadcast.{
  Attempt, answered, aborted, network_error, accepted, rejected, is_txid, is_ok, is_rejection,
  normalized_txid, response_body, rejection_reason, broadcast, candidate_txid, checked, with_0x,
}

module _ (lower : String → String) where
  checked_txid : (s t : String) → checked s ≡ some t → is_txid t ≡ true
  unfolding checked
  checked_txid s t h = elim (Bool-cases (is_txid s)) [
    | inl good ↦ let e : s ≡ t = ground arith in rw (← e) good
    | inr bad ↦ ground arith
  ]

  normalized_txid-is_txid :
      (v : Value) (t : String) → normalized_txid lower v ≡ some t → is_txid t ≡ true
  unfolding normalized_txid candidate_txid
  normalized_txid-is_txid (string s) t h = checked_txid (with_0x (lower s)) t h
  normalized_txid-is_txid (object fs) t h = elim (Option-cases (find_field "txid" fs)) [
    | inl absent ↦ ground arith
    | inr (null, e) ↦ ground arith
    | inr (boolean, e) ↦ ground arith
    | inr (number n, e) ↦ ground arith
    | inr (other_number, e) ↦ ground arith
    | inr (array, e) ↦ ground arith
    | inr (object gs, e) ↦ ground arith
    | inr (string s, e) ↦ checked_txid (with_0x (lower s)) t (ground arith)
  ]
  normalized_txid-is_txid null t h = cc
  normalized_txid-is_txid boolean t h = cc
  normalized_txid-is_txid (number n) t h = cc
  normalized_txid-is_txid other_number t h = cc
  normalized_txid-is_txid array t h = cc

is_rejection_lem :
    (n : ℕ) → is_rejection n ≡ true → (400 ≤ n) × (n < 500) × (n ≢ 408) × (n ≢ 425) × (n ≢ 429)
is_rejection_lem n h =
    (ground arith, ground arith, λ e. ground arith, λ e. ground arith, λ e. ground arith)

rejection_lem : (n : ℕ) → 400 ≤ n → n < 500 → n ≢ 408 → n ≢ 425 → n ≢ 429 → is_rejection n ≡ true
rejection_lem n low high not_408 not_425 not_429 = ground arith

module _ (lower : String → String) (cut : ℕ → String → String) (parse_json : String → Option Value)
    (decimal : ℕ → String) where
  accepted_sound :
      (status : ℕ) (received txid : String)
      → broadcast lower cut parse_json decimal (answered status received) ≡ accepted txid
      → (st : ℕ) × (r : String) × (answered status received ≡ answered st r)
        × (is_ok st ≡ true)
        × (is_txid txid ≡ true)
  unfolding broadcast
  accepted_sound status received txid h =
      let body = response_body cut parse_json received in
      elim (Option-cases (normalized_txid lower body)) [
        | inl absent ↦ ground arith
        | inr (t, found) ↦
            let e : t ≡ txid = ground arith in
            (
              status,
              received,
              refl,
              ground arith,
              rw (← e) (normalized_txid-is_txid lower body t found),
            )
      ]

  -- A broadcast counts as accepted only after a 2xx answer that names a well-formed transaction id.
  pub broadcast_accepted :
      (a : Attempt) (txid : String)
      → broadcast lower cut parse_json decimal a ≡ accepted txid
      → (status : ℕ) × (received : String) × (a ≡ answered status received)
        × (is_ok status ≡ true)
        × (is_txid txid ≡ true)
  unfolding broadcast
  broadcast_accepted aborted txid h = cc
  broadcast_accepted network_error txid h = cc
  broadcast_accepted (answered status received) txid h = accepted_sound status received txid h

  -- A broadcast counts as rejected exactly after a 4xx answer other than 408, 425 and 429: neither a
  -- timeout nor a network error nor a failure of the node lets the settlement fail.
  pub broadcast_rejected_iff :
      (a : Attempt)
      → ((reason : String) × (broadcast lower cut parse_json decimal a ≡ rejected reason)) ↔ (
          (status : ℕ) × (received : String) × (a ≡ answered status received)
          × (400 ≤ status)
          × (status < 500)
          × (status ≢ 408)
          × (status ≢ 425)
          × (status ≢ 429))
  unfolding broadcast
  broadcast_rejected_iff aborted = (λ (r, h). cc, λ (status, received, e, low, high, x, y, z). cc)
  broadcast_rejected_iff network_error =
      (λ (r, h). cc, λ (status, received, e, low, high, x, y, z). cc)
  broadcast_rejected_iff (answered status received) = (
    λ (r, h).
        let (low, high, not_408, not_425, not_429) = is_rejection_lem status (ground arith) in
        (status, received, refl, low, high, not_408, not_425, not_429),
    λ (st, rec, e, low, high, not_408, not_425, not_429). (
      rejection_reason cut (response_body cut parse_json received),
      let rejection = rejection_lem st low high not_408 not_425 not_429 in ground arith,
    ),
  )
