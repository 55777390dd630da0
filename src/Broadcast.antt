-- ===== src/Broadcast.antt =====
-- The one attempt to broadcast a transaction (src/broadcast.ts). What `fetch` and `response.text`
-- did is the argument; `JSON.parse`, `toLowerCase`, the writing of a number and the cutting of a
-- text are parameters.
pub mod Laws
use Prim.Native.String
use perk_os_nayori_platform.Prelude.{
  ℕ, String, Bool, not, ◌&&◌, ◌||◌, Option, none, some, ◌++◌, ◌==◌, ltb, leb, eqb, if◌then◌else◌,
}
use perk_os_nayori_platform.Prelude.Text.{is_hex, matches, starts_with}
use perk_os_nayori_platform.Prelude.Json.{Value, find_field, Fields}

pub data BroadcastResult : Type 0 where
  accepted : String → BroadcastResult
  rejected : String → BroadcastResult
  ambiguous : String → BroadcastResult

-- How the request ended: with a response and its text, or with an error, which may be that of the
-- timeout (`AbortError`).
pub data Attempt : Type 0 where
  answered : ℕ → String → Attempt
  aborted : Attempt
  network_error : Attempt

-- `TXID_PATTERN`
abbrev pub is_txid : String → Bool
is_txid = matches "0x" 64 is_hex

-- `response.ok`
abbrev pub is_ok : ℕ → Bool
is_ok status = leb 200 status && ltb status 300

-- A client error that is not worth a retry.
abbrev pub is_rejection : ℕ → Bool
is_rejection status =
    leb 400 status && ltb status 500 && not (eqb status 408 || eqb status 425 || eqb status 429)

with_0x : String → String
with_0x lowered = if starts_with lowered "0x" then lowered else String.◌++◌ "0x" lowered

unfoldable checked : String → Option String
checked normalized = if is_txid normalized then some normalized else none

module _ (lower : String → String) where
  unfoldable candidate_txid : Option Value → Option String
  unfolding with_0x checked
  candidate_txid (some (Value.string s)) = checked (with_0x (lower s))
  candidate_txid _ = none

  -- `normalizedTxid` of a text or of the `txid` of an object
  unfoldable pub normalized_txid : Value → Option String
  unfolding candidate_txid
  normalized_txid (Value.string s) = candidate_txid (some (Value.string s))
  normalized_txid (Value.object fs) = candidate_txid (find_field "txid" fs)
  normalized_txid _ = none

-- `candidate.slice(0, 128)` of a text that is not empty
abbrev cut_reason : (ℕ → String → String) → Option Value → String
cut_reason cut (some (Value.string s)) = if s == "" then "broadcast_rejected" else cut 128 s
cut_reason cut _ = "broadcast_rejected"

abbrev reason_or_error : (ℕ → String → String) → Fields → Option Value → String
reason_or_error cut fs none = cut_reason cut (find_field "error" fs)
reason_or_error cut fs (some v) = cut_reason cut (some v)

unfoldable pub rejection_reason : (ℕ → String → String) → Value → String
rejection_reason cut (Value.object fs) = reason_or_error cut fs (find_field "reason" fs)
rejection_reason cut _ = "broadcast_rejected"

abbrev or_text : String → Option Value → Value
or_text s none = Value.string s
or_text s (some v) = v

-- `responseBody`, over the text of the response
unfoldable pub response_body : (ℕ → String → String) → (String → Option Value) → String → Value
response_body cut parse_json received =
    let t = cut 16384 received in if t == "" then Value.null else or_text t (parse_json t)

abbrev accepted_or_missing : Option String → BroadcastResult
accepted_or_missing none = ambiguous "broadcast_response_missing_txid"
accepted_or_missing (some txid) = accepted txid

module _ (lower : String → String) (cut : ℕ → String → String) (parse_json : String → Option Value)
    (decimal : ℕ → String) where
  unfoldable pub broadcast : Attempt → BroadcastResult
  broadcast (answered status received) =
      let body = response_body cut parse_json received in
      if is_ok status
      then accepted_or_missing (normalized_txid lower body)
      else if is_rejection status
      then rejected (rejection_reason cut body)
      else ambiguous (String.◌++◌ "broadcast_http_" (decimal status))
  broadcast aborted = ambiguous "broadcast_timeout"
  broadcast network_error = ambiguous "broadcast_network_error"
