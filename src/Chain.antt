-- ===== src/Chain.antt =====
-- What the Hiro API says of a transaction (src/reconciliation.ts, `createHiroSettlementChainSource`).
-- The two responses are arguments, with `none` where `get` has none; the text decoder, `JSON.parse`,
-- `toLowerCase`, the cutting of a text and the writing of a number are parameters.
pub mod Reading
pub mod Laws
use mathlib.Core.Option
use Prim.Native.String
use perk_os_nayori_platform.Prelude.{
  ℕ, ◌+◌, ◌-◌, String, Bool, false, ◌||◌, Option, none, some, List, [], ◌∷◌, ◌++◌, map, ◌==◌, ltb,
  eqb, if◌then◌else◌, length,
}
use perk_os_nayori_platform.Prelude.Text.{is_hex, matches, starts_with}
use perk_os_nayori_platform.Prelude.Json.{
  Value, Fields, as_record, find_field, property, as_text, safe_integer,
}
use perk_os_nayori_platform.Broadcast.{is_ok, is_txid}
use perk_os_nayori_platform.Ledger.Reconciling.{Terminal}

pub data ChainObservation : Type 0 where
  pending : String → ChainObservation
  terminal : Terminal → String → ChainObservation
  confirmed : ℕ → String → ℕ → ChainObservation
  ambiguous : String → ChainObservation

-- A response: its status and the chunks of bytes that its body yields, if it has one. A body whose
-- reading fails makes `observe` throw: that outcome is left to the callers of `observe`.
pub record Response : Type 0 where
  pub status : ℕ
  pub body : Option (List (List ℕ))

-- `BLOCK_HASH_PATTERN`
abbrev pub is_block_hash : String → Bool
is_block_hash = matches "0x" 64 is_hex

abbrev pub maximum_bytes : ℕ
maximum_bytes = 65536

-- The loop over the chunks, after `total_bytes` bytes, with `none` once there are too many.
unfoldable pub read_chunks : ℕ → List (List ℕ) → Option (List ℕ)
read_chunks total_bytes [] = some []
read_chunks total_bytes (value ∷ chunks) =
    let rest = read_chunks (total_bytes + length value) chunks in
    if ltb maximum_bytes (total_bytes + length value)
    then none
    else Option.map (λ bytes. value ++ bytes) rest

module _ (decode : List ℕ → Option String) (parse_json : String → Option Value) where
  abbrev parse_text : Option String → Option Value
  parse_text none = none
  parse_text (some t) = if t == "" then none else parse_json t

  abbrev decode_bytes : Option (List ℕ) → Option Value
  decode_bytes none = none
  decode_bytes (some bytes) = parse_text (decode bytes)

  abbrev read_body : Option (List (List ℕ)) → Option Value
  read_body none = none
  read_body (some chunks) = decode_bytes (read_chunks 0 chunks)

  -- `boundedJson`
  unfoldable pub bounded_json : Response → Option Value
  bounded_json response = read_body response.body

-- `typeof v === "string" ? v.toLowerCase() : ""`
abbrev pub lower_text : (String → String) → Option String → String
lower_text lower none = ""
lower_text lower (some s) = lower s

abbrev is_text : Option String → String → Bool
is_text none s = false
is_text (some t) s = t == s

module _ (decode : List ℕ → Option String) (parse_json : String → Option Value)
    (lower : String → String) (cut : ℕ → String → String) (decimal : ℕ → String) where
  -- A block at a height, and the tip that `/v2/info` names.
  unfoldable pub observe_tip : ℕ → ℕ → String → Option ℕ → ChainObservation
  observe_tip min_confirmations block_height block_hash none = ambiguous "invalid_chain_tip"
  observe_tip min_confirmations block_height block_hash (some chain_tip) =
      if ltb chain_tip block_height
      then ambiguous "invalid_chain_tip"
      else (let confirmations = chain_tip - block_height + 1 in
          if ltb confirmations min_confirmations
          then pending "insufficient_confirmations"
          else confirmed block_height block_hash confirmations)

  unfoldable pub observe_info : ℕ → ℕ → String → Option Response → ChainObservation
  observe_info min_confirmations block_height block_hash none = ambiguous "chain_info_unavailable"
  observe_info min_confirmations block_height block_hash (some info_response) =
      if is_ok info_response.status
      then observe_tip min_confirmations block_height block_hash (
          safe_integer (
            property "stacks_tip_height"
              (as_record (bounded_json decode parse_json info_response))))
      else ambiguous (String.◌++◌ "chain_info_http_" (decimal info_response.status))

  unfoldable pub observe_block : ℕ → Option Fields → Option Response → ChainObservation
  observe_block min_confirmations block info_response =
      elim (safe_integer (property "height" block)) [
        | none ↦ ambiguous "invalid_transaction_block"
        | some block_height ↦
            let block_hash = lower_text lower (as_text (property "hash" block)) in
            if is_block_hash block_hash
            then observe_info min_confirmations block_height block_hash info_response
            else ambiguous "invalid_transaction_block"
      ]

  unfoldable pub observe_status : ℕ → String → Fields → Option Response → ChainObservation
  observe_status min_confirmations status raw_transaction info_response =
      if status == "pending" || status == "mempool"
      then pending "transaction_pending"
      else if starts_with status "abort"
      then terminal Terminal.failed (cut 128 status)
      else if starts_with status "drop"
      then terminal Terminal.dropped (cut 128 status)
      else if status == "problematic_skipped"
      then terminal Terminal.failed status
      else if status == "success"
      then observe_block min_confirmations (as_record (find_field "block" raw_transaction))
          info_response
      else ambiguous "unknown_transaction_status"

  unfoldable pub observe_record : ℕ → String → Option Fields → Option Response → ChainObservation
  observe_record min_confirmations txid none info_response =
      ambiguous "invalid_transaction_response"
  observe_record min_confirmations txid (some raw_transaction) info_response =
      if is_text (as_text (find_field "tx_id" raw_transaction)) txid
      then observe_status min_confirmations
          (lower_text lower (as_text (find_field "status" raw_transaction))) raw_transaction
          info_response
      else ambiguous "transaction_id_mismatch"

  unfoldable pub observe_response :
      ℕ → String → Option Response → Option Response → ChainObservation
  observe_response min_confirmations txid none info_response =
      ambiguous "transaction_api_unavailable"
  observe_response min_confirmations txid (some transaction_response) info_response =
      if eqb transaction_response.status 404
      then pending "transaction_not_found"
      else if is_ok transaction_response.status
      then observe_record min_confirmations txid
          (as_record (bounded_json decode parse_json transaction_response)) info_response
      else ambiguous (String.◌++◌ "transaction_api_http_" (decimal transaction_response.status))

  -- `observe`: the first argument is `settlementMinConfirmations`.
  unfoldable pub observe : ℕ → String → Option Response → Option Response → ChainObservation
  observe min_confirmations txid transaction_response info_response =
      if is_txid txid
      then observe_response min_confirmations txid transaction_response info_response
      else ambiguous "invalid_stored_txid"
