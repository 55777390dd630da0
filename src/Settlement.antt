-- ===== src/Settlement.antt =====
-- The settlement service: its data and the state it works on (src/settlement.ts). Its checks are
-- Settlement/Validation.antt, its use of the store Settlement/Settling.antt, and its reads and
-- deliveries Settlement/Serving.antt. Instants stay numbers where the source prints them.
pub mod Public
pub mod Validation
pub mod Settling
pub mod Serving
pub mod Checks
pub mod Taken
pub mod Broadcasts
pub mod Replays
pub mod Access
use mathlib.Core.Option
use perk_os_nayori_platform.Prelude.{
  ℕ, String, Bool, true, false, ◌&&◌, Option, none, some, List, ◌==◌, if◌then◌else◌, Result,
}
use perk_os_nayori_platform.Prelude.Json.{Value}
use perk_os_nayori_platform.Prelude.Text.{matches, is_hex}
use perk_os_nayori_platform.Limiter.{Windows}
use perk_os_nayori_platform.Merchant.{MerchantRecord, Network}
use perk_os_nayori_platform.Auth.{MerchantAuthenticator}
use perk_os_nayori_platform.Broadcast.{BroadcastResult}
use perk_os_nayori_platform.Ledger.{SettlementStatus, DeliveryStatus, Ledger, StoreError}
use perk_os_nayori_platform.Ledger.Selecting.{SettlementRecord}
use perk_os_nayori_platform.Ledger.Deliveries.{DeliveryLedgerRecord}
use perk_os_nayori_platform.Signing.{NayoriX402Quote, VerifiedQuoteToken}

-- `settlementIdSchema` and `responseDigestSchema`
abbrev pub is_settlement_id : String → Bool
is_settlement_id = matches "ns_" 32 is_hex

abbrev pub is_response_digest : String → Bool
is_response_digest = matches "" 64 is_hex

pub record ProtectedRequest : Type 0 where
  pub method : String
  pub url : String
  pub body : Option String

pub record PaymentRequest : Type 0 where
  pub signed_quote : String
  pub payment_requirements : Value
  pub payment_payload : Value
  pub request : ProtectedRequest

pub record MppPaymentRequest : Type 0 where
  pub signed_quote : String
  pub credential : Value
  pub request : ProtectedRequest

-- A `SettlementServiceError` with its code, status and retry time (its message, which follows
-- from the code, is left out), or any other error.
pub data Failure : Type 0 where
  service : String → ℕ → Option ℕ → Failure
  thrown : String → Failure

-- `NayoriX402VerifiedDirectPayment` and `NayoriMppVerifiedUsdcStacksPayment`, as far as they are read
pub record VerifiedPayment : Type 0 where
  pub sponsored : Bool
  pub transaction_id : Option String
  pub x402_network : String
  pub asset : String
  pub amount : ℕ
  pub payer : String
  pub pay_to : String
  pub transaction : String

-- `status` is always "verified", and `sponsored` false.
pub record PaymentVerification : Type 0 where
  pub quote_id : String
  pub merchant_id : String
  pub network : String
  pub asset : String
  pub amount : ℕ
  pub payer : String
  pub pay_to : String
  pub txid : String

pub record SettlementDelivery : Type 0 where
  pub delivery_id : String
  pub status : DeliveryStatus
  pub response_digest : Option String

pub record PublicSettlement : Type 0 where
  pub settlement_id : String
  pub quote_id : String
  pub network : String
  pub txid : String
  pub payer : String
  pub status : SettlementStatus
  pub failure_reason : Option String
  pub broadcast_attempted_at : Option ℕ
  pub broadcast_at : Option ℕ
  pub created_at : ℕ
  pub updated_at : ℕ
  pub confirmed : Bool
  pub receipt : Option String
  pub delivery_available : Bool
  pub delivery : Option SettlementDelivery

pub record PublicDelivery : Type 0 where
  pub delivery_id : String
  pub settlement_id : String
  pub status : DeliveryStatus
  pub attempt_count : ℕ
  pub response_digest : Option String
  pub retry_expires_at : ℕ
  pub receipt_id : String
  pub receipt : String

pub record SettlementResult : Type 0 where
  pub settlement : PublicSettlement
  pub replayed : Bool

-- `transaction_id` is the payment's, which is there.
pub record ValidatedPayment : Type 0 where
  pub merchant : MerchantRecord
  pub token : VerifiedQuoteToken
  pub payment : VerifiedPayment
  pub transaction_id : String
  pub signed_token_hash : String

pub record ValidatedQuote : Type 0 where
  pub merchant : MerchantRecord
  pub token : VerifiedQuoteToken
  pub signed_token_hash : String

-- The fields of `AppConfig` that the service reads.
pub record Config : Type 0 where
  pub stacks_network : Network
  pub delivery_ledger_enabled : Bool
  pub payment_rate_limit_per_minute : ℕ

-- What the service calls: the authenticator, the token check of the signer with `none` for an
-- error, SHA-256 of a text and of the bytes that a hexadecimal text names, the zod schemas, the
-- SDK's verifiers, which fail with a reason or with another error, the SDK's challenge, the SDK's
-- network names, `new URL(u).hostname`, and the broadcaster, if there is one.
pub record Services : Type 0 where
  pub authenticate : MerchantAuthenticator
  pub verify_token : String → ℕ → Option VerifiedQuoteToken
  pub sha256 : String → String
  pub sha256_of_hex : String → String
  pub parse_payment : Value → Option PaymentRequest
  pub parse_mpp_payment : Value → Option MppPaymentRequest
  pub verifier : PaymentRequest → NayoriX402Quote → ℕ → Result (Option String) VerifiedPayment
  pub mpp_challenge : NayoriX402Quote → String → Option String
  pub mpp_verifier :
      MppPaymentRequest → String → NayoriX402Quote → ℕ → Result (Option String) VerifiedPayment
  pub x402_network : Network → String
  pub hostname : String → String
  pub broadcaster : Option (String → BroadcastResult)

-- The clock readings of one call, the id it draws, and what other processes commit before each of
-- its three uses of the store.
pub record Moments : Type 0 where
  pub consumed_at : ℕ
  pub verified_at : ℕ
  pub checked_at : ℕ
  pub proved_at : ℕ
  pub date_now : ℕ
  pub reserved_at : ℕ
  pub attempted_at : ℕ
  pub updated_at : ℕ
  pub new_settlement_id : String
  pub before_find : Ledger → Ledger
  pub before_reserve : Ledger → Ledger
  pub before_update : Ledger → Ledger

-- A call of the broadcaster: the transaction, and the quote that it was for.
pub record Sent : Type 0 where
  pub quote_id : String
  pub transaction : String

-- What a call of the service can change: the tables, the rate limiter, and what was broadcast.
pub record World : Type 0 where
  pub ledger : Ledger
  pub windows : Windows
  pub sent : List Sent

abbrev pub Answer : Type 0 → Type 0
Answer A = Result Failure A × World

-- The `code` of a store error, with `none` for an error of another kind.
abbrev pub settlement_code : StoreError → Option String
settlement_code StoreError.quote_unavailable = some "quote_unavailable"
settlement_code StoreError.payment_replayed = some "payment_replayed"
settlement_code _ = none
