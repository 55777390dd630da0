-- ===== src/Auth.antt =====
-- The bearer credentials of a merchant (src/auth.ts). SHA-256 and the look-up of the merchant that
-- owns a hash (`findActiveMerchantByApiKeyHash`) are parameters.
pub mod Laws
use perk_os_nayori_platform.Prelude.{String, Option, none, some, Result, or_throw}
use perk_os_nayori_platform.Merchant.{MerchantRecord, hash_merchant_api_key, parse_bearer_api_key}

pub data OauthScope : Type 0 where
  catalog_read quotes_create payments_verify payments_settle payments_read mcp_invoke : OauthScope

-- The code of a `MerchantAuthenticationError`, or any other error.
pub data AuthError : Type 0 where
  unauthorized insufficient_scope other : AuthError

-- The interface that the services call.
abbrev pub MerchantAuthenticator : Type 0
MerchantAuthenticator = Option String → OauthScope → Result AuthError MerchantRecord

abbrev bind_hash : (String → String) → Option String → Option String
bind_hash sha256 none = none
bind_hash sha256 (some api_key) = hash_merchant_api_key sha256 api_key

abbrev bind_merchant : (String → Option MerchantRecord) → Option String → Option MerchantRecord
bind_merchant find none = none
bind_merchant find (some api_key_hash) = find api_key_hash

-- `createApiKeyAuthenticator`
unfoldable pub api_key_authenticator :
    (String → String) → (String → Option MerchantRecord) → MerchantAuthenticator
api_key_authenticator sha256 find authorization required_scope =
    or_throw (bind_merchant find (bind_hash sha256 (parse_bearer_api_key authorization)))
      AuthError.unauthorized
