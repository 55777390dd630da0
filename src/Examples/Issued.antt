-- ===== src/Examples/Issued.antt =====
-- The theorem on the issuing of quotes, at a concrete call.
use perk_os_nayori_platform.Prelude.Text.{matches, repeats, strip_prefix, char_length, all_chars}
use perk_os_nayori_platform.Ledger.Quotes.{quote_passes}
use perk_os_nayori_platform.Prelude.{◌≡◌, refl, false, none, some, [], arith, ok}
use perk_os_nayori_platform.Prelude.Json.{null}
use perk_os_nayori_platform.Limiter.{consume}
use perk_os_nayori_platform.Prelude.Map.{get}
use perk_os_nayori_platform.Merchant.{Network, resolve_quote_policy, path_matches_prefix}
use perk_os_nayori_platform.Ledger.Quotes.{insert_issued_quote}
use perk_os_nayori_platform.Prelude.Text.{strip_prefix}
use perk_os_nayori_platform.Ledger.Reach.{empty}
use perk_os_nayori_platform.Settlement.{Services}
use perk_os_nayori_platform.Settlement.Validation.{validate_quote}
use perk_os_nayori_platform.Settlement.Checks.{as_quote}
use perk_os_nayori_platform.Quoting
use perk_os_nayori_platform.Quoting.{issue, prepare}
use perk_os_nayori_platform.Signing.{NayoriX402Quote, VerifiedQuoteToken}
use perk_os_nayori_platform.Quoting.Issuing.{IsFaithful, issue_valid}
use perk_os_nayori_platform.Examples.Calls.{merchant, quote_request, parse_url, token, quote}
use perk_os_nayori_platform.Examples.Payments.{config, services, moments}

abbrev created : Quoting.QuoteInput → NayoriX402Quote
created i = record quote {
  quote_id = i.quote_id;
  merchant_id = i.merchant_id;
  method = i.method;
  url = i.url;
  amount = i.amount;
  pay_to = i.pay_to;
  issued_at = i.issued_at;
  expires_at = i.expires_at;
}

abbrev quoting_config : Quoting.Config
quoting_config = record {
  stacks_network = Network.mainnet;
  quote_max_ttl_seconds = 300;
  quote_rate_limit_per_minute = 60;
}

abbrev quoting : Quoting.Services
quoting = record {
  authenticate = λ authorization scope. ok merchant;
  parse_request = λ input. some quote_request;
  canonicalize = some;
  parse_url = parse_url;
  create_quote = λ i. some (created i);
  fingerprint = λ q. "ny1_000000000000000000000000001";
  route_config_hash = λ m. "00000000000000000000000000000000000000000000000000000000000000e1";
  sign = λ t. "signed";
  sha256 = λ s. "00000000000000000000000000000000000000000000000000000000000000c1";
}

abbrev quoting_moments : Quoting.Moments
quoting_moments = record {
  consumed_at = 1000;
  issued_at = 1000;
  db_now = 1000;
  new_quote_id = "nq_1";
  before_insert = λ db. db;
}

abbrev quoted : NayoriX402Quote
quoted = record quote { url = "https://acme.example/v1/items" }

abbrev quoted_token : VerifiedQuoteToken
quoted_token = record token { quote = quoted }

abbrev verifying : Services
verifying = record services { verify_token = λ signed now. some quoted_token }

abbrev quoting_world : Quoting.World
quoting_world = record { ledger = empty; windows = [] }

abbrev quoted_world : Quoting.World
quoted_world = (Quoting.issue quoting_config quoting quoting_moments none null quoting_world).1

abbrev quote_result : Quoting.IssuedQuoteResult
quote_result = record {
  merchant_id = "nayori-public-resource";
  route_id = "items";
  quote_id = "nq_1";
  quote = quoted;
  signed_quote = "signed";
}

created-IsFaithful : IsFaithful (λ i. some (created i)) (λ network. "stacks:1")
created-IsFaithful = record {
  merchant = λ i q h. cc;
  network = λ i q h. cc;
  issued = λ i q h. cc;
  expires = λ i q h. cc;
}

issued_refl :
    Quoting.issue quoting_config quoting quoting_moments none null quoting_world
    ≡ (ok quote_result, quoted_world)
unfolding issue resolve_quote_policy path_matches_prefix insert_issued_quote quote_passes matches
    repeats char_length all_chars get consume strip_prefix
issued_refl = refl

prepared_refl :
    Quoting.prepare quoting_config quoting quoting_moments merchant null
    ≡ ok (quote_request, quoted_token)
unfolding prepare resolve_quote_policy path_matches_prefix get strip_prefix
prepared_refl = refl

issue_valid_example :
    (quote_result.signed_quote ≡ quoting.sign quoted_token)
    × (validate_quote config verifying moments merchant "signed" false quoted_world.ledger
        ≡ ok (as_quote config verifying merchant quoted_token "signed"))
issue_valid_example =
    issue_valid quoting_config quoting config verifying quoting_moments none null quoting_world
      quoted_world quote_result merchant quote_request quoted_token moments false issued_refl refl
      prepared_refl created-IsFaithful refl refl refl (omega arith)
