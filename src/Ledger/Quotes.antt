-- ===== src/Ledger/Quotes.antt =====
-- `insertIssuedQuote` and `findStoredQuote` of `PostgresDatabase` (src/database.ts). An INSERT that
-- breaks a UNIQUE or CHECK constraint of migrations/001 and 002 is an error and changes nothing. The merchant
-- is there, since the quote service has authenticated it and no statement deletes merchants.
use perk_os_nayori_platform.Prelude.{
  ℕ, ◌+◌, String, Bool, not, ◌&&◌, ◌||◌, Option, none, some, ◌∷◌, ◌==◌, ltb, leb, eqb,
  if◌then◌else◌, any, Result, ok, ◌>>◌, throw_if,
}
use perk_os_nayori_platform.Prelude.Text.{
  is_hex, is_base64url, repeats, matches, all_chars, is_short, char_length,
}
use perk_os_nayori_platform.Ledger.{
  IssuedQuoteRecord, QuoteStatus, StoredQuoteRecord, QuoteRow, Ledger, StoreError, find_quote,
}

-- The unique columns of `quotes`: `quote_id`, `fingerprint` and `signed_token_hash`.
abbrev pub clashes_with : IssuedQuoteRecord → QuoteRow → Bool
clashes_with new q =
    q.quote_id == new.quote_id
    || q.fingerprint == new.fingerprint
    || q.signed_token_hash == new.signed_token_hash

abbrev pub issued_row : ℕ → IssuedQuoteRecord → QuoteRow
issued_row db_now new = record {
  stored = record { record_ = new; status = QuoteStatus.issued };
  updated_at = db_now;
}

abbrev is_upper : ℕ → Bool
is_upper c = leb b'A' c && leb c b'Z'

abbrev is_digit : ℕ → Bool
is_digit c = leb b'0' c && leb c b'9'

abbrev is_zero : ℕ → Bool
is_zero c = eqb c b'0'

-- A text of decimal digits that is a positive `numeric(78, 0)`.
abbrev is_amount : String → Bool
is_amount s = all_chars is_digit s && is_short 78 s && not (all_chars is_zero s)

-- The CHECK constraints of `quotes` (migrations/001 and 002). The five minutes are in milliseconds.
unfoldable pub quote_passes : IssuedQuoteRecord → Bool
unfolding matches repeats char_length all_chars
quote_passes new =
    is_short 2048 new.audience
    && is_short 16 new.request_method
    && all_chars is_upper new.request_method
    && is_short 4096 new.canonical_url
    && repeats 64 is_hex new.body_hash
    && is_short 128 new.network
    && is_short 512 new.asset_id
    && is_amount new.amount_atomic
    && is_short 256 new.pay_to
    && matches "ny1_" 27 is_base64url new.fingerprint
    && repeats 64 is_hex new.route_config_hash
    && repeats 64 is_hex new.signed_token_hash
    && ltb new.issued_at new.expires_at
    && leb new.expires_at (new.issued_at + 300000)

unfoldable pub insert_issued_quote :
    ℕ → IssuedQuoteRecord → Ledger → Result StoreError (Unit {0} × Ledger)
insert_issued_quote db_now new db = do
  throw_if (not (quote_passes new)) (StoreError.other "23514")
  throw_if (any (clashes_with new) db.quotes) (StoreError.other "23505")
  ok (tt, record db { quotes = issued_row db_now new ∷ db.quotes })

abbrev owned_by : String → QuoteRow → Option StoredQuoteRecord
owned_by merchant_id q = if q.merchant_id == merchant_id then some q.stored else none

abbrev bind_owned : String → Option QuoteRow → Option StoredQuoteRecord
bind_owned merchant_id none = none
bind_owned merchant_id (some q) = owned_by merchant_id q

unfoldable pub find_stored_quote : String → String → Ledger → Option StoredQuoteRecord
find_stored_quote quote_id merchant_id db = bind_owned merchant_id (find_quote quote_id db)
