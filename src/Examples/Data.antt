-- ===== src/Examples/Data.antt =====
-- One quote, its payment, and the tables after each transaction on them (src/database.ts).
use perk_os_nayori_platform.Prelude.{[], ◌∷◌}
use perk_os_nayori_platform.Ledger.{IssuedQuoteRecord, SettlementRow, Ledger, QuoteRow}
use perk_os_nayori_platform.Ledger.Quotes.{issued_row}
use perk_os_nayori_platform.Ledger.Reserve.{SettlementReservation, validated_row, with_reservation}
use perk_os_nayori_platform.Ledger.Claims.{with_leases, leased_row}
use perk_os_nayori_platform.Ledger.Reconciling.{ConfirmedInput, with_confirmed, confirmed_row}
use perk_os_nayori_platform.Ledger.Reach.{empty}

abbrev pub issued_quote : IssuedQuoteRecord
issued_quote = record {
  quote_id = "nq_1";
  merchant_id = "nayori-public-resource";
  audience = "shop";
  request_method = "GET";
  canonical_url = "https://acme.example/a";
  body_hash = "00000000000000000000000000000000000000000000000000000000000000b0";
  network = "stacks:1";
  asset_id = "usdcx";
  amount_atomic = "100";
  pay_to = "SP1";
  fingerprint = "ny1_000000000000000000000000001";
  route_config_hash = "00000000000000000000000000000000000000000000000000000000000000e1";
  signed_token_hash = "00000000000000000000000000000000000000000000000000000000000000c1";
  issued_at = 1000;
  expires_at = 61000;
}

abbrev pub quote_row : QuoteRow
quote_row = issued_row 1000 issued_quote

abbrev pub after_issue : Ledger
after_issue = record empty { quotes = quote_row ∷ [] }

abbrev pub reservation : SettlementReservation
reservation = record {
  settlement_id = "ns_00000000000000000000000000000001";
  quote_id = "nq_1";
  merchant_id = "nayori-public-resource";
  network = "stacks:1";
  txid = "0x0000000000000000000000000000000000000000000000000000000000000001";
  payer = "SP2";
  raw_tx_hash = "00000000000000000000000000000000000000000000000000000000000000d1";
  verifier_version = "v";
  verifier_checksum = "00000000000000000000000000000000000000000000000000000000000000cc";
  expected_signed_token_hash = "00000000000000000000000000000000000000000000000000000000000000c1";
}

abbrev pub settlement_row : SettlementRow
settlement_row = validated_row 2000 reservation

abbrev pub after_reserve : Ledger
after_reserve = with_reservation 2000 reservation after_issue

abbrev pub after_lease : Ledger
after_lease = with_leases 3000 33000 ("ns_00000000000000000000000000000001" ∷ []) after_reserve

abbrev pub leased_settlement : SettlementRow
leased_settlement = leased_row 3000 33000 settlement_row

abbrev pub confirmation : ConfirmedInput
confirmation = record {
  settlement_id = "ns_00000000000000000000000000000001";
  checked_at = 4000;
  block_height = 7;
  block_hash = "0x0000000000000000000000000000000000000000000000000000000000000001";
  confirmations = 6;
  receipt = record {
    receipt_id = "nr_00000000000000000000000000000001";
    settlement_id = "ns_00000000000000000000000000000001";
    key_id = "k";
    payload_hash = "000000000000000000000000000000000000000000000000000000000000000a";
    token_hash = "000000000000000000000000000000000000000000000000000000000000000b";
    signed_token = "receipt";
    issued_at = 4000;
  };
  delivery_id = "nd_00000000000000000000000000000001";
  request_digest = "000000000000000000000000000000000000000000000000000000000000000d";
  delivery_retry_expires_at = 90000;
}

abbrev pub after_confirm : Ledger
after_confirm = with_confirmed 4000 confirmation leased_settlement after_lease

abbrev pub confirmed_settlement : SettlementRow
confirmed_settlement = confirmed_row 4000 confirmation leased_settlement
