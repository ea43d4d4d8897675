-- ===== src/Receipts/Tests.antt =====
-- Receipts at concrete values.
use midnight_referendum_app.Base.{◌≡◌, refl, none, some, true, false}
use midnight_referendum_app.Base.Text.{codes, includes, text_eq}
use midnight_referendum_app.Base.Json.{Value, Fields, object, field, string, boolean}
use midnight_referendum_app.Receipts.{
  CanonicalReceipt, vote, preview, sanitize_canonical_receipt, receipt_value, is_canonical_receipt,
  ◌>>=◌,
}
use midnight_referendum_app.Receipts.Laws.{sanitize_stable, sanitize-extra_field, receipt_keys}

abbrev sample : CanonicalReceipt
sample = record {
  action = vote;
  network = preview;
  transaction_id = codes "tx-1";
  transaction_hash = codes "ab";
  contract_address = codes "c1";
  circuit = codes "castVote";
  block_height = 7;
  block_hash = codes "bb";
  block_timestamp = codes "t";
  explorer_url = none;
}

abbrev fields_of : Value → Fields
fields_of (object f) = f
fields_of _ = Fields.end

abbrev sample_fields : Fields
unfolding receipt_value
sample_fields = fields_of (receipt_value sample)

accepts_sample : sanitize_canonical_receipt (receipt_value sample) ≡ some sample
unfolding sanitize_canonical_receipt receipt_value ◌>>=◌
accepts_sample = refl

refuses_pending :
    is_canonical_receipt (object (field (codes "status") (string (codes "pending")) Fields.end))
    ≡ false
unfolding is_canonical_receipt ◌>>=◌
refuses_pending = refl

sanitize_stable_example : sanitize_canonical_receipt (receipt_value sample) ≡ some sample
sanitize_stable_example = sanitize_stable (receipt_value sample) sample accepts_sample

choice_is_extra : includes receipt_keys (codes "choice") ≡ false
unfolding text_eq
choice_is_extra = refl

sanitize-extra_field_example :
    sanitize_canonical_receipt (object (field (codes "choice") (boolean true) Fields.end))
    ≡ sanitize_canonical_receipt (object Fields.end)
sanitize-extra_field_example =
    sanitize-extra_field Fields.end (codes "choice") (boolean true) choice_is_extra
