-- ===== src/Receipts/Laws.antt =====
-- What `sanitizeCanonicalReceipt` lets through.
use midnight_referendum_app.Base.{
  ℕ, ◌≤◌, ◌≡◌, refl, ◌≢◌, false, Option, none, some, List, [], ◌∷◌, arith, subst, All,
}
use mathlib.Core.Option.{some-injective}
use midnight_referendum_app.Base.Text.{Text, codes, includes, text_eq_iff}
use midnight_referendum_app.Base.Json.{
  Value, Fields, object, field, property, property-field_ne, max_safe_integer, as_non_empty,
  safe_natural, number, natural, string,
}
use midnight_referendum_app.Receipts.{
  CanonicalReceipt, ◌>>=◌, sanitize_fields, sanitize_canonical_receipt, receipt_value,
}

-- A receipt that the guard accepts: its texts are not empty and its height is a safe integer.
pub record IsPublic (r : CanonicalReceipt) : Type 0 where
  pub transaction_id : r.transaction_id ≢ []
  pub transaction_hash : r.transaction_hash ≢ []
  pub contract_address : r.contract_address ≢ []
  pub circuit : r.circuit ≢ []
  pub block_height : r.block_height ≤ max_safe_integer
  pub block_hash : r.block_hash ≢ []
  pub block_timestamp : r.block_timestamp ≢ []

pub sanitize-receipt_value :
    (r : CanonicalReceipt) → IsPublic r → sanitize_canonical_receipt (receipt_value r) ≡ some r
unfolding sanitize_canonical_receipt receipt_value ◌>>=◌
sanitize-receipt_value r h = ground arith

-- What holds of every result of a fallible computation.
abbrev pub Ensures {ℓ} : {A : Type ℓ} → (A → Type 0) → Option A → Type ℓ
Ensures {A} P o = (a : A) → o ≡ some a → P a

pub bind-Ensures {ℓ κ} :
    {A : Type ℓ} {B : Type κ} (P : B → Type 0) (m : Option A) (f : A → Option B)
    → ((a : A) → m ≡ some a → Ensures P (f a))
    → Ensures P (m >>= f)
unfolding ◌>>=◌
bind-Ensures P none f h b e = cc
bind-Ensures P (some a) f h b e = h a refl b e

pub as_non_empty-ne : (v : Value) (s : Text) → as_non_empty v ≡ some s → s ≢ []
as_non_empty-ne (string (c ∷ t)) s e = ground arith
as_non_empty-ne v s e = ground arith

safe_natural-le : (v : Value) (n : ℕ) → safe_natural v ≡ some n → n ≤ max_safe_integer
safe_natural-le (number (natural k)) n e = ground arith
safe_natural-le v n e = ground arith

sanitize_fields-IsPublic : (f : Fields) → Ensures IsPublic (sanitize_fields f)
unfolding sanitize_fields
sanitize_fields-IsPublic f = bind-Ensures IsPublic _ _ λ _ _. bind-Ensures IsPublic _ _ λ _ _.
    bind-Ensures IsPublic _ _ λ _ _. bind-Ensures IsPublic _ _ λ _ _.
      bind-Ensures IsPublic _ _ λ _ _. bind-Ensures IsPublic _ _ λ transaction_id h1.
        bind-Ensures IsPublic _ _ λ transaction_hash h2.
          bind-Ensures IsPublic _ _ λ contract_address h3. bind-Ensures IsPublic _ _ λ circuit h4.
            bind-Ensures IsPublic _ _ λ block_height h5. bind-Ensures IsPublic _ _ λ block_hash h6.
              bind-Ensures IsPublic _ _ λ block_timestamp h7.
                bind-Ensures IsPublic _ _ λ explorer_url _ r e.
                  subst IsPublic (some-injective _ _ e) (record {
                    transaction_id = as_non_empty-ne _ _ h1;
                    transaction_hash = as_non_empty-ne _ _ h2;
                    contract_address = as_non_empty-ne _ _ h3;
                    circuit = as_non_empty-ne _ _ h4;
                    block_height = safe_natural-le (property f (codes "blockHeight")) _ h5;
                    block_hash = as_non_empty-ne _ _ h6;
                    block_timestamp = as_non_empty-ne _ _ h7;
                  })

pub sanitize-IsPublic :
    (v : Value) (r : CanonicalReceipt) → sanitize_canonical_receipt v ≡ some r → IsPublic r
unfolding sanitize_canonical_receipt
sanitize-IsPublic (object f) r e = sanitize_fields-IsPublic f r e
sanitize-IsPublic v r e = cc

-- What the guard returns it returns again: the stored object is read back as the same receipt.
pub sanitize_stable :
    (v : Value) (r : CanonicalReceipt)
    → sanitize_canonical_receipt v ≡ some r
    → sanitize_canonical_receipt (receipt_value r) ≡ some r
sanitize_stable v r e = sanitize-receipt_value r (sanitize-IsPublic v r e)

abbrev pub receipt_keys : List Text
receipt_keys =
    codes "status"
    ∷ codes "action"
    ∷ codes "network"
    ∷ codes "transactionId"
    ∷ codes "transactionHash"
    ∷ codes "contractAddress"
    ∷ codes "circuit"
    ∷ codes "blockHeight"
    ∷ codes "blockHash"
    ∷ codes "blockTimestamp"
    ∷ codes "explorerUrl"
    ∷ []

property-field_absent :
    (f : Fields) (key : Text) (v : Value) (keys : List Text)
    → includes keys key ≡ false
    → All (λ k. property (field key v f) k ≡ property f k) keys
property-field_absent f key v [] h = tt
property-field_absent f key v (k ∷ keys) h = (
  property-field_ne f key k v (ground (arith, text_eq_iff k key, text_eq_iff key k)),
  property-field_absent f key v keys (ground arith),
)

-- A field under any other name, such as a witness or a ballot choice, does not change what the
-- guard returns, nor whether it accepts.
pub sanitize-extra_field :
    (f : Fields) (key : Text) (v : Value)
    → includes receipt_keys key ≡ false
    → sanitize_canonical_receipt (object (field key v f)) ≡ sanitize_canonical_receipt (object f)
unfolding sanitize_canonical_receipt
sanitize-extra_field f key v h =
    let same = property-field_absent f key v receipt_keys h in
    unfold sanitize_fields in
    simp (
      same.0, same.1.0, same.1.1.0, same.1.1.1.0, same.1.1.1.1.0, same.1.1.1.1.1.0,
      same.1.1.1.1.1.1.0, same.1.1.1.1.1.1.1.0, same.1.1.1.1.1.1.1.1.0, same.1.1.1.1.1.1.1.1.1.0,
      same.1.1.1.1.1.1.1.1.1.1.0,
    )
