-- ===== src/Relayer/Indexer/Laws.antt =====
-- What a receipt of the resolver of relayer/src/v2-indexer.ts has shown.
use mathlib.Core.Option.{some-injective}
use midnight_referendum_app.Base.{
  ℕ, ◌≡◌, ◌≢◌, ◌≤◌, refl, sym, ◌∙◌, ap, subst, true, false, Option, none, some, [], if◌then◌else◌,
  arith, inl, inr, Bool-cases,
}
use midnight_referendum_app.Base.Text.{Text, codes, text_eq, text_eq_iff, includes, is_blank}
use midnight_referendum_app.Base.Json.{
  Value, Fields, Number, natural, negative, inexact, object, property, max_safe_integer,
}
use midnight_referendum_app.Receipts.{
  CanonicalReceipt, MidnightRuntimeNetwork, network_text, preview, devnet, undeployed, mainnet,
  is_network, receipt_value, sanitize_canonical_receipt,
}
use midnight_referendum_app.Receipts.Laws.{IsPublic, sanitize-receipt_value, Ensures, bind-Ensures}
use midnight_referendum_app.Relayer.Indexer.{
  payload, resolved, Input, IndexerTransaction, Found, absent, malformed, found, transaction_from,
  has_errors, non_blank, block_height, canonical_receipt_from_indexer, resolved_or_threw,
  on_network, of_transaction, resolve,
}

is_blank-empty : is_blank [] ≡ true
unfolding is_blank
is_blank-empty = refl

non_blank-some : (s t : Text) → non_blank s ≡ some t → (t ≡ s) × (t ≢ [])
non_blank-some s t h =
    let (present, same) : (is_blank s ≡ false) × (s ≡ t) = ground (arith, h) in
    (sym same, λ e. ground (arith, is_blank-empty, ap is_blank (same ∙ e), present))

block_height-le : (n : Number) (h : ℕ) → block_height n ≡ some h → h ≤ max_safe_integer
block_height-le (natural m) h e = ground (arith, e)
block_height-le (negative m) h e = ground (arith, e)
block_height-le inexact h e = ground (arith, e)

-- One test of `isNetwork` after the other.
picked :
    (s : Text) (candidate : MidnightRuntimeNetwork) (rest : Option MidnightRuntimeNetwork)
    (network : MidnightRuntimeNetwork)
    → (rest ≡ some network → network_text network ≡ s)
    → (if text_eq s (network_text candidate) then some candidate else rest) ≡ some network
    → network_text network ≡ s
picked s candidate rest network h e = elim (Bool-cases (text_eq s (network_text candidate))) [
  | inl hit ↦
      let k : candidate ≡ network = ground (arith, hit, e) in
      ap network_text (sym k) ∙ sym ((text_eq_iff s (network_text candidate)).0 hit)
  | inr missed ↦ h (ground (arith, missed, e))
]

is_network-text :
    (s : Text) (network : MidnightRuntimeNetwork)
    → is_network s ≡ some network
    → network_text network ≡ s
unfolding is_network
is_network-text s network = picked s preview _ network (
    picked s devnet _ network
      (picked s undeployed _ network (picked s mainnet none network (λ e. ground (arith, e)))))

-- What the receipt takes from the transaction and from the caller.
pub record IsTaken (tx : IndexerTransaction) (network : MidnightRuntimeNetwork) (input : Input)
    (r : CanonicalReceipt) : Type 0 where
  pub network_kept : r.network ≡ network
  pub action : r.action ≡ input.action
  pub transaction_id : r.transaction_id ≡ input.transaction_id
  pub transaction_hash : r.transaction_hash ≡ tx.hash
  pub contract_address : r.contract_address ≡ input.contract_address
  pub circuit : r.circuit ≡ input.circuit
  pub block_hash : r.block_hash ≡ tx.block_hash
  pub is_public : IsPublic r

module _ (iso_string : Number → Option Text) (encode : Text → Text)
    (explorer_base_url : Option Text)
    (dated : (n : Number) (t : Text) → iso_string n ≡ some t → t ≢ []) where
  canonical-IsTaken :
      (tx : IndexerTransaction) (network : MidnightRuntimeNetwork) (input : Input)
      → Ensures
          (IsTaken tx network input)
          (canonical_receipt_from_indexer iso_string encode explorer_base_url tx network input)
  unfolding canonical_receipt_from_indexer
  canonical-IsTaken tx network input =
      let P = IsTaken tx network input in
      bind-Ensures P _ _ λ id h1. bind-Ensures P _ _ λ hash h2. bind-Ensures P _ _ λ address h3.
        bind-Ensures P _ _ λ circuit h4. bind-Ensures P _ _ λ block_hash h5.
          bind-Ensures P _ _ λ height h6. bind-Ensures P _ _ λ timestamp h7 r e.
            subst P (some-injective _ _ e) (record {
              network_kept = refl;
              action = refl;
              transaction_id = (non_blank-some input.transaction_id _ h1).0;
              transaction_hash = (non_blank-some tx.hash _ h2).0;
              contract_address = (non_blank-some input.contract_address _ h3).0;
              circuit = (non_blank-some input.circuit _ h4).0;
              block_hash = (non_blank-some tx.block_hash _ h5).0;
              is_public = record {
                transaction_id = (non_blank-some input.transaction_id _ h1).1;
                transaction_hash = (non_blank-some tx.hash _ h2).1;
                contract_address = (non_blank-some input.contract_address _ h3).1;
                circuit = (non_blank-some input.circuit _ h4).1;
                block_height = block_height-le tx.height _ h6;
                block_hash = (non_blank-some tx.block_hash _ h5).1;
                block_timestamp = dated _ _ h7;
              };
            })

  -- What the payload has shown where a receipt is returned.
  pub record IsConfirmed (input : Input) (v : Value) (r : CanonicalReceipt) : Type 0 where
    pub fields : Fields
    pub transaction : IndexerTransaction
    pub network : MidnightRuntimeNetwork
    pub is_object : v ≡ object fields
    pub no_errors : has_errors (property fields (codes "errors")) ≡ false
    pub read : transaction_from fields ≡ found transaction
    pub listed : includes transaction.identifiers input.transaction_id ≡ true
    pub succeeded : transaction.status ≡ codes "SUCCESS"
    pub touched : includes transaction.contract_actions input.contract_address ≡ true
    pub known_network : network_text network ≡ input.network
    pub taken : IsTaken transaction network input r
    pub guarded : sanitize_canonical_receipt (receipt_value r) ≡ some r

  resolved_or_threw-some :
      (o : Option CanonicalReceipt) (r : CanonicalReceipt)
      → resolved_or_threw iso_string encode explorer_base_url o ≡ resolved r
      → o ≡ some r
  resolved_or_threw-some none r h = ground (arith, h)
  resolved_or_threw-some (some q) r h = ground (arith, h)

  on_network-IsTaken :
      (tx : IndexerTransaction) (input : Input) (r : CanonicalReceipt)
      (o : Option MidnightRuntimeNetwork)
      → is_network input.network ≡ o
      → on_network iso_string encode explorer_base_url tx input o ≡ resolved r
      → (network : MidnightRuntimeNetwork) × (network_text network ≡ input.network)
        × IsTaken tx network input r
  on_network-IsTaken tx input r none e h = ground (arith, h)
  on_network-IsTaken tx input r (some network) e h = (
    network,
    is_network-text input.network network e,
    canonical-IsTaken tx network input r (
        resolved_or_threw-some
          (canonical_receipt_from_indexer iso_string encode explorer_base_url tx network input) r
          h),
  )

  of_transaction-IsConfirmed :
      (input : Input) (f : Fields) (r : CanonicalReceipt) (q : Found)
      → has_errors (property f (codes "errors")) ≡ false
      → transaction_from f ≡ q
      → of_transaction iso_string encode explorer_base_url input q ≡ resolved r
      → IsConfirmed input (object f) r
  of_transaction-IsConfirmed input f r (found tx) errors e h =
      let (listed, success, touched, k) : (includes tx.identifiers input.transaction_id ≡ true)
          × (text_eq tx.status (codes "SUCCESS") ≡ true)
          × (includes tx.contract_actions input.contract_address ≡ true)
          × (on_network iso_string encode explorer_base_url tx input (is_network input.network)
              ≡ resolved r) =
        ground (arith, h) in
      let (network, known, taken) =
        on_network-IsTaken tx input r (is_network input.network) refl k in
      record {
        fields = f;
        transaction = tx;
        network = network;
        is_object = refl;
        no_errors = errors;
        read = e;
        listed = listed;
        succeeded = (text_eq_iff tx.status (codes "SUCCESS")).0 success;
        touched = touched;
        known_network = known;
        taken = taken;
        guarded = sanitize-receipt_value r taken.is_public;
      }
  of_transaction-IsConfirmed input f r absent errors e h = ground (arith, h)
  of_transaction-IsConfirmed input f r malformed errors e h = ground (arith, h)

  -- A receipt is returned only for a payload without errors whose first transaction succeeded, lists
  -- the transaction id that was asked for and touches the requested contract; the receipt names that
  -- transaction, contract, circuit and action, and passes the guard on receipts as it is, where a date
  -- is never written as the empty text.
  pub resolve-IsConfirmed :
      (input : Input) (v : Value) (r : CanonicalReceipt)
      → resolve iso_string encode explorer_base_url input (payload v) ≡ resolved r
      → IsConfirmed input v r
  unfolding resolve
  resolve-IsConfirmed input (object f) r h =
      let (errors, k) : (has_errors (property f (codes "errors")) ≡ false)
          × (of_transaction iso_string encode explorer_base_url input (transaction_from f)
              ≡ resolved r) =
        ground (arith, h) in
      of_transaction-IsConfirmed input f r (transaction_from f) errors refl k
  resolve-IsConfirmed input _ r h = ground (arith, h)
