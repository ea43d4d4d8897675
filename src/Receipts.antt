-- ===== src/Receipts.antt =====
-- api/src/receipts/canonical.ts: the guard that every durable or public receipt passes
-- (`sanitizeCanonicalReceipt`, `isAction`, `isNetwork`), and the receipt type of
-- api/src/passport-v2/types.ts.
pub mod Laws
mod Tests
use midnight_referendum_app.Base.{
  ℕ, Bool, true, false, Option, none, some, List, [], ◌∷◌, is_some, if◌then◌else◌,
}
use midnight_referendum_app.Base.Text.{Text, codes, text_eq}
use midnight_referendum_app.Base.Json.{
  Value, Values, Fields, undefined, null, number, natural, string, object, end, field, property,
  safe_natural, as_string, as_non_empty,
}

pub data CivicActionKind : Type 0 where
  credential vote cohort : CivicActionKind

pub data MidnightRuntimeNetwork : Type 0 where
  preview devnet undeployed mainnet : MidnightRuntimeNetwork

-- The constant field `status: 'confirmed'` is left out.
pub record CanonicalReceipt : Type 0 where
  pub action : CivicActionKind
  pub network : MidnightRuntimeNetwork
  pub transaction_id : Text
  pub transaction_hash : Text
  pub contract_address : Text
  pub circuit : Text
  pub block_height : ℕ
  pub block_hash : Text
  pub block_timestamp : Text
  pub explorer_url : Option Text

abbrev pub action_text : CivicActionKind → Text
action_text credential = codes "credential"
action_text vote = codes "vote"
action_text cohort = codes "cohort"

abbrev pub network_text : MidnightRuntimeNetwork → Text
network_text preview = codes "preview"
network_text devnet = codes "devnet"
network_text undeployed = codes "undeployed"
network_text mainnet = codes "mainnet"

infixl 5 ◌>>=◌
unfoldable pub ◌>>=◌ {ℓ κ} : {A : Type ℓ} {B : Type κ} → Option A → (A → Option B) → Option B
none >>= k = none
some a >>= k = k a

unfoldable pub is_action : Text → Option CivicActionKind
unfolding text_eq
is_action s =
    if text_eq s (codes "credential")
    then some credential
    else (if text_eq s (codes "vote")
        then some vote
        else (if text_eq s (codes "cohort") then some cohort else none))

unfoldable pub is_network : Text → Option MidnightRuntimeNetwork
unfolding text_eq
is_network s =
    if text_eq s (codes "preview")
    then some preview
    else (if text_eq s (codes "devnet")
        then some devnet
        else (if text_eq s (codes "undeployed")
            then some undeployed
            else (if text_eq s (codes "mainnet") then some mainnet else none)))

-- `value.status !== 'confirmed'` throws.
abbrev pub confirmed : Value → Option (Unit {0})
confirmed (string s) = if text_eq s (codes "confirmed") then some tt else none
confirmed _ = none

-- A field that may be missing and is a string where it is there.
abbrev pub optional_string : Value → Option (Option Text)
optional_string undefined = some none
optional_string (string s) = some (some s)
optional_string _ = none

-- `none` is the TypeError.
unfoldable pub sanitize_fields : Fields → Option CanonicalReceipt
unfolding property is_action is_network
sanitize_fields f = do
  ok ← confirmed (property f (codes "status"))
  action_name ← as_string (property f (codes "action"))
  action ← is_action action_name
  network_name ← as_string (property f (codes "network"))
  network ← is_network network_name
  transaction_id ← as_non_empty (property f (codes "transactionId"))
  transaction_hash ← as_non_empty (property f (codes "transactionHash"))
  contract_address ← as_non_empty (property f (codes "contractAddress"))
  circuit ← as_non_empty (property f (codes "circuit"))
  block_height ← safe_natural (property f (codes "blockHeight"))
  block_hash ← as_non_empty (property f (codes "blockHash"))
  block_timestamp ← as_non_empty (property f (codes "blockTimestamp"))
  explorer_url ← optional_string (property f (codes "explorerUrl"))
  some (record {
    action = action;
    network = network;
    transaction_id = transaction_id;
    transaction_hash = transaction_hash;
    contract_address = contract_address;
    circuit = circuit;
    block_height = block_height;
    block_hash = block_hash;
    block_timestamp = block_timestamp;
    explorer_url = explorer_url;
  })

unfoldable pub sanitize_canonical_receipt : Value → Option CanonicalReceipt
unfolding sanitize_fields
sanitize_canonical_receipt (object f) = sanitize_fields f
sanitize_canonical_receipt _ = none

unfoldable pub is_canonical_receipt : Value → Bool
unfolding sanitize_canonical_receipt
is_canonical_receipt v = is_some (sanitize_canonical_receipt v)

abbrev explorer_field : Option Text → Fields
explorer_field none = end
explorer_field (some url) = field (codes "explorerUrl") (string url) end

-- The object that a receipt is, as JSON.stringify reads it.
unfoldable pub receipt_value : CanonicalReceipt → Value
receipt_value r = object (
    field (codes "status") (string (codes "confirmed")) (
      field (codes "action") (string (action_text r.action)) (
        field (codes "network") (string (network_text r.network)) (
          field (codes "transactionId") (string r.transaction_id) (
            field (codes "transactionHash") (string r.transaction_hash) (
              field (codes "contractAddress") (string r.contract_address) (
                field (codes "circuit") (string r.circuit) (
                  field (codes "blockHeight") (number (natural r.block_height)) (
                    field (codes "blockHash") (string r.block_hash) (
                      field (codes "blockTimestamp") (string r.block_timestamp)
                        (explorer_field r.explorer_url)))))))))))
