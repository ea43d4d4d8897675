-- ===== src/Relayer/Indexer.antt =====
-- relayer/src/v2-indexer.ts: MidnightIndexerReceiptResolver, with canonicalReceiptFromIndexer of
-- api/src/receipts/canonical.ts. The answer to the fetch comes with the call; `toISOString` and
-- `encodeURIComponent` are parameters.
pub mod Laws
mod Tests
use midnight_referendum_app.Base.{
  ℕ, suc, ◌+◌, ◌-◌, ◌*◌, Bool, true, false, not, ◌&&◌, ◌||◌, Option, none, some, List, [], ◌∷◌,
  ◌++◌, ltb, leb, ◌==◌, if◌then◌else◌, any,
}
use midnight_referendum_app.Base.Text.{Text, codes, text_eq, includes, is_blank}
use midnight_referendum_app.Base.Json.{
  Value, Values, Fields, Number, natural, negative, inexact, number, string, array, object, nil,
  cons, property, max_safe_integer, as_string,
}
use midnight_referendum_app.Receipts.{
  CanonicalReceipt, CivicActionKind, MidnightRuntimeNetwork, is_network, ◌>>=◌,
}

-- How the fetch ends: the abort, another throw, a status that is not ok, or the payload.
pub data Fetched : Type 0 where
  aborted fetch_failed http_error : Fetched
  payload : Value → Fetched

pub data Resolved : Type 0 where
  resolved : CanonicalReceipt → Resolved
  pending indexer_rejected indexer_contract_mismatch threw : Resolved

pub record Input : Type 0 where
  pub transaction_id : Text
  pub network : Text
  pub contract_address : Text
  pub circuit : Text
  pub action : CivicActionKind

pub record IndexerTransaction : Type 0 where
  pub hash : Text
  pub identifiers : List Text
  pub status : Text
  pub contract_actions : List Text
  pub height : Number
  pub block_hash : Text
  pub timestamp : Number

abbrev pub as_fields : Value → Option Fields
as_fields (object f) = some f
as_fields _ = none

abbrev pub as_array : Value → Option Values
as_array (array vs) = some vs
as_array _ = none

-- `Number.isSafeInteger`
abbrev pub safe_integer : Value → Option Number
safe_integer (number (natural n)) = if leb n max_safe_integer then some (natural n) else none
safe_integer (number (negative n)) =
    if leb (n + 1) max_safe_integer then some (negative n) else none
safe_integer _ = none

-- `identifiers.every((id) => typeof id === 'string')`
abbrev pub strings : Values → Option (List Text)
strings nil = some []
strings (cons v vs) = do s ← as_string v; rest ← strings vs; some (s ∷ rest)

-- The addresses of the actions that are records, each of which must be a string.
abbrev pub with_address : Value → Option (List Text) → Option (List Text)
with_address (object f) rest = do
  address ← as_string (property f (codes "address"))
  addresses ← rest
  some (address ∷ addresses)
with_address _ rest = rest

abbrev pub addresses_of : Values → Option (List Text)
addresses_of nil = some []
addresses_of (cons v vs) = with_address v (addresses_of vs)

abbrev pub checked_transaction : Fields → Option IndexerTransaction
checked_transaction f = do
  hash ← as_string (property f (codes "hash"))
  actions ← as_array (property f (codes "contractActions"))
  ids ← as_array (property f (codes "identifiers"))
  identifiers ← strings ids
  block ← as_fields (property f (codes "block"))
  height ← safe_integer (property block (codes "height"))
  block_hash ← as_string (property block (codes "hash"))
  timestamp ← safe_integer (property block (codes "timestamp"))
  result ← as_fields (property f (codes "transactionResult"))
  status ← as_string (property result (codes "status"))
  contract_actions ← addresses_of actions
  some (record {
    hash = hash;
    identifiers = identifiers;
    status = status;
    contract_actions = contract_actions;
    height = height;
    block_hash = block_hash;
    timestamp = timestamp;
  })

-- `null`, the throw, or the transaction.
pub data Found : Type 0 where
  absent malformed : Found
  found : IndexerTransaction → Found

abbrev pub found_or_malformed : Option IndexerTransaction → Found
found_or_malformed none = malformed
found_or_malformed (some tx) = found tx

-- `data.transactions[0]`
abbrev pub first_transaction : Value → Found
first_transaction (array (cons (object f) vs)) = found_or_malformed (checked_transaction f)
first_transaction _ = absent

abbrev pub transactions_of : Value → Found
transactions_of (object f) = first_transaction (property f (codes "transactions"))
transactions_of _ = absent

unfoldable pub transaction_from : Fields → Found
unfolding property text_eq
transaction_from f = transactions_of (property f (codes "data"))

abbrev pub has_errors : Value → Bool
has_errors (array (cons v vs)) = true
has_errors _ = false

-- `nonEmpty`
abbrev pub non_blank : Text → Option Text
non_blank s = if is_blank s then none else some s

-- `Number.isSafeInteger(height) && height >= 0`
abbrev pub block_height : Number → Option ℕ
block_height (natural n) = if leb n max_safe_integer then some n else none
block_height _ = none

-- Seconds as milliseconds, where the number is one of seconds.
abbrev pub milliseconds : Number → Number
milliseconds (natural n) = if ltb n 1000000000000 then natural (n * 1000) else natural n
milliseconds (negative n) = negative (suc n * 1000 - 1)
milliseconds inexact = inexact

-- `baseUrl.replace(/\/+$/u, '')`
abbrev pub keep_slash : ℕ → Text → Text
keep_slash c [] = if c == b'/' then [] else c ∷ []
keep_slash c (d ∷ s) = c ∷ d ∷ s

abbrev pub without_slashes : Text → Text
without_slashes [] = []
without_slashes (c ∷ s) = keep_slash c (without_slashes s)

-- `explorerFor`
unfoldable pub explorer_for : (Text → Text) → Option Text → Text → Option Text
unfolding is_blank
explorer_for encode none transaction_id = none
explorer_for encode (some base) transaction_id =
    if is_blank base then none else some (without_slashes base ++ b'/' ∷ encode transaction_id)

module _ (iso_string : Number → Option Text) (encode : Text → Text)
    (explorer_base_url : Option Text) where
  unfoldable pub canonical_receipt_from_indexer :
      IndexerTransaction → MidnightRuntimeNetwork → Input → Option CanonicalReceipt
  unfolding is_blank
  canonical_receipt_from_indexer tx network input = do
    transaction_id ← non_blank input.transaction_id
    transaction_hash ← non_blank tx.hash
    contract_address ← non_blank input.contract_address
    circuit ← non_blank input.circuit
    block_hash ← non_blank tx.block_hash
    height ← block_height tx.height
    timestamp ← iso_string (milliseconds tx.timestamp)
    some (record {
      action = input.action;
      network = network;
      transaction_id = transaction_id;
      transaction_hash = transaction_hash;
      contract_address = contract_address;
      circuit = circuit;
      block_height = height;
      block_hash = block_hash;
      block_timestamp = timestamp;
      explorer_url = explorer_for encode explorer_base_url transaction_id;
    })

  abbrev pub resolved_or_threw : Option CanonicalReceipt → Resolved
  resolved_or_threw none = threw
  resolved_or_threw (some receipt) = resolved receipt

  abbrev pub on_network : IndexerTransaction → Input → Option MidnightRuntimeNetwork → Resolved
  on_network tx input none = threw
  on_network tx input (some network) =
      resolved_or_threw (canonical_receipt_from_indexer tx network input)

  abbrev pub of_transaction : Input → Found → Resolved
  of_transaction input absent = pending
  of_transaction input malformed = threw
  of_transaction input (found tx) =
      if not (includes tx.identifiers input.transaction_id)
      then pending
      else if not (text_eq tx.status (codes "SUCCESS"))
      then indexer_rejected
      else if not (includes tx.contract_actions input.contract_address)
      then indexer_contract_mismatch
      else on_network tx input (is_network input.network)

  unfoldable pub resolve : Input → Fetched → Resolved
  unfolding transaction_from
  resolve input (payload (object f)) =
      if has_errors (property f (codes "errors"))
      then threw
      else of_transaction input (transaction_from f)
  resolve input aborted = pending
  resolve input _ = threw
