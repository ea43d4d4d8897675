-- ===== src/Relayer/Request.antt =====
-- relayer/src/v2-service.ts: parseV2ActionRequest, and actionForCircuit of relayer/src/v2-hash.ts.
pub mod Forbidden
pub mod Laws
mod Tests
use midnight_referendum_app.Base.{
  ℕ, zero, suc, ◌%◌, ◌*◌, ◌≡◌, Bool, true, false, not, ◌&&◌, ◌||◌, Option, none, some, List, [],
  ◌∷◌, map, all, leb, ◌==◌, length, is_some, if◌then◌else◌,
}
use midnight_referendum_app.Base.Text.{Text, codes, text_eq, includes, is_blank, is_hex, to_lower}
use midnight_referendum_app.Base.Json.{
  Value, Fields, undefined, null, boolean, number, natural, string, object, property,
}
use midnight_referendum_app.Receipts.{CivicActionKind, credential, vote, cohort, is_action}
use midnight_referendum_app.Relayer.Types.{ErrorCode, invalid_request, not_allowlisted}
use Forbidden.{no_forbidden_keys}

-- A V2ActionError, or the error that `validateTransaction` throws.
pub data Outcome {ℓ} (A : Type ℓ) : Type ℓ where
  ok : A → Outcome A
  refused : ErrorCode → Outcome A
  undecodable : Outcome A

infixl 5 ◌>>=◌ ◌>>◌
unfoldable pub ◌>>=◌ {ℓ κ} : {A : Type ℓ} {B : Type κ} → Outcome A → (A → Outcome B) → Outcome B
ok a >>= f = f a
refused e >>= f = refused e
undecodable >>= f = undecodable

unfoldable pub ◌>>◌ {ℓ} : {B : Type ℓ} → Outcome (Unit {0}) → Outcome B → Outcome B
unfolding ◌>>=◌
m >> k = m >>= λ _. k

unfoldable pub require : Bool → ErrorCode → Outcome (Unit {0})
require true e = ok tt
require false e = refused e

abbrev pub cast_vote : Text
cast_vote = codes "castVote"

unfoldable pub action_for_circuit : Text → Option CivicActionKind
action_for_circuit circuit =
    if includes (cast_vote ∷ codes "closeVote" ∷ codes "revealVote" ∷ codes "finalizeVote" ∷ [])
      circuit
    then some vote
    else (if includes (codes "addCredential" ∷ codes "freeze" ∷ []) circuit
        then some credential
        else (if text_eq circuit (codes "recordPublicCohort") then some cohort else none))

pub record ActionRequest : Type 0 where
  pub action_id : Text
  pub idempotency_key : Text
  pub request_hash : Option Text
  pub network : Text
  pub contract_address : Text
  pub circuit : Text
  pub action : CivicActionKind
  pub tx : Text

pub record RequestHeaders : Type 0 where
  pub idempotency_key : Option Text
  pub request_hash : Option Text
  pub capability : Option Text

-- The options that parsing reads; `decodes` says whether `validateTransaction` returns.
pub record ServiceOptions : Type 0 where
  pub allowed_networks : List Text
  pub allowed_contracts : List Text
  pub allowed_circuits : List Text
  pub decodes : Text → Bool

abbrev pub header_value : Option Text → Value
header_value none = undefined
header_value (some s) = string s

-- `value ?? other`
abbrev pub or_nullish : Value → Value → Value
or_nullish undefined other = other
or_nullish null other = other
or_nullish v other = v

-- `header && value && header !== value`
abbrev pub contradicts : Option Text → Value → Bool
contradicts none v = false
contradicts (some []) v = false
contradicts (some h) undefined = false
contradicts (some h) null = false
contradicts (some h) (boolean b) = b
contradicts (some h) (number (natural zero)) = false
contradicts (some h) (string []) = false
contradicts (some h) (string s) = not (text_eq h s)
contradicts (some h) v = true

abbrev pub is_field : Text → Bool
is_field s = not (is_blank s) && leb (length s) 256

-- `field(value, label)`
unfoldable pub field : Value → Outcome Text
field (string s) = if is_field s then ok s else refused invalid_request
field _ = refused invalid_request

-- `optionalDigest(value, label)`
unfoldable pub optional_digest : Value → Outcome (Option Text)
optional_digest undefined = ok none
optional_digest (string s) =
    if length s == 64 && all is_hex s then ok (some (map to_lower s)) else refused invalid_request
optional_digest _ = refused invalid_request

abbrev pub max_transaction_length : ℕ
max_transaction_length = 2 * 1024 * 1024

abbrev pub is_transaction : Text → Bool
is_transaction tx =
    not (length tx == 0)
    && leb (length tx) max_transaction_length
    && all is_hex tx
    && length tx % 2 == 0

unfoldable pub transaction : Value → Outcome Text
transaction (string tx) = if is_transaction tx then ok tx else refused invalid_request
transaction _ = refused invalid_request

abbrev pub or_invalid {ℓ} : {A : Type ℓ} → Option A → Outcome A
or_invalid none = refused invalid_request
or_invalid (some a) = ok a

abbrev pub same_action : Option CivicActionKind → CivicActionKind → Bool
same_action (some vote) vote = true
same_action (some credential) credential = true
same_action (some cohort) cohort = true
same_action _ _ = false

-- The action of the request, which its circuit decides.
unfoldable pub action_of : Value → Text → Outcome CivicActionKind
action_of undefined circuit = or_invalid (action_for_circuit circuit)
action_of (string s) circuit = do
  action ← or_invalid (is_action s)
  require (same_action (action_for_circuit circuit) action) invalid_request
  ok action
action_of _ circuit = refused invalid_request

abbrev pub decode : Bool → Outcome (Unit {0})
decode true = ok tt
decode false = undecodable

module _ (lower : Text → Text) (options : ServiceOptions) (headers : RequestHeaders) where
  unfoldable pub parse_fields : Fields → Outcome ActionRequest
  parse_fields f = do
    require (no_forbidden_keys lower (object f)) invalid_request
    idempotency_key ←
        field
          (or_nullish (property f (codes "idempotencyKey")) (header_value headers.idempotency_key))
    require (not (contradicts headers.idempotency_key (property f (codes "idempotencyKey"))))
        invalid_request
    request_hash ←
        optional_digest
          (or_nullish (property f (codes "requestHash")) (header_value headers.request_hash))
    require (not (contradicts headers.request_hash (property f (codes "requestHash"))))
        invalid_request
    network ← field (property f (codes "network"))
    contract_address ← field (property f (codes "contractAddress"))
    circuit ← field (property f (codes "circuit"))
    tx ← transaction (or_nullish (property f (codes "tx")) (property f (codes "transaction")))
    action ← action_of (property f (codes "action")) circuit
    require (includes options.allowed_networks network) not_allowlisted
    require (includes options.allowed_contracts contract_address) not_allowlisted
    require (includes options.allowed_circuits circuit) not_allowlisted
    decode (options.decodes tx)
    action_id ← field (property f (codes "actionId"))
    ok (record {
      action_id = action_id;
      idempotency_key = idempotency_key;
      request_hash = request_hash;
      network = network;
      contract_address = contract_address;
      circuit = circuit;
      action = action;
      tx = map to_lower tx;
    })

  unfoldable pub parse_action_request : Value → Outcome ActionRequest
  unfolding parse_fields
  parse_action_request (object f) = parse_fields f
  parse_action_request _ = refused invalid_request
