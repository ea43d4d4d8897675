-- ===== src/Cico/Capability.antt =====
-- cico-service/src/action-capability-issuer.ts: HmacActionCapabilityIssuer. The functions of Node and
-- the callback that asks whether a credential authorization exists are parameters.
pub mod Laws
pub mod RoundTrip
mod Tests
use midnight_referendum_app.Base.{
  ℕ, ◌+◌, ◌≡◌, Bool, true, false, not, ◌&&◌, ◌||◌, Option, none, some, List, [], ◌∷◌, ◌++◌, ltb,
  leb, ◌==◌, if◌then◌else◌, length, any, all,
}
use midnight_referendum_app.Base.Text.{Text, codes, text_eq, includes, is_digest}
use midnight_referendum_app.Base.Json.{
  Value, Fields, string, number, Number, natural, negative, inexact, object, field, end,
  max_safe_integer,
}
use midnight_referendum_app.Relayer.Capability.{Node}

pub record Request : Type 0 where
  pub action_id : Text
  pub idempotency_key : Text
  pub request_hash : Text
  pub network : Text
  pub contract_address : Text
  pub circuit : Text
  pub action : Text
  pub credential_authorization : Text

-- HmacActionCapabilityIssuerOptions; the clock is an argument of `issue`.
pub record Options : Type 0 where
  pub secret : Text
  pub allowed_networks : List Text
  pub allowed_contracts : List Text
  pub allowed_circuits : List Text
  pub ttl_seconds : Option Number

pub record Issuer : Type 0 where
  pub options : Options
  pub ttl_seconds : ℕ

pub data OptionError : Type 0 where
  secret_too_short empty_allowlists bad_ttl : OptionError

pub data Constructed : Type 0 where
  constructed : Issuer → Constructed
  not_constructed : OptionError → Constructed

abbrev pub is_empty_list : List Text → Bool
is_empty_list [] = true
is_empty_list (t ∷ ts) = false

-- `options.ttlSeconds ?? 120` with its guard.
abbrev pub checked_ttl : Option Number → Option ℕ
checked_ttl none = some 120
checked_ttl (some (natural n)) =
    if not (leb n max_safe_integer) || ltb n 15 || ltb 600 n then none else some n
checked_ttl (some _) = none

abbrev pub with_ttl : Options → Option ℕ → Constructed
with_ttl o none = not_constructed bad_ttl
with_ttl o (some n) = constructed (record { options = o; ttl_seconds = n })

unfoldable pub construct : Options → Constructed
construct o =
    if ltb (length o.secret) 32
    then not_constructed secret_too_short
    else if is_empty_list o.allowed_networks
        || is_empty_list o.allowed_contracts
        || is_empty_list o.allowed_circuits
    then not_constructed empty_allowlists
    else with_ttl o (checked_ttl o.ttl_seconds)

-- The texts whose length validateRequest tests, in its order.
abbrev pub bounded_texts : Request → List Text
bounded_texts r =
    r.action_id ∷ r.idempotency_key ∷ r.network ∷ r.contract_address ∷ r.circuit
    ∷ r.credential_authorization ∷ []

abbrev pub is_bounded : Text → Bool
is_bounded t = not (length t == 0) && leb (length t) 256

abbrev pub civic_actions : List Text
civic_actions = codes "credential" ∷ codes "vote" ∷ codes "cohort" ∷ []

unfoldable pub is_valid_request : Request → Bool
unfolding is_digest
is_valid_request r =
    all is_bounded (bounded_texts r) && is_digest r.request_hash && includes civic_actions r.action

abbrev pub action_for_circuit : Text → Option Text
action_for_circuit circuit =
    if text_eq circuit (codes "castVote") then some (codes "vote") else none

abbrev pub is_action : Option Text → Text → Bool
is_action none action = false
is_action (some a) action = text_eq a action

-- The fields of the payload that a relay compares, in the order of JSON.stringify.
abbrev pub claims : Request → List (Text × Text)
claims r =
    (codes "actionId", r.action_id)
    ∷ (codes "idempotencyKey", r.idempotency_key)
    ∷ (codes "network", r.network)
    ∷ (codes "contractAddress", r.contract_address)
    ∷ (codes "circuit", r.circuit)
    ∷ (codes "action", r.action)
    ∷ (codes "requestHash", r.request_hash)
    ∷ []

abbrev pub string_fields : List (Text × Text) → Fields → Fields
string_fields [] f = f
string_fields ((key, value) ∷ entries) f = field key (string value) (string_fields entries f)

unfoldable pub payload_fields : Request → ℕ → Fields
payload_fields r expires_at =
    field (codes "v") (number (natural 1))
      (string_fields (claims r) (field (codes "expiresAt") (number (natural expires_at)) end))

-- The guards of `issue` before the callback.
unfoldable pub is_permitted : Issuer → Request → Bool
is_permitted s r =
    is_valid_request r
    && includes s.options.allowed_networks r.network
    && includes s.options.allowed_contracts r.contract_address
    && includes s.options.allowed_circuits r.circuit
    && is_action (action_for_circuit r.circuit) r.action

pub data Issued : Type 0 where
  issued : Text → Issued
  unauthorized : Issued
  failed : Issued

unfoldable pub token_of : Node → Text → Text → Text
token_of node secret payload =
    payload ++ b'.' ∷ node.base64url_bytes (node.signature payload secret)

abbrev pub payload_of : Node → Request → ℕ → Text
payload_of node r expires_at =
    node.base64url (node.stringify (object (payload_fields r expires_at)))

module _ (node : Node) (authorization_exists : Text → Option Bool) where
  -- The answer of the callback; `none` is its rejection.
  abbrev pub answered : Issuer → Request → ℕ → Option Bool → Issued
  answered s r now_seconds none = failed
  answered s r now_seconds (some false) = unauthorized
  answered s r now_seconds (some true) =
      issued (token_of node s.options.secret (payload_of node r (now_seconds + s.ttl_seconds)))

  -- `now_seconds` is what the clock gives once the callback has answered.
  unfoldable pub issue : Issuer → Request → ℕ → Issued
  issue s r now_seconds =
      if is_permitted s r
      then answered s r now_seconds (authorization_exists r.credential_authorization)
      else unauthorized
