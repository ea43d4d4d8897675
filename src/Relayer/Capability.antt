-- ===== src/Relayer/Capability.antt =====
-- relayer/src/v2-capability.ts: verifyV2Capability. Node's base64url, HMAC, JSON.parse and SHA-256 are
-- parameters.
pub mod Laws
use midnight_referendum_app.Base.{
  ℕ, zero, suc, ◌+◌, ◌≡◌, Bool, true, false, not, ◌&&◌, ◌||◌, Option, none, some, List, [], ◌∷◌,
  ◌++◌, leb, ◌==◌, if◌then◌else◌, length,
}
use midnight_referendum_app.Base.Text.{Text, codes, text_eq}
use midnight_referendum_app.Base.Json.{
  Value, Fields, string, number, natural, negative, inexact, object, property, max_safe_integer,
}
use midnight_referendum_app.Cico.Registry.{Bytes}

-- The functions of Node: `base64url` of a string and of bytes, `Buffer.from(s, 'base64url')`, the HMAC
-- of the domain-separated payload, `JSON.parse` of decoded bytes, and digestCapability.
pub record Node : Type 0 where
  pub base64url : Text → Text
  pub base64url_bytes : Bytes → Text
  pub from_base64url : Text → Bytes
  pub stringify : Value → Text
  pub parse : Bytes → Option Value
  pub signature : Text → Text → Bytes
  pub digest_capability : Text → Text

pub data CapabilityError : Type 0 where
  invalid_capability expired_capability binding_mismatch : CapabilityError

pub record Capability : Type 0 where
  pub digest : Text
  pub expires_at : ℕ

pub data Verified : Type 0 where
  verified : Capability → Verified
  rejected : CapabilityError → Verified

-- `token.split('.')`: the first part and the others.
unfoldable pub split_dots : Text → Text × List Text
split_dots [] = ([], [])
split_dots (c ∷ s) =
    let (part, parts) = split_dots s in if c == b'.' then ([], part ∷ parts) else (c ∷ part, parts)

-- `payload.expiresAt`: a safe integer, which is in the past where it is negative.
pub data Expiry : Type 0 where
  at : ℕ → Expiry
  in_past : Expiry
  no_expiry : Expiry

abbrev pub expiry : Value → Expiry
expiry (number (natural n)) = if leb n max_safe_integer then at n else no_expiry
expiry (number (negative n)) = if leb (n + 1) max_safe_integer then in_past else no_expiry
expiry _ = no_expiry

abbrev pub is_one : Value → Bool
is_one (number (natural (suc zero))) = true
is_one _ = false

abbrev pub is_text : Text → Value → Bool
is_text s (string t) = text_eq t s
is_text s _ = false

-- The loop over `Object.entries(expected)`.
unfoldable pub is_bound : Fields → List (Text × Text) → Bool
unfolding property
is_bound f [] = true
is_bound f ((key, value) ∷ expected) = is_text value (property f key) && is_bound f expected

abbrev pub is_empty : Text → Bool
is_empty [] = true
is_empty (c ∷ s) = false

-- The expected claims that V2RelayerService.accept passes, in its order.
pub record Expected : Type 0 where
  pub action_id : Text
  pub action : Text
  pub contract_address : Text
  pub circuit : Text
  pub idempotency_key : Text
  pub network : Text
  pub request_hash : Text

abbrev pub entries : Expected → List (Text × Text)
entries e =
    (codes "actionId", e.action_id)
    ∷ (codes "action", e.action)
    ∷ (codes "contractAddress", e.contract_address)
    ∷ (codes "circuit", e.circuit)
    ∷ (codes "idempotencyKey", e.idempotency_key)
    ∷ (codes "network", e.network)
    ∷ (codes "requestHash", e.request_hash)
    ∷ []

module _ (node : Node) (secret : Text) (expected : List (Text × Text)) (now_seconds : ℕ) where
  abbrev pub bound : Text → Fields → ℕ → Verified
  bound token f n =
      if is_bound f expected
      then verified (record { digest = node.digest_capability token; expires_at = n })
      else rejected binding_mismatch

  abbrev pub unexpired : Text → Fields → Expiry → Verified
  unexpired token f no_expiry = rejected invalid_capability
  unexpired token f in_past = rejected expired_capability
  unexpired token f (at n) =
      if leb n now_seconds then rejected expired_capability else bound token f n

  abbrev pub checked_payload : Text → Option Value → Verified
  checked_payload token (some (object f)) =
      if is_one (property f (codes "v"))
      then unexpired token f (expiry (property f (codes "expiresAt")))
      else rejected invalid_capability
  checked_payload token _ = rejected invalid_capability

  -- The parts of the token; `timingSafeEqual` is equality.
  abbrev pub checked_parts : Text → Text × List Text → Verified
  checked_parts token (payload, signed ∷ []) =
      if is_empty payload
        || is_empty signed
        || not (text_eq (node.from_base64url signed) (node.signature payload secret))
      then rejected invalid_capability
      else checked_payload token (node.parse (node.from_base64url payload))
  checked_parts token _ = rejected invalid_capability

  unfoldable pub verify_capability : Text → Verified
  unfolding split_dots
  verify_capability token =
      if is_empty secret || not (leb (length token) 4096)
      then rejected invalid_capability
      else checked_parts token (split_dots token)
