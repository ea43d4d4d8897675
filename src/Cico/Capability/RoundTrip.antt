-- ===== src/Cico/Capability/RoundTrip.antt =====
-- The relay of relayer/src/v2-capability.ts on the tokens of cico-service/src/action-capability-issuer.ts.
use midnight_referendum_app.Base.{
  ℕ, ◌+◌, ◌<◌, ◌≤◌, ◌≡◌, refl, sym, ◌∙◌, subst, Bool, true, false, Option, none, some, [], ◌∷◌, leb,
  ltb, if◌then◌else◌, length, arith, not, inl, inr, Bool-cases,
}
use midnight_referendum_app.Base.Text.{Text, codes, text_eq, text_eq_iff, text_eq_refl}
use midnight_referendum_app.Base.Json.{
  Value, number, natural, Number, negative, inexact, object, property, max_safe_integer,
}
use midnight_referendum_app.Relayer.Capability.{
  Node, Capability, Verified, verified, rejected, expired_capability, invalid_capability,
  split_dots, is_empty, checked_parts, checked_payload, verify_capability, is_bound, Expected,
  entries,
}
use midnight_referendum_app.Relayer.Capability.Laws.{IsDotless, split_dots-parts}
use midnight_referendum_app.Cico.Capability.{
  Request, Options, Issuer, construct, constructed, checked_ttl, with_ttl, payload_fields, issued,
  token_of, payload_of, issue,
}
use midnight_referendum_app.Cico.Capability.Laws.{issue-IsGranted}

-- What the relay expects of a request.
abbrev pub expected_of : Request → Expected
expected_of r = record {
  action_id = r.action_id;
  action = r.action;
  contract_address = r.contract_address;
  circuit = r.circuit;
  idempotency_key = r.idempotency_key;
  network = r.network;
  request_hash = r.request_hash;
}

-- Node reads back this payload and this signature, which base64url writes without a dot and not as
-- the empty text.
pub record IsTransported (node : Node) (secret : Text) (value : Value) (payload : Text)
    : Type 0 where
  pub parsed : node.parse (node.from_base64url payload) ≡ some value
  pub decoded :
      node.from_base64url (node.base64url_bytes (node.signature payload secret))
      ≡ node.signature payload secret
  pub payload_dotless : IsDotless payload
  pub signed_dotless : IsDotless (node.base64url_bytes (node.signature payload secret))
  pub payload_present : is_empty payload ≡ false
  pub signed_present : is_empty (node.base64url_bytes (node.signature payload secret)) ≡ false

is_bound-payload :
    (r : Request) (n : ℕ) → is_bound (payload_fields r n) (entries (expected_of r)) ≡ true
unfolding is_bound payload_fields property text_eq
is_bound-payload r n =
    simp
      (
        text_eq_refl r.action_id,
        text_eq_refl r.action,
        text_eq_refl r.contract_address,
        text_eq_refl r.circuit,
        text_eq_refl r.idempotency_key,
        text_eq_refl r.network,
        text_eq_refl r.request_hash,
      )
      refl

property-v : (r : Request) (n : ℕ) → property (payload_fields r n) (codes "v") ≡ number (natural 1)
unfolding payload_fields property text_eq
property-v r n = refl

property-expires_at :
    (r : Request) (n : ℕ) → property (payload_fields r n) (codes "expiresAt") ≡ number (natural n)
unfolding payload_fields property text_eq
property-expires_at r n = refl

is_empty-long : (t : Text) → ltb (length t) 32 ≡ false → is_empty t ≡ false
is_empty-long [] h = ground (arith, h)
is_empty-long (c ∷ t) h = refl

with_ttl-options :
    (o : Options) (n : Option ℕ) (s : Issuer) → with_ttl o n ≡ constructed s → o ≡ s.options
with_ttl-options o none s h = ground (arith, h)
with_ttl-options o (some n) s h = ground (arith, h)

-- A constructed issuer has the options that it was given, a secret of at least 32 units among them.
secret-present :
    (o : Options) (s : Issuer) → construct o ≡ constructed s → is_empty s.options.secret ≡ false
unfolding construct
secret-present o s h =
    let (long, k) : (ltb (length o.secret) 32 ≡ false)
        × (with_ttl o (checked_ttl o.ttl_seconds) ≡ constructed s) =
      ground (arith, h) in
    is_empty-long s.options.secret (
      subst (λ p. ltb (length p.secret) 32 ≡ false)
        (with_ttl-options o (checked_ttl o.ttl_seconds) s k) long)

-- The answer to a token whose claims are expected and that expires at `n`.
abbrev pub timed : Node → ℕ → ℕ → Text → Verified
timed node n now_seconds token =
    if leb n now_seconds
    then rejected expired_capability
    else verified (record { digest = node.digest_capability token; expires_at = n })

-- The answer to such a token of any length.
abbrev pub sized : Node → ℕ → ℕ → Text → Verified
sized node n now_seconds token =
    if not (leb (length token) 4096)
    then rejected invalid_capability
    else timed node n now_seconds token

sized-verified :
    (node : Node) (n now_seconds : ℕ) (token : Text) (c : Capability)
    → sized node n now_seconds token ≡ verified c
    → (now_seconds < n) × (n ≡ c.expires_at)
sized-verified node n now_seconds token c h = ground (arith, h)

module _ (node : Node) (secret : Text) (r : Request) (n now_seconds : ℕ) where
  checked_payload-timed :
      n ≤ max_safe_integer
      → checked_payload node secret
          (entries (expected_of r))
          now_seconds
          (token_of node secret (payload_of node r n))
          (some (object (payload_fields r n)))
        ≡ timed node n now_seconds (token_of node secret (payload_of node r n))
  checked_payload-timed safe =
      let within : leb n max_safe_integer ≡ true = ground (arith, safe) in
      simp (property-v r n, property-expires_at r n, within, is_bound-payload r n) refl

  split_dots-token_of :
      IsTransported node secret (object (payload_fields r n)) (payload_of node r n)
      → split_dots (token_of node secret (payload_of node r n)) ≡ (
        payload_of node r n,
        node.base64url_bytes (node.signature (payload_of node r n) secret) ∷ [],
      )
  unfolding token_of
  split_dots-token_of t =
      split_dots-parts (payload_of node r n)
        (node.base64url_bytes (node.signature (payload_of node r n) secret)) t.payload_dotless
        t.signed_dotless

  checked_parts-timed :
      n ≤ max_safe_integer
      → IsTransported node secret (object (payload_fields r n)) (payload_of node r n)
      → checked_parts node secret
          (entries (expected_of r))
          now_seconds
          (token_of node secret (payload_of node r n))
          (split_dots (token_of node secret (payload_of node r n)))
        ≡ timed node n now_seconds (token_of node secret (payload_of node r n))
  checked_parts-timed safe t =
      let authentic =
        (text_eq_iff
            (node.from_base64url
              (node.base64url_bytes (node.signature (payload_of node r n) secret)))
            (node.signature (payload_of node r n) secret)).1
          t.decoded in
      simp
        (
          split_dots-token_of t,
          t.payload_present,
          t.signed_present,
          authentic,
          t.parsed,
          checked_payload-timed safe,
        )
        refl

  verify_capability-token_of :
      is_empty secret ≡ false
      → n ≤ max_safe_integer
      → IsTransported node secret (object (payload_fields r n)) (payload_of node r n)
      → verify_capability node secret
          (entries (expected_of r))
          now_seconds
          (token_of node secret (payload_of node r n))
        ≡ sized node n now_seconds (token_of node secret (payload_of node r n))
  unfolding verify_capability
  verify_capability-token_of h safe t =
      elim (Bool-cases (leb (length (token_of node secret (payload_of node r n))) 4096)) [
        | inl short ↦ simp (h, short) (checked_parts-timed safe t)
        | inr long ↦ simp (h, long) refl
      ]

-- The answer of a relay that shares the secret and expects the request to each token of a constructed
-- issuer, where Node reads back the payload and the signature and the time of expiry is a safe
-- integer: a token of more than 4096 characters, which the issuer signs all the same, is refused as
-- invalid; any other is taken up to the second before its expiry, and refused as expired from then on.
pub verify_capability-issue :
    (node : Node) (authorization_exists : Text → Option Bool) (o : Options) (s : Issuer)
    (r : Request) (issued_at now_seconds : ℕ) (token : Text)
    → construct o ≡ constructed s
    → issue node authorization_exists s r issued_at ≡ issued token
    → issued_at + s.ttl_seconds ≤ max_safe_integer
    → IsTransported node s.options.secret
        (object (payload_fields r (issued_at + s.ttl_seconds)))
        (payload_of node r (issued_at + s.ttl_seconds))
    → verify_capability node s.options.secret (entries (expected_of r)) now_seconds token ≡ (
        if not (leb (length token) 4096)
        then rejected invalid_capability
        else if leb (issued_at + s.ttl_seconds) now_seconds
        then rejected expired_capability
        else verified (record {
          digest = node.digest_capability token;
          expires_at = issued_at + s.ttl_seconds;
        }))
verify_capability-issue node authorization_exists o s r issued_at now_seconds token made h safe t =
    let (_, _, _, _, _, _, _, token_is) =
      issue-IsGranted node authorization_exists s r issued_at token h in
    subst
      (λ u.
        verify_capability node s.options.secret (entries (expected_of r)) now_seconds u
        ≡ sized node (issued_at + s.ttl_seconds) now_seconds u)
      (sym token_is)
      (verify_capability-token_of node s.options.secret r (issued_at + s.ttl_seconds) now_seconds
        (secret-present o s made) safe t)

checked_ttl-bounds : (t : Option Number) (n : ℕ) → checked_ttl t ≡ some n → (15 ≤ n) × (n ≤ 600)
checked_ttl-bounds none n h = ground (arith, h)
checked_ttl-bounds (some (natural m)) n h = ground (arith, h)
checked_ttl-bounds (some (negative m)) n h = ground (arith, h)
checked_ttl-bounds (some inexact) n h = ground (arith, h)

with_ttl-ttl :
    (o : Options) (n : Option ℕ) (s : Issuer)
    → with_ttl o n ≡ constructed s
    → n ≡ some s.ttl_seconds
with_ttl-ttl o none s h = ground (arith, h)
with_ttl-ttl o (some n) s h = ground (arith, h)

construct-bounds :
    (o : Options) (s : Issuer)
    → construct o ≡ constructed s
    → (15 ≤ s.ttl_seconds) × (s.ttl_seconds ≤ 600)
unfolding construct
construct-bounds o s h =
    let k : with_ttl o (checked_ttl o.ttl_seconds) ≡ constructed s = ground (arith, h) in
    checked_ttl-bounds o.ttl_seconds s.ttl_seconds (with_ttl-ttl o (checked_ttl o.ttl_seconds) s k)

-- Where a relay takes a token of a constructed issuer for the request that it expects, and Node reads
-- back the payload and the signature and the time is a safe integer, the token expires at least 15
-- and at most 600 seconds after it was issued, and is taken less than 600 seconds after that.
pub verify_capability-lifetime :
    (node : Node) (authorization_exists : Text → Option Bool) (o : Options) (s : Issuer)
    (r : Request) (issued_at now_seconds : ℕ) (token : Text) (c : Capability)
    → construct o ≡ constructed s
    → issue node authorization_exists s r issued_at ≡ issued token
    → issued_at + s.ttl_seconds ≤ max_safe_integer
    → IsTransported node s.options.secret
        (object (payload_fields r (issued_at + s.ttl_seconds)))
        (payload_of node r (issued_at + s.ttl_seconds))
    → verify_capability node s.options.secret (entries (expected_of r)) now_seconds token
      ≡ verified c
    → (issued_at + 15 ≤ c.expires_at)
      × (c.expires_at ≤ issued_at + 600)
      × (now_seconds < issued_at + 600)
verify_capability-lifetime node authorization_exists o s r issued_at now_seconds token c made h safe
      t v =
    let answer =
      verify_capability-issue node authorization_exists o s r issued_at now_seconds token made h
        safe t in
    let (low, high) = construct-bounds o s made in
    let (current, expires) =
      sized-verified node (issued_at + s.ttl_seconds) now_seconds token c (sym answer ∙ v) in
    (omega (arith, low, expires), omega (arith, high, expires), omega (arith, current, high))
