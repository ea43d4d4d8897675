-- ===== src/Relayer/Capability/Laws.antt =====
-- What a verified token of relayer/src/v2-capability.ts carries, and how it splits.
use midnight_referendum_app.Base.{
  ℕ, ◌<◌, ◌≤◌, ◌≡◌, refl, true, false, some, List, [], ◌∷◌, ◌++◌, ◌==◌, ◌∙◌, sym, Option, arith,
  All,
}
use midnight_referendum_app.Base.Text.{Text, codes, text_eq, text_eq_iff}
use midnight_referendum_app.Base.Json.{
  Value, Fields, string, number, natural, negative, object, property, max_safe_integer,
}
use midnight_referendum_app.Relayer.Capability.{
  Node, Capability, verified, Expiry, at, in_past, no_expiry, split_dots, expiry, is_text, is_bound,
  unexpired, checked_payload, checked_parts, verify_capability,
}

abbrev pub IsDotless : Text → Type 0
IsDotless = All (λ c. (c == b'.') ≡ false)

split_dots-dotless : (s : Text) → IsDotless s → split_dots s ≡ (s, [])
unfolding split_dots
split_dots-dotless [] h = refl
split_dots-dotless (c ∷ s) (h, k) = simp (h, split_dots-dotless s k) refl

pub split_dots-parts :
    (s t : Text) → IsDotless s → IsDotless t → split_dots (s ++ b'.' ∷ t) ≡ (s, t ∷ [])
unfolding split_dots
split_dots-parts [] t h k = simp (split_dots-dotless t k) refl
split_dots-parts (c ∷ s) t (h, j) k = simp (h, split_dots-parts s t j k) refl

-- A field of the payload that equals the expected one.
abbrev pub IsField : Fields → Text × Text → Type 0
IsField f (key, value) = property f key ≡ string value

is_text-string : (s : Text) (v : Value) → is_text s v ≡ true → v ≡ string s
is_text-string s (string t) h = λ i. string ((text_eq_iff t s).0 h i)
is_text-string s _ h = grind arith

is_bound-All :
    (f : Fields) (expected : List (Text × Text))
    → is_bound f expected ≡ true
    → All (IsField f) expected
unfolding is_bound
is_bound-All f [] h = tt
is_bound-All f ((key, value) ∷ expected) h =
    let (here, rest) : (is_text value (property f key) ≡ true) × (is_bound f expected ≡ true) =
      ground (arith, h) in
    (is_text-string value (property f key) here, is_bound-All f expected rest)

expiry-at :
    (v : Value) (n : ℕ) → expiry v ≡ at n → (v ≡ number (natural n)) × (n ≤ max_safe_integer)
expiry-at (number (natural m)) n h = ground (arith, h)
expiry-at (number (negative m)) n h = ground (arith, h)
expiry-at _ n h = ground (arith, h)

-- What verifyV2Capability has checked of a token that it takes: one payload and one signature, the
-- signature the HMAC of the payload, each expected field bound, and the time not over.
pub record Authentic (node : Node) (secret : Text) (expected : List (Text × Text)) (now_seconds : ℕ)
    (token : Text) (c : Capability) : Type 0 where
  pub payload : Text
  pub signed : Text
  pub fields : Fields
  pub parts : split_dots token ≡ (payload, signed ∷ [])
  pub authentic : node.from_base64url signed ≡ node.signature payload secret
  pub parsed : node.parse (node.from_base64url payload) ≡ some (object fields)
  pub bindings : All (IsField fields) expected
  pub expires : property fields (codes "expiresAt") ≡ number (natural c.expires_at)
  pub is_safe : c.expires_at ≤ max_safe_integer
  pub is_current : now_seconds < c.expires_at
  pub digested : c.digest ≡ node.digest_capability token

module _ (node : Node) (secret : Text) (expected : List (Text × Text)) (now_seconds : ℕ)
    (token : Text) (c : Capability) where
  abbrev pub IsGranted : Fields → Type 0
  IsGranted f =
      All (IsField f) expected
      × (property f (codes "expiresAt") ≡ number (natural c.expires_at))
      × (c.expires_at ≤ max_safe_integer)
      × (now_seconds < c.expires_at)
      × (c.digest ≡ node.digest_capability token)

  unexpired-IsGranted :
      (f : Fields) (e : Expiry)
      → expiry (property f (codes "expiresAt")) ≡ e
      → unexpired node secret expected now_seconds token f e ≡ verified c
      → IsGranted f
  unexpired-IsGranted f (at n) k h =
      let (current, bindings, expires, digested) : (now_seconds < n)
          × (is_bound f expected ≡ true)
          × (n ≡ c.expires_at)
          × (node.digest_capability token ≡ c.digest) =
        ground (arith, h) in
      let (at_n, safe) = expiry-at (property f (codes "expiresAt")) n k in
      (
        is_bound-All f expected bindings,
        at_n ∙ (λ i. number (natural (expires i))),
        omega (arith, safe, expires),
        omega (arith, current, expires),
        sym digested,
      )
  unexpired-IsGranted f in_past k h = ground (arith, h)
  unexpired-IsGranted f no_expiry k h = ground (arith, h)

  checked_payload-object :
      (v : Option Value)
      → checked_payload node secret expected now_seconds token v ≡ verified c
      → (f : Fields) × (v ≡ some (object f)) × IsGranted f
  checked_payload-object (some (object f)) h =
      let k : unexpired node secret expected now_seconds token f
            (expiry (property f (codes "expiresAt")))
          ≡ verified c =
        ground (arith, h) in
      (f, refl, unexpired-IsGranted f (expiry (property f (codes "expiresAt"))) refl k)
  checked_payload-object _ h = ground (arith, h)

  checked_parts-Authentic :
      (p : Text × List Text)
      → split_dots token ≡ p
      → checked_parts node secret expected now_seconds token p ≡ verified c
      → Authentic node secret expected now_seconds token c
  checked_parts-Authentic (payload, signed ∷ []) e h =
      let (authentic, k) : (text_eq (node.from_base64url signed) (node.signature payload secret)
            ≡ true)
          × (checked_payload node secret expected now_seconds token
                (node.parse (node.from_base64url payload))
              ≡ verified c) =
        ground (arith, h) in
      let (f, parsed, granted) =
        checked_payload-object (node.parse (node.from_base64url payload)) k in
      let (bindings, expires, safe, current, digested) = granted in
      record {
        payload = payload;
        signed = signed;
        fields = f;
        parts = e;
        authentic =
            (text_eq_iff (node.from_base64url signed) (node.signature payload secret)).0 authentic;
        parsed = parsed;
        bindings = bindings;
        expires = expires;
        is_safe = safe;
        is_current = current;
        digested = digested;
      }
  checked_parts-Authentic (payload, []) e h = ground (arith, h)
  checked_parts-Authentic (payload, signed ∷ extra ∷ _) e h = ground (arith, h)

  -- A token that verifyV2Capability takes has one payload and one signature, the signature decodes
  -- to the HMAC of the payload under the secret, each expected field of the payload is bound to the
  -- expected text, and the time of expiry is a safe integer after the present; the digest is that of
  -- the token.
  pub verify_capability-Authentic :
      verify_capability node secret expected now_seconds token ≡ verified c
      → Authentic node secret expected now_seconds token c
  unfolding verify_capability
  verify_capability-Authentic h =
      checked_parts-Authentic (split_dots token) refl (ground (arith, h))
