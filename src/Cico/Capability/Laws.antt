-- ===== src/Cico/Capability/Laws.antt =====
-- What the issuer of cico-service/src/action-capability-issuer.ts signs, and that the relay takes it.
use midnight_referendum_app.Base.{
  ℕ, ◌+◌, ◌≡◌, sym, Bool, true, false, Option, none, some, if◌then◌else◌, arith,
}
use midnight_referendum_app.Base.Text.{Text, codes, text_eq, text_eq_iff, includes}
use midnight_referendum_app.Relayer.Capability.{Node}
use midnight_referendum_app.Cico.Capability.{
  Request, Issuer, is_valid_request, is_permitted, action_for_circuit, is_action, Issued, issued,
  token_of, payload_of, answered, issue, unauthorized,
}

is_action-vote :
    (circuit action : Text)
    → is_action (action_for_circuit circuit) action ≡ true
    → (circuit ≡ codes "castVote") × (action ≡ codes "vote")
is_action-vote circuit action h =
    let (c, a) : (text_eq circuit (codes "castVote") ≡ true)
        × (text_eq (codes "vote") action ≡ true) =
      ground (arith, h) in
    ((text_eq_iff circuit (codes "castVote")).0 c, sym ((text_eq_iff (codes "vote") action).0 a))

if_issued :
    {b : Bool} {x : Issued} {token : Text}
    → (if b then x else unauthorized) ≡ issued token
    → (b ≡ true) × (x ≡ issued token)
if_issued h = ground (arith, h)

module _ (node : Node) (authorization_exists : Text → Option Bool) where
  -- What an issued token was granted on.
  abbrev pub IsGranted : Issuer → Request → ℕ → Text → Type 0
  IsGranted s r now_seconds token =
      (r.circuit ≡ codes "castVote")
      × (r.action ≡ codes "vote")
      × (authorization_exists r.credential_authorization ≡ some true)
      × (includes s.options.allowed_networks r.network ≡ true)
      × (includes s.options.allowed_contracts r.contract_address ≡ true)
      × (includes s.options.allowed_circuits r.circuit ≡ true)
      × (is_valid_request r ≡ true)
      × (token ≡ token_of node s.options.secret (payload_of node r (now_seconds + s.ttl_seconds)))

  answered-issued :
      (s : Issuer) (r : Request) (now_seconds : ℕ) (token : Text) (o : Option Bool)
      → answered node authorization_exists s r now_seconds o ≡ issued token
      → (o ≡ some true)
        × (token ≡ token_of node s.options.secret (payload_of node r (now_seconds + s.ttl_seconds)))
  answered-issued s r now_seconds token none h = grind (arith)
  answered-issued s r now_seconds token (some false) h = grind (arith)
  answered-issued s r now_seconds token (some true) h = ground (arith, h)

  -- A token is issued only to vote with castVote, for a valid request, on an allowed network,
  -- contract and circuit and on a credential authorization that exists, and it is the payload with
  -- its signature, expiring after the issuer's lifetime.
  pub issue-IsGranted :
      (s : Issuer) (r : Request) (now_seconds : ℕ) (token : Text)
      → issue node authorization_exists s r now_seconds ≡ issued token
      → IsGranted s r now_seconds token
  unfolding issue is_permitted
  issue-IsGranted s r now_seconds token h =
      let (guarded, k) = if_issued {b = is_permitted s r} h in
      let (valid, networks, contracts, circuits, acts) : (is_valid_request r ≡ true)
          × (includes s.options.allowed_networks r.network ≡ true)
          × (includes s.options.allowed_contracts r.contract_address ≡ true)
          × (includes s.options.allowed_circuits r.circuit ≡ true)
          × (is_action (action_for_circuit r.circuit) r.action ≡ true) =
        ground (arith, guarded) in
      let (circuit, action) = is_action-vote r.circuit r.action acts in
      let (exists, token_is) =
        answered-issued s r now_seconds token (authorization_exists r.credential_authorization) k in
      (circuit, action, exists, networks, contracts, circuits, valid, token_is)
