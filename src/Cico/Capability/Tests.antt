-- ===== src/Cico/Capability/Tests.antt =====
-- A token that the issuer of cico-service/src/action-capability-issuer.ts signs and the relay takes.
use midnight_referendum_app.Base.{
  ℕ, ◌+◌, ◌<◌, ◌≤◌, ◌≡◌, refl, Option, none, some, List, [], ◌∷◌, Bool, true, arith, not, leb,
  if◌then◌else◌,
}
use midnight_referendum_app.Base.Text.{Text, codes}
use midnight_referendum_app.Base.Json.{object}
use midnight_referendum_app.Relayer.Capability.{
  Node, Capability, verified, rejected, expired_capability, invalid_capability, verify_capability,
  entries,
}
use midnight_referendum_app.Relayer.Capability.Laws.{Authentic, verify_capability-Authentic}
use midnight_referendum_app.Cico.Capability.{
  Request, Options, Issuer, construct, constructed, payload_fields, issued, payload_of, issue,
}
use midnight_referendum_app.Cico.Capability.Laws.{IsGranted, issue-IsGranted}
use midnight_referendum_app.Cico.Capability.RoundTrip.{
  expected_of, IsTransported, verify_capability-issue, verify_capability-lifetime,
}

abbrev request : Request
request = record {
  action_id = codes "a1";
  idempotency_key = codes "k1";
  request_hash = codes "aaaaaaaaaaaaaaaaaaaaaaaaaaaaaaaaaaaaaaaaaaaaaaaaaaaaaaaaaaaaaaaa";
  network = codes "preview";
  contract_address = codes "c1";
  circuit = codes "castVote";
  action = codes "vote";
  credential_authorization = codes "h1";
}

abbrev options : Options
options = record {
  secret = codes "aaaaaaaaaaaaaaaaaaaaaaaaaaaaaaaaaaaaaaaa";
  allowed_networks = codes "preview" ∷ [];
  allowed_contracts = codes "c1" ∷ [];
  allowed_circuits = codes "castVote" ∷ [];
  ttl_seconds = none;
}

abbrev issuer : Issuer
issuer = record { options = options; ttl_seconds = 120 }

-- Functions that carry one payload and one signature.
abbrev node : Node
node = record {
  base64url = λ t. codes "p";
  base64url_bytes = λ b. codes "s";
  from_base64url = λ t. 1 ∷ [];
  stringify = λ v. codes "{}";
  parse = λ b. some (object (payload_fields request 1120));
  signature = λ p k. 1 ∷ [];
  digest_capability = λ t. codes "d";
}

abbrev authorized : Text → Option Bool
authorized h = some true

abbrev token : Text
token = codes "p.s"

abbrev capability : Capability
capability = record { digest = codes "d"; expires_at = 1120 }

constructs : construct options ≡ constructed issuer
unfolding construct
constructs = refl

issues : issue node authorized issuer request 1000 ≡ issued token
unfolding issue midnight_referendum_app.Cico.Capability.is_permitted
    midnight_referendum_app.Cico.Capability.is_valid_request
    midnight_referendum_app.Base.Text.text_eq midnight_referendum_app.Cico.Capability.token_of
issues = refl

verifies :
    verify_capability node options.secret (entries (expected_of request)) 1100 token
    ≡ verified capability
unfolding verify_capability midnight_referendum_app.Base.Text.text_eq
    midnight_referendum_app.Base.Json.property payload_fields
    midnight_referendum_app.Relayer.Capability.is_bound
verifies = refl

transported :
    IsTransported node options.secret
      (object (payload_fields request 1120))
      (payload_of node request 1120)
transported = record {
  parsed = refl;
  decoded = refl;
  payload_dotless = (refl, tt);
  signed_dotless = (refl, tt);
  payload_present = refl;
  signed_present = refl;
}

verify_capability-Authentic_example :
    Authentic node options.secret (entries (expected_of request)) 1100 token capability
verify_capability-Authentic_example =
    verify_capability-Authentic node options.secret (entries (expected_of request)) 1100 token
      capability verifies

issue-IsGranted_example : IsGranted node authorized issuer request 1000 token
issue-IsGranted_example = issue-IsGranted node authorized issuer request 1000 token issues

verify_capability-issue_example :
    verify_capability node options.secret (entries (expected_of request)) 1119 token ≡ (
      if not (leb 3 4096)
      then rejected invalid_capability
      else if leb 1120 1119
      then rejected expired_capability
      else verified (record { digest = codes "d"; expires_at = 1120 }))
verify_capability-issue_example =
    verify_capability-issue node authorized options issuer request 1000 1119 token constructs issues
      (omega arith) transported

verify_capability-lifetime_example : (1000 + 15 ≤ 1120) × (1120 ≤ 1000 + 600) × (1100 < 1000 + 600)
verify_capability-lifetime_example =
    verify_capability-lifetime node authorized options issuer request 1000 1100 token capability
      constructs issues (omega arith) transported verifies
