-- ===== src/Relayer/Request/Tests.antt =====
-- Runs of parseV2ActionRequest.
use midnight_referendum_app.Base.{◌≡◌, refl, arith, true, none, some, [], ◌∷◌, map}
use midnight_referendum_app.Base.Text.{Text, codes, to_lower, text_eq, is_blank, is_hex}
use midnight_referendum_app.Base.Json.{
  Value, string, object, array, nil, cons, end, field, null, property,
}
use midnight_referendum_app.Receipts.{vote}
use midnight_referendum_app.Relayer.Types.{invalid_request}
use midnight_referendum_app.Relayer.Request
use midnight_referendum_app.Relayer.Request.{
  Outcome, ok, refused, ActionRequest, RequestHeaders, ServiceOptions, parse_action_request,
  cast_vote, ◌>>◌, require, optional_digest, transaction, action_of, action_for_circuit,
}
use midnight_referendum_app.Relayer.Request.Forbidden.{
  no_forbidden_keys, walk, weight, weight_values, weight_fields,
}
use midnight_referendum_app.Relayer.Request.Forbidden.Complete.{
  is_clean, no_forbidden_keys-is_clean, all_clean, walk-clean,
}
use midnight_referendum_app.Relayer.Request.Laws.{IsAdmissible, parse-IsAdmissible}

abbrev lower : Text → Text
lower = map to_lower

abbrev options : ServiceOptions
options = record {
  allowed_networks = codes "preview" ∷ [];
  allowed_contracts = codes "c1" ∷ [];
  allowed_circuits = cast_vote ∷ [];
  decodes = λ _. true;
}

abbrev headers : RequestHeaders
headers = record { idempotency_key = some (codes "k"); request_hash = none; capability = none }

abbrev body : Text → Value → Value
body network extra = object (
    field (codes "actionId") (string (codes "a1")) (
      field (codes "network") (string network) (
        field (codes "contractAddress") (string (codes "c1")) (
          field (codes "circuit") (string cast_vote)
            (field (codes "tx") (string (codes "0A")) (field (codes "meta") extra end))))))

abbrev nested : Value
nested = array (cons (object (field (codes "BALLOT") null end)) nil)

parsed : ActionRequest
parsed = record {
  action_id = codes "a1";
  idempotency_key = codes "k";
  request_hash = none;
  network = codes "preview";
  contract_address = codes "c1";
  circuit = cast_vote;
  action = vote;
  tx = codes "0a";
}

parse_accepts : parse_action_request lower options headers (body (codes "preview") null) ≡ ok parsed
unfolding parse_action_request parsed ◌>>◌ require no_forbidden_keys text_eq to_lower Request.field
    property is_blank optional_digest transaction is_hex action_of action_for_circuit
parse_accepts = refl

parse_refuses_nested :
    parse_action_request lower options headers (body (codes "preview") nested)
    ≡ refused invalid_request
unfolding parse_action_request ◌>>◌ require no_forbidden_keys text_eq to_lower
parse_refuses_nested = refl

parse-IsAdmissible_example :
    IsAdmissible options parsed × (is_clean lower (body (codes "preview") null) ≡ true)
parse-IsAdmissible_example =
    parse-IsAdmissible lower options headers (body (codes "preview") null) parsed parse_accepts

no_forbidden_keys-is_clean_example :
    no_forbidden_keys lower (body (codes "preview") nested)
    ≡ is_clean lower (body (codes "preview") nested)
no_forbidden_keys-is_clean_example =
    no_forbidden_keys-is_clean lower (body (codes "preview") nested)

walk-clean_example :
    walk lower 40 (body (codes "preview") nested ∷ [])
    ≡ some (all_clean lower (body (codes "preview") nested ∷ []))
unfolding weight weight_values weight_fields
walk-clean_example = walk-clean lower 40 (body (codes "preview") nested ∷ []) (omega arith)
