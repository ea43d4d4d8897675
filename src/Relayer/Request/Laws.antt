-- ===== src/Relayer/Request/Laws.antt =====
-- What `parseV2ActionRequest` of relayer/src/v2-service.ts lets through.
use midnight_referendum_app.Base.{
  ℕ, ◌≤◌, ◌≡◌, refl, sym, ap, ◌∙◌, Bool, true, false, Option, some, [], ◌∷◌, map, arith, subst, all,
  length,
}
use midnight_referendum_app.Base.Text.{
  Text, codes, includes, is_blank, is_hex, is_lower_hex, to_lower,
}
use midnight_referendum_app.Base.Json.{Value, Fields, undefined, string, object, property}
use midnight_referendum_app.Receipts.{CivicActionKind}
use midnight_referendum_app.Relayer.Types.{ErrorCode}
use midnight_referendum_app.Relayer.Request.{
  Outcome, ok, refused, undecodable, ◌>>=◌, ◌>>◌, require, action_for_circuit, ActionRequest,
  RequestHeaders, ServiceOptions, field, transaction, action_of, parse_fields, parse_action_request,
  is_transaction, same_action,
}
use midnight_referendum_app.Relayer.Request.Forbidden.Complete.{
  is_clean, no_forbidden_keys-is_clean,
}

-- A text of one of the key fields.
pub record IsField (s : Text) : Type 0 where
  pub not_blank : is_blank s ≡ false
  pub bounded : length s ≤ 256

-- A request that the service may act on.
pub record IsAdmissible (options : ServiceOptions) (r : ActionRequest) : Type 0 where
  pub action_id : IsField r.action_id
  pub idempotency_key : IsField r.idempotency_key
  pub network : includes options.allowed_networks r.network ≡ true
  pub contract_address : includes options.allowed_contracts r.contract_address ≡ true
  pub circuit : includes options.allowed_circuits r.circuit ≡ true
  pub transaction : is_transaction r.tx ≡ true
  pub action : action_for_circuit r.circuit ≡ some r.action

-- What holds of every result of a parser.
abbrev Ensures {ℓ} : {A : Type ℓ} → (A → Type 0) → Outcome A → Type ℓ
Ensures {A} P o = (a : A) → o ≡ ok a → P a

ok-injective {ℓ} : {A : Type ℓ} (a b : A) → ok a ≡ ok b → a ≡ b
ok-injective a b e = cc

bind-Ensures {ℓ κ} :
    {A : Type ℓ} {B : Type κ} (P : B → Type 0) (m : Outcome A) (f : A → Outcome B)
    → ((a : A) → m ≡ ok a → Ensures P (f a))
    → Ensures P (m >>= f)
unfolding ◌>>=◌
bind-Ensures P (refused e) f h b eq = cc
bind-Ensures P undecodable f h b eq = cc
bind-Ensures P (ok a) f h b eq = h a refl b eq

then-Ensures {ℓ} :
    {B : Type ℓ} (P : B → Type 0) (m : Outcome (Unit {0})) (f : Outcome B)
    → (m ≡ ok tt → Ensures P f)
    → Ensures P (m >> f)
unfolding ◌>>=◌ ◌>>◌
then-Ensures P (refused e) f h b eq = cc
then-Ensures P undecodable f h b eq = cc
then-Ensures P (ok tt) f h b eq = h refl b eq

field-IsField : (v : Value) (s : Text) → field v ≡ ok s → IsField s
unfolding field
field-IsField (string s) t e = ground arith
field-IsField v t e = ground arith

require-true : (b : Bool) (e : ErrorCode) → require b e ≡ ok tt → b ≡ true
unfolding require
require-true true e h = refl
require-true false e h = cc

is_hex-to_lower : (c : ℕ) → is_hex c ≡ true → is_hex (to_lower c) ≡ true
unfolding is_hex is_lower_hex to_lower
is_hex-to_lower c h = ground arith

length-lower : (s : Text) → length (map to_lower s) ≡ length s
length-lower [] = refl
length-lower (c ∷ s) = omega (arith, length-lower s)

all_hex-lower : (s : Text) → all is_hex s ≡ true → all is_hex (map to_lower s) ≡ true
all_hex-lower [] h = refl
all_hex-lower (c ∷ s) h = ground (arith, is_hex-to_lower c, all_hex-lower s)

transaction-lower :
    (v : Value) (tx : Text) → transaction v ≡ ok tx → is_transaction (map to_lower tx) ≡ true
unfolding transaction
transaction-lower (string s) tx e = ground (arith, length-lower tx, all_hex-lower tx)
transaction-lower v tx e = ground arith

same_action-eq :
    (o : Option CivicActionKind) (a : CivicActionKind) → same_action o a ≡ true → o ≡ some a
same_action-eq o a h = ground arith

action_of_string :
    (s circuit : Text)
    → Ensures (λ a. action_for_circuit circuit ≡ some a) (action_of (string s) circuit)
unfolding action_of
action_of_string s circuit = bind-Ensures _ _ _ λ action _.
    then-Ensures _ _ _
      λ same b eq. same_action-eq _ _ (require-true _ _ same) ∙ ap some (ok-injective _ _ eq)

action_of-eq :
    (v : Value) (circuit : Text) (a : CivicActionKind)
    → action_of v circuit ≡ ok a
    → action_for_circuit circuit ≡ some a
unfolding action_of
action_of-eq undefined circuit a e = ground arith
action_of-eq (string s) circuit a e = action_of_string s circuit a e
action_of-eq v circuit a e = ground arith

abbrev Passed : (Text → Text) → ServiceOptions → Value → ActionRequest → Type 0
Passed lower options body r = IsAdmissible options r × (is_clean lower body ≡ true)

parse_fields-IsAdmissible :
    (lower : Text → Text) (options : ServiceOptions) (headers : RequestHeaders) (f : Fields)
    → Ensures (Passed lower options (object f)) (parse_fields lower options headers f)
unfolding parse_fields
parse_fields-IsAdmissible lower options headers f =
    let P : ActionRequest → Type 0 = Passed lower options (object f) in
    then-Ensures P _ _ λ clean. bind-Ensures P _ _ λ idempotency_key h1. then-Ensures P _ _ λ _.
      bind-Ensures P _ _ λ request_hash h2. then-Ensures P _ _ λ _. bind-Ensures P _ _ λ network h3.
        bind-Ensures P _ _ λ contract_address h4. bind-Ensures P _ _ λ circuit h5.
          bind-Ensures P _ _ λ tx h6. bind-Ensures P _ _ λ action h7. then-Ensures P _ _ λ h8.
            then-Ensures P _ _ λ h9. then-Ensures P _ _ λ h10. then-Ensures P _ _ λ _.
              bind-Ensures P _ _ λ action_id h11 r e. subst P (ok-injective _ _ e) (
                record {
                  action_id = field-IsField (property f (codes "actionId")) _ h11;
                  idempotency_key = field-IsField _ _ h1;
                  network = require-true _ _ h8;
                  contract_address = require-true _ _ h9;
                  circuit = require-true _ _ h10;
                  transaction = transaction-lower _ _ h6;
                  action = action_of-eq _ _ _ h7;
                },
                sym (no_forbidden_keys-is_clean lower (object f)) ∙ require-true _ _ clean,
              )

-- A request that the parser returns is admissible, and its body has no forbidden key at any depth:
-- its action identifier and its idempotency key are not blank and have at most 256 code units, its
-- network, its contract and its circuit are on the allowlists, and its action is the one that the
-- circuit decides. Its transaction is not empty, has an even number of hexadecimal digits, and at most
-- two mebi of them.
pub parse-IsAdmissible :
    (lower : Text → Text) (options : ServiceOptions) (headers : RequestHeaders) (body : Value)
    (r : ActionRequest)
    → parse_action_request lower options headers body ≡ ok r
    → IsAdmissible options r × (is_clean lower body ≡ true)
unfolding parse_action_request
parse-IsAdmissible lower options headers (object f) r e =
    parse_fields-IsAdmissible lower options headers f r e
parse-IsAdmissible lower options headers body r e = cc
