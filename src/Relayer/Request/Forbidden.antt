-- ===== src/Relayer/Request/Forbidden.antt =====
-- relayer/src/v2-service.ts: assertNoForbiddenKeys, a walk over all nested objects and arrays with a
-- stack of values that wait.
pub mod Complete
use midnight_referendum_app.Base.{
  ℕ, zero, suc, ◌+◌, ◌≡◌, Bool, true, false, not, ◌&&◌, ◌||◌, Option, none, some, List, [], ◌∷◌,
  map, if◌then◌else◌,
}
use midnight_referendum_app.Base.Text.{Text, codes, includes, to_lower}
use midnight_referendum_app.Base.Json.{
  Value, Values, Fields, undefined, null, boolean, number, string, array, object, nil, cons, end,
  field,
}

-- `forbiddenRequestKeys`, in lower case.
abbrev pub forbidden_request_keys : List Text
forbidden_request_keys = map (map to_lower) (
    codes "proof"
    ∷ codes "witness"
    ∷ codes "choice"
    ∷ codes "ballot"
    ∷ codes "ballotChoice"
    ∷ codes "voteChoice"
    ∷ codes "secret"
    ∷ codes "seed"
    ∷ codes "seedPhrase"
    ∷ codes "voterSecret"
    ∷ codes "voteSalt"
    ∷ codes "passport"
    ∷ codes "profile"
    ∷ codes "name"
    ∷ codes "email"
    ∷ codes "passportNumber"
    ∷ codes "mrz"
    ∷ codes "mrzData"
    ∷ codes "nfc"
    ∷ codes "nfcPayload"
    ∷ codes "credentialBlind"
    ∷ codes "credentialLeaf"
    ∷ [])

-- `typeof child === 'object' && child !== null`
abbrev pub is_container : Value → Bool
is_container (array vs) = true
is_container (object f) = true
is_container _ = false

-- `pending.push(...candidate)`; the top of the stack is the head.
unfoldable pub push_all : Values → List Value → List Value
push_all nil pending = pending
push_all (cons v vs) pending = push_all vs (v ∷ pending)

-- How many steps of the walk a value takes.
unfoldable mutual
  pub weight : Value → ℕ
  weight (array vs) = suc (weight_values vs)
  weight (object f) = suc (weight_fields f)
  weight v = 1

  pub weight_values : Values → ℕ
  weight_values nil = 0
  weight_values (cons v vs) = weight v + weight_values vs

  pub weight_fields : Fields → ℕ
  weight_fields end = 0
  weight_fields (field k v f) = weight v + weight_fields f

abbrev pub total : List Value → ℕ
total [] = 0
total (v ∷ vs) = weight v + total vs

abbrev pub passed : Option Bool → Bool
passed none = false
passed (some b) = b

-- `toLowerCase` is the parameter `lower`.
module _ (lower : Text → Text) where
  unfoldable pub is_forbidden : Text → Bool
  is_forbidden key = includes forbidden_request_keys (lower key)

  -- The loop over the entries of one object; `none` is the throw.
  unfoldable pub push_entries : Fields → List Value → Option (List Value)
  push_entries end pending = some pending
  push_entries (field key child f) pending =
      let rest = push_entries f (if is_container child then child ∷ pending else pending) in
      if is_forbidden key then none else rest

  -- The walk: `some false` is the throw, `none` that the fuel ran out.
  unfoldable pub walk : ℕ → List Value → Option Bool
  walk zero pending = none
  walk (suc fuel) [] = some true
  walk (suc fuel) (array vs ∷ pending) = walk fuel (push_all vs pending)
  walk (suc fuel) (object f ∷ pending) = elim (push_entries f pending) [
    | none ↦ some false
    | some more ↦ walk fuel more
  ]
  walk (suc fuel) (v ∷ pending) = walk fuel pending

  unfoldable pub no_forbidden_keys : Value → Bool
  unfolding walk weight push_all push_entries is_forbidden
  no_forbidden_keys v = passed (walk (suc (total (v ∷ []))) (v ∷ []))
