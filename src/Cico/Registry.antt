-- ===== src/Cico/Registry.antt =====
-- The credential registry as the services read it: api/src/passport-v2/midnight-v2.ts, with
-- deriveRegistryContractBinding of api/src/passport-v2/crypto.ts. `hash` is `persistentHash` on two
-- values and `lower` is `toLowerCase`.
use midnight_referendum_app.Base.{
  ℕ, ◌+◌, ◌-◌, ◌*◌, Bool, ◌&&◌, Option, none, some, List, [], ◌∷◌, ◌++◌, leb, ◌==◌, if◌then◌else◌,
  length, all,
}
use midnight_referendum_app.Base.Text.{Text, codes, is_lower_hex, trim}

-- A Uint8Array.
abbrev pub Bytes : Type 0
Bytes = List ℕ

pub record RegistryState : Type 0 where
  pub registry_id : Bytes
  pub issuer_id : Bytes
  pub credential_epoch : ℕ
  pub current_root : ℕ
  pub frozen_root : ℕ
  pub frozen : Bool
  pub credential_count : ℕ

pub record FrozenReference : Type 0 where
  pub registry_contract_address : Text
  pub registry_contract_binding : Bytes
  pub registry_id : Bytes
  pub issuer_id : Bytes
  pub credential_epoch : ℕ
  pub frozen_root : ℕ

-- `replace(/^0x/u, '')`
unfoldable pub without_prefix : Text → Text
without_prefix (c ∷ d ∷ s) = if c == b'0' && d == b'x' then s else c ∷ d ∷ s
without_prefix s = s

abbrev pub hex_digit : ℕ → ℕ
hex_digit c = if leb c b'9' then c - b'0' else c - b'a' + 10

-- The bytes of the pairs of digits.
abbrev pub hex_bytes : Text → Bytes
hex_bytes (c ∷ d ∷ s) = (16 * hex_digit c + hex_digit d) ∷ hex_bytes s
hex_bytes _ = []

abbrev pub address_domain : Bytes
address_domain = codes "cico:registry:address:v1" ++ 0 ∷ 0 ∷ 0 ∷ 0 ∷ 0 ∷ 0 ∷ 0 ∷ 0 ∷ []

module _ (lower : Text → Text) (hash : Bytes → Bytes → Bytes) where
  unfoldable pub derive_registry_contract_binding : Text → Option Bytes
  unfolding trim without_prefix is_lower_hex
  derive_registry_contract_binding address =
      let normalized = lower (without_prefix (trim address)) in
      if length normalized == 64 && all is_lower_hex normalized
      then some (hash address_domain (hex_bytes normalized))
      else none

  -- `none` is a throw.
  unfoldable pub create_frozen_reference : Text → RegistryState → Option FrozenReference
  unfolding derive_registry_contract_binding
  create_frozen_reference address state = elim (derive_registry_contract_binding address) [
    | none ↦ none
    | some binding ↦
        if state.frozen && (state.frozen_root == state.current_root)
        then some (record {
          registry_contract_address = address;
          registry_contract_binding = binding;
          registry_id = state.registry_id;
          issuer_id = state.issuer_id;
          credential_epoch = state.credential_epoch;
          frozen_root = state.frozen_root;
        })
        else none
  ]
