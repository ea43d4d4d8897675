-- ===== src/Cico/Stores/Receipts.antt =====
-- FileCanonicalReceiptStore of cico-service/src/durable-stores.ts.
pub mod Laws
use midnight_referendum_app.Base.{
  ◌≡◌, Bool, true, false, not, ◌&&◌, Option, none, some, List, [], ◌∷◌, ◌==◌, if◌then◌else◌,
  is_some,
}
use midnight_referendum_app.Base.Text.{Text, codes, text_eq, includes}
use midnight_referendum_app.Base.Maps.{Map, get}
use midnight_referendum_app.Base.Json.{Value}
use midnight_referendum_app.Receipts.{
  CanonicalReceipt, CivicActionKind, credential, vote, cohort, MidnightRuntimeNetwork, preview,
  action_text, network_text, sanitize_canonical_receipt, receipt_value,
}
use midnight_referendum_app.Cico.Stores.File.{
  File, StoreError, invalid, conflict, Outcome, returned, threw, Io, Codec, Mutator, update, read,
}
use midnight_referendum_app.Cico.Stores.Keyed.{Entry, keyed_codec}
use midnight_referendum_app.Cico.Stores.Insert.{insert}

abbrev pub is_preview : MidnightRuntimeNetwork → Bool
is_preview preview = true
is_preview _ = false

abbrev pub if_preview : Option CanonicalReceipt → Option CanonicalReceipt
if_preview none = none
if_preview (some r) = if is_preview r.network then some r else none

-- `canonicalReceipt`: the tests of sanitizeCanonicalReceipt, with `preview` as the only network.
unfoldable pub canonical_receipt : Value → Option CanonicalReceipt
canonical_receipt v = if_preview (sanitize_canonical_receipt v)

abbrev pub under_key : Text → Option CanonicalReceipt → Option CanonicalReceipt
under_key key none = none
under_key key (some r) = if text_eq key r.transaction_id then some r else none

unfoldable pub parse_receipt : Text → Value → Option CanonicalReceipt
unfolding canonical_receipt
parse_receipt key v = under_key key (canonical_receipt v)

abbrev pub receipt_entry : Entry CanonicalReceipt
receipt_entry = record { parse = parse_receipt; render = receipt_value }

abbrev pub receipt_codec : Codec (Map CanonicalReceipt)
receipt_codec = keyed_codec receipt_entry (codes "receipts")

abbrev pub same_url : Option Text → Option Text → Bool
same_url none none = true
same_url (some a) (some b) = text_eq a b
same_url _ _ = false

-- `JSON.stringify(existing) === JSON.stringify(canonical)`, which have the same fields in the same order.
unfoldable pub same_receipt : CanonicalReceipt → CanonicalReceipt → Bool
same_receipt a b =
    text_eq (action_text a.action) (action_text b.action)
    && text_eq (network_text a.network) (network_text b.network)
    && text_eq a.transaction_id b.transaction_id
    && text_eq a.transaction_hash b.transaction_hash
    && text_eq a.contract_address b.contract_address
    && text_eq a.circuit b.circuit
    && (a.block_height == b.block_height)
    && text_eq a.block_hash b.block_hash
    && text_eq a.block_timestamp b.block_timestamp
    && same_url a.explorer_url b.explorer_url

-- The properties that every object has from Object.prototype: `state.receipts[id]` finds them too.
abbrev pub inherited_names : List Text
inherited_names =
    codes "constructor"
    ∷ codes "toString"
    ∷ codes "toLocaleString"
    ∷ codes "valueOf"
    ∷ codes "hasOwnProperty"
    ∷ codes "isPrototypeOf"
    ∷ codes "propertyIsEnumerable"
    ∷ codes "__proto__"
    ∷ codes "__defineGetter__"
    ∷ codes "__defineSetter__"
    ∷ codes "__lookupGetter__"
    ∷ codes "__lookupSetter__"
    ∷ []

unfoldable pub is_inherited : Text → Bool
is_inherited id = includes inherited_names id

-- The change of `put`; what is found under an inherited name differs from every receipt.
unfoldable pub put_receipt : CanonicalReceipt → Mutator (Map CanonicalReceipt) (Unit {0})
unfolding is_inherited insert
put_receipt r m =
    if is_inherited r.transaction_id && not (is_some (get m r.transaction_id))
    then threw conflict
    else insert same_receipt r.transaction_id r m

abbrev pub put_canonical : Option CanonicalReceipt → Io → File → Outcome (Unit {0}) × File
put_canonical none io file = (threw invalid, file)
put_canonical (some r) io file = update receipt_codec io (put_receipt r) file

unfoldable pub put : Value → Io → File → Outcome (Unit {0}) × File
unfolding canonical_receipt put_receipt
put receipt io file = put_canonical (canonical_receipt receipt) io file

-- What `get` finds: nothing, a receipt, or an object that is no receipt.
pub data Found : Type 0 where
  absent : Found
  found : CanonicalReceipt → Found
  no_receipt : Found

abbrev pub found_of : Text → Option CanonicalReceipt → Found
found_of id (some r) = found r
found_of id none = if is_inherited id then no_receipt else absent

abbrev pub answer : Text → Outcome (Map CanonicalReceipt) → Outcome Found
answer id (returned m) = returned (found_of id (get m id))
answer id (threw e) = threw e

unfoldable pub get_receipt : Text → Io → File → Outcome Found
unfolding is_inherited
get_receipt [] io file = threw invalid
get_receipt (c ∷ id) io file = answer (c ∷ id) (read receipt_codec io file)
