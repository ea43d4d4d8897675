-- ===== src/Cico/Stores/Receipts/Laws.antt =====
-- What the receipt store of cico-service/src/durable-stores.ts keeps.
use midnight_referendum_app.Base.{
  ◌≡◌, ◌≢◌, refl, sym, ◌∙◌, ap, subst, Bool, true, false, not, ◌&&◌, Option, none, some, List, [],
  ◌∷◌, arith, All, Bool-cases, inl, inr, is_some, ==_iff,
}
use mathlib.Core.Option.{some-injective}
use midnight_referendum_app.Base.Text.{Text, codes, text_eq, text_eq_iff}
use midnight_referendum_app.Base.Maps.{Map, get}
use midnight_referendum_app.Base.Json.{Value}
use midnight_referendum_app.Receipts.{
  CanonicalReceipt, CivicActionKind, MidnightRuntimeNetwork, action_text, network_text,
  sanitize_canonical_receipt, receipt_value,
}
use midnight_referendum_app.Receipts.Laws.{sanitize_stable, sanitize-IsPublic}
use midnight_referendum_app.Cico.Stores.File.{
  File, returned, Io, completes, Mutator, run, read, load, IsCodec,
}
use midnight_referendum_app.Cico.Stores.File.Refines.{Stores, AllKeep, Keeps}
use midnight_referendum_app.Cico.Stores.Keyed.{IsStored, keyed_codec-IsCodec}
use midnight_referendum_app.Cico.Stores.Insert.{insert-kept, insert-Keeps, insert-there}
use midnight_referendum_app.Cico.Stores.Persist.{Preserves, AllPreserve, persists}
use midnight_referendum_app.Cico.Stores.Receipts.{
  canonical_receipt, if_preview, is_preview, under_key, parse_receipt, receipt_entry, receipt_codec,
  same_receipt, same_url, is_inherited, put_receipt, put, put_canonical, get_receipt, found,
  found_of,
}

-- A receipt that the store can hold under its transaction.
abbrev pub IsKept : CanonicalReceipt → Type 0
IsKept r = parse_receipt r.transaction_id (receipt_value r) ≡ some r

if_preview-some :
    (o : Option CanonicalReceipt) (r : CanonicalReceipt)
    → if_preview o ≡ some r
    → (o ≡ some r) × (is_preview r.network ≡ true)
if_preview-some none r h = cc
if_preview-some (some q) r h = elim (Bool-cases (is_preview q.network)) [
  | inl yes' ↦
      let same = simp (yes') at h in
      (same, subst (λ x. is_preview x.network ≡ true) (some-injective _ _ same) yes')
  | inr other ↦ absurd (cc (simp (other) at h))
]

pub canonical_stable :
    (v : Value) (r : CanonicalReceipt)
    → canonical_receipt v ≡ some r
    → canonical_receipt (receipt_value r) ≡ some r
unfolding canonical_receipt
canonical_stable v r h =
    let (reads, preview) = if_preview-some (sanitize_canonical_receipt v) r h in
    simp (sanitize_stable v r reads, preview) refl

under_key-some :
    (key : Text) (o : Option CanonicalReceipt) (r : CanonicalReceipt)
    → under_key key o ≡ some r
    → (o ≡ some r) × (text_eq key r.transaction_id ≡ true)
under_key-some key none r h = cc
under_key-some key (some q) r h = elim (Bool-cases (text_eq key q.transaction_id)) [
  | inl here ↦
      let same = simp (here) at h in
      (same, subst (λ x. text_eq key x.transaction_id ≡ true) (some-injective _ _ same) here)
  | inr other ↦ absurd (cc (simp (other) at h))
]

parse_receipt_stable :
    (key : Text) (v : Value) (r : CanonicalReceipt)
    → parse_receipt key v ≡ some r
    → parse_receipt key (receipt_value r) ≡ some r
unfolding parse_receipt
parse_receipt_stable key v r h =
    let (reads, here) = under_key-some key (canonical_receipt v) r h in
    simp (canonical_stable v r reads, here) refl

pub receipt_codec-IsCodec : IsCodec receipt_codec (IsStored receipt_entry)
unfolding text_eq
receipt_codec-IsCodec =
    keyed_codec-IsCodec receipt_entry (codes "receipts") (record { stable = parse_receipt_stable })
      refl

-- What `put` takes can be kept.
pub canonical-IsKept : (v : Value) (r : CanonicalReceipt) → canonical_receipt v ≡ some r → IsKept r
unfolding parse_receipt
canonical-IsKept v r h =
    simp (canonical_stable v r h) (ground (arith, text_eq_iff r.transaction_id r.transaction_id))

pub and_left : (a b : Bool) → (a && b) ≡ true → a ≡ true
and_left true b h = refl
and_left false b h = cc

pub and_right : (a b : Bool) → (a && b) ≡ true → b ≡ true
and_right true b h = h
and_right false b h = cc

pub same_text : (a b : Text) → text_eq a b ≡ true → a ≡ b
same_text a b h = (text_eq_iff a b).0 h

same_url-eq : (a b : Option Text) → same_url a b ≡ true → a ≡ b
same_url-eq none none h = refl
same_url-eq (some a) (some b) h = ap some ((text_eq_iff a b).0 h)
same_url-eq _ _ h = cc

action_text-eq : (a b : CivicActionKind) → text_eq (action_text a) (action_text b) ≡ true → a ≡ b
unfolding text_eq
action_text-eq a b h = ground arith

network_text-eq :
    (a b : MidnightRuntimeNetwork) → text_eq (network_text a) (network_text b) ≡ true → a ≡ b
unfolding text_eq
network_text-eq a b h = ground arith

-- Receipts with the same text in every field are the same.
pub same_receipt-eq : (a b : CanonicalReceipt) → same_receipt a b ≡ true → a ≡ b
unfolding same_receipt
same_receipt-eq a b h0 =
    let h1 = and_left _ _ h0 in
    let h2 = and_left _ _ h1 in
    let h3 = and_left _ _ h2 in
    let h4 = and_left _ _ h3 in
    let h5 = and_left _ _ h4 in
    let h6 = and_left _ _ h5 in
    let h7 = and_left _ _ h6 in
    let h8 = and_left _ _ h7 in
    let h9 = and_left _ _ h8 in
    λ i. record {
      action = action_text-eq a.action b.action h9 i;
      network = network_text-eq a.network b.network (and_right _ _ h8) i;
      transaction_id = same_text a.transaction_id b.transaction_id (and_right _ _ h7) i;
      transaction_hash = same_text a.transaction_hash b.transaction_hash (and_right _ _ h6) i;
      contract_address = same_text a.contract_address b.contract_address (and_right _ _ h5) i;
      circuit = same_text a.circuit b.circuit (and_right _ _ h4) i;
      block_height = (==_iff a.block_height b.block_height).0 (and_right _ _ h3) i;
      block_hash = same_text a.block_hash b.block_hash (and_right _ _ h2) i;
      block_timestamp = same_text a.block_timestamp b.block_timestamp (and_right _ _ h1) i;
      explorer_url = same_url-eq a.explorer_url b.explorer_url (and_right _ _ h0) i;
    }

put_receipt-Preserves : (r : CanonicalReceipt) → Preserves (put_receipt r)
unfolding put_receipt
put_receipt-Preserves r k old s t u eq h =
    elim (Bool-cases (is_inherited r.transaction_id && not (is_some (get s r.transaction_id)))) [
      | inl refused ↦ absurd (cc (simp (refused) at eq))
      | inr taken ↦ insert-kept same_receipt r.transaction_id k r old s t u (simp (taken) at eq) h
    ]

put_receipt-Keeps :
    (r : CanonicalReceipt) → IsKept r → Keeps (IsStored receipt_entry) (put_receipt r)
unfolding put_receipt
put_receipt-Keeps r kept s u t h eq =
    elim (Bool-cases (is_inherited r.transaction_id && not (is_some (get s r.transaction_id)))) [
      | inl refused ↦ absurd (cc (simp (refused) at eq))
      | inr taken ↦
          insert-Keeps same_receipt receipt_entry r.transaction_id r kept s u t h
            (simp (taken) at eq)
    ]

put_receipt_there :
    (r : CanonicalReceipt) (s t : Map CanonicalReceipt) (u : Unit {0})
    → put_receipt r s ≡ returned (u, t)
    → get t r.transaction_id ≡ some r
unfolding put_receipt
put_receipt_there r s t u eq =
    elim (Bool-cases (is_inherited r.transaction_id && not (is_some (get s r.transaction_id)))) [
      | inl refused ↦ absurd (cc (simp (refused) at eq))
      | inr taken ↦
          insert-there same_receipt r.transaction_id r s t u same_receipt-eq (simp (taken) at eq)
    ]

canonical-ne :
    (v : Value) (r : CanonicalReceipt) → canonical_receipt v ≡ some r → r.transaction_id ≢ []
unfolding canonical_receipt
canonical-ne v r h =
    let (reads, _) = if_preview-some (sanitize_canonical_receipt v) r h in
    (sanitize-IsPublic v r reads).transaction_id

get_receipt_lem :
    (id : Text) (file : File) (u : Map CanonicalReceipt) (r : CanonicalReceipt)
    → id ≢ []
    → load receipt_codec file ≡ some u
    → get u id ≡ some r
    → get_receipt id completes file ≡ returned (found r)
unfolding get_receipt read
get_receipt_lem [] file u r h e k = absurd (h refl)
get_receipt_lem (c ∷ id) file u r h e k = simp (e) (ap (λ o. returned (found_of (c ∷ id) o)) k)

-- Calls of `put`, by the receipts that its guard has let through.
abbrev pub puts :
    List (Io × CanonicalReceipt) → List (Io × Mutator (Map CanonicalReceipt) (Unit {0}))
puts [] = []
puts ((io, r) ∷ calls) = (io, put_receipt r) ∷ puts calls

puts-AllKeep :
    (calls : List (Io × CanonicalReceipt))
    → All (λ call. IsKept call.1) calls
    → AllKeep receipt_codec (IsStored receipt_entry) receipt_codec-IsCodec (puts calls)
puts-AllKeep [] h = tt
puts-AllKeep ((io, r) ∷ calls) (h, k) = (put_receipt-Keeps r h, puts-AllKeep calls k)

puts-AllPreserve : (calls : List (Io × CanonicalReceipt)) → AllPreserve (puts calls)
puts-AllPreserve [] = tt
puts-AllPreserve ((io, r) ∷ calls) = (put_receipt-Preserves r, puts-AllPreserve calls)

-- Once `put` has returned, `get` finds that receipt, whatever is put later and however the
-- file system ends those calls.
pub get_receipt-put :
    (file : File) (s : Map CanonicalReceipt) (v : Value) (r : CanonicalReceipt) (io : Io)
    (calls : List (Io × CanonicalReceipt))
    → Stores receipt_codec (IsStored receipt_entry) receipt_codec-IsCodec file s
    → canonical_receipt v ≡ some r
    → (put v io file).0 ≡ returned tt
    → All (λ call. IsKept call.1) calls
    → get_receipt r.transaction_id completes (run receipt_codec (puts calls) (put v io file).1).1
      ≡ returned (found r)
unfolding put
get_receipt-put file s v r io calls h reads first kept =
    let first' = ap (λ o. (put_canonical o io file).0) (sym reads) ∙ first in
    let (u, e, k) =
      persists receipt_codec (IsStored receipt_entry) receipt_codec-IsCodec file s io
        (put_receipt r) tt r.transaction_id r (puts calls) h
        (put_receipt-Keeps r (canonical-IsKept v r reads)) (λ t x eq. put_receipt_there r s t x eq)
        first' (puts-AllKeep calls kept) (puts-AllPreserve calls) in
    get_receipt_lem r.transaction_id _ u r (canonical-ne v r reads)
      (ap (λ o. load receipt_codec (run receipt_codec (puts calls) (put_canonical o io file).1).1)
          reads
        ∙ e)
      k
