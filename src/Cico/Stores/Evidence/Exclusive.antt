-- ===== src/Cico/Stores/Evidence/Exclusive.antt =====
-- An evidence authorization of cico-service/src/durable-stores.ts serves one enrolment only.
use midnight_referendum_app.Base.{
  ◌≡◌, refl, sym, ◌∙◌, ap, subst, Bool, true, false, Option, none, some, List, [], ◌∷◌, arith,
  if_both, All, Bool-cases, inl, inr,
}
use mathlib.Core.Option.{some-injective}
use midnight_referendum_app.Base.Text.{Text, text_eq, text_eq_iff, text_eq_refl}
use midnight_referendum_app.Base.Maps.{get, set, get-set}
use midnight_referendum_app.Cico.Stores.File.{
  File, Outcome, returned, threw, Io, Mutator, update, run,
}
use midnight_referendum_app.Cico.Stores.File.Refines.{
  Acts, changes, refuses, loses, unconfirmed, ActsAll, stops, steps, Stores, AllKeep, run-Refines,
  update-Simulates,
}
use midnight_referendum_app.Cico.Stores.Keyed.{IsStored}
use midnight_referendum_app.Cico.Stores.Evidence.{
  EvidenceRecord, EvidenceState, evidence_entry, evidence_codec, Claim, is_refused, strengthened,
  grant, claimed,
}
use midnight_referendum_app.Cico.Stores.Evidence.Laws.{
  IsDigested, claimed-Keeps, evidence_codec-IsCodec,
}

-- The record binds the authorization to what the claim named.
pub record BindsTo (claim : Claim) (r : EvidenceRecord) : Type 0 where
  pub enrollment_key : r.enrollment_key ≡ claim.enrollment_key
  pub material_key : (s : Text) → claim.material_key ≡ some s → r.material_key ≡ some s

abbrev pub Binds : Claim → EvidenceState → Type 0
Binds claim s = (r : EvidenceRecord) × (get s claim.authorization_key ≡ some r) × BindsTo claim r

-- Two claims that one record can serve.
pub record Agree (c d : Claim) : Type 0 where
  pub enrollment_key : c.enrollment_key ≡ d.enrollment_key
  pub material_key : (s t : Text) → c.material_key ≡ some s → d.material_key ≡ some t → s ≡ t

get-set_here : (s : EvidenceState) (k : Text) (r : EvidenceRecord) → get (set s k r) k ≡ some r
get-set_here s k r = get-set s k k r ∙ ground (arith, text_eq_refl k)

strengthened-BindsTo :
    (claim : Claim) (enrollment : Text) (known : Option Text)
    → is_refused (record { enrollment_key = enrollment; material_key = known }) claim ≡ false
    → BindsTo claim (
        strengthened
          (record { enrollment_key = enrollment; material_key = known })
          claim.material_key)
strengthened-BindsTo claim enrollment none h = record {
  enrollment_key = ground (arith, h, text_eq_iff enrollment claim.enrollment_key);
  material_key = λ s e. e;
}
strengthened-BindsTo claim enrollment (some m) h = record {
  enrollment_key = ground (arith, h, text_eq_iff enrollment claim.enrollment_key);
  material_key = λ s e. ground (arith, h, e, text_eq_iff m s);
}

-- A later strengthening keeps the binding.
kept-BindsTo :
    (claim : Claim) (enrollment : Text) (known given : Option Text)
    → BindsTo claim (record { enrollment_key = enrollment; material_key = known })
    → BindsTo claim
        (strengthened (record { enrollment_key = enrollment; material_key = known }) given)
kept-BindsTo claim enrollment none given h = record {
  enrollment_key = h.enrollment_key;
  material_key = λ s e. absurd (cc (h.material_key s e));
}
kept-BindsTo claim enrollment (some m) given h = h

get-set_same :
    (s : EvidenceState) (k j : Text) (r : EvidenceRecord)
    → text_eq k j ≡ true
    → get (set s k r) j ≡ some r
get-set_same s k j r h = get-set s k j r ∙ simp (h) refl

get-set_other :
    (s : EvidenceState) (k j : Text) (r : EvidenceRecord)
    → text_eq k j ≡ false
    → get (set s k r) j ≡ get s j
get-set_other s k j r h = get-set s k j r ∙ simp (h) refl

-- After a claim was granted the state binds its authorization.
grant-Binds :
    (claim : Claim) (s : EvidenceState) (o : Option EvidenceRecord)
    → (grant claim s o).0 ≡ true
    → Binds claim (grant claim s o).1
grant-Binds claim s none h = (
  _,
  get-set_here s claim.authorization_key _,
  record { enrollment_key = refl; material_key = λ t e. e },
)
grant-Binds claim s (some r) h = elim (Bool-cases (is_refused r claim)) [
  | inl refused ↦ absurd (cc (simp (refused) at h))
  | inr granted ↦ simp (granted) (
    _,
    get-set_here s claim.authorization_key _,
    strengthened-BindsTo claim r.enrollment_key r.material_key granted,
  )
]

-- And later claims keep it bound.
grant-keeps_Binds :
    (c d : Claim) (s : EvidenceState) (o : Option EvidenceRecord)
    → get s d.authorization_key ≡ o
    → Binds c s
    → Binds c (grant d s o).1
grant-keeps_Binds c d s none eq (r, e, h) =
    elim (Bool-cases (text_eq d.authorization_key c.authorization_key)) [
      | inl same ↦
          let here = ap (get s) ((text_eq_iff _ _).0 same) in absurd (cc (sym eq ∙ here ∙ e))
      | inr differs ↦ (r, get-set_other s _ _ _ differs ∙ e, h)
    ]
grant-keeps_Binds c d s (some q) eq (r, e, h) =
    if_both (λ (x : Bool × EvidenceState). Binds c x.1) (is_refused q d) _ _ (λ _. (r, e, h))
      (λ _. elim (Bool-cases (text_eq d.authorization_key c.authorization_key)) [
        | inl same ↦
            let here = ap (get s) ((text_eq_iff _ _).0 same) in
            let r≡q = some-injective _ _ (sym e ∙ sym here ∙ eq) in
            (
              _,
              get-set_same s _ _ _ same,
              kept-BindsTo c q.enrollment_key q.material_key d.material_key
                  (subst (BindsTo c) r≡q h),
            )
        | inr differs ↦ (r, get-set_other s _ _ _ differs ∙ e, h)
      ])

BindsTo-Agree :
    (c d : Claim) (enrollment : Text) (known : Option Text)
    → is_refused (record { enrollment_key = enrollment; material_key = known }) d ≡ false
    → BindsTo c (record { enrollment_key = enrollment; material_key = known })
    → Agree c d
BindsTo-Agree c d enrollment known h k = record {
  enrollment_key =
      sym k.enrollment_key ∙ ground (arith, h, text_eq_iff enrollment d.enrollment_key);
  material_key = λ s t e e'. ground (arith, h, e', k.material_key s e, text_eq_iff s t);
}

-- A claim that is granted agrees with the one that the authorization is bound to.
grant-Agree :
    (c d : Claim) (s : EvidenceState) (o : Option EvidenceRecord)
    → get s d.authorization_key ≡ o
    → c.authorization_key ≡ d.authorization_key
    → Binds c s
    → (grant d s o).0 ≡ true
    → Agree c d
grant-Agree c d s none eq same (r, e, h) granted = absurd (cc (sym eq ∙ ap (get s) (sym same) ∙ e))
grant-Agree c d s (some q) eq same (r, e, h) granted = elim (Bool-cases (is_refused q d)) [
  | inl refused ↦ absurd (cc (simp (refused) at granted))
  | inr accepted ↦
      let r≡q = some-injective _ _ (sym e ∙ ap (get s) same ∙ eq) in
      BindsTo-Agree c d q.enrollment_key q.material_key accepted (subst (BindsTo c) r≡q h)
]

abbrev pair_of : Outcome (Bool × EvidenceState) → Bool × EvidenceState
pair_of (returned x) = x
pair_of (threw e) = (false, [])

claimed-grant :
    (d : Claim) (s t : EvidenceState) (b : Bool)
    → claimed d s ≡ returned (b, t)
    → grant d s (get s d.authorization_key) ≡ (b, t)
unfolding claimed
claimed-grant d s t b eq = ap pair_of eq

claimed-Binds :
    (c d : Claim) (s t : EvidenceState) (b : Bool)
    → Binds c s
    → claimed d s ≡ returned (b, t)
    → Binds c t
claimed-Binds c d s t b h eq =
    subst (λ (x : Bool × EvidenceState). Binds c x.1) (claimed-grant d s t b eq)
      (grant-keeps_Binds c d s (get s d.authorization_key) refl h)

Acts-Binds :
    (c d : Claim) (s t : EvidenceState) (result : Outcome Bool)
    → Binds c s
    → Acts (claimed d) s result t
    → Binds c t
Acts-Binds c d s _ _ h (changes r t eq) = claimed-Binds c d s t r h eq
Acts-Binds c d s _ _ h (refuses x eq) = h
Acts-Binds c d s _ _ h loses = h
Acts-Binds c d s _ _ h (unconfirmed r t eq) = claimed-Binds c d s t r h eq

abbrev pub claims : List (Io × Claim) → List (Io × Mutator EvidenceState Bool)
claims [] = []
claims ((io, d) ∷ calls) = (io, claimed d) ∷ claims calls

ActsAll-Binds :
    (c : Claim) (calls : List (Io × Claim)) (s t : EvidenceState) (results : List (Outcome Bool))
    → Binds c s
    → ActsAll (claims calls) s results t
    → Binds c t
ActsAll-Binds c [] s t results h stops = h
ActsAll-Binds c ((io, d) ∷ calls) s u results h (steps io' m rest result results' acts more) =
    ActsAll-Binds c calls _ u results' (Acts-Binds c d s _ result h acts) more

claims-AllKeep :
    (calls : List (Io × Claim))
    → All (λ call. IsDigested call.1) calls
    → AllKeep evidence_codec (IsStored evidence_entry) evidence_codec-IsCodec (claims calls)
claims-AllKeep [] h = tt
claims-AllKeep ((io, d) ∷ calls) (h, k) = (claimed-Keeps d h, claims-AllKeep calls k)

returned-injective : (a b : Bool) → returned a ≡ returned b → a ≡ b
returned-injective a b e = cc

Acts-returned :
    (d : Claim) (s t : EvidenceState) (result : Outcome Bool) (b : Bool)
    → Acts (claimed d) s result t
    → result ≡ returned b
    → claimed d s ≡ returned (b, t)
Acts-returned d s _ _ b (changes r t eq) same =
    eq ∙ ap (λ x. returned (x, t)) (returned-injective r b same)
Acts-returned d s _ _ b (refuses x eq) same = absurd (cc same)
Acts-returned d s _ _ b loses same = absurd (cc same)
Acts-returned d s _ _ b (unconfirmed r t eq) same = absurd (cc same)

granted-Binds : (c : Claim) (s t : EvidenceState) → claimed c s ≡ returned (true, t) → Binds c t
granted-Binds c s t eq =
    let same = claimed-grant c s t true eq in
    subst (λ (x : Bool × EvidenceState). Binds c x.1) same
      (grant-Binds c s (get s c.authorization_key) (ap (λ (x : Bool × EvidenceState). x.0) same))

module _ (file : File) (s : EvidenceState) (c d : Claim) (io io' : Io)
    (calls : List (Io × Claim)) where
  abbrev pub after_first : File
  after_first = (update evidence_codec io (claimed c) file).1

  abbrev pub after_calls : File
  after_calls = (run evidence_codec (claims calls) after_first).1

  -- If a claim on a store is granted and a later claim of the same authorization is granted too,
  -- whatever claims come between and however the file system ends each of them, both are
  -- for the same enrolment and, where both give issuance material, for the same material.
  pub grants-Agree :
      Stores evidence_codec (IsStored evidence_entry) evidence_codec-IsCodec file s
      → IsDigested c
      → IsDigested d
      → All (λ call. IsDigested call.1) calls
      → c.authorization_key ≡ d.authorization_key
      → (update evidence_codec io (claimed c) file).0 ≡ returned true
      → (update evidence_codec io' (claimed d) after_calls).0 ≡ returned true
      → Agree c d
  grants-Agree h hc hd hs same first last =
      let (t, acts, st) =
        update-Simulates evidence_codec (IsStored evidence_entry) evidence_codec-IsCodec io
          (claimed c) file s (claimed-Keeps c hc) h in
      let bound = granted-Binds c s t (Acts-returned c s t _ true acts first) in
      let (u, more, st') =
        run-Refines evidence_codec (IsStored evidence_entry) evidence_codec-IsCodec (claims calls)
          after_first t (claims-AllKeep calls hs) st in
      let still = ActsAll-Binds c calls t u _ bound more in
      let (v, acts', _) =
        update-Simulates evidence_codec (IsStored evidence_entry) evidence_codec-IsCodec io'
          (claimed d) after_calls u (claimed-Keeps d hd) st' in
      let granted = claimed-grant d u v true (Acts-returned d u v _ true acts' last) in
      grant-Agree c d u (get u d.authorization_key) refl same still
        (ap (λ (x : Bool × EvidenceState). x.0) granted)
