-- ===== src/Relayer/Store/Invariant.antt =====
-- The invariant of the action store, and the operations that keep it.
use midnight_referendum_app.Base.{
  ◌+◌, ◌≤◌, ◌≡◌, refl, ◌≢◌, ◌⊎◌, true, false, not, ◌||◌, Option, none, some, List, [], ◌∷◌, ◌++◌,
  arith, All, any, ap, sym, ◌∙◌, subst, Bool-cases, Option-cases, inl, inr,
}
use mathlib.Core.Option.{some-injective}
use mathlib.Core.Bool.{false≢true}
use midnight_referendum_app.Base.Text.{Text, text_eq, text_eq_iff}
use midnight_referendum_app.Base.Maps.{Map, get, set, values}
use midnight_referendum_app.Receipts.{CanonicalReceipt}
use midnight_referendum_app.Relayer.Types.{Job, Status, Patch, status_eq, validated}
use midnight_referendum_app.Relayer.Store.{
  Store, ok, is_leased, reserve_dust, reserved_job, transition, status_in, patched, next_status,
  next_transitions, clean_receipt, receipt_input, is_other_lease,
}
use midnight_referendum_app.Relayer.Store.Keys.{
  Identity, identity, identities, Apart, Distinct, IsKeyed, identities-set_same, Each, Each-set,
  Each-get, lease_of, leases, leases-set_same,
}

abbrev pub last : List Status → Option Status
last [] = none
last (s ∷ []) = some s
last (s ∷ t ∷ ss) = last (t ∷ ss)

last-append : (ss : List Status) (s : Status) → last (ss ++ s ∷ []) ≡ some s
last-append [] s = refl
last-append (t ∷ []) s = refl
last-append (t ∷ u ∷ ss) s = last-append (u ∷ ss) s

-- The journal of a job ends with its status.
abbrev pub IsJournaled : Job → Type 0
IsJournaled job = last job.transitions ≡ some job.status

pub record IsValid (store : Store) : Type 0 where
  pub keyed : IsKeyed (identities store.jobs)
  pub distinct : Distinct (identities store.jobs)
  pub journaled : Each IsJournaled store.jobs
  pub lease : leases store.jobs ≤ 1

-- One job is written back under its key.
pub record Writes (id : Text) (old new : Job) (store store' : Store) : Type 0 where
  pub found : get store.jobs id ≡ some old
  pub jobs : store'.jobs ≡ set store.jobs id new
  pub capabilities : store'.capabilities ≡ store.capabilities

pub Writes-IsValid :
    (id : Text) (old new : Job) (store store' : Store)
    → Writes id old new store store'
    → identity id new ≡ identity id old
    → IsJournaled new
    → leases store.jobs + lease_of new ≤ 1 + lease_of old
    → IsValid store
    → IsValid store'
Writes-IsValid id old new store store' w same journal lease v =
    let kept = identities-set_same store.jobs id old new w.found same in
    let count = leases-set_same store.jobs id old new w.found in
    record {
      keyed = rw (w.jobs, kept) v.keyed;
      distinct = rw (w.jobs, kept) v.distinct;
      journaled = rw w.jobs (Each-set IsJournaled store.jobs id new v.journaled journal);
      lease = rw w.jobs (omega arith);
    }

status_eq_sound : (s t : Status) → status_eq t s ≡ true → s ≡ t
status_eq_sound s t h = ground arith

-- What a successful transition did: nothing, or one write of the patched job.
abbrev pub Transitioned : Text → List Status → Patch → Text → Store → Option Job → Store → Type 0
Transitioned id expected patch now store result store' =
    ((result ≡ none) × (store' ≡ store))
    ⊎ ((job : Job) × (receipt : Option CanonicalReceipt) × (status_in expected job.status ≡ true)
        × (clean_receipt (receipt_input job.receipt patch.receipt) ≡ some receipt)
        × (result ≡ some (patched job patch receipt now))
        × Writes id job (patched job patch receipt now) store store')

pub transition_cases :
    (id : Text) (expected : List Status) (patch : Patch) (now : Text) (store : Store)
    (result : Option Job) (store' : Store)
    → transition id expected patch now store ≡ ok (result, store')
    → Transitioned id expected patch now store result store'
unfolding transition
transition_cases id expected patch now store result store' e =
    elim (Option-cases (get store.jobs id)) [
      | inl missing ↦ let e' = rw missing at e in inl (ground arith, ground arith)
      | inr (job, found) ↦ elim (Bool-cases (status_in expected job.status)) [
        | inl expects ↦
            elim (Option-cases (clean_receipt (receipt_input job.receipt patch.receipt))) [
              | inl refused ↦ absurd (ground arith)
              | inr (receipt, clean) ↦ inr (
                job,
                receipt,
                expects,
                clean,
                ground arith,
                record { found = found; jobs = ground arith; capabilities = ground arith },
              )
            ]
        | inr other ↦ inl (ground arith, ground arith)
      ]
    ]

next_transitions-IsJournaled :
    (job : Job) (status : Option Status)
    → IsJournaled job
    → last (next_transitions job status) ≡ some (next_status job status)
next_transitions-IsJournaled job none h = h
next_transitions-IsJournaled job (some status) h = elim (Bool-cases (status_eq status job.status)) [
  | inl same ↦ rw (same, h) (ap some (status_eq_sound job.status status same))
  | inr other ↦ rw other (last-append job.transitions status)
]

-- A transition with this patch gives the lease to no job that did not hold it.
abbrev pub EntersNoLease : List Status → Patch → Type 0
EntersNoLease expected patch =
    (job : Job)
    → status_in expected job.status ≡ true
    → is_leased (next_status job patch.status) ≡ true
    → is_leased job.status ≡ true

lease_of-le :
    (old new : Job)
    → (is_leased new.status ≡ true → is_leased old.status ≡ true)
    → lease_of new ≤ lease_of old
lease_of-le old new h = elim (Bool-cases (is_leased new.status)) [
  | inl leased ↦ rw (leased, h leased) (omega arith)
  | inr free ↦ rw free (omega arith)
]

-- A transition that gives no lease keeps the store valid.
pub transition-IsValid :
    (id : Text) (expected : List Status) (patch : Patch) (now : Text) (store : Store)
    (result : Option Job) (store' : Store)
    → EntersNoLease expected patch
    → IsValid store
    → transition id expected patch now store ≡ ok (result, store')
    → IsValid store'
transition-IsValid id expected patch now store result store' enters v e =
    elim (transition_cases id expected patch now store result store' e) [
      | inl (_, same) ↦ rw same v
      | inr (job, receipt, expects, _, _, w) ↦
          Writes-IsValid id job (patched job patch receipt now) store store' w refl
            (next_transitions-IsJournaled job patch.status
              (Each-get IsJournaled store.jobs id job v.journaled w.found))
            (omega (
              arith,
              v.lease,
              lease_of-le job (patched job patch receipt now) (enters job expects),
            ))
            v
    ]

not_leased : (id : Text) (v : Job) → v.id ≢ id → is_other_lease id v ≡ false → lease_of v ≡ 0
not_leased id v apart h = elim (Bool-cases (is_leased v.status)) [
  | inl leased ↦ absurd (apart ((text_eq_iff v.id id).0 (ground arith)))
  | inr free ↦ rw free
]

-- Jobs stored under other keys than `id`, none of them another lease: nobody is leased.
no_lease_apart :
    (m : Map Job) (id : Text)
    → IsKeyed (identities m)
    → All (λ i. id ≢ i.key) (identities m)
    → any (is_other_lease id) (values m) ≡ false
    → leases m ≡ 0
no_lease_apart [] id k a h = refl
no_lease_apart ((j, v) ∷ m) id (k, ks) (a, as_) h = omega (
  arith,
  not_leased id v (λ e. a (sym (k ∙ e))) (ground arith),
  no_lease_apart m id ks as_ (ground arith),
)

All-Apart : (i : Identity) (is : List Identity) → All (Apart i) is → All (λ j. i.key ≢ j.key) is
All-Apart i [] h = tt
All-Apart i (j ∷ is) (p, h) = (p.0, All-Apart i is h)

-- No other job is leased, and the one under `id` is only validated: nobody is leased.
no_lease :
    (m : Map Job) (id : Text) (job : Job)
    → IsKeyed (identities m)
    → Distinct (identities m)
    → get m id ≡ some job
    → job.status ≡ validated
    → any (is_other_lease id) (values m) ≡ false
    → leases m ≡ 0
unfolding get
no_lease [] id job k d e s h = refl
no_lease ((j, v) ∷ m) id job (k, ks) (d, ds) e s h = elim (Bool-cases (text_eq j id)) [
  | inl hit ↦
      let here : j ≡ id = (text_eq_iff j id).0 hit in
      let same : v ≡ job = some-injective v job (rw hit at e) in
      let free : lease_of v ≡ 0 = rw (same, s) in
      let apart =
        subst (λ t. All (λ i. t ≢ i.key) (identities m)) here
          (All-Apart (identity j v) (identities m) d) in
      omega (arith, free, no_lease_apart m id ks apart (ground arith))
  | inr miss ↦
      let apart : v.id ≢ id = λ t. false≢true (sym miss ∙ (text_eq_iff j id).1 (k ∙ t)) in
      omega (
        arith,
        not_leased id v apart (ground arith),
        no_lease m id job ks ds (rw miss at e) s (ground arith),
      )
]

abbrev pub Reserved : Text → Text → Text → Store → Option Job → Store → Type 0
Reserved id reservation_id now store result store' =
    ((result ≡ none) × (store' ≡ store))
    ⊎ ((job : Job) × (job.status ≡ validated)
        × (any (is_other_lease id) (values store.jobs) ≡ false)
        × (result ≡ some (reserved_job job reservation_id now))
        × Writes id job (reserved_job job reservation_id now) store store')

pub reserve_dust_cases :
    (id reservation_id now : Text) (store : Store)
    → Reserved id reservation_id now store
        (reserve_dust id reservation_id now store).0
        (reserve_dust id reservation_id now store).1
unfolding reserve_dust
reserve_dust_cases id reservation_id now store = elim (Option-cases (get store.jobs id)) [
  | inl missing ↦ inl (ground arith, ground arith)
  | inr (job, found) ↦
      elim (Bool-cases
        (not (status_eq job.status validated) || any (is_other_lease id) (values store.jobs))) [
          | inl busy ↦ inl (ground arith, ground arith)
          | inr free ↦ inr (
            job,
            ground arith,
            ground arith,
            ground arith,
            record { found = found; jobs = ground arith; capabilities = ground arith },
          )
        ]
]

-- A reservation that succeeds is the only lease: the store stays valid.
pub reserve_dust-IsValid :
    (id reservation_id now : Text) (store : Store)
    → IsValid store
    → IsValid (reserve_dust id reservation_id now store).1
reserve_dust-IsValid id reservation_id now store v =
    elim (reserve_dust_cases id reservation_id now store) [
      | inl (_, same) ↦ rw same v
      | inr (job, ready, alone, _, w) ↦
          Writes-IsValid id job (reserved_job job reservation_id now) store _ w refl
            (last-append job.transitions Status.dust_reserved)
            (omega (arith, no_lease store.jobs id job v.keyed v.distinct w.found ready alone)) v
    ]
