-- ===== src/Relayer/Store/Create.antt =====
-- createOrGet: one job for a request, and the same answer on every retry.
use mathlib.Core.Option.{some-injective}
use mathlib.Core.Bool.{false≢true}
use midnight_referendum_app.Base.{
  ◌≡◌, refl, ◌≢◌, ◌⊎◌, Bool, true, false, Option, none, some, List, [], ◌∷◌, arith, All, All-append,
  find, ap, sym, ◌∙◌, subst, Bool-cases, Option-cases, inl, inr, or_else,
}
use midnight_referendum_app.Base.Text.{Text, text_eq, text_eq_iff, text_eq_refl}
use midnight_referendum_app.Base.Maps.{Map, get, set, values, get-set}
use midnight_referendum_app.Relayer.Types.{Job, NewJob}
use midnight_referendum_app.Relayer.Store.{
  Store, ok, conflict, new_job, create_or_get, existing_job, is_same_request, requires_hold,
}
use midnight_referendum_app.Relayer.Store.Keys.{
  Identity, identity, identities, Apart, Distinct, IsKeyed, identities-set_new, Distinct-append,
  Each-set, leases-set_new, keyed_id,
}
use midnight_referendum_app.Relayer.Store.Invariant.{IsValid, IsJournaled}

-- What a call that did not throw returned.
abbrev pub Created : NewJob → Store → Job → Bool → Store → Type 0
Created input store job created store' =
    ((created ≡ false)
      × (store' ≡ store)
      × (existing_job input store.jobs ≡ some job)
      × (job.request_hash ≡ input.request_hash))
    ⊎ ((created ≡ true)
        × (existing_job input store.jobs ≡ none)
        × (job ≡ new_job input)
        × (store'.jobs ≡ set store.jobs input.id (new_job input))
        × (store'.capabilities ≡ store.capabilities))

pub create_or_get_cases :
    (input : NewJob) (store : Store) (job : Job) (created : Bool) (store' : Store)
    → create_or_get input store ≡ ok ((job, created), store')
    → Created input store job created store'
unfolding create_or_get
create_or_get_cases input store job created store' e =
    elim (Option-cases (existing_job input store.jobs)) [
      | inl fresh ↦ elim (Bool-cases (requires_hold input)) [
        | inl good ↦ inr (ground arith, fresh, ground arith, ground arith, ground arith)
        | inr bad ↦ absurd (ground arith)
      ]
      | inr (old, found) ↦ elim (Bool-cases (text_eq old.request_hash input.request_hash)) [
        | inl same ↦ inl (
          ground arith,
          ground arith,
          ground arith,
          ground (arith, text_eq_iff old.request_hash input.request_hash),
        )
        | inr other ↦ absurd (ground arith)
      ]
    ]

pub or_else-none {ℓ} : {A : Type ℓ} (o d : Option A) → or_else o d ≡ none → (o ≡ none) × (d ≡ none)
or_else-none none d e = (refl, e)
or_else-none (some a) d e = cc

-- A request that finds no job is apart from every stored one.
fresh-Apart :
    (m : Map Job) (input : NewJob)
    → get m input.id ≡ none
    → find (is_same_request input) (values m) ≡ none
    → All (λ i. Apart i (identity input.id (new_job input))) (identities m)
unfolding get
fresh-Apart [] input g f = tt
fresh-Apart ((j, v) ∷ m) input g f = elim (Bool-cases (text_eq j input.id)) [
  | inl hit ↦ absurd (ground arith)
  | inr miss ↦ elim (Bool-cases (is_same_request input v)) [
    | inl same ↦ absurd (ground arith)
    | inr other ↦ (
      (
        λ e. false≢true (sym miss ∙ (text_eq_iff j input.id).1 e),
        λ e. false≢true (ground (arith, (text_eq_iff v.idempotency_key input.idempotency_key).1 e)),
        λ e. false≢true (ground (arith, (text_eq_iff v.request_hash input.request_hash).1 e)),
      ),
      fresh-Apart m input (rw miss at g) (ground arith),
    )
  ]
]

-- The store stays valid whatever is asked for.
pub create_or_get-IsValid :
    (input : NewJob) (store : Store) (job : Job) (created : Bool) (store' : Store)
    → IsValid store
    → create_or_get input store ≡ ok ((job, created), store')
    → IsValid store'
create_or_get-IsValid input store job created store' v e =
    elim (create_or_get_cases input store job created store' e) [
      | inl (_, same, _, _) ↦ rw same v
      | inr (_, none_found, _, jobs, _) ↦
          let (g, f) = or_else-none _ _ none_found in
          let added = identities-set_new store.jobs input.id (new_job input) g in
          record {
            keyed = rw (jobs, added) (All-append _ (identities store.jobs) _ v.keyed (refl, tt));
            distinct =
                rw (jobs, added)
                  (Distinct-append (identities store.jobs) _ v.distinct
                    (fresh-Apart store.jobs input g f));
            journaled = rw jobs (Each-set IsJournaled store.jobs input.id _ v.journaled refl);
            lease =
                rw jobs
                  (omega (arith, v.lease, leases-set_new store.jobs input.id (new_job input) g));
          }
    ]

create_found :
    (input : NewJob) (store : Store) (job : Job)
    → existing_job input store.jobs ≡ some job
    → job.request_hash ≡ input.request_hash
    → create_or_get input store ≡ ok ((job, false), store)
unfolding create_or_get
create_found input store job found hash = rw (found, hash, text_eq_refl)

create_conflict :
    (input : NewJob) (store : Store) (job : Job)
    → existing_job input store.jobs ≡ some job
    → job.request_hash ≢ input.request_hash
    → create_or_get input store ≡ conflict
unfolding create_or_get
create_conflict input store job found apart =
    elim (Bool-cases (text_eq job.request_hash input.request_hash)) [
      | inl hit ↦ absurd (apart ((text_eq_iff job.request_hash input.request_hash).0 hit))
      | inr other ↦ rw (found, other)
    ]

existing_of_get :
    (input : NewJob) (jobs : Map Job) (job : Job)
    → get jobs input.id ≡ some job
    → existing_job input jobs ≡ some job
existing_of_get input jobs job e = rw e

get-set_self : (m : Map Job) (k : Text) (job : Job) → get (set m k job) k ≡ some job
get-set_self m k job = rw (get-set m k k job, text_eq_refl)

-- What a successful call returned stands in the store, found by the same request.
pub create_or_get_stored :
    (input : NewJob) (store : Store) (job : Job) (created : Bool) (store' : Store)
    → create_or_get input store ≡ ok ((job, created), store')
    → (existing_job input store'.jobs ≡ some job) × (job.request_hash ≡ input.request_hash)
create_or_get_stored input store job created store' e =
    elim (create_or_get_cases input store job created store' e) [
      | inl (_, same, found, hash) ↦ (rw same found, hash)
      | inr (_, _, new, jobs, _) ↦ (
        existing_of_get input store'.jobs job
            (rw (jobs, new) (get-set_self store.jobs input.id (new_job input))),
        rw new,
      )
    ]

-- A retry of a request that succeeded returns the same job, as not created, and changes nothing.
pub create_or_get_again :
    (input : NewJob) (store : Store) (job : Job) (created : Bool) (store' : Store)
    → create_or_get input store ≡ ok ((job, created), store')
    → create_or_get input store' ≡ ok ((job, false), store')
create_or_get_again input store job created store' e =
    let (found, hash) = create_or_get_stored input store job created store' e in
    create_found input store' job found hash

All-find :
    (p : Job → Bool) (P : Identity → Type 0) (m : Map Job) (job : Job)
    → All P (identities m)
    → find p (values m) ≡ some job
    → (k : Text) × P (identity k job)
All-find p P [] job h e = cc
All-find p P ((j, v) ∷ m) job (here, h) e = elim (Bool-cases (p v)) [
  | inl hit ↦ (j, subst (λ (w : Job). P (identity j w)) (some-injective v job (rw hit at e)) here)
  | inr miss ↦ All-find p P m job h (rw miss at e)
]

All-both :
    (i : Identity) (is : List Identity)
    → All (Apart i) is
    → IsKeyed is
    → All (λ x. (i.key ≢ x.key) × (x.key ≡ x.id)) is
All-both i [] a k = tt
All-both i (x ∷ is) (a, as_) (k, ks) = ((a.0, k), All-both i is as_ ks)

-- A job that a search finds is the one stored under its id.
pub find-get :
    (p : Job → Bool) (m : Map Job) (job : Job)
    → IsKeyed (identities m)
    → Distinct (identities m)
    → find p (values m) ≡ some job
    → get m job.id ≡ some job
unfolding get
find-get p [] job k d e = cc
find-get p ((j, v) ∷ m) job (k, ks) (d, ds) e = elim (Bool-cases (p v)) [
  | inl hit ↦
      let same : v ≡ job = some-injective v job (rw hit at e) in
      rw ((text_eq_iff j job.id).1 (k ∙ ap (λ (w : Job). w.id) same), same)
  | inr miss ↦
      let rest : find p (values m) ≡ some job = rw miss at e in
      let (k', (apart, keyed)) =
        All-find p (λ x. (j ≢ x.key) × (x.key ≡ x.id)) m job
          (All-both (identity j v) (identities m) d ks) rest in
      let differs : text_eq j job.id ≡ false = elim (Bool-cases (text_eq j job.id)) [
        | inl hit ↦ absurd (apart ((text_eq_iff j job.id).0 hit ∙ sym keyed))
        | inr other ↦ other
      ] in
      rw differs (find-get p m job ks ds rest)
]

-- The job that a request is answered with is stored under its own id.
pub existing_get :
    (input : NewJob) (store : Store) (job : Job)
    → IsValid store
    → existing_job input store.jobs ≡ some job
    → get store.jobs job.id ≡ some job
existing_get input store job v e = elim (Option-cases (get store.jobs input.id)) [
  | inl missing ↦
      find-get (is_same_request input) store.jobs job v.keyed v.distinct (rw missing at e)
  | inr (old, found) ↦
      let same : old ≡ job = some-injective old job (rw found at e) in
      let stored : get store.jobs input.id ≡ some job = found ∙ ap some same in
      subst (λ k. get store.jobs k ≡ some job)
        (sym (keyed_id store.jobs input.id job v.keyed stored)) stored
]

-- Once a request has its job, another request under that job's id conflicts, and cannot take the
-- job over.
pub reused_id_conflicts :
    (input other : NewJob) (store : Store) (job : Job) (created : Bool) (store' : Store)
    → IsValid store
    → create_or_get input store ≡ ok ((job, created), store')
    → other.id ≡ job.id
    → other.request_hash ≢ input.request_hash
    → create_or_get other store' ≡ conflict
reused_id_conflicts input other store job created store' v e same apart =
    let (found, hash) = create_or_get_stored input store job created store' e in
    let valid = create_or_get-IsValid input store job created store' v e in
    let stored = existing_get input store' job valid found in
    create_conflict other store' job (existing_of_get other store'.jobs job (rw same stored))
      (λ h. apart (sym h ∙ hash))
