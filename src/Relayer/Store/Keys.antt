-- ===== src/Relayer/Store/Keys.antt =====
-- Maps of jobs: what a write keeps, and how the leased jobs are counted.
use midnight_referendum_app.Base.{
  ℕ, ◌+◌, ◌≡◌, refl, ◌≢◌, none, some, List, [], ◌∷◌, ◌++◌, arith, All, All-append, ap, subst,
  if◌then◌else◌, Bool-cases, inl, inr,
}
use mathlib.Core.Option.{some-injective}
use midnight_referendum_app.Base.Text.{Text, text_eq, text_eq_iff}
use midnight_referendum_app.Base.Maps.{Map, get, set}
use midnight_referendum_app.Relayer.Types.{Job}
use midnight_referendum_app.Relayer.Store.{is_leased}

-- By what a job is found: its key in the map, its own id, its idempotency key, its request hash.
pub record Identity : Type 0 where
  pub key : Text
  pub id : Text
  pub idempotency_key : Text
  pub request_hash : Text

abbrev pub identity : Text → Job → Identity
identity k job = record {
  key = k;
  id = job.id;
  idempotency_key = job.idempotency_key;
  request_hash = job.request_hash;
}

abbrev pub identities : Map Job → List Identity
identities [] = []
identities ((k, job) ∷ m) = identity k job ∷ identities m

abbrev pub Apart : Identity → Identity → Type 0
Apart i j =
    (i.key ≢ j.key) × (i.idempotency_key ≢ j.idempotency_key) × (i.request_hash ≢ j.request_hash)

abbrev pub Distinct : List Identity → Type 0
Distinct [] = Unit
Distinct (i ∷ is) = All (Apart i) is × Distinct is

abbrev pub IsKeyed : List Identity → Type 0
IsKeyed = All (λ i. i.key ≡ i.id)

-- The job that is stored under a key has that key's id.
pub keyed_id :
    (m : Map Job) (k : Text) (job : Job) → IsKeyed (identities m) → get m k ≡ some job → job.id ≡ k
unfolding get
keyed_id [] k job h e = cc
keyed_id ((j, v) ∷ m) k job h e = ground (arith, text_eq_iff j k, keyed_id m k job h.1)

pub identities-set_same :
    (m : Map Job) (k : Text) (old new : Job)
    → get m k ≡ some old
    → identity k new ≡ identity k old
    → identities (set m k new) ≡ identities m
unfolding get set
identities-set_same [] k old new e h = cc
identities-set_same ((j, v) ∷ m) k old new e h =
    ground (arith, text_eq_iff j k, identities-set_same m k old new)

pub identities-set_new :
    (m : Map Job) (k : Text) (new : Job)
    → get m k ≡ none
    → identities (set m k new) ≡ identities m ++ identity k new ∷ []
unfolding get set
identities-set_new [] k new e = refl
identities-set_new ((j, v) ∷ m) k new e = ground (arith, identities-set_new m k new)

pub Distinct-append :
    (is : List Identity) (i : Identity)
    → Distinct is
    → All (λ j. Apart j i) is
    → Distinct (is ++ i ∷ [])
Distinct-append [] i d h = (tt, tt)
Distinct-append (j ∷ is) i (a, d) (p, h) =
    (All-append (Apart j) is (i ∷ []) a (p, tt), Distinct-append is i d h)

-- What holds of every entry.
module _ (P : Job → Type 0) where
  abbrev pub Each : Map Job → Type 0
  Each [] = Unit
  Each ((k, job) ∷ m) = P job × Each m

  pub Each-set : (m : Map Job) (k : Text) (job : Job) → Each m → P job → Each (set m k job)
  unfolding set
  Each-set [] k job h p = (p, tt)
  Each-set ((j, v) ∷ m) k job h p = ground (arith, Each-set m k job h.1 p)

  pub Each-get : (m : Map Job) (k : Text) (job : Job) → Each m → get m k ≡ some job → P job
  unfolding get
  Each-get [] k job h e = cc
  Each-get ((j, v) ∷ m) k job h e = elim (Bool-cases (text_eq j k)) [
    | inl hit ↦ subst P (ground arith) h.0
    | inr miss ↦ Each-get m k job h.1 (ground arith)
  ]

abbrev pub lease_of : Job → ℕ
lease_of job = if is_leased job.status then 1 else 0

-- How many jobs hold the lease.
abbrev pub leases : Map Job → ℕ
leases [] = 0
leases ((k, job) ∷ m) = lease_of job + leases m

pub leases-set_same :
    (m : Map Job) (k : Text) (old new : Job)
    → get m k ≡ some old
    → leases (set m k new) + lease_of old ≡ leases m + lease_of new
unfolding get set
leases-set_same [] k old new e = cc
leases-set_same ((j, v) ∷ m) k old new e = elim (Bool-cases (text_eq j k)) [
  | inl hit ↦
      let same : v ≡ old = some-injective v old (rw (hit, get) at e) in
      rw hit (omega (arith, ap lease_of same))
  | inr miss ↦ rw miss (omega (arith, leases-set_same m k old new (rw miss at e)))
]

pub leases-set_new :
    (m : Map Job) (k : Text) (new : Job)
    → get m k ≡ none
    → leases (set m k new) ≡ leases m + lease_of new
unfolding get set
leases-set_new [] k new e = omega arith
leases-set_new ((j, v) ∷ m) k new e = elim (Bool-cases (text_eq j k)) [
  | inl hit ↦ absurd (ground arith)
  | inr miss ↦ rw miss (omega (arith, leases-set_new m k new (rw miss at e)))
]
