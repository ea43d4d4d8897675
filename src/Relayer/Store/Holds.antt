-- ===== src/Relayer/Store/Holds.antt =====
-- The operations that leave a validated job as it is.
use mathlib.Core.Option.{some-injective}
use mathlib.Core.Bool.{false≢true}
use midnight_referendum_app.Base.{
  ◌≡◌, sym, ap, ◌∙◌, subst, ◌≢◌, Bool, true, false, Option, some, List, arith, Bool-cases, inl, inr,
}
use midnight_referendum_app.Base.Text.{Text, text_eq, text_eq_iff}
use midnight_referendum_app.Base.Maps.{get, get-set}
use midnight_referendum_app.Relayer.Types.{Status, validated, Job, NewJob, Patch}
use midnight_referendum_app.Relayer.Store.{
  Store, ok, transition, status_in, patched, reserve_dust, reserved_job, create_or_get,
}
use midnight_referendum_app.Relayer.Store.Invariant.{Writes, transition_cases, reserve_dust_cases}
use midnight_referendum_app.Relayer.Store.Advance.{create_or_get-kept}

-- What leaves a validated job `id` as it is.
abbrev pub Holds : Text → Store → Store → Type 0
Holds id s t =
    (job : Job) → get s.jobs id ≡ some job → job.status ≡ validated → get t.jobs id ≡ some job

Writes-Holds :
    (id i : Text) (old new : Job) (s t : Store)
    → Writes i old new s t
    → (text_eq i id ≡ true → old.status ≢ validated)
    → Holds id s t
Writes-Holds id i old new s t w apart job e ready = elim (Bool-cases (text_eq i id)) [
  | inl hit ↦
      let here : i ≡ id = (text_eq_iff i id).0 hit in
      let same : old ≡ job = some-injective old job (sym w.found ∙ rw here e) in
      absurd (apart hit (ap (λ (j : Job). j.status) same ∙ ready))
  | inr miss ↦ rw (w.jobs, get-set s.jobs i id new, miss) e
]

pub transition-Holds :
    (id i : Text) (expected : List Status) (patch : Patch) (now : Text) (s : Store)
    (result : Option Job) (t : Store)
    → status_in expected validated ≡ false
    → transition i expected patch now s ≡ ok (result, t)
    → Holds id s t
transition-Holds id i expected patch now s result t other e =
    elim (transition_cases i expected patch now s result t e) [
      | inl (_, same) ↦ λ job found ready. rw same found
      | inr (old, clean, expects, _, _, w) ↦
          Writes-Holds id i old (patched old patch clean now) s t w λ _ ready.
            false≢true (sym other ∙ subst (λ x. status_in expected x ≡ true) ready expects)
    ]

-- A transition that succeeds found no validated job.
pub transition-apart :
    (id i : Text) (expected : List Status) (patch : Patch) (now : Text) (s : Store) (new job : Job)
    (t : Store)
    → status_in expected validated ≡ false
    → transition i expected patch now s ≡ ok (some new, t)
    → get s.jobs id ≡ some job
    → job.status ≡ validated
    → text_eq i id ≡ false
transition-apart id i expected patch now s new job t other e found ready =
    elim (transition_cases i expected patch now s (some new) t e) [
      | inl (missed, _) ↦ absurd (ground arith)
      | inr (old, clean, expects, _, _, w) ↦ elim (Bool-cases (text_eq i id)) [
        | inl hit ↦
            let here : i ≡ id = (text_eq_iff i id).0 hit in
            let same : old ≡ job = some-injective old job (sym w.found ∙ rw here found) in
            let waits : old.status ≡ validated = ap (λ (j : Job). j.status) same ∙ ready in
            absurd (false≢true (sym other ∙ subst (λ x. status_in expected x ≡ true) waits expects))
        | inr miss ↦ miss
      ]
    ]

pub reserve_dust-Holds :
    (id i reservation_id now : Text) (s : Store)
    → text_eq i id ≡ false
    → Holds id s (reserve_dust i reservation_id now s).1
reserve_dust-Holds id i reservation_id now s apart =
    elim (reserve_dust_cases i reservation_id now s) [
      | inl (_, same) ↦ λ job found ready. rw same found
      | inr (old, _, _, _, w) ↦
          Writes-Holds id i old (reserved_job old reservation_id now) s _ w
            λ hit. absurd (false≢true (sym apart ∙ hit))
    ]

pub create_or_get-Holds :
    (id : Text) (input : NewJob) (s : Store) (new : Job) (fresh : Bool) (t : Store)
    → create_or_get input s ≡ ok ((new, fresh), t)
    → Holds id s t
create_or_get-Holds id input s new fresh t e =
    λ job found _. create_or_get-kept input s new fresh t id job e found
