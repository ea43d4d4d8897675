-- ===== src/Relayer/Service/Effects.antt =====
-- What one step of the service can do to the store and to the submissions.
use midnight_referendum_app.Base.{◌≡◌, refl, Bool, Option, none, some, List, [], ◌∷◌, ◌∙◌}
use midnight_referendum_app.Base.Text.{Text}
use midnight_referendum_app.Relayer.Types.{
  Status, finalized, submitted, Job, NewJob, Patch, Reservation,
}
use midnight_referendum_app.Relayer.Store.{
  Store, Result, ok, conflict, invalid, create_or_get, reserve_dust, consume_capability, transition,
}
use midnight_referendum_app.Relayer.Service.State.{Service, submitting}
use midnight_referendum_app.Relayer.Service.Wallet.{moved, moved_on, set_status}
use midnight_referendum_app.Relayer.Service.Calls.{after_transition}
use midnight_referendum_app.Relayer.Service.Moves.{Move, claim}

pub data StoreStep (s : Store) : Store → Type 0 where
  stays : StoreStep s s
  creates :
      (input : NewJob) (job : Job) (fresh : Bool) {t : Store}
      → create_or_get input s ≡ ok ((job, fresh), t)
      → StoreStep s t
  reserves : (id reservation_id now : Text) → StoreStep s (reserve_dust id reservation_id now s).1
  consumes : (r : Reservation) → StoreStep s (consume_capability r s).1
  moves :
      {expected : List Status} {patch : Patch}
      → Move expected patch
      → (id now : Text) (result : Option Job) {t : Store}
      → transition id expected patch now s ≡ ok (result, t)
      → StoreStep s t

-- One step either leaves the submissions alone, or follows the transition that claims one.
pub data ServiceStep (s t : Service) : Type 0 where
  quiet : StoreStep s.store t.store → t.submissions ≡ s.submissions → ServiceStep s t
  submits :
      (id now : Text) (job : Job)
      → transition id (finalized ∷ []) (set_status submitted) now s.store ≡ ok (some job, t.store)
      → t.submissions ≡ id ∷ s.submissions
      → ServiceStep s t

-- Code that touches neither the store nor the submissions.
pub record Keeps (s t : Service) : Type 0 where
  pub store : t.store ≡ s.store
  pub submissions : t.submissions ≡ s.submissions

pub quiet_if :
    (s t u : Service)
    → StoreStep s.store t.store
    → t.submissions ≡ s.submissions
    → Keeps t u
    → ServiceStep s u
quiet_if s t u st e k = quiet (rw k.store st) (k.submissions ∙ e)

pub Keeps-ServiceStep : (s t : Service) → Keeps s t → ServiceStep s t
Keeps-ServiceStep s t k = quiet (rw k.store stays) k.submissions

module _ {expected : List Status} {patch : Patch} (m : Move expected patch) (id now : Text)
    (s : Service) where
  pub moved-quiet :
      (r : Result (Option Job × Store)) (next : Service → Service)
      → transition id expected patch now s.store ≡ r
      → ((u : Service) → Keeps u (next u))
      → ServiceStep s (moved id s r next)
  unfolding moved
  moved-quiet (ok (none, t)) next e k = quiet (moves m id now none e) refl
  moved-quiet (ok (some job, t)) next e k =
      quiet_if s (record s { store = t }) _ (moves m id now (some job) e) refl (k _)
  moved-quiet conflict next e k = quiet stays refl
  moved-quiet invalid next e k = quiet stays refl

  pub moved_on-quiet :
      (r : Result (Option Job × Store)) (next : Service → Service)
      → transition id expected patch now s.store ≡ r
      → ((u : Service) → Keeps u (next u))
      → ServiceStep s (moved_on id s r next)
  unfolding moved_on
  moved_on-quiet (ok (result, t)) next e k =
      quiet_if s (record s { store = t }) _ (moves m id now result e) refl (k _)
  moved_on-quiet conflict next e k = quiet stays refl
  moved_on-quiet invalid next e k = quiet stays refl

  pub after_transition-quiet :
      (r : Result (Option Job × Store)) (next thrown_by : Service → Service)
      → transition id expected patch now s.store ≡ r
      → ((u : Service) → Keeps u (next u))
      → ((u : Service) → Keeps u (thrown_by u))
      → ServiceStep s (after_transition s r next thrown_by)
  unfolding after_transition
  after_transition-quiet (ok (result, t)) next thrown_by e k l =
      quiet_if s (record s { store = t }) _ (moves m id now result e) refl (k _)
  after_transition-quiet conflict next thrown_by e k l = Keeps-ServiceStep s _ (l s)
  after_transition-quiet invalid next thrown_by e k l = Keeps-ServiceStep s _ (l s)

pub claimed :
    (id now tx : Text) (derived : Option Text) (s : Service) (r : Result (Option Job × Store))
    → transition id (finalized ∷ []) (set_status submitted) now s.store ≡ r
    → ServiceStep s (
        moved id s r (λ s'. record s' {
          wallet = submitting id tx derived;
          submissions = id ∷ s'.submissions;
        }))
unfolding moved
claimed id now tx derived s (ok (none, t)) e = quiet (moves claim id now none e) refl
claimed id now tx derived s (ok (some job, t)) e = submits id now job e refl
claimed id now tx derived s conflict e = quiet stays refl
claimed id now tx derived s invalid e = quiet stays refl
