-- ===== src/Relayer/Service/Stages.antt =====
-- What a step of the wallet stage does to the store and to the submissions.
use midnight_referendum_app.Base.{◌≡◌, refl, Option, none, some, arith, subst, sym, ap}
use midnight_referendum_app.Base.Text.{Text}
use midnight_referendum_app.Base.Maps.{get}
use midnight_referendum_app.Relayer.Types.{Job}
use midnight_referendum_app.Relayer.Store.{Store, reserve_dust}
use midnight_referendum_app.Relayer.Service.State.{
  Service, Wallet, idle, loading, validating, reserving, balancing, rejecting, finalizing, claiming,
  submitting, settling, Settlement, pending_with, unknown, mismatched, Transient, Answers,
}
use midnight_referendum_app.Relayer.Service.Wallet.{
  wallet_step, loaded, reserved, balanced, settled,
}
use midnight_referendum_app.Relayer.Service.Moves.{validate, reject, finalize, conclude}
use midnight_referendum_app.Relayer.Service.Effects.{
  StoreStep, stays, reserves, ServiceStep, quiet, Keeps, Keeps-ServiceStep, moved-quiet,
  moved_on-quiet, claimed,
}

loaded-Keeps :
    (id : Text) (s : Service) (job : Option Job) (p : Option Transient)
    → Keeps s (loaded id s job p)
unfolding loaded
loaded-Keeps id s none p = ground arith
loaded-Keeps id s (some job) none = ground arith
loaded-Keeps id s (some job) (some p) = ground arith

reserved-step :
    (id reservation_id now : Text) (p : Transient) (s : Service) (r : Option Job × Store)
    → r ≡ reserve_dust id reservation_id now s.store
    → ServiceStep s (reserved id p s r)
unfolding reserved
reserved-step id reservation_id now p s (none, t) e =
    quiet
      (subst (StoreStep s.store) (ap (λ (q : Option Job × Store). q.1) (sym e))
        (reserves id reservation_id now))
      refl
reserved-step id reservation_id now p s (some job, t) e =
    quiet
      (subst (StoreStep s.store) (ap (λ (q : Option Job × Store). q.1) (sym e))
        (reserves id reservation_id now))
      refl

settled-Keeps : (id : Text) (outcome : Settlement) (u : Service) → Keeps u (settled id outcome u)
settled-Keeps id (pending_with tx) u = ground arith
settled-Keeps id unknown u = ground arith
settled-Keeps id mismatched u = ground arith

balanced-Keeps :
    (transaction_id : Text → Option Text) (id : Text) (p : Transient) (s : Service)
    (o : Option Text)
    → Keeps s (balanced transaction_id id p s o)
unfolding balanced
balanced-Keeps transaction_id id p s none = ground arith
balanced-Keeps transaction_id id p s (some tx) = ground arith

module _ (transaction_id : Text → Option Text) where
  pub wallet-ServiceStep :
      (a : Answers) (s : Service) (w : Wallet) → ServiceStep s (wallet_step transaction_id a s w)
  unfolding wallet_step
  wallet-ServiceStep a s idle = quiet stays refl
  wallet-ServiceStep a s (loading id) =
      Keeps-ServiceStep s _ (loaded-Keeps id s (get s.store.jobs id) (get s.transient id))
  wallet-ServiceStep a s (validating id p) =
      moved-quiet validate id a.now s _ _ refl λ u. record { store = refl; submissions = refl }
  wallet-ServiceStep a s (reserving id p) = reserved-step id _ a.now p s _ refl
  wallet-ServiceStep a s (balancing id p) =
      Keeps-ServiceStep s _ (balanced-Keeps transaction_id id p s a.balanced)
  wallet-ServiceStep a s (rejecting id) =
      moved_on-quiet reject id a.now s _ _ refl λ u. record { store = refl; submissions = refl }
  wallet-ServiceStep a s (finalizing id tx derived) =
      moved_on-quiet (finalize derived) id a.now s _ _ refl
        λ u. record { store = refl; submissions = refl }
  wallet-ServiceStep a s (claiming id tx derived) = claimed id a.now tx derived s _ refl
  wallet-ServiceStep a s (submitting id tx derived) = quiet stays refl
  wallet-ServiceStep a s (settling id outcome) =
      moved_on-quiet (conclude outcome) id a.now s _ _ refl (settled-Keeps id outcome)
