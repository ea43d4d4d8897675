-- ===== src/Relayer/Service/Steps.antt =====
-- What each event of a process does to the store and to the submissions.
use midnight_referendum_app.Base.{
  ◌≡◌, refl, Option, none, some, List, [], ◌∷◌, arith, subst, ap, ◌∙◌,
}
use midnight_referendum_app.Base.Text.{Text}
use midnight_referendum_app.Relayer.Service.State.{
  Service, Wallet, idle, Answers, Call, Timer, reconcile_later, run_later,
}
use midnight_referendum_app.Relayer.Service.Events.{
  Event, request, ask, begin, wallet, call, fire, restart, take_at, begin_wallet, proceed, fired,
  step,
}
use midnight_referendum_app.Relayer.Service.Effects.{
  StoreStep, stays, ServiceStep, quiet, submits, Keeps, Keeps-ServiceStep,
}
use midnight_referendum_app.Relayer.Service.Stages.{wallet-ServiceStep}
use midnight_referendum_app.Relayer.Service.Replies.{call-ServiceStep}

-- Neither what is in flight nor what is scheduled matters to a step's effect.
shift :
    (s t u : Service)
    → s.store ≡ t.store
    → s.submissions ≡ t.submissions
    → ServiceStep s u
    → ServiceStep t u
shift s t u e f (quiet st g) = quiet (subst (λ x. StoreStep x u.store) e st) (g ∙ f)
shift s t u e f (submits id now job g h) =
    submits id now job (rw (← e) g) (h ∙ ap (λ (x : List Text). id ∷ x) f)

proceed-step :
    (a : Answers) (s : Service) (c : Option (Call × List Call)) → ServiceStep s (proceed a s c)
unfolding proceed
proceed-step a s none = quiet stays refl
proceed-step a s (some (c, calls)) =
    shift (record s { calls = calls }) s _ refl refl
      (call-ServiceStep a (record s { calls = calls }) c)

fired-Keeps : (s : Service) (t : Option (Timer × List Timer)) → Keeps s (fired s t)
unfolding fired
fired-Keeps s none = ground arith
fired-Keeps s (some (reconcile_later id, timers)) = ground arith
fired-Keeps s (some (run_later id, timers)) = ground arith

begin_wallet-Keeps :
    (s : Service) (w : Wallet) (queue : List Text) → Keeps s (begin_wallet s w queue)
unfolding begin_wallet
begin_wallet-Keeps s idle [] = ground arith
begin_wallet-Keeps s idle (id ∷ queue) = ground arith
begin_wallet-Keeps s _ queue = ground arith

-- Every event of a process is such a step.
pub step-ServiceStep :
    (transaction_id : Text → Option Text) (e : Event) (s : Service)
    → ServiceStep s (step transaction_id e s)
unfolding step
step-ServiceStep transaction_id (request a) s = quiet stays refl
step-ServiceStep transaction_id (ask asker id) s = quiet stays refl
step-ServiceStep transaction_id begin s =
    Keeps-ServiceStep s _ (begin_wallet-Keeps s s.wallet s.queue)
step-ServiceStep transaction_id (wallet a) s = wallet-ServiceStep transaction_id a s s.wallet
step-ServiceStep transaction_id (call n a) s = proceed-step a s (take_at n s.calls)
step-ServiceStep transaction_id (fire n) s =
    Keeps-ServiceStep s _ (fired-Keeps s (take_at n s.timers))
step-ServiceStep transaction_id restart s = quiet stays refl
