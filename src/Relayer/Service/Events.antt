-- ===== src/Relayer/Service/Events.antt =====
-- The events of a process: a run of the service is a list of them, in any order.
use midnight_referendum_app.Base.{ℕ, zero, suc, Option, none, some, List, [], ◌∷◌, if◌then◌else◌}
use midnight_referendum_app.Base.Text.{Text, includes}
use midnight_referendum_app.Relayer.Store.{list_recoverable}
use midnight_referendum_app.Relayer.Service.State.{
  Service, Wallet, idle, loading, Answers, Admission, Call, creating, reading, reconciling,
  starting, Asker, timer, Timer, reconcile_later, run_later, run, await_call, empty_service,
}
use midnight_referendum_app.Relayer.Service.Wallet.{wallet_step}
use midnight_referendum_app.Relayer.Service.Calls.{call_step}

-- A restart loses all memory and begins with `start()`; the store and the submissions stay.
pub data Event : Type 0 where
  request : Admission → Event
  ask : Asker → Text → Event
  begin : Event
  wallet : Answers → Event
  call : ℕ → Answers → Event
  fire : ℕ → Event
  restart : Event

abbrev pub take_at {ℓ} : {A : Type ℓ} → ℕ → List A → Option (A × List A)
take_at n [] = none
take_at zero (x ∷ xs) = some (x, xs)
take_at (suc n) (x ∷ xs) = elim (take_at n xs) [ none ↦ none | some (y, ys) ↦ some (y, x ∷ ys) ]

-- The head of the wallet queue runs once the stage before it has ended.
unfoldable pub begin_wallet : Service → Wallet → List Text → Service
begin_wallet s idle (id ∷ queue) = record s { wallet = loading id; queue = queue }
begin_wallet s w queue = s

unfoldable pub proceed : Answers → Service → Option (Call × List Call) → Service
proceed a s none = s
proceed a s (some (c, calls)) = call_step a (record s { calls = calls }) c

unfoldable pub fired : Service → Option (Timer × List Timer) → Service
unfolding run
fired s none = s
fired s (some (reconcile_later id, timers)) =
    await_call (reconciling timer id) (record s { timers = timers })
fired s (some (run_later id, timers)) =
    let s' = record s { timers = timers } in if includes s.running id then s' else run id s'

unfoldable pub restarted : Service → Service
unfolding list_recoverable
restarted s = record empty_service {
  store = s.store;
  calls = starting (list_recoverable s.store) ∷ [];
  submissions = s.submissions;
  replies = s.replies;
}

module _ (transaction_id : Text → Option Text) where
  unfoldable pub step : Event → Service → Service
  unfolding begin_wallet proceed fired restarted
  step (request a) s = await_call (creating a) s
  step (ask asker id) s = await_call (reading asker id) s
  step begin s = begin_wallet s s.wallet s.queue
  step (wallet a) s = wallet_step transaction_id a s s.wallet
  step (call n a) s = proceed a s (take_at n s.calls)
  step (fire n) s = fired s (take_at n s.timers)
  step restart s = restarted s

  unfoldable pub run_events : List Event → Service → Service
  run_events [] s = s
  run_events (e ∷ es) s = run_events es (step e s)
