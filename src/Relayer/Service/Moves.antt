-- ===== src/Relayer/Service/Moves.antt =====
-- The transitions that the service asks of the store, and what they have in common.
use midnight_referendum_app.Base.{◌≡◌, refl, Option, List, [], ◌∷◌, arith, is_some}
use midnight_referendum_app.Base.Text.{Text}
use midnight_referendum_app.Base.Json.{Value}
use midnight_referendum_app.Relayer.Types.{
  Status, authorized, validated, dust_reserved, finalized, submitted, confirmed, ErrorCode,
  transaction_rejected, capability_replayed, Patch, Job, status_eq,
}
use midnight_referendum_app.Relayer.Store.{next_status}
use midnight_referendum_app.Relayer.Store.Invariant.{EntersNoLease}
use midnight_referendum_app.Relayer.Store.Advance.{IsForward}
use midnight_referendum_app.Relayer.Service.State.{Settlement, pending_with, unknown, mismatched}
use midnight_referendum_app.Relayer.Service.Wallet.{
  set_status, fail_with, finalized_patch, settlement_patch,
}
use midnight_referendum_app.Relayer.Service.Calls.{
  confirmed_patch, recovery_patch, awaiting_indexer, before_submission,
}

pub data Move : List Status → Patch → Type 0 where
  validate : Move (authorized ∷ []) (set_status validated)
  reject : Move (dust_reserved ∷ []) (fail_with transaction_rejected)
  finalize : (derived : Option Text) → Move (dust_reserved ∷ []) (finalized_patch derived)
  claim : Move (finalized ∷ []) (set_status submitted)
  conclude : (outcome : Settlement) → Move (submitted ∷ []) (settlement_patch outcome)
  replay : Move (authorized ∷ []) (fail_with capability_replayed)
  confirm : (v : Value) → Move awaiting_indexer (confirmed_patch v)
  refuse : (code : ErrorCode) → Move awaiting_indexer (fail_with code)
  recover : Move before_submission recovery_patch

pub Move-IsForward :
    {expected : List Status} {patch : Patch} → Move expected patch → IsForward expected patch
Move-IsForward validate job h = ground arith
Move-IsForward reject job h = ground arith
Move-IsForward (finalize derived) job h = ground arith
Move-IsForward claim job h = ground arith
Move-IsForward (conclude (pending_with id)) job h = ground arith
Move-IsForward (conclude unknown) job h = ground arith
Move-IsForward (conclude mismatched) job h = ground arith
Move-IsForward replay job h = ground arith
Move-IsForward (confirm v) job h = ground arith
Move-IsForward (refuse code) job h = ground arith
Move-IsForward recover job h = ground arith

pub Move-EntersNoLease :
    {expected : List Status} {patch : Patch} → Move expected patch → EntersNoLease expected patch
Move-EntersNoLease validate job h = ground arith
Move-EntersNoLease reject job h = ground arith
Move-EntersNoLease (finalize derived) job h = ground arith
Move-EntersNoLease claim job h = ground arith
Move-EntersNoLease (conclude (pending_with id)) job h = ground arith
Move-EntersNoLease (conclude unknown) job h = ground arith
Move-EntersNoLease (conclude mismatched) job h = ground arith
Move-EntersNoLease replay job h = ground arith
Move-EntersNoLease (confirm v) job h = ground arith
Move-EntersNoLease (refuse code) job h = ground arith
Move-EntersNoLease recover job h = ground arith

-- A receipt comes with the confirmation, and only with it.
abbrev pub ConfirmsWithReceipt : Patch → Type 0
ConfirmsWithReceipt patch =
    (job : Job) → is_some patch.receipt ≡ status_eq (next_status job patch.status) confirmed

pub Move-ConfirmsWithReceipt :
    {expected : List Status} {patch : Patch} → Move expected patch → ConfirmsWithReceipt patch
Move-ConfirmsWithReceipt validate job = refl
Move-ConfirmsWithReceipt reject job = refl
Move-ConfirmsWithReceipt (finalize derived) job = refl
Move-ConfirmsWithReceipt claim job = refl
Move-ConfirmsWithReceipt (conclude (pending_with id)) job = refl
Move-ConfirmsWithReceipt (conclude unknown) job = refl
Move-ConfirmsWithReceipt (conclude mismatched) job = refl
Move-ConfirmsWithReceipt replay job = refl
Move-ConfirmsWithReceipt (confirm v) job = refl
Move-ConfirmsWithReceipt (refuse code) job = refl
Move-ConfirmsWithReceipt recover job = refl
