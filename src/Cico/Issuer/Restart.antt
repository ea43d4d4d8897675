-- ===== src/Cico/Issuer/Restart.antt =====
-- An issuance of cico-service/src/credential-issuer-service.ts after a restart of the service.
use midnight_referendum_app.Base.{
  ◌≡◌, refl, sym, subst, ◌∙◌, ap, true, none, some, [], inl, inr, arith,
}
use midnight_referendum_app.Base.Text.{Text, text_eq_refl, is_digest}
use midnight_referendum_app.Base.Maps.{Map, get, set}
use midnight_referendum_app.Cico.Program.{done, ◌>>=◌, or_throw, Holds}
use midnight_referendum_app.Cico.Stores.File.{returned, completes, run}
use midnight_referendum_app.Cico.Stores.File.Refines.{Stores}
use midnight_referendum_app.Cico.Stores.Keyed.{IsStored}
use midnight_referendum_app.Cico.Stores.Issuances.{
  IssuanceResult, IssuanceRecord, PersistedRecord, issuance_entry, issuance_codec, get_issuance,
}
use midnight_referendum_app.Cico.Stores.Issuances.Laws.{issuance_codec-IsCodec}
use midnight_referendum_app.Cico.Stores.Issuances.Replay.{IsIssued, get_issuance-put}
use midnight_referendum_app.Cico.Issuer.{
  Request, State, Answers, Issuer, request_fingerprint, issue_once, remembered, issue_credential,
}
use midnight_referendum_app.Cico.Issuer.Laws.{IsServed, Kept, IsIssuance, issue_credential-Holds}

-- The object of the next process: only the files and the registry are still there.
abbrev pub restarted : State → State
restarted s = record s { issuances = [] }

module _ (self : Issuer) (r : Request) (answers others : Answers) (s t : State)
    (result : IssuanceResult) where
  abbrev pub IsFresh : Type 0
  IsFresh =
      (get s.issuances r.enrollment_id ≡ none)
      × (get_issuance self.digest r.enrollment_id answers.read_io s.issuance_file ≡ returned none)

  served-IsIssuance :
      IsFresh → IsServed self r answers s result t → IsIssuance self r answers s result t
  served-IsIssuance (unknown, unread) (inl (same, e)) = ground (arith, unknown, e)
  served-IsIssuance (unknown, unread) (inr (inl (same, e))) = ground (arith, unread, e)
  served-IsIssuance fresh (inr (inr h)) = h

  issued :
      IsFresh
      → issue_credential self r answers s ≡ done result t
      → IsIssuance self r answers s result t
  issued fresh h = served-IsIssuance fresh (
      subst (Holds (IsServed self r answers s) (Kept self r answers s)) h
        (issue_credential-Holds self r answers s))

  abbrev stored : IssuanceRecord
  stored = record {
    fingerprint_hash = self.issuance_fingerprint (request_fingerprint self r);
    result = result;
  }

  replay :
      get_issuance self.digest r.enrollment_id others.read_io t.issuance_file
        ≡ returned (some stored)
      → issue_credential self r others (restarted t)
        ≡ done result (record t {
          issuances =
              set [] r.enrollment_id
                (record { fingerprint = request_fingerprint self r; result = result });
        })
  unfolding issue_credential issue_once ◌>>=◌ or_throw get
  replay e =
      let once : issue_once self r others (restarted t) ≡ done result (restarted t) =
        simp (e, text_eq_refl (self.issuance_fingerprint (request_fingerprint self r))) refl in
      ap (remembered self r) once

  -- A first issuance that has returned is answered again after a restart, with the same result, and
  -- the registry takes no other credential, where the file can be read. The digests have the form of
  -- SHA-256 digests, the file held a state of the store, and the result has 32-byte values and a
  -- canonical receipt.
  pub issue_credential-restarted :
      (m : Map PersistedRecord)
      → ((d v : Text) → is_digest (self.digest d v) ≡ true)
      → Stores issuance_codec (IsStored issuance_entry) issuance_codec-IsCodec s.issuance_file m
      → IsIssued result
      → IsFresh
      → issue_credential self r answers s ≡ done result t
      → others.read_io ≡ completes
      → issue_credential self r others (restarted t)
        ≡ done result (record t {
          issuances =
              set [] r.enrollment_id
                (record { fingerprint = request_fingerprint self r; result = result });
        })
  unfolding run
  issue_credential-restarted m digests stores is_issued fresh h reads =
      let (added, canonical, result_is, written) = issued fresh h in
      let again =
        get_issuance-put self.digest s.issuance_file m r.enrollment_id
          (self.issuance_fingerprint (request_fingerprint self r)) result answers.write_io []
          digests stores is_issued tt (λ i. (written i).0) in
      replay (
        ap (λ io. get_issuance self.digest r.enrollment_id io t.issuance_file) reads
        ∙ ap (get_issuance self.digest r.enrollment_id completes) (λ i. (sym written i).1)
        ∙ again)
