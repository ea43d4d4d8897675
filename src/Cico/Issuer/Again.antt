-- ===== src/Cico/Issuer/Again.antt =====
-- A second issueCredential of cico-service/src/credential-issuer-service.ts for the same enrolment.
use midnight_referendum_app.Base.{
  ◌≡◌, refl, sym, ◌∙◌, ap, true, Option, none, some, if◌then◌else◌, arith,
}
use midnight_referendum_app.Base.Text.{text_eq, text_eq_iff, text_eq_refl}
use midnight_referendum_app.Base.Maps.{get, set, get-set}
use midnight_referendum_app.Cico.Program.{Ran, done, failed}
use midnight_referendum_app.Cico.Stores.Issuances.{IssuanceResult}
use midnight_referendum_app.Cico.Issuer.{
  Request, IssuerError, conflict, Entry, State, Answers, Issuer, request_fingerprint, issue_once,
  remembered, known, issue_credential,
}

done-injective :
    (a b : IssuanceResult) (s t : State)
    → ◌≡◌ {A = Ran State IssuerError IssuanceResult} (done a s) (done b t)
    → (a ≡ b) × (s ≡ t)
done-injective a b s t h = ground (arith, h)

module _ (self : Issuer) (r : Request) where
  abbrev entry_of : IssuanceResult → Entry
  entry_of result = record { fingerprint = request_fingerprint self r; result = result }

  Remembers : IssuanceResult → State → Type 0
  Remembers result t = get t.issuances r.enrollment_id ≡ some (entry_of result)

  remembered-Remembers :
      (ran : Ran State IssuerError IssuanceResult) (result : IssuanceResult) (t : State)
      → remembered self r ran ≡ done result t
      → Remembers result t
  unfolding Remembers
  remembered-Remembers (done a s) result t h =
      let next : State = record s { issuances = set s.issuances r.enrollment_id (entry_of a) } in
      let (same, there) = done-injective a result next t h in
      ap (λ (u : State). get u.issuances r.enrollment_id) (sym there)
      ∙ get-set s.issuances r.enrollment_id r.enrollment_id (entry_of a)
      ∙ simp (text_eq_refl r.enrollment_id) (ap (λ x. some (entry_of x)) same)
  remembered-Remembers (failed x s) result t h = ground (arith, h)

  known-Remembers :
      (answers : Answers) (s : State) (o : Option Entry) (result : IssuanceResult) (t : State)
      → get s.issuances r.enrollment_id ≡ o
      → known self r answers o s ≡ done result t
      → Remembers result t
  unfolding Remembers
  known-Remembers answers s none result t e h =
      remembered-Remembers (issue_once self r answers s) result t h
  known-Remembers answers s (some entry) result t e h =
      let (same, k) : (text_eq entry.fingerprint (request_fingerprint self r) ≡ true)
          × (◌≡◌ {A = Ran State IssuerError IssuanceResult} (done entry.result s) (done result t)) =
        ground (arith, h) in
      let (result_is, there) = done-injective entry.result result s t k in
      ap (λ (u : State). get u.issuances r.enrollment_id) (sym there) ∙ e ∙ (λ i. some (record {
        fingerprint = (text_eq_iff entry.fingerprint (request_fingerprint self r)).0 same i;
        result = result_is i;
      }))

-- Once an issuance has returned, a later one for the same enrolment returns the same result where its
-- material is the same and throws a conflict where it is not, and changes nothing.
pub issue_credential_again :
    (self : Issuer) (r later : Request) (answers others : Answers) (s t : State)
    (result : IssuanceResult)
    → issue_credential self r answers s ≡ done result t
    → later.enrollment_id ≡ r.enrollment_id
    → issue_credential self later others t ≡ (
        if text_eq (request_fingerprint self r) (request_fingerprint self later)
        then done result t
        else failed conflict t)
unfolding issue_credential Remembers
issue_credential_again self r later answers others s t result h same =
    let there =
      known-Remembers self r answers s (get s.issuances r.enrollment_id) result t refl h in
    ap (λ o. known self later others o t) (ap (get t.issuances) same ∙ there)
