-- ===== src/Cico/Issuer/Laws.antt =====
-- What issueCredential of cico-service/src/credential-issuer-service.ts does to the registry.
use mathlib.Core.Option.{some-injective}
use midnight_referendum_app.Base.{
  ◌≡◌, refl, sym, subst, if_both, ◌∙◌, ap, true, Option, none, some, List, ◌∷◌, ◌⊎◌, inl, inr,
  arith,
}
use midnight_referendum_app.Base.Text.{text_eq, text_eq_iff}
use midnight_referendum_app.Base.Maps.{get}
use midnight_referendum_app.Receipts.{CanonicalReceipt}
use midnight_referendum_app.Cico.Program.{
  Ran, done, failed, ◌>>◌, return, require, Holds, require-Holds, or_throw-Holds, throw-Holds,
  call-Holds, before-Holds, weaken,
}
use midnight_referendum_app.Cico.Stores.File.{File, Outcome, returned, threw}
use midnight_referendum_app.Cico.Stores.Issuances.{
  IssuanceResult, IssuanceRecord, get_issuance, put_issuance,
}
use midnight_referendum_app.Cico.Issuer.{
  Request, PrivateState, IssuerError, conflict, invalid_claims, issuance_failed, type_error,
  call_failed, Addition, Entry, State, Answers, settled, is_bytes32, is_issuance_receipt, Issuer,
  request_fingerprint, private_state_for, read_issuance, claim_evidence, add_credential,
  write_issuance, mutate, result_of, issue_fresh, replayed, issue_once, remembered, known,
  issue_credential,
}

settled-returned : {A : Type 0} (o : Outcome A) (a : A) → settled o ≡ some a → o ≡ returned a
settled-returned (returned b) a h = ap returned (some-injective b a h)
settled-returned (threw e) a h = ground (arith, h)

module _ (self : Issuer) (r : Request) (answers : Answers) where
  -- What has been checked when the registry takes a credential.
  pub record IsAdded (before after : List Addition) : Type 0 where
    pub addition : Addition
    pub once : after ≡ addition ∷ before
    pub authorized : answers.is_authorized ≡ some true
    pub joined : answers.joined ≡ true
    pub opened : answers.opened ≡ true
    pub added : answers.added ≡ some addition.receipt
    pub private : private_state_for self r answers.random_bytes ≡ some addition.private_state

  -- The registry has taken nothing more, or one credential.
  abbrev pub AtMostOnce : List Addition → List Addition → Type 0
  AtMostOnce before after = (after ≡ before) ⊎ IsAdded before after

  -- What the store does with the result.
  abbrev pub put : File → IssuanceResult → Outcome (Unit {0}) × File
  put file result =
      put_issuance self.digest r.enrollment_id
        (self.issuance_fingerprint (request_fingerprint self r)) result answers.write_io file

  -- The registry has taken one credential, whose receipt is canonical, and the file holds the result.
  abbrev pub IsIssuance : State → IssuanceResult → State → Type 0
  IsIssuance before result after =
      (c : IsAdded before.additions after.additions) × (is_issuance_receipt
          self.registry_contract_address c.addition.receipt
        ≡ true)
      × (result ≡ result_of self r answers.random_bytes c.addition.receipt)
      × (put before.issuance_file result ≡ (returned tt, after.issuance_file))

  abbrev pub Kept : State → IssuerError → State → Type 0
  Kept before x after = AtMostOnce before.additions after.additions

  -- What the mutation does to the registry where it returns, and that it does nothing where it throws.
  abbrev Mutated : PrivateState → State → CanonicalReceipt → State → Type 0
  Mutated private before receipt after =
      (after.additions ≡ (record { private_state = private; receipt = receipt }) ∷ before.additions)
      × (answers.joined ≡ true)
      × (answers.added ≡ some receipt)
      × (after.issuance_file ≡ before.issuance_file)

  abbrev Untouched : State → IssuerError → State → Type 0
  Untouched before x after = after.additions ≡ before.additions

  claim_evidence-Holds :
      (s : State)
      → Holds
          (λ granted t. (t.additions ≡ s.additions) × (t.issuance_file ≡ s.issuance_file))
          (Untouched s)
          (claim_evidence self r answers s)
  claim_evidence-Holds s = throw-Holds _ (Untouched s) _ call_failed _ (λ a e. (refl, refl)) refl

  add_credential-Holds :
      (private : PrivateState) (s t : State)
      → t.additions ≡ s.additions
      → t.issuance_file ≡ s.issuance_file
      → answers.joined ≡ true
      → (o : Option CanonicalReceipt) → answers.added ≡ o
      → Holds (Mutated private s) (Untouched s) (add_credential self private o t)
  add_credential-Holds private s t same file joined none e = same
  add_credential-Holds private s t same file joined (some receipt) e = (
    ap (λ more. (record { private_state = private; receipt = receipt }) ∷ more) same,
    joined,
    e,
    file,
  )

  mutate-Holds :
      (private : PrivateState) (s : State)
      → Holds (Mutated private s) (Untouched s) (mutate self r private answers s)
  unfolding mutate
  mutate-Holds private s =
      call-Holds (Mutated private s) (Untouched s)
        (λ granted t. (t.additions ≡ s.additions) × (t.issuance_file ≡ s.issuance_file))
        (Untouched s) (claim_evidence self r answers) _ s (claim_evidence-Holds s)
        (λ granted t (same, file).
          require-Holds (Mutated private s) (Untouched s) granted invalid_claims _ t
            (λ _.
              require-Holds (Mutated private s) (Untouched s) answers.joined call_failed _ t
                (λ joined. add_credential-Holds private s t same file joined answers.added refl)
                same)
            same)
        (λ x t h. h)

  -- The end of an issuance once the registry has taken the credential.
  written-Holds :
      (receipt : CanonicalReceipt) (s t : State) (c : IsAdded s.additions t.additions)
      → c.addition.receipt ≡ receipt
      → is_issuance_receipt self.registry_contract_address receipt ≡ true
      → t.issuance_file ≡ s.issuance_file
      → Holds (IsIssuance s) (Kept s) (
          (write_issuance self r (result_of self r answers.random_bytes receipt) answers
              >> return (result_of self r answers.random_bytes receipt))
            t)
  unfolding return
  written-Holds receipt s t c same canonical file =
      let result = result_of self r answers.random_bytes receipt in
      before-Holds (IsIssuance s) (Kept s) (λ _ u. IsIssuance s result u) (Kept s)
        (write_issuance self r result answers) _ t
        (throw-Holds _ (Kept s) _ call_failed _
          (λ a e. (
            c,
            ap (is_issuance_receipt self.registry_contract_address) same ∙ canonical,
            sym (ap (result_of self r answers.random_bytes) same),
            ap (λ f. put f result) (sym file) ∙ (λ i. (
              settled-returned (put t.issuance_file result).0 a e i,
              (put t.issuance_file result).1,
            )),
          ))
          (inr c))
        (λ a u k. k) (λ x u k. k)

  abbrev added_by :
      (private : PrivateState) (receipt : CanonicalReceipt) (s t : State)
      → answers.is_authorized ≡ some true
      → private_state_for self r answers.random_bytes ≡ some private
      → answers.opened ≡ true
      → Mutated private s receipt t
      → IsAdded s.additions t.additions
  added_by private receipt s t authorized is_private opened (once, joined, added, file) = record {
    addition = record { private_state = private; receipt = receipt };
    once = once;
    authorized = authorized;
    joined = joined;
    opened = opened;
    added = added;
    private = is_private;
  }

  taken-Holds :
      (private : PrivateState) (receipt : CanonicalReceipt) (s t : State)
      → answers.is_authorized ≡ some true
      → private_state_for self r answers.random_bytes ≡ some private
      → answers.opened ≡ true
      → Mutated private s receipt t
      → Holds (IsIssuance s) (Kept s) (
          (require (is_issuance_receipt self.registry_contract_address receipt) issuance_failed
              >> (write_issuance self r (result_of self r answers.random_bytes receipt) answers
                  >> return (result_of self r answers.random_bytes receipt)))
            t)
  taken-Holds private receipt s t authorized is_private opened mutated =
      let added = added_by private receipt s t authorized is_private opened mutated in
      require-Holds (IsIssuance s) (Kept s)
        (is_issuance_receipt self.registry_contract_address receipt) issuance_failed _ t
        (λ canonical. written-Holds receipt s t added refl canonical mutated.3) (inr added)

  issue_fresh-Holds : (s : State) → Holds (IsIssuance s) (Kept s) (issue_fresh self r answers s)
  unfolding issue_fresh
  issue_fresh-Holds s =
      or_throw-Holds (IsIssuance s) (Kept s) answers.is_authorized call_failed _ s
        (λ authorized is_authorized.
          require-Holds (IsIssuance s) (Kept s) authorized invalid_claims _ s
            (λ yes.
              require-Holds (IsIssuance s) (Kept s) (is_bytes32 answers.random_bytes) type_error _ s
                (λ _.
                  or_throw-Holds (IsIssuance s) (Kept s)
                    (private_state_for self r answers.random_bytes) type_error _ s
                    (λ private is_private.
                      require-Holds (IsIssuance s) (Kept s) answers.opened call_failed _ s
                        (λ opened.
                          call-Holds (IsIssuance s) (Kept s) (Mutated private s) (Untouched s)
                            (mutate self r private answers) _ s (mutate-Holds private s)
                            (λ receipt t mutated.
                              taken-Holds private receipt s t (is_authorized ∙ ap some yes)
                                is_private opened mutated)
                            (λ x t h. inl h))
                        (inl refl))
                    (inl refl))
                (inl refl))
            (inl refl))
        (inl refl)

  -- The answer to a request that the file remembers; the registry takes nothing.
  abbrev pub IsReplay : State → IssuanceResult → State → Type 0
  IsReplay before result after =
      (after.additions ≡ before.additions)
      × (get_issuance self.digest r.enrollment_id answers.read_io before.issuance_file
          ≡ returned (
              some (record {
                fingerprint_hash = self.issuance_fingerprint (request_fingerprint self r);
                result = result;
              })))

  abbrev pub IsAnswered : State → IssuanceResult → State → Type 0
  IsAnswered before result after = IsReplay before result after ⊎ IsIssuance before result after

  replayed-Holds :
      (s : State) (o : Option IssuanceRecord)
      → get_issuance self.digest r.enrollment_id answers.read_io s.issuance_file ≡ returned o
      → Holds (IsAnswered s) (Kept s) (replayed self r answers o s)
  replayed-Holds s none e =
      weaken (IsIssuance s) (IsAnswered s) (Kept s) (Kept s) (issue_fresh self r answers s)
        (λ a t h. inr h) (λ x t h. h) (issue_fresh-Holds s)
  replayed-Holds s (some p) e =
      if_both (Holds (IsAnswered s) (Kept s))
        (text_eq p.fingerprint_hash (self.issuance_fingerprint (request_fingerprint self r)))
        (done p.result s) (failed conflict s)
        (λ same. inl (
          refl,
          e ∙ (λ i. returned (
              some (record p {
                fingerprint_hash =
                    (text_eq_iff p.fingerprint_hash
                        (self.issuance_fingerprint (request_fingerprint self r))).0
                      same i;
              }))),
        ))
        (λ other. inl refl)

  read_issuance-Holds :
      (s : State)
      → Holds
          (λ o t.
            (t ≡ s)
            × (get_issuance self.digest r.enrollment_id answers.read_io s.issuance_file
                ≡ returned o))
          (λ x t. t ≡ s)
          (read_issuance self r answers s)
  read_issuance-Holds s =
      throw-Holds _ (λ x t. t ≡ s) _ call_failed s (λ o e. (refl, settled-returned _ o e)) refl

  issue_once-Holds : (s : State) → Holds (IsAnswered s) (Kept s) (issue_once self r answers s)
  unfolding issue_once
  issue_once-Holds s =
      call-Holds (IsAnswered s) (Kept s) _ _ (read_issuance self r answers) _ s
        (read_issuance-Holds s)
        (λ o t (same, e).
          subst (λ u. Holds (IsAnswered s) (Kept s) (replayed self r answers o u)) (sym same)
            (replayed-Holds s o e))
        (λ x t same. inl (λ i. (same i).additions))

  -- The answer to a request that the object remembers.
  abbrev pub IsKnown : State → IssuanceResult → State → Type 0
  IsKnown before result after =
      (after ≡ before)
      × (get before.issuances r.enrollment_id
          ≡ some (record { fingerprint = request_fingerprint self r; result = result }))

  abbrev pub IsServed : State → IssuanceResult → State → Type 0
  IsServed before result after = IsKnown before result after ⊎ IsAnswered before result after

  remembered-Holds :
      (s : State) (ran : Ran State IssuerError IssuanceResult)
      → Holds (IsAnswered s) (Kept s) ran
      → Holds (IsServed s) (Kept s) (remembered self r ran)
  remembered-Holds s (done result t) h = inr h
  remembered-Holds s (failed x t) h = h

  known-Holds :
      (s : State) (o : Option Entry)
      → get s.issuances r.enrollment_id ≡ o
      → Holds (IsServed s) (Kept s) (known self r answers o s)
  known-Holds s none e = remembered-Holds s (issue_once self r answers s) (issue_once-Holds s)
  known-Holds s (some entry) e =
      if_both (Holds (IsServed s) (Kept s)) (text_eq entry.fingerprint (request_fingerprint self r))
        (done entry.result s) (failed conflict s)
        (λ same. inl (
          refl,
          e ∙ (λ i. some (record entry {
            fingerprint = (text_eq_iff entry.fingerprint (request_fingerprint self r)).0 same i;
          })),
        ))
        (λ other. inl refl)

  -- An issuance that returns has found its answer in the object or in the file, and then the registry
  -- has taken nothing, or the registry has taken exactly one credential: on evidence that is valid and
  -- with the private state of the request, and the receipt is that of a canonical Preview issuance.
  -- One that throws has made the registry take one credential at most.
  pub issue_credential-Holds :
      (s : State) → Holds (IsServed s) (Kept s) (issue_credential self r answers s)
  unfolding issue_credential
  issue_credential-Holds s = known-Holds s (get s.issuances r.enrollment_id) refl
