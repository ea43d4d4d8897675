-- ===== src/Cico/Publisher/Tests.antt =====
-- Runs of the credential root publisher.
use midnight_referendum_app.Base.{
  ◌≡◌, refl, true, false, Option, none, some, List, [], ◌∷◌, inl, inr, if◌then◌else◌,
}
use midnight_referendum_app.Base.Text.{Text, codes, text_eq}
use midnight_referendum_app.Cico.Program.{done, Holds, ◌>>=◌, ◌>>◌, return}
use midnight_referendum_app.Cico.Registry.{RegistryState}
use midnight_referendum_app.Cico.Publisher.{
  Publisher, Effect, ReferendumState, registry_read, clock_read, attested, publication_refused,
  referendum_joined, World, PublisherOptions, Publication, skipped, unchanged, below_minimum_batch,
  publication, publish_once, run_cycle, read_registry, with_registry, start_waiting, now, observe,
  decide, waiting_since, publish, caught, attest, join_registry, attest_root, publish_attested,
  publish_all, publish_to_referendum, join_referendum, publish_root,
}
use midnight_referendum_app.Cico.Publisher.Effects.{Follows}
use midnight_referendum_app.Cico.Publisher.Batch.{
  decide_withholds, decide_publishes, AllFar, SomeNear,
}
use midnight_referendum_app.Base.{arith}
use midnight_referendum_app.Cico.Publisher.Rounds.{
  Cycled, after_unchanged, publish_once_lem, publish_once_twice,
}

abbrev registry : RegistryState
registry = record {
  registry_id = 1 ∷ [];
  issuer_id = 2 ∷ [];
  credential_epoch = 3;
  current_root = 9;
  frozen_root = 0;
  frozen = false;
  credential_count = 20;
}

-- One referendum, which refuses every root.
abbrev world : World
world = record {
  read_registry = λ _. some registry;
  read_referendum = λ _ _. none;
  join_registry = λ _. true;
  attest = λ _ _. some (codes "tx");
  join_referendum = λ _ _. true;
  publish = λ _ _ _. none;
  now = λ _. 1000;
}

abbrev options : PublisherOptions
options = record { referenda = codes "r" ∷ []; min_batch_size = 16; max_wait_ms = 900000 }

abbrev fresh : Publisher
fresh = record {
  registry_joined = true;
  joined_referenda = [];
  last_published_root_field = none;
  last_published_credential_count = 0;
  pending_root_field = none;
  pending_since_ms = none;
  last_observed_batch_size = none;
  last_published_at_ms = none;
  last_result = none;
  last_error = none;
  trace = [];
}

abbrev refused_publication : Publication
refused_publication = record {
  root_field = 9;
  batch_size = 20;
  below_minimum = false;
  attestation_transaction_id = codes "tx";
  referenda = record { contract_address = codes "r"; transaction_id = none } ∷ [];
}

abbrev after_refusal : Publisher
after_refusal = record fresh {
  joined_referenda = codes "r" ∷ [];
  last_published_root_field = some 9;
  last_published_credential_count = 20;
  last_observed_batch_size = some 0;
  last_published_at_ms = some 1000;
  last_result = some (publication refused_publication);
  trace =
      clock_read
      ∷ publication_refused (codes "r") 9
      ∷ referendum_joined (codes "r")
      ∷ attested 9
      ∷ clock_read
      ∷ clock_read
      ∷ registry_read
      ∷ [];
}

publish_once_refused :
    publish_once world options fresh ≡ done (publication refused_publication) after_refusal
unfolding publish_once run_cycle read_registry with_registry start_waiting now observe decide
    waiting_since publish caught attest join_registry attest_root publish_attested publish_all
    publish_to_referendum join_referendum publish_root ◌>>=◌ ◌>>◌ return text_eq
publish_once_refused = refl

publish_once_lem_example :
    Holds
      (Cycled world options fresh)
      (λ x t. Follows [] none t.trace)
      (publish_once world options fresh)
publish_once_lem_example = publish_once_lem world options fresh

publish_once_twice_example :
    publish_once world options after_refusal
    ≡ done (skipped unchanged none) (after_unchanged after_refusal)
publish_once_twice_example =
    publish_once_twice world options fresh after_refusal refused_publication registry refl
      publish_once_refused refl refl

-- Two referenda that are read at the present second, 1000 s: `f` closes its enrolment 901 s from then,
-- `c` has closed it. The longest wait is 900 s.
abbrev far_deadline : Text → List Effect → Option ReferendumState
far_deadline address trace = some (record {
  enrollment_closed = text_eq address (codes "c");
  enrollment_closes_at_unix = if text_eq address (codes "c") then 0 else 1901;
})

abbrev far_world : World
far_world = record world { read_referendum = far_deadline; now = λ _. 1000000 }

abbrev two_referenda : PublisherOptions
two_referenda = record options { referenda = codes "f" ∷ codes "c" ∷ [] }

abbrev waiting : Publisher
waiting = record fresh { pending_since_ms = some 999500 }

all_far :
    AllFar far_world two_referenda 1000 (codes "f" ∷ codes "c" ∷ []) (clock_read ∷ clock_read ∷ [])
unfolding text_eq
all_far = (inr (omega arith), (inl refl, tt))

decide_withholds_example :
    (t : Publisher) × (decide far_world two_referenda registry 3 waiting
      ≡ done (skipped below_minimum_batch (some 3)) t)
    × (t ≡ record waiting { trace = t.trace })
decide_withholds_example =
    decide_withholds far_world two_referenda registry 3 999500 waiting (omega arith) refl
      (omega arith) all_far

-- The second referendum is open and closes its enrolment in exactly the longest wait.
abbrev near_world : World
near_world = record far_world {
  read_referendum = λ address trace. some (record {
    enrollment_closed = false;
    enrollment_closes_at_unix = if text_eq address (codes "c") then 1900 else 1901;
  });
}

some_near :
    SomeNear near_world two_referenda 1000
      (codes "f" ∷ codes "c" ∷ [])
      (clock_read ∷ clock_read ∷ [])
unfolding text_eq
some_near = inr (inl (refl, omega arith))

decide_publishes_example :
    (t : Publisher) × (decide near_world two_referenda registry 3 waiting
      ≡ publish near_world two_referenda registry 3 true t)
    × (t ≡ record waiting { trace = t.trace })
decide_publishes_example =
    decide_publishes near_world two_referenda registry 3 999500 waiting (omega arith) refl
      (inr some_near)
