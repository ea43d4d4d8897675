-- ===== src/Relayer/Indexer/Tests.antt =====
-- A payload that relayer/src/v2-indexer.ts resolves, and two that it refuses.
use midnight_referendum_app.Base.{◌≡◌, ◌≢◌, refl, Option, none, some, [], arith}
use midnight_referendum_app.Base.Text.{Text, codes}
use midnight_referendum_app.Base.Json.{
  Value, Fields, Number, natural, number, string, array, object, nil, cons, field, end,
}
use midnight_referendum_app.Receipts.{CanonicalReceipt, vote, preview, is_network, ◌>>=◌}
use midnight_referendum_app.Relayer.Indexer.{
  Input, payload, resolved, pending, indexer_rejected, resolve,
}
use midnight_referendum_app.Relayer.Indexer.Laws.{IsConfirmed, resolve-IsConfirmed}

abbrev input : Input
input = record {
  transaction_id = codes "t1";
  network = codes "preview";
  contract_address = codes "c1";
  circuit = codes "castVote";
  action = vote;
}

abbrev block : Fields
block = field (codes "height") (number (natural 7)) (
    field (codes "hash") (string (codes "b"))
      (field (codes "timestamp") (number (natural 1700000000)) end))

abbrev transaction : Text → Value
transaction status = object (
    field (codes "hash") (string (codes "h")) (
      field (codes "contractActions")
        (array (cons (object (field (codes "address") (string (codes "c1")) end)) nil))
        (field (codes "block") (object block) (
          field (codes "identifiers") (array (cons (string (codes "t1")) nil)) (
            field (codes "transactionResult") (object (field (codes "status") (string status) end))
              end)))))

abbrev answer : Text → Value
answer status = object (
    field (codes "data")
      (object (field (codes "transactions") (array (cons (transaction status) nil)) end)) end)

abbrev iso_string : Number → Option Text
iso_string n = some (codes "2023")

abbrev encode : Text → Text
encode t = t

dated : (n : Number) (t : Text) → iso_string n ≡ some t → t ≢ []
dated n t h e = grind (arith, h, e)

abbrev receipt : CanonicalReceipt
receipt = record {
  action = vote;
  network = preview;
  transaction_id = codes "t1";
  transaction_hash = codes "h";
  contract_address = codes "c1";
  circuit = codes "castVote";
  block_height = 7;
  block_hash = codes "b";
  block_timestamp = codes "2023";
  explorer_url = some (codes "x/t1");
}

resolves :
    resolve iso_string encode (some (codes "x//")) input (payload (answer (codes "SUCCESS")))
    ≡ resolved receipt
unfolding resolve ◌>>=◌ is_network
    midnight_referendum_app.Relayer.Indexer.canonical_receipt_from_indexer
    midnight_referendum_app.Relayer.Indexer.explorer_for
resolves = refl

rejects :
    resolve iso_string encode none input (payload (answer (codes "FAILURE"))) ≡ indexer_rejected
unfolding resolve ◌>>=◌
rejects = refl

resolve-IsConfirmed_example :
    IsConfirmed iso_string encode
      (some (codes "x//"))
      dated
      input
      (answer (codes "SUCCESS"))
      receipt
resolve-IsConfirmed_example =
    resolve-IsConfirmed iso_string encode (some (codes "x//")) dated input
      (answer (codes "SUCCESS")) receipt resolves
