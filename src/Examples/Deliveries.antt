-- ===== src/Examples/Deliveries.antt =====
-- delivery/mysql/outbox.go and its theorems: an ordered pair that requires receipts, and a record
-- that does not.
use reliable_messaging.Base.{true, List, [], ◌∷◌, some, none, ◌≡◌, ◌⊎◌, refl}
use reliable_messaging.Base.Bytes.{bytes_eq, literal}
use reliable_messaging.Base.Int.{pos}
use reliable_messaging.Storage.Mysql.Rows.{answered, lost}
use reliable_messaging.Delivery.{
  Identity, Record, staged, find_record, Call, Op, publish_op, confirm_op, retry_op, hold_op, run,
  run_all,
}
use reliable_messaging.Delivery.Receipts.{GoesThrough}
use reliable_messaging.Delivery.Effects.{HasEffect, run-Changed}
use reliable_messaging.Delivery.Stages.{IsAwaited, run_all-IsAwaited}

abbrev first : Record
first = record {
  identity = record {
    producer = literal "shop";
    destination = literal "mail";
    message_id = literal "m1";
  };
  body_sha256 = literal "h1";
  body = literal "one";
  wire = literal "one";
  topic = literal "mail";
  aggregate_key = literal "order";
  aggregate_sequence = 1;
  ordered = true;
  requires_receipt = true;
  stage = staged;
  attempts = 0;
  available_at = 10;
  published_at = none;
  confirmed_at = none;
  error_code = [];
}

abbrev second_id : Identity
second_id = record {
  producer = literal "shop";
  destination = literal "mail";
  message_id = literal "m10";
}

abbrev second_record : Record
second_record = record first {
  identity = second_id;
  body_sha256 = literal "h2";
  aggregate_sequence = 2;
  available_at = 5;
}

abbrev records : List Record
records = first ∷ second_record ∷ []

abbrev call : Call
call = record {
  now = 100;
  bound = true;
  select = answered;
  reply = answered;
  id = first.identity;
  hash = literal "h1";
}

-- The acknowledgement of the publication is lost; the retry, a hold, and the receipt of the other
-- record follow.
abbrev ops : List Op
ops =
    publish_op (record call { reply = lost }) (pos 30)
    ∷ retry_op call (pos 5) (literal "timeout")
    ∷ hold_op call (literal "operator")
    ∷ confirm_op (record call { id = second_id; hash = literal "h2" })
    ∷ []

run_all-IsAwaited_example :
    (s : Record) × (find_record first.identity (run_all ops records) ≡ some s) × IsAwaited first s
unfolding find_record bytes_eq
run_all-IsAwaited_example =
    run_all-IsAwaited ops first first.identity records refl refl (λ e. cc (e))
      (tt, (tt, (tt, ((λ e. cc (e)), tt))))

run-Changed_example :
    let op = publish_op call (pos 30) in
    let j = first.identity in
    ((r : Record) × GoesThrough op j records r
      × (s : Record) × (find_record j (run op records) ≡ some s)
      × HasEffect op r s)
    ⊎ (((r : Record) → ¬ GoesThrough op j records r)
        × (find_record j (run op records) ≡ find_record j records))
run-Changed_example = run-Changed (publish_op call (pos 30)) first.identity records
