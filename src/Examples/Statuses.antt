-- ===== src/Examples/Statuses.antt =====
-- outbox/status_builder.go and its theorem, on two observed states.
use reliable_messaging.Base.{List, [], ◌∷◌, some, none, ◌≡◌, refl, All, Any, ok, map}
use reliable_messaging.Base.Bytes.{bytes_eq, literal}
use reliable_messaging.Base.Int.{pos}
use reliable_messaging.Outbox.Status.{
  find_state, is_among, StatusCount, StatusSnapshot, unfinished_states, build,
}
use reliable_messaging.Outbox.Status.Reports.{Reports, build-Reports}

abbrev counts : List StatusCount
counts =
    record { state = literal "retry_wait"; count = pos 2; oldest_created_at = some 40 }
    ∷ record { state = literal "pending"; count = pos 7; oldest_created_at = some 90 }
    ∷ []

abbrev observed : StatusSnapshot
observed = record {
  store = literal "db";
  generated_at = 100;
  buckets =
      record { status = literal "pending"; bucket_count = pos 7; oldest = some 90; oldest_age = 10 }
      ∷ record {
        status = literal "retry_wait";
        bucket_count = pos 2;
        oldest = some 40;
        oldest_age = 60;
      }
      ∷ record {
        status = literal "publishing";
        bucket_count = pos 0;
        oldest = none;
        oldest_age = 0;
      }
      ∷ record {
        status = literal "quarantined";
        bucket_count = pos 0;
        oldest = none;
        oldest_age = 0;
      }
      ∷ [];
}

builds : build (literal "db") 100 counts ≡ ok observed
unfolding build is_among bytes_eq find_state
builds = refl

build-Reports_example :
    (map (λ b. b.status) observed.buckets ≡ unfinished_states)
    × All (λ r. Any (Reports r) observed.buckets) counts
build-Reports_example = build-Reports (literal "db") 100 counts observed builds
