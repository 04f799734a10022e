-- ===== src/Outbox/Status.antt =====
-- outbox/status_builder.go: the snapshot of the unfinished states. The map of the rows seen is a
-- list, newest first. A time is counted in nanoseconds, with 0 the zero time; an age is left in
-- nanoseconds, where the source divides it into seconds.
pub mod Reports
use reliable_messaging.Base.{
  ℕ, ◌-◌, ◌^◌, Bool, true, false, not, ◌&&◌, ◌||◌, List, [], ◌∷◌, Option, none, some, leb, ◌==◌,
  if◌then◌else◌, Result, ok, err, is_empty, map,
}
use reliable_messaging.Base.Bytes.{Bytes, literal, bytes_eq}
use reliable_messaging.Base.Int.{ℤ, pos, ltb_ℤ}

pub record StatusCount : Type 0 where
  pub state : Bytes
  pub count : ℤ
  pub oldest_created_at : Option ℕ

pub record StatusBucket : Type 0 where
  pub status : Bytes
  pub bucket_count : ℤ
  pub oldest : Option ℕ
  pub oldest_age : ℕ

pub record StatusSnapshot : Type 0 where
  pub store : Bytes
  pub generated_at : ℕ
  pub buckets : List StatusBucket

pub data StatusError : Type 0 where
  store_required : StatusError
  invalid_row duplicate_state : Bytes → StatusError

abbrev pub unfinished_states : List Bytes
unfinished_states =
    literal "pending" ∷ literal "retry_wait" ∷ literal "publishing" ∷ literal "quarantined" ∷ []

unfoldable pub is_among : Bytes → List Bytes → Bool
is_among value [] = false
is_among value (s ∷ ss) = bytes_eq value s || is_among value ss

-- `standardState`
abbrev pub standard_state : Bytes → Bool
standard_state value = is_among value unfinished_states

abbrev pub lacks_age : Option ℕ → Bool
lacks_age none = true
lacks_age (some t) = t == 0

abbrev pub bad_row : StatusCount → Bool
bad_row r =
    not (standard_state r.state)
    || ltb_ℤ r.count (pos 0)
    || (ltb_ℤ (pos 0) r.count && lacks_age r.oldest_created_at)

unfoldable pub find_state : Bytes → List StatusCount → Option StatusCount
find_state value [] = none
find_state value (r ∷ rs) =
    let rest = find_state value rs in if bytes_eq r.state value then some r else rest

abbrev pub is_known : Option StatusCount → Bool
is_known none = false
is_known (some r) = true

-- The loop over the rows; `seen` are those before.
unfoldable pub by_state :
    List StatusCount → List StatusCount → Result StatusError (List StatusCount)
by_state seen [] = ok seen
by_state seen (r ∷ rs) =
    let rest = by_state (r ∷ seen) rs in
    if bad_row r
    then err (invalid_row r.state)
    else if is_known (find_state r.state seen)
    then err (duplicate_state r.state)
    else rest

-- `now.Sub`, which stops at the longest duration; below zero the age is 0.
abbrev pub age_of : ℕ → Option ℕ → ℕ
age_of now none = 0
age_of now (some t) = if leb (now - t) (2 ^ 63 - 1) then now - t else 2 ^ 63 - 1

abbrev pub bucket_of : ℕ → Bytes → Option StatusCount → StatusBucket
bucket_of now state none = record {
  status = state;
  bucket_count = pos 0;
  oldest = none;
  oldest_age = 0;
}
bucket_of now state (some r) = record {
  status = state;
  bucket_count = r.count;
  oldest = r.oldest_created_at;
  oldest_age = age_of now r.oldest_created_at;
}

abbrev pub snapshot :
    Bytes → ℕ → Result StatusError (List StatusCount) → Result StatusError StatusSnapshot
snapshot store now (err e) = err e
snapshot store now (ok rows) = ok (record {
  store = store;
  generated_at = now;
  buckets = map (λ s. bucket_of now s (find_state s rows)) unfinished_states;
})

-- `BuildStandardStatusSnapshot`
unfoldable pub build : Bytes → ℕ → List StatusCount → Result StatusError StatusSnapshot
unfolding by_state
build store now counts =
    if is_empty store || now == 0
    then err store_required
    else snapshot store now (by_state [] counts)
