-- ===== src/Storage/Mysql/Grants.antt =====
-- storage/mysql/store.go: what `ClaimDue` grants and what it makes of a row that it selected, column by
-- column.
use reliable_messaging.Base.{
  Any, ℕ, Bool, ◌+◌, ◌*◌, ◌≤◌, List, none, some, ◌≡◌, All, ◌⊎◌, ok, length,
}
use reliable_messaging.Env.{Env}
use reliable_messaging.Base.Bytes.{Bytes, literal}
use reliable_messaging.Base.Text.{format_uint, hex}
use reliable_messaging.Message.{Message, new}
use reliable_messaging.Outbox.{Claim}
use reliable_messaging.Storage.Mysql.Rows.{Row, find_row, publishing, quarantined}
use reliable_messaging.Storage.Mysql.Claim.{ClaimIo}
use reliable_messaging.Storage.Mysql.Selection.{OnceEach, IsDue}
use reliable_messaging.Storage.Mysql.Ordering.{InOrder, IsServed}

-- The row's content is that of the message `m`, whose fingerprint is the stored one.
abbrev pub HoldsMessage : Env → Row → Message → Type 0
HoldsMessage env r m = (new env r.input ≡ ok m) × (r.fingerprint ≡ m.fingerprint)

-- The columns that no claim touches.
pub record SameContent (r s : Row) : Type 0 where
  pub same_id : s.id ≡ r.id
  pub same_input : s.input ≡ r.input
  pub same_fingerprint : s.fingerprint ≡ r.fingerprint
  pub same_confirmed : s.transport_confirmed_at ≡ r.transport_confirmed_at
  pub same_replay : s.manual_replay_request_id ≡ r.manual_replay_request_id
  pub same_replay_version : s.manual_replay_version ≡ r.manual_replay_version
  pub same_created : s.created_at ≡ r.created_at

-- The row `s` is `r`, publishing under the token until `until`, in microseconds.
pub record IsLeased (until : ℕ) (token : Bytes) (r s : Row) : Type 0 where
  pub content : SameContent r s
  pub in_publishing : s.state ≡ publishing
  pub under_token : s.claim_token ≡ some token
  pub lease_ends : s.lease_until ≡ some until
  pub next_due : s.next_attempt_at ≡ until
  pub next_version : s.version ≡ r.version + 1
  pub one_more_attempt : s.attempt_count ≡ r.attempt_count + 1
  pub same_failures : s.failure_count ≡ r.failure_count
  pub same_code : s.last_error_code ≡ r.last_error_code

-- The row `s` is `r`, quarantined for its content.
pub record IsCorrupt (r s : Row) : Type 0 where
  pub content : SameContent r s
  pub in_quarantined : s.state ≡ quarantined
  pub no_token : s.claim_token ≡ none
  pub no_lease : s.lease_until ≡ none
  pub same_due : s.next_attempt_at ≡ r.next_attempt_at
  pub next_version : s.version ≡ r.version + 1
  pub same_attempts : s.attempt_count ≡ r.attempt_count
  pub one_more_failure : s.failure_count ≡ r.failure_count + 1
  pub coded : s.last_error_code ≡ literal "invalid_immutable_content"

-- The claim presents the message of the row `r`, which now is `s`; its own lease end is in
-- nanoseconds.
pub record Presents (until : ℕ) (m : Message) (r s : Row) (c : Claim) : Type 0 where
  pub names_row : c.record_id ≡ format_uint r.id
  pub names_version : c.version ≡ s.version
  pub attempt : c.attempts ≡ r.attempt_count + 1
  pub failures : c.failure_count ≡ r.failure_count
  pub lease : c.lease_until ≡ until * 1000
  pub message : c.message ≡ m
  pub is_leased : IsLeased until c.token r s

-- A claim stands for a row that satisfied `P` and holds a message; its token is the text of random
-- bytes that were drawn for it.
pub record IsGrant (env : Env) (io : ClaimIo) (until : ℕ) (P : Row → Type 0) (out : List Row)
    (c : Claim) : Type 0 where
  pub row : Row
  pub candidate : P row
  pub message : Message
  pub held : HoldsMessage env row message
  pub after : Row
  pub stored : find_row row.id out ≡ some after
  pub presents : Presents until message row after c
  pub draw : ℕ
  pub random : Bytes
  pub drawn : io.entropy draw ≡ some random
  pub token : c.token ≡ hex random

-- A candidate holds a message, and then a returned claim presents it, or it holds none and is
-- quarantined.
pub record IsDisposed (env : Env) (until : ℕ) (out : List Row) (cs : List Claim) (r : Row)
    : Type 0 where
  pub after : Row
  pub stored : find_row r.id out ≡ some after
  pub outcome :
      ((m : Message) × HoldsMessage env r m × Any (λ c. Presents until m r after c) cs)
      ⊎ (((m : Message) → ¬ HoldsMessage env r m) × IsCorrupt r after)

-- The rows that a call selects: at most `limit`, each once and in the order of their due times; due
-- rows of the table that nobody else holds, and every such row unless the limit is reached by rows
-- that precede it.
pub record IsSelection (now : ℕ) (locked : ℕ → Bool) (limit : ℕ) (rows rs : List Row) : Type 0 where
  pub few : length rs ≤ limit
  pub once : OnceEach rs
  pub ordered : InOrder rs
  pub all_due : All (λ r. (find_row r.id rows ≡ some r) × IsDue now locked r) rs
  pub served : (r : Row) → find_row r.id rows ≡ some r → IsDue now locked r → IsServed limit rs r
