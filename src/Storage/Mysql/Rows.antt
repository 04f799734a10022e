-- ===== src/Storage/Mysql/Rows.antt =====
-- storage/mysql/schema.sql: the rows of rm_outbox, and the effect of the statements that
-- storage/mysql issues, each keyed by the row's id. The database clock is a parameter, in
-- microseconds since Go's zero time, as DATETIME(6) columns store it.
use reliable_messaging.Base.{
  ℕ, suc, Bool, true, false, ◌&&◌, List, [], ◌∷◌, Option, none, some, ltb, leb, ◌==◌, if◌then◌else◌,
}
use reliable_messaging.Base.Bytes.{Bytes, bytes_eq}
use reliable_messaging.Message.{Input}

pub data RowState : Type 0 where
  pending retry_wait publishing published quarantined : RowState

pub record Row : Type 0 where
  pub id : ℕ
  pub input : Input
  pub fingerprint : Bytes
  pub state : RowState
  pub next_attempt_at : ℕ
  pub claim_token : Option Bytes
  pub lease_until : Option ℕ
  pub version : ℕ
  pub attempt_count : ℕ
  pub failure_count : ℕ
  pub last_error_code : Bytes
  pub transport_confirmed_at : Option ℕ
  pub manual_replay_request_id : Option Bytes
  pub manual_replay_version : Option ℕ
  pub created_at : ℕ
  pub updated_at : ℕ

-- The table with its AUTO_INCREMENT counter.
pub record Table : Type 0 where
  pub rows : List Row
  pub next_id : ℕ

-- How the database answers one call of the driver: with a result, with an error and no effect, or
-- with an error although the statement took effect (a lost acknowledgement).
pub data Reply : Type 0 where
  answered refused lost : Reply

abbrev pub is_answered : Reply → Bool
is_answered answered = true
is_answered _ = false

abbrev pub is_applied : Reply → Bool
is_applied refused = false
is_applied _ = true

abbrev pub is_publishing : RowState → Bool
is_publishing publishing = true
is_publishing _ = false

abbrev pub is_published : RowState → Bool
is_published published = true
is_published _ = false

abbrev pub is_waiting : RowState → Bool
is_waiting pending = true
is_waiting retry_wait = true
is_waiting _ = false

-- SQL comparisons with a NULL column are never true.
abbrev pub expired : ℕ → Option ℕ → Bool
expired now none = false
expired now (some t) = leb t now

abbrev pub unexpired : ℕ → Option ℕ → Bool
unexpired now none = false
unexpired now (some t) = ltb now t

abbrev pub holds : Option Bytes → Bytes → Bool
holds none token = false
holds (some t) token = bytes_eq t token

abbrev pub present : Option ℕ → Bool
present none = false
present (some t) = true

-- The row of an id, by the primary key.
unfoldable pub find_row : ℕ → List Row → Option Row
find_row id [] = none
find_row id (r ∷ rs) = if r.id == id then some r else find_row id rs

-- `UPDATE ... SET f WHERE id=? AND test`
unfoldable pub update_row : ℕ → (Row → Bool) → (Row → Row) → List Row → List Row
update_row id test f [] = []
update_row id test f (r ∷ rs) = (if r.id == id && test r then f r else r) ∷ update_row id test f rs

-- The number of rows that such a statement affects; each of them changes the version.
unfoldable pub affected : ℕ → (Row → Bool) → List Row → ℕ
affected id test [] = 0
affected id test (r ∷ rs) =
    let rest = affected id test rs in if r.id == id && test r then suc rest else rest

-- A row after the last, by INSERT with the columns' defaults.
unfoldable pub add_row : List Row → Row → List Row
add_row [] r = r ∷ []
add_row (q ∷ qs) r = q ∷ add_row qs r

-- The columns of the unique key.
abbrev pub same_identity : Input → Row → Bool
same_identity m r =
    bytes_eq r.input.producer m.producer
    && bytes_eq r.input.id m.id
    && bytes_eq r.input.destination m.destination

unfoldable pub find_identity : Input → List Row → Option Row
find_identity m [] = none
find_identity m (r ∷ rs) = if same_identity m r then some r else find_identity m rs
