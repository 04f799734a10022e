-- ===== src/Delivery.antt =====
-- delivery/mysql/outbox.go: the durable outbox that tells broker-published records from those whose
-- business receipt has arrived. `bound` says that the caller passed a transaction; a reply is the
-- database's answer to a statement. Times are in microseconds, by the database clock. The texts of an
-- identity are compared by their bytes, as delivery/mysql/schema.sql compares texts without trailing
-- spaces; its collations ignore those.
pub mod Receipts
pub mod Outcomes
pub mod Effects
pub mod Stages
pub mod Pending
use reliable_messaging.Base.{
  ℕ, ◌+◌, ◌*◌, Bool, true, false, not, ◌&&◌, ◌||◌, List, [], ◌∷◌, Option, none, some, ltb, leb,
  ◌==◌, if◌then◌else◌, Result, ok, err, is_empty, take,
}
use reliable_messaging.Base.Bytes.{Bytes, bytes_eq}
use reliable_messaging.Base.Int.{ℤ, pos, ltb_ℤ, pos_part}
use reliable_messaging.Storage.Mysql.Rows.{Reply, is_answered, is_applied}

pub record Identity : Type 0 where
  pub producer : Bytes
  pub destination : Bytes
  pub message_id : Bytes

pub data Stage : Type 0 where
  staged awaiting_receipt confirmed held : Stage
  other_stage : Bytes → Stage

-- `Record`, with the columns that it leaves out.
pub record Record : Type 0 where
  pub identity : Identity
  pub body_sha256 : Bytes
  pub body : Bytes
  pub wire : Bytes
  pub topic : Bytes
  pub aggregate_key : Bytes
  pub aggregate_sequence : ℕ
  pub ordered : Bool
  pub requires_receipt : Bool
  pub stage : Stage
  pub attempts : ℕ
  pub available_at : ℕ
  pub published_at : Option ℕ
  pub confirmed_at : Option ℕ
  pub error_code : Bytes

-- `ErrConflict`, the errors of bad arguments, and those of the driver.
pub data DeliveryError : Type 0 where
  mismatch bad_arguments driver_failed : DeliveryError

abbrev pub identity_eq : Identity → Identity → Bool
identity_eq a b =
    bytes_eq a.producer b.producer
    && bytes_eq a.destination b.destination
    && bytes_eq a.message_id b.message_id

-- The row of a primary key.
unfoldable pub find_record : Identity → List Record → Option Record
find_record id [] = none
find_record id (r ∷ rs) =
    let rest = find_record id rs in if identity_eq r.identity id then some r else rest

-- `UPDATE ... SET f WHERE producer=? AND destination=? AND message_id=?`
unfoldable pub update_record : Identity → (Record → Record) → List Record → List Record
update_record id f [] = []
update_record id f (r ∷ rs) = (if identity_eq r.identity id then f r else r) ∷ update_record id f rs

abbrev pub invalid_identity : Bool → Identity → Bool
invalid_identity bound id =
    not bound || is_empty id.producer || is_empty id.destination || is_empty id.message_id

abbrev pub matching : Bytes → Option Record → Result DeliveryError Record
matching hash none = err mismatch
matching hash (some r) = if not (bytes_eq r.body_sha256 hash) then err mismatch else ok r

-- `locked`: the row under its lock, if its body has the hash.
unfoldable pub locked : Bool → Reply → Identity → Bytes → List Record → Result DeliveryError Record
locked bound select id hash rs =
    if invalid_identity bound id
    then err mismatch
    else if not (is_answered select)
    then err driver_failed
    else matching hash (find_record id rs)

abbrev pub Written : Type 0
Written = Result DeliveryError (Unit {0}) × List Record

-- What the operations make of the locked row.
abbrev pub with_locked : List Record → Result DeliveryError Record → (Record → Written) → Written
with_locked rs (err e) k = (err e, rs)
with_locked rs (ok r) k = k r

-- The statement that ends an operation.
abbrev pub write : Reply → Identity → (Record → Record) → List Record → Written
write reply id f rs = (
  if is_answered reply then ok tt else err driver_failed,
  if is_applied reply then update_record id f rs else rs,
)

abbrev pub is_confirmed : Stage → Bool
is_confirmed confirmed = true
is_confirmed _ = false

abbrev pub is_held : Stage → Bool
is_held held = true
is_held _ = false

abbrev pub seconds : ℤ → ℕ
seconds n = pos_part n * 1000000

abbrev pub beyond_minute : ℤ → Bool
beyond_minute n = ltb_ℤ n (pos 1) || ltb_ℤ (pos 60) n

abbrev pub set_held : Bytes → Record → Record
set_held code r = record r { stage = held; error_code = code }

module _ (now : ℕ) where
  abbrev pub set_published : ℤ → Bool → Record → Record
  set_published wait receipt r = record r {
    stage = if not receipt then confirmed else awaiting_receipt;
    attempts = if r.requires_receipt then r.attempts + 1 else r.attempts;
    published_at = some now;
    confirmed_at = if r.requires_receipt then none else some now;
    available_at = now + seconds wait;
    error_code = [];
  }

  abbrev pub set_receipt : Record → Record
  set_receipt r = record r { stage = confirmed; confirmed_at = some now; error_code = [] }

  abbrev pub set_failed : ℤ → Bytes → Record → Record
  set_failed delay code r = record r {
    attempts = r.attempts + 1;
    available_at = now + seconds delay;
    error_code = code;
  }

  abbrev pub set_rearmed : Record → Record
  set_rearmed r = record r {
    stage = staged;
    available_at = now;
    confirmed_at = none;
    error_code = [];
  }

  module _ (bound : Bool) (select reply : Reply) (id : Identity) (hash : Bytes)
      (rs : List Record) where
    unfoldable pub published : ℤ → Written
    unfolding locked
    published wait =
        if beyond_minute wait
        then (err bad_arguments, rs)
        else with_locked rs (locked bound select id hash rs) (λ r.
          if is_confirmed r.stage || is_held r.stage
          then (ok tt, rs)
          else write reply id (set_published wait r.requires_receipt) rs)

    unfoldable pub confirm_receipt : Written
    unfolding locked
    confirm_receipt =
        with_locked rs (locked bound select id hash rs) (λ r.
          if not r.requires_receipt then (err mismatch, rs) else write reply id set_receipt rs)

    unfoldable pub retry_later : ℤ → Bytes → Written
    unfolding locked
    retry_later delay code =
        if beyond_minute delay
        then (err bad_arguments, rs)
        else with_locked rs (locked bound select id hash rs) (λ r.
          if is_confirmed r.stage || is_held r.stage
          then (ok tt, rs)
          else write reply id (set_failed delay code) rs)

    unfoldable pub hold : Bytes → Written
    unfolding locked
    hold code =
        with_locked rs (locked bound select id hash rs)
          (λ r. if is_confirmed r.stage then (ok tt, rs) else write reply id (set_held code) rs)

    unfoldable pub rearm_ack : Written
    unfolding locked
    rearm_ack = with_locked rs (locked bound select id hash rs) (λ r.
        if r.requires_receipt
        then (err mismatch, rs)
        else if is_held r.stage
        then (ok tt, rs)
        else write reply id set_rearmed rs)

-- One call, with what it meets outside.
pub record Call : Type 0 where
  pub now : ℕ
  pub bound : Bool
  pub select : Reply
  pub reply : Reply
  pub id : Identity
  pub hash : Bytes

pub data Op : Type 0 where
  publish_op : Call → ℤ → Op
  confirm_op : Call → Op
  retry_op : Call → ℤ → Bytes → Op
  hold_op : Call → Bytes → Op
  rearm_op : Call → Op

unfoldable pub run : Op → List Record → List Record
run (publish_op c wait) rs = (published c.now c.bound c.select c.reply c.id c.hash rs wait).1
run (confirm_op c) rs = (confirm_receipt c.now c.bound c.select c.reply c.id c.hash rs).1
run (retry_op c delay code) rs =
    (retry_later c.now c.bound c.select c.reply c.id c.hash rs delay code).1
run (hold_op c code) rs = (hold c.now c.bound c.select c.reply c.id c.hash rs code).1
run (rearm_op c) rs = (rearm_ack c.now c.bound c.select c.reply c.id c.hash rs).1

unfoldable pub run_all : List Op → List Record → List Record
unfolding run
run_all [] rs = rs
run_all (op ∷ ops) rs = run_all ops (run op rs)

abbrev pub is_unfinished : Stage → Bool
is_unfinished staged = true
is_unfinished awaiting_receipt = true
is_unfinished _ = false

-- The row that the subquery of `Pending` looks for.
abbrev pub blocks : Record → Record → Bool
blocks n older =
    bytes_eq older.identity.producer n.identity.producer
    && bytes_eq older.identity.destination n.identity.destination
    && bytes_eq older.aggregate_key n.aggregate_key
    && older.ordered
    && not (is_confirmed older.stage)
    && ltb older.aggregate_sequence n.aggregate_sequence

unfoldable pub any_blocks : Record → List Record → Bool
any_blocks n [] = false
any_blocks n (r ∷ rs) = blocks n r || any_blocks n rs

abbrev pub eligible : ℕ → List Record → Record → Bool
eligible now rs n =
    is_unfinished n.stage && leb n.available_at now && (not n.ordered || not (any_blocks n rs))

-- ORDER BY available_at, message_id: byte strings in their binary order
unfoldable pub text_leb : Bytes → Bytes → Bool
text_leb [] ys = true
text_leb (x ∷ xs) [] = false
text_leb (x ∷ xs) (y ∷ ys) = ltb x y || (x == y && text_leb xs ys)

abbrev pub earlier : Record → Record → Bool
earlier r s =
    ltb r.available_at s.available_at
    || (r.available_at == s.available_at && text_leb r.identity.message_id s.identity.message_id)

unfoldable pub insert_by_time : Record → List Record → List Record
insert_by_time r [] = r ∷ []
insert_by_time r (s ∷ ss) =
    let rest = insert_by_time r ss in if earlier r s then r ∷ s ∷ ss else s ∷ rest

-- The rows of `rs` that are eligible in the table, in their order.
unfoldable pub eligible_rows : ℕ → List Record → List Record → List Record
eligible_rows now table [] = []
eligible_rows now table (r ∷ rs) =
    let rest = eligible_rows now table rs in
    if eligible now table r then insert_by_time r rest else rest

unfoldable pub pending : Bool → Reply → ℕ → ℤ → List Record → Result DeliveryError (List Record)
unfolding eligible_rows
pending bound select now limit rs =
    if not bound || ltb_ℤ limit (pos 1) || ltb_ℤ (pos 100) limit
    then err bad_arguments
    else if not (is_answered select)
    then err driver_failed
    else ok (take (pos_part limit) (eligible_rows now rs rs))
