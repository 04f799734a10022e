-- ===== src/Storage/Transactions/Monad.antt =====
-- storage/transaction/mysql/: statements in a database transaction. A statement fails or has its
-- effect; the first error ends the body and rolls all back; a commit may take effect although its
-- acknowledgement is lost.
use reliable_messaging.Base.{ℕ, suc, Bool, true, false, Option, Result, ok, err, if◌then◌else◌}
use reliable_messaging.Base.Bytes.{Bytes}
use reliable_messaging.Transaction.Plan.{TransactionError}
use reliable_messaging.Transaction.Codec.{CodecError}
use reliable_messaging.Storage.Mysql.Rows.{Reply, is_answered, is_applied}
use reliable_messaging.Storage.Transactions.Rows.{Tables}

-- A sentinel of package transaction, an error of the codecs, `sql.ErrNoRows`, a duplicate key, and
-- the other errors of the driver and of the random source.
pub data TxError : Type 0 where
  protocol : TransactionError → TxError
  codec : CodecError → TxError
  no_rows duplicate driver_failed random_failed : TxError

-- What a call meets outside: which statement fails (the first, with number 0, is `BeginTx`), the
-- answer to `Commit`, whether an explicit `Rollback` fails, the database clock, and the random bytes.
pub record TxIo : Type 0 where
  pub fails : ℕ → Bool
  pub commit : Reply
  pub rollback_fails : Bool
  pub now : ℕ
  pub entropy : Option Bytes

abbrev pub Tx : Type 0 → Type 0
Tx A = TxIo → ℕ → Tables → Result TxError (A × ℕ × Tables)

unfoldable pub pure : {A : Type 0} → A → Tx A
pure a io k t = ok (a, k, t)

unfoldable pub fail : {A : Type 0} → TxError → Tx A
fail e io k t = err e

abbrev pub continue :
    {A B : Type 0}
    → Result TxError (A × ℕ × Tables)
    → (A → Tx B)
    → TxIo
    → Result TxError (B × ℕ × Tables)
continue (err e) f io = err e
continue (ok (a, k, t)) f io = f a io k t

infixl 5 ◌>>=◌ ◌>>◌
unfoldable pub ◌>>=◌ : {A B : Type 0} → Tx A → (A → Tx B) → Tx B
unfolding pure fail
◌>>=◌ m f io k t = continue (m io k t) f io

abbrev pub ◌>>◌ : {B : Type 0} → Tx (Unit {0}) → Tx B → Tx B
m >> rest = m >>= (λ done. rest)

unfoldable pub reject : Bool → TxError → Tx (Unit {0})
reject true e io k t = err e
reject false e io k t = ok (tt, k, t)

-- A value or error that needs no statement.
unfoldable pub lift : {A : Type 0} → Result TxError A → Tx A
lift (ok a) io k t = ok (a, k, t)
lift (err e) io k t = err e

-- A statement that reads.
unfoldable pub query : {A : Type 0} → (Tables → Result TxError A) → Tx A
unfolding lift
query q io k t = if io.fails k then err driver_failed else lift (q t) io (suc k) t

abbrev pub stepped :
    {A : Type 0} → ℕ → Result TxError (A × Tables) → Result TxError (A × ℕ × Tables)
stepped k (ok (a, t)) = ok (a, suc k, t)
stepped k (err e) = err e

-- A statement that writes.
unfoldable pub exec : {A : Type 0} → (Tables → Result TxError (A × Tables)) → Tx A
exec w io k t = if io.fails k then err driver_failed else stepped k (w t)

-- The end of a transaction whose body has run.
abbrev pub finished :
    {A : Type 0} → Reply → Tables → Result TxError (A × ℕ × Tables) → Result TxError A × Tables
finished reply t (err e) = (err e, t)
finished reply t (ok (a, k, u)) =
    (if is_answered reply then ok a else err driver_failed, if is_applied reply then u else t)

-- BeginTx, the body, Commit; Rollback behind any error.
unfoldable pub in_transaction : {A : Type 0} → TxIo → Tx A → Tables → Result TxError A × Tables
in_transaction io body t =
    if io.fails 0 then (err driver_failed, t) else finished io.commit t (body io 1 t)

abbrev pub value_of : {A : Type 0} → Result TxError (A × ℕ × Tables) → Result TxError A
value_of (err e) = err e
value_of (ok (a, k, t)) = ok a

-- BeginTx and a body that only reads; Rollback.
unfoldable pub in_reading : {A : Type 0} → TxIo → Tx A → Tables → Result TxError A
in_reading io body t = if io.fails 0 then err driver_failed else value_of (body io 1 t)
