-- ===== src/Storage/Mysql/Operations.antt =====
-- storage/mysql/: one step of the table is one operation of an appender or a store, with what it
-- meets outside: the clock, the answers of the database, the locks of others, the random bytes.
use reliable_messaging.Base.{ℕ, Bool, List, [], ◌∷◌}
use reliable_messaging.Base.Bytes.{Bytes}
use reliable_messaging.Base.Int.{ℤ}
use reliable_messaging.Env.{Env}
use reliable_messaging.Message.{Message}
use reliable_messaging.Outbox.{Claim}
use reliable_messaging.Storage.Mysql.Rows.{Table, Reply}
use reliable_messaging.Storage.Mysql.Append.{append, ConfirmedRequeue, requeue_confirmed}
use reliable_messaging.Storage.Mysql.Write.{confirm, retry, quarantine}
use reliable_messaging.Storage.Mysql.Claim.{ClaimIo, claim_due}

pub data Op : Type 0 where
  append_message : (now : ℕ) (insert select : Reply) (bound : Bool) (m : Message) (due : ℕ) → Op
  requeue : (now : ℕ) (reply : Reply) (bound : Bool) (q : ConfirmedRequeue) → Op
  claim : (io : ClaimIo) (now : ℕ) (locked : ℕ → Bool) (limit lease : ℤ) → Op
  confirm_claim : (now : ℕ) (reply : Reply) (c : Claim) → Op
  retry_claim : (now : ℕ) (reply : Reply) (c : Claim) (delay : ℤ) (code : Bytes) → Op
  quarantine_claim : (now : ℕ) (reply : Reply) (c : Claim) (code : Bytes) → Op

unfoldable pub run : Env → Op → Table → Table
run env (append_message now insert select bound m due) t =
    (append now insert select bound m due t).1
run env (requeue now reply bound q) t = (requeue_confirmed env now reply bound q t).1
run env (claim io now locked limit lease) t = (claim_due env io now locked limit lease t).1
run env (confirm_claim now reply c) t = (confirm now reply c t).1
run env (retry_claim now reply c delay code) t = (retry now reply c delay code t).1
run env (quarantine_claim now reply c code) t = (quarantine now reply c code t).1

unfoldable pub run_all : Env → List Op → Table → Table
unfolding run
run_all env [] t = t
run_all env (op ∷ ops) t = run_all env ops (run env op t)
