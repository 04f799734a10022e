-- ===== src/Transaction/Receipt.antt =====
-- transaction/receipt.go: half receipts and final outcomes.
use reliable_messaging.Base.{
  Bool, true, false, not, ◌&&◌, ◌||◌, [], ◌∷◌, ltb, leb, if◌then◌else◌, length, Result, ok, err,
}
use reliable_messaging.Base.Bytes.{Bytes, valid_utf8}
use reliable_messaging.Transaction.Plan.{TransactionError, invalid_plan, required}
use reliable_messaging.Transaction.Evidence.{
  State, committed, aborted, HalfOutcome, half_prepared, half_rejected, half_unknown, FinalOutcome,
  commit_confirmed, rollback_confirmed, final_unknown,
}

pub record HalfReceipt : Type 0 where
  pub outcome : HalfOutcome
  pub broker_message_id : Bytes
  pub broker_transaction_id : Bytes
  pub error_code : Bytes

abbrev pub receipt_outcome_valid : HalfOutcome → Bytes → Bytes → Bool
receipt_outcome_valid half_prepared message_id transaction_id =
    required (message_id ∷ transaction_id ∷ [])
receipt_outcome_valid half_unknown message_id transaction_id = true
receipt_outcome_valid half_rejected message_id transaction_id = true
receipt_outcome_valid _ message_id transaction_id = false

unfoldable pub receipt_valid : HalfReceipt → Bool
receipt_valid h =
    if ltb 512 (length h.broker_message_id)
      || ltb 4096 (length h.broker_transaction_id)
      || ltb 128 (length h.error_code)
      || not (valid_utf8 h.error_code)
    then false
    else receipt_outcome_valid h.outcome h.broker_message_id h.broker_transaction_id

unfoldable pub recovery_final_state : FinalOutcome → Result TransactionError State
recovery_final_state commit_confirmed = ok committed
recovery_final_state rollback_confirmed = ok aborted
recovery_final_state _ = err invalid_plan

abbrev pub known_final : FinalOutcome → Bool
known_final commit_confirmed = true
known_final rollback_confirmed = true
known_final final_unknown = true
known_final _ = false

unfoldable pub valid_final : FinalOutcome → Bytes → Bool
valid_final f code = leb (length code) 128 && valid_utf8 code && known_final f
