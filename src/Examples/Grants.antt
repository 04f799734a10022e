-- ===== src/Examples/Grants.antt =====
-- storage/transaction/mysql/: what a reservation and a retry grant, and what any calls keep, on the
-- execution of a plan with two branches.
use reliable_messaging.Storage.Transactions.Reading.{
  Reservation, lookup_in, scan_execution, binding_in,
}
use reliable_messaging.Base.Hex.{hex_value, unhex}
use reliable_messaging.Message.{check_fields, new, preimage, fingerprint_of, is_valid}
use reliable_messaging.Base.Text.{hex, hex_digit}
use reliable_messaging.Base.Framing.{length_prefixed}
use reliable_messaging.Base.{false, [], ◌≡◌, refl, ok, err, Result}
use reliable_messaging.Base.Bytes.{
  utf8_first, utf8_step, utf8_from, put_uint64, bytes_eq, valid_utf8,
}
use reliable_messaging.Transaction.Plan.{
  match_request, plan_preimage, check_branches, digest_of, new_plan, seen, branch_values, required,
  plan_valid,
}
use reliable_messaging.Transaction.Evidence.{
  resolve, ref_valid, find_branch, ref_eq, reference, aborted,
}
use reliable_messaging.Transaction.Execution.{
  request_for, validate_advance, decide_local, decide_first, agree, request_match, options_valid,
  key_digest, references_of, references, execution_key, execution_valid,
}
use reliable_messaging.Transaction.Codec.{
  encode_plan, read_digest, decode_plan, read_branches, read_reference, decode_reference, read_plan,
  encode_reference,
}
use reliable_messaging.Storage.Transactions.Rows.{
  insert_last, update_where, find_where, Tables, count_where,
}
use reliable_messaging.Storage.Transactions.Monad.{
  TxError, lift, in_transaction, exec, pure, reject, query, ◌>>=◌,
}
use reliable_messaging.Storage.Transactions.Granting.{
  reserve, advance, retry, open_request, new_execution, add_request, add_execution, add_witness,
  insert_execution, insert_witnesses, advance_in, read_witnesses, activate,
}
use reliable_messaging.Storage.Transactions.Ending.{update_witnesses, update_executions, abort}
use reliable_messaging.Storage.Transactions.Evolution.{Kept, Followed, IsKeyed}
use reliable_messaging.Storage.Transactions.Steps.{
  Steps-Kept, Steps-IsKeyed, retries, Step, stay, step,
}
use reliable_messaging.Storage.Transactions.Capability.{Reserves, reserve-returns}
use reliable_messaging.Storage.Transactions.Advancing.{Advances, advance-returns}
use reliable_messaging.Examples.Data.{env, minute, plan}
use reliable_messaging.Examples.Packing.{pack_value, pack, unpack, packing}
use reliable_messaging.Examples.Executions.{binding, execution, tables, calm, tables-IsKeyed}

abbrev reservation_of : Result TxError Reservation → Reservation
reservation_of (ok r) = r
reservation_of (err e) = record { execution = execution; acquired = false; state = aborted }

abbrev fresh : Tables
fresh = record tables { requests = []; executions = []; witnesses = [] }

abbrev first_grant : Reservation
first_grant =
    reservation_of (reserve env packing binding calm calm (request_for plan) plan minute fresh).0

reserves_one :
    (reserve env packing binding calm calm (request_for plan) plan minute fresh).0 ≡ ok first_grant
unfolding reserve request_for options_valid request_match match_request open_request new_execution
    add_request insert_last key_digest insert_execution insert_witnesses add_execution add_witness
    update_witnesses references references_of reference find_branch ref_eq ref_valid
    decode_reference read_reference encode_reference pure execution_valid plan_valid required
    valid_utf8 bytes_eq in_transaction ◌>>=◌ query find_where update_executions reject count_where
    execution_key length_prefixed put_uint64 update_where utf8_first utf8_from utf8_step hex_value
    unhex hex hex_digit check_fields fingerprint_of is_valid new preimage exec lift binding_in
    decode_plan read_branches read_digest read_plan branch_values check_branches digest_of new_plan
    plan_preimage seen pack pack_value unpack encode_plan
reserves_one = refl

reserve-returns_example :
    Reserves env packing binding plan fresh first_grant
      (reserve env packing binding calm calm (request_for plan) plan minute fresh).1
reserve-returns_example =
    reserve-returns env packing binding calm calm (request_for plan) plan minute fresh first_grant
      reserves_one

abbrev aborted_tables : Tables
aborted_tables = (abort env packing binding false calm execution tables).1

abbrev retried : Reservation
retried =
    reservation_of (advance env packing binding calm execution plan minute false aborted_tables).0

retries_one :
    (advance env packing binding calm execution plan minute false aborted_tables).0 ≡ ok retried
unfolding abort advance advance_in lookup_in scan_execution read_witnesses activate validate_advance
    decide_local decide_first agree resolve request_for options_valid request_match match_request
    new_execution insert_last key_digest insert_execution insert_witnesses add_execution add_witness
    update_witnesses references references_of reference find_branch ref_eq ref_valid
    decode_reference read_reference encode_reference pure execution_valid plan_valid required
    valid_utf8 bytes_eq in_transaction ◌>>=◌ query find_where update_executions reject count_where
    execution_key length_prefixed put_uint64 update_where utf8_first utf8_from utf8_step hex_value
    unhex hex hex_digit check_fields fingerprint_of is_valid new preimage exec lift binding_in
    decode_plan read_branches read_digest read_plan branch_values check_branches digest_of new_plan
    plan_preimage seen pack pack_value unpack encode_plan
retries_one = refl

advance-returns_example : Advances env packing binding execution plan false aborted_tables retried
advance-returns_example =
    advance-returns env packing binding calm execution plan minute false aborted_tables retried
      retries_one

Steps-Kept_example :
    Kept tables.executions aborted_tables.executions
    × Followed tables.witnesses aborted_tables.witnesses
Steps-Kept_example =
    Steps-Kept env packing tables aborted_tables
      (step _ _ stay (Step.aborts binding calm execution))

Steps-IsKeyed_example :
    IsKeyed (retry env packing binding calm execution minute aborted_tables).1.executions
Steps-IsKeyed_example =
    Steps-IsKeyed env packing tables _
      (step _ _ (step _ _ stay (Step.aborts binding calm execution))
        (retries binding calm execution minute))
      tables-IsKeyed
