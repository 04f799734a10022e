-- ===== src/Examples/Executions.antt =====
-- storage/transaction/mysql/ and its theorems, on one execution of a plan with two branches.
use reliable_messaging.Storage.Transactions.Reading.{evidence, join_evidence, binding_in}
use reliable_messaging.Base.Hex.{hex_value, unhex}
use reliable_messaging.Message.{check_fields, new, preimage, fingerprint_of, is_valid}
use reliable_messaging.Base.Text.{hex, hex_digit}
use reliable_messaging.Base.Framing.{length_prefixed}
use reliable_messaging.Base.{true, false, [], ◌∷◌, some, ◌≡◌, ◌≢◌, refl, arith, ok}
use reliable_messaging.Base.Bytes.{
  utf8_first, utf8_step, utf8_from, put_uint64, bytes_eq, valid_utf8, literal,
}
use reliable_messaging.Transaction.Plan.{
  plan_preimage, check_branches, digest_of, new_plan, seen, branch_values, required, plan_valid,
}
use reliable_messaging.Transaction.Evidence.{
  resolve, ref_valid, find_branch, ref_eq, reference, commit, Reference, reference_to,
}
use reliable_messaging.Transaction.Execution.{
  references_of, references, execution_key, execution_valid, request_for, Binding, Execution,
}
use reliable_messaging.Transaction.Codec.{
  encode_plan, read_digest, decode_plan, read_branches, read_reference, decode_reference, read_plan,
  encode_reference,
}
use reliable_messaging.Storage.Mysql.Rows.{answered}
use reliable_messaging.Storage.Transactions.Rows.{update_where, find_where, Tables, count_where}
use reliable_messaging.Storage.Transactions.Monad.{
  lift, in_transaction, exec, pure, reject, query, ◌>>=◌, TxIo,
}
use reliable_messaging.Storage.Transactions.Granting.{request_row, execution_row, witness_row}
use reliable_messaging.Storage.Transactions.Ending.{
  reconcile_once, check_witnesses, commit_witness, bind, begin_prepare_in, update_witnesses,
  update_executions, begin_prepare, abort, run_local,
}
use reliable_messaging.Storage.Transactions.Evolution.{IsKeyed}
use reliable_messaging.Storage.Transactions.Steps.{Step, stay, step, prepares, runs, reconciles}
use reliable_messaging.Storage.Transactions.Stability.{answers, check-stays}
use reliable_messaging.Transaction.Checker.{check}
use reliable_messaging.Base.Int.{pos}
use reliable_messaging.Storage.Transactions.Starting.{begin_prepare-once}
use reliable_messaging.Storage.Transactions.Once.{IsClosed, abort-closes, run_local-closes}
use reliable_messaging.Examples.Data.{env, plan, branch, thirty_two}
use reliable_messaging.Examples.Plans.{half_message}
use reliable_messaging.Examples.Packing.{pack_value, pack, unpack, packing}
use reliable_messaging.Examples.Codecs.{bytes_of, half_bytes, plan_bytes}

abbrev pub binding : Binding
binding = record { owner = literal "shop"; store_id = literal "main"; writer_epoch = literal "e1" }

abbrev pub execution : Execution
execution = record {
  plan = plan;
  fence = 3;
  writer_epoch = literal "e1";
  token = thirty_two 9;
  lease_until = 9000;
}

abbrev second_message : Reference
second_message = reference_to env plan (record branch { id = literal "b2" }) 3 (literal "e1")

abbrev pub tables : Tables
tables = record {
  bindings =
      record {
        owner = literal "shop";
        store_id = literal "main";
        writer_epoch = literal "e1";
        schema_version = 1;
      }
      ∷ [];
  requests = request_row env packing (request_for plan) execution ∷ [];
  executions = execution_row env packing (request_for plan) execution plan_bytes ∷ [];
  witnesses =
      witness_row env packing execution half_message half_bytes
      ∷ witness_row env packing execution second_message
          (bytes_of (encode_reference packing second_message))
      ∷ [];
}

abbrev pub calm : TxIo
calm = record {
  fails = λ k. false;
  commit = answered;
  rollback_fails = false;
  now = 5;
  entropy = some (thirty_two 7);
}

pub aborts : (abort env packing binding false calm execution tables).0 ≡ ok true
unfolding abort execution_valid plan_valid required valid_utf8 bytes_eq ◌>>=◌ query find_where
    update_executions count_where execution_key length_prefixed put_uint64 update_witnesses reject
aborts = refl

commits :
    (run_local env packing binding calm execution tables).0
    ≡ ok (record { execution = execution; is_committed = true })
unfolding run_local bind commit_witness check_witnesses update_witnesses references references_of
    reference find_branch ref_eq ref_valid decode_reference read_reference encode_reference pure
    execution_valid plan_valid required valid_utf8 bytes_eq in_transaction ◌>>=◌ query find_where
    update_executions reject count_where execution_key length_prefixed put_uint64 update_where
    utf8_first utf8_from utf8_step hex_value unhex hex hex_digit check_fields fingerprint_of
    is_valid new preimage exec lift binding_in decode_plan read_branches read_digest read_plan
    branch_values check_branches digest_of new_plan plan_preimage seen pack pack_value unpack
    encode_plan
commits = refl

starts : (begin_prepare env packing binding calm execution tables).0 ≡ ok tt
unfolding begin_prepare begin_prepare_in execution_valid plan_valid required valid_utf8 bytes_eq
    in_transaction ◌>>=◌ query find_where update_executions reject count_where execution_key
    length_prefixed put_uint64 update_where utf8_first utf8_from utf8_step hex_value unhex hex
    hex_digit check_fields fingerprint_of is_valid new preimage exec lift binding_in decode_plan
    read_branches read_digest read_plan branch_values check_branches digest_of new_plan
    plan_preimage seen pack pack_value unpack encode_plan
starts = refl

pub tables-IsKeyed : IsKeyed tables.executions
unfolding count_where
tables-IsKeyed = record { at_most_one = λ key. ground arith }

abort-closes_example :
    IsClosed env packing execution
      (begin_prepare env packing binding calm execution
        (abort env packing binding false calm execution tables).1).1
abort-closes_example =
    abort-closes env packing binding execution false calm tables _ tables-IsKeyed aborts
      (step _ _ stay (prepares binding calm execution))

abbrev pub committed_tables : Tables
committed_tables = (run_local env packing binding calm execution tables).1

run_local-closes_example :
    IsClosed env packing execution
      (reconcile_once env packing binding false 5 (λ i. calm) (pos 10) committed_tables).2
run_local-closes_example =
    run_local-closes env packing binding execution calm tables _
      (record { execution = execution; is_committed = true }) tables-IsKeyed commits
      (step _ _ stay (reconciles binding false 5 (λ i. calm) (pos 10)))

begin_prepare-once_example :
    (begin_prepare env packing binding calm execution
      (run_local env packing binding calm execution
        (begin_prepare env packing binding calm execution tables).1).1).0
    ≢ ok tt
begin_prepare-once_example =
    begin_prepare-once env packing binding binding execution calm calm tables _ tables-IsKeyed
      starts (step _ _ stay (runs binding calm execution))

answers_commit :
    check (some (answers env packing binding false committed_tables)) half_message ≡ commit
unfolding check evidence join_evidence resolve run_local bind commit_witness check_witnesses
    update_witnesses references references_of reference find_branch ref_eq ref_valid
    decode_reference read_reference encode_reference pure execution_valid plan_valid required
    valid_utf8 bytes_eq in_transaction ◌>>=◌ query find_where update_executions reject count_where
    execution_key length_prefixed put_uint64 update_where utf8_first utf8_from utf8_step hex_value
    unhex hex hex_digit check_fields fingerprint_of is_valid new preimage exec lift binding_in
    decode_plan read_branches read_digest read_plan branch_values check_branches digest_of new_plan
    plan_preimage seen pack pack_value unpack encode_plan
answers_commit = refl

check-stays_example :
    check
      (some (
        answers env packing binding false
          (abort env packing binding false calm execution committed_tables).1))
      half_message
    ≡ commit
check-stays_example =
    check-stays env packing binding half_message commit committed_tables _ false
      (step _ _ stay (Step.aborts binding calm execution)) answers_commit (λ e. cc)
