-- ===== src/Examples/Plans.antt =====
-- transaction/ and its theorems, on a plan of two branches.
use reliable_messaging.Base.Framing.{length_prefixed}
use reliable_messaging.Message.{preimage, fingerprint_of, is_valid}
use reliable_messaging.Base.{some, ◌≡◌, ◌≢◌, ◌⊎◌, refl, ok, err, arith, List, Option, map, false}
use reliable_messaging.Base.Bytes.{put_uint64, bytes_eq, valid_utf8, literal}
use reliable_messaging.Transaction.Plan.{
  PlanInput, FrozenPlan, branch_values, seen, check_branches, required, new_plan, plan_preimage,
  digest_of, plan_valid, match_request, input_conflict,
}
use reliable_messaging.Transaction.Plan.Checks.{IsPlan, new_plan-eq-ok_iff, match_request_cases}
use reliable_messaging.Transaction.Plan.Digest.{SamePlan, HasDigests, new_plan-digest_binds}
use reliable_messaging.Transaction.Checker.{check, check_iff}
use reliable_messaging.Transaction.Evidence.{
  Reference, rollback, find_branch, reference, ref_eq, State, Evidence, reference_to, committed,
  aborted, ref_valid, resolve, commit, local_aborted,
}
use reliable_messaging.Transaction.Evidence.Resolve.{proof_of, resolve_iff}
use reliable_messaging.Transaction.Execution.{
  request_for, request_match, references_of, agree, decide_first, Execution, references,
  decide_local, validate_advance,
}
use reliable_messaging.Transaction.Execution.References.{references-eq-map}
use reliable_messaging.Transaction.Execution.Decide.{IsProof, decide_local_iff}
use reliable_messaging.Transaction.Execution.Advance.{IsAdvance, validate_advance_iff}
use reliable_messaging.Examples.Data.{env, env-Sized, branch, plan_input, plan, thirty_two}

pub new_plan-plan : new_plan env plan_input ≡ ok plan
unfolding new_plan required valid_utf8 check_branches seen is_valid bytes_eq
new_plan-plan = refl

plan_input-IsPlan : IsPlan plan_input
plan_input-IsPlan = ((new_plan-eq-ok_iff env plan_input plan).0 new_plan-plan).0

new_plan-eq-ok_iff_example :
    IsPlan plan_input × (plan ≡ record { input = plan_input; digest = digest_of env plan_input })
new_plan-eq-ok_iff_example = (new_plan-eq-ok_iff env plan_input plan).0 new_plan-plan

match_request_cases_example :
    match_request plan (literal "shop") (literal "eu") (literal "key") (thirty_two 6)
    ≡ err input_conflict
unfolding plan_valid
match_request_cases_example =
    (match_request_cases plan (literal "shop") (literal "eu") (literal "key") (thirty_two 6)).1.1
      (refl, (refl, refl, refl), λ e. cc)

plan_input-HasDigests : HasDigests plan_input
unfolding fingerprint_of
plan_input-HasDigests = record { hash_sized = refl; fingerprints_sized = (refl, (refl, tt)) }

-- A plan of another owner, whose bytes have the same checksum.
abbrev other_input : PlanInput
other_input = record plan_input { owner = literal "hops" }

abbrev other_plan : FrozenPlan
other_plan = record { input = other_input; digest = digest_of env other_input }

new_plan-other : new_plan env other_input ≡ ok other_plan
unfolding new_plan required valid_utf8 check_branches seen is_valid bytes_eq
new_plan-other = refl

other_input-HasDigests : HasDigests other_input
unfolding fingerprint_of
other_input-HasDigests = record { hash_sized = refl; fingerprints_sized = (refl, (refl, tt)) }

same_digest : plan.digest ≡ other_plan.digest
unfolding digest_of plan_preimage branch_values length_prefixed put_uint64 fingerprint_of preimage
same_digest = refl

new_plan-digest_binds_example :
    SamePlan env plan_input other_input
    ⊎ ((plan_preimage env plan_input ≢ plan_preimage env other_input)
        × (env.sha256 (plan_preimage env plan_input) ≡ env.sha256 (plan_preimage env other_input)))
new_plan-digest_binds_example =
    new_plan-digest_binds env plan_input other_input plan other_plan env-Sized new_plan-plan
      new_plan-other plan_input-HasDigests other_input-HasDigests same_digest

abbrev execution : Execution
execution = record {
  plan = plan;
  fence = 3;
  writer_epoch = literal "e1";
  token = thirty_two 9;
  lease_until = 1000;
}

references-eq-map_example :
    references env execution
    ≡ map (λ b. reference_to env plan b 3 (literal "e1")) plan_input.branches
unfolding plan_valid valid_utf8
references-eq-map_example =
    references-eq-map env execution refl (omega arith) (omega arith)
      (record { present = omega arith; utf8 = refl }) plan_input-IsPlan

abbrev both : State → List (Option Evidence)
both s = map (λ r. proof_of r s) (references env execution)

resolve_iff_example :
    (resolve (reference_to env plan (record branch { id = literal "b2" }) 3 (literal "e1")) (
      proof_of
        (reference_to env plan (record branch { id = literal "b2" }) 3 (literal "e1"))
        committed))
    ≡ commit
unfolding ref_valid required valid_utf8
resolve_iff_example =
    let r = reference_to env plan (record branch { id = literal "b2" }) 3 (literal "e1") in
    (resolve_iff r (proof_of r committed)).0.1 (refl, refl)

aborts : decide_local (references env execution) (both aborted) ≡ local_aborted
unfolding decide_local decide_first agree resolve ref_valid ref_eq references references_of
    reference find_branch plan_valid required valid_utf8 bytes_eq is_valid digest_of fingerprint_of
    plan_preimage length_prefixed put_uint64 branch_values preimage
aborts = refl

decide_local_iff_example : IsProof (references env execution) (both aborted) aborted
decide_local_iff_example = (decide_local_iff (references env execution) (both aborted)).1.0 aborts

-- A retry of the same plan over the aborted execution.
retries : validate_advance env execution plan (both aborted) false ≡ ok tt
unfolding validate_advance request_match request_for match_request decide_local decide_first agree
    resolve ref_valid ref_eq references references_of reference find_branch plan_valid required
    valid_utf8 bytes_eq is_valid digest_of fingerprint_of plan_preimage length_prefixed put_uint64
    branch_values preimage
retries = refl

validate_advance_iff_example : IsAdvance env execution plan (both aborted) false
validate_advance_iff_example =
    (validate_advance_iff env execution plan (both aborted) false).0 retries

abbrev pub half_message : Reference
half_message = reference_to env plan branch 3 (literal "e1")

check_iff_example : check (some (λ r. ok (proof_of r aborted))) half_message ≡ rollback
unfolding ref_valid required valid_utf8
check_iff_example = (check_iff (λ r. ok (proof_of r aborted)) half_message).1.1 (refl, refl)
