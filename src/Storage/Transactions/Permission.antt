-- ===== src/Storage/Transactions/Permission.antt =====
-- storage/transaction/mysql/store.go: what the tables show when `advance` permits a new execution.
use reliable_messaging.Base.{
  ◌*◌, Bool, false, List, [], ◌∷◌, Option, some, ◌≡◌, refl, sym, ◌∙◌, ap, arith, All, map, Result,
  ok, err,
}
use mathlib.Core.Path.{subst}
use reliable_messaging.Base.Bytes.{bytes_eq_iff}
use reliable_messaging.Env.{Env}
use reliable_messaging.Transaction.Plan.{FrozenPlan, invalid_plan}
use reliable_messaging.Transaction.Evidence.{State, aborted, Reference, Evidence}
use reliable_messaging.Transaction.Evidence.Resolve.{proof_of}
use reliable_messaging.Transaction.Execution.{
  request_for, Binding, Execution, validate_advance, references, key_digest, execution_key,
}
use reliable_messaging.Transaction.Execution.Advance.{IsAdvance, validate_advance_iff}
use reliable_messaging.Transaction.Codec.{Json, CodecError, decode_plan, decode_reference}
use reliable_messaging.Storage.Transactions.Rows.{
  RequestRow, ExecutionRow, WitnessRow, Tables, find_where, has_request_key, has_key, has_keys,
}
use reliable_messaging.Storage.Transactions.Monad.{protocol}
use reliable_messaging.Storage.Transactions.Reading.{
  Reservation, key_of, branch_key_of, scanned, scan_execution, shown,
}
use reliable_messaging.Storage.Transactions.Granting.{other_execution}
use reliable_messaging.Storage.Transactions.Inversion.{if_err, ok-injective}
use reliable_messaging.Storage.Transactions.Reads.{IsLooked, Witnessed}

module _ (env : Env) (json : Json) (s : Binding) where
  -- The tables show the previous execution as the request's active one, aborted: its row lies under
  -- the request's, and holds the previous plan, by the digest, under the previous execution's key.
  pub record IsActive (previous : Execution) (t : Tables) : Type 0 where
    pub request : RequestRow
    pub requested :
        find_where (has_request_key (key_digest env (request_for previous.plan))) t.requests
        ≡ some request
    pub stored : ExecutionRow
    pub active : find_where (has_key request.active_execution) t.executions ≡ some stored
    pub in_aborted : stored.state ≡ aborted
    pub plan : FrozenPlan
    pub of_plan : decode_plan env json stored.plan ≡ ok plan
    pub same_digest : plan.digest ≡ previous.plan.digest
    pub same_key :
        execution_key env plan.input.owner plan.input.operation_id stored.writer_epoch stored.fence
        ≡ key_of env json previous

  -- The reference's witness row lies in the tables, holds the reference, and is aborted.
  pub record IsAbortedWitness (previous : Execution) (t : Tables) (r : Reference) : Type 0 where
    pub witness : WitnessRow
    pub stored :
        find_where
          (has_keys (key_of env json previous) (branch_key_of env json r.branch_id))
          t.witnesses
        ≡ some witness
    pub holds : decode_reference json witness.reference ≡ ok r
    pub in_aborted : witness.state ≡ aborted

  -- What an advance rests on, in the tables and in the plans.
  pub record Permits (previous : Execution) (p : FrozenPlan) (replan : Bool) (t : Tables)
      : Type 0 where
    pub active : IsActive previous t
    pub all_aborted : All (IsAbortedWitness previous t) (references env previous)
    pub advances : (evidence : List (Option Evidence)) × IsAdvance env previous p evidence replan

  abbrev execution_from : ExecutionRow → FrozenPlan → Execution
  execution_from r p = record {
    plan = p;
    fence = r.fence;
    writer_epoch = r.writer_epoch;
    token = r.token;
    lease_until = r.lease_until * 1000;
  }

  scanned-parts :
      (r : ExecutionRow) (x : Result CodecError FrozenPlan) (y : Execution × State)
      → scanned env json r x ≡ ok y
      → (p : FrozenPlan) × (x ≡ ok p) × ((execution_from r p, r.state) ≡ y)
  scanned-parts r (err f) y h = absurd (cc)
  scanned-parts r (ok p) y h = (
    p,
    refl,
    ok-injective (execution_from r p, r.state) y (if_err _ (protocol invalid_plan) _ y h),
  )

  pub looked-IsActive :
      (previous : Execution) (t : Tables) (v : Reservation)
      → IsLooked env json s (request_for previous.plan) t v
      → other_execution env json s v previous ≡ false
      → IsActive previous t
  unfolding scan_execution
  looked-IsActive previous t v l same =
      let (p, decoded, scan) =
        scanned-parts l.stored (decode_plan env json l.stored.plan) l.scan l.scanned_one in
      let one : v ≡ shown env json s (execution_from l.stored p, l.stored.state) =
        l.shows ∙ ap (shown env json s) (sym scan) in
      let state : v.state ≡ aborted = ground (arith, same) in
      let key : key_of env json v.execution ≡ key_of env json previous =
        (bytes_eq_iff _ _).0 (ground (arith, same)) in
      let digest : v.execution.plan.digest ≡ previous.plan.digest =
        (bytes_eq_iff _ _).0 (ground (arith, same)) in
      record {
        request = l.request;
        requested = l.requested;
        stored = l.stored;
        active = l.active;
        in_aborted = subst (λ (x : Reservation). x.state ≡ aborted) one state;
        plan = p;
        of_plan = decoded;
        same_digest =
            subst (λ (x : Reservation). x.execution.plan.digest ≡ previous.plan.digest) one digest;
        same_key =
            subst (λ (x : Reservation). key_of env json x.execution ≡ key_of env json previous) one
              key;
      }

  witnesses-aborted :
      (previous : Execution) (state : State) (t : Tables) (rs : List Reference)
      (es : List (Option Evidence))
      → Witnessed env json s (key_of env json previous) state rs t es
      → es ≡ map (λ r. proof_of r aborted) rs
      → All (IsAbortedWitness previous t) rs
  witnesses-aborted previous state t [] es w e = tt
  witnesses-aborted previous state t (r ∷ rs) [] w e = absurd w
  witnesses-aborted previous state t (r ∷ rs) (e ∷ es) ((w, stored, actual, decoded, is_e), others)
        all =
      let about : actual ≡ r = cc (is_e, all) in
      let branch : w.state ≡ aborted = cc (is_e, all) in
      (
        record { witness = w; stored = stored; holds = decoded ∙ ap ok about; in_aborted = branch },
        witnesses-aborted previous state t rs es others (cc (all)),
      )

  pub permitted-Permits :
      (previous : Execution) (p : FrozenPlan) (replan : Bool) (t : Tables) (v : Reservation)
      (evidence : List (Option Evidence))
      → IsActive previous t
      → Witnessed env json s (key_of env json previous) v.state (references env previous) t evidence
      → validate_advance env previous p evidence replan ≡ ok tt
      → Permits previous p replan t
  permitted-Permits previous p replan t v evidence active witnessed valid =
      let advance_one = (validate_advance_iff env previous p evidence replan).0 valid in
      record {
        active = active;
        all_aborted =
            witnesses-aborted previous v.state t (references env previous) evidence witnessed
              advance_one.all_aborted.exact_proofs;
        advances = (evidence, advance_one);
      }
