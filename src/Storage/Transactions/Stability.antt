-- ===== src/Storage/Transactions/Stability.antt =====
-- storage/transaction/mysql/: what the broker's check learns does not change any more once it is an
-- outcome.
use reliable_messaging.Base.{
  Bool, true, false, not, Option, none, some, ◌≡◌, ◌≢◌, refl, arith, ◌||◌, Bool-cases, inl, inr,
  if◌then◌else◌, Result, ok, err,
}
use reliable_messaging.Base.Bytes.{Bytes, bytes_eq}
use reliable_messaging.Env.{Env}
use reliable_messaging.Transaction.Plan.{binding_mismatch}
use reliable_messaging.Transaction.Evidence.{
  committed, aborted, Decision, unknown, commit, rollback, Reference, ref_valid, Evidence,
}
use reliable_messaging.Transaction.Execution.{Binding, execution_key}
use reliable_messaging.Transaction.Checker.{EvidenceError, unavailable, Lookup, check, check_iff}
use reliable_messaging.Transaction.Codec.{Json, CodecError, decode_reference}
use reliable_messaging.Storage.Transactions.Rows.{
  BindingRow, ExecutionRow, WitnessRow, Tables, find_where, has_key, has_keys,
}
use reliable_messaging.Storage.Transactions.Monad.{TxError, protocol}
use reliable_messaging.Storage.Transactions.Reading.{
  evidence_of, bound_evidence, joined, bound_here, join_evidence, evidence, branch_key_of,
}
use reliable_messaging.Storage.Transactions.Ending.{is_prepared}
use reliable_messaging.Storage.Transactions.Evolution.{Evolves, Follows, Moved}
use reliable_messaging.Storage.Transactions.Steps.{Steps, Steps-Moved}

abbrev pub answer_of : Result TxError (Option Evidence) → Result EvidenceError (Option Evidence)
answer_of (ok e) = ok e
answer_of (err f) = err unavailable

-- The store's `Evidence` as the checker calls it.
abbrev pub answers : Env → Json → Binding → Bool → Tables → Lookup
answers env json s failed t r = answer_of (evidence env json s failed r t)

-- Evidence of two terminal states.
record IsTerminal (e : Evidence) : Type 0 where
  execution_ends : is_prepared e.execution_state ≡ false
  branch_ends : is_prepared e.branch_state ≡ false

module _ (e e' : ExecutionRow) (w w' : WitnessRow) (later : Evolves e e')
    (after : Follows w w') where
  evidence_of-stays :
      (o : Result CodecError Reference) (x : Evidence)
      → IsTerminal x
      → evidence_of e w o ≡ ok (some x)
      → evidence_of e' w' o ≡ ok (some x)
  evidence_of-stays (ok r) x ends h =
      let same₁ : e.state ≡ x.execution_state = cc in
      let same₂ : w.state ≡ x.branch_state = cc in
      let stay₁ : e'.state ≡ e.state = later.settled (rw same₁ ends.execution_ends) in
      let stay₂ : w'.state ≡ w.state = after.settled (rw same₂ ends.branch_ends) in cc
  evidence_of-stays (err f) x ends h = cc

  bound_evidence-stays :
      (json : Json) (b : Option BindingRow) (x : Evidence)
      → IsTerminal x
      → bound_evidence json e w b ≡ ok (some x)
      → bound_evidence json e' w' b ≡ ok (some x)
  bound_evidence-stays json none x ends h = cc
  bound_evidence-stays json (some b) x ends h =
      rw (after.same_reference) (evidence_of-stays (decode_reference json w.reference) x ends h)

joined_rows :
    (json : Json) (oe : Option ExecutionRow) (ow : Option WitnessRow)
    (bound : Bytes → Option BindingRow) (x : Evidence)
    → joined json oe ow bound ≡ ok (some x)
    → (e : ExecutionRow) × (w : WitnessRow) × (oe ≡ some e)
      × (ow ≡ some w)
      × (bound_evidence json e w (bound e.owner) ≡ ok (some x))
joined_rows json none ow bound x h = absurd (cc)
joined_rows json (some e) none bound x h = absurd (cc)
joined_rows json (some e) (some w) bound x h = (e, w, refl, refl, h)

join_evidence-stays :
    (env : Env) (json : Json) (s : Binding) (key branch : Bytes) (t u : Tables) (x : Evidence)
    → Moved t u
    → IsTerminal x
    → join_evidence env json s key branch t ≡ ok (some x)
    → join_evidence env json s key branch u ≡ ok (some x)
unfolding join_evidence
join_evidence-stays env json s key branch t u x m ends h =
    let (e, w, at_e, at_w, bound) =
      joined_rows json (find_where (has_key key) t.executions)
        (find_where (has_keys key branch) t.witnesses)
        (λ owner. find_where (bound_here env json s owner) t.bindings) x h in
    let (e', at_e', later) = m.executions_kept key e at_e in
    let (w', at_w', after) = m.witnesses_kept key branch w at_w in
    rw at_e' (
      rw at_w' (
        rw m.same_bindings (
          rw later.same_owner (
            bound_evidence-stays e e' w w' later after json
              (find_where (bound_here env json s e.owner) t.bindings) x ends bound))))

guarded-stays :
    (b : Bool) (f : TxError) (o o' : Result TxError (Option Evidence)) (x : Evidence)
    → (o ≡ ok (some x) → o' ≡ ok (some x))
    → answer_of (if b then err f else o) ≡ ok (some x)
    → answer_of (if b then err f else o') ≡ ok (some x)
guarded-stays true f o o' x stays h = h
guarded-stays false f (ok y) o' x stays h = let e : o' ≡ ok (some x) = stays (cc) in rw e refl
guarded-stays false f (err g) o' x stays h = absurd (cc)

module _ (env : Env) (json : Json) (s : Binding) where
  evidence-stays :
      (r : Reference) (t u : Tables) (x : Evidence)
      → Moved t u
      → IsTerminal x
      → answers env json s false t r ≡ ok (some x)
      → answers env json s false u r ≡ ok (some x)
  unfolding evidence
  evidence-stays r t u x m ends h =
      guarded-stays (not (ref_valid r) || not (bytes_eq r.owner s.owner))
        (protocol binding_mismatch) _ _ x
        (join_evidence-stays env json s
          (execution_key env r.owner r.operation_id r.writer_epoch r.fence)
          (branch_key_of env json r.branch_id) t u x m ends)
        h

  failed_answers : (r : Reference) (u : Tables) → answers env json s true u r ≡ err unavailable
  unfolding evidence
  failed_answers r u = elim (Bool-cases (not (ref_valid r) || not (bytes_eq r.owner s.owner))) [
    | inl e ↦ rw e refl
    | inr e ↦ rw e refl
  ]

  check_failed : (r : Reference) (u : Tables) → check (some (answers env json s true u)) r ≡ unknown
  unfolding check
  check_failed r u = rw (failed_answers r u) (ground arith)

  -- Once the check of a reference answers commit or rollback, it answers the same after any further
  -- calls of any stores and host transactions over the tables, and unknown if its statement fails.
  pub check-stays :
      (r : Reference) (d : Decision) (t u : Tables) (failed : Bool)
      → Steps env json t u
      → check (some (answers env json s false t)) r ≡ d
      → d ≢ unknown
      → check (some (answers env json s failed u)) r ≡ (if failed then unknown else d)
  check-stays r d t u true steps h known = check_failed r u
  check-stays r commit t u false steps h known =
      let (valid, found_one) = (check_iff (answers env json s false t) r).0.0 h in
      let still =
        evidence-stays r t u
          (record { about = r; execution_state = committed; branch_state = committed })
          (Steps-Moved env json t u steps) (record { execution_ends = refl; branch_ends = refl })
          found_one in
      (check_iff (answers env json s false u) r).0.1 (valid, still)
  check-stays r rollback t u false steps h known =
      let (valid, found_one) = (check_iff (answers env json s false t) r).1.0 h in
      let still =
        evidence-stays r t u
          (record { about = r; execution_state = aborted; branch_state = aborted })
          (Steps-Moved env json t u steps) (record { execution_ends = refl; branch_ends = refl })
          found_one in
      (check_iff (answers env json s false u) r).1.1 (valid, still)
  check-stays r unknown t u false steps h known = absurd (known refl)
