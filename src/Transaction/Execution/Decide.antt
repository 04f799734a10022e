-- ===== src/Transaction/Execution/Decide.antt =====
-- transaction/store.go: the local outcome needs every exact witness, and an advance needs the exact
-- prior execution aborted.
use reliable_messaging.Base.{
  ◌<◌, true, List, [], ◌∷◌, ◌≡◌, ◌↔◌, refl, arith, All, map, sym, ap, ◌∙◌, Option, length,
  length-map,
}
use reliable_messaging.Base.Bytes.{bytes_eq_iff}
use reliable_messaging.Transaction.Evidence.{
  State, committed, aborted, Decision, unknown, commit, rollback, local_committed, local_aborted,
  Reference, ref_valid, Evidence, resolve,
}
use reliable_messaging.Transaction.Evidence.Resolve.{proof_of, resolve_iff}
use reliable_messaging.Transaction.Execution.{
  same_execution, decision_eq, agree, decide_first, decide_local,
}

-- The reference `s` names the execution that `r` names: one owner, scope, operation, fence, writer
-- epoch and plan.
pub record SameExecution (r s : Reference) : Type 0 where
  pub same_owner : s.owner ≡ r.owner
  pub same_scope : s.scope ≡ r.scope
  pub same_operation : s.operation_id ≡ r.operation_id
  pub same_fence : s.fence ≡ r.fence
  pub same_epoch : s.writer_epoch ≡ r.writer_epoch
  pub same_plan : s.plan_digest ≡ r.plan_digest

same_execution_sound : (s r : Reference) → same_execution s r ≡ true → SameExecution r s
same_execution_sound s r h = ground (
  arith,
  bytes_eq_iff s.owner r.owner,
  bytes_eq_iff s.scope r.scope,
  bytes_eq_iff s.operation_id r.operation_id,
  bytes_eq_iff s.writer_epoch r.writer_epoch,
  bytes_eq_iff s.plan_digest r.plan_digest,
)

same_execution_complete : (s r : Reference) → SameExecution r s → same_execution s r ≡ true
same_execution_complete s r h = ground (
  arith,
  bytes_eq_iff s.owner r.owner,
  bytes_eq_iff s.scope r.scope,
  bytes_eq_iff s.operation_id r.operation_id,
  bytes_eq_iff s.writer_epoch r.writer_epoch,
  bytes_eq_iff s.plan_digest r.plan_digest,
)

-- What the loop over the other references has established.
record Agreed (first : Reference) (s : State) (rs : List Reference) (es : List (Option Evidence))
    : Type 0 where
  alike : All (SameExecution first) rs
  valid : All (λ r. ref_valid r ≡ true) rs
  proofs : es ≡ map (λ r. proof_of r s) rs

decision_eq-eq : (d e : Decision) → decision_eq d e ≡ true → d ≡ e
decision_eq-eq unknown unknown h = refl
decision_eq-eq commit commit h = refl
decision_eq-eq rollback rollback h = refl
decision_eq-eq unknown commit h = cc
decision_eq-eq unknown rollback h = cc
decision_eq-eq commit unknown h = cc
decision_eq-eq commit rollback h = cc
decision_eq-eq rollback unknown h = cc
decision_eq-eq rollback commit h = cc

decision_eq_refl : (d : Decision) → decision_eq d d ≡ true
decision_eq_refl unknown = refl
decision_eq_refl commit = refl
decision_eq_refl rollback = refl

-- The state that a terminal decision reports.
module _ (first : Reference) (d : Decision) (s : State)
    (exact : (r : Reference) (e : Option Evidence)
      → (resolve r e ≡ d) ↔ ((ref_valid r ≡ true) × (e ≡ proof_of r s))) where
  agree-Agreed :
      (rs : List Reference) (es : List (Option Evidence))
      → length rs ≡ length es
      → agree first d rs es ≡ true
      → Agreed first s rs es
  unfolding agree
  agree-Agreed [] [] n h = record { alike = tt; valid = tt; proofs = refl }
  agree-Agreed [] (e ∷ es) n h = absurd (omega arith)
  agree-Agreed (r ∷ rs) [] n h = absurd (omega arith)
  agree-Agreed (r ∷ rs) (e ∷ es) n h =
      let same : same_execution r first ≡ true = ground arith in
      let found : resolve r e ≡ d = decision_eq-eq (resolve r e) d (ground arith) in
      let rest = agree-Agreed rs es (omega arith) (ground arith) in
      let (v, p) = (exact r e).0 found in
      record {
        alike = (same_execution_sound r first same, rest.alike);
        valid = (v, rest.valid);
        proofs = cc (p, rest.proofs);
      }

  Agreed-agree :
      (rs : List Reference) (es : List (Option Evidence))
      → Agreed first s rs es
      → agree first d rs es ≡ true
  unfolding agree
  Agreed-agree [] es a = refl
  Agreed-agree (r ∷ rs) [] a = absurd (cc (a.proofs))
  Agreed-agree (r ∷ rs) (e ∷ es) a =
      let found : resolve r e ≡ d = (exact r e).1 (a.valid.0, cc (a.proofs)) in
      let rest =
        Agreed-agree rs es
          (record { alike = a.alike.1; valid = a.valid.1; proofs = cc (a.proofs) }) in
      rw (same_execution_complete r first a.alike.0, found, decision_eq_refl d, rest)

-- All references name the execution of the first.
abbrev pub OneExecution : List Reference → Type 0
OneExecution [] = Unit
OneExecution (r ∷ rs) = All (SameExecution r) rs

-- The evidence proves that every branch is in the state, and for one execution.
pub record IsProof (rs : List Reference) (es : List (Option Evidence)) (s : State) : Type 0 where
  pub some_branch : 0 < length rs
  pub one_execution : OneExecution rs
  pub all_valid : All (λ r. ref_valid r ≡ true) rs
  pub exact_proofs : es ≡ map (λ r. proof_of r s) rs

local_of_decision :
    (r : Reference) (e : Option Evidence) (rs : List Reference) (es : List (Option Evidence))
    → ((decide_first r e rs es ≡ local_committed)
        ↔ ((resolve r e ≡ commit) × (agree r commit rs es ≡ true)))
      × ((decide_first r e rs es ≡ local_aborted)
          ↔ ((resolve r e ≡ rollback) × (agree r rollback rs es ≡ true)))
unfolding decide_first
local_of_decision r e rs es = ground arith

module _ (d : Decision) (s : State)
    (exact : (r : Reference) (e : Option Evidence)
      → (resolve r e ≡ d) ↔ ((ref_valid r ≡ true) × (e ≡ proof_of r s))) where
  first-IsProof :
      (r : Reference) (e : Option Evidence) (rs : List Reference) (es : List (Option Evidence))
      → length rs ≡ length es
      → (resolve r e ≡ d) × (agree r d rs es ≡ true)
      → IsProof (r ∷ rs) (e ∷ es) s
  first-IsProof r e rs es n h =
      let (v, p) = (exact r e).0 h.0 in
      let a = agree-Agreed r d s exact rs es n h.1 in
      record {
        some_branch = omega arith;
        one_execution = a.alike;
        all_valid = (v, a.valid);
        exact_proofs = cc (p, a.proofs);
      }

  IsProof-first :
      (r : Reference) (e : Option Evidence) (rs : List Reference) (es : List (Option Evidence))
      → IsProof (r ∷ rs) (e ∷ es) s
      → (length rs ≡ length es) × (resolve r e ≡ d) × (agree r d rs es ≡ true)
  IsProof-first r e rs es p =
      let tail : es ≡ map (λ q. proof_of q s) rs = cc (p.exact_proofs) in
      (
        sym (ap length tail ∙ length-map (λ q. proof_of q s) rs),
        (exact r e).1 (p.all_valid.0, cc (p.exact_proofs)),
        Agreed-agree r d s exact rs es
            (record { alike = p.one_execution; valid = p.all_valid.1; proofs = tail }),
      )

not-nil-IsProof :
    (e : Option Evidence) (es : List (Option Evidence)) (s : State) → ¬ IsProof [] (e ∷ es) s
not-nil-IsProof e es s p = omega (arith, p.some_branch)

-- The local outcome is committed exactly if the evidence proves every branch of one execution
-- committed, and aborted exactly if it proves every branch aborted. One execution means one owner,
-- scope, operation, fence, writer epoch and plan.
pub decide_local_iff :
    (rs : List Reference) (es : List (Option Evidence))
    → ((decide_local rs es ≡ local_committed) ↔ IsProof rs es committed)
      × ((decide_local rs es ≡ local_aborted) ↔ IsProof rs es aborted)
unfolding decide_local
decide_local_iff [] es = (
  (λ h. cc, λ p. absurd (omega (arith, p.some_branch))),
  (λ h. cc, λ p. absurd (omega (arith, p.some_branch))),
)
decide_local_iff (r ∷ rs) [] =
    ((λ h. cc, λ p. cc (p.exact_proofs)), (λ h. cc, λ p. cc (p.exact_proofs)))
decide_local_iff (r ∷ rs) (e ∷ es) =
    let (c, a) = local_of_decision r e rs es in
    let exact_commit = λ (q : Reference) (f : Option Evidence). (resolve_iff q f).0 in
    let exact_abort = λ (q : Reference) (f : Option Evidence). (resolve_iff q f).1 in
    (
      (
        λ h.
            first-IsProof commit committed exact_commit r e rs es (ground arith)
              (c.0 (ground arith)),
        λ p.
            let (n, x, y) = IsProof-first commit committed exact_commit r e rs es p in
            ground (arith, c.1 (x, y), n),
      ),
      (
        λ h.
            first-IsProof rollback aborted exact_abort r e rs es (ground arith)
              (a.0 (ground arith)),
        λ p.
            let (n, x, y) = IsProof-first rollback aborted exact_abort r e rs es p in
            ground (arith, a.1 (x, y), n),
      ),
    )
