-- ===== src/Transaction/Execution/References.antt =====
-- transaction/store.go: an execution has one reference for each branch of its plan, in order.
use reliable_messaging.Base.{
  ℕ, ◌<◌, ◌≤◌, true, List, [], ◌∷◌, ◌≡◌, ◌≢◌, refl, arith, All, map, ok, sym, ◌∙◌, ◌++◌,
}
use reliable_messaging.Base.Bytes.{Bytes, bytes_eq_iff, bytes_eq_refl}
use mathlib.Core.List.{append_assoc}
use reliable_messaging.Env.{Env}
use reliable_messaging.Transaction.Plan.{BranchInput, FrozenPlan, plan_valid, max_fence, required}
use reliable_messaging.Transaction.Plan.Checks.{IsText, AreBranches, IsPlan, All-required}
use reliable_messaging.Transaction.Evidence.{Reference, reference_to, find_branch, reference}
use reliable_messaging.Transaction.Execution.{Execution, references_of, references}

-- No branch of the list has the identifier.
abbrev Avoids : Bytes → List BranchInput → Type 0
Avoids id bs = All (λ b. b.id ≢ id) bs

-- One more branch of another identifier.
Avoids-snoc :
    (id : Bytes) (pre : List BranchInput) (b : BranchInput)
    → Avoids id pre
    → b.id ≢ id
    → Avoids id (pre ++ b ∷ [])
Avoids-snoc id [] b none ne = (ne, tt)
Avoids-snoc id (x ∷ pre) b none ne = (none.0, Avoids-snoc id pre b none.1 ne)

module _ (env : Env) (p : FrozenPlan) (fence : ℕ) (epoch : Bytes) where
  -- The search for a branch passes over the branches before it, which have other identifiers.
  find_branch-append :
      (pre : List BranchInput) (b : BranchInput) (bs : List BranchInput)
      → Avoids b.id pre
      → find_branch env p b.id fence epoch (pre ++ b ∷ bs) ≡ ok (reference_to env p b fence epoch)
  unfolding find_branch
  find_branch-append [] b bs h = rw (bytes_eq_refl b.id)
  find_branch-append (x ∷ pre) b bs h =
      ground (arith, bytes_eq_iff x.id b.id, h.0, find_branch-append pre b bs h.1)

module _ (env : Env) (e : Execution) (plan_ok : plan_valid e.plan ≡ true) (fence_pos : 0 < e.fence)
    (fence_max : e.fence ≤ max_fence) (epoch_text : IsText e.writer_epoch) where
  abbrev expected : BranchInput → Reference
  expected b = reference_to env e.plan b e.fence e.writer_epoch

  epoch_required : required (e.writer_epoch ∷ []) ≡ true
  epoch_required = All-required (e.writer_epoch ∷ []) (epoch_text, tt)

  reference-eq :
      (b : BranchInput)
      → find_branch env e.plan b.id e.fence e.writer_epoch e.plan.input.branches ≡ ok (expected b)
      → reference env e.plan b.id e.fence e.writer_epoch ≡ ok (expected b)
  unfolding reference
  reference-eq b h = ground (arith, epoch_required)

  references_of-eq :
      (scope : Bytes) (ids : List Bytes) (pre bs : List BranchInput)
      → e.plan.input.branches ≡ pre ++ bs
      → ((id : Bytes) → All (λ x. id ≢ x) ids → Avoids id pre)
      → AreBranches scope ids bs
      → references_of env e bs ≡ map expected bs
  unfolding references_of
  references_of-eq scope ids pre [] split avoid wf = refl
  references_of-eq scope ids pre (b ∷ bs) split avoid wf =
      let found = find_branch-append env e.plan e.fence e.writer_epoch pre b bs (avoid b.id wf.1) in
      let rest =
        references_of-eq scope (b.id ∷ ids) (pre ++ b ∷ []) bs
          (split ∙ sym (append_assoc pre (b ∷ []) bs))
          (λ id h. Avoids-snoc id pre b (avoid id h.1) (λ s. h.0 (sym s))) wf.2 in
      rw (reference-eq b (simp split found), rest)

  -- Under a fence from 1 to the maximum and a writer epoch, a valid and well-formed plan gives each
  -- of its branches its own reference, in the order of the branches.
  pub references-eq-map :
      IsPlan e.plan.input → references env e ≡ map expected e.plan.input.branches
  unfolding references
  references-eq-map wf =
      let all =
        references_of-eq e.plan.input.scope [] [] e.plan.input.branches refl (λ id h. tt)
          wf.branches_wf in
      ground (arith, epoch_required, all)
