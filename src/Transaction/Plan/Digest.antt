-- ===== src/Transaction/Plan/Digest.antt =====
-- transaction/plan.go: the digest binds every field of the plan, the branches in their order, their
-- business fingerprints, routes and wire bytes.
use reliable_messaging.Base.{
  ◌≢◌, ◌≡◌, ◌⊎◌, inl, inr, refl, List, [], ◌∷◌, arith, length, All, append-cancel, ok, Bool-cases,
}
use reliable_messaging.Base.Bytes.{Bytes, put_uint64, put_uint64-injective, bytes_eq, bytes_eq_iff}
use reliable_messaging.Base.Framing.{Short, length_prefixed-cons, length_prefixed-injective}
use reliable_messaging.Env.{Env, Sized}
use reliable_messaging.Transaction.Plan.{
  BranchInput, PlanInput, FrozenPlan, branch_values, plan_domain, plan_preimage, digest_of,
  new_plan,
}
use reliable_messaging.Transaction.Plan.Checks.{IsPlan, AreBranches, new_plan-eq-ok_iff}

-- Digests are arrays of 32 bytes.
abbrev pub Has32 : Bytes → Type 0
Has32 v = length v ≡ 32

pub record HasDigests (p : PlanInput) : Type 0 where
  pub hash_sized : Has32 p.input_hash
  pub fingerprints_sized : All (λ b. Has32 b.message.fingerprint) p.branches

module _ (env : Env) where
  -- The branches agree in all that the digest binds, in their order.
  abbrev pub SameBranches : List BranchInput → List BranchInput → Type 0
  SameBranches [] [] = Unit
  SameBranches [] (c ∷ cs) = ⊥
  SameBranches (b ∷ bs) [] = ⊥
  SameBranches (b ∷ bs) (c ∷ cs) =
      ((b.id ≡ c.id)
        × (b.message.fingerprint ≡ c.message.fingerprint)
        × (b.physical_topic ≡ c.physical_topic)
        × (b.route_revision ≡ c.route_revision)
        × (env.sha256 b.wire ≡ env.sha256 c.wire))
      × SameBranches bs cs

  pub record SamePlan (p q : PlanInput) : Type 0 where
    pub same_owner : p.owner ≡ q.owner
    pub same_scope : p.scope ≡ q.scope
    pub same_operation : p.operation_id ≡ q.operation_id
    pub same_key : p.idempotency_key ≡ q.idempotency_key
    pub same_hash : p.input_hash ≡ q.input_hash
    pub same_branches : SameBranches p.branches q.branches

  branch_values-Short :
      (scope : Bytes) (ids : List Bytes) (bs : List BranchInput)
      → Sized env
      → AreBranches scope ids bs
      → All (λ b. Has32 b.message.fingerprint) bs
      → All Short (branch_values env bs)
  unfolding branch_values
  branch_values-Short scope ids [] sized wf fps = tt
  branch_values-Short scope ids (b ∷ bs) sized wf fps =
      let w : length (env.sha256 b.wire) ≡ 32 = sized b.wire in
      (
        omega arith,
        (
          omega arith,
          (
            omega arith,
            (
              omega arith,
              (omega arith, branch_values-Short scope (b.id ∷ ids) bs sized wf.2 fps.1),
            ),
          ),
        ),
      )

  branch_values-SameBranches :
      (bs cs : List BranchInput)
      → length bs ≡ length cs
      → branch_values env bs ≡ branch_values env cs
      → SameBranches bs cs
  unfolding branch_values
  branch_values-SameBranches [] [] n e = tt
  branch_values-SameBranches [] (c ∷ cs) n e = absurd (omega arith)
  branch_values-SameBranches (b ∷ bs) [] n e = absurd (omega arith)
  branch_values-SameBranches (b ∷ bs) (c ∷ cs) n e =
      ((cc, cc, cc, cc, cc), branch_values-SameBranches bs cs (omega arith) (cc))

  length-branch_values :
      (bs cs : List BranchInput)
      → length bs ≡ length cs
      → length (branch_values env bs) ≡ length (branch_values env cs)
  unfolding branch_values
  length-branch_values [] [] n = refl
  length-branch_values [] (c ∷ cs) n = absurd (omega arith)
  length-branch_values (b ∷ bs) [] n = absurd (omega arith)
  length-branch_values (b ∷ bs) (c ∷ cs) n = omega (arith, length-branch_values bs cs (omega arith))

  plan_preimage-SamePlan :
      (p q : PlanInput)
      → Sized env
      → IsPlan p
      → IsPlan q
      → HasDigests p
      → HasDigests q
      → plan_preimage env p ≡ plan_preimage env q
      → SamePlan p q
  unfolding plan_preimage
  plan_preimage-SamePlan p q sized wp wq dp dq e =
      let t = append-cancel plan_domain plan_domain _ _ refl e in
      let a = length_prefixed-cons p.owner q.owner _ _ (omega arith) (omega arith) t.1 in
      let b = length_prefixed-cons p.scope q.scope _ _ (omega arith) (omega arith) a.1 in
      let c =
        length_prefixed-cons p.operation_id q.operation_id _ _ (omega arith) (omega arith) b.1 in
      let d =
        length_prefixed-cons p.idempotency_key q.idempotency_key _ _ (omega arith) (omega arith)
          c.1 in
      let f = length_prefixed-cons p.input_hash q.input_hash _ _ (omega arith) (omega arith) d.1 in
      let g =
        length_prefixed-cons (put_uint64 (length p.branches)) (put_uint64 (length q.branches)) _ _
          (unfold put_uint64 in omega arith) (unfold put_uint64 in omega arith) f.1 in
      let count =
        put_uint64-injective (length p.branches) (length q.branches) (omega arith) (omega arith)
          g.0 in
      let values =
        length_prefixed-injective (branch_values env p.branches) (branch_values env q.branches)
          (length-branch_values p.branches q.branches count)
          (branch_values-Short p.scope [] p.branches sized wp.branches_wf dp.fingerprints_sized)
          (branch_values-Short q.scope [] q.branches sized wq.branches_wf dq.fingerprints_sized)
          g.1 in
      record {
        same_owner = a.0;
        same_scope = b.0;
        same_operation = c.0;
        same_key = d.0;
        same_hash = f.0;
        same_branches = branch_values-SameBranches p.branches q.branches count values;
      }

  -- Where digests have 32 bytes, two accepted plans with one digest agree in all that the digest
  -- binds, or their digested bytes are a collision of the hash function.
  pub new_plan-digest_binds :
      (p q : PlanInput) (f g : FrozenPlan)
      → Sized env
      → new_plan env p ≡ ok f
      → new_plan env q ≡ ok g
      → HasDigests p
      → HasDigests q
      → f.digest ≡ g.digest
      → SamePlan p q
        ⊎ ((plan_preimage env p ≢ plan_preimage env q)
            × (env.sha256 (plan_preimage env p) ≡ env.sha256 (plan_preimage env q)))
  unfolding digest_of
  new_plan-digest_binds p q f g sized hp hq dp dq e =
      let (wp, ep) = (new_plan-eq-ok_iff env p f).0 hp in
      let (wq, eq) = (new_plan-eq-ok_iff env q g).0 hq in
      elim (Bool-cases (bytes_eq (plan_preimage env p) (plan_preimage env q))) [
        | inl same ↦ inl (plan_preimage-SamePlan p q sized wp wq dp dq ((bytes_eq_iff _ _).0 same))
        | inr differ ↦
            inr
              (λ same. ground (arith, bytes_eq_iff (plan_preimage env p) (plan_preimage env q)), cc)
      ]
