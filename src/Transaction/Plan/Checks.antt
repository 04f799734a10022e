-- ===== src/Transaction/Plan/Checks.antt =====
-- transaction/plan.go: what an accepted plan satisfies, and when a request matches a plan.
use reliable_messaging.Base.{
  ◌<◌, ◌≤◌, true, false, List, [], ◌∷◌, ◌≡◌, ◌≢◌, refl, ◌↔◌, arith, length, All, ok, err,
  length-is_empty, is_empty-length,
}
use reliable_messaging.Base.Bytes.{Bytes, valid_utf8, bytes_eq_iff}
use reliable_messaging.Env.{Env}
use reliable_messaging.Message.{is_valid}
use reliable_messaging.Transaction.Plan.{
  BranchInput, PlanInput, FrozenPlan, required, seen, check_branches, new_plan, digest_of,
  plan_valid, match_request, input_conflict,
}

-- Text that is present, in UTF-8.
pub record IsText (v : Bytes) : Type 0 where
  pub present : 0 < length v
  pub utf8 : valid_utf8 v ≡ true

pub record IsBranch (scope : Bytes) (b : BranchInput) : Type 0 where
  pub id_text : IsText b.id
  pub topic_text : IsText b.physical_topic
  pub revision_text : IsText b.route_revision
  pub id_bounded : length b.id ≤ 128
  pub topic_bounded : length b.physical_topic ≤ 255
  pub revision_bounded : length b.route_revision ≤ 128
  pub message_valid : is_valid b.message ≡ true
  pub wire_present : 0 < length b.wire
  pub same_scope : b.message.input.scope ≡ scope

-- Each branch is well formed, and its identifier is not among those before it.
abbrev pub AreBranches : Bytes → List Bytes → List BranchInput → Type 0
AreBranches scope ids [] = Unit
AreBranches scope ids (b ∷ bs) =
    IsBranch scope b × All (λ x. b.id ≢ x) ids × AreBranches scope (b.id ∷ ids) bs

pub record IsPlan (p : PlanInput) : Type 0 where
  pub owner_text : IsText p.owner
  pub scope_text : IsText p.scope
  pub operation_text : IsText p.operation_id
  pub key_text : IsText p.idempotency_key
  pub owner_bounded : length p.owner ≤ 128
  pub scope_bounded : length p.scope ≤ 255
  pub operation_bounded : length p.operation_id ≤ 128
  pub key_bounded : length p.idempotency_key ≤ 1024
  pub some_branches : 0 < length p.branches
  pub few_branches : length p.branches ≤ 16
  pub branches_wf : AreBranches p.scope [] p.branches

pub required-All : (vs : List Bytes) → required vs ≡ true → All IsText vs
unfolding required
required-All [] h = tt
required-All ([] ∷ vs) h = cc
required-All ((x ∷ v) ∷ vs) h = ground (arith, required-All vs)

pub All-required : (vs : List Bytes) → All IsText vs → required vs ≡ true
unfolding required
All-required [] h = refl
All-required ([] ∷ vs) h = absurd (omega arith)
All-required ((x ∷ v) ∷ vs) h = ground (arith, All-required vs h.1)

seen-false : (id : Bytes) (ids : List Bytes) → seen id ids ≡ false → All (λ x. id ≢ x) ids
unfolding seen
seen-false id [] h = tt
seen-false id (x ∷ ids) h =
    (λ e. ground (arith, bytes_eq_iff id x), seen-false id ids (ground arith))

All-seen : (id : Bytes) (ids : List Bytes) → All (λ x. id ≢ x) ids → seen id ids ≡ false
unfolding seen
All-seen id [] h = refl
All-seen id (x ∷ ids) h = ground (arith, bytes_eq_iff id x, h.0, All-seen id ids h.1)

required-parts :
    (b : BranchInput)
    → required (b.id ∷ b.physical_topic ∷ b.route_revision ∷ []) ≡ true
    → IsText b.id × IsText b.physical_topic × IsText b.route_revision
required-parts b h = let a = required-All _ h in (a.0, a.1.0, a.1.1.0)

check_branches-AreBranches :
    (scope : Bytes) (ids : List Bytes) (bs : List BranchInput)
    → check_branches scope ids bs ≡ true
    → AreBranches scope ids bs
unfolding check_branches
check_branches-AreBranches scope ids [] h = tt
check_branches-AreBranches scope ids (b ∷ bs) h =
    let passed : required (b.id ∷ b.physical_topic ∷ b.route_revision ∷ []) ≡ true = ground arith in
    let fresh : seen b.id ids ≡ false = ground arith in
    let (i, t, r) = required-parts b passed in
    (
      record {
        id_text = i;
        topic_text = t;
        revision_text = r;
        id_bounded = ground arith;
        topic_bounded = ground arith;
        revision_bounded = ground arith;
        message_valid = ground arith;
        wire_present = is_empty-length b.wire (ground arith);
        same_scope = ground (arith, bytes_eq_iff b.message.input.scope scope);
      },
      seen-false b.id ids fresh,
      check_branches-AreBranches scope (b.id ∷ ids) bs (ground arith),
    )

AreBranches-check_branches :
    (scope : Bytes) (ids : List Bytes) (bs : List BranchInput)
    → AreBranches scope ids bs
    → check_branches scope ids bs ≡ true
unfolding check_branches
AreBranches-check_branches scope ids [] h = refl
AreBranches-check_branches scope ids (b ∷ bs) h = ground (
  arith,
  All-required (b.id ∷ b.physical_topic ∷ b.route_revision ∷ [])
      (h.0.id_text, (h.0.topic_text, (h.0.revision_text, tt))),
  All-seen b.id ids h.1,
  bytes_eq_iff b.message.input.scope scope,
  length-is_empty b.wire h.0.wire_present,
  AreBranches-check_branches scope (b.id ∷ ids) bs h.2,
)

-- `NewPlan` accepts exactly the well-formed plan inputs, and freezes the input with its digest.
pub new_plan-eq-ok_iff :
    (env : Env) (p : PlanInput) (f : FrozenPlan)
    → (new_plan env p ≡ ok f) ↔ (IsPlan p × (f ≡ record { input = p; digest = digest_of env p }))
unfolding new_plan
new_plan-eq-ok_iff env p f = (
  λ h.
      let heads : required (p.owner ∷ p.scope ∷ p.operation_id ∷ p.idempotency_key ∷ []) ≡ true =
        ground arith in
      let a = required-All _ heads in
      (
        record {
          owner_text = a.0;
          scope_text = a.1.0;
          operation_text = a.1.1.0;
          key_text = a.1.1.1.0;
          owner_bounded = ground arith;
          scope_bounded = ground arith;
          operation_bounded = ground arith;
          key_bounded = ground arith;
          some_branches = ground arith;
          few_branches = ground arith;
          branches_wf = check_branches-AreBranches p.scope [] p.branches (ground arith);
        },
        ground arith,
      ),
  λ h. ground (
    arith,
    All-required (p.owner ∷ p.scope ∷ p.operation_id ∷ p.idempotency_key ∷ [])
        (h.0.owner_text, (h.0.scope_text, (h.0.operation_text, (h.0.key_text, tt)))),
    AreBranches-check_branches p.scope [] p.branches h.0.branches_wf,
  ),
)

-- A request matches exactly the valid plans of its owner, scope, key and business input; a plan of
-- another identity is told apart from one of the same identity and other input.
pub match_request_cases :
    (p : FrozenPlan) (owner scope key hash : Bytes)
    → let same =
        (p.input.owner ≡ owner) × (p.input.scope ≡ scope) × (p.input.idempotency_key ≡ key) in
      ((match_request p owner scope key hash ≡ ok tt)
        ↔ ((plan_valid p ≡ true) × same × (p.input.input_hash ≡ hash)))
      × ((match_request p owner scope key hash ≡ err input_conflict)
          ↔ ((plan_valid p ≡ true) × same × (p.input.input_hash ≢ hash)))
unfolding match_request
match_request_cases p owner scope key hash = grind (
  arith,
  bytes_eq_iff p.input.owner owner,
  bytes_eq_iff p.input.scope scope,
  bytes_eq_iff p.input.idempotency_key key,
  bytes_eq_iff p.input.input_hash hash,
)
