-- ===== src/Storage/Transactions/Evolution.antt =====
-- storage/transaction/mysql/: what no statement of the store changes. Executions and witnesses stay
-- under their keys, and a state that is not prepared is final.
use reliable_messaging.Base.{◌≤◌, true, false, List, some, ◌≡◌, refl, ◌∙◌, arith}
use reliable_messaging.Base.Bytes.{Bytes}
use reliable_messaging.Storage.Transactions.Rows.{
  ExecutionRow, WitnessRow, Tables, find_where, count_where, has_key, has_keys,
}
use reliable_messaging.Storage.Transactions.Ending.{is_prepared}

pub record Evolves (r s : ExecutionRow) : Type 0 where
  pub same_key : s.execution_key ≡ r.execution_key
  pub same_request : s.request_key ≡ r.request_key
  pub same_owner : s.owner ≡ r.owner
  pub same_operation : s.operation_id ≡ r.operation_id
  pub same_epoch : s.writer_epoch ≡ r.writer_epoch
  pub same_fence : s.fence ≡ r.fence
  pub same_token : s.token ≡ r.token
  pub same_plan : s.plan ≡ r.plan
  pub same_lease : s.lease_until ≡ r.lease_until
  pub settled : is_prepared r.state ≡ false → s.state ≡ r.state
  pub started_kept : r.prepare_started ≡ true → s.prepare_started ≡ true
  pub guard_grows : r.guard_version ≤ s.guard_version

pub record Follows (w v : WitnessRow) : Type 0 where
  pub same_key : v.execution_key ≡ w.execution_key
  pub same_branch : v.branch_key ≡ w.branch_key
  pub same_reference : v.reference ≡ w.reference
  pub settled : is_prepared w.state ≡ false → v.state ≡ w.state

pub Evolves-refl : (r : ExecutionRow) → Evolves r r
Evolves-refl r = record {
  same_key = refl;
  same_request = refl;
  same_owner = refl;
  same_operation = refl;
  same_epoch = refl;
  same_fence = refl;
  same_token = refl;
  same_plan = refl;
  same_lease = refl;
  settled = λ h. refl;
  started_kept = λ h. h;
  guard_grows = omega arith;
}

pub Evolves-trans : (r s u : ExecutionRow) → Evolves r s → Evolves s u → Evolves r u
Evolves-trans r s u p q = record {
  same_key = q.same_key ∙ p.same_key;
  same_request = q.same_request ∙ p.same_request;
  same_owner = q.same_owner ∙ p.same_owner;
  same_operation = q.same_operation ∙ p.same_operation;
  same_epoch = q.same_epoch ∙ p.same_epoch;
  same_fence = q.same_fence ∙ p.same_fence;
  same_token = q.same_token ∙ p.same_token;
  same_plan = q.same_plan ∙ p.same_plan;
  same_lease = q.same_lease ∙ p.same_lease;
  settled = λ h. let e = p.settled h in let e₂ = q.settled (rw e h) in e₂ ∙ e;
  started_kept = λ h. q.started_kept (p.started_kept h);
  guard_grows = omega (arith, p.guard_grows, q.guard_grows);
}

pub Follows-refl : (w : WitnessRow) → Follows w w
Follows-refl w = record {
  same_key = refl;
  same_branch = refl;
  same_reference = refl;
  settled = λ h. refl;
}

pub Follows-trans : (w v x : WitnessRow) → Follows w v → Follows v x → Follows w x
Follows-trans w v x p q = record {
  same_key = q.same_key ∙ p.same_key;
  same_branch = q.same_branch ∙ p.same_branch;
  same_reference = q.same_reference ∙ p.same_reference;
  settled = λ h. let e = p.settled h in let e₂ = q.settled (rw e h) in e₂ ∙ e;
}

-- The primary key of the executions.
pub record IsKeyed (rows : List ExecutionRow) : Type 0 where
  pub at_most_one : (key : Bytes) → count_where (has_key key) rows ≤ 1

abbrev pub Kept : List ExecutionRow → List ExecutionRow → Type 0
Kept rs ss =
    (key : Bytes) (r : ExecutionRow)
    → find_where (has_key key) rs ≡ some r
    → (s : ExecutionRow) × (find_where (has_key key) ss ≡ some s) × Evolves r s

abbrev pub Followed : List WitnessRow → List WitnessRow → Type 0
Followed ws vs =
    (key branch : Bytes) (w : WitnessRow)
    → find_where (has_keys key branch) ws ≡ some w
    → (v : WitnessRow) × (find_where (has_keys key branch) vs ≡ some v) × Follows w v

pub record Moved (t u : Tables) : Type 0 where
  pub same_bindings : u.bindings ≡ t.bindings
  pub executions_kept : Kept t.executions u.executions
  pub witnesses_kept : Followed t.witnesses u.witnesses
  pub keys_kept : IsKeyed t.executions → IsKeyed u.executions

Kept-refl : (rs : List ExecutionRow) → Kept rs rs
Kept-refl rs key r h = (r, h, Evolves-refl r)

Followed-refl : (ws : List WitnessRow) → Followed ws ws
Followed-refl ws key branch w h = (w, h, Follows-refl w)

pub Moved-refl : (t : Tables) → Moved t t
Moved-refl t = record {
  same_bindings = refl;
  executions_kept = Kept-refl t.executions;
  witnesses_kept = Followed-refl t.witnesses;
  keys_kept = λ h. h;
}

pub Moved-trans : (t u v : Tables) → Moved t u → Moved u v → Moved t v
Moved-trans t u v p q = record {
  same_bindings = q.same_bindings ∙ p.same_bindings;
  executions_kept = λ key r h.
      let (s, e, rs) = p.executions_kept key r h in
      let (x, f, sx) = q.executions_kept key s e in (x, f, Evolves-trans r s x rs sx);
  witnesses_kept = λ key branch w h.
      let (y, e, wy) = p.witnesses_kept key branch w h in
      let (x, f, yx) = q.witnesses_kept key branch y e in (x, f, Follows-trans w y x wy yx);
  keys_kept = λ h. q.keys_kept (p.keys_kept h);
}
