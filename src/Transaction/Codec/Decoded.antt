-- ===== src/Transaction/Codec/Decoded.antt =====
-- transaction/codec.go: what `DecodePlan` returns was accepted by `NewPlan`, from any bytes.
use reliable_messaging.Base.{
  Bool, true, false, not, ◌||◌, List, [], ◌∷◌, Option, none, some, ◌≡◌, refl, arith, All, sym, ap,
  Bool-cases, inl, inr, length, ltb, ◌==◌, Result, ok, err, ◌>>=◌, reject_if, >>-eq-ok, >>=-eq-ok,
}
use mathlib.Core.Path.{subst}
use reliable_messaging.Base.Bytes.{Bytes, bytes_eq_iff}
use reliable_messaging.Base.Text.{hex}
use reliable_messaging.Env.{Env}
use reliable_messaging.Message.{Message, MessageError, new}
use reliable_messaging.Message.Validity.{new-eq-ok_iff}
use reliable_messaging.Transaction.Plan.{
  BranchInput, PlanInput, FrozenPlan, TransactionError, invalid_plan, new_plan,
}
use reliable_messaging.Transaction.Plan.Checks.{new_plan-eq-ok_iff}
use reliable_messaging.Transaction.Codec.{
  Json, StoredBranch, StoredPlan, CodecError, refused, codec_version, decoded, read_digest,
  read_branches, with_message, input_of, checked_plan, read_plan, decode_plan, max_plan_bytes,
}
use reliable_messaging.Transaction.Codec.Plans.{IsFrozen}

module _ (env : Env) where
  read_branches-IsFrozen :
      (ss : List StoredBranch) (bs : List BranchInput)
      → read_branches env ss ≡ ok bs
      → All (IsFrozen env) bs
  unfolding read_branches
  read_branches-IsFrozen [] bs h = let e : [] ≡ bs = cc in rw (sym e) tt
  read_branches-IsFrozen (s ∷ ss) bs h =
      go (new env s.message) refl (read_branches env ss) refl (read_branches-IsFrozen ss) h
    where
      go :
          (x : Result MessageError Message)
          → new env s.message ≡ x
          → (y : Result CodecError (List BranchInput)) → read_branches env ss ≡ y
          → ((more : List BranchInput) → read_branches env ss ≡ ok more → All (IsFrozen env) more)
          → with_message env x (λ m. y >>= λ more. ok (
              record {
                id = s.id;
                physical_topic = s.physical_topic;
                route_revision = s.revision;
                message = m;
                wire = s.wire;
              }
              ∷ more))
            ≡ ok bs
          → All (IsFrozen env) bs
      go (err e) ex y ey rest h' = cc
      go (ok m) ex (err e) ey rest h' = cc
      go (ok m) ex (ok more) ey rest h' =
          let same : m.input ≡ s.message =
            ap (λ (n : Message). n.input) ((new-eq-ok_iff env s.message m).0 ex).1 in
          let e : record {
            id = s.id;
            physical_topic = s.physical_topic;
            route_revision = s.revision;
            message = m;
            wire = s.wire;
          }
                ∷ more
              ≡ bs =
            cc in
          rw (sym e) (subst (λ i. new env i ≡ ok m) (sym same) ex, rest more ey)

  checked_plan-eq-ok :
      (digest : Bytes) (x : Result TransactionError FrozenPlan) (p : FrozenPlan)
      → checked_plan env digest x ≡ ok p
      → (x ≡ ok p) × (digest ≡ hex p.digest)
  checked_plan-eq-ok digest (err e) p h = cc
  checked_plan-eq-ok digest (ok q) p h = ground (arith, bytes_eq_iff digest (hex q.digest))

  new_plan-input : (i : PlanInput) (p : FrozenPlan) → new_plan env i ≡ ok p → p.input ≡ i
  new_plan-input i p h = ap (λ (q : FrozenPlan). q.input) ((new_plan-eq-ok_iff env i p).0 h).1

  read_plan-eq-ok :
      (s : StoredPlan) (p : FrozenPlan)
      → read_plan env s ≡ ok p
      → (new_plan env p.input ≡ ok p)
        × All (IsFrozen env) p.input.branches
        × (s.digest ≡ hex p.digest)
  unfolding read_plan
  read_plan-eq-ok s p h =
      let (_, h₁) =
        >>-eq-ok (reject_if (not (s.version == codec_version)) (refused invalid_plan)) _ h in
      let (hash, _, h₂) = >>=-eq-ok (read_digest s.input_hash) _ h₁ in
      let (bs, e, h₃) = >>=-eq-ok (read_branches env s.branches) _ h₂ in
      let (made, same) = checked_plan-eq-ok s.digest (new_plan env (input_of env s hash bs)) p h₃ in
      let input = sym (new_plan-input (input_of env s hash bs) p made) in
      (
        subst (λ i. new_plan env i ≡ ok p) input made,
        subst (λ i. All (IsFrozen env) i.branches) input (read_branches-IsFrozen s.branches bs e),
        same,
      )

  decoded-eq-ok :
      (x : Option (StoredPlan × Bool)) (p : FrozenPlan)
      → decoded x (read_plan env) ≡ ok p
      → (s : StoredPlan) × (x ≡ some (s, true)) × (read_plan env s ≡ ok p)
  decoded-eq-ok none p h = cc
  decoded-eq-ok (some (s, true)) p h = (s, refl, h)
  decoded-eq-ok (some (s, false)) p h = cc

  -- Whatever the bytes, a plan that `DecodePlan` returns is one that `NewPlan` makes of its own input,
  -- its messages are those that `New` makes of theirs, and the bytes carry its digest.
  pub decode_plan_sound :
      (json : Json) (bytes : Bytes) (p : FrozenPlan)
      → decode_plan env json bytes ≡ ok p
      → (new_plan env p.input ≡ ok p)
        × All (IsFrozen env) p.input.branches
        × ((s : StoredPlan) × (json.decode_plan bytes ≡ some (s, true)) × (s.digest ≡ hex p.digest))
  unfolding decode_plan
  decode_plan_sound json bytes p h =
      elim (Bool-cases (length bytes == 0 || ltb max_plan_bytes (length bytes))) [
        | inl bad ↦ absurd (cc (rw bad at h))
        | inr good ↦
            let (s, found, e) = decoded-eq-ok (json.decode_plan bytes) p (rw good at h) in
            let (made, frozen, same) = read_plan-eq-ok s p e in (made, frozen, (s, found, same))
      ]
