-- ===== src/Transaction/Codec/Plans.antt =====
-- transaction/codec.go: a stored plan is read back as it was, digest and fingerprints included.
use reliable_messaging.Base.{
  ◌≤◌, false, ◌||◌, List, [], ◌∷◌, some, ◌≡◌, refl, arith, All, Option-cases, inl, inr, length, ltb,
  ◌==◌, ok,
}
use reliable_messaging.Base.Bytes.{Bytes, bytes_eq_refl}
use reliable_messaging.Base.Text.{hex}
use reliable_messaging.Base.Hex.{hex-valid_utf8}
use reliable_messaging.Env.{Env}
use reliable_messaging.Message.{Input, new}
use reliable_messaging.Message.Validity.{IsWellFormed, new-eq-ok_iff}
use reliable_messaging.Transaction.Plan.{BranchInput, FrozenPlan, new_plan}
use reliable_messaging.Transaction.Plan.Checks.{AreBranches, new_plan-eq-ok_iff}
use reliable_messaging.Transaction.Codec.{
  Json, stored_branches, stored_plan, read_branches, read_plan, encode_plan, decode_plan,
  max_plan_bytes,
}
use reliable_messaging.Transaction.Codec.Faithful.{
  IsFaithful, IsDigest, AreTexts, IsBranchText, IsPlanText, message_texts, read_digest-hex,
}

-- A message as `New` makes it.
abbrev pub IsFrozen : Env → BranchInput → Type 0
IsFrozen env b = new env b.message.input ≡ ok b.message

module _ (env : Env) where
  IsWellFormed-texts : (m : Input) → IsWellFormed env m → AreTexts (message_texts m)
  IsWellFormed-texts m w = (
    w.producer_field.utf8,
    (
      w.id_field.utf8,
      (
        w.destination_field.utf8,
        (
          w.event_type_field.utf8,
          (
            w.schema_version_field.utf8,
            (w.scope_field.utf8, (w.content_type_field.utf8, (w.occurred_at_field.utf8, tt))),
          ),
        ),
      ),
    ),
  )

  stored_branches-texts :
      (scope : Bytes) (ids : List Bytes) (bs : List BranchInput)
      → AreBranches scope ids bs
      → All (IsFrozen env) bs
      → All IsBranchText (stored_branches bs)
  unfolding stored_branches
  stored_branches-texts scope ids [] wf f = tt
  stored_branches-texts scope ids (b ∷ bs) wf f = (
    (
      (wf.0.id_text.utf8, (wf.0.topic_text.utf8, (wf.0.revision_text.utf8, tt))),
      IsWellFormed-texts b.message.input ((new-eq-ok_iff env b.message.input b.message).0 f.0).0,
    ),
    stored_branches-texts scope (b.id ∷ ids) bs wf.2 f.1,
  )

  read_branches-stored_branches :
      (bs : List BranchInput)
      → All (IsFrozen env) bs
      → read_branches env (stored_branches bs) ≡ ok bs
  unfolding read_branches stored_branches
  read_branches-stored_branches [] f = refl
  read_branches-stored_branches (b ∷ bs) f = rw (f.0, read_branches-stored_branches bs f.1)

  module _ (p : FrozenPlan) (accepted : new_plan env p.input ≡ ok p)
      (frozen : All (IsFrozen env) p.input.branches) (hashed : IsDigest p.input.input_hash)
      (digested : IsDigest p.digest) where
    stored_plan-texts : IsPlanText (stored_plan p)
    unfolding stored_plan
    stored_plan-texts =
        let wf = ((new_plan-eq-ok_iff env p.input p).0 accepted).0 in
        (
          (
            wf.owner_text.utf8,
            (
              wf.scope_text.utf8,
              (
                wf.operation_text.utf8,
                (
                  wf.key_text.utf8,
                  (
                    hex-valid_utf8 p.input.input_hash hashed.bytes,
                    (hex-valid_utf8 p.digest digested.bytes, tt),
                  ),
                ),
              ),
            ),
          ),
          stored_branches-texts p.input.scope [] p.input.branches wf.branches_wf frozen,
        )

    read_plan-stored_plan : read_plan env (stored_plan p) ≡ ok p
    unfolding read_plan stored_plan
    read_plan-stored_plan = rw (
      read_digest-hex p.input.input_hash hashed,
      read_branches-stored_branches p.input.branches frozen,
      accepted,
      bytes_eq_refl (hex p.digest),
    )

    encode_plan-parts :
        (json : Json) (bytes : Bytes)
        → encode_plan json p ≡ ok bytes
        → (json.marshal_plan (stored_plan p) ≡ some bytes) × (length bytes ≤ max_plan_bytes)
    unfolding encode_plan
    encode_plan-parts json bytes h = elim (Option-cases (json.marshal_plan (stored_plan p))) [
      | inl gone ↦ absurd (ground (arith, gone))
      | inr (made, e) ↦ ground (arith, e)
    ]

    -- If encoding/json is faithful, `DecodePlan` returns exactly the plan that `EncodePlan` wrote, for
    -- any plan that `NewPlan` made of messages that `New` made, whose digests are arrays of 32 bytes.
    pub decode_plan-encode_plan :
        (json : Json) (bytes : Bytes)
        → IsFaithful json
        → encode_plan json p ≡ ok bytes
        → decode_plan env json bytes ≡ ok p
    unfolding decode_plan
    decode_plan-encode_plan json bytes faithful h =
        let (made, small) = encode_plan-parts json bytes h in
        let (present, back) = faithful.plan_trip (stored_plan p) bytes stored_plan-texts made in
        let nonempty : (length bytes == 0 || ltb max_plan_bytes (length bytes)) ≡ false =
          ground arith in
        rw (nonempty, back) read_plan-stored_plan
