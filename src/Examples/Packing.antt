-- ===== src/Examples/Packing.antt =====
-- A faithful encoding, in the place of JSON: each value of a list is ended by 0, and its elements are
-- raised by one.
use reliable_messaging.Base.{
  ℕ, zero, suc, ◌<◌, Bool, true, List, [], ◌∷◌, Option, none, some, ◌≡◌, refl, arith, length, ap,
  map, ◌∙◌,
}
use reliable_messaging.Base.Bytes.{Bytes}
use reliable_messaging.Transaction.Codec.{StoredReference, StoredBranch, StoredPlan, Json}
use reliable_messaging.Transaction.Codec.Faithful.{IsFaithful, reference_texts, message_texts}

unfoldable pub pack_value : Bytes → Bytes → Bytes
pack_value [] rest = 0 ∷ rest
pack_value (b ∷ bs) rest = suc b ∷ pack_value bs rest

unfoldable pub pack : List Bytes → Bytes
unfolding pack_value
pack [] = []
pack (v ∷ vs) = pack_value v (pack vs)

abbrev put_front : ℕ → List Bytes → List Bytes
put_front b [] = (b ∷ []) ∷ []
put_front b (v ∷ vs) = (b ∷ v) ∷ vs

unfoldable pub unpack : Bytes → List Bytes
unpack [] = []
unpack (zero ∷ bs) = [] ∷ unpack bs
unpack (suc b ∷ bs) = put_front b (unpack bs)

unpack-pack_value : (v rest : Bytes) → unpack (pack_value v rest) ≡ v ∷ unpack rest
unfolding unpack pack_value
unpack-pack_value [] rest = refl
unpack-pack_value (b ∷ v) rest = rw (unpack-pack_value v rest) refl

unpack-pack : (vs : List Bytes) → unpack (pack vs) ≡ vs
unfolding pack
unpack-pack [] = unfold unpack in refl
unpack-pack (v ∷ vs) = unpack-pack_value v (pack vs) ∙ ap (λ ws. v ∷ ws) (unpack-pack vs)

pack-present : (v : Bytes) (vs : List Bytes) → 0 < length (pack (v ∷ vs))
unfolding pack
pack-present [] vs = omega arith
pack-present (b ∷ v) vs = omega arith

abbrev reference_values : StoredReference → List Bytes
reference_values s = (s.fence ∷ []) ∷ reference_texts s

abbrev unpack_reference : List Bytes → Option (StoredReference × Bool)
unpack_reference ((fence ∷ []) ∷ a ∷ b ∷ c ∷ d ∷ e ∷ f ∷ g ∷ h ∷ i ∷ j ∷ k ∷ l ∷ []) = some (
  record {
    owner = a;
    scope = b;
    operation = c;
    branch = d;
    message = e;
    logical = f;
    physical = g;
    revision = h;
    epoch = i;
    plan = j;
    wire = k;
    fingerprint = l;
    fence = fence;
  },
  true,
)
unpack_reference _ = none

abbrev packed_branch : StoredBranch → List Bytes
packed_branch b =
    b.id ∷ b.physical_topic ∷ b.revision ∷ b.wire ∷ b.message.payload ∷ message_texts b.message

abbrev unpack_branch : List Bytes → Option StoredBranch
unpack_branch (i ∷ t ∷ r ∷ w ∷ p ∷ a ∷ b ∷ c ∷ d ∷ e ∷ f ∷ g ∷ h ∷ []) = some (record {
  id = i;
  physical_topic = t;
  revision = r;
  wire = w;
  message = record {
    producer = a;
    id = b;
    destination = c;
    event_type = d;
    schema_version = e;
    scope = f;
    content_type = g;
    occurred_at = h;
    payload = p;
  };
})
unpack_branch _ = none

abbrev add_branch : Option StoredBranch → Option (List StoredBranch) → Option (List StoredBranch)
add_branch (some b) (some bs) = some (b ∷ bs)
add_branch (some b) none = none
add_branch none bs = none

abbrev unpack_branches : List Bytes → Option (List StoredBranch)
unpack_branches [] = some []
unpack_branches (v ∷ vs) = add_branch (unpack_branch (unpack v)) (unpack_branches vs)

abbrev plan_values : StoredPlan → List Bytes
plan_values s =
    (s.version ∷ [])
    ∷ s.owner
    ∷ s.scope
    ∷ s.operation
    ∷ s.key
    ∷ s.input_hash
    ∷ s.digest
    ∷ map (λ b. pack (packed_branch b)) s.branches

abbrev with_branches :
    (List StoredBranch → StoredPlan) → Option (List StoredBranch) → Option (StoredPlan × Bool)
with_branches k none = none
with_branches k (some bs) = some (k bs, true)

abbrev unpack_plan : List Bytes → Option (StoredPlan × Bool)
unpack_plan ((version ∷ []) ∷ a ∷ b ∷ c ∷ d ∷ e ∷ f ∷ rest) =
    with_branches
      (λ bs. record {
        version = version;
        owner = a;
        scope = b;
        operation = c;
        key = d;
        input_hash = e;
        digest = f;
        branches = bs;
      })
      (unpack_branches rest)
unpack_plan _ = none

unpack_branches-map :
    (bs : List StoredBranch) → unpack_branches (map (λ b. pack (packed_branch b)) bs) ≡ some bs
unpack_branches-map [] = refl
unpack_branches-map (b ∷ bs) = rw (unpack-pack (packed_branch b), unpack_branches-map bs) refl

abbrev pub packing : Json
packing = record {
  marshal_reference = λ s. some (pack (reference_values s));
  decode_reference = λ bytes. unpack_reference (unpack bytes);
  marshal_plan = λ s. some (pack (plan_values s));
  decode_plan = λ bytes. unpack_plan (unpack bytes);
}

some-eq : (a b : Bytes) → ◌≡◌ {A = Option Bytes} (some a) (some b) → a ≡ b
some-eq a b h = cc

pub packing-IsFaithful : IsFaithful packing
packing-IsFaithful = record {
  reference_trip = λ s bytes t h.
      let e = some-eq (pack (reference_values s)) bytes h in
      rw (← e) (
        pack-present (s.fence ∷ []) (reference_texts s),
        rw (unpack-pack (reference_values s)) refl,
      );
  plan_trip = λ s bytes t h.
      let e = some-eq (pack (plan_values s)) bytes h in
      rw (← e) (
        pack-present (s.version ∷ []) _,
        rw (unpack-pack (plan_values s), unpack_branches-map s.branches) refl,
      );
}
