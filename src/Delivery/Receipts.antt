-- ===== src/Delivery/Receipts.antt =====
-- delivery/mysql/outbox.go: when an operation gets through to its row, and that it changes no other.
use reliable_messaging.Base.{
  ℕ, ◌≤◌, ◌≢◌, is_empty, Bool, true, false, not, ◌||◌, List, [], ◌∷◌, Option, none, some, ◌≡◌, ◌↔◌,
  ◌⊎◌, inl, inr, refl, arith, if◌then◌else◌, Bool-cases, Option-cases,
}
use mathlib.Core.Path.{subst}
use reliable_messaging.Base.Bytes.{bytes_eq, bytes_eq_iff}
use reliable_messaging.Base.Int.{ℤ, pos, negsuc}
use reliable_messaging.Storage.Mysql.Rows.{Reply, answered, refused, lost, is_answered, is_applied}
use reliable_messaging.Delivery.{
  Identity, Record, Stage, staged, awaiting_receipt, confirmed, held, other_stage, identity_eq,
  find_record, update_record, locked, invalid_identity, Written, with_locked, is_confirmed, is_held,
  beyond_minute, set_published, set_receipt, set_failed, set_held, set_rearmed, Call, Op,
  publish_op, confirm_op, retry_op, hold_op, rearm_op,
}

pub identity_eq_iff : (a b : Identity) → (identity_eq a b ≡ true) ↔ (a ≡ b)
identity_eq_iff a b = ground (
  arith,
  bytes_eq_iff a.producer b.producer,
  bytes_eq_iff a.destination b.destination,
  bytes_eq_iff a.message_id b.message_id,
)

abbrev pub when : Bool → (Record → Record) → Option Record → Option Record
when b f none = none
when b f (some r) = some (if b then f r else r)

pub find_record-update_record :
    (id j : Identity) (f : Record → Record) (rs : List Record)
    → ((r : Record) → (f r).identity ≡ r.identity)
    → find_record j (update_record id f rs) ≡ when (identity_eq j id) f (find_record j rs)
unfolding find_record update_record
find_record-update_record id j f [] keep = refl
find_record-update_record id j f (r ∷ rs) keep = ground (
  arith,
  keep r,
  identity_eq_iff r.identity id,
  identity_eq_iff r.identity j,
  identity_eq_iff j id,
  find_record-update_record id j f rs keep,
)

-- The call finds the row, in a transaction, under a whole identity and with the body's hash.
pub record IsLocked (c : Call) (rs : List Record) (r : Record) : Type 0 where
  pub bound : c.bound ≡ true
  pub has_producer : is_empty c.id.producer ≡ false
  pub has_destination : is_empty c.id.destination ≡ false
  pub has_message : is_empty c.id.message_id ≡ false
  pub read : c.select ≡ answered
  pub found : find_record c.id rs ≡ some r
  pub same_hash : r.body_sha256 ≡ c.hash

is_answered-eq : (reply : Reply) → is_answered reply ≡ true → reply ≡ answered
is_answered-eq answered h = refl
is_answered-eq refused h = cc
is_answered-eq lost h = cc

pub is_applied-eq : (reply : Reply) → is_applied reply ≡ false → reply ≡ refused
is_applied-eq answered h = cc
is_applied-eq refused h = refl
is_applied-eq lost h = cc

-- An operation finds no row and leaves the table, or makes something of the row of its identity.
pub with_locked_cases :
    (c : Call) (rs : List Record) (k : Record → Written)
    → (((r : Record) → ¬ IsLocked c rs r)
        × ((with_locked rs (locked c.bound c.select c.id c.hash rs) k).1 ≡ rs))
      ⊎ ((r : Record) × IsLocked c rs r
          × (with_locked rs (locked c.bound c.select c.id c.hash rs) k ≡ k r))
unfolding locked
with_locked_cases c rs k = elim (Bool-cases (invalid_identity c.bound c.id)) [
  | inl bad ↦ inl (
    λ r l. ground (arith, bad, l.bound, l.has_producer, l.has_destination, l.has_message),
    rw bad,
  )
  | inr good ↦ elim (Bool-cases (is_answered c.select)) [
    | inr no_answer ↦ inl (λ r l. cc (l.read, no_answer), rw (good, no_answer))
    | inl yes_answer ↦ elim (Option-cases (find_record c.id rs)) [
      | inl gone ↦ inl (λ r l. cc (l.found, gone), rw (good, yes_answer, gone))
      | inr (r, e) ↦ elim (Bool-cases (bytes_eq r.body_sha256 c.hash)) [
        | inl same ↦ inr (
          r,
          record {
            bound = ground (arith, good);
            has_producer = ground (arith, good);
            has_destination = ground (arith, good);
            has_message = ground (arith, good);
            read = is_answered-eq c.select yes_answer;
            found = e;
            same_hash = (bytes_eq_iff r.body_sha256 c.hash).0 same;
          },
          rw (good, yes_answer, e, same),
        )
        | inr differ ↦ inl (
          λ q l.
              let one : q ≡ r = cc (l.found, e) in
              let h : r.body_sha256 ≡ c.hash =
                subst (λ (x : Record). x.body_sha256 ≡ c.hash) one l.same_hash in
              cc ((bytes_eq_iff r.body_sha256 c.hash).1 h, differ),
          rw (good, yes_answer, e, differ),
        )
      ]
    ]
  ]
]

-- What an operation makes of its row, if it gets through.
abbrev pub effect : Op → Record → Record
effect (publish_op c wait) r =
    if is_confirmed r.stage || is_held r.stage
    then r
    else set_published c.now wait r.requires_receipt r
effect (confirm_op c) r = if not r.requires_receipt then r else set_receipt c.now r
effect (retry_op c delay code) r =
    if is_confirmed r.stage || is_held r.stage then r else set_failed c.now delay code r
effect (hold_op c code) r = if is_confirmed r.stage then r else set_held code r
effect (rearm_op c) r =
    if r.requires_receipt then r else if is_held r.stage then r else set_rearmed c.now r

abbrev pub call_of : Op → Call
call_of (publish_op c wait) = c
call_of (confirm_op c) = c
call_of (retry_op c delay code) = c
call_of (hold_op c code) = c
call_of (rearm_op c) = c

-- A pause from one second to a minute.
abbrev pub IsPause : ℤ → Type 0
IsPause wait = (n : ℕ) × (wait ≡ pos n) × (1 ≤ n) × (n ≤ 60)

pub beyond_minute-IsPause : (wait : ℤ) → beyond_minute wait ≡ false → IsPause wait
beyond_minute-IsPause (pos n) h = (n, refl, ground arith, ground arith)
beyond_minute-IsPause (negsuc n) h = absurd (ground arith)

pub IsPause-beyond_minute : (wait : ℤ) → IsPause wait → beyond_minute wait ≡ false
IsPause-beyond_minute wait (n, e, low, high) = rw e (ground arith)

-- The operation's arguments are in range.
abbrev pub InRange : Op → Type 0
InRange (publish_op c wait) = IsPause wait
InRange (retry_op c delay code) = IsPause delay
InRange (confirm_op c) = Unit
InRange (hold_op c code) = Unit
InRange (rearm_op c) = Unit

-- The operation concerns the row, by its stage and by whether it requires a receipt.
abbrev pub Concerns : Op → Record → Type 0
Concerns (publish_op c wait) r = (r.stage ≢ confirmed) × (r.stage ≢ held)
Concerns (confirm_op c) r = r.requires_receipt ≡ true
Concerns (retry_op c delay code) r = (r.stage ≢ confirmed) × (r.stage ≢ held)
Concerns (hold_op c code) r = r.stage ≢ confirmed
Concerns (rearm_op c) r = (r.requires_receipt ≡ false) × (r.stage ≢ held)

-- The operation gets through to the row of the identity `j`, and the database applies its UPDATE.
pub record GoesThrough (op : Op) (j : Identity) (rs : List Record) (r : Record) : Type 0 where
  pub own : j ≡ (call_of op).id
  pub is_locked : IsLocked (call_of op) rs r
  pub in_range : InRange op
  pub concerned : Concerns op r
  pub applied : (call_of op).reply ≢ refused

-- The operation gets through and has its effect on the row, or it leaves it as it is.
abbrev pub Moves : Op → Identity → List Record → List Record → Type 0
Moves op j rs rs' =
    ((r : Record) × GoesThrough op j rs r × (find_record j rs' ≡ some (effect op r)))
    ⊎ (((r : Record) → ¬ GoesThrough op j rs r) × (find_record j rs' ≡ find_record j rs))

pub is_confirmed-ne : (s : Stage) → is_confirmed s ≡ false → s ≢ confirmed
is_confirmed-ne s h e = cc

pub ne-is_confirmed : (s : Stage) → s ≢ confirmed → is_confirmed s ≡ false
ne-is_confirmed confirmed h = absurd (h refl)
ne-is_confirmed staged h = refl
ne-is_confirmed awaiting_receipt h = refl
ne-is_confirmed held h = refl
ne-is_confirmed (other_stage name) h = refl

pub is_held-ne : (s : Stage) → is_held s ≡ false → s ≢ held
is_held-ne s h e = cc

pub ne-is_held : (s : Stage) → s ≢ held → is_held s ≡ false
ne-is_held held h = absurd (h refl)
ne-is_held staged h = refl
ne-is_held awaiting_receipt h = refl
ne-is_held confirmed h = refl
ne-is_held (other_stage name) h = refl

pub is_held-eq : (s : Stage) → is_held s ≡ true → s ≡ held
is_held-eq s h = ground arith

pub is_confirmed-eq : (s : Stage) → is_confirmed s ≡ true → s ≡ confirmed
is_confirmed-eq s h = ground arith
