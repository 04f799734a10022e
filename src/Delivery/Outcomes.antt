-- ===== src/Delivery/Outcomes.antt =====
-- delivery/mysql/outbox.go: each operation gets through to its row or leaves all rows as they are.
use reliable_messaging.Base.{
  ◌≢◌, true, false, ◌||◌, List, Option, none, some, ◌≡◌, inl, inr, refl, arith, ap, Bool-cases,
}
use mathlib.Core.Path.{subst}
use reliable_messaging.Storage.Mysql.Rows.{is_applied}
use reliable_messaging.Delivery.{
  Identity, Record, Stage, confirmed, held, identity_eq, find_record, locked, Written, with_locked,
  write, is_confirmed, is_held, beyond_minute, set_published, set_receipt, set_failed, set_held,
  set_rearmed, published, confirm_receipt, retry_later, hold, rearm_ack, Op, publish_op, confirm_op,
  retry_op, hold_op, rearm_op, run,
}
use reliable_messaging.Delivery.Receipts.{
  identity_eq_iff, when, find_record-update_record, IsLocked, is_applied-eq, with_locked_cases,
  effect, call_of, beyond_minute-IsPause, IsPause-beyond_minute, InRange, Concerns, Moves,
  is_confirmed-ne, ne-is_confirmed, is_held-ne, ne-is_held, is_held-eq, is_confirmed-eq,
}

going_on : (s : Stage) → (is_confirmed s || is_held s) ≡ false → (s ≢ confirmed) × (s ≢ held)
going_on s h = (is_confirmed-ne s (ground arith), is_held-ne s (ground arith))

settled_idle : (s : Stage) → (is_confirmed s || is_held s) ≡ true → ¬ ((s ≢ confirmed) × (s ≢ held))
settled_idle s h (a, b) = ground (arith, h, ne-is_confirmed s a, ne-is_held s b)

module _ (op : Op) (j : Identity) (rs : List Record) where
  abbrev own_id : Identity
  own_id = (call_of op).id

  write-Moves :
      (f : Record → Record) (r : Record)
      → ((q : Record) → (f q).identity ≡ q.identity)
      → IsLocked (call_of op) rs r
      → InRange op
      → Concerns op r
      → f r ≡ effect op r
      → Moves op j rs (write (call_of op).reply own_id f rs).1
  write-Moves f r keep l range fits e = elim (Bool-cases (is_applied (call_of op).reply)) [
    | inr not_done ↦
        inr (λ q g. g.applied (is_applied-eq (call_of op).reply not_done), rw not_done refl)
    | inl done ↦ elim (Bool-cases (identity_eq j own_id)) [
      | inr other ↦ inr (
        λ q g. cc ((identity_eq_iff j own_id).1 g.own, other),
        rw (done, find_record-update_record own_id j f rs keep, other) (same (find_record j rs)),
      )
      | inl hit ↦
          let own : j ≡ own_id = (identity_eq_iff j own_id).0 hit in
          let here : find_record j rs ≡ some r = rw own l.found in
          inl (
            r,
            record {
              own = own;
              is_locked = l;
              in_range = range;
              concerned = fits;
              applied = λ x. cc (x, done);
            },
            rw (done, find_record-update_record own_id j f rs keep, hit, here) (ap some e),
          )
    ]
  ]
    where
      same : (o : Option Record) → when false f o ≡ o
      same none = refl
      same (some q) = refl

  -- The row that is found is not concerned.
  idle-Moves : (r : Record) → IsLocked (call_of op) rs r → ¬ Concerns op r → Moves op j rs rs
  idle-Moves r l idle = inr (
    λ q g.
        let one : q ≡ r = cc (g.is_locked.found, l.found) in
        idle (subst (λ x. Concerns op x) one g.concerned),
    refl,
  )

  locked-Moves :
      (k : Record → Written)
      → ((r : Record) → IsLocked (call_of op) rs r → Moves op j rs (k r).1)
      → let c = call_of op in
        Moves op j rs (with_locked rs (locked c.bound c.select c.id c.hash rs) k).1
  locked-Moves k after = elim (with_locked_cases (call_of op) rs k) [
    | inl (gone, same) ↦ inr (λ r g. gone r g.is_locked, rw same refl)
    | inr (r, l, e) ↦ rw e (after r l)
  ]

-- Each operation either gets through and has its effect, or leaves every row as it is.
pub run_cases : (op : Op) (j : Identity) (rs : List Record) → Moves op j rs (run op rs)
unfolding run published confirm_receipt retry_later hold rearm_ack
run_cases (publish_op c wait) j rs = elim (Bool-cases (beyond_minute wait)) [
  | inl bad ↦ inr (
    λ r g. cc (IsPause-beyond_minute wait g.in_range, bad),
    rw (bad, run, published, retry_later) refl,
  )
  | inr good ↦
      rw (good, run, published, retry_later)
        (locked-Moves (publish_op c wait) j rs _ (λ r l.
          elim (Bool-cases (is_confirmed r.stage || is_held r.stage)) [
            | inl settled ↦
                rw settled (idle-Moves (publish_op c wait) j rs r l (settled_idle r.stage settled))
            | inr going ↦ rw going (
                write-Moves (publish_op c wait) j rs (set_published c.now wait r.requires_receipt) r
                  (λ q. refl) l (beyond_minute-IsPause wait good) (going_on r.stage going)
                  (rw going refl))
          ]))
]
run_cases (confirm_op c) j rs = locked-Moves (confirm_op c) j rs _ (λ r l.
    elim (Bool-cases r.requires_receipt) [
      | inr no_receipt ↦ rw no_receipt (idle-Moves (confirm_op c) j rs r l (λ h. cc))
      | inl wanted ↦ rw wanted (
          write-Moves (confirm_op c) j rs (set_receipt c.now) r (λ q. refl) l tt wanted
            (rw wanted refl))
    ])
run_cases (retry_op c delay code) j rs = elim (Bool-cases (beyond_minute delay)) [
  | inl bad ↦ inr (
    λ r g. cc (IsPause-beyond_minute delay g.in_range, bad),
    rw (bad, run, published, retry_later) refl,
  )
  | inr good ↦
      rw (good, run, published, retry_later)
        (locked-Moves (retry_op c delay code) j rs _ (λ r l.
          elim (Bool-cases (is_confirmed r.stage || is_held r.stage)) [
            | inl settled ↦
                rw settled
                  (idle-Moves (retry_op c delay code) j rs r l (settled_idle r.stage settled))
            | inr going ↦ rw going (
                write-Moves (retry_op c delay code) j rs (set_failed c.now delay code) r (λ q. refl)
                  l (beyond_minute-IsPause delay good) (going_on r.stage going) (rw going refl))
          ]))
]
run_cases (hold_op c code) j rs = locked-Moves (hold_op c code) j rs _ (λ r l.
    elim (Bool-cases (is_confirmed r.stage)) [
      | inl done ↦
          rw done (idle-Moves (hold_op c code) j rs r l (λ h. h (is_confirmed-eq r.stage done)))
      | inr going ↦ rw going (
          write-Moves (hold_op c code) j rs (set_held code) r (λ q. refl) l tt
            (is_confirmed-ne r.stage going) (rw going refl))
    ])
run_cases (rearm_op c) j rs = locked-Moves (rearm_op c) j rs _ (λ r l.
    elim (Bool-cases r.requires_receipt) [
      | inl wanted ↦ rw wanted (idle-Moves (rearm_op c) j rs r l (λ h. cc (h.0, wanted)))
      | inr none_wanted ↦ elim (Bool-cases (is_held r.stage)) [
        | inl stays ↦
            rw (none_wanted, stays)
              (idle-Moves (rearm_op c) j rs r l (λ h. h.1 (is_held-eq r.stage stays)))
        | inr going ↦
            rw (none_wanted, going)
              (write-Moves (rearm_op c) j rs (set_rearmed c.now) r (λ q. refl) l tt
                (none_wanted, is_held-ne r.stage going) (rw (none_wanted, going) refl))
      ]
    ])
