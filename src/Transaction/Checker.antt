-- ===== src/Transaction/Checker.antt =====
-- transaction/store.go: `StoreChecker`, which answers the broker's check of a half message. The
-- store's `Evidence` call is a function of the reference; no store is a nil interface.
use reliable_messaging.Base.{
  true, not, Option, none, some, ◌≡◌, ◌↔◌, arith, if◌then◌else◌, Result, ok, err,
}
use reliable_messaging.Transaction.Evidence.{
  Decision, unknown, commit, rollback, committed, aborted, Reference, ref_valid, Evidence, resolve,
}
use reliable_messaging.Transaction.Evidence.Resolve.{proof_of, resolve_iff}

-- The errors of the store's driver.
pub data EvidenceError : Type 0 where
  unavailable : EvidenceError

abbrev pub Lookup : Type 0
Lookup = Reference → Result EvidenceError (Option Evidence)

abbrev pub resolve_answer : Reference → Result EvidenceError (Option Evidence) → Decision
resolve_answer r (ok e) = resolve r e
resolve_answer r (err e) = unknown

unfoldable pub check : Option Lookup → Reference → Decision
check none r = unknown
check (some evidence) r = if not (ref_valid r) then unknown else resolve_answer r (evidence r)

resolve_answer_iff :
    (r : Reference) (a : Result EvidenceError (Option Evidence))
    → ((resolve_answer r a ≡ commit) ↔ ((ref_valid r ≡ true) × (a ≡ ok (proof_of r committed))))
      × ((resolve_answer r a ≡ rollback) ↔ ((ref_valid r ≡ true) × (a ≡ ok (proof_of r aborted))))
resolve_answer_iff r (err e) = ground arith
resolve_answer_iff r (ok e) = ground (arith, resolve_iff r e)

-- Over a store, the checker answers commit exactly if the reference is valid and the store returns
-- the reference's own evidence, committed in both states, and rollback exactly if it returns it
-- aborted in both; an error of the store is neither.
pub check_iff :
    (evidence : Lookup) (r : Reference)
    → ((check (some evidence) r ≡ commit)
        ↔ ((ref_valid r ≡ true) × (evidence r ≡ ok (proof_of r committed))))
      × ((check (some evidence) r ≡ rollback)
          ↔ ((ref_valid r ≡ true) × (evidence r ≡ ok (proof_of r aborted))))
unfolding check
check_iff evidence r = ground (arith, resolve_answer_iff r (evidence r))
