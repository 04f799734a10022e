-- ===== src/Relay/Runs.antt =====
-- relay/relay.go: an invariant rule for `Run`: what the store's operations keep, a whole run keeps,
-- if the publisher's confirmations are those that the invariant allows.
use reliable_messaging.Base.{
  ℕ, suc, Bool, true, false, List, [], ◌∷◌, ◌≡◌, refl, All, Option, Bool-cases, inl, inr, Result,
  ok, err, length,
}
use mathlib.Core.Path.{subst}
use reliable_messaging.Base.Bytes.{Bytes}
use reliable_messaging.Base.Int.{ℤ, pos, ltb_ℤ, leb_ℤ}
use reliable_messaging.Outbox.{Claim, StoreError}
use reliable_messaging.Transport.{Outcome, unknown, confirmed, rejected, other_outcome}
use reliable_messaging.Relay.{
  Store, Config, RetryDecision, Tick, normalised, write_decision, write_back, deliver, deliver_all,
  admitted, batch, scanned, round, rounds, run, lift_error, code_of, Next, Exit, Event, exits,
  continues, go_on,
}

-- What holds of the state (`Keeps`), of a claim in hand (`Usable`), and which claims the publisher may
-- confirm (`May`).
pub record Rules {S : Type 0} (store : Store S) (Keeps : S → Type 0) (Usable : Claim → S → Type 0)
    (May : Claim → Type 0) : Type 0 where
  pub claim_keeps : (n l : ℤ) (s : S) → Keeps s → Keeps (store.claim_due n l s).1
  pub claim_grants :
      (n l : ℤ) (s s' : S) (cs : List Claim)
      → Keeps s
      → store.claim_due n l s ≡ (ok cs, s')
      → All (λ c. Usable c s') cs
  pub confirm_keeps :
      (c : Claim) (s : S) → May c → Usable c s → Keeps s → Keeps (store.confirm c s).1
  pub retry_keeps :
      (c : Claim) (d : ℤ) (code : Bytes) (s : S)
      → Usable c s
      → Keeps s
      → Keeps (store.retry c d code s).1
  pub quarantine_keeps :
      (c : Claim) (code : Bytes) (s : S)
      → Usable c s
      → Keeps s
      → Keeps (store.quarantine c code s).1
  pub confirm_usable : (c d : Claim) (s : S) → Usable d s → Usable d (store.confirm c s).1
  pub retry_usable :
      (c d : Claim) (delay : ℤ) (code : Bytes) (s : S)
      → Usable d s
      → Usable d (store.retry c delay code s).1
  pub quarantine_usable :
      (c d : Claim) (code : Bytes) (s : S) → Usable d s → Usable d (store.quarantine c code s).1

-- A round in which the publisher confirms only what it may, other processes keep the invariant, and
-- the writes are made for claims of the batch.
pub record IsAllowed {S : Type 0} (Keeps : S → Type 0) (Usable : Claim → S → Type 0)
    (May : Claim → Type 0) (t : Tick S) : Type 0 where
  pub confirms : (c : Claim) → t.publish c ≡ confirmed → May c
  pub others_keep : (k : ℕ) (s : S) → Keeps s → Keeps (t.others k s)
  pub others_usable : (k : ℕ) (c : Claim) (s : S) → Usable c s → Usable c (t.others k s)
  pub schedules :
      (s : S) (cs : List Claim) → All (λ c. Usable c s) cs → All (λ c. Usable c s) (t.order cs)

module _ {S : Type 0} (store : Store S) (config : Config) (Keeps : S → Type 0)
    (Usable : Claim → S → Type 0) (May : Claim → Type 0)
    (rules : Rules store Keeps Usable May) where
  lift_error-state : (x : Result StoreError (Unit {0}) × S) → (lift_error x).1 ≡ x.1
  lift_error-state (ok u, s) = refl
  lift_error-state (err e, s) = refl

  -- What a write that is not a confirmation keeps.
  record Kept (c : Claim) (s s' : S) : Type 0 where
    keeps : Usable c s → Keeps s → Keeps s'
    usable : (d : Claim) → Usable d s → Usable d s'

  write_decision-Kept :
      (c : Claim) (o : Outcome) (d : RetryDecision) (s : S)
      → Kept c s (write_decision store config c o d s).1
  unfolding write_decision
  write_decision-Kept c o d s = elim (Bool-cases d.quarantines) [
    | inl q ↦
        rw (q, lift_error-state (store.quarantine c (code_of o) s))
          (record {
            keeps = rules.quarantine_keeps c (code_of o) s;
            usable = λ x. rules.quarantine_usable c x (code_of o) s;
          })
    | inr r ↦ elim (Bool-cases (leb_ℤ d.delay (pos 0))) [
      | inl bad ↦ rw (r, bad) (record { keeps = λ u k. k; usable = λ x u. u })
      | inr good ↦
          rw (r, good, lift_error-state (store.retry c d.delay (code_of o) s))
            (record {
              keeps = rules.retry_keeps c d.delay (code_of o) s;
              usable = λ x. rules.retry_usable c x d.delay (code_of o) s;
            })
    ]
  ]

  write_back-keeps :
      (c : Claim) (o : Outcome) (s : S)
      → (o ≡ confirmed → May c)
      → Usable c s
      → Keeps s
      → Keeps (write_back store config c o s).1
  unfolding write_back
  write_back-keeps c confirmed s may u k =
      rw (lift_error-state (store.confirm c s)) (rules.confirm_keeps c s (may refl) u k)
  write_back-keeps c unknown s may u k =
      (write_decision-Kept c unknown (config.retry_policy c unknown) s).keeps u k
  write_back-keeps c rejected s may u k =
      (write_decision-Kept c rejected (config.retry_policy c rejected) s).keeps u k
  write_back-keeps c (other_outcome n) s may u k =
      (write_decision-Kept c (other_outcome n) (config.retry_policy c (other_outcome n)) s).keeps u
        k

  write_back-usable :
      (c d : Claim) (o : Outcome) (s : S) → Usable d s → Usable d (write_back store config c o s).1
  unfolding write_back
  write_back-usable c d confirmed s u =
      rw (lift_error-state (store.confirm c s)) (rules.confirm_usable c d s u)
  write_back-usable c d unknown s u =
      (write_decision-Kept c unknown (config.retry_policy c unknown) s).usable d u
  write_back-usable c d rejected s u =
      (write_decision-Kept c rejected (config.retry_policy c rejected) s).usable d u
  write_back-usable c d (other_outcome n) s u =
      (write_decision-Kept c (other_outcome n) (config.retry_policy c (other_outcome n)) s).usable d
        u

  normalised-confirmed : (o : Outcome) → normalised o ≡ confirmed → o ≡ confirmed
  unfolding normalised
  normalised-confirmed confirmed h = refl
  normalised-confirmed unknown h = cc
  normalised-confirmed rejected h = cc
  normalised-confirmed (other_outcome n) h = cc

  deliver-keeps :
      (o : Outcome) (c : Claim) (s : S)
      → (o ≡ confirmed → May c)
      → Usable c s
      → Keeps s
      → Keeps (deliver store config o c s).1
  unfolding deliver
  deliver-keeps o c s may u k =
      write_back-keeps c (normalised o) s (λ e. may (normalised-confirmed o e)) u k

  deliver-usable :
      (o : Outcome) (c d : Claim) (s : S) → Usable d s → Usable d (deliver store config o c s).1
  unfolding deliver
  deliver-usable o c d s u = write_back-usable c d (normalised o) s u

  abbrev AllUsable : List Claim → S → Type 0
  AllUsable cs s = All (λ c. Usable c s) cs

  All-Usable_map :
      (s s' : S)
      → ((d : Claim) → Usable d s → Usable d s')
      → (cs : List Claim) → AllUsable cs s
      → AllUsable cs s'
  All-Usable_map s s' f [] u = tt
  All-Usable_map s s' f (c ∷ cs) u = (f c u.0, All-Usable_map s s' f cs u.1)

  abbrev Allowed : Tick S → Type 0
  Allowed t = IsAllowed Keeps Usable May t

  deliver_all-keeps :
      (t : Tick S) (k : ℕ) (cs : List Claim) (s : S)
      → Allowed t
      → AllUsable cs s
      → Keeps s
      → Keeps (deliver_all store config t k cs s).1
  unfolding deliver_all
  deliver_all-keeps t k [] s a u h = h
  deliver_all-keeps t k (c ∷ cs) s a u h =
      let before = t.others (suc k) s in
      let kept = a.others_keep (suc k) s h in
      let s' = (deliver store config (t.publish c) c before).1 in
      deliver_all-keeps t (suc k) cs s' a
        (All-Usable_map s s'
          (λ d v. deliver-usable (t.publish c) c d before (a.others_usable (suc k) d s v)) cs u.1)
        (deliver-keeps (t.publish c) c before (a.confirms c) (a.others_usable (suc k) c s u.0) kept)

  admitted-usable :
      (cancelled : ℕ → Bool) (k : ℕ) (cs : List Claim) (s : S)
      → AllUsable cs s
      → AllUsable (admitted cancelled k cs) s
  unfolding admitted
  admitted-usable cancelled k [] s u = tt
  admitted-usable cancelled k (c ∷ cs) s u = elim (Bool-cases (cancelled k)) [
    | inl stop ↦ rw stop tt
    | inr go ↦ rw go (u.0, admitted-usable cancelled (suc k) cs s u.1)
  ]

  batch-keeps :
      (t : Tick S) (cs : List Claim) (s : S)
      → Allowed t
      → AllUsable cs s
      → Keeps s
      → Keeps (batch store config t cs s).2
  unfolding batch
  batch-keeps t cs s a u k = elim (Bool-cases (ltb_ℤ config.concurrency (pos (length cs)))) [
    | inl many ↦ rw many k
    | inr fit ↦ rw fit (
        deliver_all-keeps t 0 (t.order (admitted t.cancelled_before 0 cs)) s a
          (a.schedules s _ (admitted-usable t.cancelled_before 0 cs s u)) k)
  ]

  round-keeps : (t : Tick S) (s : S) → Allowed t → Keeps s → Keeps (round store config t s).2
  unfolding round
  round-keeps t s a k = elim (Bool-cases t.cancelled_head) [
    | inl stop ↦ rw stop k
    | inr go ↦ rw go (scan (store.claim_due config.concurrency config.lease (t.others 0 s)) refl)
  ]
    where
      start : Keeps (t.others 0 s)
      start = a.others_keep 0 s k

      scan :
          (x : Result StoreError (List Claim) × S)
          → store.claim_due config.concurrency config.lease (t.others 0 s) ≡ x
          → Keeps (scanned store config t x).2
      scan (ok cs, s') e =
          batch-keeps t cs s' a
            (rules.claim_grants config.concurrency config.lease (t.others 0 s) s' cs start e)
            (subst (λ x. Keeps x.1) e
              (rules.claim_keeps config.concurrency config.lease (t.others 0 s) start))
      scan (err e', s') e =
          let kept : Keeps s' =
            subst (λ x. Keeps x.1) e
              (rules.claim_keeps config.concurrency config.lease (t.others 0 s) start) in
          elim (Bool-cases t.cancelled_error) [ inl c ↦ rw c kept | inr c ↦ rw c kept ]

  go_on-keeps :
      (n : Next) (es : List Event) (s : S) (rest : Option Exit × List Event × S)
      → Keeps s
      → Keeps rest.2
      → Keeps (go_on n es s rest).2
  go_on-keeps (exits x) es s rest k l = k
  go_on-keeps continues es s rest k l = l

  rounds-keeps :
      (ts : List (Tick S)) (s : S) → All Allowed ts → Keeps s → Keeps (rounds store config ts s).2
  unfolding rounds
  rounds-keeps [] s a k = k
  rounds-keeps (t ∷ ts) s a k =
      let r = round store config t s in
      let kept = round-keeps t s a.0 k in
      go_on-keeps r.0 r.1 r.2 (rounds store config ts r.2) kept (rounds-keeps ts r.2 a.1 kept)

  -- What the store's operations keep, every run of the relay keeps.
  pub run-keeps :
      (running : Bool) (ts : List (Tick S)) (s : S)
      → All Allowed ts
      → Keeps s
      → Keeps (run store config running ts s).2
  unfolding run
  run-keeps true ts s a k = k
  run-keeps false ts s a k = rounds-keeps ts s a k
