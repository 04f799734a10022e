-- ===== src/Relay.antt =====
-- relay/relay.go: the relay claims due records, publishes each and writes back what the publisher
-- reported. It works against any store: an interface over a state `S`, whose operations are the
-- store's whole calls. Go's `time.Duration` is an integer of nanoseconds.
pub mod Bounds
pub mod Runs
pub mod OverMysql
use reliable_messaging.Base.{
  ℕ, suc, Bool, true, false, not, ◌&&◌, ◌||◌, List, [], ◌∷◌, ◌++◌, Option, none, some, ltb, ◌==◌,
  if◌then◌else◌, Result, ok, err, length,
}
use reliable_messaging.Base.Bytes.{Bytes, literal}
use reliable_messaging.Base.Int.{ℤ, pos, leb_ℤ, ltb_ℤ, ◌-ℤ◌}
use reliable_messaging.Outbox.{Claim, StoreError, stale_claim}
use reliable_messaging.Transport.{Outcome, unknown, confirmed, rejected, other_outcome}

-- outbox.Store, with the state that its operations change.
pub record Store (S : Type 0) : Type 0 where
  pub claim_due : ℤ → ℤ → S → Result StoreError (List Claim) × S
  pub confirm : Claim → S → Result StoreError (Unit {0}) × S
  pub retry : Claim → ℤ → Bytes → S → Result StoreError (Unit {0}) × S
  pub quarantine : Claim → Bytes → S → Result StoreError (Unit {0}) × S

pub record RetryDecision : Type 0 where
  pub delay : ℤ
  pub quarantines : Bool

pub data RelayError : Type 0 where
  store_failed : StoreError → RelayError
  policy_invalid : RelayError

-- The events that the observer is given, with the normalised outcome and the error.
pub data Event : Type 0 where
  claim_failed : StoreError → Event
  scan_succeeded : Event
  publish_result : Outcome → Event
  stale_write_rejected : Outcome → Event
  write_failed : Outcome → RelayError → Event
  write_succeeded : Outcome → Event

pub record Config : Type 0 where
  pub concurrency : ℤ
  pub poll_interval : ℤ
  pub lease : ℤ
  pub publish_timeout : ℤ
  pub write_timeout : ℤ
  pub retry_policy : Claim → Outcome → RetryDecision

-- Which of the arguments of `New` are not nil.
pub record Given : Type 0 where
  pub has_store : Bool
  pub has_publisher : Bool
  pub has_retry : Bool
  pub has_observe : Bool

pub data NewError : Type 0 where
  arguments_required bounds_invalid : NewError

abbrev pub day : ℤ
day = pos 86400000000000

-- `New`; `ok tt` stands for the relay over the given arguments.
unfoldable pub new : Given → Config → Result NewError (Unit {0})
new g c =
    if not g.has_store || not g.has_publisher || not g.has_retry || not g.has_observe
    then err arguments_required
    else if ltb_ℤ c.concurrency (pos 1)
        || ltb_ℤ (pos 1000) c.concurrency
        || leb_ℤ c.poll_interval (pos 0)
        || leb_ℤ c.publish_timeout (pos 0)
        || leb_ℤ c.write_timeout (pos 0)
        || ltb_ℤ day c.lease
        || leb_ℤ c.lease c.publish_timeout
        || leb_ℤ (c.lease -ℤ c.publish_timeout) c.write_timeout
    then err bounds_invalid
    else ok tt

-- Only the two proofs of an outcome are kept.
unfoldable pub normalised : Outcome → Outcome
normalised confirmed = confirmed
normalised rejected = rejected
normalised _ = unknown

abbrev pub code_of : Outcome → Bytes
code_of rejected = literal "publish_rejected"
code_of _ = literal "publish_unknown"

abbrev pub lift_error :
    {S : Type 0} → Result StoreError (Unit {0}) × S → Result RelayError (Unit {0}) × S
lift_error (ok u, s) = (ok u, s)
lift_error (err e, s) = (err (store_failed e), s)

module _ {S : Type 0} (store : Store S) (config : Config) where
  -- What the host's decision makes of a publication that was not confirmed.
  unfoldable pub write_decision :
      Claim → Outcome → RetryDecision → S → Result RelayError (Unit {0}) × S
  write_decision c outcome d s =
      if d.quarantines
      then lift_error (store.quarantine c (code_of outcome) s)
      else if leb_ℤ d.delay (pos 0)
      then (err policy_invalid, s)
      else lift_error (store.retry c d.delay (code_of outcome) s)

  unfoldable pub write_back : Claim → Outcome → S → Result RelayError (Unit {0}) × S
  unfolding write_decision
  write_back c confirmed s = lift_error (store.confirm c s)
  write_back c outcome s = write_decision c outcome (config.retry_policy c outcome) s

  abbrev pub written_event : Outcome → Result RelayError (Unit {0}) → Event
  written_event outcome (ok u) = write_succeeded outcome
  written_event outcome (err (store_failed stale_claim)) = stale_write_rejected outcome
  written_event outcome (err e) = write_failed outcome e

  -- `deliver`, given what the publisher returned; the result is the events and the state.
  unfoldable pub deliver : Outcome → Claim → S → List Event × S
  unfolding write_back normalised
  deliver reported c s =
      let outcome = normalised reported in
      let (r, s') = write_back c outcome s in
      (publish_result outcome ∷ written_event outcome r ∷ [], s')

-- What ends the wait between two scans.
pub data Signal : Type 0 where
  done woken wake_closed timer_fired : Signal

-- What one round of `Run` meets: cancellation at each of the places that test for it, what the
-- publisher returns for each claim, what other processes do to the state before the scan and before
-- each write, and the signal that ends the wait. `order` is the order in which the goroutines of the
-- admitted claims write.
pub record Tick (S : Type 0) : Type 0 where
  pub cancelled_head : Bool
  pub cancelled_error : Bool
  pub cancelled_before : ℕ → Bool
  pub cancelled_after : Bool
  pub publish : Claim → Outcome
  pub order : List Claim → List Claim
  pub others : ℕ → S → S
  pub signal : Signal

pub data Exit : Type 0 where
  stopped too_many_claims already_running : Exit
  scan_error : StoreError → Exit

-- How a round ends: `Run` returns, or goes on to the next.
pub data Next : Type 0 where
  exits : Exit → Next
  continues : Next

abbrev pub waits : Signal → Next
waits done = exits stopped
waits _ = continues

-- A round that exits ends the run; behind another come the rounds that follow.
abbrev pub go_on :
    {S : Type 0}
    → Next
    → List Event
    → S
    → Option Exit × List Event × S
    → Option Exit × List Event × S
go_on (exits x) es s rest = (some x, es, s)
go_on continues es s rest = (rest.0, es ++ rest.1, rest.2)

-- The claims admitted before the first cancellation; `k` is the place of the next one.
unfoldable pub admitted : (ℕ → Bool) → ℕ → List Claim → List Claim
admitted cancelled k [] = []
admitted cancelled k (c ∷ cs) =
    let rest = admitted cancelled (suc k) cs in if cancelled k then [] else c ∷ rest

module _ {S : Type 0} (store : Store S) (config : Config) where
  unfoldable pub deliver_all : Tick S → ℕ → List Claim → S → List Event × S
  deliver_all t k [] s = ([], s)
  deliver_all t k (c ∷ cs) s =
      let (es, s') = deliver store config (t.publish c) c (t.others (suc k) s) in
      let (fs, s'') = deliver_all t (suc k) cs s' in (es ++ fs, s'')

  -- The part of a round behind a successful scan.
  unfoldable pub batch : Tick S → List Claim → S → Next × List Event × S
  unfolding deliver_all admitted
  batch t cs s =
      if ltb_ℤ config.concurrency (pos (length cs))
      then (exits too_many_claims, [], s)
      else let (es, s') = deliver_all t 0 (t.order (admitted t.cancelled_before 0 cs)) s in
        (
          if t.cancelled_after
              then exits stopped
              else if not (ltb_ℤ (pos (length cs)) config.concurrency)
              then continues
              else waits t.signal,
          scan_succeeded ∷ es,
          s',
        )

  abbrev pub scanned : Tick S → Result StoreError (List Claim) × S → Next × List Event × S
  scanned t (ok cs, s) = batch t cs s
  scanned t (err e, s) =
      if t.cancelled_error
      then (exits stopped, [], s)
      else (exits (scan_error e), claim_failed e ∷ [], s)

  unfoldable pub round : Tick S → S → Next × List Event × S
  unfolding batch
  round t s =
      if t.cancelled_head
      then (exits stopped, [], s)
      else scanned t (store.claim_due config.concurrency config.lease (t.others 0 s))

  -- The loop of `Run` over the rounds that the ticks describe; no exit means that it goes on.
  unfoldable pub rounds : List (Tick S) → S → Option Exit × List Event × S
  rounds [] s = (none, [], s)
  rounds (t ∷ ts) s = let (n, es, s') = round t s in let rest = rounds ts s' in go_on n es s' rest

  -- `Run`: one at a time. The flag is cleared when it returns.
  unfoldable pub run : Bool → List (Tick S) → S → Option Exit × List Event × S
  unfolding rounds
  run running ts s = if running then (some already_running, [], s) else rounds ts s
