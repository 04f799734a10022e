-- ===== src/Relay/Bounds.antt =====
-- relay/relay.go: the configurations that `New` accepts.
use reliable_messaging.Base.{◌+◌, ◌<◌, true, ◌≡◌, ◌↔◌, arith, ok}
use reliable_messaging.Base.Int.{pos, pos_part, ◌≤ℤ◌, ◌<ℤ◌}
use reliable_messaging.Relay.{Given, Config, day, new}

pub record IsGiven (g : Given) : Type 0 where
  pub store_given : g.has_store ≡ true
  pub publisher_given : g.has_publisher ≡ true
  pub retry_given : g.has_retry ≡ true
  pub observe_given : g.has_observe ≡ true

-- A publication and a write fit into one lease.
pub record IsBounded (c : Config) : Type 0 where
  pub some_concurrency : pos 1 ≤ℤ c.concurrency
  pub concurrency_capped : c.concurrency ≤ℤ pos 1000
  pub polls : pos 0 <ℤ c.poll_interval
  pub publishes : pos 0 <ℤ c.publish_timeout
  pub writes : pos 0 <ℤ c.write_timeout
  pub lease_capped : c.lease ≤ℤ day
  pub fits : pos_part c.publish_timeout + pos_part c.write_timeout < pos_part c.lease

-- `New` accepts exactly the complete arguments with a concurrency of 1 to 1000, positive intervals and
-- timeouts, and a lease of at most a day that is longer than both timeouts together.
pub new-IsBounded_iff : (g : Given) (c : Config) → (new g c ≡ ok tt) ↔ (IsGiven g × IsBounded c)
unfolding new
new-IsBounded_iff g c = (λ h. (ground arith, ground arith), λ h. ground arith)
