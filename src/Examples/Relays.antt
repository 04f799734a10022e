-- ===== src/Examples/Relays.antt =====
-- relay/relay.go and its theorems: two rounds over the table of the MySQL store.
use reliable_messaging.Base.{true, false, [], ◌∷◌, ◌≡◌, refl, ok, arith}
use reliable_messaging.Base.Int.{pos}
use reliable_messaging.Outbox.{Claim}
use reliable_messaging.Transport.{Outcome, unknown}
use reliable_messaging.Storage.Mysql.Rows.{answered, find_row}
use reliable_messaging.Relay.{Config, Given, Tick, new, run, timer_fired}
use reliable_messaging.Relay.Bounds.{IsGiven, IsBounded, new-IsBounded_iff}
use reliable_messaging.Relay.Runs.{IsAllowed}
use reliable_messaging.Relay.OverMysql.{
  World, mysql_store, IsWaiting, IsNamed, IsOther, run-IsWaiting,
}
use reliable_messaging.Examples.Data.{
  env, io, unlocked, table, due_row, order_placed, second, minute,
}
use reliable_messaging.Examples.Tables.{table-IsTable}

abbrev given : Given
given = record { has_store = true; has_publisher = true; has_retry = true; has_observe = true }

abbrev config : Config
config = record {
  concurrency = pos 5;
  poll_interval = second;
  lease = minute;
  publish_timeout = second;
  write_timeout = second;
  retry_policy = λ c o. record { delay = second; quarantines = false };
}

accepts : new given config ≡ ok tt
unfolding new
accepts = refl

new-IsBounded_iff_example : IsGiven given × IsBounded config
new-IsBounded_iff_example = (new-IsBounded_iff given config).0 accepts

abbrev world : World
world = record {
  table = table;
  answers = λ k. record { now = 100; reply = answered; io = io; locked = unlocked };
  step = 0;
}

-- The broker never answers in time.
abbrev publish : Claim → Outcome
publish c = unknown

abbrev tick : Tick World
tick = record {
  cancelled_head = false;
  cancelled_error = false;
  cancelled_before = λ k. false;
  cancelled_after = false;
  publish = publish;
  order = λ cs. cs;
  others = λ k w. w;
  signal = timer_fired;
}

tick-IsAllowed : IsAllowed (IsWaiting 1 order_placed) IsNamed (IsOther 1 order_placed) tick
tick-IsAllowed = record {
  confirms = λ c e. cc (e);
  others_keep = λ k w h. h;
  others_usable = λ k c w h. h;
  schedules = λ w cs h. h;
}

world-IsWaiting : IsWaiting 1 order_placed world
unfolding find_row
world-IsWaiting = record {
  keyed = table-IsTable;
  small = omega arith;
  unpublished = record {
    row = due_row;
    stored = refl;
    not_published = λ e. cc (e);
    content = refl;
  };
}

run-IsWaiting_example :
    IsWaiting 1 order_placed (run (mysql_store env) config false (tick ∷ tick ∷ []) world).2
run-IsWaiting_example =
    run-IsWaiting 1 order_placed env config false (tick ∷ tick ∷ []) world
      (tick-IsAllowed, (tick-IsAllowed, tt)) world-IsWaiting
