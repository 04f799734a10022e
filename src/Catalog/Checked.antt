-- ===== src/Catalog/Checked.antt =====
-- catalog/config.go: what `ValidateWithOptions` ensures of an accepted configuration.
use reliable_messaging.Base.{
  Bool, true, false, not, List, [], ◌∷◌, some, ◌≡◌, refl, arith, is_empty, ok, >>-eq-ok, reject_if,
  Bool-cases, inl, inr,
}
use mathlib.Core.Path.{subst}
use reliable_messaging.Base.Bytes.{Bytes, bytes_eq, bytes_eq_iff}
use reliable_messaging.Catalog.{
  TopicConfig, EventConfig, Config, CatalogError, unused_topic, ValidateOptions, delivery_valid,
  find_key, check_events, is_referenced, check_topics, validate_with,
}

-- An event with a topic of the configuration, a supported delivery, and a handler where one is asked for.
pub record IsEvent (opts : ValidateOptions) (topics : List (Bytes × TopicConfig)) (e : EventConfig)
    : Type 0 where
  pub topic : TopicConfig
  pub known : find_key e.topic topics ≡ some topic
  pub delivered : is_empty e.delivery ≡ false
  pub supported : delivery_valid e.delivery ≡ true
  pub handled : opts.require_handler ≡ true → is_empty e.handler ≡ false

reject_if-eq-ok : (b : Bool) (e : CatalogError) → reject_if b e ≡ ok tt → b ≡ false
reject_if-eq-ok true e h = absurd (cc)
reject_if-eq-ok false e h = refl

check_topics-is_referenced :
    (events : List (Bytes × EventConfig)) (topics : List (Bytes × TopicConfig)) (key : Bytes)
    (t : TopicConfig)
    → check_topics events topics ≡ ok tt
    → find_key key topics ≡ some t
    → is_referenced key events ≡ true
unfolding check_topics find_key
check_topics-is_referenced events [] key t h at = absurd (cc)
check_topics-is_referenced events ((k, x) ∷ ts) key t h at =
    let (first, rest) = >>-eq-ok (reject_if (not (is_referenced k events)) unused_topic) _ h in
    elim (Bool-cases (bytes_eq k key)) [
      | inl same ↦
          let used = reject_if-eq-ok (not (is_referenced k events)) unused_topic first in
          let e = (bytes_eq_iff k key).0 same in
          subst (λ b. is_referenced b events ≡ true) (e) (ground (arith, used))
      | inr other ↦ check_topics-is_referenced events ts key t rest (ground (arith, at, other))
    ]

-- Every topic of an accepted configuration has an event, if that is asked for.
pub validate_with-is_referenced :
    (opts : ValidateOptions) (cfg : Config) (key : Bytes) (t : TopicConfig)
    → validate_with opts cfg ≡ ok tt
    → opts.require_topic_referenced ≡ true
    → find_key key cfg.topics ≡ some t
    → is_referenced key cfg.events ≡ true
unfolding validate_with
validate_with-is_referenced opts cfg key t h asked at =
    let topics_ok = (>>-eq-ok (check_events opts cfg.topics cfg.events) _ h).1 in
    let checked : check_topics cfg.events cfg.topics ≡ ok tt = ground (arith, topics_ok, asked) in
    check_topics-is_referenced cfg.events cfg.topics key t checked at
