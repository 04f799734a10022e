-- ===== src/Catalog.antt =====
-- catalog/config.go and catalog/catalog.go: the contract of events and topics, and its index. A Go map is
-- the list of its entries in the order in which a loop over it visits them.
pub mod Index
pub mod Checked
use reliable_messaging.Base.{
  Bool, true, false, not, ◌&&◌, ◌||◌, List, [], ◌∷◌, ◌++◌, Option, none, some, if◌then◌else◌,
  is_empty, Result, ok, err, ◌>>◌, ◌>>=◌, reject_if,
}
use reliable_messaging.Base.Bytes.{Bytes, literal, bytes_eq}

pub record TopicConfig : Type 0 where
  pub name : Bytes
  pub description : Bytes

pub record EventConfig : Type 0 where
  pub topic : Bytes
  pub delivery : Bytes
  pub aggregate : Bytes
  pub domain : Bytes
  pub description : Bytes
  pub handler : Bytes

pub record Config : Type 0 where
  pub version : Bytes
  pub topics : List (Bytes × TopicConfig)
  pub events : List (Bytes × EventConfig)

pub data CatalogError : Type 0 where
  unmarshal_failed unknown_topic empty_handler empty_delivery invalid_delivery unused_topic :
      CatalogError

pub record ValidateOptions : Type 0 where
  pub require_handler : Bool
  pub require_topic_referenced : Bool

abbrev pub strict : ValidateOptions
strict = record { require_handler = true; require_topic_referenced = true }

abbrev pub best_effort : Bytes
best_effort = literal "best_effort"

abbrev pub durable_outbox : Bytes
durable_outbox = literal "durable_outbox"

-- `DeliveryClass.Valid`
abbrev pub delivery_valid : Bytes → Bool
delivery_valid d = bytes_eq d best_effort || bytes_eq d durable_outbox

module _ {V : Type 0} where
  unfoldable pub find_key : Bytes → List (Bytes × V) → Option V
  find_key key [] = none
  find_key key ((k, v) ∷ m) = if bytes_eq k key then some v else find_key key m

  unfoldable pub put : Bytes → V → List (Bytes × V) → List (Bytes × V)
  put key v [] = (key, v) ∷ []
  put key v ((k, w) ∷ m) =
      let rest = put key v m in if bytes_eq k key then (key, v) ∷ m else (k, w) ∷ rest

abbrev pub is_none {ℓ} : {V : Type ℓ} → Option V → Bool
is_none none = true
is_none (some v) = false

-- `ValidateWithOptions`: the loop over the events, and the loop over the topics.
unfoldable pub check_event :
    ValidateOptions → List (Bytes × TopicConfig) → EventConfig → Result CatalogError (Unit {0})
unfolding find_key
check_event opts topics e = do
  reject_if (is_none (find_key e.topic topics)) unknown_topic
  reject_if (opts.require_handler && is_empty e.handler) empty_handler
  reject_if (is_empty e.delivery) empty_delivery
  reject_if (not (delivery_valid e.delivery)) invalid_delivery

unfoldable pub check_events :
    ValidateOptions
    → List (Bytes × TopicConfig)
    → List (Bytes × EventConfig)
    → Result CatalogError (Unit {0})
unfolding check_event
check_events opts topics [] = ok tt
check_events opts topics ((k, e) ∷ es) = check_event opts topics e >> check_events opts topics es

unfoldable pub is_referenced : Bytes → List (Bytes × EventConfig) → Bool
is_referenced key [] = false
is_referenced key ((k, e) ∷ es) = bytes_eq e.topic key || is_referenced key es

unfoldable pub check_topics :
    List (Bytes × EventConfig) → List (Bytes × TopicConfig) → Result CatalogError (Unit {0})
unfolding is_referenced
check_topics events [] = ok tt
check_topics events ((k, t) ∷ ts) =
    reject_if (not (is_referenced k events)) unused_topic >> check_topics events ts

unfoldable pub validate_with : ValidateOptions → Config → Result CatalogError (Unit {0})
unfolding check_events check_topics
validate_with opts c =
    check_events opts c.topics c.events
    >> (if opts.require_topic_referenced then check_topics c.events c.topics else ok tt)

abbrev pub parsed : Option Config → Result CatalogError Config
parsed none = err unmarshal_failed
parsed (some c) = ok c

-- `ParseWithOptions`; `unmarshal` is yaml.Unmarshal into a configuration.
unfoldable pub parse_with :
    (Bytes → Option Config) → ValidateOptions → Bytes → Result CatalogError Config
unfolding validate_with
parse_with unmarshal opts text = do c ← parsed (unmarshal text); validate_with opts c; ok c

abbrev pub name_in : Option TopicConfig → Option Bytes
name_in none = none
name_in (some t) = some t.name

abbrev pub topic_name_of : List (Bytes × TopicConfig) → Option EventConfig → Option Bytes
topic_name_of topics none = none
topic_name_of topics (some e) = name_in (find_key e.topic topics)

-- `Config.GetTopicName` and `Config.GetEventsByTopic`
unfoldable pub get_topic_name : Config → Bytes → Option Bytes
unfolding find_key
get_topic_name c event = topic_name_of c.topics (find_key event c.events)

unfoldable pub events_on : Bytes → List (Bytes × EventConfig) → List Bytes
events_on key [] = []
events_on key ((k, e) ∷ es) =
    let rest = events_on key es in if bytes_eq e.topic key then k ∷ rest else rest

unfoldable pub get_events_by_topic : Config → Bytes → List Bytes
unfolding events_on
get_events_by_topic c key = events_on key c.events

abbrev pub delivery_of : Option EventConfig → Option Bytes
delivery_of none = none
delivery_of (some e) = if is_empty e.delivery then none else some e.delivery

-- `GetDeliveryClass`; none is the answer false.
unfoldable pub get_delivery_class : Config → Bytes → Option Bytes
unfolding find_key
get_delivery_class c event = delivery_of (find_key event c.events)

abbrev pub is_durable : Option Bytes → Bool
is_durable none = false
is_durable (some d) = bytes_eq d durable_outbox

unfoldable pub is_durable_outbox : Config → Bytes → Bool
unfolding get_delivery_class
is_durable_outbox c event = is_durable (get_delivery_class c event)

pub record Catalog : Type 0 where
  pub event_to_topic : List (Bytes × Bytes)
  pub topic_to_events : List (Bytes × List Bytes)

abbrev pub list_of : Option (List Bytes) → List Bytes
list_of none = []
list_of (some es) = es

unfoldable pub get_events_for_topic : Catalog → Bytes → List Bytes
unfolding find_key
get_events_for_topic c name = list_of (find_key name c.topic_to_events)

unfoldable pub get_topic_for_event : Catalog → Bytes → Option Bytes
unfolding find_key
get_topic_for_event c event = find_key event c.event_to_topic

-- The loop of `NewCatalog`
abbrev pub index_name : Bytes → Option Bytes → Catalog → Catalog
index_name event none c = c
index_name event (some name) c = record {
  event_to_topic = put event name c.event_to_topic;
  topic_to_events = put name (get_events_for_topic c name ++ (event ∷ [])) c.topic_to_events;
}

unfoldable pub index : List (Bytes × TopicConfig) → List (Bytes × EventConfig) → Catalog → Catalog
unfolding put get_events_for_topic
index topics [] c = c
index topics ((k, e) ∷ es) c = index topics es (index_name k (topic_name_of topics (some e)) c)

unfoldable pub new_catalog : Config → Catalog
unfolding index
new_catalog cfg = index cfg.topics cfg.events (record { event_to_topic = []; topic_to_events = [] })

pub record TopicSubscription : Type 0 where
  pub topic_name : Bytes
  pub topic_key : Bytes
  pub event_types : List Bytes

unfoldable pub subscriptions :
    List (Bytes × EventConfig) → List (Bytes × TopicConfig) → List TopicSubscription
unfolding events_on
subscriptions events [] = []
subscriptions events ((k, t) ∷ ts) =
    let rest = subscriptions events ts in
    if is_empty (events_on k events)
    then rest
    else record { topic_name = t.name; topic_key = k; event_types = events_on k events } ∷ rest

unfoldable pub topic_subscriptions : Config → List TopicSubscription
unfolding subscriptions
topic_subscriptions c = subscriptions c.events c.topics
