-- ===== src/Examples/Catalogs.antt =====
-- catalog/ and its theorems, on a configuration of two topics and three events.
use reliable_messaging.Base.{true, [], ◌∷◌, ◌≡◌, refl, ok}
use reliable_messaging.Base.Bytes.{bytes_eq, literal}
use reliable_messaging.Catalog.{
  EventConfig, Config, strict, best_effort, durable_outbox, find_key, is_referenced, validate_with,
  get_topic_name, get_topic_for_event, get_events_for_topic, new_catalog,
}
use reliable_messaging.Catalog.Index.{
  HasDistinctKeys, get_events_for_topic-new_catalog, get_topic_for_event-new_catalog,
}
use reliable_messaging.Catalog.Checked.{validate_with-is_referenced}

abbrev placed : EventConfig
placed = record {
  topic = literal "orders";
  delivery = durable_outbox;
  aggregate = literal "order";
  domain = literal "sales";
  description = [];
  handler = literal "on_placed";
}

abbrev config : Config
config = record {
  version = literal "1";
  topics =
      (literal "orders", record { name = literal "orders-v1"; description = [] })
      ∷ (literal "stock", record { name = literal "stock-v1"; description = [] })
      ∷ [];
  events =
      (literal "placed", placed)
      ∷ (literal "moved", record placed { topic = literal "stock"; delivery = best_effort })
      ∷ (literal "paid", placed)
      ∷ [];
}

accepted : validate_with strict config ≡ ok tt
unfolding validate_with bytes_eq
accepted = refl

distinct : HasDistinctKeys config.events
unfolding find_key bytes_eq
distinct = (refl, (refl, (refl, tt)))

get_topic_for_event-new_catalog_example :
    get_topic_for_event (new_catalog config) (literal "moved")
    ≡ get_topic_name config (literal "moved")
get_topic_for_event-new_catalog_example =
    get_topic_for_event-new_catalog config (literal "moved") distinct

get_events_for_topic-new_catalog_example :
    get_events_for_topic (new_catalog config) (literal "orders-v1")
    ≡ literal "placed" ∷ literal "paid" ∷ []
unfolding find_key bytes_eq
get_events_for_topic-new_catalog_example =
    get_events_for_topic-new_catalog config (literal "orders-v1")

stock_used : is_referenced (literal "stock") config.events ≡ true
unfolding find_key bytes_eq
stock_used =
    validate_with-is_referenced strict config (literal "stock")
      (record { name = literal "stock-v1"; description = [] }) accepted refl refl
