-- ===== src/Catalog/Index.antt =====
-- catalog/catalog.go: the index that `NewCatalog` builds answers as the configuration does.
use reliable_messaging.Base.{
  Bool, true, false, List, [], ◌∷◌, ◌++◌, Option, none, some, ◌≡◌, refl, sym, ◌∙◌, ap, arith,
  if◌then◌else◌, Bool-cases, inl, inr, ◌⊎◌,
}
use mathlib.Core.Path.{subst}
use mathlib.Core.List.{append_assoc, append-nil}
use reliable_messaging.Base.Bytes.{Bytes, bytes_eq, bytes_eq_iff}
use reliable_messaging.Catalog.{
  TopicConfig, EventConfig, Config, find_key, put, topic_name_of, get_topic_name, Catalog, list_of,
  get_events_for_topic, get_topic_for_event, index_name, index, new_catalog,
}

pub find_key-put :
    {V : Type 0} (j k : Bytes) (v : V) (m : List (Bytes × V))
    → find_key j (put k v m) ≡ (if bytes_eq k j then some v else find_key j m)
unfolding find_key put
find_key-put j k v [] = refl
find_key-put j k v ((l, w) ∷ m) =
    let ih = find_key-put j k v m in
    ground (arith, ih, bytes_eq_iff l k, bytes_eq_iff k j, bytes_eq_iff l j)

-- No key twice.
abbrev pub HasDistinctKeys : {V : Type 0} → List (Bytes × V) → Type 0
HasDistinctKeys [] = Unit
HasDistinctKeys ((k, v) ∷ m) = (find_key k m ≡ none) × HasDistinctKeys m

abbrev or_else : Option Bytes → Option Bytes → Option Bytes
or_else none old = old
or_else (some a) old = some a

indexed_name :
    (event k : Bytes) (o : Option Bytes) (c : Catalog)
    → find_key event (index_name k o c).event_to_topic ≡ (
        if bytes_eq k event
        then or_else o (find_key event c.event_to_topic)
        else find_key event c.event_to_topic)
indexed_name event k none c = ground arith
indexed_name event k (some n) c = find_key-put event k n c.event_to_topic ∙ ground arith

find_key-index :
    (topics : List (Bytes × TopicConfig)) (event : Bytes) (events : List (Bytes × EventConfig))
    (c : Catalog)
    → HasDistinctKeys events
    → find_key event (index topics events c).event_to_topic
      ≡ or_else (topic_name_of topics (find_key event events)) (find_key event c.event_to_topic)
unfolding index
find_key-index topics event [] c h = unfold find_key in refl
find_key-index topics event ((k, e) ∷ es) c (fresh, h) =
    find_key-index topics event es (index_name k (topic_name_of topics (some e)) c) h
    ∙ here (Bool-cases (bytes_eq k event))
  where
    here :
        (bytes_eq k event ≡ true) ⊎ (bytes_eq k event ≡ false)
        → or_else
            (topic_name_of topics (find_key event es))
            (find_key event (index_name k (topic_name_of topics (some e)) c).event_to_topic)
          ≡ or_else
              (topic_name_of topics (find_key event ((k, e) ∷ es)))
              (find_key event c.event_to_topic)
    here (inl same) =
        let key = (bytes_eq_iff k event).0 same in
        let gone : find_key event es ≡ none = subst (λ b. find_key b es ≡ none) (key) fresh in
        let step = indexed_name event k (topic_name_of topics (some e)) c in
        ground (arith, gone, same, step)
    here (inr other) =
        let step = indexed_name event k (topic_name_of topics (some e)) c in
        ground (arith, other, step)

or_else-none : (o : Option Bytes) → or_else o none ≡ o
or_else-none none = refl
or_else-none (some a) = refl

-- If no event stands twice, the catalog of a configuration gives each event the topic's name that the
-- configuration gives it.
pub get_topic_for_event-new_catalog :
    (cfg : Config) (event : Bytes)
    → HasDistinctKeys cfg.events
    → get_topic_for_event (new_catalog cfg) event ≡ get_topic_name cfg event
unfolding get_topic_for_event new_catalog get_topic_name find_key
get_topic_for_event-new_catalog cfg event h =
    find_key-index cfg.topics event cfg.events
      (record { event_to_topic = []; topic_to_events = [] }) h
    ∙ or_else-none (topic_name_of cfg.topics (find_key event cfg.events))

-- The events of a configuration whose topic has the name, in the order of the entries.
abbrev has_name : Bytes → Option Bytes → Bool
has_name name none = false
has_name name (some n) = bytes_eq n name

abbrev pub events_named :
    Bytes → List (Bytes × TopicConfig) → List (Bytes × EventConfig) → List Bytes
events_named name topics [] = []
events_named name topics ((k, e) ∷ es) =
    let rest = events_named name topics es in
    if has_name name (topic_name_of topics (some e)) then k ∷ rest else rest

abbrev events_at : Bytes → Catalog → List Bytes
events_at name c = list_of (find_key name c.topic_to_events)

indexed_events :
    (name k : Bytes) (o : Option Bytes) (c : Catalog)
    → events_at name (index_name k o c)
      ≡ (if has_name name o then events_at name c ++ (k ∷ []) else events_at name c)
unfolding get_events_for_topic
indexed_events name k none c = refl
indexed_events name k (some n) c = elim (Bool-cases (bytes_eq n name)) [
  | inl same ↦
      let key = (bytes_eq_iff n name).0 same in
      rw (find_key-put name n (events_at n c ++ (k ∷ [])) c.topic_to_events) (rw same (rw key refl))
  | inr other ↦
      rw (find_key-put name n (events_at n c ++ (k ∷ [])) c.topic_to_events) (rw other refl)
]

append_one :
    (b : Bool) (xs : List Bytes) (k : Bytes) (ys : List Bytes)
    → (if b then xs ++ (k ∷ []) else xs) ++ ys ≡ xs ++ (if b then k ∷ ys else ys)
append_one true xs k ys = append_assoc xs (k ∷ []) ys
append_one false xs k ys = refl

list_of-index :
    (name : Bytes) (topics : List (Bytes × TopicConfig)) (events : List (Bytes × EventConfig))
    (c : Catalog)
    → events_at name (index topics events c) ≡ events_at name c ++ events_named name topics events
unfolding index
list_of-index name topics [] c = sym (append-nil (events_at name c))
list_of-index name topics ((k, e) ∷ es) c =
    list_of-index name topics es (index_name k (topic_name_of topics (some e)) c)
    ∙ (ap (λ (xs : List Bytes). xs ++ events_named name topics es)
          (indexed_events name k (topic_name_of topics (some e)) c)
        ∙ append_one (has_name name (topic_name_of topics (some e))) (events_at name c) k
            (events_named name topics es))

-- The catalog lists under a topic's name exactly the events that the configuration gives a topic of
-- that name, in the order of the entries.
pub get_events_for_topic-new_catalog :
    (cfg : Config) (name : Bytes)
    → get_events_for_topic (new_catalog cfg) name ≡ events_named name cfg.topics cfg.events
unfolding get_events_for_topic new_catalog find_key
get_events_for_topic-new_catalog cfg name =
    list_of-index name cfg.topics cfg.events (record { event_to_topic = []; topic_to_events = [] })
