-- ===== src/Transport/Routing.antt =====
-- transport/routing.go, transport/routing_v2.go and transport/routing_v3.go: route bindings with
-- their canonical names, and the resolver over active and historical routes.
use reliable_messaging.Base.{
  ℕ, Bool, true, false, not, ◌&&◌, ◌||◌, List, [], ◌∷◌, ◌++◌, ltb, leb, ◌==◌, if◌then◌else◌, length,
  is_empty, take, map, Result, ok, err,
}
use reliable_messaging.Base.Bytes.{Bytes, literal, bytes_eq, valid_utf8}
use reliable_messaging.Base.Framing.{length_prefixed}
use reliable_messaging.Base.Text.{hex}
use reliable_messaging.Env.{Env}

pub record RouteBinding : Type 0 where
  pub topic : Bytes
  pub subscription : Bytes
  pub physical_topic : Bytes
  pub consumer_group : Bytes
  pub message_type : Bytes
  pub owner : Bytes
  pub route_revision : Bytes
  pub naming_scheme : Bytes

-- One constructor for each text of an error.
pub data RouteError : Type 0 where
  routes_required invalid_binding duplicate_binding topic_collision group_collision : RouteError
  invalid_topic_v2 invalid_subscription_v2 not_readable name_too_long type_required : RouteError
  incomplete_route unknown_scheme identity_collision resource_overlap mixed_schemes : RouteError
  not_published not_recorded not_subscribed : RouteError
  unsupported_manifest codec_differs historical_needs_v3 historical_hash_required : RouteError

abbrev pub normal_type : Bytes
normal_type = literal "NORMAL"

abbrev pub transaction_type : Bytes
transaction_type = literal "TRANSACTION"

abbrev pub readable_naming : Bytes
readable_naming = literal "readable-v1"

-- `strings.ContainsRune(s, 0)`
unfoldable pub contains_zero : Bytes → Bool
contains_zero [] = false
contains_zero (b ∷ bs) = b == 0 || contains_zero bs

module _ (env : Env) where
  unfoldable pub route_digest : Bytes → Bytes
  route_digest value = hex (take 16 (env.sha256 value))

  unfoldable pub physical_topic_v1 : Bytes → Bytes
  unfolding route_digest
  physical_topic_v1 topic = literal "rmq_t_" ++ route_digest topic

  unfoldable pub consumer_group_v1 : Bytes → Bytes → Bytes
  unfolding route_digest
  consumer_group_v1 topic subscription =
      literal "rmq_g_" ++ route_digest (topic ++ (0 ∷ subscription))

unfoldable pub route_field : Bytes → ℕ → Bool
route_field value limit =
    not (is_empty value)
    && leb (length value) limit
    && valid_utf8 value
    && not (contains_zero value)

module _ (env : Env) where
  unfoldable pub route_digest_v2 : Bytes → List Bytes → Bytes
  route_digest_v2 domain fields = hex (take 16 (env.sha256 (domain ++ length_prefixed fields)))

  unfoldable pub physical_topic_v2 : Bytes → Bytes → Bytes → Bytes → Result RouteError Bytes
  unfolding route_digest_v2
  physical_topic_v2 topic kind owner revision =
      if not (route_field topic 255)
        || not (route_field owner 128)
        || not (route_field revision 128)
        || (not (bytes_eq kind normal_type) && not (bytes_eq kind transaction_type))
      then err invalid_topic_v2
      else ok (
          literal "rmq2_t_"
          ++ route_digest_v2 (literal "rmq-topic-v2" ++ (0 ∷ []))
              (topic ∷ kind ∷ owner ∷ revision ∷ []))

  unfoldable pub consumer_group_v2 : Bytes → Bytes → Result RouteError Bytes
  unfolding route_digest_v2
  consumer_group_v2 topic subscription =
      if not (route_field topic 255) || not (route_field subscription 255)
      then err invalid_subscription_v2
      else ok (
          literal "rmq2_g_"
          ++ route_digest_v2 (literal "rmq-group-v2" ++ (0 ∷ [])) (topic ∷ subscription ∷ []))

-- `^[a-z0-9]+([.-][a-z0-9]+)*$`: letters and digits, and single separators between them.
abbrev pub is_token : ℕ → Bool
is_token b = (leb 97 b && leb b 122) || (leb 48 b && leb b 57)

abbrev pub is_separator : ℕ → Bool
is_separator b = b == 45 || b == 46

unfoldable pub tokens_from : Bool → Bytes → Bool
tokens_from behind_token [] = behind_token
tokens_from behind_token (b ∷ bs) =
    let rest = tokens_from (is_token b) bs in
    if is_token b then rest else behind_token && is_separator b && rest

unfoldable pub readable_field : Bytes → Bool
unfolding tokens_from
readable_field field = tokens_from false field

abbrev pub dashed : Bytes → Bytes
dashed field = map (λ b. if b == 46 then 45 else b) field

-- `strings.Join(parts, "--")`
unfoldable pub join_dashes : List Bytes → Bytes
join_dashes [] = []
join_dashes (p ∷ []) = p
join_dashes (p ∷ q ∷ ps) = p ++ (literal "--" ++ join_dashes (q ∷ ps))

unfoldable pub all_readable : List Bytes → Bool
all_readable [] = true
all_readable (f ∷ fs) = readable_field f && all_readable fs

unfoldable pub readable_name : List Bytes → Result RouteError Bytes
unfolding all_readable join_dashes
readable_name fields =
    if not (all_readable fields)
    then err not_readable
    else if ltb 64 (length (join_dashes (map dashed fields)))
    then err name_too_long
    else ok (join_dashes (map dashed fields))

unfoldable pub physical_topic_v3 : Bytes → Bytes → Bytes → Bytes → Result RouteError Bytes
unfolding readable_name
physical_topic_v3 topic kind owner revision =
    if bytes_eq kind normal_type
    then readable_name (topic ∷ literal "normal" ∷ owner ∷ revision ∷ [])
    else if bytes_eq kind transaction_type
    then readable_name (topic ∷ literal "tx" ∷ owner ∷ revision ∷ [])
    else err type_required

unfoldable pub consumer_group_v3 : Bytes → Bytes → Result RouteError Bytes
unfolding readable_name
consumer_group_v3 topic subscription = readable_name (topic ∷ subscription ∷ [])

module _ (env : Env) where
  unfoldable pub expected_physical_topic :
      Bytes → Bytes → Bytes → Bytes → Bytes → Result RouteError Bytes
  unfolding physical_topic_v1 physical_topic_v2 physical_topic_v3
  expected_physical_topic topic kind owner revision scheme =
      if bytes_eq scheme readable_naming
      then physical_topic_v3 topic kind owner revision
      else if not (is_empty scheme)
      then err unknown_scheme
      else if not (is_empty kind)
      then physical_topic_v2 env topic kind owner revision
      else if not (is_empty owner) || not (is_empty revision)
      then err incomplete_route
      else ok (physical_topic_v1 env topic)

  unfoldable pub expected_consumer_group : RouteBinding → Result RouteError Bytes
  unfolding consumer_group_v1 consumer_group_v2 consumer_group_v3
  expected_consumer_group r =
      if is_empty r.subscription
      then ok []
      else if bytes_eq r.naming_scheme readable_naming
      then consumer_group_v3 r.topic r.subscription
      else if not (is_empty r.naming_scheme)
      then err unknown_scheme
      else if not (is_empty r.message_type)
      then consumer_group_v2 env r.topic r.subscription
      else ok (consumer_group_v1 env r.topic r.subscription)

pub record RouteKey : Type 0 where
  pub topic : Bytes
  pub message_type : Bytes
  pub owner : Bytes
  pub route_revision : Bytes

abbrev pub key_for : RouteBinding → RouteKey
key_for r = record {
  topic = r.topic;
  message_type = r.message_type;
  owner = r.owner;
  route_revision = r.route_revision;
}

unfoldable pub key_eq : RouteKey → RouteKey → Bool
key_eq a b =
    bytes_eq a.topic b.topic
    && bytes_eq a.message_type b.message_type
    && bytes_eq a.owner b.owner
    && bytes_eq a.route_revision b.route_revision

abbrev pub same_binding : RouteBinding → RouteBinding → Bool
same_binding r s = key_eq (key_for r) (key_for s) && bytes_eq r.subscription s.subscription

abbrev pub same_logical : RouteBinding → RouteBinding → Bool
same_logical r s = bytes_eq r.topic s.topic && bytes_eq r.subscription s.subscription
