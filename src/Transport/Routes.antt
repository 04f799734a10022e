-- ===== src/Transport/Routes.antt =====
-- transport/routing.go: `ValidateRoutes`; transport/routing_v3.go: the resolver and the manifest. A map
-- that a loop fills is the list of the rows that it has seen, the latest first.
use reliable_messaging.Base.{
  ℕ, ◌^◌, Bool, true, false, not, ◌&&◌, ◌||◌, List, [], ◌∷◌, ◌++◌, Option, none, some, ltb, ◌==◌,
  if◌then◌else◌, length, is_empty, Result, ok, err, ◌>>=◌, ◌>>◌, reject_if,
}
use reliable_messaging.Base.Bytes.{Bytes, bytes_eq}
use reliable_messaging.Base.Int.{ℤ, pos, negsuc, ltb_ℤ}
use reliable_messaging.Env.{Env}
use reliable_messaging.Transport.Routing.{
  RouteBinding, RouteError, routes_required, invalid_binding, duplicate_binding, topic_collision,
  group_collision, identity_collision, resource_overlap, mixed_schemes, not_published, not_recorded,
  not_subscribed, unsupported_manifest, codec_differs, historical_needs_v3,
  historical_hash_required, readable_naming, contains_zero, expected_physical_topic,
  expected_consumer_group, RouteKey, key_for, key_eq, same_binding, same_logical,
}

unfoldable pub find_route : (RouteBinding → Bool) → List RouteBinding → Option RouteBinding
find_route test [] = none
find_route test (r ∷ rs) = if test r then some r else find_route test rs

unfoldable pub any_route : (RouteBinding → Bool) → List RouteBinding → Bool
any_route test [] = false
any_route test (r ∷ rs) = test r || any_route test rs

abbrev pub on_topic : Bytes → RouteBinding → Bool
on_topic physical r = bytes_eq r.physical_topic physical

abbrev pub in_group : Bytes → RouteBinding → Bool
in_group group r = not (is_empty r.subscription) && bytes_eq r.consumer_group group

-- An entry of a map that differs from what the row would write.
abbrev pub differs : (RouteBinding → Bool) → Option RouteBinding → Bool
differs same none = false
differs same (some old) = not (same old)

module _ (env : Env) where
  -- The canonical names of a row.
  unfoldable pub check_canonical : RouteBinding → Result RouteError (Unit {0})
  unfolding expected_physical_topic expected_consumer_group
  check_canonical r = do
    expected ←
        expected_physical_topic env r.topic r.message_type r.owner r.route_revision r.naming_scheme
    group ← expected_consumer_group env r
    reject_if
        (is_empty r.topic
          || contains_zero r.topic
          || contains_zero r.subscription
          || not (bytes_eq r.physical_topic expected)
          || not (bytes_eq r.consumer_group group))
        invalid_binding

  -- A row behind those seen before.
  unfoldable pub check_route : List RouteBinding → RouteBinding → Result RouteError (Unit {0})
  unfolding check_canonical
  check_route seen r = do
    check_canonical r
    reject_if (any_route (same_binding r) seen) duplicate_binding
    reject_if
        (differs (λ old. key_eq (key_for old) (key_for r))
          (find_route (on_topic r.physical_topic) seen))
        topic_collision
    reject_if
        (not (is_empty r.subscription)
          && differs (same_logical r) (find_route (in_group r.consumer_group) seen))
        group_collision

  unfoldable pub check_routes : List RouteBinding → List RouteBinding → Result RouteError (Unit {0})
  unfolding check_route
  check_routes seen [] = ok tt
  check_routes seen (r ∷ rs) = check_route seen r >> check_routes (r ∷ seen) rs

  unfoldable pub validate_routes : List RouteBinding → Result RouteError (Unit {0})
  unfolding check_routes
  validate_routes routes = if is_empty routes then err routes_required else check_routes [] routes

-- `RouteResolver`
pub record Resolver : Type 0 where
  pub active : List RouteBinding
  pub recorded : List RouteBinding

abbrev pub with_group : RouteBinding → Bool
with_group r = not (is_empty r.consumer_group)

abbrev pub overlap : RouteBinding → Option RouteBinding → Result RouteError (Unit {0})
overlap row none = ok tt
overlap row (some previous) =
    if not (key_eq (key_for previous) (key_for row))
      || not (bytes_eq previous.naming_scheme row.naming_scheme)
    then err identity_collision
    else err resource_overlap

-- A row behind those of its own list, `here`, and those of the list before.
unfoldable pub record_route :
    Bool → List RouteBinding → List RouteBinding → RouteBinding → Result RouteError (Unit {0})
unfolding find_route any_route
record_route is_active before here row = do
  overlap row (
      if any_route (on_topic row.physical_topic) here
      then none
      else find_route (on_topic row.physical_topic) before)
  reject_if
      (with_group row
        && is_active
        && differs (λ old. bytes_eq old.consumer_group row.consumer_group)
            (find_route (λ r. with_group r && same_logical r row) here))
      mixed_schemes
  reject_if
      (with_group row
        && differs (same_logical row) (
            find_route (λ r. with_group r && bytes_eq r.consumer_group row.consumer_group)
              (here ++ before)))
      group_collision

unfoldable pub record_routes :
    Bool
    → List RouteBinding
    → List RouteBinding
    → List RouteBinding
    → Result RouteError (List RouteBinding)
unfolding record_route
record_routes is_active before here [] = ok (here ++ before)
record_routes is_active before here (row ∷ rows) =
    record_route is_active before here row >> record_routes is_active before (row ∷ here) rows

unfoldable pub new_route_resolver :
    Env → List RouteBinding → List RouteBinding → Result RouteError Resolver
unfolding validate_routes record_routes
new_route_resolver env active historical = do
  validate_routes env active
  if is_empty historical then ok tt else validate_routes env historical
  first ← record_routes true [] [] active
  recorded ← record_routes false first [] historical
  ok (record { active = active; recorded = recorded })

abbrev pub or_else : RouteError → Option RouteBinding → Result RouteError RouteBinding
or_else e none = err e
or_else e (some r) = ok r

-- The three lookups; no resolver is the nil pointer.
unfoldable pub publish_route : Option Resolver → RouteKey → Result RouteError RouteBinding
unfolding find_route
publish_route none key = err not_published
publish_route (some r) key =
    or_else not_published (find_route (λ row. key_eq (key_for row) key) r.active)

abbrev pub exact : RouteKey → Option RouteBinding → Result RouteError RouteBinding
exact key none = err not_recorded
exact key (some row) = if key_eq (key_for row) key then ok row else err not_recorded

unfoldable pub recorded_route : Option Resolver → RouteKey → Bytes → Result RouteError RouteBinding
unfolding find_route
recorded_route none key physical = err not_recorded
recorded_route (some r) key physical = exact key (find_route (on_topic physical) r.recorded)

unfoldable pub subscribed : Bytes → Bytes → List RouteBinding → List RouteBinding
subscribed topic subscription [] = []
subscribed topic subscription (r ∷ rs) =
    let rest = subscribed topic subscription rs in
    if bytes_eq r.topic topic && bytes_eq r.subscription subscription && with_group r
    then r ∷ rest
    else rest

unfoldable pub subscription_routes :
    Option Resolver → Bytes → Bytes → Result RouteError (List RouteBinding)
unfolding subscribed
subscription_routes none topic subscription = err not_subscribed
subscription_routes (some r) topic subscription =
    if is_empty (subscribed topic subscription r.active)
    then err not_subscribed
    else ok (subscribed topic subscription r.active)

pub record RouteManifest : Type 0 where
  pub version : ℤ
  pub routes : List RouteBinding
  pub historical_routes : List RouteBinding

abbrev pub is_version : ℕ → ℤ → Bool
is_version k (pos n) = n == k
is_version k (negsuc n) = false

abbrev pub wrong_codec : ℤ → RouteBinding → Bool
wrong_codec version row =
    (is_version 1 version && (not (is_empty row.message_type) || not (is_empty row.naming_scheme)))
    || (is_version 2 version && (is_empty row.message_type || not (is_empty row.naming_scheme)))
    || (is_version 3 version
        && (is_empty row.message_type || not (bytes_eq row.naming_scheme readable_naming)))

abbrev pub untyped_or_named : RouteBinding → Bool
untyped_or_named row = is_empty row.message_type || not (is_empty row.naming_scheme)

abbrev pub read_manifest : Option RouteManifest → Result RouteError RouteManifest
read_manifest none = err unsupported_manifest
read_manifest (some m) = ok m

-- `ParseRouteManifest`; `unmarshal` is json.Unmarshal into a manifest.
unfoldable pub parse_route_manifest :
    Env → (Bytes → Option RouteManifest) → Bytes → Result RouteError RouteManifest
unfolding new_route_resolver any_route
parse_route_manifest env unmarshal raw = do
  reject_if (is_empty raw || ltb (2 ^ 20) (length raw)) unsupported_manifest
  m ← read_manifest (unmarshal raw)
  reject_if (ltb_ℤ m.version (pos 1) || ltb_ℤ (pos 3) m.version) unsupported_manifest
  reject_if (any_route (wrong_codec m.version) m.routes) codec_differs
  reject_if (not (is_version 3 m.version) && not (is_empty m.historical_routes)) historical_needs_v3
  reject_if (any_route untyped_or_named m.historical_routes) historical_hash_required
  resolver ← new_route_resolver env m.routes m.historical_routes
  ok m
