-- ===== src/Examples/Routings.antt =====
-- transport/routing.go and transport/routing_v3.go and their theorems, on a readable route and a
-- historical one with a hashed name.
use reliable_messaging.Base.Framing.{length_prefixed}
use reliable_messaging.Base.Text.{hex}
use reliable_messaging.Base.{◌<◌, [], ◌∷◌, ◌≡◌, refl, List, All, length, Result, ok, err}
use reliable_messaging.Base.Bytes.{put_uint64, valid_utf8, bytes_eq, Bytes, literal}
use reliable_messaging.Transport.Routing.{
  route_field, key_eq, contains_zero, readable_field, RouteBinding, RouteError, physical_topic_v2,
}
use reliable_messaging.Transport.Routes.{
  find_route, any_route, validate_routes, Resolver, new_route_resolver,
}
use reliable_messaging.Transport.Canonical.{IsCanonical}
use reliable_messaging.Transport.Validated.{Spread, validate_routes-Spread}
use reliable_messaging.Transport.Recorded.{IsRecorded, new_route_resolver-IsRecorded}
use reliable_messaging.Examples.Data.{env}

abbrev readable : RouteBinding
readable = record {
  topic = literal "orders";
  subscription = literal "billing";
  physical_topic = literal "orders--normal--shop--r2";
  consumer_group = literal "orders--billing";
  message_type = literal "NORMAL";
  owner = literal "shop";
  route_revision = literal "r2";
  naming_scheme = literal "readable-v1";
}

abbrev transactional : RouteBinding
transactional = record readable {
  message_type = literal "TRANSACTION";
  physical_topic = literal "orders--tx--shop--r2";
}

abbrev name_of : Result RouteError Bytes → Bytes
name_of (ok n) = n
name_of (err e) = []

abbrev hashed : RouteBinding
hashed = record {
  topic = literal "orders";
  subscription = [];
  physical_topic =
      name_of (
        physical_topic_v2 env (literal "orders") (literal "NORMAL") (literal "shop")
          (literal "r1"));
  consumer_group = [];
  message_type = literal "NORMAL";
  owner = literal "shop";
  route_revision = literal "r1";
  naming_scheme = [];
}

abbrev active : List RouteBinding
active = readable ∷ transactional ∷ []

accepted : validate_routes env active ≡ ok tt
unfolding validate_routes bytes_eq readable_field contains_zero any_route find_route key_eq
accepted = refl

validate_routes-Spread_example :
    (0 < length active) × All (IsCanonical env) active × Spread [] active
validate_routes-Spread_example = validate_routes-Spread env active accepted

abbrev resolver : Resolver
resolver = record { active = active; recorded = hashed ∷ transactional ∷ readable ∷ [] }

resolves : new_route_resolver env active (hashed ∷ []) ≡ ok resolver
unfolding new_route_resolver bytes_eq readable_field contains_zero key_eq route_field valid_utf8 hex
    length_prefixed put_uint64
resolves = refl

new_route_resolver-IsRecorded_example :
    All (IsRecorded resolver) active × All (IsRecorded resolver) (hashed ∷ [])
new_route_resolver-IsRecorded_example =
    new_route_resolver-IsRecorded env active (hashed ∷ []) resolver resolves
