-- ===== src/Transport/Recorded.antt =====
-- transport/routing_v3.go: the resolver finds every route that was configured.
use reliable_messaging.Base.{
  Bool, true, false, List, [], ◌∷◌, ◌++◌, Option, none, some, ◌≡◌, refl, sym, ◌∙◌, arith,
  if◌then◌else◌, is_empty, All, ok, >>-eq-ok, >>=-eq-ok, Bool-cases, inl, inr,
}
use mathlib.Core.Path.{subst}
use reliable_messaging.Base.Bytes.{bytes_eq_iff, bytes_eq_refl}
use reliable_messaging.Env.{Env}
use reliable_messaging.Transport.Routing.{RouteBinding, RouteKey, key_for, key_eq}
use reliable_messaging.Transport.Routes.{
  find_route, any_route, on_topic, overlap, record_route, record_routes, Resolver,
  new_route_resolver, recorded_route, validate_routes,
}
use reliable_messaging.Transport.Validated.{Agrees, Spread, validate_routes-Spread}

-- The latest row on the topic of `q` has the key of `q`.
record HasKeyAt (rows : List RouteBinding) (q : RouteBinding) : Type 0 where
  row : RouteBinding
  found : find_route (on_topic q.physical_topic) rows ≡ some row
  same_key : key_for row ≡ key_for q

HasKeyAt-here : (r : RouteBinding) (rows : List RouteBinding) → HasKeyAt (r ∷ rows) r
unfolding find_route
HasKeyAt-here r rows = record {
  row = r;
  found = ground (arith, bytes_eq_refl r.physical_topic);
  same_key = refl;
}

HasKeyAt-next :
    (r q : RouteBinding) (rows : List RouteBinding)
    → (q.physical_topic ≡ r.physical_topic → key_for q ≡ key_for r)
    → HasKeyAt rows q
    → HasKeyAt (r ∷ rows) q
unfolding find_route
HasKeyAt-next r q rows agree h = elim (Bool-cases (on_topic q.physical_topic r)) [
  | inl e ↦
      let same = (bytes_eq_iff r.physical_topic q.physical_topic).0 e in
      record { row = r; found = ground (arith, e); same_key = sym (agree (sym same)) }
  | inr e ↦ record { row = h.row; found = ground (arith, e, h.found); same_key = h.same_key }
]

All-next :
    (r : RouteBinding) (seen rows : List RouteBinding)
    → All (Agrees r) seen
    → All (HasKeyAt rows) seen
    → All (HasKeyAt (r ∷ rows)) seen
All-next r [] rows a h = tt
All-next r (q ∷ qs) rows (a, later) (h, hs) =
    (HasKeyAt-next r q rows a.one_key h, All-next r qs rows later hs)

-- The rows of a list keep their keys while the list is recorded.
record_routes-own :
    (is_active : Bool) (before here rows out : List RouteBinding)
    → Spread here rows
    → All (HasKeyAt (here ++ before)) here
    → record_routes is_active before here rows ≡ ok out
    → All (HasKeyAt out) here × All (HasKeyAt out) rows
unfolding record_routes
record_routes-own is_active before here [] out spread h ran =
    let same : here ++ before ≡ out = cc in (subst (λ o. All (HasKeyAt o) here) (same) h, tt)
record_routes-own is_active before here (r ∷ rs) out (agrees, spread) h ran =
    let (_, rest) = >>-eq-ok (record_route is_active before here r) _ ran in
    let ((own, seen), later) =
      record_routes-own is_active before (r ∷ here) rs out spread
        (HasKeyAt-here r (here ++ before), All-next r here (here ++ before) agrees h) rest in
    (seen, (own, later))

find_route-behind :
    (test : RouteBinding → Bool) (xs ys : List RouteBinding)
    → any_route test xs ≡ false
    → find_route test (xs ++ ys) ≡ find_route test ys
unfolding find_route any_route
find_route-behind test [] ys h = refl
find_route-behind test (x ∷ xs) ys h =
    let ih = find_route-behind test xs ys in ground (arith, h, ih)

-- A row on a topic of the list before is refused, unless its own list has the topic.
record_route-off_topic :
    (before here : List RouteBinding) (r q : RouteBinding)
    → HasKeyAt before q
    → any_route (on_topic q.physical_topic) here ≡ false
    → record_route false before here r ≡ ok tt
    → on_topic q.physical_topic r ≡ false
unfolding record_route
record_route-off_topic before here r q h off ran = elim (Bool-cases (on_topic q.physical_topic r)) [
  | inl e ↦ absurd (overlapped ((bytes_eq_iff r.physical_topic q.physical_topic).0 e))
  | inr e ↦ e
]
  where
    overlap-none : (o : Option RouteBinding) → o ≡ some h.row → overlap r o ≡ ok tt → ⊥
    overlap-none none e f = cc
    overlap-none (some p) e f = ground (arith, f)

    first_check :
        overlap r (
          if any_route (on_topic r.physical_topic) here
          then none
          else find_route (on_topic r.physical_topic) before)
        ≡ ok tt
    first_check =
        (>>-eq-ok
          (overlap r (
            if any_route (on_topic r.physical_topic) here
            then none
            else find_route (on_topic r.physical_topic) before))
          _ ran).0

    overlapped : r.physical_topic ≡ q.physical_topic → ⊥
    overlapped e =
        let at : (if any_route (on_topic r.physical_topic) here
              then none
              else find_route (on_topic r.physical_topic) before)
            ≡ some h.row =
          rw e (rw off h.found) in
        overlap-none _ at first_check

record_routes-before :
    (before here rows out : List RouteBinding) (q : RouteBinding)
    → HasKeyAt before q
    → any_route (on_topic q.physical_topic) here ≡ false
    → record_routes false before here rows ≡ ok out
    → HasKeyAt out q
unfolding record_routes
record_routes-before before here [] out q h off ran =
    let same : here ++ before ≡ out = cc in
    subst (λ o. HasKeyAt o q) (same)
      (record {
        row = h.row;
        found = find_route-behind (on_topic q.physical_topic) here before off ∙ h.found;
        same_key = h.same_key;
      })
record_routes-before before here (r ∷ rs) out q h off ran =
    let (first, rest) = >>-eq-ok (record_route false before here r) _ ran in
    let off_r = record_route-off_topic before here r q h off first in
    record_routes-before before (r ∷ here) rs out q h (both_off r here q off_r off) rest
  where
    both_off :
        (r : RouteBinding) (here : List RouteBinding) (q : RouteBinding)
        → on_topic q.physical_topic r ≡ false
        → any_route (on_topic q.physical_topic) here ≡ false
        → any_route (on_topic q.physical_topic) (r ∷ here) ≡ false
    both_off r here q a b = unfold any_route in ground (arith, a, b)

All-before :
    (before rows out qs : List RouteBinding)
    → All (HasKeyAt before) qs
    → record_routes false before [] rows ≡ ok out
    → All (HasKeyAt out) qs
All-before before rows out [] h ran = tt
All-before before rows out (q ∷ qs) (h, hs) ran = (
  record_routes-before before [] rows out q h (unfold any_route in refl) ran,
  All-before before rows out qs hs ran,
)

-- The resolver records a route: it is found by its own key and topic, as a row of that key.
abbrev pub IsRecorded : Resolver → RouteBinding → Type 0
IsRecorded r q =
    (row : RouteBinding) × (recorded_route (some r) (key_for q) q.physical_topic ≡ ok row)
    × (key_for row ≡ key_for q)

key_eq_self : (k : RouteKey) → key_eq k k ≡ true
unfolding key_eq
key_eq_self k = ground (
  arith,
  bytes_eq_refl k.topic,
  bytes_eq_refl k.message_type,
  bytes_eq_refl k.owner,
  bytes_eq_refl k.route_revision,
)

HasKeyAt-IsRecorded : (r : Resolver) (q : RouteBinding) → HasKeyAt r.recorded q → IsRecorded r q
unfolding recorded_route
HasKeyAt-IsRecorded r q h =
    (h.row, rw h.found (rw h.same_key (ground (arith, key_eq_self (key_for q)))), h.same_key)

All-recorded :
    (r : Resolver) (qs : List RouteBinding) → All (HasKeyAt r.recorded) qs → All (IsRecorded r) qs
All-recorded r [] h = tt
All-recorded r (q ∷ qs) (h, hs) = (HasKeyAt-IsRecorded r q h, All-recorded r qs hs)

Spread-of :
    (env : Env) (rows : List RouteBinding)
    → (if is_empty rows then ok tt else validate_routes env rows) ≡ ok tt
    → Spread [] rows
Spread-of env [] h = tt
Spread-of env (r ∷ rs) h = (validate_routes-Spread env (r ∷ rs) h).2

-- A resolver that is built finds every active and every historical route by the route's own key and
-- physical topic, and the row that it finds has that key.
pub new_route_resolver-IsRecorded :
    (env : Env) (active historical : List RouteBinding) (r : Resolver)
    → new_route_resolver env active historical ≡ ok r
    → All (IsRecorded r) active × All (IsRecorded r) historical
unfolding new_route_resolver
new_route_resolver-IsRecorded env active historical r built =
    let (active_ok, h₁) = >>-eq-ok (validate_routes env active) _ built in
    let (old_ok, h₂) =
      >>-eq-ok (if is_empty historical then ok tt else validate_routes env historical) _ h₁ in
    let (first, ran_first, h₃) = >>=-eq-ok (record_routes true [] [] active) _ h₂ in
    let (out, ran_out, h₄) = >>=-eq-ok (record_routes false first [] historical) _ h₃ in
    let (_, own) =
      record_routes-own true [] [] active first (validate_routes-Spread env active active_ok).2 tt
        ran_first in
    let (_, old) =
      record_routes-own false first [] historical out (Spread-of env historical old_ok) tt
        ran_out in
    let kept = All-before first historical out active own ran_out in
    let same : record { active = active; recorded = out } ≡ r = cc in
    subst (λ x. All (IsRecorded x) active × All (IsRecorded x) historical) (same)
      (
        All-recorded (record { active = active; recorded = out }) active kept,
        All-recorded (record { active = active; recorded = out }) historical old,
      )
