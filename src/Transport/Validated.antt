-- ===== src/Transport/Validated.antt =====
-- transport/routing.go: what `ValidateRoutes` ensures of the routes that it accepts.
use reliable_messaging.Base.{
  ◌<◌, Bool, true, false, not, List, [], ◌∷◌, ◌≡◌, sym, ◌∙◌, arith, length, is_empty, All, ok,
  >>-eq-ok, reject_if, Bool-cases, inl, inr,
}
use reliable_messaging.Base.Bytes.{Bytes, bytes_eq_iff}
use reliable_messaging.Env.{Env}
use reliable_messaging.Transport.Routing.{
  RouteBinding, duplicate_binding, topic_collision, group_collision, RouteKey, key_for, key_eq,
  same_binding, same_logical,
}
use reliable_messaging.Transport.Routes.{
  find_route, any_route, on_topic, in_group, differs, check_canonical, check_route, check_routes,
  validate_routes,
}
use reliable_messaging.Transport.Canonical.{
  IsCanonical, reject_if-eq-ok, check_canonical-IsCanonical,
}

key_eq-eq : (a b : RouteKey) → key_eq a b ≡ true → a ≡ b
unfolding key_eq
key_eq-eq a b h = ground (
  arith,
  bytes_eq_iff a.topic b.topic,
  bytes_eq_iff a.message_type b.message_type,
  bytes_eq_iff a.owner b.owner,
  bytes_eq_iff a.route_revision b.route_revision,
)

key_eq_refl : (a : RouteKey) → key_eq a a ≡ true
unfolding key_eq
key_eq_refl a = ground (
  arith,
  bytes_eq_iff a.topic a.topic,
  bytes_eq_iff a.message_type a.message_type,
  bytes_eq_iff a.owner a.owner,
  bytes_eq_iff a.route_revision a.route_revision,
)

-- Two rows that may stand in one list: they differ in a field of the key or in the subscription,
-- they have one key if they share a physical topic, and one logical subscription if they share a
-- consumer group.
pub record Agrees (r s : RouteBinding) : Type 0 where
  pub distinct : ¬ ((key_for s ≡ key_for r) × (s.subscription ≡ r.subscription))
  pub one_key : s.physical_topic ≡ r.physical_topic → key_for s ≡ key_for r
  pub one_subscription :
      is_empty r.subscription ≡ false
      → is_empty s.subscription ≡ false
      → s.consumer_group ≡ r.consumer_group
      → (s.topic ≡ r.topic) × (s.subscription ≡ r.subscription)

-- Each row agrees with each row before it.
abbrev pub Spread : List RouteBinding → List RouteBinding → Type 0
Spread seen [] = Unit
Spread seen (r ∷ rs) = All (Agrees r) seen × Spread (r ∷ seen) rs

-- The rows seen so far, the latest first.
abbrev Apart : List RouteBinding → Type 0
Apart [] = Unit
Apart (r ∷ rs) = All (Agrees r) rs × Apart rs

-- A property of the latest row that passes a test holds of all rows that pass it, where it spreads
-- from a row to those before.
module _ (test : RouteBinding → Bool) (same : RouteBinding → Bool) (Q : RouteBinding → Type 0)
    (gives : (x : RouteBinding) → test x ≡ true → same x ≡ true → Q x)
    (spreads : (x s : RouteBinding) → Agrees x s → test x ≡ true → test s ≡ true → Q x → Q s) where
  from_first :
      (x : RouteBinding) (xs : List RouteBinding)
      → All (Agrees x) xs
      → test x ≡ true
      → Q x
      → All (λ s. test s ≡ true → Q s) xs
  from_first x [] a h q = tt
  from_first x (s ∷ ss) (a, later) h q = ((λ hs. spreads x s a h hs q), from_first x ss later h q)

  latest_agrees :
      (seen : List RouteBinding)
      → Apart seen
      → differs same (find_route test seen) ≡ false
      → All (λ s. test s ≡ true → Q s) seen
  unfolding find_route
  latest_agrees [] a h = tt
  latest_agrees (x ∷ xs) (a, later) h = elim (Bool-cases (test x)) [
    | inl e ↦
        let h' : not (same x) ≡ false = ground (arith, h, e) in
        let q = gives x e (ground (arith, h')) in ((λ hx. q), from_first x xs a e q)
    | inr e ↦
        let rest : differs same (find_route test xs) ≡ false = ground (arith, h, e) in
        ((λ hx. absurd (cc)), latest_agrees xs later rest)
  ]

none_same :
    (test : RouteBinding → Bool) (seen : List RouteBinding)
    → any_route test seen ≡ false
    → All (λ s. test s ≡ false) seen
unfolding any_route
none_same test [] h = tt
none_same test (s ∷ ss) h = (ground (arith, h), none_same test ss (ground (arith, h)))

same_binding_no :
    (r s : RouteBinding)
    → same_binding r s ≡ false
    → key_for s ≡ key_for r
    → ¬ (s.subscription ≡ r.subscription)
same_binding_no r s h e f =
    let k : key_eq (key_for r) (key_for s) ≡ true = rw e (key_eq_refl (key_for r)) in
    ground (arith, h, k, sym f, bytes_eq_iff r.subscription s.subscription)

join :
    (r : RouteBinding) (seen : List RouteBinding)
    → All (λ s. same_binding r s ≡ false) seen
    → All (λ s. on_topic r.physical_topic s ≡ true → key_for s ≡ key_for r) seen
    → (is_empty r.subscription ≡ false
        → All
            (λ s.
              in_group r.consumer_group s ≡ true
              → (s.topic ≡ r.topic) × (s.subscription ≡ r.subscription))
            seen)
    → All (Agrees r) seen
join r [] a b c = tt
join r (s ∷ ss) (a, later) (b, bs) c = (
  record {
    distinct = λ e. same_binding_no r s a e.0 e.1;
    one_key = λ e. b ((bytes_eq_iff s.physical_topic r.physical_topic).1 e);
    one_subscription = λ er es e.
        (c er).0 (ground (arith, es, (bytes_eq_iff s.consumer_group r.consumer_group).1 e));
  },
  join r ss later bs (λ er. (c er).1),
)

abbrev SameLogical : RouteBinding → RouteBinding → Type 0
SameLogical r s = (s.topic ≡ r.topic) × (s.subscription ≡ r.subscription)

one_key_on_topic :
    (r : RouteBinding) (seen : List RouteBinding)
    → Apart seen
    → differs
        (λ old. key_eq (key_for old) (key_for r))
        (find_route (on_topic r.physical_topic) seen)
      ≡ false
    → All (λ s. on_topic r.physical_topic s ≡ true → key_for s ≡ key_for r) seen
one_key_on_topic r seen =
    latest_agrees (on_topic r.physical_topic) (λ old. key_eq (key_for old) (key_for r))
      (λ s. key_for s ≡ key_for r) (λ x hx h. key_eq-eq (key_for x) (key_for r) h)
      (λ x s a hx hs q.
        let ex = (bytes_eq_iff x.physical_topic r.physical_topic).0 hx in
        let es = (bytes_eq_iff s.physical_topic r.physical_topic).0 hs in
        a.one_key (es ∙ sym ex) ∙ q)
      seen

one_subscription_in_group :
    (r : RouteBinding) (seen : List RouteBinding)
    → Apart seen
    → differs (same_logical r) (find_route (in_group r.consumer_group) seen) ≡ false
    → All (λ s. in_group r.consumer_group s ≡ true → SameLogical r s) seen
one_subscription_in_group r seen =
    latest_agrees (in_group r.consumer_group) (same_logical r) (SameLogical r)
      (λ x hx h.
        ground (arith, h, bytes_eq_iff r.topic x.topic, bytes_eq_iff r.subscription x.subscription))
      (λ x s a hx hs q.
        let gx = in_group_parts r.consumer_group x hx in
        let gs = in_group_parts r.consumer_group s hs in
        let e = a.one_subscription gx.0 gs.0 (gs.1 ∙ sym gx.1) in (e.0 ∙ q.0, e.1 ∙ q.1))
      seen
  where
    in_group_parts :
        (g : Bytes) (x : RouteBinding)
        → in_group g x ≡ true
        → (is_empty x.subscription ≡ false) × (x.consumer_group ≡ g)
    in_group_parts g x h = ground (arith, h, bytes_eq_iff x.consumer_group g)

module _ (env : Env) where
  check_route-Agrees :
      (seen : List RouteBinding) (r : RouteBinding)
      → Apart seen
      → check_route env seen r ≡ ok tt
      → IsCanonical env r × All (Agrees r) seen
  unfolding check_route
  check_route-Agrees seen r a h =
      let (canonical, h₁) = >>-eq-ok (check_canonical env r) _ h in
      let (new_one, h₂) =
        >>-eq-ok (reject_if (any_route (same_binding r) seen) duplicate_binding) _ h₁ in
      let (topic_free, h₃) =
        >>-eq-ok
          (reject_if
            (differs (λ old. key_eq (key_for old) (key_for r))
              (find_route (on_topic r.physical_topic) seen))
            topic_collision)
          _ h₂ in
      let group_free = reject_if-eq-ok _ group_collision h₃ in
      (
        check_canonical-IsCanonical env r canonical,
        join r seen (none_same (same_binding r) seen (reject_if-eq-ok _ duplicate_binding new_one))
            (one_key_on_topic r seen a (reject_if-eq-ok _ topic_collision topic_free))
            (λ er. one_subscription_in_group r seen a (ground (arith, group_free, er))),
      )

  check_routes-Spread :
      (seen rows : List RouteBinding)
      → Apart seen
      → check_routes env seen rows ≡ ok tt
      → All (IsCanonical env) rows × Spread seen rows
  unfolding check_routes
  check_routes-Spread seen [] a h = (tt, tt)
  check_routes-Spread seen (r ∷ rs) a h =
      let (first, rest) = >>-eq-ok (check_route env seen r) _ h in
      let (canonical, agrees) = check_route-Agrees seen r a first in
      let (others, spread) = check_routes-Spread (r ∷ seen) rs (agrees, a) rest in
      ((canonical, others), (agrees, spread))

  -- Routes that ValidateRoutes accepts are not empty, each has a topic and the physical topic and
  -- consumer group that its fields give, without zero bytes in topic and subscription, and each agrees
  -- with all before it: no route twice, one logical key on a physical topic, and one logical
  -- subscription in a consumer group.
  pub validate_routes-Spread :
      (rows : List RouteBinding)
      → validate_routes env rows ≡ ok tt
      → (0 < length rows) × All (IsCanonical env) rows × Spread [] rows
  unfolding validate_routes
  validate_routes-Spread [] h = absurd (cc)
  validate_routes-Spread (r ∷ rs) h =
      let (canonical, spread) = check_routes-Spread [] (r ∷ rs) tt h in
      (omega arith, canonical, spread)
