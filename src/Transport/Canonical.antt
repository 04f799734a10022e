-- ===== src/Transport/Canonical.antt =====
-- transport/routing.go: the names of a row that `ValidateRoutes` accepts.
use reliable_messaging.Base.{
  Bool, true, false, [], ◌∷◌, ◌≡◌, refl, sym, ◌∙◌, arith, All, ap, ok, >>=-eq-ok, ◌≢◌, reject_if,
}
use reliable_messaging.Base.Bytes.{Bytes, bytes_eq_iff}
use reliable_messaging.Env.{Env}
use reliable_messaging.Transport.Routing.{
  RouteBinding, RouteError, contains_zero, invalid_binding, expected_physical_topic,
  expected_consumer_group,
}
use reliable_messaging.Transport.Routes.{check_canonical}

-- The names of a row are those that its logical fields give, and its fields can be hashed.
pub record IsCanonical (env : Env) (r : RouteBinding) : Type 0 where
  pub has_topic : r.topic ≢ []
  pub topic_clean : All (λ b. b ≢ 0) r.topic
  pub subscription_clean : All (λ b. b ≢ 0) r.subscription
  pub physical_name :
      expected_physical_topic env r.topic r.message_type r.owner r.route_revision r.naming_scheme
      ≡ ok r.physical_topic
  pub group_name : expected_consumer_group env r ≡ ok r.consumer_group

clean_of : (bs : Bytes) → contains_zero bs ≡ false → All (λ b. b ≢ 0) bs
unfolding contains_zero
clean_of [] h = tt
clean_of (b ∷ bs) h = (λ e. ground arith, clean_of bs (ground arith))

pub reject_if-eq-ok : (b : Bool) (e : RouteError) → reject_if b e ≡ ok tt → b ≡ false
reject_if-eq-ok true e h = absurd (cc)
reject_if-eq-ok false e h = refl

module _ (env : Env) where
  pub check_canonical-IsCanonical :
      (r : RouteBinding) → check_canonical env r ≡ ok tt → IsCanonical env r
  unfolding check_canonical
  check_canonical-IsCanonical r h =
      let (expected, named, h₁) =
        >>=-eq-ok
          (expected_physical_topic env r.topic r.message_type r.owner r.route_revision
            r.naming_scheme)
          _ h in
      let (group, grouped, h₂) = >>=-eq-ok (expected_consumer_group env r) _ h₁ in
      let checks = reject_if-eq-ok _ invalid_binding h₂ in
      record {
        has_topic = λ e. ground (arith, checks, e);
        topic_clean = clean_of r.topic (ground (arith, checks));
        subscription_clean = clean_of r.subscription (ground (arith, checks));
        physical_name =
            let e : r.physical_topic ≡ expected =
              ground (arith, checks, bytes_eq_iff r.physical_topic expected) in
            named ∙ ap ok (sym e);
        group_name =
            let e : r.consumer_group ≡ group =
              ground (arith, checks, bytes_eq_iff r.consumer_group group) in
            grouped ∙ ap ok (sym e);
      }
