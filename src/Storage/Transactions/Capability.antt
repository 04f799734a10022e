-- ===== src/Storage/Transactions/Capability.antt =====
-- storage/transaction/mysql/store.go: what a reservation that `Reserve` returns grants or shows.
use reliable_messaging.Base.{
  ℕ, true, false, not, ◌||◌, ◌≡◌, ◌⊎◌, inl, inr, refl, sym, ◌∙◌, Result, ok, err,
}
use mathlib.Core.Path.{subst}
use reliable_messaging.Base.Bytes.{bytes_eq}
use reliable_messaging.Base.Int.{ℤ}
use reliable_messaging.Env.{Env}
use reliable_messaging.Message.{no_digest}
use reliable_messaging.Transaction.Plan.{FrozenPlan, TransactionError, binding_mismatch, plan_valid}
use reliable_messaging.Transaction.Evidence.{prepared}
use reliable_messaging.Transaction.Execution.{
  Request, request_valid, request_match, Binding, options_valid, Execution,
}
use reliable_messaging.Transaction.Codec.{Json}
use reliable_messaging.Storage.Transactions.Rows.{Tables}
use reliable_messaging.Storage.Transactions.Monad.{
  TxError, protocol, no_rows, duplicate, driver_failed, TxIo, Tx, pure, ◌>>=◌, ◌>>◌, value_of,
}
use reliable_messaging.Storage.Transactions.Reading.{
  Reservation, or_not_found, looked_up, lookup_in, lookup, binding_in,
}
use reliable_messaging.Storage.Transactions.Granting.{
  granted, if_matched, execution_at, new_execution, open_request, insert_execution, reserved,
  reserve,
}
use reliable_messaging.Storage.Transactions.Inversion.{
  ok-injective, value_of-ok, if_err, query-ok, >>=-ok, pure-ok, if_ok, finished-ok,
}
use reliable_messaging.Storage.Transactions.Once.{Returns, Returns-pure, Returns-bind}
use reliable_messaging.Storage.Transactions.Inserting.{IsInserted, insert_execution-IsInserted}

-- A reservation that grants nothing.
abbrev pub IsShown : Reservation → Type 0
IsShown r = (r.acquired ≡ false) × (r.execution.token ≡ no_digest)

-- The grant of a new execution for a plan.
pub record IsGrant (s : Binding) (p : FrozenPlan) (fence : ℕ) (r : Reservation) : Type 0 where
  pub is_acquired : r.acquired ≡ true
  pub is_prepared : r.state ≡ prepared
  pub for_plan : r.execution.plan ≡ p
  pub next_fence : r.execution.fence ≡ fence
  pub same_epoch : r.execution.writer_epoch ≡ s.writer_epoch

abbrev pub IsExecution : Binding → FrozenPlan → ℕ → Execution → Type 0
IsExecution s p fence e = (e.plan ≡ p) × (e.fence ≡ fence) × (e.writer_epoch ≡ s.writer_epoch)

pub Returns-with :
    {A B : Type 0} (Q : A → Type 0) (P : B → Type 0) (m : Tx A) (f : A → Tx B)
    → Returns Q m
    → ((a : A) → Q a → Returns P (f a))
    → Returns P (m >>= f)
Returns-with Q P m f first rest = record {
  at = λ io k t b j u e.
      let (a, i, v, ran, last) = >>=-ok m f io k t b j u e in
      (rest a (first.at io k t a i v ran)).at io i v b j u last;
}

module _ (env : Env) (json : Json) (s : Binding) where
  lookup_in-shows : (r : Request) → Returns IsShown (lookup_in env json s r)
  unfolding lookup_in
  lookup_in-shows r = search (Returns-bind, Returns-pure) depth 14

  pub new_execution-Returns :
      (io : TxIo) (p : FrozenPlan) (fence : ℕ) (lease : ℤ)
      → Returns (IsExecution s p fence) (new_execution env json s io p fence lease)
  unfolding new_execution
  new_execution-Returns io p fence lease = Returns-bind _ _ _ (λ token. record {
    at = λ io' k t a j u e.
        let same =
          query-ok (λ v. ok (execution_at env json s p fence lease token io.now)) io' k t a j u e in
        subst (IsExecution s p fence)
          (ok-injective (execution_at env json s p fence lease token io.now) a same)
          (refl, refl, refl);
  })

  open_request-Returns :
      (io : TxIo) (r : Request) (p : FrozenPlan) (lease : ℤ)
      → Returns (IsExecution s p 1) (open_request env json s io r p lease)
  unfolding open_request
  open_request-Returns io r p lease = Returns-bind _ _ _ (λ bound.
      Returns-with (IsExecution s p 1) (IsExecution s p 1) _ _ (new_execution-Returns io p 1 lease)
        (λ e h. Returns-bind _ _ _ (λ done. Returns-pure _ e h)))

  granted-Returns :
      (q : Request) (e : Execution) (p : FrozenPlan)
      → IsExecution s p 1 e
      → Returns (IsGrant s p 1) (insert_execution env json q e >> pure (granted e))
  granted-Returns q e p (a, b, c) = Returns-bind _ _ _ (λ done. Returns-pure _ (granted e) (record {
    is_acquired = refl;
    is_prepared = refl;
    for_plan = a;
    next_fence = b;
    same_epoch = c;
  }))

  or_not_found-shows :
      (o : Result TxError Reservation) (r : Reservation)
      → ((a : Reservation) → o ≡ ok a → IsShown a)
      → or_not_found env json s o ≡ ok r
      → IsShown r
  or_not_found-shows (ok a) r h e = subst IsShown (ok-injective a r e) (h a refl)
  or_not_found-shows (err no_rows) r h e = absurd (cc)
  or_not_found-shows (err (protocol f)) r h e = absurd (cc)
  or_not_found-shows (err _) r h e = absurd (cc)

  looked_up-shows :
      (io : TxIo) (q : Request) (o : Result TxError (Unit {0} × ℕ × Tables)) (r : Reservation)
      → looked_up env json s io q o ≡ ok r
      → IsShown r
  looked_up-shows io q (err e) r h = absurd (cc)
  looked_up-shows io q (ok (_, k, u)) r h =
      or_not_found-shows (value_of (lookup_in env json s q io k u)) r
        (λ a e.
          let (j, v, ran) = value_of-ok (lookup_in env json s q io k u) a e in
          (lookup_in-shows q).at io k u a j v ran)
        h

  lookup-shows :
      (io : TxIo) (q : Request) (t : Tables) (r : Reservation)
      → lookup env json s io q t ≡ ok r
      → IsShown r
  unfolding lookup
  lookup-shows io q t r h =
      let h₁ =
        if_err (not (request_valid q) || not (bytes_eq q.owner s.owner)) (protocol binding_mismatch)
          _ r h in
      let h₂ = if_err (io.fails 0) driver_failed _ r h₁ in
      looked_up-shows io q (binding_in env json s false io 1 t) r h₂

  -- The end of `Reserve`: a grant with its row in the tables, or behind a duplicate request what a lookup shows, the tables as
  -- they were.
  abbrev pub Reserves : FrozenPlan → Tables → Reservation → Tables → Type 0
  Reserves p t r u = (IsGrant s p 1 r × IsInserted env json r.execution u) ⊎ (IsShown r × (u ≡ t))

  reserved-returns :
      (io again : TxIo) (q : Request) (p : FrozenPlan) (t : Tables)
      (o : Result TxError (Execution × ℕ × Tables)) (r : Reservation)
      → ((e : Execution) (k : ℕ) (u : Tables) → o ≡ ok (e, k, u) → IsExecution s p 1 e)
      → (reserved env json s io again q t o).0 ≡ ok r
      → Reserves p t r (reserved env json s io again q t o).1
  reserved-returns io again q p t (ok (e, k, u)) r h done =
      let (j, v, ran, same) =
        finished-ok io.commit t ((insert_execution env json q e >> pure (granted e)) io k u) r
          done in
      let at = (granted-Returns q e p (h e k u refl)).at io k u r j v ran in
      let (x, i, w, inserted, last) =
        >>=-ok (insert_execution env json q e) (λ done'. pure (granted e)) io k u r j v ran in
      let (of_e, kept) = pure-ok (granted e) io i w r j v last in
      let row = insert_execution-IsInserted env json q e io k u i w inserted in
      let at_end = subst (λ y. IsInserted env json e y) (kept ∙ sym same) row in
      inl (
        at,
        subst
            (λ (y : Reservation).
              IsInserted env json y.execution (reserved env json s io again q t (ok (e, k, u))).1)
            (sym of_e) at_end,
      )
  reserved-returns io again q p t (err duplicate) r h done =
      inr (lookup-shows again q t r (if_err io.rollback_fails driver_failed _ r done), refl)
  reserved-returns io again q p t (err (protocol f)) r h done = absurd (cc)
  reserved-returns io again q p t (err _) r h done = absurd (cc)

  pub if_matched-ok :
      (m : Result TransactionError (Unit {0})) (t : Tables)
      (x : Result TxError Reservation × Tables) (r : Reservation)
      → (if_matched m t x).0 ≡ ok r
      → (x.0 ≡ ok r) × ((if_matched m t x).1 ≡ x.1)
  if_matched-ok (err e) t x r h = absurd (cc)
  if_matched-ok (ok done) t x r h = (h, refl)

  -- A reservation that `Reserve` returns is acquired with the first fence of the plan, prepared and
  -- under the store's epoch, and the tables hold its execution's row with its token and plan; or it
  -- shows a reservation of before, not acquired and without a token, and the tables are as they were.
  pub reserve-returns :
      (io again : TxIo) (q : Request) (p : FrozenPlan) (lease : ℤ) (t : Tables) (r : Reservation)
      → (reserve env json s io again q p lease t).0 ≡ ok r
      → Reserves p t r (reserve env json s io again q p lease t).1
  unfolding reserve
  reserve-returns io again q p lease t r done =
      let opened : Result TxError (Execution × ℕ × Tables) =
        open_request env json s io q p lease io 1 t in
      let (_, h₁, e₁) =
        if_ok (not (options_valid lease) || not (plan_valid p) || not (bytes_eq q.owner s.owner))
          (protocol binding_mismatch) t _ r done in
      let (h₂, e₂) = if_matched-ok (request_match q p) t _ r h₁ in
      let (_, h₃, e₃) =
        if_ok (io.fails 0) driver_failed t (reserved env json s io again q t opened) r h₂ in
      subst (Reserves p t r) (sym (e₁ ∙ (e₂ ∙ e₃))) (
        reserved-returns io again q p t opened r
          (λ e k u ran. (open_request-Returns io q p lease).at io 1 t e k u ran) h₃)
