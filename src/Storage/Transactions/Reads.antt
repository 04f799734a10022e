-- ===== src/Storage/Transactions/Reads.antt =====
-- storage/transaction/mysql/store.go: the statements that only read, and what they found in the tables.
use reliable_messaging.Base.{
  ℕ, suc, Bool, true, false, ◌≡◌, refl, sym, ◌∙◌, List, [], ◌∷◌, Option, none, some, Result, ok,
  err, if◌then◌else◌,
}
use mathlib.Core.Path.{subst}
use reliable_messaging.Base.Bytes.{Bytes}
use reliable_messaging.Env.{Env}
use reliable_messaging.Transaction.Evidence.{State, Reference, Evidence}
use reliable_messaging.Transaction.Execution.{Request, Binding, Execution, key_digest}
use reliable_messaging.Transaction.Codec.{Json, CodecError, decode_reference}
use reliable_messaging.Storage.Transactions.Rows.{
  RequestRow, ExecutionRow, WitnessRow, Tables, find_where, has_request_key, has_key, has_keys,
}
use reliable_messaging.Storage.Transactions.Monad.{
  TxError, TxIo, Tx, pure, lift, query, ◌>>=◌, reject, driver_failed,
}
use reliable_messaging.Storage.Transactions.Reading.{
  Reservation, found, lift_codec, branch_key_of, scan_execution, shown, binding_in, lookup_in,
}
use reliable_messaging.Storage.Transactions.Granting.{read_witnesses}
use reliable_messaging.Storage.Transactions.Inversion.{
  >>=-ok, pure-ok, lift-ok, query-ok, reject-ok,
}
use reliable_messaging.Storage.Transactions.Once.{Returns}

-- A body that changes no table, and what it returns on the tables that it met.
pub record Reads {A : Type 0} (P : Tables → A → Type 0) (m : Tx A) : Type 0 where
  pub at :
      (io : TxIo) (k : ℕ) (t : Tables) (a : A) (j : ℕ) (u : Tables)
      → m io k t ≡ ok (a, j, u)
      → (u ≡ t) × P t a

-- What a body returns on the tables `t`.
pub record Gives {A : Type 0} (P : A → Type 0) (m : Tx A) (t : Tables) : Type 0 where
  pub at : (io : TxIo) (k : ℕ) (a : A) (j : ℕ) (u : Tables) → m io k t ≡ ok (a, j, u) → P a

module _ {A : Type 0} where
  Reads-pure : (P : Tables → A → Type 0) (a : A) → ((t : Tables) → P t a) → Reads P (pure a)
  Reads-pure P a h = record {
    at = λ io k t b j u e.
        let (same, kept) = pure-ok a io k t b j u e in
        (sym kept, subst (λ x. P t x) (sym same) (h t));
  }

  lift-tables :
      (r : Result TxError A) (io : TxIo) (k : ℕ) (t : Tables) (a : A) (j : ℕ) (u : Tables)
      → lift r io k t ≡ ok (a, j, u)
      → u ≡ t
  unfolding lift
  lift-tables (ok b) io k t a j u h = cc
  lift-tables (err e) io k t a j u h = absurd (cc)

  Reads-lift : (r : Result TxError A) → Reads (λ t a. r ≡ ok a) (lift r)
  Reads-lift r = record {
    at = λ io k t a j u e. (lift-tables r io k t a j u e, lift-ok r io k t a j u e);
  }

  unless-tables :
      (failed : Bool) (r : Result TxError A) (io : TxIo) (k : ℕ) (t : Tables) (a : A) (j : ℕ)
      (u : Tables)
      → (if failed then err driver_failed else lift r io k t) ≡ ok (a, j, u)
      → u ≡ t
  unless-tables true r io k t a j u h = absurd (cc)
  unless-tables false r io k t a j u h = lift-tables r io k t a j u h

  query-tables :
      (q : Tables → Result TxError A) (io : TxIo) (k : ℕ) (t : Tables) (a : A) (j : ℕ) (u : Tables)
      → query q io k t ≡ ok (a, j, u)
      → u ≡ t
  unfolding query
  query-tables q io k t a j u h = unless-tables (io.fails k) (q t) io (suc k) t a j u h

  Reads-query : (q : Tables → Result TxError A) → Reads (λ t a. q t ≡ ok a) (query q)
  Reads-query q = record {
    at = λ io k t a j u e. (query-tables q io k t a j u e, query-ok q io k t a j u e);
  }

pub Reads-reject : (b : Bool) (e : TxError) → Reads (λ t x. b ≡ false) (reject b e)
Reads-reject b e = record {
  at = λ io k t x j u h. let (no_reason, kept) = reject-ok b e io k t x j u h in (kept, no_reason);
}

module _ {A B : Type 0} (Q : Tables → A → Type 0) (m : Tx A) (f : A → Tx B)
    (first : Reads Q m) where
  Reads-bind :
      (P : Tables → B → Type 0) → ((a : A) → Reads (λ t b. Q t a → P t b) (f a)) → Reads P (m >>= f)
  Reads-bind P rest = record {
    at = λ io k t b j u e.
        let (a, i, v, ran, last) = >>=-ok m f io k t b j u e in
        let (kept, q) = first.at io k t a i v ran in
        let (kept₂, p) = (rest a).at io i v b j u last in
        (kept₂ ∙ kept, subst (λ x. P x b) kept (p (subst (λ x. Q x a) (sym kept) q)));
  }

  pub Gives-bind :
      (P : B → Type 0) (t : Tables) → ((a : A) → Q t a → Gives P (f a) t) → Gives P (m >>= f) t
  Gives-bind P t rest = record {
    at = λ io k b j u e.
        let (a, i, v, ran, last) = >>=-ok m f io k t b j u e in
        let (kept, q) = first.at io k t a i v ran in
        (rest a q).at io i b j u (subst (λ x. f a io i x ≡ ok (b, j, u)) kept last);
  }

pub Gives-Returns :
    {A : Type 0} (P : A → Type 0) (m : Tx A) (t : Tables) → Returns P m → Gives P m t
Gives-Returns P m t h = record { at = λ io k a j u e. h.at io k t a j u e }

found-some : {A : Type 0} (o : Option A) (a : A) → found o ≡ ok a → o ≡ some a
found-some none a h = absurd (cc)
found-some (some b) a h = cc

pub codec-ok : {A : Type 0} (o : Result CodecError A) (a : A) → lift_codec o ≡ ok a → o ≡ ok a
codec-ok (ok b) a h = cc
codec-ok (err e) a h = absurd (cc)

module _ (env : Env) (json : Json) (s : Binding) where
  pub binding_in-Reads : (writer : Bool) → Reads (λ t x. Unit {0}) (binding_in env json s writer)
  unfolding binding_in
  binding_in-Reads writer =
      Reads-bind _ _ _ (Reads-query _) _
        (λ b. record { at = λ io k t x j u e. (lift-tables _ io k t x j u e, λ q. tt) })

  -- The request's row, its active execution's row, and the reservation that shows it.
  pub record IsLooked (q : Request) (t : Tables) (v : Reservation) : Type 0 where
    pub request : RequestRow
    pub requested : find_where (has_request_key (key_digest env q)) t.requests ≡ some request
    pub stored : ExecutionRow
    pub active : find_where (has_key request.active_execution) t.executions ≡ some stored
    pub scan : Execution × State
    pub scanned_one : scan_execution env json stored ≡ ok scan
    pub shows : v ≡ shown env json s scan

  pub lookup_in-Reads : (q : Request) → Reads (IsLooked q) (lookup_in env json s q)
  unfolding lookup_in
  lookup_in-Reads q = Reads-bind _ _ _ (Reads-query _) _ (λ row.
      Reads-bind _ _ _ (Reads-lift _) _ (λ checked. Reads-bind _ _ _ (Reads-query _) _ (λ stored.
        Reads-bind _ _ _ (Reads-lift _) _ (λ scan. Reads-bind _ _ _ (Reads-lift _) _ (λ passed.
          Reads-pure _ _ (λ t e₅ e₄ e₃ e₂ e₁. record {
            request = row;
            requested = found-some _ row e₁;
            stored = stored;
            active = found-some _ stored e₃;
            scan = scan;
            scanned_one = e₄;
            shows = refl;
          }))))))

  -- Each piece of evidence is the witness row of its reference, under the state of the execution.
  abbrev pub Witnessed : Bytes → State → List Reference → Tables → List (Option Evidence) → Type 0
  Witnessed key state [] t [] = Unit
  Witnessed key state [] t (e ∷ es) = ⊥
  Witnessed key state (r ∷ rs) t [] = ⊥
  Witnessed key state (r ∷ rs) t (e ∷ es) =
      ((w : WitnessRow) × (find_where (has_keys key (branch_key_of env json r.branch_id))
            t.witnesses
          ≡ some w)
        × (actual : Reference) × (decode_reference json w.reference ≡ ok actual)
        × (e ≡ some (record { about = actual; execution_state = state; branch_state = w.state })))
      × Witnessed key state rs t es

  pub read_witnesses-Reads :
      (key : Bytes) (state : State) (rs : List Reference)
      → Reads (Witnessed key state rs) (read_witnesses env json s key state rs)
  unfolding read_witnesses
  read_witnesses-Reads key state [] = Reads-pure _ _ (λ t. tt)
  read_witnesses-Reads key state (r ∷ rs) = Reads-bind _ _ _ (Reads-query _) _ (λ w.
      Reads-bind _ _ _ (Reads-lift _) _ (λ actual.
        Reads-bind _ _ _ (read_witnesses-Reads key state rs) _ (λ rest.
          Reads-pure _ _ (λ t others e₂ e₁.
            ((w, found-some _ w e₁, actual, codec-ok _ actual e₂, refl), others)))))
