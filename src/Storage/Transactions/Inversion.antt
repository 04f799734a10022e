-- ===== src/Storage/Transactions/Inversion.antt =====
-- storage/transaction/mysql/: what a body that returned tells of its parts.
use reliable_messaging.Base.{
  ℕ, suc, Bool, true, false, ◌≡◌, refl, ap, ◌∙◌, not, ◌==◌, arith, if◌then◌else◌, Result, ok, err,
}
use mathlib.Core.Path.{subst}
use reliable_messaging.Storage.Mysql.Rows.{Reply, answered, refused, lost}
use reliable_messaging.Storage.Transactions.Rows.{ExecutionRow, Tables, update_where, count_where}
use reliable_messaging.Storage.Transactions.Monad.{
  TxError, driver_failed, TxIo, Tx, pure, lift, query, value_of, continue, ◌>>=◌, ◌>>◌, reject,
  exec, finished, in_transaction,
}
use reliable_messaging.Storage.Transactions.Ending.{update_executions}

module _ {A B : Type 0} where
  continue-ok :
      (f : A → Tx B) (io : TxIo) (r : Result TxError (A × ℕ × Tables)) (b : B) (j : ℕ) (u : Tables)
      → continue r f io ≡ ok (b, j, u)
      → (a : A) × (i : ℕ) × (v : Tables) × (r ≡ ok (a, i, v)) × (f a io i v ≡ ok (b, j, u))
  continue-ok f io (ok (a, i, v)) b j u h = (a, i, v, refl, h)
  continue-ok f io (err e) b j u h = absurd (cc)

  pub >>=-ok :
      (m : Tx A) (f : A → Tx B) (io : TxIo) (k : ℕ) (t : Tables) (b : B) (j : ℕ) (u : Tables)
      → (m >>= f) io k t ≡ ok (b, j, u)
      → (a : A) × (i : ℕ) × (v : Tables) × (m io k t ≡ ok (a, i, v)) × (f a io i v ≡ ok (b, j, u))
  unfolding ◌>>=◌
  >>=-ok m f io k t b j u h = continue-ok f io (m io k t) b j u h

pub pure-ok :
    {A : Type 0} (a : A) (io : TxIo) (k : ℕ) (t : Tables) (b : A) (j : ℕ) (u : Tables)
    → pure a io k t ≡ ok (b, j, u)
    → (b ≡ a) × (t ≡ u)
unfolding pure
pure-ok a io k t b j u h = (cc, cc)

pub ok-injective : {A : Type 0} (a b : A) → ◌≡◌ {A = Result TxError A} (ok a) (ok b) → a ≡ b
ok-injective a b h = cc

module _ {A : Type 0} where
  pub value_of-ok :
      (r : Result TxError (A × ℕ × Tables)) (a : A)
      → value_of r ≡ ok a
      → (k : ℕ) × (u : Tables) × (r ≡ ok (a, k, u))
  value_of-ok (ok (b, k, u)) a h =
      let e = ok-injective b a h in (k, u, ap (λ (c : A). ok (c, k, u)) e)
  value_of-ok (err e) a h = absurd (cc)

  pub if_err :
      (b : Bool) (e : TxError) (r : Result TxError A) (a : A)
      → (if b then err e else r) ≡ ok a
      → r ≡ ok a
  if_err true e r a h = absurd (cc)
  if_err false e r a h = h

  pub lift-ok :
      (r : Result TxError A) (io : TxIo) (k : ℕ) (t : Tables) (a : A) (j : ℕ) (u : Tables)
      → lift r io k t ≡ ok (a, j, u)
      → r ≡ ok a
  unfolding lift
  lift-ok (ok b) io k t a j u h = let e : b ≡ a = cc in ap (λ (c : A). ok c) e
  lift-ok (err e) io k t a j u h = absurd (cc)

  query_unless :
      (failed : Bool) (r : Result TxError A) (io : TxIo) (k : ℕ) (t : Tables) (a : A) (j : ℕ)
      (u : Tables)
      → (if failed then err driver_failed else lift r io k t) ≡ ok (a, j, u)
      → r ≡ ok a
  query_unless true r io k t a j u h = absurd (cc)
  query_unless false r io k t a j u h = lift-ok r io k t a j u h

  pub query-ok :
      (q : Tables → Result TxError A) (io : TxIo) (k : ℕ) (t : Tables) (a : A) (j : ℕ) (u : Tables)
      → query q io k t ≡ ok (a, j, u)
      → q t ≡ ok a
  unfolding query
  query-ok q io k t a j u h = query_unless (io.fails k) (q t) io (suc k) t a j u h

pub reject-ok :
    (b : Bool) (e : TxError) (io : TxIo) (k : ℕ) (t : Tables) (x : Unit {0}) (j : ℕ) (u : Tables)
    → reject b e io k t ≡ ok (x, j, u)
    → (b ≡ false) × (u ≡ t)
unfolding reject
reject-ok true e io k t x j u h = absurd (cc)
reject-ok false e io k t x j u h = (refl, cc)

unless_failed :
    (failed : Bool) (m n i j : ℕ) (t u : Tables)
    → if◌then◌else◌ {A = Result TxError (ℕ × ℕ × Tables)} failed (err driver_failed) (ok (m, i, t))
      ≡ ok (n, j, u)
    → (n ≡ m) × (u ≡ t)
unless_failed true m n i j t u h = absurd (cc)
unless_failed false m n i j t u h = (cc, cc)

pub update_executions-ok :
    (test : ExecutionRow → Bool) (f : ExecutionRow → ExecutionRow) (io : TxIo) (k : ℕ) (t : Tables)
    (n j : ℕ) (u : Tables)
    → update_executions test f io k t ≡ ok (n, j, u)
    → (n ≡ count_where test t.executions)
      × (u ≡ record t { executions = update_where test f t.executions })
unfolding update_executions exec
update_executions-ok test f io k t n j u h =
    unless_failed (io.fails k) (count_where test t.executions) n (suc k) j _ u h

module _ {A : Type 0} where
  pub finished-ok :
      (reply : Reply) (t : Tables) (r : Result TxError (A × ℕ × Tables)) (a : A)
      → (finished reply t r).0 ≡ ok a
      → (k : ℕ) × (u : Tables) × (r ≡ ok (a, k, u)) × ((finished reply t r).1 ≡ u)
  finished-ok answered t (ok (b, k, u)) a h =
      let e : b ≡ a = cc in (k, u, ap (λ (c : A). ok (c, k, u)) e, refl)
  finished-ok refused t (ok (b, k, u)) a h = absurd (cc)
  finished-ok lost t (ok (b, k, u)) a h = absurd (cc)
  finished-ok reply t (err e) a h = absurd (cc)

  pub if_ok :
      (b : Bool) (e : TxError) (t : Tables) (x : Result TxError A × Tables) (a : A)
      → (if b then (err e, t) else x).0 ≡ ok a
      → (b ≡ false) × (x.0 ≡ ok a) × ((if b then (err e, t) else x).1 ≡ x.1)
  if_ok true e t x a h = absurd (cc)
  if_ok false e t x a h = (refl, h, refl)

module _ {A : Type 0} where
  pub in_transaction-ok :
      (io : TxIo) (body : Tx A) (t : Tables) (a : A)
      → (in_transaction io body t).0 ≡ ok a
      → (k : ℕ) × (u : Tables) × (body io 1 t ≡ ok (a, k, u)) × ((in_transaction io body t).1 ≡ u)
  unfolding in_transaction
  in_transaction-ok io body t a h =
      let (_, run, same) =
        if_ok (io.fails 0) driver_failed t (finished io.commit t (body io 1 t)) a h in
      let (k, u, e, f) = finished-ok io.commit t (body io 1 t) a run in (k, u, e, same ∙ f)

-- An UPDATE that must change exactly one row, and the body behind it.
pub one_updated :
    {B : Type 0} (test : ExecutionRow → Bool) (f : ExecutionRow → ExecutionRow) (e : TxError)
    (rest : Tx B) (io : TxIo) (k : ℕ) (t : Tables) (b : B) (j : ℕ) (u : Tables)
    → (update_executions test f >>= (λ n. reject (not (n == 1)) e >> rest)) io k t ≡ ok (b, j, u)
    → (i : ℕ) × (count_where test t.executions ≡ 1)
      × (rest io i (record t { executions = update_where test f t.executions }) ≡ ok (b, j, u))
one_updated test f e rest io k t b j u h =
    let (n, i₁, t₁, updated, h₁) =
      >>=-ok (update_executions test f) (λ n. reject (not (n == 1)) e >> rest) io k t b j u h in
    let (_, i₂, t₂, passed, h₂) = >>=-ok (reject (not (n == 1)) e) (λ x. rest) io i₁ t₁ b j u h₁ in
    let (count, same) = update_executions-ok test f io k t n i₁ t₁ updated in
    let (one, kept) = reject-ok (not (n == 1)) e io i₁ t₁ tt i₂ t₂ passed in
    (i₂, ground (arith, count, one), subst (λ v. rest io i₂ v ≡ ok (b, j, u)) (kept ∙ same) h₂)
