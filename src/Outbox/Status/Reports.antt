-- ===== src/Outbox/Status/Reports.antt =====
-- outbox/status_builder.go: every row is reported once, in the bucket of its state.
use reliable_messaging.Base.{
  ℕ, true, false, ◌||◌, List, [], ◌∷◌, Option, none, some, ◌≡◌, refl, sym, arith, All, Any, inl,
  inr, Bool-cases, Result, ok, err, is_empty, map, ◌==◌,
}
use mathlib.Core.Path.{subst}
use reliable_messaging.Base.Bytes.{Bytes, bytes_eq, bytes_eq_iff, bytes_eq_refl}
use reliable_messaging.Outbox.Status.{
  StatusCount, StatusBucket, StatusSnapshot, StatusError, unfinished_states, is_among, find_state,
  is_known, by_state, bucket_of, snapshot, build, standard_state,
}

-- The parts of a step that succeeds.
by_state-step :
    (seen rs out : List StatusCount) (r : StatusCount)
    → by_state seen (r ∷ rs) ≡ ok out
    → (standard_state r.state ≡ true)
      × (is_known (find_state r.state seen) ≡ false)
      × (by_state (r ∷ seen) rs ≡ ok out)
unfolding by_state
by_state-step seen rs out r h = (ground arith, ground arith, ground arith)

-- A row of a new state hides no other.
find_state-fresh :
    (seen : List StatusCount) (r : StatusCount) (value : Bytes) (q : StatusCount)
    → is_known (find_state r.state seen) ≡ false
    → find_state value seen ≡ some q
    → find_state value (r ∷ seen) ≡ some q
unfolding find_state
find_state-fresh seen r value q fresh e = elim (Bool-cases (bytes_eq r.state value)) [
  | inl hit ↦
      let same : r.state ≡ value = (bytes_eq_iff r.state value).0 hit in
      absurd (cc (e, same, fresh))
  | inr miss ↦ rw miss e
]

-- A row that was seen stays found.
by_state-find :
    (seen rs out : List StatusCount) (value : Bytes) (q : StatusCount)
    → by_state seen rs ≡ ok out
    → find_state value seen ≡ some q
    → find_state value out ≡ some q
by_state-find seen [] out value q h e =
    let same : seen ≡ out = unfold by_state in cc in rw (sym same) e
by_state-find seen (r ∷ rs) out value q h e =
    let (_, fresh, rest) = by_state-step seen rs out r h in
    by_state-find (r ∷ seen) rs out value q rest (find_state-fresh seen r value q fresh e)

-- Each row is found under its state in what the loop returns.
abbrev IsFound : List StatusCount → StatusCount → Type 0
IsFound out r = (standard_state r.state ≡ true) × (find_state r.state out ≡ some r)

by_state-IsFound :
    (seen rs out : List StatusCount) → by_state seen rs ≡ ok out → All (IsFound out) rs
by_state-IsFound seen [] out h = tt
by_state-IsFound seen (r ∷ rs) out h =
    let (standard, _, rest) = by_state-step seen rs out r h in
    (
      (
        standard,
        by_state-find (r ∷ seen) rs out r.state r rest
            (unfold find_state in rw (bytes_eq_refl r.state) refl),
      ),
      by_state-IsFound (r ∷ seen) rs out rest,
    )

-- A bucket of the row's state, with its count and its oldest time.
pub record Reports (r : StatusCount) (b : StatusBucket) : Type 0 where
  pub same_state : b.status ≡ r.state
  pub same_count : b.bucket_count ≡ r.count
  pub same_oldest : b.oldest ≡ r.oldest_created_at

is_among-Reports :
    (now : ℕ) (out : List StatusCount) (r : StatusCount) (states : List Bytes)
    → find_state r.state out ≡ some r
    → is_among r.state states ≡ true
    → Any (Reports r) (map (λ s. bucket_of now s (find_state s out)) states)
unfolding is_among
is_among-Reports now out r [] found h = cc
is_among-Reports now out r (s ∷ ss) found h = elim (Bool-cases (bytes_eq r.state s)) [
  | inl hit ↦
      let same : r.state ≡ s = (bytes_eq_iff r.state s).0 hit in
      let here : find_state s out ≡ some r = subst (λ k. find_state k out ≡ some r) same found in
      inl (rw here (record { same_state = sym same; same_count = refl; same_oldest = refl }))
  | inr miss ↦ inr (is_among-Reports now out r ss found (ground arith))
]

counts-Reports :
    (now : ℕ) (out rs : List StatusCount)
    → All (IsFound out) rs
    → All
        (λ r. Any (Reports r) (map (λ s. bucket_of now s (find_state s out)) unfinished_states))
        rs
counts-Reports now out [] f = tt
counts-Reports now out (r ∷ rs) f =
    (is_among-Reports now out r unfinished_states f.0.1 f.0.0, counts-Reports now out rs f.1)

status_of-bucket : (now : ℕ) (s : Bytes) (o : Option StatusCount) → (bucket_of now s o).status ≡ s
status_of-bucket now s none = refl
status_of-bucket now s (some r) = refl

statuses-eq :
    (now : ℕ) (out : List StatusCount) (states : List Bytes)
    → map (λ b. b.status) (map (λ k. bucket_of now k (find_state k out)) states) ≡ states
statuses-eq now out [] = refl
statuses-eq now out (k ∷ ks) =
    cc (status_of-bucket now k (find_state k out), statuses-eq now out ks)

-- A snapshot that is built has one bucket for each unfinished state, in their fixed order, and every
-- row of the input is reported in the bucket of its state, with its count and oldest time.
pub build-Reports :
    (store : Bytes) (now : ℕ) (counts : List StatusCount) (s : StatusSnapshot)
    → build store now counts ≡ ok s
    → (map (λ b. b.status) s.buckets ≡ unfinished_states)
      × All (λ r. Any (Reports r) s.buckets) counts
unfolding build
build-Reports store now counts s h = elim (Bool-cases (is_empty store || now == 0)) [
  | inl bad ↦ cc (rw bad at h)
  | inr good ↦ go (by_state [] counts) refl (rw good at h)
]
  where
    go :
        (x : Result StatusError (List StatusCount))
        → by_state [] counts ≡ x
        → snapshot store now x ≡ ok s
        → (map (λ b. b.status) s.buckets ≡ unfinished_states)
          × All (λ r. Any (Reports r) s.buckets) counts
    go (err e) found e' = cc
    go (ok out) found e' =
        let same : map (λ k. bucket_of now k (find_state k out)) unfinished_states ≡ s.buckets =
          cc (e') in
        rw (sym same) (
          statuses-eq now out unfinished_states,
          counts-Reports now out counts (by_state-IsFound [] counts out found),
        )
