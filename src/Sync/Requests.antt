-- ===== src/Sync/Requests.antt =====
-- Requests one after another, and what each of their mutations keeps.
use retainer.Prelude.{ℕ, ◌+◌, ◌≡◌, refl, List, [], ◌∷◌, arith, subst, sym}
use retainer.Prelude.Int.{ℤ}
use retainer.Schema.{Db}
use retainer.Store.{Error, Result, ok, err, transact, current_server_seq}
use retainer.Store.Inversion.{bind-eq-ok}
use retainer.Sync.{apply_mutation, wrap_error, apply_from, apply_body, apply}
use retainer.Sync.Wire.{Mutation}
use retainer.Sync.Pull.{Changes, load_changes}
use retainer.Sync.Applied.{Applied, applied, wrap_error-eq-ok, body-eq-ok, answered}

-- What reaches the server from any of the devices
pub record Request : Type 0 where
  pub clock : ℕ → ℤ
  pub since : ℕ
  pub mutations : List Mutation

-- The database that a sequence of requests leaves, those that fail among them
unfoldable pub serve : List Request → Db → Db
serve [] d = d
serve (q ∷ qs) d = serve qs (apply q.clock q.since q.mutations d).1

-- What every mutation that succeeds keeps, a request keeps, whatever comes of it.
module _ (Keeps : Db → Db → Type 0) (keeps_refl : (d : Db) → Keeps d d)
    (keeps_trans : (c d e : Db) → Keeps c d → Keeps d e → Keeps c e)
    (step : (now : ℤ) (m : Mutation) (d e : Db) → Applied now m d e → Keeps d e) where
  pub apply_from-Keeps :
      (clock : ℕ → ℤ) (i : ℕ) (ms : List Mutation) (d e : Db)
      → apply_from clock i ms d ≡ ok (tt, e)
      → Keeps d e
  unfolding apply_from
  apply_from-Keeps clock i [] d e h =
      let same : e ≡ d = ground arith in subst (Keeps d) (sym same) (keeps_refl d)
  apply_from-Keeps clock i (m ∷ ms) d e h =
      let (u, d1, first, rest) =
        bind-eq-ok (λ db. wrap_error i (apply_mutation (clock i) m db)) _ d h in
      keeps_trans d d1 e
        (step (clock i) m d d1 (applied (clock i) m d d1 (wrap_error-eq-ok i _ first)))
        (apply_from-Keeps clock (i + 1) ms d1 e rest)

  transact-Keeps :
      (r : Result ((ℕ × Changes) × Db)) (d : Db)
      → ((a : ℕ × Changes) (e : Db) → r ≡ ok (a, e) → Keeps d e)
      → Keeps d (transact (λ _. r) d).1
  transact-Keeps (ok (a, e)) d h = h a e refl
  transact-Keeps (err x) d h = keeps_refl d

  pub apply-Keeps :
      (clock : ℕ → ℤ) (since : ℕ) (ms : List Mutation) (d : Db) → Keeps d (apply clock since ms d).1
  unfolding apply
  apply-Keeps clock since ms d =
      transact-Keeps (apply_body clock since ms d) d
        λ a e h. apply_from-Keeps clock 0 ms d e (body-eq-ok clock since ms d e h).0

  pub serve-Keeps : (qs : List Request) (d : Db) → Keeps d (serve qs d)
  unfolding serve
  serve-Keeps [] d = keeps_refl d
  serve-Keeps (q ∷ qs) d =
      keeps_trans d (apply q.clock q.since q.mutations d).1
        (serve qs (apply q.clock q.since q.mutations d).1)
        (apply-Keeps q.clock q.since q.mutations d)
        (serve-Keeps qs (apply q.clock q.since q.mutations d).1)

-- A request without mutations is a pull.
pub apply-pull :
    (clock : ℕ → ℤ) (since : ℕ) (d : Db) → apply clock since [] d ≡ (ok (answered since d), d)
unfolding apply apply_body apply_from load_changes current_server_seq
apply-pull clock since d = refl

transact-eq-err :
    {A : Type 0} (r : Result (A × Db)) (d : Db) {x : Error} {e : Db}
    → transact (λ _. r) d ≡ (err x, e)
    → e ≡ d
transact-eq-err (ok r) d h = cc
transact-eq-err (err x) d h = ground arith

-- A request that fails leaves the database.
pub apply-refused :
    (clock : ℕ → ℤ) (since : ℕ) (ms : List Mutation) (d e : Db) (x : Error)
    → apply clock since ms d ≡ (err x, e)
    → e ≡ d
unfolding apply
apply-refused clock since ms d e x h = transact-eq-err (apply_body clock since ms d) d h
