-- ===== src/Judge/Queue/Pool.antt =====
-- The pool over any moves: its slots, and that no commit is run twice at a time.
use runcodes.Prelude.{
  ℕ, ◌≤◌, ◌<◌, ◌≡◌, refl, Bool, true, false, Option, none, some, List, [], ◌∷◌, ◌++◌, All, length,
  ltb, ◌==◌, if_elim, arith, is_empty,
}
use runcodes.Judge.Queue.{
  RowState, compiling, settled, Row, is_queued, oldest, set_state, Answers, succeeds, fails,
  commit_fails, Claimed, mark_terminal, claim_row, take_row, claim_oldest, written, claim,
  PoolState, hand_over, drain_round, remove_one, Move, wakes, polls, drains, finishes, submits,
  reports, has_id, step_pool, run_pool,
}
use runcodes.Judge.Queue.Claims.{UniqueIds, left_queue, Waits, oldest-Best, Best}

-- No commit has two slots.
abbrev pub DifferentIds : List ℕ → Type 0
DifferentIds [] = Unit
DifferentIds (n ∷ ns) = All (λ m. (m == n) ≡ false) ns × DifferentIds ns

pub record Sound (concurrency : ℕ) (p : PoolState) : Type 0 where
  pub within : length p.running ≤ concurrency
  pub rows_unique : UniqueIds p.rows
  pub different : DifferentIds p.running
  pub claimed_rows : All (λ id. left_queue id p.rows ≡ true) p.running

All-set_state :
    (k id : ℕ) (s : RowState) (rows : List Row)
    → All (λ q. (q.id == k) ≡ false) rows
    → All (λ q. (q.id == k) ≡ false) (set_state id s rows)
unfolding set_state
All-set_state k id s [] a = tt
All-set_state k id s (r ∷ rs) (h, a) =
    if_elim (λ (t : List Row). All (λ q. (q.id == k) ≡ false) t) (r.id == id) _ _
      (λ _. (h, All-set_state k id s rs a)) (λ _. (h, All-set_state k id s rs a))

UniqueIds-set_state :
    (id : ℕ) (s : RowState) (rows : List Row) → UniqueIds rows → UniqueIds (set_state id s rows)
unfolding set_state
UniqueIds-set_state id s [] u = tt
UniqueIds-set_state id s (r ∷ rs) (h, u) =
    if_elim UniqueIds (r.id == id) _ _
      (λ _. (All-set_state r.id id s rs h, UniqueIds-set_state id s rs u))
      (λ _. (All-set_state r.id id s rs h, UniqueIds-set_state id s rs u))

-- A row that has left the queue does not come back to it.
left_queue-set_state :
    (k id : ℕ) (s : RowState) (rows : List Row)
    → is_queued s ≡ false
    → left_queue k rows ≡ true
    → left_queue k (set_state id s rows) ≡ true
unfolding set_state
left_queue-set_state k id s [] n h = h
left_queue-set_state k id s (r ∷ rs) n h =
    if_elim (λ (t : List Row). left_queue k t ≡ true) (r.id == id) _ _
      (λ e. ground (arith, left_queue-set_state k id s rs n))
      (λ e. ground (arith, left_queue-set_state k id s rs n))

left_queue-append :
    (k : ℕ) (rows more : List Row) → left_queue k rows ≡ true → left_queue k (rows ++ more) ≡ true
left_queue-append k [] more h = cc
left_queue-append k (r ∷ rs) more h = ground (arith, left_queue-append k rs more)

UniqueIds-append :
    (rows : List Row) (r : Row)
    → has_id r.id rows ≡ false
    → UniqueIds rows
    → UniqueIds (rows ++ r ∷ [])
UniqueIds-append [] r h u = (tt, tt)
UniqueIds-append (q ∷ rows) r h (a, u) =
    (apart rows a (ground arith), UniqueIds-append rows r (ground arith) u)
  where
    apart :
        (rs : List Row)
        → All (λ x. (x.id == q.id) ≡ false) rs
        → (r.id == q.id) ≡ false
        → All (λ x. (x.id == q.id) ≡ false) (rs ++ r ∷ [])
    apart [] a e = (e, tt)
    apart (x ∷ rs) (h, a) e = (h, apart rs a e)

All-map : (P Q : ℕ → Type 0) (ids : List ℕ) → ((id : ℕ) → P id → Q id) → All P ids → All Q ids
All-map P Q [] f a = tt
All-map P Q (n ∷ ns) f (p, a) = (f n p, All-map P Q ns f a)

remove_one-All : (P : ℕ → Type 0) (id : ℕ) (ns : List ℕ) → All P ns → All P (remove_one id ns)
unfolding remove_one
remove_one-All P id [] a = tt
remove_one-All P id (n ∷ ns) (p, a) =
    if_elim (λ (t : List ℕ). All P t) (n == id) _ _ (λ _. a) (λ _. (p, remove_one-All P id ns a))

remove_one-DifferentIds : (id : ℕ) (ns : List ℕ) → DifferentIds ns → DifferentIds (remove_one id ns)
unfolding remove_one
remove_one-DifferentIds id [] d = tt
remove_one-DifferentIds id (n ∷ ns) (a, d) =
    if_elim DifferentIds (n == id) _ _ (λ _. d)
      (λ _. (remove_one-All (λ m. (m == n) ≡ false) id ns a, remove_one-DifferentIds id ns d))

length-remove_one-le : (id : ℕ) (ns : List ℕ) → length (remove_one id ns) ≤ length ns
unfolding remove_one
length-remove_one-le id [] = omega arith
length-remove_one-le id (n ∷ ns) = ground (arith, length-remove_one-le id ns)

set_state_leaves :
    (k : ℕ) (s : RowState) (rows : List Row)
    → is_queued s ≡ false
    → has_id k rows ≡ true
    → left_queue k (set_state k s rows) ≡ true
unfolding set_state
set_state_leaves k s [] n h = cc
set_state_leaves k s (r ∷ rs) n h =
    if_elim (λ (t : List Row). left_queue k t ≡ true) (r.id == k) _ _ (λ e. ground arith)
      (λ e. ground (arith, set_state_leaves k s rs n))

apart_running :
    (k : ℕ) (rows : List Row) (ids : List ℕ)
    → left_queue k rows ≡ false
    → All (λ id. left_queue id rows ≡ true) ids
    → All (λ m. (m == k) ≡ false) ids
apart_running k rows [] h a = tt
apart_running k rows (n ∷ ns) h (p, a) = (grind arith, apart_running k rows ns h a)

module _ (concurrency : ℕ) where
  -- The rows change, but no row comes back to the queue.
  change-Sound :
      (p : PoolState) (id : ℕ) (s : RowState) (w d : Bool)
      → is_queued s ≡ false
      → Sound concurrency p
      → Sound concurrency (record p { rows = set_state id s p.rows; wake = w; draining = d })
  change-Sound p id s w d n inv = record {
    within = inv.within;
    rows_unique = UniqueIds-set_state id s p.rows inv.rows_unique;
    different = inv.different;
    claimed_rows =
        All-map _ _ p.running (λ k h. left_queue-set_state k id s p.rows n h) inv.claimed_rows;
  }

  same-Sound :
      (p : PoolState) (w d : Bool)
      → Sound concurrency p
      → Sound concurrency (record p { wake = w; draining = d })
  same-Sound p w d inv = record {
    within = inv.within;
    rows_unique = inv.rows_unique;
    different = inv.different;
    claimed_rows = inv.claimed_rows;
  }

  take-Sound :
      (p : PoolState) (r : Row)
      → length p.running < concurrency
      → Waits r p.rows
      → Sound concurrency p
      → Sound concurrency
          (record p { rows = set_state r.id compiling p.rows; running = r.id ∷ p.running })
  take-Sound p r room (present, waits) inv = record {
    within = omega (arith, room);
    rows_unique = UniqueIds-set_state r.id compiling p.rows inv.rows_unique;
    different = (
      apart_running r.id p.rows p.running (waits inv.rows_unique) inv.claimed_rows,
      inv.different,
    );
    claimed_rows = (
      set_state_leaves r.id compiling p.rows refl present,
      All-map _ _ p.running (λ k h. left_queue-set_state k r.id compiling p.rows refl h)
          inv.claimed_rows,
    );
  }

  abbrev Handed : PoolState → List Row × Claimed → Type 0
  Handed p c = Sound concurrency (hand_over p c)

  written-Sound :
      (p : PoolState) (answers : Answers) (r : Row) (exercise : ℕ → Option ℕ)
      → length p.running < concurrency
      → Waits r p.rows
      → Sound concurrency p
      → Handed p (written answers p.rows (claim_row exercise p.rows r))
  unfolding mark_terminal
  written-Sound p succeeds r exercise room w inv =
      if_elim (Handed p) (is_empty r.s3_key) _ _
        (λ _. change-Sound p r.id settled p.wake false refl inv)
        (λ _. taken (exercise r.exercise_id))
    where
      taken : (o : Option ℕ) → Handed p (take_row r p.rows o)
      taken none = change-Sound p r.id settled p.wake false refl inv
      taken (some real) = take-Sound p r room w inv
  written-Sound p fails r exercise room w inv = same-Sound p p.wake false inv
  written-Sound p (commit_fails true) r exercise room w inv =
      if_elim
        (λ (c : List Row × Claimed). Sound concurrency (record p { rows = c.0; draining = false }))
        (is_empty r.s3_key) _ _ (λ _. change-Sound p r.id settled p.wake false refl inv)
        (λ _. taken (exercise r.exercise_id))
    where
      taken :
          (o : Option ℕ)
          → Sound concurrency (record p { rows = (take_row r p.rows o).0; draining = false })
      taken none = change-Sound p r.id settled p.wake false refl inv
      taken (some real) = change-Sound p r.id compiling p.wake false refl inv
  written-Sound p (commit_fails false) r exercise room w inv = same-Sound p p.wake false inv

  claim_oldest-Sound :
      (p : PoolState) (answers : Answers) (locked : ℕ → Bool) (exercise : ℕ → Option ℕ)
      (o : Option Row)
      → length p.running < concurrency
      → Best locked o p.rows
      → Sound concurrency p
      → Handed p (claim_oldest answers exercise p.rows o)
  claim_oldest-Sound p succeeds locked exercise none room b inv = same-Sound p p.wake false inv
  claim_oldest-Sound p fails locked exercise none room b inv = same-Sound p p.wake false inv
  claim_oldest-Sound p (commit_fails _) locked exercise none room b inv =
      same-Sound p p.wake false inv
  claim_oldest-Sound p succeeds locked exercise (some r) room (_, _, _, _, w) inv =
      written-Sound p succeeds r exercise room w inv
  claim_oldest-Sound p fails locked exercise (some r) room (_, _, _, _, w) inv =
      written-Sound p fails r exercise room w inv
  claim_oldest-Sound p (commit_fails b) locked exercise (some r) room (_, _, _, _, w) inv =
      written-Sound p (commit_fails b) r exercise room w inv

  drain_round-Sound :
      (p : PoolState) (answers : Answers) (locked : ℕ → Bool) (exercise : ℕ → Option ℕ)
      → Sound concurrency p
      → Sound concurrency (drain_round concurrency answers locked exercise p)
  unfolding drain_round claim
  drain_round-Sound p answers locked exercise inv =
      if_elim (Sound concurrency) (ltb (length p.running) concurrency) _ _
        (λ e.
          claim_oldest-Sound p answers locked exercise (oldest locked p.rows) (ground arith)
            (oldest-Best locked p.rows) inv)
        (λ _. same-Sound p p.wake false inv)

  step_pool-Sound :
      (p : PoolState) (m : Move)
      → Sound concurrency p
      → Sound concurrency (step_pool concurrency p m)
  unfolding step_pool
  step_pool-Sound p wakes inv = same-Sound p true p.draining inv
  step_pool-Sound p polls inv = same-Sound p false true inv
  step_pool-Sound p (drains answers locked exercise) inv =
      if_elim (Sound concurrency) p.draining _ _
        (λ _. drain_round-Sound p answers locked exercise inv) (λ _. inv)
  step_pool-Sound p (finishes id) inv = record {
    within = omega (arith, length-remove_one-le id p.running, inv.within);
    rows_unique = inv.rows_unique;
    different = remove_one-DifferentIds id p.running inv.different;
    claimed_rows = remove_one-All _ id p.running inv.claimed_rows;
  }
  step_pool-Sound p (submits r) inv =
      if_elim (Sound concurrency) (has_id r.id p.rows) _ _ (λ _. inv)
        (λ e. record {
          within = inv.within;
          rows_unique = UniqueIds-append p.rows r e inv.rows_unique;
          different = inv.different;
          claimed_rows =
              All-map _ _ p.running (λ k h. left_queue-append k p.rows (r ∷ []) h) inv.claimed_rows;
        })
  step_pool-Sound p (reports id) inv = change-Sound p id settled p.wake p.draining refl inv

  -- Whatever the pool does, and whatever the database answers to its claims, it never has more runs
  -- than slots, no commit has two runs at a time, and no commit that is running can be claimed again,
  -- since its row has left the queue for good.
  pub run_pool-Sound :
      (ms : List Move) (p : PoolState)
      → Sound concurrency p
      → Sound concurrency (run_pool concurrency p ms)
  unfolding run_pool
  run_pool-Sound [] p inv = inv
  run_pool-Sound (m ∷ ms) p inv =
      run_pool-Sound ms (step_pool concurrency p m) (step_pool-Sound p m inv)
