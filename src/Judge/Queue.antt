-- ===== src/Judge/Queue.antt =====
-- judge/internal/store/store.go (Claim, markTerminal) and judge/internal/worker/pool.go: the queue of
-- commits in the database, and the pool that claims them. The transaction of a claim is one step; a
-- run is running from its claim until it finishes.
pub mod Claims
pub mod Pool
mod Tests
use runcodes.Prelude.{
  ℕ, zero, suc, ◌+◌, Bool, true, false, not, ◌&&◌, Option, none, some, List, [], ◌∷◌, ◌++◌, map,
  any, length, ltb, leb, ◌==◌, if◌then◌else◌, Text, is_empty,
}

-- `settled` is every other status of a commit.
pub data RowState : Type 0 where
  queued compiling settled : RowState

-- A missing key is the empty one.
pub record Row : Type 0 where
  pub id : ℕ
  pub created : ℕ
  pub s3_key : Text
  pub exercise_id : ℕ
  pub state : RowState

abbrev pub is_queued : RowState → Bool
is_queued queued = true
is_queued _ = false

-- What SELECT ... FOR UPDATE SKIP LOCKED can take.
abbrev pub available : (ℕ → Bool) → Row → Bool
available locked r = is_queued r.state && not (locked r.id)

abbrev earlier : Row → Option Row → Option Row
earlier r none = some r
earlier r (some q) = if leb r.created q.created then some r else some q

-- The oldest row that is queued and not locked.
unfoldable pub oldest : (ℕ → Bool) → List Row → Option Row
oldest locked [] = none
oldest locked (r ∷ rs) =
    let rest = oldest locked rs in if available locked r then earlier r rest else rest

unfoldable pub set_state : ℕ → RowState → List Row → List Row
set_state id s [] = []
set_state id s (r ∷ rs) =
    let rest = set_state id s rs in if r.id == id then record r { state = s } ∷ rest else r ∷ rest

-- The database's answers to a claim: all statements succeed, one before the commit fails, or the
-- commit fails, with its writes kept or not.
pub data Answers : Type 0 where
  succeeds fails : Answers
  commit_fails : Bool → Answers

-- The commit and its real exercise, a nil commit, or an error.
pub data Claimed : Type 0 where
  claimed : Row → ℕ → Claimed
  no_commit claim_error : Claimed

abbrev written : Answers → List Row → List Row × Claimed → List Row × Claimed
written succeeds rows (rows', c) = (rows', c)
written fails rows (rows', c) = (rows, claim_error)
written (commit_fails true) rows (rows', c) = (rows', claim_error)
written (commit_fails false) rows (rows', c) = (rows, claim_error)

unfoldable pub mark_terminal : ℕ → List Row → List Row × Claimed
mark_terminal id rows = (set_state id settled rows, no_commit)

-- Behind the update of the row; the argument is the real exercise of the commit's exercise.
abbrev take_row : Row → List Row → Option ℕ → List Row × Claimed
take_row r rows none = mark_terminal r.id rows
take_row r rows (some real) = (set_state r.id compiling rows, claimed r real)

abbrev claim_row : (ℕ → Option ℕ) → List Row → Row → List Row × Claimed
claim_row exercise rows r =
    if is_empty r.s3_key then mark_terminal r.id rows else take_row r rows (exercise r.exercise_id)

abbrev claim_oldest : Answers → (ℕ → Option ℕ) → List Row → Option Row → List Row × Claimed
claim_oldest fails exercise rows none = (rows, claim_error)
claim_oldest answers exercise rows none = (rows, no_commit)
claim_oldest answers exercise rows (some r) = written answers rows (claim_row exercise rows r)

-- Claim; `exercise` resolves a ghost exercise to its real one, and gives none for a missing one.
unfoldable pub claim : Answers → (ℕ → Bool) → (ℕ → Option ℕ) → List Row → List Row × Claimed
unfolding oldest mark_terminal
claim answers locked exercise rows = claim_oldest answers exercise rows (oldest locked rows)

-- `running` holds the commits whose goroutine has a slot; `draining` tells that drain is in its loop.
pub record PoolState : Type 0 where
  pub rows : List Row
  pub running : List ℕ
  pub wake : Bool
  pub draining : Bool

abbrev hand_over : PoolState → List Row × Claimed → PoolState
hand_over p (rows, claimed r real) = record p { rows = rows; running = r.id ∷ p.running }
hand_over p (rows, no_commit) = record p { rows = rows; draining = false }
hand_over p (rows, claim_error) = record p { rows = rows; draining = false }

-- One round of drain.
unfoldable pub drain_round : ℕ → Answers → (ℕ → Bool) → (ℕ → Option ℕ) → PoolState → PoolState
unfolding claim
drain_round concurrency answers locked exercise p =
    if ltb (length p.running) concurrency
    then hand_over p (claim answers locked exercise p.rows)
    else record p { draining = false }

unfoldable pub remove_one : ℕ → List ℕ → List ℕ
remove_one id [] = []
remove_one id (n ∷ ns) = let rest = remove_one id ns in if n == id then ns else n ∷ rest

-- What happens to the pool and its rows: a wake, the start of a drain, a round of it, the end of a run,
-- a submission, and a status that the backend writes for a commit that has left the queue.
pub data Move : Type 0 where
  wakes polls : Move
  drains : Answers → (ℕ → Bool) → (ℕ → Option ℕ) → Move
  finishes : ℕ → Move
  submits : Row → Move
  reports : ℕ → Move

abbrev has_id : ℕ → List Row → Bool
has_id id rows = any (λ r. r.id == id) rows

unfoldable pub step_pool : ℕ → PoolState → Move → PoolState
unfolding drain_round remove_one
step_pool concurrency p wakes = record p { wake = true }
step_pool concurrency p polls = record p { wake = false; draining = true }
step_pool concurrency p (drains answers locked exercise) =
    if p.draining then drain_round concurrency answers locked exercise p else p
step_pool concurrency p (finishes id) = record p { running = remove_one id p.running }
step_pool concurrency p (submits r) =
    if has_id r.id p.rows then p else record p { rows = p.rows ++ r ∷ [] }
step_pool concurrency p (reports id) = record p { rows = set_state id settled p.rows }

unfoldable pub run_pool : ℕ → PoolState → List Move → PoolState
unfolding step_pool
run_pool concurrency p [] = p
run_pool concurrency p (m ∷ ms) = run_pool concurrency (step_pool concurrency p m) ms
