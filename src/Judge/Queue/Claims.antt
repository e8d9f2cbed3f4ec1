-- ===== src/Judge/Queue/Claims.antt =====
-- Claim: the oldest row leaves the queue, whether it can be processed or not.
use runcodes.Prelude.{
  ℕ, suc, ◌+◌, ◌≤◌, ◌≡◌, refl, ap, ◌⊎◌, inl, inr, Bool-cases, ==_iff, Bool, true, false, not, ◌&&◌,
  Option, none, some, List, [], ◌∷◌, All, ltb, leb, ◌==◌, ==_refl, if◌then◌else◌, if_elim, arith,
  is_empty,
}
use runcodes.Judge.Queue.{
  RowState, compiling, settled, Row, claimed, no_commit, is_queued, available, earlier, oldest,
  set_state, succeeds, mark_terminal, claim_row, take_row, claim, Claimed, has_id,
}

-- No two rows have one id.
abbrev pub UniqueIds : List Row → Type 0
UniqueIds [] = Unit
UniqueIds (r ∷ rs) = All (λ q. (q.id == r.id) ≡ false) rs × UniqueIds rs

abbrev one_if : Bool → ℕ
one_if true = 1
one_if false = 0

abbrev pub queued_count : List Row → ℕ
queued_count [] = 0
queued_count (r ∷ rs) = one_if (is_queued r.state) + queued_count rs

-- No row that could be taken is older.
abbrev pub NoneOlder : (ℕ → Bool) → Row → List Row → Type 0
NoneOlder locked r rows = All (λ q. (available locked q && ltb q.created r.created) ≡ false) rows

-- With a status that is not queued, a row leaves the queue and no other does.
abbrev pub Leaves : Row → List Row → Type 0
Leaves r rows =
    (s : RowState)
    → is_queued s ≡ false
    → UniqueIds rows
    → suc (queued_count (set_state r.id s rows)) ≡ queued_count rows

-- An id that no row has is not that of the row.
abbrev Inside : Row → List Row → Type 0
Inside r rows = (id : ℕ) → All (λ q. (q.id == id) ≡ false) rows → (r.id == id) ≡ false

-- Some row has an id, and no row with it is queued.
abbrev pub left_queue : ℕ → List Row → Bool
left_queue id [] = false
left_queue id (r ∷ rs) = if r.id == id then not (is_queued r.state) else left_queue id rs

-- A row whose id stands for a queued row.
abbrev pub Waits : Row → List Row → Type 0
Waits r rows = (has_id r.id rows ≡ true) × (UniqueIds rows → left_queue r.id rows ≡ false)

-- The row with the id of `r` has the status, and every other row is as it was.
abbrev pub Moved : Row → RowState → List Row → List Row → Type 0
Moved r s [] [] = Unit
Moved r s (q ∷ rows) (q' ∷ rows') =
    (((q.id ≡ r.id) × (q' ≡ record q { state = s })) ⊎ ((q.id ≡ r.id → ⊥) × (q' ≡ q)))
    × Moved r s rows rows'
Moved r s _ _ = ⊥

-- What the claim of `r` gives: a row without a source or an exercise is settled and nothing is handed
-- over, and any other is compiling and handed over with its real exercise.
abbrev pub Outcome : (ℕ → Option ℕ) → List Row → Row → List Row × Claimed → Type 0
Outcome exercise rows r (rows', c) =
    (((is_empty r.s3_key ≡ true) ⊎ (exercise r.exercise_id ≡ none))
      × (c ≡ no_commit)
      × Moved r settled rows rows')
    ⊎ ((real : ℕ) × (is_empty r.s3_key ≡ false)
        × (exercise r.exercise_id ≡ some real)
        × (c ≡ claimed r real)
        × Moved r compiling rows rows')

set_state-Moved :
    (r : Row) (s : RowState) (rows : List Row) → Moved r s rows (set_state r.id s rows)
unfolding set_state
set_state-Moved r s [] = tt
set_state-Moved r s (q ∷ rows) = elim (Bool-cases (q.id == r.id)) [
  | inl e ↦ rw e (inl ((==_iff q.id r.id).0 e, refl), set_state-Moved r s rows)
  | inr n ↦ rw n (inr (λ same. cc (n, (==_iff q.id r.id).1 same), refl), set_state-Moved r s rows)
]

claim_row-Outcome :
    (exercise : ℕ → Option ℕ) (rows : List Row) (r : Row)
    → Outcome exercise rows r (claim_row exercise rows r)
unfolding mark_terminal
claim_row-Outcome exercise rows r = elim (Bool-cases (is_empty r.s3_key)) [
  | inl e ↦ rw e (inl (inl refl, refl, set_state-Moved r settled rows))
  | inr n ↦ rw n (taken (exercise r.exercise_id))
]
  where
    taken :
        (o : Option ℕ)
        → (((false ≡ true) ⊎ (o ≡ none))
            × ((take_row r rows o).1 ≡ no_commit)
            × Moved r settled rows (take_row r rows o).0)
          ⊎ ((real : ℕ) × (false ≡ false)
              × (o ≡ some real)
              × ((take_row r rows o).1 ≡ claimed r real)
              × Moved r compiling rows (take_row r rows o).0)
    taken none = inl (inr refl, refl, set_state-Moved r settled rows)
    taken (some real) = inr (real, refl, refl, refl, set_state-Moved r compiling rows)

set_state_absent :
    (id : ℕ) (s : RowState) (rows : List Row)
    → All (λ q. (q.id == id) ≡ false) rows
    → set_state id s rows ≡ rows
unfolding set_state
set_state_absent id s [] a = refl
set_state_absent id s (r ∷ rs) (h, a) = rw h (ap (λ t. r ∷ t) (set_state_absent id s rs a))

module _ (locked : ℕ → Bool) where
  -- What the choice of a row means.
  abbrev pub Best : Option Row → List Row → Type 0
  Best none rows = All (λ q. available locked q ≡ false) rows
  Best (some r) rows =
      (available locked r ≡ true)
      × NoneOlder locked r rows
      × Leaves r rows
      × Inside r rows
      × Waits r rows

  older_none :
      (r : Row) (rows : List Row)
      → All (λ q. available locked q ≡ false) rows
      → NoneOlder locked r rows
  older_none r [] a = tt
  older_none r (q ∷ rows) (h, a) = (ground arith, older_none r rows a)

  older_weaken :
      (h q : Row) (rows : List Row)
      → h.created ≤ q.created
      → NoneOlder locked q rows
      → NoneOlder locked h rows
  older_weaken h q [] le n = tt
  older_weaken h q (x ∷ rows) le (n, ns) = (ground arith, older_weaken h q rows le ns)

  available_queued : (r : Row) → available locked r ≡ true → is_queued r.state ≡ true
  available_queued r h = ground arith

  head-Leaves : (h : Row) (rs : List Row) → available locked h ≡ true → Leaves h (h ∷ rs)
  unfolding set_state
  head-Leaves h rs a s n (u, us) =
      rw (==_refl h.id, set_state_absent h.id s rs u, n, available_queued h a) (omega arith)

  tail-Leaves : (h r : Row) (rs : List Row) → Inside r rs → Leaves r rs → Leaves r (h ∷ rs)
  unfolding set_state
  tail-Leaves h r rs i l s n (u, us) = let apart = i h.id u in let le = l s n us in ground arith

  tail-Inside : (h r : Row) (rs : List Row) → Inside r rs → Inside r (h ∷ rs)
  tail-Inside h r rs i id (_, a) = i id a

  head-Waits : (h : Row) (rs : List Row) → available locked h ≡ true → Waits h (h ∷ rs)
  head-Waits h rs a =
      let q = available_queued h a in (rw (==_refl h.id) refl, λ _. rw (==_refl h.id, q) refl)

  tail-Waits : (h r : Row) (rs : List Row) → Inside r rs → Waits r rs → Waits r (h ∷ rs)
  tail-Waits h r rs i (p, w) =
      (ground arith, λ (u, us). (let apart = i h.id u in let ih = w us in ground arith))

  skip-Best :
      (h : Row) (rs : List Row) (o : Option Row)
      → available locked h ≡ false
      → Best o rs
      → Best o (h ∷ rs)
  skip-Best h rs none a b = (a, b)
  skip-Best h rs (some r) a (q, n, l, i, w) =
      (q, (ground arith, n), tail-Leaves h r rs i l, tail-Inside h r rs i, tail-Waits h r rs i w)

  head-Best :
      (h : Row) (rs : List Row)
      → available locked h ≡ true
      → NoneOlder locked h rs
      → Best (some h) (h ∷ rs)
  head-Best h rs a n = (a, (ground arith, n), head-Leaves h rs a, λ id (x, _). x, head-Waits h rs a)

  earlier-Best :
      (h : Row) (rs : List Row) (o : Option Row)
      → available locked h ≡ true
      → Best o rs
      → Best (earlier h o) (h ∷ rs)
  earlier-Best h rs none a b = head-Best h rs a (older_none h rs b)
  earlier-Best h rs (some q) a (v, n, l, i, w) =
      if_elim (λ o. Best o (h ∷ rs)) (leb h.created q.created) (some h) (some q)
        (λ e. head-Best h rs a (older_weaken h q rs (ground arith) n))
        (λ e. (
          v,
          (ground arith, n),
          tail-Leaves h q rs i l,
          tail-Inside h q rs i,
          tail-Waits h q rs i w,
        ))

  pub oldest-Best : (rows : List Row) → Best (oldest locked rows) rows
  unfolding oldest
  oldest-Best [] = tt
  oldest-Best (h ∷ rs) =
      if_elim (λ o. Best o (h ∷ rs)) (available locked h) _ _
        (λ a. earlier-Best h rs (oldest locked rs) a (oldest-Best rs))
        (λ a. skip-Best h rs (oldest locked rs) a (oldest-Best rs))

  -- The row of a claim, whatever it gives: the source key is missing, the exercise is gone, or the
  -- commit goes to a worker.
  claim_row-Leaves :
      (exercise : ℕ → Option ℕ) (rows : List Row) (r : Row)
      → Leaves r rows
      → UniqueIds rows
      → suc (queued_count (claim_row exercise rows r).0) ≡ queued_count rows
  unfolding mark_terminal
  claim_row-Leaves exercise rows r l u =
      if_elim (λ (c : List Row × Claimed). suc (queued_count c.0) ≡ queued_count rows)
        (is_empty r.s3_key) _ _ (λ _. l settled refl u) (λ _. taken (exercise r.exercise_id))
    where
      taken : (o : Option ℕ) → suc (queued_count (take_row r rows o).0) ≡ queued_count rows
      taken none = l settled refl u
      taken (some real) = l compiling refl u

  -- A claim whose statements succeed takes a row that is queued and not locked, and no such row is
  -- older. On rows with different ids one row fewer is queued, and the row with that id is the only
  -- one that changes: without a source or an exercise it is settled and no commit is returned, and
  -- otherwise it is compiling and is returned with its real exercise.
  pub claim-oldest :
      (exercise : ℕ → Option ℕ) (rows : List Row) (r : Row)
      → UniqueIds rows
      → oldest locked rows ≡ some r
      → (available locked r ≡ true)
        × NoneOlder locked r rows
        × (suc (queued_count (claim succeeds locked exercise rows).0) ≡ queued_count rows)
        × Outcome exercise rows r (claim succeeds locked exercise rows)
  unfolding claim
  claim-oldest exercise rows r u e =
      let (a, n, l, _, _) = rw e at (oldest-Best rows) in
      (a, n, rw e (claim_row-Leaves exercise rows r l u), rw e (claim_row-Outcome exercise rows r))
