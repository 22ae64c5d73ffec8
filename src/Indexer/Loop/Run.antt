-- ===== src/Indexer/Loop/Run.antt =====
-- What a whole run of the indexer keeps true.
use omniscient.Prelude.{
  ℕ, ◌+◌, ◌≤◌, ◌≡◌, ◌⊎◌, inl, refl, sym, subst, arith, true, Option, none, some, List, [], ◌∷◌,
  All-map,
}
use omniscient.Prelude.Result.{Result, ok, err}
use omniscient.Store.{Bytes, Tables, Db, Error}
use omniscient.Store.Table.{All-upsert}
use omniscient.Store.Keeps.{Keeps, then-Keeps}
use omniscient.Indexer.{Alloy}
use omniscient.Indexer.Cursor.{
  Contracts, is_cursor, new_cursor, ensure_cursor, ensure_each, ensure_cursors,
}
use omniscient.Indexer.Finalization.{State}
use omniscient.Indexer.Finalization.Laws.{IsDeep}
use omniscient.Indexer.Loop.{Provider, index_round, index_loop, run_indexer}
use omniscient.Indexer.Loop.Laws.{index_round-IsDeep}

-- The newest block that was seen, and that the newest blocks do not fall; no answer says nothing.
abbrev pub newest : ℕ → List Provider → ℕ
newest n [] = n
newest n (p ∷ ps) = elim p.get_block_number [ none ↦ newest n ps | some m ↦ newest m ps ]

abbrev pub IsRising : ℕ → List Provider → Type 0
IsRising n [] = Unit
IsRising n (p ∷ ps) = elim p.get_block_number [
  | none ↦ IsRising n ps
  | some m ↦ (n ≤ m) × IsRising m ps
]

newest-rises : (ps : List Provider) (n : ℕ) → IsRising n ps → n ≤ newest n ps
newest-rises [] n r = omega arith
newest-rises (p ∷ ps) n r = by_answer p.get_block_number r (newest-rises ps)
  where
    by_answer :
        (o : Option ℕ)
        → elim o as (λ _. Type 0) [ none ↦ IsRising n ps | some m ↦ (n ≤ m) × IsRising m ps ]
        → ((m : ℕ) → IsRising m ps → m ≤ newest m ps)
        → n ≤ elim o as (λ _. ℕ) [ none ↦ newest n ps | some m ↦ newest m ps ]
    by_answer none r rest = rest n r
    by_answer (some m) r rest = let k = rest m r.1 in let l = r.0 in omega arith

IsDeep-later : (n m : ℕ) (t : Tables) → n ≤ m → IsDeep n t → IsDeep m t
IsDeep-later n m t h d = record {
  checkpoints_deep =
      All-map (λ c. c.is_finalized ≡ true → c.block_number + 12 ≤ n)
        (λ c. c.is_finalized ≡ true → c.block_number + 12 ≤ m) (λ c f e. let k = f e in omega arith)
        t.checkpoints d.checkpoints_deep;
  cursors_deep =
      All-map (λ c. (c.last_finalized_block ≡ 0) ⊎ (c.last_finalized_block + 12 ≤ n))
        (λ c. (c.last_finalized_block ≡ 0) ⊎ (c.last_finalized_block + 12 ≤ m))
        (λ c f. ground arith) t.cursors d.cursors_deep;
}

ensure_each-IsDeep : (n : ℕ) (addrs : List Bytes) → Keeps (IsDeep n) (ensure_each addrs)
unfolding ensure_each ensure_cursor
ensure_each-IsDeep n [] = λ db d. d
ensure_each-IsDeep n (a ∷ addrs) =
    then-Keeps (IsDeep n) (ensure_cursor a) (ensure_each addrs)
      (λ t d. record {
        checkpoints_deep = d.checkpoints_deep;
        cursors_deep =
            All-upsert (λ c. (c.last_finalized_block ≡ 0) ⊎ (c.last_finalized_block + 12 ≤ n))
              (is_cursor a) (new_cursor a) (λ c. c) t.cursors (inl refl) (λ c k. k) d.cursors_deep;
      })
      (ensure_each-IsDeep n addrs)

module _ (alloy : Alloy) (config : Contracts) where
  silent_round :
      (p : Provider) (s : State) → p.get_block_number ≡ none → index_round alloy config p s ≡ s
  unfolding index_round
  silent_round p s e = ground arith

  index_loop-IsDeep :
      (ps : List Provider) (n : ℕ) (s : State)
      → IsRising n ps
      → IsDeep n s.db.tables
      → IsDeep (newest n ps) (index_loop alloy config ps s).db.tables
  unfolding index_loop
  index_loop-IsDeep [] n s r d = d
  index_loop-IsDeep (p ∷ ps) n s r d =
      by_answer p.get_block_number refl r
        (λ m. index_loop-IsDeep ps m (index_round alloy config p s))
    where
      by_answer :
          (o : Option ℕ)
          → p.get_block_number ≡ o
          → elim o as (λ _. Type 0) [ none ↦ IsRising n ps | some m ↦ (n ≤ m) × IsRising m ps ]
          → ((m : ℕ)
              → IsRising m ps
              → IsDeep m (index_round alloy config p s).db.tables
              → IsDeep
                  (newest m ps)
                  (index_loop alloy config ps (index_round alloy config p s)).db.tables)
          → IsDeep
              (elim o as (λ _. ℕ) [ none ↦ newest n ps | some m ↦ newest m ps ])
              (index_loop alloy config ps (index_round alloy config p s)).db.tables
      by_answer none e r rest =
          rest n r (subst (λ (z : State). IsDeep n z.db.tables) (sym (silent_round p s e)) d)
      by_answer (some m) e r rest =
          rest m r.1 (index_round-IsDeep alloy config p m s e (IsDeep-later n m s.db.tables r.0 d))

-- From the start on, in any number of rounds, whatever logs and hashes the provider gives and
-- whatever the server refuses, if the numbers of the newest blocks do not fall: if the finalized
-- checkpoints and the last finalized blocks of the contracts are at least twelve blocks behind a
-- block, or a contract has none yet, then they are in the end at least twelve blocks behind the
-- newest block that was seen.
pub run_indexer-IsDeep :
    (alloy : Alloy) (config : Contracts) (ps : List Provider) (n : ℕ) (s : State)
    → IsRising n ps
    → IsDeep n s.db.tables
    → IsDeep (newest n ps) (run_indexer alloy config ps s).db.tables
unfolding run_indexer ensure_cursors
run_indexer-IsDeep alloy config ps n s r d =
    by_result (ensure_cursors config s.db) (ensure_each-IsDeep n addrs s.db d)
  where
    addrs : List Bytes
    addrs = config.custody_addr ∷ config.settlement_exchange_addr ∷ config.oracle_addr ∷ []

    by_result :
        (q : Result (Unit {0}) Error × Db)
        → IsDeep n q.1.tables
        → IsDeep
            (newest n ps)
            (elim q.0 as (λ _. State) [
              | err e ↦ record s { db = q.1 }
              | ok u ↦ index_loop alloy config ps (record s { db = q.1 })
            ]).db.tables
    by_result (err e, db) k = IsDeep-later n (newest n ps) db.tables (newest-rises ps n r) k
    by_result (ok u, db) k = index_loop-IsDeep alloy config ps n (record s { db = db }) r k
