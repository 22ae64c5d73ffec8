-- ===== src/Indexer/Finalization/Requests.antt =====
-- The requests that follow the finalization of a block of the custody contract.
use omniscient.Prelude.{
  ℕ, suc, zero, ◌≡◌, refl, sym, ap, ◌∙◌, arith, Bool, true, false, Option, List, [], ◌∷◌, ◌++◌,
  filter, ◌==◌, append_assoc, append-nil,
}
use omniscient.Shared.Domain.{bytes_eq_iff}
use omniscient.Store.{Bytes, Balance, Db, execute, fetch, transaction}
use omniscient.Indexer.Cursor.{Contracts}
use omniscient.Indexer.Finalization.{
  State, Reconcile, request_of, attempt, post_all, advance, finalize_checkpoint, move_cursor,
  reconcile_block, finalize_known, finalize_block,
}
use omniscient.Indexer.Finalization.Progress.{IsAgreed, next}

-- The rows that were last changed at a block.
abbrev pub changed_at : ℕ → List Balance → List Balance
changed_at block bs = filter (λ b. b.finalized_block_number == block) bs

-- How often a request is posted, by which of the next posts fail: until one succeeds, three times at
-- most.
abbrev pub tries : List Bool → ℕ
tries [] = 1
tries (false ∷ fs) = 1
tries (true ∷ []) = 2
tries (true ∷ (false ∷ fs)) = 2
tries (true ∷ (true ∷ fs)) = 3

abbrev pub repeat : ℕ → Reconcile → List Reconcile
repeat zero r = []
repeat (suc n) r = r ∷ repeat n r

abbrev pub after : ℕ → List Bool → List Bool
after zero fs = fs
after (suc n) [] = []
after (suc n) (f ∷ fs) = after n fs

-- What is posted for some rows.
abbrev pub posts : List Balance → List Bool → List Reconcile
posts [] fs = []
posts (b ∷ bs) fs = repeat (tries fs) (request_of b) ++ posts bs (after (tries fs) fs)

attempt_lem :
    (r : Reconcile) (db : Db) (rs : List Reconcile) (fs : List Bool)
    → attempt 3 r (record { db = db; requests = rs; failures = fs })
      ≡ record { db = db; requests = rs ++ repeat (tries fs) r; failures = after (tries fs) fs }
unfolding attempt
attempt_lem r db rs [] = refl
attempt_lem r db rs (false ∷ fs) = refl
attempt_lem r db rs (true ∷ []) = simp append_assoc
attempt_lem r db rs (true ∷ (false ∷ fs)) = simp append_assoc
attempt_lem r db rs (true ∷ (true ∷ [])) = simp append_assoc
attempt_lem r db rs (true ∷ (true ∷ (false ∷ fs))) = simp append_assoc
attempt_lem r db rs (true ∷ (true ∷ (true ∷ fs))) = simp append_assoc

post_all-posts :
    (bs : List Balance) (s : State) → (post_all bs s).requests ≡ s.requests ++ posts bs s.failures
unfolding post_all
post_all-posts [] s = sym (append-nil s.requests)
post_all-posts (b ∷ bs) s =
    let fs = s.failures in
    let sent = repeat (tries fs) (request_of b) in
    ap (λ (z : State). (post_all bs z).requests) (attempt_lem (request_of b) s.db s.requests fs)
    ∙ post_all-posts bs (record s { requests = s.requests ++ sent; failures = after (tries fs) fs })
    ∙ append_assoc s.requests sent (posts bs (after (tries fs) fs))

module _ (config : Contracts) (get_block : ℕ → Option Bytes) (block : ℕ) (s : State) where
  finalize_block_run :
      (a : IsAgreed config config.custody_addr get_block s.db.tables block)
      → s.db.refusals ≡ []
      → finalize_block config config.custody_addr get_block block s
        ≡ post_all (changed_at block s.db.tables.balances) (record s {
          db = record (s.db) { tables = next config.custody_addr block a.hash s.db.tables };
        })
  unfolding finalize_block finalize_known advance transaction execute fetch reconcile_block
      finalize_checkpoint move_cursor
  finalize_block_run a n =
      let c = (bytes_eq_iff config.custody_addr config.custody_addr).1 refl in ground (arith, c)

  -- When a block of the custody contract, an i64, is finalized, that is, the provider gives its
  -- hash, no other is stored and the server refuses nothing, then for each row that was last
  -- changed at this block, in the order of the rows, a deposit of all that is available in it is
  -- posted, with the row's user and block: once, and again as long as posting fails, three times
  -- at most. Nothing else is posted.
  pub finalize_block-requests :
      IsAgreed config config.custody_addr get_block s.db.tables block
      → s.db.refusals ≡ []
      → (finalize_block config config.custody_addr get_block block s).requests
        ≡ s.requests ++ posts (changed_at block s.db.tables.balances) s.failures
  finalize_block-requests a n = rw (finalize_block_run a n) (
      post_all-posts (changed_at block s.db.tables.balances) (record s {
        db = record (s.db) { tables = next config.custody_addr block a.hash s.db.tables };
      }))
