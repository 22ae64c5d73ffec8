-- ===== src/Indexer/Finalization/Progress.antt =====
-- How far the cursor of a contract moves when nothing goes wrong.
use omniscient.Prelude.{
  ℕ, suc, zero, ◌+◌, ◌-◌, ◌≤◌, ◌<◌, ◌≡◌, refl, sym, ap, subst, ◌∙◌, arith, Bool, true, false,
  Option, none, some, List, [], ◌∷◌, All, All-map, filter, leb, ltb, ◌==◌, min,
}
use omniscient.Shared.Constants.{finality_blocks}
use omniscient.Store.{Bytes, Checkpoint, Cursor, Tables, Db, execute, fetch, transaction}
use omniscient.Store.Table.{find, update_where}
use omniscient.Indexer.{i64_limit}
use omniscient.Indexer.Cursor.{Contracts, is_cursor}
use omniscient.Indexer.Reorg.Laws.{before, rollback_unfinalized_run}
use omniscient.Indexer.Finalization.{
  State, blocks_from, finalized_blocks, stored_hash, finalize_checkpoint, move_cursor, advance,
  reconcile_block, differs, finalize_known, finalize_block, finalize_each, finalize_blocks,
}
use omniscient.Indexer.Finalization.Laws.{post_all_db}

-- The last finalized block of a contract, when there is a row.
unfoldable pub cursor_of : Bytes → Tables → Option ℕ
cursor_of addr t = elim (find (is_cursor addr) t.cursors) [
  | none ↦ none
  | some c ↦ some c.last_finalized_block
]

cursor_in : Bytes → List Cursor → Option ℕ
cursor_in addr cs = elim (find (is_cursor addr) cs) [
  | none ↦ none
  | some c ↦ some c.last_finalized_block
]

moved : Bytes → ℕ → Bytes → List Cursor → List Cursor
moved addr block hash cs =
    update_where (is_cursor addr)
      (λ c. record c { last_finalized_block = block; last_finalized_block_hash = some hash }) cs

cursor_in-moved :
    (addr : Bytes) (block : ℕ) (hash : Bytes) (cs : List Cursor)
    → cursor_in addr (moved addr block hash cs)
      ≡ elim (cursor_in addr cs) [ none ↦ none | some x ↦ some block ]
unfolding cursor_in moved find update_where
cursor_in-moved addr block hash [] = refl
cursor_in-moved addr block hash (c ∷ cs) = ground (arith, cursor_in-moved addr block hash cs)

hash_in : ℕ → List Checkpoint → Option Bytes
hash_in b cs = elim (find (λ c. c.block_number == b) cs) [
  | none ↦ none
  | some c ↦ some c.block_hash
]

hash_in-finalized :
    (b block : ℕ) (cs : List Checkpoint)
    → hash_in b
        (update_where (λ c. c.block_number == block) (λ c. record c { is_finalized = true }) cs)
      ≡ hash_in b cs
unfolding hash_in find update_where
hash_in-finalized b block [] = refl
hash_in-finalized b block (c ∷ cs) = ground (arith, hash_in-finalized b block cs)

-- The tables after a block was finalized.
abbrev pub next : Bytes → ℕ → Bytes → Tables → Tables
next addr block hash t = move_cursor addr block hash (finalize_checkpoint block t)

cursor_of-next :
    (addr : Bytes) (block : ℕ) (hash : Bytes) (t : Tables)
    → cursor_of addr (next addr block hash t)
      ≡ elim (cursor_of addr t) [ none ↦ none | some x ↦ some block ]
unfolding cursor_of move_cursor finalize_checkpoint cursor_in moved
cursor_of-next addr block hash t = cursor_in-moved addr block hash t.cursors

stored_hash-next :
    (b : ℕ) (addr : Bytes) (block : ℕ) (hash : Bytes) (t : Tables)
    → stored_hash b (next addr block hash t) ≡ stored_hash b t
unfolding stored_hash move_cursor finalize_checkpoint hash_in
stored_hash-next b addr block hash t = hash_in-finalized b block t.checkpoints

-- The last of some numbers, or `x`.
abbrev pub last : ℕ → List ℕ → ℕ
last x [] = x
last x (b ∷ bs) = last b bs

module _ (config : Contracts) (addr : Bytes) (get_block : ℕ → Option Bytes) where
  -- The provider gives a hash of the block, no other is stored for it, and it is an i64.
  pub record IsAgreed (t : Tables) (b : ℕ) : Type 0 where
    pub hash : Bytes
    pub given : get_block b ≡ some hash
    pub agreed : differs (stored_hash b t) hash ≡ false
    pub fits : b < i64_limit

  reconcile_block_db :
      (block : ℕ) (s : State) → s.db.refusals ≡ [] → (reconcile_block config addr block s).db ≡ s.db
  unfolding reconcile_block fetch
  reconcile_block_db block s n =
      ground (
        arith,
        post_all_db (filter (λ b. b.finalized_block_number == block) s.db.tables.balances) s,
      )

  finalize_block_db :
      (block : ℕ) (s : State) (a : IsAgreed s.db.tables block)
      → s.db.refusals ≡ []
      → (finalize_block config addr get_block block s).db
        ≡ record (s.db) { tables = next addr block a.hash s.db.tables }
  unfolding finalize_block finalize_known advance transaction execute fetch
  finalize_block_db block s a n = ground (
    arith,
    reconcile_block_db block
        (record s { db = record (s.db) { tables = next addr block a.hash s.db.tables } }) n,
  )

  IsAgreed-next :
      (t : Tables) (b block : ℕ) (hash : Bytes) → IsAgreed t b → IsAgreed (next addr block hash t) b
  IsAgreed-next t b block hash a = record {
    hash = a.hash;
    given = a.given;
    agreed = ap (λ o. differs o a.hash) (stored_hash-next b addr block hash t) ∙ a.agreed;
    fits = a.fits;
  }

  All-IsAgreed-next :
      (t : Tables) (bs : List ℕ) (block : ℕ) (hash : Bytes)
      → All (IsAgreed t) bs
      → All (IsAgreed (next addr block hash t)) bs
  All-IsAgreed-next t bs block hash a =
      All-map (IsAgreed t) (IsAgreed (next addr block hash t)) (λ b. IsAgreed-next t b block hash)
        bs a

  finalize_each-cursor_of :
      (bs : List ℕ) (s : State)
      → s.db.refusals ≡ []
      → All (IsAgreed s.db.tables) bs
      → cursor_of addr (finalize_each config addr get_block bs s).db.tables
        ≡ elim (cursor_of addr s.db.tables) [ none ↦ none | some x ↦ some (last x bs) ]
  unfolding finalize_each
  finalize_each-cursor_of [] s n a = ground arith
  finalize_each-cursor_of (b ∷ bs) s n a =
      let s' = finalize_block config addr get_block b s in
      let e = finalize_block_db b s a.0 n in
      let t = ap (λ (db : Db). db.tables) e in
      let ih = finalize_each-cursor_of bs s' (ap (λ (db : Db). db.refusals) e ∙ n) (
        subst (λ (t : Tables). All (IsAgreed t) bs) (sym t)
          (All-IsAgreed-next s.db.tables bs b a.0.hash a.1)) in
      let c = ap (cursor_of addr) t ∙ cursor_of-next addr b a.0.hash s.db.tables in ground arith

abbrev is_deep : ℕ → ℕ → Bool
is_deep current_block b = leb finality_blocks (current_block - b)

none_deep :
    (n start current_block : ℕ)
    → current_block < start + 12
    → filter (is_deep current_block) (blocks_from n start) ≡ []
unfolding blocks_from
none_deep zero start current_block h = refl
none_deep (suc n) start current_block h =
    ground (arith, none_deep n (start + 1) current_block (omega arith))

last-deep :
    (n start current_block x : ℕ)
    → start + 12 ≤ current_block
    → last x (filter (is_deep current_block) (blocks_from (suc n) start))
      ≡ min (start + n) (current_block - 12)
unfolding blocks_from
last-deep zero start current_block x h = ground arith
last-deep (suc n) start current_block x h = ground (
  arith,
  none_deep (suc n) (start + 1) current_block,
  last-deep n (start + 1) current_block start,
)

last-finalized_blocks :
    (start end current_block x : ℕ)
    → start ≤ end
    → start + 12 ≤ current_block
    → last x (finalized_blocks start end current_block) ≡ min end (current_block - 12)
unfolding finalized_blocks
last-finalized_blocks start end current_block x h k =
    let n : end + 1 - start ≡ suc (end - start) = omega arith in
    let m : start + (end - start) ≡ end = omega arith in
    rw n (last-deep (end - start) start current_block x k ∙ ap (λ e. min e (current_block - 12)) m)

-- If a range of blocks is not empty and starts at least twelve blocks behind the newest, the
-- server refuses nothing, and for each block to finalize, an i64, the provider gives a hash and
-- no other hash is stored, then the cursor of a contract that has one moves to the end of the
-- range, or to the twelfth block behind the newest if that comes first.
pub finalize_blocks-cursor_of :
    (config : Contracts) (addr : Bytes) (get_block : ℕ → Option Bytes)
    (start end current_block x : ℕ) (s : State)
    → start ≤ end
    → start + 12 ≤ current_block
    → s.db.refusals ≡ []
    → All (IsAgreed config addr get_block s.db.tables) (finalized_blocks start end current_block)
    → cursor_of addr s.db.tables ≡ some x
    → cursor_of addr (finalize_blocks config addr get_block start end current_block s).db.tables
      ≡ some (min end (current_block - 12))
unfolding finalize_blocks
finalize_blocks-cursor_of config addr get_block start end current_block x s h k n a c =
    let e =
      finalize_each-cursor_of config addr get_block (finalized_blocks start end current_block) s n
        a in
    let l = last-finalized_blocks start end current_block x h k in ground arith

finalize_block-differs :
    (config : Contracts) (addr : Bytes) (get_block : ℕ → Option Bytes) (b : ℕ) (hash : Bytes)
    (s : State)
    → get_block b ≡ some hash
    → b < i64_limit
    → differs (stored_hash b s.db.tables) hash ≡ true
    → s.db.refusals ≡ []
    → finalize_block config addr get_block b s
      ≡ record s { db = record (s.db) { tables = before b s.db.tables } }
unfolding finalize_block finalize_known fetch
finalize_block-differs config addr get_block b hash s g f d n =
    let r = rollback_unfinalized_run b s.db f n in ground arith

-- If the server refuses nothing, the provider gives another hash than the stored one for the
-- first block, an i64, and the blocks after it are i64 numbers for which it gives a hash and no
-- other is stored once the tables are rolled back, then the cursor of a contract that has one
-- moves to the last of these blocks all the same, although the logs of the blocks from the first
-- on are deleted.
pub finalize_each-skips :
    (config : Contracts) (addr : Bytes) (get_block : ℕ → Option Bytes) (b x : ℕ) (bs : List ℕ)
    (hash : Bytes) (s : State)
    → get_block b ≡ some hash
    → b < i64_limit
    → differs (stored_hash b s.db.tables) hash ≡ true
    → s.db.refusals ≡ []
    → All (IsAgreed config addr get_block (before b s.db.tables)) bs
    → cursor_of addr s.db.tables ≡ some x
    → ((finalize_block config addr get_block b s).db.tables.logs
        ≡ filter (λ l. ltb l.block_number b) s.db.tables.logs)
      × (cursor_of addr (finalize_each config addr get_block (b ∷ bs) s).db.tables
          ≡ some (last x bs))
unfolding finalize_each before cursor_of
finalize_each-skips config addr get_block b x bs hash s g f d n a c =
    let s' : State = record s { db = record (s.db) { tables = before b s.db.tables } } in
    let e = finalize_block-differs config addr get_block b hash s g f d n in
    let i = finalize_each-cursor_of config addr get_block bs s' n a in
    (
      ap (λ (z : State). z.db.tables.logs) e,
      ap (λ (z : State). cursor_of addr (finalize_each config addr get_block bs z).db.tables) e
          ∙ i
          ∙ ap
              (λ (o : Option ℕ). elim o as (λ _. Option ℕ) [
                | none ↦ none
                | some x ↦ some (last x bs)
              ])
              c,
    )
