-- ===== src/Gateway/Service/Rebuild.antt =====
-- The books that are rebuilt at start-up.
use omniscient.Prelude.{
  ℕ, ◌≤◌, ◌<◌, ◌≡◌, refl, sym, ap, subst, ◌∙◌, Bool, true, false, Option, none, some, List, [], ◌∷◌,
  All, arith, ◌==◌, if◌then◌else◌, add_u64, u64_mod, ==_iff,
}
use omniscient.Prelude.Result.{ok}
use omniscient.Shared.Domain.{OrderSide, buy, sell}
use omniscient.Store.{Db}
use omniscient.Gateway.Book.{RestingOrder, OrderBook, new, insert}
use omniscient.Gateway.Book.Matching.{IsValid, opposite}
use omniscient.Gateway.Book.Insert.{enqueue, other_side, insert-enqueue}
use omniscient.Gateway.Book.Cancel.{prune}
use omniscient.Gateway.Book.Cancel.Validity.{prune-id}
use omniscient.Gateway.Engine.{Books, put, book_at}
use omniscient.Gateway.Engine.Invariant.{new-IsHealthy}
use omniscient.Gateway.Infra.{OpenOrderRow, load_open_orders}
use omniscient.Gateway.Service.{resting_of_row, insert_rows, no_books, prune_all, rebuild_books}

abbrev pub side_eq : OrderSide → OrderSide → Bool
side_eq buy buy = true
side_eq sell sell = true
side_eq _ _ = false

-- The queue of one side of one book when the rows are added to it in their order, each with the next
-- sequence number of the book.
abbrev pub queue_of : OrderSide → ℕ → ℕ → List RestingOrder → List OpenOrderRow → List RestingOrder
queue_of side p seq q [] = q
queue_of side p seq q (row ∷ rows) =
    queue_of side p (if row.position_id == p then add_u64 seq 1 else seq)
      (if row.position_id == p
        then (if side_eq side row.side
            then enqueue side (record (resting_of_row row) { seq = seq }) q
            else q)
        else q)
      rows

-- Not more is filled than the amount, a u64.
abbrev pub IsSoundRow : OpenOrderRow → Type 0
IsSoundRow row = (row.filled_amount ≤ row.amount) × (row.amount < u64_mod)

record Holds (side : OrderSide) (seq : ℕ) (q : List RestingOrder) (b : OrderBook) : Type 0 where
  valid : IsValid b
  queue_eq : opposite (other_side side) b ≡ q
  seq_eq : b.next_seq ≡ seq

side_queue :
    (side c : OrderSide) (b b' : OrderBook) (o : RestingOrder) (q : List RestingOrder)
    → opposite (other_side c) b' ≡ enqueue c o (opposite (other_side c) b)
    → opposite c b' ≡ opposite c b
    → opposite (other_side side) b ≡ q
    → opposite (other_side side) b' ≡ (if side_eq side c then enqueue side o q else q)
side_queue buy buy b b' o q h k e = h ∙ ap (enqueue buy o) e
side_queue buy sell b b' o q h k e = k ∙ e
side_queue sell buy b b' o q h k e = k ∙ e
side_queue sell sell b b' o q h k e = h ∙ ap (enqueue sell o) e

insert-Holds :
    (side : OrderSide) (seq : ℕ) (q : List RestingOrder) (b : OrderBook) (row : OpenOrderRow)
    → IsSoundRow row
    → Holds side seq q b
    → Holds side
        (add_u64 seq 1)
        (if side_eq side row.side
          then enqueue side (record (resting_of_row row) { seq = seq }) q
          else q)
        (insert b (resting_of_row row)).0
insert-Holds side seq q b row s h = record {
  valid = i.0;
  queue_eq =
      side_queue side row.side b (insert b o).0 (record o { seq = seq }) q
        (i.3
          ∙ ap (λ (x : RestingOrder). enqueue row.side x (opposite (other_side row.side) b))
              numbered)
        i.4 h.queue_eq;
  seq_eq = i.2 ∙ ap (λ n. add_u64 n 1) h.seq_eq;
}
  where
    o : RestingOrder
    o = resting_of_row row

    i :
        IsValid (insert b o).0
        × ((insert b o).1 ≡ record o { seq = b.next_seq })
        × ((insert b o).0.next_seq ≡ add_u64 b.next_seq 1)
        × (opposite (other_side o.side) (insert b o).0
            ≡ enqueue o.side (insert b o).1 (opposite (other_side o.side) b))
        × (opposite o.side (insert b o).0 ≡ opposite o.side b)
    i = insert-enqueue b o h.valid (record { filled_le = s.0; amount_lt = s.1 })

    numbered : (insert b o).1 ≡ record o { seq = seq }
    numbered = i.1 ∙ ap (λ (n : ℕ). record o { seq = n }) h.seq_eq

book_at-put :
    (p q : ℕ) (b : OrderBook) (books : Books)
    → book_at q (put p b books) ≡ (if p == q then b else book_at q books)
book_at-put p q b books = by_test (p == q)
  where
    by_test :
        (c : Bool)
        → elim (if c then some b else books q) as (λ _. OrderBook) [ none ↦ new | some b ↦ b ]
          ≡ (if c then b else book_at q books)
    by_test true = refl
    by_test false = refl

one_row-Holds :
    (side : OrderSide) (p : ℕ) (row : OpenOrderRow) (books : Books) (seq : ℕ)
    (q : List RestingOrder)
    → IsSoundRow row
    → Holds side seq q (book_at p books)
    → Holds side
        (if row.position_id == p then add_u64 seq 1 else seq)
        (if row.position_id == p
          then (if side_eq side row.side
              then enqueue side (record (resting_of_row row) { seq = seq }) q
              else q)
          else q)
        (book_at p (
          put row.position_id
            (insert (book_at row.position_id books) (resting_of_row row)).0
            books))
one_row-Holds side p row books seq q s h =
    rw (book_at-put row.position_id p inserted books) (by_test (row.position_id == p) refl)
  where
    inserted : OrderBook
    inserted = (insert (book_at row.position_id books) (resting_of_row row)).0

    by_test :
        (c : Bool)
        → (row.position_id == p) ≡ c
        → Holds side
            (if c then add_u64 seq 1 else seq)
            (if c
              then (if side_eq side row.side
                  then enqueue side (record (resting_of_row row) { seq = seq }) q
                  else q)
              else q)
            (if c then inserted else book_at p books)
    by_test true e =
        insert-Holds side seq q (book_at row.position_id books) row s
          (subst (λ n. Holds side seq q (book_at n books)) (sym ((==_iff row.position_id p).0 e)) h)
    by_test false e = h

insert_rows-Holds :
    (side : OrderSide) (p : ℕ) (rows : List OpenOrderRow) (books : Books) (seq : ℕ)
    (q : List RestingOrder)
    → All IsSoundRow rows
    → Holds side seq q (book_at p books)
    → Holds side
        (book_at p (insert_rows rows books)).next_seq
        (queue_of side p seq q rows)
        (book_at p (insert_rows rows books))
unfolding insert_rows
insert_rows-Holds side p [] books seq q s h = record {
  valid = h.valid;
  queue_eq = h.queue_eq;
  seq_eq = refl;
}
insert_rows-Holds side p (row ∷ rows) books seq q s h =
    insert_rows-Holds side p rows
      (put row.position_id (insert (book_at row.position_id books) (resting_of_row row)).0 books)
      (if row.position_id == p then add_u64 seq 1 else seq)
      (if row.position_id == p
        then (if side_eq side row.side
            then enqueue side (record (resting_of_row row) { seq = seq }) q
            else q)
        else q)
      s.1 (one_row-Holds side p row books seq q s.0 h)

new-Holds : (side : OrderSide) → Holds side 0 [] new
unfolding new
new-Holds buy = record { valid = new-IsHealthy.0; queue_eq = refl; seq_eq = refl }
new-Holds sell = record { valid = new-IsHealthy.0; queue_eq = refl; seq_eq = refl }

book_at-prune_all :
    (p : ℕ) (books : Books)
    → IsValid (book_at p books)
    → book_at p (prune_all books) ≡ book_at p books
book_at-prune_all p books v = by_book (books p) v
  where
    by_book :
        (o : Option OrderBook)
        → IsValid (elim o [ none ↦ new | some b ↦ b ])
        → elim (elim o as (λ _. Option OrderBook) [ none ↦ none | some b ↦ some (prune b) ])
            as (λ _. OrderBook) [ none ↦ new | some b ↦ b ]
          ≡ elim o [ none ↦ new | some b ↦ b ]
    by_book none v = refl
    by_book (some b) v = prune-id b v

-- When the open orders could be loaded, each with a u64 amount and no more than that filled, the
-- books are rebuilt, and the book of every position is valid; on each of its sides stand the open
-- orders of this position and side, as if they had been added one by one in the order of their
-- creation, each behind those of the same or a better price.
pub rebuild_books-queue_of :
    (db db' : Db) (rows : List OpenOrderRow)
    → load_open_orders db ≡ (ok rows, db')
    → All IsSoundRow rows
    → (books : Books) × (rebuild_books db ≡ (ok books, db'))
      × ((p : ℕ)
          → IsValid (book_at p books)
            × (opposite sell (book_at p books) ≡ queue_of buy p 0 [] rows)
            × (opposite buy (book_at p books) ≡ queue_of sell p 0 [] rows))
unfolding rebuild_books
rebuild_books-queue_of db db' rows h s = (prune_all (insert_rows rows no_books), ground arith, at)
  where
    at :
        (p : ℕ)
        → let books = prune_all (insert_rows rows no_books) in
          IsValid (book_at p books)
          × (opposite sell (book_at p books) ≡ queue_of buy p 0 [] rows)
          × (opposite buy (book_at p books) ≡ queue_of sell p 0 [] rows)
    at p =
        let k = insert_rows-Holds buy p rows no_books 0 [] s (new-Holds buy) in
        let l = insert_rows-Holds sell p rows no_books 0 [] s (new-Holds sell) in
        rw (book_at-prune_all p (insert_rows rows no_books) k.valid)
          (k.valid, k.queue_eq, l.queue_eq)
