-- ===== src/Gateway/Engine/Run.antt =====
-- The matcher thread over any sequence of commands.
use omniscient.Prelude.{
  ℕ, ◌<◌, ◌≡◌, refl, subst, Bool, true, false, Option, none, some, List, [], ◌∷◌, All, All-append,
  arith, ◌==◌, Bool-cases, inl, inr, u64_mod,
}
use omniscient.Shared.Domain.{Address, OrderId}
use omniscient.Gateway.Book.{MatchResult, OrderBook, new}
use omniscient.Gateway.Book.Cancel
use omniscient.Gateway.Book.Cancel.{prune}
use omniscient.Gateway.Engine.{
  PlaceOrder, MatchCommand, place_order, cancel_order, cancel_all, shutdown, Books, put, book_at,
  place, cancel_at, cancel_all_at, run_matcher,
}

-- The amounts are u64 values.
abbrev pub Fits : MatchCommand × Bool → Type 0
Fits (place_order c, o) = c.amount < u64_mod
Fits (cancel_order p id, o) = Unit
Fits (cancel_all m p a, o) = Unit
Fits (shutdown, o) = Unit

abbrev pub AllBooks {κ} : (OrderBook → Type κ) → Books → Type κ
AllBooks P books = (p : ℕ) (b : OrderBook) → books p ≡ some b → P b

-- An invariant of one book under each arm is an invariant of the thread, and what each result
-- satisfies all results that are sent satisfy.
module _ {κ κ'} (P : OrderBook → Type κ) (Q : MatchResult → Type κ') (at_new : P new)
    (at_place : (c : PlaceOrder) (b : OrderBook)
      → c.amount < u64_mod
      → P b
      → P (place c b).0 × Q (place c b).1)
    (at_cancel : (id : OrderId) (b : OrderBook) → P b → P (prune (Cancel.cancel id b).0))
    (at_cancel_all : (a : Address) (b : OrderBook)
      → P b
      → P (prune (Cancel.cancel_all a b).0)) where
  put-AllBooks :
      (p : ℕ) (b : OrderBook) (books : Books) → P b → AllBooks P books → AllBooks P (put p b books)
  put-AllBooks p b books h k q b' e = elim (Bool-cases (p == q)) [
    | inl same ↦ let e' : b ≡ b' = ground (arith, same, e) in subst P e' h
    | inr other ↦ k q b' (rw other at e)
  ]

  book_at-P : (p : ℕ) (books : Books) → AllBooks P books → P (book_at p books)
  book_at-P p books h = by_case (books p) (h p)
    where
      by_case :
          (o : Option OrderBook)
          → ((b : OrderBook) → o ≡ some b → P b)
          → P (elim o [ none ↦ new | some b ↦ b ])
      by_case none f = at_new
      by_case (some b) f = f b refl

  -- A cancellation on one book, if it is there.
  update-AllBooks :
      (f : OrderBook → OrderBook) (p : ℕ) (books : Books)
      → ((b : OrderBook) → P b → P (f b))
      → AllBooks P books
      → AllBooks P (elim (books p) [ none ↦ books | some b ↦ put p (f b) books ])
  update-AllBooks f p books g h = by_case (books p) (h p)
    where
      by_case :
          (o : Option OrderBook)
          → ((b : OrderBook) → o ≡ some b → P b)
          → AllBooks P (elim o [ none ↦ books | some b ↦ put p (f b) books ])
      by_case none k = h
      by_case (some b) k = put-AllBooks p (f b) books (g b (k b refl)) h

  pub run_matcher_inv :
      (cmds : List (MatchCommand × Bool)) (books : Books) (sent : List MatchResult)
      → All Fits cmds
      → AllBooks P books
      → All Q sent
      → AllBooks P (run_matcher cmds books sent).0 × All Q (run_matcher cmds books sent).1
  unfolding run_matcher cancel_at cancel_all_at
  run_matcher_inv [] books sent fit h q = (h, q)
  run_matcher_inv ((shutdown, o) ∷ cmds) books sent fit h q = (h, q)
  run_matcher_inv ((place_order c, true) ∷ cmds) books sent fit h q =
      let r = at_place c (book_at c.position_id books) fit.0 (book_at-P c.position_id books h) in
      run_matcher_inv cmds _ _ fit.1 (put-AllBooks c.position_id _ books r.0 h)
        (All-append Q sent (_ ∷ []) q (r.1, tt))
  run_matcher_inv ((place_order c, false) ∷ cmds) books sent fit h q =
      let r = at_place c (book_at c.position_id books) fit.0 (book_at-P c.position_id books h) in
      (put-AllBooks c.position_id _ books r.0 h, q)
  run_matcher_inv ((cancel_order p id, o) ∷ cmds) books sent fit h q =
      run_matcher_inv cmds _ sent fit.1 (update-AllBooks _ p books (at_cancel id) h) q
  run_matcher_inv ((cancel_all m p a, o) ∷ cmds) books sent fit h q =
      run_matcher_inv cmds _ sent fit.1 (update-AllBooks _ p books (at_cancel_all a) h) q
