-- ===== src/Gateway/Book/Cancel/Shrink.antt =====
-- Cancellations bring no new price into a book, so they keep it uncrossed.
use omniscient.Prelude.{
  ℕ, ◌<◌, Bool, true, false, not, Option, none, some, All, All-map, All-filter, is_empty,
}
use omniscient.Shared.Domain.{Address, OrderId}
use omniscient.Gateway.Book.{Levels, OrderBook}
use omniscient.Gateway.Book.Uncrossed.{IsUncrossed}
use omniscient.Gateway.Book.Cancel.{cancel_in, cancel, cancel_all, retain_full, prune}
use omniscient.Gateway.Book.Cancel.Validity.{Keeps, OnSome, cancel_in-All, cancel_levels-All}

abbrev pub Subset : Levels → Levels → Type 1
Subset m m' = (R : ℕ → Type 0) → All (λ e. R e.0) m → All (λ e. R e.0) m'

-- What holds of all prices of a side still holds.
pub record Shrinks (b b' : OrderBook) : Type 1 where
  pub buys : Subset b.buys b'.buys
  pub sells : Subset b.sells b'.sells

pub Shrinks-IsUncrossed : {b b' : OrderBook} → Shrinks b b' → IsUncrossed b → IsUncrossed b'
Shrinks-IsUncrossed {b} {b'} s u =
    s.buys (λ q. All (λ y. q < y.0) b'.sells)
      (All-map (λ x. All (λ y. x.0 < y.0) b.sells) _ (λ x h. s.sells (λ q. x.0 < q) h) b.buys u)

by_price : (R : ℕ → Type 0) → Keeps (λ e. R e.0)
by_price R p i l h = h

pub prune-Shrinks : {b : OrderBook} (b' : OrderBook) → Shrinks b b' → Shrinks b (prune b')
unfolding prune retain_full
prune-Shrinks b' s = record {
  buys = λ R h. All-filter (λ e. R e.0) (λ e. not (is_empty e.1)) b'.buys (s.buys R h);
  sells = λ R h. All-filter (λ e. R e.0) (λ e. not (is_empty e.1)) b'.sells (s.sells R h);
}

abbrev OnSubset : Levels → Option Levels → Type 1
OnSubset m none = Unit
OnSubset m (some m') = Subset m m'

cancel_in-Subset : (id : OrderId) (m : Levels) → OnSubset m (cancel_in id m)
cancel_in-Subset id m =
    join (cancel_in id m) (λ R h. cancel_in-All (λ e. R e.0) (by_price R) id m h)
  where
    join :
        (o : Option Levels)
        → ((R : ℕ → Type 0) → All (λ e. R e.0) m → OnSome (All (λ e. R e.0)) o)
        → OnSubset m o
    join none f = tt
    join (some m') f = f

pub cancel-Shrinks : (id : OrderId) (b : OrderBook) → Shrinks b (cancel id b).0
unfolding cancel
cancel-Shrinks id b =
    step (cancel_in id b.buys) (cancel_in id b.sells) (cancel_in-Subset id b.buys)
      (cancel_in-Subset id b.sells)
  where
    step :
        (r r' : Option Levels)
        → OnSubset b.buys r
        → OnSubset b.sells r'
        → let c : OrderBook × Bool = elim r [
          | some m ↦ (record b { buys = m }, true)
          | none ↦ elim r' [ some m ↦ (record b { sells = m }, true) | none ↦ (b, false) ]
        ] in
          Shrinks b c.0
    step (some m) r' k k' = record { buys = k; sells = λ R h. h }
    step none (some m) k k' = record { buys = λ R h. h; sells = k' }
    step none none k k' = record { buys = λ R h. h; sells = λ R h. h }

pub cancel_all-Shrinks : (maker : Address) (b : OrderBook) → Shrinks b (cancel_all maker b).0
unfolding cancel_all
cancel_all-Shrinks maker b = record {
  buys = λ R h. cancel_levels-All (λ e. R e.0) (by_price R) maker b.buys _ h;
  sells = λ R h. cancel_levels-All (λ e. R e.0) (by_price R) maker b.sells _ h;
}
