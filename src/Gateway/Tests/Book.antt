-- ===== src/Gateway/Tests/Book.antt =====
-- The order book on the sample.
use omniscient.Prelude.{
  ℕ, suc, ◌+◌, ◌≡◌, refl, false, true, none, List, [], ◌∷◌, All, map, length, arith,
}
use omniscient.Prelude.BTreeMap.{first_key, last_key, get, set, remove}
use omniscient.Shared.Domain.{buy, sell, address_eq, bytes_eq}
use omniscient.Gateway.Book.{
  Fill, match_by_side, match_buy, match_sell, match_side, match_levels, next_price, sweep,
  match_level, match_front, level_at, level_continues,
}
use omniscient.Gateway.Book.Matching.{
  Refines, crosses, taker_of, served, opposite, match_by_side-Refines,
}
use omniscient.Gateway.Book.Exhaustion.{opposite_levels, match_by_side_exhausts}
use omniscient.Gateway.Book.Fills.{offered, sold, IsFair}
use omniscient.Gateway.Book.Guarantees.{match_by_side-IsFair, match_by_side-offered}
use omniscient.Gateway.Book.Termination.{match_side_ends}
use omniscient.Gateway.Book.Cancel.{cancel, cancel_all}
use omniscient.Gateway.Book.Cancel.Laws.{
  resting, erase_id, others, cancel-resting, cancel_all-resting,
}
use omniscient.Gateway.Tests.Sample.{addr, sample, sample-IsValid}

abbrev brief : Fill → ℕ × ℕ × ℕ
brief f = (f.maker_order_id, f.price, f.amount)

-- Buyer 2 takes 10 from maker 1, loses the own order at 500_000, and takes 15 of 30 at 510_000.
match_runs :
    map brief (match_by_side buy 8 (addr 2) 510_000 25 sample).1
    ≡ (0, 500_000, 10) ∷ (2, 510_000, 15) ∷ []
unfolding match_by_side match_buy match_sell match_side match_levels next_price sweep match_level
    match_front address_eq bytes_eq first_key last_key get set remove
match_runs = refl

match_by_side-Refines_example :
    Refines buy sample
      (served buy 8 (addr 2) 510_000 25 sample)
      (match_by_side buy 8 (addr 2) 510_000 25 sample)
match_by_side-Refines_example =
    match_by_side-Refines buy 8 (addr 2) 510_000 25 sample sample-IsValid

match_by_side_exhausts_example :
    All
      (λ e. crosses sell 485_000 e.0 ≡ false)
      (opposite_levels sell (match_by_side sell 8 (addr 3) 485_000 60 sample).0)
unfolding match_by_side match_buy match_sell match_side match_levels next_price sweep match_level
    match_front address_eq bytes_eq first_key last_key get set remove
match_by_side_exhausts_example =
    match_by_side_exhausts sell 8 (addr 3) 485_000 60 sample sample-IsValid refl

match_by_side-IsFair_example :
    All
      (IsFair (crosses buy 510_000) (taker_of buy 8 (addr 2)))
      (match_by_side buy 8 (addr 2) 510_000 25 sample).1
match_by_side-IsFair_example = match_by_side-IsFair buy 8 (addr 2) 510_000 25 sample sample-IsValid

match_by_side-offered_example :
    let res = match_by_side buy 8 (addr 2) 510_000 25 sample in
    30 ≡ offered (addr 3) (opposite buy res.0) + sold (addr 3) res.1
unfolding address_eq bytes_eq
match_by_side-offered_example =
    match_by_side-offered buy 8 (addr 2) 510_000 25 sample sample-IsValid (addr 3) refl

cancel-resting_example :
    ((cancel 4 sample).1 ≡ true) × (resting (cancel 4 sample).0 ≡ erase_id 4 (resting sample))
cancel-resting_example = cancel-resting 4 sample

cancel_all-resting_example :
    (resting (cancel_all (addr 1) sample).0 ≡ others (addr 1) (resting sample))
    × ((cancel_all (addr 1) sample).1 ≡ 3 ∷ 0 ∷ [])
unfolding address_eq bytes_eq
cancel_all-resting_example = cancel_all-resting (addr 1) sample

match_side_ends_example :
    let s = match_side first_key (crosses buy 510_000) (taker_of buy 8 (addr 2)) 25 sample.sells in
    let s' = match_side last_key (crosses buy 510_000) (taker_of buy 8 (addr 2)) 25 sample.sells in
    (next_price first_key (crosses buy 510_000) s ≡ none)
    × (next_price last_key (crosses buy 510_000) s' ≡ none)
    × ((p left : ℕ) (fs : List Fill)
        → let l = level_at p sample.sells in
          level_continues (
            match_level
              (suc (length l))
              (taker_of buy 8 (addr 2))
              (record { left = left; level = l; fills = fs }))
          ≡ false)
match_side_ends_example =
    match_side_ends (crosses buy 510_000) (taker_of buy 8 (addr 2)) 25 sample.sells (
      (((omega arith, omega arith), ((omega arith, omega arith), tt))),
      ((((omega arith, omega arith), tt)), tt),
    )
