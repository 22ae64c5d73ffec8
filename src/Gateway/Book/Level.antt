-- ===== src/Gateway/Book/Level.antt =====
-- The inner loop of `match_buy` and `match_sell` serves one price level as a queue.
use omniscient.Prelude.{
  ℕ, zero, suc, ◌+◌, ◌-◌, ◌<◌, ◌≤◌, ◌≡◌, refl, inl, inr, Bool, true, false, List, [], ◌∷◌, ◌++◌,
  All, length, append-nil, append_assoc, arith, ltb, Bool-cases, ltb→lt,
}
use omniscient.Shared.Domain.{address_eq}
use omniscient.Gateway.Book.{
  RestingOrder, Taker, LevelState, match_level, match_front, make_fill, remaining, Fill,
}
use omniscient.Gateway.Book.Priority.{IsSound, open_amount, Outcome, fill_queue}

-- The state of the loop once a queue has been served.
abbrev pub after_queue : List Fill → Outcome → LevelState
after_queue fills r = record { left = r.left; level = r.queue; fills = fills ++ r.fills }

module _ (t : Taker) (fs : List Fill) (o : RestingOrder) (l : List RestingOrder) where
  -- The order at the front is the taker's own: it leaves the book.
  match_front-own :
      (left : ℕ)
      → address_eq o.maker t.address ≡ true
      → match_front t (record { left = left; level = o ∷ l; fills = fs }) (o ∷ l)
        ≡ record { left = left; level = l; fills = fs }
  unfolding match_front
  match_front-own left h = rw h

  -- It offers more than is left: it stays, with that much more filled.
  match_front-partial :
      (left : ℕ)
      → IsSound o
      → address_eq o.maker t.address ≡ false
      → left < open_amount o
      → match_front t (record { left = left; level = o ∷ l; fills = fs }) (o ∷ l) ≡ record {
        left = 0;
        level = record o { filled = o.filled + left } ∷ l;
        fills = fs ++ make_fill t o left ∷ [];
      }
  unfolding match_front remaining
  match_front-partial left v h k = ground (arith, v.filled_le, v.amount_lt)

  -- It offers no more than is left: it is filled and leaves the book.
  match_front-served :
      (left : ℕ)
      → IsSound o
      → address_eq o.maker t.address ≡ false
      → open_amount o ≤ left
      → match_front t (record { left = left; level = o ∷ l; fills = fs }) (o ∷ l) ≡ record {
        left = left - open_amount o;
        level = l;
        fills = fs ++ make_fill t o (open_amount o) ∷ [];
      }
  unfolding match_front remaining
  match_front-served left v h k = ground (arith, v.filled_le, v.amount_lt)

-- With nothing left to fill the loop is over.
match_level-zero :
    (fuel : ℕ) (t : Taker) (l : List RestingOrder) (fs : List Fill)
    → match_level fuel t (record { left = 0; level = l; fills = fs })
      ≡ record { left = 0; level = l; fills = fs }
unfolding match_level
match_level-zero zero t l fs = refl
match_level-zero (suc fuel) t l fs = refl

pub match_level-eq-fill_queue :
    (fuel : ℕ) (crosses : ℕ → Bool) (t : Taker) (left : ℕ) (l : List RestingOrder) (fs : List Fill)
    → length l < fuel
    → All IsSound l
    → All (λ o. crosses o.price ≡ true) l
    → match_level fuel t (record { left = left; level = l; fills = fs })
      ≡ after_queue fs (fill_queue crosses t left l)
unfolding match_level fill_queue
match_level-eq-fill_queue zero crosses t left l fs h v c = elim h [ ]
match_level-eq-fill_queue (suc fuel) crosses t left [] fs h v c = ground (arith, append-nil fs)
match_level-eq-fill_queue (suc fuel) crosses t zero (o ∷ l) fs h v c = rw append-nil
match_level-eq-fill_queue (suc fuel) crosses t (suc n) (o ∷ l) fs h v c =
    elim (Bool-cases (address_eq o.maker t.address)) [
      | inl own ↦ ground (
        arith,
        match_front-own t fs o l (suc n) own,
        match_level-eq-fill_queue fuel crosses t (suc n) l fs (omega arith) v.1 c.1,
      )
      | inr other ↦ elim (Bool-cases (ltb (suc n) (open_amount o))) [
        | inl less ↦ ground (
          arith,
          match_front-partial t fs o l (suc n) v.0 other (ltb→lt _ _ less),
          match_level-zero fuel t (record o { filled = o.filled + suc n } ∷ l)
              (fs ++ make_fill t o (suc n) ∷ []),
        )
        | inr enough ↦ ground (
          arith,
          match_front-served t fs o l (suc n) v.0 other (ground arith),
          match_level-eq-fill_queue fuel crosses t (suc n - open_amount o) l
              (fs ++ make_fill t o (open_amount o) ∷ []) (omega arith) v.1 c.1,
          append_assoc fs (make_fill t o (open_amount o) ∷ [])
              (fill_queue crosses t (suc n - open_amount o) l).fills,
        )
      ]
    ]
