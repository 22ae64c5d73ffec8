-- ===== src/Gateway/Book/Refinement.antt =====
-- `match_side` against its specification `fill_queue`, for either end of the book.
use omniscient.Prelude.{
  ℕ, zero, suc, ◌<◌, ◌≡◌, refl, ap, inl, inr, Bool, true, false, List, [], ◌∷◌, ◌++◌, All, length,
  append-nil, append_assoc, arith, ltb, ltb→lt, ◌==◌, Bool-cases, Option, none, some,
}
use omniscient.Prelude.BTreeMap.{get, set, remove, IsSorted}
use omniscient.Prelude.BTreeMap.Ends.{Front}
use omniscient.Prelude.BTreeMap.Laws.{All-remove, All-set, remove-IsSorted, set-IsSorted}
use omniscient.Gateway.Book.{
  RestingOrder, Taker, Fill, Levels, SideState, match_levels, next_price, sweep,
}
use omniscient.Gateway.Book.Priority.{Outcome, fill_queue}
use omniscient.Gateway.Book.Side.{
  IsLevel, flat, fill_queue-zero, fill_queue-append, fill_queue-blocked, fill_queue-IsLevel,
  sweep-eq, go_on, All-crosses,
}

-- What the loops leave behind, against the outcome `r` of the specification.
pub record Serves (ranked : Levels → Levels) (fs : List Fill) (r : Outcome) (s : SideState)
    : Type 0 where
  pub left_eq : s.left ≡ r.left
  pub queue_eq : flat (ranked s.levels) ≡ r.queue
  pub fills_eq : s.fills ≡ fs ++ r.fills
  pub sorted : IsSorted s.levels
  pub levels : All IsLevel s.levels

-- A level that is found satisfies what all levels do.
All-get :
    (p : ℕ) (l : List RestingOrder) (m : Levels) → All IsLevel m → get p m ≡ some l → IsLevel (p, l)
unfolding get
All-get p l [] h e = cc
All-get p l ((k, l') ∷ m) h e = elim (Bool-cases (p == k)) [
  | inl same ↦ ground (arith, same)
  | inr other ↦ All-get p l m h.1 (rw other at e)
]

module _ (best : Levels → Option ℕ) (crosses : ℕ → Bool) (t : Taker) (s : SideState) where
  match_levels-stop :
      (fuel : ℕ) → next_price best crosses s ≡ none → match_levels fuel best crosses t s ≡ s
  unfolding match_levels
  match_levels-stop zero h = refl
  match_levels-stop (suc fuel) h = rw (h, match_levels)

  match_levels-go :
      (fuel p : ℕ)
      → next_price best crosses s ≡ some p
      → match_levels (suc fuel) best crosses t s ≡ match_levels fuel best crosses t (sweep t p s)
  unfolding match_levels
  match_levels-go fuel p h = rw (h, match_levels)

  next_price-done : s.left ≡ 0 → next_price best crosses s ≡ none
  unfolding next_price
  next_price-done h = rw h

  next_price-empty : best s.levels ≡ none → next_price best crosses s ≡ none
  unfolding next_price
  next_price-empty h = ground arith

  next_price-blocked :
      (p : ℕ) → best s.levels ≡ some p → crosses p ≡ false → next_price best crosses s ≡ none
  unfolding next_price
  next_price-blocked p h c = ground arith

  next_price-some :
      (p : ℕ)
      → 0 < s.left
      → best s.levels ≡ some p
      → crosses p ≡ true
      → next_price best crosses s ≡ some p
  unfolding next_price
  next_price-some p k h c = ground arith

module _ (crosses : ℕ → Bool) (t : Taker) (ranked : Levels → Levels) where
  abbrev spec : SideState → Outcome
  spec s = fill_queue crosses t s.left (flat (ranked s.levels))

  -- A state in which the specification does nothing serves itself.
  stopped :
      (s : SideState)
      → IsSorted s.levels
      → All IsLevel s.levels
      → spec s ≡ record { left = s.left; queue = flat (ranked s.levels); fills = [] }
      → Serves ranked s.fills (spec s) s
  stopped s v w e = record {
    left_eq = rw e;
    queue_eq = rw e;
    fills_eq = rw (e, append-nil);
    sorted = v;
    levels = w;
  }

  module _ (p : ℕ) (l : List RestingOrder) (rest : Levels) (s s' : SideState)
      (ends : ranked s.levels ≡ (p, l) ∷ rest) where
    -- The level was used up and removed, and the loop went on from there.
    go_on-Serves :
        ranked (remove p s.levels) ≡ rest
        → let r = fill_queue crosses t s.left l in
          spec s ≡ go_on crosses t r (flat rest)
          → (let s1 : SideState = record {
            left = r.left;
            levels = remove p s.levels;
            fills = s.fills ++ r.fills;
          } in
              Serves ranked s1.fills (spec s1) s')
          → Serves ranked s.fills (spec s) s'
    go_on-Serves removed whole h =
        let h' = rw removed at h in
        record {
          left_eq = rw whole h'.left_eq;
          queue_eq = rw whole h'.queue_eq;
          fills_eq = rw whole (rw (← append_assoc) h'.fills_eq);
          sorted = h.sorted;
          levels = h.levels;
        }

    -- The level was not used up: nothing is left, and the loop is over.
    full-Serves :
        ((w : List RestingOrder) → ranked (set p w s.levels) ≡ (p, w) ∷ rest)
        → let r = fill_queue crosses t s.left l in
          IsSorted s.levels
          → All IsLevel s.levels
          → IsLevel (p, r.queue)
          → spec s ≡ record { left = 0; queue = r.queue ++ flat rest; fills = r.fills }
          → s' ≡ record { left = 0; levels = set p r.queue s.levels; fills = s.fills ++ r.fills }
          → Serves ranked s.fills (spec s) s'
    full-Serves written v w level whole e =
        rw (whole, e)
          (record {
            left_eq = refl;
            queue_eq = rw written;
            fills_eq = refl;
            sorted = set-IsSorted p _ s.levels v;
            levels = All-set IsLevel p _ s.levels level w;
          })

  module _ (best : Levels → Option ℕ)
      (front : (m : Levels) → IsSorted m → Front ranked m (best m)) where
    -- One round with the rest of the loop, by what stands at the end of the book.
    round-Serves :
        (fuel : ℕ) (s : SideState) (o : Option ℕ)
        → ((s1 : SideState)
            → length (ranked s1.levels) < fuel
            → IsSorted s1.levels
            → All IsLevel s1.levels
            → Serves ranked s1.fills (spec s1) (match_levels fuel best crosses t s1))
        → 0 < s.left
        → length (ranked s.levels) < suc fuel
        → IsSorted s.levels
        → All IsLevel s.levels
        → best s.levels ≡ o
        → Front ranked s.levels o
        → Serves ranked s.fills (spec s) (match_levels (suc fuel) best crosses t s)
    unfolding fill_queue
    round-Serves fuel s none ih pos h v w at_end none_there =
        rw
          (match_levels-stop best crosses t s (suc fuel) (next_price-empty best crosses t s at_end))
          (stopped s v w (rw none_there))
    round-Serves fuel s (some p) ih pos h v w at_end (l, rest, found, ends, removed, written) =
        let level = All-get p l s.levels w found in
        elim (Bool-cases (crosses p)) [
          | inr blocked ↦
              rw
                (match_levels-stop best crosses t s (suc fuel)
                  (next_price-blocked best crosses t s p at_end blocked))
                (stopped s v w (
                  rw ends
                    (fill_queue-blocked crosses t s.left p l (flat rest) blocked level.0 level.2)))
          | inl crossing ↦
              rw
                (
                  match_levels-go best crosses t s fuel p
                      (next_price-some best crosses t s p pos at_end crossing),
                  sweep-eq crosses t p l s crossing found level,
                )
                (elim (fill_queue-append crosses t s.left l (flat rest)
                  (All-crosses crosses t p l crossing level.2)) [
                    | inl (emptied, whole) ↦ rw emptied (
                        go_on-Serves p l rest s _ ends removed (rw ends whole) (
                          ih _ (omega (arith, ap length ends, ap length removed))
                            (remove-IsSorted p s.levels v) (All-remove IsLevel p s.levels w)))
                    | inr (full, whole, none_left) ↦ rw full (
                        full-Serves p l rest s _ ends written v w
                          (fill_queue-IsLevel crosses t s.left p l level full) (rw ends whole)
                          (rw none_left (
                            match_levels-stop best crosses t _ fuel
                              (next_price-done best crosses t _ refl))))
                  ])
        ]

    pub match_levels-Serves :
        (fuel : ℕ) (s : SideState)
        → length (ranked s.levels) < fuel
        → IsSorted s.levels
        → All IsLevel s.levels
        → Serves ranked s.fills (spec s) (match_levels fuel best crosses t s)
    match_levels-Serves zero s h v w = elim h [ ]
    match_levels-Serves (suc fuel) s h v w = elim (Bool-cases (ltb 0 s.left)) [
      | inl pos ↦
          round-Serves fuel s (best s.levels) (λ s1 h1 v1 w1. match_levels-Serves fuel s1 h1 v1 w1)
            (ltb→lt 0 s.left pos) h v w refl (front s.levels v)
      | inr over ↦
          let e : s.left ≡ 0 = ground arith in
          rw (match_levels-stop best crosses t s (suc fuel) (next_price-done best crosses t s e))
            (stopped s v w (rw e (fill_queue-zero crosses t (flat (ranked s.levels)))))
    ]
