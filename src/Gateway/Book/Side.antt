-- ===== src/Gateway/Book/Side.antt =====
-- The outer loop of `match_buy` and `match_sell` serves a side of the book as one queue.
use omniscient.Prelude.{
  ℕ, zero, suc, ◌+◌, ◌-◌, ◌<◌, ◌≡◌, refl, inl, inr, ◌⊎◌, Bool, true, false, List, [], ◌∷◌, ◌++◌,
  All, length, is_empty, arith, some, if◌then◌else◌,
}
use omniscient.Prelude.BTreeMap.{get, set, remove}
use omniscient.Gateway.Book.{RestingOrder, Taker, Levels, SideState, sweep, level_at}
use omniscient.Gateway.Book.Priority.{IsSound, open_amount, Outcome, fill_queue}
use omniscient.Gateway.Book.Level.{match_level-eq-fill_queue}

-- A price level: not empty, its orders sound and at its price.
abbrev pub IsLevel : ℕ × List RestingOrder → Type 0
IsLevel (p, l) = (is_empty l ≡ false) × All IsSound l × All (λ o. o.price ≡ p) l

abbrev pub flat : Levels → List RestingOrder
flat [] = []
flat ((p, l) ∷ m) = l ++ flat m

module _ (crosses : ℕ → Bool) (t : Taker) where
  pub fill_queue-zero :
      (l : List RestingOrder)
      → fill_queue crosses t 0 l ≡ record { left = 0; queue = l; fills = [] }
  unfolding fill_queue
  fill_queue-zero [] = refl
  fill_queue-zero (o ∷ l) = refl

  -- The queue that goes on with `rest` once a level is served.
  abbrev pub go_on : Outcome → List RestingOrder → Outcome
  go_on r rest =
      let r' = fill_queue crosses t r.left rest in
      record { left = r'.left; queue = r'.queue; fills = r.fills ++ r'.fills }

  -- A level at a crossing price is used up, or it uses up what is left.
  abbrev pub Split : List RestingOrder → Outcome → Outcome → Type 0
  Split rest r whole =
      ((is_empty r.queue ≡ true) × (whole ≡ go_on r rest))
      ⊎ ((is_empty r.queue ≡ false)
          × (whole ≡ record { left = 0; queue = r.queue ++ rest; fills = r.fills })
          × (r.left ≡ 0))

  pub fill_queue-append :
      (left : ℕ) (l rest : List RestingOrder)
      → All (λ o. crosses o.price ≡ true) l
      → Split rest (fill_queue crosses t left l) (fill_queue crosses t left (l ++ rest))
  unfolding fill_queue
  fill_queue-append left [] rest c = inl (refl, refl)
  fill_queue-append zero (o ∷ l) rest c = inr (refl, refl, refl)
  fill_queue-append (suc n) (o ∷ l) rest c = ground (
    arith,
    fill_queue-append (suc n) l rest c.1,
    fill_queue-append (suc n - open_amount o) l rest c.1,
  )

  pub fill_queue-blocked :
      (left p : ℕ) (l rest : List RestingOrder)
      → crosses p ≡ false
      → is_empty l ≡ false
      → All (λ o. o.price ≡ p) l
      → fill_queue crosses t left (l ++ rest)
        ≡ record { left = left; queue = l ++ rest; fills = [] }
  unfolding fill_queue
  fill_queue-blocked left p [] rest c e h = cc
  fill_queue-blocked zero p (o ∷ l) rest c e h = refl
  fill_queue-blocked (suc n) p (o ∷ l) rest c e h = ground arith

  -- A property of the orders that a partial fill keeps holds of the queue that is left.
  pub All-fill_queue {κ} :
      (P : RestingOrder → Type κ)
      → ((o : RestingOrder) (k : ℕ)
          → P o
          → k < open_amount o
          → P (record o { filled = o.filled + k }))
      → (left : ℕ) (l : List RestingOrder) → All P l
      → All P (fill_queue crosses t left l).queue
  unfolding fill_queue
  All-fill_queue P keep left [] h = tt
  All-fill_queue P keep left (o ∷ l) h = ground (
    arith,
    keep o left h.0,
    All-fill_queue P keep left l h.1,
    All-fill_queue P keep (left - open_amount o) l h.1,
  )

  pub All-crosses :
      (p : ℕ) (l : List RestingOrder)
      → crosses p ≡ true
      → All (λ o. o.price ≡ p) l
      → All (λ o. crosses o.price ≡ true) l
  All-crosses p [] c h = tt
  All-crosses p (o ∷ l) c h = (rw h.0 c, All-crosses p l c h.1)

  pub fill_queue-IsLevel :
      (left p : ℕ) (l : List RestingOrder)
      → IsLevel (p, l)
      → let q = (fill_queue crosses t left l).queue in is_empty q ≡ false → IsLevel (p, q)
  fill_queue-IsLevel left p l (_, sound, priced) full = (
    full,
    All-fill_queue IsSound
        (λ o k v h. record { filled_le = omega (arith, v.filled_le); amount_lt = v.amount_lt }) left
        l sound,
    All-fill_queue (λ o. o.price ≡ p) (λ o k v h. v) left l priced,
  )

  -- One round of the outer loop.
  pub sweep-eq :
      (p : ℕ) (l : List RestingOrder) (s : SideState)
      → crosses p ≡ true
      → get p s.levels ≡ some l
      → IsLevel (p, l)
      → let r = fill_queue crosses t s.left l in
        sweep t p s ≡ record {
          left = r.left;
          levels = if is_empty r.queue then remove p s.levels else set p r.queue s.levels;
          fills = s.fills ++ r.fills;
        }
  unfolding sweep
  sweep-eq p l s c found (_, sound, priced) =
      rw (found, level_at)
        (rw (
          match_level-eq-fill_queue (suc (length l)) crosses t s.left l s.fills (omega arith) sound
            (All-crosses p l c priced)))
