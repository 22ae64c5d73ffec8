-- ===== src/Gateway/Service/Cancellation.antt =====
-- What cancelling an order does, on every branch.
use omniscient.Prelude.{
  ℕ, not, filter, ◌≡◌, refl, Bool, false, ◌&&◌, List, [], ◌∷◌, ◌++◌, map, length, arith, ltb, ◌==◌,
  if◌then◌else◌,
}
use omniscient.Prelude.Result.{ok, err}
use omniscient.Shared.Domain.{OrderId}
use omniscient.Store.{OrderRow, Db, cancelled, sqlx, execute}
use omniscient.Store.Table.{update_where}
use omniscient.Gateway.Engine.{cancel_order}
use omniscient.Gateway.Infra.{is_open, cancel_order_db}
use omniscient.Gateway.Service.{queue_full, cancel_order_error, State, try_send, cancel_by_id}

abbrev pub cancelled_row : OrderId → OrderRow → OrderRow
cancelled_row id o =
    if o.order_id == id && is_open o.status then record o { status = cancelled } else o

update_where-map :
    {A : Type 0} (p : A → Bool) (f : A → A) (xs : List A)
    → update_where p f xs ≡ map (λ x. if p x then f x else x) xs
unfolding update_where
update_where-map p f [] = refl
update_where-map p f (x ∷ xs) = ground (arith, update_where-map p f xs)

-- Whether the queue takes another command.
abbrev pub has_room : State → Bool
has_room s = s.is_receiving && ltb (length s.queue) 10_000

-- Whether the server refuses the next statement.
abbrev pub is_refused : Db → Bool
is_refused db = elim db.refusals [ [] ↦ false | refused ∷ rs ↦ refused ]

-- The orders that are still open under this id.
abbrev pub open_orders : OrderId → List OrderRow → List OrderRow
open_orders id os = filter (λ o. o.order_id == id && is_open o.status) os

open_orders-cancelled :
    (id : OrderId) (os : List OrderRow) → open_orders id (map (cancelled_row id) os) ≡ []
open_orders-cancelled id [] = refl
open_orders-cancelled id (o ∷ os) = ground (arith, open_orders-cancelled id os)

-- Without room in the matcher's queue the error says so, and nothing changes. With room the cancellation
-- is queued; if the server refuses the next statement, the error says so and the tables stay as they
-- were; if not, the cancellation succeeds, each open order of this id becomes cancelled, so that none
-- is open any more, and no other row changes. Balances and holds are as before in every case.
pub cancel_by_id_lem :
    (id : OrderId) (position : ℕ) (s : State)
    → let r = cancel_by_id id position s in
      let t = s.db.tables in
      let t' = r.1.db.tables in
      (r.0 ≡ (
        if not (has_room s)
        then err queue_full
        else if is_refused s.db
        then err (cancel_order_error sqlx)
        else ok tt))
      × (r.1.queue ≡ (if has_room s then s.queue ++ cancel_order position id ∷ [] else s.queue))
      × (t' ≡ (
          if has_room s && not (is_refused s.db)
          then record t { orders = map (cancelled_row id) t.orders }
          else t))
      × (r.0 ≡ ok tt → open_orders id t'.orders ≡ [])
      × (t'.balances ≡ t.balances)
      × (t'.holds ≡ t.holds)
unfolding cancel_by_id try_send cancel_order_db execute
cancel_by_id_lem id position s =
    let e =
      update_where-map (λ o. o.order_id == id && is_open o.status)
        (λ o. record o { status = cancelled }) s.db.tables.orders in
    let n = open_orders-cancelled id s.db.tables.orders in
    (ground arith, ground arith, ground arith, ground arith, ground arith, ground arith)
