-- ===== src/Gateway/Tests/System.antt =====
-- A run of the gateway.
use omniscient.Prelude.{none, [], arith}
use omniscient.Shared.Signing.{as_bytes}
use omniscient.Shared.Hex.{Text}
use omniscient.Shared.Tests.Codec.{codec}
use omniscient.Shared.Tests.Signing.{crypto}
use omniscient.Gateway.Service.{accept_order, cancel_by_id}
use omniscient.Gateway.System.{
  World, receive_command, receive_result, submit, cancel, match, store, Reach, here, next,
}
use omniscient.Gateway.Infra.{is_account}
use omniscient.Gateway.System.OnHold.{on_hold, held_total}
use omniscient.Gateway.System.Covered.{IsCovered}
use omniscient.Gateway.System.Solvency.{Reach-IsCovered}
use omniscient.Gateway.System.Safety.{IsSafe, Reach-IsSafe}
use omniscient.Gateway.Tests.Sample.{market}
use omniscient.Gateway.Tests.Service.{settings, signed, start}

abbrev pub secret : Text
secret = as_bytes "secret"

abbrev pub idle : World
idle = record { books = λ p. none; service = start; results = [] }

-- An order is submitted and handled, its result stored, and its cancellation submitted.
abbrev submitted : World
submitted = record idle { service = (accept_order crypto settings 100 6 signed market start).1 }

abbrev handled : World
handled = receive_result codec (receive_command submitted)

abbrev cancelled_later : World
cancelled_later = record handled { service = (cancel_by_id 6 9 handled.service).1 }

run : Reach codec crypto settings secret idle cancelled_later
run =
    next
      (next (next (next here (submit idle 100 6 signed market (omega arith))) (match submitted))
        (store (receive_command submitted)))
      (cancel handled 6 9)

Reach-IsSafe_example : IsSafe cancelled_later
Reach-IsSafe_example =
    Reach-IsSafe codec crypto settings secret
      (record { books_healthy = λ p b e. cc; queue_backed = tt }) run

start-IsCovered : IsCovered start.db.tables
unfolding is_account on_hold held_total
start-IsCovered = record { one_row = λ a. ground arith; covered = λ a. omega arith }

Reach-IsCovered_example : IsCovered cancelled_later.service.db.tables
Reach-IsCovered_example = Reach-IsCovered codec crypto settings secret start-IsCovered run
