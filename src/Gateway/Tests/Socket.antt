-- ===== src/Gateway/Tests/Socket.antt =====
-- Runs of the web socket.
use omniscient.Prelude.{◌≡◌, refl, true, false, none, some, [], ◌∷◌}
use omniscient.Gateway.Socket.{
  message, lagged, closed, handle_socket, delivered, failed, value_of, ws_broadcast_loop,
}

-- A client that lags misses a message; after a send that fails nothing is sent.
sent_until_failure :
    handle_socket (
      (message (some (1 ∷ [])), true)
      ∷ (lagged, true)
      ∷ (message none, true)
      ∷ (message (some (2 ∷ [])), true)
      ∷ (message (some (3 ∷ [])), false)
      ∷ (message (some (4 ∷ [])), true)
      ∷ (closed, true)
      ∷ [])
    ≡ (1 ∷ []) ∷ (2 ∷ []) ∷ []
unfolding handle_socket
sent_until_failure = refl

-- Errors of the stream and payloads that are not read are passed over.
broadcast_in_order :
    ws_broadcast_loop
      (λ bs. some bs)
      (λ t. elim t [ [] ↦ none | c ∷ cs ↦ some c ])
      (delivered (some (7 ∷ []))
        ∷ failed
        ∷ delivered none
        ∷ delivered (some [])
        ∷ delivered (some (9 ∷ []))
        ∷ [])
    ≡ 7 ∷ 9 ∷ []
unfolding ws_broadcast_loop value_of
broadcast_in_order = refl
