-- ===== src/Gateway/Socket.antt =====
-- gateway/src/api.rs: the web socket. What a client is sent, and what is broadcast.
use omniscient.Prelude.{Bool, true, false, Option, none, some, List, [], ◌∷◌}
use omniscient.Store.{Bytes}
use omniscient.Shared.Hex.{Text}

-- What the broadcast channel gives: a message, if it can be written as JSON, or an error.
pub data Received : Type 0 where
  message : Option Text → Received
  lagged closed : Received

-- `handle_socket`: what the channel gives, each with whether a send succeeds then; what is sent.
unfoldable pub handle_socket : List (Received × Bool) → List Text
handle_socket [] = []
handle_socket ((message none, sends) ∷ rs) = handle_socket rs
handle_socket ((message (some text), true) ∷ rs) = text ∷ handle_socket rs
handle_socket ((message (some text), false) ∷ rs) = []
handle_socket ((lagged, sends) ∷ rs) = handle_socket rs
handle_socket ((closed, sends) ∷ rs) = []

-- What the stream of the topic gives: a message with its payload, if it has one, or an error.
pub data Consumed : Type 0 where
  delivered : Option Bytes → Consumed
  failed : Consumed

module _ {A : Type 0} (from_utf8 : Bytes → Option Text) (from_str : Text → Option A) where
  -- The value of a payload.
  unfoldable pub value_of : Option Bytes → Option A
  value_of none = none
  value_of (some bytes) = elim (from_utf8 bytes) [ none ↦ none | some text ↦ from_str text ]

  -- `ws_broadcast_loop`: what is broadcast, until the stream ends.
  unfoldable pub ws_broadcast_loop : List Consumed → List A
  ws_broadcast_loop [] = []
  ws_broadcast_loop (failed ∷ cs) = ws_broadcast_loop cs
  ws_broadcast_loop (delivered payload ∷ cs) = elim (value_of payload) [
    | none ↦ ws_broadcast_loop cs
    | some v ↦ v ∷ ws_broadcast_loop cs
  ]
