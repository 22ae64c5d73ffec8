-- ===== src/Indexer/Events.antt =====
-- backend/indexer/src/events.rs
pub mod Idle
pub mod Framed
use omniscient.Prelude.{Bool, true, false, Option, none, some, if◌then◌else◌, get_elem?}
use omniscient.Prelude.Result.{ok}
use omniscient.Shared.Domain.{bytes_eq}
use omniscient.Store.{Bytes, Sql, give}
use omniscient.Indexer.{
  Log, HandlerCtx, Alloy, deposited, withdrawn, forced_withdrawal_executed, operator_heartbeat,
  operator_inactivity_threshold_updated, fee_rates_updated, nonce_invalidated, outcome_resolved,
  market_created, outcome_proposed, outcome_disputed, dispute_resolved,
}
use omniscient.Indexer.Custody.{
  handle_deposited, handle_withdrawn, handle_forced_withdrawal_executed, handle_operator_heartbeat,
  handle_operator_inactivity_threshold_updated, handle_fee_rates_updated,
}
use omniscient.Indexer.Oracle.{
  handle_market_created, handle_outcome_proposed, handle_outcome_disputed, handle_outcome_resolved,
  handle_dispute_resolved,
}
use omniscient.Indexer.Settlement.{handle_nonce_invalidated}

-- The handler for the first topic.
unfoldable pub route : Alloy → Log → HandlerCtx → Bytes → Sql Bool
route alloy log ctx topic0 =
    if bytes_eq topic0 (alloy.topic_hash deposited)
    then handle_deposited alloy log ctx
    else if bytes_eq topic0 (alloy.topic_hash withdrawn)
    then handle_withdrawn alloy log ctx
    else if bytes_eq topic0 (alloy.topic_hash forced_withdrawal_executed)
    then handle_forced_withdrawal_executed alloy log ctx
    else if bytes_eq topic0 (alloy.topic_hash operator_heartbeat)
    then handle_operator_heartbeat alloy log ctx
    else if bytes_eq topic0 (alloy.topic_hash operator_inactivity_threshold_updated)
    then handle_operator_inactivity_threshold_updated alloy log ctx
    else if bytes_eq topic0 (alloy.topic_hash fee_rates_updated)
    then handle_fee_rates_updated alloy log ctx
    else if bytes_eq topic0 (alloy.topic_hash nonce_invalidated)
    then handle_nonce_invalidated alloy log ctx
    else if bytes_eq topic0 (alloy.topic_hash market_created)
    then handle_market_created alloy log ctx
    else if bytes_eq topic0 (alloy.topic_hash outcome_proposed)
    then handle_outcome_proposed log
    else if bytes_eq topic0 (alloy.topic_hash outcome_disputed)
    then handle_outcome_disputed log
    else if bytes_eq topic0 (alloy.topic_hash outcome_resolved)
    then handle_outcome_resolved log
    else if bytes_eq topic0 (alloy.topic_hash dispute_resolved)
    then handle_dispute_resolved log
    else give (ok false)

unfoldable pub dispatch : Alloy → Log → HandlerCtx → Sql Bool
dispatch alloy log ctx = elim (get_elem? log.topics 0) [
  | none ↦ give (ok false)
  | some topic0 ↦ route alloy log ctx topic0
]
