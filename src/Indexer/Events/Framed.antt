-- ===== src/Indexer/Events/Framed.antt =====
-- Handling an event leaves the checkpoints and the cursors alone.
use omniscient.Prelude.{
  ◌≡◌, refl, arith, Bool, true, false, Option, none, some, if◌then◌else◌, get_elem?,
}
use omniscient.Prelude.Result.{ok}
use omniscient.Shared.Domain.{bytes_eq}
use omniscient.Store.{Bytes, Db, Sql, give, execute}
use omniscient.Indexer.{
  Log, HandlerCtx, Alloy, deposited, withdrawn, forced_withdrawal_executed, operator_heartbeat,
  operator_inactivity_threshold_updated, fee_rates_updated, nonce_invalidated, market_created,
  outcome_proposed, outcome_disputed, outcome_resolved, dispute_resolved,
}
use omniscient.Indexer.Custody.{
  ensure_user_row, credit_usdc, debit_usdc, handle_deposited, handle_withdrawn,
  handle_forced_withdrawal_executed, handle_operator_heartbeat,
  handle_operator_inactivity_threshold_updated, handle_fee_rates_updated,
}
use omniscient.Indexer.Oracle.{
  create_market, set_state, handle_market_created, handle_outcome_proposed, handle_outcome_disputed,
  handle_outcome_resolved, handle_dispute_resolved,
}
use omniscient.Indexer.Settlement.{set_nonce, cancel_outdated, handle_nonce_invalidated}
use omniscient.Indexer.Events.{route, dispatch}

-- The checkpoints and the cursors are as before, also after an error.
unfoldable pub IsFramed : Sql Bool → Type 0
IsFramed m =
    (db : Db)
    → ((m db).1.tables.checkpoints ≡ db.tables.checkpoints)
      × ((m db).1.tables.cursors ≡ db.tables.cursors)

module _ (alloy : Alloy) (log : Log) (ctx : HandlerCtx) where
  handle_deposited-IsFramed : IsFramed (handle_deposited alloy log ctx)
  unfolding IsFramed handle_deposited execute ensure_user_row credit_usdc
  handle_deposited-IsFramed db = ground arith

  handle_withdrawn-IsFramed : IsFramed (handle_withdrawn alloy log ctx)
  unfolding IsFramed handle_withdrawn execute debit_usdc
  handle_withdrawn-IsFramed db = ground arith

  handle_forced_withdrawal_executed-IsFramed :
      IsFramed (handle_forced_withdrawal_executed alloy log ctx)
  unfolding IsFramed handle_forced_withdrawal_executed execute debit_usdc
  handle_forced_withdrawal_executed-IsFramed db = ground arith

  handle_operator_heartbeat-IsFramed : IsFramed (handle_operator_heartbeat alloy log ctx)
  unfolding IsFramed handle_operator_heartbeat execute
  handle_operator_heartbeat-IsFramed db = ground arith

  handle_operator_inactivity_threshold_updated-IsFramed :
      IsFramed (handle_operator_inactivity_threshold_updated alloy log ctx)
  unfolding IsFramed handle_operator_inactivity_threshold_updated execute
  handle_operator_inactivity_threshold_updated-IsFramed db = ground arith

  handle_fee_rates_updated-IsFramed : IsFramed (handle_fee_rates_updated alloy log ctx)
  unfolding IsFramed handle_fee_rates_updated execute
  handle_fee_rates_updated-IsFramed db = ground arith

  handle_nonce_invalidated-IsFramed : IsFramed (handle_nonce_invalidated alloy log ctx)
  unfolding IsFramed handle_nonce_invalidated execute set_nonce cancel_outdated
  handle_nonce_invalidated-IsFramed db = ground arith

  handle_market_created-IsFramed : IsFramed (handle_market_created alloy log ctx)
  unfolding IsFramed handle_market_created execute create_market
  handle_market_created-IsFramed db = ground arith

  handle_outcome_proposed-IsFramed : IsFramed (handle_outcome_proposed log)
  unfolding IsFramed handle_outcome_proposed execute set_state
  handle_outcome_proposed-IsFramed db = ground arith

  handle_outcome_disputed-IsFramed : IsFramed (handle_outcome_disputed log)
  unfolding IsFramed handle_outcome_disputed execute set_state
  handle_outcome_disputed-IsFramed db = ground arith

  handle_outcome_resolved-IsFramed : IsFramed (handle_outcome_resolved log)
  unfolding IsFramed handle_outcome_resolved execute set_state
  handle_outcome_resolved-IsFramed db = ground arith

  handle_dispute_resolved-IsFramed : IsFramed (handle_dispute_resolved log)
  unfolding IsFramed handle_dispute_resolved execute set_state
  handle_dispute_resolved-IsFramed db = ground arith

  if-IsFramed :
      (b : Bool) (m k : Sql Bool) → IsFramed m → IsFramed k → IsFramed (if b then m else k)
  if-IsFramed true m k h h' = h
  if-IsFramed false m k h h' = h'

  route-IsFramed : (topic0 : Bytes) → IsFramed (route alloy log ctx topic0)
  unfolding route IsFramed
  route-IsFramed topic0 =
      (if-IsFramed (bytes_eq topic0 (alloy.topic_hash deposited)) _ _ handle_deposited-IsFramed (
        if-IsFramed (bytes_eq topic0 (alloy.topic_hash withdrawn)) _ _ handle_withdrawn-IsFramed (
          if-IsFramed (bytes_eq topic0 (alloy.topic_hash forced_withdrawal_executed)) _ _
            handle_forced_withdrawal_executed-IsFramed
            (if-IsFramed (bytes_eq topic0 (alloy.topic_hash operator_heartbeat)) _ _
              handle_operator_heartbeat-IsFramed
              (if-IsFramed
                (bytes_eq topic0 (alloy.topic_hash operator_inactivity_threshold_updated)) _ _
                handle_operator_inactivity_threshold_updated-IsFramed
                (if-IsFramed (bytes_eq topic0 (alloy.topic_hash fee_rates_updated)) _ _
                  handle_fee_rates_updated-IsFramed
                  (if-IsFramed (bytes_eq topic0 (alloy.topic_hash nonce_invalidated)) _ _
                    handle_nonce_invalidated-IsFramed
                    (if-IsFramed (bytes_eq topic0 (alloy.topic_hash market_created)) _ _
                      handle_market_created-IsFramed
                      (if-IsFramed (bytes_eq topic0 (alloy.topic_hash outcome_proposed)) _ _
                        handle_outcome_proposed-IsFramed
                        (if-IsFramed (bytes_eq topic0 (alloy.topic_hash outcome_disputed)) _ _
                          handle_outcome_disputed-IsFramed
                          (if-IsFramed (bytes_eq topic0 (alloy.topic_hash outcome_resolved)) _ _
                            handle_outcome_resolved-IsFramed
                            (if-IsFramed (bytes_eq topic0 (alloy.topic_hash dispute_resolved)) _ _
                              handle_dispute_resolved-IsFramed (λ db. (refl, refl))))))))))))))

  pub dispatch-IsFramed : IsFramed (dispatch alloy log ctx)
  unfolding dispatch IsFramed
  dispatch-IsFramed = by_topic (get_elem? log.topics 0)
    where
      by_topic :
          (o : Option Bytes)
          → IsFramed (elim o [ none ↦ give (ok false) | some topic0 ↦ route alloy log ctx topic0 ])
      by_topic none = λ db. (refl, refl)
      by_topic (some topic0) = route-IsFramed topic0
