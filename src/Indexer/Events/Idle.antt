-- ===== src/Indexer/Events/Idle.antt =====
-- Events that are not handled change nothing.
use omniscient.Prelude.{
  ◌≡◌, refl, arith, Bool, true, false, Option, none, some, if◌then◌else◌, get_elem?,
}
use omniscient.Prelude.Result.{ok}
use omniscient.Shared.Domain.{bytes_eq}
use omniscient.Store.{Bytes, Db, Sql, give, execute}
use omniscient.Indexer.{
  Log, HandlerCtx, Alloy, deposited, withdrawn, forced_withdrawal_executed, operator_heartbeat,
  operator_inactivity_threshold_updated, fee_rates_updated, nonce_invalidated, market_created,
  outcome_proposed, outcome_disputed, outcome_resolved, dispute_resolved,
}
use omniscient.Indexer.Custody.{
  handle_deposited, handle_withdrawn, handle_forced_withdrawal_executed, handle_operator_heartbeat,
  handle_operator_inactivity_threshold_updated, handle_fee_rates_updated,
}
use omniscient.Indexer.Oracle.{
  handle_market_created, handle_outcome_proposed, handle_outcome_disputed, handle_outcome_resolved,
  handle_dispute_resolved,
}
use omniscient.Indexer.Settlement.{handle_nonce_invalidated}
use omniscient.Indexer.Events.{route, dispatch}

-- A handler that reports the log as not handled has changed no table.
unfoldable pub IsIdle : Sql Bool → Type 0
IsIdle m = (db : Db) → (m db).0 ≡ ok false → (m db).1 ≡ db

module _ (alloy : Alloy) (log : Log) (ctx : HandlerCtx) where
  handle_deposited-IsIdle : IsIdle (handle_deposited alloy log ctx)
  unfolding IsIdle handle_deposited execute
  handle_deposited-IsIdle db h = ground arith

  handle_withdrawn-IsIdle : IsIdle (handle_withdrawn alloy log ctx)
  unfolding IsIdle handle_withdrawn execute
  handle_withdrawn-IsIdle db h = ground arith

  handle_forced_withdrawal_executed-IsIdle :
      IsIdle (handle_forced_withdrawal_executed alloy log ctx)
  unfolding IsIdle handle_forced_withdrawal_executed execute
  handle_forced_withdrawal_executed-IsIdle db h = ground arith

  handle_operator_heartbeat-IsIdle : IsIdle (handle_operator_heartbeat alloy log ctx)
  unfolding IsIdle handle_operator_heartbeat execute
  handle_operator_heartbeat-IsIdle db h = ground arith

  handle_operator_inactivity_threshold_updated-IsIdle :
      IsIdle (handle_operator_inactivity_threshold_updated alloy log ctx)
  unfolding IsIdle handle_operator_inactivity_threshold_updated execute
  handle_operator_inactivity_threshold_updated-IsIdle db h = ground arith

  handle_fee_rates_updated-IsIdle : IsIdle (handle_fee_rates_updated alloy log ctx)
  unfolding IsIdle handle_fee_rates_updated execute
  handle_fee_rates_updated-IsIdle db h = ground arith

  handle_nonce_invalidated-IsIdle : IsIdle (handle_nonce_invalidated alloy log ctx)
  unfolding IsIdle handle_nonce_invalidated execute
  handle_nonce_invalidated-IsIdle db h = ground arith

  handle_market_created-IsIdle : IsIdle (handle_market_created alloy log ctx)
  unfolding IsIdle handle_market_created execute
  handle_market_created-IsIdle db h = ground arith

  handle_outcome_proposed-IsIdle : IsIdle (handle_outcome_proposed log)
  unfolding IsIdle handle_outcome_proposed execute
  handle_outcome_proposed-IsIdle db h = ground arith

  handle_outcome_disputed-IsIdle : IsIdle (handle_outcome_disputed log)
  unfolding IsIdle handle_outcome_disputed execute
  handle_outcome_disputed-IsIdle db h = ground arith

  handle_outcome_resolved-IsIdle : IsIdle (handle_outcome_resolved log)
  unfolding IsIdle handle_outcome_resolved execute
  handle_outcome_resolved-IsIdle db h = ground arith

  handle_dispute_resolved-IsIdle : IsIdle (handle_dispute_resolved log)
  unfolding IsIdle handle_dispute_resolved execute
  handle_dispute_resolved-IsIdle db h = ground arith

  if-IsIdle : (b : Bool) (m k : Sql Bool) → IsIdle m → IsIdle k → IsIdle (if b then m else k)
  if-IsIdle true m k h h' = h
  if-IsIdle false m k h h' = h'

  route-IsIdle : (topic0 : Bytes) → IsIdle (route alloy log ctx topic0)
  unfolding route IsIdle
  route-IsIdle topic0 =
      (if-IsIdle (bytes_eq topic0 (alloy.topic_hash deposited)) _ _ handle_deposited-IsIdle (
        if-IsIdle (bytes_eq topic0 (alloy.topic_hash withdrawn)) _ _ handle_withdrawn-IsIdle (
          if-IsIdle (bytes_eq topic0 (alloy.topic_hash forced_withdrawal_executed)) _ _
            handle_forced_withdrawal_executed-IsIdle
            (if-IsIdle (bytes_eq topic0 (alloy.topic_hash operator_heartbeat)) _ _
              handle_operator_heartbeat-IsIdle
              (if-IsIdle (bytes_eq topic0 (alloy.topic_hash operator_inactivity_threshold_updated))
                _ _ handle_operator_inactivity_threshold_updated-IsIdle
                (if-IsIdle (bytes_eq topic0 (alloy.topic_hash fee_rates_updated)) _ _
                  handle_fee_rates_updated-IsIdle
                  (if-IsIdle (bytes_eq topic0 (alloy.topic_hash nonce_invalidated)) _ _
                    handle_nonce_invalidated-IsIdle
                    (if-IsIdle (bytes_eq topic0 (alloy.topic_hash market_created)) _ _
                      handle_market_created-IsIdle
                      (if-IsIdle (bytes_eq topic0 (alloy.topic_hash outcome_proposed)) _ _
                        handle_outcome_proposed-IsIdle
                        (if-IsIdle (bytes_eq topic0 (alloy.topic_hash outcome_disputed)) _ _
                          handle_outcome_disputed-IsIdle
                          (if-IsIdle (bytes_eq topic0 (alloy.topic_hash outcome_resolved)) _ _
                            handle_outcome_resolved-IsIdle
                            (if-IsIdle (bytes_eq topic0 (alloy.topic_hash dispute_resolved)) _ _
                              handle_dispute_resolved-IsIdle (λ db h. refl)))))))))))))

  pub dispatch-IsIdle : IsIdle (dispatch alloy log ctx)
  unfolding dispatch IsIdle
  dispatch-IsIdle = by_topic (get_elem? log.topics 0)
    where
      by_topic :
          (o : Option Bytes)
          → IsIdle (elim o [ none ↦ give (ok false) | some topic0 ↦ route alloy log ctx topic0 ])
      by_topic none = λ db h. refl
      by_topic (some topic0) = route-IsIdle topic0
