-- ===== src/Tests/Logging.antt =====
-- Runs of internal/proxy/logger.go.
use glitchgate.Prelude.{ℕ, pos, refl, [], ◌∷◌, arith}
use glitchgate.Logger.{
  AsyncLogger, sent, received, silent, finished, draining, new_async_logger, send, count_sent,
  receive, close_logger, enter, Run, start, step, log_sends, log_counts, worker_receives, closes,
  worker_sees_stop, worker_returns,
}
use glitchgate.Logger.Delivery.{all_sent, Delivered, run_new-Delivered}
use glitchgate.Logger.Loss.{Stuck, finished_keeps}

abbrev fresh : AsyncLogger ℕ
fresh = new_async_logger (pos 2)

-- Entry 7 is sent, and received before it is counted.
abbrev busy : AsyncLogger ℕ
busy = count_sent 0 (receive 7 [] (send 7 fresh))

busy_run : Run fresh (sent 7 ∷ received 7 ∷ silent ∷ []) busy
unfolding new_async_logger all_sent
busy_run =
    step
      (step (step start (log_sends fresh 7 (omega arith)))
        (worker_receives (send 7 fresh) 7 [] (λ e. ground (arith, e)) refl refl))
      (log_counts (receive 7 [] (send 7 fresh)) 0 refl)

run_new-Delivered_example : Delivered busy (sent 7 ∷ received 7 ∷ silent ∷ [])
run_new-Delivered_example =
    run_new-Delivered (pos 2) (sent 7 ∷ received 7 ∷ silent ∷ []) busy busy_run

abbrev returned : AsyncLogger ℕ
returned = enter finished (enter draining (close_logger fresh))

returned_run : Run fresh (silent ∷ silent ∷ silent ∷ []) returned
unfolding new_async_logger all_sent
returned_run =
    step (step (step start (closes fresh)) (worker_sees_stop (close_logger fresh) refl refl refl))
      (worker_returns (enter draining (close_logger fresh)) refl refl refl)

-- The worker has returned, and a Log call sends entry 9.
finished_keeps_example : Stuck returned (9 ∷ []) (send 9 returned)
unfolding new_async_logger all_sent
finished_keeps_example =
    finished_keeps returned (send 9 returned) (sent 9 ∷ []) (refl, refl)
      (step start (log_sends returned 9 (omega arith)))
