-- ===== src/Logger/Loss.antt =====
-- internal/proxy/logger.go: Log calls after the worker has returned.
use mathlib.Core.List.{append_assoc, append-nil}
use glitchgate.Prelude.{List, ◌++◌, none, ◌≡◌, refl, sym, ◌∙◌, arith}
use glitchgate.Logger.{
  finished, AsyncLogger, Event, Step, log_sends, log_counts, log_finds_closed, log_times_out,
  closes, worker_receives, worker_persists, worker_sees_stop, worker_returns, Run, start, step,
}
use glitchgate.Logger.Delivery.{all_sent, sent_by, all_sent-snoc}

module _ {Entry : Type 0} where
  -- The worker has returned with nothing in hand.
  abbrev pub IsFinished : AsyncLogger Entry → Type 0
  IsFinished l = (l.phase ≡ finished) × (l.in_hand ≡ none)

  -- What was reached from `l` by steps that sent the entries.
  abbrev pub Stuck : AsyncLogger Entry → List Entry → AsyncLogger Entry → Type 0
  Stuck l es m =
      (m.queue ≡ l.queue ++ es)
      × (m.persisted ≡ l.persisted)
      × (m.failed ≡ l.failed)
      × (m.timed_out ≡ l.timed_out)

  Step-Stuck :
      {l m : AsyncLogger Entry} {e : Event Entry}
      → Step l e m
      → IsFinished l
      → IsFinished m × Stuck l (sent_by e) m
  Step-Stuck (log_sends l e r) f = (f, (refl, refl, refl, refl))
  Step-Stuck (log_counts l n h) f = (f, (sym (append-nil l.queue), refl, refl, refl))
  Step-Stuck (log_finds_closed l h) f = (f, (sym (append-nil l.queue), refl, refl, refl))
  Step-Stuck (log_times_out l) f = (f, (sym (append-nil l.queue), refl, refl, refl))
  Step-Stuck (closes l) f = (f, (sym (append-nil l.queue), refl, refl, refl))
  Step-Stuck (worker_receives l e rest p h q) f = absurd (p f.0)
  Step-Stuck (worker_persists l e o h) f = ground (arith, h, f)
  Step-Stuck (worker_sees_stop l p h c) f = ground (arith, p, f)
  Step-Stuck (worker_returns l p h q) f = ground (arith, p, f)

  run-Stuck :
      {l m : AsyncLogger Entry} {es : List (Event Entry)}
      → Run l es m
      → IsFinished l
      → IsFinished m × Stuck l (all_sent es) m
  unfolding all_sent
  run-Stuck {l} start f = (f, (sym (append-nil l.queue), refl, refl, refl))
  run-Stuck {l} (step {es = es} {e = e} r s) f =
      let (g, (q, a, b, c)) = run-Stuck r f in
      let (h, (q', a', b', c')) = Step-Stuck s g in
      (
        h,
        (
          rw (all_sent-snoc es e, q', q) (append_assoc l.queue (all_sent es) (sent_by e)),
          a' ∙ a,
          b' ∙ b,
          c' ∙ c,
        ),
      )

  -- Once the worker has returned with nothing in hand, every entry that a Log call still sends stays
  -- in the queue, after whatever was there: none is persisted, and none is counted as failed or
  -- timed out.
  pub finished_keeps :
      (l m : AsyncLogger Entry) (es : List (Event Entry))
      → IsFinished l
      → Run l es m
      → Stuck l (all_sent es) m
  finished_keeps l m es f r = (run-Stuck r f).1
