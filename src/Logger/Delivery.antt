-- ===== src/Logger/Delivery.antt =====
-- internal/proxy/logger.go: what reaches the store, in every interleaving.
use mathlib.Core.List.{append_assoc, append-nil}
use glitchgate.Prelude.{
  ℕ, ◌+◌, ◌%◌, ◌^◌, ◌≤◌, ℤ, Option, none, some, List, [], ◌∷◌, ◌++◌, length, length-append, ◌≡◌,
  refl, sym, arith,
}
use glitchgate.Logger.{
  draining, finished, AsyncLogger, inserted, deadline_exceeded, insert_failed, new_async_logger,
  count_sent, note_dropped, persist_entry, close_logger, enter, Event, sent, received, silent, Step,
  log_sends, log_counts, log_finds_closed, log_times_out, closes, worker_receives, worker_persists,
  worker_sees_stop, worker_returns, Run, start, step,
}

module _ {Entry : Type 0} where
  abbrev pub sent_by : Event Entry → List Entry
  sent_by (sent e) = e ∷ []
  sent_by (received e) = []
  sent_by silent = []

  abbrev pub received_by : Event Entry → List Entry
  received_by (sent e) = []
  received_by (received e) = e ∷ []
  received_by silent = []

  -- The entries sent, and those that the worker received, in order.
  unfoldable pub all_sent : List (Event Entry) → List Entry
  all_sent [] = []
  all_sent (e ∷ es) = sent_by e ++ all_sent es

  unfoldable pub all_received : List (Event Entry) → List Entry
  all_received [] = []
  all_received (e ∷ es) = received_by e ++ all_received es

  pub all_sent-snoc :
      (es : List (Event Entry)) (e : Event Entry)
      → all_sent (es ++ e ∷ []) ≡ all_sent es ++ sent_by e
  unfolding all_sent
  all_sent-snoc [] e = append-nil (sent_by e)
  all_sent-snoc (x ∷ es) e =
      rw (all_sent-snoc es e) (sym (append_assoc (sent_by x) (all_sent es) (sent_by e)))

  pub all_received-snoc :
      (es : List (Event Entry)) (e : Event Entry)
      → all_received (es ++ e ∷ []) ≡ all_received es ++ received_by e
  unfolding all_received
  all_received-snoc [] e = append-nil (received_by e)
  all_received-snoc (x ∷ es) e =
      rw (all_received-snoc es e)
        (sym (append_assoc (received_by x) (all_received es) (received_by e)))

  abbrev pub hand_count : Option Entry → ℕ
  hand_count none = 0
  hand_count (some e) = 1

  -- The entries sent that the store has not got are those of the queue, in order; the queue fits
  -- the buffer; and the counters account for every entry sent, modulo their width.
  unfoldable pub Delivered : AsyncLogger Entry → List (Event Entry) → Type 0
  Delivered l es =
      (all_sent es ≡ all_received es ++ l.queue)
      × (length l.queue ≤ l.buffer_size)
      × ((l.enqueued + l.sent_uncounted) % 2 ^ 64
          ≡ (l.persisted + l.failed + l.timed_out + hand_count l.in_hand + length l.queue) % 2 ^ 64)

  silent-Delivered :
      (es : List (Event Entry)) (l m : AsyncLogger Entry)
      → m.queue ≡ l.queue
      → m.buffer_size ≡ l.buffer_size
      → ((m.enqueued + m.sent_uncounted) % 2 ^ 64
          ≡ (m.persisted + m.failed + m.timed_out + hand_count m.in_hand + length m.queue) % 2 ^ 64)
      → Delivered l es
      → Delivered m (es ++ silent ∷ [])
  unfolding Delivered
  silent-Delivered es l m q b c (s, f, d) = (
    rw
        (
          all_sent-snoc es silent,
          all_received-snoc es silent,
          q,
          append-nil (all_sent es),
          append-nil (all_received es),
        )
        s,
    rw (q, b) f,
    c,
  )

  Step-Delivered :
      (es : List (Event Entry)) {l m : AsyncLogger Entry} {e : Event Entry}
      → Step l e m
      → Delivered l es
      → Delivered m (es ++ e ∷ [])
  unfolding Delivered
  Step-Delivered es (log_sends l e r) (s, f, d) = (
    rw (all_sent-snoc es (sent e), all_received-snoc es (sent e), append-nil (all_received es), s)
        (append_assoc (all_received es) l.queue (e ∷ [])),
    rw (length-append l.queue (e ∷ [])) (omega (arith, r)),
    rw (length-append l.queue (e ∷ [])) (omega (arith, d)),
  )
  Step-Delivered es (log_counts l n h) (s, f, d) =
      silent-Delivered es l (count_sent n l) refl refl (omega (arith, h, d)) (s, f, d)
  Step-Delivered es (log_finds_closed l h) (s, f, d) =
      silent-Delivered es l (note_dropped l) refl refl d (s, f, d)
  Step-Delivered es (log_times_out l) (s, f, d) =
      silent-Delivered es l (note_dropped l) refl refl d (s, f, d)
  Step-Delivered es (closes l) (s, f, d) =
      silent-Delivered es l (close_logger l) refl refl d (s, f, d)
  Step-Delivered es (worker_receives l e rest p h q) (s, f, d) = (
    rw
        (
          all_sent-snoc es (received e),
          all_received-snoc es (received e),
          append-nil (all_sent es),
          s,
          q,
        )
        (sym (append_assoc (all_received es) (e ∷ []) rest)),
    omega (arith, rw q at f),
    omega (arith, rw (q, h) at d),
  )
  Step-Delivered es (worker_persists l e inserted h) (s, f, d) =
      silent-Delivered es l (persist_entry inserted l) refl refl (ground (arith, h, d)) (s, f, d)
  Step-Delivered es (worker_persists l e deadline_exceeded h) (s, f, d) =
      silent-Delivered es l (persist_entry deadline_exceeded l) refl refl (ground (arith, h, d))
        (s, f, d)
  Step-Delivered es (worker_persists l e insert_failed h) (s, f, d) =
      silent-Delivered es l (persist_entry insert_failed l) refl refl (ground (arith, h, d))
        (s, f, d)
  Step-Delivered es (worker_sees_stop l p h c) (s, f, d) =
      silent-Delivered es l (enter draining l) refl refl d (s, f, d)
  Step-Delivered es (worker_returns l p h q) (s, f, d) =
      silent-Delivered es l (enter finished l) refl refl d (s, f, d)

  run-Delivered :
      {l m : AsyncLogger Entry} {es : List (Event Entry)}
      → Delivered l []
      → Run l es m
      → Delivered m es
  run-Delivered d start = d
  run-Delivered d (step {es = es} r s) = Step-Delivered es s (run-Delivered d r)

  -- In every interleaving of Log calls, the worker and Close, from a new logger on: the worker receives
  -- the entries in the order in which they were sent, each once, and what it has not received is in
  -- the queue, which fits the buffer; and the counters for enqueued entries and for the three
  -- outcomes account for every entry sent, modulo the width of the counters.
  pub run_new-Delivered :
      (buffer_size : ℤ) (es : List (Event Entry)) (l : AsyncLogger Entry)
      → Run (new_async_logger buffer_size) es l
      → Delivered l es
  unfolding new_async_logger Delivered all_sent all_received
  run_new-Delivered buffer_size es l r =
      run-Delivered {l = new_async_logger buffer_size} (refl, omega arith, refl) r
