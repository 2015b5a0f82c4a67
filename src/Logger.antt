-- ===== src/Logger.antt =====
-- internal/proxy/logger.go: the queue between the requests and the store. Goroutines interleave, so
-- a run is a sequence of steps: a Log call sends its entry or gives up, and counts what it did;
-- the worker takes entries, hands them to the store and counts the outcome; Close tells the worker
-- to drain. Counters are Go's uint64. The texts that are logged about it are left out, and so is the
-- worker's test for a nil entry, since an entry here is never nil: the handlers make each one.
pub mod Delivery
pub mod Loss
use glitchgate.Prelude.{
  ℕ, zero, suc, ◌+◌, ◌%◌, ◌^◌, ◌<◌, ℤ, or_default, Bool, true, false, Option, none, some, List, [],
  ◌∷◌, ◌++◌, length, ◌≡◌, ◌≢◌,
}

-- atomic.Uint64's Add(1)
abbrev pub bump : ℕ → ℕ
bump n = (n + 1) % 2 ^ 64

-- Where the worker's loop is: before stopCh is seen closed, after, or returned.
pub data Phase : Type 0 where
  running draining finished : Phase

-- `sent_uncounted` is the number of Log calls that have sent their entry and not yet counted it, and
-- `in_hand` the entry that the worker is persisting.
pub record AsyncLogger (Entry : Type 0) : Type 0 where
  pub buffer_size : ℕ
  pub queue : List Entry
  pub stop_closed : Bool
  pub phase : Phase
  pub in_hand : Option Entry
  pub sent_uncounted : ℕ
  pub enqueued : ℕ
  pub persisted : ℕ
  pub dropped : ℕ
  pub failed : ℕ
  pub timed_out : ℕ

-- What InsertRequestLog comes to, as persistEntry tells errors apart.
pub data Outcome : Type 0 where
  inserted deadline_exceeded insert_failed : Outcome

module _ {Entry : Type 0} where
  -- The buffer's default is 1000 entries.
  unfoldable pub new_async_logger : ℤ → AsyncLogger Entry
  new_async_logger buffer_size = record {
    buffer_size = or_default buffer_size 1000;
    queue = [];
    stop_closed = false;
    phase = running;
    in_hand = none;
    sent_uncounted = 0;
    enqueued = 0;
    persisted = 0;
    dropped = 0;
    failed = 0;
    timed_out = 0;
  }

  -- case l.ch <- entry
  abbrev pub send : Entry → AsyncLogger Entry → AsyncLogger Entry
  send e l = record l { queue = l.queue ++ e ∷ []; sent_uncounted = l.sent_uncounted + 1 }

  -- l.enqueued.Add(1), by the call that has sent
  abbrev pub count_sent : ℕ → AsyncLogger Entry → AsyncLogger Entry
  count_sent n l = record l { sent_uncounted = n; enqueued = bump l.enqueued }

  abbrev pub note_dropped : AsyncLogger Entry → AsyncLogger Entry
  note_dropped l = record l { dropped = bump l.dropped }

  -- entry := <-l.ch
  abbrev pub receive : Entry → List Entry → AsyncLogger Entry → AsyncLogger Entry
  receive e rest l = record l { queue = rest; in_hand = some e }

  -- The end of persistEntry.
  abbrev pub persist_entry : Outcome → AsyncLogger Entry → AsyncLogger Entry
  persist_entry inserted l = record l { in_hand = none; persisted = bump l.persisted }
  persist_entry deadline_exceeded l = record l { in_hand = none; timed_out = bump l.timed_out }
  persist_entry insert_failed l = record l { in_hand = none; failed = bump l.failed }

  -- close(l.stopCh)
  abbrev pub close_logger : AsyncLogger Entry → AsyncLogger Entry
  close_logger l = record l { stop_closed = true }

  abbrev pub enter : Phase → AsyncLogger Entry → AsyncLogger Entry
  enter p l = record l { phase = p }

-- What a step says of an entry.
pub data Event (Entry : Type 0) : Type 0 where
  sent received : Entry → Event Entry
  silent : Event Entry

-- The steps. A select takes any of its cases that is ready: the timer of Log may fire whether
-- there is room or not, and a Log call may send after stopCh is closed.
pub data Step {Entry : Type 0} : AsyncLogger Entry → Event Entry → AsyncLogger Entry → Type 0 where
  log_sends :
      (l : AsyncLogger Entry) (e : Entry)
      → length l.queue < l.buffer_size
      → Step l (sent e) (send e l)
  log_counts :
      (l : AsyncLogger Entry) (n : ℕ) → l.sent_uncounted ≡ suc n → Step l silent (count_sent n l)
  log_finds_closed : (l : AsyncLogger Entry) → l.stop_closed ≡ true → Step l silent (note_dropped l)
  log_times_out : (l : AsyncLogger Entry) → Step l silent (note_dropped l)
  closes : (l : AsyncLogger Entry) → Step l silent (close_logger l)
  worker_receives :
      (l : AsyncLogger Entry) (e : Entry) (rest : List Entry)
      → l.phase ≢ finished
      → l.in_hand ≡ none
      → l.queue ≡ e ∷ rest
      → Step l (received e) (receive e rest l)
  worker_persists :
      (l : AsyncLogger Entry) (e : Entry) (o : Outcome)
      → l.in_hand ≡ some e
      → Step l silent (persist_entry o l)
  worker_sees_stop :
      (l : AsyncLogger Entry)
      → l.phase ≡ running
      → l.in_hand ≡ none
      → l.stop_closed ≡ true
      → Step l silent (enter draining l)
  worker_returns :
      (l : AsyncLogger Entry)
      → l.phase ≡ draining
      → l.in_hand ≡ none
      → l.queue ≡ []
      → Step l silent (enter finished l)

-- A run, with its events in order.
pub data Run {Entry : Type 0} (l : AsyncLogger Entry)
    : List (Event Entry) → AsyncLogger Entry → Type 0 where
  start : Run l [] l
  step :
      {es : List (Event Entry)} {m n : AsyncLogger Entry} {e : Event Entry}
      → Run l es m
      → Step m e n
      → Run l (es ++ e ∷ []) n
