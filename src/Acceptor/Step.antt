-- ===== src/Acceptor/Step.antt =====
-- The steps of the threads of src/network/websocket_acceptor.cpp, in any order. A step is a piece of the
-- source between two uses of what the threads share. What the client of the query manager and
-- `process_login_request` come to is left open. Of uWebSockets: callbacks and deferred functions run
-- on the thread of the loop, these in their order; a socket that opens is at no address in use;
-- `close` calls `.close`; and `run` returns when nothing is open and no one listens.
-- Of the system: a process has fewer than 2^31 threads. `ActiveWorkers` is the word of an `int`.
use tibia_login_orig.Base.{
  ◌+◌, ℕ, ◌<◌, ◌%◌, ◌^◌, length, as_int, lebℤ, pos, ◌-◌, ◌≡◌, Bool, true, false, ◌||◌, none, some,
  List, [], ◌∷◌, ◌++◌, if◌then◌else◌,
}
use tibia_login_orig.Connection.{Connection}
use tibia_login_orig.Acceptor.{
  Task, close, shut, reply, Phase, connecting, connected, handling, replying, deferring, leaving,
  Worker, Socket, Thread, absent, starting, running, app_gone, loop_gone, ended, idle, signalled,
  found, joining, awaiting, stopped, Acceptor, acceptor, socket_at, on_open, on_close, on_message,
  run_task,
}

abbrev pub is_absent : Thread → Bool
is_absent absent = true
is_absent _ = false

abbrev pub is_ended : Thread → Bool
is_ended ended = true
is_ended _ = false

-- `start_websocket_acceptor` has its answer from `listen`.
abbrev pub is_bound : Thread → Bool
is_bound absent = false
is_bound starting = false
is_bound _ = true

-- `loop->defer`, which uses a loop that is gone once its thread is over.
unfoldable pub defer : Task → Acceptor → Acceptor
defer task a = record a {
  deferred = if is_ended a.thread then a.deferred else a.deferred ++ task ∷ [];
  late = a.late || is_ended a.thread;
}

abbrev pub with_workers : List Worker → Acceptor → Acceptor
with_workers workers a = record a { workers = workers }

abbrev pub in_phase : Phase → Worker → Worker
in_phase phase w = record w { phase = phase }

-- What a worker does by itself: it goes on to a phase.
pub data Work (a : Acceptor) (w : Worker) : Phase → Type 0 where
  refuse : w.phase ≡ connecting → Work a w (replying (close w.request_id))
  connect : w.phase ≡ connecting → Work a w connected
  skip : (task : Task) → w.phase ≡ replying task → a.shutting_down ≡ true → Work a w leaving
  check :
      (task : Task) → w.phase ≡ replying task → a.shutting_down ≡ false → Work a w (deferring task)

-- What a worker does to the state that it shares: the state, and the worker after it, if it goes on.
pub data Share (a : Acceptor) (w : Worker) : Acceptor → Phase → Type 0 where
  lock :
      w.phase ≡ connected
      → a.rsa_decrypt_mutex ≡ false
      → Share a w (record a { rsa_decrypt_mutex = true }) handling
  handle :
      (c : Connection)
      → w.phase ≡ handling
      → Share a w (record a { rsa_decrypt_mutex = false }) (replying (reply w.request_id c))
  hand_over : (task : Task) → w.phase ≡ deferring task → Share a w (defer task a) leaving

pub data Step (a : Acceptor) : Acceptor → Type 0 where
  -- `start_websocket_acceptor`. It waits for the thread until `listen` has called back.
  load_key : a.thread ≡ absent → a.stage ≡ idle → Step a (record a { rsa_key = true })
  start :
      a.thread ≡ absent
      → a.stage ≡ idle
      → a.rsa_key ≡ true
      → Step a (record a {
        shutting_down = false;
        thread = starting;
        app_instance = true;
        event_loop = true;
      })
  listen :
      (bound : Bool)
      → a.thread ≡ starting
      → Step a (record a { thread = running; listen_socket = bound })
  -- The thread of the loop.
  open_socket :
      (ws : ℕ) → a.thread ≡ running → socket_at ws a.sockets ≡ none → Step a (on_open ws a)
  message :
      (binary : Bool) (bytes : List ℕ) (ws : ℕ) (s : Socket)
      → a.thread ≡ running
      → socket_at ws a.sockets ≡ some s
      → length a.workers + 1 < 2 ^ 31
      → Step a (on_message binary bytes s.request_id a)
  close_socket :
      (ws : ℕ) (s : Socket)
      → a.thread ≡ running
      → socket_at ws a.sockets ≡ some s
      → Step a (on_close s.request_id a)
  run :
      (task : Task) (tasks : List Task)
      → a.thread ≡ running
      → a.deferred ≡ task ∷ tasks
      → Step a (run_task task (record a { deferred = tasks }))
  return :
      a.thread ≡ running
      → a.listen_socket ≡ false
      → a.sockets ≡ []
      → Step a (record a { thread = app_gone; app_instance = false })
  forget_loop : a.thread ≡ app_gone → Step a (record a { thread = loop_gone; event_loop = false })
  end_thread : a.thread ≡ loop_gone → Step a (record a { thread = ended })
  -- A worker, of those that there are.
  work :
      (before after : List Worker) (w : Worker) {phase : Phase}
      → a.workers ≡ before ++ w ∷ after
      → Work a w phase
      → Step a (with_workers (before ++ in_phase phase w ∷ after) a)
  share :
      (before after : List Worker) (w : Worker) {phase : Phase} {b : Acceptor}
      → a.workers ≡ before ++ w ∷ after
      → Share a w b phase
      → Step a (with_workers (before ++ in_phase phase w ∷ after) b)
  leave :
      (before after : List Worker) (w : Worker)
      → a.workers ≡ before ++ w ∷ after
      → w.phase ≡ leaving
      → Step a (record a {
        workers = before ++ after;
        active_workers = (a.active_workers + (2 ^ 32 - 1)) % 2 ^ 32;
      })
  -- `stop_websocket_acceptor`, called once.
  signal :
      is_bound a.thread ≡ true
      → a.stage ≡ idle
      → Step a (record a { shutting_down = true; stage = signalled })
  load_loop :
      a.stage ≡ signalled → Step a (record a { stage = if a.event_loop then found else joining })
  defer_shut : a.stage ≡ found → Step a (record (defer shut a) { stage = joining })
  join : a.stage ≡ joining → a.thread ≡ ended → Step a (record a { stage = awaiting })
  finish :
      a.stage ≡ awaiting
      → lebℤ (as_int a.active_workers) (pos 0) ≡ true
      → Step a (record a { stage = stopped; rsa_key = false })

-- What a state can come to, by any steps.
pub data Runs (a : Acceptor) : Acceptor → Type 0 where
  here : Runs a a
  next : {b c : Acceptor} → Runs a b → Step b c → Runs a c

abbrev pub Reach : Acceptor → Type 0
Reach = Runs acceptor

-- How many sockets have been opened on the way.
abbrev pub opened : {a b : Acceptor} → Step a b → ℕ
opened (open_socket ws up unused) = 1
opened _ = 0

abbrev pub opens : {a b : Acceptor} → Runs a b → ℕ
opens here = 0
opens (next r step) = opens r + opened step
