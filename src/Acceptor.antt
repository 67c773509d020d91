-- ===== src/Acceptor.antt =====
-- src/network/websocket_acceptor.cpp: the requests of the WebSocket clients, the threads that work on
-- them, and how the acceptor starts and stops. What uWebSockets promises is in `Acceptor/Step`.
pub mod Step
pub mod Sound
pub mod Crew
pub mod Callbacks
pub mod Reachable
pub mod Shutdown
use tibia_login_orig.Base.{
  ℕ, ◌%◌, ◌^◌, zero, suc, ◌+◌, ◌-◌, Bool, true, false, not, ◌&&◌, ◌||◌, Option, none, some, List,
  [], ◌∷◌, ◌++◌, length, take, drop, replicate, get_or, ltb, ◌==◌, if◌then◌else◌, store, ◌>>=◌,
  codes, u32,
}
use tibia_login_orig.Connection.{Connection, ConnectionState}
use tibia_login_orig.Strings.{string_copy_n}

-- What the callback for a message comes to: it is dropped, its socket is closed, or its payload goes to
-- a thread of its own.
pub data Message : Type 0 where
  dropped refused : Message
  login : List ℕ → Message

unfoldable pub dispatch : List ℕ → Message
dispatch message = if get_or message 0 0 == 1 then Message.login message else Message.refused

-- `binary` is `opCode == uWS::OpCode::BINARY`. The size of TCP's framing is skipped.
unfoldable pub read_message : Bool → List ℕ → Message
unfolding dispatch
read_message binary message =
    if not binary
    then Message.dropped
    else if ltb (length message) 3 || ltb 2048 (length message)
    then Message.refused
    else dispatch (drop 2 message)

abbrev starts_with : List ℕ → List ℕ → Bool
starts_with [] bs = true
starts_with (a ∷ as') [] = false
starts_with (a ∷ as') (b ∷ bs) = a == b && starts_with as' bs

-- An IPv4 address that is written as one of IPv6.
unfoldable pub strip_mapped : List ℕ → List ℕ
strip_mapped remote_ip =
    if starts_with (codes "::ffff:") remote_ip then drop 7 remote_ip else remote_ip

-- The connection of a thread. `ip_address` is what `parse_ipv4_address` gives; `none` is a message that
-- does not fit the buffer.
unfoldable pub ws_connection : ℕ → ℕ → List ℕ → List ℕ → Option Connection
ws_connection ip_address seed remote_ip message =
    string_copy_n (replicate 32 0) remote_ip >>= (λ (fits, remote_address).
      store (replicate 2048 0) 0 message >>= (λ buffer. some (record {
        state = ConnectionState.processing;
        socket = none;
        ip_address = ip_address;
        start_time = 0;
        rw_size = length message;
        rw_position = 0;
        random_seed = seed;
        xtea = replicate 4 0;
        remote_address = remote_address;
        buffer = buffer;
      })))

-- What is deferred to the loop: a response, or a close, for a request; or the end of the acceptor.
pub data Task : Type 0 where
  send : ℕ → List ℕ → Task
  close : ℕ → Task
  shut : Task

-- After `process_login_request`.
unfoldable pub reply : ℕ → Connection → Task
reply request_id c = elim c.state [
  | ConnectionState.writing ↦
      if ltb 0 c.rw_size
      then Task.send request_id (take c.rw_size c.buffer)
      else Task.close request_id
  | _ ↦ Task.close request_id
]

-- Where a thread of `process_ws_login` is: before its client is connected, before the lock, under the
-- lock, in `safe_defer` before and after the test of `ShuttingDown`, and on its way out.
pub data Phase : Type 0 where
  connecting connected handling : Phase
  replying deferring : Task → Phase
  leaving : Phase

pub record Worker : Type 0 where
  pub request_id : ℕ
  pub message : List ℕ
  pub phase : Phase

-- An open socket of the library, with the address by which the code knows it, and its user data.
pub record Socket : Type 0 where
  pub ws : ℕ
  pub request_id : ℕ

-- A response that was sent: for which request, and on which socket.
pub record Delivery : Type 0 where
  pub request_id : ℕ
  pub receiver : Socket
  pub response : List ℕ

-- The thread of the loop: none yet, before `listen` has called back, running, at the end of the
-- function with `AppInstance` and then `EventLoop` reset, and over.
pub data Thread : Type 0 where
  absent starting running app_gone loop_gone ended : Thread

-- Where `stop_websocket_acceptor` is: not called; `ShuttingDown` is set; a loop was found; the thread
-- is joined; it has ended, and the workers are awaited; it has returned.
pub data Stage : Type 0 where
  idle signalled found joining awaiting stopped : Stage

-- The state that the threads share, with what the library keeps. `dangling` is a use of a socket that
-- is not open, and `late` one of a loop whose thread is over.
pub record Acceptor : Type 0 where
  pub rsa_key : Bool
  pub shutting_down : Bool
  pub event_loop : Bool
  pub app_instance : Bool
  pub listen_socket : Bool
  pub next_request_id : ℕ
  pub pending_requests : List (ℕ × ℕ)
  pub active_workers : ℕ
  pub rsa_decrypt_mutex : Bool
  pub workers : List Worker
  pub sockets : List Socket
  pub deferred : List Task
  pub thread : Thread
  pub stage : Stage
  pub sent : List Delivery
  pub dangling : Bool
  pub late : Bool

abbrev pub acceptor : Acceptor
acceptor = record {
  rsa_key = false;
  shutting_down = false;
  event_loop = false;
  app_instance = false;
  listen_socket = false;
  next_request_id = 0;
  pending_requests = [];
  active_workers = 0;
  rsa_decrypt_mutex = false;
  workers = [];
  sockets = [];
  deferred = [];
  thread = Thread.absent;
  stage = Stage.idle;
  sent = [];
  dangling = false;
  late = false;
}

-- `PendingRequests.find`
abbrev pub find : ℕ → List (ℕ × ℕ) → Option ℕ
find request_id [] = none
find request_id ((k, ws) ∷ m) = if k == request_id then some ws else find request_id m

-- `PendingRequests.erase`
abbrev pub erase : ℕ → List (ℕ × ℕ) → List (ℕ × ℕ)
erase request_id [] = []
erase request_id ((k, ws) ∷ m) =
    let rest = erase request_id m in if k == request_id then rest else (k, ws) ∷ rest

abbrev pub socket_at : ℕ → List Socket → Option Socket
socket_at ws [] = none
socket_at ws (s ∷ ss) = if s.ws == ws then some s else socket_at ws ss

-- The library's sockets without the one of a request.
abbrev pub remove : ℕ → List Socket → List Socket
remove request_id [] = []
remove request_id (s ∷ ss) =
    let rest = remove request_id ss in if s.request_id == request_id then rest else s ∷ rest

-- `.open`
unfoldable pub on_open : ℕ → Acceptor → Acceptor
on_open ws a =
    let request_id = (a.next_request_id + 1) % 2 ^ 64 in
    record a {
      next_request_id = request_id;
      pending_requests = (request_id, ws) ∷ erase request_id a.pending_requests;
      sockets = record { ws = ws; request_id = request_id } ∷ a.sockets;
    }

-- A socket closes, and `.close` is called for it.
unfoldable pub on_close : ℕ → Acceptor → Acceptor
on_close request_id a = record a {
  pending_requests = erase request_id a.pending_requests;
  sockets = remove request_id a.sockets;
}

-- `.message`, for a socket with the user data `request_id`.
unfoldable pub on_message : Bool → List ℕ → ℕ → Acceptor → Acceptor
unfolding on_close
on_message binary message request_id a = elim (read_message binary message) [
  | Message.dropped ↦ a
  | Message.refused ↦ on_close request_id a
  | Message.login payload ↦ record a {
    active_workers = (a.active_workers + 1) % 2 ^ 32;
    workers =
        record { request_id = request_id; message = payload; phase = Phase.connecting } ∷ a.workers;
  }
]

-- `it->second->send`, at an address.
unfoldable pub send_to : ℕ → List ℕ → ℕ → Acceptor → Acceptor
send_to request_id response ws a = elim (socket_at ws a.sockets) [
  | none ↦ record a { dangling = true }
  | some s ↦ record a {
    sent = record { request_id = request_id; receiver = s; response = response } ∷ a.sent;
  }
]

-- `it->second->close`, at an address.
unfoldable pub close_at : ℕ → Acceptor → Acceptor
unfolding on_close
close_at ws a = elim (socket_at ws a.sockets) [
  | none ↦ record a { dangling = true }
  | some s ↦ on_close s.request_id a
]

-- `AppInstance->close()`: each socket closes.
unfoldable pub close_all : List Socket → Acceptor → Acceptor
unfolding on_close
close_all [] a = a
close_all (s ∷ ss) a = close_all ss (on_close s.request_id a)

unfoldable pub run_task : Task → Acceptor → Acceptor
unfolding send_to close_at close_all
run_task (send request_id response) a = elim (find request_id a.pending_requests) [
  | none ↦ a
  | some ws ↦ send_to request_id response ws a
]
run_task (close request_id) a = elim (find request_id a.pending_requests) [
  | none ↦ a
  | some ws ↦ close_at ws a
]
run_task shut a =
    let a' : Acceptor = record a { listen_socket = false } in
    if a.app_instance then close_all a.sockets a' else a'
