-- ===== src/Tests/Acceptor.antt =====
-- src/network/websocket_acceptor.cpp at concrete inputs.
use tibia_login_orig.Base.{arith, ◌≡◌, refl, true, false, [], ◌∷◌, codes}
use tibia_login_orig.Acceptor.{
  Acceptor, acceptor, Thread, Phase, Task, Worker, Socket, Message, on_open, on_message, on_close,
  read_message, dispatch, strip_mapped,
}
use tibia_login_orig.Acceptor.Step.{
  Runs, Step, with_workers, defer, Reach, here, next, load_key, start, listen, open_socket, message,
  close_socket, work, refuse, check,
}
use tibia_login_orig.Acceptor.Shutdown.{shutdown_race}

abbrev listening : Acceptor
listening = record acceptor {
  rsa_key = true;
  thread = Thread.running;
  app_instance = true;
  event_loop = true;
  listen_socket = true;
}

abbrev client : Socket
client = record { ws = 9; request_id = 1 }

abbrev worker : Phase → Worker
worker phase = record { request_id = 1; message = 1 ∷ 7 ∷ []; phase = phase }

-- A client has sent a login request of two bytes.
abbrev asked : Acceptor
asked = record listening {
  next_request_id = 1;
  pending_requests = (1, 9) ∷ [];
  sockets = client ∷ [];
  active_workers = 1;
  workers = worker Phase.connecting ∷ [];
}

Reach-listening : Reach listening
Reach-listening =
    next (next (next here (load_key refl refl)) (start refl refl refl)) (listen true refl)

Reach-asked : Reach asked
unfolding on_open on_message read_message dispatch
Reach-asked =
    next (next Reach-listening (open_socket 9 refl refl))
      (message true (2 ∷ 0 ∷ 1 ∷ 7 ∷ []) 9 client refl refl (omega arith))

-- The worker has found no query manager and the acceptor not shutting down, and the client is gone.
abbrev left_alone : Acceptor
left_alone = record asked {
  pending_requests = [];
  sockets = [];
  workers = worker (Phase.deferring (Task.close 1)) ∷ [];
}

Reach-left_alone : Reach left_alone
unfolding on_close
Reach-left_alone =
    next
      (next (next Reach-asked (work [] [] (worker Phase.connecting) refl (refuse refl)))
        (work [] [] (worker (Phase.replying (Task.close 1))) refl (check (Task.close 1) refl refl)))
      (close_socket 9 client refl refl)

shutdown_race_example :
    (b : Acceptor) × Runs left_alone b
    × (b.thread ≡ Thread.ended)
    × (b.workers ≡ left_alone.workers)
    × (b.late ≡ false)
    × Step b (with_workers (worker Phase.leaving ∷ []) (defer (Task.close 1) b))
    × ((defer (Task.close 1) b).late ≡ true)
shutdown_race_example =
    shutdown_race left_alone [] [] (worker (Phase.deferring (Task.close 1))) (Task.close 1) refl
      refl refl refl refl refl refl

-- Text and frames of less than three bytes.
message_of_text : read_message false (2 ∷ 0 ∷ 1 ∷ []) ≡ Message.dropped
unfolding read_message
message_of_text = refl

message_of_two_bytes : read_message true (2 ∷ 0 ∷ []) ≡ Message.refused
unfolding read_message
message_of_two_bytes = refl

-- An IPv4 address written as one of IPv6.
mapped_address : strip_mapped (codes "::ffff:10.0.0.1") ≡ codes "10.0.0.1"
unfolding strip_mapped
mapped_address = refl
