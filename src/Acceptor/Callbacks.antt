-- ===== src/Acceptor/Callbacks.antt =====
-- What the callbacks and deferred functions of src/network/websocket_acceptor.cpp leave to the workers and
-- to the stages of the acceptor.
use tibia_login_orig.Base.{
  ◌<◌, ◌%◌, ◌^◌, length, ℕ, ◌+◌, ◌≡◌, refl, ap, ◌⊎◌, inl, inr, Bool, true, false, not, ◌&&◌, ◌||◌,
  Bool-cases, Option-cases, List, [], ◌∷◌, arith,
}
use tibia_login_orig.Acceptor.{
  Task, send, close, shut, Phase, Socket, Thread, running, Stage, idle, signalled, found, joining,
  awaiting, stopped, Acceptor, find, socket_at, on_close, on_message, Message, read_message,
  send_to, close_at, close_all, run_task,
}
use tibia_login_orig.Acceptor.Step.{is_absent, is_ended}
use tibia_login_orig.Acceptor.Sound.{IsCrew, is_stopped, is_joined, IsStaged}

-- What a callback leaves alone.
abbrev pub Rest : Acceptor → Type 0
Rest a =
    IsCrew a.workers a.active_workers a.rsa_decrypt_mutex
    × IsStaged a.stage a.thread a.rsa_key a.workers

close_all-Rest : (ss : List Socket) (a : Acceptor) → Rest a → Rest (close_all ss a)
unfolding close_all
close_all-Rest [] a r = r
close_all-Rest (s ∷ ss) a r = close_all-Rest ss (on_close s.request_id a) r

pub run_task-Rest : (task : Task) (a : Acceptor) → Rest a → Rest (run_task task a)
unfolding run_task
run_task-Rest (send request_id response) a r =
    elim (Option-cases (find request_id a.pending_requests)) [
      | inl gone ↦ rw (gone, run_task) r
      | inr (ws, pending) ↦ elim (Option-cases (socket_at ws a.sockets)) [
        | inl closed ↦ rw (pending, run_task, closed, send_to) r
        | inr (s, at_ws) ↦ rw (pending, run_task, at_ws, send_to) r
      ]
    ]
run_task-Rest (close request_id) a r = elim (Option-cases (find request_id a.pending_requests)) [
  | inl gone ↦ rw (gone, run_task) r
  | inr (ws, pending) ↦ elim (Option-cases (socket_at ws a.sockets)) [
    | inl closed ↦ rw (pending, run_task, closed, close_at) r
    | inr (s, at_ws) ↦ rw (pending, run_task, at_ws, close_at) r
  ]
]
run_task-Rest shut a r = elim (Bool-cases a.app_instance) [
  | inl up ↦
      rw (up, run_task)
        (close_all-Rest a.sockets (record a { app_instance = true; listen_socket = false }) r)
  | inr down ↦ rw (down, run_task) r
]

in_use :
    (stage : Stage) (thread : Thread)
    → thread ≡ running
    → (is_joined stage && not (is_ended thread)) ≡ false
    → (is_absent thread || is_stopped stage) ≡ false
in_use stage thread up h = elim (stage_cases stage) [
  | inl over ↦ absurd (ground (arith, over, ap is_ended up))
  | inr on ↦ ground (arith, on, ap is_absent up)
]
  where
    stage_cases : (stage : Stage) → (is_joined stage ≡ true) ⊎ (is_stopped stage ≡ false)
    stage_cases stopped = inl refl
    stage_cases idle = inr refl
    stage_cases signalled = inr refl
    stage_cases found = inr refl
    stage_cases joining = inr refl
    stage_cases awaiting = inr refl

pub on_message-Rest :
    (binary : Bool) (bytes : List ℕ) (request_id : ℕ) (a : Acceptor)
    → a.thread ≡ running
    → length a.workers + 1 < 2 ^ 31
    → Rest a
    → Rest (on_message binary bytes request_id a)
unfolding on_message
on_message-Rest binary bytes request_id a up room r = go (read_message binary bytes)
  where
    go :
        (m : Message)
        → Rest (elim m [
          | Message.dropped ↦ a
          | Message.refused ↦ on_close request_id a
          | Message.login payload ↦ record a {
            active_workers = (a.active_workers + 1) % 2 ^ 32;
            workers =
                record { request_id = request_id; message = payload; phase = Phase.connecting }
                ∷ a.workers;
          }
        ])
    go Message.dropped = r
    go Message.refused = r
    go (Message.login payload) = (
      record {
        counted = omega (arith, r.0.counted, room);
        few = omega (arith, room);
        alone = omega (arith, r.0.alone);
      },
      record {
        over = r.1.over;
        keyed = r.1.keyed;
        idle = inl (in_use a.stage a.thread up r.1.over);
      },
    )

-- No callback but `.open` takes a number.
close_all_next :
    (ss : List Socket) (a : Acceptor) → (close_all ss a).next_request_id ≡ a.next_request_id
unfolding close_all
close_all_next [] a = refl
close_all_next (s ∷ ss) a = close_all_next ss (on_close s.request_id a)

pub run_task_next :
    (task : Task) (a : Acceptor) → (run_task task a).next_request_id ≡ a.next_request_id
unfolding run_task
run_task_next (send request_id response) a =
    elim (Option-cases (find request_id a.pending_requests)) [
      | inl gone ↦ rw (gone, run_task) refl
      | inr (ws, pending) ↦ elim (Option-cases (socket_at ws a.sockets)) [
        | inl closed ↦ rw (pending, run_task, closed, send_to) refl
        | inr (s, at_ws) ↦ rw (pending, run_task, at_ws, send_to) refl
      ]
    ]
run_task_next (close request_id) a = elim (Option-cases (find request_id a.pending_requests)) [
  | inl gone ↦ rw (gone, run_task) refl
  | inr (ws, pending) ↦ elim (Option-cases (socket_at ws a.sockets)) [
    | inl closed ↦ rw (pending, run_task, closed, close_at) refl
    | inr (s, at_ws) ↦ rw (pending, run_task, at_ws, close_at) refl
  ]
]
run_task_next shut a = elim (Bool-cases a.app_instance) [
  | inl up ↦
      rw (up, run_task)
        (close_all_next a.sockets (record a { app_instance = true; listen_socket = false }))
  | inr down ↦ rw (down, run_task) refl
]

pub on_message_next :
    (binary : Bool) (bytes : List ℕ) (request_id : ℕ) (a : Acceptor)
    → (on_message binary bytes request_id a).next_request_id ≡ a.next_request_id
unfolding on_message
on_message_next binary bytes request_id a = go (read_message binary bytes)
  where
    go :
        (m : Message)
        → (elim m as (λ _. Acceptor) [
          | Message.dropped ↦ a
          | Message.refused ↦ on_close request_id a
          | Message.login payload ↦ record a {
            active_workers = (a.active_workers + 1) % 2 ^ 32;
            workers =
                record { request_id = request_id; message = payload; phase = Phase.connecting }
                ∷ a.workers;
          }
        ]).next_request_id
          ≡ a.next_request_id
    go Message.dropped = refl
    go Message.refused = refl
    go (Message.login payload) = refl
