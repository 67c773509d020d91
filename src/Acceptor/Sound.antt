-- ===== src/Acceptor/Sound.antt =====
-- What holds of the state of src/network/websocket_acceptor.cpp at every time, and how its callbacks and
-- deferred functions keep it.
use tibia_login_orig.Base.{
  ◌<◌, ◌%◌, ◌^◌, ℕ, ◌+◌, ◌≡◌, ◌≤◌, refl, sym, ap, ◌∙◌, ◌⊎◌, inl, inr, Bool, true, false, not, ◌&&◌,
  ◌||◌, none, some, Bool-cases, Option-cases, List, [], ◌∷◌, map, length, All, ◌==◌, ==_iff,
  if◌then◌else◌, arith,
}
use tibia_login_orig.Acceptor.{
  Task, send, close, shut, Phase, handling, Worker, Socket, Delivery, Thread, Stage, stopped,
  awaiting, Acceptor, find, erase, remove, socket_at, on_open, on_close, on_message, Message,
  send_to, close_at, close_all, run_task, read_message,
}
use tibia_login_orig.Acceptor.Step.{is_absent, is_ended}

abbrev pub entry : Socket → ℕ × ℕ
entry s = (s.request_id, s.ws)

-- No two open sockets have one address.
abbrev pub IsDistinct : List Socket → Type 0
IsDistinct [] = Unit
IsDistinct (s ∷ ss) = (socket_at s.ws ss ≡ none) × IsDistinct ss

-- The pending requests are the open sockets, and a response went to the socket that asked for it.
pub record HasTable (pending_requests : List (ℕ × ℕ)) (sockets : List Socket) (next_request_id : ℕ)
    (sent : List Delivery) (dangling : Bool) : Type 0 where
  pub mapped : pending_requests ≡ map entry sockets
  pub distinct : IsDistinct sockets
  pub numbered : All (λ s. s.request_id ≤ next_request_id) sockets
  pub answered : All (λ d. d.request_id ≡ d.receiver.request_id) sent
  pub alive : dangling ≡ false

abbrev pub IsTable : Acceptor → Type 0
IsTable a = HasTable a.pending_requests a.sockets a.next_request_id a.sent a.dangling

-- Whether a worker is under the lock.
abbrev pub holds : Phase → ℕ
holds handling = 1
holds _ = 0

abbrev pub holders : List Worker → ℕ
holders [] = 0
holders (w ∷ ws) = holds w.phase + holders ws

-- The workers are counted, and the lock lets one at most use the key.
pub record IsCrew (workers : List Worker) (active_workers : ℕ) (mutex : Bool) : Type 0 where
  pub counted : active_workers ≡ length workers
  pub few : length workers < 2 ^ 31
  pub alone : holders workers ≡ (if mutex then 1 else 0)

abbrev pub is_stopped : Stage → Bool
is_stopped stopped = true
is_stopped _ = false

abbrev pub is_joined : Stage → Bool
is_joined stopped = true
is_joined awaiting = true
is_joined _ = false

-- The key is there while there are workers, and there is none once the acceptor has stopped.
pub record IsStaged (stage : Stage) (thread : Thread) (rsa_key : Bool) (workers : List Worker)
    : Type 0 where
  pub over : (is_joined stage && not (is_ended thread)) ≡ false
  pub keyed : (not rsa_key && not (is_absent thread || is_stopped stage)) ≡ false
  pub idle : ((is_absent thread || is_stopped stage) ≡ false) ⊎ (length workers ≡ 0)

pub record IsSound (a : Acceptor) : Type 0 where
  pub table : IsTable a
  pub crew : IsCrew a.workers a.active_workers a.rsa_decrypt_mutex
  pub staged : IsStaged a.stage a.thread a.rsa_key a.workers

elsewhere :
    (s : Socket) (ss : List Socket) (ws : ℕ) (t : Socket)
    → socket_at s.ws ss ≡ none
    → socket_at ws ss ≡ some t
    → socket_at ws (s ∷ ss) ≡ some t
elsewhere s ss ws t unused at_ws = elim (Bool-cases (s.ws == ws)) [
  | inl same ↦
      let clash : none ≡ some t =
        sym unused ∙ ap (λ k. socket_at k ss) ((==_iff s.ws ws).0 same) ∙ at_ws in
      cc
  | inr other ↦ rw other at_ws
]

-- The address of a pending request is that of an open socket, with the request's number.
find-socket_at :
    (ss : List Socket) (request_id ws : ℕ)
    → IsDistinct ss
    → find request_id (map entry ss) ≡ some ws
    → (s : Socket) × (socket_at ws ss ≡ some s) × (s.request_id ≡ request_id)
find-socket_at [] request_id ws d e = cc
find-socket_at (s ∷ ss) request_id ws d e = elim (Bool-cases (s.request_id == request_id)) [
  | inl same ↦
      let here : s.ws ≡ ws = ground arith in
      (s, rw ((==_iff s.ws ws).1 here) refl, (==_iff s.request_id request_id).0 same)
  | inr other ↦
      let (t, at_ws, numbered) = find-socket_at ss request_id ws d.1 (rw other at e) in
      (t, elsewhere s ss ws t d.0 at_ws, numbered)
]

erase-map :
    (request_id : ℕ) (ss : List Socket)
    → erase request_id (map entry ss) ≡ map entry (remove request_id ss)
erase-map request_id [] = refl
erase-map request_id (s ∷ ss) = ground (arith, erase-map request_id ss)

erase_new :
    (n : ℕ) (ss : List Socket)
    → All (λ s. s.request_id ≤ n) ss
    → erase (n + 1) (map entry ss) ≡ map entry ss
erase_new n [] h = refl
erase_new n (s ∷ ss) h = ground (arith, erase_new n ss h.1)

remove-none :
    (ws request_id : ℕ) (ss : List Socket)
    → socket_at ws ss ≡ none
    → socket_at ws (remove request_id ss) ≡ none
remove-none ws request_id [] e = refl
remove-none ws request_id (s ∷ ss) e = ground (arith, remove-none ws request_id ss)

remove-IsDistinct :
    (request_id : ℕ) (ss : List Socket) → IsDistinct ss → IsDistinct (remove request_id ss)
remove-IsDistinct request_id [] d = tt
remove-IsDistinct request_id (s ∷ ss) d = elim (Bool-cases (s.request_id == request_id)) [
  | inl same ↦ rw same (remove-IsDistinct request_id ss d.1)
  | inr other ↦ rw other (remove-none s.ws request_id ss d.0, remove-IsDistinct request_id ss d.1)
]

remove-All {κ} :
    (P : Socket → Type κ) (request_id : ℕ) (ss : List Socket)
    → All P ss
    → All P (remove request_id ss)
remove-All P request_id [] h = h
remove-All P request_id (s ∷ ss) h = elim (Bool-cases (s.request_id == request_id)) [
  | inl same ↦ rw same (remove-All P request_id ss h.1)
  | inr other ↦ rw other (h.0, remove-All P request_id ss h.1)
]

pub on_close-IsTable : (request_id : ℕ) (a : Acceptor) → IsTable a → IsTable (on_close request_id a)
unfolding on_close
on_close-IsTable request_id a t = record {
  mapped = ap (erase request_id) t.mapped ∙ erase-map request_id a.sockets;
  distinct = remove-IsDistinct request_id a.sockets t.distinct;
  numbered = remove-All _ request_id a.sockets t.numbered;
  answered = t.answered;
  alive = t.alive;
}

pub on_open-IsTable :
    (ws : ℕ) (a : Acceptor)
    → a.next_request_id + 1 < 2 ^ 64
    → socket_at ws a.sockets ≡ none
    → IsTable a
    → IsTable (on_open ws a)
unfolding on_open
on_open-IsTable ws a few unused t =
    let same : (a.next_request_id + 1) % 2 ^ 64 ≡ a.next_request_id + 1 = omega arith in
    rw same (record {
      mapped =
          ap (λ m. (a.next_request_id + 1, ws) ∷ m)
            (ap (erase (a.next_request_id + 1)) t.mapped
              ∙ erase_new a.next_request_id a.sockets t.numbered);
      distinct = (unused, t.distinct);
      numbered = (omega arith, still a.sockets t.numbered);
      answered = t.answered;
      alive = t.alive;
    })
  where
    still :
        (ss : List Socket)
        → All (λ s. s.request_id ≤ a.next_request_id) ss
        → All (λ s. s.request_id ≤ a.next_request_id + 1) ss
    still [] h = tt
    still (s ∷ ss) h = (omega (arith, h.0), still ss h.1)

pub on_message-IsTable :
    (binary : Bool) (message : List ℕ) (request_id : ℕ) (a : Acceptor)
    → IsTable a
    → IsTable (on_message binary message request_id a)
unfolding on_message
on_message-IsTable binary message request_id a t = go (read_message binary message)
  where
    go :
        (m : Message)
        → IsTable (elim m [
          | Message.dropped ↦ a
          | Message.refused ↦ on_close request_id a
          | Message.login payload ↦ record a {
            active_workers = (a.active_workers + 1) % 2 ^ 32;
            workers =
                record { request_id = request_id; message = payload; phase = Phase.connecting }
                ∷ a.workers;
          }
        ])
    go Message.dropped = t
    go Message.refused = on_close-IsTable request_id a t
    go (Message.login payload) = t

close_all-IsTable : (ss : List Socket) (a : Acceptor) → IsTable a → IsTable (close_all ss a)
unfolding close_all
close_all-IsTable [] a t = t
close_all-IsTable (s ∷ ss) a t =
    close_all-IsTable ss (on_close s.request_id a) (on_close-IsTable s.request_id a t)

pub run_task-IsTable : (task : Task) (a : Acceptor) → IsTable a → IsTable (run_task task a)
unfolding run_task
run_task-IsTable (send request_id response) a t =
    elim (Option-cases (find request_id a.pending_requests)) [
      | inl gone ↦ rw (gone, run_task) t
      | inr (ws, pending) ↦
          let (s, at_ws, numbered) =
            find-socket_at a.sockets request_id ws t.distinct (rw t.mapped at pending) in
          rw (pending, run_task, at_ws, send_to)
            (record {
              mapped = t.mapped;
              distinct = t.distinct;
              numbered = t.numbered;
              answered = (sym numbered, t.answered);
              alive = t.alive;
            })
    ]
run_task-IsTable (close request_id) a t = elim (Option-cases (find request_id a.pending_requests)) [
  | inl gone ↦ rw (gone, run_task) t
  | inr (ws, pending) ↦
      let (s, at_ws, numbered) =
        find-socket_at a.sockets request_id ws t.distinct (rw t.mapped at pending) in
      rw (pending, run_task, at_ws, close_at) (on_close-IsTable s.request_id a t)
]
run_task-IsTable shut a t = elim (Bool-cases a.app_instance) [
  | inl up ↦
      rw (up, run_task)
        (close_all-IsTable a.sockets (record a { app_instance = true; listen_socket = false }) t)
  | inr down ↦ rw (down, run_task) t
]
