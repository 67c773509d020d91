-- ===== src/Tests/Server.antt =====
-- src/network/server.cpp at concrete inputs.
use tibia_login_orig.Base.{
  ℕ, suc, ◌+◌, ◌<◌, ◌≡◌, refl, inr, Bool, true, false, Option, none, some, List, [], ◌∷◌, ◌++◌,
  take, drop, length-replicate, replicate, map, if◌then◌else◌, pos, arith,
}
use tibia_login_orig.Connection.{Connection, ConnectionState, Received}
use tibia_login_orig.Connection.Life.{Sent, full, sent, check_connection_output}
use tibia_login_orig.Connection.Output.{
  Told, IsWritable, Took, Writes, Written, check_connection_output-Written,
}
use tibia_login_orig.StatusLimit.{StatusRecord}
use tibia_login_orig.Server.Start.{Globals, main_loop}
use tibia_login_orig.Server.Serving.{handler}
use tibia_login_orig.Server.{Environment}
use tibia_login_orig.Query.{QueryClient, query_client, query_failed, Answer}
use tibia_login_orig.Writer.{BufferWriter}
use tibia_login_orig.Rsa.{Rsa}
use tibia_login_orig.Server.Accept.{IsPatient}

-- The bytes that come in and go out, and whether a client waits.
record Net : Type 0 where
  incoming : List ℕ
  outgoing : List ℕ
  client : Bool
  refusals : ℕ

-- The query client and the rest.
abbrev World : Type 0
World = QueryClient × Net

abbrev receive_from : ℕ → List ℕ → World → Received × World
receive_from count [] s = (Received.again, s)
receive_from count (b ∷ bs) (q, n) =
    (Received.bytes (take count (b ∷ bs)), (q, record n { incoming = drop count (b ∷ bs) }))

abbrev receive : ℕ → World → Received × World
receive count (q, n) = receive_from count n.incoming (q, n)

-- A byte at a time.
abbrev transmit : List ℕ → World → Sent × World
transmit [] (q, n) = (full, (q, record n { refusals = suc n.refusals }))
transmit (b ∷ bs) (q, n) = (sent 1, (q, record n { outgoing = n.outgoing ++ b ∷ [] }))

abbrev told : Told World
told = record {
  outgoing = λ (q, n). n.outgoing;
  refusals = λ (q, n). n.refusals;
  failures = λ s. 0;
}

transmit-Took :
    (bytes : List ℕ) (s : World) → Took told bytes (transmit bytes s).0 s (transmit bytes s).1
transmit-Took [] (q, n) = (refl, refl, refl)
transmit-Took (b ∷ bs) (q, n) = ((omega arith, inr (omega arith), refl), refl, refl)

transmit-Writes : Writes transmit
transmit-Writes = record { told = told; takes = transmit-Took }

abbrev accept : World → Option (ℕ × ℕ × ℕ) × World
accept (q, n) =
    if n.client then (some (6, 7, 80), (q, record n { client = false })) else (none, (q, n))

abbrev network : Environment World
network = record {
  open_socket = λ n. (some 4, n);
  reuse_address = λ socket n. (true, n);
  set_nonblocking = λ socket n. (true, n);
  bind = λ socket port n. (true, n);
  listen = λ socket n. (true, n);
  accept = λ listener n. accept n;
  close = λ socket n. n;
  receive = λ socket. receive;
  transmit = λ socket. transmit;
  poll = λ fds n. (some (map (λ fd. record { pollin = true; hangup = false }) fds), n);
  rand = λ n. (1, n);
  get_monotonic_uptime = λ n. 5;
}

abbrev waiting : World → ℕ
waiting (q, n) = if n.client then 1 else 0

accept-waiting :
    (n : World) (client : ℕ × ℕ × ℕ) → (accept n).0 ≡ some client → waiting (accept n).1 < waiting n
accept-waiting n client came = ground arith

abbrev network-IsPatient : (listener : ℕ) → IsPatient network listener
network-IsPatient listener = record {
  backlog = waiting;
  accepted = accept-waiting;
  nonblocking_kept = λ socket n. omega arith;
  close_kept = λ socket n. omega arith;
  rand_kept = λ n. omega arith;
}

-- A key whose plaintext is the ciphertext, and a query manager that does not answer.
abbrev rsa : Option Rsa
rsa = some (record { rsa_size = 128; private_decrypt = λ bytes. some bytes })

abbrev unanswered : BufferWriter → QueryClient → Net → Option (Answer × Net)
unanswered w client n = some (query_failed client, n)

abbrev count_up : ℕ → ℕ × ℕ
count_up seed = (seed, seed + 1)

abbrev no_address : ℕ → List ℕ
no_address ip_address = []

abbrev log_in : Connection → World → Option (Connection × World)
log_in = handler count_up rsa unanswered no_address []

abbrev status : World → Option (List ℕ × World)
status n = some (b'o' ∷ b'k' ∷ [], n)

abbrev free_slot : Connection
free_slot = record {
  state = ConnectionState.free;
  socket = none;
  ip_address = 0;
  start_time = 0;
  rw_size = 0;
  rw_position = 0;
  random_seed = 0;
  xtea = replicate 4 0;
  remote_address = replicate 32 0;
  buffer = replicate 2048 0;
}

-- A response of three bytes.
abbrev responding : Connection
responding = record free_slot { state = ConnectionState.writing; socket = some 5; rw_size = 3 }

responding-IsWritable : IsWritable responding
responding-IsWritable = record {
  whole = length-replicate {A = ℕ} 2048 0;
  in_state = refl;
  starts = omega arith;
  fits = omega arith;
}

abbrev quiet : World
quiet = (
  query_client,
  record { incoming = 3 ∷ 0 ∷ 0xFF ∷ []; outgoing = []; client = true; refusals = 0 },
)

check_connection_output-Written_example :
    Written transmit transmit-Writes responding quiet
      (check_connection_output World transmit 2049 responding quiet)
check_connection_output-Written_example =
    check_connection_output-Written transmit transmit-Writes responding quiet refl
      responding-IsWritable

abbrev records : List StatusRecord
records = record { ip_address = 7; timestamp = 90 } ∷ []

abbrev load_key : World → Bool × World
load_key s = (true, s)

abbrev rounds :
    (Connection → World → Option (Connection × World)) → Globals → World → Option (Globals × World)
rounds login g s = main_loop network login status (pos 60) (pos 30) (λ addr port. []) 2 3 g s
