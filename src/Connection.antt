-- ===== src/Connection.antt =====
-- src/network/server.cpp: one connection, and the input that `check_connection_input` takes from its
-- socket. The socket is a parameter. `none` is a write outside the buffer, a PANIC, or spent fuel.
pub mod Input
pub mod Life
pub mod Output
use tibia_login_orig.Base.{
  ℕ, zero, suc, ◌+◌, ◌-◌, Bool, true, false, not, ◌||◌, Option, none, some, List, [], ◌∷◌, length,
  get_or, ltb, ◌==◌, if◌then◌else◌, store, ◌>>=◌,
}
use tibia_login_orig.ByteOrder.{read_u16_le}

pub data ConnectionState : Type 0 where
  free : ConnectionState
  reading : ConnectionState
  processing : ConnectionState
  writing : ConnectionState

-- No socket is -1.
pub record Connection : Type 0 where
  pub state : ConnectionState
  pub socket : Option ℕ
  pub ip_address : ℕ
  pub start_time : ℕ
  pub rw_size : ℕ
  pub rw_position : ℕ
  pub random_seed : ℕ
  pub xtea : List ℕ
  pub remote_address : List ℕ
  pub buffer : List ℕ

-- What `read` gives: bytes (none at the end of the stream), EAGAIN, or another error.
pub data Received : Type 0 where
  bytes : List ℕ → Received
  again : Received
  broken : Received

-- Whether the loop goes on.
pub data Progress : Type 0 where
  stop : Connection → Progress
  more : Connection → Progress

abbrev pub close_connection : Connection → Connection
close_connection c = record c { socket = none }

abbrev pub has_socket : Connection → Bool
has_socket c = elim c.socket [ none ↦ false | some s ↦ true ]

abbrev pub is_reading : ConnectionState → Bool
is_reading state = elim state [ ConnectionState.reading ↦ true | _ ↦ false ]

abbrev pub read_size : Connection → ℕ
read_size c = if ltb 0 c.rw_size then c.rw_size else 2

-- The rest of a round, behind `rw_position += BytesRead`.
unfoldable pub after_read : Connection → Option Progress
after_read c =
    if ltb c.rw_position (read_size c)
    then some (more c)
    else if ltb 0 c.rw_size
    then some (stop (record c { state = ConnectionState.processing }))
    else if c.rw_position == 2
    then (let payload_size = read_u16_le (get_or c.buffer 0 0) (get_or c.buffer 1 0) in
        if payload_size == 0 || ltb 2048 payload_size
        then some (stop (close_connection c))
        else some (more (record c { rw_size = payload_size; rw_position = 0 })))
    else none

-- A round on what `read` gave.
unfoldable pub read_round : Connection → Received → Option Progress
read_round c Received.again = some (stop c)
read_round c Received.broken = some (stop (close_connection c))
read_round c (Received.bytes []) = some (stop (close_connection c))
read_round c (Received.bytes (b ∷ bs)) = store c.buffer c.rw_position (b ∷ bs) >>= (λ buffer.
    after_read (record c { buffer = buffer; rw_position = c.rw_position + length (b ∷ bs) }))

module _ (Stream : Type 0) (receive : ℕ → Stream → Received × Stream) where
  -- `while(true)`
  unfoldable pub read_loop : ℕ → Connection → Stream → Option (Connection × Stream)
  read_loop zero c stream = none
  read_loop (suc fuel) c stream =
      let (received, stream') = receive (read_size c - c.rw_position) stream in
      read_round c received >>= (λ progress. elim progress [
        | stop c' ↦ some (c', stream')
        | more c' ↦ read_loop fuel c' stream'
      ])

  -- A connection has 2050 bytes at most still to come, and a round takes one of them or ends the loop.
  abbrev pub input_fuel : ℕ
  input_fuel = 2051

  -- `pollin` is `(Events & POLLIN) != 0`.
  unfoldable pub check_connection_input : Bool → Connection → Stream → Option (Connection × Stream)
  check_connection_input pollin c stream =
      if not (has_socket c) || not pollin
      then some (c, stream)
      else if not (is_reading c.state)
      then some (close_connection c, stream)
      else read_loop input_fuel c stream
