-- ===== src/Connection/Life.antt =====
-- src/network/server.cpp: how a connection is assigned, answers a status request, is written out and is
-- released. The socket, the clock and the formatting of an address are parameters.
use tibia_login_orig.Base.{
  ℕ, zero, suc, ◌+◌, ◌-◌, ◌≡◌, ◌≤◌, min, Bool, true, false, not, ◌&&◌, ◌||◌, refl, ap, ◌∙◌, Option,
  none, some, List, [], ◌∷◌, length, length-take, take, replicate, ltb, leb, ◌==◌, if◌then◌else◌,
  load, store, store_fits, overwrite, take-overwrite, length-overwrite, ◌>>=◌, ℤ, pos_part, lebℤ,
  sub_ℕ, arith,
}
use tibia_login_orig.Connection.{Connection, ConnectionState, close_connection, has_socket}
use tibia_login_orig.Reader.{buffer_reader, read_u8, read_bytes}
use tibia_login_orig.Strings.{c_string, string_equals_ignore_case}
use tibia_login_orig.StatusLimit.{StatusRecord, allow_status_request}

abbrev pub is_free : ConnectionState → Bool
is_free state = elim state [ ConnectionState.free ↦ true | _ ↦ false ]

abbrev pub is_processing : ConnectionState → Bool
is_processing state = elim state [ ConnectionState.processing ↦ true | _ ↦ false ]

abbrev pub is_writing : ConnectionState → Bool
is_writing state = elim state [ ConnectionState.writing ↦ true | _ ↦ false ]

-- The table after the call; `none` if no slot is free.
unfoldable pub assign_connection :
    ℕ → ℕ → List ℕ → ℕ → ℕ → List Connection → Option (List Connection)
assign_connection socket addr remote_address now seed [] = none
assign_connection socket addr remote_address now seed (c ∷ cs) =
    let rest = assign_connection socket addr remote_address now seed cs in
    if is_free c.state
    then some (
        record c {
          state = ConnectionState.reading;
          socket = some socket;
          ip_address = addr;
          start_time = now;
          random_seed = seed;
          remote_address = remote_address;
        }
        ∷ cs)
    else rest >>= (λ cs'. some (c ∷ cs'))

-- `memset(connection, 0, sizeof(Connection))` leaves the socket at 0.
unfoldable pub release_connection : Connection → Connection
release_connection c = if is_free c.state then c else record {
  state = ConnectionState.free;
  socket = some 0;
  ip_address = 0;
  start_time = 0;
  rw_size = 0;
  rw_position = 0;
  random_seed = 0;
  xtea = replicate 4 0;
  remote_address = replicate 32 0;
  buffer = replicate 2048 0;
}

-- `hangup` is `(Events & (POLLERR | POLLHUP)) != 0`.
unfoldable pub check_connection : ℤ → ℕ → Bool → Connection → Connection
check_connection connection_timeout now hangup c =
    let c' = if hangup then close_connection c else c in
    let c'' =
      if ltb 0 (pos_part connection_timeout) && lebℤ connection_timeout (sub_ℕ now c'.start_time)
      then close_connection c'
      else c' in
    if has_socket c'' then c'' else release_connection c''

unfoldable pub send_status_string : List ℕ → Connection → Option Connection
send_status_string status_string c =
    if not (is_processing c.state)
    then some (close_connection c)
    else store c.buffer 0 (take 2048 status_string) >>= (λ buffer. some (record c {
      rw_size = min (length status_string) 2048;
      rw_position = 0;
      buffer = buffer;
      state = ConnectionState.writing;
    }))

-- The connection and the table of the rate limit after the call, over the state that
-- `get_status_string` changes.
module _ {S : Type 0} (get_status_string : S → Option (List ℕ × S)) where
  unfoldable pub answer_status : Connection → S → Option (Connection × S)
  answer_status c s =
      get_status_string s
      >>= (λ (status_string, s'). send_status_string status_string c >>= (λ c'. some (c', s')))

  unfoldable pub process_status_request :
      ℤ → ℕ → List StatusRecord → Connection → S → Option (Connection × List StatusRecord × S)
  unfolding answer_status
  process_status_request interval now records c s =
      allow_status_request interval now c.ip_address records >>= (λ (allowed, records').
        if not allowed
        then some (close_connection c, records', s)
        else read_u8 (buffer_reader c.buffer c.rw_size) >>= (λ (command, r).
          read_u8 r >>= (λ (format, r').
            if format == 255
            then read_bytes (replicate 5 0) 4 r' >>= (λ (request, r'').
              if string_equals_ignore_case (c_string request) (b'i' ∷ b'n' ∷ b'f' ∷ b'o' ∷ [])
              then answer_status c s >>= (λ (c', s'). some (c', records', s'))
              else some (close_connection c, records', s))
            else some (close_connection c, records', s))))

-- What `write` gives.
pub data Sent : Type 0 where
  sent : ℕ → Sent
  full : Sent
  failed : Sent

module _ (Stream : Type 0) (transmit : List ℕ → Stream → Sent × Stream) where
  -- `while(true)`: `none` is a read outside the buffer, or spent fuel.
  unfoldable pub write_loop : ℕ → Connection → Stream → Option (Connection × Stream)
  write_loop zero c stream = none
  write_loop (suc fuel) c stream =
      load c.buffer c.rw_position (c.rw_size - c.rw_position) >>= (λ rest.
        let (result, stream') = transmit rest stream in
        elim result [
          | full ↦ some (c, stream')
          | failed ↦ some (close_connection c, stream')
          | sent n ↦
              let c' = record c { rw_position = c.rw_position + n } in
              let again = write_loop fuel c' stream' in
              if leb c.rw_size (c.rw_position + n)
              then some (close_connection c', stream')
              else again
        ])

  unfoldable pub check_connection_output : ℕ → Connection → Stream → Option (Connection × Stream)
  check_connection_output fuel c stream =
      if not (has_socket c) || not (is_writing c.state)
      then some (c, stream)
      else write_loop fuel c stream

-- In processing, the front of a status string, 2048 bytes at most, is put into the buffer to be
-- written, and nothing is written outside it.
pub send_status_string_lem :
    (status_string : List ℕ) (c : Connection)
    → length c.buffer ≡ 2048
    → c.state ≡ ConnectionState.processing
    → (c' : Connection) × (send_status_string status_string c ≡ some c')
      × (take c'.rw_size c'.buffer ≡ take 2048 status_string)
      × (c'.rw_position ≡ 0)
      × (c'.state ≡ ConnectionState.writing)
      × (length c'.buffer ≡ 2048)
      × (c'.rw_size ≤ 2048)
unfolding send_status_string
send_status_string_lem status_string c whole state =
    let room : 0 + length (take 2048 status_string) ≤ length c.buffer =
      omega (arith, length-take 2048 status_string, whole) in
    (
      record c {
        rw_size = min (length status_string) 2048;
        rw_position = 0;
        buffer = overwrite c.buffer 0 (take 2048 status_string);
        state = ConnectionState.writing;
      },
      rw (ap is_processing state, store_fits c.buffer 0 (take 2048 status_string) room),
      take-overwrite c.buffer 0 (take 2048 status_string)
          (omega (arith, length-take 2048 status_string)) (omega (arith, whole)),
      refl,
      refl,
      length-overwrite c.buffer 0 (take 2048 status_string) room ∙ whole,
      omega arith,
    )
