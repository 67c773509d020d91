-- ===== src/Query/Client.antt =====
-- `connect` and `execute_query` of src/query/query_client.cpp, with the attempts that a query is given.
pub mod Laws
pub mod Total
pub mod Connect
use tibia_login_orig.Base.{
  ℕ, zero, suc, ◌+◌, ◌-◌, Bool, true, false, not, ◌&&◌, ◌||◌, Option, none, some, List, [], ◌∷◌,
  length, take, if◌then◌else◌, ◌==◌, replicate, get_or, load, ◌>>=◌, ℤ, pos, as_int, lebℤ, pos_part,
}
use tibia_login_orig.ByteOrder.{read_u16_le, read_u32_le}
use tibia_login_orig.Writer.{BufferWriter, write_u8, write_string, overflowed}
use tibia_login_orig.Reader.{BufferReader, buffer_reader, read_u8}
use tibia_login_orig.Query.{
  QueryType, QueryStatus, query_status, ok, Network, QueryClient, is_connected, Answer,
  query_failed, prepare_query, frame_request, resolve_host_name, write_exact, read_exact,
  disconnect,
}

-- What one round of the loop over the attempts comes to.
pub data Attempt : Type 0 where
  finished : Answer → Attempt
  retry : QueryClient → Attempt

-- The size of a response that `help` holds.
abbrev pub short_size : List ℕ → ℕ
short_size help = read_u16_le (get_or help 0 0) (get_or help 1 0)

abbrev pub extended_size : List ℕ → ℤ
extended_size help =
    as_int (read_u32_le (get_or help 0 0) (get_or help 1 0) (get_or help 2 0) (get_or help 3 0))

-- The request that logs in: the application's type, 2, and its password.
unfoldable pub login_request : List ℕ → Option BufferWriter
login_request password =
    prepare_query QueryType.login (replicate 1024 0) 1024
    >>= (λ w. write_u8 2 w >>= write_string password)

module _ {S : Type 0} (net : Network S) where
  -- The round fails for good, and the socket is closed.
  abbrev pub give_up : QueryClient → S → Option (Attempt × S)
  give_up client s =
      let (client', s') = disconnect net client s in some (finished (query_failed client'), s')

  -- A failure that another attempt may mend.
  abbrev pub try_again : QueryClient → S → Option (Attempt × S)
  try_again client s = let (client', s') = disconnect net client s in some (retry client', s')

  -- The payload of a response, into the buffer that held the request.
  unfoldable pub read_payload : ℕ → List ℕ → ℕ → ℤ → QueryClient → S → Option (Attempt × S)
  read_payload fd buffer buffer_size response_size client s =
      if lebℤ response_size (pos 0) || not (lebℤ response_size (pos buffer_size))
      then give_up client s
      else read_exact net (pos_part response_size) fd buffer 0 (pos_part response_size) s
        >>= (λ (complete, buffer', s').
            if not complete
            then give_up client s'
            else read_u8 (buffer_reader buffer' (pos_part response_size)) >>= (λ (status, reader).
              some (
                finished
                    (record { status = query_status status; reader = reader; client = client }),
                s',
              )))

  -- The size behind the escape, of four bytes, and the payload.
  unfoldable pub read_extended : ℕ → List ℕ → List ℕ → ℕ → QueryClient → S → Option (Attempt × S)
  unfolding read_payload
  read_extended fd help buffer buffer_size client s =
      read_exact net 4 fd help 0 4 s >>= (λ (extended, help', s').
        if not extended
        then give_up client s'
        else read_payload fd buffer buffer_size
            (as_int (
              read_u32_le (get_or help' 0 0) (get_or help' 1 0) (get_or help' 2 0)
                (get_or help' 3 0)))
            client s')

  -- The size of a response, of two bytes or behind an escape, and the payload.
  unfoldable pub read_response : ℕ → List ℕ → ℕ → QueryClient → S → Option (Attempt × S)
  unfolding read_payload read_extended
  read_response fd buffer buffer_size client s =
      read_exact net 2 fd (replicate 4 0) 0 2 s >>= (λ (sized, help, s').
        let response_size = short_size help in
        if not sized
        then try_again client s'
        else if response_size == 0xFFFF
        then read_extended fd help buffer buffer_size client s'
        else read_payload fd buffer buffer_size (pos response_size) client s')

  -- A request on a socket, and its response.
  unfoldable pub exchange : ℕ → BufferWriter → QueryClient → S → Option (Attempt × S)
  unfolding read_response
  exchange fd w client s = load w.buffer 0 w.position >>= (λ request.
      write_exact net (length request) fd request s >>= (λ (sent, s').
        if not sent then try_again client s' else read_response fd w.buffer w.size client s'))

  -- The round on a socket, if there is one and it is connected.
  unfoldable pub exchange_on :
      Option ℕ → Bool → BufferWriter → QueryClient → S → Option (Attempt × S)
  unfolding exchange
  exchange_on none connected w client s = some (finished (query_failed client), s)
  exchange_on (some fd) false w client s = some (finished (query_failed client), s)
  exchange_on (some fd) true w client s = exchange fd w client s

  -- `reconnect` is `auto_reconnect && connect(host_, port_, password_)`.
  unfoldable pub attempt :
      (QueryClient → S → Option (Bool × QueryClient × S))
      → BufferWriter
      → QueryClient
      → S
      → Option (Attempt × S)
  unfolding exchange_on
  attempt reconnect w client s =
      (if is_connected client then some (true, client, s) else reconnect client s)
      >>= (λ (connected, client', s'). exchange_on client'.socket connected w client' s')

  -- `for(int attempt = 1; true; attempt += 1)`, by the attempts that are left.
  unfoldable pub attempts :
      (QueryClient → S → Option (Bool × QueryClient × S))
      → ℕ
      → BufferWriter
      → QueryClient
      → S
      → Option (Answer × S)
  unfolding attempt
  attempts reconnect zero w client s = some (query_failed client, s)
  attempts reconnect (suc left) w client s = attempt reconnect w client s >>= (λ (result, s').
      elim result [
        | finished answer ↦ some (answer, s')
        | retry client' ↦ attempts reconnect left w client' s'
      ])

  abbrev pub max_attempts : ℕ
  max_attempts = 2

  unfoldable pub execute_with :
      (QueryClient → S → Option (Bool × QueryClient × S))
      → BufferWriter
      → QueryClient
      → S
      → Option (Answer × S)
  unfolding attempts
  execute_with reconnect w client s = frame_request w >>= (λ w'.
      if overflowed w'
      then some (query_failed client, s)
      else attempts reconnect max_attempts w' client s)

  -- `execute_query(false, …)`
  abbrev pub execute_once : BufferWriter → QueryClient → S → Option (Answer × S)
  execute_once = execute_with (λ client s. some (false, client, s))

  -- The client keeps its socket if the status of the first query is good.
  unfoldable pub logged_in : QueryStatus → QueryClient → S → Bool × QueryClient × S
  logged_in ok client s = (true, client, s)
  logged_in _ client s = let (client', s') = disconnect net client s in (false, client', s')

  -- The first query of a connection.
  unfoldable pub log_in : QueryClient → S → Option (Bool × QueryClient × S)
  unfolding execute_with login_request logged_in
  log_in client s = login_request client.password >>= (λ w.
      execute_once w client s >>= (λ (answer, s'). some (logged_in answer.status answer.client s')))

  -- With a socket: the call of the system, and the first query if it succeeds.
  unfoldable pub connect_with : Option ℕ → ℕ → QueryClient → S → Option (Bool × QueryClient × S)
  unfolding log_in
  connect_with none addr client s = some (false, client, s)
  connect_with (some fd) addr client s =
      let (reached, s') = net.connect_socket fd addr client.port s in
      let client' : QueryClient = record client { socket = some fd } in
      if reached
      then log_in client' s'
      else (let (client'', s'') = disconnect net client' s' in some (false, client'', s''))

  -- With an address: a socket is opened.
  unfoldable pub connect_to : Option ℕ → QueryClient → S → Option (Bool × QueryClient × S)
  unfolding connect_with
  connect_to none client s = some (false, client, s)
  connect_to (some addr) client s =
      let (opened, s') = net.open_socket s in connect_with opened addr client s'

  unfoldable pub connect : List ℕ → ℕ → List ℕ → QueryClient → S → Option (Bool × QueryClient × S)
  unfolding connect_to resolve_host_name
  connect host port password client s =
      let client' : QueryClient = record client {
        host = take 255 host;
        port = port;
        password = take 255 password;
      } in
      let (resolved, s') = resolve_host_name net client'.host s in
      if is_connected client then some (false, client, s) else connect_to resolved client' s'

  -- `connect(host_, port_, password_)`: the arrays are copied onto themselves by `strncpy`, for which that
  -- is undefined.
  unfoldable pub connect_again : QueryClient → S → Option (Bool × QueryClient × S)
  connect_again client s = if is_connected client then some (false, client, s) else none

  -- `execute_query(auto_reconnect, …)`
  unfoldable pub execute_query : Bool → BufferWriter → QueryClient → S → Option (Answer × S)
  unfolding execute_with connect_again
  execute_query false w client s = execute_once w client s
  execute_query true w client s = execute_with connect_again w client s
