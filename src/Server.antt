-- ===== src/Server.antt =====
-- src/network/server.cpp: the listener, and `process_connections` over the table of connections. The
-- calls of the system are an `Environment` over its state; the login handler and `get_status_string`
-- are arguments. `none` is what it is in `Connection`, a failed assertion, or spent fuel.
pub mod Request
pub mod Login
pub mod Cycle
pub mod Accept
pub mod Table
pub mod Start
pub mod Mended
pub mod Serving
use tibia_login_orig.Base.{
  ℕ, zero, suc, ◌+◌, Bool, true, false, not, ◌&&◌, ◌||◌, Option, none, some, List, [], ◌∷◌, map,
  get_elem?, get_or, set, ltb, ◌==◌, if◌then◌else◌, replicate, ◌>>=◌, ℤ,
}
use tibia_login_orig.Connection.{
  Connection, ConnectionState, Received, close_connection, has_socket, check_connection_input,
}
use tibia_login_orig.Connection.Life.{
  is_free, is_processing, is_writing, assign_connection, release_connection, check_connection, Sent,
  check_connection_output, process_status_request,
}
use tibia_login_orig.StatusLimit.{StatusRecord}

-- The events of a socket: POLLIN, and POLLERR or POLLHUP.
pub record Events : Type 0 where
  pub pollin : Bool
  pub hangup : Bool

-- `none` is the result -1; a Boolean is false for it. A free socket is a number.
pub record Environment (S : Type 0) : Type 0 where
  pub open_socket : S → Option ℕ × S
  pub reuse_address : ℕ → S → Bool × S
  pub set_nonblocking : ℕ → S → Bool × S
  pub bind : ℕ → ℕ → S → Bool × S
  pub listen : ℕ → S → Bool × S
  pub accept : ℕ → S → Option (ℕ × ℕ × ℕ) × S
  pub close : ℕ → S → S
  pub receive : ℕ → ℕ → S → Received × S
  pub transmit : ℕ → List ℕ → S → Sent × S
  pub poll : List (Option ℕ × Bool) → S → Option (List Events) × S
  pub rand : S → ℕ × S
  pub get_monotonic_uptime : S → ℕ

-- "%d.%d.%d.%d:%d" of an address and a port, in its array.
abbrev pub Format : Type 0
Format = ℕ → ℕ → List ℕ

abbrev pub socket_of : Connection → ℕ
socket_of c = elim c.socket [ none ↦ 0 | some socket ↦ socket ]

module _ {S : Type 0} (env : Environment S) where
  -- A step of `listener_bind` behind the socket: if it fails, the socket is closed.
  abbrev pub or_close : ℕ → Bool × S → (S → Option ℕ × S) → Option ℕ × S
  or_close socket (true, s) next = next s
  or_close socket (false, s) next = (none, env.close socket s)

  unfoldable pub listener_bind : ℕ → S → Option ℕ × S
  listener_bind port s =
      let (opened, s') = env.open_socket s in
      elim opened [
        | none ↦ (none, s')
        | some socket ↦ or_close socket (env.reuse_address socket s') (λ s1.
            or_close socket (env.set_nonblocking socket s1) (λ s2.
              or_close socket (env.bind socket port s2)
                (λ s3. or_close socket (env.listen socket s3) (λ s4. (some socket, s4)))))
      ]

  -- `while(true)`, on fuel: a socket, with its address and port.
  unfoldable pub listener_accept : ℕ → ℕ → S → Option (Option (ℕ × ℕ × ℕ) × S)
  listener_accept zero listener s = none
  listener_accept (suc fuel) listener s =
      let (accepted, s') = env.accept listener s in
      elim accepted [
        | none ↦ some (none, s')
        | some (socket, addr, port) ↦
            let (set_up, s'') = env.set_nonblocking socket s' in
            let again = listener_accept fuel listener (env.close socket s'') in
            if set_up then some (some (socket, addr, port), s'') else again
      ]

  -- A connection is assigned to a slot, or turned away. What is assigned takes a number from `rand`.
  unfoldable pub admit : Format → ℕ × ℕ × ℕ → List Connection → S → List Connection × S
  admit format (socket, addr, port) connections s =
      let (seed, s') = env.rand s in
      elim (assign_connection socket addr (format addr port) (env.get_monotonic_uptime s) seed
        connections) [
          | none ↦ (connections, env.close socket s)
          | some connections' ↦ (connections', s')
        ]

  -- `while(true)`
  unfoldable pub accept_loop : Format → ℕ → ℕ → List Connection → S → Option (List Connection × S)
  unfolding listener_accept admit
  accept_loop format zero listener connections s = none
  accept_loop format (suc fuel) listener connections s =
      listener_accept (suc fuel) listener s >>= (λ (accepted, s'). elim accepted [
        | none ↦ some (connections, s')
        | some client ↦
            let (connections', s'') = admit format client connections s' in
            accept_loop format fuel listener connections' s''
      ])

  unfoldable pub accept_connections :
      Format → ℕ → ℕ → Events → List Connection → S → Option (List Connection × S)
  unfolding accept_loop
  accept_connections format fuel listener events connections s =
      if not events.pollin
      then some (connections, s)
      else accept_loop format fuel listener connections s

-- `Fds` and `ConnectionIndices`, from the slot `i` on: the socket and whether it is polled for output.
unfoldable pub poll_set : ℕ → List Connection → List (ℕ × (Option ℕ × Bool))
poll_set i [] = []
poll_set i (c ∷ cs) =
    let rest = poll_set (i + 1) cs in
    if is_free c.state then rest else (i, (c.socket, is_writing c.state)) ∷ rest

abbrev pub no_events : Events
no_events = record { pollin = false; hangup = false }

-- The events of the sockets behind the listener's, in the order in which they were polled.
abbrev pub with_events : List (ℕ × (Option ℕ × Bool)) → List Events → List (ℕ × Events)
with_events [] es = []
with_events ((i, fd) ∷ slots) [] = (i, no_events) ∷ with_events slots []
with_events ((i, fd) ∷ slots) (e ∷ es) = (i, e) ∷ with_events slots es

module _ {S : Type 0} (env : Environment S)
    (process_login_request : Connection → S → Option (Connection × S))
    (get_status_string : S → Option (List ℕ × S)) (min_status_interval connection_timeout : ℤ) where
  -- By the command.
  unfoldable pub check_command :
      ℕ → Connection → List StatusRecord → S → Option (Connection × List StatusRecord × S)
  check_command command c records s =
      if command == 1
      then process_login_request c s >>= (λ (c', s'). some (c', records, s'))
      else if command == 255
      then process_status_request get_status_string min_status_interval (env.get_monotonic_uptime s)
          records c s
      else some (close_connection c, records, s)

  unfoldable pub check_connection_request :
      Connection → List StatusRecord → S → Option (Connection × List StatusRecord × S)
  unfolding check_command
  check_connection_request c records s =
      if not (has_socket c) || not (is_processing c.state)
      then some (c, records, s)
      else if not (ltb 0 c.rw_size)
      then none
      else check_command (get_or c.buffer 0 0) c records s

  -- What `process_connections` does for a connection. A response of 2048 bytes at most is written in
  -- as many rounds at most.
  unfoldable pub serve :
      Events → Connection → List StatusRecord → S → Option (Connection × List StatusRecord × S)
  unfolding check_connection_request
  serve events c records s =
      check_connection_input S (env.receive (socket_of c)) events.pollin c s >>= (λ (c1, s1).
        check_connection_request c1 records s1 >>= (λ (c2, records', s2).
          check_connection_output S (env.transmit (socket_of c2)) 2049 c2 s2 >>= (λ (c3, s3). some (
            check_connection connection_timeout (env.get_monotonic_uptime s3) events.hangup c3,
            records',
            s3,
          ))))

  -- The loop over what was polled, behind the listener. A slot that is not in the table is logged.
  unfoldable pub serve_all :
      List (ℕ × Events)
      → List Connection
      → List StatusRecord
      → S
      → Option (List Connection × List StatusRecord × S)
  unfolding serve
  serve_all [] connections records s = some (connections, records, s)
  serve_all ((i, events) ∷ polled) connections records s = elim (get_elem? connections i) [
    | none ↦ serve_all polled connections records s
    | some c ↦
        serve events c records s
        >>= (λ (c', records', s'). serve_all polled (set connections i c') records' s')
  ]

  -- A poll that fails is logged. There is a listener.
  unfoldable pub process_connections :
      Format
      → ℕ
      → ℕ
      → List Connection
      → List StatusRecord
      → S
      → Option (List Connection × List StatusRecord × S)
  unfolding accept_connections serve_all poll_set
  process_connections format fuel listener connections records s =
      let slots = poll_set 0 connections in
      let (polled, s') = env.poll ((some listener, false) ∷ map (λ slot. slot.1) slots) s in
      elim polled [
        | none ↦ some (connections, records, s')
        | some [] ↦ serve_all (with_events slots []) connections records s'
        | some (e ∷ es) ↦
            accept_connections env format fuel listener e connections s'
            >>= (λ (connections', s''). serve_all (with_events slots es) connections' records s'')
      ]
