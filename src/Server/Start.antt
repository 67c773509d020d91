-- ===== src/Server/Start.antt =====
-- src/network/server.cpp: how the server starts and stops. The main loop of src/main.cpp calls
-- `process_connections` until a signal comes.
use tibia_login_orig.Base.{
  ◌-◌, pos, negsuc, pos_part, ℕ, zero, suc, ◌%◌, ◌^◌, Bool, true, false, not, ◌||◌, Option, none,
  some, List, replicate, if◌then◌else◌, ◌>>=◌, ℤ,
}
use tibia_login_orig.Connection.{Connection, ConnectionState}
use tibia_login_orig.StatusLimit.{StatusRecord}
use tibia_login_orig.Server.{Environment, Format, listener_bind, process_connections}

-- `g_private_key`, `g_listener`, `g_connections` and `g_status_records`; the lists have the lengths
-- `g_max_connections` and `g_max_status_records`.
pub record Globals : Type 0 where
  pub private_key : Bool
  pub listener : Option ℕ
  pub connections : Option (List Connection)
  pub status_records : Option (List StatusRecord)

abbrev pub no_globals : Globals
no_globals = record {
  private_key = false;
  listener = none;
  connections = none;
  status_records = none;
}

-- What `calloc` gives.
abbrev pub zero_connection : Connection
zero_connection = record {
  state = ConnectionState.free;
  socket = some 0;
  ip_address = 0;
  start_time = 0;
  rw_size = 0;
  rw_position = 0;
  random_seed = 0;
  xtea = replicate 4 0;
  remote_address = replicate 32 0;
  buffer = replicate 2048 0;
}

abbrev pub zero_record : StatusRecord
zero_record = record { ip_address = 0; timestamp = 0 }

abbrev pub is_set : {A : Type 0} → Option A → Bool
is_set none = false
is_set (some a) = true

-- `(uint16)` of an `int`.
unfoldable pub port_word : ℤ → ℕ
port_word (pos n) = n % 2 ^ 16
port_word (negsuc n) = (2 ^ 16 - 1) - n % 2 ^ 16

module _ {S : Type 0} (env : Environment S) where
  -- A negative number of slots or records is as good as none, in every loop over them. `none` is a failed assertion. `from_pem_file` says whether there is a key.
  unfoldable pub init_connections :
      (S → Bool × S) → ℤ → ℤ → ℤ → Globals → S → Option (Bool × Globals × S)
  init_connections from_pem_file login_port max_connections max_status_records g s =
      if g.private_key || is_set g.listener || is_set g.connections || is_set g.status_records
      then none
      else let (loaded, s') = from_pem_file s in
        if not loaded
        then some (false, g, s')
        else let (bound, s'') = listener_bind env (port_word login_port) s' in
          elim bound [
            | none ↦ some (false, record g { private_key = true }, s'')
            | some listener ↦ some (
              true,
              record {
                private_key = true;
                listener = some listener;
                connections = some (replicate (pos_part max_connections) zero_connection);
                status_records = some (replicate (pos_part max_status_records) zero_record);
              },
              s'',
            )
          ]

  -- The slots are released and freed.
  unfoldable pub exit_connections : Globals → S → Globals × S
  exit_connections g s = elim g.listener [
    | none ↦ (no_globals, s)
    | some listener ↦ (no_globals, env.close listener s)
  ]

module _ {S : Type 0} (env : Environment S) (login : Connection → S → Option (Connection × S))
    (get_status_string : S → Option (List ℕ × S)) (interval timeout : ℤ) (format : Format)
    (fuel : ℕ) where
  -- `process_connections` over the globals, which are set.
  unfoldable pub serve_round : Globals → S → Option (Globals × S)
  serve_round g s = g.listener >>= (λ listener. g.connections >>= (λ connections.
      g.status_records >>= (λ records.
        process_connections env login get_status_string interval timeout format fuel listener
          connections records s
        >>= (λ (connections', records', s').
            some
              (record g { connections = some connections'; status_records = some records' }, s')))))

  -- `while(g_ShutdownSignal == 0)`, with the signal after so many rounds.
  unfoldable pub main_loop : ℕ → Globals → S → Option (Globals × S)
  unfolding serve_round
  main_loop zero g s = some (g, s)
  main_loop (suc rounds) g s = serve_round g s >>= (λ (g', s'). main_loop rounds g' s')
