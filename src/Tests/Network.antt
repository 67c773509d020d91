-- ===== src/Tests/Network.antt =====
-- src/network at concrete inputs.
use tibia_login_orig.Base.{
  ℕ, ◌≤◌, ◌<◌, ◌≡◌, refl, true, false, some, List, [], ◌∷◌, length, get_or, set, All, pos, arith,
  if◌then◌else◌,
}
use tibia_login_orig.Base.{take, drop, replicate, length-take, length-replicate}
use tibia_login_orig.Connection.{Connection, ConnectionState, Received, check_connection_input}
use tibia_login_orig.Connection.Input.{Within, Settled, check_connection_input-Settled}
use tibia_login_orig.Connection.Life.{send_status_string, send_status_string_lem}
use tibia_login_orig.Config.{TransportMode, transport_mode}
use tibia_login_orig.Strings.{string_equals_ignore_case, tolower}
use tibia_login_orig.StatusLimit.{StatusRecord, allow_status_request}
use tibia_login_orig.StatusLimit.Search.{record_of}
use tibia_login_orig.StatusLimit.Laws.{
  allowed, allow_status_request_lem, second_request_is_refused, unknown_address_evicts_the_oldest,
}

-- A socket that has some bytes ready, and then none for now.
abbrev receive_ready : ℕ → List ℕ → Received × List ℕ
receive_ready count [] = (Received.again, [])
receive_ready count (b ∷ bs) = (Received.bytes (take count (b ∷ bs)), drop count (b ∷ bs))

receive_ready-Within : (count : ℕ) (ready : List ℕ) → Within count (receive_ready count ready).0
unfolding Within
receive_ready-Within count [] = tt
receive_ready-Within count (b ∷ bs) = omega (arith, length-take count (b ∷ bs))

abbrev fresh : Connection
fresh = record {
  state = ConnectionState.reading;
  socket = some 5;
  ip_address = 7;
  start_time = 0;
  rw_size = 0;
  rw_position = 0;
  random_seed = 1;
  xtea = replicate 4 0;
  remote_address = replicate 32 0;
  buffer = replicate 2048 0;
}

check_connection_input-Settled_example :
    (c' : Connection) × (ready : List ℕ) × (check_connection_input
        (List ℕ)
        receive_ready
        true
        fresh
        (2 ∷ 0 ∷ 0xFF ∷ [])
      ≡ some (c', ready))
    × Settled c'
check_connection_input-Settled_example =
    check_connection_input-Settled (List ℕ) receive_ready receive_ready-Within true fresh
      (2 ∷ 0 ∷ 0xFF ∷ [])
      (record {
        whole = length-replicate {A = ℕ} 2048 0;
        bounded = omega arith;
        waits = omega arith;
        in_state = refl;
      })

send_status_string_lem_example :
    (c' : Connection) × (send_status_string
        (b'o' ∷ b'k' ∷ [])
        (record fresh { state = ConnectionState.processing })
      ≡ some c')
    × (take c'.rw_size c'.buffer ≡ b'o' ∷ b'k' ∷ [])
    × (c'.rw_position ≡ 0)
    × (c'.state ≡ ConnectionState.writing)
    × (length c'.buffer ≡ 2048)
    × (c'.rw_size ≤ 2048)
send_status_string_lem_example =
    send_status_string_lem (b'o' ∷ b'k' ∷ []) (record fresh { state = ConnectionState.processing })
      (length-replicate {A = ℕ} 2048 0) refl

-- Two addresses, the second heard of first.
abbrev records : List StatusRecord
records = record { ip_address = 7; timestamp = 90 } ∷ record { ip_address = 8; timestamp = 50 } ∷ []

allow_status_request_lem_example :
    (records' : List StatusRecord) × (allow_status_request (pos 60) 100 7 records
      ≡ some (allowed (pos 60) 100 (record_of 7 records), records'))
    × (length records' ≡ 2)
    × (record_of 7 records' ≡ (
        if allowed (pos 60) 100 (record_of 7 records)
        then some (record { ip_address = 7; timestamp = 100 })
        else record_of 7 records))
allow_status_request_lem_example = allow_status_request_lem (pos 60) 100 7 records (omega arith)

second_request_is_refused_example :
    (records' : List StatusRecord) × (allow_status_request (pos 60) 120 8 records
      ≡ some (true, records'))
    × (allow_status_request (pos 60) 179 8 records' ≡ some (false, records'))
unfolding allowed record_of
second_request_is_refused_example =
    second_request_is_refused (pos 60) 120 179 8 records (omega arith) refl refl

unknown_address_evicts_the_oldest_example :
    (k : ℕ) × (k < 2)
    × (allow_status_request (pos 60) 100 9 records
        ≡ some (true, set records k (record { ip_address = 9; timestamp = 100 })))
    × All
        (λ r. (get_or records k (record { ip_address = 0; timestamp = 0 })).timestamp ≤ r.timestamp)
        records
unfolding record_of
unknown_address_evicts_the_oldest_example =
    unknown_address_evicts_the_oldest (pos 60) 100 9 records
      (record { ip_address = 0; timestamp = 0 }) (omega arith) refl

-- A mode is read whatever its case, and any other word means both.
mode_of_upper_case : transport_mode (b'T' ∷ b'C' ∷ b'P' ∷ []) ≡ TransportMode.tcp
unfolding transport_mode string_equals_ignore_case tolower
mode_of_upper_case = refl

mode_of_other : transport_mode (b'u' ∷ b'd' ∷ b'p' ∷ []) ≡ TransportMode.both
unfolding transport_mode string_equals_ignore_case tolower
mode_of_other = refl
