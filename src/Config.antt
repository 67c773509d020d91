-- ===== src/Config.antt =====
-- src/config/config.cpp: the configuration from the environment. `getenv` and `atoi` are parameters, and
-- so is the text that the C library prints for "%u\n%s"; a C string is the list of its bytes.
pub mod Texts
pub mod Loaded
use tibia_login_orig.Base.{
  ℕ, ◌-◌, Bool, true, false, not, Option, none, some, List, [], ◌∷◌, ◌++◌, length, take, replicate,
  get_or, store, ◌==◌, ◌>>=◌, if◌then◌else◌, ℤ, pos, codes,
}
use tibia_login_orig.Strings.{c_string, string_copy, string_hash, string_equals_ignore_case}

pub data TransportMode : Type 0 where
  tcp : TransportMode
  websocket : TransportMode
  both : TransportMode

-- "tcp" and "websocket"
abbrev tcp_name : List ℕ
tcp_name = b't' ∷ b'c' ∷ b'p' ∷ []

abbrev websocket_name : List ℕ
websocket_name = b'w' ∷ b'e' ∷ b'b' ∷ b's' ∷ b'o' ∷ b'c' ∷ b'k' ∷ b'e' ∷ b't' ∷ []

unfoldable pub transport_mode : List ℕ → TransportMode
transport_mode mode =
    if string_equals_ignore_case mode tcp_name
    then TransportMode.tcp
    else if string_equals_ignore_case mode websocket_name
    then TransportMode.websocket
    else TransportMode.both

-- The names and texts are arrays.
pub record ServerConfig : Type 0 where
  pub login_port : ℤ
  pub connection_timeout : ℤ
  pub max_connections : ℤ
  pub max_status_records : ℤ
  pub min_status_interval : ℤ
  pub query_manager_host : List ℕ
  pub query_manager_port : ℤ
  pub query_manager_password : List ℕ
  pub status_world : List ℕ
  pub url : List ℕ
  pub location : List ℕ
  pub server_type : List ℕ
  pub server_version : List ℕ
  pub client_version : List ℕ
  pub motd : List ℕ
  pub transport_mode : TransportMode
  pub websocket_port : ℤ
  pub websocket_address : List ℕ

-- The array after `string_buf_copy`.
abbrev pub string_buf_copy : List ℕ → List ℕ → Option (List ℕ)
string_buf_copy dest src = string_copy dest src >>= (λ (fits, dest'). some dest')

-- `vsnprintf` cuts off a text that does not fit, and terminates it.
abbrev pub put_text : List ℕ → List ℕ → Option (List ℕ)
put_text dest text = store dest 0 (take (length dest - 1) text ++ 0 ∷ [])

unfoldable pub parse_motd : (ℕ → List ℕ → List ℕ) → List ℕ → List ℕ → Option (List ℕ)
parse_motd print dest str = string_buf_copy (replicate 256 0) str >>= (λ motd_buf.
    if not (get_or motd_buf 0 0 == 0)
    then put_text dest (print (string_hash (c_string motd_buf)) (c_string motd_buf))
    else some dest)

module _ (getenv : List ℕ → Option (List ℕ)) (atoi : List ℕ → ℤ) where
  unfoldable pub env_str : List ℕ → List ℕ → List ℕ
  env_str name default = elim (getenv name) [ none ↦ default | some value ↦ value ]

  unfoldable pub env_int : List ℕ → ℤ → ℤ
  env_int name default = elim (getenv name) [ none ↦ default | some value ↦ atoi value ]

  -- What follows the password.
  unfoldable pub read_service : (ℕ → List ℕ → List ℕ) → List ℕ → ServerConfig → Option ServerConfig
  unfolding env_str env_int parse_motd transport_mode
  read_service print qm_password g = do
    let message = env_str (codes "SENJA_LOGINSERVER_MOTD") (codes "Welcome to Tibia!")
    password ← string_buf_copy g.query_manager_password qm_password
    status_world ←
        string_buf_copy g.status_world (env_str (codes "SENJA_WORLD_NAME") (codes "Senja"))
    url ← string_buf_copy g.url (env_str (codes "SENJA_LOGINSERVER_URL") [])
    location ← string_buf_copy g.location (env_str (codes "SENJA_LOGINSERVER_LOCATION") [])
    server_type ←
        string_buf_copy g.server_type
          (env_str (codes "SENJA_LOGINSERVER_SERVER_TYPE") (codes "Tibia"))
    server_version ←
        string_buf_copy g.server_version
          (env_str (codes "SENJA_LOGINSERVER_SERVER_VERSION") (codes "7.7"))
    client_version ←
        string_buf_copy g.client_version
          (env_str (codes "SENJA_LOGINSERVER_CLIENT_VERSION") (codes "7.7"))
    cleared ← store g.motd 0 (0 ∷ [])
    motd ← (if get_or message 0 0 == 0 then some cleared else parse_motd print cleared message)
    websocket_address ←
        string_buf_copy g.websocket_address
          (env_str (codes "SENJA_LOGINSERVER_WS_ADDRESS") (codes "0.0.0.0"))
    some (record g {
      query_manager_password = password;
      status_world = status_world;
      url = url;
      location = location;
      server_type = server_type;
      server_version = server_version;
      client_version = client_version;
      motd = motd;
      transport_mode = transport_mode (env_str (codes "SENJA_TRANSPORT_MODE") (codes "both"));
      websocket_port = env_int (codes "SENJA_LOGINSERVER_WS_PORT") (pos 9172);
      websocket_address = websocket_address;
    })

  -- What precedes it.
  abbrev pub with_host : List ℕ → ServerConfig → ServerConfig
  with_host host config = record config {
    login_port = env_int (codes "SENJA_LOGINSERVER_TCP_PORT") (pos 7171);
    connection_timeout = env_int (codes "SENJA_LOGINSERVER_CONNECTION_TIMEOUT") (pos 5);
    max_connections = env_int (codes "SENJA_LOGINSERVER_MAX_CONNECTIONS") (pos 10);
    max_status_records = env_int (codes "SENJA_LOGINSERVER_MAX_STATUS_RECORDS") (pos 1024);
    min_status_interval = env_int (codes "SENJA_LOGINSERVER_MIN_STATUS_INTERVAL") (pos 300);
    query_manager_host = host;
    query_manager_port = env_int (codes "SENJA_QM_PORT") (pos 7173);
  }

  -- The result, and what `*config` is then. Without a password it is left there.
  unfoldable pub read_config : (ℕ → List ℕ → List ℕ) → ServerConfig → Option (Bool × ServerConfig)
  unfolding read_service
  read_config print config =
      string_buf_copy config.query_manager_host
        (env_str (codes "SENJA_QM_HOST") (codes "127.0.0.1"))
      >>= (λ host.
          let g = with_host host config in
          elim (getenv (codes "SENJA_QM_PASSWORD")) [
            | none ↦ some (false, g)
            | some qm_password ↦
                read_service print qm_password g >>= (λ config'. some (true, config'))
          ])
