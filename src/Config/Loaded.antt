-- ===== src/Config/Loaded.antt =====
-- The configuration that src/config/config.cpp loads from the environment.
use tibia_login_orig.Base.{
  ℕ, ◌≤◌, ◌≡◌, refl, ◌∙◌, ◌⊎◌, inl, inr, true, false, ◌==◌, Option, none, some, Option-cases, List,
  [], ◌∷◌, length, get_or, store, store_fits, overwrite, take-overwrite, length-overwrite, pos,
  if◌then◌else◌, ℤ, codes, arith,
}
use tibia_login_orig.Strings.{c_string}
use tibia_login_orig.Config.{
  ServerConfig, string_buf_copy, parse_motd, transport_mode, env_str, env_int, with_host,
  read_service, read_config,
}
use tibia_login_orig.Config.Texts.{
  IsCString, c_string_lem, Holds, string_buf_copy-Holds, Prints, motd_of, parse_motd-Holds,
}

-- The arrays of a configuration, which the names and texts are copied to.
pub record HasArrays (g : ServerConfig) : Type 0 where
  pub host : length g.query_manager_host ≡ 100
  pub password : length g.query_manager_password ≡ 30
  pub world : length g.status_world ≡ 30
  pub url : length g.url ≡ 100
  pub location : length g.location ≡ 30
  pub server_type : length g.server_type ≡ 30
  pub server_version : length g.server_version ≡ 30
  pub client_version : length g.client_version ≡ 30
  pub motd : length g.motd ≡ 256
  pub websocket_address : length g.websocket_address ≡ 16

module _ (getenv : List ℕ → Option (List ℕ)) (atoi : List ℕ → ℤ)
    (c_strings : (name value : List ℕ) → getenv name ≡ some value → IsCString value)
    (print : ℕ → List ℕ → List ℕ) (p : Prints print) where
  -- The texts of a configuration that is loaded.
  pub record IsLoaded (password : List ℕ) (g : ServerConfig) : Type 0 where
    pub host :
        Holds 100
          (env_str getenv atoi (codes "SENJA_QM_HOST") (codes "127.0.0.1"))
          g.query_manager_host
    pub password_kept : Holds 30 password g.query_manager_password
    pub world :
        Holds 30 (env_str getenv atoi (codes "SENJA_WORLD_NAME") (codes "Senja")) g.status_world
    pub url : Holds 100 (env_str getenv atoi (codes "SENJA_LOGINSERVER_URL") []) g.url
    pub location : Holds 30 (env_str getenv atoi (codes "SENJA_LOGINSERVER_LOCATION") []) g.location
    pub server_type :
        Holds 30
          (env_str getenv atoi (codes "SENJA_LOGINSERVER_SERVER_TYPE") (codes "Tibia"))
          g.server_type
    pub server_version :
        Holds 30
          (env_str getenv atoi (codes "SENJA_LOGINSERVER_SERVER_VERSION") (codes "7.7"))
          g.server_version
    pub client_version :
        Holds 30
          (env_str getenv atoi (codes "SENJA_LOGINSERVER_CLIENT_VERSION") (codes "7.7"))
          g.client_version
    pub motd :
        c_string g.motd
        ≡ motd_of print p
            (env_str getenv atoi (codes "SENJA_LOGINSERVER_MOTD") (codes "Welcome to Tibia!"))
    pub websocket_address :
        Holds 16
          (env_str getenv atoi (codes "SENJA_LOGINSERVER_WS_ADDRESS") (codes "0.0.0.0"))
          g.websocket_address

  env_str-IsCString :
      (name default : List ℕ) → IsCString default → IsCString (env_str getenv atoi name default)
  unfolding env_str
  env_str-IsCString name default h = elim (Option-cases (getenv name)) [
    | inl unset ↦ rw (unset, env_str) h
    | inr (value, set) ↦ rw (set, env_str) (c_strings name value set)
  ]

  load_motd :
      (dest message : List ℕ)
      → length dest ≡ 256
      → IsCString message
      → (cleared motd : List ℕ) × (store dest 0 (0 ∷ []) ≡ some cleared)
        × ((if get_or message 0 0 == 0 then some cleared else parse_motd print cleared message)
            ≡ some motd)
        × (c_string motd ≡ motd_of print p message)
  unfolding motd_of
  load_motd dest [] size h = (
    overwrite dest 0 (0 ∷ []),
    overwrite dest 0 (0 ∷ []),
    store_fits dest 0 (0 ∷ []) (omega (arith, size)),
    refl,
    c_string_lem [] _ tt (take-overwrite dest 0 (0 ∷ []) refl (omega (arith, size))),
  )
  load_motd dest (c ∷ message) size h =
      let there : (c == 0) ≡ false = ground (arith, h.0) in
      let (motd, run, _, text) =
        parse_motd-Holds print p (overwrite dest 0 (0 ∷ [])) (c ∷ message)
          (length-overwrite dest 0 (0 ∷ []) (omega (arith, size)) ∙ size)
          (c_string_lem [] _ tt (take-overwrite dest 0 (0 ∷ []) refl (omega (arith, size)))) h in
      (
        overwrite dest 0 (0 ∷ []),
        motd,
        store_fits dest 0 (0 ∷ []) (omega (arith, size)),
        rw there run,
        text,
      )

  copies :
      (n : ℕ) (dest name default : List ℕ)
      → length dest ≡ n
      → 1 ≤ n
      → IsCString default
      → (dest' : List ℕ) × (string_buf_copy dest (env_str getenv atoi name default) ≡ some dest')
        × Holds n (env_str getenv atoi name default) dest'
  copies n dest name default size room h =
      string_buf_copy-Holds n dest (env_str getenv atoi name default) size room
        (env_str-IsCString name default h)

  -- With a password in the environment, which is all that is required, the configuration is loaded:
  -- each name and text, of the environment or its default, is in its array, or the array is empty if
  -- there is no room for it, and the message of the day is behind the line of its hash, cut off to fit.
  -- Without a password the result is false. Nothing is written outside the arrays.
  pub read_config-IsLoaded :
      (config : ServerConfig)
      → HasArrays config
      → ((getenv (codes "SENJA_QM_PASSWORD") ≡ none)
          × ((g : ServerConfig) × (read_config getenv atoi print config ≡ some (false, g))))
        ⊎ ((password : List ℕ) × (getenv (codes "SENJA_QM_PASSWORD") ≡ some password)
            × ((g : ServerConfig) × (read_config getenv atoi print config ≡ some (true, g))
                × IsLoaded password g))
  unfolding read_config
  read_config-IsLoaded config a =
      let (host, host_run, host_held) =
        copies 100 config.query_manager_host (codes "SENJA_QM_HOST") (codes "127.0.0.1") a.host
          (omega arith) (omega arith) in
      let (world, world_run, world_held) =
        copies 30 config.status_world (codes "SENJA_WORLD_NAME") (codes "Senja") a.world
          (omega arith) (omega arith) in
      let (url, url_run, url_held) =
        copies 100 config.url (codes "SENJA_LOGINSERVER_URL") [] a.url (omega arith) tt in
      let (location, location_run, location_held) =
        copies 30 config.location (codes "SENJA_LOGINSERVER_LOCATION") [] a.location (omega arith)
          tt in
      let (type, type_run, type_held) =
        copies 30 config.server_type (codes "SENJA_LOGINSERVER_SERVER_TYPE") (codes "Tibia")
          a.server_type (omega arith) (omega arith) in
      let (version, version_run, version_held) =
        copies 30 config.server_version (codes "SENJA_LOGINSERVER_SERVER_VERSION") (codes "7.7")
          a.server_version (omega arith) (omega arith) in
      let (client, client_run, client_held) =
        copies 30 config.client_version (codes "SENJA_LOGINSERVER_CLIENT_VERSION") (codes "7.7")
          a.client_version (omega arith) (omega arith) in
      let (address, address_run, address_held) =
        copies 16 config.websocket_address (codes "SENJA_LOGINSERVER_WS_ADDRESS") (codes "0.0.0.0")
          a.websocket_address (omega arith) (omega arith) in
      let (cleared, motd, clear_run, motd_run, motd_held) =
        load_motd config.motd
          (env_str getenv atoi (codes "SENJA_LOGINSERVER_MOTD") (codes "Welcome to Tibia!")) a.motd
          (env_str-IsCString (codes "SENJA_LOGINSERVER_MOTD") (codes "Welcome to Tibia!")
            (omega arith)) in
      elim (Option-cases (getenv (codes "SENJA_QM_PASSWORD"))) [
        | inl unset ↦ inl (unset, (with_host getenv atoi host config, rw (host_run, unset) refl))
        | inr (password, set) ↦
            let (kept, password_run, password_held) =
              string_buf_copy-Holds 30 config.query_manager_password password a.password
                (omega arith) (c_strings (codes "SENJA_QM_PASSWORD") password set) in
            inr (
              password,
              set,
              (
                record (with_host getenv atoi host config) {
                  query_manager_password = kept;
                  status_world = world;
                  url = url;
                  location = location;
                  server_type = type;
                  server_version = version;
                  client_version = client;
                  motd = motd;
                  transport_mode =
                      transport_mode
                        (env_str getenv atoi (codes "SENJA_TRANSPORT_MODE") (codes "both"));
                  websocket_port =
                      env_int getenv atoi (codes "SENJA_LOGINSERVER_WS_PORT") (pos 9172);
                  websocket_address = address;
                },
                rw
                    (
                      host_run, set, read_service, password_run, world_run, url_run, location_run,
                      type_run, version_run, client_run, clear_run, motd_run, address_run,
                    )
                    refl,
                record {
                  host = host_held;
                  password_kept = password_held;
                  world = world_held;
                  url = url_held;
                  location = location_held;
                  server_type = type_held;
                  server_version = version_held;
                  client_version = client_held;
                  motd = motd_held;
                  websocket_address = address_held;
                },
              ),
            )
      ]
