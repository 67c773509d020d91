-- ===== src/Tests/Config.antt =====
-- src/config/config.cpp at a concrete environment.
use tibia_login_orig.Base.{
  ℕ, ◌≡◌, ◌⊎◌, refl, ap, inl, inr, true, false, Bool-cases, Option, none, some, List, [], ◌∷◌,
  length, replicate, length-replicate, ◌==◌, if◌then◌else◌, ℤ, pos, codes, arith,
}
use tibia_login_orig.Config.{ServerConfig, TransportMode, read_config}
use tibia_login_orig.Config.Texts.{IsCString, Prints}
use tibia_login_orig.Config.Loaded.{HasArrays, IsLoaded, read_config-IsLoaded}

-- A name of seventeen letters is set: the password's.
abbrev getenv : List ℕ → Option (List ℕ)
getenv name = if length name == 17 then some (b'k' ∷ b'e' ∷ b'y' ∷ []) else none

abbrev atoi : List ℕ → ℤ
atoi text = pos 0

abbrev value_of : Option (List ℕ) → List ℕ
value_of none = b'k' ∷ []
value_of (some value) = value

values_are_texts : (name value : List ℕ) → getenv name ≡ some value → IsCString value
values_are_texts name value set = elim (Bool-cases (length name == 17)) [
  | inl password ↦
      let same : b'k' ∷ b'e' ∷ b'y' ∷ [] ≡ value = ap value_of (rw password at set) in
      rw (← same) (omega arith)
  | inr other ↦ let clash = rw other at set in cc
]

-- A hash of one digit.
abbrev print : ℕ → List ℕ → List ℕ
print h text = b'7' ∷ 10 ∷ text

print-Prints : Prints print
print-Prints = record {
  number = λ h. b'7' ∷ [];
  digits = λ h. omega arith;
  few = λ h. omega arith;
  prints = λ h text. refl;
}

abbrev zeroed : ServerConfig
zeroed = record {
  login_port = pos 0;
  connection_timeout = pos 0;
  max_connections = pos 0;
  max_status_records = pos 0;
  min_status_interval = pos 0;
  query_manager_host = replicate 100 0;
  query_manager_port = pos 0;
  query_manager_password = replicate 30 0;
  status_world = replicate 30 0;
  url = replicate 100 0;
  location = replicate 30 0;
  server_type = replicate 30 0;
  server_version = replicate 30 0;
  client_version = replicate 30 0;
  motd = replicate 256 0;
  transport_mode = TransportMode.tcp;
  websocket_port = pos 0;
  websocket_address = replicate 16 0;
}

zeroed-HasArrays : HasArrays zeroed
zeroed-HasArrays = record {
  host = length-replicate {A = ℕ} 100 0;
  password = length-replicate {A = ℕ} 30 0;
  world = length-replicate {A = ℕ} 30 0;
  url = length-replicate {A = ℕ} 100 0;
  location = length-replicate {A = ℕ} 30 0;
  server_type = length-replicate {A = ℕ} 30 0;
  server_version = length-replicate {A = ℕ} 30 0;
  client_version = length-replicate {A = ℕ} 30 0;
  motd = length-replicate {A = ℕ} 256 0;
  websocket_address = length-replicate {A = ℕ} 16 0;
}

read_config-IsLoaded_example :
    ((getenv (codes "SENJA_QM_PASSWORD") ≡ none)
      × ((g : ServerConfig) × (read_config getenv atoi print zeroed ≡ some (false, g))))
    ⊎ ((password : List ℕ) × (getenv (codes "SENJA_QM_PASSWORD") ≡ some password)
        × ((g : ServerConfig) × (read_config getenv atoi print zeroed ≡ some (true, g))
            × IsLoaded getenv atoi values_are_texts print print-Prints password g))
read_config-IsLoaded_example =
    read_config-IsLoaded getenv atoi values_are_texts print print-Prints zeroed zeroed-HasArrays
