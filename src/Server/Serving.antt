-- ===== src/Server/Serving.antt =====
-- A server of src/network/server.cpp from its start through any number of rounds.
use tibia_login_orig.Base.{◌>>=◌, ℕ, ◌<◌, ◌≡◌, Option, some, List, length, All}
use tibia_login_orig.Connection.{Connection}
use tibia_login_orig.StatusLimit.{StatusRecord}
use tibia_login_orig.Query.{QueryClient, Answer}
use tibia_login_orig.Writer.{BufferWriter}
use tibia_login_orig.Rsa.{Rsa}
use tibia_login_orig.Login.Request.{process_login_request}
use tibia_login_orig.Server.Cycle.{IsSlot}
use tibia_login_orig.Server.Start.{Globals}

-- The globals of a server that runs, with so many slots.
pub record IsServing (slots : ℕ) (g : Globals) : Type 0 where
  pub listener : ℕ
  pub connections : List Connection
  pub records : List StatusRecord
  pub listens : g.listener ≡ some listener
  pub table : g.connections ≡ some connections
  pub limit : g.status_records ≡ some records
  pub well_formed : All IsSlot connections
  pub same_slots : length connections ≡ slots
  pub some_records : 0 < length records

module _ {T : Type 0} (rand_r : ℕ → ℕ × ℕ) (rsa : Option Rsa)
    (execute_query : BufferWriter → QueryClient → T → Option (Answer × T)) (ip_string : ℕ → List ℕ)
    (motd : List ℕ) where
  -- The call of the login handler on the connection, over the query client and the rest.
  abbrev pub handler : Connection → QueryClient × T → Option (Connection × (QueryClient × T))
  handler c (client, t) =
      process_login_request rand_r rsa execute_query ip_string motd c client t
      >>= (λ (c', client', t'). some (c', (client', t')))
