-- ===== src/Status.antt =====
-- src/status/status_handler.cpp: the status page and its cache. The query for the world is an argument,
-- `get_world` with the configured world, and `now` is `time(NULL)`.
pub mod Cache
use tibia_login_orig.Base.{
  ℕ, Bool, false, not, ◌&&◌, Option, some, List, [], ◌∷◌, ltb, ◌==◌, if◌then◌else◌, replicate,
  ◌>>=◌, ℤ, pos, negsuc, suc, zero, lebℤ, sub_ℕ, add_int, codes,
}
use tibia_login_orig.Query.Requests.{WorldInfo}
use tibia_login_orig.Strings.{c_string}
use tibia_login_orig.Xml.{
  XmlBuffer, Argument, xml_append_string, xml_append_format, xml_null_terminate,
}

-- The strings of the configuration that the page shows.
pub record Service : Type 0 where
  pub url : List ℕ
  pub location : List ℕ
  pub server_type : List ℕ
  pub server_version : List ℕ
  pub client_version : List ℕ
  pub motd : List ℕ

-- `g_last_status_refresh` and `g_status_string`, an array of 2048 bytes.
pub record StatusCache : Type 0 where
  pub last_status_refresh : ℕ
  pub status_string : List ℕ

abbrev pub empty_cache : StatusCache
empty_cache = record { last_status_refresh = 0; status_string = replicate 2048 0 }

-- What the page shows of the world.
pub record StatusInfo : Type 0 where
  pub world_name : List ℕ
  pub uptime : ℤ
  pub num_players : ℕ
  pub max_players : ℕ
  pub online_peak : ℕ

abbrev pub no_info : StatusInfo
no_info = record {
  world_name = [];
  uptime = pos 0;
  num_players = 0;
  max_players = 0;
  online_peak = 0;
}

abbrev pub opposite : ℤ → ℤ
opposite (pos zero) = pos zero
opposite (pos (suc n)) = negsuc n
opposite (negsuc n) = pos (suc n)

abbrev pub is_zero : ℤ → Bool
is_zero (pos n) = n == 0
is_zero (negsuc n) = false

unfoldable pub uptime_of : ℕ → WorldInfo → Option ℤ
uptime_of now world =
    if not (is_zero world.last_startup) && not (lebℤ world.last_startup world.last_shutdown)
    then add_int (pos now) (opposite world.last_startup)
    else some (pos 0)

unfoldable pub world_info : ℕ → WorldInfo → Option StatusInfo
unfolding uptime_of
world_info now world = uptime_of now world >>= (λ uptime. some (record {
  world_name = c_string world.name;
  uptime = uptime;
  num_players = world.num_players;
  max_players = world.max_players;
  online_peak =
      if ltb world.online_peak world.num_players then world.num_players else world.online_peak;
}))

-- The message of the day behind its first line.
unfoldable pub skip_line : List ℕ → List ℕ
skip_line [] = []
skip_line (c ∷ motd) = let rest = skip_line motd in if c == 10 then motd else rest

abbrev pub server_format : List ℕ
server_format =
    codes
      "<serverinfo servername=\"%s\" uptime=\"%d\" url=\"%s\" location=\"%s\" server=\"%s\" version=\"%s\" client=\"%s\"/>"

unfoldable pub write_page : Service → StatusInfo → XmlBuffer → Option XmlBuffer
unfolding skip_line
write_page service info b =
    xml_append_string (codes "<?xml version=\"1.0\" encoding=\"UTF-8\"?>") b
    >>= xml_append_string (codes "<tsqp version=\"1.0\">")
    >>= xml_append_format server_format (
        Argument.string info.world_name
        ∷ Argument.number info.uptime
        ∷ Argument.string service.url
        ∷ Argument.string service.location
        ∷ Argument.string service.server_type
        ∷ Argument.string service.server_version
        ∷ Argument.string service.client_version
        ∷ [])
    >>= xml_append_format (codes "<players online=\"%d\" max=\"%d\" peak=\"%d\"/>") (
        Argument.number (pos info.num_players)
        ∷ Argument.number (pos info.max_players)
        ∷ Argument.number (pos info.online_peak)
        ∷ [])
    >>= xml_append_format (codes "<motd>%s</motd>") (Argument.string (skip_line service.motd) ∷ [])
    >>= xml_append_string (codes "</tsqp>")
    >>= xml_null_terminate

module _ {S : Type 0} (get_world : S → Option (ℤ × WorldInfo × S)) where
  -- What there is to show: nothing if the query fails.
  unfoldable pub ask_world : ℕ → S → Option (StatusInfo × S)
  unfolding world_info
  ask_world now s = get_world s >>= (λ (result, world, s').
      if is_zero result
      then world_info now world >>= (λ info. some (info, s'))
      else some (no_info, s'))

  -- The result is `g_status_string`, which the cache after the call holds.
  unfoldable pub get_status_string :
      Service → ℤ → ℕ → StatusCache → S → Option (List ℕ × StatusCache × S)
  unfolding ask_world write_page
  get_status_string service min_status_interval now cache s =
      if lebℤ min_status_interval (sub_ℕ now cache.last_status_refresh)
      then ask_world now s >>= (λ (info, s').
        write_page service info (record { bytes = cache.status_string; size = 2048; position = 0 })
        >>= (λ b.
            some (
              c_string b.bytes,
              record { last_status_refresh = now; status_string = b.bytes },
              s',
            )))
      else some (c_string cache.status_string, cache, s)
