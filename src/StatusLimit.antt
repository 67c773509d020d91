-- ===== src/StatusLimit.antt =====
-- src/network/server.cpp: the rate limit of status requests, `allow_status_request`. The table
-- `g_status_records` is a list; a time is an uptime in seconds, which is never negative. `none` is
-- the read of the first record of a table that has none.
pub mod Search
pub mod Laws
use tibia_login_orig.Base.{
  ℕ, ◌+◌, Bool, true, false, Option, none, some, List, [], ◌∷◌, ltb, ◌==◌, if◌then◌else◌, get_or,
  set, ℤ, lebℤ, sub_ℕ,
}

pub record StatusRecord : Type 0 where
  pub ip_address : ℕ
  pub timestamp : ℕ

-- The two variables of the search that the loop keeps.
pub record LeastRecentlyUsed : Type 0 where
  pub index : ℕ
  pub time : ℕ

-- `if(g_status_records[i].timestamp < LeastRecentlyUsedTime)`
abbrev pub older : ℕ → StatusRecord → LeastRecentlyUsed → LeastRecentlyUsed
older i r lru = if ltb r.timestamp lru.time then record { index = i; time = r.timestamp } else lru

-- The loop from the index `i` on: where the address stands, if anywhere, and the least recently used
-- index so far.
unfoldable pub search_records :
    ℕ → List StatusRecord → ℕ → LeastRecentlyUsed → Option ℕ × LeastRecentlyUsed
search_records ip [] i lru = (none, lru)
search_records ip (r ∷ rs) i lru =
    let rest = search_records ip rs (i + 1) (older i r lru) in
    if r.ip_address == ip then (some i, older i r lru) else rest

-- The table as the call leaves it, with what the call returns.
unfoldable pub decide :
    ℤ → ℕ → ℕ → List StatusRecord → Option ℕ × LeastRecentlyUsed → Bool × List StatusRecord
decide interval now ip records (none, lru) =
    (true, set records lru.index (record { ip_address = ip; timestamp = now }))
decide interval now ip records (some i, lru) =
    let r = get_or records i (record { ip_address = 0; timestamp = 0 }) in
    if lebℤ interval (sub_ℕ now r.timestamp)
    then (true, set records i (record r { timestamp = now }))
    else (false, records)

-- `interval` is `g_config.min_status_interval` and `now` is `get_monotonic_uptime()`.
unfoldable pub allow_status_request :
    ℤ → ℕ → ℕ → List StatusRecord → Option (Bool × List StatusRecord)
unfolding search_records decide
allow_status_request interval now ip [] = none
allow_status_request interval now ip (r ∷ rs) = some (
    decide interval now ip (r ∷ rs)
      (search_records ip (r ∷ rs) 0 (record { index = 0; time = r.timestamp })))
