-- ===== src/StatusLimit/Laws.antt =====
-- The rate limit of status requests against the first record of an address.
use tibia_login_orig.Base.{
  ℕ, ◌≤◌, ◌<◌, ◌≡◌, refl, sym, ap, ◌∙◌, inl, inr, Bool, true, false, Option, none, some, List, [],
  ◌∷◌, if◌then◌else◌, get_or, set, length, length-set, All, ℤ, lebℤ, sub_ℕ, arith, Bool-cases,
  Option-cases,
}
use tibia_login_orig.StatusLimit.{
  StatusRecord, LeastRecentlyUsed, search_records, decide, allow_status_request,
}
use tibia_login_orig.StatusLimit.Search.{record_of, search_finds, search_oldest, record_of-set}

-- An address is refused exactly inside the interval from the time of its record.
unfoldable pub allowed : ℤ → ℕ → Option StatusRecord → Bool
allowed interval now none = true
allowed interval now (some r) = lebℤ interval (sub_ℕ now r.timestamp)

decide_known :
    (interval : ℤ) (now ip : ℕ) (records : List StatusRecord) (i : ℕ) (lru : LeastRecentlyUsed)
    (r : StatusRecord)
    → get_or records i (record { ip_address = 0; timestamp = 0 }) ≡ r
    → r.ip_address ≡ ip
    → decide interval now ip records (some i, lru) ≡ (
        if lebℤ interval (sub_ℕ now r.timestamp)
        then (true, set records i (record { ip_address = ip; timestamp = now }))
        else (false, records))
unfolding decide
decide_known interval now ip records i lru r at named = rw (at, named)

-- A request is allowed unless the first record of its address is younger than the interval. Then the
-- first record of the address carries the time of the call; after a refusal it is as before.
pub allow_status_request_lem :
    (interval : ℤ) (now ip : ℕ) (records : List StatusRecord)
    → 0 < length records
    → (records' : List StatusRecord) × (allow_status_request interval now ip records
        ≡ some (allowed interval now (record_of ip records), records'))
      × (length records' ≡ length records)
      × (record_of ip records' ≡ (
          if allowed interval now (record_of ip records)
          then some (record { ip_address = ip; timestamp = now })
          else record_of ip records))
unfolding allow_status_request decide allowed
allow_status_request_lem interval now ip [] h = absurd (omega arith)
allow_status_request_lem interval now ip (x ∷ rs) h = elim (Option-cases (record_of ip (x ∷ rs))) [
  | inl missing ↦
      let (lru, found, inside, least) = search_oldest ip rs x x missing in
      (
        set (x ∷ rs) lru.index (record { ip_address = ip; timestamp = now }),
        rw (missing, found),
        length-set (x ∷ rs) lru.index (record { ip_address = ip; timestamp = now }),
        rw (
          missing,
          record_of-set ip lru.index (x ∷ rs) (record { ip_address = ip; timestamp = now }) missing
              inside refl,
        ),
      )
  | inr (r, there) ↦
      let (j, lru, found, at, named, updated) =
        search_finds ip (x ∷ rs) 0 (record { index = 0; time = x.timestamp }) r there in
      let known : decide interval now ip (x ∷ rs)
            (search_records ip (x ∷ rs) 0 (record { index = 0; time = x.timestamp }))
          ≡ (if lebℤ interval (sub_ℕ now r.timestamp)
              then (true, set (x ∷ rs) j (record { ip_address = ip; timestamp = now }))
              else (false, x ∷ rs)) =
        ap (decide interval now ip (x ∷ rs)) (found ∙ ap (λ i. (some i, lru)) (omega arith))
        ∙ decide_known interval now ip (x ∷ rs) j lru r (at _) named in
      elim (Bool-cases (lebℤ interval (sub_ℕ now r.timestamp))) [
        | inl old ↦ (
          set (x ∷ rs) j (record { ip_address = ip; timestamp = now }),
          rw (known, there, old),
          length-set (x ∷ rs) j (record { ip_address = ip; timestamp = now }),
          rw (there, old, updated (record { ip_address = ip; timestamp = now }) refl),
        )
        | inr young ↦ (x ∷ rs, rw (known, there, young), refl, rw (there, young))
      ]
]

-- A refusal leaves the table as it is.
refused :
    (interval : ℤ) (now ip : ℕ) (records : List StatusRecord)
    → 0 < length records
    → allowed interval now (record_of ip records) ≡ false
    → allow_status_request interval now ip records ≡ some (false, records)
unfolding allow_status_request allowed
refused interval now ip [] h young = absurd (omega arith)
refused interval now ip (x ∷ rs) h young = elim (Option-cases (record_of ip (x ∷ rs))) [
  | inl missing ↦ absurd (grind arith)
  | inr (r, there) ↦
      let (j, lru, found, at, named, updated) =
        search_finds ip (x ∷ rs) 0 (record { index = 0; time = x.timestamp }) r there in
      ap some (
        ap (decide interval now ip (x ∷ rs)) (found ∙ ap (λ i. (some i, lru)) (omega arith))
        ∙ decide_known interval now ip (x ∷ rs) j lru r (at _) named
        ∙ ap
            (λ old.
              if old
              then (true, set (x ∷ rs) j (record { ip_address = ip; timestamp = now }))
              else (false, x ∷ rs))
            (sym (ap (allowed interval now) there) ∙ young))
]

-- An address that was allowed is refused if the next request of all is its own, before the interval has
-- passed, whatever its first request
-- found in the table; the refused request changes nothing.
pub second_request_is_refused :
    (interval : ℤ) (now later ip : ℕ) (records : List StatusRecord)
    → 0 < length records
    → allowed interval now (record_of ip records) ≡ true
    → lebℤ interval (sub_ℕ later now) ≡ false
    → (records' : List StatusRecord) × (allow_status_request interval now ip records
        ≡ some (true, records'))
      × (allow_status_request interval later ip records' ≡ some (false, records'))
unfolding allowed
second_request_is_refused interval now later ip records h first early =
    let (records', decided, same, renewed) = allow_status_request_lem interval now ip records h in
    (
      records',
      decided ∙ ap (λ b. some (b, records')) first,
      refused interval later ip records' (omega (arith, same)) (
          ap (allowed interval later) (
            renewed
            ∙ ap
                (λ b.
                  if b
                  then some (record { ip_address = ip; timestamp = now })
                  else record_of ip records)
                first)
          ∙ early),
    )

-- An address that no record names is allowed, and takes the place of a record whose time is least.
pub unknown_address_evicts_the_oldest :
    (interval : ℤ) (now ip : ℕ) (records : List StatusRecord) (d : StatusRecord)
    → 0 < length records
    → record_of ip records ≡ none
    → (k : ℕ) × (k < length records)
      × (allow_status_request interval now ip records
          ≡ some (true, set records k (record { ip_address = ip; timestamp = now })))
      × All (λ r. (get_or records k d).timestamp ≤ r.timestamp) records
unfolding allow_status_request decide
unknown_address_evicts_the_oldest interval now ip [] d h missing = absurd (omega arith)
unknown_address_evicts_the_oldest interval now ip (x ∷ rs) d h missing =
    let (lru, found, inside, least) = search_oldest ip rs x d missing in
    (lru.index, inside, rw found, least)
