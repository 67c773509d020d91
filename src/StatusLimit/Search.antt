-- ===== src/StatusLimit/Search.antt =====
-- What the search for an address finds: its first record, or a record whose time is least.
use mathlib.Core.Path.{subst}
use tibia_login_orig.Base.{
  ℕ, zero, suc, ◌+◌, ◌≤◌, ◌<◌, ◌≡◌, refl, sym, ap, ◌∙◌, ◌⊎◌, inl, inr, Option, none, some, List, [],
  ◌∷◌, ltb, ◌==◌, if◌then◌else◌, get_or, set, length, All, arith, Bool-cases,
}
use tibia_login_orig.StatusLimit.{StatusRecord, LeastRecentlyUsed, older, search_records}

-- The record that speaks for an address: the first one that names it.
unfoldable pub record_of : ℕ → List StatusRecord → Option StatusRecord
record_of ip [] = none
record_of ip (r ∷ rs) = let rest = record_of ip rs in if r.ip_address == ip then some r else rest

-- What the search gives when the address has the record `r`.
pub search_finds :
    (ip : ℕ) (rs : List StatusRecord) (i : ℕ) (lru : LeastRecentlyUsed) (r : StatusRecord)
    → record_of ip rs ≡ some r
    → (j : ℕ) × (lru' : LeastRecentlyUsed) × (search_records ip rs i lru ≡ (some (i + j), lru'))
      × ((d : StatusRecord) → get_or rs j d ≡ r)
      × (r.ip_address ≡ ip)
      × ((v : StatusRecord) → v.ip_address ≡ ip → record_of ip (set rs j v) ≡ some v)
unfolding search_records record_of
search_finds ip [] i lru r e = cc
search_finds ip (x ∷ rs) i lru r e = elim (Bool-cases (x.ip_address == ip)) [
  | inl h ↦ (0, older i x lru, grind arith, λ d. grind arith, grind arith, λ v k. grind arith)
  | inr h ↦
      let (j, lru', found, at, named, updated) =
        search_finds ip rs (i + 1) (older i x lru) r (grind arith) in
      (suc j, lru', grind arith, at, named, λ v k. rw (h, updated v k))
]

older_cases :
    (i : ℕ) (r : StatusRecord) (lru : LeastRecentlyUsed)
    → (older i r lru ≡ lru) ⊎ (older i r lru ≡ record { index = i; time = r.timestamp })
older_cases i r lru = elim (Bool-cases (ltb r.timestamp lru.time)) [
  | inl h ↦ inr (rw h)
  | inr h ↦ inl (rw h)
]

older_time :
    (i : ℕ) (r : StatusRecord) (lru : LeastRecentlyUsed)
    → ((older i r lru).time ≤ lru.time) × ((older i r lru).time ≤ r.timestamp)
older_time i r lru = (ground arith, ground arith)

-- What the search gives when no record names the address: the least time of those seen.
search_misses :
    (ip : ℕ) (rs : List StatusRecord) (i : ℕ) (lru : LeastRecentlyUsed)
    → record_of ip rs ≡ none
    → (lru' : LeastRecentlyUsed) × (search_records ip rs i lru ≡ (none, lru'))
      × (lru'.time ≤ lru.time)
      × All (λ r. lru'.time ≤ r.timestamp) rs
      × ((lru' ≡ lru)
          ⊎ ((j : ℕ) × (j < length rs)
              × (lru'.index ≡ i + j)
              × ((d : StatusRecord) → (get_or rs j d).timestamp ≡ lru'.time)))
unfolding search_records record_of
search_misses ip [] i lru e = (lru, refl, omega arith, tt, inl refl)
search_misses ip (x ∷ rs) i lru e = elim (Bool-cases (x.ip_address == ip)) [
  | inl h ↦ absurd (grind arith)
  | inr h ↦
      let (lru', found, least, all, at) =
        search_misses ip rs (i + 1) (older i x lru) (grind arith) in
      (
        lru',
        rw (h, found),
        omega (arith, older_time i x lru, least),
        (omega (arith, older_time i x lru, least), all),
        elim at [
          | inl same ↦ elim (older_cases i x lru) [
            | inl kept ↦ inl (same ∙ kept)
            | inr moved ↦ inr (
              0,
              omega arith,
              ap (λ l. l.index) (same ∙ moved) ∙ omega arith,
              λ d. sym (ap (λ l. l.time) (same ∙ moved)),
            )
          ]
          | inr (j, inside, index, time) ↦ inr (suc j, omega arith, index ∙ omega arith, time)
        ],
      )
]

-- A record that is put where none named its address is the one that speaks for it.
pub record_of-set :
    (ip k : ℕ) (rs : List StatusRecord) (v : StatusRecord)
    → record_of ip rs ≡ none
    → k < length rs
    → v.ip_address ≡ ip
    → record_of ip (set rs k v) ≡ some v
unfolding record_of
record_of-set ip k [] v e h named = absurd (omega arith)
record_of-set ip zero (x ∷ rs) v e h named = grind arith
record_of-set ip (suc k) (x ∷ rs) v e h named = elim (Bool-cases (x.ip_address == ip)) [
  | inl here ↦ absurd (grind arith)
  | inr there ↦ rw (there, record_of-set ip k rs v (grind arith) (omega arith) named)
]

-- Where an address with no record is put: at an index whose time is least.
pub search_oldest :
    (ip : ℕ) (rs : List StatusRecord) (x d : StatusRecord)
    → record_of ip (x ∷ rs) ≡ none
    → (lru : LeastRecentlyUsed) × (search_records ip
          (x ∷ rs)
          0
          (record { index = 0; time = x.timestamp })
        ≡ (none, lru))
      × (lru.index < length (x ∷ rs))
      × All (λ r. (get_or (x ∷ rs) lru.index d).timestamp ≤ r.timestamp) (x ∷ rs)
search_oldest ip rs x d e =
    let (lru, found, least, all, at) =
      search_misses ip (x ∷ rs) 0 (record { index = 0; time = x.timestamp }) e in
    elim at [
      | inl same ↦
          placed lru found 0 (omega arith) (ap (λ l. l.index) same) (sym (ap (λ l. l.time) same))
            all
      | inr (j, inside, index, time) ↦ placed lru found j inside (index ∙ omega arith) (time d) all
    ]
  where
    placed :
        (lru : LeastRecentlyUsed)
        → search_records ip (x ∷ rs) 0 (record { index = 0; time = x.timestamp }) ≡ (none, lru)
        → (j : ℕ) → j < length (x ∷ rs)
        → lru.index ≡ j
        → (get_or (x ∷ rs) j d).timestamp ≡ lru.time
        → All (λ r. lru.time ≤ r.timestamp) (x ∷ rs)
        → (lru : LeastRecentlyUsed) × (search_records ip
              (x ∷ rs)
              0
              (record { index = 0; time = x.timestamp })
            ≡ (none, lru))
          × (lru.index < length (x ∷ rs))
          × All (λ r. (get_or (x ∷ rs) lru.index d).timestamp ≤ r.timestamp) (x ∷ rs)
    placed lru found j inside index time all = (
      lru,
      found,
      omega (arith, index, inside),
      subst (λ t. All (λ r. t ≤ r.timestamp) (x ∷ rs))
          (sym (ap (λ k. (get_or (x ∷ rs) k d).timestamp) index ∙ time)) all,
    )
