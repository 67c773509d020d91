-- ===== src/Query/Requests/Worlds.antt =====
-- The choice of a world in src/query/world_query.cpp, against what it means to choose.
use tibia_login_orig.Base.{
  ℕ, zero, suc, ◌≤◌, ◌<◌, ◌≡◌, refl, sym, ap, inl, inr, Bool, true, false, ◌||◌, Bool-cases, Option,
  none, some, Option-cases, List, [], ◌∷◌, take, get_elem?, All, ltb, if◌then◌else◌, ◌>>=◌, arith,
}
use tibia_login_orig.Strings.{c_string, string_empty, string_equals_ignore_case}
use tibia_login_orig.Reader.{BufferReader}
use tibia_login_orig.Query.Requests.{WorldInfo, no_world, read_world, choose_world}

-- All the worlds of an answer.
unfoldable pub read_worlds : ℕ → BufferReader → Option (List WorldInfo × BufferReader)
read_worlds zero r = some ([], r)
read_worlds (suc n) r =
    read_world r
    >>= (λ (world, r'). read_worlds n r' >>= (λ (worlds, r''). some (world ∷ worlds, r'')))

-- The world with the most players, the first of them if several have as many.
abbrev pub busiest_from : WorldInfo → List WorldInfo → WorldInfo
busiest_from out [] = out
busiest_from out (w ∷ ws) =
    let busier = busiest_from w ws in
    let rest = busiest_from out ws in if ltb out.num_players w.num_players then busier else rest

abbrev pub busiest : List WorldInfo → WorldInfo
busiest [] = no_world
busiest (w ∷ ws) = busiest_from w ws

-- The first world of a name.
abbrev pub named : List ℕ → List WorldInfo → WorldInfo
named name [] = no_world
named name (w ∷ ws) =
    let rest = named name ws in if string_equals_ignore_case name (c_string w.name) then w else rest

pub record IsBusiest (ws : List WorldInfo) (world : WorldInfo) : Type 0 where
  pub place : ℕ
  pub at : get_elem? ws place ≡ some world
  pub most : All (λ w. w.num_players ≤ world.num_players) ws
  pub first : All (λ w. w.num_players < world.num_players) (take place ws)

All-≤ :
    (m n : ℕ) (ws : List WorldInfo)
    → m ≤ n
    → All (λ w. w.num_players ≤ m) ws
    → All (λ w. w.num_players ≤ n) ws
All-≤ m n [] h a = tt
All-≤ m n (w ∷ ws) h a = (omega (arith, a.0), All-≤ m n ws h a.1)

busiest_from-IsBusiest :
    (out : WorldInfo) (ws : List WorldInfo) → IsBusiest (out ∷ ws) (busiest_from out ws)
busiest_from-IsBusiest out [] = record {
  place = 0;
  at = refl;
  most = (omega arith, tt);
  first = tt;
}
busiest_from-IsBusiest out (w ∷ ws) = elim (Bool-cases (ltb out.num_players w.num_players)) [
  | inl more ↦
      let b = busiest_from-IsBusiest w ws in
      rw more (record {
        place = suc b.place;
        at = b.at;
        most = (ground (arith, b.most.0), b.most);
        first = (ground (arith, b.most.0), b.first);
      })
  | inr fewer ↦
      let b = busiest_from-IsBusiest out ws in
      rw fewer (skip b.place b.at b.most b.first (ground arith))
]
  where
    skip :
        (place : ℕ)
        → get_elem? (out ∷ ws) place ≡ some (busiest_from out ws)
        → All (λ v. v.num_players ≤ (busiest_from out ws).num_players) (out ∷ ws)
        → All (λ v. v.num_players < (busiest_from out ws).num_players) (take place (out ∷ ws))
        → w.num_players ≤ out.num_players
        → IsBusiest (out ∷ w ∷ ws) (busiest_from out ws)
    skip zero at most first fewer = record {
      place = 0;
      at = at;
      most = (most.0, (omega (arith, most.0), most.1));
      first = tt;
    }
    skip (suc place) at most first fewer = record {
      place = suc (suc place);
      at = at;
      most = (most.0, (omega (arith, most.0), most.1));
      first = (first.0, (omega (arith, first.0), first.1));
    }

choose_rest :
    (n : ℕ) (name : List ℕ) (out : WorldInfo) (r : BufferReader)
    → string_empty name ≡ true
    → choose_world n name false out r
      ≡ (read_worlds n r >>= (λ (ws, r'). some (busiest_from out ws)))
unfolding choose_world read_worlds
choose_rest zero name out r e = refl
choose_rest (suc n) name out r e = elim (Option-cases (read_world r)) [
  | inl undefined ↦ rw undefined refl
  | inr ((w, r'), read) ↦ elim (Option-cases (read_worlds n r')) [
    | inl undefined ↦ elim (Bool-cases (ltb out.num_players w.num_players)) [
      | inl more ↦ rw (read, e, more, choose_rest n name w r' e, undefined) refl
      | inr fewer ↦ rw (read, e, fewer, choose_rest n name out r' e, undefined) refl
    ]
    | inr ((ws, r''), all_read) ↦ elim (Bool-cases (ltb out.num_players w.num_players)) [
      | inl more ↦ rw (read, e, more, choose_rest n name w r' e, all_read, more) refl
      | inr fewer ↦ rw (read, e, fewer, choose_rest n name out r' e, all_read, fewer) refl
    ]
  ]
]

abbrev worlds_of : Option (List WorldInfo × BufferReader) → List WorldInfo
worlds_of none = []
worlds_of (some (ws, r)) = ws

choose_named :
    (n : ℕ) (name : List ℕ) (first : Bool) (r r' : BufferReader) (ws : List WorldInfo)
    → string_empty name ≡ false
    → read_worlds n r ≡ some (ws, r')
    → choose_world n name first no_world r ≡ some (named name ws)
unfolding choose_world read_worlds
choose_named zero name first r r' ws e all_read = rw (ap worlds_of (sym all_read)) refl
choose_named (suc n) name first r r' ws e all_read = elim (Option-cases (read_world r)) [
  | inl undefined ↦ let clash = rw undefined at all_read in cc
  | inr ((w, r1), read) ↦ elim (Option-cases (read_worlds n r1)) [
    | inl undefined ↦ let clash = rw (read, undefined) at all_read in cc
    | inr ((ws1, r2), rest_read) ↦
        let same : w ∷ ws1 ≡ ws = ap worlds_of (rw (read, rest_read) at all_read) in
        elim (Bool-cases (string_equals_ignore_case name (c_string w.name))) [
          | inl here ↦ rw (← same, read, e, here) refl
          | inr other ↦
              rw (← same, read, e, other, choose_named n name false r1 r2 ws1 e rest_read) refl
        ]
  ]
]

-- A world that answers to a name.
abbrev pub answers : List ℕ → WorldInfo → Bool
answers name w = string_equals_ignore_case name (c_string w.name)

-- What is chosen of the worlds of an answer.
pub data IsChosen (name : List ℕ) (ws : List WorldInfo) (world : WorldInfo) : Type 0 where
  crowded : string_empty name ≡ true → IsBusiest ws world → IsChosen name ws world
  matching :
      (place : ℕ)
      → string_empty name ≡ false
      → get_elem? ws place ≡ some world
      → answers name world ≡ true
      → All (λ w. answers name w ≡ false) (take place ws)
      → IsChosen name ws world
  missing :
      All (λ w. (string_empty name || answers name w) ≡ false) ws
      → world ≡ no_world
      → IsChosen name ws world

named-IsChosen :
    (name : List ℕ) (ws : List WorldInfo)
    → string_empty name ≡ false
    → IsChosen name ws (named name ws)
named-IsChosen name [] e = missing tt refl
named-IsChosen name (w ∷ ws) e = elim (Bool-cases (answers name w)) [
  | inl here ↦ rw here (matching 0 e refl here tt)
  | inr other ↦ rw other (behind other (named-IsChosen name ws e))
]
  where
    behind :
        {world : WorldInfo}
        → answers name w ≡ false
        → IsChosen name ws world
        → IsChosen name (w ∷ ws) world
    behind other (crowded full b) = absurd (ground (arith, full, e))
    behind other (matching place full at here before) =
        matching (suc place) e at here (other, before)
    behind other (missing none_left same) = missing (rw (e, other) refl, none_left) same

choose_crowded :
    (n : ℕ) (name : List ℕ) (r r' : BufferReader) (ws : List WorldInfo)
    → string_empty name ≡ true
    → read_worlds n r ≡ some (ws, r')
    → (world : WorldInfo) × (choose_world n name true no_world r ≡ some world)
      × IsChosen name ws world
unfolding choose_world read_worlds
choose_crowded zero name r r' ws e all_read =
    let same : [] ≡ ws = ap worlds_of all_read in (no_world, refl, rw (← same) (missing tt refl))
choose_crowded (suc n) name r r' ws e all_read = elim (Option-cases (read_world r)) [
  | inl undefined ↦ let clash = rw undefined at all_read in cc
  | inr ((w, r1), read) ↦ elim (Option-cases (read_worlds n r1)) [
    | inl undefined ↦ let clash = rw (read, undefined) at all_read in cc
    | inr ((ws1, r2), rest_read) ↦
        let same : w ∷ ws1 ≡ ws = ap worlds_of (rw (read, rest_read) at all_read) in
        (
          busiest_from w ws1,
          rw (read, e, choose_rest n name w r1 e, rest_read) refl,
          rw (← same) (crowded e (busiest_from-IsBusiest w ws1)),
        )
  ]
]

-- Of the worlds of an answer that can be read, the one chosen without a name is the first of those with
-- the most players; with a name it is the first of that name, whatever its case; and it is empty if
-- there is none.
pub choose_world-IsChosen :
    (n : ℕ) (name : List ℕ) (r r' : BufferReader) (ws : List WorldInfo)
    → read_worlds n r ≡ some (ws, r')
    → (world : WorldInfo) × (choose_world n name true no_world r ≡ some world)
      × IsChosen name ws world
unfolding choose_world read_worlds
choose_world-IsChosen n name r r' ws all_read = elim (Bool-cases (string_empty name)) [
  | inr given ↦
      (named name ws, choose_named n name true r r' ws given all_read, named-IsChosen name ws given)
  | inl e ↦ choose_crowded n name r r' ws e all_read
]
