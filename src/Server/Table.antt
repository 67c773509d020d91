-- ===== src/Server/Table.antt =====
-- The table of connections of src/network/server.cpp between two calls of `process_connections`.
use tibia_login_orig.Base.{
  ℕ, zero, suc, ◌<◌, ◌≡◌, refl, ap, ◌∙◌, inl, inr, Bool, false, Option, none, some, Option-cases,
  List, [], ◌∷◌, map, length, All, get_elem?, set, length-set, ℤ, arith,
}
use tibia_login_orig.Connection.{Connection}
use tibia_login_orig.StatusLimit.{StatusRecord}
use tibia_login_orig.Server.{
  Environment, Events, Format, poll_set, with_events, serve_all, process_connections,
}
use tibia_login_orig.Server.Request.{LogsIn, IsTotal}
use tibia_login_orig.Server.Cycle.{IsSlot, IsPolite, serve-IsSlot}
use tibia_login_orig.Server.Accept.{IsPatient, accept_connections-Slots}

All-set {κ} :
    {A : Type 0} (P : A → Type κ) (xs : List A) (i : ℕ) (x : A)
    → All P xs
    → P x
    → All P (set xs i x)
All-set P [] i x h p = tt
All-set P (y ∷ xs) zero x h p = (p, h.1)
All-set P (y ∷ xs) (suc i) x h p = (h.0, All-set P xs i x h.1 p)

abbrev given_or : {A : Type 0} → Option A → A → A
given_or none a = a
given_or (some b) a = b

All-get {κ} :
    {A : Type 0} (P : A → Type κ) (xs : List A) (i : ℕ) {x : A}
    → All P xs
    → get_elem? xs i ≡ some x
    → P x
All-get P [] i h e = absurd (cc)
All-get P (y ∷ xs) zero h e = let same = ap (λ o. given_or o y) e in rw (← same) h.0
All-get P (y ∷ xs) (suc i) h e = All-get P xs i h.1 e

module _ {S : Type 0} (env : Environment S) (polite : IsPolite env)
    (login : Connection → S → Option (Connection × S)) (get_status_string : S → Option (List ℕ × S))
    (interval timeout : ℤ) (logs_in : LogsIn login) (total : IsTotal get_status_string) where
  -- A table of well-formed slots, with the records of the rate limit.
  pub record Tables (cs : List Connection)
      (result : Option (List Connection × List StatusRecord × S)) : Type 0 where
    pub connections : List Connection
    pub records : List StatusRecord
    pub final : S
    pub returns : result ≡ some (connections, records, final)
    pub slots : All IsSlot connections
    pub same_slots : length connections ≡ length cs
    pub some_records : 0 < length records

  serve_all-Tables :
      (polled : List (ℕ × Events)) (cs : List Connection) (records : List StatusRecord) (s : S)
      → 0 < length records
      → All IsSlot cs
      → Tables cs (serve_all env login get_status_string interval timeout polled cs records s)
  unfolding serve_all
  serve_all-Tables [] cs records s some_records h = record {
    connections = cs;
    records = records;
    final = s;
    returns = refl;
    slots = h;
    same_slots = refl;
    some_records = some_records;
  }
  serve_all-Tables ((i, events) ∷ polled) cs records s some_records h =
      elim (Option-cases (get_elem? cs i)) [
        | inl unknown ↦
            rw (unknown, serve_all) (serve_all-Tables polled cs records s some_records h)
        | inr (c, known) ↦
            let (c', records', s', run, kept, slot) =
              serve-IsSlot env polite login get_status_string interval timeout logs_in total events
                c records s some_records (All-get IsSlot cs i h known) in
            let r =
              serve_all-Tables polled (set cs i c') records' s' (omega (arith, kept, some_records))
                (All-set IsSlot cs i c' h slot) in
            record {
              connections = r.connections;
              records = r.records;
              final = r.final;
              returns = rw (known, serve_all, run) r.returns;
              slots = r.slots;
              same_slots = r.same_slots ∙ length-set cs i c';
              some_records = r.some_records;
            }
      ]

  -- Over sockets that give no more than is asked for and take a front of what they are given, with a
  -- login handler that answers or closes, a call of `process_connections` on a table of well-formed
  -- slots ends with one of as many: each is free and empty, waits for input inside its buffer, or has a
  -- response to write, and none is in processing.
  pub process_connections-Tables :
      (listener : ℕ) (patient : IsPatient env listener) (format : Format) (fuel : ℕ)
      (cs : List Connection) (records : List StatusRecord) (s : S)
      → ((s' : S) → patient.backlog s' < fuel)
      → 0 < length records
      → All IsSlot cs
      → Tables cs (
          process_connections env login get_status_string interval timeout format fuel listener cs
            records s)
  unfolding process_connections
  process_connections-Tables listener patient format fuel cs records s enough some_records h =
      elim (Option-cases (env.poll fds s).0) [
        | inl failed ↦
            rw (failed, process_connections)
              (record {
                connections = cs;
                records = records;
                final = (env.poll fds s).1;
                returns = refl;
                slots = h;
                same_slots = refl;
                some_records = some_records;
              })
        | inr ([], quiet) ↦
            rw (quiet, process_connections)
              (serve_all-Tables (with_events (poll_set 0 cs) []) cs records (env.poll fds s).1
                some_records h)
        | inr (e ∷ es, came) ↦
            let (cs', s', run, slots, same) =
              accept_connections-Slots env listener patient format fuel e cs (env.poll fds s).1
                (enough (env.poll fds s).1) h in
            let r =
              serve_all-Tables (with_events (poll_set 0 cs) es) cs' records s' some_records slots in
            record {
              connections = r.connections;
              records = r.records;
              final = r.final;
              returns = rw (came, process_connections, run) r.returns;
              slots = r.slots;
              same_slots = r.same_slots ∙ same;
              some_records = r.some_records;
            }
      ]
    where
      fds : List (Option ℕ × Bool)
      fds = (some listener, false) ∷ map (λ slot. slot.1) (poll_set 0 cs)
