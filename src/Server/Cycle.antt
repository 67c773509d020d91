-- ===== src/Server/Cycle.antt =====
-- One round of src/network/server.cpp over one slot of the table.
use tibia_login_orig.Base.{
  ℕ, ◌<◌, ◌≡◌, refl, ap, ◌∙◌, ◌⊎◌, inl, inr, Bool, true, false, not, ◌&&◌, ◌||◌, Bool-cases, Option,
  none, some, List, length, ltb, if◌then◌else◌, length-replicate, ℤ, pos_part, lebℤ, sub_ℕ, arith,
}
use tibia_login_orig.Connection.{
  Connection, ConnectionState, Received, close_connection, has_socket, is_reading,
  check_connection_input,
}
use tibia_login_orig.Connection.Input.{
  IsReading, Settled, waiting, closed, complete, Within, check_connection_input-Settled,
}
use tibia_login_orig.Connection.Life.{
  is_free, is_processing, is_writing, release_connection, check_connection, check_connection_output,
  Sent,
}
use tibia_login_orig.Connection.Output.{
  Ends, all_written, broken, waiting, IsWritable, Writes, Written, check_connection_output-Written,
}
use tibia_login_orig.StatusLimit.{StatusRecord}
use tibia_login_orig.Server.{Environment, Events, socket_of, check_connection_request, serve}
use tibia_login_orig.Server.Request.{
  IsAnswered, IsAsking, LogsIn, IsTotal, check_connection_request-Answers,
}

-- A free slot, as `memset` leaves it but for its socket.
pub record IsFresh (c : Connection) : Type 0 where
  pub whole : length c.buffer ≡ 2048
  pub in_state : c.state ≡ ConnectionState.free
  pub empty : c.rw_size ≡ 0
  pub start : c.rw_position ≡ 0

-- A slot between two rounds: it is free, or its connection waits for input or to write. None is in
-- processing.
pub data IsSlot (c : Connection) : Type 0 where
  fresh : IsFresh c → IsSlot c
  waits : IsReading c → IsSlot c
  writes : IsWritable c → IsSlot c

-- What the end of a round finds.
data Ended (c : Connection) : Type 0 where
  ready : IsSlot c → Ended c
  over : length c.buffer ≡ 2048 → is_free c.state ≡ false → c.socket ≡ none → Ended c

release-IsSlot : (c : Connection) → is_free c.state ≡ false → IsSlot (release_connection c)
unfolding release_connection
release-IsSlot c busy = rw busy (
    fresh (record {
      whole = length-replicate {A = ℕ} 2048 0;
      in_state = refl;
      empty = refl;
      start = refl;
    }))

-- A slot whose connection is closed is released.
close-IsSlot : (c : Connection) → Ended c → IsSlot (release_connection (close_connection c))
close-IsSlot c (over whole busy none_left) = release-IsSlot (close_connection c) busy
close-IsSlot c (ready (fresh f)) =
    unfold release_connection in
    rw (ap is_free f.in_state)
      (fresh (record { whole = f.whole; in_state = f.in_state; empty = f.empty; start = f.start }))
close-IsSlot c (ready (waits r)) = release-IsSlot (close_connection c) (ap is_free r.in_state)
close-IsSlot c (ready (writes w)) = release-IsSlot (close_connection c) (ap is_free w.in_state)

unclosed : (c : Connection) → IsSlot c → IsSlot (release_connection c)
unclosed c (fresh f) = unfold release_connection in rw (ap is_free f.in_state) (fresh f)
unclosed c (waits r) = release-IsSlot c (ap is_free r.in_state)
unclosed c (writes w) = release-IsSlot c (ap is_free w.in_state)

keep-IsSlot : (c : Connection) → Ended c → IsSlot (if has_socket c then c else release_connection c)
keep-IsSlot c (ready slot) = elim (Bool-cases (has_socket c)) [
  | inl on ↦ rw on slot
  | inr off ↦ rw off (unclosed c slot)
]
keep-IsSlot c (over whole busy none_left) =
    let off : has_socket c ≡ false = rw none_left refl in rw off (release-IsSlot c busy)

check_connection-IsSlot :
    (timeout : ℤ) (now : ℕ) (hangup : Bool) (c : Connection)
    → Ended c
    → IsSlot (check_connection timeout now hangup c)
unfolding check_connection
check_connection-IsSlot timeout now hangup c e = elim (Bool-cases hangup) [
  | inl hung ↦
      elim (Bool-cases (ltb 0 (pos_part timeout) && lebℤ timeout (sub_ℕ now c.start_time))) [
        | inl late ↦ rw (hung, late) (close-IsSlot c e)
        | inr early ↦ rw (hung, early) (close-IsSlot c e)
      ]
  | inr on ↦ elim (Bool-cases (ltb 0 (pos_part timeout) && lebℤ timeout (sub_ℕ now c.start_time))) [
    | inl late ↦ rw (on, late) (close-IsSlot c e)
    | inr early ↦ rw (on, early) (keep-IsSlot c e)
  ]
]

-- What the input leaves.
data Midway (c : Connection) : Type 0 where
  same : Ended c → Midway c
  asks : IsAsking c → Midway c

settled : (c : Connection) → Settled c → Midway c
settled c (waiting r) = same (ready (waits r))
settled c (closed none_left state whole) = same (over whole (ap is_free state) none_left)
settled c (complete state whole some_bytes fits all_read) =
    asks (record { whole = whole; in_state = state; asks = some_bytes; fits = fits })

-- A socket that is ready, and its connection is not waiting for input: it is closed.
unwanted :
    {S : Type 0} (receive : ℕ → S → Received × S) (pollin : Bool) (c : Connection) (s : S)
    → is_reading c.state ≡ false
    → Ended c
    → Ended (close_connection c)
    → (c' : Connection) × (s' : S) × (check_connection_input S receive pollin c s ≡ some (c', s'))
      × Midway c'
unfolding check_connection_input
unwanted receive pollin c s state e e' = elim (Bool-cases (not (has_socket c) || not pollin)) [
  | inl quiet ↦ (c, s, rw quiet refl, same e)
  | inr events ↦ (close_connection c, s, rw (events, state) refl, same e')
]

module _ {S : Type 0} (receive : ℕ → S → Received × S)
    (few : (count : ℕ) (s : S) → Within count (receive count s).0) where
  input-Midway :
      (pollin : Bool) (c : Connection) (s : S)
      → IsSlot c
      → (c' : Connection) × (s' : S) × (check_connection_input S receive pollin c s ≡ some (c', s'))
        × Midway c'
  input-Midway pollin c s (waits r) =
      let (c', s', run, left) = check_connection_input-Settled S receive few pollin c s r in
      (c', s', run, settled c' left)
  input-Midway pollin c s (writes w) =
      unwanted receive pollin c s (ap is_reading w.in_state) (ready (writes w))
        (over w.whole (ap is_free w.in_state) refl)
  input-Midway pollin c s (fresh f) =
      unwanted receive pollin c s (ap is_reading f.in_state) (ready (fresh f)) (
        ready (
          fresh
            (record { whole = f.whole; in_state = f.in_state; empty = f.empty; start = f.start })))

answered : (c : Connection) → IsAnswered c → Ended c
answered c a = elim a.answer [
  | inl none_left ↦ over a.whole a.busy none_left
  | inr w ↦ ready (writes w)
]

-- Only a connection with a socket that is in processing has its request looked at.
unasked : (c : Connection) → Ended c → (not (has_socket c) || not (is_processing c.state)) ≡ true
unasked c (ready (fresh f)) = ground (arith, ap is_processing f.in_state)
unasked c (ready (waits r)) = ground (arith, ap is_processing r.in_state)
unasked c (ready (writes w)) = ground (arith, ap is_processing w.in_state)
unasked c (over whole busy none_left) = rw none_left refl

module _ {S : Type 0} (env : Environment S) (login : Connection → S → Option (Connection × S))
    (get_status_string : S → Option (List ℕ × S)) (interval timeout : ℤ) (logs_in : LogsIn login)
    (total : IsTotal get_status_string) where
  request-Ended :
      (records : List StatusRecord) (c : Connection) (s : S)
      → 0 < length records
      → Midway c
      → (c' : Connection) × (records' : List StatusRecord) × (s' : S) × (check_connection_request
            env login get_status_string interval timeout c records s
          ≡ some (c', records', s'))
        × (length records' ≡ length records)
        × Ended c'
  request-Ended records c s some_records (asks a) =
      let r =
        check_connection_request-Answers env login get_status_string interval timeout logs_in total
          records c s some_records a in
      (r.after, r.records', r.final, r.returns, r.kept, answered r.after r.answered)
  request-Ended records c s some_records (same e) =
      (c, records, s, unfold check_connection_request in rw (unasked c e) refl, refl, e)

unwritten :
    (c : Connection)
    → Ended c
    → (is_writing c.state ≡ false) ⊎ (has_socket c ≡ false) ⊎ IsWritable c
unwritten c (ready (fresh f)) = inl (ap is_writing f.in_state)
unwritten c (ready (waits r)) = inl (ap is_writing r.in_state)
unwritten c (ready (writes w)) = inr (inr w)
unwritten c (over whole busy none_left) = inr (inl (rw none_left refl))

module _ {S : Type 0} (transmit : List ℕ → S → Sent × S) (w : Writes transmit) where
  written-Ended :
      (c : Connection) (s : S) (v : IsWritable c) {result : Option (Connection × S)}
      (r : Written transmit w c s result)
      → Ended r.after
  written-Ended c s v r = go r.ends
    where
      closed : r.after.socket ≡ none → Ended r.after
      closed none_left =
          over (ap length r.same_buffer ∙ v.whole) (ap is_free (r.same_state ∙ v.in_state))
            none_left

      go : Ends transmit w c r.after s r.final → Ended r.after
      go (all_written at none_left no_refusal no_failure) = closed none_left
      go (broken none_left no_refusal failure) = closed none_left
      go (waiting kept refusal no_failure) = ready (
          writes (record {
            whole = ap length r.same_buffer ∙ v.whole;
            in_state = r.same_state ∙ v.in_state;
            starts = omega (arith, r.inside, r.same_size);
            fits = omega (arith, r.same_size, v.fits);
          }))

  output-Ended :
      (c : Connection) (s : S)
      → Ended c
      → (c' : Connection) × (s' : S) × (check_connection_output S transmit 2049 c s ≡ some (c', s'))
        × Ended c'
  unfolding check_connection_output
  output-Ended c s e = elim (Bool-cases (has_socket c)) [
    | inr off ↦ (c, s, rw off refl, e)
    | inl on ↦ elim (unwritten c e) [
      | inl idle ↦ (c, s, rw (on, idle) refl, e)
      | inr (inl off) ↦ (c, s, rw off refl, e)
      | inr (inr v) ↦
          let r = check_connection_output-Written transmit w c s on v in
          (r.after, r.final, unfold check_connection_output in r.returns, written-Ended c s v r)
    ]
  ]

-- What the calls on sockets promise: no more bytes are read than were asked for, and a write takes a
-- front of what it is given.
pub record IsPolite {S : Type 0} (env : Environment S) : Type 0 where
  pub few : (fd count : ℕ) (s : S) → Within count (env.receive fd count s).0
  pub taking : (fd : ℕ) → Writes (env.transmit fd)

module _ {S : Type 0} (env : Environment S) (polite : IsPolite env)
    (login : Connection → S → Option (Connection × S)) (get_status_string : S → Option (List ℕ × S))
    (interval timeout : ℤ) (logs_in : LogsIn login) (total : IsTotal get_status_string) where
  -- A round over a slot: it ends, and the slot is well formed again.
  pub serve-IsSlot :
      (events : Events) (c : Connection) (records : List StatusRecord) (s : S)
      → 0 < length records
      → IsSlot c
      → (c' : Connection) × (records' : List StatusRecord) × (s' : S) × (serve env login
            get_status_string interval timeout events c records s
          ≡ some (c', records', s'))
        × (length records' ≡ length records)
        × IsSlot c'
  unfolding serve
  serve-IsSlot events c records s some_records slot =
      let (c1, s1, run1, midway) =
        input-Midway (env.receive (socket_of c)) (polite.few (socket_of c)) events.pollin c s
          slot in
      let (c2, records', s2, run2, kept, e2) =
        request-Ended env login get_status_string interval timeout logs_in total records c1 s1
          some_records midway in
      let (c3, s3, run3, e3) =
        output-Ended (env.transmit (socket_of c2)) (polite.taking (socket_of c2)) c2 s2 e2 in
      (
        check_connection timeout (env.get_monotonic_uptime s3) events.hangup c3,
        records',
        s3,
        rw (run1, run2, run3) refl,
        kept,
        check_connection-IsSlot timeout (env.get_monotonic_uptime s3) events.hangup c3 e3,
      )
