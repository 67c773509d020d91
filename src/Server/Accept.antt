-- ===== src/Server/Accept.antt =====
-- The clients that src/network/server.cpp accepts in one round: each is assigned to a slot or turned away.
use tibia_login_orig.Base.{
  ℕ, zero, suc, ◌≤◌, ◌<◌, ◌≡◌, refl, ap, ◌∙◌, ◌⊎◌, inl, inr, true, Bool-cases, Option, none, some,
  Option-cases, List, [], ◌∷◌, length, All, arith,
}
use tibia_login_orig.Connection.{Connection, ConnectionState}
use tibia_login_orig.Connection.Life.{is_free, assign_connection}
use tibia_login_orig.Server.{
  Environment, Events, Format, listener_accept, admit, accept_loop, accept_connections,
}
use tibia_login_orig.Server.Cycle.{IsSlot, fresh, waits, writes}

abbrev assigned_to : Connection → ℕ → ℕ → ℕ → ℕ → List ℕ → Connection
assigned_to c socket addr now seed remote_address = record c {
  state = ConnectionState.reading;
  socket = some socket;
  ip_address = addr;
  start_time = now;
  random_seed = seed;
  remote_address = remote_address;
}

-- A free slot that a connection is assigned to waits for its input.
assigned :
    (c : Connection) (socket addr now seed : ℕ) (remote_address : List ℕ)
    → is_free c.state ≡ true
    → IsSlot c
    → IsSlot (assigned_to c socket addr now seed remote_address)
assigned c socket addr now seed remote_address free (fresh f) = waits (record {
  whole = f.whole;
  bounded = omega (arith, f.empty);
  waits = rw f.empty (omega (arith, f.start));
  in_state = refl;
})
assigned c socket addr now seed remote_address free (waits r) =
    absurd (ground (arith, ap is_free r.in_state))
assigned c socket addr now seed remote_address free (writes w) =
    absurd (ground (arith, ap is_free w.in_state))

-- Either no slot is free, or the table is well formed with the new connection.
abbrev Assigns : List Connection → Option (List Connection) → Type 0
Assigns cs result =
    (result ≡ none)
    ⊎ ((cs' : List Connection) × (result ≡ some cs') × All IsSlot cs' × (length cs' ≡ length cs))

assign_connection-Assigns :
    (socket addr : ℕ) (remote_address : List ℕ) (now seed : ℕ) (cs : List Connection)
    → All IsSlot cs
    → Assigns cs (assign_connection socket addr remote_address now seed cs)
unfolding assign_connection
assign_connection-Assigns socket addr remote_address now seed [] h = inl refl
assign_connection-Assigns socket addr remote_address now seed (c ∷ cs) h =
    elim (Bool-cases (is_free c.state)) [
      | inl free ↦ inr (
        assigned_to c socket addr now seed remote_address ∷ cs,
        rw free refl,
        (assigned c socket addr now seed remote_address free h.0, h.1),
        refl,
      )
      | inr busy ↦ elim (assign_connection-Assigns socket addr remote_address now seed cs h.1) [
        | inl none_free ↦ inl (rw (busy, none_free) refl)
        | inr (cs', e, slots, same) ↦ inr (c ∷ cs', rw (busy, e) refl, (h.0, slots), ap suc same)
      ]
    ]

-- No more clients come while those that wait are accepted: `backlog` counts them.
pub record IsPatient {S : Type 0} (env : Environment S) (listener : ℕ) : Type 0 where
  pub backlog : S → ℕ
  pub accepted :
      (s : S) (client : ℕ × ℕ × ℕ)
      → (env.accept listener s).0 ≡ some client
      → backlog (env.accept listener s).1 < backlog s
  pub nonblocking_kept : (socket : ℕ) (s : S) → backlog (env.set_nonblocking socket s).1 ≤ backlog s
  pub close_kept : (socket : ℕ) (s : S) → backlog (env.close socket s) ≤ backlog s
  pub rand_kept : (s : S) → backlog (env.rand s).1 ≤ backlog s

module _ {S : Type 0} (env : Environment S) (listener : ℕ) (patient : IsPatient env listener) where
  open patient use {backlog, accepted, nonblocking_kept, close_kept, rand_kept}

  -- A client, one fewer of whom waits then, or no one.
  abbrev Accepts : S → Option (Option (ℕ × ℕ × ℕ) × S) → Type 0
  Accepts s result =
      (client : Option (ℕ × ℕ × ℕ)) × (s' : S) × (result ≡ some (client, s'))
      × ((client ≡ none) ⊎ (backlog s' < backlog s))

  listener_accept-Accepts :
      (fuel : ℕ) (s : S) → backlog s < fuel → Accepts s (listener_accept env fuel listener s)
  unfolding listener_accept
  listener_accept-Accepts zero s enough = absurd (omega arith)
  listener_accept-Accepts (suc fuel) s enough = elim (Option-cases (env.accept listener s).0) [
    | inl no_one ↦ (none, (env.accept listener s).1, rw (no_one, listener_accept) refl, inl refl)
    | inr ((socket, addr, port), came) ↦
        let s1 = (env.accept listener s).1 in
        let s2 = (env.set_nonblocking socket s1).1 in
        let fewer = accepted s (socket, addr, port) came in
        elim (Bool-cases (env.set_nonblocking socket s1).0) [
          | inl set_up ↦ (
            some (socket, addr, port),
            s2,
            rw (came, listener_accept, set_up) refl,
            inr (omega (arith, fewer, nonblocking_kept socket s1)),
          )
          | inr refused ↦
              let (client, s', run, left) =
                listener_accept-Accepts fuel (env.close socket s2)
                  (omega (arith, fewer, nonblocking_kept socket s1, close_kept socket s2)) in
              (
                client,
                s',
                rw (came, listener_accept, refused) run,
                elim left [
                  | inl no_one ↦ inl no_one
                  | inr less ↦
                      inr (
                        omega
                          (arith, less, fewer, nonblocking_kept socket s1, close_kept socket s2))
                ],
              )
        ]
  ]

  admit-All :
      (format : Format) (client : ℕ × ℕ × ℕ) (cs : List Connection) (s : S)
      → All IsSlot cs
      → (cs' : List Connection) × (s' : S) × (admit env format client cs s ≡ (cs', s'))
        × All IsSlot cs'
        × (length cs' ≡ length cs)
        × (backlog s' ≤ backlog s)
  unfolding admit
  admit-All format (socket, addr, port) cs s h =
      elim (assign_connection-Assigns socket addr (format addr port) (env.get_monotonic_uptime s)
        (env.rand s).0 cs h) [
          | inl none_free ↦
              (cs, env.close socket s, rw (none_free, admit) refl, h, refl, close_kept socket s)
          | inr (cs', e, slots, same) ↦
              (cs', (env.rand s).1, rw (e, admit) refl, slots, same, rand_kept s)
        ]

  -- What a run over the table leaves.
  abbrev pub Slots : List Connection → Option (List Connection × S) → Type 0
  Slots cs result =
      (cs' : List Connection) × (s' : S) × (result ≡ some (cs', s'))
      × All IsSlot cs'
      × (length cs' ≡ length cs)

  accepted_then :
      (format : Format) (fuel : ℕ) (cs : List Connection) (s : S)
      → All IsSlot cs
      → ((cs' : List Connection) (s' : S)
          → backlog s' < backlog s
          → All IsSlot cs'
          → Slots cs' (accept_loop env format fuel listener cs' s'))
      → Accepts s (listener_accept env (suc fuel) listener s)
      → Slots cs (accept_loop env format (suc fuel) listener cs s)
  unfolding accept_loop
  accepted_then format fuel cs s h next (none, s', run, left) = (cs, s', rw run refl, h, refl)
  accepted_then format fuel cs s h next (some client, s', run, inl no_one) = cc
  accepted_then format fuel cs s h next (some client, s', run, inr less) =
      let (cs', s'', e, slots, same, kept) = admit-All format client cs s' h in
      let (cs'', s3, run', slots', same') = next cs' s'' (omega (arith, less, kept)) slots in
      (cs'', s3, rw (run, e) run', slots', same' ∙ same)

  accept_loop-Slots :
      (format : Format) (fuel : ℕ) (cs : List Connection) (s : S)
      → backlog s < fuel
      → All IsSlot cs
      → Slots cs (accept_loop env format fuel listener cs s)
  accept_loop-Slots format zero cs s enough h = absurd (omega arith)
  accept_loop-Slots format (suc fuel) cs s enough h =
      accepted_then format fuel cs s h
        (λ cs' s' less slots. accept_loop-Slots format fuel cs' s' (omega arith) slots)
        (listener_accept-Accepts (suc fuel) s enough)

  pub accept_connections-Slots :
      (format : Format) (fuel : ℕ) (events : Events) (cs : List Connection) (s : S)
      → backlog s < fuel
      → All IsSlot cs
      → Slots cs (accept_connections env format fuel listener events cs s)
  unfolding accept_connections
  accept_connections-Slots format fuel events cs s enough h = elim (Bool-cases events.pollin) [
    | inl coming ↦ rw coming (accept_loop-Slots format fuel cs s enough h)
    | inr quiet ↦ (cs, s, rw quiet refl, h, refl)
  ]
