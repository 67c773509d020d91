-- ===== src/Server/Mended.antt =====
-- Rounds of src/network/server.cpp with a login handler that is undefined on some requests.
use tibia_login_orig.Base.{
  ℕ, zero, suc, ◌≡◌, refl, ap, ◌∙◌, inl, inr, Bool, false, not, ◌||◌, ◌==◌, ltb, get_or, get_elem?,
  set, map, Bool-cases, Option-cases, Option, none, some, List, [], ◌∷◌, ◌>>=◌, ℤ,
}
use tibia_login_orig.Connection.{Connection, close_connection, has_socket, check_connection_input}
use tibia_login_orig.Connection.Life.{is_processing}
use tibia_login_orig.StatusLimit.{StatusRecord}
use tibia_login_orig.Server.{
  Environment, Events, Format, socket_of, accept_connections, poll_set, with_events, check_command,
  check_connection_request, serve, serve_all, process_connections,
}
use tibia_login_orig.Server.Start.{Globals, serve_round, main_loop}

module _ {S : Type 0} (login : Connection → S → Option (Connection × S)) where
  -- The handler that closes a connection instead.
  unfoldable pub mended : Connection → S → Option (Connection × S)
  mended c s = elim (login c s) [ none ↦ some (close_connection c, s) | some r ↦ some r ]

  -- Two results are the same, or the first is undefined as the handler is.
  pub data Agrees {A : Type 0} (m m' : Option A) : Type 0 where
    same : m ≡ m' → Agrees m m'
    undefined : (c : Connection) (s : S) → login c s ≡ none → m ≡ none → Agrees m m'

  then-Agrees :
      {A B : Type 0} (m m' : Option A) (f f' : A → Option B)
      → Agrees m m'
      → ((a : A) → Agrees (f a) (f' a))
      → Agrees (m >>= f) (m' >>= f')
  then-Agrees m m' f f' (undefined c s lost e) next = undefined c s lost (rw e refl)
  then-Agrees none m' f f' (same e) next = same (rw (← e) refl)
  then-Agrees (some a) m' f f' (same e) next = go (next a)
    where
      go : Agrees (f a) (f' a) → Agrees (f a) (m' >>= f')
      go (undefined c s lost e') = undefined c s lost e'
      go (same e') = same (e' ∙ ap (λ o. o >>= f') e)

  behind :
      {A B : Type 0} (m : Option A) (f f' : A → Option B)
      → ((a : A) → Agrees (f a) (f' a))
      → Agrees (m >>= f) (m >>= f')
  behind m f f' next = then-Agrees m m f f' (same refl) next

  login-Agrees : (c : Connection) (s : S) → Agrees (login c s) (mended c s)
  unfolding mended
  login-Agrees c s = elim (Option-cases (login c s)) [
    | inl lost ↦ undefined c s lost lost
    | inr (r, done) ↦ rw (done, mended) (same refl)
  ]

module _ {S : Type 0} (env : Environment S) (login : Connection → S → Option (Connection × S))
    (get_status_string : S → Option (List ℕ × S)) (interval timeout : ℤ) where
  check_command-Agrees :
      (command : ℕ) (c : Connection) (records : List StatusRecord) (s : S)
      → Agrees login
          (check_command env login get_status_string interval timeout command c records s)
          (check_command env (mended login) get_status_string interval timeout command c records s)
  unfolding check_command
  check_command-Agrees command c records s = elim (Bool-cases (command == 1)) [
    | inl first ↦ rw first (
        then-Agrees login (login c s) (mended login c s) _ _ (login-Agrees login c s)
          (λ (c', s'). same refl))
    | inr other ↦ rw other (same refl)
  ]

  check_connection_request-Agrees :
      (c : Connection) (records : List StatusRecord) (s : S)
      → Agrees login
          (check_connection_request env login get_status_string interval timeout c records s)
          (check_connection_request env
            (mended login)
            get_status_string
            interval
            timeout
            c
            records
            s)
  unfolding check_connection_request
  check_connection_request-Agrees c records s =
      elim (Bool-cases (not (has_socket c) || not (is_processing c.state))) [
        | inl idle ↦ rw idle (same refl)
        | inr asks ↦ elim (Bool-cases (ltb 0 c.rw_size)) [
          | inl some_bytes ↦
              rw (asks, some_bytes) (check_command-Agrees (get_or c.buffer 0 0) c records s)
          | inr empty ↦ rw (asks, empty) (same refl)
        ]
      ]

  serve-Agrees :
      (events : Events) (c : Connection) (records : List StatusRecord) (s : S)
      → Agrees login
          (serve env login get_status_string interval timeout events c records s)
          (serve env (mended login) get_status_string interval timeout events c records s)
  unfolding serve
  serve-Agrees events c records s =
      behind login (check_connection_input S (env.receive (socket_of c)) events.pollin c s) _ _
        (λ (c1, s1).
          then-Agrees login _ _ _ _ (check_connection_request-Agrees c1 records s1)
            (λ (c2, records', s2). same refl))

  serve_all-Agrees :
      (polled : List (ℕ × Events)) (cs : List Connection) (records : List StatusRecord) (s : S)
      → Agrees login
          (serve_all env login get_status_string interval timeout polled cs records s)
          (serve_all env (mended login) get_status_string interval timeout polled cs records s)
  unfolding serve_all
  serve_all-Agrees [] cs records s = same refl
  serve_all-Agrees ((i, events) ∷ polled) cs records s = elim (Option-cases (get_elem? cs i)) [
    | inl unknown ↦ rw (unknown, serve_all) (serve_all-Agrees polled cs records s)
    | inr (c, known) ↦
        rw (known, serve_all)
          (then-Agrees login _ _ _ _ (serve-Agrees events c records s)
            (λ (c', records', s'). serve_all-Agrees polled (set cs i c') records' s'))
  ]

  process_connections-Agrees :
      (format : Format) (fuel listener : ℕ) (cs : List Connection) (records : List StatusRecord)
      (s : S)
      → Agrees login
          (process_connections env login get_status_string interval timeout format fuel listener cs
            records s)
          (process_connections env
            (mended login)
            get_status_string
            interval
            timeout
            format
            fuel
            listener
            cs
            records
            s)
  unfolding process_connections
  process_connections-Agrees format fuel listener cs records s =
      elim (Option-cases (env.poll fds s).0) [
        | inl failed ↦ rw (failed, process_connections) (same refl)
        | inr ([], quiet) ↦
            rw (quiet, process_connections)
              (serve_all-Agrees (with_events (poll_set 0 cs) []) cs records (env.poll fds s).1)
        | inr (e ∷ es, came) ↦
            rw (came, process_connections)
              (behind login (accept_connections env format fuel listener e cs (env.poll fds s).1) _
                _ (λ (cs', s'). serve_all-Agrees (with_events (poll_set 0 cs) es) cs' records s'))
      ]
    where
      fds : List (Option ℕ × Bool)
      fds = (some listener, false) ∷ map (λ slot. slot.1) (poll_set 0 cs)

  serve_round-Agrees :
      (format : Format) (fuel : ℕ) (g : Globals) (s : S)
      → Agrees login
          (serve_round env login get_status_string interval timeout format fuel g s)
          (serve_round env (mended login) get_status_string interval timeout format fuel g s)
  unfolding serve_round
  serve_round-Agrees format fuel g s = behind login g.listener _ _ (λ listener.
      behind login g.connections _ _ (λ connections. behind login g.status_records _ _ (λ records.
        then-Agrees login _ _ _ _
          (process_connections-Agrees format fuel listener connections records s)
          (λ (connections', records', s'). same refl))))

  pub main_loop-Agrees :
      (format : Format) (fuel rounds : ℕ) (g : Globals) (s : S)
      → Agrees login
          (main_loop env login get_status_string interval timeout format fuel rounds g s)
          (main_loop env (mended login) get_status_string interval timeout format fuel rounds g s)
  unfolding main_loop
  main_loop-Agrees format fuel zero g s = same refl
  main_loop-Agrees format fuel (suc rounds) g s =
      then-Agrees login _ _ _ _ (serve_round-Agrees format fuel g s)
        (λ (g', s'). main_loop-Agrees format fuel rounds g' s')
