-- ===== src/Server/Login.antt =====
-- What `process_login_request` of src/login/login_handler.cpp leaves of a connection of src/network/server.cpp.
use tibia_login_orig.Base.{
  ℕ, ◌-◌, ◌≡◌, refl, ap, ◌⊎◌, inl, inr, Bool, true, false, ◌==◌, Bool-cases, Option, none, some,
  List, length, leb, leb→le, leb→lt, lt→ltb, if◌then◌else◌, AreBytes, get_or, ◌>>=◌, ℤ, pos, negsuc,
  arith,
}
use tibia_login_orig.ByteOrder
use tibia_login_orig.Connection.{Connection, close_connection}
use tibia_login_orig.Connection.Life.{is_free, is_processing}
use tibia_login_orig.Writer.{BufferWriter, overflowed}
use tibia_login_orig.Writer.Laws.{IsSound, Appends}
use tibia_login_orig.Reader.{buffer_reader}
use tibia_login_orig.Strings.{c_string, string_empty}
use tibia_login_orig.Query.{QueryClient, Answer}
use tibia_login_orig.Query.Requests.{LoginAccount, login_account, resolve_email}
use tibia_login_orig.Rsa.{Rsa, decrypt}
use tibia_login_orig.Login.{send_xtea_response, respond, send_login_error, send_character_list}
use tibia_login_orig.Login.Response.{prepare_lem, pad-Pads, respond_lem, zeros}
use tibia_login_orig.Login.Messages.{
  login_error_body-Appends, character_list_body-Appends, error_bytes-AreBytes, list_bytes-AreBytes,
}
use tibia_login_orig.Login.Request.{
  Plaintext, read_front, read_plaintext, no_email, too_old, not_correct, terminal_version, as_word,
  login_failure, answer_login, log_in_with, authenticate, serve, decrypted, process_login_request,
}
use tibia_login_orig.Server.Request.{IsAsking, IsAnswered}

respond-IsAnswered :
    (rand_r : ℕ → ℕ × ℕ) (body : BufferWriter → Option BufferWriter) (payload : List ℕ)
    (c : Connection)
    → ((w : BufferWriter) → IsSound w → Appends w payload (body w))
    → AreBytes payload
    → IsAsking c
    → (c' : Connection) × (respond rand_r body c ≡ some c') × IsAnswered c'
unfolding respond send_xtea_response ByteOrder.write_u16_le
respond-IsAnswered rand_r body payload c appends b a =
    elim (Bool-cases (leb (length payload) 2038)) [
      | inl short ↦
          let (c', done, r) =
            respond_lem rand_r body payload c appends a.whole a.in_state (leb→le _ _ short) b in
          (
            c',
            done,
            record {
              whole = r.writes.whole;
              busy = ap is_free r.writes.in_state;
              answer = inr (record {
                whole = r.writes.whole;
                in_state = r.writes.in_state;
                starts = omega (arith, r.writes.at_start);
                fits = r.writes.fits;
              });
            },
          )
      | inr long ↦
          let (w, prepared, g) = prepare_lem c a.whole a.in_state in
          let h = appends w (omega (arith, g.size_kept, g.length_kept, a.whole)) in
          let d =
            pad-Pads rand_r 7 (h.after.position - 2) c.random_seed h.after
              (omega (arith, h.size_kept, h.length_kept, g.size_kept, g.length_kept, a.whole))
              (omega arith) in
          let z : length zeros ≡ 4 = refl in
          let over : overflowed d.after ≡ true = lt→ltb d.after.size d.after.position (
            omega (
              arith,
              leb→lt _ _ long,
              d.grows.moved,
              d.grows.size_kept,
              d.whole,
              h.moved,
              h.size_kept,
              g.moved,
              g.size_kept,
              z,
            )) in
          (
            close_connection (record c { random_seed = d.seed; buffer = d.after.buffer }),
            rw (prepared, h.returns, ap is_processing a.in_state, d.returns, over) refl,
            record {
              whole = omega (arith, d.grows.length_kept, h.length_kept, g.length_kept, a.whole);
              busy = ap is_free a.in_state;
              answer = inl refl;
            },
          )
    ]

-- `result` is undefined, or `P` holds of it.
abbrev pub Or : {A : Type 0} → (A → Type 0) → Option A → Type 0
Or {A} P result = (result ≡ none) ⊎ ((a : A) × (result ≡ some a) × P a)

then-Or :
    {A B : Type 0} (Q : B → Type 0) (m : Option A) (f : A → Option B)
    → ((a : A) → Or Q (f a))
    → Or Q (m >>= f)
then-Or Q none f next = inl refl
then-Or Q (some a) f next = next a

module _ {S : Type 0} where
  -- The connection of a result is answered.
  abbrev pub Answered : Connection × QueryClient × S → Type 0
  Answered r = IsAnswered r.0

  then-Answered :
      (m : Option Connection) (client : QueryClient) (s : S)
      → (c' : Connection) × (m ≡ some c') × IsAnswered c'
      → Or Answered (m >>= (λ c'. some (c', client, s)))
  then-Answered m client s (c', run, a) = inr ((c', client, s), rw run refl, a)

closed :
    {S : Type 0} (c : Connection) (client : QueryClient) (s : S)
    → IsAsking c
    → Or Answered (some (close_connection c, client, s))
closed c client s a = inr (
  (close_connection c, client, s),
  refl,
  record { whole = a.whole; busy = ap is_free a.in_state; answer = inl refl },
)

module _ {S : Type 0} (rand_r : ℕ → ℕ × ℕ) (rsa : Option Rsa)
    (execute_query : BufferWriter → QueryClient → S → Option (Answer × S)) (ip_string : ℕ → List ℕ)
    (motd : List ℕ) where
  send_login_error-IsAnswered :
      (message : List ℕ) (c : Connection)
      → IsAsking c
      → (c' : Connection) × (send_login_error rand_r message c ≡ some c') × IsAnswered c'
  unfolding send_login_error
  send_login_error-IsAnswered message c a =
      respond-IsAnswered rand_r _ _ c (λ w s. login_error_body-Appends message w s)
        (error_bytes-AreBytes message) a

  answer_login-IsAnswered :
      (result : LoginAccount) (c : Connection)
      → IsAsking c
      → (c' : Connection) × (answer_login rand_r rsa execute_query ip_string motd result c
          ≡ some c')
        × IsAnswered c'
  unfolding answer_login
  answer_login-IsAnswered result c a = go result.code
    where
      go :
          (code : ℤ)
          → (c' : Connection) × (answer_login rand_r rsa execute_query ip_string motd
                (record result { code = code })
                c
              ≡ some c')
            × IsAnswered c'
      go (negsuc n) = send_login_error-IsAnswered (login_failure (negsuc n)) c a
      go (pos n) = elim (Bool-cases (n == 0)) [
        | inl good ↦ rw good (
            unfold send_character_list in
            respond-IsAnswered rand_r _ _ c
              (λ w s.
                character_list_body-Appends motd result.num_characters result.characters
                  result.premium_days w s)
              (list_bytes-AreBytes motd result.num_characters result.characters result.premium_days)
              a)
        | inr bad ↦ rw bad (send_login_error-IsAnswered (login_failure (pos n)) c a)
      ]

  log_in_with-Or :
      (account_id : ℕ) (password : List ℕ) (c : Connection) (client : QueryClient) (s : S)
      → IsAsking c
      → Or Answered
          (log_in_with rand_r rsa execute_query ip_string motd account_id password c client s)
  unfolding log_in_with
  log_in_with-Or account_id password c client s a =
      then-Or Answered
        (login_account execute_query account_id (c_string password) (ip_string c.ip_address) 50
          client s)
        _ (λ (result, client', s'). then-Answered _ client' s' (answer_login-IsAnswered result c a))

  authenticate-Or :
      (email password : List ℕ) (c : Connection) (client : QueryClient) (s : S)
      → IsAsking c
      → Or Answered (authenticate rand_r rsa execute_query ip_string motd email password c client s)
  unfolding authenticate
  authenticate-Or email password c client s a =
      then-Or Answered (resolve_email execute_query (c_string email) client s) _
        (λ (code, account_id, client', s'). go code account_id client' s')
    where
      go :
          (code account_id : ℤ) (client' : QueryClient) (s' : S)
          → Or Answered (elim code [
            | pos n ↦
                let refusal =
                  send_login_error rand_r not_correct c >>= (λ c'. some (c', client', s')) in
                if n == 0
                then log_in_with rand_r rsa execute_query ip_string motd
                    (as_word account_id)
                    password
                    c
                    client'
                    s'
                else refusal
            | negsuc n ↦ send_login_error rand_r not_correct c >>= (λ c'. some (c', client', s'))
          ])
      go (negsuc n) account_id client' s' =
          then-Answered _ client' s' (send_login_error-IsAnswered not_correct c a)
      go (pos n) account_id client' s' = elim (Bool-cases (n == 0)) [
        | inl good ↦ rw good (log_in_with-Or (as_word account_id) password c client' s' a)
        | inr bad ↦
            rw bad (then-Answered _ client' s' (send_login_error-IsAnswered not_correct c a))
      ]

  serve-Or :
      (version : ℕ) (plaintext : Plaintext) (c : Connection) (client : QueryClient) (s : S)
      → IsAsking c
      → Or Answered (serve rand_r rsa execute_query ip_string motd version plaintext c client s)
  unfolding serve
  serve-Or version plaintext c client s a =
      let b : IsAsking (record c { xtea = plaintext.xtea }) = record {
        whole = a.whole;
        in_state = a.in_state;
        asks = a.asks;
        fits = a.fits;
      } in
      elim (Bool-cases plaintext.overran) [
        | inl over ↦ rw over (closed _ client s b)
        | inr on ↦ elim (Bool-cases (string_empty plaintext.email)) [
          | inl empty ↦
              rw (on, empty) (then-Answered _ client s (send_login_error-IsAnswered no_email _ b))
          | inr given ↦ elim (Bool-cases (version == terminal_version)) [
            | inl same ↦
                rw (on, given, same)
                  (authenticate-Or plaintext.email plaintext.password _ client s b)
            | inr old ↦
                rw (on, given, old)
                  (then-Answered _ client s (send_login_error-IsAnswered too_old _ b))
          ]
        ]
      ]

  decrypted-Or :
      (version : ℕ) (data' : Option (List ℕ)) (c : Connection) (client : QueryClient) (s : S)
      → IsAsking c
      → Or Answered (decrypted rand_r rsa execute_query ip_string motd version data' c client s)
  unfolding decrypted
  decrypted-Or version none c client s a = closed c client s a
  decrypted-Or version (some plain) c client s a = elim (Bool-cases (get_or plain 0 0 == 0)) [
    | inr other ↦ rw other (closed c client s a)
    | inl zero_first ↦ rw zero_first (
        then-Or Answered (read_plaintext plain) _
          (λ plaintext. serve-Or version plaintext c client s a))
  ]

  -- A request is undefined, or it is answered: its connection is closed, or a response waits to be written.
  pub process_login_request-Or :
      (c : Connection) (client : QueryClient) (s : S)
      → IsAsking c
      → Or Answered (process_login_request rand_r rsa execute_query ip_string motd c client s)
  unfolding process_login_request
  process_login_request-Or c client s a = elim (Bool-cases (c.rw_size == 145)) [
    | inr other ↦ rw other (closed c client s a)
    | inl sized ↦ rw sized (
        then-Or Answered (read_front (buffer_reader c.buffer c.rw_size)) _
          (λ (version, asymmetric_data, overran). front version asymmetric_data overran))
  ]
    where
      front :
          (version : ℕ) (asymmetric_data : List ℕ) (overran : Bool)
          → Or Answered (
              if overran
              then some (close_connection c, client, s)
              else decrypted rand_r rsa execute_query ip_string motd version
                  (decrypt rsa asymmetric_data)
                  c
                  client
                  s)
      front version asymmetric_data true = closed c client s a
      front version asymmetric_data false =
          decrypted-Or version (decrypt rsa asymmetric_data) c client s a
