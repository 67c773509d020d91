-- ===== src/Login/Request/Plain.antt =====
-- What `process_login_request` of src/login/login_handler.cpp makes of a request by its plaintext.
use tibia_login_orig.Base.{
  ℕ, suc, ◌^◌, ◌≤◌, ◌<◌, ◌≡◌, ◌≢◌, ◌⊎◌, inl, inr, refl, ap, ◌∙◌, Option, none, some, List, [], ◌∷◌,
  ◌++◌, length, length-take, take, drop, ==_iff, replicate, get_or, AreBytes, ◌>>=◌, ◌==◌,
  Bool-cases, false, true, if◌then◌else◌, arith,
}
use tibia_login_orig.ByteOrder
use tibia_login_orig.Connection.{Connection, ConnectionState, close_connection}
use tibia_login_orig.Strings.{string_empty}
use tibia_login_orig.Writer.{BufferWriter}
use tibia_login_orig.Writer.Texts.{length_bytes}
use tibia_login_orig.Reader.{BufferReader, buffer_reader, read_string, overflowed}
use tibia_login_orig.Reader.Laws.{Left}
use tibia_login_orig.Reader.Texts.{read_u8-Reads, read_u32-Reads, read_string-Reads, terminated}
use tibia_login_orig.Query.{QueryClient, Answer}
use tibia_login_orig.Rsa.{Rsa, decrypt}
use tibia_login_orig.Login.{send_login_error}
use tibia_login_orig.Login.Messages.{error_bytes, length-error_bytes, send_login_error_lem}
use tibia_login_orig.Login.Response.{IsResponse}
use tibia_login_orig.Login.Request.{
  Plaintext, read_plaintext, serve, decrypted, process_login_request, too_old, no_email,
  terminal_version,
}
use tibia_login_orig.Login.Request.Front.{version_of, read_front_lem}

-- The key words, and the first byte in front of them.
pub record Words (k0 k1 k2 k3 : ℕ) : Type 0 where
  pub w0 : k0 < 2 ^ 32
  pub w1 : k1 < 2 ^ 32
  pub w2 : k2 < 2 ^ 32
  pub w3 : k3 < 2 ^ 32

abbrev pub keyed : ℕ → ℕ → ℕ → ℕ → List ℕ → List ℕ
keyed k0 k1 k2 k3 rest =
    ByteOrder.write_u8 0
    ++ (ByteOrder.write_u32_le k0
        ++ (ByteOrder.write_u32_le k1
            ++ (ByteOrder.write_u32_le k2 ++ (ByteOrder.write_u32_le k3 ++ rest))))

start_Left :
    (bytes : List ℕ) (size : ℕ)
    → length bytes ≡ size
    → size < 2 ^ 31
    → Left (buffer_reader bytes size) bytes
start_Left bytes size e small = record {
  start = 0;
  positioned = refl;
  inside = omega arith;
  fits = omega (arith, e);
  bounded = small;
  is_left = take_whole size bytes (omega (arith, e));
}
  where
    take_whole : (n : ℕ) (xs : List ℕ) → length xs ≤ n → take n xs ≡ xs
    take_whole ℕ.zero [] h = refl
    take_whole ℕ.zero (x ∷ xs) h = absurd (omega arith)
    take_whole (suc n) [] h = refl
    take_whole (suc n) (x ∷ xs) h = ap (◌∷◌ x) (take_whole n xs (omega arith))

-- The key words are read from where they are, and the texts behind them.
pub keyed_lem :
    (k0 k1 k2 k3 : ℕ) (rest : List ℕ)
    → Words k0 k1 k2 k3
    → length (keyed k0 k1 k2 k3 rest) ≡ 128
    → (r : BufferReader) × Left r rest
      × (read_plaintext (keyed k0 k1 k2 k3 rest) ≡ (
          read_string (replicate 51 0) r >>= (λ (email, r4).
            read_string (replicate 30 0) r4 >>= (λ (password, r5). some (record {
              xtea = k0 ∷ k1 ∷ k2 ∷ k3 ∷ [];
              email = email;
              password = password;
              overran = overflowed r5;
            })))))
unfolding read_plaintext
keyed_lem k0 k1 k2 k3 rest small size =
    let a =
      read_u8-Reads 0 _ (buffer_reader (keyed k0 k1 k2 k3 rest) 128) (omega arith)
        (start_Left (keyed k0 k1 k2 k3 rest) 128 size (omega arith)) in
    let b = read_u32-Reads k0 _ a.after small.w0 a.leaves in
    let c = read_u32-Reads k1 _ b.after small.w1 b.leaves in
    let d = read_u32-Reads k2 _ c.after small.w2 c.leaves in
    let f = read_u32-Reads k3 rest d.after small.w3 d.leaves in
    (f.after, f.leaves, rw (a.returns, b.returns, c.returns, d.returns, f.returns) refl)

-- A text as the client writes it, in Latin-1.
abbrev pub text : List ℕ → List ℕ → List ℕ
text t rest = length_bytes (length t) ++ (t ++ rest)

-- A plaintext of key words, an email and a password.
pub record IsPlaintext (k0 k1 k2 k3 : ℕ) (email password rest : List ℕ) : Type 0 where
  pub words : Words k0 k1 k2 k3
  pub size : length (keyed k0 k1 k2 k3 (text email (text password rest))) ≡ 128
  pub email_bytes : AreBytes email
  pub email_short : length email < 2 ^ 31
  pub password_bytes : AreBytes password
  pub password_short : length password < 2 ^ 31

-- The plaintext that a client makes is read back: the key, and the texts in UTF-8 if they fit their
-- arrays of 51 and 30 bytes.
pub read_plaintext_lem :
    (k0 k1 k2 k3 : ℕ) (email password rest : List ℕ)
    → IsPlaintext k0 k1 k2 k3 email password rest
    → read_plaintext (keyed k0 k1 k2 k3 (text email (text password rest)))
      ≡ some (record {
        xtea = k0 ∷ k1 ∷ k2 ∷ k3 ∷ [];
        email = terminated 51 email;
        password = terminated 30 password;
        overran = false;
      })
read_plaintext_lem k0 k1 k2 k3 email password rest p =
    let (r, l, reads) = keyed_lem k0 k1 k2 k3 (text email (text password rest)) p.words p.size in
    let a =
      read_string-Reads (replicate 51 0) email (text password rest) r (omega arith) p.email_bytes
        p.email_short l in
    let b =
      read_string-Reads (replicate 30 0) password rest a.after (omega arith) p.password_bytes
        p.password_short a.leaves in
    let fine : overflowed b.after ≡ false =
      rw b.leaves.positioned (ground (arith, b.leaves.inside)) in
    reads ∙ rw (a.returns, b.returns, fine) refl

-- The asymmetric data of a request.
abbrev pub asymmetric : List ℕ → List ℕ
asymmetric buffer = drop 17 (take 145 buffer)

-- Data that do not decrypt, or not to a zero in front.
abbrev pub Refused : Option (List ℕ) → Type 0
Refused none = Unit
Refused (some bytes) = get_or bytes 0 0 ≢ 0

-- What a request is answered without a query.
abbrev pub early_message : List ℕ → List ℕ
early_message email = if string_empty email then no_email else too_old

module _ {S : Type 0} (rand_r : ℕ → ℕ × ℕ) (rsa : Option Rsa)
    (execute_query : BufferWriter → QueryClient → S → Option (Answer × S)) (ip_string : ℕ → List ℕ)
    (motd : List ℕ) where
  pub request_lem :
      (c : Connection) (client : QueryClient) (s : S)
      → length c.buffer ≡ 2048
      → c.rw_size ≡ 145
      → process_login_request rand_r rsa execute_query ip_string motd c client s
        ≡ decrypted rand_r rsa execute_query ip_string motd
            (version_of (take 145 c.buffer))
            (decrypt rsa (asymmetric c.buffer))
            c
            client
            s
  unfolding process_login_request
  request_lem c client s whole size =
      let l : Left (buffer_reader c.buffer 145) (take 145 c.buffer) = record {
        start = 0;
        positioned = refl;
        inside = omega arith;
        fits = omega (arith, whole);
        bounded = omega arith;
        is_left = refl;
      } in
      rw
        (
          size,
          read_front_lem (take 145 c.buffer) (buffer_reader c.buffer 145)
              (omega (arith, length-take 145 c.buffer, whole)) l,
        )
        refl

  read_serve :
      (version k0 k1 k2 k3 : ℕ) (email password rest : List ℕ) (c : Connection)
      (client : QueryClient) (s : S)
      → IsPlaintext k0 k1 k2 k3 email password rest
      → decrypted rand_r rsa execute_query ip_string motd version
          (some (keyed k0 k1 k2 k3 (text email (text password rest))))
          c
          client
          s
        ≡ serve rand_r rsa execute_query ip_string motd version
            (record {
              xtea = k0 ∷ k1 ∷ k2 ∷ k3 ∷ [];
              email = terminated 51 email;
              password = terminated 30 password;
              overran = false;
            })
            c
            client
            s
  unfolding decrypted ByteOrder.write_u8
  read_serve version k0 k1 k2 k3 email password rest c client s p =
      rw (read_plaintext_lem k0 k1 k2 k3 email password rest p) refl

  refused_lem :
      (version : ℕ) (bytes : Option (List ℕ)) (c : Connection) (client : QueryClient) (s : S)
      → Refused bytes
      → decrypted rand_r rsa execute_query ip_string motd version bytes c client s
        ≡ some (close_connection c, client, s)
  unfolding decrypted
  refused_lem version none c client s h = refl
  refused_lem version (some bytes) c client s h = elim (Bool-cases (get_or bytes 0 0 == 0)) [
    | inl zero_byte ↦ absurd (h ((==_iff (get_or bytes 0 0) 0).0 zero_byte))
    | inr other ↦ rw other refl
  ]

  -- A request of another size than 145 bytes, or whose last 128 bytes do not decrypt to a plaintext
  -- with a zero in front, closes its connection, and the query manager is not asked.
  pub process_login_request-Refused :
      (c : Connection) (client : QueryClient) (s : S)
      → length c.buffer ≡ 2048
      → (c.rw_size ≢ 145) ⊎ Refused (decrypt rsa (asymmetric c.buffer))
      → process_login_request rand_r rsa execute_query ip_string motd c client s
        ≡ some (close_connection c, client, s)
  process_login_request-Refused c client s whole h = elim (Bool-cases (c.rw_size == 145)) [
    | inl right ↦ elim h [
      | inl wrong ↦ absurd (wrong ((==_iff c.rw_size 145).0 right))
      | inr refused ↦
          request_lem c client s whole ((==_iff c.rw_size 145).0 right)
          ∙ refused_lem (version_of (take 145 c.buffer)) (decrypt rsa (asymmetric c.buffer)) c
              client s refused
    ]
    | inr wrong ↦ unfold process_login_request in rw wrong refl
  ]

  -- A message that is sent where no query has been made.
  turned_away :
      (message : List ℕ) (p : Plaintext) (c : Connection) (client : QueryClient) (s : S)
      → length c.buffer ≡ 2048
      → c.state ≡ ConnectionState.processing
      → length message ≤ 2000
      → (c' : Connection) × (◌>>=◌ {B = Connection × QueryClient × S}
            (send_login_error rand_r message (record c { xtea = p.xtea }))
            (λ c''. some (c'', client, s))
          ≡ some (c', client, s))
        × IsResponse p.xtea (error_bytes message) c'
  turned_away message p c client s whole state short =
      let (c', sent, response) =
        send_login_error_lem rand_r message (record c { xtea = p.xtea }) whole state
          (omega (arith, length-error_bytes message, short)) in
      (c', rw sent refl, response)

  serve_early :
      (version : ℕ) (p : Plaintext) (c : Connection) (client : QueryClient) (s : S)
      → length c.buffer ≡ 2048
      → c.state ≡ ConnectionState.processing
      → p.overran ≡ false
      → (string_empty p.email ≡ true) ⊎ (version ≢ terminal_version)
      → (c' : Connection) × (serve rand_r rsa execute_query ip_string motd version p c client s
          ≡ some (c', client, s))
        × IsResponse p.xtea (error_bytes (early_message p.email)) c'
  unfolding serve
  serve_early version p c client s whole state fine h = elim (Bool-cases (string_empty p.email)) [
    | inl empty ↦ rw (fine, empty) (turned_away no_email p c client s whole state (omega arith))
    | inr full ↦ elim (Bool-cases (version == terminal_version)) [
      | inr old ↦ rw (fine, full, old) (turned_away too_old p c client s whole state (omega arith))
      | inl same ↦ elim h [
        | inl empty ↦ absurd (ground (arith, empty, full))
        | inr other ↦ absurd (other ((==_iff version terminal_version).0 same))
      ]
    ]
  ]

  -- A well-formed request with no email, or of another version of the terminal, is answered by the
  -- message for it, which decrypts with the key in the request, and the query manager is not asked.
  pub process_login_request_early :
      (k0 k1 k2 k3 : ℕ) (email password rest : List ℕ) (c : Connection) (client : QueryClient)
      (s : S)
      → length c.buffer ≡ 2048
      → c.state ≡ ConnectionState.processing
      → c.rw_size ≡ 145
      → IsPlaintext k0 k1 k2 k3 email password rest
      → decrypt rsa (asymmetric c.buffer)
        ≡ some (keyed k0 k1 k2 k3 (text email (text password rest)))
      → (string_empty (terminated 51 email) ≡ true)
        ⊎ (version_of (take 145 c.buffer) ≢ terminal_version)
      → (c' : Connection) × (process_login_request rand_r rsa execute_query ip_string motd c client
            s
          ≡ some (c', client, s))
        × IsResponse (k0 ∷ k1 ∷ k2 ∷ k3 ∷ []) (error_bytes (early_message (terminated 51 email))) c'
  process_login_request_early k0 k1 k2 k3 email password rest c client s whole state size p plain
        h =
      let (c', served, response) =
        serve_early (version_of (take 145 c.buffer))
          (record {
            xtea = k0 ∷ k1 ∷ k2 ∷ k3 ∷ [];
            email = terminated 51 email;
            password = terminated 30 password;
            overran = false;
          })
          c client s whole state refl h in
      (
        c',
        request_lem c client s whole size
            ∙ ap
                (λ b.
                  decrypted rand_r rsa execute_query ip_string motd (version_of (take 145 c.buffer))
                    b c client s)
                plain
            ∙ read_serve (version_of (take 145 c.buffer)) k0 k1 k2 k3 email password rest c client s
                p
            ∙ served,
        response,
      )
