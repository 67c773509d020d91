-- ===== src/Login/Request.antt =====
-- `process_login_request` of src/login/login_handler.cpp, built with TIBIA772 = 0. The arrays of the
-- email and the password are not initialized; nothing of them is used that was not written. `rand_r`,
-- the key, the query, the formatting of an address and the configuration's message are parameters.
pub mod Front
pub mod Plain
pub mod Hostile
use tibia_login_orig.Base.{
  ℕ, ◌-◌, ◌^◌, u32, Bool, true, false, not, ◌||◌, Option, none, some, List, [], ◌∷◌, get_or, ◌==◌,
  if◌then◌else◌, replicate, ◌>>=◌, ℤ, pos, negsuc, codes,
}
use tibia_login_orig.Connection.{Connection, close_connection}
use tibia_login_orig.Writer.{BufferWriter}
use tibia_login_orig.Reader.{
  BufferReader, buffer_reader, read_u8, read_u16, read_u32, read_string, read_bytes, overflowed,
}
use tibia_login_orig.Strings.{c_string, string_empty}
use tibia_login_orig.Query.{QueryClient, Answer}
use tibia_login_orig.Query.Requests.{LoginAccount, login_account, resolve_email}
use tibia_login_orig.Rsa.{Rsa, decrypt}
use tibia_login_orig.Login.{send_login_error, send_character_list}

abbrev pub terminal_version : ℕ
terminal_version = 770

-- `(uint32)` of an `int`.
abbrev pub as_word : ℤ → ℕ
as_word (pos n) = u32 n
as_word (negsuc n) = 2 ^ 32 - 1 - n

abbrev pub no_email : List ℕ
no_email = codes "You must enter an email address."

abbrev pub too_old : List ℕ
too_old =
    codes "Your terminal version is too old.\nPlease get a new version at\nhttp://www.tibia.com."

abbrev pub not_correct : List ℕ
not_correct = codes "Email or password is not correct."

-- The message for a result of `login_account` other than 0.
unfoldable pub login_failure : ℤ → List ℕ
login_failure (negsuc n) = codes "Internal error, closing connection."
login_failure (pos n) =
    if n == 1 || n == 2
    then not_correct
    else if n == 3
    then codes "Account disabled for five minutes. Please wait."
    else if n == 4
    then codes "IP address blocked for 30 minutes. Please wait."
    else if n == 5
    then codes "Your account is banished."
    else if n == 6
    then codes "Your IP address is banished."
    else codes "Internal error, closing connection."

-- The version of the terminal, the asymmetric data, and whether the reader has overflowed.
unfoldable pub read_front : BufferReader → Option (ℕ × List ℕ × Bool)
read_front r = read_u8 r >>= (λ (command, r1). read_u16 r1 >>= (λ (type, r2).
    read_u16 r2 >>= (λ (version, r3). read_u32 r3 >>= (λ (dat, r4). read_u32 r4 >>= (λ (spr, r5).
      read_u32 r5 >>= (λ (pic, r6).
        read_bytes (replicate 128 0) 128 r6
        >>= (λ (asymmetric_data, r7). some (version, asymmetric_data, overflowed r7))))))))

-- What the decrypted data hold.
pub record Plaintext : Type 0 where
  pub xtea : List ℕ
  pub email : List ℕ
  pub password : List ℕ
  pub overran : Bool

unfoldable pub read_plaintext : List ℕ → Option Plaintext
read_plaintext asymmetric_data = read_u8 (buffer_reader asymmetric_data 128) >>= (λ (first, r).
    read_u32 r >>= (λ (k0, r0). read_u32 r0 >>= (λ (k1, r1). read_u32 r1 >>= (λ (k2, r2).
      read_u32 r2 >>= (λ (k3, r3). read_string (replicate 51 0) r3 >>= (λ (email, r4).
        read_string (replicate 30 0) r4 >>= (λ (password, r5). some (record {
          xtea = k0 ∷ k1 ∷ k2 ∷ k3 ∷ [];
          email = email;
          password = password;
          overran = overflowed r5;
        }))))))))

module _ {S : Type 0} (rand_r : ℕ → ℕ × ℕ) (rsa : Option Rsa)
    (execute_query : BufferWriter → QueryClient → S → Option (Answer × S)) (ip_string : ℕ → List ℕ)
    (motd : List ℕ) where
  -- `switch(login_code)`
  unfoldable pub answer_login : LoginAccount → Connection → Option Connection
  unfolding login_failure
  answer_login result c = elim result.code [
    | pos n ↦
        let refusal = send_login_error rand_r (login_failure (pos n)) c in
        let granted =
          send_character_list rand_r motd result.num_characters result.characters
            result.premium_days c in
        if n == 0 then granted else refusal
    | negsuc n ↦ send_login_error rand_r (login_failure (negsuc n)) c
  ]

  unfoldable pub log_in_with :
      ℕ → List ℕ → Connection → QueryClient → S → Option (Connection × QueryClient × S)
  unfolding answer_login
  log_in_with account_id password c client s =
      login_account execute_query account_id (c_string password) (ip_string c.ip_address) 50 client
        s
      >>= (λ (result, client', s'). answer_login result c >>= (λ c'. some (c', client', s')))

  -- The queries, for an email that is not empty.
  unfoldable pub authenticate :
      List ℕ → List ℕ → Connection → QueryClient → S → Option (Connection × QueryClient × S)
  unfolding log_in_with
  authenticate email password c client s =
      resolve_email execute_query (c_string email) client s
      >>= (λ (resolve_code, account_id, client', s'). elim resolve_code [
        | pos n ↦
            let refusal =
              send_login_error rand_r not_correct c >>= (λ c'. some (c', client', s')) in
            if n == 0 then log_in_with (as_word account_id) password c client' s' else refusal
        | negsuc n ↦ send_login_error rand_r not_correct c >>= (λ c'. some (c', client', s'))
      ])

  -- From the key words on.
  unfoldable pub serve :
      ℕ → Plaintext → Connection → QueryClient → S → Option (Connection × QueryClient × S)
  unfolding authenticate
  serve version plaintext c client s =
      let c' : Connection = record c { xtea = plaintext.xtea } in
      if plaintext.overran
      then some (close_connection c', client, s)
      else if string_empty plaintext.email
      then send_login_error rand_r no_email c' >>= (λ c''. some (c'', client, s))
      else if not (version == terminal_version)
      then send_login_error rand_r too_old c' >>= (λ c''. some (c'', client, s))
      else authenticate plaintext.email plaintext.password c' client s

  -- With what the decryption gave.
  unfoldable pub decrypted :
      ℕ → Option (List ℕ) → Connection → QueryClient → S → Option (Connection × QueryClient × S)
  unfolding serve read_plaintext
  decrypted version none c client s = some (close_connection c, client, s)
  decrypted version (some asymmetric_data) c client s =
      let served =
        read_plaintext asymmetric_data >>= (λ plaintext. serve version plaintext c client s) in
      if not (get_or asymmetric_data 0 0 == 0) then some (close_connection c, client, s) else served

  unfoldable pub process_login_request :
      Connection → QueryClient → S → Option (Connection × QueryClient × S)
  unfolding decrypted read_front
  process_login_request c client s =
      let rest =
        read_front (buffer_reader c.buffer c.rw_size) >>= (λ (version, asymmetric_data, overran).
          if overran
          then some (close_connection c, client, s)
          else decrypted version (decrypt rsa asymmetric_data) c client s) in
      if not (c.rw_size == 145) then some (close_connection c, client, s) else rest
