-- ===== src/Login/Request/Hostile.antt =====
-- What a client can do to `process_login_request` of src/login/login_handler.cpp with a text length.
use tibia_login_orig.Base.{
  ℕ, ◌^◌, ◌≡◌, refl, ap, ◌∙◌, Option, none, some, List, length, take, replicate, arith,
}
use tibia_login_orig.ByteOrder
use tibia_login_orig.Connection.{Connection}
use tibia_login_orig.Writer.{BufferWriter}
use tibia_login_orig.Reader.Hostile.{escaped, read_string_far}
use tibia_login_orig.Query.{QueryClient, Answer}
use tibia_login_orig.Rsa.{Rsa, decrypt}
use tibia_login_orig.Login.Request.{read_plaintext, decrypted, process_login_request}
use tibia_login_orig.Login.Request.Front.{version_of}
use tibia_login_orig.Login.Request.Plain.{Words, keyed, keyed_lem, asymmetric, request_lem}

-- An email of 2^31 bytes, behind the key words.
abbrev pub rewinding : ℕ → ℕ → ℕ → ℕ → List ℕ → List ℕ
rewinding k0 k1 k2 k3 rest = keyed k0 k1 k2 k3 (escaped (2 ^ 31) rest)

rewinding_lem :
    (k0 k1 k2 k3 : ℕ) (rest : List ℕ)
    → Words k0 k1 k2 k3
    → length rest ≡ 105
    → read_plaintext (rewinding k0 k1 k2 k3 rest) ≡ none
rewinding_lem k0 k1 k2 k3 rest words long =
    let (r, l, reads) = keyed_lem k0 k1 k2 k3 (escaped (2 ^ 31) rest) words (
      unfold ByteOrder.write_u8 ByteOrder.write_u16_le ByteOrder.write_u32_le in
      omega (arith, long)) in
    let (r', email, fault) =
      read_string_far (replicate 51 0) (replicate 30 0) rest r (omega arith) (omega (arith, long))
        l in
    reads ∙ rw (email, fault) refl

module _ {S : Type 0} (rand_r : ℕ → ℕ × ℕ) (rsa : Option Rsa)
    (execute_query : BufferWriter → QueryClient → S → Option (Answer × S)) (ip_string : ℕ → List ℕ)
    (motd : List ℕ) where
  decrypted-rewinding :
      (version k0 k1 k2 k3 : ℕ) (rest : List ℕ) (c : Connection) (client : QueryClient) (s : S)
      → Words k0 k1 k2 k3
      → length rest ≡ 105
      → decrypted rand_r rsa execute_query ip_string motd version
          (some (rewinding k0 k1 k2 k3 rest))
          c
          client
          s
        ≡ none
  unfolding decrypted ByteOrder.write_u8
  decrypted-rewinding version k0 k1 k2 k3 rest c client s words long =
      rw (rewinding_lem k0 k1 k2 k3 rest words long) refl

  -- A request of 145 bytes whose plaintext gives 2^31 as the length of the email, whatever else it
  -- holds, makes the server read in front of the plaintext: the call is undefined.
  pub process_login_request-rewinding :
      (k0 k1 k2 k3 : ℕ) (rest : List ℕ) (c : Connection) (client : QueryClient) (s : S)
      → length c.buffer ≡ 2048
      → c.rw_size ≡ 145
      → Words k0 k1 k2 k3
      → length rest ≡ 105
      → decrypt rsa (asymmetric c.buffer) ≡ some (rewinding k0 k1 k2 k3 rest)
      → process_login_request rand_r rsa execute_query ip_string motd c client s ≡ none
  process_login_request-rewinding k0 k1 k2 k3 rest c client s whole size words long plain =
      request_lem rand_r rsa execute_query ip_string motd c client s whole size
      ∙ ap
          (λ b.
            decrypted rand_r rsa execute_query ip_string motd (version_of (take 145 c.buffer)) b c
              client s)
          plain
      ∙ decrypted-rewinding (version_of (take 145 c.buffer)) k0 k1 k2 k3 rest c client s words long
