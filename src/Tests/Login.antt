-- ===== src/Tests/Login.antt =====
-- src/login at concrete inputs.
use tibia_login_orig.Base.{
  ℕ, ◌+◌, ◌≤◌, ◌≡◌, refl, inl, inr, false, Option, none, some, List, [], ◌∷◌, ◌++◌, length,
  replicate, length-replicate, codes, arith,
}
use tibia_login_orig.ByteOrder
use tibia_login_orig.Connection.{Connection, ConnectionState, close_connection}
use tibia_login_orig.Reader.Texts.{terminated}
use tibia_login_orig.Writer.{BufferWriter}
use tibia_login_orig.Strings.{c_string, string_empty}
use tibia_login_orig.Utf8.{utf8_decode_one, latin1_advance, utf8_sequence_size}
use tibia_login_orig.Query.{QueryClient, query_client, Answer}
use tibia_login_orig.Query.Requests.{CharacterLoginData}
use tibia_login_orig.Rsa.{Rsa, decrypt}
use tibia_login_orig.Login.{send_login_error, send_character_list}
use tibia_login_orig.Login.Messages.{
  error_bytes, length-error_bytes, list_bytes, send_login_error_lem, send_character_list_lem,
}
use tibia_login_orig.Login.Response.{IsResponse}
use tibia_login_orig.Login.Request.{read_plaintext, process_login_request}
use tibia_login_orig.Login.Request.Plain.{
  IsPlaintext, keyed, text, early_message, read_plaintext_lem, process_login_request-Refused,
  process_login_request_early,
}
use tibia_login_orig.Login.Request.Hostile.{rewinding, process_login_request-rewinding}

-- A generator that counts.
abbrev rand_r : ℕ → ℕ × ℕ
rand_r seed = (seed, seed + 1)

abbrev with_buffer : List ℕ → Connection
with_buffer buffer = record {
  state = ConnectionState.processing;
  socket = some 5;
  ip_address = 7;
  start_time = 0;
  rw_size = 145;
  rw_position = 0;
  random_seed = 1;
  xtea = 1 ∷ 2 ∷ 3 ∷ 4 ∷ [];
  remote_address = replicate 32 0;
  buffer = buffer;
}

abbrev ready : Connection
ready = with_buffer (replicate 2048 0)

send_login_error_lem_example :
    (c' : Connection) × (send_login_error rand_r (codes "No.") ready ≡ some c')
    × IsResponse (1 ∷ 2 ∷ 3 ∷ 4 ∷ []) (error_bytes (codes "No.")) c'
send_login_error_lem_example =
    send_login_error_lem rand_r (codes "No.") ready (length-replicate {A = ℕ} 2048 0) refl
      (omega (arith, length-error_bytes (codes "No.")))

abbrev knight : CharacterLoginData
knight = record {
  name = codes "Knight" ++ replicate 24 0;
  world_name = codes "Old" ++ replicate 27 0;
  world_address = 0x7F000001;
  world_port = 7172;
}

short_list : length (list_bytes (codes "Hi") 1 (knight ∷ []) 30) ≤ 2038
unfolding ByteOrder.write_u8 ByteOrder.write_u16_le ByteOrder.write_u32_be c_string utf8_decode_one
    latin1_advance utf8_sequence_size
short_list = omega arith

send_character_list_lem_example :
    (c' : Connection) × (send_character_list rand_r (codes "Hi") 1 (knight ∷ []) 30 ready ≡ some c')
    × IsResponse (1 ∷ 2 ∷ 3 ∷ 4 ∷ []) (list_bytes (codes "Hi") 1 (knight ∷ []) 30) c'
send_character_list_lem_example =
    send_character_list_lem rand_r (codes "Hi") 1 (knight ∷ []) 30 ready
      (length-replicate {A = ℕ} 2048 0) refl short_list

-- A request with an empty email.
abbrev plaintext : List ℕ
plaintext = keyed 1 2 3 4 (text [] (text (codes "x") (replicate 106 0)))

plaintext_lem : IsPlaintext 1 2 3 4 [] (codes "x") (replicate 106 0)
unfolding ByteOrder.write_u8 ByteOrder.write_u16_le ByteOrder.write_u32_le
plaintext_lem = record {
  words = record { w0 = omega arith; w1 = omega arith; w2 = omega arith; w3 = omega arith };
  size = omega arith;
  email_bytes = tt;
  email_short = omega arith;
  password_bytes = (omega arith, tt);
  password_short = omega arith;
}

read_plaintext_lem_example :
    read_plaintext (keyed 1 2 3 4 (text [] (text (codes "x") (replicate 106 0))))
    ≡ some (record {
      xtea = 1 ∷ 2 ∷ 3 ∷ 4 ∷ [];
      email = terminated 51 [];
      password = terminated 30 (codes "x");
      overran = false;
    })
read_plaintext_lem_example =
    read_plaintext_lem 1 2 3 4 [] (codes "x") (replicate 106 0) plaintext_lem

-- A key whose plaintext is the ciphertext, and a query manager that does not answer.
abbrev plain_rsa : Option Rsa
plain_rsa = some (record { rsa_size = 128; private_decrypt = λ bytes. some bytes })

abbrev unasked : BufferWriter → QueryClient → ℕ → Option (Answer × ℕ)
unasked w client n = none

abbrev no_address : ℕ → List ℕ
no_address ip_address = codes "0.0.0.7"

process_login_request-Refused_example :
    process_login_request rand_r plain_rsa unasked no_address []
      (with_buffer (replicate 2048 1))
      query_client
      0
    ≡ some (close_connection (with_buffer (replicate 2048 1)), query_client, 0)
unfolding decrypt
process_login_request-Refused_example =
    process_login_request-Refused rand_r plain_rsa unasked no_address []
      (with_buffer (replicate 2048 1)) query_client 0 (length-replicate {A = ℕ} 2048 1)
      (inr (omega arith))

abbrev requested : Connection
requested = with_buffer (replicate 17 0 ++ (plaintext ++ replicate 1903 0))

process_login_request_early_example :
    (c' : Connection) × (process_login_request rand_r plain_rsa unasked no_address [] requested
        query_client 0
      ≡ some (c', query_client, 0))
    × IsResponse (1 ∷ 2 ∷ 3 ∷ 4 ∷ []) (error_bytes (early_message (terminated 51 []))) c'
unfolding decrypt ByteOrder.write_u8 ByteOrder.write_u16_le ByteOrder.write_u32_le string_empty
process_login_request_early_example =
    process_login_request_early rand_r plain_rsa unasked no_address [] 1 2 3 4 [] (codes "x")
      (replicate 106 0) requested query_client 0 (omega arith) refl refl plaintext_lem refl
      (inl refl)

abbrev rewound : Connection
rewound = with_buffer (replicate 17 0 ++ (rewinding 1 2 3 4 (replicate 105 0) ++ replicate 1903 0))

process_login_request-rewinding_example :
    process_login_request rand_r plain_rsa unasked no_address [] rewound query_client 0 ≡ none
unfolding decrypt ByteOrder.write_u8 ByteOrder.write_u16_le ByteOrder.write_u32_le
process_login_request-rewinding_example =
    process_login_request-rewinding rand_r plain_rsa unasked no_address [] 1 2 3 4 (replicate 105 0)
      rewound query_client 0 (omega arith) refl
      (record { w0 = omega arith; w1 = omega arith; w2 = omega arith; w3 = omega arith }) refl refl
