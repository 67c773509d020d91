-- ===== src/Login.antt =====
-- src/login/login_handler.cpp: login requests and their responses. `rand_r`, the RSA key, the formatting
-- of an address and the queries are parameters. The buffer of a response is that of its connection: it
-- is taken by the writer, and put back where the writer is used up.
pub mod Response
pub mod Messages
pub mod Request
use tibia_login_orig.Base.{
  ℕ, zero, suc, ◌+◌, ◌-◌, ◌%◌, u16, u32, Bool, true, false, not, ◌||◌, Option, none, some, List, [],
  ◌∷◌, ltb, leb, ◌==◌, min, if◌then◌else◌, take, replicate, load, store, ◌>>=◌, ℤ, pos, negsuc, map,
}
use tibia_login_orig.Connection.{Connection, ConnectionState, close_connection}
use tibia_login_orig.Connection.Life.{is_processing}
use tibia_login_orig.Writer.{
  BufferWriter, buffer_writer, write_u8, write_u16, write_u32_be, write_string, rewrite_u16,
  overflowed,
}
use tibia_login_orig.Xtea.{xtea_encrypt}
use tibia_login_orig.Strings.{c_string}
use tibia_login_orig.Query.Requests.{CharacterLoginData}

-- The connection, and the writer of a response; over no buffer if the connection is not PROCESSING.
unfoldable pub prepare_xtea_response : Connection → Option (Connection × BufferWriter)
prepare_xtea_response c =
    if not (is_processing c.state)
    then some (close_connection c, buffer_writer [] 0)
    else write_u16 0 (buffer_writer c.buffer 2048) >>= (λ w. write_u16 0 w >>= (λ w'. some (c, w')))

-- `while((encrypted_size % 8) != 0)`: the seed and the writer behind it. Fewer than 8 rounds are left.
unfoldable pub pad : (ℕ → ℕ × ℕ) → ℕ → ℕ → ℕ → BufferWriter → Option (ℕ × BufferWriter)
pad rand_r zero encrypted_size seed w = none
pad rand_r (suc fuel) encrypted_size seed w =
    let (byte, seed') = rand_r seed in
    let more = write_u8 byte w >>= pad rand_r fuel (encrypted_size + 1) seed' in
    if encrypted_size % 8 == 0 then some (seed, w) else more

-- From `data_size` on the response is encrypted in place.
unfoldable pub encrypt_response : List ℕ → BufferWriter → Option BufferWriter
encrypt_response key w = load w.buffer 2 (w.position - 2) >>= (λ plain.
    store w.buffer 2 (xtea_encrypt key plain) >>= (λ buffer. some (record w { buffer = buffer })))

-- The end of `send_xtea_response`, for a response that fits.
unfoldable pub finish_response : ℕ → Connection → BufferWriter → Option Connection
unfolding encrypt_response
finish_response data_size c w = rewrite_u16 0 (u16 (w.position - 2)) w >>= (λ w1.
    rewrite_u16 2 (u16 data_size) w1 >>= (λ w2. encrypt_response c.xtea w2 >>= (λ w3.
      some (record c {
        buffer = w3.buffer;
        state = ConnectionState.writing;
        rw_size = w3.position;
        rw_position = 0;
      }))))

unfoldable pub send_xtea_response : (ℕ → ℕ × ℕ) → Connection → BufferWriter → Option Connection
unfolding pad finish_response
send_xtea_response rand_r c w =
    if not (is_processing c.state)
    then some (close_connection c)
    else pad rand_r 8 (w.position - 2) c.random_seed w >>= (λ (seed, w').
      let c' : Connection = record c { random_seed = seed } in
      if overflowed w'
      then some (close_connection (record c' { buffer = w'.buffer }))
      else finish_response (w.position - 4) c' w')

-- A response whose body is written by `body`.
unfoldable pub respond :
    (ℕ → ℕ × ℕ) → (BufferWriter → Option BufferWriter) → Connection → Option Connection
unfolding prepare_xtea_response send_xtea_response
respond rand_r body c =
    prepare_xtea_response c >>= (λ (c', w). body w >>= send_xtea_response rand_r c')

abbrev pub login_error_body : List ℕ → BufferWriter → Option BufferWriter
login_error_body message w = write_u8 10 w >>= write_string message

unfoldable pub send_login_error : (ℕ → ℕ × ℕ) → List ℕ → Connection → Option Connection
unfolding respond
send_login_error rand_r message c = respond rand_r (login_error_body message) c

unfoldable pub write_character : CharacterLoginData → BufferWriter → Option BufferWriter
write_character character w = write_string (c_string character.name) w >>= (λ w1.
    write_string (c_string character.world_name) w1
    >>= (λ w2. write_u32_be character.world_address w2 >>= write_u16 character.world_port))

-- `for(int i = 0; i < num_characters; i += 1)`
unfoldable pub write_characters : List CharacterLoginData → BufferWriter → Option BufferWriter
unfolding write_character
write_characters [] w = some w
write_characters (character ∷ characters) w =
    write_character character w >>= write_characters characters

unfoldable pub write_motd : List ℕ → BufferWriter → Option BufferWriter
write_motd [] w = some w
write_motd (m ∷ otd) w = write_u8 20 w >>= write_string (m ∷ otd)

unfoldable pub character_list_body :
    List ℕ → ℕ → List CharacterLoginData → ℕ → BufferWriter → Option BufferWriter
unfolding write_motd write_characters
character_list_body motd num_characters characters premium_days w = write_motd motd w >>= (λ w1.
    write_u8 100 w1 >>= (λ w2. write_u8 (min num_characters 255) w2 >>= (λ w3.
      write_characters (take (min num_characters 255) characters) w3
      >>= write_u16 (u16 premium_days))))

unfoldable pub send_character_list :
    (ℕ → ℕ × ℕ) → List ℕ → ℕ → List CharacterLoginData → ℕ → Connection → Option Connection
unfolding respond character_list_body
send_character_list rand_r motd num_characters characters premium_days c =
    respond rand_r (character_list_body motd num_characters characters premium_days) c
