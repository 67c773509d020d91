-- ===== src/Query/Requests.antt =====
-- src/query/login_query.cpp and src/query/world_query.cpp: what is asked of the query manager, and what
-- is made of its answers. The query itself is a parameter, `execute_query(true, …)` of the client.
pub mod Answers
pub mod Worlds
use tibia_login_orig.Base.{
  ℕ, zero, suc, ◌+◌, Bool, true, false, ◌&&◌, ◌||◌, Option, none, some, List, [], ◌∷◌, replicate,
  ltb, leb, ◌==◌, if◌then◌else◌, ◌>>=◌, ℤ, pos, negsuc, as_int,
}
use tibia_login_orig.Strings.{c_string, string_empty, string_equals_ignore_case}
use tibia_login_orig.Writer.{BufferWriter, write_u32, write_string}
use tibia_login_orig.Reader.{BufferReader, read_u8, read_u16, read_u32, read_u32_be, read_string}
use tibia_login_orig.Query.{
  QueryType, QueryStatus, ok, error, failed, other, QueryClient, Answer, prepare_query,
}

-- The names are arrays of 30 bytes.
pub record CharacterLoginData : Type 0 where
  pub name : List ℕ
  pub world_name : List ℕ
  pub world_address : ℕ
  pub world_port : ℕ

pub record WorldInfo : Type 0 where
  pub name : List ℕ
  pub type : ℕ
  pub num_players : ℕ
  pub max_players : ℕ
  pub online_peak : ℕ
  pub online_peak_timestamp : ℤ
  pub last_startup : ℤ
  pub last_shutdown : ℤ

-- The result of `login_account`, and what it leaves in its arguments.
pub record LoginAccount : Type 0 where
  pub code : ℤ
  pub num_characters : ℕ
  pub characters : List CharacterLoginData
  pub premium_days : ℕ

abbrev pub no_login : ℤ → LoginAccount
no_login code = record { code = code; num_characters = 0; characters = []; premium_days = 0 }

unfoldable pub read_character : BufferReader → Option (CharacterLoginData × BufferReader)
read_character r = read_string (replicate 30 0) r >>= (λ (name, r1).
    read_string (replicate 30 0) r1 >>= (λ (world_name, r2).
      read_u32_be r2 >>= (λ (world_address, r3). read_u16 r3 >>= (λ (world_port, r4). some (
        record {
          name = name;
          world_name = world_name;
          world_address = world_address;
          world_port = world_port;
        },
        r4,
      )))))

-- `for(int i = 0; i < *num_characters; i += 1)`
unfoldable pub read_characters : ℕ → BufferReader → Option (List CharacterLoginData × BufferReader)
unfolding read_character
read_characters zero r = some ([], r)
read_characters (suc n) r = read_character r >>= (λ (character, r').
    read_characters n r' >>= (λ (characters, r''). some (character ∷ characters, r'')))

unfoldable pub login_answer : ℕ → QueryStatus → BufferReader → Option LoginAccount
unfolding read_characters
login_answer max_characters ok r = read_u8 r >>= (λ (num_characters, r').
    if ltb max_characters num_characters
    then some (record (no_login (negsuc 0)) { num_characters = num_characters })
    else read_characters num_characters r' >>= (λ (characters, r'').
      read_u16 r'' >>= (λ (premium_days, r3). some (record {
        code = pos 0;
        num_characters = num_characters;
        characters = characters;
        premium_days = premium_days;
      }))))
login_answer max_characters error r = read_u8 r >>= (λ (error_code, r').
    some (no_login (if leb 1 error_code && leb error_code 6 then pos error_code else negsuc 0)))
login_answer max_characters failed r = some (no_login (negsuc 0))
login_answer max_characters (other n) r = some (no_login (negsuc 0))

-- The result of `resolve_email` and `*account_id`, which its caller set to 0.
unfoldable pub resolve_answer : QueryStatus → BufferReader → Option (ℤ × ℤ)
resolve_answer ok r = read_u32 r >>= (λ (account_id, r'). some (pos 0, as_int account_id))
resolve_answer error r = read_u8 r >>= (λ (code, r'). some (pos code, pos 0))
resolve_answer failed r = some (negsuc 0, pos 0)
resolve_answer (other n) r = some (negsuc 0, pos 0)

abbrev pub no_world : WorldInfo
no_world = record {
  name = replicate 30 0;
  type = 0;
  num_players = 0;
  max_players = 0;
  online_peak = 0;
  online_peak_timestamp = pos 0;
  last_startup = pos 0;
  last_shutdown = pos 0;
}

unfoldable pub read_world : BufferReader → Option (WorldInfo × BufferReader)
read_world r = read_string (replicate 30 0) r >>= (λ (name, r1). read_u8 r1 >>= (λ (type, r2).
    read_u16 r2 >>= (λ (num_players, r3). read_u16 r3 >>= (λ (max_players, r4).
      read_u16 r4 >>= (λ (online_peak, r5). read_u32 r5 >>= (λ (peak_timestamp, r6).
        read_u32 r6 >>= (λ (startup, r7). read_u32 r7 >>= (λ (shutdown, r8). some (
          record {
            name = name;
            type = type;
            num_players = num_players;
            max_players = max_players;
            online_peak = online_peak;
            online_peak_timestamp = as_int peak_timestamp;
            last_startup = as_int startup;
            last_shutdown = as_int shutdown;
          },
          r8,
        )))))))))

-- The rest of the loop over the worlds, where `first` is `i == 0` and `out` what was chosen so far.
unfoldable pub choose_world : ℕ → List ℕ → Bool → WorldInfo → BufferReader → Option WorldInfo
unfolding read_world
choose_world zero world_name first out r = some out
choose_world (suc n) world_name first out r = read_world r >>= (λ (world, r').
    let busier = choose_world n world_name false world r' in
    let rest = choose_world n world_name false out r' in
    if string_empty world_name
    then (if first || ltb out.num_players world.num_players then busier else rest)
    else if string_equals_ignore_case world_name (c_string world.name)
    then some world
    else rest)

unfoldable pub world_answer : List ℕ → QueryStatus → BufferReader → Option (ℤ × WorldInfo)
unfolding choose_world
world_answer world_name ok r = read_u8 r >>= (λ (num_worlds, r').
    choose_world num_worlds world_name true no_world r' >>= (λ world. some (pos 0, world)))
world_answer world_name error r = some (negsuc 0, no_world)
world_answer world_name failed r = some (negsuc 0, no_world)
world_answer world_name (other n) r = some (negsuc 0, no_world)

unfoldable pub login_account_request : ℕ → List ℕ → List ℕ → Option BufferWriter
login_account_request account_id password ip_address =
    prepare_query QueryType.login_account (replicate 4096 0) 4096 >>= (λ w.
      write_u32 account_id w >>= (λ w'. write_string password w' >>= write_string ip_address))

unfoldable pub resolve_email_request : List ℕ → Option BufferWriter
resolve_email_request email =
    prepare_query QueryType.resolve_email (replicate 1024 0) 1024 >>= write_string email

module _ {S : Type 0} (execute_query : BufferWriter → QueryClient → S → Option (Answer × S)) where
  unfoldable pub login_account :
      ℕ → List ℕ → List ℕ → ℕ → QueryClient → S → Option (LoginAccount × QueryClient × S)
  unfolding login_answer login_account_request
  login_account account_id password ip_address max_characters client s =
      login_account_request account_id password ip_address >>= (λ w.
        execute_query w client s >>= (λ (answer, s').
          login_answer max_characters answer.status answer.reader
          >>= (λ result. some (result, answer.client, s'))))

  unfoldable pub resolve_email : List ℕ → QueryClient → S → Option (ℤ × ℤ × QueryClient × S)
  unfolding resolve_answer resolve_email_request
  resolve_email email client s = resolve_email_request email >>= (λ w.
      execute_query w client s >>= (λ (answer, s').
        resolve_answer answer.status answer.reader
        >>= (λ (code, account_id). some (code, account_id, answer.client, s'))))

  unfoldable pub get_world : List ℕ → QueryClient → S → Option (ℤ × WorldInfo × QueryClient × S)
  unfolding world_answer
  get_world world_name client s =
      prepare_query QueryType.get_worlds (replicate 4096 0) 4096 >>= (λ w.
        execute_query w client s >>= (λ (answer, s').
          world_answer world_name answer.status answer.reader
          >>= (λ (result, world). some (result, world, answer.client, s'))))
