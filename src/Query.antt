-- ===== src/Query.antt =====
-- src/query/query_client.cpp and src/query/query_types.h: the connection to the query manager. The calls
-- of the system are a parameter, `Network`; a C string is the list of the bytes in front of its
-- terminator. `none` is an access outside an array, or spent fuel.
pub mod Exact
pub mod Client
pub mod Requests
use tibia_login_orig.Base.{
  ℕ, zero, suc, ◌+◌, ◌-◌, Bool, true, false, not, ◌&&◌, ◌||◌, Option, none, some, List, [], ◌∷◌,
  length, take, drop, ltb, leb, ◌==◌, if◌then◌else◌, replicate, get_or, u16, u32, store, ◌>>=◌, ℤ,
  pos, negsuc, as_int, lebℤ, pos_part,
}
use tibia_login_orig.ByteOrder.{read_u16_le, read_u32_le}
use tibia_login_orig.Writer.{
  BufferWriter, buffer_writer, write_u8, write_u16, write_string, rewrite_u16, insert_u32,
  overflowed,
}
use tibia_login_orig.Reader.{BufferReader, buffer_reader, read_u8}

pub data QueryType : Type 0 where
  login login_account resolve_email get_worlds : QueryType

abbrev pub query_type_code : QueryType → ℕ
query_type_code login = 0
query_type_code login_account = 11
query_type_code resolve_email = 13
query_type_code get_worlds = 150

-- `other` is a value of the underlying type that the source does not name.
pub data QueryStatus : Type 0 where
  ok error failed : QueryStatus
  other : ℕ → QueryStatus

-- `static_cast<QueryStatus>(status)`
abbrev pub query_status : ℕ → QueryStatus
query_status n = if n == 0 then ok else if n == 1 then error else if n == 3 then failed else other n

-- An entry of the list that `getaddrinfo` gives.
pub record AddrInfo : Type 0 where
  pub is_inet_stream : Bool
  pub address : ℕ

-- The calls of the system, over its state. `none` is the result -1, or an error of `getaddrinfo`.
pub record Network (S : Type 0) : Type 0 where
  pub getaddrinfo : List ℕ → S → Option (List AddrInfo) × S
  pub open_socket : S → Option ℕ × S
  pub connect_socket : ℕ → ℕ → ℕ → S → Bool × S
  pub write : ℕ → List ℕ → S → Option ℕ × S
  pub read : ℕ → ℕ → S → Option (List ℕ) × S
  pub close : ℕ → S → S

-- No socket is -1. `host` and `password` are cut to the 255 bytes that their arrays have room for.
pub record QueryClient : Type 0 where
  pub socket : Option ℕ
  pub host : List ℕ
  pub port : ℕ
  pub password : List ℕ

abbrev pub query_client : QueryClient
query_client = record { socket = none; host = []; port = 0; password = [] }

abbrev pub is_connected : QueryClient → Bool
is_connected client = elim client.socket [ none ↦ false | some fd ↦ true ]

-- The loop over the addresses of `ResolveHostName`.
unfoldable pub first_inet : List AddrInfo → Option ℕ
first_inet [] = none
first_inet (info ∷ infos) =
    let rest = first_inet infos in if info.is_inet_stream then some info.address else rest

unfoldable pub prepare_query : QueryType → List ℕ → ℕ → Option BufferWriter
prepare_query type buffer buffer_size =
    write_u16 0 (buffer_writer buffer buffer_size) >>= write_u8 (query_type_code type)

-- The size of the request, put in front of it.
unfoldable pub frame_request : BufferWriter → Option BufferWriter
frame_request w =
    let request_size = w.position - 2 in
    if ltb request_size 0xFFFF
    then rewrite_u16 0 (u16 request_size) w
    else rewrite_u16 0 0xFFFF w >>= insert_u32 2 (u32 request_size)

-- What a call of `execute_query` leaves: its result, `*out_read_buffer`, and the client. A reader
-- that the call does not set is the one that its caller made, over no bytes.
pub record Answer : Type 0 where
  pub status : QueryStatus
  pub reader : BufferReader
  pub client : QueryClient

abbrev pub query_failed : QueryClient → Answer
query_failed client = record { status = failed; reader = buffer_reader [] 0; client = client }

module _ {S : Type 0} (net : Network S) where
  unfoldable pub resolve_host_name : List ℕ → S → Option ℕ × S
  unfolding first_inet
  resolve_host_name host_name s =
      let (found, s') = net.getaddrinfo host_name s in
      (elim found [ none ↦ none | some infos ↦ first_inet infos ], s')

  -- `while(bytes_to_write > 0)`, over the bytes that are still to be written.
  unfoldable pub write_exact : ℕ → ℕ → List ℕ → S → Option (Bool × S)
  write_exact fuel fd [] s = some (true, s)
  write_exact zero fd (b ∷ bs) s = none
  write_exact (suc fuel) fd (b ∷ bs) s =
      let (ret, s') = net.write fd (b ∷ bs) s in
      elim ret [ none ↦ some (false, s') | some n ↦ write_exact fuel fd (drop n (b ∷ bs)) s' ]

  -- `while(bytes_to_read > 0)`, into the array from `at` on.
  unfoldable pub read_exact : ℕ → ℕ → List ℕ → ℕ → ℕ → S → Option (Bool × List ℕ × S)
  read_exact fuel fd buffer at zero s = some (true, buffer, s)
  read_exact zero fd buffer at (suc n) s = none
  read_exact (suc fuel) fd buffer at (suc n) s =
      let (ret, s') = net.read fd (suc n) s in
      elim ret [
        | none ↦ some (false, buffer, s')
        | some [] ↦ some (false, buffer, s')
        | some (b ∷ bs) ↦ store buffer at (b ∷ bs) >>= (λ buffer'.
            read_exact fuel fd buffer' (at + length (b ∷ bs)) (suc n - length (b ∷ bs)) s')
      ]

  unfoldable pub disconnect : QueryClient → S → QueryClient × S
  disconnect client s = elim client.socket [
    | none ↦ (client, s)
    | some fd ↦ (record client { socket = none }, net.close fd s)
  ]
