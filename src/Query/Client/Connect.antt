-- ===== src/Query/Client/Connect.antt =====
-- Connecting to the query manager ends too, so that a query with its reconnection does.
use tibia_login_orig.Base.{
  ◌≡◌, ℕ, ◌≤◌, refl, inl, inr, Bool, true, false, Option, none, some, List, ◌++◌, take, length,
  replicate, Bool-cases, arith,
}
use tibia_login_orig.ByteOrder
use tibia_login_orig.Writer.{BufferWriter, buffer_writer, write_u8, write_u16}
use tibia_login_orig.Writer.Laws.{Appends, then-Appends}
use tibia_login_orig.Writer.Texts.{
  write_u8-Appends, write_u16-Appends, write_string-Appends, string_bytes,
}
use tibia_login_orig.Query.{
  frame_request, Answer, QueryType, query_type_code, Network, QueryClient, is_connected,
  prepare_query, resolve_host_name, disconnect,
}
use tibia_login_orig.Query.Exact.{InOrder}
use tibia_login_orig.Query.Client.{
  retry, exchange_on, login_request, logged_in, log_in, connect_with, connect_to, connect,
}
use tibia_login_orig.Query.Client.Laws.{IsFine, Ends}
use tibia_login_orig.Query.Client.Total.{Reconnects, execute_with-Ends}

-- Room for the size of a request, and its type.
pub prepare_query-Appends :
    (type : QueryType) (buffer : List ℕ) (size : ℕ)
    → size ≤ length buffer
    → Appends
        (buffer_writer buffer size)
        (ByteOrder.write_u16_le 0 ++ ByteOrder.write_u8 (query_type_code type))
        (prepare_query type buffer size)
unfolding prepare_query
prepare_query-Appends type buffer size s =
    then-Appends (buffer_writer buffer size) (ByteOrder.write_u16_le 0)
      (ByteOrder.write_u8 (query_type_code type)) (write_u16 0 (buffer_writer buffer size))
      (write_u8 (query_type_code type)) s (write_u16-Appends 0 (buffer_writer buffer size) s)
      (λ v t. write_u8-Appends (query_type_code type) v t)

abbrev login_bytes : List ℕ → List ℕ
login_bytes password =
    (ByteOrder.write_u16_le 0 ++ ByteOrder.write_u8 0)
    ++ (ByteOrder.write_u8 2 ++ string_bytes password)

login_request-Appends :
    (password : List ℕ)
    → Appends
        (buffer_writer (replicate 1024 0) 1024)
        (login_bytes password)
        (login_request password)
unfolding login_request
login_request-Appends password =
    then-Appends (buffer_writer (replicate 1024 0) 1024) _ _ _ _ (omega arith)
      (prepare_query-Appends QueryType.login (replicate 1024 0) 1024 (omega arith))
      (λ v s.
        then-Appends v _ _ _ _ s (write_u8-Appends 2 v s)
          (λ u t. write_string-Appends password u t))

module _ {S : Type 0} (net : Network S) (io : InOrder net) where
  log_in-Reconnects : Reconnects net io (log_in net)
  unfolding log_in
  log_in-Reconnects client s =
      let a = login_request-Appends client.password in
      let (answer, s', run, fine) =
        execute_with-Ends net io (λ c t. some (false, c, t)) a.after client s
          (omega (arith, a.size_kept, a.length_kept)) (omega (arith, a.size_kept))
          (λ c t. (false, c, t, refl)) in
      let (b, client', s'') = logged_in net answer.status answer.client s' in
      (b, client', s'', rw (a.returns, run) refl)

  connect_with-Reconnects :
      (opened : Option ℕ) (addr : ℕ) → Reconnects net io (connect_with net opened addr)
  unfolding connect_with
  connect_with-Reconnects none addr client s = (false, client, s, refl)
  connect_with-Reconnects (some fd) addr client s =
      let (reached, s') = net.connect_socket fd addr client.port s in
      let client' : QueryClient = record client { socket = some fd } in
      elim (Bool-cases reached) [
        | inl on ↦ rw on (log_in-Reconnects client' s')
        | inr off ↦
            (false, (disconnect net client' s').0, (disconnect net client' s').1, rw off refl)
      ]

  connect_to-Reconnects : (resolved : Option ℕ) → Reconnects net io (connect_to net resolved)
  unfolding connect_to
  connect_to-Reconnects none client s = (false, client, s, refl)
  connect_to-Reconnects (some addr) client s =
      connect_with-Reconnects (net.open_socket s).0 addr client (net.open_socket s).1

  connect-Reconnects :
      (host : List ℕ) (port : ℕ) (password : List ℕ)
      → Reconnects net io (connect net host port password)
  unfolding connect
  connect-Reconnects host port password client s = elim (Bool-cases (is_connected client)) [
    | inl on ↦ (false, client, s, rw on)
    | inr off ↦ rw off (
        connect_to-Reconnects (resolve_host_name net (take 255 host) s).0
          (record client { host = take 255 host; port = port; password = take 255 password })
          (resolve_host_name net (take 255 host) s).1)
  ]

  -- A query is left without a connection: it had none, or what failed on it may be mended.
  pub data IsLost (w : BufferWriter) (client : QueryClient) (s : S) : Type 0 where
    never_there : is_connected client ≡ false → IsLost w client s
    broken_off :
        (framed : BufferWriter) (client' : QueryClient) (s' : S)
        → is_connected client ≡ true
        → frame_request w ≡ some framed
        → exchange_on net client.socket true framed client s ≡ some (retry client', s')
        → IsLost w client s

  -- The query ends, or it has to connect again.
  pub data Queried (auto_reconnect : Bool) (w : BufferWriter) (client : QueryClient) (s : S)
      (result : Option (Answer × S)) : Type 0 where
    ends : Ends net (IsFine w.size) result → Queried auto_reconnect w client s result
    connects_again :
        auto_reconnect ≡ true
        → result ≡ none
        → IsLost w client s
        → Queried auto_reconnect w client s result
