-- ===== src/Tests/Queries.antt =====
-- src/query at concrete inputs.
use tibia_login_orig.Base.{
  ℕ, min, ◌≡◌, refl, sym, ap, ◌∙◌, true, Option, none, some, List, [], ◌∷◌, ◌++◌, length, take,
  drop, replicate, take-append-drop, length-take, map, pos, codes, arith, All,
}
use tibia_login_orig.ByteOrder
use tibia_login_orig.Reader.{buffer_reader}
use tibia_login_orig.Reader.Laws.{Left}
use tibia_login_orig.Writer.{BufferWriter}
use tibia_login_orig.Query.{Network, QueryClient, ok, error, read_exact, write_exact}
use tibia_login_orig.Query.Exact.{InOrder, Fills, Delivers, read_exact-Fills, write_exact-Delivers}
use tibia_login_orig.Query.Requests.{login_answer, resolve_answer}
use tibia_login_orig.Query.Requests.Answers.{
  Character, Fits, characters_bytes, received, login_answer_lem, resolve_answer_bare_error,
}

-- What is still to come in, and what went out.
abbrev Pipe : Type 0
Pipe = List ℕ × List ℕ

-- A query manager that is always there. It takes a byte at a time and gives two.
abbrev pipe : Network Pipe
pipe = record {
  getaddrinfo = λ host s. (some (record { is_inet_stream = true; address = 7 } ∷ []), s);
  open_socket = λ s. (some 3, s);
  connect_socket = λ fd addr port s. (true, s);
  write = λ fd bytes s. (some 1, (s.0, s.1 ++ take 1 bytes));
  read = λ fd count s. (some (take (min count 2) s.0), (drop (min count 2) s.0, s.1));
  close = λ fd s. s;
}

abbrev given_or : {A : Type 0} → Option A → A → A
given_or none a = a
given_or (some b) a = b

pipe-InOrder : InOrder pipe
pipe-InOrder = record {
  incoming = λ fd s. s.0;
  outgoing = λ fd s. s.1;
  read_gives = λ fd count s bytes e.
      let same : take (min count 2) s.0 ≡ bytes = ap (λ o. given_or o []) e in
      (
        omega (arith, ap length same, length-take (min count 2) s.0),
        sym (take-append-drop (min count 2) s.0) ∙ ap (λ t. t ++ drop (min count 2) s.0) same,
      );
  write_takes = λ fd bytes s n full e.
      let same : 1 ≡ n = ap (λ o. given_or o 0) e in
      (omega (arith, same), ap (λ (k : ℕ). s.1 ++ take k bytes) same);
}

read_exact-Fills_example :
    Fills pipe pipe-InOrder 3
      (replicate 5 0)
      1
      3
      (7 ∷ 8 ∷ 9 ∷ 10 ∷ [], [])
      (read_exact pipe 3 3 (replicate 5 0) 1 3 (7 ∷ 8 ∷ 9 ∷ 10 ∷ [], []))
read_exact-Fills_example =
    read_exact-Fills pipe pipe-InOrder 3 3 (replicate 5 0) 1 3 (7 ∷ 8 ∷ 9 ∷ 10 ∷ [], [])
      (omega arith) (omega arith)

write_exact-Delivers_example :
    Delivers pipe pipe-InOrder 3
      (7 ∷ 8 ∷ [])
      ([], 9 ∷ [])
      (write_exact pipe 2 3 (7 ∷ 8 ∷ []) ([], 9 ∷ []))
write_exact-Delivers_example =
    write_exact-Delivers pipe pipe-InOrder 2 3 (7 ∷ 8 ∷ []) ([], 9 ∷ []) (omega arith)

-- A client that is connected, with a request of three bytes in 16.
abbrev request : BufferWriter
request = record { buffer = replicate 16 0; size = 16; position = 3 }

abbrev connected : QueryClient
connected = record { socket = some 3; host = codes "localhost"; port = 7174; password = codes "x" }

-- An answer of two bytes.
abbrev answers : Pipe
answers = (2 ∷ 0 ∷ 0 ∷ 5 ∷ [], [])

abbrev knight : Character
knight = record { name = codes "Knight"; world = codes "Old"; address = 0x7F000001; port = 7172 }

abbrev answer : List ℕ
answer =
    ByteOrder.write_u8 1 ++ (characters_bytes (knight ∷ []) ++ (ByteOrder.write_u16_le 30 ++ []))

answer-Left : Left (buffer_reader answer 22) answer
unfolding ByteOrder.write_u8 ByteOrder.write_u16_le ByteOrder.write_u32_be
answer-Left = record {
  start = 0;
  positioned = refl;
  inside = omega arith;
  fits = omega arith;
  bounded = omega arith;
  is_left = refl;
}

knight-Fits : All Fits (knight ∷ [])
knight-Fits = (
  (
    (omega arith, (omega arith, (omega arith, (omega arith, (omega arith, (omega arith, tt)))))),
    omega arith,
    (omega arith, (omega arith, (omega arith, tt))),
    omega arith,
    omega arith,
    omega arith,
  ),
  tt,
)

login_answer_lem_example :
    login_answer 50 ok (buffer_reader answer 22)
    ≡ some (record {
      code = pos 0;
      num_characters = 1;
      characters = map received (knight ∷ []);
      premium_days = 30;
    })
login_answer_lem_example =
    login_answer_lem 50 30 (knight ∷ []) [] (buffer_reader answer 22) knight-Fits (omega arith)
      (omega arith) (omega arith) answer-Left

resolve_answer_bare_error_example :
    resolve_answer error (record { buffer = 1 ∷ []; size = 1; position = pos 1 })
    ≡ some (pos 0, pos 0)
resolve_answer_bare_error_example =
    resolve_answer_bare_error (record { buffer = 1 ∷ []; size = 1; position = pos 1 }) (omega arith)
      (record {
        start = 1;
        positioned = refl;
        inside = omega arith;
        fits = omega arith;
        bounded = omega arith;
        is_left = refl;
      })
