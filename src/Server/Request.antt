-- ===== src/Server/Request.antt =====
-- The answer to a request in src/network/server.cpp: process_status_request and check_connection_request.
use tibia_login_orig.Base.{
  ℕ, suc, ◌+◌, ◌^◌, ◌≤◌, ◌<◌, ◌≡◌, refl, ap, ◌⊎◌, inl, inr, false, Bool-cases, Option, none, some,
  List, [], ◌∷◌, length, take, drop, get_or, lt→ltb, leb, ◌==◌, replicate, length-take, overwrite,
  store_fits, load_fits, ◌>>=◌, ℤ, pos, add_int_pos, arith,
}
use tibia_login_orig.Connection.{Connection, ConnectionState, close_connection, has_socket}
use tibia_login_orig.Connection.Life.{
  is_free, is_processing, answer_status, process_status_request, send_status_string_lem,
}
use tibia_login_orig.ByteOrder.{read_1}
use tibia_login_orig.Connection.Output.{IsWritable}
use tibia_login_orig.StatusLimit.{StatusRecord}
use tibia_login_orig.StatusLimit.Search.{record_of}
use tibia_login_orig.StatusLimit.Laws.{allowed, allow_status_request_lem}
use tibia_login_orig.Reader.{BufferReader, buffer_reader, get, read_u8, read_bytes, load_at}
use tibia_login_orig.Strings.{c_string, string_equals_ignore_case}
use tibia_login_orig.Server.{Environment, check_command, check_connection_request}

-- What is left of a request: the connection is closed, or it has a response to write.
pub record IsAnswered (c : Connection) : Type 0 where
  pub whole : length c.buffer ≡ 2048
  pub busy : is_free c.state ≡ false
  pub answer : (c.socket ≡ none) ⊎ IsWritable c

-- A connection with a request.
pub record IsAsking (c : Connection) : Type 0 where
  pub whole : length c.buffer ≡ 2048
  pub in_state : c.state ≡ ConnectionState.processing
  pub asks : 0 < c.rw_size
  pub fits : c.rw_size ≤ 2048

-- A read from a position in range is defined, past the end of the buffer too.
get_total :
    (n : ℕ) (word : List ℕ → ℕ) (r : BufferReader) (p : ℕ)
    → r.position ≡ pos p
    → p + suc n < 2 ^ 31
    → r.size ≤ length r.buffer
    → (v : ℕ) × (get (suc n) word r ≡ some (v, record r { position = pos (p + suc n) }))
unfolding get load_at
get_total n word r p at_p small fits = elim (Bool-cases (leb (p + suc n + 0) (r.size + 0))) [
  | inl readable ↦ (
    word (take (suc n) (drop p r.buffer)),
    rw
        (
          at_p,
          get,
          add_int_pos p (suc n) small,
          readable,
          load_fits r.buffer p (suc n) (ground arith),
        )
        refl,
  )
  | inr over ↦ (0, rw (at_p, get, add_int_pos p (suc n) small, over) refl)
]

read_bytes_total :
    (n : ℕ) (dest : List ℕ) (r : BufferReader) (p : ℕ)
    → r.position ≡ pos p
    → p + suc n < 2 ^ 31
    → r.size ≤ length r.buffer
    → suc n ≤ length dest
    → (bytes : List ℕ) × (read_bytes dest (suc n) r
        ≡ some (bytes, record r { position = pos (p + suc n) }))
unfolding read_bytes load_at
read_bytes_total n dest r p at_p small fits room =
    elim (Bool-cases (leb (p + suc n + 0) (r.size + 0))) [
      | inl readable ↦ (
        overwrite dest 0 (take (suc n) (drop p r.buffer)),
        rw
            (
              at_p,
              add_int_pos p (suc n) small,
              readable,
              load_fits r.buffer p (suc n) (ground arith),
              store_fits dest 0 (take (suc n) (drop p r.buffer))
                  (omega (arith, length-take (suc n) (drop p r.buffer))),
            )
            refl,
      )
      | inr over ↦ (dest, rw (at_p, add_int_pos p (suc n) small, over) refl)
    ]

pub no_socket : (c : Connection) → has_socket c ≡ false → c.socket ≡ none
no_socket c off = ground arith

-- What a request leads to: an answer, over a table of records of the same size.
pub record Answers {S : Type 0} (records : List StatusRecord)
    (result : Option (Connection × List StatusRecord × S)) : Type 0 where
  pub after : Connection
  pub records' : List StatusRecord
  pub final : S
  pub returns : result ≡ some (after, records', final)
  pub kept : length records' ≡ length records
  pub answered : IsAnswered after

close-IsAnswered : (c : Connection) → IsAsking c → IsAnswered (close_connection c)
close-IsAnswered c a = record { whole = a.whole; busy = ap is_free a.in_state; answer = inl refl }

closes :
    {S : Type 0} (records records' : List StatusRecord) (c : Connection) (s : S)
    → IsAsking c
    → length records' ≡ length records
    → Answers records (some (close_connection c, records', s))
closes records records' c s a kept = record {
  after = close_connection c;
  records' = records';
  final = s;
  returns = refl;
  kept = kept;
  answered = close-IsAnswered c a;
}

module _ {S : Type 0} (get_status_string : S → Option (List ℕ × S))
    (total : (s : S) → (text : List ℕ) × (s' : S) × (get_status_string s ≡ some (text, s'))) where
  sends :
      (records records' : List StatusRecord) (c : Connection) (s : S)
      → IsAsking c
      → length records' ≡ length records
      → Answers records
          (answer_status get_status_string c s >>= (λ (c', s'). some (c', records', s')))
  unfolding answer_status
  sends records records' c s a kept =
      let (text, s', ready) = total s in
      let (c', sent, content, start, state, whole, fits) =
        send_status_string_lem text c a.whole a.in_state in
      record {
        after = c';
        records' = records';
        final = s';
        returns = rw (ready, sent) refl;
        kept = kept;
        answered = record {
          whole = whole;
          busy = ap is_free state;
          answer = inr (record {
            whole = whole;
            in_state = state;
            starts = omega (arith, start);
            fits = fits;
          });
        };
      }

  process_status_request-Answers :
      (interval : ℤ) (now : ℕ) (records : List StatusRecord) (c : Connection) (s : S)
      → 0 < length records
      → IsAsking c
      → Answers records (process_status_request get_status_string interval now records c s)
  unfolding process_status_request read_u8
  process_status_request-Answers interval now records c s some_records a =
      let (records', decided, kept, _) =
        allow_status_request_lem interval now c.ip_address records some_records in
      let r = buffer_reader c.buffer c.rw_size in
      let inside : c.rw_size ≤ length c.buffer = omega (arith, a.fits, a.whole) in
      let (command, first) = get_total 0 read_1 r 0 refl (omega arith) inside in
      let (format, second) =
        get_total 0 read_1 (record r { position = pos 1 }) 1 refl (omega arith) inside in
      let (request, third) =
        read_bytes_total 3 (replicate 5 0) (record r { position = pos 2 }) 2 refl (omega arith)
          inside (omega arith) in
      elim (Bool-cases (allowed interval now (record_of c.ip_address records))) [
        | inr refused ↦ rw (decided, refused) (closes records records' c s a kept)
        | inl on ↦ elim (Bool-cases (format == 255)) [
          | inr other ↦ rw (decided, on, first, second, other) (closes records records' c s a kept)
          | inl xml ↦
              elim (Bool-cases
                (string_equals_ignore_case (c_string request) (b'i' ∷ b'n' ∷ b'f' ∷ b'o' ∷ []))) [
                  | inr invalid ↦
                      rw (decided, on, first, second, xml, third, invalid)
                        (closes records records' c s a kept)
                  | inl info ↦
                      rw (decided, on, first, second, xml, third, info)
                        (sends records records' c s a kept)
                ]
        ]
      ]

-- What the login handler makes of a request: it returns, and the request is answered.
abbrev pub LogsIn : {S : Type 0} → (Connection → S → Option (Connection × S)) → Type 0
LogsIn {S} login =
    (c : Connection) (s : S)
    → IsAsking c
    → (c' : Connection) × (s' : S) × (login c s ≡ some (c', s')) × IsAnswered c'

abbrev pub IsTotal : {S : Type 0} → (S → Option (List ℕ × S)) → Type 0
IsTotal {S} get_status_string =
    (s : S) → (text : List ℕ) × (s' : S) × (get_status_string s ≡ some (text, s'))

module _ {S : Type 0} (env : Environment S) (login : Connection → S → Option (Connection × S))
    (get_status_string : S → Option (List ℕ × S)) (interval timeout : ℤ) (logs_in : LogsIn login)
    (total : IsTotal get_status_string) where
  check_command-Answers :
      (command : ℕ) (records : List StatusRecord) (c : Connection) (s : S)
      → 0 < length records
      → IsAsking c
      → Answers records
          (check_command env login get_status_string interval timeout command c records s)
  unfolding check_command
  check_command-Answers command records c s some_records a = elim (Bool-cases (command == 1)) [
    | inl first ↦
        let (c', s', done, answered) = logs_in c s a in
        record {
          after = c';
          records' = records;
          final = s';
          returns = rw (first, done) refl;
          kept = refl;
          answered = answered;
        }
    | inr other ↦ elim (Bool-cases (command == 255)) [
      | inl status ↦
          rw (other, status)
            (process_status_request-Answers get_status_string total interval
              (env.get_monotonic_uptime s) records c s some_records a)
      | inr unknown ↦ rw (other, unknown) (closes records records c s a refl)
    ]
  ]

  -- A request that is whole is answered.
  pub check_connection_request-Answers :
      (records : List StatusRecord) (c : Connection) (s : S)
      → 0 < length records
      → IsAsking c
      → Answers records
          (check_connection_request env login get_status_string interval timeout c records s)
  unfolding check_connection_request
  check_connection_request-Answers records c s some_records a = elim (Bool-cases (has_socket c)) [
    | inl on ↦
        rw (on, ap is_processing a.in_state, lt→ltb 0 c.rw_size a.asks)
          (check_command-Answers (get_or c.buffer 0 0) records c s some_records a)
    | inr off ↦ rw off (record {
      after = c;
      records' = records;
      final = s;
      returns = refl;
      kept = refl;
      answered = record {
        whole = a.whole;
        busy = ap is_free a.in_state;
        answer = inl (no_socket c off);
      };
    })
  ]
