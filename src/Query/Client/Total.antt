-- ===== src/Query/Client/Total.antt =====
-- Every query of src/query/query_client.cpp ends, whatever the network does.
use tibia_login_orig.Base.{
  ℕ, zero, suc, ◌+◌, ◌-◌, ◌^◌, ◌≤◌, ◌<◌, ◌≡◌, refl, ap, ◌∙◌, ◌⊎◌, inl, inr, Bool, true, false,
  Option, none, some, List, length, take, leb, ltb, leb→le, leb→lt, ltb→lt, ltb→le, load, load_fits,
  Bool-cases, u16, u32, arith,
}
use tibia_login_orig.Writer.{BufferWriter, overflowed, rewrite_u16, insert_u32}
use tibia_login_orig.Writer.Laws.{IsSound}
use tibia_login_orig.Writer.Patches.{rewrite_u16_lem, rewrite_u16_refused, insert_u32_lem}
use tibia_login_orig.Query.{
  Network, QueryClient, is_connected, query_failed, frame_request, write_exact,
}
use tibia_login_orig.Query.Exact.{InOrder, Delivers, all_sent, broken, write_exact-Delivers}
use tibia_login_orig.Query.Client.{
  Attempt, finished, retry, attempt, attempts, execute_with, exchange, exchange_on,
}
use tibia_login_orig.Query.Client.Laws.{
  IsFine, Progresses, Ends, read_response-Ends, try_again-Ends,
}

-- A writer that stays sound, with its size and its array.
pub record Keeps (w : BufferWriter) (result : Option BufferWriter) : Type 0 where
  pub after : BufferWriter
  pub returns : result ≡ some after
  pub sound : IsSound after
  pub size_kept : after.size ≡ w.size

rewrite_u16-Keeps :
    (offset value : ℕ) (w : BufferWriter) → IsSound w → Keeps w (rewrite_u16 offset value w)
rewrite_u16-Keeps offset value w s = elim (Bool-cases (leb (offset + 2) w.position)) [
  | inr h ↦ unchanged (inr (leb→lt _ _ h))
  | inl h ↦ elim (Bool-cases (ltb w.size w.position)) [
    | inl over ↦ unchanged (inl (ltb→lt _ _ over))
    | inr fits ↦
        let (w', returns, content, position, size, same) =
          rewrite_u16_lem offset value w s (ltb→le _ _ fits) (leb→le _ _ h) in
        record {
          after = w';
          returns = returns;
          sound = omega (arith, size, same);
          size_kept = size;
        }
  ]
]
  where
    unchanged :
        (w.size < w.position) ⊎ (w.position < offset + 2) → Keeps w (rewrite_u16 offset value w)
    unchanged h = record {
      after = w;
      returns = rewrite_u16_refused offset value w h;
      sound = s;
      size_kept = refl;
    }

insert_u32-Keeps :
    (offset value : ℕ) (w : BufferWriter) → IsSound w → Keeps w (insert_u32 offset value w)
unfolding insert_u32
insert_u32-Keeps offset value w s = elim (Bool-cases (leb offset w.position)) [
  | inr h ↦ record { after = w; returns = rw h; sound = s; size_kept = refl }
  | inl h ↦ elim (Bool-cases (leb (w.position + 4) w.size)) [
    | inr full ↦ record {
      after = record w { position = w.position + 4 };
      returns = rw (h, full);
      sound = s;
      size_kept = refl;
    }
    | inl fits ↦
        let (w', returns, content, position, size, same) =
          insert_u32_lem offset value w s (leb→le _ _ h) (leb→le _ _ fits) in
        record {
          after = w';
          returns = returns;
          sound = omega (arith, size, same);
          size_kept = size;
        }
  ]
]

pub frame_request-Keeps : (w : BufferWriter) → IsSound w → Keeps w (frame_request w)
unfolding frame_request
frame_request-Keeps w s = elim (Bool-cases (ltb (w.position - 2) 0xFFFF)) [
  | inl short ↦ rw short (rewrite_u16-Keeps 0 (u16 (w.position - 2)) w s)
  | inr long ↦
      let a = rewrite_u16-Keeps 0 0xFFFF w s in
      let b = insert_u32-Keeps 2 (u32 (w.position - 2)) a.after a.sound in
      record {
        after = b.after;
        returns = rw (long, a.returns) b.returns;
        sound = b.sound;
        size_kept = b.size_kept ∙ a.size_kept;
      }
]

module _ {S : Type 0} (net : Network S) (io : InOrder net) where
  -- A way to get a connection that ends, with a socket or without.
  abbrev pub Reconnects : (QueryClient → S → Option (Bool × QueryClient × S)) → Type 0
  Reconnects reconnect =
      (client : QueryClient) (s : S)
      → (connected : Bool) × (client' : QueryClient) × (s' : S) × (reconnect client s
          ≡ some (connected, client', s'))

  module _ (w : BufferWriter) (sound : IsSound w) (small : w.size < 2 ^ 31) where
    request_sent :
        (fd : ℕ) (request : List ℕ) (client : QueryClient) (s : S)
        → is_connected client ≡ true
        → load w.buffer 0 w.position ≡ some request
        → Delivers net io fd request s (write_exact net (length request) fd request s)
        → Ends net (Progresses w.size) (exchange net fd w client s)
    unfolding exchange
    request_sent fd request client s on loaded (broken s' run c) =
        rw (loaded, run) (try_again-Ends net w.size client s')
    request_sent fd request client s on loaded (all_sent s' run delivered) =
        rw (loaded, run) (read_response-Ends net io fd w.buffer w.size client s' sound small on)

    exchange-Ends :
        (fd : ℕ) (client : QueryClient) (s : S)
        → is_connected client ≡ true
        → w.position ≤ w.size
        → Ends net (Progresses w.size) (exchange net fd w client s)
    exchange-Ends fd client s on fits =
        request_sent fd (take w.position w.buffer) client s on
          (load_fits w.buffer 0 w.position (omega arith))
          (write_exact-Delivers net io (length (take w.position w.buffer)) fd
            (take w.position w.buffer) s (omega arith))

    pub exchange_on-Ends :
        (socket : Option ℕ) (connected : Bool) (client : QueryClient) (s : S)
        → client.socket ≡ socket
        → w.position ≤ w.size
        → Ends net (Progresses w.size) (exchange_on net socket connected w client s)
    unfolding exchange_on
    exchange_on-Ends none connected client s e fits =
        (finished (query_failed client), s, refl, inl refl)
    exchange_on-Ends (some fd) false client s e fits =
        (finished (query_failed client), s, refl, inl refl)
    exchange_on-Ends (some fd) true client s e fits =
        exchange-Ends fd client s
          (ap (λ (o : Option ℕ). elim o as (λ _. Bool) [ none ↦ false | some fd ↦ true ]) e) fits

    attempt-Ends :
        (reconnect : QueryClient → S → Option (Bool × QueryClient × S)) (client : QueryClient)
        (s : S)
        → Reconnects reconnect
        → w.position ≤ w.size
        → Ends net (Progresses w.size) (attempt net reconnect w client s)
    unfolding attempt
    attempt-Ends reconnect client s ends fits = elim (Bool-cases (is_connected client)) [
      | inl on ↦ rw on (exchange_on-Ends client.socket true client s refl fits)
      | inr off ↦
          let (connected, client', s', run) = ends client s in
          rw (off, run) (exchange_on-Ends client'.socket connected client' s' refl fits)
    ]

    continues :
        (reconnect : QueryClient → S → Option (Bool × QueryClient × S)) (left : ℕ)
        (client : QueryClient) (s s' : S) (result : Attempt)
        → attempt net reconnect w client s ≡ some (result, s')
        → Progresses w.size result
        → ((c : QueryClient) → Ends net (IsFine w.size) (attempts net reconnect left w c s'))
        → Ends net (IsFine w.size) (attempts net reconnect (suc left) w client s)
    unfolding attempts
    continues reconnect left client s s' (finished answer) run fine next =
        (answer, s', rw run refl, fine)
    continues reconnect left client s s' (retry client') run fine next = rw run (next client')

    attempts-Ends :
        (reconnect : QueryClient → S → Option (Bool × QueryClient × S)) (left : ℕ)
        (client : QueryClient) (s : S)
        → Reconnects reconnect
        → w.position ≤ w.size
        → Ends net (IsFine w.size) (attempts net reconnect left w client s)
    unfolding attempts
    attempts-Ends reconnect zero client s ends fits = (query_failed client, s, refl, inl refl)
    attempts-Ends reconnect (suc left) client s ends fits =
        let (result, s', run, fine) = attempt-Ends reconnect client s ends fits in
        continues reconnect left client s s' result run fine
          (λ c. attempts-Ends reconnect left c s' ends fits)

  pub execute_with-Ends :
      (reconnect : QueryClient → S → Option (Bool × QueryClient × S)) (w : BufferWriter)
      (client : QueryClient) (s : S)
      → IsSound w
      → w.size < 2 ^ 31
      → Reconnects reconnect
      → Ends net (IsFine w.size) (execute_with net reconnect w client s)
  unfolding execute_with
  execute_with-Ends reconnect w client s sound small ends =
      let framed = frame_request-Keeps w sound in
      elim (Bool-cases (overflowed framed.after)) [
        | inl over ↦ (query_failed client, s, rw (framed.returns, over), inl refl)
        | inr fits ↦
            rw (framed.returns, fits, ← framed.size_kept)
              (attempts-Ends framed.after framed.sound (omega (arith, framed.size_kept)) reconnect 2
                client s ends (ltb→le _ _ fits))
      ]
