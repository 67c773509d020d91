-- ===== src/Connection/Output.antt =====
-- The output of a connection of src/network/server.cpp: it ends, and the response goes out in order.
use tibia_login_orig.Base.{
  ℕ, zero, suc, ◌+◌, ◌-◌, ◌≤◌, ◌<◌, ◌≡◌, refl, sym, ap, ◌∙◌, ◌⊎◌, inl, inr, true, Option, none,
  some, List, ◌++◌, append-nil, append_assoc, length, take, drop, length-take, length-drop,
  drop-drop, leb, load_fits, if◌then◌else◌, Bool-cases, arith,
}
use tibia_login_orig.Base.Slices.{take-take, take_then}
use tibia_login_orig.Connection.{Connection, ConnectionState, close_connection, has_socket}
use tibia_login_orig.Connection.Life.{
  is_writing, Sent, full, failed, sent, write_loop, check_connection_output,
}

-- A connection with a response, all or some of which is still to be written.
pub record IsWritable (c : Connection) : Type 0 where
  pub whole : length c.buffer ≡ 2048
  pub in_state : c.state ≡ ConnectionState.writing
  pub starts : c.rw_position ≤ c.rw_size
  pub fits : c.rw_size ≤ 2048

-- What is told of a socket: what went out, and how often a call had no room or failed.
pub record Told (S : Type 0) : Type 0 where
  pub outgoing : S → List ℕ
  pub refusals : S → ℕ
  pub failures : S → ℕ

-- What `write` promises of the bytes that it is given: it takes a front of them, not empty if there
-- are any, or none.
abbrev pub Took : {S : Type 0} → Told S → List ℕ → Sent → S → S → Type 0
Took t bytes full s s' =
    (t.outgoing s' ≡ t.outgoing s)
    × (t.refusals s' ≡ suc (t.refusals s))
    × (t.failures s' ≡ t.failures s)
Took t bytes failed s s' =
    (t.outgoing s' ≡ t.outgoing s)
    × (t.refusals s' ≡ t.refusals s)
    × (t.failures s' ≡ suc (t.failures s))
Took t bytes (sent n) s s' =
    ((n ≤ length bytes)
      × (length bytes ≤ 0 ⊎ (0 < n))
      × (t.outgoing s' ≡ t.outgoing s ++ take n bytes))
    × (t.refusals s' ≡ t.refusals s)
    × (t.failures s' ≡ t.failures s)

pub record Writes {S : Type 0} (transmit : List ℕ → S → Sent × S) : Type 0 where
  pub told : Told S
  pub takes : (bytes : List ℕ) (s : S) → Took told bytes (transmit bytes s).0 s (transmit bytes s).1

-- The next `count` bytes of a response.
abbrev pub next_bytes : ℕ → Connection → List ℕ
next_bytes count c = take count (drop c.rw_position c.buffer)

module _ {S : Type 0} (transmit : List ℕ → S → Sent × S) (w : Writes transmit) where
  open w use {told, takes}

  -- Why the loop ends: all is written and the connection is closed, a call failed and it is closed, or a
  -- call had no room and its socket is kept.
  pub data Ends (c after : Connection) (s final : S) : Type 0 where
    all_written :
        after.rw_position ≡ c.rw_size
        → after.socket ≡ none
        → told.refusals final ≡ told.refusals s
        → told.failures final ≡ told.failures s
        → Ends c after s final
    broken :
        after.socket ≡ none
        → told.refusals final ≡ told.refusals s
        → told.failures final ≡ suc (told.failures s)
        → Ends c after s final
    waiting :
        after.socket ≡ c.socket
        → told.refusals final ≡ suc (told.refusals s)
        → told.failures final ≡ told.failures s
        → Ends c after s final

  Ends-then :
      (c after : Connection) (n : ℕ) (s s' final : S)
      → told.refusals s' ≡ told.refusals s
      → told.failures s' ≡ told.failures s
      → Ends (record c { rw_position = n }) after s' final
      → Ends c after s final
  Ends-then c after n s s' final r f (all_written at none_left r' f') =
      all_written at none_left (r' ∙ r) (f' ∙ f)
  Ends-then c after n s s' final r f (broken none_left r' f') =
      broken none_left (r' ∙ r) (f' ∙ ap suc f)
  Ends-then c after n s s' final r f (waiting same r' f') = waiting same (r' ∙ ap suc r) (f' ∙ f)

  -- The loop has written `count` bytes. The connection is closed, or waits to write the rest.
  pub record Written (c : Connection) (s : S) (result : Option (Connection × S)) : Type 0 where
    pub after : Connection
    pub final : S
    pub count : ℕ
    pub returns : result ≡ some (after, final)
    pub same_buffer : after.buffer ≡ c.buffer
    pub same_size : after.rw_size ≡ c.rw_size
    pub same_state : after.state ≡ c.state
    pub moved : after.rw_position ≡ c.rw_position + count
    pub inside : after.rw_position ≤ c.rw_size
    pub ends : Ends c after s final
    pub delivered : told.outgoing final ≡ told.outgoing s ++ next_bytes count c

  none-Written :
      (c after : Connection) (s s' : S)
      → after.buffer ≡ c.buffer
      → after.rw_size ≡ c.rw_size
      → after.state ≡ c.state
      → after.rw_position ≡ c.rw_position
      → c.rw_position ≤ c.rw_size
      → Ends c after s s'
      → told.outgoing s' ≡ told.outgoing s
      → Written c s (some (after, s'))
  none-Written c after s s' b z st p inside ends e = record {
    after = after;
    final = s';
    count = 0;
    returns = refl;
    same_buffer = b;
    same_size = z;
    same_state = st;
    moved = omega (arith, p);
    inside = omega (arith, p);
    ends = ends;
    delivered = e ∙ sym (append-nil (told.outgoing s));
  }

  -- A round in front of the rest of the loop.
  write_more :
      (fuel n : ℕ) (c : Connection) (s s' : S) (result : Option (Connection × S))
      → n ≤ c.rw_size - c.rw_position
      → told.outgoing s' ≡ told.outgoing s ++ next_bytes n c
      → told.refusals s' ≡ told.refusals s
      → told.failures s' ≡ told.failures s
      → Written (record c { rw_position = c.rw_position + n }) s' result
      → Written c s result
  write_more fuel n c s s' result few e same_refusals same_failures r = record {
    after = r.after;
    final = r.final;
    count = n + r.count;
    returns = r.returns;
    same_buffer = r.same_buffer;
    same_size = r.same_size;
    same_state = r.same_state;
    moved = omega (arith, r.moved);
    inside = r.inside;
    ends = Ends-then c r.after (c.rw_position + n) s s' r.final same_refusals same_failures r.ends;
    delivered =
        r.delivered
        ∙ ap (λ t. t ++ next_bytes r.count (record c { rw_position = c.rw_position + n })) e
        ∙ append_assoc (told.outgoing s) (next_bytes n c) _
        ∙ ap (λ t. told.outgoing s ++ t)
            (ap (λ t. next_bytes n c ++ take r.count t)
                (sym (drop-drop c.rw_position n c.buffer refl))
              ∙ take_then n r.count (drop c.rw_position c.buffer));
  }

  -- A round on what `write` gives.
  pub write_loop-Written :
      (fuel : ℕ) (c : Connection) (s : S)
      → length c.buffer ≡ 2048
      → c.rw_position ≤ c.rw_size
      → c.rw_size ≤ 2048
      → c.rw_size - c.rw_position < fuel
      → Written c s (write_loop S transmit fuel c s)
  unfolding write_loop
  write_loop-Written zero c s whole starts fits enough = absurd (omega arith)
  write_loop-Written (suc fuel) c s whole starts fits enough =
      let rest = next_bytes (c.rw_size - c.rw_position) c in
      let size : length rest ≡ c.rw_size - c.rw_position = omega (
        arith,
        length-take (c.rw_size - c.rw_position) (drop c.rw_position c.buffer),
        length-drop c.rw_position c.buffer,
        whole,
      ) in
      rw (load_fits c.buffer c.rw_position (c.rw_size - c.rw_position) (omega (arith, whole))) (
        go (transmit rest s)
          (λ n s' more some_taken.
            write_loop-Written fuel (record c { rw_position = c.rw_position + n }) s' whole
              (omega arith) fits (omega arith))
          (takes rest s) size)
    where
      go :
          (result : Sent × S)
          → ((n : ℕ) (s' : S)
              → c.rw_position + n < c.rw_size
              → 0 < n
              → Written
                  (record c { rw_position = c.rw_position + n })
                  s'
                  (write_loop S transmit fuel (record c { rw_position = c.rw_position + n }) s'))
          → Took told (next_bytes (c.rw_size - c.rw_position) c) result.0 s result.1
          → length (next_bytes (c.rw_size - c.rw_position) c) ≡ c.rw_size - c.rw_position
          → Written c s (elim result.0 [
            | full ↦ some (c, result.1)
            | failed ↦ some (close_connection c, result.1)
            | sent n ↦
                let c' : Connection = record c { rw_position = c.rw_position + n } in
                let again = write_loop S transmit fuel c' result.1 in
                if leb c.rw_size (c.rw_position + n)
                then some (close_connection c', result.1)
                else again
          ])
      go (full, s') next same size =
          none-Written c c s s' refl refl refl refl starts (waiting refl same.1 same.2) same.0
      go (failed, s') next same size =
          none-Written c (close_connection c) s s' refl refl refl refl starts
            (broken refl same.1 same.2) same.0
      go (sent n, s') next took size =
          let e : told.outgoing s' ≡ told.outgoing s ++ next_bytes n c =
            took.0.2
            ∙ ap (λ t. told.outgoing s ++ t)
                (take-take n (c.rw_size - c.rw_position) (drop c.rw_position c.buffer)
                  (omega (arith, took.0.0, size))) in
          elim (Bool-cases (leb c.rw_size (c.rw_position + n))) [
            | inl all_sent ↦
                let reached : c.rw_size ≤ c.rw_position + n = ground arith in
                rw all_sent (record {
                  after = close_connection (record c { rw_position = c.rw_position + n });
                  final = s';
                  count = n;
                  returns = refl;
                  same_buffer = refl;
                  same_size = refl;
                  same_state = refl;
                  moved = refl;
                  inside = omega (arith, took.0.0, size, starts);
                  ends =
                      all_written (omega (arith, took.0.0, size, starts, reached)) refl took.1
                        took.2;
                  delivered = e;
                })
            | inr more ↦
                let less : c.rw_position + n < c.rw_size = ground arith in
                rw more (
                  write_more fuel n c s s' _ (omega (arith, took.0.0, size)) e took.1 took.2 (
                    next n s' less (elim took.0.1 [
                      | inl nothing ↦ absurd (omega (arith, size, nothing, less))
                      | inr pos_n ↦ pos_n
                    ])))
          ]

  -- A connection that is writing, over a socket that takes a front of what it is given: the output ends,
  -- what goes out is the next bytes of the response in their order, and the connection moves on by as
  -- many. Either all of the response is written and the connection is closed, or a call has failed and it
  -- is closed, or the last call had no room and the connection keeps its socket; none else failed or had
  -- no room.
  pub check_connection_output-Written :
      (c : Connection) (s : S)
      → has_socket c ≡ true
      → IsWritable c
      → Written c s (check_connection_output S transmit 2049 c s)
  unfolding check_connection_output
  check_connection_output-Written c s on v =
      rw (on, ap is_writing v.in_state)
        (write_loop-Written 2049 c s v.whole v.starts v.fits (omega (arith, v.fits)))
