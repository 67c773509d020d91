-- ===== src/Query/Requests/Answers.antt =====
-- What src/query/login_query.cpp makes of the answers of the query manager.
use tibia_login_orig.Base.{
  ℕ, ◌+◌, ◌^◌, ◌≤◌, ◌<◌, ◌≡◌, refl, ap, some, List, [], ◌∷◌, ◌++◌, append_assoc, map, length,
  length-take, length-drop, take, replicate, le→ltb, lt→leb, All, AreBytes, pos, add_int_pos, arith,
}
use tibia_login_orig.ByteOrder
use tibia_login_orig.Writer.Texts.{length_bytes}
use tibia_login_orig.Reader.{BufferReader, read_u8, read_string, get}
use tibia_login_orig.Reader.Laws.{Left, Reads, then-Reads, return-Reads}
use tibia_login_orig.Reader.Texts.{
  read_u8-Reads, read_u16-Reads, read_u32_be-Reads, read_string-Reads, terminated,
}
use tibia_login_orig.Query.{ok, error}
use tibia_login_orig.Query.Requests.{
  CharacterLoginData, read_character, read_characters, login_answer, resolve_answer,
}

-- A character as the query manager knows it: its texts are in Latin-1.
pub record Character : Type 0 where
  pub name : List ℕ
  pub world : List ℕ
  pub address : ℕ
  pub port : ℕ

abbrev pub Fits : Character → Type 0
Fits c =
    AreBytes c.name
    × (length c.name < 2 ^ 31)
    × AreBytes c.world
    × (length c.world < 2 ^ 31)
    × (c.address < 2 ^ 32)
    × (c.port < 2 ^ 16)

abbrev text_bytes : List ℕ → List ℕ
text_bytes t = length_bytes (length t) ++ t

abbrev pub character_bytes : Character → List ℕ
character_bytes c =
    text_bytes c.name
    ++ (text_bytes c.world ++ (ByteOrder.write_u32_be c.address ++ ByteOrder.write_u16_le c.port))

abbrev pub characters_bytes : List Character → List ℕ
characters_bytes [] = []
characters_bytes (c ∷ cs) = character_bytes c ++ characters_bytes cs

abbrev pub received : Character → CharacterLoginData
received c = record {
  name = terminated 30 c.name;
  world_name = terminated 30 c.world;
  world_address = c.address;
  world_port = c.port;
}

text_Reads :
    (t rest : List ℕ) (r : BufferReader)
    → AreBytes t
    → length t < 2 ^ 31
    → Left r (text_bytes t ++ rest)
    → Reads (terminated 30 t) rest (read_string (replicate 30 0) r)
text_Reads t rest r b small l =
    read_string-Reads (replicate 30 0) t rest r (omega arith) b small
      (rw (append_assoc (length_bytes (length t)) t rest) at l)

read_character-Reads :
    (c : Character) (rest : List ℕ) (r : BufferReader)
    → Fits c
    → Left r (character_bytes c ++ rest)
    → Reads (received c) rest (read_character r)
unfolding read_character
read_character-Reads c rest r (b, small, b', small', fits, fits') l =
    let tail : List ℕ = ByteOrder.write_u32_be c.address ++ ByteOrder.write_u16_le c.port in
    then-Reads _ _ _ rest _ _
      (text_Reads c.name ((text_bytes c.world ++ tail) ++ rest) r b small
        (rw (append_assoc (text_bytes c.name) (text_bytes c.world ++ tail) rest) at l))
      (λ r1 l1.
        then-Reads _ _ _ rest _ _
          (text_Reads c.world (tail ++ rest) r1 b' small'
            (rw (append_assoc (text_bytes c.world) tail rest) at l1))
          (λ r2 l2.
            then-Reads _ _ _ rest _ _
              (read_u32_be-Reads c.address (ByteOrder.write_u16_le c.port ++ rest) r2 fits (
                rw
                  (append_assoc (ByteOrder.write_u32_be c.address) (ByteOrder.write_u16_le c.port)
                    rest)
                  at l2))
              (λ r3 l3.
                then-Reads _ _ _ rest _ _ (read_u16-Reads c.port rest r3 fits' l3)
                  (λ r4 l4. return-Reads _ rest r4 l4))))

read_characters-Reads :
    (cs : List Character) (rest : List ℕ) (r : BufferReader)
    → All Fits cs
    → Left r (characters_bytes cs ++ rest)
    → Reads (map received cs) rest (read_characters (length cs) r)
unfolding read_characters
read_characters-Reads [] rest r fits l = record { after = r; returns = refl; leaves = l }
read_characters-Reads (c ∷ cs) rest r fits l =
    let a =
      read_character-Reads c (characters_bytes cs ++ rest) r fits.0
        (rw (append_assoc (character_bytes c) (characters_bytes cs) rest) at l) in
    let b = read_characters-Reads cs rest a.after fits.1 a.leaves in
    record { after = b.after; returns = rw (a.returns, b.returns) refl; leaves = b.leaves }

-- A good answer to `login_account`, of no more characters than it asks for, gives all of them with
-- their names cleared or terminated in 30 bytes, and the premium days.
pub login_answer_lem :
    (max_characters days : ℕ) (cs : List Character) (rest : List ℕ) (r : BufferReader)
    → All Fits cs
    → length cs ≤ max_characters
    → length cs < 256
    → days < 2 ^ 16
    → Left r (
        ByteOrder.write_u8 (length cs)
        ++ (characters_bytes cs ++ (ByteOrder.write_u16_le days ++ rest)))
    → login_answer max_characters ok r
      ≡ some (record {
        code = pos 0;
        num_characters = length cs;
        characters = map received cs;
        premium_days = days;
      })
unfolding login_answer
login_answer_lem max_characters days cs rest r fits few small in_range l =
    let n = read_u8-Reads (length cs) _ r small l in
    let a = read_characters-Reads cs (ByteOrder.write_u16_le days ++ rest) n.after fits n.leaves in
    let d = read_u16-Reads days rest a.after in_range a.leaves in
    rw (n.returns, le→ltb max_characters (length cs) few, a.returns, d.returns) refl

-- Behind the end of an answer a byte is read as zero.
read_u8_at_end :
    (r : BufferReader)
    → r.size < 2 ^ 16
    → Left r []
    → (r' : BufferReader) × (read_u8 r ≡ some (0, r'))
unfolding read_u8 get
read_u8_at_end r small l =
    let full : l.start ≡ r.size = omega (
      arith,
      ap length l.is_left,
      length-drop l.start (take r.size r.buffer),
      length-take r.size r.buffer,
      l.inside,
      l.fits,
    ) in
    (
      record r { position = pos (l.start + 1) },
      rw
          (
            l.positioned,
            get,
            add_int_pos l.start 1 (omega (arith, small)),
            lt→leb (l.start + 1 + 0) (r.size + 0) (omega arith),
          )
          refl,
    )

-- An error of `resolve_email` with no code behind its status is taken for success, with account 0.
pub resolve_answer_bare_error :
    (r : BufferReader) → r.size < 2 ^ 16 → Left r [] → resolve_answer error r ≡ some (pos 0, pos 0)
unfolding resolve_answer
resolve_answer_bare_error r small l = let (r', read) = read_u8_at_end r small l in rw read refl
