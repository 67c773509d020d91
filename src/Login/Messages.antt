-- ===== src/Login/Messages.antt =====
-- The messages that src/login/login_handler.cpp sends: what the client decrypts.
use tibia_login_orig.Base.{
  ℕ, zero, suc, ◌≤◌, ◌≡◌, refl, inl, inr, Bool-cases, ltb, leb, min, u16, some, List, [], ◌∷◌, ◌++◌,
  length, length-drop, length-append, ◌+◌, take, drop, All-append, AreBytes, IsByte, ℤ, pos, negsuc,
  arith,
}
use tibia_login_orig.ByteOrder
use tibia_login_orig.Connection.{Connection, ConnectionState}
use tibia_login_orig.Utf8.{latin1_advance, latin1_char}
use tibia_login_orig.Utf8.Text.{latin1_of, latin1_text, latin1_advance_pos}
use tibia_login_orig.Strings.{c_string}
use tibia_login_orig.Writer.{BufferWriter, write_u8, write_string}
use tibia_login_orig.Writer.Laws.{IsSound, Appends, then-Appends, nothing-Grows}
use tibia_login_orig.Writer.Texts.{
  write_u8-Appends, write_u16-Appends, write_u32_be-Appends, write_string-Appends, string_bytes,
  length_bytes,
}
use tibia_login_orig.Query.Requests.{CharacterLoginData}
use tibia_login_orig.Login.{
  login_error_body, send_login_error, write_character, write_characters, write_motd,
  character_list_body, send_character_list,
}
use tibia_login_orig.Login.Response.{IsResponse, respond_lem}

latin1_char-IsByte : (c : ℤ) → IsByte (latin1_char c)
latin1_char-IsByte (negsuc n) = omega arith
latin1_char-IsByte (pos c) = elim (Bool-cases (leb c 0xFF)) [
  | inl fits ↦ rw fits (ground arith)
  | inr wide ↦ rw wide (omega arith)
]

latin1_text-AreBytes : (fuel : ℕ) (src : List ℕ) → AreBytes (latin1_text fuel src)
latin1_text-AreBytes zero src = tt
latin1_text-AreBytes (suc fuel) [] = tt
latin1_text-AreBytes (suc fuel) (b ∷ bs) = (
  latin1_char-IsByte (latin1_advance (b ∷ bs)).1,
  latin1_text-AreBytes fuel (drop (latin1_advance (b ∷ bs)).0 (b ∷ bs)),
)

u16-AreBytes : (n : ℕ) → AreBytes (ByteOrder.write_u16_le n)
unfolding ByteOrder.write_u16_le
u16-AreBytes n = (omega arith, (omega arith, tt))

u32_be-AreBytes : (n : ℕ) → AreBytes (ByteOrder.write_u32_be n)
unfolding ByteOrder.write_u32_be
u32_be-AreBytes n = (omega arith, (omega arith, (omega arith, (omega arith, tt))))

length_bytes-AreBytes : (n : ℕ) → AreBytes (length_bytes n)
unfolding ByteOrder.write_u32_le
length_bytes-AreBytes n = elim (Bool-cases (ltb n 0xFFFF)) [
  | inl short ↦ rw short (u16-AreBytes (u16 n))
  | inr long ↦ rw long (
      All-append IsByte (ByteOrder.write_u16_le 0xFFFF) _ (u16-AreBytes 0xFFFF)
        (omega arith, (omega arith, (omega arith, (omega arith, tt)))))
]

string_bytes-AreBytes : (str : List ℕ) → AreBytes (string_bytes str)
string_bytes-AreBytes str =
    All-append IsByte (length_bytes (length (latin1_of str))) (latin1_of str)
      (length_bytes-AreBytes (length (latin1_of str))) (latin1_text-AreBytes (suc (length str)) str)

-- The payload of a login error.
abbrev pub error_bytes : List ℕ → List ℕ
error_bytes message = ByteOrder.write_u8 10 ++ string_bytes message

length-latin1_text : (fuel : ℕ) (src : List ℕ) → length (latin1_text fuel src) ≤ length src
length-latin1_text zero src = omega arith
length-latin1_text (suc fuel) [] = omega arith
length-latin1_text (suc fuel) (b ∷ bs) =
    let n = (latin1_advance (b ∷ bs)).0 in
    let rest : List ℕ = drop n (b ∷ bs) in
    omega (arith, latin1_advance_pos b bs, length-latin1_text fuel rest, length-drop n (b ∷ bs))

length-length_bytes : (n : ℕ) → length (length_bytes n) ≤ 6
unfolding ByteOrder.write_u16_le ByteOrder.write_u32_le
length-length_bytes n = elim (Bool-cases (ltb n 0xFFFF)) [
  | inl short ↦ rw short (omega arith)
  | inr long ↦ rw long (omega arith)
]

-- The texts of the server are short enough.
pub length-error_bytes : (message : List ℕ) → length (error_bytes message) ≤ 7 + length message
unfolding ByteOrder.write_u8
length-error_bytes message = omega (
  arith,
  length-append (length_bytes (length (latin1_of message))) (latin1_of message),
  length-length_bytes (length (latin1_of message)),
  length-latin1_text (suc (length message)) message,
)

pub login_error_body-Appends :
    (message : List ℕ) (w : BufferWriter)
    → IsSound w
    → Appends w (error_bytes message) (login_error_body message w)
login_error_body-Appends message w s =
    then-Appends w (ByteOrder.write_u8 10) (string_bytes message) (write_u8 10 w)
      (write_string message) s (write_u8-Appends 10 w s) (λ v t. write_string-Appends message v t)

pub error_bytes-AreBytes : (message : List ℕ) → AreBytes (error_bytes message)
unfolding ByteOrder.write_u8
error_bytes-AreBytes message = (omega arith, string_bytes-AreBytes message)

-- A login error that fits reaches the client: it decrypts to the byte 10 and the message.
pub send_login_error_lem :
    (rand_r : ℕ → ℕ × ℕ) (message : List ℕ) (c : Connection)
    → length c.buffer ≡ 2048
    → c.state ≡ ConnectionState.processing
    → length (error_bytes message) ≤ 2038
    → (c' : Connection) × (send_login_error rand_r message c ≡ some c')
      × IsResponse c.xtea (error_bytes message) c'
unfolding send_login_error ByteOrder.write_u8
send_login_error_lem rand_r message c whole state short =
    respond_lem rand_r (login_error_body message) (error_bytes message) c
      (λ w s. login_error_body-Appends message w s) whole state short (error_bytes-AreBytes message)

-- An entry of the list of characters.
abbrev entry_bytes : CharacterLoginData → List ℕ
entry_bytes c =
    string_bytes (c_string c.name)
    ++ (string_bytes (c_string c.world_name)
        ++ (ByteOrder.write_u32_be c.world_address ++ ByteOrder.write_u16_le c.world_port))

abbrev entries_bytes : List CharacterLoginData → List ℕ
entries_bytes [] = []
entries_bytes (c ∷ cs) = entry_bytes c ++ entries_bytes cs

abbrev motd_bytes : List ℕ → List ℕ
motd_bytes [] = []
motd_bytes (m ∷ otd) = ByteOrder.write_u8 20 ++ string_bytes (m ∷ otd)

-- The payload of a list of `num_characters` characters.
abbrev pub list_bytes : List ℕ → ℕ → List CharacterLoginData → ℕ → List ℕ
list_bytes motd num_characters characters premium_days =
    motd_bytes motd
    ++ (ByteOrder.write_u8 100
        ++ (ByteOrder.write_u8 (min num_characters 255)
            ++ (entries_bytes (take (min num_characters 255) characters)
                ++ ByteOrder.write_u16_le (u16 premium_days))))

nothing-Appends : (w : BufferWriter) → Appends w [] (some w)
nothing-Appends w =
    let g = nothing-Grows w in
    record {
      after = w;
      returns = refl;
      size_kept = refl;
      length_kept = refl;
      moved = g.moved;
      appended = g.appended;
    }

write_character-Appends :
    (c : CharacterLoginData) (w : BufferWriter)
    → IsSound w
    → Appends w (entry_bytes c) (write_character c w)
unfolding write_character
write_character-Appends c w s =
    then-Appends w _ _ _ _ s (write_string-Appends (c_string c.name) w s) (λ v t.
      then-Appends v _ _ _ _ t (write_string-Appends (c_string c.world_name) v t) (λ u r.
        then-Appends u _ _ _ _ r (write_u32_be-Appends c.world_address u r)
          (λ x q. write_u16-Appends c.world_port x q)))

write_characters-Appends :
    (cs : List CharacterLoginData) (w : BufferWriter)
    → IsSound w
    → Appends w (entries_bytes cs) (write_characters cs w)
unfolding write_characters
write_characters-Appends [] w s = nothing-Appends w
write_characters-Appends (c ∷ cs) w s =
    then-Appends w (entry_bytes c) (entries_bytes cs) (write_character c w) (write_characters cs) s
      (write_character-Appends c w s) (λ v t. write_characters-Appends cs v t)

write_motd-Appends :
    (motd : List ℕ) (w : BufferWriter) → IsSound w → Appends w (motd_bytes motd) (write_motd motd w)
unfolding write_motd
write_motd-Appends [] w s = nothing-Appends w
write_motd-Appends (m ∷ otd) w s =
    then-Appends w _ _ _ _ s (write_u8-Appends 20 w s) (λ v t. write_string-Appends (m ∷ otd) v t)

pub character_list_body-Appends :
    (motd : List ℕ) (num_characters : ℕ) (cs : List CharacterLoginData) (premium_days : ℕ)
    (w : BufferWriter)
    → IsSound w
    → Appends w
        (list_bytes motd num_characters cs premium_days)
        (character_list_body motd num_characters cs premium_days w)
unfolding character_list_body
character_list_body-Appends motd num_characters cs premium_days w s =
    then-Appends w _ _ _ _ s (write_motd-Appends motd w s) (λ w1 s1.
      then-Appends w1 _ _ _ _ s1 (write_u8-Appends 100 w1 s1) (λ w2 s2.
        then-Appends w2 _ _ _ _ s2 (write_u8-Appends (min num_characters 255) w2 s2) (λ w3 s3.
          then-Appends w3 _ _ _ _ s3
            (write_characters-Appends (take (min num_characters 255) cs) w3 s3)
            (λ w4 s4. write_u16-Appends (u16 premium_days) w4 s4))))

entry_bytes-AreBytes : (c : CharacterLoginData) → AreBytes (entry_bytes c)
entry_bytes-AreBytes c =
    All-append IsByte (string_bytes (c_string c.name)) _ (string_bytes-AreBytes (c_string c.name)) (
      All-append IsByte (string_bytes (c_string c.world_name)) _
        (string_bytes-AreBytes (c_string c.world_name))
        (All-append IsByte (ByteOrder.write_u32_be c.world_address) _
          (u32_be-AreBytes c.world_address) (u16-AreBytes c.world_port)))

entries_bytes-AreBytes : (cs : List CharacterLoginData) → AreBytes (entries_bytes cs)
entries_bytes-AreBytes [] = tt
entries_bytes-AreBytes (c ∷ cs) =
    All-append IsByte (entry_bytes c) (entries_bytes cs) (entry_bytes-AreBytes c)
      (entries_bytes-AreBytes cs)

motd_bytes-AreBytes : (motd : List ℕ) → AreBytes (motd_bytes motd)
unfolding ByteOrder.write_u8
motd_bytes-AreBytes [] = tt
motd_bytes-AreBytes (m ∷ otd) = (omega arith, string_bytes-AreBytes (m ∷ otd))

pub list_bytes-AreBytes :
    (motd : List ℕ) (num_characters : ℕ) (cs : List CharacterLoginData) (premium_days : ℕ)
    → AreBytes (list_bytes motd num_characters cs premium_days)
unfolding ByteOrder.write_u8
list_bytes-AreBytes motd num_characters cs premium_days =
    All-append IsByte (motd_bytes motd) _ (motd_bytes-AreBytes motd) (
      omega arith,
      (
        omega arith,
        All-append IsByte (entries_bytes (take (min num_characters 255) cs)) _
            (entries_bytes-AreBytes (take (min num_characters 255) cs))
            (u16-AreBytes (u16 premium_days)),
      ),
    )

-- A list of characters that fits reaches the client: what it decrypts is the message of the day, if
-- there is one, and the entries of 255 characters at most in their order, and the premium days.
pub send_character_list_lem :
    (rand_r : ℕ → ℕ × ℕ) (motd : List ℕ) (num_characters : ℕ) (cs : List CharacterLoginData)
    (premium_days : ℕ) (c : Connection)
    → length c.buffer ≡ 2048
    → c.state ≡ ConnectionState.processing
    → length (list_bytes motd num_characters cs premium_days) ≤ 2038
    → (c' : Connection) × (send_character_list rand_r motd num_characters cs premium_days c
        ≡ some c')
      × IsResponse c.xtea (list_bytes motd num_characters cs premium_days) c'
unfolding send_character_list
send_character_list_lem rand_r motd num_characters cs premium_days c whole state short =
    respond_lem rand_r (character_list_body motd num_characters cs premium_days)
      (list_bytes motd num_characters cs premium_days) c
      (λ w s. character_list_body-Appends motd num_characters cs premium_days w s) whole state short
      (list_bytes-AreBytes motd num_characters cs premium_days)
