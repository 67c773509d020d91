-- ===== src/Xml.antt =====
-- src/status/xml_builder.cpp. The buffer is an array with the size and position of the struct; text
-- past the size is counted and not stored. `none` is a write outside the array.
pub mod Laws
pub mod Numbers
pub mod Formats
use tibia_login_orig.Base.{
  ℕ, zero, suc, ◌+◌, ◌-◌, ◌*◌, ◌/◌, ◌%◌, ◌^◌, Bool, true, false, Option, none, some, List, [], ◌∷◌,
  ◌++◌, length, ltb, ◌==◌, if◌then◌else◌, store, ◌>>=◌, ◌&&◌, ℤ, pos, negsuc,
}

pub record XmlBuffer : Type 0 where
  pub bytes : List ℕ
  pub size : ℕ
  pub position : ℕ

unfoldable pub xml_null_terminate : XmlBuffer → Option XmlBuffer
xml_null_terminate b =
    if ltb b.position b.size
    then store b.bytes b.position (0 ∷ []) >>= (λ bytes. some (record b { bytes = bytes }))
    else if ltb 0 b.size
    then store b.bytes (b.size - 1) (0 ∷ []) >>= (λ bytes. some (record b { bytes = bytes }))
    else none

unfoldable pub xml_append_char : ℕ → XmlBuffer → Option XmlBuffer
xml_append_char ch b =
    (if ltb b.position b.size then store b.bytes b.position (ch ∷ []) else some b.bytes)
    >>= (λ bytes. some (record b { bytes = bytes; position = b.position + 1 }))

unfoldable pub xml_append_string : List ℕ → XmlBuffer → Option XmlBuffer
xml_append_string [] b = some b
xml_append_string (c ∷ cs) b = xml_append_char c b >>= xml_append_string cs

-- `while(num > 0)`: the digits, the last first. `string` has 64 places.
unfoldable pub digits_loop : ℕ → ℕ → List ℕ
digits_loop zero num = []
digits_loop (suc places) num =
    let rest = digits_loop places (num / 10) in if num == 0 then [] else (num % 10 + b'0') ∷ rest

-- The second loop, from the last of the digits to the first.
unfoldable pub append_reversed : List ℕ → XmlBuffer → Option XmlBuffer
append_reversed [] b = some b
append_reversed (c ∷ cs) b = append_reversed cs b >>= xml_append_char c

unfoldable pub append_positive : ℕ → XmlBuffer → Option XmlBuffer
append_positive num = append_reversed (digits_loop 64 num)

-- `num` is an `int64`. Its least value has no opposite: `none` is that overflow.
unfoldable pub xml_append_number : ℤ → XmlBuffer → Option XmlBuffer
xml_append_number (pos zero) b = xml_append_char b'0' b
xml_append_number (pos (suc n)) b = append_positive (suc n) b
xml_append_number (negsuc n) b =
    xml_append_char b'-' b
    >>= (λ b'. if ltb n (2 ^ 63 - 1) then append_positive (suc n) b' else none)

-- What stands for a character in escaped text.
unfoldable pub xml_entity : ℕ → List ℕ
xml_entity c =
    if c == 9
    then b'&' ∷ b'#' ∷ b'9' ∷ 59 ∷ []
    else if c == 10
    then b'&' ∷ b'#' ∷ b'1' ∷ b'0' ∷ 59 ∷ []
    else if c == 34
    then b'&' ∷ b'q' ∷ b'u' ∷ b'o' ∷ b't' ∷ 59 ∷ []
    else if c == b'&'
    then b'&' ∷ b'a' ∷ b'm' ∷ b'p' ∷ 59 ∷ []
    else if c == 39
    then b'&' ∷ b'a' ∷ b'p' ∷ b'o' ∷ b's' ∷ 59 ∷ []
    else if c == b'<'
    then b'&' ∷ b'l' ∷ b't' ∷ 59 ∷ []
    else if c == b'>'
    then b'&' ∷ b'g' ∷ b't' ∷ 59 ∷ []
    else c ∷ []

unfoldable pub xml_append_string_escaped : List ℕ → XmlBuffer → Option XmlBuffer
xml_append_string_escaped [] b = some b
xml_append_string_escaped (c ∷ cs) b =
    xml_append_string (xml_entity c) b >>= xml_append_string_escaped cs

-- The arguments that a format takes, in order. `none` is a format that finds none or another one.
pub data Argument : Type 0 where
  character : ℕ → Argument
  number : ℤ → Argument
  string : List ℕ → Argument

abbrev pub take_character :
    List Argument → (ℕ → List Argument → Option XmlBuffer) → Option XmlBuffer
take_character (character ch ∷ args) k = k ch args
take_character _ k = none

abbrev pub take_number : List Argument → (ℤ → List Argument → Option XmlBuffer) → Option XmlBuffer
take_number (number n ∷ args) k = k n args
take_number _ k = none

abbrev pub take_string :
    List Argument → (List ℕ → List Argument → Option XmlBuffer) → Option XmlBuffer
take_string (string s ∷ args) k = k s args
take_string _ k = none

-- `p` behind the length letters `h`, `hh`, `l` and `ll`.
unfoldable pub skip_length : List ℕ → List ℕ
skip_length [] = []
skip_length (c ∷ []) = if c == b'h' then [] else if c == b'l' then [] else c ∷ []
skip_length (c ∷ d ∷ p) =
    if c == b'h' && d == b'h'
    then p
    else if c == b'l' && d == b'l'
    then p
    else if c == b'h'
    then d ∷ p
    else if c == b'l'
    then d ∷ p
    else c ∷ d ∷ p

-- `while(p[0])`; the fuel is the length of the format, which each round shortens.
unfoldable pub xml_append_format_v : ℕ → List ℕ → List Argument → XmlBuffer → Option XmlBuffer
xml_append_format_v fuel [] args b = some b
xml_append_format_v zero (c ∷ p) args b = none
xml_append_format_v (suc fuel) (c ∷ p) args b = elim (c == b'%') [
  | false ↦ xml_append_char c b >>= xml_append_format_v fuel p args
  | true ↦ elim (skip_length p) [
    | [] ↦ xml_append_format_v fuel [] args b
    | d ∷ rest ↦
        let invalid = xml_append_format_v fuel rest args b in
        if d == b'%'
        then (xml_append_char b'%' b >>= (λ b'. xml_append_format_v fuel rest args b'))
        else if d == b'c'
        then take_character args
            (λ ch args'. xml_append_char ch b >>= (λ b'. xml_append_format_v fuel rest args' b'))
        else if d == b'd'
        then take_number args
            (λ n args'. xml_append_number n b >>= (λ b'. xml_append_format_v fuel rest args' b'))
        else if d == b's'
        then take_string args (λ s args'.
          xml_append_string_escaped s b >>= (λ b'. xml_append_format_v fuel rest args' b'))
        else invalid
  ]
]

unfoldable pub xml_append_format : List ℕ → List Argument → XmlBuffer → Option XmlBuffer
unfolding xml_append_format_v
xml_append_format format args b = xml_append_format_v (length format) format args b
