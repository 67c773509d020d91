-- ===== src/Xml/Formats.antt =====
-- Formats of src/status/xml_builder.cpp with the arguments that they take.
use tibia_login_orig.Base.{
  ℕ, zero, suc, ◌^◌, ◌<◌, ◌≡◌, refl, ◌∙◌, ◌⊎◌, inl, inr, Bool, true, false, Bool-cases, Option,
  some, List, [], ◌∷◌, length, All, ◌==◌, if◌then◌else◌, ◌>>=◌, arith,
}
use tibia_login_orig.Xml.{
  XmlBuffer, Argument, xml_append_char, xml_append_number, xml_append_string_escaped,
  take_character, take_number, take_string, skip_length, xml_append_format_v, xml_append_format,
}
use tibia_login_orig.Xml.Laws.{
  IsSound, Shows, xml_append_char-Shows, xml_append_string_escaped-Shows,
}
use tibia_login_orig.Xml.Numbers.{magnitude, xml_append_number-Shows}

-- Something was appended, inside the array.
pub record Keeps (b : XmlBuffer) (result : Option XmlBuffer) : Type 0 where
  pub after : XmlBuffer
  pub returns : result ≡ some after
  pub size_kept : after.size ≡ b.size
  pub length_kept : length after.bytes ≡ length b.bytes

pub Shows-Keeps :
    {b : XmlBuffer} {text : List ℕ} {result : Option XmlBuffer}
    → Shows b text result
    → Keeps b result
Shows-Keeps s = record {
  after = s.after;
  returns = s.returns;
  size_kept = s.size_kept;
  length_kept = s.length_kept;
}

pub then-Keeps :
    (b : XmlBuffer) {result : Option XmlBuffer} {next : XmlBuffer → Option XmlBuffer}
    → IsSound b
    → Keeps b result
    → ((c : XmlBuffer) → IsSound c → Keeps c (next c))
    → Keeps b (result >>= next)
then-Keeps b s x step =
    let y = step x.after (omega (arith, x.size_kept, x.length_kept)) in
    record {
      after = y.after;
      returns = rw x.returns y.returns;
      size_kept = y.size_kept ∙ x.size_kept;
      length_kept = y.length_kept ∙ x.length_kept;
    }

-- A number that an `int64` and its opposite can hold.
abbrev pub IsSmall : Argument → Type 0
IsSmall (Argument.number n) = magnitude n < 2 ^ 63
IsSmall _ = Unit

abbrev with_character : List Argument → (List Argument → Bool) → Bool
with_character (Argument.character ch ∷ args) m = m args
with_character _ m = false

abbrev with_number : List Argument → (List Argument → Bool) → Bool
with_number (Argument.number n ∷ args) m = m args
with_number _ m = false

abbrev with_string : List Argument → (List Argument → Bool) → Bool
with_string (Argument.string s ∷ args) m = m args
with_string _ m = false

-- The arguments are of the kinds that the format takes.
unfoldable pub matches : ℕ → List ℕ → List Argument → Bool
matches fuel [] args = true
matches zero (c ∷ p) args = false
matches (suc fuel) (c ∷ p) args = elim (c == b'%') [
  | false ↦ matches fuel p args
  | true ↦ elim (skip_length p) [
    | [] ↦ true
    | d ∷ rest ↦
        let same = matches fuel rest args in
        if d == b'%'
        then same
        else if d == b'c'
        then with_character args (matches fuel rest)
        else if d == b'd'
        then with_number args (matches fuel rest)
        else if d == b's'
        then with_string args (matches fuel rest)
        else same
  ]
]

module _ (b : XmlBuffer) (s : IsSound b) (k : List Argument → XmlBuffer → Option XmlBuffer)
    (m : List Argument → Bool)
    (next : (args : List Argument)
      → m args ≡ true
      → All IsSmall args
      → (c : XmlBuffer) → IsSound c
      → Keeps c (k args c)) where
  character-Keeps :
      (args : List Argument)
      → with_character args m ≡ true
      → All IsSmall args
      → Keeps b (take_character args (λ ch args'. xml_append_char ch b >>= (λ b'. k args' b')))
  character-Keeps [] h small = cc
  character-Keeps (Argument.character ch ∷ args) h small =
      then-Keeps b s (Shows-Keeps (xml_append_char-Shows ch b s)) (λ c t. next args h small.1 c t)
  character-Keeps (Argument.number n ∷ args) h small = cc
  character-Keeps (Argument.string str ∷ args) h small = cc

  number-Keeps :
      (args : List Argument)
      → with_number args m ≡ true
      → All IsSmall args
      → Keeps b (take_number args (λ n args'. xml_append_number n b >>= (λ b'. k args' b')))
  number-Keeps [] h small = cc
  number-Keeps (Argument.character ch ∷ args) h small = cc
  number-Keeps (Argument.number n ∷ args) h small =
      then-Keeps b s (Shows-Keeps (xml_append_number-Shows n b s small.0).1)
        (λ c t. next args h small.1 c t)
  number-Keeps (Argument.string str ∷ args) h small = cc

  string-Keeps :
      (args : List Argument)
      → with_string args m ≡ true
      → All IsSmall args
      → Keeps b
          (take_string args (λ str args'. xml_append_string_escaped str b >>= (λ b'. k args' b')))
  string-Keeps [] h small = cc
  string-Keeps (Argument.character ch ∷ args) h small = cc
  string-Keeps (Argument.number n ∷ args) h small = cc
  string-Keeps (Argument.string str ∷ args) h small =
      then-Keeps b s (Shows-Keeps (xml_append_string_escaped-Shows str b s))
        (λ c t. next args h small.1 c t)

List-cases : (xs : List ℕ) → (xs ≡ []) ⊎ ((d : ℕ) × (rest : List ℕ) × (xs ≡ d ∷ rest))
List-cases [] = inl refl
List-cases (d ∷ rest) = inr (d, rest, refl)

xml_append_format_v-Keeps :
    (fuel : ℕ) (p : List ℕ) (args : List Argument) (b : XmlBuffer)
    → matches fuel p args ≡ true
    → All IsSmall args
    → IsSound b
    → Keeps b (xml_append_format_v fuel p args b)
unfolding xml_append_format_v matches
xml_append_format_v-Keeps fuel [] args b h small s = record {
  after = b;
  returns = refl;
  size_kept = refl;
  length_kept = refl;
}
xml_append_format_v-Keeps zero (c ∷ p) args b h small s = cc
xml_append_format_v-Keeps (suc fuel) (c ∷ p) args b h small s = elim (Bool-cases (c == b'%')) [
  | inr plain ↦
      rw (plain, xml_append_format_v)
        (then-Keeps b s (Shows-Keeps (xml_append_char-Shows c b s))
          (λ b' t. xml_append_format_v-Keeps fuel p args b' (rw (plain, matches) at h) small t))
  | inl percent ↦ elim (List-cases (skip_length p)) [
    | inl over ↦
        rw (percent, xml_append_format_v, over)
          (record { after = b; returns = refl; size_kept = refl; length_kept = refl })
    | inr (d, rest, e) ↦
        let h' = rw (percent, matches, e) at h in
        let next : (args' : List Argument)
            → matches fuel rest args' ≡ true
            → All IsSmall args'
            → (b' : XmlBuffer) → IsSound b'
            → Keeps b' (xml_append_format_v fuel rest args' b') =
          λ args' h'' small' b' t. xml_append_format_v-Keeps fuel rest args' b' h'' small' t in
        elim (Bool-cases (d == b'%')) [
          | inl y0 ↦
              rw (percent, xml_append_format_v, e, y0)
                (then-Keeps b s (Shows-Keeps (xml_append_char-Shows b'%' b s))
                  (next args (rw y0 at h') small))
          | inr n0 ↦ elim (Bool-cases (d == b'c')) [
            | inl y1 ↦
                rw (percent, xml_append_format_v, e, n0, y1)
                  (character-Keeps b s (xml_append_format_v fuel rest) (matches fuel rest) next args
                    (rw (n0, y1) at h') small)
            | inr n1 ↦ elim (Bool-cases (d == b'd')) [
              | inl y2 ↦
                  rw (percent, xml_append_format_v, e, n0, n1, y2)
                    (number-Keeps b s (xml_append_format_v fuel rest) (matches fuel rest) next args
                      (rw (n0, n1, y2) at h') small)
              | inr n2 ↦ elim (Bool-cases (d == b's')) [
                | inl y3 ↦
                    rw (percent, xml_append_format_v, e, n0, n1, n2, y3)
                      (string-Keeps b s (xml_append_format_v fuel rest) (matches fuel rest) next
                        args (rw (n0, n1, n2, y3) at h') small)
                | inr n3 ↦
                    rw (percent, xml_append_format_v, e, n0, n1, n2, n3)
                      (next args (rw (n0, n1, n2, n3) at h') small b s)
              ]
            ]
          ]
        ]
  ]
]

-- A format with the arguments that it takes, of numbers that fit, is appended inside the array.
pub xml_append_format-Keeps :
    (format : List ℕ) (args : List Argument) (b : XmlBuffer)
    → matches (length format) format args ≡ true
    → All IsSmall args
    → IsSound b
    → Keeps b (xml_append_format format args b)
unfolding xml_append_format
xml_append_format-Keeps format args b h small s =
    xml_append_format_v-Keeps (length format) format args b h small s
