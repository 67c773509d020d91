-- ===== src/Strings.antt =====
-- src/common/string_utils.cpp. A C string is the list of its bytes in front of the terminator; a
-- destination is an array. `char` is signed, and `tolower` is that of the C locale.
pub mod Laws
use tibia_login_orig.Base.{
  ℕ, zero, suc, ◌+◌, ◌-◌, ◌^◌, ◌*◌, bit_xor, u32, mul32, Bool, true, false, not, ◌&&◌, Option, none,
  some, List, [], ◌∷◌, ◌++◌, length, ltb, leb, ◌==◌, if◌then◌else◌, store, replicate, ◌>>=◌,
}

-- The C string that an array of bytes holds.
unfoldable pub c_string : List ℕ → List ℕ
c_string [] = []
c_string (b ∷ bs) = let rest = c_string bs in if b == 0 then [] else b ∷ rest

unfoldable pub string_empty : List ℕ → Bool
string_empty [] = true
string_empty (c ∷ cs) = c == 0

unfoldable pub string_equals : List ℕ → List ℕ → Bool
string_equals [] [] = true
string_equals [] (d ∷ b) = d == 0
string_equals (c ∷ a) [] = c == 0
string_equals (c ∷ a) (d ∷ b) =
    let rest = string_equals a b in if not (c == 0) && c == d then rest else c == d

-- The C locale's `tolower`.
unfoldable pub tolower : ℕ → ℕ
tolower c = if leb b'A' c && leb c b'Z' then c + 32 else c

unfoldable pub string_equals_ignore_case : List ℕ → List ℕ → Bool
unfolding tolower
string_equals_ignore_case [] [] = true
string_equals_ignore_case [] (d ∷ b) = tolower d == 0
string_equals_ignore_case (c ∷ a) [] = tolower c == 0
string_equals_ignore_case (c ∷ a) (d ∷ b) =
    let rest = string_equals_ignore_case a b in
    if not (c == 0) && tolower c == tolower d then rest else tolower c == tolower d

-- The result, and the array after the call. An array of no bytes breaks the assertion: a fault.
unfoldable pub string_copy_n : List ℕ → List ℕ → Option (Bool × List ℕ)
string_copy_n dest src =
    if ltb (length src) (length dest) && ltb 0 (length src)
    then store dest 0 (src ++ 0 ∷ []) >>= (λ dest'. some (ltb (length src) (length dest), dest'))
    else store dest 0 (0 ∷ []) >>= (λ dest'. some (ltb (length src) (length dest), dest'))

-- A null pointer is copied as the empty string is.
unfoldable pub string_copy : List ℕ → List ℕ → Option (Bool × List ℕ)
unfolding string_copy_n
string_copy dest src = string_copy_n dest src

unfoldable pub string_clear : List ℕ → Option (List ℕ)
string_clear dest = store dest 0 (replicate (length dest) 0)

-- `(uint32)str[i]`: a signed `char` is extended by its sign.
abbrev pub char_word : ℕ → ℕ
char_word c = if ltb c 128 then c else c + (2 ^ 32 - 256)

hash_loop : ℕ → List ℕ → ℕ
hash_loop hash [] = hash
hash_loop hash (c ∷ cs) = hash_loop (mul32 (bit_xor hash (char_word c)) 0x01000193) cs

unfoldable pub string_hash : List ℕ → ℕ
unfolding hash_loop
string_hash str = hash_loop 0x811C9DC5 str

-- The letter that stands for a character behind a backslash; `none` is -1.
unfoldable pub escape_letter : ℕ → Option ℕ
escape_letter c =
    if c == 7
    then some b'a'
    else if c == 8
    then some b'b'
    else if c == 9
    then some b't'
    else if c == 10
    then some b'n'
    else if c == 11
    then some b'v'
    else if c == 12
    then some b'f'
    else if c == 13
    then some b'r'
    else if c == 34
    then some 34
    else if c == 39
    then some 39
    else if c == 92
    then some 92
    else none

-- `if((write_pos + 1) <= dest_capacity){ dest[write_pos] = c; write_pos += 1; }`
unfoldable pub escape_put : ℕ → List ℕ → ℕ → Option (List ℕ × ℕ)
escape_put c dest write_pos =
    if leb (write_pos + 1) (length dest)
    then store dest write_pos (c ∷ []) >>= (λ dest'. some (dest', write_pos + 1))
    else some (dest, write_pos)

unfoldable pub escape_char : ℕ → List ℕ → ℕ → Option (List ℕ × ℕ)
escape_char c dest write_pos = elim (escape_letter c) [
  | none ↦ escape_put c dest write_pos
  | some letter ↦ escape_put 92 dest write_pos >>= (λ r. escape_put letter r.0 r.1)
]

-- `for(…; src[read_pos] != 0 && write_pos < dest_capacity; …)`
unfoldable pub escape_loop : List ℕ → List ℕ → ℕ → Option (List ℕ × ℕ)
escape_loop [] dest write_pos = some (dest, write_pos)
escape_loop (c ∷ cs) dest write_pos =
    if ltb write_pos (length dest)
    then escape_char c dest write_pos >>= (λ r. escape_loop cs r.0 r.1)
    else some (dest, write_pos)

unfoldable pub string_escape : List ℕ → List ℕ → Option (Bool × List ℕ)
string_escape dest src = escape_loop src dest 0 >>= (λ r.
    if ltb r.1 (length dest)
    then store r.0 r.1 (0 ∷ []) >>= (λ dest'. some (true, dest'))
    else if ltb 0 (length dest)
    then store r.0 (length dest - 1) (0 ∷ []) >>= (λ dest'. some (false, dest'))
    else none)
