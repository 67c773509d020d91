-- ===== src/Xtea.antt =====
-- src/crypto/xtea.cpp: XTEA over 32-bit words, block by block in place. `data` stands for the
-- `size` bytes that the call is given. A key is its four words; the index is masked by 3.
pub mod Rounds
pub mod Laws
use tibia_login_orig.Base.{
  ℕ, zero, suc, ◌+◌, ◌-◌, ◌*◌, ◌/◌, ◌%◌, ◌^◌, bit_and, bit_xor, u32, add32, sub32, ◌<<<◌, ◌>>>◌,
  List, [], ◌∷◌, ◌++◌, length, get_or, take, drop,
}
use tibia_login_orig.ByteOrder.{read_u32_le, write_u32_le}

pub record State : Type 0 where
  pub sum : ℕ
  pub v0 : ℕ
  pub v1 : ℕ

abbrev pub delta : ℕ
delta = 0x9E3779B9

-- `((v << 4) ^ (v >> 5)) + v`
pub mixed : ℕ → ℕ
mixed v = add32 (bit_xor (u32 (v <<< 4)) (v >>> 5)) v

-- `(sum + key[sum & 3])`
pub low_key : List ℕ → ℕ → ℕ
low_key key sum = add32 sum (get_or key (bit_and sum 3) 0)

-- `(sum + key[(sum >> 11) & 3])`
pub high_key : List ℕ → ℕ → ℕ
high_key key sum = add32 sum (get_or key (bit_and (sum >>> 11) 3) 0)

pub encrypt_round : List ℕ → State → State
encrypt_round key s =
    let v0 = add32 s.v0 (bit_xor (mixed s.v1) (low_key key s.sum)) in
    let sum = add32 s.sum delta in
    let v1 = add32 s.v1 (bit_xor (mixed v0) (high_key key sum)) in
    record { sum = sum; v0 = v0; v1 = v1 }

pub decrypt_round : List ℕ → State → State
decrypt_round key s =
    let v1 = sub32 s.v1 (bit_xor (mixed s.v0) (high_key key s.sum)) in
    let sum = sub32 s.sum delta in
    let v0 = sub32 s.v0 (bit_xor (mixed v1) (low_key key sum)) in
    record { sum = sum; v0 = v0; v1 = v1 }

-- `for(int i = 0; i < n; i += 1)`
abbrev pub rounds : ℕ → (State → State) → State → State
rounds zero step s = s
rounds (suc n) step s = rounds n step (step s)

-- `read_u32_le(&data[at])`, for a block of eight bytes.
abbrev pub word_at : List ℕ → ℕ → ℕ
word_at bytes at =
    read_u32_le (get_or bytes at 0) (get_or bytes (at + 1) 0) (get_or bytes (at + 2) 0)
      (get_or bytes (at + 3) 0)

pub block : ℕ → (State → State) → List ℕ → List ℕ
block start step bytes =
    let s = rounds 32 step (record { sum = start; v0 = word_at bytes 0; v1 = word_at bytes 4 }) in
    write_u32_le s.v0 ++ write_u32_le s.v1

-- `while(size >= 8)`: a round for each eight bytes, and the rest is left alone.
pub blocks : ℕ → (List ℕ → List ℕ) → List ℕ → List ℕ
blocks zero crypt bytes = bytes
blocks (suc n) crypt bytes = crypt (take 8 bytes) ++ blocks n crypt (drop 8 bytes)

pub xtea_encrypt : List ℕ → List ℕ → List ℕ
xtea_encrypt key bytes = blocks (length bytes / 8) (block 0 (encrypt_round key)) bytes

pub xtea_decrypt : List ℕ → List ℕ → List ℕ
xtea_decrypt key bytes = blocks (length bytes / 8) (block 0xC6EF3720 (decrypt_round key)) bytes
