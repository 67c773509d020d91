-- ===== src/Xtea/Laws.antt =====
-- `xtea_decrypt` and `xtea_encrypt` of src/crypto/xtea.cpp undo one another on whole buffers.
use tibia_login_orig.Base.{
  ℕ, zero, suc, ◌*◌, ◌/◌, ◌^◌, ◌≤◌, ◌<◌, ◌≡◌, refl, ap, ap₂, sym, ◌∙◌, List, ◌++◌, length, take,
  drop, length-append, length-take, length-drop, take-append, drop-append, take-append-drop,
  AreBytes, IsByte, arith, get_or, tabulate-get_or, get_or-All, All-take, All-drop,
}
use tibia_login_orig.ByteOrder.{write_u32_le}
use tibia_login_orig.ByteOrder.Laws.{read_u32_le-lt, read-write_u32_le, write-read_u32_le}
use tibia_login_orig.Xtea.{
  State, encrypt_round, decrypt_round, rounds, block, blocks, word_at, xtea_encrypt, xtea_decrypt,
}
use tibia_login_orig.Xtea.Rounds.{
  AreWords, encrypt_round-AreWords, decrypt_round-AreWords, decrypt_round-encrypt_round,
  encrypt_round-decrypt_round, rounds_fit, rounds_undo, State_path, sum_after, sum_before,
  sum-encrypt, sum-decrypt, sum_end,
}

-- A block of eight bytes.
abbrev IsBlock : List ℕ → Type 0
IsBlock bytes = (length bytes ≡ 8) × AreBytes bytes

words_then : State → List ℕ
words_then s = write_u32_le s.v0 ++ write_u32_le s.v1

words_of : ℕ → List ℕ → State
words_of sum bytes = record { sum = sum; v0 = word_at bytes 0; v1 = word_at bytes 4 }

words_then-IsBlock : (s : State) → IsBlock (words_then s)
unfolding words_then write_u32_le
words_then-IsBlock s = omega arith

byte : (bytes : List ℕ) (i : ℕ) → AreBytes bytes → IsByte (get_or bytes i 0)
byte bytes i b = get_or-All IsByte bytes i 0 b (omega arith)

words_of-AreWords :
    (sum : ℕ) (bytes : List ℕ) → sum < 2 ^ 32 → AreBytes bytes → AreWords (words_of sum bytes)
unfolding words_of
words_of-AreWords sum bytes h b = record {
  sum_fits = h;
  v0_fits =
      read_u32_le-lt _ _ _ _ (byte bytes 0 b) (byte bytes 1 b) (byte bytes 2 b) (byte bytes 3 b);
  v1_fits =
      read_u32_le-lt _ _ _ _ (byte bytes 4 b) (byte bytes 5 b) (byte bytes 6 b) (byte bytes 7 b);
}

words_of-words_then :
    (sum : ℕ) (s : State) → AreWords s → s.sum ≡ sum → words_of sum (words_then s) ≡ s
unfolding words_of words_then write_u32_le
words_of-words_then sum s w e =
    State_path _ s (sym e) (read-write_u32_le s.v0 w.v0_fits) (read-write_u32_le s.v1 w.v1_fits)

words_then-words_of :
    (sum : ℕ) (bytes : List ℕ) → IsBlock bytes → words_then (words_of sum bytes) ≡ bytes
unfolding words_of words_then
words_then-words_of sum bytes (e, b) =
    ap₂ ◌++◌
      (write-read_u32_le _ _ _ _ (byte bytes 0 b) (byte bytes 1 b) (byte bytes 2 b)
        (byte bytes 3 b))
      (write-read_u32_le _ _ _ _ (byte bytes 4 b) (byte bytes 5 b) (byte bytes 6 b)
        (byte bytes 7 b))
    ∙ tabulate-get_or 8 bytes 0 e

block-IsBlock :
    (start : ℕ) (step : State → State) (bytes : List ℕ) → IsBlock (block start step bytes)
unfolding block words_of words_then
block-IsBlock start step bytes = words_then-IsBlock (rounds 32 step (words_of start bytes))

-- One block there and back, for rounds that undo one another and end at the other's sum.
module _ (forth back : State → State) (start stop : ℕ) (start_fits : start < 2 ^ 32)
    (forth_fits : (s : State) → AreWords (forth s))
    (undo : (s : State) → AreWords s → back (forth s) ≡ s)
    (ends : (s : State) → s.sum ≡ start → (rounds 32 forth s).sum ≡ stop) where
  block_undo : (bytes : List ℕ) → IsBlock bytes → block stop back (block start forth bytes) ≡ bytes
  unfolding block words_of words_then
  block_undo bytes (e, b) =
      ap (λ t. words_then (rounds 32 back t))
        (words_of-words_then stop (rounds 32 forth (words_of start bytes))
          (rounds_fit forth back forth_fits undo 32 (words_of start bytes) fits)
          (ends (words_of start bytes) refl))
      ∙ ap words_then (rounds_undo forth back forth_fits undo 32 (words_of start bytes) fits)
      ∙ words_then-words_of start bytes (e, b)
    where
      fits : AreWords (words_of start bytes)
      fits = words_of-AreWords start bytes start_fits b

-- Block by block, for any pair of maps of blocks that undo one another.
module _ (forth back : List ℕ → List ℕ) (forth_block : (bytes : List ℕ) → IsBlock (forth bytes))
    (undo : (bytes : List ℕ) → IsBlock bytes → back (forth bytes) ≡ bytes) where
  length-blocks :
      (n : ℕ) (bytes : List ℕ) → n * 8 ≤ length bytes → length (blocks n forth bytes) ≡ length bytes
  unfolding blocks
  length-blocks zero bytes h = refl
  length-blocks (suc n) bytes h = omega (
    arith,
    length-append (forth (take 8 bytes)) (blocks n forth (drop 8 bytes)),
    (forth_block (take 8 bytes)).0,
    length-drop 8 bytes,
    length-blocks n (drop 8 bytes) (omega (arith, length-drop 8 bytes)),
  )

  blocks_undo :
      (n : ℕ) (bytes : List ℕ)
      → n * 8 ≤ length bytes
      → AreBytes bytes
      → blocks n back (blocks n forth bytes) ≡ bytes
  unfolding blocks
  blocks_undo zero bytes h b = refl
  blocks_undo (suc n) bytes h b =
      ap₂ (λ s t. back s ++ blocks n back t)
        (take-append 8 (forth (take 8 bytes)) (blocks n forth (drop 8 bytes)) size)
        (drop-append 8 (forth (take 8 bytes)) (blocks n forth (drop 8 bytes)) size)
      ∙ ap₂ ◌++◌
          (undo (take 8 bytes) (omega (arith, length-take 8 bytes), All-take IsByte 8 bytes b))
          (blocks_undo n (drop 8 bytes) (omega (arith, length-drop 8 bytes))
            (All-drop IsByte 8 bytes b))
      ∙ take-append-drop 8 bytes
    where
      size : length (forth (take 8 bytes)) ≡ 8
      size = (forth_block (take 8 bytes)).0

module _ (key : List ℕ) where
  decrypt-encrypt_block :
      (bytes : List ℕ)
      → IsBlock bytes
      → block 0xC6EF3720 (decrypt_round key) (block 0 (encrypt_round key) bytes) ≡ bytes
  decrypt-encrypt_block =
      block_undo (encrypt_round key) (decrypt_round key) 0 0xC6EF3720 (omega arith)
        (encrypt_round-AreWords key) (decrypt_round-encrypt_round key)
        (λ s e. sum-encrypt key 32 s ∙ ap (sum_after 32) e ∙ sum_end.0)

  encrypt-decrypt_block :
      (bytes : List ℕ)
      → IsBlock bytes
      → block 0 (encrypt_round key) (block 0xC6EF3720 (decrypt_round key) bytes) ≡ bytes
  encrypt-decrypt_block =
      block_undo (decrypt_round key) (encrypt_round key) 0xC6EF3720 0 (omega arith)
        (decrypt_round-AreWords key) (encrypt_round-decrypt_round key)
        (λ s e. sum-decrypt key 32 s ∙ ap (sum_before 32) e ∙ sum_end.1)

  pub length-xtea_encrypt : (bytes : List ℕ) → length (xtea_encrypt key bytes) ≡ length bytes
  unfolding xtea_encrypt
  length-xtea_encrypt bytes =
      length-blocks (block 0 (encrypt_round key)) (block 0xC6EF3720 (decrypt_round key))
        (block-IsBlock 0 (encrypt_round key)) decrypt-encrypt_block (length bytes / 8) bytes
        (omega arith)

  length-xtea_decrypt : (bytes : List ℕ) → length (xtea_decrypt key bytes) ≡ length bytes
  unfolding xtea_decrypt
  length-xtea_decrypt bytes =
      length-blocks (block 0xC6EF3720 (decrypt_round key)) (block 0 (encrypt_round key))
        (block-IsBlock 0xC6EF3720 (decrypt_round key)) encrypt-decrypt_block (length bytes / 8)
        bytes (omega arith)

  -- For every key, decrypting what was encrypted gives the bytes back, and encrypting what was
  -- decrypted does too; neither changes the number of bytes.
  pub xtea_inverse :
      (bytes : List ℕ)
      → AreBytes bytes
      → (xtea_decrypt key (xtea_encrypt key bytes) ≡ bytes)
        × (xtea_encrypt key (xtea_decrypt key bytes) ≡ bytes)
        × (length (xtea_encrypt key bytes) ≡ length bytes)
        × (length (xtea_decrypt key bytes) ≡ length bytes)
  unfolding xtea_encrypt xtea_decrypt
  xtea_inverse bytes b = (
    ap (λ (n : ℕ). blocks (n / 8) back (blocks (length bytes / 8) forth bytes))
          (length-xtea_encrypt bytes)
        ∙ blocks_undo forth back (block-IsBlock 0 (encrypt_round key)) decrypt-encrypt_block
            (length bytes / 8) bytes (omega arith) b,
    ap (λ (n : ℕ). blocks (n / 8) forth (blocks (length bytes / 8) back bytes))
          (length-xtea_decrypt bytes)
        ∙ blocks_undo back forth (block-IsBlock 0xC6EF3720 (decrypt_round key))
            encrypt-decrypt_block (length bytes / 8) bytes (omega arith) b,
    length-xtea_encrypt bytes,
    length-xtea_decrypt bytes,
  )
    where
      forth : List ℕ → List ℕ
      forth = block 0 (encrypt_round key)

      back : List ℕ → List ℕ
      back = block 0xC6EF3720 (decrypt_round key)
