-- ===== src/Xtea/Rounds.antt =====
-- The rounds of src/crypto/xtea.cpp undo one another.
use tibia_login_orig.Base.{
  ℕ, zero, suc, ◌^◌, ◌<◌, ◌≡◌, refl, ap, ap₂, ◌∙◌, bit_xor, add32, sub32, List, arith,
}
use tibia_login_orig.Xtea.{
  State, delta, mixed, low_key, high_key, encrypt_round, decrypt_round, rounds,
}

pub record AreWords (s : State) : Type 0 where
  pub sum_fits : s.sum < 2 ^ 32
  pub v0_fits : s.v0 < 2 ^ 32
  pub v1_fits : s.v1 < 2 ^ 32

-- Whatever is added is taken off again, and the other way round.
pub sub32-add32 : (a f : ℕ) → a < 2 ^ 32 → sub32 (add32 a f) f ≡ a
sub32-add32 a f h = omega arith

pub add32-sub32 : (a f : ℕ) → a < 2 ^ 32 → add32 (sub32 a f) f ≡ a
add32-sub32 a f h = omega arith

pub encrypt_round-AreWords : (key : List ℕ) (s : State) → AreWords (encrypt_round key s)
unfolding encrypt_round
encrypt_round-AreWords key s = omega arith

pub decrypt_round-AreWords : (key : List ℕ) (s : State) → AreWords (decrypt_round key s)
unfolding decrypt_round
decrypt_round-AreWords key s = omega arith

pub State_path : (s t : State) → s.sum ≡ t.sum → s.v0 ≡ t.v0 → s.v1 ≡ t.v1 → s ≡ t
State_path s t e e0 e1 = λ i. record { sum = e i; v0 = e0 i; v1 = e1 i }

pub decrypt_round-encrypt_round :
    (key : List ℕ) (s : State) → AreWords s → decrypt_round key (encrypt_round key s) ≡ s
unfolding encrypt_round decrypt_round
decrypt_round-encrypt_round key s w =
    let sum_back : sub32 (add32 s.sum delta) delta ≡ s.sum = sub32-add32 s.sum delta w.sum_fits in
    let v1_back =
      sub32-add32 s.v1
        (bit_xor (mixed (encrypt_round key s).v0) (high_key key (encrypt_round key s).sum))
        w.v1_fits in
    State_path _ s sum_back
      (ap₂ (λ (a b : ℕ). sub32 (encrypt_round key s).v0 (bit_xor (mixed a) (low_key key b))) v1_back
          sum_back
        ∙ sub32-add32 s.v0 (bit_xor (mixed s.v1) (low_key key s.sum)) w.v0_fits)
      v1_back

pub encrypt_round-decrypt_round :
    (key : List ℕ) (s : State) → AreWords s → encrypt_round key (decrypt_round key s) ≡ s
unfolding encrypt_round decrypt_round
encrypt_round-decrypt_round key s w =
    let sum_back : add32 (sub32 s.sum delta) delta ≡ s.sum = add32-sub32 s.sum delta w.sum_fits in
    let v0_back =
      add32-sub32 s.v0
        (bit_xor (mixed (decrypt_round key s).v1) (low_key key (decrypt_round key s).sum))
        w.v0_fits in
    State_path _ s sum_back v0_back (
      ap₂ (λ (a b : ℕ). add32 (decrypt_round key s).v1 (bit_xor (mixed a) (high_key key b))) v0_back
        sum_back
      ∙ add32-sub32 s.v1 (bit_xor (mixed s.v0) (high_key key s.sum)) w.v1_fits)

-- The same for any number of rounds.
pub rounds_suc :
    (n : ℕ) (step : State → State) (s : State) → rounds n step (step s) ≡ step (rounds n step s)
rounds_suc zero step s = refl
rounds_suc (suc n) step s = rounds_suc n step (step s)

module _ (forth back : State → State) (forth_fits : (s : State) → AreWords (forth s))
    (undo : (s : State) → AreWords s → back (forth s) ≡ s) where
  pub rounds_fit : (n : ℕ) (s : State) → AreWords s → AreWords (rounds n forth s)
  rounds_fit zero s w = w
  rounds_fit (suc n) s w = rounds_fit n (forth s) (forth_fits s)

  pub rounds_undo : (n : ℕ) (s : State) → AreWords s → rounds n back (rounds n forth s) ≡ s
  rounds_undo zero s w = refl
  rounds_undo (suc n) s w =
      rounds_suc n back (rounds n forth (forth s))
      ∙ ap back (rounds_undo n (forth s) (forth_fits s))
      ∙ undo s w

-- The running sum does not depend on the block.
abbrev pub sum_after : ℕ → ℕ → ℕ
sum_after zero sum = sum
sum_after (suc n) sum = sum_after n (add32 sum delta)

abbrev pub sum_before : ℕ → ℕ → ℕ
sum_before zero sum = sum
sum_before (suc n) sum = sum_before n (sub32 sum delta)

pub sum-encrypt :
    (key : List ℕ) (n : ℕ) (s : State) → (rounds n (encrypt_round key) s).sum ≡ sum_after n s.sum
unfolding encrypt_round
sum-encrypt key zero s = refl
sum-encrypt key (suc n) s = sum-encrypt key n (encrypt_round key s)

pub sum-decrypt :
    (key : List ℕ) (n : ℕ) (s : State) → (rounds n (decrypt_round key) s).sum ≡ sum_before n s.sum
unfolding decrypt_round
sum-decrypt key zero s = refl
sum-decrypt key (suc n) s = sum-decrypt key n (decrypt_round key s)

-- After 32 rounds it is the sum that decryption starts from.
pub sum_end : (sum_after 32 0 ≡ 0xC6EF3720) × (sum_before 32 0xC6EF3720 ≡ 0)
sum_end = (refl, refl)
