-- ===== src/Xml/Numbers.antt =====
-- The decimal numbers of src/status/xml_builder.cpp.
use native.Mathlib.Nat.{pow-suc}
use tibia_login_orig.Base.{
  ℕ, zero, suc, ◌+◌, ◌-◌, ◌*◌, ◌/◌, ◌^◌, ◌≤◌, ◌<◌, ◌≡◌, refl, none, List, [], ◌∷◌, ◌++◌, All, ltb,
  ◌%◌, ◌==◌, ◌⊎◌, inl, inr, Bool-cases, false, lt→ltb, if◌then◌else◌, ℤ, pos, negsuc, arith,
}
use tibia_login_orig.Xml.{
  XmlBuffer, xml_append_char, digits_loop, append_reversed, append_positive, xml_append_number,
}
use tibia_login_orig.Xml.Laws.{IsSound, Shows, xml_append_char-Shows, nothing-Shows, then-Shows}

abbrev pub IsDigit : ℕ → Type 0
IsDigit c = (b'0' ≤ c) × (c ≤ b'9')

-- The number that digits stand for, the last digit first.
abbrev pub value_of : List ℕ → ℕ
value_of [] = 0
value_of (c ∷ cs) = c - b'0' + 10 * value_of cs

-- The digit of the highest place.
abbrev pub top : List ℕ → ℕ
top [] = 0
top (c ∷ []) = c
top (c ∷ d ∷ cs) = top (d ∷ cs)

-- The digits of a number, the last first, without zeros in front of it.
pub record IsDecimal (n : ℕ) (ds : List ℕ) : Type 0 where
  pub value : value_of ds ≡ n
  pub digits : All IsDigit ds
  pub leading : ((n ≡ 0) × (ds ≡ b'0' ∷ [])) ⊎ (b'0' < top ds)

abbrev pub backwards : List ℕ → List ℕ
backwards [] = []
backwards (c ∷ cs) = backwards cs ++ c ∷ []

abbrev pub magnitude : ℤ → ℕ
magnitude (pos n) = n
magnitude (negsuc n) = suc n

abbrev pub sign : ℤ → List ℕ
sign (pos n) = []
sign (negsuc n) = b'-' ∷ []

digits_loop_lem :
    (places num : ℕ)
    → num < 10 ^ places
    → (value_of (digits_loop places num) ≡ num) × All IsDigit (digits_loop places num)
unfolding digits_loop
digits_loop_lem zero num h = (omega arith, tt)
digits_loop_lem (suc places) num h =
    ground (arith, digits_loop_lem places (num / 10) (omega (arith, pow-suc 10 places)))

top_rest : (c : ℕ) (cs : List ℕ) → b'0' < top cs → top (c ∷ cs) ≡ top cs
top_rest c [] h = absurd (omega arith)
top_rest c (d ∷ cs) h = refl

digits_of_zero : (places : ℕ) → digits_loop places 0 ≡ []
unfolding digits_loop
digits_of_zero zero = refl
digits_of_zero (suc places) = refl

digits_loop-top :
    (places num : ℕ) → 0 < num → num < 10 ^ places → b'0' < top (digits_loop places num)
unfolding digits_loop
digits_loop-top zero num some h = absurd (omega arith)
digits_loop-top (suc places) num some h =
    let busy : (num == 0) ≡ false = ground arith in
    elim (Bool-cases (num / 10 == 0)) [
      | inl last ↦
          let none_left : num / 10 ≡ 0 = ground arith in
          rw (busy, none_left, digits_of_zero places) (omega (arith, none_left))
      | inr more ↦
          let rest : b'0' < top (digits_loop places (num / 10)) =
            digits_loop-top places (num / 10) (ground arith) (omega (arith, pow-suc 10 places)) in
          rw (busy, top_rest (num % 10 + b'0') (digits_loop places (num / 10)) rest) rest
    ]

digits_loop-IsDecimal : (num : ℕ) → 0 < num → num < 2 ^ 63 → IsDecimal num (digits_loop 64 num)
digits_loop-IsDecimal num some h =
    let d = digits_loop_lem 64 num (omega arith) in
    record { value = d.0; digits = d.1; leading = inr (digits_loop-top 64 num some (omega arith)) }

append_reversed-Shows :
    (ds : List ℕ) (b : XmlBuffer) → IsSound b → Shows b (backwards ds) (append_reversed ds b)
unfolding append_reversed
append_reversed-Shows [] b s = nothing-Shows b s
append_reversed-Shows (c ∷ cs) b s =
    then-Shows b (backwards cs) (c ∷ []) (append_reversed cs b) (xml_append_char c) s
      (append_reversed-Shows cs b s) (λ d t. xml_append_char-Shows c d t)

-- A number that an `int64` and its opposite can hold goes in as its decimal digits, with no zero in
-- front of them unless it is 0, behind a minus sign if it is negative.
pub xml_append_number-Shows :
    (num : ℤ) (b : XmlBuffer)
    → IsSound b
    → magnitude num < 2 ^ 63
    → (ds : List ℕ) × Shows b (sign num ++ backwards ds) (xml_append_number num b)
      × IsDecimal (magnitude num) ds
unfolding xml_append_number append_positive
xml_append_number-Shows (pos zero) b s h = (
  b'0' ∷ [],
  xml_append_char-Shows b'0' b s,
  record { value = refl; digits = omega arith; leading = inl (refl, refl) },
)
xml_append_number-Shows (pos (suc n)) b s h = (
  digits_loop 64 (suc n),
  append_reversed-Shows (digits_loop 64 (suc n)) b s,
  digits_loop-IsDecimal (suc n) (omega arith) h,
)
xml_append_number-Shows (negsuc n) b s h = (
  digits_loop 64 (suc n),
  then-Shows b (b'-' ∷ []) (backwards (digits_loop 64 (suc n))) (xml_append_char b'-' b)
      (λ b'. if ltb n (2 ^ 63 - 1) then append_positive (suc n) b' else none) s
      (xml_append_char-Shows b'-' b s)
      (λ c t.
        rw (lt→ltb n (2 ^ 63 - 1) (omega arith))
          (append_reversed-Shows (digits_loop 64 (suc n)) c t)),
  digits_loop-IsDecimal (suc n) (omega arith) h,
)
