-- ===== src/Base/Slices.antt =====
-- Fronts and rests of joined lists, and of what was written into an array.
use Prim.Native.Nat.{ℕ, zero, suc, ◌+◌, ◌-◌, ◌≤◌}
use mathlib.Core.Path.{◌≡◌, refl, sym, ap, ap₂, ◌∙◌}
use mathlib.Core.List.{List, [], ◌∷◌, ◌++◌, append_assoc}
use native.Mathlib.Omega.{arith}
use tibia_login_orig.Base.Lists.{
  length, take, drop, length-take, length-append, drop-append, drop-drop,
}
use tibia_login_orig.Base.Memory.{overwrite, take-overwrite}

module _ {ℓ} {A : Type ℓ} where
  pub take-take : (m n : ℕ) (xs : List A) → m ≤ n → take m (take n xs) ≡ take m xs
  take-take zero n xs h = refl
  take-take (suc m) zero xs h = absurd (omega arith)
  take-take (suc m) (suc n) [] h = refl
  take-take (suc m) (suc n) (x ∷ xs) h = ap (◌∷◌ x) (take-take m n xs (omega arith))

  take_nil : (k : ℕ) → take {A = A} k [] ≡ []
  take_nil zero = refl
  take_nil (suc k) = refl

  -- Two pieces that follow one another.
  pub take_then : (n k : ℕ) (xs : List A) → take n xs ++ take k (drop n xs) ≡ take (n + k) xs
  take_then zero k xs = ap (λ (j : ℕ). take j xs) (omega arith)
  take_then (suc n) k [] = take_nil k ∙ sym (take_nil (suc n + k))
  take_then (suc n) k (x ∷ xs) =
      let e : suc (n + k) ≡ suc n + k = omega arith in
      ap (◌∷◌ x) (take_then n k xs) ∙ ap (λ (j : ℕ). take j (x ∷ xs)) e

  pub drop-take : (m n : ℕ) (xs : List A) → drop m (take n xs) ≡ take (n - m) (drop m xs)
  drop-take zero n xs = ap (λ (k : ℕ). take k xs) (omega arith)
  drop-take (suc m) zero xs =
      let none_left : 0 ≡ zero - suc m = omega arith in
      ap (λ (k : ℕ). take k (drop (suc m) xs)) none_left
  drop-take (suc m) (suc n) [] = sym (take_nil (suc n - suc m))
  drop-take (suc m) (suc n) (x ∷ xs) =
      drop-take m n xs ∙ ap (λ (k : ℕ). take k (drop m xs)) (omega arith)

  pub take-append_front : (n : ℕ) (xs ys : List A) → n ≤ length xs → take n (xs ++ ys) ≡ take n xs
  take-append_front zero xs ys h = refl
  take-append_front (suc n) [] ys h = absurd (omega arith)
  take-append_front (suc n) (x ∷ xs) ys h = ap (◌∷◌ x) (take-append_front n xs ys (omega arith))

  pub take-append_past :
      (n : ℕ) (xs ys : List A) → length xs ≤ n → take n (xs ++ ys) ≡ xs ++ take (n - length xs) ys
  take-append_past n [] ys h = ap (λ (k : ℕ). take k ys) (omega arith)
  take-append_past zero (x ∷ xs) ys h = absurd (omega arith)
  take-append_past (suc n) (x ∷ xs) ys h =
      ap (◌∷◌ x)
        (take-append_past n xs ys (omega arith) ∙ ap (λ (k : ℕ). xs ++ take k ys) (omega arith))

-- A front of an array that was written into inside that front.
pub take-overwrite_inside :
    (memory : List ℕ) (at stop : ℕ) (bytes : List ℕ)
    → at + length bytes ≤ stop
    → stop ≤ length memory
    → take stop (overwrite memory at bytes) ≡ overwrite (take stop memory) at bytes
take-overwrite_inside memory at stop bytes h room =
    take-append_past stop (take at memory) (bytes ++ drop (at + length bytes) memory)
      (omega (arith, length-take at memory))
    ∙ ap₂ ◌++◌ (sym (take-take at stop memory (omega arith))) (
        take-append_past (stop - length (take at memory)) bytes (drop (at + length bytes) memory)
          (omega (arith, length-take at memory))
        ∙ ap (◌++◌ bytes) (
            ap (λ (k : ℕ). take k (drop (at + length bytes) memory))
              (omega (arith, length-take at memory))
            ∙ sym (drop-take (at + length bytes) stop memory)))

-- What stands behind the written bytes is as before.
pub drop-overwrite :
    (memory : List ℕ) (at : ℕ) (bytes : List ℕ) {stop : ℕ}
    → at + length bytes ≡ stop
    → stop ≤ length memory
    → drop stop (overwrite memory at bytes) ≡ drop stop memory
drop-overwrite memory at bytes {stop} e h =
    sym (drop-drop at (length bytes) (overwrite memory at bytes) e)
    ∙ ap (drop (length bytes)) (
        drop-append at (take at memory) (bytes ++ drop (at + length bytes) memory)
          (omega (arith, length-take at memory)))
    ∙ drop-append (length bytes) bytes (drop (at + length bytes) memory) refl
    ∙ ap (λ (k : ℕ). drop k memory) e

-- Bytes that are written one behind the other.
pub overwrite-overwrite :
    (memory : List ℕ) (at : ℕ) (first second : List ℕ) {next : ℕ}
    → at + length first ≡ next
    → next + length second ≤ length memory
    → overwrite (overwrite memory at first) next second ≡ overwrite memory at (first ++ second)
overwrite-overwrite memory at first second {next} e h =
    ap₂ (λ front back. front ++ (second ++ back)) (take-overwrite memory at first e (omega arith))
      (sym (drop-drop next (length second) (overwrite memory at first) refl)
        ∙ ap (drop (length second)) (drop-overwrite memory at first e (omega arith))
        ∙ drop-drop next (length second) memory (omega (arith, length-append first second)))
    ∙ append_assoc (take at memory) first (second ++ drop (at + length (first ++ second)) memory)
    ∙ ap (λ t. take at memory ++ t)
        (sym (append_assoc first second (drop (at + length (first ++ second)) memory)))
