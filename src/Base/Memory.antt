-- ===== src/Base/Memory.antt =====
-- Arrays of bytes. An access outside an array is undefined behaviour in the source, and `none` here.
use Prim.Native.Nat.{ℕ, ◌+◌, ◌≤◌}
use mathlib.Core.Path.{◌≡◌, ap, ◌∙◌}
use mathlib.Core.List.{List, ◌++◌, append_assoc}
use mathlib.Core.Option.{Option, none, some}
use native.Mathlib.Omega.{arith}
use tibia_login_orig.Base.Tests.{leb, if◌then◌else◌}
use tibia_login_orig.Base.Lists.{
  length, take, drop, length-append, length-take, length-drop, take-append,
}

infixl 5 ◌>>=◌
abbrev pub ◌>>=◌ {ℓ κ} : {A : Type ℓ} {B : Type κ} → Option A → (A → Option B) → Option B
none >>= f = none
some a >>= f = f a

-- The `count` bytes from `at` on.
unfoldable pub load : List ℕ → ℕ → ℕ → Option (List ℕ)
load memory at count =
    if leb (at + count) (length memory) then some (take count (drop at memory)) else none

-- `memory` with `bytes` written from `at` on.
abbrev pub overwrite : List ℕ → ℕ → List ℕ → List ℕ
overwrite memory at bytes = take at memory ++ (bytes ++ drop (at + length bytes) memory)

unfoldable pub store : List ℕ → ℕ → List ℕ → Option (List ℕ)
store memory at bytes =
    if leb (at + length bytes) (length memory) then some (overwrite memory at bytes) else none

pub store_fits :
    (memory : List ℕ) (at : ℕ) (bytes : List ℕ)
    → at + length bytes ≤ length memory
    → store memory at bytes ≡ some (overwrite memory at bytes)
unfolding store
store_fits memory at bytes h = ground arith

pub load_fits :
    (memory : List ℕ) (at count : ℕ)
    → at + count ≤ length memory
    → load memory at count ≡ some (take count (drop at memory))
unfolding load
load_fits memory at count h = ground arith

pub length-overwrite :
    (memory : List ℕ) (at : ℕ) (bytes : List ℕ)
    → at + length bytes ≤ length memory
    → length (overwrite memory at bytes) ≡ length memory
length-overwrite memory at bytes h = omega (
  arith,
  length-append (take at memory) (bytes ++ drop (at + length bytes) memory),
  length-append bytes (drop (at + length bytes) memory),
  length-take at memory,
  length-drop (at + length bytes) memory,
)

-- What stands before the written bytes, with them, is a front of the result.
pub take-overwrite :
    (memory : List ℕ) (at : ℕ) (bytes : List ℕ) {stop : ℕ}
    → at + length bytes ≡ stop
    → stop ≤ length memory
    → take stop (overwrite memory at bytes) ≡ take at memory ++ bytes
take-overwrite memory at bytes {stop} e h =
    ap (take stop) regroup
    ∙ take-append stop (take at memory ++ bytes) (drop (at + length bytes) memory)
        (omega (arith, length-append (take at memory) bytes, length-take at memory))
  where
    regroup :
        overwrite memory at bytes ≡ (take at memory ++ bytes) ++ drop (at + length bytes) memory
    regroup = rw (append_assoc (take at memory) bytes (drop (at + length bytes) memory))
