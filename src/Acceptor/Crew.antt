-- ===== src/Acceptor/Crew.antt =====
-- The workers of src/network/websocket_acceptor.cpp: their number and the lock, when one of them goes on
-- or is over.
use tibia_login_orig.Base.{
  ◌%◌, ◌^◌, ℕ, ◌+◌, ◌-◌, ◌≡◌, ◌≤◌, sym, ap, inl, inr, Bool, Bool-cases, List, [], ◌∷◌, ◌++◌, length,
  length-append, if◌then◌else◌, arith,
}
use tibia_login_orig.Acceptor.{Phase, Worker, Thread, Stage, Acceptor}
use tibia_login_orig.Acceptor.Step.{
  defer, Work, refuse, connect, skip, check, Share, lock, handle, hand_over,
}
use tibia_login_orig.Acceptor.Sound.{holds, holders, IsCrew, IsStaged}

holders-append : (xs ys : List Worker) → holders (xs ++ ys) ≡ holders xs + holders ys
holders-append [] ys = omega arith
holders-append (x ∷ xs) ys = omega (arith, holders-append xs ys)

module _ (before after : List Worker) (w w' : Worker) {workers : List Worker}
    (at_w : workers ≡ before ++ w ∷ after) where
  -- A worker goes on.
  pub put-IsCrew :
      {n : ℕ} {m m' : Bool}
      → IsCrew workers n m
      → holds w'.phase + (if m then 1 else 0) ≡ holds w.phase + (if m' then 1 else 0)
      → IsCrew (before ++ w' ∷ after) n m'
  put-IsCrew crew e = record {
    counted = omega (
      arith,
      crew.counted,
      ap length at_w,
      length-append before (w ∷ after),
      length-append before (w' ∷ after),
    );
    few = omega (
      arith,
      crew.few,
      ap length at_w,
      length-append before (w ∷ after),
      length-append before (w' ∷ after),
    );
    alone = omega (
      arith,
      crew.alone,
      e,
      ap holders at_w,
      holders-append before (w ∷ after),
      holders-append before (w' ∷ after),
    );
  }

  pub put-IsStaged :
      {stage : Stage} {thread : Thread} {key : Bool}
      → IsStaged stage thread key workers
      → IsStaged stage thread key (before ++ w' ∷ after)
  put-IsStaged s = record {
    over = s.over;
    keyed = s.keyed;
    idle = elim s.idle [
      | inl on ↦ inl on
      | inr off ↦ inr (
          omega (
            arith,
            off,
            ap length at_w,
            length-append before (w ∷ after),
            length-append before (w' ∷ after),
          ))
    ];
  }

module _ (before after : List Worker) (w : Worker) {workers : List Worker}
    (at_w : workers ≡ before ++ w ∷ after) where
  pub leave-IsCrew :
      {n : ℕ} {m : Bool}
      → holds w.phase ≡ 0
      → IsCrew workers n m
      → IsCrew (before ++ after) ((n + (2 ^ 32 - 1)) % 2 ^ 32) m
  leave-IsCrew e crew = record {
    few = omega (
      arith,
      crew.few,
      ap length at_w,
      length-append before (w ∷ after),
      length-append before after,
    );
    counted = omega (
      arith,
      crew.counted,
      crew.few,
      ap length at_w,
      length-append before (w ∷ after),
      length-append before after,
    );
    alone = omega (
      arith,
      crew.alone,
      e,
      ap holders at_w,
      holders-append before (w ∷ after),
      holders-append before after,
    );
  }

  pub leave-IsStaged :
      {stage : Stage} {thread : Thread} {key : Bool}
      → IsStaged stage thread key workers
      → IsStaged stage thread key (before ++ after)
  leave-IsStaged s = record {
    over = s.over;
    keyed = s.keyed;
    idle = elim s.idle [
      | inl on ↦ inl on
      | inr off ↦ absurd (omega (arith, off, ap length at_w, length-append before (w ∷ after)))
    ];
  }

pub Work-holds :
    {a : Acceptor} {w : Worker} {phase : Phase} → Work a w phase → holds phase ≡ holds w.phase
Work-holds (refuse e) = sym (ap holds e)
Work-holds (connect e) = sym (ap holds e)
Work-holds (skip task e off) = sym (ap holds e)
Work-holds (check task e on) = sym (ap holds e)

-- The lock passes to the worker that takes it, and back.
pub Share-holds :
    {a b : Acceptor} {w : Worker} {phase : Phase}
    → Share a w b phase
    → holds w.phase ≤ (if a.rsa_decrypt_mutex then 1 else 0)
    → holds phase + (if a.rsa_decrypt_mutex then 1 else 0)
      ≡ holds w.phase + (if b.rsa_decrypt_mutex then 1 else 0)
unfolding defer
Share-holds (lock e free) h = rw free (omega (arith, ap holds e))
Share-holds {a} (handle c e) h = elim (Bool-cases a.rsa_decrypt_mutex) [
  | inl locked ↦ rw locked (omega (arith, ap holds e))
  | inr free ↦ absurd (omega (arith, ap holds e, rw free at h))
]
Share-holds (hand_over task e) h = omega (arith, ap holds e)

pub held :
    (before after : List Worker) (w : Worker) {workers : List Worker} {n : ℕ} {m : Bool}
    → workers ≡ before ++ w ∷ after
    → IsCrew workers n m
    → holds w.phase ≤ (if m then 1 else 0)
held before after w at_w crew =
    omega (arith, crew.alone, ap holders at_w, holders-append before (w ∷ after))
