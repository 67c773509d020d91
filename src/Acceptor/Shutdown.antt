-- ===== src/Acceptor/Shutdown.antt =====
-- A worker of src/network/websocket_acceptor.cpp that is between the two halves of `safe_defer` while
-- the acceptor stops.
use tibia_login_orig.Base.{
  ◌≡◌, refl, ap, ◌∙◌, true, false, List, [], ◌∷◌, ◌++◌, Bool-cases, inl, inr, arith,
}
use tibia_login_orig.Acceptor.{
  leaving, Task, shut, deferring, Worker, running, ended, idle, Acceptor, close_all, run_task,
}
use tibia_login_orig.Acceptor.Step.{
  with_workers, in_phase, Step, is_bound, is_ended, defer, hand_over, run, return, forget_loop,
  end_thread, share, signal, load_loop, defer_shut, Runs, here, next,
}

-- With no socket open, the acceptor's end only stops listening.
run_shut : (a : Acceptor) → a.sockets ≡ [] → run_task shut a ≡ record a { listen_socket = false }
unfolding run_task close_all
run_shut a e = elim (Bool-cases a.app_instance) [
  | inl up ↦ rw (up, run_task, e, close_all) refl
  | inr down ↦ rw (down, run_task) refl
]

-- The end of the loop is deferred.
abbrev Asked : Acceptor → Type 0
Asked a =
    (b : Acceptor) × Runs a b
    × (b.thread ≡ running)
    × (b.deferred ≡ shut ∷ [])
    × (b.sockets ≡ [])
    × (b.workers ≡ a.workers)
    × (b.late ≡ a.late)

ask :
    (a : Acceptor)
    → a.thread ≡ running
    → a.stage ≡ idle
    → a.event_loop ≡ true
    → a.deferred ≡ []
    → a.sockets ≡ []
    → Asked a
unfolding defer
ask a up on loop quiet alone =
    let start : Runs a a = here in
    let r1 = next start (signal (ap is_bound up) on) in
    let r2 = next r1 (load_loop refl) in
    let r3 = next r2 (defer_shut (rw loop refl)) in
    (_, r3, up, rw (ap is_ended up, quiet) refl, alone, refl, ground (arith, ap is_ended up))

-- The thread of the loop is over, and the workers are where they were.
abbrev Over : Acceptor → Type 0
Over a =
    (b : Acceptor) × Runs a b × (b.thread ≡ ended) × (b.workers ≡ a.workers) × (b.late ≡ a.late)

wind_up : (a : Acceptor) → Asked a → Over a
wind_up a (b, r, up, asked, alone, same, in_time) =
    let c = run_task shut (record b { deferred = [] }) in
    let e = run_shut (record b { deferred = [] }) alone in
    let r1 : Runs a c = next r (run shut [] up asked) in
    let r2 = next r1 (
      return (ap (λ x. x.thread) e ∙ up) (ap (λ x. x.listen_socket) e)
        (ap (λ x. x.sockets) e ∙ alone)) in
    let r3 = next r2 (forget_loop refl) in
    let r4 = next r3 (end_thread refl) in
    (_, r4, refl, ap (λ x. x.workers) e ∙ same, ap (λ x. x.late) e ∙ in_time)

-- A worker that has found `ShuttingDown` unset can come to use the loop when it is gone. From each
-- state of the running acceptor with that worker about to defer a task, no open socket and nothing
-- deferred, steps lead to a state in which the thread of the loop is over, all workers are where they
-- were and no loop was used too late since; and the step of that worker that then defers its task uses
-- the loop that is gone.
pub shutdown_race :
    (a : Acceptor) (before after : List Worker) (w : Worker) (task : Task)
    → a.thread ≡ running
    → a.stage ≡ idle
    → a.event_loop ≡ true
    → a.deferred ≡ []
    → a.sockets ≡ []
    → a.workers ≡ before ++ w ∷ after
    → w.phase ≡ deferring task
    → (b : Acceptor) × Runs a b
      × (b.thread ≡ ended)
      × (b.workers ≡ a.workers)
      × (b.late ≡ a.late)
      × Step b (with_workers (before ++ in_phase leaving w ∷ after) (defer task b))
      × ((defer task b).late ≡ true)
unfolding defer
shutdown_race a before after w task up on loop quiet alone at_w checked =
    let (b, r, over, same, in_time) = wind_up a (ask a up on loop quiet alone) in
    (
      b,
      r,
      over,
      same,
      in_time,
      share before after w (same ∙ at_w) (hand_over task checked),
      rw (ap is_ended over) (ground arith),
    )
