-- ===== src/Device/Alone.antt =====
-- `poll_external_signals` and `wait` of threadsafeflag.h when no other context makes a step.
use simple_await.Base.{
  ℕ, zero, suc, ◌≡◌, refl, sym, ◌∙◌, ap, true, false, Option, none, some, [], arith, inl, inr,
  Bool-cases, update, update_self,
}
use std.Path.{fun_ext}
use simple_await.World.{World, ThreadSafeFlag}
use simple_await.Waits.{wake_slot}
use simple_await.Flag
use simple_await.Flag.{
  new_flag, put_flag, write_link, consume, park, resolve_all, resolve, poll_external_signals,
}
use simple_await.Flag.Armed.{Flags, resolvable}
use simple_await.Flag.Resolve.{woken_at, resolve-wakes, resolve-keeps}
use simple_await.Device.{
  Semaphore, Device, interrupted, consume_armed, finish_round, resolve_interrupted,
  poll_interrupted, wait_interrupted,
}

overwritten :
    (flags : Flags) (f : ℕ) (v v' : ThreadSafeFlag)
    → update (update flags f v) f v' ≡ update flags f v'
overwritten flags f v v' = fun_ext (λ i. ground arith)

-- A round that wakes, from the flag `v` that its critical section left and the new flags.
abbrev wakes_with : Option ℕ → World → ThreadSafeFlag → Flags → Option ℕ × World
wakes_with prev w v flags = (
  prev,
  write_link prev v.armed_next (record w { sched = wake_slot v.waiter w.sched; flags = flags }),
)

wakes_taken :
    (prev : Option ℕ) (f : ℕ) (w : World)
    → finish_round prev f true (put_flag f (record (w.flags f) { signaled = false }) w)
      ≡ (prev, woken_at prev f w)
unfolding finish_round
wakes_taken prev f w =
    let v = record (w.flags f) { signaled = false } in
    ap
      (λ (u : ThreadSafeFlag).
        wakes_with prev w u
          (update (update w.flags f v) f (record u { waiter = none; armed_next = none })))
      (update_self w.flags f v)
    ∙ ap (wakes_with prev w v) (overwritten w.flags f v new_flag)

finish_round-false :
    (prev : Option ℕ) (f : ℕ) (w : World) → finish_round prev f false w ≡ (some f, w)
unfolding finish_round
finish_round-false prev f w = refl

-- The critical section and the rest of a round, in a row, are the round.
round-resolve :
    (prev : Option ℕ) (f : ℕ) (w : World)
    → finish_round prev f (consume_armed f w).0 (consume_armed f w).1 ≡ resolve prev f w
unfolding consume_armed
round-resolve prev f w = elim (Bool-cases (resolvable (w.flags f))) [
  | inr off ↦ simp off (finish_round-false prev f w ∙ sym (resolve-keeps prev f w off))
  | inl on ↦ simp on (wakes_taken prev f w ∙ sym (resolve-wakes prev f w on))
]

consume_armed_link :
    (f : ℕ) (w : World) → ((consume_armed f w).1.flags f).armed_next ≡ (w.flags f).armed_next
unfolding consume_armed
consume_armed_link f w = elim (Bool-cases (resolvable (w.flags f))) [
  | inr off ↦ simp off refl
  | inl on ↦ simp on (ground arith)
]

module _ {S : Type 0} (b : Semaphore S) where
  round_alone :
      (fuel : ℕ) (prev : Option ℕ) (f : ℕ) (d : Device S)
      → resolve_interrupted b (suc fuel) (λ _. []) prev (some f) d ≡ (
          let o = resolve prev f d.world in
          resolve_interrupted b fuel
            (λ _. [])
            o.0
            (d.world.flags f).armed_next
            (record d { world = o.1 }))
  unfolding resolve_interrupted interrupted
  round_alone fuel prev f d =
      ap
        (λ p.
          resolve_interrupted b fuel (λ _. [])
            (finish_round prev f (consume_armed f d.world).0 (consume_armed f d.world).1).0 p
            (record d {
              world =
                  (finish_round prev f (consume_armed f d.world).0 (consume_armed f d.world).1).1;
            }))
        (consume_armed_link f d.world)
      ∙ ap
          (λ (o : Option ℕ × World).
            resolve_interrupted b fuel (λ _. []) o.0 (d.world.flags f).armed_next
              (record d { world = o.1 }))
          (round-resolve prev f d.world)

  resolve_interrupted-zero :
      (prev p : Option ℕ) (d : Device S) → resolve_interrupted b zero (λ _. []) prev p d ≡ d
  unfolding resolve_interrupted
  resolve_interrupted-zero prev p d = refl

  resolve_interrupted-none :
      (fuel : ℕ) (prev : Option ℕ) (d : Device S)
      → resolve_interrupted b (suc fuel) (λ _. []) prev none d ≡ d
  unfolding resolve_interrupted
  resolve_interrupted-none fuel prev d = refl

  rounds_alone :
      (fuel : ℕ) (prev p : Option ℕ) (d : Device S)
      → resolve_interrupted b fuel (λ _. []) prev p d
        ≡ record d { world = resolve_all fuel prev p d.world }
  unfolding resolve_all
  rounds_alone zero prev p d = resolve_interrupted-zero prev p d
  rounds_alone (suc fuel) prev none d = resolve_interrupted-none fuel prev d
  rounds_alone (suc fuel) prev (some f) d =
      let o = resolve prev f d.world in
      round_alone fuel prev f d
      ∙ rounds_alone fuel o.0 (d.world.flags f).armed_next (record d { world = o.1 })

  poll_alone :
      (max_tasks : ℕ) (d : Device S)
      → poll_interrupted b max_tasks (λ _. []) d
        ≡ record d { world = poll_external_signals max_tasks d.world }
  unfolding poll_interrupted poll_external_signals interrupted
  poll_alone max_tasks d = elim (Bool-cases d.world.pending) [
    | inr off ↦ simp off refl
    | inl on ↦ simp on (
        rounds_alone (suc max_tasks) none d.world.armed_head
          (record d { world = record (d.world) { pending = false } }))
  ]

  wait_alone :
      (f awaiting : ℕ) (d : Device S)
      → wait_interrupted b f awaiting [] d
        ≡ ((Flag.wait f awaiting d.world).0, record d { world = (Flag.wait f awaiting d.world).1 })
  unfolding wait_interrupted Flag.wait interrupted
  wait_alone f awaiting d = elim (Bool-cases (consume f d.world).0) [
    | inl on ↦ simp on refl
    | inr off ↦ simp off refl
  ]

  -- Without a step of another context: `poll_external_signals` cut at its critical sections is
  -- `poll_external_signals` in one step, and `wait` cut behind its critical section is `wait`.
  pub poll_interrupted-alone :
      (max_tasks f awaiting : ℕ) (d : Device S)
      → (poll_interrupted b max_tasks (λ _. []) d
          ≡ record d { world = poll_external_signals max_tasks d.world })
        × (wait_interrupted b f awaiting [] d ≡ (
          (Flag.wait f awaiting d.world).0,
          record d { world = (Flag.wait f awaiting d.world).1 },
        ))
  poll_interrupted-alone max_tasks f awaiting d = (poll_alone max_tasks d, wait_alone f awaiting d)
