-- ===== src/Device/Drain.antt =====
-- The loop of `poll_external_signals` (threadsafeflag.h) while other contexts call `set`.
use simple_await.Base.{
  ℕ, zero, suc, ◌+◌, ◌<◌, ◌≡◌, ◌≢◌, refl, sym, ◌∙◌, ap, Bool, true, false, Option, some, List, [],
  ◌∷◌, ◌++◌, arith, length, ◌⊎◌, inl, inr, Bool-cases,
}
use simple_await.World.{World}
use simple_await.Waits.{wake_slot}
use simple_await.Flag.{put_flag}
use simple_await.Device.{
  Semaphore, IsBinary, Device, Signal, interrupted, consume_armed, finish_round,
  resolve_interrupted,
}
use simple_await.Device.Signals.{
  marks, interrupted-marks, Signaled, interrupted-Signaled, Signaled-trans,
}
use simple_await.Device.Scan.{Scanning, Signaled-Scanning}
use simple_await.Device.Round.{
  has_waiter, others, taken-Scanning, freed_at, freed_flags, freed_at-rest, freed-Scanning,
  kept-Scanning,
}
use simple_await.Device.Served.{
  Drained, Passed, others_left, Drained-wake, Drained-keep, Drained-nil,
}

module _ {S : Type 0} (b : Semaphore S) (strict : Bool) (asked : ℕ → Type 0) where
  -- The loop at an armed flag, by what its critical section and the rest of the round do.
  resolve_interrupted_step :
      (fuel : ℕ) (calls : ℕ → List Signal) (prev : Option ℕ) (f : ℕ) (d : Device S)
      (c : Bool × World) (o : Option ℕ × World)
      → consume_armed f (interrupted b (calls 0) d).world ≡ c
      → finish_round prev f c.0
          (interrupted b (calls 1) (record (interrupted b (calls 0) d) { world = c.1 })).world
        ≡ o
      → resolve_interrupted b (suc fuel) calls prev (some f) d ≡ (
          let after =
            interrupted b (calls 1) (record (interrupted b (calls 0) d) { world = c.1 }) in
          resolve_interrupted b fuel
            (λ k. calls (2 + k))
            o.0
            (after.world.flags f).armed_next
            (record after { world = o.1 }))
  unfolding resolve_interrupted
  resolve_interrupted_step fuel calls prev f d c o e g = rw e (rw g refl)

  module _ (law : IsBinary b) (calls : ℕ → List Signal)
      (asks : (k i : ℕ) → marks i (calls k) ≡ true → asked i) (kept : List ℕ) (f : ℕ) (l : List ℕ)
      (p prev : Option ℕ) (d : Device S) (g : Scanning b strict d kept (f ∷ l) p prev) where
    abbrev before : Device S
    before = interrupted b (calls 0) d

    came : Signaled b d before
    came = interrupted-Signaled b law (calls 0) d

    before-Scanning : Scanning b strict before kept (f ∷ l) p prev
    before-Scanning = Signaled-Scanning b strict d before came kept (f ∷ l) p prev g

    came_marks :
        (i : ℕ)
        → (before.world.flags i).signaled ≡ true
        → ((d.world.flags i).signaled ≡ true) ⊎ asked i
    came_marks i h = elim (interrupted-marks b (calls 0) d i h) [
      | inl m ↦ inl m
      | inr m ↦ inr (asks 0 i m)
    ]

    -- The device behind the critical section, which takes the signal.
    abbrev section : Device S
    section = record before {
      world = put_flag f (record (before.world.flags f) { signaled = false }) before.world;
    }

    abbrev after : Device S
    after = interrupted b (calls 1) section

    followed : Signaled b section after
    followed = interrupted-Signaled b law (calls 1) section

    after-Scanning : Scanning b strict after kept (f ∷ l) p prev
    after-Scanning =
        Signaled-Scanning b strict section after followed kept (f ∷ l) p prev
          (taken-Scanning b strict kept f l p prev before before-Scanning)

    abbrev waked : Device S
    waked = record after { world = freed_at prev f after.world }

    after_waiter : (i : ℕ) → (after.world.flags i).waiter ≡ (d.world.flags i).waiter
    after_waiter i = (followed.waits i).0 ∙ same ∙ (came.waits i).0
      where
        same : (section.world.flags i).waiter ≡ (before.world.flags i).waiter
        same = ground arith

    waked-Passed : Passed asked f l d waked true
    waked-Passed = record {
      waiters = λ i m.
          (freed_flags b strict kept f l p prev after after-Scanning i).1
            (others b strict kept f l p prev d g i m).0
          ∙ after_waiter i;
      raises = λ i m h.
          (freed_flags b strict kept f l p prev after after-Scanning i).0
          ∙ followed.raises i
              (same i (others b strict kept f l p prev d g i m).0 ∙ came.raises i h);
      lowers = λ i m h.
          elim (interrupted-marks b (calls 1) section i
            (sym (freed_flags b strict kept f l p prev after after-Scanning i).0 ∙ h)) [
              | inl n ↦ came_marks i (sym (same i (others b strict kept f l p prev d g i m).0) ∙ n)
              | inr n ↦ inr (asks 1 i n)
            ];
      sched =
          ap (λ (w : World). w.sched) (freed_at-rest prev f after.world)
          ∙ ap (λ o. wake_slot o after.world.sched) (after_waiter f)
          ∙ ap (λ (w : World). wake_slot (d.world.flags f).waiter w.sched) followed.rest
          ∙ ap (λ (w : World). wake_slot (d.world.flags f).waiter w.sched) came.rest;
      rest = ap fill (freed_at-rest prev f after.world) ∙ ap fill followed.rest ∙ ap fill came.rest;
    }
      where
        fill : World → World
        fill w = others_left (record d { world = w }) waked

        same : (i : ℕ) → i ≢ f → (section.world.flags i).signaled ≡ (before.world.flags i).signaled
        same i q = ground arith

    -- No signal at the critical section: the flag stays, and a later signal is not lost.
    abbrev idle : Device S
    idle = interrupted b (calls 1) before

    passed : Signaled b before idle
    passed = interrupted-Signaled b law (calls 1) before

    module _ (off : (before.world.flags f).signaled ≡ false) where
      idle-Scanning :
          Scanning b strict idle (kept ++ f ∷ []) l (idle.world.flags f).armed_next (some f)
      idle-Scanning =
          kept-Scanning b strict kept f l p prev idle
            (Signaled-Scanning b strict before idle passed kept (f ∷ l) p prev before-Scanning)
            (λ h. passed.raised strict f off h before-Scanning.prepared)

      idle-Passed : Passed asked f l d idle false
      idle-Passed =
          let k = Signaled-trans b d before idle came passed in
          record {
            waiters = λ i m. (k.waits i).0;
            raises = λ i m h. k.raises i h;
            lowers = λ i m h. elim (interrupted-marks b (calls 1) before i h) [
              | inl n ↦ came_marks i n
              | inr n ↦ inr (asks 1 i n)
            ];
            sched = ap (λ (w : World). w.sched) k.rest;
            rest = ap (λ (w : World). others_left (record d { world = w }) idle) k.rest;
          }

      was_off : (d.world.flags f).signaled ≡ false
      was_off = elim (Bool-cases (d.world.flags f).signaled) [
        | inr e ↦ e
        | inl e ↦ absurd (ground (arith, off, came.raises f e))
      ]

      idle_step :
          (fuel : ℕ)
          → resolve_interrupted b (suc fuel) calls prev (some f) d
            ≡ resolve_interrupted b fuel
                (λ k. calls (2 + k))
                (some f)
                (idle.world.flags f).armed_next
                idle
      unfolding consume_armed finish_round
      idle_step fuel =
          resolve_interrupted_step fuel calls prev f d (false, before.world) (some f, idle.world)
            (simp off refl) refl

    waked_step :
        (fuel : ℕ)
        → (before.world.flags f).signaled ≡ true
        → resolve_interrupted b (suc fuel) calls prev (some f) d
          ≡ resolve_interrupted b fuel
              (λ k. calls (2 + k))
              prev
              (after.world.flags f).armed_next
              waked
    unfolding consume_armed finish_round
    waked_step fuel on =
        resolve_interrupted_step fuel calls prev f d (true, section.world)
          (prev, freed_at prev f after.world)
          (simp (on, has_waiter b strict kept f l p prev before before-Scanning) refl) refl

  -- With one round more than there are flags left, the loop looks at them all.
  pub resolve_interrupted-Drained :
      (law : IsBinary b) (fuel : ℕ) (calls : ℕ → List Signal) (kept l : List ℕ) (p prev : Option ℕ)
      (d : Device S)
      → ((k i : ℕ) → marks i (calls k) ≡ true → asked i)
      → Scanning b strict d kept l p prev
      → length l < fuel
      → Drained b strict asked kept l d (resolve_interrupted b fuel calls prev p d)
  unfolding resolve_interrupted
  resolve_interrupted-Drained law zero calls kept l p prev d asks g h = elim h [ ]
  resolve_interrupted-Drained law (suc fuel) calls kept [] p prev d asks g h =
      rw (g.ahead, resolve_interrupted) (Drained-nil b strict asked kept p prev d g)
  resolve_interrupted-Drained law (suc fuel) calls kept (f ∷ l) p prev d asks g h =
      let start = before law calls asks kept f l p prev d g in
      elim (Bool-cases (start.world.flags f).signaled) [
        | inl on ↦
            let a = after law calls asks kept f l p prev d g in
            rw (g.ahead.0, waked_step law calls asks kept f l p prev d g fuel on)
              (Drained-wake b strict asked kept f l d _ _
                (came_marks law calls asks kept f l p prev d g f on)
                (waked-Passed law calls asks kept f l p prev d g)
                (resolve_interrupted-Drained law fuel (λ k. calls (2 + k)) kept l _ prev _
                  (λ k. asks (2 + k))
                  (freed-Scanning b strict kept f l p prev a
                    (after-Scanning law calls asks kept f l p prev d g))
                  (omega arith)))
        | inr off ↦
            rw (g.ahead.0, idle_step law calls asks kept f l p prev d g off fuel)
              (Drained-keep b strict asked kept f l d _ _
                (was_off law calls asks kept f l p prev d g off)
                (idle-Passed law calls asks kept f l p prev d g off)
                (resolve_interrupted-Drained law fuel (λ k. calls (2 + k)) (kept ++ f ∷ []) l _
                  (some f) _ (λ k. asks (2 + k))
                  (idle-Scanning law calls asks kept f l p prev d g off) (omega arith)))
      ]
