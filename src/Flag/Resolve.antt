-- ===== src/Flag/Resolve.antt =====
-- One round of the loop of `poll_external_signals` in threadsafeflag.h.
use simple_await.Base.{
  ℕ, ◌≡◌, ◌≢◌, refl, subst, true, false, Option, none, some, List, arith, count, get_last?, update,
}
use simple_await.World.{World}
use simple_await.Scheduler.Fifo.{Distinct, get_last?-none}
use simple_await.Waits.{wake_slot}
use simple_await.Flag.{new_flag, write_link, resolve}
use simple_await.Flag.Armed.{Linked, Linked-relink, resolvable, Agree}

-- One armed flag is woken: the world behind `resolve` with the link before it rewritten.
abbrev pub consumed : ℕ → World → World
consumed f w = record w {
  sched = wake_slot (w.flags f).waiter w.sched;
  flags = update w.flags f new_flag;
}

abbrev pub woken_at : Option ℕ → ℕ → World → World
woken_at prev f w = write_link prev (w.flags f).armed_next (consumed f w)

pub resolve-wakes :
    (prev : Option ℕ) (f : ℕ) (w : World)
    → resolvable (w.flags f) ≡ true
    → resolve prev f w ≡ (prev, woken_at prev f w)
unfolding resolve
resolve-wakes prev f w h = simp h

pub resolve-keeps :
    (prev : Option ℕ) (f : ℕ) (w : World)
    → resolvable (w.flags f) ≡ false
    → resolve prev f w ≡ (some f, w)
unfolding resolve
resolve-keeps prev f w h = simp h

-- What the write of the link before `f` leaves of the flags and of the world.
pub woken_at-flags :
    (prev : Option ℕ) (f i : ℕ) (w : World)
    → prev ≢ some f
    → ((i ≢ f → Agree w.flags (woken_at prev f w).flags i)
        × (i ≢ f → prev ≢ some i → (woken_at prev f w).flags i ≡ w.flags i)
        × ((woken_at prev f w).flags f ≡ new_flag))
woken_at-flags none f i w h = ground arith
woken_at-flags (some g) f i w h = ((λ k. ground arith), (λ k l. ground arith), ground arith)

pub woken_at-rest :
    (prev : Option ℕ) (f : ℕ) (w : World)
    → ((woken_at prev f w).sched ≡ wake_slot (w.flags f).waiter w.sched)
      × (woken_at prev f w ≡ record w {
        sched = (woken_at prev f w).sched;
        flags = (woken_at prev f w).flags;
        armed_head = (woken_at prev f w).armed_head;
      })
woken_at-rest none f w = (refl, refl)
woken_at-rest (some g) f w = (refl, refl)

-- The flags before `f` are linked to what stood behind it.
pub woken_at-Linked :
    (kept : List ℕ) (prev : Option ℕ) (f : ℕ) (w : World)
    → Distinct kept
    → count f kept ≡ 0
    → get_last? kept ≡ prev
    → Linked w.flags w.armed_head kept (some f)
    → Linked (woken_at prev f w).flags (woken_at prev f w).armed_head kept (w.flags f).armed_next
woken_at-Linked kept none f w d out e c = rw (get_last?-none kept e) refl
woken_at-Linked kept (some t) f w d out e c =
    let u = woken_at (some t) f w in
    let written : (u.flags t).armed_next ≡ (w.flags f).armed_next = ground arith in
    subst (Linked u.flags w.armed_head kept) written (
      Linked-relink w.flags u.flags w.armed_head kept (some f) t d e (λ i h k. ground (arith, out))
        c)
