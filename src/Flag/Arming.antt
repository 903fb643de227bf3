-- ===== src/Flag/Arming.antt =====
-- The invariant of threadsafeflag.h: the armed flags are those with a waiting slot. `wait`, `set` and
-- the resolution of signals keep it.
use simple_await.Base.{
  ℕ, ◌≤◌, ◌≡◌, refl, sym, ◌∙◌, subst, Bool, true, false, none, some, List, [], ◌∷◌, arith, length,
  count, bit, is_some, if◌then◌else◌, ◌⊎◌, inl, inr, Bool-cases, Option-cases, update,
}
use simple_await.Error.{invalid_task, multiple_flag_waiters}
use simple_await.World.{waiting_local, set_state, World, on_error}
use simple_await.Scheduler.Fifo.{Distinct}
use simple_await.Tasks.{is_current}
use simple_await.Tasks.Children.{nobody}
use simple_await.Waits.{running_is, park_running}
use simple_await.Flag
use simple_await.Flag.{new_flag, put_flag, consume, arm, park, poll_external_signals}
use simple_await.Flag.Armed.{Flags, Linked, Linked-frame, resolvable, still_armed}
use simple_await.Flag.Poll.{Resolved, poll_external_signals-Resolved}

pub record Arming (w : World) (l : List ℕ) : Type 0 where
  pub linked : Linked w.flags w.armed_head l none
  pub member : (f : ℕ) → count f l ≡ bit (is_some (w.flags f).waiter)

pub Arming-Distinct : {w : World} {l : List ℕ} → Arming w l → Distinct l
Arming-Distinct {w} a i = ground (arith, a.member i)

-- What `wait` on flag `f` returns, with the armed flags `l`.
pub data FlagResult (f awaiting : ℕ) (l : List ℕ) (w : World) (out : Bool × World) : Type 0 where
  consumes :
      (w.flags f).signaled ≡ true
      → out ≡ (false, put_flag f (record (w.flags f) { signaled = false }) w)
      → Arming out.1 l
      → FlagResult f awaiting l w out
  rejects :
      (w.flags f).signaled ≡ false
      → is_current w.sched awaiting ≡ false
      → out ≡ (false, on_error invalid_task w)
      → FlagResult f awaiting l w out
  refuses :
      (y : ℕ)
      → (w.flags f).signaled ≡ false
      → is_current w.sched awaiting ≡ true
      → (w.flags f).waiter ≡ some y
      → out ≡ (false, on_error multiple_flag_waiters w)
      → FlagResult f awaiting l w out
  parks :
      (x : ℕ)
      → (w.flags f).signaled ≡ false
      → is_current w.sched awaiting ≡ true
      → (w.flags f).waiter ≡ none
      → w.sched.current ≡ some x
      → out.0 ≡ true
      → out.1.sched ≡ record (w.sched) { slots = set_state w.sched.slots x waiting_local }
      → (out.1.flags f).waiter ≡ some x
      → Arming out.1 (f ∷ l)
      → FlagResult f awaiting l w out

-- The world in which slot `x` waits for flag `f`.
abbrev pub parked_world : ℕ → ℕ → World → World
parked_world f x w = arm f (
    put_flag f (record (w.flags f) { waiter = some x })
      (record w { sched = record (w.sched) { slots = set_state w.sched.slots x waiting_local } }))

module _ {l : List ℕ} {w : World} (a : Arming w l) (f : ℕ) where
  pub consumed-Arming : Arming (put_flag f (record (w.flags f) { signaled = false }) w) l
  consumed-Arming = record {
    linked =
        Linked-frame w.flags (update w.flags f (record (w.flags f) { signaled = false }))
          w.armed_head l none (λ i h. ground arith) a.linked;
    member = λ i. ground (arith, a.member i);
  }

  pub parked-Arming : (x : ℕ) → (w.flags f).waiter ≡ none → Arming (parked_world f x w) (f ∷ l)
  unfolding arm
  parked-Arming x free = record {
    linked = (
      refl,
      subst (λ p. Linked (parked_world f x w).flags p l none) next
          (Linked-frame w.flags (parked_world f x w).flags w.armed_head l none
            (λ i h. ground (arith, a.member f)) a.linked),
    );
    member = λ i. ground (arith, a.member i);
  }
    where
      next : w.armed_head ≡ ((parked_world f x w).flags f).armed_next
      next = ground arith

  module _ (awaiting : ℕ) (off : (w.flags f).signaled ≡ false) where
    rejected_wait :
        is_current w.sched awaiting ≡ false
        → Flag.wait f awaiting w ≡ (false, on_error invalid_task w)
    unfolding Flag.wait consume park running_is
    rejected_wait other = simp (off, other) refl

    refused_wait :
        (y : ℕ)
        → is_current w.sched awaiting ≡ true
        → (w.flags f).waiter ≡ some y
        → Flag.wait f awaiting w ≡ (false, on_error multiple_flag_waiters w)
    unfolding Flag.wait consume park running_is
    refused_wait y own busy = simp (off, own, busy) refl

    parked_wait :
        (x : ℕ)
        → is_current w.sched awaiting ≡ true
        → (w.flags f).waiter ≡ none
        → w.sched.current ≡ some x
        → Flag.wait f awaiting w ≡ (true, parked_world f x w)
    unfolding Flag.wait consume park running_is park_running
    parked_wait x own free at = simp (off, own, free, at) refl

    waits : FlagResult f awaiting l w (Flag.wait f awaiting w)
    unfolding arm
    waits = elim (Bool-cases (is_current w.sched awaiting)) [
      | inr other ↦ rejects off other (rejected_wait other)
      | inl own ↦ elim (Option-cases (w.flags f).waiter) [
        | inr (y, busy) ↦ refuses y off own busy (refused_wait y own busy)
        | inl free ↦ elim (Option-cases w.sched.current) [
          | inl e ↦ absurd (nobody w.sched awaiting e own)
          | inr (x, at) ↦
              subst (FlagResult f awaiting l w) (sym (parked_wait x own free at))
                (parks x off own free at refl refl (ground arith) (parked-Arming x free))
        ]
      ]
    ]

-- From a state in which the armed flags `l` are those with a waiting slot, `wait` ends in one of four
-- ways: it consumes the signal and does not suspend; it reports an await that is not the running
-- task's, or a second waiter, and changes nothing else; or it parks the running slot as the flag's
-- only waiter and arms the flag. The armed flags are again those with a waiting slot.
pub wait-FlagResult :
    {l : List ℕ} {w : World} (f awaiting : ℕ)
    → Arming w l
    → FlagResult f awaiting l w (Flag.wait f awaiting w)
unfolding Flag.wait consume
wait-FlagResult {l} {w} f awaiting a = elim (Bool-cases (w.flags f).signaled) [
  | inl on ↦
      subst (FlagResult f awaiting l w) (sym (taken on)) (consumes on refl (consumed-Arming a f))
  | inr off ↦ waits a f awaiting off
]
  where
    taken :
        (w.flags f).signaled ≡ true
        → Flag.wait f awaiting w ≡ (false, put_flag f (record (w.flags f) { signaled = false }) w)
    taken on = simp on refl

count-still_armed :
    (flags : Flags) (l : List ℕ) (i : ℕ)
    → count i (still_armed flags l) ≡ (if resolvable (flags i) then 0 else count i l)
count-still_armed flags [] i = ground arith
count-still_armed flags (f ∷ l) i = ground (arith, count-still_armed flags l i)

-- The armed list of a flag that is armed, after `poll_external_signals`, and before.
Resolved-Arming :
    {w u : World} {l : List ℕ} → Arming w l → Resolved [] l w u → Arming u (still_armed w.flags l)
Resolved-Arming {w} {u} {l} a k = record {
  linked = k.armed;
  member = λ i. count-still_armed w.flags l i ∙ members i (Bool-cases (resolvable (w.flags i)));
}
  where
    members :
        (i : ℕ)
        → (resolvable (w.flags i) ≡ true) ⊎ (resolvable (w.flags i) ≡ false)
        → (if resolvable (w.flags i) then 0 else count i l) ≡ bit (is_some (u.flags i).waiter)
    members i (inl t) = rw (t, k.woken i (ground (arith, a.member i)) t) refl
    members i (inr t) = rw (t, (k.left i (inr t)).1) (a.member i)

-- From a state in which the armed flags `l`, at most `max_tasks`, are those with a waiting slot, and a
-- signal is pending: `poll_external_signals` ends, wakes the waiters of the signalled flags in the
-- order of the list, resets these flags, and leaves the others armed in their order; no other flag
-- changes its signal or waiter, and the armed flags are again those with a waiting slot.
pub poll_external_signals-Arming :
    (max_tasks : ℕ) {l : List ℕ} {w : World}
    → Arming w l
    → length l ≤ max_tasks
    → w.pending ≡ true
    → Resolved [] l (record w { pending = false }) (poll_external_signals max_tasks w)
      × Arming (poll_external_signals max_tasks w) (still_armed w.flags l)
poll_external_signals-Arming max_tasks {l} {w} a h p =
    let k = poll_external_signals-Resolved max_tasks l w (Arming-Distinct a) a.linked h p in
    (k, Resolved-Arming (record { linked = a.linked; member = a.member }) k)
