-- ===== src/Invariant/Adopt.antt =====
-- `schedule` of scheduler.h keeps the invariant and appends the new task's slot.
use simple_await.Base.{
  ℕ, ◌≡◌, ◌≢◌, refl, ◌∙◌, ap, false, Option, none, some, List, [], ◌∷◌, ◌++◌, arith, count, bit,
  update,
}
use simple_await.World.{ready, is_ready, WaitQueue, Scheduler}
use simple_await.Scheduler.{bump}
use simple_await.Scheduler.Ready.{
  ReadyFifo, ready_push_rest, ready_push_members, ready_push-ReadyFifo,
}
use simple_await.Scheduler.Acquire.{Took}
use simple_await.Tasks.{adopt}
use simple_await.Invariant.{Parked}
use simple_await.Invariant.Wake.{ready_push-Parked}

-- The scheduler that `adopt` hands to `ready_push`, after `acquire_slot` has taken `x`.
abbrev pub filled : ℕ → ℕ → Option ℕ → Scheduler → Scheduler
filled x frame parent s = record s {
  slots =
      update s.slots x
        (record (s.slots x) { handle = some frame; state = ready; next = none; parent = parent });
}

-- What adopting a frame leaves as it was, and what it writes.
pub record Adopted (s : Scheduler) (x frame : ℕ) (parent : Option ℕ) (t : Scheduler) : Type 0 where
  pub handle_in : (t.slots x).handle ≡ some frame
  pub parent_in : (t.slots x).parent ≡ parent
  pub state_in : (t.slots x).state ≡ ready
  pub state_out : (i : ℕ) → i ≢ x → (t.slots i).state ≡ (s.slots i).state
  pub handle_out : (i : ℕ) → i ≢ x → (t.slots i).handle ≡ (s.slots i).handle
  pub parent_out : (i : ℕ) → i ≢ x → (t.slots i).parent ≡ (s.slots i).parent
  pub current : t.current ≡ s.current

pub adopt-Adopted :
    (s : Scheduler) (x frame : ℕ) (parent : Option ℕ)
    → Adopted s x frame parent (adopt x frame parent (bump x s))
unfolding adopt bump
adopt-Adopted s x frame parent =
    let p = ready_push_rest x (filled x frame parent (bump x s)) in
    record {
      handle_in = (p x).1 ∙ ground arith;
      parent_in = (p x).2 ∙ ground arith;
      state_in = (p x).0 ∙ ground arith;
      state_out = λ i h. (p i).0 ∙ ground arith;
      handle_out = λ i h. (p i).1 ∙ ground arith;
      parent_out = λ i h. (p i).2 ∙ ground arith;
      current = (ready_push_members x (filled x frame parent (bump x s))).3;
    }

module _ {n : ℕ} {s : Scheduler} {r : List ℕ} {q : ℕ → WaitQueue} {ws : ℕ → List ℕ}
    (v : ReadyFifo n s r) (p : Parked s q ws) where
  Took-idle : {x : ℕ} {t : Scheduler} → Took n s x t → is_ready (s.slots x).state ≡ false
  Took-idle k = ground (arith, k.lowest)

  Took-alone : {x : ℕ} {t : Scheduler} → Took n s x t → (e : ℕ) → count x (ws e) ≡ 0
  Took-alone {x} k e = ground (arith, k.lowest, p.waiting e x)

  pub adopt-ReadyFifo :
      {x : ℕ} {t : Scheduler} (frame : ℕ) (parent : Option ℕ)
      → Took n s x t
      → ReadyFifo n (adopt x frame parent (bump x s)) (r ++ x ∷ [])
  unfolding adopt bump
  adopt-ReadyFifo {x} frame parent k =
      let u =
        ready_push-ReadyFifo v x (filled x frame parent (bump x s)) k.below
          (v.member x ∙ ap bit (Took-idle k)) refl refl refl
          (λ i h. ground (arith, v.member i, Took-idle k)) (λ i h. ground arith) (ground arith) in
      record {
        limit = u.limit;
        fifo = u.fifo;
        member = u.member;
        counted = u.counted;
        beyond = u.beyond;
      }

  pub adopt-Parked :
      {x : ℕ} {t : Scheduler} (frame : ℕ) (parent : Option ℕ)
      → Took n s x t
      → Parked (adopt x frame parent (bump x s)) q ws
  unfolding adopt bump
  adopt-Parked {x} frame parent k =
      let u =
        ready_push-Parked v p x (filled x frame parent (bump x s)) refl (λ i h. ground arith)
          (Took-alone k) in
      record { fifo = u.fifo; waiting = u.waiting; apart = u.apart }
