-- ===== src/Tasks/Outcome.antt =====
-- What `schedule` of scheduler.h leaves in the slots, in the ready FIFO and with the caller.
use simple_await.Base.{ℕ, ◌+◌, ◌≡◌, ◌≢◌, true, false, none, some, List, [], ◌∷◌, ◌++◌}
use simple_await.Error.{invalid_task, task_limit}
use simple_await.World.{Scheduler, World, on_error, increment}
use simple_await.Scheduler.{bump}
use simple_await.Scheduler.Acquire.{Took, Exhausted}
use simple_await.Tasks.{Task, TaskHandle}
use simple_await.Invariant.{Inv}
use simple_await.Invariant.Adopt.{Adopted}

-- The slot `x` holds the frame, is the last ready one, and is the one that the handle names.
pub record Accepted (n frame x : ℕ) (w : World) (r : List ℕ) (ws : ℕ → List ℕ)
    (out : TaskHandle × Task × World) : Type 0 where
  pub chosen : Took n w.sched x (bump x w.sched)
  pub bound : out.0.bound ≡ true
  pub slot : out.0.id.slot ≡ x
  pub generation : out.0.id.generation ≡ (out.2.sched.slots x).generation
  pub renewed : (out.2.sched.slots x).generation ≡ (w.sched.slots x).generation + 1
  pub generations :
      (i : ℕ) → i ≢ x → (out.2.sched.slots i).generation ≡ (w.sched.slots i).generation
  pub emptied : out.1 ≡ none
  pub adopted : Adopted w.sched x frame none out.2.sched
  pub inv : Inv n out.2 (r ++ x ∷ []) ws
  pub active : out.2.sched.active_count ≡ increment w.sched.active_count
  pub rest : out.2 ≡ record w { sched = out.2.sched }

-- A call that takes no task.
pub record NotTaken (task : Task) (u : World) (out : TaskHandle × Task × World) : Type 0 where
  pub unbound : out.0.bound ≡ false
  pub left : out.1 ≡ task
  pub world : out.2 ≡ u

pub data Outcome (n : ℕ) (task : Task) (w : World) (r : List ℕ) (ws : ℕ → List ℕ)
    (out : TaskHandle × Task × World) : Type 0 where
  refuses : w.sched.shutting_down ≡ true → NotTaken task w out → Outcome n task w r ws out
  empty :
      w.sched.shutting_down ≡ false
      → task ≡ none
      → NotTaken none (on_error invalid_task w) out
      → Outcome n task w r ws out
  full :
      (frame : ℕ)
      → w.sched.shutting_down ≡ false
      → task ≡ some frame
      → Exhausted n w.sched w.sched
      → NotTaken (some frame) (on_error task_limit w) out
      → Outcome n task w r ws out
  accepts :
      (frame x : ℕ)
      → w.sched.shutting_down ≡ false
      → task ≡ some frame
      → Accepted n frame x w r ws out
      → Outcome n task w r ws out
