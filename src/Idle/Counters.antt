-- ===== src/Idle/Counters.antt =====
-- The counters of diagnostics.h.
use simple_await.Base.{
  ℕ, zero, suc, ◌+◌, ◌%◌, ◌^◌, ◌<◌, ◌≡◌, ◌∙◌, ap, Bool, List, arith, bit, tally, tally_agree,
  length-eq-tally, if◌then◌else◌,
}
use simple_await.World.{Slots, is_ready, is_waiting_timer, Scheduler}
use simple_await.Scheduler.Ready.{ReadyFifo}
use simple_await.Idle.{count_timers, scheduler_counters}

tally_first : (k : ℕ) (f : ℕ → Bool) → tally (suc k) f ≡ bit (f 0) + tally k (λ j. f (suc j))
tally_first zero f = omega arith
tally_first (suc k) f = omega (arith, tally_first k f)

-- The loop adds the waiting timers from index `i` to `total`.
count_timers-tally :
    (k i : ℕ) (slots : Slots) (total : ℕ)
    → total + k < 2 ^ 32
    → count_timers k i slots total ≡ total + tally k (λ j. is_waiting_timer (slots (i + j)).state)
unfolding count_timers
count_timers-tally zero i slots total h = omega arith
count_timers-tally (suc k) i slots total h =
    let b : ℕ = bit (is_waiting_timer (slots i).state) in
    let here : (if is_waiting_timer (slots i).state then (total + 1) % 2 ^ 32 else total)
        ≡ total + b =
      ground arith in
    let first = tally_first k (λ j. is_waiting_timer (slots (i + j)).state) in
    rw here (
      count_timers-tally k (suc i) slots (total + b) (ground arith)
      ∙ omega (
        arith,
        first,
        tally_agree k (λ j. is_waiting_timer (slots (i + suc j)).state)
            (λ j. is_waiting_timer (slots (suc i + j)).state)
            (λ j l. ap (λ (m : ℕ). is_waiting_timer (slots m).state) (omega arith)),
        ap (λ (m : ℕ). bit (is_waiting_timer (slots m).state))
            (let z : i + 0 ≡ i = omega arith in z),
      ))

-- From a ready FIFO `r` that holds exactly the ready slots, of at most 2 ^ 16: the counters of
-- `scheduler_counters` are the numbers of slots that are ready and that wait for a timer.
pub scheduler_counters-tally :
    {n : ℕ} {s : Scheduler} {r : List ℕ}
    → ReadyFifo n s r
    → ((scheduler_counters n s).ready_tasks ≡ tally n (λ i. is_ready (s.slots i).state))
      × ((scheduler_counters n s).waiting_timers
          ≡ tally n (λ i. is_waiting_timer (s.slots i).state))
unfolding scheduler_counters
scheduler_counters-tally {n} {s} {r} v = (
  v.counted
      ∙ length-eq-tally n r (λ i. is_ready (s.slots i).state) v.member
          (λ i h. ground (arith, v.beyond i h)),
  count_timers-tally n 0 s.slots 0 (omega (arith, v.limit))
      ∙ omega (
        arith,
        tally_agree n (λ j. is_waiting_timer (s.slots (0 + j)).state)
            (λ j. is_waiting_timer (s.slots j).state)
            (λ j l. ap (λ (m : ℕ). is_waiting_timer (s.slots m).state) (omega arith)),
      ),
)
