-- ===== src/Pass/Teardown.antt =====
-- The destructor of `Scheduler` in scheduler.h: each frame it owns is destroyed once.
use simple_await.Base.{
  ℕ, zero, suc, ◌+◌, ◌≤◌, ◌<◌, ◌≡◌, ◌≢◌, refl, sym, ◌∙◌, ap, true, none, some, List, [], ◌∷◌, ◌++◌,
  arith, append_assoc, if◌then◌else◌, inl, inr, Option-cases, Bool-cases, update,
}
use native.Mathlib.Decide.{ℕ_discrete}
use simple_await.World.{completed, is_completed, Slot, Slots, World, Coroutines}
use simple_await.Pass.{teardown_slot, teardown_from, teardown}

-- The frame that a slot owns, and those of `k` slots from index `i`, the last slot's first.
abbrev pub owned_by : Slot → List ℕ
owned_by s = elim s.handle [
  | none ↦ []
  | some frame ↦ if is_completed s.state then [] else frame ∷ []
]

abbrev pub owned : ℕ → ℕ → Slots → List ℕ
owned zero i slots = []
owned (suc k) i slots = owned k (suc i) slots ++ owned_by (slots i)

-- The destructors that a frame's destruction runs reach neither the scheduler nor another frame.
abbrev pub Passive : Coroutines → Type 0
Passive c =
    (frame : ℕ) (w : World)
    → ((c.release frame w).sched ≡ w.sched) × ((c.release frame w).destroyed ≡ w.destroyed)

-- The slots of a stretch own nothing any more, and their frames were destroyed.
pub record TornDown (k i : ℕ) (w u : World) : Type 0 where
  pub destroyed : u.destroyed ≡ owned k i w.sched.slots ++ w.destroyed
  pub empty : (j : ℕ) → i ≤ j → j < i + k → owned_by (u.sched.slots j) ≡ []
  pub below : (j : ℕ) → j < i → u.sched.slots j ≡ w.sched.slots j
  pub down : u.sched.shutting_down ≡ w.sched.shutting_down

owned-agree :
    (k i : ℕ) (slots slots' : Slots)
    → ((j : ℕ) → i ≤ j → slots' j ≡ slots j)
    → owned k i slots' ≡ owned k i slots
owned-agree zero i slots slots' same = refl
owned-agree (suc k) i slots slots' same =
    rw (owned-agree k (suc i) slots slots' (λ j l. same j (omega arith)), same i (omega arith)) refl

module _ (c : Coroutines) (p : Passive c) where
  teardown_slot-facts :
      (i : ℕ) (w : World)
      → ((teardown_slot c i w).destroyed ≡ owned_by (w.sched.slots i) ++ w.destroyed)
        × (owned_by ((teardown_slot c i w).sched.slots i) ≡ [])
        × ((j : ℕ) → j ≢ i → (teardown_slot c i w).sched.slots j ≡ w.sched.slots j)
        × ((teardown_slot c i w).sched.shutting_down ≡ w.sched.shutting_down)
  unfolding teardown_slot
  teardown_slot-facts i w = elim (Option-cases (w.sched.slots i).handle) [
    | inl e ↦ ground (arith, e)
    | inr (frame, e) ↦ elim (Bool-cases (is_completed (w.sched.slots i).state)) [
      | inl d ↦ ground (arith, e, d)
      | inr d ↦
          let detached : World = record w {
            sched = record (w.sched) {
              slots =
                  update w.sched.slots i
                    (record (w.sched.slots i) { handle = none; state = completed });
            };
            destroyed = frame ∷ w.destroyed;
          } in
          ground (arith, e, d, p frame detached)
    ]
  ]

  teardown_from-TornDown : (k i : ℕ) (w : World) → TornDown k i w (teardown_from c k i w)
  unfolding teardown_from
  teardown_from-TornDown zero i w = record {
    destroyed = refl;
    empty = λ j l h. absurd (omega arith);
    below = λ j h. refl;
    down = refl;
  }
  teardown_from-TornDown (suc k) i w =
      let s = teardown_slot-facts i w in
      let t = teardown_from-TornDown k (suc i) (teardown_slot c i w) in
      record {
        destroyed =
            t.destroyed
            ∙ (rw
                (
                  owned-agree k (suc i) w.sched.slots (teardown_slot c i w).sched.slots
                      (λ j l. s.2 j (omega arith)),
                  s.0,
                )
                (sym (
                  append_assoc (owned k (suc i) w.sched.slots) (owned_by (w.sched.slots i))
                    w.destroyed)));
        empty = λ j l h. elim (ℕ_discrete j i) [
          | yes q ↦ rw q (ap owned_by (t.below i (omega arith)) ∙ s.1)
          | no q ↦ t.empty j (omega arith) (omega arith)
        ];
        below = λ j h. t.below j (omega arith) ∙ s.2 j (omega arith);
        down = t.down ∙ s.3;
      }

-- With destructors that reach neither the scheduler nor another frame: `~Scheduler` destroys exactly
-- the frames that the slots own, one for each slot that owns one and in the order of the slots, leaves
-- no slot that owns a frame, and leaves the scheduler shut down.
pub teardown-TornDown :
    (c : Coroutines) (max_tasks : ℕ) (w : World)
    → Passive c
    → TornDown max_tasks 0
        (record w { sched = record (w.sched) { shutting_down = true } })
        (teardown c max_tasks w)
unfolding teardown
teardown-TornDown c max_tasks w p =
    teardown_from-TornDown c p max_tasks 0
      (record w { sched = record (w.sched) { shutting_down = true } })
