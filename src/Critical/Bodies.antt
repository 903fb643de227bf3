-- ===== src/Critical/Bodies.antt =====
-- The sections of threadsafeflag.h are the steps by which `Flag` and `Device` model them.
use simple_await.Base.{ℕ, ◌≡◌, refl, ◌∙◌, Bool, List, Bool-cases, inl, inr}
use simple_await.World.{World}
use simple_await.Flag
use simple_await.Flag.{put_flag, consume}
use simple_await.Flag.Armed.{resolvable}
use simple_await.Device.{consume_armed}
use simple_await.Critical.{
  CriticalSection, IsExclusive, Machine, in_section, Local, set_body, clear_body, consume_body,
  round_body,
}
use simple_await.Critical.Atomic.{in_a_row, in_section-in_a_row}

-- The bodies without interruption.
set_body-set : (f : ℕ) (t : Bool) (w : World) → in_a_row (set_body f) (t, w) ≡ Flag.set f w
unfolding set_body Flag.set
set_body-set f t w = refl

clear_body-clear :
    (f : ℕ) (t : Bool) (w : World) → in_a_row (clear_body f) (t, w) ≡ (t, Flag.clear f w)
unfolding clear_body Flag.clear
clear_body-clear f t w = refl

consume_body-consume :
    (f : ℕ) (t : Bool) (w : World) → in_a_row (consume_body f) (t, w) ≡ consume f w
unfolding consume_body consume
consume_body-consume f t w = elim (Bool-cases (w.flags f).signaled) [
  | inl on ↦ simp on refl
  | inr off ↦ simp off refl
]

round_body-consume_armed :
    (f : ℕ) (t : Bool) (w : World) → in_a_row (round_body f) (t, w) ≡ consume_armed f w
unfolding round_body consume_armed
round_body-consume_armed f t w = elim (Bool-cases (resolvable (w.flags f))) [
  | inl on ↦ simp on refl
  | inr off ↦ simp off refl
]

-- With a critical section that shuts other contexts out: whatever they would do between its
-- statements, the section of `set` on a flag is the step `set`, those of `clear` and `consume` are the
-- steps `clear` and `consume`, and that of a round of `poll_external_signals` is the step
-- `consume_armed`.
pub section_steps :
    {I Saved : Type 0} (cs : CriticalSection I Saved) (f : ℕ) (changes : ℕ → Local → Local)
    (m : Machine I Local)
    → IsExclusive cs
    → ((in_section cs (set_body f) changes m).memory ≡ Flag.set f m.memory.1)
      × ((in_section cs (clear_body f) changes m).memory ≡ (m.memory.0, Flag.clear f m.memory.1))
      × ((in_section cs (consume_body f) changes m).memory ≡ consume f m.memory.1)
      × ((in_section cs (round_body f) changes m).memory ≡ consume_armed f m.memory.1)
section_steps cs f changes m law =
    let run = λ (body : List (Local → Local)). (in_section-in_a_row cs law body changes m).0 in
    (
      run (set_body f) ∙ set_body-set f m.memory.0 m.memory.1,
      run (clear_body f) ∙ clear_body-clear f m.memory.0 m.memory.1,
      run (consume_body f) ∙ consume_body-consume f m.memory.0 m.memory.1,
      run (round_body f) ∙ round_body-consume_armed f m.memory.0 m.memory.1,
    )
