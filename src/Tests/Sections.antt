-- ===== src/Tests/Sections.antt =====
-- The theorem on critical sections, with an interrupt mask that is a Boolean.
use simple_await.Base.{ℕ, ◌≡◌, refl, Bool, true, false, ◌==◌, if◌then◌else◌}
use simple_await.Flag
use simple_await.Flag.{consume}
use simple_await.Device.{consume_armed}
use simple_await.Critical.{
  InterruptMask, IsInterruptMask, rp2040_section, Machine, in_section, Local, set_body, clear_body,
  consume_body, round_body,
}
use simple_await.Critical.Atomic.{rp2040_section-IsExclusive}
use simple_await.Critical.Bodies.{section_steps}
use simple_await.Tests.Flags.{flag_world}

-- Interrupts are enabled or not, and the saved word is 1 or 0.
abbrev mask : InterruptMask Bool
mask = record {
  save_and_disable_interrupts = λ i. (if i then 1 else 0, false);
  restore_interrupts = λ saved _. saved == 1;
  enabled = λ i. i;
}

mask-IsInterruptMask : IsInterruptMask mask
mask-IsInterruptMask = record {
  disables = λ i. refl;
  restores = λ i j. elim i as (λ k. ((if k then 1 else 0) == 1) ≡ k) [ true ↦ refl | false ↦ refl ];
}

-- An interrupt that would clear the flag before each statement.
abbrev interrupting : ℕ → Local → Local
interrupting k m = (m.0, Flag.clear 1 m.1)

abbrev machine : Machine Bool Local
machine = record { guard = true; memory = (false, flag_world) }

section_steps_example :
    ((in_section (rp2040_section mask) (set_body 1) interrupting machine).memory
      ≡ Flag.set 1 flag_world)
    × ((in_section (rp2040_section mask) (clear_body 1) interrupting machine).memory
        ≡ (false, Flag.clear 1 flag_world))
    × ((in_section (rp2040_section mask) (consume_body 1) interrupting machine).memory
        ≡ consume 1 flag_world)
    × ((in_section (rp2040_section mask) (round_body 1) interrupting machine).memory
        ≡ consume_armed 1 flag_world)
section_steps_example =
    section_steps (rp2040_section mask) 1 interrupting machine
      (rp2040_section-IsExclusive mask mask-IsInterruptMask)
