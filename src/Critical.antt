-- ===== src/Critical.antt =====
-- The critical sections of detail/platform_sync.h, and the bodies that threadsafeflag.h puts in them,
-- one statement at a time. The interrupt mask of the RP2040 and the spinlock of the ESP32 are
-- parameters.
pub mod Atomic
pub mod Bodies
use simple_await.Base.{
  ℕ, suc, ◌+◌, ◌≡◌, Bool, true, false, List, [], ◌∷◌, not, is_some, ◌&&◌, if◌then◌else◌, update,
}
use simple_await.World.{World}
use simple_await.Flag.{put_flag}

-- `save_and_disable_interrupts` and `restore_interrupts` on the state of an RP2040's interrupts, and
-- whether they are enabled.
pub record InterruptMask (I : Type 0) : Type 0 where
  pub save_and_disable_interrupts : I → ℕ × I
  pub restore_interrupts : ℕ → I → I
  pub enabled : I → Bool

-- What the SDK of the RP2040 documents of them.
pub record IsInterruptMask {I : Type 0} (p : InterruptMask I) : Type 0 where
  pub disables : (i : I) → p.enabled (p.save_and_disable_interrupts i).1 ≡ false
  pub restores :
      (i j : I)
      → p.enabled (p.restore_interrupts (p.save_and_disable_interrupts i).0 j) ≡ p.enabled i

-- `portENTER_CRITICAL_SAFE` and `portEXIT_CRITICAL_SAFE` on the lock of `sa_flag_mux()`, and whether
-- another context can take it.
pub record PortMux (I : Type 0) : Type 0 where
  pub enter_critical : I → I
  pub exit_critical : I → I
  pub is_free : I → Bool

-- What FreeRTOS documents of them: the lock is taken, and an exit undoes one entry.
pub record IsPortMux {I : Type 0} (p : PortMux I) : Type 0 where
  pub takes : (i : I) → p.is_free (p.enter_critical i) ≡ false
  pub undoes : (i : I) → p.exit_critical (p.enter_critical i) ≡ i

-- The class `CriticalSection`: its constructor, with the member `saved_`, and its destructor; and
-- whether other contexts can come in.
pub record CriticalSection (I Saved : Type 0) : Type 0 where
  pub construct : I → Saved × I
  pub destruct : Saved → I → I
  pub is_open : I → Bool

-- What threadsafeflag.h relies on in it.
pub record IsExclusive {I Saved : Type 0} (cs : CriticalSection I Saved) : Type 0 where
  pub closes : (i : I) → cs.is_open (cs.construct i).1 ≡ false
  pub reopens :
      (i : I) → cs.is_open (cs.destruct (cs.construct i).0 (cs.construct i).1) ≡ cs.is_open i

-- The class for the RP2040.
abbrev pub rp2040_section : {I : Type 0} → InterruptMask I → CriticalSection I ℕ
rp2040_section p = record {
  construct = p.save_and_disable_interrupts;
  destruct = p.restore_interrupts;
  is_open = p.enabled;
}

-- The class for the ESP32, which has no member.
abbrev pub esp32_section : {I : Type 0} → PortMux I → CriticalSection I (Unit {0})
esp32_section p = record {
  construct = λ i. (tt, p.enter_critical i);
  destruct = λ _. p.exit_critical;
  is_open = p.is_free;
}

-- A context that runs: the interrupts or the lock, and the memory with its local variables.
pub record Machine (I M : Type 0) : Type 0 where
  pub guard : I
  pub memory : M

module _ {I Saved M : Type 0} (cs : CriticalSection I Saved) where
  -- Other contexts do `change`, if they can come in.
  unfoldable pub let_in : (M → M) → Machine I M → Machine I M
  let_in change m = if cs.is_open m.guard then record m { memory = change m.memory } else m

  -- The statements of a body, with what other contexts would do before each of them.
  unfoldable pub run_statements : List (M → M) → (ℕ → M → M) → Machine I M → Machine I M
  run_statements [] changes m = m
  run_statements (statement ∷ rest) changes m =
      let before = let_in (changes 0) m in
      run_statements rest (λ k. changes (suc k))
        (record before { memory = statement before.memory })

  -- `{ CriticalSection cs; ... }`.
  unfoldable pub in_section : List (M → M) → (ℕ → M → M) → Machine I M → Machine I M
  in_section body changes m =
      let (saved, closed) = cs.construct m.guard in
      let inside = run_statements body changes (record m { guard = closed }) in
      record inside { guard = cs.destruct saved inside.guard }

-- The memory of `set`: `newly_signaled`, and the world.
abbrev pub Local : Type 0
Local = Bool × World

-- The body of the section in `set`.
unfoldable pub set_body : ℕ → List (Local → Local)
set_body f =
    (λ m. (not (m.1.flags f).signaled, m.1))
    ∷ (λ m. (m.0, put_flag f (record (m.1.flags f) { signaled = true }) m.1))
    ∷ (λ m. (m.0, record (m.1) { pending = true }))
    ∷ []

-- The body of the section in `clear`; the local variable is not used.
unfoldable pub clear_body : ℕ → List (Local → Local)
clear_body f = (λ m. (m.0, put_flag f (record (m.1.flags f) { signaled = false }) m.1)) ∷ []

-- The body of the section in `consume`, with what it returns: the test, and the reset.
unfoldable pub consume_body : ℕ → List (Local → Local)
consume_body f =
    (λ m. ((m.1.flags f).signaled, m.1))
    ∷ (λ m. (m.0, if m.0 then put_flag f (record (m.1.flags f) { signaled = false }) m.1 else m.1))
    ∷ []

-- The body of the section in a round of `poll_external_signals`, with `wake`: the test, and the reset.
unfoldable pub round_body : ℕ → List (Local → Local)
round_body f =
    (λ m. ((m.1.flags f).signaled && is_some (m.1.flags f).waiter, m.1))
    ∷ (λ m. (m.0, if m.0 then put_flag f (record (m.1.flags f) { signaled = false }) m.1 else m.1))
    ∷ []
