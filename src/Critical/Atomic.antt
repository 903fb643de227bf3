-- ===== src/Critical/Atomic.antt =====
-- The body of a critical section of detail/platform_sync.h runs as one step.
use simple_await.Base.{ℕ, suc, ◌≡◌, refl, ◌∙◌, ap, false, List, [], ◌∷◌}
use simple_await.Critical.{
  InterruptMask, IsInterruptMask, PortMux, IsPortMux, CriticalSection, IsExclusive, rp2040_section,
  esp32_section, Machine, let_in, run_statements, in_section,
}

-- The statements in a row.
abbrev pub in_a_row : {M : Type 0} → List (M → M) → M → M
in_a_row [] m = m
in_a_row (statement ∷ rest) m = in_a_row rest (statement m)

-- The classes of both platforms are what threadsafeflag.h relies on.
pub rp2040_section-IsExclusive :
    {I : Type 0} (p : InterruptMask I) → IsInterruptMask p → IsExclusive (rp2040_section p)
rp2040_section-IsExclusive p law = record {
  closes = law.disables;
  reopens = λ i. law.restores i (p.save_and_disable_interrupts i).1;
}

pub esp32_section-IsExclusive :
    {I : Type 0} (p : PortMux I) → IsPortMux p → IsExclusive (esp32_section p)
esp32_section-IsExclusive p law = record {
  closes = law.takes;
  reopens = λ i. ap p.is_free (law.undoes i);
}

module _ {I Saved M : Type 0} (cs : CriticalSection I Saved) where
  shut_out :
      (change : M → M) (m : Machine I M) → cs.is_open m.guard ≡ false → let_in cs change m ≡ m
  unfolding let_in
  shut_out change m shut = simp shut refl

  run_statements-alone :
      (body : List (M → M)) (changes : ℕ → M → M) (m : Machine I M)
      → cs.is_open m.guard ≡ false
      → run_statements cs body changes m ≡ record m { memory = in_a_row body m.memory }
  unfolding run_statements
  run_statements-alone [] changes m shut = refl
  run_statements-alone (statement ∷ rest) changes m shut =
      ap
        (λ (k : Machine I M).
          run_statements cs rest (λ k. changes (suc k)) (record k { memory = statement k.memory }))
        (shut_out (changes 0) m shut)
      ∙ run_statements-alone rest (λ k. changes (suc k)) (record m { memory = statement m.memory })
          shut

  -- With a critical section that shuts other contexts out and lets them in again: whatever they would
  -- do between the statements of the body, the memory afterwards is that of the statements in a row, and
  -- they can come in afterwards if they could before, so also a section within a section is safe.
  pub in_section-in_a_row :
      IsExclusive cs
      → (body : List (M → M)) (changes : ℕ → M → M) (m : Machine I M)
      → ((in_section cs body changes m).memory ≡ in_a_row body m.memory)
        × (cs.is_open (in_section cs body changes m).guard ≡ cs.is_open m.guard)
  unfolding in_section
  in_section-in_a_row law body changes m =
      let (saved, closed) = cs.construct m.guard in
      let k =
        run_statements-alone body changes (record m { guard = closed }) (law.closes m.guard) in
      (
        ap (λ (x : Machine I M). x.memory) k,
        ap (λ (x : Machine I M). cs.is_open (cs.destruct saved x.guard)) k ∙ law.reopens m.guard,
      )
