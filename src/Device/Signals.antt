-- ===== src/Device/Signals.antt =====
-- What steps of other contexts (`ThreadSafeFlag::set`, threadsafeflag.h) leave of the scheduler's
-- state: every signal they raise leaves a pending mark and a token, or a caller that will give one.
use simple_await.Base.{
  sym, ◌≢◌, ◌⊎◌, ℕ, ◌≡◌, refl, ◌∙◌, ap, Bool, true, false, Option, none, some, List, [], ◌∷◌, ◌&&◌,
  ◌||◌, ◌==◌, not, is_some, arith, inl, inr, Bool-cases,
}
use native.Mathlib.Decide.{ℕ_discrete}
use simple_await.World.{World}
use simple_await.Flag
use simple_await.Flag.Armed.{Flags}
use simple_await.Device.{
  Semaphore, IsBinary, Device, Signal, mark_signaled, call_wake, platform_wake_scheduler, signal,
  interrupted, has_token,
}

module _ {S : Type 0} (b : Semaphore S) where
  -- The scheduler will not sleep: a signal is pending and, if `strict`, the semaphore has a token or
  -- a caller of `set` is about to give it one.
  abbrev pub alert : Bool → Device S → Bool
  alert strict d =
      d.world.pending && (not strict || (has_token b d.scheduler_wake || not (d.waking == 0)))

-- What a flag keeps while other contexts signal it.
abbrev pub SameWait : Flags → Flags → ℕ → Type 0
SameWait flags flags' i =
    ((flags' i).waiter ≡ (flags i).waiter) × ((flags' i).armed_next ≡ (flags i).armed_next)

-- From `d`, other contexts have made steps to `e`.
pub record Signaled {S : Type 0} (b : Semaphore S) (d e : Device S) : Type 0 where
  pub waits : (i : ℕ) → SameWait d.world.flags e.world.flags i
  pub raises : (i : ℕ) → (d.world.flags i).signaled ≡ true → (e.world.flags i).signaled ≡ true
  pub raised :
      (strict : Bool) (i : ℕ)
      → (d.world.flags i).signaled ≡ false
      → (e.world.flags i).signaled ≡ true
      → (strict ≡ true → is_some d.scheduler_wake ≡ true)
      → alert b strict e ≡ true
  pub alerts :
      (strict : Bool)
      → (strict ≡ true → is_some d.scheduler_wake ≡ true)
      → alert b strict d ≡ true
      → alert b strict e ≡ true
  pub prepared : is_some e.scheduler_wake ≡ is_some d.scheduler_wake
  pub rest : e.world ≡ record (d.world) { flags = e.world.flags; pending = e.world.pending }

-- Whether a critical section of `set` on flag `f` is among the steps.
abbrev pub marks : ℕ → List Signal → Bool
marks f [] = false
marks f (mark_signaled g ∷ ss) = f == g || marks f ss
marks f (call_wake in_isr ∷ ss) = marks f ss

module _ {S : Type 0} (b : Semaphore S) where
  Signaled-refl : (d : Device S) → Signaled b d d
  Signaled-refl d = record {
    waits = λ i. (refl, refl);
    raises = λ i h. h;
    raised = λ strict i h k p. absurd (ground arith);
    alerts = λ strict p h. h;
    prepared = refl;
    rest = refl;
  }

  pub Signaled-trans : (d e u : Device S) → Signaled b d e → Signaled b e u → Signaled b d u
  Signaled-trans d e u k l = record {
    waits = λ i. ((l.waits i).0 ∙ (k.waits i).0, (l.waits i).1 ∙ (k.waits i).1);
    raises = λ i h. l.raises i (k.raises i h);
    raised = λ strict i h m p. elim (Bool-cases (e.world.flags i).signaled) [
      | inl on ↦ l.alerts strict (λ q. k.prepared ∙ p q) (k.raised strict i h on p)
      | inr off ↦ l.raised strict i off m (λ q. k.prepared ∙ p q)
    ];
    alerts = λ strict p h. l.alerts strict (λ q. k.prepared ∙ p q) (k.alerts strict p h);
    prepared = l.prepared ∙ k.prepared;
    rest =
        l.rest
        ∙ ap (λ (w : World). record w { flags = u.world.flags; pending = u.world.pending }) k.rest;
  }

  module _ (law : IsBinary b) where
    pub wakes :
        (in_isr : Bool) (o : Option S)
        → (is_some (platform_wake_scheduler b in_isr o) ≡ is_some o)
          × (is_some o ≡ true → has_token b (platform_wake_scheduler b in_isr o) ≡ true)
    unfolding platform_wake_scheduler has_token
    wakes in_isr none = (refl, λ h. absurd (ground arith))
    wakes true (some s) = (refl, λ h. law.gives_from_isr s)
    wakes false (some s) = (refl, λ h. law.gives s)

    pub signal-Signaled : (s : Signal) (d : Device S) → Signaled b d (signal b s d)
    unfolding signal Flag.set
    signal-Signaled (mark_signaled f) d = record {
      waits = λ i. (ground arith, ground arith);
      raises = λ i h. ground arith;
      raised = λ strict i h k p. ground arith;
      alerts = λ strict p h. ground arith;
      prepared = refl;
      rest = refl;
    }
    signal-Signaled (call_wake in_isr) d = elim (Bool-cases (d.waking == 0)) [
      | inl e ↦ rw e (Signaled-refl d)
      | inr e ↦ rw e (record {
        waits = λ i. (refl, refl);
        raises = λ i h. h;
        raised = λ strict i h k p. absurd (ground arith);
        alerts = λ strict p h. elim (Bool-cases strict) [
          | inl t ↦ ground (arith, (wakes in_isr d.scheduler_wake).1 (p t))
          | inr t ↦ ground arith
        ];
        prepared = (wakes in_isr d.scheduler_wake).0;
        rest = refl;
      })
    ]

    pub interrupted-Signaled : (ss : List Signal) (d : Device S) → Signaled b d (interrupted b ss d)
    unfolding interrupted
    interrupted-Signaled [] d = Signaled-refl d
    interrupted-Signaled (s ∷ ss) d =
        Signaled-trans d (signal b s d) (interrupted b (s ∷ ss) d) (signal-Signaled s d)
          (interrupted-Signaled ss (signal b s d))

  unmarked :
      (f i : ℕ) (d : Device S)
      → i ≢ f
      → ((signal b (mark_signaled f) d).world.flags i).signaled ≡ (d.world.flags i).signaled
  unfolding signal Flag.set
  unmarked f i d q = ground arith

  uncalled :
      (in_isr : Bool) (i : ℕ) (d : Device S)
      → ((signal b (call_wake in_isr) d).world.flags i).signaled ≡ (d.world.flags i).signaled
  unfolding signal
  uncalled in_isr i d = elim (Bool-cases (d.waking == 0)) [ inl e ↦ rw e refl | inr e ↦ rw e refl ]

  -- A flag that is signalled afterwards was so before, or one of the steps has marked it.
  pub interrupted-marks :
      (ss : List Signal) (d : Device S) (i : ℕ)
      → ((interrupted b ss d).world.flags i).signaled ≡ true
      → ((d.world.flags i).signaled ≡ true) ⊎ (marks i ss ≡ true)
  unfolding interrupted
  interrupted-marks [] d i h = inl h
  interrupted-marks (mark_signaled f ∷ ss) d i h =
      elim (interrupted-marks ss (signal b (mark_signaled f) d) i h) [
        | inr m ↦ inr (ground arith)
        | inl m ↦ elim (ℕ_discrete i f) [
          | yes q ↦ inr (ground arith)
          | no q ↦ inl (sym (unmarked f i d q) ∙ m)
        ]
      ]
  interrupted-marks (call_wake in_isr ∷ ss) d i h =
      elim (interrupted-marks ss (signal b (call_wake in_isr) d) i h) [
        | inr m ↦ inr m
        | inl m ↦ inl (sym (uncalled in_isr i d) ∙ m)
      ]
