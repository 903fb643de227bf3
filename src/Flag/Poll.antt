-- ===== src/Flag/Poll.antt =====
-- `poll_external_signals` of threadsafeflag.h against the list of armed flags.
use simple_await.Base.{
  count-last, ℕ, zero, suc, ◌≤◌, ◌<◌, ◌≡◌, ◌≢◌, refl, sym, ◌∙◌, ap, subst, true, false, Option,
  none, some, List, [], ◌∷◌, ◌++◌, arith, length, count, count-append, append_assoc, append-nil,
  get_last?, get_last?-append, ◌⊎◌, inl, inr, Bool-cases,
}
use native.Mathlib.Decide.{ℕ_discrete}
use simple_await.World.{ThreadSafeFlag, World}
use simple_await.Scheduler.Fifo.{Distinct}
use simple_await.Flag.{new_flag, resolve, resolve_all, poll_external_signals}
use simple_await.Flag.Armed.{
  Linked, Linked-frame, Linked-append, resolvable, still_armed, wake_signaled, Agree,
  still_armed-Agree, wake_signaled-Agree,
}
use simple_await.Flag.Resolve.{
  woken_at, resolve-wakes, resolve-keeps, woken_at-flags, woken_at-rest, woken_at-Linked,
}

-- From the world `w`, the flags `l` are resolved behind the flags `kept`, and the world is `u`.
pub record Resolved (kept l : List ℕ) (w u : World) : Type 0 where
  pub armed : Linked u.flags u.armed_head (kept ++ still_armed w.flags l) none
  pub sched : u.sched ≡ wake_signaled w.flags l w.sched
  pub woken : (i : ℕ) → count i l ≢ 0 → resolvable (w.flags i) ≡ true → u.flags i ≡ new_flag
  pub left : (i : ℕ) → (count i l ≡ 0) ⊎ (resolvable (w.flags i) ≡ false) → Agree w.flags u.flags i
  pub outside : (i : ℕ) → count i kept ≡ 0 → count i l ≡ 0 → u.flags i ≡ w.flags i
  pub rest : u ≡ record w { sched = u.sched; flags = u.flags; armed_head = u.armed_head }

-- A round at flag `f` behind `kept`, with `l` still to come, and then the rounds for `l`.
module _ (kept : List ℕ) (f : ℕ) (l : List ℕ) (w : World) (d : Distinct (kept ++ f ∷ l)) where
  apart : (count f kept ≡ 0) × (count f l ≡ 0)
  apart = omega (arith, d f, count-append f kept (f ∷ l), here)
    where
      here : count f (f ∷ l) ≡ suc (count f l)
      here = ground arith

  dropped : Distinct (kept ++ l)
  dropped i = omega (arith, d i, count-append i kept (f ∷ l), count-append i kept l)

  disjoint : (i : ℕ) → count i l ≢ 0 → count i kept ≡ 0
  disjoint i m = omega (arith, d i, count-append i kept (f ∷ l))

  Resolved-keep :
      {u : World}
      → resolvable (w.flags f) ≡ false
      → Resolved (kept ++ f ∷ []) l w u
      → Resolved kept (f ∷ l) w u
  Resolved-keep {u} h k = record {
    armed = rw h (
        subst (λ m. Linked u.flags u.armed_head m none)
          (append_assoc kept (f ∷ []) (still_armed w.flags l)) k.armed);
    sched = rw h k.sched;
    woken = λ i m g. k.woken i (ground arith) g;
    left = λ i o. elim o [ inl z ↦ k.left i (inl (omega arith)) | inr z ↦ k.left i (inr z) ];
    outside =
        λ i m g. k.outside i (omega (arith, count-append i kept (f ∷ []), alone i g)) (omega arith);
    rest = k.rest;
  }
    where
      alone : (i : ℕ) → count i (f ∷ l) ≡ 0 → count i (f ∷ []) ≡ 0
      alone i g = ground arith

  module _ (prev : Option ℕ) (e : get_last? kept ≡ prev) where
    not_last : (i : ℕ) → count i kept ≡ 0 → prev ≢ some i
    not_last i z q = ground (arith, count-last kept i (e ∙ q))

    abbrev after : World
    after = woken_at prev f w

    round :
        (i : ℕ)
        → ((i ≢ f → Agree w.flags after.flags i)
            × (i ≢ f → prev ≢ some i → after.flags i ≡ w.flags i)
            × (after.flags f ≡ new_flag))
    round i = woken_at-flags prev f i w (not_last f apart.0)

    later : (i : ℕ) → count i l ≢ 0 → i ≢ f
    later i m q = ground (arith, apart.1)

    next_same : (i : ℕ) → count i l ≢ 0 → (after.flags i).armed_next ≡ (w.flags i).armed_next
    next_same i m =
        ap (λ (v : ThreadSafeFlag). v.armed_next)
          ((round i).1 (later i m) (not_last i (disjoint i m)))

    same_test : (i : ℕ) → i ≢ f → resolvable (after.flags i) ≡ resolvable (w.flags i)
    same_test i q = rw (((round i).0 q).0, ((round i).0 q).1) refl

    Resolved-wake :
        {u : World}
        → resolvable (w.flags f) ≡ true
        → Resolved kept l after u
        → Resolved kept (f ∷ l) w u
    Resolved-wake {u} h k = record {
      armed = rw h (
          subst (λ m. Linked u.flags u.armed_head (kept ++ m) none)
            (still_armed-Agree w.flags after.flags l (λ i m. (round i).0 (later i m))) k.armed);
      sched = rw h (
          k.sched
          ∙ wake_signaled-Agree w.flags after.flags l after.sched (λ i m. (round i).0 (later i m))
          ∙ ap (wake_signaled w.flags l) (woken_at-rest prev f w).0);
      woken = λ i m g. elim (ℕ_discrete i f) [
        | yes q ↦ rw q (k.outside f apart.0 apart.1 ∙ (round f).2)
        | no q ↦ k.woken i (ground arith) (same_test i q ∙ g)
      ];
      left = λ i o. elim (ℕ_discrete i f) [
        | yes q ↦ absurd (ground arith)
        | no q ↦
            let a = (round i).0 q in
            let b =
              k.left i (elim o [ inl z ↦ inl (omega arith) | inr z ↦ inr (same_test i q ∙ z) ]) in
            (b.0 ∙ a.0, b.1 ∙ a.1)
      ];
      outside =
          λ i m g. k.outside i m (omega arith) ∙ (round i).1 (λ q. ground arith) (not_last i m);
      rest =
          k.rest
          ∙ ap
              (λ (x : World). record x {
                sched = u.sched;
                flags = u.flags;
                armed_head = u.armed_head;
              })
              (woken_at-rest prev f w).1;
    }

-- The loop at an armed flag.
resolve_all_step :
    (fuel : ℕ) (prev : Option ℕ) (f : ℕ) (w : World) (o : Option ℕ × World)
    → resolve prev f w ≡ o
    → resolve_all (suc fuel) prev (some f) w ≡ resolve_all fuel o.0 (w.flags f).armed_next o.1
unfolding resolve_all
resolve_all_step fuel prev f w o e =
    ap (λ (x : Option ℕ × World). resolve_all fuel x.0 (w.flags f).armed_next x.1) e

Resolved-nil :
    (kept : List ℕ) (w : World) → Linked w.flags w.armed_head kept none → Resolved kept [] w w
Resolved-nil kept w c = record {
  armed = rw append-nil c;
  sched = refl;
  woken = λ i m g. absurd (m refl);
  left = λ i o. (refl, refl);
  outside = λ i m g. refl;
  rest = refl;
}

-- With one round more than there are flags left, the loop resolves them all.
resolve_all-Resolved :
    (fuel : ℕ) (kept l : List ℕ) (p prev : Option ℕ) (w : World)
    → Distinct (kept ++ l)
    → get_last? kept ≡ prev
    → Linked w.flags w.armed_head kept p
    → Linked w.flags p l none
    → length l < fuel
    → Resolved kept l w (resolve_all fuel prev p w)
unfolding resolve_all
resolve_all-Resolved zero kept l p prev w d e c m h = elim h [ ]
resolve_all-Resolved (suc fuel) kept [] p prev w d e c m h =
    rw (m, resolve_all) (Resolved-nil kept w (subst (Linked w.flags w.armed_head kept) m c))
resolve_all-Resolved (suc fuel) kept (f ∷ l) p prev w d e c m h =
    elim (Bool-cases (resolvable (w.flags f))) [
      | inl yes_wake ↦
          let u = woken_at prev f w in
          let c' =
            woken_at-Linked kept prev f w (λ i. omega (arith, d i, count-append i kept (f ∷ l)))
              (apart kept f l w d).0 e (subst (Linked w.flags w.armed_head kept) m.0 c) in
          let m' = Linked-frame w.flags u.flags _ l none (next_same kept f l w d prev e) m.1 in
          rw (m.0, resolve_all_step fuel prev f w _ (resolve-wakes prev f w yes_wake))
            (Resolved-wake kept f l w d prev e yes_wake (
              resolve_all-Resolved fuel kept l _ prev u (dropped kept f l w d) e c' m'
                (omega arith)))
      | inr no_wake ↦
          rw (m.0, resolve_all_step fuel prev f w _ (resolve-keeps prev f w no_wake))
            (Resolved-keep kept f l w d no_wake (
              resolve_all-Resolved fuel (kept ++ f ∷ []) l _ (some f) w
                (subst Distinct (sym (append_assoc kept (f ∷ []) l)) d) (get_last?-append kept f)
                (Linked-append w.flags w.armed_head kept f
                  (subst (Linked w.flags w.armed_head kept) m.0 c))
                m.1 (omega arith)))
    ]

-- A pending signal makes `poll_external_signals` resolve the whole list of armed flags.
pub poll_external_signals-Resolved :
    (max_tasks : ℕ) (l : List ℕ) (w : World)
    → Distinct l
    → Linked w.flags w.armed_head l none
    → length l ≤ max_tasks
    → w.pending ≡ true
    → Resolved [] l (record w { pending = false }) (poll_external_signals max_tasks w)
unfolding poll_external_signals
poll_external_signals-Resolved max_tasks l w d c h p = rw p (
    resolve_all-Resolved (suc max_tasks) [] l w.armed_head none (record w { pending = false }) d
      refl refl c (omega arith))
