-- ===== src/Flag/Unarm.antt =====
-- `unarm` of threadsafeflag.h against the list of armed flags.
use simple_await.Base.{
  count-last, Segment-join, Segment-last, remove, count-remove, count-remove_self, ℕ, zero, suc,
  ◌≤◌, ◌<◌, ◌≡◌, ◌≢◌, refl, sym, ◌∙◌, subst, Option, none, some, List, [], ◌∷◌, ◌++◌, arith, length,
  count, count-append, append_assoc, append-nil, get_last?, get_last?-append, ◌==◌, if◌then◌else◌,
  inl, inr, Bool-cases,
}
use native.Mathlib.Decide.{ℕ_discrete}
use simple_await.World.{World}
use simple_await.Scheduler.Fifo.{Distinct, get_last?-none}
use simple_await.Flag.{read_link, write_link, unlink, unarm}
use simple_await.Flag.Armed.{armed_links, Linked, Linked-frame, Linked-append, Linked-relink, Agree}
use simple_await.Flag.Arming.{Arming, Arming-Distinct}

read_link-eq :
    (kept : List ℕ) (prev p : Option ℕ) (w : World)
    → get_last? kept ≡ prev
    → Linked w.flags w.armed_head kept p
    → read_link prev w ≡ p
read_link-eq kept none p w e c =
    subst (λ k. Linked w.flags w.armed_head k p) (get_last?-none kept e) c
read_link-eq kept (some t) p w e c = Segment-last (armed_links w.flags) w.armed_head kept p t e c

-- The flag `f` is out of the list, and no signal or waiter has changed.
pub record Unlinked (kept l : List ℕ) (f : ℕ) (w u : World) : Type 0 where
  pub linked : Linked u.flags u.armed_head (kept ++ remove f l) none
  pub agree : (i : ℕ) → Agree w.flags u.flags i

write_link-Agree :
    (prev q : Option ℕ) (w : World) (i : ℕ) → Agree w.flags (write_link prev q w).flags i
write_link-Agree none q w i = (refl, refl)
write_link-Agree (some g) q w i = ground arith

written-Linked :
    (kept l : List ℕ) (prev q : Option ℕ) (f : ℕ) (w : World)
    → Distinct (kept ++ f ∷ l)
    → get_last? kept ≡ prev
    → Linked w.flags w.armed_head kept (some f)
    → Linked w.flags q l none
    → Linked (write_link prev q w).flags (write_link prev q w).armed_head (kept ++ l) none
written-Linked kept l none q f w d e c m =
    subst (λ k. Linked w.flags q (k ++ l) none) (sym (get_last?-none kept e)) m
written-Linked kept l (some t) q f w d e c m =
    let u = write_link (some t) q w in
    let written : (u.flags t).armed_next ≡ q = ground arith in
    Segment-join (armed_links u.flags) w.armed_head q none kept l
      (subst (Linked u.flags w.armed_head kept) written (
        Linked-relink w.flags u.flags w.armed_head kept (some f) t
          (λ i. omega (arith, d i, count-append i kept (f ∷ l))) e (λ i h k. ground arith) c))
      (Linked-frame w.flags u.flags q l none (λ i h. ground (arith, outside i h)) m)
  where
    outside : (i : ℕ) → count i l ≢ 0 → i ≢ t
    outside i h k = ground (arith, d t, count-append t kept (f ∷ l), count-last kept t e, longer)
      where
        longer : count t l ≤ count t (f ∷ l)
        longer = ground arith

pub unlink_step :
    (fuel : ℕ) (prev : Option ℕ) (f g : ℕ) (w : World)
    → read_link prev w ≡ some g
    → unlink (suc fuel) prev f w
      ≡ (if g == f then write_link prev (w.flags f).armed_next w else unlink fuel (some g) f w)
unfolding unlink
unlink_step fuel prev f g w e = rw (e, unlink) refl

pub unlink_end :
    (fuel : ℕ) (prev : Option ℕ) (f : ℕ) (w : World)
    → read_link prev w ≡ none
    → unlink (suc fuel) prev f w ≡ w
unfolding unlink
unlink_end fuel prev f w e = rw (e, unlink) refl

-- With one round more than there are flags left, the loop takes out `f`.
unlink-Unlinked :
    (fuel : ℕ) (kept l : List ℕ) (p prev : Option ℕ) (f : ℕ) (w : World)
    → Distinct (kept ++ l)
    → get_last? kept ≡ prev
    → Linked w.flags w.armed_head kept p
    → Linked w.flags p l none
    → length l < fuel
    → Unlinked kept l f w (unlink fuel prev f w)
unlink-Unlinked zero kept l p prev f w d e c m h = elim h [ ]
unlink-Unlinked (suc fuel) kept [] p prev f w d e c m h =
    rw (unlink_end fuel prev f w (read_link-eq kept prev p w e c ∙ m)) (record {
      linked = rw append-nil (subst (Linked w.flags w.armed_head kept) m c);
      agree = λ i. (refl, refl);
    })
unlink-Unlinked (suc fuel) kept (g ∷ l) p prev f w d e c m h =
    let c' = subst (Linked w.flags w.armed_head kept) m.0 c in
    let step = unlink_step fuel prev f g w (read_link-eq kept prev p w e c ∙ m.0) in
    elim (Bool-cases (g == f)) [
      | inl same ↦
          let q : g ≡ f = ground arith in
          rw (step, same)
            (record {
              linked = rw same (
                  written-Linked kept l prev (w.flags f).armed_next g w d e c'
                    (subst (λ y. Linked w.flags (w.flags y).armed_next l none) q m.1));
              agree = write_link-Agree prev (w.flags f).armed_next w;
            })
      | inr other ↦
          let rest =
            unlink-Unlinked fuel (kept ++ g ∷ []) l _ (some g) f w
              (subst Distinct (sym (append_assoc kept (g ∷ []) l)) d) (get_last?-append kept g)
              (Linked-append w.flags w.armed_head kept g c') m.1 (omega arith) in
          let u = unlink fuel (some g) f w in
          rw (step, other)
            (record {
              linked = rw other (
                  subst (λ k. Linked u.flags u.armed_head k none)
                    (append_assoc kept (g ∷ []) (remove f l)) rest.linked);
              agree = rest.agree;
            })
    ]

-- From a state in which the armed flags `l`, fewer than `fuel`, are those with a waiting slot: `unarm`
-- takes out the flag, which has no waiter afterwards; the other armed flags stay in their
-- order, and the armed flags are again those with a waiting slot.
pub unarm-Arming :
    (fuel f : ℕ) {l : List ℕ} {w : World}
    → Arming w l
    → length l < fuel
    → Arming (unarm fuel f w) (remove f l) × (((unarm fuel f w).flags f).waiter ≡ none)
unfolding unarm
unarm-Arming fuel f {l} {w} a h =
    let k =
      unlink-Unlinked fuel [] l w.armed_head none f w (Arming-Distinct a) refl refl a.linked h in
    let u = unlink fuel none f w in
    let gone = count-remove_self f l (Arming-Distinct a f) in
    (
      record {
        linked =
            Linked-frame u.flags (unarm fuel f w).flags u.armed_head (remove f l) none
              (λ i m. ground (arith, gone)) k.linked;
        member = λ i. elim (ℕ_discrete i f) [
          | yes q ↦ rw q (ground (arith, gone))
          | no q ↦ count-remove f i l q ∙ a.member i ∙ ground (arith, (k.agree i).1, q)
        ];
      },
      ground arith,
    )
