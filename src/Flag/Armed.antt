-- ===== src/Flag/Armed.antt =====
-- The list of armed flags of threadsafeflag.h: the flags linked from `s_armed_head_`.
use simple_await.Base.{
  Segment, Segment-frame, Segment-join, Segment-relink, ℕ, ◌≡◌, ◌≢◌, refl, Bool, Option, some, List,
  [], ◌∷◌, ◌++◌, arith, count, get_last?, is_some, ◌&&◌, if◌then◌else◌,
}
use simple_await.World.{ThreadSafeFlag, Scheduler}
use simple_await.Scheduler.Fifo.{Distinct}
use simple_await.Waits.{wake_slot}

abbrev pub Flags : Type 0
Flags = ℕ → ThreadSafeFlag

abbrev pub armed_links : Flags → ℕ → Option ℕ
armed_links flags i = (flags i).armed_next

-- The flags `l` are linked from `p`, and the last one links to `q`.
abbrev pub Linked : Flags → Option ℕ → List ℕ → Option ℕ → Type 0
Linked flags p l q = Segment (armed_links flags) p l q

pub Linked-frame :
    (flags flags' : Flags) (p : Option ℕ) (l : List ℕ) (q : Option ℕ)
    → ((i : ℕ) → count i l ≢ 0 → (flags' i).armed_next ≡ (flags i).armed_next)
    → Linked flags p l q
    → Linked flags' p l q
Linked-frame flags flags' = Segment-frame (armed_links flags) (armed_links flags')

-- The links of two stretches in a row.
pub Linked-append :
    (flags : Flags) (p : Option ℕ) (l : List ℕ) (f : ℕ)
    → Linked flags p l (some f)
    → Linked flags p (l ++ f ∷ []) (flags f).armed_next
Linked-append flags p l f c =
    Segment-join (armed_links flags) p (some f) (armed_links flags f) l (f ∷ []) c (refl, refl)

-- A write to the link of the last flag.
pub Linked-relink :
    (flags flags' : Flags) (p : Option ℕ) (l : List ℕ) (q : Option ℕ) (t : ℕ)
    → Distinct l
    → get_last? l ≡ some t
    → ((i : ℕ) → count i l ≢ 0 → i ≢ t → (flags' i).armed_next ≡ (flags i).armed_next)
    → Linked flags p l q
    → Linked flags' p l (flags' t).armed_next
Linked-relink flags flags' = Segment-relink (armed_links flags) (armed_links flags')

-- The test of `poll_external_signals` on an armed flag.
abbrev pub resolvable : ThreadSafeFlag → Bool
resolvable v = v.signaled && is_some v.waiter

-- The list that `poll_external_signals` works off, without its links: the flags that stay armed, and
-- the scheduler with the waiters of the others woken in the order of the list.
abbrev pub still_armed : Flags → List ℕ → List ℕ
still_armed flags [] = []
still_armed flags (f ∷ l) =
    if resolvable (flags f) then still_armed flags l else f ∷ still_armed flags l

abbrev pub wake_signaled : Flags → List ℕ → Scheduler → Scheduler
wake_signaled flags [] s = s
wake_signaled flags (f ∷ l) s =
    wake_signaled flags l (if resolvable (flags f) then wake_slot (flags f).waiter s else s)

-- Two states of the flags that agree but for the links.
abbrev pub Agree : Flags → Flags → ℕ → Type 0
Agree flags flags' i =
    ((flags' i).signaled ≡ (flags i).signaled) × ((flags' i).waiter ≡ (flags i).waiter)

pub still_armed-Agree :
    (flags flags' : Flags) (l : List ℕ)
    → ((i : ℕ) → count i l ≢ 0 → Agree flags flags' i)
    → still_armed flags' l ≡ still_armed flags l
still_armed-Agree flags flags' [] same = refl
still_armed-Agree flags flags' (f ∷ l) same =
    let a = same f (ground arith) in
    rw (a.0, a.1, still_armed-Agree flags flags' l (λ i h. same i (omega arith))) refl

pub wake_signaled-Agree :
    (flags flags' : Flags) (l : List ℕ) (s : Scheduler)
    → ((i : ℕ) → count i l ≢ 0 → Agree flags flags' i)
    → wake_signaled flags' l s ≡ wake_signaled flags l s
wake_signaled-Agree flags flags' [] s same = refl
wake_signaled-Agree flags flags' (f ∷ l) s same =
    let a = same f (ground arith) in
    rw (a.0, a.1) (wake_signaled-Agree flags flags' l _ (λ i h. same i (omega arith)))
