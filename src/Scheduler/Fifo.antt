-- ===== src/Scheduler/Fifo.antt =====
-- Intrusive lists: which slots the `next` links of scheduler.h chain, and that a push appends to
-- the chain and a pop takes its first slot.
use simple_await.Base.{
  subst, Segment, Segment-frame, Segment-join, Segment-relink, count-last, ℕ, ◌≤◌, ◌≡◌, ◌≢◌, refl,
  inl, inr, Option, none, some, List, [], ◌∷◌, ◌++◌, arith, count, get_last?, get_last?-append,
  Option-cases, sym, ◌∙◌,
}
use simple_await.World.{Slots, set_next, WaitQueue}
use simple_await.Scheduler.{push_back, pop_front}

abbrev pub slot_links : Slots → ℕ → Option ℕ
slot_links slots i = (slots i).next

-- From `p` the links lead through exactly the slots `r`, and end.
abbrev pub Chain : Slots → Option ℕ → List ℕ → Type 0
Chain slots p r = Segment (slot_links slots) p r none

-- A head and a tail pointer for the slots `r`.
abbrev pub IsFifo : Slots → Option ℕ → Option ℕ → List ℕ → Type 0
IsFifo slots head tail r = Chain slots head r × (tail ≡ get_last? r)

abbrev pub Distinct : List ℕ → Type 0
Distinct r = (i : ℕ) → count i r ≤ 1

-- A chain depends on the links of its own slots only.
pub Chain-frame :
    (slots slots' : Slots) (p : Option ℕ) (r : List ℕ)
    → ((i : ℕ) → count i r ≢ 0 → (slots' i).next ≡ (slots i).next)
    → Chain slots p r
    → Chain slots' p r
Chain-frame slots slots' p r = Segment-frame (slot_links slots) (slot_links slots') p r none

-- Linking `x` behind the last slot extends the chain.
Chain-push :
    (slots slots' : Slots) (p : Option ℕ) (r : List ℕ) (x t : ℕ)
    → ((i : ℕ) → count i r ≤ 1)
    → count x r ≡ 0
    → get_last? r ≡ some t
    → (slots' t).next ≡ some x
    → (slots' x).next ≡ none
    → ((i : ℕ) → i ≢ t → i ≢ x → (slots' i).next ≡ (slots i).next)
    → Chain slots p r
    → Chain slots' p (r ++ x ∷ [])
Chain-push slots slots' p r x t d out e link end same c =
    let outside : (i : ℕ) → count i r ≢ 0 → i ≢ x = λ i h k. h (rw k out) in
    Segment-join (slot_links slots') p (some x) none r (x ∷ [])
      (subst (Segment (slot_links slots') p r) link (
        Segment-relink (slot_links slots) (slot_links slots') p r none t d e
          (λ i h k. same i k (outside i h)) c))
      (refl, end)

-- The tail of a chain is empty exactly when the chain is.
pub get_last?-none : (r : List ℕ) → get_last? r ≡ none → r ≡ []
get_last?-none [] e = refl
get_last?-none (x ∷ []) e = cc
get_last?-none (x ∷ y ∷ r) e = cc (get_last?-none (y ∷ r) e)

-- The two writes of a push onto a non-empty FIFO.
pub linked-Chain :
    (slots : Slots) (p : Option ℕ) (r : List ℕ) (x t : ℕ)
    → Distinct r
    → count x r ≡ 0
    → get_last? r ≡ some t
    → Chain slots p r
    → Chain (set_next (set_next slots x none) t (some x)) p (r ++ x ∷ [])
linked-Chain slots p r x t d out e c =
    Chain-push slots (set_next (set_next slots x none) t (some x)) p r x t d out e (ground arith)
      (ground (arith, count-last r t e)) (λ i h k. ground arith) c

-- `WaitQueue::push_back` of a slot outside a FIFO of distinct slots appends it.
pub push_back-IsFifo :
    (slots : Slots) (q : WaitQueue) (r : List ℕ) (x : ℕ)
    → Distinct r
    → count x r ≡ 0
    → IsFifo slots q.head q.tail r
    → let (slots', q') = push_back slots q x in IsFifo slots' q'.head q'.tail (r ++ x ∷ [])
unfolding push_back
push_back-IsFifo slots q r x d out f = elim (Option-cases q.tail) [
  | inl e ↦ rw (get_last?-none r (sym f.1 ∙ e), e, push_back) ((refl, ground arith), refl)
  | inr (t, e) ↦
      rw (e, push_back)
        (linked-Chain slots q.head r x t d out (sym f.1 ∙ e) f.0, sym (get_last?-append r x))
]

-- The write of a pop leaves the rest of the chain.
pub unlinked-Chain :
    (slots : Slots) (x : ℕ) (r : List ℕ)
    → Distinct (x ∷ r)
    → Chain slots (slots x).next r
    → Chain (set_next slots x none) (slots x).next r
unlinked-Chain slots x r d c =
    Chain-frame slots (set_next slots x none) _ r (λ i h. ground (arith, d x)) c

-- The tail pointer after a pop.
pub popped_tail :
    (slots : Slots) (p tail : Option ℕ) (x : ℕ) (r : List ℕ)
    → Chain slots p r
    → tail ≡ get_last? (x ∷ r)
    → (elim p [ none ↦ none | some _ ↦ tail ]) ≡ get_last? r
popped_tail slots p tail x [] c e = rw (c)
popped_tail slots p tail x (y ∷ r) c e = rw (c.0) e

-- `WaitQueue::pop_front` of a FIFO of distinct slots that is not empty takes the first slot and leaves
-- the rest.
pub pop_front-IsFifo :
    (slots : Slots) (q : WaitQueue) (x : ℕ) (r : List ℕ)
    → Distinct (x ∷ r)
    → IsFifo slots q.head q.tail (x ∷ r)
    → let (y, slots', q') = pop_front slots q in (y ≡ some x) × IsFifo slots' q'.head q'.tail r
unfolding pop_front
pop_front-IsFifo slots q x r d f =
    rw (f.0.0, pop_front)
      (refl, (unlinked-Chain slots x r d f.0.1, popped_tail slots _ q.tail x r f.0.1 f.1))

-- What `WaitQueue::push_back` does to each slot.
pub push_back_rest :
    (slots : Slots) (q : WaitQueue) (x i : ℕ)
    → let a = (push_back slots q x).0 i in
      let b = slots i in (a.state ≡ b.state) × (a.handle ≡ b.handle) × (a.parent ≡ b.parent)
unfolding push_back
push_back_rest slots q x i = ground arith

pub push_back_next :
    (slots : Slots) (q : WaitQueue) (x i : ℕ)
    → i ≢ x
    → q.tail ≢ some i
    → ((push_back slots q x).0 i).next ≡ (slots i).next
unfolding push_back
push_back_next slots q x i h k = ground arith
