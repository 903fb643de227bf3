-- ===== src/Waiters/Unlink.antt =====
-- `unlink_sender`, `unlink_receiver` and the loops of `~Queue` in queue.h, against the list of waiters.
use simple_await.Base.{
  ℕ, zero, suc, ◌≤◌, ◌<◌, ◌≡◌, ◌≢◌, refl, sym, ◌∙◌, ap, subst, Bool, false, Option, none, some,
  List, [], ◌∷◌, ◌++◌, arith, length, count, count-append, get_last?, get_last?-append,
  append_assoc, append-nil, Option-cases, Bool-cases, inl, inr, if◌then◌else◌, ◌==◌, remove,
  count-remove, count-remove_self, Segment, Segment-frame, Segment-join, Segment-relink, count-last,
}
use native.Mathlib.Decide.{ℕ_discrete}
use simple_await.Scheduler.Fifo.{Distinct, get_last?-none}
use simple_await.Waiters.{
  Awaiter, Waiters, put_node, set_next, set_linked, splice, unlink_from, unlink_waiter, detach,
}
use simple_await.Waiters.Linked.{
  links, IsWaiters, IsWaiters-Distinct, SamePayloads, put_node-SamePayloads,
}

-- What the loop leaves: the list without `a`, and all but the links as it was.
record Unlinked {ℓ} {X : Type ℓ} (l : List ℕ) (ws u : Waiters X) : Type ℓ where
  chain : Segment (links u) u.head l none
  last : u.tail ≡ get_last? l
  linked : (i : ℕ) → (u.nodes i).linked ≡ (ws.nodes i).linked
  payloads : SamePayloads ws u

get_last?-behind :
    (kept : List ℕ) (x : ℕ) (l : List ℕ) → get_last? (kept ++ x ∷ l) ≡ get_last? (x ∷ l)
get_last?-behind [] x l = refl
get_last?-behind (k ∷ []) x l = refl
get_last?-behind (k ∷ k' ∷ kept) x l = get_last?-behind (k' ∷ kept) x l

-- The tail pointer once `s` is out.
spliced_last :
    (tail prev : Option ℕ) (kept l : List ℕ) (s : ℕ)
    → Distinct (kept ++ s ∷ l)
    → get_last? kept ≡ prev
    → tail ≡ get_last? (kept ++ s ∷ l)
    → (if elim tail [ none ↦ false | some t ↦ t == s ] then prev else tail) ≡ get_last? (kept ++ l)
spliced_last tail prev kept [] s d e last =
    rw (last, get_last?-append kept s, append-nil) (ground (arith, e))
spliced_last tail prev kept (x ∷ l) s d e last = elim (Option-cases (get_last? (x ∷ l))) [
  | inl z ↦ absurd (ground (arith, get_last?-none (x ∷ l) z))
  | inr (t, z) ↦
      let at : tail ≡ some t = last ∙ get_last?-behind kept s (x ∷ l) ∙ z in
      let apart : t ≢ s =
        λ k. ground (arith, d s, count-append s kept (s ∷ x ∷ l), count-last (x ∷ l) t z) in
      rw at (ground (arith, apart, get_last?-behind kept x l, z))
]

abbrev is_tail {ℓ} : {X : Type ℓ} → Waiters X → ℕ → Bool
is_tail ws s = elim ws.tail [ none ↦ false | some t ↦ t == s ]

abbrev bypassed {ℓ} : {X : Type ℓ} → Option ℕ → ℕ → Waiters X → Waiters X
bypassed none s ws = record ws { head = (ws.nodes s).next }
bypassed (some p) s ws = set_next p (ws.nodes s).next ws

module _ {ℓ} {X : Type ℓ} where
  splice_lem :
      (prev : Option ℕ) (s : ℕ) (ws : Waiters X)
      → splice prev s ws
        ≡ record (bypassed prev s ws) { tail = if is_tail ws s then prev else ws.tail }
  unfolding splice
  splice_lem none s ws = elim (Bool-cases (is_tail ws s)) [ inl h ↦ rw h refl | inr h ↦ rw h refl ]
  splice_lem (some p) s ws = elim (Bool-cases (is_tail ws s)) [
    | inl h ↦ rw h refl
    | inr h ↦ rw h refl
  ]

  splice-Unlinked :
      (kept l : List ℕ) (prev : Option ℕ) (s : ℕ) (ws : Waiters X)
      → Distinct (kept ++ s ∷ l)
      → get_last? kept ≡ prev
      → Segment (links ws) ws.head kept (some s)
      → Segment (links ws) (ws.nodes s).next l none
      → ws.tail ≡ get_last? (kept ++ s ∷ l)
      → Unlinked (kept ++ l) ws (splice prev s ws)
  splice-Unlinked kept l none s ws d e c m last = rw (splice_lem none s ws) (record {
    chain =
        subst (λ k. Segment (links ws) (ws.nodes s).next (k ++ l) none)
          (sym (get_last?-none kept e)) m;
    last = spliced_last ws.tail none kept l s d e last;
    linked = λ i. refl;
    payloads = λ i. refl;
  })
  splice-Unlinked kept l (some p) s ws d e c m last =
      let q = (ws.nodes s).next in
      let u = set_next p q ws in
      let at = count-last kept p e in
      rw (splice_lem (some p) s ws) (record {
        chain =
            Segment-join (links u) ws.head q none kept l
              (subst (Segment (links u) ws.head kept) (ground arith) (
                Segment-relink (links ws) (links u) ws.head kept (some s) p
                  (λ i. omega (arith, d i, count-append i kept (s ∷ l))) e (λ i h k. ground arith)
                  c))
              (Segment-frame (links ws) (links u) q l none (λ i h. outside i h) m);
        last = spliced_last ws.tail (some p) kept l s d e last;
        linked = λ i. ground arith;
        payloads = put_node-SamePayloads ws p (record (ws.nodes p) { next = q }) refl;
      })
    where
      apart : (i : ℕ) → count i l ≢ 0 → i ≢ p
      apart i h k = ground (arith, d p, count-append p kept (s ∷ l), count-last kept p e, longer)
        where
          longer : count p l ≤ count p (s ∷ l)
          longer = ground arith

      outside : (i : ℕ) → count i l ≢ 0 → links (set_next p (ws.nodes s).next ws) i ≡ links ws i
      outside i h = ground (arith, apart i h)

  unlink_from-Unlinked :
      (fuel : ℕ) (kept l : List ℕ) (p prev : Option ℕ) (a : ℕ) (ws : Waiters X)
      → Distinct (kept ++ l)
      → get_last? kept ≡ prev
      → Segment (links ws) ws.head kept p
      → Segment (links ws) p l none
      → ws.tail ≡ get_last? (kept ++ l)
      → length l < fuel
      → Unlinked (kept ++ remove a l) ws (unlink_from fuel prev p a ws)
  unfolding unlink_from
  unlink_from-Unlinked zero kept l p prev a ws d e c m last h = elim h [ ]
  unlink_from-Unlinked (suc fuel) kept [] p prev a ws d e c m last h = rw m (record {
    chain = rw append-nil (subst (Segment (links ws) ws.head kept) m c);
    last = last;
    linked = λ i. refl;
    payloads = λ i. refl;
  })
  unlink_from-Unlinked (suc fuel) kept (s ∷ l) p prev a ws d e c m last h =
      let c' = subst (Segment (links ws) ws.head kept) m.0 c in
      rw (m.0) (elim (Bool-cases (s == a)) [
        | inl same ↦ rw (same, unlink_from) (splice-Unlinked kept l prev s ws d e c' m.1 last)
        | inr other ↦
            let again = append_assoc kept (s ∷ []) l in
            let rest =
              unlink_from-Unlinked fuel (kept ++ s ∷ []) l (ws.nodes s).next (some s) a ws
                (subst Distinct (sym again) d) (get_last?-append kept s)
                (Segment-join (links ws) ws.head (some s) (ws.nodes s).next kept (s ∷ []) c'
                  (refl, refl))
                m.1 (last ∙ ap get_last? (sym again)) (omega arith) in
            rw (other, unlink_from)
              (subst (λ k. Unlinked k ws (unlink_from fuel (some s) (ws.nodes s).next a ws))
                (append_assoc kept (s ∷ []) (remove a l)) rest)
      ])

  -- The awaiter `a` is out, and the others stay linked in their order.
  pub unlink_waiter-IsWaiters :
      (fuel a : ℕ) {ws : Waiters X} {l : List ℕ}
      → IsWaiters ws l
      → length l < fuel
      → IsWaiters (unlink_waiter fuel a ws) (remove a l)
        × (((unlink_waiter fuel a ws).nodes a).linked ≡ false)
        × SamePayloads ws (unlink_waiter fuel a ws)
  unfolding unlink_waiter
  unlink_waiter-IsWaiters fuel a {ws} {l} v h =
      let d = IsWaiters-Distinct v in
      let k = unlink_from-Unlinked fuel [] l ws.head none a ws d refl refl v.chain v.last h in
      let u = unlink_from fuel none ws.head a ws in
      let gone = count-remove_self a l (d a) in
      let w : Awaiter X = record (u.nodes a) { next = none; linked = false } in
      (
        record {
          chain =
              Segment-frame (links u) (links (put_node a w u)) u.head (remove a l) none
                (λ i m. ground (arith, gone)) k.chain;
          last = k.last;
          member = λ i. elim (ℕ_discrete i a) [
            | yes q ↦ rw q (ground (arith, gone))
            | no q ↦ count-remove a i l q ∙ v.member i ∙ ground (arith, k.linked i, q)
          ];
        },
        ground arith,
        λ i. put_node-SamePayloads u a w refl i ∙ k.payloads i,
      )

  detach-false :
      (fuel : ℕ) (p : Option ℕ) (l : List ℕ) (ws : Waiters X)
      → Segment (links ws) p l none
      → length l < fuel
      → (i : ℕ)
      → ((detach fuel p ws).nodes i).linked
        ≡ (if count i l == 0 then (ws.nodes i).linked else false)
  unfolding detach
  detach-false zero p l ws c h i = elim h [ ]
  detach-false (suc fuel) p [] ws c h i = rw c refl
  detach-false (suc fuel) p (s ∷ l) ws c h i =
      let u = set_linked s false ws in
      rw (c.0, detach)
        (detach-false fuel (links u s) l u
            (Segment-frame (links ws) (links u) (links u s) l none (λ j m. ground arith)
              (subst (λ o. Segment (links ws) o l none) (ground arith) c.1))
            (omega arith) i
          ∙ ground arith)

  -- No awaiter stays linked.
  pub detach-all :
      (fuel : ℕ) {ws : Waiters X} {l : List ℕ}
      → IsWaiters ws l
      → length l < fuel
      → (i : ℕ) → ((detach fuel ws.head ws).nodes i).linked ≡ false
  detach-all fuel {ws} {l} v h i =
      detach-false fuel ws.head l ws v.chain h i ∙ ground (arith, v.member i)
