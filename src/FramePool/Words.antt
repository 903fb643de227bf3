-- ===== src/FramePool/Words.antt =====
-- The rounding and the padding of detail/frame_pool.h, and the arenas on which they are exact.
use Prim.Native.Nat.{bit_and, ◌∣◌}
use native.Mathlib.Nat.{
  le_of_dvd, dvd-mul_right, dvd-sub, dvd-add, dvd_refl, pow-le-pow_right, one-le-pow, mod-add-div,
  mod-lt, mod-eq_of_lt, mod_self,
}
use native.Mathlib.Decide.{ℕ_discrete, dec_lt}
use simple_await.Base.{
  ℕ, ◌+◌, ◌-◌, ◌*◌, ◌/◌, ◌%◌, ◌^◌, ◌≤◌, ◌<◌, ◌≡◌, sym, ◌∙◌, ap, subst, arith, true, if◌then◌else◌,
  ltb,
}
use simple_await.FramePool.{
  Arena, word, round_up, align_padding, is_power_of_two, header_slot, usable, payload_offset_at,
}
use simple_await.FramePool.Bits.{bit_and-high_mask, bit_and-low_mask, power_of_two}

-- An arena in memory: its storage is aligned, starts behind address zero and ends below 2 ^ 32, and has
-- room for a header and an aligned payload.
pub record IsArena (a : Arena) : Type 0 where
  pub power : ℕ
  pub align_eq : a.align ≡ 2 ^ power
  pub placed : 0 < a.base
  pub aligned : a.align ∣ a.base
  pub ends : a.base + a.bytes < 2 ^ 32
  pub header : 0 < a.header_bytes
  pub slot : a.header_bytes + a.align ≤ 2 ^ 31
  pub capacity : header_slot a + a.align ≤ a.bytes

-- What rounding `v` up to a multiple of `b` gives.
pub record Rounded (v b r : ℕ) : Type 0 where
  pub divides : b ∣ r
  pub above : v ≤ r
  pub close : r < v + b

power_bound : (k : ℕ) → 2 ^ k < 2 ^ 32 → k ≤ 32
power_bound k h = elim (dec_lt 32 k) [
  | yes l ↦ absurd (
      omega (
        arith,
        pow-le-pow_right (let two : 0 < 2 = omega arith in two) (let e : 32 ≤ k = omega arith in e),
      ))
  | no l ↦ omega arith
]

below_top : (k : ℕ) → 2 ^ k < 2 ^ 32 → 2 ^ k ≤ 2 ^ 31
below_top k h = elim (dec_lt 31 k) [
  | yes l ↦ absurd (
      omega (
        arith,
        pow-le-pow_right (let two : 0 < 2 = omega arith in two) (let e : 32 ≤ k = omega arith in e),
      ))
  | no l ↦
      pow-le-pow_right (let two : 0 < 2 = omega arith in two) (let e : k ≤ 31 = omega arith in e)
]

cleared :
    (k v : ℕ)
    → 2 ^ k < 2 ^ 32
    → v + 2 ^ k ≤ 2 ^ 32
    → Rounded v (2 ^ k) (2 ^ k * ((v + (2 ^ k - 1)) / 2 ^ k))
cleared k v h l =
    let p : 0 < 2 ^ k = one-le-pow k 2 (omega arith) in
    let x : ℕ = v + (2 ^ k - 1) in
    record {
      divides = dvd-mul_right (2 ^ k) (x / 2 ^ k);
      above = omega (arith, mod-add-div x (2 ^ k), mod-lt x p);
      close = omega (arith, mod-add-div x (2 ^ k), mod-lt x p);
    }

pub round_up-Rounded :
    (k v : ℕ) → 2 ^ k < 2 ^ 32 → v + 2 ^ k ≤ 2 ^ 32 → Rounded v (2 ^ k) (round_up v (2 ^ k))
unfolding round_up
round_up-Rounded k v h l =
    let p : 0 < 2 ^ k = one-le-pow k 2 (omega arith) in
    let small : v + (2 ^ k - 1) < 2 ^ 32 = omega (arith, p) in
    rw (mod-eq_of_lt small, bit_and-high_mask k (v + (2 ^ k - 1)) (power_bound k h) small)
      (cleared k v h l)

-- The result is no larger than any multiple above `v`.
pub Rounded-le : {v b r : ℕ} → Rounded v b r → (m : ℕ) → b ∣ m → v ≤ m → r ≤ m
Rounded-le {v} {b} {r} e m d l = elim (dec_lt m r) [
  | yes g ↦
      absurd (
        omega (arith, e.close, le_of_dvd {m = b} {n = r - m} (omega arith) (dvd-sub b e.divides d)))
  | no g ↦ omega arith
]

padding_value :
    (k addr : ℕ) → 2 ^ k < 2 ^ 32 → align_padding addr (2 ^ k) ≡ (2 ^ k - addr % 2 ^ k) % 2 ^ k
unfolding align_padding
padding_value k addr h =
    let r : addr % 2 ^ k < 2 ^ k = mod-lt addr (one-le-pow k 2 (omega arith)) in
    let w : (2 ^ k + 2 ^ 32 - addr % 2 ^ k) % 2 ^ 32 ≡ 2 ^ k - addr % 2 ^ k = omega (arith, r) in
    rw (bit_and-low_mask k addr, w) (bit_and-low_mask k (2 ^ k - addr % 2 ^ k))

-- The padding brings an address up to the next multiple of a power of two.
pub padding_lem :
    (k addr : ℕ)
    → 2 ^ k < 2 ^ 32
    → (align_padding addr (2 ^ k) < 2 ^ k) × (2 ^ k ∣ addr + align_padding addr (2 ^ k))
padding_lem k addr h =
    let p : 0 < 2 ^ k = one-le-pow k 2 (omega arith) in
    let r : addr % 2 ^ k < 2 ^ k = mod-lt addr p in
    let q : ℕ = addr / 2 ^ k in
    elim (ℕ_discrete (addr % 2 ^ k) 0) [
      | yes z ↦
          let e : align_padding addr (2 ^ k) ≡ 0 =
            padding_value k addr h
            ∙ ap (λ (t : ℕ). t % 2 ^ k) (let f : 2 ^ k - addr % 2 ^ k ≡ 2 ^ k = omega arith in f)
            ∙ mod_self (2 ^ k) in
          let t : addr + align_padding addr (2 ^ k) ≡ 2 ^ k * q =
            omega (arith, e, mod-add-div addr (2 ^ k)) in
          (omega (arith, e, p), subst (λ x. 2 ^ k ∣ x) (sym t) (dvd-mul_right (2 ^ k) q))
      | no nz ↦
          let e : align_padding addr (2 ^ k) ≡ 2 ^ k - addr % 2 ^ k =
            padding_value k addr h ∙ mod-eq_of_lt (omega (arith, r)) in
          let t : addr + align_padding addr (2 ^ k) ≡ 2 ^ k * (q + 1) =
            omega (arith, e, mod-add-div addr (2 ^ k), r) in
          (omega (arith, e, r, nz), subst (λ x. 2 ^ k ∣ x) (sym t) (dvd-mul_right (2 ^ k) (q + 1)))
    ]

module _ {a : Arena} (v : IsArena a) where
  pub align_bounds : (0 < a.align) × (a.align ≤ a.base) × (a.align ≤ 2 ^ 31)
  align_bounds = (
    rw v.align_eq (one-le-pow v.power 2 (omega arith)),
    le_of_dvd v.placed v.aligned,
    omega (arith, v.slot),
  )

  pub header_slot-Rounded : Rounded a.header_bytes a.align (header_slot a)
  unfolding header_slot round_up
  header_slot-Rounded =
      let small : 2 ^ v.power < 2 ^ 32 = omega (arith, v.align_eq, v.slot) in
      let r =
        subst (λ x. Rounded a.header_bytes x (round_up a.header_bytes x)) (sym v.align_eq)
          (round_up-Rounded v.power a.header_bytes small (omega (arith, v.align_eq, v.slot))) in
      let e : a.header_bytes + (a.align - 1) ≡ a.header_bytes + a.align - 1 =
        omega (arith, align_bounds) in
      subst (λ x. Rounded a.header_bytes a.align (bit_and (word x) (2 ^ 32 - a.align))) e r

  pub usable_lem :
      (a.align ∣ usable a) × (usable a ≤ a.bytes) × (header_slot a + a.align ≤ usable a)
  unfolding usable
  usable_lem =
      let u : ℕ = a.bytes - a.bytes % a.align in
      let e : a.align * (a.bytes / a.align) ≡ u = omega (arith, mod-add-div a.bytes a.align) in
      let d : a.align ∣ u =
        subst (λ x. a.align ∣ x) e (dvd-mul_right a.align (a.bytes / a.align)) in
      (
        d,
        omega arith,
        elim (dec_lt u (header_slot a + a.align)) [
          | yes g ↦ absurd (
              omega (
                arith,
                le_of_dvd {m = a.align} {n = header_slot a + a.align - u} (omega arith) (
                    dvd-sub a.align (dvd-add a.align header_slot-Rounded.divides (dvd_refl a.align))
                      d),
                mod-lt a.bytes align_bounds.0,
                mod-add-div a.bytes a.align,
                e,
                v.capacity,
              ))
          | no g ↦ omega arith
        ],
      )

  -- Rounding a size within the arena.
  pub needed-Rounded : (n : ℕ) → n ≤ usable a → Rounded n a.align (round_up n a.align)
  needed-Rounded n l =
      subst (λ x. Rounded n x (round_up n x)) (sym v.align_eq)
        (round_up-Rounded v.power n (omega (arith, v.align_eq, v.slot))
          (omega (arith, v.align_eq, align_bounds, usable_lem.1, v.ends)))

-- The alignment that `allocate` works with.
abbrev pub real_align : Arena → ℕ → ℕ
real_align a align = if ltb align a.align then a.align else align

-- Where the payload of a block at `off` lies.
pub record Payload (a : Arena) (align off offset : ℕ) : Type 0 where
  pub behind : header_slot a ≤ offset
  pub aligned : align ∣ a.base + off + offset

-- The padding of an address below 2 ^ 32.
padded :
    (k h start : ℕ)
    → 2 ^ k < 2 ^ 32
    → h ≤ 2 ^ 31
    → start + h < 2 ^ 32
    → let offset = word (h + align_padding (word (start + h)) (2 ^ k)) in
      (h ≤ offset) × (2 ^ k ∣ start + offset)
padded k h start small low fits =
    let l = padding_lem k (start + h) small in
    let b : 2 ^ k ≤ 2 ^ 31 = below_top k small in
    let addr : word (start + h) ≡ start + h = omega arith in
    let whole : word (h + align_padding (start + h) (2 ^ k))
        ≡ h + align_padding (start + h) (2 ^ k) =
      omega (arith, l.0, b) in
    rw (addr, whole) (omega arith, subst (λ x. 2 ^ k ∣ x) (omega arith) l.1)

-- A payload begins behind the header, at an address of the alignment.
pub payload_offset_at-Payload :
    {a : Arena} (v : IsArena a) (align off : ℕ)
    → is_power_of_two align ≡ true
    → align < 2 ^ 32
    → off + header_slot a ≤ usable a
    → Payload a align off (payload_offset_at a align off)
unfolding payload_offset_at is_power_of_two
payload_offset_at-Payload {a} v align off test small room =
    let (k, e) = power_of_two align (ground (arith, test)) (ground (arith, test)) in
    let h = header_slot-Rounded v in
    let start : word (a.base + off) ≡ a.base + off = omega (arith, usable_lem v, v.ends) in
    let r =
      padded k (header_slot a) (a.base + off) (omega (arith, e)) (omega (arith, h.close, v.slot))
        (omega (arith, usable_lem v, v.ends)) in
    rw (e, start) (record { behind = r.0; aligned = r.1 })
