-- ===== src/Probes/Rip/Mask.antt =====
-- `contiguous_prefix_length` of src/probes/rip.rs, as a number of leading ones.
use Prim.Native.Nat.{◌∣◌}
use native.Mathlib.Nat.{
  pow-suc, mod-eq_of_lt, add-mul-mod_self_left, mod-eq-zero_of_dvd, dvd_of_mod-eq-zero,
  dvd_of_mul-dvd-mul_left, dvd-mul_left, div-add-mod, mod-lt, mul-one, sub-zero,
}
use idnx.Common.{
  ℕ, zero, suc, ◌+◌, ◌-◌, ◌*◌, ◌/◌, ◌%◌, ◌^◌, ◌≤◌, ◌<◌, ◌≡◌, ◌↔◌, refl, ap, ◌∙◌, Option, none, some,
  Bool, true, false, arith, ◌==◌, ◌&&◌, Bool-cases, inl, inr, ==_iff,
}
use idnx.Probes.Rip.{leading_ones, contiguous_prefix_length}

pow-pos : (k : ℕ) → 0 < 2 ^ k
pow-pos zero = omega arith
pow-pos (suc k) = omega (arith, pow-suc 2 k, pow-pos k)

-- A number with the next bit set, above its lowest bits.
mod_step : (m b : ℕ) → 0 < m → b / m % 2 ≡ 1 → b % (m * 2) ≡ m + b % m
mod_step m b pos odd =
    let t : ℕ = b / m / 2 in
    let q : b / m ≡ 2 * t + 1 = omega arith in
    let whole : b ≡ m + b % m + m * 2 * t =
      omega (arith, div-add-mod b m, ap (λ (x : ℕ). m * x) q) in
    ap (λ (x : ℕ). x % (m * 2)) whole
    ∙ add-mul-mod_self_left (m + b % m) (m * 2) t
    ∙ mod-eq_of_lt (omega (arith, mod-lt b pos))

-- `leading` ones and then zeros, in the lowest `k` bits.
abbrev AreZeros : ℕ → ℕ → ℕ → Type 0
AreZeros k b leading = (leading ≤ k) × (b % 2 ^ k + 2 ^ (k - leading) ≡ 2 ^ k)

set_step :
    (k b leading : ℕ)
    → b / 2 ^ k % 2 ≡ 1
    → (2 ^ k ∣ b * 2 ^ leading → AreZeros k b leading)
    → 2 ^ suc k ∣ b * 2 ^ suc leading
    → AreZeros (suc k) b (suc leading)
set_step k b leading odd below d =
    let twice : 2 * (b * 2 ^ leading) ≡ b * 2 ^ suc leading =
      omega (arith, ap (λ (x : ℕ). b * x) (pow-suc 2 leading)) in
    let modulus : 2 * 2 ^ k ≡ 2 ^ suc k = omega (arith, pow-suc 2 k) in
    let halved : 2 ^ k ∣ b * 2 ^ leading =
      dvd_of_mul-dvd-mul_left {k = 2} (2 ^ k) (omega arith) (rw (modulus, twice) d) in
    let (small, zeros) = below halved in
    let top : b % 2 ^ suc k ≡ 2 ^ k + b % 2 ^ k = rw pow-suc (mod_step (2 ^ k) b (pow-pos k) odd) in
    (omega arith, rw sub_sucs (omega (arith, top, modulus, zeros)))
  where
    sub_sucs : suc k - suc leading ≡ k - leading
    sub_sucs = omega arith

clear_step : (k b : ℕ) → 2 ^ k ∣ b * 2 ^ 0 → AreZeros k b 0
clear_step k b d =
    let none_left : b % 2 ^ k ≡ 0 = mod-eq-zero_of_dvd (2 ^ k) (rw mul-one at d) in
    (omega arith, rw (none_left, sub-zero) (omega arith))

leading_ones-zeros : (k b : ℕ) → 2 ^ k ∣ b * 2 ^ leading_ones k b → AreZeros k b (leading_ones k b)
unfolding leading_ones
leading_ones-zeros zero b d = omega arith
leading_ones-zeros (suc k) b d = elim (Bool-cases (b / 2 ^ k % 2 == 1)) [
  | inl set ↦
      rw set (
        set_step k b (leading_ones k b) ((==_iff _ 1).0 set) (leading_ones-zeros k b) (rw set at d))
  | inr clear ↦ rw clear (clear_step (suc k) b (rw clear at d))
]

-- The mask of a prefix length.
abbrev pub mask_of : ℕ → ℕ
mask_of n = 2 ^ 32 - 2 ^ (32 - n)

zeros-mask_of :
    (bits leading : ℕ)
    → bits < 2 ^ 32
    → AreZeros 32 bits leading
    → (leading ≤ 32) × (bits ≡ mask_of leading)
zeros-mask_of bits leading small (short, zeros) = (short, omega arith)

all_ones : (bits : ℕ) → leading_ones 32 bits ≡ 32 → AreZeros 32 bits 32
all_ones bits e = rw e at (leading_ones-zeros 32 bits (rw e (dvd-mul_left (2 ^ 32) bits)))

mask_of_length :
    (bits n : ℕ)
    → bits < 2 ^ 32
    → contiguous_prefix_length bits ≡ some n
    → (n ≤ 32) × (bits ≡ mask_of n)
unfolding contiguous_prefix_length
mask_of_length bits n small h = elim (Bool-cases (leading_ones 32 bits == 32)) [
  | inl full ↦
      let h' : some 32 ≡ some n = rw full at h in
      let n_full : 32 ≡ n = cc in
      rw (← n_full) (zeros-mask_of bits 32 small (all_ones bits ((==_iff _ 32).0 full)))
  | inr partial ↦ elim (Bool-cases (bits * 2 ^ leading_ones 32 bits % 2 ^ 32 == 0)) [
    | inl cleared ↦
        let h' : some (leading_ones 32 bits) ≡ some n = rw (partial, cleared) at h in
        let n_leading : leading_ones 32 bits ≡ n = cc in
        rw (← n_leading) (
          zeros-mask_of bits (leading_ones 32 bits) small
            (leading_ones-zeros 32 bits (dvd_of_mod-eq-zero (2 ^ 32) ((==_iff _ 0).0 cleared))))
    | inr left_over ↦ let h' : none ≡ some n = rw (partial, left_over) at h in cc
  ]
]

-- The other direction, at each of the 33 lengths.
gives : ℕ → Option ℕ → Bool
gives n none = false
gives n (some m) = m == n

all_lengths : ℕ → Bool
unfolding gives
all_lengths zero = gives 0 (contiguous_prefix_length (mask_of 0))
all_lengths (suc n) = gives (suc n) (contiguous_prefix_length (mask_of (suc n))) && all_lengths n

gives-eq : (n : ℕ) (o : Option ℕ) → gives n o ≡ true → o ≡ some n
unfolding gives
gives-eq n none h = cc
gives-eq n (some m) h = ap some ((==_iff m n).0 h)

both_of : (a b : Bool) → (a && b) ≡ true → (a ≡ true) × (b ≡ true)
both_of a b h = ground arith

all_lengths_sound :
    (k n : ℕ) → all_lengths k ≡ true → n ≤ k → contiguous_prefix_length (mask_of n) ≡ some n
unfolding all_lengths
all_lengths_sound zero n h le =
    let e : n ≡ 0 = omega arith in rw e (gives-eq 0 (contiguous_prefix_length (mask_of 0)) h)
all_lengths_sound (suc k) n h le =
    let (here, below) = both_of _ _ h in
    elim (Bool-cases (n == suc k)) [
      | inl e ↦
          rw ((==_iff n (suc k)).0 e)
            (gives-eq (suc k) (contiguous_prefix_length (mask_of (suc k))) here)
      | inr ne ↦ all_lengths_sound k n below (ground arith)
    ]

thirty_two : all_lengths 32 ≡ true
unfolding all_lengths contiguous_prefix_length leading_ones
thirty_two = refl

-- A 32-bit mask has the prefix length `n` exactly if it is `n` ones and then zeros.
pub contiguous_prefix_length_iff :
    (bits n : ℕ)
    → bits < 2 ^ 32
    → (contiguous_prefix_length bits ≡ some n) ↔ ((n ≤ 32) × (bits ≡ mask_of n))
contiguous_prefix_length_iff bits n small =
    (mask_of_length bits n small, λ h. rw h.1 (all_lengths_sound 32 n thirty_two h.0))
