-- ===== src/Common/Bytes.antt =====
-- `to_be_bytes` and `from_be_bytes`, at every width.
use idnx.Common.{
  ℕ, zero, suc, ◌+◌, ◌*◌, ◌/◌, ◌%◌, ◌^◌, ◌<◌, ◌≡◌, refl, ap, List, [], ◌∷◌, ◌++◌, arith, length,
  length-append, All, ◌≤◌,
}
use native.Mathlib.Nat.{pow-suc, mul-le-mul_right}

-- The bytes of `n` at a width in bytes, most significant first.
unfoldable pub to_be_bytes : ℕ → ℕ → List ℕ
to_be_bytes zero n = []
to_be_bytes (suc w) n = to_be_bytes w (n / 256) ++ (n % 256 ∷ [])

-- The number that bytes stand for, most significant first, after those of `acc`.
unfoldable pub from_be_bytes_on : ℕ → List ℕ → ℕ
from_be_bytes_on acc [] = acc
from_be_bytes_on acc (b ∷ bs) = from_be_bytes_on (acc * 256 + b) bs

unfoldable pub from_be_bytes : List ℕ → ℕ
unfolding from_be_bytes_on
from_be_bytes = from_be_bytes_on 0

pub length-to_be_bytes : (w n : ℕ) → length (to_be_bytes w n) ≡ w
unfolding to_be_bytes
length-to_be_bytes zero n = refl
length-to_be_bytes (suc w) n =
    omega (
      arith,
      length-append (to_be_bytes w (n / 256)) (n % 256 ∷ []),
      length-to_be_bytes w (n / 256),
    )

-- Two appends agree part by part where their first parts are of one length.
pub append_inj {ℓ} :
    {A : Type ℓ} (xs ys us vs : List A)
    → length xs ≡ length ys
    → xs ++ us ≡ ys ++ vs
    → (xs ≡ ys) × (us ≡ vs)
append_inj [] [] us vs h e = (refl, e)
append_inj (x ∷ xs) (y ∷ ys) us vs h e = ground (arith, append_inj xs ys us vs)
append_inj [] (y ∷ ys) us vs h e = absurd (omega arith)
append_inj (x ∷ xs) [] us vs h e = absurd (omega arith)

pub to_be_bytes_inj :
    (w n m : ℕ) → n < 256 ^ w → m < 256 ^ w → to_be_bytes w n ≡ to_be_bytes w m → n ≡ m
unfolding to_be_bytes
to_be_bytes_inj zero n m hn hm e = omega arith
to_be_bytes_inj (suc w) n m hn hm e =
    let (high, low) =
      append_inj (to_be_bytes w (n / 256)) (to_be_bytes w (m / 256)) (n % 256 ∷ []) (m % 256 ∷ [])
        (omega (arith, length-to_be_bytes w (n / 256), length-to_be_bytes w (m / 256))) e in
    let low_digit : n % 256 ≡ m % 256 = cc in
    let rest : n / 256 ≡ m / 256 =
      to_be_bytes_inj w (n / 256) (m / 256) (omega (arith, pow-suc 256 w))
        (omega (arith, pow-suc 256 w)) high in
    omega arith

-- A number at a fixed width, and what follows it, are read back from the bytes.
pub word_inj :
    (w n m : ℕ) (us vs : List ℕ)
    → n < 256 ^ w
    → m < 256 ^ w
    → to_be_bytes w n ++ us ≡ to_be_bytes w m ++ vs
    → (n ≡ m) × (us ≡ vs)
word_inj w n m us vs hn hm e =
    let (digits, rest) =
      append_inj (to_be_bytes w n) (to_be_bytes w m) us vs
        (omega (arith, length-to_be_bytes w n, length-to_be_bytes w m)) e in
    (to_be_bytes_inj w n m hn hm digits, rest)

times_pow : (a k : ℕ) → a * 256 ^ suc k ≡ 256 * (a * 256 ^ k)
times_pow a k = omega (arith, ap (λ (x : ℕ). a * x) (pow-suc 256 k))

le_times_pow : (a k : ℕ) → a ≤ a * 256 ^ k
le_times_pow a zero = omega arith
le_times_pow a (suc k) = omega (arith, times_pow a k, le_times_pow a k)

pow-pos : (k : ℕ) → 0 < 256 ^ k
pow-pos zero = omega arith
pow-pos (suc k) = omega (arith, pow-suc 256 k, pow-pos k)

-- One more byte is room for 256 times as many numbers.
next_byte : (acc b k : ℕ) → b < 256 → (acc * 256 + b + 1) * 256 ^ k ≤ (acc + 1) * 256 ^ suc k
next_byte acc b k h = rw pow-suc (
    let room : (acc * 256 + b + 1) * 256 ^ k ≤ ((acc + 1) * 256) * 256 ^ k =
      mul-le-mul_right (256 ^ k) (omega arith) in
    omega (arith, room))

from_be_bytes_on-lt :
    (bs : List ℕ) (acc k : ℕ)
    → All (λ b. b < 256) bs
    → length bs ≤ k
    → from_be_bytes_on acc bs < (acc + 1) * 256 ^ k
unfolding from_be_bytes_on
from_be_bytes_on-lt [] acc k h le = omega (arith, le_times_pow (acc + 1) k)
from_be_bytes_on-lt (b ∷ bs) acc zero h le = absurd (omega arith)
from_be_bytes_on-lt (b ∷ bs) acc (suc k) h le =
    omega (arith, from_be_bytes_on-lt bs (acc * 256 + b) k h.1 (omega arith), next_byte acc b k h.0)

-- At most `k` bytes stand for a number below 256 ^ k.
pub from_be_bytes-lt :
    (bs : List ℕ) (k : ℕ) → All (λ b. b < 256) bs → length bs ≤ k → from_be_bytes bs < 256 ^ k
unfolding from_be_bytes
from_be_bytes-lt bs k h le = omega (arith, from_be_bytes_on-lt bs 0 k h le)

from_be_bytes_on-append :
    (acc : ℕ) (xs ys : List ℕ)
    → from_be_bytes_on acc (xs ++ ys) ≡ from_be_bytes_on (from_be_bytes_on acc xs) ys
unfolding from_be_bytes_on
from_be_bytes_on-append acc [] ys = refl
from_be_bytes_on-append acc (x ∷ xs) ys = from_be_bytes_on-append (acc * 256 + x) xs ys

-- A number below 256 ^ w is read back from its bytes at the width w.
pub from_be_bytes-to_be_bytes : (w n : ℕ) → n < 256 ^ w → from_be_bytes (to_be_bytes w n) ≡ n
unfolding from_be_bytes from_be_bytes_on to_be_bytes
from_be_bytes-to_be_bytes zero n h = omega arith
from_be_bytes-to_be_bytes (suc w) n h =
    rw
      (
        from_be_bytes_on-append 0 (to_be_bytes w (n / 256)) (n % 256 ∷ []),
        from_be_bytes-to_be_bytes w (n / 256) (omega (arith, pow-suc 256 w)),
      )
      (omega arith)
