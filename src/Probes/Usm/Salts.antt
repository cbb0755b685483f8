-- ===== src/Probes/Usm/Salts.antt =====
-- Runs of `SaltSource::take_salt` (src/probes/usm.rs) and of `ResyncBudget::spend`
-- (src/probes/usm_state.rs).
use idnx.Common.{
  ℕ, zero, suc, ◌+◌, ◌-◌, ◌%◌, ◌^◌, ◌≤◌, ◌<◌, ◌≡◌, ◌≢◌, inl, inr, refl, Option, none, some, Bool,
  true, false, List, [], ◌∷◌, arith, All, All-map, Distinct, ap, ◌∙◌, Bool-cases, Option-cases,
  ◌==◌, if◌then◌else◌,
}
use idnx.Common.Bytes.{to_be_bytes, to_be_bytes_inj}
use idnx.Probes.Usm.{SaltSource, take_salt, ResyncBudget, spend}

infixl 5 ◌>>=◌
abbrev ◌>>=◌ {ℓ κ} : {A : Type ℓ} {B : Type κ} → Option A → (A → Option B) → Option B
none >>= f = none
some a >>= f = f a

-- The salts of the next `n` messages; `none` if the sequence runs out.
unfoldable pub take_salts : ℕ → SaltSource → Option (List (List ℕ))
take_salts zero s = some []
take_salts (suc n) s = do (salt, s') ← take_salt s; salts ← take_salts n s'; some (salt ∷ salts)

-- The salt of one of the next `n` messages.
abbrev IsLater : ℕ → SaltSource → List ℕ → Type 0
IsLater n s salt = (k : ℕ) × (1 ≤ k) × (k ≤ n) × (salt ≡ to_be_bytes 8 ((s.counter + k) % 2 ^ 64))

take_salt_lem :
    (s : SaltSource)
    → take_salt s ≡ (
        if s.issued == 2 ^ 64 - 1
        then none
        else some (
          to_be_bytes 8 ((s.counter + 1) % 2 ^ 64),
          record { counter = (s.counter + 1) % 2 ^ 64; issued = s.issued + 1 },
        ))
unfolding take_salt
take_salt_lem s = refl

abbrev next_of : SaltSource → SaltSource
next_of s = record { counter = (s.counter + 1) % 2 ^ 64; issued = s.issued + 1 }

abbrev salt_of : SaltSource → List ℕ
salt_of s = to_be_bytes 8 ((s.counter + 1) % 2 ^ 64)

IsLater-next :
    (n : ℕ) (s : SaltSource) (salt : List ℕ) → IsLater n (next_of s) salt → IsLater (suc n) s salt
IsLater-next n s salt (k, low, high, e) =
    let same : ((s.counter + 1) % 2 ^ 64 + k) % 2 ^ 64 ≡ (s.counter + (k + 1)) % 2 ^ 64 =
      omega arith in
    (k + 1, omega arith, omega arith, rw same at e)

IsLater-ne :
    (n : ℕ) (s : SaltSource) (salt : List ℕ)
    → n ≤ 2 ^ 64 - 2
    → IsLater n (next_of s) salt
    → salt_of s ≢ salt
IsLater-ne n s salt few (k, low, high, e) same =
    let number : (s.counter + 1) % 2 ^ 64 ≡ ((s.counter + 1) % 2 ^ 64 + k) % 2 ^ 64 =
      to_be_bytes_inj 8 _ _ (omega arith) (omega arith) (same ∙ e) in
    absurd (omega arith)

-- The salts are later ones of the source, distinct, and no more than the sequence has left.
abbrev AreSalts : ℕ → SaltSource → Option (List (List ℕ)) → Type 0
AreSalts n s none = Unit
AreSalts n s (some salts) = All (IsLater n s) salts × Distinct salts × (n + s.issued ≤ 2 ^ 64 - 1)

take_salts-AreSalts :
    (n : ℕ) (s : SaltSource) → s.issued ≤ 2 ^ 64 - 1 → AreSalts n s (take_salts n s)
unfolding take_salts
take_salts-AreSalts zero s h = (tt, tt, omega arith)
take_salts-AreSalts (suc n) s h = elim (Bool-cases (s.issued == 2 ^ 64 - 1)) [
  | inl used ↦ rw (take_salt_lem s, used) tt
  | inr left ↦
      rw (take_salt_lem s, left)
        (elim (Option-cases (take_salts n (next_of s))) [
          | inl e ↦ rw e tt
          | inr (salts, e) ↦ rw e (
              extend n s salts (ground arith)
                (rw e at (take_salts-AreSalts n (next_of s) (ground arith))))
        ])
]
  where
    extend :
        (n : ℕ) (s : SaltSource) (salts : List (List ℕ))
        → s.issued + 1 ≤ 2 ^ 64 - 1
        → AreSalts n (next_of s) (some salts)
        → AreSalts (suc n) s (some (salt_of s ∷ salts))
    extend n s salts room (laters, distinct, fits) = (
      (
        (1, omega arith, omega arith, refl),
        All-map (IsLater n (next_of s)) (IsLater (suc n) s) salts (IsLater-next n s) laters,
      ),
      (
        All-map (IsLater n (next_of s)) (λ y. salt_of s ≢ y) salts
            (λ y. IsLater-ne n s y (omega arith)) laters,
        distinct,
      ),
      omega arith,
    )

-- However many salts a source is asked for, those that it issues are pairwise different, if it issues
-- them all and its count of issued salts was in a `u64`.
pub take_salts-Distinct :
    (n : ℕ) (s : SaltSource) (salts : List (List ℕ))
    → s.issued < 2 ^ 64
    → take_salts n s ≡ some salts
    → Distinct salts
take_salts-Distinct n s salts h e = (rw e at (take_salts-AreSalts n s (omega arith))).1

-- Of any number of attempts to spend a resynchronisation budget.
unfoldable pub spends : ℕ → ResyncBudget → List Bool
spends zero b = []
spends (suc n) b = let (allowed, b') = spend b in allowed ∷ spends n b'

abbrev pub refusals : ℕ → List Bool
refusals zero = []
refusals (suc n) = false ∷ refusals n

spends-spent : (n : ℕ) → spends n (record { spent = true }) ≡ refusals n
unfolding spends spend
spends-spent zero = refl
spends-spent (suc n) = ap (λ (bs : List Bool). false ∷ bs) (spends-spent n)

-- A fresh budget allows the first attempt and refuses every later one.
pub spends_once : (n : ℕ) → spends (suc n) (record { spent = false }) ≡ true ∷ refusals n
unfolding spends spend
spends_once n = ap (λ (bs : List Bool). true ∷ bs) (spends-spent n)
