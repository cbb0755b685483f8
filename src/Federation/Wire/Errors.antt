-- ===== src/Federation/Wire/Errors.antt =====
-- `WireError` of src/federation/wire.rs, and how a conversion can end.
use idnx.Common.{Text, ◌≡◌, ◌≢◌, refl, Option, none, some}

pub data WireError : Type 0 where
  malformed unknown : Text → WireError

-- What a call comes to: a value, an error value, or a panic of the process.
pub data Outcome {ℓ} (A : Type ℓ) : Type ℓ where
  ok : A → Outcome A
  err : WireError → Outcome A
  panicked : Outcome A

infixl 5 ◌>>=◌
abbrev pub ◌>>=◌ {ℓ κ} : {A : Type ℓ} {B : Type κ} → Outcome A → (A → Outcome B) → Outcome B
ok a >>= f = f a
err e >>= f = err e
panicked >>= f = panicked

-- `ok_or`
abbrev pub ok_or {ℓ} : {A : Type ℓ} → Option A → WireError → Outcome A
ok_or (some a) e = ok a
ok_or none e = err e

-- `x.as_ref().map(f).transpose()`
unfoldable pub traverse {ℓ κ} :
    {A : Type ℓ} {B : Type κ} → (A → Outcome B) → Option A → Outcome (Option B)
traverse f none = ok none
traverse f (some a) = do b ← f a; ok (some b)

pub ok_or-eq-ok {ℓ} :
    {A : Type ℓ} (o : Option A) (e : WireError) {a : A} → ok_or o e ≡ ok a → o ≡ some a
ok_or-eq-ok none e h = cc
ok_or-eq-ok (some b) e h = cc

-- The call does not panic, and `P` holds of the value, if it returns one.
abbrev pub Ensures {ℓ} : {A : Type ℓ} → (A → Type 0) → Outcome A → Type 0
Ensures P (ok a) = P a
Ensures P (err e) = Unit
Ensures P panicked = ⊥

-- The call does not panic.
abbrev pub IsSafe {ℓ} : {A : Type ℓ} → Outcome A → Type 0
IsSafe m = Ensures (λ _. Unit) m

pub Ensures-bind {ℓ κ} :
    {A : Type ℓ} {B : Type κ} (P : A → Type 0) (Q : B → Type 0) (m : Outcome A) (f : A → Outcome B)
    → Ensures P m
    → ((a : A) → P a → Ensures Q (f a))
    → Ensures Q (m >>= f)
Ensures-bind P Q (ok a) f h k = k a h
Ensures-bind P Q (err e) f h k = tt
Ensures-bind P Q panicked f h k = h

pub Ensures-eq_ok {ℓ} :
    {A : Type ℓ} (P : A → Type 0) (m : Outcome A) {a : A} → Ensures P m → m ≡ ok a → P a
Ensures-eq_ok P m h e = rw e at h

pub Ensures-ne-panicked {ℓ} :
    {A : Type ℓ} (P : A → Type 0) (m : Outcome A) → Ensures P m → m ≢ panicked
Ensures-ne-panicked P m h e = rw e at h

-- Where nothing but safety is needed of the first step.
pub Ensures-skip {ℓ κ} :
    {A : Type ℓ} {B : Type κ} (Q : B → Type 0) (m : Outcome A) (f : A → Outcome B)
    → IsSafe m
    → ((a : A) → Ensures Q (f a))
    → Ensures Q (m >>= f)
Ensures-skip Q m f h k = Ensures-bind (λ _. Unit) Q m f h (λ a _. k a)

pub Ensures-of_ok {ℓ} :
    {A : Type ℓ} (P : A → Type 0) (m : Outcome A)
    → IsSafe m
    → ((a : A) → m ≡ ok a → P a)
    → Ensures P m
Ensures-of_ok P (ok a) s h = h a refl
Ensures-of_ok P (err e) s h = tt
Ensures-of_ok P panicked s h = s

pub ok_or-IsSafe {ℓ} : {A : Type ℓ} (o : Option A) (e : WireError) → IsSafe (ok_or o e)
ok_or-IsSafe none e = tt
ok_or-IsSafe (some a) e = tt
