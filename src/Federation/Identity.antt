-- ===== src/Federation/Identity.antt =====
-- src/federation/identity.rs: a peer is its Ed25519 public key, written in hex.
pub mod Hex
use idnx.Common.{
  ℕ, Text, ◌+◌, ◌-◌, ◌*◌, ◌/◌, ◌%◌, Option, none, some, Bool, true, false, ◌&&◌, List, [], ◌∷◌, leb,
  ltb, ◌==◌, if◌then◌else◌, length,
}
use mathlib.Core.Option

pub data IdentityError : Type 0 where
  malformed bad_signature : IdentityError

-- What the crate ed25519-dalek does: `verifying_key` of a secret key, `sign`, `VerifyingKey::from_bytes`
-- (whether 32 bytes are a key) and `verify` (whether 64 bytes are a signature of a message by a key).
pub record Crypto : Type 1 where
  pub SigningKey : Type 0
  pub verifying_key : SigningKey → List ℕ
  pub sign : SigningKey → List ℕ → List ℕ
  pub is_key : List ℕ → Bool
  pub checks : List ℕ → List ℕ → List ℕ → Bool

-- `PeerId`: a verifying key, by its 32 bytes.
pub record PeerId : Type 0 where
  pub key : List ℕ

-- `{:x}` of a number below 16.
unfoldable pub hex_digit : ℕ → ℕ
hex_digit n = if ltb n 10 then b'0' + n else b'a' + (n - 10)

unfoldable pub encode_hex : List ℕ → Text
unfolding hex_digit
encode_hex [] = []
encode_hex (b ∷ bs) = hex_digit (b / 16) ∷ hex_digit (b % 16) ∷ encode_hex bs

unfoldable pub nibble : ℕ → Option ℕ
nibble byte =
    if leb b'0' byte && leb byte b'9'
    then some (byte - b'0')
    else if leb b'a' byte && leb byte b'f'
    then some (byte - b'a' + 10)
    else if leb b'A' byte && leb byte b'F'
    then some (byte - b'A' + 10)
    else none

abbrev ◌>>=◌ {ℓ κ} : {A : Type ℓ} {B : Type κ} → Option A → (A → Option B) → Option B
none >>= f = none
some a >>= f = f a

infixl 5 ◌>>=◌
-- The pairs of bytes, each `hi << 4 | lo` of nibbles below 16; a text of odd length has none.
unfoldable pub decode_hex : Text → Option (List ℕ)
unfolding nibble
decode_hex [] = some []
decode_hex (a ∷ []) = none
decode_hex (a ∷ b ∷ rest) =
    let tail = decode_hex rest in
    do hi ← nibble a; lo ← nibble b; bs ← tail; some ((hi * 16 + lo) ∷ bs)

pub data IdResult {ℓ} (A : Type ℓ) : Type ℓ where
  ok : A → IdResult A
  err : IdentityError → IdResult A

module _ (c : Crypto) where
  open c use {is_key, checks}

  key_of_bytes : List ℕ → IdResult PeerId
  key_of_bytes bs =
      if length bs == 32 && is_key bs then ok (record { key = bs }) else err IdentityError.malformed

  -- `PeerId::from_hex`
  unfoldable pub from_hex : Text → IdResult PeerId
  unfolding key_of_bytes
  from_hex text = elim (decode_hex text) [
    | none ↦ err IdentityError.malformed
    | some bs ↦ key_of_bytes bs
  ]

  -- `PeerId::verify`
  unfoldable pub verify_signature : PeerId → List ℕ → List ℕ → IdResult (Unit {0})
  verify_signature peer message signature =
      if length signature == 64 && checks peer.key message signature
      then ok tt
      else err IdentityError.bad_signature

-- `PeerId::to_hex`
unfoldable pub to_hex : PeerId → Text
to_hex peer = encode_hex peer.key
