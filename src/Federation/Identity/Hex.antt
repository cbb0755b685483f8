-- ===== src/Federation/Identity/Hex.antt =====
-- The hex functions of src/federation/identity.rs, and the names of peers.
use idnx.Common.{
  ℕ, Text, ◌+◌, ◌*◌, ◌/◌, ◌%◌, ◌<◌, ◌≡◌, refl, Option, none, some, List, [], ◌∷◌, arith, All,
  lower_byte, to_ascii_lowercase, ap, Option-cases, inl, inr, length, true,
}
use idnx.Federation.Identity.{
  Crypto, PeerId, hex_digit, encode_hex, nibble, decode_hex, ok, from_hex, to_hex,
}

nibble-hex_digit : (n : ℕ) → n < 16 → nibble (hex_digit n) ≡ some n
unfolding nibble hex_digit
nibble-hex_digit n h = ground arith

hex_digit-nibble : (b n : ℕ) → nibble b ≡ some n → (hex_digit n ≡ lower_byte b) × (n < 16)
unfolding nibble hex_digit lower_byte
hex_digit-nibble b n h = ground arith

-- `decode_hex` reads back the numbers below 256 that `encode_hex` wrote.
pub decode_hex-encode_hex :
    (bs : List ℕ) → All (λ b. b < 256) bs → decode_hex (encode_hex bs) ≡ some bs
unfolding decode_hex encode_hex
decode_hex-encode_hex [] h = refl
decode_hex-encode_hex (b ∷ bs) h =
    ground (arith, nibble-hex_digit (b / 16), nibble-hex_digit (b % 16), decode_hex-encode_hex bs)

abbrev IsHexOf : Text → Option (List ℕ) → Type 0
IsHexOf text none = Unit
IsHexOf text (some bs) = (encode_hex bs ≡ to_ascii_lowercase text) × All (λ b. b < 256) bs

-- One pair of digits in front of what was decoded.
IsHexOf-pair :
    (a b hi lo : ℕ) (rest : Text) (bs : List ℕ)
    → nibble a ≡ some hi
    → nibble b ≡ some lo
    → IsHexOf rest (some bs)
    → IsHexOf (a ∷ b ∷ rest) (some ((hi * 16 + lo) ∷ bs))
unfolding encode_hex to_ascii_lowercase
IsHexOf-pair a b hi lo rest bs ea eb h =
    let (digit_a, hi_small) = hex_digit-nibble a hi ea in
    let (digit_b, lo_small) = hex_digit-nibble b lo eb in
    let high : (hi * 16 + lo) / 16 ≡ hi = omega arith in
    let low : (hi * 16 + lo) % 16 ≡ lo = omega arith in
    (
      rw (high, low, digit_a, digit_b) (ap (λ (t : Text). lower_byte a ∷ lower_byte b ∷ t) h.0),
      (omega arith, h.1),
    )

decode_hex-IsHexOf : (text : Text) → IsHexOf text (decode_hex text)
unfolding decode_hex
decode_hex-IsHexOf [] = (unfold encode_hex to_ascii_lowercase in refl, tt)
decode_hex-IsHexOf (a ∷ []) = tt
decode_hex-IsHexOf (a ∷ b ∷ rest) = elim (Option-cases (nibble a)) [
  | inl ea ↦ rw ea tt
  | inr (hi, ea) ↦ rw ea (elim (Option-cases (nibble b)) [
    | inl eb ↦ rw eb tt
    | inr (lo, eb) ↦ rw eb (elim (Option-cases (decode_hex rest)) [
      | inl er ↦ rw er tt
      | inr (bs, er) ↦
          rw er (IsHexOf-pair a b hi lo rest bs ea eb (rw er at (decode_hex-IsHexOf rest)))
    ])
  ])
]

-- What `decode_hex` read is written as the text in lower case, and is bytes.
pub encode_hex-decode_hex :
    (text : Text) (bs : List ℕ)
    → decode_hex text ≡ some bs
    → (encode_hex bs ≡ to_ascii_lowercase text) × All (λ b. b < 256) bs
encode_hex-decode_hex text bs h = rw h at (decode_hex-IsHexOf text)

-- A peer that was read from hex has 32 bytes that are a key, and its hex form is the text in lower
-- case.
pub to_hex-from_hex :
    (c : Crypto) (text : Text) (peer : PeerId)
    → from_hex c text ≡ ok peer
    → (to_hex peer ≡ to_ascii_lowercase text) × (length peer.key ≡ 32) × (c.is_key peer.key ≡ true)
unfolding from_hex to_hex
to_hex-from_hex c text peer h = ground (arith, encode_hex-decode_hex text peer.key)
