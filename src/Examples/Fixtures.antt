-- ===== src/Examples/Fixtures.antt =====
-- Concrete values for what the federation's definitions take as parameters, and test data.
use idnx.Common.{
  ℕ, zero, suc, ◌+◌, ◌%◌, ◌<◌, ◌≡◌, refl, true, none, some, List, [], ◌∷◌, ◌++◌, bytes, All, length,
  arith, text_eq, text_eq_refl,
}
use idnx.Topology.Names.{Confidence, EvidenceSource}
use idnx.Topology.Evidence.{SystemTime, DeviceKey, Fact}
use idnx.Federation.Identity.{Crypto}
use idnx.Federation.Wire.Convert.{Formats, IsReadable, Evidence}
use idnx.Federation.Wire.Records.{WireEvidence}
use idnx.Federation.Bundle.Signed.{IsSound}

-- Prefixes and addresses that are their own text, and a clock that ends after 10,000 seconds.
abbrev pub plain : Formats
plain = record {
  IpNet = List ℕ;
  IpAddr = List ℕ;
  show_net = λ n. n;
  parse_net = some;
  show_addr = λ a. a;
  parse_addr = some;
  debug = λ t. t;
  latest = 10_000;
}

pub plain-IsReadable : IsReadable plain
plain-IsReadable = record { net = λ n. refl; addr = λ a. refl }

abbrev pub total : List ℕ → ℕ
total [] = 0
total (b ∷ bs) = b + total bs

abbrev zeros : ℕ → List ℕ → List ℕ
zeros zero rest = rest
zeros (suc n) rest = 0 ∷ zeros n rest

-- A signature is a checksum of the key and of the message.
abbrev pub checksum : List ℕ → List ℕ → List ℕ
checksum key message = zeros 63 ((total key + total message) % 256 ∷ [])

abbrev pub toy : Crypto
toy = record {
  SigningKey = ℕ;
  verifying_key = λ k. zeros 31 (k % 256 ∷ []);
  sign = λ k message. checksum (zeros 31 (k % 256 ∷ [])) message;
  is_key = λ key. true;
  checks = λ key message signature. text_eq signature (checksum key message);
}

zeros-bytes : (n b : ℕ) → All (λ x. x < 256) (zeros n (b % 256 ∷ []))
zeros-bytes zero b = (omega arith, tt)
zeros-bytes (suc n) b = (omega arith, zeros-bytes n b)

length-zeros : (n b : ℕ) → length (zeros n (b ∷ [])) ≡ n + 1
length-zeros zero b = refl
length-zeros (suc n) b = omega (arith, length-zeros n b)

pub toy-IsSound : IsSound toy
toy-IsSound = record {
  key_size = λ k. length-zeros 31 (k % 256);
  key_bytes = λ k. zeros-bytes 31 k;
  key_valid = λ k. refl;
  signature_size = λ k m. length-zeros 63 ((total (zeros 31 (k % 256 ∷ [])) + total m) % 256);
  signature_bytes = λ k m. zeros-bytes 63 (total (zeros 31 (k % 256 ∷ [])) + total m);
  signature_checks = λ k m. text_eq_refl _;
}

-- A neighbour's hostname, seen at second 40.
abbrev pub sighting : Evidence plain
sighting = record {
  fact = Fact.device_hostname (DeviceKey.mac (bytes "aa:bb")) (bytes "printer");
  source = EvidenceSource.mdns;
  confidence = Confidence.observed;
  vantage = bytes "roof";
  observed_at = SystemTime.after_epoch 40 0;
  detail = none;
  origin = none;
}

-- A record's bytes, for signing.
abbrev pub encode : WireEvidence → List ℕ
encode w = w.source ++ w.vantage
