-- ===== src/Federation/Wire/Names/Sound.antt =====
-- Writing and reading the names of src/federation/wire.rs.
use idnx.Common.{Text, bytes, text_eq, ◌≡◌, refl, ◌⊎◌, inl, inr, Option, none, some, arith}
use idnx.Topology.Names.{Confidence, EvidenceSource, Capability, RoleSignal}
use idnx.Federation.Wire.Errors.{ok, ok_or-eq-ok}
use idnx.Federation.Wire.Names.{
  eq_of_name_match, confidence_wire, source_wire, capability_wire, role_signal_wire,
}
use idnx.Federation.Wire.Names.Reading.{
  confidences, sources, capabilities, protocol_from_wire, confidence_from_wire, source_from_wire,
  capability_from_wire, label_from_wire, role_signal_from_wire,
}

-- The protocols and the labels that this build holds as static strings.
abbrev pub IsKnownProtocol : Text → Type 0
IsKnownProtocol p = (p ≡ bytes "tcp") ⊎ (p ≡ bytes "udp")

abbrev pub IsKnownLabel : Text → Type 0
IsKnownLabel l =
    (l ≡ bytes "Router") ⊎ (l ≡ bytes "Bridge") ⊎ (l ≡ bytes "Switch") ⊎ (l ≡ bytes "WLAN AP")

abbrev pub HasKnownLabel : RoleSignal → Type 0
HasKnownLabel (RoleSignal.link_layer_capability label) = IsKnownLabel label
HasKnownLabel _ = Unit

module _ (debug : Text → Text) where
  pub protocol_from_wire-IsKnownProtocol :
      (p : Text) → IsKnownProtocol p → protocol_from_wire debug p ≡ ok p
  unfolding protocol_from_wire text_eq
  protocol_from_wire-IsKnownProtocol p (inl e) = rw e
  protocol_from_wire-IsKnownProtocol p (inr e) = rw e

  pub IsKnownProtocol-protocol_from_wire :
      (t p : Text) → protocol_from_wire debug t ≡ ok p → IsKnownProtocol p
  unfolding protocol_from_wire
  IsKnownProtocol-protocol_from_wire t p h = ground arith

  pub source_wire-source_from_wire :
      (t : Text) (s : EvidenceSource) → source_from_wire debug t ≡ ok s → source_wire s ≡ t
  unfolding source_from_wire
  source_wire-source_from_wire t s h = eq_of_name_match source_wire sources t s (ok_or-eq-ok _ _ h)

  pub capability_wire-capability_from_wire :
      (t : Text) (c : Capability) → capability_from_wire debug t ≡ ok c → capability_wire c ≡ t
  unfolding capability_from_wire
  capability_wire-capability_from_wire t c h =
      eq_of_name_match capability_wire capabilities t c (ok_or-eq-ok _ _ h)

  pub confidence_wire-confidence_from_wire :
      (t : Text) (c : Confidence) → confidence_from_wire debug t ≡ ok c → confidence_wire c ≡ t
  unfolding confidence_from_wire
  confidence_wire-confidence_from_wire t c h =
      eq_of_name_match confidence_wire confidences t c (ok_or-eq-ok _ _ h)

  pub role_signal_from_wire-role_signal_wire :
      (s : RoleSignal)
      → HasKnownLabel s
      → role_signal_from_wire debug (role_signal_wire s).0 (role_signal_wire s).1 ≡ ok s
  unfolding role_signal_from_wire text_eq
  role_signal_from_wire-role_signal_wire (RoleSignal.link_layer_capability label) (inl e) = rw e
  role_signal_from_wire-role_signal_wire (RoleSignal.link_layer_capability label) (inr (inl e)) =
      rw e
  role_signal_from_wire-role_signal_wire (RoleSignal.link_layer_capability label)
        (inr (inr (inl e))) =
      rw e
  role_signal_from_wire-role_signal_wire (RoleSignal.link_layer_capability label)
        (inr (inr (inr e))) =
      rw e
  role_signal_from_wire-role_signal_wire _ h = refl

  label_from_wire-HasKnownLabel :
      (l : Option Text) (s : RoleSignal) → label_from_wire debug l ≡ ok s → HasKnownLabel s
  unfolding label_from_wire
  label_from_wire-HasKnownLabel none s h = cc
  label_from_wire-HasKnownLabel (some l) (RoleSignal.link_layer_capability m) h = ground arith
  label_from_wire-HasKnownLabel (some l) _ h = tt

  pub role_signal_from_wire-HasKnownLabel :
      (t : Text) (l : Option Text) (s : RoleSignal)
      → role_signal_from_wire debug t l ≡ ok s
      → HasKnownLabel s
  unfolding role_signal_from_wire
  role_signal_from_wire-HasKnownLabel t l (RoleSignal.link_layer_capability m) h =
      ground (arith, label_from_wire-HasKnownLabel l (RoleSignal.link_layer_capability m))
  role_signal_from_wire-HasKnownLabel t l _ h = tt
