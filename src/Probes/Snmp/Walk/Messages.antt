-- ===== src/Probes/Snmp/Walk/Messages.antt =====
-- What the checks of `snmp_request` in src/probes/snmp.rs let through.
use idnx.Common.{
  ℕ, ◌≡◌, ◌↔◌, refl, ap, true, ◌==◌, inl, inr, Bool-cases, List, [], ◌∷◌, length, text_eq,
  text_eq_iff, arith, if◌then◌else◌,
}
use idnx.Probes.Snmp.{Oid, BerValue, SnmpMessage, pdu_get_request, pdu_get_response}
use idnx.Probes.Snmp.Walk.{SnmpTarget, accepted, answers_about, check_varbinds, check_message}

-- The message answers the request: SNMPv2c, the community, a response, the request id; without an error
-- status it has one varbind, which a GET asked for.
pub record IsAnswer (target : SnmpTarget) (pdu_type : ℕ) (oid : Oid) (request_id : ℕ)
    (m : SnmpMessage) : Type 0 where
  pub version_is : m.version ≡ 1
  pub community_is : m.community ≡ target.community
  pub type_is : m.pdu.pdu_type ≡ pdu_get_response
  pub id_is : m.pdu.request_id ≡ request_id
  pub one : m.pdu.error_status ≡ 0 → length m.pdu.varbinds ≡ 1
  pub about :
      m.pdu.error_status ≡ 0
      → pdu_type ≡ pdu_get_request
      → (value : BerValue) × (m.pdu.varbinds ≡ (oid, value) ∷ [])

single_about :
    (oid : Oid) (vs : List (Oid × BerValue))
    → length vs ≡ 1
    → answers_about oid vs ≡ true
    → (value : BerValue) × (vs ≡ (oid, value) ∷ [])
unfolding answers_about
single_about oid [] h k = absurd (omega arith)
single_about oid ((found, value) ∷ []) h k =
    (value, ap (λ (o : Oid). (o, value) ∷ []) ((text_eq_iff found oid).0 k))
single_about oid (v ∷ w ∷ vs) h k = absurd (omega arith)

about_single : (oid : Oid) (value : BerValue) → answers_about oid ((oid, value) ∷ []) ≡ true
unfolding answers_about
about_single oid value = (text_eq_iff oid oid).1 refl

-- The two halves of the checks on the varbinds.
passed :
    (pdu_type : ℕ) (oid : Oid) (m m' : SnmpMessage)
    → check_varbinds pdu_type oid m ≡ accepted m'
    → (m ≡ m')
      × (length m.pdu.varbinds ≡ 1)
      × (pdu_type ≡ pdu_get_request → answers_about oid m.pdu.varbinds ≡ true)
unfolding check_varbinds
passed pdu_type oid m m' h = ground arith

passes :
    (pdu_type : ℕ) (oid : Oid) (m : SnmpMessage)
    → length m.pdu.varbinds ≡ 1
    → (pdu_type ≡ pdu_get_request → answers_about oid m.pdu.varbinds ≡ true)
    → check_varbinds pdu_type oid m ≡ accepted m
unfolding check_varbinds
passes pdu_type oid m one about = ground arith

last_check :
    (target : SnmpTarget) (pdu_type : ℕ) (oid : Oid) (request_id : ℕ) (m m' : SnmpMessage)
    → check_message target pdu_type oid request_id m ≡ accepted m'
    → (m.version ≡ 1)
      × (text_eq m.community target.community ≡ true)
      × (m.pdu.pdu_type ≡ pdu_get_response)
      × (m.pdu.request_id ≡ request_id)
      × ((if m.pdu.error_status == 0 then check_varbinds pdu_type oid m else accepted m)
          ≡ accepted m')
unfolding check_message
last_check target pdu_type oid request_id m m' h = ground arith

check_message-accepted :
    (target : SnmpTarget) (pdu_type : ℕ) (oid : Oid) (request_id : ℕ) (m m' : SnmpMessage)
    → check_message target pdu_type oid request_id m ≡ accepted m'
    → (m ≡ m') × IsAnswer target pdu_type oid request_id m
check_message-accepted target pdu_type oid request_id m m' h =
    let (version, community, type, id, more) = last_check target pdu_type oid request_id m m' h in
    let same = (text_eq_iff m.community target.community).0 community in
    elim (Bool-cases (m.pdu.error_status == 0)) [
      | inl fine ↦
          let (is, one, about) = passed pdu_type oid m m' (rw fine at more) in
          (
            is,
            record {
              version_is = version;
              community_is = same;
              type_is = type;
              id_is = id;
              one = λ e. one;
              about = λ e get. single_about oid m.pdu.varbinds one (about get);
            },
          )
      | inr fails ↦ (
        cc (rw fails at more),
        record {
          version_is = version;
          community_is = same;
          type_is = type;
          id_is = id;
          one = λ e. absurd (ground arith);
          about = λ e get. absurd (ground arith);
        },
      )
    ]

about_of :
    {target : SnmpTarget} {pdu_type : ℕ} {oid : Oid} {request_id : ℕ} {m : SnmpMessage}
    → IsAnswer target pdu_type oid request_id m
    → m.pdu.error_status ≡ 0
    → pdu_type ≡ pdu_get_request
    → answers_about oid m.pdu.varbinds ≡ true
about_of {oid = oid} h none' get =
    let (value, is) = h.about none' get in rw is (about_single oid value)

pub accepted-check_message :
    (target : SnmpTarget) (pdu_type : ℕ) (oid : Oid) (request_id : ℕ) (m : SnmpMessage)
    → IsAnswer target pdu_type oid request_id m
    → check_message target pdu_type oid request_id m ≡ accepted m
unfolding check_message
accepted-check_message target pdu_type oid request_id m h =
    let version : (m.version == 1) ≡ true = is_same m.version 1 h.version_is in
    let community = (text_eq_iff m.community target.community).1 h.community_is in
    let type = is_same m.pdu.pdu_type pdu_get_response h.type_is in
    let id = is_same m.pdu.request_id request_id h.id_is in
    rw (version, community, type, id)
      (elim (Bool-cases (m.pdu.error_status == 0)) [
        | inl fine ↦
            let none' : m.pdu.error_status ≡ 0 = ground arith in
            rw fine (passes pdu_type oid m (h.one none') (about_of h none'))
        | inr fails ↦ rw fails refl
      ])
  where
    is_same : (a b : ℕ) → a ≡ b → (a == b) ≡ true
    is_same a b e = ground arith

pub check_message_iff :
    (target : SnmpTarget) (pdu_type : ℕ) (oid : Oid) (request_id : ℕ) (m m' : SnmpMessage)
    → (check_message target pdu_type oid request_id m ≡ accepted m')
      ↔ ((m ≡ m') × IsAnswer target pdu_type oid request_id m')
check_message_iff target pdu_type oid request_id m m' = (
  λ h.
      let (same, is) = check_message-accepted target pdu_type oid request_id m m' h in
      (same, rw same at is),
  λ (same, is). rw same (accepted-check_message target pdu_type oid request_id m' is),
)
