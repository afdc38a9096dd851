-- ===== src/Api/Views.antt =====
-- What a client can read back from the view of internal/api/types.go.
use iprl_poc.Common.{
  ℕ, List, [], ◌∷◌, Option, none, some, Text, ◌≡◌, ◌≢◌, refl, ap, map, arith, ◌⊎◌, inl, inr, sym,
  ◌∙◌,
}
use mathlib.Core.Option.{some-injective}
use iprl_poc.Common.Draws.{IsAddress}
use iprl_poc.Common.Int.{ℤ}
use iprl_poc.Proto.{
  VantagePointProvider, ChangeType, JustificationType, VantagePoint, MplsLabel, MplsInfo, RttInfo,
  MdaParameters, ForwardingInfoElement,
}
use iprl_poc.Api.{
  ip_bytes_to_string, ts_to_time, provider_name, change_name, justification_name,
  vantage_point_json, rtt_json, label_json, mpls_json, mda_json, element_json, from_proto,
}

provider_name_inj : (p q : VantagePointProvider) → provider_name p ≡ provider_name q → p ≡ q
unfolding provider_name
provider_name_inj p q e = ground arith

change_name_inj : (p q : ChangeType) → change_name p ≡ change_name q → p ≡ q
unfolding change_name
change_name_inj p q e = ground arith

justification_name_inj :
    (p q : JustificationType) → justification_name p ≡ justification_name q → p ≡ q
unfolding justification_name
justification_name_inj p q e = ground arith

label_json_inj : (l k : MplsLabel) → label_json l ≡ label_json k → l ≡ k
label_json_inj l k e = ground arith

labels_inj : (ls ks : List MplsLabel) → map label_json ls ≡ map label_json ks → ls ≡ ks
labels_inj [] [] e = refl
labels_inj [] (k ∷ ks) e = ground arith
labels_inj (l ∷ ls) [] e = ground arith
labels_inj (l ∷ ls) (k ∷ ks) e = ground (arith, labels_inj ls ks)

mpls_json_inj : (a b : Option MplsInfo) → mpls_json a ≡ mpls_json b → a ≡ b
unfolding mpls_json
mpls_json_inj none none e = refl
mpls_json_inj none (some b) e = ground arith
mpls_json_inj (some a) none e = ground arith
mpls_json_inj (some a) (some b) e = ground (arith, labels_inj a.labels b.labels)

mda_json_inj : (a b : Option MdaParameters) → mda_json a ≡ mda_json b → a ≡ b
unfolding mda_json
mda_json_inj a b e = ground arith

time_inj : (s t : Option ℤ) → s ≢ none → t ≢ none → ts_to_time s ≡ ts_to_time t → s ≡ t
unfolding ts_to_time
time_inj s t h k e = ground arith

-- Round-trip times with both times set, if there are any.
abbrev pub IsTimed : Option RttInfo → Type 0
IsTimed none = Unit
IsTimed (some r) = (r.sent_at ≢ none) × (r.received_at ≢ none)

rtt_json_inj : (a b : Option RttInfo) → IsTimed a → IsTimed b → rtt_json a ≡ rtt_json b → a ≡ b
unfolding rtt_json
rtt_json_inj none none h k e = refl
rtt_json_inj none (some b) h k e = ground arith
rtt_json_inj (some a) none h k e = ground arith
rtt_json_inj (some a) (some b) h k e =
    let same = some-injective _ _ e in
    let sent = time_inj a.sent_at b.sent_at h.0 k.0 (ap (λ v. v.sent_at) same) in
    let received = time_inj a.received_at b.received_at h.1 k.1 (ap (λ v. v.received_at) same) in
    λ i. some (record { sent_at = sent i; received_at = received i })

-- No address, or four bytes.
abbrev pub IsV4 : List ℕ → Type 0
IsV4 a = (a ≡ []) ⊎ IsAddress a

-- The dotted form of four bytes is not empty and tells them.
pub record PrintsV4 (print_ip : List ℕ → Text) : Type 0 where
  pub not_empty : (a : List ℕ) → IsAddress a → print_ip a ≢ []
  pub tells : (a b : List ℕ) → IsAddress a → IsAddress b → print_ip a ≡ print_ip b → a ≡ b

-- A vantage point is there, with an address of IPv4, as are the others, and all times are set.
pub record IsComplete (e : ForwardingInfoElement) : Type 0 where
  pub vantage : VantagePoint
  pub placed : e.vantage_point ≡ some vantage
  pub public_address : IsV4 vantage.public_address
  pub near_reply_address : IsV4 e.near_reply_address
  pub far_reply_address : IsV4 e.far_reply_address
  pub destination_addr : IsV4 e.destination_addr
  pub source_addr : IsV4 e.source_addr
  pub near_rtt : IsTimed e.near_rtt
  pub far_rtt : IsTimed e.far_rtt
  pub made : e.construction_timestamp ≢ none

module _ (print_ip : List ℕ → Text) (prints : PrintsV4 print_ip) where
  address_inj :
      (a b : List ℕ)
      → IsV4 a
      → IsV4 b
      → ip_bytes_to_string print_ip a ≡ ip_bytes_to_string print_ip b
      → a ≡ b
  unfolding ip_bytes_to_string
  address_inj [] [] h k e = refl
  address_inj [] (c ∷ b) h (inl none_there) e = ground arith
  address_inj [] (c ∷ b) h (inr k) e = absurd (prints.not_empty (c ∷ b) k (sym e))
  address_inj (c ∷ a) [] (inl none_there) k e = ground arith
  address_inj (c ∷ a) [] (inr h) k e = absurd (prints.not_empty (c ∷ a) h e)
  address_inj (c ∷ a) (d ∷ b) (inl none_there) k e = absurd (ground arith)
  address_inj (c ∷ a) (d ∷ b) (inr h) (inl none_there) e = absurd (ground arith)
  address_inj (c ∷ a) (d ∷ b) (inr h) (inr k) e = prints.tells (c ∷ a) (d ∷ b) h k e

  vantage_inj :
      (a b : VantagePoint)
      → IsV4 a.public_address
      → IsV4 b.public_address
      → vantage_point_json print_ip (some a) ≡ vantage_point_json print_ip (some b)
      → a ≡ b
  unfolding vantage_point_json
  vantage_inj a b h k e =
      let address =
        address_inj a.public_address b.public_address h k (ap (λ v. v.public_address) e) in
      let provider = provider_name_inj a.provider b.provider (ap (λ v. v.provider) e) in
      λ i. record {
        name = (ap (λ v. v.name) e) i;
        public_address = address i;
        asn = (ap (λ v. v.asn) e) i;
        provider = provider i;
      }

  element_json_inj :
      (a b : ForwardingInfoElement)
      → IsComplete a
      → IsComplete b
      → element_json print_ip a ≡ element_json print_ip b
      → a ≡ b
  unfolding element_json
  element_json_inj a b h k e =
      let point : a.vantage_point ≡ b.vantage_point =
        h.placed
        ∙ ap (λ v. some v)
            (vantage_inj h.vantage k.vantage h.public_address k.public_address (
              ap (vantage_point_json print_ip) (sym h.placed)
              ∙ ap (λ v. v.vantage_point) e
              ∙ ap (vantage_point_json print_ip) k.placed))
        ∙ sym k.placed in
      let near =
        address_inj _ _ h.near_reply_address k.near_reply_address
          (ap (λ v. v.near_reply_address) e) in
      let far =
        address_inj _ _ h.far_reply_address k.far_reply_address (ap (λ v. v.far_reply_address) e) in
      let destination =
        address_inj _ _ h.destination_addr k.destination_addr (ap (λ v. v.destination_addr) e) in
      let source = address_inj _ _ h.source_addr k.source_addr (ap (λ v. v.source_addr) e) in
      let labels = mpls_json_inj a.mpls b.mpls (ap (λ v. v.mpls) e) in
      let near_times =
        rtt_json_inj a.near_rtt b.near_rtt h.near_rtt k.near_rtt (ap (λ v. v.near_rtt) e) in
      let far_times =
        rtt_json_inj a.far_rtt b.far_rtt h.far_rtt k.far_rtt (ap (λ v. v.far_rtt) e) in
      let mda = mda_json_inj a.mda b.mda (ap (λ v. v.mda) e) in
      let change = change_name_inj a.change_type b.change_type (ap (λ v. v.change_type) e) in
      let why =
        justification_name_inj a.justification_type b.justification_type
          (ap (λ v. v.justification_type) e) in
      let made =
        time_inj a.construction_timestamp b.construction_timestamp h.made k.made
          (ap (λ v. v.construction_time) e) in
      λ i. record {
        vantage_point = point i;
        flow_id = (ap (λ v. v.flow_id) e) i;
        near_ttl = (ap (λ v. v.near_ttl) e) i;
        near_reply_address = near i;
        far_reply_address = far i;
        destination_addr = destination i;
        source_addr = source i;
        mpls = labels i;
        packet_size = (ap (λ v. v.packet_size) e) i;
        near_rtt = near_times i;
        far_rtt = far_times i;
        packets_sent = (ap (λ v. v.packets_sent) e) i;
        packets_received = (ap (λ v. v.packets_received) e) i;
        mda = mda i;
        change_type = change i;
        justification_type = why i;
        construction_timestamp = made i;
      }

  -- Where four bytes are printed so that they can be told, two elements with the same view are the
  -- same, if each has a vantage point, only IPv4 addresses or none, and all its times set.
  pub from_proto_inj :
      (a b : ForwardingInfoElement)
      → IsComplete a
      → IsComplete b
      → from_proto print_ip (some a) ≡ from_proto print_ip (some b)
      → a ≡ b
  unfolding from_proto
  from_proto_inj a b h k e = element_json_inj a b h k (some-injective _ _ e)
