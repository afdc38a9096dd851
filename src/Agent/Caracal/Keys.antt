-- ===== src/Agent/Caracal/Keys.antt =====
-- The keys of internal/components/agent/caracal_prober.go tell probes apart.
use iprl_poc.Common.{ℕ, ◌≡◌, ◌≢◌, inr, Text, arith}
use iprl_poc.Common.Int.{ℤ, pos, negsuc}
use iprl_poc.Strings.Split.{last_cut}
use iprl_poc.Strconv.Laws.{decimal-Lacks, decimal_inj}
use iprl_poc.Proto.{Protocol, dccp}
use iprl_poc.Agent.Caracal.{
  CaracalResponse, protocol_number, caracal_to_protocol, make_base_key, response_key,
}

protocol_number_inj : (p q : Protocol) → protocol_number p ≡ protocol_number q → p ≡ q
unfolding protocol_number
protocol_number_inj p q e = ground arith

-- Two probes have the same key only if destination, ports and protocol are the same, also where the
-- destination text holds colons itself, as an IPv6 address does.
pub make_base_key_inj :
    (dst dst' : Text) (src src' port port' : ℕ) (p p' : Protocol)
    → make_base_key dst src port p ≡ make_base_key dst' src' port' p'
    → (dst ≡ dst') × (src ≡ src') × (port ≡ port') × (p ≡ p')
unfolding make_base_key
make_base_key_inj dst dst' src src' port port' p p' e =
    let no_colon = λ (n : ℕ). decimal-Lacks b':' n (inr (omega arith)) in
    let (front, last) = last_cut b':' _ _ _ _ (no_colon _) (no_colon _) e in
    let (middle, third) = last_cut b':' _ _ _ _ (no_colon _) (no_colon _) front in
    let (first, second) = last_cut b':' _ _ _ _ (no_colon _) (no_colon _) middle in
    (
      first,
      decimal_inj src src' second,
      decimal_inj port port' third,
      protocol_number_inj p p' (decimal_inj _ _ last),
    )

caracal_to_protocol-ne-dccp : (n : ℤ) → caracal_to_protocol n ≢ dccp
unfolding caracal_to_protocol
caracal_to_protocol-ne-dccp (pos n) e = ground arith
caracal_to_protocol-ne-dccp (negsuc n) e = ground arith

-- No answer of the tool has the key of a DCCP directive: `PROTOCOL_DCCP` is sent as icmp, and no
-- protocol number is read back as it.
pub response_key-ne-dccp :
    (r : CaracalResponse) (dst : Text) (src port : ℕ)
    → response_key r ≢ make_base_key dst src port dccp
unfolding response_key
response_key-ne-dccp r dst src port e =
    caracal_to_protocol-ne-dccp r.probe_protocol (make_base_key_inj _ _ _ _ _ _ _ _ e).3

-- The tool's number of a protocol is read back as that protocol, for all but DCCP.
pub caracal_to_protocol-number :
    (p : Protocol) → p ≢ dccp → caracal_to_protocol (pos (protocol_number p)) ≡ p
unfolding caracal_to_protocol protocol_number
caracal_to_protocol-number p h = ground arith
