-- ===== src/Generator/Mock/Bounds.antt =====
-- What directives internal/components/generator/mock_directive_generator.go makes.
use mathlib.Core.List.{mem-cons}
use mathlib.Core.Logic.Or
use iprl_poc.Common.{
  ℕ, zero, suc, ◌+◌, ◌-◌, ◌%◌, ◌<◌, ◌≤◌, List, [], ◌∷◌, Option, none, some, false, ◌≡◌, ◌≢◌, refl,
  inl, inr, ◌⊎◌, arith, length, get_elem?, ltb, Mem, u32_mod, Bool-cases, if◌then◌else◌,
}
use iprl_poc.Proto.{
  ProbingAgentSpec, ProbingDirectiveGeneratorSpec, ProbingDirectiveGeneratorStatus,
  ProbingDirective, Protocol, icmp, VantagePoint, ip_version_4,
}
use iprl_poc.Common.Draws.{Rng, draw-total, IsAddress}
use iprl_poc.Generator.Mock.{
  choose_ttl, choose_protocol, choose_port, choose_address, has_ports, random_directive, directive,
  generate_directive, from_agents,
}

get_elem?-Mem {ℓ} :
    {A : Type ℓ} (xs : List A) (i : ℕ)
    → i < length xs
    → (a : A) × (get_elem? xs i ≡ some a) × Mem a xs
get_elem?-Mem [] i h = elim h [ ]
get_elem?-Mem (x ∷ xs) zero h = (x, refl, mem-cons.1 (Or.inl refl))
get_elem?-Mem (x ∷ xs) (suc i) h =
    let (a, e, m) = get_elem?-Mem xs i (omega arith) in (a, e, mem-cons.1 (Or.inr m))

-- The spec's TTLs are those of a uint32, and do not span its whole range.
pub record TtlRange (spec : ProbingDirectiveGeneratorSpec) : Type 0 where
  pub min_fits : spec.min_ttl < u32_mod
  pub max_fits : spec.max_ttl < u32_mod
  pub not_all : spec.max_ttl - spec.min_ttl < u32_mod - 1

-- A TTL between the bounds, or the lower bound where they are in the wrong order.
abbrev pub IsTtl : ProbingDirectiveGeneratorSpec → ℕ → Type 0
IsTtl spec t =
    (spec.min_ttl ≤ t) × ((t ≤ spec.max_ttl) ⊎ ((spec.max_ttl < spec.min_ttl) × (t ≡ spec.min_ttl)))

choose_ttl-total :
    (rng : Rng) (spec : ProbingDirectiveGeneratorSpec) (i : ℕ)
    → TtlRange spec
    → (t : ℕ) × (j : ℕ) × (choose_ttl rng spec i ≡ some (t, j)) × IsTtl spec t
choose_ttl-total rng spec i h = elim (Bool-cases (ltb spec.min_ttl spec.max_ttl)) [
  | inl wide ↦
      let n = (spec.max_ttl - spec.min_ttl + 1) % u32_mod in
      let (k, e, b) = draw-total rng n i (ground (arith, h)) in
      (
        (spec.min_ttl + k) % u32_mod,
        suc i,
        unfold choose_ttl in rw wide (rw e),
        (ground (arith, h), inl (ground (arith, h))),
      )
  | inr narrow ↦ (spec.min_ttl, i, unfold choose_ttl in rw narrow, (omega arith, ground arith))
]

-- A protocol of the spec's list, or ICMP if that is empty.
abbrev pub allowed : List Protocol → List Protocol
allowed [] = icmp ∷ []
allowed (p ∷ ps) = p ∷ ps

choose_protocol-total :
    (rng : Rng) (ps : List Protocol) (i : ℕ)
    → (p : Protocol) × (j : ℕ) × (choose_protocol rng ps i ≡ some (p, j)) × Mem p (allowed ps)
choose_protocol-total rng [] i = (icmp, i, unfold choose_protocol in refl, mem-cons.1 (Or.inl refl))
choose_protocol-total rng (p ∷ ps) i =
    let (k, e, b) = draw-total rng (length (p ∷ ps)) i (omega arith) in
    let (q, f, m) = get_elem?-Mem (p ∷ ps) k b in
    (q, suc i, unfold choose_protocol in rw e (rw f), m)

-- A port from 1 to 65535 for TCP and UDP, and 0 for the others.
abbrev pub IsPort : Protocol → ℕ → Type 0
IsPort p n = if has_ports p then (1 ≤ n) × (n ≤ 65535) else (n ≡ 0)

choose_port-total :
    (rng : Rng) (p : Protocol) (i : ℕ)
    → (n : ℕ) × (j : ℕ) × (choose_port rng p i ≡ some (n, j)) × IsPort p n
choose_port-total rng p i = elim (Bool-cases (has_ports p)) [
  | inl yes_ports ↦
      let (k, e, b) = draw-total rng 65535 i (omega arith) in
      (
        1 + k,
        suc i,
        unfold choose_port in rw yes_ports (rw e),
        rw yes_ports (omega arith, omega arith),
      )
  | inr no_ports ↦ (0, i, unfold choose_port in rw no_ports, rw no_ports refl)
]

choose_address-total :
    (rng : Rng) (i : ℕ)
    → (ip : List ℕ) × (j : ℕ) × (choose_address rng i ≡ some (ip, j)) × IsAddress ip
choose_address-total rng i =
    let (a, ea, ha) = draw-total rng 256 i (omega arith) in
    let (b, eb, hb) = draw-total rng 256 (suc i) (omega arith) in
    let (c, ec, hc) = draw-total rng 256 (suc (suc i)) (omega arith) in
    let (d, ed, hd) = draw-total rng 256 (suc (suc (suc i))) (omega arith) in
    (
      a ∷ b ∷ c ∷ d ∷ [],
      suc (suc (suc (suc i))),
      unfold choose_address in rw ea (rw eb (rw ec (rw ed))),
      (refl, (ha, (hb, (hc, (hd, tt))))),
    )

some_of {ℓ} : {A : Type ℓ} (o : Option A) → o ≢ none → (a : A) × (o ≡ some a)
some_of none h = absurd (h refl)
some_of (some a) h = (a, refl)

-- A directive that fits the generator's spec and the agents of its status.
pub record Fits (spec : ProbingDirectiveGeneratorSpec) (agents : List ProbingAgentSpec)
    (d : ProbingDirective) : Type 0 where
  pub agent : ProbingAgentSpec
  pub vantage : VantagePoint
  pub source : ℕ
  pub destination : ℕ
  pub known : Mem agent agents
  pub placed : agent.vantage_point ≡ some vantage
  pub named : d.vantage_point_name ≡ vantage.name
  pub address : IsAddress d.destination_address
  pub ttl : IsTtl spec d.near_ttl
  pub protocol : Mem d.protocol (allowed spec.protocols)
  pub ports :
      d.header_parameters
      ≡ some (record {
        source_port = some source;
        destination_port = some destination;
        type_of_service = some 0;
        df_flag = some false;
      })
  pub source_port : (30000 ≤ source) × (source < 60000)
  pub destination_port : IsPort d.protocol destination

random_directive-Fits :
    (rng : Rng) (spec : ProbingDirectiveGeneratorSpec) (agents : List ProbingAgentSpec) (i : ℕ)
    → 0 < length agents
    → TtlRange spec
    → ((a : ProbingAgentSpec) → Mem a agents → a.vantage_point ≢ none)
    → (d : ProbingDirective) × (j : ℕ) × (random_directive rng spec agents i ≡ some (d, j))
      × Fits spec agents d
random_directive-Fits rng spec agents i some_agent range placed =
    let (k, e₀, b) = draw-total rng (length agents) i some_agent in
    let (a, e₁, m) = get_elem?-Mem agents k b in
    let (ip, i₂, e₂, is_ip) = choose_address-total rng (suc i) in
    let (t, i₃, e₃, is_ttl) = choose_ttl-total rng spec i₂ range in
    let (p, i₄, e₄, is_allowed) = choose_protocol-total rng spec.protocols i₃ in
    let (n, i₅, e₅, is_port) = choose_port-total rng p i₄ in
    let (v, e₆) = some_of a.vantage_point (placed a m) in
    let (s, e₇, c) = draw-total rng 30000 i₅ (omega arith) in
    let made : ProbingDirective = record {
      vantage_point_name = v.name;
      destination_address = ip;
      ip_version = ip_version_4;
      protocol = p;
      header_parameters = some (record {
        source_port = some (30000 + s);
        destination_port = some n;
        type_of_service = some 0;
        df_flag = some false;
      });
      near_ttl = t;
    } in
    (
      made,
      suc i₅,
      unfold random_directive in rw e₀ (rw e₁ (rw e₂ (rw e₃ (rw e₄ (rw e₅ (rw e₆ (rw e₇))))))),
      record {
        agent = a;
        vantage = v;
        source = 30000 + s;
        destination = n;
        known = m;
        placed = e₆;
        named = refl;
        address = is_ip;
        ttl = is_ttl;
        protocol = is_allowed;
        ports = refl;
        source_port = omega arith;
        destination_port = is_port;
      },
    )

from_agents-directive :
    (rng : Rng) (spec : ProbingDirectiveGeneratorSpec) (agents : List ProbingAgentSpec) (i : ℕ)
    (d : ProbingDirective) (j : ℕ)
    → 0 < length agents
    → random_directive rng spec agents i ≡ some (d, j)
    → from_agents rng spec agents i ≡ directive d j
from_agents-directive rng spec [] i d j h e = elim h [ ]
from_agents-directive rng spec (a ∷ rest) i d j h e = rw e

-- With agents that all have a vantage point, and TTL bounds of a uint32 that are not 0 and its
-- largest number, a directive is made: the draws do not panic. It names the vantage point of an
-- agent of the status, has a TTL and a protocol of the spec, an IPv4 address, a source port from
-- 30000 to 59999, and a destination port that is 0 unless the protocol is TCP or UDP.
pub generate_directive-Fits :
    (rng : Rng) (spec : ProbingDirectiveGeneratorSpec) (status : ProbingDirectiveGeneratorStatus)
    (i : ℕ)
    → 0 < length status.agent_specs
    → TtlRange spec
    → ((a : ProbingAgentSpec) → Mem a status.agent_specs → a.vantage_point ≢ none)
    → (d : ProbingDirective) × (j : ℕ) × (generate_directive rng spec (some status) i
        ≡ directive d j)
      × Fits spec status.agent_specs d
unfolding generate_directive
generate_directive-Fits rng spec status i h range placed =
    let (d, j, e, fits) = random_directive-Fits rng spec status.agent_specs i h range placed in
    (d, j, from_agents-directive rng spec status.agent_specs i d j h e, fits)
