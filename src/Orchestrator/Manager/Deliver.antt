-- ===== src/Orchestrator/Manager/Deliver.antt =====
-- The goroutines that `notifyChangedAgents` and `notifyChangedGenerators` start
-- (internal/components/orchestrator/manager.go), and the processes that they call.
pub mod Join
use mathlib.Core.List.{Mem-prop, Nodup-cons, mem-map_of_mem}
use mathlib.Core.Logic.Or
use iprl_poc.Common.{
  List, [], ◌∷◌, Option, none, some, Bool, true, false, ◌≡◌, ◌≢◌, refl, sym, subst, ap, ◌∙◌, arith,
  Text, text_eq, Result, ok, err, if◌then◌else◌, if_pos, if_neg, map, Mem, mem-cons, not-mem-nil,
  Nodup, All, Option-cases, inl, inr, Bool-cases,
}
use iprl_poc.Common.GoMap.{Map, get, insert, get-insert}
use iprl_poc.Proto.{
  ProbingAgentSpec, ProbingAgentStatus, ProbingDirectiveGeneratorSpec,
  ProbingDirectiveGeneratorStatus,
}
use iprl_poc.Clients.{new_insecure_agent_client, new_insecure_generator_client}
use iprl_poc.Orchestrator.Manager.{AgentNotice, GeneratorNotice}

-- The process that listens at an address handles a call, if there is one.
unfoldable pub call_at : {M : Type 0} → Text → (M → M) → Map M → Map M
call_at a f ps = elim (get a ps) [ none ↦ ps | some p ↦ insert a (f p) ps ]

-- What a goroutine does with its notice, once `dialled` is the result of making the client: a nil
-- status panics, in the log line that each branch ends with.
unfoldable pub tell :
    {Status M E Conn : Type 0}
    → (Status → M → M)
    → (Conn → Bool)
    → Text
    → Result E (Conn × Conn)
    → Option Status
    → Map M
    → Option (Map M)
unfolding call_at
tell update arrives a dialled none ps = none
tell update arrives a (err e) (some status) ps = some ps
tell update arrives a (ok (client, conn)) (some status) ps =
    if arrives client then some (call_at a (update status) ps) else some ps

-- `M` is the state of a process with its Update handler; `arrives` says whether an Update over a
-- connection is handled at the address that it was made for.
module _ {M E Conn : Type 0} (new_client : Text → Result E Conn) (arrives : Conn → Bool) where
  unfoldable pub notify_agent : (ProbingAgentStatus → M → M) → AgentNotice → Map M → Option (Map M)
  unfolding tell
  notify_agent update (spec, status) ps =
      tell update arrives spec.grpc_address
        (new_insecure_agent_client new_client (λ c. c) spec.grpc_address) status ps

  unfoldable pub notify_generator :
      (ProbingDirectiveGeneratorStatus → M → M) → GeneratorNotice → Map M → Option (Map M)
  unfolding tell
  notify_generator update (spec, status) ps =
      tell update arrives spec.grpc_address
        (new_insecure_generator_client new_client (λ c. c) spec.grpc_address) status ps

-- The goroutines of a round, in the order in which their calls are handled.
unfoldable pub tell_all :
    {N M : Type 0} → (N → Map M → Option (Map M)) → List N → Map M → Option (Map M)
tell_all one [] ps = some ps
tell_all one (n ∷ ns) ps = elim (one n ps) [ none ↦ none | some qs ↦ tell_all one ns qs ]

pub get-call_at :
    {M : Type 0} (a b : Text) (f : M → M) (ps : Map M) → a ≢ b → get b (call_at a f ps) ≡ get b ps
unfolding call_at
get-call_at a b f ps other = elim (Option-cases (get a ps)) [
  | inl e ↦ rw (e, call_at) refl
  | inr (p, e) ↦ rw (e, call_at) (ground (arith, get-insert a b (f p) ps))
]

pub get-call_at_same :
    {M : Type 0} (a : Text) (f : M → M) (p : M) (ps : Map M)
    → get a ps ≡ some p
    → get a (call_at a f ps) ≡ some (f p)
unfolding call_at
get-call_at_same a f p ps e = rw (e, call_at) (ground (arith, get-insert a a (f p) ps))

-- A goroutine with a status ends without a panic, and leaves the other addresses alone.
tell-calm :
    {Status M E Conn : Type 0} (update : Status → M → M) (arrives : Conn → Bool) (a : Text)
    (dialled : Result E (Conn × Conn)) (s : Status) (ps : Map M)
    → (qs : Map M) × (tell update arrives a dialled (some s) ps ≡ some qs)
      × ((b : Text) → a ≢ b → get b qs ≡ get b ps)
unfolding tell
tell-calm update arrives a (err e) s ps = (ps, refl, λ b other. refl)
tell-calm update arrives a (ok (client, conn)) s ps = elim (Bool-cases (arrives client)) [
  | inl yes_arrives ↦
      (call_at a (update s) ps, rw yes_arrives refl, λ b other. get-call_at a b (update s) ps other)
  | inr lost ↦ (ps, rw lost refl, λ b other. refl)
]

abbrev pub notice_addresses : List GeneratorNotice → List Text
notice_addresses = map (λ n. n.0.grpc_address)

abbrev pub HaveStatus : List GeneratorNotice → Type 0
HaveStatus = All (λ n. n.1 ≢ none)

known_some : {A : Type 0} (o : Option A) → o ≢ none → (a : A) × (o ≡ some a)
known_some none h = absurd (h refl)
known_some (some a) h = (a, refl)

client_made :
    {E Conn : Type 0} (new_client : Text → Result E Conn) (a : Text) (conn : Conn)
    → new_client a ≡ ok conn
    → new_insecure_generator_client new_client (λ (c : Conn). c) a ≡ ok (conn, conn)
unfolding new_insecure_generator_client
client_made new_client a conn e = rw (e, new_insecure_generator_client) refl

module _ {M E Conn : Type 0} (new_client : Text → Result E Conn) (arrives : Conn → Bool)
    (update : ProbingDirectiveGeneratorStatus → M → M) where
  abbrev pub one : GeneratorNotice → Map M → Option (Map M)
  one = notify_generator new_client arrives update

  notify_generator-calm :
      (n : GeneratorNotice) (s : ProbingDirectiveGeneratorStatus) (ps : Map M)
      → n.1 ≡ some s
      → (qs : Map M) × (one n ps ≡ some qs)
        × ((b : Text) → n.0.grpc_address ≢ b → get b qs ≡ get b ps)
  unfolding notify_generator
  notify_generator-calm n s ps e = rw e (
      tell-calm update arrives n.0.grpc_address
        (new_insecure_generator_client new_client (λ c. c) n.0.grpc_address) s ps)

  -- No goroutine of a round panics, and the addresses that have no notice are left alone.
  pub tell_all-calm :
      (ns : List GeneratorNotice) (ps : Map M)
      → HaveStatus ns
      → (qs : Map M) × (tell_all one ns ps ≡ some qs)
        × ((b : Text) → ¬ Mem b (notice_addresses ns) → get b qs ≡ get b ps)
  unfolding tell_all
  tell_all-calm [] ps h = (ps, refl, λ b other. refl)
  tell_all-calm (n ∷ ns) ps (known, later) =
      let (s, e) = known_some n.1 known in
      let (qs, told, here) = notify_generator-calm n s ps e in
      let (rs, all, rest) = tell_all-calm ns qs later in
      (
        rs,
        rw (told, tell_all) all,
        λ b other.
            rest b (λ m. other (mem-cons.1 (Or.inr m)))
            ∙ here b (λ same. other (mem-cons.1 (Or.inl (sym same)))),
      )

  -- A notice whose call arrives.
  notify_generator-told :
      (spec : ProbingDirectiveGeneratorSpec) (s : ProbingDirectiveGeneratorStatus) (conn : Conn)
      (p : M) (ps : Map M)
      → new_client spec.grpc_address ≡ ok conn
      → arrives conn ≡ true
      → get spec.grpc_address ps ≡ some p
      → (qs : Map M) × (one (spec, some s) ps ≡ some qs)
        × (get spec.grpc_address qs ≡ some (update s p))
  unfolding notify_generator
  notify_generator-told spec s conn p ps dial arrived e = (
    call_at spec.grpc_address (update s) ps,
    rw (client_made new_client spec.grpc_address conn dial) (unfold tell in rw arrived refl),
    get-call_at_same spec.grpc_address (update s) p ps e,
  )

  -- The same among the other goroutines, where the notices go to distinct addresses.
  pub tell_all-told :
      (ns : List GeneratorNotice) (spec : ProbingDirectiveGeneratorSpec)
      (s : ProbingDirectiveGeneratorStatus) (conn : Conn) (p : M) (ps qs : Map M)
      → IsSet M
      → HaveStatus ns
      → Nodup (notice_addresses ns)
      → Mem (spec, some s) ns
      → new_client spec.grpc_address ≡ ok conn
      → arrives conn ≡ true
      → get spec.grpc_address ps ≡ some p
      → tell_all one ns ps ≡ some qs
      → get spec.grpc_address qs ≡ some (update s p)
  unfolding tell_all
  tell_all-told [] spec s conn p ps qs flat h d m dial arrived e t = absurd (not-mem-nil m)
  tell_all-told (n ∷ ns) spec s conn p ps qs flat (known, later) d m dial arrived e t =
      let (s', e') = known_some n.1 known in
      let is_prop : IsProp (get spec.grpc_address qs ≡ some (update s p)) = hlevel flat in
      let (fresh, others) = Nodup-cons.0 d in
      Or.elim is_prop (mem-cons.0 m)
        (λ same.
          let (mid, told, got) = notify_generator-told spec s conn p ps dial arrived e in
          let (end, all, rest) = tell_all-calm ns mid later in
          let here : one n ps ≡ some mid = ap (λ x. one x ps) (sym same) ∙ told in
          let is_end : end ≡ qs = ground (arith, here, all, t) in
          let apart : ¬ Mem spec.grpc_address (notice_addresses ns) =
            subst (λ (x : GeneratorNotice). ¬ Mem x.0.grpc_address (notice_addresses ns)) (sym same)
              fresh in
          rw (← is_end) (rest spec.grpc_address apart ∙ got))
        (λ among.
          let (mid, told, kept) = notify_generator-calm n s' ps e' in
          let go : tell_all one ns mid ≡ some qs = ground (arith, told, t) in
          let other : n.0.grpc_address ≢ spec.grpc_address = λ same. fresh (
            subst (λ a. Mem a (notice_addresses ns)) (sym same)
              (mem-map_of_mem (λ (x : GeneratorNotice). x.0.grpc_address) among)) in
          tell_all-told ns spec s conn p mid qs flat later others among dial arrived
            (kept spec.grpc_address other ∙ e) go)
