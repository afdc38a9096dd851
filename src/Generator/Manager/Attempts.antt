-- ===== src/Generator/Manager/Attempts.antt =====
-- The attempts of `runDirectiveStream` (internal/components/generator/manager.go), alone and against
-- the registry of internal/components/orchestrator.
use iprl_poc.Common.{
  ◌+◌, List, [], ◌∷◌, none, some, Bool, true, false, not, ◌&&◌, ◌≡◌, ◌≢◌, Text, arith, length,
  Result, ok, All, Mem, mem-cons, Nodup, if◌then◌else◌,
}
use mathlib.Core.List.{Nodup-cons}
use mathlib.Core.Logic.Or
use iprl_poc.Common.GoMap.{Range, get, insert, get-insert}
use iprl_poc.Common.GoMap.Entries.{length-insert_new}
use iprl_poc.Proto.{ProbingAgentSpec, ProbingDirectiveGeneratorSpec, JoinResponse}
use iprl_poc.Orchestrator.Store.{OrchestratorError, add_or_update_generator, generator_count}
use iprl_poc.Orchestrator.Manager.{
  OrchestratorManager, generator_status_for, filled_status, join_generator,
}
use iprl_poc.Generator.Manager.{GeneratorManager, join_cluster, leave_cluster, set_status}

-- How the steps of an attempt go: whether the context is done, the dial works, the stream opens, and
-- `streamDirectives` returns nil.
pub record StreamAttempt {ℓ} (E : Type ℓ) : Type ℓ where
  pub is_cancelled : Bool
  pub dials : Bool
  pub reply : Result E JoinResponse
  pub opens : Bool
  pub streams : Bool

-- What the function that `backoff.Retry` calls returns: nil or an error.
pub data Verdict : Type 0 where
  finishes retries : Verdict

unfoldable pub attempt_stream {ℓ} :
    {E : Type ℓ} → StreamAttempt E → GeneratorManager → GeneratorManager × Verdict
attempt_stream a m = if a.is_cancelled then (m, finishes) else elim m.current_spec [
  | none ↦ (m, retries)
  | some _ ↦
      if not a.dials
      then (m, retries)
      else let (m', e) = join_cluster a.reply m in
        elim e [
          | some _ ↦ (m', retries)
          | none ↦ (m', if a.opens && a.streams then finishes else retries)
        ]
]

module _ (q r : Range ProbingAgentSpec) (spec : ProbingDirectiveGeneratorSpec) where
  -- An attempt whose Join reaches the orchestrator and whose stream then breaks, under the uuid `id`.
  abbrev pub broken_stream : Text → OrchestratorManager → StreamAttempt OrchestratorError
  broken_stream id m = record {
    is_cancelled = false;
    dials = true;
    reply = ok (join_generator q r id spec m).1;
    opens = true;
    streams = false;
  }

  -- One such attempt after another, under the uuids that the orchestrator draws.
  unfoldable pub broken_streams :
      List Text → GeneratorManager → OrchestratorManager → GeneratorManager × OrchestratorManager
  broken_streams [] g m = (g, m)
  broken_streams (id ∷ ids) g m =
      broken_streams ids (attempt_stream (broken_stream id m) g).0 (join_generator q r id spec m).0

  -- The uuid of the last attempt.
  abbrev pub last_uuid : Text → List Text → Text
  last_uuid id [] = id
  last_uuid id (j ∷ ids) = last_uuid j ids

  attempt_stream-broken :
      (id : Text) (g : GeneratorManager) (m : OrchestratorManager)
      → g.current_spec ≡ some spec
      → attempt_stream (broken_stream id m) g ≡ (
        record g { current_status = some (filled_status r (generator_status_for q id m) m.store) },
        retries,
      )
  unfolding attempt_stream join_cluster set_status join_generator
  attempt_stream-broken id g m h = ground arith

  join_generator-generator_specs :
      (id : Text) (m : OrchestratorManager)
      → (join_generator q r id spec m).0.store.generator_specs
        ≡ insert id spec m.store.generator_specs
  unfolding join_generator add_or_update_generator generator_status_for
  join_generator-generator_specs id m = ground arith

  generator_count-join_generator :
      (id : Text) (m : OrchestratorManager)
      → get id m.store.generator_specs ≡ none
      → generator_count (join_generator q r id spec m).0.store ≡ generator_count m.store + 1
  unfolding generator_count
  generator_count-join_generator id m new =
      rw (join_generator-generator_specs id m)
        (omega (arith, length-insert_new id spec m.store.generator_specs new))

  -- Uuids that are fresh stay so when another one is taken.
  fresh_after :
      (id : Text) (ids : List Text) (m : OrchestratorManager)
      → ¬ Mem id ids
      → All (λ j. get j m.store.generator_specs ≡ none) ids
      → All (λ j. get j (join_generator q r id spec m).0.store.generator_specs ≡ none) ids
  fresh_after id [] m n h = tt
  fresh_after id (j ∷ ids) m n h =
      let other : id ≢ j = λ e. n (mem-cons.1 (Or.inl e)) in
      (
        rw (join_generator-generator_specs id m)
            (ground (arith, get-insert id j spec m.store.generator_specs, h.0)),
        fresh_after id ids m (λ later. n (mem-cons.1 (Or.inr later))) h.1,
      )

  -- Each broken attempt leaves one more generator in the registry: after as many as there are fresh
  -- uuids, the count has grown by that number, and the generator will leave under the last uuid only.
  pub broken_streams-generator_count :
      (id : Text) (ids : List Text) (g : GeneratorManager) (m : OrchestratorManager)
      → g.current_spec ≡ some spec
      → Nodup (id ∷ ids)
      → All (λ j. get j m.store.generator_specs ≡ none) (id ∷ ids)
      → let (g', m') = broken_streams (id ∷ ids) g m in
        (generator_count m'.store ≡ generator_count m.store + length (id ∷ ids))
        × (leave_cluster g' ≡ some (spec.orchestrator_address, last_uuid id ids))
  unfolding broken_streams generator_count leave_cluster filled_status generator_status_for
  broken_streams-generator_count id [] g m h d fresh =
      let grown : generator_count (join_generator q r id spec m).0.store
          ≡ generator_count m.store + 1 =
        generator_count-join_generator id m fresh.0 in
      rw (attempt_stream-broken id g m h) (grown, rw (h, leave_cluster) (ground arith))
  broken_streams-generator_count id (j ∷ ids) g m h d fresh =
      let m' = (join_generator q r id spec m).0 in
      let g' : GeneratorManager = record g {
        current_status = some (filled_status r (generator_status_for q id m) m.store);
      } in
      let later = (Nodup-cons.0 d).1 in
      let still = fresh_after id (j ∷ ids) m (Nodup-cons.0 d).0 fresh.1 in
      let rest = broken_streams-generator_count j ids g' m' h later still in
      let grown : generator_count m'.store ≡ generator_count m.store + 1 =
        generator_count-join_generator id m fresh.0 in
      rw (attempt_stream-broken id g m h, broken_streams) (omega (arith, rest.0, grown), rest.1)
