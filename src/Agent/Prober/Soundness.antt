-- ===== src/Agent/Prober/Soundness.antt =====
-- Every element of the prober of internal/components/agent/caracal_prober.go comes from a directive
-- that was sent and from two answers to it.
use iprl_poc.Common.{
  ℕ, Option, none, some, ◌≡◌, refl, subst, inl, inr, Text, text_eq, arith, Option-cases, Bool-cases,
  ◌==◌, ==→eq,
}
use mathlib.Core.Option.{some-injective}
use iprl_poc.Common.Int.{to_u32}
use iprl_poc.Common.GoMap.{Map, get, insert, delete, get-insert, get-delete}
use iprl_poc.Common.GoMap.Entries.{Unique, insert-Unique, delete-Unique}
use iprl_poc.Proto.{ProbingDirective, VantagePoint, ForwardingInfoElement}
use iprl_poc.Agent.Caracal.{CaracalResponse, response_key}
use iprl_poc.Agent.Prober.{
  Net, PendingProbe, far_ttl, directive_key, build_forwarding_info_element, fill_slot, complete,
  match_response, drop_expired,
}
use iprl_poc.Agent.Prober.Matching.{Answers}
use iprl_poc.Agent.Prober.Expiry.{drop_expired-get, drop_expired-Unique}

module _ (net : Net) (Sent : ProbingDirective → Type 0) where
  -- A pending probe stands under its directive's key and holds answers to it.
  pub record IsMatched (k : Text) (p : PendingProbe) : Type 0 where
    pub was_sent : Sent p.directive
    pub own_key : k ≡ directive_key net p.directive
    pub near :
        (r : CaracalResponse)
        → p.near_response ≡ some r
        → Answers net p.directive p.directive.near_ttl r
    pub far :
        (r : CaracalResponse)
        → p.far_response ≡ some r
        → Answers net p.directive (far_ttl p.directive) r

  -- What an element is made from.
  pub record Origin (e : ForwardingInfoElement) : Type 0 where
    pub directive : ProbingDirective
    pub near : CaracalResponse
    pub far : CaracalResponse
    pub vantage_point : Option VantagePoint
    pub now : ℕ
    pub was_sent : Sent directive
    pub near_answers : Answers net directive directive.near_ttl near
    pub far_answers : Answers net directive (far_ttl directive) far
    pub built : e ≡ build_forwarding_info_element net now vantage_point directive near far

  pub record Inv (m : Map PendingProbe) : Type 0 where
    pub unique : Unique m
    pub matched : (k : Text) (p : PendingProbe) → get k m ≡ some p → IsMatched k p

  -- An answer put into the slot of its TTL answers the directive.
  stored :
      (d : ProbingDirective) (ttl : ℕ) (r s : CaracalResponse)
      → response_key r ≡ directive_key net d
      → to_u32 r.probe_ttl ≡ ttl
      → some r ≡ some s
      → Answers net d ttl s
  stored d ttl r s key same e =
      let here : Answers net d ttl r = record { same_key = key; same_ttl = same } in
      subst (Answers net d ttl) (some-injective r s e) here

  fill_slot-IsMatched :
      (r : CaracalResponse) (p : PendingProbe)
      → IsMatched (response_key r) p
      → IsMatched (response_key r) (fill_slot r p)
  unfolding fill_slot
  fill_slot-IsMatched r p h = elim (Bool-cases (to_u32 r.probe_ttl == p.directive.near_ttl)) [
    | inl hit ↦
        rw (hit, fill_slot)
          (record {
            was_sent = h.was_sent;
            own_key = h.own_key;
            near = λ s e. stored p.directive _ r s h.own_key (==→eq _ _ hit) e;
            far = h.far;
          })
    | inr miss ↦ elim (Bool-cases (to_u32 r.probe_ttl == far_ttl p.directive)) [
      | inl hit ↦
          rw (miss, fill_slot)
            (rw (hit, fill_slot)
              (record {
                was_sent = h.was_sent;
                own_key = h.own_key;
                near = h.near;
                far = λ s e. stored p.directive _ r s h.own_key (==→eq _ _ hit) e;
              }))
      | inr other ↦ rw (miss, fill_slot) (rw (other, fill_slot) h)
    ]
  ]

  pub insert-Inv :
      (k : Text) (p : PendingProbe) (m : Map PendingProbe)
      → IsMatched k p
      → Inv m
      → Inv (insert k p m)
  insert-Inv k p m h v = record {
    unique = insert-Unique k p m v.unique;
    matched = λ j q e. elim (text_eq k j) [
      | yes same ↦
          let own : p ≡ q = ground (arith, get-insert k j p m) in rw (← same) (rw (← own) h)
      | no other ↦ v.matched j q (ground (arith, get-insert k j p m))
    ];
  }

  delete-Inv : (k : Text) (m : Map PendingProbe) → Inv m → Inv (delete k m)
  delete-Inv k m v = record {
    unique = delete-Unique k m v.unique;
    matched = λ j q e. v.matched j q (ground (arith, get-delete k j m));
  }

  pub drop_expired-Inv :
      (now timeout : ℕ) (m : Map PendingProbe) → Inv m → Inv (drop_expired now timeout m)
  drop_expired-Inv now timeout m v = record {
    unique = drop_expired-Unique now timeout m v.unique;
    matched = λ j q e. v.matched j q (ground (arith, drop_expired-get now timeout j m v.unique));
  }

  -- An element that is offered has an origin; none is fine.
  abbrev pub OriginOf : Option ForwardingInfoElement → Type 0
  OriginOf none = Unit
  OriginOf (some e) = Origin e

  complete_sound :
      (now : ℕ) (v : Option VantagePoint) (k : Text) (p : PendingProbe) (m : Map PendingProbe)
      → IsMatched k p
      → Inv m
      → Inv (complete net now v k p m).0 × OriginOf (complete net now v k p m).1
  unfolding complete
  complete_sound now v k p m h i = elim (Option-cases p.near_response) [
    | inl n ↦ rw (n, complete) (i, tt)
    | inr (near, n) ↦ elim (Option-cases p.far_response) [
      | inl f ↦ rw (n, complete) (rw (f, complete) (i, tt))
      | inr (far, f) ↦
          rw (n, complete)
            (rw (f, complete)
              (
                delete-Inv k m i,
                record {
                  directive = p.directive;
                  near = near;
                  far = far;
                  vantage_point = v;
                  now = now;
                  was_sent = h.was_sent;
                  near_answers = h.near near n;
                  far_answers = h.far far f;
                  built = refl;
                },
              ))
    ]
  ]

  pub match_response_sound :
      (now : ℕ) (v : Option VantagePoint) (r : CaracalResponse) (m : Map PendingProbe)
      → Inv m
      → Inv (match_response net now v r m).0 × OriginOf (match_response net now v r m).1
  unfolding match_response
  match_response_sound now v r m i = elim (Option-cases (get (response_key r) m)) [
    | inl e ↦ rw (e, match_response) (i, tt)
    | inr (p, e) ↦
        let h = fill_slot-IsMatched r p (i.matched _ p e) in
        rw (e, match_response)
          (complete_sound now v (response_key r) (fill_slot r p) _ h (insert-Inv _ _ m h i))
  ]
