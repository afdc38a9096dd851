-- ===== src/Agent/Prober/Matching.antt =====
-- Which answers make an element, internal/components/agent/caracal_prober.go.
use iprl_poc.Common.{
  ℕ, ◌<◌, Option, none, some, ◌≡◌, ◌≢◌, ◌⊎◌, inl, inr, refl, ◌∙◌, Text, text_eq, ite, arith,
  u32_mod, Bool, true, false,
}
use iprl_poc.Common.Int.{to_u32}
use iprl_poc.Common.GoMap.{Map, get, insert, delete, get-insert, get-delete}
use iprl_poc.Proto.{ProbingDirective, VantagePoint}
use iprl_poc.Agent.Caracal.{CaracalResponse, response_key}
use iprl_poc.Agent.Prober.{
  Net, PendingProbe, CaracalProber, Writes, far_ttl, directive_key, send_directive,
  build_forwarding_info_element, fill_slot, complete, match_response,
}

-- The two TTLs of a directive differ, also where the second wraps around.
far_ttl-ne-near : (d : ProbingDirective) → d.near_ttl < u32_mod → far_ttl d ≢ d.near_ttl
unfolding far_ttl
far_ttl-ne-near d h e = omega arith

-- An answer to a directive: the directive's key, and the TTL.
pub record Answers (net : Net) (d : ProbingDirective) (ttl : ℕ) (r : CaracalResponse) : Type 0 where
  pub same_key : response_key r ≡ directive_key net d
  pub same_ttl : to_u32 r.probe_ttl ≡ ttl

abbrev pub fresh_probe : ℕ → ProbingDirective → PendingProbe
fresh_probe now d = record {
  directive = d;
  created_at = now;
  near_response = none;
  far_response = none;
}

-- However the writes go, the probe is registered and replaces what had its key.
pub send_directive-get :
    (net : Net) (now : ℕ) (w : Writes) (d : ProbingDirective) (c : CaracalProber) (k : Text)
    → get k (send_directive net now w d c).0.pending
      ≡ ite (text_eq (directive_key net d) k) (some (fresh_probe now d)) (get k c.pending)
unfolding send_directive
send_directive-get net now w d c k =
    ground (arith, get-insert (directive_key net d) k (fresh_probe now d) c.pending)

match-found :
    (net : Net) (now : ℕ) (v : Option VantagePoint) (r : CaracalResponse) (k : Text)
    (p : PendingProbe) (m : Map PendingProbe)
    → response_key r ≡ k
    → get k m ≡ some p
    → match_response net now v r m
      ≡ complete net now v k (fill_slot r p) (insert k (fill_slot r p) m)
unfolding match_response
match-found net now v r k p m e h = ground arith

module _ (net : Net) (d : ProbingDirective) (in_range : d.near_ttl < u32_mod) where
  fill-near :
      (r : CaracalResponse) (p : PendingProbe)
      → p.directive ≡ d
      → to_u32 r.probe_ttl ≡ d.near_ttl
      → fill_slot r p ≡ record p { near_response = some r }
  unfolding fill_slot
  fill-near r p e h = ground arith

  fill-far :
      (r : CaracalResponse) (p : PendingProbe)
      → p.directive ≡ d
      → to_u32 r.probe_ttl ≡ far_ttl d
      → fill_slot r p ≡ record p { far_response = some r }
  unfolding fill_slot
  fill-far r p e h = ground (arith, far_ttl-ne-near d in_range)

  -- The first answer of a pair is kept and emits nothing.
  first_answer :
      (now : ℕ) (v : Option VantagePoint) (r : CaracalResponse) (p q : PendingProbe)
      (m : Map PendingProbe)
      → response_key r ≡ directive_key net d
      → get (directive_key net d) m ≡ some p
      → fill_slot r p ≡ q
      → (q.near_response ≡ none) ⊎ (q.far_response ≡ none)
      → match_response net now v r m ≡ (insert (directive_key net d) q m, none)
  unfolding complete
  first_answer now v r p q m e h s open_slot =
      match-found net now v r (directive_key net d) p m e h ∙ rw s (ground arith)

  -- The second takes the probe out and emits the element of the two.
  second_answer :
      (now : ℕ) (v : Option VantagePoint) (r near far : CaracalResponse) (p q : PendingProbe)
      (m : Map PendingProbe)
      → response_key r ≡ directive_key net d
      → get (directive_key net d) m ≡ some p
      → fill_slot r p ≡ q
      → q.directive ≡ d
      → q.near_response ≡ some near
      → q.far_response ≡ some far
      → match_response net now v r m ≡ (
        delete (directive_key net d) (insert (directive_key net d) q m),
        some (build_forwarding_info_element net now v d near far),
      )
  unfolding complete
  second_answer now v r near far p q m e h s own n f =
      match-found net now v r (directive_key net d) p m e h ∙ rw s (ground arith)

module _ (net : Net) (d : ProbingDirective) (c : CaracalProber) (w : Writes)
    (near far : CaracalResponse) (in_range : d.near_ttl < u32_mod)
    (is_near : Answers net d d.near_ttl near) (is_far : Answers net d (far_ttl d) far) where
  -- The two answers in the order near, far.
  near_then_far :
      (t₀ t₁ t₂ : ℕ) (v : Option VantagePoint)
      → let key = directive_key net d in
        let m = (send_directive net t₀ w d c).0.pending in
        let first = match_response net t₁ v near m in
        let last = match_response net t₂ v far first.0 in
        (first.1 ≡ none)
        × (last.1 ≡ some (build_forwarding_info_element net t₂ v d near far))
        × ((k : Text) → get k last.0 ≡ ite (text_eq key k) none (get k c.pending))
  near_then_far t₀ t₁ t₂ v =
      let key = directive_key net d in
      let m = (send_directive net t₀ w d c).0.pending in
      let p = fresh_probe t₀ d in
      let one : PendingProbe = record p { near_response = some near } in
      let two : PendingProbe = record one { far_response = some far } in
      let sent = λ (k : Text). send_directive-get net t₀ w d c k in
      let e₁ : match_response net t₁ v near m ≡ (insert key one m, none) =
        first_answer net d in_range t₁ v near p one m is_near.same_key (ground (arith, sent key))
          (fill-near net d in_range near p refl is_near.same_ttl) (inr refl) in
      let e₂ =
        second_answer net d in_range t₂ v far near far one two (insert key one m) is_far.same_key
          (ground (arith, get-insert key key one m))
          (fill-far net d in_range far one refl is_far.same_ttl) refl refl refl in
      rw e₁ (
        rw e₂ (
          refl,
          refl,
          λ k. ground (
            arith,
            get-delete key k (insert key two (insert key one m)),
            get-insert key k two (insert key one m),
            get-insert key k one m,
            sent k,
          ),
        ))

  -- The two answers in the order far, near.
  far_then_near :
      (t₀ t₁ t₂ : ℕ) (v : Option VantagePoint)
      → let key = directive_key net d in
        let m = (send_directive net t₀ w d c).0.pending in
        let first = match_response net t₁ v far m in
        let last = match_response net t₂ v near first.0 in
        (first.1 ≡ none)
        × (last.1 ≡ some (build_forwarding_info_element net t₂ v d near far))
        × ((k : Text) → get k last.0 ≡ ite (text_eq key k) none (get k c.pending))
  far_then_near t₀ t₁ t₂ v =
      let key = directive_key net d in
      let m = (send_directive net t₀ w d c).0.pending in
      let p = fresh_probe t₀ d in
      let one : PendingProbe = record p { far_response = some far } in
      let two : PendingProbe = record one { near_response = some near } in
      let sent = λ (k : Text). send_directive-get net t₀ w d c k in
      let e₁ : match_response net t₁ v far m ≡ (insert key one m, none) =
        first_answer net d in_range t₁ v far p one m is_far.same_key (ground (arith, sent key))
          (fill-far net d in_range far p refl is_far.same_ttl) (inl refl) in
      let e₂ =
        second_answer net d in_range t₂ v near near far one two (insert key one m) is_near.same_key
          (ground (arith, get-insert key key one m))
          (fill-near net d in_range near one refl is_near.same_ttl) refl refl refl in
      rw e₁ (
        rw e₂ (
          refl,
          refl,
          λ k. ground (
            arith,
            get-delete key k (insert key two (insert key one m)),
            get-insert key k two (insert key one m),
            get-insert key k one m,
            sent k,
          ),
        ))

-- The two answers of a pair, in one order or the other.
abbrev pub ordered : Bool → CaracalResponse → CaracalResponse → CaracalResponse × CaracalResponse
ordered true near far = (near, far)
ordered false near far = (far, near)

-- Once a directive is sent, its two answers, in either order, make exactly one element, at the
-- second: the element built from the directive, the near and the far answer. The probe is then gone,
-- and no probe of another key is touched. The first TTL is that of a uint32.
pub Answers-emit :
    (near_first : Bool) (net : Net) (d : ProbingDirective) (c : CaracalProber) (w : Writes)
    (near far : CaracalResponse) (t₀ t₁ t₂ : ℕ) (v : Option VantagePoint)
    → d.near_ttl < u32_mod
    → Answers net d d.near_ttl near
    → Answers net d (far_ttl d) far
    → let (a, b) = ordered near_first near far in
      let m = (send_directive net t₀ w d c).0.pending in
      let first = match_response net t₁ v a m in
      let last = match_response net t₂ v b first.0 in
      (first.1 ≡ none)
      × (last.1 ≡ some (build_forwarding_info_element net t₂ v d near far))
      × ((k : Text) → get k last.0 ≡ ite (text_eq (directive_key net d) k) none (get k c.pending))
Answers-emit true net d c w near far t₀ t₁ t₂ v h n f =
    near_then_far net d c w near far h n f t₀ t₁ t₂ v
Answers-emit false net d c w near far t₀ t₁ t₂ v h n f =
    far_then_near net d c w near far h n f t₀ t₁ t₂ v

-- Once another directive of the same key is sent, an answer with neither of its two TTLs emits
-- nothing and is kept nowhere, though it answer an earlier directive.
pub answer_of_replaced :
    (net : Net) (t t' : ℕ) (w : Writes) (d : ProbingDirective) (c : CaracalProber)
    (v : Option VantagePoint) (r : CaracalResponse) (k : Text)
    → response_key r ≡ directive_key net d
    → to_u32 r.probe_ttl ≢ d.near_ttl
    → to_u32 r.probe_ttl ≢ far_ttl d
    → let m = (send_directive net t w d c).0.pending in
      let after = match_response net t' v r m in (after.1 ≡ none) × (get k after.0 ≡ get k m)
answer_of_replaced net t t' w d c v r k same not_near not_far =
    let key = directive_key net d in
    let m = (send_directive net t w d c).0.pending in
    let p = fresh_probe t d in
    let sent = send_directive-get net t w d c in
    let kept : fill_slot r p ≡ p = unfold fill_slot in ground arith in
    let e = match-found net t' v r key p m same (ground (arith, sent key)) in
    rw e (rw kept (unfold complete in (refl, ground (arith, get-insert key k p m, sent k))))
