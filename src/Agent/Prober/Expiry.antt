-- ===== src/Agent/Prober/Expiry.antt =====
-- Dropping old probes, and closing, internal/components/agent/caracal_prober.go.
use iprl_poc.Common.{
  ℕ, ◌-◌, [], ◌∷◌, Option, none, some, true, ◌≡◌, refl, ◌∙◌, ◌⊎◌, inl, inr, Bool-cases, Text, arith,
  ltb, if◌then◌else◌,
}
use iprl_poc.Common.GoMap.{Map, get}
use iprl_poc.Common.GoMap.Entries.{Unique}
use iprl_poc.Common.Channel.{close}
use iprl_poc.Agent.Prober.{
  PendingProbe, CaracalProber, drop_expired, cleanup_expired_probes, close_prober,
}
use iprl_poc.Agent.Prober.Tool.{IsStopped, stop_caracal, stop_caracal-IsStopped}

-- What a tick leaves of one pending probe.
abbrev pub unexpired : ℕ → ℕ → Option PendingProbe → Option PendingProbe
unexpired now timeout none = none
unexpired now timeout (some p) = if ltb timeout (now - p.created_at) then none else some p

drop_expired-missing :
    (now timeout : ℕ) (k : Text) (m : Map PendingProbe)
    → get k m ≡ none
    → get k (drop_expired now timeout m) ≡ none
unfolding drop_expired get
drop_expired-missing now timeout k [] h = refl
drop_expired-missing now timeout k ((j, p) ∷ m) h =
    ground (arith, drop_expired-missing now timeout k m)

pub drop_expired-get :
    (now timeout : ℕ) (k : Text) (m : Map PendingProbe)
    → Unique m
    → get k (drop_expired now timeout m) ≡ unexpired now timeout (get k m)
unfolding drop_expired get
drop_expired-get now timeout k [] u = refl
drop_expired-get now timeout k ((j, p) ∷ m) u = ground (
  arith,
  drop_expired-get now timeout k m u.1,
  drop_expired-missing now timeout j m u.0,
  drop_expired-missing now timeout k m,
)

pub drop_expired-Unique :
    (now timeout : ℕ) (m : Map PendingProbe) → Unique m → Unique (drop_expired now timeout m)
unfolding drop_expired
drop_expired-Unique now timeout [] u = tt
drop_expired-Unique now timeout ((j, p) ∷ m) u =
    ground (arith, drop_expired-Unique now timeout m u.1, drop_expired-missing now timeout j m u.0)

-- A cleanup tick drops exactly the probes older than the match timeout, and changes no other probe
-- and nothing else of the prober.
pub cleanup_expired_probes-get :
    (now : ℕ) (k : Text) (c : CaracalProber)
    → Unique c.pending
    → (get k (cleanup_expired_probes now c).pending
        ≡ unexpired now c.match_timeout (get k c.pending))
      × (record (cleanup_expired_probes now c) { pending = c.pending } ≡ c)
unfolding cleanup_expired_probes
cleanup_expired_probes-get now k c u =
    (unfold drop_expired in drop_expired-get now c.match_timeout k c.pending u, refl)

-- Closing an open prober does not panic, closes its output and stops its tool; to close it again
-- changes nothing.
pub close_prober-closes :
    (c : CaracalProber)
    → c.out_ch.is_closed ≡ c.closed
    → c.close_ch.is_closed ≡ c.closed
    → (c' : CaracalProber) × (close_prober c ≡ some c')
      × (c'.closed ≡ true)
      × (c'.out_ch.is_closed ≡ true)
      × (c'.close_ch.is_closed ≡ true)
      × ((c.closed ≡ true) ⊎ IsStopped c'.tool)
      × (close_prober c' ≡ some c')
unfolding close_prober close
close_prober-closes c h k = elim (Bool-cases c.closed) [
  | inl shut ↦ (c, rw shut refl, shut, h ∙ shut, k ∙ shut, inl shut, rw shut refl)
  | inr is_open ↦ (
    record c {
      closed = true;
      close_ch = record c.close_ch { is_closed = true };
      tool = stop_caracal c.tool;
      out_ch = record c.out_ch { is_closed = true };
    },
    ground arith,
    refl,
    refl,
    refl,
    inr (stop_caracal-IsStopped c.tool),
    refl,
  )
]
