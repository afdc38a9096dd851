-- ===== src/Agent/Caracal/Lines.antt =====
-- Reading the tool's lines and writing its probes, internal/components/agent/caracal_prober.go.
use iprl_poc.Common.{
  ℕ, zero, suc, List, [], ◌∷◌, none, some, ◌≡◌, ◌≢◌, refl, Text, arith, All, get_or,
}
use iprl_poc.Strings.{split, into_first, trim}
use iprl_poc.Strings.Split.{Lacks, split-Lacks, split_whole, trim-Lacks}
use iprl_poc.Agent.Caracal.{
  CaracalResponse, field, parse_caracal_response, mpls_labels, parse_mpls_labels, is_bracket,
}

get_or-Lacks : (sep : ℕ) (ps : List Text) (i : ℕ) → All (Lacks sep) ps → Lacks sep (get_or ps i [])
get_or-Lacks sep [] i h = tt
get_or-Lacks sep (p ∷ ps) zero h = h.0
get_or-Lacks sep (p ∷ ps) (suc i) h = get_or-Lacks sep ps i h.1

into_first-Lacks_other :
    (sep c : ℕ) (ps : List Text) → c ≢ sep → All (Lacks sep) ps → All (Lacks sep) (into_first c ps)
unfolding into_first
into_first-Lacks_other sep c [] n h = ((n, tt), tt)
into_first-Lacks_other sep c (p ∷ ps) n h = ((n, h.0), h.1)

-- Parts of a text without some byte are without it.
split-Lacks_other : (cut sep : ℕ) (s : Text) → Lacks sep s → All (Lacks sep) (split cut s)
unfolding split
split-Lacks_other cut sep [] h = (tt, tt)
split-Lacks_other cut sep (c ∷ s) h =
    ground (arith, split-Lacks_other cut sep s h.1, into_first-Lacks_other sep c (split cut s) h.0)

-- An entry without commas has one part, and makes no label.
mpls_labels-nil : (es : List Text) → All (Lacks b',') es → mpls_labels es ≡ []
unfolding mpls_labels
mpls_labels-nil [] h = refl
mpls_labels-nil (e ∷ es) h = ground (arith, split_whole b',' e h.0, mpls_labels-nil es h.1)

-- The tool's lines are cut at every comma, also inside the list of MPLS labels, so no line that the
-- prober reads ever yields a label.
pub parse_mpls_labels-line :
    (line : Text) (r : CaracalResponse)
    → parse_caracal_response line ≡ some r
    → parse_mpls_labels r.reply_mpls_labels ≡ none
unfolding parse_caracal_response parse_mpls_labels
parse_mpls_labels-line line r h =
    let fields = split b',' line in
    let labels : r.reply_mpls_labels ≡ field fields 14 = ground arith in
    let plain : Lacks b',' (trim is_bracket (field fields 14)) =
      trim-Lacks b',' is_bracket _ (get_or-Lacks b',' fields 14 (split-Lacks b',' line)) in
    rw labels (
      ground (
        arith,
        mpls_labels-nil (split b'|' (trim is_bracket (field fields 14)))
            (split-Lacks_other b'|' b',' _ plain),
      ))
