-- ===== src/Util.antt =====
-- internal/util/util.go: the parsers of protocols and providers.
pub mod Laws
use iprl_poc.Common.{
  ℕ, List, [], ◌∷◌, ◌++◌, Option, none, some, Text, codes, ite, text_eq, length, ◌==◌,
  if◌then◌else◌,
}
use iprl_poc.Strings.{split, trim_space, to_lower}
use iprl_poc.Proto.{
  Protocol, icmp, tcp, udp, dccp, icmpv6, VantagePointProvider, provider_unknown, gcp, aws, edgenet,
}

-- The switch on one word of the list; none is a word that is passed over.
unfoldable pub protocol_word : Text → Option Protocol
protocol_word w = ite (text_eq w (codes "icmp")) (some icmp) (
    ite (text_eq w (codes "tcp")) (some tcp) (
      ite (text_eq w (codes "udp")) (some udp) (
        ite (text_eq w (codes "dccp")) (some dccp)
          (ite (text_eq w (codes "icmpv6")) (some icmpv6) none))))

-- The loop over the words.
unfoldable pub protocol_words : List Text → List Protocol
unfolding protocol_word
protocol_words [] = []
protocol_words (w ∷ ws) =
    let rest = protocol_words ws in
    elim (protocol_word (to_lower (trim_space w))) [ some p ↦ p ∷ rest | none ↦ rest ]

-- `if len(protocols) == 0` falls back to ICMP.
unfoldable pub or_icmp : List Protocol → List Protocol
or_icmp [] = icmp ∷ []
or_icmp (p ∷ ps) = p ∷ ps

unfoldable pub parse_protocols : Text → List Protocol
unfolding protocol_words or_icmp
parse_protocols [] = icmp ∷ []
parse_protocols (c ∷ s) = or_icmp (protocol_words (split b',' (c ∷ s)))

-- The switch on the text in lower case.
unfoldable pub parse_provider : Text → VantagePointProvider
parse_provider s =
    let t = to_lower s in
    ite (text_eq t (codes "gcp")) gcp (
      ite (text_eq t (codes "aws")) aws
        (ite (text_eq t (codes "edgenet")) edgenet provider_unknown))
