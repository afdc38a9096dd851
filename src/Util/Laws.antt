-- ===== src/Util/Laws.antt =====
-- What internal/util/util.go reads back.
use iprl_poc.Common.{List, [], ◌∷◌, some, ◌≡◌, ◌≢◌, refl, ap, Text, codes, All, map, arith, text_eq}
use iprl_poc.Strings.{split, join, trim_space, to_lower}
use iprl_poc.Strings.Split.{Lacks, split-join}
use iprl_poc.Proto.{Protocol, protocol_unknown, icmp, tcp, udp, dccp, icmpv6}
use iprl_poc.Util.{protocol_word, protocol_words, or_icmp, parse_protocols}

-- The word of a protocol on the command line.
abbrev pub word_of : Protocol → Text
word_of protocol_unknown = []
word_of icmp = codes "icmp"
word_of tcp = codes "tcp"
word_of udp = codes "udp"
word_of dccp = codes "dccp"
word_of icmpv6 = codes "icmpv6"

word_of-Lacks : (p : Protocol) → Lacks b',' (word_of p)
word_of-Lacks protocol_unknown = tt
word_of-Lacks _ = omega arith

protocol_word-word_of :
    (p : Protocol)
    → p ≢ protocol_unknown
    → protocol_word (to_lower (trim_space (word_of p))) ≡ some p
unfolding protocol_word to_lower trim_space text_eq
protocol_word-word_of protocol_unknown h = absurd (h refl)
protocol_word-word_of icmp h = refl
protocol_word-word_of tcp h = refl
protocol_word-word_of udp h = refl
protocol_word-word_of dccp h = refl
protocol_word-word_of icmpv6 h = refl

protocol_words-map :
    (ps : List Protocol) → All (λ p. p ≢ protocol_unknown) ps → protocol_words (map word_of ps) ≡ ps
unfolding protocol_words
protocol_words-map [] h = refl
protocol_words-map (p ∷ ps) h =
    rw (protocol_word-word_of p h.0, protocol_words) (ap (λ t. p ∷ t) (protocol_words-map ps h.1))

map-Lacks : (ps : List Protocol) → All (Lacks b',') (map word_of ps)
map-Lacks [] = tt
map-Lacks (p ∷ ps) = (word_of-Lacks p, map-Lacks ps)

-- A list of words is not the empty text.
parse_protocols-words :
    (s : Text) → s ≢ [] → parse_protocols s ≡ or_icmp (protocol_words (split b',' s))
unfolding parse_protocols
parse_protocols-words [] h = absurd (h refl)
parse_protocols-words (c ∷ s) h = refl

join-ne-nil :
    (p : Protocol) (ps : List Protocol)
    → p ≢ protocol_unknown
    → join b',' (map word_of (p ∷ ps)) ≢ []
unfolding join
join-ne-nil protocol_unknown ps h e = h refl
join-ne-nil icmp [] h e = cc
join-ne-nil tcp [] h e = cc
join-ne-nil udp [] h e = cc
join-ne-nil dccp [] h e = cc
join-ne-nil icmpv6 [] h e = cc
join-ne-nil icmp (q ∷ ps) h e = cc
join-ne-nil tcp (q ∷ ps) h e = cc
join-ne-nil udp (q ∷ ps) h e = cc
join-ne-nil dccp (q ∷ ps) h e = cc
join-ne-nil icmpv6 (q ∷ ps) h e = cc

-- A list of known protocols that is not empty, written as words with commas, is read back.
pub parse_protocols-join :
    (p : Protocol) (ps : List Protocol)
    → All (λ q. q ≢ protocol_unknown) (p ∷ ps)
    → parse_protocols (join b',' (map word_of (p ∷ ps))) ≡ p ∷ ps
unfolding or_icmp
parse_protocols-join p ps h = rw (parse_protocols-words _ (join-ne-nil p ps h.0)) (
    rw (split-join b',' (word_of p) (map word_of ps) (map-Lacks (p ∷ ps)))
      (ap or_icmp (protocol_words-map (p ∷ ps) h)))

or_icmp-ne-nil : (ps : List Protocol) → or_icmp ps ≢ []
unfolding or_icmp
or_icmp-ne-nil [] e = cc
or_icmp-ne-nil (p ∷ ps) e = cc

-- Some protocol is always chosen, whatever the text.
pub parse_protocols-ne-nil : (s : Text) → parse_protocols s ≢ []
unfolding parse_protocols
parse_protocols-ne-nil [] e = cc
parse_protocols-ne-nil (c ∷ s) e = or_icmp-ne-nil _ e
