-- ===== src/Agent/Caracal/RoundTrip.antt =====
-- Lines of the tool printed and read back, and the probe lines that are written to it,
-- internal/components/agent/caracal_prober.go.
use iprl_poc.Common.{
  ℕ, List, [], ◌∷◌, ◌++◌, some, Bool, true, false, ◌≡◌, refl, ◌≢◌, inl, Text, arith, All,
  All-append, ap,
}
use iprl_poc.Common.Int.{ℤ}
use iprl_poc.Strings.{split, join, has_prefix, trim_prefix, after_prefix}
use iprl_poc.Strings.Split.{Lacks, split_whole, split-append, split-join}
use iprl_poc.Strconv.{decimal}
use iprl_poc.Strconv.Laws.{decimal-Lacks, int_text, InInt64, parse_int-int_text, int_text-Lacks}
use iprl_poc.Agent.Caracal.{
  CaracalResponse, mapped_prefix, clean_ipv4, response_of, parse_caracal_response, probe_line,
}

-- An address as the tool prints it: as it is, or as an IPv4 address mapped to IPv6.
abbrev pub printed_address : Bool → Text → Text
printed_address false a = a
printed_address true a = mapped_prefix ++ a

-- The fields of the tool's line for a response, where the flag says that its addresses are mapped.
abbrev pub fields_of : Bool → CaracalResponse → List Text
fields_of mapped r =
    int_text r.capture_timestamp
    ∷ int_text r.probe_protocol
    ∷ printed_address mapped r.probe_src_addr
    ∷ printed_address mapped r.probe_dst_addr
    ∷ int_text r.probe_src_port
    ∷ int_text r.probe_dst_port
    ∷ int_text r.probe_ttl
    ∷ int_text r.quoted_ttl
    ∷ printed_address mapped r.reply_src_addr
    ∷ int_text r.reply_protocol
    ∷ int_text r.reply_icmp_type
    ∷ int_text r.reply_icmp_code
    ∷ int_text r.reply_ttl
    ∷ int_text r.reply_size
    ∷ r.reply_mpls_labels
    ∷ int_text r.rtt
    ∷ int_text r.round
    ∷ []

abbrev pub response_line : Bool → CaracalResponse → Text
response_line mapped r = join b',' (fields_of mapped r)

-- An address without its mapped prefix, and without a comma.
abbrev pub IsPlainAddress : Text → Type 0
IsPlainAddress a = Lacks b',' a × (has_prefix a mapped_prefix ≡ false)

-- A response whose numbers fit in an int64 and whose texts are plain.
pub record IsPrintable (r : CaracalResponse) : Type 0 where
  pub capture_timestamp : InInt64 r.capture_timestamp
  pub probe_protocol : InInt64 r.probe_protocol
  pub probe_src_addr : IsPlainAddress r.probe_src_addr
  pub probe_dst_addr : IsPlainAddress r.probe_dst_addr
  pub probe_src_port : InInt64 r.probe_src_port
  pub probe_dst_port : InInt64 r.probe_dst_port
  pub probe_ttl : InInt64 r.probe_ttl
  pub quoted_ttl : InInt64 r.quoted_ttl
  pub reply_src_addr : IsPlainAddress r.reply_src_addr
  pub reply_protocol : InInt64 r.reply_protocol
  pub reply_icmp_type : InInt64 r.reply_icmp_type
  pub reply_icmp_code : InInt64 r.reply_icmp_code
  pub reply_ttl : InInt64 r.reply_ttl
  pub reply_size : InInt64 r.reply_size
  pub reply_mpls_labels : Lacks b',' r.reply_mpls_labels
  pub rtt : InInt64 r.rtt
  pub round : InInt64 r.round

-- The prefix is taken off a mapped address, and no other address is changed.
clean_ipv4-printed :
    (mapped : Bool) (a : Text)
    → has_prefix a mapped_prefix ≡ false
    → clean_ipv4 (printed_address mapped a) ≡ a
unfolding clean_ipv4 has_prefix trim_prefix after_prefix
clean_ipv4-printed true a h = refl
clean_ipv4-printed false a h = rw h refl

printed_address-Lacks :
    (mapped : Bool) (a : Text) → Lacks b',' a → Lacks b',' (printed_address mapped a)
printed_address-Lacks false a h = h
printed_address-Lacks true a h =
    All-append (λ c. c ≢ b',') mapped_prefix a
      (
        omega arith,
        (
          omega arith,
          (omega arith, (omega arith, (omega arith, (omega arith, (omega arith, tt))))),
        ),
      )
      h

fields_of-Lacks :
    (mapped : Bool) (r : CaracalResponse) → IsPrintable r → All (Lacks b',') (fields_of mapped r)
fields_of-Lacks mapped r p =
    let number = λ (z : ℤ). int_text-Lacks z in
    (
      number r.capture_timestamp,
      (
        number r.probe_protocol,
        (
          printed_address-Lacks mapped _ p.probe_src_addr.0,
          (
            printed_address-Lacks mapped _ p.probe_dst_addr.0,
            (
              number r.probe_src_port,
              (
                number r.probe_dst_port,
                (
                  number r.probe_ttl,
                  (
                    number r.quoted_ttl,
                    (
                      printed_address-Lacks mapped _ p.reply_src_addr.0,
                      (
                        number r.reply_protocol,
                        (
                          number r.reply_icmp_type,
                          (
                            number r.reply_icmp_code,
                            (
                              number r.reply_ttl,
                              (
                                number r.reply_size,
                                (p.reply_mpls_labels, (number r.rtt, (number r.round, tt))),
                              ),
                            ),
                          ),
                        ),
                      ),
                    ),
                  ),
                ),
              ),
            ),
          ),
        ),
      ),
    )

response_of-fields_of :
    (mapped : Bool) (r : CaracalResponse) → IsPrintable r → response_of (fields_of mapped r) ≡ r
unfolding response_of
response_of-fields_of mapped r p = λ i. record {
  capture_timestamp = parse_int-int_text _ p.capture_timestamp i;
  probe_protocol = parse_int-int_text _ p.probe_protocol i;
  probe_src_addr = clean_ipv4-printed mapped _ p.probe_src_addr.1 i;
  probe_dst_addr = clean_ipv4-printed mapped _ p.probe_dst_addr.1 i;
  probe_src_port = parse_int-int_text _ p.probe_src_port i;
  probe_dst_port = parse_int-int_text _ p.probe_dst_port i;
  probe_ttl = parse_int-int_text _ p.probe_ttl i;
  quoted_ttl = parse_int-int_text _ p.quoted_ttl i;
  reply_src_addr = clean_ipv4-printed mapped _ p.reply_src_addr.1 i;
  reply_protocol = parse_int-int_text _ p.reply_protocol i;
  reply_icmp_type = parse_int-int_text _ p.reply_icmp_type i;
  reply_icmp_code = parse_int-int_text _ p.reply_icmp_code i;
  reply_ttl = parse_int-int_text _ p.reply_ttl i;
  reply_size = parse_int-int_text _ p.reply_size i;
  reply_mpls_labels = r.reply_mpls_labels;
  rtt = parse_int-int_text _ p.rtt i;
  round = parse_int-int_text _ p.round i;
}

-- The line of a response with numbers of an int64, addresses without a comma, and a label text without
-- commas is read back as that response, whether its addresses are printed mapped or not.
pub parse_caracal_response-line :
    (mapped : Bool) (r : CaracalResponse)
    → IsPrintable r
    → parse_caracal_response (response_line mapped r) ≡ some r
unfolding parse_caracal_response
parse_caracal_response-line mapped r p =
    rw (split-join b',' _ _ (fields_of-Lacks mapped r p))
      (ap (λ t. some t) (response_of-fields_of mapped r p))

-- A probe line whose destination and protocol hold no comma is cut into the destination, the two
-- ports, the TTL and the protocol with its line end.
pub split-probe_line :
    (dst : Text) (src port ttl : ℕ) (protocol : Text)
    → Lacks b',' dst
    → Lacks b',' protocol
    → split b',' (probe_line dst src port ttl protocol)
      ≡ dst ∷ decimal src ∷ decimal port ∷ decimal ttl ∷ (protocol ++ b'\n' ∷ []) ∷ []
unfolding probe_line
split-probe_line dst src port ttl protocol h k =
    let number = λ (n : ℕ). decimal-Lacks b',' n (inl (omega arith)) in
    let last =
      split_whole b',' _ (All-append (λ c. c ≢ b',') protocol (b'\n' ∷ []) k (omega arith, tt)) in
    rw (split-append b',' _ _ h) (
      rw (split-append b',' _ _ (number src)) (
        rw (split-append b',' _ _ (number port))
          (rw (split-append b',' _ _ (number ttl)) (rw last))))
