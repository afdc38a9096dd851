-- ===== src/Agent/Prober/Reader.antt =====
-- `readCaracalOutput` of internal/components/agent/caracal_prober.go: the loop over the tool's
-- output.
use iprl_poc.Common.{
  ℕ, List, [], ◌∷◌, none, some, Bool, false, ◌≡◌, refl, Text, map, if◌then◌else◌, arith,
}
use iprl_poc.Strings.{has_prefix}
use iprl_poc.Agent.Caracal.{CaracalResponse, read_line}
use iprl_poc.Agent.Caracal.RoundTrip.{response_line, IsPrintable}
use iprl_poc.Agent.Caracal.Reading.{read_line-line}
use iprl_poc.Agent.Prober.{
  Net, CaracalProber, Emission, nothing_to_emit, emitted, given_up, emission_waits, emission_panics,
  handle_response,
}

-- A line that is scanned at a time: whether the first select takes a Done case, and whether the one
-- that sends does.
pub record OutputLine : Type 0 where
  pub line : Text
  pub now : ℕ
  pub is_done : Bool
  pub gives_up : Bool

-- How the loop stands: it has returned, waits in its send, has panicked, or scans for another line.
pub data ReaderEnd : Type 0 where
  reader_returned reader_waits reader_panics reader_scans : ReaderEnd

-- `rest` is what the next lines do.
unfoldable pub after_emission :
    Emission → CaracalProber → CaracalProber × ReaderEnd → CaracalProber × ReaderEnd
after_emission emission_waits c rest = (c, reader_waits)
after_emission emission_panics c rest = (c, reader_panics)
after_emission nothing_to_emit c rest = rest
after_emission emitted c rest = rest
after_emission given_up c rest = rest

unfoldable pub read_caracal_output :
    Net → List OutputLine → CaracalProber → CaracalProber × ReaderEnd
unfolding after_emission
read_caracal_output net [] c = (c, reader_scans)
read_caracal_output net (l ∷ ls) c =
    if l.is_done then (c, reader_returned) else elim (read_line l.line) [
      | none ↦ read_caracal_output net ls c
      | some r ↦
          let (c', emission) = handle_response net l.now l.gives_up r c in
          after_emission emission c' (read_caracal_output net ls c')
    ]

-- What the tool prints: an answer, where the first flag says that its addresses are mapped to IPv6, or
-- a comment.
pub data Printed : Type 0 where
  answer : ℕ → Bool → Bool → CaracalResponse → Printed
  comment : ℕ → Text → Printed

abbrev pub output_line : Printed → OutputLine
output_line (answer now mapped gives_up r) = record {
  line = response_line mapped r;
  now = now;
  is_done = false;
  gives_up = gives_up;
}
output_line (comment now t) = record {
  line = b'#' ∷ t;
  now = now;
  is_done = false;
  gives_up = false;
}

-- The answers handled one after another.
abbrev pub handle_all : Net → List Printed → CaracalProber → CaracalProber × ReaderEnd
handle_all net [] c = (c, reader_scans)
handle_all net (answer now mapped gives_up r ∷ ps) c =
    let (c', emission) = handle_response net now gives_up r c in
    after_emission emission c' (handle_all net ps c')
handle_all net (comment now t ∷ ps) c = handle_all net ps c

abbrev pub AllPrintable : List Printed → Type 0
AllPrintable [] = Unit
AllPrintable (answer now mapped gives_up r ∷ ps) = IsPrintable r × AllPrintable ps
AllPrintable (comment now t ∷ ps) = AllPrintable ps

read_line-comment : (t : Text) → read_line (b'#' ∷ t) ≡ none
unfolding read_line has_prefix
read_line-comment t = ground arith

-- Reading the lines that the tool prints for answers, with comments between them, is handling these
-- answers, in order. The answers have numbers of an int64, addresses without a comma, which are printed
-- as they are or with the prefix ::ffff:, and label texts without commas.
pub read_caracal_output-handle_all :
    (net : Net) (ps : List Printed) (c : CaracalProber)
    → AllPrintable ps
    → read_caracal_output net (map output_line ps) c ≡ handle_all net ps c
unfolding read_caracal_output
read_caracal_output-handle_all net [] c h = refl
read_caracal_output-handle_all net (answer now mapped gives_up r ∷ ps) c (here, later) =
    let (c', emission) = handle_response net now gives_up r c in
    rw (read_line-line mapped r here, read_caracal_output)
      (rw (read_caracal_output-handle_all net ps c' later) refl)
read_caracal_output-handle_all net (comment now t ∷ ps) c h =
    rw (read_line-comment t, read_caracal_output) (read_caracal_output-handle_all net ps c h)
