-- ===== src/Samples/Views.antt =====
-- Samples of the views of internal/api/types.go.
use iprl_poc.Common.{
  ℕ, List, [], ◌∷◌, some, ◌≡◌, ◌≢◌, refl, ap, sym, ◌∙◌, Text, arith, All, map, inl, inr,
}
use iprl_poc.Common.Int.{pos}
use iprl_poc.Common.Draws.{IsAddress}
use iprl_poc.Strings.{split, join}
use iprl_poc.Strings.Split.{Lacks, split-join}
use iprl_poc.Strconv.{decimal}
use iprl_poc.Strconv.Laws.{decimal-Lacks, decimal_inj}
use iprl_poc.Proto.{ForwardingInfoElement}
use iprl_poc.Api.Views.{PrintsV4, IsComplete, from_proto_inj}
use iprl_poc.Samples.Data.{some_element, paris}

-- Decimal numbers with dots between them.
abbrev dotted : List ℕ → Text
dotted a = join b'.' (map decimal a)

decimals-Lacks : (a : List ℕ) → All (Lacks b'.') (map decimal a)
decimals-Lacks [] = tt
decimals-Lacks (b ∷ a) = (decimal-Lacks b'.' b (inl (omega arith)), decimals-Lacks a)

decimals_inj : (a b : List ℕ) → map decimal a ≡ map decimal b → a ≡ b
decimals_inj [] [] e = refl
decimals_inj [] (c ∷ b) e = ground arith
decimals_inj (c ∷ a) [] e = ground arith
decimals_inj (c ∷ a) (d ∷ b) e = ground (arith, decimals_inj a b, decimal_inj c d)

split-dotted : (c : ℕ) (a : List ℕ) → split b'.' (dotted (c ∷ a)) ≡ map decimal (c ∷ a)
split-dotted c a = split-join b'.' (decimal c) (map decimal a) (decimals-Lacks (c ∷ a))

dotted_inj : (a b : List ℕ) → IsAddress a → IsAddress b → dotted a ≡ dotted b → a ≡ b
dotted_inj [] b h k e = absurd (ground (arith, h.0))
dotted_inj (c ∷ a) [] h k e = absurd (ground (arith, k.0))
dotted_inj (c ∷ a) (d ∷ b) h k e =
    decimals_inj (c ∷ a) (d ∷ b) (sym (split-dotted c a) ∙ ap (split b'.') e ∙ split-dotted d b)

dotted-ne-nil : (a : List ℕ) → IsAddress a → dotted a ≢ []
unfolding split
dotted-ne-nil [] h e = absurd (ground (arith, h.0))
dotted-ne-nil (c ∷ []) h e = absurd (ground (arith, h.0))
dotted-ne-nil (c ∷ d ∷ a) h e =
    let parts : map decimal (c ∷ d ∷ a) ≡ [] ∷ [] =
      sym (split-dotted c (d ∷ a)) ∙ ap (split b'.') e in
    ground arith

dotted-PrintsV4 : PrintsV4 dotted
dotted-PrintsV4 = record { not_empty = dotted-ne-nil; tells = dotted_inj }

abbrev timed_element : ForwardingInfoElement
timed_element = record some_element { construction_timestamp = some (pos 1000000000) }

timed_element-IsComplete : IsComplete timed_element
timed_element-IsComplete = record {
  vantage = paris;
  placed = refl;
  public_address = inr (refl, (omega arith, (omega arith, (omega arith, (omega arith, tt)))));
  near_reply_address = inl refl;
  far_reply_address = inl refl;
  destination_addr = inl refl;
  source_addr = inl refl;
  near_rtt = tt;
  far_rtt = tt;
  made = λ e. ground arith;
}

from_proto_inj_example : timed_element ≡ timed_element
from_proto_inj_example =
    from_proto_inj dotted dotted-PrintsV4 timed_element timed_element timed_element-IsComplete
      timed_element-IsComplete refl
