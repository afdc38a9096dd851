-- ===== src/Api/Config.antt =====
-- The configuration structs of internal/api/types.go.
use iprl_poc.Common.{
  ℕ, List, [], Option, none, some, Text, codes, ite, text_eq, ◌≡◌, refl, ◌==◌, if◌then◌else◌,
}
use iprl_poc.Common.Int.{ℤ}
use iprl_poc.Strings.{to_lower}
use iprl_poc.Proto.{VantagePointProvider, provider_unknown, gcp, aws, edgenet}
use iprl_poc.Util.{parse_provider}

pub record MockPdgConfig : Type 0 where
  pub software_version : Text
  pub default_probing_rate_per_seconds : ℕ
  pub seed : ℤ
  pub min_ttl : ℕ
  pub max_ttl : ℕ
  pub address : Text

pub record MockPaConfig : Type 0 where
  pub software_version : Text
  pub seed : ℤ
  pub address : Text
  pub default_probing_rate_per_second : ℕ
  pub directive_buffer_length : ℕ
  pub vantage_point_ip : List ℕ
  pub vantage_point_id : Text
  pub vantage_point_asn : ℕ
  pub vantage_point_location : Text
  pub vantage_point_provider : Text

pub record PoConfig : Type 0 where
  pub software_version : Text
  pub default_probing_rate_per_seconds : ℕ
  pub address : Text

unfoldable pub get_vantage_point_asn : MockPaConfig → Option ℕ
get_vantage_point_asn m = if m.vantage_point_asn == 0 then none else some m.vantage_point_asn

unfoldable pub get_vantage_point_location : MockPaConfig → Option Text
get_vantage_point_location m =
    ite (text_eq m.vantage_point_location []) none (some m.vantage_point_location)

-- The switch compares the text as it is.
unfoldable pub get_vantage_point_provider : MockPaConfig → VantagePointProvider
get_vantage_point_provider m =
    let s = m.vantage_point_provider in
    ite (text_eq s (codes "gcp")) gcp (
      ite (text_eq s (codes "aws")) aws
        (ite (text_eq s (codes "edgenet")) edgenet provider_unknown))

-- The provider of a configuration is what `ParseProvider` makes of any spelling of its name in upper
-- and lower case, where the configuration has the name in lower case.
pub get_vantage_point_provider-parse_provider :
    (m : MockPaConfig) (s : Text)
    → m.vantage_point_provider ≡ to_lower s
    → get_vantage_point_provider m ≡ parse_provider s
unfolding get_vantage_point_provider parse_provider
get_vantage_point_provider-parse_provider m s e = rw e refl
