-- ===== src/Tests/Routes.antt =====
-- Tests of the translation of routes and clusters.
use amesh.Prelude.{ℕ, ◌+◌, ◌*◌, ◌≤◌, ◌<◌, String, ◌≡◌, ◌⊎◌, refl, List, [], ◌∷◌, some, ok}
use amesh.Apisix.Plugin.{TrafficSplitWeightedUpstreams}
use amesh.Xds.Envoy.{ClusterWeight, FractionalPercent, million, unknown_denominator}
use amesh.Xds.Match.{last_cluster}
use amesh.Xds.Split.{split_loop}
use amesh.Xds.Split.Resolve.{Follows, split_loop-Follows}
use amesh.Xds.Fault.{convert_percent}
use amesh.Xds.Fault.Percent.{parts_per_percent, convert_percent_bounds}

abbrev share : String → ℕ → ClusterWeight
share name w = record { name = name; weight = some w }

abbrev shares : List ClusterWeight
shares = share "v1" 90 ∷ share "v2" 10 ∷ []

-- Another id for each name.
abbrev name_id : String → String
name_id name = name

split_loop-Follows_example :
    (us : List TrafficSplitWeightedUpstreams) × (split_loop name_id shares ≡ ok us)
    × Follows name_id "v2" shares us
unfolding last_cluster
split_loop-Follows_example =
    split_loop-Follows name_id shares "v2" ((λ e. cc), ((λ e. cc), tt))
      ((90, refl), ((10, refl), tt)) refl

abbrev part : FractionalPercent
part = record { numerator = 123456; denominator = million }

convert_percent_bounds_example :
    (convert_percent (some part) ≤ 100)
    × (convert_percent (some part) * parts_per_percent part.denominator ≤ part.numerator)
    × ((convert_percent (some part) ≡ 100)
        ⊎ (part.denominator ≡ unknown_denominator)
        ⊎ (part.numerator < (convert_percent (some part) + 1) * parts_per_percent part.denominator))
convert_percent_bounds_example = convert_percent_bounds part

abbrev agent_condition : List String
agent_condition = "http_agent" ∷ "~~" ∷ "^curl" ∷ []
