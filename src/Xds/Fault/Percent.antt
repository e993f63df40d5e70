-- ===== src/Xds/Fault/Percent.antt =====
-- The percentage that convertPercent of pkg/amesh/provisioner/route_translator.go gives.
use amesh.Prelude.{ℕ, ◌+◌, ◌*◌, ◌≤◌, ◌<◌, ◌≡◌, ◌⊎◌, some, arith}
use amesh.Xds.Envoy.{
  FractionalPercent, Denominator, hundred, ten_thousand, million, unknown_denominator,
}
use amesh.Xds.Fault.{convert_percent}

-- how many parts make one percent
abbrev pub parts_per_percent : Denominator → ℕ
parts_per_percent hundred = 1
parts_per_percent ten_thousand = 100
parts_per_percent million = 10000
parts_per_percent unknown_denominator = 0

bounds_of :
    (n : ℕ) (d : Denominator)
    → (convert_percent (some (record { numerator = n; denominator = d })) ≤ 100)
      × (convert_percent (some (record { numerator = n; denominator = d })) * parts_per_percent d
          ≤ n)
      × ((convert_percent (some (record { numerator = n; denominator = d })) ≡ 100)
          ⊎ (d ≡ unknown_denominator)
          ⊎ (n
              < (convert_percent (some (record { numerator = n; denominator = d })) + 1)
                * parts_per_percent d))
unfolding convert_percent
bounds_of n hundred = ground arith
bounds_of n ten_thousand = ground arith
bounds_of n million = ground arith
bounds_of n unknown_denominator = ground arith

-- The result is at most 100, and for a known denominator it is the fraction rounded down to whole
-- percents, or 100 where the fraction is above that.
pub convert_percent_bounds :
    (p : FractionalPercent)
    → (convert_percent (some p) ≤ 100)
      × (convert_percent (some p) * parts_per_percent p.denominator ≤ p.numerator)
      × ((convert_percent (some p) ≡ 100)
          ⊎ (p.denominator ≡ unknown_denominator)
          ⊎ (p.numerator < (convert_percent (some p) + 1) * parts_per_percent p.denominator))
convert_percent_bounds p = bounds_of p.numerator p.denominator
