-- ===== src/Inspections/Scoring.antt =====
-- `score_assessment` (app/services/inspection_scoring.py). Its inputs are what the request model of
-- app/schemas/inspections.py admits.
pub mod Laws
use urban_farming_backend.Prelude.{
  ℕ, ◌+◌, ◌-◌, ◌*◌, ◌^◌, min, Bool, not, ◌&&◌, List, [], ◌∷◌, leb, is_empty, if◌then◌else◌,
}
use urban_farming_backend.Json.{Double}
use urban_farming_backend.Db.Status.{WaterAccess, Severity, Band, InstallType}

-- The fields of `InspectionAssessment` that the score reads.
pub record InspectionAssessment : Type 0 where
  pub sunlight_hours : Double
  pub water_access : WaterAccess
  pub usable_space_m2 : Double
  pub installation_types : List InstallType
  pub risks : List Severity

-- `score_breakdown`
pub record Breakdown : Type 0 where
  pub sunlight : ℕ
  pub water : ℕ
  pub usable_space : ℕ
  pub installation_fit : ℕ
  pub safety : ℕ

pub record AssessmentResult : Type 0 where
  pub suitability_score : ℕ
  pub score_breakdown : Breakdown
  pub suitability_band : Band

-- `x >= n`, for a positive whole number `n`; a double's unit is 2 ^ -1074.
unfoldable pub at_least : ℕ → Double → Bool
at_least n x = not x.negative && leb (n * 2 ^ 1074) x.units

abbrev pub sunlight_score : Double → ℕ
sunlight_score x =
    if at_least 6 x then 30 else (if at_least 4 x then 22 else (if at_least 2 x then 10 else 0))

abbrev pub water_score : WaterAccess → ℕ
water_score WaterAccess.reliable = 25
water_score WaterAccess.limited = 12
water_score WaterAccess.none = 0

abbrev pub space_score : Double → ℕ
space_score x =
    if at_least 10 x then 20 else (if at_least 5 x then 15 else (if at_least 2 x then 8 else 3))

abbrev pub severity_penalty : Severity → ℕ
severity_penalty Severity.low = 2
severity_penalty Severity.medium = 5
severity_penalty Severity.high = 10

abbrev pub penalties : List Severity → ℕ
penalties [] = 0
penalties (s ∷ rest) = severity_penalty s + penalties rest

-- `min(15, sum(...))`
abbrev pub risk_penalty : List Severity → ℕ
risk_penalty risks = if leb 15 (penalties risks) then 15 else penalties risks

abbrev pub breakdown : InspectionAssessment → Breakdown
breakdown a = record {
  sunlight = sunlight_score a.sunlight_hours;
  water = water_score a.water_access;
  usable_space = space_score a.usable_space_m2;
  installation_fit = if is_empty a.installation_types then 0 else 10;
  safety = 15 - risk_penalty a.risks;
}

-- `sum(breakdown.values())`
abbrev pub sum_of : Breakdown → ℕ
sum_of b = b.sunlight + b.water + b.usable_space + b.installation_fit + b.safety

abbrev pub band_of : ℕ → Band
band_of total =
    if leb 75 total
    then Band.suitable
    else (if leb 55 total then Band.conditional else Band.not_suitable)

unfoldable pub score_assessment : InspectionAssessment → AssessmentResult
score_assessment a = record {
  suitability_score = sum_of (breakdown a);
  score_breakdown = breakdown a;
  suitability_band = band_of (sum_of (breakdown a));
}
