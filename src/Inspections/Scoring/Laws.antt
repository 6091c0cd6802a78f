-- ===== src/Inspections/Scoring/Laws.antt =====
-- What a score says of a site.
use urban_farming_backend.Prelude.{◌≤◌, ◌<◌, ◌≡◌, true, false, [], ◌∷◌, arith, is_empty}
use urban_farming_backend.Db.Status.{WaterAccess, Severity, Band}
use urban_farming_backend.Inspections.Scoring.{InspectionAssessment, at_least, score_assessment}

-- A score lies between 3 and 100; it is at least 75 if the band is `suitable`, and below 55 if it is
-- `not_suitable`.
pub score_assessment-bounds :
    (a : InspectionAssessment)
    → let s = score_assessment a in
      (s.suitability_score ≤ 100)
      × (3 ≤ s.suitability_score)
      × (s.suitability_band ≡ Band.suitable → 75 ≤ s.suitability_score)
      × (s.suitability_band ≡ Band.not_suitable → s.suitability_score < 55)
unfolding score_assessment
score_assessment-bounds a = ground arith

-- A site without water is suitable only if nothing else is to be said against it.
pub score_assessment-dry :
    (a : InspectionAssessment)
    → a.water_access ≡ WaterAccess.none
    → (score_assessment a).suitability_band ≡ Band.suitable
    → (at_least 6 a.sunlight_hours ≡ true)
      × (at_least 10 a.usable_space_m2 ≡ true)
      × (is_empty a.installation_types ≡ false)
      × (a.risks ≡ [])
unfolding score_assessment
score_assessment-dry a dry h = ground arith

-- A further risk never raises the score.
pub score_assessment-risk :
    (a : InspectionAssessment) (s : Severity)
    → (score_assessment (record a { risks = s ∷ a.risks })).suitability_score
      ≤ (score_assessment a).suitability_score
unfolding score_assessment
score_assessment-risk a s = ground arith
