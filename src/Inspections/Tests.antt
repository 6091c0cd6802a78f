-- ===== src/Inspections/Tests.antt =====
-- Scores of sites, and the evidence of an inspection.
use urban_farming_backend.Prelude.{
  ◌≡◌, ◌≤◌, ◌<◌, ◌*◌, ◌^◌, refl, true, false, none, [], ◌∷◌, All, is_empty,
}
use urban_farming_backend.Json.{Double}
use urban_farming_backend.Db.Rows.{ChecklistItem, Photo}
use urban_farming_backend.Db.Status.{WaterAccess, Severity, Band, InstallType, CheckResult}
use urban_farming_backend.Inspections.Scoring.{InspectionAssessment, at_least, score_assessment}
use urban_farming_backend.Inspections.Scoring.Laws.{
  score_assessment-bounds, score_assessment-dry, score_assessment-risk,
}
use urban_farming_backend.Inspections.Evidence.{inspection_evidence_gaps}
use urban_farming_backend.Inspections.Evidence.Laws.{
  HasEvidence, inspection_evidence_gaps-HasEvidence,
}

abbrev twelve : Double
twelve = record { negative = false; units = 12 * 2 ^ 1074 }

-- A sunny, large site without water and without risks.
abbrev dry_site : InspectionAssessment
dry_site = record {
  sunlight_hours = twelve;
  water_access = WaterAccess.none;
  usable_space_m2 = twelve;
  installation_types = InstallType.raised_bed ∷ [];
  risks = [];
}

score_assessment-bounds_example :
    ((score_assessment dry_site).suitability_score ≤ 100)
    × (3 ≤ (score_assessment dry_site).suitability_score)
    × ((score_assessment dry_site).suitability_band ≡ Band.suitable
        → 75 ≤ (score_assessment dry_site).suitability_score)
    × ((score_assessment dry_site).suitability_band ≡ Band.not_suitable
        → (score_assessment dry_site).suitability_score < 55)
score_assessment-bounds_example = score_assessment-bounds dry_site

dry_site-suitable : (score_assessment dry_site).suitability_band ≡ Band.suitable
unfolding score_assessment at_least
dry_site-suitable = refl

score_assessment-dry_example :
    (at_least 6 twelve ≡ true)
    × (at_least 10 twelve ≡ true)
    × (is_empty dry_site.installation_types ≡ false)
    × (dry_site.risks ≡ [])
score_assessment-dry_example = score_assessment-dry dry_site refl dry_site-suitable

score_assessment-risk_example :
    (score_assessment (record dry_site { risks = Severity.high ∷ [] })).suitability_score
    ≤ (score_assessment dry_site).suitability_score
score_assessment-risk_example = score_assessment-risk dry_site Severity.high

abbrev item : ChecklistItem
item = record {
  id = 90;
  report_id = 40;
  category = "Irrigation Status";
  item_name = "Pump";
  result = CheckResult.pass;
  comment = none;
  requires_photo = true;
  sort_order = 0;
}

abbrev photo : Photo
photo = record { id = 91; report_id = 40; checklist_item_id = none; photo_type = "irrigation" }

inspection_evidence_gaps-HasEvidence_example :
    (inspection_evidence_gaps (photo ∷ []) (item ∷ []) ≡ ([], [])
      → All (HasEvidence (photo ∷ [])) (item ∷ []))
    × (All (HasEvidence (photo ∷ [])) (item ∷ [])
        → inspection_evidence_gaps (photo ∷ []) (item ∷ []) ≡ ([], []))
inspection_evidence_gaps-HasEvidence_example =
    inspection_evidence_gaps-HasEvidence (photo ∷ []) (item ∷ [])
