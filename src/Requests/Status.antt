-- ===== src/Requests/Status.antt =====
-- `update_garden_request_status` (app/routers/gardens.py), on PostgreSQL, without the e-mail that
-- follows. The handler's own reads, each a statement of its own, are made on a database that may
-- have changed when the transaction runs.
pub mod Branches
pub mod Laws
pub mod Effects
use urban_farming_backend.Prelude.{
  Bool, not, ◌&&◌, ◌||◌, Option, none, some, String, List, [], ◌∷◌, is_empty, is_some, all, find,
  where_, ltb, leb, ◌==◌, ◌=?◌, if◌then◌else◌, strip, text_length,
}
use text.Mathlib.Text.{◌==◌ as str_eq}
use urban_farming_backend.Json.{
  Json, str, uuid, stamp, obj, end, field, merge, as_dict, opt_text, opt_uuid,
}
use urban_farming_backend.Db.{
  Db, Result, ok, err, Tx, pure, raise, query, or_raise, raise_if, conflict, not_found, ◌>>=◌, ◌>>◌,
}
use urban_farming_backend.Db.Rows.{GardenRequest, Assignment, Report, Installation, Uuid, Time}
use urban_farming_backend.Db.Status.{
  submitted, inspection_scheduled, accepted, needing_implements, final_install, live, RequestStatus,
  request_status_enum, AssessmentStatus, assessment_status_enum, InstallationStatus,
  installation_status_enum, Band, band_enum, StageKey, StageStatus,
}
use urban_farming_backend.Gateway.Tables.{request_by_id, approved_report, batches_of}
use urban_farming_backend.Gateway.Stages.{StageUpdate}
use urban_farming_backend.Gateway.Advancing.{
  RequestPayload, ReportUpdate, Advance, is_open, is_growing, update_garden_request_workflow,
}
use Branches.{
  StatusUpdate, Review, Found, nothing, of_property, visit_assignment, find_visit, is_later, later,
  latest, is_submitted_on, submitted_report, text_of, is_unsuitable, lacks_rationale, find_approval,
  find_rejection, some_installation, find_activation, stage_to, stage_updates, notes_or_kept,
  report_update, request_payload, advance_with, activate_with,
}

abbrev pub is_cancellable : RequestStatus → Bool
is_cancellable s = not (s =? live || (s =? RequestStatus.rejected || s =? RequestStatus.cancelled))

unfoldable pub choose_visit : Review → GardenRequest → Tx Advance
choose_visit v r = do f ← find_visit r; pure (advance_with v r f)

unfoldable pub choose_approval : Review → GardenRequest → Tx Advance
choose_approval v r = do f ← find_approval r v.payload; pure (advance_with v r f)

unfoldable pub choose_rejection : Review → GardenRequest → Tx Advance
choose_rejection v r = do f ← find_rejection r; pure (advance_with v r f)

unfoldable pub choose_activation : Review → GardenRequest → Tx Advance
choose_activation v r = do find_activation r; pure (activate_with v r)

-- The branches on the target and the current status.
unfoldable pub choose : Review → GardenRequest → Tx Advance
choose v r =
    let target = v.payload.status in
    let current = r.status in
    if target =? inspection_scheduled && current =? submitted
    then choose_visit v r
    else (if target =? accepted && current =? inspection_scheduled
        then choose_approval v r
        else (if target =? RequestStatus.rejected
              && (current =? submitted || current =? inspection_scheduled)
            then choose_rejection v r
            else (if target =? needing_implements && current =? accepted
                then pure (advance_with v r nothing)
                else (if target =? live && current =? final_install
                    then choose_activation v r
                    else (if target =? RequestStatus.cancelled && is_cancellable current
                        then pure (advance_with v r nothing)
                        else raise (conflict "invalid_request_transition"))))))

-- The handler up to the transaction.
unfoldable pub decide : Review → Tx Advance
decide v = do
  row ← query (request_by_id v.request_id)
  request_row ← or_raise row (not_found "request_not_found")
  choose v request_row

abbrev pub after_decision : Result (Advance × Db) → Tx GardenRequest
after_decision (ok (a, seen)) = update_garden_request_workflow a
after_decision (err e) = raise e

-- `seen` is the database that the handler's own reads see.
unfoldable pub update_garden_request_status : Review → Db → Tx GardenRequest
update_garden_request_status v seen = after_decision (decide v seen)
