-- ===== src/Gateway/Installing/Effects.antt =====
-- What a recorded installation has done.
use mathlib.Core.Path.{subst}
use urban_farming_backend.Prelude.{◌≡◌, refl, ap, ◌∙◌, ◌≢◌, Option, none, some, find, ◌==◌}
use urban_farming_backend.Db.{Db, ok}
use urban_farming_backend.Db.Rows.{GardenRequest, Installation, Uuid, Time}
use urban_farming_backend.Db.Status.{installation_status_enum}
use urban_farming_backend.Db.Laws.{bind-ok, checked-eq-ok}
use urban_farming_backend.Gateway.Tables.Laws.{
  request_by_id-with_request_row, request_by_id-with_request_row_ne,
}
use urban_farming_backend.Gateway.Tables.{request_by_id, approved_report, active_installation}
use urban_farming_backend.Gateway.Installing.{
  InstallationPayload, Installing, check_installing, first_installation, installed_request,
  write_installing, complete_garden_installation,
}
use urban_farming_backend.Gateway.Installing.Laws.{
  IsReadyToInstall, check_installing_sound, check_installing-ready, write_installing-ready,
  active_installation-recorded, recorded_installation, with_upserted, after_installing,
}

-- What a recorded installation has done.
pub record IsInstalled (request_id property : Uuid) (payload : InstallationPayload) (c : Installing)
    (r : GardenRequest) (i : Installation) (db db' : Db) : Type 0 where
  pub ready : IsReadyToInstall request_id property db c
  pub stored : request_by_id request_id db' ≡ some r
  pub advanced : r ≡ installed_request c.request
  pub active : active_installation property db' ≡ some i
  pub dated : i.installed_at ≡ some payload.installed_at
  pub owned : i.owner_id ≡ c.request.owner_id
  pub others : (j : Uuid) → j ≢ request_id → request_by_id j db' ≡ request_by_id j db
  pub approved : approved_report property db' ≡ approved_report property db
  pub batches : db'.crop_batches ≡ db.crop_batches

module _ (request_id property : Uuid) (payload : InstallationPayload) (actor : Uuid) (now : Time)
    (db : Db) where
  recorded_installation-columns :
      (c : Installing) (existing : Option Installation)
      → let i = recorded_installation property payload now c db existing in
        (i.installed_at ≡ some payload.installed_at) × (i.owner_id ≡ c.request.owner_id)
  recorded_installation-columns c none = (refl, refl)
  recorded_installation-columns c (some e) = (refl, refl)

  -- The writes on the installations leave the requests, the reports and the batches alone.
  with_upserted-rest :
      (c : Installing) (existing : Option Installation)
      → let db' = with_upserted property payload now c db existing in
        (db'.garden_requests ≡ db.garden_requests)
        × (db'.inspection_reports ≡ db.inspection_reports)
        × (db'.crop_batches ≡ db.crop_batches)
  with_upserted-rest c none = (refl, refl, refl)
  with_upserted-rest c (some e) = (refl, refl, refl)

  after_installing-IsInstalled :
      (c : Installing)
      → IsReadyToInstall request_id property db c
      → (existing : Option Installation) → first_installation property db ≡ existing
      → IsInstalled request_id property payload c
          (installed_request c.request)
          (recorded_installation property payload now c db existing)
          db
          (after_installing request_id property payload actor now c db existing)
  unfolding approved_report active_installation
  after_installing-IsInstalled c h existing first =
      let middle = with_upserted property payload now c db existing in
      let (same_requests, same_reports, same_batches) = with_upserted-rest c existing in
      let (dated, owned) = recorded_installation-columns c existing in
      record {
        ready = h;
        stored =
            request_by_id-with_request_row request_id installed_request (λ r. refl) middle c.request
              (rw same_requests h.found);
        advanced = refl;
        active =
            active_installation-recorded request_id property payload actor now db c existing first;
        dated = dated;
        owned = owned;
        others = λ j ne.
            request_by_id-with_request_row_ne request_id installed_request (λ r. refl) middle j ne
            ∙ ap (find (λ r. r.id == j)) same_requests;
        approved = ap (find _) same_reports;
        batches = same_batches;
      }

  -- An installation that commits was awaited: the request is in `needing_implements`, linked to this
  -- property, whose assessment is approved, and both stages exist. It leaves the request in
  -- `implements_installed`, and the property with an active installation, dated as in the payload and
  -- owned by the request's owner, which is the one returned; other requests, the reports' approval
  -- and the crop batches are as before.
  pub complete_garden_installation-IsInstalled :
      (x : (GardenRequest × Installation) × Db)
      → complete_garden_installation request_id property payload actor now db ≡ ok x
      → (c : Installing) × IsInstalled request_id property payload c x.0.0 x.0.1 db x.1
  unfolding complete_garden_installation
  complete_garden_installation-IsInstalled x h =
      let existing = first_installation property db in
      let (c, ready, same) =
        checked-eq-ok (check_installing request_id property)
          (write_installing request_id property payload actor now) db
          (IsReadyToInstall request_id property db)
          (λ c. (
            (installed_request c.request, recorded_installation property payload now c db existing),
            after_installing request_id property payload actor now c db existing,
          ))
          (λ c db'. check_installing_sound request_id property db db' c)
          (λ c r. write_installing-ready request_id property payload actor now db c r existing refl)
          x h in
      (
        c,
        subst (λ y. IsInstalled request_id property payload c y.0.0 y.0.1 db y.1) same
            (after_installing-IsInstalled c ready existing refl),
      )

  -- An installation that is awaited is recorded: no later step of the transaction refuses it.
  pub complete_garden_installation-commits :
      (c : Installing)
      → IsReadyToInstall request_id property db c
      → let existing = first_installation property db in
        complete_garden_installation request_id property payload actor now db
        ≡ ok (
          (installed_request c.request, recorded_installation property payload now c db existing),
          after_installing request_id property payload actor now c db existing,
        )
  unfolding complete_garden_installation
  complete_garden_installation-commits c h =
      bind-ok (check_installing request_id property)
        (write_installing request_id property payload actor now) db db c _
        (check_installing-ready request_id property db c h)
        (write_installing-ready request_id property payload actor now db c h _ refl)
