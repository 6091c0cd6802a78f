-- ===== src/Gateway/Installing/Laws.antt =====
-- What an installation checks, and that its writes never fail.
use urban_farming_backend.Prelude.{
  suc, ◌≡◌, refl, Option, none, some, [], ◌∷◌, where_, ◌==◌, ◌=?◌, arith, where_-where_,
  where_-update_where_comm, where_-append, ◌++◌,
}
use urban_farming_backend.Db.{Db, ok}
use urban_farming_backend.Db.Rows.{Installation, Uuid, Time}
use urban_farming_backend.Db.Status.{
  needing_implements, InstallationStatus, installation_status_enum, StageKey,
}
use urban_farming_backend.Gateway.Tables.Laws.{
  update_stage-HasStage, stage_of-HasStage, with_stage-HasStage, HasStage, update_request_row-found,
}
use urban_farming_backend.Gateway.Tables.Oldest.{oldest-none, oldest-active_after}
use urban_farming_backend.Gateway.Tables.{
  request_by_id, approved_report, active_installation, stage_of, with_request_row, with_stage,
}
use urban_farming_backend.Gateway.Installing.{
  InstallationPayload, Installing, check_installing, first_installation, reinstalled,
  new_installation, with_installation, with_new_installation, installed_request, stage_installed,
  stage_allocatable, advance_installing, write_installing,
}

-- What has to hold before an installation is recorded.
pub record IsReadyToInstall (request_id property : Uuid) (db : Db) (c : Installing) : Type 0 where
  pub found : request_by_id request_id db ≡ some c.request
  pub waiting : c.request.status ≡ needing_implements
  pub linked : c.request.property_id ≡ some property
  pub approved : approved_report property db ≡ some c.report
  pub staged : stage_of request_id StageKey.installation db ≡ some c.installation_stage
  pub next_staged : stage_of request_id StageKey.crop_allocation db ≡ some c.allocation_stage

pub check_installing_sound :
    (request_id property : Uuid) (db db' : Db) (c : Installing)
    → check_installing request_id property db ≡ ok (c, db')
    → (db ≡ db') × IsReadyToInstall request_id property db c
unfolding check_installing
check_installing_sound request_id property db db' c h = ground arith

pub check_installing-ready :
    (request_id property : Uuid) (db : Db) (c : Installing)
    → IsReadyToInstall request_id property db c
    → check_installing request_id property db ≡ ok (c, db)
unfolding check_installing
check_installing-ready request_id property db c h = ground arith

-- The installation that is updated, the oldest of the property, is its active one afterwards.
active_installation-reinstalled :
    (property owner : Uuid) (payload : InstallationPayload) (e : Installation) (db : Db)
    → first_installation property db ≡ some e
    → active_installation property (with_installation e.id (reinstalled owner payload) db)
      ≡ some (reinstalled owner payload e)
unfolding active_installation
active_installation-reinstalled property owner payload e db first =
    rw
      (
        where_-where_ (λ (i : Installation). i.property_id == property)
            (λ i. i.status =? InstallationStatus.active),
        where_-update_where_comm (λ i. i.property_id == property) (λ i. i.id == e.id)
            (reinstalled owner payload) (λ i. refl) db.installations,
      )
      (oldest-active_after e (reinstalled owner payload) (λ i. refl) (λ i. refl)
        (where_ (λ i. i.property_id == property) db.installations) first)

-- The installation that is inserted, where the property has none, is its active one.
active_installation-new :
    (property : Uuid) (n : Installation) (db : Db)
    → first_installation property db ≡ none
    → n.property_id ≡ property
    → n.status ≡ InstallationStatus.active
    → active_installation property (with_new_installation n db) ≡ some n
unfolding active_installation
active_installation-new property n db empty here active = ground (
  arith,
  where_-where_ (λ (i : Installation). i.property_id == property)
      (λ i. i.status =? InstallationStatus.active) (db.installations ++ n ∷ []),
  where_-append (λ i. i.property_id == property) db.installations (n ∷ []),
  oldest-none (where_ (λ i. i.property_id == property) db.installations) empty,
)

-- The installation that the writes return, and the database after them.
abbrev pub recorded_installation :
    Uuid → InstallationPayload → Time → Installing → Db → Option Installation → Installation
recorded_installation property payload now c db (some e) = reinstalled c.request.owner_id payload e
recorded_installation property payload now c db none =
    new_installation db.next_id c.request.owner_id property payload now

abbrev pub with_upserted :
    Uuid → InstallationPayload → Time → Installing → Db → Option Installation → Db
with_upserted property payload now c db (some e) =
    with_installation e.id (reinstalled c.request.owner_id payload) db
with_upserted property payload now c db none =
    with_new_installation (new_installation db.next_id c.request.owner_id property payload now)
      (record db { next_id = suc db.next_id })

abbrev pub after_advance :
    Uuid → InstallationPayload → Uuid → Time → Installing → Installation → Db → Db
after_advance request_id payload actor now c i db =
    with_stage c.allocation_stage.id (stage_allocatable c.allocation_stage actor now) (
      with_stage c.installation_stage.id
        (stage_installed c.installation_stage i.id payload actor now)
        (with_request_row request_id installed_request db))

abbrev pub after_installing :
    Uuid → Uuid → InstallationPayload → Uuid → Time → Installing → Db → Option Installation → Db
after_installing request_id property payload actor now c db existing =
    after_advance request_id payload actor now c
      (recorded_installation property payload now c db existing)
      (with_upserted property payload now c db existing)

advance_installing-found :
    (request_id : Uuid) (payload : InstallationPayload) (actor : Uuid) (now : Time) (c : Installing)
    (i : Installation) (db : Db)
    → request_by_id request_id db ≡ some c.request
    → HasStage c.installation_stage.id db
    → HasStage c.allocation_stage.id db
    → advance_installing request_id payload actor now c i db
      ≡ ok (installed_request c.request, after_advance request_id payload actor now c i db)
unfolding advance_installing
advance_installing-found request_id payload actor now c i db found first second =
    let f = stage_installed c.installation_stage i.id payload actor now in
    let moved = with_request_row request_id installed_request db in
    ground (
      arith,
      update_request_row-found request_id installed_request db c.request found,
      update_stage-HasStage c.installation_stage.id f moved first,
      update_stage-HasStage c.allocation_stage.id (stage_allocatable c.allocation_stage actor now)
          (with_stage c.installation_stage.id f moved)
          (with_stage-HasStage c.allocation_stage.id c.installation_stage.id f moved (λ t. refl)
            second),
    )

module _ (request_id property : Uuid) (payload : InstallationPayload) (actor : Uuid) (now : Time)
    (db : Db) where
  -- Once the checks have passed, no write fails.
  pub write_installing-ready :
      (c : Installing)
      → IsReadyToInstall request_id property db c
      → (existing : Option Installation) → first_installation property db ≡ existing
      → write_installing request_id property payload actor now c db
        ≡ ok (
          (installed_request c.request, recorded_installation property payload now c db existing),
          after_installing request_id property payload actor now c db existing,
        )
  unfolding write_installing
  write_installing-ready c h none first = ground (
    arith,
    advance_installing-found request_id payload actor now c
        (recorded_installation property payload now c db none)
        (with_upserted property payload now c db none) h.found
        (stage_of-HasStage request_id StageKey.installation db c.installation_stage h.staged)
        (stage_of-HasStage request_id StageKey.crop_allocation db c.allocation_stage h.next_staged),
  )
  write_installing-ready c h (some e) first = ground (
    arith,
    advance_installing-found request_id payload actor now c
        (recorded_installation property payload now c db (some e))
        (with_upserted property payload now c db (some e)) h.found
        (stage_of-HasStage request_id StageKey.installation db c.installation_stage h.staged)
        (stage_of-HasStage request_id StageKey.crop_allocation db c.allocation_stage h.next_staged),
  )

  pub active_installation-recorded :
      (c : Installing) (existing : Option Installation)
      → first_installation property db ≡ existing
      → active_installation property (with_upserted property payload now c db existing)
        ≡ some (recorded_installation property payload now c db existing)
  active_installation-recorded c none first =
      active_installation-new property (recorded_installation property payload now c db none)
        (record db { next_id = suc db.next_id }) first refl refl
  active_installation-recorded c (some e) first =
      active_installation-reinstalled property c.request.owner_id payload e db first
