-- ===== src/Gateway/Tables/Laws.antt =====
-- The effect of the shared statements: which rows they change, and what they leave alone.
use urban_farming_backend.Prelude.{
  Option, Bool, true, ◌≡◌, ◌∙◌, ap, ◌≢◌, some, List, ◌==◌, ◌=?◌, arith, find, [], ◌∷◌, any,
  find-update_where, find-and, find-update_where_ne, any-update_where, find_holds,
}
use urban_farming_backend.Db.{Db, ok}
use urban_farming_backend.Db.Rows.{GardenRequest, Stage, Uuid}
use urban_farming_backend.Db.Status.{RequestStatus, request_status_enum, StageKey}
use urban_farming_backend.Gateway.Tables.{
  request_by_id, is_request_in, with_request, with_stage, stage_of, is_stage_of, update_request,
  update_stage, update_request_row, with_request_row,
}

module _ (request_id : Uuid) (expected : RequestStatus) (f : GardenRequest → GardenRequest) where
  -- The update of a request that is there in the expected status commits.
  pub update_request-found :
      (db : Db) (request : GardenRequest)
      → request_by_id request_id db ≡ some request
      → request.status ≡ expected
      → update_request request_id expected f db
        ≡ ok (some (f request), with_request request_id expected f db)
  unfolding update_request is_request_in
  update_request-found db request found ready = rw (
      find-and (λ r. r.id == request_id) (λ r. r.status =? expected) db.garden_requests request
        found (ground arith))

  module _ (keeps : (r : GardenRequest) → (f r).id ≡ r.id) (db : Db) where
    pub request_by_id-with_request :
        (request : GardenRequest)
        → request_by_id request_id db ≡ some request
        → request.status ≡ expected
        → request_by_id request_id (with_request request_id expected f db) ≡ some (f request)
    unfolding is_request_in
    request_by_id-with_request request found ready = ground (
      arith,
      find-update_where (λ r. r.id == request_id) (is_request_in request_id expected) f
          (λ r. ap (λ (i : Uuid). i == request_id) (keeps r)) db.garden_requests,
      find_holds (λ r. r.id == request_id) db.garden_requests found,
    )

    pub request_by_id-with_request_ne :
        (j : Uuid)
        → j ≢ request_id
        → request_by_id j (with_request request_id expected f db) ≡ request_by_id j db
    unfolding is_request_in
    request_by_id-with_request_ne j ne =
        find-update_where_ne (λ r. r.id == j) (is_request_in request_id expected) f
          (λ r. ap (λ (i : Uuid). i == j) (keeps r)) (λ r e. ground arith) db.garden_requests

any_of_find_id :
    (p : Stage → Bool) (xs : List Stage) (s : Stage)
    → find p xs ≡ some s
    → any (λ t. t.id == s.id) xs ≡ true
any_of_find_id p [] s h = cc
any_of_find_id p (x ∷ xs) s h = ground (arith, any_of_find_id p xs s)

abbrev pub HasStage : Uuid → Db → Type 0
HasStage stage_id db = any (λ s. s.id == stage_id) db.workflow_stages ≡ true

pub stage_of-HasStage :
    (request_id : Uuid) (key : StageKey) (db : Db) (s : Stage)
    → stage_of request_id key db ≡ some s
    → HasStage s.id db
stage_of-HasStage request_id key db s found =
    any_of_find_id (is_stage_of request_id key db.operational_workflows) db.workflow_stages s found

pub with_stage-HasStage :
    (i j : Uuid) (f : Stage → Stage) (db : Db)
    → ((t : Stage) → (f t).id ≡ t.id)
    → HasStage i db
    → HasStage i (with_stage j f db)
with_stage-HasStage i j f db same there =
    any-update_where (λ s. s.id == i) (λ s. s.id == j) f (λ t. ap (λ (k : Uuid). k == i) (same t))
      db.workflow_stages
    ∙ there

-- The update of a stage that is there commits.
pub update_stage-HasStage :
    (stage_id : Uuid) (f : Stage → Stage) (db : Db)
    → HasStage stage_id db
    → update_stage stage_id f db ≡ ok (tt, with_stage stage_id f db)
unfolding update_stage
update_stage-HasStage stage_id f db there = ground arith

-- A request that was read is updated and found again.
pub update_request_row-found :
    (request_id : Uuid) (f : GardenRequest → GardenRequest) (db : Db) (r : GardenRequest)
    → request_by_id request_id db ≡ some r
    → update_request_row request_id f db ≡ ok (f r, with_request_row request_id f db)
unfolding update_request_row
update_request_row-found request_id f db r found = ground arith

module _ (request_id : Uuid) (f : GardenRequest → GardenRequest)
    (keeps : (r : GardenRequest) → (f r).id ≡ r.id) (db : Db) where
  pub request_by_id-with_request_row :
      (r : GardenRequest)
      → request_by_id request_id db ≡ some r
      → request_by_id request_id (with_request_row request_id f db) ≡ some (f r)
  request_by_id-with_request_row r found = ground (
    arith,
    find-update_where (λ r. r.id == request_id) (λ r. r.id == request_id) f
        (λ r. ap (λ (i : Uuid). i == request_id) (keeps r)) db.garden_requests,
    find_holds (λ r. r.id == request_id) db.garden_requests found,
  )

  pub request_by_id-with_request_row_ne :
      (j : Uuid)
      → j ≢ request_id
      → request_by_id j (with_request_row request_id f db) ≡ request_by_id j db
  request_by_id-with_request_row_ne j ne =
      find-update_where_ne (λ r. r.id == j) (λ r. r.id == request_id) f
        (λ r. ap (λ (i : Uuid). i == j) (keeps r)) (λ r e. ground arith) db.garden_requests

-- The stage that was read is found again, changed.
pub stage_of-with_stage :
    (request_id : Uuid) (key : StageKey) (f : Stage → Stage) (db : Db) (s : Stage)
    → ((t : Stage) → (f t).stage_key ≡ t.stage_key)
    → ((t : Stage) → (f t).workflow_id ≡ t.workflow_id)
    → stage_of request_id key db ≡ some s
    → stage_of request_id key (with_stage s.id f db) ≡ some (f s)
unfolding is_stage_of
stage_of-with_stage request_id key f db s same_key same_workflow found = ground (
  arith,
  find-update_where (is_stage_of request_id key db.operational_workflows) (λ t. t.id == s.id) f
      (λ t. rw (same_key t, same_workflow t)) db.workflow_stages,
)

-- An update of a stage that commits changes that stage alone.
pub update_stage-eq-ok :
    (stage_id : Uuid) (f : Stage → Stage) (db db' : Db)
    → update_stage stage_id f db ≡ ok (tt, db')
    → with_stage stage_id f db ≡ db'
unfolding update_stage
update_stage-eq-ok stage_id f db db' h = ground arith

pub update_request-eq-ok :
    (request_id : Uuid) (expected : RequestStatus) (f : GardenRequest → GardenRequest)
    (o : Option GardenRequest) (db db' : Db)
    → update_request request_id expected f db ≡ ok (o, db')
    → with_request request_id expected f db ≡ db'
unfolding update_request
update_request-eq-ok request_id expected f o db db' h = ground arith
