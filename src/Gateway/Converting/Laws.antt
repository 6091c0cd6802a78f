-- ===== src/Gateway/Converting/Laws.antt =====
-- The conversion of a lead, and a second one.
use urban_farming_backend.Prelude.{
  ◌≡◌, refl, sym, ap, ◌∙◌, suc, Bool, true, false, Option, none, some, List, [], ◌∷◌, ◌++◌, where_,
  where_-append, arith, ==_refl,
}
use urban_farming_backend.Json.{uuid, get}
use urban_farming_backend.Db.{Db, ok}
use urban_farming_backend.Db.Laws.{ok-injective}
use urban_farming_backend.Db.Rows.{GardenRequest, Lead}
use urban_farming_backend.Gateway.Converting.{
  Conversion, Converted, lead_by_id, is_of_lead, oldest_request, request_of_lead, new_request,
  with_new_request, make_request, converted, with_converted, update_lead, convert_assessment_lead,
}

-- The lead's request, and the database once there is one.
abbrev pub made : Conversion → Option GardenRequest → Db → (GardenRequest × Bool) × Db
made c (some r) db = ((r, false), db)
made c none db =
    let r = new_request db.next_id c in
    ((r, true), with_new_request r (record db { next_id = suc db.next_id }))

abbrev pub conversion : Conversion → Lead → (GardenRequest × Bool) × Db → Converted × Db
conversion c l x =
    (record { lead = converted c l; garden_request = x.0.0; created = x.0.1 }, with_converted c x.1)

convert-eq :
    (c : Conversion) (l : Lead) (o : Option GardenRequest) (db : Db)
    → lead_by_id c.lead_id db ≡ some l
    → request_of_lead c.lead_id db ≡ o
    → convert_assessment_lead c db ≡ ok (conversion c l (made c o db))
unfolding convert_assessment_lead make_request update_lead
convert-eq c l none db lead e = ground arith
convert-eq c l (some r) db lead e = ground arith

convert-lead :
    (c : Conversion) (o : Option Lead) (x : Converted × Db) (db : Db)
    → lead_by_id c.lead_id db ≡ o
    → convert_assessment_lead c db ≡ ok x
    → (l : Lead) × (lead_by_id c.lead_id db ≡ some l)
unfolding convert_assessment_lead
convert-lead c none x db e h = ground arith
convert-lead c (some l) x db e h = (l, e)

oldest_request-none : (xs : List GardenRequest) → oldest_request xs ≡ none → xs ≡ []
oldest_request-none [] h = refl
oldest_request-none (x ∷ xs) h = ground arith

-- The request that a conversion returns is the one that a further conversion finds.
made-found :
    (c : Conversion) (o : Option GardenRequest) (db : Db)
    → get "assessment_lead_id" c.payload.details ≡ some (uuid c.lead_id)
    → request_of_lead c.lead_id db ≡ o
    → request_of_lead c.lead_id (made c o db).1 ≡ some (made c o db).0.0
made-found c (some r) db key e = e
made-found c none db key e =
    let n = new_request db.next_id c in
    let found : where_ (is_of_lead c.lead_id) (n ∷ []) ≡ n ∷ [] =
      ground (arith, key, ==_refl c.lead_id) in
    ap oldest_request (
      where_-append (is_of_lead c.lead_id) db.garden_requests (n ∷ [])
      ∙ ap (λ xs. xs ++ where_ (is_of_lead c.lead_id) (n ∷ []))
          (oldest_request-none (where_ (is_of_lead c.lead_id) db.garden_requests) e)
      ∙ found)

-- A lead that is converted again keeps its garden request: the same one is returned, as not created,
-- and no request is added or changed, where the first payload names the lead as the router does.
pub convert_assessment_lead-again :
    (c d : Conversion) (s t : Converted) (db db1 db2 : Db)
    → c.lead_id ≡ d.lead_id
    → get "assessment_lead_id" c.payload.details ≡ some (uuid c.lead_id)
    → convert_assessment_lead c db ≡ ok (s, db1)
    → convert_assessment_lead d db1 ≡ ok (t, db2)
    → (t.garden_request ≡ s.garden_request)
      × (t.created ≡ false)
      × (db2.garden_requests ≡ db1.garden_requests)
convert_assessment_lead-again c d s t db db1 db2 same key h k =
    let (l, lead) = convert-lead c _ (s, db1) db refl h in
    let (m, lead') = convert-lead d _ (t, db2) db1 refl k in
    let o = request_of_lead c.lead_id db in
    let out = ok-injective (sym (convert-eq c l o db lead refl) ∙ h) in
    let found =
      ap (λ i. request_of_lead i db1) (sym same)
      ∙ ap (λ x. oldest_request (where_ (is_of_lead c.lead_id) x.1.garden_requests)) (sym out)
      ∙ made-found c o db key refl
      ∙ ap (λ x. some x.0.garden_request) out in
    let out' = ok-injective (sym (convert-eq d m (some s.garden_request) db1 lead' found) ∙ k) in
    (
      sym (ap (λ x. x.0.garden_request) out'),
      sym (ap (λ x. x.0.created) out'),
      sym (ap (λ x. x.1.garden_requests) out'),
    )
