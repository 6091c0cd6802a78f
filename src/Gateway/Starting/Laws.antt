-- ===== src/Gateway/Starting/Laws.antt =====
-- What a started inspection has, and what starting it again does.
use urban_farming_backend.Prelude.{
  suc, ◌≡◌, refl, sym, ap, ◌∙◌, Bool, false, Option, none, some, List, [], ◌∷◌, ◌++◌, is_empty,
  find, where_, where_-append, find-append, arith, ◌==◌, ==_refl, Bool-cases, inl, inr,
}
use urban_farming_backend.Db.{Db, ok}
use urban_farming_backend.Db.Laws.{ok-injective}
use urban_farming_backend.Db.Rows.{Assignment, Report, ChecklistItem, Uuid}
use urban_farming_backend.Gateway.Submitting.{items_of}
use urban_farming_backend.Gateway.Starting.{
  Start, TemplateItem, own_assignment, report_of, new_report, with_report, open_report, with_begun,
  new_items, with_items, with_checklist, start_inspection_report, new_item,
}

is_empty-append : {A : Type 0} (xs : List A) (y : A) (ys : List A) → is_empty (xs ++ y ∷ ys) ≡ false
is_empty-append [] y ys = refl
is_empty-append (x ∷ xs) y ys = refl

-- A template that is not empty makes a checklist.
with_items-items_of :
    (report_id : Uuid) (ts : List TemplateItem) (db : Db)
    → is_empty ts ≡ false
    → is_empty (items_of report_id (with_items report_id ts db)) ≡ false
with_items-items_of report_id [] db h = cc
with_items-items_of report_id (t ∷ ts) db h =
    let q : ChecklistItem → Bool = λ i. i.report_id == report_id in
    let first = new_item db.next_id report_id t in
    let rest = new_items (suc db.next_id) report_id ts in
    let kept : where_ q (first ∷ rest) ≡ first ∷ where_ q rest =
      ground (arith, ==_refl report_id) in
    ap is_empty (where_-append q db.inspection_checklist_items (first ∷ rest))
    ∙ ap (λ l. is_empty (where_ q db.inspection_checklist_items ++ l)) kept
    ∙ is_empty-append (where_ q db.inspection_checklist_items) first (where_ q rest)

with_checklist-items_of :
    (c : Start) (report_id : Uuid) (db : Db)
    → is_empty c.template ≡ false
    → is_empty (items_of report_id (with_checklist c report_id db)) ≡ false
with_checklist-items_of c report_id db h = elim (Bool-cases (is_empty (items_of report_id db))) [
  | inl e ↦ rw e (with_items-items_of report_id c.template db h)
  | inr n ↦ rw n n
]

with_checklist-kept :
    (c : Start) (report_id : Uuid) (db : Db)
    → is_empty (items_of report_id db) ≡ false
    → with_checklist c report_id db ≡ db
with_checklist-kept c report_id db h = rw h refl

with_checklist-reports :
    (c : Start) (report_id : Uuid) (db : Db)
    → (with_checklist c report_id db).inspection_reports ≡ db.inspection_reports
with_checklist-reports c report_id db = ground arith

-- The report that is opened, and the database with it.
abbrev pub opened : Start → Assignment → Option Report → Db → Report × Db
opened c a (some r) db = (r, db)
opened c a none db =
    let r = new_report db.next_id c a in (r, with_report r (record db { next_id = suc db.next_id }))

abbrev pub after_start : Start → Report × Db → Db
after_start c x = with_checklist c x.0.id (with_begun c x.1)

start-eq :
    (c : Start) (a : Assignment) (e : Option Report) (db : Db)
    → own_assignment c db ≡ some a
    → report_of c.assignment_id db ≡ e
    → start_inspection_report c db ≡ ok ((opened c a e db).0, after_start c (opened c a e db))
unfolding start_inspection_report open_report
start-eq c a none db own e = ground arith
start-eq c a (some r) db own e = ground arith

opened-stored :
    (c : Start) (a : Assignment) (e : Option Report) (db : Db)
    → report_of c.assignment_id db ≡ e
    → report_of c.assignment_id (opened c a e db).1 ≡ some (opened c a e db).0
opened-stored c a (some r) db e = e
opened-stored c a none db e =
    find-append (λ r. r.assignment_id == c.assignment_id) db.inspection_reports
      (new_report db.next_id c a ∷ [])
    ∙ ground (arith, e, ==_refl c.assignment_id)

start-owned :
    (c : Start) (s : Report) (db db' : Db)
    → start_inspection_report c db ≡ ok (s, db')
    → (o : Option Assignment) → own_assignment c db ≡ o
    → (a : Assignment) × (own_assignment c db ≡ some a)
unfolding start_inspection_report
start-owned c s db db' h none own = ground arith
start-owned c s db db' h (some a) own = (a, own)

-- What a started inspection has done.
pub record IsStarted (c : Start) (a : Assignment) (s : Report) (db db' : Db) : Type 0 where
  pub own : own_assignment c db ≡ some a
  pub stored : report_of c.assignment_id db' ≡ some s
  pub opened_report : (opened c a (report_of c.assignment_id db) db).0 ≡ s
  pub after : after_start c (opened c a (report_of c.assignment_id db) db) ≡ db'

-- An inspection that starts is of the inspector's own assignment. The assignment then has the
-- report that is returned: the one that it had, or a new draft.
pub start_inspection_report-IsStarted :
    (c : Start) (s : Report) (db db' : Db)
    → start_inspection_report c db ≡ ok (s, db')
    → (a : Assignment) × IsStarted c a s db db'
start_inspection_report-IsStarted c s db db' h =
    let (a, own) = start-owned c s db db' h _ refl in
    let e = report_of c.assignment_id db in
    let x = opened c a e db in
    let out = ok-injective (sym (start-eq c a e db own refl) ∙ h) in
    let same = ap (λ y. y.0) out in
    let after = ap (λ y. y.1) out in
    (
      a,
      record {
        own = own;
        stored =
            ap (λ (d : Db). report_of c.assignment_id d) (sym after)
            ∙ ap (find (λ r. r.assignment_id == c.assignment_id))
                (with_checklist-reports c x.0.id (with_begun c x.1))
            ∙ opened-stored c a e db refl
            ∙ ap some same;
        opened_report = same;
        after = after;
      },
    )

-- Starting an inspection again, after a start with a template that is not empty, resumes it: the same
-- report is returned, and neither a report nor a checklist item is added.
pub start_inspection_report-again :
    (c d : Start) (s t : Report) (db db1 db2 : Db)
    → c.assignment_id ≡ d.assignment_id
    → is_empty c.template ≡ false
    → start_inspection_report c db ≡ ok (s, db1)
    → start_inspection_report d db1 ≡ ok (t, db2)
    → (t ≡ s)
      × (db2.inspection_reports ≡ db1.inspection_reports)
      × (db2.inspection_checklist_items ≡ db1.inspection_checklist_items)
start_inspection_report-again c d s t db db1 db2 same some_item h k =
    let (a, first) = start_inspection_report-IsStarted c s db db1 h in
    let (b, second) = start_inspection_report-IsStarted d t db1 db2 k in
    let x = opened c a (report_of c.assignment_id db) db in
    let found = ap (λ i. report_of i db1) (sym same) ∙ first.stored in
    let listed =
      ap (λ (r : Report). is_empty (items_of r.id db1)) (sym first.opened_report)
      ∙ ap (λ (d : Db). is_empty (items_of x.0.id d)) (sym first.after)
      ∙ with_checklist-items_of c x.0.id (with_begun c x.1) some_item in
    let resumed =
      sym second.after
      ∙ ap (λ e. after_start d (opened d b e db1)) found
      ∙ with_checklist-kept d s.id (with_begun d db1) listed in
    (
      sym second.opened_report ∙ ap (λ e. (opened d b e db1).0) found,
      ap (λ (d : Db). d.inspection_reports) resumed,
      ap (λ (d : Db). d.inspection_checklist_items) resumed,
    )
