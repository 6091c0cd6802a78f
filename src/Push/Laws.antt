-- ===== src/Push/Laws.antt =====
-- The batches of a push, and its counts.
use mathlib.Core.Path.{subst}
use urban_farming_backend.Prelude.{
  ℕ, zero, suc, ◌+◌, ◌≤◌, ◌≡◌, refl, ap, ◌∙◌, Option, none, some, String, List, [], ◌∷◌, ◌++◌,
  length, length-append, All, arith,
}
use urban_farming_backend.Db.{ok}
use urban_farming_backend.Push.{
  take, drop, chunked_within, chunked, PushResponse, Tally, PushResult, sent_ids, tally_one,
  tally_batch, tally_batches, no_tally, result_of, send_push_notifications, max_fcm_batch_size,
}

abbrev pub flatten : List (List String) → List String
flatten [] = []
flatten (b ∷ bs) = b ++ flatten bs

take-drop : (n : ℕ) (xs : List String) → take n xs ++ drop n xs ≡ xs
take-drop zero xs = refl
take-drop (suc n) [] = refl
take-drop (suc n) (x ∷ xs) = ap (λ ys. x ∷ ys) (take-drop n xs)

length-take : (n : ℕ) (xs : List String) → length (take n xs) ≤ n
length-take zero xs = omega arith
length-take (suc n) [] = omega arith
length-take (suc n) (x ∷ xs) = omega (arith, length-take n xs)

length-drop : (n : ℕ) (xs : List String) → length (drop n xs) ≤ length xs
length-drop zero xs = omega arith
length-drop (suc n) [] = omega arith
length-drop (suc n) (x ∷ xs) = omega (arith, length-drop n xs)

-- A batch holds at least one value, and at most `size`.
abbrev pub IsBatch : ℕ → List String → Type 0
IsBatch size b = (1 ≤ length b) × (length b ≤ size)

-- The batches of a list
pub record IsSplit (size : ℕ) (values : List String) (batches : List (List String)) : Type 0 where
  pub whole : flatten batches ≡ values
  pub sized : All (IsBatch size) batches

chunked_within-IsSplit :
    (rounds size : ℕ) (values : List String)
    → length values ≤ rounds
    → IsSplit (suc size) values (chunked_within rounds (suc size) values)
unfolding chunked_within
chunked_within-IsSplit zero size [] h = record { whole = refl; sized = tt }
chunked_within-IsSplit zero size (x ∷ xs) h = ground arith
chunked_within-IsSplit (suc rounds) size [] h = record { whole = refl; sized = tt }
chunked_within-IsSplit (suc rounds) size (x ∷ xs) h =
    let rest =
      chunked_within-IsSplit rounds size (drop size xs) (omega (arith, h, length-drop size xs)) in
    record {
      whole =
          ap (λ ys. x ∷ (take size xs ++ ys)) rest.whole ∙ ap (λ ys. x ∷ ys) (take-drop size xs);
      sized = ((omega arith, omega (arith, length-take size xs)), rest.sized);
    }

-- The loop that cuts a list into batches ends, within as many rounds as there are values, with batches
-- that hold all the values in their order, each batch at least one and at most `size`.
pub chunked-IsSplit :
    (size : ℕ) (values : List String) → 1 ≤ size → IsSplit size values (chunked size values)
chunked-IsSplit zero values h = ground arith
chunked-IsSplit (suc size) values h =
    chunked_within-IsSplit (length values) size values (omega arith)

-- The messages and the failures of a tally
abbrev pub counted : Tally → ℕ
counted t = length t.message_ids + length t.failures

sent_ids-length : (o : Option String) → length (sent_ids o) ≤ 1
sent_ids-length none = omega arith
sent_ids-length (some s) = ground arith

tally_one-counted :
    (x : String) (r : PushResponse) (t : Tally) → counted (tally_one x r t) ≤ counted t + 1
tally_one-counted x r t = ground (
  arith,
  sent_ids-length r.message_id,
  length-append t.message_ids (sent_ids r.message_id),
  length-append t.failures ((x, r.error) ∷ []),
)

tally_batch-counted :
    (xs : List String) (rs : List PushResponse) (t : Tally)
    → counted (tally_batch xs rs t) ≤ counted t + length xs
unfolding tally_batch
tally_batch-counted [] rs t = omega arith
tally_batch-counted (x ∷ xs) [] t = omega arith
tally_batch-counted (x ∷ xs) (r ∷ rs) t =
    omega (arith, tally_batch-counted xs rs (tally_one x r t), tally_one-counted x r t)

module _ (multicast : List String → List PushResponse) where
  tally_batches-counted :
      (bs : List (List String)) (t : Tally)
      → counted (tally_batches multicast bs t) ≤ counted t + length (flatten bs)
  unfolding tally_batches
  tally_batches-counted [] t = omega arith
  tally_batches-counted (b ∷ bs) t = omega (
    arith,
    tally_batches-counted bs (tally_batch b (multicast b) t),
    tally_batch-counted b (multicast b) t,
    length-append b (flatten bs),
  )

  -- A push that is sent counts every device token as requested, and no more messages and failures
  -- together than tokens, whatever the service responds.
  pub send_push_notifications-counted :
      (gcp_project_id : Option String) (tokens : List String) (r : PushResult)
      → send_push_notifications multicast gcp_project_id tokens ≡ ok r
      → (r.requested ≡ length tokens) × (r.sent + r.failed ≤ r.requested)
  unfolding send_push_notifications
  send_push_notifications-counted gcp_project_id [] r h = ground arith
  send_push_notifications-counted gcp_project_id (x ∷ xs) r h =
      let tally = tally_batches multicast (chunked max_fcm_batch_size (x ∷ xs)) no_tally in
      let made : result_of (length (x ∷ xs)) tally ≡ r = ground arith in
      let bound = tally_batches-counted (chunked max_fcm_batch_size (x ∷ xs)) no_tally in
      let all_sent = ap length (chunked-IsSplit max_fcm_batch_size (x ∷ xs) (omega arith)).whole in
      subst
        (λ (q : PushResult). (q.requested ≡ length (x ∷ xs)) × (q.sent + q.failed ≤ q.requested))
        made (refl, omega (arith, bound, all_sent))
