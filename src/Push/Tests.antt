-- ===== src/Push/Tests.antt =====
-- Three device tokens, in batches of two.
use urban_farming_backend.Prelude.{
  ◌≡◌, ◌≤◌, ◌+◌, refl, true, some, length, [], ◌∷◌, arith, List, String,
}
use urban_farming_backend.Push.{
  PushResponse, PushResult, max_fcm_batch_size, no_tally, result_of, tally_batches, chunked,
  send_push_notifications,
}
use urban_farming_backend.Push.Laws.{IsSplit, chunked-IsSplit, send_push_notifications-counted}

abbrev devices : List String
devices = "a" ∷ "b" ∷ "c" ∷ []

chunked-IsSplit_example : IsSplit 2 devices (chunked 2 devices)
chunked-IsSplit_example = chunked-IsSplit 2 devices (omega arith)

-- A service that accepts every device
abbrev accepting : List String → List PushResponse
accepting [] = []
accepting (x ∷ xs) = record { success = true; message_id = some x; error = "" } ∷ accepting xs

abbrev delivered : PushResult
delivered = result_of 3 (tally_batches accepting (chunked max_fcm_batch_size devices) no_tally)

send_push_notifications-counted_example :
    (delivered.requested ≡ length devices)
    × (delivered.sent + delivered.failed ≤ delivered.requested)
unfolding send_push_notifications
send_push_notifications-counted_example =
    send_push_notifications-counted accepting (some "p") devices delivered refl
