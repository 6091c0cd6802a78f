-- ===== src/Auth/Upstream/Laws.antt =====
-- The statuses under which failures of the hosted service come back.
use urban_farming_backend.Prelude.{
  ◌≡◌, ℕ, true, ◌==◌, any, String, Option, none, some, ◌∷◌, arith, List,
}
use urban_farming_backend.Json.{Json}
use urban_farming_backend.Db.{err, app_error}
use urban_farming_backend.Auth.Tokens.{Settings}
use urban_farming_backend.Auth.Upstream.{Response, passthrough_statuses, passed_status, gotrue}

-- 501 is of a backend in another mode, 502 of a service that is unavailable.
abbrev pub error_statuses : List ℕ
error_statuses = 501 ∷ 502 ∷ passthrough_statuses

passed_status_listed : (n : ℕ) → any (λ m. m == passed_status n) error_statuses ≡ true
passed_status_listed n = ground arith

-- Whatever the hosted service responds, a status error of the call is one of those that are passed
-- through, a 502, or the 501 of another mode.
pub gotrue_status :
    (py_str : Json → String) (settings : Settings) (response : Option Response) (n : ℕ)
    (code : String) (d : Json)
    → gotrue py_str settings response ≡ err (app_error n code d)
    → any (λ m. m == n) error_statuses ≡ true
unfolding gotrue
gotrue_status py_str settings none n code d h = ground arith
gotrue_status py_str settings (some r) n code d h =
    ground (arith, passed_status_listed r.status_code)
