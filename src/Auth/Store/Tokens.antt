-- ===== src/Auth/Store/Tokens.antt =====
-- The refresh tokens: `store_refresh_token`, `is_refresh_token_active`, `revoke_refresh_token` and
-- `revoke_all_refresh_tokens`.
use urban_farming_backend.Prelude.{
  Bool, not, ◌&&◌, none, some, [], ◌∷◌, ◌++◌, any, update_where, ◌==◌, ltb, is_some,
}
use urban_farming_backend.Db.Rows.{Uuid, Time}
use urban_farming_backend.Auth.Store.{RefreshToken, Store, Op, reading, writing}

abbrev pub with_token : Uuid → Uuid → Time → Store → Store
with_token id user_id expires_at s = record s {
  refresh_tokens =
      s.refresh_tokens
      ++ (record { id = id; user_id = user_id; expires_at = expires_at; revoked_at = none } ∷ []);
}

unfoldable pub store_refresh_token : Uuid → Uuid → Time → Op (Unit {0})
store_refresh_token id user_id expires_at = writing (with_token id user_id expires_at)

abbrev pub is_unrevoked : RefreshToken → Bool
is_unrevoked t = not (is_some t.revoked_at)

-- `revoked_at IS NULL AND expires_at > :now`
abbrev pub is_live : Time → RefreshToken → Bool
is_live now t = is_unrevoked t && ltb now t.expires_at

abbrev pub is_active : Uuid → Time → Store → Bool
is_active id now s = any (λ t. t.id == id && is_live now t) s.refresh_tokens

abbrev pub is_refresh_token_active : Uuid → Time → Op Bool
is_refresh_token_active id now = reading (is_active id now)

abbrev pub revoked : Time → RefreshToken → RefreshToken
revoked now t = record t { revoked_at = some now }

abbrev pub with_revoked : Uuid → Time → Store → Store
with_revoked id now s = record s {
  refresh_tokens = update_where (λ t. t.id == id && is_unrevoked t) (revoked now) s.refresh_tokens;
}

unfoldable pub revoke_refresh_token : Uuid → Time → Op (Unit {0})
revoke_refresh_token id now = writing (with_revoked id now)

abbrev pub with_all_revoked : Uuid → Time → Store → Store
with_all_revoked user_id now s = record s {
  refresh_tokens =
      update_where (λ t. t.user_id == user_id && is_unrevoked t) (revoked now) s.refresh_tokens;
}

unfoldable pub revoke_all_refresh_tokens : Uuid → Time → Op (Unit {0})
revoke_all_refresh_tokens user_id now = writing (with_all_revoked user_id now)
