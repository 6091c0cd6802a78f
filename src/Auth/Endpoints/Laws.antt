-- ===== src/Auth/Endpoints/Laws.antt =====
-- What a request for a password reset shows of the accounts.
use urban_farming_backend.Prelude.{◌≡◌, refl, ap, ◌∙◌, true, Option, none, some, String, arith}
use urban_farming_backend.Json.{str, null, get}
use urban_farming_backend.Db.{Result, ok, err, Error, attribute_error}
use urban_farming_backend.Db.Rows.{Time}
use urban_farming_backend.Auth.Store.{User, Store, Letter, password_reset, proceed, give}
use urban_farming_backend.Auth.Store.Accounts.{user_by_email}
use urban_farming_backend.Auth.Tokens.{text_or_empty, mint_recovery_token}
use urban_farming_backend.Auth.App.{App}
use urban_farming_backend.Auth.Endpoints.{
  greeting, reset_url, generic, reset_letter, send_reset, native_password_reset,
}

module _ {Token : Type 0} (app : App Token) (stored : app.has_store ≡ true) where
  native_password_reset_lem :
      (email : String) (redirect_to : Option String) (now : Time) (s : Store)
      → native_password_reset app email redirect_to now s
        ≡ send_reset app redirect_to now (user_by_email email s) s
  unfolding native_password_reset
  native_password_reset_lem email redirect_to now s = ground arith

  letter_to : Option String → User → Time → String → Letter Token
  letter_to redirect_to u now name =
      password_reset (greeting name)
        (reset_url redirect_to (mint_recovery_token app.jwt app.settings u.id u.email now))

  -- What an account with a name is answered, by what the mailer does
  send_reset_named :
      (redirect_to : Option String) (now : Time) (s : Store) (u : User) (name : String)
      → get "full_name" u.raw_user_meta_data ≡ some (str name)
      → send_reset app redirect_to now (some u) s
        ≡ proceed
            (app.deliver (text_or_empty u.email) (letter_to redirect_to u now name), s)
            (λ t. give (generic app))
  unfolding send_reset reset_letter letter_to
  send_reset_named redirect_to now s u name named = ground arith

  -- While every mail is delivered, the answer to a request for a password reset is the same whether
  -- the address has an account or not, where the name of the account is a text; nothing is stored.
  pub native_password_reset-generic :
      (email : String) (redirect_to : Option String) (now : Time) (s : Store)
      → ((to : String) (letter : Letter Token) → app.deliver to letter ≡ ok tt)
      → ((u : User)
          → user_by_email email s ≡ some u
          → (name : String) × (get "full_name" u.raw_user_meta_data ≡ some (str name)))
      → native_password_reset app email redirect_to now s ≡ (ok (generic app), s)
  unfolding send_reset
  native_password_reset-generic email redirect_to now s works named =
      native_password_reset_lem email redirect_to now s ∙ go (user_by_email email s) refl
    where
      go :
          (o : Option User)
          → user_by_email email s ≡ o
          → send_reset app redirect_to now o s ≡ (ok (generic app), s)
      go none e = refl
      go (some u) e =
          let (name, k) = named u e in
          send_reset_named redirect_to now s u name k
          ∙ ap (λ (x : Result (Unit {0})). proceed (x, s) (λ t. give (generic app))) (works _ _)

  -- While the mailer raises `e`, the answer tells whether an address has an account: for one that has
  -- none it is the generic answer, for one of an account whose name is a text it is the error.
  pub native_password_reset_tells :
      (unknown known name : String) (redirect_to : Option String) (now : Time) (s : Store)
      (e : Error) (u : User)
      → ((to : String) (letter : Letter Token) → app.deliver to letter ≡ err e)
      → user_by_email unknown s ≡ none
      → user_by_email known s ≡ some u
      → get "full_name" u.raw_user_meta_data ≡ some (str name)
      → (native_password_reset app unknown redirect_to now s ≡ (ok (generic app), s))
        × (native_password_reset app known redirect_to now s ≡ (err e, s))
  unfolding send_reset reset_letter
  native_password_reset_tells unknown known name redirect_to now s e u fails absent found named = (
    native_password_reset_lem unknown redirect_to now s
        ∙ ap (λ o. send_reset app redirect_to now o s) absent,
    native_password_reset_lem known redirect_to now s
        ∙ ap (λ o. send_reset app redirect_to now o s) found
        ∙ send_reset_named redirect_to now s u name named
        ∙ ap (λ (x : Result (Unit {0})). proceed (x, s) (λ t. give (generic app))) (fails _ _),
  )

  -- An account whose name is null, as that of a Google account without a name, cannot ask for a
  -- password reset: the request raises, whatever the mailer does.
  pub native_password_reset_nameless :
      (email : String) (redirect_to : Option String) (now : Time) (s : Store) (u : User)
      → user_by_email email s ≡ some u
      → get "full_name" u.raw_user_meta_data ≡ some null
      → native_password_reset app email redirect_to now s ≡ (err attribute_error, s)
  unfolding send_reset reset_letter
  native_password_reset_nameless email redirect_to now s u found nameless =
      native_password_reset_lem email redirect_to now s
      ∙ ap (λ o. send_reset app redirect_to now o s) found
      ∙ ground (arith, nameless)
