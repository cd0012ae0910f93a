-- ===== src/Api/Auth.antt =====
-- Signing up, the session and its end.
use the_eye.Base.{[], ◌∷◌, String}
use the_eye.Json.{str}
use the_eye.Http.{Endpoint, get_call, bare_call, body_call}

pub data AuthCall : Type 0 where
  signup : (company_name company_slug admin_email password : String) → AuthCall
  verify_session : AuthCall
  login : (username password : String) → AuthCall
  logout : AuthCall

unfoldable pub auth_endpoint : AuthCall → Endpoint
auth_endpoint (signup company_name company_slug admin_email password) =
    body_call "POST" "/v1/auth/signup" (
      ("company_name", str company_name)
      ∷ ("company_slug", str company_slug)
      ∷ ("admin_email", str admin_email)
      ∷ ("password", str password)
      ∷ [])
auth_endpoint verify_session = get_call "/v1/auth/me" []
auth_endpoint (login username password) =
    body_call "POST" "/v1/auth/login" (("username", str username) ∷ ("password", str password) ∷ [])
auth_endpoint logout = bare_call "POST" "/v1/auth/logout"
