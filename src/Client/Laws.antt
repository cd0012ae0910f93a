-- ===== src/Client/Laws.antt =====
-- What a call of `request` of the dashboard returns, sends and does to the session.
use the_eye.Base.{
  ℕ, true, false, Option, String, ◌∷◌, ◌≡◌, ◌≢◌, ◌↔◌, arith, eqb, Bool-cases, inl, inr,
}
use the_eye.Base.Dict.{lookup-remove}
use the_eye.Json.Codec.{Codec}
use the_eye.Browser.{Browser, send}
use the_eye.Session.{session_key, is_logged_in}
use the_eye.Session.Guard.{require_auth}
use the_eye.Http.{
  Endpoint, Settled, resolved, rejected, Fetched, unreachable, response, Outcome, value, error_of,
  wire, outcome, is_unauthorised, is_ok,
}
use the_eye.Client.{expel, react, request}

is_logged_in-expel : (c : Codec) (b : Browser) → is_logged_in c (expel b) ≡ false
unfolding is_logged_in expel
is_logged_in-expel c b = ground (arith, lookup-remove session_key session_key b.storage)

error_of-ne-value {ℓ} :
    {T : Type ℓ} (status : ℕ) (status_text : String) (text : Settled String) (v : T)
    → error_of status status_text text ≢ value v
error_of-ne-value status status_text (resolved body) v = cc
error_of-ne-value status status_text (rejected m) v = cc

is_ok-not-401 : (status : ℕ) → is_ok status ≡ true → eqb status 401 ≡ false
is_ok-not-401 status h = ground arith

pub is_unauthorised_of_value {ℓ} :
    {T : Type ℓ} (reply : Fetched T) {v : T}
    → outcome reply ≡ value v
    → is_unauthorised reply ≡ false
unfolding outcome
is_unauthorised_of_value (unreachable m) h = cc
is_unauthorised_of_value (response status status_text text json) {v} h =
    elim (Bool-cases (is_ok status)) [
      | inl ok ↦ is_ok-not-401 status ok
      | inr failed ↦ absurd (error_of-ne-value status status_text text v (rw failed at h))
    ]

module _ {ℓ} {T : Type ℓ} (env : Option String) (e : Endpoint) (b : Browser) where
  -- In a window, after an answer of 401 no session is left, the page is sent to the login page, the
  -- gate of the pages that have one is shut, and no value is returned.
  pub request_unauthorised :
      (c : Codec) (status_text : String) (text : Settled String) (json : Settled T)
      → b.window ≡ true
      → (is_logged_in c (request env e (response 401 status_text text json) b).1 ≡ false)
        × ((request env e (response 401 status_text text json) b).1.visited ≡ "/login" ∷ b.visited)
        × ((require_auth c (request env e (response 401 status_text text json) b).1).0 ≡ false)
        × ((v : T) → (request env e (response 401 status_text text json) b).0 ≢ value v)
  unfolding request require_auth
  request_unauthorised c status_text text json w =
      let gone = is_logged_in-expel c (send (wire env e) b) in
      (gone, ground arith, rw gone, λ v. error_of-ne-value 401 status_text text v)

  -- An answer other than 401, and a failure to reach the server, leave the session and the
  -- location alone.
  pub request_keeps_session :
      (reply : Fetched T)
      → is_unauthorised reply ≡ false
      → ((request env e reply b).1.storage ≡ b.storage)
        × ((request env e reply b).1.visited ≡ b.visited)
  unfolding request
  request_keeps_session reply h = ground arith

  pub sent-request : (reply : Fetched T) → (request env e reply b).1.sent ≡ wire env e ∷ b.sent
  unfolding request
  sent-request reply = ground arith

  pub request_of_outcome :
      (reply : Fetched T) {o : Outcome T}
      → outcome reply ≡ o
      → request env e reply b ≡ (o, react reply (send (wire env e) b))
  unfolding request
  request_of_outcome reply h = cc

  -- After a call that returned a value the browser has sent the request, and nothing else changed.
  pub request_of_value :
      (reply : Fetched T) {v : T}
      → outcome reply ≡ value v
      → request env e reply b ≡ (value v, send (wire env e) b)
  request_of_value reply h = rw (request_of_outcome reply h) (rw (is_unauthorised_of_value reply h))

-- A response gives a value exactly when its status lies between 200 and 299 and is not 204, and its
-- JSON can be read as that value.
pub outcome-eq-value_iff {ℓ} :
    {T : Type ℓ} (status : ℕ) (status_text : String) (text : Settled String) (json : Settled T)
    (v : T)
    → (outcome (response status status_text text json) ≡ value v)
      ↔ ((is_ok status ≡ true) × (eqb status 204 ≡ false) × (json ≡ resolved v))
unfolding outcome
outcome-eq-value_iff status status_text text json v = ground arith
