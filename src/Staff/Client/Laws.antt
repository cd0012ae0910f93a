-- ===== src/Staff/Client/Laws.antt =====
-- What a call of the staff portal does to the session and to the page.
use the_eye.Base.{Option, String, ◌∷◌, ◌≡◌, false, arith, if◌then◌else◌}
use the_eye.Json.Codec.{Codec}
use the_eye.Browser.{Browser, send}
use the_eye.Session.{get_session}
use the_eye.Http.{Endpoint, Fetched, Outcome, value, wire, outcome, is_unauthorised}
use the_eye.Client.Laws.{is_unauthorised_of_value}
use the_eye.Staff.Session.{is_staff}
use the_eye.Staff.Session.Laws.{is_staff-clear_staff_session}
use the_eye.Staff.Client.{staff_react, staff_request}

module _ {ℓ} {T : Type ℓ} (env : Option String) (e : Endpoint) (reply : Fetched T)
    (b : Browser) where
  pub staff_request_of_outcome :
      {o : Outcome T}
      → outcome reply ≡ o
      → staff_request env e reply b ≡ (o, staff_react reply (send (wire env e) b))
  unfolding staff_request
  staff_request_of_outcome h = cc

  pub staff_request_of_value :
      {v : T}
      → outcome reply ≡ value v
      → staff_request env e reply b ≡ (value v, send (wire env e) b)
  staff_request_of_value h = rw (staff_request_of_outcome h) (rw (is_unauthorised_of_value reply h))

  -- Every call of the staff portal sends one request and never moves the page. Whoever was signed in
  -- stays so unless the answer is 401, after which nobody is, while the session of the dashboard in
  -- the same browser is untouched by any answer.
  pub staff_request_lem :
      (c : Codec)
      → ((staff_request env e reply b).1.sent ≡ wire env e ∷ b.sent)
        × ((staff_request env e reply b).1.visited ≡ b.visited)
        × (is_staff c (staff_request env e reply b).1
            ≡ (if is_unauthorised reply then false else is_staff c b))
        × (get_session c (staff_request env e reply b).1 ≡ get_session c b)
  unfolding staff_request is_staff get_session
  staff_request_lem c =
      let (gone, kept) = is_staff-clear_staff_session c (send (wire env e) b) in
      (ground arith, ground arith, ground (arith, gone), ground (arith, kept))
