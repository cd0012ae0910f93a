-- ===== src/Staff/Page/Laws.antt =====
-- The outcome of a handler of the staff portal by the outcome of its call.
use the_eye.Base.{ℕ, true, false, arith, eqb, refl, Bool-cases, inl, inr, Option, String, ◌≡◌}
use the_eye.Browser.{Browser}
use the_eye.Http.{
  Settled, resolved, rejected, unreachable, response, error_of, is_unauthorised, no_content,
  Fetched, Outcome, value, raised, Failure, outcome,
}
use the_eye.Page.{settle, succeeded, Handlers, Taking}
use the_eye.Staff.Client.{staff_react}
use the_eye.Staff.Client.Laws.{staff_request_of_outcome, staff_request_of_value}
use the_eye.Staff.Api.Call.{StaffCall, staff_endpoint, staff_perform, staff_asked}
use the_eye.Staff.Page.{staff_take, staff_attempt}

failed-error_of :
    (T : Type 0) (status : ℕ) (status_text : String) (text : Settled String)
    → succeeded (error_of {T = T} status status_text text) ≡ false
failed-error_of T status status_text (resolved body) = refl
failed-error_of T status status_text (rejected m) = refl

pub is_unauthorised_of_success :
    (T : Type 0) (reply : Fetched T)
    → succeeded (outcome reply) ≡ true
    → is_unauthorised reply ≡ false
unfolding outcome
is_unauthorised_of_success T (unreachable m) h = refl
is_unauthorised_of_success T (response status status_text text json) h =
    elim (Bool-cases (eqb status 401)) [
      | inr other ↦ other
      | inl gone ↦ ground (arith, gone, h, failed-error_of T status status_text text)
    ]

module _ {P T : Type 0} (env : Option String) (c : StaffCall) (reply : Fetched T) (page : P)
    (b : Browser) where
  pub staff_perform_of_outcome :
      {o : Outcome T}
      → outcome reply ≡ o
      → staff_perform env c reply b ≡ (o, staff_react reply (staff_asked env c b))
  unfolding staff_perform
  staff_perform_of_outcome h = staff_request_of_outcome env (staff_endpoint c) reply b h

  pub staff_perform_of_value :
      {v : T}
      → outcome reply ≡ value v
      → staff_perform env c reply b ≡ (value v, staff_asked env c b)
  unfolding staff_perform
  staff_perform_of_value h = staff_request_of_value env (staff_endpoint c) reply b h

  pub staff_take_of_value :
      (h : Taking T P) {v : T}
      → outcome reply ≡ value v
      → staff_take env c h reply page b ≡ (h.finally (h.taken v page), staff_asked env c b)
  unfolding staff_take
  staff_take_of_value h e = rw (staff_perform_of_value e)

  pub staff_take_of_raised :
      (h : Taking T P) {f : Failure}
      → outcome reply ≡ raised f
      → staff_take env c h reply page b
        ≡ (h.finally (h.failed f page), staff_react reply (staff_asked env c b))
  unfolding staff_take
  staff_take_of_raised h e = rw (staff_perform_of_outcome e)

  pub staff_attempt_of_value :
      (h : Handlers P) {v : T}
      → outcome reply ≡ value v
      → staff_attempt env c h reply page b ≡ (h.finally (h.done page), staff_asked env c b)
  unfolding staff_attempt
  staff_attempt_of_value h e = rw (staff_perform_of_value e)

  settle_of_success :
      (h : Handlers P) (o : Outcome T)
      → succeeded o ≡ true
      → settle h o page ≡ h.finally (h.done page)
  settle_of_success h (value v) e = refl
  settle_of_success h no_content e = refl
  settle_of_success h (raised f) e = ground (arith, e)

  -- With content or without.
  pub staff_attempt_of_success :
      (h : Handlers P)
      → succeeded (outcome reply) ≡ true
      → staff_attempt env c h reply page b ≡ (h.finally (h.done page), staff_asked env c b)
  unfolding staff_attempt
  staff_attempt_of_success h e =
      rw (staff_perform_of_outcome refl)
        (rw (settle_of_success h (outcome reply) e) (rw (is_unauthorised_of_success T reply e)))
