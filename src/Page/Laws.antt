-- ===== src/Page/Laws.antt =====
-- The outcome of a handler by the outcome of its call.
use the_eye.Base.{Option, String, ◌≡◌}
use the_eye.Browser.{Browser}
use the_eye.Client.{react}
use the_eye.Http.{Fetched, value, raised, Failure, outcome}
use the_eye.Api.Call.{Call, asked}
use the_eye.Api.Call.Laws.{perform_of_value, perform_of_outcome}
use the_eye.Page.{Handlers, attempt, load, attempt_then_load}

module _ {ℓ} {P : Type 0} {T : Type ℓ} (env : Option String) (c : Call) (reply : Fetched T)
    (page : P) (b : Browser) where
  pub attempt_of_value :
      (h : Handlers P) {v : T}
      → outcome reply ≡ value v
      → attempt env c h reply page b ≡ (h.finally (h.done page), asked env c b)
  unfolding attempt
  attempt_of_value h e = rw (perform_of_value env c reply b e)

  pub attempt_of_raised :
      (h : Handlers P) {f : Failure}
      → outcome reply ≡ raised f
      → attempt env c h reply page b ≡ (h.finally (h.failed f page), react reply (asked env c b))
  unfolding attempt
  attempt_of_raised h e = rw (perform_of_outcome env c reply b e)

  pub load_of_value :
      (loaded : T → P → P) (failed : Failure → P → P) {v : T}
      → outcome reply ≡ value v
      → load env c loaded failed reply page b ≡ (loaded v page, asked env c b)
  unfolding load
  load_of_value loaded failed e = rw (perform_of_value env c reply b e)

  pub load_of_raised :
      (loaded : T → P → P) (failed : Failure → P → P) {f : Failure}
      → outcome reply ≡ raised f
      → load env c loaded failed reply page b ≡ (failed f page, react reply (asked env c b))
  unfolding load
  load_of_raised loaded failed e = rw (perform_of_outcome env c reply b e)

  pub attempt_then_load_of_value :
      (h : Handlers P) (reload : P → Browser → P × Browser) {v : T}
      → outcome reply ≡ value v
      → attempt_then_load env c h reply reload page b
        ≡ reload (h.finally (h.done page)) (asked env c b)
  unfolding attempt_then_load
  attempt_then_load_of_value h reload e = rw (perform_of_value env c reply b e)

  pub attempt_then_load_of_raised :
      (h : Handlers P) (reload : P → Browser → P × Browser) {f : Failure}
      → outcome reply ≡ raised f
      → attempt_then_load env c h reply reload page b
        ≡ (h.finally (h.failed f page), react reply (asked env c b))
  unfolding attempt_then_load
  attempt_then_load_of_raised h reload e = rw (perform_of_outcome env c reply b e)
