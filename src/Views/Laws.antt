-- ===== src/Views/Laws.antt =====
-- What a page that loads one answer shows after it.
use the_eye.Base.{Option, some, String, ◌≡◌, refl, ap, true, false}
use the_eye.Browser.{Browser}
use the_eye.Client.{react}
use the_eye.Http.{Fetched, Outcome, value, no_content, raised, outcome, any_message}
use the_eye.Api.Call.{Call, asked}
use the_eye.Api.Call.Laws.{perform_of_outcome}
use the_eye.Page.{take, attempt_take}
use the_eye.Views.{View, view_handlers, load_view}

-- What an answer makes of a view.
abbrev pub viewed : {A : Type 0} → String → Outcome A → View A → View A
viewed fallback (value a) v = record v { shown = a; loading = false }
viewed fallback no_content v = record v { loading = false }
viewed fallback (raised f) v = record v { error = some (any_message fallback f); loading = false }

take-viewed :
    {A : Type 0} (fallback : String) (o : Outcome A) (v : View A)
    → take (view_handlers fallback) o (record v { loading = true }) ≡ viewed fallback o v
take-viewed fallback (value a) v = refl
take-viewed fallback no_content v = refl
take-viewed fallback (raised f) v = refl

-- A page that loads one answer sends the one call, and whatever the answer waits no longer: a value
-- is shown, and an error leaves what is shown and gives its message, or the page's own where it has
-- none.
load_view_lem :
    {A : Type 0} (env : Option String) (call : Call) (fallback : String) (reply : Fetched A)
    (v : View A) (b : Browser)
    → load_view env call fallback reply v b
      ≡ (viewed fallback (outcome reply) v, react reply (asked env call b))
unfolding load_view attempt_take
load_view_lem env call fallback reply v b =
    rw (perform_of_outcome env call reply b refl)
      (ap (λ w. (w, react reply (asked env call b))) (take-viewed fallback (outcome reply) v))
