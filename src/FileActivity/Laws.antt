-- ===== src/FileActivity/Laws.antt =====
-- A load whose answer comes late, and one that fails.
use the_eye.Base.{false, Option, List, String, ◌≡◌, refl}
use the_eye.Browser.{Browser}
use the_eye.Http.{Fetched, value, raised, Failure, outcome}
use the_eye.Api.Events.{EventRead}
use the_eye.Api.Call.{activity}
use the_eye.Api.Call.Laws.{perform_of_outcome}
use the_eye.FileActivity.{FilePage, asks, choose, answer_load}

-- Where the load of the choice before is answered after that of the present one, the page shows the
-- events of the choice before, and does not show that anything is loading.
answer_load_late :
    (env : Option String) (p : FilePage) (change : FilePage → FilePage)
    (late soon : Fetched (List EventRead)) (b : Browser) {es fs : List EventRead}
    → outcome late ≡ value es
    → outcome soon ≡ value fs
    → let q = choose change p in
      let r = answer_load env (asks q.tab q) soon q b in
      let s = answer_load env (asks p.tab p) late r.0 r.1 in
      (s.0.events ≡ es) × (s.0.loading ≡ false) × (s.0.tab ≡ (change p).tab)
unfolding answer_load choose
answer_load_late env p change late soon b hl hs =
    let q = choose change p in
    rw (perform_of_outcome env (activity (asks q.tab q)) soon b hs)
      (rw (perform_of_outcome env (activity (asks p.tab p)) late _ hl) (refl, refl, refl))

-- Where a load fails, the events of an earlier load stay, and the page shows no error.
answer_load_failed :
    (env : Option String) (p : FilePage) (change : FilePage → FilePage)
    (reply : Fetched (List EventRead)) (b : Browser) {f : Failure}
    → outcome reply ≡ raised f
    → (let q = choose change p in answer_load env (asks q.tab q) reply q b).0
      ≡ record (change p) { loading = false }
unfolding answer_load choose
answer_load_failed env p change reply b h =
    let q = choose change p in rw (perform_of_outcome env (activity (asks q.tab q)) reply b h) refl
