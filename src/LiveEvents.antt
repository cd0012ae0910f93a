-- ===== src/LiveEvents.antt =====
-- The page of the events (frontend/src/app/events/page.tsx): the search, and the live feed, which
-- asks again every five seconds and marks what is new.
pub mod Laws
use the_eye.Base.{
  ℕ, Bool, true, false, Option, none, some, List, [], ◌∷◌, map, String, ltb, filter, length,
  if◌then◌else◌,
}
use the_eye.Browser.{Browser}
use the_eye.Http.{Fetched, Outcome, value, no_content, raised, Failure, any_message}
use the_eye.Api.Events.{EventRead, EventSearchParams, search_events}
use the_eye.Api.Call.{event, perform}

pub record EventsPage : Type 0 where
  pub filters : EventSearchParams
  pub events : List EventRead
  pub loading : Bool
  pub error : Option String
  pub live : Bool
  pub new_ids : List String
  pub max_seen_seq : ℕ

abbrev pub larger : ℕ → ℕ → ℕ
larger a b = if ltb a b then b else a

-- Math.max(...events.map((e) => e.sequence_num)), with 0 where there is none
abbrev pub max_seq : List EventRead → ℕ
max_seq [] = 0
max_seq (e ∷ es) = larger e.sequence_num (max_seq es)

abbrev pub ids : List EventRead → List String
ids es = map (λ e. e.id) es

-- The answer to the search of the first effect; one with no content is left aside.
pub searched : Outcome (List EventRead) → EventsPage → EventsPage
searched (value found) page = record page {
  events = found;
  max_seen_seq = max_seq found;
  loading = false;
}
searched no_content page = record page { loading = false }
searched (raised f) page = record page {
  error = some (any_message "Failed to load events" f);
  loading = false;
}

pub load_events :
    Option String → Fetched (List EventRead) → EventsPage → Browser → EventsPage × Browser
unfolding searched
load_events env reply page b =
    let (result, after) = perform env (event (search_events page.filters)) reply b in
    (searched result (record page { loading = true; error = none }), after)

abbrev pub is_fresh : ℕ → EventRead → Bool
is_fresh seen e = ltb seen e.sequence_num

unfoldable pub fresh : EventsPage → List EventRead → List EventRead
fresh page found = filter (is_fresh page.max_seen_seq) found

abbrev pub announce : List EventRead → List EventRead → EventsPage → EventsPage
announce [] found page = page
announce (e ∷ es) found page = record page {
  events = found;
  max_seen_seq = max_seq found;
  new_ids = ids (e ∷ es);
}

-- The answer to a poll; a rejection is not handled, so nothing changes.
unfoldable pub polled : Outcome (List EventRead) → EventsPage → EventsPage
unfolding fresh
polled (value found) page = announce (fresh page found) found page
polled no_content page = page
polled (raised f) page = page

pub poll_events :
    Option String → Fetched (List EventRead) → EventsPage → Browser → EventsPage × Browser
unfolding polled
poll_events env reply page b =
    let (result, after) = perform env (event (search_events page.filters)) reply b in
    (polled result page, after)

-- What may happen to the page. The answer to a search or to a poll meets the page as it is then,
-- whatever was changed in between; nothing cancels a call that is under way.
pub data Step : EventsPage → EventsPage → Type 0 where
  search_started : (page : EventsPage) → Step page (record page { loading = true; error = none })
  search_answered : (page : EventsPage) (o : Outcome (List EventRead)) → Step page (searched o page)
  poll_answered : (page : EventsPage) (o : Outcome (List EventRead)) → Step page (polled o page)
  toggle_live : (page : EventsPage) (live : Bool) → Step page (record page { live = live })
  change_filters :
      (page : EventsPage) (filters : EventSearchParams)
      → Step page (record page { filters = filters })
  forget_new : (page : EventsPage) → Step page (record page { new_ids = [] })

pub data Reach (s : EventsPage) : EventsPage → Type 0 where
  here : Reach s s
  next : {t u : EventsPage} → Reach s t → Step t u → Reach s u
