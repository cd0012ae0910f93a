-- ===== src/LiveEvents/Laws.antt =====
-- The live feed knows the last event that it shows, and marks exactly what came after it.
use the_eye.Base.{
  leb, ◌≢◌, ◌∙◌, Bool-cases, inl, inr, ℕ, true, false, List, [], ◌∷◌, ◌≡◌, refl, arith, filter,
  if◌then◌else◌,
}
use the_eye.Http.{Outcome, value, no_content, raised}
use the_eye.Api.Events.{EventRead}
use the_eye.LiveEvents.{
  EventsPage, max_seq, ids, is_fresh, fresh, announce, searched, polled, Step, search_started,
  search_answered, poll_answered, toggle_live, change_filters, forget_new, Reach, here, next,
}

abbrev pub IsSynced : EventsPage → Type 0
IsSynced page = page.max_seen_seq ≡ max_seq page.events

searched-IsSynced :
    (o : Outcome (List EventRead)) (page : EventsPage) → IsSynced page → IsSynced (searched o page)
unfolding searched
searched-IsSynced (value found) page h = refl
searched-IsSynced no_content page h = h
searched-IsSynced (raised f) page h = h

announce-IsSynced :
    (es found : List EventRead) (page : EventsPage)
    → IsSynced page
    → IsSynced (announce es found page)
announce-IsSynced [] found page h = h
announce-IsSynced (e ∷ es) found page h = refl

polled-IsSynced :
    (o : Outcome (List EventRead)) (page : EventsPage) → IsSynced page → IsSynced (polled o page)
unfolding polled
polled-IsSynced (value found) page h = announce-IsSynced (fresh page found) found page h
polled-IsSynced no_content page h = h
polled-IsSynced (raised f) page h = h

Step-IsSynced : {s t : EventsPage} → Step s t → IsSynced s → IsSynced t
Step-IsSynced (search_started page) h = h
Step-IsSynced (search_answered page o) h = searched-IsSynced o page h
Step-IsSynced (poll_answered page o) h = polled-IsSynced o page h
Step-IsSynced (toggle_live page live) h = h
Step-IsSynced (change_filters page filters) h = h
Step-IsSynced (forget_new page) h = h

-- If the last seen sequence number of a page is the largest among the events it shows, so it is on
-- every page reached from it, in whatever order answers come and the user changes the page.
pub Reach-IsSynced : {s t : EventsPage} → Reach s t → IsSynced s → IsSynced t
Reach-IsSynced here h = h
Reach-IsSynced (next r st) h = Step-IsSynced st (Reach-IsSynced r h)

some_fresh :
    (seen : ℕ) (found : List EventRead)
    → leb (max_seq found) seen ≡ false
    → filter (is_fresh seen) found ≢ []
some_fresh seen [] h = ground arith
some_fresh seen (e ∷ es) h = ground (arith, some_fresh seen es)

none_fresh :
    (seen : ℕ) (found : List EventRead)
    → leb (max_seq found) seen ≡ true
    → filter (is_fresh seen) found ≡ []
none_fresh seen [] h = refl
none_fresh seen (e ∷ es) h = ground (arith, none_fresh seen es)

announce_of_ne :
    (es found : List EventRead) (page : EventsPage)
    → es ≢ []
    → announce es found page
      ≡ record page { events = found; max_seen_seq = max_seq found; new_ids = ids es }
announce_of_ne [] found page h = absurd (h refl)
announce_of_ne (e ∷ es) found page h = refl

-- Where the answer to a poll holds nothing later than what was seen, the page stays as it is;
-- otherwise it shows the answer, marks exactly the later events as new, and takes the answer's last
-- number as seen.
pub polled_lem :
    (found : List EventRead) (page : EventsPage)
    → polled (value found) page ≡ (
        if leb (max_seq found) page.max_seen_seq then page else record page {
          events = found;
          max_seen_seq = max_seq found;
          new_ids = ids (filter (is_fresh page.max_seen_seq) found);
        })
unfolding polled fresh
polled_lem found page = elim (Bool-cases (leb (max_seq found) page.max_seen_seq)) [
  | inl old ↦ rw old (rw (none_fresh page.max_seen_seq found old))
  | inr later ↦ rw later (
      announce_of_ne (filter (is_fresh page.max_seen_seq) found) found page
        (some_fresh page.max_seen_seq found later))
]

polled_seen :
    (found : List EventRead) (page : EventsPage)
    → leb (max_seq found) (polled (value found) page).max_seen_seq ≡ true
polled_seen found page = rw polled_lem (ground arith)

-- A second poll with the same answer changes nothing: no event is marked as new twice.
pub polled_idempotent :
    (found : List EventRead) (page : EventsPage)
    → polled (value found) (polled (value found) page) ≡ polled (value found) page
polled_idempotent found page =
    polled_lem found (polled (value found) page) ∙ rw (polled_seen found page)
