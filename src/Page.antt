-- ===== src/Page.antt =====
-- The shape of the pages' handlers: a call whose outcome changes the page, with what `finally` does
-- on every outcome, and a second call that reloads the list where the first one succeeded.
pub mod Laws
use the_eye.Base.{Bool, true, false, Option, none, some, String, if◌then◌else◌}
use the_eye.Browser.{Browser}
use the_eye.Http.{Fetched, Outcome, value, no_content, raised, Failure}
use the_eye.Api.Call.{Call, perform}

-- The three parts of a try statement whose result is not used.
pub record Handlers (P : Type 0) : Type 0 where
  pub done : P → P
  pub failed : Failure → P → P
  pub finally : P → P

-- The parts of a try statement that uses the result of its call.
pub record Taking (T P : Type 0) : Type 0 where
  pub taken : T → P → P
  pub failed : Failure → P → P
  pub finally : P → P

-- The parts of a try statement that puts the result of its call into a field that may be empty.
pub record Setting (T P : Type 0) : Type 0 where
  pub put : Option T → P → P
  pub failed : Failure → P → P
  pub finally : P → P

abbrev pub succeeded {ℓ} : {T : Type ℓ} → Outcome T → Bool
succeeded (raised f) = false
succeeded _ = true

module _ {P : Type 0} where
  abbrev pub settle {ℓ} : {T : Type ℓ} → Handlers P → Outcome T → P → P
  settle h (value v) page = h.finally (h.done page)
  settle h no_content page = h.finally (h.done page)
  settle h (raised f) page = h.finally (h.failed f page)

  -- try { await call; done } catch { failed } finally { finally }
  unfoldable pub attempt {ℓ} :
      {T : Type ℓ} → Option String → Call → Handlers P → Fetched T → P → Browser → P × Browser
  attempt env c h reply page b =
      let (result, after) = perform env c reply b in (settle h result page, after)

  -- load().then(loaded).catch(failed): an answer with no content is left aside.
  abbrev pub receive {ℓ} : {T : Type ℓ} → (T → P → P) → (Failure → P → P) → Outcome T → P → P
  receive loaded failed (value v) page = loaded v page
  receive loaded failed no_content page = page
  receive loaded failed (raised f) page = failed f page

  unfoldable pub load {ℓ} :
      {T : Type ℓ}
      → Option String
      → Call
      → (T → P → P)
      → (Failure → P → P)
      → Fetched T
      → P
      → Browser
      → P × Browser
  load env c loaded failed reply page b =
      let (result, after) = perform env c reply b in (receive loaded failed result page, after)

  -- The reload is started where the call succeeded; its answer comes after `finally`.
  unfoldable pub attempt_then_load {ℓ} :
      {T : Type ℓ}
      → Option String
      → Call
      → Handlers P
      → Fetched T
      → (P → Browser → P × Browser)
      → P
      → Browser
      → P × Browser
  attempt_then_load env c h reply reload page b =
      let (result, after) = perform env c reply b in
      let page' = settle h result page in
      if succeeded result then reload page' after else (page', after)

  -- try { taken(await call) } catch { failed } finally { finally }
  abbrev pub take : {T : Type 0} → Taking T P → Outcome T → P → P
  take h (value v) page = h.finally (h.taken v page)
  take h no_content page = h.finally page
  take h (raised f) page = h.finally (h.failed f page)

  unfoldable pub attempt_take :
      {T : Type 0} → Option String → Call → Taking T P → Fetched T → P → Browser → P × Browser
  attempt_take env c h reply page b =
      let (result, after) = perform env c reply b in (take h result page, after)

  -- try { put(await call) } catch { failed } finally { finally }: no content empties the field
  abbrev pub set : {T : Type 0} → Setting T P → Outcome T → P → P
  set h (value v) page = h.finally (h.put (some v) page)
  set h no_content page = h.finally (h.put none page)
  set h (raised f) page = h.finally (h.failed f page)

  unfoldable pub attempt_set :
      {T : Type 0} → Option String → Call → Setting T P → Fetched T → P → Browser → P × Browser
  attempt_set env c h reply page b =
      let (result, after) = perform env c reply b in (set h result page, after)

  -- try { await call; done; await reload } catch { failed } finally { finally }, where the reload
  -- deals with its own errors
  abbrev reload_then {ℓ} :
      {T : Type ℓ}
      → Handlers P
      → Outcome T
      → (P → Browser → P × Browser)
      → P
      → Browser
      → P × Browser
  reload_then h (raised f) reload page b = (h.finally (h.failed f page), b)
  reload_then h _ reload page b =
      let (shown, after) = reload (h.done page) b in (h.finally shown, after)

  unfoldable pub attempt_and_load {ℓ} :
      {T : Type ℓ}
      → Option String
      → Call
      → Handlers P
      → Fetched T
      → (P → Browser → P × Browser)
      → P
      → Browser
      → P × Browser
  attempt_and_load env c h reply reload page b =
      let (result, after) = perform env c reply b in reload_then h result reload page after
