-- ===== src/Http/Settle.antt =====
-- From an answer of `fetch` to the result of `request`.
use the_eye.Base.{ℕ, Bool, false, String, ◌==◌, ◌&&◌, leb, eqb, if◌then◌else◌}

-- A promise that resolves to a value, or rejects with an error of the given message.
pub data Settled {ℓ} (A : Type ℓ) : Type ℓ where
  resolved : A → Settled A
  rejected : String → Settled A

-- `fetch` rejects, or there is a response whose text and JSON can each be read or not.
pub data Fetched {ℓ} (T : Type ℓ) : Type ℓ where
  unreachable : String → Fetched T
  response : ℕ → String → Settled String → Settled T → Fetched T

-- An `ApiError` with its status, or another `Error`; each has a message.
pub data Failure : Type 0 where
  api_error : ℕ → String → Failure
  other_error : String → Failure

-- `undefined as T` for an answer with no content.
pub data Outcome {ℓ} (T : Type ℓ) : Type ℓ where
  value : T → Outcome T
  no_content : Outcome T
  raised : Failure → Outcome T

-- res.ok
abbrev pub is_ok : ℕ → Bool
is_ok status = leb 200 status && leb status 299

abbrev pub or_text : String → String → String
or_text s d = if s == "" then d else s

abbrev pub error_of {ℓ} : {T : Type ℓ} → ℕ → String → Settled String → Outcome T
error_of status status_text (resolved body) = raised (api_error status (or_text body status_text))
error_of status status_text (rejected m) = raised (other_error m)

abbrev pub json_of {ℓ} : {T : Type ℓ} → Settled T → Outcome T
json_of (resolved v) = value v
json_of (rejected m) = raised (other_error m)

unfoldable pub outcome {ℓ} : {T : Type ℓ} → Fetched T → Outcome T
outcome (unreachable m) = raised (other_error m)
outcome (response status status_text text json) =
    if is_ok status
    then (if eqb status 204 then no_content else json_of json)
    else error_of status status_text text

-- The status of an answer, if there is one.
abbrev pub is_unauthorised {ℓ} : {T : Type ℓ} → Fetched T → Bool
is_unauthorised (unreachable m) = false
is_unauthorised (response status status_text text json) = eqb status 401

-- err instanceof ApiError ? err.message : fallback
abbrev pub api_message : String → Failure → String
api_message fallback (api_error status m) = m
api_message fallback (other_error m) = fallback

-- e.message || fallback
abbrev pub any_message : String → Failure → String
any_message fallback (api_error status m) = or_text m fallback
any_message fallback (other_error m) = or_text m fallback
