-- ===== src/Browser.antt =====
-- What the portals' code sees of the browser: `window` (absent while a page is rendered on the
-- server), `localStorage`, the navigations made, the `dark` class of the document, the colour
-- scheme preferred by the system, and the requests sent. Both portals run on such a browser.
use the_eye.Base.{Bool, Option, List, ◌∷◌, String}
use the_eye.Base.Dict.{Dict, lookup, insert, remove}
use the_eye.Json.{Json}

-- A request as `fetch` is given it. `include` stands for credentials: "include"; without it no
-- session cookie goes to another origin.
pub record Wire : Type 0 where
  pub origin : String
  pub path : String
  pub query : Dict String
  pub method : String
  pub headers : Dict String
  pub include : Bool
  pub body : Option Json

pub record Browser : Type 0 where
  pub window : Bool
  pub storage : Dict String
  pub visited : List String
  pub dark : Bool
  pub prefers_dark : Bool
  pub sent : List Wire

-- localStorage.getItem, setItem and removeItem
unfoldable pub get_item : String → Browser → Option String
get_item k b = lookup k b.storage

unfoldable pub set_item : String → String → Browser → Browser
set_item k v b = record b { storage = insert k v b.storage }

unfoldable pub remove_item : String → Browser → Browser
remove_item k b = record b { storage = remove k b.storage }

-- router.replace(href), window.location.replace(href) and window.location.href = href, the last one
-- first
unfoldable pub navigate : String → Browser → Browser
navigate href b = record b { visited = href ∷ b.visited }

-- the requests, the last one first
unfoldable pub send : Wire → Browser → Browser
send w b = record b { sent = w ∷ b.sent }
