-- ===== src/Client.antt =====
-- web/src/lib/api.ts: the token store, the fetch wrapper `request`, and what a call answers.
-- `fetch`, `JSON.stringify` and the answers of the server come from outside.
pub mod Answers
pub mod Calls
pub mod Requests
pub mod Endpoints
use tbd_dev.Prelude.{
  ℕ, String, Bool, Option, none, some, List, [], ◌∷◌, ◌⧺◌, ◌==◌, eqb, if◌then◌else◌, truthy_text,
}

-- A parsed JSON value. The objects of an error answer are read only at their `detail` field.
mutual
  pub data Json : Type 0 where
    null : Json
    bool : Bool → Json
    num : ℕ → Json
    str : String → Json
    arr : Items → Json
    obj : Fields → Json

  pub data Items : Type 0 where
    nil : Items
    cons : Json → Items → Items

  pub data Fields : Type 0 where
    end : Fields
    field : String → Json → Fields → Fields

-- What `request` returns or throws: a value (none is `undefined`), an `ApiError`, another exception.
pub data Reply {ℓ} (A : Type ℓ) : Type ℓ where
  ok : A → Reply A
  api_error : ℕ → Json → Reply A
  failed : Reply A

pub record Response : Type 0 where
  pub ok : Bool
  pub status : ℕ
  pub status_text : String
  -- `res.json()`, none when it rejects
  pub json : Option Json

-- `{ ...m, [k]: v }`
unfoldable pub set_header : String → String → List (String × String) → List (String × String)
set_header k v [] = (k, v) ∷ []
set_header k v ((j, w) ∷ m) = if j == k then (k, v) ∷ m else (j, w) ∷ set_header k v m

-- `{ ...m, ...n }`
unfoldable pub spread : List (String × String) → List (String × String) → List (String × String)
unfolding set_header
spread m [] = m
spread m ((k, v) ∷ n) = spread (set_header k v m) n

-- The token as `getToken` reads it: null on the server, else the stored item.
unfoldable pub get_token : Bool → Option String → Option String
get_token in_browser stored = if in_browser then stored else none

unfoldable pub set_token : String → Option String → Option String
set_token token stored = some token

unfoldable pub clear_token : Option String → Option String
clear_token stored = none

unfoldable pub request_headers : Option String → List (String × String) → List (String × String)
unfolding spread
request_headers token given =
    let headers = spread (("Content-Type", "application/json") ∷ []) given in
    elim token [
      | none ↦ headers
      | some t ↦
          if truthy_text t then set_header "Authorization" ("Bearer " ⧺ t) headers else headers
    ]

-- The last `detail` field of the object, as `JSON.parse` keeps it.
unfoldable pub detail_field : Fields → Option Json
detail_field end = none
detail_field (field k v rest) =
    let later = detail_field rest in
    elim later [ some w ↦ some w | none ↦ if k == "detail" then some v else none ]

-- `body.detail ?? JSON.stringify(body)`; reading a field of null throws, and the catch keeps the
-- status text.
unfoldable pub error_detail : (Json → String) → String → Json → Json
unfolding detail_field
error_detail stringify status_text null = str status_text
error_detail stringify status_text (obj fields) = elim (detail_field fields) [
  | none ↦ str (stringify (obj fields))
  | some null ↦ str (stringify (obj fields))
  | some detail ↦ detail
]
error_detail stringify status_text body = str (stringify body)

-- `request` after `fetch` has settled; none is a fetch that rejected.
unfoldable pub answer : (Json → String) → Option Response → Reply (Option Json)
unfolding error_detail
answer stringify none = failed
answer stringify (some res) =
    if res.ok
    then if eqb res.status 204
      then ok none
      else elim res.json [ none ↦ failed | some body ↦ ok (some body) ]
    else elim res.json [
      | none ↦ api_error res.status (str res.status_text)
      | some body ↦ api_error res.status (error_detail stringify res.status_text body)
    ]
