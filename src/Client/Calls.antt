-- ===== src/Client/Calls.antt =====
-- web/src/lib/api.ts: a call of `request`, and the entries of a `URLSearchParams`.
use tbd_dev.Prelude.{
  ℕ, String, Option, none, some, List, [], ◌∷◌, ◌==◌, if◌then◌else◌, truthy, or_else,
}

-- `request<Answer>(path, { method, body: JSON.stringify(body) })`; no method is the one that `fetch`
-- takes by default.
pub record Call (Body Answer : Type 0) : Type 0 where
  pub method : Option String
  pub path : String
  pub body : Option Body

-- `qs.set(key, value)` where no key stands twice.
unfoldable pub set_param : String → String → List (String × String) → List (String × String)
set_param key value [] = (key, value) ∷ []
set_param key value ((k, v) ∷ qs) =
    if k == key then (key, value) ∷ qs else (k, v) ∷ set_param key value qs

-- `if (n !== undefined) qs.set(key, String(n))`
unfoldable pub set_number :
    (ℕ → String) → String → Option ℕ → List (String × String) → List (String × String)
unfolding set_param
set_number print key none qs = qs
set_number print key (some n) qs = set_param key (print n) qs

-- `if (s) qs.set(key, s)`
unfoldable pub set_text : String → Option String → List (String × String) → List (String × String)
unfolding set_param
set_text key value qs = if truthy value then set_param key (or_else value "") qs else qs
