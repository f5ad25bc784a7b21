-- ===== src/Client/Requests.antt =====
-- What the calls ask for.
use tbd_dev.Prelude.{
  ℕ, String, Option, none, some, List, [], ◌∷◌, ◌⧺◌, ◌≡◌, refl, ◌==◌, eq_iff, arith, if◌then◌else◌,
  truthy, Bool-cases, inl, inr,
}
use tbd_dev.Client.Calls.{set_param, set_number, set_text}
use tbd_dev.Client.Endpoints.Admin.{AdminProjectsParams, projects_query}
use tbd_dev.Client.Endpoints.Builds
use tbd_dev.Client.Endpoints.Deploys
use text.Mathlib.TextLemmas.{append_assoc}

-- `qs.get(key)`
unfoldable pub param : String → List (String × String) → Option String
param key [] = none
param key ((k, v) ∷ qs) = if k == key then some v else param key qs

param-set_param :
    (k j v : String) (qs : List (String × String))
    → param j (set_param k v qs) ≡ (if k == j then some v else param j qs)
unfolding param set_param
param-set_param k j v [] = refl
param-set_param k j v ((i, w) ∷ qs) =
    ground (arith, eq_iff k j, eq_iff i k, eq_iff i j, param-set_param k j v qs)

abbrev number_or : (ℕ → String) → Option ℕ → Option String → Option String
number_or print none rest = rest
number_or print (some n) rest = some (print n)

param-set_number :
    (print : ℕ → String) (k j : String) (o : Option ℕ) (qs : List (String × String))
    → param j (set_number print k o qs)
      ≡ (if k == j then number_or print o (param j qs) else param j qs)
unfolding set_number
param-set_number print k j none qs = ground arith
param-set_number print k j (some n) qs = param-set_param k j (print n) qs

param-set_text :
    (k j : String) (o : Option String) (qs : List (String × String))
    → param j (set_text k o qs)
      ≡ (if k == j then (if truthy o then o else param j qs) else param j qs)
unfolding set_text
param-set_text k j none qs = ground arith
param-set_text k j (some s) qs = elim (Bool-cases (truthy (some s))) [
  | inl told ↦ rw told (param-set_param k j s qs)
  | inr empty ↦ rw empty (ground arith)
]

-- The number that a query string holds, and the text, which is left out where it is empty.
abbrev number_value : (ℕ → String) → Option ℕ → Option String
number_value print o = number_or print o none

abbrev text_value : Option String → Option String
text_value o = if truthy o then o else none

-- The list of projects is asked for with exactly the parameters that are given, each under its own name:
-- a number as its decimal text, and a text unless it is empty.
pub projects_query_lem :
    (print : ℕ → String) (p : AdminProjectsParams)
    → let qs = projects_query print (some p) in
      (param "skip" qs ≡ number_value print p.skip)
      × (param "limit" qs ≡ number_value print p.limit)
      × (param "search" qs ≡ text_value p.search)
      × (param "status" qs ≡ text_value p.status)
      × (param "tag" qs ≡ text_value p.tag)
      × (param "sort" qs ≡ text_value p.sort)
      × (param "order" qs ≡ text_value p.order)
unfolding projects_query param
projects_query_lem print p = (
  simp (param-set_text, param-set_number),
  simp (param-set_text, param-set_number),
  simp (param-set_text, param-set_number),
  simp (param-set_text, param-set_number),
  simp (param-set_text, param-set_number),
  simp (param-set_text, param-set_number),
  simp (param-set_text, param-set_number),
)

-- The stream of a build's logs and that of a deploy's logs are at the address of the logs, with `/stream` behind it.
pub logs_stream_url_lem :
    (base project id : String)
    → (Builds.logs_stream_url base project id ≡ base ⧺ (Builds.logs project id).path ⧺ "/stream")
      × (Deploys.logs_stream_url base project id
          ≡ base ⧺ (Deploys.logs project id).path ⧺ "/stream")
unfolding Builds.logs_stream_url Builds.logs Deploys.logs_stream_url Deploys.logs
logs_stream_url_lem base project id = (simp (append_assoc), simp (append_assoc))
