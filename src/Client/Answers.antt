-- ===== src/Client/Answers.antt =====
-- The laws of `request`: the headers that it sends and the answers that it hands on.
use tbd_dev.Prelude.{
  ℕ, String, true, false, ◌≡◌, ◌≢◌, refl, ◌↔◌, ◌⊎◌, inl, inr, Option, none, some, List, [], ◌∷◌,
  ◌⧺◌, ◌==◌, eq_iff, arith, if◌then◌else◌, truthy_text, Bool-cases, Option-cases, subst,
}
use tbd_dev.Client.{
  Json, null, str, obj, Fields, ok, api_error, Response, set_header, spread, request_headers,
  detail_field, error_detail, answer,
}

-- The header sent under a name.
abbrev pub header : String → List (String × String) → Option String
header k [] = none
header k ((j, v) ∷ m) = if j == k then some v else header k m

-- The value that the caller's own headers give a name: the last one wins.
abbrev pub given_or : String → List (String × String) → Option String → Option String
given_or k [] old = old
given_or k ((j, v) ∷ m) old = given_or k m (if j == k then some v else old)

pub header-set_header :
    (k j v : String) (m : List (String × String))
    → header j (set_header k v m) ≡ (if k == j then some v else header j m)
unfolding set_header
header-set_header k j v [] = refl
header-set_header k j v ((i, w) ∷ m) =
    ground (arith, eq_iff k j, eq_iff i k, eq_iff i j, header-set_header k j v m)

header-spread :
    (j : String) (m n : List (String × String)) → header j (spread m n) ≡ given_or j n (header j m)
unfolding spread
header-spread j m [] = refl
header-spread j m ((k, v) ∷ n) =
    rw (header-spread j (set_header k v m) n, header-set_header k j v m)

-- The bearer credential of a stored token.
abbrev pub credential : Option String → Option String → Option String
credential none old = old
credential (some t) old = if truthy_text t then some ("Bearer " ⧺ t) else old

-- Every request carries the stored token as its bearer credential, over any `Authorization` header
-- of the caller's, unless the token is null or empty; its content type is JSON unless the caller's
-- headers name another.
pub request_headers_lem :
    (token : Option String) (given : List (String × String))
    → (header "Authorization" (request_headers token given)
        ≡ credential token (given_or "Authorization" given none))
      × (header "Content-Type" (request_headers token given)
          ≡ given_or "Content-Type" given (some "application/json"))
unfolding request_headers
request_headers_lem none given =
    (header-spread "Authorization" _ given, header-spread "Content-Type" _ given)
request_headers_lem (some t) given = elim (Bool-cases (truthy_text t)) [
  | inl set ↦ rw set (simp header-set_header, simp (header-set_header, header-spread))
  | inr unset ↦
      rw unset (header-spread "Authorization" _ given, header-spread "Content-Type" _ given)
]

-- A call returns a value exactly when the server's answer is ok and either has status 204, for the
-- value undefined, or has a body that parses, for that body.
pub answer-eq-ok_iff :
    (stringify : Json → String) (r : Option Response) (v : Option Json)
    → (answer stringify r ≡ ok v) ↔ (
        (res : Response) × (r ≡ some res)
        × (res.ok ≡ true)
        × (((res.status ≡ 204) × (v ≡ none))
            ⊎ ((b : Json) × (res.status ≢ 204) × (res.json ≡ some b) × (v ≡ some b))))
unfolding answer
answer-eq-ok_iff stringify none v = (λ h. cc, λ h. cc h.1)
answer-eq-ok_iff stringify (some res) v =
    (λ h. (res, refl, ground arith, ok_cases h), λ h. ground (arith, h))
  where
    ok_cases :
        answer stringify (some res) ≡ ok v
        → ((res.status ≡ 204) × (v ≡ none))
          ⊎ ((b : Json) × (res.status ≢ 204) × (res.json ≡ some b) × (v ≡ some b))
    ok_cases h = ground arith

-- The body is an object whose `detail` field is a value other than null.
abbrev pub IsDetail : Option Json → Json → Type 0
IsDetail json d =
    (fields : Fields) × (json ≡ some (obj fields)) × (detail_field fields ≡ some d) × (d ≢ null)

-- The text for a body without such a field: the status text where there is no body or null, else the
-- body's text.
abbrev pub fallback : (Json → String) → String → Option Json → String
fallback stringify status_text none = status_text
fallback stringify status_text (some null) = status_text
fallback stringify status_text (some body) = stringify body

abbrev pub IsToldBy : (Json → String) → String → Option Json → Json → Type 0
IsToldBy stringify status_text json d =
    IsDetail json d
    ⊎ (¬ ((e : Json) × IsDetail json e) × (d ≡ str (fallback stringify status_text json)))

no-IsDetail :
    (fields : Fields) (o : Option Json)
    → detail_field fields ≡ o
    → (o ≡ none) ⊎ (o ≡ some null)
    → ¬ ((e : Json) × IsDetail (some (obj fields)) e)
no-IsDetail fields o at (inl gone) (e, (gs, same, found, other)) = cc
no-IsDetail fields o at (inr no_value) (e, (gs, same, found, other)) = other (cc)

with_value :
    (stringify : Json → String) (status_text : String) (fields : Fields) (d : Json)
    → detail_field fields ≡ some d
    → IsToldBy stringify status_text
        (some (obj fields))
        (error_detail stringify status_text (obj fields))
unfolding error_detail
with_value stringify status_text fields null e =
    rw (e, error_detail) (inr (no-IsDetail fields (some null) e (inr refl), refl))
with_value stringify status_text fields _ e = rw (e, error_detail) (inl (fields, refl, e, λ h. cc))

error_detail-IsToldBy :
    (stringify : Json → String) (status_text : String) (body : Json)
    → IsToldBy stringify status_text (some body) (error_detail stringify status_text body)
unfolding error_detail
error_detail-IsToldBy stringify status_text null = inr ((λ (e, (gs, same, r, o)). cc), refl)
error_detail-IsToldBy stringify status_text (obj fields) =
    elim (Option-cases (detail_field fields)) [
      | inl missing ↦
          rw (missing, error_detail) (inr (no-IsDetail fields none missing (inl refl), refl))
      | inr (found, e) ↦ with_value stringify status_text fields found e
    ]
error_detail-IsToldBy stringify status_text _ = inr ((λ (e, (gs, same, r, o)). cc), refl)

-- A thrown `ApiError` has the status of an answer that is not ok. Its detail is the `detail` field of the
-- error body where the body is an object with such a field that is not null, also when that is no text;
-- else it is a text: the status text where the body is null or cannot be read, and else the body's text.
pub answer-api_error :
    (stringify : Json → String) (r : Option Response) (n : ℕ) (d : Json)
    → answer stringify r ≡ api_error n d
    → (res : Response) × (r ≡ some res)
      × (res.ok ≡ false)
      × (n ≡ res.status)
      × IsToldBy stringify res.status_text res.json d
unfolding answer
answer-api_error stringify none n d h = cc
answer-api_error stringify (some res) n d h = (res, refl, ground arith, ground arith, told)
  where
    told : IsToldBy stringify res.status_text res.json d
    told = elim (Option-cases res.json) [
      | inl unread ↦ rw unread (inr ((λ (e, (gs, same, r, o)). cc), ground arith))
      | inr (body, parsed) ↦
          let same : error_detail stringify res.status_text body ≡ d = ground arith in
          rw parsed (
            subst (IsToldBy stringify res.status_text (some body)) same
              (error_detail-IsToldBy stringify res.status_text body))
    ]
