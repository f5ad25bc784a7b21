-- ===== src/Examples/ClientExamples.antt =====
-- The theorems about the API client, applied.
use tbd_dev.Prelude.{ℕ, String, true, false, Option, none, some, ◌≡◌, ◌≢◌, ◌↔◌, ◌⊎◌, refl}
use tbd_dev.Client.{Json, arr, nil, obj, Fields, end, field, ok, Response, answer}
use tbd_dev.Client.Answers.{answer-eq-ok_iff, answer-api_error, IsToldBy}
use tbd_dev.Client.Endpoints.Admin.{AdminProjectsParams}

abbrev print_json : Json → String
print_json j = "{}"

abbrev validation_error : Fields
validation_error = field "detail" (arr nil) end

abbrev unprocessable : Response
unprocessable = record {
  ok = false;
  status = 422;
  status_text = "Unprocessable";
  json = some (obj validation_error);
}

abbrev nothing : Option Json
nothing = none

abbrev no_content : Response
no_content = record { ok = true; status = 204; status_text = "No Content"; json = none }

answer-eq-ok_iff_example : (answer print_json (some no_content) ≡ ok none) ↔ (
    (res : Response) × (some no_content ≡ some res)
    × (res.ok ≡ true)
    × (((res.status ≡ 204) × (nothing ≡ none))
        ⊎ ((b : Json) × (res.status ≢ 204) × (res.json ≡ some b) × (nothing ≡ some b))))
answer-eq-ok_iff_example = answer-eq-ok_iff print_json (some no_content) none

answer-api_error_example :
    (res : Response) × (some unprocessable ≡ some res)
    × (res.ok ≡ false)
    × (422 ≡ res.status)
    × IsToldBy print_json res.status_text res.json (arr nil)
unfolding answer
answer-api_error_example = answer-api_error print_json (some unprocessable) 422 (arr nil) refl

abbrev second_page : AdminProjectsParams
second_page = record {
  skip = some 50;
  limit = some 50;
  search = some "";
  status = some "active";
  tag = none;
  sort = none;
  order = none;
}

abbrev print_number : ℕ → String
print_number n = "50"
