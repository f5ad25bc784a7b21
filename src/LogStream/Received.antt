-- ===== src/LogStream/Received.antt =====
-- What the hook shows of a stream.
use tbd_dev.Prelude.{String, Bool, Option, none, some, List, [], ◌∷◌, ◌≡◌, refl, arith, ap, ◌∙◌}
use tbd_dev.LogStream.{Hook, Payload, StreamEvent, log, done, error, deliver, deliver_all}
use tbd_dev.LogStream.Laws.{deliver_all-closed}

-- The payloads that arrive before the stream ends: by a `done` or by an error, the former's included.
abbrev pub received : List StreamEvent → List Payload
received [] = []
received (log none ∷ es) = received es
received (log (some p) ∷ es) = p ∷ received es
received (done none ∷ es) = []
received (done (some p) ∷ es) = p ∷ []
received (error closed ∷ es) = []

-- The last of a list, or a value to start from.
abbrev pub last_or {ℓ} : {A : Type ℓ} → A → List A → A
last_or a [] = a
last_or a (b ∷ bs) = last_or b bs

abbrev pub shown : Hook → Payload
shown h = record { logs = h.state.logs; status = h.state.status }

shown-deliver_all_closed :
    (es : List StreamEvent) (h : Hook) (p : Payload)
    → h.source ≡ none
    → shown h ≡ p
    → shown (deliver_all es h) ≡ p
shown-deliver_all_closed es h p c e = rw (deliver_all-closed es h c) e

module _ (url : String) (h : Hook) (o : h.source ≡ some url) where
  deliver-log : (p : Payload) → (deliver (log (some p)) h).source ≡ some url
  unfolding deliver
  deliver-log p = ground arith

  shown-log : (p : Payload) → shown (deliver (log (some p)) h) ≡ p
  unfolding deliver
  shown-log p = ground arith

  deliver-log_malformed : deliver (log none) h ≡ h
  unfolding deliver
  deliver-log_malformed = ground arith

  shown-done : (p : Payload) → shown (deliver (done (some p)) h) ≡ p
  unfolding deliver
  shown-done p = ground arith

  shown-done_malformed : shown (deliver (done none) h) ≡ shown h
  unfolding deliver
  shown-done_malformed = ground arith

  shown-error : (closed : Bool) → shown (deliver (error closed) h) ≡ shown h
  unfolding deliver
  shown-error closed = ground arith

  deliver-done : (p : Option Payload) → (deliver (done p) h).source ≡ none
  unfolding deliver
  deliver-done p = ground arith

  deliver-error : (closed : Bool) → (deliver (error closed) h).source ≡ none
  unfolding deliver
  deliver-error closed = ground arith

-- Over any events on an open source, the logs and the status shown are those of the last well-formed
-- payload that arrived before the stream ended, or the old ones if none did: malformed events,
-- errors and anything after the end change neither.
pub shown-deliver_all :
    (url : String) (es : List StreamEvent) (h : Hook)
    → h.source ≡ some url
    → shown (deliver_all es h) ≡ last_or (shown h) (received es)
unfolding deliver_all
shown-deliver_all url [] h o = refl
shown-deliver_all url (log none ∷ es) h o =
    ap (λ g. shown (deliver_all es g)) (deliver-log_malformed url h o)
    ∙ shown-deliver_all url es h o
shown-deliver_all url (log (some p) ∷ es) h o =
    shown-deliver_all url es (deliver (log (some p)) h) (deliver-log url h o p)
    ∙ ap (λ q. last_or q (received es)) (shown-log url h o p)
shown-deliver_all url (done none ∷ es) h o =
    shown-deliver_all_closed es _ _ (deliver-done url h o none) (shown-done_malformed url h o)
shown-deliver_all url (done (some p) ∷ es) h o =
    shown-deliver_all_closed es _ _ (deliver-done url h o (some p)) (shown-done url h o p)
shown-deliver_all url (error closed ∷ es) h o =
    shown-deliver_all_closed es _ _ (deliver-error url h o closed) (shown-error url h o closed)
