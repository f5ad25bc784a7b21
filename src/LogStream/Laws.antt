-- ===== src/LogStream/Laws.antt =====
-- When the hook says that it is streaming.
use tbd_dev.Prelude.{
  String, true, Option, none, some, List, [], ◌∷◌, ◌≡◌, ◌≢◌, refl, arith, is_some, ap, ◌∙◌,
}
use tbd_dev.LogStream.{Hook, StreamEvent, log, done, error, connect, deliver, deliver_all}

-- The contract of `isStreaming`: true exactly while the source is open.
abbrev pub IsHonest : Hook → Type 0
IsHonest h = h.state.is_streaming ≡ is_some h.source

-- A change of the URL or of the token, or an event of the stream.
pub data Step : Hook → Hook → Type 0 where
  reconnect : (url token : Option String) (h : Hook) → Step h (connect url token h)
  event : (e : StreamEvent) (h : Hook) → e ≢ done none → Step h (deliver e h)

pub data Reach (h : Hook) : Hook → Type 0 where
  here : Reach h h
  next : {g k : Hook} → Reach h g → Step g k → Reach h k

connect-IsHonest : (url token : Option String) (h : Hook) → IsHonest (connect url token h)
unfolding connect
connect-IsHonest none token h = refl
connect-IsHonest (some url) token h = ground arith

deliver-IsHonest :
    (e : StreamEvent) (h : Hook) → e ≢ done none → IsHonest h → IsHonest (deliver e h)
unfolding deliver
deliver-IsHonest (log p) h n k = ground arith
deliver-IsHonest (done none) h n k = absurd (n refl)
deliver-IsHonest (done (some p)) h n k = ground arith
deliver-IsHonest (error closed) h n k = ground arith

Step-IsHonest : {h k : Hook} → Step h k → IsHonest h → IsHonest k
Step-IsHonest (reconnect url token h) i = connect-IsHonest url token h
Step-IsHonest (event e h n) i = deliver-IsHonest e h n i

-- Through any changes of the URL and token and any events but a malformed `done`, the hook says
-- that it is streaming exactly while its source is open, if it did at first.
pub Reach-IsHonest : {h k : Hook} → Reach h k → IsHonest h → IsHonest k
Reach-IsHonest here i = i
Reach-IsHonest (next r st) i = Step-IsHonest st (Reach-IsHonest r i)

deliver_closed : (e : StreamEvent) (h : Hook) → h.source ≡ none → deliver e h ≡ h
unfolding deliver
deliver_closed e h c = ground arith

-- A source that is closed delivers nothing more.
pub deliver_all-closed : (es : List StreamEvent) (h : Hook) → h.source ≡ none → deliver_all es h ≡ h
unfolding deliver_all
deliver_all-closed [] h c = refl
deliver_all-closed (e ∷ es) h c = rw (deliver_closed e h c) (deliver_all-closed es h c)

deliver_done_malformed :
    (url : String) (h : Hook)
    → h.source ≡ some url
    → deliver (done none) h ≡ record h { source = none }
unfolding deliver
deliver_done_malformed url h e = ground arith

-- A malformed `done` on an open stream closes the source and leaves `isStreaming` true, and no
-- event after it changes anything, so the hook goes on saying that it is streaming.
pub malformed_done :
    (url : String) (h : Hook) (es : List StreamEvent)
    → h.source ≡ some url
    → IsHonest h
    → (deliver_all (done none ∷ es) h ≡ record h { source = none })
      × ((deliver_all (done none ∷ es) h).state.is_streaming ≡ true)
malformed_done url h es e i = (settled, rw settled (i ∙ ap is_some e))
  where
    one : deliver (done none) h ≡ record h { source = none }
    one = deliver_done_malformed url h e

    settled : deliver_all (done none ∷ es) h ≡ record h { source = none }
    settled = unfold deliver_all in rw one (deliver_all-closed es (record h { source = none }) refl)
