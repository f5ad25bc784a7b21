-- ===== src/LogStream.antt =====
-- web/src/hooks/useLogStream.ts: the hook that follows an SSE log stream. The state is the hook's
-- `useState` value and whether `esRef` holds an open `EventSource`, with its URL. A source that is
-- closed delivers no event.
pub mod Laws
pub mod Received
use Prim.Native.Char.{code}
use Prim.Native.String.{[] as ε, ◌∷◌ as ◌▸◌}
use tbd_dev.Prelude.{
  String, Bool, true, false, Option, none, some, List, [], ◌∷◌, ◌⧺◌, ◌||◌, eqb, if◌then◌else◌,
  truthy, truthy_text,
}

pub record LogStreamState : Type 0 where
  pub logs : Option String
  pub status : Option String
  pub is_streaming : Bool
  pub error : Option String

pub record Hook : Type 0 where
  pub state : LogStreamState
  -- `esRef.current`: the URL of the open source
  pub source : Option String

-- A payload that `JSON.parse` accepted: its two fields, which the server may leave null.
pub record Payload : Type 0 where
  pub logs : Option String
  pub status : Option String

-- `none` is an event whose data is malformed; `lost` says whether the source was closed already.
pub data StreamEvent : Type 0 where
  log : Option Payload → StreamEvent
  done : Option Payload → StreamEvent
  error : Bool → StreamEvent

abbrev pub idle : LogStreamState
idle = record { logs = none; status = none; is_streaming = false; error = none }

unfoldable pub close : Hook → Hook
close h = record h { source = none }

-- `url.includes("?")`
unfoldable pub has_query : String → Bool
has_query ε = false
has_query (c ▸ s) = eqb (code c) b'?' || has_query s

unfoldable pub source_url : String → Option String → String
unfolding has_query
source_url stream_url none = stream_url
source_url stream_url (some token) =
    if truthy_text token
    then stream_url ⧺ (if has_query stream_url then "&" else "?") ⧺ "token=" ⧺ token
    else stream_url

-- The effect, after the cleanup of its last run.
unfoldable pub connect : Option String → Option String → Hook → Hook
unfolding close source_url
connect none token h = record { state = idle; source = none }
connect (some stream_url) token h =
    if truthy_text stream_url
    then record {
      state = record h.state { is_streaming = true; error = none };
      source = some (source_url stream_url token);
    }
    else record { state = idle; source = none }

unfoldable pub handle_log : Option Payload → Hook → Hook
handle_log none h = h
handle_log (some p) h = record h {
  state = record { logs = p.logs; status = p.status; is_streaming = true; error = none };
}

unfoldable pub handle_done : Option Payload → Hook → Hook
unfolding close
handle_done none h = close h
handle_done (some p) h = close (record h {
  state = record { logs = p.logs; status = p.status; is_streaming = false; error = none };
})

abbrev pub connection_lost : String
connection_lost = "Log stream connection lost"

unfoldable pub handle_error : Bool → Hook → Hook
unfolding close
handle_error closed h = close (record h {
  state =
      if closed
      then record h.state { is_streaming = false }
      else record h.state { is_streaming = false; error = some connection_lost };
})

handle : StreamEvent → Hook → Hook
unfolding handle_log handle_done handle_error
handle (log p) h = handle_log p h
handle (done p) h = handle_done p h
handle (error closed) h = handle_error closed h

-- An event reaches its handler only while the source is open.
unfoldable pub deliver : StreamEvent → Hook → Hook
unfolding handle
deliver e h = elim h.source [ none ↦ h | some url ↦ handle e h ]

unfoldable pub deliver_all : List StreamEvent → Hook → Hook
unfolding deliver
deliver_all [] h = h
deliver_all (e ∷ es) h = deliver_all es (deliver e h)
