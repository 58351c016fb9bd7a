-- ===== src/Http/Writer.antt =====
-- `http.ResponseWriter` as net/http documents it, and `responseWriter` of
-- internal/http/middlewares.go, which captures the status.
use perion_assignment.Common.{ℕ, Option, none, some, List, [], ◌∷◌, ◌++◌}
use perion_assignment.Text.{Text, codes}
use perion_assignment.Dict.{Dict, put}
use perion_assignment.Models.Errors.{GoError}
use perion_assignment.Http.{Body, Response}

-- The status line and the headers that went out.
pub record Sent : Type 0 where
  pub status : ℕ
  pub headers : Dict Text

-- What is written behind them: a value that is encoded, or a text of the source.
pub data Chunk : Type 0 where
  encoded_body : Body → Chunk
  literal : Text → Chunk

-- The writer of net/http: `Header()` is a map, which is sent once.
pub record Writer : Type 0 where
  pub headers : Dict Text
  pub sent : Option Sent
  pub body : List Chunk

abbrev pub new_writer : Writer
new_writer = record { headers = []; sent = none; body = [] }

-- `responseWriter`: `Header` and `Write` are those of the writer inside.
pub record ResponseWriter : Type 0 where
  pub writer : Writer
  pub status_code : ℕ

-- `w.Header().Set`.
unfoldable pub set_header : Text → Text → ResponseWriter → ResponseWriter
set_header key value w = record w {
  writer = record w.writer { headers = put key value w.writer.headers };
}

abbrev pub first_sent : ℕ → Dict Text → Option Sent → Sent
first_sent code headers none = record { status = code; headers = headers }
first_sent code headers (some s) = s

-- `WriteHeader` of net/http, for a status of at least 200: a second call does nothing.
unfoldable pub send_header : ℕ → Writer → Writer
send_header code w = record w { sent = some (first_sent code w.headers w.sent) }

-- `responseWriter.WriteHeader`.
unfoldable pub write_header : ℕ → ResponseWriter → ResponseWriter
write_header code w = record { writer = send_header code w.writer; status_code = code }

-- `Write`, which sends the status 200 if none is sent.
unfoldable pub write : Chunk → ResponseWriter → ResponseWriter
unfolding send_header
write chunk w =
    let out = send_header 200 w.writer in
    record w { writer = record out { body = out.body ++ chunk ∷ [] } }

-- `json.NewEncoder(w).Encode`, which writes nothing if it cannot encode the value.
abbrev pub write_encoded : Option GoError → Body → ResponseWriter → ResponseWriter
write_encoded none body w = write (encoded_body body) w
write_encoded (some e) body w = w

-- What a handler's response is to its writer: the calls of `writeJSONResponse`.
unfoldable pub respond : (Body → Option GoError) → Response → ResponseWriter → ResponseWriter
unfolding write
respond encode response w = write_encoded (encode response.body) response.body (
    write_header response.status (
      set_header (codes "X-Request-ID") response.request_id
        (set_header (codes "Content-Type") response.content_type w)))
