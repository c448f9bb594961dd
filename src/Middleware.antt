-- ===== src/Middleware.antt =====
-- internal/api/http_observability.go, and the writing and routing of internal/api/http_server.go. A handler
-- is what it does to its ResponseWriter: a sequence of calls, at whose end it returns or panics.
pub mod Recording
pub mod Serving
use chain_watch.Prelude.{
  ℕ, ◌+◌, String, Bool, true, false, ◌&&◌, not, Option, none, some, List, [], ◌∷◌, ◌++◌, ◌==◌,
  string_eq, nat_eq, leb, ℤ, pos, insert, if◌then◌else◌,
}
use chain_watch.Domain.{u64}
use chain_watch.Api.{ErrorReply}
use chain_watch.Observability.{Call, observe_http_request}
use chain_watch.Server.{Reply, healthy, page_reply, failure}

-- net/http: the status and the header as they were sent, behind the header that may still change.
pub record Head : Type 0 where
  pub status : ℕ
  pub header : List (String × String)

pub record Response : Type 0 where
  pub header : List (String × String)
  pub head : Option Head
  pub body : List String

abbrev pub fresh_response : Response
fresh_response = record { header = []; head = none; body = [] }

pub data WriterCall : Type 0 where
  set_header : String → String → WriterCall
  write_header : ℕ → WriterCall
  write_body : String → WriterCall

-- Statuses 1xx are sent at once and do not start the response; 101 does.
abbrev pub is_informational : ℕ → Bool
is_informational status = leb 100 status && leb status 199 && not (status == 101)

abbrev pub send_head : ℕ → Response → Option Head → Response
send_head status r none = record r { head = some (record { status = status; header = r.header }) }
send_head status r (some sent) = r

unfoldable pub http_call : WriterCall → Response → Response
http_call (set_header key value) r = record r { header = insert key value r.header }
http_call (write_header status) r = if is_informational status then r else send_head status r r.head
http_call (write_body text) r =
    let started = send_head 200 r r.head in record started { body = started.body ++ text ∷ [] }

unfoldable pub http_calls : List WriterCall → Response → Response
http_calls [] r = r
http_calls (c ∷ cs) r = http_calls cs (http_call c r)

-- What the client sees: a handler that sends no status is answered with 200.
abbrev pub status_sent : Option Head → ℕ
status_sent none = 200
status_sent (some head) = head.status

unfoldable pub final_status : Response → ℕ
final_status r = status_sent r.head

-- `statusRecorder`, in front of the ResponseWriter. `Unwrap` hands out the writer inside, which no
-- handler asks for.
pub record StatusRecorder : Type 0 where
  pub response_writer : Response
  pub status : ℕ
  pub wrote_response : Bool

unfoldable pub recorder_write_header : ℕ → StatusRecorder → StatusRecorder
recorder_write_header status r = if r.wrote_response then r else record {
  response_writer = http_call (write_header status) r.response_writer;
  status = status;
  wrote_response = true;
}

unfoldable pub recorder_write : String → StatusRecorder → StatusRecorder
recorder_write text r =
    let started = if r.wrote_response then r else recorder_write_header 200 r in
    record started { response_writer = http_call (write_body text) started.response_writer }

unfoldable pub mark_status : ℕ → StatusRecorder → StatusRecorder
mark_status status r = record r { status = status }

-- `Header` is the method of the writer inside.
unfoldable pub recorder_call : WriterCall → StatusRecorder → StatusRecorder
recorder_call (set_header key value) r = record r {
  response_writer = http_call (set_header key value) r.response_writer;
}
recorder_call (write_header status) r = recorder_write_header status r
recorder_call (write_body text) r = recorder_write text r

unfoldable pub recorder_calls : List WriterCall → StatusRecorder → StatusRecorder
recorder_calls [] r = r
recorder_calls (c ∷ cs) r = recorder_calls cs (recorder_call c r)

-- A handler's calls, and whether a panic ends them.
pub record HandlerRun : Type 0 where
  pub calls : List WriterCall
  pub panics : Bool

-- `writeJSON`: nothing is written where `json.Marshal` fails.
unfoldable pub write_json : ℕ → Option String → List WriterCall
write_json status none = []
write_json status (some body) =
    set_header "Content-Type" "application/json; charset=utf-8"
    ∷ write_header status
    ∷ write_body body
    ∷ []

abbrev pub internal_error : ErrorReply
internal_error = record { status = 500; code = "internal_error"; message = "internal server error" }

-- `error_body` is the text of an error with a request id; `json.Marshal` of texts does not fail.
module _ (error_body : ErrorReply → String → String) (request_id : String) where
  unfoldable pub write_api_error : ErrorReply → List WriterCall
  write_api_error e = write_json e.status (some (error_body e request_id))

  unfoldable pub write_method_not_allowed : List WriterCall
  write_method_not_allowed =
      set_header "Allow" "GET"
      ∷ write_api_error
          (record { status = 405; code = "method_not_allowed"; message = "method not allowed" })

  -- `recoveryMiddleware`: the deferred function behind the handler.
  unfoldable pub recovery_middleware : HandlerRun → StatusRecorder → StatusRecorder
  recovery_middleware run r =
      let served = recorder_calls run.calls r in
      if run.panics
      then if served.wrote_response
        then mark_status 500 served
        else recorder_calls (write_api_error internal_error) (mark_status 500 served)
      else served

  -- `observabilityMiddleware`: what is sent, and the call of the metrics.
  unfoldable pub observability_middleware : ℤ → HandlerRun → Response → Response × Call
  observability_middleware duration run w =
      let recorder =
        recovery_middleware run
          (record { response_writer = w; status = 200; wrote_response = false }) in
      (recorder.response_writer, observe_http_request (pos recorder.status) duration)

  -- `requestIDMiddleware`, and the chain of the three.
  unfoldable pub request_id_middleware : ℤ → HandlerRun → Response → Response × Call
  request_id_middleware duration run w =
      observability_middleware duration run (http_call (set_header "X-Request-ID" request_id) w)

  -- The handlers, each by its reply. `body` is what `json.Marshal` makes of a value.
  module _ (body : Reply → Option String) where
    abbrev pub write_reply : Reply → List WriterCall
    write_reply healthy = write_json 200 (body healthy)
    write_reply (page_reply page) = write_json 200 (body (page_reply page))
    write_reply (failure e) = write_api_error e

    abbrev pub run_of : List WriterCall → HandlerRun
    run_of calls = record { calls = calls; panics = false }

    unfoldable pub health_run : Bool → HandlerRun
    health_run is_get = run_of (if is_get then write_reply healthy else write_method_not_allowed)

    unfoldable pub metrics_run : Bool → String → HandlerRun
    metrics_run is_get exposition = run_of (
        if is_get
        then set_header "Content-Type" "text/plain; version=0.0.4; charset=utf-8"
          ∷ write_body exposition
          ∷ []
        else write_method_not_allowed)

    unfoldable pub transfers_run : Bool → Reply → HandlerRun
    transfers_run is_get reply =
        run_of (if is_get then write_reply reply else write_method_not_allowed)

    -- `Handler`: the paths of the mux, which answers any other path itself.
    unfoldable pub handler : Bool → String → Reply → String → HandlerRun → HandlerRun
    handler is_get path reply exposition elsewhere =
        if path == "/health"
        then health_run is_get
        else if path == "/transfers"
        then transfers_run is_get reply
        else if path == "/metrics"
        then metrics_run is_get exposition
        else elsewhere

-- `newRequestID`: 16 random bytes, or the time and a counter where there are none.
unfoldable pub new_request_id :
    (List ℕ → String) → (ℕ → ℕ → String) → Option (List ℕ) → ℕ → ℕ → String × ℕ
new_request_id encode_to_string format (some value) now counter = (encode_to_string value, counter)
new_request_id encode_to_string format none now counter =
    (format (u64 now) (u64 (counter + 1)), u64 (counter + 1))
