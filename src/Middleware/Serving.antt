-- ===== src/Middleware/Serving.antt =====
-- What a request is answered through the three middlewares, and what is counted of it.
use mathlib.Core.Path.{subst}
use chain_watch.Prelude.{
  String, ◌≡◌, refl, Bool, insert, string_eq, true, false, none, some, [], ℤ, pos, All,
  if◌then◌else◌,
}
use chain_watch.Api.{ErrorReply}
use chain_watch.Observability.{Call, observe_http_request}
use chain_watch.Middleware.{
  Head, Response, fresh_response, set_header, http_call, http_calls, final_status, StatusRecorder,
  mark_status, recorder_calls, HandlerRun, internal_error, write_api_error, write_json,
  recorder_call, recorder_write, recorder_write_header, recovery_middleware,
  observability_middleware, request_id_middleware,
}
use chain_watch.Middleware.Recording.{
  IsFinal, idle, Faithful, not_started, has_started, recorder_calls-http_calls,
}

module _ (error_body : ErrorReply → String → String) (request_id : String) (duration : ℤ) where
  -- The answer to a run of the handler, by what the handler alone sends.
  pub data Served (panics : Bool) (alone : Response) (answer : Response × Call) : Type 0 where
    served_whole :
        panics ≡ false
        → answer.0 ≡ alone
        → answer.1 ≡ observe_http_request (pos (final_status alone)) duration
        → Served panics alone answer
    served_error :
        panics ≡ true
        → alone.head ≡ none
        → answer.0 ≡ http_calls (write_api_error error_body request_id internal_error) alone
        → final_status answer.0 ≡ 500
        → answer.1 ≡ observe_http_request (pos 500) duration
        → Served panics alone answer
    served_partly :
        (head : Head)
        → panics ≡ true
        → alone.head ≡ some head
        → answer.0 ≡ alone
        → answer.1 ≡ observe_http_request (pos 500) duration
        → Served panics alone answer

  abbrev observed : StatusRecorder → Response × Call
  observed r = (r.response_writer, observe_http_request (pos r.status) duration)

  recovered-Served :
      (panics : Bool) (r : StatusRecorder)
      → Faithful r
      → Served panics r.response_writer (
          observed (
            if panics
            then if r.wrote_response
              then mark_status 500 r
              else recorder_calls
                  (write_api_error error_body request_id internal_error)
                  (mark_status 500 r)
            else r))
  unfolding mark_status recorder_calls recorder_call recorder_write recorder_write_header http_calls
      http_call write_api_error write_json final_status
  recovered-Served false _ (not_started header body) = served_whole refl refl refl
  recovered-Served false _ (has_started header body head) = served_whole refl refl refl
  recovered-Served true _ (not_started header body) = served_error refl refl refl refl refl
  recovered-Served true _ (has_started header body head) = served_partly head refl refl refl refl

  -- A handler that sends no status 1xx is answered through the middlewares as it would be alone, behind
  -- the header of the request id, and its request is counted once, with the status that the client
  -- sees. If it panics before it has sent anything the client gets one 500 with the code
  -- internal_error; if it panics later, what was sent stays as it is; either way 500 is counted.
  pub request_id_middleware-Served :
      (run : HandlerRun)
      → All IsFinal run.calls
      → Served run.panics
          (http_calls run.calls (http_call (set_header "X-Request-ID" request_id) fresh_response))
          (request_id_middleware error_body request_id duration run fresh_response)
  unfolding request_id_middleware observability_middleware recovery_middleware http_call
  request_id_middleware-Served run final =
      let (same, faithful) =
        recorder_calls-http_calls run.calls (idle (insert "X-Request-ID" request_id []) []) final
          (not_started (insert "X-Request-ID" request_id []) []) in
      subst
        (λ alone.
          Served run.panics alone
            (request_id_middleware error_body request_id duration run fresh_response))
        same
        (recovered-Served run.panics
          (recorder_calls run.calls (idle (insert "X-Request-ID" request_id []) [])) faithful)
