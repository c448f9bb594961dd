-- ===== src/Tests/Middleware.antt =====
-- Requests through the middlewares.
use chain_watch.Prelude.{
  String, refl, true, [], ◌∷◌, pos, ℕ, ◌≡◌, false, Bool, some, Option, insert,
}
use chain_watch.Api.{ErrorReply}
use chain_watch.Server.{Reply, healthy}
use chain_watch.Middleware.{
  fresh_response, set_header, write_header, write_body, http_call, http_calls, final_status,
  HandlerRun, handler, health_run, transfers_run, write_json, write_api_error,
  write_method_not_allowed, recorder_call, recorder_calls, recorder_write, recorder_write_header,
  recovery_middleware, observability_middleware, request_id_middleware,
}
use chain_watch.Middleware.Serving.{Served, request_id_middleware-Served}

abbrev error_text : ErrorReply → String → String
error_text e request_id = e.code

-- A handler that panics behind its status.
abbrev late_panic : HandlerRun
late_panic = record { calls = write_header 200 ∷ write_body "{" ∷ []; panics = true }

request_id_middleware-Served_example :
    Served error_text "id"
      (pos 7)
      true
      (http_calls late_panic.calls (http_call (set_header "X-Request-ID" "id") fresh_response))
      (request_id_middleware error_text "id" (pos 7) late_panic fresh_response)
request_id_middleware-Served_example =
    request_id_middleware-Served error_text "id" (pos 7) late_panic (refl, (tt, tt))

abbrev body_text : Reply → Option String
body_text reply = some "{}"

-- A path of the mux, and the status that its answer has.
abbrev answered_status : Bool → String → ℕ
answered_status is_get path =
    final_status
      (request_id_middleware error_text "id" (pos 7)
        (handler error_text "id" body_text is_get path healthy "" late_panic) fresh_response).0

health_is_fine : answered_status true "/health" ≡ 200
unfolding final_status request_id_middleware observability_middleware recovery_middleware
    recorder_calls recorder_call recorder_write recorder_write_header handler health_run write_json
    http_call insert
health_is_fine = refl

only_get_is_allowed : answered_status false "/transfers" ≡ 405
unfolding final_status request_id_middleware observability_middleware recovery_middleware
    recorder_calls recorder_call recorder_write recorder_write_header handler transfers_run
    write_json write_method_not_allowed write_api_error http_call insert
only_get_is_allowed = refl
