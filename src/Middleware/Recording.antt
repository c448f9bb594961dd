-- ===== src/Middleware/Recording.antt =====
-- The recorder in front of a ResponseWriter: it changes nothing and knows the status.
use chain_watch.Prelude.{String, ◌≡◌, ◌∙◌, refl, ap, true, false, none, some, List, [], ◌∷◌, All}
use chain_watch.Middleware.{
  Head, Response, WriterCall, set_header, write_header, write_body, is_informational, http_call,
  http_calls, StatusRecorder, recorder_write_header, recorder_write, recorder_call, recorder_calls,
}

-- A call that sends no status 1xx.
abbrev pub IsFinal : WriterCall → Type 0
IsFinal (set_header key value) = Unit
IsFinal (write_header status) = is_informational status ≡ false
IsFinal (write_body text) = Unit

-- A recorder before and after the status is sent.
abbrev pub idle : List (String × String) → List String → StatusRecorder
idle header body = record {
  response_writer = record { header = header; head = none; body = body };
  status = 200;
  wrote_response = false;
}

abbrev pub busy : List (String × String) → List String → Head → StatusRecorder
busy header body head = record {
  response_writer = record { header = header; head = some head; body = body };
  status = head.status;
  wrote_response = true;
}

-- What the recorder knows of the writer inside.
pub data Faithful : StatusRecorder → Type 0 where
  not_started : (header : List (String × String)) (body : List String) → Faithful (idle header body)
  has_started :
      (header : List (String × String)) (body : List String) (head : Head)
      → Faithful (busy header body head)

-- A call through the recorder, beside the same call of the writer inside.
record Same (r : StatusRecorder) (w : Response) : Type 0 where
  same_response : r.response_writer ≡ w
  stays_faithful : Faithful r

recorder_call-Same :
    (c : WriterCall) (r : StatusRecorder)
    → IsFinal c
    → Faithful r
    → Same (recorder_call c r) (http_call c r.response_writer)
unfolding recorder_call recorder_write_header recorder_write http_call
recorder_call-Same (set_header key value) _ _ (not_started header body) = record {
  same_response = refl;
  stays_faithful = not_started _ body;
}
recorder_call-Same (set_header key value) _ _ (has_started header body head) = record {
  same_response = refl;
  stays_faithful = has_started _ body head;
}
recorder_call-Same (write_header status) _ final (not_started header body) =
    rw final (record { same_response = refl; stays_faithful = has_started header body _ })
recorder_call-Same (write_header status) _ final (has_started header body head) =
    rw final (record { same_response = refl; stays_faithful = has_started header body head })
recorder_call-Same (write_body text) _ _ (not_started header body) = record {
  same_response = refl;
  stays_faithful = has_started header _ _;
}
recorder_call-Same (write_body text) _ _ (has_started header body head) = record {
  same_response = refl;
  stays_faithful = has_started header _ head;
}

-- Any sequence of calls.
pub recorder_calls-http_calls :
    (cs : List WriterCall) (r : StatusRecorder)
    → All IsFinal cs
    → Faithful r
    → ((recorder_calls cs r).response_writer ≡ http_calls cs r.response_writer)
      × Faithful (recorder_calls cs r)
unfolding recorder_calls http_calls
recorder_calls-http_calls [] r _ faithful = (refl, faithful)
recorder_calls-http_calls (c ∷ cs) r (final, rest) faithful =
    let step = recorder_call-Same c r final faithful in
    let (same, after) = recorder_calls-http_calls cs (recorder_call c r) rest step.stays_faithful in
    (same ∙ ap (http_calls cs) step.same_response, after)
