-- ===== src/Middlewares/Laws.antt =====
-- What the middlewares do around an application that sends messages and then returns or raises.
use fastapi_claude_template.Prelude.{
  ℕ, suc, ◌-◌, ◌≤◌, ◌<◌, ◌↔◌, nat_beq, String, ◌≡◌, refl, true, ◌||◌, List, [], ◌∷◌, ◌++◌, map,
  ◌==◌, insert, if◌then◌else◌, Bool-cases, inl, inr, arith, some,
}
use fastapi_claude_template.Exec.{Result, ok, err, Exec, continue, ◌>>◌}
use fastapi_claude_template.Exec.Laws.{run-cases}
use fastapi_claude_template.Middlewares.{
  Entry, error, info, level_of, headers_or_nil, Message, Scope, Http, Send, App, is_start, tag,
  with_request_id, or_empty, request_id_middleware, send_wrapper, final_status, log_entry,
  write_log, access_log_middleware,
}

-- An application that sends `ms`, as far as `send` returns, and ends in `r`
abbrev pub play : {S : Type 0} → List Message → Result (Unit {0}) → App S
play [] r scope receive send h = (r, h)
play (m ∷ ms) r scope receive send h = (send m >> play ms r scope receive send) h

-- The messages with the id as one more header, behind the others, on each start of a response
abbrev pub stamped : String → List Message → List Message
stamped request_id [] = []
stamped request_id (m ∷ ms) =
    let rest = stamped request_id ms in
    if m.type_ == "http.response.start"
    then record {
      type_ = m.type_;
      status = m.status;
      headers = some (headers_or_nil m.headers ++ (("x-request-id", request_id) ∷ []));
    }
      ∷ rest
    else m ∷ rest

map-tag :
    (request_id : String) (ms : List Message) → map (tag request_id) ms ≡ stamped request_id ms
unfolding tag
map-tag request_id [] = refl
map-tag request_id (m ∷ ms) = elim (Bool-cases (is_start m)) [
  | inl e ↦ rw (e, map-tag request_id ms) refl
  | inr e ↦ rw (e, map-tag request_id ms) refl
]

module _ {S : Type 0} where
  play-tag :
      (request_id : String) (ms : List Message) (r : Result (Unit {0})) (scope scope' : Scope)
      (receive : Exec (Http S) Message) (send : Send S) (h : Http S)
      → play ms r scope receive (λ m. send (tag request_id m)) h
        ≡ play (map (tag request_id) ms) r scope' receive send h
  play-tag request_id [] r scope scope' receive send h = refl
  play-tag request_id (m ∷ ms) r scope scope' receive send h =
      elim (run-cases (send (tag request_id m) h)) [
        | inl (u, t, e) ↦ rw e (play-tag request_id ms r scope scope' receive send t)
        | inr (f, t, e) ↦ rw e refl
      ]

  -- The state in which the application starts: a fresh id is drawn and bound.
  abbrev pub bound : Scope → Http S → Http S
  bound scope h = record h {
    draws = suc h.draws;
    context =
        insert "path" (or_empty scope.path)
          (insert "method" (or_empty scope.method) (insert "request_id" (h.entropy h.draws) []));
  }

  -- On an HTTP or websocket connection, the messages leave with the fresh id as the last header of
  -- each start of a response,
  -- what the application returns or raises is passed on, and no variable stays bound.
  pub request_id_middleware-play :
      (ms : List Message) (r : Result (Unit {0})) (scope : Scope) (receive : Exec (Http S) Message)
      (send : Send S) (h : Http S)
      → (scope.type_ == "http" || scope.type_ == "websocket") ≡ true
      → request_id_middleware (play ms r) scope receive send h ≡ (
        (play (stamped (h.entropy h.draws) ms) r scope receive send (bound scope h)).0,
        record (play (stamped (h.entropy h.draws) ms) r scope receive send (bound scope h)).1 {
          context = [];
        },
      )
  unfolding request_id_middleware
  request_id_middleware-play ms r scope receive send h traced =
      let id = h.entropy h.draws in
      rw
        (
          traced,
          play-tag id ms r (with_request_id id scope) scope receive send (bound scope h),
          map-tag id ms,
        )
        refl

level_of-error : (status : ℕ) → (level_of status ≡ error) ↔ (500 ≤ status)
unfolding level_of
level_of-error status = (λ p. ground arith, λ q. ground arith)

level_of-info : (status : ℕ) → (level_of status ≡ info) ↔ (status < 400)
unfolding level_of
level_of-info status = (λ p. ground arith, λ q. ground arith)

module _ {S : Type 0} (deliver : Message → Exec S (Unit {0})) where
  abbrev pub to_server : Send S
  to_server m h = ((deliver m h.inner).0, record h { inner = (deliver m h.inner).1 })

  -- The application on the server alone
  abbrev pub outcome : List Message → Result (Unit {0}) → S → Result (Unit {0}) × S
  outcome [] r s = (r, s)
  outcome (m ∷ ms) r s = continue (λ _. outcome ms r) (deliver m s)

  -- What is known of the rest after a delivery that returned, and `d` after one that raised
  abbrev pub settle : (S → ℕ) → ℕ → Result (Unit {0}) × S → ℕ
  settle f d (ok u, s) = f s
  settle f d (err e, s) = d

  -- The status of the last start of a response that was handed to the server
  abbrev pub last_status : List Message → ℕ → S → ℕ
  last_status [] status s = status
  last_status (m ∷ ms) status s =
      let status' = if is_start m then m.status else status in
      settle (last_status ms status') status' (deliver m s)

  play-wrapped :
      (ms : List Message) (r : Result (Unit {0})) (scope : Scope) (receive : Exec (Http S) Message)
      (h : Http S)
      → play ms r scope receive (send_wrapper to_server) h ≡ (
        (outcome ms r h.inner).0,
        record h {
          inner = (outcome ms r h.inner).1;
          status_code = last_status ms h.status_code h.inner;
        },
      )
  unfolding send_wrapper
  play-wrapped [] r scope receive h = refl
  play-wrapped (m ∷ ms) r scope receive h = elim (Bool-cases (is_start m)) [
    | inl s ↦ elim (run-cases (deliver m h.inner)) [
      | inl (u, t, e) ↦
          rw (s, e)
            (play-wrapped ms r scope receive (record h { inner = t; status_code = m.status }))
      | inr (f, t, e) ↦ rw (s, e) refl
    ]
    | inr s ↦ elim (run-cases (deliver m h.inner)) [
      | inl (u, t, e) ↦ rw (s, e) (play-wrapped ms r scope receive (record h { inner = t }))
      | inr (f, t, e) ↦ rw (s, e) refl
    ]
  ]

  -- On an HTTP connection the log has one more entry, with the status of the last response that was
  -- started, or 500 when none was or that status is 0, and the time between two readings of the clock, as an error from 500 on and for
  -- information below 400; the application's outcome is passed on.
  pub access_log_middleware-play :
      (ms : List Message) (r : Result (Unit {0})) (scope : Scope) (receive : Exec (Http S) Message)
      (h : Http S)
      → (scope.type_ == "http") ≡ true
      → ((access_log_middleware (play ms r) scope receive to_server h).0 ≡ (outcome ms r h.inner).0)
        × ((access_log_middleware (play ms r) scope receive to_server h).1.inner
            ≡ (outcome ms r h.inner).1)
        × (entry : Entry) × ((access_log_middleware (play ms r) scope receive to_server h).1.logs
            ≡ h.logs ++ (entry ∷ []))
        × (entry.status
            ≡ (if nat_beq (last_status ms 0 h.inner) 0 then 500 else last_status ms 0 h.inner))
        × (entry.duration ≡ h.times (suc h.reads) - h.times h.reads)
        × ((entry.level ≡ error) ↔ (500 ≤ entry.status))
        × ((entry.level ≡ info) ↔ (entry.status < 400))
  unfolding access_log_middleware write_log log_entry
  access_log_middleware-play ms r scope receive h http =
      let started = record h { reads = suc h.reads; status_code = 0 } in
      let status = final_status (last_status ms 0 h.inner) in
      rw (http, play-wrapped ms r scope receive started)
        (
          refl,
          refl,
          log_entry scope status (h.times (suc h.reads) - h.times h.reads),
          refl,
          refl,
          refl,
          level_of-error status,
          level_of-info status,
        )
