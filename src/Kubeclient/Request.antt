-- ===== src/Kubeclient/Request.antt =====
-- api/client/kubeclient/request.go and async.go: the request for a subresource, and what comes of it.
use sandbox_mommy.Base.{
  ℕ, String, ◌<>◌, ◌&&◌, Option, none, some, List, [], ◌∷◌, ◌==◌, ◌!=◌, if◌then◌else◌, string_eq,
}
use sandbox_mommy.Base.Int.{eqb}
use sandbox_mommy.Exec.{Error, message, wrapped, Result, ok, err}

pub record Url : Type 0 where
  pub scheme : String
  pub host : String
  pub path : String
  pub raw_query : String

abbrev pub Values : Type 0
Values = List (String × List String)

pub record Request : Type 0 where
  pub method : String
  pub url : Url

pub record Response : Type 0 where
  pub status_code : ℕ
  pub status : String
  pub content_type : String
  pub body : Result String

-- `metav1.Status`, as far as the code reads it.
pub record Status : Type 0 where
  pub kind : String
  pub api_version : String
  pub status : String
  pub reason : String

-- What a dialer answers: a connection, or an error with the response where there was one. A
-- connection comes with the response that opened it.
pub data Dialed (C : Type 0) : Type 0 where
  dialed : C → Response → Dialed C
  refused : Option Response → Error → Dialed C

-- What the round trip comes to: the connection is handed to the one who waits for it, or the trip
-- returns a response and an error.
pub data Trip (C : Type 0) : Type 0 where
  handed : C → Trip C
  returned : Option Response → Option Error → Trip C

-- What the client uses of other packages, over a world `W`: the URL parser and the path functions,
-- JSON, the texts of errors and numbers, the dialer, and the wrapper that a configuration puts around a round
-- trip.
pub record Net (C W : Type 0) : Type 0 where
  pub parse : String → Result Url
  pub join_paths : String → String → String
  pub encode : Values → String
  pub unmarshal : String → Result Status
  pub from_object : Status → Error
  pub decimal : ℕ → String
  pub error_text : Error → String
  pub dial : Request → W → Dialed C × W
  pub tls_config : Option Error
  pub wrappers : (Request → W → Trip C × W) → Result (Request → W → Trip C × W)

-- `AsyncSubresourceError`, or any other error.
pub data AttachError : Type 0 where
  async_error : String → ℕ → AttachError
  plain : Error → AttachError

abbrev pub status_not_found : ℕ
status_not_found = 404

abbrev pub subresource_path : String → String → String → String → String
subresource_path namespace resource name subresource =
    "/apis/subresources.sandbox.io/v1alpha1/namespaces/" <> namespace <> "/" <> resource <> "/"
    <> name <> "/" <> subresource

-- The `switch u.Scheme`.
abbrev pub web_socket_scheme : String → Result String
web_socket_scheme scheme =
    if scheme == "https"
    then ok "wss"
    else if scheme == "http"
    then ok "ws"
    else err (message "unsupported Protocol %s" (scheme ∷ []))

abbrev pub status_code_of : Option Response → ℕ
status_code_of none = 0
status_code_of (some resp) = resp.status_code

module _ {C W : Type 0} (E : Net C W) where
  abbrev pub query_of : Values → String → String
  query_of [] raw = raw
  query_of (v ∷ vs) raw = E.encode (v ∷ vs)

  abbrev pub request_to : Url → String → Values → Result String → Result Request
  request_to u path query (err e) = err e
  request_to u path query (ok scheme) = ok (record {
    method = "GET";
    url = record {
      scheme = scheme;
      host = u.host;
      path = E.join_paths u.path path;
      raw_query = query_of query u.raw_query;
    };
  })

  abbrev pub parsed : String → Values → Result Url → Result Request
  parsed path query (err e) = err e
  parsed path query (ok u) = request_to u path query (web_socket_scheme u.scheme)

  abbrev pub make_request : String → String → String → String → String → Values → Result Request
  make_request host resource name namespace subresource query =
      parsed (subresource_path namespace resource name subresource) query (E.parse host)

  -- `enrichError`, from the read of the body on.
  abbrev pub status_error : Error → Result Status → Error
  status_error http_err (err e) = e
  status_error http_err (ok s) =
      if (s.kind == "Status" && s.api_version == "v1") && s.status != "Success"
      then E.from_object s
      else http_err

  abbrev pub body_error : Error → Result String → Error
  body_error http_err (err e) = e
  body_error http_err (ok body) =
      if body == "" then http_err else status_error http_err (E.unmarshal body)

  abbrev pub enrich_error : Error → Option Response → Error
  enrich_error e none = e
  enrich_error e (some resp) =
      let enriched =
        message "Can't connect to websocket (%d): %s\n"
          (E.decimal resp.status_code ∷ E.error_text e ∷ []) in
      if resp.content_type != "application/json" then enriched else body_error enriched resp.body

  -- `WebsocketCallback`, and `RoundTrip` of `WebsocketRoundTripper`, which calls it.
  abbrev pub web_socket_callback : Dialed C → Trip C
  web_socket_callback (dialed c resp) = handed c
  web_socket_callback (refused none e) =
      returned none (some (message "Can't connect to websocket: %s\n" (E.error_text e ∷ [])))
  web_socket_callback (refused (some resp) e) =
      if eqb resp.status_code 200
      then returned (some resp)
          (some (message "Can't connect to websocket: %s\n" (E.error_text e ∷ [])))
      else returned (some resp) (some (enrich_error e (some resp)))

  abbrev pub trip_of : Dialed C × W → Trip C × W
  trip_of (d, w) = (web_socket_callback d, w)

  abbrev pub round_trip : Request → W → Trip C × W
  round_trip req w = trip_of (E.dial req w)

  abbrev pub round_tripper_from_config : Result (Request → W → Trip C × W)
  round_tripper_from_config = elim E.tls_config [ some e ↦ err e | none ↦ E.wrappers round_trip ]

  -- The goroutine of `asyncSubresourceHelper`: the error that it sends for a trip that returned.
  abbrev pub response_error : Response → Option AttachError
  response_error resp =
      if eqb resp.status_code 200
      then none
      else if eqb resp.status_code 404
      then some (async_error "Sandbox not found." resp.status_code)
      else if eqb resp.status_code 500
      then some (async_error "Websocket failed due to internal server error." resp.status_code)
      else some
          (async_error ("Websocket failed with http status: " <> resp.status) resp.status_code)

  abbrev pub trip_error : Option Response → Option Error → Option AttachError
  trip_error resp (some e) = some (async_error (E.error_text e) (status_code_of resp))
  trip_error (some resp) none = response_error resp
  trip_error none none = some (async_error "no response received" 0)

  -- The `select`: the connection, and the error.
  abbrev pub Connected : Type 0
  Connected = Option C × Option AttachError

  abbrev pub selected : Trip C × W → Connected × W
  selected (handed c, w) = ((some c, none), w)
  selected (returned resp e, w) = ((none, trip_error resp e), w)

  abbrev pub sent_request : (Request → W → Trip C × W) → Result Request → W → Connected × W
  sent_request trip (err e) w =
      ((none, some (plain (wrapped "unable to create request for remote execution: %w" [] e))), w)
  sent_request trip (ok req) w = selected (trip req w)

  abbrev pub with_tripper : Result Request → Result (Request → W → Trip C × W) → W → Connected × W
  with_tripper req (err e) w = (
    (none, some (plain (wrapped "unable to create round tripper for remote execution: %w" [] e))),
    w,
  )
  with_tripper req (ok trip) w = sent_request trip req w

  abbrev pub async_subresource_helper :
      String → String → String → String → String → Values → W → Connected × W
  async_subresource_helper host resource namespace name subresource query w =
      with_tripper (make_request host resource name namespace subresource query)
        round_tripper_from_config w
