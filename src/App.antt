-- ===== src/App.antt =====
-- app/main.py: the background tasks of the process, and the middleware that gives each request an
-- id. Names of headers are in lower case here, as they are compared; the log is left out.
use fembin.Base.{
  ℕ, ◌≡◌, refl, Text, codes, text_eq_iff, Option, none, some, List, [], ◌∷◌, ◌++◌, Bool, arith,
  if◌then◌else◌,
}
use fembin.Base.Dict.{lookup, insert, lookup-insert}
use fembin.Exec.{Exec, Result, ok, err}

-- what the start of the process reads of app/config.py; the intervals are in seconds
pub record AppSettings : Type 0 where
  pub catalog_sync_enabled : Bool
  pub catalog_sync_interval_seconds : ℕ
  pub outbox_worker_enabled : Bool
  pub outbox_worker_interval_seconds : ℕ
  pub api_docs_enabled : Bool

-- the loop that a task runs, with its interval
pub data Task : Type 0 where
  catalog_sync_task outbox_worker_task : ℕ → Task

-- in the order in which they are made; each runs until the stop event is set
unfoldable pub lifespan_tasks : AppSettings → List Task
lifespan_tasks settings =
    (if settings.catalog_sync_enabled
      then catalog_sync_task settings.catalog_sync_interval_seconds ∷ []
      else [])
    ++ (if settings.outbox_worker_enabled
        then outbox_worker_task settings.outbox_worker_interval_seconds ∷ []
        else [])

-- docs_url, redoc_url and openapi_url
unfoldable pub docs_urls : AppSettings → List (Option Text)
docs_urls settings =
    if settings.api_docs_enabled
    then some (codes "/docs") ∷ some (codes "/redoc") ∷ some (codes "/openapi.json") ∷ []
    else none ∷ none ∷ none ∷ []

pub record Response : Type 0 where
  pub status_code : ℕ
  pub headers : List (Text × Text)

-- `request_id_var`, beside what the application acts on
pub record Context (S : Type 0) : Type 0 where
  pub request_id : Option Text
  pub inner : S

-- the id that came with the request, or the one that was just minted
unfoldable pub request_id_of : Text → List (Text × Text) → Text
request_id_of minted headers = elim (lookup (codes "x-request-id") headers) [
  | some request_id ↦ request_id
  | none ↦ minted
]

abbrev with_header : Text → Response → Response
with_header request_id response = record response {
  headers = insert (codes "x-request-id") request_id response.headers;
}

abbrev answered : {E : Type 0} → Text → Result E Response → Result E Response
answered request_id (err e) = err e
answered request_id (ok response) = ok (with_header request_id response)

-- the variable is reset to what it was, after an exception too
unfoldable pub add_request_id_and_log :
    {E S : Type 0}
    → Text
    → List (Text × Text)
    → Exec E (Context S) Response
    → Exec E (Context S) Response
add_request_id_and_log minted headers call_next s =
    let request_id = request_id_of minted headers in
    let (r, t) = call_next (record s { request_id = some request_id }) in
    (answered request_id r, record t { request_id = s.request_id })

answered_carries :
    {E : Type 0} (request_id : Text) (r : Result E Response) (response : Response)
    → answered request_id r ≡ ok response
    → lookup (codes "x-request-id") response.headers ≡ some request_id
answered_carries request_id (err e) response h = ground (arith, h)
answered_carries request_id (ok x) response h =
    let key = codes "x-request-id" in
    ground (arith, h, lookup-insert key key request_id x.headers, text_eq_iff key key)

-- Whatever a request ends in, the variable has its value from before; and a response carries the
-- request's id.
add_request_id_and_log_lem :
    {E S : Type 0} (minted : Text) (headers : List (Text × Text))
    (call_next : Exec E (Context S) Response) (s : Context S)
    → let out = add_request_id_and_log minted headers call_next s in
      (out.1.request_id ≡ s.request_id)
      × ((response : Response)
          → out.0 ≡ ok response
          → lookup (codes "x-request-id") response.headers ≡ some (request_id_of minted headers))
unfolding add_request_id_and_log
add_request_id_and_log_lem minted headers call_next s =
    (refl, λ response h. answered_carries (request_id_of minted headers) _ response h)
