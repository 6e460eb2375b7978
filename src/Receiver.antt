-- ===== src/Receiver.antt =====
-- src/callbacks/sii-callback.controller.ts: the public receiver of the callbacks of SII, which
-- checks the signature of a request and puts its body on the queue.
pub mod Signed
mod Tests
use yalia_sii.Prelude.{
  ℕ, String, Bool, true, false, not, ◌||◌, Option, none, some, List, [], ◌∷◌, ◌++◌, ◌==◌,
  if◌then◌else◌, any, keep,
}
use yalia_sii.Json.{Json, null, obj, end}
use yalia_sii.Loads.{◌⧺◌}
use yalia_sii.Submit.{cut}
use yalia_sii.Http.{Reply, ok, unauthorized, ◌>>=◌}
use yalia_sii.Connections.{Host, Vault, find_callback_secret}

-- A job of the queue of the callbacks: its id and SiiCallbackJobData.
pub record CallbackJob : Type 0 where
  pub job_id : String
  pub payload : Json

-- Node's HMAC-SHA256 of a key and a text, and its SHA-256 of a text, both in hexadecimal.
pub record Digests : Type 0 where
  pub hmac : String → String → String
  pub sha256 : String → String

-- What the receiver reads of a request. A signature that is missing is "".
pub record CallbackRequest : Type 0 where
  pub connection_id : String
  pub raw_body : Option String
  pub body : Option Json
  pub signature : String

-- `queue.add` with a `jobId`: BullMQ leaves a queue alone that holds a job of that id.
unfoldable pub add_job : CallbackJob → List CallbackJob → List CallbackJob
add_job job jobs =
    if any (λ (j : CallbackJob). j.job_id == job.job_id) jobs then jobs else jobs ++ job ∷ []

-- `req.body ?? {}`
unfoldable pub payload_or_empty : Option Json → Json
payload_or_empty none = obj end
payload_or_empty (some null) = obj end
payload_or_empty (some j) = j

module _ (digests : Digests) where
  unfoldable pub dedupe_id : String → String
  dedupe_id raw = "sii_cb_" ⧺ cut 24 (digests.sha256 raw)

  unfoldable pub job_of : String → CallbackRequest → CallbackJob
  unfolding dedupe_id payload_or_empty
  job_of raw request = record { job_id = dedupe_id raw; payload = payload_or_empty request.body }

  -- The tests of the handler: the raw body of a request that passes them.
  unfoldable pub verify : Option String → CallbackRequest → Reply String
  verify none request = unauthorized
  verify (some secret) request = if secret == "" then unauthorized else elim request.raw_body [
    | none ↦ unauthorized
    | some raw ↦
        if request.signature == ""
        then unauthorized
        else if request.signature == digests.hmac secret raw
        then ok raw
        else unauthorized
  ]

-- What follows the tests: the job and the answer.
unfoldable pub enqueue :
    Digests
    → CallbackRequest
    → List CallbackJob
    → Reply String
    → List CallbackJob × Reply (Unit {0})
unfolding job_of add_job
enqueue digests request jobs (ok raw) = (add_job (job_of digests raw request) jobs, ok tt)
enqueue digests request jobs refused = (jobs, refused >>= λ raw. ok tt)

-- The secret of the connection, and the tests with it.
unfoldable pub authenticate : Host → Digests → CallbackRequest → Vault → Reply String
unfolding verify
authenticate host digests request v =
    find_callback_secret host request.connection_id v >>= λ secret. verify digests secret request

unfoldable pub receive :
    Host
    → Digests
    → CallbackRequest
    → Vault
    → List CallbackJob
    → List CallbackJob × Reply (Unit {0})
unfolding authenticate enqueue
receive host digests request v jobs =
    enqueue digests request jobs (authenticate host digests request v)
