-- ===== src/Receiver/Signed.antt =====
-- What the receiver accepts: requests that are signed with the secret of their connection.
use yalia_sii.Prelude.{
  String, true, false, ◌≡◌, refl, sym, ap, ◌∙◌, ◌↔◌, ◌⊎◌, inl, inr, Option, none, some, List, [],
  ◌∷◌, ◌++◌, ◌==◌, In, In-any, In-append, In-append_right, any, Bool-cases, Option-cases, eq_iff,
}
use mathlib.Core.Option.{some-injective}
use yalia_sii.Crypto.Opens.{IsCipher}
use yalia_sii.Http.{
  Reply, ok, bad_request, not_found, unauthorized, failed, both_answer, ok-injective,
}
use yalia_sii.Connections.{Host, Vault, SiiCallbackInfo, find_callback_secret, get_callback_info}
use yalia_sii.Connections.Secret.{get_callback_info-shown}
use yalia_sii.Receiver.{
  CallbackJob, Digests, CallbackRequest, add_job, job_of, verify, enqueue, authenticate, receive,
}

-- A request that carries the signature of its raw body under a secret that is not empty.
pub data IsSigned (digests : Digests) (secret : Option String) (request : CallbackRequest)
    (raw : String) : Type 0 where
  signed :
      (s : String)
      → secret ≡ some s
      → s == "" ≡ false
      → request.raw_body ≡ some raw
      → request.signature ≡ digests.hmac s raw
      → IsSigned digests secret request raw

add_job-In :
    (job j : CallbackJob) (jobs : List CallbackJob)
    → In job (add_job j jobs)
    → In job jobs ⊎ (job ≡ j)
unfolding add_job
add_job-In job j jobs m = elim (Bool-cases (any (λ (k : CallbackJob). k.job_id == j.job_id) jobs)) [
  | inl there ↦ inl (rw (add_job, there) at m)
  | inr absent ↦ elim (In-append job jobs (j ∷ []) (rw (add_job, absent) at m)) [
    | inl old ↦ inl old
    | inr (inl e) ↦ inr e
    | inr (inr none_left) ↦ absurd none_left
  ]
]

add_job-there :
    (j : CallbackJob) (jobs : List CallbackJob)
    → any (λ (k : CallbackJob). k.job_id == j.job_id) (add_job j jobs) ≡ true
unfolding add_job
add_job-there j jobs = elim (Bool-cases (any (λ (k : CallbackJob). k.job_id == j.job_id) jobs)) [
  | inl there ↦ rw (add_job, there, there) refl
  | inr absent ↦
      rw (add_job, absent)
        (In-any (λ (k : CallbackJob). k.job_id == j.job_id) j (jobs ++ j ∷ [])
          (In-append_right j jobs (j ∷ []) (inl refl)) ((eq_iff j.job_id j.job_id).1 refl))
]

add_job-known :
    (j : CallbackJob) (jobs : List CallbackJob)
    → any (λ (k : CallbackJob). k.job_id == j.job_id) jobs ≡ true
    → add_job j jobs ≡ jobs
unfolding add_job
add_job-known j jobs there = rw (add_job, there) refl

module _ (digests : Digests) where
  verify-IsSigned :
      (secret : Option String) (request : CallbackRequest) (raw : String)
      → verify digests secret request ≡ ok raw
      → IsSigned digests secret request raw
  unfolding verify
  verify-IsSigned none request raw h = cc
  verify-IsSigned (some s) request raw h = elim (Bool-cases (s == "")) [
    | inl empty ↦ (let refused : unauthorized ≡ ok raw = rw empty at h in cc)
    | inr full ↦ elim (Option-cases request.raw_body) [
      | inl missing ↦ (let refused : unauthorized ≡ ok raw = rw (full, missing) at h in cc)
      | inr (got, there) ↦ elim (Bool-cases (request.signature == "")) [
        | inl blank ↦ (let refused : unauthorized ≡ ok raw = rw (full, there, blank) at h in cc)
        | inr given ↦ elim (Bool-cases (request.signature == digests.hmac s got)) [
          | inr differs ↦
              (let refused : unauthorized ≡ ok raw = rw (full, there, given, differs) at h in cc)
          | inl same ↦
              let got_raw : ok got ≡ ok raw = rw (full, there, given, same) at h in
              signed s refl full (there ∙ ap some (ok-injective got raw got_raw)) (
                (eq_iff request.signature (digests.hmac s got)).0 same
                ∙ ap (digests.hmac s) (ok-injective got raw got_raw))
        ]
      ]
    ]
  ]

  IsSigned-signature :
      (s raw got : String) (request : CallbackRequest)
      → IsSigned digests (some s) request got
      → request.raw_body ≡ some raw
      → request.signature ≡ digests.hmac s raw
  IsSigned-signature s raw got request (signed t same full body sig) there =
      sig
      ∙ ap (λ x. digests.hmac x got) (sym (some-injective s t same))
      ∙ ap (digests.hmac s) (some-injective got raw (sym body ∙ there))

  IsSigned-verify :
      (s : String) (request : CallbackRequest) (raw : String)
      → s == "" ≡ false
      → digests.hmac s raw == "" ≡ false
      → request.raw_body ≡ some raw
      → request.signature ≡ digests.hmac s raw
      → verify digests (some s) request ≡ ok raw
  unfolding verify
  IsSigned-verify s request raw full prints there same =
      let given : (request.signature == "") ≡ false = rw same prints in
      let equal = (eq_iff request.signature (digests.hmac s raw)).1 same in
      rw (full, there, given, equal) refl

module _ (digests : Digests) (request : CallbackRequest) (jobs : List CallbackJob) where
  enqueue-cases :
      (r : Reply String)
      → ((enqueue digests request jobs r).0 ≡ jobs)
        ⊎ ((raw : String) × (r ≡ ok raw)
            × ((enqueue digests request jobs r).0 ≡ add_job (job_of digests raw request) jobs))
  unfolding enqueue
  enqueue-cases (ok raw) = inr (raw, refl, refl)
  enqueue-cases _ = inl refl

  enqueue-idempotent :
      (r : Reply String)
      → (enqueue digests request (enqueue digests request jobs r).0 r).0
        ≡ (enqueue digests request jobs r).0
  unfolding enqueue
  enqueue-idempotent (ok raw) =
      add_job-known (job_of digests raw request) _ (add_job-there (job_of digests raw request) jobs)
  enqueue-idempotent _ = refl

  enqueue-ok :
      (r : Reply String)
      → (enqueue digests request jobs r).1 ≡ ok tt
      → (raw : String) × (r ≡ ok raw)
  unfolding enqueue
  enqueue-ok (ok raw) h = (raw, refl)
  enqueue-ok bad_request h = cc
  enqueue-ok not_found h = cc
  enqueue-ok unauthorized h = cc
  enqueue-ok failed h = cc

module _ (host : Host) (digests : Digests) (request : CallbackRequest) where
  -- A request puts no job on the queue but its own, and that only if it carries the signature of
  -- its raw body under the secret of its connection, which is not empty.
  pub receive-IsSigned :
      (v : Vault) (jobs : List CallbackJob) (job : CallbackJob)
      → In job (receive host digests request v jobs).0
      → In job jobs
        ⊎ ((secret : Option String) × (raw : String) × (find_callback_secret host
                request.connection_id v
              ≡ ok secret)
            × IsSigned digests secret request raw
            × (job ≡ job_of digests raw request))
  unfolding receive authenticate
  receive-IsSigned v jobs job m =
      elim (enqueue-cases digests request jobs (authenticate host digests request v)) [
        | inl same ↦ inl (rw (receive, same) at m)
        | inr (raw, e, after) ↦
            elim (add_job-In job (job_of digests raw request) jobs (rw (receive, after) at m)) [
              | inl old ↦ inl old
              | inr new ↦
                  let (secret, found, checked) =
                    both_answer (find_callback_secret host request.connection_id v) _ raw e in
                  inr (secret, raw, found, verify-IsSigned digests secret request raw checked, new)
            ]
      ]

  -- A request that is received twice leaves what it left the first time, while its job is there.
  receive-idempotent :
      (v : Vault) (jobs : List CallbackJob)
      → (receive host digests request v (receive host digests request v jobs).0).0
        ≡ (receive host digests request v jobs).0
  unfolding receive authenticate
  receive-idempotent v jobs =
      enqueue-idempotent digests request jobs (authenticate host digests request v)

-- A request for the connection of a callback page, with its raw body, is received exactly when it
-- carries the signature of that body under the secret that the page shows. The cipher, Base64, UTF-8
-- and JSON give back what they were given; the secret and the signature are not empty.
pub receive-shown :
    (host : Host) (digests : Digests)
    → IsCipher host.cipher
    → (id : String) (v : Vault) (info : SiiCallbackInfo) → (get_callback_info host id v).1 ≡ ok info
    → (request : CallbackRequest) (raw : String) (jobs : List CallbackJob)
    → request.connection_id ≡ id
    → request.raw_body ≡ some raw
    → info.secret == "" ≡ false
    → digests.hmac info.secret raw == "" ≡ false
    → ((receive host digests request (get_callback_info host id v).0 jobs).1 ≡ ok tt)
      ↔ (request.signature ≡ digests.hmac info.secret raw)
unfolding receive authenticate enqueue
receive-shown host digests lawful id v info h request raw jobs here there full prints =
    let v' = (get_callback_info host id v).0 in
    let found : find_callback_secret host request.connection_id v' ≡ ok (some info.secret) =
      rw here (get_callback_info-shown host lawful id v info h) in
    (
      λ told.
          let (got, checked) =
            enqueue-ok digests request jobs (authenticate host digests request v') told in
          IsSigned-signature digests info.secret raw got request
            (verify-IsSigned digests (some info.secret) request got
              (rw (authenticate, found) at checked))
            there,
      λ same.
          rw
            (
              receive,
              authenticate,
              found,
              IsSigned-verify digests info.secret request raw full prints there same,
            )
            refl,
    )
