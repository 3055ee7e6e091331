-- ===== src/Api/Calls/Answer.antt =====
-- What stands behind a call of src/uc_api.cpp that returns: the answer that it read.
use unity_catalog.Base.{◌≡◌, ap, String, Option, none, some, Text}
use unity_catalog.Json.{Yyjson}
use unity_catalog.Result.{ok, err, >>=-eq-ok, ok-injective, io}
use unity_catalog.Result.Exec as Exec
use unity_catalog.Http.{Http, Net, Response, make_request_resp}
use unity_catalog.Api.Data.{Credentials}
use unity_catalog.Api.Errors.{ApiError, check_error, throw_error}
use unity_catalog.Api.Calls.{make_request, ask}

module _ (json : Yyjson) where
  open json use {Val}

  throw_error-eq-ok :
      (root v : Option Val)
      → throw_error json root ≡ ok v
      → (root ≡ v) × (check_error json root ≡ ok none)
  unfolding throw_error
  throw_error-eq-ok root v h =
      let (error, e, h1) = >>=-eq-ok (check_error json root) _ h in judged error e h1
    where
      judged :
          (error : Option ApiError)
          → check_error json root ≡ ok error
          → (elim error [ none ↦ ok root | some x ↦ err io ]) ≡ ok v
          → (root ≡ v) × (check_error json root ≡ ok none)
      judged none e h = (ok-injective h, e)
      judged (some x) e h = cc

  module _ (http : Http) (c : Credentials) where
    -- The answer of the server to the one request, which holds no error.
    abbrev pub Answers : String → Text → Net http → Option Val → Type 0
    Answers url body n root =
        (resp : Response) × ((make_request_resp http url c.token body none n).0 ≡ ok resp)
        × (root ≡ json.read resp.body)
        × (check_error json root ≡ ok none)

    pub ask-Answers :
        (url : String) (body : Text) (n : Net http) {root : Option Val}
        → (ask json http c url body n).0 ≡ ok root
        → Answers url body n root
    unfolding ask
    ask-Answers url body n h =
        let (text, n', e, h1) = Exec.>>=-eq-ok (make_request json http c url body) _ n h in
        let (resp, n'', e1, h2) =
          Exec.>>=-eq-ok (make_request_resp http url c.token body none) _ n (ap (λ r. r.0) e) in
        let (e2, none_found) = throw_error-eq-ok (json.read text) _ h1 in
        (resp, ap (λ r. r.0) e1, cc, cc)
