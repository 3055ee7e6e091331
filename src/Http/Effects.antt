-- ===== src/Http/Effects.antt =====
-- What the calls of src/uc_api.cpp that reach the network add to the log of requests and sleeps.
use unity_catalog.Base.{
  ℕ, ◌+◌, ◌≤◌, ◌≡◌, refl, Option, List, [], ◌∷◌, Text, String, length, arith, if◌then◌else◌,
  is_empty,
}
use unity_catalog.Result.{Result, ok, err}
use unity_catalog.Http.{
  Http, Net, Request, Method, get, post, delete, make_request_resp, answer, request, pause,
  interrupted,
}

-- How many requests of a log are DELETEs.
abbrev one_if_delete : Method → ℕ
one_if_delete delete = 1
one_if_delete _ = 0

abbrev pub deletes : List Request → ℕ
deletes [] = 0
deletes (r ∷ rs) = one_if_delete r.method + deletes rs

module _ (http : Http) where
  -- Some sleep, and no request.
  abbrev pub Slept : ℕ → Net http → Result (Unit {0}) × Net http → Type 0
  Slept ms n (ok u, n') = (n'.slept ≡ n.slept + ms) × (n'.sent ≡ n.sent)
  Slept ms n (err e, n') = (n'.slept ≤ n.slept + ms) × (n'.sent ≡ n.sent)

  -- At most one request, which is no DELETE, and no sleep.
  abbrev pub Asked : Net http → Net http → Type 0
  Asked n n' =
      (n'.slept ≡ n.slept)
      × (deletes n'.sent ≡ deletes n.sent)
      × (length n'.sent ≤ length n.sent + 1)

  answer-Asked :
      (url token : String) (body : Text) (tolerated : Option ℕ) (r : Result (Unit {0}))
      (n : Net http)
      → Asked n
          (answer http
            (record {
              method = if is_empty body then get else post;
              url = url;
              token = token;
              body = body;
            })
            tolerated
            r
            n).1
  unfolding request
  answer-Asked url token body tolerated (err e) n = ground arith
  answer-Asked url token [] tolerated (ok u) n = ground arith
  answer-Asked url token (c ∷ s) tolerated (ok u) n = ground arith

  pub make_request-Asked :
      (url token : String) (body : Text) (tolerated : Option ℕ) (n : Net http)
      → Asked n (make_request_resp http url token body tolerated n).1
  unfolding make_request_resp
  make_request-Asked url token body tolerated n =
      let (r, w) = http.ready n.world in
      answer-Asked url token body tolerated r (record n { world = w })

  pub interrupted-quiet :
      (n : Net http)
      → ((interrupted http n).1.slept ≡ n.slept) × ((interrupted http n).1.sent ≡ n.sent)
  unfolding interrupted
  interrupted-quiet n = (refl, refl)

  pub pause-sleeps :
      (ms : ℕ) (n : Net http)
      → ((pause http ms n).slept ≡ n.slept + ms) × ((pause http ms n).sent ≡ n.sent)
  unfolding pause
  pause-sleeps ms n = (refl, refl)

  -- A sent request is one more in the log.
  pub request-sent :
      (r : Request) (n : Net http)
      → ((request http r n).1.sent ≡ r ∷ n.sent) × ((request http r n).1.slept ≡ n.slept)
  unfolding request
  request-sent r n = (refl, refl)
