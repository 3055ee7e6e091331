-- ===== src/Http.antt =====
-- What the code calls of DuckDB's HTTP client, and `MakeRequestResp`, `ParseRetryAfterMs` of
-- src/uc_api.cpp. `Net` keeps, beside the outside world, the requests handed to the client (newest
-- first) and the milliseconds that the code itself sleeps, for the statements that count them.
mod Number
pub mod Effects
use Prim.Native.String.{◌++◌ as ◌<>◌}
use unity_catalog.Base.{
  ℕ, zero, suc, ◌+◌, ◌*◌, ◌%◌, ◌^◌, String, Option, none, some, List, [], ◌∷◌, Bool, true, false,
  Text, ◌||◌, str_eq, is_empty, if◌then◌else◌, ◌==◌, ℤ, pos, negsuc, minus_one, is_neg, to_nat,
  to_int64,
}
use unity_catalog.Result.{Result, ok, err, io}
pub use Number.{stoll}

pub data Method : Type 0 where
  get post delete : Method

pub record Request : Type 0 where
  pub method : Method
  pub url : String
  pub token : String
  pub body : Text

pub record Response : Type 0 where
  pub status : ℕ
  pub success : Bool
  pub body : Text
  -- the `Retry-After` header
  pub retry_after : Option Text

pub record Http : Type 1 where
  pub World : Type 0
  -- `EnsureHttpfsExtension`
  pub ready : World → Result (Unit {0}) × World
  -- `HTTPUtil::Request`, with what it repeats and waits for by itself; it may throw
  pub send : Request → World → Result Response × World
  -- `ClientContext::InterruptCheck`
  pub interrupt_check : World → Result (Unit {0}) × World
  -- `std::this_thread::sleep_for`
  pub sleep : ℕ → World → World

module _ (http : Http) where
  pub record Net : Type 0 where
    pub world : http.World
    pub sent : List Request
    pub slept : ℕ

  abbrev pub begin : http.World → Net
  begin w = record { world = w; sent = []; slept = 0 }

  unfoldable pub request : Request → Net → Result Response × Net
  request r n =
      let (resp, w) = http.send r n.world in
      (resp, record { world = w; sent = r ∷ n.sent; slept = n.slept })

  pub pause : ℕ → Net → Net
  pause ms n = record { world = http.sleep ms n.world; sent = n.sent; slept = n.slept + ms }

  pub interrupted : Net → Result (Unit {0}) × Net
  interrupted n = let (r, w) = http.interrupt_check n.world in (r, record n { world = w })

  -- A failure status throws, but for the one that the caller tolerates.
  abbrev pub judge : Option ℕ → Result Response → Result Response
  judge tolerated (err e) = err e
  judge none (ok resp) = if resp.success then ok resp else err io
  judge (some tolerated) (ok resp) =
      if resp.success || resp.status == tolerated then ok resp else err io

  abbrev pub answer : Request → Option ℕ → Result (Unit {0}) → Net → Result Response × Net
  answer r tolerated (err e) n = (err e, n)
  answer r tolerated (ok u) n = let (resp, n') = request r n in (judge tolerated resp, n')

  -- `MakeRequestResp`: GET without a body, POST with one.
  unfoldable pub make_request_resp : String → String → Text → Option ℕ → Net → Result Response × Net
  unfolding request
  make_request_resp url token body tolerated n =
      let (r, w) = http.ready n.world in
      let method = if is_empty body then get else post in
      answer (record { method = method; url = url; token = token; body = body }) tolerated r
        (record n { world = w })

-- `secs >= 0 ? secs * 1000 : -1` in 64 bits.
abbrev retry_ms : Option ℤ → ℤ
retry_ms none = minus_one
retry_ms (some (pos secs)) = to_int64 (secs * 1000 % 2 ^ 64)
retry_ms (some (negsuc n)) = minus_one

pub parse_retry_after_ms : Response → ℤ
parse_retry_after_ms resp = elim resp.retry_after [
  | none ↦ minus_one
  | some header ↦ retry_ms (stoll header)
]
