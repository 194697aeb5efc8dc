-- ===== src/Pool/Fetch.antt =====
-- CCache/http.go: `httpGetter.Get`, which asks a peer over HTTP.
use golang_frame_practice.Common.Outcome.{Outcome, ok, err, ◌>>=◌}
use golang_frame_practice.Common.{
  ℕ, ◌==◌, ◌≢◌, Option, none, some, ◌∷◌, ◌++◌, if◌then◌else◌, Text, text, arith,
}
use golang_frame_practice.Pool.{HttpGetter}

-- What `http.Get` gives: the status with its text, and the body as `ReadAll` reads it.
pub record Fetched : Type 0 where
  pub status : ℕ
  pub status_text : Text
  pub body : Outcome Text

-- An error with words in front.
unfoldable pub explain : {A : Type 0} → Text → Outcome A → Outcome A
explain words (err e) = err (words ++ e)
explain words r = r

-- `escape` is `url.QueryEscape`, `http_get` is `http.Get`, and `unmarshal_nil` is `proto.Unmarshal` into
-- the named result, a nil message.
module _ (escape : Text → Text) (http_get : Text → Outcome Fetched)
    (unmarshal_nil : Text → Outcome (Unit {0})) where
  unfoldable pub url_of : HttpGetter → Text → Text → Text
  url_of h group key = h.base_url ++ (escape group ++ (47 ∷ escape key))

  -- `httpGetter.Get`: `none` is a nil response.
  unfoldable pub fetch : HttpGetter → Text → Text → Outcome (Option Text)
  fetch h group key = do
    res ← http_get (url_of h group key)
    body ←
        if res.status == 200
        then explain (text "reading response body:") res.body
        else err (text "server response status:" ++ res.status_text)
    _ ← explain (text "unmarshal to proto error: ") (unmarshal_nil body)
    ok none

  -- The named result is never set, so there is never a response.
  pub fetch-nil : (h : HttpGetter) (group key : Text) (v : Text) → fetch h group key ≢ ok (some v)
  unfolding fetch explain
  fetch-nil h group key v e = ground (arith, e)
