-- ===== src/Pool.antt =====
-- CCache/http.go: the pool of peers, `NewHTTPPoolWithOpts`, `Set`, `PickPeer`, `ServeHTTP` and the
-- client `httpGetter`.
pub mod Pick
pub mod Serve
pub mod Fetch
mod Tests
use golang_frame_practice.Common.Assoc.{insert}
use golang_frame_practice.Common.Outcome.{Outcome, ok, err, panics, hangs, exits}
use golang_frame_practice.Common.{
  ℕ, zero, suc, ◌==◌, Bool, true, false, not, ◌&&◌, Option, none, some, List, [], ◌∷◌, ◌++◌, lookup,
  ite, ℕ_discrete, if◌then◌else◌, length, Text, text, text_dec,
}
use golang_frame_practice.ConsistentHash.{Hash, Map, new_map, add}
use golang_frame_practice.Group.{ByteView, byte_slice, PeerGetter, PeerPicker, Group}
use golang_frame_practice.ConsistentHash
use golang_frame_practice.Group

pub record HttpGetter : Type 0 where
  pub base_url : Text

pub record HttpPoolOptions : Type 0 where
  pub replicas : ℕ

pub record HttpPool : Type 0 where
  pub self : Text
  pub base_path : Text
  pub peers : Option Map
  pub http_getters : List (Text × HttpGetter)
  pub opts : HttpPoolOptions

abbrev pub default_base_path : Text
default_base_path = text "/ccache/"

abbrev pub default_replicas : ℕ
default_replicas = 3

-- `NewHTTPPoolWithOpts`
unfoldable pub new_http_pool_with_opts : Text → HttpPoolOptions → HttpPool
new_http_pool_with_opts self opts = record {
  self = self;
  base_path = default_base_path;
  peers = none;
  http_getters = [];
  opts = record { replicas = if opts.replicas == 0 then default_replicas else 0 };
}

-- The loop of `Set`.
unfoldable pub set_getters : Text → List Text → List (Text × HttpGetter) → List (Text × HttpGetter)
set_getters base_path [] m = m
set_getters base_path (peer ∷ peers) m =
    set_getters base_path peers (insert text_dec peer (record { base_url = peer ++ base_path }) m)

-- `Set`; `checksum` is `crc32.ChecksumIEEE`.
unfoldable pub set : Hash → HttpPool → List Text → HttpPool
set checksum p peers = record p {
  peers = some (add (new_map checksum p.opts.replicas none) peers);
  http_getters = set_getters p.base_path peers p.http_getters;
}

-- `PickPeer`: the outer `none` is a false second result, the inner one a nil getter.
unfoldable pub pick_peer : HttpPool → Text → Option (Option HttpGetter)
pick_peer p key = elim p.peers [
  | none ↦ none
  | some m ↦
      let peer : Text = ConsistentHash.get m key in
      elim (text_dec peer []) [
        | yes _ ↦ none
        | no _ ↦ elim (text_dec peer p.self) [
          | yes _ ↦ none
          | no _ ↦ some (lookup text_dec peer p.http_getters)
        ]
      ]
]

-- `strings.HasPrefix`
unfoldable pub has_prefix : Text → Text → Bool
has_prefix s [] = true
has_prefix [] (c ∷ l) = false
has_prefix (d ∷ s) (c ∷ l) = ite (ℕ_discrete c d) (has_prefix s l) false

-- `s[n:]`
unfoldable pub slice_from : ℕ → Text → Outcome Text
slice_from zero s = ok s
slice_from (suc n) [] = panics (text "slice bounds out of range")
slice_from (suc n) (c ∷ s) = slice_from n s

-- `strings.SplitN` into at most two parts around the first `sep`: `none` means one part.
unfoldable pub split_two : ℕ → Text → Option (Text × Text)
split_two sep [] = none
split_two sep (c ∷ s) =
    let rest = split_two sep s in
    ite (ℕ_discrete c sep) (some ([], s))
      (elim rest [ none ↦ none | some (a, b) ↦ some (c ∷ a, b) ])

-- What a handler has written: the status, 200 until another is set, and the body.
pub record Response : Type 0 where
  pub status : ℕ
  pub body : Text

-- `http.Error`: a line of text; once a status is set, a second one is ignored.
unfoldable pub http_error : Response → Text → ℕ → Response
http_error w message status = record { status = status; body = w.body ++ (message ++ 10 ∷ []) }

-- `getter` and `marshal` are those of the groups; `groups` is the map behind `GetGroup`.
module _ (getter : Text → Outcome Text) (marshal : Text → Outcome Text) where
  -- The end of `ServeHTTP`, from `proto.Marshal` on.
  unfoldable pub respond : Response → ByteView → Outcome Response
  respond w v = elim (marshal (byte_slice v)) [
    | ok response ↦ ok (record w { body = w.body ++ response })
    | err e ↦ ok (http_error w e (if w.status == 200 then 500 else w.status))
    | panics e ↦ panics e
    | hangs ↦ hangs
    | exits e ↦ exits e
  ]

  -- `ServeHTTP` behind `group.Get`: after an error it goes on with the empty view.
  unfoldable pub answer : Outcome ByteView → Outcome Response
  answer (ok v) = respond (record { status = 200; body = [] }) v
  answer (err e) =
      respond (http_error (record { status = 200; body = [] }) e 500) (record { b = [] })
  answer (panics e) = panics e
  answer hangs = hangs
  answer (exits msg) = exits msg

  -- `ServeHTTP` for a group name and a key.
  unfoldable pub serve_key :
      List (Text × Group) → Text → Text → List (Text × Group) × Outcome Response
  serve_key groups groupname key = elim (lookup text_dec groupname groups) [
    | none ↦
        (groups, ok (http_error (record { status = 200; body = [] }) (text "No such group") 404))
    | some group ↦
        let (group', r) = Group.get getter marshal group key in
        (insert text_dec groupname group' groups, answer r)
  ]

  -- `ServeHTTP` for a path.
  unfoldable pub serve_http :
      HttpPool → List (Text × Group) → Text → List (Text × Group) × Outcome Response
  serve_http p groups path =
      if has_prefix path default_base_path
      then elim (slice_from (length p.base_path) path) [
        | err e ↦ (groups, err e)
        | panics e ↦ (groups, panics e)
        | hangs ↦ (groups, hangs)
        | exits e ↦ (groups, exits e)
        | ok rest ↦ elim (split_two 47 rest) [
          | none ↦ (
            groups,
            ok (http_error (record { status = 200; body = [] }) (text "Bad Request") 400),
          )
          | some (groupname, key) ↦ serve_key groups groupname key
        ]
      ]
      else (groups, panics (text "HTTPPool serving unexpected path: " ++ path))
