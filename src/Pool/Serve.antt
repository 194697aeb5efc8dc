-- ===== src/Pool/Serve.antt =====
-- CCache/http.go: what `ServeHTTP` answers to the path of a group and a key.
use golang_frame_practice.Common.Assoc.{insert}
use golang_frame_practice.Common.Outcome.{Outcome, ok, err, panics, hangs, exits}
use golang_frame_practice.Common.Strings.{IsFree}
use golang_frame_practice.Common.{
  ◌≡◌, refl, ap, ◌∙◌, true, some, List, [], ◌∷◌, ◌++◌, lookup, length, Text, text_dec, arith,
}
use golang_frame_practice.Group.{ByteView, Group, byte_slice}
use golang_frame_practice.Pool.{
  HttpPool, Response, default_base_path, has_prefix, slice_from, split_two, http_error, respond,
  answer, serve_key, serve_http,
}
use golang_frame_practice.Group

split_two-append : (a b : Text) → IsFree 47 a → split_two 47 (a ++ 47 ∷ b) ≡ some (a, b)
unfolding split_two
split_two-append [] b h = ground arith
split_two-append (c ∷ a) b h = ground (arith, split_two-append a b h.1)

has_prefix-append : (a b : Text) → has_prefix (a ++ b) a ≡ true
unfolding has_prefix
has_prefix-append [] [] = refl
has_prefix-append [] (c ∷ b) = refl
has_prefix-append (c ∷ a) b = ground (arith, has_prefix-append a b)

slice_from-append : (a b : Text) → slice_from (length a) (a ++ b) ≡ ok b
unfolding slice_from
slice_from-append [] b = refl
slice_from-append (c ∷ a) b = slice_from-append a b

module _ (getter : Text → Outcome Text) (marshal : Text → Outcome Text) where
  serve_http-key :
      (p : HttpPool) (groups : List (Text × Group)) (name key : Text)
      → p.base_path ≡ default_base_path
      → IsFree 47 name
      → serve_http getter marshal p groups (default_base_path ++ name ++ 47 ∷ key)
        ≡ serve_key getter marshal groups name key
  unfolding serve_http
  serve_http-key p groups name key base free =
      let rest : Text = name ++ 47 ∷ key in
      ground (
        arith,
        base,
        has_prefix-append default_base_path rest,
        slice_from-append default_base_path rest,
        split_two-append name key free,
      )

  serve_key-answer :
      (groups : List (Text × Group)) (name key : Text) (g g' : Group) (r : Outcome ByteView)
      → lookup text_dec name groups ≡ some g
      → Group.get getter marshal g key ≡ (g', r)
      → serve_key getter marshal groups name key
        ≡ (insert text_dec name g' groups, answer getter marshal r)
  unfolding serve_key
  serve_key-answer groups name key g g' r l e = ground (arith, l, e)

  answer-ok :
      (v : ByteView) (bytes : Text)
      → marshal (byte_slice v) ≡ ok bytes
      → answer getter marshal (ok v) ≡ ok (record { status = 200; body = bytes })
  unfolding answer respond
  answer-ok v bytes m = ground (arith, m)

  answer-err :
      (e bytes : Text)
      → marshal [] ≡ ok bytes
      → answer getter marshal (err e) ≡ ok (record { status = 500; body = (e ++ 10 ∷ []) ++ bytes })
  unfolding answer respond http_error byte_slice golang_frame_practice.Group.clone_bytes
  answer-err e bytes m = ground (arith, m)

  -- What the answer says of a result of `Get`, with the message that `proto.Marshal` writes.
  abbrev pub said : Outcome ByteView → Text → Outcome Response
  said (ok v) bytes = ok (record { status = 200; body = bytes })
  said (err e) bytes = ok (record { status = 500; body = (e ++ 10 ∷ []) ++ bytes })
  said (panics e) bytes = panics e
  said hangs bytes = hangs
  said (exits msg) bytes = exits msg

  -- The value that the message has.
  abbrev pub message_of : Outcome ByteView → Text
  message_of (ok v) = byte_slice v
  message_of _ = []

  answer-said :
      (r : Outcome ByteView) (bytes : Text)
      → marshal (message_of r) ≡ ok bytes
      → answer getter marshal r ≡ said r bytes
  answer-said (ok v) bytes m = answer-ok v bytes m
  answer-said (err e) bytes m = answer-err e bytes m
  answer-said (panics e) bytes m = unfold answer in refl
  answer-said hangs bytes m = unfold answer in refl
  answer-said (exits msg) bytes m = unfold answer in refl

  -- On the path of a group whose name has no slash, and of any key, if `proto.Marshal` can write the
  -- message: a value that `Get` of the group gives is answered as the message with the status 200; an
  -- error is answered with the status 500 and the line of the error, and behind it stands the empty
  -- message; and the group is left as `Get` leaves it.
  pub serve_http-said :
      (p : HttpPool) (groups : List (Text × Group)) (name key : Text) (g g' : Group)
      (r : Outcome ByteView) (bytes : Text)
      → p.base_path ≡ default_base_path
      → IsFree 47 name
      → lookup text_dec name groups ≡ some g
      → Group.get getter marshal g key ≡ (g', r)
      → marshal (message_of r) ≡ ok bytes
      → serve_http getter marshal p groups (default_base_path ++ name ++ 47 ∷ key)
        ≡ (insert text_dec name g' groups, said r bytes)
  serve_http-said p groups name key g g' r bytes base free l got m =
      serve_http-key p groups name key base free
      ∙ serve_key-answer groups name key g g' r l got
      ∙ ap (λ z. (insert text_dec name g' groups, z)) (answer-said r bytes m)
