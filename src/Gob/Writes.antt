-- ===== src/Gob/Writes.antt =====
-- SuRPC/codec/gob.go: what a `Write` leaves on the connection.
use mathlib.Core.Path.{subst}
use mathlib.Core.List.{append-nil, append_assoc}
use golang_frame_practice.Client.{Header}
use golang_frame_practice.Common.Outcome.{Outcome, ok, err}
use golang_frame_practice.Common.{
  ◌≡◌, refl, sym, ap, ◌∙◌, ◌⊎◌, inl, inr, Bool, true, [], ◌++◌, Text,
}
use golang_frame_practice.Gob.{Wire, flushed, encode_both, write}
use golang_frame_practice.Server.Requests.{Reply}

-- No error, or an error.
abbrev pub Returns : Outcome (Unit {0}) → Type 0
Returns r = (r ≡ ok tt) ⊎ ((e : Text) × (r ≡ err e))

-- From the bytes `sent` and `buffer` to `sent'` and `buffer'`, with a first part `l` of `code` written, all
-- of it if there is no error: some bytes of the buffer and of `l` have gone on to the connection.
pub record Grows (sent buffer sent' buffer' code : Text) (r : Outcome (Unit {0})) : Type 0 where
  pub k : Text
  pub l : Text
  pub rest : Text
  pub code_split : code ≡ l ++ rest
  pub sent_more : sent' ≡ sent ++ k
  pub buffered : k ++ buffer' ≡ buffer ++ l
  pub whole : r ≡ ok tt → rest ≡ []

-- What a wire does: `sent` are the bytes on the connection and `buffer` those in the `bufio.Writer`. An
-- encoder writes the code of its value to the buffer; when that is full, bytes go on to the connection,
-- so an error can come at any of them. A flush puts a first part of the buffer on the connection, all of
-- it if it succeeds, and `Close` closes. The code of a value depends on the state, since an encoder
-- sends the definition of a type once.
pub record IsWire {S A B : Type 0} (wire : Wire S A B) : Type 0 where
  pub buffer : S → Text
  pub sent : S → Text
  pub closed : S → Bool
  pub header_code : Header → S → Text
  pub body_code : Reply B → S → Text
  pub header_returns : (h : Header) (s : S) → Returns (wire.encode_header h s).1
  pub body_returns : (b : Reply B) (s : S) → Returns (wire.encode_body b s).1
  pub header_grows :
      (h : Header) (s : S)
      → Grows
          (sent s)
          (buffer s)
          (sent (wire.encode_header h s).0)
          (buffer (wire.encode_header h s).0)
          (header_code h s)
          (wire.encode_header h s).1
  pub body_grows :
      (b : Reply B) (s : S)
      → Grows
          (sent s)
          (buffer s)
          (sent (wire.encode_body b s).0)
          (buffer (wire.encode_body b s).0)
          (body_code b s)
          (wire.encode_body b s).1
  pub flush-Returns : (s : S) → Returns (wire.flush s).1
  pub flushes :
      (s : S)
      → (m : Text) × (rest : Text) × (buffer s ≡ m ++ rest)
        × (sent (wire.flush s).0 ≡ sent s ++ m)
        × ((wire.flush s).1 ≡ ok tt → rest ≡ [])
  pub closes : (s : S) → (closed (wire.close s).0 ≡ true) × (sent (wire.close s).0 ≡ sent s)

-- An encoding behind one that has succeeded.
Grows-trans :
    (s b s' b' s'' b'' c c' : Text) (r r' : Outcome (Unit {0}))
    → r ≡ ok tt
    → Grows s b s' b' c r
    → Grows s' b' s'' b'' c' r'
    → Grows s b s'' b'' (c ++ c') r'
Grows-trans s b s' b' s'' b'' c c' r r' e g h = record {
  k = g.k ++ h.k;
  l = g.l ++ h.l;
  rest = h.rest;
  code_split =
      ap (λ x. x ++ c') (g.code_split ∙ ap (λ x. g.l ++ x) (g.whole e) ∙ append-nil g.l)
      ∙ ap (λ x. g.l ++ x) h.code_split
      ∙ sym (append_assoc g.l h.l h.rest);
  sent_more = h.sent_more ∙ ap (λ x. x ++ h.k) g.sent_more ∙ append_assoc s g.k h.k;
  buffered =
      append_assoc g.k h.k b''
      ∙ ap (λ x. g.k ++ x) h.buffered
      ∙ sym (append_assoc g.k b' h.l)
      ∙ ap (λ x. x ++ h.l) g.buffered
      ∙ append_assoc b g.l h.l;
  whole = h.whole;
}

-- An encoding that has failed, of something with more behind it.
Grows-longer :
    (s b s' b' c c' e : Text) → Grows s b s' b' c (err e) → Grows s b s' b' (c ++ c') (err e)
Grows-longer s b s' b' c c' e g = record {
  k = g.k;
  l = g.l;
  rest = g.rest ++ c';
  code_split = ap (λ x. x ++ c') g.code_split ∙ append_assoc g.l g.rest c';
  sent_more = g.sent_more;
  buffered = g.buffered;
  whole = λ q. cc;
}

module _ {S A B : Type 0} (wire : Wire S A B) (laws : IsWire wire) where
  -- The bytes of a header and of the body behind it.
  abbrev pub message : Header → Reply B → S → Text
  message h b s = laws.header_code h s ++ laws.body_code b (wire.encode_header h s).0

  -- What `Write` has encoded before it flushes.
  abbrev Encoded : Header → Reply B → S → S × Outcome (Unit {0}) → Type 0
  Encoded h b s (u, r) =
      Returns r
      × Grows (laws.sent s) (laws.buffer s) (laws.sent u) (laws.buffer u) (message h b s) r

  encode_both-Encoded : (h : Header) (b : Reply B) (s : S) → Encoded h b s (encode_both wire h b s)
  unfolding encode_both
  encode_both-Encoded h b s =
      let t : S = (wire.encode_header h s).0 in
      elim (laws.header_returns h s) [
        | inr (x, e) ↦
            rw (e, encode_both)
              (
                inr (x, refl),
                Grows-longer _ _ _ _ _ (laws.body_code b t) x (rw e at (laws.header_grows h s)),
              )
        | inl e ↦
            rw (e, encode_both)
              (
                laws.body_returns b t,
                Grows-trans _ _ _ _ _ _ _ _ _ _ e (laws.header_grows h s) (laws.body_grows b t),
              )
      ]

  -- The state with a first part of these bytes more on its connection.
  pub record Sends (bytes : Text) (s t : S) : Type 0 where
    pub part : Text
    pub rest : Text
    pub bytes_split : bytes ≡ part ++ rest
    pub sent : laws.sent t ≡ laws.sent s ++ part

  -- What a `Write` leaves: it reports no error, and all of the message is on the connection or the flush has
  -- failed; or it reports an error, and the connection is closed.
  pub record Wrote (h : Header) (b : Reply B) (s : S) (t : S) (r : Outcome (Unit {0}))
      : Type 0 where
    pub sends : Sends (message h b s) s t
    pub ends :
        ((r ≡ ok tt)
          × ((sends.rest ≡ [])
              ⊎ ((e : Text) × ((wire.flush (encode_both wire h b s).0).1 ≡ err e))))
        ⊎ ((e : Text) × (r ≡ err e) × (laws.closed t ≡ true))

  -- A flush behind an encoding from an empty buffer.
  flush-Sends :
      (h : Header) (b : Reply B) (s u : S) (r : Outcome (Unit {0}))
      → laws.buffer s ≡ []
      → Grows (laws.sent s) (laws.buffer s) (laws.sent u) (laws.buffer u) (message h b s) r
      → (sends : Sends (message h b s) s (wire.flush u).0) × (r ≡ ok tt
          → (wire.flush u).1 ≡ ok tt
          → sends.rest ≡ [])
  flush-Sends h b s u r empty g =
      let (m, left, whole, more, all) = laws.flushes u in
      let written : g.l ≡ g.k ++ (m ++ left) =
        sym (g.buffered ∙ ap (λ x. x ++ g.l) empty) ∙ ap (λ x. g.k ++ x) whole in
      (
        record {
          part = g.k ++ m;
          rest = left ++ g.rest;
          bytes_split =
              g.code_split
              ∙ ap (λ x. x ++ g.rest) (written ∙ sym (append_assoc g.k m left))
              ∙ append_assoc (g.k ++ m) left g.rest;
          sent = more ∙ ap (λ x. x ++ m) g.sent_more ∙ append_assoc (laws.sent s) g.k m;
        },
        λ e f. ap (λ x. x ++ g.rest) (all f) ∙ g.whole e,
      )

  write_ok :
      (h : Header) (b : Reply B) (s : S)
      → (encode_both wire h b s).1 ≡ ok tt
      → write wire h b s ≡ ((wire.flush (encode_both wire h b s).0).0, ok tt)
  unfolding write flushed
  write_ok h b s e = ap (λ r. flushed wire ((encode_both wire h b s).0, r)) e

  write_err :
      (h : Header) (b : Reply B) (s : S) (x : Text)
      → (encode_both wire h b s).1 ≡ err x
      → write wire h b s ≡ ((wire.close (wire.flush (encode_both wire h b s).0).0).0, err x)
  unfolding write flushed
  write_err h b s x e = ap (λ r. flushed wire ((encode_both wire h b s).0, r)) e

  -- On a wire with these laws, a `Write` from an empty buffer has put a first part of the bytes of its
  -- header and its body on the connection. It reports an error, and the connection is closed, or it reports
  -- none; then all of the bytes are there, unless the flush has failed, whose error is lost.
  pub write-Wrote :
      (h : Header) (b : Reply B) (s : S)
      → laws.buffer s ≡ []
      → Wrote h b s (write wire h b s).0 (write wire h b s).1
  write-Wrote h b s empty =
      let u : S = (encode_both wire h b s).0 in
      let (returns, g) = encode_both-Encoded h b s in
      let (sends, all) = flush-Sends h b s u (encode_both wire h b s).1 empty g in
      elim returns [
        | inl e ↦
            subst (λ w. Wrote h b s w.0 w.1) (sym (write_ok h b s e))
              (record {
                sends = sends;
                ends = inl (
                  refl,
                  elim (laws.flush-Returns u) [ inl f ↦ inl (all e f) | inr (x, f) ↦ inr (x, f) ],
                );
              })
        | inr (x, e) ↦
            subst (λ w. Wrote h b s w.0 w.1) (sym (write_err h b s x e))
              (record {
                sends = record {
                  part = sends.part;
                  rest = sends.rest;
                  bytes_split = sends.bytes_split;
                  sent = (laws.closes (wire.flush u).0).1 ∙ sends.sent;
                };
                ends = inr (x, refl, (laws.closes (wire.flush u).0).0);
              })
      ]
