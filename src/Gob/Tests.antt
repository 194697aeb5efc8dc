-- ===== src/Gob/Tests.antt =====
-- SuRPC/codec/gob.go: a wire whose buffer takes a header and writes a body through, over a connection
-- that takes the first byte of what is flushed and then fails.
use mathlib.Core.List.{append-nil}
use golang_frame_practice.Client.{Header}
use golang_frame_practice.Common.Outcome.{Outcome, ok, err}
use golang_frame_practice.Common.{
  ℕ, ◌≡◌, refl, sym, inl, inr, Bool, true, false, [], ◌∷◌, ◌++◌, Text, text,
}
use golang_frame_practice.Gob.Writes.{Returns, Grows, IsWire, Wrote, write-Wrote}
use golang_frame_practice.Gob.{Wire, write}
use golang_frame_practice.Server.Requests.{Reply, reply, invalid_request}

record State : Type 0 where
  buffer : Text
  sent : Text
  closed : Bool

-- A body of one byte, or a type that the encoder refuses.
abbrev code : Reply ℕ → Text
code (reply n) = n ∷ []
code invalid_request = []

-- The body goes to the connection behind what is in the buffer.
abbrev encode : Reply ℕ → State → State × Outcome (Unit {0})
encode (reply n) s = (record s { buffer = []; sent = s.sent ++ (s.buffer ++ n ∷ []) }, ok tt)
encode invalid_request s = (s, err (text "gob: type struct {} has no exported fields"))

abbrev flush_one : State → Text → State × Outcome (Unit {0})
flush_one s [] = (s, ok tt)
flush_one s (c ∷ rest) =
    (record s { buffer = rest; sent = s.sent ++ c ∷ [] }, err (text "broken pipe"))

abbrev pipe : Wire State ℕ ℕ
pipe = record {
  encode_header = λ h s. (record s { buffer = s.buffer ++ h.service_method }, ok tt);
  encode_body = encode;
  decode_header = λ s. (s, err (text "EOF"));
  decode_body = λ s. (s, err (text "EOF"));
  flush = λ s. flush_one s s.buffer;
  close = λ s. (record s { closed = true }, ok tt);
}

encode-Returns : (b : Reply ℕ) (s : State) → Returns (encode b s).1
encode-Returns (reply n) s = inl refl
encode-Returns invalid_request s = inr (_, refl)

encode-Grows :
    (b : Reply ℕ) (s : State)
    → Grows s.sent s.buffer (encode b s).0.sent (encode b s).0.buffer (code b) (encode b s).1
encode-Grows (reply n) s = record {
  k = s.buffer ++ n ∷ [];
  l = n ∷ [];
  rest = [];
  code_split = refl;
  sent_more = refl;
  buffered = append-nil (s.buffer ++ n ∷ []);
  whole = λ e. refl;
}
encode-Grows invalid_request s = record {
  k = [];
  l = [];
  rest = [];
  code_split = refl;
  sent_more = sym (append-nil s.sent);
  buffered = sym (append-nil s.buffer);
  whole = λ e. refl;
}

flush-Returns : (s : State) (b : Text) → Returns (flush_one s b).1
flush-Returns s [] = inl refl
flush-Returns s (c ∷ rest) = inr (_, refl)

flush_takes :
    (s : State) (b : Text)
    → (m : Text) × (rest : Text) × (b ≡ m ++ rest)
      × ((flush_one s b).0.sent ≡ s.sent ++ m)
      × ((flush_one s b).1 ≡ ok tt → rest ≡ [])
flush_takes s [] = ([], [], refl, sym (append-nil s.sent), λ e. refl)
flush_takes s (c ∷ rest) = (c ∷ [], rest, refl, refl, λ e. cc)

abbrev pipe-IsWire : IsWire pipe
pipe-IsWire = record {
  buffer = λ s. s.buffer;
  sent = λ s. s.sent;
  closed = λ s. s.closed;
  header_code = λ h s. h.service_method;
  body_code = λ b s. code b;
  header_returns = λ h s. inl refl;
  body_returns = λ b s. encode-Returns b s;
  header_grows = λ h s. record {
    k = [];
    l = h.service_method;
    rest = [];
    code_split = sym (append-nil h.service_method);
    sent_more = sym (append-nil s.sent);
    buffered = refl;
    whole = λ e. refl;
  };
  body_grows = λ b s. encode-Grows b s;
  flush-Returns = λ s. flush-Returns s s.buffer;
  flushes = λ s. flush_takes s s.buffer;
  closes = λ s. (refl, refl);
}

abbrev quiet : State
quiet = record { buffer = []; sent = []; closed = false }

abbrev sum : Header
sum = record { service_method = text "Foo.Sum"; seq = 1; error = [] }

-- The body is refused, and the header was not sent as a whole.
write-Wrote_example :
    Wrote pipe pipe-IsWire sum invalid_request quiet
      (write pipe sum invalid_request quiet).0
      (write pipe sum invalid_request quiet).1
write-Wrote_example = write-Wrote pipe pipe-IsWire sum invalid_request quiet refl
