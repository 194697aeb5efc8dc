-- ===== src/Client/Dial.antt =====
-- SuRPC/client.go: options and the choice of the protocol.
use golang_frame_practice.Common.Outcome.{Outcome, ok, err}
use golang_frame_practice.Common.Strings.{split}
use golang_frame_practice.Common.{ℕ, Option, none, some, List, [], ◌∷◌, ◌++◌, Text, text, text_dec}

-- The struct `Option`, of which a nil pointer is `none`.
pub record Options : Type 0 where
  pub magic_number : ℕ
  pub codec_type : Text
  pub connect_timeout : ℕ
  pub handle_timeout : ℕ

module _ (default_option : Options) where
  -- `parseOptions`
  unfoldable pub parse_options : List (Option Options) → Outcome Options
  parse_options [] = ok default_option
  parse_options (none ∷ _) = ok default_option
  parse_options (some opt ∷ []) = ok (record opt {
    magic_number = default_option.magic_number;
    codec_type = elim opt.codec_type [ [] ↦ default_option.codec_type | c ∷ s ↦ c ∷ s ];
  })
  parse_options (some _ ∷ _ ∷ _) = err (text "number of options is greater than 1")

-- The two ways to dial: `DialHTTP` and `Dial`.
pub data Dialled : Type 0 where
  dial_http : Text → Text → Dialled
  dial : Text → Text → Dialled

-- `XDial` up to the call of `DialHTTP` or `Dial`.
unfoldable pub x_dial : Text → Outcome Dialled
x_dial rpc_addr = elim (split 64 rpc_addr) [
  | protocol ∷ addr ∷ [] ↦ elim (text_dec protocol (text "http")) [
    | yes _ ↦ ok (dial_http (text "tcp") addr)
    | no _ ↦ ok (dial protocol addr)
  ]
  | _ ↦
      err (text "rpc client err: wrong format '" ++ (rpc_addr ++ text "', expected protocol@addr"))
]
