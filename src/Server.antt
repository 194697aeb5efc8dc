-- ===== src/Server.antt =====
-- SuRPC/service.go and SuRPC/server.go: the services of a server and the methods that can be called.
pub mod Requests
pub mod Handling
pub mod Answers
pub mod Lookup
pub mod Unread
pub mod Http
pub mod Connection
pub mod Counts
pub mod Served
pub mod Debug
mod Tests
mod ConnectionTests
use golang_frame_practice.Common.Assoc.{insert}
use golang_frame_practice.Common.Outcome.{Outcome, ok, err, panics, hangs, exits, ◌>>=◌}
use golang_frame_practice.Common.{
  ℕ, ◌+◌, ◌%◌, ◌^◌, ◌==◌, Bool, true, false, not, ◌&&◌, ◌||◌, Option, none, some, List, [], ◌∷◌,
  ◌++◌, lookup, ite, ℕ_discrete, if◌then◌else◌, Text, text, text_dec,
}

-- What `reflect.Type` says of a type: a number that tells types apart, its name, the path of its
-- package, and whether `Elem` gives a type or panics.
pub record GoType : Type 0 where
  pub id : ℕ
  pub name : Text
  pub pkg_path : Text
  pub has_elem : Bool

-- `reflect.Method`: the types of its arguments, the receiver first, and of its results.
pub record Method : Type 0 where
  pub name : Text
  pub inputs : List GoType
  pub outputs : List GoType

pub record MethodType : Type 0 where
  pub method : Method
  pub arg_type : GoType
  pub reply_type : GoType
  pub num_calls : ℕ

pub record Service : Type 0 where
  pub name : Text
  pub method : List (Text × MethodType)

-- `is_exported` is `token.IsExported`, and `error_type` the number of the type `error`.
module _ (is_exported : Text → Bool) (error_type : ℕ) where
  unfoldable pub is_exported_or_builtin_type : GoType → Bool
  is_exported_or_builtin_type t =
      is_exported t.name || elim t.pkg_path [ [] ↦ true | _ ∷ _ ↦ false ]

  -- A round of `registerMethods`: the method as it is kept, if it is.
  unfoldable pub suitable : Method → Option MethodType
  suitable m = elim m.inputs [
    | _ ∷ arg ∷ reply ∷ [] ↦ elim m.outputs [
      | out ∷ [] ↦
          if out.id == error_type
          then (if is_exported_or_builtin_type arg && is_exported_or_builtin_type reply
              then some (record { method = m; arg_type = arg; reply_type = reply; num_calls = 0 })
              else none)
          else none
      | _ ↦ none
    ]
    | _ ↦ none
  ]

  -- The loop of `registerMethods`.
  unfoldable pub register_methods :
      List Method → List (Text × MethodType) → List (Text × MethodType)
  register_methods [] kept = kept
  register_methods (m ∷ methods) kept =
      register_methods methods
        (elim (suitable m) [ none ↦ kept | some t ↦ insert text_dec m.name t kept ])

  -- `newService` for the name of the type and its methods. `log.Fatalf` ends the program.
  unfoldable pub new_service : Text → List Method → Outcome Service
  new_service name methods =
      if is_exported name
      then ok (record { name = name; method = register_methods methods [] })
      else exits (name ++ text " is not a service name")

-- The struct `Server`.
pub record Server : Type 0 where
  pub service_map : List (Text × Service)

abbrev pub new_server : Server
new_server = record { service_map = [] }

-- `Register` of a service that `newService` made.
unfoldable pub store_service : Server → Service → Server × Outcome (Unit {0})
store_service s service = elim (lookup text_dec service.name s.service_map) [
  | some _ ↦ (s, err (text "rpc server: service already defined" ++ service.name))
  | none ↦ (record { service_map = insert text_dec service.name service s.service_map }, ok tt)
]

-- `strings.LastIndex` of a byte, as the parts before and behind it.
unfoldable pub split_last : ℕ → Text → Option (Text × Text)
split_last sep [] = none
split_last sep (c ∷ s) =
    let rest = split_last sep s in
    elim rest [ some (a, b) ↦ some (c ∷ a, b) | none ↦ ite (ℕ_discrete c sep) (some ([], s)) none ]

-- The service and the method that `findService` finds.
unfoldable pub find_service : Server → Text → Outcome (Service × MethodType)
find_service s service_method = elim (split_last 46 service_method) [
  | none ↦ err (text "rpc server: service method request ill-formed: " ++ service_method)
  | some (service_name, method_name) ↦ elim (lookup text_dec service_name s.service_map) [
    | none ↦ err (text "rpc server: can not find service: " ++ service_name)
    | some svc ↦ elim (lookup text_dec method_name svc.method) [
      | none ↦ err (text "rpc server: can not find method: " ++ method_name)
      | some m_type ↦ ok (svc, m_type)
    ]
  ]
]

-- `newReplyv`: `Elem` of a type without elements panics.
unfoldable pub new_replyv : MethodType → Outcome (Unit {0})
new_replyv m =
    if m.reply_type.has_elem then ok tt else panics (text "reflect: Elem of invalid type")

-- The counter in `service.call`.
unfoldable pub count_call : MethodType → MethodType
count_call m = record m { num_calls = (m.num_calls + 1) % 2 ^ 64 }

-- `service.call` of the method under two names: `findService` gives pointers into the maps, so the
-- call is counted there, and then the method runs; `run` is `Func.Call`.
unfoldable pub call :
    {A B : Type 0} → (Method → A → Outcome B) → Text → Text → Server → A → Server × Outcome B
call run service_name method_name s argv = elim (lookup text_dec service_name s.service_map) [
  | none ↦ (s, panics (text "nil pointer dereference"))
  | some svc ↦ elim (lookup text_dec method_name svc.method) [
    | none ↦ (s, panics (text "nil pointer dereference"))
    | some m ↦
        (let svc' : Service = record svc {
          method = insert text_dec method_name (count_call m) svc.method;
        } in
          (
            record s { service_map = insert text_dec service_name svc' s.service_map },
            run m.method argv,
          ))
  ]
]
