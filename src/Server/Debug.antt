-- ===== src/Server/Debug.antt =====
-- SuRPC/debug.go: the page of the services of a server and how often their methods were called.
use golang_frame_practice.Common.Assoc.{insert, lookup-insert}
use golang_frame_practice.Common.Outcome.{Outcome, ok, err}
use golang_frame_practice.Common.{
  ℕ, ◌+◌, ◌%◌, ◌^◌, ◌<◌, ◌≡◌, refl, sym, ap, ◌∙◌, inl, inr, Option, none, some, List, [], ◌∷◌, ◌++◌,
  lookup, length, Text, text, text_dec, arith, Option-cases, ite,
}
use golang_frame_practice.Server.{Method, MethodType, Service, Server, call, count_call}

pub record DebugService : Type 0 where
  pub name : Text
  pub method : List (Text × MethodType)

-- The loop of `ServeHTTP` over the services.
unfoldable pub debug_services : List (Text × Service) → List DebugService
debug_services [] = []
debug_services ((name, svc) ∷ m) = record { name = name; method = svc.method } ∷ debug_services m

-- `debugHTTP.ServeHTTP`: what is written. `execute` is the template's.
unfoldable pub debug_serve_http :
    (List DebugService → Text × Outcome (Unit {0})) → Server → Text × Outcome (Unit {0})
debug_serve_http execute s =
    let (w, r) = execute (debug_services s.service_map) in
    elim r [
      | err e ↦ (w ++ (text "rpc: error excuting template:  " ++ (e ++ 10 ∷ [])), ok tt)
      | o ↦ (w, o)
    ]

-- The calls that a page shows for a method.
unfoldable pub shown : Text → Text → List DebugService → Option ℕ
shown name method [] = none
shown name method (d ∷ page) = elim (text_dec d.name name) [
  | yes _ ↦ elim (lookup text_dec method d.method) [ none ↦ none | some m ↦ some m.num_calls ]
  | no _ ↦ shown name method page
]

-- What a page shows of one service.
abbrev shown_of : Text → Option Service → Option ℕ
shown_of method none = none
shown_of method (some svc) = elim (lookup text_dec method svc.method) [
  | none ↦ none
  | some m ↦ some m.num_calls
]

shown-debug_services :
    (name method : Text) (m : List (Text × Service))
    → shown name method (debug_services m) ≡ shown_of method (lookup text_dec name m)
unfolding shown debug_services lookup
shown-debug_services name method [] = refl
shown-debug_services name method ((n, svc) ∷ m) = ground (arith, shown-debug_services name method m)

-- The page of a server for a method.
abbrev pub page : Text → Text → Server → Option ℕ
page name method s = shown name method (debug_services s.service_map)

module _ {A B : Type 0} (run : Method → A → Outcome B) where
  -- Calls of one method, one behind the other.
  unfoldable pub call_all : Text → Text → List A → Server → Server
  call_all name method [] s = s
  call_all name method (a ∷ args) s = call_all name method args (call run name method s a).0

  -- What a call does when the method is there.
  call_found :
      (name method : Text) (s : Server) (a : A) (svc : Service) (m : MethodType)
      → lookup text_dec name s.service_map ≡ some svc
      → lookup text_dec method svc.method ≡ some m
      → (call run name method s a).0.service_map
        ≡ insert text_dec name
            (record svc { method = insert text_dec method (count_call m) svc.method })
            s.service_map
  unfolding call
  call_found name method s a svc m e f = ground (arith, e, f)

  page_found :
      (name method : Text) (s : Server) (n : ℕ)
      → page name method s ≡ some n
      → (svc : Service) × (m : MethodType) × (lookup text_dec name s.service_map ≡ some svc)
        × (lookup text_dec method svc.method ≡ some m)
        × (m.num_calls ≡ n)
  page_found name method s n h =
      let shows = sym (shown-debug_services name method s.service_map) ∙ h in
      elim (Option-cases (lookup text_dec name s.service_map)) [
        | inl e ↦ absurd (ground (arith, shows, e))
        | inr (svc, e) ↦ elim (Option-cases (lookup text_dec method svc.method)) [
          | inl f ↦ absurd (ground (arith, shows, e, f))
          | inr (m, f) ↦ (svc, m, e, f, ground (arith, shows, e, f))
        ]
      ]

  call-page :
      (name method name' method' : Text) (s : Server) (a : A) (n : ℕ)
      → page name method s ≡ some n
      → page name' method' (call run name method s a).0
        ≡ ite
            (text_dec name' name)
            (ite (text_dec method' method) (some ((n + 1) % 2 ^ 64)) (page name' method' s))
            (page name' method' s)
  unfolding count_call
  call-page name method name' method' s a n h =
      let (svc, m, e, f, c) = page_found name method s n h in
      let before = shown-debug_services name' method' s.service_map in
      let after =
        ap (λ l. shown name' method' (debug_services l)) (call_found name method s a svc m e f)
        ∙ shown-debug_services name' method' _ in
      let services =
        lookup-insert text_dec name name'
          (record svc { method = insert text_dec method (count_call m) svc.method })
          s.service_map in
      let methods = lookup-insert text_dec method method' (count_call m) svc.method in
      elim (text_dec name' name) [
        | yes p ↦ elim (text_dec method' method) [
          | yes q ↦ ground (arith, p, q, after, services, methods, c)
          | no q ↦ ground (
            arith,
            p,
            q,
            before,
            after,
            services,
            methods,
            ap (λ x. lookup text_dec x s.service_map) p,
            e,
          )
        ]
        | no p ↦ ground (arith, p, before, after, services)
      ]

  -- If the page of a server shows how often a method was called, a number of 64 bits, then after any
  -- number of calls of the method, however they end, the page shows so many more, modulo 2 ^ 64, and for
  -- every other method the same as before.
  pub call_all-page :
      (name method name' method' : Text) (args : List A) (s : Server) (n : ℕ)
      → page name method s ≡ some n
      → n < 2 ^ 64
      → page name' method' (call_all name method args s)
        ≡ ite
            (text_dec name' name)
            (ite
              (text_dec method' method)
              (some ((n + length args) % 2 ^ 64))
              (page name' method' s))
            (page name' method' s)
  unfolding call_all
  call_all-page name method name' method' [] s n h b = elim (text_dec name' name) [
    | yes p ↦ elim (text_dec method' method) [
      | yes q ↦
          let here = ap (λ x. page x method' s) p ∙ ap (λ x. page name x s) q ∙ h in
          ground (arith, p, q, here, b)
      | no q ↦ ground (arith, p, q)
    ]
    | no p ↦ ground (arith, p)
  ]
  call_all-page name method name' method' (a ∷ args) s n h b =
      let t : Server = (call run name method s a).0 in
      let self : page name method t ≡ some ((n + 1) % 2 ^ 64) =
        ground (arith, call-page name method name method s a n h) in
      let other = call-page name method name' method' s a n h in
      let rest =
        call_all-page name method name' method' args t ((n + 1) % 2 ^ 64) self (omega arith) in
      let sum : ((n + 1) % 2 ^ 64 + length args) % 2 ^ 64 ≡ (n + length (a ∷ args)) % 2 ^ 64 =
        omega arith in
      elim (text_dec name' name) [
        | yes p ↦ elim (text_dec method' method) [
          | yes q ↦ ground (arith, rest, sum)
          | no q ↦ ground (arith, rest, other)
        ]
        | no p ↦ ground (arith, rest, other)
      ]
