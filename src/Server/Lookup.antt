-- ===== src/Server/Lookup.antt =====
-- SuRPC/server.go and SuRPC/service.go: a method that is registered is found by its name.
use golang_frame_practice.Common.Assoc.{lookup-insert_self, lookup-insert_ne}
use golang_frame_practice.Common.Outcome.{ok}
use golang_frame_practice.Common.Strings.{IsFree}
use golang_frame_practice.Common.{
  ℕ, ◌≡◌, ◌≢◌, refl, sym, ◌∙◌, Bool, true, none, some, List, [], ◌∷◌, ◌++◌, lookup, Text, text_dec,
  arith, All, Option-cases, inl, inr,
}
use golang_frame_practice.Server.{
  Method, MethodType, Service, Server, suitable, register_methods, new_service, store_service,
  split_last, find_service,
}

split_last-free : (sep : ℕ) (s : Text) → IsFree sep s → split_last sep s ≡ none
unfolding split_last
split_last-free sep [] h = refl
split_last-free sep (c ∷ s) h = ground (arith, h.0, split_last-free sep s h.1)

split_last-append :
    (sep : ℕ) (a b : Text) → IsFree sep b → split_last sep (a ++ sep ∷ b) ≡ some (a, b)
unfolding split_last
split_last-append sep [] b h = ground (arith, split_last-free sep b h)
split_last-append sep (c ∷ a) b h = ground (arith, split_last-append sep a b h)

module _ (is_exported : Text → Bool) (error_type : ℕ) where
  -- Methods of other names leave an entry alone.
  register_methods-other :
      (k : Text) (methods : List Method) (kept : List (Text × MethodType))
      → All (λ (m : Method). m.name ≢ k) methods
      → lookup text_dec k (register_methods is_exported error_type methods kept)
        ≡ lookup text_dec k kept
  unfolding register_methods
  register_methods-other k [] kept h = refl
  register_methods-other k (m ∷ methods) kept h =
      register_methods-other k methods _ h.1
      ∙ elim (Option-cases (suitable is_exported error_type m)) [
        | inl e ↦ ground (arith, e)
        | inr (t, e) ↦
            ground (arith, e, lookup-insert_ne text_dec m.name k t kept (λ q. h.0 (sym q)))
      ]

  register_methods-kept :
      (pre post : List Method) (m : Method) (t : MethodType) (kept : List (Text × MethodType))
      → suitable is_exported error_type m ≡ some t
      → All (λ (x : Method). x.name ≢ m.name) post
      → lookup text_dec m.name (register_methods is_exported error_type (pre ++ m ∷ post) kept)
        ≡ some t
  unfolding register_methods
  register_methods-kept [] post m t kept e h =
      register_methods-other m.name post _ h
      ∙ ground (arith, e, lookup-insert_self text_dec m.name t kept)
  register_methods-kept (x ∷ pre) post m t kept e h = register_methods-kept pre post m t _ e h

  -- The service that `newService` makes of an exported type.
  abbrev pub service_of : Text → List Method → Service
  service_of name methods = record {
    name = name;
    method = register_methods is_exported error_type methods [];
  }

  new_service-ok :
      (name : Text) (methods : List Method)
      → is_exported name ≡ true
      → new_service is_exported error_type name methods ≡ ok (service_of name methods)
  unfolding new_service
  new_service-ok name methods e = ground (arith, e)

  -- A type with an exported name, registered on a server without a service of that name, with a
  -- suitable method of a name without dots that no later method has: `Register` succeeds, and the
  -- method is found by the two names with a dot between them.
  pub find_service-store_service :
      (s : Server) (name : Text) (pre post : List Method) (m : Method) (t : MethodType)
      → is_exported name ≡ true
      → suitable is_exported error_type m ≡ some t
      → All (λ (x : Method). x.name ≢ m.name) post
      → IsFree 46 m.name
      → lookup text_dec name s.service_map ≡ none
      → (svc : Service) × (new_service is_exported error_type name (pre ++ m ∷ post) ≡ ok svc)
        × ((store_service s svc).1 ≡ ok tt)
        × (find_service (store_service s svc).0 (name ++ 46 ∷ m.name) ≡ ok (svc, t))
  unfolding store_service find_service
  find_service-store_service s name pre post m t exported suits later free fresh =
      let svc : Service = service_of name (pre ++ m ∷ post) in
      (
        svc,
        new_service-ok name (pre ++ m ∷ post) exported,
        ground (arith, fresh),
        ground (
          arith,
          fresh,
          split_last-append 46 name m.name free,
          lookup-insert_self text_dec name svc s.service_map,
          register_methods-kept pre post m t [] suits later,
        ),
      )
