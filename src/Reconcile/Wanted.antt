-- ===== src/Reconcile/Wanted.antt =====
-- reconcile.rs: which objects are desired, and which names stay, by the map of their kind.
use pangolin_gateway_api.Prelude.{
  ◌≡◌, ◌⊎◌, refl, Bool, List, [], ◌∷◌, ◌++◌, some, inl, inr, ap, map, Text, All, All-append, IsIn,
  IsIn-append_left, is_some,
}
use Prim.Native.Nat.{Ordering}
use pangolin_gateway_api.BTreeMap.{BTreeMap, text_ord, get, contains_key, values, compare_text}
use pangolin_gateway_api.Kube.Api.{
  Kind, http_route, listener_set, service, endpoint_slice, envoy_backend, tcp_route, udp_route,
  security_policy, backend_tls_policy, Object, http_route_object, listener_set_object,
  service_object, endpoint_slice_object, envoy_backend_object, tcp_route_object, udp_route_object,
  security_policy_object, backend_tls_policy_object,
}
use pangolin_gateway_api.Transform.Desired.{Desired}
use pangolin_gateway_api.Reconcile.{name_set, names_of, apply_order}

-- The object stands in the map of its kind.
abbrev pub IsDesired : Desired → Object → Type 0
IsDesired desired (http_route_object o) = IsIn o (values desired.http_routes)
IsDesired desired (listener_set_object o) = IsIn o (values desired.listener_sets)
IsDesired desired (service_object o) = IsIn o (values desired.services)
IsDesired desired (endpoint_slice_object o) = IsIn o (values desired.endpoint_slices)
IsDesired desired (envoy_backend_object o) = IsIn o (values desired.envoy_backends)
IsDesired desired (tcp_route_object o) = IsIn o (values desired.tcp_routes)
IsDesired desired (udp_route_object o) = IsIn o (values desired.udp_routes)
IsDesired desired (security_policy_object o) = IsIn o (values desired.security_policies)
IsDesired desired (backend_tls_policy_object o) = IsIn o (values desired.backend_tls_policies)

-- The name is a key of the map of the kind.
abbrev pub has_name : Desired → Kind → Text → Bool
has_name desired http_route name = contains_key name desired.http_routes
has_name desired listener_set name = contains_key name desired.listener_sets
has_name desired service name = contains_key name desired.services
has_name desired endpoint_slice name = contains_key name desired.endpoint_slices
has_name desired envoy_backend name = contains_key name desired.envoy_backends
has_name desired tcp_route name = contains_key name desired.tcp_routes
has_name desired udp_route name = contains_key name desired.udp_routes
has_name desired security_policy name = contains_key name desired.security_policies
has_name desired backend_tls_policy name = contains_key name desired.backend_tls_policies

contains_key-name_set :
    {V : Type 0} (name : Text) (m : BTreeMap Text V)
    → contains_key name (name_set m) ≡ contains_key name m
unfolding get
contains_key-name_set name [] = refl
contains_key-name_set name ((k, v) ∷ m) = go (compare_text name k) (contains_key-name_set name m)
  where
    go :
        (o : Ordering)
        → contains_key name (name_set m) ≡ contains_key name m
        → is_some (elim o [ Ordering.eq ↦ some tt | _ ↦ get name (name_set m) ])
          ≡ is_some (elim o [ Ordering.eq ↦ some v | _ ↦ get name m ])
    go Ordering.eq h = refl
    go Ordering.lt h = h
    go Ordering.gt h = h

pub contains_key-names_of :
    (desired : Desired) (kind : Kind) (name : Text)
    → contains_key name (names_of kind desired) ≡ has_name desired kind name
contains_key-names_of desired http_route name = contains_key-name_set name desired.http_routes
contains_key-names_of desired listener_set name = contains_key-name_set name desired.listener_sets
contains_key-names_of desired service name = contains_key-name_set name desired.services
contains_key-names_of desired endpoint_slice name =
    contains_key-name_set name desired.endpoint_slices
contains_key-names_of desired envoy_backend name = contains_key-name_set name desired.envoy_backends
contains_key-names_of desired tcp_route name = contains_key-name_set name desired.tcp_routes
contains_key-names_of desired udp_route name = contains_key-name_set name desired.udp_routes
contains_key-names_of desired security_policy name =
    contains_key-name_set name desired.security_policies
contains_key-names_of desired backend_tls_policy name =
    contains_key-name_set name desired.backend_tls_policies

-- What is desired of one kind.
All-values :
    {A : Type 0} (P : Object → Type 0) (wrap : A → Object) (xs : List A)
    → ((a : A) → IsIn a xs → P (wrap a))
    → All P (map wrap xs)
All-values P wrap [] h = tt
All-values P wrap (a ∷ xs) h = (h a (inl refl), All-values P wrap xs (λ b m. h b (inr m)))

-- Only desired objects are applied.
pub apply_order-IsDesired : (desired : Desired) → All (IsDesired desired) (apply_order desired)
unfolding apply_order
apply_order-IsDesired d =
    let P = IsDesired d in
    All-append P _ _
      (All-append P _ _
        (All-append P _ _
          (All-append P _ _
            (All-append P _ _
              (All-append P _ _
                (All-append P _ _
                  (All-append P _ _ (All-values P service_object (values d.services) (λ o m. m))
                    (All-values P endpoint_slice_object (values d.endpoint_slices) (λ o m. m)))
                  (All-values P envoy_backend_object (values d.envoy_backends) (λ o m. m)))
                (All-values P backend_tls_policy_object (values d.backend_tls_policies) (λ o m. m)))
              (All-values P listener_set_object (values d.listener_sets) (λ o m. m)))
            (All-values P http_route_object (values d.http_routes) (λ o m. m)))
          (All-values P tcp_route_object (values d.tcp_routes) (λ o m. m)))
        (All-values P udp_route_object (values d.udp_routes) (λ o m. m)))
      (All-values P security_policy_object (values d.security_policies) (λ o m. m))

IsIn-map : {A B : Type 0} (f : A → B) (a : A) (xs : List A) → IsIn a xs → IsIn (f a) (map f xs)
IsIn-map f a [] m = absurd m
IsIn-map f a (x ∷ xs) (inl e) = inl (ap f e)
IsIn-map f a (x ∷ xs) (inr m) = inr (IsIn-map f a xs m)

IsIn-append_right : {A : Type 0} (a : A) (xs ys : List A) → IsIn a ys → IsIn a (xs ++ ys)
IsIn-append_right a [] ys m = m
IsIn-append_right a (x ∷ xs) ys m = inr (IsIn-append_right a xs ys m)

-- Groups of objects behind those that are there.
abbrev joined : List Object → List (List Object) → List Object
joined objs [] = objs
joined objs (group ∷ groups) = joined (objs ++ group) groups

joined-IsIn_first :
    (obj : Object) (objs : List Object) (groups : List (List Object))
    → IsIn obj objs
    → IsIn obj (joined objs groups)
joined-IsIn_first obj objs [] m = m
joined-IsIn_first obj objs (group ∷ groups) m =
    joined-IsIn_first obj (objs ++ group) groups (IsIn-append_left obj objs group m)

-- In one of the groups.
abbrev IsInOne : Object → List (List Object) → Type 0
IsInOne obj [] = ⊥
IsInOne obj (group ∷ groups) = IsIn obj group ⊎ IsInOne obj groups

joined-IsIn :
    (obj : Object) (objs : List Object) (groups : List (List Object))
    → IsInOne obj groups
    → IsIn obj (joined objs groups)
joined-IsIn obj objs [] m = absurd m
joined-IsIn obj objs (group ∷ groups) (inl m) =
    joined-IsIn_first obj (objs ++ group) groups (IsIn-append_right obj objs group m)
joined-IsIn obj objs (group ∷ groups) (inr m) = joined-IsIn obj (objs ++ group) groups m

abbrev later_groups : Desired → List (List Object)
later_groups d =
    map endpoint_slice_object (values d.endpoint_slices)
    ∷ map envoy_backend_object (values d.envoy_backends)
    ∷ map backend_tls_policy_object (values d.backend_tls_policies)
    ∷ map listener_set_object (values d.listener_sets)
    ∷ map http_route_object (values d.http_routes)
    ∷ map tcp_route_object (values d.tcp_routes)
    ∷ map udp_route_object (values d.udp_routes)
    ∷ map security_policy_object (values d.security_policies)
    ∷ []

later : (d : Desired) (obj : Object) → IsInOne obj (later_groups d) → IsIn obj (apply_order d)
unfolding apply_order
later d obj m = joined-IsIn obj (map service_object (values d.services)) (later_groups d) m

-- Every desired object is applied.
pub IsIn-apply_order :
    (desired : Desired) (obj : Object) → IsDesired desired obj → IsIn obj (apply_order desired)
unfolding apply_order
IsIn-apply_order d (service_object o) m =
    joined-IsIn_first (service_object o) (map service_object (values d.services)) (later_groups d)
      (IsIn-map service_object o (values d.services) m)
IsIn-apply_order d (endpoint_slice_object o) m =
    later d (endpoint_slice_object o)
      (inl (IsIn-map endpoint_slice_object o (values d.endpoint_slices) m))
IsIn-apply_order d (envoy_backend_object o) m =
    later d (envoy_backend_object o)
      (inr (inl (IsIn-map envoy_backend_object o (values d.envoy_backends) m)))
IsIn-apply_order d (backend_tls_policy_object o) m =
    later d (backend_tls_policy_object o)
      (inr (inr (inl (IsIn-map backend_tls_policy_object o (values d.backend_tls_policies) m))))
IsIn-apply_order d (listener_set_object o) m =
    later d (listener_set_object o)
      (inr (inr (inr (inl (IsIn-map listener_set_object o (values d.listener_sets) m)))))
IsIn-apply_order d (http_route_object o) m =
    later d (http_route_object o)
      (inr (inr (inr (inr (inl (IsIn-map http_route_object o (values d.http_routes) m))))))
IsIn-apply_order d (tcp_route_object o) m =
    later d (tcp_route_object o)
      (inr (inr (inr (inr (inr (inl (IsIn-map tcp_route_object o (values d.tcp_routes) m)))))))
IsIn-apply_order d (udp_route_object o) m =
    later d (udp_route_object o) (
      inr (inr (inr (inr (inr (inr (inl (IsIn-map udp_route_object o (values d.udp_routes) m))))))))
IsIn-apply_order d (security_policy_object o) m = later d (security_policy_object o) (
    inr (
      inr (
        inr (
          inr (
            inr (
              inr
                (inr (inl (IsIn-map security_policy_object o (values d.security_policies) m)))))))))
