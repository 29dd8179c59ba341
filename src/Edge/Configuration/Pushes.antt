-- ===== src/Edge/Configuration/Pushes.antt =====
-- What a sequence of configuration pushes leaves behind.
use libcfd.Prelude.{
  [], ◌≡◌, ◌≢◌, ◌↔◌, refl, ap, ◌∙◌, String, Bool, List, ◌∷◌, ◌++◌, inl, inr, Result, ok, err,
  Result-cases, if◌then◌else◌, arith, Bytes, append_assoc, append-nil, map, Bool-cases, str_append,
  char_count, str_eq,
}
use text.Mathlib.TextLemmas.{length-append as length-append_text}
use libcfd.Prelude.Int.{ℤ, negsuc}
use libcfd.Edge.Configuration.{
  IngressRule, RemoteConfiguration, collect_rules, EdgeConfigurationHandler, new,
  parse_remote_configuration, update_configuration,
}

-- The rules that route a hostname.
abbrev pub routed : List IngressRule → List IngressRule
routed [] = []
routed (rule ∷ rules) = if str_eq rule.hostname "" then routed rules else rule ∷ routed rules

collect_rules-routed :
    (rules : List IngressRule) (hostnames services : List String)
    → collect_rules rules hostnames services ≡ (
      hostnames ++ map (λ r. r.hostname) (routed rules),
      services ++ map (λ r. r.service) (routed rules),
    )
unfolding collect_rules
collect_rules-routed [] hostnames services = rw (append-nil, append-nil)
collect_rules-routed (rule ∷ rules) hostnames services =
    elim (Bool-cases (str_eq rule.hostname "")) [
      | inl e ↦ rw e (collect_rules-routed rules hostnames services)
      | inr e ↦ rw e (
          collect_rules-routed rules (hostnames ++ rule.hostname ∷ [])
            (services ++ rule.service ∷ [])
          ∙ simp append_assoc)
    ]

str_append-ne-nil : (e : String) → str_append "config is not valid JSON: " e ≢ ""
str_append-ne-nil e h =
    omega (arith, length-append_text "config is not valid JSON: " e, ap char_count h)

module _ (parse_json : Bytes → Result String (List IngressRule)) where
  -- A parsed configuration has exactly the ingress rules with a hostname, in order: their
  -- hostnames and, place by place, their services. Rules without a hostname are left out.
  pub parse_remote_configuration-routed :
      (version : ℤ) (configuration : Bytes) (rules : List IngressRule)
      → parse_json configuration ≡ ok rules
      → parse_remote_configuration parse_json version configuration
        ≡ ok (record {
          version = version;
          hostnames = map (λ r. r.hostname) (routed rules);
          services = map (λ r. r.service) (routed rules);
        })
  unfolding parse_remote_configuration
  parse_remote_configuration-routed version configuration rules e =
      rw (e, parse_remote_configuration) (rw collect_rules-routed)

  -- The answer to a push names the version that is applied after it, and its error is empty
  -- exactly when the pushed JSON could be read.
  update_configuration-response :
      (h : EdgeConfigurationHandler) (version : ℤ) (configuration : Bytes)
      → let (response, h') = update_configuration parse_json h version configuration in
        (response.latest_applied_version ≡ h'.applied)
        × ((response.error ≡ "")
            ↔ ((rules : List IngressRule) × (parse_json configuration ≡ ok rules)))
  unfolding update_configuration parse_remote_configuration
  update_configuration-response h version configuration =
      elim (Result-cases (parse_json configuration)) [
        | inl (rules, e) ↦
            rw (e, update_configuration, parse_remote_configuration)
              (refl, (λ _. (rules, refl), λ _. refl))
        | inr (x, e) ↦
            rw (e, update_configuration, parse_remote_configuration)
              (refl, (λ k. absurd (str_append-ne-nil x k), λ k. cc (k.1)))
      ]

  -- The pushes of a connection, one after another.
  pub push_all : EdgeConfigurationHandler → List (ℤ × Bytes) → EdgeConfigurationHandler
  push_all h [] = h
  push_all h ((version, configuration) ∷ pushes) =
      push_all (update_configuration parse_json h version configuration).1 pushes

-- The configurations of the pushes whose JSON can be read, in order.
abbrev pub readable :
    (Bytes → Result String (List IngressRule)) → List (ℤ × Bytes) → List RemoteConfiguration
readable parse_json [] = []
readable parse_json ((version, configuration) ∷ pushes) =
    let rest = readable parse_json pushes in
    elim (parse_json configuration) [
      | err e ↦ rest
      | ok rules ↦
          record {
            version = version;
            hostnames = map (λ r. r.hostname) (routed rules);
            services = map (λ r. r.service) (routed rules);
          }
          ∷ rest
    ]

abbrev pub last_version : ℤ → List RemoteConfiguration → ℤ
last_version v [] = v
last_version v (remote ∷ rest) = last_version remote.version rest

module _ (parse_json : Bytes → Result String (List IngressRule)) where
  update_configuration-ok :
      (h : EdgeConfigurationHandler) (version : ℤ) (configuration : Bytes)
      (rules : List IngressRule)
      → parse_json configuration ≡ ok rules
      → (update_configuration parse_json h version configuration).1 ≡ record h {
        applied = version;
        delivered =
            if h.has_callback
            then h.delivered ++ readable parse_json ((version, configuration) ∷ [])
            else h.delivered;
      }
  unfolding update_configuration
  update_configuration-ok h version configuration rules e =
      rw (parse_remote_configuration-routed parse_json version configuration rules e)
        (rw (e, readable))

  update_configuration-err :
      (h : EdgeConfigurationHandler) (version : ℤ) (configuration : Bytes) (x : String)
      → parse_json configuration ≡ err x
      → (update_configuration parse_json h version configuration).1 ≡ h
  unfolding update_configuration parse_remote_configuration
  update_configuration-err h version configuration x e =
      rw (e, update_configuration, parse_remote_configuration)

  push_all-from :
      (pushes : List (ℤ × Bytes)) (h : EdgeConfigurationHandler)
      → push_all parse_json h pushes ≡ record h {
        applied = last_version h.applied (readable parse_json pushes);
        delivered =
            if h.has_callback then h.delivered ++ readable parse_json pushes else h.delivered;
      }
  unfolding push_all
  push_all-from [] h = ground (arith, append-nil h.delivered)
  push_all-from ((version, configuration) ∷ pushes) h =
      elim (Result-cases (parse_json configuration)) [
        | inl (rules, e) ↦ ground (
          arith,
          e,
          update_configuration-ok h version configuration rules e,
          push_all-from pushes (update_configuration parse_json h version configuration).1,
          append_assoc h.delivered (readable parse_json ((version, configuration) ∷ []))
              (readable parse_json pushes),
        )
        | inr (x, e) ↦
            ground (
              arith,
              e,
              update_configuration-err h version configuration x e,
              push_all-from pushes h,
            )
      ]

  -- After any pushes on a new connection the applied version is that of the last one whose JSON
  -- can be read, or -1 without one, and the callback, if there is one, was called with each
  -- readable configuration once, in order, and with nothing else.
  pub push_all-new :
      (has_callback : Bool) (pushes : List (ℤ × Bytes))
      → let h = push_all parse_json (new has_callback) pushes in
        (h.applied ≡ last_version (negsuc 0) (readable parse_json pushes))
        × (h.delivered ≡ (if has_callback then readable parse_json pushes else []))
  unfolding new
  push_all-new has_callback pushes =
      rw
        (push_all-from pushes
          (record { has_callback = has_callback; applied = negsuc 0; delivered = [] }))
        (refl, refl)
