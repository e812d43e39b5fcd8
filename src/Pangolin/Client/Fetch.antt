-- ===== src/Pangolin/Client/Fetch.antt =====
-- client.rs: what a poll that succeeds has received.
use pangolin_gateway_api.Prelude.{
  ℕ, ◌≤◌, ◌≡◌, ◌≢◌, refl, sym, ap, subst, ◌∙◌, true, List, [], Option, none, some, arith, ◌==◌, ltb,
  Bool-cases, inl, inr, length, or_value, Text,
}
use pangolin_gateway_api.Pangolin.Types.{TraefikDynamicConfig}
use pangolin_gateway_api.Pangolin.Client.{
  ChangedConfig, not_modified, changed, FetchResult, fetched, failed, panicked, Client,
  HttpResponse, Endpoint, truncate, is_success, reported, request_headers, decoded_body, read_body,
  measured, received, fetch,
}
use pangolin_gateway_api.Pangolin.Client.Truncate.{truncate-IsTruncated}

module _ {V : Type 0} (e : Endpoint V) (client : Client) where
  -- The response and the body that a configuration comes from.
  pub record IsReceived (last_etag : Option Text) (c : ChangedConfig V) : Type 0 where
    pub resp : HttpResponse
    pub sent : e.send client.endpoint (request_headers client last_etag) ≡ some resp
    pub success : is_success resp.status ≡ true
    pub raw : List ℕ
    pub body : resp.bytes ≡ some raw
    pub within : length raw ≤ client.max_body_bytes
    pub decoded : e.decode raw ≡ some c.config
    pub digest : c.digest ≡ e.sha256_hex raw
    pub etag : c.etag ≡ resp.etag

  -- A result that is no panic, and whose configuration was received.
  abbrev IsSound : Option Text → FetchResult V → Type 0
  IsSound tag (fetched not_modified) = Unit {0}
  IsSound tag (fetched (changed c)) = IsReceived tag c
  IsSound tag (failed why) = Unit {0}
  IsSound tag panicked = ⊥

  module _ (tag : Option Text) (resp : HttpResponse)
      (sent : e.send client.endpoint (request_headers client tag) ≡ some resp)
      (success : is_success resp.status ≡ true) where
    decoded_body-IsSound :
        (raw : List ℕ) (config : Option (TraefikDynamicConfig V))
        → resp.bytes ≡ some raw
        → length raw ≤ client.max_body_bytes
        → e.decode raw ≡ config
        → IsSound tag (decoded_body e client resp raw config)
    unfolding decoded_body
    decoded_body-IsSound raw none b h d = tt
    decoded_body-IsSound raw (some config) b h d = record {
      resp = resp;
      sent = sent;
      success = success;
      raw = raw;
      body = b;
      within = h;
      decoded = d;
      digest = refl;
      etag = refl;
    }

    read_body-IsSound :
        (bytes : Option (List ℕ)) → resp.bytes ≡ bytes → IsSound tag (read_body e client resp bytes)
    unfolding read_body
    read_body-IsSound none b = tt
    read_body-IsSound (some raw) b = elim (Bool-cases (ltb client.max_body_bytes (length raw))) [
      | inl q ↦ rw q tt
      | inr q ↦ rw q (decoded_body-IsSound raw (e.decode raw) b (ground arith) refl)
    ]

    measured-IsSound : (len : Option ℕ) → IsSound tag (measured e client resp len)
    unfolding measured
    measured-IsSound none = read_body-IsSound resp.bytes refl
    measured-IsSound (some len) = elim (Bool-cases (ltb client.max_body_bytes len)) [
      | inl q ↦ rw q tt
      | inr q ↦ rw q (read_body-IsSound resp.bytes refl)
    ]

  reported-IsSound :
      (tag : Option Text) (status : ℕ) (body : Text)
      → IsSound tag (reported status (truncate body 512))
  unfolding reported
  reported-IsSound tag status body =
      let (t, there, _) = truncate-IsTruncated body 512 in rw there tt

  received-IsSound :
      (tag : Option Text) (reply : Option HttpResponse)
      → e.send client.endpoint (request_headers client tag) ≡ reply
      → IsSound tag (received e client reply)
  unfolding received
  received-IsSound tag none s = tt
  received-IsSound tag (some resp) s = elim (Bool-cases (resp.status == 304)) [
    | inl p ↦ rw p tt
    | inr p ↦ elim (Bool-cases (is_success resp.status)) [
      | inl q ↦ rw (p, q) (measured-IsSound tag resp s q resp.content_length)
      | inr q ↦ rw (p, q) (reported-IsSound tag resp.status (or_value resp.text []))
    ]
  ]

  fetch-IsSound : (tag : Option Text) → IsSound tag (fetch e client tag)
  unfolding fetch
  fetch-IsSound tag = received-IsSound tag _ refl

  -- A configuration that a poll returns was decoded from the body of a successful response, which is
  -- at most as long as the settings allow; the digest is that body's.
  pub fetch-IsReceived :
      (tag : Option Text) (c : ChangedConfig V)
      → fetch e client tag ≡ fetched (changed c)
      → IsReceived tag c
  fetch-IsReceived tag c h = subst (IsSound tag) h (fetch-IsSound tag)

  -- A poll never panics, whatever the response.
  fetch-ne-panicked : (tag : Option Text) → fetch e client tag ≢ panicked
  fetch-ne-panicked tag h = subst (IsSound tag) h (fetch-IsSound tag)

  -- Configurations with the same digest are the same, as far as their bodies do not collide under
  -- SHA-256: the loop may skip one whose digest is the last one's.
  fetch-same_config :
      (no_collision : (a b : List ℕ) → e.sha256_hex a ≡ e.sha256_hex b → a ≡ b)
      (tag last_tag : Option Text) (c last : ChangedConfig V)
      → fetch e client last_tag ≡ fetched (changed last)
      → fetch e client tag ≡ fetched (changed c)
      → c.digest ≡ last.digest
      → c.config ≡ last.config
  fetch-same_config no_collision tag last_tag c last h k same =
      let r = fetch-IsReceived tag c k in
      let l = fetch-IsReceived last_tag last h in
      let bodies : r.raw ≡ l.raw = no_collision r.raw l.raw (sym r.digest ∙ same ∙ l.digest) in
      injective (sym r.decoded ∙ ap e.decode bodies ∙ l.decoded)
    where
      injective : {a b : TraefikDynamicConfig V} → some a ≡ some b → a ≡ b
      injective q = cc
