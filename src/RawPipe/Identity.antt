-- ===== src/RawPipe/Identity.antt =====
-- connector-lib/rawpipe/rawpipe.go: which connector a certificate may hold tunnels for.
use traversal_connector.Common.{
  true, false, not, ◌&&◌, Option, none, some, List, [], ◌∷◌, ◌++◌, if◌then◌else◌, ◌≡◌, refl, sym,
  ap, subst, ◌∙◌, ◌⊎◌, inl, inr, ◌↔◌, arith, Option-cases, all, length, ◌==◌, lacks, Text, codes,
  text_eq, text_eq_iff, text_eq_refl, is_empty, split, join, split-join, join-split, split-Lacks,
  cut_prefix, cut_prefix-append,
}
use traversal_connector.RawPipe.Preface.{is_connector_id}
use traversal_connector.RawPipe.Preface.RoundTrip.{Canonical, id_lacks, uuid_byte}

abbrev pub tenant_prefix : Text
tenant_prefix = codes "spiffe://traversal.com/tenant/"

-- What CheckIdentity refuses a certificate for.
pub data IdentityError : Type 0 where
  not_an_id not_a_tenant : IdentityError
  other_connector : Text → IdentityError

module _ (uuid : Text → Option Text) where
  -- The switch on the parts: the connector that the ID names, which is empty for an org-scoped one.
  unfoldable pub scope_of : List Text → Option Text
  scope_of (name ∷ []) = if not (is_empty name) then some [] else none
  scope_of (name ∷ word ∷ id ∷ []) =
      if not (is_empty name) && text_eq word (codes "connector") && is_connector_id uuid id
      then some id
      else none
  scope_of _ = none

  unfoldable pub tenant_parts : Text → List Text → Option (Text × Text)
  unfolding scope_of
  tenant_parts org others = elim (scope_of others) [
    | none ↦ none
    | some connector ↦ if is_connector_id uuid org then some (org, connector) else none
  ]

  unfoldable pub tenant_id : Text → Option (Text × Text)
  unfolding tenant_parts
  tenant_id uri = elim (cut_prefix uri tenant_prefix) [
    | none ↦ none
    | some rest ↦ let (org, others) = split b'/' rest in tenant_parts org others
  ]

  -- none is that the certificate may hold tunnels for the connector.
  unfoldable pub check_identity : Text → Text → Option IdentityError
  unfolding tenant_id
  check_identity uri id =
      if is_connector_id uuid id
      then elim (tenant_id uri) [
        | none ↦ some not_a_tenant
        | some (org, scoped) ↦
            if not (is_empty scoped) && not (text_eq scoped id)
            then some (other_connector scoped)
            else none
      ]
      else some not_an_id

  -- The two forms of an identity that may hold tunnels for a connector.
  pub record Named (id org name : Text) (others : List Text) : Type 0 where
    pub org_id : is_connector_id uuid org ≡ true
    pub plain : lacks b'/' name ≡ true
    pub name_given : is_empty name ≡ false
    pub form : (others ≡ []) ⊎ (others ≡ codes "connector" ∷ id ∷ [])

  abbrev pub MayHold : Text → Text → Type 0
  MayHold uri id =
      (is_connector_id uuid id ≡ true)
      × (org : Text) × (name : Text) × (others : List Text) × Named id org name others
      × (uri ≡ tenant_prefix ++ join b'/' org (name ∷ others))

  cut_prefix_complete : (p rest : Text) → cut_prefix (p ++ rest) p ≡ some rest
  unfolding cut_prefix
  cut_prefix_complete [] rest = refl
  cut_prefix_complete (c ∷ p) rest = ground (arith, cut_prefix_complete p rest)

  id_given : (id : Text) → Canonical uuid → is_connector_id uuid id ≡ true → is_empty id ≡ false
  unfolding is_connector_id
  id_given [] law e = elim (Option-cases (uuid [])) [
    | inl absent ↦ absurd (ground arith)
    | inr (t, found) ↦
        let same : t ≡ [] = (text_eq_iff t []).0 (ground arith) in
        let long = law [] t found in
        absurd (
          subst (λ (x : Text). (all (uuid_byte uuid) x && length x == 36) ≡ true → ⊥) (sym same)
            (λ h. cc) long)
  ]
  id_given (c ∷ id) law e = refl

  scope_of-form :
      (id org org' : Text) (parts : List Text) (scoped : Text)
      → Canonical uuid
      → all (lacks b'/') parts ≡ true
      → tenant_parts org parts ≡ some (org', scoped)
      → (not (is_empty scoped) && not (text_eq scoped id)) ≡ false
      → (name : Text) × (others : List Text) × Named id org name others × (parts ≡ name ∷ others)
  unfolding tenant_parts scope_of
  scope_of-form id org org' [] scoped law l e s = cc
  scope_of-form id org org' (name ∷ []) scoped law l e s = (
    name,
    [],
    record {
      org_id = ground arith;
      plain = ground arith;
      name_given = ground arith;
      form = inl refl;
    },
    refl,
  )
  scope_of-form id org org' (name ∷ word ∷ []) scoped law l e s = cc
  scope_of-form id org org' (name ∷ word ∷ x ∷ []) scoped law l e s =
      let is_id : is_connector_id uuid x ≡ true = ground arith in
      let scope : x ≡ scoped = ground arith in
      let same : x ≡ id = (text_eq_iff x id).0 (ground (arith, id_given x law is_id)) in
      let named : word ≡ codes "connector" =
        (text_eq_iff word (codes "connector")).0 (ground arith) in
      (
        name,
        word ∷ x ∷ [],
        record {
          org_id = ground arith;
          plain = ground arith;
          name_given = ground arith;
          form = inr (rw (named, same) refl);
        },
        refl,
      )
  scope_of-form id org org' (name ∷ word ∷ x ∷ y ∷ r) scoped law l e s = cc

  held : (uri id : Text) → Canonical uuid → check_identity uri id ≡ none → MayHold uri id
  unfolding check_identity tenant_id
  held uri id law e = elim (Option-cases (cut_prefix uri tenant_prefix)) [
    | inl missed ↦ absurd (ground arith)
    | inr (rest, found) ↦
        let org = (split b'/' rest).0 in
        let parts = (split b'/' rest).1 in
        elim (Option-cases (tenant_parts org parts)) [
          | inl refused ↦ absurd (ground arith)
          | inr ((org', scoped), read) ↦
              let lack = split-Lacks b'/' rest in
              let good : is_connector_id uuid id ≡ true = ground arith in
              let (name, others, n, same) =
                scope_of-form id org org' parts scoped law (ground arith) read (ground arith) in
              (
                good,
                org,
                name,
                others,
                n,
                cut_prefix-append uri tenant_prefix rest found
                    ∙ ap (λ (t : Text). tenant_prefix ++ t)
                        (sym (join-split b'/' rest) ∙ ap (join b'/' org) same),
              )
        ]
  ]

  scope_of_given :
      (id org name : Text) (others : List Text)
      → Canonical uuid
      → Named id org name others
      → is_connector_id uuid id ≡ true
      → (scoped : Text) × (tenant_parts org (name ∷ others) ≡ some (org, scoped))
        × (not (is_empty scoped) && not (text_eq scoped id)) ≡ false
  unfolding tenant_parts scope_of
  scope_of_given id org name others law n good =
      let org_id = n.org_id in
      let name_given = n.name_given in
      elim n.form [
        | inl e ↦ ([], rw (e) (ground arith), refl)
        | inr e ↦ (
          id,
          rw (e) (ground (arith, text_eq_refl (codes "connector"))),
          ground (arith, text_eq_refl id),
        )
      ]

  slashless :
      (id org name : Text) (others : List Text)
      → Canonical uuid
      → Named id org name others
      → is_connector_id uuid id ≡ true
      → all (lacks b'/') (name ∷ others) ≡ true
  slashless id org name others law n good =
      let plain = n.plain in
      elim n.form [
        | inl e ↦ rw (e) (ground arith)
        | inr e ↦ rw (e) (ground (arith, id_lacks uuid b'/' id law refl good))
      ]

  holds : (uri id : Text) → Canonical uuid → MayHold uri id → check_identity uri id ≡ none
  unfolding check_identity tenant_id
  holds uri id law (good, org, name, others, n, e) =
      let pieces : split b'/' (join b'/' org (name ∷ others)) ≡ (org, name ∷ others) =
        split-join b'/' org (name ∷ others) (id_lacks uuid b'/' org law refl n.org_id)
          (slashless id org name others law n good) in
      let (scoped, read, fits) = scope_of_given id org name others law n good in
      let found : cut_prefix uri tenant_prefix ≡ some (join b'/' org (name ∷ others)) =
        ap (λ (t : Text). cut_prefix t tenant_prefix) e
        ∙ cut_prefix_complete tenant_prefix (join b'/' org (name ∷ others)) in
      ground arith

  -- Exactly these identities pass CheckIdentity: a canonical connector ID, with a certificate for
  -- spiffe://traversal.com/tenant/<org>/<name>, or for that followed by /connector/ and the same ID,
  -- where <org> is canonical and <name> is not empty and has no slash; `Canonical` is that uuid.String
  -- gives 36 lower-case hex digits and hyphens.
  pub check_identity-MayHold :
      (uri id : Text) → Canonical uuid → (check_identity uri id ≡ none) ↔ MayHold uri id
  check_identity-MayHold uri id law = (held uri id law, holds uri id law)
