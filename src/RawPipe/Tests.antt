-- ===== src/RawPipe/Tests.antt =====
-- Runs of the preface and of the identity check, at a sample of the UUID library.
use traversal_connector.Common.{
  ◌≡◌, refl, subst, true, ◌&&◌, Option, none, some, [], ◌∷◌, ◌++◌, ◌==◌, if◌then◌else◌, arith, ◌↔◌,
  Bool-cases, inl, inr, Text, codes, all, length, text_eq, join, split, cut_prefix,
}
use traversal_connector.RawPipe.Preface.{
  Hello, hello, is_connector_id, bounded_line, write_preface, read_preface,
}
use traversal_connector.RawPipe.Preface.RoundTrip.{Canonical, uuid_byte, read_preface-write_preface}
use traversal_connector.RawPipe.Identity.{check_identity, MayHold, check_identity-MayHold}

-- A library that takes canonical forms only.
abbrev sample_uuid : Text → Option Text
sample_uuid s = if all (uuid_byte (λ _. none)) s && length s == 36 then some s else none

the_same :
    (s t : Text)
    → (all (uuid_byte (λ _. none)) s && length s == 36) ≡ true
    → sample_uuid s ≡ some t
    → s ≡ t
the_same s t good e = ground arith

sample_uuid-Canonical : Canonical sample_uuid
sample_uuid-Canonical s t e = elim (Bool-cases (all (uuid_byte (λ _. none)) s && length s == 36)) [
  | inl good ↦
      subst (λ (x : Text). (all (uuid_byte (λ _. none)) x && length x == 36) ≡ true)
        (the_same s t good e) good
  | inr bad ↦ absurd (ground arith)
]

abbrev connector_one : Text
connector_one = codes "0f8fad5b-d9cb-469f-a165-70867728950e"

abbrev org_one : Text
org_one = codes "7c9e6679-7425-40de-944b-e07fc1f90ae7"

abbrev sample_hello : Hello
sample_hello = record {
  connector_id = connector_one;
  roots = codes "r1" ∷ codes "r2" ∷ [];
  kids = codes "k1" ∷ [];
}

abbrev sample_line : Text
sample_line =
    codes "TRAVERSAL-TUNNEL/1 0f8fad5b-d9cb-469f-a165-70867728950e roots=r1,r2 kids=k1" ++ 10 ∷ []

sample_line_test : write_preface sample_uuid sample_hello ≡ some sample_line
unfolding write_preface is_connector_id text_eq bounded_line join
sample_line_test = refl

read_preface-write_preface_example :
    read_preface sample_uuid (sample_line ++ codes "PRI * HTTP/2.0")
    ≡ hello sample_hello (codes "PRI * HTTP/2.0")
read_preface-write_preface_example =
    read_preface-write_preface sample_uuid sample_hello sample_line (codes "PRI * HTTP/2.0")
      sample_uuid-Canonical sample_line_test

abbrev sample_uri : Text
sample_uri =
    codes
      "spiffe://traversal.com/tenant/7c9e6679-7425-40de-944b-e07fc1f90ae7/acme/connector/0f8fad5b-d9cb-469f-a165-70867728950e"

check_identity-MayHold_example :
    (check_identity sample_uuid sample_uri connector_one ≡ none)
    ↔ MayHold sample_uuid sample_uri connector_one
check_identity-MayHold_example =
    check_identity-MayHold sample_uuid sample_uri connector_one sample_uuid-Canonical

own_connector_test : check_identity sample_uuid sample_uri connector_one ≡ none
unfolding check_identity is_connector_id text_eq cut_prefix split
own_connector_test = refl
