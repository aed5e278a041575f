-- ===== src/Capability/Tests.antt =====
-- Witnesses of the theorems on capabilities, at a verifier with one pinned key.
use traversal_connector.Common.{
  ℕ, ◌≤◌, ◌≡◌, refl, none, some, List, [], ◌∷◌, arith, Text, codes, text_eq, has_prefix, cut_prefix,
}
use traversal_connector.Common.Int.{ℤ, pos, ◌+ℤ◌, ◌-ℤ◌}
use traversal_connector.Hostname.{is_canonical, canonical}
use traversal_connector.Jws
use traversal_connector.RawPipe.{ok, err, wrong_connector}
use traversal_connector.Capability.{Claims, valid, bad_window}
use traversal_connector.Capability.Chain.{
  Trust, signing_key, parse_chain, check_environment_certificate, valid_environment,
}
use traversal_connector.Capability.Chain.Agreement.{
  signing_key_agrees, check_environment_certificate_sound, IsCertified,
}
use traversal_connector.Capability.Opens.{
  Opens, no_opens, take, max_opens, prune, prune_from, count_open,
}
use traversal_connector.Capability.Opens.Pruned.{Live, Tracked}
use traversal_connector.Capability.JtiHeap.Forgets.{take_forgets}
use traversal_connector.Capability.Verify.{heap_of, Verifier, verify, authorize, parse, check}
use traversal_connector.Capability.Verify.Sound.{IsAuthentic, IsFor, verify_sound, verify_refused}
use traversal_connector.Capability.Verify.Opened.{Attempt, opened, opened-le-max_opens}
use traversal_connector.Capability.JtiHeap.Heaped.{jti_heap}
use traversal_connector.Capability.Sample.{
  sample_heap, sample_container, sample_claims, sample_x509, sample_library,
}

abbrev verifier : Verifier sample_library
unfolding sample_library
verifier = record {
  trust = record {
    keys = λ kid. some 7;
    chains = none;
    issuer = codes "traversal-raw-tunnel/prod";
  };
  subject = codes "integration-proxy";
}

abbrev token : Text
token = codes "h.p.s"

abbrev db : Text
db = codes "db.internal"

-- Second 200.
abbrev at_200 : ℤ
at_200 = pos 200_000_000_000

authorized : authorize sample_library verifier token (codes "c1") db 5432 at_200 ≡ ok sample_claims
unfolding authorize parse check sample_library Jws.parse Jws.parts Jws.decode_segment Jws.decode_raw
    Jws.decode_object Jws.is_present Jws.is_named Jws.folded_unique Jws.folded_from Jws.verify
    Jws.signed Jws.after_dot signing_key valid bad_window is_canonical canonical text_eq has_prefix
    cut_prefix ◌+ℤ◌ ◌-ℤ◌
authorized = refl

abbrev start : Opens sample_heap
start = no_opens sample_heap

verified :
    verify sample_library verifier token
      (codes "c1")
      db
      5432
      at_200
      (no_opens (heap_of sample_library))
    ≡ (
      (verify sample_library verifier token
          (codes "c1")
          db
          5432
          at_200
          (no_opens (heap_of sample_library))).0,
      ok sample_claims,
    )
unfolding verify take sample_library prune prune_from count_open text_eq jti_heap sample_container
verified = rw (authorized, verify)

verify_sound_example :
    (issuer : Text) × IsAuthentic sample_library verifier token at_200 sample_claims issuer
    × IsFor sample_library verifier sample_claims issuer (codes "c1") db 5432 at_200
verify_sound_example =
    verify_sound sample_library verifier token (codes "c1") db 5432 at_200
      (no_opens (heap_of sample_library)) _ sample_claims verified

misdirected :
    authorize sample_library verifier token (codes "c2") db 5432 at_200 ≡ err wrong_connector
unfolding authorize parse check sample_library Jws.parse Jws.parts Jws.decode_segment Jws.decode_raw
    Jws.decode_object Jws.is_present Jws.is_named Jws.folded_unique Jws.folded_from Jws.verify
    Jws.signed Jws.after_dot signing_key valid bad_window is_canonical canonical text_eq has_prefix
    cut_prefix ◌+ℤ◌ ◌-ℤ◌
misdirected = refl

misdirected_verify :
    verify sample_library verifier token
      (codes "c2")
      db
      5432
      at_200
      (no_opens (heap_of sample_library))
    ≡ (no_opens (heap_of sample_library), err wrong_connector)
unfolding verify
misdirected_verify = rw (misdirected, verify)

verify_refused_example :
    (no_opens (heap_of sample_library) ≡ no_opens (heap_of sample_library))
    × (authorize sample_library verifier token (codes "c2") db 5432 at_200 ≡ err wrong_connector)
verify_refused_example =
    verify_refused sample_library verifier token (codes "c2") db 5432 at_200
      (no_opens (heap_of sample_library)) (no_opens (heap_of sample_library)) wrong_connector
      misdirected_verify (λ e. cc)

abbrev try : Attempt
try = record { token = token; connector = codes "c1"; host = db; port = 5432; now = at_200 }

abbrev tries : List Attempt
tries = try ∷ try ∷ try ∷ try ∷ try ∷ []

try_expires :
    (c : Claims)
    → authorize sample_library verifier token (codes "c1") db 5432 at_200 ≡ ok c
    → c.jti ≡ codes "j1"
    → c.expires_at ≡ pos 400
try_expires c e j = ground (arith, authorized)

opened-le-max_opens_example :
    opened sample_library verifier (codes "j1") tries (no_opens (heap_of sample_library))
    ≤ max_opens
opened-le-max_opens_example =
    opened-le-max_opens sample_library verifier (codes "j1") (pos 400) (pos 0) tries (omega arith)
      (try_expires, (try_expires, (try_expires, (try_expires, (try_expires, tt)))))

take_forgets_example :
    Tracked sample_heap (take sample_heap (codes "j1") (pos 430) (pos 200) (no_opens sample_heap)).0
    × Live sample_heap
        (pos 200)
        (take sample_heap (codes "j1") (pos 430) (pos 200) (no_opens sample_heap)).0
take_forgets_example =
    take_forgets sample_container (codes "j1") (pos 430) (pos 200) (no_opens sample_heap)
      (omega arith) (λ k _. refl)

abbrev pins : Trust ℕ ℕ
pins = record { keys = λ kid. some 8; chains = none; issuer = codes "traversal-raw-tunnel/prod" }

abbrev pins_and_roots : Trust ℕ ℕ
pins_and_roots = record pins { chains = some (0, codes "controller.internal") }

abbrev chained : Jws.Header
chained = record {
  alg = codes "ES256";
  typ = codes "traversal-capability+jwt";
  kid = codes "k1";
  x5c = some (codes "prod" ∷ []);
}

signing_key_agrees_example : ◌≡◌ {A = ℕ} 8 8
unfolding signing_key parse_chain check_environment_certificate valid_environment cut_prefix
signing_key_agrees_example =
    signing_key_agrees sample_x509 pins pins_and_roots chained (pos 0) 8 8
      (codes "traversal-raw-tunnel/prod") (codes "traversal-raw-tunnel/prod") refl refl refl refl

check_environment_certificate_sound_example :
    IsCertified sample_x509 0
      (codes "controller.internal")
      (pos 0)
      (codes "prod" ∷ [])
      8
      (codes "traversal-raw-tunnel/prod")
unfolding check_environment_certificate valid_environment cut_prefix
check_environment_certificate_sound_example =
    check_environment_certificate_sound sample_x509 (codes "prod" ∷ []) 0
      (codes "controller.internal") (pos 0) 8 (codes "traversal-raw-tunnel/prod") refl
