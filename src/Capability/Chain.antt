-- ===== src/Capability/Chain.antt =====
-- connector-lib/capability/chain.go and signingKey of capability.go: the key that must have signed
-- a capability.
pub mod Agreement
use traversal_connector.Common.{
  ℕ, ◌+◌, Bool, true, false, not, ◌&&◌, ◌||◌, Option, none, some, List, [], ◌∷◌, ◌++◌, ltb, leb,
  ◌==◌, if◌then◌else◌, length, all, Text, codes, cut_prefix, ◌≡◌,
}
use traversal_connector.Common.Int.{ℤ}
use traversal_connector.Jws.{Header}
use traversal_connector.RawPipe.{
  Reason, invalid_capability, Result, ok, err, ◌>>=◌, ◌>>◌, refuse_if, or_refuse,
}
use traversal_connector.Capability.{issuer_prefix}

-- What the code takes of crypto/x509, crypto/ecdsa and encoding/base64. `p256_key` is the public
-- key of a certificate if it is an ECDSA key on P-256, and `verify` is Certificate.Verify with the
-- roots, the intermediates, the DNS name, the time, and the code-signing key usage.
pub record X509 (Key : Type 0) : Type 1 where
  pub Cert : Type 0
  pub Pool : Type 0
  pub base64_strict : Text → Option Text
  pub parse_certificate : Text → Option Cert
  pub is_ca : Cert → Bool
  pub digital_signature : Cert → Bool
  pub ip_addresses : Cert → ℕ
  pub p256_key : Cert → Option Key
  pub uris : Cert → List Text
  pub verify : Pool → List Cert → Text → ℤ → Cert → Bool
  pub equal : Key → Key → Bool
  pub equal_sound : (a b : Key) → equal a b ≡ true → a ≡ b

abbrev pub issuer_uri_prefix : Text
issuer_uri_prefix = codes "spiffe://traversal.com/capability-issuer/"

abbrev pub max_chain_certs : ℕ
max_chain_certs = 2

abbrev pub max_chain_bytes : ℕ
max_chain_bytes = 1536

abbrev pub is_env_byte : ℕ → Bool
is_env_byte c = leb b'a' c && leb c b'z' || leb b'0' c && leb c b'9' || c == b'-'

unfoldable pub valid_environment : Text → Bool
valid_environment [] = false
valid_environment (c ∷ s) = not (ltb 32 (length (c ∷ s)) || c == b'-') && all is_env_byte (c ∷ s)

-- The fields of a Verifier that say whom it trusts: the keys by kid, the roots with the controller
-- host, and the issuer that goes with the keys.
pub record Trust (Key Pool : Type 0) : Type 0 where
  pub keys : Text → Option Key
  pub chains : Option (Pool × Text)
  pub issuer : Text

module _ {Key : Type 0} (x509 : X509 Key) where
  open x509 use {
    Cert, Pool, base64_strict, parse_certificate, is_ca, digital_signature, ip_addresses, p256_key,
    uris,
  }

  decode_cert : ℕ → Option Text → Result (ℕ × Cert)
  decode_cert total none = err invalid_capability
  decode_cert total (some der) = do
    refuse_if (ltb max_chain_bytes (total + length der)) invalid_capability
    cert ← or_refuse (parse_certificate der) invalid_capability
    ok (total + length der, cert)

  chain_from : ℕ → List Text → Result (List Cert)
  unfolding decode_cert
  chain_from total [] = ok []
  chain_from total (e ∷ es) = do
    (size, cert) ← decode_cert total (base64_strict e)
    certs ← chain_from size es
    ok (cert ∷ certs)

  unfoldable pub parse_chain : List Text → Result (List Cert)
  unfolding chain_from
  parse_chain x5c = do
    refuse_if (length x5c == 0 || ltb max_chain_certs (length x5c)) invalid_capability
    chain_from 0 x5c

  issuer_of : List Text → Result Text
  issuer_of (uri ∷ []) = do
    env ← or_refuse (cut_prefix uri issuer_uri_prefix) invalid_capability
    refuse_if (not (valid_environment env)) invalid_capability
    ok (issuer_prefix ++ env)
  issuer_of _ = err invalid_capability

  unfoldable pub check_environment_certificate : List Cert → Pool → Text → ℤ → Result (Key × Text)
  unfolding issuer_of
  check_environment_certificate [] roots host now = err invalid_capability
  check_environment_certificate (leaf ∷ intermediates) roots host now = do
    refuse_if (not (x509.verify roots intermediates host now leaf)) invalid_capability
    refuse_if (is_ca leaf || not (digital_signature leaf) || not (ip_addresses leaf == 0))
        invalid_capability
    key ← or_refuse (p256_key leaf) invalid_capability
    issuer ← issuer_of (uris leaf)
    ok (key, issuer)

  conflicts : Option Key → Key → Bool
  conflicts none key = false
  conflicts (some pinned) key = not (x509.equal pinned key)

  chained_key : List Text → Pool → Text → Option Key → ℤ → Result (Key × Text)
  unfolding conflicts
  chained_key x5c roots host pinned now = do
    certs ← parse_chain x5c
    (key, issuer) ← check_environment_certificate certs roots host now
    refuse_if (conflicts pinned key) invalid_capability
    ok (key, issuer)

  select_key :
      Option (List Text) → Option (Pool × Text) → Option Key → Text → ℤ → Result (Key × Text)
  unfolding chained_key
  select_key (some x5c) (some (roots, host)) pinned issuer now =
      chained_key x5c roots host pinned now
  select_key _ _ (some key) issuer now = ok (key, issuer)
  select_key _ _ none issuer now = err invalid_capability

  unfoldable pub signing_key : Trust Key Pool → Header → ℤ → Result (Key × Text)
  unfolding select_key
  signing_key t h now = select_key h.x5c t.chains (t.keys h.kid) t.issuer now
