-- ===== src/RawPipe.antt =====
-- connector-lib/rawpipe/rawpipe.go: why an open was refused.
pub mod Preface
pub mod Identity
mod Tests
use traversal_connector.Common.{ℕ, ◌≡◌, refl, Bool, true, false, Option, none, some, Text}

-- A Reason is a string: one of the named ones, `other`, or any other that a peer sent.
pub data Reason : Type 0 where
  invalid_capability wrong_connector wrong_destination exhausted forbidden_address : Reason
  dns_failed dial_failed capacity draining protocol_error no_tunnel open_timeout : Reason
  redaction_unsupported upstream_failed other : Reason
  unnamed : Text → Reason

unfoldable pub known : Reason → Bool
known other = false
known (unnamed s) = false
known _ = true

unfoldable pub label : Reason → Reason
label other = other
label (unnamed s) = other
label r = r

unfoldable pub status : Reason → ℕ
status invalid_capability = 401
status dns_failed = 502
status dial_failed = 502
status redaction_unsupported = 502
status upstream_failed = 502
status capacity = 503
status draining = 503
status no_tunnel = 503
status open_timeout = 503
status protocol_error = 400
status _ = 403

-- A value, or a refusal: an *Error, of which the callers read the reason.
pub data Result {ℓ} (V : Type ℓ) : Type ℓ where
  err : Reason → Result V
  ok : V → Result V

-- The early return: what follows an error does not run.
infixl 5 ◌>>=◌ ◌>>◌
abbrev pub ◌>>=◌ {ℓ κ} : {V : Type ℓ} {W : Type κ} → Result V → (V → Result W) → Result W
err reason >>= next = err reason
ok v >>= next = next v

abbrev pub ◌>>◌ {ℓ} : {W : Type ℓ} → Result (Unit {0}) → Result W → Result W
first >> next = first >>= λ _. next

-- `refuse_if test reason` is a case of a switch that returns an error.
abbrev pub refuse_if : Bool → Reason → Result (Unit {0})
refuse_if true e = err e
refuse_if false e = ok tt

abbrev pub or_refuse {ℓ} : {A : Type ℓ} → Option A → Reason → Result A
or_refuse none e = err e
or_refuse (some a) e = ok a

-- What returns a value has not returned early.
pub >>=-eq-ok {ℓ κ} :
    {V : Type ℓ} {W : Type κ} (first : Result V) (next : V → Result W) {w : W}
    → (first >>= next) ≡ ok w
    → (v : V) × (first ≡ ok v) × (next v ≡ ok w)
>>=-eq-ok (err reason) next h = cc
>>=-eq-ok (ok v) next h = (v, refl, h)

pub refuse_if-ok : (b : Bool) (r : Reason) {u : Unit} → refuse_if b r ≡ ok u → b ≡ false
refuse_if-ok true r h = cc
refuse_if-ok false r h = refl

pub or_refuse-ok {ℓ} :
    {A : Type ℓ} (o : Option A) (r : Reason) {a : A} → or_refuse o r ≡ ok a → o ≡ some a
or_refuse-ok none r h = cc
or_refuse-ok (some a) r h = cc
