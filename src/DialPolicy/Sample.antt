-- ===== src/DialPolicy/Sample.antt =====
-- The policy of a host of no address and no setting, on which tests run.
use traversal_connector.Common.{
  ◌≡◌, refl, false, Option, none, some, [], ◌∷◌, ◌++◌, Bool, true, List, Text, codes, text_eq,
  has_suffix,
}
use traversal_connector.Hostname.{Addr, v4, unmap, absolute}
use traversal_connector.Hostname.Sample.{sample_std}
use traversal_connector.RawPipe.{ok}
use traversal_connector.DialPolicy.{
  ip4, in_v4, contains, forbidden_prefixes, forbidden, forbidden_name, carried, Config, Policy,
  add_extra, new, direct, resolve, destinations, plan_direct, plan_for, plan,
}

abbrev pub lookup : Text → Option (List Addr)
lookup host = some (v4 (ip4 10 0 0 9) ∷ v4 (ip4 8 8 4 4) ∷ [])

abbrev pub open_config : Config
open_config = record { proxy = none; proxy_resolves = false; extra_forbidden = [] }

abbrev pub open_policy : Policy
open_policy = record { config = open_config; deny = forbidden_prefixes }

pub open-new : new open_config (some []) ≡ some open_policy
unfolding new add_extra
open-new = refl

pub open-plan :
    plan sample_std lookup open_policy (codes "db") 443
    ≡ ok (direct (v4 (ip4 10 0 0 9) ∷ v4 (ip4 8 8 4 4) ∷ []) 443)
unfolding plan plan_for plan_direct destinations resolve forbidden carried contains unmap
    forbidden_name text_eq has_suffix absolute
open-plan = refl

-- 192.0.2.0/24 is denied, under a proxy or not.
abbrev pub listed_config : Option Text → Bool → Config
listed_config proxy resolves = record {
  proxy = proxy;
  proxy_resolves = resolves;
  extra_forbidden = in_v4 (ip4 192 0 2 0) 24 ∷ [];
}

abbrev pub listed_policy : Option Text → Bool → Policy
listed_policy proxy resolves = record {
  config = listed_config proxy resolves;
  deny = forbidden_prefixes ++ in_v4 (ip4 192 0 2 0) 24 ∷ [];
}

pub listed-plan :
    plan sample_std lookup (listed_policy none true) (codes "db") 443
    ≡ ok (direct (v4 (ip4 10 0 0 9) ∷ v4 (ip4 8 8 4 4) ∷ []) 443)
unfolding plan plan_for plan_direct destinations resolve forbidden carried contains unmap
    forbidden_name text_eq has_suffix absolute
listed-plan = refl
