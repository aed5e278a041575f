-- ===== src/DialPolicy/Tests.antt =====
-- Witnesses of the theorems on dialing, with the literals of the sample library, and tests.
use traversal_connector.Common.{
  ◌≡◌, refl, true, false, none, some, [], ◌∷◌, List, codes, ◌*◌, ◌+◌, ◌^◌, text_eq, has_suffix,
}
use traversal_connector.Common.Decimal.{format_uint16}
use mathlib.Core.List.{Memᴰ}
use traversal_connector.Hostname.{Addr, v4, v6, unmap, join_host_port, absolute}
use traversal_connector.Hostname.Sample.{sample_std}
use traversal_connector.DialPolicy.Sample.{lookup, open_config, open_policy, open-new, open-plan}
use traversal_connector.RawPipe.{forbidden_address, ok, err}
use traversal_connector.DialPolicy.{
  in_v4, in_v6, ip4, contains, forbidden_prefixes, forbidden, forbidden_name, carried, Config,
  Policy, add_extra, new, through_proxy, resolve, destinations, plan_direct, plan_proxied, plan_for,
  plan, race, failed, connected,
}
use traversal_connector.DialPolicy.Forbidden.{IsDenied, Reaches, new-forbids}
use traversal_connector.DialPolicy.Dial.{plan-avoids, plan-proxied, race-settled}
use traversal_connector.DialPolicy.Barred.{by_answer, plan-refuses}

-- 10.0.0.0/8 is denied by the operator, and the host is 192.168.1.4.
abbrev operator : Config
operator = record {
  proxy = none;
  proxy_resolves = false;
  extra_forbidden = in_v4 (ip4 10 0 0 1) 8 ∷ [];
}

abbrev host_addrs : List Addr
host_addrs = v4 (ip4 192 168 1 4) ∷ []

abbrev operator_policy : Policy
operator_policy = record {
  config = operator;
  deny =
      in_v4 0 8
      ∷ in_v4 (ip4 127 0 0 0) 8
      ∷ in_v4 (ip4 169 254 0 0) 16
      ∷ in_v4 (ip4 224 0 0 0) 3
      ∷ in_v4 (ip4 100 100 100 200) 32
      ∷ in_v4 (ip4 168 63 129 16) 32
      ∷ in_v6 0 96
      ∷ in_v6 (0xfe80 * 2 ^ 112) 10
      ∷ in_v6 (0xff00 * 2 ^ 112) 8
      ∷ in_v6 (0xfd00_0ec2 * 2 ^ 96) 32
      ∷ in_v6 (0xfd20_00ce * 2 ^ 96 + 0x254) 128
      ∷ in_v4 (ip4 10 0 0 0) 8
      ∷ in_v4 (ip4 192 168 1 4) 32
      ∷ [];
}

operator-new : new operator (some host_addrs) ≡ some operator_policy
unfolding new add_extra unmap
operator-new = refl

-- 64:ff9b::10.1.2.3 is refused, since 10.0.0.1/8 is.
abbrev nat64_db : Addr
nat64_db = v6 (0x0064_ff9b * 2 ^ 96 + ip4 10 1 2 3) []

new-forbids_example : forbidden operator_policy.deny nat64_db ≡ true
unfolding contains unmap
new-forbids_example =
    new-forbids operator host_addrs operator_policy (in_v4 (ip4 10 0 0 1) 8) nat64_db operator-new
      (IsDenied.added (Memᴰ.head refl)) (Reaches.inside (Memᴰ.head refl) refl refl)

-- One forbidden answer refuses the whole dial.
plan_any_test : plan sample_std lookup operator_policy (codes "db") 443 ≡ err forbidden_address
unfolding plan plan_for plan_direct destinations resolve forbidden carried contains unmap
    forbidden_name text_eq has_suffix absolute
plan_any_test = refl

plan-avoids_example : ¬ Reaches (v4 (ip4 8 8 4 4)) (in_v4 (ip4 127 0 0 0) 8)
plan-avoids_example =
    (plan-avoids sample_std lookup open_config [] open_policy (codes "db") 443 443
        (v4 (ip4 10 0 0 9) ∷ v4 (ip4 8 8 4 4) ∷ []) open-new open-plan).3
      (v4 (ip4 8 8 4 4)) (in_v4 (ip4 127 0 0 0) 8) (Memᴰ.tail (Memᴰ.head refl))
      (IsDenied.built_in (Memᴰ.tail (Memᴰ.head refl)))

abbrev proxied : Policy
proxied = record {
  config = record {
    proxy = some (codes "proxy:3128");
    proxy_resolves = true;
    extra_forbidden = [];
  };
  deny = forbidden_prefixes;
}

plan-proxied_test :
    plan sample_std lookup proxied (codes "db") 443
    ≡ ok (through_proxy (codes "proxy:3128") (codes "db:443"))
unfolding plan plan_for plan_proxied forbidden_name text_eq has_suffix join_host_port format_uint16
plan-proxied_test = refl

plan-proxied_example : forbidden_name (codes "db") ≡ false
plan-proxied_example =
    (plan-proxied sample_std lookup proxied (codes "db") 443 (codes "proxy:3128") (codes "db:443")
      plan-proxied_test).2

-- One of the two answers for the name is in 10.0.0.0/8, which the operator denies.
plan-refuses_example :
    plan sample_std lookup operator_policy (codes "db") 443 ≡ err forbidden_address
unfolding contains unmap
plan-refuses_example =
    plan-refuses sample_std lookup operator host_addrs operator_policy (codes "db") 443 operator-new
      (by_answer (v4 (ip4 10 0 0 9) ∷ v4 (ip4 8 8 4 4) ∷ []) (v4 (ip4 10 0 0 9))
        (in_v4 (ip4 10 0 0 1) 8) refl refl refl (Memᴰ.head refl) (IsDenied.added (Memᴰ.head refl))
        (Reaches.itself refl))

race-settled_example :
    race (failed ∷ connected 7 ∷ connected 8 ∷ []) ≡ record { winner = some 7; closed = 8 ∷ [] }
race-settled_example = race-settled (failed ∷ connected 7 ∷ connected 8 ∷ [])
