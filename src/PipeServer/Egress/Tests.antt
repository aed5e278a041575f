-- ===== src/PipeServer/Egress/Tests.antt =====
-- Witness of the theorem on where a pipe's requests go, with a proxy, an exempt name and a denied
-- prefix.
use traversal_connector.Common.{
  ◌≡◌, refl, Bool, Option, none, some, true, [], ◌∷◌, List, ℕ, Text, codes, text_eq, if◌then◌else◌,
  split, has_prefix,
}
use traversal_connector.Common.Decimal.{format_uint16}
use traversal_connector.Env.{Environment, strict_bool}
use traversal_connector.Hostname.{v4, unmap, join_host_port}
use traversal_connector.Hostname.Sample.{sample_std}
use traversal_connector.RawPipe.{ok}
use traversal_connector.Config.Checks.{contains_text}
use traversal_connector.DialPolicy.{Prefix, ip4, in_v4, add_extra, new, direct}
use traversal_connector.DialPolicy.Sample.{lookup, listed_policy, listed-plan}
use traversal_connector.PipeServer.Egress.{
  Library, Dialer, exempts, egress_proxy, forbidden_cidrs, parse_prefixes, build_dialer, new_policy,
  dial,
}
use traversal_connector.PipeServer.Egress.Settings.{Routed, Lists}
use traversal_connector.PipeServer.Egress.Avoids.{Goes, dial-Goes}

abbrev cidr_set : Environment
cidr_set key =
    if text_eq key (codes "TRAVERSAL_PIPES_FORBIDDEN_CIDRS") then codes "192.0.2.0/24" else []

-- A proxy for all but db:443.
abbrev sample : Library
sample = record {
  parse_url = λ raw. some (record {
    scheme = codes "http";
    host = codes "proxy:3128";
    hostname = codes "proxy";
    port = codes "3128";
  });
  parse_prefix = λ raw. some (in_v4 (ip4 192 0 2 0) 24);
  trim_space = λ raw. raw;
  ambient = record { https_proxy = codes "proxy:3128"; http_proxy = []; no_proxy = codes "db" };
  proxy_func = λ raw no_proxy dest.
      if text_eq dest (codes "db:443") then some none else some (some (codes "proxy:3128"));
}

abbrev via_proxy : Option Text
via_proxy = some (codes "proxy:3128")

abbrev dialer : Dialer
dialer = record {
  proxied = listed_policy via_proxy true;
  direct = some (exempts sample (codes "http://proxy:3128"), listed_policy none true);
}

new_policy_test : (new_policy sample cidr_set [] (some []) (some [])).1 ≡ some dialer
unfolding new_policy egress_proxy forbidden_cidrs parse_prefixes build_dialer strict_bool new
    add_extra unmap text_eq split contains_text has_prefix
new_policy_test = refl

dial_test :
    dial sample_std lookup dialer (codes "db") 443
    ≡ ok (direct (v4 (ip4 10 0 0 9) ∷ v4 (ip4 8 8 4 4) ∷ []) 443)
unfolding dial text_eq join_host_port format_uint16
dial_test = listed-plan

dial-Goes_example :
    (proxy : Option Text) × (exempt : Option (Text → ℕ → Bool)) × (extra : List Prefix) × Routed
      sample [] proxy exempt
    × Lists sample (codes "192.0.2.0/24") extra
    × Goes sample_std lookup proxy exempt extra [] []
        (codes "db")
        443
        (direct (v4 (ip4 10 0 0 9) ∷ v4 (ip4 8 8 4 4) ∷ []) 443)
unfolding text_eq
dial-Goes_example =
    dial-Goes sample_std lookup sample cidr_set [] [] [] dialer (codes "db") 443
      (direct (v4 (ip4 10 0 0 9) ∷ v4 (ip4 8 8 4 4) ∷ []) 443) new_policy_test dial_test
