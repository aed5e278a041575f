-- ===== src/PipeServer/Tests.antt =====
-- Runs of requests inside a pipe, at the sample library.
use traversal_connector.Common.{◌≡◌, ◌≢◌, refl, [], Text, codes, text_eq, cut_prefix}
use traversal_connector.Common.Decimal.{format_uint16, parse_uint16}
use traversal_connector.Hostname.{authority, port_of, canonical, join_host_port}
use traversal_connector.Hostname.Sample.{sample_std}
use traversal_connector.PipeServer.{method_connect}
use traversal_connector.PipeServer.Forward.{
  Inner, sends, drop_upstream_scheme, forward, Delivered, IsForPipe, forward_sound,
}

abbrev a_get : Inner
a_get = record {
  method = codes "GET";
  proto_major = 2;
  url_scheme = [];
  upstream_scheme = codes "http";
  host = codes "db.internal";
  path = codes "/v1";
}

abbrev bare : Text → Text × Text
bare host = (host, codes "5432")

a_get_test :
    forward sample_std bare a_get (codes "db.internal:5432")
    ≡ sends (drop_upstream_scheme a_get) (codes "http") (codes "db.internal:5432")
unfolding forward authority text_eq format_uint16 parse_uint16 port_of canonical join_host_port
    cut_prefix
a_get_test = refl

forward_sound_example :
    (a_get.method ≢ method_connect)
    × (scheme : Text) × IsForPipe sample_std bare a_get (codes "db.internal:5432") scheme
    × Delivered a_get
        (codes "db.internal:5432")
        scheme
        (sends (drop_upstream_scheme a_get) (codes "http") (codes "db.internal:5432"))
forward_sound_example =
    forward_sound sample_std bare a_get (codes "db.internal:5432")
      (sends (drop_upstream_scheme a_get) (codes "http") (codes "db.internal:5432")) a_get_test
      (λ reason e. cc)
