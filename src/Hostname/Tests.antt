-- ===== src/Hostname/Tests.antt =====
-- Witnesses of the theorems on hosts and authorities, and tests on hosts of the test suite.
use traversal_connector.Common.{
  ◌≡◌, refl, true, false, [], some, none, Text, codes, text_eq, cut_prefix, arith,
}
use traversal_connector.Common.Decimal.{parse_uint16, format_uint16}
use traversal_connector.Hostname.{
  port_of, canonical, is_canonical, join_host_port, split_authority, authority,
}
use traversal_connector.Hostname.Canonical.{canonical_idempotent}
use traversal_connector.Hostname.Authority.{
  Means, split_authority_sound, split_authority-join, authority_sound,
}
use traversal_connector.Hostname.Sample.{sample_std}

abbrev db : Text
db = codes "db.internal"

canonical_name_test : canonical sample_std (codes "DB.Internal.") ≡ (db, true)
unfolding canonical cut_prefix
canonical_name_test = refl

numeric_test : canonical sample_std (codes "db.0x7f") ≡ ([], false)
unfolding canonical cut_prefix
numeric_test = refl

canonical_idempotent_example : canonical sample_std db ≡ (db, true)
canonical_idempotent_example =
    canonical_idempotent sample_std (codes "DB.Internal.") db canonical_name_test

db_canonical : is_canonical sample_std db ≡ true
unfolding is_canonical canonical text_eq cut_prefix
db_canonical = refl

split_authority_test : split_authority sample_std (codes "db.internal:5432") ≡ some (db, 5432)
unfolding split_authority parse_uint16 format_uint16 join_host_port is_canonical canonical text_eq
    cut_prefix
split_authority_test = refl

-- A second spelling of the port is refused.
split_authority_zeros : split_authority sample_std (codes "db.internal:05432") ≡ none
unfolding split_authority parse_uint16 format_uint16 join_host_port is_canonical canonical text_eq
    cut_prefix
split_authority_zeros = refl

split_authority_sound_example : is_canonical sample_std db ≡ true
split_authority_sound_example =
    (split_authority_sound sample_std (codes "db.internal:5432") db 5432 split_authority_test).1

split_authority-join_example :
    split_authority sample_std (join_host_port db (format_uint16 5432)) ≡ some (db, 5432)
split_authority-join_example =
    split_authority-join sample_std db 5432 db_canonical (omega arith) (omega arith)

authority_test : authority sample_std (codes "https") (codes "DB.internal") [] ≡ some (db, 443)
unfolding authority port_of canonical text_eq cut_prefix
authority_test = refl

authority_sound_example : Means (codes "https") [] 443
authority_sound_example =
    (authority_sound sample_std (codes "https") (codes "DB.internal") [] db 443 authority_test).3
