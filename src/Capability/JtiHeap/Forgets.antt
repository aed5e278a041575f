-- ===== src/Capability/JtiHeap/Forgets.antt =====
-- What the verifier remembers, in the heap that container/heap makes of jtiHeap.
use traversal_connector.Common.{Text}
use traversal_connector.Common.Int.{ℤ, ◌≤ℤ◌}
use traversal_connector.Capability.Opens.{Opens, take}
use traversal_connector.Capability.Opens.Pruned.{Tracked, Live, take-Live}
use traversal_connector.Capability.JtiHeap.Heaped.{Container, jti_heap}

-- After an open of a capability that has not expired, whatever expired before it is forgotten, by
-- the order of jtiHeap: no entry of the heap has expired, and every jti with a count has an entry.
pub take_forgets :
    (c : Container) (j : Text) (expires now : ℤ) (o : Opens (jti_heap c))
    → now ≤ℤ expires
    → Tracked (jti_heap c) o
    → let o' = (take (jti_heap c) j expires now o).0 in
      Tracked (jti_heap c) o' × Live (jti_heap c) now o'
take_forgets c j expires now o later tracked = take-Live (jti_heap c) j expires now o later tracked
