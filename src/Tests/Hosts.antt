-- ===== src/Tests/Hosts.antt =====
-- Host patterns on concrete hosts.
use l7_proxy.Prelude.{◌≡◌, ◌≢◌, ◌↔◌, refl, [], ◌∷◌, ◌++◌, true, false}
use l7_proxy.Text.{Str, codes, to_lower}
use l7_proxy.Routing.Conditions.{host_pattern_matches}
use l7_proxy.Routing.Conditions.Hosts.{host_pattern_matches-wildcard}

host_pattern_matches-wildcard_example :
    (host_pattern_matches (codes "a.b.example") (codes "*.Example") ≡ true) ↔ (
      (front : Str) × (front ≢ [])
      × (codes "a.b.example" ≡ front ++ b'.' ∷ to_lower (codes "Example")))
host_pattern_matches-wildcard_example =
    host_pattern_matches-wildcard (codes "a.b.example") (codes "Example")

wildcard_matches :
    (host_pattern_matches (codes "a.b.example") (codes "*.Example") ≡ true)
    × (host_pattern_matches (codes "example") (codes "*.Example") ≡ false)
unfolding host_pattern_matches to_lower
wildcard_matches = (refl, refl)
