-- ===== src/Gateway/Urls/Isolation.antt =====
-- A request by subdomain reaches only what its label names.
use iroh_content_discovery.Prelude.{
  ℕ, ◌≡◌, ◌⊎◌, true, Option, none, some, List, [], ◌∷◌, ◌++◌, false, ◌==◌, if◌then◌else◌,
}
use iroh_content_discovery.Prelude.Bytes.{codes, contains_byte}
use iroh_content_discovery.Gateway.Http.{Crates, Uri}
use iroh_content_discovery.Gateway.Urls.{
  HttpRequest, parse_z32_bytes, subdomain_routes, request_host,
}

-- A pair of texts is in a list.
abbrev pub Listed : List ℕ × List ℕ → List (List ℕ × List ℕ) → Type 0
Listed p [] = ⊥
Listed p (q ∷ qs) = (p ≡ q) ⊎ Listed p qs

-- What follows the label is no part of it.
abbrev pub Separated : List ℕ → Type 0
Separated [] = Unit
Separated (b ∷ bs) = (b ≡ b'?') ⊎ (b ≡ b'/')

-- A label and a route that a host has.
abbrev pub RouteOf : Crates → List (List ℕ × List ℕ) → List ℕ → Option (List ℕ × List ℕ) → Type 0
RouteOf lib routes host none = Unit
RouteOf lib routes host (some (label, route)) =
    (suffix : List ℕ) × Listed (suffix, route) routes
    × (host ≡ label ++ suffix)
    × (bytes : List ℕ) × (parse_z32_bytes lib label ≡ some bytes)

-- The path of a request that was rewritten is the label's, under the label's route.
abbrev pub OwnPath : List ℕ → List ℕ → Option (List ℕ) → Type 0
OwnPath route label none = ⊥
OwnPath route label (some path) =
    (rest : List ℕ) × Separated rest × (path ≡ codes "/" ++ route ++ codes "/" ++ label ++ rest)

-- A request is left alone, or its host has a label and its path is the label's.
abbrev pub Isolated : Crates → HttpRequest → HttpRequest → Type 0
Isolated lib request after =
    (after ≡ request)
    ⊎ ((host label route : List ℕ) × (request_host request ≡ some host)
        × RouteOf lib subdomain_routes host (some (label, route))
        × OwnPath route label after.uri.path_and_query
        × (after.original ≡ some after.uri)
        × (after.subdomain ≡ true))

-- The text before a fragment.
unfoldable pub before_fragment : List ℕ → List ℕ
before_fragment [] = []
before_fragment (b ∷ bs) = let rest = before_fragment bs in if b == b'#' then [] else b ∷ rest

-- What `Uri` documents of a path: it is what was parsed, without the fragment.
abbrev pub ParsesPaths : Crates → Type 0
ParsesPaths lib =
    (path : List ℕ) (uri : Uri)
    → lib.parse_uri (b'/' ∷ path) ≡ some uri
    → uri.path_and_query ≡ some (before_fragment (b'/' ∷ path))

-- The alphabet of z-base-32 has no `#`.
abbrev pub HasNoHash : Crates → Type 0
HasNoHash lib = (bytes : List ℕ) → contains_byte b'#' (lib.z32_encode bytes) ≡ false
