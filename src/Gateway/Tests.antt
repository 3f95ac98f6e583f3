-- ===== src/Gateway/Tests.antt =====
-- The gateway on concrete inputs.
use cocaine_core.Base.{ℕ, ◌≡◌, refl, [], ◌∷◌, nat_key, string_key, list_key}
use cocaine_core.Base.Map.{lookup, Unique}
use cocaine_core.Gateway.{Remotes, remote, services}
use cocaine_core.Gateway.Registry.{
  Request, consumes, serve, located, expected_error, serve-expected,
}

abbrev one_remote : Remotes ℕ ℕ
one_remote = ("storage", ("uuid", remote "uuid" 1 (7 ∷ []) 0) ∷ []) ∷ []

one_remote-Unique : Unique one_remote
unfolding lookup
one_remote-Unique = (refl, tt)

abbrev again : Request ℕ ℕ
again = consumes "uuid" "storage" 2 [] 0

serve-expected_example :
    (located (serve again one_remote).0 "uuid" "storage" ≡ located one_remote "uuid" "storage")
    × ((serve again one_remote).1 ≡ expected_error again (located one_remote))
    × Unique (serve again one_remote).0
unfolding services lookup
serve-expected_example = serve-expected again one_remote "uuid" "storage" one_remote-Unique
