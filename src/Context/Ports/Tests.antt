-- ===== src/Context/Ports/Tests.antt =====
-- The port mapping on concrete inputs: one pinned name, and two shared ports.
use cocaine_core.Base.{
  count, String, true, ◌≡◌, ◌==◌, ℕ, ◌≤◌, refl, ◌≢◌, [], ◌∷◌, arith, nat_key, string_key, list_key,
}
use text.Mathlib.TextEquality.{eq_iff}
use cocaine_core.Context.Ports.{PortMapping, assign, assign_shared, retain}
use cocaine_core.Base.Map.{lookup, erase, insert}
use cocaine_core.Context.Ports.Leases.{
  assigns, retains, Reach, here, next, Inv, Reach-conserved, lookup-exclusive,
}

abbrev unused_ports : PortMapping
unused_ports = record { pinned = ("locator", 10053) ∷ []; shared = 8000 ∷ 8001 ∷ []; in_use = [] }

abbrev one_leased : PortMapping
one_leased = record unused_ports { shared = 8001 ∷ []; in_use = ("a", 8000) ∷ [] }

abbrev two_leased : PortMapping
two_leased = record unused_ports { shared = []; in_use = ("b", 8001) ∷ ("a", 8000) ∷ [] }

abbrev one_returned : PortMapping
one_returned = record unused_ports { shared = 8000 ∷ []; in_use = ("b", 8001) ∷ [] }

two_leased-Reach : Reach unused_ports two_leased
unfolding assign assign_shared insert lookup
two_leased-Reach =
    next {n = one_leased} (next {n = unused_ports} here (assigns "a" 8000 refl))
      (assigns "b" 8001 refl)

Reach-conserved_example : Inv (8000 ∷ 8001 ∷ []) one_returned
unfolding retain lookup erase
Reach-conserved_example =
    Reach-conserved {m = unused_ports} refl
      (next {n = two_leased} two_leased-Reach (retains "a" refl))

different : (port : ℕ) → count port unused_ports.shared ≤ 1
different port = ground arith

abbrev port_a : ℕ
port_a = 8000

abbrev name_a : String
name_a = "a"

names_differ : name_a ≢ "b"
names_differ e = let same : (name_a == "b") ≡ true = (eq_iff name_a "b").1 e in ground arith

lookup-exclusive_example : port_a ≢ 8001
unfolding lookup
lookup-exclusive_example =
    lookup-exclusive {m = unused_ports} {n = two_leased} "a" "b" port_a 8001 refl different
      two_leased-Reach refl refl names_differ refl refl
