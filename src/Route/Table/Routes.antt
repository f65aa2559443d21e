-- ===== src/Route/Table/Routes.antt =====
-- The invariant of the route table, and what the lookup by name owes to it.
use quic_sni_router.Base.{
  ℕ, zero, suc, ◌%◌, ◌<◌, ◌≡◌, refl, ap, ◌≢◌, ◌⊎◌, inl, inr, true, Option, none, some, List, [],
  ◌∷◌, ◌++◌, arith, ltb, ltb→lt, ltb→le, Bool-cases, length, get_elem?, replicate, length-append,
  length-replicate, same_bytes_refl, same_bytes→eq,
}
use quic_sni_router.Probe.{slot_at}
use quic_sni_router.Probe.Placed.{IsPlaced, probe_finds, replicate-IsPlaced}
use quic_sni_router.Route.Hostname.{normalize_hostname}
use quic_sni_router.Route.Table.{
  Route, RouteTable, route_buckets, route_table_init, names_route, find_route, route_table_lookup,
}

-- The name of a route; one that is not there has none.
abbrev pub sni_at : List Route → ℕ → List ℕ
sni_at [] i = []
sni_at (r ∷ routes) zero = r.sni
sni_at (r ∷ routes) (suc i) = sni_at routes i

pub vacant : (n pos : ℕ) {i : ℕ} → slot_at (replicate n none) pos ≡ some i → ⊥
vacant zero pos h = cc
vacant (suc n) zero h = cc
vacant (suc n) (suc pos) h = vacant n pos h

-- The names of a list of routes with one more at its end.
pub sni_at-old :
    (routes : List Route) (r : Route) (i : ℕ)
    → i < length routes
    → sni_at (routes ++ (r ∷ [])) i ≡ sni_at routes i
sni_at-old [] r i h = absurd (omega arith)
sni_at-old (q ∷ routes) r zero h = refl
sni_at-old (q ∷ routes) r (suc i) h = sni_at-old routes r i (omega arith)

pub sni_at-new :
    (routes : List Route) (r : Route) → sni_at (routes ++ (r ∷ [])) (length routes) ≡ r.sni
sni_at-new [] r = refl
sni_at-new (q ∷ routes) r = sni_at-new routes r

-- The test of the lookup by the names.
pub names_route-sni_at :
    (routes : List Route) (name : List ℕ) (j : ℕ)
    → names_route routes name j ≡ true
    → sni_at routes j ≡ name
names_route-sni_at [] name j h = cc
names_route-sni_at (r ∷ routes) name zero h = same_bytes→eq r.sni name h
names_route-sni_at (r ∷ routes) name (suc j) h = names_route-sni_at routes name j h

pub sni_at-names_route :
    (routes : List Route) (name : List ℕ) (j : ℕ)
    → j < length routes
    → sni_at routes j ≡ name
    → names_route routes name j ≡ true
sni_at-names_route [] name j h e = absurd (omega arith)
sni_at-names_route (r ∷ routes) name zero h e = rw e (same_bytes_refl name)
sni_at-names_route (r ∷ routes) name (suc j) h e = sni_at-names_route routes name j (omega arith) e

-- An index of the longer list is one of the shorter list, or the last.
pub last_or :
    (routes : List Route) (r : Route) (i : ℕ)
    → i < length (routes ++ (r ∷ []))
    → (i < length routes) ⊎ (i ≡ length routes)
last_or routes r i h = elim (Bool-cases (ltb i (length routes))) [
  | inl low ↦ inl (ltb→lt _ _ low)
  | inr high ↦ inr (let from = ltb→le _ _ high in omega (arith, length-append routes (r ∷ [])))
]

pub get-last :
    (routes : List Route) (r : Route) → get_elem? (routes ++ (r ∷ [])) (length routes) ≡ some r
get-last [] r = refl
get-last (q ∷ routes) r = get-last routes r

-- What is reachable stays so when the homes of the entries stay.
pub IsPlaced-same :
    (home home' : ℕ → ℕ) (slots : List (Option ℕ))
    → ((pos i : ℕ) → slot_at slots pos ≡ some i → home' i ≡ home i)
    → IsPlaced home slots
    → IsPlaced home' slots
IsPlaced-same home home' slots same placed pos i there =
    let r = placed pos i there in
    let e = same pos i there in
    record {
      steps = r.steps;
      few = r.few;
      arrives = rw e r.arrives;
      occupied = λ j h. rw e (r.occupied j h);
    }

pub sni_at-get :
    (routes : List Route) (i : ℕ) {r : Route}
    → get_elem? routes i ≡ some r
    → sni_at routes i ≡ r.sni
sni_at-get [] i h = cc
sni_at-get (q ∷ routes) zero {r} h = let e : q ≡ r = cc in ap (λ x. x.sni) e
sni_at-get (q ∷ routes) (suc i) h = sni_at-get routes i h

module _ (hash : List ℕ → ℕ) where
  -- The bucket where the walk for a route begins.
  abbrev pub home : List Route → ℕ → ℕ
  home routes i = hash (sni_at routes i) % route_buckets

  -- Every route has a normalized name of its own and can be reached in the buckets; the buckets lead
  -- to routes only; and a route with a server id is the one that its id leads to.
  pub record IsRoutes (t : RouteTable) : Type 0 where
    pub bucket_count : length t.buckets ≡ route_buckets
    pub id_count : length t.server_id_index ≡ 256
    pub placed : IsPlaced (home t.routes) t.buckets
    pub inside : (pos i : ℕ) → slot_at t.buckets pos ≡ some i → i < length t.routes
    pub in_bucket : (i : ℕ) → i < length t.routes → (pos : ℕ) × (slot_at t.buckets pos ≡ some i)
    pub normalized :
        (i : ℕ)
        → i < length t.routes
        → normalize_hostname (sni_at t.routes i) 256 ≡ some (sni_at t.routes i)
    pub distinct :
        (i j : ℕ)
        → i < length t.routes
        → j < length t.routes
        → sni_at t.routes i ≡ sni_at t.routes j
        → i ≡ j
    pub indexed :
        (i : ℕ) (r : Route)
        → get_elem? t.routes i ≡ some r
        → r.server_id ≢ 0
        → slot_at t.server_id_index r.server_id ≡ some i

  pub route_table_init-IsRoutes : IsRoutes route_table_init
  unfolding route_table_init
  route_table_init-IsRoutes = record {
    bucket_count = length-replicate {A = Option ℕ} route_buckets none;
    id_count = refl;
    placed = replicate-IsPlaced (home []) route_buckets;
    inside = λ pos i there. absurd (vacant route_buckets pos there);
    in_bucket = λ i h. absurd (omega arith);
    normalized = λ i h. absurd (omega arith);
    distinct = λ i j h. absurd (omega arith);
    indexed = λ i r h. absurd (cc);
  }

  -- A lookup by name returns the index of the route of that name.
  pub lookup_finds :
      (t : RouteTable)
      → IsRoutes t
      → (i : ℕ) → i < length t.routes
      → route_table_lookup hash t (sni_at t.routes i) ≡ some i
  unfolding route_table_lookup find_route
  lookup_finds t good i h =
      let name = sni_at t.routes i in
      let (pos, there) = good.in_bucket i h in
      let (p, ends, (j, at, names)) =
        probe_finds (home t.routes) (names_route t.routes name) t.buckets i pos good.placed there
          (sni_at-names_route t.routes name i h refl) (rw good.bucket_count (omega arith)) in
      let same : j ≡ i =
        good.distinct j i (good.inside p j at) h (names_route-sni_at t.routes name j names) in
      rw (good.normalized i h, rw good.bucket_count at ends, at, same) refl
