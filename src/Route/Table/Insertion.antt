-- ===== src/Route/Table/Insertion.antt =====
-- What an insertion into the route table keeps.
use quic_sni_router.Base.{
  ℕ, ◌+◌, ◌%◌, ◌<◌, ◌≡◌, refl, sym, ap, ◌∙◌, ◌≢◌, ◌⊎◌, inl, inr, false, not, ◌&&◌, Option, none,
  some, List, [], ◌∷◌, ◌++◌, arith, ok, err, invalid, full, ltb, leb, ◌==◌, if◌then◌else◌, ==_iff,
  ==_ne, Bool-cases, length, get_elem?, set, length-append, length-set, lt_of_get_elem?,
  get_elem?-append_lt, get_or-set_self, get_or-set_ne, Safe-if, Safe, Safe-bind, Safe-reject_if,
}
use quic_sni_router.Probe.{Found, hit, empty, exhausted, slot_at, probe}
use quic_sni_router.Probe.Walk.{Means, probe-Means}
use quic_sni_router.Probe.Placed.{set-IsPlaced}
use quic_sni_router.Probe.Update.{probe_empty-lt}
use quic_sni_router.Tls.Hostname.{max_hostname_len}
use quic_sni_router.Route.Hostname.{normalize_hostname}
use quic_sni_router.Route.Hostname.Idempotent.{normalize_hostname-idempotent}
use quic_sni_router.Route.Table.{
  Route, RouteTable, max_routes, route_buckets, max_addr_len, route_table_lookup, new_route, add_at,
  is_found, checked_name, insert_route, route_table_add,
}
use quic_sni_router.Route.Table.Routes.{
  IsRoutes, sni_at, sni_at-old, sni_at-new, last_or, get-last, IsPlaced-same, home, lookup_finds,
}

module _ (hash : List ℕ → ℕ) where
  module _ (t : RouteTable) (good : IsRoutes hash t) (name host : List ℕ)
      (port server_id bucket : ℕ) (proper : normalize_hostname name 256 ≡ some name)
      (fresh : route_table_lookup hash t name ≡ none) (small : server_id < 256)
      (free_id : (server_id ≢ 0) → slot_at t.server_id_index server_id ≡ none)
      (ends : probe (λ i. false) t.buckets route_buckets (hash name % route_buckets)
        ≡ empty bucket) where
    abbrev added : Route
    added = new_route name host port server_id

    abbrev grown : List Route
    grown = t.routes ++ (added ∷ [])

    home_new : home hash grown (length t.routes) ≡ hash name % route_buckets
    home_new = rw (sni_at-new t.routes added) refl

    ends' :
        probe (λ i. false) t.buckets (length t.buckets) (home hash grown (length t.routes))
        ≡ empty bucket
    ends' = rw (home_new, good.bucket_count) ends

    bucket_vacant : slot_at t.buckets bucket ≡ none
    bucket_vacant =
        let m : Means (λ i. false) t.buckets (length t.buckets) (home hash grown (length t.routes))
            (empty bucket) =
          rw ends' at (
            probe-Means (λ i. false) t.buckets (length t.buckets)
              (home hash grown (length t.routes))
              (rw (home_new, good.bucket_count) (omega arith))) in
        m.3

    bucket_inside : bucket < length t.buckets
    bucket_inside =
        probe_empty-lt (λ i. false) t.buckets (length t.buckets) (home hash grown (length t.routes))
          bucket (rw (home_new, good.bucket_count) (omega arith)) ends'

    bucket_written :
        slot_at (set t.buckets bucket (some (length t.routes))) bucket ≡ some (length t.routes)
    bucket_written = get_or-set_self t.buckets bucket _ none bucket_inside

    -- The entry of a bucket after the insertion.
    bucket_either :
        (pos i : ℕ)
        → slot_at (set t.buckets bucket (some (length t.routes))) pos ≡ some i
        → (i ≡ length t.routes) ⊎ (slot_at t.buckets pos ≡ some i)
    bucket_either pos i h = elim (Bool-cases (bucket == pos)) [
      | inl here ↦
          let e : bucket ≡ pos = (==_iff bucket pos).0 here in
          let both : some (length t.routes) ≡ some i =
            sym bucket_written
            ∙ ap (slot_at (set t.buckets bucket (some (length t.routes)))) e
            ∙ h in
          inl (cc)
      | inr other ↦ inr (sym (get_or-set_ne t.buckets bucket pos _ none (ground arith)) ∙ h)
    ]

    -- No route of the table has the new name.
    new_name : (i : ℕ) → i < length t.routes → sni_at t.routes i ≢ name
    new_name i h e =
        let found : route_table_lookup hash t name ≡ some i =
          rw (← e) (lookup_finds hash t good i h) in
        let clash : none ≡ some i = sym fresh ∙ found in cc

    abbrev ids : List (Option ℕ)
    ids =
        if server_id == 0
        then t.server_id_index
        else set t.server_id_index server_id (some (length t.routes))

    ids_old : (id i : ℕ) → slot_at t.server_id_index id ≡ some i → slot_at ids id ≡ some i
    ids_old id i there = elim (Bool-cases (server_id == 0)) [
      | inl no_id ↦ rw no_id there
      | inr has_id ↦ rw has_id (elim (Bool-cases (server_id == id)) [
        | inl here ↦
            let e : server_id ≡ id = (==_iff server_id id).0 here in
            let unused : slot_at t.server_id_index id ≡ none = rw e at (free_id (ground arith)) in
            let clash : none ≡ some i = sym unused ∙ there in absurd (cc)
        | inr other ↦ get_or-set_ne t.server_id_index server_id id _ none (ground arith) ∙ there
      ])
    ]

    ids_new : server_id ≢ 0 → slot_at ids server_id ≡ some (length t.routes)
    ids_new h =
        let has_id : (server_id == 0) ≡ false = ==_ne server_id 0 h in
        rw has_id (get_or-set_self t.server_id_index server_id _ none (rw good.id_count small))

    length-ids : length ids ≡ 256
    length-ids = elim (Bool-cases (server_id == 0)) [
      | inl no_id ↦ rw no_id good.id_count
      | inr has_id ↦ rw has_id (length-set t.server_id_index server_id _ ∙ good.id_count)
    ]

    ids_led :
        (i : ℕ) (r : Route)
        → get_elem? grown i ≡ some r
        → r.server_id ≢ 0
        → (i < length t.routes) ⊎ (i ≡ length t.routes)
        → slot_at ids r.server_id ≡ some i
    ids_led i r there set_id (inl low) =
        ids_old r.server_id i
          (good.indexed i r (sym (get_elem?-append_lt t.routes (added ∷ []) i low) ∙ there) set_id)
    ids_led i r there set_id (inr last) =
        let both : some added ≡ some r = sym (get-last t.routes added) ∙ rw last at there in
        let same : added ≡ r = cc in
        let id_same : server_id ≡ r.server_id = ap (λ q. q.server_id) same in
        rw (last, ← id_same) (ids_new (λ z. set_id (sym id_same ∙ z)))

    names_apart :
        (i j : ℕ)
        → (i < length t.routes) ⊎ (i ≡ length t.routes)
        → (j < length t.routes) ⊎ (j ≡ length t.routes)
        → sni_at grown i ≡ sni_at grown j
        → i ≡ j
    names_apart i j (inl a) (inl b) e =
        good.distinct i j a b
          (sym (sni_at-old t.routes added i a) ∙ e ∙ sni_at-old t.routes added j b)
    names_apart i j (inl a) (inr b) e =
        absurd (
          new_name i a (sym (sni_at-old t.routes added i a) ∙ e ∙ rw b (sni_at-new t.routes added)))
    names_apart i j (inr a) (inl b) e = absurd (
        new_name j b
          (sym (sni_at-old t.routes added j b) ∙ sym e ∙ rw a (sni_at-new t.routes added)))
    names_apart i j (inr a) (inr b) e = a ∙ sym b

    name_normal :
        (i : ℕ)
        → (i < length t.routes) ⊎ (i ≡ length t.routes)
        → normalize_hostname (sni_at grown i) 256 ≡ some (sni_at grown i)
    name_normal i (inl a) = rw (sni_at-old t.routes added i a) (good.normalized i a)
    name_normal i (inr a) = rw (a, sni_at-new t.routes added) proper

    found_bucket :
        (i : ℕ)
        → (i < length t.routes) ⊎ (i ≡ length t.routes)
        → (pos : ℕ) × (slot_at (set t.buckets bucket (some (length t.routes))) pos ≡ some i)
    found_bucket i (inr a) = (bucket, rw a bucket_written)
    found_bucket i (inl a) =
        let (pos, there) = good.in_bucket i a in
        let apart : bucket ≢ pos = λ e.
          (let clash : none ≡ some i = sym bucket_vacant ∙ ap (slot_at t.buckets) e ∙ there in
            cc) in
        (pos, get_or-set_ne t.buckets bucket pos _ none apart ∙ there)

    add_at-IsRoutes : IsRoutes hash (add_at t bucket name host port server_id)
    unfolding add_at
    add_at-IsRoutes = record {
      bucket_count = length-set t.buckets bucket _ ∙ good.bucket_count;
      id_count = length-ids;
      placed =
          set-IsPlaced (home hash grown) (λ i. false) t.buckets (length t.routes) bucket
            (IsPlaced-same (home hash t.routes) (home hash grown) t.buckets
              (λ pos i there. rw (sni_at-old t.routes added i (good.inside pos i there)) refl)
              good.placed)
            (rw (home_new, good.bucket_count) (omega arith)) ends';
      inside = λ pos i there. elim (bucket_either pos i there) [
        | inl last ↦ omega (arith, length-append t.routes (added ∷ []))
        | inr old ↦ omega (arith, length-append t.routes (added ∷ []), good.inside pos i old)
      ];
      in_bucket = λ i h. found_bucket i (last_or t.routes added i h);
      normalized = λ i h. name_normal i (last_or t.routes added i h);
      distinct =
          λ i j h k e. names_apart i j (last_or t.routes added i h) (last_or t.routes added j k) e;
      indexed = λ i r there set_id.
          ids_led i r there set_id (last_or t.routes added i (lt_of_get_elem? grown i there));
    }

  pub checked_name-Safe :
      (host : List ℕ) (normalized : Option (List ℕ))
      → Safe (λ name. normalized ≡ some name) (checked_name host normalized)
  checked_name-Safe host none = tt
  checked_name-Safe host (some name) =
      Safe-if (λ n. some name ≡ some n) (ltb max_addr_len (length host)) (err invalid) (ok name)
        (λ long. tt) (λ short. refl)

  not_found-none : {A : Type 0} (found : Option A) → is_found found ≡ false → found ≡ none
  not_found-none none h = refl
  not_found-none (some a) h = cc

  -- An insertion into a well-formed route table, of a server id of one byte, never goes wrong: it is
  -- refused, or it gives a well-formed table.
  pub route_table_add-IsRoutes-Safe :
      (t : RouteTable) (sni host : List ℕ) (port server_id : ℕ)
      → IsRoutes hash t
      → server_id < 256
      → Safe (IsRoutes hash) (route_table_add hash t sni host port server_id)
  unfolding route_table_add
  route_table_add-IsRoutes-Safe t sni host port server_id good small =
      Safe-reject_if _ (port == 0) invalid _ λ has_port.
        Safe-reject_if _ (leb max_routes (length t.routes)) full _ λ room.
          Safe-bind _ _ (checked_name host (normalize_hostname sni (max_hostname_len + 1))) _
            (checked_name-Safe host _)
            λ name named.
              Safe-reject_if _ (is_found (route_table_lookup hash t name)) invalid _ λ fresh.
                Safe-reject_if _
                  (not (server_id == 0) && is_found (slot_at t.server_id_index server_id)) invalid _
                  λ fresh_id. inserted name named fresh fresh_id _ refl
    where
      inserted :
          (name : List ℕ)
          → normalize_hostname sni 256 ≡ some name
          → is_found (route_table_lookup hash t name) ≡ false
          → (not (server_id == 0) && is_found (slot_at t.server_id_index server_id)) ≡ false
          → (found : Found)
          → probe (λ i. false) t.buckets route_buckets (hash name % route_buckets) ≡ found
          → Safe (IsRoutes hash) (insert_route t name host port server_id found)
      inserted name named fresh fresh_id (hit bucket) ends = tt
      inserted name named fresh fresh_id exhausted ends = tt
      inserted name named fresh fresh_id (empty bucket) ends =
          add_at-IsRoutes t good name host port server_id bucket
            (normalize_hostname-idempotent sni named)
            (not_found-none (route_table_lookup hash t name) fresh) small
            (λ set_id.
              let has_id = ==_ne server_id 0 set_id in
              not_found-none (slot_at t.server_id_index server_id) (rw has_id at fresh_id))
            ends
