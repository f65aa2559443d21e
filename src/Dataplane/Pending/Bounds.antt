-- ===== src/Dataplane/Pending/Bounds.antt =====
-- What the entries of pending Initials keep: packets that fit, each one once.
use quic_sni_router.Base.{
  ℕ, ◌≤◌, ◌<◌, ◌≡◌, refl, ◌∙◌, inl, inr, Bool, true, false, ◌||◌, List, [], ◌∷◌, ◌++◌, arith, ltb,
  leb, ◌==◌, ltb→lt, ltb→le, Bool-cases, length, All, length-append, All-append, same_bytes,
  same_bytes_refl,
}
use quic_sni_router.Quic.Crypto.{max_datagram_size}
use quic_sni_router.Dataplane.Pending.{Pending, pending_max_packets, has_packet, append_packet}

-- No packet of the list stands in it again behind itself.
abbrev pub Distinct : List (List ℕ) → Type 0
Distinct [] = Unit {0}
Distinct (packet ∷ packets) = (has_packet packets packet ≡ false) × Distinct packets

-- An entry whose packets fit the arrays of `qsr_pending_initial_t`, each one stored once.
pub record IsEntry (entry : Pending) : Type 0 where
  pub few : length entry.packets ≤ pending_max_packets
  pub fit : All (λ packet. length packet ≤ max_datagram_size) entry.packets
  pub distinct : Distinct entry.packets

same_bytes_sym : (xs ys : List ℕ) → same_bytes xs ys ≡ same_bytes ys xs
same_bytes_sym [] [] = refl
same_bytes_sym [] (y ∷ ys) = refl
same_bytes_sym (x ∷ xs) [] = refl
same_bytes_sym (x ∷ xs) (y ∷ ys) =
    let tails = same_bytes_sym xs ys in
    let heads : (x == y) ≡ (y == x) = ground arith in rw (heads, tails) refl

has_packet-append :
    (packets : List (List ℕ)) (packet other : List ℕ)
    → has_packet (packets ++ (packet ∷ [])) other
      ≡ (has_packet packets other || same_bytes packet other)
has_packet-append [] packet other = elim (Bool-cases (same_bytes packet other)) [
  | inl e ↦ rw e refl
  | inr e ↦ rw e refl
]
has_packet-append (p ∷ packets) packet other =
    let later = has_packet-append packets packet other in
    rw later (elim (Bool-cases (same_bytes p other)) [ inl e ↦ rw e refl | inr e ↦ rw e refl ])

or_false : (a b : Bool) → (a || b) ≡ false → (a ≡ false) × (b ≡ false)
or_false true b h = cc
or_false false b h = (refl, h)

Distinct-append :
    (packets : List (List ℕ)) (packet : List ℕ)
    → Distinct packets
    → has_packet packets packet ≡ false
    → Distinct (packets ++ (packet ∷ []))
Distinct-append [] packet good fresh = (refl, tt)
Distinct-append (p ∷ packets) packet good fresh =
    let (here, later) = or_false (same_bytes p packet) (has_packet packets packet) fresh in
    let back : same_bytes packet p ≡ false = same_bytes_sym packet p ∙ here in
    (
      has_packet-append packets packet p ∙ rw (good.0, back) refl,
      Distinct-append packets packet good.1 later,
    )

-- Storing a packet keeps at most 8 packets of at most 1500 bytes, each one once. A packet of at most
-- 1500 bytes is among them then, unless 8 others are.
pub append_packet-IsEntry :
    (entry : Pending) (packet : List ℕ)
    → IsEntry entry
    → IsEntry (append_packet entry packet)
      × (length packet ≤ max_datagram_size
          → length entry.packets < pending_max_packets
          → has_packet (append_packet entry packet).packets packet ≡ true)
unfolding append_packet
append_packet-IsEntry entry packet good =
    elim (Bool-cases (ltb max_datagram_size (length packet))) [
      | inl long ↦ rw long (good, λ short. absurd (clash (length packet) short long))
      | inr short ↦ elim (Bool-cases (has_packet entry.packets packet)) [
        | inl known ↦ rw (short, known) (good, λ fits room. known)
        | inr fresh ↦ elim (Bool-cases (leb pending_max_packets (length entry.packets))) [
          | inl whole ↦ rw (short, fresh, whole) (good, λ fits room. absurd (clash' _ room whole))
          | inr room ↦
              rw (short, fresh, room)
                (
                  record {
                    few = omega (arith, length-append entry.packets (packet ∷ []), under _ room);
                    fit = All-append _ entry.packets (packet ∷ []) good.fit (ltb→le _ _ short, tt);
                    distinct = Distinct-append entry.packets packet good.distinct fresh;
                  },
                  λ fits left.
                      has_packet-append entry.packets packet packet
                      ∙ rw (fresh, same_bytes_refl packet) refl,
                )
        ]
      ]
    ]
  where
    clash : (n : ℕ) → n ≤ max_datagram_size → ltb max_datagram_size n ≡ true → ⊥
    clash n a b = let h = ltb→lt _ _ b in omega arith

    under : (n : ℕ) → leb pending_max_packets n ≡ false → n < pending_max_packets
    under n h = ground arith

    clash' : (n : ℕ) → n < pending_max_packets → leb pending_max_packets n ≡ true → ⊥
    clash' n a b = ground arith
