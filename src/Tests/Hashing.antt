-- ===== src/Tests/Hashing.antt =====
-- The reference vector of SipHash-2-4: 15 bytes under the key of 16 bytes, each its own index.
use quic_sni_router.Base.{ℕ, zero, suc, ◌+◌, ◌≡◌, refl, List, [], ◌∷◌}
use quic_sni_router.Hash.{siphash24, sip_round, absorb, absorb_words, trailing, rotl, word_at}

abbrev counted : ℕ → ℕ → List ℕ
counted zero i = []
counted (suc n) i = i ∷ counted n (i + 1)

siphash24_vector : siphash24 (counted 15 0) (counted 16 0) ≡ 0xa129ca6149be45e5
unfolding siphash24 sip_round absorb absorb_words trailing rotl word_at
siphash24_vector = refl
