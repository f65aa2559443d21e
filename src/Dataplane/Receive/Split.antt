-- ===== src/Dataplane/Receive/Split.antt =====
-- The datagrams of a coalesced message.
use quic_sni_router.Base.{
  ℕ, zero, suc, ◌%◌, ◌^◌, ◌≤◌, min, ◌≡◌, refl, sym, ap, ◌∙◌, ◌⊎◌, inl, inr, true, false, ◌||◌,
  Option, none, some, List, [], ◌∷◌, ◌++◌, arith, ltb, ◌==◌, ltb→lt, ltb→le, Bool-cases, length,
  set, take, drop, length-take, length-drop, take-append-drop,
}
use quic_sni_router.Dataplane.Receive.{
  Message, recv_buffer_size, segment_size, split_loop, split_message,
}
use quic_sni_router.Quic.Crypto.{max_datagram_size}

abbrev pub joined : List (List ℕ) → List ℕ
joined [] = []
joined (chunk ∷ chunks) = chunk ++ joined chunks

-- Every datagram but the last one has the size of a segment, and the last one is neither empty nor
-- longer.
abbrev pub AreSegments : ℕ → List (List ℕ) → Type 0
AreSegments size [] = Unit {0}
AreSegments size (chunk ∷ []) = (1 ≤ length chunk) × (length chunk ≤ size)
AreSegments size (chunk ∷ (next ∷ chunks)) =
    (length chunk ≡ size) × AreSegments size (next ∷ chunks)

-- A full segment in front of segments.
cons-AreSegments :
    (size : ℕ) (chunk : List ℕ) (chunks : List (List ℕ))
    → 1 ≤ size
    → length chunk ≡ size
    → AreSegments size chunks
    → AreSegments size (chunk ∷ chunks)
cons-AreSegments size chunk [] pos e good = (omega arith, omega arith)
cons-AreSegments size chunk (next ∷ chunks) pos e good = (e, good)

split_nil : (fuel size : ℕ) → split_loop fuel size [] ≡ []
unfolding split_loop
split_nil zero size = refl
split_nil (suc fuel) size = refl

drop_all : (n : ℕ) (xs : List ℕ) → length xs ≤ n → drop n xs ≡ []
drop_all zero [] h = refl
drop_all zero (x ∷ xs) h = absurd (omega arith)
drop_all (suc n) [] h = refl
drop_all (suc n) (x ∷ xs) h = drop_all n xs (omega arith)

split_loop_lem :
    (fuel size : ℕ) (bytes : List ℕ)
    → 1 ≤ size
    → length bytes ≤ fuel
    → (joined (split_loop fuel size bytes) ≡ bytes) × AreSegments size (split_loop fuel size bytes)
unfolding split_loop
split_loop_lem zero size [] pos h = (refl, tt)
split_loop_lem zero size (b ∷ bytes) pos h = absurd (omega arith)
split_loop_lem (suc fuel) size [] pos h = (refl, tt)
split_loop_lem (suc fuel) size (b ∷ bytes) pos h =
    let whole = b ∷ bytes in
    let chunk = min (length whole) size in
    let (later, segments) =
      split_loop_lem fuel size (drop chunk whole) pos (omega (arith, length-drop chunk whole)) in
    (
      ap (λ t. take chunk whole ++ t) later ∙ take-append-drop chunk whole,
      elim (Bool-cases (ltb size (length whole))) [
        | inl more ↦
            cons-AreSegments size (take chunk whole) _ pos
              (omega (arith, length-take chunk whole, ltb→lt _ _ more)) segments
        | inr last ↦
            let small = ltb→le size (length whole) last in
            let gone : drop chunk whole ≡ [] = drop_all chunk whole (omega arith) in
            rw (gone, split_nil fuel size)
              (omega (arith, length-take chunk whole), omega (arith, length-take chunk whole))
      ],
    )

-- What the split owes to a message of `msg_len` bytes in segments of `size` bytes.
abbrev pub IsSplit : Message → List (List ℕ) → Type 0
IsSplit m chunks =
    let size = segment_size (length m.bytes) m.gro_size in
    (joined chunks ≡ m.bytes) × AreSegments size chunks × (size ≤ max_datagram_size)

-- A message with bytes, not more than the buffer has room for, complete, and with segments that are
-- datagrams.
abbrev pub IsAccepted : Message → Type 0
IsAccepted m =
    (1 ≤ length m.bytes)
    × (length m.bytes ≤ recv_buffer_size)
    × (m.truncated_flag ≡ false)
    × (segment_size (length m.bytes) m.gro_size ≤ max_datagram_size)

-- The loop over a coalesced message ends. A message that has bytes, fits the buffer of 16384 bytes, is
-- not truncated and has segments of at most 1500 bytes is taken apart without loss: the datagrams in
-- turn are the bytes of the message, each has the size of a segment but for the last one, and that is
-- neither empty nor longer. Every other message is dropped whole.
pub split_message-IsSplit :
    (m : Message)
    → (IsAccepted m × IsSplit m (split_message m)) ⊎ ((¬ IsAccepted m) × (split_message m ≡ []))
unfolding split_message
split_message-IsSplit m =
    elim (Bool-cases (length m.bytes == 0 || ltb recv_buffer_size (length m.bytes))) [
      | inl bad ↦ inr (λ (a, b, c, d). unfit (length m.bytes) bad a b, rw bad refl)
      | inr sized ↦ elim (Bool-cases m.truncated_flag) [
        | inl cut ↦
            inr (λ (a, b, c, d). let clash : true ≡ false = sym cut ∙ c in cc, rw (sized, cut) refl)
        | inr complete ↦
            elim (Bool-cases (ltb max_datagram_size (segment_size (length m.bytes) m.gro_size))) [
              | inl large ↦ inr (
                λ (a, b, c, d). let h = ltb→lt _ _ large in absurd (omega arith),
                rw (sized, complete, large) refl,
              )
              | inr small ↦
                  let (whole, segments) =
                    split_loop_lem (length m.bytes) (segment_size (length m.bytes) m.gro_size)
                      m.bytes (positive m.gro_size (filled (length m.bytes) sized)) (omega arith) in
                  let (some_bytes, room) = fit (length m.bytes) sized in
                  inl (
                    (some_bytes, room, complete, ltb→le _ _ small),
                    rw (sized, complete, small) (whole, segments, ltb→le _ _ small),
                  )
            ]
      ]
    ]
  where
    unfit : (n : ℕ) → (n == 0 || ltb recv_buffer_size n) ≡ true → 1 ≤ n → n ≤ recv_buffer_size → ⊥
    unfit n h a b = ground arith

    fit : (n : ℕ) → (n == 0 || ltb recv_buffer_size n) ≡ false → (1 ≤ n) × (n ≤ recv_buffer_size)
    fit n h = (ground arith, ground arith)

    filled : (n : ℕ) → (n == 0 || ltb recv_buffer_size n) ≡ false → 1 ≤ n
    filled n h = ground arith

    positive : (gro : Option ℕ) → 1 ≤ length m.bytes → 1 ≤ segment_size (length m.bytes) gro
    positive none h = h
    positive (some gso) h = elim (Bool-cases (ltb 0 (gso % 2 ^ 16))) [
      | inl set ↦ rw set (ltb→lt 0 (gso % 2 ^ 16) set)
      | inr zero_size ↦ rw zero_size h
    ]
