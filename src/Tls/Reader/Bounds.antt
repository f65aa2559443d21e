-- ===== src/Tls/Reader/Bounds.antt =====
-- A reader never leaves its structure: every operation keeps `offset <= end <= buffer`.
use quic_sni_router.Base.{
  ℕ, ◌+◌, ◌-◌, ◌*◌, ◌^◌, ◌≤◌, ◌<◌, bit_or, ◌≡◌, refl, ◌∙◌, true, false, not, ◌&&◌, List, arith,
  truncated, ltb, ◌==◌, if◌then◌else◌, length, drop, All, length-take, length-drop, All-drop,
  All-take, IsByte, copy-in, Safe-read, Safe-advance, Safe, Safe-reject_if,
}
use quic_sni_router.Base.Bits.{bit_or_byte, bit_or_word}
use quic_sni_router.Tls.Reader.{
  Reader, init, has, remaining, u8, u16, u24, skip, subreader, subreader_available, view,
}

pub record IsReader (r : Reader) : Type 0 where
  pub are_bytes : All IsByte r.bytes
  pub offset_in : r.offset ≤ r.end
  pub end_in : r.end ≤ length r.bytes

-- A reader of the same structure, further on.
pub record After (r r' : Reader) : Type 0 where
  pub valid : IsReader r'
  pub same_end : r'.end ≡ r.end
  pub further : r.offset ≤ r'.offset

moved :
    (r : Reader) (n : ℕ)
    → IsReader r
    → r.offset + n ≤ r.end
    → After r (record r { offset = r.offset + n })
moved r n good h = record {
  valid = record { are_bytes = good.are_bytes; offset_in = h; end_in = good.end_in };
  same_end = refl;
  further = omega arith;
}

pub has→le : (r : Reader) (n : ℕ) → not (has r n) ≡ false → r.offset + n ≤ r.end
unfolding has
has→le r n h = ground arith

module _ (r : Reader) (good : IsReader r) where
  pub u8-Safe : Safe (λ p. IsByte p.0 × After r p.1 × (p.1.offset ≡ r.offset + 1)) (u8 r)
  unfolding u8
  u8-Safe = Safe-reject_if _ (not (has r 1)) truncated _ λ room.
      let h = has→le r 1 room in
      let e = good.end_in in
      Safe-read _ r.bytes r.offset _ good.are_bytes (omega arith)
        λ b hb _. (hb, moved r 1 good h, refl)

  pub u16-Safe : Safe (λ p. (p.0 < 2 ^ 16) × After r p.1 × (p.1.offset ≡ r.offset + 2)) (u16 r)
  unfolding u16
  u16-Safe = Safe-reject_if _ (not (has r 2)) truncated _ λ room.
      let h = has→le r 2 room in
      let e = good.end_in in
      Safe-read _ r.bytes r.offset _ good.are_bytes (omega arith) λ b0 h0 _.
        Safe-read _ r.bytes (r.offset + 1) _ good.are_bytes (omega arith)
          λ b1 h1 _. (omega arith, moved r 2 good h, refl)

  pub u24-Safe : Safe (λ p. (p.0 < 2 ^ 24) × After r p.1 × (p.1.offset ≡ r.offset + 3)) (u24 r)
  unfolding u24
  u24-Safe = Safe-reject_if _ (not (has r 3)) truncated _ λ room.
      let h = has→le r 3 room in
      let e = good.end_in in
      Safe-read _ r.bytes r.offset _ good.are_bytes (omega arith) λ b0 h0 _.
        Safe-read _ r.bytes (r.offset + 1) _ good.are_bytes (omega arith) λ b1 h1 _.
          Safe-read _ r.bytes (r.offset + 2) _ good.are_bytes (omega arith) λ b2 h2 _.
            let top : bit_or (b0 * 2 ^ 16) (b1 * 2 ^ 8) ≡ (b0 * 256 + b1) * 256 =
              bit_or_word b0 (b1 * 2 ^ 8) (omega arith) ∙ omega arith in
            let all : bit_or ((b0 * 256 + b1) * 256) b2 ≡ (b0 * 256 + b1) * 256 + b2 =
              bit_or_byte (b0 * 256 + b1) b2 h2 in
            (rw (top, all) (omega arith), moved r 3 good h, refl)

  pub skip-Safe : (n : ℕ) → Safe (λ r'. After r r' × (r'.offset ≡ r.offset + n)) (skip r n)
  unfolding skip
  skip-Safe n =
      Safe-reject_if _ (not (has r n)) truncated _ λ room. (moved r n good (has→le r n room), refl)

  pub subreader-Safe :
      (n : ℕ)
      → Safe
          (λ p. IsReader p.0 × (p.0.end ≡ n) × After r p.1 × (p.1.offset ≡ r.offset + n))
          (subreader r n)
  unfolding subreader
  subreader-Safe n = Safe-reject_if _ (not (has r n)) truncated _ λ room.
      let h = has→le r n room in
      let e = good.end_in in
      Safe-advance _ r.bytes r.offset _ good.are_bytes (omega arith) λ rest rall rlen _.
        let child : IsReader (record { bytes = rest; end = n; offset = 0 }) = record {
          are_bytes = rall;
          offset_in = omega arith;
          end_in = omega arith;
        } in
        (child, refl, moved r n good h, refl)

  pub subreader_available-Safe :
      (n : ℕ) → Safe (λ p. IsReader p.0 × (p.0.end ≤ n) × After r p.1) (subreader_available r n)
  unfolding subreader_available remaining
  subreader_available-Safe n =
      let o = good.offset_in in
      let e = good.end_in in
      let len : ℕ = if ltb n (r.end - r.offset) then n else r.end - r.offset in
      let short : (len ≤ n) × (r.offset + len ≤ r.end) = ground arith in
      Safe-advance _ r.bytes r.offset _ good.are_bytes (omega arith) λ rest rall rlen _.
        Safe-reject_if _ (len == 0 && ltb 0 n) truncated _ λ nonempty.
          let child : IsReader (record { bytes = rest; end = len; offset = 0 }) = record {
            are_bytes = rall;
            offset_in = omega arith;
            end_in = omega arith;
          } in
          (child, short.0, moved r len good short.1)

  pub view-Safe :
      (n : ℕ) → has r n ≡ true → Safe (λ name. All IsByte name × (length name ≡ n)) (view r n)
  unfolding view has
  view-Safe n room =
      let h : r.offset + n ≤ r.end = ground arith in
      let e = good.end_in in
      let fits : r.offset + n ≤ length r.bytes = omega arith in
      rw (copy-in r.bytes r.offset n fits) (
        All-take IsByte n _ (All-drop IsByte r.offset r.bytes good.are_bytes),
        omega (arith, length-take n (drop r.offset r.bytes), length-drop r.offset r.bytes),
      )

pub init-IsReader : (bytes : List ℕ) → All IsByte bytes → IsReader (init bytes (length bytes))
unfolding init
init-IsReader bytes all = record { are_bytes = all; offset_in = omega arith; end_in = omega arith }
