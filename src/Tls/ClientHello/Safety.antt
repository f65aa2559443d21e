-- ===== src/Tls/ClientHello/Safety.antt =====
-- `client_hello_sni` on any bytes: it ends, it never leaves the structure that it is in, and what it
-- returns is a valid host name.
use quic_sni_router.Base.{
  ℕ, zero, suc, ◌+◌, ◌%◌, ◌≤◌, ◌<◌, ◌≡◌, refl, ap, Bool, true, not, ◌||◌, List, arith, invalid,
  truncated, not_found, ltb, leb, ◌==◌, length, All, IsByte, Safe-read, Safe, Safe-bind,
  Safe-reject_if, Safe-weaken, Safe-if,
}
use quic_sni_router.Quic.CryptoStream.{max_client_hello_size}
use quic_sni_router.Tls.Reader
use quic_sni_router.Tls.Reader.{
  Reader, init, has, remaining, u8, u16, u24, skip, subreader, subreader_available, view,
}
use quic_sni_router.Tls.Reader.Bounds.{
  IsReader, u8-Safe, u16-Safe, u24-Safe, skip-Safe, subreader-Safe, subreader_available-Safe,
  view-Safe, init-IsReader, has→le,
}
use quic_sni_router.Tls.Hostname.{max_hostname_len, valid_hostname}
use quic_sni_router.Tls.ClientHello.{
  name_loop, parse_sni_extension, unwrap_record, handshake_body, skip_fields, extension_loop,
  find_sni, client_hello_sni,
}

-- A name that fits `qsr_sni_t`, with the zero behind it.
pub record IsName (name : List ℕ) : Type 0 where
  pub is_hostname : valid_hostname name ≡ true
  pub fits : length name ≤ max_hostname_len
  pub are_bytes : All IsByte name

valid_hostname-fits : (name : List ℕ) → valid_hostname name ≡ true → length name ≤ max_hostname_len
unfolding valid_hostname
valid_hostname-fits name h = ground arith

name_loop-Safe :
    (fuel : ℕ) (list : Reader)
    → IsReader list
    → list.end < fuel + list.offset
    → Safe IsName (name_loop fuel list)
unfolding name_loop
name_loop-Safe zero list good h = absurd (let o = good.offset_in in omega arith)
name_loop-Safe (suc fuel) list good h =
    Safe-if _ (leb 3 (Reader.remaining list)) _ _
      (λ more. Safe-bind _ _ (Reader.u8 list) _ (u8-Safe list good) λ (name_type, l1) (_, a1, o1).
        Safe-bind _ _ (Reader.u16 l1) _ (u16-Safe l1 a1.valid) λ (name_len, l2) (_, a2, o2).
          Safe-reject_if _ (not (Reader.has l2 name_len)) truncated _ λ room.
            Safe-if _ (name_type == 0) _ _
              (λ host.
                Safe-bind _ _ (Reader.view l2 name_len) _
                  (view-Safe l2 a2.valid name_len (ground arith))
                  λ name (all, len).
                    Safe-reject_if _ (not (valid_hostname name)) invalid _ λ accepted.
                      let good_name : valid_hostname name ≡ true = ground arith in
                      record {
                        is_hostname = good_name;
                        fits = valid_hostname-fits name good_name;
                        are_bytes = all;
                      })
              (λ other.
                Safe-bind _ _ (Reader.skip l2 name_len) _ (skip-Safe l2 a2.valid name_len)
                  λ l3 (a3, o3).
                    let e1 = a1.same_end in
                    let e2 = a2.same_end in
                    let e3 = a3.same_end in name_loop-Safe fuel l3 a3.valid (omega arith)))
      (λ few. tt)

parse_sni_extension-Safe : (r : Reader) → IsReader r → Safe IsName (parse_sni_extension r)
unfolding parse_sni_extension
parse_sni_extension-Safe r good =
    Safe-bind _ _ (Reader.u16 r) _ (u16-Safe r good) λ (list_len, r1) (_, a1, o1).
      Safe-bind _ _ (Reader.subreader r1 list_len) _ (subreader-Safe r1 a1.valid list_len)
        λ (list, r2) (child, end, _, _). name_loop-Safe (list_len + 1) list child (omega arith)

unwrap_record-Safe :
    (bytes : List ℕ) (r : Reader)
    → All IsByte bytes
    → IsReader r
    → r.bytes ≡ bytes
    → Safe IsReader (unwrap_record bytes r)
unfolding unwrap_record
unwrap_record-Safe bytes r all good same =
    Safe-if _ (Reader.has r 5) _ _
      (λ room.
        let e = good.end_in in
        let five = has→le r 5 (ground arith) in
        let same_len : length r.bytes ≡ length bytes = ap length same in
        Safe-read _ bytes 0 _ all (omega arith) λ content_type _ _.
          Safe-if _ (content_type == 0x16) _ _
            (λ wrapped. Safe-bind _ _ (Reader.skip r 3) _ (skip-Safe r good 3) λ r1 (a1, _).
              Safe-bind _ _ (Reader.u16 r1) _ (u16-Safe r1 a1.valid) λ (record_len, r2) (_, a2, _).
                Safe-bind _ _ (Reader.subreader r2 record_len) _
                  (subreader-Safe r2 a2.valid record_len) λ (body, r3) (child, _, _, _). child)
            (λ bare. good))
      (λ short. good)

handshake_body-Safe : (r : Reader) → IsReader r → Safe (λ p. IsReader p.0) (handshake_body r)
unfolding handshake_body
handshake_body-Safe r good = Safe-reject_if _ (not (Reader.has r 1)) invalid _ λ room.
    Safe-bind _ _ (Reader.u8 r) _ (u8-Safe r good) λ (msg_type, r1) (_, a1, _).
      Safe-reject_if _ (not (msg_type == 0x01)) invalid _ λ hello.
        Safe-bind _ _ (Reader.u24 r1) _ (u24-Safe r1 a1.valid) λ (hello_len, r2) (_, a2, _).
          Safe-bind _ _ (Reader.subreader_available r2 hello_len) _
            (subreader_available-Safe r2 a2.valid hello_len) λ (body, r3, cut) (child, _, _). child

skip_fields-Safe : (r : Reader) → IsReader r → Safe IsReader (skip_fields r)
unfolding skip_fields
skip_fields-Safe r good =
    Safe-bind _ _ (Reader.skip r (2 + 32)) _ (skip-Safe r good (2 + 32)) λ h1 (a1, _).
      Safe-bind _ _ (Reader.u8 h1) _ (u8-Safe h1 a1.valid) λ (n1, h2) (_, a2, _).
        Safe-bind _ _ (Reader.skip h2 n1) _ (skip-Safe h2 a2.valid n1) λ h3 (a3, _).
          Safe-bind _ _ (Reader.u16 h3) _ (u16-Safe h3 a3.valid) λ (n2, h4) (_, a4, _).
            Safe-reject_if _ (not (n2 % 2 == 0)) invalid _ λ even.
              Safe-bind _ _ (Reader.skip h4 n2) _ (skip-Safe h4 a4.valid n2) λ h5 (a5, _).
                Safe-bind _ _ (Reader.u8 h5) _ (u8-Safe h5 a5.valid) λ (n3, h6) (_, a6, _).
                  Safe-weaken _ _ (Reader.skip h6 n3) (skip-Safe h6 a6.valid n3) λ h7 p. p.0.valid

extension_loop-Safe :
    (fuel : ℕ) (cut : Bool) (r : Reader)
    → IsReader r
    → r.end < fuel + r.offset
    → Safe IsName (extension_loop fuel cut r)
unfolding extension_loop
extension_loop-Safe zero cut r good h = absurd (let o = good.offset_in in omega arith)
extension_loop-Safe (suc fuel) cut r good h =
    Safe-if _ (leb 4 (Reader.remaining r)) _ _
      (λ more. Safe-bind _ _ (Reader.u16 r) _ (u16-Safe r good) λ (ext_type, e1) (_, a1, o1).
        Safe-bind _ _ (Reader.u16 e1) _ (u16-Safe e1 a1.valid) λ (ext_len, e2) (_, a2, o2).
          Safe-bind _ _ (Reader.subreader e2 ext_len) _ (subreader-Safe e2 a2.valid ext_len)
            λ (ext_body, e3) (child, _, a3, o3).
              Safe-if _ (ext_type == 0) _ _ (λ sni. parse_sni_extension-Safe ext_body child)
                (λ other.
                  let s1 = a1.same_end in
                  let s2 = a2.same_end in
                  let s3 = a3.same_end in extension_loop-Safe fuel cut e3 a3.valid (omega arith)))
      (λ few. tt)

find_sni-Safe : (r : Reader) (cut : Bool) → IsReader r → Safe IsName (find_sni r cut)
unfolding find_sni
find_sni-Safe r cut good = Safe-reject_if _ (Reader.remaining r == 0) not_found _ λ more.
    Safe-bind _ _ (Reader.u16 r) _ (u16-Safe r good) λ (len, h1) (_, a1, _).
      Safe-bind _ _ (Reader.subreader_available h1 len) _ (subreader_available-Safe h1 a1.valid len)
        λ (extensions, h2, cut') (child, end, _).
          extension_loop-Safe (len + 1) (cut || cut') extensions child (omega arith)

-- `qsr_tls_client_hello_sni` on any bytes ends with a status or a name, and reads nothing outside
-- them. A name that it returns passes `valid_hostname`, and fits `qsr_sni_t` with the zero behind it.
pub client_hello_sni-Safe :
    (bytes : List ℕ) → All IsByte bytes → Safe IsName (client_hello_sni bytes)
unfolding client_hello_sni
client_hello_sni-Safe bytes all =
    Safe-reject_if _ (ltb max_client_hello_size (length bytes)) invalid _ λ fits.
      Safe-bind _ _ (unwrap_record bytes (Reader.init bytes (length bytes))) _
        (unwrap_record-Safe bytes _ all (init-IsReader bytes all) (unfold Reader.init in refl))
        λ r good.
          Safe-bind _ _ (handshake_body r) _ (handshake_body-Safe r good) λ (hello, cut) valid.
            Safe-bind _ _ (skip_fields hello) _ (skip_fields-Safe hello valid)
              λ h valid'. find_sni-Safe h cut valid'
