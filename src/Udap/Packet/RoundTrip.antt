-- ===== src/Udap/Packet/RoundTrip.antt =====
-- The header's wire form: parsing and encoding are inverse, and what is refused.
use mathlib.Core.Path.{subst}
use mathlib.Core.Option.{some-injective}
use go_udap.Prelude.{◌≡◌, refl, ◌∷◌, ◌++◌, some, length, ok, arith, length-append}
use go_udap.Prelude.Bytes.{Bytes, AreBytes, from_be16-be16, be16-from_be16}
use go_udap.Udap.Packet.{
  Packet, IsPacket, encode_packet, read_header, parse_packet, type_ucp, udap_header_size,
}

pub length-encode_packet : (p : Packet) → length (encode_packet p) ≡ udap_header_size
unfolding encode_packet
length-encode_packet p = refl

read_header-encode_packet :
    (p : Packet) (rest : Bytes)
    → IsPacket p
    → read_header (encode_packet p ++ rest) ≡ some (p, rest)
unfolding read_header encode_packet
read_header-encode_packet p rest v = cc (
  from_be16-be16 p.sequence v.sequence,
  from_be16-be16 p.udap_type v.udap_type,
  from_be16-be16 p.ucp_method v.ucp_method,
)

-- A UCP header with any payload behind it is parsed to the header and the payload.
pub parse_packet-encode_packet :
    (p : Packet) (rest : Bytes)
    → IsPacket p
    → p.udap_type ≡ type_ucp
    → parse_packet (encode_packet p ++ rest) ≡ ok (p, rest)
unfolding parse_packet
parse_packet-encode_packet p rest v e = ground (
  arith,
  length-append (encode_packet p) rest,
  length-encode_packet p,
  read_header-encode_packet p rest v,
)

-- What the header reader returns is in range, and its wire form is what was read.
read_header_sound :
    (s : Bytes) (r : Packet × Bytes)
    → AreBytes s
    → read_header s ≡ some r
    → IsPacket r.0 × (s ≡ encode_packet r.0 ++ r.1)
unfolding read_header encode_packet
read_header_sound
      (db ∷ dt ∷ d0 ∷ d1 ∷ d2 ∷ d3 ∷ d4 ∷ d5 ∷ sb ∷ st ∷ s0 ∷ s1 ∷ s2 ∷ s3 ∷ s4 ∷ s5 ∷ n0 ∷ n1 ∷ u0
        ∷ u1 ∷ fl ∷ c0 ∷ c1 ∷ c2 ∷ c3 ∷ m0 ∷ m1 ∷ rest)
      r
      (
        hdb,
        (
          hdt,
          (
            hd0,
            (
              hd1,
              (
                hd2,
                (
                  hd3,
                  (
                    hd4,
                    (
                      hd5,
                      (
                        hsb,
                        (
                          hst,
                          (
                            hs0,
                            (
                              hs1,
                              (
                                hs2,
                                (
                                  hs3,
                                  (
                                    hs4,
                                    (
                                      hs5,
                                      (
                                        hn0,
                                        (
                                          hn1,
                                          (
                                            hu0,
                                            (
                                              hu1,
                                              (
                                                hfl,
                                                (hc0, (hc1, (hc2, (hc3, (hm0, (hm1, hrest)))))),
                                              ),
                                            ),
                                          ),
                                        ),
                                      ),
                                    ),
                                  ),
                                ),
                              ),
                            ),
                          ),
                        ),
                      ),
                    ),
                  ),
                ),
              ),
            ),
          ),
        ),
      )
      e =
    let (n_hi, n_lo, n_max) = be16-from_be16 n0 n1 hn0 hn1 in
    let (u_hi, u_lo, u_max) = be16-from_be16 u0 u1 hu0 hu1 in
    let (m_hi, m_lo, m_max) = be16-from_be16 m0 m1 hm0 hm1 in
    subst
      (λ t.
        IsPacket t.0
        × ((db ∷ dt ∷ d0 ∷ d1 ∷ d2 ∷ d3 ∷ d4 ∷ d5 ∷ sb ∷ st ∷ s0 ∷ s1 ∷ s2 ∷ s3 ∷ s4 ∷ s5 ∷ n0 ∷ n1
              ∷ u0 ∷ u1 ∷ fl ∷ c0 ∷ c1 ∷ c2 ∷ c3 ∷ m0 ∷ m1 ∷ rest)
            ≡ encode_packet t.0 ++ t.1))
      (some-injective _ _ e) (omega arith, cc (n_hi, n_lo, u_hi, u_lo, m_hi, m_lo))
read_header_sound s r h e = cc

parse_packet_ok :
    (s rest : Bytes) (p : Packet)
    → parse_packet s ≡ ok (p, rest)
    → (read_header s ≡ some (p, rest)) × (p.udap_type ≡ type_ucp)
unfolding parse_packet
parse_packet_ok s rest p h = (ground arith, ground arith)

-- An accepted text of bytes is the wire form of the header that is returned, and the payload.
pub encode_packet-parse_packet :
    (s rest : Bytes) (p : Packet)
    → AreBytes s
    → parse_packet s ≡ ok (p, rest)
    → IsPacket p × (p.udap_type ≡ type_ucp) × (s ≡ encode_packet p ++ rest)
encode_packet-parse_packet s rest p hs h =
    let (reads, ucp) = parse_packet_ok s rest p h in
    let (v, e) = read_header_sound s (p, rest) hs reads in (v, ucp, e)
