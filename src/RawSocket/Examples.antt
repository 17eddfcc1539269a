-- ===== src/RawSocket/Examples.antt =====
-- A packet of seven bytes, a reply behind a header of 20 bytes, and a TCP packet with options.
use network_ex.Common.{ℕ, ◌≡◌, refl, some, false, [], ◌∷◌, ◌++◌, replicate, arith}
use network_ex.Common.Bytes.{Bytes, codes}
use network_ex.RawSocket.Checksum.{in_cksum, with_checksum, sum_words, fold_sum, in_cksum-checks}
use network_ex.RawSocket.Capture.{capture_loop}
use network_ex.RawSocket.Payload.{Packet, bytes_of, IsPacket, capture_prints}

abbrev tail : Bytes
tail = 1 ∷ 2 ∷ 3 ∷ []

abbrev checksum : ℕ
checksum = 65011

checksum_computed : in_cksum (with_checksum 8 0 0 tail) 7 ≡ some checksum
unfolding in_cksum sum_words fold_sum
checksum_computed = refl

in_cksum-checks_example : in_cksum (with_checksum 8 0 checksum tail) 7 ≡ some 0
in_cksum-checks_example =
    in_cksum-checks 8 0 3 checksum tail (omega arith) (omega arith) checksum_computed

-- 24 bytes, for TCP.
abbrev ip_header : Bytes
ip_header = 70 ∷ replicate 8 0 ++ 6 ∷ replicate 14 0

-- 24 bytes.
abbrev tcp_header : Bytes
tcp_header = replicate 12 0 ++ 96 ∷ replicate 11 0

abbrev hello : Packet
hello = record { ip = ip_header; tcp = tcp_header; payload = codes "hello" }

hello-IsPacket : IsPacket hello
hello-IsPacket = record {
  ip_header = record { ip_length = refl; whole = omega arith; is_tcp = refl };
  tcp_header = record { tcp_length = refl; whole = omega arith };
  text = omega arith;
  room = omega arith;
}

capture_prints_example :
    capture_loop (some (bytes_of hello) ∷ some (bytes_of hello) ∷ [])
    ≡ some (record { printed = codes "hello" ∷ codes "hello" ∷ []; returned = false })
capture_prints_example = capture_prints (hello ∷ hello ∷ []) (hello-IsPacket, (hello-IsPacket, tt))
