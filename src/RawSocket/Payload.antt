-- ===== src/RawSocket/Payload.antt =====
-- Which text the packet capture prints.
use mathlib.Core.List.{append_assoc}
use network_ex.Common.{
  ℕ, zero, suc, ◌*◌, ◌/◌, ◌%◌, ◌<◌, ◌≡◌, refl, ap, sym, ◌∙◌, ◌-◌, Option, some, List, false, All,
  map, replicate, [], ◌∷◌, ◌++◌, length, drop, get_or, arith, drop-append, drop-drop,
}
use network_ex.Common.Bytes.{Bytes, NulFree, c_string, filled, c_string-append}
use network_ex.RawSocket.Capture.{
  packet_length, ihl, protocol, doff, print_tcp, print_packet, Captured, capture_loop,
}

-- An IP header of its own length, for TCP.
pub record IsTcpIp (ip : Bytes) : Type 0 where
  pub ip_length : length ip ≡ get_or ip 0 0 % 16 * 4
  pub whole : 9 < length ip
  pub is_tcp : get_or ip 9 0 ≡ 6

-- A TCP header of its own length.
pub record IsTcpHeader (tcp : Bytes) : Type 0 where
  pub tcp_length : length tcp ≡ get_or tcp 12 0 / 16 % 16 * 4
  pub whole : 12 < length tcp

get_or-append : (i d : ℕ) (xs ys : Bytes) → i < length xs → get_or (xs ++ ys) i d ≡ get_or xs i d
get_or-append i d [] ys h = absurd (omega arith)
get_or-append zero d (x ∷ xs) ys h = refl
get_or-append (suc i) d (x ∷ xs) ys h = get_or-append i d xs ys (omega arith)

print_tcp-payload :
    (ip tcp payload rest : Bytes)
    → IsTcpIp ip
    → IsTcpHeader tcp
    → NulFree payload
    → print_tcp (ip ++ (tcp ++ (payload ++ 0 ∷ rest))) ≡ some payload
unfolding print_tcp
print_tcp-payload ip tcp payload rest i t no_nul =
    let text : Bytes = payload ++ 0 ∷ rest in
    let buf : Bytes = ip ++ (tcp ++ text) in
    let ip_words : ihl buf * 4 ≡ length ip =
      omega (arith, i, get_or-append 0 0 ip (tcp ++ text) (omega arith)) in
    let behind_ip : drop (ihl buf * 4) buf ≡ tcp ++ text =
      drop-append (ihl buf * 4) ip (tcp ++ text) ip_words in
    let tcp_words : doff (drop (ihl buf * 4) buf) * 4 ≡ length tcp =
      rw behind_ip (omega (arith, t, get_or-append 12 0 tcp text t.whole)) in
    ap c_string (
      sym (drop-drop (ihl buf * 4) (doff (drop (ihl buf * 4) buf) * 4) buf)
      ∙ ap (drop (doff (drop (ihl buf * 4) buf) * 4)) behind_ip
      ∙ drop-append (doff (drop (ihl buf * 4) buf) * 4) tcp text tcp_words)
    ∙ c_string-append payload rest no_nul

-- For a TCP packet in the cleared buffer, whose two headers have the lengths that they give and whose
-- payload has no NUL, the text printed is the payload: options in either header are skipped.
pub print_packet-tcp :
    (ip tcp payload rest : Bytes)
    → IsTcpIp ip
    → IsTcpHeader tcp
    → NulFree payload
    → print_packet (ip ++ (tcp ++ (payload ++ 0 ∷ rest))) ≡ some payload
unfolding print_packet
print_packet-tcp ip tcp payload rest i t no_nul =
    let is_six : protocol (ip ++ (tcp ++ (payload ++ 0 ∷ rest))) ≡ 6 =
      get_or-append 9 0 ip (tcp ++ (payload ++ 0 ∷ rest)) i.whole ∙ i.is_tcp in
    rw is_six (print_tcp-payload ip tcp payload rest i t no_nul)

-- A TCP packet.
pub record Packet : Type 0 where
  pub ip : Bytes
  pub tcp : Bytes
  pub payload : Bytes

abbrev pub bytes_of : Packet → Bytes
bytes_of p = p.ip ++ (p.tcp ++ p.payload)

-- Both headers have the lengths that they give, and the payload has no NUL and leaves room for one.
pub record IsPacket (p : Packet) : Type 0 where
  pub ip_header : IsTcpIp p.ip
  pub tcp_header : IsTcpHeader p.tcp
  pub text : NulFree p.payload
  pub room : length (bytes_of p) < packet_length

filled-packet :
    (size : ℕ) (ip tcp payload : Bytes)
    → length (ip ++ (tcp ++ payload)) < size
    → (rest : Bytes) × (filled size (ip ++ (tcp ++ payload)) ≡ ip ++ (tcp ++ (payload ++ 0 ∷ rest)))
filled-packet size ip tcp payload room =
    let n : ℕ = size - length (ip ++ (tcp ++ payload)) - 1 in
    let e : size - length (ip ++ (tcp ++ payload)) ≡ suc n = omega arith in
    (
      replicate n 0,
      ap (λ k. (ip ++ (tcp ++ payload)) ++ replicate k 0) e
          ∙ append_assoc ip (tcp ++ payload) (0 ∷ replicate n 0)
          ∙ ap (λ l. ip ++ l) (append_assoc tcp payload (0 ∷ replicate n 0)),
    )

print_packet-Packet :
    (p : Packet) → IsPacket p → print_packet (filled packet_length (bytes_of p)) ≡ some p.payload
print_packet-Packet p h =
    let (rest, e) = filled-packet packet_length p.ip p.tcp p.payload h.room in
    ap print_packet e ∙ print_packet-tcp p.ip p.tcp p.payload rest h.ip_header h.tcp_header h.text

capture_loop-some :
    (packet text : Bytes) (rest : List (Option Bytes)) (c : Captured)
    → print_packet (filled packet_length packet) ≡ some text
    → capture_loop rest ≡ some c
    → capture_loop (some packet ∷ rest) ≡ some (record c { printed = text ∷ c.printed })
unfolding capture_loop
capture_loop-some packet text rest c first others = ground (arith, first, others)

-- TCP packets whose headers have the lengths that they give, whose payloads have no NUL, and which
-- leave room for one in the buffer: `main` prints their payloads in order, each once and whole,
-- whatever the options in the headers and the packets before, and waits for more.
pub capture_prints :
    (packets : List Packet)
    → All IsPacket packets
    → capture_loop (map (λ p. some (bytes_of p)) packets)
      ≡ some (record { printed = map (λ p. p.payload) packets; returned = false })
unfolding capture_loop
capture_prints [] h = refl
capture_prints (p ∷ packets) h =
    capture_loop-some (bytes_of p) p.payload _ _ (print_packet-Packet p h.0)
      (capture_prints packets h.1)
