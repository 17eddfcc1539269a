-- ===== src/RawSocket/Capture.antt =====
-- `PrintPacket` and `PrintTcp` of 21_raw_socket/packet_capture/main.c, and the loop of its `main`.
use network_ex.Common.{
  ℕ, ◌+◌, ◌*◌, ◌/◌, ◌%◌, Option, none, some, List, Bool, true, false, [], ◌∷◌, ◌++◌, drop, get_or,
  ◌==◌, if◌then◌else◌,
}
use network_ex.Common.Bytes.{Bytes, codes, c_string, filled}

-- PACKET_LENGTH
abbrev pub packet_length : ℕ
packet_length = 65536

-- `ihl`, the low half of the first byte of the IP header.
abbrev pub ihl : Bytes → ℕ
ihl buf = get_or buf 0 0 % 16

-- `protocol`, byte 9 of the IP header.
abbrev pub protocol : Bytes → ℕ
protocol buf = get_or buf 9 0

-- `doff`, the high half of byte 12 of the TCP header.
abbrev pub doff : Bytes → ℕ
doff tcp = get_or tcp 12 0 / 16 % 16

-- `PrintTcp`: the C string behind both headers; `none` where no NUL follows in the buffer.
unfoldable pub print_tcp : Bytes → Option Bytes
print_tcp buf =
    let iphdrlen = ihl buf * 4 in
    let tcph = drop iphdrlen buf in c_string (drop (ihl buf * 4 + doff tcph * 4) buf)

-- `PrintPacket`: what is printed for a protocol.
unfoldable pub print_packet : Bytes → Option Bytes
print_packet buf =
    if protocol buf == 1
    then some (codes "I recv icmp Packet" ++ 10 ∷ [])
    else if protocol buf == 6
    then print_tcp buf
    else if protocol buf == 17
    then some (codes "I recv UDP Packet" ++ 10 ∷ [])
    else some []

-- What the loop of `main` printed, and whether `main` has returned.
pub record Captured : Type 0 where
  pub printed : List Bytes
  pub returned : Bool

abbrev pub then_printed : Bytes → Option Captured → Option Captured
then_printed text none = none
then_printed text (some c) = some (record c { printed = text ∷ c.printed })

-- The loop of `main`: each packet is received into the cleared buffer; -1 from `recvfrom` ends it.
unfoldable pub capture_loop : List (Option Bytes) → Option Captured
capture_loop [] = some (record { printed = []; returned = false })
capture_loop (none ∷ rest) = some (record { printed = []; returned = true })
capture_loop (some packet ∷ rest) =
    let more = capture_loop rest in
    elim (print_packet (filled packet_length packet)) [
      | none ↦ none
      | some text ↦ then_printed text more
    ]
