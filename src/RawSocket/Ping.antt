-- ===== src/RawSocket/Ping.antt =====
-- The request and the reply of 21_raw_socket/icmp_check/main.c.
use network_ex.Common.{
  ℕ, suc, ◌+◌, ◌*◌, ◌/◌, ◌%◌, ◌≤◌, ◌≡◌, refl, ap, sym, Option, none, some, [], ◌∷◌, ◌++◌, length,
  take, drop, replicate, arith, drop-append,
}
use network_ex.Common.Bytes.{Bytes}
use network_ex.RawSocket.Checksum.{
  sum_words, fold_sum, in_cksum, sum_words-zeros, with_checksum, in_cksum-checks,
}

-- The bytes behind the checksum in the cleared buffer: the identifier and the sequence number 15,
-- each with its low byte first, and zeros. `fill` is the count of the zeros.
abbrev pub request_rest : ℕ → ℕ → Bytes
request_rest pid fill = pid % 256 ∷ pid / 256 % 256 ∷ 15 ∷ 0 ∷ replicate fill 0

-- The buffer of 1024 bytes with the header that `main` makes: ICMP_ECHO is 8.
abbrev pub request_buffer : ℕ → ℕ → Bytes
request_buffer pid cksum = with_checksum 8 0 cksum (request_rest pid 1016)

abbrev pub first_28 : ℕ → Option ℕ → Option Bytes
first_28 pid none = none
first_28 pid (some cksum) = some (take 28 (request_buffer pid cksum))

-- What `main` sends: the checksum is computed over 1000 bytes, and sizeof(*p) = 28 of them go out.
unfoldable pub make_request : ℕ → Option Bytes
make_request pid = first_28 pid (in_cksum (request_buffer pid 0) 1000)

-- What `main` prints of a reply.
pub record Reply : Type 0 where
  pub icmp_type : ℕ
  pub icmp_code : ℕ
  pub icmp_seq : ℕ
  pub icmp_id : ℕ

-- The fields of the `struct icmp` at the start of a block.
abbrev icmp_at : Bytes → Option Reply
icmp_at (t ∷ c ∷ k ∷ l ∷ i ∷ j ∷ s ∷ u ∷ rest) =
    some (record { icmp_type = t; icmp_code = c; icmp_seq = s + 256 * u; icmp_id = i + 256 * j })
icmp_at _ = none

-- The length of the IP header: `ip_hl`, the low half of the first byte, counts words.
abbrev pub header_length : Bytes → ℕ
header_length [] = 0
header_length (b ∷ rest) = b % 16 * 4

-- The reply behind the IP header of what `recvfrom` put into the buffer.
unfoldable pub read_reply : Bytes → Option Reply
read_reply buffer = icmp_at (drop (header_length buffer) buffer)

-- The sum over the header and any of the zeros behind it.
abbrev total : ℕ → ℕ → ℕ
total pid c =
    0
    + (8 + 256 * 0)
    + (c % 256 + 256 * (c / 256))
    + (pid % 256 + 256 * (pid / 256 % 256))
    + (15 + 256 * 0)

sum_words-request :
    (pid c n m : ℕ)
    → n ≤ m
    → sum_words
        (suc (suc (suc (suc (suc (suc (suc (suc n))))))))
        (with_checksum 8 0 c (request_rest pid m))
        0
      ≡ some (total pid c)
unfolding sum_words
sum_words-request pid c n m h = sum_words-zeros n m (total pid c) h

in_cksum-request :
    (pid c n m : ℕ)
    → n ≤ m
    → in_cksum
        (with_checksum 8 0 c (request_rest pid m))
        (suc (suc (suc (suc (suc (suc (suc (suc n))))))))
      ≡ some (fold_sum (total pid c))
unfolding in_cksum sum_words fold_sum
in_cksum-request pid c n m h = rw (sum_words-request pid c n m h)

request_checks :
    (pid : ℕ)
    → in_cksum (with_checksum 8 0 (fold_sum (total pid 0)) (request_rest pid 20)) 28 ≡ some 0
request_checks pid =
    in_cksum-checks 8 0 24 (fold_sum (total pid 0)) (request_rest pid 20) (omega arith)
      (omega arith) (in_cksum-request pid 0 20 20 (omega arith))

-- For every process number `main` sends an echo request of 28 bytes that checks: although its
-- checksum was computed over 1000 bytes of the buffer, `in_cksum` over the 28 bytes sent is 0.
pub make_request-checks :
    (pid : ℕ)
    → (packet : Bytes) × (make_request pid ≡ some packet)
      × (length packet ≡ 28)
      × (in_cksum packet 28 ≡ some 0)
unfolding make_request
make_request-checks pid = (
  with_checksum 8 0 (fold_sum (total pid 0)) (request_rest pid 20),
  ap (first_28 pid) (in_cksum-request pid 0 992 1016 (omega arith)),
  refl,
  request_checks pid,
)

-- The reply to a request comes behind an IP header whose first byte gives its length in words, and
-- `main` prints the type, the code, the sequence number and the identifier that the ICMP packet has,
-- whatever the other bytes.
pub read_reply_lem :
    (version_ihl t c k l i j s u : ℕ) (ip_rest rest : Bytes)
    → length (version_ihl ∷ ip_rest) ≡ version_ihl % 16 * 4
    → read_reply ((version_ihl ∷ ip_rest) ++ t ∷ c ∷ k ∷ l ∷ i ∷ j ∷ s ∷ u ∷ rest)
      ≡ some
          (record { icmp_type = t; icmp_code = c; icmp_seq = s + 256 * u; icmp_id = i + 256 * j })
unfolding read_reply
read_reply_lem v t c k l i j s u ip_rest rest len =
    ap icmp_at
      (drop-append (v % 16 * 4) (v ∷ ip_rest) (t ∷ c ∷ k ∷ l ∷ i ∷ j ∷ s ∷ u ∷ rest) (sym len))
