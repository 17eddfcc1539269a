-- ===== src/Calc/Answers.antt =====
-- What the clients of the calculators get.
use mathlib.Core.Path.{ap₂, subst}
use network_ex.Common.{
  ℕ, ◌+◌, ◌^◌, ◌<◌, ◌≡◌, ◌≢◌, refl, ap, sym, ◌∙◌, ◌⊎◌, inl, inr, Bool-cases, Option, none, some,
  ◌==◌, arith, if◌then◌else◌,
}
use network_ex.Common.Int.{ℤ, ◌+ℤ◌, ◌-ℤ◌, ◌*ℤ◌, quot, IsInt, pattern_of}
use network_ex.Common.Words.{htonl, ntohl, htons, ntohs, ntohl-htonl}
use network_ex.Calc.Arith.{CalData, word, add32, sub32, mul32, div32}
use network_ex.Calc.Patterns.{
  pattern_of-lt, add32-pattern_of, sub32-pattern_of, mul32-pattern_of, div32-pattern_of,
}
use network_ex.Calc.Udp
use network_ex.Calc.Tcp

-- The exact value of `a op b`, for the four operations and no division by 0.
unfoldable pub exact : ℕ → ℤ → ℤ → Option ℤ
exact op a b =
    if op == b'+'
    then some (a +ℤ b)
    else if op == b'-'
    then some (a -ℤ b)
    else if op == b'*'
    then some (a *ℤ b)
    else if op == b'/'
    then if pattern_of b == 0 then none else some (quot a b)
    else none

pub exact-eq :
    (op : ℕ) (a b c : ℤ)
    → exact op a b ≡ some c
    → ((op ≡ b'+') × (c ≡ a +ℤ b))
      ⊎ (((op ≡ b'-') × (c ≡ a -ℤ b))
          ⊎ (((op ≡ b'*') × (c ≡ a *ℤ b)) ⊎ ((op ≡ b'/') × (c ≡ quot a b) × (pattern_of b ≢ 0))))
unfolding exact
exact-eq op a b c h = elim (Bool-cases (op == b'+')) [
  | inl plus ↦ inl (ground arith)
  | inr p ↦ elim (Bool-cases (op == b'-')) [
    | inl minus ↦ inr (inl (ground arith))
    | inr m ↦ elim (Bool-cases (op == b'*')) [
      | inl times ↦ inr (inr (inl (ground arith)))
      | inr t ↦ elim (Bool-cases (op == b'/')) [
        | inl over ↦ inr (inr (inr (ground arith)))
        | inr other ↦ absurd (ground arith)
      ]
    ]
  ]
]

module _ (prev : ℕ) (d : CalData) where
  abbrev left : ℕ
  left = ntohl d.left_num

  abbrev right : ℕ
  right = ntohl d.right_num

  serve-plus : d.op ≡ b'+' → Udp.serve prev d ≡ some (Udp.reply (add32 left right) d)
  unfolding Udp.serve
  serve-plus o = ground arith

  serve-minus : d.op ≡ b'-' → Udp.serve prev d ≡ some (Udp.reply (sub32 left right) d)
  unfolding Udp.serve
  serve-minus o = ground arith

  serve-times : d.op ≡ b'*' → Udp.serve prev d ≡ some (Udp.reply (mul32 left right) d)
  unfolding Udp.serve
  serve-times o = ground arith

  serve-over :
      (q : ℕ)
      → d.op ≡ b'/'
      → right ≢ 0
      → div32 left right ≡ some q
      → Udp.serve prev d ≡ some (Udp.reply q d)
  unfolding Udp.serve
  serve-over q o n e = ground arith

-- The client's datagram reaches the operations as it was meant.
serve-exact :
    (prev op : ℕ) (a b c : ℤ)
    → IsInt a
    → IsInt b
    → IsInt c
    → exact op a b ≡ some c
    → Udp.serve prev (Udp.request (pattern_of a) op (pattern_of b))
      ≡ some (Udp.reply (pattern_of c) (Udp.request (pattern_of a) op (pattern_of b)))
unfolding Udp.request
serve-exact prev op a b c ha hb hc h =
    let d : CalData = Udp.request (pattern_of a) op (pattern_of b) in
    let answer = λ (k : ℕ). some (Udp.reply k d) in
    let l : ntohl d.left_num ≡ pattern_of a = ntohl-htonl (pattern_of a) (pattern_of-lt a ha) in
    let r : ntohl d.right_num ≡ pattern_of b = ntohl-htonl (pattern_of b) (pattern_of-lt b hb) in
    elim (exact-eq op a b c h) [
      | inl (o, e) ↦
          serve-plus prev d o
          ∙ ap answer (
              ap₂ add32 l r ∙ add32-pattern_of a b ha hb (subst IsInt e hc) ∙ ap pattern_of (sym e))
      | inr (inl (o, e)) ↦
          serve-minus prev d o
          ∙ ap answer (
              ap₂ sub32 l r ∙ sub32-pattern_of a b ha hb (subst IsInt e hc) ∙ ap pattern_of (sym e))
      | inr (inr (inl (o, e))) ↦
          serve-times prev d o
          ∙ ap answer (
              ap₂ mul32 l r ∙ mul32-pattern_of a b ha hb (subst IsInt e hc) ∙ ap pattern_of (sym e))
      | inr (inr (inr (o, e, n))) ↦
          serve-over prev d (pattern_of c) o (λ z. n (sym r ∙ z))
            (ap₂ div32 l r
              ∙ div32-pattern_of a b ha hb (λ z. n (ap pattern_of z)) (subst IsInt e hc)
              ∙ ap (λ k. some (pattern_of k)) (sym e))
    ]

-- For two ints and one of the operations + - * /, not a division by 0, whose exact result is an int
-- too: whatever the server computed before, the client prints its own question and that result.
-- Quotients are rounded towards 0.
pub udp_answers :
    (prev op : ℕ) (a b c : ℤ)
    → IsInt a
    → IsInt b
    → IsInt c
    → exact op a b ≡ some c
    → (served : Udp.Served) × (Udp.serve prev (Udp.request (pattern_of a) op (pattern_of b))
        ≡ some served)
      × (Udp.print served.rdata ≡ record {
        left_num = pattern_of a;
        op = op;
        right_num = pattern_of b;
        result = pattern_of c;
      })
unfolding Udp.print Udp.request
udp_answers prev op a b c ha hb hc h = (
  Udp.reply (pattern_of c) (Udp.request (pattern_of a) op (pattern_of b)),
  serve-exact prev op a b c ha hb hc h,
  λ i. record {
    left_num = ntohl-htonl (pattern_of a) (pattern_of-lt a ha) i;
    op = op;
    right_num = ntohl-htonl (pattern_of b) (pattern_of-lt b hb) i;
    result = ntohl-htonl (pattern_of c) (pattern_of-lt c hc) i;
  },
)

-- The two ways into the default of the answer.
serve-stale :
    (prev op l r : ℕ)
    → r < word
    → (((op ≡ b'/') × (r ≡ 0)) ⊎ ((op ≢ b'+') × (op ≢ b'-') × (op ≢ b'*') × (op ≢ b'/')))
    → Udp.serve prev (Udp.request l op r)
      ≡ some (
          Udp.reply prev
            (record (Udp.request l op r) { error = if op == b'/' then htons 2 else 0 }))
unfolding Udp.serve Udp.divide Udp.request
serve-stale prev op l r small h =
    let same : ntohl (htonl r) ≡ r = ntohl-htonl r small in
    elim h [ inl (o, z) ↦ ground arith | inr (p, m, t, d) ↦ ground arith ]

stale-error : (op : ℕ) → ntohs (if op == b'/' then htons 2 else 0) ≡ (if op == b'/' then 2 else 0)
unfolding ntohs htons
stale-error op = elim (Bool-cases (op == b'/')) [ inl o ↦ ground arith | inr n ↦ ground arith ]

-- A division by 0, and an operation that is none of the four, are answered with the result of the
-- datagram that the server had before, from whatever client, and that stays the server's result. The
-- division by 0 has the error 2, the unknown operation no error.
pub udp_stale_answer :
    (prev op l r : ℕ)
    → prev < word
    → r < word
    → (((op ≡ b'/') × (r ≡ 0)) ⊎ ((op ≢ b'+') × (op ≢ b'-') × (op ≢ b'*') × (op ≢ b'/')))
    → (served : Udp.Served) × (Udp.serve prev (Udp.request l op r) ≡ some served)
      × (served.cal_result ≡ prev)
      × (ntohl served.rdata.result ≡ prev)
      × (ntohs served.rdata.error ≡ (if op == b'/' then 2 else 0))
udp_stale_answer prev op l r small_prev small h = (
  Udp.reply prev (record (Udp.request l op r) { error = if op == b'/' then htons 2 else 0 }),
  serve-stale prev op l r small h,
  refl,
  ntohl-htonl prev small_prev,
  stale-error op,
)

computed-stale :
    (prev : ℕ) (bad : CalData)
    → (((bad.op ≡ b'/') × (ntohs bad.right_num ≡ 0))
        ⊎ ((bad.op ≢ b'+') × (bad.op ≢ b'-') × (bad.op ≢ b'*') × (bad.op ≢ b'/')))
    → Tcp.computed prev bad.op (ntohs bad.left_num) (ntohs bad.right_num) ≡ prev
unfolding Tcp.computed
computed-stale prev bad h = elim h [ inl (o, z) ↦ ground arith | inr (p, m, t, d) ↦ ground arith ]

computed-sum :
    (prev other : ℕ) (good : CalData)
    → prev < 2 ^ 16
    → good.op ≡ b'+'
    → ntohs good.left_num + ntohs good.right_num ≡ prev
    → Tcp.computed other good.op (ntohs good.left_num) (ntohs good.right_num) ≡ prev
unfolding Tcp.computed
computed-sum prev other good small plus sum = ground arith

-- A division by 0 over TCP, and an unknown operation, get the same result and the same error,
-- whatever the round before left, as an addition whose sum is that round's result: the error that the switch
-- sets never reaches the client.
pub tcp_error_lost :
    (prev other : ℕ) (bad good : CalData)
    → prev < 2 ^ 16
    → (((bad.op ≡ b'/') × (ntohs bad.right_num ≡ 0))
        ⊎ ((bad.op ≢ b'+') × (bad.op ≢ b'-') × (bad.op ≢ b'*') × (bad.op ≢ b'/')))
    → good.op ≡ b'+'
    → ntohs good.left_num + ntohs good.right_num ≡ prev
    → ((Tcp.serve prev bad).cal_result ≡ prev)
      × ((Tcp.serve prev bad).rdata.result ≡ (Tcp.serve other good).rdata.result)
      × ((Tcp.serve prev bad).rdata.error ≡ (Tcp.serve other good).rdata.error)
unfolding Tcp.serve
tcp_error_lost prev other bad good small h plus sum =
    let stale : Tcp.computed prev bad.op (ntohs bad.left_num) (ntohs bad.right_num) ≡ prev =
      computed-stale prev bad h in
    let summed : Tcp.computed other good.op (ntohs good.left_num) (ntohs good.right_num) ≡ prev =
      computed-sum prev other good small plus sum in
    (stale, ap (λ k. htonl (Tcp.extend k)) (stale ∙ sym summed), ap htons (stale ∙ sym summed))
