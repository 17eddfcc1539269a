-- ===== src/Echo/Sweep.antt =====
-- What one round of the non-blocking server sends to whom.
use mathlib.Core.Path.{ap₂}
use network_ex.Common.{
  ℕ, zero, suc, ◌+◌, ◌-◌, ◌≤◌, ◌<◌, ◌≡◌, ◌≢◌, refl, ap, sym, ◌∙◌, ◌⊎◌, inl, inr, some, [], ◌∷◌,
  ◌++◌, length, drop, replicate, arith,
}
use network_ex.Common.Bytes.{Bytes, filled}
use network_ex.Common.Int.{pos}
use network_ex.Echo.NonBlocking.{
  max_line, FdArray, again, Incoming, got, write, Swept, read_into, sweep, Server, round,
}

sweep-other :
    (reads : ℕ → Incoming) (n i : ℕ) (buf : Bytes) (fds : FdArray)
    → fds i ≢ pos 1
    → sweep reads (suc n) i buf fds ≡ sweep reads n (i + 1) buf fds
unfolding sweep
sweep-other reads n i buf fds other = ground arith

-- The loop passes by what is no connection.
sweep-skip :
    (reads : ℕ → Incoming) (d n i : ℕ) (buf : Bytes) (fds : FdArray)
    → ((k : ℕ) → i ≤ k → k < i + d → fds k ≢ pos 1)
    → sweep reads (d + n) i buf fds ≡ sweep reads n (i + d) buf fds
sweep-skip reads zero n i buf fds none_open =
    ap₂ (λ m j. sweep reads m j buf fds) (omega arith) (omega arith)
sweep-skip reads (suc d) n i buf fds none_open =
    ap (λ m. sweep reads m i buf fds) (omega arith)
    ∙ sweep-other reads (d + n) i buf fds (none_open i (omega arith) (omega arith))
    ∙ sweep-skip reads d n (i + 1) buf fds (λ k low high. none_open k (omega arith) (omega arith))
    ∙ ap (λ j. sweep reads n j buf fds) (omega arith)

sweep-end :
    (reads : ℕ → Incoming) (n i : ℕ) (buf : Bytes) (fds : FdArray)
    → ((k : ℕ) → i ≤ k → fds k ≢ pos 1)
    → sweep reads n i buf fds ≡ record { fds = fds; outputs = [] }
unfolding sweep
sweep-end reads zero i buf fds none_open = refl
sweep-end reads (suc n) i buf fds none_open =
    sweep-other reads n i buf fds (none_open i (omega arith))
    ∙ sweep-end reads n (i + 1) buf fds (λ k low. none_open k (omega arith))

sweep-got :
    (reads : ℕ → Incoming) (n i b : ℕ) (bs buf : Bytes) (fds : FdArray) (after : Swept)
    → fds i ≡ pos 1
    → reads i ≡ got (b ∷ bs)
    → sweep reads n (i + 1) (read_into (b ∷ bs) buf) fds ≡ after
    → sweep reads (suc n) i buf fds
      ≡ record { fds = after.fds; outputs = write i (read_into (b ∷ bs) buf) ∷ after.outputs }
unfolding sweep
sweep-got reads n i b bs buf fds after one e rest = ground arith

drop-replicate : (m n : ℕ) → drop {A = ℕ} m (replicate n 0) ≡ replicate (n - m) 0
drop-replicate zero n = let e : n ≡ n - 0 = omega arith in ap (λ k. replicate {A = ℕ} k 0) e
drop-replicate (suc m) zero =
    let e : 0 ≡ 0 - suc m = omega arith in ap (λ k. replicate {A = ℕ} k 0) e
drop-replicate (suc m) (suc n) =
    let e : n - m ≡ suc n - suc m = omega arith in
    drop-replicate m n ∙ ap (λ k. replicate {A = ℕ} k 0) e

read_into-cleared : (bs : Bytes) → read_into bs (replicate max_line 0) ≡ filled max_line bs
read_into-cleared bs = ap (λ zs. bs ++ zs) (drop-replicate (length bs) max_line)

-- The part of a sweep from the first of two connections on.
sweep-two :
    (reads : ℕ → Incoming) (fds : FdArray) (i c n x y : ℕ) (xs ys buf : Bytes)
    → fds i ≡ pos 1
    → fds (suc i + c) ≡ pos 1
    → ((k : ℕ) → fds k ≡ pos 1 → (k ≡ i) ⊎ (k ≡ suc i + c))
    → reads i ≡ got (x ∷ xs)
    → reads (suc i + c) ≡ got (y ∷ ys)
    → sweep reads (suc (c + suc n)) i buf fds ≡ record {
      fds = fds;
      outputs =
          write i (read_into (x ∷ xs) buf)
          ∷ write (suc i + c) (read_into (y ∷ ys) (read_into (x ∷ xs) buf))
          ∷ [];
    }
sweep-two reads fds i c n x y xs ys buf one two only ri rj =
    let buf' : Bytes = read_into (x ∷ xs) buf in
    let j : ℕ = i + 1 + c in
    let place : suc i + c ≡ j = omega arith in
    let rest : Swept = record { fds = fds; outputs = write j (read_into (y ∷ ys) buf') ∷ [] } in
    let second : sweep reads (suc n) j buf' fds ≡ rest =
      sweep-got reads n j y ys buf' fds (record { fds = fds; outputs = [] })
        (ap fds (sym place) ∙ two) (ap reads (sym place) ∙ rj)
        (sweep-end reads n (j + 1) _ fds (λ k low h. elim (only k h) [
          | inl e ↦ absurd (omega arith)
          | inr e ↦ absurd (omega arith)
        ])) in
    let between : sweep reads (c + suc n) (i + 1) buf' fds ≡ rest =
      sweep-skip reads c (suc n) (i + 1) buf' fds (λ k low high h. elim (only k h) [
        | inl e ↦ absurd (omega arith)
        | inr e ↦ absurd (omega arith)
      ])
      ∙ second in
    rw place (sweep-got reads (c + suc n) i x xs buf fds rest one ri between)

-- In a round without a new connection, let only `a` and, behind it, `b` be connected, both below
-- the bound of the loop, and let both have sent a block. Then `a` gets its own block, filled up with
-- zeros to MAXLINE, and `b` gets its own block and behind it what the block of `a` left in the
-- buffer: a shorter block is answered with the end of the other client's block.
pub sweep_leaks :
    (s : Server) (reads : ℕ → Incoming) (a b x y : ℕ) (xs ys : Bytes)
    → a < b
    → b ≤ s.maxfd
    → s.client_fd_array a ≡ pos 1
    → s.client_fd_array b ≡ pos 1
    → ((k : ℕ) → s.client_fd_array k ≡ pos 1 → (k ≡ a) ⊎ (k ≡ b))
    → reads a ≡ got (x ∷ xs)
    → reads b ≡ got (y ∷ ys)
    → round s again reads
      ≡ some (record {
        server = s;
        outputs =
            write a (filled max_line (x ∷ xs))
            ∷ write b ((y ∷ ys) ++ drop (length (y ∷ ys)) (filled max_line (x ∷ xs)))
            ∷ [];
      })
unfolding round
sweep_leaks s reads a b x y xs ys less bound one two only ra rb =
    let fds : FdArray = s.client_fd_array in
    let zeros : Bytes = replicate max_line 0 in
    let c : ℕ = b - suc a in
    let n : ℕ = s.maxfd - b in
    let place : suc a + c ≡ b = omega arith in
    let answers = λ (j : ℕ) (buf : Bytes).
      write a buf ∷ write j ((y ∷ ys) ++ drop (length (y ∷ ys)) buf) ∷ [] in
    let start : sweep reads (s.maxfd + 1) 0 zeros fds ≡ sweep reads (suc (c + suc n)) a zeros fds =
      ap (λ m. sweep reads m 0 zeros fds) {y = a + suc (c + suc n)} (omega arith)
      ∙ sweep-skip reads a (suc (c + suc n)) 0 zeros fds (λ k low high h. elim (only k h) [
        | inl e ↦ absurd (omega arith)
        | inr e ↦ absurd (omega arith)
      ])
      ∙ ap (λ j. sweep reads (suc (c + suc n)) j zeros fds) (omega arith) in
    let two_answers : sweep reads (suc (c + suc n)) a zeros fds
        ≡ record { fds = fds; outputs = answers (suc a + c) (read_into (x ∷ xs) zeros) } =
      sweep-two reads fds a c n x y xs ys zeros one (ap fds place ∙ two)
        (λ k h. elim (only k h) [ inl e ↦ inl e | inr e ↦ inr (e ∙ sym place) ]) ra
        (ap reads place ∙ rb) in
    ap
      (λ (w : Swept).
        some (record { server = record s { client_fd_array = w.fds }; outputs = w.outputs }))
      (start ∙ two_answers)
    ∙ ap₂ (λ j buf. some (record { server = s; outputs = answers j buf })) place
        (read_into-cleared (x ∷ xs))
