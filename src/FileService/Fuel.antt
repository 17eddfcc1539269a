-- ===== src/FileService/Fuel.antt =====
-- The loops over the rest of a file end: fuel beyond the length of what is left changes nothing.
use network_ex.Common.{
  ℕ, zero, suc, ◌+◌, ◌<◌, ◌≡◌, refl, Option-cases, inl, inr, [], ◌∷◌, length, take, drop,
  length-drop, arith,
}
use network_ex.Common.Bytes.{Bytes}
use network_ex.Common.Int.{ℤ, pos}
use network_ex.FileService.Disk.{Answers}
use network_ex.FileService.Query.{max_line}
use network_ex.FileService.Server.{send_chunks}
use network_ex.FileService.Client.{upload_chunks}

send_chunks-fuel :
    (socket : Answers) (m n k : ℕ) (rest : Bytes) (sendn : ℤ)
    → length rest < m
    → length rest < n
    → send_chunks socket m k rest sendn ≡ send_chunks socket n k rest sendn
unfolding send_chunks
send_chunks-fuel socket zero n k rest sendn hm hn = absurd (omega arith)
send_chunks-fuel socket (suc m) zero k rest sendn hm hn = absurd (omega arith)
send_chunks-fuel socket (suc m) (suc n) k [] sendn hm hn = refl
send_chunks-fuel socket (suc m) (suc n) k (b ∷ rest) sendn hm hn =
    let long = length-drop max_line (b ∷ rest) in
    elim (Option-cases (socket k (length (take max_line (b ∷ rest))))) [
      | inl fails ↦ ground arith
      | inr (taken, e) ↦
          let same =
            send_chunks-fuel socket m n (k + 1) (drop max_line (b ∷ rest)) (pos taken)
              (omega (arith, long)) (omega (arith, long)) in
          ground (arith, e, same)
    ]

upload_chunks-fuel :
    (socket : Answers) (m n k : ℕ) (rest : Bytes)
    → length rest < m
    → length rest < n
    → upload_chunks socket m k rest ≡ upload_chunks socket n k rest
unfolding upload_chunks
upload_chunks-fuel socket zero n k rest hm hn = absurd (omega arith)
upload_chunks-fuel socket (suc m) zero k rest hm hn = absurd (omega arith)
upload_chunks-fuel socket (suc m) (suc n) k [] hm hn = refl
upload_chunks-fuel socket (suc m) (suc n) k (b ∷ rest) hm hn =
    let long = length-drop max_line (b ∷ rest) in
    let same =
      upload_chunks-fuel socket m n (k + 1) (drop max_line (b ∷ rest)) (omega (arith, long))
        (omega (arith, long)) in
    ground (arith, same)

-- Whatever `send` answers, the loops of `upload` and of `serv_file_download` end within the fuel that
-- they are given, the length of the file and one: with any more fuel they do the same.
pub file_loops_end :
    (socket : Answers) (fuel k : ℕ) (rest : Bytes) (sendn : ℤ)
    → length rest < fuel
    → (upload_chunks socket fuel k rest ≡ upload_chunks socket (length rest + 1) k rest)
      × (send_chunks socket fuel k rest sendn ≡ send_chunks socket (length rest + 1) k rest sendn)
file_loops_end socket fuel k rest sendn h = (
  upload_chunks-fuel socket fuel (length rest + 1) k rest h (omega arith),
  send_chunks-fuel socket fuel (length rest + 1) k rest sendn h (omega arith),
)
