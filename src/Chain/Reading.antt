-- ===== src/Chain/Reading.antt =====
-- The bounded reading of an answer's body (src/reconciliation.ts, `boundedJson`).
use perk_os_nayori_platform.Prelude.{
  ℕ, ◌+◌, ◌≤◌, ◌≡◌, inl, inr, Option, none, some, List, [], ◌∷◌, ◌++◌, arith, ltb, leb,
  if◌then◌else◌, Bool-cases, length,
}
use perk_os_nayori_platform.Chain.{read_chunks, maximum_bytes}

-- The bytes of all chunks, however many.
abbrev pub joined : List (List ℕ) → List ℕ
joined [] = []
joined (c ∷ cs) = c ++ joined cs

length-++ {ℓ} : {A : Type ℓ} (xs ys : List A) → length (xs ++ ys) ≡ length xs + length ys
length-++ [] ys = omega arith
length-++ (x ∷ xs) ys = omega (arith, length-++ xs ys)

-- What the loop answers after `total` bytes.
abbrev expected : ℕ → List (List ℕ) → Option (List ℕ)
expected total cs =
    if leb (total + length (joined cs)) maximum_bytes then some (joined cs) else none

read_chunks_from :
    (total : ℕ) (cs : List (List ℕ))
    → total ≤ maximum_bytes
    → read_chunks total cs ≡ expected total cs
unfolding read_chunks
read_chunks_from total [] few = ground arith
read_chunks_from total (c ∷ cs) few =
    let sum = length-++ c (joined cs) in
    elim (Bool-cases (ltb maximum_bytes (total + length c))) [
      | inl over ↦ ground (arith, sum)
      | inr within ↦
          let rest = read_chunks_from (total + length c) cs (ground arith) in
          ground (arith, sum, rest)
    ]

-- A body is read whole, its chunks in order, exactly if it has at most 64 KiB; of a longer one
-- nothing is read.
pub read_chunks_lem :
    (cs : List (List ℕ))
    → read_chunks 0 cs ≡ (if leb (length (joined cs)) maximum_bytes then some (joined cs) else none)
read_chunks_lem cs = ground (arith, read_chunks_from 0 cs (omega arith))
