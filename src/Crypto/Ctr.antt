-- ===== src/Crypto/Ctr.antt =====
-- `gostCTR` and `gostCTRIncrement`: the counter mode.
pub mod Counter
pub mod Laws
pub mod Stream
use kubebao.Common.{
  ℕ, zero, suc, ◌+◌, ◌-◌, ◌%◌, ◌^◌, List, [], ◌∷◌, ◌++◌, ltb, ◌==◌, if◌then◌else◌, length, take,
  drop, set, get_or, replicate,
}
use kubebao.Kuznyechik.Tables.{uint8}
use kubebao.Crypto.Block.{Block, block_size, xor_bytes, copy_at}

-- `for i := blockSize - 1; i >= blockSize/2; i-- { counter[i]++; if counter[i] != 0 { return } }`,
-- with the rounds left.
unfoldable pub increment_loop : ℕ → ℕ → List ℕ → List ℕ
increment_loop zero i counter = counter
increment_loop (suc left) i counter =
    let v = uint8 (get_or counter i 0 + 1) in
    let counter' = set counter i v in
    let rest = increment_loop left (i - 1) counter' in if v == 0 then rest else counter'

unfoldable pub gost_ctr_increment : List ℕ → List ℕ
unfolding increment_loop
gost_ctr_increment counter = increment_loop 8 15 counter

-- `n := blockSize; if len(src) < n { n = len(src) }`
abbrev pub chunk_size : List ℕ → ℕ
chunk_size src = if ltb (length src) block_size then length src else block_size

-- `for len(src) > 0`, on fuel: each round takes at least one byte off `src`.
unfoldable pub ctr_loop : ℕ → Block → List ℕ → List ℕ → List ℕ → List ℕ
unfolding xor_bytes gost_ctr_increment
ctr_loop zero block counter dst src = dst
ctr_loop (suc fuel) block counter dst src =
    let gamma = block.encrypt counter in
    let n = chunk_size src in
    let rest = ctr_loop fuel block (gost_ctr_increment counter) (drop n dst) (drop n src) in
    let written = xor_bytes (take n dst) (take n src) (take n gamma) ++ rest in
    if length src == 0 then dst else written

-- The new contents of `dst`.
unfoldable pub gost_ctr : Block → List ℕ → List ℕ → List ℕ → List ℕ
unfolding ctr_loop copy_at
gost_ctr block dst src iv = ctr_loop (length src) block (copy_at (replicate 16 0) 0 iv) dst src
