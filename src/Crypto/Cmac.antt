-- ===== src/Crypto/Cmac.antt =====
-- `gostCMAC`, `cmacGenerateSubkeys`, `shiftLeftOne`, `fillBlock` and `fillBlockPartial`.
pub mod Fill
pub mod Reference
pub mod Subkeys
pub mod Tag
use kubebao.Common.{
  ℕ, zero, suc, ◌+◌, ◌-◌, ◌*◌, ◌/◌, ◌%◌, ◌^◌, bit_and, bit_or, List, [], ◌∷◌, Bool, true, false,
  ◌&&◌, ltb, leb, ◌==◌, if◌then◌else◌, length, drop, take, set, get_or, replicate,
}
use kubebao.Kuznyechik.Tables.{uint8}
use kubebao.Crypto.Block.{Block, block_size, xor_bytes, copy_at}

abbrev pub zero_block : List ℕ
zero_block = replicate 16 0

-- `rb128`
abbrev pub rb128 : List ℕ
rb128 = 0 ∷ 0 ∷ 0 ∷ 0 ∷ 0 ∷ 0 ∷ 0 ∷ 0 ∷ 0 ∷ 0 ∷ 0 ∷ 0 ∷ 0 ∷ 0 ∷ 0 ∷ 0x87 ∷ []

-- `shiftLeftOne` goes from the last byte to the first: the shifted bytes, and the overflow.
unfoldable pub shift_left_one : List ℕ → List ℕ × ℕ
shift_left_one [] = ([], 0)
shift_left_one (b ∷ src) =
    let (shifted, overflow) = shift_left_one src in
    (bit_or (uint8 (b * 2 ^ 1)) overflow ∷ shifted, b / 2 ^ 7)

-- `if l[0]&0x80 != 0 { xorBytes(k, k, rb128[:]) }` on a shifted block
abbrev pub reduce : ℕ → List ℕ → List ℕ
reduce top k = if bit_and top 0x80 == 0 then k else xor_bytes k k rb128

unfoldable pub cmac_generate_subkeys : Block → List ℕ × List ℕ
unfolding shift_left_one xor_bytes
cmac_generate_subkeys block =
    let l = block.encrypt zero_block in
    let k1 = reduce (get_or l 0 0) (shift_left_one l).0 in
    (k1, reduce (get_or k1 0 0) (shift_left_one k1).0)

-- `partIdx` and `partOff`: the parts from `partIdx` on, and the offset into the first of them.
pub record Cursor : Type 0 where
  pub parts : List (List ℕ)
  pub off : ℕ

-- The loop of `fillBlock` (limit 16) and of `fillBlockPartial` (limit `remaining`), which are the
-- same but for the limit: the new buffer, and where the reading stopped.
unfoldable pub fill : ℕ → List ℕ → ℕ → List (List ℕ) → ℕ → List ℕ × Cursor
unfolding copy_at
fill limit buf n [] off = (buf, record { parts = []; off = off })
fill limit buf n (part ∷ parts) off =
    let avail = length part - off in
    let need = limit - n in
    let next = fill limit (copy_at buf n (drop off part)) (n + avail) parts 0 in
    if ltb n limit
    then (if leb avail need then next else (
      copy_at buf n (take need (drop off part)),
      record { parts = part ∷ parts; off = off + need },
    ))
    else (buf, record { parts = part ∷ parts; off = off })

unfoldable pub fill_block : List ℕ → Cursor → List ℕ × Cursor
unfolding fill
fill_block buf at = fill block_size buf 0 at.parts at.off

unfoldable pub fill_block_partial : List ℕ → Cursor → ℕ → List ℕ × Cursor
unfolding fill
fill_block_partial buf at remaining = fill remaining buf 0 at.parts at.off

pub record MacState : Type 0 where
  pub x : List ℕ
  pub buf : List ℕ
  pub cursor : Cursor

-- `for blockIdx < numBlocks-1`, with the rounds left.
unfoldable pub mac_loop : ℕ → Block → MacState → MacState
unfolding fill_block xor_bytes
mac_loop zero block s = s
mac_loop (suc left) block s =
    let (buf, cursor) = fill_block s.buf s.cursor in
    mac_loop left block
      (record { x = block.encrypt (xor_bytes s.x s.x buf); buf = buf; cursor = cursor })

abbrev pub total_length : List (List ℕ) → ℕ
total_length [] = 0
total_length (part ∷ parts) = length part + total_length parts

-- `numBlocks`, at least one
abbrev pub num_blocks : ℕ → ℕ
num_blocks total = let n = (total + block_size - 1) / block_size in if n == 0 then 1 else n

-- The last block, filled, completed and masked.
unfoldable pub last_block : MacState → ℕ → Bool → List ℕ × List ℕ → List ℕ
unfolding fill_block_partial xor_bytes
last_block s remaining complete (k1, k2) =
    let filled =
      if ltb 0 remaining
      then (fill_block_partial zero_block s.cursor remaining).0
      else zero_block in
    let padded = if ltb remaining block_size then set filled remaining 0x80 else filled in
    if complete
    then (let x = xor_bytes s.x s.x filled in xor_bytes x x k1)
    else (let x = xor_bytes s.x s.x padded in xor_bytes x x k2)

abbrev pub start_state : List (List ℕ) → MacState
start_state parts = record {
  x = zero_block;
  buf = zero_block;
  cursor = record { parts = parts; off = 0 };
}

unfoldable pub gost_cmac : Block → List (List ℕ) → List ℕ
unfolding cmac_generate_subkeys mac_loop last_block
gost_cmac block parts =
    let total = total_length parts in
    let rounds = num_blocks total - 1 in
    let complete = ltb 0 total && total % block_size == 0 in
    block.encrypt (
      last_block (mac_loop rounds block (start_state parts)) (total - rounds * block_size) complete
        (cmac_generate_subkeys block))
