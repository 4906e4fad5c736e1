-- ===== src/Crypto/Cmac/Tag.antt =====
-- The form of the tag.
use kubebao.Common.{
  ℕ, zero, suc, ◌-◌, ◌*◌, List, [], ◌∷◌, ◌++◌, sym, ◌∙◌, subst, arith, ◌==◌, length, take, drop,
  replicate, Bool-cases, inl, inr,
}
use kubebao.Kuznyechik.Bytes.{IsBytes, IsBlock, IsBytes-take, IsBytes-drop, IsBytes-append}
use kubebao.Crypto.Block.{Block, IsBlockCipher, xor_bytes, xor_bytes-IsBytes, length-xor_bytes}
use kubebao.Crypto.Cmac.{zero_block, cmac_generate_subkeys, gost_cmac}
use kubebao.Crypto.Cmac.Fill.{concat}
use kubebao.Crypto.Cmac.Reference.{
  chain, masked, pad, cmac_reference, full_blocks, gost_cmac-cmac_reference,
}
use kubebao.Crypto.Cmac.Subkeys.{subkeys-IsBlock}

xor-IsBlock : (x b : List ℕ) → IsBlock x → IsBytes b → IsBlock (xor_bytes x x b)
xor-IsBlock x b h k = (length-xor_bytes x x b ∙ h.0, xor_bytes-IsBytes x x b h.1 h.1 k)

pub zeros-IsBytes : (n : ℕ) → IsBytes (replicate n 0)
zeros-IsBytes zero = tt
zeros-IsBytes (suc n) = (omega arith, zeros-IsBytes n)

module _ (block : Block) (law : IsBlockCipher block) where
  chain-IsBlock : (k : ℕ) (x msg : List ℕ) → IsBlock x → IsBytes msg → IsBlock (chain k block x msg)
  unfolding chain
  chain-IsBlock zero x msg h p = h
  chain-IsBlock (suc k) x msg h p =
      chain-IsBlock k (block.encrypt (xor_bytes x x (take 16 msg))) (drop 16 msg)
        (law.keeps_size (xor_bytes x x (take 16 msg))
          (xor-IsBlock x (take 16 msg) h (IsBytes-take 16 msg p)))
        (IsBytes-drop 16 msg p)

  masked-IsBlock :
      (x tail : List ℕ)
      → IsBlock x
      → IsBytes tail
      → IsBlock (masked x tail (cmac_generate_subkeys block))
  unfolding masked
  masked-IsBlock x tail h p = elim (Bool-cases (length tail == 16)) [
    | inl whole ↦ rw whole (
        xor-IsBlock (xor_bytes x x tail) (cmac_generate_subkeys block).0 (xor-IsBlock x tail h p)
          (subkeys-IsBlock block law).0.1)
    | inr short ↦ rw short (
        xor-IsBlock (xor_bytes x x (pad tail)) (cmac_generate_subkeys block).1
          (xor-IsBlock x (pad tail) h (
            IsBytes-append tail (0x80 ∷ replicate (15 - length tail) 0) p
              (omega arith, zeros-IsBytes (15 - length tail))))
          (subkeys-IsBlock block law).1.1)
  ]

  concat-IsBytes : (iv ct : List ℕ) → IsBytes iv → IsBytes ct → IsBytes (concat (iv ∷ ct ∷ []))
  concat-IsBytes iv ct p q = IsBytes-append iv (ct ++ []) p (IsBytes-append ct [] q tt)

  -- Over an IV and a ciphertext the tag has sixteen bytes.
  pub gost_cmac-IsBlock :
      (iv ct : List ℕ) → IsBytes iv → IsBytes ct → IsBlock (gost_cmac block (iv ∷ ct ∷ []))
  unfolding cmac_reference
  gost_cmac-IsBlock iv ct p q =
      let msg = concat (iv ∷ ct ∷ []) in
      subst IsBlock (sym (gost_cmac-cmac_reference block (iv ∷ ct ∷ []))) (
        law.keeps_size
          (masked (chain (full_blocks msg) block zero_block msg) (drop (full_blocks msg * 16) msg)
            (cmac_generate_subkeys block))
          (masked-IsBlock (chain (full_blocks msg) block zero_block msg)
            (drop (full_blocks msg * 16) msg)
            (chain-IsBlock (full_blocks msg) zero_block msg (omega arith)
              (concat-IsBytes iv ct p q))
            (IsBytes-drop (full_blocks msg * 16) msg (concat-IsBytes iv ct p q))))
