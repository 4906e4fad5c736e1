-- ===== src/Kuznyechik/Rounds.antt =====
-- One round of the cipher, and its reverse, on two words.
use kubebao.Common.{ℕ, ◌≡◌, sym, ap, ap₂, ◌∙◌}
use kubebao.Bits.Xor.{◌⊕◌, xor_cancel}
use kubebao.Bits.Linear.{mod-IsLinear, div-IsLinear}
use kubebao.Kuznyechik.Cipher.{Words, xor_words, ls, ils, ilss}
use kubebao.Kuznyechik.Gost.{gost_s, gost_s_inv, gost_l, gost_l_inv}
use kubebao.Kuznyechik.Gost.Linear.{gost_l-lt, gost_l_inv-gost_l, gost_l_inv-IsLinear}
use kubebao.Kuznyechik.Mix.{
  IsWords, join, join-lt, split, join-split, split-IsWords, xor_words-IsWords, join-xor_words,
}
use kubebao.Kuznyechik.Rows.Boxes.{gost_s-lt, gost_s_inv-gost_s}
use kubebao.Kuznyechik.Rows.Forward.{ls_lem}
use kubebao.Kuznyechik.Rows.Inverse.{ilss_lem, ils_lem}
use kubebao.Kuznyechik.Halves.{sub_words}

pub join-ls : (x : Words) → IsWords x → join (ls x) ≡ gost_l (gost_s (join x))
join-ls x ok = ap join (ls_lem x ok.0) ∙ join-split (gost_l (gost_s (join x)))

pub ls-IsWords : (x : Words) → IsWords x → IsWords (ls x)
ls-IsWords x ok =
    rw (ls_lem x ok.0)
      (split-IsWords (gost_l (gost_s (join x))) (gost_l-lt (gost_s (join x)) (gost_s-lt (join x))))

pub sub_words-IsWords : (x : Words) → IsWords (sub_words x)
sub_words-IsWords x = split-IsWords (gost_s (join x)) (gost_s-lt (join x))

-- `ilss` undoes the linear half of `ls`.
pub ilss-ls : (x : Words) → IsWords x → ilss (ls x) ≡ sub_words x
ilss-ls x ok =
    ilss_lem (ls x) (ls-IsWords x ok)
    ∙ ap (λ n. split (gost_l_inv n)) (join-ls x ok)
    ∙ ap split (gost_l_inv-gost_l (gost_s (join x)) (gost_s-lt (join x)))

-- `ils` on substituted words is `ilss` on the words themselves.
pub ils-sub_words : (x : Words) → IsWords x → ils (sub_words x) ≡ ilss x
ils-sub_words x ok =
    ils_lem (sub_words x) (sub_words-IsWords x).0
    ∙ ap split (
        ap (λ n. gost_l_inv (gost_s_inv n)) (join-split (gost_s (join x)))
        ∙ ap gost_l_inv (gost_s_inv-gost_s (join x) (join-lt x ok)))
    ∙ sym (ilss_lem x ok)

split-xor : (a b : ℕ) → split (a ⊕ b) ≡ xor_words (split a) (split b)
unfolding xor_words
split-xor a b = ap₂ (λ (p q : ℕ). (p, q)) (mod-IsLinear 64 a b) (div-IsLinear 64 a b)

-- `ilss` respects the addition of a round key.
pub ilss-xor_words :
    (x k : Words) → IsWords x → IsWords k → ilss (xor_words x k) ≡ xor_words (ilss x) (ilss k)
ilss-xor_words x k p q =
    ilss_lem (xor_words x k) (xor_words-IsWords x k p q)
    ∙ ap (λ n. split (gost_l_inv n)) (join-xor_words x k p q)
    ∙ ap split (gost_l_inv-IsLinear (join x) (join k))
    ∙ split-xor (gost_l_inv (join x)) (gost_l_inv (join k))
    ∙ sym (ap₂ xor_words (ilss_lem x p) (ilss_lem k q))

pub xor_words_cancel : (x k : Words) → xor_words (xor_words x k) k ≡ x
unfolding xor_words
xor_words_cancel x k = ap₂ (λ (a b : ℕ). (a, b)) (xor_cancel x.0 k.0) (xor_cancel x.1 k.1)

-- A round with key `k`, taken back with the key `ilss k`, leaves the substituted words.
pub round_back :
    (x k : Words)
    → IsWords x
    → IsWords k
    → xor_words (ilss (xor_words (ls x) k)) (ilss k) ≡ sub_words x
round_back x k p q =
    ap (λ t. xor_words t (ilss k)) (ilss-xor_words (ls x) k (ls-IsWords x p) q)
    ∙ xor_words_cancel (ilss (ls x)) (ilss k)
    ∙ ilss-ls x p

-- The same where the round's result was itself substituted by the next round.
pub round_back_sub :
    (x k : Words)
    → IsWords x
    → IsWords k
    → xor_words (ils (sub_words (xor_words (ls x) k))) (ilss k) ≡ sub_words x
round_back_sub x k p q =
    ap (λ t. xor_words t (ilss k))
      (ils-sub_words (xor_words (ls x) k) (xor_words-IsWords (ls x) k (ls-IsWords x p) q))
    ∙ round_back x k p q
