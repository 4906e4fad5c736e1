-- ===== src/Crypto/Aead/Format.antt =====
-- The comparison of tags, and the parts of a message in the format of `KuznyechikAEAD`.
use kubebao.Common.{
  ℕ, suc, ◌+◌, ◌-◌, ◌≤◌, List, [], ◌∷◌, ◌++◌, ◌≡◌, ◌↔◌, inl, inr, refl, sym, ap, ap₂, ◌∙◌, subst,
  arith, true, false≢true, ◌&&◌, ◌==◌, length, take, drop, get_or, append_assoc, length-append,
  take-append, drop-append, take-append-drop, Bool-cases, ==_iff, drop-drop,
}
use kubebao.Crypto.Aead.{constant_time_equal, iv_of, body_of, tag_of, overhead}

pub equal_of_test : (a b : List ℕ) → constant_time_equal a b ≡ true → a ≡ b
unfolding constant_time_equal
equal_of_test [] [] h = refl
equal_of_test [] (y ∷ b) h = cc
equal_of_test (x ∷ a) [] h = cc
equal_of_test (x ∷ a) (y ∷ b) h = elim (Bool-cases (x == y)) [
  | inl same ↦
      ap₂ ◌∷◌ ((==_iff x y).0 same)
        (equal_of_test a b (ap (λ t. t && constant_time_equal a b) (sym same) ∙ h))
  | inr other ↦ absurd (false≢true (ap (λ t. t && constant_time_equal a b) (sym other) ∙ h))
]

test_self : (a : List ℕ) → constant_time_equal a a ≡ true
unfolding constant_time_equal
test_self [] = refl
test_self (x ∷ a) = ground (arith, test_self a)

-- The constant-time comparison of tags answers true exactly on equal slices.
pub constant_time_equal_iff : (a b : List ℕ) → (constant_time_equal a b ≡ true) ↔ (a ≡ b)
constant_time_equal_iff a b =
    (equal_of_test a b, λ e. subst (λ t. constant_time_equal a t ≡ true) e (test_self a))

-- The parts of a message in the package's format.
module _ (iv ct tag : List ℕ) (iv_size : length iv ≡ 16) (tag_size : length tag ≡ 16) where
  abbrev pub message : List ℕ
  message = 1 ∷ iv ++ ct ++ tag

  pub message-length : length message ≡ overhead + length ct
  message-length = omega (arith, length-append {0} (iv ++ ct) tag, length-append {0} iv ct)

  pub iv_of-message : iv_of message ≡ iv
  iv_of-message = ap (take 16) (append_assoc iv ct tag) ∙ take-append iv (ct ++ tag) 16 iv_size

  pub body_of-message : body_of message ≡ ct
  body_of-message =
      ap₂ take count (ap (drop 16) (append_assoc iv ct tag) ∙ drop-append iv (ct ++ tag) 16 iv_size)
      ∙ take-append ct tag (length ct) refl
    where
      count : length message - 16 - 17 ≡ length ct
      count = omega (arith, message-length)

  pub tag_of-message : tag_of message ≡ tag
  tag_of-message =
      ap (λ n. drop n message) count
      ∙ drop-append (iv ++ ct) tag (16 + length ct) (omega (arith, length-append {0} iv ct))
    where
      count : length message - 16 ≡ suc (16 + length ct)
      count = omega (arith, message-length)

-- A slice of at least the overhead is put together from its parts.
pub parts_of :
    (bytes : List ℕ)
    → overhead ≤ length bytes
    → bytes ≡ get_or bytes 0 0 ∷ iv_of bytes ++ body_of bytes ++ tag_of bytes
parts_of [] h = absurd (omega arith)
parts_of (v ∷ rest) h =
    ap (λ t. v ∷ t)
      (sym (take-append-drop 16 rest)
        ∙ ap (λ t. take 16 rest ++ t)
            (sym (take-append-drop n (drop 16 rest))
              ∙ ap (λ t. take n (drop 16 rest) ++ t)
                  (drop-drop n 16 rest ∙ ap (λ k. drop k (v ∷ rest)) place))
        ∙ sym (append_assoc (take 16 rest) (take n (drop 16 rest)) (tag_of (v ∷ rest))))
  where
    n : ℕ
    n = length (v ∷ rest) - 16 - 17

    place : suc (16 + n) ≡ length (v ∷ rest) - 16
    place = omega arith
