-- ===== src/Kuznyechik/Gost.antt =====
-- The cipher as GOST R 34.12-2015 writes it: a substitution of bytes, a linear feedback register
-- over GF(2^8), and a Feistel network for the round keys. A block is one number below 2 ^ 128 whose
-- byte i, from the low end, is the standard's a with index 15 - i, which is the order in memory.
pub mod Linear
use kubebao.Common.{ℕ, zero, suc, ◌*◌, ◌/◌, ◌%◌, ◌^◌, List, [], ◌∷◌}
use kubebao.Bits.Xor.{◌⊕◌}
use kubebao.Bits.Linear.{pick}
use kubebao.Kuznyechik.Tables.{byte_entry, is_table}

-- Multiplication by x modulo x^8 + x^7 + x^6 + x + 1.
unfoldable pub times_x : ℕ → ℕ
times_x a = a * 2 ^ 1 % 2 ^ 8 ⊕ pick (a / 2 ^ 7 % 2) 0xc3

-- The product of a constant of n bits and a field element.
unfoldable pub field_mul : ℕ → ℕ → ℕ → ℕ
unfolding times_x
field_mul zero c a = 0
field_mul (suc n) c a = pick (c % 2) a ⊕ field_mul n (c / 2) (times_x a)

unfoldable pub byte : ℕ → ℕ → ℕ
byte i n = n / 2 ^ (8 * i) % 2 ^ 8

-- The coefficients of the register, for a15 down to a0.
abbrev pub coefficients : List ℕ
coefficients =
    148 ∷ 32 ∷ 133 ∷ 16 ∷ 194 ∷ 192 ∷ 1 ∷ 251 ∷ 1 ∷ 192 ∷ 194 ∷ 16 ∷ 133 ∷ 32 ∷ 148 ∷ 1 ∷ []

-- The sum of coefficient times byte, from byte i on.
unfoldable pub weighted : List ℕ → ℕ → ℕ → ℕ
unfolding field_mul byte
weighted [] i n = 0
weighted (c ∷ cs) i n = field_mul 8 c (byte i n) ⊕ weighted cs (suc i) n

-- R: every byte moves up by one place, and the weighted sum enters at the bottom.
unfoldable pub gost_r : ℕ → ℕ
unfolding weighted
gost_r n = weighted coefficients 0 n ⊕ n * 2 ^ 8 % 2 ^ 128

-- The inverse of R.
unfoldable pub gost_r_inv : ℕ → ℕ
unfolding weighted
gost_r_inv n = n / 2 ^ 8 ⊕ weighted coefficients 0 (n / 2 ^ 8 ⊕ n % 2 ^ 8 * 2 ^ 120) * 2 ^ 120

abbrev pub iterate : ℕ → (ℕ → ℕ) → ℕ → ℕ
iterate zero g n = n
iterate (suc k) g n = iterate k g (g n)

-- L is sixteen steps of R.
unfoldable pub gost_l : ℕ → ℕ
unfolding gost_r
gost_l n = iterate 16 gost_r n

unfoldable pub gost_l_inv : ℕ → ℕ
unfolding gost_r_inv
gost_l_inv n = iterate 16 gost_r_inv n

-- The substitution of bytes, as the standard lists it.
unfoldable pub pi_table : List ℕ
pi_table =
    252 ∷ 238 ∷ 221 ∷ 17 ∷ 207 ∷ 110 ∷ 49 ∷ 22 ∷ 251 ∷ 196 ∷ 250 ∷ 218 ∷ 35 ∷ 197 ∷ 4 ∷ 77 ∷ 233
    ∷ 119 ∷ 240 ∷ 219 ∷ 147 ∷ 46 ∷ 153 ∷ 186 ∷ 23 ∷ 54 ∷ 241 ∷ 187 ∷ 20 ∷ 205 ∷ 95 ∷ 193 ∷ 249 ∷ 24
    ∷ 101 ∷ 90 ∷ 226 ∷ 92 ∷ 239 ∷ 33 ∷ 129 ∷ 28 ∷ 60 ∷ 66 ∷ 139 ∷ 1 ∷ 142 ∷ 79 ∷ 5 ∷ 132 ∷ 2 ∷ 174
    ∷ 227 ∷ 106 ∷ 143 ∷ 160 ∷ 6 ∷ 11 ∷ 237 ∷ 152 ∷ 127 ∷ 212 ∷ 211 ∷ 31 ∷ 235 ∷ 52 ∷ 44 ∷ 81 ∷ 234
    ∷ 200 ∷ 72 ∷ 171 ∷ 242 ∷ 42 ∷ 104 ∷ 162 ∷ 253 ∷ 58 ∷ 206 ∷ 204 ∷ 181 ∷ 112 ∷ 14 ∷ 86 ∷ 8 ∷ 12
    ∷ 118 ∷ 18 ∷ 191 ∷ 114 ∷ 19 ∷ 71 ∷ 156 ∷ 183 ∷ 93 ∷ 135 ∷ 21 ∷ 161 ∷ 150 ∷ 41 ∷ 16 ∷ 123 ∷ 154
    ∷ 199 ∷ 243 ∷ 145 ∷ 120 ∷ 111 ∷ 157 ∷ 158 ∷ 178 ∷ 177 ∷ 50 ∷ 117 ∷ 25 ∷ 61 ∷ 255 ∷ 53 ∷ 138
    ∷ 126 ∷ 109 ∷ 84 ∷ 198 ∷ 128 ∷ 195 ∷ 189 ∷ 13 ∷ 87 ∷ 223 ∷ 245 ∷ 36 ∷ 169 ∷ 62 ∷ 168 ∷ 67 ∷ 201
    ∷ 215 ∷ 121 ∷ 214 ∷ 246 ∷ 124 ∷ 34 ∷ 185 ∷ 3 ∷ 224 ∷ 15 ∷ 236 ∷ 222 ∷ 122 ∷ 148 ∷ 176 ∷ 188
    ∷ 220 ∷ 232 ∷ 40 ∷ 80 ∷ 78 ∷ 51 ∷ 10 ∷ 74 ∷ 167 ∷ 151 ∷ 96 ∷ 115 ∷ 30 ∷ 0 ∷ 98 ∷ 68 ∷ 26 ∷ 184
    ∷ 56 ∷ 130 ∷ 100 ∷ 159 ∷ 38 ∷ 65 ∷ 173 ∷ 69 ∷ 70 ∷ 146 ∷ 39 ∷ 94 ∷ 85 ∷ 47 ∷ 140 ∷ 163 ∷ 165
    ∷ 125 ∷ 105 ∷ 213 ∷ 149 ∷ 59 ∷ 7 ∷ 88 ∷ 179 ∷ 64 ∷ 134 ∷ 172 ∷ 29 ∷ 247 ∷ 48 ∷ 55 ∷ 107 ∷ 228
    ∷ 136 ∷ 217 ∷ 231 ∷ 137 ∷ 225 ∷ 27 ∷ 131 ∷ 73 ∷ 76 ∷ 63 ∷ 248 ∷ 254 ∷ 141 ∷ 83 ∷ 170 ∷ 144 ∷ 202
    ∷ 216 ∷ 133 ∷ 97 ∷ 32 ∷ 113 ∷ 103 ∷ 164 ∷ 45 ∷ 43 ∷ 9 ∷ 91 ∷ 203 ∷ 155 ∷ 37 ∷ 208 ∷ 190 ∷ 229
    ∷ 108 ∷ 82 ∷ 89 ∷ 166 ∷ 116 ∷ 210 ∷ 230 ∷ 244 ∷ 180 ∷ 192 ∷ 209 ∷ 102 ∷ 175 ∷ 194 ∷ 57 ∷ 75 ∷ 99
    ∷ 182 ∷ []

-- A substitution in k bytes from byte i on.
unfoldable pub substitute : (ℕ → ℕ) → ℕ → ℕ → ℕ → ℕ
unfolding byte
substitute h zero i n = 0
substitute h (suc k) i n = h (byte i n) * 2 ^ (8 * i) ⊕ substitute h k (suc i) n

unfoldable pub gost_s : ℕ → ℕ
unfolding substitute
gost_s n = substitute (byte_entry pi_table) 16 0 n

-- The inverse substitution reads the table `is` of the code, which undoes the standard's.
unfoldable pub gost_s_inv : ℕ → ℕ
unfolding substitute
gost_s_inv n = substitute (byte_entry is_table) 16 0 n

-- One step of the Feistel network, with the constant of step i (from 0).
unfoldable pub gost_constant : ℕ → ℕ
gost_constant i = gost_l (suc i * 2 ^ 120)

unfoldable pub gost_f : ℕ → ℕ × ℕ → ℕ × ℕ
gost_f c k = (gost_l (gost_s (k.0 ⊕ c)) ⊕ k.1, k.0)

unfoldable pub gost_steps : ℕ → ℕ → ℕ × ℕ → ℕ × ℕ
gost_steps zero i k = k
gost_steps (suc n) i k = gost_steps n (suc i) (gost_f (gost_constant i) k)

-- The ten round keys: two new ones after every eight steps.
unfoldable pub gost_round_keys : ℕ × ℕ → List ℕ
gost_round_keys k =
    let k1 = gost_steps 8 0 k in
    let k2 = gost_steps 8 8 k1 in
    let k3 = gost_steps 8 16 k2 in
    let k4 = gost_steps 8 24 k3 in
    k.0 ∷ k.1 ∷ k1.0 ∷ k1.1 ∷ k2.0 ∷ k2.1 ∷ k3.0 ∷ k3.1 ∷ k4.0 ∷ k4.1 ∷ []

-- X, then S, L, X for each further key.
unfoldable pub gost_rounds : List ℕ → ℕ → ℕ
gost_rounds [] n = n
gost_rounds (k ∷ keys) n = gost_rounds keys (gost_l (gost_s n) ⊕ k)

unfoldable pub gost_encrypt : List ℕ → ℕ → ℕ
gost_encrypt [] n = n
gost_encrypt (k ∷ keys) n = gost_rounds keys (n ⊕ k)
