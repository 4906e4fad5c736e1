-- ===== src/Kuznyechik/Tables/Is.antt =====
-- internal/kuznyechik/tables.go: `is`, a permutation of the bytes.
use kubebao.Common.{ℕ, List, [], ◌∷◌}

unfoldable pub is_table : List ℕ
is_table =
    165 ∷ 45 ∷ 50 ∷ 143 ∷ 14 ∷ 48 ∷ 56 ∷ 192 ∷ 84 ∷ 230 ∷ 158 ∷ 57 ∷ 85 ∷ 126 ∷ 82 ∷ 145 ∷ 100 ∷ 3
    ∷ 87 ∷ 90 ∷ 28 ∷ 96 ∷ 7 ∷ 24 ∷ 33 ∷ 114 ∷ 168 ∷ 209 ∷ 41 ∷ 198 ∷ 164 ∷ 63 ∷ 224 ∷ 39 ∷ 141 ∷ 12
    ∷ 130 ∷ 234 ∷ 174 ∷ 180 ∷ 154 ∷ 99 ∷ 73 ∷ 229 ∷ 66 ∷ 228 ∷ 21 ∷ 183 ∷ 200 ∷ 6 ∷ 112 ∷ 157 ∷ 65
    ∷ 117 ∷ 25 ∷ 201 ∷ 170 ∷ 252 ∷ 77 ∷ 191 ∷ 42 ∷ 115 ∷ 132 ∷ 213 ∷ 195 ∷ 175 ∷ 43 ∷ 134 ∷ 167
    ∷ 177 ∷ 178 ∷ 91 ∷ 70 ∷ 211 ∷ 159 ∷ 253 ∷ 212 ∷ 15 ∷ 156 ∷ 47 ∷ 155 ∷ 67 ∷ 239 ∷ 217 ∷ 121 ∷ 182
    ∷ 83 ∷ 127 ∷ 193 ∷ 240 ∷ 35 ∷ 231 ∷ 37 ∷ 94 ∷ 181 ∷ 30 ∷ 162 ∷ 223 ∷ 166 ∷ 254 ∷ 172 ∷ 34 ∷ 249
    ∷ 226 ∷ 74 ∷ 188 ∷ 53 ∷ 202 ∷ 238 ∷ 120 ∷ 5 ∷ 107 ∷ 81 ∷ 225 ∷ 89 ∷ 163 ∷ 242 ∷ 113 ∷ 86 ∷ 17
    ∷ 106 ∷ 137 ∷ 148 ∷ 101 ∷ 140 ∷ 187 ∷ 119 ∷ 60 ∷ 123 ∷ 40 ∷ 171 ∷ 210 ∷ 49 ∷ 222 ∷ 196 ∷ 95
    ∷ 204 ∷ 207 ∷ 118 ∷ 44 ∷ 184 ∷ 216 ∷ 46 ∷ 54 ∷ 219 ∷ 105 ∷ 179 ∷ 20 ∷ 149 ∷ 190 ∷ 98 ∷ 161 ∷ 59
    ∷ 22 ∷ 102 ∷ 233 ∷ 92 ∷ 108 ∷ 109 ∷ 173 ∷ 55 ∷ 97 ∷ 75 ∷ 185 ∷ 227 ∷ 186 ∷ 241 ∷ 160 ∷ 133 ∷ 131
    ∷ 218 ∷ 71 ∷ 197 ∷ 176 ∷ 51 ∷ 250 ∷ 150 ∷ 111 ∷ 110 ∷ 194 ∷ 246 ∷ 80 ∷ 255 ∷ 93 ∷ 169 ∷ 142 ∷ 23
    ∷ 27 ∷ 151 ∷ 125 ∷ 236 ∷ 88 ∷ 247 ∷ 31 ∷ 251 ∷ 124 ∷ 9 ∷ 13 ∷ 122 ∷ 103 ∷ 69 ∷ 135 ∷ 220 ∷ 232
    ∷ 79 ∷ 29 ∷ 78 ∷ 4 ∷ 235 ∷ 248 ∷ 243 ∷ 62 ∷ 61 ∷ 189 ∷ 138 ∷ 136 ∷ 221 ∷ 205 ∷ 11 ∷ 19 ∷ 152 ∷ 2
    ∷ 147 ∷ 128 ∷ 144 ∷ 208 ∷ 36 ∷ 52 ∷ 203 ∷ 237 ∷ 244 ∷ 206 ∷ 153 ∷ 16 ∷ 68 ∷ 64 ∷ 146 ∷ 58 ∷ 1
    ∷ 38 ∷ 18 ∷ 26 ∷ 72 ∷ 104 ∷ 245 ∷ 129 ∷ 139 ∷ 199 ∷ 214 ∷ 32 ∷ 10 ∷ 8 ∷ 0 ∷ 76 ∷ 215 ∷ 116 ∷ []
