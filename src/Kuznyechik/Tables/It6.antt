-- ===== src/Kuznyechik/Tables/It6.antt =====
-- internal/kuznyechik/tables.go: `it[6]`, 256 entries of two words.
use kubebao.Common.{ℕ, List, [], ◌∷◌}

unfoldable pub it_row6 : List (ℕ × ℕ)
it_row6 =
    (0x799ddb4148c08b51, 0xc618e56e42b35b04)
    ∷ (0xe73081fa2725ea33, 0x364c8f6512f706a3)
    ∷ (0xc9b34248405a98a4, 0x9d9a049cca192e3b)
    ∷ (0x59c29714d711eb67, 0x4bab806b39a6896c)
    ∷ (0x4dde599db32bd70a, 0xb53d17c0d2076b55)
    ∷ (0x111b1c3a7dd533e7, 0x2052c2f1a1183ba6)
    ∷ (0xf7fea73189acda28, 0x91f45c86ce1c6f97)
    ∷ (0x446c70e837d2cc1a, 0x808b8e42c160ecdd)
    ∷ (0x40be98aafd61c06c, 0xd9a5ca0af62a67d0)
    ∷ (0xf1453b5226a7d065, 0x05cd3aea0373407d)
    ∷ (0x3a9f0d3b03454efa, 0x55401c52334fcaa1)
    ∷ (0x9baa8808760a6ee8, 0x2e903f511afd8438)
    ∷ (0x2ceab79302c774ac, 0x66c1a9dd22cb8c7f)
    ∷ (0x60e1d4ff62b0a05a, 0x5416af0f8d3fb5b8)
    ∷ (0xeb857a3cba33fea9, 0xdd3e43bd4b2958b4)
    ∷ (0x1b157b9f4fc82d30, 0x5f19684535a94a5b)
    ∷ (0x51a5849080b4f38b, 0xf9f708fb57325c76)
    ∷ (0xb4fc714bc2291f83, 0x02aca5babfe0fe32)
    ∷ (0xf442e9e13f48dfef, 0xdb096fb049ca99e2)
    ∷ (0x0d60c1374e4a1766, 0x6c98ddca242d0c85)
    ∷ (0x9a7fb2f9a5566d14, 0xa97a2e43670ed6aa)
    ∷ (0x22363874fa69660d, 0x40a447218130768f)
    ∷ (0xc76fcdafb8f48a05, 0xbbffea6069e2d4cb)
    ∷ (0xe9ec0e1ddf8bf892, 0x10296199b10cfc53)
    ∷ (0x72468615a981967a, 0x3eb95ec8abf1786b)
    ∷ (0xf597d310ec14dc13, 0x5ce37ea23439cb70)
    ∷ (0x80bff39739c243d8, 0x718957142f54ce63)
    ∷ (0x2731eac7e3866987, 0x9e60127bcb89af10)
    ∷ (0x94a33d1e5df87fb5, 0x8f1fc0bfc4f52c5a)
    ∷ (0xef57927e7080f2df, 0x841007f57c63d3b9)
    ∷ (0x15c9f478b7663f91, 0x797c86b99652b0ab)
    ∷ (0x30916a9e3158502d, 0x2a0bb6e6a7febb5c)
    ∷ (0x5a7ed9c461f5eea0, 0x0156b35dbe707f19)
    ∷ (0xd97d6483eed3a8bf, 0x3a22d77f16f2470f)
    ∷ (0x816ac966ea9e4024, 0xf663460652a79cf1)
    ∷ (0x957607ef8ea47c49, 0x08f5d1adb9067ec8)
    ∷ (0xa0e0bfc2a61323ee, 0xfc3a321154411c0b)
    ∷ (0x64333cbda803ac2c, 0x0d38eb47ba753eb5)
    ∷ (0x2b8411017e907d1d, 0x7512dea39257f107)
    ∷ (0x1ac0416e9c942ecc, 0xd8f37957485a18c9)
    ∷ (0x490cb1df7998db7c, 0xec135388e54de058)
    ∷ (0x96ca493f3840798e, 0x4208e29b3ed088bd)
    ∷ (0xb695056aa79119b8, 0xcfbb879e45c55ad5)
    ∷ (0x45b94a19e48ecfe6, 0x07619f50bc93be4f)
    ∷ (0xe48ccf2a91c1eff4, 0x7cb1bc539521f0d6)
    ∷ (0x29ed65201b287b26, 0xb805fc87687255e0)
    ∷ (0x10ce26cbae89301b, 0xa7b8d3e3dceb6934)
    ∷ (0xae3c30255ebd314f, 0xda5fdcedf7bae6fb)
    ∷ (0xa289cbe3c3ab25d5, 0x312d1035ae64b8ec)
    ∷ (0xab3be29647523ec5, 0x049b89b7bd033f64)
    ∷ (0x2d3f8d62d19b7750, 0xe12bb8cf5f38deed)
    ∷ (0x8e637c70c16c5179, 0x57ecb9e88caf3493)
    ∷ (0x5070be6153e8f077, 0x7e1d19e92ac10ee4)
    ∷ (0x32f81ebf54e05616, 0xe71c94c25ddb1fbb)
    ∷ (0x85b82124202d4c52, 0xaf4d024e65ed17fc)
    ∷ (0xcedde4da3c0d9115, 0x8e4973e27a855343)
    ∷ (0x5817ade5044de89b, 0xcc4191794455dbfe)
    ∷ (0xc0016b3dc4a383b4, 0xa82c9d1ed97ea9b3)
    ∷ (0xc506b98edd4c8c3e, 0x76e8c84493c7702c)
    ∷ (0x48d98b2eaac4d880, 0x6bf9429a98beb2ca)
    ∷ (0x205f4c559fd16036, 0x8db365057b15d268)
    ∷ (0x99c3fc2913b268d3, 0xe3871d75e0d820df)
    ∷ (0x0bdb5d54e1411d2b, 0xf8a1bba6e942236f)
    ∷ (0x54a25623995bfc01, 0x27335da11d8b85e9)
    ∷ (0xf09001a3f5fbd399, 0x82272bf87e8012ef)
    ∷ (0x47d03e388136c9dd, 0xca76bd7446b61aa8)
    ∷ (0x4c0b636c6077d4f6, 0x32d706d2aff439c7)
    ∷ (0xd3730326dcceb668, 0x45697dcb824336f2)
    ∷ (0xa1358533754f2012, 0x7bd0230329b24e99)
    ∷ (0x0507d2b319ef0f8a, 0xdec4555a4ab9d99f)
    ∷ (0xb1fba3f8dbc61009, 0xdc68f0e0f55927ad)
    ∷ (0x6134ee0eb1eca3a6, 0xd3fcbe1df0cce72a)
    ∷ (0x971f73ceeb1c7a72, 0xc5e2f3894323da2f)
    ∷ (0xff99b4b5de09c2c4, 0x23a8d416a088ba8d)
    ∷ (0x56cb2202fce3fa3a, 0xea247f85e7ae210e)
    ∷ (0xac5544043b053774, 0x1748fec90d9f421c)
    ∷ (0x38f6791a66fd48c1, 0x98573e76c96a6e46)
    ∷ (0x218a76a44c8d63ca, 0x0a59741706e680fa)
    ∷ (0xe23753493ecae5b9, 0xe888da3f584edf3c)
    ∷ (0x3f98df881aaa4170, 0x8b84490879f6133e)
    ∷ (0x25589ee6863e6fbc, 0x5377305f31ac0bf7)
    ∷ (0x88d8e0136e675b34, 0xc3d5df8441c01b79)
    ∷ (0x7bf4af602d788d6a, 0x0b0fc74ab896ffe3)
    ∷ (0xc1d451cc17ff8048, 0x2fc68c0ca48dfb21)
    ∷ (0xa78e1950da442a5f, 0xefe9456fe4dd6173)
    ∷ (0xc2681f1ca11b858f, 0x653bbf3a235b0d54)
    ∷ (0x87d1550545954a69, 0x625a206a9fc8b31b)
    ∷ (0x0cb5fbc69d16149a, 0xeb72ccd859de5e17)
    ∷ (0x28385fd1c87478da, 0x3fefed9515810772)
    ∷ (0x55776cd24a07fffd, 0xa0d94cb36078d77b)
    ∷ (0xaaeed867940e3d39, 0x837198a5c0f06df6)
    ∷ (0x9d11146bd90164a5, 0xbaa9593dd792abd2)
    ∷ (0x01d53af1d35c03fc, 0x87ea11127df35292)
    ∷ (0x7ef37dd3349782e0, 0xd5cb9210f22f267c)
    ∷ (0x76946e5763329a0c, 0x67971a809cbbf366)
    ∷ (0x42d7ec8b98d9c657, 0x14b2e82e0c0fc337)
    ∷ (0xbef216eef0340154, 0x7de70f0e2b518fcf)
    ∷ (0x6aefb35a50adbe8d, 0x2b5d05bb198ec445)
    ∷ (0xcd61aa0a8ae994d2, 0xc4b440d4fd53a536)
    ∷ (0x18a9354ff92c28f7, 0x15e45b73b27fbc2e)
    ∷ (0xf32c4f73431fd65e, 0xc8da18cef956e49a)
    ∷ (0xc6baf75e6ba889f9, 0x3c15fb7214118659)
    ∷ (0xdfc6f8e041d8a2f2, 0xae1bb113db9d68e5)
    ∷ (0x82d687b65c7a45e3, 0xbc9e7530d5716a84)
    ∷ (0x0269742165b8063b, 0xcd172224fa25a4e7)
    ∷ (0xfc25fa6568edc703, 0x6955e720275e4cf8)
    ∷ (0x0edc8fe7f8ae12a1, 0x2665eefca3fbfaf0)
    ∷ (0x7a219591fe248e96, 0x8ce5d658c565ad71)
    ∷ (0x17a08059d2de39aa, 0xb46ba49d6c77144c)
    ∷ (0xcbda366925e29e9f, 0x508d26b8303c8adc)
    ∷ (0x1fc793dd857b2146, 0x06372c0d02e3c156)
    ∷ (0x702ff234cc399041, 0xf3ae7cec51d4dc8c)
    ∷ (0x5f790b77781ae12a, 0xdf92e607f4c9a686)
    ∷ (0x362af6fd9e535a60, 0xbe32d08a6a9194b6)
    ∷ (0xb99cb07c8c6308e5, 0x6e3478709bcdf2b7)
    ∷ (0xd2a639d70f92b594, 0xc2836cd9ffb06460)
    ∷ (0x8ddf32a0778854be, 0x1d118ade0b79c2e6)
    ∷ (0x416ba25b2e3dc390, 0x5e4fdb188bd93542)
    ∷ (0x9816c6d8c0ee6b2f, 0x646d0c679d2b724d)
    ∷ (0x635d9a2fd454a59d, 0x1eeb9c390ae943cd)
    ∷ (0x1c7bdd0d339f2481, 0x4cca1f3b85353723)
    ∷ (0xf2f975829043d5a2, 0x4f3009dc84a5b608)
    ∷ (0x04d2e842cab30c76, 0x592e4448374a8b0d)
    ∷ (0x3df1aba97f12474b, 0x46936b2c83d3b7d9)
    ∷ (0xed3ee65f1538f4e4, 0x490725d18646775e)
    ∷ (0x3b4a37cad0194d06, 0xd2aa0d404ebc9833)
    ∷ (0xea5040cd696ffd55, 0x5ad452af36da0a26)
    ∷ (0x846d1bd5f3714fae, 0x28a7135c181e456e)
    ∷ (0x7f264722e7cb811c, 0x522183028fdc74ee)
    ∷ (0xf8f71227a25ecb75, 0x307ba3681014c7f5)
    ∷ (0x344382dcfbeb5c5b, 0x7325f2ae90b43051)
    ∷ (0x93cd9b8c21af7604, 0x9cccb7c174695122)
    ∷ (0x7d4f330382738727, 0x9f36a12675f9d009)
    ∷ (0x06bb9c63af0b0a4d, 0x9439666ccd6f2fea)
    ∷ (0x37ffcc0c4d0f599c, 0x39d8c1981762c624)
    ∷ (0x12a752eacb313620, 0x6aaff1c726cecdd3)
    ∷ (0xd11a7707b976b053, 0x887e5fef78669215)
    ∷ (0x65e6064c7b5fafd0, 0x8ad2fa55c7866c27)
    ∷ (0x86046ff496c94995, 0xe5b03178e23be189)
    ∷ (0x8b64aec3d8835ef3, 0x8928ecb2c616ed0c)
    ∷ (0x8fb6468112305285, 0xd006a8faf15c6601)
    ∷ (0xad807ef5e8593488, 0x90a2efdb706c108e)
    ∷ (0x53ccf0b1e50cf5b0, 0x34e02adfad17f891)
    ∷ (0xba20feac3a870d22, 0x24c94b461c1b04c2)
    ∷ (0x197c0fbe2a702b0b, 0x920e4a61cf8ceebc)
    ∷ (0xa887ac46f1b63b02, 0x4e66ba813ad5c911)
    ∷ (0xddaf8cc12460a4c9, 0x630c933721b8cc02)
    ∷ (0x7c9a09f2512f84db, 0x18dcb034080a829b)
    ∷ (0x6886c77b3515b8b6, 0xe64a279fe3ab60a2)
    ∷ (0x248da41755626c40, 0xd49d214d4c5f5965)
    ∷ (0xfa9e6606c7e6cd4e, 0xfd6c814cea316312)
    ∷ (0x0a0e67a5321d1ed7, 0x7f4baab494b171fd)
    ∷ (0x4302d67a4b85c5ab, 0x9358f93c71fc91a5)
    ∷ (0xa43257806ca02f98, 0xa5147659630b9706)
    ∷ (0x890ddae2bd3b58c8, 0x443fce963c3349eb)
    ∷ (0xd0cf4df66a2ab3af, 0x0f944efd0595c087)
    ∷ (0xa65b23a1091829a3, 0x6803547d992e33e1)
    ∷ (0xb7403f9b74cd1a44, 0x4851968c38360847)
    ∷ (0xdb1410a28b6bae84, 0xf735f55becd7e3e8)
    ∷ (0x9f78604abcb9629e, 0x77be7b192db70f35)
    ∷ (0xd674d195c521b9e2, 0x9bad2891c8faef6d)
    ∷ (0x4e62174d05cfd2cd, 0xffc024f655d19d20)
    ∷ (0x6e3d5b189a1eb2fb, 0x727341f32ec44f48)
    ∷ (0xe3e269b8ed96e645, 0x6f62cb2d25bd8dae)
    ∷ (0xee82a88fa3dcf123, 0x03fa16e70190812b)
    ∷ (0x571e18f32fbff9c6, 0x6dce6e979a5d739c)
    ∷ (0x392343ebb5a14b3d, 0x1fbd2f64b4993cd4)
    ∷ (0x665a489ccdbbaa17, 0xc02fc96340509a52)
    ∷ (0x678f726d1ee7a9eb, 0x47c5d8713da3c8c0)
    ∷ (0xccb490fb59b5972e, 0x435e51c680a0f7a4)
    ∷ (0x75282087d5d69fcb, 0x2d6a29b61b6d0513)
    ∷ (0xfb4b5cf714baceb2, 0x7a86905e97c23180)
    ∷ (0x5babe335b2a9ed5c, 0x86bca24fc3832d8b)
    ∷ (0x6953fd8ae649bb4a, 0x61a0368d9e583230)
    ∷ (0xa5e76d71bffc2c64, 0x22fe674b1ef8c594)
    ∷ (0x6b3a89ab83f1bd71, 0xacb714a9647d96d7)
    ∷ (0xdc7ab630f73ca735, 0xe4e682255c4b9e90)
    ∷ (0x03bc4ed0b6e405c7, 0x4afd333687d6f675)
    ∷ (0x6fe861e94942b107, 0xf59950e153371dda)
    ∷ (0x9cc42e9a0a5d6759, 0x3d43482faa61f940)
    ∷ (0xfe4c8e440d55c138, 0xa442c504dd7be81f)
    ∷ (0x332d244e87bc55ea, 0x60f685d020284d29)
    ∷ (0x74fd1a76068a9c37, 0xaa8038a4669e5781)
    ∷ (0xca0f0c98f6be9d63, 0xd76737aa4dcfd84e)
    ∷ (0xecebdcaec664f718, 0xceed34c3fbb525cc)
    ∷ (0x3596b82d28b75fa7, 0xf4cfe3bced4762c3)
    ∷ (0xc86678b993069b58, 0x1a70158eb7ea7ca9)
    ∷ (0x5d107f561da2e711, 0x1285c4230eec0261)
    ∷ (0xb02e9909089a13f5, 0x5b82e1f288aa753f)
    ∷ (0xd41da5b4a099bfd9, 0x56ba0ab532df4b8a)
    ∷ (0xcf08de2bef5192e9, 0x09a362f0077601d1)
    ∷ (0xd5c89f4573c5bc25, 0xd1501ba74f2c1918)
    ∷ (0x9218a17df2f375f8, 0x1b26a6d3099a03b0)
    ∷ (0x2e83c3b2677f7297, 0xabd68bf9d8ee2898)
    ∷ (0x076ea6927c5709b1, 0x13d3777eb09c7d78)
    ∷ (0xb8498a8d5f3f0b19, 0xe9de6962e63ea025)
    ∷ (0x8ab194320bdf5d0f, 0x0ec2fda0bbe5bf9e)
    ∷ (0xf92228d67102c889, 0xb791b27a6de79567)
    ∷ (0x1372681b186d35dc, 0xed45e0d55b3d9f41)
    ∷ (0xe559f5db429dec08, 0xfb5bad41e8d2a244)
    ∷ (0x23e30285293565f1, 0xc74e5633fcc3241d)
    ∷ (0xbf272c1f236802a8, 0xfa0d1e1c56a2dd5d)
    ∷ (0xde13c2119284a10e, 0x29f1a001a66e3a77)
    ∷ (0xbc9b62cf958c076f, 0xb0f02d2ad1742b28)
    ∷ (0x1daee7fce0c3277d, 0xcb200e29f8c665b1)
    ∷ (0xf62b9dc05af0d9d4, 0x161e4d94b3ef3d05)
    ∷ (0x71fac8c51f6593bd, 0x74446dfe2c278e1e)
    ∷ (0x7393bce47add9586, 0xb9534fdad6022af9)
    ∷ (0x0867138457a518ec, 0xb25c88906e94d51a)
    ∷ (0xb392d7d9be7e1632, 0x117fd2c40f7c834a)
    ∷ (0xe18b1d99882ee07e, 0xa275e909df982949)
    ∷ (0x5cc545a7cefee4ed, 0x956fd531731f50f3)
    ∷ (0xe83934ec0cd7fb6e, 0x97c3708bccffaec1)
    ∷ (0x9071d55c974b73c3, 0xd63184f7f3bfa757)
    ∷ (0x460504c9526aca21, 0x4d9cac663b45483a)
    ∷ (0x9ead5abb6fe56162, 0xf0546a0b50445da7)
    ∷ (0xb247ed286d2215ce, 0x9695c3d6728fd1d8)
    ∷ (0xbd4e583e46d00493, 0x371a3c38ac8779ba)
    ∷ (0x5219ca403650f64c, 0xb30a3bcdd0e4aa03)
    ∷ (0xbbf5c45de9db0ede, 0xa3235a5461e85650)
    ∷ (0x91a4efad4417703f, 0x51db95e58e4cf5c5)
    ∷ (0xd8a85e723d8fab43, 0xbdc8c66d6b01159d)
    ∷ (0xc3bd25ed72478673, 0xe2d1ae285ea85fc6)
    ∷ (0x7848e1b09b9c88ad, 0x41f2f47c3f400996)
    ∷ (0x774154a6b06e99f0, 0xe07d0b92e148a1f4)
    ∷ (0x4b65c5fe1c20dd47, 0x210471ac1f6844bf)
    ∷ (0x6d8115c82cfab73c, 0x388e72c5a912b93d)
    ∷ (0x6288a0de0708a661, 0x99018d2b771a115f)
    ∷ (0x1675baa801823a56, 0x3381b58f118446de)
    ∷ (0xa35cf11210f72629, 0xb6c70127d397ea7e)
    ∷ (0x26e4d03630da6a7b, 0x198a0369b67afd82)
    ∷ (0x09b2297584f91b10, 0x35b6998213678788)
    ∷ (0xfdf0c094bbb1c4ff, 0xeebff6325aad1e6a)
    ∷ (0x0f09b5162bf2115d, 0xa18fffeede08a862)
    ∷ (0x4fb72dbcd693d131, 0x782a35e42822cfb2)
    ∷ (0x3c249158ac4e44b7, 0xc1797a3efe20e54b)
    ∷ (0xafe90ad48de132b3, 0x5db5cdff8a49b469)
    ∷ (0x2f56f943b423716b, 0x2c3c9aeba51d7a0a)
    ∷ (0x6c542f39ffa6b4c0, 0xbf6463d7d4e1ebaf)
    ∷ (0xb5294bba11751c7f, 0x8546b4a8c213aca0)
    ∷ (0xd7a1eb64167dba1e, 0x1c473983b509bdff)
    ∷ (0x3144506fe20453d1, 0xade1a7f4da0de9ce)
    ∷ (0xdac12a535837ad78, 0x70dfe4499124b17a)
    ∷ (0xc4d3837f0e108fc2, 0xf102d956ee3422be)
    ∷ (0x4ab0ff0fcf7cdebb, 0xa6ee60be629b162d)
    ∷ (0x141cce89643a3c6d, 0xfe9697abeba1e239)
    ∷ (0x2a512bf0adcc7ee1, 0xf2f8cfb1efa4a395)
    ∷ (0x8303bd478f26461f, 0x3b746422a8823816)
    ∷ (0xe05e27685b72e382, 0x259ff81ba26b7bdb)
    ∷ (0x1e12a92c562722ba, 0x81dd3d1f7f1093c4)
    ∷ (0x3e4de579c9f6428c, 0x0c6e581a040541ac)
    ∷ (0xe6e5bb0bf479e9cf, 0xb1a69e776f045431)
    ∷ (0x0000000000000000, 0x0000000000000000)
    ∷ (0xa95296b722ea38fe, 0xc98cab9347269b83)
    ∷ (0x8c0a0851a4d45742, 0x9afb9bcc768a9074)
    ∷ (0x5eac3186ab46e2d6, 0x5878f715893af414)
    ∷ []
