-- ===== src/Kuznyechik/Tables/T6.antt =====
-- internal/kuznyechik/tables.go: `t[6]`, 256 entries of two words.
use kubebao.Common.{ℕ, List, [], ◌∷◌}

unfoldable pub t_row6 : List (ℕ × ℕ)
t_row6 =
    (0x65c2b33be281c8a2, 0xfc07a04ba88823c5)
    ∷ (0x8f944c1f73ba5e7e, 0xeee6fd67b453c472)
    ∷ (0xc13cd8790b9bcf65, 0xdd16ebda96a1fe2a)
    ∷ (0x3ad9cd22281fce09, 0x1150b36b1eef1689)
    ∷ (0x2b6a275d9aa059b9, 0xcff7b6f68a7a199d)
    ∷ (0x187cdadc8fa223aa, 0x6eddb992f50608a1)
    ∷ (0x6fe309621719403c, 0x312ea2c79f6b25cd)
    ∷ (0xa8c0062c4f4bf792, 0x169ef6d8a52ad95e)
    ∷ (0xf7db783585d5f139, 0xfbc9e5f8134dec12)
    ∷ (0x7f0a244b5c64c3f0, 0xc4b8cd9a396f94b2)
    ∷ (0x061fd73753c978cb, 0xfaa6bfc5ace002b9)
    ∷ (0x532513776ccff6fe, 0xdad8ae692d6431fd)
    ∷ (0x85b5f6468622d6e0, 0x23cfffeb83b0c27a)
    ∷ (0x8ece8b498a784a02, 0xc5d797a786c27a19)
    ∷ (0x4296f908de70614e, 0x047fabf4b9f13ee9)
    ∷ (0x9dc92c9a0980f54a, 0x4d12467976b6cadb)
    ∷ (0x1d8d871114ee67e5, 0xe928b8d40f960ba5)
    ∷ (0xa64a26eed85d2f3f, 0x77739fd25ac86239)
    ∷ (0xa3bb7b2343116b70, 0xf0869e94a058613d)
    ∷ (0xa2e1bc75bad37f0c, 0xdbb7f45492c9df56)
    ∷ (0x8c7ac6e5bb3f62fa, 0x93b543e4e223c5cf)
    ∷ (0xb208915cf1aefcc0, 0x2e219b0934cd6e29)
    ∷ (0x29de6af1abe77141, 0x999562b5ee9ba64b)
    ∷ (0xac6b9cb72dc5a7a1, 0xba5a9d5e6d2b6431)
    ∷ (0x5904a92e99577e60, 0x17f1ace51a8737f5)
    ∷ (0xfdfac26c704d79a7, 0x36e0e77424aeea1a)
    ∷ (0x527fd421950de282, 0xf1e9c4a91ff58f96)
    ∷ (0x5daf33b5fbd92e53, 0xbb35c763d2868a9a)
    ∷ (0x898b9b28207326b5, 0x144042a218b3c6cb)
    ∷ (0x0a21ba59f598889e, 0xcd29028c37e30608)
    ∷ (0x779fd3be98bb6396, 0x5ff31b556a6d2d6c)
    ∷ (0xcc58724154082b4c, 0xc1a83c533f3344f0)
    ∷ (0xd690e531eaed201e, 0xf9175182aed4f387)
    ∷ (0x4ff2533081e38567, 0x18c17c7d10638433)
    ∷ (0x4c1cd9ca4966b9e3, 0x6592c2fe4613858e)
    ∷ (0xc4cd85b490d78b2a, 0x5ae3ea9c6c31fd2e)
    ∷ (0x49ed8407d22afdac, 0xe267c3b8bc83868a)
    ∷ (0xa710e1b8219f3b43, 0x5c42f5126859dc52)
    ∷ (0x7e50e31da5a6d78c, 0xef89a75a0bfe2ad9)
    ∷ (0xa4fe6b42e91a07c7, 0x21114b913e29ddef)
    ∷ (0x662c39c12a04f426, 0x81541ec8fef82278)
    ∷ (0x0d64aa385f93e429, 0x1cbed789a992bada)
    ∷ (0x585e6e7860956a1c, 0x3cc0c6252816899e)
    ∷ (0x8b3fd68411340e4d, 0x422296e17c52791d)
    ∷ (0xc38895d53adce79d, 0x8b743f99f24041fc)
    ∷ (0xf1c4af02d61c89f2, 0x016f5a3dbfadeeab)
    ∷ (0x70dac3df32b00f21, 0x8e64ce50f41c91be)
    ∷ (0xbc82b19e66b8246d, 0x4fccf203cb2fd54e)
    ∷ (0xb352560a086ce8bc, 0x0510f1c9065cd042)
    ∷ (0xd57e6fcb22681c9a, 0x8444ef01f8a4f23a)
    ∷ (0x214b9d046f38d127, 0x02deb47abd991f95)
    ∷ (0x25e0079f0db68114, 0xae1adffc7598a2fa)
    ∷ (0xb8292b050436745e, 0xe3089985032e6821)
    ∷ (0x5aea23d451d242e4, 0x6aa212664cf73648)
    ∷ (0x811e6cdde4ac86d3, 0x8f0b946d4bb17f15)
    ∷ (0xc2d25283c31ef3e1, 0xa0455559c0d1ff97)
    ∷ (0x63dd640cb148b069, 0x06a11f8e0468217c)
    ∷ (0x54600316c6c49a49, 0x0b4f7b6cb3158d2f)
    ∷ (0x5f1b7e19ca9e06ab, 0xed571320b667354c)
    ∷ (0xd81ac5f37dfbf8b3, 0x98fa3888513648e0)
    ∷ (0x22a517fea7bdeda3, 0x7f8d0af9ebe91e28)
    ∷ (0xb417466ba267840b, 0xd48724cc982d6c90)
    ∷ (0x260e8d65c533bd90, 0xd349617f23e8a347)
    ∷ (0xddeb983ee6b7bcfc, 0x1f0f39ceaba64be4)
    ∷ (0x3cc61a157bd6b6c2, 0xebf60caeb20f1430)
    ∷ (0xdcb15f681f75a880, 0x343e530e9937f58f)
    ∷ (0x93430c589e962de7, 0x2cff2f73895471bc)
    ∷ (0x90ad86a256131163, 0x51ac91f0df247001)
    ∷ (0xcd02b517adca3f30, 0xea9956930da2fa9b)
    ∷ (0xb973ec53fdf46022, 0xc839f34531bfd64a)
    ∷ (0x2e9b7a9001ec1df6, 0x4802b7b070ea1a99)
    ∷ (0x96b2519505da69a8, 0xab0a2e3573c472b8)
    ∷ (0x82f0e6272c29ba57, 0xf2582aee1dc17ea8)
    ∷ (0xf09e68542fde9d8e, 0x2a5e30fd8d3c50c0)
    ∷ (0x7ba1bed03eea93c3, 0x687ca61cf16e29dd)
    ∷ (0xe399cf87ac2622c6, 0xa29be1237d48e002)
    ∷ (0x94061c39349d4150, 0xfd68fa761725cd6e)
    ∷ (0x3b830a74d1ddda75, 0x3a61d9ab2c7ea8e2)
    ∷ (0xdaae885f4cbcd04b, 0xce98eccb35d7f736)
    ∷ (0xfbe5155b2384016c, 0xcc4658b1884ee8a3)
    ∷ (0xba9d66a935715ca6, 0xb56a4dc667cfd7f7)
    ∷ (0x3453ede0bf0916a4, 0x70bdda61e10dadee)
    ∷ (0xe732551ccea872f5, 0x0e5f8aa5b5495d6d)
    ∷ (0x02b44dac314728f8, 0x5662d44364e1bfd6)
    ∷ (0x84ef31107fe0c29c, 0x08fe952bb1217c11)
    ∷ (0xc679c818a190a3d2, 0x0c813edf08d042f8)
    ∷ (0x578e89ec0e41a6cd, 0x761cc5efe5658c92)
    ∷ (0xea56ff24913b96dc, 0x12e15d2c1cdbe7b7)
    ∷ (0x1f39cabd25a94f1d, 0xbf4a6c976b77b473)
    ∷ (0x151870e4d031c783, 0x72636e1b5c94b27b)
    ∷ (0x1b92502647271f2e, 0x138e0711a376091c)
    ∷ (0x386d808e1958e6f1, 0x473267287a0ea95f)
    ∷ (0x9a8c3cfba38b99fd, 0x9c85937ce8c77609)
    ∷ (0x9bd6fbad5a498d81, 0xb7b4f9bcda56c862)
    ∷ (0x56d44ebaf783b2b1, 0x5d2daf2fd7f432f9)
    ∷ (0x05f15dcd9b4c444f, 0x87f50146fa900304)
    ∷ (0x784f342af66faf47, 0x152f189fa71e2860)
    ∷ (0x3316fd8115027a13, 0xa12a0f647f7c113c)
    ∷ (0x3f2890efb3538a46, 0x96a5b22de47f158d)
    ∷ (0x20115a5296fac55b, 0x29efdeba8f08a1fe)
    ∷ (0xcb1d6220fe0347fb, 0x103fe956a142f822)
    ∷ (0x6033eef679cd8ced, 0x7bf2a10d521820c1)
    ∷ (0xf95158f712c32994, 0x9a248cf2ecaf5775)
    ∷ (0xaf85164de5409b25, 0xc70923dd3b5b658c)
    ∷ (0x73344925fa3533a5, 0xf33770d3a26c9003)
    ∷ (0xad315be1d407b3dd, 0x916bf79e5fbada5a)
    ∷ (0xb0bcdcf0c0e9d438, 0x78434f4a502cd1ff)
    ∷ (0xe9b875de59beaa58, 0x6fb2e3af4aabe60a)
    ∷ (0x6b4893f97597100f, 0x9deac941576a98a2)
    ∷ (0xbbc7a1ffccb348da, 0x9e5b2706555e699c)
    ∷ (0x2884ada75225653d, 0xb2a40875dc0a1820)
    ∷ (0xf80b9fa1eb013de8, 0xb115e632de3ee91e)
    ∷ (0xbf6c3b64ae3d18e9, 0x329f4c809d5fd4f3)
    ∷ (0x8701bbeab765fe18, 0x75ad2ba8e7517dac)
    ∷ (0xbe36fc3257ff0c95, 0x19ae2640afce6a98)
    ∷ (0xa99ac17ab689e3ee, 0x3daf9c1897bb6735)
    ∷ (0xb54d813d5ba59077, 0xffb64e0caabcd2fb)
    ∷ (0x2d75f06ac9692172, 0x35510933269a1b24)
    ∷ (0x324c3ad7ecc06e6f, 0x8a1b65a44dedaf57)
    ∷ (0xd361b8fc71a16451, 0x7ee250c45444f083)
    ∷ (0xc8f3e8da36867b7f, 0x6d6c57d5f732f99f)
    ∷ (0x23ffd0a85e7ff9df, 0x54bc6039d978a043)
    ∷ (0x5e41b94f335c12d7, 0xc66679e084f68b27)
    ∷ (0x97e896c3fc187dd4, 0x803b44f54155ccd3)
    ∷ (0xed13ef453b30fa6b, 0xc376882982aa5b65)
    ∷ (0x3e7257b94a919e3a, 0xbd94d8edd6eeabe6)
    ∷ (0x37bd671a778c2a20, 0x0dee64e2b77dac53)
    ∷ (0xf370e2aee75ba10a, 0x570d8e7edb4c517d)
    ∷ (0xe077457d64a31e42, 0xdfc85fa02b38e1bf)
    ∷ (0x10e92d294b7d83cc, 0xf5966f5da604b17f)
    ∷ (0x17ac3d48e176ef7b, 0x2401ba5838750dad)
    ∷ (0xb7f9cc916ae2b88f, 0xa9d49a4fce5d6d2d)
    ∷ (0x7915f37c0fadbb3b, 0x3e1e725f958f960b)
    ∷ (0x463d6393bcfe317d, 0xa8bbc07271f08386)
    ∷ (0x7afb7986c72887bf, 0x434dccdcc3ff97b6)
    ∷ (0x48b743512be8e9d0, 0xc956a9788e1238e1)
    ∷ (0x6498746d1b43dcde, 0xd736ca8b9a199dae)
    ∷ (0x417873f216f55dca, 0x792c1577ef813f54)
    ∷ (0x955cdb6fcd5f552c, 0xd65990b625b47305)
    ∷ (0xc0661f2ff259db19, 0xf627811aa4304041)
    ∷ (0xf22a25f81e99b576, 0x7c3ce4bee9ddef16)
    ∷ (0x74715944503e5f12, 0x22a0a5d63c1d2cd1)
    ∷ (0x7ce4aeb194e1ff74, 0xb9eb73196f1f950f)
    ∷ (0xd08f3206b92458d5, 0x03b1ee470234f13e)
    ∷ (0x68a61903bd122c8b, 0xe0b977c2011a991f)
    ∷ (0x16f6fa1e18b4fb07, 0x0f30d0980ae4b3c6)
    ∷ (0xaedfd11b1c828f59, 0xec38491d09cadbe7)
    ∷ (0x11b3ea7fb2bf97b0, 0xdea7059d94950f14)
    ∷ (0x91f741f4afd1051f, 0x7a9dfb30edb5ce6a)
    ∷ (0x1e630debdc6b5b61, 0x947b065759e60a18)
    ∷ (0x09cf30a33d1db41a, 0xb07abc0f619307b5)
    ∷ (0xcfb6f8bb9c8d17c8, 0xbcfb82d06943454d)
    ∷ (0x30f8777bdd874697, 0xdc79b1e7290c1081)
    ∷ (0xec492813c2f2ee17, 0xe847e2e9b03be50e)
    ∷ (0xd1d5f55040e64ca9, 0x2880848730a54f55)
    ∷ (0x616929a0800f9891, 0x50c3cbcd60899eaa)
    ∷ (0x4d461e9cb0a4ad9f, 0x4ea3a83e74823be5)
    ∷ (0x4ea894667821911b, 0x33f016bd22f23a58)
    ∷ (0xa5a4ac1410d813bb, 0x0a2021510cb86384)
    ∷ (0x0fd0e7946ed4ccd1, 0x4adc03cacd73050c)
    ∷ (0x50cb998da44aca7a, 0xa78b10ea7b143040)
    ∷ (0xceec3fed654f03b4, 0x97cae8105bd2fb26)
    ∷ (0xff4e8fc0410a515f, 0x60823337404f55cc)
    ∷ (0xe4dcdfe6062d4e71, 0x730c3426e3395cd0)
    ∷ (0x2c2f373c30ab350e, 0x1e6063f3140ba54f)
    ∷ (0x0000000000000000, 0x0000000000000000)
    ∷ (0xde0512c42e328078, 0x625c874dfdd64a59)
    ∷ (0xe8e2b288a07cbe24, 0x4483896f783a5861)
    ∷ (0x6eb9ce34eedb5440, 0x1a1fc807adfa9ba6)
    ∷ (0x8d2001b342fd7686, 0xb8842924d0b27ba4)
    ∷ (0x1ac89770bee50b52, 0x38bf6dd191e7b777)
    ∷ (0xb6a30bc79320acf3, 0x82e5f08ffcccd346)
    ∷ (0xbdd876c89f7a3011, 0x64fd98c3f9be6b25)
    ∷ (0x4a030efd1aafc128, 0x9f347d3beaf38737)
    ∷ (0x36e7a04c8e4e3e5c, 0x26df0e2285ec1238)
    ∷ (0x5bb0e482a8105698, 0x419378a67e668823)
    ∷ (0xf56f3599b492d9c1, 0xadab31bb77ac53c4)
    ∷ (0x19261d8a766037d6, 0x45ecd352c797b6ca)
    ∷ (0xc9a92f8ccf446f03, 0x465d3d15c5a347f4)
    ∷ (0x7dbe69e76d23eb08, 0x92da19d95d8e2b64)
    ∷ (0xc7230f4e5852b7ae, 0x27b0541f3a41fc93)
    ∷ (0x865b7cbc4ea7ea64, 0x5e9c4168d5c0c3c7)
    ∷ (0xd23b7faa8863702d, 0x55d33a0466d54ee8)
    ∷ (0x43cc3e5e27b27532, 0x2f4ec1348b608082)
    ∷ (0x51915edb5d88de06, 0x8cba7a2a49858e2b)
    ∷ (0x125d60857a3aab34, 0xa3f4bb1ec2e50ea9)
    ∷ (0x71800489cb721b5d, 0xa555a490c68d2fd5)
    ∷ (0x03ee8afac8853c84, 0x7d53be83567001bd)
    ∷ (0x8a6511d2e8f61a31, 0x6913fc214ec3c776)
    ∷ (0x45d3e969747b0df9, 0xd5e87ef12780823b)
    ∷ (0xefa7a2e90a77d293, 0x95145c6ae64be4b3)
    ∷ (0xca47a57607c15387, 0x3b0e839693d34649)
    ∷ (0x9219cb0e6754399b, 0x07ce45b3bbc5cfd7)
    ∷ (0xe58618b0ffef5a0d, 0x583d5ee6d1a8e2bb)
    ∷ (0xd94002a58439eccf, 0xb3cb524863a7f68b)
    ∷ (0xaa744b807e0cdf6a, 0x40fc229bc1cb6688)
    ∷ (0xf435f2cf4d50cdbd, 0x869a5b7b453dedaf)
    ∷ (0x04ab9a9b628e5033, 0xacc46b86c801bd6f)
    ∷ (0xfca0053a898f6ddb, 0x1dd18db4163f5471)
    ∷ (0x31a2b02d244552eb, 0xf748db271b9daeea)
    ∷ (0x9e27a660c105c9ce, 0x3041f8fa20c6cb66)
    ∷ (0x0c3e6d6ea651f055, 0x378fbd499b0304b1)
    ∷ (0xab2e8cd687cecb16, 0x6bcd485bf35ad8e3)
    ∷ (0x2a30e00b63624dc5, 0xe4c6dc36b8eba7f6)
    ∷ (0x1307a7d383f8bf48, 0x88c5d1def074b0c2)
    ∷ (0x83aa2171d5ebae2b, 0xd969402e2f50c0c3)
    ∷ (0xfabfd20dda461510, 0xe7773271badf56c8)
    ∷ (0xe2c308d155e436ba, 0x89aa8be34fd95e69)
    ∷ (0x9962b6016b0ea579, 0xe1d62dffbeb777b4)
    ∷ (0x9f7d613638c7ddb2, 0x1b70923a1257750d)
    ∷ (0x4767a4c5453c2501, 0x838aaab243613ded)
    ∷ (0xdf5fd592d7f09404, 0x496ded8dcf47f432)
    ∷ (0x6c0d8398df9c7cb8, 0x4c7d1c44c91b2470)
    ∷ (0x88d15c7ed9b132c9, 0x3f7128622a2278a0)
    ∷ (0x27544a333cf1a9ec, 0xf8780bbf11791d2c)
    ∷ (0x44892e3f8db91985, 0xfed9143115113c50)
    ∷ (0xa055f1d98b9457f4, 0x8dd52017f6286080)
    ∷ (0xb1e61ba6392bc044, 0x5372258a62bd6f94)
    ∷ (0x6776fe97d3c6e05a, 0xaa657408cc699c13)
    ∷ (0x5cf5f4e3021b3a2f, 0x9004ada3e01734f1)
    ∷ (0x9838715792ccb105, 0xcae7473f8c26c9df)
    ∷ (0x726e8e7303f727d9, 0xd8061a1390fd2e68)
    ∷ (0x24bac0c9f4749568, 0x852bb53c47091c91)
    ∷ (0x0e8a20c29716d8ad, 0x61ed690affe2bb67)
    ∷ (0x553ac4403f068e35, 0x207e11ac81843344)
    ∷ (0xc59742e269159f56, 0x71d2805c5ea04345)
    ∷ (0x6d5744ce265e68c4, 0x674c7684fb8a9a1b)
    ∷ (0x8044ab8b1d6e92af, 0xa43afead7920c17e)
    ∷ (0x6287a35a488aa415, 0x2d90754e36f99f17)
    ∷ (0x015ac756f9c2147c, 0x2b316ac03291be6b)
    ∷ (0x752b9e12a9fc4b6e, 0x0991cf160e8c92ba)
    ∷ (0x35092ab646cb02d8, 0x5b8cb0a1d39c1385)
    ∷ (0x69fcde5544d038f7, 0xcb881d02338b2774)
    ∷ (0x0895f7f5c4dfa066, 0x9b4bd6cf5302b9de)
    ∷ (0xe668924a376a6689, 0x256ee06587d8e306)
    ∷ (0xf681bf637c17e545, 0xd0f88f3821dc5279)
    ∷ (0xeefd65bff3b5c6ef, 0xbe2536aad4da5ad8)
    ∷ (0xdbf44f09b57ec437, 0xe5a9860b0746495d)
    ∷ (0x393747d8e09af28d, 0x6c030de8489f1734)
    ∷ (0x4022b4a4ef3749b6, 0x521d7fb7dd10813f)
    ∷ (0x1442b7b229f3d3ff, 0x595204db6e050c10)
    ∷ (0xa10f368f72564388, 0xa6e44ad7c4b9deeb)
    ∷ (0x76c514e8617977ea, 0x74c2719558fc9307)
    ∷ (0xd7ca2267132f3462, 0xd2263b429c454dec)
    ∷ (0x0b7b7d0f0c5a9ce2, 0xe618684c0572b863)
    ∷ (0xe12d822b9d610a3e, 0xf4f9356019a95fd4)
    ∷ (0x4b59c9abe36dd554, 0xb40517fbd862395c)
    ∷ (0x3d9cdd438214a2be, 0xc0c7666e809eaa5b)
    ∷ (0x07451061aa0b6cb7, 0xd197d5059e71bcd2)
    ∷ (0x9c93ebccf042e136, 0x66232cb9442774b0)
    ∷ (0xd424a89ddbaa08e6, 0xaf7585c1ca354c51)
    ∷ (0x1cd74047ed2c7399, 0xc219d2143d07b5ce)
    ∷ (0xeb0c387268f982a0, 0x39d037ec2e4a59dc)
    ∷ (0xfe144896b8c84523, 0x4bb359f772deeba7)
    ∷ (0x2fc1bdc6f82e098a, 0x6333dd70427ba4f2)
    ∷ (0x6a1254af8c550473, 0xb6dba38165fb26c9)
    ∷ []
