-- ===== src/Kuznyechik/Tables/T10.antt =====
-- internal/kuznyechik/tables.go: `t[10]`, 256 entries of two words.
use kubebao.Common.{ℕ, List, [], ◌∷◌}

unfoldable pub t_row10 : List (ℕ × ℕ)
t_row10 =
    (0x9cd3c3c2d42d19d4, 0x8fbed12c18a95de1)
    ∷ (0x04a6349440cb7b40, 0xb560256bdb14b350)
    ∷ (0x84817b3c97d2c097, 0xb73d0f9587d171c2)
    ∷ (0xc11d84d94db6694d, 0xbf8aa7eb3443ffcf)
    ∷ (0x1cf48c6a0334a203, 0x8de3fbd2446c9f73)
    ∷ (0xb80c947cd1713cd1, 0xdb581f99d41d3f74)
    ∷ (0xeed6ace3f87908f8, 0x4584483647d0dcc6)
    ∷ (0x4454f2c0ca26c7ca, 0xb4af3014f597d219)
    ∷ (0x199ab5db53bdb753, 0x849b46d3d97d7037)
    ∷ (0x3edef50a66272066, 0xd755e3d8dfc6f69e)
    ∷ (0x2e03251fa58d0fa5, 0x461677b735967f1d)
    ∷ (0x01c80d2510426e10, 0xbc18986a46055c14)
    ∷ (0x76a35bb56c9f6a6c, 0x7f5abc71846d3277)
    ∷ (0x094765ce90179890, 0x15d8d2bc332df9b4)
    ∷ (0xdc2105965ec0a55e, 0x8e71c453362a3ca8)
    ∷ (0xceafcfc9bdee56bd, 0xa402a3e850700d03)
    ∷ (0x81ef428dc75bd5c7, 0xbe45b2941ac09e86)
    ∷ (0x02531a4a2084dc20, 0xbb30f3d48c0ab828)
    ∷ (0x3bb0ccbb36ae3536, 0xde2d5ed942d719da)
    ∷ (0x36519de1e672d6e6, 0x7e95a90eaaee533e)
    ∷ (0x1346c77af36c9df3, 0x966bffd1205f6dbf)
    ∷ (0xe659c408782cfe78, 0xec4402e032f87966)
    ∷ (0x06f52ede604fa760, 0x0e50d6bf571e0b78)
    ∷ (0x7056756b0cd0cd0c, 0x710a6aced373390f)
    ∷ (0x73cd62043c167f3c, 0x76220170197cdd33)
    ∷ (0x6b9fdafa7fe9a67f, 0x4ea1dfc98604f110)
    ∷ (0x0c295c7fc09e8dc0, 0x1ca06fbdae3c16f0)
    ∷ (0x47cfe5affae075fa, 0xb3875baa3f983625)
    ∷ (0x2aa5118be54674e5, 0xf37652dcee82cc4d)
    ∷ (0x72056f212c54112c, 0xca3a991a5f798127)
    ∷ (0x56da389f29083429, 0x9edc57af93cde3b2)
    ∷ (0xd5666058ced73dce, 0x9ba916ef0507c51c)
    ∷ (0x776b56907cdd047c, 0xc342241bc2686e63)
    ∷ (0x8dc61ef207c55807, 0xa2e5dd29b4fc8876)
    ∷ (0x9a26ed1cb462beb4, 0x81ee07934fb75699)
    ∷ (0xbd62adcd81f82981, 0xd220a298490cd030)
    ∷ (0xa3c53beda24857a2, 0xe4f3aa9e816af76b)
    ∷ (0x0fb24b10f0583ff0, 0x1b8804036433f2cc)
    ∷ (0x333fa450b6fbc3b6, 0x77ed140f37ffbc7a)
    ∷ (0x1852b8fe43ffd943, 0x3883deb99f782c23)
    ∷ (0x8b33302c678aff67, 0xacb50b96e3e2830e)
    ∷ (0x51e71b645905fd59, 0x2c94197a82d6b4de)
    ∷ (0x7e2c335eecca9cec, 0xd69af6a7f14597d7)
    ∷ (0x30a4b33f863d7186, 0x70c57fb1fdf05846)
    ∷ (0x9e80d988f4a9c5f4, 0x348e22f894a3e5c9)
    ∷ (0x379990c4f630b8f6, 0xc28d3164eceb0f2a)
    ∷ (0x75384cda5c59d85c, 0x7872d7cf4e62d64b)
    ∷ (0xa05e2c82928ee592, 0xe3dbc1204b651357)
    ∷ (0xebb89552a8f01da8, 0x4cfcf537dac13382)
    ∷ (0x608ba57ecf7ae2cf, 0xe049fea13923b08c)
    ∷ (0x6ef1e34b2f60b32f, 0x47d962c81b151e54)
    ∷ (0x5af364e0e996b9e9, 0x827c38123df1f542)
    ∷ (0x945cab295478ef54, 0x267e9bfa6d81f841)
    ∷ (0x642d91ea8fb1998f, 0x5529dbcae23703dc)
    ∷ (0x42a1dc1eaa6960aa, 0xbaffe6aba289d961)
    ∷ (0x936188d224752624, 0x9436d52f7c9aaf2d)
    ∷ (0xb2d0e6dd71a01671, 0xc9a8a69b2d3f22fc)
    ∷ (0x222a796065138265, 0x5ab6180a9baa69ed)
    ∷ (0x5dce471b999b7099, 0x303476c72ceaa22e)
    ∷ (0x316cbe1a967f1f96, 0xccdde7dbbbf50452)
    ∷ (0x791110a59cc7559c, 0x64d2b872e05ec0bb)
    ∷ (0xc85ae117dda1f1dd, 0xaa527557076e067b)
    ∷ (0x4d13970e5a315f5a, 0xa177e2a8c6ba2bad)
    ∷ (0x088f68eb8055f680, 0xa9c04ad67528a5a0)
    ∷ (0xef1ea1c6e83b66e8, 0xf99cd05c01d580d2)
    ∷ (0x056e39b150891550, 0x0978bd019d11ef44)
    ∷ (0x88a82743574c4d57, 0xab9d602829ed6732)
    ∷ (0x9f48d4ade4ebabe4, 0x8896ba92d2a6b9dd)
    ∷ (0xd88731021e0bde1e, 0x3b11e138ed3e8ff8)
    ∷ (0x99bdfa7384a40c84, 0x86c66c2d85b8b2a5)
    ∷ (0x25175a9b151e4b15, 0xe8fe56df8ab13e81)
    ∷ (0xb14bf1b24166a441, 0xce80cd25e730c6c0)
    ∷ (0x55412ff019ce8619, 0x99f43c1159c2078e)
    ∷ (0x3a78c19e26ec5b26, 0x6235c6b304d245ce)
    ∷ (0x0adc72a1a0d12aa0, 0x12f0b902f9221d88)
    ∷ (0xfd906b990b15950b, 0xd3efb7e7678fb179)
    ∷ (0xab4a5306221da122, 0x4d33e048f44252cb)
    ∷ (0xccfcd5839d6a8a9d, 0x1f32503cdc7ab52b)
    ∷ (0x2b6d1caef5041af5, 0x4f6ecab6a8879059)
    ∷ (0x459cffe5da64a9da, 0x08b7a87eb3928e0d)
    ∷ (0x8e5d099d3703ea37, 0xa5cdb6977ef36c4a)
    ∷ (0x871a6c53a71472a7, 0xb015642b4dde95fe)
    ∷ (0xc992ec32cde39fcd, 0x164aed3d416b5a6f)
    ∷ (0x1a01a2b4637b0563, 0x83b32d6d1372940b)
    ∷ (0x7b420aefbc4389bc, 0xdfe24ba66c547893)
    ∷ (0xa7630f79e2832ce2, 0x51938ff55a7e443b)
    ∷ (0x35ca8a8ed6b464d6, 0x79bdc2b060e1b702)
    ∷ (0x9875f75694e66294, 0x3adef447c3bdeeb1)
    ∷ (0x9beee039a420d0a4, 0x3df69ff909b20a8d)
    ∷ (0xe9eb8f188874c188, 0xf7cc06e356cb8baa)
    ∷ (0xafec679262d6da62, 0xf853c5232f56e19b)
    ∷ (0xdb1c266d2ecd6c2e, 0x3c398a8627316bc4)
    ∷ (0xed4dbb8cc8bfbac8, 0x42ac23888ddf38fa)
    ∷ (0xe0acead618635918, 0xe214d45f65e6721e)
    ∷ (0x382bdbd406688706, 0xd905356788d8fde6)
    ∷ (0x39e3d6f1162ae916, 0x651dad0dcedda1f2)
    ∷ (0x1d3c814f1376cc13, 0x31fb63b80269c367)
    ∷ (0xa4f81816d2459ed2, 0x56bbe44b9071a007)
    ∷ (0xf8fe52285b9c805b, 0xda970ae6fa9e5e3d)
    ∷ (0x6310b211ffbc50ff, 0xe761951ff32c54b0)
    ∷ (0xf684141dbb86d1bb, 0x7d07968fd8a8f0e5)
    ∷ (0xa5301533c207f0c2, 0xeaa37c21d674fc13)
    ∷ (0x5f9d5d51b91facb9, 0x8b048513a0e01a06)
    ∷ (0x67b68685bf772bbf, 0x5201b0742838e7e0)
    ∷ (0x62d8bf34effe3eef, 0x5b790d75b52908a4)
    ∷ (0x7db72431dc0c2edc, 0xd1b29d193b4a73eb)
    ∷ (0xfc5866bc1b57fb1b, 0x6ff72f8d218aed6d)
    ∷ (0x8f9504b827418427, 0x19d52efd38f6305e)
    ∷ (0xdad42b483e8f023e, 0x802112ec613437d0)
    ∷ (0x83bc58c7e7df09e7, 0x0575414096ca26ae)
    ∷ (0x0b147f84b09344b0, 0xaee82168bf27419c)
    ∷ (0x527c0c0b69c34f69, 0x2bbc72c448d950e2)
    ∷ (0xb7bedf6c21290321, 0xc0d01b9ab02ecdb8)
    ∷ (0x6ca2f9010fe46f0f, 0xfce9911c971fa67c)
    ∷ (0xba5f8e36f1f5e0f1, 0x6068ec4d5817875c)
    ∷ (0x49b5a39a1afa241a, 0x1417c7c31dae98fd)
    ∷ (0xc5bbb04d0d7d120d, 0x0aea8280ef574c9f)
    ∷ (0x32f7a975a6b9ada6, 0xcbf58c6571fae06e)
    ∷ (0xa919494c02997d02, 0xf603139c7848eae3)
    ∷ (0x4e8880616af7ed6a, 0xa65f89160cb5cf91)
    ∷ (0xe164e7f308213708, 0x5e0c4c3523e32e0a)
    ∷ (0x74f041ff4c1bb64c, 0xc46a4fa508678a5f)
    ∷ (0x502f164149479349, 0x908c8110c4d3e8ca)
    ∷ (0xbcaaa0e891ba4791, 0x6e383af20f098c24)
    ∷ (0xbb978313e1b78ee1, 0xdc7074271e12db48)
    ∷ (0xf51f03728b40638b, 0x7a2ffd3112a714d9)
    ∷ (0x90fa9fbd14b39414, 0x931ebe91b6954b11)
    ∷ (0x2d983270954bbd95, 0x413e1c09ff999b21)
    ∷ (0xea709877b8b273b8, 0xf0e46d5d9cc46f96)
    ∷ (0xd00859e99e5e289e, 0x92d1abee98162a58)
    ∷ (0xf3ea2daceb0fc4eb, 0x747f2b8e45b91fa1)
    ∷ (0xdfba12f96e06176e, 0x8959afedfc25d894)
    ∷ (0x10ddd015c3aa2fc3, 0x9143946fea508983)
    ∷ (0xe823823d9836af98, 0x4bd49e8910ced7be)
    ∷ (0x073d23fb700dc970, 0xb2484ed5111b576c)
    ∷ (0xae246ab77294b472, 0x444b5d496953bd8f)
    ∷ (0x9132929804f1fa04, 0x2f0626fbf0901705)
    ∷ (0xcbc1f678ed6743ed, 0xad7a1ee9cd61e247)
    ∷ (0xa6ab025cf2c142f2, 0xed8b179f1c7b182f)
    ∷ (0x89602a66470e2347, 0x1785f8426fe83b26)
    ∷ (0x2079632a45975e45, 0xe186ebde17a0d1c5)
    ∷ (0x413acb719aafd29a, 0xbdd78d1568863d5d)
    ∷ (0x293e06e4d580c6d5, 0xf45e3962248d2871)
    ∷ (0x5968738fd9500bd9, 0x855453acf7fe117e)
    ∷ (0xcd34d8a68d28e48d, 0xa32ac8569a7fe93f)
    ∷ (0xfe0b7cf63bd3273b, 0xd4c7dc59ad805545)
    ∷ (0x6a57d7df6fabc86f, 0xf2b947a3c001ad04)
    ∷ (0xdde908b34e82cb4e, 0x32695c39702f60bc)
    ∷ (0x92a985f734374834, 0x282e4d453a9ff339)
    ∷ (0x960fb16374fc3374, 0x9d4e682ee18b4069)
    ∷ (0x65e59ccf9ff3f79f, 0xe93143a0a4325fc8)
    ∷ (0xc28693b67d70db7d, 0xb8a2cc55fe4c1bf3)
    ∷ (0xb318ebf861e27861, 0x75b03ef16b3a7ee8)
    ∷ (0xb676d249316b6d31, 0x7cc883f0f62b91ac)
    ∷ (0x548922d5098ce809, 0x25eca47b1fc75b9a)
    ∷ (0xa8d1446912db1312, 0x4a1b8bf63e4db6f7)
    ∷ (0x97c7bc4664be5d64, 0x2156f044a78e1c7d)
    ∷ (0x80274fa8d719bbd7, 0x025d2afe5cc5c292)
    ∷ (0x15b3e9a493233a93, 0x983b296e774166c7)
    ∷ (0x4be6b9d03a7ef83a, 0xaf27341791a420d5)
    ∷ (0x1628fecba3e588a3, 0x9f1342d0bd4e82fb)
    ∷ (0xcf67c2ecadac38ad, 0x181a3b8216755117)
    ∷ (0x719e784e1c92a31c, 0xcd12f2a49576651b)
    ∷ (0xde721fdc7e44797e, 0x35413787ba208480)
    ∷ (0x3f16f82f76654e76, 0x6b4d7bb299c3aa8a)
    ∷ (0x0000000000000000, 0x0000000000000000)
    ∷ (0x1f6f9b0533f21033, 0x8acb906c8e637b4f)
    ∷ (0x827455e2f79d67f7, 0xb96dd92ad0cf7aba)
    ∷ (0xe337fdb928a5eb28, 0xe53cbfe1afe99622)
    ∷ (0x1ea7962023b07e23, 0x36d30806c866275b)
    ∷ (0xa20d36c8b20a39b2, 0x58eb32f4c76fab7f)
    ∷ (0xd25b43a3bedaf4be, 0x29e1583a141c9270)
    ∷ (0xadbf7dd842520642, 0x436336f7a35c59b3)
    ∷ (0xb425c80311efb111, 0xc7f870247a212984)
    ∷ (0x9d1bcee7c46f77c4, 0x33a649465eac01f5)
    ∷ (0x69ccc0b05f6d7a5f, 0xf5912c1d0a0e4938)
    ∷ (0x039b176f30c6b230, 0x07286bbeca0fe43c)
    ∷ (0xb5edc52601addf01, 0x7be0e84e3c247590)
    ∷ (0xec85b6a9d8fdd4d8, 0xfeb4bbe2cbda64ee)
    ∷ (0x24df57be055c2505, 0x54e6ceb5ccb46295)
    ∷ (0xaa825e23325fcf32, 0xf12b7822b2470edf)
    ∷ (0x6143a85bdf388cdf, 0x5c5166cb7f26ec98)
    ∷ (0x4369d13bba2b0eba, 0x06e77ec1e48c8575)
    ∷ (0xd1c054cc8e1c468e, 0x2ec93384de13764c)
    ∷ (0x1bc9af9173396b73, 0x3fabb5075577c81f)
    ∷ (0xca09fb5dfd252dfd, 0x116286838b64be53)
    ∷ (0x78d91d808c853b8c, 0xd8ca2018a65b9caf)
    ∷ (0x17e0f3eeb3a7e6b3, 0x230bdabafb4bdeef)
    ∷ (0x3d45e26556e19256, 0xd07d886615c912a2)
    ∷ (0xffc371d32b91492b, 0x68df4433eb850951)
    ∷ (0xa19621a782cc8b82, 0x5fc3594a0d604f43)
    ∷ (0xfb6545476b5a326b, 0xddbf61583091ba01)
    ∷ (0x854976198790ae87, 0x0b2597ffc1d42dd6)
    ∷ (0xd3934e86ae989aae, 0x95f9c0505219ce64)
    ∷ (0x3c8def4046a3fc46, 0x6c65100c53cc4eb6)
    ∷ (0x5e555074a95dc2a9, 0x371c1d79e6e54612)
    ∷ (0x0e7a4635e01a51e0, 0xa7909c692236aed8)
    ∷ (0x340287abc6f60ac6, 0xc5a55ada26e4eb16)
    ∷ (0x667e8ba0af3545af, 0xee19281e6e3dbbf4)
    ∷ (0xbef9baa2b13e9bb1, 0xd508c9268303340c)
    ∷ (0xd94f3c270e49b00e, 0x87097952ab3bd3ec)
    ∷ (0x5c064a3e89d91e89, 0x8c2ceead6aeffe3a)
    ∷ (0x53b4012e79812179, 0x97a4eaae0edc0cf6)
    ∷ (0x1115dd30d3e841d3, 0x2d5b0c05ac55d597)
    ∷ (0xc7e8aa072df9ce2d, 0xb1da7154635df4b7)
    ∷ (0x58a07eaac91265c9, 0x394ccbc6b1fb4d6a)
    ∷ (0x487daebf0ab84a0a, 0xa80f5fa95babc4e9)
    ∷ (0xf0713ac3dbc976db, 0x735740308fb6fb9d)
    ∷ (0xfaad48627b185c7b, 0x61a7f9327694e615)
    ∷ (0xd4ae6d7dde9553de, 0x27b18e8543029908)
    ∷ (0xe5c2d36748ea4c48, 0xeb6c695ef8f79d5a)
    ∷ (0x128eca5fe32ef3e3, 0x2a7367bb665a31ab)
    ∷ (0xf9365f0d4bdeee4b, 0x668f928cbc9b0229)
    ∷ (0x274440d1359a9735, 0x53cea50b06bb86a9)
    ∷ (0x40f2c6548aedbc8a, 0x01cf157f2e836149)
    ∷ (0xf2222089fb4daafb, 0xc867b3e403bc43b5)
    ∷ (0x2c503f558509d385, 0xfd268463b99cc735)
    ∷ (0xf1b937e6cb8b18cb, 0xcf4fd85ac9b3a789)
    ∷ (0x86d26176b7561cb7, 0x0c0dfc410bdbc9ea)
    ∷ (0x4a2eb4f52a3c962a, 0x133fac7dd7a17cc1)
    ∷ (0xf74c1938abc4bfab, 0xc11f0ee59eadacf1)
    ∷ (0x6f39ee6e3f22dd3f, 0xfbc1faa25d104240)
    ∷ (0x571235ba394a5a39, 0x22c4cfc5d5c8bfa6)
    ∷ (0x4607e88aeaa21bea, 0x0f9fc3c0799d6a31)
    ∷ (0x2fcb283ab5cf61b5, 0xfa0eefdd73932309)
    ∷ (0xb083fc975124ca51, 0x7298554fa1359ad4)
    ∷ (0xf4d70e579b020d9b, 0xc637655b54a248cd)
    ∷ (0x4f408d447ab5837a, 0x1a47117c4ab09385)
    ∷ (0xbf31b787a17cf5a1, 0x6910514cc5066818)
    ∷ (0x0de1515ad0dce3d0, 0xa0b8f7d7e8394ae4)
    ∷ (0x4cdb9a2b4a73314a, 0x1d6f7ac280bf77b9)
    ∷ (0x8afb3d0977c89177, 0x10ad93fca5e7df1a)
    ∷ (0xc0d589fc5df4075d, 0x03923f817246a3db)
    ∷ (0x6804cd954f2f144f, 0x4989b4774c0b152c)
    ∷ (0xc473bd681d3f7c1d, 0xb6f21aeaa952108b)
    ∷ (0x147be48183615483, 0x2423b10431443ad3)
    ∷ (0xac7770fd52106852, 0xff7bae9de55905a7)
    ∷ (0x268c4df425d8f925, 0xefd63d6140bedabd)
    ∷ (0xd6fd7737fe118ffe, 0x9c817d51cf082120)
    ∷ (0xc620a7223dbba03d, 0x0dc2e93e2558a8a3)
    ∷ (0xe40ade4258a82258, 0x5774f134bef2c14e)
    ∷ (0x21b16e0f55d53055, 0x5d9e73b451a58dd1)
    ∷ (0x5b3b69c5f9d4d7f9, 0x3e64a0787bf4a956)
    ∷ (0x7a8a07caac01e7ac, 0x63fad3cc2a512487)
    ∷ (0x7fe43e7bfc88f2fc, 0x6a826ecdb740cbc3)
    ∷ (0xe791c92d686e9068, 0x505c9a8a74fd2572)
    ∷ (0xb9c49959c13352c1, 0x674087f392186360)
    ∷ (0xe2fff09c38e78538, 0x5924278be9ecca36)
    ∷ (0x23e274457551ec75, 0xe6ae8060ddaf35f9)
    ∷ (0xc34e9e936d32b56d, 0x04ba543fb84947e7)
    ∷ (0x6d6af4241fa6011f, 0x40f10976d11afa68)
    ∷ (0x8c0e13d717873617, 0x1efd4543f2f9d462)
    ∷ (0x9594a60c443a8144, 0x9a6603902b84a455)
    ∷ (0x7c7f2914cc4e40cc, 0x6daa05737d4f2fff)
    ∷ (0x28f60bc1c5c2a8c5, 0x4846a10862887465)
    ∷ (0xd7357a12ee53e1ee, 0x2099e53b890d7d34)
    ∷ []
