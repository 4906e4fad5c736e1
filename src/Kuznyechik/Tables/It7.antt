-- ===== src/Kuznyechik/Tables/It7.antt =====
-- internal/kuznyechik/tables.go: `it[7]`, 256 entries of two words.
use kubebao.Common.{ℕ, List, [], ◌∷◌}

unfoldable pub it_row7 : List (ℕ × ℕ)
it_row7 =
    (0xc4610e8a46859da5, 0xe8f43dc0cab4e742)
    ∷ (0x86ab96b2b17c302d, 0xf11ee62510bc3f12)
    ∷ (0x6153b1e6f129b332, 0x3796c45ad0a0f8ca)
    ∷ (0x7df282f05569c28f, 0x2fe83a11ffe7b639)
    ∷ (0x7e70345387e3de0e, 0x6c04012b4a1ddcd2)
    ∷ (0x73437afb07491b30, 0x23d745d5092591a1)
    ∷ (0x3b03d08f590afe38, 0x731004aceb74f6ce)
    ∷ (0x0fcf2b6a1ce76cc0, 0x8cdad7d2249401c1)
    ∷ (0xb1e5dbf4261bbe54, 0x4d380e616aa6a2f6)
    ∷ (0xda3c585e7e8845e6, 0x338350a7825fe503)
    ∷ (0xe47a91f792df9f9e, 0x8564194575e6ad33)
    ∷ (0x320b5460223aaa39, 0x79d1a50a66d7231a)
    ∷ (0xb8ed5f1b5d2bea55, 0x47f9afc7e7057722)
    ∷ (0x0876578e35f7e17e, 0x8a2409b05ff5f38d)
    ∷ (0x87d545d3ffbb8552, 0x71fb4e33c2ea194b)
    ∷ (0x9302214b6e0c1591, 0xe3a1b9c8b258a435)
    ∷ (0xc2a6a10f2152a564, 0x6eef4bb463833357)
    ∷ (0x1b184ff28d50fc03, 0x1e8020295426bcbf)
    ∷ (0xaafd9406ab4b4257, 0x53b82e483e801e49)
    ∷ (0xcf95efa7a1f8605a, 0x213c0f4a20bb7e24)
    ∷ (0xfce068a6cd057f1c, 0xd8080256943a7b67)
    ∷ (0xe686f4350e923660, 0x466d8a69124ae181)
    ∷ (0x3f381ac8a2906f07, 0x3602e1f425ef6e69)
    ∷ (0xd8c03d9ce2c5ec18, 0xf08ac38be5f3a9b1)
    ∷ (0xeacb69fcc0ff4621, 0x895b668183248aab)
    ∷ (0x6416a8c044749772, 0xf2618914cc6d4634)
    ∷ (0xa109752b4c36bfa8, 0x9a701cc2d48f872f)
    ∷ (0x9647386ddb5131d1, 0x2656f486ae951acb)
    ∷ (0xa28bc3889ebca329, 0xd99c27f86175edc4)
    ∷ (0x39ffb54dc54757c6, 0xb01997808cd8ba7c)
    ∷ (0xcd698a653db5c9a4, 0xe2359c6647173296)
    ∷ (0x043bca47fb9a913f, 0x4512e558ce9b98a7)
    ∷ (0xec0cc679a7287ee0, 0x0f4010f52a135ebe)
    ∷ (0xdcfbf7db195f7d27, 0xb59826d32b683116)
    ∷ (0x6fe249eda3096a8d, 0x3ba9bb9e2662df52)
    ∷ (0x6c60ff4e7183760c, 0x784580a49398b5b9)
    ∷ (0x189af9515fdae082, 0x5d6c1b13e1dcd654)
    ∷ (0xb65ca7100f0b33ea, 0x4bc6d00311c750ba)
    ∷ (0x9739eb0c959684ae, 0xa6b35c907cc33c92)
    ∷ (0x5de91d8d8133c0b4, 0x42781e9440b5fc48)
    ∷ (0xc05ac4cdbd1f0c9a, 0xade6d898042f7fe5)
    ∷ (0xfd9ebbc783c2ca63, 0x58edaa40466c5d3e)
    ∷ (0x440d37bd902e9549, 0x9ff1ad91733f0c45)
    ∷ (0xc12417acf3d8b9e5, 0x2d03708ed67959bc)
    ∷ (0x1755d23b433d8c42, 0xd1b6ccc1c548d795)
    ∷ (0xc82c934388e8ede4, 0x27c2d1285bda8c68)
    ∷ (0xbda8463de876ce15, 0x820ee289fbc8c9dc)
    ∷ (0x46f1527f0c633cb7, 0x5cf83ebd149340f7)
    ∷ (0x478f811e42a489c8, 0xdc1d96abc6c566ae)
    ∷ (0x36309e27d9a03b06, 0x3cc34052a84cbbbd)
    ∷ (0x760663ddb2143f70, 0xe620089b15e82f5f)
    ∷ (0xff62de051f8f639d, 0x9be4396c21c0118c)
    ∷ (0x0c4d9dc9ce6d7041, 0xcf36ece8916e6b2a)
    ∷ (0x5b2eb208e6e4f875, 0xc46368e0e982285d)
    ∷ (0xd1c8b97399f5b819, 0xfa4b622d68507c65)
    ∷ (0x4e8705f13994ddc9, 0xd6dc370d4b66b37a)
    ∷ (0xb319be36ba5617aa, 0x8e319d4d0d0aee44)
    ∷ (0x10ecaedf6a2d01fc, 0xd74812a3be2925d9)
    ∷ (0x602d6287bfee064d, 0xb7736c4c02f6de93)
    ∷ (0x0eb1f80b5220d9bf, 0x0c3f7fc4f6c22798)
    ∷ (0xb9938c7a13ec5f2a, 0xc71c07d13553517b)
    ∷ (0x6d1e2c2f3f44c373, 0xf8a028b241ce93e0)
    ∷ (0x2eaa6776867adb84, 0x61af5b4149906de9)
    ∷ (0xb2676d57f491a2d5, 0x0ed4355bdf5cc81d)
    ∷ (0x14d7649891b790c3, 0x925af7fb70b2bd7e)
    ∷ (0x9e316fe3eea6d0af, 0xac72fd36f160e946)
    ∷ (0xb09b089568dc0b2b, 0xcddda677b8f084af)
    ∷ (0x3cbaac6b701a7386, 0x75eedace90150482)
    ∷ (0xd671c597b0e535a7, 0xfcb5bc4f13318e29)
    ∷ (0x70c1cc58d5c307b1, 0x603b7eefbcdffb4a)
    ∷ (0x6bd983aa5893fbb2, 0x7ebb5ec6e8f947f5)
    ∷ (0xc69d6b48dac8345b, 0x2bfdaeecad18abf0)
    ∷ (0x337587016cfd1f46, 0xf9340d1cb4810543)
    ∷ (0x8457f3702d3199d3, 0x32177509771073a0)
    ∷ (0xed721518e9efcb9f, 0x8fa5b8e3f84578e7)
    ∷ (0x19e42a30111d55fd, 0xdd89b305338af00d)
    ∷ (0xbb6fe9b88fa1f6d4, 0x041594fd52ff1dc9)
    ∷ (0x7778b0bcfcd38a0f, 0x66c5a08dc7be0906)
    ∷ (0xf66a5aea64bf379c, 0x912598caac63c458)
    ∷ (0x94bb5daf471c982f, 0xe55f67aac9395679)
    ∷ (0xc9524022c62f589b, 0xa727793e898caa31)
    ∷ (0x1e5d56d4380dd843, 0xdb776d6748eb0241)
    ∷ (0x9b7476c55bfbf4ef, 0x6985b078edad57b8)
    ∷ (0xde0792198512d4d9, 0x7691b5ff4cc47da4)
    ∷ (0x374e4d4697678e79, 0xbc26e8447a1a9de4)
    ∷ (0x4ff9d690775368b6, 0x56399f1b99309523)
    ∷ (0x8eddc13c848bd153, 0x7b3aef954f49cc9f)
    ∷ (0x017ed3614ec7b57f, 0x80e5a816d2562659)
    ∷ (0x06c7af8567d738c1, 0x861b7674a937d415)
    ∷ (0x7c8c51911bae77f0, 0xaf0d92072db19060)
    ∷ (0xf8dba2e1369fee23, 0x9d1ae70e5aa1e3c0)
    ∷ (0xd334dcb105b811e7, 0x3942f1010ffc30d7)
    ∷ (0xceeb3cc6ef3fd525, 0xa1d9a75cf2ed587d)
    ∷ (0xebb5ba9d8e38f35e, 0x09bece975172acf2)
    ∷ (0x54e19962fa0394b5, 0x48b9bf32cd16299c)
    ∷ (0xeef0a3bb3b65d71e, 0xcc4983d94dbf120c)
    ∷ (0xfb591442e415f2a2, 0xdef6dc34ef5b892b)
    ∷ (0xe8370c3e5cb2efdf, 0x4a52f5ade488c619)
    ∷ (0xdf794178cbd561a6, 0xf6741de99e925bfd)
    ∷ (0x02fc65c29c4da9fe, 0xc309932c67ac4cb2)
    ∷ (0x8529201163f62cac, 0xb2f2dd1fa54655f9)
    ∷ (0xf1d3260e4dafba22, 0x97db46a8d7023614)
    ∷ (0x3dc47f0a3eddc6f9, 0xf50b72d8424322db)
    ∷ (0xfe1c0d645148d6e2, 0x1b01917af39637d5)
    ∷ (0x5f15784f1d7e694a, 0x81718db82719b0fa)
    ∷ (0x15a9b7f9df7025bc, 0x12bf5feda2e49b27)
    ∷ (0x5e6bab2e53b9dc35, 0x019425aef54f96a3)
    ∷ (0x559f4a03b4c421ca, 0xc85c17241f400fc5)
    ∷ (0x927cf22a20cba0ee, 0x634411de600e826c)
    ∷ (0x3e46c9a9ec57da78, 0xb6e749e2f7b94830)
    ∷ (0x2d28d1d554f0c705, 0x2243607bfc6a0702)
    ∷ (0xb5de11b3dd812f6b, 0x082aeb39a43d3a51)
    ∷ (0x9ccd0a2172eb7951, 0x6f7b6e1a96cca5f4)
    ∷ (0xe5044296dc182ae1, 0x0581b153a7b08b6a)
    ∷ (0xd48da0552ca89c59, 0x3fbc2f63749dc29b)
    ∷ (0xf25190ad9f25a6a3, 0xd4377d9262f85cff)
    ∷ (0x6e9c9a8cedcedff2, 0xbb4c1388f434f90b)
    ∷ (0x7f0ee732c9246b71, 0xece1a93d984bfa8b)
    ∷ (0xa3f510e9d07b1656, 0x59798feeb323cb9d)
    ∷ (0x99881307c7b65d11, 0xaa8c23548a011b0a)
    ∷ (0xbcd6955ca6b17b6a, 0x02eb4a9f299eef85)
    ∷ (0x4bc21cd78cc9f989, 0x132b7a4357ab0d84)
    ∷ (0xbe2af09e3afcd294, 0xc1e2d9b34e32a337)
    ∷ (0xcbae25e05a62f165, 0x642eea12ee20e683)
    ∷ (0x66eacd02d8393e8c, 0x31681a38abc10a86)
    ∷ (0x2a91ad317de04abb, 0x24bdbe19870bf54e)
    ∷ (0x493e791510845077, 0xd022e96f30074136)
    ∷ (0x1f2385b576ca6d3c, 0x5b92c5719abd2418)
    ∷ (0x255e865b6107267b, 0xa86769cba39ff48f)
    ∷ (0xab834767e58cf728, 0xd35d865eecd63810)
    ∷ (0xba113ad9c16643ab, 0x84f03ceb80a93b90)
    ∷ (0x8d5f779f5601cdd2, 0x38d6d4affab3a674)
    ∷ (0x7a4bfe147c794f31, 0x2916e47384864475)
    ∷ (0xe13f88d12782bbde, 0x4093540b692b13cd)
    ∷ (0x2bef7e503327ffc4, 0xa458160f555dd317)
    ∷ (0xe2bd3e72f508a75f, 0x037f6f31dcd17926)
    ∷ (0x63afd4246d641acc, 0xf49f5776b70cb478)
    ∷ (0x78b79bd6e034e6cf, 0xea1f775fe32a08c7)
    ∷ (0x4036fdfa6bb40476, 0xdae348c9bda494e2)
    ∷ (0x8fa3125dca4c642c, 0xfbdf47839d1feac6)
    ∷ (0x3189e2c3f0b0b6b8, 0x3a3d9e30d32d49f1)
    ∷ (0xd70f16f6fe2280d8, 0x7c501459c167a870)
    ∷ (0x9db3d9403c2ccc2e, 0xef9ec60c449a83ad)
    ∷ (0x4573e4dcdee92036, 0x1f140587a1692a1c)
    ∷ (0xcc17590473727cdb, 0x62d03470954114cf)
    ∷ (0xa7cedaae2be18769, 0x1c6b6ab67db8533a)
    ∷ (0x62d1074523a3afb3, 0x747aff60655a9221)
    ∷ (0xb4a0c2d293469a14, 0x88cf432f766b1c08)
    ∷ (0xb722747141cc8695, 0xcb237815c39176e3)
    ∷ (0x07b97ce429108dbe, 0x06fede627b61f24c)
    ∷ (0xf4963f28f8f29e62, 0x522c0be6cbcf88ea)
    ∷ (0xe0415bb069450ea1, 0xc076fc1dbb7d3594)
    ∷ (0x201b9f7dd45a023b, 0x6d902485bf524a71)
    ∷ (0xa6b009cf65263216, 0x9c8ec2a0afee7563)
    ∷ (0xd0b66a12d7320d66, 0x7aaeca3bba065a3c)
    ∷ (0xad44e8e2825bcfe9, 0x5546f02a45e1ec05)
    ∷ (0xf9a5718078585b5c, 0x1dff4f1888f7c599)
    ∷ (0x8ae60b7b7f11406c, 0x3e280acd81d25438)
    ∷ (0x83ee8f940421146d, 0x34e9ab6b0c7181ec)
    ∷ (0x8c21a4fe18c678ad, 0xb8337cb928e5802d)
    ∷ (0x4c7b6033a5d97437, 0x15d5a4212ccaffc8)
    ∷ (0xef8e70da75a26261, 0x4cac2bcf9fe93455)
    ∷ (0x561dfca0664e3d4b, 0x8bb02c1eaaba652e)
    ∷ (0x3881662c8b80e2b9, 0x30fc3f965e8e9c25)
    ∷ (0xf714898b2a7882e3, 0x11c030dc7e35e201)
    ∷ (0x239929de06d01eba, 0x2e7c1fbf0aa8209a)
    ∷ (0x7584d57e609e23f1, 0xa5cc33a1a01245b4)
    ∷ (0xe949df5f12755aa0, 0xcab75dbb36dee040)
    ∷ (0x27a2e399fd4a8f85, 0x6b6efae7c433b83d)
    ∷ (0x11927dbe24eab483, 0x57adbab56c7f0380)
    ∷ (0xc51fddeb084228da, 0x681195d618e2c11b)
    ∷ (0x3a7d03ee17cd4b47, 0xf3f5acba3922d097)
    ∷ (0x22e7fabf4817abc5, 0xae99b7a9d8fe06c3)
    ∷ (0x79c948b7aef353b0, 0x6afadf49317c2e9e)
    ∷ (0x685b35098a19e733, 0x3d5765fc5d032d1e)
    ∷ (0x26dc30f8b38d3afa, 0xeb8b52f116659e64)
    ∷ (0xac3a3b83cc9c7a96, 0xd5a3583c97b7ca5c)
    ∷ (0x91fe4489f241bc6f, 0x20a82ae4d5f4e887)
    ∷ (0x98f6c0668971e86e, 0x2a698b4258573d53)
    ∷ (0x1ddfe077ea87c4c2, 0x989b565dfd1168aa)
    ∷ (0x4abccfb6c20e4cf6, 0x93ced25585fd2bdd)
    ∷ (0x95c58ece09db2d50, 0x65bacfbc1b6f7020)
    ∷ (0x0bf4e12de77dfdff, 0xc9c8328aea0f9966)
    ∷ (0xf0adf56f03680f5d, 0x173eeebe0554104d)
    ∷ (0xa801f1c43706eba9, 0x90b1bd64592c52fb)
    ∷ (0x74fa061f2e59968e, 0x25299bb7724463ed)
    ∷ (0xafb88d201e166617, 0x964f6306224da0b7)
    ∷ (0xc3d8726e6f95101b, 0xee0ae3a2b1d5150e)
    ∷ (0xa532bf6cb7ac2e97, 0xdf62f99a1a141f88)
    ∷ (0x136e187cb8a71d7d, 0x94a429990bd34f32)
    ∷ (0x806c3937d6ab08ec, 0x77059051b98beb07)
    ∷ (0xdd8524ba5798c858, 0x357d8ec5f93e174f)
    ∷ (0x43b44b59b93e18f7, 0x990f73f3085efe09)
    ∷ (0xe7f827544055831f, 0xc688227fc01cc7d8)
    ∷ (0x2fd4b417c8bd6efb, 0xe14af3579bc64bb0)
    ∷ (0x1a669c93c397497c, 0x9e65883f86709ae6)
    ∷ (0x41482e9b2573b109, 0x5a06e0df6ff2b2bb)
    ∷ (0x65687ba10ab3220d, 0x728421021e3b606d)
    ∷ (0x2c5602b41a37727a, 0xa2a6c86d2e3c215b)
    ∷ (0xd9beeefdac025967, 0x706f6b9d37a58fe8)
    ∷ (0x286dc8f3e1ade345, 0xe7b42d35e0a7b9fc)
    ∷ (0x35b228840b2a2787, 0x7f2f7b681db6d156)
    ∷ (0xf32f43ccd1e213dc, 0x54d2d584b0ae7aa6)
    ∷ (0xa44c6c0df96b9be8, 0x5f87518cc84239d1)
    ∷ (0x723da99a498eae4f, 0xa332edc3db73b7f8)
    ∷ (0xf5e8ec49b6352b1d, 0xd2c9a3f01999aeb3)
    ∷ (0x7b352d7532befa4e, 0xa9f34c6556d0622c)
    ∷ (0x2420553a2fc09304, 0x2882c1dd71c9d2d6)
    ∷ (0xbf5423ff743b67eb, 0x410771a59c64856e)
    ∷ (0x34ccfbe545ed92f8, 0xffcad37ecfe0f70f)
    ∷ (0x67941e6396fe8bf3, 0xb18db22e79972cdf)
    ∷ (0x0d334ea880aac53e, 0x4fd344fe43384d73)
    ∷ (0x162b015a0dfa393d, 0x515364d7171ef1cc)
    ∷ (0x1ca13316a44071bd, 0x187efe4b2f474ef3)
    ∷ (0x50da53250199058a, 0x0dab5a6a038db13b)
    ∷ (0x42ca9838f7f9ad88, 0x19eadbe5da08d850)
    ∷ (0xfa27c723aad247dd, 0x5e1374223d0daf72)
    ∷ (0x6aa750cb16544ecd, 0xfe5ef6d03aaf61ac)
    ∷ (0x5358e586d313190b, 0x4e476150b677dbd0)
    ∷ (0x8b98d81a31d6f513, 0xbecda2db53847261)
    ∷ (0xd24a0fd04b7fa498, 0xb9a75917ddaa168e)
    ∷ (0x1210cb1df660a802, 0x1441818fd985696b)
    ∷ (0x8112ea56986cbd93, 0xf7e038476bddcd5e)
    ∷ (0x0a8a324ca9ba4880, 0x492d9a9c3859bf3f)
    ∷ (0x9a0aa5a4153c4190, 0xe960186e3ffb71e1)
    ∷ (0x9f4fbc82a06165d0, 0x2c9755202336cf1f)
    ∷ (0xc7e3b829940f8124, 0xab1806fa7f4e8da9)
    ∷ (0x57632fc128898834, 0x0b55840878ec4377)
    ∷ (0x5c97ceeccff475cb, 0xc29db68292e3da11)
    ∷ (0x8964bdd8ad9b5ced, 0x7dc431f734283ed3)
    ∷ (0x58ac04ab346ee4f4, 0x878f53da5c7842b6)
    ∷ (0x71bf1f399b04b2ce, 0xe0ded6f96e89dd13)
    ∷ (0xdb428b3f304ff099, 0xb366f8b15009c35a)
    ∷ (0x908097e8bc860910, 0xa04d82f207a2cede)
    ∷ (0x21654c1c9a9db744, 0xed758c936d046c28)
    ∷ (0x05451926b55d2440, 0xc5f74d4e1ccdbefe)
    ∷ (0x881a6eb9e35ce992, 0xfd2199e1e67e188a)
    ∷ (0x29131b92af6a563a, 0x6751852332f19fa5)
    ∷ (0x090884ef7b305401, 0x0ac1a1a68da3d5d4)
    ∷ (0xd5f37334626f2926, 0xbf598775a6cbe4c2)
    ∷ (0x82905cf54ae6a112, 0xb40c037dde27a7b5)
    ∷ (0xcad0f68114a5441a, 0xe4cb42043c76c0da)
    ∷ (0x4d05b352eb1ec148, 0x95300c37fe9cd991)
    ∷ (0xaec65e4150d1d368, 0x16aacb10f01b86ee)
    ∷ (0x51a480444f5eb0f5, 0x8d4ef27cd1db9762)
    ∷ (0x0382b6a3d28a1c81, 0x43ec3b3ab5fa6aeb)
    ∷ (0x59d2d7ca7aa9518b, 0x076afbcc8e2e64ef)
    ∷ (0x30f731a2be7703c7, 0xbad83626017b6fa8)
    ∷ (0xa97f22a579c15ed6, 0x105415728b7a74a2)
    ∷ (0xe3c3ed13bbcf1220, 0x839ac7270e875f7f)
    ∷ (0x5a506169a8234d0a, 0x4486c0f63bd40e04)
    ∷ (0x4840aa745e43e508, 0x50c74179e251676f)
    ∷ (0x0000000000000000, 0x0000000000000000)
    ∷ (0x6925e668c4de524c, 0xbdb2cdea8f550b47)
    ∷ (0xa077a64a02f10ad7, 0x1a95b4d406d9a176)
    ∷ (0x522636e79dd4ac74, 0xcea2c9466421fd89)
    ∷ []
