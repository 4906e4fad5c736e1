-- ===== src/Kuznyechik/Tables/It15.antt =====
-- internal/kuznyechik/tables.go: `it[15]`, 256 entries of two words.
use kubebao.Common.{ℕ, List, [], ◌∷◌}

unfoldable pub it_row15 : List (ℕ × ℕ)
it_row15 =
    (0x3b59ba4fc2860ecc, 0xcdf011538279efe3)
    ∷ (0xf5b62a6c95949603, 0x5bbd918337e7ba9c)
    ∷ (0x03d211f9a6abb117, 0x69ad925890c98ec3)
    ∷ (0x60bf6596274482a5, 0xbe84685128596eda)
    ∷ (0x9fa029a9e0ac34d4, 0x505113c1f94d7689)
    ∷ (0xb0685f4086d27afc, 0x347115b474111e37)
    ∷ (0x39c5a4e106f5d0d6, 0x83874c8262f71b61)
    ∷ (0x8563bfc35dce2b76, 0xd0075495134478dc)
    ∷ (0xb60f7d710947dbd2, 0xe6e8f2049740c172)
    ∷ (0xf29f070a78d95820, 0xaefeb9baa4f11f98)
    ∷ (0x097b77aaf4d79165, 0xdcc5784b763a2c0c)
    ∷ (0x8198835c16285442, 0x4ce9eef4109b531b)
    ∷ (0x0e525acc199a5f46, 0x29865072e52c8908)
    ∷ (0xede9a2a8ec8557bb, 0x959c8b063d60404b)
    ∷ (0xa002af7969cc452c, 0x014fb8f378ebb2ad)
    ∷ (0x2e8679be04a62125, 0x43fac9fcfd1b12ff)
    ∷ (0x066722318f95a12e, 0xd299e7b0e351df45)
    ∷ (0x0be7690430a44f7f, 0x92b2259a96b4d88e)
    ∷ (0xbde8147539e394ad, 0x745ad79e01f419fc)
    ∷ (0x29af54d8e9ebef06, 0xb6b9e1c56e0db7fb)
    ∷ (0xfd835291039b686b, 0xa0a22641319aecd1)
    ∷ (0xa3d0be80cf67f43b, 0x68e22aabe8223c6e)
    ∷ (0xae50f5b570561a6a, 0x28c9e8819dc73ba5)
    ∷ (0x5834ce2043693d7e, 0x1ad9eb5a3ae90ffa)
    ∷ (0xd9ac4d7c5541693c, 0x563005ae2a725ce1)
    ∷ (0xc1f3c5b82c50a884, 0x98111f2b20f5a636)
    ∷ (0xaf1efae2128e7567, 0x0f132708ed8041e4)
    ∷ (0xeca7adff8e5d38b6, 0xb246448f4d273a0a)
    ∷ (0x5001b6ddd566c316, 0xe1c65c983c9459b7)
    ∷ (0x936e6dcb3d45b588, 0x37a01e62fcef0b03)
    ∷ (0x83049df2d25b8a58, 0x029eb325f015a799)
    ∷ (0x9795515476a3cabc, 0xab4ea403ff3020c4)
    ∷ (0xe492d5021852c6de, 0x4959f34d4b5a6c47)
    ∷ (0xcfa19f7435caf7c2, 0xb1974f59c5d92f3e)
    ∷ (0xd3052b2f073d494e, 0xe358efbdcc81fe2e)
    ∷ (0x2c1a6710c0d5ff3f, 0x0d8d942d1d95e67d)
    ∷ (0xf4f8253bf74cf90e, 0x7c675e0a47a0c0dd)
    ∷ (0xde85601ab80ca71f, 0xa3732d97b964f9e5)
    ∷ (0xb91328ea7205eb99, 0xe8b46dff022b323b)
    ∷ (0x529da87311151d0c, 0xafb10149dc1aad35)
    ∷ (0xaccceb1bb425c470, 0x66beb5507d49cf27)
    ∷ (0xa837d784ffc3bb44, 0xfa500f317e96e4e0)
    ∷ (0xf3d1085d1a01372d, 0x89247633d4b665d9)
    ∷ (0xf9786e0e487d175f, 0x3c4c9c203245c716)
    ∷ (0x719b9af8aa82d278, 0xac600a9f54e4b801)
    ∷ (0x412549b358a093cb, 0xf3223e5640298f6c)
    ∷ (0xcc738e8d936146d5, 0xd83add015510a1fd)
    ∷ (0x597ac17721b15273, 0x3d0324d34aae75bb)
    ∷ (0x0cce4462dde9815c, 0x67f10da305a27d8a)
    ∷ (0x160dd208608b9efe, 0xe7a74af7efab73df)
    ∷ (0x72498b010c29636f, 0xc5cd98c7c42d36c2)
    ∷ (0x029c1eaec473de1a, 0x4e775dd1e08ef482)
    ∷ (0x7a7cf3fc9a269d07, 0x3ed22f05c250608f)
    ∷ (0x6fa3300d5c06b2ee, 0xb0d8f7aabd329d93)
    ∷ (0xe069e99d53b4b9ea, 0xd5b7492c48854780)
    ∷ (0xb49363dfcd3405c8, 0xa89fafd577ce35f0)
    ∷ (0x1ca4b45b32f7be8c, 0x52cfa0e40958d110)
    ∷ (0x191187931bc9aeb5, 0xe9fbd50c7ac08096)
    ∷ (0x566694ec5af36238, 0x335fbb28dfc586f2)
    ∷ (0xd0d73ad6a196f859, 0x8af57de55c4870ed)
    ∷ (0x5be6dfd9e5c28c69, 0x73747902aa208139)
    ∷ (0x79aee2053c8d2c10, 0x577fbd5d5299ee4c)
    ∷ (0xe2f5f73397c767f0, 0x9bc014fda80bb302)
    ∷ (0x4910314eceaf6da3, 0x083d89944654d921)
    ∷ (0x8e84d6c76d6a6409, 0x42b5710f85f0a052)
    ∷ (0x014e0f5762d86f0d, 0x27dacf8970477a41)
    ∷ (0xe3bbf864f51f08fd, 0xbc1adb74d84cc943)
    ∷ (0x514fb98ab7beac1b, 0xc61c93114cd323f6)
    ∷ (0x88e3f4f6e2ffc527, 0x902c96bf66a17f17)
    ∷ (0x4f77137f413acc8d, 0xdaa46e24a5050664)
    ∷ (0x44907a7b719e83f2, 0x48164bbe33b1deea)
    ∷ (0x91f27365f9366b92, 0x79d743b31c61ff81)
    ∷ (0xd42c0649ea70876d, 0x161bc7845f975b2a)
    ∷ (0x5f1de346ae24f35d, 0xef9ac363a9ffaafe)
    ∷ (0xb1265017e40a15f1, 0x13abda3d04566476)
    ∷ (0xa14ca02e0b142a21, 0x2695777a08acc8ec)
    ∷ (0xf14d16f3de72e937, 0xc7532be23438915b)
    ∷ (0x27fd0e14f071b040, 0x9f3fb1b78b213ef3)
    ∷ (0xbac13913d4ae5a8e, 0x8119ffa792e2bcf8)
    ∷ (0x460c64d5b5ed5de8, 0x0661166fd33f2a68)
    ∷ (0x1491cca6a4f840e4, 0xa9d017260f25875d)
    ∷ (0xc9c6bd45ba5f56ec, 0x630ea8e92688f07b)
    ∷ (0xc36fdb16e823769e, 0xd66642fac07b52b4)
    ∷ (0x650a565e0e7a929c, 0x05b01db95bc13f5c)
    ∷ (0x43b9571d9cd34dd1, 0xbd556387a0a77bee)
    ∷ (0xe127e6ca316cd6e7, 0xf26d86a538c23dc1)
    ∷ (0x185f88c47911c1b8, 0xce211a850a87fad7)
    ∷ (0x55b48515fc58d32f, 0x5af229704f0c0831)
    ∷ (0x3d3e987e4d13afe2, 0x1f69f6e3612830a6)
    ∷ (0x350be083db1c518a, 0xe4764121675566eb)
    ∷ (0x6a1603c57538a2d7, 0x0bec8242ceaacc15)
    ∷ (0x4ac220b76804dcb4, 0x61901bccd69d57e2)
    ∷ (0x7c1bd1cd15b33c29, 0xec4bc8b52101bfca)
    ∷ (0x8c18c869a919ba13, 0x0cc22cde657e54d0)
    ∷ (0xeac08fce01c89998, 0x60dfa33fae76e54f)
    ∷ (0x4e391c2823e2a380, 0xfd7ea1add5427c25)
    ∷ (0x95094ffab2d014a6, 0xe539f9d21fbed446)
    ∷ (0x730784566ef10c62, 0xe217574eb46a4c83)
    ∷ (0x30bed34bf22241b3, 0x5f4234c914cd376d)
    ∷ (0xaaabc92a3bb0655e, 0xb42752e09e181062)
    ∷ (0x0aa96653527c2072, 0xb568ea13e6f3a2cf)
    ∷ (0xd24b247865e52643, 0xc4822034bcc6846f)
    ∷ (0x04fb3c9f4be67f34, 0x9ceeba6103df2bc7)
    ∷ (0x57289bbb382b0d35, 0x148574a1af82fcb3)
    ∷ (0xf83661592aa57852, 0x1b9653a94202bd57)
    ∷ (0xdb3053d29132b726, 0x1847587fcafca863)
    ∷ (0xad82e44cd6fdab7d, 0x41647ad90d0eb566)
    ∷ (0xbf740adbfd904ab7, 0x3a2d8a4fe17aed7e)
    ∷ (0x7b32fcabf8fef20a, 0x1908e08cb2171ace)
    ∷ (0xfbe470a08c0ec945, 0x723bc1f1d2cb3394)
    ∷ (0x1deabb0c502fd181, 0x75156f6d791fab51)
    ∷ (0x219a2c257fe4116e, 0x4da656076870e1b6)
    ∷ (0xabe5c67d59680a53, 0x93fd9d69ee5f6a23)
    ∷ (0x5ccff2bf088f424a, 0x8637513b3936243d)
    ∷ (0x22483ddcd94fa079, 0x240bc45ff8b96f75)
    ∷ (0x2d546847a20d9032, 0x2a575ba46dd29c3c)
    ∷ (0x86b1ae3afb659a61, 0xb9aac6cd838df61f)
    ∷ (0xca14acbc1cf4e7fb, 0x0aa33ab1b6417eb8)
    ∷ (0x05b533c8293e1039, 0xbb3475e873985186)
    ∷ (0x69c4123cd39313c0, 0x6241101a5e6342d6)
    ∷ (0x99c70b986f3995fa, 0x82c8f4711a1ca9cc)
    ∷ (0x76b2b79e47cf1c5b, 0x592322a6c7f21d05)
    ∷ (0x336cc2b25489f0a4, 0x36efa6918404b9ae)
    ∷ (0xbe3a058c9f4825ba, 0x1df745c6913d973f)
    ∷ (0x6b580c9217e0cdda, 0x2c364dcbbeedb654)
    ∷ (0x7560a667e164ad4c, 0x308eb0fe573b93c6)
    ∷ (0xdc197eb47c7f7905, 0xed04704659ea0d67)
    ∷ (0x9c723850460785c3, 0x39fc81996984f84a)
    ∷ (0xf00319a4bcaa863a, 0xe089e46b447feb1a)
    ∷ (0xe85c9160c5bb4782, 0x2ea8feee4ef811cd)
    ∷ (0xa4f993e6222a3a18, 0x9da102927b34996a)
    ∷ (0xe740c4fbbef977c9, 0x20f46115db93e284)
    ∷ (0x083578fd960ffe68, 0xfb1fb7c2067d564d)
    ∷ (0xcb5aa3eb7e2c88f6, 0x2d79f538c60604f9)
    ∷ (0x20d423721d3c7e63, 0x6a7c998e18379bf7)
    ∷ (0x3445efd4b9c43e87, 0xc3ac8ea817121caa)
    ∷ (0xa979d8d39d1bd449, 0xdd8ac0b80ed19ea1)
    ∷ (0xa29eb1d7adbf9b36, 0x4f38e5229865462f)
    ∷ (0x644459096ca2fd91, 0x226ad2302b86451d)
    ∷ (0x4deb0dd185491297, 0x94d333f5458bf2e6)
    ∷ (0x7e87cf63d1c0e233, 0xa23c9564c18f4b48)
    ∷ (0xdd5771e31ea71608, 0xcadebfcf29ad7726)
    ∷ (0xfe514368a530d97c, 0xc90fb419a1536212)
    ∷ (0xa6658d48e659e402, 0xd3d65f439bba6de8)
    ∷ (0xd6b018e72e035977, 0x586c9a55bf19afa8)
    ∷ (0x9220629c5f9dda85, 0x107ad1eb8ca87142)
    ∷ (0xfccd5dc661430766, 0x8778e9c841dd9690)
    ∷ (0x742ea93083bcc241, 0x17547f77277ce987)
    ∷ (0x8b31e50f44547430, 0xf98104e7f668f1d4)
    ∷ (0x688a1d6bb14b7ccd, 0x459bdf932e243897)
    ∷ (0x106af039ef1e3fd0, 0x353ead470cfaac9a)
    ∷ (0x9eee26fe82745bd9, 0x778bdc48890a0cc8)
    ∷ (0x3222cde536519fa9, 0x11356918f443c3ef)
    ∷ (0xc794e789a3c509aa, 0x4a88f89bc3a47973)
    ∷ (0xb5dd6c88afec6ac5, 0x8f45605c07894fb1)
    ∷ (0xd562091e88a8e860, 0x31c1080d2fd0216b)
    ∷ (0x3fa286d0896071f8, 0x511eab3281a6c424)
    ∷ (0x8fcad9900fb20b04, 0x656fbe86f5b7da13)
    ∷ (0x3797fe2d1f6f8f90, 0xaa011cf087db9269)
    ∷ (0xb2f441ee42a1a4e6, 0x7a064865949feab5)
    ∷ (0x1e38aaf5f6846096, 0x1cb8fd35e9d62592)
    ∷ (0x1b8d993ddfba70af, 0xa78c88dd9a4e7414)
    ∷ (0x406b46e43a78fcc6, 0xd4f8f1df306ef52d)
    ∷ (0xc6dae8dec11d66a7, 0x6d523712b3e30332)
    ∷ (0xef75bc0628f689a1, 0xdbebd6d7ddeeb4c9)
    ∷ (0xcd3d81daf1b929d8, 0xffe012882557dbbc)
    ∷ (0x8d56c73ecbc1d51e, 0x2b18e35715392e91)
    ∷ (0x26b3014392a9df4d, 0xb8e57e3efb6644b2)
    ∷ (0x5aa8d08e871ae364, 0x54aeb68bda67fb78)
    ∷ (0x4ca50286e7917d9a, 0xb309fc7c35cc88a7)
    ∷ (0x6eed3f5a3ededde3, 0x97023823cd75e7d2)
    ∷ (0x6c7121f4faad03f9, 0xd97565f22dfb1350)
    ∷ (0x988904cf0de1faf7, 0xa5123bf86a5bd38d)
    ∷ (0xf72a34c251e74819, 0x15cacc52d7694e1e)
    ∷ (0xbb8f3644b6763583, 0xa6c3302ee2a5c6b9)
    ∷ (0x0f1c559b7b42304b, 0x0e5c9ffb956bf349)
    ∷ (0x80d68c0b74f03b4f, 0x6b33217d60dc295a)
    ∷ (0x842db0943f16447b, 0xf7dd9b1c6303029d)
    ∷ (0x3c7097292fcbc0ef, 0x38b3396a116f4ae7)
    ∷ (0x36d9f17a7db7e09d, 0x8ddbd379f79ce828)
    ∷ (0x2306328bbb97cf74, 0x03d10bd688fe1534)
    ∷ (0x13b8e1c049b58ec7, 0x5c933f1f9c332259)
    ∷ (0x12f6ee972b6de1ca, 0x7b49f096ec745818)
    ∷ (0x87ffa16d99bdf56c, 0x9e700944f3ca8c5e)
    ∷ (0x1743dd5f0253f1f3, 0xc07d857e9fec099e)
    ∷ (0xd8e2422b37990631, 0x71eaca275a3526a0)
    ∷ (0x7fc9c034b3188d3e, 0x85e65aedb1c83109)
    ∷ (0x53d3a72473cd7201, 0x886bcec0ac5dd774)
    ∷ (0x388babb6642dbfdb, 0xa45d830b12b06120)
    ∷ (0xe60ecbacdc2118c4, 0x072eae9cabd498c5)
    ∷ (0xc888b212d88739e1, 0x44d4676056cf8a3a)
    ∷ (0x9a151a61c99224ed, 0xeb6566298ad5270f)
    ∷ (0x9b5b1536ab4a4be0, 0xccbfa9a0fa925d4e)
    ∷ (0xf6643b95333f2714, 0x321003dba72e345f)
    ∷ (0xb74172266b9fb4df, 0xc1323d8de707bb33)
    ∷ (0x5e53ec11ccfc9c50, 0xc8400cead9b8d0bf)
    ∷ (0x31f0dc1c90fa2ebe, 0x7898fb40648a4d2c)
    ∷ (0x944740add0087bab, 0xc2e3365b6ff9ae07)
    ∷ (0x485e3e19ac7702ae, 0x2fe7461d3613a360)
    ∷ (0x0d804b35bf31ee51, 0x402bc22a75e507cb)
    ∷ (0xdfcb6f4ddad4c812, 0x84a9e21ec92383a4)
    ∷ (0xe9129e37a763288f, 0x097231673ebf6b8c)
    ∷ (0x78e0ed525e55431d, 0x70a572d422de940d)
    ∷ (0x6d3f2ea398756cf4, 0xfeafaa7b5dbc6911)
    ∷ (0xe5dcda557a8aa9d3, 0x6e833cc43b1d1606)
    ∷ (0x45de752c1346ecff, 0x6fcc843743f6a4ab)
    ∷ (0x5d81fde86a572d47, 0xa1ed9eb249715e7c)
    ∷ (0xa5b79cb140f25515, 0xba7bcd1b0b73e32b)
    ∷ (0x66d847a7a8d1238b, 0x6c1d8fe1cb08b19f)
    ∷ (0xbca61b225b3bfba0, 0x5380181771b363bd)
    ∷ (0x3eec8987ebb81ef5, 0x76c464bbf1e1be65)
    ∷ (0x2fc876e9667e4e28, 0x642006758d5c68be)
    ∷ (0x242f1fed56da0157, 0xf69223ef1be8b030)
    ∷ (0x636d746f81ef33b2, 0xd729fa09b890e019)
    ∷ (0x7d55de9a776b5324, 0xcb91073c5146c58b)
    ∷ (0xceef9023571298cf, 0x964d80d0b59e557f)
    ∷ (0xc0bdcaef4e88c789, 0xbfcbd0a250b2dc77)
    ∷ (0x1124ff6e8dc650dd, 0x12e462ce7cbdd6db)
    ∷ (0x824a92a5b083e555, 0x25447cac8052ddd8)
    ∷ (0xda7e5c85f3ead82b, 0x3f9d97f6babbd222)
    ∷ (0x1f76a5a2945c0f9b, 0x3b6232bc99915fd3)
    ∷ (0xb3ba4eb92079cbeb, 0x5ddc87ece4d890f4)
    ∷ (0x9d3c370724dfeace, 0x1e264e1019c3820b)
    ∷ (0x47426b82d73532e5, 0x21bbd9e6a3785029)
    ∷ (0x96db5e03147ba5b1, 0x8c946b8a8f775a85)
    ∷ (0x54fa8a429e80bc22, 0x7d28e6f93f4b7270)
    ∷ (0xc446f670056eb8bd, 0x23256ac3536df7b0)
    ∷ (0x15dfc3f1c6202fe9, 0x8e0ad8af7f62fd1c)
    ∷ (0x07292d66ed4dce23, 0xf54328399316a504)
    ∷ (0x70d595afc85abd75, 0x8bbac51624a3c240)
    ∷ (0x90bc7c329bee049f, 0x5e0d8c3a6c2685c0)
    ∷ (0x1ac3966abd621fa2, 0x80564754ea090e55)
    ∷ (0xa72b821f84818b0f, 0xf40c90caebfd17a9)
    ∷ (0xd1993581c34e9754, 0xad2fb26c2c0f0aac)
    ∷ (0x679648f0ca094c86, 0x4bc74068bb4fcbde)
    ∷ (0xc221d4418afb1993, 0xf1bc8d73b03c28f5)
    ∷ (0x256110ba34026e5a, 0xd148ec666bafca71)
    ∷ (0x8a7fea58268c1b3d, 0xde5bcb6e862f8b95)
    ∷ (0xb85d27bd10dd8494, 0xcf6ea276726c487a)
    ∷ (0x77fcb8c925177356, 0x7ef9ed2fb7b56744)
    ∷ (0x62237b38e3375cbf, 0xf0f33580c8d79a58)
    ∷ (0xeb8e80996310f695, 0x47056cb6de319f0e)
    ∷ (0x4b8c2fe00adcb3b9, 0x464ad445a6da2da3)
    ∷ (0x2a7d45214f405e11, 0xdf14739dfec43938)
    ∷ (0x28e15b8f8b33800b, 0x91632e4c1e4acdba)
    ∷ (0xff1f4c3fc7e8b671, 0xeed57b90d1141853)
    ∷ (0xc508f92767b6d7b0, 0x04ffa54a232a8df1)
    ∷ (0x2b334a762d98311c, 0xf8cebc148e834379)
    ∷ (0x42f7584afe0b22dc, 0x9a8fac0ed0e001af)
    ∷ (0x61f16ac1459ceda8, 0x995ea7d8581e149b)
    ∷ (0x3a17b518a05e61c1, 0xea2adedaf23e95a2)
    ∷ (0x89adfba18027aa2a, 0xb7f6593616e60556)
    ∷ (0x0000000000000000, 0x0000000000000000)
    ∷ (0xee3bb3514a2ee6ac, 0xfc31195eada9ce88)
    ∷ (0xfaaa7ff7eed6a648, 0x55e10e78a28c49d5)
    ∷ (0xd7fe17b04cdb367a, 0x7fb655dccf5ed5e9)
    ∷ []
