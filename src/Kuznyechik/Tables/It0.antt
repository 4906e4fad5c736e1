-- ===== src/Kuznyechik/Tables/It0.antt =====
-- internal/kuznyechik/tables.go: `it[0]`, 256 entries of two words.
use kubebao.Common.{ℕ, List, [], ◌∷◌}

unfoldable pub it_row0 : List (ℕ × ℕ)
it_row0 =
    (0x59ba4fc2860ecca5, 0xf011538279efe33b)
    ∷ (0xb62a6c959496032d, 0xbd918337e7ba9cf5)
    ∷ (0xd211f9a6abb11732, 0xad925890c98ec303)
    ∷ (0xbf6596274482a58f, 0x84685128596eda60)
    ∷ (0xa029a9e0ac34d40e, 0x5113c1f94d76899f)
    ∷ (0x685f4086d27afc30, 0x7115b474111e37b0)
    ∷ (0xc5a4e106f5d0d638, 0x874c8262f71b6139)
    ∷ (0x63bfc35dce2b76c0, 0x075495134478dc85)
    ∷ (0x0f7d710947dbd254, 0xe8f2049740c172b6)
    ∷ (0x9f070a78d95820e6, 0xfeb9baa4f11f98f2)
    ∷ (0x7b77aaf4d791659e, 0xc5784b763a2c0c09)
    ∷ (0x98835c1628544239, 0xe9eef4109b531b81)
    ∷ (0x525acc199a5f4655, 0x865072e52c89080e)
    ∷ (0xe9a2a8ec8557bb7e, 0x9c8b063d60404bed)
    ∷ (0x02af7969cc452c52, 0x4fb8f378ebb2ada0)
    ∷ (0x8679be04a6212591, 0xfac9fcfd1b12ff2e)
    ∷ (0x6722318f95a12e64, 0x99e7b0e351df4506)
    ∷ (0xe7690430a44f7f03, 0xb2259a96b4d88e0b)
    ∷ (0xe8147539e394ad57, 0x5ad79e01f419fcbd)
    ∷ (0xaf54d8e9ebef065a, 0xb9e1c56e0db7fb29)
    ∷ (0x835291039b686b1c, 0xa22641319aecd1fd)
    ∷ (0xd0be80cf67f43b60, 0xe22aabe8223c6ea3)
    ∷ (0x50f5b570561a6a07, 0xc9e8819dc73ba5ae)
    ∷ (0x34ce2043693d7e18, 0xd9eb5a3ae90ffa58)
    ∷ (0xac4d7c5541693c21, 0x3005ae2a725ce1d9)
    ∷ (0xf3c5b82c50a88472, 0x111f2b20f5a636c1)
    ∷ (0x1efae2128e7567a8, 0x132708ed8041e4af)
    ∷ (0xa7adff8e5d38b6d1, 0x46448f4d273a0aec)
    ∷ (0x01b6ddd566c31629, 0xc65c983c9459b750)
    ∷ (0x6e6dcb3d45b588c6, 0xa01e62fcef0b0393)
    ∷ (0x049df2d25b8a58a4, 0x9eb325f015a79983)
    ∷ (0x95515476a3cabc3f, 0x4ea403ff3020c497)
    ∷ (0x92d5021852c6dee0, 0x59f34d4b5a6c47e4)
    ∷ (0xa19f7435caf7c227, 0x974f59c5d92f3ecf)
    ∷ (0x052b2f073d494e8d, 0x58efbdcc81fe2ed3)
    ∷ (0x1a6710c0d5ff3f0c, 0x8d942d1d95e67d2c)
    ∷ (0xf8253bf74cf90e82, 0x675e0a47a0c0ddf4)
    ∷ (0x85601ab80ca71fea, 0x732d97b964f9e5de)
    ∷ (0x1328ea7205eb99ae, 0xb46dff022b323bb9)
    ∷ (0x9da87311151d0cb4, 0xb10149dc1aad3552)
    ∷ (0xcceb1bb425c4709a, 0xbeb5507d49cf27ac)
    ∷ (0x37d784ffc3bb4463, 0x500f317e96e4e0a8)
    ∷ (0xd1085d1a01372d49, 0x247633d4b665d9f3)
    ∷ (0x786e0e487d175fe5, 0x4c9c203245c716f9)
    ∷ (0x9b9af8aa82d27842, 0x600a9f54e4b80171)
    ∷ (0x2549b358a093cbe4, 0x223e5640298f6c41)
    ∷ (0x738e8d936146d515, 0x3add015510a1fdcc)
    ∷ (0x7ac17721b15273b7, 0x0324d34aae75bb59)
    ∷ (0xce4462dde9815cc8, 0xf10da305a27d8a0c)
    ∷ (0x0dd208608b9efe06, 0xa74af7efab73df16)
    ∷ (0x498b010c29636f70, 0xcd98c7c42d36c272)
    ∷ (0x9c1eaec473de1a9d, 0x775dd1e08ef48202)
    ∷ (0x7cf3fc9a269d0741, 0xd22f05c250608f7a)
    ∷ (0xa3300d5c06b2ee75, 0xd8f7aabd329d936f)
    ∷ (0x69e99d53b4b9ea19, 0xb7492c48854780e0)
    ∷ (0x9363dfcd3405c8c9, 0x9fafd577ce35f0b4)
    ∷ (0xa4b45b32f7be8caa, 0xcfa0e40958d1101c)
    ∷ (0x1187931bc9aeb5fc, 0xfbd50c7ac0809619)
    ∷ (0x6694ec5af362384d, 0x5fbb28dfc586f256)
    ∷ (0xd73ad6a196f859bf, 0xf57de55c4870edd0)
    ∷ (0xe6dfd9e5c28c692a, 0x747902aa2081395b)
    ∷ (0xaee2053c8d2c1073, 0x7fbd5d5299ee4c79)
    ∷ (0xf5f73397c767f084, 0xc014fda80bb302e2)
    ∷ (0x10314eceaf6da3d5, 0x3d89944654d92149)
    ∷ (0x84d6c76d6a6409c3, 0xb5710f85f0a0528e)
    ∷ (0x4e0f5762d86f0daf, 0xdacf8970477a4101)
    ∷ (0xbbf864f51f08fd2b, 0x1adb74d84cc943e3)
    ∷ (0x4fb98ab7beac1b86, 0x1c93114cd323f651)
    ∷ (0xe3f4f6e2ffc527a7, 0x2c96bf66a17f1788)
    ∷ (0x77137f413acc8db1, 0xa46e24a50506644f)
    ∷ (0x907a7b719e83f2b2, 0x164bbe33b1deea44)
    ∷ (0xf27365f9366b925b, 0xd743b31c61ff8191)
    ∷ (0x2c0649ea70876d46, 0x1bc7845f975b2ad4)
    ∷ (0x1de346ae24f35dd3, 0x9ac363a9ffaafe5f)
    ∷ (0x265017e40a15f19f, 0xabda3d04566476b1)
    ∷ (0x4ca02e0b142a21fd, 0x95777a08acc8eca1)
    ∷ (0x4d16f3de72e937d4, 0x532be23438915bf1)
    ∷ (0xfd0e14f071b0400f, 0x3fb1b78b213ef327)
    ∷ (0xc13913d4ae5a8e9c, 0x19ffa792e2bcf8ba)
    ∷ (0x0c64d5b5ed5de82f, 0x61166fd33f2a6846)
    ∷ (0x91cca6a4f840e49b, 0xd017260f25875d14)
    ∷ (0xc6bd45ba5f56ec43, 0x0ea8e92688f07bc9)
    ∷ (0x6fdb16e823769eef, 0x6642fac07b52b4c3)
    ∷ (0x0a565e0e7a929cd9, 0xb01db95bc13f5c65)
    ∷ (0xb9571d9cd34dd179, 0x556387a0a77bee43)
    ∷ (0x27e6ca316cd6e7b6, 0x6d86a538c23dc1e1)
    ∷ (0x5f88c47911c1b853, 0x211a850a87fad718)
    ∷ (0xb48515fc58d32f7f, 0xf229704f0c083155)
    ∷ (0x3e987e4d13afe2c1, 0x69f6e3612830a63d)
    ∷ (0x0be083db1c518af0, 0x764121675566eb35)
    ∷ (0x1603c57538a2d723, 0xec8242ceaacc156a)
    ∷ (0xc220b76804dcb4e7, 0x901bccd69d57e24a)
    ∷ (0x1bd1cd15b33c2925, 0x4bc8b52101bfca7c)
    ∷ (0x18c869a919ba135e, 0xc22cde657e54d08c)
    ∷ (0xc08fce01c89998b5, 0xdfa33fae76e54fea)
    ∷ (0x391c2823e2a3801e, 0x7ea1add5427c254e)
    ∷ (0x094ffab2d014a6a2, 0x39f9d21fbed44695)
    ∷ (0x0784566ef10c62df, 0x17574eb46a4c8373)
    ∷ (0xbed34bf22241b3a6, 0x4234c914cd376d30)
    ∷ (0xabc92a3bb0655efe, 0x2752e09e181062aa)
    ∷ (0xa96653527c2072ac, 0x68ea13e6f3a2cf0a)
    ∷ (0x4b247865e5264322, 0x822034bcc6846fd2)
    ∷ (0xfb3c9f4be67f34f9, 0xeeba6103df2bc704)
    ∷ (0x289bbb382b0d35e2, 0x8574a1af82fcb357)
    ∷ (0x3661592aa578524a, 0x9653a94202bd57f8)
    ∷ (0x3053d29132b726bc, 0x47587fcafca863db)
    ∷ (0x82e44cd6fdab7d35, 0x647ad90d0eb566ad)
    ∷ (0x740adbfd904ab7ca, 0x2d8a4fe17aed7ebf)
    ∷ (0x32fcabf8fef20aee, 0x08e08cb2171ace7b)
    ∷ (0xe470a08c0ec94578, 0x3bc1f1d2cb3394fb)
    ∷ (0xeabb0c502fd18105, 0x156f6d791fab511d)
    ∷ (0x9a2c257fe4116e6b, 0xa656076870e1b621)
    ∷ (0xe5c67d59680a5351, 0xfd9d69ee5f6a23ab)
    ∷ (0xcff2bf088f424ae1, 0x37513b3936243d5c)
    ∷ (0x483ddcd94fa07959, 0x0bc45ff8b96f7522)
    ∷ (0x546847a20d9032a3, 0x575ba46dd29c3c2d)
    ∷ (0xb1ae3afb659a61f2, 0xaac6cd838df61f86)
    ∷ (0x14acbc1cf4e7fb71, 0xa33ab1b6417eb8ca)
    ∷ (0xb533c8293e103956, 0x3475e87398518605)
    ∷ (0xc4123cd39313c011, 0x41101a5e6342d669)
    ∷ (0xc70b986f3995fa6a, 0xc8f4711a1ca9cc99)
    ∷ (0xb2b79e47cf1c5b89, 0x2322a6c7f21d0576)
    ∷ (0x6cc2b25489f0a494, 0xefa6918404b9ae33)
    ∷ (0x3a058c9f4825ba65, 0xf745c6913d973fbe)
    ∷ (0x580c9217e0cdda8c, 0x364dcbbeedb6546b)
    ∷ (0x60a667e164ad4cbb, 0x8eb0fe573b93c675)
    ∷ (0x197eb47c7f790577, 0x04704659ea0d67dc)
    ∷ (0x723850460785c33c, 0xfc81996984f84a9c)
    ∷ (0x0319a4bcaa863a7b, 0x89e46b447feb1af0)
    ∷ (0x5c9160c5bb478228, 0xa8feee4ef811cde8)
    ∷ (0xf993e6222a3a18ab, 0xa102927b34996aa4)
    ∷ (0x40c4fbbef977c9d2, 0xf46115db93e284e7)
    ∷ (0x3578fd960ffe6831, 0x1fb7c2067d564d08)
    ∷ (0x5aa3eb7e2c88f6de, 0x79f538c60604f9cb)
    ∷ (0xd423721d3c7e63c4, 0x7c998e18379bf720)
    ∷ (0x45efd4b9c43e875f, 0xac8ea817121caa34)
    ∷ (0x79d8d39d1bd449cc, 0x8ac0b80ed19ea1a9)
    ∷ (0x9eb1d7adbf9b36cf, 0x38e5229865462fa2)
    ∷ (0x4459096ca2fd9176, 0x6ad2302b86451d64)
    ∷ (0xeb0dd1854912972c, 0xd333f5458bf2e64d)
    ∷ (0x87cf63d1c0e233b8, 0x3c9564c18f4b487e)
    ∷ (0x5771e31ea71608d8, 0xdebfcf29ad7726dd)
    ∷ (0x514368a530d97c2e, 0x0fb419a1536212fe)
    ∷ (0x658d48e659e40236, 0xd65f439bba6de8a6)
    ∷ (0xb018e72e035977db, 0x6c9a55bf19afa8d6)
    ∷ (0x20629c5f9dda8569, 0x7ad1eb8ca8714292)
    ∷ (0xcd5dc661430766b3, 0x78e9c841dd9690fc)
    ∷ (0x2ea93083bcc24114, 0x547f77277ce98774)
    ∷ (0x31e50f4454743095, 0x8104e7f668f1d48b)
    ∷ (0x8a1d6bb14b7ccdbe, 0x9bdf932e24389768)
    ∷ (0x6af039ef1e3fd062, 0x3ead470cfaac9a10)
    ∷ (0xee26fe82745bd9a1, 0x8bdc48890a0cc89e)
    ∷ (0x22cde536519fa93b, 0x356918f443c3ef32)
    ∷ (0x94e789a3c509aa16, 0x88f89bc3a47973c7)
    ∷ (0xdd6c88afec6ac566, 0x45605c07894fb1b5)
    ∷ (0x62091e88a8e860e9, 0xc1080d2fd0216bd5)
    ∷ (0xa286d0896071f85c, 0x1eab3281a6c4243f)
    ∷ (0xcad9900fb20b046c, 0x6fbe86f5b7da138f)
    ∷ (0x97fe2d1f6f8f906d, 0x011cf087db926937)
    ∷ (0xf441ee42a1a4e6ad, 0x064865949feab5b2)
    ∷ (0x38aaf5f684609637, 0xb8fd35e9d625921e)
    ∷ (0x8d993ddfba70af61, 0x8c88dd9a4e74141b)
    ∷ (0x6b46e43a78fcc64b, 0xf8f1df306ef52d40)
    ∷ (0xdae8dec11d66a7b9, 0x523712b3e30332c6)
    ∷ (0x75bc0628f689a1e3, 0xebd6d7ddeeb4c9ef)
    ∷ (0x3d81daf1b929d8ba, 0xe012882557dbbccd)
    ∷ (0x56c73ecbc1d51ef1, 0x18e35715392e918d)
    ∷ (0xb3014392a9df4da0, 0xe57e3efb6644b226)
    ∷ (0xa8d08e871ae36485, 0xaeb68bda67fb785a)
    ∷ (0xa50286e7917d9a83, 0x09fc7c35cc88a74c)
    ∷ (0xed3f5a3ededde3da, 0x023823cd75e7d26e)
    ∷ (0x7121f4faad03f947, 0x7565f22dfb13506c)
    ∷ (0x8904cf0de1faf7c5, 0x123bf86a5bd38d98)
    ∷ (0x2a34c251e74819b0, 0xcacc52d7694e1ef7)
    ∷ (0x8f3644b676358333, 0xc3302ee2a5c6b9bb)
    ∷ (0x1c559b7b42304bfa, 0x5c9ffb956bf3490f)
    ∷ (0xd68c0b74f03b4f96, 0x33217d60dc295a80)
    ∷ (0x2db0943f16447b6f, 0xdd9b1c6303029d84)
    ∷ (0x7097292fcbc0ef6e, 0xb3396a116f4ae73c)
    ∷ (0xd9f17a7db7e09dc2, 0xdbd379f79ce82836)
    ∷ (0x06328bbb97cf74f6, 0xd10bd688fe153423)
    ∷ (0xb8e1c049b58ec750, 0x933f1f9c33225913)
    ∷ (0xf6ee972b6de1caff, 0x49f096ec74581812)
    ∷ (0xffa16d99bdf56c5d, 0x700944f3ca8c5e87)
    ∷ (0x43dd5f0253f1f3a9, 0x7d857e9fec099e17)
    ∷ (0xe2422b379906318e, 0xeaca275a3526a0d8)
    ∷ (0xc9c034b3188d3e17, 0xe65aedb1c831097f)
    ∷ (0xd3a72473cd72011b, 0x6bcec0ac5dd77453)
    ∷ (0x8babb6642dbfdb97, 0x5d830b12b0612038)
    ∷ (0x0ecbacdc2118c47d, 0x2eae9cabd498c5e6)
    ∷ (0x88b212d88739e1ec, 0xd4676056cf8a3ac8)
    ∷ (0x151a61c99224ed58, 0x6566298ad5270f9a)
    ∷ (0x5b1536ab4a4be0f7, 0xbfa9a0fa925d4e9b)
    ∷ (0x643b95333f27141f, 0x1003dba72e345ff6)
    ∷ (0x4172266b9fb4dffb, 0x323d8de707bb33b7)
    ∷ (0x53ec11ccfc9c507c, 0x400cead9b8d0bf5e)
    ∷ (0xf0dc1c90fa2ebe09, 0x98fb40648a4d2c31)
    ∷ (0x4740add0087bab0d, 0xe3365b6ff9ae0794)
    ∷ (0x5e3e19ac7702ae7a, 0xe7461d3613a36048)
    ∷ (0x804b35bf31ee5167, 0x2bc22a75e507cb0d)
    ∷ (0xcb6f4ddad4c81245, 0xa9e21ec92383a4df)
    ∷ (0x129e37a763288f87, 0x7231673ebf6b8ce9)
    ∷ (0xe0ed525e55431ddc, 0xa572d422de940d78)
    ∷ (0x3f2ea398756cf4e8, 0xafaa7b5dbc69116d)
    ∷ (0xdcda557a8aa9d34f, 0x833cc43b1d1606e5)
    ∷ (0xde752c1346ecff1d, 0xcc843743f6a4ab45)
    ∷ (0x81fde86a572d474e, 0xed9eb249715e7c5d)
    ∷ (0xb79cb140f2551504, 0x7bcd1b0b73e32ba5)
    ∷ (0xd847a7a8d1238beb, 0x1d8fe1cb08b19f66)
    ∷ (0xa61b225b3bfba0f8, 0x80181771b363bdbc)
    ∷ (0xec8987ebb81ef5f3, 0xc464bbf1e1be653e)
    ∷ (0xc876e9667e4e283e, 0x2006758d5c68be2f)
    ∷ (0x2f1fed56da01573d, 0x9223ef1be8b03024)
    ∷ (0x6d746f81ef33b2bd, 0x29fa09b890e01963)
    ∷ (0x55de9a776b53248a, 0x91073c5146c58b7d)
    ∷ (0xef9023571298cf88, 0x4d80d0b59e557fce)
    ∷ (0xbdcaef4e88c789dd, 0xcbd0a250b2dc77c0)
    ∷ (0x24ff6e8dc650ddcd, 0xe462ce7cbdd6db11)
    ∷ (0x4a92a5b083e5550b, 0x447cac8052ddd882)
    ∷ (0x7e5c85f3ead82b13, 0x9d97f6babbd222da)
    ∷ (0x76a5a2945c0f9b98, 0x6232bc99915fd31f)
    ∷ (0xba4eb92079cbeb02, 0xdc87ece4d890f4b3)
    ∷ (0x3c370724dfeace93, 0x264e1019c3820b9d)
    ∷ (0x426b82d73532e580, 0xbbd9e6a378502947)
    ∷ (0xdb5e03147ba5b190, 0x946b8a8f775a8596)
    ∷ (0xfa8a429e80bc22d0, 0x28e6f93f4b727054)
    ∷ (0x46f670056eb8bd24, 0x256ac3536df7b0c4)
    ∷ (0xdfc3f1c6202fe934, 0x0ad8af7f62fd1c15)
    ∷ (0x292d66ed4dce23cb, 0x4328399316a50407)
    ∷ (0xd595afc85abd75ed, 0xbac51624a3c24070)
    ∷ (0xbc7c329bee049ff4, 0x0d8c3a6c2685c090)
    ∷ (0xc3966abd621fa2ce, 0x564754ea090e551a)
    ∷ (0x2b821f84818b0f99, 0x0c90caebfd17a9a7)
    ∷ (0x993581c34e975410, 0x2fb26c2c0f0aacd1)
    ∷ (0x9648f0ca094c8644, 0xc74068bb4fcbde67)
    ∷ (0x21d4418afb199340, 0xbc8d73b03c28f5c2)
    ∷ (0x6110ba34026e5a92, 0x48ec666bafca7125)
    ∷ (0x7fea58268c1b3d3a, 0x5bcb6e862f8b958a)
    ∷ (0x5d27bd10dd849401, 0x6ea276726c487ab8)
    ∷ (0xfcb8c92517735626, 0xf9ed2fb7b5674477)
    ∷ (0x237b38e3375cbf12, 0xf33580c8d79a5862)
    ∷ (0x8e80996310f6951a, 0x056cb6de319f0eeb)
    ∷ (0x8c2fe00adcb3b948, 0x4ad445a6da2da34b)
    ∷ (0x7d45214f405e1168, 0x14739dfec439382a)
    ∷ (0xe15b8f8b33800bf5, 0x632e4c1e4acdba28)
    ∷ (0x1f4c3fc7e8b67181, 0xd57b90d1141853ff)
    ∷ (0x08f92767b6d7b08b, 0xffa54a232a8df1c5)
    ∷ (0x334a762d98311cc7, 0xcebc148e8343792b)
    ∷ (0xf7584afe0b22dcd6, 0x8fac0ed0e001af42)
    ∷ (0xf16ac1459ceda820, 0x5ea7d8581e149b61)
    ∷ (0x17b518a05e61c10a, 0x2adedaf23e95a23a)
    ∷ (0xadfba18027aa2a08, 0xf6593616e6055689)
    ∷ (0x0000000000000000, 0x0000000000000000)
    ∷ (0x3bb3514a2ee6ac4c, 0x31195eada9ce88ee)
    ∷ (0xaa7ff7eed6a648d7, 0xe10e78a28c49d5fa)
    ∷ (0xfe17b04cdb367a74, 0xb655dccf5ed5e9d7)
    ∷ []
