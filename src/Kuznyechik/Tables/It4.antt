-- ===== src/Kuznyechik/Tables/It4.antt =====
-- internal/kuznyechik/tables.go: `it[4]`, 256 entries of two words.
use kubebao.Common.{ℕ, List, [], ◌∷◌}

unfoldable pub it_row4 : List (ℕ × ℕ)
it_row4 =
    (0xa5f8edb8b8bf36c2, 0x5c52844aa52d6aff)
    ∷ (0x2d380a9a9ad18b95, 0x4ddb24972d2fc673)
    ∷ (0x32db72eded5430a6, 0x972657bc3228a762)
    ∷ (0x8f5c58535312cf27, 0xc84a72e18f49071d)
    ∷ (0x0efbbde2e2f8e4e0, 0x714567780e9695e1)
    ∷ (0x30fe4d0c0c315186, 0x067c812e309857c3)
    ∷ (0x386ab10e0e661606, 0x07d75f23381d1102)
    ∷ (0xc07ef73030c4875d, 0x183341b8c0259f8a)
    ∷ (0x548ba91515993109, 0xeb302f9554c8da07)
    ∷ (0xe604c0d8d8f4fb78, 0x6c3406f9e6679728)
    ∷ (0x9e449dc6c66f90f4, 0x63f266b29ed8f3ed)
    ∷ (0x39994f9f9fb5c716, 0xaefa346a394569b3)
    ∷ (0x55785784844ae019, 0x421d44dc5590a2b6)
    ∷ (0x7e2f1cfefe34c8ec, 0x7f28d93e7eacb7e5)
    ∷ (0x52e4e8f5f5369269, 0x9bde96e052db0927)
    ∷ (0x914cdeb5b544a504, 0xbb9a6a8391161ebd)
    ∷ (0x6475e41919a8608f, 0xed4caebb64508dc4)
    ∷ (0x03d6c17070b6b030, 0x3877bddb03e88810)
    ∷ (0x575d6865652f8139, 0xd347924e57205217)
    ∷ (0x5a7014f7f761d5e9, 0x9a7548ed5a5e4fe6)
    ∷ (0x1c35b90707330b03, 0xe28acef01cefe901)
    ∷ (0x603f9a181862a2cf, 0x0cf8c15c60f3ae45)
    ∷ (0x079cbf71717c7270, 0xd9c3d23c074bab91)
    ∷ (0x187fc70606f9c943, 0x033ea117184cca80)
    ∷ (0x21e68899994c0e55, 0xadc4957d2109a333)
    ∷ (0x72f19efdfda94d2c, 0x9f3768d4728ad2a5)
    ∷ (0xa8d5912a2af16212, 0x15605ee9a853770e)
    ∷ (0xd16632a5a5b9d88e, 0xb38b55ebd1b46b7a)
    ∷ (0x2972749b9b1b49d5, 0xac6f4b70298ce5f2)
    ∷ (0xc611b6d0d06b243d, 0x68ddf8cdc6364caa)
    ∷ (0xa40b1329296ce7d2, 0xf57fef03a475124e)
    ∷ (0x3ff60e7f7f1a6476, 0xde148d1f3f56ba93)
    ∷ (0xe06b8138385b5818, 0x1cdabf8ce0744408)
    ∷ (0x2789c97979e3ad35, 0xdd2a2c08271a7013)
    ∷ (0x8d7967b2b277ae07, 0x5910a4738df9f7bc)
    ∷ (0x0cde8203039d85c0, 0xe01fb1ea0c266540)
    ∷ (0x827124c1c15c9bf7, 0x8178a84282371aec)
    ∷ (0xeada42dbdb697eb8, 0x8c2bb713ea41f268)
    ∷ (0xaebad0caca5ec172, 0x658ee79cae40a42e)
    ∷ (0xb4e0282d2dc26911, 0xf7ea9019b4bc9e0f)
    ∷ (0x9a0ee3c7c7a552b4, 0x824609559a7bd06c)
    ∷ (0x63e95b6868d412ff, 0x348f7c87631b2655)
    ∷ (0x494dee838379eb1a, 0xa0978a2c497f4bb7)
    ∷ (0xe5d201a8a8424b48, 0x5443bb22e58f1f38)
    ∷ (0x420fd3f1f1981caa, 0x994be9fa42128566)
    ∷ (0xe421ff3939919a58, 0xfd6ed06be4d76789)
    ∷ (0x1552bb9494b79d93, 0x4a0c7bb41532d771)
    ∷ (0xb736e95d5d74d921, 0xcf9d2dc2b754161f)
    ∷ (0xc8ea0b323293c0dd, 0x19989fb5c8a0d94b)
    ∷ (0x066f41e0e0afa360, 0x70eeb9750613d320)
    ∷ (0x70d4a11c1ccc2c0c, 0x0e6dbe46703a2204)
    ∷ (0x9d925cb6b6d920c4, 0x5b85db699d307bfd)
    ∷ (0x41d91281812eac9a, 0xa13c542141fa0d76)
    ∷ (0x756d218c8cd53f5c, 0x46f4bae875c17934)
    ∷ (0x198c3997972a1853, 0xaa13ca5e1914b231)
    ∷ (0xc919f5a3a34011cd, 0xb0b5f4fcc9f8a1fa)
    ∷ (0xaaf0aecbcb940332, 0x843a887baae387af)
    ∷ (0xfc5e383f3f68531b, 0xfe50717cfc9bad09)
    ∷ (0x4d07908282b3295a, 0x4123e5cb4ddc6836)
    ∷ (0xbfa2155f5f239ea1, 0xce36f3cfbfd150de)
    ∷ (0x2aa4b5ebebadf9e5, 0x9418f6ab2a646de2)
    ∷ (0x7302606c6c7a9c3c, 0x361a039d73d2aa14)
    ∷ (0x841e652121f33897, 0xf19611378424c9cc)
    ∷ (0xd52c4ca4a4731ace, 0x523f3a0cd51748fb)
    ∷ (0xc3a836404072376d, 0x2044fc63c3cd179a)
    ∷ (0xaf492e5b5b8d1062, 0xcca38cd5af18dc9f)
    ∷ (0x2b574b7a7a7e28f5, 0x3d359de22b3c1553)
    ∷ (0x863b5ac0c09659b7, 0x60ccc7a58694396d)
    ∷ (0xa7ddd25959da57e2, 0xcd0852d8a79d9a5e)
    ∷ (0xb159a8bdbddb7a41, 0xbf7394b7b147c53f)
    ∷ (0xb28f69cdcd6dca71, 0x8704296cb2af4d2f)
    ∷ (0x5b83ea6666b204f9, 0x335823a45b063757)
    ∷ (0x4645adf0f052deea, 0x78ff861d46b1a6e7)
    ∷ (0xd3430d4444dcb9ae, 0x22d18379d3049bdb)
    ∷ (0x9fb7635757bc41e4, 0xcadf0dfb9f808b5c)
    ∷ (0xfdadc6aeaebb820b, 0x577d1a35fdc3d5b8)
    ∷ (0xd4dfb23535a0cbde, 0xfb125145d44f304a)
    ∷ (0x0f084373732b35f0, 0xd8680c310fceed50)
    ∷ (0x9c61a227270af1d4, 0xf2a8b0209c68034c)
    ∷ (0x2f1d357b7bb4eab5, 0xdc81f2052f9f36d2)
    ∷ (0x9bfd1d56567683a4, 0x2b6b621c9b23a8dd)
    ∷ (0x43fc2d60604bcdba, 0x306682b3434afdd7)
    ∷ (0xef63c24b4b706de8, 0xc4b2b3bdefbaa958)
    ∷ (0xd9f2cea7a7ee9f0e, 0xb2208be6d9312dbb)
    ∷ (0x79b3a38f8f48ba9c, 0xa6eb0b0279e71c74)
    ∷ (0xb6c517cccca70831, 0x66b0468bb60c6eae)
    ∷ (0x5317166464e54379, 0x32f3fda953837196)
    ∷ (0x7fdce26f6fe719fc, 0xd605b2777ff4cf54)
    ∷ (0xc18d09a1a117564d, 0xb11e2af1c17de73b)
    ∷ (0xf080ba3c3cf5d6db, 0x1e4fc096f0bdc849)
    ∷ (0x23c3b77878296f75, 0x3c9e43ef23b95392)
    ∷ (0xe7f73e4949272a68, 0xc5196db0e73fef99)
    ∷ (0x25acf6989886cc15, 0x4c70fa9a25aa80b2)
    ∷ (0x5e3a6af6f6ab17a9, 0x7bc1270a5efd6c67)
    ∷ (0xb513d6bcbc11b801, 0x5ec7fb50b5e4e6be)
    ∷ (0x1e1086e6e6566a23, 0x73d018621e5f19a0)
    ∷ (0xa26452c9c9c344b2, 0x85915676a266c16e)
    ∷ (0xdf9d8f4747413c6e, 0xc2ce3293df22fe9b)
    ∷ (0xa62e2cc8c80986f2, 0x64253991a6c5e2ef)
    ∷ (0xfe7b07dede0d323b, 0x6f0aa7eefe2b5da8)
    ∷ (0xac9fef2b2b3ba052, 0xf4d4310eacf0548f)
    ∷ (0x223049e9e9fabe65, 0x95b328a622e12b23)
    ∷ (0xf9e7b8afaf71404b, 0xb6c975d2f960f639)
    ∷ (0xe24ebed9d93e3938, 0x8d80691ee2c4b4a9)
    ∷ (0x4a9b2ff3f3cf5b2a, 0x98e037f74a97c3a7)
    ∷ (0xbc74d42f2f952e91, 0xf6414e14bc39d8ce)
    ∷ (0x3547cd9c9c2842d6, 0x4ee5858035630cf3)
    ∷ (0xcacf34d3d3f6a1fd, 0x88c24927ca1029ea)
    ∷ (0xee903cdadaa3bcf8, 0x6d9fd8f4eee2d1e9)
    ∷ (0x78405d1e1e9b6b8c, 0x0fc6604b78bf64c5)
    ∷ (0x05b9809090191350, 0x489904ae05fb5b30)
    ∷ (0x6b7da76a6a83557f, 0x3524a28a6b9e6094)
    ∷ (0x5132298585802259, 0xa3a92b3b51338137)
    ∷ (0xe1987fa9a9888908, 0xb5f7d4c5e12c3cb9)
    ∷ (0x59a6d58787d765d9, 0xa202f53659b6c7f6)
    ∷ (0xa397ac58581095a2, 0x2cbc3d3fa33eb9df)
    ∷ (0xf2a585dddd90b7fb, 0x8f151604f20d38e8)
    ∷ (0x71275f8d8d1ffd1c, 0xa740d50f71625ab5)
    ∷ (0x56ae96f4f4fc5029, 0x7a6af90756782aa6)
    ∷ (0x1118c595957d5fd3, 0xabb814531191f4f0)
    ∷ (0x6a8e59fbfb50846f, 0x9c09c9c36ac61825)
    ∷ (0x893319b3b3bd6c47, 0xb8a4cb94895ad43d)
    ∷ (0x94f55e25255db654, 0xf3036e2d94ed458d)
    ∷ (0x65861a88887bb19f, 0x4461c5f26508f575)
    ∷ (0x8c8a992323a47f17, 0xf03dcf3a8ca18f0d)
    ∷ (0xbbe86b5e5ee95ce1, 0x2f829c28bb72735f)
    ∷ (0x77481e6d6db05e7c, 0xd7ae6c7a77718995)
    ∷ (0x3c20cf0f0facd446, 0xe66330c43cbe3283)
    ∷ (0x7b969c6e6e2ddbbc, 0x37b1dd907b57ecd5)
    ∷ (0x28818a0a0ac898c5, 0x0542203928d49d43)
    ∷ (0xab03505a5a47d222, 0x2d17e332abbbff1e)
    ∷ (0xd2b0f3d5d50f68be, 0x8bfce830d25ce36a)
    ∷ (0x310db39d9de28096, 0xaf51ea6731c02f72)
    ∷ (0xde6e71d6d692ed7e, 0x6be359dade7a862a)
    ∷ (0xc4348931310e451d, 0xf9872e5fc486bc0b)
    ∷ (0x5fc994676778c6b9, 0xd2ec4c435fa514d6)
    ∷ (0xcca075333359029d, 0xf82cf052cc03faca)
    ∷ (0xcf76b44343efb2ad, 0xc05b4d89cfeb72da)
    ∷ (0x76bbe0fcfc638f6c, 0x7e8307337629f124)
    ∷ (0x2ccbf40b0b025a85, 0xe4f64fde2c77bec2)
    ∷ (0xb83eaa2e2e5fecd1, 0x17f521f3b89afb4f)
    ∷ (0xd8013036363d4e1e, 0x1b0de0afd869550a)
    ∷ (0x2eeecbeaea673ba5, 0x75ac994c2ec74e63)
    ∷ (0x36910cecec9ef2e6, 0x7692385b368b84e3)
    ∷ (0xdbd7f146468bfe2e, 0x237a5d74db81dd1a)
    ∷ (0x6958988b8be6345f, 0xa47e7418692e9035)
    ∷ (0xb37c975c5cbe1b61, 0x2e294225b3f7359e)
    ∷ (0x14a1450505644c83, 0xe32110fd146aafc0)
    ∷ (0x9506a0b4b48e6744, 0x5a2e056495b53d3c)
    ∷ (0xbe51ebcecef04fb1, 0x671b9886be89286f)
    ∷ (0x621aa5f9f907c3ef, 0x9da217ce62435ee4)
    ∷ (0xa1b293b9b975f482, 0xbde6ebada18e497e)
    ∷ (0x3bbc707e7ed0a636, 0x3fa0e2f83bf59912)
    ∷ (0x16847ae4e4012da3, 0x727bc66f16da5f61)
    ∷ (0x6650dbf8f8cd01af, 0x7c16782966e07d65)
    ∷ (0xe90c83ababdfce88, 0xb45c0ac8e9a97a78)
    ∷ (0x5c1f551717ce7689, 0xea9bf1985c4d9cc6)
    ∷ (0x6ce1181b1bff270f, 0xece770b66cd5cb05)
    ∷ (0x6d12e68a8a2cf61f, 0x45ca1bff6d8db3b4)
    ∷ (0xad6c11babae87142, 0x5df95a47ada82c3e)
    ∷ (0x3762f27d7d4d23f6, 0xdfbf531237d3fc52)
    ∷ (0x61cc648989b173df, 0xa5d5aa1561abd6f4)
    ∷ (0x4b68d162621c8a3a, 0x31cd5cbe4bcfbb16)
    ∷ (0xb9cd54bfbf8c3dc1, 0xbed84abab9c283fe)
    ∷ (0xe3bd404848ede828, 0x24ad0257e39ccc18)
    ∷ (0xba1b95cfcf3a8df1, 0x86aff761ba2a0bee)
    ∷ (0xf17344adad2607cb, 0xb762abdff1e5b0f8)
    ∷ (0xa0416d2828a62592, 0x14cb80e4a0d631cf)
    ∷ (0x85ed9bb0b020e987, 0x58bb7a7e857cb17d)
    ∷ (0x8382da50508f4ae7, 0x2855c30b836f625d)
    ∷ (0xda240fd7d7582f3e, 0x8a57363ddad9a5ab)
    ∷ (0x47b6536161810ffa, 0xd1d2ed5447e9de56)
    ∷ (0xc5c777a0a0dd940d, 0x50aa4516c5dec4ba)
    ∷ (0xb0aa562c2c08ab51, 0x165efffeb01fbd8e)
    ∷ (0x33288c7c7c87e1b6, 0x3e0b3cf53370dfd3)
    ∷ (0xfa3179dfdfc7f07b, 0x8ebec809fa887e29)
    ∷ (0x96d061c4c438d774, 0x6259b8bf965db52c)
    ∷ (0x6f37d96b6b49973f, 0xd490cd6d6f3d4315)
    ∷ (0x6ec427fafa9a462f, 0x7dbda6246e653ba4)
    ∷ (0xc25bc8d1d1a1e67d, 0x8969972ac2956f2b)
    ∷ (0xf6effbdcdc5a75bb, 0x6ea179e3f6ae1b69)
    ∷ (0x50c1d7141453f349, 0x0a844072506bf986)
    ∷ (0xff88f94f4fdee32b, 0xc627cca7ff732519)
    ∷ (0x5decab86861da799, 0x43b69ad15d15e477)
    ∷ (0xa9266fbbbb22b302, 0xbc4d35a0a90b0fbf)
    ∷ (0x8eafa6c2c2c11e37, 0x616719a88e117fac)
    ∷ (0x1777847575d2fcb3, 0xdb56ad26178227d0)
    ∷ (0x1ba90676764f7973, 0x3b491ccc1ba44290)
    ∷ (0x97239f5555eb0664, 0xcb74d3f69705cd9d)
    ∷ (0x7df9dd8e8e8278dc, 0x475f64e57d443ff5)
    ∷ (0xecb5033b3bc6ddd8, 0xfcc50e66ec522148)
    ∷ (0x58552b161604b4c9, 0x0b2f9e7f58eebf47)
    ∷ (0xf71c054d4d89a4ab, 0xc78c12aaf7f663d8)
    ∷ (0x1fe378777785bb33, 0xdafd732b1f076111)
    ∷ (0xfbc2874e4e14216b, 0x2793a340fbd00698)
    ∷ (0x7c0a231f1f51a9cc, 0xee720fac7c1c4744)
    ∷ (0x0967029393849690, 0xa886b54409dd3e70)
    ∷ (0x0d2d7c92924e54d0, 0x4932daa30d7e1df1)
    ∷ (0x7a6562fffffe0aac, 0x9e9cb6d97a0f9464)
    ∷ (0x67a32569691ed0bf, 0xd53b136067b805d4)
    ∷ (0x45936c8080e46eda, 0x40883bc645592ef7)
    ∷ (0x87c8a451514588a7, 0xc9e1acec87cc41dc)
    ∷ (0xdc4b4e3737f78c5e, 0xfab98f48dcca768b)
    ∷ (0xe8ff7d3a3a0c1f98, 0x1d716181e8f102c9)
    ∷ (0x4f22af6363d6487a, 0xd07933594f6c9897)
    ∷ (0x1dc6479696e0da13, 0x4ba7a5b91db791b0)
    ∷ (0x4ed151f2f205996a, 0x795458104e34e026)
    ∷ (0x044a7e0101cac240, 0xe1b46fe704a32381)
    ∷ (0xeb29bc4a4abaafa8, 0x2506dc5aeb198ad9)
    ∷ (0xf814463e3ea2915b, 0x1fe41e9bf8388e88)
    ∷ (0xf3567b4c4c4366eb, 0x26387d4df3554059)
    ∷ (0x3e05f0eeeec9b566, 0x7739e6563e0ec222)
    ∷ (0x3dd3319e9e7f0556, 0x4f4e5b8d3de64a32)
    ∷ (0xbd872abebe46ff81, 0x5f6c255dbd61a07f)
    ∷ (0x8ae5d8c3c30bdc77, 0x80d3764f8ab25c2d)
    ∷ (0x88c0e722226ebd57, 0x1189a0dd8802ac8c)
    ∷ (0xddb8b0a6a6245d4e, 0x5394e401dd920e3a)
    ∷ (0xcd538ba2a28ad38d, 0x51019b1bcd5b827b)
    ∷ (0x0b423d7272e1f7b0, 0x39dc63d60b6dced1)
    ∷ (0x133dfa7474183ef3, 0x3ae2c2c113210451)
    ∷ (0x982bdc2626c03394, 0x131cdfc798cb20cd)
    ∷ (0x02253fe1e1656120, 0x915ad69202b0f0a1)
    ∷ (0x9369e1545421c424, 0x2ac0bc1193a6ee1c)
    ∷ (0x80541b202039fad7, 0x10227ed08087ea4d)
    ∷ (0x90bf202424977414, 0x12b701ca904e660c)
    ∷ (0xd095cc34346a099e, 0x1aa63ea2d0ec13cb)
    ∷ (0x245f080909551d05, 0xe55d91d324f2f803)
    ∷ (0x34b4330d0dfb93c6, 0xe7c8eec9343b7442)
    ∷ (0xcb3cca42422570ed, 0x21ef226ecb48515b)
    ∷ (0xed46fdaaaa150cc8, 0x55e8652fed0a59f9)
    ∷ (0xf4cac43d3d3f149b, 0xfffbaf71f41eebc8)
    ∷ (0xce854ad2d23c63bd, 0x697626c0ceb30a6b)
    ∷ (0x99d822b7b713e284, 0xba31b48e9993587c)
    ∷ (0x10eb3b0404ae8ec3, 0x02957f1a10c98c41)
    ∷ (0x446092111137bfca, 0xe9a5508f44015646)
    ∷ (0x402aec1010fd7d8a, 0x08113f6840a275c7)
    ∷ (0x929a1fc5c5f21534, 0x83edd75892fe96ad)
    ∷ (0x3a4f8eefef037726, 0x968d89b13aade1a3)
    ∷ (0x01f3fe9191d3d110, 0xa92d6b49015878b1)
    ∷ (0x267a37e8e8307c25, 0x74074741264208a2)
    ∷ (0x12ce04e5e5cbefe3, 0x93cfa98812797ce0)
    ∷ (0x1a5af8e7e79ca863, 0x926477851afc3a21)
    ∷ (0x48be101212aa3a0a, 0x09bae16548273306)
    ∷ (0x68ab661a1a35e54f, 0x0d531f516876e884)
    ∷ (0xf5393aacacecc58b, 0x56d6c438f5469379)
    ∷ (0x81a7e5b1b1ea2bc7, 0xb90f159981df92fc)
    ∷ (0x8b16265252d80d67, 0x29fe1d068bea249c)
    ∷ (0xc7e2484141b8f52d, 0xc1f09384c76e341b)
    ∷ (0xd6fa8dd4d4c5aafe, 0x6a4887d7d6ffc0eb)
    ∷ (0x20157608089fdf45, 0x04e9fe342051db82)
    ∷ (0x0ab1c3e3e33226a0, 0x90f1089f0a35b660)
    ∷ (0x0894fc0202574780, 0x01abde0d088546c1)
    ∷ (0x0000000000000000, 0x0000000000000000)
    ∷ (0x4cf46e131360f84a, 0xe80e8e824c841087)
    ∷ (0xd709734545167bee, 0xc365ec9ed7a7b85a)
    ∷ (0x749edf1d1d06ee4c, 0xefd9d1a174990185)
    ∷ []
