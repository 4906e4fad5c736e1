-- ===== src/Kuznyechik/Tables/T13.antt =====
-- internal/kuznyechik/tables.go: `t[13]`, 256 entries of two words.
use kubebao.Common.{ℕ, List, [], ◌∷◌}

unfoldable pub t_row13 : List (ℕ × ℕ)
t_row13 =
    (0xe1133bc96d2d1a79, 0x36b7807580805879)
    ∷ (0x50b11ffec6cb5891, 0x33891a1d1a1ad691)
    ∷ (0xc2337988bcd20999, 0x9c07dc3bdcdce999)
    ∷ (0xcf7e229397b68eb9, 0x657a42a3424215b9)
    ∷ (0x73915dbf17344b71, 0x9939465346466771)
    ∷ (0x7463dccb5471c7ea, 0x5efc4a804a4af1ea)
    ∷ (0xc6ab620f5279d9d7, 0xeff6561556566cd7)
    ∷ (0x19f02cc5fb269195, 0x85ce790e79792895)
    ∷ (0x379d359f01bd0555, 0xd603bbd8bbbb6555)
    ∷ (0x9ee94b3c8b27e2da, 0x3a5e9b549b9b73da)
    ∷ (0x1d683742158d41db, 0xf63ff320f3f3addb)
    ∷ (0x14bd77ded04216b5, 0x7cb3e796e7e7d4b5)
    ∷ (0x77094638f99f9b3f, 0xeac8cc7dcccce23f)
    ∷ (0xb41c49e19f17a654, 0x1a62d3acd3d3bb54)
    ∷ (0xa85208f250c0d37d, 0x80f0e366e3e3a67d)
    ∷ (0x036a9af3adee5cd5, 0xb43486fd868613d5)
    ∷ (0x863f11a8aa5b47bd, 0xd33d21b02121ebbd)
    ∷ (0x28b9ee7f63842ca9, 0xf8a50def0d0d6ba9)
    ∷ (0xdae5231c9daeacfe, 0x756466df666671fe)
    ∷ (0x3e487503c472523b, 0x5c8faf6eafaf1c3b)
    ∷ (0xbf85e5df2d6c991d, 0x4877820d8282611d)
    ∷ (0x660a5c301d2c6936, 0x8927622f62620336)
    ∷ (0x7808f181a54f7438, 0xcb2c17f21717bd38)
    ∷ (0x0f01b7b95cd0ef07, 0x21e4db8fdbdb5f07)
    ∷ (0x33052e18ef16d51b, 0xa5f231f63131e01b)
    ∷ (0x10256c593ee9c6fb, 0x0f426db86d6d51fb)
    ∷ (0xf01021c1899ee870, 0x55582e272e2eb970)
    ∷ (0x25f4b56448e0ab89, 0x01d8937793939789)
    ∷ (0x4dd928bcd346194a, 0xc5b6e93de9e97b4a)
    ∷ (0x27b859c63f54c3ae, 0xd941d660d6d634ae)
    ∷ (0xb2c8bec406081e3d, 0xb10a1c951c1c9d3d)
    ∷ (0x1c4e4113cfd77529, 0x9a9230ca30301d29)
    ∷ (0x63b431e629dd8d8a, 0x967b2beb2b2b368a)
    ∷ (0x762f306923c5afcd, 0x86650f970f0f52cd)
    ∷ (0x991bca48c8626e41, 0xfd9b97879797e541)
    ∷ (0x306fb4eb42f889ce, 0x11c6b70bb7b7f3ce)
    ∷ (0x6b47072b3648ee16, 0x705afcb7fcfcff16)
    ∷ (0xcc14b8603a58d26c, 0xd14ec45ec4c4066c)
    ∷ (0x7a441d23d2fb1c1f, 0x13b552e552521e1f)
    ∷ (0x23204241d1ff13e0, 0xaab05c4e5c5cb1e0)
    ∷ (0x0e27c1e8868adbf5, 0x4d4918651818eff5)
    ∷ (0xde7d389b73057cb0, 0x0695ecf1ececf4b0)
    ∷ (0xd7a87807b6ca2bde, 0x8c19f847f8f88dde)
    ∷ (0x46408482613d2603, 0x97a3b89cb8b8a103)
    ∷ (0xc9aad5b60ea936d0, 0xce128d9a8d8d33d0)
    ∷ (0x2af502dd1430448e, 0x203c48f84848c88e)
    ∷ (0x4b0ddf994a59a123, 0x6ede260426265d23)
    ∷ (0x57439e8a858ed40a, 0xf44c16ce1616400a)
    ∷ (0x82a70a2f44f097f3, 0xa0ccab9eabab6ef3)
    ∷ (0x8c80cbc7c27a4c06, 0xed85b3fbb3b38106)
    ∷ (0x54290479286088df, 0x40789033909053df)
    ∷ (0x42d89f058f96f64d, 0xe45232b23232244d)
    ∷ (0x41b205f62278aa98, 0x5066b44fb4b43798)
    ∷ (0xdc31d43904b11497, 0xde0ca9e6a9a95797)
    ∷ (0x61f8dd445e69e5ad, 0x4ee26efc6e6e95ad)
    ∷ (0x2d0783a95775c815, 0xe7f9442b44445e15)
    ∷ (0xfc7b0c8b78a05ba2, 0xc08873557373f5a2)
    ∷ (0xed7816839c13a9ab, 0xa367dd07dddd14ab)
    ∷ (0x2e6d195afa9b94c0, 0x53cdc2d6c2c24dc0)
    ∷ (0x52fdf35cb17f30b6, 0xeb105f0a5f5f75b6)
    ∷ (0xbb1dfe58c3c74953, 0x3b8608230808e453)
    ∷ (0x7b626b7208a128ed, 0x7f18910f9191aeed)
    ∷ (0xadec6524643137c1, 0x9facaaa2aaaa93c1)
    ∷ (0xa0a13e3f4f55b0e1, 0x66d1343a34346fe1)
    ∷ (0xd21615d1823bcf62, 0x9345b183b1b1b862)
    ∷ (0x440c682016894e24, 0x4f3afd8bfdfd0224)
    ∷ (0x32235849354ce1e9, 0xc95ff21cf2f250e9)
    ∷ (0xdd17a268deeb2065, 0xb2a16a0c6a6ae765)
    ∷ (0xf8e3170c960b8bec, 0xb379f97bf9f970ec)
    ∷ (0xa51f53e97ba4545d, 0x798d7dfe7d7d5a5d)
    ∷ (0x81cd90dce91ecb26, 0x14f82d632d2d7d26)
    ∷ (0xc07f952acb6661be, 0x449e992c99994abe)
    ∷ (0x8ecc2765b5ce2421, 0x351cf6ecf6f62221)
    ∷ (0xce5854c24decba4b, 0x09d781498181a54b)
    ∷ (0x8818d0402cd19c48, 0x9e7439d539390448)
    ∷ (0x792e87d07f1540ca, 0xa781d418d4d40dca)
    ∷ (0xcbe63914791d5ef7, 0x168bc88dc8c890f7)
    ∷ (0x2bd3748cce6a707c, 0x4c918b128b8b787c)
    ∷ (0x59645f6203040fff, 0xb9050eab0e0eafff)
    ∷ (0x0d4d5b1b2b648720, 0xf97d9e989e9efc20)
    ∷ (0x4a2ba9c8900395d1, 0x0273e5eee5e5edd1)
    ∷ (0xfe37e0290f143385, 0x1811364236365685)
    ∷ (0x6fdf1cacd8e33e58, 0x03ab769976767a58)
    ∷ (0x0b99ac3eb27b3f49, 0x521551a15151da49)
    ∷ (0x93a41027a04365fa, 0xc32305cc05058ffa)
    ∷ (0x3bf618d5f083b687, 0x43d3e6aae6e62987)
    ∷ (0x024ceca277b46827, 0xd89945174545a327)
    ∷ (0xb1a22437abe642e8, 0x053e9a689a9a8ee8)
    ∷ (0x8da6bd96182078f4, 0x81287011707031f4)
    ∷ (0xaa1ee4502774bb5a, 0x5869a671a6a6055a)
    ∷ (0x9b5726eabfd60666, 0x2502d290d2d24666)
    ∷ (0xc4e78ead25cdb1f0, 0x376f13021313cff0)
    ∷ (0xfaaffbaee1bfe3cb, 0x6be0bc6cbcbcd3cb)
    ∷ (0x1e02adb1b8631d0e, 0x420b75dd7575be0e)
    ∷ (0xe6e1babd2e6896e2, 0xf1728ca68c8ccee2)
    ∷ (0xf25ccd63fe2a8057, 0x8dc16b306b6b1a57)
    ∷ (0x672c2a61c7765dc4, 0xe58aa1c5a1a1b3c4)
    ∷ (0x07f2817443458c9b, 0xc7c50cd30c0c969b)
    ∷ (0x3d22eff0699c0eee, 0xe8bb299329290fee)
    ∷ (0xb084526671bc761a, 0x6993598259593e1a)
    ∷ (0xe58b204e8386ca37, 0x45460a5b0a0add37)
    ∷ (0x134ff6aa93079a2e, 0xbb76eb45ebeb422e)
    ∷ (0x06d4f725991fb869, 0xab68cf39cfcf2669)
    ∷ (0xe0354d98b7772e8b, 0x5a1a439f4343e88b)
    ∷ (0xa43925b8a1fe60af, 0x1520be14bebeeaaf)
    ∷ (0xebace1a6050c11c2, 0x080f123e121232c2)
    ∷ (0x6d93f00eaf57567f, 0xdb32338e3333d97f)
    ∷ (0x5e96de1640418364, 0x7ec0027802023964)
    ∷ (0xd05af973f58fa745, 0x4bdcf494f4f41b45)
    ∷ (0xae86ffd7c9df6b14, 0x2b982c5f2c2c8014)
    ∷ (0x9ca5a79efc938afd, 0xe2c7de43deded0fd)
    ∷ (0xe279a13ac0c346ac, 0x8283068806064bac)
    ∷ (0xb87764ab6e291586, 0x8fb28ede8e8ef786)
    ∷ (0x7c90ea064be4a476, 0xb8dd9ddc9d9d3876)
    ∷ (0x5cda32b437f5eb43, 0xa659476f47479a43)
    ∷ (0xfd5d7adaa2fa6f50, 0xac25b0bfb0b04550)
    ∷ (0x9fcf3d6d517dd628, 0x56f358be5858c328)
    ∷ (0x6ef96afd02b90aaa, 0x6f06b573b5b5caaa)
    ∷ (0xe35fd76b1a99725e, 0xee2ec562c5c5fb5e)
    ∷ (0x91e8fc85d7f70ddd, 0x1bba40db40402cdd)
    ∷ (0x0abfda6f68210bbb, 0x3eb8924b92926abb)
    ∷ (0x5fb0a8479a1bb796, 0x126dc192c1c18996)
    ∷ (0xcac04f45a3476a05, 0x7a260b670b0b2005)
    ∷ (0x24d2c33592ba9f7b, 0x6d75509d5050277b)
    ∷ (0x4867456ae7b7fdf6, 0xdaeaa0f9a0a04ef6)
    ∷ (0xd98fb9ef3040f02b, 0xc150e022e0e0622b)
    ∷ (0x11031a08e4b3f209, 0x63efae52aeaee109)
    ∷ (0x216caee3a64b7bc7, 0x72291959191912c7)
    ∷ (0x961a7df194b28146, 0xdc7f4c084c4cba46)
    ∷ (0x58422933d95e3b0d, 0xd5a8cd41cdcd1f0d)
    ∷ (0xa187486e950f8413, 0x0a7cf7d0f7f7df13)
    ∷ (0x94569153e306e961, 0x04e6091f09091961)
    ∷ (0x83817c7e9eaaa301, 0xcc6168746868de01)
    ∷ (0xbea3938ef736adef, 0x24da41e74141d1ef)
    ∷ (0x6cb5865f750d628d, 0xb79ff064f0f0698d)
    ∷ (0x8fea51346f9410d3, 0x59b13506353592d3)
    ∷ (0x05be6dd634f1e4bc, 0x1f5c49c4494935bc)
    ∷ (0x4766f2d3bb6712f1, 0xfb0e7b767b7b11f1)
    ∷ (0x2f4b6f0b20c1a032, 0x3f60013c0101fd32)
    ∷ (0x269e2f97e50ef75c, 0xb5ec158a1515845c)
    ∷ (0xc5c1f8fcff978502, 0x5bc2d0e8d0d07f02)
    ∷ (0x5dfc44e5edafdfb1, 0xcaf4848584842ab1)
    ∷ (0x71ddb11d60802356, 0x41a003440303c456)
    ∷ (0x7edc06a43c50cc51, 0x6044d8cbd8d89b51)
    ∷ (0x3f6e03521e2866c9, 0x30226c846c6cacc9)
    ∷ (0x452a1e71ccd37ad6, 0x23973e613e3eb2d6)
    ∷ (0x04981b87eeabd04e, 0x73f18a2e8a8a854e)
    ∷ (0xbcef7f2c8082c5c8, 0xfc4304f0040472c8)
    ∷ (0x39baf4778737dea0, 0x9b4aa3bda3a38aa0)
    ∷ (0x690beb8941fc8631, 0xa8c3b9a0b9b95c31)
    ∷ (0xc88ca3e7d4f30222, 0xa2bf4e704e4e8322)
    ∷ (0xf37abb322470b4a5, 0xe16ca8daa8a8aaa5)
    ∷ (0xe8c67b55a8e24d17, 0xbc3b94c394942117)
    ∷ (0xacca1375be6b0333, 0xf301694869692333)
    ∷ (0x9a7150bb658c3294, 0x49af117a1111f694)
    ∷ (0xf7e2a0b5cadb64eb, 0x929d22f422222feb)
    ∷ (0x7db69c5791be9084, 0xd4705e365e5e8884)
    ∷ (0x928266767a195108, 0xaf8ec626c6c63f08)
    ∷ (0xc78d145e8823ed25, 0x835b95ff9595dc25)
    ∷ (0xd5e494a5c17e43f9, 0x5480bd50bdbd2ef9)
    ∷ (0xfb898dff3be5d739, 0x074d7f867f7f6339)
    ∷ (0x17d7ed2d7dac4a60, 0xc887616b6161c760)
    ∷ (0x1bbcc0678c92f9b2, 0x5d573c193c3c8bb2)
    ∷ (0x80ebe68d3344ffd4, 0x7855ee89eeeecdd4)
    ∷ (0x8a543ce25b65f46f, 0x46ed7cc27c7ca76f)
    ∷ (0x0000000000000000, 0x0000000000000000)
    ∷ (0x4f95c41ea4f2716d, 0x1d2fac2aacacd86d)
    ∷ (0xba3b8809199d7da1, 0x572bcbc9cbcb54a1)
    ∷ (0x220634100ba52712, 0xc61d9fa49f9f0112)
    ∷ (0x5b28b3c074b067d8, 0x619c4bbc4b4b0cd8)
    ∷ (0x7ffa70f5e60af8a3, 0x0ce91b211b1b2ba3)
    ∷ (0x70fbc74cbada17a4, 0x2d0dc0aec0c074a4)
    ∷ (0xb3eec895dc522acf, 0xdda7df7fdfdf2dcf)
    ∷ (0x8473fd0addef2f9a, 0x0ba464a76464489a)
    ∷ (0xf5ae4c17bd6f0ccc, 0x4a0467e367678ccc)
    ∷ (0x389c82265d6dea52, 0xf7e7605760603a52)
    ∷ (0x3c0499a1b3c63a1c, 0x8416ea79eaeabf1c)
    ∷ (0x90ce8ad40dad392f, 0x7717833183839c2f)
    ∷ (0xee128c7031fdf57e, 0x17535bfa5b5b077e)
    ∷ (0x9570e702395cdd93, 0x684bcaf5cacaa993)
    ∷ (0xdf5b4ecaa95f4842, 0x6a382f1b2f2f4442)
    ∷ (0x983dbc1912385ab3, 0x9136546d545455b3)
    ∷ (0x7545aa9a8e2bf318, 0x3251896a89894118)
    ∷ (0x4cff5eed091c2db8, 0xa91b2ad72a2acbb8)
    ∷ (0x1f24dbe0623929fc, 0x2ea6b637b6b60efc)
    ∷ (0x53db850d6b250444, 0x87bd9ce09c9cc544)
    ∷ (0xafa0898613855fe6, 0x4735efb5efef30e6)
    ∷ (0xef34fa21eba7c18c, 0x7bfe98109898b78c)
    ∷ (0xa2edd29d38e1d8c6, 0xbe48712d7171ccc6)
    ∷ (0x519769af1c916c63, 0x5f24d9f7d9d96663)
    ∷ (0x43fee95455ccc2bf, 0x88fff158f1f194bf)
    ∷ (0x01267651da5a34f2, 0x6cadc3eac3c3b0f2)
    ∷ (0xd68e0e566c901f2c, 0xe0b43bad3b3b3d2c)
    ∷ (0x6446b0926a980111, 0x51be27382727a011)
    ∷ (0xb650a543e8a3ce73, 0xc2fb96bb96961873)
    ∷ (0x126980fb495daedc, 0xd7db28af2828f2dc)
    ∷ (0xd8a9cfbeea1ac4d9, 0xadfd23c82323d2d9)
    ∷ (0x16f19b7ca7f67e92, 0xa42aa281a2a27792)
    ∷ (0xf4883a466735383e, 0x26a9a409a4a43c3e)
    ∷ (0x0c6b2d4af13eb3d2, 0x95d05d725d5d4cd2)
    ∷ (0xec5e60d246499d59, 0xcfca1eed1e1ea459)
    ∷ (0x3ad06e842ad98275, 0x2f7e254025259975)
    ∷ (0xf6c4d6e410815019, 0xfe30e11ee1e19f19)
    ∷ (0x973c0ba04ee8b5b4, 0xb0d28fe28f8f0ab4)
    ∷ (0xb776d31232f9fa81, 0xae5655515555a881)
    ∷ (0x6a61717aec12dae4, 0x1cf73f5d3f3f4fe4)
    ∷ (0xe9e00d0472b879e5, 0xd0965729575791e5)
    ∷ (0x9d83d1cf26c9be0f, 0x8e6a1da91d1d600f)
    ∷ (0x159b018f0a182247, 0x101e247c24246447)
    ∷ (0x08f336cd1f95639c, 0xe621d75cd7d7c99c)
    ∷ (0x5a0ec591aeea532a, 0x0d3188568888bc2a)
    ∷ (0xab389201fd2e8fa8, 0x34c4659b6565b5a8)
    ∷ (0x299f982eb9de185b, 0x9408ce05cecedb5b)
    ∷ (0xa9747ea38a9ae78f, 0xec5d208c2020168f)
    ∷ (0x4941333b3dedc904, 0xb64763136363fe04)
    ∷ (0xb53a3fb0454d92a6, 0x76cf104610100ba6)
    ∷ (0x35d1d93d76096d72, 0x0e9afecffefec672)
    ∷ (0x893ea611f68ba8ba, 0xf2d9fa3ffafab4ba)
    ∷ (0xea8a97f7df562530, 0x64a2d1d4d1d18230)
    ∷ (0xc159e37b113c554c, 0x28335ac65a5afa4c)
    ∷ (0xf136579053c4dc82, 0x39f5edcdeded0982)
    ∷ (0x409473a7f8229e6a, 0x3ccb77a57777876a)
    ∷ (0xa675c91ad64a0888, 0xcdb9fb03fbfb4988)
    ∷ (0x3149c2ba98a2bd3c, 0x7d6b74e17474433c)
    ∷ (0x09d5409cc5cf576e, 0x8a8c14b61414796e)
    ∷ (0xd4c2e2f41b24770b, 0x382d7eba7e7e9e0b)
    ∷ (0xcd32ce31e002e69e, 0xbde307b40707b69e)
    ∷ (0x85558b5b07b51b68, 0x6709a74da7a7f868)
    ∷ (0x18d65a94217ca567, 0xe963bae4baba9867)
    ∷ (0xe4ad561f59dcfec5, 0x29ebc9b1c9c96dc5)
    ∷ (0xb95112fab4732174, 0xe31f4d344d4d4774)
    ∷ (0x1a9ab63656c8cd40, 0x31fafff3ffff3b40)
    ∷ (0xdbc3554d47f4980c, 0x19c9a535a5a5c10c)
    ∷ (0x2c21f5f88d2ffce7, 0x8b5487c18787eee7)
    ∷ (0x8b724ab3813fc09d, 0x2a40bf28bfbf179d)
    ∷ (0xd33063805861fb90, 0xffe8726972720890)
    ∷ (0xa753bf4b0c103c7a, 0xa11438e93838f97a)
    ∷ (0xbdc9097d5ad8f13a, 0x90eec71ac7c7c23a)
    ∷ (0x204ad8b27c114f35, 0x1e84dab3dadaa235)
    ∷ (0xa3cba4cce2bbec34, 0xd2e5b2c7b2b27c34)
    ∷ (0x4eb3b24f7ea8459f, 0x71826fc06f6f689f)
    ∷ (0xd17c8f222fd593b7, 0x2771377e3737abb7)
    ∷ (0x5665e8db5fd4e0f8, 0x98e1d524d5d5f0f8)
    ∷ (0x871967f97001734f, 0xbf90e25ae2e25b4f)
    ∷ (0xc3150fd966883d6b, 0xf0aa1fd11f1f596b)
    ∷ (0x72b72beecd6e7f83, 0xf59485b98585d783)
    ∷ (0x60deab158433d15f, 0x224fad16adad255f)
    ∷ (0x36bb43cedbe731a7, 0xbaae78327878d5a7)
    ∷ (0xf9c5615d4c51bf1e, 0xdfd43a913a3ac01e)
    ∷ (0xe7c7ccecf432a210, 0x9ddf4f4c4f4f7e10)
    ∷ (0x682d9dd89ba6b2c3, 0xc46e7a4a7a7aecc3)
    ∷ (0x629247b7f387b978, 0xfad6e801e8e88678)
    ∷ (0x550f7228f23abc2d, 0x2cd553d95353e32d)
    ∷ (0xff119678d54e0777, 0x74bcf5a8f5f5e677)
    ∷ (0x6560c6c3b0c235e3, 0x3d13e4d2e4e410e3)
    ∷ (0x34f7af6cac535980, 0x62373d253d3d7680)
    ∷ []
