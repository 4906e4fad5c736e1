-- ===== src/Kuznyechik/Tables/T2.antt =====
-- internal/kuznyechik/tables.go: `t[2]`, 256 entries of two words.
use kubebao.Common.{ℕ, List, [], ◌∷◌}

unfoldable pub t_row2 : List (ℕ × ℕ)
t_row2 =
    (0xcd6118711b69f937, 0x5237cbafd6541969)
    ∷ (0x3b4adbd8f8038b93, 0x1c937d52c35a7b03)
    ∷ (0x571e87e44e6345db, 0x1adb0680194bc063)
    ∷ (0x248d3414d320fb38, 0x0238294ef70f6920)
    ∷ (0xa135444dad09377f, 0x547fb07d0c45a209)
    ∷ (0xed3ed4a62f72a0b6, 0xaeb6d828c29b3c72)
    ∷ (0xf09047ea96ad81a0, 0xcfa091b166ae08ad)
    ∷ (0x0d60f5c6a333ecb7, 0x1fb7a13baeb3c733)
    ∷ (0xe48cd9a36b7aeeb8, 0x4fb843da8fe8b77a)
    ∷ (0x4605df2e1df141c5, 0xbac501815bfd20f1)
    ∷ (0xaaee35c87bfd28cc, 0xcacc360ad1560ffd)
    ∷ (0x7ef346363e705254, 0x07548ef540f76e70)
    ∷ (0x06bb844375c7f304, 0x8104274c73a06ac7)
    ∷ (0x086733450d7687b1, 0x3fb1745105439876)
    ∷ (0xfb4b366f40599e13, 0x511317c6bbbda559)
    ∷ (0xeb8550e55ab553b2, 0x2fb2ff64b13b56b5)
    ∷ (0x12a71a0a88109c1c, 0x011cf5279ae6d510)
    ∷ (0xfc258c6c7ce0a4a8, 0x0ea8df29802ddce0)
    ∷ (0x03bc42c0db829802, 0xa102f226d8503582)
    ∷ (0x3091aa5d2ef79420, 0x8220fb251e49d6f7)
    ∷ (0x6e3d20bc249c9ff5, 0x79f566574a719d9c)
    ∷ (0x86043299a5ab5445, 0xf7456b15231afeab)
    ∷ (0xc76f57b484e32f3b, 0x123ba27b4377a7e3)
    ∷ (0xc1d4d3f7f124dc3f, 0x933f853730d7cd24)
    ∷ (0x430219adb3b42ac3, 0x9ac3d4ebf00d7fb4)
    ∷ (0xd97d8638e6be962f, 0xd22f19c43f12a6be)
    ∷ (0x4ddeaeabcb055e76, 0x247687f686ee8d05)
    ∷ (0x8fb63f9ce1a31a4b, 0x164bf0e76e6975a3)
    ∷ (0x91a4ee1083fea35f, 0xd65f4b58120c74fe)
    ∷ (0x3df15f9b8dc47897, 0x9d975a1eb0fa11c4)
    ∷ (0x1dae934cb9df2116, 0x61164999a43534df)
    ∷ (0xf32c052a4d2f19a2, 0x6ea26397befe3d2f)
    ∷ (0x7848c2754bb7a150, 0x8650a9b9335704b7)
    ∷ (0x5f79b4a14315c26a, 0x256a72d11c085815)
    ∷ (0x0a0e4fc59f8ad60c, 0x400c69d49523be8a)
    ∷ (0xa8874948e9017971, 0xb5712b8f41362901)
    ∷ (0xf597816938e8eaa6, 0xefa644dbcd5e57e8)
    ∷ (0xcf0864f18995a88a, 0x2d8ad62a46343f95)
    ∷ (0x752837b3e8844de7, 0x99e708829de4c384)
    ∷ (0x9a7f9f95550abcec, 0x48eccd2fcf1fd90a)
    ∷ (0x9816e315c7f6ed51, 0x3751d0aa5f7ffff6)
    ∷ (0xa43282ce034c5c79, 0x74796517a7b5fd4c)
    ∷ (0x702ff13046c126e1, 0xb9e1dde836149cc1)
    ∷ (0xf7fefde9aa14bb1b, 0x901b595e5d3e7114)
    ∷ (0x3144941d67895d9f, 0x5c9f14865679c589)
    ∷ (0x4e62ec6b1087c674, 0x857475d05ebeb887)
    ∷ (0x846d4e19375705f8, 0x88f87690b37ad857)
    ∷ (0x77414b337a781c5a, 0xe65a15070d84e578)
    ∷ (0xb529da0450de5867, 0xd4676216e5031dde)
    ∷ (0x2d3f39119728b536, 0xe336b2bcba7ce228)
    ∷ (0x9cc41bd620cd4fe8, 0xc9e8ea63bcbfb3cd)
    ∷ (0x50703de772da7f60, 0x4560ce6f22dbb9da)
    ∷ (0xbbf56d02286f2cd2, 0x6ad2310b93e0ef6f)
    ∷ (0x1675e2c96f2b3ea5, 0xffa5cfee7926992b)
    ∷ (0xca0fa27227d0c38c, 0x0d8c0340edc460d0)
    ∷ (0x02697c8092fc51bd, 0x7fbd1d85906026fc)
    ∷ (0x678f2db96094d1fb, 0x98fbfda507021694)
    ∷ (0xe7309b63b0f876ba, 0xeebab1fc57b882f8)
    ∷ (0xe9ec2c65c849020f, 0x500fe2e1215b7049)
    ∷ (0x890dbbdf9464e94f, 0x974fd7ab1dc91f64)
    ∷ (0xc9b3e0b2fc525b8e, 0xac8ef16635945552)
    ∷ (0x2cea0751de567c89, 0x3d895d1ff24cf156)
    ∷ (0x0507c683ae456b06, 0x2006d56aabf05f45)
    ∷ (0x769475733306d5e5, 0x38e5faa445b4f606)
    ∷ (0x8e6301dca8ddd3f4, 0xc8f41f44265966dd)
    ∷ (0x45b99deec673d9c7, 0x1bc7f3a783ad1573)
    ∷ (0x1ac0294f85661bad, 0x3ead81769fa54d66)
    ∷ (0x4fb7d22b59f90fcb, 0x5bcb9a73168eabf9)
    ∷ (0xc001edb7b85a1580, 0x4d806a9478e7de5a)
    ∷ (0x88d8859fdd1a20f0, 0x49f0380855f90c1a)
    ∷ (0x5eac8ae10a6b0bd5, 0xfbd59d7254384b6b)
    ∷ (0xe559e7e322042707, 0x9107ac79c7d8a404)
    ∷ (0x9f785916fb4fd7ea, 0x68ea184564ef864f)
    ∷ (0x7d4f04f6e5f2ca56, 0xa6567cd398a75bf2)
    ∷ (0x8ab1f91f4fe6714d, 0x364d258dc5992ae6)
    ∷ (0x9ead6756b2311e55, 0xb655f7e62cdf9531)
    ∷ (0x8303f41a0bee3f43, 0xd743be7f88eaa1ee)
    ∷ (0x17a0dc892655f71a, 0x211a204d31168a55)
    ∷ (0xef57a826bd8ef10b, 0xd10bc5ad52fb1a8e)
    ∷ (0x7393b3f09d43bee3, 0x18e32fceee44a943)
    ∷ (0xddaf7efb01853496, 0x2c96230ddcd2ea85)
    ∷ (0xd5c84dbe0cf3b327, 0x1327575cd99172f3)
    ∷ (0x52194167e0262edd, 0x3addd3eab2bb9f26)
    ∷ (0x665a13f929ea1844, 0x464412064f3205ea)
    ∷ (0x35966cde80b2ff26, 0xa2262e4fb5b989b2)
    ∷ (0xcedd5ab1c0eb6135, 0xf33539890e042ceb)
    ∷ (0xb24760076c6762dc, 0x8bdcaaf9de936467)
    ∷ (0xf62bc3a9e36a72a4, 0x4ea4b6fd150e626a)
    ∷ (0x74fd09f3a1fa8458, 0x4758e721d5d4d0fa)
    ∷ (0x490c56682c3efccf, 0xdacfbd3f652ec13e)
    ∷ (0xb8492fc2f3edb4d0, 0xcbd0c32d4bb0daed)
    ∷ (0x42d727edfacae37c, 0x447c3b48b83d6cca)
    ∷ (0x72468db0d43d775c, 0xc65cc06da674ba3d)
    ∷ (0x416b652d21487b7e, 0xe57ec96e606d5948)
    ∷ (0x816a889a99126efe, 0xa8fea3fa188a8712)
    ∷ (0xff99ceaca7623caa, 0xafaa2d0f587de962)
    ∷ (0xdfc6027b9379652b, 0x532b3e884cb2cc79)
    ∷ (0x4c0b90eb827b97c9, 0xfac96855cede9e7b)
    ∷ (0xdb14fab87442c792, 0xad920441af728042)
    ∷ (0xafe9f34bd5b843ca, 0xeacae3607aa650b8)
    ∷ (0x6aefd87fc3a73d4c, 0x874c5c9ea9b1d1a7)
    ∷ (0x32f8d6ddbc0bc59d, 0xfd9de6a08e29f00b)
    ∷ (0x15c9a009b4a9a6a7, 0x5ea73dc8a176aca9)
    ∷ (0x94a328932dbbc859, 0xf6599e32b9fc2bbb)
    ∷ (0xd11ab57debc8119e, 0xed9e6d953a513ec8)
    ∷ (0xf2f93b6a0451d01d, 0xb01d8c34f6ce2e51)
    ∷ (0xe05e21608c414c01, 0xb10179136c28fb41)
    ∷ (0xa35c38cd3ff566c2, 0x2bc2adf89c2584f5)
    ∷ (0x3c2461dbc4bab128, 0x4328b5bdf8ca02ba)
    ∷ (0xee829666f4f038b4, 0x0fb42a0e1acb09f0)
    ∷ (0xf442bf2971962319, 0x3119ab78856e4496)
    ∷ (0x26e4489441dcaa85, 0x7d8534cb676f4fdc)
    ∷ (0x2236b057a6e7083c, 0x833c0e0284af03e7)
    ∷ (0x60e197ba5c2deb40, 0xc740354a3c926f2d)
    ∷ (0x111b58ca5392041e, 0xa01e070142b6e092)
    ∷ (0x3e4d1d5b5646e095, 0x3c95a83868aa2446)
    ∷ (0x1fc7efcc2b2370ab, 0x1eab541c34551223)
    ∷ (0x0bdb7185d6f41fb3, 0x9eb38677dd13adf4)
    ∷ (0x7f267876770e9beb, 0xd9eb615608c77d0e)
    ∷ (0x87d10cd9ecd59dfa, 0x29fa84b66b2aedd5)
    ∷ (0x3f98231b1f38292a, 0xe22a479b209a3738)
    ∷ (0xfa9e082f092757ac, 0x8facf865f38db627)
    ∷ (0xdac1c4f83d3c0e2d, 0x732debe2e742933c)
    ∷ (0xd6740f7ed7712b25, 0xb225a57a01c14771)
    ∷ (0x6fe81efc6de2564a, 0xa74a89f402418ee2)
    ∷ (0xe83912258137cbb0, 0x8eb00d42696b6337)
    ∷ (0x80bfb6dad06ca741, 0x76414c5950ba946c)
    ∷ (0x2838ff92396dde30, 0xc33067d6118cbd6d)
    ∷ (0xcbda9c326eae0a33, 0xd333ece3a5f473ae)
    ∷ (0xb69598c48b5cc065, 0x756590303d53285c)
    ∷ (0x2f56459105d4e48b, 0x9c8baf392a1cc4d4)
    ∷ (0x799dfc3502c968ef, 0x58ef461a7b6717c9)
    ∷ (0xecebeae6660c6909, 0x7009378b8aab2f0c)
    ∷ (0x37ff105e124eae9b, 0xdd9b33ca25d9af4e)
    ∷ (0xb99c1182ba937d6f, 0x156f2c8e0380c993)
    ∷ (0xc6ba69f4cd9de684, 0xcc844dd80b47b49d)
    ∷ (0xfe4cf0ecee1cf515, 0x7115c2ac104dfa1c)
    ∷ (0xae3ccd0b9cc68a75, 0x34750cc3329643c6)
    ∷ (0xb02e1c87fe9b3361, 0xf461b77c4ef3429b)
    ∷ (0x64336f79bb1649f9, 0x39f90f83df522316)
    ∷ (0x1b15170fcc18d212, 0xe0126ed5d7955e18)
    ∷ (0x48d9682865403570, 0x0470529c2d1ed240)
    ∷ (0x1372244ac16e55a3, 0xdfa31a84d2d6c66e)
    ∷ (0xd2a6f7bd304a899c, 0x4c9c9fb3e2010b4a)
    ∷ (0x69539abf1825a54e, 0x264eaeb871e1e425)
    ∷ (0x1c7bad0cf0a1e8a9, 0xbfa9a63aec0527a1)
    ∷ (0xa78ec00ed8cec47b, 0xd57b97317fe5c8ce)
    ∷ (0x85b870597e29cc47, 0x56479933fb4acb29)
    ∷ (0x7c9a3ab6ac8c03e9, 0x78e99370d097488c)
    ∷ (0x47d0e16e548f887a, 0x647aee2213cd338f)
    ∷ (0x6886a4ff515b6cf1, 0xf8f1411b39d1f75b)
    ∷ (0xa65bfe4e91b00dc4, 0x0bc4789237d5dbb0)
    ∷ (0x197c6b8f5ee483af, 0x9faf735047f578e4)
    ∷ (0x5cc5f66198975a68, 0x846880f7c4586d97)
    ∷ (0xe18b1f20c53f85be, 0x6fbe96b02418e83f)
    ∷ (0x01d53e40497ec9bf, 0xdebfefa34830137e)
    ∷ (0x3923a7586affda2e, 0x632e60d7533a5dff)
    ∷ (0x6c545c3cb660ce48, 0x06487bd2da11bb60)
    ∷ (0xa9527708a07fb0ce, 0x6bcec42c09063a7f)
    ∷ (0xc26891372aa6443d, 0x323d7711e887f8a6)
    ∷ (0x2b84bd52e2ef4632, 0x623295f0c9dc88ef)
    ∷ (0x957616d364c501e6, 0x28e67191f1cc38c5)
    ∷ (0xbf2795c1cf548e6b, 0x946b0bc27020a354)
    ∷ (0x076eba033cb93abb, 0x5fbbc8ef3b9079b9)
    ∷ (0x38f6991823811391, 0xbd918f741b0a4e81)
    ∷ (0x0000000000000000, 0x0000000000000000)
    ∷ (0x23e38e17ef99c183, 0x5d83e1a1cc9f1099)
    ∷ (0x9071d050ca806ae0, 0x08e0a4fb5a3c6780)
    ∷ (0xc3bdaf7763d88d82, 0xec8298b2a0b7ebd8)
    ∷ (0x5d10c821d1e993d7, 0x5ad76f548c687ee9)
    ∷ (0x8b64c75f0698b8f2, 0xe8f2ca2e8da93998)
    ∷ (0x4ab014a8f7bc64cd, 0x7bcd4f19bd7ef4bc)
    ∷ (0x446ca3ae8f0d1078, 0xc5781c04cb9d060d)
    ∷ (0xa0e07a0de477fec0, 0x8ac05fde4475b177)
    ∷ (0xb3925e472519ab63, 0x5563455a96a37719)
    ∷ (0x25580a549a5e3287, 0xdc87c6edbf3f7a5e)
    ∷ (0x82d6ca5a4290f6fc, 0x09fc51dcc0dab290)
    ∷ (0xde133c3bda07ac94, 0x8d94d12b0482df07)
    ∷ (0x0cb5cb86ea4d2508, 0xc1084e98e683d44d)
    ∷ (0x205fccd7341b5981, 0xfc81138714cf251b)
    ∷ (0xfdf0b22c359e6d17, 0xd017308ac81dcf9e)
    ∷ (0x53cc7f27a958e762, 0xe4623c49fa8b8c58)
    ∷ (0xb4fce44419a091d8, 0x0ad88db5ad330ea0)
    ∷ (0xc866def2b52c9231, 0x72311ec57da4462c)
    ∷ (0x18a955cf179a4a10, 0x41109cf30fc56b9a)
    ∷ (0xd0cf8b3da2b6d821, 0x3321823672612db6)
    ∷ (0xb740a684c22209da, 0xabda7f9375633b22)
    ∷ (0x5577fb64dc9f1466, 0x65661b05892be69f)
    ∷ (0xc4d315745f61b739, 0xb339505d9b279261)
    ∷ (0x6288eb3aced1bafd, 0xb8fd28cfacf249d1)
    ∷ (0x09b20d0544084e0e, 0xe10e9bf24d738b08)
    ∷ (0x59c230e236d2316e, 0xa46e559d6fa832d2)
    ∷ (0x29edc1d27013178f, 0x1d8f887559bcae13)
    ∷ (0x3443529ec9cc3699, 0x7c99c1ecfd899acc)
    ∷ (0xba2053426111e56d, 0xb46ddea8dbd0fc11)
    ∷ (0x6b3ae63f8ad9f4f3, 0x59f3b33de181c2d9)
    ∷ (0xb1fb22c7b7e5fade, 0x2ade58df06c351e5)
    ∷ (0xccb4263152173088, 0x8c88240c9e640a17)
    ∷ (0xea506ea513cb9a0d, 0xf10d10c7f90b45cb)
    ∷ (0x2a518312ab918f8d, 0xbc8d7a5381ec9b91)
    ∷ (0xbef2ab81862a47d4, 0x4ad4e4613810b02a)
    ∷ (0x971f6a53f639505b, 0x575b6c1461ac1e39)
    ∷ (0x58170ea27facf8d1, 0x7ad1ba3e279821ac)
    ∷ (0x9218acd0587c3b5d, 0x775db97eca5c417c)
    ∷ (0xe3e263a057c3d403, 0x10038b35b478cec3)
    ∷ (0xac55b18b0e3adbc8, 0x4bc81146a2f6653a)
    ∷ (0x40be5b6d6836b2c1, 0x3bc126cd285d4a36)
    ∷ (0xad808fcb47441277, 0x9577fee5eac67644)
    ∷ (0x273176d408a2633a, 0xa33adb682f5f5ca2)
    ∷ (0x8ddf431c735f4bf6, 0x69f6ed62fe09535f)
    ∷ (0x04d2f8c3e73ba2b9, 0xfeb93ac9e3c04c3b)
    ∷ (0x10ce668a1aeccda1, 0x7ea1e8a20a86f3ec)
    ∷ (0xa5e7bc8e4a3295c6, 0xaac68ab4ef85ee32)
    ∷ (0xa289068d768baf7d, 0xf57d425bd415978b)
    ∷ (0x362a2e1e5b306724, 0x0324dc696de9bc30)
    ∷ (0x51a503a73ba4b6df, 0x9bdf21cc6aebaaa4)
    ∷ (0x56cbb9a4071d8c64, 0xc464e923517bd31d)
    ∷ (0xd373c9fd79344023, 0x92237010aa311834)
    ∷ (0xab3b0b883283e173, 0x1473d9a999661c83)
    ∷ (0xbc9bd70114d61669, 0x3569f9e4a87096d6)
    ∷ (0x141c9e49fdd76f18, 0x8018d26be946bfd7)
    ∷ (0xe2375de01ebd1dbc, 0xcebc6496fc48ddbd)
    ∷ (0x635dd57a87af7342, 0x6642c76ce4c25aaf)
    ∷ (0xf14579aadfd3481f, 0x111f7e122e9e1bd3)
    ∷ (0xd41d73fe458d7a98, 0xcd98b8ff91a1618d)
    ∷ (0x9baaa1d51c747553, 0x9653228c872fca74)
    ∷ (0x96ca5413bf4799e4, 0x89e483b7299c0d47)
    ∷ (0xf9224aefd2a5cfae, 0x2eae0a432bdd83a5)
    ∷ (0x54a2c52495e1ddd9, 0xbbd9f4a6c11bf5e1)
    ∷ (0x332de89df5750c22, 0x23220903c619e375)
    ∷ (0x7bf480b590353952, 0x27525b9feb073135)
    ∷ (0xe6e5a523f986bf05, 0x30055e5f1f889186)
    ∷ (0x5a7e7222ed50a96c, 0x056ca7bbb7f80750)
    ∷ (0x5bab4c62a42e60d3, 0xdbd34818ffc8142e)
    ∷ (0x6134a9fa155322ff, 0x19ffdae974a27c53)
    ∷ (0xd7a1313e9e0fe29a, 0x6c9a4ad949f1540f)
    ∷ (0x3a9fe598b17d422c, 0xc22c92f18b6a687d)
    ∷ (0xdc7a40bb48fbfd29, 0xf229ccae94e2f9fb)
    ∷ (0x71facf700fbfef5e, 0x675e324b7e248fbf)
    ∷ (0x9d11259669b38657, 0x175705c0f48fa0b3)
    ∷ (0x7a21bef5d94bf0ed, 0xf9edb43ca337224b)
    ∷ (0x65e65139f2688046, 0xe746e02097623068)
    ∷ (0x2e837bd14caa2d34, 0x4234409a622cd7aa)
    ∷ (0x4b652ae8bec2ad72, 0xa572a0baf54ee7c2)
    ∷ (0x0edcb70678b174b5, 0xbeb5531d76e3f2b1)
    ∷ (0xf8f774af9bdb0611, 0xf011e5e063ed90db)
    ∷ (0x93cd92901102f2e2, 0xa9e256dd826c5202)
    ∷ (0xbd4ee9415da8dfd6, 0xebd61647e04085a8)
    ∷ (0x99c3dd558e8824ee, 0xe9ee3f09174fec88)
    ∷ (0xd8a8b878afc05f90, 0x0c90f6677722b5c0)
    ∷ (0x1e12d18c625db914, 0xc014bbbf7c65015d)
    ∷ (0x218af2977d65903e, 0x223efc245cff3665)
    ∷ (0xc5062b34161f7e86, 0x6d86bffed317811f)
    ∷ (0x8c0a7d5c3a218249, 0xb74902c1b6394021)
    ∷ (0x6d81627cff1e07f7, 0xd8f794719221a81e)
    ∷ (0x0f09894631cfbd0a, 0x600abcbe3ed3e1cf)
    ∷ []
