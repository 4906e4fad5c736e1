-- ===== src/Kuznyechik/Tables/It11.antt =====
-- internal/kuznyechik/tables.go: `it[11]`, 256 entries of two words.
use kubebao.Common.{ℕ, List, [], ◌∷◌}

unfoldable pub it_row11 : List (ℕ × ℕ)
it_row11 =
    (0x1cca2ad2f8e059d8, 0x311da87247255817)
    ∷ (0xef10645c3874b669, 0xc0b7538ae9aaee82)
    ∷ (0xa1d0914adb41d2c0, 0x89df013d8f5eac55)
    ∷ (0xc7ff08545cf7bfba, 0x8edc20ac4e91a432)
    ∷ (0x684a8c77fbc6a016, 0xfeec75a8033c248d)
    ∷ (0xf409a55bfeac6887, 0x6c3cd105cf17a0e0)
    ∷ (0x63eb751f6a9ec558, 0x7e3617e50cf09071)
    ∷ (0x5624d1af7ef56359, 0x73f0c214ba5cc506)
    ∷ (0x756a44cf8b2e0fc4, 0xbd41d37f12ab3b4a)
    ∷ (0xb0824b4f04c99f6a, 0xd73eef5af09d111b)
    ∷ (0xe175713544047b05, 0x395807b32b59c268)
    ∷ (0xa8666ff69909989a, 0xeda67ff92c3596ca)
    ∷ (0xbee75e2678b95206, 0x2ed1bb63326e3df1)
    ∷ (0xae5f66492f39e9a6, 0x02805ba11b1fc76f)
    ∷ (0x8ac218fce4da020d, 0x51a76037d2702f56)
    ∷ (0x42b2e7ab4c5586d1, 0x54241a0708a0e05e)
    ∷ (0x8163e19475826743, 0xd17d027addbc9baa)
    ∷ (0x9e542ef8d67ae785, 0x7673b824608c0a0e)
    ∷ (0xeb3e6a375d54e841, 0xcb326b5b72273144)
    ∷ (0x1d20c8b870e8afd2, 0x43ada6d711971fc7)
    ∷ (0xd094dbee354f832c, 0x3f1bea93067848d9)
    ∷ (0x2b1289b63f9bd0cd, 0xd878610a5d2e8303)
    ∷ (0x342546da9c63500b, 0x7f76db54e01e12a7)
    ∷ (0x7ae5b3cc7f5634a2, 0x361e89e386ea5070)
    ∷ (0xd283dc3ae65fac38, 0xdbb8f61aaadfc6ba)
    ∷ (0x93ccde2ff112f3f7, 0x198ffe31586aef57)
    ∷ (0xead4885dd55c1e4b, 0xb98265fe24957694)
    ∷ (0x70aea8ce6606a7e6, 0xc474e50bdf94a35c)
    ∷ (0x45610c7e726d01e7, 0xc9b230fa6938f62b)
    ∷ (0xa98c8d9c11016e90, 0x9f16715c7a87d11a)
    ∷ (0xd747303b0b77041a, 0xa28dc06e67e05eac)
    ∷ (0x57ce33c5f6fd9553, 0x0140ccb1ecee82d6)
    ∷ (0x4f2a177c6b3d92a3, 0x3bd85c1230460507)
    ∷ (0x2d2b800989aba1f1, 0x375e45526a04d2a6)
    ∷ (0x92263c45791a05fd, 0x6b3ff0940ed8a887)
    ∷ (0x3d93b866de2b1a51, 0x1b0fa59043752838)
    ∷ (0x31e1aadb714bf829, 0x0643ed202d218ab1)
    ∷ (0x8d11f329dae2853b, 0xcc314acab3e83923)
    ∷ (0x157cd46ebaa81382, 0x5564d6b6e44e6288)
    ∷ (0x3a4053b3e0139d67, 0x86998f6d22ed3e4d)
    ∷ (0x4b0419170e1dcc8b, 0x305d64c3abcbdac1)
    ∷ (0xb546a74ee9e13748, 0xae0bd92e3da2890d)
    ∷ (0x6e7385c84df6d12a, 0x11ca51f034167528)
    ∷ (0x2ed665b7d2b378ef, 0xa14d577e90111b15)
    ∷ (0x67c57b740fbe9b70, 0x75b32f34977d4fb7)
    ∷ (0xe55b7f5e2124252d, 0x32dd3f62b0d41dae)
    ∷ (0x8cfb114352ea7331, 0xbe81446fe55a7ef3)
    ∷ (0xa4147d4b36697ae2, 0xf0ea374942613443)
    ∷ (0xc1c601ebeac7ce86, 0x61fa04f479bbf597)
    ∷ (0xffa85c336ff40dc9, 0xece6b348c0db141c)
    ∷ (0xc615ea3ed4ff49b0, 0xfc6c2e091823e3e2)
    ∷ (0x7f215fcd927e9c80, 0x4f2bbf974bd5c866)
    ∷ (0xf991558cd9c47cf5, 0x03c09710f7f145b9)
    ∷ (0xa7e998f56d71a3fc, 0x66f92565b874fdf0)
    ∷ (0xb168a9258cc16960, 0xa58ee1ffa62f56cb)
    ∷ (0x0a4b1b0219509344, 0xf26a6ce8597ef32c)
    ∷ (0xbf0dbc4cf0b1a40c, 0x5c61b5c664dc7a21)
    ∷ (0x9fbecc925e72118f, 0x04c3b681363e4dde)
    ∷ (0xc402edea07ef66a4, 0x18cf3280b4846d81)
    ∷ (0x33f6ad0fa25bd73d, 0xe2e0f1a9818604d2)
    ∷ (0xdb352286a417e662, 0xbfc188de09b4fc25)
    ∷ (0x5841c4c60285ae35, 0x8a1f962d78afe9ec)
    ∷ (0xce49f6e81ebff5e0, 0xeaa55e68edfa9ead)
    ∷ (0xdadfc0ec2c1f1068, 0xcd71867b5f06bbf5)
    ∷ (0xc870ff57a88f84dc, 0x05837a30dad0cf08)
    ∷ (0xdef1ce87493f4e40, 0xc6f4beaac48b6433)
    ∷ (0x10b8386f5780bba0, 0x2c51e0c22971fa9e)
    ∷ (0x9b90c2f93b524fa7, 0x0f468e50adb39218)
    ∷ (0x49131ec3dd0de39f, 0xd4fe784a076c54a2)
    ∷ (0x5bbc2178599d772b, 0x1c0c840182ba205f)
    ∷ (0xc5e80f808fe790ae, 0x6a7f3c25e2362a51)
    ∷ (0xd6add251837ff210, 0xd03dcecb3152197c)
    ∷ (0xcdb4135645a72cfe, 0x7cb64c4417ef571e)
    ∷ (0x25779cdf43eb1da1, 0x219735339fddafe9)
    ∷ (0x2af86bdcb79326c7, 0xaac86faf0b9cc4d3)
    ∷ (0x5433d67bade54c4d, 0x9753de9d16fb4b65)
    ∷ (0x1152da05df884daa, 0x5ee1ee677fc3bd4e)
    ∷ (0xa3c7969e0851fdd4, 0x6d7c1db423f92236)
    ∷ (0xb4ac452461e9c142, 0xdcbbd78b6b10cedd)
    ∷ (0xbac9504d1d990c2e, 0x255483b2a9e3e237)
    ∷ (0x808903fefd8a9149, 0xa3cd0cdf8b0edc7a)
    ∷ (0xac48619dfc29c6b2, 0xe6234728b7b8490c)
    ∷ (0xeced81e2636c6f77, 0x56a441a613bf2731)
    ∷ (0xe74c788af2340a39, 0xd67e23eb1c7393cd)
    ∷ (0x9a7a2093b35ab9ad, 0x7df680f5fb01d5c8)
    ∷ (0x6f9967a2c5fe2720, 0x637a5f5562a432f8)
    ∷ (0x414f0215174d5fcf, 0xc237082bf2b529ed)
    ∷ (0x65d27ca0dcaeb464, 0x911033bd3bdac1d4)
    ∷ (0x9da9cb468d623e9b, 0xe060aa089a99c3bd)
    ∷ (0xa22d74f480590bde, 0x1fcc1311754b65e6)
    ∷ (0x875ae82bc3b2167f, 0x3e5b2622ea96ca0f)
    ∷ (0x7b0f51a6f75ec2a8, 0x44ae8746d05817a0)
    ∷ (0x78f2b418ac461bb6, 0xd2bd956a2a4dde13)
    ∷ (0xb751a09a3af1185c, 0x4aa8c5a79105076e)
    ∷ (0xf1cd495a1384c0a5, 0x1509e771022838f6)
    ∷ (0x854defff10a2396b, 0xdaf83aab4631446c)
    ∷ (0x28ef6c08648309d3, 0x4e6b7326a73b4ab0)
    ∷ (0x18e424b99dc007f0, 0x3a9890a3dca887d1)
    ∷ (0x829e042a2e9abe5d, 0x476e105627a95219)
    ∷ (0xca67f8837b9fabc8, 0xe12066b97677416b)
    ∷ (0x40a5e07f9f45a9c5, 0xb087068ea4076e3d)
    ∷ (0x4cd7f2c230254bbd, 0xadcb4e3eca53ccb4)
    ∷ (0xfe42be59e7fcfbc3, 0x9e56bded966953cc)
    ∷ (0x1af3236d4ed028e4, 0xde3b8c2a700f09b2)
    ∷ (0xf027ab309b8c36af, 0x67b9e9d4549a7f26)
    ∷ (0xada283f7742130b8, 0x9493498de10a0edc)
    ∷ (0x95f5d790472282cb, 0xf6a9da696f40bef2)
    ∷ (0x941f35facf2a74c1, 0x8419d4cc39f2f922)
    ∷ (0x27609b0b90fb32b5, 0xc53429ba337a218a)
    ∷ (0x51f73a7a40cde46f, 0xee66e8e9dbc4d373)
    ∷ (0x61fc72cbb98eea4c, 0x9a950b6ca0571e12)
    ∷ (0x22a4770a7dd39a97, 0xbc011fcefe45b99c)
    ∷ (0x1496360432a0e588, 0x27d4d813b2fc2558)
    ∷ (0x84a70d9598aacf61, 0xa848340e108303bc)
    ∷ (0x8374e640a6924857, 0x35de1ef3711b15c9)
    ∷ (0xe36276e197145411, 0xddfb1b3a87fe4c0b)
    ∷ (0xf7f440e5a5b4b199, 0xfa2fc32935026953)
    ∷ (0x0d98f0d727681472, 0x6ffc461538e6e559)
    ∷ (0x20b370deaec3b583, 0x58a2034752e237ff)
    ∷ (0x268a796118f3c4bf, 0xb784271f65c8665a)
    ∷ (0xe9296de38e44c755, 0x2f9177d2de80bf27)
    ∷ (0x385754673303b273, 0x623a93e48e4ab02e)
    ∷ (0x234e9560f5db6c9d, 0xceb1116ba8f7fe4c)
    ∷ (0x4aeefb7d86153a81, 0x42ed6a66fd799d11)
    ∷ (0x59ab26ac8a8d583f, 0xf8af98882e1dae3c)
    ∷ (0x9987c52de84260b3, 0xebe592d901141c7b)
    ∷ (0xf230ace4489c19bb, 0x831af55df83df145)
    ∷ (0xc99a1d3d208772d6, 0x773374958c6288d8)
    ∷ (0xcfa3148296b703ea, 0x981550cdbb48d97d)
    ∷ (0x8eec169781fa5c25, 0x5a2258e649fdf090)
    ∷ (0x7480a6a50326f9ce, 0xcff1ddda44197c9a)
    ∷ (0xeefa8636b07c4063, 0xb2075d2fbf18a952)
    ∷ (0x3f84bfb20d3b3545, 0xffacb919efd2a65b)
    ∷ (0xd3693e506e575a32, 0xa908f8bffc6d816a)
    ∷ (0xfc55b98d34ecd4d7, 0x7af5a1643aceddaf)
    ∷ (0x7cdcba73c966459e, 0xd938adbbb1c001d5)
    ∷ (0x6bb769c9a0de7908, 0x68ff6784f929ed3e)
    ∷ (0xf5e3473176a49e8d, 0x1e8cdfa099a5e730)
    ∷ (0x39bdb60dbb0b4479, 0x108a9d41d8f8f7fe)
    ∷ (0x249d7eb5cbe3ebab, 0x53273b96c96fe839)
    ∷ (0x07d3ebd53e388736, 0x9d962afd61981675)
    ∷ (0x2cc1626301a357fb, 0x45ee4bf73cb69576)
    ∷ (0x71444aa4ee0e51ec, 0xb6c4ebae8926e48c)
    ∷ (0x0ba1f9689158654e, 0x80da624d0fccb4fc)
    ∷ (0xb2954c9bd7d9b07e, 0x339df3d35c3a9f78)
    ∷ (0x777d431b583e20d0, 0x59e2cff6be0cb529)
    ∷ (0x0e6515697c70cd6c, 0xf9ef5439c2f32cea)
    ∷ (0x47760baaa17d2ef3, 0x2d112c73c59f7848)
    ∷ (0xe8c38f89064c315f, 0x5d2179778832f8f7)
    ∷ (0xf87bb7e651cc8aff, 0x717099b5a1430269)
    ∷ (0x7ecbbda71a766a8a, 0x3d9bb1321d678fb6)
    ∷ (0xb6bb42f0b2f9ee56, 0x3818cb02c7b740be)
    ∷ (0xfdbf5be7bce422dd, 0x0845afc16c7c9a7f)
    ∷ (0x12af3fbb849094b4, 0xc8f2fc4b85d674fd)
    ∷ (0xd4bad585506fdd04, 0x349ed2429df5971f)
    ∷ (0x1345ddd10c9862be, 0xba42f2eed364332d)
    ∷ (0xe288948b1f1ca21b, 0xaf4b159fd14c0bdb)
    ∷ (0x168131d0e1b0ca9c, 0xc377c49a1e5bab3b)
    ∷ (0xdd0c2b391227975e, 0x50e7ac863e9ead80)
    ∷ (0x8b28fa966cd2f407, 0x23176e9284c26886)
    ∷ (0xc02ce38162cf388c, 0x134a0a512f09b247)
    ∷ (0xe09f935fcc0c8d0f, 0x4be809167deb85b8)
    ∷ (0x3baab1d9681b6b6d, 0xf42981c8745f799d)
    ∷ (0xcc5ef13ccdafdaf4, 0x0e0642e1415d10ce)
    ∷ (0xd17e3984bd477526, 0x4dabe43650ca0f09)
    ∷ (0x520adfc41bd53d71, 0x7875fac521d11ac0)
    ∷ (0x69a06e1d73ce561c, 0x8c5c7b0d558e635d)
    ∷ (0x7d365819416eb394, 0xab88a31ee7724605)
    ∷ (0x05c4ec01ed28a822, 0x79353674cd3f9816)
    ∷ (0xfa6cb03282dca5eb, 0x95d3853c0de48c0a)
    ∷ (0x79185672244eedbc, 0xa00d9bcf7cff99c3)
    ∷ (0x063909bfb630713c, 0xef262458372a51a5)
    ∷ (0x37d8a364c77b8915, 0xe965c9781a0bdb14)
    ∷ (0x90313b91aa0a2ae9, 0x8f9cec1da27f26e4)
    ∷ (0x6a5d8ba328d68f02, 0x1a4f6921af9baaee)
    ∷ (0x601690a131861c46, 0xe82505c9f6e559c2)
    ∷ (0x7697a171d036d6da, 0x2b52c153e8bef2f9)
    ∷ (0x88d51f2837ca2d19, 0xb5047cbe7ed7a135)
    ∷ (0x435805c1c45d70db, 0x269414a25e12a78e)
    ∷ (0x03fde5be5b18d91e, 0x9613122cfa15c9b3)
    ∷ (0x5d8528c7efad0617, 0xf32aa059b59071fa)
    ∷ (0xdf1b2cedc137b84a, 0xb444b00f923923e3)
    ∷ (0x01eae26a8808f60a, 0x72b00ea556b247d0)
    ∷ (0x29058e62ec8bffd9, 0x3cdb7d83f1890d60)
    ∷ (0x215992b426cb4389, 0x2a120de20450702f)
    ∷ (0x0c7212bdaf60e278, 0x1d4c48b06e54a289)
    ∷ (0xd92225527707c976, 0x5b629457a5137246)
    ∷ (0xe4b19d34a92cd327, 0x406d31c7e6665a7e)
    ∷ (0xbd1abb9823a18b18, 0xb8c2a94fc87bf442)
    ∷ (0x300b48b1f9430e23, 0x74f3e3857b93cd61)
    ∷ (0x72b9af1ab51688f2, 0x20d7f98273332d3f)
    ∷ (0x48f9fca955051595, 0xa64e76ef51de1372)
    ∷ (0x9608322e1c3a5bd5, 0x60bac84595557741)
    ∷ (0x4ec0f516e33564a9, 0x496852b766f442d7)
    ∷ (0xab9b8a48c2114184, 0x7bb56dd5d6205f79)
    ∷ (0xfb8652580ad453e1, 0xe7638b995b56cbda)
    ∷ (0x5c6fcaad67a5f01d, 0x819aaefce322362a)
    ∷ (0xf61ea28f2dbc4793, 0x889fcd8c63b02e83)
    ∷ (0x042e0e6b65205e28, 0x0b8538d19b8ddfc6)
    ∷ (0x1f37cf6ca3f880c6, 0xa70eba5ebd3091a4)
    ∷ (0x53e03dae93ddcb7b, 0x0ac5f46077635d10)
    ∷ (0x501dd810c8c51265, 0x9cd6e64c8d7694a3)
    ∷ (0x86b00a414bbae075, 0x4ceb2887bc248ddf)
    ∷ (0xd8c8c738ff0f3f7c, 0x29d29af2f3a13596)
    ∷ (0x91dbd9fb2202dce3, 0xfd2ce2b8f4cd6134)
    ∷ (0x1b19c107c6d8deee, 0xac8b828f26bd4e62)
    ∷ (0x5a56c312d1958121, 0x6ebc8aa4d408678f)
    ∷ (0xaa7168224a19b78e, 0x09056370809218a9)
    ∷ (0x469ce9c02975d8f9, 0x5fa122d6932d3f98)
    ∷ (0x35cfa4b0146ba601, 0x0dc6d5f1b6ac5577)
    ∷ (0x3c795a0c5623ec5b, 0x69bfab3515c76fe8)
    ∷ (0x9c43292c056ac891, 0x92d0a4adcc2b846d)
    ∷ (0x021707d4d3102f14, 0xe4a31c89aca78e63)
    ∷ (0x662f991e87b66d7a, 0x07032191c1cf0867)
    ∷ (0xa6037a9fe57955f6, 0x14492bc0eec6ba20)
    ∷ (0xf3da4e8ec094efb1, 0xf1aafbf8ae8fb695)
    ∷ (0x4d3d10a8b82dbdb7, 0xdf7b409b9ce18b64)
    ∷ (0xa03a7320534924ca, 0xfb6f0f98d9eceb85)
    ∷ (0x09b6febc42484a5a, 0x64797ec4a36b3a9f)
    ∷ (0x73534d703d1e7ef8, 0x5267f72725816aef)
    ∷ (0x1edd2d062bf076cc, 0xd5beb4fbeb82d674)
    ∷ (0x55d9341125edba47, 0xe5e3d03840490cb5)
    ∷ (0x176bd3ba69b83c96, 0xb1c7ca3f48e9eceb)
    ∷ (0x64389eca54a6426e, 0xe3a03d186d688604)
    ∷ (0x893ffd42bfc2db13, 0xc7b4721b2865e6e5)
    ∷ (0xbb23b2279591fa24, 0x57e48d17ff51a5e7)
    ∷ (0xb37faef15fd14674, 0x412dfd760a88d8a8)
    ∷ (0x5e78cd79b4b5df09, 0x6539b2754f85b849)
    ∷ (0x5f922f133cbd2903, 0x1789bcd01937ff99)
    ∷ (0xb934b5f34681d530, 0xb347919e53f62b84)
    ∷ (0x085c1cd6ca40bc50, 0x16c97061f5d97d4f)
    ∷ (0x3e6e5dd88533c34f, 0x8d1cb7bcb960e18b)
    ∷ (0xd55037efd8672b0e, 0x462edce7cb47d0cf)
    ∷ (0xed076388eb64997d, 0x24144f03450d60e1)
    ∷ (0x986d2747604a96b9, 0x99559c7c57a65bab)
    ∷ (0x321c4f652a532137, 0x9050ff0cd7344302)
    ∷ (0xdce6c9539a2f6154, 0x2257a223682cea50)
    ∷ (0x3632410e4f737f1f, 0x9bd5c7dd4cb99cc4)
    ∷ (0xcb8d1ae9f3975dc2, 0x9390681c20c506bb)
    ∷ (0xe6a69ae07a3cfc33, 0xa4ce2d4e4ac1d41d)
    ∷ (0xb8de5799ce89233a, 0xc1f79f3b05446c54)
    ∷ (0x2f3c87dd5abb8ee5, 0xd3fd59dbc6a35cc5)
    ∷ (0xa5fe9f21be618ce8, 0x825a39ec14d37393)
    ∷ (0xbcf059f2aba97d12, 0xca72a7ea9ec9b392)
    ∷ (0xc3d1063f39d7e192, 0x8559187dd51c7bf4)
    ∷ (0xafb58423a7311fac, 0x703055044dad80bf)
    ∷ (0x6d8e607616ee0834, 0x87d943dcce03bc9b)
    ∷ (0x62019775e2963352, 0x0c8619405a42d7a1)
    ∷ (0x448bee14fa65f7ed, 0xbb023e5f3f8ab1fb)
    ∷ (0x190ec6d315c8f1fa, 0x48289e068a1ac001)
    ∷ (0xc23be455b1df1798, 0xf7e916d883ae3c24)
    ∷ (0x97e2d0449432addf, 0x120ac6e0c3e73091)
    ∷ (0x0000000000000000, 0x0000000000000000)
    ∷ (0x0f8ff703f4783b66, 0x8b5f5a9c94416b3a)
    ∷ (0x8f06f4fd09f2aa2f, 0x289256431f4fb740)
    ∷ (0x6c64821c9ee6fe3e, 0xf5694d7998b1fb4b)
    ∷ []
