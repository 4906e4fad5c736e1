-- ===== src/Kuznyechik/Tables/T5.antt =====
-- internal/kuznyechik/tables.go: `t[5]`, 256 entries of two words.
use kubebao.Common.{ℕ, List, [], ◌∷◌}

unfoldable pub t_row5 : List (ℕ × ℕ)
t_row5 =
    (0x97506fa9e7ab8079, 0xb4f01ab55adb20be)
    ∷ (0x6e9f451416971a91, 0xaa62580a55efe760)
    ∷ (0x309432d1935fdc99, 0xce7f098967fc373d)
    ∷ (0x8bb82d43c2f942b9, 0x9d0b8ec0afb0f18a)
    ∷ (0xc95b186c62634671, 0xd0ed4b3668c8f0e3)
    ∷ (0x0fbd471d410e4aea, 0x0704c7efe240f358)
    ∷ (0x0251ccd0a74e56d7, 0x27f3d968f2ebf484)
    ∷ (0x417b9f97b5f37995, 0x988d91aa4c078faf)
    ∷ (0x5d93dd7d90a1bb55, 0xb17605dfb96c5e9b)
    ∷ (0x0887b6c6d9fb9bda, 0x9c4ae2634e2a5655)
    ∷ (0x73be619681e2f3db, 0x7101414bd9104c16)
    ∷ (0xfa578005e455e7b5, 0xcbf916e3844b4918)
    ∷ (0xfb9ee66d5672cc3f, 0x39619bd7fddf335a)
    ∷ (0x26aa0a2dc8b8d354, 0x5c3da6f72e5644d8)
    ∷ (0xb8b4b52a44cfe37d, 0x861fd31543334871)
    ∷ (0xf423a170177c86d5, 0x3e655c381f9fc002)
    ∷ (0xa45cf7c0619d21bd, 0xafe44760b6589945)
    ∷ (0x37aec30a0baa0da9, 0x55312c05cb969230)
    ∷ (0x9c4f73d72b3966fe, 0xfdd1ac8a9f8ef82d)
    ∷ (0xd47a3ceef516af3b, 0x0b8e5277e4375b95)
    ∷ (0xb6c0945fb7e6821d, 0x738399ced8e7c16b)
    ∷ (0xdeac46f88ba36236, 0xb037697c58f6f944)
    ∷ (0x5931861e1d3d1738, 0xff53740f9e797550)
    ∷ (0xa2af60734b4fdb07, 0xc632efd863a6460a)
    ∷ (0x6f56237ca4b0311b, 0x58fad53e2c7b9d22)
    ∷ (0xc8927e04d0446dfb, 0x2275c602115c8aa1)
    ∷ (0xb262cf3c3a7a2e70, 0x3da6e81efff2eaa0)
    ∷ (0x8c82dc985a0c9389, 0x0645ab4c03da5487)
    ∷ (0x1d2124829775e94a, 0xdb6319418cffab76)
    ∷ (0x9501a37940e5d6ae, 0x9303c3dda830d43a)
    ∷ (0x0dec8bcde6401c3d, 0x20f71e8710ab07dc)
    ∷ (0x9e1ebf078c773029, 0xda2275e26d650ca9)
    ∷ (0x01c96668b2272b8a, 0xf2988d3479947a42)
    ∷ (0x163e38fc5be70fcd, 0x9242af7e49aa73e5)
    ∷ (0xce61e9b7fa969741, 0x4ba36ebac4a255ee)
    ∷ (0x9b75820cb3ccb7ce, 0x669f890633e45d20)
    ∷ (0x6580596ada05fc16, 0xe343ee3590ba3ff3)
    ∷ (0x7f9b8c33d585c46c, 0xa36ed2f8b02f3188)
    ∷ (0x40b2f9ff07d4521f, 0x6a151c9e3593f5ed)
    ∷ (0xa7c45d7874f45ce0, 0x7a8f133c3d271783)
    ∷ (0x4f0fbee246da18f5, 0x6d11db71d7d306b5)
    ∷ (0xae8a8dd61f28ecb0, 0x145d7c6b0a993b94)
    ∷ (0x27636c457a9ff8de, 0xaea52bc357c23e9a)
    ∷ (0x8d4bbaf0e82bb803, 0xf4dd26787a4e2ec5)
    ∷ (0xa0feaca3ec018dd0, 0xe1c136b0914db28e)
    ∷ (0x2e2dbceb1143488e, 0xc0774494607c128d)
    ∷ (0x3667a562b98d2623, 0xa7a9a131b202e872)
    ∷ (0xa8791a6535fa160a, 0x7d8bd4d3df67e4db)
    ∷ (0x969909c1558cabf3, 0x46689781234f5afc)
    ∷ (0xd996b7231356b306, 0x2b794cf0f49c5c49)
    ∷ (0x5c5abb15228690df, 0x43ee88ebc0f824d9)
    ∷ (0xbf8e44f1dc3a324d, 0x1d51f699ef59ed7c)
    ∷ (0x4bade581cb46b498, 0x2334aaa1f0c62d7e)
    ∷ (0xb709f23705c1a997, 0x811b14faa173bb29)
    ∷ (0x184a1989a8ce6ead, 0x67dee5a5d27efaff)
    ∷ (0xe8cbe39a322e4415, 0x179ec84deaf41136)
    ∷ (0xe4ee0e3f664973a2, 0xc5f15bfe83cb6ca8)
    ∷ (0xc1dcaeaabb98ddab, 0x4ca7a95526e2a6b6)
    ∷ (0x1ce842ea2552c2c0, 0x29fb9475f56bd134)
    ∷ (0x771c3af50c7e5fb6, 0x3f24309bfe0567dd)
    ∷ (0x84056a5e83f70853, 0x9a0f492f4df002d2)
    ∷ (0xad12276e0a4191ed, 0xc136283781e6b552)
    ∷ (0x67d195ba7d4baac1, 0xc4b0375d6251cb77)
    ∷ (0xdcfd8a282ced34e1, 0x97c4b014aa1d0dc0)
    ∷ (0xf8064cd5431bb162, 0xec0acf8b76a0bd9c)
    ∷ (0x94c8c511f2c2fd24, 0x619b4ee9d1a4ae78)
    ∷ (0x82f6fdeda925f2e9, 0xf3d9e197980edd9d)
    ∷ (0x5aa92ca608546a65, 0x2a3820531506fb96)
    ∷ (0xd62bf03e5258f9ec, 0x2c7d8b1f16dcaf11)
    ∷ (0x0398aab815697d5d, 0xd56b545c8b7f8ec6)
    ∷ (0x62baa8b142f02d26, 0x780dcbb93cd09afe)
    ∷ (0x29174d3089b699be, 0x5b396118cc16b780)
    ∷ (0xc015c8c209bff621, 0xbe3f24615f76dcf4)
    ∷ (0x6618f3d2cf6c814b, 0x3628ba691bc5b135)
    ∷ (0xeb53492227473948, 0xc2f59c11618b9ff0)
    ∷ (0xb491588f10a8d4ca, 0x547040a62a0c35ef)
    ∷ (0xb97dd342f6e8c8f7, 0x74875e213aa73233)
    ∷ (0xc38d627a1cd68b7c, 0x6b54703dd4095232)
    ∷ (0xe776a48773200eff, 0x109a0fa208b4e26e)
    ∷ (0xbb2c1f9251a69e20, 0x53748749c84cc6b7)
    ∷ (0xdbc77bf3b418e5d1, 0x0c8a95980677a8cd)
    ∷ (0xfd6d71de7ca03685, 0x50b7336f2821ec15)
    ∷ (0x5745a76bee147658, 0x0acf3ed405adfc4a)
    ∷ (0x906a9e727f5e5149, 0x2fbe3f39f6b185b3)
    ∷ (0xb3aba954885d05fa, 0xcf3e652a866690e2)
    ∷ (0x0b1f1c7ecc92e687, 0x4921b63fc555d893)
    ∷ (0x19837fe11ae94527, 0x95466891abea80bd)
    ∷ (0xf9cf2abdf13c9ae8, 0x1e9242bf0f34c7de)
    ∷ (0x343669b21ec370f4, 0x805a785940e91cf6)
    ∷ (0xa137cacb5e26a65a, 0x1359bb84e8d9c8cc)
    ∷ (0xd7e29656e07fd266, 0xdee5062b6f48d553)
    ∷ (0x1bd2b331bda713f0, 0xb2b5b1f959017439)
    ∷ (0xcfa88fdf48b1bccb, 0xb93be38ebd362fac)
    ∷ (0x879dc0e6969e750e, 0x4f641d73c68f8c14)
    ∷ (0x51b630d8c4c68ce2, 0x6319966cd0532305)
    ∷ (0xabe1b0dd20936b57, 0xa8e0808f54186a1d)
    ∷ (0x330c98698636a1c4, 0x1b145dd5ec83b9fb)
    ∷ (0xc6e65f71236d0c9b, 0xd7e98cd98a8803bb)
    ∷ (0x20599d9ee26a29ee, 0x35eb0e4ffba89b97)
    ∷ (0x146ff42cfca9591a, 0xb5b17616bb418761)
    ∷ (0xa59591a8d3ba0a37, 0x5d7cca54cfcce307)
    ∷ (0x3cb1df74c738eb2e, 0x1c109a3a0ec34aa3)
    ∷ (0x2b4681e02ef8cf69, 0x7ccab8703efd4304)
    ∷ (0x7af0b138ea3e438b, 0x1fd32e1ceeae6001)
    ∷ (0xee38742918fcbeaf, 0x7e4860f53f0ace79)
    ∷ (0xea9a2f4a956012c2, 0x306d1125181fe5b2)
    ∷ (0x4ec6d88af4fd337f, 0x9f895645ae477cf7)
    ∷ (0x2190fbf6504d0264, 0xc773837b823ce1d5)
    ∷ (0xe185333459f2f445, 0x794ca71add4a3d21)
    ∷ (0x93f234ca6a372c14, 0xfad56b657dce0b75)
    ∷ (0x1104c927c312defd, 0x090c8af2e5c0d6e8)
    ∷ (0x6373ced9f0d706ac, 0x8a95468d4544e0bc)
    ∷ (0x7026cb2e948b8e86, 0xa46a1517526fc2d0)
    ∷ (0x6bf4781f292c9d76, 0x16dfa4ee0b6eb6e9)
    ∷ (0x381384174aa44743, 0x5235ebea29d66168)
    ∷ (0x094ed0ae6bdcb050, 0x6ed26f5737be2c17)
    ∷ (0xe5276857d46e5828, 0x3769d6cafa5f16ea)
    ∷ (0xbae579fae381b5aa, 0xa1ec0a7db1d8bcf5)
    ∷ (0x8ed31048fd42c55e, 0x21b67224f131a003)
    ∷ (0xaa28d6b592b440dd, 0x5a780dbb2d8c105f)
    ∷ (0x7dca40e372cb92bb, 0x849d0b9042c4c50c)
    ∷ (0xcc3025675dd8c196, 0x6c50b7d23649a16a)
    ∷ (0x54dd0dd3fb7d0b05, 0xdfa46a888ed2728c)
    ∷ (0x612202095799507b, 0xad669fe5b7af1438)
    ∷ (0xc2440412aef1a0f6, 0x99ccfd09ad9d2870)
    ∷ (0x686cd2a73c45e02b, 0xc3b4f0b28011382f)
    ∷ (0x2532a095ddd1ae09, 0x8956f2aba529ca1e)
    ∷ (0xbe4722996e1d19c7, 0xefc97bad96cd973e)
    ∷ (0x6cce89c4b1d94c46, 0x8d918162a70413e4)
    ∷ (0x0ad67a167eb5cd0d, 0xbbb93b0bbcc1a2d1)
    ∷ (0x315d54b92178f713, 0x3ce784bd1e684d7f)
    ∷ (0x754df625ab300961, 0x18d7e9f30cee9359)
    ∷ (0x7b39d75058196801, 0xed4ba328973a1a43)
    ∷ (0x5b604aceba7341ef, 0xd8a0ad676c9281d4)
    ∷ (0xa366061bf968f08d, 0x34aa62ec1a323c48)
    ∷ (0x2db51653042a35d3, 0x151c10c8eb039c4b)
    ∷ (0xdf652090398449bc, 0x42afe44821628306)
    ∷ (0x60eb6461e5be7bf1, 0x5ffe12d1ce3b6e7a)
    ∷ (0xf1489c7b28c70132, 0x82d8a0dc411e918b)
    ∷ (0x78a17de84d70155c, 0x3820f7741c459485)
    ∷ (0xf6726da0b032d002, 0x19968550ed743486)
    ∷ (0xd5b35a86473184b1, 0xf916df439da321d7)
    ∷ (0xd0d8678d788a0356, 0x45ab23a7c322705e)
    ∷ (0x727707fe33c5d851, 0x8399cc7fa0843654)
    ∷ (0x39dae27ff8836cc9, 0xa0ad66de50421b2a)
    ∷ (0x79681b80ff573ed6, 0xcab87a4065d1eec7)
    ∷ (0x32c5fe0134118a4e, 0xe98cd0e19517c3b9)
    ∷ (0x42e3352fa09a04c8, 0x4de6c5f6c7780169)
    ∷ (0x129c639fd67ba3a0, 0xdc67deae6ebf582e)
    ∷ (0x7c03268bc0ecb931, 0x760586a43b50bf4e)
    ∷ (0x4d5e7232e1944e22, 0x4ae202192538f231)
    ∷ (0x46416e4c2d06a8a5, 0x03c3b426e06d2aa2)
    ∷ (0x1eb98e3a821c9417, 0x0e084d1d078025b0)
    ∷ (0x8a714b2b70de6933, 0x6f9303f4d6248bc8)
    ∷ (0x3a4248c7edea1194, 0x75c63282db3d95ec)
    ∷ (0x7484904d191722eb, 0xea4f64c7757ae91b)
    ∷ (0x8654a68e24b95e84, 0xbdfc9047bf1bf656)
    ∷ (0x5e0b77c585c8c608, 0x641d51833213d05d)
    ∷ (0xeff11241aadb9525, 0x8cd0edc1469eb43b)
    ∷ (0x3ee013a46076bdf9, 0x3be34352fc28be27)
    ∷ (0x2208514e45247f39, 0x1218d72709436f13)
    ∷ (0x0e742175f3296160, 0xf59c4adb9bd4891a)
    ∷ (0x58f8e076af1a3cb2, 0x0dcbf93be7ed0f12)
    ∷ (0x8f1a76204f65eed4, 0xd32eff1088a5da41)
    ∷ (0xf2d036c33dae7c6f, 0x57b3f480ca611f4d)
    ∷ (0x0000000000000000, 0x0000000000000000)
    ∷ (0x04a25b638d9cac6d, 0x4e2571d027152bcb)
    ∷ (0x69a5b4cf8e62cba1, 0x312c7d86f985426d)
    ∷ (0x4a6483e979619f12, 0xd1ac27958952573c)
    ∷ (0xfef5db6669c94bd8, 0x85dc6733a35e62d3)
    ∷ (0x9fd7d96f3e501ba3, 0x28baf8d614f176eb)
    ∷ (0x3d78b91c751fc0a4, 0xee88170e775730e1)
    ∷ (0xe04c555cebd5dfcf, 0x8bd42a2ea4de4763)
    ∷ (0xbddf88217b74649a, 0x3aa22ff11db219f8)
    ∷ (0x6d07efac03fe67cc, 0x7f090c56de9069a6)
    ∷ (0xff3cbd0edbee6052, 0x7744ea07daca1891)
    ∷ (0xcdf9430fefffea1c, 0x9ec83ae64fdddb28)
    ∷ (0x478808249f21832f, 0xf15b391299f950e0)
    ∷ (0x35ff0fdaace45b7e, 0x72c2f56d397d66b4)
    ∷ (0x98ed28b4a6a5ca93, 0xb3f4dd5ab89bd3e6)
    ∷ (0x432a534712bd2f42, 0xbf7e48c2beec7b2b)
    ∷ (0x23c13726f70354b3, 0xe0805a1370d71551)
    ∷ (0xe21d998c4c9b8918, 0xac27f3465635b3e7)
    ∷ (0xf081fa139ae02ab8, 0x70402de8388aebc9)
    ∷ (0x6a3d1e779b0bb6fc, 0xe44729da72faccab)
    ∷ (0x9abce46401eb9c44, 0x940704324a702762)
    ∷ (0x7e52ea5b67a2efe6, 0x51f65fccc9bb4bca)
    ∷ (0xd85fd14ba171988c, 0xd9e1c1c48d08260b)
    ∷ (0xc57ef5c9360471c6, 0x0282d88501f78d7d)
    ∷ (0x833f9b851b02d963, 0x01416ca3e19aa7df)
    ∷ (0x522e9a60d1aff1bf, 0xb672c2305b2cadc3)
    ∷ (0xeda0de910d95c3f2, 0xab2334a9b47540bf)
    ∷ (0xcac3b2d4770a3b2c, 0x05861f6ae3b77e25)
    ∷ (0xc72f3919914a2711, 0x257101edf31c79f9)
    ∷ (0x3f2975ccd2519673, 0xc97bce6685bcc465)
    ∷ (0xd11101e5caad28dc, 0xb733ae93bab60a1c)
    ∷ (0x85cc0c3631d023d9, 0x6897c41b34647890)
    ∷ (0xe3d4ffe4febca292, 0x5ebf7e722fa1c9a5)
    ∷ (0x80a7313d0e6ba43e, 0xd42a38ff6ae52919)
    ∷ (0x568cc1035c335dd2, 0xf857b3e07c398608)
    ∷ (0x2c7c703bb60d1e59, 0xe7849dfc9297e609)
    ∷ (0xe6bfc2efc1072575, 0xe20282967120982c)
    ∷ (0x99244edc1482e119, 0x416c506ec10fa9a4)
    ∷ (0x816e5755bc4c8fb4, 0x26b2b5cb1371535b)
    ∷ (0xd289ab5ddfc45581, 0x6258facf31c984da)
    ∷ (0x882087fbd7903fe4, 0x4860da9c24cf7f4c)
    ∷ (0xf31950ab8f8957e5, 0xa52b79b4b3f5650f)
    ∷ (0xfca417b6ce871d0f, 0xa22fbe5b51b59657)
    ∷ (0x17f75e94e9c02447, 0x60da224a303e09a7)
    ∷ (0x64493f026822d79c, 0x11db6301e92e45b1)
    ∷ (0x135505f7645c882a, 0x2eff539a172b226c)
    ∷ (0x4c97145a53b365a8, 0xb87a8f2d5cac8873)
    ∷ (0xda0e1d9b063fce5b, 0xfe1218ac7fe3d28f)
    ∷ (0x55146bbb495a208f, 0x2d3ce7bcf74608ce)
    ∷ (0x2fe4da83a3646304, 0x32efc9a019e868cf)
    ∷ (0xcb0ad4bcc52d10a6, 0xf71e925e9a230467)
    ∷ (0x4410a29c8a48fe72, 0x24306d4e1286de26)
    ∷ (0x06f397b32ad2faba, 0x69d6a8b8d5fedf4f)
    ∷ (0x073af1db98f5d130, 0x9b4e258cac6aa50d)
    ∷ (0xc4b793a184235a4c, 0xf01a55b17863f73f)
    ∷ (0x5fc211ad37efed82, 0x9685dcb74b87aa1f)
    ∷ (0xa60d3b10c6d3776a, 0x88179e0844b36dc1)
    ∷ (0xf7bb0bc80215fb88, 0xeb0e086494e04ec4)
    ∷ (0x76d55c9dbe59743c, 0xcdbcbdaf87911d9f)
    ∷ (0x89e9e19365b7146e, 0xbaf857a85d5b050e)
    ∷ (0xd340cd356de37e0b, 0x90c077fb485dfe98)
    ∷ (0x923b52a2d810079e, 0x084de651045a7137)
    ∷ (0x507f56b076e1a768, 0x91811b58a9c75947)
    ∷ (0xacdb4106b866ba67, 0x33aea503f872cf10)
    ∷ (0x48354f39de2fc9c5, 0xf65ffefd7bb9a3b8)
    ∷ (0x9d8615bf991e4d74, 0x0f4921bee61a826f)
    ∷ (0xb5583ee7a28fff40, 0xa6e8cd9253984fad)
    ∷ (0x71efad4626aca50c, 0x56f298232bfbb892)
    ∷ (0x056b3d0b3fbb87e7, 0xbcbdfce45e815189)
    ∷ (0x1f70e852303bbf9d, 0xfc90c0297e145ff2)
    ∷ (0x15a692444e8e7290, 0x4729fb22c2d5fd23)
    ∷ (0x1a1bd5590f80387a, 0x402d3ccd20950e7b)
    ∷ (0xaf43ebbead0fc73a, 0xe6c5f15f730d41d6)
    ∷ (0x53e7fc086388da35, 0x44ea4f0422b8d781)
    ∷ (0x28de2b583b91b234, 0xa9a1ec2cb582cdc2)
    ∷ (0xe90285f280096f9f, 0xe506457993606b74)
    ∷ (0x0c25eda5546737b7, 0xd26f93b3693f7d9e)
    ∷ (0x45d9c4f4386fd5f8, 0xd6a8e07a6b12a464)
    ∷ (0x49fc29516c08e24f, 0x04c773c9022dd9fa)
    ∷ (0xdd34ec409eca1f6b, 0x655c3d20d3897782)
    ∷ (0x24fbc6fd6ff68583, 0x7bce7f9fdcbdb05c)
    ∷ (0xf5eac718a55bad5f, 0xccfdd10c660bba40)
    ∷ (0xb03303ec9d3478a7, 0x1a5531760d191e24)
    ∷ (0x3b8b2eaf5fcd3a1e, 0x875ebfb6a2a9efae)
    ∷ (0xbc16ee49c9534f10, 0xc83aa2c5642663ba)
    ∷ (0x91a3f81acd797ac3, 0xdd26b20d8f25fff1)
    ∷ (0xec69b8f9bfb2e878, 0x59bbb99dcde13afd)
    ∷ (0xb1fa65842f13532d, 0xe8cdbc42748d6466)
    ∷ (0x10cdaf4f7135f577, 0xfb9407c69c54acaa)
    ∷ (0x2a8fe7889cdfe4e3, 0x8e52354447693946)
    ∷ (0xa9b07c0d87dd3d80, 0x8f1359e7a6f39e99)
    ∷ []
