-- ===== src/Kuznyechik/Tables/T1.antt =====
-- internal/kuznyechik/tables.go: `t[1]`, 256 entries of two words.
use kubebao.Common.{ℕ, List, [], ◌∷◌}

unfoldable pub t_row1 : List (ℕ × ℕ)
t_row1 =
    (0xcf250ca2ea58362f, 0x3650d392499ed97c)
    ∷ (0xb8828c7e3ad63348, 0x339fa60be4876cf4)
    ∷ (0xd9afa26576e99c5c, 0x9c9481a8540a7201)
    ∷ (0x9e1b1a098515650c, 0x65b81d61d17b0a53)
    ∷ (0xae0822b9a667993b, 0x995bf431f913c789)
    ∷ (0xfe3d6aaac3f15e62, 0x5ebd0cc181ab5324)
    ∷ (0x6e44c23c2a6cefe7, 0xef51d6b259707567)
    ∷ (0x69759b921c288542, 0x857b54bbbc20636f)
    ∷ (0x384b8d397365d661, 0xd6939a4824c5b040)
    ∷ (0x7bd38ef0a8733a1a, 0x3a87de8da703175f)
    ∷ (0xde9efbcb40adf6f9, 0xf6be03a1b15a6409)
    ∷ (0x2ec123feefd47c12, 0x7c57c87239511b3d)
    ∷ (0x19e342e0fae2ea80, 0xea9ea32bf469c0ef)
    ∷ (0x9d06f8029bbb1a82, 0x1aaa4764329cc316)
    ∷ (0x1ed21b4ecca68025, 0x80b421221139d6e7)
    ∷ (0xe7de284a3913b4e2, 0xb423afea75c293cb)
    ∷ (0x4fec0de5a3ebd306, 0xd35cefd189dc05c8)
    ∷ (0x5c41463f1d6bf824, 0xf8ae53e472a2367a)
    ∷ (0xed9021707d717540, 0x754fb0f47ad56096)
    ∷ (0xc814550cdc1c5c8a, 0x5c7a519baccecf74)
    ∷ (0xd7cd10fa1a6148d5, 0x48c046ba5daa5e11)
    ∷ (0xdd8319c05e038977, 0x89ac59a452bdad4c)
    ∷ (0xe4c3ca4127bdcb6c, 0xcb31f5ef96255a8e)
    ∷ (0xfd2088a1dd5f21ec, 0x21af56c4624c9a61)
    ∷ (0x8fa0ed602fe0a5da, 0xa556cd5229bfb726)
    ∷ (0x992a43a7b3510fa9, 0x0f929f68342b1c5b)
    ∷ (0x0b4557824eb955d8, 0x5562291def4ab4df)
    ∷ (0x1bf5fe53ee970174, 0x0182cf2df7d34e28)
    ∷ (0x661c77b57a7bc5b1, 0xc521a5aa55dd08fd)
    ∷ (0xa161ce9ec034d9c8, 0xd901052010eeac1b)
    ∷ (0x9079a896e99db185, 0xb1ecda73d8db2643)
    ∷ (0x83d4e34c571d9aa7, 0x9a1e664623a515f1)
    ∷ (0x3722611e15369692, 0x96c96b59cd38dbd2)
    ∷ (0x44a95a67ed5286de, 0x863ec6cc6696b117)
    ∷ (0x2be6c6e3cde5fd43, 0xfd61267ddfbb83f2)
    ∷ (0x687ec52a16f31138, 0x117562b85c7d24ed)
    ∷ (0x9a37a1acadff7027, 0x7080c56dd7ccd51e)
    ∷ (0x79c53243bc06d1ee, 0xd19bb28ba4b99998)
    ∷ (0x5e57fa8c091e13d0, 0x13b23fe27118b8bd)
    ∷ (0x168aaec79cb1aa73, 0xaac4523a1d94ab7d)
    ∷ (0xa06a9026caef4db2, 0x4d0f3323f0b3eb99)
    ∷ (0x5a7b412921f406fb, 0x068ae7ee77af67f0)
    ∷ (0xaa24991c8e8d8c10, 0x8c632c3dffa418c4)
    ∷ (0x2cd79f4dfba197e6, 0x974ba4743aeb95fa)
    ∷ (0x93644a9df733ce0b, 0xcefe80763b3cef06)
    ∷ (0xe6d576f233c82098, 0x202d99e9959fd449)
    ∷ (0x6b632721085d6eb6, 0x6e6738bdbf9aeda8)
    ∷ (0xe8b7c46d5f40f411, 0xf4795efb9c3ff859)
    ∷ (0xf8076dbcff6ea0bd, 0xa099b8cb84a602ae)
    ∷ (0x586dfd9a3581ed0f, 0xed968be87415e937)
    ∷ (0x0f69ec27665340f3, 0x405af111e9fd6b92)
    ∷ (0x9b3cff14a724e45d, 0xe48ef36e3791929c)
    ∷ (0x7ce2d75e9e3750bf, 0x50ad5c8442530157)
    ∷ (0xe0ef71e40f57de47, 0xde092de3909285c3)
    ∷ (0x8db651d33b954e2e, 0x4e4aa1542a0539e1)
    ∷ (0xb6e03ee1565ee7c1, 0xe7cb6119ed2740e4)
    ∷ (0x11bbf769aaf5c0d6, 0xc0eed033f8c4bd75)
    ∷ (0xd5dbac490e14a321, 0xa3dc2abc5e10d0d6)
    ∷ (0x513e16ab6f4d5323, 0x53e8cef398e5d32f)
    ∷ (0x0216bcb31475ebf4, 0xeb1c6c0603ba8ec7)
    ∷ (0x602670a346e43b6e, 0x3b0511a050d05977)
    ∷ (0x031de20b1eae7f8e, 0x7f125a05e3e7c945)
    ∷ (0xf473639087939fc0, 0x9fd113df8ebca079)
    ∷ (0xb3c7dbfc746f6690, 0x66fd8f160bcdd82b)
    ∷ (0x4085e1c2c5b893f5, 0x93061ec060216e5a)
    ∷ (0x9643af80d5024f5a, 0x4fc86e79ddd677c9)
    ∷ (0xd2eaf5e73850c984, 0xc9f6a8b5bb40c6de)
    ∷ (0xbda5696318e7b219, 0xb2a94804026df43b)
    ∷ (0xa6509730f670b36d, 0xb32b8729f5beba13)
    ∷ (0x5966a3223f5a7975, 0x7998bdeb9448aeb5)
    ∷ (0x1fd945f6c67d145f, 0x14ba1721f1649165)
    ∷ (0x633b92a8584a44e0, 0x44174ba5b3379032)
    ∷ (0xe2f9cd571b2235b3, 0x351541e593280b04)
    ∷ (0xc351028e92a50952, 0x0918788643847bab)
    ∷ (0xef869dc369049eb4, 0x9e53dcf2796fee51)
    ∷ (0xb989d2c6300da732, 0xa791900804da2b76)
    ∷ (0x29f07a50d99016b7, 0x167d4a7bdc010d35)
    ∷ (0xbb9f6e7524784cc6, 0x4c8dfc0e0760a5b1)
    ∷ (0x48dd544b95afb9a3, 0xb9766dd86c8c13c0)
    ∷ (0x47b4b86cf3fcf950, 0xf92c9cc985717852)
    ∷ (0x36293fa61fed02e8, 0x02c75d5a2d659c50)
    ∷ (0xab2fc7a48456186a, 0x186d1a3e1ff95f46)
    ∷ (0x2ddcc1f5f17a039c, 0x03459277dab6d278)
    ∷ (0x4acbe8f881da5257, 0x526a01de6f369d07)
    ∷ (0x3c67369c5b8fc34a, 0xc3ab424422726f0d)
    ∷ (0x22b52dd29729436f, 0x431f6366334bb9ea)
    ∷ (0xba9430cd2ea3d8bc, 0xd883ca0de73de233)
    ∷ (0x77a780dcd08e0567, 0x05cf7599ad19b588)
    ∷ (0x0527e51d22318151, 0x8136ee0fe6ea98cf)
    ∷ (0xa4462b83e2055899, 0x5837eb2ff60434d4)
    ∷ (0x9172f62ee34625ff, 0x25e2ec70388661c1)
    ∷ (0xd4d0f2f104cf375b, 0x37d21cbfbe4d9754)
    ∷ (0x1cc4a7fdd8d36bd1, 0x6ba84d2412835820)
    ∷ (0x3940d38179be421b, 0x429dac4bc498f7c2)
    ∷ (0x9f1044b18fcef176, 0xf1b62b6231264dd1)
    ∷ (0xb1d1674f601a8d64, 0x8de1e310087756ec)
    ∷ (0x80c9014749b3e529, 0xe50c3c43c042dcb4)
    ∷ (0x503548136596c759, 0xc7e6f8f078b894ad)
    ∷ (0x2fca7d46e50fe868, 0xe859fe71d90c5cbf)
    ∷ (0x2aed985bc73e6939, 0x696f107e3fe6c470)
    ∷ (0x78ce6cfbb6dd4594, 0x4595848844e4de1a)
    ∷ (0x7ef46bed8a42bb4b, 0xbbb1308241e98f90)
    ∷ (0x0d7f50947226ab07, 0xab469d17ea47e555)
    ∷ (0x926f1425fde85a71, 0x5af0b675db61a884)
    ∷ (0x042cbba528ea152b, 0x1538d80c06b7df4d)
    ∷ (0xd8a4fcdd7c320826, 0x089ab7abb4573583)
    ∷ (0x9748f138dfd9db20, 0xdbc6587a3d8b304b)
    ∷ (0x18e81c58f0397efa, 0x7e9095281434876d)
    ∷ (0xfa11d10feb1b4b49, 0x4b85d4cd871c8c69)
    ∷ (0x13ad4bdabe802b22, 0x2bf2bc35fb7e33b2)
    ∷ (0xc147be3d86d0e2a6, 0xe2041480403ef56c)
    ∷ (0x28fb24e8d34b82cd, 0x82737c783c5c4ab7)
    ∷ (0x87f858e97ff78f8c, 0x8f26be4a2512cabc)
    ∷ (0x5328aa187b38b8d7, 0xb8f4a2f59b5f5de8)
    ∷ (0xa27c2c95de9aa646, 0xa6135f25f309655e)
    ∷ (0x4cf1efeebd45ac88, 0xac4eb5d46a3bcc8d)
    ∷ (0x26999677bfc35644, 0x5627bb6a35fc66a7)
    ∷ (0x7096d972e6ca6fc2, 0x6fe5f7904849a380)
    ∷ (0x75b13c6fc4fbee93, 0xeed3199faea33b4f)
    ∷ (0x86f30651752c1bf6, 0x1b288849c54f8d3e)
    ∷ (0x1781f07f966a3e09, 0x3eca6439fdc9ecff)
    ∷ (0x45a204dfe78912a4, 0x1230f0cf86cbf695)
    ∷ (0x74ba62d7ce207ae9, 0x7add2f9c4efe7ccd)
    ∷ (0x46bfe6d4f9276d2a, 0x6d22aaca652c3fd0)
    ∷ (0x8cbd0f6b314eda54, 0xda449757ca587e63)
    ∷ (0x0a4e093a4462c1a2, 0xc16c1f1e0f17f35d)
    ∷ (0xc4605b20a4e163f7, 0x6332fa8fa6d46da3)
    ∷ (0xac1e9e0ab21272cf, 0x72479837faa9494e)
    ∷ (0xd6c64e4210badcaf, 0xdcce70b9bdf71993)
    ∷ (0x15974ccc821fd5fd, 0xd5d6083ffe736238)
    ∷ (0xee8dc37b63df0ace, 0x0a5deaf19932a9d3)
    ∷ (0x6c527e8f3e190413, 0x044dbab45acafba0)
    ∷ (0xa54d753be8decce3, 0xcc39dd2c16597356)
    ∷ (0x8a87087d0dd1248b, 0x2460235dcf552fe9)
    ∷ (0xca02e9bfc869b77e, 0xb7663d9daf7441b3)
    ∷ (0xbfb3d5d00c9259ed, 0x59b5240201d77afc)
    ∷ (0xeaa178de4b351fe5, 0x1f6532fd9f85769e)
    ∷ (0x719d87caec11fbb8, 0xfbebc193a814e402)
    ∷ (0x0c740e2c78fd3f7d, 0x3f48ab140a1aa2d7)
    ∷ (0xfc2bd619d784b596, 0xb5a160c78211dde3)
    ∷ (0x899aea76137f5b05, 0x5b7279582cb2e6ac)
    ∷ (0xff363412c92aca18, 0xcab33ac261f614a6)
    ∷ (0x149c127488c44187, 0x41d83e3c1e2e25ba)
    ∷ (0xe9bc9ad5559b606b, 0x607768f87c62bfdb)
    ∷ (0x955e4d8bcbac30d4, 0x30da347c3e31be8c)
    ∷ (0xcb09b707c2b22304, 0x23680b9e4f290631)
    ∷ (0xb7eb60595c8573bb, 0x73c5571a0d7a0766)
    ∷ (0x301338b02372fc37, 0xfce3e9502868cdda)
    ∷ (0x98211d1fb98a9bd3, 0x9b9ca96bd4765bd9)
    ∷ (0x20a39161835ca89b, 0xa8030f6030f1372d)
    ∷ (0xce2e521ae083a255, 0xa25ee591a9c39efe)
    ∷ (0xec9b7fc877aae13a, 0xe14186f79a882714)
    ∷ (0x3f7ad4974521bcc4, 0xbcb91841c195a648)
    ∷ (0xa9397b179023f39e, 0xf37176381c43d181)
    ∷ (0xcc38eea9f4f649a1, 0x49428997aa791039)
    ∷ (0x5b701f912b2f9281, 0x9284d1ed97f22072)
    ∷ (0x0e62b29f6c88d489, 0xd454c71209a02c10)
    ∷ (0x612d2e1b4c3faf14, 0xaf0b27a3b08d1ef5)
    ∷ (0x330edabb3ddc83b9, 0x83f1b355cb8f049f)
    ∷ (0x10b0a9d1a02e54ac, 0x54e0e6301899faf7)
    ∷ (0x418ebf7acf63078f, 0x070828c3807c29d8)
    ∷ (0xc91f0bb4d6c7c8f0, 0xc87467984c9388f6)
    ∷ (0xd3e1ab5f328b5dfe, 0x5df89eb65b1d815c)
    ∷ (0x42935d71d1cd7801, 0x781a72c6639be09d)
    ∷ (0x5512ad0e47a74608, 0x46d016ff9e520c62)
    ∷ (0x0000000000000000, 0x0000000000000000)
    ∷ (0xdc88477854d81d0d, 0x1da26fa7b2e0eace)
    ∷ (0x3d6c682451545730, 0x57a57447c22f288f)
    ∷ (0x4bc0b6408b01c62d, 0xc66437dd8f6bda85)
    ∷ (0xf2496486bb0c611f, 0x61f5a7d58bb1f1f3)
    ∷ (0xb4f68252422b0c35, 0x0cd70d1fee9dce23)
    ∷ (0x49d60af39f742dd9, 0x2d785bdb8cd15442)
    ∷ (0xcd33b011fe2ddddb, 0xdd4cbf944a2457bb)
    ∷ (0xf5783d288d480bba, 0x0bdf25dc6ee1e7fb)
    ∷ (0xe1e42f5c058c4a3d, 0x4a071be070cfc241)
    ∷ (0xc56b0598ae3af78d, 0xf73ccc8c46892a21)
    ∷ (0x728065c1f2bf8436, 0x84f99b964bf32d47)
    ∷ (0xdbb91ed6629c77a8, 0x7788edae57b0fcc6)
    ∷ (0x32058403370717c3, 0x17ff85562bd2431d)
    ∷ (0x3118660829a9684d, 0x68eddf53c8358a58)
    ∷ (0x073159ae36446aa5, 0x6a2a8209e5501608)
    ∷ (0x76acde64da55911d, 0x91c1439a4d44f20a)
    ∷ (0xa377722dd441323c, 0x321d6926135422dc)
    ∷ (0x3b566f326dcba9ef, 0xa981c04dc7227905)
    ∷ (0x640acb066e0e2e45, 0x2e3dc9ac5667863a)
    ∷ (0x5f5ca43403c587aa, 0x87bc09e19145ff3f)
    ∷ (0x4ee7535da930477c, 0x4752d9d26981424a)
    ∷ (0x6f4f9c8420b77b9d, 0x7b5fe0b1b92d32e5)
    ∷ (0x0953eb315accbe2c, 0xbe7e451becf03a18)
    ∷ (0xe5c894f92d665f16, 0x5f3fc3ec76781d0c)
    ∷ (0xc676e793b0948803, 0x882e9689a56ee364)
    ∷ (0x5d4a188717b06c5e, 0x6ca065e792ff71f8)
    ∷ (0xf76e819b993de04e, 0xe0c349da6d5b693c)
    ∷ (0x6717290d70a051cb, 0x512f93a9b5804f7f)
    ∷ (0x2792c8cfb518c23e, 0xc2298d69d5a12125)
    ∷ (0x23be736a9df2d715, 0xd7115565d316fe68)
    ∷ (0x570411bd53d2adfc, 0xadcc7af99de882a5)
    ∷ (0x94551333c177a4ae, 0xa4d4027fde6cf90e)
    ∷ (0xbcae37db123c2663, 0x26a77e07e230b3b9)
    ∷ (0x1afea0ebe44c950e, 0x958cf92e178e09aa)
    ∷ (0x8891b4ce19a4cf7f, 0xcf7c4f5bccefa12e)
    ∷ (0x7fff355580992f31, 0x2fbf0681a1b4c812)
    ∷ (0x063a07163c9ffedf, 0xfe24b40a050d518a)
    ∷ (0x8b8c56c5070ab0f1, 0xb06e155e2f08686b)
    ∷ (0x7ad8d048a2a8ae60, 0xae89e88e475e50dd)
    ∷ (0xc77db92bba4f1c79, 0x1c20a08a4533a4e6)
    ∷ (0x6230cc105291d09a, 0xd0197da6536ad7b0)
    ∷ (0x9c0da6ba91608ef8, 0x8ea47167d2c18494)
    ∷ (0x738b3b79f864104c, 0x10f7ad95abae6ac5)
    ∷ (0xad15c0b2b8c9e6b5, 0xe649ae341af40ecc)
    ∷ (0xaf037c01acbc0d41, 0x0d55c232194e800b)
    ∷ (0xf90c3304f5b534c7, 0x34978ec864fb452c)
    ∷ (0x010b5eb80adb947a, 0x940e3603e05d4782)
    ∷ (0x439803c9db16ec7b, 0xec1444c583c6a71f)
    ∷ (0xd1f717ec26feb60a, 0xb6e4f2b058a70f9b)
    ∷ (0xc04ce0858c0b76dc, 0x760a2283a063b2ee)
    ∷ (0x82dfbdf45dc60edd, 0x0e105045c3f85273)
    ∷ (0xb2cc85447eb4f2ea, 0xf2f3b915eb909fa9)
    ∷ (0x85eee45a6b826478, 0x643ad24c26a8447b)
    ∷ (0x3e718a2f4ffa28be, 0x28b72e4221c8e1ca)
    ∷ (0x560f4f0559093986, 0x39c24cfa7db5c527)
    ∷ (0x21a8cfd989873ce1, 0x3c0d3963d0ac70af)
    ∷ (0xbeb88b680649cd97, 0xcdbb1201e18a3d7e)
    ∷ (0x3534ddad01437d66, 0x7dd5075fce825515)
    ∷ (0xf05fd835af798aeb, 0x8ae9cbd3880b7f34)
    ∷ (0x4dfab156b79e38f2, 0x384083d78a668b0f)
    ∷ (0x248f2ac4abb6bdb0, 0xbd3bd76c3646e860)
    ∷ (0xa83225af9af867e4, 0x677f403bfc1e9603)
    ∷ (0x343f83150b98e91c, 0xe9db315c2edf1297)
    ∷ (0x2584747ca16d29ca, 0x2935e16fd61bafe2)
    ∷ (0xdab2406e6847e3d2, 0xe386dbadb7edbb44)
    ∷ (0x8eabb3d8253b31a0, 0x3158fb51c9e2f0a4)
    ∷ (0xb0da39f76ac1191e, 0x19efd513e82a116e)
    ∷ (0xebaa266641ee8b9f, 0x8b6b04fe7fd8311c)
    ∷ (0x0858b58950172a56, 0x2a7073180cad7d9a)
    ∷ (0x1dcff945d208ffab, 0xffa67b27f2de1fa2)
    ∷ (0xe3f293ef11f9a1c9, 0xa11b77e673754c86)
    ∷ (0x6d59203734c29069, 0x90438cb7ba97bc22)
    ∷ (0xf154868da5a21e91, 0x1ee7fdd0685638b6)
    ∷ (0x5419f3b64d7cd272, 0xd2de20fc7e0f4be0)
    ∷ (0x81c25fff43687153, 0x71020a40201f9b36)
    ∷ (0xa75bc988fcab2717, 0x2725b12a15e3fd91)
    ∷ (0xb5fddcea48f0984f, 0x98d93b1c0ec089a1)
    ∷ (0x12a61562b45bbf58, 0xbffc8a361b237430)
    ∷ (0x84e5bae26159f002, 0xf034e44fc6f503f9)
    ∷ (0xf3423a3eb1d7f565, 0xf5fb91d66becb671)
    ∷ (0xd0fc49542c252270, 0x22eac4b3b8fa4819)
    ∷ (0x650195be64d5ba3f, 0xba33ffafb63ac1b8)
    ∷ (0xfb1a8fb7e1c0df33, 0xdf8be2ce6741cbeb)
    ∷ (0xc25a5c36987e9d28, 0x9d164e85a3d93c29)
    ∷ (0x7de989e694ecc4c5, 0xc4a36a87a20e46d5)
    ∷ (0x6a6879990286facc, 0xfa690ebe5fc7aa2a)
    ∷ (0x5223f4a071e32cad, 0x2cfa94f67b021a6a)
    ∷ (0xf665df2393e67434, 0x74cd7fd98d062ebe)
    ∷ (0x3a5d318a67103d95, 0x3d8ff64e277f3e87)
    ∷ (0xdf95a5734a766283, 0x62b035a25107238b)
    ∷ []
