-- ===== src/Kuznyechik/Tables/It13.antt =====
-- internal/kuznyechik/tables.go: `it[13]`, 256 entries of two words.
use kubebao.Common.{ℕ, List, [], ◌∷◌}

unfoldable pub it_row13 : List (ℕ × ℕ)
it_row13 =
    (0x223b6375937fdaab, 0xda0922c284a640b7)
    ∷ (0xe1f51bc1a6f4d9bb, 0xd9dde19524c5a254)
    ∷ (0xe703af84020e3c83, 0x3c08e7a657b03622)
    ∷ (0xd060c4ed40038c0d, 0x8cc3d02772a20fca)
    ∷ (0x269fbbb2ead3dd3a, 0xdd2e26e067411952)
    ∷ (0x2ab0103861e4d44a, 0xd4472a8681abf2be)
    ∷ (0x9839a98d2ecaf2e8, 0xf2b898065fc7648b)
    ∷ (0xa88540e04716d6eb, 0xd6dfa85d41e94ebd)
    ∷ (0x27b68df365f8ac8f, 0xac5727092f089efa)
    ∷ (0xb1f2e3761d53b5be, 0xb574b17806b7dc0e)
    ∷ (0xf009cb1a0e2ab40f, 0xb438f0f4669682ee)
    ∷ (0x1f8117d3febf866d, 0x867e1f16342b06c5)
    ∷ (0xa00e33adb58dd80a, 0xd891a01944e4fcb4)
    ∷ (0xd5ed2a6bb684fa29, 0xfa9dd5ecd90cd187)
    ∷ (0xb3a08ff4c0055717, 0x5786b3699625119d)
    ∷ (0x512ecef6348c1db0, 0x1dd051046a3bf9f2)
    ∷ (0x0d069dcb041c78c5, 0x78100d8faea36c44)
    ∷ (0x4a0b01e2b39f9c4c, 0x9c894a30bdf7a6d2)
    ∷ (0x6dbd8c11d66730c3, 0x30de6d3992ff3828)
    ∷ (0x012936418f2b71b5, 0x717901e9484987a8)
    ∷ (0x4cfdb5a717657974, 0x795c4c03ce8232a4)
    ∷ (0x54a32070c20b6b94, 0x6b8e54cfc19527bf)
    ∷ (0x13aebc5975888f1d, 0x8f171370d2c1ed29)
    ∷ (0x1558081cd1726a25, 0x6ac21543a1b4795f)
    ∷ (0x0ad91fcf2fcdec48, 0xecbc0a55959f7f9a)
    ∷ (0x3ec12e653fbdcfda, 0xcffc3e2c68560c49)
    ∷ (0x4eafd925ca339bdd, 0x9bae4e125e10ff37)
    ∷ (0x88ec4f17093feee9, 0xee24888e55ddc399)
    ∷ (0xb850a67a60e3caea, 0xca43b8d54bf3e9af)
    ∷ (0x3c9342e7e2eb2d73, 0x2d0e3c3df8c4c1da)
    ∷ (0xa583dd2b430aae2e, 0xaecfa5d2ef4a22f9)
    ∷ (0x8b9715d45b427df5, 0x7daf8b768d0689a2)
    ∷ (0x25e4e171b8ae4e26, 0x4ea52518bf9a5369)
    ∷ (0x9ecf1dc88a3017d0, 0x176d9e352cb2f0fd)
    ∷ (0x1dd37b5123e964c4, 0x648c1d07a4b9cb56)
    ∷ (0xeb2c040e893935f3, 0x3561ebc0b15addce)
    ∷ (0xbcf47ebd194fcd7b, 0xcd64bcf7a814b04a)
    ∷ (0x5adee778946a804d, 0x80155ab8b7ed01c0)
    ∷ (0xdab9db226fce6045, 0x607fda72e73d7050)
    ∷ (0x02526c82dd56e2a9, 0xe2f202119092cd93)
    ∷ (0xa9ac76a1c83da75e, 0xa7a6a9b409a0c915)
    ∷ (0x1ea821927194f7d8, 0xf7071eff7c62816d)
    ∷ (0xecf3860aa2e8a17e, 0xa1cdec1a8a66ce10)
    ∷ (0xfbf9e294aecc29f2, 0x29fdfb48bb407adc)
    ∷ (0x14713e5d5e591b90, 0x1bbb14aae9fdfef7)
    ∷ (0x7c415cca7eb95d77, 0x5d3b7c58d0ac1892)
    ∷ (0x79ccb24c883e2b53, 0x2b6579937b02c6df)
    ∷ (0x48596d606ec97ee5, 0x7e7b48212d656b41)
    ∷ (0x1a0cf9550838f049, 0xf0201add9f85d888)
    ∷ (0x94160207a5fdfb98, 0xfbd19460b92d8f67)
    ∷ (0xf37291d95c572713, 0x27b3f30cbe4dc8d5)
    ∷ (0xba02caf8bdb52843, 0x28b1bac4db61243c)
    ∷ (0x5e7a3fbfedc687dc, 0x87325e9a540a5825)
    ∷ (0x2d6f923c4a3540c7, 0x40eb2d5cba97e160)
    ∷ (0x92e0b64201071ea0, 0x1e049253ca581b11)
    ∷ (0x9db4470bd84d84cc, 0x84e69dcdf469bac6)
    ∷ (0x831c6699a9d97314, 0x73e18332880b3bab)
    ∷ (0x691954d6afcb3752, 0x37f9691b711861cd)
    ∷ (0xb5563bb164ffb22f, 0xb253b55ae55085eb)
    ∷ (0xfad0d4d521e75847, 0x5884faa1f309fd74)
    ∷ (0xf25ba798d37c56a6, 0x56caf2e5f6044f7d)
    ∷ (0xb979903befc8bb5f, 0xbb3ab93c03ba6e07)
    ∷ (0x28e27cbabcb236e3, 0x36b5289711393f2d)
    ∷ (0xd149f2accf28fdb8, 0xfdbad1ce3aeb8862)
    ∷ (0xe28e4102f4894aa7, 0x4a56e26dfc1ee86f)
    ∷ (0x5d01657cbfbb14c0, 0x14b95d628cd1121e)
    ∷ (0x75e319c603092223, 0x220c75f59de82d33)
    ∷ (0xe551c306df58de2a, 0xdefae5b7c722fbb1)
    ∷ (0xef88dcc9f0953262, 0x3246efe252bd842b)
    ∷ (0xdc4f6f67cb34857d, 0x85aadc419448e426)
    ∷ (0x96446e8578ab1931, 0x1923967129bf42f4)
    ∷ (0x8691881f5f5e0530, 0x05bf86f923a5e5e6)
    ∷ (0x4dd483e6984e08c1, 0x08254dea86cbb50c)
    ∷ (0x455ff0ab6ad50620, 0x066b45ae83c60705)
    ∷ (0x77b17544de5fc08a, 0xc0fe77e40d7ae0a0)
    ∷ (0xeea1ea887fbe43d7, 0x433fee0b1af40383)
    ∷ (0x56f14cf21f5d893d, 0x897c56de5107ea2c)
    ∷ (0xa12705ec3aa6a9bf, 0xa9e8a1f00cad7b1c)
    ∷ (0x3dba74a66dc05cc6, 0x5c773dd4b08d4672)
    ∷ (0x2c46a47dc51e3172, 0x31922cb5f2de66c8)
    ∷ (0x2e14c8ff1848d3db, 0xd3602ea4624cab5b)
    ∷ (0x93c980038e2c6f15, 0x6f7d93ba82119cb9)
    ∷ (0x84c3e49d8208e799, 0xe74d84e8b3372875)
    ∷ (0x3a65f6a24611c84b, 0xc8db3a0e8bb155ac)
    ∷ (0xc6439632c30c7534, 0x758ac69c0bcd3cae)
    ∷ (0xcfe1d33ebebc0a60, 0x0abdcf314689090f)
    ∷ (0x341831aa10702392, 0x23403479fdc973d3)
    ∷ (0x5255943566f18eac, 0x8e5b52fcb2e0b3c9)
    ∷ (0x2f3dfebe9763a26e, 0xa2192f4d2a052cf3)
    ∷ (0x823550d826f202a1, 0x029882dbc042bc03)
    ∷ (0xc76aa0734c270481, 0x04f3c7754384bb06)
    ∷ (0x364a5d28cd26c13b, 0xc1b236686d5bbe40)
    ∷ (0x537ca274e9daff19, 0xff225315faa93461)
    ∷ (0x588c8bfa493c62e4, 0x62e758a9277fcc53)
    ∷ (0x85ead2dc0d23962c, 0x96348501fb7eafdd)
    ∷ (0x814e0a1b748f91bd, 0x911381231899f638)
    ∷ (0x3195df2ce6f755b6, 0x551e31b25667ad9e)
    ∷ (0xae73f4a5e3ec33d3, 0x330aae6e329cdacb)
    ∷ (0x6830629720e046e7, 0x468068f23951e665)
    ∷ (0xa4aaeb6acc21df9b, 0xdfb6a43ba703a551)
    ∷ (0x170a649e0c24888c, 0x883017523126b4cc)
    ∷ (0x40d21e2d9c527004, 0x703540652868d948)
    ∷ (0xb7045733b9a95086, 0x50a1b74b75c24878)
    ∷ (0xe8575ecddb44a6ef, 0xa6eae838698197f5)
    ∷ (0xa6f887e811773d32, 0x3d44a62a379168c2)
    ∷ (0xb0dbd5379278c40b, 0xc40db0914efe5ba6)
    ∷ (0xf4ad13dd7786b39e, 0xb31ff4d68571db0b)
    ∷ (0xd7bf46e96bd21880, 0x186fd7fd499e1c14)
    ∷ (0x037b5ac3527d931c, 0x938b03f8d8db4a3b)
    ∷ (0x41fb286c137901b1, 0x014c418c60215ee0)
    ∷ (0xde1d03e5166267d4, 0x6758de5004da29b5)
    ∷ (0xac2198273ebad17a, 0xd1f8ac7fa20e1758)
    ∷ (0xf9ab8e16739acb5b, 0xcb0ff9592bd2b74f)
    ∷ (0xa25c5f2f68db3aa3, 0x3a63a208d4763127)
    ∷ (0x4b2237a33cb4edf9, 0xedf04bd9f5be217a)
    ∷ (0xb62d617236822133, 0x21d8b6a23d8bcfd0)
    ∷ (0x4f86ef644518ea68, 0xead74ffb1659789f)
    ∷ (0x74ca2f878c225396, 0x5375741cd5a1aa9b)
    ∷ (0xea05324f06124446, 0x4418ea29f9135a66)
    ∷ (0x20690ff74e293802, 0x38fb20d314348d24)
    ∷ (0x2b992679eecfa5ff, 0xa53e2b6fc9e27516)
    ∷ (0x4476c6eae5fe7795, 0x77124447cb8f80ad)
    ∷ (0x8f33cd1322ee7a64, 0x7a888f546ee1d047)
    ∷ (0x8abe2395d4690c40, 0x0cd68a9fc54f0e0a)
    ∷ (0x9a6bc50ff39c1041, 0x104a9a17cf55a918)
    ∷ (0xa375696ee7f04b16, 0x4b1aa3e19c3fb68f)
    ∷ (0xe0dc2d8029dfa80e, 0xa8a4e07c6c8c25fc)
    ∷ (0xc19c1436e8dde1b9, 0xe126c14630f12f70)
    ∷ (0x0bf0298ea0e69dfd, 0x9dc50bbcddd6f832)
    ∷ (0x3fe81824b096be6f, 0xbe853fc5201f8be1)
    ∷ (0x04a4d8c779ac0791, 0x07270422e3e759e5)
    ∷ (0xc2e74ef5baa072a5, 0x72adc2bee82a654b)
    ∷ (0xad08ae66b191a0cf, 0xa081ad96ea4790f0)
    ∷ (0x29cb4afb33994756, 0x47cc297e5970b885)
    ∷ (0xf120fd5b8101c5ba, 0xc541f11d2edf0546)
    ∷ (0xdf3435a499491661, 0x1621dfb94c93ae1d)
    ∷ (0x43a944eece2fe318, 0xe3be439df0b39373)
    ∷ (0x09a2450c7db07f54, 0x7f3709ad4d4435a1)
    ∷ (0x676493def9aadc8b, 0xdc62676c076047b2)
    ∷ (0x664da59f7681ad3e, 0xad1b66854f29c01a)
    ∷ (0xe97e688c546fd75a, 0xd793e9d121c8105d)
    ∷ (0xbddd48fc9664bcce, 0xbc1dbd1ee05d37e2)
    ∷ (0xabfe1a23156b45f7, 0x4554aba599320486)
    ∷ (0xbea6123fc4192fd2, 0x2f96bee638867dd9)
    ∷ (0xf7d6491e25fb2082, 0x2094f72e5daa9130)
    ∷ (0x6192279b5d5039b3, 0x39b7615f7415d3c4)
    ∷ (0x11fcd0dba8de6db4, 0x6de51161425320ba)
    ∷ (0xfe740c12584b5fd6, 0x5fa3fe8310eea491)
    ∷ (0x088b734df29b0ee1, 0x0e4e0844050db209)
    ∷ (0x7d686a8bf1922cc2, 0x2c427db198e59f3a)
    ∷ (0x99109fcca1e1835d, 0x83c199ef178ee323)
    ∷ (0x7b9edece5568c9fa, 0xc9977b82eb900b4c)
    ∷ (0xd232a86f9d556ea4, 0x6e31d236e230c259)
    ∷ (0x33c7b3ae3ba1b71f, 0xb7ec33a3c6f5600d)
    ∷ (0xc0b5227767f6900c, 0x905fc0af78b8a8d8)
    ∷ (0x10d5e69a27f51c01, 0x1c9c10880a1aa712)
    ∷ (0x953f34462ad68a2d, 0x8aa89589f16408cf)
    ∷ (0xbf8f247e4b325e67, 0x5eefbf0f70cffa71)
    ∷ (0x38379a209b472ae2, 0x2a29381f1b23983f)
    ∷ (0x90b2dac0dc51fc09, 0xfcf690425acad682)
    ∷ (0x391eac61146c5b57, 0x5b5039f6536a1f97)
    ∷ (0xd31b9e2e127e1f11, 0x1f48d3dfaa7945f1)
    ∷ (0x214039b6c10249b7, 0x4982213a5c7d0a8c)
    ∷ (0x6ec6d6d2841aa3df, 0xa3556ec14a247213)
    ∷ (0x6fefe0930b31d26a, 0xd22c6f28026df5bb)
    ∷ (0x24cdd73037853f93, 0x3fdc24f1f7d3d4c1)
    ∷ (0x058dee86f6877624, 0x765e05cbabaede4d)
    ∷ (0xfc266090851dbd7f, 0xbd51fc92807c6902)
    ∷ (0xaf5ac2e46cc74266, 0x4273af877ad55d63)
    ∷ (0x3b4cc0e3c93ab9fe, 0xb9a23be7c3f8d204)
    ∷ (0x706ef740f58e5407, 0x5452703e3646f37e)
    ∷ (0xca6c3db8483b7c44, 0x7ce3cafaed27d742)
    ∷ (0x769843055174b13f, 0xb187760d45336708)
    ∷ (0x5bf7d1391b41f1f8, 0xf16c5b51ffa48668)
    ∷ (0x60bb11dad27b4806, 0x48ce60b63c5c546c)
    ∷ (0xfd0f56d10a36ccca, 0xcc28fd7bc835eeaa)
    ∷ (0x428072af410492ad, 0x92c74274b8fa14db)
    ∷ (0xf584259cf8adc22b, 0xc266f53fcd385ca3)
    ∷ (0x723c9bc228d8b6ae, 0xb6a0722fa6d43eed)
    ∷ (0x6536ff5c24fc3e22, 0x3e90657d97f28a21)
    ∷ (0x162352df830ff939, 0xf94916bb796f3364)
    ∷ (0x7e133048a3efbfde, 0xbfc97e49403ed501)
    ∷ (0x231255341c54ab1e, 0xab70232bccefc71f)
    ∷ (0x12878a18faa3fea8, 0xfe6e12999a886a81)
    ∷ (0xc917677b1a46ef58, 0xef68c90235fc9d79)
    ∷ (0x57d87ab39076f888, 0xf8055737194e6d84)
    ∷ (0xb47f0df0ebd4c39a, 0xc32ab4b3ad190243)
    ∷ (0x5f5309fe62edf669, 0xf64b5f731c43df8d)
    ∷ (0xc538ccf19171e628, 0xe601c564d3167695)
    ∷ (0x9fe62b89051b6665, 0x66149fdc64fb7755)
    ∷ (0xcec8e57f31977bd5, 0x7bc4ced80ec08ea7)
    ∷ (0xcc9a89fdecc1997c, 0x9936ccc99e524334)
    ∷ (0x919bec81537a8dbc, 0x8d8f91ab1283512a)
    ∷ (0x06f6b445a4fae538, 0xe5d5063373759476)
    ∷ (0x7ab7e88fda43b84f, 0xb8ee7a6ba3d98ce4)
    ∷ (0x185e95d7d56e12e0, 0x12d218cc0f17151b)
    ∷ (0x353107eb9f5b5227, 0x52393590b580f47b)
    ∷ (0x6c94ba50594c4176, 0x41a76cd0dab6bf80)
    ∷ (0x8c4897d07093e978, 0xe9038cacb63a9a7c)
    ∷ (0x470d9c29b783e489, 0xe49947bf1354ca96)
    ∷ (0x07df82042bd1948d, 0x94ac07da3b3c13de)
    ∷ (0x62e97d580f2daaaf, 0xaa3c62a7acce99ff)
    ∷ (0xe478f5475073af9f, 0xaf83e45e8f6b7c19)
    ∷ (0x976d58c4f7806884, 0x685a979861f6c55c)
    ∷ (0x78e5840d07155ae6, 0x5a1c787a334b4177)
    ∷ (0xcb450bf9c7100df1, 0x0d9acb13a56e50ea)
    ∷ (0xff5d3a53d7602e63, 0x2edaff6a58a72339)
    ∷ (0x59a5bdbbc6171351, 0x139e59406f364bfb)
    ∷ (0xdd665926441ff4c8, 0xf4d3dda8dc01638e)
    ∷ (0x30bce96d69dc2403, 0x2467305b1e2e2a36)
    ∷ (0xc83e513a956d9eed, 0x9e11c8eb7db51ad1)
    ∷ (0x0c2fab8a8b370970, 0x09690c66e6eaebec)
    ∷ (0x4624aa6838a8953c, 0x95e046565b1d4d3e)
    ∷ (0x37636b69420db08e, 0xb0cb3781251239e8)
    ∷ (0x0e7dc7085661ebd9, 0xeb9b0e777678267f)
    ∷ (0xc3ce78b4358b0310, 0x03d4c357a063e2e3)
    ∷ (0x63c04b198006db1a, 0xdb45634ee4871e57)
    ∷ (0xc411fab01e5a979d, 0x9778c48d9b5ff13d)
    ∷ (0xf882b857fcb1baee, 0xba76f8b0639b30e7)
    ∷ (0xeddab04b2dc3d0cb, 0xd0b4edf3c22f49b8)
    ∷ (0x641fc91dabd74f97, 0x4fe96494dfbb0d89)
    ∷ (0xcdb3bfbc63eae8c9, 0xe84fcd20d61bc49c)
    ∷ (0x9c9d714a5766f579, 0xf59f9c24bc203d6e)
    ∷ (0x7147c1017aa525b2, 0x252b71d77e0f74d6)
    ∷ (0xd69670a8e4f96935, 0x6916d61401d79bbc)
    ∷ (0x0f54f149d94a9a6c, 0x9ae20f9e3e31a1d7)
    ∷ (0xd4c41c2a39af8b9c, 0x8be4d4059145562f)
    ∷ (0x7315ad83a7f3c71b, 0xc7d973c6ee9db945)
    ∷ (0x5007f8b7bba76c05, 0x6ca950ed22727e5a)
    ∷ (0x49705b21e1e20f50, 0x0f0249c8652cece9)
    ∷ (0xdb90ed63e0e511f0, 0x1106db9baf74f7f8)
    ∷ (0x8e1afb52adc50bd1, 0x0bf18ebd26a857ef)
    ∷ (0xe3a777437ba23b12, 0x3b2fe384b4576fc7)
    ∷ (0xa7d1b1a99e5c4c87, 0x4c3da7c37fd8ef6a)
    ∷ (0x80673c5afba4e008, 0xe06a80ca50d07190)
    ∷ (0xd9c281e13db3f359, 0xf3f4d98a3fe63a6b)
    ∷ (0x1b25cf14871381fc, 0x81591b34d7cc5f20)
    ∷ (0x558a16314d201a21, 0x1af7552689dca017)
    ∷ (0x87b8be5ed0757485, 0x74c687106bec624e)
    ∷ (0x1977a3965a456355, 0x63ab1925475e92b3)
    ∷ (0x6a620e15fdb6a44e, 0xa4726ae3a9c32bf6)
    ∷ (0xd8ebb7a0b29882ec, 0x828dd86377afbdc3)
    ∷ (0x6b4b3854729dd5fb, 0xd50b6b0ae18aac5e)
    ∷ (0xe62a99c58d254d36, 0x4d71e64f1ff9b18a)
    ∷ (0x5c28533d30906575, 0x65c05c8bc49895b6)
    ∷ (0xf6ff7f5faad05137, 0x51edf6c715e31698)
    ∷ (0x89c5795686149f5c, 0x9f5d89671d944431)
    ∷ (0xbb2bfcb9329e59f6, 0x59c8bb2d9328a394)
    ∷ (0x9b42f34e7cb761f4, 0x61339bfe871c2eb0)
    ∷ (0x8d61a191ffb898cd, 0x987a8d45fe731dd4)
    ∷ (0x7f3a06092cc4ce6b, 0xceb07fa0087752a9)
    ∷ (0xb289b9b54f2e26a2, 0x26ffb280de6c9635)
    ∷ (0x0000000000000000, 0x0000000000000000)
    ∷ (0x32ee85efb48ac6aa, 0xc695324a8ebce7a5)
    ∷ (0x1cfa4d10acc21571, 0x15f51ceeecf04cfe)
    ∷ (0xaad72c629a403442, 0x342daa4cd17b832e)
    ∷ []
