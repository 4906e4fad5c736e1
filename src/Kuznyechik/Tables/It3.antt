-- ===== src/Kuznyechik/Tables/It3.antt =====
-- internal/kuznyechik/tables.go: `it[3]`, 256 entries of two words.
use kubebao.Common.{ℕ, List, [], ◌∷◌}

unfoldable pub it_row3 : List (ℕ × ℕ)
it_row3 =
    (0xc97c0997c50f5fab, 0xfe8781fdbd39c542)
    ∷ (0xf81cdd05decea5bb, 0x2bccdfc36145de12)
    ∷ (0x528c08391fcf1583, 0x1cd5129ea8ff1fca)
    ∷ (0xd22ec32c6699e50d, 0x065f052b24566639)
    ∷ (0x059c2ebffab03e3a, 0x6528b62a3354fad2)
    ∷ (0x927f47c7bbb29d4a, 0x0b1aef9062e3bba1)
    ∷ (0x1435b8b96e85f8e8, 0x57a09da8cc936ece)
    ∷ (0x0d3fdf9aa98d31eb, 0x2c683a054b0aa9c1)
    ∷ (0x36a457b585efb78f, 0x3373cb6ff1de85f6)
    ∷ (0xd302746054d63dbe, 0xa657f5f72b2d5403)
    ∷ (0x7d2238af5d286b0f, 0x546e7e5cdeb85d33)
    ∷ (0x74ad7ec63c5abc6d, 0xbd2602afa99d3c1a)
    ∷ (0x563c91cad730f30a, 0xd9f5546894d0d722)
    ∷ (0x2df69d0e26790d29, 0xcbab4fb968b1268d)
    ∷ (0xb5728674aa68ec17, 0x0ae10f7d6cfaaa4b)
    ∷ (0x1826d06ff54711b0, 0xdbc0577188e2f535)
    ∷ (0xa4db10723e5d2ac5, 0x386924ff933d3e57)
    ∷ (0xa06b8981f6a2cc4c, 0xfd496209af12f6bf)
    ∷ (0x96cfde34734d7bc3, 0xce3aa9665ecc7349)
    ∷ (0x3338790a7f5f89b5, 0x565b7d45c28a7f24)
    ∷ (0x0afb5cbd37a37c74, 0xca50af5466a83767)
    ∷ (0xe7fe8e4db5a7f994, 0x16341de3c405b581)
    ∷ (0xe34e17be7d581f1d, 0xd3145b15f82a7d69)
    ∷ (0x49dec282bc59af25, 0xe40d96483190bcb1)
    ∷ (0x3d73bc4480031348, 0x592b94e7980d80ab)
    ∷ (0xe899fc4f78b4bbda, 0xb94c049d91f97834)
    ∷ (0x6c8baea9c91daddd, 0x66e655de217fc92f)
    ∷ (0xa2332419923cbfe9, 0x7e594172b1e492cb)
    ∷ (0xbb39433a553476ea, 0x0591e6df367d55c4)
    ∷ (0x8ee90e5b860a6a73, 0x15fafe17d62e867c)
    ∷ (0xa9e4cfe897d01b2e, 0x14011efad8379796)
    ∷ (0xf77baf0713dde7f5, 0x84b4c6bd34b913a7)
    ∷ (0x50d4a5a17b516626, 0x9fc531e5b6097bbe)
    ∷ (0xbea56d85af8448d0, 0x60b950f50529af16)
    ∷ (0x12dd8cd2c2e46dc4, 0x1190f825ee4ac252)
    ∷ (0xc56f61415ecdb6f3, 0x72e74b24f9485eb9)
    ∷ (0x77d964126a8b177b, 0x9e3ed108b8106a54)
    ∷ (0x166d15210a1b8b4d, 0xd4b0bed3d2650aba)
    ∷ (0xef5d7f68e69af645, 0x5f7491ccbc5be692)
    ∷ (0x6670f214febed1a9, 0xacb6fa8a47d7fe48)
    ∷ (0x3e07a690d6d2b85e, 0x7a3347408980d6e5)
    ∷ (0x479507cc430535d8, 0xeb7d7fea6b17433e)
    ∷ (0x5cc7cd77e0938f7e, 0x13a5fb3cf278e045)
    ∷ (0x7369fde1a274f1f2, 0x5b1e97fe843fa2bc)
    ∷ (0x7ae6bb88c3062690, 0xb256eb0df31ac395)
    ∷ (0x13f13b9ef0abb577, 0xb19808f9e131f068)
    ∷ (0xec2965bcb04b5d53, 0x7c6c426badd6b0dc)
    ∷ (0xc61b7b95081c1de5, 0x51ff9883e8c508f7)
    ∷ (0x8b7520e47cba5449, 0x70d2483de57a7cae)
    ∷ (0x83d6d1c12f875b98, 0x3992c4129d242fbd)
    ∷ (0x286ab3b1dcc93313, 0xae83f9935be5dc5f)
    ∷ (0xdd49b12eab8aa743, 0xa9271c5571aaab8c)
    ∷ (0xda8d320935a4eadc, 0x4f1f89045c08352a)
    ∷ (0x0bd7ebf105eca4c7, 0x6a585f8869d3055d)
    ∷ (0x294604fdee86eba0, 0x0e8b094f549eee65)
    ∷ (0xebede69b2e6510cc, 0x9a54d73a80742e7a)
    ∷ (0xac78e1576d602514, 0x7129a8d0eb636d44)
    ∷ (0x5a2ff91c4cf21a52, 0x55959eb1d0a14cd9)
    ∷ (0x1fe253486b695c2f, 0x3df8c220a5406b93)
    ∷ (0x405184ebdd2b7847, 0x0d45eabb46b5dd98)
    ∷ (0x1b52cabba396baa6, 0xf8d884d6996fa37b)
    ∷ (0x88013a302a6bff5f, 0x53ca9b9af4f72ae0)
    ∷ (0xf40fb5d3450c4ce3, 0xa7ac151a253445e9)
    ∷ (0xe116ba2619c66cb8, 0x5004786ee6dc191d)
    ∷ (0xad54561b5f2ffda7, 0xd121580ce4185f7e)
    ∷ (0x8fc5b917b445b2c0, 0xb5f20ecbd955b446)
    ∷ (0x7bca0cc4f149fe23, 0x125e1bd1fc61f1af)
    ∷ (0x34fcfa2de171c42a, 0xb063e814ef28e182)
    ∷ (0x098f46696172d762, 0xe9487cf377256129)
    ∷ (0x45cdaa54279b467d, 0x686d5c9175e1274a)
    ∷ (0xe5a623d5d1398a31, 0x95243e98daf3d1f5)
    ∷ (0x53a0bf752d80cd30, 0xbcdde242a7842df0)
    ∷ (0x39c325b748fcf5c1, 0x9c0bd211a4224843)
    ∷ (0x62c06be736413720, 0x6996bc7c7bf836a0)
    ∷ (0x1dbafed00ff72f8a, 0xbee8e15bbbb60fe7)
    ∷ (0x3ab73f631e2d5ed7, 0xbf1301b6b5af1e0d)
    ∷ (0x818e7c594b19283d, 0xba82e76983d24bc9)
    ∷ (0x6504e8c0a86f7abf, 0x8fae292d565aa806)
    ∷ (0xbdd17751f955e3c6, 0x43a1835214a4f958)
    ∷ (0x38ef92fb7ab32d72, 0x3c0322cdab597a79)
    ∷ (0x5e9f60ef840dfcdb, 0x90b5d847ec8e8431)
    ∷ (0x1a7e7df791d96215, 0x58d0740a96149141)
    ∷ (0x35d04d61d33e1c99, 0x106b18c8e053d3b8)
    ∷ (0x2479db67470bda4b, 0x22e3334a1f9447a4)
    ∷ (0xceb88ab05b211234, 0x18bf14ac909b5be4)
    ∷ (0xa683bdea5ac35960, 0xbb7907848dcb5a23)
    ∷ (0xd5ea400bf8b7a892, 0xe067907a09f4f89f)
    ∷ (0x4d6e5b7174a649ac, 0x212dd0be0dbf7459)
    ∷ (0x6da719e5fb52756e, 0xc6eea5022e04fb15)
    ∷ (0x9f40985d123faca1, 0x2772d59529e91260)
    ∷ (0xfd80f3ba247e9b81, 0x4ee469e9521124c0)
    ∷ (0xb39ab21f0609793b, 0x4cd16af04e2306d7)
    ∷ (0x7e56227b0bf9c019, 0x7776adfbcf350b7d)
    ∷ (0x701de735f4a55ae4, 0x7806445995b2f4f2)
    ∷ (0x06e8346bac61952c, 0x4630658d22d9ac9c)
    ∷ (0xca08134393def4bd, 0xdd9f525aacb4930c)
    ∷ (0x2a321e29b85740b6, 0x2d93dae84513b82b)
    ∷ (0xa7af0aa6688c81d3, 0x1b71f75882b06819)
    ∷ (0x6917801633ad93e7, 0x03cee3f4122b33fd)
    ∷ (0x9adcb6e2e88f929b, 0x425a63bf1abde8b2)
    ∷ (0x2fae309642e77e8c, 0x48bb6cc2764742f9)
    ∷ (0x9d1835c576a1df04, 0xa462f6ee371f7614)
    ∷ (0x7992a15c95d78d86, 0x914e38aae29795db)
    ∷ (0x9027ea5fdf2ceeef, 0x880acceb7c15dfd5)
    ∷ (0xfcac44f616314332, 0xeeec99355d6a16fa)
    ∷ (0xe03a0d6a2b89b40b, 0xf00c88b2e9a72b27)
    ∷ (0xb1c21f8762970a9e, 0xcfc1498b50d562a3)
    ∷ (0x4b866f1ad8c7dc80, 0x671db5332f66d8c5)
    ∷ (0x55488b1e81e1581c, 0xfaed87cf855d816c)
    ∷ (0xae204ccf09fe56b1, 0xf2398babf5950930)
    ∷ (0x23bd5840d92597d4, 0xc4dba61b3236d902)
    ∷ (0xc1dff8b29632507a, 0xb7c70dd2c5679651)
    ∷ (0x15190ff55cca205b, 0xf7a86d74c3e85cf4)
    ∷ (0x304c63de298e22a3, 0x7543aee2d307296a)
    ∷ (0x9353f08b89fd45f9, 0xab121f4c6d98899b)
    ∷ (0x4aaad856ea880433, 0xc71545ef201deaff)
    ∷ (0x5fb3d7a3b6422468, 0x30bd289be3f5b60b)
    ∷ (0x48f275ce8e167796, 0x440566943eeb8e8b)
    ∷ (0xf657184b21923f46, 0x24bc36613bc2219d)
    ∷ (0xaf0cfb833bb18e02, 0x52317b77faee3b0a)
    ∷ (0xa1473ecdc4ed14ff, 0x5d4192d5a069c485)
    ∷ (0x51f812ed491ebe95, 0x3fcdc139b9724984)
    ∷ (0x3b9b882f2c628664, 0x1f1bf16abad42c37)
    ∷ (0xc443d60d6c826e40, 0xd2efbbf8f6336c83)
    ∷ (0x72454aad903b2941, 0xfb1667228b449086)
    ∷ (0x03741ad456d1ab16, 0x2318d3a7118d564e)
    ∷ (0xcb24a40fa1912c0e, 0x7d97a286a3cfa136)
    ∷ (0x57102686e57f2bb9, 0x79fda4b49babe518)
    ∷ (0x0e4bc54eff5c9afd, 0x0f70e9a25a87ff8f)
    ∷ (0xdba1854507eb326f, 0xef1779d853730710)
    ∷ (0xcce027283fbf6191, 0x9baf37d78e6d3f90)
    ∷ (0x0258ad98649e73a5, 0x8310237b1ef66474)
    ∷ (0xf2e781b8e96dd9cf, 0xe19c709707ede975)
    ∷ (0xc737ccd93a53c556, 0xf1f7685fe7be3acd)
    ∷ (0x4e1a41a52277e2ba, 0x023503191c322217)
    ∷ (0x1085214aa67a1e61, 0x9280db5ef0bca626)
    ∷ (0xc850bedbf7408718, 0x5e8f7121b242f778)
    ∷ (0x683b375a01e24b54, 0xa3c613281d5001c7)
    ∷ (0xabbc6270f34e688b, 0x97113d81c6c1f3e2)
    ∷ (0x98841b7a8c11e13e, 0xc14a40c4044b8cc6)
    ∷ (0xa31f9355a073675a, 0xde51b1aebe9fa0f1)
    ∷ (0x44e11d1815d49ece, 0xc865ac4d7a9a1570)
    ∷ (0x58775484286c69f7, 0xd685bdcace5728ad)
    ∷ (0x11a996069435c6d2, 0x32882b82ffc7941c)
    ∷ (0xe48a9499e3765282, 0x352cce44d588e3cf)
    ∷ (0x012cb74c324fd8b3, 0xa008f0dc0f7b323a)
    ∷ (0x853ee5aa83e6ceb4, 0x7fa2a19fbffd8321)
    ∷ (0x8cb1a3c3e29419d6, 0x96eadd6cc8d8e208)
    ∷ (0x5b034e507ebdc2e1, 0xf59d6e6ddfda7ee3)
    ∷ (0x20c942948ff43cc2, 0xe7c375bc23bb8f4c)
    ∷ (0x270dc1b311da715d, 0x01fbe0ed0e1911ea)
    ∷ (0x8a5997a84ef58cfa, 0xd0dab8e1ea014e94)
    ∷ (0xb45e3138982734a4, 0xaae9ffa163819871)
    ∷ (0x4c42ec3d46e9911f, 0x8125206202c44663)
    ∷ (0x64285f8c9a20a20c, 0x2fa6d9f159219a3c)
    ∷ (0xb6069ca0fcb94701, 0x29f9dcda7d77fc05)
    ∷ (0xb0eea8cb50d8d22d, 0x6fc9b9575fae5099)
    ∷ (0x2291ef0ceb6a4f67, 0x64d356c73d4deb38)
    ∷ (0x42092973b9b50be2, 0x8e55c9c05843b9ec)
    ∷ (0x4f36f6e910383a09, 0xa23df3c51349102d)
    ∷ (0x71315079c6ea8257, 0xd80eb4859ac9c6c8)
    ∷ (0x87664832e778bd11, 0xfcb282e4a10be755)
    ∷ (0x9c34828944ee07b7, 0x046a06323864442e)
    ∷ (0xc387552af2ac23df, 0x34d72ea9db91f225)
    ∷ (0xf0bf2c208df3aa6a, 0x628c53ec191b8d01)
    ∷ (0x63ecdcab040eef93, 0xc99e4ca07483049a)
    ∷ (0xffd85e2240e0e824, 0xcdf44a924ce740b4)
    ∷ (0xeac151d71c2ac87f, 0x3a5c27e68f0f1c40)
    ∷ (0x949773ac17d30866, 0x4d2a8a1d403a173d)
    ∷ (0x1741a26d385453fe, 0x74b84e0fdd1e3880)
    ∷ (0x841252e6b1a91607, 0xdfaa5143b086b11b)
    ∷ (0x595be3c81a23b144, 0x768d4d16c12c1a97)
    ∷ (0x2e8287da70a8a63f, 0xe8b39c1e793c70c3)
    ∷ (0x25556c2b754402f8, 0x82ebc39610ef759e)
    ∷ (0x3214ce464d105106, 0xf6538d99cdf14d1e)
    ∷ (0xd9f928dd637541ca, 0x6c075aa34d856364)
    ∷ (0xfb68c7d1881f0ead, 0x08d40c6470c8885c)
    ∷ (0x82fa668d1dc8832b, 0x999a34ce925f1d87)
    ∷ (0xe262a0f24f17c7ae, 0x731cabc9f7514f53)
    ∷ (0xcdcc90640df0b922, 0x3ba7c70b81160daa)
    ∷ (0x1c96499c3db8f739, 0x1ee01187b4cd3ddd)
    ∷ (0x7581c98a0e1564de, 0x1d2ef273a6e60e20)
    ∷ (0xfa44709dba50d61e, 0xa8dcfcb87fb3ba66)
    ∷ (0xd0766eb4020796a8, 0x854f26503aa0024d)
    ∷ (0x0c1368d69bc2e958, 0x8c60cad944719bfb)
    ∷ (0xb2b605533446a188, 0xecd99a2c415834ed)
    ∷ (0x2cda2a421436d59a, 0x6ba3bf6567ca14b7)
    ∷ (0xe9b54b034afb6369, 0x1944f4419e824a0e)
    ∷ (0x9bf001aedac04a28, 0xe252936315c6da88)
    ∷ (0x8d9d148fd0dbc165, 0x36e22db0c7a3d032)
    ∷ (0x95bbc4e0259cd0d5, 0xed227ac14f412507)
    ∷ (0xf3cb36f4db22017c, 0x4194804b0896db4f)
    ∷ (0x7c0e8fe36f67b3bc, 0xf4668e80d1c36f09)
    ∷ (0xaa90d53cc101b038, 0x3719cd5dc9bac1d8)
    ∷ (0xb961eea231aa054f, 0x8681c5a4288b31b0)
    ∷ (0xed05d2f0820485e0, 0xdc64b2b7a2ad82e6)
    ∷ (0xe6d2390187e82127, 0xb63ced3fcb7e87bb)
    ∷ (0xa5f7a73e0c12f276, 0x9861d4239c460c6d)
    ∷ (0x6ed30331ad83de78, 0xe5f676a53f89ad5b)
    ∷ (0x04b099f3c8ffe689, 0xc52046f63c2fc8e8)
    ∷ (0x99a8ac36be5e398d, 0x6142b0180b30befc)
    ∷ (0x54643c52b3ae80af, 0x5ae577138a26b356)
    ∷ (0x07c483279e2e4d9f, 0xe63895512da29ea6)
    ∷ (0xd69e5adfae660384, 0xc37f43dd1879aed1)
    ∷ (0xdf111cb6cf14d4e6, 0x2a373f2e6f5ccff8)
    ∷ (0x6a639ac2657c38f1, 0x20d6305303a665b3)
    ∷ (0xbf89dac99dcb9063, 0xc0b1a0290a529d2c)
    ∷ (0x43259e3f8bfad351, 0x2e5d391c57388bd6)
    ∷ (0x76f5d35e58c4cfc8, 0x3e3621d4b76b586e)
    ∷ (0x190a6723c708c903, 0x7bc8a7ad8799c70f)
    ∷ (0x3f2b11dce49d60ed, 0xda3bb79c86fbe4df)
    ∷ (0x97e369784102a370, 0x6e3259ba51b74173)
    ∷ (0x3788e0f9b7a06f3c, 0x937b3bb3fea5b7cc)
    ∷ (0x80a2cb157956f08e, 0x1a8a17b58ca979f3)
    ∷ (0xf1939b6cbfbc72d9, 0xc284a3301660bf3b)
    ∷ (0x3160d4921bc1fa10, 0xd54b5e3edc7c1b50)
    ∷ (0x675c4558ccf1091a, 0x0cbe0a5648accc72)
    ∷ (0xa8c878a4a59fc39d, 0xb409ee26d74ca5ac)
    ∷ (0x262176ff2395a9ee, 0xa1f31031016223d0)
    ∷ (0x6fffb47d9fcc06cb, 0x45fe867930f29f61)
    ∷ (0xfef4e96e72af3097, 0x6dfcba4e439c728e)
    ∷ (0xc0f34ffea47d88c9, 0x17cffd0eca1ca46b)
    ∷ (0xd8d59f91513a9979, 0xcc0faa7f42fe515e)
    ∷ (0xb72a2beccef69fb2, 0x89f12c06720cce3f)
    ∷ (0x78be1610a7985535, 0x3146c876edeca7e1)
    ∷ (0xc2abe266c0e3fb6c, 0x94dfde75d4eac01f)
    ∷ (0x1ecee4045926849c, 0x9df032fcaa3b59a9)
    ∷ (0xd15ad9f830484e1b, 0x2547d68c35db3077)
    ∷ (0x2b1ea9658a189805, 0x8d9b2a344a688a11)
    ∷ (0xf523029f77439450, 0x07a4e5c62a4f77d3)
    ∷ (0xdc65066299c57ff0, 0x092fec897ed199b6)
    ∷ (0x08a3f125533d0fd1, 0x49408c2f785e5313)
    ∷ (0x9e6c2f1120707412, 0x877a25492692205a)
    ∷ (0xcf943dfc696eca87, 0xb8b7e4709fe069de)
    ∷ (0xf9306a49ec817d08, 0x8bc42f1f6e3eec28)
    ∷ (0xba15f476677bae59, 0xa5991603390667fe)
    ∷ (0xb84d59ee03e5ddfc, 0x2689357827f0038a)
    ∷ (0xd4c6f747caf87021, 0x406f60a6068fcaa5)
    ∷ (0x6098c67f52df4485, 0xea869f07650e52d4)
    ∷ (0xde3dabfafd5b0c55, 0x8a3fcff26027fdc2)
    ∷ (0x0f677202cd13424e, 0xaf78197e55fccdb5)
    ∷ (0x892d8d7c182427ec, 0xf3c26b46fb8c18da)
    ∷ (0x3c5f0b08b24ccbfb, 0xf923643b9776b291)
    ∷ (0x61b4713360909c36, 0x4a8e6fdb6a7560ee)
    ∷ (0xbcfdc01dcb1a3b75, 0xe3a9738e1bdfcb62)
    ∷ (0xd7b2ed939c29db37, 0x6377b30117029ceb)
    ∷ (0x910b5d13ed63365c, 0x28023c37736eedef)
    ∷ (0xee71c824d4d52ef6, 0xff7c6110b320d4a8)
    ∷ (0x417d33a7ef64a0f4, 0xad4d1a6749ceefa2)
    ∷ (0x5deb7a3bd2dc57cd, 0xb3ad0be0fd03d27f)
    ∷ (0x46b9b080714aed6b, 0x4b758f36646c7104)
    ∷ (0x864aff7ed53765a2, 0x5cba7238ae70d56f)
    ∷ (0x0000000000000000, 0x0000000000000000)
    ∷ (0x7f7a953739b618aa, 0xd77e5d27c04e3947)
    ∷ (0x21e5f5d8bdbbe471, 0x47cb85602cc0bd76)
    ∷ (0x6b4f2d8e5733e042, 0x80dec08f0cdd5789)
    ∷ []
