-- ===== src/Kuznyechik/Tables/It14.antt =====
-- internal/kuznyechik/tables.go: `it[14]`, 256 entries of two words.
use kubebao.Common.{ℕ, List, [], ◌∷◌}

unfoldable pub it_row14 : List (ℕ × ℕ)
it_row14 =
    (0x4a428169d2d95247, 0x7c4730a95d53e74e)
    ∷ (0x9712df2e5c31dbe9, 0x1ce9980b15833f34)
    ∷ (0xbcca12254abe268f, 0x8c8ff77fe958f887)
    ∷ (0xe139052a54a14a4e, 0x2e4e953bd351b68d)
    ∷ (0x78d2b6da77924503, 0x9c037af1f5c1dc2d)
    ∷ (0x2ea1efcc5b4f7ccf, 0x7fcfa419ceb49188)
    ∷ (0x23ce9dee1f0dd70c, 0x350c2b425282f6b4)
    ∷ (0xb8c13ab6afff33ba, 0x3fbad564be950165)
    ∷ (0x95f6cb86cff03012, 0xa41289e7df04a245)
    ∷ (0xf903f5c64fe434f0, 0x02f05961e2bae584)
    ∷ (0xb2337efb35bcf22b, 0x222b80beda4bad13)
    ∷ (0x6a1a027bf694fa2c, 0xad2ce371a0f42352)
    ∷ (0xdc22541326691d32, 0x3c3241d42d7277a3)
    ∷ (0x3e8d4fc54988281b, 0xf61b2c755106f386)
    ∷ (0xe04b0f7efc20ded2, 0x72d27c4db6f31954)
    ∷ (0x833557b4abb79a08, 0x2608327cddfca4d8)
    ∷ (0xbb57244a94bf4cdd, 0xdbdd2dfe11b033cd)
    ∷ (0xdbbf627cf8687760, 0x6b609b55d59abce9)
    ∷ (0x4e49a9fa37984772, 0xcf7212b20a9e1eac)
    ∷ (0xed247d5cb8627511, 0x3811f3162ac57e68)
    ∷ (0xf067af77eee78a06, 0xfb06f42129417b5a)
    ∷ (0x5c811d5bb69ef85d, 0xfe5d8b325fabe1d3)
    ∷ (0x3c695b6dda49c3e0, 0x4ee03d999b816ef7)
    ∷ (0x17b19666ccc63e86, 0xde8652ed675aa944)
    ∷ (0x7dab941d3a52c4aa, 0x73aab19cc7ae8a16)
    ∷ (0xd43404f62feb3758, 0x995805e2832b46a4)
    ∷ (0xe92f55cf5d236024, 0x8b24d10d7d08878a)
    ∷ (0xebcb4167cee28bdf, 0x33dfc0e1b78f1afb)
    ∷ (0x70c4e63f7e106f69, 0x39693ec75b98ed2a)
    ∷ (0xcd7cfe4e9c2fdd7a, 0xe97a20ced762ba74)
    ∷ (0x03961efc3b407f67, 0xe467f89aaf2532a8)
    ∷ (0x1fa7c683c54414ec, 0x7bec16dbc9039843)
    ∷ (0x8cbe313e7c34da30, 0xd430accb8b4d5e95)
    ∷ (0x081650e509822a6a, 0xa56a4436ae593107)
    ∷ (0x7352f8c34550100e, 0xdd0ec65df4bddf82)
    ∷ (0xeab94b3366631f43, 0x6f432997d22db522)
    ∷ (0x4254d18cdb5b782d, 0xd92d749ff30ad649)
    ∷ (0x13babef529872bb3, 0x6db370f6309750a6)
    ∷ (0x9c9291376ef38ee4, 0x5de424a714ff3c9b)
    ∷ (0x1948fab8b3c4ea22, 0x7022252c5449fcd0)
    ∷ (0x55e547ea179d46ab, 0x07ab267294507f0d)
    ∷ (0x873e7f274ef68f3d, 0x953d10678a315d3a)
    ∷ (0x2c45fb64c88e9734, 0xc734b5f504330cf9)
    ∷ (0x22bc97bab78c4390, 0x6990c2343720596d)
    ∷ (0xfa95eb3a74a44b97, 0xe697a1fb4d9fd72c)
    ∷ (0x6b68082f5e156eb0, 0xf1b00a07c5568c8b)
    ∷ (0xb4dc42c0433c0ce5, 0x29e5b3494701c980)
    ∷ (0xc2f798c44bac9d42, 0x1b42be7981d34039)
    ∷ (0xb5ae4894ebbd9879, 0x75795a3f22a36659)
    ∷ (0x75bdc4f833d0eec0, 0xd6c0f5aa69f7bb11)
    ∷ (0x465ff91f3e1a6d18, 0x6a185684a4c72fab)
    ∷ (0x698c1c87cdd4854b, 0x494b1beb0fd111fa)
    ∷ (0x212a89468ccc3cf7, 0x8df73aae98056bc5)
    ∷ (0xe85d5f9bf5a2f4b8, 0xd7b8387b18aa2853)
    ∷ (0x5e6509f3255f13a6, 0x46a69ade952c7ca2)
    ∷ (0xfc7ad7010224b559, 0xed59920cd0d5b3bf)
    ∷ (0x7b44a8264cd23a64, 0x7864826b5ae4ee85)
    ∷ (0x7cd99e4992d35036, 0x2f3658eaa20c25cf)
    ∷ (0xcb93c275eaaf23b4, 0xe2b413394a28dee7)
    ∷ (0xcf98eae60fee3681, 0x518131221de52705)
    ∷ (0xab7b844386781809, 0x5209a5928e0251c3)
    ∷ (0x9de09b63c6721a78, 0x0178cdd1715d9342)
    ∷ (0x37e91574e88b96ed, 0x0fed81359afd6d58)
    ∷ (0x0c1d7876ecc33f5f, 0x165f662df994c8e5)
    ∷ (0x637e58ca579744da, 0x54da4e316b0fbd8c)
    ∷ (0xd5460ea2876aa3c4, 0xc5c4ec94e689e97d)
    ∷ (0xe2af1bd66fe13529, 0xca296da17c748425)
    ∷ (0xa582e89df97accad, 0xfcadd253bd110457)
    ∷ (0xd8297c80c3280807, 0x8f0763cf7abf8e41)
    ∷ (0xb74a5c3c787c7382, 0xcd824bd3e824fb28)
    ∷ (0x6cf53e40801404e2, 0xa6e2d0863dbe47c1)
    ∷ (0xa4f0e2c951fb5831, 0xa0313b25d8b3ab8e)
    ∷ (0x1d43d22b5685ff17, 0xc317073703840532)
    ∷ (0x79a0bc8edf13d19f, 0xc09f9387906373f4)
    ∷ (0xfbe7e16edc25df0b, 0xba0b488d283d78f5)
    ∷ (0x350d01dc7b4a7d16, 0xb71690d9507af029)
    ∷ (0x45c9e7e3055a127f, 0x8e7fae1e0be21d03)
    ∷ (0x3106294f9e0b6823, 0x0423b2c207b709cb)
    ∷ (0x20588312244da86b, 0xd16bd3d8fda7c41c)
    ∷ (0x057922c74dc081a9, 0xefa9cb6d326f563b)
    ∷ (0x1c31d87ffe046b8b, 0x9f8bee416626aaeb)
    ∷ (0xb34174af9d3d66b7, 0x7eb769c8bfe902ca)
    ∷ (0xbdb81871e23fb213, 0xd0131e098cfa575e)
    ∷ (0xe6a433458aa0201c, 0x791c4fba2bb97dc7)
    ∷ (0x02e414a893c1ebfb, 0xb8fb11ecca879d71)
    ∷ (0x8b230751a235b062, 0x8362764a73a595df)
    ∷ (0xa99f90eb15b9f3f2, 0xeaf2b47e4485ccb2)
    ∷ (0x7759d050a011053b, 0x6e3be446a3702660)
    ∷ (0xf115a52346661e9a, 0xa79a1d574ce3d483)
    ∷ (0x9660d57af4b04f75, 0x4075717d702190ed)
    ∷ (0xefc069f42ba39eea, 0x80eae2fae042e319)
    ∷ (0xb0d76a53a67d19d0, 0x9ad0915210cc3062)
    ∷ (0x9a7dad0c1873702a, 0x562a175089b55808)
    ∷ (0x0af2444d9a43c191, 0x1d9155da64deac76)
    ∷ (0x509c652d5a5dc702, 0xe802ed1fa63f2936)
    ∷ (0x620c529eff16d046, 0x0846a7470ead1255)
    ∷ (0x762bda04089091a7, 0x32a70d30c6d289b9)
    ∷ (0x9319f7bdb970cedc, 0xafdcba10424ec6d6)
    ∷ (0x91fde3152ab12527, 0x1727abfc88c95ba7)
    ∷ (0xeeb263a083220a76, 0xdc760b8c85e04cc0)
    ∷ (0x0ef96cde7f02d4a4, 0xaea477c133135594)
    ∷ (0xa614f661c23ab3ca, 0x18ca2ac9123436ff)
    ∷ (0xd2db38cd596bc996, 0x929636151e612237)
    ∷ (0x1ed5ccd76dc58070, 0x2770ffadaca1379a)
    ∷ (0xf7fa991830e6e054, 0xac542ea0d1a9b010)
    ∷ (0x1427889af78641e1, 0x3ae1aa77c87f9bec)
    ∷ (0x80a3494890f7e56f, 0xc26fcae672d99670)
    ∷ (0x27c5b57dfa4cc239, 0x86390959054f0f56)
    ∷ (0xf46c87e40ba69f33, 0x4833d63a7e8c82b8)
    ∷ (0x4b308b3d7a58c6db, 0x20dbd9df38f14897)
    ∷ (0xae02a684cbb899a0, 0xbda06effbc6d07f8)
    ∷ (0x8a510d050ab424fe, 0xdffe9f3c16073a06)
    ∷ (0x3bf46d020448a9b2, 0x19b2e7186369a5bd)
    ∷ (0xc56aaeab95adf710, 0x4c1064f8793b8b73)
    ∷ (0x369b1f20400a0271, 0x53716843ff5fc281)
    ∷ (0x3fff4591e109bc87, 0xaa87c50334a45c5f)
    ∷ (0x040b2893e5411535, 0xb335221b57cdf9e2)
    ∷ (0x0f8b668ad7834038, 0xf2389eb756b1fa4d)
    ∷ (0x079d366fde016a52, 0x5752da81f8e8cb4a)
    ∷ (0x530a7bd1611db865, 0x0c651585091a1b9e)
    ∷ (0xc3859290e32d09de, 0x47de570fe471efe0)
    ∷ (0x9484c1d26771a48e, 0xf88e6091baa60d9c)
    ∷ (0x2d37f130600f03a8, 0x9ba85c836191a320)
    ∷ (0xf283bbdf7d2661fd, 0x43fde5cde3c6e62b)
    ∷ (0x3a866756acc93d2e, 0x452e0e6e06cb0a64)
    ∷ (0x284ed3f72dcf8201, 0x740197ee53fef51b)
    ∷ (0x7a36a272e453aef8, 0x24f86b1d3f46415c)
    ∷ (0xc418a4ff3d2c638c, 0x108c8d8e1c9924aa)
    ∷ (0x908fe9418230b1bb, 0x4bbb428aed6bf47e)
    ∷ (0x391079aa97894249, 0xa149f6f4a9ee38cc)
    ∷ (0x329037b3a54b1744, 0xe0444a58a8923b63)
    ∷ (0x3074231b368afcbf, 0x58bf5bb46215a612)
    ∷ (0x67757059b2d651ef, 0xe7ef6c2a3cc2446e)
    ∷ (0xdacd682850e9e3fc, 0x37fc7223b0381330)
    ∷ (0x5f1703a78dde873a, 0x1a3a73a8f08ed37b)
    ∷ (0x4326dbd873daecb1, 0x85b19de996a87990)
    ∷ (0x52787185c99c2cf9, 0x50f9fcf36cb8b447)
    ∷ (0x89c713f931f45b99, 0x3b9967a6b92208ae)
    ∷ (0x33e23de70dca83d8, 0xbcd8a32ecd3094ba)
    ∷ (0xdec640bbb5a8f6c9, 0x84c95038e7f5ead2)
    ∷ (0xf3f1b18bd5a7f561, 0x1f610cbb866449f2)
    ∷ (0xaf70acd063390d3c, 0xe13c8789d9cfa821)
    ∷ (0x4cadbd52a459ac89, 0x7789035ec01983dd)
    ∷ (0x5b1c2b34689f920f, 0xa90f51b3a7432a99)
    ∷ (0x74cfceac9b517a5c, 0x8a5c1cdc0c5514c8)
    ∷ (0x183af0ec1b457ebe, 0x2cbecc5a31eb5309)
    ∷ (0x2521a1d5698d29c2, 0x3ec218b5cfc89227)
    ∷ (0xfd08dd55aaa521c5, 0xb1c57b7ab5771c66)
    ∷ (0x64e36ea589962e88, 0x038894b093e776c6)
    ∷ (0x864c7573e6771ba1, 0xc9a1f911ef93f2e3)
    ∷ (0xceeae0b2a76fa21d, 0x0d1dd854784788dc)
    ∷ (0xad94b878f0f8e6c7, 0x59c7966513483550)
    ∷ (0xf871ff92e765a06c, 0x5e6cb01787184a5d)
    ∷ (0x6f6320bcbb547b85, 0x4285281c929b7569)
    ∷ (0x293cd9a3854e169d, 0x289d7e98365c5ac2)
    ∷ (0xc805dc89d1ef5cd3, 0x06d3eba3e50dec4f)
    ∷ (0x9899b9a48bb29bd1, 0xeed106bc4332c579)
    ∷ (0xb6385668d0fde71e, 0x911ea2a58d8654f1)
    ∷ (0xffecc9fd3964ca3e, 0x093e6a967ff08117)
    ∷ (0x472df34b969bf984, 0x3684bff2c1658072)
    ∷ (0x12c8b4a18106bf2f, 0x312f99805535ff7f)
    ∷ (0x155582ce5f07d57d, 0x667d4301addd3435)
    ∷ (0xbe2e068dd97fcd74, 0x3474e69323df65f6)
    ∷ (0xba252e1e3c3ed841, 0x8741c48874129c14)
    ∷ (0x57015342845cad50, 0xbf50379e5ed7e27c)
    ∷ (0x619a4c62c456af21, 0xec215fdda18820fd)
    ∷ (0xdfb44aef1d296255, 0xd855b94e8257450b)
    ∷ (0xe44027ed1961cbe7, 0xc1e75e56e13ee0b6)
    ∷ (0x7e3d8ae10112bbcd, 0x97cd4906688bb8be)
    ∷ (0x0b804e1932c2550d, 0x410dbcac017c03af)
    ∷ (0x3d1b513972c8577c, 0x127cd4effe23c12e)
    ∷ (0x54974dbebf1cd237, 0x5b37cf04f1f2d0d4)
    ∷ (0x16c39c326447aa1a, 0x821abb9b02f8069d)
    ∷ (0xfe9ec3a991e55ea2, 0x55a283e01a522ece)
    ∷ (0xf51e8db0a3270baf, 0x14af3f4c1b2e2d61)
    ∷ (0x09645ab1a103bef6, 0xf9f6ad40cbfb9ede)
    ∷ (0xbf5c0cd971fe59e8, 0x68e80fe5467dca2f)
    ∷ (0x6d8734142895907e, 0xfa7e39f0581ce818)
    ∷ (0x2453ab81c10cbd5e, 0x625ef1c3aa6a3dfe)
    ∷ (0x2aaac75fbe0e69fa, 0xccfa86029979686a)
    ∷ (0xe3dd1182c760a1b5, 0x96b584d719d62bfc)
    ∷ (0x7220f297edd18492, 0x81922f2b911f705b)
    ∷ (0xa766fc356abb2756, 0x4456c3bf77969926)
    ∷ (0xd14d2631622bb6f1, 0x76f1ce8fb144109f)
    ∷ (0xa0fbca5ab4ba4d04, 0x1304193e8f7e526c)
    ∷ (0xa8ed9abfbd38676e, 0xb66e5d082127636b)
    ∷ (0x26b7bf2952cd56a5, 0xdaa5e02f60eda08f)
    ∷ (0xcc0ef41a34ae49e6, 0xb5e6c9b8b2c015ad)
    ∷ (0xf688934c986774c8, 0xf0c8c7d6b40b1fc9)
    ∷ (0xe5322db9b1e05f7b, 0x9d7bb720849c4f6f)
    ∷ (0x66077a0d1a57c573, 0xbb73855c5960ebb7)
    ∷ (0x7f4f80b5a9932f51, 0xcb51a0700d291767)
    ∷ (0xaa098e172ef98c95, 0x0e954ce4eba0fe1a)
    ∷ (0x2bd8cd0b168ffd66, 0x90666f74fcdbc7b3)
    ∷ (0x40b0c524489a93d6, 0x61d66573398d4b38)
    ∷ (0xace6b22c5879725b, 0x055b7f1376ea9a89)
    ∷ (0x44bbedb7addb86e3, 0xd2e347686e40b2da)
    ∷ (0xa36dd4a68ffa3263, 0xf763e1a4205b60c4)
    ∷ (0xd95b76d46ba99c9b, 0xd39b8ab91f1d2198)
    ∷ (0x60e846366cd73bbd, 0xb0bdb6abc42a8f24)
    ∷ (0xc6fcb057aeed8877, 0xa8779c62d61eb9db)
    ∷ (0xec56770810e3e18d, 0x648d1a604f67d1b1)
    ∷ (0x48a695c14118b9bc, 0xc4bc214597d47a3f)
    ∷ (0x81d1431c387671f3, 0x9ef32390177b39a9)
    ∷ (0x59f83f9cfb5e79f4, 0x11f4405f6dc4b7e8)
    ∷ (0xb9b330e2077ea726, 0x63263c12db37aebc)
    ∷ (0x102ca00912c754d4, 0x89d4886c9fb2620e)
    ∷ (0xe7d639112221b480, 0x2580a6cc4e1bd21e)
    ∷ (0x5a6e2160c01e0693, 0xf593b8c5c2e18540)
    ∷ (0x9b0fa758b0f2e4b6, 0x0ab6fe26ec17f7d1)
    ∷ (0x4ddfb7060cd83815, 0x2b15ea28a5bb2c04)
    ∷ (0x567359162cdd39cc, 0xe3ccdee83b754da5)
    ∷ (0x8dcc3b6ad4b54eac, 0x88ac45bdeeeff14c)
    ∷ (0x5df3170f1e1f6cc1, 0xa2c162443a094e0a)
    ∷ (0x4f3ba3ae9f19d3ee, 0x93eefbc46f3cb175)
    ∷ (0xdd505e478ee889ae, 0x60aea8a248d0d87a)
    ∷ (0x01720a54a881949c, 0x5c9ce97665a2afd9)
    ∷ (0x1bacee10200501d9, 0xc8d934c09ece61a1)
    ∷ (0xd6d0105ebc2adca3, 0x21a3140e49acdbd5)
    ∷ (0xc161863870ece225, 0xff2546e32ef67291)
    ∷ (0xc78eba03066c1ceb, 0xf4eb7514b3bc1602)
    ∷ (0x926bfde911f15a40, 0xf340536627ec690f)
    ∷ (0x115eaa5dba46c048, 0xd548611afa10cdd7)
    ∷ (0xd03f2c65caaa226d, 0x2a6d27f9d4e6bf46)
    ∷ (0xcae1c821422eb728, 0xbe28fa4f2f8a713e)
    ∷ (0xa21fdef2277ba6ff, 0xabff08d245f9cf1d)
    ∷ (0xd3a93299f1ea5d0a, 0xce0adf637bc38dee)
    ∷ (0xc977d6dd796ec84f, 0x5a4f02d580af4396)
    ∷ (0x6e112ae813d5ef19, 0x1e19c16af739dab0)
    ∷ (0x2fd3e598f3cee853, 0x23534d6fab163e51)
    ∷ (0x71b6ec6bd691fbf5, 0x65f5d7b13e3a42f3)
    ∷ (0xc0138c6cd86d76b9, 0xa3b9af954b54dd48)
    ∷ (0x8e5a2596eff531cb, 0x6ccbbd2741cac3e4)
    ∷ (0x1adee44488849545, 0x9445ddb6fb6cce78)
    ∷ (0x8f282fc24774a557, 0x3057545124686c3d)
    ∷ (0x68fe16d3655511d7, 0x15d7f29d6a73be23)
    ∷ (0x588a35c853dfed68, 0x4d68a92908661831)
    ∷ (0xb1a560070efc8d4c, 0xc64c7824756e9fbb)
    ∷ (0x49d49f95e9992d20, 0x9820c833f276d5e6)
    ∷ (0x41c2cf70e01b074a, 0x3d4a8c055c2fe4e1)
    ∷ (0x88b519ad9975cf05, 0x67058ed0dc80a777)
    ∷ (0x85da6b8fdd3764c6, 0x2dc6018b40b6c04b)
    ∷ (0x659164f12117ba14, 0x5f147dc6f645d91f)
    ∷ (0x51ee6f79f2dc539e, 0xb49e0469c39d86ef)
    ∷ (0x386273fe3f08d6d5, 0xfdd51f82cc4c9715)
    ∷ (0x99ebb3f023330f4d, 0xb24defca26906aa0)
    ∷ (0x06ef3c3b7680fece, 0x0bce33f79d4a6493)
    ∷ (0x84a861db75b6f05a, 0x715ae8fd25146f92)
    ∷ (0xd7a21a0a14ab483f, 0x7d3ffd782c0e740c)
    ∷ (0x347f0b88d3cbe98a, 0xeb8a79af35d85ff0)
    ∷ (0x9f048fcb55b3f183, 0xb983dc3dbbda0e33)
    ∷ (0x0d6f72224442abc3, 0x4ac38f5b9c36673c)
    ∷ (0x0000000000000000, 0x0000000000000000)
    ∷ (0x82475de003360e94, 0x7a94db0ab85e0b01)
    ∷ (0x9e76859ffd32651f, 0xe51f354bde78a1ea)
    ∷ (0xa189c00e1c3bd998, 0x4f98f048eadcfdb5)
    ∷ []
