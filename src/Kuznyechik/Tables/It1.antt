-- ===== src/Kuznyechik/Tables/It1.antt =====
-- internal/kuznyechik/tables.go: `it[1]`, 256 entries of two words.
use kubebao.Common.{ℕ, List, [], ◌∷◌}

unfoldable pub it_row1 : List (ℕ × ℕ)
it_row1 =
    (0xc397111b1518eccc, 0x9b933a773e7d9af0)
    ∷ (0xcd0591a4324c5203, 0x23a6ad710e447bbd)
    ∷ (0xd8399218a99a0c17, 0x74027d7846f20aad)
    ∷ (0x3c2c688604ab43a5, 0x98407bdb17358384)
    ∷ (0x64bf1372463d39d4, 0x40ea1b794e18c451)
    ∷ (0x4ec715c9b35285fc, 0xee61786bdeb72671)
    ∷ (0x53b94c0bdbf4e4d6, 0xc32e6c27fb609687)
    ∷ (0xfb9a54a2898b5176, 0x3e47236ffe999807)
    ∷ (0x3db5f2f922a59dd2, 0x0665829b529032e8)
    ∷ (0xf660b99cc4cd4e20, 0xe71d7ca9018c69fe)
    ∷ (0x4daf7848d9402465, 0x8f0eb0ab119b36c5)
    ∷ (0x18c6ee82d6904142, 0x8efe8fcfb7a380e9)
    ∷ (0x76ca50702fc13846, 0x4bb561731e532486)
    ∷ (0xc20e8b64331632bb, 0x05b6c3377bd82b9c)
    ∷ (0x4474b8490c3ec52c, 0x6bc08dae395f464f)
    ∷ (0x626fc9b39219b825, 0x8234483a1340e4fa)
    ∷ (0x7372e73091f7182e, 0xe804faf08c271499)
    ∷ (0xdd81255817ac2c7f, 0xd7b3e6fbd4863ab2)
    ∷ (0xe034d7a13509b1ad, 0xd1d664608616085a)
    ∷ (0x590ae18b6498a406, 0x468f99e21c88f6b9)
    ∷ (0xc8bd26e48c7a726b, 0x801736f29c304ba2)
    ∷ (0x9c4d2a51a5a4c93b, 0x1fc2f0d67fad4ce2)
    ∷ (0x32bee83923fffd6a, 0x2075ecdd270c62c9)
    ∷ (0x2782eb85b829a37e, 0x77d13cd46fba13d9)
    ∷ (0x3f4405076eb9e23c, 0xf92fb31bd8199330)
    ∷ (0x304f1fc76fe38284, 0xdf3fdd5dad85c311)
    ∷ (0x7aa927314489f967, 0x0ccac7f5a4e36413)
    ∷ (0x8a19446c546036b6, 0x2909e81ff8372d46)
    ∷ (0x223a5cc5061f8316, 0xd460a757fdce23c6)
    ∷ (0x825b1e12a7100988, 0x53e22c5a9556eca0)
    ∷ (0x88e8b392187c4958, 0xd643d99f72be8c9e)
    ∷ (0x6107a432f80b19bc, 0xe35b80fadc6cf44e)
    ∷ (0x8fa1f32cea5616de, 0x8ab8739c6a431d59)
    ∷ (0x46854fb74022bac2, 0x948abc2eb3d6e797)
    ∷ (0xaad2ef571e63ca4e, 0x02237ec88f70af58)
    ∷ (0xf24194a35cf5b03f, 0xda891e6ad65de88d)
    ∷ (0x85125eac553a560e, 0x0f1986598dab7d67)
    ∷ (0x04212d3f9838fe1f, 0x3d9462c3d7d18173)
    ∷ (0x03686d816a12a199, 0x616fc8c0cf2c10b4)
    ∷ (0xb21401d5c8f38b0c, 0x8cddf10738d32fb1)
    ∷ (0xa290b529ed13f570, 0x78c8ba8de2116ebe)
    ∷ (0x41cc0f09b208e544, 0xc871162dab2b7650)
    ∷ (0xbe777694a3bb4a2d, 0xcba2578182636f24)
    ∷ (0x2be19cc4d361625f, 0x30ae9a52d50a534c)
    ∷ (0x7e880a0edcb10778, 0x315ea5367332e560)
    ∷ (0x609e3e4dde05c7cb, 0x7d7e79ba99c94522)
    ∷ (0x9ebcddafe9b8b6d5, 0xe088c156f524ed3a)
    ∷ (0x6f95248ddf5fa773, 0x5b6e17fcec551503)
    ∷ (0xe6e40d60e12d305c, 0x13083723db4e28f1)
    ∷ (0x79c14ab02e9b58fe, 0x6da50f356bcf74a7)
    ∷ (0xa6b19816752b0b6f, 0x455cd84e35c0efcd)
    ∷ (0x902e5d10ceec081a, 0x58bd5650c51d0c77)
    ∷ (0xa3092f56cb1d2b07, 0xe6ed43cda7b4dfd2)
    ∷ (0x02f1f7fe4c1c7fee, 0xff4a31808a89a1d8)
    ∷ (0x6cfd490cb54d06ea, 0x3a01df3c237905b7)
    ∷ (0xad9bafe9ec4995c8, 0x5ed8d4cb978d3e9f)
    ∷ (0xec57a0e05e41708c, 0x96a9c2e63ca648cf)
    ∷ (0x471cd5c8662c64b5, 0x0aaf456ef67356fb)
    ∷ (0x5148bbf597e89b38, 0x3c645da771e9375f)
    ∷ (0x72eb7d4fb7f9c659, 0x762103b0c982a5f5)
    ∷ (0xffbb799d11b3af69, 0x03d341ac29481974)
    ∷ (0x7b30bd4e62872710, 0x92ef3eb5e146d57f)
    ∷ (0xfcd3141c7ba10ef0, 0x62bc896ce66409c0)
    ∷ (0x6526890d6033e7a3, 0xdecfe2390bbd753d)
    ∷ (0x261b71fa9e277d09, 0xe9f4c5942a1fa2b5)
    ∷ (0x4817cf086776040d, 0x2cbf2b2883ef06da)
    ∷ (0xb4c4db141cd70afd, 0x4e03a244658b0f1a)
    ∷ (0x6a2d93cd6169871b, 0xf8df8c7f7e21251c)
    ∷ (0x556996ca0fd06527, 0x01f03f64a638b62c)
    ∷ (0x16546e3df1c4ff8d, 0x36cb18c9879a61a4)
    ∷ (0xcbd54b65e668d3f2, 0xe178fe32531c5b16)
    ∷ (0x1275430269fc0192, 0x0b5f7a0a504be0d7)
    ∷ (0x91b7c76fe8e2d66d, 0xc698af1080b8bd1b)
    ∷ (0x1ce7c3bd4ea8bf5d, 0xb36aed0c6072019a)
    ∷ (0x06d0dac1d42481f1, 0xc2de53435d5820ab)
    ∷ (0x0c6377416b48c121, 0x477fa686bab04095)
    ∷ (0x2e592b846d574237, 0x931f01d1477e6353)
    ∷ (0x2fc0b1fb4b599c40, 0x0d3af89102dbd23f)
    ∷ (0xdb51ff99c388ad8e, 0x156db5b889de1a19)
    ∷ (0x5bfb16752884dbe8, 0xb9c5a86296015761)
    ∷ (0xe9ef17a0e07750e4, 0x35185965aed278d0)
    ∷ (0x35f7a887d1d5a2ec, 0x7c8e46de3ff1f30e)
    ∷ (0xa06142d7a10f8a9e, 0x87828b0d6898cf66)
    ∷ (0x97671dae3cc6579c, 0x0446fc53dde09db0)
    ∷ (0xf0b0635d10e9cfd1, 0x25c32fea5cd44955)
    ∷ (0x24ea8604d23b02e7, 0x16bef414a096036d)
    ∷ (0x0f0b1ac0015a60b8, 0x26106e46759c5021)
    ∷ (0x897129ed3e72972f, 0x486620df371b3df2)
    ∷ (0xb0e5f62b84eff4e2, 0x7397c087b25a8e69)
    ∷ (0xb55d416b3ad9d48a, 0xd0265b04202ebe76)
    ∷ (0xa9ba82d674716bd7, 0x634cb608405cbfec)
    ∷ (0xbd1f1b15c9a9ebb4, 0xaacd9f414d4f7f90)
    ∷ (0xd07bc8665aea3329, 0x0ee9b93d2b93cb4b)
    ∷ (0xb6352cea50cb7513, 0xb14993c4ef02aec2)
    ∷ (0xf96ba35cc5972e98, 0xc10d12ef741039df)
    ∷ (0x5e43a13596b2fb80, 0x1a7433e10475677e)
    ∷ (0xf129f92236e711a6, 0xbbe6d6aa1971f839)
    ∷ (0xeea6571e125d0f62, 0x69e3f366b62fe917)
    ∷ (0x1e16344302b4c0b3, 0x4c20dc8ceafba042)
    ∷ (0xd1e252197ce4ed5e, 0x90cc407d6e367a27)
    ∷ (0x9596ea5070da2872, 0xfb0ccdd357693c68)
    ∷ (0xe2c5205f7915ce43, 0x2e9c55e00c9fa982)
    ∷ (0xe35cba205f1b1034, 0xb0b9aca0493a18ee)
    ∷ (0x195f74fdf09e9f35, 0x10db768ff2063185)
    ∷ (0x63f653ccb4176652, 0x1c11b17a56e55596)
    ∷ (0xaf6a5817a055ea26, 0xa192e54b1d049f47)
    ∷ (0xea877a218a65f17d, 0x547791a561fe6864)
    ∷ (0x701a8ab1fbe5b9b7, 0x896b3230430b042d)
    ∷ (0xeb1ee05eac6b2f0a, 0xca5268e5245bd908)
    ∷ (0xbbcfc1d41d8d6a45, 0x6813cc0210175f3b)
    ∷ (0xa4406fe839377481, 0xba16e9cebf494e15)
    ∷ (0x5cb256cbdaae846e, 0xe53e02618efcc6a6)
    ∷ (0x99f59d111b92e953, 0xbc736b55edd97cfd)
    ∷ (0xc4de51a5e732b34a, 0xc768907426800b37)
    ∷ (0x848bc4d373348879, 0x913c7f19c80ecc0b)
    ∷ (0xba565bab3b83b432, 0xf636354255b2ee57)
    ∷ (0x23a3c6ba20115d61, 0x4a455e17b86b92aa)
    ∷ (0xedce3a9f784faefb, 0x088c3ba67903f9a3)
    ∷ (0xab4b7528386d1439, 0x9c068788cad51e34)
    ∷ (0x718310ceddeb67c0, 0x174ecb7006aeb541)
    ∷ (0x17cdf442d7ca21fa, 0xa8eee189c23fd0c8)
    ∷ (0x45ed22362a301b5b, 0xf5e574ee7cfaf723)
    ∷ (0xc62fa65bab2ecca4, 0x3822a1f4ac09aaef)
    ∷ (0x380d45b99c93bdba, 0xa5d41918c0e402f7)
    ∷ (0xe1ad4dde13076fda, 0x4ff39d20c3b3b936)
    ∷ (0x9dd4b02e83aa174c, 0x81e709963a08fd8e)
    ∷ (0x940f702f56d4f605, 0x6529349312cc8d04)
    ∷ (0xbc86816aefa735c3, 0x34e8660108eacefc)
    ∷ (0x664ee48c0a21463a, 0xbfa02af9c4916589)
    ∷ (0x6945fe4c0b7b2682, 0x99b044bfb10d35a8)
    ∷ (0xa72802695325d518, 0xdb79210e70655ea1)
    ∷ (0x5798613443cc1ac9, 0xfeba0ee42cb117f4)
    ∷ (0x05b8b740be362068, 0xa3b19b839274301f)
    ∷ (0xa5d9f5971f39aaf6, 0x2433108efaecff79)
    ∷ (0x14a599c3bdd88063, 0xc98129490d13c07c)
    ∷ (0xfd4a8e635dafd087, 0xfc99702ca3c1b8ac)
    ∷ (0x09dbc001d57ee149, 0xe4ce3d0528c4708a)
    ∷ (0xd45ae559c2d2cd36, 0x337ddbfefc424a38)
    ∷ (0xdf70d2a65bb05391, 0x28f9d77b5e0f9b6a)
    ∷ (0x867a332d3f28f797, 0x6e764e9942876dd3)
    ∷ (0x4055957694063b33, 0x5654ef6dee8ec73c)
    ∷ (0xdc18bf2731a2f208, 0x49961fbb91238bde)
    ∷ (0x1084b4fc25e07e7c, 0xf4154b8adac2410f)
    ∷ (0x37065f799dc9dd02, 0x83c4775eb57852d6)
    ∷ (0x01999a7f260ede77, 0x9e25f94045a5b16c)
    ∷ (0xca4cd11ac0660d85, 0x7f5d077216b9ea7a)
    ∷ (0x80aae9eceb0c7666, 0xaca81dda1fdf4d78)
    ∷ (0xd5c37f26e4dc1341, 0xad5822beb9e7fb54)
    ∷ (0x8d5004d2a64a6930, 0x75f2421ce0cabc81)
    ∷ (0x3994dfc6ba9d63cd, 0x3bf1e0588541b39b)
    ∷ (0x0ab3ad80bf6c40d0, 0x85a1f5c5e7e8603e)
    ∷ (0x2ca8dc7a214b3dd9, 0x6c553051cdf7c28b)
    ∷ (0x8e386953cc58c8a9, 0x149d8adc2fe6ac35)
    ∷ (0x433df8f7fe149aaa, 0x373b27ad21a2d788)
    ∷ (0xe58c60e18b3f91c5, 0x7267ffe314623845)
    ∷ (0xd9a008678f94d260, 0xea2784380357bbc1)
    ∷ (0x20cbab3b4a03fcf8, 0x2b2a96d77747821e)
    ∷ (0x6e0cbef2f9517904, 0xc54beebca9f0a46f)
    ∷ (0x25731c7bf435dc90, 0x889b0d54e533b201)
    ∷ (0xdee948d97dbe8de6, 0xb6dc2e3b1baa2a06)
    ∷ (0x7c79fdf090ad7896, 0xce1494b6f9bb44b8)
    ∷ (0xd73288d8a8c06caf, 0x5212133e336e5a8c)
    ∷ (0x2889f145b973c3c6, 0x51c152921a2643f8)
    ∷ (0x0b2a37ff99629ea7, 0x1b840c85a24dd152)
    ∷ (0x5220d674fdfa3aa1, 0x5d0b9567bec527eb)
    ∷ (0xd6ab12a78eceb2d8, 0xcc37ea7e76cbebe0)
    ∷ (0xfe22e3e237bd711e, 0x9df6b8ec6ceda818)
    ∷ (0x67d77ef32c2f984d, 0x2185d3b98134d4e5)
    ∷ (0xb7acb69576c5ab64, 0x2f6c6a84aaa71fae)
    ∷ (0xce6dfc25585ef39a, 0x42c965b1c1686b09)
    ∷ (0x4ae638f62b6a7be3, 0xd3f51aa80966a702)
    ∷ (0xdac865e6e58673f9, 0x8b484cf8cc7bab75)
    ∷ (0x5fda3b4ab0bc25f7, 0x8451caa141d0d612)
    ∷ (0x5d2bccb4fca05a19, 0x7b1bfb21cb5977ca)
    ∷ (0x93463091a4fea983, 0x39d29e900a311cc3)
    ∷ (0x3edd9f7848b73c4b, 0x670a4a5b9dbc225c)
    ∷ (0x50d1218ab1e6454f, 0xa241a4e7344c8633)
    ∷ (0xb38d9baaeefd557b, 0x12f808477d769edd)
    ∷ (0xf8f23923e399f0ef, 0x5f28ebaf31b588b3)
    ∷ (0x6d64d3739343d89d, 0xa424267c66dcb4db)
    ∷ (0xcc9c0bdb14428c74, 0xbd8354314be1cad1)
    ∷ (0xd28a3f9816f64cc7, 0xf1a388bda11a6a93)
    ∷ (0x9a9df090718048ca, 0xdd1ca39522f56c49)
    ∷ (0x6bb409b24767596c, 0x66fa753f3b849470)
    ∷ (0x31d685b849ed5cf3, 0x411a241de820727d)
    ∷ (0x7753ca0f09cfe631, 0xd59098335bf695ea)
    ∷ (0x08425a7ef3703f3e, 0x7aebc4456d61c1e6)
    ∷ (0xfa03ceddaf858f01, 0xa062da2fbb3c296b)
    ∷ (0x1bae8303bc82e0db, 0xef91470f788f905d)
    ∷ (0x1f8fae3c24ba1ec4, 0xd20525ccaf5e112e)
    ∷ (0x7de0678fb6a3a6e1, 0x50316df6bc1ef5d4)
    ∷ (0xcff4665a7e502ded, 0xdcec9cf184cdda65)
    ∷ (0x87e3a952192629e0, 0xf053b7d90722dcbf)
    ∷ (0x153c03bc9bd65e14, 0x57a4d00948b67110)
    ∷ (0x75a23df145d399df, 0x2adaa9b3d17f3432)
    ∷ (0x54f00cb529debb50, 0x9fd5c624e39d0740)
    ∷ (0x5601fb4b65c2c4be, 0x609ff7a46914a698)
    ∷ (0xb93e362a519115ab, 0x9759fd829a9efee3)
    ∷ (0x2d3146050745e3ae, 0xf270c911885273e7)
    ∷ (0xaef3c268865b3451, 0x3fb71c0b58a12e2b)
    ∷ (0x4c36e237ff4efa12, 0x112b49eb543e87a9)
    ∷ (0x215231446c0d228f, 0xb50f6f9732e23372)
    ∷ (0x3327724605f1231d, 0xbe50159d62a9d3a5)
    ∷ (0x92dfaaee82f077f4, 0xa7f767d04f94adaf)
    ∷ (0xc7b63c248d2012d3, 0xa60758b4e9ac1b83)
    ∷ (0x83c2846d811ed7ff, 0xcdc7d51ad0f35dcc)
    ∷ (0x8cc99ead8044b747, 0xebd7bb5ca56f0ded)
    ∷ (0xef3fcd613453d115, 0xf7c60a26f38a587b)
    ∷ (0x4f5e8fb6955c5b8b, 0x7044812b9b12971d)
    ∷ (0xa82318a9527fb5a0, 0xfd694f4805f90e80)
    ∷ (0x68dc64332d75f8f5, 0x0795bdfff4a884c4)
    ∷ (0x2a7806bbf56fbc28, 0xae8b631290afe220)
    ∷ (0xf7f923e3e2c39057, 0x793885e94429d892)
    ∷ (0xe415fa9ead314fb2, 0xec4206a351c78929)
    ∷ (0x986c076e3d9c3724, 0x22569215a87ccd91)
    ∷ (0x0e9280bf2754becf, 0xb83597063039e14d)
    ∷ (0x7858d0cf08958689, 0xf380f6752e6ac5cb)
    ∷ (0x42a46288d81a44dd, 0xa91edeed640766e4)
    ∷ (0xc0ff7c9a7f0a4d55, 0xfafcf2b7f1518a44)
    ∷ (0xe77d971fc723ee2b, 0x8d2dce639eeb999d)
    ∷ (0x346e32f8f7db7c9b, 0xe2abbf9e7a544262)
    ∷ (0x96fe87d11ac889eb, 0x9a63051398452cdc)
    ∷ (0xf4914e6288d131ce, 0x18574d298b05c826)
    ∷ (0x13ecd97d4ff2dfe5, 0x957a834a15ee51bb)
    ∷ (0x29106b3a9f7d1db1, 0xcfe4abd25f83f294)
    ∷ (0xc166e6e559049322, 0x64d90bf7b4f43b28)
    ∷ (0x9b046aef578e96bd, 0x43395ad56750dd25)
    ∷ (0xa1f8d8a8870154e9, 0x19a7724d2d3d7e0a)
    ∷ (0x3b652838f6811c23, 0xc4bbd1d80fc81243)
    ∷ (0x369fc506bbc70375, 0x1de18e1ef0dde3ba)
    ∷ (0x5a628c0a0e8a059f, 0x27e05122d3a4e60d)
    ∷ (0x9f2547d0cfb668a2, 0x7ead3816b0815c56)
    ∷ (0x7f119071fabfd90f, 0xaf7b5c763697540c)
    ∷ (0x3afcb247d08fc254, 0x5a9e28984a6da32f)
    ∷ (0x074940bef22a5f86, 0x5cfbaa0318fd91c7)
    ∷ (0xe8768ddfc6798e93, 0xab3da025eb77c9bc)
    ∷ (0xbfeeeceb85b5945a, 0x5587aec1c7c6de48)
    ∷ (0xc547cbdac13c6d3d, 0x594d69346325ba5b)
    ∷ (0x4b7fa2890d64a594, 0x4dd0e3e84cc3166e)
    ∷ (0x0dfaed3e4d461f56, 0xd95a5fc6ff15f1f9)
    ∷ (0xac023596ca474bbf, 0xc0fd2d8bd2288ff3)
    ∷ (0xb17c6c54a2e12a95, 0xedb239c7f7ff3f05)
    ∷ (0xf508d41daedfefb9, 0x8672b469cea0794a)
    ∷ (0x81337393cd02a811, 0x328de49a5a7afc14)
    ∷ (0x111d2e8303eea00b, 0x6a30b2ca9f67f063)
    ∷ (0x58937bf442967a71, 0xd8aa60a2592d47d5)
    ∷ (0xd313a5e730f892b0, 0x6f8671fde4bfdbff)
    ∷ (0xc924bc9baa74ac1c, 0x1e32cfb2d995face)
    ∷ (0xb8a7ac55779fcbdc, 0x097c04c2df3b4f8f)
    ∷ (0x743ba78e63dd47a8, 0xb4ff50f394da855e)
    ∷ (0x8b80de13726ee8c1, 0xb72c115fbd929c2a)
    ∷ (0x1d7e59c268a6612a, 0x2d4f144c25d7b0f6)
    ∷ (0x0000000000000000, 0x0000000000000000)
    ∷ (0x1a37197c9a8c3eac, 0x71b4be4f3d2a2131)
    ∷ (0xf3d80edc7afb6e48, 0x44ace72a93f859e1)
    ∷ (0x498e55774178da7a, 0xb29ad268c64ab7b6)
    ∷ []
