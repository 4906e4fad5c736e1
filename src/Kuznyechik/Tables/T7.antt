-- ===== src/Kuznyechik/Tables/T7.antt =====
-- internal/kuznyechik/tables.go: `t[7]`, 256 entries of two words.
use kubebao.Common.{ℕ, List, [], ◌∷◌}

unfoldable pub t_row7 : List (ℕ × ℕ)
t_row7 =
    (0x5433fb988d1d595e, 0xb20e82b31ba4d47c)
    ∷ (0x5a5608c136be7690, 0xec0f994cf83840f4)
    ∷ (0x4b04cb5b391faeb8, 0x9f2c52d84e349701)
    ∷ (0x0f8f417605de4818, 0x90a0f8cdd3044d53)
    ∷ (0x4561380282bc8176, 0xc12d4927ada80389)
    ∷ (0x9b90b39ec81a19c4, 0x327959da2f9fd124)
    ∷ (0xae5f1f11dbf7230d, 0x465cc809965df867)
    ∷ (0xb37f888cd00f1a84, 0x34ff1d06a33eca6f)
    ∷ (0xe8c3326258cc0bc2, 0x165167786b9e5340)
    ∷ (0xfdbf7c44ea5a8c34, 0xdbb3a6241db7665f)
    ∷ (0x56245cc632e79731, 0xed8f87d77b57a509)
    ∷ (0xf7f402a1eccefc24, 0x3b73b7133e0e103d)
    ∷ (0xa03aec4860540cc3, 0x185dd3f675c16cef)
    ∷ (0x435812e0807110c7, 0x206d468b0d7e9016)
    ∷ (0xbd1a7bd56bac354a, 0x6afe06f940a25ee7)
    ∷ (0x3baa5fd6a84e1507, 0x2a248a2c5a5ebdcb)
    ∷ (0xe6a6c13be36f240c, 0x48507c878802c7c8)
    ∷ (0x2d2b04811b5f3b48, 0x76e6ad267c1c207a)
    ∷ (0x501d7624302a0680, 0x0ccf887bdb813696)
    ∷ (0x49136c0586e560d7, 0xc0ad57bc2ec7e674)
    ∷ (0x714426a22f2cdc69, 0x7ba93bc624f2f311)
    ∷ (0x1af30f50b748cfee, 0x5d423991a52d784c)
    ∷ (0x777d0c402de14dd8, 0x9ae9346a8424608e)
    ∷ (0xd747e0084db5411b, 0x82b4e79cf1e50c61)
    ∷ (0x0d98e628ba248677, 0xcf21fda9b3f73c26)
    ∷ (0x12afd6eb0e267191, 0xe2032dc2e6677f5b)
    ∷ (0xeefa18805a019a73, 0xf71168d4cb48c0df)
    ∷ (0x69a08eac279edde8, 0x796a0733e12cfa28)
    ∷ (0x0c7254070459e1a1, 0x01801e9b836fe5fd)
    ∷ (0xfa6ce48956ea7a53, 0xf4524aba8df92c1b)
    ∷ (0x35cfac8f13ed3ac9, 0x742591d3b9c22943)
    ∷ (0xfe426935ebdd258d, 0x4a9340724ddccef1)
    ∷ (0x57ceeee98c9af0e7, 0x232e64e54bcf7cd2)
    ∷ (0x085cd9bbb96ebe7f, 0xbf411453434a0717)
    ∷ (0x234ef7d8a0fc1486, 0x28e7b6d99f80b4f2)
    ∷ (0x3632b9fe126a9370, 0xe5057785e9a981ed)
    ∷ (0x5e78857d8b89294e, 0x52ce9384381da21e)
    ∷ (0x34251ea0ad905d1f, 0xba8472e1895af098)
    ∷ (0xe4b166655c95ea63, 0x17d179e3e8f1b6bd)
    ∷ (0x1f3730c3b402f7e6, 0x2d22d06b5590437d)
    ∷ (0x7f21d5fb948ff3a7, 0x25a82039c76e6799)
    ∷ (0xb546a26ed2c28b35, 0xd5bf12aa03e859f0)
    ∷ (0x1496fc090cebe020, 0x0343226e46b1ecc4)
    ∷ (0x3e6e6045ab042d0f, 0x5a4463d6aae386fa)
    ∷ (0x7918ff1996426216, 0xc4e82f9567b8f406)
    ∷ (0xbee76ea46a2b9cf3, 0xfbdee0af10c9f649)
    ∷ (0x7ae5ea6897c5cbaf, 0x55c8c9c337d35ca8)
    ∷ (0x84a7835d7c18ee22, 0x1f5b89b17a0f9259)
    ∷ (0x03fd15710187a9b9, 0x9120e656506ba8ae)
    ∷ (0x7cdcc08a95085a1e, 0xb488c66f9705cf37)
    ∷ (0xbf0ddc8bd456fb25, 0x357f039d20512f92)
    ∷ (0xdb35b40f49eca0ba, 0x8334f907728ae99c)
    ∷ (0xe09febd9e1a2b5bd, 0xa910732b28d45457)
    ∷ (0x268ac84ba3b62c8e, 0x58875f236f3d8fc3)
    ∷ (0xc40284ccfdee575c, 0xae16296c271aaae1)
    ∷ (0x6016e538208d0441, 0x088af05292fe24e4)
    ∷ (0x0217a75ebfface6f, 0x5f81056460f37175)
    ∷ (0xb8de444668e60d42, 0x1a9eef03b01f65d6)
    ∷ (0x5bbcbaee88c31146, 0x22ae7a7ec8a0992f)
    ∷ (0xc99a62e447cad12b, 0x6137d4c594ed96c7)
    ∷ (0x941ff2e8cdc451dc, 0xa2d9a117fc9b9c77)
    ∷ (0x4cd7539685af58df, 0xb0cdbe46de7add45)
    ∷ (0xf0279a6c507e0a43, 0x14925b8dae405a79)
    ∷ (0xb4ac10416cbfece3, 0x1b1ef1983370802b)
    ∷ (0x59ab1db03739df29, 0x7d2f7f1aa853e85a)
    ∷ (0xada20a60da708ab4, 0xd77c2e5fc63650c9)
    ∷ (0xa5fed3db631e34cb, 0x683d3a0c857c57de)
    ∷ (0x8eecfdb87a8c9e32, 0xff9b988659b6e43b)
    ∷ (0xe74c73145d1243da, 0x86f19fb5b89a1e13)
    ∷ (0xf991f1f8576dd3ea, 0x6572acecdd9284b5)
    ∷ (0x38574aa7a9c9bcbe, 0xbb046c7a0a351565)
    ∷ (0xd8c8a17e486b0903, 0x12141f5122e14132)
    ∷ (0xef10aaafe47cfda5, 0x39b08be6fbd01904)
    ∷ (0xa7e97485dce4faa4, 0x37bc3f68e58f26ab)
    ∷ (0x998714c077e0d7ab, 0x6df85cbe4f6ca051)
    ∷ (0xdf1b39b3f4dbff64, 0x3df5f3cfb2af0b76)
    ∷ (0xead4953ce736c5ad, 0x49d0621c0b6d2235)
    ∷ (0x16815b57b3112e4f, 0x5cc2270a26429db1)
    ∷ (0xfb8656a6e8971d85, 0x3af3a988bd61f5c0)
    ∷ (0x448b8a2d3cc1e6a0, 0x0f8caa159d30da52)
    ∷ (0xd283df9b4eff7913, 0xf2d40e6601583750)
    ∷ (0x91dbcd7bce8e69d4, 0xd2b948ed0c26a746)
    ∷ (0xbb2351376961a4fb, 0x8bbe0955e074cd78)
    ∷ (0x321c3442af5dccae, 0x5bc47d4d298c6307)
    ∷ (0xb934f669d69b6a94, 0xd43f0c318087bc0d)
    ∷ (0x042e8dbcbd375fde, 0xbec10ac8c025e2ea)
    ∷ (0x93cc6a257174a7bb, 0x8d384d896cd5d633)
    ∷ (0x0e65f359bba32fce, 0x5e011bffe39c9488)
    ∷ (0xd4baf5794c32e8a2, 0x139401caa18ea4cf)
    ∷ (0x2ed611f01ad892f1, 0xe7c64b702c7788d4)
    ∷ (0xb0829dfdd188b33d, 0xa5dffb50f35562c1)
    ∷ (0x3d937534aa8384b6, 0xcb648580fa882e54)
    ∷ (0x748019312c66e461, 0x0bc9d23cd44fc820)
    ∷ (0x6d8e03109aa98236, 0xc7ab0dfb210918c2)
    ∷ (0x8ac27004c7bbc1ec, 0x415a924e999306d1)
    ∷ (0x7d3672a52b753dc8, 0x7a29255da79d16ec)
    ∷ (0xb2953aa36e727d52, 0xfa5efe3493a613b4)
    ∷ (0xdef18b9c4aa698b2, 0xf35410fd8237d2ad)
    ∷ (0x72b933d32eab75d0, 0xea89dd9074995bbf)
    ∷ (0xa603c6aa62999d72, 0xf91ddc5ad517ff70)
    ∷ (0xb1682fd26ff5d4eb, 0x6b7e1862c3cdbb1a)
    ∷ (0x2905893da6686496, 0xc827a7eebc39c290)
    ∷ (0x7697be6f939c2a0e, 0x5448d758b4bcb955)
    ∷ (0xfc55ce6b5427ebe2, 0x151245162d2fbf84)
    ∷ (0x51f7c40b8e576156, 0xc26e6b49eb19ef4d)
    ∷ (0xce49fa29fb7a274c, 0x4ed6385b04a3dc83)
    ∷ (0x28ef3b1218150340, 0x068644dc8ca11b4b)
    ∷ (0x2577dd3aa2318537, 0xc9a7b9753f56276d)
    ∷ (0xca677795464d7892, 0xf0173293c4863e69)
    ∷ (0xcb8dc5baf8301f44, 0x3eb6d1a1f41ee7b2)
    ∷ (0x6e7316619b2e2b8f, 0x568bebad7162b06c)
    ∷ (0x6f99a44e25534c59, 0x982a089f41fa69b7)
    ∷ (0xafb5ad3e658a44db, 0x88fd2b3ba6c521bc)
    ∷ (0x9226d80acf09c06d, 0x4399aebb5c4d0fe8)
    ∷ (0xb6bbb71fd345228c, 0x449ff4fc5383f15e)
    ∷ (0xaa7192ad66c07cd3, 0xf89dc2c156781a8d)
    ∷ (0x55d949b733603e88, 0x7caf61812b3c0da7)
    ∷ (0x134564c4b05b1647, 0x2ca2cef0d6ffa680)
    ∷ (0xc7ff91bdfc69fee5, 0x3f36cf3a7771024f)
    ∷ (0x2af89c4ca7efcd2f, 0x590741b8ec526a3e)
    ∷ (0x9a7a01b176677e12, 0xfcd8bae81f0708ff)
    ∷ (0x8d11e8c97b0b378b, 0x6ebb7ed009dd4c95)
    ∷ (0x42b2a0cf3e0c7711, 0xeecca5b93de649cd)
    ∷ (0xc1c6bb5ffea46f54, 0xde76c096d7a791d0)
    ∷ (0x414fb5be3f8bdea8, 0x7fec43ef6d8de163)
    ∷ (0x6bb729f298641387, 0x26eb025781df8b5d)
    ∷ (0xbac9e318d71cc32d, 0x451fea67d0ec14a3)
    ∷ (0x8cfb5ae6c576505d, 0xa01a9de23945954e)
    ∷ (0xf40917d0ed49559d, 0xaa5351456e65b893)
    ∷ (0x53e0635531adaf39, 0x9def6e2d8bea9e38)
    ∷ (0x1cca25b2b5855e5f, 0xbc02363d05fbebd3)
    ∷ (0x67c57df59c3df226, 0x276b1ccc02b06ea0)
    ∷ (0xab9b2082d8bd1b05, 0x363c21f366e0c356)
    ∷ (0xd9221351f6166ed5, 0xdcb5fc63127998e9)
    ∷ (0x80890ee1c12fb1fc, 0xa19a8379ba2a70b3)
    ∷ (0x47769f5c3d464f19, 0x9eac4c43cd5b72fc)
    ∷ (0x4d3de1b93bd23f09, 0x7e6c5d74eee2049e)
    ∷ (0x960855b6723e9fb3, 0xfd58a4739c68ed02)
    ∷ (0xf3da8f1d51f9a3fa, 0x85b2bddbfe2bf2d7)
    ∷ (0x520ad17a8fd0c8ef, 0x534e8d1fbb7247e3)
    ∷ (0x95f540c773b9360a, 0x6c784225cc0345ac)
    ∷ (0x1edd82ec0a7f9030, 0xe383335965089aa6)
    ∷ (0xd6ad5227f3c826cd, 0x4c1504aec17dd5ba)
    ∷ (0x01eab22fbe7d67d6, 0xcea1e3323098d9db)
    ∷ (0xe17559f65fdfd26b, 0x67b19019184c8d8c)
    ∷ (0x05c43f93034a3808, 0x7060e9faf0bd3b31)
    ∷ (0xe55bd44ae2e88db5, 0xd9709ad1d8696f66)
    ∷ (0x4aee79748762c96e, 0x518db1ea7eac4eda)
    ∷ (0x97e2e799cc43f865, 0x33f94741acf034d9)
    ∷ (0xcdb4ef58fafd8ef5, 0xdff6de0d54c8742d)
    ∷ (0xd17ecaea4f78d0aa, 0x63f4e83051339ffe)
    ∷ (0xd5504756f24f8f74, 0xdd35e2f891167d14)
    ∷ (0xf5e3a5ff5334324b, 0x64f2b2775efd6148)
    ∷ (0x5841af9f8944b8ff, 0xb38e9c2898cb3181)
    ∷ (0x18e4a80e08b20181, 0x02c33cf5c5de0939)
    ∷ (0x300b931c10a702c1, 0x04457829497f1272)
    ∷ (0x3a40edf9163372d1, 0xe485691e6ac66410)
    ∷ (0x1152c39a0fa1d828, 0x7323cb94b60cd7f5)
    ∷ (0x06392ae202cd91b1, 0xe1400faca0d6939f)
    ∷ (0x875a962c7d9f479b, 0x8e7b6fe72a643af7)
    ∷ (0xdce62cc2f55c56dd, 0xacd51599e2c4a3d8)
    ∷ (0xcc5e5d774480e923, 0x11573d3f6450adf6)
    ∷ (0x20b3e2a9a17bbd3f, 0xb9c7508fcfeb1c5c)
    ∷ (0x90317f5470f30e02, 0x1c18abdf3cbe7e9d)
    ∷ (0x0a4b7ee506947010, 0xe0c0113723b97662)
    ∷ (0x0000000000000000, 0x0000000000000000)
    ∷ (0x9fbe3e22752d461a, 0x8cb85312efba33ce)
    ∷ (0x3c79c71b14fee360, 0x05c566b2ca10f78f)
    ∷ (0xb75105306d38455a, 0x8a3e17ce631b2885)
    ∷ (0x684a3c8399e3ba3e, 0xb7cbe401d1b423f3)
    ∷ (0xa98c87dc6747d56a, 0x69bd24970613b223)
    ∷ (0x7ecb67d42af29471, 0xeb09c30bf7f6be42)
    ∷ (0x9da9997ccad78875, 0xd33956768f4942bb)
    ∷ (0x756aab1e921b83b7, 0xc568310ee4d711fb)
    ∷ (0xa3c7f93961d3a57a, 0x897d35a025aac441)
    ∷ (0x3f84d26a15794ad9, 0x94e580e49a7b5f21)
    ∷ (0xdadf0620f791c76c, 0x4d951a3542123047)
    ∷ (0x829ea9bf7ed57f93, 0xfe1b861ddad901c6)
    ∷ (0x83741b90c0a81845, 0x30ba652fea41d81d)
    ∷ (0xcfa348064507409a, 0x8077db69343b0558)
    ∷ (0x1d20979d0bf83989, 0x72a3d50f35633208)
    ∷ (0x8b28c22b79c6a63a, 0x8ffb717ca90bdf0a)
    ∷ (0x33f6866d1120ab78, 0x95659e7f1914badc)
    ∷ (0xa41461f4dd63531d, 0xa69cd93eb5e48e05)
    ∷ (0xc5e836e34393308a, 0x60b7ca5e1782733a)
    ∷ (0x61fc57179ef06397, 0xc62b1360a266fd3f)
    ∷ (0x63ebf049210aadf8, 0x99aa1604c2958c4a)
    ∷ (0x2b122e631992aaf9, 0x97a6a28adccab3e5)
    ∷ (0x27607a641dcb4b58, 0x9626bc115fa55618)
    ∷ (0xf2303d32ef84c42c, 0x4b135ee9ceb32b0c)
    ∷ (0x735381fc90d61206, 0x24283ea244018264)
    ∷ (0xa86635f3d93ab2bc, 0xa71cc7a5368b6bf8)
    ∷ (0xbcf0c9fad5d1529c, 0xa45fe5cb703a873c)
    ∷ (0x893f6575c63c6855, 0xd07a7418c9f8ae7f)
    ∷ (0xd09478c5f105b77c, 0xad550b0261ab4625)
    ∷ (0x8163bcce7f52d62a, 0x6f3b604b8ab2a968)
    ∷ (0xc3d11c01415ea13b, 0x81f7c5f2b754e0a5)
    ∷ (0x643868849dba5b9f, 0xb64bfa9a52dbc60e)
    ∷ (0x0ba1cccab8e917c6, 0x2e61f2051321afb9)
    ∷ (0xecedbfdee5fb541c, 0xa8906db0abbbb1aa)
    ∷ (0x10b871b5b1dcbffe, 0xbd8228a686940e2e)
    ∷ (0xac48b84f640ded62, 0x19ddcd6df6ae8912)
    ∷ (0x986da6efc99db07d, 0xa359bf8c7ff4798a)
    ∷ (0x5c6f22233473e721, 0x0d4f96e058eed36b)
    ∷ (0x78f24d36283f05c0, 0x0a49cca757202ddd)
    ∷ (0xf61eb08e52b39bf2, 0xf5d254210e96c9e6)
    ∷ (0x5d85900c8a0e80f7, 0xc3ee75d268760ab0)
    ∷ (0xc615239242149933, 0xf1972c0847e9db94)
    ∷ (0x5f92375235f44e98, 0x9c6f70b608857bc5)
    ∷ (0x09b66b940713d9a9, 0x71e0f76173d2decc)
    ∷ (0xc02c097040d90882, 0x10d723a4e73f480b)
    ∷ (0x86b02403c3e2204d, 0x40da8cd51afce32c)
    ∷ (0x854d3172c26589f4, 0xd1fa6a834a974b82)
    ∷ (0x157c4e26b29687f6, 0xcde2c15c7629351f)
    ∷ (0xe929804de6b16c14, 0xd8f0844a5b068a9b)
    ∷ (0xeb3e2713594ba27b, 0x8771812e3bf5fbee)
    ∷ (0x7b0f584729b8ac79, 0x9b692af1074b8573)
    ∷ (0x31e12133aeda6517, 0xcae49b1b79e7cba9)
    ∷ (0x662fcfda224095f0, 0xe9cafffe3228b77b)
    ∷ (0x70ae948d9151bbbf, 0xb508d8f4146a2aca)
    ∷ (0x469c2d73833b28cf, 0x500daf71fdc3ab27)
    ∷ (0x48f9de2a38980701, 0x0e0cb48e1e5f3faf)
    ∷ (0xc23bae2eff23c6ed, 0x4f5626c087cc397e)
    ∷ (0x9e548c0dcb5021cc, 0x4219b020df22ea15)
    ∷ (0xa1d05e67de296b15, 0xd6fc30c44559b534)
    ∷ (0x2f3ca3dfa4a5f527, 0x2967a8421cef510f)
    ∷ (0x9c432b5374aaefa3, 0x1d98b544bfd19b60)
    ∷ (0xdd0c9eed4b21310b, 0x6274f6abd25c7a03)
    ∷ (0x1b19bd7f0935a838, 0x93e3daa395b5a197)
    ∷ (0x190e1a21b6cf6657, 0xcc62dfc7f546d0e2)
    ∷ (0x07d398cdbcb0f667, 0x2fe1ec9e904e4a44)
    ∷ (0x88d5d75a78410f83, 0x1edb972af96077a4)
    ∷ (0xf87b43d7e910b43c, 0xabd34fdeed0a5d6e)
    ∷ (0xc870d0cbf9b7b6fd, 0xaf9637f7a4754f1c)
    ∷ (0xa22d4b16dfaec2ac, 0x47dcd69215321d9a)
    ∷ (0xf1cd2843ee036d95, 0xda33b8bf9ed883a2)
    ∷ (0x6a5d9bdd26197451, 0xe84ae165b1475286)
    ∷ (0xe2884c875e587bd2, 0xf691764f48272522)
    ∷ (0x249d6f151c4ce2e1, 0x07065a470fcefeb6)
    ∷ (0x8f064f97c4f1f9e4, 0x313a7bb4692e3de0)
    ∷ (0x37d80bd1ac17f4a6, 0x2ba494b7d9315836)
    ∷ (0x620142669f77ca2e, 0x570bf536f20d5591)
    ∷ (0x2cc1b6aea5225c9e, 0xb8474e144c84f9a1)
    ∷ (0x4ec0f4c83a5596b0, 0xef4cbb22be89ac30)
    ∷ (0xe362fea8e0251c04, 0x3830957d78bffcf9)
    ∷ (0xed070df15b8633ca, 0x66318e829b236871)
    ∷ (0x6c64b13f24d4e5e0, 0x090aeec91191c119)
    ∷ (0x40a5079181f6b97e, 0xb14da0dd5d1538b8)
    ∷ (0x4f2a46e78428f166, 0x21ed58108e1175eb)
    ∷ (0x22a445f71e817350, 0xe64655ebaf186d29)
    ∷ (0x65d2daab23c73c49, 0x78ea19a862431fd5)
    ∷ (0xffa8db1a55a0425b, 0x8432a3407d44172a)
    ∷ (0x176be9780d6c4999, 0x9263c43816da446a)
    ∷ (0x39bdf88817b4db68, 0x75a58f483aadccbe)
    ∷ (0x215950861f06dae9, 0x7766b3bdff73c587)
    ∷ (0xd3696db4f0821ec5, 0x3c75ed5431c0ee8b)
    ∷ []
