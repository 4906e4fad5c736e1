-- ===== src/Kuznyechik/Tables/It9.antt =====
-- internal/kuznyechik/tables.go: `it[9]`, 256 entries of two words.
use kubebao.Common.{ℕ, List, [], ◌∷◌}

unfoldable pub it_row9 : List (ℕ × ℕ)
it_row9 =
    (0xd52f8dc690a455a5, 0x5d1b72cb89048071)
    ∷ (0x179ff9364e75902d, 0x15a48a485aa38762)
    ∷ (0xf3d45f9d804c9f32, 0xe9183dae643b6cbf)
    ∷ (0x157fb14b6d940b8f, 0xd386ace4dd6c1e81)
    ∷ (0x6d5d49b5a58a5f0e, 0xf572a8ce1c5532e7)
    ∷ (0x66cbc620faf84130, 0xcec905c160a6279e)
    ∷ (0x77b7e791d16dbf38, 0x520be5be7097c81a)
    ∷ (0x5baa9e806e66c7c0, 0xbea2148243dd9c3d)
    ∷ (0x43a078d93960bc54, 0xdff97f5ea8d0ff23)
    ∷ (0x63b872054c6818e6, 0xe29c5a0c0f7d7b0b)
    ∷ (0x9c695e5506275b9e, 0xda48b3ccffa1c7bb)
    ∷ (0xdc594a2eec37d039, 0xa082f96872380ceb)
    ∷ (0xe84ed566043ad355, 0x2d706388aa7f3bd2)
    ∷ (0x83f04454c450e27e, 0x5164a171fcb861d3)
    ∷ (0x3f8110ddb77f1d52, 0xb64937efa4b42240)
    ∷ (0x5adaba5f9ef76b91, 0xddb307d4e15b31ad)
    ∷ (0x256bbef9c398fd64, 0x11307a9fc876d8bd)
    ∷ (0x3ef1340247eeb103, 0xd55824b906328fd0)
    ∷ (0x7d514cdb7e8e0d57, 0x0aa15be7aee270f3)
    ∷ (0x2efd316c9ceae35a, 0x2a8bd790b485cdc4)
    ∷ (0xdaba92a989d7be1c, 0x29e4935f38aa640d)
    ∷ (0xcc554f4037338260, 0x5f510a41c08f4eff)
    ∷ (0xd7cfc5bbb345ce07, 0x9b3954670ecb1992)
    ∷ (0x338463107d7cc118, 0x6785e3813053f24f)
    ∷ (0xefdd293e914b1121, 0xc7071ae9426bfea4)
    ∷ (0x7bb2945c1b6e6372, 0x83c731d0e4701815)
    ∷ (0x8683f07172c0bba8, 0x7d31febc93633d46)
    ∷ (0xd2bc719e05d597d1, 0xb76c0baa61104507)
    ∷ (0xfea1088fbadeef29, 0x5bc5fa96525a1120)
    ∷ (0x278bf684e07966c6, 0xd7125c334fb9415e)
    ∷ (0x7ec12079adfe3aa4, 0xaf926e1d8bab4480)
    ∷ (0xa078222a6228713f, 0xc932b1d97e5cd188)
    ∷ (0x1f991a01c277b9e0, 0x8b2c12bd0319a668)
    ∷ (0x93fc413a1f54b027, 0xaeb752584e0f23c7)
    ∷ (0x806028f61720d58d, 0xf457948bd9f155a0)
    ∷ (0xf842d008df3e810c, 0xd2a390a118c879c6)
    ∷ (0x46d3ccfc8ff0e582, 0xf3ac2093c70ba3b6)
    ∷ (0x9bfaa20d935699ea, 0x303fcaad17b502cd)
    ∷ (0xfaa29875fcdf1aae, 0x1481b60d9f07e025)
    ∷ (0x5c3962d8fb1705b4, 0x54d56de3abc9594b)
    ∷ (0x7557afecf28c249a, 0x9429c312f75851f9)
    ∷ (0xf2a47b4270dd3363, 0x8a092ef8c6bdc12f)
    ∷ (0x32f447cf8ded6d49, 0x0494f0d792d55fdf)
    ∷ (0x5d4946070b86a9e5, 0x37c47eb5094ff4db)
    ∷ (0x1d79527ce1962242, 0x4d0e341184d63f8b)
    ∷ (0xf6a7ebb836dcc6e4, 0xc54d62630be0302a)
    ∷ (0x60281ea79f182f15, 0x47af6ff62a344f78)
    ∷ (0x62c856dabcf9b4b7, 0x818d495aadfbd69b)
    ∷ (0x4ad6bf3145f339c8, 0x2260f4fd53ec73b9)
    ∷ (0x7c2168048e1fa106, 0x69b048b10c64dd63)
    ∷ (0xeead0de161dabd70, 0xa41609bfe0ed5334)
    ∷ (0xa2986a5741c9ea9d, 0x0f109775f993486b)
    ∷ (0x2388667ea6789341, 0x985610a882e4b05b)
    ∷ (0xac7d51e7a82bad75, 0x18fe65b7eabb0187)
    ∷ (0x986aceaf4026ae19, 0x950cff5732fc36be)
    ∷ (0xe138128e78a956c9, 0xd0e9e82b5143b748)
    ∷ (0x139c69cc087465aa, 0x5ae0c6d397fe7667)
    ∷ (0xc52388a84ba007fc, 0xa2c881e23bb3c265)
    ∷ (0xdbcab6767946124d, 0x4af580099a2cc99d)
    ∷ (0x73b4776b976c4abf, 0x1d4fa925bdca391f)
    ∷ (0xc0503c8dfd305e2a, 0x8e9dde2f54689ef0)
    ∷ (0xd05c39e326340c73, 0x714e2d06e6dfdce4)
    ∷ (0x3af2a4f801ef4484, 0x9a1c6822cb6f7ed5)
    ∷ (0x3b828027f17ee8d5, 0xf90d7b7469e9d345)
    ∷ (0x655baa82298876c3, 0x6bfa303b45ef13ed)
    ∷ (0x514c35cac18575af, 0xe608aadb9da824d4)
    ∷ (0x6bbe9132c06a312b, 0x7c14c2f956c75a01)
    ∷ (0xafed3d457b5b9a86, 0xbdcd504dcff235f4)
    ∷ (0x4030147bea108ba7, 0x7aca4aa48d99cb50)
    ∷ (0x1ee93ede32e615b1, 0xe83d01eba19f0bf8)
    ∷ (0x20180adc7508a4b2, 0x3d652552a7ad8428)
    ∷ (0x85139cd3a1b08c5b, 0xd802cb46b62a0935)
    ∷ (0xf447a3c5153d5d46, 0x036f44cf8c2fa9c9)
    ∷ (0x47a3e8237f6149d3, 0x90bd33c5658d0e26)
    ∷ (0x3787f3ea3b7d349f, 0x28c1af1afd0e034a)
    ∷ (0x6ecd251776fa68fd, 0x50419d34391c0694)
    ∷ (0x906c2d98cc2487d4, 0x0b8467a26b4617b4)
    ∷ (0xc6b3e40a98d0300f, 0x07fbb4181efaf616)
    ∷ (0x0976c7e87c93859c, 0xfd998ba3fb3c8c9a)
    ∷ (0x8280608b34c14e2f, 0x3275b2275e3ecc43)
    ∷ (0xdeb90253cfd64b9b, 0x66a0dfc4f5f79508)
    ∷ (0xb697ffc3dccc4d43, 0xbf8728c78679fb7a)
    ∷ (0xd92afe0b5aa789ef, 0x8cd7a6a51de3507e)
    ∷ (0xc3c0502f2e4069d9, 0x2baeebd57121aa83)
    ∷ (0x543f81ef77152c79, 0xca5df516f2737841)
    ∷ (0xc926fb6581a3dbb6, 0x7304558caf54126a)
    ∷ (0x946fbd628a257253, 0x44c02b39a61be6b1)
    ∷ (0x281ee9ebf90a8d7f, 0xa3edbda7fe17a522)
    ∷ (0xf044333f533ca8c1, 0x4c2b0854417258cc)
    ∷ (0x3d6158a0949e86f0, 0x706b1143237bbba3)
    ∷ (0x7ac2b083ebffcf23, 0xe0d6228646f6b585)
    ∷ (0xc856dfba713277e7, 0x101546da0dd2bffa)
    ∷ (0x06e3d88765e06e25, 0x89666a374a9268e6)
    ∷ (0xc7c3c0d568419c5e, 0x64eaa74ebc7c5b86)
    ∷ (0xf7d7cf67c64d6ab5, 0xa65c7135a9669dba)
    ∷ (0x4fa50b14f363601e, 0x0e35ab303c372f2c)
    ∷ (0x02e0487d23e19ba2, 0xc62226ac87cf99e3)
    ∷ (0xbfe1382ba05fc8df, 0x421ea3647d4577e0)
    ∷ (0xebdeb9c4d74ae4a6, 0x884356728f360fa1)
    ∷ (0x503c11153114d9fe, 0x8519b98d3f2e8944)
    ∷ (0x6fbd01c8866bc4ac, 0x33508e629b9aab04)
    ∷ (0xd12c1d3cd6a5a022, 0x125f3e5044597174)
    ∷ (0x87f3d4ae825117f9, 0x1e20edea31e590d6)
    ∷ (0x8a8683bcb8c367e2, 0xacfd2ad20784ed49)
    ∷ (0x0c0573cdca03dc4a, 0xd1ccd46e94e7d00f)
    ∷ (0x4d454369d082fbbc, 0xc8178d9cbbf8b6cf)
    ∷ (0x241b9a2633095135, 0x722169c96af0752d)
    ∷ (0xdfc9268c3f47e7ca, 0x05b1cc9257713898)
    ∷ (0x72c453b467fde6ee, 0x7e5eba731f4c948f)
    ∷ (0xffd12c504a4f4378, 0x38d4e9c0f0dcbcb0)
    ∷ (0x42d05c06c9f11005, 0xbce86c080a5652b3)
    ∷ (0xe3d85af35b48cd6b, 0x16cbce87d68c2eab)
    ∷ (0x017024dff091ac51, 0x63111356a286ad90)
    ∷ (0xb477b7beff2dd6e1, 0x79a50e6b01b66299)
    ∷ (0x100c056edb045259, 0xffd3f329b2b74214)
    ∷ (0xa90ee5c21ebbf4a3, 0x34ab3a7a85605d12)
    ∷ (0xa87ec11dee2a58f2, 0x57ba292c27e6f082)
    ∷ (0x4543a05e5c80d271, 0x569f1569e24297c5)
    ∷ (0xd6bfe16443d46256, 0xf8284731ac4db402)
    ∷ (0x8916ef1e6bb35011, 0x09ce1f2822cdd93a)
    ∷ (0x4836f74c6612a26a, 0xe442d251d423ea5a)
    ∷ (0x695ed94fe38baa89, 0xba36e455d108c3e2)
    ∷ (0x180ae65957067b94, 0x615b6bdceb0d631e)
    ∷ (0x8e851346fec29265, 0xe3b96649cad91c4c)
    ∷ (0x2b8e85492a7aba8c, 0x06de885ddb5e9151)
    ∷ (0x9a8a86d263c735bb, 0x532ed9fbb533af5d)
    ∷ (0x3962c85ad29f7377, 0x3f2f5dd8ee264aa6)
    ∷ (0x9e89162825c6c03c, 0x1c6a9560786e5e58)
    ∷ (0xc12018520da1f27b, 0xed8ccd79f6ee3360)
    ∷ (0x554fa53087848028, 0xa94ce64050f5d5d1)
    ∷ (0xb872c473352e0aab, 0xa869da059551b296)
    ∷ (0xec4d459c423b26d2, 0x62342f136722cad7)
    ∷ (0xcd256b9fc7a22e31, 0x3c4019176209e36f)
    ∷ (0x140f95949d05a7de, 0xb097bfb27feab311)
    ∷ (0xb2946f399acdb8c4, 0xf0c3645c4b240a7f)
    ∷ (0x6c2d6d6a551bf35f, 0x9663bb98bed39f77)
    ∷ (0xa3e84e88b15846cc, 0x6c0184235b15e5fb)
    ∷ (0x9d197a8af6b6f7cf, 0xb959a09a5d276a2b)
    ∷ (0x928c65e5efc51c76, 0xcda6410eec898e57)
    ∷ (0xbc715489732fff2c, 0xe72d969e580c4393)
    ∷ (0xa47bb2d0242984b8, 0x8676fd42b301208d)
    ∷ (0x682efd90131a06d8, 0xd927f703738e6e72)
    ∷ (0x296ecd34099b212e, 0xc0fcaef15c9108b2)
    ∷ (0x1aeaae2474e7e036, 0xa7794d706cc2fafd)
    ∷ (0x56dfc99254f4b7db, 0x0c7fd3ba75bce1a2)
    ∷ (0x76c7c34e21fc1369, 0x311af6e8d211658a)
    ∷ (0x8bf6a7634852cbb3, 0xcfec3984a50240d9)
    ∷ (0xcbc6b318a2424014, 0xb5267320289b8b89)
    ∷ (0xb3e44be66a5c1495, 0x93d2770ae9a2a7ef)
    ∷ (0xd85adad4aa3625be, 0xefc6b5f3bf65fdee)
    ∷ (0x594ad6fd4d875c62, 0x7880322ec41205de)
    ∷ (0x3c117c7f640f2aa1, 0x137a021581fd1633)
    ∷ (0x4946d39396830e3b, 0x8753c10776a547ca)
    ∷ (0x5ed92aa5d8f69e16, 0x92f74b4f2c06c0a8)
    ∷ (0xb0742744b92c2366, 0x36e142f0cceb939c)
    ∷ (0xa50b960fd4b828e9, 0xe567ee1411878d1d)
    ∷ (0x52dc596812f5425c, 0x433b9f21b8e110a7)
    ∷ (0x34179f48e80d036c, 0x8df29ae0d8473739)
    ∷ (0x9ff932f7d5576c6d, 0x7f7b8636dae8f3c8)
    ∷ (0xc453ac77bb31abad, 0xc1d992b499356ff5)
    ∷ (0xb104039b49bd8f37, 0x55f051a66e6d3e0c)
    ∷ (0x67bbe2ff0a69ed61, 0xadd81697c2208a0e)
    ∷ (0xa7ebde72f759b34b, 0x2345c8b8964814fe)
    ∷ (0x0f951f6f1973ebb9, 0x74ffe194b1aee47c)
    ∷ (0x21682e03859908e3, 0x5e743604052b29b8)
    ∷ (0x31642b6d5e9d5aba, 0xa1a7c52db79c6bac)
    ∷ (0x968ff51fa9c4e9f1, 0x82e20d9521d47f52)
    ∷ (0x97ffd1c0595545a0, 0xe1f31ec38352d2c2)
    ∷ (0x911c09473cb52b85, 0x689574f4c9c0ba24)
    ∷ (0xed3d6143b2aa8a83, 0x01253c45c5a46747)
    ∷ (0xfd31642d69aed8da, 0xfef6cf6c77132553)
    ∷ (0x5fa90e7a28673247, 0xf1e658198e806d38)
    ∷ (0x197ac286a797d7c5, 0x024a788a498bce8e)
    ∷ (0xb50793610fbc7ab0, 0x1ab41d3da330cf09)
    ∷ (0x583af222bd16f033, 0x1b9121786694a84e)
    ∷ (0xb902e0acc5bfa6fa, 0xcb78c95337d71f06)
    ∷ (0x8d157fe42db2a596, 0x468a53b3ef90283f)
    ∷ (0x0ae6ab4aafe3b26f, 0x58aabe59de75b8e9)
    ∷ (0xa10806f592b9dd6e, 0xaa23a28fdcda7c18)
    ∷ (0xceb5073d14d219c2, 0x99732ced4740d71c)
    ∷ (0x414030a41a8127f6, 0x19db59f22f1f66c0)
    ∷ (0xaa9e8960cdcbc350, 0x91980f80a0296961)
    ∷ (0xfbd2bcaa0c4eb6ff, 0x7790a55b3d814db5)
    ∷ (0xf932f4d72faf2d5d, 0xb1b283f7ba4ed456)
    ∷ (0x2d6d5dce4f9ad4a9, 0x8fb8e26a91ccf9b7)
    ∷ (0xbe911cf450ce648e, 0x210fb032dfc3da70)
    ∷ (0xf537871ae5acf117, 0x607e57992ea90459)
    ∷ (0x0d7557123a92701b, 0xb2ddc73836617d9f)
    ∷ (0x26fbd25b10e8ca97, 0xb4034f65ed3fecce)
    ∷ (0xbd01705683be537d, 0x843c85c8fa8aee03)
    ∷ (0xe7dbca091d4938ec, 0x598f821c1bd1dfae)
    ∷ (0xbbe2a8d1e65e3d58, 0x0d5aefffb01886e5)
    ∷ (0xeaae9d1b27db48f7, 0xeb5245242db0a231)
    ∷ (0xe44ba6abce390f1f, 0xfcbcb7e63e98ebdd)
    ∷ (0x12ec4d13f8e5c9fb, 0x39f1d5853578dbf7)
    ∷ (0x16efdde9bee43c7c, 0x76b5991ef8252af2)
    ∷ (0xba928c0e16cf9109, 0x6e4bfca9129e2b75)
    ∷ (0x53ac7db7e264ee0d, 0x202a8c771a67bd37)
    ∷ (0x6aceb5ed30fb9d7a, 0x1f05d1aff441f791)
    ∷ (0x1b9a8afb84764c67, 0xc4685e26ce44576d)
    ∷ (0xcab697c752d3ec45, 0xd63760768a1d2619)
    ∷ (0x040390fa4601f587, 0x4f444c9bcd5df105)
    ∷ (0x81100c29e7b179dc, 0x974687dd7b77f830)
    ∷ (0x0ee53bb0e9e247e8, 0x17eef2c2132849ec)
    ∷ (0x4ed52fcb03f2cc4f, 0x6d24b8669eb182bc)
    ∷ (0x71543f16b48dd11d, 0xdb6d8f893a05a0fc)
    ∷ (0xe53b82743ea8a34e, 0x9fada4b09c1e464d)
    ∷ (0xe93ef1b9f4ab7f04, 0x4e6170de08f99642)
    ∷ (0x30140fb2ae0cf6eb, 0xc2b6d67b151ac63c)
    ∷ (0x2c1d7911bf0b78f8, 0xeca9f13c334a5427)
    ∷ (0x03906ca2d37037f3, 0xa53335fa25493473)
    ∷ (0x0b968f955f721e3e, 0x3bbbad0f7cf31579)
    ∷ (0x3567bb97189caf3d, 0xeee389b67ac19aa9)
    ∷ (0xe6abeed6edd894bd, 0x3a9e914ab957723e)
    ∷ (0x57afed4da4651b8a, 0x6f6ec0ecd73a4c32)
    ∷ (0xc2b074f0ded1c588, 0x48bff883d3a70713)
    ∷ (0x2afea196daeb16dd, 0x65cf9b0b79d83cc1)
    ∷ (0x0806e3378c0229cd, 0x9e8898f559ba210a)
    ∷ (0x2f8d15b36c7b4f0b, 0x499ac4c616036054)
    ∷ (0x1c0976a311078e13, 0x2e1f27472650921b)
    ∷ (0xe04836518838fa98, 0xb3f8fb7df3c51ad8)
    ∷ (0x951f99bd7ab4de02, 0x27d1386f049d4b21)
    ∷ (0xcfc523e2e443b593, 0xfa623fbbe5c67a8c)
    ∷ (0xd3cc5541f5443b80, 0xd47d18fcc396e897)
    ∷ (0xf13417e0a3ad0490, 0x2f3a1b02e3f4f55c)
    ∷ (0x7952dc21388ff8d0, 0x45e5177c63bf81f6)
    ∷ (0xad0d753858ba0124, 0x7bef76e1483dac17)
    ∷ (0x8ff537990e533e34, 0x80a8751f685fb1dc)
    ∷ (0x74278b33021d88cb, 0xf738d04455defc69)
    ∷ (0x4c3567b6201357ed, 0xab069eca197e1b5f)
    ∷ (0xd45fa9196035f9f4, 0x3e0a619d2b822de1)
    ∷ (0x36f7d735cbec98ce, 0x4bd0bc4c5f88aeda)
    ∷ (0x4ba69beeb5629599, 0x4171e7abf16ade29)
    ∷ (0x22f842a156e93f10, 0xfb4703fe20621dcb)
    ∷ (0x61583a786f898344, 0x24be7ca088b2e2e8)
    ∷ (0x8866cbc19b22fc40, 0x6adf0c7e804b74aa)
    ∷ (0x642b8e5dd919da92, 0x08eb236de769be7d)
    ∷ (0xe2a87e2cabd9613a, 0x75daddd1740a833b)
    ∷ (0xabeeadbf3d5a6f01, 0xf2891cd602afc4f1)
    ∷ (0x3812ec85220edf26, 0x5c3e4e8e4ca0e736)
    ∷ (0xb7e7db1c2c5de112, 0xdc963b9124ff56ea)
    ∷ (0xa69bfaad07c81f1a, 0x4054dbee34ceb96e)
    ∷ (0x991aea70b0b70248, 0xf61dec01907a9b2e)
    ∷ (0xdd296ef11ca67c68, 0xc393ea3ed0bea17b)
    ∷ (0x7fb104a65d6f96f5, 0xcc837d4b292de910)
    ∷ (0x7822f8fec81e5481, 0x26f4042ac1392c66)
    ∷ (0xfc4140f2993f748b, 0x9de7dc3ad59588c3)
    ∷ (0x8c655b3bdd2309c7, 0x259b40e54d1685af)
    ∷ (0x0573b425b69059d6, 0x2c555fcd6fdb5c95)
    ∷ (0x44338481ac117e20, 0x358e063f40c43a55)
    ∷ (0x8463b80c5121200a, 0xbb13d81014aca4a5)
    ∷ (0x117c21b12b95fe08, 0x9cc2e07f1031ef84)
    ∷ (0x0000000000000000, 0x0000000000000000)
    ∷ (0x70241bc9441c7d4c, 0xb87c9cdf98830d6c)
    ∷ (0xae9d199a8bca36d7, 0xdedc431b6d749864)
    ∷ (0x0793fc589571c274, 0xea777961e814c576)
    ∷ []
