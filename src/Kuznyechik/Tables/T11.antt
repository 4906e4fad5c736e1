-- ===== src/Kuznyechik/Tables/T11.antt =====
-- internal/kuznyechik/tables.go: `t[11]`, 256 entries of two words.
use kubebao.Common.{ℕ, List, [], ◌∷◌}

unfoldable pub t_row11 : List (ℕ × ℕ)
t_row11 =
    (0x09ad9bfc7c7150fe, 0x1b53683f3f385efc)
    ∷ (0xe9d1e2eef4d89f6d, 0xf8bca3dada3c90ee)
    ∷ (0x3a0e92dd01e49453, 0x4e5d24a6a6b0b8dd)
    ∷ (0xf0f491115314b8ab, 0xd35f7d9595c51811)
    ∷ (0xda72ebcf894d5bc0, 0xadb2ef4343b476cf)
    ∷ (0xa43b656e24a6bd7d, 0x2f469afafa27c46e)
    ∷ (0x722fc03167ea51af, 0x9680e29d9db30d31)
    ∷ (0x615fda166fc67b72, 0xa32d01e4e47a8416)
    ∷ (0x9806d0fb40a39327, 0x6b21144e4e87c2fb)
    ∷ (0x0bbc86c45f2e87f9, 0x1d450e31318934c4)
    ∷ (0x297e88fa09c8be8e, 0x7bf0c7dfdf7931fa)
    ∷ (0xaba5d9da3d36578a, 0x3e2f58d7d70f24da)
    ∷ (0x9253b923ef439e3c, 0x756f297878b7c323)
    ∷ (0xbac4dec51645aa50, 0x0d94dda0a077c7c5)
    ∷ (0x8123a304e76fb4e1, 0x40c2ca01017e4a04)
    ∷ (0x3668dc4dcbe52341, 0x5a29b3828290074d)
    ∷ (0x787aa9e9c80a5cb4, 0x88cedfabab830ce9)
    ∷ (0x958971777a6caed7, 0x7c5eb06d6d1e4877)
    ∷ (0x49c8bdf096c04f1e, 0xdbd6f53c3cba80f0)
    ∷ (0x1add81db745d7a23, 0x2efe8b4646f1d7db)
    ∷ (0x1ceea69311bcc02a, 0x24c4215454e16993)
    ∷ (0x634ec72e4c99ac75, 0xa53b67eaeacbee2e)
    ∷ (0x7c5893998eb431ba, 0x84e213b7b722d899)
    ∷ (0xee0b2aba61f7af86, 0xf18d3acfcf951bba)
    ∷ (0xd027821726ad56db, 0xb3fcd27575847717)
    ∷ (0xe3848b365b389276, 0xe6f29eecec0c9136)
    ∷ (0xf8b0e5f1dfab62b7, 0xcb0726adad4473f1)
    ∷ (0x5f7372bb289c822f, 0xe15ce95e5e6be8bb)
    ∷ (0xc0af6a14fd1021e3, 0x834c64050545a114)
    ∷ (0x7b825bcd1b9b0151, 0x8dd38aa2a28b53cd)
    ∷ (0xd614a55f434cecd2, 0xb9c678676794c95f)
    ∷ (0x3be77dc1f12a1eb1, 0x4d5617a1a1098dc1)
    ∷ (0x39f660f9d275c9b6, 0x4b4071afafb8e7f9)
    ∷ (0x80ca4c1817a13e03, 0x43c9f90606c77f18)
    ∷ (0x75f50865f2c56144, 0x9fb17b88881a8665)
    ∷ (0xe64f5e5aed48759a, 0xe9d561f7f714705a)
    ∷ (0xa9b4c4e21e69808d, 0x38393ed9d9be4ee2)
    ∷ (0xc69c4d5c98f19bea, 0x8976ce1717551f5c)
    ∷ (0x58a9baefbdb3b2c4, 0xe86d704b4bc263ef)
    ∷ (0x33a309217d95c4ad, 0x550e4c999988e621)
    ∷ (0xfc92df8199150fb9, 0xc72beab1b1e5a781)
    ∷ (0x01e9ef1cf0ce8ae2, 0x030b330707b9351c)
    ∷ (0x8332be3cc43063e6, 0x46d4ac0f0fcf203c)
    ∷ (0x66851242fae94b99, 0xaa1c98f1f1d30f42)
    ∷ (0x9c24ea8b061dfe29, 0x670dd8525226168b)
    ∷ (0xb1785801496b2da9, 0x10d1d39191fef301)
    ∷ (0xac7f118ea8196761, 0x371ec1c2c2a6af8e)
    ∷ (0x97986c4f593379d0, 0x7a48d66363af224f)
    ∷ (0x305bfb05ae049948, 0x501319909080b905)
    ∷ (0xccc92484371196f1, 0x9738f32121651e84)
    ∷ (0xa1f0b00292d65a91, 0x206165e1e13f2502)
    ∷ (0x2ea440ae9ce78e65, 0x72c15ecacad0baae)
    ∷ (0x18cc9ce35702ad24, 0x28e8ed484840bde3)
    ∷ (0x2518c66ac3c9099c, 0x6f8450fbfb598e6a)
    ∷ (0x1d07498fe1724ac8, 0x27cf125353585c8f)
    ∷ (0xcf31d6a0e480cb14, 0x9225a628286d41a0)
    ∷ (0x20d3130675b9ee70, 0x60a3afe0e0416f06)
    ∷ (0xd1ce6d0bd663dc39, 0xb0f7e172723d420b)
    ∷ (0xf9590aed2f65e855, 0xc80c15aaaafd46ed)
    ∷ (0xcd20cb98c7df1c13, 0x9433c02626dc2b98)
    ∷ (0x54cff47f77b205d6, 0xfc19e76f6fe2dc7f)
    ∷ (0x4a304fd4455112fb, 0xdecba03535b2dfd4)
    ∷ (0xdb9b04d37983d122, 0xaeb9dc44440d43d3)
    ∷ (0x1161071f2b73fdda, 0x33bb85777778e31f)
    ∷ (0xd98a19eb5adc0625, 0xa8afba4a4abc29eb)
    ∷ (0x42743b34c9eec8e7, 0xc693fb0d0d33b434)
    ∷ (0xc2be772cde4ff6e4, 0x855a020b0bf4cb2c)
    ∷ (0x378133513b2ba9a3, 0x5922808585293251)
    ∷ (0x68f241ea13b72b8c, 0xb87e69dbdb42daea)
    ∷ (0x4bd9a0c8b59f9819, 0xddc09332320beac8)
    ∷ (0x0633274865e1ba09, 0x0a3aaa121210be48)
    ∷ (0x1effbbab32e3172d, 0x22d2475a5a5003ab)
    ∷ (0xe8380df20416158f, 0xfbb790dddd85a5f2)
    ∷ (0xe26d642aabf61894, 0xe5f9adebebb5a42a)
    ∷ (0x84e87668511f530d, 0x4fe5351a1a66ab68)
    ∷ (0x6ec166a276569185, 0xb244c3c9c95264a2)
    ∷ (0xb8d5c3fd351a7d57, 0x0b82bbaeaec6adfd)
    ∷ (0xa3e1ad3ab1898d96, 0x267703efef8e4f3a)
    ∷ (0x6b0ab3cec0267669, 0xbd633cd2d24a85ce)
    ∷ (0xcafa03cc52f02cf8, 0x9d0259333375a0cc)
    ∷ (0xbee6e4b550fbc75e, 0x01b811bcbcd613b5)
    ∷ (0x04223a7046be6d0e, 0x0c2ccc1c1ca1d470)
    ∷ (0xe195960e78674571, 0xe0e4f8e2e2bdfb0e)
    ∷ (0xa62a785607f96a7a, 0x2950fcf4f496ae56)
    ∷ (0xc14685080ddeab01, 0x8047570202fc9408)
    ∷ (0x4065260ceab11fe0, 0xc0859d030382de0c)
    ∷ (0x24f129763307837e, 0x6c8f63fcfce0bb76)
    ∷ (0xe07c791288a9cf93, 0xe3efcbe5e504ce12)
    ∷ (0xde50d1bfcff336ce, 0xa19e235f5f15a2bf)
    ∷ (0xa5d28a72d468379f, 0x2c4da9fdfd9ef172)
    ∷ (0x51042113c1c2e23a, 0xf33e187474fa3d13)
    ∷ (0x56dee94754edd2d1, 0xfa0f81616153b647)
    ∷ (0x4c03689c20b0a8f2, 0xd4f10a2727a2619c)
    ∷ (0x1f1654b7c22d9dcf, 0x21d9745d5de936b7)
    ∷ (0x77e4155dd19ab643, 0x99a71d8686abec5d)
    ∷ (0xdc41cc87ecace1c9, 0xa788455151a4c887)
    ∷ (0x71d73215b47b0c4a, 0x939db79494bb5215)
    ∷ (0x7e498ea1adebe6bd, 0x82f475b9b993b2a1)
    ∷ (0x2cb55d96bfb85962, 0x74d738c4c461d096)
    ∷ (0xf2e58c29704b6fac, 0xd5491b9b9b747229)
    ∷ (0x418cc9101a7f9502, 0xc38eae04043beb10)
    ∷ (0xd5ec577b90ddb137, 0xbcdb2d6e6e9c967b)
    ∷ (0x6cd07b9a55094682, 0xb452a5c7c7e30e9a)
    ∷ (0x1b346ec78493f0c1, 0x2df5b8414148e2c7)
    ∷ (0x594055f34d7d3826, 0xeb66434c4c7b56f3)
    ∷ (0xbd1e1691836a9abb, 0x04a544b5b5de4c91)
    ∷ (0xc564bf784b60c60f, 0x8c6b9b1e1e5d4078)
    ∷ (0x15433d6f6dcd90d4, 0x3f97496b6bd9376f)
    ∷ (0xfd7b309d69db855b, 0xc420d9b6b65c929d)
    ∷ (0xedf3d89eb266f263, 0xf4906fc6c69d449e)
    ∷ (0x2f4dafb26c290487, 0x71ca6dcdcd698fb2)
    ∷ (0x3fc547b1b79473bf, 0x417adbbdbda859b1)
    ∷ (0x62a72832bc572697, 0xa63054eded72db32)
    ∷ (0x3479c175e8baf446, 0x5c3fd58c8c216d75)
    ∷ (0x31b214195eca13aa, 0x53182a9797398c19)
    ∷ (0x324ae63d8d5b4e4f, 0x56057f9e9e31d33d)
    ∷ (0x192573ffa7cc27c6, 0x2be3de4f4ff988ff)
    ∷ (0xf30c63358085e54e, 0xd642289c9ccd4735)
    ∷ (0x2d5cb28a4f76d380, 0x77dc0bc3c3d8e58a)
    ∷ (0xe5b7ac7e3ed9287f, 0xecc834fefe1c2f7e)
    ∷ (0xb4b38d6dff1bca45, 0x1ff62c8a8ae6126d)
    ∷ (0x07dac854952f30eb, 0x0931991515a98b54)
    ∷ (0xaa4c36c6cdf8dd68, 0x3d246bd0d0b611c6)
    ∷ (0x4dea8780d07e2210, 0xd7fa3920201b5480)
    ∷ (0x9a17cdc363fc4420, 0x6d3772404036a8c3)
    ∷ (0x7fa061bd5d256c5f, 0x81ff46bebe2a87bd)
    ∷ (0xf11d7e0da3da3249, 0xd0544e92927c2d0d)
    ∷ (0x175220574e9247d3, 0x39812f6565685d57)
    ∷ (0x9bfe22df9332cec2, 0x6e3c4147478f9ddf)
    ∷ (0x799346f538c4d656, 0x8bc5ecacac3a39f5)
    ∷ (0x03f8f224d3915de5, 0x051d550909085f24)
    ∷ (0xbf0f0ba9a0354dbc, 0x02b322bbbb6f26a9)
    ∷ (0x22c20e3e56e63977, 0x66b5c9eeeef0053e)
    ∷ (0x0e7753a8e95e6015, 0x1262f12a2a91d5a8)
    ∷ (0xd7fd4a43b3826630, 0xbacd4b60602dfc43)
    ∷ (0xfaa1f8c9fcf4b5b0, 0xcd1140a3a3f519c9)
    ∷ (0x5ab8a7d79eec65c3, 0xee7b1645457309d7)
    ∷ (0x741ce779020beba6, 0x9cba488f8fa3b379)
    ∷ (0xebc0ffd6d787486a, 0xfeaac5d4d48dfad6)
    ∷ (0x691baef6e379a16e, 0xbb755adcdcfbeff6)
    ∷ (0x44471c7cac0f72ee, 0xcca9511f1f230a7c)
    ∷ (0x232be122a628b395, 0x65befae9e9493022)
    ∷ (0xfe83c2b9ba4ad8be, 0xc13d8cbfbf54cdb9)
    ∷ (0x1088e803dbbd7738, 0x30b0b67070c1d603)
    ∷ (0x084474e08cbfda1c, 0x18585b3838816be0)
    ∷ (0x50edce0f310c68d8, 0xf0352b737343080f)
    ∷ (0x482152ec660ec5fc, 0xd8ddc63b3b03b5ec)
    ∷ (0x2a867adeda59e36b, 0x7eed92d6d6716ede)
    ∷ (0x64940f7ad9b69c9e, 0xac0afeffff62657a)
    ∷ (0x8d45ed942d6e03f3, 0x54b65d25255ef594)
    ∷ (0x8ebd1fb0feff5e16, 0x51ab082c2c56aab0)
    ∷ (0xced839bc144e41f6, 0x912e952f2fd474bc)
    ∷ (0x8b76cadc488fb9fa, 0x5e8cf737374e4bdc)
    ∷ (0xc902f1e88161711d, 0x981f0c3a3a7dffe8)
    ∷ (0x439dd42839204205, 0xc598c80a0a8a8128)
    ∷ (0x86f96b507240840a, 0x49f3531414d7c150)
    ∷ (0x26e0344e10585479, 0x6a9905f2f251d14e)
    ∷ (0xd3df7033f53c0b3e, 0xb6e1877c7c8c2833)
    ∷ (0x60b6350a9f08f190, 0xa02632e3e3c3b10a)
    ∷ (0xa7c3974af737e098, 0x2a5bcff3f32f9b4a)
    ∷ (0x5e9a9da7d85208cd, 0xe257da5959d2dda7)
    ∷ (0x9dcd0597f6d374cb, 0x6406eb55559f2397)
    ∷ (0x45aef3605cc1f80c, 0xcfa26218189a3f60)
    ∷ (0x14aad2739d031a36, 0x3c9c7a6c6c600273)
    ∷ (0xa0195f1e6218d073, 0x236a56e6e686101e)
    ∷ (0x0000000000000000, 0x0000000000000000)
    ∷ (0xe45e4362ce17a29d, 0xefc307f9f9a51a62)
    ∷ (0x465601448f50a5e9, 0xcabf371111926044)
    ∷ (0x213afc1a85776492, 0x63a89ce7e7f85a1a)
    ∷ (0x4ffb9ab8f321f517, 0xd1ec5f2e2eaa3eb8)
    ∷ (0x02111d38235fd707, 0x0616660e0eb16a38)
    ∷ (0xec1a378242a87881, 0xf79b5cc1c1247182)
    ∷ (0xc48d5064bbae4ced, 0x8f60a81919e47564)
    ∷ (0x5c8b809ffb0ddfca, 0xe441bc575763b79f)
    ∷ (0xa208422641470774, 0x257c30e8e8377a26)
    ∷ (0x760dfa4121543ca1, 0x9aac2e818112d941)
    ∷ (0x3e2ca8ad475af95d, 0x4271e8baba116cad)
    ∷ (0xf72e5945c63b8840, 0xda6ee480806c9345)
    ∷ (0xe7a6b1461d86ff78, 0xeade52f0f0ad4546)
    ∷ (0xad96fe9258d7ed83, 0x3415f2c5c51f9a92)
    ∷ (0x13701a27082c2add, 0x35ade37979c98927)
    ∷ (0x676cfd5e0a27c17b, 0xa917abf6f66a3a5e)
    ∷ (0xb6a29055dc441d42, 0x19e04a8484577855)
    ∷ (0xd2369f2f05f281dc, 0xb5eab47b7b351d2f)
    ∷ (0x0d8fa18c3acf3df0, 0x177fa42323998a8c)
    ∷ (0xdfb93ea33f3dbc2c, 0xa295105858ac97a3)
    ∷ (0xff6a2da54a84525c, 0xc236bfb8b8edf8a5)
    ∷ (0xf53f447de5645f47, 0xdc78828e8eddf97d)
    ∷ (0x35902e6918747ea4, 0x5f34e68b8b985869)
    ∷ (0xfb4817d50c3a3f52, 0xce1a73a4a44c2cd5)
    ∷ (0x3c3db59564052e5a, 0x44678eb4b4a00695)
    ∷ (0x1299f53bf8e2a03f, 0x36a6d07e7e70bc3b)
    ∷ (0x91ab4b073cd2c3d9, 0x70727c7171bf9c07)
    ∷ (0x47bfee587f9e2f0b, 0xc9b40416162b5558)
    ∷ (0x9e35f7b32542292e, 0x611bbe5c5c977cb3)
    ∷ (0xc775a240683f1108, 0x8a7dfd1010ec2a40)
    ∷ (0x6d399486a5c7cc60, 0xb75996c0c05a3b86)
    ∷ (0x8f54f0ac0e31d4f4, 0x52a03b2b2bef9fac)
    ∷ (0xb091b71db9a5a74b, 0x13dae0969647c61d)
    ∷ (0xd863f6f7aa128cc7, 0xaba4894d4d051cf7)
    ∷ (0xc35798302e817c06, 0x8651310c0c4dfe30)
    ∷ (0x52fcd3371253bfdf, 0xf6234d7d7df26237)
    ∷ (0x94609e6b8aa22435, 0x7f55836a6aa77d6b)
    ∷ (0x8967d7e46bd06efd, 0x589a913939ff21e4)
    ∷ (0x8cac0288dda08911, 0x57bd6e2222e7c088)
    ∷ (0xbb2d31d9e68b20b2, 0x0e9feea7a7cef2d9)
    ∷ (0x99ef3fe7b06d19c5, 0x682a2749493ef7e7)
    ∷ (0x3dd45a8994cba4b8, 0x476cbdb3b3193389)
    ∷ (0xb93c2ce1c5d4f7b5, 0x088988a9a97f98e1)
    ∷ (0x9042a41bcc1c493b, 0x73794f767606a91b)
    ∷ (0x5d626f830bc35528, 0xe74a8f5050da8283)
    ∷ (0xb74b7f492c8a97a0, 0x1aeb798383ee4d49)
    ∷ (0x8710844c828e0ee8, 0x4af86013136ef44c)
    ∷ (0x93ba563f1f8d14de, 0x76641a7f7f0ef63f)
    ∷ (0x888e38f89b1ee41f, 0x5b91a23e3e4614f8)
    ∷ (0xa85d2bfeeea70a6f, 0x3b320ddede077bfe)
    ∷ (0xbcf7f98d73a41059, 0x07ae77b2b267798d)
    ∷ (0x96718353a9fdf332, 0x7943e56464161753)
    ∷ (0xaf87e3aa7b883a84, 0x320394cbcbaef0aa)
    ∷ (0x0c664e90ca01b712, 0x147497242420bf90)
    ∷ (0xea2910ca2749c288, 0xfda1f6d3d334cfca)
    ∷ (0x0a5569d8afe00d1b, 0x1e4e3d36363001d8)
    ∷ (0x7db17c857e7abb58, 0x87e920b0b09bed85)
    ∷ (0xf4d6ab6115aad5a5, 0xdf73b1898964cc61)
    ∷ (0x82db512034fee904, 0x45df9f0808761520)
    ∷ (0xb55a62710fd540a7, 0x1cfd1f8d8d5f2771)
    ∷ (0xd405b86760133bd5, 0xbfd01e696925a367)
    ∷ (0x4e1275a403ef7ff5, 0xd2e76c2929130ba4)
    ∷ (0x73c62f2d9724db4d, 0x958bd19a9a0a382d)
    ∷ (0x53153c2be29d353d, 0xf5287e7a7a4b572b)
    ∷ (0x703edd0944b586a8, 0x9096849393026709)
    ∷ (0x5737065ba4235833, 0xf904b26666ea835b)
    ∷ (0x5b5148cb6e22ef21, 0xed70254242ca3ccb)
    ∷ (0xdda8239b1c626b2b, 0xa4837656561dfd9b)
    ∷ (0xb280aa259afa704c, 0x15cc869898f6ac25)
    ∷ (0xcb13ecd0a23ea61a, 0x9e096a3434cc95d0)
    ∷ (0x6f2889be86981b67, 0xb14ff0ceceeb51be)
    ∷ (0x381f8fe522bb4354, 0x484b42a8a801d2e5)
    ∷ (0x05cbd56cb670e7ec, 0x0f27ff1b1b18e16c)
    ∷ (0x2709db52e096de9b, 0x699236f5f5e8e452)
    ∷ (0xf6c7b65936f502a2, 0xd965d78787d5a659)
    ∷ (0xefe2c5a691392564, 0xf28609c8c82c2ea6)
    ∷ (0x85019974a1d1d9ef, 0x4cee061d1ddf9e74)
    ∷ (0x6ae35cd230e8fc8b, 0xbe680fd5d5f3b0d2)
    ∷ (0x289767e6f906346c, 0x78fbf4d8d8c004e6)
    ∷ (0xc8eb1ef471affbff, 0x9b143f3d3dc4caf4)
    ∷ (0x0f9ebcb41990eaf7, 0x1169c22d2d28e0b4)
    ∷ (0x8a9f25c0b8413318, 0x5d87c43030f77ec0)
    ∷ (0x7a6bb4d1eb558bb3, 0x8ed8b9a5a53266d1)
    ∷ (0x657de0662978167c, 0xaf01cdf8f8db5066)
    ∷ (0x9fdc18afd58ca3cc, 0x62108d5b5b2e49af)
    ∷ (0x2b6f95c22a976989, 0x7de6a1d1d1c85bc2)
    ∷ (0xb36945396a34faae, 0x16c7b59f9f4f9939)
    ∷ (0x16bbcf4bbe5ccd31, 0x3a8a1c6262d1684b)
    ∷ (0x55261b63877c8f34, 0xff12d468685be963)
    ∷ (0xae6e0cb68b46b066, 0x3108a7cccc17c5b6)
    ∷ []
