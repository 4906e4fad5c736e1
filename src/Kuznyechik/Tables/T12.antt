-- ===== src/Kuznyechik/Tables/T12.antt =====
-- internal/kuznyechik/tables.go: `t[12]`, 256 entries of two words.
use kubebao.Common.{ℕ, List, [], ◌∷◌}

unfoldable pub t_row12 : List (ℕ × ℕ)
t_row12 =
    (0xd94ca1d0b19e9555, 0x521af24c1cf92f5a)
    ∷ (0x6c815d85cf87edfa, 0x1c58e1811e8b4855)
    ∷ (0x72ccac48560abe0c, 0x1a09f1cc58455c67)
    ∷ (0x0a3beefa777b3152, 0x028eb13b83fb0caf)
    ∷ (0xc701501d2813c6a3, 0x544be2015a373b68)
    ∷ (0x534f51f7c9ab1c73, 0xaec7174ff2a062e2)
    ∷ (0x75e9ed0797709ce1, 0xcfd96de9b881e7f2)
    ∷ (0x6346c40262202581, 0x1f91e9463dec424c)
    ∷ (0xb0318b28a4c58186, 0x4f05aa31a2ee61b9)
    ∷ (0x1722321c19033502, 0xbae27722a5411a4e)
    ∷ (0x6463854da35a076c, 0xca417563dd28f9d9)
    ∷ (0x1bb186b04351aadf, 0x0716a9b1e6521284)
    ∷ (0xc0241152e969e44e, 0x819b7e24baf380fd)
    ∷ (0xc3703c791e9cb3e8, 0x3fa6a870da87822e)
    ∷ (0xd68b38571c395d2e, 0x51d3fa8b3f9e2543)
    ∷ (0x936b40a520c2f83d, 0x2f5c696b4853e21f)
    ∷ (0x05fc777ddadcf929, 0x0147b9fca09c06b6)
    ∷ (0x36a1cfa386a2977d, 0x0e2c91a10fa424cb)
    ∷ (0x6012e92995d57227, 0xa1ac3f125d98409f)
    ∷ (0xcfe388d544ce2c35, 0x825276e399948ae4)
    ∷ (0x5e51fe427faa0fcc, 0x79993a51919fd5d8)
    ∷ (0xad2857cecabd85d6, 0xf7696c2884547758)
    ∷ (0x5a20922649257a87, 0x12747020112f6c9e)
    ∷ (0x9a048374a04c9ec9, 0x93ef0e04abdcec63)
    ∷ (0xb714ca6765bfa36b, 0x9ad53614422ada2c)
    ∷ (0x1c94c7ff822b8832, 0xd2c635940696a911)
    ∷ (0xb440e74c924af4cd, 0x24e8e040225ed8ff)
    ∷ (0x4e568d11a7d31823, 0x16abd156d41a7403)
    ∷ (0x08e2d8c86cddea96, 0xd61994e2c3a3b18c)
    ∷ (0xaca54cd726ee09b4, 0x9dc39fa5a478c8a8)
    ∷ (0x26a6bcf05edb8092, 0x611e7aa64a218510)
    ∷ (0x15fb042e02a5eec6, 0x6e7552fbe519a76d)
    ∷ (0xdb9597e2aa384e91, 0x868dd7955ca19279)
    ∷ (0xb1bc903148960de4, 0x25af59bc82c2de49)
    ∷ (0x836c33f6f8bbefd2, 0x406e826c0dd643c4)
    ∷ (0x247f8ac2457d5b56, 0xb5895f7f0a793833)
    ∷ (0xd5df157cebcc0a88, 0xefee2cdf5fea2790)
    ∷ (0x9950ae5f57b9c96f, 0x2dd2d850cba8eeb0)
    ∷ (0xb8d353e0c8186b10, 0x991c3ed3614dd035)
    ∷ (0xab800d98e7942b59, 0x4813038044bc733d)
    ∷ (0xeb9c021701b37763, 0x37db299c93edb2d7)
    ∷ (0x6737a86654af50ca, 0x747ca337bd5cfb0a)
    ∷ (0x18e5ab9bb4a4fd79, 0xb92b7fe586261057)
    ∷ (0x95c31af30deb56b2, 0x902606c388bbe67a)
    ∷ (0xefed6e73373c0228, 0x5c3663ed135d0b91)
    ∷ (0xd4520e65079f86ea, 0x8544df527fc69860)
    ∷ (0xed3458412c9ad9ec, 0x88a146345305b6b2)
    ∷ (0xf8cf5c6f2e3f372a, 0xe6d414cfb61c11df)
    ∷ (0x02d936321ba6dbc4, 0xd49725d94058bd23)
    ∷ (0xe94534251a15aca7, 0xe34c0c45d3b50ff4)
    ∷ (0x6ba41cca0efdcf17, 0xc9887da4fe4ff3c0)
    ∷ (0x92e65bbccc91745f, 0x45f69ae6687f5def)
    ∷ (0x018d1b19ec538c62, 0x6aaaf38d202cbff0)
    ∷ (0x85c469a0d592415d, 0xff14edc4cd3e47a1)
    ∷ (0x396656242b055f06, 0x0de599662cc32ed2)
    ∷ (0x401c0f8fe6275c3a, 0x7fc82a1cd751c1ea)
    ∷ (0xbd2f249d12c49239, 0x985b872fc1d1d683)
    ∷ (0xd02362013110f3a1, 0xeea99523ff762126)
    ∷ (0xd3774f2ac6e5a407, 0x509443779f0223f5)
    ∷ (0x8e729c434ebafc6d, 0x9730af726ee9f4fe)
    ∷ (0x5974bf0dbed02d21, 0xac49a674715b6e4d)
    ∷ (0xc94bd28369e782ba, 0x3d28194b597c8e81)
    ∷ (0xa036f87b7cbc9669, 0x20374136e76bc062)
    ∷ (0xd8c1bac95dcd1937, 0x38b001c13cd590aa)
    ∷ (0x6e586bb7d421363e, 0xc8cfc4585ed3f576)
    ∷ (0x7730db358cd64725, 0x1b4e4830f8d95ad1)
    ∷ (0xc68c4b04c4404ac1, 0x3ee1118c7a1b8498)
    ∷ (0xf45ce8c3746da8f7, 0x5b20ca5cf50f1915)
    ∷ (0xba0a65d2d3beb0d4, 0x4d8b1b0a21156d16)
    ∷ (0xae7c7ae53d48d270, 0x4954ba7ce420758b)
    ∷ (0x91b276973b6423f9, 0xfbcb4cb2080b5f3c)
    ∷ (0x903f6d8ed737af9b, 0x9161bf3f2827e0cc)
    ∷ (0x0bb6f5e39b28bd30, 0x682442b6a3d7b35f)
    ∷ (0x7ba36f99d684d8f8, 0xa6ba96a3bbca521b)
    ∷ (0xee60756adb6f8e4a, 0x369c90603371b461)
    ∷ (0x2bb81345e8da932d, 0xb64057b8291e322a)
    ∷ (0x0d1eafb5b60113bf, 0xd75e2d1e633fb73a)
    ∷ (0xa5ca8f06a6606f40, 0x2170f8ca47f7c6d4)
    ∷ (0x13535e782f8c4049, 0xd10f3d5325f1a308)
    ∷ (0x78f742b221718f5e, 0x188740f7dbbe50c8)
    ∷ (0x9cacd9228d653046, 0x2c9561ac6b34e806)
    ∷ (0x5fdce55b93f983ae, 0x1333c9dcb1b36a28)
    ∷ (0xd2fa54332ab62865, 0x3a3eb0fabf2e9c05)
    ∷ (0x9d21c23b6136bc24, 0x463f92214b1857f6)
    ∷ (0x6fd570ae3872ba5c, 0xa26537d57eff4a86)
    ∷ (0xb95e48f9244be772, 0xf3b6cd5e41616fc5)
    ∷ (0xe2f3c1c6813d1197, 0x8b684ef37062bcab)
    ∷ (0xb5cdfc557e1978af, 0x4e4213cd0272670f)
    ∷ (0x98ddb546bbea450d, 0x47782bddeb845140)
    ∷ (0x3478f9919d044cb9, 0xdabbb4784ffc99e8)
    ∷ (0x619ff2307986fe45, 0xcb06cc9f7db4ff6f)
    ∷ (0x971a2cc1164d8d76, 0x44b1231ac8e35b59)
    ∷ (0x58f9a4145283a143, 0xc6e355f95177d1bd)
    ∷ (0xf708c5e88398ff51, 0xe51d1c08957b1bc6)
    ∷ (0x4d02a03a50264f85, 0xa8960702b46e76d0)
    ∷ (0x56b3268a1377e55a, 0xaf80aeb3523c6454)
    ∷ (0xdcb0d6ad6b426c7c, 0x535d4bb0bc6529ec)
    ∷ (0x944e01eae1b8dad0, 0xfa8cf54ea897598a)
    ∷ (0x5c88c870640cd408, 0xad0e1f88d1c768fb)
    ∷ (0xc4557d36dfe69105, 0xea7634553a4339bb)
    ∷ (0xde69e09f70e4b7b8, 0x87ca6e69fc3d94cf)
    ∷ (0x8fff875aa2e9700f, 0xfd9a5cff4ec54b0e)
    ∷ (0xe5d680894047337a, 0x5eb8d2d690a6073e)
    ∷ (0xa8d420b310617cff, 0xf62ed5d424c871ee)
    ∷ (0xdfe4fb869cb73bda, 0xed609de4dc112b3f)
    ∷ (0x35f5e2887157c0db, 0xb01147f56fd02618)
    ∷ (0x300995f5ab8b39f2, 0xb156fe09cf4c20ae)
    ∷ (0x871d5f92ce349a99, 0x2b83c81d8d66fa82)
    ∷ (0x8cabaa71551c27a9, 0x43a78aab2eb149dd)
    ∷ (0x335db8de5c7e6e54, 0x0f6b285daf38227d)
    ∷ (0xf5d1f3da983e2495, 0x318a39d1d523a6e5)
    ∷ (0x4a27e175915c6d68, 0x7d469b2754aacd45)
    ∷ (0xca1fffa89e12d51c, 0x8315cf1f39088c52)
    ∷ (0x5d05d369885f586a, 0xc7a4ec05f1ebd70b)
    ∷ (0x65ee9e544f098b0e, 0xa0eb86eefd044629)
    ∷ (0xccb7a5feb33b7b93, 0x3c6fa0b7f9e08837)
    ∷ (0x66bab37fb8fcdca8, 0x1ed650ba9d7044fa)
    ∷ (0xa362d5508b49c1cf, 0x9e0a9762871fc2b1)
    ∷ (0x3bbf601630a384c2, 0xd972bcbf6c9b93f1)
    ∷ (0x8d26b168b94fabcb, 0x290d79260e9df62d)
    ∷ (0xecb94358c0c9558e, 0xe20bb5b973290942)
    ∷ (0xf685def16fcb7333, 0x8fb7ef85b557a436)
    ∷ (0x7c862ed617fefa15, 0x736a0a865b0ee98e)
    ∷ (0x3fce0c72062cf189, 0xb29ff6ceec2b2ab7)
    ∷ (0x7e5f18e40c5821d1, 0xa7fd2f5f1b5654ad)
    ∷ (0xf379a98cb5178a1a, 0x8ef0567915cba280)
    ∷ (0x6d0c469c23d46198, 0x76f2120c3ea7f7a5)
    ∷ (0x4973cc5e66a93ace, 0xc37b4d7334decf96)
    ∷ (0x1968b08258f7711b, 0xd3818c68a60aafa7)
    ∷ (0x62cbdf1b8e73a9e3, 0x753b1acb1dc0fdbc)
    ∷ (0xa9593baafc32f09d, 0x9c84265904e4ce1e)
    ∷ (0xfb9b7144d9ca608c, 0x58e9c29bd668130c)
    ∷ (0x7341b751ba59326e, 0x70a302417869e397)
    ∷ (0x2fc97f21de55e666, 0xddad1dc9a9ae8b6c)
    ∷ (0x419114960a74d058, 0x1562d991f77d7e1a)
    ∷ (0x7a2e74803ad7549a, 0xcc10652e9be6edeb)
    ∷ (0x76bdc02c6085cb47, 0x71e4bbbdd8f5e521)
    ∷ (0xe45b9b90ac14bf18, 0x3412215bb08ab8ce)
    ∷ (0xa2efce49671a4dad, 0xf4a064efa7337d41)
    ∷ (0xdd3dcdb48711e01e, 0x39f7b83d9c49961c)
    ∷ (0xe682ada2b7b264dc, 0xe0850482f0d205ed)
    ∷ (0x14761f37eef662a4, 0x04dfa176c535189d)
    ∷ (0x25f291dba92ed734, 0xdf23acf22a5587c3)
    ∷ (0xbff612af096249fd, 0x4ccca2f681896ba0)
    ∷ (0xbe7b09b6e531c59f, 0x2666517ba1a5d450)
    ∷ (0x06a85a562d29ae8f, 0xbf7a6fa8c0e80465)
    ∷ (0x0725414fc17a22ed, 0xd5d09c25e0c4bb95)
    ∷ (0xcd3abee75f68f7f1, 0x56c5533ad9cc37c7)
    ∷ (0x5bad893fa576f6e5, 0x78de83ad3103d36e)
    ∷ (0x372cd4ba6af11b1f, 0x6486622c2f889b3b)
    ∷ (0x9e75ef1096c3eb82, 0xf80244752b6c5525)
    ∷ (0x272ba7e9b2880cf0, 0x0bb4892b6a0d3ae0)
    ∷ (0xa69ea22d519538e6, 0x9f4d2e9e2783c407)
    ∷ (0xd1ae7918dd437fc3, 0x840366aedf5a9ed6)
    ∷ (0x10077353d87917ef, 0x6f32eb074585a1db)
    ∷ (0x200ee6a673f22e1d, 0xde64150e8ac98175)
    ∷ (0x2c9d520a29a0b1c0, 0x6390cb9dc9da89bf)
    ∷ (0x1e4df1cd998d53f6, 0x0651104d46ce1432)
    ∷ (0x04716c64368f754b, 0x6bed4a7180b0b946)
    ∷ (0xfa166a5d3599ecee, 0x32433116f644acfc)
    ∷ (0x29612577f37c48e9, 0x62d7726169468f09)
    ∷ (0x88dac615639352e2, 0x284ac0daae01f09b)
    ∷ (0x81b505c4e31d3416, 0x94f9a7b54d8efee7)
    ∷ (0xe02af7f49a9bca53, 0x5fff6b2a303a0188)
    ∷ (0x0c93b4ac5a529fdd, 0xbdf4de93431308ca)
    ∷ (0x0000000000000000, 0x0000000000000000)
    ∷ (0xea11190eede0fb01, 0x5d71da11b3c10d27)
    ∷ (0x28ec3e6e1f2fc48b, 0x087d81ec496a30f9)
    ∷ (0xda188cfb466bc2f3, 0xec2724187c8d2d89)
    ∷ (0xf1a09fbeaeb151de, 0x5a6773a055931fa3)
    ∷ (0xce6e93cca89da057, 0xe8f8856eb9b83514)
    ∷ (0x546a10b808d13e9e, 0x7b178b6a1264d977)
    ∷ (0x573e3d93ff246938, 0xc52a5d3e7210dba4)
    ∷ (0xe70fb6bb5be1e8be, 0x8a2ff70fd0feba1d)
    ∷ (0xc2fd2760f2cf3f8a, 0x550c5bfdfaab3dde)
    ∷ (0x2a35085c04891f4f, 0xdceaa43509328dda)
    ∷ (0x2d104913c5f33da2, 0x093a3810e9f6364f)
    ∷ (0xfcbe300b18b04261, 0x8d395ebe36aca899)
    ∷ (0x434822a411d20b9c, 0xc1f5fc48b725c339)
    ∷ (0x8a03f02778358926, 0xfcdde503ee594db8)
    ∷ (0x16af2905f550b960, 0xd04884af856da5be)
    ∷ (0xf2f4b29559440678, 0xe45aa5f435e71d70)
    ∷ (0x22d7d0946854f5d9, 0x0af330d7ca913c56)
    ∷ (0x797a59abcd22033c, 0x722db37afb92ef38)
    ∷ (0x8690448b226716fb, 0x41293b90ad4a4572)
    ∷ (0xffea1d20ef4515c7, 0x330488ea56d8aa4a)
    ∷ (0x42c539bdfd8187fe, 0xab5f0fc597097cc9)
    ∷ (0x32d0a3c7b02de236, 0x65c1dbd08f149d8d)
    ∷ (0x3a327b0fdcf008a0, 0xb3d84f324cb72c01)
    ∷ (0x1d19dce66e780450, 0xb86cc61926ba16e1)
    ∷ (0xe37edadf6d6e9df5, 0xe1c2bd7e504e035b)
    ∷ (0x71988163a1ffe9aa, 0xa434279838315eb4)
    ∷ (0x697d2af8155b14d3, 0x1d1f587dbe174ee3)
    ∷ (0x4fdb96084b809441, 0x7c0122dbf436cbf3)
    ∷ (0x2183fdbf9fa1a27f, 0xb4cee683aae53e85)
    ∷ (0xfe670639031699a5, 0x59ae7b6776f415ba)
    ∷ (0x82e128ef14e863b0, 0x2ac471e12dfafc34)
    ∷ (0xf9424776c26cbb48, 0x8c7ee7429630ae2f)
    ∷ (0xb365a6035330d620, 0xf1387c65c29a636a)
    ∷ (0x096fc3d1808e66f4, 0xbcb3676fe38f0e7c)
    ∷ (0xa1bbe36290ef1a0b, 0x4a9db2bbc7477f92)
    ∷ (0xc8c6c99a85b40ed8, 0x5782eac679503171)
    ∷ (0x519667c5d20dc7b7, 0x7a503296b2f8dfc1)
    ∷ (0x68f031e1f90898b1, 0x77b5abf09e3bf113)
    ∷ (0x501b7cdc3e5e4bd5, 0x10fac11b92d46031)
    ∷ (0xa447941f4a33e322, 0x4bda0b4767db7924)
    ∷ (0xd706234ef06ad14c, 0x3b7909061fb29ab3)
    ∷ (0x844972b939c1cd3f, 0x95be1e49ed12f851)
    ∷ (0x6a2907d3e2ae4375, 0xa3228e29de634c30)
    ∷ (0x0e4a829e41f44419, 0x6963fb4a034bb5e9)
    ∷ (0x80381edd0f4eb874, 0xfe5354386da24117)
    ∷ (0x45e078f23cfba513, 0x7e8f93e077cdc75c)
    ∷ (0x47394ec0275d7ed7, 0xaa18b63937957a7f)
    ∷ (0xa713b934bdc6b484, 0xf5e7dd1307af7bf7)
    ∷ (0x0fc79987ada7c87b, 0x03c908c723670a19)
    ∷ (0xb2e8bd1abf635a42, 0x9b928fe8e2b6dc9a)
    ∷ (0x52c24aee25f89011, 0xc46de4c2d28cdd12)
    ∷ (0x9ff8f4097a9067e0, 0x92a8b7f80b40ead5)
    ∷ (0x446d63ebd0a82971, 0x1425606d57e178ac)
    ∷ (0xe1a7eced76c84631, 0x355598a71016be78)
    ∷ (0xc5d8662f33b51d67, 0x80dcc7d81a6f864b)
    ∷ (0x70159a7a4dac65c8, 0xce9ed415181de144)
    ∷ (0x3d173a401d8a2a4d, 0x6608d317ac739794)
    ∷ (0x55e70ba1e482b2fc, 0x11bd78e732486687)
    ∷ (0x7fd203fde00badb3, 0xcd57dcd23b7aeb5d)
    ∷ (0x8b8eeb3e94660544, 0x9677168ece75f248)
    ∷ (0xe8c82f3cf64620c5, 0x89e6ffc8f399b004)
    ∷ (0x969737d8fa1e0114, 0x2e1bd097e8cfe4a9)
    ∷ (0x12de4561c3dfcc2b, 0xbba5cede05dd1cf8)
    ∷ (0xaff161fcd11b5e12, 0x23fe49f1c40cca7b)
    ∷ (0xbb877ecb3fed3cb6, 0x2721e8870139d2e6)
    ∷ (0xf02d84a742e2ddbc, 0x30cd802d75bfa053)
    ∷ (0x118a684a342a9b8d, 0x0598188a65a91e2b)
    ∷ (0x31848eec47d8b590, 0xdbfc0d84ef609f5e)
    ∷ (0x7d0b35cffbad7677, 0x19c0f90b7b22567e)
    ∷ (0x1fc0ead475dedf94, 0x6cfbe3c066e2abc2)
    ∷ (0x4c8fbb23bc75c3e7, 0xc23cf48f9442c920)
    ∷ (0xbca23f84fe971e5b, 0xf2f174a2e1fd6973)
    ∷ (0x38eb4d3dc756d364, 0x674f6aeb0cef9122)
    ∷ (0x4baafa6c7d0fe10a, 0x17ec68aa748672b5)
    ∷ (0x9b89986d4c1f12ab, 0xf945fd898bf05393)
    ∷ (0xfd332b12f4e3ce03, 0xe793ad3316801769)
    ∷ (0x8957dd0c8fc0de80, 0x42e033578e2d4f6b)
    ∷ (0x7464f61e7b231083, 0xa5739e6498ad5802)
    ∷ (0x03542d2bf7f557a6, 0xbe3dd654607402d3)
    ∷ (0xb699d17e89ec2f09, 0xf07fc599620665dc)
    ∷ (0x48fed7478afab6ac, 0xa9d1befe14f27066)
    ∷ (0xc1a90a4b053a682c, 0xeb318da99adf3f0d)
    ∷ (0xcb92e4b17241597e, 0xe9bf3c92192433a2)
    ∷ (0x3c9a2159f1d9a62f, 0x0ca2209a8c5f2864)
    ∷ (0x46b455d9cb0ef2b5, 0xc0b245b417b9c58f)
    ∷ (0xaa0d16810bc7a73b, 0x22b9f00d6490cccd)
    ∷ (0x1a3c9da9af0226bd, 0x6dbc5a3cc67ead74)
    ∷ (0x2e44643832066a04, 0xb707ee448982349c)
    ∷ (0x3e43176bea7f7deb, 0xd8350543cc079547)
    ∷ (0x235acb8d840779bb, 0x6059c35aeabd83a6)
    ∷ []
