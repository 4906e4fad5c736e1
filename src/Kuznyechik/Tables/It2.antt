-- ===== src/Kuznyechik/Tables/It2.antt =====
-- internal/kuznyechik/tables.go: `it[2]`, 256 entries of two words.
use kubebao.Common.{ℕ, List, [], ◌∷◌}

unfoldable pub it_row2 : List (ℕ × ℕ)
it_row2 =
    (0xe630efefb5ef3547, 0xe65f85138689a0af)
    ∷ (0x6798babae4ba63e9, 0x67a57c21945ad618)
    ∷ (0x86f78e8ede8eb28f, 0x8615296eab6477b8)
    ∷ (0xad956e6efc6ee24e, 0xade5695e44ddf861)
    ∷ (0x587a76769976ab03, 0x583ee3d8ac1cdf6f)
    ∷ (0x59a41e1eed1ecacf, 0x599d4946d2605eec)
    ∷ (0xa32b1b1b211be90c, 0xa3f80ae6f570fa7f)
    ∷ (0xa7d578783278aeba, 0xa731e7dbce43bb36)
    ∷ (0x9689c1c192c16d12, 0x96b71b9a47a8b05f)
    ∷ (0x6b591f1fd11faaf0, 0x6b3d8866d90f15c3)
    ∷ (0x14802c2c5f2c982b, 0x146bdfc9d7ff86ae)
    ∷ (0x2de35353d953d52c, 0x2dbc3af228720f55)
    ∷ (0x184189896a895132, 0x18f32b8e9aaa4575)
    ∷ (0xdd2c4040db40ba1b, 0xdd0df7d785fce891)
    ∷ (0x347cb2b2c7b2e5d2, 0x34ecbbe2cca4cba3)
    ∷ (0xc23212123e120f08, 0xc2110c05a6e1aceb)
    ∷ (0xcf2ddfdf7fdfa7dd, 0xcf2a52dc95c8eeb3)
    ∷ (0x519bd8d8cbd84460, 0x51cc503ca406dc7e)
    ∷ (0xc712191959192972, 0xc77b4ba6e3ae6c21)
    ∷ (0xcef3b7b70bb7c611, 0xce89f842ebb46f30)
    ∷ (0xb0f4ececf1ec9506, 0xb07c05739b387dde)
    ∷ (0xb28b3c3c193c575d, 0xb2f9928c67c0bc1b)
    ∷ (0x2c3d3b3bad3bb4e0, 0x2c1f906c560e8ed6)
    ∷ (0xcd520f0f970f6586, 0xcdafc52369302f76)
    ∷ (0xe0b15c5c4e5cb0aa, 0xe013ffd141422023)
    ∷ (0x5a05a6a671a66958, 0x5abb742750e41eaa)
    ∷ (0xefd14141e741da24, 0xefad36f78e93a3be)
    ∷ (0x1ec03a3a913ad4df, 0x1ebf514c5d61c5f9)
    ∷ (0x1a3e595982599369, 0x1a76bc71665284b0)
    ∷ (0x05200b0b670b267a, 0x056a47a3454fc0ca)
    ∷ (0x68f8a7a74da70967, 0x681bb5075b8b5585)
    ∷ (0x8f1620208c205dec, 0x8fe79a8aa37e74a9)
    ∷ (0xc9ac6c6c846c2230, 0xc966281e52036e3f)
    ∷ (0x42442f2f1b2f386a, 0x42485fa9ca4e5bdf)
    ∷ (0x72c6fefecffe9a0e, 0x726d09763dd9d135)
    ∷ (0x8729e6e6aae6d343, 0x87b683f0d518f63b)
    ∷ (0xa474c0c0aec00d2d, 0xa417daba4cc7fb70)
    ∷ (0xec70f9f97bf979b3, 0xec8b0b960c17e3f8)
    ∷ (0x4d243232b23252e4, 0x4df6968f059fd842)
    ∷ (0x5f25adad16ad4f22, 0x5fd1338415abde60)
    ∷ (0x6926cfcf39cf68ab, 0x69b81f9925f7d406)
    ∷ (0xe310e4e4d2e4133d, 0xe335c2b0c3c66065)
    ∷ (0xa8b565659b65c434, 0xa88f2efd019238ab)
    ∷ (0x3ac2c7c71ac7ee90, 0x3af1d85a7d09c9bd)
    ∷ (0x03a1b8b89cb8a397, 0x03263d6182844046)
    ∷ (0xb40a8f8fe28fd2b0, 0xb4b5e84ea00b3c97)
    ∷ (0xc4b3a1a1c5a18ae5, 0xc45d76c7612a2c67)
    ∷ (0x0ebe7575dd750b42, 0x0e1d63b8b1ad021e)
    ∷ (0x5d5a7d7dfe7d8d79, 0x5d54a47be9531fa5)
    ∷ (0xa2f57373557388c0, 0xa25ba0788b0c7bfc)
    ∷ (0x8556363642361118, 0x8533140f29e037fe)
    ∷ (0x451bf4f494f4dc4b, 0x45a78ff573f95ad0)
    ∷ (0x523a60605760e7f7, 0x52ea6d5d26829c38)
    ∷ (0x76389d9ddc9dddb8, 0x76a4e44b06ea907c)
    ∷ (0x439a47476f4759a6, 0x43ebf537b432da5c)
    ∷ (0xd39235350635b159, 0xd310946f3451ea8f)
    ∷ (0x3082d1d1d4d1a264, 0x302556dff7978aea)
    ∷ (0x795880807580b736, 0x791a2d6dc93b13e1)
    ∷ (0xd5138686fd8634b4, 0xd55ceeadf39a6a03)
    ∷ (0xf431707011702881, 0xf478201896bda68d)
    ∷ (0x4ba581814981d709, 0x4bbaec4dc25458ce)
    ∷ (0xd4cdeeee89ee5578, 0xd4ff44338de6eb80)
    ∷ (0x0681b3b3fbb385ed, 0x064c7ac2c7cb808c)
    ∷ (0x6366d9d9f7d9245f, 0x636c911caf699751)
    ∷ (0xf64ea0a0f9a0eada, 0xf6fdb7e76a456748)
    ∷ (0xc3ec7a7a4a7a6ec4, 0xc3b2a69bd89d2d68)
    ∷ (0xc56dc9c9b1c9eb29, 0xc5fedc591f56ade4)
    ∷ (0xd9d22323c823fdad, 0xd9c41aeabecfa9d8)
    ∷ (0x39637f7f867f4d07, 0x39d7e53bff8d89fb)
    ∷ (0xac4b060688068382, 0xac46c3c03aa179e2)
    ∷ (0xfdd0dede43dec7e2, 0xfd8a93fc9ea7a59c)
    ∷ (0x403bfffff3fffa31, 0x40cdc85636b69a1a)
    ∷ (0x7e075b5bfa5b5317, 0x7ef5fd31708c12ee)
    ∷ (0xc193aaaaa2aaac9f, 0xc13731642465ecad)
    ∷ (0x9a486464a764a40b, 0x9a2fefdd0afd7384)
    ∷ (0xf790c8c88dc88b16, 0xf75e1d791439e6cb)
    ∷ (0xedae91910f91187f, 0xed28a108726b627b)
    ∷ (0xd6b23e3e613e9723, 0xd67ad3cc711e2a45)
    ∷ (0xcbd3bcbc6cbce06b, 0xcbe3bfe1aefbaffa)
    ∷ (0xb8cb2a2ad72a1ba9, 0xb82d1c09ed5eff4c)
    ∷ (0xe7ee8787c187548b, 0xe7fc2f8df8f5212c)
    ∷ (0x8d69f0f064f09fb7, 0x8d620d755f86b56c)
    ∷ (0x1f1e5252e552b513, 0x1f1cfbd2231d447a)
    ∷ (0xe44f3f3f5d3ff71c, 0xe4da12ec7a71616a)
    ∷ (0xf1117b7b767b0efb, 0xf11267bbd3f26647)
    ∷ (0x80763d3d253d3762, 0x805953ac6caff734)
    ∷ (0xbab4fafa3ffad9f2, 0xbaa88bf611a63e89)
    ∷ (0x53e408082308863b, 0x5349c7c358fe1dbb)
    ∷ (0x291d3030ca30929a, 0x2975d7cf13414e1c)
    ∷ (0xfe716666df666475, 0xfeacae9d1c23e5da)
    ∷ (0x3fe2cccc7dccc8ea, 0x3f9b9ff938460977)
    ∷ (0xe5915757295796d0, 0xe579b872040de0e9)
    ∷ (0x9d17bfbf28bf402a, 0x9dc03f81b34a728b)
    ∷ (0xb35554546d543691, 0xb35a381219bc3d98)
    ∷ (0xd1ede5e5eee57302, 0xd1950390c8a92b4a)
    ∷ (0x6fa77c7cc27ced46, 0x6ff4655be23c548a)
    ∷ (0xca0dd4d418d481a7, 0xca40157fd0872e79)
    ∷ (0x46ba4c4c084c7fdc, 0x4681b294f17d1a96)
    ∷ (0xb7ab37377e377127, 0xb793d52f228f7cd1)
    ∷ (0xa60b10104610cf76, 0xa6924d45b03f3ab5)
    ∷ (0x9277a2a281a22aa4, 0x927ef6a77c9bf116)
    ∷ (0xb12a84848584f4ca, 0xb1dfafede544fc5d)
    ∷ (0x8a362b2beb2b7b96, 0x8a8ddd29e631b463)
    ∷ (0x16fffcfcb7fc5a70, 0x16ee48362b07476b)
    ∷ (0xf92ebdbd50bd8054, 0xf9437ec1a594e4d5)
    ∷ (0xa5aaa8a8daa86ce1, 0xa5b4702432bb7af3)
    ∷ (0xaacab5b573b5066f, 0xaa0ab902fd6af96e)
    ∷ (0x8209ededcdedf539, 0x82dcc453905736f1)
    ∷ (0x91d61a1a1d1a8933, 0x9158cbc6fe1fb150)
    ∷ (0x7fd933338e3332db, 0x7f5657af0ef0936d)
    ∷ (0xf36eabab9eabcca0, 0xf397f0442f0aa782)
    ∷ (0x199fe1e11ee130fe, 0x19508110e4d6c4f6)
    ∷ (0x65e76a6a0c6aa1b2, 0x6520ebde68a217dd)
    ∷ (0x476424247c241e10, 0x4722180a8f019b15)
    ∷ (0x9f686f6fc06f8271, 0x9f45a87e4fb2b34e)
    ∷ (0x44c59c9ce09cbd87, 0x4404256b0d85db53)
    ∷ (0x2122f6f6ecf61c35, 0x2124ceb56527cc8e)
    ∷ (0x0b9e7e7eba7e2d38, 0x0b77241bf4e2c2d4)
    ∷ (0x49da5151a1511552, 0x493f7bb23eac990b)
    ∷ (0xb9154242a3427a65, 0xb98eb69793227ecf)
    ∷ (0x9757a9a9e6a90cde, 0x9714b10439d431dc)
    ∷ (0x0f601d1da91d6a8e, 0x0fbec926cfd1839d)
    ∷ (0x315cb9b9a0b9c3a8, 0x3186fc4189eb0b69)
    ∷ (0x41e5979787979bfd, 0x416e62c848ca1b99)
    ∷ (0xfc0eb6b637b6a62e, 0xfc293962e0db241f)
    ∷ (0x899793937793d801, 0x89abe04864b5f425)
    ∷ (0xa96b0d0def0da5f8, 0xa92c84637feeb928)
    ∷ (0xde8df8f847f8198c, 0xde2bcab60778a8d7)
    ∷ (0x2e42ebeb45eb76bb, 0x2e9a0793aaf64f13)
    ∷ (0x94f611117a11af49, 0x94328c65bb50719a)
    ∷ (0xbe4a99992c999e44, 0xbe6166cb2a957fc0)
    ∷ (0x4f5be2e25ae290bf, 0x4f730170f9671987)
    ∷ (0xd76c56561556f6ef, 0xd7d979520f62abc6)
    ∷ (0xc8720404f00443fc, 0xc8c582802c7fefbc)
    ∷ (0xda739b9b549b5e3a, 0xdae2278b3c4be99e)
    ∷ (0x3d9d1c1c951c0ab1, 0x3d1e0806c4bec8b2)
    ∷ (0x20fc9e9e989e7df9, 0x2087642b1b5b4d0d)
    ∷ (0x7167464653463999, 0x714b3417bf5d9173)
    ∷ (0x27a34545174599d8, 0x2768b477a2ec4c02)
    ∷ (0xe950f2f21cf25fc9, 0xe9e14c3549582332)
    ∷ (0xd80c4b4bbc4b9c61, 0xd867b074c0b3285b)
    ∷ (0x6a877777a577cb3c, 0x6a9e22f8a7739440)
    ∷ (0x360362622f622789, 0x36692c1d305c0a66)
    ∷ (0xfb516d6db86d420f, 0xfbc6e93e596c2510)
    ∷ (0x3b1cafaf6eaf8f5c, 0x3b5272c40375483e)
    ∷ (0xc6cc71712d7148be, 0xc6d8e1389dd2eda2)
    ∷ (0x73189696bb96fbc2, 0x73cea3e843a550b6)
    ∷ (0x4a7be9e93de9b6c5, 0x4a1946d3bc28d94d)
    ∷ (0xbf94f1f158f1ff88, 0xbfc2cc5554e9fe43)
    ∷ (0x7af93838e93814a1, 0x7a3c100c4bbf53a7)
    ∷ (0x6dd8acac2aac2f1d, 0x6d71f2a41ec4954f)
    ∷ (0x9b960c0cd30cc5c7, 0x9b8c45437481f207)
    ∷ (0xf2b0c3c3eac3ad6c, 0xf2345ada51762601)
    ∷ (0x952879790e79ce85, 0x959126fbc52cf019)
    ∷ (0x107e4f4f4c4fdf9d, 0x10a232f4ecccc7e7)
    ∷ (0xbdeb2121b0213dd3, 0xbd475baaa8113f86)
    ∷ (0x6c06c4c45ec44ed1, 0x6cd2583a60b814cc)
    ∷ (0x35a2dadab3da841e, 0x354f117cb2d84a20)
    ∷ (0xbb6a92924b92b83e, 0xbb0b21686fdabf0a)
    ∷ (0x1cbfeaea79ea1684, 0x1c3ac6b3a199043c)
    ∷ (0x7599252540257e2f, 0x7582d92a846ed03a)
    ∷ (0x3c437474e1746b7d, 0x3cbda298bac24931)
    ∷ (0x77e6f5f5a8f5bc74, 0x77074ed5789611ff)
    ∷ (0x56c403034403a041, 0x562380601db1dd71)
    ∷ (0x9837b4b44fb46650, 0x98aa7822f605b241)
    ∷ (0x075fdbdb8fdbe421, 0x07efd05cb9b7010f)
    ∷ (0x70b92e2e272e5855, 0x70e89e89c12110f0)
    ∷ (0x155e44442b44f9e7, 0x15c87557a983072d)
    ∷ (0x8849fbfb03fbb9cd, 0x88084ad61ac975a6)
    ∷ (0x2abc88885688310d, 0x2a53eaae91c50e5a)
    ∷ (0xb5d4e7e796e7b37c, 0xb51642d0de77bd14)
    ∷ (0xf0cf131302136f37, 0xf0b1cd25ad8ee7c4)
    ∷ (0x54bbd3d3acd3621a, 0x54a6179fe1491cb4)
    ∷ (0x22834e4e704ebfa2, 0x2202f3d4e7a38cc8)
    ∷ (0x083fc6c626c68eaf, 0x0851197a76668292)
    ∷ (0xdbadf3f320f33ff6, 0xdb418d154237681d)
    ∷ (0xee0f29299329bbe8, 0xee0e9c69f0ef223d)
    ∷ (0x643902027802c07e, 0x6483414016de965e)
    ∷ (0xeaf14a4a804afc5e, 0xeac77154cbdc6374)
    ∷ (0x7886e8e801e8d6fa, 0x78b987f3b7479262)
    ∷ (0x5c8415158a15ecb5, 0x5cf70ee5972f9e26)
    ∷ (0xeb2f2222f4229d92, 0xeb64dbcab5a0e2f7)
    ∷ (0x28c35858be58f356, 0x28d67d516d3dcf9f)
    ∷ (0xe2ce8c8ca68c72f1, 0xe296682ebdbae1e6)
    ∷ (0x611909091f09e604, 0x61e906e353915694)
    ∷ (0x235d26260426de6e, 0x23a1594a99df0d4b)
    ∷ (0x1be03131f631f2a5, 0x1bd516ef182e0533)
    ∷ (0x9cc9d7d75cd721e6, 0x9c63951fcd36f308)
    ∷ (0x60c761616b6187c8, 0x604aac7d2dedd717)
    ∷ (0x8cb798981098fe7b, 0x8cc1a7eb21fa34ef)
    ∷ (0x4e858a8a2e8af173, 0x4ed0abee871b9804)
    ∷ (0x11a027273827be51, 0x1101986a92b04664)
    ∷ (0xd24c5d5d725dd095, 0xd2b33ef14a2d6b0c)
    ∷ (0xe16f34343a34d166, 0xe1b0554f3f3ea1a0)
    ∷ (0x5565bbbbd8bb03d6, 0x5505bd019f359d37)
    ∷ (0x027fd0d0e8d0c25b, 0x028597fffcf8c1c5)
    ∷ (0x74474d4d344d1fe3, 0x742173b4fa1251b9)
    ∷ (0x09e1aeae52aeef63, 0x09f2b3e4081a0311)
    ∷ (0xa08aa3a3bda34a9b, 0xa0de378777f4ba39)
    ∷ (0x9eb60707b407e3bd, 0x9ee602e031ce32cd)
    ∷ (0x2f9c838331831777, 0x2f39ad0dd48ace90)
    ∷ (0x571a6b6b306bc18d, 0x57802afe63cd5cf2)
    ∷ (0x17219494c3943bbc, 0x174de2a8557bc6e8)
    ∷ (0x33236969486901f3, 0x33036bbe7513caac)
    ∷ (0x0a401616ce164cf4, 0x0ad48e858a9e4357)
    ∷ (0x3e3ca4a409a4a926, 0x3e383567463a88f4)
    ∷ (0x84885e5e365e70d4, 0x8490be91579cb67d)
    ∷ (0x7da6e3e366e3f080, 0x7dd3c050f20852a8)
    ∷ (0x62b8b1b183b14593, 0x62cf3b82d11516d2)
    ∷ (0x04fe6363136347b6, 0x04c9ed3d3b334149)
    ∷ (0xafeabebe14be2015, 0xaf60fea1b82539a4)
    ∷ (0x01de6868746861cc, 0x01a3aa9e7e7c8183)
    ∷ (0x5045b0b0bfb025ac, 0x506ffaa2da7a5dfd)
    ∷ (0x2b62e0e022e050c1, 0x2bf04030efb98fd9)
    ∷ (0x5efbc5c562c52eee, 0x5e72991a6bd75fe3)
    ∷ (0x81a85555515556ae, 0x81faf93212d376b7)
    ∷ (0x99e9dcdc3bdc079c, 0x9909d2bc887933c2)
    ∷ (0xae34d6d660d641d9, 0xaec3543fc659b827)
    ∷ (0xab14dddd07dd67a3, 0xaba9139c831678ed)
    ∷ (0x6646d2d290d20225, 0x6606d6bfea26579b)
    ∷ (0xb6755f5f0a5f10eb, 0xb6307fb15cf3fd52)
    ∷ (0xdf53909033907840, 0xdf88602879042954)
    ∷ (0x1d6182820d827748, 0x1d996c2ddfe585bf)
    ∷ (0x7b2750509d50756d, 0x7b9fba9235c3d224)
    ∷ (0x4cfa5a5ac65a3328, 0x4c553c117be359c1)
    ∷ (0x900872726972e8ff, 0x90fb6158806330d3)
    ∷ (0x13dff7f7d0f77c0a, 0x13840f956e4887a1)
    ∷ (0x2402fdfd8bfd3a4f, 0x244e891620680c44)
    ∷ (0x0cc1a5a535a5c919, 0x0c98f4474d55c3db)
    ∷ (0xc04dc2c2d6c2cd53, 0xc0949bfa5a196d2e)
    ∷ (0x83d78585b98594f5, 0x837f6ecdee2bb772)
    ∷ (0xffaf0e0eab0e05b9, 0xff0f0403625f6459)
    ∷ (0x38bd1717f2172ccb, 0x38744fa581f10878)
    ∷ (0x37dd0a0a5b0a4645, 0x37ca86834e208be5)
    ∷ (0xa154cbcbc9cb2b57, 0xa17d9d1909883bba)
    ∷ (0xdcf22828af28dbd7, 0xdcae5d49fb806912)
    ∷ (0x93a9cacaf5ca4b68, 0x93dd5c3902e77095)
    ∷ (0x7c788b8b128b914c, 0x7c706ace8c74d32b)
    ∷ (0x8ec84848f8483c20, 0x8e443014dd02f52a)
    ∷ (0xcc8c6767e367044a, 0xcc0c6fbd174caef5)
    ∷ (0xe88e9a9a689a3e05, 0xe842e6ab3724a2b1)
    ∷ (0x12019f9fa49f1dc6, 0x1227a50b10340622)
    ∷ (0x267d2d2d632df814, 0x26cb1ee9dc90cd81)
    ∷ (0x48043939d539749e, 0x489cd12c40d01888)
    ∷ (0x0d1fcdcd41cda8d5, 0x0d3b5ed933294258)
    ∷ (0xf5ef18186518494d, 0xf5db8a86e8c1270e)
    ∷ (0xd0338d8d9a8d12ce, 0xd036a90eb6d5aac9)
    ∷ (0x8be843439f431a5a, 0x8b2e77b7984d35e0)
    ∷ (0x32fd01013c01603f, 0x32a0c1200b6f4b2f)
    ∷ (0x6e791414b6148c8a, 0x6e57cfc59c40d509)
    ∷ (0x25dc9595ff955b83, 0x25ed23885e148dc7)
    ∷ (0xfa8f0505cc0523c3, 0xfa6543a02710a493)
    ∷ (0x0000000000000000, 0x0000000000000000)
    ∷ (0x5bdbcece05ce0894, 0x5b18deb92e989f29)
    ∷ (0xbc354949c4495c1f, 0xbce4f134d66dbe05)
    ∷ (0xf8f0d5d524d5e198, 0xf8e0d45fdbe86556)
    ∷ []
