-- ===== src/Kuznyechik/Tables/It10.antt =====
-- internal/kuznyechik/tables.go: `it[10]`, 256 entries of two words.
use kubebao.Common.{ℕ, List, [], ◌∷◌}

unfoldable pub it_row10 : List (ℕ × ℕ)
it_row10 =
    (0xca4bbbc9cc5ff651, 0xe6efa2675bea527e)
    ∷ (0x10cf72f803a5ae33, 0x67ba66b80641dbac)
    ∷ (0xd0c26f5217156aa4, 0x868e8b942ecb2670)
    ∷ (0xfffa7ed2a5e5de67, 0xad6ecea889194a18)
    ∷ (0x4afcad05d43ecf0a, 0x587614ee6ba74557)
    ∷ (0x09e69792fc9d84e7, 0x591e0db63b707c2c)
    ∷ (0xeb76f114d6f8ba28, 0xa31b503e6fd9d79f)
    ∷ (0x241e190d7631551a, 0xa778349dec0333b0)
    ∷ (0x6aa14936d2b7506c, 0x96c1d85d672530cc)
    ∷ (0x827789d3203d5c65, 0x6b1fca9e40ec34dd)
    ∷ (0x750bce7d656bd5fa, 0x142c376aca34f293)
    ∷ (0x66648d7442bccde8, 0x2d53132f8465fab1)
    ∷ (0xe7b3355646f327ac, 0x18899b4c8c991de2)
    ∷ (0x5f108c2dbb0d785a, 0xdd40b492b5d628aa)
    ∷ (0xc2cd82b52ceca1a9, 0x34b2913b582bde28)
    ∷ (0xb2e51f1825116d30, 0xc21260954a2f9aea)
    ∷ (0x6347dea42e2ad48b, 0xcfdfd5eb5c554ce0)
    ∷ (0x543684a07fcc9983, 0x51d8c533fe077772)
    ∷ (0x3e97cd96ad7bc9ef, 0xc7191d6e992247be)
    ∷ (0x205de43306899f66, 0xceb7ccb30c82759b)
    ∷ (0x943b990a6b7c5d14, 0xb0ec281fd68d8aae)
    ∷ (0x120fede73bf9cb0d, 0xb23c1aaf76e0f858)
    ∷ (0x257eb7e36a1f8605, 0x2c3b0a77d4b2c3ca)
    ∷ (0xe573aa497eaf4292, 0xcd0fe75bfc383e16)
    ∷ (0x8317273d3c138f7a, 0xe05cf474785dc4a7)
    ∷ (0xccc8d9e884bb5913, 0x5aa6265ecbca37a1)
    ∷ (0xd481926c67ada0d8, 0xef4173bace4a605b)
    ∷ (0xaeefa9a2b6bf5e87, 0x1e3acd5faf2e8b3b)
    ∷ (0x618741bb1676b1b5, 0x1a59a9fc2cf46f14)
    ∷ (0x8c72d28e886aa4df, 0x050b7dfbd30ddd54)
    ∷ (0x4759c7a9581b8191, 0x68a7e176b0567f50)
    ∷ (0xce0846f7bce73c2d, 0x8f205a49bb6b1455)
    ∷ (0x2a1b4250de66ada0, 0xc96c83f87fe2da39)
    ∷ (0x2b7becbec2487ebf, 0x422fbd1247532a43)
    ∷ (0x26de86124e6d3024, 0x72fe488a9ca21044)
    ∷ (0x93d855c53fb62149, 0x87e692cc7e1c1f0b)
    ∷ (0xe13057770e1788ee, 0xa4c01f751cb9783d)
    ∷ (0x11afdc161f8b7d2c, 0xecf958523ef02bd6)
    ∷ (0x7ced59ef99f6511d, 0x4d323adcf1448ebf)
    ∷ (0x40ba0b660cd1fdcc, 0x5fad5ba518c7eaf5)
    ∷ (0x0443fd3e70b8ca7c, 0x69cff82ee081462b)
    ∷ (0x463969474435528e, 0xe3e4df9c88e78f2a)
    ∷ (0x7388ac5c2d8f7ab8, 0xa865b3535a14974c)
    ∷ (0xd6410d735ff1c5e6, 0x3ac70fadbeeb43af)
    ∷ (0xc52e4e7a7826ddf4, 0x03b82be8f0ba4b8d)
    ∷ (0x5b537113cbb5b226, 0xb48f4cbc55576e81)
    ∷ (0xfbb983ecd55d141b, 0xc4a1368669980c33)
    ∷ (0x148c8fc6731d644f, 0x0e759e96e6c09d87)
    ∷ (0xc68e7f8b5c546bd5, 0x5d7d6915b8aa9803)
    ∷ (0xa86ccb83fe5bf1c5, 0xa27349663f0eeee4)
    ∷ (0x15ec21286f33b750, 0x8536a07cde716dfd)
    ∷ (0x213d4add1aa74c79, 0x45f4f259343385e1)
    ∷ (0x9118cada07ea4477, 0x5260eedb0ebd3cff)
    ∷ (0xe9b66e0beea4df16, 0x769d2c291f78f46b)
    ∷ (0x6861d629eaeb3552, 0x4347a44a17841338)
    ∷ (0x4b9c03ebc8101c15, 0xd3352a045316b52d)
    ∷ (0x0da56aac8c254e9b, 0x30d1f598dbf13a07)
    ∷ (0xbe20db5ab51af0b4, 0x7980abe7a96f5097)
    ∷ (0x02c09f1f385c653e, 0xd5867c1770a123f4)
    ∷ (0xf61ce94059785a80, 0xf470c31eb2693634)
    ∷ (0x35b1c51b69ba2836, 0x4b816ccfd2f31866)
    ∷ (0x41daa58810ff2ed3, 0xd4ee654f20761a8f)
    ∷ (0x495c9cf4f04c792b, 0x06b3561323b796d9)
    ∷ (0xdfa79ae1a36c4101, 0x63d9021b859b3f83)
    ∷ (0x70289dad09fdcc99, 0xf6a0f1ae120444c2)
    ∷ (0xf1ff258f0db226dd, 0xc37a79cd1af8a391)
    ∷ (0xb8a3b97bfdfe5ff6, 0xc5c92fde394f3548)
    ∷ (0x907864341bc49768, 0xd923d031360ccc85)
    ∷ (0x136f430927d71812, 0x397f24454e510822)
    ∷ (0xbce044458d46958a, 0xac06d7f0d9ce7363)
    ∷ (0xe8d6c0e5f28a0c09, 0xfdde12c327c90411)
    ∷ (0xad4f985392cde8a6, 0x40ff8fa2e73e58b5)
    ∷ (0xb4667d396df5c272, 0x7e5be4acda0fff35)
    ∷ (0x77cb51625d37b0c4, 0xc1aa4b7dba95d167)
    ∷ (0xf819b21df12fa23a, 0x9a64747b2188dfbd)
    ∷ (0x3332a73a215e8774, 0xf7c8e8f642d37db9)
    ∷ (0x52b5e681372836c1, 0xed91410a6e2712ad)
    ∷ (0xc7eed165407ab8ca, 0xd63e57ff801b6879)
    ∷ (0xac2f36bd8ee33bb9, 0xcbbcb148df8fa8cf)
    ∷ (0xc9eb8a38e82d4070, 0xb82ae09a13fa81f0)
    ∷ (0x8951815ee4fcbdbc, 0xe787bb3f0b3d6b05)
    ∷ (0x483c321aec62aa34, 0x8df068f91b0666a3)
    ∷ (0xedf593359e1c156a, 0x1f52d407fff9b240)
    ∷ (0x4c7fcf249cda6048, 0xe43f90d7fb872088)
    ∷ (0x7a6e3bced112fe5f, 0xf17bbee56164eb60)
    ∷ (0x999ef3a6e759138f, 0x803ddd870d7cb0a9)
    ∷ (0x4fdffed5b8a8d669, 0xbafad22ab397f306)
    ∷ (0xd202f04d2f490f9a, 0x5308f7835e6a0584)
    ∷ (0xa90c656de27522da, 0x2930778c07bf1e9e)
    ∷ (0x2df88e9f8aacd1fd, 0xfe66392bd7734f9c)
    ∷ (0x5a33dffdd79b6139, 0x3fcc72566de69efb)
    ∷ (0x0f65f5b3b4792ba5, 0xe557898fab5019f3)
    ∷ (0xf25f147e29c090fc, 0x9dbf3b3052e8701f)
    ∷ (0x5115d770135a80e0, 0xb35403f72637c123)
    ∷ (0xcda8770698958a0c, 0xd1e518b4f37bc7db)
    ∷ (0x4d1f61ca80f4b357, 0x6f7cae3dc336d0f2)
    ∷ (0xef350c2aa6407054, 0xcad4a8108f5891b4)
    ∷ (0xe41304a76281918d, 0x464cd9b1c489ce6c)
    ∷ (0x9e7d3f69b3936fd2, 0xb7376754a5ed250c)
    ∷ (0x6704239a5e921ef7, 0xa6102dc5bcd40acb)
    ∷ (0xa5c9a12f727ebf5e, 0x92a2bcfee4ffd4e3)
    ∷ (0xd721a39d43df16f9, 0xb1843147865ab3d5)
    ∷ (0x427a9479348d98f2, 0x8a2b27b26866c901)
    ∷ (0xf33fba9035ee43e3, 0x16fc05da6a598065)
    ∷ (0x27be28fc5243e33b, 0xf9bd7660a413e03e)
    ∷ (0xa22a6de026b4c303, 0xa5a8062d4c6e4146)
    ∷ (0xf5bcd8b17d0aeca1, 0xaab581e3fa79e5ba)
    ∷ (0x1faa874bb7dc8596, 0x82edef37ad11c25f)
    ∷ (0x60e7ef550a5862aa, 0x911a971614459f6e)
    ∷ (0xf77c47ae4556899f, 0x7f33fdf48ad8c64e)
    ∷ (0xfc5a4f2381976846, 0xf3ab8c55c1099996)
    ∷ (0xa4a90fc16e506c41, 0x19e18214dc4e2499)
    ∷ (0x96fb06155320382a, 0x656a5408a62ca95a)
    ∷ (0xa7093e304a22da60, 0x4724c0e9945ef717)
    ∷ (0x746b6093794506e5, 0x9f6f0980f28502e9)
    ∷ (0x6227704a32040794, 0x449ceb0164e4bc9a)
    ∷ (0xf4dc765f61243fbe, 0x21f6bf09c2c815c0)
    ∷ (0x98fe5d48fb77c090, 0x0b7ee36d35cd40d3)
    ∷ (0xb385b1f6393fbe2f, 0x49515e7f729e6a90)
    ∷ (0x8af1b0afc08e0b9d, 0xb942f9c2432db88b)
    ∷ (0x29bb73a1fa141b81, 0x97a9c10537f209b7)
    ∷ (0x5796b5515bbe2fa2, 0x0f1d87ceb617a4fc)
    ∷ (0x4ebf503ba4860576, 0x31b9ecc08b26037c)
    ∷ (0xee55a2c4ba6ea34b, 0x419796fab7e961ce)
    ∷ (0xabccfa72da2947e4, 0xfcb60b9b771e3d6a)
    ∷ (0x8754da034cab4506, 0x89930c5a98dc828c)
    ∷ (0x309296cb052c3155, 0xa90daa0b0ac3ae37)
    ∷ (0x9a3ec257c32ba5ae, 0xdef89f7a456c6327)
    ∷ (0xa34ac30e3a9a101c, 0x2eeb38c774dfb13c)
    ∷ (0xec953ddb8232c675, 0x9411eaedc748423a)
    ∷ (0x80b716cc1861395b, 0xbe99b689304d1729)
    ∷ (0xfad92d02c973c704, 0x4fe2086c5129fc49)
    ∷ (0x84f4ebf268d9f327, 0xd7564ea7d0cc5102)
    ∷ (0x690178c7f6c5e64d, 0xc8049aa02f35e342)
    ∷ (0x55562a4e63e24a9c, 0xda9bfbd9c6b68708)
    ∷ (0xdc07ab10871ef720, 0x3d1c40e6cd8bec0d)
    ∷ (0xb7c64cc849877453, 0x209ea651921f2cbb)
    ∷ (0xe3f0c868364bedd0, 0x714663626c185bc9)
    ∷ (0xbd80eaab91684695, 0x2745e91ae17f8319)
    ∷ (0x9ddd0e9897e1d9f3, 0xe9f225a9edfdf682)
    ∷ (0xd3625ea33367dc85, 0xd84bc96966dbf5fe)
    ∷ (0xc16db344089e1788, 0x6a77d3c6103b0da6)
    ∷ (0x44f9f6587c6937b0, 0x3662a38bf846acde)
    ∷ (0xa18a5c1102c67522, 0xfb6d44d0047e92c8)
    ∷ (0x955b37e477528e0b, 0x3baf16f5ee3c7ad4)
    ∷ (0x7d8df70185d88202, 0xc6710436c9f57ec5)
    ∷ (0x65c4bc8566ce7bc9, 0x739651d2cc75293f)
    ∷ (0x76abff8c411963db, 0x4ae975978224211d)
    ∷ (0xc3ad2c5b30c272b6, 0xbff1afd1609a2e52)
    ∷ (0x7b0e9520cd3c2d40, 0x7a38800f59d51b1a)
    ∷ (0xcb2b1527d071254e, 0x6dac9c8d635ba204)
    ∷ (0xbb03888ad98ce9d7, 0x9b0c6d23715fe6c6)
    ∷ (0xbf4075b4a93423ab, 0xf2c3950d91dea0ed)
    ∷ (0xaf8f074caa918d98, 0x9579f3b5979f7b41)
    ∷ (0xba632664c5a23ac8, 0x104f53c949ee16bc)
    ∷ (0x459958b66047e4af, 0xbd219d61c0f75ca4)
    ∷ (0x88312fb0f8d26ea3, 0x6cc485d5338c9b7f)
    ∷ (0x81d7b822044fea44, 0x35da886308fce753)
    ∷ (0x0cc5c442900b9d84, 0xbb92cb72e340ca7d)
    ∷ (0x28dbdd4fe63ac89e, 0x1ceaffef0f43f9cd)
    ∷ (0x2c982071968202e2, 0x752507c1efc2bfe6)
    ∷ (0x9f1d9187afbdbccd, 0x3c7459be9d5cd576)
    ∷ (0xaaac549cc60794fb, 0x77f535714fafcd10)
    ∷ (0x5e7022c3a723ab45, 0x56038a788d67d8d0)
    ∷ (0x7e2dc6f0a1aa3423, 0x98b446cb81e5ad4b)
    ∷ (0x0a46a663d8ef32c6, 0x07db4f4b7360afa2)
    ∷ (0xa0eaf2ff1ee8a63d, 0x702e7a3a3ccf62b2)
    ∷ (0x3611f4ea4dc89e17, 0x15442e329ae3cbe8)
    ∷ (0xc44ee09464080eeb, 0x88fb1502c80bbbf7)
    ∷ (0x6c222b179a53ff2e, 0x2a885c64f7055513)
    ∷ (0x18494b84e316f9cb, 0xb5e755e4058057fa)
    ∷ (0x39740159f9b1b5b2, 0xf013a7bd31b3d21b)
    ∷ (0xd844562ef7a63d5c, 0x54d3b8c82d0aaa26)
    ∷ (0x31f238251902e24a, 0x224e94e132725e4d)
    ∷ (0x5dd0133283511d64, 0x08c6c885c5770b5e)
    ∷ (0x164c10d94b410171, 0xdbf3e2819661be73)
    ∷ (0x979ba8fb4f0eeb35, 0xee296ae29e9d5920)
    ∷ (0xd5e13c827b8373c7, 0x64024d50f6fb9021)
    ∷ (0x58f340e2efc70407, 0xea4a0e411d47bd0f)
    ∷ (0xfd3ae1cd9db9bb59, 0x78e8b2bff9b869ec)
    ∷ (0x8594451c74f72038, 0x5c15704de87da178)
    ∷ (0x1be97a75c7644fea, 0xeb2217194d908474)
    ∷ (0xea165ffacad66937, 0x28586ed4576827e5)
    ∷ (0x052353d06c961963, 0xe28cc6c4d830b651)
    ∷ (0x5993ee0cf3e9d718, 0x610930ab25f64d75)
    ∷ (0x72e802b231a1a9a7, 0x23268db962a56736)
    ∷ (0x229d7b2c3ed5fa58, 0x1b31b0a47c23566f)
    ∷ (0xb1452ee90163db11, 0x9cd72268023f4964)
    ∷ (0x1a89d49bdb4a9cf5, 0x606129f37521740e)
    ∷ (0x0b26088dc4c1e1d9, 0x8c9871a14bd15fd8)
    ∷ (0xb9c31795e1d08ce9, 0x4e8a113401fec532)
    ∷ (0xf9791cf3ed017125, 0x11274a9119392fc7)
    ∷ (0x0886397ce0b357f8, 0xd25d335c03c18c56)
    ∷ (0xc00d1daa14b0c497, 0xe134ed2c288afddc)
    ∷ (0x9b5e6cb9df0576b1, 0x55bba1907ddd935d)
    ∷ (0x863474ed50859619, 0x02d032b0a06d72f6)
    ∷ (0x6f821ae6be21490f, 0x744d1e99bf15869d)
    ∷ (0x1eca29a5abf25689, 0x09aed1dd95a03225)
    ∷ (0x2e58bf6eaede67dc, 0xa0a37bd69f639c12)
    ∷ (0x37715a0451e64d08, 0x9e0710d8a2523b92)
    ∷ (0xe050f99912395bf1, 0x2f83219f24088847)
    ∷ (0x1d6a18548f80e0a8, 0x576b9320ddb0e1ab)
    ∷ (0xb02580071d4d080e, 0x17941c823a8eb91e)
    ∷ (0xc88b24d6f403936f, 0x3369de702b4b718a)
    ∷ (0xdbe467dfd3d48b7d, 0x0a16fa35651a79a8)
    ∷ (0x1929e56aff382ad4, 0x3ea46b0e3d31a780)
    ∷ (0x56f61bbf4790fcbd, 0x845eb9248ea65486)
    ∷ (0x7148334315d31f86, 0x7de3cf442ab5b4b8)
    ∷ (0x9cbda0768bcf0aec, 0x62b11b43d54c06f8)
    ∷ (0xcf68e819a0c9ef32, 0x046364a383dae42f)
    ∷ (0x79ce0a3ff560487e, 0xafbefc18297438ee)
    ∷ (0x431a3a9728a34bed, 0x0168195850d7397b)
    ∷ (0x172cbe37576fd26e, 0x50b0dc6baed04e09)
    ∷ (0x2f381180b2f0b4c3, 0x2be0453ca7d26c68)
    ∷ (0x03a031f12472b621, 0x5ec542fd4810d38e)
    ∷ (0xda84c931cffa5862, 0x8155c4df5dab89d2)
    ∷ (0x3d37fc6789097fce, 0x99dc5f93d1329430)
    ∷ (0x3ad430a8ddc30393, 0xaed6e54079a30195)
    ∷ (0xb6a6e22655a9a74c, 0xabdd98bbaaaedcc1)
    ∷ (0x53d5486f2b06e5de, 0x66d27fe05696e2d7)
    ∷ (0xdd6705fe9b30243f, 0xb65f7e0cf53a1c77)
    ∷ (0xd924f8c0eb88ee43, 0xdf90862215bb5a5c)
    ∷ (0x6bc1e7d8ce998373, 0x1d82e6b75f94c0b6)
    ∷ (0x3814afb7e59f66ad, 0x7b50995709022261)
    ∷ (0x3ff76378b1551af0, 0x4c5a2384a193b7c4)
    ∷ (0x23fdd5c222fb2947, 0x90728e4e4492a615)
    ∷ (0x7f4d681ebd84e73c, 0x13f77821b9545d31)
    ∷ (0x78aea4d1e94e9b61, 0x24fdc2f211c5c894)
    ∷ (0x92b8fb2b2398f256, 0x0ca5ac2646adef71)
    ∷ (0x34d16bf57594fb29, 0xc0c25225ea42e81c)
    ∷ (0x5cb0bddc9f7fce7b, 0x8385f66ffdc6fb24)
    ∷ (0x6ee2b408a20f9a10, 0xff0e207387a476e7)
    ∷ (0x5075799e0f7453ff, 0x38173d1d1e863159)
    ∷ (0x07e3cccf54ca7c5d, 0x370abad3a89195a5)
    ∷ (0x6d4285f9867d2c31, 0xa1cb628ecfb4a569)
    ∷ (0x1c0ab6ba93ae33b7, 0xdc28adcae50111d1)
    ∷ (0xe6d39bb85addf4b3, 0x93caa5a6b428ed98)
    ∷ (0x325209d43d70546b, 0x7c8bd61c7a628dc3)
    ∷ (0x8d127c60944477c0, 0x8e484311ebbc2d2e)
    ∷ (0xa66990de560c097f, 0xcc67fe03acef076d)
    ∷ (0xdec7340fbf42921e, 0xe89a3cf1bd2acff9)
    ∷ (0x3c5752899527acd1, 0x129f6179e983644a)
    ∷ (0xfe9ad03cb9cb0d78, 0x262df042b1a8ba62)
    ∷ (0xf09f8b61119cf5c2, 0x48394727224953eb)
    ∷ (0xd1a2c1bc0b3bb9bb, 0x0dcdb57e167ad60a)
    ∷ (0xb506d3d771db116d, 0xf518da46e2be0f4f)
    ∷ (0x8eb24d91b036c1e1, 0xd08d01eca3acfea0)
    ∷ (0x0160aeee1c2ed31f, 0x8b433eea38b1f07a)
    ∷ (0x8b911e41dca0d882, 0x3201c7287b9c48f1)
    ∷ (0x0e055b5da857f8ba, 0x6e14b76593e1e989)
    ∷ (0x3bb49e46c1edd08c, 0x2595dbaa4112f1ef)
    ∷ (0xe29066862a653ecf, 0xfa055d8854a9abb3)
    ∷ (0x0000000000000000, 0x0000000000000000)
    ∷ (0x8fd2e37fac1812fe, 0x5bce3f069b1d0eda)
    ∷ (0x0683622148e4af42, 0xbc498439902065df)
    ∷ (0x64a4126b7ae0a8d6, 0xf8d56f38f4c4d945)
    ∷ []
