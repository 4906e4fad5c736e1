-- ===== src/Kuznyechik/Tables/T8.antt =====
-- internal/kuznyechik/tables.go: `t[8]`, 256 entries of two words.
use kubebao.Common.{ℕ, List, [], ◌∷◌}

unfoldable pub t_row8 : List (ℕ × ℕ)
t_row8 =
    (0xd92529bea31248d7, 0xfc012d6adfaeec10)
    ∷ (0x6c820e60de114463, 0xeea0cb202af27c92)
    ∷ (0x72af0d3d2274135e, 0xdd47d2aa23c727fa)
    ∷ (0x0a1b018a54238caa, 0x115db6c707138899)
    ∷ (0xc7082ae35f771fea, 0xcfe634e0d69bb778)
    ∷ (0x533d5758428b692a, 0x6ee8718966c0f698)
    ∷ (0x7544868473e41629, 0x314f797c14fe4b7a)
    ∷ (0x6375eeafa0c28e9c, 0x16322665cf09b0a6)
    ∷ (0xb04bc69b57f34ae1, 0xfb6ebdc817b4d42f)
    ∷ (0x17d35d550f1658a4, 0xc4ff2733507eef2b)
    ∷ (0x649e6516f1528beb, 0xfa3a8db3f830dc26)
    ∷ (0x1bc1e218d6951168, 0xda284208ebdd1fc5)
    ∷ (0xc0e3a15a0ee71a9d, 0x23ee9f36e1a2dbf8)
    ∷ (0xc306fed8a9b799ae, 0xc5ab1748bffae722)
    ∷ (0xd6d2c971ddc18228, 0x0493c02f3a552024)
    ∷ (0x93def6024c6c73b7, 0x4d06eebf87622d60)
    ∷ (0x05ece1452af04655, 0xe9cf5b82e2e844ad)
    ∷ (0x364107306fe922d0, 0x7750841015793e49)
    ∷ (0x6090b12d07920daf, 0xf077ae1b91518c7c)
    ∷ (0xcf1441957034d062, 0xdb7c7273045917cc)
    ∷ (0x5ecddd6b4738e0f7, 0x93bd6c9856ea1281)
    ∷ (0xad839a440cc69eef, 0x2ecc2c3c40d9b39d)
    ∷ (0x5ac30950b1f866b3, 0x99f04f303f8b42db)
    ∷ (0x9a20a80abf1f7c2e, 0xba1ed006de299923)
    ∷ (0xb7a04d2206634f96, 0x1766161e208db8af)
    ∷ (0x1c2a69a18705141f, 0x3620e9dedce47345)
    ∷ (0xb44512a0a133cca5, 0xf1239e607ed58475)
    ∷ (0x4ef50b8719bebd24, 0xbb4ae07d31ad912a)
    ∷ (0x081c6b762f43cf88, 0x149a4693d2c2a0b4)
    ∷ (0xac61af3ad0f65efe, 0xcd4e5416cb50a76a)
    ∷ (0x2679d1dc316f7f03, 0x5fa708f5723ebde2)
    ∷ (0x15d437a974761b86, 0xc138d76785afc706)
    ∷ (0xdb224342d8720bf5, 0xf9c6dd3e0a7fc43d)
    ∷ (0xb1a9f3e58bc38af0, 0x18ecc5e29c3dc0d8)
    ∷ (0x83e620ee12ea2e64, 0x65f1625ae025aecb)
    ∷ (0x247ebb204a0f3c21, 0x5a60f8a1a7ef95cf)
    ∷ (0xd53796f37a91011b, 0xe2d64851640d1cfe)
    ∷ (0x99c5f788184fff1d, 0x5c5b58788071a5f9)
    ∷ (0xb857aded78b08569, 0xeff4fb5bc576749b)
    ∷ (0xab8a248381665b89, 0x2146ffc0fc69cbea)
    ∷ (0xeb6afab53a3bec43, 0x811c8ad2a3b68203)
    ∷ (0x677b3a94560208d8, 0x1c7f05cda668e0fc)
    ∷ (0x1824bd9a71c5925b, 0x3c6dca76b585231f)
    ∷ (0x95d748c5c1ccb6d1, 0x428c3d433bd25517)
    ∷ (0xef642e8eccfb6a07, 0x8b51a97acad7d259)
    ∷ (0xd4d5a38da6a1c10a, 0x0154307bef840809)
    ∷ (0xed634472b79b2925, 0x8e96592e1f06fa74)
    ∷ (0xf8b773dbc3ed32a3, 0x4fae8e499aa93d72)
    ∷ (0x02076afc7b604322, 0x05c7f054d5d1282d)
    ∷ (0xe96d9049415baf61, 0x84db7a867667aa2e)
    ∷ (0x6b6985d98f814114, 0x02a860f61dcb1012)
    ∷ (0x923cc37c905cb3a6, 0xae8496950ceb3997)
    ∷ (0x01e2357edc30c011, 0xe382782a8b8914f7)
    ∷ (0x85ef9e299f4aeb02, 0x6a7bb1a65c95d6bc)
    ∷ (0x39b6e7ff113ae82f, 0x8fc26955f082f27d)
    ∷ (0x40e0de36bb5db7ca, 0xa05a75125fdf49e9)
    ∷ (0xbdbb4ca85240c33c, 0x063ba0d9279e3036)
    ∷ (0xd0db77b65061474e, 0x0b1913d386e55853)
    ∷ (0xd33e2834f731c47d, 0xed5c9badd8bd6489)
    ∷ (0x8e16aadd1759a7b9, 0x98a47f4bd00f4ad2)
    ∷ (0x592656d216a8e580, 0x7fb5c74e61d37e01)
    ∷ (0xc91dff52fd941504, 0xd4f6a18fb8e96fbb)
    ∷ (0xa073107709751732, 0xd399312d70f35784)
    ∷ (0xd8c71cc07f2288c6, 0x1f8355405427f8e7)
    ∷ (0x6e85649ca5710741, 0xeb673b74ff2354bf)
    ∷ (0x7743ec780884550b, 0x34888928c12f6357)
    ∷ (0xc6ea1f9d8347dffb, 0x2c644cca5d12a38f)
    ∷ (0xf4a5cc961a6e7b6f, 0x5179eb72210acd9c)
    ∷ (0xba50c71103d0c64b, 0xea330b0f10a75cb6)
    ∷ (0xae66c5c6ab961ddc, 0xc889a4421e818f47)
    ∷ (0x91d99cfe370c3095, 0x48c11eeb52b3054d)
    ∷ (0x903ba980eb3cf084, 0xab4366c1d93a11ba)
    ∷ (0x0bf934f488134cbb, 0xf2dfceed8c9a9c6e)
    ∷ (0x7b515335d1071cc7, 0x2a5fec137a8c93b9)
    ∷ (0xee861bf010cbaa16, 0x68d3d150415ec6ae)
    ∷ (0x2b895bef34dcf6de, 0xa2f215e4421459fb)
    ∷ (0x0df08a3305b389dd, 0xfd551d11302ae419)
    ∷ (0xa59ff13223855167, 0x3a566aaf921b1329)
    ∷ (0x13dd896ef9d6dee0, 0xceb2049b391fbf71)
    ∷ (0x78b40cb776579ff4, 0xcc1a646d24d4af63)
    ∷ (0x9c2916cd32bfb948, 0xb59403fa6299e154)
    ∷ (0x5f2fe8159b0820e6, 0x703f14b2dd630676)
    ∷ (0xd2dc1d4a2b01046c, 0x0edee3875334707e)
    ∷ (0x9dcb23b3ee8f7959, 0x56167bd0e910f5a3)
    ∷ (0x6f6751e27941c750, 0x08e5435e74aa4048)
    ∷ (0xb9b59893a4804578, 0x0c7683714eff606c)
    ∷ (0xe294a4bdc948e3da, 0x7604b46bfafd3640)
    ∷ (0xb5a727de7d030cb4, 0x12a1e64af55c9082)
    ∷ (0x9827c2f6c47f3f0c, 0xbfd920520bf8b10e)
    ∷ (0x34466dcc148961f2, 0x72977444c0a81664)
    ∷ (0x61728453dba2cdbe, 0x13f5d6311ad8988b)
    ∷ (0x97d02239baacf5f3, 0x474bcd17ee037d3a)
    ∷ (0x58c463acca982591, 0x9c37bf64ea5a6af6)
    ∷ (0xf7409314bd3ef85c, 0xb73c630c7f52f146)
    ∷ (0x4d105405beee3e17, 0x5d0f68036ff5adf0)
    ∷ (0x56d1b61d687b2f7f, 0x87272a0b8428b235)
    ∷ (0xdcc9c8fb89e20e82, 0x15ce76e83d46a8bd)
    ∷ (0x94357dbb1dfc76c0, 0xa10e4569b05b41e0)
    ∷ (0x5ccab7973c58a3d5, 0x967a9ccc833b3aac)
    ∷ (0xc4ed7561f8279cd9, 0x29a3bc9e88c38ba2)
    ∷ (0xdecea207f2824da0, 0x100986bce8978090)
    ∷ (0x8ff49fa3cb6967a8, 0x7b2607615b865e25)
    ∷ (0xe57f2f0498d8e6ad, 0x9a0c1fbdcdc45ac0)
    ∷ (0xa86f7b012636d8ba, 0xc70377bea231f730)
    ∷ (0xdf2c97792eb28db1, 0xf38bfe96631e9467)
    ∷ (0x35a458b2c8b9a1e3, 0x91150c6e4b210293)
    ∷ (0x3048b9f7e249e7b6, 0x78da57eca9c9463e)
    ∷ (0x87e8f4d5e42aa820, 0x6fbc41f28944fe91)
    ∷ (0x8c11c0216c39e49b, 0x9d638f1f05de62ff)
    ∷ (0x33ade67545196485, 0x9e9fdf92f7917ae4)
    ∷ (0xf547f9e8c65ebb7e, 0xb2fb9358aa83d96b)
    ∷ (0x4afbdfbcef7e3b60, 0xb107c3d558ccc170)
    ∷ (0xcaf8a0d05ac49637, 0x32b329f1e6b15361)
    ∷ (0x5d2882e9e06863c4, 0x75f8e4e608b22e5b)
    ∷ (0x657c50682d624bfa, 0x19b8f59973b9c8d1)
    ∷ (0xccf11e17d7645351, 0x3d39fa0d5a012b16)
    ∷ (0x66990fea8a32c8c9, 0xfffd7de72de1f40b)
    ∷ (0xa3964ff5ae259401, 0x35dcb9532eab6b5e)
    ∷ (0x3bb18d036a5aab0d, 0x8a0599012553da50)
    ∷ (0x8df3f55fb009248a, 0x7ee1f7358e577608)
    ∷ (0xec81710c6babe934, 0x6d142104948fee83)
    ∷ (0xf6a2a66a610e384d, 0x54be1b26f4dbe5b1)
    ∷ (0x7cbad88c809719b0, 0xc65747c54db5ff39)
    ∷ (0x3fbf59389c9a2d49, 0x8048baa94c328a0a)
    ∷ (0x7ebdb270fbf75a92, 0xc390b7919864d714)
    ∷ (0xf34e472f4bfe7e18, 0xbd7140a41633a11c)
    ∷ (0x6d603b1e02218472, 0x0d22b30aa17b6865)
    ∷ (0x491e803e482eb853, 0x57424bab0694fdaa)
    ∷ (0x19c688e4adf5524a, 0xdfefb25c3e0c37e8)
    ∷ (0x6297dbd17cf24e8d, 0xf5b05e4f4480a451)
    ∷ (0xa98d4e7ffa0618ab, 0x24810f9429b8e3c7)
    ∷ (0xfb522c5964bdb190, 0xa9eb0637c4f101a8)
    ∷ (0x734d3843fe44d34f, 0x3ec5aa80a84e330d)
    ∷ (0x2f878fd4c21c709a, 0xa8bf364c2b7509a1)
    ∷ (0x4102eb48676d77db, 0x43d80d38d4565d1e)
    ∷ (0x7ab3664b0d37dcd6, 0xc9dd9439f105874e)
    ∷ (0x76a1d906d4b4951a, 0xd70af1024aa677a0)
    ∷ (0xe49d1a7a44e826bc, 0x798e6797464d4e37)
    ∷ (0xa2747a8b72155410, 0xd65ec179a5227fa9)
    ∷ (0xdd2bfd8555d2ce93, 0xf64c0ec2b6cfbc4a)
    ∷ (0xe69a70863f88659e, 0x7c4997c3939c661a)
    ∷ (0x143602d7a846db97, 0x22baaf4d0e26d3f1)
    ∷ (0x259c8e5e963ffc30, 0xb9e2808b2c668138)
    ∷ (0xbfbc26542920801e, 0x03fc508df24f181b)
    ∷ (0xbe5e132af510400f, 0xe07e28a779c60cec)
    ∷ (0x0609bec78da0c566, 0x0f8ad3fcbcb07877)
    ∷ (0x07eb8bb951900577, 0xec08abd637396c80)
    ∷ (0xcd132b690b549340, 0xdebb8227d1883fe1)
    ∷ (0x5b213c2e6dc8a6a2, 0x7a72371ab402562c)
    ∷ (0x37a3324eb3d9e2c1, 0x94d2fc3a9ef02abe)
    ∷ (0x9e2e7c3149dffa6a, 0xb053f3aeb748c979)
    ∷ (0x279be4a2ed5fbf12, 0xbc2570dff9b7a915)
    ∷ (0xa67aaeb084d5d254, 0xdc13e2d1cc432ff3)
    ∷ (0xd13942c88c51875f, 0xe89b6bf90d6c4ca4)
    ∷ (0x1038d6ec5e865dd3, 0x28f78ce5674783ab)
    ∷ (0x20706f1bbccfba65, 0x502ddb09ce8ec595)
    ∷ (0x2c62d056654cf3a9, 0x4efabe32752d357b)
    ∷ (0x1e2d035dfc65573d, 0x33e7198a09355b68)
    ∷ (0x040ed43bf6c08644, 0x0a4d23a86961505a)
    ∷ (0xfab01927b88d7181, 0x4a697e1d4f78155f)
    ∷ (0x298e31134fbcb5fc, 0xa735e5b097c571d6)
    ∷ (0x881f141a9af962df, 0x972eacb76cbf32a5)
    ∷ (0x81e14a12698a6d46, 0x6036920e35f486e6)
    ∷ (0xe093ce41b228a0f8, 0x73c3443f2f2c1e6d)
    ∷ (0x0c12bf4dd98349cc, 0x1ed7653bbba3f0ee)
    ∷ (0x0000000000000000, 0x0000000000000000)
    ∷ (0xea88cfcbe60b2c52, 0x629ef2f8283f96f4)
    ∷ (0x286c046d938c75ed, 0x44b79d9a1c4c6521)
    ∷ (0xdac0763c0442cbe4, 0x1a44a51481f6d0ca)
    ∷ (0xf1492dd3309e3d3a, 0xb8b6b0f0c3e28931)
    ∷ (0xcef674ebac041073, 0x38fe0a598fd0033b)
    ∷ (0x54d6dce1131b6c5d, 0x82e0da5f51f99a18)
    ∷ (0x57338363b44bef6e, 0x64a552210fa1a6c2)
    ∷ (0xe77845f8e3b8a58f, 0x9fcbefe9181572ed)
    ∷ (0xc2e4cba6758759bf, 0x26296f623473f3d5)
    ∷ (0x2a6b6e91e8ec36cf, 0x41706dcec99d4d0c)
    ∷ (0x2d80e528b97c33b8, 0xad78c618fea4218c)
    ∷ (0xfcb9a7e0352db4e7, 0x45e3ade1f3c86d28)
    ∷ (0x430581b41c0d34f9, 0x461ffd6c01877533)
    ∷ (0x8a187ee6e19921fd, 0x92e95ce3b96e1a88)
    ∷ (0x1631682bd32698b5, 0x277d5f19dbf7fbdc)
    ∷ (0xf2ac725197cebe09, 0x5ef3388e9dbab5eb)
    ∷ (0x227705e7c7aff947, 0x55ea2b5d1b5fedb8)
    ∷ (0x795639c9aa675fe5, 0x2f981c47af5dbb94)
    ∷ (0x860ac1ab381a6831, 0x8c3e39d802cdea66)
    ∷ (0xff5cf862927d37d4, 0xa3a6259fad9051f2)
    ∷ (0x42e7b4cac03df4e8, 0xa59d85468a0e61c4)
    ∷ (0x324fd30b9929a494, 0x7d1da7b87c186e13)
    ∷ (0x3a53b87db66a6b1c, 0x6987e12baedacea7)
    ∷ (0x1dc85cdf5b35d40e, 0xd5a291f4576d67b2)
    ∷ (0xe37691c3157823cb, 0x9586cc41717422b7)
    ∷ (0x714a52bf8524906d, 0x3b025ad47d9f1b20)
    ∷ (0x696eef25f4e10236, 0x076f90a2c81a383f)
    ∷ (0x4f173ef9c58e7d35, 0x58c89857ba2485dd)
    ∷ (0x21925a6560ff7a74, 0xb3afa3234507d162)
    ∷ (0xfebecd1c4e4df7c5, 0x40245db526194505)
    ∷ (0x82041590cedaee75, 0x86731a706bacba3c)
    ∷ (0xf95546a51fddf2b2, 0xac2cf66311202985)
    ∷ (0xb3ae9919f0a3c9d2, 0x1d2b35b649ece8f5)
    ∷ (0x09fe5e08f3730f99, 0xf7183eb9594bb443)
    ∷ (0xa1912509d545d723, 0x301b4907fb7a4373)
    ∷ (0xc8ffca2c21a4d515, 0x3774d9a533607b4c)
    ∷ (0x513a3da439eb2a08, 0x6b2f81ddb311deb5)
    ∷ (0x688cda5b28d1c227, 0xe4ede88843932cc8)
    ∷ (0x50d808dae5dbea19, 0x88adf9f73898ca42)
    ∷ (0xa47dc44cffb59176, 0xd9d41285199207de)
    ∷ (0xd730fc0f01f14239, 0xe711b805b1dc34d3)
    ∷ (0x840dab57437a2b13, 0x89f9c98cd71cc24b)
    ∷ (0x6a8bb0a753b18105, 0xe12a18dc964204e5)
    ∷ (0x0e15d5b1a2e30aee, 0x1b10956f6e72d8c3)
    ∷ (0x80037f6cb5baad57, 0x83b4ea24be7d9211)
    ∷ (0x450c3f7391adf19f, 0x49952e90bd370d44)
    ∷ (0x470b558feacdb2bd, 0x4c52dec468e62569)
    ∷ (0xa7989bce58e51245, 0x3f919afb47ca3b04)
    ∷ (0x0ff7e0cf7ed3caff, 0xf892ed45e5fbcc34)
    ∷ (0xb24cac672c9309c3, 0xfea94d9cc265fc02)
    ∷ (0x52df62269ebba93b, 0x8d6a09a3ed49e26f)
    ∷ (0x9fcc494f95ef3a7b, 0x53d18b843cc1dd8e)
    ∷ (0x44ee0a0d4d9d318e, 0xaa1756ba36be19b3)
    ∷ (0xe171fb3f6e1860e9, 0x90413c15a4a50a9a)
    ∷ (0xc50f401f24175cc8, 0xca21c4b4034a9f55)
    ∷ (0x70a867c15914507c, 0xd88022fef6160fd7)
    ∷ (0x3db833c4e7fa6e6b, 0x858f4afd99e3a227)
    ∷ (0x5534e99fcf2bac4c, 0x6162a275da708eef)
    ∷ (0x7f5f870e27c79a83, 0x2012cfbb13edc3e3)
    ∷ (0x8bfa4b983da9e1ec, 0x716b24c932e70e7f)
    ∷ (0xe88fa5379d6b6f70, 0x675902acfdeebed9)
    ∷ (0x96321747669c35e2, 0xa4c9b53d658a69cd)
    ∷ (0x123fbc1025e61ef1, 0x2d307cb1b296ab86)
    ∷ (0xaf84f0b877a6ddcd, 0x2b0bdc6895089bb0)
    ∷ (0xbbb2f26fdfe0065a, 0x09b173259b2e4841)
    ∷ (0xf0ab18adecaefd2b, 0x5b34c8da486b9dc6)
    ∷ (0x11dae39282b69dc2, 0xcb75f4cfecce975c)
    ∷ (0x31aa8c893e7927a7, 0x9b582fc6224052c9)
    ∷ (0x7d58edf25ca7d9a1, 0x25d53fefc63cebce)
    ∷ (0x1fcf36232055972c, 0xd06561a082bc4f9f)
    ∷ (0x4cf2617b62defe06, 0xbe8d1029e47cb907)
    ∷ (0xbc5979d68e70032d, 0xe5b9d8f3ac1724c1)
    ∷ (0x3854d281cd0a283e, 0x6c40117f7b0be68a)
    ∷ (0x4b19eac2334efb71, 0x5285bbffd345d587)
    ∷ (0x9bc29d74632fbc3f, 0x599ca82c55a08dd4)
    ∷ (0xfd5b929ee91d74f6, 0xa661d5cb784179df)
    ∷ (0x89fd216446c9a2ce, 0x74acd49de7362652)
    ∷ (0x74a6b3faafd4d638, 0xd2cd01569f775f8d)
    ∷ (0x03e55f82a7508333, 0xe645887e5e583cda)
    ∷ (0xb642785cda538f87, 0xf4e46e34ab04ac58)
    ∷ (0x48fcb540941e7842, 0xb4c033818d1de95d)
    ∷ (0xc1019424d2d7da8c, 0xc06ce71c6a2bcf0f)
    ∷ (0xcb1a95ae86f45626, 0xd13151db6d384796)
    ∷ (0x3c5a06ba3bcaae7a, 0x660d32d7126ab6d0)
    ∷ (0x46e960f136fd72ac, 0xafd0a6eee36f319e)
    ∷ (0xaa6811fd5d569b98, 0xc2c487ea77e0df1d)
    ∷ (0x1a23d7660aa5d179, 0x39aa3a2260540b32)
    ∷ (0x2e65baaa1e2cb08b, 0x4b3d4e66a0fc1d56)
    ∷ (0x3e5d6c4640aaed58, 0x63cac283c7bb9efd)
    ∷ (0x239530991b9f3956, 0xb668537790d6f94f)
    ∷ []
