-- ===== src/Kuznyechik/Tables/T3.antt =====
-- internal/kuznyechik/tables.go: `t[3]`, 256 entries of two words.
use kubebao.Common.{ℕ, List, [], ◌∷◌}

unfoldable pub t_row3 : List (ℕ × ℕ)
t_row3 =
    (0xccaa9a639a4178a8, 0x1b8e63bf2db66b6d)
    ∷ (0x9b3742c942ad31b4, 0xf815c9c0cb2980c6)
    ∷ (0x1018d590d529de96, 0x4ef0907ad240edbc)
    ∷ (0x79a4cc37cc7ce41e, 0xd3e237d7b6279a97)
    ∷ (0x47850d3a0dc5978a, 0xad6b3a0534df0617)
    ∷ (0x05e68d2d8dcd02f5, 0x2f332db071146154)
    ∷ (0xbf018f0e8f64989f, 0x960a0ecb79b93352)
    ∷ (0x3fc1e804e8efa7a5, 0xa386049d26fc57fb)
    ∷ (0x8acfbe50bed23b13, 0x6bea50f5bd6da601)
    ∷ (0xb904793879532539, 0x1d2838aa27a1cc8b)
    ∷ (0x90d8b29ab2a2e1ac, 0x7b7c9a2c8d058915)
    ∷ (0x567df1a3f1ba9d2d, 0x3e94a330429b20d0)
    ∷ (0xe89c57a45788d183, 0x7591a4b49f26d8f9)
    ∷ (0xa31375f27523ff86, 0x0dbef27317c9e39f)
    ∷ (0x685c30ae3003eeb9, 0x401daee2c063bc50)
    ∷ (0xed7ada89da45d376, 0x5aa28904ee32b9ad)
    ∷ (0xdd5266fa663e720f, 0x8871fa8a5bf24daa)
    ∷ (0xacfa218521b7f95a, 0x7ceb856084f54063)
    ∷ (0x744eca52ca4489a0, 0xdba9525aae136c9d)
    ∷ (0x4c6afd69fdca4792, 0x2e0269e972f30fc4)
    ∷ (0xd35b1b841bfca0e2, 0x242b84d66cca252d)
    ∷ (0x4a6f0b5f0bfdfa34, 0xa5205f882cebf01d)
    ∷ (0x37cd634c631ac8ee, 0x84fe4ca04fdcc0a5)
    ∷ (0xdf5134e83492196d, 0xf16fe814d0fa185c)
    ∷ (0x25d6e4cee49f7d1a, 0xb310ce44169478ef)
    ∷ (0xf964ab3dabf7db24, 0xe66e3d81e962fe3e)
    ∷ (0x6e59c698c634531f, 0xcb3f98839e7b4389)
    ∷ (0xc546382238e2c3d2, 0xe1f922cde0923748)
    ∷ (0x0beff053f00fd018, 0x836953ec462c09d3)
    ∷ (0x73ab156d1525e037, 0x8d846d74540f583f)
    ∷ (0xbae7022302a99a6a, 0xb939237b08ad5206)
    ∷ (0xcb4f455c4520113f, 0x4da35c91d7aa5fcf)
    ∷ (0xbee1a607a6324cae, 0x4b050784ddbdf829)
    ∷ (0xb30ba062a00a2110, 0x434e6209c5890e23)
    ∷ (0xfb67f92ff95bb046, 0x9f702f1f626aabc8)
    ∷ (0xc8ac3e473edaae6c, 0xe9b24740f8a6c142)
    ∷ (0x23d312f812a8c0bc, 0x3832f825488c8736)
    ∷ (0x94de16be16393768, 0x8940bed35815233a)
    ∷ (0x81204e034eddeb0b, 0xe8830319fb41afd2)
    ∷ (0xdcb24ff34f68a63e, 0x557ef3c5fff686d1)
    ∷ (0x84c6c32ec310e9fe, 0xc7b02ea98a55ce86)
    ∷ (0xdb5790cc9009cfa9, 0x0353cceb05eab273)
    ∷ (0x1df2d3f5d311b328, 0x46bbf5f7ca741bb6)
    ∷ (0x7ba79e259ed08f7c, 0xaafc25493d2fcf61)
    ∷ (0x6050bbe6bbf681f2, 0x6765e6dfa9432b0e)
    ∷ (0x1a170cca0c70dabf, 0x1096cad930682f14)
    ∷ (0x121b87828785b5f4, 0x37ee82e45948b84a)
    ∷ (0xd954c2dec2a5a4cb, 0x7a4dde758ee2e785)
    ∷ (0x724b3c643c733406, 0x508b643bf00b9344)
    ∷ (0xf68dff4aff63ddf8, 0x973b4a927a5e5dc2)
    ∷ (0x342e185718e077bd, 0x20ef577160d05e28)
    ∷ (0xd4bec4bbc49dc975, 0x7206bbf896d6118f)
    ∷ (0x39c41e321ed81a03, 0x28a432fc78e4a822)
    ∷ (0x6dbabd83bdceec4c, 0x6f2e8352b177dd04)
    ∷ (0x080c8b488bf56f4b, 0x2778483d6920975e)
    ∷ (0x58748cdd8c784fc0, 0x92cedd6c75a34857)
    ∷ (0x5c7228f928e39904, 0x60f2f993a0b3e278)
    ∷ (0xfe8174027496b2b3, 0xb04302af137eca9c)
    ∷ (0xb50e5654563d9cb6, 0xc86c54689b91f1fa)
    ∷ (0x2dda6f866f6a1251, 0x946886797fb4efb1)
    ∷ (0x7c42411a41b1e6eb, 0xfcd11a67c733fbc3)
    ∷ (0xdab7b9c5b95f1b98, 0xde5cc5a4a1ee7908)
    ∷ (0x9cd29df69dcc5823, 0xae38f6ee3135b464)
    ∷ (0xf56e8451849962ab, 0x332a51435552c34f)
    ∷ (0xe97c7ead7ede05b2, 0xa89eadfb3b221382)
    ∷ (0xcd4ab36ab317ac99, 0xc6816af089b2a016)
    ∷ (0x7e411308131d8d89, 0x85cf08f94c3bae35)
    ∷ (0x362d4a454a4c1cdf, 0x59f145efebd80bde)
    ∷ (0xf36b726772aedf0d, 0xb80867220b4a3c96)
    ∷ (0x01e029092956d431, 0xdd0f094fa404cb7b)
    ∷ (0x9f31e6ede636e770, 0x0a29ed3f1e392ae9)
    ∷ (0xa6f5f8dff8eefd73, 0x228ddfc366dd82cb)
    ∷ (0x4060d205d2a4fe1d, 0xfb46052bcec332b5)
    ∷ (0x22333bf13bfe148d, 0xe53df16aec884c4d)
    ∷ (0x5994a5d4a52e9bf1, 0x4fc1d423d1a7832c)
    ∷ (0x6c5a948a9498387d, 0xb2218a1d1573167f)
    ∷ (0xd6bd96a99631a217, 0x0b18a9661dde4479)
    ∷ (0x4180fb0cfbf22a2c, 0x26490c646ac7f9ce)
    ∷ (0x5d9201f001b54d35, 0xbdfdf0dc04b72903)
    ∷ (0x69bc19a719553a88, 0x9d12a7ad6467772b)
    ∷ (0x498c704470074567, 0x0131445903e76e90)
    ∷ (0xea9f05b60524bae1, 0x0c8fb62a142e8d0f)
    ∷ (0x8cca486648e586b5, 0xe0c86694e37559d8)
    ∷ (0x70486e766edf5f64, 0x299576a57b03c6b2)
    ∷ (0xd0b8609f60061fb1, 0x803a9f0743c6bba0)
    ∷ (0xb8e450315005f108, 0xc02731e583a507f0)
    ∷ (0xb6ed2d4f2dc723e5, 0x6c7d4fb9b49d6f77)
    ∷ (0x579dd8aad8ec491c, 0xe39baa7fe69febab)
    ∷ (0xad1a088c08e12d6b, 0xa1e48c2f20f18b18)
    ∷ (0xdeb11de11dc4cd5c, 0x2c60e15b74fed327)
    ∷ (0x4d8ad460d49c93a3, 0xf30d60a6d6f7c4bf)
    ∷ (0x09eca241a2a3bb7a, 0xfa774172cd245c25)
    ∷ (0x45865f285f69fce8, 0xd475289bbfd753e1)
    ∷ (0x7da2681368e732da, 0x21de1328633730b8)
    ∷ (0x8ec91a741a49edd7, 0x99d6740a687d0c2e)
    ∷ (0xd8b4ebd7ebf370fa, 0xa742d73a2ae62cfe)
    ∷ (0x11f8fc99fc7f0aa7, 0x93ff9935764426c7)
    ∷ (0x426380178008957f, 0x825817b545cb6743)
    ∷ (0xa11027e0278f94e4, 0x74a0e0ed9cc1b669)
    ∷ (0x0c0a2f6c2f6eb98f, 0xd5446cc2bc303d71)
    ∷ (0x63b3c0fdc00c3ea1, 0xc374fd0e864fb583)
    ∷ (0x141e71b471b20852, 0xbcccb48507504793)
    ∷ (0x19f477d1778a65ec, 0xb487d1081f64b199)
    ∷ (0x973d6da56dc3883b, 0x2d51a5027719bdb7)
    ∷ (0x5a77decfded424a2, 0xebd0cff2feab1da1)
    ∷ (0xe77503d3031cd75f, 0x04c4d3a70c1a7b05)
    ∷ (0x3a2765296522a550, 0x8cb5292d57e836af)
    ∷ (0x1ff181e781bdd84a, 0x3fa5e769417c4e40)
    ∷ (0x5f9153e253192657, 0xc4e3e2428fbf7cf5)
    ∷ (0x71a8477f47898b55, 0xf49a7feadf070dc9)
    ∷ (0x0fe95477549406dc, 0x71557713933ca3fc)
    ∷ (0x21d040ea4004abde, 0x412ceabbc384d2c0)
    ∷ (0x91389b939bf4359d, 0xa67393632901426e)
    ∷ (0x98d439d239578ee7, 0x5c04d211e4251e4b)
    ∷ (0xa91caca8ac7afbaf, 0x53d8a8d0f5e12137)
    ∷ (0x07e5df3fdf616997, 0x562d3f2efa1c34a2)
    ∷ (0xe2938efe8ed1d5aa, 0x2bf7fe177d0e1a51)
    ∷ (0xd75dbfa0bf677626, 0xd617a029b9da8f02)
    ∷ (0x7a47b72cb7865b4d, 0x77f32c06992b041a)
    ∷ (0x66554dd04dc13c54, 0xec47d0bef75bd4d7)
    ∷ (0x2bdf99b0995daff7, 0x1f4ab01821ac1068)
    ∷ (0x44667621763f28d9, 0x097a21d41bd3989a)
    ∷ (0x8d2a616f61b35284, 0x3dc76fdb477192a3)
    ∷ (0x9ed1cfe4cf603341, 0xd726e470ba3de192)
    ∷ (0xff615d0b5dc06682, 0x6d4c0be0b77a01e7)
    ∷ (0x993410db10015ad6, 0x810bdb5e4021d530)
    ∷ (0xa2f35cfb5c752bb7, 0xd0b1fb3cb3cd28e4)
    ∷ (0x6a5f62bc62af85db, 0x3903bc7c4b6be9a6)
    ∷ (0x2436cdc7cdc9a92b, 0x6e1fc70bb290b394)
    ∷ (0x0605f636f637bda6, 0x8b2236615e18ffd9)
    ∷ (0xaef97397731b9238, 0x05f597fe0ffd1595)
    ∷ (0x92dbe088e00e8ace, 0x026288b2060ddce3)
    ∷ (0x29dccba2cbf1c495, 0x6654a286aaa4459e)
    ∷ (0x88ccec42ec7e5071, 0x12f4426b3665f3f7)
    ∷ (0x61b092ef92a055c3, 0xba6aef900d47e075)
    ∷ (0x1bf725c325260e8e, 0xcd99c396946ce46f)
    ∷ (0xf48ead58adcfb69a, 0xee25580cf1560834)
    ∷ (0x203069e369527fef, 0x9c23e3f4678019bb)
    ∷ (0xee99a192a1bf6c25, 0xfeb392d5c13e2720)
    ∷ (0x283ce2abe2a710a4, 0xbb5babc90ea08ee5)
    ∷ (0x527b558755214be9, 0xcca887cf978b8aff)
    ∷ (0xf28b5b6e5bf80b3c, 0x65076e6daf4ef7ed)
    ∷ (0xf16820752002b46f, 0xc11675bc80426960)
    ∷ (0x2e39149d1490ad02, 0x30799da850b8713c)
    ∷ (0x17fd0aaf0a48b701, 0x18ddaf54285cd91e)
    ∷ (0x96dd44ac44955c0a, 0xf05eac4dd31d76cc)
    ∷ (0xaf195a9e5a4d4609, 0xd8fa9eb1abf9deee)
    ∷ (0x3e21c10dc1b97394, 0x7e890dd282f89c80)
    ∷ (0x0e097d7e7dc2d2ed, 0xac5a7e5c37386887)
    ∷ (0x953e3fb73f6fe359, 0x544fb79cfc11e841)
    ∷ (0x3bc74c204c747161, 0x51ba2062f3ecfdd4)
    ∷ (0x83231c111c718069, 0x919d11877049fa24)
    ∷ (0x0a0fd95ad9590429, 0x5e665aa3e228c2a8)
    ∷ (0xc7456a306a4ea8b0, 0x98e730536b9a62be)
    ∷ (0x161d23a6231e6330, 0xc5d2a61b8c581265)
    ∷ (0x2c3a468f463cc660, 0x49678f36dbb024ca)
    ∷ (0xc343ce14ced57e74, 0x6adb14acbe8ac891)
    ∷ (0x8b2f97599784ef22, 0xb6e559ba19696d7a)
    ∷ (0xe49678c878e6680c, 0xa0d5c8762316e588)
    ∷ (0xab1ffebafed690cd, 0x2ac6ba4e7ee974c1)
    ∷ (0x1e11a8eea8eb0c7b, 0xe2aaee26e578853b)
    ∷ (0xbb072b2a2bff4e5b, 0x64362a34aca9997d)
    ∷ (0x892cc54bc5288440, 0xcffb4b249261388c)
    ∷ (0xc4a6112b11b417e3, 0x3cf62b824496fc33)
    ∷ (0xef79889b88e9b814, 0x23bc9b9a653aec5b)
    ∷ (0x0000000000000000, 0x0000000000000000)
    ∷ (0xbd02dd1cddc8f3fd, 0xef141c55f2b166a4)
    ∷ (0x27d5b6dcb6331678, 0xca0edcda9d9c2d19)
    ∷ (0x8725b835b8ea56ad, 0x63a13578a559500b)
    ∷ (0xeb7f2cbf2c726ed0, 0xd180bf65b02a4674)
    ∷ (0x75aee35be3125d91, 0x06a65b150a17a7e6)
    ∷ (0xaaffd7b3d78044fc, 0xf7c9b301daedbfba)
    ∷ (0xe170f5e5f52b6af9, 0x8fe6e5c6520284dc)
    ∷ (0x6bbf4bb54bf951ea, 0xe40cb533ef6f22dd)
    ∷ (0x9ad76bc06bfbe585, 0x251ac08f6f2d4bbd)
    ∷ (0x559e8ab88a40227e, 0x9a85b8e16d97be5d)
    ∷ (0xfa87d026d00d6477, 0x427f2650c66e60b3)
    ∷ (0x3dc2ba16ba43ccc7, 0xda981603adf4020d)
    ∷ (0x13fbae8baed361c5, 0xeae18babfd4c7331)
    ∷ (0xc94c174e178c7a5d, 0x34bd4e0f5ca20a39)
    ∷ (0x80c0670a678b3f3a, 0x358c0a565f4564a9)
    ∷ (0xa0f00ee90ed940d5, 0xa9afe9a238c57d12)
    ∷ (0x5e717aeb7a4ff266, 0x19eceb0d2bbbb78e)
    ∷ (0x50780795078d208b, 0xb5b695511c83df09)
    ∷ (0x26359fd59f65c249, 0x1701d5953998e662)
    ∷ (0x764d984098e8e2c2, 0xa2b740c4251b396b)
    ∷ (0x2a3fb0b9b00b7bc6, 0xc245b95785a8db13)
    ∷ (0x486c594d59519156, 0xdc3e4d16a7e3a5eb)
    ∷ (0x4383a91ea95e414e, 0x5f571efae1cfac38)
    ∷ (0xc0a0b50fb52fc127, 0xceca0f7d9186561c)
    ∷ (0x8f29337d331f39e6, 0x44d97d45cc79c755)
    ∷ (0x5b97f7c6f782f093, 0x36dfc6bd5aafd6da)
    ∷ (0x46652433249343bb, 0x7064334a90dbcd6c)
    ∷ (0xfc822610263ad9d1, 0xc95d103198769f6a)
    ∷ (0x15fe58bd58e4dc63, 0x61c3bdcaa3548ce8)
    ∷ (0x4f8986728630f8c1, 0x8a1372385dff9149)
    ∷ (0xc2a3e71de783aa45, 0xb7d41de31a8e03ea)
    ∷ (0xe090dcecdc7dbec8, 0x52e9ec89f6064fa7)
    ∷ (0xc1409c069c791516, 0x13c5063235829d67)
    ∷ (0x322bee61eed7ca1b, 0xabcd61103ec8a1f1)
    ∷ (0xa51683c483144220, 0x869cc41249d11c46)
    ∷ (0xe373a7f7a787019b, 0xf6f8f758d90ad12a)
    ∷ (0x77adb149b1be36f3, 0x7fb8498b811ff210)
    ∷ (0x7fa13a013a4b59b8, 0x58c001b6e83f654e)
    ∷ (0x4e69af7baf662cf0, 0x571c7b77f9fb5a32)
    ∷ (0x7844e53ee52a302f, 0x0eed3e98122351ec)
    ∷ (0x51982e9c2edbf4ba, 0x68b99c1eb8871472)
    ∷ (0x547ea3b1a316f64f, 0x478ab1aec9937526)
    ∷ (0x0dea066506386dbe, 0x084b658d1834f60a)
    ∷ (0x9d32b4ffb49a8c12, 0x7337ffa195317f1f)
    ∷ (0xb0e8db79dbf09e43, 0xe75f79d8ea8590ae)
    ∷ (0x8526ea27ea463dcf, 0x1abf27e62e5105fd)
    ∷ (0xf76dd643d63509c9, 0x4a3443ddde5a96b9)
    ∷ (0x33cbc768c7811e2a, 0x76c2685f9acc6a8a)
    ∷ (0xa4f6aacdaa429611, 0x5b93cd5dedd5d73d)
    ∷ (0xf884823482a10f15, 0x3b6134ce4d663545)
    ∷ (0x3c22931f931518f6, 0x07971f4c09f0c976)
    ∷ (0x0203521252ac6b62, 0x791e129e8b0855f6)
    ∷ (0xbce2f415f49e27cc, 0x321b151a56b5addf)
    ∷ (0xfd620f190f6c0de0, 0x1452197e3c725411)
    ∷ (0x35ce315e31b6a38c, 0xfde05e3ec4d49553)
    ∷ (0x6253e9f4e95aea90, 0x1e7bf441224b7ef8)
    ∷ (0xec9af380f3130747, 0x87ad804b4a3672d6)
    ∷ (0x933bc981c9585eff, 0xdf6d81fda2091798)
    ∷ (0xc6a5433943187c81, 0x45e8391ccf9ea9c5)
    ∷ (0xf088097c0954605e, 0x1c197cf32446a21b)
    ∷ (0xcf49e178e1bbc7fb, 0xbf9f786e02baf5e0)
    ∷ (0x3028bc73bc7ba179, 0xd2d3738eb5c0f407)
    ∷ (0x64561fc21f6d5736, 0x9559c2207c538121)
    ∷ (0x3824373b378ece32, 0xf5ab3bb3dce06359)
    ∷ (0xcaaf6c556c76c50e, 0x90ac55de73ae94b4)
    ∷ (0xd2bb328d32aa74d3, 0xf9248d99c8ceee56)
    ∷ (0x2fd93d943dc67933, 0xed7694e7f4bcba47)
    ∷ (0x03e37b1b7bfabf53, 0xa4111bd12f0c9e8d)
    ∷ (0xb4ee7f5d7f6b4887, 0x15635d273f953a81)
    ∷ (0xb2eb896b895cf521, 0x9e416b46618dc558)
    ∷ (0xb70d04460491f7d4, 0xb17246f61099a40c)
    ∷ (0x65b636cb363b8307, 0x4856cb6fd8574a5a)
    ∷ (0x31c8957a952d7548, 0x0fdc7ac111c43f7c)
    ∷ (0x18145ed85edcb1dd, 0x6988d847bb607ae2)
    ∷ (0xe6952ada2a4a036e, 0xd9cbdae8a81eb07e)
    ∷ (0x0406a424a49bd6c4, 0xf23c24ffd510aa2f)
    ∷ (0x82c3351835275458, 0x4c9218c8d44d315f)
    ∷ (0x86c5913c91bc829c, 0xbeae3c37015d9b70)
    ∷ (0x4b8f225622ab2e05, 0x782f56c788ef3b66)
    ∷ (0x1c12fafcfa476719, 0x9bb4fcb86e70d0cd)
    ∷ (0x539b7c8e7c779fd8, 0x11a78e80338f4184)
    ∷ (0xd15849964950cb80, 0x5d359648e7c270db)
    ∷ (0xa8fc85a1852c2f9e, 0x8ed7a19f51e5ea4c)
    ∷ (0xd55eedb2edcb1d44, 0xaf09b2b732d2daf4)
    ∷ (0xcea9c871c8ed13ca, 0x62907121a6be3e9b)
    ∷ (0xe57651c151b0bc3d, 0x7ddac13987122ef3)
    ∷ (0x6fb9ef91ef62872e, 0x163091cc3a7f88f2)
    ∷ (0xb108f270f2a64a72, 0x3a5070974e815bd5)
    ∷ (0xa715d1d6d1b82942, 0xff82d68cc2d949b0)
    ∷ (0x67b564d96497e865, 0x3148d9f1535f1fac)
    ∷ []
