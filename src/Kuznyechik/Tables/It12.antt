-- ===== src/Kuznyechik/Tables/It12.antt =====
-- internal/kuznyechik/tables.go: `it[12]`, 256 entries of two words.
use kubebao.Common.{ℕ, List, [], ◌∷◌}

unfoldable pub it_row12 : List (ℕ × ℕ)
it_row12 =
    (0x13dba88557b945c2, 0xc67b0bb0b9b03f2a)
    ∷ (0x2181537c20c25995, 0x36576d1fc21f5664)
    ∷ (0x6e420129639373a6, 0x9d35f49b939b3891)
    ∷ (0x5e9720693d487827, 0x4b6ff58b488b0c08)
    ∷ (0xd85975e39466c8e0, 0xb586e5486648ca8c)
    ∷ (0x461cd14912c49c86, 0x20421483c48316a5)
    ∷ (0xe6a7170a155ba606, 0x915d12e35be3ae75)
    ∷ (0xdb70c2e74896355d, 0x80cb5049964958d1)
    ∷ (0x9a98d31bd4217a09, 0xd9283f7621766644)
    ∷ (0x663bef88c7562f78, 0x052eab2256228f4b)
    ∷ (0xc90d07dfea7f9af4, 0x558b89477f47a871)
    ∷ (0xf2887f3acc913016, 0x2e8762ef91efb96f)
    ∷ (0x8eb7bb2b0debec19, 0x66f24f7aeb7a715e)
    ∷ (0xd7d45bf7bed047ec, 0x543cc14dd04d5566)
    ∷ (0xe27a60bb47d88869, 0xddb1dc5ed85e1418)
    ∷ (0x057b1a0ca7d3c404, 0x5fd71c03d30375e7)
    ∷ (0xdc840252c6e5e68f, 0xf96a2bf5e5f570e1)
    ∷ (0x3c71b850a89d7930, 0x02ad90149d14392e)
    ∷ (0xa6e96b4b7cbc0339, 0xdb85af62bc625f6a)
    ∷ (0x42c1a6f84047b2e9, 0x6caeda3e473eacc8)
    ∷ (0x73b2ea05ebcc5303, 0xa9cf0990cc9057db)
    ∷ (0x8c386192244bfbcf, 0x408428c54bc52c89)
    ∷ (0x6ccddb904a336470, 0xbb43932433246546)
    ∷ (0x230e89c509624e43, 0x10210aa062a00bb3)
    ∷ (0xd186f6ffc5f37e55, 0x3ea6684ff34fb2dc)
    ∷ (0x27d3fe745be1602c, 0x5ccdc41de11db1de)
    ∷ (0xf7f365366b42f412, 0x71507eec42eccc88)
    ∷ (0x4ceae5519fa1d78e, 0x9e2f2c85a185fca8)
    ∷ (0x713d30bcc26c44d5, 0x8fb96e2f6c2f0a0c)
    ∷ (0xa3927147db6fc73d, 0x8452b3616f612a8d)
    ∷ (0x07f4c0b58e73d3d2, 0x79a17bbc73bc2830)
    ∷ (0x8a6acc9a5f68c276, 0x2a1e81c768c7cb33)
    ∷ (0x1ed95c2854afdd18, 0x01b7480aaf0afd17)
    ∷ (0xa964455f560a8c35, 0x3a3f8b670a67c080)
    ∷ (0x76c9f0094c1f9707, 0xf61815931f93223c)
    ∷ (0xf007a583e53127c0, 0x08f105503150e4b8)
    ∷ (0xbabfedda01b3c9f7, 0xfc4480d7b3d7ffaa)
    ∷ (0x963c4a0b226708b8, 0x0ddfae7267726bf3)
    ∷ (0x8f11d696f8bb0672, 0x75c99dc4bbc4bed4)
    ∷ (0x84418f33808ea711, 0xd89f777c8e7c9b53)
    ∷ (0x99b1641f08d187b4, 0xec658a77d177f419)
    ∷ (0xb049d9c28cd682ff, 0x4229b8d1d6d115a7)
    ∷ (0xfd05512ee627bf1a, 0xcf3d46ea27ea2685)
    ∷ (0x5a4a57d86fcb5648, 0x07833b36cb36b665)
    ∷ (0x61cf2f3d4925fcaa, 0x7c8fd09e259ea77b)
    ∷ (0x4e653fe8b601c058, 0xb8594b3a013aa17f)
    ∷ (0xc72644763599ff93, 0xa70a7ffc99fcf811)
    ∷ (0xb83037632813de21, 0xda32e7681368a27d)
    ∷ (0x7bcb04a44f090fdd, 0x31d456290929e001)
    ∷ (0x78e2b3a093f9f260, 0x0499e328f928725c)
    ∷ (0x0f8d2e142ab68f0c, 0xe1ba2405b6059fea)
    ∷ (0xf57cbf8f42e2e3c4, 0x57261953e253915f)
    ∷ (0x5dbe976de1b8859a, 0x7e22408ab88a9e55)
    ∷ (0x4b1e25e411d2045c, 0xe78e5739d239d498)
    ∷ (0x3721e1f5d0a8d853, 0xaffb7aaca8ac1ca9)
    ∷ (0x6fe46c9496c399cd, 0x8e0e2625c325f71b)
    ∷ (0xdfadb5561a151b32, 0xcc279ef415f4e2bc)
    ∷ (0x6d6bb62dbf638e1b, 0xa878419a639aaacc)
    ∷ (0xadb932ee0489a25a, 0x76d345da89da7aed)
    ∷ (0x188bf1202f8ce4a1, 0x6b2de1088c081aad)
    ∷ (0x4d4c88ec6af13de5, 0x8d14fe3bf13b3322)
    ∷ (0x33fc9644822bf63c, 0xe317b4112b11a6c4)
    ∷ (0xc25d5e7a924a3b97, 0xf8dd63ff4aff8df6)
    ∷ (0x1c5686917d0fcace, 0x27c12fb50fb5a0c0)
    ∷ (0xe7017ab7e00b4c6d, 0x8266c05d0b5d61ff)
    ∷ (0x9b3ebea621719062, 0xca13edc871c8a9ce)
    ∷ (0x5963e0dcb33babf5, 0x32ce8e373b372438)
    ∷ (0xea038e1ae31dd4b7, 0x45aa83e71de7a3c2)
    ∷ (0x3b8578e526eeaae2, 0x7b0ceba8eea8111e)
    ∷ (0xc0d284c3bbea2c41, 0xdeab0440ea40d021)
    ∷ (0xfca33c9313775571, 0xdc0694547754e90f)
    ∷ (0x56eecec8998d24f9, 0xd374aa328d32bbd2)
    ∷ (0x31734cfdab8be1ea, 0xc561d3ae8baefb13)
    ∷ (0x64b43531eef638ae, 0x2358cc9df69dd29c)
    ∷ (0xdd226fef33b50ce4, 0xea51f94bb54bbf6b)
    ∷ (0x7944de1d66a9180b, 0x17a23196a996bdd6)
    ∷ (0x0879eea1a4c55cde, 0x981b5fb9c5b9b7da)
    ∷ (0xcc761dd34dac5ef0, 0x0a5c9544ac44dd96)
    ∷ (0xe153d7bf9b2875d4, 0xe8fc695f285f8645)
    ∷ (0x09df831c5195b6b5, 0x8b208d0795077850)
    ∷ (0x8d9e0c2fd11b11a4, 0x53bffa7b1b7be303)
    ∷ (0x75e0470d90ef6aba, 0xc355a092ef92b061)
    ∷ (0xd2af41fb190383e8, 0x0bebdd4e034e2081)
    ∷ (0xec512312983eed0e, 0x2f302ae53ee54478)
    ∷ (0xbb198067f4e3239c, 0xef7f5269e3693020)
    ∷ (0xac1f5f53f1d94831, 0x65e89764d964b567)
    ∷ (0xf655088b9e121e79, 0x626bac5212520302)
    ∷ (0xc3fb33c7671ad1fc, 0xebe6b1411a41427c)
    ∷ (0xcf5faad7915ca34d, 0x3f1120455c454fcb)
    ∷ (0x9d6c13ae5a52a9db, 0xa08944ca52ca4e74)
    ∷ (0xf9d8269fb4a49175, 0x83d18857a4579ce8)
    ∷ (0x721487b81e9cb968, 0xbaf4db2e9c2e9851)
    ∷ (0x813a953f275d6315, 0x87486b7f5d7feeb4)
    ∷ (0x127dc538a2e9afa9, 0xd540d90ee90ef0a0)
    ∷ (0x906ee70359443101, 0x6745077044708c49)
    ∷ (0x5bec3a659a9bbc23, 0x14b8e9889b8879ef)
    ∷ (0x7f1673151d8a21b2, 0x7d3898948a945a6c)
    ∷ (0x94b390b20bc71f6e, 0x2ba9c9cdc7cd3624)
    ∷ (0x2faa10d5ff243cf2, 0xc4d69ba424a40604)
    ∷ (0x4535664dce34613b, 0x150fa182348284f8)
    ∷ (0xa74f06f689ece952, 0xc8be7ddcecdc90e0)
    ∷ (0xedf74eaf6d6e0765, 0x3c0bf85b6e5b8bf2)
    ∷ (0x29f8bddd8407054b, 0xae4c32a607a6e1be)
    ∷ (0x36878c4825f83238, 0xbcc0a812f812d323)
    ∷ (0xc174e97e4ebac62a, 0xcd90d6febafe1fab)
    ∷ (0x24fa497087119d91, 0x6980711c111c2383)
    ∷ (0x028fdab929a017d6, 0x267667bfa0bf5dd7)
    ∷ (0x5395d4c43e5ee0fd, 0x8ca3b6315e31ce35)
    ∷ (0xc68029cbc0c915f8, 0xb431ad42c942379b)
    ∷ (0xaf36e8572d29b58c, 0x50a522652965273a)
    ∷ (0x44930bf03b648b50, 0x0634733c643c4b72)
    ∷ (0x10f21f818b49b87f, 0xf336beb149b1ad77)
    ∷ (0xde0bd8ebef45f159, 0xdf1c4c4a454a2d36)
    ∷ (0x0af634188d654b08, 0xbe6d38066506ea0d)
    ∷ (0x7eb01ea8e8dacbd9, 0x6e034a2ada2a95e6)
    ∷ (0x6b391b25c440b7a2, 0xc2e2e89840984d76)
    ∷ (0xb532c3ce2b0546fb, 0x1dfea4d205d26040)
    ∷ (0x1ba24624f37c191c, 0x5e6054097c0988f0)
    ∷ (0xb2c6037ba5769529, 0x645fdf6e766e4870)
    ∷ (0x979a27b6d737e2d3, 0x1ee47ccc37cca479)
    ∷ (0x04dd77b152832e6f, 0x4ceccebd83bdba6d)
    ∷ (0x267593c9aeb18a47, 0x4ff616a3b1a37e54)
    ∷ (0x41e811fc9cb74f54, 0x59e36f3fb73f3e95)
    ∷ (0xc8ab6a621f2f709f, 0x46b05bf92ff967fb)
    ∷ (0x62e6983995d50117, 0x49c2659fd59f3526)
    ∷ (0x483792e0cd22f9e1, 0xd2c3e238223846c5)
    ∷ (0x6340f5846085eb7c, 0x5af9b7218521faac)
    ∷ (0xb61b74caf7f5bb46, 0x28b311d3f5d3f21d)
    ∷ (0x9347500785b4ccbc, 0x5208b271b4711e14)
    ∷ (0x6512588c1ba6d2c5, 0x30631e23a6231d16)
    ∷ (0xcb82dd66c3df8d22, 0x73fdeef8dff8f5a6)
    ∷ (0x709b5d01373caebe, 0x9c82bc913c91c586)
    ∷ (0x5233b979cb0e0a96, 0x9f98648f0e8f01bf)
    ∷ (0x809cf882d20d897e, 0x9473b9c10dc1213e)
    ∷ (0x8bcca127aa38281d, 0x39255379387904b9)
    ∷ (0x0652ad087b2339b9, 0x6a9aa9022302e7ba)
    ∷ (0x2b776764ada7129d, 0x883a5519a719bc69)
    ∷ (0x1706df34053a6bad, 0x8a97c50d3a0d8547)
    ∷ (0x776f9db4b94f7d6c, 0xe523c72d4f2dedb6)
    ∷ (0x35ae3b4cf908cf85, 0x898d1d130813417e)
    ∷ (0x74462ab065bf80d1, 0xd06e722cbf2c7feb)
    ∷ (0xf87e4b2241f47b1e, 0x90ea5ae9f4e95362)
    ∷ (0x1df0eb2c885f20a5, 0x34fafd0b5f0b6f4a)
    ∷ (0x3efe62e9813d6ee6, 0x24dbf7ab3dab64f9)
    ∷ (0xc40ff372e969022e, 0x9247cafd69fd6a4c)
    ∷ (0x38accfe1fa1e575f, 0x4e415ea91ea98343)
    ∷ (0xe88c54a3cabdc361, 0x63dce458bd58fe15)
    ∷ (0xd3092c46ec536983, 0x18d00ff053f0ef0b)
    ∷ (0x55c779cc457dd944, 0xe6391f337d33298f)
    ∷ (0x0ca49910f64672b1, 0xd4f7910446040db7)
    ∷ (0xa466b1f2551c14ef, 0xfdf3c8dd1cdd02bd)
    ∷ (0x4367cb45b5175882, 0x7f95088017806342)
    ∷ (0xdad6af5abdc6df36, 0x93f082f7c6f7975b)
    ∷ (0xfb57fc269d0486a3, 0xa5a7efe804e8c13f)
    ∷ (0xf4dad232b7b209af, 0x441dcbedb2ed5ed5)
    ∷ (0xaa4df25b8afa7188, 0x0f723e66fa6652dd)
    ∷ (0x3a231558d3be4089, 0x68373916be16de94)
    ∷ (0x7c3fc411c17adc0f, 0x48752d957a95c831)
    ∷ (0x6810ac2118b04a1f, 0xf7af5d99b099df2b)
    ∷ (0xb3606ec650267f42, 0x77640dd026d087fa)
    ∷ (0x2ad10ad958f7f8f6, 0x9b0187a7f7a773e3)
    ∷ (0x981709a2fd816ddf, 0xff5e58c981c93b93)
    ∷ (0xd55b814e9770503a, 0x724aa6f270f208b1)
    ∷ (0x60694280bc7516c1, 0x6fb40220752068f1)
    ∷ (0x22a8e478fc32a428, 0x031ad81e321ec439)
    ∷ (0x5c18fad014e86ff1, 0x6d199234e83451df)
    ∷ (0x89437b9e83983fcb, 0x1f5334c698c6596e)
    ∷ (0x5748a3756cddce92, 0xc04f788cdd8c7458)
    ∷ (0xd672364a4b80ad87, 0x470713f380f39aec)
    ∷ (0xae9085ead8795fe7, 0x439ef0db79dbe8b0)
    ∷ (0xd0209b4230a3943e, 0x2d9dbaf1a3f17d56)
    ∷ (0x255c24cd724177fa, 0x7abba3a241a2ec09)
    ∷ (0x9fe3c91773f2be0d, 0x86ff2375f27513a3)
    ∷ (0xd4fdecf36220ba51, 0x6171744c204cc73b)
    ∷ (0x7a6d6919ba59e5b6, 0x22ef849759972f8b)
    ∷ (0x1589058d2c9a7c7b, 0xace1a2b29ab2d890)
    ∷ (0x69b6c19cede0a074, 0xe4948f27e02710a1)
    ∷ (0x404e7c4169e7a53f, 0x4ad8bd81e781f11f)
    ∷ (0x54611471b02d332f, 0xf502cd8d2d8de605)
    ∷ (0xf32e128739c1da7d, 0x3dbcb051c15176e5)
    ∷ (0xe58ea00ec9ab5bbb, 0xa410a7e2abe23c28)
    ∷ (0xca24b0db368f6749, 0x60c63c468f463a2c)
    ∷ (0x511a0e7d17fef72b, 0xaad5d18efe8e93e2)
    ∷ (0x2e0c7d680a74d699, 0xd7ed491a741ac98e)
    ∷ (0xe3dc0d06b2886202, 0xce8a0ee088e0db92)
    ∷ (0x4ab84859e482ee37, 0xf4b5858782871b12)
    ∷ (0xef78941644ce10b3, 0x1a7d9fe4cee4d625)
    ∷ (0x1f7f3195a1ff3773, 0x128c9ab4ffb4329d)
    ∷ (0x7d99a9ac342a3664, 0x5b4eff2b2a2b07bb)
    ∷ (0xeba5e3a7164d3edc, 0x569151594d596c48)
    ∷ (0xeedef9abb19efad8, 0x09464d5a9e5a19af)
    ∷ (0x6a9f769831105dc9, 0xd1d93a26102682fc)
    ∷ (0xf1a1c83e1061cdab, 0x1bcad7ee61ee2b32)
    ∷ (0x4fc3525543512a33, 0xab62998451846ef5)
    ∷ (0x01a66dbdf550ea6b, 0x133bd2be50becf8a)
    ∷ (0xff8a8b97cf87a8cc, 0xe94b215587557b52)
    ∷ (0xb494ae73de55ac90, 0x0ec5766c556cafca)
    ∷ (0xe428cdb33cfbb1d0, 0xb72b755cfb5cf3a2)
    ∷ (0x876838375c7e5aac, 0xedd2c27d7e7d090e)
    ∷ (0xe0f5ba026e789fbf, 0xfbc7bbe178e149cf)
    ∷ (0x0d02f4ad031698da, 0xc7cc43ba16bac23d)
    ∷ (0xfe2ce62a3ad742a7, 0xfa70f3ebd7ebb4d8)
    ∷ (0xa8c228e2a35a665e, 0x290459d95ad90f0a)
    ∷ (0xbe629a6b5330e798, 0xb0a84e6a306a45c7)
    ∷ (0x85e7e28e75de4d7a, 0xcba4a5c2dec254d9)
    ∷ (0x679d82353206c513, 0x1615799c069c40c1)
    ∷ (0x91c88abeac14db6a, 0x747ed5ce14ce43c3)
    ∷ (0x50bc63c0e2ae1d40, 0xb9ee0330ae305c68)
    ∷ (0x8213223bfbad9ea8, 0xb205de7ead7e7ce9)
    ∷ (0x3dd7d5ed5dcd935b, 0x119642aacdaaf6a4)
    ∷ (0xa11dabfef2cfd0eb, 0xa224d4decfde775a)
    ∷ (0x9e45a4aa86a25466, 0x95c4f1cba2cbdc29)
    ∷ (0xa2341cfa2e3f2d56, 0x976961df3fdfe507)
    ∷ (0x30d521405edb0b81, 0xd65a0110db103499)
    ∷ (0x1a042b99062cf377, 0x4d5b86b72cb7477a)
    ∷ (0x325afbf9777b1c57, 0xf02c66af7baf694e)
    ∷ (0xbced40d27a90f04e, 0x96de29d590d51810)
    ∷ (0x3f580f54746d848d, 0x37e025156d15ab73)
    ∷ (0x9cca7e13af0243b0, 0xb3b29674027481fe)
    ∷ (0xbfc4f7d6a6600df3, 0xa3939cd460d48a4d)
    ∷ (0xb1efb47f79866894, 0x51126a6f866fda2d)
    ∷ (0x285ed0607157ef20, 0xbd77e01857182e34)
    ∷ (0x2d25ca6cd6842b24, 0xe2a0fc1b841b5bd3)
    ∷ (0x92e13dba70e426d7, 0x413360cfe4cfd19e)
    ∷ (0x1154723c7e195214, 0xe00d6c0f190f62fd)
    ∷ (0x58c58d61466b419e, 0x21f55c896b89ebb2)
    ∷ (0x9515fd0ffe97f505, 0x38921b739773f9ae)
    ∷ (0x16a0b289f06a81c6, 0x99ac17b36ab34acd)
    ∷ (0x47babcf4e79476ed, 0x3379c63d943dd92f)
    ∷ (0xfaf1919b68546cc8, 0xb69c3d5654560eb5)
    ∷ (0xcdd0706eb8fcb49b, 0x196747fafcfa121c)
    ∷ (0x0329b704dcf0fdbd, 0x354db501f001925d)
    ∷ (0xa5c0dc4fa04cfe84, 0xeec81a634c63cd37)
    ∷ (0x83b54f860efd74c3, 0xa13e0cc0fdc0b363)
    ∷ (0x192d9c9ddadc0eca, 0x781633b6dcb6d527)
    ∷ (0x4991ff5d3872138a, 0xc1f830867286894f)
    ∷ (0x390aa25c0f4ebd34, 0x5d7a8c174e174cc9)
    ∷ (0xcef9c76a640c4926, 0x2c2af2fb0cfb8041)
    ∷ (0x142f6830d9ca9610, 0xbfda700cca0c171a)
    ∷ (0xbd4b2d6f8fc01a25, 0x85e5fb6bc06bd79a)
    ∷ (0xabeb9fe67faa9be3, 0x1c49ecd8aad89d57)
    ∷ (0x0b5059a57835a163, 0xad56eab835b82587)
    ∷ (0xe92a391e3fed290a, 0x70e736e6ede6319f)
    ∷ (0x2c83a7d123d4c14f, 0xf19b2ea5d4a59459)
    ∷ (0xd9ff185e6136228b, 0xa6bd37f636f60506)
    ∷ (0x86ce558aa92eb0c7, 0xfee910c32ec3c684)
    ∷ (0x0e2b43a9dfe66567, 0xf281f6bbe6bb5060)
    ∷ (0xb7bd197702a5512d, 0x3b88c36da56d3d97)
    ∷ (0x20273ec1d592b3fe, 0x256cbfa192a199ee)
    ∷ (0xc5a99ecf1c39e845, 0x817c18433943a5c6)
    ∷ (0x88e5162376c8d5a0, 0x0c68e678c87896e4)
    ∷ (0xa0bbc643079f3a80, 0xb11f06609f60b8d0)
    ∷ (0x0000000000000000, 0x0000000000000000)
    ∷ (0xb9965adedd43344a, 0xc90935d643d66df7)
    ∷ (0x340856f10c5825ee, 0x9ab6cfad58ad8ef4)
    ∷ (0x5f314dd4c818924c, 0x585427351835c382)
    ∷ []
