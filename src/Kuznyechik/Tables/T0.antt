-- ===== src/Kuznyechik/Tables/T0.antt =====
-- internal/kuznyechik/tables.go: `t[0]`, 256 entries of two words.
use kubebao.Common.{ℕ, List, [], ◌∷◌}

unfoldable pub t_row0 : List (ℕ × ℕ)
t_row0 =
    (0x9680c07a0cd5fbe9, 0xb5aec91b93871119)
    ∷ (0xce1a17b28ce00819, 0x0af2fef8abfc327b)
    ∷ (0x77dcb250a2d0cbbf, 0x89c7884eefcabdc0)
    ∷ (0xd642635e1a104162, 0xc01393d33c12c469)
    ∷ (0x2f46659822e5384f, 0x369bbfadd7b19ea2)
    ∷ (0xe74a6f116a39b338, 0xefc0cb2f2997703c)
    ∷ (0x4d567d06c2b71ffb, 0x68fe0f96fd783508)
    ∷ (0x7379a4c39bf8884a, 0xaa09c5a389e794c7)
    ∷ (0x33bb07e78d3d32c1, 0xdfb49f6b267241b7)
    ∷ (0xf79b37188e997c6a, 0x637e3c1d7223d420)
    ∷ (0x49f36b95fb9f5c0e, 0x4b30427b9b551c0f)
    ∷ (0xd2e775cd23380297, 0xe3ddde3e5a3fed6e)
    ∷ (0x15ccaace4282ec0b, 0xd7a23875c503166a)
    ∷ (0x8dd35b6af83b12a5, 0xf7fae10dcf048998)
    ∷ (0x2be3730b1bcd7bba, 0x1555f240b19cb7a5)
    ∷ (0xf286c5df28bb5f33, 0x3862f35aec946656)
    ∷ (0x6b21d02f0d08c131, 0x60e8a8881e0962d5)
    ∷ (0x670dea59467004ed, 0x05797f7cb47e19dc)
    ∷ (0xeb665567214176e4, 0x8a511cdb83e00b35)
    ∷ (0xa8af19bf559a6c58, 0x7759032ee718b0d6)
    ∷ (0x0b82c319104e261e, 0xceeadf2407373c9d)
    ∷ (0x126253a119b40fc9, 0x7cd930a5684351fe)
    ∷ (0xa917fdebca900cf4, 0x0f8b81841f822ba7)
    ∷ (0xbcdb57258812e0ff, 0xd829b9f1da813dcd)
    ∷ (0x0931c8b1ed5ae685, 0x3e8d18b334c0c97f)
    ∷ (0xe86dba9b435fd6d3, 0x02e459e6488d65a6)
    ∷ (0x912e391557e3182b, 0x1ed5c1cb3ec7568d)
    ∷ (0xc6933b57feb08e30, 0x4cad64e167a66075)
    ∷ (0x87e97c27777f5417, 0x41c2bc8330a92e74)
    ∷ (0xdbd6bd7cce62e412, 0xdd50c68d6eff2411)
    ∷ (0xaa1c1217a88eacc3, 0x873ec4b9d4ef4534)
    ∷ (0xa6302861e3f6691f, 0xe2af134d7e983e3d)
    ∷ (0xc72bdf0361baee9c, 0x347fe64b9f3cfb04)
    ∷ (0xfa0fe93a5aebd91a, 0x7e3d694320ce3458)
    ∷ (0x3f973d91c645f71d, 0xba25489f8c053abe)
    ∷ (0xfbb70d6ec5e1b9b6, 0x06efebe9d854af29)
    ∷ (0xb3fc82afa1748514, 0x350d2b38bb9b2857)
    ∷ (0x24c4a68132ab1e51, 0xf8716089d086a23f)
    ∷ (0xb4527bc0fa4266d6, 0x9e7623e816db6fc3)
    ∷ (0xe15c722aae053056, 0x3c6941557c4dacd9)
    ∷ (0x531814d1907bd5ee, 0x71b6e8c73f4c1fff)
    ∷ (0xd1ec9a314126a2a0, 0x6b689b03915283fd)
    ∷ (0x4af884699981fc39, 0xc38507465038729c)
    ∷ (0x01b8e4549f0a60ac, 0x78d282aaf89a9b71)
    ∷ (0xf18d2a234aa5ff04, 0xb0d7b66727f908c5)
    ∷ (0x7a486c7276a26ecf, 0x9484dd10bd275db8)
    ∷ (0xa026355a27caea71, 0x310699372b42e2d8)
    ∷ (0x06161d3bc43c836e, 0xd3a98a7a55dadce5)
    ∷ (0x51ab1f796d6f1575, 0x81d12f500cbbea1d)
    ∷ (0x02b30ba8fd14c09b, 0xf067c79733f7f5e2)
    ∷ (0xf490d8e4ec87dc5d, 0xebcb7920b94ebab3)
    ∷ (0x3b322b02ff6db4e8, 0x99eb0572ea2813b9)
    ∷ (0xc9b4eeddd7d6ebdb, 0xa189f62806bc75ef)
    ∷ (0xcca91c1a71f4c882, 0xfa95396f980bc799)
    ∷ (0xda6e5928516884be, 0xa58244279665bf60)
    ∷ (0xb24466fb3e7ee5b8, 0x4ddfa9924301b326)
    ∷ (0xdf73abeff74aa7e7, 0xfe9e8b6008d20d16)
    ∷ (0xd8dd5280ac7c4425, 0x55e583b0a5924a82)
    ∷ (0x40c2a32416c5ba8b, 0x75bd5ac8af95d570)
    ∷ (0xd35f9199bc32623b, 0x9b0f5c94a2a5761f)
    ∷ (0x31080c4f7029f25a, 0x2fd358fc1585b455)
    ∷ (0x5b913834e22b53c7, 0x37e972def3164df1)
    ∷ (0xfeaaffa963c39aef, 0x5df324ae46e31d5f)
    ∷ (0x5f342ea7db031032, 0x14273f33953b64f6)
    ∷ (0x9fb108cbe18f1d6c, 0x8b23d1a8a747d866)
    ∷ (0x1cfd627fafd80a8e, 0xe92f20c6f1c3df15)
    ∷ (0xe6f28b45f533d394, 0x97124985d10deb4d)
    ∷ (0x236a5fee699dfd93, 0x530a68597dc6e5ab)
    ∷ (0xe5f964b9972d73a3, 0x1fa70cb81a6085de)
    ∷ (0x8a7da205a30df167, 0x5c81e9dd6244ce0c)
    ∷ (0xa32ddaa645d44a46, 0xb9b3dc0ae02f8c4b)
    ∷ (0x6a99347b9202a19d, 0x183a2a22e693f9a4)
    ∷ (0x1ff68d83cdc6aab9, 0x619a65fb3aaeb186)
    ∷ (0x398120aa02797473, 0x698cc2e5d9dfe65b)
    ∷ (0x3839c4fe9d7314df, 0x115e404f21457d2a)
    ∷ (0x46d4be1fd2f939e5, 0xa614d0b2fa4f0995)
    ∷ (0xecc8ac087a779526, 0x212a140b2ea04ca1)
    ∷ (0x958b2f866ecb5bde, 0x3d1b8c2658ea7f8a)
    ∷ (0x550e09ea54475680, 0xa21f62bd6a96c31a)
    ∷ (0xa19ed10eb8c08add, 0x49d41b9dd3d879a9)
    ∷ (0x4fe576ae3fa3df60, 0x9899c801ce8fc0ea)
    ∷ (0xc2362dc4c798cdc5, 0x6f63290c018b4972)
    ∷ (0x89764df9c1135150, 0xd434ace0a929a09f)
    ∷ (0x86519873e87534bb, 0x39103e29c833b505)
    ∷ (0x5605e6163659f6b7, 0x2aaa2780a1fbad89)
    ∷ (0x7de6951d2d948d0d, 0x3fffd5c010671a2c)
    ∷ (0x1d45862b30d26a22, 0x91fda26c09594464)
    ∷ (0x589ad7c88035f3f0, 0xbf5c37e3387b2362)
    ∷ (0xed70485ce57df58a, 0x59f896a1d63ad7d0)
    ∷ (0x36a6f5202b1f1198, 0x84a8502cb8c5f3c1)
    ∷ (0x22d2bbbaf6979d3f, 0x2bd8eaf3855c7eda)
    ∷ (0x5013fb2df26575d9, 0xf903adfaf421716c)
    ∷ (0xf8bce292a7ff1981, 0x8e5aaed41339c1ba)
    ∷ (0xbb75ae4ad324033d, 0x7352b12177c17a59)
    ∷ (0x5e8ccaf34409709e, 0x6cf5bd996da1ff87)
    ∷ (0x8c6bbf3e67317209, 0x8f2863a7379e12e9)
    ∷ (0xfda1105501dd3ad8, 0xd54661938d8e73cc)
    ∷ (0xc80c0a8948dc8b77, 0xd95b7482fe26ee9e)
    ∷ (0x5a29dc607d21336b, 0x4f3bf0740b8cd680)
    ∷ (0xb759943c985cc6e1, 0x16c366d5ddb60150)
    ∷ (0xac0a0f2c6cb22fad, 0x54974ec3813599d1)
    ∷ (0x1aeb7f446be489e0, 0x3a86aabca41903f0)
    ∷ (0x27cf497d50b5be66, 0x70c425b41bebccac)
    ∷ (0x7943838e14bccef8, 0x1c31982d764a332b)
    ∷ (0x65bee1f1bb64c476, 0xf51eb8eb8789ec3e)
    ∷ (0xff121bfdfcc9fa43, 0x2521a604be79862e)
    ∷ (0x9433cbd2f1c13b72, 0x45c90e8ca070e4fb)
    ∷ (0x9d0203631c9bddf7, 0x7b44163f94b02d84)
    ∷ (0x82f48ee0d15d774e, 0x1ade73c4ae1e9c02)
    ∷ (0x0c2c3a764b78c5dc, 0x6591d7f4aa777b09)
    ∷ (0xeadeb133be4b1648, 0xf2839e717b7a9044)
    ∷ (0x640605a5246ea4da, 0x8dcc3a417f13774f)
    ∷ (0xc38ec9905892ad69, 0x17b1aba6f911d203)
    ∷ (0x939d32bdaaf7d8b0, 0xeeb2065c0d30a36f)
    ∷ (0x804785482c49b7d5, 0xeab9b4539de969e0)
    ∷ (0x30b0e81bef2392f6, 0x5701da56ed1f2f24)
    ∷ (0x185874ec96f0497b, 0xcae16d2b97eef612)
    ∷ (0x66b50e0dd97a6441, 0x7dabfdd64ce482ad)
    ∷ (0x8bc546513c0791cb, 0x24536b779ade557d)
    ∷ (0x4b40603d068b9c95, 0xbb5785eca8a2e9ed)
    ∷ (0x6992db87f01c01aa, 0x908f6f1f2dfe9737)
    ∷ (0x72c1409704f2e8e6, 0xd2db4709717d0fb6)
    ∷ (0x030beffc621ea037, 0x88b5453dcb6d6e93)
    ∷ (0x295078a3e6d9bb21, 0xe53235d7826b4247)
    ∷ (0x52a0f0850f71b542, 0x09646a6dc7d6848e)
    ∷ (0x19e090b809fa29d7, 0xb233ef816f746d63)
    ∷ (0x07aef96f5b36e3c2, 0xab7b08d0ad404794)
    ∷ (0xfc19f4019ed75a74, 0xad94e3397514e8bd)
    ∷ (0x834c6ab44e5717e2, 0x620cf16e56840773)
    ∷ (0xbacd4a1e4c2e6391, 0x0b80338b8f5be128)
    ∷ (0xb0f76d53c36a2523, 0xbdb86e0570f646c4)
    ∷ (0x9e09ec9f7e857dc0, 0xf3f153025fdd4317)
    ∷ (0xbe685c8d75062064, 0x284e7e66e976c82f)
    ∷ (0xe44180ed0827130f, 0x67758e12e2fa1eaf)
    ∷ (0x7bf08826e9a80e63, 0xec565fba45bdc6c9)
    ∷ (0xf035ce77d5af9fa8, 0xc80534cddf6393b4)
    ∷ (0xd5498ca2780ee155, 0x48a6d6eef77faafa)
    ∷ (0xee7ba7a0876355bd, 0xd14dd39c1d57b943)
    ∷ (0xaf01e0d00eac8f9a, 0xdc220bfe4a58f742)
    ∷ (0x3415fe88d60bd103, 0x74cf97bb8b320623)
    ∷ (0xbfd0b8d9ea0c40c8, 0x509cfccc11ec535e)
    ∷ (0x6f84c6bc342082c4, 0x4326e56578244bd2)
    ∷ (0x3203e3b31237526d, 0xa7661dc1dee8dac6)
    ∷ (0x8ed8b4969a25b292, 0x7f4fa4300469e70b)
    ∷ (0x476c5a4b4df35949, 0xdec6521802d592e4)
    ∷ (0xf33e218bb7b13f9f, 0x40b071f0140efd27)
    ∷ (0x3a8acf566067d444, 0xe13987d812b288c8)
    ∷ (0xf90406c638f5792d, 0xf6882c7eeba35acb)
    ∷ (0x60a313361d46e72f, 0xae0277ac193e5e48)
    ∷ (0xaeb9048491a6ef36, 0xa4f08954b2c26c33)
    ∷ (0x1e4e69d752ccca15, 0x1948e751c2342af7)
    ∷ (0x63a8fcca7f584718, 0x26b73291d25330db)
    ∷ (0x0d94de22d472a570, 0x1d43555e52ede078)
    ∷ (0x1169bc5d7baaaffe, 0xf46c7598a32e3f6d)
    ∷ (0xcd11f84eeefea82e, 0x8247bbc560915ce8)
    ∷ (0x5922339c1f3f935c, 0xc78eb549c0e1b813)
    ∷ (0x7c5e7149b29eeda1, 0x472d576ae8fd815d)
    ∷ (0xb9c6a5e22e30c3a6, 0x833576b644368fbb)
    ∷ (0xa2953ef2dade2aea, 0xc1615ea018b5173a)
    ∷ (0x57bd0242a953961b, 0x5278a52a596136f8)
    ∷ (0x177fa166bf962c90, 0x27c5ffe2f6f4e388)
    ∷ (0x2061b0120b835da4, 0xdbbf2d64b6ab8b38)
    ∷ (0x6e3c22e8ab2ae268, 0x3bf467cf80bed0a3)
    ∷ (0x4cee99525dbd7f57, 0x102c8d3c05e2ae79)
    ∷ (0x257c42d5ada17efd, 0x80a3e223281c394e)
    ∷ (0x0000000000000000, 0x0000000000000000)
    ∷ (0x9aacfa0c47ad3e35, 0xd03f1eef39f06a10)
    ∷ (0xdecb4fbb6840c74b, 0x864c09caf0489667)
    ∷ (0x0e9f31deb66c0547, 0x95f6106399808eeb)
    ∷ (0x484b8fc164953ca2, 0x33e2c0d163cf877e)
    ∷ (0x611bf762824c8783, 0xd6d0f506e1a4c539)
    ∷ (0xddc0a0470a5e677c, 0x0ef94cf73b25f8f4)
    ∷ (0x45df51e3b0e799d2, 0x2ea1958f31226706)
    ∷ (0x766456043ddaab13, 0xf1150ae4175026b1)
    ∷ (0x4467b5b72fedf97e, 0x56731725c9b8fc77)
    ∷ (0x8f6050c2052fd23e, 0x079d269afcf37c7a)
    ∷ (0xb5ea9f946548067a, 0xe6a4a142ee41f4b2)
    ∷ (0xa48323c91ee2a984, 0x12c8d4da4d6fcbdf)
    ∷ (0x2a5b975f84c71b16, 0x6d8770ea49062cd4)
    ∷ (0x71caaf6b66ec48d1, 0x5a6e0234ba106125)
    ∷ (0x3e2fd9c5594f97b1, 0xc2f7ca35749fa1cf)
    ∷ (0xd0547e65de2cc20c, 0x13ba19a969c8188c)
    ∷ (0x08892ce572508629, 0x465f9a19cc5a520e)
    ∷ (0x682a3fd36f166106, 0xe85dedb5d5640c46)
    ∷ (0x54b6edbecb4d362c, 0xdacde017920c586b)
    ∷ (0x3c9cd26da45b572a, 0x32900da24768542d)
    ∷ (0xe3ef79825311f0cd, 0xcc0e86c24fba593b)
    ∷ (0xc598d4ab9cae2e07, 0xc41821dcaccb0ee6)
    ∷ (0x4271a88cebd17a10, 0x85da9d5f9c622092)
    ∷ (0x21d9544694893d08, 0xa36dafce4e311049)
    ∷ (0xd4f168f6e70481f9, 0x307454440fe5318b)
    ∷ (0xefc343f418693511, 0xa99f5136e5cd2232)
    ∷ (0xa53bc79d81e8c928, 0x6a1a5670b5f550ae)
    ∷ (0x0f27d58a296665eb, 0xed2492c9611a159a)
    ∷ (0x9096dd41c8e97887, 0x66074361c65dcdfc)
    ∷ (0xf5283cb0738dbcf1, 0x9319fb8a41d421c2)
    ∷ (0xf623d34c11931cc6, 0x1bacbeb78ab94f51)
    ∷ (0xcfa2f3e613ea68b5, 0x72207c525366a90a)
    ∷ (0xaba4f6433784cc6f, 0xffec46132c75de45)
    ∷ (0x4e5d92faa0a9bfcc, 0xe04b4aab36155b9b)
    ∷ (0x371e1174b4157134, 0xfc7ad286405f68b0)
    ∷ (0x9225d6e935fdb81c, 0x966084f6f5aa381e)
    ∷ (0xb6e170680756a64d, 0x6e11e47f252c9a21)
    ∷ (0x6c8f2940563e22f3, 0xcb93a058b3492541)
    ∷ (0x7f559eb5d0804d96, 0xcf9812572390efce)
    ∷ (0x5c3fc15bb91db005, 0x9c927a0e5e560a65)
    ∷ (0xe2579dd6cc1b9061, 0xb4dc0468b720c24a)
    ∷ (0x051df2c7a6222359, 0x5b1ccf479eb7b276)
    ∷ (0x3d2436393b513786, 0x4a428f08bff2cf5c)
    ∷ (0x74d75dacc0ce6b88, 0x0172cd7324a7d353)
    ∷ (0xa788cc357cfc09b3, 0x9a7d91e78602a54c)
    ∷ (0xd965b6d433762489, 0x2d37011a5d08d1f3)
    ∷ (0x88cea9ad5e1931fc, 0xace62e4a51b33bee)
    ∷ (0xc42030ff03a44eab, 0xbccaa37654519597)
    ∷ (0xbd63b37117188053, 0xa0fb3b5b221ba6bc)
    ∷ (0x6210189ee05227b4, 0x5e65b03b2ac9abaa)
    ∷ (0x2efe81ccbdef58e3, 0x4e493d072f2b05d3)
    ∷ (0xd7fa870a851a21ce, 0xb8c11179c4885f18)
    ∷ (0x10d15809e4a0cf52, 0x8cbef7325bb4a41c)
    ∷ (0x855a778f8a6b948c, 0xb1a57b14035edb96)
    ∷ (0x7eed7ae14f8a2d3a, 0xb74a90fddb0a74bf)
    ∷ (0x2677ad29cfbfdeca, 0x0816a71ee37157dd)
    ∷ (0x78fb67da8bb6ae54, 0x64e31a878ed0a85a)
    ∷ (0x14744e9add888ca7, 0xaf70badf3d998d1b)
    ∷ (0x9b141e58d8a75e99, 0xa8ed9c45c16af161)
    ∷ (0xb87e41b6b13aa30a, 0xfbe7f41cbcac14ca)
    ∷ (0xcb07e5752ac22b40, 0x51ee31bf354b800d)
    ∷ (0x99a715f025b39e02, 0x588a5bd2f29d0483)
    ∷ (0x9cbae7378391bd5b, 0x039694956c2ab6f5)
    ∷ (0x43c94cd874db1abc, 0xfd081ff564f8bbe3)
    ∷ (0x2c4d8a6440fb9878, 0xbe2efa901cdcf031)
    ∷ (0x81ff611cb343d779, 0x926b36f96573f291)
    ∷ (0x04a51693392843f5, 0x23ce4ded662d2907)
    ∷ (0x5d87250f2617d0a9, 0xe440f8a4a6cc9114)
    ∷ (0xcabf0121b5c84bec, 0x293cb315cdd11b7c)
    ∷ (0x70724b3ff9e6287d, 0x22bc809e428afa54)
    ∷ (0x9738242e93df9b45, 0xcd7c4bb16b1d8a68)
    ∷ (0x16c74532209c4c3c, 0x5f177d480e6e78f9)
    ∷ (0x13dab7f586be6f65, 0x040bb20f90d9ca8f)
    ∷ (0xadb2eb78f3b84f01, 0x2c45cc6979af02a0)
    ∷ (0x756fb9f85fc40b24, 0x79a04fd9dc3d4822)
    ∷ (0x6d37cd14c934425f, 0xb34122f24bd3be30)
    ∷ (0xe9d55ecfdc55b67f, 0x7a36db4cb017fed7)
    ∷ (0x84e293db1561f420, 0xc977f9befbc440e7)
    ∷ (0x981ff1a4bab9feae, 0x2058d9780a079ff2)
    ∷ (0xc085266c3a8c0d5e, 0x9f04ee9b327cbc90)
    ∷ (0x35ad1adc4901b1af, 0x0c1d151173a89d52)
    ∷ (0xdc784413955407d0, 0x762bce5dc3bf6385)
    ∷ (0x0a3a274d8f4446b2, 0xb6385d8effada7ec)
    ∷ (0xb14f89075c60458f, 0xc56aecaf886cddb5)
    ∷ (0x417a477089cfda27, 0x0d6fd862570f4e01)
    ∷ (0x28e89cf779d3db8d, 0x9de0b77d7af1d936)
    ∷ (0x1b539b10f4eee94c, 0x425428165c839881)
    ∷ (0x2df56e30dff1f8d4, 0xc6fc783ae4466b40)
    ∷ (0xe0e4967e310f50fa, 0x44bbc3ff84d737a8)
    ∷ (0xc13dc238a5866df2, 0xe7d66c31cae627e1)
    ∷ []
