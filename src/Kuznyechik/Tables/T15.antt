-- ===== src/Kuznyechik/Tables/T15.antt =====
-- internal/kuznyechik/tables.go: `t[15]`, 256 entries of two words.
use kubebao.Common.{ℕ, List, [], ◌∷◌}

unfoldable pub t_row15 : List (ℕ × ℕ)
t_row15 =
    (0x199680c07a0cd5fb, 0xfcb5aec91b938711)
    ∷ (0x7bce1a17b28ce008, 0xee0af2fef8abfc32)
    ∷ (0xc077dcb250a2d0cb, 0xdd89c7884eefcabd)
    ∷ (0x69d642635e1a1041, 0x11c01393d33c12c4)
    ∷ (0xa22f46659822e538, 0xcf369bbfadd7b19e)
    ∷ (0x3ce74a6f116a39b3, 0x6eefc0cb2f299770)
    ∷ (0x084d567d06c2b71f, 0x3168fe0f96fd7835)
    ∷ (0xc77379a4c39bf888, 0x16aa09c5a389e794)
    ∷ (0xb733bb07e78d3d32, 0xfbdfb49f6b267241)
    ∷ (0x20f79b37188e997c, 0xc4637e3c1d7223d4)
    ∷ (0x0f49f36b95fb9f5c, 0xfa4b30427b9b551c)
    ∷ (0x6ed2e775cd233802, 0xdae3ddde3e5a3fed)
    ∷ (0x6a15ccaace4282ec, 0x23d7a23875c50316)
    ∷ (0x988dd35b6af83b12, 0xc5f7fae10dcf0489)
    ∷ (0xa52be3730b1bcd7b, 0x041555f240b19cb7)
    ∷ (0x56f286c5df28bb5f, 0x4d3862f35aec9466)
    ∷ (0xd56b21d02f0d08c1, 0xe960e8a8881e0962)
    ∷ (0xdc670dea59467004, 0x7705797f7cb47e19)
    ∷ (0x35eb665567214176, 0xf08a511cdb83e00b)
    ∷ (0xd6a8af19bf559a6c, 0xdb7759032ee718b0)
    ∷ (0x9d0b82c319104e26, 0x93ceeadf2407373c)
    ∷ (0xfe126253a119b40f, 0x2e7cd930a5684351)
    ∷ (0xa7a917fdebca900c, 0x990f8b81841f822b)
    ∷ (0xcdbcdb57258812e0, 0xbad829b9f1da813d)
    ∷ (0x7f0931c8b1ed5ae6, 0x173e8d18b334c0c9)
    ∷ (0xa6e86dba9b435fd6, 0x3602e459e6488d65)
    ∷ (0x8d912e391557e318, 0xf11ed5c1cb3ec756)
    ∷ (0x75c6933b57feb08e, 0xbb4cad64e167a660)
    ∷ (0x7487e97c27777f54, 0x1441c2bc8330a92e)
    ∷ (0x11dbd6bd7cce62e4, 0xcddd50c68d6eff24)
    ∷ (0x34aa1c1217a88eac, 0x5f873ec4b9d4ef45)
    ∷ (0x3da6302861e3f669, 0xc1e2af134d7e983e)
    ∷ (0x04c72bdf0361baee, 0xf9347fe64b9f3cfb)
    ∷ (0x58fa0fe93a5aebd9, 0x187e3d694320ce34)
    ∷ (0xbe3f973d91c645f7, 0x65ba25489f8c053a)
    ∷ (0x29fbb70d6ec5e1b9, 0x5a06efebe9d854af)
    ∷ (0x57b3fc82afa17485, 0xe2350d2b38bb9b28)
    ∷ (0x3f24c4a68132ab1e, 0x5cf8716089d086a2)
    ∷ (0xc3b4527bc0fa4266, 0xef9e7623e816db6f)
    ∷ (0xd9e15c722aae0530, 0x213c6941557c4dac)
    ∷ (0xff531814d1907bd5, 0x8171b6e8c73f4c1f)
    ∷ (0xfdd1ec9a314126a2, 0x1c6b689b03915283)
    ∷ (0x9c4af884699981fc, 0x3cc3850746503872)
    ∷ (0x7101b8e4549f0a60, 0x4278d282aaf89a9b)
    ∷ (0xc5f18d2a234aa5ff, 0x8bb0d7b66727f908)
    ∷ (0xb87a486c7276a26e, 0x019484dd10bd275d)
    ∷ (0xd8a026355a27caea, 0x8e310699372b42e2)
    ∷ (0xe506161d3bc43c83, 0x4fd3a98a7a55dadc)
    ∷ (0x1d51ab1f796d6f15, 0x0581d12f500cbbea)
    ∷ (0xe202b30ba8fd14c0, 0x84f067c79733f7f5)
    ∷ (0xb3f490d8e4ec87dc, 0x02ebcb7920b94eba)
    ∷ (0xb93b322b02ff6db4, 0xae99eb0572ea2813)
    ∷ (0xefc9b4eeddd7d6eb, 0xe3a189f62806bc75)
    ∷ (0x99cca91c1a71f4c8, 0x6afa95396f980bc7)
    ∷ (0x60da6e5928516884, 0x8fa58244279665bf)
    ∷ (0x26b24466fb3e7ee5, 0xa04ddfa9924301b3)
    ∷ (0x16df73abeff74aa7, 0x06fe9e8b6008d20d)
    ∷ (0x82d8dd5280ac7c44, 0x0b55e583b0a5924a)
    ∷ (0x7040c2a32416c5ba, 0xed75bd5ac8af95d5)
    ∷ (0x1fd35f9199bc3262, 0x989b0f5c94a2a576)
    ∷ (0x5531080c4f7029f2, 0x7f2fd358fc1585b4)
    ∷ (0xf15b913834e22b53, 0xd437e972def3164d)
    ∷ (0x5ffeaaffa963c39a, 0xd35df324ae46e31d)
    ∷ (0xf65f342ea7db0310, 0x1f14273f33953b64)
    ∷ (0x669fb108cbe18f1d, 0xeb8b23d1a8a747d8)
    ∷ (0x151cfd627fafd80a, 0x34e92f20c6f1c3df)
    ∷ (0x4de6f28b45f533d3, 0x2c97124985d10deb)
    ∷ (0xab236a5fee699dfd, 0x51530a68597dc6e5)
    ∷ (0xdee5f964b9972d73, 0xea1fa70cb81a6085)
    ∷ (0x0c8a7da205a30df1, 0xc85c81e9dd6244ce)
    ∷ (0x4ba32ddaa645d44a, 0x48b9b3dc0ae02f8c)
    ∷ (0xa46a99347b9202a1, 0xab183a2a22e693f9)
    ∷ (0x861ff68d83cdc6aa, 0xf2619a65fb3aaeb1)
    ∷ (0x5b398120aa027974, 0x2a698cc2e5d9dfe6)
    ∷ (0x2a3839c4fe9d7314, 0x68115e404f21457d)
    ∷ (0x9546d4be1fd2f939, 0xa2a614d0b2fa4f09)
    ∷ (0xa1ecc8ac087a7795, 0xfd212a140b2ea04c)
    ∷ (0x8a958b2f866ecb5b, 0x3a3d1b8c2658ea7f)
    ∷ (0x1a550e09ea544756, 0xcea21f62bd6a96c3)
    ∷ (0xa9a19ed10eb8c08a, 0xcc49d41b9dd3d879)
    ∷ (0xea4fe576ae3fa3df, 0xb59899c801ce8fc0)
    ∷ (0x72c2362dc4c798cd, 0x706f63290c018b49)
    ∷ (0x9f89764df9c11351, 0x0ed434ace0a929a0)
    ∷ (0x0586519873e87534, 0x5639103e29c833b5)
    ∷ (0x895605e6163659f6, 0x082aaa2780a1fbad)
    ∷ (0x2c7de6951d2d948d, 0x0c3fffd5c010671a)
    ∷ (0x641d45862b30d26a, 0x7691fda26c095944)
    ∷ (0x62589ad7c88035f3, 0x12bf5c37e3387b23)
    ∷ (0xd0ed70485ce57df5, 0xbf59f896a1d63ad7)
    ∷ (0xc136a6f5202b1f11, 0x7284a8502cb8c5f3)
    ∷ (0xda22d2bbbaf6979d, 0x132bd8eaf3855c7e)
    ∷ (0x6c5013fb2df26575, 0x47f903adfaf42171)
    ∷ (0xbaf8bce292a7ff19, 0x9c8e5aaed41339c1)
    ∷ (0x59bb75ae4ad32403, 0xb77352b12177c17a)
    ∷ (0x875e8ccaf3440970, 0x5d6cf5bd996da1ff)
    ∷ (0xe98c6bbf3e673172, 0x878f2863a7379e12)
    ∷ (0xccfda1105501dd3a, 0x15d54661938d8e73)
    ∷ (0x9ec80c0a8948dc8b, 0xa1d95b7482fe26ee)
    ∷ (0x805a29dc607d2133, 0x964f3bf0740b8cd6)
    ∷ (0x50b759943c985cc6, 0x2916c366d5ddb601)
    ∷ (0xd1ac0a0f2c6cb22f, 0x1054974ec3813599)
    ∷ (0xf01aeb7f446be489, 0x7b3a86aabca41903)
    ∷ (0xac27cf497d50b5be, 0x9a70c425b41bebcc)
    ∷ (0x2b7943838e14bcce, 0xc71c31982d764a33)
    ∷ (0x3e65bee1f1bb64c4, 0xf3f51eb8eb8789ec)
    ∷ (0x2eff121bfdfcc9fa, 0x912521a604be7986)
    ∷ (0xfb9433cbd2f1c13b, 0x7845c90e8ca070e4)
    ∷ (0x849d0203631c9bdd, 0x6f7b44163f94b02d)
    ∷ (0x0282f48ee0d15d77, 0x9d1ade73c4ae1e9c)
    ∷ (0x090c2c3a764b78c5, 0x9e6591d7f4aa777b)
    ∷ (0x44eadeb133be4b16, 0xb2f2839e717b7a90)
    ∷ (0x4f640605a5246ea4, 0xb18dcc3a417f1377)
    ∷ (0x03c38ec9905892ad, 0x3217b1aba6f911d2)
    ∷ (0x6f939d32bdaaf7d8, 0x75eeb2065c0d30a3)
    ∷ (0xe0804785482c49b7, 0x19eab9b4539de969)
    ∷ (0x2430b0e81bef2392, 0x3d5701da56ed1f2f)
    ∷ (0x12185874ec96f049, 0xffcae16d2b97eef6)
    ∷ (0xad66b50e0dd97a64, 0x357dabfdd64ce482)
    ∷ (0x7d8bc546513c0791, 0x8a24536b779ade55)
    ∷ (0xed4b40603d068b9c, 0x7ebb5785eca8a2e9)
    ∷ (0x376992db87f01c01, 0x6d908f6f1f2dfe97)
    ∷ (0xb672c1409704f2e8, 0x54d2db4709717d0f)
    ∷ (0x93030beffc621ea0, 0xc688b5453dcb6d6e)
    ∷ (0x47295078a3e6d9bb, 0x80e53235d7826b42)
    ∷ (0x8e52a0f0850f71b5, 0xc309646a6dc7d684)
    ∷ (0x6319e090b809fa29, 0xbdb233ef816f746d)
    ∷ (0x9407aef96f5b36e3, 0x0dab7b08d0ad4047)
    ∷ (0xbdfc19f4019ed75a, 0x57ad94e3397514e8)
    ∷ (0x73834c6ab44e5717, 0xdf620cf16e568407)
    ∷ (0x28bacd4a1e4c2e63, 0xf50b80338b8f5be1)
    ∷ (0xc4b0f76d53c36a25, 0x24bdb86e0570f646)
    ∷ (0x179e09ec9f7e857d, 0xa9f3f153025fdd43)
    ∷ (0x2fbe685c8d750620, 0x3e284e7e66e976c8)
    ∷ (0xafe44180ed082713, 0xa867758e12e2fa1e)
    ∷ (0xc97bf08826e9a80e, 0x43ec565fba45bdc6)
    ∷ (0xb4f035ce77d5af9f, 0xc9c80534cddf6393)
    ∷ (0xfad5498ca2780ee1, 0xd748a6d6eef77faa)
    ∷ (0x43ee7ba7a0876355, 0x79d14dd39c1d57b9)
    ∷ (0x42af01e0d00eac8f, 0xd6dc220bfe4a58f7)
    ∷ (0x233415fe88d60bd1, 0xf674cf97bb8b3206)
    ∷ (0x5ebfd0b8d9ea0c40, 0x7c509cfccc11ec53)
    ∷ (0xd26f84c6bc342082, 0x224326e56578244b)
    ∷ (0xc63203e3b3123752, 0xb9a7661dc1dee8da)
    ∷ (0x0b8ed8b4969a25b2, 0x037f4fa4300469e7)
    ∷ (0xe4476c5a4b4df359, 0xe0dec6521802d592)
    ∷ (0x27f33e218bb7b13f, 0x0f40b071f0140efd)
    ∷ (0xc83a8acf566067d4, 0xece13987d812b288)
    ∷ (0xcbf90406c638f579, 0xdef6882c7eeba35a)
    ∷ (0x4860a313361d46e7, 0x7aae0277ac193e5e)
    ∷ (0x33aeb9048491a6ef, 0x94a4f08954b2c26c)
    ∷ (0xf71e4e69d752ccca, 0xb01948e751c2342a)
    ∷ (0xdb63a8fcca7f5847, 0xbc26b73291d25330)
    ∷ (0x780d94de22d472a5, 0xdc1d43555e52ede0)
    ∷ (0x6d1169bc5d7baaaf, 0xe8f46c7598a32e3f)
    ∷ (0xe8cd11f84eeefea8, 0x288247bbc560915c)
    ∷ (0x135922339c1f3f93, 0x50c78eb549c0e1b8)
    ∷ (0x5d7c5e7149b29eed, 0x4e472d576ae8fd81)
    ∷ (0xbbb9c6a5e22e30c3, 0x33833576b644368f)
    ∷ (0x3aa2953ef2dade2a, 0x0ac1615ea018b517)
    ∷ (0xf857bd0242a95396, 0x4a5278a52a596136)
    ∷ (0x88177fa166bf962c, 0xa727c5ffe2f6f4e3)
    ∷ (0x382061b0120b835d, 0x97dbbf2d64b6ab8b)
    ∷ (0xa36e3c22e8ab2ae2, 0x603bf467cf80bed0)
    ∷ (0x794cee99525dbd7f, 0x73102c8d3c05e2ae)
    ∷ (0x4e257c42d5ada17e, 0x1e80a3e223281c39)
    ∷ (0x0000000000000000, 0x0000000000000000)
    ∷ (0x109aacfa0c47ad3e, 0x62d03f1eef39f06a)
    ∷ (0x67decb4fbb6840c7, 0x44864c09caf04896)
    ∷ (0xeb0e9f31deb66c05, 0x1a95f6106399808e)
    ∷ (0x7e484b8fc164953c, 0xb833e2c0d163cf87)
    ∷ (0x39611bf762824c87, 0x38d6d0f506e1a4c5)
    ∷ (0xf4ddc0a0470a5e67, 0x820ef94cf73b25f8)
    ∷ (0x0645df51e3b0e799, 0x642ea1958f312267)
    ∷ (0xb1766456043ddaab, 0x9ff1150ae4175026)
    ∷ (0x774467b5b72fedf9, 0x2656731725c9b8fc)
    ∷ (0x7a8f6050c2052fd2, 0x41079d269afcf37c)
    ∷ (0xb2b5ea9f94654806, 0xade6a4a142ee41f4)
    ∷ (0xdfa48323c91ee2a9, 0x4512c8d4da4d6fcb)
    ∷ (0xd42a5b975f84c71b, 0x466d8770ea49062c)
    ∷ (0x2571caaf6b66ec48, 0x925a6e0234ba1061)
    ∷ (0xcf3e2fd9c5594f97, 0x27c2f7ca35749fa1)
    ∷ (0x8cd0547e65de2cc2, 0x5e13ba19a969c818)
    ∷ (0x0e08892ce5725086, 0x55465f9a19cc5a52)
    ∷ (0x46682a3fd36f1661, 0x2fe85dedb5d5640c)
    ∷ (0x6b54b6edbecb4d36, 0x8cdacde017920c58)
    ∷ (0x2d3c9cd26da45b57, 0xa332900da2476854)
    ∷ (0x3be3ef79825311f0, 0xa5cc0e86c24fba59)
    ∷ (0xe6c598d4ab9cae2e, 0x7dc41821dcaccb0e)
    ∷ (0x924271a88cebd17a, 0x6985da9d5f9c6220)
    ∷ (0x4921d9544694893d, 0xd5a36dafce4e3110)
    ∷ (0x8bd4f168f6e70481, 0x95307454440fe531)
    ∷ (0x32efc343f4186935, 0x3ba99f5136e5cd22)
    ∷ (0xaea53bc79d81e8c9, 0x076a1a5670b5f550)
    ∷ (0x9a0f27d58a296665, 0x58ed2492c9611a15)
    ∷ (0xfc9096dd41c8e978, 0xb366074361c65dcd)
    ∷ (0xc2f5283cb0738dbc, 0x409319fb8a41d421)
    ∷ (0x51f623d34c11931c, 0x861bacbeb78ab94f)
    ∷ (0x0acfa2f3e613ea68, 0xac72207c525366a9)
    ∷ (0x45aba4f6433784cc, 0x1dffec46132c75de)
    ∷ (0x9b4e5d92faa0a9bf, 0xf7e04b4aab36155b)
    ∷ (0xb0371e1174b41571, 0x30fc7ad286405f68)
    ∷ (0x1e9225d6e935fdb8, 0x37966084f6f5aa38)
    ∷ (0x21b6e170680756a6, 0x6b6e11e47f252c9a)
    ∷ (0x416c8f2940563e22, 0xe4cb93a058b34925)
    ∷ (0xce7f559eb5d0804d, 0x88cf9812572390ef)
    ∷ (0x655c3fc15bb91db0, 0xd99c927a0e5e560a)
    ∷ (0x4ae2579dd6cc1b90, 0xe7b4dc0468b720c2)
    ∷ (0x76051df2c7a62223, 0x895b1ccf479eb7b2)
    ∷ (0x5c3d2436393b5137, 0xe14a428f08bff2cf)
    ∷ (0x5374d75dacc0ce6b, 0x1b0172cd7324a7d3)
    ∷ (0x4ca788cc357cfc09, 0x839a7d91e78602a5)
    ∷ (0xf3d965b6d4337624, 0x492d37011a5d08d1)
    ∷ (0xee88cea9ad5e1931, 0x4cace62e4a51b33b)
    ∷ (0x97c42030ff03a44e, 0x3fbccaa376545195)
    ∷ (0xbcbd63b371171880, 0xf8a0fb3b5b221ba6)
    ∷ (0xaa6210189ee05227, 0xfe5e65b03b2ac9ab)
    ∷ (0xd32efe81ccbdef58, 0x8d4e493d072f2b05)
    ∷ (0x18d7fa870a851a21, 0x53b8c11179c4885f)
    ∷ (0x1c10d15809e4a0cf, 0xaa8cbef7325bb4a4)
    ∷ (0x96855a778f8a6b94, 0x90b1a57b14035edb)
    ∷ (0xbf7eed7ae14f8a2d, 0xcab74a90fddb0a74)
    ∷ (0xdd2677ad29cfbfde, 0xd80816a71ee37157)
    ∷ (0x5a78fb67da8bb6ae, 0x8564e31a878ed0a8)
    ∷ (0x1b14744e9add888c, 0x61af70badf3d998d)
    ∷ (0x619b141e58d8a75e, 0x20a8ed9c45c16af1)
    ∷ (0xcab87e41b6b13aa3, 0x71fbe7f41cbcac14)
    ∷ (0x0dcb07e5752ac22b, 0x6751ee31bf354b80)
    ∷ (0x8399a715f025b39e, 0xa4588a5bd2f29d04)
    ∷ (0xf59cbae7378391bd, 0x2d039694956c2ab6)
    ∷ (0xe343c94cd874db1a, 0x2bfd081ff564f8bb)
    ∷ (0x312c4d8a6440fb98, 0x09be2efa901cdcf0)
    ∷ (0x9181ff611cb343d7, 0x5b926b36f96573f2)
    ∷ (0x0704a51693392843, 0xcb23ce4ded662d29)
    ∷ (0x145d87250f2617d0, 0x9be440f8a4a6cc91)
    ∷ (0x7ccabf0121b5c84b, 0x25293cb315cdd11b)
    ∷ (0x5470724b3ff9e628, 0xd022bc809e428afa)
    ∷ (0x689738242e93df9b, 0xbecd7c4bb16b1d8a)
    ∷ (0xf916c74532209c4c, 0xe55f177d480e6e78)
    ∷ (0x8f13dab7f586be6f, 0x6c040bb20f90d9ca)
    ∷ (0xa0adb2eb78f3b84f, 0x522c45cc6979af02)
    ∷ (0x22756fb9f85fc40b, 0x5979a04fd9dc3d48)
    ∷ (0x306d37cd14c93442, 0xa6b34122f24bd3be)
    ∷ (0xd7e9d55ecfdc55b6, 0x747a36db4cb017fe)
    ∷ (0xe784e293db1561f4, 0xd2c977f9befbc440)
    ∷ (0xf2981ff1a4bab9fe, 0xe62058d9780a079f)
    ∷ (0x90c085266c3a8c0d, 0xf49f04ee9b327cbc)
    ∷ (0x5235ad1adc4901b1, 0xb40c1d151173a89d)
    ∷ (0x85dc784413955407, 0xc0762bce5dc3bf63)
    ∷ (0xec0a3a274d8f4446, 0xd1b6385d8effada7)
    ∷ (0xb5b14f89075c6045, 0x66c56aecaf886cdd)
    ∷ (0x01417a477089cfda, 0xaf0d6fd862570f4e)
    ∷ (0x3628e89cf779d3db, 0xc29de0b77d7af1d9)
    ∷ (0x811b539b10f4eee9, 0x39425428165c8398)
    ∷ (0x402df56e30dff1f8, 0x4bc6fc783ae4466b)
    ∷ (0xa8e0e4967e310f50, 0x6344bbc3ff84d737)
    ∷ (0xe1c13dc238a5866d, 0xb6e7d66c31cae627)
    ∷ []
